-- ===== src/Crawler/Responses.antt =====
-- `_get_response` and `_post_response` of EngagementCrawler (app/crawlers/engagement.py): which
-- replies of the client are responses, and which errors the others are.
use Prim.Native.String.{◌++◌ as join_text}
use text.Mathlib.Text.{starts_with}
use creator_engagement_proje.Base.{
  ℕ, ◌≡◌, refl, String, Bool, true, false, not, ◌&&◌, ◌||◌, List, [], ◌∷◌, contains, ltb, leb,
  if◌then◌else◌, ◌==◌, string_key, nat_key, of_if, arith,
}
use creator_engagement_proje.Base.Dict.{Dict, insert}

-- PlatformCrawlerError and its subclasses.
pub data CrawlerError : Type 0 where
  crawler_error platform_blocked deterministic_blocked : String → CrawlerError

-- What the client gives: a response (`is_argus`: its text names ArgusSecurityPlugin as the reason of
-- a block), a PlatformCrawlerError, or another exception.
pub data ClientReply : Type 0 where
  replied : (status : ℕ) (is_argus : Bool) → ClientReply
  client_crawler_error : CrawlerError → ClientReply
  client_exception : ClientReply

pub data Fetched : Type 0 where
  response_with : (status : ℕ) → Fetched
  fetch_raised : CrawlerError → Fetched

-- dict(headers or {}), with the crawler's cookies where they are asked for.
unfoldable pub headers_of : String → Bool → Dict String String → Dict String String
headers_of cookies include_cookies headers =
    if include_cookies && not (cookies == "") then insert "Cookie" cookies headers else headers

abbrev blocked_statuses : List ℕ
blocked_statuses = 401 ∷ 403 ∷ 406 ∷ 412 ∷ 418 ∷ 429 ∷ 432 ∷ 461 ∷ 471 ∷ []

abbrev is_success_status : ℕ → Bool
is_success_status status = not (ltb status 200 || leb 300 status)

-- The tests on a status that both share; `shown` is str(status).
unfoldable pub checked_status : (ℕ → String) → List ℕ → ℕ → Fetched
checked_status shown allowed status =
    if contains blocked_statuses status
    then fetch_raised
        (platform_blocked (join_text "engagement endpoint blocked with HTTP " (shown status)))
    else if not (is_success_status status) && not (contains allowed status)
    then fetch_raised
        (crawler_error (join_text "engagement endpoint returned HTTP " (shown status)))
    else response_with status

unfoldable pub get_response : (ℕ → String) → String → List ℕ → ClientReply → Fetched
unfolding checked_status
get_response shown url allowed (replied status is_argus) =
    if status == 403 && starts_with url "https://www.douyin.com/aweme/v1/web/" && is_argus
    then fetch_raised (deterministic_blocked "抖音接口被 ArgusSecurityPlugin 拒绝：访客请求缺少有效设备标识或签名")
    else checked_status shown allowed status
get_response shown url allowed (client_crawler_error error) = fetch_raised error
get_response shown url allowed client_exception =
    fetch_raised (crawler_error "engagement request failed")

-- The JSON of a response: the text of an object, another value, or none.
pub data ResponseJson {ℓ} (J : Type ℓ) : Type ℓ where
  object : J → ResponseJson J
  other_json no_json : ResponseJson J

pub data JsonFetched {ℓ} (J : Type ℓ) : Type ℓ where
  payload : J → JsonFetched J
  json_raised : CrawlerError → JsonFetched J

-- `_get_json` and `_post_json` on what their request gives, where `json` is the response's.
unfoldable pub json_of {ℓ} : {J : Type ℓ} → ResponseJson J → Fetched → JsonFetched J
json_of json (fetch_raised error) = json_raised error
json_of (object value) (response_with status) = payload value
json_of other_json (response_with status) =
    json_raised (crawler_error "engagement endpoint returned invalid JSON")
json_of no_json (response_with status) =
    json_raised (crawler_error "engagement endpoint returned non-JSON")

-- `has_post`: the client has a method post.
unfoldable pub post_response : (ℕ → String) → Bool → ClientReply → Fetched
unfolding checked_status
post_response shown false reply = fetch_raised (crawler_error "HTTP client does not support POST")
post_response shown true (replied status is_argus) = checked_status shown [] status
post_response shown true (client_crawler_error error) = fetch_raised error
post_response shown true client_exception = fetch_raised (crawler_error "engagement request failed")

-- Whether a result is a response with a status that is not one of a block, and is a success or
-- allowed.
unfoldable pub is_good : List ℕ → Fetched → Bool
is_good allowed (response_with status) =
    not (contains blocked_statuses status) && (is_success_status status || contains allowed status)
is_good allowed (fetch_raised error) = true

allowed_status : (b s a : Bool) → b ≡ false → (not s && not a) ≡ false → (not b && (s || a)) ≡ true
allowed_status b s a e f = ground arith

is_good-checked_status :
    (shown : ℕ → String) (allowed : List ℕ) (status : ℕ)
    → is_good allowed (checked_status shown allowed status) ≡ true
unfolding is_good checked_status
is_good-checked_status shown allowed status =
    of_if (λ fetched. is_good allowed fetched ≡ true) (contains blocked_statuses status) _ _
      (λ e. refl)
      (λ e.
        of_if (λ fetched. is_good allowed fetched ≡ true)
          (not (is_success_status status) && not (contains allowed status)) _ _ (λ f. refl)
          (λ f.
            allowed_status (contains blocked_statuses status) (is_success_status status)
              (contains allowed status) e f))

-- A response of `_get_response` or `_post_response` never has the status of a block, and has a
-- successful status or one that the caller allows.
pub is_good-get_response :
    (shown : ℕ → String) (url : String) (allowed : List ℕ) (reply : ClientReply)
    → is_good allowed (get_response shown url allowed reply) ≡ true
unfolding get_response is_good
is_good-get_response shown url allowed (replied status is_argus) =
    of_if (λ fetched. is_good allowed fetched ≡ true)
      (status == 403 && starts_with url "https://www.douyin.com/aweme/v1/web/" && is_argus) _ _
      (λ e. refl) (λ e. is_good-checked_status shown allowed status)
is_good-get_response shown url allowed (client_crawler_error error) = refl
is_good-get_response shown url allowed client_exception = refl

pub is_good-post_response :
    (shown : ℕ → String) (has_post : Bool) (reply : ClientReply)
    → is_good [] (post_response shown has_post reply) ≡ true
unfolding post_response is_good
is_good-post_response shown false reply = refl
is_good-post_response shown true (replied status is_argus) = is_good-checked_status shown [] status
is_good-post_response shown true (client_crawler_error error) = refl
is_good-post_response shown true client_exception = refl
