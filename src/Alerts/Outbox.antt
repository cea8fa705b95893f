-- ===== src/Alerts/Outbox.antt =====
-- StatusAlerts of app/services/status_alerts.py: the rows of its table as a list. Instants are
-- microseconds; `INSERT OR REPLACE` takes the old row of a bucket away and adds the new one.
pub mod Dispatched
pub mod Incidents
pub mod Steps
use Prim.Native.String.{◌++◌ as join_text}
use creator_engagement_proje.Base.{
  ℕ, zero, suc, ◌+◌, ◌*◌, String, ◌≡◌, Bool, true, false, not, ◌&&◌, ◌||◌, Option, none, some, List,
  [], ◌∷◌, ◌++◌, map, any, select, first, take, ltb, leb, if◌then◌else◌, ◌==◌, string_key, contains,
  is_none, ◌⊎◌, inl, inr,
}
use creator_engagement_proje.Base.Dict.{Dict, lookup}
use creator_engagement_proje.Models.{CollectOperation}
use creator_engagement_proje.Engagement.Collected.{Coverage, complete, unsupported}
use creator_engagement_proje.Jobs.Memory.{seconds, truthy}
use creator_engagement_proje.Alerts.Status.{
  Category, login_expired, risk_limited, session_rejected, upstream_error, transport_error,
  protocol_error, program_error, Error, reason, raised, raised_from, Signs, signs_of, status_error,
}

pub record Settings : Type 0 where
  pub enabled : Bool
  pub xhs_monitor : Bool
  -- MEDIA_ALIASES, and safe_reason of app/services/feishu_alert.py
  pub aliases : Dict String String
  pub safe_reason : String → String

pub record Report : Type 0 where
  pub platform : String
  pub operation : String
  pub status : Category
  pub checked_at : ℕ
  pub reason : String
  pub request_id : String

-- A row of `alerts`.
pub record Alert : Type 0 where
  pub bucket : String
  pub incident_id : String
  pub report : Report
  pub created : ℕ
  pub last_seen : ℕ
  pub occurrences : ℕ
  pub next_attempt : ℕ
  pub attempts : ℕ
  pub message_id : Option String
  pub sent_at : Option ℕ
  pub delivery_error : Option String

abbrev pub cooldown : ℕ
cooldown = seconds 1800

abbrev pub category_text : Category → String
category_text login_expired = "login_expired"
category_text risk_limited = "risk_limited"
category_text session_rejected = "session_rejected"
category_text upstream_error = "upstream_error"
category_text transport_error = "transport_error"
category_text protocol_error = "protocol_error"
category_text program_error = "program_error"

-- f"{platform}:{operation}:{category}"
abbrev pub bucket_of : String → String → Category → String
bucket_of platform operation category =
    join_text platform
      (join_text ":" (join_text operation (join_text ":" (category_text category))))

abbrev pub alias_of : Dict String String → String → String
alias_of aliases platform = elim (lookup platform aliases) [ none ↦ platform | some known ↦ known ]

-- The monitor of Xiaohongshu sends its own card.
abbrev pub is_monitored : Settings → String → String → Category → Error → Bool
is_monitored settings platform operation category error =
    settings.xhs_monitor
    && platform == "xiaohongshu"
    && contains ("engagement" ∷ "interactions" ∷ "comments" ∷ []) operation
    && (elim category [ login_expired ↦ true | risk_limited ↦ true | _ ↦ false ]
        || (signs_of error).stopped)

abbrev pub described : Error → String
described (reason s) = s.text
described (raised s t) = join_text t.name (join_text ": " s.text)
described (raised_from s t cause) = join_text t.name (join_text ": " s.text)

abbrev pub new_alert : ℕ → String → String → Report → Alert
new_alert now bucket incident_id report = record {
  bucket = bucket;
  incident_id = incident_id;
  report = report;
  created = now;
  last_seen = now;
  occurrences = 1;
  next_attempt = now;
  attempts = 0;
  message_id = none;
  sent_at = none;
  delivery_error = none;
}

abbrev pub seen_again : ℕ → Alert → Alert
seen_again now old = record old { last_seen = now; occurrences = old.occurrences + 1 }

-- `not old["message_id"] or now - old["sent_at"] < COOLDOWN`; `none` is the TypeError of a missing
-- instant.
abbrev pub is_open_at : ℕ → Alert → Option Bool
is_open_at now old =
    if truthy old.message_id
    then elim old.sent_at [ none ↦ none | some sent ↦ some (ltb now (sent + cooldown)) ]
    else some true

-- The transaction of `record`.
unfoldable pub write : ℕ → String → String → Report → List Alert → Option (List Alert)
write now bucket incident_id report rows =
    let fresh =
      select (λ row. not (row.bucket == bucket)) rows
      ++ new_alert now bucket incident_id report ∷ [] in
    elim (first (λ row. row.bucket == bucket) rows) [
      | none ↦ some fresh
      | some old ↦ elim (is_open_at now old) [
        | none ↦ none
        | some true ↦
            some (map (λ row. if row.bucket == bucket then seen_again now row else row) rows)
        | some false ↦ some fresh
      ]
    ]

-- What `record` does once it has a category; `incident_id` is the uuid4 that it would draw.
unfoldable pub record_found :
    Settings
    → ℕ
    → String
    → String
    → String
    → Error
    → Category
    → String
    → List Alert
    → Option (List Alert)
unfolding write
record_found settings now incident_id platform operation error category request_id rows =
    if is_monitored settings platform operation category error
    then some rows
    else write now (bucket_of platform operation category) incident_id
        (record {
          platform = platform;
          operation = operation;
          status = category;
          checked_at = now;
          reason = settings.safe_reason (described error);
          request_id = request_id;
        })
        rows

-- category or status_error(error)
abbrev pub known_category : Error → Option Category → Option Category
known_category error category = if is_none category then status_error error else category

unfoldable pub record_error :
    Settings
    → ℕ
    → String
    → String
    → String
    → Error
    → Option Category
    → String
    → List Alert
    → Option (List Alert)
unfolding record_found status_error
record_error settings now incident_id platform operation error category request_id rows =
    if not settings.enabled then some rows else elim (known_category error category) [
      | none ↦ some rows
      | some found ↦
          record_found settings now incident_id (alias_of settings.aliases platform) operation error
            found request_id rows
    ]

-- `result`: a collection that failed, was blocked or is partial.
unfoldable pub record_result :
    Settings
    → ℕ
    → String
    → String
    → String
    → Coverage
    → Error
    → Option Category
    → List Alert
    → Option (List Alert)
unfolding record_error
record_result settings now incident_id platform operation coverage error category rows =
    elim coverage [
      | complete ↦ some rows
      | unsupported ↦ some rows
      | _ ↦ record_error settings now incident_id platform operation error category "" rows
    ]

-- A row that the SELECT of `dispatch` takes.
abbrev pub is_due : ℕ → Alert → Bool
is_due now row = is_none row.message_id && leb row.next_attempt now

-- ORDER BY created
unfoldable pub insert_by_created : Alert → List Alert → List Alert
insert_by_created x [] = x ∷ []
insert_by_created x (y ∷ ys) =
    let rest = insert_by_created x ys in if leb x.created y.created then x ∷ y ∷ ys else y ∷ rest

unfoldable pub by_created : List Alert → List Alert
by_created [] = []
by_created (x ∷ xs) = insert_by_created x (by_created xs)

unfoldable pub due : ℕ → List Alert → List Alert
unfolding by_created insert_by_created
due now rows = take 20 (by_created (select (is_due now) rows))

abbrev pub update_incident : String → (Alert → Alert) → List Alert → List Alert
update_incident incident_id change rows =
    map (λ row. if row.incident_id == incident_id then change row else row) rows

-- What becomes of one delivery: the clock before it, an exception's text or the identifier of the
-- message, and the clock after it.
pub record AlertDelivery : Type 0 where
  pub claimed_at : ℕ
  pub outcome : String ⊎ Option String
  pub ended_at : ℕ

abbrev pub claim : ℕ → Alert → Alert
claim now row = record row { next_attempt = now + seconds 300; attempts = row.attempts + 1 }

abbrev pub conclude : Settings → AlertDelivery → Alert → Alert
conclude settings delivery row = elim delivery.outcome [
  | inl text ↦ record row { delivery_error = some (settings.safe_reason text) }
  | inr message_id ↦ record row {
    message_id = message_id;
    sent_at = some delivery.ended_at;
    delivery_error = none;
  }
]

-- The body of the loop of `dispatch`, for one row that it selected.
unfoldable pub deliver_alert : Settings → Alert → AlertDelivery → List Alert → ℕ × List Alert
deliver_alert settings row delivery rows = (
  elim delivery.outcome [ inl text ↦ 0 | inr message_id ↦ 1 ],
  update_incident row.incident_id (conclude settings delivery)
      (update_incident row.incident_id (claim delivery.claimed_at) rows),
)

-- The loop; a delivery for each row.
unfoldable pub deliver_all :
    Settings → List Alert → List AlertDelivery → List Alert → ℕ × List Alert
unfolding deliver_alert
deliver_all settings [] deliveries rows = (0, rows)
deliver_all settings (row ∷ others) [] rows = (0, rows)
deliver_all settings (row ∷ others) (delivery ∷ deliveries) rows =
    let sent = deliver_alert settings row delivery rows in
    let rest = deliver_all settings others deliveries sent.1 in (sent.0 + rest.0, rest.1)

unfoldable pub dispatch : Settings → ℕ → List AlertDelivery → List Alert → ℕ × List Alert
unfolding deliver_all due
dispatch settings now deliveries rows =
    if settings.enabled then deliver_all settings (due now rows) deliveries rows else (0, rows)
