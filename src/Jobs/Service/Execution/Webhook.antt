-- ===== src/Jobs/Service/Execution/Webhook.antt =====
-- The attempts of `_send_webhook`.
use creator_engagement_proje.Base.{
  ℕ, zero, suc, ◌+◌, ◌<◌, ◌≡◌, ◌↔◌, refl, none, some, arith, ap, ◌∙◌, sym,
}
use creator_engagement_proje.Models.{WebhookStatus}
use creator_engagement_proje.Jobs.Service.Execution.{
  Delivery, accepted, http_error, escaped, deliver,
}

-- One of `left` attempts from `attempt` on is accepted, and all before it failed with an HTTP error.
abbrev pub Delivered : ℕ → ℕ → (ℕ → Delivery) → Type 0
Delivered left attempt post =
    (n : ℕ) × (n < left)
    × (post (attempt + n) ≡ accepted)
    × ((i : ℕ) → i < n → post (attempt + i) ≡ http_error)

earlier :
    (attempt n : ℕ) (post : ℕ → Delivery)
    → post attempt ≡ http_error
    → ((i : ℕ) → i < n → post (suc attempt + i) ≡ http_error)
    → (i : ℕ) → i < suc n
    → post (attempt + i) ≡ http_error
earlier attempt n post first others zero h = ap post (omega arith) ∙ first
earlier attempt n post first others (suc i) h = ap post (omega arith) ∙ others i (omega arith)

deliver-split :
    (left attempt : ℕ) (post : ℕ → Delivery) (d : Delivery)
    → post attempt ≡ d
    → deliver (suc left) attempt post ≡ elim d [
      | accepted ↦ some WebhookStatus.sent
      | http_error ↦ deliver left (suc attempt) post
      | escaped ↦ none
    ]
unfolding deliver
deliver-split left attempt post d e = rw (e, deliver)

sent-Delivered :
    (left attempt : ℕ) (post : ℕ → Delivery)
    → deliver left attempt post ≡ some WebhookStatus.sent
    → Delivered left attempt post
unfolding deliver
sent-Delivered zero attempt post h = cc
sent-Delivered (suc left) attempt post h =
    go (post attempt) refl (sym (deliver-split left attempt post (post attempt) refl) ∙ h)
      (sent-Delivered left (suc attempt) post)
  where
    go :
        (d : Delivery)
        → post attempt ≡ d
        → elim d [
          | accepted ↦ some WebhookStatus.sent
          | http_error ↦ deliver left (suc attempt) post
          | escaped ↦ none
        ]
          ≡ some WebhookStatus.sent
        → (deliver left (suc attempt) post ≡ some WebhookStatus.sent
            → Delivered left (suc attempt) post)
        → Delivered (suc left) attempt post
    go accepted e h later =
        (0, omega arith, ap post (omega arith) ∙ e, λ i lt. absurd (omega arith))
    go http_error e h later =
        let (n, lt, found, before) = later h in
        (suc n, omega arith, ap post (omega arith) ∙ found, earlier attempt n post e before)
    go escaped e h later = cc

Delivered-sent :
    (left attempt n : ℕ) (post : ℕ → Delivery)
    → n < left
    → post (attempt + n) ≡ accepted
    → ((i : ℕ) → i < n → post (attempt + i) ≡ http_error)
    → deliver left attempt post ≡ some WebhookStatus.sent
Delivered-sent zero attempt n post lt found before = absurd (omega arith)
Delivered-sent (suc left) attempt zero post lt found before =
    deliver-split left attempt post accepted (ap post (omega arith) ∙ found)
Delivered-sent (suc left) attempt (suc n) post lt found before =
    deliver-split left attempt post http_error (ap post (omega arith) ∙ before 0 (omega arith))
    ∙ Delivered-sent left (suc attempt) n post (omega arith) (ap post (omega arith) ∙ found)
        (λ i h. ap post (omega arith) ∙ before (suc i) (omega arith))

-- The webhook is reported sent exactly if one of the permitted attempts is accepted and every
-- attempt before that one failed with an HTTP error.
pub deliver-sent_iff :
    (left attempt : ℕ) (post : ℕ → Delivery)
    → (deliver left attempt post ≡ some WebhookStatus.sent) ↔ Delivered left attempt post
deliver-sent_iff left attempt post = (
  sent-Delivered left attempt post,
  λ (n, lt, found, before). Delivered-sent left attempt n post lt found before,
)
