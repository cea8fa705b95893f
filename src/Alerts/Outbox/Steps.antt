-- ===== src/Alerts/Outbox/Steps.antt =====
-- The outbox under any sequence of errors and deliveries, from however many processes.
use creator_engagement_proje.Base.{
  ℕ, ◌<◌, String, ◌≡◌, refl, subst, sym, ◌∙◌, ap, Bool, false, not, Option, some, List, [], ◌∷◌,
  ◌++◌, map, select, if◌then◌else◌, ◌==◌, string_key, All, arith, Option-cases, Bool-cases, inl,
  inr, contains, IsDistinct, Key, All-append_one, first-All, some-injective,
}
use creator_engagement_proje.Base.Select.{
  All-update, select-IsDistinct, All-select, All-imp, IsDistinct-append_one, contains-map-select,
}
use creator_engagement_proje.Alerts.Status.{Category, Error}
use creator_engagement_proje.Alerts.Outbox.{
  Settings, Alert, Report, AlertDelivery, write, new_alert, seen_again, record_error, record_found,
  deliver_alert, claim, conclude, update_incident, known_category, alias_of, is_monitored,
  bucket_of,
}
use creator_engagement_proje.Alerts.Outbox.Incidents.{IsDated, incident_of, is_open_at-takes, takes}

-- One incident to a bucket, an identifier to each, a sent row is dated, and an error was seen.
pub record IsOutbox (rows : List Alert) : Type 0 where
  pub buckets : IsDistinct (map (λ row. row.bucket) rows)
  pub incidents : IsDistinct (map (λ row. row.incident_id) rows)
  pub sound : All (λ row. IsDated row × (0 < row.occurrences)) rows

-- The rows after errors (each with an identifier of its own for a new incident) and deliveries: a
-- delivery may be of a row as another process selected it some time ago.
pub data Steps (settings : Settings) : List Alert → Type 0 where
  started : Steps settings []
  recorded :
      {rows rows' : List Alert} (now : ℕ) (incident_id platform operation : String) (error : Error)
      (category : Option Category) (request_id : String)
      → contains (map (λ row. row.incident_id) rows) incident_id ≡ false
      → record_error settings now incident_id platform operation error category request_id rows
        ≡ some rows'
      → Steps settings rows
      → Steps settings rows'
  delivered :
      {rows : List Alert} (row : Alert) (delivery : AlertDelivery)
      → Steps settings rows
      → Steps settings (deliver_alert settings row delivery rows).1

module _ {K : Type 0} ⦃key : Key K⦄ (id : Alert → K) where
  map-change :
      (test : Alert → Bool) (change : Alert → Alert) (rows : List Alert)
      → ((row : Alert) → id (change row) ≡ id row)
      → map id (map (λ row. if test row then change row else row) rows) ≡ map id rows
  map-change test change [] e = refl
  map-change test change (row ∷ rows) e = ground (arith, e row, map-change test change rows e)

change-IsOutbox :
    (test : Alert → Bool) (change : Alert → Alert) (rows : List Alert)
    → ((row : Alert) → (change row).bucket ≡ row.bucket)
    → ((row : Alert) → (change row).incident_id ≡ row.incident_id)
    → ((row : Alert)
        → IsDated row × (0 < row.occurrences)
        → IsDated (change row) × (0 < (change row).occurrences))
    → IsOutbox rows
    → IsOutbox (map (λ row. if test row then change row else row) rows)
change-IsOutbox test change rows b i s h = record {
  buckets = subst IsDistinct (sym (map-change (λ row. row.bucket) test change rows b)) h.buckets;
  incidents =
      subst IsDistinct (sym (map-change (λ row. row.incident_id) test change rows i)) h.incidents;
  sound = All-update (λ row. IsDated row × (0 < row.occurrences)) test change rows s h.sound;
}

deliver_alert-IsOutbox :
    (settings : Settings) (row : Alert) (delivery : AlertDelivery) (rows : List Alert)
    → IsOutbox rows
    → IsOutbox (deliver_alert settings row delivery rows).1
unfolding deliver_alert
deliver_alert-IsOutbox settings row delivery rows h =
    change-IsOutbox (λ r. r.incident_id == row.incident_id) (conclude settings delivery)
      (update_incident row.incident_id (claim delivery.claimed_at) rows) (λ r. ground arith)
      (λ r. ground arith) (λ r s. ground arith)
      (change-IsOutbox (λ r. r.incident_id == row.incident_id) (claim delivery.claimed_at) rows
        (λ r. refl) (λ r. refl) (λ r s. s) h)

no_bucket :
    (bucket : String) (rows : List Alert)
    → contains (map (λ row. row.bucket) (select (λ row. not (row.bucket == bucket)) rows)) bucket
      ≡ false
no_bucket bucket [] = refl
no_bucket bucket (row ∷ rows) = ground (arith, no_bucket bucket rows)

IsDated-rows : (rows : List Alert) → IsOutbox rows → All IsDated rows
IsDated-rows rows h =
    All-imp (λ row. IsDated row × (0 < row.occurrences)) IsDated rows (λ row s. s.0) h.sound

module _ (now : ℕ) (bucket incident_id : String) (report : Report) (rows : List Alert)
    (unused : contains (map (λ row. row.incident_id) rows) incident_id ≡ false)
    (h : IsOutbox rows) where
  fresh-IsOutbox : IsOutbox (
      select (λ row. not (row.bucket == bucket)) rows
      ++ new_alert now bucket incident_id report ∷ [])
  fresh-IsOutbox = record {
    buckets =
        IsDistinct-append_one (λ (row : Alert). row.bucket) new others
          (select-IsDistinct (λ (row : Alert). row.bucket) other rows h.buckets)
          (no_bucket bucket rows);
    incidents =
        IsDistinct-append_one (λ (row : Alert). row.incident_id) new others
          (select-IsDistinct (λ (row : Alert). row.incident_id) other rows h.incidents)
          (contains-map-select (λ (row : Alert). row.incident_id) other incident_id rows unused);
    sound =
        All-append_one (λ row. IsDated row × (0 < row.occurrences)) others new
          (All-select (λ row. IsDated row × (0 < row.occurrences)) other rows h.sound)
          (refl, omega arith);
  }
    where
      other : Alert → Bool
      other row = not (row.bucket == bucket)

      others : List Alert
      others = select (λ row. not (row.bucket == bucket)) rows

      new : Alert
      new = new_alert now bucket incident_id report

  seen_again-IsOutbox :
      IsOutbox (map (λ row. if row.bucket == bucket then seen_again now row else row) rows)
  seen_again-IsOutbox =
      change-IsOutbox (λ row. row.bucket == bucket) (seen_again now) rows (λ r. refl) (λ r. refl)
        (λ r s. (s.0, omega arith)) h

  write-IsOutbox :
      (rows' : List Alert) × (write now bucket incident_id report rows ≡ some rows')
      × IsOutbox rows'
  unfolding write
  write-IsOutbox = elim (Option-cases (incident_of bucket rows)) [
    | inl e ↦ (fresh, rw (e, write) refl, fresh-IsOutbox)
    | inr (old, e) ↦
        let opens =
          is_open_at-takes now old
            (first-All IsDated (λ row. row.bucket == bucket) rows old (IsDated-rows rows h) e) in
        elim (Bool-cases (takes now old)) [
          | inl t ↦ (seen, rw (e, opens ∙ ap some t, write) refl, seen_again-IsOutbox)
          | inr f ↦ (fresh, rw (e, opens ∙ ap some f, write) refl, fresh-IsOutbox)
        ]
  ]
    where
      fresh : List Alert
      fresh =
          select (λ row. not (row.bucket == bucket)) rows
          ++ new_alert now bucket incident_id report ∷ []

      seen : List Alert
      seen = map (λ row. if row.bucket == bucket then seen_again now row else row) rows

module _ (settings : Settings) (now : ℕ) (incident_id platform operation : String) (error : Error)
    (category : Option Category) (request_id : String) (rows : List Alert)
    (unused : contains (map (λ row. row.incident_id) rows) incident_id ≡ false)
    (h : IsOutbox rows) where
  record_found-IsOutbox :
      (known : String) (found : Category)
      → (rows' : List Alert) × (record_found settings now incident_id known operation error found
            request_id rows
          ≡ some rows')
        × IsOutbox rows'
  unfolding record_found
  record_found-IsOutbox known found =
      elim (Bool-cases (is_monitored settings known operation found error)) [
        | inl m ↦ (rows, rw (m, record_found) refl, h)
        | inr n ↦
            rw (n, record_found)
              (write-IsOutbox now (bucket_of known operation found) incident_id _ rows unused h)
      ]

  record_error-IsOutbox :
      (rows' : List Alert) × (record_error settings now incident_id platform operation error
          category request_id rows
        ≡ some rows')
      × IsOutbox rows'
  unfolding record_error
  record_error-IsOutbox = elim (Bool-cases (not settings.enabled)) [
    | inl off ↦ (rows, rw (off, record_error) refl, h)
    | inr on ↦ elim (Option-cases (known_category error category)) [
      | inl e ↦ (rows, rw (on, e, record_error) refl, h)
      | inr (found, e) ↦
          rw (on, e, record_error)
            (record_found-IsOutbox (alias_of settings.aliases platform) found)
    ]
  ]

-- Whatever errors are recorded and deliveries made, by however many processes, if no new incident
-- gets an identifier in use: a bucket has one incident at most, identifiers are distinct, a row
-- with a message has the instant at which it was sent, and each row has an occurrence.
pub Steps-IsOutbox : {settings : Settings} {rows : List Alert} → Steps settings rows → IsOutbox rows
Steps-IsOutbox started = record { buckets = tt; incidents = tt; sound = tt }
Steps-IsOutbox {settings}
      (recorded {rows} {rows'} now incident_id platform operation error category request_id unused e
        steps) =
    let next =
      record_error-IsOutbox settings now incident_id platform operation error category request_id
        rows unused (Steps-IsOutbox steps) in
    subst IsOutbox (some-injective (sym next.1 ∙ e)) next.2
Steps-IsOutbox {settings} (delivered {rows} row delivery steps) =
    deliver_alert-IsOutbox settings row delivery rows (Steps-IsOutbox steps)

-- On rows that any errors and deliveries have led to, recording an error under a new identifier
-- raises nothing, and leads to such rows again.
pub record_error-Steps :
    {settings : Settings} {rows : List Alert} (now : ℕ) (incident_id platform operation : String)
    (error : Error) (category : Option Category) (request_id : String)
    → Steps settings rows
    → contains (map (λ row. row.incident_id) rows) incident_id ≡ false
    → (rows' : List Alert) × (record_error settings now incident_id platform operation error
          category request_id rows
        ≡ some rows')
      × Steps settings rows'
record_error-Steps {settings} {rows} now incident_id platform operation error category request_id
      steps unused =
    let next =
      record_error-IsOutbox settings now incident_id platform operation error category request_id
        rows unused (Steps-IsOutbox steps) in
    (
      next.0,
      next.1,
      recorded now incident_id platform operation error category request_id unused next.1 steps,
    )
