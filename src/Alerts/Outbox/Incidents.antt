-- ===== src/Alerts/Outbox/Incidents.antt =====
-- What `StatusAlerts.record` makes of the incident of a bucket.
use creator_engagement_proje.Base.{
  ℕ, ◌+◌, String, ◌≡◌, refl, Bool, true, not, ◌||◌, Option, none, some, List, [], ◌∷◌, ◌++◌, map,
  select, first, ltb, if◌then◌else◌, ◌==◌, string_key, is_none, All, arith, Option-cases,
  Bool-cases, inl, inr, first-All, ap, ◌∙◌,
}
use creator_engagement_proje.Jobs.Memory.{truthy}
use creator_engagement_proje.Alerts.Outbox.{
  Alert, Report, write, new_alert, seen_again, cooldown, is_open_at,
}

-- The row of a bucket.
abbrev pub incident_of : String → List Alert → Option Alert
incident_of bucket rows = first (λ row. row.bucket == bucket) rows

-- A row that has a message has the instant at which it was sent.
abbrev pub IsDated : Alert → Type 0
IsDated row = (not (truthy row.message_id) || not (is_none row.sent_at)) ≡ true

-- An incident takes what happens to its bucket until half an hour has gone by since its message.
abbrev pub takes : ℕ → Alert → Bool
takes now old = elim old.sent_at [
  | none ↦ true
  | some sent ↦ not (truthy old.message_id) || ltb now (sent + cooldown)
]

-- What becomes of the incident of a bucket in which an error is seen.
abbrev pub next_incident : ℕ → Option Alert → Alert → Alert
next_incident now none new = new
next_incident now (some old) new = if takes now old then seen_again now old else new

incident-select :
    (bucket b : String) (rows : List Alert) (new : Alert)
    → new.bucket ≡ bucket
    → incident_of b (select (λ row. not (row.bucket == bucket)) rows ++ new ∷ [])
      ≡ (if bucket == b then some new else incident_of b rows)
incident-select bucket b [] new e = ground (arith, e)
incident-select bucket b (row ∷ rows) new e = ground (
  arith,
  incident-select bucket b rows new e,
  string_key.same_iff row.bucket bucket,
  string_key.same_iff row.bucket b,
  string_key.same_iff bucket b,
)

abbrev pub after : Option Alert → (Alert → Alert) → Option Alert
after none change = none
after (some row) change = some (change row)

incident-change :
    (bucket b : String) (change : Alert → Alert) (rows : List Alert)
    → ((row : Alert) → (change row).bucket ≡ row.bucket)
    → incident_of b (map (λ row. if row.bucket == bucket then change row else row) rows)
      ≡ (if bucket == b then after (incident_of b rows) change else incident_of b rows)
incident-change bucket b change [] e = ground arith
incident-change bucket b change (row ∷ rows) e = ground (
  arith,
  incident-change bucket b change rows e,
  e row,
  string_key.same_iff row.bucket bucket,
  string_key.same_iff row.bucket b,
  string_key.same_iff bucket b,
)

-- A dated row raises no TypeError.
pub is_open_at-takes :
    (now : ℕ) (old : Alert) → IsDated old → is_open_at now old ≡ some (takes now old)
is_open_at-takes now old dated = ground arith

-- The transaction of `record`, on a table whose sent rows are dated: it raises nothing; the row of
-- the error's bucket afterwards is the old one, seen once more, while that one is unsent or its
-- message is younger than the cooldown, and otherwise a new incident with one occurrence; the rows
-- of other buckets stay.
pub write-incident :
    (now : ℕ) (bucket incident_id : String) (report : Report) (rows : List Alert)
    → All IsDated rows
    → (rows' : List Alert) × (write now bucket incident_id report rows ≡ some rows')
      × ((b : String)
          → incident_of b rows' ≡ (
              if bucket == b
              then some (
                  next_incident now
                    (incident_of bucket rows)
                    (new_alert now bucket incident_id report))
              else incident_of b rows))
unfolding write
write-incident now bucket incident_id report rows h =
    elim (Option-cases (incident_of bucket rows)) [
      | inl e ↦ (fresh, rw (e, write) refl, λ b. rw e (incident-select bucket b rows new refl))
      | inr (old, e) ↦ elim (Bool-cases (takes now old)) [
        | inl t ↦ (
          seen,
          rw (e, opens old e ∙ ap some t, write) refl,
          λ b. rw (e, t) (seen_incident old e b),
        )
        | inr f ↦ (
          fresh,
          rw (e, opens old e ∙ ap some f, write) refl,
          λ b. rw (e, f) (incident-select bucket b rows new refl),
        )
      ]
    ]
  where
    new : Alert
    new = new_alert now bucket incident_id report

    fresh : List Alert
    fresh = select (λ row. not (row.bucket == bucket)) rows ++ new ∷ []

    seen : List Alert
    seen = map (λ row. if row.bucket == bucket then seen_again now row else row) rows

    opens :
        (old : Alert)
        → incident_of bucket rows ≡ some old
        → is_open_at now old ≡ some (takes now old)
    opens old e =
        is_open_at-takes now old (first-All IsDated (λ row. row.bucket == bucket) rows old h e)

    seen_incident :
        (old : Alert)
        → incident_of bucket rows ≡ some old
        → (b : String)
        → incident_of b seen
          ≡ (if bucket == b then some (seen_again now old) else incident_of b rows)
    seen_incident old e b = ground (
      arith,
      incident-change bucket b (seen_again now) rows (λ row. refl),
      string_key.same_iff bucket b,
      e,
    )
