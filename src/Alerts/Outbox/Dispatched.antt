-- ===== src/Alerts/Outbox/Dispatched.antt =====
-- What `StatusAlerts.dispatch` sends, and how soon it tries again.
use creator_engagement_proje.Base.{
  ℕ, ◌+◌, ◌<◌, ◌≤◌, String, ◌≡◌, refl, true, false, ◌&&◌, List, [], ◌∷◌, map, select, leb, ◌==◌,
  string_key, All, length, length-take, arith, Bool-cases, inl, inr, ◌⊎◌, contains,
}
use creator_engagement_proje.Base.Select.{All-imp, All-take}
use creator_engagement_proje.Jobs.Memory.{seconds}
use creator_engagement_proje.Alerts.Outbox.{
  Settings, Alert, AlertDelivery, is_due, insert_by_created, by_created, due, deliver_alert,
  deliver_all, dispatch,
}

module _ (Q : Alert → Type 0) where
  All-insert_by_created :
      (x : Alert) (xs : List Alert) → Q x → All Q xs → All Q (insert_by_created x xs)
  unfolding insert_by_created
  All-insert_by_created x [] q h = (q, tt)
  All-insert_by_created x (y ∷ ys) q h = elim (Bool-cases (leb x.created y.created)) [
    | inl e ↦ rw e (q, h)
    | inr e ↦ rw e (h.0, All-insert_by_created x ys q h.1)
  ]

  All-by_created : (xs : List Alert) → All Q xs → All Q (by_created xs)
  unfolding by_created
  All-by_created [] h = tt
  All-by_created (x ∷ xs) h = All-insert_by_created x (by_created xs) h.0 (All-by_created xs h.1)

  All-every : (xs : List Alert) → ((x : Alert) → Q x) → All Q xs
  All-every [] q = tt
  All-every (x ∷ xs) q = (q x, All-every xs q)

module _ (i : String) (later : ℕ) where
  -- The rows of an incident are not due.
  abbrev Rests : Alert → Type 0
  Rests row = (row.incident_id == i && is_due later row) ≡ false

  not_contained :
      (rows : List Alert)
      → All (λ row. (row.incident_id == i) ≡ false) rows
      → contains (map (λ row. row.incident_id) rows) i ≡ false
  not_contained [] h = refl
  not_contained (row ∷ rows) h = ground (arith, h.0, not_contained rows h.1)

  All-due :
      (rows : List Alert)
      → All Rests rows
      → All (λ row. (row.incident_id == i) ≡ false) (select (is_due later) rows)
  All-due [] h = tt
  All-due (row ∷ rows) h = elim (Bool-cases (is_due later row)) [
    | inl e ↦ rw e (ground (arith, h.0), All-due rows h.1)
    | inr e ↦ rw e (All-due rows h.1)
  ]

  Rests-due :
      (rows : List Alert)
      → All Rests rows
      → contains (map (λ row. row.incident_id) (due later rows)) i ≡ false
  unfolding due
  Rests-due rows h = not_contained (due later rows) (
      All-take (λ row. (row.incident_id == i) ≡ false) 20 (by_created (select (is_due later) rows))
        (All-by_created (λ row. (row.incident_id == i) ≡ false) (select (is_due later) rows)
          (All-due rows h)))

  module _ (settings : Settings) where
    -- A delivery that is claimed late enough makes the rows of its incident rest, and no other due.
    deliver_alert-Rests :
        (row : Alert) (delivery : AlertDelivery) (rows : List Alert)
        → later < delivery.claimed_at + seconds 300
        → All (λ r. Rests r ⊎ (row.incident_id ≡ i)) rows
        → All Rests (deliver_alert settings row delivery rows).1
    unfolding deliver_alert
    deliver_alert-Rests row delivery [] late h = tt
    deliver_alert-Rests row delivery (r ∷ rows) late h = (
      ground (
        arith,
        string_key.same_iff r.incident_id row.incident_id,
        string_key.same_iff r.incident_id i,
        h.0,
      ),
      deliver_alert-Rests row delivery rows late h.1,
    )

    deliver_all-Rests :
        (rows : List Alert) (selected : List Alert) (deliveries : List AlertDelivery)
        → All (λ d. later < d.claimed_at + seconds 300) deliveries
        → length selected ≤ length deliveries
        → All Rests rows ⊎ (contains (map (λ row. row.incident_id) selected) i ≡ true)
        → All Rests (deliver_all settings selected deliveries rows).1
    unfolding deliver_all
    deliver_all-Rests rows [] deliveries late enough (inl h) = h
    deliver_all-Rests rows [] deliveries late enough (inr found) = ground arith
    deliver_all-Rests rows (row ∷ others) [] late enough h = ground arith
    deliver_all-Rests rows (row ∷ others) (delivery ∷ deliveries) late enough h =
        deliver_all-Rests (deliver_alert settings row delivery rows).1 others deliveries late.1
          (omega (arith, enough)) (go h)
      where
        go :
            All Rests rows ⊎ (contains (map (λ r. r.incident_id) (row ∷ others)) i ≡ true)
            → All Rests (deliver_alert settings row delivery rows).1
              ⊎ (contains (map (λ r. r.incident_id) others) i ≡ true)
        go (inl rests) = inl (
            deliver_alert-Rests row delivery rows late.0
              (All-imp Rests (λ r. Rests r ⊎ (row.incident_id ≡ i)) rows (λ r q. inl q) rests))
        go (inr found) = elim (Bool-cases (row.incident_id == i)) [
          | inl same ↦ inl (
              deliver_alert-Rests row delivery rows late.0 (
                All-every (λ r. Rests r ⊎ (row.incident_id ≡ i)) rows
                  (λ r. inr (ground (arith, string_key.same_iff row.incident_id i)))))
          | inr other ↦ inr (ground (arith, found))
        ]

sent-length :
    (settings : Settings) (selected : List Alert) (deliveries : List AlertDelivery)
    (rows : List Alert)
    → (deliver_all settings selected deliveries rows).0 ≤ length selected
unfolding deliver_all deliver_alert
sent-length settings [] deliveries rows = omega arith
sent-length settings (row ∷ others) [] rows = omega arith
sent-length settings (row ∷ others) (delivery ∷ deliveries) rows =
    ground
      (arith, sent-length settings others deliveries (deliver_alert settings row delivery rows).1)

due-length : (now : ℕ) (rows : List Alert) → length (due now rows) ≤ 20
unfolding due
due-length now rows = omega (arith, length-take 20 (by_created (select (is_due now) rows)))

-- A dispatch with a delivery for each row that it selects sends at most 20 cards; and an incident
-- that it selected, whatever became of its delivery, is not selected by any dispatch until five
-- minutes after the deliveries were claimed.
pub dispatch-rests :
    (settings : Settings) (now : ℕ) (deliveries : List AlertDelivery) (rows : List Alert)
    (incident_id : String) (later : ℕ)
    → settings.enabled ≡ true
    → length (due now rows) ≤ length deliveries
    → All (λ d. later < d.claimed_at + seconds 300) deliveries
    → contains (map (λ row. row.incident_id) (due now rows)) incident_id ≡ true
    → ((dispatch settings now deliveries rows).0 ≤ 20)
      × (contains
            (map (λ row. row.incident_id) (due later (dispatch settings now deliveries rows).1))
            incident_id
          ≡ false)
unfolding dispatch
dispatch-rests settings now deliveries rows incident_id later on enough late found =
    rw (on, dispatch)
      (
        omega (arith, sent-length settings (due now rows) deliveries rows, due-length now rows),
        Rests-due incident_id later (deliver_all settings (due now rows) deliveries rows).1 (
            deliver_all-Rests incident_id later settings rows (due now rows) deliveries late enough
              (inr found)),
      )
