-- ===== src/Alerts/Tests.antt =====
-- An outbox with one incident (app/services/status_alerts.py).
use creator_engagement_proje.Base.{
  ◌≤◌, String, ◌≡◌, refl, true, false, none, some, List, [], ◌∷◌, map, string_key, ◌==◌, arith, inr,
  if◌then◌else◌, contains,
}
use creator_engagement_proje.Base.Dict.{lookup}
use creator_engagement_proje.Alerts.Status.{
  Signs, Error, reason, raised, risk_limited, status_error, transport_error, raised_from,
}
use creator_engagement_proje.Alerts.Outbox.{
  Settings, Report, Alert, AlertDelivery, record_error, new_alert, write, due, dispatch,
  deliver_alert,
}
use creator_engagement_proje.Alerts.Outbox.Incidents.{write-incident, next_incident, incident_of}
use creator_engagement_proje.Alerts.Outbox.Steps.{
  IsOutbox, Steps, started, recorded, delivered, Steps-IsOutbox, record_error-Steps,
}
use creator_engagement_proje.Alerts.Outbox.Dispatched.{dispatch-rests}

abbrev settings : Settings
settings = record {
  enabled = true;
  xhs_monitor = false;
  aliases = ("抖音", "douyin") ∷ [];
  safe_reason = λ text. text;
}

abbrev no_signs : String → Signs
no_signs text = record {
  text = text;
  codes = [];
  login = false;
  limited = false;
  rejected = false;
  transport = false;
  protocol = false;
  connection = false;
  login_code = false;
  risk_code = false;
  stopped = false;
}

-- "HTTP 429"
abbrev limited : Error
limited = reason (record (no_signs "HTTP 429") { codes = 429 ∷ [] })

abbrev report : Report
report = record {
  platform = "douyin";
  operation = "comments";
  status = risk_limited;
  checked_at = 7;
  reason = "HTTP 429";
  request_id = "";
}

-- What the tests compute with.
program : Unit {0}
unfolding record_error write deliver_alert dispatch due lookup
program = tt

-- A cause counts before the type of the exception that it led to.
status_error_cause :
    status_error (
      raised_from
        (no_signs "x")
        (record {
          name = "AuthorSessionError";
          is_network = false;
          is_named_transport = false;
          is_author_session = true;
          is_crawler_or_value = false;
        })
        (raised (no_signs "y") (record {
          name = "ReadTimeout";
          is_network = true;
          is_named_transport = false;
          is_author_session = false;
          is_crawler_or_value = false;
        })))
    ≡ some transport_error
unfolding status_error
status_error_cause = refl

abbrev first_alert : Alert
first_alert = new_alert 7 "douyin:comments:risk_limited" "i" report

abbrev sent : AlertDelivery
sent = record { claimed_at = 8; outcome = inr (some "m"); ended_at = 9 }

one_recorded : Steps settings (first_alert ∷ [])
unfolding program
one_recorded = recorded 7 "i" "抖音" "comments" limited none "" refl refl started

Steps-IsOutbox_example : IsOutbox (deliver_alert settings first_alert sent (first_alert ∷ [])).1
Steps-IsOutbox_example = Steps-IsOutbox (delivered first_alert sent one_recorded)

record_error-Steps_example :
    (rows' : List Alert) × (record_error settings 20 "j" "douyin" "comments" limited none ""
        (first_alert ∷ [])
      ≡ some rows')
    × Steps settings rows'
record_error-Steps_example =
    record_error-Steps 20 "j" "douyin" "comments" limited none "" one_recorded refl

write-incident_example :
    (rows' : List Alert) × (write 20 "douyin:comments:risk_limited" "j" report (first_alert ∷ [])
      ≡ some rows')
    × ((b : String)
        → incident_of b rows' ≡ (
            if "douyin:comments:risk_limited" == b
            then some (
                next_incident 20
                  (incident_of "douyin:comments:risk_limited" (first_alert ∷ []))
                  (new_alert 20 "douyin:comments:risk_limited" "j" report))
            else incident_of b (first_alert ∷ [])))
write-incident_example =
    write-incident 20 "douyin:comments:risk_limited" "j" report (first_alert ∷ []) (refl, tt)

dispatch-rests_example :
    ((dispatch settings 8 (sent ∷ []) (first_alert ∷ [])).0 ≤ 20)
    × (contains
          (map
            (λ row. row.incident_id)
            (due 1000 (dispatch settings 8 (sent ∷ []) (first_alert ∷ [])).1))
          "i"
        ≡ false)
unfolding program
dispatch-rests_example =
    dispatch-rests settings 8 (sent ∷ []) (first_alert ∷ []) "i" 1000 refl (omega arith)
      (omega arith, tt) refl
