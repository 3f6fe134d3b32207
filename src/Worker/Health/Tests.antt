-- ===== src/Worker/Health/Tests.antt =====
-- Probes and scans of two accounts.
use rubigram.Base.{has_prefix, none, All, some, List, arith, ℕ, ◌≡◌, refl, true, false, [], ◌∷◌}
use rubigram.Base.Texts.{contains, lower}
use rubigram.Worker.Model.{AccountStatus, Account}
use rubigram.Base.Sort.{sort, insert}
use rubigram.Worker.Health.Scans.{
  answered, last_check, scan_accounts, targets_for, rows_for, limited, waits_longer, comes_before,
  target_of, record_all, probe_all, probe_one, judge_probe, outcome_of, probe_sessions,
}
use rubigram.Worker.Health.Queue.{Scan, scan_all, is_due, is_probed, HaveIds}
use rubigram.Worker.Health.Fairness.{scan_all-gets_round}
use rubigram.Worker.Health.Starvation.{scan_all-starves}
use rubigram.Worker.Health.{
  available, alive, ensure_health, checked, corrected, availability_after, auth_fail, transient,
  HealthDb, Target, is_dead, health_of, is_capacity_error, record_probe,
}
use rubigram.Worker.Health.Verdicts.{record_probe-spares}

abbrev account : ℕ → Account
account id = record {
  id = id;
  username = "panel";
  session_name = "worker";
  phone = "98912";
  user_guid = "";
  display_name = "";
  status = AccountStatus.active;
  last_error = "";
  created_at = 0;
}

refused-is_full : is_capacity_error "Join_LIMIT reached" ≡ true
unfolding is_capacity_error contains lower has_prefix
refused-is_full = refl

abbrev probed : Target
probed = record {
  account_id = 1;
  session_name = "worker";
  phone = "98912";
  session_string = "s";
  status = AccountStatus.active;
  last_error = "";
}

abbrev unprobed : HealthDb
unprobed = record { accounts = account 1 ∷ account 2 ∷ []; credentials = []; health = [] }

record_probe-spares_example :
    (((record_probe 9 probed transient "" unprobed).1.accounts ≡ unprobed.accounts)
      × ((record_probe 9 probed transient "" unprobed).0.availability
          ≡ (health_of 1 unprobed).availability))
    × ((health_of 1 unprobed).consecutive_auth_failures ≡ 0
        → ((record_probe 9 probed auth_fail "" unprobed).1.accounts ≡ unprobed.accounts)
          × (is_dead (record_probe 9 probed auth_fail "" unprobed).0.availability ≡ false))
record_probe-spares_example = record_probe-spares 9 probed "" unprobed

-- Account 1 was probed at 5, account 2 never.
abbrev half_probed : HealthDb
half_probed = record {
  accounts = account 1 ∷ account 2 ∷ [];
  credentials = record { account_id = 2; session_string = "s" } ∷ [];
  health =
      record {
        account_id = 1;
        availability = available;
        outcome = some alive;
        detail = "";
        consecutive_auth_failures = 0;
        last_checked_at = some 5;
      }
      ∷ [];
}

abbrev two_scans : List Scan
two_scans =
    record { now = 10; limit = 1; client = λ t. answered (some "guid") }
    ∷ record { now = 20; limit = 1; client = λ t. answered none }
    ∷ []

two_ids : HaveIds half_probed.accounts
two_ids k = ground arith

scan_all-gets_round_example :
    All
      (λ r. is_due 10 (last_check (scan_all true two_scans half_probed).health r.id) ≡ false)
      (scan_all true two_scans half_probed).accounts
scan_all-gets_round_example =
    scan_all-gets_round 10 two_scans half_probed two_ids
      ((omega arith, omega arith), ((omega arith, omega arith), tt)) (omega arith)

scan_all-starves_example :
    is_probed (last_check (scan_all false two_scans half_probed).health 2) ≡ false
unfolding last_check
scan_all-starves_example =
    scan_all-starves two_scans half_probed 2
      ((omega arith, omega arith), ((omega arith, omega arith), tt)) refl

-- The first scan takes the account that no probe has seen, or the one that one has.
first_scan :
    (last_check (scan_accounts true 10 (λ t. answered none) 1 half_probed).1.health 2 ≡ some 10)
    × (last_check (scan_accounts false 10 (λ t. answered none) 1 half_probed).1.health 1 ≡ some 10)
unfolding scan_accounts targets_for rows_for limited sort insert waits_longer comes_before
    last_check target_of record_all probe_all probe_one judge_probe outcome_of record_probe
    ensure_health checked corrected availability_after
first_scan = (refl, refl)

probed_names :
    (probe_sessions true 10 (λ t. answered (some "g")) ("worker" ∷ "gone" ∷ []) half_probed).0.1
    ≡ "gone" ∷ []
unfolding probe_sessions targets_for rows_for limited sort insert target_of
probed_names = refl
