-- ===== src/Examples/Linking.antt =====
-- Pairings and their recovery, and their theorems at concrete inputs.
use google_messages_multidev.Bridge.{Status}
use google_messages_multidev.Bridge.Pairing.{
  Desk, Outside, PairingState, commit_session, is_active, now_paired, pairing_canceled, scan_qr,
}
use google_messages_multidev.Bridge.Pairing.Begin.{blank_pairing}
use google_messages_multidev.Bridge.Pairing.Budget.{
  BudgetStep, all_for, becomes, is_spaced, pauses_recovery, polls, start_times,
}
use google_messages_multidev.Bridge.Pairing.Budget.Times.{start_times-budget}
use google_messages_multidev.Bridge.Pairing.Recovery.{recovery_attempts}
use google_messages_multidev.Bridge.Pairing.Runs.{DeskStep, cancels_pairing, desk_run, links}
use google_messages_multidev.Bridge.Pairing.Runs.Fence.{
  commit_session-stays_paired, stale_commit-refused,
}
use google_messages_multidev.Bridge.Pairing.Runs.Secrets.{desk_run-Tidy}
use google_messages_multidev.Bridge.Pairing.Runs.Tidy.{Tidy}
use google_messages_multidev.Examples.Data.{new_db, runs}
use google_messages_multidev.Examples.Outbox.{db_or}
use google_messages_multidev.Platform.{PairingRecovery}
use google_messages_multidev.Platform.Sample.{sample}
use google_messages_multidev.Prelude.Assoc.{erase, seek, while_prefix}
use google_messages_multidev.Prelude.Core.{
  List, [], arith, false, none, refl, true, ◌+◌, ◌<◌, ◌∷◌, ◌≡◌, ◌≤◌, ◌⊎◌,
}
use google_messages_multidev.Prelude.Lists.{length}
use google_messages_multidev.Prelude.Text.{txt}
use google_messages_multidev.Result.{Result, canceled_call, err, ok}
use google_messages_multidev.Store.Db.{Db}
use google_messages_multidev.Store.Epochs.{entries_of, is_some}
use google_messages_multidev.Store.History.{delete_keys}
use google_messages_multidev.Store.Outbox.{cancel_queued_for_pairing, withdrawn, write_all}
use google_messages_multidev.Store.Pairing.{
  adopt_phone, count_kind, delete_meta, drop_privates, next_epoch, pairing_recovery, put_meta,
  read_jobs, recover_after_pairing, replace_phone, save_paired_session, save_session, stored_jobs,
  suspend_jobs, update_recovery,
}

abbrev outside : Outside sample
outside = record {
  session_cookies = λ b. none;
  new_ticket = λ g. ok (txt "ticket");
  error_text = λ e. txt "error";
}

abbrev idle_status : Status
idle_status = record {
  state = txt "authentication_required";
  reason = txt "session_expired";
  detail = [];
  updated = 0;
  state_since = 0;
  transport = false;
  phone = false;
  connection_events = [];
  outage = none;
  phone_cause = [];
}

abbrev desk : Db sample → PairingState → Desk sample
desk db s = record {
  db = db;
  hub = [];
  status = idle_status;
  whatsapp = true;
  offline_only = false;
  pairing = s;
  cookies = none;
  running = none;
  broken = false;
  fatal = false;
  pair_wake = false;
  reconnect_wake = false;
  connection_canceled = false;
}

-- A pairing of the second generation, which was canceled.
abbrev over : PairingState
over = record blank_pairing { generation = 2; phase = pairing_canceled }

-- The late success of the canceled pairing, between two new attempts.
abbrev acts : List (DeskStep sample)
acts = links [] ∷ cancels_pairing ∷ links [] ∷ []

stale_commit-refused_example :
    commit_session false 2 (sample.raw []) (desk_run outside acts (desk new_db over))
    ≡ (err canceled_call, desk_run outside acts (desk new_db over))
stale_commit-refused_example =
    stale_commit-refused outside acts (desk new_db over) 2 false (sample.raw []) refl (ground arith)
      (ground arith) (ground arith)

-- The first pairing, while the code is shown.
abbrev shown_code : PairingState
shown_code = record blank_pairing { generation = 1; phase = scan_qr; new_phone = true }

abbrev saved : Result (Unit {0}) × Desk sample
saved = commit_session false 1 (sample.raw []) (desk new_db shown_code)

saved_ok : saved ≡ (ok tt, saved.1)
unfolding runs commit_session save_paired_session recover_after_pairing is_some save_session
    put_meta delete_meta cancel_queued_for_pairing write_all withdrawn adopt_phone replace_phone
    count_kind next_epoch drop_privates stored_jobs read_jobs entries_of suspend_jobs delete_keys
    while_prefix seek erase
saved_ok = refl

commit_session-stays_paired_example :
    (is_active shown_code.phase ≡ true)
    × ((((desk_run outside acts saved.1).pairing.generation ≡ 1)
          × ((desk_run outside acts saved.1).pairing.phase ≡ now_paired))
        ⊎ (1 < (desk_run outside acts saved.1).pairing.generation))
commit_session-stays_paired_example =
    commit_session-stays_paired outside acts (desk new_db shown_code) saved.1 1 false
      (sample.raw []) (ground arith) saved_ok (ground arith)

over-Tidy : Tidy (desk new_db over)
over-Tidy = record {
  no_cookies = λ h. refl;
  no_ticket = λ h. refl;
  no_emoji = λ h. refl;
  no_qr = λ h. refl;
  no_code = λ h. refl;
}

desk_run-Tidy_example : Tidy (desk_run outside acts (desk new_db over))
desk_run-Tidy_example = desk_run-Tidy outside acts (desk new_db over) over-Tidy

abbrev recovery : PairingRecovery
recovery = record {
  enabled = true;
  phone_number = txt "+15550100";
  attempts = 1;
  paused = false;
  next_attempt = 0;
}

abbrev recovering : Db sample
recovering = db_or (update_recovery (λ r. recovery) new_db)

recovering_ok : pairing_recovery recovering ≡ ok recovery
unfolding runs update_recovery pairing_recovery put_meta
recovering_ok = refl

abbrev polled : List (BudgetStep sample)
polled = polls ∷ becomes (desk new_db over) ∷ polls ∷ pauses_recovery ∷ polls ∷ []

polled_for : all_for (txt "+15550100") polled ≡ true
unfolding all_for
polled_for = refl

start_times-budget_example :
    (length (start_times polled (desk recovering over)) + 1 ≤ recovery_attempts)
    × (is_spaced 0 (start_times polled (desk recovering over)) ≡ true)
start_times-budget_example =
    start_times-budget polled recovery (desk recovering over) recovering_ok refl (ground arith)
      polled_for
