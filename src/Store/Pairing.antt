-- ===== src/Store/Pairing.antt =====
-- Pairing in the store: `UpgradeSessionMetadata` to `SavePairedSession` of internal/store/pairing.go,
-- internal/store/pairing_recovery.go, and the session and address book of internal/store/store.go.
pub mod SameEpochs
pub mod Budget
pub mod Replacement
use google_messages_multidev.Model.{HistoryJob, Outbox, paused}
use google_messages_multidev.Platform.{PairingRecovery, Platform}
use google_messages_multidev.Prelude.Bytes.{uint64_bound}
use google_messages_multidev.Prelude.Core.{
  Bool, List, Option, [], false, none, some, suc, true, ℕ, ◌%◌, ◌+◌, ◌||◌, ◌∷◌,
}
use google_messages_multidev.Prelude.Lists.{length}
use google_messages_multidev.Prelude.Tests.{if◌then◌else◌, ◌==◌}
use google_messages_multidev.Prelude.Text.{Text, txt}
use google_messages_multidev.Result.{
  Result, corrupt, err, invalid_digest, invalid_marker, ok, or_error,
}
use google_messages_multidev.Store.Db.{Db, Tx, counter, encrypt, modify, record_context, ◌>>◌}
use google_messages_multidev.Store.Epochs.{entries_of, epoch, is_some, previous_count_key}
use google_messages_multidev.Store.Events.{plain_at}
use google_messages_multidev.Store.History.{
  delete_keys, forget_pages, history_key, read_history, write_history,
}
use google_messages_multidev.Store.Outbox.{
  cancel_queued_for_pairing, keys, outbox_keys, read_all, write_all,
}

abbrev pub attempt_key : Text
attempt_key = txt "pairing-attempt"

abbrev pub digest_key : Text
digest_key = txt "pairing-agent-digest"

abbrev pub recovery_key : Text
recovery_key = txt "whatsapp-pairing-recovery"

abbrev pub changed_detail : Text
changed_detail = txt "Pairing changed; start an import for the paired phone"

unfoldable pub default_recovery : PairingRecovery
default_recovery = record {
  enabled = false;
  phone_number = [];
  attempts = 0;
  paused = false;
  next_attempt = 0;
}

unfoldable pub reset_recovery : PairingRecovery → PairingRecovery
reset_recovery state = record state { attempts = 0; paused = false; next_attempt = 0 }

-- The records of before session ownership, assigned to the current session.
unfoldable pub claimed_outbox : ℕ → List Outbox → List Outbox
claimed_outbox current [] = []
claimed_outbox current (o ∷ os) =
    let rest = claimed_outbox current os in
    if o.session_epoch == 0 then record o { session_epoch = current } ∷ rest else rest

unfoldable pub claimed_jobs : ℕ → List HistoryJob → List HistoryJob
claimed_jobs current [] = []
claimed_jobs current (j ∷ js) =
    let rest = claimed_jobs current js in
    if j.session_epoch == 0 then record j { session_epoch = current } ∷ rest else rest

-- A job of the previous phone.
unfoldable pub suspended : HistoryJob → HistoryJob
suspended job = record job {
  state = paused;
  detail = changed_detail;
  generation = (job.generation + 1) % uint64_bound;
  pages = 0;
  records = 0;
  retry_at = 0;
}

-- The id behind "history:" in a key.
unfoldable pub drop_prefix : Text → Text → Text
drop_prefix [] k = k
drop_prefix (a ∷ p) [] = []
drop_prefix (a ∷ p) (b ∷ k) = drop_prefix p k

module _ {env : Platform} where
  open env use {Bytes, octets, bolt, json}

  -- A sealed value of the bucket of metadata.
  unfoldable pub put_meta : Text → Text → Bytes → Db env → Db env
  put_meta key context plain db = record db {
    meta = bolt.put db.meta key (encrypt env db.draws plain context);
    draws = suc db.draws;
  }

  unfoldable pub delete_meta : Text → Db env → Db env
  delete_meta key db = record db { meta = bolt.delete db.meta key }

  -- `SaveSession` and `SaveContacts`, with `Session` and `Contacts`: a missing value reads as none.
  unfoldable pub save_session : Bytes → Db env → Db env
  unfolding put_meta
  save_session = put_meta (txt "session") (txt "session")

  unfoldable pub save_contacts : Bytes → Db env → Db env
  unfolding put_meta
  save_contacts = put_meta (txt "contacts") (txt "contacts")

  unfoldable pub meta_value : Text → Db env → Result (Option Bytes)
  meta_value key db = plain_at env db.meta key key

  -- `PairingRecovery`.
  unfoldable pub pairing_recovery : Db env → Result PairingRecovery
  unfolding default_recovery
  pairing_recovery db =
      elim (plain_at env db.meta recovery_key (record_context (txt "meta") recovery_key)) [
        | err e ↦ err e
        | ok none ↦ ok default_recovery
        | ok (some plain) ↦ or_error (json.recovery_codec.unmarshal plain) corrupt
      ]

  -- `UpdatePairingRecovery`.
  unfoldable pub update_recovery : (PairingRecovery → PairingRecovery) → Tx env (Unit {0})
  update_recovery change db = elim (pairing_recovery db) [
    | err e ↦ err e
    | ok state ↦ ok (
      tt,
      put_meta recovery_key (record_context (txt "meta") recovery_key)
          (json.recovery_codec.marshal (change state)) db,
    )
  ]

  unfoldable pub read_jobs : List Text → Db env → Result (List HistoryJob)
  read_jobs [] db = ok []
  read_jobs (k ∷ ks) db = elim (read_history (drop_prefix (history_key []) k) db) [
    | err e ↦ err e
    | ok job ↦ elim (read_jobs ks db) [ err e ↦ err e | ok jobs ↦ ok (job ∷ jobs) ]
  ]

  unfoldable pub write_jobs : List HistoryJob → Tx env (Unit {0})
  write_jobs [] db = ok (tt, db)
  write_jobs (j ∷ js) db = elim (write_history j db) [
    | err e ↦ err e
    | ok (written, db') ↦ write_jobs js db'
  ]

  unfoldable pub stored_jobs : Db env → Result (List HistoryJob)
  unfolding read_jobs
  stored_jobs db = read_jobs (keys (entries_of (txt "history") db)) db

  unfoldable pub upgrade_jobs : ℕ → Tx env (Unit {0})
  upgrade_jobs current db = elim (stored_jobs db) [
    | err e ↦ err e
    | ok jobs ↦ write_jobs (claimed_jobs current jobs) db
  ]

  -- `UpgradeSessionMetadata`.
  unfoldable pub upgrade_session_metadata : Tx env (Unit {0})
  unfolding upgrade_jobs claimed_outbox claimed_jobs
  upgrade_session_metadata db =
      if epoch db == 0 then ok (tt, db) else elim (read_all (outbox_keys db) db) [
        | err e ↦ err e
        | ok os ↦ (do write_all (claimed_outbox (epoch db) os); upgrade_jobs (epoch db)) db
      ]

  -- `BeginPairingAttempt`.
  unfoldable pub begin_pairing_attempt : ℕ → ℕ → Tx env (Unit {0})
  begin_pairing_attempt started expires = do
    cancel_queued_for_pairing
    modify (
        put_meta attempt_key attempt_key
          (json.marker_codec.marshal (record { started = started; expires = expires })))

  -- `ClearPairingAttempt`.
  unfoldable pub clear_pairing_attempt : Db env → Db env
  unfolding delete_meta
  clear_pairing_attempt = delete_meta attempt_key

  -- `SavePairingAgentDigest`.
  unfoldable pub save_agent_digest : Bytes → Tx env (Unit {0})
  save_agent_digest digest db =
      if length (octets digest) == 32
      then ok (tt, put_meta digest_key digest_key digest db)
      else err invalid_digest

  -- `RecoverPairingAttempt`: whether an attempt was interrupted.
  unfoldable pub recover_pairing_attempt : Tx env Bool
  recover_pairing_attempt db = elim (meta_value attempt_key db) [
    | err e ↦ err e
    | ok none ↦ ok (false, db)
    | ok (some plain) ↦ elim (json.marker_codec.unmarshal plain) [
      | none ↦ err invalid_marker
      | some marker ↦
          if (marker.started == 0) || (marker.expires == 0)
          then err invalid_marker
          else ok (true, delete_meta attempt_key db)
    ]
  ]

  unfoldable pub count_kind : Text → Db env → Db env
  count_kind kind db = record db {
    meta = bolt.put db.meta (previous_count_key kind) (counter env (length (entries_of kind db)));
  }

  unfoldable pub next_epoch : Db env → Db env
  next_epoch db = record db {
    meta = bolt.put db.meta (txt "session-epoch") (counter env ((epoch db + 1) % uint64_bound));
  }

  -- Every private record goes: the cursor deletes each entry that it meets.
  unfoldable pub drop_privates : Db env → Db env
  drop_privates db = record db { private = delete_keys env (bolt.entries db.private) db.private }

  unfoldable pub suspend_jobs : List HistoryJob → Tx env (Unit {0})
  unfolding suspended
  suspend_jobs [] db = ok (tt, db)
  suspend_jobs (j ∷ js) db =
      elim (write_history (suspended j)
        (record db { history_pages = forget_pages env j.id db.history_pages })) [
          | err e ↦ err e
          | ok (written, db') ↦ suspend_jobs js db'
        ]

  -- What a new phone changes before the history jobs.
  unfoldable pub replace_phone : Db env → Db env
  unfolding count_kind next_epoch drop_privates delete_meta
  replace_phone db = drop_privates (
      delete_meta (txt "contacts") (
        next_epoch (
          count_kind (txt "message")
            (count_kind (txt "conversation") (record db { latest_messages = bolt.empty })))))

  unfoldable pub adopt_phone : Bool → Tx env (Unit {0})
  unfolding replace_phone suspend_jobs
  adopt_phone new_phone db =
      if new_phone
      then elim (stored_jobs (replace_phone db)) [
        | err e ↦ err e
        | ok jobs ↦ suspend_jobs jobs (replace_phone db)
      ]
      else ok (tt, db)

  unfoldable pub recover_after_pairing : Tx env (Unit {0})
  unfolding reset_recovery
  recover_after_pairing db =
      if is_some (bolt.get db.meta recovery_key)
      then update_recovery reset_recovery db
      else ok (tt, db)

  -- `SavePairedSession`.
  unfoldable pub save_paired_session : Bytes → Bool → Tx env (Unit {0})
  unfolding adopt_phone recover_after_pairing
  save_paired_session session new_phone = do
    recover_after_pairing
    modify (save_session session)
    modify (delete_meta attempt_key)
    cancel_queued_for_pairing
    adopt_phone new_phone
