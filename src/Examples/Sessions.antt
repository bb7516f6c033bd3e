-- ===== src/Examples/Sessions.antt =====
-- A message that the phone of the first session sends.
use google_messages_multidev.Examples.Data.{new_db, runs}
use google_messages_multidev.Examples.Outbox.{db_or}
use google_messages_multidev.Platform.Sample.{octets_of, sample, sample_bolt}
use google_messages_multidev.Prelude.Assoc.{lookup, seek, while_prefix}
use google_messages_multidev.Prelude.Core.{arith, false, refl, some, suc, true, ℕ, ◌||◌, ◌≡◌, ◌≤◌}
use google_messages_multidev.Prelude.Text.{Text, text_eq, txt}
use google_messages_multidev.Result.{Result, ok}
use google_messages_multidev.Store.Db.{Db, counter, read_counter, record_key}
use google_messages_multidev.Store.Epochs.{
  bucket_or_new, entity_current, entries_of, epoch, is_owned_kind, is_some, or_zero,
  previous_count_key, stamp_epoch,
}
use google_messages_multidev.Store.Epochs.Ownership.{entity_current-stamp, stamp_of}
use google_messages_multidev.Store.History.{delete_keys}
use google_messages_multidev.Store.Outbox.{cancel_queued_for_pairing, withdrawn, write_all}
use google_messages_multidev.Store.Pairing.{
  adopt_phone, count_kind, delete_meta, drop_privates, next_epoch, put_meta, read_jobs,
  recover_after_pairing, replace_phone, save_paired_session, save_session, stored_jobs,
  suspend_jobs,
}
use google_messages_multidev.Store.Pairing.Replacement.{new_phone-owns_nothing}

abbrev paired_db : Db sample
paired_db = record new_db {
  meta = sample_bolt.put new_db.meta (txt "session-epoch") (counter sample 1);
}

paired_db-epoch : epoch paired_db ≡ 1
unfolding runs counter or_zero
paired_db-epoch = refl

message_owned : is_owned_kind (txt "message") ≡ true
unfolding is_owned_kind text_eq
message_owned = refl

entity_current-stamp_example :
    entity_current (txt "message") (txt "m1") (stamp_epoch (txt "message") (txt "m1") paired_db) ≡ (
      text_eq (record_key (txt "message") (txt "m1")) (record_key (txt "message") (txt "m1"))
      || entity_current (txt "message") (txt "m1") paired_db)
entity_current-stamp_example =
    entity_current-stamp (txt "message") (txt "m1") (txt "message") (txt "m1") paired_db
      message_owned (omega (arith, paired_db-epoch))

-- What storing a session computes with.
unfoldable pairs : Unit {0}
unfolding runs save_paired_session recover_after_pairing save_session put_meta delete_meta
    cancel_queued_for_pairing write_all withdrawn adopt_phone stored_jobs read_jobs entries_of seek
    while_prefix replace_phone count_kind next_epoch drop_privates delete_keys suspend_jobs is_some
    counter or_zero previous_count_key
pairs = tt

abbrev saved : Result (Unit {0} × Db sample)
saved = save_paired_session (octets_of (txt "session")) true new_db

saved_ok : saved ≡ ok (tt, db_or saved)
unfolding pairs
saved_ok = refl

new_db-epoch : epoch new_db ≡ 0
unfolding runs or_zero
new_db-epoch = refl

no_stamps : (key : Text) (n : ℕ) → stamp_of key new_db ≡ some n → n ≤ epoch new_db
unfolding stamp_of bucket_or_new lookup read_counter
no_stamps key n h = absurd (cc)

new_phone-owns_nothing_example :
    (epoch (db_or saved) ≡ suc (epoch new_db))
    × ((kind id : Text) → entity_current kind id (db_or saved) ≡ false)
new_phone-owns_nothing_example =
    new_phone-owns_nothing (octets_of (txt "session")) new_db (db_or saved)
      (omega (arith, new_db-epoch)) no_stamps saved_ok
