-- ===== src/Store/Epochs/Ownership.antt =====
-- Which records belong to the paired phone (internal/store/pairing.go).
use google_messages_multidev.Platform.{Platform}
use google_messages_multidev.Prelude.Assoc.{lookup}
use google_messages_multidev.Prelude.Bytes.{uint64_bound}
use google_messages_multidev.Prelude.Core.{
  Option, arith, false, inl, inr, none, refl, some, true, ℕ, ◌-◌, ◌<◌, ◌||◌, ◌≡◌,
}
use google_messages_multidev.Prelude.Tests.{
  ==_iff, Bool-cases, Option-cases, if◌then◌else◌, ltb, ◌==◌,
}
use google_messages_multidev.Prelude.Text.{Text, text_eq, txt}
use google_messages_multidev.Store.Db.{Db, counter, read_counter, read_counter-counter, record_key}
use google_messages_multidev.Store.Epochs.{
  bucket_or_new, counter_is, entity_current, epoch, is_owned_kind, leave_previous, lower_count,
  previous_count_key, stamp_epoch,
}
use google_messages_multidev.Store.Laws.{get-put}

pub count_key : (kind : Text) → text_eq (previous_count_key kind) (txt "session-epoch") ≡ false
unfolding previous_count_key text_eq
count_key kind = refl

get-empty : (env : Platform) (key : Text) → env.bolt.get env.bolt.empty key ≡ none
unfolding lookup
get-empty env key = rw (env.bolt.get-eq-lookup env.bolt.empty key, env.bolt.entries-empty) refl

module _ {env : Platform} where
  open env use {Bytes, bolt}

  -- Stamping does not touch the session's number.
  epoch-put :
      (kind : Text) (v : Bytes) (db : Db env)
      → epoch (record db { meta = bolt.put db.meta (previous_count_key kind) v }) ≡ epoch db
  unfolding epoch
  epoch-put kind v db =
      ground (
        arith,
        get-put env db.meta (previous_count_key kind) (txt "session-epoch") v,
        count_key kind,
      )

  lower_count-epoch : (kind : Text) (db : Db env) → epoch (lower_count kind db) ≡ epoch db
  unfolding lower_count
  lower_count-epoch kind db =
      elim (Option-cases (read_counter env (bolt.get db.meta (previous_count_key kind)))) [
        | inl e ↦ ground arith
        | inr (count, e) ↦ elim (Bool-cases (ltb 0 count)) [
          | inl p ↦ ground (arith, epoch-put kind (counter env (count - 1)) db)
          | inr p ↦ ground arith
        ]
      ]

  leave_previous-epoch :
      (kind key : Text) (db : Db env) → epoch (leave_previous kind key db) ≡ epoch db
  unfolding leave_previous
  leave_previous-epoch kind key db = ground (arith, lower_count-epoch kind db)

  stamp_epoch-epoch : (kind id : Text) (db : Db env) → epoch (stamp_epoch kind id db) ≡ epoch db
  unfolding stamp_epoch epoch
  stamp_epoch-epoch kind id db = elim (Bool-cases (is_owned_kind kind)) [
    | inl o ↦ rw o (leave_previous-epoch kind (record_key kind id) db)
    | inr o ↦ rw o refl
  ]

  -- The revision of a stamp that an entity has.
  unfoldable pub stamp_of : Text → Db env → Option ℕ
  stamp_of key db = read_counter env (bolt.get (bucket_or_new env db.entity_epochs) key)

  pub entity_current-stamp_of :
      (kind id : Text) (db : Db env)
      → entity_current kind id db
        ≡ (if epoch db == 0 then true else counter_is (stamp_of (record_key kind id) db) (epoch db))
  unfolding entity_current stamp_of bucket_or_new counter_is read_counter
  entity_current-stamp_of kind id db = elim (Option-cases db.entity_epochs) [
    | inl e ↦ ground (arith, get-empty env (record_key kind id))
    | inr (b, e) ↦ ground arith
  ]

  stamp_of-stamp :
      (kind id key : Text) (db : Db env)
      → is_owned_kind kind ≡ true
      → epoch db < uint64_bound
      → stamp_of key (stamp_epoch kind id db)
        ≡ (if text_eq (record_key kind id) key then some (epoch db) else stamp_of key db)
  unfolding stamp_epoch stamp_of bucket_or_new
  stamp_of-stamp kind id key db o b = rw o (
      ground (
        arith,
        get-put env (bucket_or_new env db.entity_epochs) (record_key kind id) key
            (counter env (epoch db)),
        read_counter-counter env (epoch db) b,
      ))

  -- A message or conversation that is stamped belongs to the current session, and every other record
  -- belongs to it if it did before.
  pub entity_current-stamp :
      (kind id kind' id' : Text) (db : Db env)
      → is_owned_kind kind ≡ true
      → epoch db < uint64_bound
      → entity_current kind' id' (stamp_epoch kind id db)
        ≡ (text_eq (record_key kind id) (record_key kind' id') || entity_current kind' id' db)
  unfolding counter_is
  entity_current-stamp kind id kind' id' db o b =
      rw
        (
          entity_current-stamp_of kind' id' (stamp_epoch kind id db),
          entity_current-stamp_of kind' id' db,
          stamp_epoch-epoch kind id db,
          stamp_of-stamp kind id (record_key kind' id') db o b,
        )
        (ground (arith, ==_iff (epoch db) (epoch db)))
