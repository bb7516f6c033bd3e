-- ===== src/Store/Epochs.antt =====
-- Session epochs: which pairing a stored conversation or message belongs to. `epoch`, `stampEpoch`,
-- `EntityCurrent`, `SessionSummary` and `AdoptStoredRecords` of internal/store/pairing.go,
-- `entityCurrentTx` of internal/store/records.go.
pub mod Ownership
use google_messages_multidev.Platform.{Platform}
use google_messages_multidev.Prelude.Assoc.{Table, seek, while_prefix}
use google_messages_multidev.Prelude.Core.{
  Bool, Option, [], false, none, not, some, true, ℕ, ◌&&◌, ◌++◌, ◌+◌, ◌-◌, ◌||◌, ◌∷◌,
}
use google_messages_multidev.Prelude.Tests.{if◌then◌else◌, ltb, ◌==◌}
use google_messages_multidev.Prelude.Text.{Text, text_eq, txt}
use google_messages_multidev.Store.Db.{Db, counter, read_counter, record_key}

unfoldable pub previous_count_key : Text → Text
previous_count_key kind = txt "previous-session-" ++ kind ++ txt "s"

pub record SessionSummary : Type 0 where
  pub session_epoch : ℕ
  pub previous_conversations : ℕ
  pub previous_messages : ℕ

unfoldable pub or_zero : Option ℕ → ℕ
or_zero none = 0
or_zero (some n) = n

unfoldable pub counter_is : Option ℕ → ℕ → Bool
counter_is none n = false
counter_is (some m) n = m == n

unfoldable pub is_owned_kind : Text → Bool
is_owned_kind kind = text_eq kind (txt "message") || text_eq kind (txt "conversation")

unfoldable pub is_some {ℓ} : {A : Type ℓ} → Option A → Bool
is_some none = false
is_some (some v) = true

-- `CreateBucketIfNotExists`.
unfoldable pub bucket_or_new : (env : Platform) → Option env.bolt.Bucket → env.bolt.Bucket
bucket_or_new env none = env.bolt.empty
bucket_or_new env (some b) = b

module _ {env : Platform} where
  open env use {Bytes, bolt}

  -- `epoch`.
  unfoldable pub epoch : Db env → ℕ
  unfolding or_zero
  epoch db = or_zero (read_counter env (bolt.get db.meta (txt "session-epoch")))

  -- The counter of records that belong to an earlier pairing goes down, but not below zero.
  unfoldable pub lower_count : Text → Db env → Db env
  lower_count kind db = elim (read_counter env (bolt.get db.meta (previous_count_key kind))) [
    | none ↦ db
    | some count ↦
        if ltb 0 count
        then record db {
          meta = bolt.put db.meta (previous_count_key kind) (counter env (count - 1));
        }
        else db
  ]

  -- A known record that the current pairing had not observed yet leaves the earlier ones.
  unfoldable pub leave_previous : Text → Text → Db env → Db env
  unfolding counter_is is_some bucket_or_new
  leave_previous kind key db =
      if ltb 0 (epoch db)
        && (is_some (bolt.get db.latest key)
            && not (
                counter_is (read_counter env (bolt.get (bucket_or_new env db.entity_epochs) key))
                  (epoch db)))
      then lower_count kind db
      else db

  -- `stampEpoch`.
  unfoldable pub stamp_epoch : Text → Text → Db env → Db env
  unfolding is_owned_kind bucket_or_new
  stamp_epoch kind id db =
      if is_owned_kind kind
      then record (leave_previous kind (record_key kind id) db) {
        entity_epochs = some (
            bolt.put (bucket_or_new env db.entity_epochs) (record_key kind id)
              (counter env (epoch db)));
      }
      else db

  -- `entityCurrentTx` and `EntityCurrent`.
  unfoldable pub entity_current : Text → Text → Db env → Bool
  unfolding counter_is
  entity_current kind id db = if epoch db == 0 then true else elim db.entity_epochs [
    | none ↦ false
    | some b ↦ counter_is (read_counter env (bolt.get b (record_key kind id))) (epoch db)
  ]

  -- `SessionSummary`.
  unfoldable pub session_summary : Db env → SessionSummary
  unfolding or_zero
  session_summary db =
      if epoch db == 0
      then record { session_epoch = 0; previous_conversations = 0; previous_messages = 0 }
      else record {
        session_epoch = epoch db;
        previous_conversations =
            or_zero (read_counter env (bolt.get db.meta (previous_count_key (txt "conversation"))));
        previous_messages =
            or_zero (read_counter env (bolt.get db.meta (previous_count_key (txt "message"))));
      }

  -- The entries of a kind in the latest snapshots, as a cursor walks them.
  unfoldable pub entries_of : Text → Db env → Table Bytes
  entries_of kind db =
      while_prefix (record_key kind []) (seek (record_key kind []) (bolt.entries db.latest))

module _ (env : Platform) where
  open env use {Bytes, bolt}

  -- The inner loop of `AdoptStoredRecords`: the bucket of epochs, and how many were moved.
  unfoldable pub adopt_entries : ℕ → Table Bytes → bolt.Bucket × ℕ → bolt.Bucket × ℕ
  adopt_entries current [] acc = acc
  adopt_entries current ((k, v) ∷ rest) (epochs, adopted) = adopt_entries current rest (
      if counter_is (read_counter env (bolt.get epochs k)) current
      then (epochs, adopted)
      else (bolt.put epochs k (counter env current), adopted + 1))

module _ {env : Platform} where
  open env use {bolt}

  unfoldable pub adopt_kind : Text → Db env × ℕ → Db env × ℕ
  unfolding adopt_entries entries_of counter_is bucket_or_new
  adopt_kind kind (db, adopted) =
      let moved =
        adopt_entries env (epoch db) (entries_of kind db)
          (bucket_or_new env db.entity_epochs, adopted) in
      (
        record db {
          entity_epochs = some (moved.0);
          meta = bolt.put db.meta (previous_count_key kind) (counter env 0);
        },
        moved.1,
      )

  -- `AdoptStoredRecords`.
  unfoldable pub adopt_stored_records : Db env → Db env × ℕ
  unfolding adopt_kind
  adopt_stored_records db =
      if epoch db == 0
      then (db, 0)
      else adopt_kind (txt "message") (adopt_kind (txt "conversation") (db, 0))
