-- ===== src/Store/Records.antt =====
-- Reads and plain records: `Latest`, `Record`, `get` and `put`, `Snapshot`, `SnapshotCurrent` and
-- `ConversationMessages` of internal/store/records.go, with the message index; push
-- subscriptions and keys of internal/store/push.go.
use google_messages_multidev.Platform.{Platform, PushKeys}
use google_messages_multidev.Prelude.Assoc.{Table, seek, while_prefix}
use google_messages_multidev.Prelude.Core.{Bool, List, Option, [], none, some, suc, ℕ, ◌∷◌}
use google_messages_multidev.Prelude.Tests.{if◌then◌else◌}
use google_messages_multidev.Prelude.Text.{Text, txt}
use google_messages_multidev.Result.{Result, corrupt, err, is_not_found, not_found, ok}
use google_messages_multidev.Store.Db.{Db, Tx, decrypt, encrypt, record_context, record_key}
use google_messages_multidev.Store.Epochs.{entity_current, entries_of}
use google_messages_multidev.Store.Events.{message_index_key, plain_at, watermark}
use google_messages_multidev.Store.History.{history_key}
use google_messages_multidev.Store.Outbox.{keys}
use google_messages_multidev.Store.Pairing.{drop_prefix, put_meta}

pub record SnapshotRecord (Bytes : Type 0) : Type 0 where
  pub payload : Bytes
  pub current : Bool

-- The buckets that the generic `get` and `put` are called for.
pub data Shelf : Type 0 where
  on_latest on_private on_media on_meta : Shelf

unfoldable pub shelf_name : Shelf → Text
shelf_name on_latest = txt "latest"
shelf_name on_private = txt "private"
shelf_name on_media = txt "media"
shelf_name on_meta = txt "meta"

unfoldable pub payloads : {A : Type 0} → List (Text × A) → List A
payloads [] = []
payloads ((k, plain) ∷ rest) = plain ∷ payloads rest

module _ {env : Platform} where
  open env use {Bytes, raw, bolt, json}

  unfoldable pub shelf : Shelf → Db env → bolt.Bucket
  shelf on_latest db = db.latest
  shelf on_private db = db.private
  shelf on_media db = db.media
  shelf on_meta db = db.meta

  unfoldable pub set_shelf : Shelf → bolt.Bucket → Db env → Db env
  set_shelf on_latest b db = record db { latest = b }
  set_shelf on_private b db = record db { private = b }
  set_shelf on_media b db = record db { media = b }
  set_shelf on_meta b db = record db { meta = b }

  -- `get`; so `Record`, `Private` and `Media`.
  unfoldable pub get_value : Shelf → Text → Db env → Result Bytes
  unfolding shelf
  get_value at key db = elim (plain_at env (shelf at db) key (record_context (shelf_name at) key)) [
    | err e ↦ err e
    | ok none ↦ err not_found
    | ok (some plain) ↦ ok plain
  ]

  -- `put`; so `PutPrivate` and `PutMedia`.
  unfoldable pub put_value : Shelf → Text → Bytes → Db env → Db env
  unfolding shelf set_shelf
  put_value at key plain db =
      record (set_shelf at
        (bolt.put (shelf at db) key
          (encrypt env db.draws plain (record_context (shelf_name at) key)))
        db) { draws = suc db.draws }

  -- `HistoryCursor`: a missing cursor is the empty one.
  unfoldable pub history_cursor : Text → Db env → Result Bytes
  history_cursor id db = elim (get_value on_private (history_key id) db) [
    | ok plain ↦ ok plain
    | err e ↦ if is_not_found e then ok (raw []) else err e
  ]

module _ (env : Platform) where
  open env use {Bytes, bolt}

  -- The plaintexts of entries that are sealed under their own keys.
  unfoldable pub open_entries : Table Bytes → Result (List (Text × Bytes))
  open_entries [] = ok []
  open_entries ((k, v) ∷ rest) = elim (decrypt env v k) [
    | err e ↦ err e
    | ok plain ↦ elim (open_entries rest) [ err e ↦ err e | ok more ↦ ok ((k, plain) ∷ more) ]
  ]

module _ {env : Platform} where
  open env use {Bytes, bolt, json}

  -- `Latest`.
  unfoldable pub latest_records : Text → Db env → Result (List Bytes)
  unfolding open_entries payloads
  latest_records kind db = elim (open_entries env (entries_of kind db)) [
    | err e ↦ err e
    | ok opened ↦ ok (payloads opened)
  ]

  -- `Snapshot`: the records of a kind, and the event cursor they stand at.
  unfoldable pub snapshot : Text → Db env → Result (List Bytes × ℕ)
  snapshot kind db = elim (latest_records kind db) [
    | err e ↦ err e
    | ok records ↦ ok (records, watermark db)
  ]

  unfoldable pub annotate : Text → Db env → List (Text × Bytes) → List (SnapshotRecord Bytes)
  annotate kind db [] = []
  annotate kind db ((k, plain) ∷ rest) =
      record {
        payload = plain;
        current = entity_current kind (drop_prefix (record_key kind []) k) db;
      }
      ∷ annotate kind db rest

  -- `SnapshotCurrent`.
  unfoldable pub snapshot_current : Text → Db env → Result (List (SnapshotRecord Bytes) × ℕ)
  unfolding annotate
  snapshot_current kind db = elim (open_entries env (entries_of kind db)) [
    | err e ↦ err e
    | ok opened ↦ ok (annotate kind db opened, watermark db)
  ]

  unfoldable pub message_at : Text → Db env → Result (Option (SnapshotRecord Bytes))
  message_at id db =
      elim (plain_at env db.latest (record_key (txt "message") id)
        (record_key (txt "message") id)) [
          | err e ↦ err e
          | ok none ↦ ok none
          | ok (some plain) ↦
              ok (some (record { payload = plain; current = entity_current (txt "message") id db }))
        ]

  -- The loop of `ConversationMessages`: an indexed message without a snapshot is passed over.
  unfoldable pub collect_messages : Text → List Text → Db env → Result (List (SnapshotRecord Bytes))
  unfolding message_at
  collect_messages prefix [] db = ok []
  collect_messages prefix (k ∷ ks) db = elim (message_at (drop_prefix prefix k) db) [
    | err e ↦ err e
    | ok found ↦ elim (collect_messages prefix ks db) [
      | err e ↦ err e
      | ok more ↦ ok (elim found [ none ↦ more | some r ↦ r ∷ more ])
    ]
  ]

  -- `ConversationMessages`.
  unfoldable pub conversation_messages : Text → Db env → Result (List (SnapshotRecord Bytes) × ℕ)
  unfolding collect_messages
  conversation_messages conversation_id db =
      let prefix = message_index_key conversation_id [] in
      elim (collect_messages prefix
        (keys (while_prefix prefix (seek prefix (bolt.entries db.message_index)))) db) [
          | err e ↦ err e
          | ok records ↦ ok (records, watermark db)
        ]

  -- `EnsurePushKeys`: `generate` is called only where no pair is stored.
  unfoldable pub ensure_push_keys : Result PushKeys → Tx env PushKeys
  ensure_push_keys generate db = elim (plain_at env db.meta (txt "vapid") (txt "vapid")) [
    | err e ↦ err e
    | ok (some plain) ↦ elim (json.keys_codec.unmarshal plain) [
      | none ↦ err corrupt
      | some pair ↦ ok (pair, db)
    ]
    | ok none ↦ elim generate [
      | err e ↦ err e
      | ok fresh ↦
          ok (fresh, put_meta (txt "vapid") (txt "vapid") (json.keys_codec.marshal fresh) db)
    ]
  ]

  -- `PutSubscription` and `DeleteSubscription`.
  unfoldable pub put_subscription : Text → Bytes → Db env → Db env
  put_subscription id content db = record db {
    push = bolt.put db.push id (encrypt env db.draws content (record_context (txt "push") id));
    draws = suc db.draws;
  }

  unfoldable pub delete_subscription : Text → Db env → Db env
  delete_subscription id db = record db { push = bolt.delete db.push id }
