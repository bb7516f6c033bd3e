-- ===== src/Store/Events/Frame.antt =====
-- What `appendTx` of internal/store/store.go leaves alone.
use google_messages_multidev.Event.{Event}
use google_messages_multidev.Platform.{Platform}
use google_messages_multidev.Prelude.Core.{Bool, arith, ◌≡◌}
use google_messages_multidev.Result.{ok}
use google_messages_multidev.Store.Db.{Db}
use google_messages_multidev.Store.Events.{
  append_compacted, append_tx, index_message, publish, put_index, write_event,
}

module _ {env : Platform} where
  open env use {Bytes}

  -- The two databases agree but for the log, the latest snapshots and the message index.
  pub record SameRest (db db' : Db env) : Type 0 where
    pub meta : db'.meta ≡ db.meta
    pub versions : db'.versions ≡ db.versions
    pub outbox : db'.outbox ≡ db.outbox
    pub outbox_txn : db'.outbox_txn ≡ db.outbox_txn
    pub private : db'.private ≡ db.private
    pub media : db'.media ≡ db.media
    pub push : db'.push ≡ db.push
    pub latest_messages : db'.latest_messages ≡ db.latest_messages
    pub entity_epochs : db'.entity_epochs ≡ db.entity_epochs
    pub history_pages : db'.history_pages ≡ db.history_pages
    pub network : db'.network ≡ db.network
    pub now : db'.now ≡ db.now

  SameRest-refl : (db : Db env) → SameRest db db
  SameRest-refl db = ground arith

  SameRest-publish :
      (event : Event Bytes) (db : Db env) {changed : Bool} {db' : Db env}
      → publish event db ≡ ok (changed, db')
      → SameRest db db'
  unfolding publish write_event index_message put_index
  SameRest-publish event db h = ground arith

  pub SameRest-append :
      (event : Event Bytes) (db : Db env) {changed : Bool} {db' : Db env}
      → append_tx event db ≡ ok (changed, db')
      → SameRest db db'
  unfolding append_tx append_compacted
  SameRest-append event db h = grind (arith, SameRest-publish, SameRest-refl)
