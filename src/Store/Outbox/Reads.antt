-- ===== src/Store/Outbox/Reads.antt =====
-- What a write of `writeOutbox` (internal/store/records.go) makes of the reads.
use google_messages_multidev.Model.{Outbox}
use google_messages_multidev.Platform.{Platform}
use google_messages_multidev.Prelude.Core.{arith, false, ◌≡◌}
use google_messages_multidev.Prelude.Tests.{if◌then◌else◌}
use google_messages_multidev.Prelude.Text.{Text, text_eq, text_eq_iff}
use google_messages_multidev.Result.{ok}
use google_messages_multidev.Store.Db.{Db, done-ok, encrypt}
use google_messages_multidev.Store.Events.{append_tx}
use google_messages_multidev.Store.Events.Frame.{SameRest, SameRest-append}
use google_messages_multidev.Store.Laws.{plain_at-put_ne, plain_at-put_self}
use google_messages_multidev.Store.Outbox.{
  outbox_context, outbox_event, put_outbox, read_outbox, write_outbox,
}

module _ {env : Platform} where
  open env use {Bytes, json}

  read-put_self : (o : Outbox) (db : Db env) → read_outbox o.id (put_outbox o db) ≡ ok o
  unfolding read_outbox put_outbox
  read-put_self o db = ground (
    arith,
    plain_at-put_self env db.outbox o.id (outbox_context o.id) db.draws
        (json.outbox_codec.marshal o),
    json.outbox_codec.unmarshal-marshal o,
  )

  read-put_ne :
      (o : Outbox) (j : Text) (db : Db env)
      → text_eq o.id j ≡ false
      → read_outbox j (put_outbox o db) ≡ read_outbox j db
  unfolding read_outbox put_outbox
  read-put_ne o j db h = ground (
    arith,
    plain_at-put_ne env db.outbox o.id j (outbox_context j)
        (encrypt env db.draws (json.outbox_codec.marshal o) (outbox_context o.id)) h,
  )

  -- Only the bucket of the outbox decides a read.
  pub read-same :
      (j : Text) (db db' : Db env) → db'.outbox ≡ db.outbox → read_outbox j db' ≡ read_outbox j db
  unfolding read_outbox
  read-same j db db' e = rw e

  pub write_outbox-rest :
      (o : Outbox) (db : Db env) {db' : Db env}
      → write_outbox o db ≡ ok (tt, db')
      → SameRest (put_outbox o db) db'
  unfolding write_outbox
  write_outbox-rest o db h =
      let (changed, e) = done-ok (append_tx (outbox_event env o) (put_outbox o db)) h in
      SameRest-append (outbox_event env o) (put_outbox o db) e

  -- The written record is read under its id, and every other read stays as it was.
  pub read-write_outbox :
      (o : Outbox) (j : Text) (db : Db env) {db' : Db env}
      → write_outbox o db ≡ ok (tt, db')
      → read_outbox j db' ≡ (if text_eq o.id j then ok o else read_outbox j db)
  read-write_outbox o j db {db'} h =
      let e = read-same j (put_outbox o db) db' (write_outbox-rest o db h).outbox in
      ground (arith, e, text_eq_iff o.id j, read-put_self o db, read-put_ne o j db)
