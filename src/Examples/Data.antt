-- ===== src/Examples/Data.antt =====
-- A new database on the sample platform, and records to put into it.
use google_messages_multidev.Model.{SendRequest}
use google_messages_multidev.Model.Request.{request_equal}
use google_messages_multidev.Platform.Sample.{Blob-discrete, same_blob, sample, sample_bolt}
use google_messages_multidev.Prelude.Assoc.{insert, lookup}
use google_messages_multidev.Prelude.Bytes.{big_endian, from_bytes}
use google_messages_multidev.Prelude.Core.{[], false, none, ◌∷◌}
use google_messages_multidev.Prelude.Text.{decimal, text_eq, text_lt, txt}
use google_messages_multidev.Store.Db.{
  Db, decrypt, encrypt, read_counter, record_context, record_key, sequence, update, view,
}
use google_messages_multidev.Store.Epochs.{epoch}
use google_messages_multidev.Store.Events.{
  append_compacted, append_tx, compacted, index_message, plain_at, publish, put_index, unchanged,
  write_event,
}
use google_messages_multidev.Store.Outbox.{
  claim, claim_queued, confirm_send, enqueue, finish, older, oldest_queued, outbox_context,
  outbox_event, outbox_keys, put_outbox, read_all, read_outbox, write_outbox,
}
use google_messages_multidev.Store.Outbox.Lifecycle.{IsKeyed}
use google_messages_multidev.Store.Outbox.Once.{enqueues, run, run-Lawful, step}
use native.Mathlib.Decide.{ℕ_discrete}

abbrev pub new_db : Db sample
new_db = record {
  meta = sample_bolt.empty;
  events = sample_bolt.empty;
  latest = sample_bolt.empty;
  versions = sample_bolt.empty;
  outbox = sample_bolt.empty;
  outbox_txn = sample_bolt.empty;
  private = sample_bolt.empty;
  media = sample_bolt.empty;
  push = sample_bolt.empty;
  message_index = sample_bolt.empty;
  latest_messages = sample_bolt.empty;
  entity_epochs = none;
  history_pages = none;
  network = none;
  now = 1000;
  draws = 0;
}

abbrev pub hello : SendRequest
hello = record {
  kind = [];
  recipients = [];
  group_name = [];
  attachment_ids = [];
  message_id = [];
  emoji = [];
  remove = false;
  conversation_id = txt "c1";
  text = txt "hello";
}

pub new_db-IsKeyed : IsKeyed new_db
unfolding read_outbox plain_at lookup
new_db-IsKeyed = record { keyed = λ j o h. absurd (cc) }

-- A database with one queued request, under the id "k1".
abbrev pub queued_db : Db sample
queued_db = run (enqueues (txt "k1") (txt "t1") hello ∷ []) new_db

pub queued_db-IsKeyed : IsKeyed queued_db
queued_db-IsKeyed =
    (run-Lawful (enqueues (txt "k1") (txt "t1") hello ∷ []) new_db new_db-IsKeyed).keyed

-- What a run on the sample platform computes with.
unfoldable pub runs : Unit {0}
unfolding run step update read_outbox plain_at lookup enqueue put_outbox write_outbox append_tx
    append_compacted compacted publish write_event encrypt decrypt record_key record_context
    unchanged same_blob Blob-discrete ℕ_discrete text_eq insert sequence big_endian claim_queued
    view epoch read_counter request_equal outbox_event from_bytes decimal text_lt claim read_all
    outbox_keys oldest_queued older finish confirm_send index_message put_index outbox_context
runs = tt
