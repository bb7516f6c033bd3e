-- ===== src/Examples/Outbox.antt =====
-- Runs of the outbox, and its theorems at concrete inputs.
use google_messages_multidev.Examples.Data.{hello, new_db, queued_db, queued_db-IsKeyed, runs}
use google_messages_multidev.Model.{Outbox, queued}
use google_messages_multidev.Platform.Sample.{sample}
use google_messages_multidev.Prelude.Core.{List, Option, [], none, refl, ◌∷◌, ◌≡◌}
use google_messages_multidev.Prelude.Tests.{if◌then◌else◌}
use google_messages_multidev.Prelude.Text.{text_eq, txt}
use google_messages_multidev.Result.{Result, conflict, err, ok}
use google_messages_multidev.Store.Db.{Db, view}
use google_messages_multidev.Store.Outbox.{
  claim, claim_queued, outbox_keys, read_all, read_outbox, write_outbox,
}
use google_messages_multidev.Store.Outbox.Oldest.{Claims, claim_takes_oldest}
use google_messages_multidev.Store.Outbox.Once.{claimed_at_most_once, claims, recovers, run}
use google_messages_multidev.Store.Outbox.Reads.{read-write_outbox}

abbrev pub record_or {ℓ} : {A : Type ℓ} {B : Type 0} → Result (A × B) → A → A
record_or (ok (a, b)) c = a
record_or (err e) c = c

abbrev pub db_or : {A : Type 0} → Result (A × Db sample) → Db sample
db_or (ok (a, db)) = db
db_or (err e) = new_db

abbrev pub blank : Outbox
blank = record {
  conversation_id = [];
  session_epoch = 0;
  schema = 1;
  id = [];
  request = hello;
  transaction_id = [];
  state = queued;
  message_id = [];
  detail = [];
  created = 0;
  updated = 0;
}

abbrev claimed : Result (Outbox × Db sample)
claimed = claim_queued (txt "k1") queued_db

claimed_ok : claimed ≡ ok (record_or claimed blank, db_or claimed)
unfolding runs
claimed_ok = refl

-- The claimed record is sent once, though the service restarts and the echo arrives.
claimed_at_most_once_example :
    view (claim_queued (txt "k1")) (run (recovers ∷ claims ∷ []) (db_or claimed)) ≡ err conflict
claimed_at_most_once_example =
    claimed_at_most_once (txt "k1") queued_db (record_or claimed blank) (db_or claimed)
      (recovers ∷ claims ∷ []) queued_db-IsKeyed claimed_ok

abbrev list_or : {A : Type 0} → Result (List A) → List A
list_or (ok os) = os
list_or (err e) = []

abbrev queue : List Outbox
queue = list_or (read_all (outbox_keys queued_db) queued_db)

abbrev first : Result (Option Outbox × Db sample)
first = claim queued_db

queue_ok : read_all (outbox_keys queued_db) queued_db ≡ ok queue
unfolding runs
queue_ok = refl

first_ok : first ≡ ok (record_or first none, db_or first)
unfolding runs
first_ok = refl

claim_takes_oldest_example : Claims queue (record_or first none) queued_db (db_or first)
claim_takes_oldest_example =
    claim_takes_oldest queued_db queue (record_or first none) queued_db-IsKeyed queue_ok first_ok

abbrev second : Outbox
second = record blank { id = txt "k2" }

second_written : write_outbox second queued_db ≡ ok (tt, db_or (write_outbox second queued_db))
unfolding runs
second_written = refl

read-write_outbox_example :
    read_outbox (txt "k1") (db_or (write_outbox second queued_db))
    ≡ (if text_eq second.id (txt "k1") then ok second else read_outbox (txt "k1") queued_db)
read-write_outbox_example = read-write_outbox second (txt "k1") queued_db second_written
