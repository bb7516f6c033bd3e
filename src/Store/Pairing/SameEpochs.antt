-- ===== src/Store/Pairing/SameEpochs.antt =====
-- Steps of a pairing that keep the session's number and the records' stamps (internal/store/pairing.go).
use google_messages_multidev.Model.{HistoryJob, Outbox}
use google_messages_multidev.Platform.{Platform}
use google_messages_multidev.Prelude.Core.{
  List, [], arith, false, inl, inr, refl, subst, ◌∙◌, ◌∷◌, ◌≡◌,
}
use google_messages_multidev.Prelude.Text.{Text, text_eq, txt}
use google_messages_multidev.Result.{Result-cases, ok}
use google_messages_multidev.Store.Db.{Db}
use google_messages_multidev.Store.Epochs.{epoch}
use google_messages_multidev.Store.Events.{append_tx}
use google_messages_multidev.Store.Events.Frame.{SameRest, SameRest-append}
use google_messages_multidev.Store.History.{forget_pages, history_event, write_history}
use google_messages_multidev.Store.Laws.{get-delete, get-put}
use google_messages_multidev.Store.Outbox.{
  cancel_queued_for_pairing, outbox_keys, put_outbox, read_all, withdrawn, write_all, write_outbox,
}
use google_messages_multidev.Store.Outbox.Reads.{write_outbox-rest}
use google_messages_multidev.Store.Pairing.{suspend_jobs, suspended}

module _ {env : Platform} where
  open env use {Bytes, bolt}

  -- Writes of metadata under another key leave the session's number alone.
  pub epoch-put_ne :
      (key : Text) (v : Bytes) (db : Db env)
      → text_eq key (txt "session-epoch") ≡ false
      → epoch (record db { meta = bolt.put db.meta key v }) ≡ epoch db
  unfolding epoch
  epoch-put_ne key v db n = ground (arith, get-put env db.meta key (txt "session-epoch") v)

  pub epoch-delete_ne :
      (key : Text) (db : Db env)
      → text_eq key (txt "session-epoch") ≡ false
      → epoch (record db { meta = bolt.delete db.meta key }) ≡ epoch db
  unfolding epoch
  epoch-delete_ne key db n = ground (arith, get-delete env db.meta key (txt "session-epoch"))

  -- The session's number and the stamps of the records.
  pub record SameEpochs (db db' : Db env) : Type 0 where
    pub same_epoch : epoch db' ≡ epoch db
    pub same_stamps : db'.entity_epochs ≡ db.entity_epochs

  pub SameEpochs-trans : {a b c : Db env} → SameEpochs a b → SameEpochs b c → SameEpochs a c
  SameEpochs-trans p q = record {
    same_epoch = q.same_epoch ∙ p.same_epoch;
    same_stamps = q.same_stamps ∙ p.same_stamps;
  }

  SameEpochs-rest : (db db' : Db env) → SameRest db db' → SameEpochs db db'
  unfolding epoch
  SameEpochs-rest db db' r = record { same_epoch = rw (r.meta) refl; same_stamps = r.entity_epochs }

  SameEpochs-write_history :
      (job written : HistoryJob) (db db' : Db env)
      → write_history job db ≡ ok (written, db')
      → SameEpochs db db'
  unfolding write_history
  SameEpochs-write_history job written db db' h =
      elim (Result-cases (append_tx (history_event env (record job { updated = db.now })) db)) [
        | inl ((changed, later), e) ↦ subst (SameEpochs db) (ground arith) (
            SameEpochs-rest db later
              (SameRest-append (history_event env (record job { updated = db.now })) db e))
        | inr (x, e) ↦ absurd (ground arith)
      ]

  pub SameEpochs-suspend_jobs :
      (jobs : List HistoryJob) (db db' : Db env)
      → suspend_jobs jobs db ≡ ok (tt, db')
      → SameEpochs db db'
  unfolding suspend_jobs epoch
  SameEpochs-suspend_jobs [] db db' h = record {
    same_epoch = ground arith;
    same_stamps = ground arith;
  }
  SameEpochs-suspend_jobs (j ∷ js) db db' h =
      let cleared = record db { history_pages = forget_pages env j.id db.history_pages } in
      elim (Result-cases (write_history (suspended j) cleared)) [
        | inl ((written, later), e) ↦
            let first = SameEpochs-write_history (suspended j) written cleared later e in
            let rest = SameEpochs-suspend_jobs js later db' (ground arith) in
            record {
              same_epoch = rest.same_epoch ∙ first.same_epoch;
              same_stamps = rest.same_stamps ∙ first.same_stamps;
            }
        | inr (x, e) ↦ absurd (ground arith)
      ]

  SameEpochs-write_outbox :
      (o : Outbox) (db db' : Db env) → write_outbox o db ≡ ok (tt, db') → SameEpochs db db'
  unfolding put_outbox epoch
  SameEpochs-write_outbox o db db' h =
      let r = write_outbox-rest o db h in
      record { same_epoch = rw (r.meta) refl; same_stamps = r.entity_epochs }

  SameEpochs-write_all :
      (os : List Outbox) (db db' : Db env) → write_all os db ≡ ok (tt, db') → SameEpochs db db'
  unfolding write_all
  SameEpochs-write_all [] db db' h = record {
    same_epoch = ground arith;
    same_stamps = ground arith;
  }
  SameEpochs-write_all (o ∷ os) db db' h = elim (Result-cases (write_outbox o db)) [
    | inl ((done_with, later), e) ↦
        SameEpochs-trans (SameEpochs-write_outbox o db later (ground arith))
          (SameEpochs-write_all os later db' (ground arith))
    | inr (x, e) ↦ absurd (ground arith)
  ]

  pub SameEpochs-cancel :
      (db db' : Db env) → cancel_queued_for_pairing db ≡ ok (tt, db') → SameEpochs db db'
  unfolding cancel_queued_for_pairing
  SameEpochs-cancel db db' h = elim (Result-cases (read_all (outbox_keys db) db)) [
    | inl (os, e) ↦ SameEpochs-write_all (withdrawn db.now os) db db' (ground arith)
    | inr (x, e) ↦ absurd (ground arith)
  ]
