-- ===== src/Store/History/Created.antt =====
-- `FinishConversation` of internal/store/features.go as a step of the outbox.
use google_messages_multidev.Event.{Event}
use google_messages_multidev.Model.{Outbox, accepted, is_sending}
use google_messages_multidev.Platform.{Platform}
use google_messages_multidev.Prelude.Assoc.{Table}
use google_messages_multidev.Prelude.Core.{
  [], arith, inl, inr, refl, some, subst, true, ℕ, ◌∷◌, ◌≡◌,
}
use google_messages_multidev.Prelude.Tests.{Bool-cases}
use google_messages_multidev.Prelude.Text.{Text, text_eq_refl, txt}
use google_messages_multidev.Result.{Result-cases, ok}
use google_messages_multidev.Store.Apply.{is_stale, put_privates}
use google_messages_multidev.Store.Conversations.{conversation_key}
use google_messages_multidev.Store.Db.{Db, Tx, modify, ◌>>◌}
use google_messages_multidev.Store.Epochs.{leave_previous, lower_count, stamp_epoch}
use google_messages_multidev.Store.Events.{append_tx, observe_tx}
use google_messages_multidev.Store.Events.Frame.{SameRest-append}
use google_messages_multidev.Store.History.{
  accepted_conversation, finish_conversation, record_created,
}
use google_messages_multidev.Store.Outbox.{read_outbox, write_outbox}
use google_messages_multidev.Store.Outbox.Calls.{sending_may}
use google_messages_multidev.Store.Outbox.Lifecycle.{
  Evolves, IsKeyed, Lawful, Lawful-same, Lawful-write, Leads-one,
}
use google_messages_multidev.Store.Outbox.Reads.{read-write_outbox}

accepted-Evolves :
    (o : Outbox) (id : Text) (now : ℕ)
    → is_sending o.state ≡ true
    → Evolves o (accepted_conversation o id now)
unfolding accepted_conversation
accepted-Evolves o id now h = record {
  same_id = refl;
  same_request = refl;
  same_transaction = refl;
  same_created = refl;
  leads = Leads-one (sending_may o.state accepted h refl);
}

module _ {env : Platform} where
  open env use {Bytes}

  put_privates-outbox :
      (private : Table Bytes) (db : Db env) → (put_privates private db).outbox ≡ db.outbox
  unfolding put_privates
  put_privates-outbox [] db = refl
  put_privates-outbox ((id, plain) ∷ rest) db = put_privates-outbox rest _

  stamp_epoch-outbox : (kind id : Text) (db : Db env) → (stamp_epoch kind id db).outbox ≡ db.outbox
  unfolding stamp_epoch leave_previous lower_count
  stamp_epoch-outbox kind id db = ground arith

  record_created-outbox :
      (event : Event Bytes) (private : Table Bytes) (mark : ℕ) (db db' : Db env)
      → record_created event private mark db ≡ ok (tt, db')
      → db'.outbox ≡ db.outbox
  unfolding record_created observe_tx
  record_created-outbox event private mark db db' h =
      elim (Bool-cases (is_stale (some mark) (conversation_key event.entity_id) db)) [
        | inl s ↦ ground arith
        | inr s ↦ elim (Result-cases (append_tx event db)) [
          | inl ((changed, later), e) ↦
              grind (arith, (SameRest-append event db e).outbox, put_privates-outbox)
          | inr (x, e) ↦ absurd (ground arith)
        ]
      ]

  -- A record that is written after two steps.
  written_after :
      (tx : Tx env (Unit {0})) (f : Db env → Db env) (o : Outbox) (db : Db env) {db' : Db env}
      → (do tx; modify f; write_outbox o) db ≡ ok (tt, db')
      → (d : Db env) × (tx db ≡ ok (tt, d)) × (write_outbox o (f d) ≡ ok (tt, db'))
  written_after tx f o db h = elim (Result-cases (tx db)) [
    | inl ((u, d), r) ↦ (d, ground arith, ground arith)
    | inr (x, r) ↦ absurd (ground arith)
  ]

  pub Lawful-finish_conversation :
      (id : Text) (event : Event Bytes) (private : Table Bytes) (mark : ℕ) (db : Db env)
      {db' : Db env}
      → IsKeyed db
      → finish_conversation id event private mark db ≡ ok (tt, db')
      → Lawful db db'
  unfolding finish_conversation accepted_conversation
  Lawful-finish_conversation id event private mark db {db'} k h =
      elim (Result-cases (read_outbox id db)) [
        | inl (o, e) ↦
            let o' = accepted_conversation o event.entity_id db.now in
            let stamp = stamp_epoch {env = env} (txt "conversation") event.entity_id in
            let (d, r, w) =
              written_after (record_created event private mark) stamp o' db {db' = db'}
                (ground arith) in
            let kept : (stamp d).outbox ≡ db.outbox = ground (
              arith,
              stamp_epoch-outbox (txt "conversation") event.entity_id d,
              record_created-outbox event private mark db d r,
            ) in
            Lawful-write o' db (stamp d) w (Lawful-same db (stamp d) kept k) λ p hp.
              subst (λ q. Evolves q o') (ground (arith, k.keyed id o e, hp, e))
                (accepted-Evolves o event.entity_id db.now (ground arith))
        | inr (x, e) ↦ absurd (ground arith)
      ]

  -- A conversation that was created leaves its request accepted.
  pub finish_conversation-accepts :
      (id : Text) (event : Event Bytes) (private : Table Bytes) (mark : ℕ) (db : Db env)
      {db' : Db env}
      → IsKeyed db
      → finish_conversation id event private mark db ≡ ok (tt, db')
      → (o : Outbox) × (read_outbox id db ≡ ok o)
        × (read_outbox id db' ≡ ok (accepted_conversation o event.entity_id db.now))
  unfolding finish_conversation accepted_conversation
  finish_conversation-accepts id event private mark db {db'} k h =
      elim (Result-cases (read_outbox id db)) [
        | inr (x, e) ↦ absurd (ground arith)
        | inl (o, e) ↦
            let o' = accepted_conversation o event.entity_id db.now in
            let stamp = stamp_epoch {env = env} (txt "conversation") event.entity_id in
            let (d, r, w) =
              written_after (record_created event private mark) stamp o' db {db' = db'}
                (ground arith) in
            (
              o,
              e,
              ground (arith, read-write_outbox o' id (stamp d) w, k.keyed id o e, text_eq_refl id),
            )
      ]
