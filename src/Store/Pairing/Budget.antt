-- ===== src/Store/Pairing/Budget.antt =====
-- What keeps the stored state of the recovery (internal/store/pairing_recovery.go), and what writes it.
use google_messages_multidev.Model.{Outbox}
use google_messages_multidev.Platform.{PairingRecovery, Platform}
use google_messages_multidev.Prelude.Core.{List, [], ap, arith, inl, inr, refl, ℕ, ◌∙◌, ◌∷◌, ◌≡◌}
use google_messages_multidev.Prelude.Text.{text_eq, txt}
use google_messages_multidev.Result.{Result-cases, ok}
use google_messages_multidev.Store.Db.{Db, encrypt, record_context}
use google_messages_multidev.Store.Events.{plain_at}
use google_messages_multidev.Store.Laws.{get-delete, plain_at-put_ne, plain_at-put_self}
use google_messages_multidev.Store.Outbox.{
  cancel_queued_for_pairing, outbox_keys, put_outbox, read_all, withdrawn, write_all, write_outbox,
}
use google_messages_multidev.Store.Outbox.Reads.{write_outbox-rest}
use google_messages_multidev.Store.Pairing.{
  attempt_key, begin_pairing_attempt, clear_pairing_attempt, delete_meta, pairing_recovery,
  put_meta, recovery_key, update_recovery,
}

module _ {env : Platform} where
  open env use {Bytes, json}

  write_all-meta :
      (os : List Outbox) (db db' : Db env) → write_all os db ≡ ok (tt, db') → db'.meta ≡ db.meta
  unfolding write_all put_outbox
  write_all-meta [] db db' h = ground arith
  write_all-meta (o ∷ os) db db' h = elim (Result-cases (write_outbox o db)) [
    | inl ((u, next), e) ↦
        write_all-meta os next db' (ground arith) ∙ (write_outbox-rest o db e).meta
    | inr (x, e) ↦ absurd (ground arith)
  ]

  cancel_queued_for_pairing-meta :
      (db db' : Db env) → cancel_queued_for_pairing db ≡ ok (tt, db') → db'.meta ≡ db.meta
  unfolding cancel_queued_for_pairing
  cancel_queued_for_pairing-meta db db' h = elim (Result-cases (read_all (outbox_keys db) db)) [
    | inl (os, e) ↦ write_all-meta (withdrawn db.now os) db db' (ground arith)
    | inr (x, e) ↦ absurd (ground arith)
  ]

  pub recovery-same :
      (db db' : Db env) → db'.meta ≡ db.meta → pairing_recovery db' ≡ pairing_recovery db
  unfolding pairing_recovery
  recovery-same db db' e = rw e refl

  recovery-put_attempt :
      (marker : Bytes) (db : Db env)
      → pairing_recovery (put_meta attempt_key attempt_key marker db) ≡ pairing_recovery db
  unfolding pairing_recovery put_meta text_eq
  recovery-put_attempt marker db =
      let context = record_context (txt "meta") recovery_key in
      let v = encrypt env db.draws marker attempt_key in
      ground (arith, plain_at-put_ne env db.meta attempt_key recovery_key context v refl)

  pub recovery-clear_pairing_attempt :
      (db : Db env) → pairing_recovery (clear_pairing_attempt db) ≡ pairing_recovery db
  unfolding pairing_recovery clear_pairing_attempt delete_meta plain_at text_eq
  recovery-clear_pairing_attempt db =
      ground (arith, get-delete env db.meta attempt_key recovery_key)

  pub recovery-begin_pairing_attempt :
      (started expires : ℕ) (db db' : Db env)
      → begin_pairing_attempt started expires db ≡ ok (tt, db')
      → pairing_recovery db' ≡ pairing_recovery db
  unfolding begin_pairing_attempt
  recovery-begin_pairing_attempt started expires db db' h =
      elim (Result-cases (cancel_queued_for_pairing db)) [
        | inl ((u, d), e) ↦
            let marker =
              json.marker_codec.marshal (record { started = started; expires = expires }) in
            let w : db' ≡ put_meta attempt_key attempt_key marker d = ground arith in
            ap pairing_recovery w
            ∙ recovery-put_attempt marker d
            ∙ recovery-same db d (cancel_queued_for_pairing-meta db d e)
        | inr (x, e) ↦ absurd (ground arith)
      ]

  recovery-put_self :
      (state : PairingRecovery) (db : Db env)
      → pairing_recovery (
          put_meta recovery_key
            (record_context (txt "meta") recovery_key)
            (json.recovery_codec.marshal state)
            db)
        ≡ ok state
  unfolding pairing_recovery put_meta
  recovery-put_self state db =
      let context = record_context (txt "meta") recovery_key in
      let plain = json.recovery_codec.marshal state in
      ground (
        arith,
        plain_at-put_self env db.meta recovery_key context db.draws plain,
        json.recovery_codec.unmarshal-marshal state,
      )

  -- The state that an update leaves is what its callback made of the one that it read.
  pub update_recovery-reads :
      (change : PairingRecovery → PairingRecovery) (db db' : Db env) (state : PairingRecovery)
      → pairing_recovery db ≡ ok state
      → update_recovery change db ≡ ok (tt, db')
      → pairing_recovery db' ≡ ok (change state)
  unfolding update_recovery put_meta
  update_recovery-reads change db db' state e h =
      let context = record_context (txt "meta") recovery_key in
      let plain = json.recovery_codec.marshal (change state) in
      let w : db' ≡ put_meta recovery_key context plain db = ground arith in
      ap pairing_recovery w ∙ recovery-put_self (change state) db

  pub update_recovery-succeeds :
      (change : PairingRecovery → PairingRecovery) (db : Db env) (state : PairingRecovery)
      → pairing_recovery db ≡ ok state
      → (db' : Db env) × (update_recovery change db ≡ ok (tt, db'))
  unfolding update_recovery
  update_recovery-succeeds change db state h = (
    put_meta recovery_key (record_context (txt "meta") recovery_key)
        (json.recovery_codec.marshal (change state)) db,
    ground arith,
  )
