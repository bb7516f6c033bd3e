-- ===== src/Store/Pairing/Replacement.antt =====
-- What a new phone changes: `SavePairedSession` of internal/store/pairing.go.
use google_messages_multidev.Platform.{Platform}
use google_messages_multidev.Prelude.Bytes.{uint64_bound}
use google_messages_multidev.Prelude.Core.{
  ap, arith, false, inl, inr, refl, some, subst, suc, true, ℕ, ◌%◌, ◌+◌, ◌<◌, ◌∙◌, ◌≡◌, ◌≤◌,
}
use google_messages_multidev.Prelude.Lists.{length}
use google_messages_multidev.Prelude.Tests.{Bool-cases, Option-cases}
use google_messages_multidev.Prelude.Text.{Text, text_eq, text_eq_refl, txt}
use google_messages_multidev.Result.{Result-cases, ok}
use google_messages_multidev.Store.Db.{
  Db, counter, encrypt, read_counter-counter, record_context, record_key,
}
use google_messages_multidev.Store.Epochs.{
  counter_is, entity_current, entries_of, epoch, is_some, or_zero, previous_count_key,
}
use google_messages_multidev.Store.Epochs.Ownership.{count_key, entity_current-stamp_of, stamp_of}
use google_messages_multidev.Store.Laws.{get-put}
use google_messages_multidev.Store.Outbox.{cancel_queued_for_pairing}
use google_messages_multidev.Store.Pairing.{
  adopt_phone, attempt_key, count_kind, delete_meta, drop_privates, next_epoch, pairing_recovery,
  put_meta, recover_after_pairing, recovery_key, replace_phone, reset_recovery, save_paired_session,
  save_session, stored_jobs, update_recovery,
}
use google_messages_multidev.Store.Pairing.SameEpochs.{
  SameEpochs, SameEpochs-cancel, SameEpochs-suspend_jobs, SameEpochs-trans, epoch-delete_ne,
  epoch-put_ne,
}

module _ {env : Platform} where
  open env use {Bytes, bolt}

  epoch-count_kind : (kind : Text) (db : Db env) → epoch (count_kind kind db) ≡ epoch db
  unfolding count_kind
  epoch-count_kind kind db =
      epoch-put_ne (previous_count_key kind) (counter env (length (entries_of kind db))) db
        (count_key kind)

  epoch-set :
      (n : ℕ) (db : Db env)
      → n < uint64_bound
      → epoch (record db { meta = bolt.put db.meta (txt "session-epoch") (counter env n) }) ≡ n
  unfolding epoch or_zero
  epoch-set n db b = ground (
    arith,
    get-put env db.meta (txt "session-epoch") (txt "session-epoch") (counter env n),
    text_eq_refl (txt "session-epoch"),
    read_counter-counter env n b,
  )

  epoch-next_epoch :
      (db : Db env) → suc (epoch db) < uint64_bound → epoch (next_epoch db) ≡ suc (epoch db)
  unfolding next_epoch
  epoch-next_epoch db b =
      let e : (epoch db + 1) % uint64_bound ≡ suc (epoch db) = omega arith in
      epoch-set ((epoch db + 1) % uint64_bound) db (rw e b) ∙ e

  epoch-contacts : (db : Db env) → epoch (delete_meta (txt "contacts") db) ≡ epoch db
  unfolding delete_meta text_eq
  epoch-contacts db = epoch-delete_ne (txt "contacts") db refl

  epoch-drop_privates : (db : Db env) → epoch (drop_privates db) ≡ epoch db
  unfolding drop_privates epoch
  epoch-drop_privates db = refl

  epoch-no_latest : (db : Db env) → epoch (record db { latest_messages = bolt.empty }) ≡ epoch db
  unfolding epoch
  epoch-no_latest db = refl

  epoch-counted :
      (db : Db env)
      → epoch (
          count_kind
            (txt "message")
            (count_kind (txt "conversation") (record db { latest_messages = bolt.empty })))
        ≡ epoch db
  epoch-counted db =
      let fresh = record db { latest_messages = bolt.empty } in
      epoch-count_kind (txt "message") (count_kind (txt "conversation") fresh)
      ∙ epoch-count_kind (txt "conversation") fresh
      ∙ epoch-no_latest db

  epoch-replace_phone :
      (db : Db env)
      → suc (epoch db) < uint64_bound
      → (epoch (replace_phone db) ≡ suc (epoch db))
        × ((replace_phone db).entity_epochs ≡ db.entity_epochs)
  unfolding replace_phone count_kind next_epoch drop_privates delete_meta
  epoch-replace_phone db b =
      let counted =
        count_kind (txt "message")
          (count_kind (txt "conversation") (record db { latest_messages = bolt.empty })) in
      (
        epoch-drop_privates (delete_meta (txt "contacts") (next_epoch counted))
            ∙ epoch-contacts (next_epoch counted)
            ∙ epoch-next_epoch counted (rw (epoch-counted db) b)
            ∙ ap suc (epoch-counted db),
        refl,
      )

  SameEpochs-put_meta :
      (key context : Text) (plain : Bytes) (db : Db env)
      → text_eq key (txt "session-epoch") ≡ false
      → SameEpochs db (put_meta key context plain db)
  unfolding put_meta epoch
  SameEpochs-put_meta key context plain db n = record {
    same_epoch =
        ground (
          arith,
          get-put env db.meta key (txt "session-epoch") (encrypt env db.draws plain context),
        );
    same_stamps = refl;
  }

  -- The steps of a pairing before the phone is replaced.
  SameEpochs-recover :
      (db db' : Db env) → recover_after_pairing db ≡ ok (tt, db') → SameEpochs db db'
  unfolding recover_after_pairing update_recovery text_eq
  SameEpochs-recover db db' h = elim (Bool-cases (is_some (bolt.get db.meta recovery_key))) [
    | inl s ↦ elim (Result-cases (pairing_recovery db)) [
      | inl (state, e) ↦ subst (SameEpochs db) (ground arith) (
          SameEpochs-put_meta recovery_key (record_context (txt "meta") recovery_key)
            (env.json.recovery_codec.marshal (reset_recovery state)) db refl)
      | inr (x, e) ↦ absurd (ground arith)
    ]
    | inr n ↦ record { same_epoch = ground arith; same_stamps = ground arith }
  ]

  SameEpochs-stored :
      (session : Bytes) (db : Db env)
      → SameEpochs db (delete_meta attempt_key (save_session session db))
  unfolding save_session delete_meta text_eq
  SameEpochs-stored session db =
      let saved = SameEpochs-put_meta (txt "session") (txt "session") session db refl in
      record {
        same_epoch =
            epoch-delete_ne attempt_key (put_meta (txt "session") (txt "session") session db) refl
            ∙ saved.same_epoch;
        same_stamps = saved.same_stamps;
      }

  adopt_phone-epoch :
      (db db' : Db env)
      → suc (epoch db) < uint64_bound
      → adopt_phone true db ≡ ok (tt, db')
      → (epoch db' ≡ suc (epoch db)) × (db'.entity_epochs ≡ db.entity_epochs)
  unfolding adopt_phone
  adopt_phone-epoch db db' b h =
      let replaced = epoch-replace_phone db b in
      elim (Result-cases (stored_jobs (replace_phone db))) [
        | inl (jobs, e) ↦
            let s = SameEpochs-suspend_jobs jobs (replace_phone db) db' (ground arith) in
            (s.same_epoch ∙ replaced.0, s.same_stamps ∙ replaced.1)
        | inr (x, e) ↦ absurd (ground arith)
      ]

  save_paired_session-epoch :
      (session : Bytes) (db db' : Db env)
      → suc (epoch db) < uint64_bound
      → save_paired_session session true db ≡ ok (tt, db')
      → (epoch db' ≡ suc (epoch db)) × (db'.entity_epochs ≡ db.entity_epochs)
  unfolding save_paired_session
  save_paired_session-epoch session db db' b h = elim (Result-cases (recover_after_pairing db)) [
    | inl ((x, first), e) ↦
        let stored = delete_meta attempt_key (save_session session first) in
        elim (Result-cases (cancel_queued_for_pairing stored)) [
          | inl ((y, second), c) ↦
              let same = SameEpochs-trans (SameEpochs-recover db first (ground arith)) (
                SameEpochs-trans (SameEpochs-stored session first)
                  (SameEpochs-cancel stored second (ground arith))) in
              let last = adopt_phone-epoch second db' (rw (same.same_epoch) b) (ground arith) in
              (last.0 ∙ ap suc same.same_epoch, last.1 ∙ same.same_stamps)
          | inr (y, c) ↦ absurd (ground arith)
        ]
    | inr (x, e) ↦ absurd (ground arith)
  ]

  -- A new phone starts a session of its own. Where no record is stamped with a later session than the
  -- current one, and a session number is left: once `SavePairedSession` stored the session of a new
  -- phone, the session's number is the next one, and no stored record belongs to it.
  pub new_phone-owns_nothing :
      (session : Bytes) (db db' : Db env)
      → suc (epoch db) < uint64_bound
      → ((key : Text) (n : ℕ) → stamp_of key db ≡ some n → n ≤ epoch db)
      → save_paired_session session true db ≡ ok (tt, db')
      → (epoch db' ≡ suc (epoch db)) × ((kind id : Text) → entity_current kind id db' ≡ false)
  unfolding stamp_of counter_is
  new_phone-owns_nothing session db db' b old h =
      let (e, s) = save_paired_session-epoch session db db' b h in
      (
        e,
        λ kind id. elim (Option-cases (stamp_of (record_key kind id) db)) [
          | inl n ↦ rw (entity_current-stamp_of kind id db', e, s) (ground (arith, n))
          | inr (m, n) ↦
              rw (entity_current-stamp_of kind id db', e, s)
                (ground (arith, n, old (record_key kind id) m n))
        ],
      )
