-- ===== src/Bridge/Sender/Steps.antt =====
-- What the steps of the send worker (internal/bridge/service.go) do to the outbox, other than
-- handing a request to the provider.
use google_messages_multidev.Bridge.Provider.{Around, Provider, SendTarget, Snapshot}
use google_messages_multidev.Bridge.Sender.{
  answer, attempt, create, deliver, is_kind, keep_token, media_of, no_target, outcome_detail,
  outcome_state, prepare_media, prepare_send, read_only_detail, refuse, settle, settle_conversation,
  stored_upload, upload_key, upload_media,
}
use google_messages_multidev.Bridge.Worker.{
  Worker, call_provider, commit, hand_over, notify_hub, request_sync,
}
use google_messages_multidev.Model.{Outbox, SendRequest}
use google_messages_multidev.Platform.{Platform}
use google_messages_multidev.Prelude.Core.{
  List, [], arith, inl, inr, refl, subst, ℕ, ◌++◌, ◌∙◌, ◌∷◌, ◌≡◌,
}
use google_messages_multidev.Prelude.Tests.{Bool-cases}
use google_messages_multidev.Prelude.Text.{Text, txt}
use google_messages_multidev.Result.{Result, Result-cases, err, is_not_found, ok}
use google_messages_multidev.Store.Db.{Db, Tx}
use google_messages_multidev.Store.History.{finish_conversation}
use google_messages_multidev.Store.History.Created.{Lawful-finish_conversation}
use google_messages_multidev.Store.Outbox.{finish, reject_queued}
use google_messages_multidev.Store.Outbox.Calls.{Lawful-finish, Lawful-reject_queued}
use google_messages_multidev.Store.Outbox.Lifecycle.{
  IsKeyed, Lawful, Lawful-refl, Lawful-same, Lawful-trans,
}
use google_messages_multidev.Store.Outbox.Once.{Lawful-update}
use google_messages_multidev.Store.Records.{get_value, on_media, on_private, put_value, set_shelf}

module _ {env : Platform} where
  -- Other goroutines use the outbox by its own calls.
  pub record IsMindful (around : Around env) : Type 0 where
    pub mindful : (n : ℕ) (db : Db env) → IsKeyed db → Lawful db (around.meanwhile n db)

  -- Nothing was handed to the provider, and no record was lost or put back.
  pub record Steady (w w' : Worker env) : Type 0 where
    pub lawful : Lawful w.db w'.db
    pub idle : w'.dispatched ≡ w.dispatched

  pub Steady-refl : (w : Worker env) → IsKeyed w.db → Steady w w
  Steady-refl w k = record { lawful = Lawful-refl w.db k; idle = refl }

  pub Steady-trans : {a b c : Worker env} → Steady a b → Steady b c → Steady a c
  Steady-trans p q = record { lawful = Lawful-trans p.lawful q.lawful; idle = q.idle ∙ p.idle }

  pub Steady-commit :
      {A : Type 0} (tx : Tx env A) (w : Worker env)
      → IsKeyed w.db
      → ((a : A) (db' : Db env) → tx w.db ≡ ok (a, db') → Lawful w.db db')
      → Steady w (commit tx w).1
  unfolding commit
  Steady-commit tx w k law = record { lawful = Lawful-update tx w.db k law; idle = refl }

  pub Steady-notify_hub : (w : Worker env) → IsKeyed w.db → Steady w (notify_hub w)
  unfolding notify_hub
  Steady-notify_hub w k = record { lawful = Lawful-refl w.db k; idle = refl }

  pub Steady-request_sync : (w : Worker env) → IsKeyed w.db → Steady w (request_sync w)
  unfolding request_sync
  Steady-request_sync w k = record { lawful = Lawful-refl w.db k; idle = refl }

  Steady-told : (w : Worker env) → IsKeyed w.db → Steady w (request_sync (notify_hub w))
  Steady-told w k =
      let s = Steady-notify_hub w k in
      Steady-trans s (Steady-request_sync (notify_hub w) s.lawful.keyed)

  pub Steady-call_provider :
      {A : Type 0} (around : Around env) (f : ℕ → Result A) (w : Worker env)
      → IsMindful around
      → IsKeyed w.db
      → Steady w (call_provider around f w).1
  unfolding call_provider
  Steady-call_provider around f w m k = record { lawful = m.mindful w.calls w.db k; idle = refl }

  pub Steady-refuse : (id : Text) (w : Worker env) → IsKeyed w.db → Steady w (refuse id w).1
  unfolding refuse
  Steady-refuse id w k =
      let tx = reject_queued {env = env} id read_only_detail in
      let s = Steady-commit tx w k (λ u db' h. Lawful-reject_queued id read_only_detail w.db k h) in
      elim (Result-cases (commit tx w).0) [
        | inr (x, e) ↦ subst (Steady w) (ground arith) s
        | inl (u, e) ↦
            subst (Steady w) (ground arith)
              (Steady-trans s (Steady-notify_hub (commit tx w).1 s.lawful.keyed))
      ]

  pub Steady-settle :
      (o : Outbox) (r : Result (Unit {0})) (w : Worker env)
      → IsKeyed w.db
      → Steady w (settle o r w).1
  unfolding settle
  Steady-settle o r w k =
      let tx = finish {env = env} o.id (outcome_state r) (outcome_detail o.request r) in
      let s = Steady-commit tx w k (λ u db' h. Lawful-finish o.id _ _ w.db k h) in
      elim (Result-cases (commit tx w).0) [
        | inr (x, e) ↦ subst (Steady w) (ground arith) s
        | inl (u, e) ↦
            subst (Steady w) (ground arith)
              (Steady-trans s (Steady-told (commit tx w).1 s.lawful.keyed))
      ]

  pub Steady-settle_conversation :
      (o : Outbox) (mark : ℕ) (r : Result (Snapshot env)) (w : Worker env)
      → IsKeyed w.db
      → Steady w (settle_conversation o mark r w).1
  unfolding settle_conversation
  Steady-settle_conversation o mark (err e) w k = Steady-settle o (err e) w k
  Steady-settle_conversation o mark (ok snap) w k =
      let tx = finish_conversation o.id snap.event snap.private mark in
      let s =
        Steady-commit tx w k
          (λ u db' h. Lawful-finish_conversation o.id snap.event snap.private mark w.db k h) in
      elim (Result-cases (commit tx w).0) [
        | inr (x, e) ↦ subst (Steady w) (ground arith) s
        | inl (u, e) ↦
            subst (Steady w) (ground arith)
              (Steady-trans s (Steady-told (commit tx w).1 s.lawful.keyed))
      ]

module _ {env : Platform} (p : Provider env) (around : Around env) (m : IsMindful around) where
  open env use {Bytes}

  Steady-keep_token :
      (id : Text) (r : Result Bytes) (w : Worker env)
      → IsKeyed w.db
      → Steady w (keep_token id (r, w)).1
  unfolding keep_token put_value set_shelf
  Steady-keep_token id (err e) w k = Steady-refl w k
  Steady-keep_token id (ok token) w k = record { lawful = Lawful-same w.db _ refl k; idle = refl }

  Steady-upload_media :
      (id : Text) (w : Worker env) → IsKeyed w.db → Steady w (upload_media p around id w).1
  unfolding upload_media put_value
  Steady-upload_media id w k = elim (Result-cases (stored_upload id w.db)) [
    | inr (x, e) ↦ subst (Steady w) (ground arith) (Steady-refl w k)
    | inl (u, e) ↦ elim (Result-cases (get_value on_media (upload_key id) w.db)) [
      | inr (x, r) ↦ subst (Steady w) (ground arith) (Steady-refl w k)
      | inl (content, r) ↦
          let f : ℕ → Result Bytes = λ n. p.upload n content u.name u.mime in
          let called = call_provider around f w in
          let s = Steady-call_provider around f w m k in
          subst (Steady w) (ground arith)
            (Steady-trans s (Steady-keep_token id called.0 called.1 s.lawful.keyed))
    ]
  ]

  Steady-media_of :
      (id : Text) (w : Worker env) → IsKeyed w.db → Steady w (media_of p around id w).1
  unfolding media_of
  Steady-media_of id w k = elim (Result-cases (get_value on_private (upload_key id) w.db)) [
    | inl (token, e) ↦ subst (Steady w) (ground arith) (Steady-refl w k)
    | inr (x, e) ↦ elim (Bool-cases (is_not_found x)) [
      | inl n ↦ subst (Steady w) (ground arith) (Steady-upload_media id w k)
      | inr n ↦ subst (Steady w) (ground arith) (Steady-refl w k)
    ]
  ]

  Steady-prepare_media :
      (ids : List Text) (target : SendTarget env) (w : Worker env)
      → IsKeyed w.db
      → Steady w (prepare_media p around ids target w).1
  unfolding prepare_media
  Steady-prepare_media [] target w k = Steady-refl w k
  Steady-prepare_media (id ∷ ids) target w k =
      let s = Steady-media_of id w k in
      elim (Result-cases (media_of p around id w).0) [
        | inr (x, e) ↦ subst (Steady w) (ground arith) s
        | inl (token, e) ↦
            let more = record target { media = target.media ++ token ∷ [] } in
            subst (Steady w) (ground arith) (
              Steady-trans s
                (Steady-prepare_media ids more (media_of p around id w).1 s.lawful.keyed))
      ]

  pub Steady-prepare_send :
      (req : SendRequest) (w : Worker env) → IsKeyed w.db → Steady w (prepare_send p around req w).1
  unfolding prepare_send
  Steady-prepare_send req w k = elim (Bool-cases (is_kind (txt "conversation") req)) [
    | inl c ↦
        subst (Steady w) (ground arith) (Steady-prepare_media req.attachment_ids no_target w k)
    | inr c ↦
        let f : ℕ → Result (SendTarget env) = λ n. p.prepare n req.conversation_id in
        let called = call_provider around f w in
        let s = Steady-call_provider around f w m k in
        elim (Result-cases called.0) [
          | inr (x, e) ↦ subst (Steady w) (ground arith) s
          | inl (target, e) ↦ subst (Steady w) (ground arith) (
              Steady-trans s
                (Steady-prepare_media req.attachment_ids target called.1 s.lawful.keyed))
        ]
  ]

  -- A send is logged, and nothing else is done to the outbox but what its calls do.
  pub Steady-deliver :
      (o : Outbox) (target : SendTarget env) (w : Worker env)
      → IsKeyed w.db
      → Steady (record w { dispatched = o.id ∷ w.dispatched }) (deliver p around o target w).1
  unfolding deliver hand_over
  Steady-deliver o target w k =
      Steady-call_provider around (answer p around o target)
        (record w { dispatched = o.id ∷ w.dispatched }) m k

  pub Steady-create :
      (o : Outbox) (w : Worker env)
      → IsKeyed w.db
      → Steady (record w { dispatched = o.id ∷ w.dispatched }) (create p around o w).1
  unfolding create hand_over
  Steady-create o w k =
      let f : ℕ → Result (Snapshot env) =
        λ n. p.create_conversation n o.request.recipients o.request.group_name in
      Steady-call_provider around f (record w { dispatched = o.id ∷ w.dispatched }) m k

  pub Steady-attempt :
      (o : Outbox) (target : SendTarget env) (mark : ℕ) (w : Worker env)
      → IsKeyed w.db
      → Steady (record w { dispatched = o.id ∷ w.dispatched }) (attempt p around o target mark w).1
  unfolding attempt
  Steady-attempt o target mark w k =
      let logged = record w { dispatched = o.id ∷ w.dispatched } in
      elim (Bool-cases (is_kind (txt "conversation") o.request)) [
        | inl c ↦
            let called = create p around o w in
            let s = Steady-create o w k in
            subst (Steady logged) (ground arith)
              (Steady-trans s (Steady-settle_conversation o mark called.0 called.1 s.lawful.keyed))
        | inr c ↦
            let called = deliver p around o target w in
            let s = Steady-deliver o target w k in
            subst (Steady logged) (ground arith)
              (Steady-trans s (Steady-settle o called.0 called.1 s.lawful.keyed))
      ]
