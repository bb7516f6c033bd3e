-- ===== src/Store/Apply/Revisions.antt =====
-- The revisions that `Apply` of internal/store/store.go gives out: one for its event, and at most one
-- more for the conversation of a message.
use google_messages_multidev.Event.{Event}
use google_messages_multidev.Model.{Conversation, Message, Outbox, schema}
use google_messages_multidev.Platform.{LatestMessage, Platform}
use google_messages_multidev.Prelude.Assoc.{Table}
use google_messages_multidev.Prelude.Core.{
  Bool, [], ap, arith, false, inl, inr, none, not, refl, some, subst, sym, true, ◌&&◌, ◌∙◌, ◌∷◌,
  ◌≡◌, ◌⊎◌,
}
use google_messages_multidev.Prelude.Tests.{Bool-cases, Option-cases, ◌==◌}
use google_messages_multidev.Prelude.Text.{Text, text_eq, txt}
use google_messages_multidev.Result.{Result-cases, ok}
use google_messages_multidev.Store.Apply.{
  apply, apply_fresh, confirm_event, is_stale, preview_event, previous_of, put_privates,
  record_event, refresh_message,
}
use google_messages_multidev.Store.Conversations.{
  conversation_event, conversation_key, mutate_stored, preview_source, publish_mutated,
  put_latest_message, refresh_conversation, refresh_known, refresh_source, shown,
  update_conversation,
}
use google_messages_multidev.Store.Db.{Db, counter}
use google_messages_multidev.Store.Epochs.{leave_previous, lower_count, stamp_epoch}
use google_messages_multidev.Store.Events.{append_tx, event_key, next_sequence, observe_tx}
use google_messages_multidev.Store.Events.Frame.{SameRest-append}
use google_messages_multidev.Store.Outbox.{
  confirm_named_send, confirm_send, put_outbox, write_outbox,
}
use google_messages_multidev.Store.Outbox.Reads.{write_outbox-rest}

unfoldable pub touched : (env : Platform) → Text → env.bolt.Bucket → env.bolt.Bucket
touched env key b =
    env.bolt.put (env.bolt.set_sequence b (next_sequence env b)) key
      (counter env (next_sequence env b))

-- The revisions stand, or the conversation was given the next one.
abbrev OneFor : (env : Platform) → Text → env.bolt.Bucket → env.bolt.Bucket → Type 0
OneFor env id b b' = (b' ≡ b) ⊎ (b' ≡ touched env (conversation_key id) b)

-- The same, for the conversation of the message that a payload holds.
abbrev OneOf : (env : Platform) → env.Bytes → env.bolt.Bucket → env.bolt.Bucket → Type 0
OneOf env payload b b' =
    (b' ≡ b)
    ⊎ ((m : Message) × (env.json.message_codec.unmarshal payload ≡ some m)
        × (b' ≡ touched env (conversation_key m.conversation_id) b))

-- The same, for an event, which must be of a message.
abbrev pub OneMore : (env : Platform) → Event env.Bytes → env.bolt.Bucket → env.bolt.Bucket → Type 0
OneMore env event b b' =
    (b' ≡ b)
    ⊎ ((m : Message) × (text_eq event.kind (txt "message") ≡ true)
        × (env.json.message_codec.unmarshal event.payload ≡ some m)
        × (b' ≡ touched env (conversation_key m.conversation_id) b))

preview_source-conversation :
    (m shown_m : Message) (l : LatestMessage)
    → preview_source m ≡ some (shown_m, l)
    → shown_m.conversation_id ≡ m.conversation_id
unfolding preview_source shown
preview_source-conversation m shown_m l h = ground arith

module _ {env : Platform} where
  open env use {Bytes, bolt}

  publish_mutated-versions :
      (id : Text) (r : Conversation × Bool) (db db' : Db env) (changed : Bool)
      → publish_mutated id r db ≡ ok (changed, db')
      → db'.versions ≡ db.versions
  unfolding publish_mutated
  publish_mutated-versions id (c, true) db db' changed h =
      (SameRest-append (conversation_event env id c) db h).versions
  publish_mutated-versions id (c, false) db db' changed h = ground arith

  mutate_stored-OneMore :
      (id : Text) (mutate : Conversation → Conversation × Bool) (c : Conversation) (db db' : Db env)
      (changed : Bool)
      → mutate_stored id mutate c db ≡ ok (changed, db')
      → OneFor env id db.versions db'.versions
  unfolding mutate_stored observe_tx touched
  mutate_stored-OneMore id mutate c db db' changed h = elim (Bool-cases (c.schema == schema)) [
    | inl e ↦ inr (publish_mutated-versions id (mutate c) _ db' changed (rw e at h))
    | inr e ↦ inl (ground arith)
  ]

  update_conversation-OneMore :
      (id : Text) (mutate : Conversation → Conversation × Bool) (db db' : Db env) (changed : Bool)
      → update_conversation id mutate db ≡ ok (changed, db')
      → OneFor env id db.versions db'.versions
  unfolding update_conversation
  update_conversation-OneMore id mutate db db' changed h = grind (arith, mutate_stored-OneMore)

  refresh_known-OneMore :
      (m : Message) (l : LatestMessage) (fresh : Bool) (status : Text) (db db' : Db env)
      (changed : Bool)
      → refresh_known m l fresh status db ≡ ok (changed, db')
      → OneFor env m.conversation_id db.versions db'.versions
  unfolding refresh_known put_latest_message
  refresh_known-OneMore m l fresh status db db' changed h =
      update_conversation-OneMore m.conversation_id _ _ db' changed h

  refresh_source-OneMore :
      (m : Message) (l : LatestMessage) (fresh : Bool) (status : Text) (db db' : Db env)
      (changed : Bool)
      → refresh_source (some (m, l)) fresh status db ≡ ok (changed, db')
      → OneFor env m.conversation_id db.versions db'.versions
  unfolding refresh_source
  refresh_source-OneMore m l fresh status db db' changed h = grind (arith, refresh_known-OneMore)

  stamp_epoch-versions :
      (kind id : Text) (db : Db env) → (stamp_epoch kind id db).versions ≡ db.versions
  unfolding stamp_epoch leave_previous lower_count
  stamp_epoch-versions kind id db = ground arith

  put_privates-versions :
      (private : Table Bytes) (db : Db env) → (put_privates private db).versions ≡ db.versions
  unfolding put_privates
  put_privates-versions [] db = refl
  put_privates-versions ((id, plain) ∷ rest) db = put_privates-versions rest _

  write_outbox-versions :
      (o : Outbox) (db db' : Db env) → write_outbox o db ≡ ok (tt, db') → db'.versions ≡ db.versions
  unfolding put_outbox
  write_outbox-versions o db db' h = (write_outbox-rest o db h).versions

  confirm_named_send-versions :
      (id : Text) (m : Message) (db db' : Db env) (changed : Bool)
      → confirm_named_send id m db ≡ ok (changed, db')
      → db'.versions ≡ db.versions
  unfolding confirm_named_send
  confirm_named_send-versions id m db db' changed h = grind (arith, write_outbox-versions)

  confirm_send-versions :
      (m : Message) (db db' : Db env) (changed : Bool)
      → confirm_send m db ≡ ok (changed, db')
      → db'.versions ≡ db.versions
  unfolding confirm_send
  confirm_send-versions m db db' changed h = grind (arith, confirm_named_send-versions)

  refresh_conversation-OneMore :
      (payload : Bytes) (fresh : Bool) (status : Text) (db db' : Db env) (changed : Bool)
      → refresh_conversation payload fresh status db ≡ ok (changed, db')
      → OneOf env payload db.versions db'.versions
  unfolding refresh_conversation refresh_source
  refresh_conversation-OneMore payload fresh status db db' changed h =
      elim (Option-cases (env.json.message_codec.unmarshal payload)) [
        | inl e ↦ inl (ground arith)
        | inr (m, e) ↦ elim (Option-cases (preview_source m)) [
          | inl n ↦ inl (ground arith)
          | inr ((shown_m, l), n) ↦
              let same = preview_source-conversation m shown_m l n in
              elim (refresh_source-OneMore shown_m l fresh status db db' changed (ground arith)) [
                | inl kept ↦ inl kept
                | inr given ↦ inr (m, e, rw (sym same) given)
              ]
        ]
      ]

  refresh_message-OneMore :
      (event : Event Bytes) (historical : Bool) (previous : Bool × Text) (before : Bool)
      (db db' : Db env) (changed : Bool)
      → refresh_message event historical previous before db ≡ ok (changed, db')
      → OneMore env event db.versions db'.versions
  unfolding refresh_message
  refresh_message-OneMore event historical (fresh, status) before db db' changed h =
      let again = refresh_conversation event.payload (fresh && not historical) status db in
      elim (Bool-cases (text_eq event.kind (txt "message"))) [
        | inr k ↦ inl (ground arith)
        | inl k ↦ elim (Result-cases again) [
          | inr (x, e) ↦ absurd (ground arith)
          | inl ((refreshed, later), e) ↦
              let same : later ≡ db' = ground arith in
              elim (refresh_conversation-OneMore event.payload (fresh && not historical) status db
                later refreshed e) [
                  | inl kept ↦ inl (ap (λ (d : Db env). d.versions) (sym same) ∙ kept)
                  | inr (m, read, given) ↦
                      inr (m, k, read, ap (λ (d : Db env). d.versions) (sym same) ∙ given)
                ]
        ]
      ]

  record_event-OneMore :
      (event applied : Event Bytes) (historical : Bool) (private : Table Bytes)
      (previous : Bool × Text) (db db' : Db env) (changed : Bool)
      → record_event event applied historical private previous db ≡ ok (changed, db')
      → OneMore env event (touched env (event_key event) db.versions) db'.versions
  unfolding record_event observe_tx touched
  record_event-OneMore event applied historical private previous db db' changed h =
      elim (Result-cases (append_tx applied db)) [
        | inl ((before, later), e) ↦
            let seen = record later { versions = touched env (event_key event) later.versions } in
            subst (λ (b : bolt.Bucket). OneMore env event b db'.versions)
              (put_privates-versions private seen
                ∙ ap (touched env (event_key event)) (SameRest-append applied db e).versions)
              (refresh_message-OneMore event historical previous before (put_privates private seen)
                db' changed (ground arith))
        | inr (x, e) ↦ absurd (ground arith)
      ]

  apply_fresh-OneMore :
      (event : Event Bytes) (historical : Bool) (private : Table Bytes) (db db' : Db env)
      (changed : Bool)
      → apply_fresh event historical private db ≡ ok (changed, db')
      → OneMore env event (touched env (event_key event) db.versions) db'.versions
  unfolding apply_fresh
  apply_fresh-OneMore event historical private db db' changed h =
      let stamped_db = stamp_epoch event.kind event.entity_id db in
      elim (Result-cases (preview_event event db)) [
        | inl (applied, e) ↦ elim (Result-cases (previous_of event stamped_db)) [
          | inl (previous, p) ↦
              subst
                (λ (b : bolt.Bucket).
                  OneMore env event (touched env (event_key event) b) db'.versions)
                (stamp_epoch-versions event.kind event.entity_id db)
                (record_event-OneMore event applied historical private previous stamped_db db'
                  changed (ground arith))
          | inr (x, p) ↦ absurd (ground arith)
        ]
        | inr (x, e) ↦ absurd (ground arith)
      ]

  confirm_event-versions :
      (event : Event Bytes) (before : Bool) (db db' : Db env) (changed : Bool)
      → confirm_event event before db ≡ ok (changed, db')
      → db'.versions ≡ db.versions
  unfolding confirm_event
  confirm_event-versions event before db db' changed h =
      elim (Bool-cases (text_eq event.kind (txt "message"))) [
        | inl k ↦ elim (Option-cases (env.json.message_codec.unmarshal event.payload)) [
          | inl e ↦ absurd (ground arith)
          | inr (m, e) ↦ elim (Result-cases (confirm_send m db)) [
            | inl ((seen, later), c) ↦ ground (arith, confirm_send-versions m db later seen c)
            | inr (x, c) ↦ absurd (ground arith)
          ]
        ]
        | inr k ↦ ground arith
      ]

  -- An event that `Apply` takes without a fence gives its entity the next revision. Then the revisions
  -- are left as they are, or the event is a message that unmarshals and its conversation, and nothing
  -- else, is given the one after.
  pub apply-OneMore :
      (event : Event Bytes) (historical : Bool) (private : Table Bytes) (db db' : Db env)
      (changed : Bool)
      → apply event historical private none db ≡ ok (changed, db')
      → OneMore env event (touched env (event_key event) db.versions) db'.versions
  unfolding apply is_stale
  apply-OneMore event historical private db db' changed h =
      elim (Result-cases (apply_fresh event historical private db)) [
        | inl ((before, later), e) ↦
            subst
              (λ (b : bolt.Bucket). OneMore env event (touched env (event_key event) db.versions) b)
              (sym (confirm_event-versions event before later db' changed (ground arith)))
              (apply_fresh-OneMore event historical private db later before e)
        | inr (x, e) ↦ absurd (ground arith)
      ]
