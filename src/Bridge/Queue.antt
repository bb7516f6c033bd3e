-- ===== src/Bridge/Queue.antt =====
-- `Queue` of internal/bridge/service.go: a client's request becomes a record of the outbox.
pub mod Again
use google_messages_multidev.Bridge.Requests.{validate_request}
use google_messages_multidev.Bridge.Sender.{stored_upload}
use google_messages_multidev.Bridge.Worker.{Act, commit, notify_hub}
use google_messages_multidev.Model.{Conversation, Message, Outbox, SendRequest}
use google_messages_multidev.Model.Request.{request_equal}
use google_messages_multidev.Platform.{Platform}
use google_messages_multidev.Prelude.Core.{
  Bool, List, [], false, none, not, some, true, ℕ, ◌&&◌, ◌+◌, ◌||◌, ◌∷◌,
}
use google_messages_multidev.Prelude.Lists.{length}
use google_messages_multidev.Prelude.Tests.{if◌then◌else◌, leb, ltb, ◌==◌}
use google_messages_multidev.Prelude.Text.{Text, text_eq, txt}
use google_messages_multidev.Result.{
  Result, conflict, corrupt, err, in_pairing, invalid, is_not_found, ok, too_large,
}
use google_messages_multidev.Store.Db.{Db, record_key}
use google_messages_multidev.Store.Epochs.{entity_current}
use google_messages_multidev.Store.Outbox.{enqueue, read_outbox}
use google_messages_multidev.Store.Records.{get_value, on_latest}

-- What the call is told by the rest of the bridge: whether a pairing is active, the network, and the
-- connector's new transaction id.
pub record Setting : Type 0 where
  pub pairs : Bool
  pub whatsapp : Bool
  pub transaction : Text

-- Twenty mebibytes.
abbrev pub max_attachment_bytes : ℕ
max_attachment_bytes = 20971520

-- `validKey`: 16 to 128 letters, digits, underscores and dashes.
unfoldable pub is_key_byte : ℕ → Bool
is_key_byte c =
    (leb 65 c && leb c 90)
    || ((leb 97 c && leb c 122) || ((leb 48 c && leb c 57) || ((c == 95) || (c == 45))))

unfoldable pub all_key_bytes : Text → Bool
unfolding is_key_byte
all_key_bytes [] = true
all_key_bytes (c ∷ cs) = is_key_byte c && all_key_bytes cs

unfoldable pub is_valid_key : Text → Bool
unfolding all_key_bytes
is_valid_key id = all_key_bytes id && (leb 16 (length id) && leb (length id) 128)

unfoldable pub closed_conversation : Conversation → Bool
closed_conversation conv = conv.read_only || text_eq conv.state (txt "deleted")

unfoldable pub wrong_message : SendRequest → Message → Bool
wrong_message req m = not (text_eq m.conversation_id req.conversation_id) || m.deleted

module _ {env : Platform} where
  open env use {json}

  unfoldable pub check_message : SendRequest → Db env → Result (Unit {0})
  unfolding wrong_message
  check_message req db =
      if not (entity_current (txt "message") req.message_id db)
      then err invalid
      else elim (get_value on_latest (record_key (txt "message") req.message_id) db) [
        | err e ↦ err e
        | ok plain ↦ elim (json.message_codec.unmarshal plain) [
          | none ↦ err invalid
          | some m ↦ if wrong_message req m then err invalid else ok tt
        ]
      ]

  unfoldable pub check_conversation : SendRequest → Db env → Result (Unit {0})
  unfolding closed_conversation
  check_conversation req db =
      if not (entity_current (txt "conversation") req.conversation_id db)
      then err invalid
      else elim (get_value on_latest (record_key (txt "conversation") req.conversation_id) db) [
        | err e ↦ err e
        | ok plain ↦ elim (json.conversation_codec.unmarshal plain) [
          | none ↦ err corrupt
          | some conv ↦ if closed_conversation conv then err invalid else ok tt
        ]
      ]

  unfoldable pub total_size : List Text → Db env → Result ℕ
  unfolding stored_upload
  total_size [] db = ok 0
  total_size (id ∷ ids) db = elim (stored_upload id db) [
    | err e ↦ err e
    | ok u ↦ elim (total_size ids db) [ err e ↦ err e | ok size ↦ ok (u.size + size) ]
  ]

  unfoldable pub check_size : List Text → Db env → Result (Unit {0})
  unfolding total_size
  check_size ids db = elim (total_size ids db) [
    | err e ↦ err e
    | ok size ↦ if ltb max_attachment_bytes size then err too_large else ok tt
  ]

  -- The checks against the store of a request that is not for a new conversation.
  unfoldable pub check_stored : SendRequest → Db env → Result (Unit {0})
  unfolding check_conversation check_message check_size
  check_stored req db =
      if text_eq req.kind (txt "conversation") then ok tt else elim (check_conversation req db) [
        | err e ↦ err e
        | ok u ↦ elim (if text_eq req.kind (txt "reaction") then check_message req db else ok tt) [
          | err e ↦ err e
          | ok v ↦ check_size req.attachment_ids db
        ]
      ]

  -- `Enqueue`, and the wake-ups.
  unfoldable pub queue_new : Setting → Text → SendRequest → Act env (Outbox × Bool)
  unfolding check_stored
  queue_new setting id req w = elim (check_stored req w.db) [
    | err e ↦ (err e, w)
    | ok u ↦
        if setting.whatsapp && ltb 1 (length req.attachment_ids)
        then (err invalid, w)
        else let done_tx = commit (enqueue id setting.transaction req) w in
          elim done_tx.0 [
            | err e ↦ (err e, done_tx.1)
            | ok o ↦ (ok o, record (notify_hub done_tx.1) { send_wake = true })
          ]
  ]

  unfoldable pub queue_valid : Setting → Text → SendRequest → Act env (Outbox × Bool)
  unfolding queue_new
  queue_valid setting id req w = elim (read_outbox id w.db) [
    | ok existing ↦
        if request_equal existing.request req then (ok (existing, false), w) else (err conflict, w)
    | err e ↦ if is_not_found e then queue_new setting id req w else (err e, w)
  ]

  -- `Queue`: the record, and whether it is new.
  unfoldable pub queue : Setting → Text → SendRequest → Act env (Outbox × Bool)
  unfolding queue_valid is_valid_key
  queue setting id given w =
      if setting.pairs then (err in_pairing, w) else elim (validate_request given) [
        | err e ↦ (err invalid, w)
        | ok req ↦ if is_valid_key id then queue_valid setting id req w else (err invalid, w)
      ]
