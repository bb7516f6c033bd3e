-- ===== src/Store/Conversations.antt =====
-- internal/store/conversation.go: the newest message of each conversation, and the preview and
-- unread badge that it gives the stored conversation.
pub mod Merge
use google_messages_multidev.Event.{Event}
use google_messages_multidev.Model.{Conversation, Message, schema}
use google_messages_multidev.Model.Preview.{preview_text}
use google_messages_multidev.Model.Request.{bool_eq}
use google_messages_multidev.Platform.{LatestMessage, Platform}
use google_messages_multidev.Prelude.Core.{
  Bool, Option, [], false, none, not, some, suc, true, ℕ, ◌%◌, ◌&&◌, ◌+◌, ◌^◌, ◌||◌, ◌∷◌,
}
use google_messages_multidev.Prelude.Tests.{if◌then◌else◌, leb, ltb, ◌==◌}
use google_messages_multidev.Prelude.Text.{Text, has_prefix, is_empty, text_eq, text_lt, txt}
use google_messages_multidev.Result.{Result, corrupt, err, ok}
use google_messages_multidev.Store.Db.{Db, Tx, encrypt, record_key, ◌>>◌}
use google_messages_multidev.Store.Epochs.{entity_current}
use google_messages_multidev.Store.Events.{append_tx, observe_tx, plain_at}

-- Five minutes, in nanoseconds.
abbrev pub unread_window : ℕ
unread_window = 300000000000

-- `strings.Contains(s, t)`.
unfoldable pub contains : Text → Text → Bool
contains [] t = has_prefix t []
contains (c ∷ s) t = has_prefix t (c ∷ s) || contains s t

abbrev pub displayed : Text
displayed = txt "displayed"

unfoldable pub latest_of : Message → LatestMessage
latest_of m = record {
  message_id = m.id;
  time = m.time;
  preview = preview_text m;
  sender_id = m.sender_id;
  direction = m.direction;
}

-- A deleted message shows its notice only.
unfoldable pub shown : Message → Message
shown m = if m.deleted then record m { text = txt "Message deleted"; attachments = [] } else m

-- `previewSource`, of a message snapshot that unmarshals: none where the source returns false.
unfoldable pub preview_source : Message → Option (Message × LatestMessage)
unfolding latest_of shown
preview_source m =
    if not (m.schema == schema) || (is_empty m.id || (is_empty m.conversation_id || m.time == 0))
    then none
    else if is_empty (preview_text (shown m))
    then none
    else some (shown m, latest_of (shown m))

-- `unreadAfter`: what becomes of the badge, if anything.
unfoldable pub unread_after : Message → Bool → Text → ℕ → Option Bool
unread_after m fresh previous_status now =
    let incoming = text_eq m.direction (txt "incoming") in
    let seen = contains m.status displayed in
    if incoming && (seen && not (contains previous_status displayed))
    then some false
    else if not fresh
    then none
    else if text_eq m.direction (txt "outgoing")
    then some false
    else if incoming && (not seen && leb now (m.time + unread_window))
    then some true
    else none

-- The badge part of `mergeLatestMessage`: the conversation, and whether it changed.
unfoldable pub merge_badge : Option Bool → Conversation × Bool → Conversation × Bool
merge_badge none (c, changed) = (c, changed)
merge_badge (some unread) (c, changed) =
    let counted =
      if text_eq c.protocol (txt "whatsapp")
      then if unread
        then (record c { unread_count = (c.unread_count + 1) % 2 ^ 32 }, true)
        else if not (c.unread_count == 0)
        then (record c { unread_count = 0 }, true)
        else (c, changed)
      else (c, changed) in
    if not (bool_eq (counted.0).unread unread)
    then (record (counted.0) { unread = unread }, true)
    else counted

unfoldable pub differs : Conversation → LatestMessage → Bool
differs c l =
    not (text_eq c.preview l.preview)
    || (not (text_eq c.preview_sender_id l.sender_id)
        || (not (text_eq c.preview_direction l.direction) || ltb c.updated l.time))

unfoldable pub described : Conversation → LatestMessage → Conversation
described c l = record c {
  preview = l.preview;
  preview_sender_id = l.sender_id;
  preview_direction = l.direction;
  updated = if ltb c.updated l.time then l.time else c.updated;
}

-- `mergeLatestMessage`.
unfoldable pub merge_latest : Conversation → LatestMessage → Option Bool → Conversation × Bool
merge_latest c l unread =
    if ltb l.time c.updated then (c, false) else merge_badge unread (described c l, differs c l)

-- The fields that a stored snapshot keeps against an older incoming one.
unfoldable pub keep_newer : Conversation → Conversation → Conversation
keep_newer c stored = record c {
  updated = stored.updated;
  preview = stored.preview;
  preview_sender_id = stored.preview_sender_id;
  preview_direction = stored.preview_direction;
  unread = stored.unread;
  unread_count = stored.unread_count;
}

-- The mutation of `ReadConversation`.
unfoldable pub read_through : ℕ → Conversation → Conversation × Bool
read_through through c =
    if ltb through c.updated || (not c.unread && c.unread_count == 0)
    then (c, false)
    else (record c { unread = false; unread_count = 0 }, true)

unfoldable pub latest_context : Text → Text
unfolding record_key
latest_context id = record_key (txt "conversation-latest") id

abbrev pub conversation_key : Text → Text
conversation_key id = record_key (txt "conversation") id

unfoldable pub conversation_event : (env : Platform) → Text → Conversation → Event env.Bytes
conversation_event env id c = record {
  id = 0;
  kind = txt "conversation";
  entity_id = id;
  time = 0;
  payload = env.json.conversation_codec.marshal c;
}

-- The newest message wins; of two at one time, the one with the greater id.
unfoldable pub is_later : LatestMessage → LatestMessage → Bool
is_later previous l =
    ltb l.time previous.time
    || (previous.time == l.time && text_lt l.message_id previous.message_id)

unfoldable pub keep_stored : Option Conversation → Conversation × Bool → Conversation × Bool
keep_stored none (c, changed) = (c, changed)
keep_stored (some stored) (c, changed) =
    if ltb c.updated stored.updated then (keep_newer c stored, true) else (c, changed)

unfoldable pub merge_stored : Option LatestMessage → Conversation × Bool → Conversation × Bool
unfolding merge_latest
merge_stored none (c, changed) = (c, changed)
merge_stored (some l) (c, changed) =
    let merged = merge_latest c l none in (merged.0, merged.1 || changed)

module _ {env : Platform} where
  open env use {Bytes, bolt, json}

  -- `latestMessageTx`.
  unfoldable pub latest_message : Text → Db env → Result (Option LatestMessage)
  unfolding latest_context
  latest_message id db = elim (plain_at env db.latest_messages id (latest_context id)) [
    | err e ↦ err e
    | ok none ↦ ok none
    | ok (some plain) ↦ elim (json.latest_codec.unmarshal plain) [
      | none ↦ err corrupt
      | some l ↦ ok (some l)
    ]
  ]

  -- `putLatestMessageTx`.
  unfoldable pub put_latest_message : Text → LatestMessage → Db env → Db env
  unfolding latest_context
  put_latest_message id l db = record db {
    latest_messages =
        bolt.put db.latest_messages id
          (encrypt env db.draws (json.latest_codec.marshal l) (latest_context id));
    draws = suc db.draws;
  }

  -- The stored snapshot of a conversation that belongs to the current pairing.
  unfoldable pub stored_conversation : Text → Db env → Result (Option Conversation)
  stored_conversation id db =
      if entity_current (txt "conversation") id db
      then elim (plain_at env db.latest (conversation_key id) (conversation_key id)) [
        | err e ↦ err e
        | ok none ↦ ok none
        | ok (some plain) ↦ elim (json.conversation_codec.unmarshal plain) [
          | none ↦ err corrupt
          | some c ↦ ok (some c)
        ]
      ]
      else ok none

  unfoldable pub preview_known : Conversation → Bytes → Db env → Result Bytes
  unfolding keep_stored merge_stored
  preview_known c payload db = elim (stored_conversation c.id db) [
    | err e ↦ err e
    | ok stored ↦ elim (latest_message c.id db) [
      | err e ↦ err e
      | ok l ↦
          let merged = merge_stored l (keep_stored stored (c, false)) in
          ok (if merged.1 then json.conversation_codec.marshal (merged.0) else payload)
    ]
  ]

  -- `previewConversation`.
  unfoldable pub preview_conversation : Bytes → Db env → Result Bytes
  preview_conversation payload db = elim (json.conversation_codec.unmarshal payload) [
    | none ↦ ok payload
    | some c ↦
        if not (c.schema == schema) || is_empty c.id then ok payload else preview_known c payload db
  ]

  unfoldable pub publish_mutated : Text → Conversation × Bool → Tx env Bool
  publish_mutated id (c, changed) db =
      if changed then append_tx (conversation_event env id c) db else ok (false, db)

  unfoldable pub mutate_stored :
      Text → (Conversation → Conversation × Bool) → Conversation → Tx env Bool
  unfolding publish_mutated
  mutate_stored id mutate c db =
      if c.schema == schema
      then (do observe_tx (conversation_key id); publish_mutated id (mutate c)) db
      else ok (false, db)

  -- `updateConversationTx`.
  unfoldable pub update_conversation : Text → (Conversation → Conversation × Bool) → Tx env Bool
  unfolding mutate_stored
  update_conversation id mutate db =
      elim (plain_at env db.latest (conversation_key id) (conversation_key id)) [
        | err e ↦ err e
        | ok none ↦ ok (false, db)
        | ok (some plain) ↦ elim (json.conversation_codec.unmarshal plain) [
          | none ↦ ok (false, db)
          | some c ↦ mutate_stored id mutate c db
        ]
      ]

  -- `ReadConversation`.
  unfoldable pub read_conversation : Text → ℕ → Tx env Bool
  unfolding read_through
  read_conversation id through = update_conversation id (read_through through)

  unfoldable pub refresh_known : Message → LatestMessage → Bool → Text → Tx env Bool
  refresh_known m l fresh previous_status db =
      update_conversation m.conversation_id
        (λ c. merge_latest c l (unread_after m fresh previous_status db.now))
        (put_latest_message m.conversation_id l db)

  unfoldable pub refresh_source : Option (Message × LatestMessage) → Bool → Text → Tx env Bool
  unfolding is_later
  refresh_source none fresh previous_status db = ok (false, db)
  refresh_source (some (m, l)) fresh previous_status db =
      elim (latest_message m.conversation_id db) [
        | err e ↦ err e
        | ok none ↦ refresh_known m l fresh previous_status db
        | ok (some previous) ↦
            if is_later previous l
            then ok (false, db)
            else refresh_known m l fresh previous_status db
      ]

  -- `refreshConversationTx`.
  unfoldable pub refresh_conversation : Bytes → Bool → Text → Tx env Bool
  refresh_conversation payload fresh previous_status db =
      elim (json.message_codec.unmarshal payload) [
        | none ↦ ok (false, db)
        | some m ↦ refresh_source (preview_source m) fresh previous_status db
      ]
