-- ===== src/Bridge/Push.antt =====
-- Notifications of browsers: `WatchForPush`, `shouldPush`, `describe` and `pairingPush` of
-- internal/bridge/push.go. What the notifier answers about a message is not read, so that what is sent
-- is kept as a list.
pub mod Drain
pub mod Spaced
pub mod Memory
use google_messages_multidev.Bridge.Sender.{mentions}
use google_messages_multidev.Event.{Event}
use google_messages_multidev.Model.{Conversation, Message, Participant}
use google_messages_multidev.Platform.{Platform}
use google_messages_multidev.Prelude.Core.{
  Bool, List, Option, [], none, not, some, suc, zero, ℕ, ◌&&◌, ◌++◌, ◌+◌, ◌||◌, ◌∷◌,
}
use google_messages_multidev.Prelude.Lists.{length}
use google_messages_multidev.Prelude.Tests.{if◌then◌else◌, leb, ltb}
use google_messages_multidev.Prelude.Text.{Text, is_empty, text_eq, txt}
use google_messages_multidev.Result.{err, ok}
use google_messages_multidev.Store.Db.{Db, record_key}
use google_messages_multidev.Store.Events.{list_events}
use google_messages_multidev.Store.Records.{get_value, on_latest}

-- Five minutes, in nanoseconds.
abbrev pub push_window : ℕ
push_window = 300000000000

abbrev pub push_memory : ℕ
push_memory = 512

abbrev pub push_page : ℕ
push_page = 100

pub record Notice : Type 0 where
  pub title : Text
  pub body : Text
  pub tag : Text
  pub conversation : Text

-- The variables of `WatchForPush`; `seen` is the set of the keys of the map.
pub record Watch : Type 0 where
  pub cursor : ℕ
  pub seen : List Text
  pub order : List Text
  pub sent : List Notice

-- `shouldPush`.
unfoldable pub should_push : ℕ → Message → List Text → Bool
should_push now m seen =
    not (not (text_eq m.direction (txt "incoming")) || (m.deleted || mentions m.id seen))
    && leb now (m.time + push_window)

-- `delete(seen, id)`.
unfoldable pub forget : Text → List Text → List Text
forget id [] = []
forget id (b ∷ seen) = let rest = forget id seen in if text_eq b id then rest else b ∷ rest

-- A delivered message is remembered, and the oldest one forgotten beyond the memory.
unfoldable pub remember : Text → Watch → Watch
unfolding forget
remember id w =
    let order = w.order ++ id ∷ [] in
    let seen = w.seen ++ id ∷ [] in
    if ltb push_memory (length order)
    then elim order [
      | [] ↦ record w { seen = seen; order = [] }
      | oldest ∷ rest ↦ record w { seen = forget oldest seen; order = rest }
    ]
    else record w { seen = seen; order = order }

-- The walk of `describe` over the participants.
unfoldable pub sender_title : Conversation → Text → List Participant → Text → Text
sender_title conv sender [] title = title
sender_title conv sender (p ∷ ps) title =
    if not (text_eq p.id sender) || p.is_me
    then sender_title conv sender ps title
    else if not (is_empty p.name) && is_empty conv.name
    then sender_title conv sender ps p.name
    else if not (is_empty p.address) && is_empty conv.name
    then sender_title conv sender ps p.address
    else sender_title conv sender ps title

unfoldable pub body_of : Message → Text
body_of m = elim m.attachments [
  | [] ↦ m.text
  | a ∷ rest ↦ if is_empty m.text then txt "Sent an attachment" else m.text
]

module _ {env : Platform} where
  open env use {Bytes, json}

  -- `describe`.
  unfoldable pub title_of : Message → Db env → Text
  unfolding sender_title
  title_of m db =
      elim (get_value on_latest (record_key (txt "conversation") m.conversation_id) db) [
        | err e ↦ txt "New message"
        | ok plain ↦ elim (json.conversation_codec.unmarshal plain) [
          | none ↦ txt "New message"
          | some conv ↦
              sender_title conv m.sender_id conv.participants
                (if is_empty conv.name then txt "New message" else conv.name)
        ]
      ]

  unfoldable pub notice_of : Message → Db env → Notice
  unfolding title_of body_of
  notice_of m db = record {
    title = title_of m db;
    body = body_of m;
    tag = m.id;
    conversation = m.conversation_id;
  }

  unfoldable pub announce : Message → Db env → Watch → Watch
  unfolding remember notice_of
  announce m db w = record (remember m.id w) { sent = w.sent ++ notice_of m db ∷ [] }

  unfoldable pub watch_message : Event Bytes → Db env → Watch → Watch
  unfolding should_push announce
  watch_message event db w =
      if not (text_eq event.kind (txt "message"))
      then w
      else elim (json.message_codec.unmarshal event.payload) [
        | none ↦ w
        | some m ↦ if should_push db.now m w.seen then announce m db w else w
      ]

  -- One event of a page.
  unfoldable pub watch_event : Event Bytes → Db env → Watch → Watch
  unfolding watch_message
  watch_event event db w = watch_message event db (record w { cursor = event.id })

  unfoldable pub watch_events : List (Event Bytes) → Db env → Watch → Watch
  unfolding watch_event
  watch_events [] db w = w
  watch_events (event ∷ events) db w = watch_events events db (watch_event event db w)

  -- The inner loop of `WatchForPush`, on fuel; none if it runs out.
  unfoldable pub drain : ℕ → Db env → Watch → Option Watch
  unfolding watch_events
  drain zero db w = none
  drain (suc fuel) db w =
      let go_on : List (Event Bytes) → Option Watch =
        λ events. drain fuel db (watch_events events db w) in
      elim (list_events w.cursor push_page db) [
        | err e ↦ some w
        | ok [] ↦ some w
        | ok (event ∷ events) ↦ go_on (event ∷ events)
      ]
