-- ===== src/Model.antt =====
-- internal/model/model.go: the wire records. A Go string is the list of its bytes, but a message's
-- text and preview are lists of runes. A time is a number of nanoseconds, 0 for the zero time. The
-- states of outbox records and history jobs are enumerated, with the strings that no code names
-- under `other`.
pub mod Preview
pub mod Request
use google_messages_multidev.Prelude.Core.{Bool, List, false, true, ℕ}
use google_messages_multidev.Prelude.Text.{Text}

abbrev pub schema : ℕ
schema = 1

pub record Participant : Type 0 where
  pub id : Text
  pub name : Text
  pub address : Text
  pub is_me : Bool

pub record Attachment : Type 0 where
  pub id : Text
  pub name : Text
  pub mime : Text
  pub size : ℕ
  pub available : Bool
  pub preview : Bool
  pub requestable : Bool

pub record Reaction : Type 0 where
  pub emoji : Text
  pub participants : List Text

pub record Conversation : Type 0 where
  pub archived : Bool
  pub pinned : Bool
  pub muted_until : ℕ
  pub schema : ℕ
  pub id : Text
  pub name : Text
  pub preview : Text
  pub updated : ℕ
  pub unread : Bool
  pub unread_count : ℕ
  pub read_only : Bool
  pub protocol : Text
  pub state : Text
  pub participants : List Participant
  pub preview_sender_id : Text
  pub preview_direction : Text

pub record Message : Type 0 where
  pub schema : ℕ
  pub id : Text
  pub conversation_id : Text
  pub sender_id : Text
  pub time : ℕ
  pub text : Text
  pub subject : Text
  pub direction : Text
  pub status : Text
  pub deleted : Bool
  pub read_only : Bool
  pub transaction_id : Text
  pub attachments : List Attachment
  pub reactions : List Reaction

pub record Upload : Type 0 where
  pub schema : ℕ
  pub id : Text
  pub name : Text
  pub mime : Text
  pub size : ℕ
  pub created : ℕ

pub record SendRequest : Type 0 where
  pub kind : Text
  pub recipients : List Text
  pub group_name : Text
  pub attachment_ids : List Text
  pub message_id : Text
  pub emoji : Text
  pub remove : Bool
  pub conversation_id : Text
  pub text : Text

pub data OutboxState : Type 0 where
  queued sending accepted rejected ambiguous confirmed canceled : OutboxState
  other : Text → OutboxState

pub record Outbox : Type 0 where
  pub conversation_id : Text
  pub session_epoch : ℕ
  pub schema : ℕ
  pub id : Text
  pub request : SendRequest
  pub transaction_id : Text
  pub state : OutboxState
  pub message_id : Text
  pub detail : Text
  pub created : ℕ
  pub updated : ℕ

pub data JobState : Type 0 where
  pending paused failed complete : JobState
  other_job : Text → JobState

pub record HistoryJob : Type 0 where
  pub generation : ℕ
  pub session_epoch : ℕ
  pub schema : ℕ
  pub id : Text
  pub kind : Text
  pub conversation_id : Text
  pub folder : Text
  pub state : JobState
  pub pages : ℕ
  pub records : ℕ
  pub detail : Text
  pub updated : ℕ
  pub retry_at : ℕ

abbrev pub is_queued : OutboxState → Bool
is_queued queued = true
is_queued _ = false

abbrev pub is_sending : OutboxState → Bool
is_sending sending = true
is_sending _ = false

abbrev pub is_canceled : OutboxState → Bool
is_canceled canceled = true
is_canceled _ = false

abbrev pub is_confirmed : OutboxState → Bool
is_confirmed confirmed = true
is_confirmed _ = false

-- The history states: `pending` is the string "queued".
abbrev pub is_pending : JobState → Bool
is_pending pending = true
is_pending _ = false

abbrev pub is_complete : JobState → Bool
is_complete complete = true
is_complete _ = false
