-- ===== src/Platform/Sample.antt =====
-- A platform on which the laws of Platform hold: byte slices are the values that they stand for, a
-- bucket is its ordered table with a counter, and a seal opens under its own nonce and context.
use google_messages_multidev.Event.{Event}
use google_messages_multidev.Model.{Conversation, HistoryJob, Message, Outbox, Upload}
use google_messages_multidev.Platform.{
  Aead, Bolt, Json, LatestMessage, PairingMarker, PairingRecovery, Platform, PushKeys,
}
use google_messages_multidev.Prelude.Assoc.{Table, erase, insert, lookup}
use google_messages_multidev.Prelude.Bytes.{big_endian, from_bytes, length-big_endian}
use google_messages_multidev.Prelude.Core.{
  Bool, Option, [], arith, false, none, refl, some, true, ℕ, ◌&&◌, ◌↔◌, ◌≡◌,
}
use google_messages_multidev.Prelude.Lists.{length}
use google_messages_multidev.Prelude.Tests.{if◌then◌else◌, ◌==◌}
use google_messages_multidev.Prelude.Text.{Text, text_eq, text_eq_refl}
use native.Mathlib.Decide.{ℕ_discrete}

pub data Blob : Type 0 where
  octets_of : Text → Blob
  sealed : Text → Text → Blob → Blob
  glued : Text → Blob → Blob
  outbox_json : Outbox → Blob
  message_json : Message → Blob
  conversation_json : Conversation → Blob
  history_json : HistoryJob → Blob
  upload_json : Upload → Blob
  latest_json : LatestMessage → Blob
  recovery_json : PairingRecovery → Blob
  marker_json : PairingMarker → Blob
  keys_json : PushKeys → Blob
  event_json : ℕ → Text → Text → ℕ → Blob → Blob

unfoldable pub Blob-discrete : Discrete Blob
Blob-discrete = hlevel ℕ_discrete

unfoldable pub same_blob : Blob → Blob → Bool
same_blob a b = elim (Blob-discrete a b) [ yes e ↦ true | no e ↦ false ]

pub same_blob_iff : (a b : Blob) → (same_blob a b ≡ true) ↔ (a ≡ b)
unfolding same_blob
same_blob_iff a b = ground arith

abbrev octets_in : Blob → Text
octets_in (octets_of t) = t
octets_in _ = []

abbrev as_outbox : Blob → Option Outbox
as_outbox (outbox_json a) = some a
as_outbox _ = none

abbrev as_message : Blob → Option Message
as_message (message_json a) = some a
as_message _ = none

abbrev as_conversation : Blob → Option Conversation
as_conversation (conversation_json a) = some a
as_conversation _ = none

abbrev as_history : Blob → Option HistoryJob
as_history (history_json a) = some a
as_history _ = none

abbrev as_upload : Blob → Option Upload
as_upload (upload_json a) = some a
as_upload _ = none

abbrev as_latest : Blob → Option LatestMessage
as_latest (latest_json a) = some a
as_latest _ = none

abbrev as_recovery : Blob → Option PairingRecovery
as_recovery (recovery_json a) = some a
as_recovery _ = none

abbrev as_marker : Blob → Option PairingMarker
as_marker (marker_json a) = some a
as_marker _ = none

abbrev as_keys : Blob → Option PushKeys
as_keys (keys_json a) = some a
as_keys _ = none

abbrev as_event : Blob → Option (Event Blob)
as_event (event_json i k e t p) =
    some (record { id = i; kind = k; entity_id = e; time = t; payload = p })
as_event _ = none

abbrev ids_in : Blob → Option (Text × Text)
ids_in (message_json m) = some (m.id, m.conversation_id)
ids_in _ = none

abbrev compacts : Blob → Option Blob
compacts (octets_of t) = none
compacts b = some b

abbrev opens : Text → Blob → Text → Option Blob
opens n (sealed m d b) c = if text_eq m n && text_eq d c then some b else none
opens n _ c = none

abbrev cuts : ℕ → Blob → Option (Text × Blob)
cuts n (glued t b) = if length t == n then some (t, b) else none
cuts n _ = none

pub opens-sealed : (n : Text) (b : Blob) (c : Text) → opens n (sealed n c b) c ≡ some b
opens-sealed n b c = ground (arith, text_eq_refl n, text_eq_refl c)

pub cuts-glued : (t : Text) (b : Blob) → cuts (length t) (glued t b) ≡ some (t, b)
cuts-glued t b = ground arith

abbrev pub sample_bolt : Bolt Blob
sample_bolt = record {
  Bucket = Table Blob × ℕ;
  empty = ([], 0);
  entries = λ b. b.0;
  get = λ b k. lookup k b.0;
  put = λ b k v. (insert k v b.0, b.1);
  delete = λ b k. (erase k b.0, b.1);
  sequence_of = λ b. b.1;
  set_sequence = λ b n. (b.0, n);
  entries-empty = refl;
  get-eq-lookup = λ b k. refl;
  entries-put = λ b k v. refl;
  entries-delete = λ b k. refl;
  entries-set_sequence = λ b n. refl;
  sequence_of-empty = refl;
  sequence_of-put = λ b k v. refl;
  sequence_of-delete = λ b k. refl;
  sequence_of-set = λ b n. refl;
}

abbrev pub sample_aead : Aead Blob
sample_aead = record {
  nonce_size = 12;
  random = λ n. big_endian 12 n;
  aead_seal = λ n b c. sealed n c b;
  aead_open = opens;
  glue = glued;
  cut = cuts;
  length-random = λ n. length-big_endian 12 n;
  cut-glue = cuts-glued;
  open-seal = opens-sealed;
}

abbrev pub sample_json : Json Blob
sample_json = record {
  compact = compacts;
  outbox_codec = record {
    marshal = outbox_json;
    unmarshal = as_outbox;
    unmarshal-marshal = λ a. refl;
  };
  message_codec = record {
    marshal = message_json;
    unmarshal = as_message;
    unmarshal-marshal = λ a. refl;
  };
  conversation_codec = record {
    marshal = conversation_json;
    unmarshal = as_conversation;
    unmarshal-marshal = λ a. refl;
  };
  history_codec = record {
    marshal = history_json;
    unmarshal = as_history;
    unmarshal-marshal = λ a. refl;
  };
  upload_codec = record {
    marshal = upload_json;
    unmarshal = as_upload;
    unmarshal-marshal = λ a. refl;
  };
  event_codec = record {
    marshal = λ e. event_json e.id e.kind e.entity_id e.time e.payload;
    unmarshal = as_event;
    unmarshal-marshal = λ a. refl;
  };
  latest_codec = record {
    marshal = latest_json;
    unmarshal = as_latest;
    unmarshal-marshal = λ a. refl;
  };
  recovery_codec = record {
    marshal = recovery_json;
    unmarshal = as_recovery;
    unmarshal-marshal = λ a. refl;
  };
  marker_codec = record {
    marshal = marker_json;
    unmarshal = as_marker;
    unmarshal-marshal = λ a. refl;
  };
  keys_codec = record { marshal = keys_json; unmarshal = as_keys; unmarshal-marshal = λ a. refl };
  read_ids = ids_in;
  compact-outbox = λ o. refl;
  compact-history = λ j. refl;
  compact-conversation = λ c. refl;
}

abbrev pub sample : Platform
sample = record {
  Bytes = Blob;
  raw = octets_of;
  octets = octets_in;
  same_bytes = same_blob;
  octets-raw = λ t. refl;
  same_bytes_iff = same_blob_iff;
  sha_hex = λ b. big_endian 64 (from_bytes (octets_in b));
  length-sha_hex = λ b. length-big_endian 64 (from_bytes (octets_in b));
  bolt = sample_bolt;
  aead = sample_aead;
  json = sample_json;
}
