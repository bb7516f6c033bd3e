-- ===== src/Platform.antt =====
-- What the store relies on and this repository does not hold: a bbolt bucket (go.etcd.io/bbolt),
-- AES-GCM and the random source behind `crypto/cipher` and `crypto/rand`, `crypto/sha256` and
-- `encoding/json`.
-- A bucket is held to the ordered table of its entries. Records are marshalled by codecs.
pub mod Sample
use google_messages_multidev.Event.{Event}
use google_messages_multidev.Model.{Conversation, HistoryJob, Message, Outbox, Upload}
use google_messages_multidev.Prelude.Assoc.{Table, erase, insert, lookup}
use google_messages_multidev.Prelude.Core.{Bool, Option, [], some, true, ℕ, ◌↔◌, ◌≡◌}
use google_messages_multidev.Prelude.Lists.{length}
use google_messages_multidev.Prelude.Text.{Text}

pub record LatestMessage : Type 0 where
  pub message_id : Text
  pub time : ℕ
  pub preview : Text
  pub sender_id : Text
  pub direction : Text

pub record PairingRecovery : Type 0 where
  pub enabled : Bool
  pub phone_number : Text
  pub attempts : ℕ
  pub paused : Bool
  pub next_attempt : ℕ

pub record PushKeys : Type 0 where
  pub private_key : Text
  pub public_key : Text

-- The anonymous marker struct of a pairing attempt.
pub record PairingMarker : Type 0 where
  pub started : ℕ
  pub expires : ℕ

-- `json.Marshal` and `json.Unmarshal` at one type.
pub record Codec (Bytes A : Type 0) : Type 0 where
  pub marshal : A → Bytes
  pub unmarshal : Bytes → Option A
  pub unmarshal-marshal : (a : A) → unmarshal (marshal a) ≡ some a

pub record Bolt (Bytes : Type 0) : Type 1 where
  pub Bucket : Type 0
  pub empty : Bucket
  pub entries : Bucket → Table Bytes
  pub get : Bucket → Text → Option Bytes
  pub put : Bucket → Text → Bytes → Bucket
  pub delete : Bucket → Text → Bucket
  pub sequence_of : Bucket → ℕ
  pub set_sequence : Bucket → ℕ → Bucket
  pub entries-empty : entries empty ≡ []
  pub get-eq-lookup : (b : Bucket) (k : Text) → get b k ≡ lookup k (entries b)
  pub entries-put :
      (b : Bucket) (k : Text) (v : Bytes) → entries (put b k v) ≡ insert k v (entries b)
  pub entries-delete : (b : Bucket) (k : Text) → entries (delete b k) ≡ erase k (entries b)
  pub entries-set_sequence : (b : Bucket) (n : ℕ) → entries (set_sequence b n) ≡ entries b
  pub sequence_of-empty : sequence_of empty ≡ 0
  pub sequence_of-put :
      (b : Bucket) (k : Text) (v : Bytes) → sequence_of (put b k v) ≡ sequence_of b
  pub sequence_of-delete : (b : Bucket) (k : Text) → sequence_of (delete b k) ≡ sequence_of b
  pub sequence_of-set : (b : Bucket) (n : ℕ) → sequence_of (set_sequence b n) ≡ n

pub record Aead (Bytes : Type 0) : Type 0 where
  pub nonce_size : ℕ
  pub random : ℕ → Text  -- what the n-th `rand.Read` of a nonce writes
  pub aead_seal : Text → Bytes → Text → Bytes  -- nonce, plaintext, associated data
  pub aead_open : Text → Bytes → Text → Option Bytes
  pub glue : Text → Bytes → Bytes  -- the nonce with the sealed bytes behind it
  pub cut : ℕ → Bytes → Option (Text × Bytes)  -- the first n bytes, if there are so many
  pub length-random : (n : ℕ) → length (random n) ≡ nonce_size
  pub cut-glue : (t : Text) (b : Bytes) → cut (length t) (glue t b) ≡ some (t, b)
  pub open-seal : (n : Text) (b : Bytes) (c : Text) → aead_open n (aead_seal n b c) c ≡ some b

pub record Json (Bytes : Type 0) : Type 0 where
  pub compact : Bytes → Option Bytes  -- `json.Valid` and `json.Compact`; `none` if not valid
  pub outbox_codec : Codec Bytes Outbox
  pub message_codec : Codec Bytes Message
  pub conversation_codec : Codec Bytes Conversation
  pub history_codec : Codec Bytes HistoryJob
  pub upload_codec : Codec Bytes Upload
  pub event_codec : Codec Bytes (Event Bytes)
  pub latest_codec : Codec Bytes LatestMessage
  pub recovery_codec : Codec Bytes PairingRecovery
  pub marker_codec : Codec Bytes PairingMarker
  pub keys_codec : Codec Bytes PushKeys
  pub read_ids : Bytes → Option (Text × Text)  -- the fields `id` and `conversation_id` alone
  pub compact-outbox :
      (o : Outbox) → compact (outbox_codec.marshal o) ≡ some (outbox_codec.marshal o)
  pub compact-history :
      (j : HistoryJob) → compact (history_codec.marshal j) ≡ some (history_codec.marshal j)
  pub compact-conversation :
      (c : Conversation)
      → compact (conversation_codec.marshal c) ≡ some (conversation_codec.marshal c)

pub record Platform : Type 1 where
  pub Bytes : Type 0
  pub raw : Text → Bytes  -- a byte slice written out
  pub octets : Bytes → Text
  pub same_bytes : Bytes → Bytes → Bool
  pub octets-raw : (t : Text) → octets (raw t) ≡ t
  pub same_bytes_iff : (a b : Bytes) → (same_bytes a b ≡ true) ↔ (a ≡ b)
  pub sha_hex : Bytes → Text  -- `crypto/sha256` in hexadecimal
  pub length-sha_hex : (b : Bytes) → length (sha_hex b) ≡ 64
  pub bolt : Bolt Bytes
  pub aead : Aead Bytes
  pub json : Json Bytes
