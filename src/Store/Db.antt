-- ===== src/Store/Db.antt =====
-- `Store` of internal/store/store.go: the buckets of the database, its transactions, and the
-- encryption of values. The buckets that `Open` creates are there always; an optional one is made
-- on first use. `now` is what `time.Now` reads during a transaction, `draws` counts the nonces.
use google_messages_multidev.Platform.{Platform}
use google_messages_multidev.Prelude.Bytes.{
  big_endian, from_bytes, from_bytes-big_endian, length-big_endian, text_lt-big_endian,
  uint64_bound,
}
use google_messages_multidev.Prelude.Core.{
  Bool, Option, arith, false, none, some, true, ℕ, ◌++◌, ◌<◌, ◌∷◌, ◌≡◌,
}
use google_messages_multidev.Prelude.Lists.{length}
use google_messages_multidev.Prelude.Tests.{if◌then◌else◌, ◌==◌}
use google_messages_multidev.Prelude.Text.{Text, text_eq, text_lt, txt}
use google_messages_multidev.Result.{Error, Result, corrupt, err, ok, or_error}

pub record Db (env : Platform) : Type 0 where
  pub meta : env.bolt.Bucket
  pub events : env.bolt.Bucket
  pub latest : env.bolt.Bucket
  pub versions : env.bolt.Bucket
  pub outbox : env.bolt.Bucket
  pub outbox_txn : env.bolt.Bucket
  pub private : env.bolt.Bucket
  pub media : env.bolt.Bucket
  pub push : env.bolt.Bucket
  pub message_index : env.bolt.Bucket  -- "message-conversations"
  pub latest_messages : env.bolt.Bucket  -- "conversation-latest"
  pub entity_epochs : Option env.bolt.Bucket
  pub history_pages : Option env.bolt.Bucket
  pub network : Option env.bolt.Bucket
  pub now : ℕ
  pub draws : ℕ

-- A transaction in progress: it fails, or goes on from a new state.
abbrev pub Tx : Platform → Type 0 → Type 0
Tx env A = Db env → Result (A × Db env)

module _ {env : Platform} {A : Type 0} where
  abbrev pub pure : A → Tx env A
  pure a db = ok (a, db)

  abbrev pub fail : Error → Tx env A
  fail e db = err e

  abbrev pub lift : Result A → Tx env A
  lift (ok a) db = ok (a, db)
  lift (err e) db = err e

  abbrev pub gets : (Db env → A) → Tx env A
  gets f db = ok (f db, db)

  -- `db.Update`: an error rolls every write back.
  unfoldable pub update : Tx env A → Db env → Result A × Db env
  update tx db = elim (tx db) [ ok (a, db') ↦ (ok a, db') | err e ↦ (err e, db) ]

  -- `db.View`.
  unfoldable pub view : Tx env A → Db env → Result A
  view tx db = elim (tx db) [ ok (a, db') ↦ ok a | err e ↦ err e ]

  -- An error is handed on as a value; what the failed step wrote is not kept.
  abbrev pub attempt : Tx env A → Tx env (Result A)
  attempt tx db = elim (tx db) [ ok (a, db') ↦ ok (ok a, db') | err e ↦ ok (err e, db) ]

infixl 5 ◌>>=◌ ◌>>◌
abbrev pub ◌>>=◌ : {env : Platform} {A B : Type 0} → Tx env A → (A → Tx env B) → Tx env B
◌>>=◌ m f db = elim (m db) [ ok (a, db') ↦ f a db' | err e ↦ err e ]

abbrev pub ◌>>◌ : {env : Platform} {B : Type 0} → Tx env (Unit {0}) → Tx env B → Tx env B
m >> k = m >>= λ _. k

abbrev pub modify : {env : Platform} → (Db env → Db env) → Tx env (Unit {0})
modify f db = ok (tt, f db)

abbrev pub guard : {env : Platform} → Bool → Error → Tx env (Unit {0})
guard true e db = ok (tt, db)
guard false e db = err e

-- A step whose value is not used.
abbrev pub done : {env : Platform} → Result (Bool × Db env) → Result (Unit {0} × Db env)
done (ok (changed, db)) = ok (tt, db)
done (err e) = err e

pub done-ok :
    {env : Platform} (r : Result (Bool × Db env)) {db' : Db env}
    → done r ≡ ok (tt, db')
    → (changed : Bool) × (r ≡ ok (changed, db'))
done-ok (ok (changed, db)) h = (changed, ground arith)
done-ok (err e) h = cc

-- Keys.
unfoldable pub record_key : Text → Text → Text
record_key kind id = kind ++ 58 ∷ id

-- `recordContext`.
unfoldable pub record_context : Text → Text → Text
unfolding record_key
record_context bucket key = if text_eq bucket (txt "latest") then key else record_key bucket key

-- `sequence`.
unfoldable pub sequence : ℕ → Text
sequence id = big_endian 8 id

pub length-sequence : (n : ℕ) → length (sequence n) ≡ 8
unfolding sequence
length-sequence n = length-big_endian 8 n

pub from_bytes-sequence : (n : ℕ) → n < uint64_bound → from_bytes (sequence n) ≡ n
unfolding sequence
from_bytes-sequence n h = from_bytes-big_endian 8 n h

-- The keys of the event log are in byte order as their numbers are.
pub text_lt-sequence :
    (m n : ℕ) → m < n → n < uint64_bound → text_lt (sequence m) (sequence n) ≡ true
unfolding sequence
text_lt-sequence m n h k = text_lt-big_endian 8 m n h k

module _ (env : Platform) where
  open env use {Bytes, raw, octets, aead}

  -- `Store.encrypt`: the nonce, then what it sealed.
  unfoldable pub encrypt : ℕ → Bytes → Text → Bytes
  encrypt draw plain context =
      aead.glue (aead.random draw) (aead.aead_seal (aead.random draw) plain context)

  -- `Store.decrypt`.
  unfoldable pub decrypt : Bytes → Text → Result Bytes
  decrypt sealed context = elim (aead.cut aead.nonce_size sealed) [
    | none ↦ err corrupt
    | some (nonce, body) ↦ or_error (aead.aead_open nonce body context) corrupt
  ]

  -- A value that `encrypt` made opens under its own context, whatever the nonce.
  pub decrypt-encrypt :
      (draw : ℕ) (plain : Bytes) (context : Text)
      → decrypt (encrypt draw plain context) context ≡ ok plain
  unfolding encrypt decrypt
  decrypt-encrypt draw plain context = ground (
    arith,
    aead.cut-glue (aead.random draw) (aead.aead_seal (aead.random draw) plain context),
    aead.length-random draw,
    aead.open-seal (aead.random draw) plain context,
  )

  -- A counter value: `len(v) == 8` and `binary.BigEndian.Uint64(v)`.
  unfoldable pub read_counter : Option Bytes → Option ℕ
  read_counter none = none
  read_counter (some v) = if length (octets v) == 8 then some (from_bytes (octets v)) else none

  unfoldable pub counter : ℕ → Bytes
  unfolding sequence
  counter n = raw (sequence n)

  pub read_counter-counter : (n : ℕ) → n < uint64_bound → read_counter (some (counter n)) ≡ some n
  unfolding read_counter counter
  read_counter-counter n h =
      ground (arith, env.octets-raw (sequence n), length-sequence n, from_bytes-sequence n h)
