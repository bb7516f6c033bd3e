-- ===== src/Bridge/Provider.antt =====
-- The interface `Provider` of internal/provider/provider.go, as the bridge calls it. Its
-- implementations and what the phone answers are outside: each call is told how many calls came
-- before it, so that it can answer anything at any time.
use google_messages_multidev.Event.{Event}
use google_messages_multidev.Model.{Outbox}
use google_messages_multidev.Platform.{Platform}
use google_messages_multidev.Prelude.Assoc.{Table}
use google_messages_multidev.Prelude.Core.{Bool, List, ℕ}
use google_messages_multidev.Prelude.Text.{Text}
use google_messages_multidev.Result.{Result}
use google_messages_multidev.Store.Db.{Db}

pub record Snapshot (env : Platform) : Type 0 where
  pub event : Event env.Bytes
  pub private : Table env.Bytes

-- `SendTarget`; `route` stands for the fields that only the provider reads.
pub record SendTarget (env : Platform) : Type 0 where
  pub transaction_id : Text
  pub conversation_id : Text
  pub media : List env.Bytes
  pub route : env.Bytes

pub record Provider (env : Platform) : Type 0 where
  pub conversations : ℕ → Result (List (Snapshot env))
  pub messages : ℕ → Text → Result (List (Snapshot env))
  pub create_conversation : ℕ → List Text → Text → Result (Snapshot env)
  pub react : ℕ → SendTarget env → Text → Text → Bool → Result (Unit {0})
  pub upload : ℕ → env.Bytes → Text → Text → Result env.Bytes
  pub message_page : ℕ → Text → env.Bytes → Result (List (Snapshot env) × env.Bytes)
  pub conversation_page : ℕ → Text → env.Bytes → Result (List (Snapshot env) × env.Bytes)
  pub prepare : ℕ → Text → Result (SendTarget env)
  pub send : ℕ → SendTarget env → Outbox → Result (Unit {0})
  pub mark_read : ℕ → Text → Text → Result (Unit {0})
  pub attachment : ℕ → env.Bytes → Result env.Bytes

-- What happens around a call, or a question to the bridge, by the number of calls before it: what
-- other goroutines commit meanwhile, whether the context has ended, and whether a pairing is active
-- when the worker asks before its claim and in it.
pub record Around (env : Platform) : Type 0 where
  pub meanwhile : ℕ → Db env → Db env
  pub ended : ℕ → Bool
  pub pairs : ℕ → Bool
  pub pairs_at_claim : ℕ → Bool
