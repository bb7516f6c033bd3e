-- ===== src/Bridge/Worker.antt =====
-- The state that the bridge's workers share, and their steps: a store transaction, a call of the
-- provider, and the wake-ups of internal/bridge/service.go.
use google_messages_multidev.Bridge.Hub.{Subscription, notify_all}
use google_messages_multidev.Bridge.Provider.{Around, Snapshot}
use google_messages_multidev.Event.{Event}
use google_messages_multidev.Platform.{Platform}
use google_messages_multidev.Prelude.Core.{Bool, List, some, suc, true, ℕ, ◌∷◌}
use google_messages_multidev.Prelude.Tests.{if◌then◌else◌}
use google_messages_multidev.Prelude.Text.{Text}
use google_messages_multidev.Result.{Result, err, ok, storage}
use google_messages_multidev.Store.Apply.{apply}
use google_messages_multidev.Store.Db.{Db, Tx, update}

pub record Worker (env : Platform) : Type 0 where
  pub db : Db env
  pub hub : List (Subscription (Event env.Bytes))
  pub send_wake : Bool
  pub sync_wake : Bool
  pub history_wake : Bool
  pub broken : Bool  -- `storageFailure` was called
  pub calls : ℕ  -- calls of the provider so far
  pub dispatched : List Text  -- a request for each call of `Send`, `React` or `CreateConversation`

-- A step of a worker, which has effects also where it fails.
abbrev pub Act : Platform → Type 0 → Type 0
Act env A = Worker env → Result A × Worker env

module _ {env : Platform} where
  -- `s.db.Update`.
  unfoldable pub commit : {A : Type 0} → Tx env A → Act env A
  commit tx w = let done_tx = update tx w.db in (done_tx.0, record w { db = done_tx.1 })

  -- `Hub.Notify`, `RequestSync` and the channels of one token.
  unfoldable pub notify_hub : Worker env → Worker env
  notify_hub w = record w { hub = notify_all w.hub }

  unfoldable pub request_sync : Worker env → Worker env
  request_sync w = record w { sync_wake = true }

  -- A call of the provider, during which other goroutines commit what they do.
  unfoldable pub call_provider : {A : Type 0} → Around env → (ℕ → Result A) → Act env A
  call_provider around f w =
      (f w.calls, record w { db = around.meanwhile w.calls w.db; calls = suc w.calls })

  -- A call of `Send`, `React` or `CreateConversation` for a request, which enters the log as it is made.
  unfoldable pub hand_over : {A : Type 0} → Around env → Text → (ℕ → Result A) → Act env A
  unfolding call_provider
  hand_over around id f w = call_provider around f (record w { dispatched = id ∷ w.dispatched })

  -- A failure of the store that the step reports itself, as ErrStorage.
  unfoldable pub break_store : {A : Type 0} → Worker env → Result A × Worker env
  break_store w = (err storage, record w { broken = true })

  -- `Bridge.apply`: a snapshot of the provider, behind a revision.
  unfoldable pub apply_snapshot : Snapshot env → Bool → ℕ → Act env (Unit {0})
  unfolding commit notify_hub break_store
  apply_snapshot snap historical mark w =
      let applied = commit (apply snap.event historical snap.private (some mark)) w in
      elim applied.0 [
        | err e ↦ break_store applied.1
        | ok added ↦ (ok tt, if added then notify_hub applied.1 else applied.1)
      ]
