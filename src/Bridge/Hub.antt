-- ===== src/Bridge/Hub.antt =====
-- `Hub` of internal/bridge/hub.go: the subscriptions of the clients' streams. A channel that holds one
-- token is a Boolean, a buffered channel the list of what it holds. `taken` is what the reader of
-- `Live` has received, `closes` counts the calls of `close`, of which a second one panics.
pub mod Delivery
use google_messages_multidev.Prelude.Core.{
  Bool, List, [], false, suc, true, zero, ℕ, ◌++◌, ◌+◌, ◌∷◌,
}
use google_messages_multidev.Prelude.Lists.{length}
use google_messages_multidev.Prelude.Tests.{if◌then◌else◌, ltb}
use mathlib.Core.List.{map}

pub record Subscription (A : Type 0) : Type 0 where
  pub wake : Bool
  pub live : List A
  pub taken : List A
  pub closes : ℕ
  pub member : Bool  -- it is a key of `subscribers`

abbrev pub live_capacity : ℕ
live_capacity = 32

module _ {A : Type 0} where
  unfoldable pub new_subscription : Subscription A
  new_subscription = record { wake = false; live = []; taken = []; closes = 0; member = true }

  -- `delete` and `close(s.Done)`.
  unfoldable pub close_done : Subscription A → Subscription A
  close_done s = record s { member = false; closes = s.closes + 1 }

  -- The function that `Subscribe` returns.
  unfoldable pub unsubscribe : Subscription A → Subscription A
  unfolding close_done
  unsubscribe s = if s.member then close_done s else s

  -- One round of the loop of `Notify`.
  unfoldable pub notify_one : Subscription A → Subscription A
  notify_one s = if s.member then record s { wake = true } else s

  -- One round of the loop of `Publish`: a reader that has fallen behind is dropped.
  unfoldable pub publish_one : A → Subscription A → Subscription A
  unfolding close_done
  publish_one event s =
      if s.member
      then if ltb (length s.live) live_capacity
        then record s { live = s.live ++ event ∷ [] }
        else close_done s
      else s

  -- The reader: it drains a wake-up, and receives from `Live`.
  unfoldable pub take_wake : Subscription A → Subscription A
  take_wake s = record s { wake = false }

  unfoldable pub take_live : Subscription A → Subscription A
  take_live s = elim s.live [
    | [] ↦ s
    | event ∷ rest ↦ record s { live = rest; taken = s.taken ++ event ∷ [] }
  ]

  unfoldable pub at :
      ℕ → (Subscription A → Subscription A) → List (Subscription A) → List (Subscription A)
  at n f [] = []
  at zero f (s ∷ hub) = f s ∷ hub
  at (suc n) f (s ∷ hub) = s ∷ at n f hub

  -- `Subscribe`, `Notify` and `Publish` on all subscriptions that were ever made.
  unfoldable pub subscribe : List (Subscription A) → List (Subscription A)
  unfolding new_subscription
  subscribe hub = hub ++ new_subscription ∷ []

  unfoldable pub notify_all : List (Subscription A) → List (Subscription A)
  unfolding notify_one
  notify_all hub = map notify_one hub

  unfoldable pub publish_all : A → List (Subscription A) → List (Subscription A)
  unfolding publish_one
  publish_all event hub = map (publish_one event) hub
