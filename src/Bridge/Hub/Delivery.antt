-- ===== src/Bridge/Hub/Delivery.antt =====
-- What a subscription of internal/bridge/hub.go is promised, whatever the clients and the bridge do.
use google_messages_multidev.Bridge.Hub.{
  Subscription, at, live_capacity, notify_all, notify_one, publish_all, publish_one, subscribe,
  take_live, take_wake, unsubscribe,
}
use google_messages_multidev.Prelude.Core.{
  List, Option, [], ap, arith, inl, inr, none, refl, some, suc, sym, true, zero, ℕ, ◌++◌, ◌∙◌, ◌∷◌,
  ◌≡◌, ◌≤◌,
}
use google_messages_multidev.Prelude.Lists.{List-cases, length, length-append}
use google_messages_multidev.Prelude.Tests.{if◌then◌else◌, ◌==◌}
use mathlib.Core.List.{append-nil, append_assoc, map}

pub data Op (A : Type 0) : Type 0 where
  subscribes : Op A
  notifies : Op A
  publishes : A → Op A
  leaves : ℕ → Op A
  takes_wake : ℕ → Op A
  takes_live : ℕ → Op A

module _ {A : Type 0} where
  unfoldable pub hub_step : Op A → List (Subscription A) → List (Subscription A)
  hub_step subscribes hub = subscribe hub
  hub_step notifies hub = notify_all hub
  hub_step (publishes event) hub = publish_all event hub
  hub_step (leaves n) hub = at n unsubscribe hub
  hub_step (takes_wake n) hub = at n take_wake hub
  hub_step (takes_live n) hub = at n take_live hub

  unfoldable pub hub_run : List (Op A) → List (Subscription A) → List (Subscription A)
  hub_run [] hub = hub
  hub_run (op ∷ ops) hub = hub_run ops (hub_step op hub)

  unfoldable pub hub_published : List (Op A) → List A
  hub_published [] = []
  hub_published (publishes event ∷ ops) = event ∷ hub_published ops
  hub_published (_ ∷ ops) = hub_published ops

  unfoldable pub nth : ℕ → List (Subscription A) → Option (Subscription A)
  nth n [] = none
  nth zero (s ∷ hub) = some s
  nth (suc n) (s ∷ hub) = nth n hub

  -- What an operation does to the n-th subscription.
  follow : Op A → ℕ → Subscription A → Subscription A
  follow subscribes n s = s
  follow notifies n s = notify_one s
  follow (publishes event) n s = publish_one event s
  follow (leaves m) n s = if m == n then unsubscribe s else s
  follow (takes_wake m) n s = if m == n then take_wake s else s
  follow (takes_live m) n s = if m == n then take_live s else s

  nth-append :
      (n : ℕ) (hub more : List (Subscription A)) (s : Subscription A)
      → nth n hub ≡ some s
      → nth n (hub ++ more) ≡ some s
  unfolding nth
  nth-append n [] more s h = cc
  nth-append zero (t ∷ hub) more s h = h
  nth-append (suc n) (t ∷ hub) more s h = nth-append n hub more s h

  nth-map :
      (f : Subscription A → Subscription A) (n : ℕ) (hub : List (Subscription A))
      (s : Subscription A)
      → nth n hub ≡ some s
      → nth n (map f hub) ≡ some (f s)
  unfolding nth
  nth-map f n [] s h = cc
  nth-map f zero (t ∷ hub) s h = ground arith
  nth-map f (suc n) (t ∷ hub) s h = nth-map f n hub s h

  nth-at :
      (f : Subscription A → Subscription A) (m n : ℕ) (hub : List (Subscription A))
      (s : Subscription A)
      → nth n hub ≡ some s
      → nth n (at m f hub) ≡ some (if m == n then f s else s)
  unfolding nth at
  nth-at f m n [] s h = cc
  nth-at f zero zero (t ∷ hub) s h = ground arith
  nth-at f zero (suc n) (t ∷ hub) s h = ground arith
  nth-at f (suc m) zero (t ∷ hub) s h = ground arith
  nth-at f (suc m) (suc n) (t ∷ hub) s h = ground (arith, nth-at f m n hub s h)

  nth-hub_step :
      (op : Op A) (n : ℕ) (hub : List (Subscription A)) (s : Subscription A)
      → nth n hub ≡ some s
      → nth n (hub_step op hub) ≡ some (follow op n s)
  unfolding hub_step follow subscribe notify_all publish_all
  nth-hub_step subscribes n hub s h = nth-append n hub _ s h
  nth-hub_step notifies n hub s h = nth-map notify_one n hub s h
  nth-hub_step (publishes event) n hub s h = nth-map (publish_one event) n hub s h
  nth-hub_step (leaves m) n hub s h = nth-at unsubscribe m n hub s h
  nth-hub_step (takes_wake m) n hub s h = nth-at take_wake m n hub s h
  nth-hub_step (takes_live m) n hub s h = nth-at take_live m n hub s h

  -- The buffer is within its capacity, and `Done` is closed once, when the subscription is dropped.
  pub record IsSound (s : Subscription A) : Type 0 where
    pub within : length s.live ≤ live_capacity
    pub closed_once : s.closes ≡ (if s.member then 0 else 1)

  follow-IsSound : (op : Op A) (n : ℕ) (s : Subscription A) → IsSound s → IsSound (follow op n s)
  unfolding follow notify_one publish_one unsubscribe take_wake take_live
  follow-IsSound subscribes n s i = i
  follow-IsSound notifies n s i = ground arith
  follow-IsSound (publishes event) n s i = ground (arith, length-append s.live (event ∷ []))
  follow-IsSound (leaves m) n s i = ground arith
  follow-IsSound (takes_wake m) n s i = ground arith
  follow-IsSound (takes_live m) n s i = ground arith

  take_live-all :
      (s : Subscription A) → (take_live s).taken ++ (take_live s).live ≡ s.taken ++ s.live
  unfolding take_live
  take_live-all s = elim (List-cases s.live) [
    | inl e ↦ ground arith
    | inr (event, rest, e) ↦ ground (arith, append_assoc s.taken (event ∷ []) rest)
  ]

  hub_published_cons :
      (op : Op A) (ops : List (Op A))
      → hub_published (op ∷ []) ++ hub_published ops ≡ hub_published (op ∷ ops)
  unfolding hub_published
  hub_published_cons (publishes event) ops = refl
  hub_published_cons subscribes ops = refl
  hub_published_cons notifies ops = refl
  hub_published_cons (leaves n) ops = refl
  hub_published_cons (takes_wake n) ops = refl
  hub_published_cons (takes_live n) ops = refl

  -- Where the subscription stays, it has the published events behind what it had.
  follow-live :
      (op : Op A) (n : ℕ) (s : Subscription A)
      → (follow op n s).member ≡ true
      → (s.member ≡ true)
        × ((follow op n s).taken ++ (follow op n s).live
            ≡ (s.taken ++ s.live) ++ hub_published (op ∷ []))
  unfolding follow notify_one publish_one unsubscribe take_wake take_live hub_published
  follow-live subscribes n s m = (m, sym (append-nil (s.taken ++ s.live)))
  follow-live notifies n s m = ground (arith, append-nil (s.taken ++ s.live))
  follow-live (publishes event) n s m = ground (arith, append_assoc s.taken s.live (event ∷ []))
  follow-live (leaves k) n s m = ground (arith, append-nil (s.taken ++ s.live))
  follow-live (takes_wake k) n s m = ground (arith, append-nil (s.taken ++ s.live))
  follow-live (takes_live k) n s m = ground (arith, append-nil (s.taken ++ s.live), take_live-all s)

  -- What the clients of the hub are promised of the n-th subscription: whatever is done, its buffer
  -- stays within its capacity and `Done` is closed at most once; and while it is not closed, what
  -- its reader received and what waits in its buffer are the events published since, in order and
  -- without a gap.
  pub hub_run-delivers :
      (ops : List (Op A)) (n : ℕ) (hub : List (Subscription A)) (s : Subscription A)
      → nth n hub ≡ some s
      → IsSound s
      → (s' : Subscription A) × (nth n (hub_run ops hub) ≡ some s')
        × IsSound s'
        × (s'.member ≡ true
            → (s.member ≡ true) × (s'.taken ++ s'.live ≡ (s.taken ++ s.live) ++ hub_published ops))
  unfolding hub_run
  hub_run-delivers [] n hub s h i =
      (s, h, i, λ m. (m, unfold hub_published in sym (append-nil (s.taken ++ s.live))))
  hub_run-delivers (op ∷ ops) n hub s h i =
      let (s', h', i', later) =
        hub_run-delivers ops n (hub_step op hub) (follow op n s) (nth-hub_step op n hub s h)
          (follow-IsSound op n s i) in
      (
        s',
        h',
        i',
        λ m.
            let (stays, now) = later m in
            let first = follow-live op n s stays in
            (
              first.0,
              now
                  ∙ ap (λ l. l ++ hub_published ops) first.1
                  ∙ append_assoc (s.taken ++ s.live) (hub_published (op ∷ [])) (hub_published ops)
                  ∙ ap (λ l. (s.taken ++ s.live) ++ l) (hub_published_cons op ops),
            ),
      )
