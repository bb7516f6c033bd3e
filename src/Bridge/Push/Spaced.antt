-- ===== src/Bridge/Push/Spaced.antt =====
-- Lists of ids in which none comes again too soon, for the memory of `WatchForPush`
-- (internal/bridge/push.go).
use google_messages_multidev.Bridge.Sender.Once.{is_distinct}
use google_messages_multidev.Bridge.Sender.{mentions}
use google_messages_multidev.Prelude.Core.{
  Bool, List, [], ap, arith, false, inl, inr, not, refl, suc, true, zero, ℕ, ◌&&◌, ◌++◌, ◌∷◌, ◌||◌,
  ◌≡◌, ◌≤◌, ◌⊎◌,
}
use google_messages_multidev.Prelude.Lists.{length, length-append, take}
use google_messages_multidev.Prelude.Text.{Text, text_eq_iff}

mentions-append :
    (c : Text) (us vs : List Text) → mentions c (us ++ vs) ≡ (mentions c us || mentions c vs)
unfolding mentions
mentions-append c [] vs = refl
mentions-append c (u ∷ us) vs = ground (arith, mentions-append c us vs)

pub is_distinct-snoc :
    (us : List Text) (id : Text)
    → is_distinct us ≡ true
    → mentions id us ≡ false
    → is_distinct (us ++ id ∷ []) ≡ true
unfolding is_distinct mentions
is_distinct-snoc [] id h n = refl
is_distinct-snoc (u ∷ us) id h n = ground (
  arith,
  is_distinct-snoc us id,
  mentions-append u us (id ∷ []),
  text_eq_iff id u,
  text_eq_iff u id,
)

-- No text comes again among the next `n` ones after it.
unfoldable pub is_spaced : ℕ → List Text → Bool
is_spaced n [] = true
is_spaced n (u ∷ us) = not (mentions u (take n us)) && is_spaced n us

mentions-take :
    (n : ℕ) (u : Text) (us : List Text) → mentions u us ≡ false → mentions u (take n us) ≡ false
unfolding mentions
mentions-take zero u us h = refl
mentions-take (suc n) u [] h = refl
mentions-take (suc n) u (v ∷ us) h = ground (arith, mentions-take n u us)

is_distinct-is_spaced : (n : ℕ) (us : List Text) → is_distinct us ≡ true → is_spaced n us ≡ true
unfolding is_distinct is_spaced
is_distinct-is_spaced n [] h = refl
is_distinct-is_spaced n (u ∷ us) h =
    ground (arith, is_distinct-is_spaced n us, mentions-take n u us)

take-append : (n : ℕ) (us vs : List Text) → n ≤ length us → take n (us ++ vs) ≡ take n us
take-append zero us vs h = refl
take-append (suc n) [] vs h = absurd (omega arith)
take-append (suc n) (u ∷ us) vs h = ap (λ l. u ∷ l) (take-append n us vs (omega arith))

pub is_spaced-snoc :
    (n : ℕ) (older order : List Text) (id : Text)
    → (older ≡ []) ⊎ (length order ≡ n)
    → is_spaced n (older ++ order) ≡ true
    → is_distinct (order ++ id ∷ []) ≡ true
    → is_spaced n ((older ++ order) ++ id ∷ []) ≡ true
unfolding is_spaced
is_spaced-snoc n [] order id whole s d = is_distinct-is_spaced n (order ++ id ∷ []) d
is_spaced-snoc n (u ∷ older) order id (inl e) s d = absurd (cc)
is_spaced-snoc n (u ∷ older) order id (inr full) s d =
    let long : n ≤ length (older ++ order) = omega (arith, full, length-append older order) in
    let rest = is_spaced-snoc n older order id (inr full) (ground (arith, s)) d in
    rw (take-append n (older ++ order) (id ∷ []) long) (ground (arith, s, rest))
