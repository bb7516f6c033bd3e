-- ===== src/Prelude/Assoc.antt =====
-- Ordered tables by byte keys: the reference that a bbolt bucket is held to, and cursor walks.
use google_messages_multidev.Prelude.Core.{
  List, Option, [], arith, none, refl, some, true, ◌++◌, ◌∷◌, ◌≡◌,
}
use google_messages_multidev.Prelude.Tests.{if◌then◌else◌}
use google_messages_multidev.Prelude.Text.{
  Text, has_prefix, text_eq, text_eq_iff, text_lt, text_lt_irrefl, text_lt_asym,
}

abbrev pub Table {ℓ} : Type ℓ → Type ℓ
Table V = List (Text × V)

module _ {ℓ} {V : Type ℓ} where
  unfoldable pub lookup : Text → Table V → Option V
  lookup k [] = none
  lookup k ((j, v) ∷ m) = if text_eq j k then some v else lookup k m

  -- A new key goes before the first greater one.
  unfoldable pub insert : Text → V → Table V → Table V
  insert k v [] = (k, v) ∷ []
  insert k v ((j, w) ∷ m) =
      if text_eq j k
      then (k, v) ∷ m
      else if text_lt k j
      then (k, v) ∷ (j, w) ∷ m
      else (j, w) ∷ insert k v m

  unfoldable pub erase : Text → Table V → Table V
  erase k [] = []
  erase k ((j, w) ∷ m) = let rest = erase k m in if text_eq j k then rest else (j, w) ∷ rest

  -- `Cursor.Seek(k)` and what follows it: the entries from the first key that is not below `k`.
  unfoldable pub seek : Text → Table V → Table V
  seek k [] = []
  seek k ((j, w) ∷ m) = if text_lt j k then seek k m else (j, w) ∷ m

  -- The entries up to the first key without the prefix.
  unfoldable pub while_prefix : Text → Table V → Table V
  while_prefix p [] = []
  while_prefix p ((j, w) ∷ m) =
      let rest = while_prefix p m in if has_prefix p j then (j, w) ∷ rest else []

  pub lookup-nil : (k : Text) → lookup k [] ≡ none
  unfolding lookup
  lookup-nil k = refl

  pub lookup-insert :
      (k j : Text) (v : V) (m : Table V)
      → lookup j (insert k v m) ≡ (if text_eq k j then some v else lookup j m)
  unfolding lookup insert
  lookup-insert k j v [] = refl
  lookup-insert k j v ((i, w) ∷ m) =
      ground (arith, text_eq_iff k j, text_eq_iff i k, text_eq_iff i j, lookup-insert k j v m)

  pub lookup-erase :
      (k j : Text) (m : Table V) → lookup j (erase k m) ≡ (if text_eq k j then none else lookup j m)
  unfolding lookup erase
  lookup-erase k j [] = ground arith
  lookup-erase k j ((i, w) ∷ m) =
      ground (arith, text_eq_iff k j, text_eq_iff i k, text_eq_iff i j, lookup-erase k j m)

  -- Every key lies below `k`.
  abbrev pub AllBelow : Text → Table V → Type 0
  AllBelow k [] = Unit
  AllBelow k ((j, w) ∷ m) = (text_lt j k ≡ true) × AllBelow k m

  pub insert-snoc :
      (k : Text) (v : V) (m : Table V) → AllBelow k m → insert k v m ≡ m ++ (k, v) ∷ []
  unfolding insert
  insert-snoc k v [] h = refl
  insert-snoc k v ((j, w) ∷ m) h =
      ground (arith, text_eq_iff j k, text_lt_irrefl k, text_lt_asym j k, insert-snoc k v m h.1)
