-- ===== src/Prelude/Text.antt =====
-- Go strings and byte keys as lists of bytes, with the comparisons the program makes of them.
use Prim.Native.Char.{code}
use Prim.Native.String.{String}
use google_messages_multidev.Prelude.Core.{
  Bool, List, [], arith, false, refl, subst, suc, true, zero, ℕ, ◌%◌, ◌&&◌, ◌++◌, ◌+◌, ◌/◌, ◌||◌,
  ◌↔◌, ◌∷◌, ◌≡◌,
}
use google_messages_multidev.Prelude.Tests.{if◌then◌else◌, ltb, ◌==◌}

abbrev pub Text : Type 0
Text = List ℕ

-- The bytes of an ASCII literal.
abbrev pub txt : String → Text
txt String.[] = []
txt (String.◌∷◌ c s) = code c ∷ txt s

unfoldable pub text_eq : Text → Text → Bool
text_eq [] [] = true
text_eq [] (b ∷ v) = false
text_eq (a ∷ u) [] = false
text_eq (a ∷ u) (b ∷ v) = (a == b) && text_eq u v

-- `bytes.Compare(u, v) < 0`.
unfoldable pub text_lt : Text → Text → Bool
text_lt u [] = false
text_lt [] (b ∷ v) = true
text_lt (a ∷ u) (b ∷ v) = ltb a b || ((a == b) && text_lt u v)

-- `bytes.HasPrefix(v, u)`.
unfoldable pub has_prefix : Text → Text → Bool
has_prefix [] v = true
has_prefix (a ∷ u) [] = false
has_prefix (a ∷ u) (b ∷ v) = (a == b) && has_prefix u v

abbrev pub is_empty : Text → Bool
is_empty [] = true
is_empty (a ∷ u) = false

pub text_eq_refl : (u : Text) → text_eq u u ≡ true
unfolding text_eq
text_eq_refl [] = refl
text_eq_refl (a ∷ u) = ground (arith, text_eq_refl u)

pub text_eq→eq : (u v : Text) → text_eq u v ≡ true → u ≡ v
unfolding text_eq
text_eq→eq [] [] h = refl
text_eq→eq [] (b ∷ v) h = cc
text_eq→eq (a ∷ u) [] h = cc
text_eq→eq (a ∷ u) (b ∷ v) h = ground (arith, text_eq→eq u v)

pub text_eq_iff : (u v : Text) → (text_eq u v ≡ true) ↔ (u ≡ v)
text_eq_iff u v = (text_eq→eq u v, λ e. subst (λ w. text_eq u w ≡ true) e (text_eq_refl u))

pub text_lt_irrefl : (u : Text) → text_lt u u ≡ false
unfolding text_lt
text_lt_irrefl [] = refl
text_lt_irrefl (a ∷ u) = ground (arith, text_lt_irrefl u)

pub text_lt_trans : (u v w : Text) → text_lt u v ≡ true → text_lt v w ≡ true → text_lt u w ≡ true
unfolding text_lt
text_lt_trans u v [] h k = ground arith
text_lt_trans u [] (c ∷ w) h k = ground arith
text_lt_trans [] (b ∷ v) (c ∷ w) h k = refl
text_lt_trans (a ∷ u) (b ∷ v) (c ∷ w) h k = ground (arith, text_lt_trans u v w)

pub text_lt_asym : (u v : Text) → text_lt u v ≡ true → text_lt v u ≡ false
unfolding text_lt
text_lt_asym [] (b ∷ v) h = refl
text_lt_asym [] [] h = cc
text_lt_asym (a ∷ u) [] h = cc
text_lt_asym (a ∷ u) (b ∷ v) h = ground (arith, text_lt_asym u v)

-- A common head is cut off: two keys behind one prefix are equal only if their ends are.
pub append-cancel : (p u v : Text) → p ++ u ≡ p ++ v → u ≡ v
append-cancel [] u v e = e
append-cancel (a ∷ p) u v e = append-cancel p u v (ground arith)

pub text_eq-append : (p u v : Text) → text_eq (p ++ u) (p ++ v) ≡ text_eq u v
unfolding text_eq
text_eq-append [] u v = refl
text_eq-append (a ∷ p) u v = ground (arith, text_eq-append p u v)

-- The digits of `n` before `rest`; the fuel bounds their number.
digits : ℕ → ℕ → Text → Text
digits zero n rest = rest
digits (suc fuel) n rest =
    let more = digits fuel (n / 10) ((n % 10 + 48) ∷ rest) in
    if ltb n 10 then (n + 48) ∷ rest else more

-- A uint64 in decimal, at most twenty digits.
unfoldable pub decimal : ℕ → Text
unfolding digits
decimal n = digits 20 n []

decimal_example : decimal 1203 ≡ txt "1203"
unfolding decimal
decimal_example = refl
