-- ===== src/Prelude/Sorts.antt =====
-- `sort.Strings`: on strings, every sort gives one result.
use mathlib.Core.List.{Perm, Permᴰ}
use mathlib.Core.Logic.{∥∥₁_elim}
use native.Mathlib.Nat.{ℕ_set}
use google_messages_multidev.Prelude.Core.{List, [], arith, false, refl, ◌∙◌, ◌∷◌, ◌≡◌}
use google_messages_multidev.Prelude.Lists.{length}
use google_messages_multidev.Prelude.Tests.{if◌then◌else◌}
use google_messages_multidev.Prelude.Text.{Text, text_lt, text_lt_asym, text_lt_trans}

unfoldable pub insert_text : Text → List Text → List Text
insert_text u [] = u ∷ []
insert_text u (v ∷ vs) = let rest = insert_text u vs in if text_lt v u then v ∷ rest else u ∷ v ∷ vs

unfoldable pub sort_texts : List Text → List Text
unfolding insert_text
sort_texts [] = []
sort_texts (u ∷ us) = insert_text u (sort_texts us)

text_lt_total : (u v : Text) → text_lt u v ≡ false → text_lt v u ≡ false → u ≡ v
unfolding text_lt
text_lt_total [] [] h k = refl
text_lt_total [] (b ∷ v) h k = cc
text_lt_total (a ∷ u) [] h k = cc
text_lt_total (a ∷ u) (b ∷ v) h k = ground (arith, text_lt_total u v)

insert-insert :
    (u v : Text) (ws : List Text)
    → insert_text u (insert_text v ws) ≡ insert_text v (insert_text u ws)
unfolding insert_text
insert-insert u v [] = ground (arith, text_lt_total u v, text_lt_asym u v)
insert-insert u v (w ∷ ws) = ground (
  arith,
  insert-insert u v ws,
  text_lt_total u v,
  text_lt_asym u v,
  text_lt_trans u v w,
  text_lt_trans v u w,
  text_lt_total v w,
  text_lt_total u w,
  text_lt_asym w u,
  text_lt_asym w v,
  text_lt_trans v w u,
  text_lt_trans u w v,
  text_lt_trans w u v,
  text_lt_trans w v u,
)

sort-Permᴰ : {us vs : List Text} → Permᴰ us vs → sort_texts us ≡ sort_texts vs
unfolding sort_texts
sort-Permᴰ Permᴰ.nil = refl
sort-Permᴰ (Permᴰ.cons {a} {b} {l₁} {l₂} e p) = ground (arith, e, sort-Permᴰ p)
sort-Permᴰ (Permᴰ.swap {a} {b} {l = l} e f) =
    insert-insert a b (sort_texts l) ∙ ground (arith, e, f)
sort-Permᴰ (Permᴰ.trans p q) = sort-Permᴰ p ∙ sort-Permᴰ q

-- The order of what is sorted is forgotten.
pub sort_texts-Perm : {us vs : List Text} → Perm us vs → sort_texts us ≡ sort_texts vs
sort_texts-Perm p = ∥∥₁_elim p (hlevel ℕ_set) sort-Permᴰ

length-Permᴰ : {us vs : List Text} → Permᴰ us vs → length us ≡ length vs
length-Permᴰ Permᴰ.nil = refl
length-Permᴰ (Permᴰ.cons e p) = ground (arith, length-Permᴰ p)
length-Permᴰ (Permᴰ.swap e f) = refl
length-Permᴰ (Permᴰ.trans p q) = length-Permᴰ p ∙ length-Permᴰ q

pub length-Perm : {us vs : List Text} → Perm us vs → length us ≡ length vs
length-Perm p = ∥∥₁_elim p (ℕ_set _ _) length-Permᴰ
