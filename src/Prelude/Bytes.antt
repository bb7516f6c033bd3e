-- ===== src/Prelude/Bytes.antt =====
-- `encoding/binary`'s big-endian numbers: the keys of the event log and the stored counters.

-- `n` bytes of `x`, the highest first.
use google_messages_multidev.Prelude.Core.{
  [], arith, refl, suc, sym, true, zero, ℕ, ◌%◌, ◌&&◌, ◌*◌, ◌++◌, ◌+◌, ◌/◌, ◌<◌, ◌^◌, ◌||◌, ◌∙◌,
  ◌∷◌, ◌≡◌,
}
use google_messages_multidev.Prelude.Lists.{length, length-append}
use google_messages_multidev.Prelude.Tests.{ltb, lt→ltb}
use google_messages_multidev.Prelude.Text.{Text, text_eq, text_eq_refl, text_lt, text_lt_irrefl}
use mathlib.Core.List.{foldl, foldl-append}
use native.Mathlib.Decide.{dec_lt}
use native.Mathlib.Nat.{pow-suc}

unfoldable pub big_endian : ℕ → ℕ → Text
big_endian zero x = []
big_endian (suc n) x = big_endian n (x / 256) ++ (x % 256) ∷ []

abbrev add_byte : ℕ → ℕ → ℕ
add_byte acc b = acc * 256 + b

unfoldable pub from_bytes : Text → ℕ
from_bytes = foldl add_byte 0

pub length-big_endian : (n x : ℕ) → length (big_endian n x) ≡ n
unfolding big_endian
length-big_endian zero x = refl
length-big_endian (suc n) x =
    omega (
      arith,
      length-append (big_endian n (x / 256)) ((x % 256) ∷ []),
      length-big_endian n (x / 256),
    )

pub from_bytes-big_endian : (n x : ℕ) → x < 256 ^ n → from_bytes (big_endian n x) ≡ x
unfolding big_endian from_bytes
from_bytes-big_endian zero x h = omega arith
from_bytes-big_endian (suc n) x h =
    foldl-append add_byte 0 (big_endian n (x / 256)) ((x % 256) ∷ [])
    ∙ omega (arith, from_bytes-big_endian n (x / 256) (omega (arith, pow-suc 256 n)))

text_lt-snoc :
    (u v : Text) (a b : ℕ)
    → length u ≡ length v
    → text_lt (u ++ a ∷ []) (v ++ b ∷ []) ≡ text_lt u v || (text_eq u v && ltb a b)
unfolding text_lt text_eq
text_lt-snoc [] [] a b h = ground arith
text_lt-snoc [] (d ∷ v) a b h = absurd (omega arith)
text_lt-snoc (c ∷ u) [] a b h = absurd (omega arith)
text_lt-snoc (c ∷ u) (d ∷ v) a b h = ground (arith, text_lt-snoc u v a b (omega arith))

-- Byte order is number order, on numbers that fit.
pub text_lt-big_endian :
    (n x y : ℕ) → x < y → y < 256 ^ n → text_lt (big_endian n x) (big_endian n y) ≡ true
unfolding big_endian
text_lt-big_endian zero x y h k = absurd (omega arith)
text_lt-big_endian (suc n) x y h k =
    rw
      (text_lt-snoc (big_endian n (x / 256)) (big_endian n (y / 256)) (x % 256) (y % 256)
        (length-big_endian n (x / 256) ∙ sym (length-big_endian n (y / 256))))
      (elim (dec_lt (x / 256) (y / 256)) [
        | yes p ↦
            ground
              (arith, text_lt-big_endian n (x / 256) (y / 256) p (omega (arith, pow-suc 256 n)))
        | no p ↦ last_byte (omega arith) (omega arith)
      ])
  where
    last_byte :
        x / 256 ≡ y / 256
        → x % 256 < y % 256
        → (text_lt (big_endian n (x / 256)) (big_endian n (y / 256))
            || (text_eq (big_endian n (x / 256)) (big_endian n (y / 256))
                && ltb (x % 256) (y % 256)))
          ≡ true
    last_byte e l =
        rw (e, text_lt_irrefl (big_endian n (y / 256)), text_eq_refl (big_endian n (y / 256)))
          (lt→ltb _ _ l)

-- Eight bytes: `sequence` of the store, and its reading back where the length is right.
abbrev pub uint64_bound : ℕ
uint64_bound = 256 ^ 8
