-- ===== src/Prelude/Utf8.antt =====
-- `utf8.ValidString`, `strings.TrimSpace` and `strings.ContainsAny` over the bytes of a string.
use google_messages_multidev.Prelude.Core.{
  Bool, [], false, refl, suc, true, zero, ℕ, ◌&&◌, ◌||◌, ◌∷◌, ◌≡◌,
}
use google_messages_multidev.Prelude.Tests.{if◌then◌else◌, leb, ltb, ◌==◌}
use google_messages_multidev.Prelude.Text.{Text}
use mathlib.Core.List.{reverse}

abbrev within : ℕ → ℕ → ℕ → Bool
within low high b = leb low b && leb b high

abbrev continues : ℕ → Bool
continues b = within 128 191 b

-- The second byte of an encoding of three or four.
unfoldable second_ok : ℕ → ℕ → Bool
second_ok a b =
    if a == 224
    then within 160 191 b
    else if a == 237
    then within 128 159 b
    else if a == 240
    then within 144 191 b
    else if a == 244
    then within 128 143 b
    else continues b

-- The length of the encoding at the front, 0 if there is none.
unfoldable pub rune_length : Text → ℕ
unfolding second_ok
rune_length [] = 0
rune_length (a ∷ []) = if ltb a 128 then 1 else 0
rune_length (a ∷ b ∷ []) = if ltb a 128 then 1 else if within 194 223 a && continues b then 2 else 0
rune_length (a ∷ b ∷ c ∷ []) =
    if ltb a 128
    then 1
    else if within 194 223 a && continues b
    then 2
    else if second_ok a b && (within 224 239 a && continues c)
    then 3
    else 0
rune_length (a ∷ b ∷ c ∷ d ∷ rest) =
    if ltb a 128
    then 1
    else if within 194 223 a && continues b
    then 2
    else if second_ok a b && (within 224 239 a && continues c)
    then 3
    else if second_ok a b && (within 240 244 a && (continues c && continues d))
    then 4
    else 0

-- The rest of a text behind a rune is skipped byte by byte.
unfoldable pub valid_behind : ℕ → Text → Bool
unfolding rune_length
valid_behind zero [] = true
valid_behind (suc n) [] = false
valid_behind (suc n) (b ∷ bs) = valid_behind n bs
valid_behind zero (b ∷ bs) =
    let go_on : ℕ → Bool = λ n. valid_behind n bs in
    elim (rune_length (b ∷ bs)) [ zero ↦ false | suc n ↦ go_on n ]

-- `utf8.ValidString`.
unfoldable pub is_utf8 : Text → Bool
unfolding valid_behind
is_utf8 s = valid_behind 0 s

unfoldable three_spaces : ℕ → ℕ → ℕ → Bool
three_spaces a b c =
    ((a == 225) && ((b == 154) && (c == 128)))
    || (((a == 226)
          && ((b == 128) && (within 128 138 c || ((c == 168) || ((c == 169) || (c == 175))))))
        || (((a == 226) && ((b == 129) && (c == 159)))
            || ((a == 227) && ((b == 128) && (c == 128)))))

-- The white spaces beyond ASCII: U+0085, U+00A0, U+1680, U+2000 to U+200A, U+2028, U+2029, U+202F,
-- U+205F and U+3000.
unfoldable wide_space : ℕ → Text → ℕ
unfolding three_spaces
wide_space a [] = 0
wide_space a (b ∷ []) = if (a == 194) && ((b == 133) || (b == 160)) then 2 else 0
wide_space a (b ∷ c ∷ rest) =
    if (a == 194) && ((b == 133) || (b == 160)) then 2 else if three_spaces a b c then 3 else 0

unfoldable back_wide_space : ℕ → Text → ℕ
unfolding three_spaces
back_wide_space c [] = 0
back_wide_space c (b ∷ []) = if (b == 194) && ((c == 133) || (c == 160)) then 2 else 0
back_wide_space c (b ∷ a ∷ rest) =
    if (b == 194) && ((c == 133) || (c == 160)) then 2 else if three_spaces a b c then 3 else 0

-- The length of a white space at the front, 0 if there is none.
unfoldable pub space_length : Text → ℕ
unfolding wide_space
space_length [] = 0
space_length (a ∷ rest) = if within 9 13 a || (a == 32) then 1 else wide_space a rest

-- The same at the end, in a text that is read backwards.
unfoldable pub back_space_length : Text → ℕ
unfolding back_wide_space
back_space_length [] = 0
back_space_length (a ∷ rest) = if within 9 13 a || (a == 32) then 1 else back_wide_space a rest

unfoldable pub trim_front : ℕ → Text → Text
unfolding space_length
trim_front n [] = []
trim_front (suc n) (b ∷ bs) = trim_front n bs
trim_front zero (b ∷ bs) =
    let go_on : ℕ → Text = λ n. trim_front n bs in
    elim (space_length (b ∷ bs)) [ zero ↦ b ∷ bs | suc n ↦ go_on n ]

unfoldable pub trim_back : ℕ → Text → Text
unfolding back_space_length
trim_back n [] = []
trim_back (suc n) (b ∷ bs) = trim_back n bs
trim_back zero (b ∷ bs) =
    let go_on : ℕ → Text = λ n. trim_back n bs in
    elim (back_space_length (b ∷ bs)) [ zero ↦ b ∷ bs | suc n ↦ go_on n ]

-- `strings.TrimSpace`.
unfoldable pub trim_space : Text → Text
unfolding trim_front trim_back
trim_space s = reverse (trim_back 0 (reverse (trim_front 0 s)))

unfoldable has_byte : ℕ → Text → Bool
has_byte c [] = false
has_byte c (b ∷ bs) = (b == c) || has_byte c bs

-- `strings.ContainsAny` for ASCII characters.
unfoldable pub contains_any : Text → Text → Bool
unfolding has_byte
contains_any s [] = false
contains_any s (c ∷ cs) = has_byte c s || contains_any s cs

trim_space_example :
    trim_space (194 ∷ 160 ∷ 32 ∷ 97 ∷ 32 ∷ 98 ∷ 226 ∷ 128 ∷ 137 ∷ 10 ∷ []) ≡ 97 ∷ 32 ∷ 98 ∷ []
unfolding trim_space
trim_space_example = refl

is_utf8_example : is_utf8 (226 ∷ 128 ∷ 137 ∷ 97 ∷ []) ≡ true
unfolding is_utf8
is_utf8_example = refl

surrogate_example : is_utf8 (237 ∷ 160 ∷ 128 ∷ []) ≡ false
unfolding is_utf8
surrogate_example = refl
