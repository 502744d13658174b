-- ===== src/Text/Numbers.antt =====
-- std::stoul, in the C locale.
use lddm.Base.{
  ℕ, ◌+◌, ◌-◌, ◌*◌, ◌%◌, ◌^◌, Bool, false, ◌&&◌, ◌||◌, [], ◌∷◌, Option, none, some, ◌==◌, ltb, leb,
  if◌then◌else◌,
}
use lddm.Text.{Text}

abbrev pub is_digit : ℕ → Bool
is_digit c = leb 48 c && leb c 57

-- The digits that a text begins with, after those of `n`; `none` when there is no digit at all.
unfoldable pub read_digits : ℕ → Text → ℕ
read_digits n [] = n
read_digits n (c ∷ cs) =
    let rest = read_digits (n * 10 + (c - 48)) cs in if is_digit c then rest else n

abbrev pub starts_with_digit : Text → Bool
starts_with_digit [] = false
starts_with_digit (c ∷ cs) = is_digit c

-- std::stoul of an unsigned text: `none` when it throws.
unfoldable pub read_unsigned : Text → Option ℕ
unfolding read_digits
read_unsigned t =
    if starts_with_digit t
    then (if ltb (read_digits 0 t) (2 ^ 64) then some (read_digits 0 t) else none)
    else none

-- std::isspace
abbrev pub is_space : ℕ → Bool
is_space c = c == 32 || (leb 9 c && leb c 13)

unfoldable pub skip_spaces : Text → Text
skip_spaces [] = []
skip_spaces (c ∷ cs) = if is_space c then skip_spaces cs else c ∷ cs

-- With its sign: a negative number wraps around.
unfoldable pub read_signed : Text → Option ℕ
unfolding read_unsigned
read_signed [] = none
read_signed (c ∷ cs) =
    if c == 45
    then elim (read_unsigned cs) [ none ↦ none | some n ↦ some ((2 ^ 64 - n) % 2 ^ 64) ]
    else if c == 43
    then read_unsigned cs
    else read_unsigned (c ∷ cs)

unfoldable pub stoul : Text → Option ℕ
unfolding read_signed skip_spaces
stoul t = read_signed (skip_spaces t)
