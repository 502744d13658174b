-- ===== src/Text/Decimal.antt =====
-- Decimal numbers, and reading them back by std::stoul.
use lddm.Base.{
  ℕ, zero, suc, ◌+◌, ◌*◌, ◌/◌, ◌%◌, ◌^◌, ◌≤◌, ◌<◌, ◌≡◌, refl, ap, ◌∙◌, Bool, true, false, ◌&&◌, [],
  ◌∷◌, some, arith, ltb, inl, inr, Bool-cases, ltb→lt, lt→ltb, if◌then◌else◌,
}
use lddm.Text.{Text, no_bytes}
use lddm.Text.Laws.{is_line}
use lddm.Text.Trim.{no_blanks}
use lddm.Text.Numbers.{
  read_digits, read_unsigned, read_signed, skip_spaces, stoul, is_digit, starts_with_digit,
}

-- The digits of `n` before those of `rest`, on fuel.
unfoldable digits_onto : ℕ → ℕ → Text → Text
digits_onto zero n rest = (48 + n % 10) ∷ rest
digits_onto (suc fuel) n rest =
    let more = digits_onto fuel (n / 10) ((48 + n % 10) ∷ rest) in
    if ltb n 10 then (48 + n) ∷ rest else more

-- std::to_string; `n` has at most `n` digits more than one.
unfoldable pub decimal : ℕ → Text
unfolding digits_onto
decimal n = digits_onto n n []

digit_lem : (n : ℕ) → n < 10 → is_digit (48 + n) ≡ true
digit_lem n h = ground (arith, h)

mod_below : (n : ℕ) → n % 10 < 10
mod_below n = omega arith

read_digits_one :
    (m n : ℕ) (rest : Text)
    → n < 10
    → read_digits m ((48 + n) ∷ rest) ≡ read_digits (m * 10 + n) rest
unfolding read_digits
read_digits_one m n rest h =
    rw (digit_lem n h) (ap (λ k. read_digits (m * 10 + k) rest) (omega arith))

read_digits-digits_onto :
    (fuel n : ℕ) (rest : Text)
    → n ≤ fuel
    → read_digits 0 (digits_onto fuel n rest) ≡ read_digits n rest
unfolding digits_onto
read_digits-digits_onto zero n rest h =
    read_digits_one 0 (n % 10) rest (mod_below n) ∙ ap (λ k. read_digits k rest) (omega (arith, h))
read_digits-digits_onto (suc fuel) n rest h = elim (Bool-cases (ltb n 10)) [
  | inl e ↦
      rw (e, digits_onto)
        (read_digits_one 0 n rest (ltb→lt n 10 e) ∙ ap (λ k. read_digits k rest) (omega arith))
  | inr e ↦
      rw (e, digits_onto)
        (read_digits-digits_onto fuel (n / 10) ((48 + n % 10) ∷ rest) (ground (arith, h))
          ∙ read_digits_one (n / 10) (n % 10) rest (mod_below n)
          ∙ ap (λ k. read_digits k rest) (omega arith))
]

abbrev pub all_digits : Text → Bool
all_digits [] = true
all_digits (c ∷ cs) = is_digit c && all_digits cs

digits_onto-digits :
    (fuel n : ℕ) (rest : Text)
    → all_digits rest ≡ true
    → (all_digits (digits_onto fuel n rest) ≡ true)
      × (starts_with_digit (digits_onto fuel n rest) ≡ true)
unfolding digits_onto
digits_onto-digits zero n rest h = rw (digit_lem (n % 10) (mod_below n)) (h, refl)
digits_onto-digits (suc fuel) n rest h = elim (Bool-cases (ltb n 10)) [
  | inl e ↦ rw (e, digits_onto) (rw (digit_lem n (ltb→lt n 10 e)) (h, refl))
  | inr e ↦
      rw (e, digits_onto)
        (digits_onto-digits fuel (n / 10) ((48 + n % 10) ∷ rest)
          (rw (digit_lem (n % 10) (mod_below n)) h))
]

no_blanks_digits : (t : Text) → all_digits t ≡ true → no_blanks t ≡ true
no_blanks_digits [] h = refl
no_blanks_digits (c ∷ t) h = ground (arith, no_blanks_digits t)

is_line_digits : (t : Text) → all_digits t ≡ true → is_line t ≡ true
is_line_digits [] h = refl
is_line_digits (c ∷ t) h = ground (arith, is_line_digits t)

pub no_blanks-decimal : (n : ℕ) → no_blanks (decimal n) ≡ true
unfolding decimal
no_blanks-decimal n = no_blanks_digits (digits_onto n n []) (digits_onto-digits n n [] refl).0

pub is_line-decimal : (n : ℕ) → is_line (decimal n) ≡ true
unfolding decimal
is_line-decimal n = is_line_digits (digits_onto n n []) (digits_onto-digits n n [] refl).0

-- A text that begins with a digit has neither blanks nor a sign to skip.
stoul_digits : (t : Text) → starts_with_digit t ≡ true → stoul t ≡ read_unsigned t
unfolding stoul skip_spaces read_signed
stoul_digits [] h = ground (arith, h)
stoul_digits (c ∷ t) h = ground (arith, h)

starts-decimal : (n : ℕ) → starts_with_digit (decimal n) ≡ true
unfolding decimal
starts-decimal n = (digits_onto-digits n n [] refl).1

starts-no_bytes : (t : Text) → starts_with_digit t ≡ true → no_bytes t ≡ false
starts-no_bytes [] h = ground (arith, h)
starts-no_bytes (c ∷ t) h = refl

pub no_bytes-decimal : (n : ℕ) → no_bytes (decimal n) ≡ false
no_bytes-decimal n = starts-no_bytes (decimal n) (starts-decimal n)

pub read_digits-decimal : (n : ℕ) → read_digits 0 (decimal n) ≡ n
unfolding decimal read_digits
read_digits-decimal n = read_digits-digits_onto n n [] (omega arith)

-- A number of 64 bits that is written is read back.
pub stoul-decimal : (n : ℕ) → n < 2 ^ 64 → stoul (decimal n) ≡ some n
unfolding read_unsigned
stoul-decimal n h =
    stoul_digits (decimal n) (starts-decimal n)
    ∙ rw (starts-decimal n) (rw (read_digits-decimal n) (rw (lt→ltb n (2 ^ 64) h) refl))
