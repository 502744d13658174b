-- ===== src/Config/Writer/Entries.antt =====
-- How src/config/config_parser.cpp reads the lines that the writer writes.
use mathlib.Core.List.{reverse, reverse-reverse, append_assoc}
use lddm.Base.{
  ℕ, ◌%◌, ◌<◌, ◌^◌, ◌≡◌, refl, Bool, true, false, ◌&&◌, ◌||◌, [], ◌∷◌, ◌++◌, some, arith, ◌==◌, leb,
  length, length-append,
}
use lddm.Text.{Text, trim}
use lddm.Text.Laws.{is_line}
use lddm.Text.Trim.{trim_solid, trim_word, no_blanks, reverse-snoc}
use lddm.Text.Decimal.{decimal, no_bytes-decimal, stoul-decimal, no_blanks-decimal}
use lddm.Config.Lines.{first, is_section, section_name, split_entry}
use lddm.Config.Values.{strip_quotes, lower, parse_bool, parse_uint32}
use lddm.Config.Parser.{heading, entry, read_line}
use lddm.Config.Writer.{entry_line, heading_line, bool_text}

-- A small letter or '_'.
abbrev pub is_word_byte : ℕ → Bool
is_word_byte c = (leb 97 c && leb c 122) || c == 95

abbrev pub is_word : Text → Bool
is_word [] = true
is_word (c ∷ cs) = is_word_byte c && is_word cs

-- A key or the name of a section: one byte at least.
abbrev pub is_name : Text → Bool
is_name [] = false
is_name (c ∷ cs) = is_word (c ∷ cs)

no_blanks_word : (t : Text) → is_word t ≡ true → no_blanks t ≡ true
no_blanks_word [] h = refl
no_blanks_word (c ∷ t) h = ground (arith, no_blanks_word t)

pub is_line_word : (t : Text) → is_word t ≡ true → is_line t ≡ true
is_line_word [] h = refl
is_line_word (c ∷ t) h = ground (arith, is_line_word t)

lower_word : (t : Text) → is_word t ≡ true → lower t ≡ t
unfolding lower
lower_word [] h = refl
lower_word (c ∷ t) h = ground (arith, lower_word t)

section_name_lem : (c d : ℕ) (t : Text) → section_name (c ∷ (t ++ d ∷ [])) ≡ t
unfolding section_name
section_name_lem c d t = rw (reverse-snoc t d) (reverse-reverse t)

split_entry_word : (k v : Text) → is_word k ≡ true → split_entry (k ++ 61 ∷ v) ≡ some (k, v)
unfolding split_entry
split_entry_word [] v h = refl
split_entry_word (c ∷ k) v h = rw (split_entry_word k v (ground (arith, h))) (ground (arith, h))

last_lem : (c d : ℕ) (t : Text) → first (reverse (c ∷ (t ++ d ∷ []))) ≡ d
last_lem c d t = rw (reverse-snoc (c ∷ t) d) refl

two_bytes : (c d : ℕ) (t : Text) → leb 2 (length (c ∷ (t ++ d ∷ []))) ≡ true
two_bytes c d t = rw (length-append t (d ∷ [])) (ground arith)

strip_quotes_lem : (v : Text) → strip_quotes (trim (34 ∷ (v ++ 34 ∷ []))) ≡ v
unfolding strip_quotes
strip_quotes_lem v =
    rw (trim_solid 34 v 34 refl refl)
      (rw (two_bytes 34 34 v) (rw (last_lem 34 34 v) (section_name_lem 34 34 v)))

-- What tells an entry from a comment and a heading is its first byte.
is_entry :
    (c : ℕ) (t : Text)
    → is_word_byte c ≡ true
    → ((c == 35 || c == 59) ≡ false) × (is_section (c ∷ (t ++ 34 ∷ [])) ≡ false)
unfolding is_section
is_entry c t h = ground (arith, h)

split_entry_line :
    (k v : Text)
    → is_word k ≡ true
    → split_entry ((k ++ 61 ∷ 34 ∷ v) ++ 34 ∷ []) ≡ some (k, 34 ∷ (v ++ 34 ∷ []))
split_entry_line k v h =
    rw (append_assoc k (61 ∷ 34 ∷ v) (34 ∷ [])) (split_entry_word k (34 ∷ (v ++ 34 ∷ [])) h)

pub read_line-entry_line : (k v : Text) → is_name k ≡ true → read_line (entry_line k v) ≡ entry k v
unfolding read_line entry_line
read_line-entry_line [] v h = ground (arith, h)
read_line-entry_line (c ∷ k) v h =
    rw (trim_solid c (k ++ 61 ∷ 34 ∷ v) 34 (ground (arith, h)) refl) (
      rw (is_entry c (k ++ 61 ∷ 34 ∷ v) (ground (arith, h))).0 (
        rw (is_entry c (k ++ 61 ∷ 34 ∷ v) (ground (arith, h))).1 (
          rw (split_entry_line (c ∷ k) v h)
            (rw (trim_word (c ∷ k) (no_blanks_word (c ∷ k) h)) (rw (strip_quotes_lem v) refl)))))

pub read_line-heading_line : (s : Text) → is_word s ≡ true → read_line (heading_line s) ≡ heading s
unfolding read_line is_section
read_line-heading_line s h = rw (trim_solid 91 s 93 refl refl) (
    rw (last_lem 91 93 s) (
      rw (section_name_lem 91 93 s)
        (rw (trim_word s (no_blanks_word s h)) (rw (lower_word s h) refl))))

pub parse_bool-bool_text : (b default : Bool) → parse_bool (bool_text b) default ≡ b
unfolding parse_bool
parse_bool-bool_text true default = refl
parse_bool-bool_text false default = refl

small : (n : ℕ) → n < 2 ^ 32 → n % 2 ^ 32 ≡ n
small n h = ground (arith, h)

pub parse_uint32-decimal : (n default : ℕ) → n < 2 ^ 32 → parse_uint32 (decimal n) default ≡ n
unfolding parse_uint32
parse_uint32-decimal n default h =
    rw (trim_word (decimal n) (no_blanks-decimal n))
      (rw (no_bytes-decimal n) (rw (stoul-decimal n (omega (arith, h))) (small n h)))
