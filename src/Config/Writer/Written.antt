-- ===== src/Config/Writer/Written.antt =====
-- The lines of the reference writer, as lines and as src/config/config_parser.cpp reads them.
use lddm.Base.{◌≡◌, refl, Bool, true, ◌&&◌, List, [], ◌∷◌, ◌++◌, arith, All}
use lddm.Text.{Text}
use lddm.Text.Laws.{is_line, IsLine, is_line-IsLine}
use lddm.Config.Parser.{read_lines}
use lddm.Config.Writer.{
  entry_line, heading_line, write_entries, write_sections, has_lines, all_have_lines,
  lines_of_entries, lines_of,
}
use lddm.Config.Writer.Entries.{
  is_word, is_name, is_line_word, read_line-entry_line, read_line-heading_line,
}

abbrev are_named : List (Text × Text) → Bool
are_named [] = true
are_named ((k, v) ∷ es) = is_name k && are_named es

abbrev pub all_named : List (Text × List (Text × Text)) → Bool
all_named [] = true
all_named ((s, es) ∷ ss) = is_word s && (are_named es && all_named ss)

read_lines-write_entries :
    (es : List (Text × Text)) (rest : List Text)
    → are_named es ≡ true
    → read_lines (write_entries es rest) ≡ lines_of_entries es (read_lines rest)
unfolding read_lines
read_lines-write_entries [] rest h = refl
read_lines-write_entries ((k, v) ∷ es) rest h =
    rw (read_line-entry_line k v (ground (arith, h)))
      (rw (read_lines-write_entries es rest (ground (arith, h))) refl)

pub read_lines-write_sections :
    (ss : List (Text × List (Text × Text)))
    → all_named ss ≡ true
    → read_lines (write_sections ss) ≡ lines_of ss
unfolding read_lines
read_lines-write_sections [] h = refl
read_lines-write_sections ((s, es) ∷ ss) h = rw (read_line-heading_line s (ground (arith, h))) (
    rw (read_lines-write_entries es (write_sections ss) (ground (arith, h)))
      (rw (read_lines-write_sections ss (ground (arith, h))) refl))

is_line-append : (s t : Text) → is_line s ≡ true → is_line t ≡ true → is_line (s ++ t) ≡ true
is_line-append [] t hs ht = ht
is_line-append (c ∷ s) t hs ht = ground (arith, is_line-append s t)

is_word_name : (k : Text) → is_name k ≡ true → is_word k ≡ true
is_word_name [] h = refl
is_word_name (c ∷ k) h = h

is_line-entry_line :
    (k v : Text) → is_name k ≡ true → is_line v ≡ true → is_line (entry_line k v) ≡ true
unfolding entry_line
is_line-entry_line k v hk hv =
    is_line-append (k ++ 61 ∷ 34 ∷ v) (34 ∷ [])
      (is_line-append k (61 ∷ 34 ∷ v) (is_line_word k (is_word_name k hk)) hv) refl

write_entries-IsLine :
    (es : List (Text × Text)) (rest : List Text)
    → are_named es ≡ true
    → has_lines es ≡ true
    → All IsLine rest
    → All IsLine (write_entries es rest)
write_entries-IsLine [] rest hk hv hr = hr
write_entries-IsLine ((k, v) ∷ es) rest hk hv hr = (
  is_line-IsLine (entry_line k v)
      (is_line-entry_line k v (ground (arith, hk)) (ground (arith, hv))),
  write_entries-IsLine es rest (ground (arith, hk)) (ground (arith, hv)) hr,
)

pub write_sections-IsLine :
    (ss : List (Text × List (Text × Text)))
    → all_named ss ≡ true
    → all_have_lines ss ≡ true
    → All IsLine (write_sections ss)
write_sections-IsLine [] hk hv = tt
write_sections-IsLine ((s, es) ∷ ss) hk hv = (
  is_line-IsLine (heading_line s)
      (is_line-append s (93 ∷ []) (is_line_word s (ground (arith, hk))) refl),
  write_entries-IsLine es (write_sections ss) (ground (arith, hk)) (ground (arith, hv))
      (write_sections-IsLine ss (ground (arith, hk)) (ground (arith, hv))),
)
