-- ===== src/Text.antt =====
-- Text as a list of bytes, with the operations of std::string that the sources use.
pub mod Laws
pub mod Numbers
pub mod Trim
pub mod Decimal
pub mod Words
pub mod Map
use lddm.Base.{
  ℕ, Bool, true, false, ◌&&◌, ◌||◌, List, [], ◌∷◌, ◌++◌, map, String, ◌==◌, if◌then◌else◌,
}
use Prim.Native.Char.{code}
use mathlib.Core.List.{reverse}

abbrev pub Text : Type 0
Text = List ℕ

-- The bytes of an ASCII literal.
abbrev pub bytes : String → Text
bytes String.[] = []
bytes (String.◌∷◌ c s) = code c ∷ bytes s

unfoldable pub same_text : Text → Text → Bool
same_text [] [] = true
same_text [] (y ∷ ys) = false
same_text (x ∷ xs) [] = false
same_text (x ∷ xs) (y ∷ ys) = x == y && same_text xs ys

-- `t` begins with `p`: `t.rfind(p, 0) == 0`.
unfoldable pub begins_with : Text → Text → Bool
begins_with t [] = true
begins_with [] (y ∷ ys) = false
begins_with (x ∷ xs) (y ∷ ys) = x == y && begins_with xs ys

abbrev pub no_bytes : Text → Bool
no_bytes [] = true
no_bytes (c ∷ cs) = false

-- " \t\r\n"
abbrev pub is_blank : ℕ → Bool
is_blank c = c == 32 || c == 9 || c == 13 || c == 10

unfoldable pub drop_blanks : Text → Text
drop_blanks [] = []
drop_blanks (c ∷ cs) = if is_blank c then drop_blanks cs else c ∷ cs

-- From `find_first_not_of` to `find_last_not_of`.
unfoldable pub trim : Text → Text
unfolding drop_blanks
trim t = reverse (drop_blanks (reverse (drop_blanks t)))

abbrev pub add_to_first : ℕ → List Text → List Text
add_to_first c [] = (c ∷ []) ∷ []
add_to_first c (l ∷ ls) = (c ∷ l) ∷ ls

-- What repeated `std::getline` reads: no line after a final newline.
unfoldable pub lines : Text → List Text
lines [] = []
lines (c ∷ cs) = if c == 10 then [] ∷ lines cs else add_to_first c (lines cs)

-- Lines written out, each with a newline.
unfoldable pub unlines : List Text → Text
unlines [] = []
unlines (l ∷ ls) = l ++ 10 ∷ unlines ls
