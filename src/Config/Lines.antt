-- ===== src/Config/Lines.antt =====
-- The parts of a line that src/config/config_parser.cpp and src/config/config_migrator.cpp read alike.
use mathlib.Core.List.{reverse}
use lddm.Base.{ℕ, zero, suc, Bool, ◌&&◌, [], ◌∷◌, Option, none, some, ◌==◌, if◌then◌else◌}
use lddm.Text.{Text}

abbrev pub first : Text → ℕ
first [] = 0
first (c ∷ cs) = c

abbrev pub tail : Text → Text
tail [] = []
tail (c ∷ cs) = cs

unfoldable pub is_section : Text → Bool
is_section t = first t == 91 && first (reverse t) == 93

unfoldable pub section_name : Text → Text
section_name t = reverse (tail (reverse (tail t)))

-- At the first '='.
unfoldable pub split_entry : Text → Option (Text × Text)
split_entry [] = none
split_entry (c ∷ cs) =
    let rest = split_entry cs in
    if c == 61 then some ([], cs) else elim rest [ none ↦ none | some (k, v) ↦ some (c ∷ k, v) ]

unfoldable pub drop : ℕ → Text → Text
drop zero t = t
drop (suc n) [] = []
drop (suc n) (c ∷ cs) = drop n cs
