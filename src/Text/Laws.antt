-- ===== src/Text/Laws.antt =====
-- Laws of the text operations.
use mathlib.Core.List.{append_assoc}
use lddm.Base.{
  ℕ, ◌≡◌, refl, Bool, true, false, not, ◌&&◌, ◌||◌, List, [], ◌∷◌, ◌++◌, arith, ◌==◌, All,
  Bool-cases, inl, inr,
}
use lddm.Text.{Text, same_text, lines, unlines, add_to_first}

pub same_text_refl : (t : Text) → same_text t t ≡ true
unfolding same_text
same_text_refl [] = refl
same_text_refl (x ∷ xs) = ground (arith, same_text_refl xs)

-- One of the texts.
abbrev pub is_one_of : Text → List Text → Bool
is_one_of t [] = false
is_one_of t (p ∷ ps) = same_text p t || is_one_of t ps

-- No newline inside.
abbrev pub IsLine : Text → Type 0
IsLine = All (λ c. (c == 10) ≡ false)

abbrev pub is_line : Text → Bool
is_line [] = true
is_line (c ∷ cs) = not (c == 10) && is_line cs

pub is_line-IsLine : (t : Text) → is_line t ≡ true → IsLine t
is_line-IsLine [] h = tt
is_line-IsLine (c ∷ cs) h = (ground arith, is_line-IsLine cs (ground arith))

lines-cons : (l : Text) (t : Text) → IsLine l → lines (l ++ 10 ∷ t) ≡ l ∷ lines t
unfolding lines
lines-cons [] t h = refl
lines-cons (c ∷ l) t h = rw h.0 (rw (lines-cons l t h.1) refl)

-- Lines that are written out are read back.
pub lines-unlines : (ls : List Text) → All IsLine ls → lines (unlines ls) ≡ ls
unfolding unlines lines
lines-unlines [] h = refl
lines-unlines (l ∷ ls) h = rw (lines-cons l (unlines ls) h.0) (rw (lines-unlines ls h.1) refl)

pub lines-append :
    (ls : List Text) (t : Text) → All IsLine ls → lines (unlines ls ++ t) ≡ ls ++ lines t
unfolding unlines
lines-append [] t h = refl
lines-append (l ∷ ls) t h =
    rw (append_assoc l (10 ∷ unlines ls) t)
      (rw (lines-cons l (unlines ls ++ t) h.0) (rw (lines-append ls t h.1) refl))

add_to_first-IsLine :
    (c : ℕ) (ls : List Text) → (c == 10) ≡ false → All IsLine ls → All IsLine (add_to_first c ls)
add_to_first-IsLine c [] e h = ((e, tt), tt)
add_to_first-IsLine c (l ∷ ls) e h = ((e, h.0), h.1)

-- What is read as a line holds no newline.
pub lines-IsLine : (t : Text) → All IsLine (lines t)
unfolding lines
lines-IsLine [] = tt
lines-IsLine (c ∷ cs) = elim (Bool-cases (c == 10)) [
  | inl e ↦ rw e (tt, lines-IsLine cs)
  | inr e ↦ rw e (add_to_first-IsLine c (lines cs) e (lines-IsLine cs))
]
