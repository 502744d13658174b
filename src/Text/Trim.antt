-- ===== src/Text/Trim.antt =====
-- What trimming leaves alone.
use mathlib.Core.List.{reverse, reverse-append, reverse-reverse}
use lddm.Base.{ℕ, ◌≡◌, refl, ap, sym, ◌∙◌, Bool, true, false, not, ◌&&◌, [], ◌∷◌, ◌++◌, arith}
use lddm.Text.{Text, is_blank, drop_blanks, trim}

pub reverse-snoc : (t : Text) (d : ℕ) → reverse (t ++ d ∷ []) ≡ d ∷ reverse t
reverse-snoc t d = reverse-append t (d ∷ [])

-- A text between two bytes that are no blanks.
pub trim_solid :
    (c : ℕ) (t : Text) (d : ℕ)
    → is_blank c ≡ false
    → is_blank d ≡ false
    → trim (c ∷ (t ++ d ∷ [])) ≡ c ∷ (t ++ d ∷ [])
unfolding trim drop_blanks
trim_solid c t d hc hd = rw hc (
    rw (reverse-snoc (c ∷ t) d)
      (rw hd (ap reverse (sym (reverse-snoc (c ∷ t) d)) ∙ reverse-reverse (c ∷ (t ++ d ∷ [])))))

abbrev pub no_blanks : Text → Bool
no_blanks [] = true
no_blanks (c ∷ cs) = not (is_blank c) && no_blanks cs

no_blanks-append :
    (s t : Text) → no_blanks s ≡ true → no_blanks t ≡ true → no_blanks (s ++ t) ≡ true
no_blanks-append [] t hs ht = ht
no_blanks-append (c ∷ s) t hs ht = ground (arith, no_blanks-append s t)

no_blanks-reverse : (t : Text) → no_blanks t ≡ true → no_blanks (reverse t) ≡ true
no_blanks-reverse [] h = refl
no_blanks-reverse (c ∷ t) h = rw (reverse-append (c ∷ []) t) (
    no_blanks-append (reverse t) (c ∷ []) (no_blanks-reverse t (ground (arith, h)))
      (ground (arith, h)))

drop_blanks_none : (t : Text) → no_blanks t ≡ true → drop_blanks t ≡ t
unfolding drop_blanks
drop_blanks_none [] h = refl
drop_blanks_none (c ∷ t) h = ground (arith, h)

pub trim_word : (t : Text) → no_blanks t ≡ true → trim t ≡ t
unfolding trim
trim_word t h =
    rw (drop_blanks_none t h)
      (rw (drop_blanks_none (reverse t) (no_blanks-reverse t h)) (reverse-reverse t))
