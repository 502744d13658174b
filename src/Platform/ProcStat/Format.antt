-- ===== src/Platform/ProcStat/Format.antt =====
-- What the function reads in a file of the kernel's format, `<pid> (<name>) <state> <numbers>`.
use lddm.Base.{
  ℕ, zero, suc, ◌+◌, ◌-◌, ◌<◌, ◌≡◌, refl, ap, sym, ◌∙◌, false, ◌||◌, [], ◌∷◌, ◌++◌, none, some,
  arith, ◌==◌, All, length, Bool-cases, inl, inr,
}
use lddm.Text.{Text}
use lddm.Text.Laws.{IsLine}
use lddm.Platform.ProcStat.{
  fgets, after_last_paren, behind_tells_death, line_tells_death, file_tells_death, StatFile,
  contents, is_process_dead_or_zombie,
}

-- No ')' inside.
abbrev pub HasNoParen : Text → Type 0
HasNoParen = All (λ c. (c == b')') ≡ false)

-- The line: up to the end of the name, the state, and the numbers.
abbrev pub stat_line : Text → ℕ → Text → Text
stat_line head state numbers = head ++ b')' ∷ 32 ∷ state ∷ numbers

fgets-cons : (n c : ℕ) (t : Text) → (c == 10) ≡ false → fgets (suc n) (c ∷ t) ≡ c ∷ fgets n t
unfolding fgets
fgets-cons n c t h = rw h refl

fgets-append : (p t : Text) (m : ℕ) → IsLine p → fgets (length p + m) (p ++ t) ≡ p ++ fgets m t
fgets-append [] t m h = ap (λ (n : ℕ). fgets n t) (omega arith)
fgets-append (c ∷ p) t m h =
    let next : suc (length p) + m ≡ suc (length p + m) = omega arith in
    ap (λ (n : ℕ). fgets n (c ∷ (p ++ t))) next
    ∙ fgets-cons (length p + m) c (p ++ t) h.0
    ∙ ap (λ (u : Text). c ∷ u) (fgets-append p t m h.1)

fgets-HasNoParen : (n : ℕ) (t : Text) → HasNoParen t → HasNoParen (fgets n t)
unfolding fgets
fgets-HasNoParen zero t h = tt
fgets-HasNoParen (suc n) [] h = tt
fgets-HasNoParen (suc n) (c ∷ t) h = elim (Bool-cases (c == 10)) [
  | inl e ↦ rw e (h.0, tt)
  | inr e ↦ rw e (h.0, fgets-HasNoParen n t h.1)
]

after_last_paren-none : (t : Text) → HasNoParen t → after_last_paren t ≡ none
unfolding after_last_paren
after_last_paren-none [] h = refl
after_last_paren-none (c ∷ t) h = ground (arith, h, after_last_paren-none t h.1)

after_last_paren-append : (p t : Text) → HasNoParen t → after_last_paren (p ++ b')' ∷ t) ≡ some t
unfolding after_last_paren
after_last_paren-append [] t h = rw (after_last_paren-none t h) refl
after_last_paren-append (c ∷ p) t h = rw (after_last_paren-append p t h) refl

fgets-tail :
    (k state : ℕ) (numbers : Text)
    → (state == 10) ≡ false
    → fgets (suc (suc (suc k))) (b')' ∷ 32 ∷ state ∷ numbers) ≡ b')' ∷ 32 ∷ state ∷ fgets k numbers
unfolding fgets
fgets-tail k state numbers h = rw h refl

fgets-stat_line :
    (head : Text) (state : ℕ) (numbers : Text)
    → IsLine head
    → length head < 252
    → (state == 10) ≡ false
    → fgets 255 (stat_line head state numbers)
      ≡ head ++ b')' ∷ 32 ∷ state ∷ fgets (252 - length head) numbers
fgets-stat_line head state numbers h short hs =
    let k = 252 - length head in
    let room : length head + suc (suc (suc k)) ≡ 255 = omega arith in
    ap (λ (n : ℕ). fgets n (stat_line head state numbers)) (sym room)
    ∙ fgets-append head (b')' ∷ 32 ∷ state ∷ numbers) (suc (suc (suc k))) h
    ∙ ap (λ (u : Text). head ++ u) (fgets-tail k state numbers hs)

line_tells_death-stat_line :
    (head : Text) (state : ℕ) (numbers : Text)
    → IsLine head
    → length head < 252
    → (state == 10) ≡ false
    → HasNoParen (state ∷ numbers)
    → line_tells_death (stat_line head state numbers) ≡ (state == b'Z' || state == b'X')
line_tells_death-stat_line head state numbers h short hs hn =
    let read = fgets (252 - length head) numbers in
    ap (λ (u : Text). behind_tells_death (after_last_paren u))
      (fgets-stat_line head state numbers h short hs)
    ∙ ap behind_tells_death (
        after_last_paren-append head (32 ∷ state ∷ read)
          (refl, (hn.0, fgets-HasNoParen (252 - length head) numbers hn.1)))

is_process_dead_or_zombie-file :
    (pid : ℕ) (file : StatFile)
    → (pid == 0) ≡ false
    → is_process_dead_or_zombie pid none file ≡ file_tells_death file
unfolding is_process_dead_or_zombie
is_process_dead_or_zombie-file pid file h = rw h refl

-- A process that is in the table, and whose file has the kernel's format, is taken for dead exactly if
-- its state is Z or X, whatever its name, a ')' in it included: there is no newline up to the end of
-- the name, which ends within the buffer, and neither the state nor the numbers hold a ')'.
pub is_process_dead_or_zombie-stat_line :
    (pid : ℕ) (head : Text) (state : ℕ) (numbers : Text)
    → (pid == 0) ≡ false
    → IsLine head
    → length head < 252
    → (state == 10) ≡ false
    → HasNoParen (state ∷ numbers)
    → is_process_dead_or_zombie pid none (contents (stat_line head state numbers))
      ≡ (state == b'Z' || state == b'X')
is_process_dead_or_zombie-stat_line pid head state numbers hp hl short hs hn =
    rw (is_process_dead_or_zombie-file pid (contents (stat_line head state numbers)) hp)
      (line_tells_death-stat_line head state numbers hl short hs hn)
