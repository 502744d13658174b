-- ===== src/Recovery/Window.antt =====
-- Times within a sliding window: how many are not expired, and what a purge leaves of them.
use lddm.Base.{ℕ, suc, ◌≤◌, ◌≡◌, refl, Bool, List, [], ◌∷◌, ◌++◌, if◌then◌else◌, arith, length}
use lddm.Recovery.Manager.{is_expired, purge_expired}

-- The number of times that are not expired.
unfoldable pub count_within : ℕ → ℕ → List ℕ → ℕ
count_within window now [] = 0
count_within window now (t ∷ ts) =
    let rest = count_within window now ts in if is_expired window now t then rest else suc rest

count_within-purge :
    (window now later : ℕ) (ts : List ℕ)
    → now ≤ later
    → count_within window later (purge_expired window now ts) ≡ count_within window later ts
unfolding count_within purge_expired
count_within-purge window now later [] h = refl
count_within-purge window now later (t ∷ ts) h =
    ground (arith, count_within-purge window now later ts h)

pub length-purge : (window now : ℕ) (ts : List ℕ) → length (purge_expired window now ts) ≤ length ts
unfolding purge_expired
length-purge window now [] = omega arith
length-purge window now (t ∷ ts) = ground (arith, length-purge window now ts)

pub count_within-le : (window now : ℕ) (ts : List ℕ) → count_within window now ts ≤ length ts
unfolding count_within
count_within-le window now [] = omega arith
count_within-le window now (t ∷ ts) = ground (arith, count_within-le window now ts)

count_within-append :
    (window now t : ℕ) (ts : List ℕ)
    → count_within window now (ts ++ t ∷ []) ≡ count_within window now (t ∷ ts)
unfolding count_within
count_within-append window now t [] = refl
count_within-append window now t (x ∷ ts) = ground (arith, count_within-append window now t ts)

-- The executed recoveries within the window are among the attempts, from a time on.
abbrev pub IsCovered : ℕ → ℕ → List ℕ → List ℕ → Type 0
IsCovered window last times ts =
    (now : ℕ) → last ≤ now → count_within window now times ≤ count_within window now ts

pub IsCovered-purge :
    (window last t : ℕ) (times ts : List ℕ)
    → last ≤ t
    → IsCovered window last times ts
    → IsCovered window t times (purge_expired window t ts)
IsCovered-purge window last t times ts h cover now le =
    grind (arith, cover now (omega arith), count_within-purge window t now ts le)

pub IsCovered-new :
    (window last t : ℕ) (times ts : List ℕ) (b : Bool)
    → last ≤ t
    → IsCovered window last times ts
    → IsCovered window t (if b then t ∷ times else times) (purge_expired window t ts ++ t ∷ [])
unfolding count_within
IsCovered-new window last t times ts b h cover now le =
    let rest : List ℕ = purge_expired window t ts in
    ground (
      arith,
      IsCovered-purge window last t times ts h cover now le,
      count_within-append window now t rest,
    )
