-- ===== src/Platform/UniqueFd/Ledger.antt =====
-- No descriptor is lost, and none is closed twice.
use lddm.Base.{
  ℕ, zero, suc, ◌+◌, Bool, true, false, List, [], ◌∷◌, ◌++◌, Option, none, ◌≡◌, refl, ◌∙◌, arith,
  ◌==◌, if◌then◌else◌, Bool-cases, inl, inr,
}
use lddm.Platform.UniqueFd.{
  Owners, slot, set_slot, descriptors, owned, create, reset, release, give_up, move_from,
  move_assign, destroy_all,
}

pub data Use : Type 0 where
  created : Option ℕ → Use
  was_reset : ℕ → Option ℕ → Use
  given_up : ℕ → Use
  moved_from : ℕ → Use
  assigned : ℕ → ℕ → Use

-- There is an owner at a position.
abbrev pub has_slot : List (Option ℕ) → ℕ → Bool
has_slot [] i = false
has_slot (o ∷ os) zero = true
has_slot (o ∷ os) (suc i) = has_slot os i

-- A program has no owner to call where there is none.
abbrev pub use_one : Use → Owners → Owners
use_one (created fd) s = create fd s
use_one (was_reset i fd) s = if has_slot s.slots i then reset i fd s else s
use_one (given_up i) s = give_up i s
use_one (moved_from j) s = move_from j s
use_one (assigned i j) s = if has_slot s.slots i then move_assign i j s else s

unfoldable pub use_all : List Use → Owners → Owners
use_all [] s = s
use_all (u ∷ us) s = use_all us (use_one u s)

-- How often a descriptor stands in a list.
abbrev pub count : ℕ → List ℕ → ℕ
count n [] = 0
count n (x ∷ xs) = let rest = count n xs in if x == n then suc rest else rest

count-append : (n : ℕ) (xs ys : List ℕ) → count n (xs ++ ys) ≡ count n xs + count n ys
count-append n [] ys = omega arith
count-append n (x ∷ xs) ys = ground (arith, count-append n xs ys)

-- The descriptors that a use brings under an owner.
abbrev pub adopted_by : Use → Owners → List ℕ
adopted_by (created fd) s = descriptors fd
adopted_by (was_reset i fd) s = if has_slot s.slots i then descriptors fd else []
adopted_by (given_up i) s = []
adopted_by (moved_from j) s = []
adopted_by (assigned i j) s = []

abbrev pub adopted : List Use → Owners → List ℕ
adopted [] s = []
adopted (u ∷ us) s = adopted_by u s ++ adopted us (use_one u s)

abbrev pub nobody : Owners
nobody = record { slots = []; closed = []; released = [] }

-- Where a descriptor may be.
abbrev pub total : ℕ → Owners → ℕ
total n s = count n (owned s.slots) + count n s.closed + count n s.released

has_slot-set_slot :
    (os : List (Option ℕ)) (i j : ℕ) (o : Option ℕ) → has_slot (set_slot os j o) i ≡ has_slot os i
has_slot-set_slot [] i j o = refl
has_slot-set_slot (p ∷ os) zero zero o = refl
has_slot-set_slot (p ∷ os) zero (suc j) o = refl
has_slot-set_slot (p ∷ os) (suc i) zero o = refl
has_slot-set_slot (p ∷ os) (suc i) (suc j) o = has_slot-set_slot os i j o

module _ (n : ℕ) where
  count-set_slot :
      (os : List (Option ℕ)) (i : ℕ) (o : Option ℕ)
      → has_slot os i ≡ true
      → count n (owned (set_slot os i o)) + count n (descriptors (slot os i))
        ≡ count n (owned os) + count n (descriptors o)
  count-set_slot [] i o h = cc
  count-set_slot (p ∷ os) zero o h =
      omega (
        arith,
        count-append n (descriptors p) (owned os),
        count-append n (descriptors o) (owned os),
      )
  count-set_slot (p ∷ os) (suc i) o h = omega (
    arith,
    count-append n (descriptors p) (owned os),
    count-append n (descriptors p) (owned (set_slot os i o)),
    count-set_slot os i o h,
  )

  count-release :
      (os : List (Option ℕ)) (i : ℕ)
      → count n (owned (set_slot os i none)) + count n (descriptors (slot os i))
        ≡ count n (owned os)
  count-release [] i = refl
  count-release (p ∷ os) zero = omega (arith, count-append n (descriptors p) (owned os))
  count-release (p ∷ os) (suc i) = omega (
    arith,
    count-append n (descriptors p) (owned os),
    count-append n (descriptors p) (owned (set_slot os i none)),
    count-release os i,
  )

  total-reset :
      (i : ℕ) (fd : Option ℕ) (s : Owners)
      → has_slot s.slots i ≡ true
      → total n (reset i fd s) ≡ total n s + count n (descriptors fd)
  unfolding reset
  total-reset i fd s h =
      omega (
        arith,
        count-set_slot s.slots i fd h,
        count-append n s.closed (descriptors (slot s.slots i)),
      )

  total-release :
      (j : ℕ) (s : Owners)
      → total n (release j s).1 + count n (descriptors (release j s).0) ≡ total n s
  unfolding release
  total-release j s = omega (arith, count-release s.slots j)

  total-create :
      (fd : Option ℕ) (s : Owners) → total n (create fd s) ≡ total n s + count n (descriptors fd)
  unfolding create
  total-create fd s = omega (arith, count-append n (descriptors fd) (owned s.slots))

  total-give_up : (i : ℕ) (s : Owners) → total n (give_up i s) ≡ total n s
  unfolding give_up
  total-give_up i s = omega (
    arith,
    total-release i s,
    count-append n (release i s).1.released (descriptors (release i s).0),
  )

  total-move_from : (j : ℕ) (s : Owners) → total n (move_from j s) ≡ total n s
  unfolding move_from
  total-move_from j s =
      omega (arith, total-release j s, total-create (release j s).0 (release j s).1)

  has_slot-release : (i j : ℕ) (s : Owners) → has_slot (release j s).1.slots i ≡ has_slot s.slots i
  unfolding release
  has_slot-release i j s = has_slot-set_slot s.slots i j none

  total-move_assign :
      (i j : ℕ) (s : Owners) → has_slot s.slots i ≡ true → total n (move_assign i j s) ≡ total n s
  unfolding move_assign
  total-move_assign i j s h = elim (Bool-cases (i == j)) [
    | inl e ↦ rw e refl
    | inr e ↦ rw e (
        omega (
          arith,
          total-release j s,
          total-reset i (release j s).0 (release j s).1 (has_slot-release i j s ∙ h),
        ))
  ]

  total-use_one :
      (u : Use) (s : Owners) → total n (use_one u s) ≡ total n s + count n (adopted_by u s)
  total-use_one (created fd) s = total-create fd s
  total-use_one (was_reset i fd) s = elim (Bool-cases (has_slot s.slots i)) [
    | inl e ↦ rw e (total-reset i fd s e)
    | inr e ↦ rw e (omega arith)
  ]
  total-use_one (given_up i) s = omega (arith, total-give_up i s)
  total-use_one (moved_from j) s = omega (arith, total-move_from j s)
  total-use_one (assigned i j) s = elim (Bool-cases (has_slot s.slots i)) [
    | inl e ↦ rw e (omega (arith, total-move_assign i j s e))
    | inr e ↦ rw e (omega arith)
  ]

  total-use_all :
      (us : List Use) (s : Owners) → total n (use_all us s) ≡ total n s + count n (adopted us s)
  unfolding use_all
  total-use_all [] s = omega arith
  total-use_all (u ∷ us) s = omega (
    arith,
    total-use_one u s,
    total-use_all us (use_one u s),
    count-append n (adopted_by u s) (adopted us (use_one u s)),
  )

-- However the owners of descriptors are created, reset, released, moved and assigned, also to themselves:
-- once all are destroyed, a descriptor was closed or given up as often as it came under an owner.
pub count-destroy_all :
    (us : List Use) (n : ℕ)
    → let s = destroy_all (use_all us nobody) in
      count n s.closed + count n s.released ≡ count n (adopted us nobody)
unfolding destroy_all
count-destroy_all us n =
    let s = use_all us nobody in
    omega (arith, total-use_all n us nobody, count-append n s.closed (owned s.slots))
