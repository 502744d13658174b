-- ===== src/Platform/UniqueFd.antt =====
-- src/platform/unique_fd.cpp and include/lddm/platform/unique_fd.hpp: a descriptor with one owner. An
-- owner of none, -1, is `none`. The owners of a program are a list, and a call names them by position.
pub mod Flags
pub mod Ledger
use lddm.Base.{
  ℕ, zero, suc, Bool, true, false, List, [], ◌∷◌, ◌++◌, Option, none, some, ◌==◌, if◌then◌else◌,
}

-- The owners, the descriptors that were closed, and those that were given up by `release`.
pub record Owners : Type 0 where
  pub slots : List (Option ℕ)
  pub closed : List ℕ
  pub released : List ℕ

abbrev pub is_valid : Option ℕ → Bool
is_valid none = false
is_valid (some fd) = true

-- What the owner at a position owns; nothing where there is none.
abbrev pub slot : List (Option ℕ) → ℕ → Option ℕ
slot [] i = none
slot (o ∷ os) zero = o
slot (o ∷ os) (suc i) = slot os i

abbrev pub set_slot : List (Option ℕ) → ℕ → Option ℕ → List (Option ℕ)
set_slot [] i o = []
set_slot (p ∷ os) zero o = o ∷ os
set_slot (p ∷ os) (suc i) o = p ∷ set_slot os i o

-- What a descriptor that may be missing adds to a list of descriptors.
abbrev pub descriptors : Option ℕ → List ℕ
descriptors none = []
descriptors (some fd) = fd ∷ []

abbrev pub owned : List (Option ℕ) → List ℕ
owned [] = []
owned (o ∷ os) = descriptors o ++ owned os

-- The constructor: a new owner, the first of the list.
unfoldable pub create : Option ℕ → Owners → Owners
create fd s = record s { slots = fd ∷ s.slots }

-- What is owned is closed first.
unfoldable pub reset : ℕ → Option ℕ → Owners → Owners
reset i fd s = record s {
  slots = set_slot s.slots i fd;
  closed = s.closed ++ descriptors (slot s.slots i);
}

-- The descriptor is handed out, and the owner has none.
unfoldable pub release : ℕ → Owners → Option ℕ × Owners
release i s = (slot s.slots i, record s { slots = set_slot s.slots i none })

-- `fd.release()` by a caller that keeps the descriptor.
unfoldable pub give_up : ℕ → Owners → Owners
unfolding release
give_up i s = let (fd, s') = release i s in record s' { released = s'.released ++ descriptors fd }

-- The move constructor: a new owner takes what another owned.
unfoldable pub move_from : ℕ → Owners → Owners
unfolding release create
move_from j s = let (fd, s') = release j s in create fd s'

-- The move assignment, which leaves an owner that is assigned to itself alone.
unfoldable pub move_assign : ℕ → ℕ → Owners → Owners
unfolding release reset
move_assign i j s = if i == j then s else (let (fd, s') = release j s in reset i fd s')

-- The destructors of all.
unfoldable pub destroy_all : Owners → Owners
destroy_all s = record s { slots = []; closed = s.closed ++ owned s.slots }
