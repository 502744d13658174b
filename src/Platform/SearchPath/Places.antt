-- ===== src/Platform/SearchPath/Places.antt =====
-- The loop over $PATH finds the first usable of its places.
use lddm.Base.{
  ℕ, zero, suc, ◌+◌, ◌-◌, ◌<◌, ◌≤◌, Bool, List, [], ◌∷◌, ◌++◌, map, Option, none, some, ◌≡◌, refl,
  ap, sym, ◌∙◌, arith, inl, inr, ltb, lt→ltb, length, drop, take, length-drop, if◌then◌else◌,
  Option-cases,
}
use native.Mathlib.Decide.{dec_lt}
use lddm.Text.{Text, no_bytes}
use lddm.Platform.SearchPath.{
  substr, find_byte, join, first_usable, try_directory, end_of, search_from, search_path, fields,
  places_of, places,
}

fields-none : (c : ℕ) (t : Text) → find_byte b':' (c ∷ t) ≡ none → fields (c ∷ t) ≡ (c ∷ t) ∷ []
fields-none c [] h = ground arith
fields-none c (d ∷ t) h = ground (arith, fields-none d t)

fields-some :
    (t : Text) (k : ℕ) → find_byte b':' t ≡ some k → fields t ≡ take k t ∷ fields (drop (suc k) t)
fields-some [] k h = cc
fields-some (c ∷ t) zero h = ground arith
fields-some (c ∷ t) (suc k) h = ground (arith, fields-some t k)

drop-drop : (n k : ℕ) (t : Text) → drop (suc (n + k)) t ≡ drop (suc k) (drop n t)
drop-drop zero k t = ap (λ (m : ℕ). drop (suc m) t) (omega arith)
drop-drop (suc n) k [] = refl
drop-drop (suc n) k (c ∷ t) =
    ap (λ (m : ℕ). drop m t) (let e : suc n + k ≡ suc (n + k) = omega arith in e) ∙ drop-drop n k t

take_all : (n : ℕ) (t : Text) → length t ≤ n → take n t ≡ t
take_all zero [] h = refl
take_all zero (c ∷ t) h = absurd (omega arith)
take_all (suc n) [] h = refl
take_all (suc n) (c ∷ t) h = ap (λ (u : Text). c ∷ u) (take_all n t (omega arith))

fields_nonempty : (t : Text) → 0 < length t → find_byte b':' t ≡ none → fields t ≡ t ∷ []
fields_nonempty [] h e = elim h [ ]
fields_nonempty (c ∷ t) h e = fields-none c t e

drop_all : (n : ℕ) (t : Text) → length t ≤ n → drop n t ≡ []
drop_all zero [] h = refl
drop_all zero (c ∷ t) h = absurd (omega arith)
drop_all (suc n) [] h = refl
drop_all (suc n) (c ∷ t) h = drop_all n t (omega arith)

module _ (path : Text) (start : ℕ) where
  end_of-none : find_byte b':' (drop start path) ≡ none → end_of path start ≡ length path
  end_of-none e = ground arith

  end_of-some : (k : ℕ) → find_byte b':' (drop start path) ≡ some k → end_of path start ≡ start + k
  end_of-some k e = ground arith

  le-end_of : start < length path → start ≤ end_of path start
  le-end_of h = elim (Option-cases (find_byte b':' (drop start path))) [
    | inl e ↦ rw (end_of-none e) (omega arith)
    | inr (k, e) ↦ rw (end_of-some k e) (omega arith)
  ]

  last_field :
      start < length path
      → fields (drop start path) ≡ drop start path ∷ []
      → fields (drop start path)
        ≡ substr start (length path - start) path ∷ fields (drop (length path + 1) path)
  last_field h e = rw (drop_all (length path + 1) path (omega arith)) (
      rw (take_all (length path - start) (drop start path) (omega (arith, length-drop start path)))
        e)

  inner_field :
      (k : ℕ)
      → find_byte b':' (drop start path) ≡ some k
      → fields (drop start path)
        ≡ substr start (start + k - start) path ∷ fields (drop (start + k + 1) path)
  inner_field k e =
      let len : start + k - start ≡ k = omega arith in
      let next : start + k + 1 ≡ suc (start + k) = omega arith in
      rw (len, next) (rw (drop-drop start k path) (fields-some (drop start path) k e))

  -- Before the end, the next part is the current directory, and the others start after it.
  fields-drop :
      start < length path
      → fields (drop start path)
        ≡ substr start (end_of path start - start) path ∷ fields (drop (end_of path start + 1) path)
  fields-drop h = elim (Option-cases (find_byte b':' (drop start path))) [
    | inl e ↦
        rw (end_of-none e) (
          last_field h
            (fields_nonempty (drop start path) (omega (arith, length-drop start path)) e))
    | inr (k, e) ↦ rw (end_of-some k e) (inner_field k e)
  ]

pub first_usable-append :
    (access : Text → Bool) (ps qs : List Text)
    → first_usable access (ps ++ qs)
      ≡ elim (first_usable access ps) [ some p ↦ some p | none ↦ first_usable access qs ]
first_usable-append access [] qs = refl
first_usable-append access (p ∷ ps) qs = ground (arith, first_usable-append access ps qs)

-- One turn of the loop tries one directory.
module _ (access : Text → Bool) (names : List Text) where
  first_in : Text → Option Text → Option Text
  first_in dir rest =
      if no_bytes dir
      then rest
      else elim (try_directory access names dir) [ some p ↦ some p | none ↦ rest ]

  first_usable-places_of :
      (dir : Text) (dirs : List Text)
      → first_usable access (places_of names (dir ∷ dirs))
        ≡ first_in dir (first_usable access (places_of names dirs))
  unfolding first_in
  first_usable-places_of dir dirs =
      ground (arith, first_usable-append access (map (join dir) names) (places_of names dirs))

  module _ (path : Text) where
    search_from-turn :
        (fuel start : ℕ)
        → search_from access names path (suc fuel) start ≡ (
            if ltb start (length path)
            then first_in
                (substr start (end_of path start - start) path)
                (search_from access names path fuel (end_of path start + 1))
            else none)
    unfolding search_from first_in
    search_from-turn fuel start = refl

    -- From a start on, the loop finds the first usable of the places that are left.
    search_from_lem :
        (fuel start : ℕ)
        → length path - start < fuel
        → search_from access names path fuel start
          ≡ first_usable access (places names (drop start path))
    search_from_lem zero start h = elim h [ ]
    search_from_lem (suc fuel) start h = elim (dec_lt start (length path)) [
      | yes p ↦
          let dir = substr start (end_of path start - start) path in
          let others = fields (drop (end_of path start + 1) path) in
          let later =
            search_from_lem fuel (end_of path start + 1) (omega (arith, le-end_of path start p)) in
          rw (search_from-turn fuel start) (
            rw (lt→ltb start (length path) p)
              (rw later (rw (fields-drop path start p) (sym (first_usable-places_of dir others)))))
      | no p ↦
          rw (search_from-turn fuel start) (rw (drop_all start path (omega arith)) (ground arith))
    ]

    -- The search of a path finds the first usable of its places.
    pub search_path_lem : search_path access names path ≡ first_usable access (places names path)
    unfolding search_path
    search_path_lem = search_from_lem (suc (length path)) 0 (omega arith)
