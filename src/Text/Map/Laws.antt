-- ===== src/Text/Map/Laws.antt =====
-- Laws of maps from texts to texts.
use lddm.Base.{
  ◌≡◌, refl, sym, ap, subst, Bool, true, false, not, ◌&&◌, [], ◌∷◌, Option, none, some, arith,
  Bool-cases, inl, inr, if◌then◌else◌,
}
use lddm.Text.{Text, same_text}
use lddm.Text.Map.{Map, find, has, put, erase, merge}

pub same_text-eq : (s t : Text) → same_text s t ≡ true → s ≡ t
unfolding same_text
same_text-eq [] [] h = refl
same_text-eq [] (y ∷ ys) h = ground (arith, h)
same_text-eq (x ∷ xs) [] h = ground (arith, h)
same_text-eq (x ∷ xs) (y ∷ ys) h = ground (arith, h, same_text-eq xs ys)

same_text_sym : (s t : Text) → same_text s t ≡ same_text t s
unfolding same_text
same_text_sym [] [] = refl
same_text_sym [] (y ∷ ys) = refl
same_text_sym (x ∷ xs) [] = refl
same_text_sym (x ∷ xs) (y ∷ ys) = ground (arith, same_text_sym xs ys)

-- Equal keys are told from a third one alike.
same_text_right : (k x k' : Text) → same_text k x ≡ true → same_text k' x ≡ same_text k' k
same_text_right k x k' h = ap (same_text k') (sym (same_text-eq k x h))

module _ {ℓ} {V : Type ℓ} where
  -- No key stands twice.
  unfoldable pub IsMap : Map V → Type ℓ
  IsMap [] = Unit
  IsMap ((k, v) ∷ vs) = (find k vs ≡ none) × IsMap vs

  -- The same, computed.
  unfoldable pub is_map : Map V → Bool
  unfolding find same_text
  is_map [] = true
  is_map ((k, v) ∷ vs) = not (has k vs) && is_map vs

  has-none : (k : Text) (vs : Map V) → has k vs ≡ false → find k vs ≡ none
  has-none k vs h = ground (arith, h)

  pub is_map-IsMap : (vs : Map V) → is_map vs ≡ true → IsMap vs
  unfolding is_map IsMap
  is_map-IsMap [] h = tt
  is_map-IsMap ((k, v) ∷ vs) h =
      (has-none k vs (ground (arith, h)), is_map-IsMap vs (ground (arith, h)))

  -- The value of a key after an assignment.
  pub find-put :
      (k : Text) (v : V) (x : Text) (vs : Map V)
      → find x (put k v vs) ≡ (if same_text k x then some v else find x vs)
  unfolding find put
  find-put k v x [] = refl
  find-put k v x ((k', v') ∷ vs) = elim (Bool-cases (same_text k' k)) [
    | inl e ↦ rw (e, find, put) (rw (same_text-eq k' k e) (ground arith))
    | inr e ↦
        rw (e, find, put)
          (elim (Bool-cases (same_text k x)) [
            | inl h ↦ rw (find-put k v x vs) (rw (same_text_right k x k' h) (rw (e, h) refl))
            | inr h ↦ rw (find-put k v x vs) (rw h refl)
          ])
  ]

  pub put-IsMap : (k : Text) (v : V) (vs : Map V) → IsMap vs → IsMap (put k v vs)
  unfolding put IsMap find
  put-IsMap k v [] h = (refl, tt)
  put-IsMap k v ((k', v') ∷ vs) h = elim (Bool-cases (same_text k' k)) [
    | inl e ↦ rw (e, put, IsMap) (rw (sym (same_text-eq k' k e)) h)
    | inr e ↦
        rw (e, put, IsMap)
          (rw (find-put k v k' vs) (rw (same_text_sym k k') (rw e h.0)), put-IsMap k v vs h.1)
  ]

  pub merge-IsMap : (overrides vs : Map V) → IsMap vs → IsMap (merge overrides vs)
  unfolding merge
  merge-IsMap [] vs h = h
  merge-IsMap ((k, v) ∷ overrides) vs h = merge-IsMap overrides (put k v vs) (put-IsMap k v vs h)

  abbrev pub or_else : Option V → Option V → Option V
  or_else none o = o
  or_else (some v) o = some v

  pub or_else-none : (o : Option V) → or_else o none ≡ o
  or_else-none none = refl
  or_else-none (some v) = refl

  pub absent :
      (k x : Text) (vs : Map V) → same_text k x ≡ true → find k vs ≡ none → find x vs ≡ none
  absent k x vs e h = subst (λ y. find y vs ≡ none) (same_text-eq k x e) h

  -- What is merged in comes first; the rest stays.
  pub find-merge :
      (x : Text) (overrides vs : Map V)
      → IsMap overrides
      → find x (merge overrides vs) ≡ or_else (find x overrides) (find x vs)
  unfolding find merge IsMap
  find-merge x [] vs h = refl
  find-merge x ((k, v) ∷ overrides) vs h = elim (Bool-cases (same_text k x)) [
    | inl e ↦
        rw (find-merge x overrides (put k v vs) h.1)
          (rw (find-put k v x vs) (rw e (rw (absent k x overrides e h.0) refl)))
    | inr e ↦ rw (find-merge x overrides (put k v vs) h.1) (rw (find-put k v x vs) (rw e refl))
  ]

  pub find-erase :
      (k x : Text) (vs : Map V)
      → IsMap vs
      → find x (erase k vs) ≡ (if same_text k x then none else find x vs)
  unfolding find erase IsMap
  find-erase k x [] h = ground arith
  find-erase k x ((k', v') ∷ vs) h = elim (Bool-cases (same_text k' k)) [
    | inl e ↦
        rw (e, find, erase)
          (elim (Bool-cases (same_text k x)) [
            | inl q ↦ rw q (absent k x vs q (absent k' k vs e h.0))
            | inr q ↦ rw q (rw (same_text-eq k' k e) (rw q refl))
          ])
    | inr e ↦
        rw (e, find, erase)
          (elim (Bool-cases (same_text k x)) [
            | inl q ↦ rw (find-erase k x vs h.1) (rw (same_text_right k x k' q) (rw (e, q) refl))
            | inr q ↦ rw (find-erase k x vs h.1) (rw q refl)
          ])
  ]

  absent_after :
      (k x : Text) (vs : Map V) → IsMap vs → find x vs ≡ none → find x (erase k vs) ≡ none
  absent_after k x vs u h = elim (Bool-cases (same_text k x)) [
    | inl e ↦ rw (find-erase k x vs u) (rw e refl)
    | inr e ↦ rw (find-erase k x vs u) (rw e h)
  ]

  pub erase-IsMap : (k : Text) (vs : Map V) → IsMap vs → IsMap (erase k vs)
  unfolding erase IsMap
  erase-IsMap k [] h = h
  erase-IsMap k ((k', v') ∷ vs) h = elim (Bool-cases (same_text k' k)) [
    | inl e ↦ rw (e, erase) h.1
    | inr e ↦ rw (e, erase, IsMap) (absent_after k k' vs h.1 h.0, erase-IsMap k vs h.1)
  ]
