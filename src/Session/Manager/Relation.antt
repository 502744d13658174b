-- ===== src/Session/Manager/Relation.antt =====
-- How the state of src/session/session_manager.cpp stands for what its clients know of it.
use lddm.Base.{
  ℕ, zero, suc, ◌≡◌, refl, sym, ap, subst, ◌∙◌, not, ◌&&◌, ◌||◌, List, [], ◌∷◌, ◌++◌, Option, none,
  some, arith, length, Bool-cases, Option-cases, inl, inr, if◌then◌else◌,
}
use lddm.Text.{Text, same_text}
use lddm.Text.Map.{Map, find, has, put, erase}
use lddm.Text.Map.Laws.{IsMap, find-put, find-erase, put-IsMap, same_text-eq}
use lddm.Session.Manager.{
  Sessions, SessionManager, at, set_at, add, activate_first, stop_at, cleanup_at, stop_each,
  is_active_id,
}
use lddm.Session.Manager.Spec.{Known, id_of, id_at, active_id, first_of, drop_active}

-- No operation of a session changes its identity.
pub record IsLawful {S C : Type 0} (ops : Sessions S C) : Type 0 where
  pub id-make : (c : C) → ops.id (ops.make c) ≡ ops.config_id c
  pub id-stop : (s : S) → ops.id (ops.stop s).0 ≡ ops.id s
  pub id-cleanup : (s : S) → ops.id (ops.cleanup s) ≡ ops.id s

-- A place and an identity that stand for the same session.
abbrev pub ActiveIs : {S C : Type 0} → Sessions S C → List S → Option ℕ → Option Text → Type 0
ActiveIs ops ss none a = a ≡ none
ActiveIs ops ss (some r) a = (id_at ops r ss ≡ a) × ((id : Text) × (a ≡ some id))

-- Two lists of sessions with the same identities, the second with more at its end.
abbrev pub Grows : {S C : Type 0} → Sessions S C → List S → List S → Type 0
Grows ops ss ss' = (r : ℕ) (id : Text) → id_at ops r ss ≡ some id → id_at ops r ss' ≡ some id

module _ {S C : Type 0} (ops : Sessions S C) where
  pub record Refines (m : SessionManager) (ss : List S) (k : Known) : Type 0 where
    pub unique : IsMap m.sessions
    pub known : (x : Text) → has x m.sessions ≡ k.is_known x
    pub placed : (x : Text) (r : ℕ) → find x m.sessions ≡ some r → id_at ops r ss ≡ some x
    pub active : ActiveIs ops ss m.active_session k.active

  set_at-Grows :
      (r : ℕ) (s' : S) (ss : List S)
      → id_at ops r ss ≡ some (ops.id s')
      → Grows ops ss (set_at r s' ss)
  unfolding at set_at
  set_at-Grows r s' [] h q id e = e
  set_at-Grows zero s' (s ∷ ss) h zero id e = sym h ∙ e
  set_at-Grows zero s' (s ∷ ss) h (suc q) id e = e
  set_at-Grows (suc r) s' (s ∷ ss) h zero id e = e
  set_at-Grows (suc r) s' (s ∷ ss) h (suc q) id e = set_at-Grows r s' ss h q id e

  pub append-Grows : (ss ss' : List S) → Grows ops ss (ss ++ ss')
  unfolding at
  append-Grows [] ss' q id e = ground (arith, e)
  append-Grows (s ∷ ss) ss' zero id e = e
  append-Grows (s ∷ ss) ss' (suc q) id e = append-Grows ss ss' q id e

  pub at_end : (s : S) (ss : List S) → at (length ss) (ss ++ s ∷ []) ≡ some s
  unfolding at
  at_end s [] = refl
  at_end s (t ∷ ss) = at_end s ss

  module _ (law : IsLawful ops) where
    pub stop_at-Grows : (r : ℕ) (ss : List S) → Grows ops ss (stop_at ops r ss).0
    unfolding stop_at
    stop_at-Grows r ss = elim (Option-cases (at r ss)) [
      | inl e ↦ rw (e, stop_at) (λ q id h. h)
      | inr (s, e) ↦
          rw (e, stop_at)
            (set_at-Grows r (ops.stop s).0 ss (rw (e, id_at) (ap some (sym (law.id-stop s)))))
    ]

    pub cleanup_at-Grows : (r : ℕ) (ss : List S) → Grows ops ss (cleanup_at ops r ss)
    unfolding cleanup_at
    cleanup_at-Grows r ss = elim (Option-cases (at r ss)) [
      | inl e ↦ rw (e, cleanup_at) (λ q id h. h)
      | inr (s, e) ↦
          rw (e, cleanup_at)
            (set_at-Grows r (ops.cleanup s) ss (rw (e, id_at) (ap some (sym (law.id-cleanup s)))))
    ]

    pub stop_each-Grows : (rs : List ℕ) (ss : List S) → Grows ops ss (stop_each ops rs ss)
    unfolding stop_each
    stop_each-Grows [] ss q id h = h
    stop_each-Grows (r ∷ rs) ss q id h =
        stop_each-Grows rs (stop_at ops r ss).0 q id (stop_at-Grows r ss q id h)

  active-Grows :
      (ss ss' : List S) (o : Option ℕ) (a : Option Text)
      → Grows ops ss ss'
      → ActiveIs ops ss o a
      → ActiveIs ops ss' o a
  active-Grows ss ss' none a g h = h
  active-Grows ss ss' (some r) a g (h, (id, e)) = (g r id (h ∙ e) ∙ sym e, (id, e))

  pub active_shown :
      (ss : List S) (o : Option ℕ) (a : Option Text) → ActiveIs ops ss o a → active_id ops o ss ≡ a
  active_shown ss none a h = sym h
  active_shown ss (some r) a h = h.0

  pub Refines-Grows :
      (m : SessionManager) (ss ss' : List S) (k : Known)
      → Grows ops ss ss'
      → Refines m ss k
      → Refines m ss' k
  Refines-Grows m ss ss' k g h = record {
    unique = h.unique;
    known = h.known;
    placed = λ x r e. g r x (h.placed x r e);
    active = active-Grows ss ss' m.active_session k.active g h.active;
  }

  activate_first-ActiveIs :
      (id : Text) (r : ℕ) (ss : List S) (o : Option ℕ) (a : Option Text)
      → id_at ops r ss ≡ some id
      → ActiveIs ops ss o a
      → ActiveIs ops ss (activate_first r o) (first_of id a)
  activate_first-ActiveIs id r ss none a h e = rw e (h, (id, refl))
  activate_first-ActiveIs id r ss (some q) a h (p, (x, e)) =
      (p ∙ e ∙ ap (first_of id) (sym e), (x, ap (first_of id) e))

  add_known : (id x : Text) (r : ℕ) (m : Map ℕ) → has x (put id r m) ≡ (same_text id x || has x m)
  add_known id x r m = elim (Bool-cases (same_text id x)) [
    | inl e ↦ rw (find-put id r x m, has) (rw e refl)
    | inr e ↦ rw (find-put id r x m, has) (rw e refl)
  ]

  add_placed :
      (id x : Text) (r q : ℕ) (m : Map ℕ) (ss : List S)
      → id_at ops r ss ≡ some id
      → (find x m ≡ some q → id_at ops q ss ≡ some x)
      → find x (put id r m) ≡ some q
      → id_at ops q ss ≡ some x
  add_placed id x r q m ss h old e = elim (Bool-cases (same_text id x)) [
    | inl s ↦
        let same : some r ≡ some q =
          subst (λ b. (if b then some r else find x m) ≡ some q) s (sym (find-put id r x m) ∙ e) in
        subst (λ p. id_at ops p ss ≡ some x) (ground (arith, same))
          (h ∙ ap some (same_text-eq id x s))
    | inr s ↦
        old (subst (λ b. (if b then some r else find x m) ≡ some q) s (sym (find-put id r x m) ∙ e))
  ]

  pub add-Refines :
      (id : Text) (r : ℕ) (m : SessionManager) (ss : List S) (k : Known)
      → id_at ops r ss ≡ some id
      → Refines m ss k
      → Refines
          (add id r m)
          ss
          (record { is_known = λ x. same_text id x || k.is_known x; active = first_of id k.active })
  unfolding add
  add-Refines id r m ss k e h = record {
    unique = put-IsMap id r m.sessions h.unique;
    known = λ x. add_known id x r m.sessions ∙ ap (λ b. same_text id x || b) (h.known x);
    placed = λ x q. add_placed id x r q m.sessions ss e (h.placed x q);
    active = activate_first-ActiveIs id r ss m.active_session k.active e h.active;
  }

  pub erase_known :
      (id x : Text) (m : Map ℕ) → IsMap m → has x (erase id m) ≡ (not (same_text id x) && has x m)
  erase_known id x m h = elim (Bool-cases (same_text id x)) [
    | inl e ↦ rw (find-erase id x m h, has) (rw e refl)
    | inr e ↦ rw (find-erase id x m h, has) (rw e refl)
  ]

  pub erase_placed :
      (id x : Text) (q : ℕ) (m : Map ℕ) (ss : List S)
      → IsMap m
      → (find x m ≡ some q → id_at ops q ss ≡ some x)
      → find x (erase id m) ≡ some q
      → id_at ops q ss ≡ some x
  erase_placed id x q m ss h old e = elim (Bool-cases (same_text id x)) [
    | inl s ↦
        let gone : none ≡ some q =
          subst (λ b. (if b then none else find x m) ≡ some q) s (sym (find-erase id x m h) ∙ e) in
        ground (arith, gone)
    | inr s ↦
        old (subst (λ b. (if b then none else find x m) ≡ some q) s (sym (find-erase id x m h) ∙ e))
  ]

  pub drop_active-ActiveIs :
      (id : Text) (ss : List S) (o : Option ℕ) (a : Option Text)
      → ActiveIs ops ss o a
      → ActiveIs ops ss (if is_active_id ops id o ss then none else o) (drop_active id a)
  unfolding is_active_id
  drop_active-ActiveIs id ss none a h = rw h refl
  drop_active-ActiveIs id ss (some r) a (p, (x, e)) = elim (Option-cases (at r ss)) [
    | inl n ↦
        let gone : none ≡ some x = subst (λ o. id_of ops o ≡ some x) n (p ∙ e) in
        ground (arith, gone)
    | inr (s, n) ↦
        let named : some (ops.id s) ≡ a = subst (λ o. id_of ops o ≡ a) n p in
        rw (n, is_active_id)
          (rw (sym named) (elim (Bool-cases (same_text (ops.id s) id)) [
            | inl t ↦ rw t refl
            | inr t ↦ rw t (rw (n, id_at) refl, (ops.id s, refl))
          ]))
  ]
