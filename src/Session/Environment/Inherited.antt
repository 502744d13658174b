-- ===== src/Session/Environment/Inherited.antt =====
-- The environment that the constructor of src/session/session_environment.cpp makes.
use lddm.Base.{
  ◌≡◌, refl, sym, ap, ◌∙◌, Bool, true, false, ◌||◌, List, [], ◌∷◌, Option, none, some, arith,
  Bool-cases, Option-cases, inl, inr, if◌then◌else◌, if_holds,
}
use lddm.Text.{Text, bytes, same_text}
use lddm.Text.Map.{Variables, find, has, put}
use lddm.Text.Map.Laws.{IsMap, find-put, put-IsMap, same_text-eq, or_else, or_else-none, absent}
use lddm.Session.Environment.{inherit, base_keys, put_missing, new_environment}
use lddm.Text.Laws.{is_one_of}

inherit-IsMap :
    (getenv : Text → Option Text) (ks : List Text) (vs : Variables)
    → IsMap vs
    → IsMap (inherit getenv ks vs)
unfolding inherit
inherit-IsMap getenv [] vs h = h
inherit-IsMap getenv (k ∷ ks) vs h = elim (Option-cases (getenv k)) [
  | inl e ↦ rw e (inherit-IsMap getenv ks vs h)
  | inr (v, e) ↦ rw e (inherit-IsMap getenv ks (put k v vs) (put-IsMap k v vs h))
]

put_missing-IsMap : (k v : Text) (vs : Variables) → IsMap vs → IsMap (put_missing k v vs)
put_missing-IsMap k v vs h = if_holds IsMap (has k vs) h (put-IsMap k v vs h)

pub new_environment-IsMap : (getenv : Text → Option Text) → IsMap (new_environment getenv)
unfolding new_environment IsMap
new_environment-IsMap getenv = put_missing-IsMap _ _ _ (
    put_missing-IsMap _ _ _
      (put_missing-IsMap _ _ _ (put_missing-IsMap _ _ _ (inherit-IsMap getenv base_keys [] tt))))

-- What a key has from the environment of the program, where it is one of the keys that are copied.
abbrev pub inherited : (Text → Option Text) → List Text → Text → Option Text
inherited getenv ks x = if is_one_of x ks then getenv x else none

-- One key that is copied if it is set.
abbrev copy : (Text → Option Text) → Text → Variables → Variables
copy getenv k vs = elim (getenv k) [ none ↦ vs | some v ↦ put k v vs ]

find-copy :
    (getenv : Text → Option Text) (k x : Text) (vs : Variables)
    → find x (copy getenv k vs) ≡ or_else (if same_text k x then getenv x else none) (find x vs)
find-copy getenv k x vs = elim (Option-cases (getenv k)) [
  | inl n ↦ elim (Bool-cases (same_text k x)) [
    | inl e ↦ rw (n, copy) (rw e (rw (sym (ap getenv (same_text-eq k x e)) ∙ n) refl))
    | inr e ↦ rw (n, copy) (rw e refl)
  ]
  | inr (v, n) ↦ elim (Bool-cases (same_text k x)) [
    | inl e ↦
        rw (n, copy)
          (rw (find-put k v x vs) (rw e (rw (sym (ap getenv (same_text-eq k x e)) ∙ n) refl)))
    | inr e ↦ rw (n, copy) (rw (find-put k v x vs) (rw e refl))
  ]
]

joined :
    (same one : Bool) (value old : Option Text)
    → or_else (if one then value else none) (or_else (if same then value else none) old)
      ≡ or_else (if same || one then value else none) old
joined true true none old = refl
joined true true (some v) old = refl
joined true false value old = refl
joined false true value old = refl
joined false false value old = refl

find-inherit :
    (getenv : Text → Option Text) (ks : List Text) (x : Text) (vs : Variables)
    → find x (inherit getenv ks vs) ≡ or_else (inherited getenv ks x) (find x vs)
unfolding inherit
find-inherit getenv [] x vs = refl
find-inherit getenv (k ∷ ks) x vs =
    find-inherit getenv ks x (copy getenv k vs)
    ∙ ap (or_else (inherited getenv ks x)) (find-copy getenv k x vs)
    ∙ joined (same_text k x) (is_one_of x ks) (getenv x) (find x vs)

find-put_missing :
    (k v x : Text) (vs : Variables)
    → find x (put_missing k v vs) ≡ or_else (find x vs) (if same_text k x then some v else none)
find-put_missing k v x vs = elim (Option-cases (find k vs)) [
  | inl n ↦ elim (Bool-cases (same_text k x)) [
    | inl e ↦ rw (n, put_missing, has) (rw (find-put k v x vs) (rw e (rw (absent k x vs e n) refl)))
    | inr e ↦
        rw (n, put_missing, has) (rw (find-put k v x vs) (rw e (sym (or_else-none (find x vs)))))
  ]
  | inr (w, n) ↦ elim (Bool-cases (same_text k x)) [
    | inl e ↦
        rw (n, put_missing, has) (rw (sym (ap (λ y. find y vs) (same_text-eq k x e)) ∙ n) refl)
    | inr e ↦ rw (n, put_missing, has) (rw e (sym (or_else-none (find x vs))))
  ]
]

-- Four defaults after one another.
defaults_joined :
    (a b c d : Bool) (o : Option Text) (p q r s : Text)
    → or_else
        (or_else
          (or_else
            (or_else (or_else o none) (if a then some p else none))
            (if b then some q else none))
          (if c then some r else none))
        (if d then some s else none)
      ≡ or_else o (
          if a
          then some p
          else if b
          then some q
          else if c
          then some r
          else if d
          then some s
          else none)
defaults_joined a b c d none p q r s = ground arith
defaults_joined a b c d (some v) p q r s = refl

abbrev pub default_settings : Variables
default_settings =
    (bytes "PATH", bytes "/usr/local/bin:/usr/bin:/bin")
    ∷ (bytes "TERM", bytes "xterm-256color")
    ∷ (bytes "LANG", bytes "C.UTF-8")
    ∷ (bytes "SHELL", bytes "/bin/bash")
    ∷ []

-- A variable of a new environment: the program's own, for five keys, else a default, for four of them.
pub find-new_environment :
    (getenv : Text → Option Text) (x : Text)
    → find x (new_environment getenv)
      ≡ or_else (inherited getenv base_keys x) (find x default_settings)
unfolding new_environment find
find-new_environment getenv x = rw (find-put_missing (bytes "SHELL") (bytes "/bin/bash") x _) (
    rw (find-put_missing (bytes "LANG") (bytes "C.UTF-8") x _) (
      rw (find-put_missing (bytes "TERM") (bytes "xterm-256color") x _) (
        rw (find-put_missing (bytes "PATH") (bytes "/usr/local/bin:/usr/bin:/bin") x _) (
          rw (find-inherit getenv base_keys x []) (
            defaults_joined (same_text (bytes "PATH") x) (same_text (bytes "TERM") x)
              (same_text (bytes "LANG") x) (same_text (bytes "SHELL") x)
              (inherited getenv base_keys x) _ _ _ _)))))
