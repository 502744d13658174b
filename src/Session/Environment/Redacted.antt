-- ===== src/Session/Environment/Redacted.antt =====
-- What the summary of an environment shows, and which keys count as sensitive.
use lddm.Base.{
  ◌≡◌, refl, sym, ap, ◌∙◌, true, List, [], ◌∷◌, ◌++◌, Option, none, some, arith, Bool-cases, inl,
  inr, if◌then◌else◌,
}
use lddm.Text.{Text, same_text, begins_with}
use lddm.Text.Laws.{is_one_of}
use lddm.Text.Map.{Variables, find, put}
use lddm.Text.Map.Laws.{IsMap, find-put, same_text-eq, or_else, or_else-none, absent}
use lddm.Session.Environment.{
  upper, contains, contains_any, is_sensitive_key, sensitive_patterns, redacted, redact_onto,
  redacted_summary,
}

-- The value that a summary may show for a key.
abbrev pub shown : Text → Option Text → Option Text
shown k none = none
shown k (some v) = some (if is_sensitive_key k then redacted else v)

find-redact_onto :
    (x : Text) (result vs : Variables)
    → IsMap vs
    → find x (redact_onto result vs) ≡ or_else (shown x (find x vs)) (find x result)
unfolding find redact_onto IsMap
find-redact_onto x result [] h = refl
find-redact_onto x result ((k, v) ∷ vs) h =
    let next : Variables = put k (if is_sensitive_key k then redacted else v) result in
    elim (Bool-cases (same_text k x)) [
      | inl e ↦ rw (find-redact_onto x next vs h.1) (
          rw (find-put k (if is_sensitive_key k then redacted else v) x result)
            (rw e (rw (absent k x vs e h.0) (rw (sym (same_text-eq k x e)) refl))))
      | inr e ↦
          rw (find-redact_onto x next vs h.1)
            (rw (find-put k (if is_sensitive_key k then redacted else v) x result) (rw e refl))
    ]

-- The summary of an environment with one value for each key shows every variable, with a sensitive
-- one's value replaced.
pub find-redacted_summary :
    (x : Text) (vs : Variables) → IsMap vs → find x (redacted_summary vs) ≡ shown x (find x vs)
unfolding redacted_summary find
find-redacted_summary x vs h = find-redact_onto x [] vs h ∙ or_else-none (shown x (find x vs))

begins_with-append : (p t : Text) → begins_with (p ++ t) p ≡ true
unfolding begins_with
begins_with-append [] [] = refl
begins_with-append [] (c ∷ t) = refl
begins_with-append (c ∷ p) t = ground (arith, begins_with-append p t)

upper-append : (s t : Text) → upper (s ++ t) ≡ upper s ++ upper t
unfolding upper
upper-append [] t = refl
upper-append (c ∷ s) t = rw (upper-append s t) refl

contains_prefix : (t p : Text) → begins_with t p ≡ true → contains t p ≡ true
unfolding contains
contains_prefix [] p h = h
contains_prefix (c ∷ t) p h = rw h refl

contains-append : (s p t : Text) → contains (s ++ p ++ t) p ≡ true
unfolding contains
contains-append [] p t = contains_prefix (p ++ t) p (begins_with-append p t)
contains-append (c ∷ s) p t = ground (arith, contains-append s p t)

contains_any-append :
    (s p t : Text) (ps : List Text) → is_one_of p ps ≡ true → contains_any (s ++ p ++ t) ps ≡ true
unfolding contains_any
contains_any-append s p t [] h = ground (arith, h)
contains_any-append s p t (q ∷ ps) h = elim (Bool-cases (same_text q p)) [
  | inl e ↦ rw (same_text-eq q p e) (rw (contains-append s p t) refl)
  | inr e ↦ ground (arith, h, e, contains_any-append s p t ps)
]

-- A key with a pattern anywhere in it, in letters of either case, is sensitive.
pub is_sensitive_key-append :
    (s p t : Text)
    → is_one_of (upper p) sensitive_patterns ≡ true
    → is_sensitive_key (s ++ p ++ t) ≡ true
unfolding is_sensitive_key
is_sensitive_key-append s p t h =
    ap (λ k. contains_any k sensitive_patterns)
      (upper-append (s ++ p) t ∙ ap (λ k. k ++ upper t) (upper-append s p))
    ∙ contains_any-append (upper s) (upper p) (upper t) sensitive_patterns h
