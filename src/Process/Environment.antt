-- ===== src/Process/Environment.antt =====
-- The environment of a process in `Process::start` of src/process/process.cpp: the entries that the
-- supervisor passes on, and over them the variables of the spec.
use lddm.Base.{◌≡◌, refl, ap, ◌∙◌, inl, inr, Bool-cases, none, some, List, [], ◌∷◌}
use lddm.Text.{Text, same_text}
use lddm.Text.Map.{Variables, find, put, merge}
use lddm.Text.Map.Laws.{IsMap, merge-IsMap, find-merge, or_else, or_else-none}
use lddm.Session.Environment.{to_vector}
use lddm.Platform.Paths.{put_entries, snapshot}
use lddm.Platform.Paths.Entries.{IsName, HasNames, put_entries-to_vector}

unfoldable pub merged_environment : List Text → Variables → Variables
unfolding put_entries merge
merged_environment base_environment spec_environment =
    merge spec_environment (put_entries base_environment [])

unfoldable pub final_env : List Text → Variables → List Text
unfolding merged_environment to_vector
final_env base_environment spec_environment =
    to_vector (merged_environment base_environment spec_environment)

find-nil : (x : Text) → find {V = Text} x [] ≡ none
unfolding find
find-nil x = refl

pub find-merge_nothing : (x : Text) (vs : Variables) → IsMap vs → find x (merge vs []) ≡ find x vs
find-merge_nothing x vs h =
    find-merge x vs [] h ∙ ap (or_else (find x vs)) (find-nil x) ∙ or_else-none (find x vs)

put-HasNames : (k v : Text) (vs : Variables) → IsName k → HasNames vs → HasNames (put k v vs)
unfolding put
put-HasNames k v [] hk h = (hk, tt)
put-HasNames k v ((k', v') ∷ vs) hk h = elim (Bool-cases (same_text k' k)) [
  | inl e ↦ rw (e, put) (hk, h.1)
  | inr e ↦ rw (e, put) (h.0, put-HasNames k v vs hk h.1)
]

pub merge-HasNames :
    (overrides vs : Variables) → HasNames overrides → HasNames vs → HasNames (merge overrides vs)
unfolding merge
merge-HasNames [] vs ho h = h
merge-HasNames ((k, v) ∷ overrides) vs ho h =
    merge-HasNames overrides (put k v vs) ho.1 (put-HasNames k v vs ho.0 h)

module _ (session spec : Variables) (hs : IsMap session) (hp : IsMap spec) (ns : HasNames session)
    (np : HasNames spec) where
  merged_lem : merged_environment (to_vector session) spec ≡ merge spec (merge session [])
  unfolding merged_environment
  merged_lem = ap (merge spec) (put_entries-to_vector session [] ns)

  find-merged :
      (x : Text) → find x (merge spec (merge session [])) ≡ or_else (find x spec) (find x session)
  find-merged x =
      find-merge x spec (merge session []) hp
      ∙ ap (or_else (find x spec)) (find-merge_nothing x session hs)

  -- A process that is started with the entries of a session's environment reads in its own environment,
  -- for each variable, the spec's value, if the spec has one, else the session's. Each map has one value
  -- for a key, and no key holds a '='.
  pub find-final_env :
      (x : Text)
      → find x (snapshot (some (final_env (to_vector session) spec)))
        ≡ or_else (find x spec) (find x session)
  unfolding final_env snapshot IsMap
  find-final_env x =
      let merged = merge spec (merge session []) in
      ap (λ (vs : Variables). find x (put_entries (to_vector vs) [])) merged_lem
      ∙ ap (find x) (
          put_entries-to_vector merged []
            (merge-HasNames spec (merge session []) np (merge-HasNames session [] ns tt)))
      ∙ find-merge_nothing x merged
          (merge-IsMap spec (merge session []) (merge-IsMap session [] tt))
      ∙ find-merged x
