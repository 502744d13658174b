-- ===== src/Session/Paths/Created.antt =====
-- The directories of a session, once they are created.
use lddm.Base.{
  ◌≡◌, refl, ◌∙◌, true, false, List, [], ◌∷◌, some, arith, Bool-cases, inl, inr, if◌then◌else◌, All,
}
use lddm.Core.Error.{done}
use lddm.Text.{Text, same_text}
use lddm.Text.Laws.{is_one_of}
use lddm.Text.Map.{find}
use lddm.Text.Map.Laws.{find-put}
use lddm.Session.Paths.{Directories, Answers, owner_all, make, protect, create_each}

module _ (a : Answers) (x : Text) where
  -- Making and protecting another directory leaves a directory as it is.
  create_one_other :
      (dir : Text) (d : Directories)
      → same_text dir x ≡ false
      → find x (protect a dir (make a dir d)).modes ≡ find x d.modes
  create_one_other dir d other =
      ground (
        arith,
        find-put dir owner_all x (make a dir d).modes,
        find-put dir a.default_mode x d.modes,
      )

  create_one_self :
      (dir : Text) (d : Directories)
      → same_text dir x ≡ true
      → a.permits dir ≡ true
      → find x (protect a dir (make a dir d)).modes ≡ some owner_all
  create_one_self dir d self works = ground (arith, find-put dir owner_all x (make a dir d).modes)

  -- After a creation that succeeds, a directory has the mode 0700 if it is one of those created and the
  -- system sets modes; one that is none of those is as it was.
  create_each-mode :
      (dirs : List Text) (d : Directories)
      → All (λ dir. a.permits dir ≡ true) dirs
      → (create_each a dirs d).0 ≡ done
      → find x (create_each a dirs d).1.modes
        ≡ (if is_one_of x dirs then some owner_all else find x d.modes)
  unfolding create_each
  create_each-mode [] d h e = refl
  create_each-mode (dir ∷ dirs) d h e =
      let d' = protect a dir (make a dir d) in
      elim (Bool-cases (a.creates dir)) [
        | inr refused ↦ absurd (ground (arith, e))
        | inl made ↦
            let rest : (create_each a dirs d').0 ≡ done = ground (arith, e) in
            rw made (
              create_each-mode dirs d' h.1 rest ∙ elim (Bool-cases (same_text dir x)) [
                | inl self ↦ rw self (rw (create_one_self dir d self h.0) (ground arith))
                | inr other ↦ rw other (rw (create_one_other dir d other) refl)
              ])
      ]
