-- ===== src/Config/Migrator/Version.antt =====
-- src/config/config_migrator.cpp: the version of what migration writes.
use lddm.Base.{
  ℕ, ◌≡◌, refl, inl, inr, Bool, true, false, List, [], ◌∷◌, ◌++◌, arith, All, All-append,
  Bool-cases,
}
use lddm.Core.Error.{ok}
use lddm.Text.{Text, bytes, lines, unlines, trim, same_text}
use lddm.Text.Laws.{is_line-IsLine, IsLine, lines-unlines, lines-IsLine}
use lddm.Config.Migrator.{
  detect, detect_version, keep_lines, header, migrate_content, is_section, section_name,
}

header-IsLine : All IsLine header
header-IsLine = (
  is_line-IsLine (bytes "# LDDM Configuration File (Schema Version 1)") refl,
  (is_line-IsLine (bytes "[meta]") refl, (is_line-IsLine (bytes "version = 1") refl, (tt, tt))),
)

keep_lines-IsLine : (b : Bool) (ls : List Text) → All IsLine ls → All IsLine (keep_lines b ls)
unfolding keep_lines
keep_lines-IsLine b [] h = tt
keep_lines-IsLine b (l ∷ ls) h =
    let skip = keep_lines-IsLine true ls h.1 in
    let keep : All IsLine (l ∷ keep_lines false ls) = (h.0, keep_lines-IsLine false ls h.1) in
    elim (Bool-cases (is_section (trim l))) [
      | inl s ↦ elim (Bool-cases (same_text (section_name (trim l)) (bytes "meta"))) [
        | inl m ↦ rw (s, keep_lines) (rw (m, keep_lines) skip)
        | inr m ↦ rw (s, keep_lines) (rw (m, keep_lines) keep)
      ]
      | inr s ↦ elim (Bool-cases b) [
        | inl m ↦ rw (s, keep_lines) (rw (m, keep_lines) skip)
        | inr m ↦ rw (s, keep_lines) (rw (m, keep_lines) keep)
      ]
    ]

detect-header : (ls : List Text) → detect [] (header ++ ls) ≡ 1
unfolding detect
detect-header ls = refl

-- What is written for a file without a version has version 1.
migrated-version :
    (content : Text) → detect_version (unlines (header ++ keep_lines false (lines content))) ≡ 1
unfolding detect_version
migrated-version content =
    let kept : List Text = keep_lines false (lines content) in
    let is_kept = keep_lines-IsLine false (lines content) (lines-IsLine content) in
    rw (lines-unlines (header ++ kept) (All-append IsLine header kept header-IsLine is_kept))
      (detect-header kept)

-- A migration that succeeds writes a file of the version asked for, and migrating that file again to the
-- same version changes nothing.
pub migrate_content-detect_version :
    (content : Text) (target : ℕ) (written : Text)
    → migrate_content content target ≡ ok written
    → (detect_version written ≡ target) × (migrate_content written target ≡ ok written)
unfolding migrate_content
migrate_content-detect_version content target written h = ground (arith, migrated-version content)
