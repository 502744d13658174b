-- ===== src/Config/Migrator.antt =====
-- src/config/config_migrator.cpp. `front()` of an empty string, which migrate_content takes of a blank
-- line, is no bracket here.
pub mod Version
pub mod File
use mathlib.Core.List.{reverse}
use lddm.Base.{
  ℕ, zero, suc, ◌+◌, ◌-◌, ◌*◌, ◌%◌, ◌^◌, Bool, true, false, not, ◌&&◌, ◌||◌, List, [], ◌∷◌, ◌++◌,
  Option, none, some, ◌==◌, ltb, leb, if◌then◌else◌,
}
use lddm.Core.Error.{ErrorCategory, config_schema_invalid, error, Result, ok, err}
use lddm.Text.Numbers.{stoul}
use lddm.Config.Lines.{first, is_section, section_name, split_entry, drop}
use lddm.Text.{Text, bytes, same_text, begins_with, no_bytes, trim, lines, unlines}

-- The comment with a version.
unfoldable pub comment_version : Text → Option ℕ
unfolding begins_with drop trim stoul
comment_version t =
    if begins_with t (bytes "# version:") || begins_with t (bytes "# Version:")
    then elim (stoul (trim (drop 10 t))) [ none ↦ none | some n ↦ some (n % 2 ^ 32) ]
    else none

abbrev pub holds_version : Text → Bool
holds_version section =
    no_bytes section || same_text section (bytes "meta") || same_text section (bytes "core")

-- The entry with a version; a value that is no number stands for 0.
unfoldable pub entry_version : Text → Text → Option ℕ
unfolding split_entry same_text trim stoul
entry_version section t = elim (split_entry t) [
  | none ↦ none
  | some (k, v) ↦
      if same_text (trim k) (bytes "version") && holds_version section
      then some (elim (stoul (trim v)) [ none ↦ 0 | some n ↦ n % 2 ^ 32 ])
      else none
]

-- The loop of detect_version, within a section.
unfoldable pub detect : Text → List Text → ℕ
unfolding trim comment_version is_section section_name entry_version
detect section [] = 0
detect section (l ∷ ls) =
    let t : Text = trim l in
    let rest = detect section ls in
    let within = detect (section_name t) ls in
    if no_bytes t then rest else elim (comment_version t) [
      | some v ↦ v
      | none ↦
          if is_section t
          then within
          else if first t == 35 || first t == 59
          then rest
          else elim (entry_version section t) [ some v ↦ v | none ↦ rest ]
    ]

unfoldable pub detect_version : Text → ℕ
unfolding detect lines
detect_version content = detect [] (lines content)

-- The lines that are kept: those of a section `meta` go, its heading included.
unfoldable pub keep_lines : Bool → List Text → List Text
unfolding is_section section_name same_text trim
keep_lines in_meta [] = []
keep_lines in_meta (l ∷ ls) =
    let t : Text = trim l in
    let skip = keep_lines true ls in
    let keep = l ∷ keep_lines false ls in
    if is_section t
    then (if same_text (section_name t) (bytes "meta") then skip else keep)
    else if in_meta
    then skip
    else keep

abbrev pub header : List Text
header =
    bytes "# LDDM Configuration File (Schema Version 1)"
    ∷ bytes "[meta]"
    ∷ bytes "version = 1"
    ∷ []
    ∷ []

-- CURRENT_CONFIG_VERSION
abbrev pub current_version : ℕ
current_version = 1

unfoldable pub migrate_content : Text → ℕ → Result Text
unfolding keep_lines unlines
migrate_content content target =
    let invalid : Result Text = err (error ErrorCategory.configuration config_schema_invalid) in
    let source : ℕ = detect_version content in
    if source == target
    then ok content
    else if ltb target source
    then invalid
    else if ltb current_version target
    then invalid
    else if source == 0 && leb 1 target
    then ok (unlines (header ++ keep_lines false (lines content)))
    else ok content
