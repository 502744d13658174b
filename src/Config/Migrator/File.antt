-- ===== src/Config/Migrator/File.antt =====
-- ConfigMigrator::migrate_file of src/config/config_migrator.cpp, over the files of a disk.
use lddm.Base.{
  ℕ, ◌≡◌, refl, Bool, false, not, ◌&&◌, ◌++◌, Option, none, some, Option-cases, Bool-cases, inl,
  inr, if◌then◌else◌,
}
use lddm.Core.Error.{
  ErrorCategory, config_file_not_found, config_file_read_error, config_migration_failed, error,
  Status, Result, ok, err, done, has_value, Result-cases,
}
use lddm.Text.{Text, bytes, same_text, no_bytes}
use lddm.Text.Decimal.{decimal}
use lddm.Text.Map.{Map, find, put, erase}
use lddm.Text.Map.Laws.{IsMap, find-put, find-erase, put-IsMap}
use lddm.Config.Migrator.{migrate_content}

-- The files, and what the system answers: whether a file opens for reading and for writing, what
-- arrives on the disk of a text that is written, and whether a file is renamed.
pub record Disk : Type 0 where
  pub files : Map Text
  pub opens : Text → Bool
  pub creates : Text → Bool
  pub stored : Text → Text
  pub renames : Text → Text → Bool

abbrev pub temporary : ℕ → Text → Text
temporary pid out = out ++ bytes ".tmp." ++ decimal pid

-- `pid` is getpid().
unfoldable pub replace_file : ℕ → Text → Text → Disk → Disk × Status
unfolding put erase
replace_file pid out content disk =
    let refused : Status = err (error ErrorCategory.configuration config_migration_failed) in
    let tmp : Text = temporary pid out in
    let written : Map Text = put tmp (disk.stored content) disk.files in
    if not (disk.creates tmp)
    then (disk, refused)
    else if disk.renames tmp out
    then (record disk { files = put out (disk.stored content) (erase tmp written) }, done)
    else (record disk { files = erase tmp written }, refused)

unfoldable pub migrate_file : ℕ → Text → Text → ℕ → Disk → Disk × Status
unfolding find replace_file
migrate_file pid input output target disk = elim (find input disk.files) [
  | none ↦ (disk, err (error ErrorCategory.configuration config_file_not_found))
  | some content ↦
      if not (disk.opens input)
      then (disk, err (error ErrorCategory.configuration config_file_read_error))
      else elim (migrate_content content target) [
        | err e ↦ (disk, err e)
        | ok migrated ↦ replace_file pid (if no_bytes output then input else output) migrated disk
      ]
]

abbrev pub target_file : Text → Text → Text
target_file input output = if no_bytes output then input else output

others_kept :
    (tmp x content : Text) (files : Map Text)
    → IsMap files
    → same_text tmp x ≡ false
    → find x (erase tmp (put tmp content files)) ≡ find x files
others_kept tmp x content files u h =
    rw (find-erase tmp x (put tmp content files) (put-IsMap tmp content files u))
      (rw h (rw (find-put tmp content x files) (rw h refl)))

replaced :
    (pid : ℕ) (out content x : Text) (disk : Disk)
    → IsMap disk.files
    → same_text (temporary pid out) x ≡ false
    → let (disk', r) = replace_file pid out content disk in
      find x disk'.files
      ≡ (if has_value r && same_text out x then some (disk.stored content) else find x disk.files)
unfolding replace_file
replaced pid out content x disk u h =
    let tmp : Text = temporary pid out in
    elim (Bool-cases (disk.creates tmp)) [
      | inr c ↦ rw (c, replace_file) refl
      | inl c ↦ elim (Bool-cases (disk.renames tmp out)) [
        | inr d ↦
            rw (c, replace_file)
              (rw (d, replace_file) (others_kept tmp x (disk.stored content) disk.files u h))
        | inl d ↦
            rw (c, replace_file)
              (rw (d, replace_file)
                (rw
                  (find-put out (disk.stored content) x
                    (erase tmp (put tmp (disk.stored content) disk.files)))
                  (rw (others_kept tmp x (disk.stored content) disk.files u h) refl)))
      ]
    ]

abbrev migrated_of : (Text → Text) → Result Text → Option Text
migrated_of stored (err e) = none
migrated_of stored (ok t) = some (stored t)

-- What arrives on the disk of the migrated text of a file.
abbrev pub migrated_text : Text → ℕ → Disk → Option Text
migrated_text input target disk = elim (find input disk.files) [
  | none ↦ none
  | some content ↦ migrated_of disk.stored (migrate_content content target)
]

-- After a migration that succeeds, the file to be written has what arrived on the disk of the migrated
-- text; every other file but the temporary one is as before, and so is every one if it fails.
pub find-migrate_file :
    (pid : ℕ) (input output x : Text) (target : ℕ) (disk : Disk)
    → IsMap disk.files
    → same_text (temporary pid (target_file input output)) x ≡ false
    → let (disk', r) = migrate_file pid input output target disk in
      find x disk'.files ≡ (
        if has_value r && same_text (target_file input output) x
        then migrated_text input target disk
        else find x disk.files)
unfolding migrate_file
find-migrate_file pid input output x target disk u h = elim (Option-cases (find input disk.files)) [
  | inl n ↦ rw (n, migrate_file) refl
  | inr (content, n) ↦ elim (Bool-cases (disk.opens input)) [
    | inr b ↦ rw (n, migrate_file) (rw (b, migrate_file) refl)
    | inl b ↦ elim (Result-cases (migrate_content content target)) [
      | inl (e, m) ↦
          rw (n, migrate_file, migrated_text) (rw (b, migrate_file) (rw (m, migrate_file) refl))
      | inr (t, m) ↦
          rw (n, migrate_file, migrated_text)
            (rw (b, migrate_file)
              (rw (m, migrate_file, migrated_of)
                (replaced pid (target_file input output) t x disk u h)))
    ]
  ]
]
