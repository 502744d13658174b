-- ===== src/Tests/ParserTests.antt =====
-- The theorems on the parser and the configuration manager at concrete inputs.
use lddm.Base.{◌≡◌, refl, if◌then◌else◌, ◌&&◌, true, false, [], ◌∷◌, none, arith}
use lddm.Core.Error.{ok, has_value}
use lddm.Text.{bytes, unlines}
use lddm.Text.Map.{find}
use lddm.Text.Map.Laws.{IsMap, is_map-IsMap, is_map}
use lddm.Text.{same_text}
use lddm.Config.Types.{LddmConfig, create_default}
use lddm.Config.Parser.{set_session, set_weston, parse_string}
use lddm.Logging.Level.{level_to_string}
use lddm.Config.Values.{parse_string_list}
use lddm.Text.Map.{put}
use lddm.Text.Decimal.{decimal}
use lddm.Config.Writer.{write, IsWritable}
use lddm.Config.Writer.RoundTrip.{onto, parse_string-write}
use lddm.Config.Manager.{Files, from_file, standard, load_each}
use lddm.Config.Manager.Kept.{IsSound, load_each-IsSound}
use lddm.Config.Migrator.File.{
  Disk, migrate_file, migrated_text, target_file, temporary, find-migrate_file,
}

abbrev changed : LddmConfig
changed = record create_default {
  logging = record (create_default.logging) { console_output = false };
  process = record (create_default.process) { max_restart_count = 7 };
}

changed-IsWritable : IsWritable changed
unfolding level_to_string decimal
changed-IsWritable = record {
  texts = refl;
  display_number = omega arith;
  startup_timeout_ms = omega arith;
  stop_timeout_ms = omega arith;
  max_restart_count = omega arith;
  restart_window_seconds = omega arith;
}

parse_string-write_example :
    parse_string (unlines (write changed)) create_default ≡ ok (onto create_default changed)
parse_string-write_example = parse_string-write changed create_default changed-IsWritable

-- One file that is well formed, one that is not, and no others.
abbrev two_files : Files
two_files = record {
  exists = λ path. same_text path (bytes "good");
  read = λ path. find path (
      (bytes "good", bytes "[session]\ndisplay = 4294967297\n")
      ∷ (bytes "bad", bytes "user\n")
      ∷ []);
  variable = λ name. none;
}

load_each-IsSound_example : IsSound (
    load_each two_files
      (from_file (bytes "good") ∷ standard none ∷ from_file (bytes "bad") ∷ [])
      create_default)
load_each-IsSound_example =
    load_each-IsSound two_files
      (from_file (bytes "good") ∷ standard none ∷ from_file (bytes "bad") ∷ [])

abbrev disk : Disk
disk = record {
  files = (bytes "lddm.conf", bytes "[session]\nuser = x\n") ∷ (bytes "other", bytes "kept") ∷ [];
  opens = λ path. true;
  creates = λ path. true;
  stored = λ t. t;
  renames = λ from to. true;
}

disk-IsMap : IsMap disk.files
unfolding is_map
disk-IsMap = is_map-IsMap disk.files refl

apart : same_text (temporary 77 (target_file (bytes "lddm.conf") [])) (bytes "other") ≡ false
unfolding same_text
apart = refl

find-migrate_file_example :
    let (disk', r) = migrate_file 77 (bytes "lddm.conf") [] 1 disk in
    find (bytes "other") disk'.files ≡ (
      if has_value r && same_text (target_file (bytes "lddm.conf") []) (bytes "other")
      then migrated_text (bytes "lddm.conf") 1 disk
      else find (bytes "other") disk.files)
find-migrate_file_example =
    find-migrate_file 77 (bytes "lddm.conf") [] (bytes "other") 1 disk disk-IsMap apart

small_file :
    parse_string
      (bytes
        "# c\n[ Session ]\n User = 'bob'\n\n; x\n[environment]\nA=b=c\n[weston]\nargs = a, \"b c\"\n")
      create_default
    ≡ ok (record create_default {
      session = record (create_default.session) { default_user = bytes "bob" };
      weston = record (create_default.weston) { additional_args = bytes "a" ∷ bytes "b c" ∷ [] };
      environment = (bytes "A", bytes "b=c") ∷ [];
    })
unfolding parse_string parse_string_list put set_session set_weston
small_file = refl
