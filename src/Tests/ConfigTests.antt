-- ===== src/Tests/ConfigTests.antt =====
-- The theorems on configuration files at concrete inputs.
use lddm.Base.{◌≡◌, refl, false, ◌++◌}
use lddm.Core.Error.{ok}
use lddm.Text.{Text, bytes, lines, unlines}
use lddm.Config.Migrator.{detect_version, migrate_content, keep_lines, header}
use lddm.Config.Migrator.Version.{migrate_content-detect_version}

abbrev old : Text
old = bytes "[session]\nname = lddm\n\n[meta]\nauthor = x\n"

abbrev new : Text
new = unlines (header ++ keep_lines false (lines old))

old-migrated : migrate_content old 1 ≡ ok new
unfolding migrate_content detect_version
old-migrated = refl

migrate_content-detect_version_example : (detect_version new ≡ 1) × (migrate_content new 1 ≡ ok new)
migrate_content-detect_version_example = migrate_content-detect_version old 1 new old-migrated
