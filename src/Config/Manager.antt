-- ===== src/Config/Manager.antt =====
-- src/config/config.cpp, with the directory of the user's settings from src/platform/paths.cpp. A
-- configuration manager is its configuration; the file system and the environment are parameters.
pub mod Kept
use lddm.Base.{Bool, not, ◌&&◌, List, [], ◌∷◌, ◌++◌, Option, none, some, if◌then◌else◌}
use lddm.Core.Error.{Error, Status, Result, ok, err, done}
use lddm.Text.{Text, bytes, no_bytes}
use lddm.Config.Types.{LddmConfig, create_default}
use lddm.Config.Validator.{validate}
use lddm.Config.Parser.{parse_file}

-- What std::filesystem::exists, the opening of a file and getenv answer.
pub record Files : Type 0 where
  pub exists : Text → Bool
  pub read : Text → Option Text
  pub variable : Text → Option Text

-- `if (auto v = Environment::get(name); v && !v->empty()) return *v + suffix`
unfoldable pub set_variable : Files → Text → Option Text
set_variable files name = elim (files.variable name) [
  | none ↦ none
  | some v ↦ if no_bytes v then none else some v
]

unfoldable pub config_dir : Files → Text
config_dir files = elim (set_variable files (bytes "XDG_CONFIG_HOME")) [
  | some xdg ↦ xdg ++ bytes "/lddm"
  | none ↦ elim (set_variable files (bytes "HOME")) [
    | some home ↦ home ++ bytes "/.config/lddm"
    | none ↦ bytes "/etc/lddm"
  ]
]

unfoldable pub default_user_config_path : Files → Text
default_user_config_path files =
    if no_bytes (config_dir files) then [] else config_dir files ++ bytes "/lddm.conf"

abbrev pub primary_path : Text
primary_path = bytes "/etc/linuxdroid/lddm.conf"

abbrev pub fallback_path : Text
fallback_path = bytes "/etc/lddm/lddm.conf"

unfoldable pub default_system_config_path : Files → Text
default_system_config_path files =
    if files.exists primary_path
    then primary_path
    else if files.exists fallback_path
    then fallback_path
    else primary_path

unfoldable pub load_file : Files → Text → LddmConfig → LddmConfig × Status
load_file files path c = elim (parse_file (files.read path) c) [
  | err e ↦ (c, err e)
  | ok c' ↦ elim (validate c') [ err e ↦ (c, err e) | ok _ ↦ (c', done) ]
]

unfoldable pub load_defaults : LddmConfig → LddmConfig × Status
load_defaults c = (create_default, done)

-- Without an override.
unfoldable pub load_found : Files → LddmConfig → LddmConfig × Status
unfolding load_defaults
load_found files c =
    let user : Text = default_user_config_path files in
    if not (no_bytes user) && files.exists user
    then load_file files user c
    else if files.exists primary_path
    then load_file files primary_path c
    else if files.exists fallback_path
    then load_file files fallback_path c
    else load_defaults c

unfoldable pub load_standard : Files → Option Text → LddmConfig → LddmConfig × Status
load_standard files none c = load_found files c
load_standard files (some path) c =
    if no_bytes path then load_found files c else load_file files path c

-- What a client may ask of a manager.
pub data Load : Type 0 where
  from_file : Text → Load
  defaults : Load
  standard : Option Text → Load

unfoldable pub load : Files → Load → LddmConfig → LddmConfig × Status
load files (from_file path) c = load_file files path c
load files defaults c = load_defaults c
load files (standard override) c = load_standard files override c

-- Loads one after the other, whatever each returns.
unfoldable pub load_each : Files → List Load → LddmConfig → LddmConfig
load_each files [] c = c
load_each files (l ∷ ls) c = load_each files ls (load files l c).0
