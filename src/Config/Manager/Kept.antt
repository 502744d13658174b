-- ===== src/Config/Manager/Kept.antt =====
-- What loading keeps of a configuration.
use lddm.Base.{
  ◌≡◌, refl, inl, inr, false, not, ◌&&◌, List, [], ◌∷◌, none, some, arith, ap, subst, if_holds,
}
use lddm.Core.Error.{Result-cases, has_value, Status}
use lddm.Text.{Text, no_bytes}
use lddm.Config.Types.{LddmConfig, create_default}
use lddm.Config.Validator.{validate}
use lddm.Config.Parser.{parse_file}
use lddm.Config.Manager.{
  Files, Load, default_user_config_path, primary_path, fallback_path, from_file, defaults, standard,
  load, load_each, load_file, load_found, load_standard, load_defaults,
}
use lddm.Config.Validator.Validity.{IsValid, validate-IsValid}
use lddm.Config.Parser.Bounds.{IsBounded, Holds, parse_file_bound}

-- Valid, with numbers of 32 bits.
pub record IsSound (c : LddmConfig) : Type 0 where
  pub valid : IsValid c
  pub bounded : IsBounded c

default-IsSound : IsSound create_default
unfolding validate
default-IsSound = record {
  valid = validate-IsValid create_default refl;
  bounded = record {
    session = record { display_number = omega arith };
    process = record {
      startup_timeout_ms = omega arith;
      stop_timeout_ms = omega arith;
      max_restart_count = omega arith;
      restart_window_seconds = omega arith;
    };
  };
}

load_file-IsSound :
    (files : Files) (path : Text) (c : LddmConfig) → IsSound c → IsSound (load_file files path c).0
unfolding load_file
load_file-IsSound files path c h = elim (Result-cases (parse_file (files.read path) c)) [
  | inl (e, eq) ↦ rw (eq, load_file) h
  | inr (c', eq) ↦ elim (Result-cases (validate c')) [
    | inl (e, eq') ↦ rw (eq, load_file) (rw (eq', load_file) h)
    | inr (u, eq') ↦
        rw (eq, load_file)
          (rw (eq', load_file)
            (record {
              valid = validate-IsValid c' (ap has_value eq');
              bounded = subst (Holds IsBounded) eq (parse_file_bound (files.read path) c h.bounded);
            }))
  ]
]

load_found-IsSound : (files : Files) (c : LddmConfig) → IsSound c → IsSound (load_found files c).0
unfolding load_found load_defaults
load_found-IsSound files c h =
    let P : LddmConfig × Status → Type 0 = λ r. IsSound r.0 in
    let from : (path : Text) → IsSound (load_file files path c).0 =
      λ path. load_file-IsSound files path c h in
    let user : Text = default_user_config_path files in
    if_holds P (not (no_bytes user) && files.exists user) (from user) (
      if_holds P (files.exists primary_path) (from primary_path)
        (if_holds P (files.exists fallback_path) (from fallback_path) default-IsSound))

load-IsSound : (files : Files) (l : Load) (c : LddmConfig) → IsSound c → IsSound (load files l c).0
unfolding load load_standard load_defaults
load-IsSound files (from_file path) c h = load_file-IsSound files path c h
load-IsSound files defaults c h = default-IsSound
load-IsSound files (standard none) c h = load_found-IsSound files c h
load-IsSound files (standard (some path)) c h =
    if_holds {A = LddmConfig × Status} (λ r. IsSound r.0) (no_bytes path)
      (load_found-IsSound files c h) (load_file-IsSound files path c h)

kept-IsSound :
    (files : Files) (ls : List Load) (c : LddmConfig) → IsSound c → IsSound (load_each files ls c)
unfolding load_each
kept-IsSound files [] c h = h
kept-IsSound files (l ∷ ls) c h =
    kept-IsSound files ls (load files l c).0 (load-IsSound files l c h)

-- Whatever is loaded into a new manager, its configuration is valid and its numbers have 32 bits.
pub load_each-IsSound :
    (files : Files) (ls : List Load) → IsSound (load_each files ls create_default)
load_each-IsSound files ls = kept-IsSound files ls create_default default-IsSound

-- A load that fails leaves the configuration as it was.
pub load_refused :
    (files : Files) (l : Load) (c : LddmConfig)
    → has_value (load files l c).1 ≡ false
    → (load files l c).0 ≡ c
unfolding load load_standard load_found load_defaults load_file
load_refused files l c h = ground (arith, h)
