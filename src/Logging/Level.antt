-- ===== src/Logging/Level.antt =====
-- include/lddm/logging/log_level.hpp and src/logging/log_level.cpp.
use lddm.Base.{Bool, ◌||◌, ◌≡◌, refl, Option, none, some, String, if◌then◌else◌}
use lddm.Text.{Text, bytes, same_text}

pub data LogLevel : Type 0 where
  trace debug info warn error fatal off : LogLevel

pub data LogSubsystem : Type 0 where
  lddm_main session process config platform weston ldde recovery : LogSubsystem

-- `str == "…"`.
abbrev pub reads : Text → String → Bool
reads t s = same_text t (bytes s)

unfoldable pub level_to_string : LogLevel → Text
level_to_string trace = bytes "TRACE"
level_to_string debug = bytes "DEBUG"
level_to_string info = bytes "INFO"
level_to_string warn = bytes "WARN"
level_to_string error = bytes "ERROR"
level_to_string fatal = bytes "FATAL"
level_to_string off = bytes "OFF"

unfoldable pub parse_log_level : Text → Option LogLevel
unfolding same_text
parse_log_level t =
    if reads t "TRACE" || reads t "trace"
    then some trace
    else if reads t "DEBUG" || reads t "debug"
    then some debug
    else if reads t "INFO" || reads t "info"
    then some info
    else if reads t "WARN" || reads t "warn" || reads t "WARNING" || reads t "warning"
    then some warn
    else if reads t "ERROR" || reads t "error"
    then some error
    else if reads t "FATAL" || reads t "fatal"
    then some fatal
    else if reads t "OFF" || reads t "off"
    then some off
    else none

unfoldable pub subsystem_to_string : LogSubsystem → Text
subsystem_to_string lddm_main = bytes "LDDM"
subsystem_to_string session = bytes "SESSION"
subsystem_to_string process = bytes "PROCESS"
subsystem_to_string config = bytes "CONFIG"
subsystem_to_string platform = bytes "PLATFORM"
subsystem_to_string weston = bytes "WESTON"
subsystem_to_string ldde = bytes "LDDE"
subsystem_to_string recovery = bytes "RECOVERY"

unfoldable pub parse_log_subsystem : Text → Option LogSubsystem
unfolding same_text
parse_log_subsystem t =
    if reads t "LDDM" || reads t "lddm"
    then some lddm_main
    else if reads t "SESSION" || reads t "session"
    then some session
    else if reads t "PROCESS" || reads t "process"
    then some process
    else if reads t "CONFIG" || reads t "config"
    then some config
    else if reads t "PLATFORM" || reads t "platform"
    then some platform
    else if reads t "WESTON" || reads t "weston"
    then some weston
    else if reads t "LDDE" || reads t "ldde"
    then some ldde
    else if reads t "RECOVERY" || reads t "recovery"
    then some recovery
    else none

-- A level, or a subsystem, that is written is read back.
pub parse_log_level-level_to_string : (l : LogLevel) → parse_log_level (level_to_string l) ≡ some l
unfolding parse_log_level level_to_string
parse_log_level-level_to_string trace = refl
parse_log_level-level_to_string debug = refl
parse_log_level-level_to_string info = refl
parse_log_level-level_to_string warn = refl
parse_log_level-level_to_string error = refl
parse_log_level-level_to_string fatal = refl
parse_log_level-level_to_string off = refl

pub parse_log_subsystem-subsystem_to_string :
    (s : LogSubsystem) → parse_log_subsystem (subsystem_to_string s) ≡ some s
unfolding parse_log_subsystem subsystem_to_string
parse_log_subsystem-subsystem_to_string lddm_main = refl
parse_log_subsystem-subsystem_to_string session = refl
parse_log_subsystem-subsystem_to_string process = refl
parse_log_subsystem-subsystem_to_string config = refl
parse_log_subsystem-subsystem_to_string platform = refl
parse_log_subsystem-subsystem_to_string weston = refl
parse_log_subsystem-subsystem_to_string ldde = refl
parse_log_subsystem-subsystem_to_string recovery = refl
