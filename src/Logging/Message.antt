-- ===== src/Logging/Message.antt =====
-- include/lddm/logging/log_message.hpp and src/logging/log_message.cpp. The calendar time up to the
-- second, as std::put_time writes it, and the name of the thread are texts that the system gives.
use lddm.Base.{ℕ, ◌%◌, Bool, [], ◌∷◌, ◌++◌, ltb, if◌then◌else◌}
use lddm.Text.{Text, bytes, no_bytes}
use lddm.Text.Decimal.{decimal}
use lddm.Logging.Level.{
  LogLevel, trace, debug, info, warn, error, fatal, off, LogSubsystem, level_to_string,
  subsystem_to_string,
}

pub record LogMessage : Type 0 where
  pub calendar : Text
  pub milliseconds : ℕ  -- since the epoch
  pub thread_id : Text
  pub level : LogLevel
  pub subsystem : LogSubsystem
  pub file_name : Text
  pub line : ℕ
  pub text : Text

-- ESC and what follows.
abbrev pub escape : Text → Text
escape t = 27 ∷ t

abbrev pub level_color : LogLevel → Text
level_color trace = escape (bytes "[36m")
level_color debug = escape (bytes "[34m")
level_color info = escape (bytes "[32m")
level_color warn = escape (bytes "[33m")
level_color error = escape (bytes "[31m")
level_color fatal = escape (bytes "[1;35m")
level_color off = []

abbrev pub color_reset : Text
color_reset = escape (bytes "[0m")

abbrev pub color_dim : Text
color_dim = escape (bytes "[2m")

-- `std::setfill('0') << std::setw(3)`, of less than 1000.
abbrev pub three_digits : ℕ → Text
three_digits n =
    if ltb n 10 then b'0' ∷ b'0' ∷ decimal n else if ltb n 100 then b'0' ∷ decimal n else decimal n

-- `std::setw(5) << std::left`: spaces behind.
abbrev pub five_wide : Text → Text
five_wide (a ∷ b ∷ c ∷ d ∷ e ∷ t) = a ∷ b ∷ c ∷ d ∷ e ∷ t
five_wide (a ∷ b ∷ c ∷ d ∷ []) = a ∷ b ∷ c ∷ d ∷ 32 ∷ []
five_wide (a ∷ b ∷ c ∷ []) = a ∷ b ∷ c ∷ 32 ∷ 32 ∷ []
five_wide (a ∷ b ∷ []) = a ∷ b ∷ 32 ∷ 32 ∷ 32 ∷ []
five_wide (a ∷ []) = a ∷ 32 ∷ 32 ∷ 32 ∷ 32 ∷ []
five_wide [] = 32 ∷ 32 ∷ 32 ∷ 32 ∷ 32 ∷ []

unfoldable pub format : Bool → LogMessage → Text
unfolding decimal level_to_string subsystem_to_string
format colorize m =
    let dim : Text = if colorize then color_dim else [] in
    let color : Text = if colorize then level_color m.level else [] in
    let reset : Text = if colorize then color_reset else [] in
    let place : Text =
      dim ++ bytes " (" ++ m.file_name ++ bytes ":" ++ decimal m.line ++ bytes ")" ++ reset in
    dim
    ++ m.calendar
    ++ bytes "."
    ++ three_digits (m.milliseconds % 1000)
    ++ bytes "Z"
    ++ reset
    ++ bytes " [tid:"
    ++ m.thread_id
    ++ bytes "] "
    ++ color
    ++ bytes "["
    ++ five_wide (level_to_string m.level)
    ++ bytes "]"
    ++ reset
    ++ bytes " ["
    ++ subsystem_to_string m.subsystem
    ++ bytes "] "
    ++ m.text
    ++ (if no_bytes m.file_name then [] else place)
