-- ===== src/Platform/Clock.antt =====
-- src/platform/clock.cpp. clock_gettime(2) is `none` where it fails; the calendar time of a moment up to
-- the second, as gmtime_r and std::put_time give it, is a parameter.
use lddm.Base.{ℕ, ◌+◌, ◌*◌, ◌/◌, ◌%◌, ◌^◌, Option, none, some, ◌++◌}
use lddm.Text.{Text, bytes}
use lddm.Logging.Message.{three_digits}

-- uint64_t
abbrev pub u64 : ℕ → ℕ
u64 n = n % 2 ^ 64

unfoldable pub monotonic_nanos : Option (ℕ × ℕ) → ℕ
monotonic_nanos none = 0
monotonic_nanos (some (seconds, nanos)) = u64 (seconds * 1000000000 + nanos)

unfoldable pub monotonic_millis : Option (ℕ × ℕ) → ℕ
unfolding monotonic_nanos
monotonic_millis ts = monotonic_nanos ts / 1000000

-- A time in milliseconds since the epoch.
abbrev pub format_iso8601 : (ℕ → Text) → ℕ → Text
format_iso8601 calendar tp = calendar tp ++ bytes "." ++ three_digits (tp % 1000) ++ bytes "Z"
