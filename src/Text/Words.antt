-- ===== src/Text/Words.antt =====
-- Pieces of the reports: signed numbers, and texts that may be empty or missing.
use lddm.Base.{◌+◌, [], ◌∷◌, ◌++◌, if◌then◌else◌}
use lddm.Base.Int.{ℤ, pos, negsuc}
use lddm.Text.{Text, no_bytes}
use lddm.Text.Decimal.{decimal}

unfoldable pub signed_decimal : ℤ → Text
unfolding decimal
signed_decimal (pos n) = decimal n
signed_decimal (negsuc n) = b'-' ∷ decimal (n + 1)

-- `t.empty() ? other : t`
abbrev pub or_text : Text → Text → Text
or_text t other = if no_bytes t then other else t

-- A line.
abbrev pub line : Text → Text
line t = t ++ 10 ∷ []
