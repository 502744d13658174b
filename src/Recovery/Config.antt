-- ===== src/Recovery/Config.antt =====
-- src/recovery/recovery_config.cpp. A double is known by its bits, and the operations on doubles are
-- a parameter. Attempts, windows and delays are uint32_t values.
use lddm.Base.{
  ap, ◌∙◌, ◌<◌, Bool-cases, inl, inr, ◌^◌, ℕ, ◌-◌, ◌≤◌, ◌≡◌, Bool, true, false, ◌||◌, arith, ltb,
  ◌==◌, if◌then◌else◌,
}
use lddm.Core.Error.{ErrorCategory, recovery_precondition_failed, error, Status, err, done}
use lddm.Recovery.Types.{RecoveryPolicy, component_restart}

pub record Fp : Type 0 where
  pub of_u32 : ℕ → ℕ
  pub times : ℕ → ℕ → ℕ
  pub pow : ℕ → ℕ → ℕ
  pub less : ℕ → ℕ → Bool
  pub to_u32 : ℕ → ℕ
  pub is_nan : ℕ → Bool

-- What IEEE 754 and the annex F of C say of the doubles that come up here: 32-bit numbers are exact, a
-- double from 0 up to a 32-bit number is truncated to that number at most, std::pow of a number that
-- is not below 1 is not negative and no NaN (it may be infinite), and neither is its product with a
-- positive number.
pub record IsFp (fp : Fp) : Type 0 where
  pub round_trip : (n : ℕ) → n < 2 ^ 32 → fp.to_u32 (fp.of_u32 n) ≡ n
  pub less-of_u32 :
      (m n : ℕ) → m < 2 ^ 32 → n < 2 ^ 32 → fp.less (fp.of_u32 m) (fp.of_u32 n) ≡ ltb m n
  pub truncated :
      (a n : ℕ)
      → n < 2 ^ 32
      → fp.is_nan a ≡ false
      → fp.less a (fp.of_u32 0) ≡ false
      → fp.less (fp.of_u32 n) a ≡ false
      → fp.to_u32 a ≤ n
  pub pow_zero : (a : ℕ) → fp.pow a (fp.of_u32 0) ≡ fp.of_u32 1
  pub pow_positive :
      (a n : ℕ)
      → n < 2 ^ 32
      → fp.is_nan a ≡ false
      → fp.less a (fp.of_u32 1) ≡ false
      → (fp.is_nan (fp.pow a (fp.of_u32 n)) ≡ false)
        × (fp.less (fp.pow a (fp.of_u32 n)) (fp.of_u32 0) ≡ false)
  pub times_one : (n : ℕ) → n < 2 ^ 32 → fp.times (fp.of_u32 n) (fp.of_u32 1) ≡ fp.of_u32 n
  pub times_positive :
      (n a : ℕ)
      → 0 < n
      → n < 2 ^ 32
      → fp.is_nan a ≡ false
      → fp.less a (fp.of_u32 0) ≡ false
      → (fp.is_nan (fp.times (fp.of_u32 n) a) ≡ false)
        × (fp.less (fp.times (fp.of_u32 n) a) (fp.of_u32 0) ≡ false)

pub record RecoveryConfig : Type 0 where
  pub enabled : Bool
  pub max_attempts : ℕ
  pub window_ms : ℕ
  pub backoff_initial_ms : ℕ
  pub backoff_multiplier : ℕ
  pub backoff_max_ms : ℕ
  pub allow_component_restart : Bool
  pub allow_session_restart : Bool
  pub default_policy : RecoveryPolicy

-- The members' initializers; `two` is the bits of 2.0.
unfoldable pub create_default : ℕ → RecoveryConfig
create_default two = record {
  enabled = true;
  max_attempts = 3;
  window_ms = 60000;
  backoff_initial_ms = 50;
  backoff_multiplier = two;
  backoff_max_ms = 1000;
  allow_component_restart = true;
  allow_session_restart = true;
  default_policy = component_restart;
}

unfoldable pub validate : Fp → RecoveryConfig → Status
validate fp c =
    let refuse : Status = err (error ErrorCategory.recovery recovery_precondition_failed) in
    if c.max_attempts == 0
    then refuse
    else if ltb c.window_ms 100
    then refuse
    else if fp.less c.backoff_multiplier (fp.of_u32 1)
    then refuse
    else if ltb c.backoff_max_ms c.backoff_initial_ms
    then refuse
    else done

-- `std::pow(multiplier, attempt - 1)` times the initial delay.
abbrev pub delay : Fp → RecoveryConfig → ℕ → ℕ
delay fp c attempt =
    fp.times (fp.of_u32 c.backoff_initial_ms)
      (fp.pow c.backoff_multiplier (fp.of_u32 (attempt - 1)))

unfoldable pub calculate_backoff : Fp → RecoveryConfig → ℕ → ℕ
calculate_backoff fp c attempt =
    let most : ℕ = fp.of_u32 c.backoff_max_ms in
    let d : ℕ = delay fp c attempt in
    if attempt == 0 || c.backoff_initial_ms == 0
    then 0
    else fp.to_u32 (if fp.less most d then most else d)

-- What a valid configuration says of the delays.
validate_bounds :
    (fp : Fp) (c : RecoveryConfig)
    → validate fp c ≡ done
    → (fp.less c.backoff_multiplier (fp.of_u32 1) ≡ false)
      × (c.backoff_initial_ms ≤ c.backoff_max_ms)
unfolding validate
validate_bounds fp c e = ground arith

module _ (fp : Fp) (v : IsFp fp) (c : RecoveryConfig) where
  -- The product before the minimum is taken: no NaN, and not negative.
  delay_positive :
      (attempt : ℕ)
      → fp.less c.backoff_multiplier (fp.of_u32 1) ≡ false
      → fp.is_nan c.backoff_multiplier ≡ false
      → 0 < c.backoff_initial_ms
      → c.backoff_initial_ms < 2 ^ 32
      → attempt < 2 ^ 32
      → (fp.is_nan (delay fp c attempt) ≡ false)
        × (fp.less (delay fp c attempt) (fp.of_u32 0) ≡ false)
  delay_positive attempt one n pos small few =
      let (number, positive) =
        v.pow_positive c.backoff_multiplier (attempt - 1) (omega arith) n one in
      v.times_positive c.backoff_initial_ms _ pos small number positive

  backoff-le :
      (attempt : ℕ)
      → (fp.is_nan (delay fp c attempt) ≡ false)
        × (fp.less (delay fp c attempt) (fp.of_u32 0) ≡ false)
      → c.backoff_max_ms < 2 ^ 32
      → calculate_backoff fp c attempt ≤ c.backoff_max_ms
  unfolding calculate_backoff
  backoff-le attempt d small = ground (
    arith,
    v.round_trip c.backoff_max_ms small,
    v.truncated (delay fp c attempt) c.backoff_max_ms small d.0 d.1,
  )

  -- The first delay is the initial one.
  first_backoff :
      c.backoff_initial_ms ≤ c.backoff_max_ms
      → c.backoff_max_ms < 2 ^ 32
      → calculate_backoff fp c 1 ≡ c.backoff_initial_ms
  unfolding calculate_backoff
  first_backoff le small =
      let first : delay fp c 1 ≡ fp.of_u32 c.backoff_initial_ms =
        ap (fp.times (fp.of_u32 c.backoff_initial_ms)) (v.pow_zero c.backoff_multiplier)
        ∙ v.times_one c.backoff_initial_ms (omega arith) in
      rw (first, calculate_backoff)
        (ground (
          arith,
          v.less-of_u32 c.backoff_max_ms c.backoff_initial_ms small (omega arith),
          v.round_trip c.backoff_initial_ms (omega arith),
        ))

  -- Under a configuration that `validate` accepts and whose multiplier is no NaN, the delay before the
  -- first attempt is the initial one, and before every attempt at most the configured maximum, if
  -- doubles are as IEEE 754 and C say; the maximum and the attempt have 32 bits.
  pub calculate_backoff-le :
      (attempt : ℕ)
      → validate fp c ≡ done
      → fp.is_nan c.backoff_multiplier ≡ false
      → c.backoff_max_ms < 2 ^ 32
      → attempt < 2 ^ 32
      → (calculate_backoff fp c 1 ≡ c.backoff_initial_ms)
        × (calculate_backoff fp c attempt ≤ c.backoff_max_ms)
  unfolding calculate_backoff
  calculate_backoff-le attempt e n small few =
      let (one, le) = validate_bounds fp c e in
      (
        first_backoff le small,
        elim (Bool-cases (c.backoff_initial_ms == 0)) [
          | inl at_once ↦ ground arith
          | inr waits ↦
              backoff-le attempt (delay_positive attempt one n (ground arith) (omega arith) few)
                small
        ],
      )
