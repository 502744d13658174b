-- ===== src/Recovery/Limit.antt =====
-- src/recovery/recovery_manager.cpp: the sliding window bounds the recoveries. Between two requests
-- the session and the system may change in any way, so each request brings its own.
use lddm.Base.{
  ℕ, suc, ◌+◌, ◌≤◌, ◌<◌, ◌^◌, ◌≡◌, refl, subst, Bool, true, false, not, List, [], ◌∷◌, ◌++◌, ◌⊎◌,
  inl, inr, if◌then◌else◌, arith, ◌==◌, length, length-append, Bool-cases,
}
use lddm.Platform.{Os}
use lddm.Session.World.{World}
use lddm.Recovery.Types.{RecoveryReason, Target}
use lddm.Recovery.Config.{Fp, RecoveryConfig}
use lddm.Recovery.Diagnostics.{u32}
use lddm.Recovery.Manager.{RecoveryManager, create, is_busy, purge_expired, target_of}
use lddm.Recovery.Recover.{recover, purge}
use lddm.Recovery.Window.{
  count_within, count_within-le, length-purge, IsCovered, IsCovered-purge, IsCovered-new,
}
use lddm.Recovery.Kept.{Stepped, recover_purged-Stepped}
use lddm.Recovery.Settled.{recover-settled}

pub record Request : Type 0 where
  pub reason : RecoveryReason
  pub component : Target
  pub world : World

abbrev pub time_of : Os → Request → ℕ
time_of os r = os.now r.world.env.sys.moment

abbrev pub step : Os → Fp → Request → RecoveryManager → RecoveryManager
step os fp r m = (recover os fp r.reason r.component m r.world).0

-- A recovery was executed: the count of recoveries has changed.
unfoldable pub is_executed : RecoveryManager → RecoveryManager → Bool
is_executed m m' = not (m'.diagnostics.total_attempts == m.diagnostics.total_attempts)

-- The manager and the times of the executed recoveries, latest first.
unfoldable pub run : Os → Fp → List Request → RecoveryManager → List ℕ → RecoveryManager × List ℕ
run os fp [] m times = (m, times)
run os fp (r ∷ rs) m times =
    let m' : RecoveryManager = step os fp r m in
    run os fp rs m' (if is_executed m m' then time_of os r ∷ times else times)

-- The times are in order, from `last` on.
unfoldable pub IsOrdered : Os → ℕ → List Request → Type 0
IsOrdered os last [] = Unit
IsOrdered os last (r ∷ rs) = (last ≤ time_of os r) × IsOrdered os (time_of os r) rs

-- At each time, latest first, at most `most` of the times up to it are within the window.
unfoldable pub IsSparse : ℕ → ℕ → List ℕ → Type 0
IsSparse window most [] = Unit
IsSparse window most (t ∷ ts) = (count_within window t (t ∷ ts) ≤ most) × IsSparse window most ts

-- What holds between two requests, `n` of which are done.
record Inv (last n : ℕ) (m : RecoveryManager) (times : List ℕ) : Type 0 where
  idle : is_busy m ≡ false
  few : length m.attempt_timestamps ≤ n
  cover : IsCovered m.config.window_ms last times m.attempt_timestamps
  sparse : IsSparse m.config.window_ms m.config.max_attempts times

step-idle :
    (os : Os) (fp : Fp) (r : Request) (m : RecoveryManager)
    → is_busy m ≡ false
    → is_busy (step os fp r m) ≡ false
unfolding is_busy
step-idle os fp r m h = ground (arith, recover-settled os fp r.reason r.component m r.world h)

step-Stepped :
    (os : Os) (fp : Fp) (r : Request) (m : RecoveryManager)
    → is_busy m ≡ false
    → Stepped (time_of os r) (purge (time_of os r) m) (step os fp r m)
unfolding recover
step-Stepped os fp r m h =
    rw (h, Stepped, step)
      (recover_purged-Stepped os fp r.reason (target_of r.reason r.component)
        (purge (time_of os r) m) r.world)

not_executed :
    (m m' : RecoveryManager)
    → m'.diagnostics.total_attempts ≡ m.diagnostics.total_attempts
    → is_executed m m' ≡ false
unfolding is_executed
not_executed m m' e = ground arith

-- The window of a new time, where the count of recoveries may have changed.
IsSparse-new :
    (c : RecoveryConfig) (last t n : ℕ) (times ts : List ℕ) (m m' : RecoveryManager)
    → length ts ≤ n
    → n + 1 < 2 ^ 32
    → last ≤ t
    → IsCovered c.window_ms last times ts
    → IsSparse c.window_ms c.max_attempts times
    → (m'.diagnostics.total_attempts ≡ m.diagnostics.total_attempts)
      ⊎ (u32 (length (purge_expired c.window_ms t ts ++ t ∷ [])) ≤ c.max_attempts)
    → IsSparse c.window_ms c.max_attempts (if is_executed m m' then t ∷ times else times)
unfolding IsSparse
IsSparse-new c last t n times ts m m' few small h cover sparse (inl e) =
    rw (not_executed m m' e) sparse
IsSparse-new c last t n times ts m m' few small h cover sparse (inr e) =
    let rest : List ℕ = purge_expired c.window_ms t ts in
    let within : count_within c.window_ms t (t ∷ times) ≤ c.max_attempts = ground (
      arith,
      IsCovered-new c.window_ms last t times ts true h cover t (omega arith),
      count_within-le c.window_ms t (rest ++ t ∷ []),
      length-append rest (t ∷ []),
      length-purge c.window_ms t ts,
    ) in
    elim (Bool-cases (is_executed m m')) [ inl b ↦ rw b (within, sparse) | inr b ↦ rw b sparse ]

-- The times after a request.
abbrev times_after : Os → Fp → Request → RecoveryManager → List ℕ → List ℕ
times_after os fp r m times = if is_executed m (step os fp r m) then time_of os r ∷ times else times

step-config :
    (os : Os) (fp : Fp) (r : Request) (m : RecoveryManager)
    → is_busy m ≡ false
    → (step os fp r m).config ≡ m.config
unfolding purge
step-config os fp r m h = (step-Stepped os fp r m h).0

step-few :
    (os : Os) (fp : Fp) (last n : ℕ) (r : Request) (m : RecoveryManager) (times : List ℕ)
    → Inv last n m times
    → length (step os fp r m).attempt_timestamps ≤ suc n
unfolding purge
step-few os fp last n r m times inv =
    let rest : List ℕ = purge_expired m.config.window_ms (time_of os r) m.attempt_timestamps in
    let shorter : length rest ≤ n =
      omega (arith, length-purge m.config.window_ms (time_of os r) m.attempt_timestamps, inv.few) in
    elim (step-Stepped os fp r m inv.idle).1 [
      | inl same ↦ rw (same.0) (omega (arith, shorter))
      | inr new ↦ rw (new.0) (omega (arith, shorter, length-append rest (time_of os r ∷ [])))
    ]

step-cover :
    (os : Os) (fp : Fp) (last n : ℕ) (r : Request) (m : RecoveryManager) (times : List ℕ)
    → Inv last n m times
    → last ≤ time_of os r
    → IsCovered m.config.window_ms
        (time_of os r)
        (times_after os fp r m times)
        (step os fp r m).attempt_timestamps
unfolding purge
step-cover os fp last n r m times inv h =
    let window : ℕ = m.config.window_ms in
    let t : ℕ = time_of os r in
    let ts : List ℕ = m.attempt_timestamps in
    let m' : RecoveryManager = step os fp r m in
    elim (step-Stepped os fp r m inv.idle).1 [
      | inl same ↦
          rw (same.0)
            (rw (not_executed m m' same.1) (IsCovered-purge window last t times ts h inv.cover))
      | inr new ↦ rw (new.0) (IsCovered-new window last t times ts (is_executed m m') h inv.cover)
    ]

step-IsSparse :
    (os : Os) (fp : Fp) (last n : ℕ) (r : Request) (m : RecoveryManager) (times : List ℕ)
    → Inv last n m times
    → last ≤ time_of os r
    → n + 1 < 2 ^ 32
    → IsSparse m.config.window_ms m.config.max_attempts (times_after os fp r m times)
unfolding purge
step-IsSparse os fp last n r m times inv h small =
    let new =
      IsSparse-new m.config last (time_of os r) n times m.attempt_timestamps m (step os fp r m)
        inv.few small h inv.cover inv.sparse in
    elim (step-Stepped os fp r m inv.idle).1 [
      | inl same ↦ new (inl (same.1))
      | inr added ↦ new (added.1)
    ]

step-Inv :
    (os : Os) (fp : Fp) (last n : ℕ) (r : Request) (m : RecoveryManager) (times : List ℕ)
    → Inv last n m times
    → last ≤ time_of os r
    → n + 1 < 2 ^ 32
    → Inv (time_of os r) (suc n) (step os fp r m) (times_after os fp r m times)
step-Inv os fp last n r m times inv h small = record {
  idle = step-idle os fp r m inv.idle;
  few = step-few os fp last n r m times inv;
  cover = rw (step-config os fp r m inv.idle) (step-cover os fp last n r m times inv h);
  sparse = rw (step-config os fp r m inv.idle) (step-IsSparse os fp last n r m times inv h small);
}

run-IsSparse :
    (os : Os) (fp : Fp) (rs : List Request) (last n : ℕ) (m : RecoveryManager) (times : List ℕ)
    → Inv last n m times
    → IsOrdered os last rs
    → n + length rs < 2 ^ 32
    → IsSparse m.config.window_ms m.config.max_attempts (run os fp rs m times).1
unfolding run IsOrdered
run-IsSparse os fp [] last n m times inv o small = inv.sparse
run-IsSparse os fp (r ∷ rs) last n m times inv o small =
    subst
      (λ c.
        IsSparse c.window_ms c.max_attempts
          (run os fp rs (step os fp r m) (times_after os fp r m times)).1)
      (step-config os fp r m inv.idle)
      (run-IsSparse os fp rs (time_of os r) (suc n) (step os fp r m) (times_after os fp r m times)
        (step-Inv os fp last n r m times inv o.0 (omega arith)) o.1 (omega arith))

-- For a fresh manager and fewer than 2^32 requests in the order of the clock, at the time of each
-- executed recovery at most max_attempts of those executed up to then are within the window.
pub recoveries-IsSparse :
    (os : Os) (fp : Fp) (session : Bool) (c : RecoveryConfig) (rs : List Request)
    → IsOrdered os 0 rs
    → length rs < 2 ^ 32
    → IsSparse c.window_ms c.max_attempts (run os fp rs (create session c) []).1
unfolding create is_busy IsSparse count_within
recoveries-IsSparse os fp session c rs o small =
    run-IsSparse os fp rs 0 0 (create session c) []
      (record { idle = refl; few = omega arith; cover = λ now le. omega arith; sparse = tt }) o
      (omega arith)
