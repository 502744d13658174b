-- ===== src/Platform/Poll.antt =====
-- The loop `while (SystemClock::now() < deadline) { if (check) return; sleep_for(interval); }` of
-- stop_locked and kill_locked in src/process/process.cpp, and of the two wait_for_readiness.
use lddm.Base.{
  ℕ, zero, suc, ◌+◌, ◌≤◌, ◌<◌, ◌≡◌, inl, inr, Option, none, some, true, false, arith, ltb,
  Bool-cases, Option-cases,
}
use lddm.Platform.{Os, Sys, IsClock, sleep}

module _ {R : Type 0} (os : Os) (check : Sys → Option R × Sys) (deadline interval : ℕ) where
  -- `none` when the deadline has passed; the fuel bounds the rounds.
  unfoldable pub poll_until : ℕ → Sys → Option R × Sys
  poll_until zero s = (none, s)
  poll_until (suc fuel) s = elim (ltb (os.now s.moment) deadline) [
    | true ↦ elim (check s).0 [
      | some r ↦ (some r, (check s).1)
      | none ↦ poll_until fuel (sleep os interval (check s).1)
    ]
    | false ↦ (none, s)
  ]

  -- With more fuel than milliseconds left, the loop gives up only when the deadline has passed.
  pub poll_until_expired :
      (fuel : ℕ) (s : Sys)
      → IsClock os
      → ((s : Sys) → os.now s.moment ≤ os.now (check s).1.moment)
      → 0 < interval
      → deadline < os.now s.moment + fuel
      → (poll_until fuel s).0 ≡ none
      → deadline ≤ os.now (poll_until fuel s).1.moment
  unfolding poll_until sleep
  poll_until_expired zero s c k i f e = omega arith
  poll_until_expired (suc fuel) s c k i f e = ground (
    arith,
    k s,
    c.sleeps (check s).1.moment interval,
    poll_until_expired fuel (sleep os interval (check s).1) c k i,
  )

  -- What holds of the system before the loop, and is kept by the check and by sleeping, holds after.
  pub poll_until_inv {ℓ} :
      (P : Sys → Type ℓ)
      → ((s : Sys) → P s → P (check s).1)
      → ((s : Sys) → P s → P (sleep os interval s))
      → (fuel : ℕ) (s : Sys) → P s
      → P (poll_until fuel s).1
  unfolding poll_until
  poll_until_inv P k w zero s h = h
  poll_until_inv P k w (suc fuel) s h = elim (Bool-cases (ltb (os.now s.moment) deadline)) [
    | inr e ↦ rw (e, poll_until) h
    | inl e ↦ elim (Option-cases (check s).0) [
      | inr (r, found) ↦ rw (e, poll_until) (rw (found, poll_until) (k s h))
      | inl miss ↦
          rw (e, poll_until)
            (rw (miss, poll_until)
              (poll_until_inv P k w fuel (sleep os interval (check s).1) (w _ (k s h))))
    ]
  ]
