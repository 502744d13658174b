-- ===== src/Program/Settings/Window.antt =====
-- The configuration of the recovery that src/main.cpp makes.
use lddm.Base.{ℕ, ◌*◌, ◌%◌, ◌^◌, ◌≤◌, ◌≡◌, false, arith}
use lddm.Core.Error.{done}
use lddm.Config.Types.{LddmConfig}
use lddm.Recovery.Config.{Fp, RecoveryConfig, validate}
use lddm.Recovery.Config
use lddm.Program.Settings.{recovery_config}

window_exact : (s : ℕ) → s ≤ 4294967 → s * 1000 % 2 ^ 32 ≡ s * 1000
window_exact s h = ground (arith, h)

-- If restarts are allowed, and are counted over one second at least and 4294967 seconds at most, then the
-- recovery manager accepts the configuration that the program makes for it, and its window is that
-- many seconds; two must not be less than one.
pub recovery_config_lem :
    (fp : Fp) (two : ℕ) (c : LddmConfig)
    → fp.less two (fp.of_u32 1) ≡ false
    → 1 ≤ c.process.max_restart_count
    → 1 ≤ c.process.restart_window_seconds
    → c.process.restart_window_seconds ≤ 4294967
    → (validate fp (recovery_config two c) ≡ done)
      × ((recovery_config two c).window_ms ≡ c.process.restart_window_seconds * 1000)
unfolding recovery_config validate Config.create_default
recovery_config_lem fp two c l m w u = (
  rw (window_exact c.process.restart_window_seconds u) (ground (arith, l, m, w)),
  window_exact c.process.restart_window_seconds u,
)
