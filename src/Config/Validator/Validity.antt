-- ===== src/Config/Validator/Validity.antt =====
-- What src/config/config_validator.cpp accepts.
use lddm.Base.{◌≡◌, true, false, ◌&&◌, ◌==◌, arith}
use lddm.Core.Error.{has_value}
use lddm.Text.{no_bytes}
use lddm.Config.Types.{LddmConfig}
use lddm.Config.Validator.{validate}

-- What a configuration must have to be used.
pub record IsValid (c : LddmConfig) : Type 0 where
  pub socket_path : no_bytes c.server.socket_path ≡ false
  pub runtime_dir : no_bytes c.server.runtime_dir ≡ false
  pub default_user : no_bytes c.session.default_user ≡ false
  pub session_type : no_bytes c.session.session_type ≡ false
  pub weston_executable : no_bytes c.weston.executable ≡ false
  pub socket_name : no_bytes c.weston.socket_name ≡ false
  pub ldde_executable : (c.ldde.autostart && no_bytes c.ldde.executable) ≡ false
  pub startup_timeout : (c.process.startup_timeout_ms == 0) ≡ false
  pub stop_timeout : (c.process.stop_timeout_ms == 0) ≡ false

pub validate-IsValid : (c : LddmConfig) → has_value (validate c) ≡ true → IsValid c
unfolding validate
validate-IsValid c h = record {
  socket_path = ground (arith, h);
  runtime_dir = ground (arith, h);
  default_user = ground (arith, h);
  session_type = ground (arith, h);
  weston_executable = ground (arith, h);
  socket_name = ground (arith, h);
  ldde_executable = ground (arith, h);
  startup_timeout = ground (arith, h);
  stop_timeout = ground (arith, h);
}
