-- ===== src/Config/Validator.antt =====
-- src/config/config_validator.cpp.
pub mod Validity
use lddm.Base.{◌≡◌, ◌&&◌, ◌==◌, if◌then◌else◌}
use lddm.Core.Error.{ErrorCategory, config_validation_failed, error, Status, err, done}
use lddm.Text.{no_bytes}
use lddm.Config.Types.{LddmConfig}

unfoldable pub validate : LddmConfig → Status
validate c =
    let refuse : Status = err (error ErrorCategory.configuration config_validation_failed) in
    if no_bytes c.server.socket_path
    then refuse
    else if no_bytes c.server.runtime_dir
    then refuse
    else if no_bytes c.session.default_user
    then refuse
    else if no_bytes c.session.session_type
    then refuse
    else if no_bytes c.weston.executable
    then refuse
    else if no_bytes c.weston.socket_name
    then refuse
    else if c.ldde.autostart && no_bytes c.ldde.executable
    then refuse
    else if c.process.startup_timeout_ms == 0
    then refuse
    else if c.process.stop_timeout_ms == 0
    then refuse
    else done
