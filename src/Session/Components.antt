-- ===== src/Session/Components.antt =====
-- The calls of src/session/session.cpp on its components, through include/lddm/session/session_contract.hpp.
use lddm.Base.{Bool, List, [], ◌∷◌, if◌then◌else◌}
use lddm.Core.Error.{Status}
use lddm.Platform.{Os, StateName}
use lddm.Process.Supervisor.{Env, stop_all}
use lddm.Session.World.{Component, weston, ldde, World, write_state_file}
use lddm.Weston
use lddm.Ldde

abbrev pub put_weston : Weston.Manager.WestonManager × Env → World → World
put_weston r w = record w { weston = r.0; env = r.1 }

abbrev pub put_ldde : Ldde.Manager.LddeManager × Env → World → World
put_ldde r w = record w { ldde = r.0; env = r.1 }

unfoldable pub is_running : Component → World → Bool
is_running weston w = Weston.Manager.is_running w.weston
is_running ldde w = Ldde.Manager.is_running w.ldde

unfoldable pub initialize : Os → Component → World → World × Status
initialize os weston w =
    let ctx : Weston.Prepare.Context = record {
      runtime_dir = w.config.runtime_dir;
      log_dir = w.config.log_dir;
      supervisor = w.supervisor;
    } in
    let (m, env, r) = Weston.Prepare.initialize os ctx w.weston w.env in (put_weston (m, env) w, r)
initialize os ldde w =
    let ctx : Ldde.Prepare.Context = record {
      runtime_dir = w.config.runtime_dir;
      log_dir = w.config.log_dir;
      wayland_display = w.config.wayland_display;
      supervisor = w.supervisor;
    } in
    let (m, env, r) = Ldde.Prepare.initialize os ctx w.ldde w.env in (put_ldde (m, env) w, r)

-- No events come in between: the main thread is the only one that reaps processes.
unfoldable pub start : Os → Component → World → World × Status
start os weston w =
    let (m, env, r) = Weston.Run.start os [] w.weston w.env in (put_weston (m, env) w, r)
start os ldde w = let (m, env, r) = Ldde.Run.start os [] w.ldde w.env in (put_ldde (m, env) w, r)

-- A stop whose result is ignored.
unfoldable pub stop : Os → Component → World → World
stop os weston w = let (m, env, r) = Weston.Run.stop os w.weston w.env in put_weston (m, env) w
stop os ldde w = let (m, env, r) = Ldde.Run.stop os w.ldde w.env in put_ldde (m, env) w

unfoldable pub stop_each : Os → List Component → World → World
stop_each os [] w = w
stop_each os (c ∷ cs) w = stop_each os cs (stop os c w)

-- `if ((*it)->is_running()) (*it)->stop();` over components in the given order.
unfoldable pub stop_running_each : Os → List Component → World → World
stop_running_each os [] w = w
stop_running_each os (c ∷ cs) w =
    stop_running_each os cs (if is_running c w then stop os c w else w)

unfoldable pub stop_supervised : Os → World → World
stop_supervised os w =
    let (sup, s) = stop_all os w.env.sup w.env.sys in
    if w.supervisor then record w { env = record { sup = sup; sys = s } } else w

-- The state file before and after a component's start: a component is the compositor or the desktop
-- if it is attached as such.
abbrev pub announce : Component → StateName → StateName → World → World
announce weston for_weston for_ldde w = if w.compositor then write_state_file for_weston w else w
announce ldde for_weston for_ldde w = if w.desktop then write_state_file for_ldde w else w
