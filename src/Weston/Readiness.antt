-- ===== src/Weston/Readiness.antt =====
-- src/weston/weston_readiness.cpp.
use lddm.Base.{ℕ, ◌+◌, not, ◌||◌, Option, none, some, ◌==◌, if◌then◌else◌}
use lddm.Core.Error.{ErrorCategory, compositor_crash, compositor_timeout, error, Status, err, done}
use lddm.Platform.{Os, Sys, call}
use lddm.Platform.Poll.{poll_until}
use lddm.Process.Object.{poll_fuel}

pub data WaylandSocketStatus : Type 0 where
  socket_not_created socket_created_unusable wayland_connection_usable weston_exited :
      WaylandSocketStatus

-- The errno numbers that are told apart.
abbrev pub enoent : ℕ
enoent = 2

abbrev pub einprogress : ℕ
einprogress = 115

-- What connect(2) means: 0, or errno. ECONNREFUSED, EAGAIN and all else are unusable.
abbrev pub connect_status : ℕ → WaylandSocketStatus
connect_status e =
    if e == 0 || e == einprogress
    then wayland_connection_usable
    else if e == enoent
    then socket_not_created
    else socket_created_unusable

-- The checks of the file and of the connection, each at the next moment.
unfoldable pub probe_socket : Os → Sys → WaylandSocketStatus × Sys
probe_socket os s =
    let s₁ : Sys = call s in
    let s₂ : Sys = call s₁ in
    let s₃ : Sys = call s₂ in
    if not (os.exists s.moment)
    then (socket_not_created, s₁)
    else if not (os.is_socket s₁.moment)
    then (socket_created_unusable, s₂)
    else if not (os.opens_socket s₂.moment)
    then (socket_created_unusable, s₃)
    else (connect_status (os.connects s₃.moment), call s₃)

-- `pid` 0 stands for -1: no process to look at.
unfoldable pub check_socket : Os → ℕ → Sys → WaylandSocketStatus × Sys
check_socket os pid s =
    if pid == 0
    then probe_socket os s
    else if os.process_dead s.moment pid
    then (weston_exited, call s)
    else probe_socket os (call s)

abbrev pub exited_error : Status
exited_error = err (error ErrorCategory.compositor compositor_crash)

-- The `switch` in the loop: a result to return, or none to go on.
abbrev pub verdict : WaylandSocketStatus → Option Status
verdict wayland_connection_usable = some done
verdict weston_exited = some exited_error
verdict _ = none

-- The check at the deadline.
abbrev pub final_verdict : WaylandSocketStatus → Status
final_verdict wayland_connection_usable = done
final_verdict weston_exited = exited_error
final_verdict _ = err (error ErrorCategory.compositor compositor_timeout)

abbrev pub poll_check : Os → ℕ → Sys → Option Status × Sys
poll_check os pid s = let (st, s') = check_socket os pid s in (verdict st, s')

unfoldable pub wait_for_readiness : Os → ℕ → ℕ → Sys → Status × Sys
wait_for_readiness os pid timeout s =
    let polled : Option Status × Sys =
      poll_until os (poll_check os pid) (os.now s.moment + timeout) 20 (poll_fuel timeout) s in
    let last : WaylandSocketStatus × Sys = check_socket os pid polled.1 in
    elim polled.0 [ some r ↦ (r, polled.1) | none ↦ (final_verdict last.0, last.1) ]
