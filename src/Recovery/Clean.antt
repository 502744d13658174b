-- ===== src/Recovery/Clean.antt =====
-- src/recovery/recovery_manager.cpp: the tests of the Wayland socket, the stale files, and the check
-- of the session after a recovery.
use lddm.Base.{ℕ, zero, suc, Bool, false, not, ◌&&◌, ◌||◌, String, ◌==◌, if◌then◌else◌}
use lddm.Core.Error.{ErrorCategory, recovery_readiness_failed, error, Status, err, done}
use lddm.Platform.{
  Os, Sys, call, log, removed, FileName, wayland_socket, wayland_lock, readiness_file,
  ready_candidate,
}
use lddm.Process.Spec.{is_empty}
use lddm.Session.World.{World, weston, ldde, on_sys}
use lddm.Session.Components.{is_running}

-- The errno numbers that are told apart.
abbrev pub eagain : ℕ
eagain = 11

abbrev pub einprogress : ℕ
einprogress = 115

unfoldable pub is_wayland_socket_active : Os → String → Sys → Bool × Sys
is_wayland_socket_active os path s =
    let s₁ : Sys = call s in
    let s₂ : Sys = call s₁ in
    let e : ℕ = os.connects s₂.moment in
    if is_empty path
    then (false, s)
    else if not (os.exists s.moment)
    then (false, s₁)
    else if not (os.opens_socket s₁.moment)
    then (false, s₂)
    else (e == 0 || e == einprogress || e == eagain, call s₂)

-- `remove` of a file that exists.
abbrev remove_existing : Os → FileName → Sys → Sys
remove_existing os f s = if os.exists s.moment then log (removed f) (call (call s)) else call s

unfoldable pub clean_stale_wayland_socket : Os → String → Sys → Sys
unfolding is_wayland_socket_active
clean_stale_wayland_socket os path s =
    let (active, s₁) = is_wayland_socket_active os path (call s) in
    let s₂ : Sys = if active then s₁ else log (removed wayland_socket) (call s₁) in
    let s₃ : Sys = if os.exists s.moment then s₂ else call s in
    if is_empty path then s else remove_existing os wayland_lock s₃

-- The loop over the six names.
unfoldable pub clean_candidates : Os → ℕ → Sys → Sys
clean_candidates os zero s = s
clean_candidates os (suc n) s = clean_candidates os n (remove_existing os (ready_candidate n) s)

unfoldable pub clean_stale_ldde_resources : Os → World → World
unfolding clean_candidates
clean_stale_ldde_resources os w =
    let w₁ : World =
      if w.desktop && not (is_empty w.ldde.readiness_path)
      then on_sys (λ s. log (removed readiness_file) (call s)) w
      else w in
    if is_empty w.config.runtime_dir then w₁ else on_sys (clean_candidates os 6) w₁

-- `!comp->is_running() || !is_wayland_socket_active(comp->socket_path())`, negated.
unfoldable pub is_compositor_up : Os → World → Bool × World
unfolding is_wayland_socket_active
is_compositor_up os w =
    let (active, s) = is_wayland_socket_active os w.weston.socket_path w.env.sys in
    if is_running weston w then (active, on_sys (λ _. s) w) else (false, w)

unfoldable pub verify_graphical_session_readiness : Os → World → World × Status
verify_graphical_session_readiness os w =
    let refuse : Status = err (error ErrorCategory.recovery recovery_readiness_failed) in
    let (up, w') = is_compositor_up os w in
    let w₁ : World = if w.compositor then w' else w in
    if w.compositor && not up
    then (w₁, refuse)
    else if w.desktop && not (is_running ldde w₁)
    then (w₁, refuse)
    else (w₁, done)
