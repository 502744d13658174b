-- ===== src/Platform/UniqueFd/Flags.antt =====
-- The flags of a descriptor, and the pipe: `fcntl` answers a number, or nothing where it fails.
use Prim.Native.Nat.{bit_and, bit_or}
use lddm.Base.{ℕ, ◌-◌, Bool, true, false, Option, none, some, if◌then◌else◌}
use lddm.Core.Error.{
  ErrorCategory, platform_fd_error, platform_syscall_failed, error, Result, Status, ok, err, done,
}

-- `flags |= mask` or `flags &= ~mask`, of flags that are an int and not negative.
unfoldable pub change_flag : ℕ → Bool → ℕ → ℕ
change_flag mask true flags = bit_or flags mask
change_flag mask false flags = bit_and flags (0x7fffffff - mask)

-- FD_CLOEXEC, O_NONBLOCK, O_CLOEXEC
abbrev pub fd_cloexec : ℕ
fd_cloexec = 1

abbrev pub o_nonblock : ℕ
o_nonblock = 2048

abbrev pub o_cloexec : ℕ
o_cloexec = 524288

-- The two calls of fcntl(2), to read the flags and to write them.
module _ (get : ℕ → Option ℕ) (set : ℕ → ℕ → Bool) where
  -- The status, and the flags that were written.
  unfoldable pub set_flag : ℕ → Bool → Option ℕ → Status × Option ℕ
  unfolding change_flag
  set_flag mask enable none = (err (error ErrorCategory.platform platform_fd_error), none)
  set_flag mask enable (some fd) = elim (get fd) [
    | none ↦ (err (error ErrorCategory.platform platform_syscall_failed), none)
    | some flags ↦
        if set fd (change_flag mask enable flags)
        then (done, some (change_flag mask enable flags))
        else (err (error ErrorCategory.platform platform_syscall_failed), none)
  ]

  unfoldable pub set_close_on_exec : Bool → Option ℕ → Status × Option ℕ
  unfolding set_flag
  set_close_on_exec = set_flag fd_cloexec

  unfoldable pub set_nonblocking : Bool → Option ℕ → Status × Option ℕ
  unfolding set_flag
  set_nonblocking = set_flag o_nonblock

-- pipe2(2) with its flags; the two ends have an owner each.
unfoldable pub create_pipe : (ℕ → Option (ℕ × ℕ)) → Bool → Bool → Result (Option ℕ × Option ℕ)
create_pipe pipe2 cloexec nonblocking =
    let of_cloexec : ℕ = if cloexec then o_cloexec else 0 in
    let flags : ℕ = if nonblocking then bit_or of_cloexec o_nonblock else of_cloexec in
    elim (pipe2 flags) [
      | none ↦ err (error ErrorCategory.platform platform_syscall_failed)
      | some ends ↦ ok (some ends.0, some ends.1)
    ]
