-- ===== src/Process/Registry/Laws.antt =====
-- Reading and writing the shared objects of src/process/process_registry.cpp.
use lddm.Base.{
  ℕ, ◌≤◌, ◌<◌, ◌≡◌, refl, true, false, List, [], ◌∷◌, ◌++◌, some, arith, ◌==◌, if◌then◌else◌, All,
}
use lddm.Process.Object.{Process}
use lddm.Process.Registry.{Registry, object, put, has, register_process, find_by_handle}

pub object-put :
    (h : ℕ) (p : Process) (ps : List Process)
    → object h (put p ps) ≡ (if p.handle == h then some p else object h ps)
unfolding object put
object-put h p [] = refl
object-put h p (q ∷ ps) = ground (arith, object-put h p ps)

pub has-append :
    (h x : ℕ) (hs : List ℕ) → has h (hs ++ x ∷ []) ≡ (if has h hs then true else x == h)
unfolding has
has-append h x [] = ground arith
has-append h x (y ∷ hs) = ground (arith, has-append h x hs)

-- Every handle in use was given out before `n`.
pub record IsBelow (n : ℕ) (r : Registry) : Type 0 where
  pub handles_below : All (λ h. h < n) r.handles
  pub objects_below : All (λ (p : Process). p.handle < n) r.objects

has_above : (h n : ℕ) (hs : List ℕ) → All (λ x. x < n) hs → n ≤ h → has h hs ≡ false
unfolding has
has_above h n [] b l = refl
has_above h n (x ∷ hs) b l = ground (arith, has_above h n hs b.1)

-- A process under a handle above all in use is always registered, and is then found under it; the
-- processes under the other handles are found as before.
pub register_process_lem :
    (n : ℕ) (p : Process) (r : Registry) (h : ℕ)
    → IsBelow n r
    → n ≤ p.handle
    → let (r', res) = register_process p r in
      (res ≡ lddm.Core.Error.done)
      × (find_by_handle h r' ≡ (if p.handle == h then some p else find_by_handle h r))
unfolding register_process find_by_handle
register_process_lem n p r h b l = ground (
  arith,
  has_above p.handle n r.handles b.handles_below,
  has-append h p.handle r.handles,
  object-put h p r.objects,
)

pub object-handle : (h : ℕ) (ps : List Process) (p : Process) → object h ps ≡ some p → p.handle ≡ h
unfolding object
object-handle h [] p e = cc
object-handle h (q ∷ ps) p e = ground (arith, object-handle h ps p)
