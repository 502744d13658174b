-- ===== src/Platform/Paths/Entries.antt =====
-- Entries that are written are read back.
use lddm.Base.{not, ◌&&◌, Bool, true, ◌≡◌, refl, false, [], ◌∷◌, ◌++◌, some, arith, ◌==◌, All}
use lddm.Text.{Text}
use lddm.Text.Map.{Variables, put, merge}
use lddm.Session.Environment.{to_vector}
use lddm.Platform.Paths.{key_and_value, put_entries}

-- No '=' inside.
abbrev pub IsName : Text → Type 0
IsName = All (λ c. (c == b'=') ≡ false)

abbrev pub HasNames : Variables → Type 0
HasNames = All (λ v. IsName v.0)

abbrev pub is_name : Text → Bool
is_name [] = true
is_name (c ∷ cs) = not (c == b'=') && is_name cs

abbrev pub has_names : Variables → Bool
has_names [] = true
has_names ((k, v) ∷ vs) = is_name k && has_names vs

is_name-IsName : (k : Text) → is_name k ≡ true → IsName k
is_name-IsName [] h = tt
is_name-IsName (c ∷ k) h = (ground arith, is_name-IsName k (ground arith))

pub has_names-HasNames : (vs : Variables) → has_names vs ≡ true → HasNames vs
has_names-HasNames [] h = tt
has_names-HasNames ((k, v) ∷ vs) h =
    (is_name-IsName k (ground (arith, h)), has_names-HasNames vs (ground (arith, h)))

key_and_value-append : (k v : Text) → IsName k → key_and_value (k ++ b'=' ∷ v) ≡ some (k, v)
unfolding key_and_value
key_and_value-append [] v h = refl
key_and_value-append (c ∷ k) v h = ground (arith, key_and_value-append k v)

-- The entries of a map whose keys are names put that map onto another.
pub put_entries-to_vector :
    (vs base : Variables) → HasNames vs → put_entries (to_vector vs) base ≡ merge vs base
unfolding put_entries to_vector merge
put_entries-to_vector [] base h = refl
put_entries-to_vector ((k, v) ∷ vs) base h =
    rw (key_and_value-append k v h.0, put_entries) (put_entries-to_vector vs (put k v base) h.1)
