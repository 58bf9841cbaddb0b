-- ===== src/Resources/Spec.antt =====
-- How often each resource of common/ResourceManager.h is in use: the abstract manager, which counts
-- the users of each name, and runs of calls of both.
use sfrpg.Base.{
  ℕ, ◌+◌, ◌-◌, ◌≤◌, ◌≡◌, refl, ap, Bool, true, false, not, ◌&&◌, ◌==◌, if◌then◌else◌, Option, none,
  some, List, [], ◌∷◌, Text, eq_text, arith,
}
use sfrpg.Resources.{Table, find_entry, Manager, require_resource, release_resource}

-- A call of the manager.
pub data Call : Type 0 where
  requires : Text → Call
  releases : Text → Call

-- The abstract manager: how many users each resource has.
abbrev pub Users : Type 0
Users = Text → ℕ

unfoldable pub set_users : Text → ℕ → Users → Users
set_users id n f j = if eq_text id j then n else f j

-- A call on the abstract manager, where `available` says which resources can be loaded: its answer,
-- and the users afterwards.
unfoldable pub spec_call : (available : Text → Bool) → Call → Users → Users × Bool
unfolding set_users
spec_call available (requires id) f =
    if f id == 0 && not (available id) then (f, false) else (set_users id (f id + 1) f, true)
spec_call available (releases id) f =
    if f id == 0 then (f, false) else (set_users id (f id - 1) f, true)

unfoldable pub spec_calls : (available : Text → Bool) → List Call → Users → Users × List Bool
unfolding spec_call
spec_calls available [] f = (f, [])
spec_calls available (c ∷ cs) f =
    let (g, answer) = spec_call available c f in
    let (h, answers) = spec_calls available cs g in (h, answer ∷ answers)

-- The users that an entry counts.
abbrev pub count {ℓ} : {T : Type ℓ} → Option (T × ℕ) → ℕ
count none = 0
count (some (t, n)) = n

pub spec_taken :
    (has : Text → Bool) (id : Text) (f : Users) (n : ℕ)
    → f id ≡ n
    → 1 ≤ n
    → spec_call has (requires id) f ≡ (set_users id (n + 1) f, true)
unfolding spec_call
spec_taken has id f n at some_use =
    let used : (f id == 0) ≡ false = ground arith in
    rw (used) (ap (λ m. (set_users id (m + 1) f, true)) at)

pub spec_unused :
    (has : Text → Bool) (id : Text) (f : Users)
    → f id ≡ 0
    → spec_call has (releases id) f ≡ (f, false)
unfolding spec_call
spec_unused has id f at = rw at refl

pub spec_used :
    (has : Text → Bool) (id : Text) (f : Users) (n : ℕ)
    → f id ≡ n
    → 1 ≤ n
    → spec_call has (releases id) f ≡ (set_users id (n - 1) f, true)
unfolding spec_call
spec_used has id f n at some_use =
    let used : (f id == 0) ≡ false = ground arith in
    rw (used) (ap (λ m. (set_users id (m - 1) f, true)) at)

pub spec_loads :
    (has : Text → Bool) (id : Text) (f : Users)
    → f id ≡ 0
    → has id ≡ true
    → spec_call has (requires id) f ≡ (set_users id 1 f, true)
unfolding spec_call
spec_loads has id f at loads = rw (at, loads) refl

pub spec_refused :
    (has : Text → Bool) (id : Text) (f : Users)
    → f id ≡ 0
    → has id ≡ false
    → spec_call has (requires id) f ≡ (f, false)
unfolding spec_call
spec_refused has id f at lacks = rw (at, lacks) refl

module _ {ℓ} {T : Type ℓ} where
  unfoldable pub call : (load : Text → Option T) → Call → Manager T → Manager T × Bool
  unfolding require_resource release_resource
  call load (requires id) r = require_resource load id r
  call load (releases id) r = release_resource id r

  unfoldable pub calls : (load : Text → Option T) → List Call → Manager T → Manager T × List Bool
  unfolding call
  calls load [] r = (r, [])
  calls load (c ∷ cs) r =
      let (s, answer) = call load c r in let (t, answers) = calls load cs s in (t, answer ∷ answers)

  unfoldable pub users_of : Manager T → Users
  users_of r id = count (find_entry id r.resources)

  -- Whether the resource has a path, and is loaded from it.
  unfoldable pub available : (load : Text → Option T) → Table Text → Text → Bool
  available load paths id = elim (find_entry id paths) [
    | none ↦ false
    | some path ↦ elim (load path) [ none ↦ false | some t ↦ true ]
  ]
