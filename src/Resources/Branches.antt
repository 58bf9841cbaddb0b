-- ===== src/Resources/Branches.antt =====
-- What requireResource and releaseResource of common/ResourceManager.h do on each branch, and the
-- users afterwards.
use sfrpg.Base.{
  ℕ, ◌+◌, ◌-◌, ◌%◌, ◌^◌, ◌≤◌, ◌<◌, ◌≡◌, refl, ap, ◌∙◌, inl, inr, true, false, ◌==◌, if◌then◌else◌,
  Option, none, some, [], ◌∷◌, ◌++◌, Text, eq_text, eq_text_refl, arith, Option-cases, if_ind₂,
}
use sfrpg.Resources.{
  Table, find_entry, set_entry, drop_entry, Manager, require_resource, release_resource, unload,
}
use sfrpg.Resources.Laws.{
  find_entry-set_entry, add_entry_new, find_entry-append, Sound, find_entry-drop_entry,
  drop_entry-set_entry,
}
use sfrpg.Resources.Spec.{set_users, count, users_of, available}

module _ {ℓ} {T : Type ℓ} where
  -- Every entry has a user, and fewer than 2 ^ 32 even after `k` more.
  abbrev pub Used : ℕ → T × ℕ → Type 0
  Used k (t, n) = (1 ≤ n) × (n + k < 2 ^ 32)

  abbrev pub CountsOk : ℕ → Manager T → Type ℓ
  CountsOk k r = Sound (Used k) r.resources

  pub users_at :
      (r : Manager T) (id : Text) (t : T) (n : ℕ)
      → find_entry id r.resources ≡ some (t, n)
      → users_of r id ≡ n
  unfolding users_of
  users_at r id t n known = rw (known, users_of) refl

  pub users_none :
      (r : Manager T) (id : Text) → find_entry id r.resources ≡ none → users_of r id ≡ 0
  unfolding users_of
  users_none r id missing = rw (missing, users_of) refl

  pub users_set :
      (r : Manager T) (id j : Text) (t u : T) (n m : ℕ)
      → find_entry id r.resources ≡ some (u, m)
      → users_of (record r { resources = set_entry id (t, n) r.resources }) j
        ≡ set_users id n (users_of r) j
  unfolding users_of set_users
  users_set r id j t u n m known = rw (find_entry-set_entry id j (t, n) (u, m) r.resources known) (
      if_ind₂ (λ (o : Option (T × ℕ)) (k : ℕ). count o ≡ k) (eq_text id j) (λ same. refl)
        (λ other. refl))

  pub users_append :
      (r : Manager T) (id j : Text) (t : T) (n : ℕ)
      → find_entry id r.resources ≡ none
      → users_of (record r { resources = r.resources ++ (id, (t, n)) ∷ [] }) j
        ≡ set_users id n (users_of r) j
  unfolding users_of set_users
  users_append r id j t n missing = rw (find_entry-append id j (t, n) r.resources missing) (
      if_ind₂ (λ (o : Option (T × ℕ)) (k : ℕ). count o ≡ k) (eq_text id j) (λ same. refl)
        (λ other. refl))

  pub users_drop :
      (k : ℕ) (r : Manager T) (id j : Text)
      → CountsOk k r
      → users_of (record r { resources = drop_entry id r.resources }) j
        ≡ set_users id 0 (users_of r) j
  unfolding users_of set_users
  users_drop k r id j ok = rw (find_entry-drop_entry (Used k) id j r.resources ok) (
      if_ind₂ (λ (o : Option (T × ℕ)) (k : ℕ). count o ≡ k) (eq_text id j) (λ same. refl)
        (λ other. refl))

  pub release_missing :
      (id : Text) (r : Manager T)
      → find_entry id r.resources ≡ none
      → release_resource id r ≡ (r, false)
  unfolding release_resource
  release_missing id r missing = rw (missing, release_resource) refl

  pub unload_known :
      (id : Text) (r : Manager T) (e : T × ℕ)
      → find_entry id r.resources ≡ some e
      → (unload id r).0 ≡ record r { resources = drop_entry id r.resources }
  unfolding unload
  unload_known id r e known = rw (known, unload) refl

  pub release_known :
      (id : Text) (r : Manager T) (t : T) (n left : ℕ)
      → find_entry id r.resources ≡ some (t, n)
      → (n + (2 ^ 32 - 1)) % 2 ^ 32 ≡ left
      → release_resource id r ≡ (
        let fewer = record r { resources = set_entry id (t, left) r.resources } in
            if left == 0 then (unload id fewer).0 else fewer,
        true,
      )
  unfolding release_resource
  release_known id r t n left known e = rw (known, e, release_resource) refl

  pub release_more :
      (id : Text) (r : Manager T) (t : T) (n : ℕ)
      → find_entry id r.resources ≡ some (t, n)
      → 2 ≤ n
      → n < 2 ^ 32
      → release_resource id r ≡ (record r { resources = set_entry id (t, n - 1) r.resources }, true)
  release_more id r t n known several small =
      let positive : ((n - 1) == 0) ≡ false = ground (arith, several) in
      release_known id r t n (n - 1) known (omega (arith, several, small)) ∙ rw positive refl

  pub release_last :
      (id : Text) (r : Manager T) (t : T) (n : ℕ)
      → find_entry id r.resources ≡ some (t, n)
      → n ≡ 1
      → release_resource id r ≡ (record r { resources = drop_entry id r.resources }, true)
  release_last id r t n known one =
      let fewer : Manager T = record r { resources = set_entry id (t, 0) r.resources } in
      let still : find_entry id (set_entry id (t, 0) r.resources) ≡ some (t, 0) =
        find_entry-set_entry id id (t, 0) (t, n) r.resources known ∙ rw (eq_text_refl id) refl in
      release_known id r t n 0 known (omega (arith, one))
      ∙ ap (λ s. (s, true))
          (unload_known id fewer (t, 0) still
            ∙ ap (λ d. record r { resources = d }) (drop_entry-set_entry id (t, 0) r.resources))

  pub require_known :
      (load : Text → Option T) (id : Text) (r : Manager T) (t : T) (n : ℕ)
      → find_entry id r.resources ≡ some (t, n)
      → require_resource load id r
        ≡ (record r { resources = set_entry id (t, (n + 1) % 2 ^ 32) r.resources }, true)
  unfolding require_resource
  require_known load id r t n known = rw (known, require_resource) refl

  pub require_loaded :
      (load : Text → Option T) (id path : Text) (r : Manager T) (t : T)
      → find_entry id r.resources ≡ none
      → find_entry id r.paths ≡ some path
      → load path ≡ some t
      → require_resource load id r
        ≡ (record r { resources = r.resources ++ (id, (t, 1)) ∷ [] }, true)
  unfolding require_resource
  require_loaded load id path r t missing at_path loads =
      rw (missing, at_path, loads, add_entry_new id (t, 1) r.resources missing, require_resource)
        refl

  pub require_refused :
      (load : Text → Option T) (id : Text) (r : Manager T)
      → find_entry id r.resources ≡ none
      → available load r.paths id ≡ false
      → require_resource load id r ≡ (r, false)
  unfolding require_resource available
  require_refused load id r missing lacks = elim (Option-cases (find_entry id r.paths)) [
    | inl no_path ↦ rw (missing, no_path, require_resource) refl
    | inr (path, at_path) ↦ elim (Option-cases (load path)) [
      | inl fails ↦ rw (missing, at_path, fails, require_resource) refl
      | inr (t, loads) ↦ absurd (ground (arith, lacks, at_path, loads))
    ]
  ]

  pub loadable :
      (load : Text → Option T) (paths : Table Text) (id : Text)
      → available load paths id ≡ true
      → (path : Text) × (t : T) × (find_entry id paths ≡ some path) × (load path ≡ some t)
  unfolding available
  loadable load paths id has = elim (Option-cases (find_entry id paths)) [
    | inl no_path ↦ absurd (ground (arith, no_path))
    | inr (path, at_path) ↦ elim (Option-cases (load path)) [
      | inl fails ↦ absurd (ground (arith, at_path, fails))
      | inr (t, loads) ↦ (path, t, at_path, loads)
    ]
  ]
