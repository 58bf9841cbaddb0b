-- ===== src/Resources/Counts.antt =====
-- The manager of common/ResourceManager.h against the abstract manager.
use sfrpg.Base.{
  ℕ, suc, ◌+◌, ◌-◌, ◌%◌, ◌^◌, ◌≤◌, ◌<◌, ◌≡◌, refl, sym, ap, ◌∙◌, inl, inr, Bool, ◌==◌, Option, List,
  [], ◌∷◌, Text, arith, Bool-cases, Option-cases, length, subst,
}
use sfrpg.Resources.{Table, find_entry, Manager, require_resource, release_resource}
use sfrpg.Resources.Laws.{
  Sound, Sound-find_entry, Sound-set_entry, Sound-append, Sound-drop_entry, Sound-map,
}
use sfrpg.Resources.Spec.{
  Call, requires, releases, Users, set_users, spec_call, spec_calls, spec_unused, spec_used,
  spec_loads, spec_refused, spec_taken, call, calls, users_of, available,
}
use sfrpg.Resources.Branches.{
  Used, CountsOk, users_at, users_none, users_set, users_append, users_drop, release_missing,
  release_more, release_last, require_known, require_loaded, require_refused, loadable,
}

module _ {ℓ} {T : Type ℓ} where
  -- What a call comes to: the answer, the users and the paths afterwards.
  abbrev Simulates : ℕ → Manager T → Manager T × Bool → Users × Bool → Type ℓ
  Simulates k r (s, answer) (f, expected) =
      (answer ≡ expected) × ((j : Text) → users_of s j ≡ f j) × (s.paths ≡ r.paths) × CountsOk k s

  Used-fewer : (k : ℕ) (e : T × ℕ) → Used (suc k) e → Used k e
  Used-fewer k (t, n) u = (u.0, omega (arith, u.1))

  fewer_left : (k : ℕ) (t : Table (T × ℕ)) → Sound (Used (suc k)) t → Sound (Used k) t
  fewer_left k t s = Sound-map (Used-fewer k) t s

  -- Both sides computed.
  computed :
      (k : ℕ) (r : Manager T) {x y : Manager T × Bool} {f g : Users × Bool}
      → x ≡ y
      → f ≡ g
      → Simulates k r y g
      → Simulates k r x f
  computed k r {x} {y} {f} {g} p q s =
      subst (λ z. Simulates k r z f) (sym p) (subst (λ h. Simulates k r y h) (sym q) s)

  require_users :
      (load : Text → Option T) (k : ℕ) (id : Text) (r : Manager T)
      → suc k < 2 ^ 32
      → CountsOk (suc k) r
      → Simulates k r
          (require_resource load id r)
          (spec_call (available load r.paths) (requires id) (users_of r))
  unfolding spec_call
  require_users load k id r small ok = elim (Option-cases (find_entry id r.resources)) [
    | inl missing ↦
        let nobody = users_none r id missing in
        elim (Bool-cases (available load r.paths id)) [
          | inl has ↦
              let (path, t, at_path, loads) = loadable load r.paths id has in
              computed k r (require_loaded load id path r t missing at_path loads)
                (spec_loads (available load r.paths) id (users_of r) nobody has)
                (
                  refl,
                  λ j. users_append r id j t 1 missing,
                  refl,
                  Sound-append (Used k) id (t, 1) r.resources missing
                      (omega arith, omega (arith, small)) (fewer_left k r.resources ok),
                )
          | inr lacks ↦
              computed k r (require_refused load id r missing lacks)
                (spec_refused (available load r.paths) id (users_of r) nobody lacks)
                (refl, λ j. refl, refl, fewer_left k r.resources ok)
        ]
    | inr ((t, n), known) ↦
        let users = users_at r id t n known in
        let used = Sound-find_entry (Used (suc k)) id (t, n) r.resources ok known in
        let next : (n + 1) % 2 ^ 32 ≡ n + 1 = omega (arith, used.1) in
        computed k r (require_known load id r t n known)
          (spec_taken (available load r.paths) id (users_of r) n users used.0)
          (
            refl,
            λ j.
                users_set r id j t t ((n + 1) % 2 ^ 32) n known
                ∙ ap (λ m. set_users id m (users_of r) j) next,
            refl,
            Sound-set_entry (Used k) id (t, (n + 1) % 2 ^ 32) (t, n) r.resources known
                (omega (arith, next), omega (arith, next, used.1)) (fewer_left k r.resources ok),
          )
  ]

  release_users :
      (has : Text → Bool) (k : ℕ) (id : Text) (r : Manager T)
      → CountsOk (suc k) r
      → Simulates k r (release_resource id r) (spec_call has (releases id) (users_of r))
  release_users has k id r ok = elim (Option-cases (find_entry id r.resources)) [
    | inl missing ↦
        computed k r (release_missing id r missing)
          (spec_unused has id (users_of r) (users_none r id missing))
          (refl, λ j. refl, refl, fewer_left k r.resources ok)
    | inr ((t, n), known) ↦
        let users = users_at r id t n known in
        let used = Sound-find_entry (Used (suc k)) id (t, n) r.resources ok known in
        let weaker = fewer_left k r.resources ok in
        elim (Bool-cases (n == 1)) [
          | inl last ↦
              let one : n ≡ 1 = ground arith in
              computed k r (release_last id r t n known one)
                (spec_used has id (users_of r) n users used.0)
                (
                  refl,
                  λ j.
                      users_drop k r id j weaker
                      ∙ ap (λ m. set_users id (m - 1) (users_of r) j) (sym one),
                  refl,
                  Sound-drop_entry (Used k) id r.resources weaker,
                )
          | inr more ↦
              let several : 2 ≤ n = ground (arith, used.0) in
              computed k r (release_more id r t n known several (omega (arith, used.1)))
                (spec_used has id (users_of r) n users used.0)
                (
                  refl,
                  λ j. users_set r id j t t (n - 1) n known,
                  refl,
                  Sound-set_entry (Used k) id (t, n - 1) (t, n) r.resources known
                      (omega (arith, several), omega (arith, used.1)) weaker,
                )
        ]
  ]

  call_users :
      (load : Text → Option T) (k : ℕ) (c : Call) (r : Manager T)
      → suc k < 2 ^ 32
      → CountsOk (suc k) r
      → Simulates k r (call load c r) (spec_call (available load r.paths) c (users_of r))
  unfolding call
  call_users load k (requires id) r small ok = require_users load k id r small ok
  call_users load k (releases id) r small ok = release_users (available load r.paths) k id r ok

  -- The answers are equal, and so are the users of every resource.
  abbrev Agrees : Manager T × List Bool → Users × List Bool → Type 0
  Agrees (s, answers) (f, expected) = (answers ≡ expected) × ((j : Text) → users_of s j ≡ f j)

  -- In any run of fewer than 2 ^ 32 calls of requireResource and releaseResource, on a manager whose
  -- counts are at least 1 and have room for as many, the answers are those of the abstract manager,
  -- which only counts users, and so are the users of every resource afterwards.
  pub calls-spec_calls :
      (load : Text → Option T) (cs : List Call) (r : Manager T)
      → length cs < 2 ^ 32
      → CountsOk (length cs) r
      → let (s, answers) = calls load cs r in
        let (f, expected) = spec_calls (available load r.paths) cs (users_of r) in
        (answers ≡ expected) × ((j : Text) → users_of s j ≡ f j)
  unfolding calls spec_calls
  calls-spec_calls load [] r small ok = (refl, λ j. refl)
  calls-spec_calls load (c ∷ cs) r small ok =
      let (answer, users, paths, next) = call_users load (length cs) c r small ok in
      let rest = calls-spec_calls load cs (call load c r).0 (omega (arith, small)) next in
      let same : users_of (call load c r).0
          ≡ (spec_call (available load r.paths) c (users_of r)).0 =
        λ i j. users j i in
      let moved =
        subst
          (λ (f : Users).
            Agrees (calls load cs (call load c r).0) (spec_calls (available load r.paths) cs f))
          same
          (subst
            (λ (ps : Table Text).
              Agrees (calls load cs (call load c r).0)
                (spec_calls (available load ps) cs (users_of (call load c r).0)))
            paths rest) in
      (ap2 answer moved.0, moved.1)
    where
      ap2 : {a b : Bool} {s t : List Bool} → a ≡ b → s ≡ t → a ∷ s ≡ b ∷ t
      ap2 p q = λ i. p i ∷ q i
