-- ===== src/Ecs/Members.antt =====
-- The list of entities that a system holds, and what entityModified makes of it.
use sfrpg.Base.{
  ℕ, ◌^◌, ◌<◌, ◌≡◌, ◌≢◌, refl, Bool, true, false, ◌&&◌, ◌||◌, if◌then◌else◌, List, [], ◌∷◌, ◌++◌, ℤ,
  eq_ℤ, eq_ℤ_iff, All, arith, if_ind,
}
use sfrpg.Ecs.Bitmask.{matches, get_bit}
use sfrpg.Ecs.Bitmask.Laws.{matches_iff, matches_empty}
use sfrpg.Ecs.Components.{is_registered}
use sfrpg.Ecs.State.{SystemBase}
use sfrpg.Ecs.Systems.{
  holds, without, has_member, add_member, remove_member, matches_any, fits_requirements, reconsider,
  map_systems,
}

-- No entity stands twice.
abbrev pub Unique : List ℤ → Type 0
Unique [] = Unit
Unique (e ∷ es) = (holds e es ≡ false) × Unique es

holds-append : (j e : ℤ) (es : List ℤ) → holds j (es ++ e ∷ []) ≡ (holds j es || eq_ℤ e j)
unfolding holds
holds-append j e [] = ground arith
holds-append j e (f ∷ es) = ground (arith, holds-append j e es)

holds-without :
    (j e : ℤ) (es : List ℤ)
    → Unique es
    → holds j (without e es) ≡ (if eq_ℤ e j then false else holds j es)
unfolding holds without
holds-without j e [] u = ground arith
holds-without j e (f ∷ es) u =
    ground (arith, holds-without j e es u.1, eq_ℤ_iff f e, eq_ℤ_iff f j, eq_ℤ_iff e j, u.0)

Unique-append : (e : ℤ) (es : List ℤ) → holds e es ≡ false → Unique es → Unique (es ++ e ∷ [])
unfolding holds
Unique-append e [] h u = (refl, tt)
Unique-append e (f ∷ es) h u = (
  ground (arith, holds-append f e es, eq_ℤ_iff f e, eq_ℤ_iff e f),
  Unique-append e es (ground arith) u.1,
)

Unique-without : (e : ℤ) (es : List ℤ) → Unique es → Unique (without e es)
unfolding without
Unique-without e [] u = tt
Unique-without e (f ∷ es) u =
    if_ind Unique (eq_ℤ f e) (λ same. u.1)
      (λ other. (ground (arith, holds-without f e es u.1), Unique-without e es u.1))

pub has_member-remove_member :
    (s : SystemBase) (e j : ℤ)
    → Unique s.members
    → (has_member (remove_member s e).0 j ≡ (if eq_ℤ e j then false else has_member s j))
      × Unique (remove_member s e).0.members
      × ((remove_member s e).0.required ≡ s.required)
unfolding has_member remove_member
has_member-remove_member s e j u =
    if_ind
      (λ (r : SystemBase × Bool).
        (holds j r.0.members ≡ (if eq_ℤ e j then false else holds j s.members))
        × Unique r.0.members
        × (r.0.required ≡ s.required))
      (holds e s.members)
      (λ inside. (holds-without j e s.members u, Unique-without e s.members u, refl))
      (λ outside. (ground (arith, eq_ℤ_iff e j), u, refl))

has_member-add_member :
    (s : SystemBase) (e j : ℤ)
    → Unique s.members
    → (has_member (add_member s e).0 j ≡ (has_member s j || eq_ℤ e j))
      × Unique (add_member s e).0.members
      × ((add_member s e).0.required ≡ s.required)
unfolding has_member add_member
has_member-add_member s e j u =
    if_ind
      (λ (r : SystemBase × Bool).
        (holds j r.0.members ≡ (holds j s.members || eq_ℤ e j))
        × Unique r.0.members
        × (r.0.required ≡ s.required))
      (holds e s.members) (λ inside. (ground (arith, eq_ℤ_iff e j), u, refl))
      (λ outside. (holds-append j e s.members, Unique-append e s.members outside u, refl))

-- entityModified on one system.
pub reconsider_lem :
    (s : SystemBase) (e : ℤ) (bits : ℕ) (j : ℤ)
    → Unique s.members
    → (has_member (reconsider e bits s) j
        ≡ (if eq_ℤ e j then fits_requirements s bits else has_member s j))
      × Unique (reconsider e bits s).members
      × ((reconsider e bits s).required ≡ s.required)
unfolding reconsider
reconsider_lem s e bits j u =
    let removed = has_member-remove_member s e j u in
    let added = has_member-add_member s e j u in
    let P = λ (r : SystemBase).
      (has_member r j ≡ (if eq_ℤ e j then fits_requirements s bits else has_member s j))
      × Unique r.members
      × (r.required ≡ s.required) in
    if_ind P (has_member s e)
      (λ inside.
        if_ind P (fits_requirements s bits) (λ fit. (ground (arith, eq_ℤ_iff e j), u, refl))
          (λ unfit. (ground (arith, removed.0), removed.1, removed.2)))
      (λ outside.
        if_ind P (fits_requirements s bits) (λ fit. (ground (arith, added.0), added.1, added.2))
          (λ unfit. (ground (arith, eq_ℤ_iff e j), u, refl)))

pub All-map_systems {κ μ} :
    (P : SystemBase → Type κ) (Q : SystemBase → Type μ) (f : SystemBase → SystemBase)
    (step : (s : SystemBase) → P s → Q (f s)) (ss : List SystemBase)
    → All P ss
    → All Q (map_systems f ss)
All-map_systems P Q f step [] h = tt
All-map_systems P Q f step (s ∷ ss) h = (step s h.0, All-map_systems P Q f step ss h.1)

-- A requirement that asks for something, and only for components that the factory knows.
abbrev pub Demand : ℕ → Type 0
Demand b = (b < 2 ^ 32) × (b ≢ 0) × ((i : ℕ) → i < 32 → get_bit b i ≡ true → is_registered i ≡ true)

pub matches_any_empty : (bs : List ℕ) → All Demand bs → matches_any bs 0 ≡ false
unfolding matches_any
matches_any_empty [] h = refl
matches_any_empty (b ∷ bs) h = ground (arith, matches_empty b h.0.0 h.0.1, matches_any_empty bs h.1)

-- Masks that agree on the components that the factory knows fit the same systems.
pub matches_any_agree :
    (bs : List ℕ) (l m : ℕ)
    → All Demand bs
    → l < 2 ^ 32
    → m < 2 ^ 32
    → ((i : ℕ) → i < 32 → get_bit m i ≡ (get_bit l i && is_registered i))
    → matches_any bs l ≡ matches_any bs m
unfolding matches_any
matches_any_agree [] l m h p q same = refl
matches_any_agree (b ∷ bs) l m h p q same =
    let (small, some_bit, known) = h.0 in
    let on_l = matches_iff b l small p some_bit in
    let on_m = matches_iff b m small q some_bit in
    let rest = matches_any_agree bs l m h.1 p q same in
    let forth : matches b l b ≡ true → matches b m b ≡ true = λ e.
      on_m.1 (λ i lt asked. ground (arith, same i lt, on_l.0 e i lt asked, known i lt asked)) in
    let back : matches b m b ≡ true → matches b l b ≡ true =
      λ e. on_l.1 (λ i lt asked. ground (arith, same i lt, on_m.0 e i lt asked)) in
    ground (arith, forth, back, rest)
