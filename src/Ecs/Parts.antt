-- ===== src/Ecs/Parts.antt =====
-- Reading and writing one component of an entity through the pointer that getComponent gives.
use sfrpg.Base.{
  option_ind, ℕ, ◌≡◌, refl, ap, ◌∙◌, inl, inr, false, ◌&&◌, ◌==◌, if◌then◌else◌, Option, none, some,
  List, [], ◌∷◌, ℤ, eq_ℤ, eq_ℤ_iff, eq_ℤ_refl, arith, Bool-cases, Option-cases, lookup, update,
  lookup-update, subst,
}
use sfrpg.Platform.{Platform}
use sfrpg.Ecs.Bitmask.{get_bit}
use sfrpg.Ecs.Components.{
  Part, get_type, EntityState, Position, position_part, position_id, Collidable, collidable_part,
  collidable_id, Movable, Health, Attacker, state_part, movable_part, health_part, attacker_part,
  state_id, movable_id, health_id, attacker_id,
}
use sfrpg.Ecs.State.{EntityData, World}
use sfrpg.Ecs.Entities.{find_part, get_component}

module _ {π : Platform} where
  -- A write to the component of the new value's type.
  unfoldable pub put_part : Part π → List (Part π) → List (Part π)
  put_part p [] = []
  put_part p (c ∷ cs) = if get_type c == get_type p then p ∷ cs else c ∷ put_part p cs

  unfoldable pub set_part : ℤ → Part π → World π → World π
  unfolding put_part
  set_part e p w = elim (lookup e w.entities) [
    | none ↦ w
    | some d ↦ record w {
      entities = update e (record d { components = put_part p d.components }) w.entities;
    }
  ]

  -- dynamic_cast
  abbrev pub as_state : Option (Part π) → Option EntityState
  as_state (some (state_part s)) = some s
  as_state _ = none

  abbrev pub as_movable : Option (Part π) → Option (Movable π)
  as_movable (some (movable_part m)) = some m
  as_movable _ = none

  abbrev pub as_health : Option (Part π) → Option (Health π)
  as_health (some (health_part h)) = some h
  as_health _ = none

  abbrev pub as_attacker : Option (Part π) → Option (Attacker π)
  as_attacker (some (attacker_part a)) = some a
  as_attacker _ = none

  abbrev as_collidable : Option (Part π) → Option (Collidable π)
  as_collidable (some (collidable_part c)) = some c
  as_collidable _ = none

  abbrev as_position : Option (Part π) → Option (Position π)
  as_position (some (position_part p)) = some p
  as_position _ = none

  unfoldable pub position_of : World π → ℤ → Option (Position π)
  position_of w e = as_position (get_component w e position_id)

  unfoldable pub state_of : World π → ℤ → Option EntityState
  state_of w e = as_state (get_component w e state_id)

  unfoldable pub movable_of : World π → ℤ → Option (Movable π)
  movable_of w e = as_movable (get_component w e movable_id)

  unfoldable pub health_of : World π → ℤ → Option (Health π)
  health_of w e = as_health (get_component w e health_id)

  unfoldable pub attacker_of : World π → ℤ → Option (Attacker π)
  attacker_of w e = as_attacker (get_component w e attacker_id)

  unfoldable pub collidable_of : World π → ℤ → Option (Collidable π)
  collidable_of w e = as_collidable (get_component w e collidable_id)

  find_part-put_part :
      (p q : Part π) (t : ℕ) (cs : List (Part π))
      → find_part (get_type p) cs ≡ some q
      → find_part t (put_part p cs) ≡ (if t == get_type p then some p else find_part t cs)
  unfolding find_part put_part
  find_part-put_part p q t [] e = ground arith
  find_part-put_part p q t (c ∷ cs) e = ground (arith, find_part-put_part p q t cs)

  set_part-entities :
      (w : World π) (e : ℤ) (p : Part π) (d : EntityData π)
      → lookup e w.entities ≡ some d
      → (set_part e p w).entities
        ≡ update e (record d { components = put_part p d.components }) w.entities
  unfolding set_part
  set_part-entities w e p d known = rw (known, set_part)

  found_in :
      (w : World π) (e : ℤ) (t : ℕ) (d : EntityData π)
      → lookup e w.entities ≡ some d
      → get_component w e t ≡ (if get_bit d.bitmask t then find_part t d.components else none)
  unfolding get_component
  found_in w e t d known = rw (known, get_component)

  at_entity :
      (w : World π) (e : ℤ) (p q : Part π) (t : ℕ)
      → get_component w e (get_type p) ≡ some q
      → get_component (set_part e p w) e t
        ≡ (if t == get_type p then some p else get_component w e t)
  unfolding get_component
  at_entity w e p q t present = elim (Option-cases (lookup e w.entities)) [
    | inl missing ↦ absurd (ground arith)
    | inr (d, known) ↦
        let new : EntityData π = record d { components = put_part p d.components } in
        let stored : lookup e (set_part e p w).entities ≡ some new =
          ap (lookup e) (set_part-entities w e p d known)
          ∙ lookup-update e e new d w.entities known
          ∙ rw (eq_ℤ_refl e) refl in
        let before = found_in w e (get_type p) d known in
        let part = find_part-put_part p q t d.components (ground (arith, before)) in
        found_in (set_part e p w) e t new stored ∙ elim (Bool-cases (t == get_type p)) [
          | inl same ↦
              let e : t ≡ get_type p = ground arith in
              ground (arith, part, before, ap (get_bit d.bitmask) e)
          | inr other ↦ ground (arith, part, found_in w e t d known)
        ]
  ]

  elsewhere :
      (w : World π) (e : ℤ) (p : Part π) (j : ℤ) (t : ℕ)
      → eq_ℤ e j ≡ false
      → get_component (set_part e p w) j t ≡ get_component w j t
  unfolding get_component set_part
  elsewhere w e p j t other = elim (Option-cases (lookup e w.entities)) [
    | inl missing ↦
        let same : set_part e p w ≡ w = rw (missing, set_part) in
        ap (λ (v : World π). get_component v j t) same
    | inr (d, known) ↦
        let new : EntityData π = record d { components = put_part p d.components } in
        let stored : lookup j (set_part e p w).entities ≡ lookup j w.entities =
          ap (lookup j) (set_part-entities w e p d known)
          ∙ lookup-update e j new d w.entities known
          ∙ rw other refl in
        rw (stored, get_component) refl
  ]

  -- A write shows where it was made, and nowhere else.
  pub get_component-set_part :
      (w : World π) (e : ℤ) (p q : Part π) (j : ℤ) (t : ℕ)
      → get_component w e (get_type p) ≡ some q
      → get_component (set_part e p w) j t
        ≡ (if eq_ℤ e j && t == get_type p then some p else get_component w j t)
  get_component-set_part w e p q j t present = elim (Bool-cases (eq_ℤ e j)) [
    | inl same ↦
        let e_j : e ≡ j = (eq_ℤ_iff e j).0 same in
        subst
          (λ (k : ℤ).
            get_component (set_part e p w) k t
            ≡ (if eq_ℤ e k && t == get_type p then some p else get_component w k t))
          e_j (rw (eq_ℤ_refl e) (at_entity w e p q t present))
    | inr other ↦ rw other (elsewhere w e p j t other)
  ]

  pub get_component-other_type :
      (w : World π) (e : ℤ) (p q : Part π) (j : ℤ) (t : ℕ)
      → get_component w e (get_type p) ≡ some q
      → (t == get_type p) ≡ false
      → get_component (set_part e p w) j t ≡ get_component w j t
  get_component-other_type w e p q j t present other =
      ground (arith, get_component-set_part w e p q j t present)

  pub set_part-systems : (e : ℤ) (p : Part π) (w : World π) → (set_part e p w).systems ≡ w.systems
  unfolding set_part
  set_part-systems e p w =
      option_ind (λ (v : World π). v.systems ≡ w.systems) (lookup e w.entities) (λ missing. refl)
        (λ d known. refl)
