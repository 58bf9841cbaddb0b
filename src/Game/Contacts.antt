-- ===== src/Game/Contacts.antt =====
-- The second half of S_Collision::update in server/S_Collision.cpp: entities against each other.
use sfrpg.Base.{ℕ, if◌then◌else◌, Option, none, some, List, [], ◌∷◌, ℤ}
use sfrpg.Platform.{Platform}
use sfrpg.Ecs.State.{World, Outcome, done, null_access}
use sfrpg.Ecs.Parts.{collidable_of, attacker_of}
use sfrpg.Ecs.StateSystem.{and_then}
use sfrpg.Ecs.Combat.{being_attacked}
use sfrpg.Game.Map.{GameMap}
use sfrpg.Game.Collision.{Geometry, collide_entities}

module _ {π : Platform} where
  -- The message that one entity is attacked by another, where the other can attack and its area of
  -- attack meets the first one's box.
  unfoldable pub attack_if_near :
      ℕ → Geometry π → (sender receiver : ℤ) → World π → Outcome (World π)
  unfolding being_attacked
  attack_if_near n γ sender receiver w = elim (attacker_of w sender) [
    | none ↦ done w
    | some a ↦ elim (collidable_of w receiver) [
      | none ↦ null_access
      | some col ↦
          if γ.intersects a.attack_area col.aabb then being_attacked n receiver sender w else done w
    ]
  ]

  -- The body of the inner loop of S_Collision::entityCollisions.
  unfoldable pub meet : ℕ → Geometry π → (first second : ℤ) → World π → Outcome (World π)
  unfolding attack_if_near and_then
  meet n γ first second w = elim (collidable_of w first) [
    | none ↦ null_access
    | some col1 ↦ elim (collidable_of w second) [
      | none ↦ null_access
      | some col2 ↦ and_then (attack_if_near n γ first second w) (attack_if_near n γ second first)
    ]
  ]

  unfoldable pub meet_each : ℕ → Geometry π → (first : ℤ) → List ℤ → World π → Outcome (World π)
  unfolding meet and_then
  meet_each n γ first [] w = done w
  meet_each n γ first (e ∷ es) w = and_then (meet n γ first e w) (meet_each n γ first es)

  -- S_Collision::entityCollisions
  unfoldable pub entity_collisions : ℕ → Geometry π → List ℤ → World π → Outcome (World π)
  unfolding meet_each and_then
  entity_collisions n γ [] w = done w
  entity_collisions n γ (e ∷ es) w = and_then (meet_each n γ e es w) (entity_collisions n γ es)

  -- S_Collision::update, over the entities of the system.
  unfoldable pub update_collision :
      ℕ → Geometry π → (l_map : Option (GameMap π)) → List ℤ → World π → Outcome (World π)
  unfolding collide_entities entity_collisions and_then
  update_collision n γ none es w = done w
  update_collision n γ (some game_map) es w =
      and_then (collide_entities γ game_map es w) (entity_collisions n γ es)
