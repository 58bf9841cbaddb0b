-- ===== src/Ecs/Entities.antt =====
-- common/Entity_Manager.cpp: entities and their components.
use sfrpg.Base.{
  ℕ, zero, suc, ◌+◌, ◌%◌, ◌^◌, Bool, true, false, ◌==◌, if◌then◌else◌, Option, none, some, List, [],
  ◌∷◌, ◌++◌, ℤ, eq_ℤ, to_i32, lookup, update, erase, emplace, length,
}
use sfrpg.Platform.{Platform}
use sfrpg.Ecs.Bitmask.{get_bit, turn_on_bit, clear_bit}
use sfrpg.Ecs.Components.{Part, get_type, Junk, new_part}
use sfrpg.Ecs.State.{EntityData, World, network_system, event_spawned}
use sfrpg.Ecs.Systems.{
  entity_modified, leave_systems, purge_entities, add_event, find_system, has_member,
}

-- N_COMPONENT_TYPES
abbrev pub n_component_types : ℕ
n_component_types = 32

module _ {π : Platform} where
  -- std::find_if on the type.
  unfoldable pub find_part : ℕ → List (Part π) → Option (Part π)
  find_part l_component [] = none
  find_part l_component (c ∷ cs) =
      if get_type c == l_component then some c else find_part l_component cs

  unfoldable pub drop_part : ℕ → List (Part π) → List (Part π)
  drop_part l_component [] = []
  drop_part l_component (c ∷ cs) =
      if get_type c == l_component then cs else c ∷ drop_part l_component cs

  -- EntityManager::getComponent, before the cast.
  unfoldable pub get_component : World π → ℤ → ℕ → Option (Part π)
  unfolding find_part
  get_component w l_entity l_component = elim (lookup l_entity w.entities) [
    | none ↦ none
    | some d ↦ if get_bit d.bitmask l_component then find_part l_component d.components else none
  ]

  unfoldable pub has_entity : World π → ℤ → Bool
  has_entity w l_entity = elim (lookup l_entity w.entities) [ none ↦ false | some d ↦ true ]

  unfoldable pub has_component : World π → ℤ → ℕ → Bool
  has_component w l_entity l_component = elim (lookup l_entity w.entities) [
    | none ↦ false
    | some d ↦ get_bit d.bitmask l_component
  ]

  -- The writes of addComponent, once the component is made.
  unfoldable pub attach : ℤ → ℕ → EntityData π → Part π → World π → World π
  attach l_entity l_component d component w =
      let mask = turn_on_bit d.bitmask l_component in
      let grown = record d { bitmask = mask; components = d.components ++ component ∷ [] } in
      entity_modified l_entity mask (record w { entities = update l_entity grown w.entities })

  unfoldable pub add_component : Junk → ℤ → ℕ → World π → World π × Bool
  unfolding attach
  add_component junk l_entity l_component w = elim (lookup l_entity w.entities) [
    | none ↦ (w, false)
    | some d ↦
        if get_bit d.bitmask l_component then (w, false) else elim (new_part π junk l_component) [
          | none ↦ (w, false)
          | some component ↦ (attach l_entity l_component d component w, true)
        ]
  ]

  unfoldable pub detach : ℤ → ℕ → EntityData π → World π → World π
  detach l_entity l_component d w =
      let mask = clear_bit d.bitmask l_component in
      let less = record d { bitmask = mask; components = drop_part l_component d.components } in
      entity_modified l_entity mask (record w { entities = update l_entity less w.entities })

  unfoldable pub remove_component : ℤ → ℕ → World π → World π × Bool
  unfolding detach find_part
  remove_component l_entity l_component w = elim (lookup l_entity w.entities) [
    | none ↦ (w, false)
    | some d ↦
        if get_bit d.bitmask l_component
        then elim (find_part l_component d.components) [
          | none ↦ (w, false)
          | some component ↦ (detach l_entity l_component d w, true)
        ]
        else (w, false)
  ]

  -- The loop of addEntity: `n` component types are left, from `i` on.
  unfoldable pub add_components : Junk → ℤ → ℕ → ℕ → ℕ → World π → World π
  add_components junk id l_bits zero i w = w
  add_components junk id l_bits (suc n) i w =
      add_components junk id l_bits n (suc i)
        (if get_bit l_bits i then (add_component junk id i w).0 else w)

  -- What follows the insertion of a new entity.
  unfoldable pub furnish : Junk → ℤ → ℕ → World π → World π
  unfolding add_components
  furnish junk id l_bits w =
      add_event id event_spawned
        (entity_modified id l_bits (add_components junk id l_bits n_component_types 0 w))

  -- The identifier of a new entity: the one given, or the counter's.
  abbrev pub chosen_id : ℤ → World π → ℤ
  chosen_id l_id w = if eq_ℤ l_id (ℤ.negsuc 0) then to_i32 w.id_counter else l_id

  -- EntityManager::addEntity(const Bitmask&, int)
  unfoldable pub add_entity : Junk → ℕ → ℤ → World π → World π × ℤ
  unfolding furnish
  add_entity junk l_bits l_id w =
      let fresh = eq_ℤ l_id (ℤ.negsuc 0) in
      let id = chosen_id l_id w in
      let blank : EntityData π = record { bitmask = 0; entity_type = []; components = [] } in
      let counter = if fresh then (w.id_counter + 1) % 2 ^ 32 else w.id_counter in
      elim (lookup id w.entities) [
        | some d ↦ (w, ℤ.negsuc 0)
        | none ↦ (
          furnish junk id l_bits
              (record w { entities = (emplace id blank w.entities).0; id_counter = counter }),
          id,
        )
      ]

  -- The message Removed_Entity, to which S_Network alone subscribes.
  unfoldable pub notify_removed : ℤ → World π → World π
  unfolding find_system
  notify_removed l_entity w = elim (find_system network_system w.systems) [
    | none ↦ w
    | some s ↦ if has_member s l_entity then record w { input = erase l_entity w.input } else w
  ]

  -- EntityManager::removeEntity. The entity itself stays, without components.
  unfoldable pub remove_entity : ℤ → World π → World π × Bool
  unfolding notify_removed
  remove_entity l_entity w = elim (lookup l_entity w.entities) [
    | none ↦ (w, false)
    | some d ↦
        let told = notify_removed l_entity w in
        let bare = record d { bitmask = 0; components = [] } in
        (
          leave_systems l_entity (record told { entities = update l_entity bare told.entities }),
          true,
        )
  ]

  -- EntityManager::purge, with a system manager.
  unfoldable pub purge : World π → World π
  purge w = record (purge_entities w) { entities = []; id_counter = 0 }

  unfoldable pub get_entity_count : World π → ℕ
  get_entity_count w = length w.entities % 2 ^ 32
