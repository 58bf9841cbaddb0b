-- ===== src/Ecs/Systems.antt =====
-- common/S_Base.cpp and common/System_Manager.cpp: which entities a system holds, and the events.
use sfrpg.Base.{
  ℕ, Bool, true, false, ◌||◌, ◌==◌, if◌then◌else◌, Option, none, some, List, [], ◌∷◌, ◌++◌, ℤ, eq_ℤ,
  lookup, update,
}
use sfrpg.Platform.{Platform}
use sfrpg.Ecs.Bitmask.{matches}
use sfrpg.Ecs.State.{SystemBase, World}

-- std::find in a list of entities.
unfoldable pub holds : ℤ → List ℤ → Bool
holds l_entity [] = false
holds l_entity (e ∷ es) = if eq_ℤ e l_entity then true else holds l_entity es

-- The first entry of an entity taken out of a list.
unfoldable pub without : ℤ → List ℤ → List ℤ
without l_entity [] = []
without l_entity (e ∷ es) = if eq_ℤ e l_entity then es else e ∷ without l_entity es

-- S_Base::hasEntity
unfoldable pub has_member : SystemBase → ℤ → Bool
has_member s l_entity = holds l_entity s.members

-- S_Base::addEntity
unfoldable pub add_member : SystemBase → ℤ → SystemBase × Bool
unfolding has_member
add_member s l_entity =
    if has_member s l_entity
    then (s, false)
    else (record s { members = s.members ++ l_entity ∷ [] }, true)

-- S_Base::removeEntity
unfoldable pub remove_member : SystemBase → ℤ → SystemBase × Bool
remove_member s l_entity =
    if holds l_entity s.members
    then (record s { members = without l_entity s.members }, true)
    else (s, false)

-- `b.matches(l_bits, b.getMask())` for one of the requirements `b`.
unfoldable pub matches_any : List ℕ → ℕ → Bool
matches_any [] l_bits = false
matches_any (b ∷ bs) l_bits = matches b l_bits b || matches_any bs l_bits

-- S_Base::fitsRequirements
unfoldable pub fits_requirements : SystemBase → ℕ → Bool
fits_requirements s l_bits = matches_any s.required l_bits

-- S_Base::purge
unfoldable pub purge_members : SystemBase → SystemBase
purge_members s = record s { members = [] }

-- The body of the loop in SystemManager::entityModified.
unfoldable pub reconsider : ℤ → ℕ → SystemBase → SystemBase
unfolding has_member fits_requirements
reconsider l_entity l_bits s =
    if has_member s l_entity
    then if fits_requirements s l_bits then s else (remove_member s l_entity).0
    else if fits_requirements s l_bits
    then (add_member s l_entity).0
    else s

abbrev pub map_systems : (SystemBase → SystemBase) → List SystemBase → List SystemBase
map_systems f [] = []
map_systems f (s ∷ ss) = f s ∷ map_systems f ss

-- SystemManager::getSystem
unfoldable pub find_system : ℕ → List SystemBase → Option SystemBase
find_system l_id [] = none
find_system l_id (s ∷ ss) = if s.system_id == l_id then some s else find_system l_id ss

module _ {π : Platform} where
  -- SystemManager::entityModified
  unfoldable pub entity_modified : ℤ → ℕ → World π → World π
  entity_modified l_entity l_bits w = record w {
    systems = map_systems (reconsider l_entity l_bits) w.systems;
  }

  -- SystemManager::removeEntity
  unfoldable pub leave_systems : ℤ → World π → World π
  leave_systems l_entity w = record w {
    systems = map_systems (λ s. (remove_member s l_entity).0) w.systems;
  }

  -- SystemManager::purgeEntities
  unfoldable pub purge_entities : World π → World π
  purge_entities w = record w { systems = map_systems purge_members w.systems }

  -- SystemManager::addEvent: `operator[]` makes the queue where there is none.
  unfoldable pub add_event : ℤ → ℕ → World π → World π
  add_event l_entity l_event w = elim (lookup l_entity w.events) [
    | none ↦ record w { events = w.events ++ (l_entity, l_event ∷ []) ∷ [] }
    | some queue ↦ record w { events = update l_entity (queue ++ l_event ∷ []) w.events }
  ]
