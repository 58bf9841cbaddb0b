-- ===== src/Ecs/State.antt =====
-- What the entity manager, the system manager and the network system keep, as one state: the systems
-- reach each other's through pointers.
use sfrpg.Base.{ℕ, Bool, List, ℤ, Text}
use sfrpg.Platform.{Platform}
use sfrpg.Server.State.{Server}
use sfrpg.Ecs.Components.{Part}

pub record EntityData (π : Platform) : Type 0 where
  pub bitmask : ℕ
  pub entity_type : Text
  pub components : List (Part π)

-- S_Base. The classes that derive from it are told apart by the identifier.
pub record SystemBase : Type 0 where
  pub system_id : ℕ
  pub members : List ℤ
  pub required : List ℕ

pub record PlayerInput : Type 0 where
  pub moved_x : ℤ
  pub moved_y : ℤ
  pub attacks : Bool

pub record World (π : Platform) : Type 0 where
  pub entities : List (ℤ × EntityData π)
  pub id_counter : ℕ
  pub systems : List SystemBase
  -- EntityEventContainer: a queue of events for each entity, oldest first.
  pub events : List (ℤ × List ℕ)
  -- S_Network::m_input and S_Network::m_server
  pub input : List (ℤ × PlayerInput)
  pub server : Server π

-- enum class System
abbrev pub movement_system : ℕ
movement_system = 1

abbrev pub collision_system : ℕ
collision_system = 2

abbrev pub control_system : ℕ
control_system = 3

abbrev pub state_system : ℕ
state_system = 4

abbrev pub network_system : ℕ
network_system = 7

abbrev pub combat_system : ℕ
combat_system = 8

abbrev pub timers_system : ℕ
timers_system = 10

-- enum class EntityEvent
abbrev pub event_spawned : ℕ
event_spawned = 0

abbrev pub event_moving_left : ℕ
event_moving_left = 4

abbrev pub event_moving_right : ℕ
event_moving_right = 5

abbrev pub event_moving_up : ℕ
event_moving_up = 6

abbrev pub event_moving_down : ℕ
event_moving_down = 7

abbrev pub event_became_idle : ℕ
event_became_idle = 9

abbrev pub event_began_attacking : ℕ
event_began_attacking = 11

-- What a call comes to: its result, the use of a null pointer, or more nested messages than there is
-- fuel for.
pub data Outcome {ℓ} (A : Type ℓ) : Type ℓ where
  done : A → Outcome A
  null_access : Outcome A
  out_of_fuel : Outcome A
