-- ===== src/Game/Movement.antt =====
-- server/S_Movement.cpp and the handler of common/C_Control.cpp.
use sfrpg.Base.{ℕ, not, ◌||◌, ◌==◌, if◌then◌else◌, none, some, List, [], ◌∷◌, ℤ, to_u32}
use sfrpg.Platform.{Platform}
use sfrpg.Ecs.Components.{
  Direction, up, left, down, right, Vector, origin_vector, Position, Movable, movable_part,
  position_part,
}
use sfrpg.Ecs.State.{
  World, Outcome, done, null_access, movement_system, event_moving_left, event_moving_right,
  event_moving_up, event_moving_down,
}
use sfrpg.Ecs.Parts.{set_part, movable_of, position_of}
use sfrpg.Ecs.StateSystem.{and_then, in_system}
use sfrpg.Game.Map.{GameMap, tile_size, highest_tile}
use sfrpg.Game.Movable.{f_zero, scale, apply_friction, add_velocity, push, move_by}

-- enum class EntityEvent, of which common/S_State.cpp has the others.
abbrev pub event_colliding_x : ℕ
event_colliding_x = 2

abbrev pub event_colliding_y : ℕ
event_colliding_y = 3

pub data Axis : Type 0 where
  on_x : Axis
  on_y : Axis

-- The coordinate of the tile under a position. C++ does not define the conversion of a negative
-- float to unsigned int: here it wraps around.
unfoldable pub tile_under : (π : Platform) → π.Float → ℕ
tile_under π coordinate = to_u32 (π.f_floor (π.f_div coordinate (π.of_int (ℤ.pos tile_size))))

module _ {π : Platform} where
  open π use {Float, of_int, f_add, f_mul, f_div, f_sqrt, f_floor, f_lt, f_eq}

  -- S_Movement::getTileFriction. The source returns a reference to the value of a conditional
  -- expression, a temporary that is gone when the function returns: this is the value that it had.
  unfoldable pub get_tile_friction : GameMap π → (l_layer l_x l_y : ℕ) → Vector π
  unfolding highest_tile
  get_tile_friction m l_layer l_x l_y = elim (highest_tile m l_x l_y l_layer) [
    | none ↦ origin_vector π
    | some tile ↦ tile.properties.friction
  ]

  -- The end of S_Movement::movementStep.
  unfoldable pub cap_velocity : Movable π → Movable π
  cap_velocity m =
      let magnitude =
        f_sqrt (f_add (f_mul m.velocity.x m.velocity.x) (f_mul m.velocity.y m.velocity.y)) in
      let max_v = m.velocity_max in
      if f_lt magnitude max_v || f_eq magnitude max_v then m else record m {
        velocity = record {
          x = f_mul (f_div m.velocity.x magnitude) max_v;
          y = f_mul (f_div m.velocity.y magnitude) max_v;
        };
      }

  -- S_Movement::movementStep. `read_gone` is what a read of a vector gives that is gone; C++ leaves it
  -- undefined.
  unfoldable pub movement_step :
      (Vector π → Vector π) → GameMap π → (l_dt : Float) → Position π → Movable π → Movable π
  unfolding get_tile_friction tile_under add_velocity apply_friction cap_velocity
  movement_step read_gone game_map l_dt l_position l_movable =
      let f_coef = read_gone (
        get_tile_friction game_map l_position.elevation (tile_under π l_position.position.x)
          (tile_under π l_position.position.y)) in
      let friction : Vector π = record {
        x = f_mul l_movable.speed.x f_coef.x;
        y = f_mul l_movable.speed.y f_coef.y;
      } in
      let faster = add_velocity (scale l_movable.acceleration l_dt) l_movable in
      let spent = record faster { acceleration = origin_vector π } in
      cap_velocity (apply_friction (scale friction l_dt) spent)

  -- S_Movement::update, on one entity and on all of them.
  unfoldable pub step_entity :
      (Vector π → Vector π) → GameMap π → Float → ℤ → World π → Outcome (World π)
  unfolding movement_step move_by set_part
  step_entity read_gone game_map l_dt e w = elim (movable_of w e) [
    | none ↦ null_access
    | some mov ↦ elim (position_of w e) [
      | none ↦ null_access
      | some pos ↦
          let stepped = movement_step read_gone game_map l_dt pos mov in
          done (
            set_part e (position_part (move_by stepped.velocity pos))
              (set_part e (movable_part stepped) w))
    ]
  ]

  unfoldable pub update_movement :
      (Vector π → Vector π) → GameMap π → Float → List ℤ → World π → Outcome (World π)
  unfolding step_entity and_then
  update_movement read_gone game_map l_dt [] w = done w
  update_movement read_gone game_map l_dt (e ∷ es) w =
      and_then (step_entity read_gone game_map l_dt e w)
        (update_movement read_gone game_map l_dt es)

  -- A change of the movable component that must be there.
  unfoldable pub change_movable : (Movable π → Movable π) → ℤ → World π → Outcome (World π)
  unfolding set_part
  change_movable change e w = elim (movable_of w e) [
    | none ↦ null_access
    | some mov ↦ done (set_part e (movable_part (change mov)) w)
  ]

  -- S_Movement::stopEntity
  unfoldable pub stopped : Axis → Movable π → Movable π
  stopped on_x m = record m { velocity = record m.velocity { x = f_zero π } }
  stopped on_y m = record m { velocity = record m.velocity { y = f_zero π } }

  unfoldable pub stop_entity : ℤ → Axis → World π → Outcome (World π)
  unfolding change_movable stopped
  stop_entity e l_axis w = change_movable (stopped l_axis) e w

  -- S_Movement::setDirection. Nothing subscribes to the message Direction_Changed.
  unfoldable pub set_direction : ℤ → Direction → World π → Outcome (World π)
  unfolding change_movable
  set_direction e l_direction w = change_movable (λ m. record m { direction = l_direction }) e w

  -- The cases Moving_Up and Moving_Down: only an entity that does not move on the x axis turns.
  unfoldable pub turn_upright : ℤ → Direction → World π → Outcome (World π)
  unfolding set_direction
  turn_upright e l_direction w = elim (movable_of w e) [
    | none ↦ null_access
    | some mov ↦ if f_eq mov.velocity.x (f_zero π) then set_direction e l_direction w else done w
  ]

  -- S_Movement::handleEvent
  unfoldable pub handle_movement_event : ℤ → (l_event : ℕ) → World π → Outcome (World π)
  unfolding stop_entity set_direction turn_upright
  handle_movement_event e l_event w =
      if not (in_system movement_system e w)
      then done w
      else if l_event == event_colliding_x
      then stop_entity e on_x w
      else if l_event == event_colliding_y
      then stop_entity e on_y w
      else if l_event == event_moving_left
      then set_direction e left w
      else if l_event == event_moving_right
      then set_direction e right w
      else if l_event == event_moving_up
      then turn_upright e up w
      else if l_event == event_moving_down
      then turn_upright e down w
      else done w

  -- S_Control::moveEntity
  unfoldable pub move_entity : ℤ → Direction → World π → Outcome (World π)
  unfolding change_movable push
  move_entity e l_direction w = change_movable (push l_direction) e w

  -- S_Control::handleEvent
  unfoldable pub handle_control_event : ℤ → (l_event : ℕ) → World π → Outcome (World π)
  unfolding move_entity
  handle_control_event e l_event w =
      if l_event == event_moving_left
      then move_entity e left w
      else if l_event == event_moving_right
      then move_entity e right w
      else if l_event == event_moving_up
      then move_entity e up w
      else if l_event == event_moving_down
      then move_entity e down w
      else done w
