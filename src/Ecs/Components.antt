-- ===== src/Ecs/Components.antt =====
-- The components of an entity: common/C_*.h and server/C_Attacker.h. Fields that a constructor leaves
-- uninitialised come from `Junk`.
use sfrpg.Base.{ℕ, Bool, false, ◌||◌, ◌==◌, if◌then◌else◌, Option, none, some, [], ℤ, Text}
use sfrpg.Platform.{Platform}
use sfrpg.Server.State.{null_id}

-- enum class Component, as far as a component class exists.
abbrev pub position_id : ℕ
position_id = 0

abbrev pub state_id : ℕ
state_id = 2

abbrev pub movable_id : ℕ
movable_id = 3

abbrev pub controller_id : ℕ
controller_id = 4

abbrev pub collidable_id : ℕ
collidable_id = 5

abbrev pub client_id : ℕ
client_id = 8

abbrev pub health_id : ℕ
health_id = 9

abbrev pub name_id : ℕ
name_id = 10

abbrev pub attacker_id : ℕ
attacker_id = 12

pub data Direction : Type 0 where
  up : Direction
  left : Direction
  down : Direction
  right : Direction

pub data EntityState : Type 0 where
  idle : EntityState
  walking : EntityState
  hurt : EntityState
  attacking : EntityState
  dying : EntityState

pub data Origin : Type 0 where
  top_left : Origin
  abs_centre : Origin
  mid_bottom : Origin

-- sf::Vector2f
pub record Vector (π : Platform) : Type 0 where
  pub x : π.Float
  pub y : π.Float

-- sf::FloatRect
pub record Rect (π : Platform) : Type 0 where
  pub rect_left : π.Float
  pub rect_top : π.Float
  pub rect_width : π.Float
  pub rect_height : π.Float

pub record Position (π : Platform) : Type 0 where
  pub position_old : Vector π
  pub position : Vector π
  pub elevation : ℕ

pub record Movable (π : Platform) : Type 0 where
  pub velocity : Vector π
  pub velocity_max : π.Float
  pub speed : Vector π
  pub acceleration : Vector π
  pub direction : Direction

pub record Collidable (π : Platform) : Type 0 where
  pub aabb : Rect π
  pub box_offset : Vector π
  pub origin : Origin
  pub colliding_on_x : Bool
  pub colliding_on_y : Bool

-- C_Health and its timer.
pub record Health (π : Platform) : Type 0 where
  pub health : ℤ
  pub max_health : ℤ
  pub hurt_duration : ℕ
  pub death_duration : ℕ
  pub hurt_timer : π.Time

-- C_Attacker and its timer.
pub record Attacker (π : Platform) : Type 0 where
  pub attack_area : Rect π
  pub area_offset : Vector π
  pub attacked : Bool
  pub knockback : π.Float
  pub attack_duration : ℕ
  pub attack_timer : π.Time

-- C_Base, by its class.
pub data Part (π : Platform) : Type 0 where
  position_part : Position π → Part π
  state_part : EntityState → Part π
  movable_part : Movable π → Part π
  controller_part : Part π
  collidable_part : Collidable π → Part π
  client_part : (client_id : ℤ) → Part π
  health_part : Health π → Part π
  name_part : Text → Part π
  attacker_part : Attacker π → Part π

-- C_Base::getType
unfoldable pub get_type : {π : Platform} → Part π → ℕ
get_type (position_part p) = position_id
get_type (state_part s) = state_id
get_type (movable_part m) = movable_id
get_type controller_part = controller_id
get_type (collidable_part c) = collidable_id
get_type (client_part c) = client_id
get_type (health_part h) = health_id
get_type (name_part n) = name_id
get_type (attacker_part a) = attacker_id

pub record Junk : Type 0 where
  pub junk_state : EntityState
  pub junk_health : ℤ
  pub junk_max_health : ℤ
  pub junk_attacked : Bool

module _ (π : Platform) where
  open π use {of_int, milliseconds}

  abbrev pub origin_vector : Vector π
  origin_vector = record { x = of_int (ℤ.pos 0); y = of_int (ℤ.pos 0) }

  abbrev empty_rect : Rect π
  empty_rect = record {
    rect_left = of_int (ℤ.pos 0);
    rect_top = of_int (ℤ.pos 0);
    rect_width = of_int (ℤ.pos 0);
    rect_height = of_int (ℤ.pos 0);
  }

  abbrev new_position : Position π
  new_position = record { position_old = origin_vector; position = origin_vector; elevation = 0 }

  abbrev new_movable : Movable π
  new_movable = record {
    velocity = origin_vector;
    velocity_max = of_int (ℤ.pos 0);
    speed = origin_vector;
    acceleration = origin_vector;
    direction = up;
  }

  abbrev new_collidable : Collidable π
  new_collidable = record {
    aabb = empty_rect;
    box_offset = origin_vector;
    origin = mid_bottom;
    colliding_on_x = false;
    colliding_on_y = false;
  }

  abbrev new_health : Junk → Health π
  new_health junk = record {
    health = junk.junk_health;
    max_health = junk.junk_max_health;
    hurt_duration = 0;
    death_duration = 0;
    hurt_timer = milliseconds (ℤ.pos 0);
  }

  abbrev new_attacker : Junk → Attacker π
  new_attacker junk = record {
    attack_area = empty_rect;
    area_offset = origin_vector;
    attacked = junk.junk_attacked;
    knockback = of_int (ℤ.pos 0);
    attack_duration = 0;
    attack_timer = milliseconds (ℤ.pos 0);
  }

  -- The component factory, with the classes that ServerEntityManager registers.
  unfoldable pub new_part : Junk → ℕ → Option (Part π)
  new_part junk l_type =
      if l_type == position_id
      then some (position_part new_position)
      else if l_type == state_id
      then some (state_part junk.junk_state)
      else if l_type == movable_id
      then some (movable_part new_movable)
      else if l_type == controller_id
      then some controller_part
      else if l_type == collidable_id
      then some (collidable_part new_collidable)
      else if l_type == client_id
      then some (client_part null_id)
      else if l_type == health_id
      then some (health_part (new_health junk))
      else if l_type == name_id
      then some (name_part [])
      else if l_type == attacker_id
      then some (attacker_part (new_attacker junk))
      else none

-- The component types that the factory knows.
abbrev pub is_registered : ℕ → Bool
is_registered l_type =
    l_type == position_id
    || l_type == state_id
    || l_type == movable_id
    || l_type == controller_id
    || l_type == collidable_id
    || l_type == client_id
    || l_type == health_id
    || l_type == name_id
    || l_type == attacker_id
