-- ===== src/Game/Movable.antt =====
-- The arithmetic of common/C_Movable.h and common/C_Position.h.
use sfrpg.Base.{not, ◌&&◌, if◌then◌else◌, ℤ}
use sfrpg.Platform.{Platform}
use sfrpg.Ecs.Components.{Direction, up, left, down, right, Vector, Position, Movable}

module _ (π : Platform) where
  open π use {Float, of_int, f_add, f_sub, f_mul, f_div, f_abs, f_lt, f_eq}

  abbrev pub f_zero : Float
  f_zero = of_int (ℤ.pos 0)

  -- One axis of C_Movable::applyFriction.
  unfoldable pub slow : (velocity friction : Float) → Float
  slow velocity friction =
      if not (f_eq velocity f_zero) && not (f_eq friction f_zero)
      then if f_lt (f_sub (f_abs velocity) (f_abs friction)) f_zero
        then f_zero
        else f_add velocity
            (if f_lt f_zero velocity then f_mul friction (of_int (ℤ.negsuc 0)) else friction)
      else velocity

  -- One axis of C_Movable::addVelocity.
  unfoldable pub bound_speed : (velocity_max velocity : Float) → Float
  bound_speed velocity_max velocity =
      if f_lt velocity_max (f_abs velocity)
      then f_mul velocity_max (f_div velocity (f_abs velocity))
      else velocity

module _ {π : Platform} where
  open π use {Float, f_add, f_sub, f_mul}

  abbrev pub scale : Vector π → Float → Vector π
  scale v k = record { x = f_mul v.x k; y = f_mul v.y k }

  abbrev pub plus : Vector π → Vector π → Vector π
  plus v w = record { x = f_add v.x w.x; y = f_add v.y w.y }

  unfoldable pub apply_friction : Vector π → Movable π → Movable π
  unfolding slow
  apply_friction l_vec m = record m {
    velocity = record { x = slow π m.velocity.x l_vec.x; y = slow π m.velocity.y l_vec.y };
  }

  unfoldable pub add_velocity : Vector π → Movable π → Movable π
  unfolding bound_speed
  add_velocity l_vec m =
      let sum = plus m.velocity l_vec in
      record m {
        velocity = record {
          x = bound_speed π m.velocity_max sum.x;
          y = bound_speed π m.velocity_max sum.y;
        };
      }

  -- C_Movable::move
  unfoldable pub push : Direction → Movable π → Movable π
  push left m = record m {
    acceleration = record m.acceleration { x = f_sub m.acceleration.x m.speed.x };
  }
  push right m = record m {
    acceleration = record m.acceleration { x = f_add m.acceleration.x m.speed.x };
  }
  push up m = record m {
    acceleration = record m.acceleration { y = f_sub m.acceleration.y m.speed.y };
  }
  push down m = record m {
    acceleration = record m.acceleration { y = f_add m.acceleration.y m.speed.y };
  }

  -- C_Position::setPosition and C_Position::moveBy
  unfoldable pub set_position : Vector π → Position π → Position π
  set_position l_vec p = record p { position_old = p.position; position = l_vec }

  unfoldable pub move_by : Vector π → Position π → Position π
  move_by l_vec p = record p { position_old = p.position; position = plus p.position l_vec }
