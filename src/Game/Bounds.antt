-- ===== src/Game/Bounds.antt =====
-- S_Collision::checkOutOfBounds of server/S_Collision.cpp and the placing of a box by
-- common/C_Collidable.h.
use sfrpg.Base.{ℕ, ◌*◌, ◌%◌, ◌^◌, ◌≤◌, ◌≡◌, false, if◌then◌else◌, ℤ}
use sfrpg.Platform.{Platform}
use sfrpg.Ecs.Components.{Vector, Position, Collidable, top_left, abs_centre, mid_bottom}
use sfrpg.Game.Map.{GameMap, tile_size}
use sfrpg.Game.Movable.{set_position}

-- Where the map ends on an axis, as a float.
unfoldable pub edge : (π : Platform) → (max : ℕ) → π.Float
edge π max = π.of_int (ℤ.pos ((max * tile_size) % 2 ^ 32))

-- The conversion of unsigned numbers to float keeps their order.
abbrev pub IntOrder : Platform → Type 0
IntOrder ρ = (a b : ℕ) → b ≤ a → ρ.f_lt (ρ.of_int (ℤ.pos a)) (ρ.of_int (ℤ.pos b)) ≡ false

module _ {π : Platform} where
  open π use {Float, of_int, f_add, f_sub, f_div, f_lt}

  -- C_Collidable::setPosition
  unfoldable pub place_box : Vector π → Collidable π → Collidable π
  place_box l_vec c =
      let half_width = f_div c.aabb.rect_width (of_int (ℤ.pos 2)) in
      let half_height = f_div c.aabb.rect_height (of_int (ℤ.pos 2)) in
      let centred = record c {
        aabb = record c.aabb {
          rect_left = f_add (f_sub l_vec.x half_width) c.box_offset.x;
          rect_top = f_add (f_sub l_vec.y half_height) c.box_offset.y;
        };
      } in
      elim c.origin [
        | top_left ↦ record c {
          aabb = record c.aabb {
            rect_left = f_add l_vec.x c.box_offset.x;
            rect_top = f_add l_vec.y c.box_offset.y;
          };
        }
        | abs_centre ↦ centred
        | mid_bottom ↦ centred
      ]

  -- C_Collidable::resetCollisionFlags
  unfoldable pub reset_flags : Collidable π → Collidable π
  reset_flags c = record c { colliding_on_x = false; colliding_on_y = false }

  -- The position is set, and the box goes along.
  unfoldable pub put_at : Vector π → Position π × Collidable π → Position π × Collidable π
  unfolding set_position place_box
  put_at l_vec (p, c) = (set_position l_vec p, place_box l_vec c)

  unfoldable pub clamp_x : (max : ℕ) → Position π × Collidable π → Position π × Collidable π
  unfolding put_at edge
  clamp_x max (p, c) =
      if f_lt p.position.x (of_int (ℤ.pos 0))
      then put_at (record p.position { x = of_int (ℤ.pos 0) }) (p, c)
      else if f_lt (edge π max) p.position.x
      then put_at (record p.position { x = edge π max }) (p, c)
      else (p, c)

  unfoldable pub clamp_y : (max : ℕ) → Position π × Collidable π → Position π × Collidable π
  unfolding put_at edge
  clamp_y max (p, c) =
      if f_lt p.position.y (of_int (ℤ.pos 0))
      then put_at (record p.position { y = of_int (ℤ.pos 0) }) (p, c)
      else if f_lt (edge π max) p.position.y
      then put_at (record p.position { y = edge π max }) (p, c)
      else (p, c)

  unfoldable pub check_out_of_bounds :
      GameMap π → Position π × Collidable π → Position π × Collidable π
  unfolding clamp_x clamp_y
  check_out_of_bounds m both = clamp_y m.max_y (clamp_x m.max_x both)
