-- ===== src/Game/BoundsLaws.antt =====
-- Lemmas on checkOutOfBounds of server/S_Collision.cpp.
use sfrpg.Base.{ℕ, ◌%◌, ◌^◌, ◌*◌, ◌≡◌, refl, false, ℤ, arith, if_ind}
use sfrpg.Platform.{Platform}
use sfrpg.Ecs.Components.{Position, Collidable}
use sfrpg.Game.Map.{GameMap, tile_size}
use sfrpg.Game.Movable.{set_position}
use sfrpg.Game.Bounds.{put_at, edge, IntOrder, clamp_x, clamp_y, check_out_of_bounds}

-- Neither before the start of the map nor past its end.
abbrev pub Inside : (π : Platform) → (max : ℕ) → π.Float → Type 0
Inside π max coordinate =
    (π.f_lt coordinate (π.of_int (ℤ.pos 0)) ≡ false) × (π.f_lt (edge π max) coordinate ≡ false)

Inside-start : (π : Platform) → IntOrder π → (max : ℕ) → Inside π max (π.of_int (ℤ.pos 0))
unfolding edge
Inside-start π order max =
    (order 0 0 (omega arith), order ((max * tile_size) % 2 ^ 32) 0 (omega arith))

Inside-end : (π : Platform) → IntOrder π → (max : ℕ) → Inside π max (edge π max)
unfolding edge
Inside-end π order max =
    let last = (max * tile_size) % 2 ^ 32 in
    (order last 0 (omega arith), order last last (omega arith))

module _ {π : Platform} where
  clamp_x-Inside :
      (max : ℕ) (both : Position π × Collidable π)
      → IntOrder π
      → Inside π max (clamp_x max both).0.position.x
        × ((clamp_x max both).0.position.y ≡ both.0.position.y)
  unfolding clamp_x put_at set_position
  clamp_x-Inside max (p, c) order =
      let P = λ (r : Position π × Collidable π).
        Inside π max r.0.position.x × (r.0.position.y ≡ p.position.y) in
      if_ind P (π.f_lt p.position.x (π.of_int (ℤ.pos 0)))
        (λ below. (Inside-start π order max, refl))
        (λ above.
          if_ind P (π.f_lt (edge π max) p.position.x) (λ past. (Inside-end π order max, refl))
            (λ inside. ((above, inside), refl)))

  clamp_y-Inside :
      (max : ℕ) (both : Position π × Collidable π)
      → IntOrder π
      → Inside π max (clamp_y max both).0.position.y
        × ((clamp_y max both).0.position.x ≡ both.0.position.x)
  unfolding clamp_y put_at set_position
  clamp_y-Inside max (p, c) order =
      let P = λ (r : Position π × Collidable π).
        Inside π max r.0.position.y × (r.0.position.x ≡ p.position.x) in
      if_ind P (π.f_lt p.position.y (π.of_int (ℤ.pos 0)))
        (λ below. (Inside-start π order max, refl))
        (λ above.
          if_ind P (π.f_lt (edge π max) p.position.y) (λ past. (Inside-end π order max, refl))
            (λ inside. ((above, inside), refl)))

  -- Where the conversion of numbers to float keeps their order, checkOutOfBounds leaves a position that
  -- is neither before the start of the map nor past its end, on either axis.
  pub check_out_of_bounds-Inside :
      (m : GameMap π) (both : Position π × Collidable π)
      → IntOrder π
      → Inside π m.max_x (check_out_of_bounds m both).0.position.x
        × Inside π m.max_y (check_out_of_bounds m both).0.position.y
  unfolding check_out_of_bounds
  check_out_of_bounds-Inside m both order =
      let across = clamp_x m.max_x both in
      let x_inside = clamp_x-Inside m.max_x both order in
      let y_inside = clamp_y-Inside m.max_y across order in (rw (y_inside.1) x_inside.0, y_inside.0)
