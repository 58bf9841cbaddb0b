-- ===== src/Game/Collision.antt =====
-- server/S_Collision.h and server/S_Collision.cpp. The test and the area in which two rectangles meet
-- are SFML's, and parameters here.
use sfrpg.Base.{
  ℕ, zero, suc, ◌+◌, ◌*◌, ◌%◌, ◌^◌, Bool, true, false, not, ◌||◌, if◌then◌else◌, none, some, List,
  [], ◌∷◌, ◌++◌, ℤ, ◌+ℤ◌, ◌-ℤ◌, leb_ℤ, pos_part, to_u32,
}
use sfrpg.Platform.{Platform}
use sfrpg.Ecs.Components.{Rect, Position, Collidable, position_part, collidable_part}
use sfrpg.Ecs.State.{World, Outcome, done, null_access, collision_system}
use sfrpg.Ecs.Systems.{add_event}
use sfrpg.Ecs.Parts.{set_part, position_of, collidable_of}
use sfrpg.Ecs.StateSystem.{and_then, in_system}
use sfrpg.Game.Map.{GameMap, TileInfo, tile_size, num_layers, get_tile}
use sfrpg.Game.Movable.{move_by}
use sfrpg.Game.Movement.{event_colliding_x, event_colliding_y}
use sfrpg.Game.Bounds.{place_box, reset_flags, check_out_of_bounds}

-- sf::FloatRect::intersects. The area is the empty rectangle where the two do not meet.
pub record Geometry (π : Platform) : Type 0 where
  pub intersects : Rect π → Rect π → Bool
  pub intersection : Rect π → Rect π → Rect π

pub record CollisionElement (π : Platform) : Type 0 where
  pub area : π.Float
  pub tile : TileInfo π
  pub tile_bounds : Rect π

-- The numbers from `from` to `to`, both included.
unfoldable pub count_up : ℕ → ℤ → List ℤ
count_up zero from = []
count_up (suc n) from = from ∷ count_up n (from +ℤ ℤ.pos 1)

unfoldable pub range : ℤ → ℤ → List ℤ
unfolding count_up
range from to = if leb_ℤ from to then count_up (pos_part (to -ℤ from) + 1) from else []

module _ {π : Platform} where
  open π use {Float, of_int, f_add, f_sub, f_mul, f_div, f_neg, f_abs, f_floor, f_lt, f_eq}

  -- std::sort by falling area. It leaves the order of equal areas open: here they keep theirs.
  unfoldable pub insert_element :
      CollisionElement π → List (CollisionElement π) → List (CollisionElement π)
  insert_element c [] = c ∷ []
  insert_element c (d ∷ ds) =
      let later = insert_element c ds in if f_lt c.area d.area then d ∷ later else c ∷ d ∷ ds

  unfoldable pub sort_elements : List (CollisionElement π) → List (CollisionElement π)
  unfolding insert_element
  sort_elements [] = []
  sort_elements (c ∷ cs) = insert_element c (sort_elements cs)

  module _ (γ : Geometry π) (game_map : GameMap π) where
    open γ use {intersects, intersection}

    -- The tile at a place, of which the product with the size is taken in unsigned numbers.
    unfoldable pub tile_box : (x y : ℤ) → Rect π
    tile_box x y = record {
      rect_left = of_int (ℤ.pos ((to_u32 x * tile_size) % 2 ^ 32));
      rect_top = of_int (ℤ.pos ((to_u32 y * tile_size) % 2 ^ 32));
      rect_width = of_int (ℤ.pos tile_size);
      rect_height = of_int (ℤ.pos tile_size);
    }

    -- The loop over the layers, from `l` on: the first solid tile that the box meets in an area.
    unfoldable pub solid_at : Rect π → (x y : ℤ) → (layers l : ℕ) → List (CollisionElement π)
    unfolding tile_box get_tile
    solid_at box x y zero l = []
    solid_at box x y (suc layers) l =
        let above = solid_at box x y layers (suc l) in
        let bounds = tile_box x y in
        let shared = intersection box bounds in
        let s = f_mul shared.rect_width shared.rect_height in
        elim (get_tile game_map (to_u32 x) (to_u32 y) l) [
          | none ↦ above
          | some t ↦
              if not t.solid || f_eq s (of_int (ℤ.pos 0))
              then above
              else record { area = s; tile = t.properties; tile_bounds = bounds } ∷ []
        ]

    unfoldable pub solid_rows : Rect π → (x : ℤ) → List ℤ → List (CollisionElement π)
    unfolding solid_at
    solid_rows box x [] = []
    solid_rows box x (y ∷ ys) = solid_at box x y num_layers 0 ++ solid_rows box x ys

    unfoldable pub solid_columns : Rect π → (xs ys : List ℤ) → List (CollisionElement π)
    unfolding solid_rows
    solid_columns box [] ys = []
    solid_columns box (x ∷ xs) ys = solid_rows box x ys ++ solid_columns box xs ys

    -- The first half of S_Collision::mapCollisions.
    unfoldable pub solid_tiles : Rect π → List (CollisionElement π)
    unfolding solid_columns range
    solid_tiles box =
        let size = of_int (ℤ.pos tile_size) in
        solid_columns box
          (range (f_floor (f_div box.rect_left size))
            (f_floor (f_div (f_add box.rect_left box.rect_width) size)))
          (range (f_floor (f_div box.rect_top size))
            (f_floor (f_div (f_add box.rect_top box.rect_height) size)))

  -- Whether the box is pushed out of the tile along the x axis, and how far it is pushed.
  unfoldable pub push_out : (box bounds : Rect π) → Bool × Float
  push_out box bounds =
      let half = λ (side : Float). f_div side (of_int (ℤ.pos 2)) in
      let x_diff =
        f_sub (f_add box.rect_left (half box.rect_width))
          (f_add bounds.rect_left (half bounds.rect_width)) in
      let y_diff =
        f_sub (f_add box.rect_top (half box.rect_height))
          (f_add bounds.rect_top (half bounds.rect_height)) in
      let size = of_int (ℤ.pos tile_size) in
      if f_lt (f_abs y_diff) (f_abs x_diff)
      then (
        true,
        if f_lt (of_int (ℤ.pos 0)) x_diff
            then f_sub (f_add bounds.rect_left size) box.rect_left
            else f_neg (f_sub (f_add box.rect_left box.rect_width) bounds.rect_left),
      )
      else (
        false,
        if f_lt (of_int (ℤ.pos 0)) y_diff
            then f_sub (f_add bounds.rect_top size) box.rect_top
            else f_neg (f_sub (f_add box.rect_top box.rect_height) bounds.rect_top),
      )

  -- The body of the loop over the collisions.
  unfoldable pub resolve :
      ℤ
      → CollisionElement π
      → Position π
      → Collidable π
      → World π
      → Position π × Collidable π × World π
  unfolding push_out move_by place_box add_event
  resolve l_entity element pos col w =
      let (along_x, distance) = push_out col.aabb element.tile_bounds in
      if along_x
      then (let moved = move_by (record { x = distance; y = of_int (ℤ.pos 0) }) pos in
          let placed = place_box moved.position col in
          (moved, record placed { colliding_on_x = true }, add_event l_entity event_colliding_x w))
      else (let moved = move_by (record { x = of_int (ℤ.pos 0); y = distance }) pos in
          let placed = place_box moved.position col in
          (moved, record placed { colliding_on_y = true }, add_event l_entity event_colliding_y w))

  unfoldable pub resolve_all :
      ℤ
      → List (CollisionElement π)
      → Position π
      → Collidable π
      → World π
      → Position π × Collidable π × World π
  unfolding resolve
  resolve_all l_entity [] pos col w = (pos, col, w)
  resolve_all l_entity (element ∷ elements) pos col w =
      let (moved, placed, told) = resolve l_entity element pos col w in
      resolve_all l_entity elements moved placed told

  -- S_Collision::mapCollisions
  unfoldable pub map_collisions :
      Geometry π
      → GameMap π
      → ℤ
      → Position π
      → Collidable π
      → World π
      → Position π × Collidable π × World π
  unfolding solid_tiles sort_elements resolve_all
  map_collisions γ game_map l_entity pos col w =
      if in_system collision_system l_entity w
      then resolve_all l_entity (sort_elements (solid_tiles γ game_map col.aabb)) pos col w
      else (pos, col, w)

  -- The body of the first loop of S_Collision::update. The components are written back at its end.
  unfoldable pub collide_entity : Geometry π → GameMap π → ℤ → World π → Outcome (World π)
  unfolding map_collisions check_out_of_bounds reset_flags set_part
  collide_entity γ game_map e w = elim (position_of w e) [
    | none ↦ null_access
    | some pos ↦ elim (collidable_of w e) [
      | none ↦ null_access
      | some col ↦
          let inside = check_out_of_bounds game_map (pos, reset_flags col) in
          let (moved, placed, told) = map_collisions γ game_map e inside.0 inside.1 w in
          done (set_part e (collidable_part placed) (set_part e (position_part moved) told))
    ]
  ]

  unfoldable pub collide_entities : Geometry π → GameMap π → List ℤ → World π → Outcome (World π)
  unfolding collide_entity and_then
  collide_entities γ game_map [] w = done w
  collide_entities γ game_map (e ∷ es) w =
      and_then (collide_entity γ game_map e w) (collide_entities γ game_map es)
