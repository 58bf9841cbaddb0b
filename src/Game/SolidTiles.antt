-- ===== src/Game/SolidTiles.antt =====
-- The solid tiles that a box meets, in the first half of S_Collision::mapCollisions of
-- server/S_Collision.cpp.
use sfrpg.Base.{
  ◌+◌, ◌*◌, ◌%◌, ◌^◌, not, ◌&&◌, if◌then◌else◌, Bool-cases, to_u32, length-append, ℕ, suc, ◌≡◌,
  refl, ◌∙◌, inl, inr, Bool, false, ◌||◌, none, some, List, [], ◌∷◌, ℤ, arith, Option-cases, length,
}
use sfrpg.Platform.{Platform}
use sfrpg.Ecs.Components.{Rect}
use sfrpg.Game.Map.{GameMap, num_layers, get_tile}
use sfrpg.Game.Collision.{
  Geometry, solid_tiles, solid_at, solid_rows, solid_columns, tile_box, range,
}

module _ {π : Platform} where
  module _ (γ : Geometry π) (m : GameMap π) (box : Rect π) where
    open π use {of_int, f_mul, f_eq}

    -- The square of a tile.
    abbrev pub square : (x y : ℤ) → Rect π
    square x y = record {
      rect_left = of_int (ℤ.pos ((to_u32 x * 32) % 2 ^ 32));
      rect_top = of_int (ℤ.pos ((to_u32 y * 32) % 2 ^ 32));
      rect_width = of_int (ℤ.pos 32);
      rect_height = of_int (ℤ.pos 32);
    }

    -- Whether there is a solid tile of a layer at a place, and the box meets its square in an area.
    unfoldable pub meets : (x y : ℤ) → (l : ℕ) → Bool
    meets x y l = elim (get_tile m (to_u32 x) (to_u32 y) l) [
      | none ↦ false
      | some t ↦
          let shared = γ.intersection box (square x y) in
          t.solid && not (f_eq (f_mul shared.rect_width shared.rect_height) (of_int (ℤ.pos 0)))
    ]

    -- The places of a column, and of some columns, at which the box meets a solid tile of any of the
    -- four layers.
    unfoldable pub met_in_column : (x : ℤ) → List ℤ → ℕ
    met_in_column x [] = 0
    met_in_column x (y ∷ ys) =
        (if meets x y 0 || meets x y 1 || meets x y 2 || meets x y 3 then 1 else 0)
        + met_in_column x ys

    unfoldable pub met : (xs ys : List ℤ) → ℕ
    met [] ys = 0
    met (x ∷ xs) ys = met_in_column x ys + met xs ys

    length-solid_at :
        (x y : ℤ) (layers l : ℕ)
        → length (solid_at γ m box x y (suc layers) l)
          ≡ (if meets x y l then 1 else length (solid_at γ m box x y layers (suc l)))
    unfolding solid_at meets tile_box
    length-solid_at x y layers l = elim (Option-cases (get_tile m (to_u32 x) (to_u32 y) l)) [
      | inl missing ↦ rw (missing, solid_at, meets) refl
      | inr (t, there) ↦
          let s = γ.intersection box (square x y) in
          let area = f_mul s.rect_width s.rect_height in
          elim (Bool-cases t.solid) [
            | inl hard ↦ elim (Bool-cases (f_eq area (of_int (ℤ.pos 0)))) [
              | inl nothing_shared ↦ rw (there, solid_at, meets, hard, nothing_shared) refl
              | inr shared ↦ rw (there, solid_at, meets, hard, shared) refl
            ]
            | inr soft ↦ rw (there, solid_at, meets, soft) refl
          ]
    ]

    length-all_layers :
        (x y : ℤ)
        → length (solid_at γ m box x y num_layers 0)
          ≡ (if meets x y 0 || meets x y 1 || meets x y 2 || meets x y 3 then 1 else 0)
    unfolding solid_at
    length-all_layers x y = ground (
      arith,
      length-solid_at x y 3 0,
      length-solid_at x y 2 1,
      length-solid_at x y 1 2,
      length-solid_at x y 0 3,
    )

    length-solid_rows :
        (x : ℤ) (ys : List ℤ) → length (solid_rows γ m box x ys) ≡ met_in_column x ys
    unfolding solid_rows met_in_column
    length-solid_rows x [] = refl
    length-solid_rows x (y ∷ ys) =
        length-append (solid_at γ m box x y num_layers 0) (solid_rows γ m box x ys)
        ∙ omega (arith, length-all_layers x y, length-solid_rows x ys)

    length-solid_columns : (xs ys : List ℤ) → length (solid_columns γ m box xs ys) ≡ met xs ys
    unfolding solid_columns met
    length-solid_columns [] ys = refl
    length-solid_columns (x ∷ xs) ys =
        length-append (solid_rows γ m box x ys) (solid_columns γ m box xs ys)
        ∙ omega (arith, length-solid_rows x ys, length-solid_columns xs ys)

    -- The places that the box touches, by its edges over the side of a tile.
    abbrev pub columns : List ℤ
    columns =
        range (π.f_floor (π.f_div box.rect_left (of_int (ℤ.pos 32))))
          (π.f_floor (π.f_div (π.f_add box.rect_left box.rect_width) (of_int (ℤ.pos 32))))

    abbrev pub rows : List ℤ
    rows =
        range (π.f_floor (π.f_div box.rect_top (of_int (ℤ.pos 32))))
          (π.f_floor (π.f_div (π.f_add box.rect_top box.rect_height) (of_int (ℤ.pos 32))))

    pub length-solid_tiles : length (solid_tiles γ m box) ≡ met columns rows
    unfolding solid_tiles
    length-solid_tiles = length-solid_columns columns rows
