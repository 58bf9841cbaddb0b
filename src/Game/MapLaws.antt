-- ===== src/Game/MapLaws.antt =====
-- Lemmas on server/Map.cpp and its tiles.
use sfrpg.Base.{
  ℕ, suc, ◌+◌, ◌*◌, ◌^◌, ◌≤◌, ◌<◌, ◌≡◌, refl, ap, sym, ◌∙◌, ◌⊎◌, [], ◌∷◌, ◌++◌, inl, inr, ◌&&◌,
  ◌==◌, true, if◌then◌else◌, none, some, arith, Bool-cases, ℤ, lookup, emplace_new,
  lookup-append_fresh,
}
use sfrpg.Platform.{Platform}
use sfrpg.Game.Map.{may_place, GameMap, Tile, num_layers, convert_coords, get_tile, place_tile}

-- A remainder below the divisor tells numbers apart with the quotient.
row_unique : (w a b x y : ℕ) → x < w → y < w → a * w + x ≡ b * w + y → (a ≡ b) × (x ≡ y)
row_unique w a b x y hx hy e = elim (trichotomy a b) [
  | inl below ↦ absurd (omega (arith, e, hx, hy, step a b below))
  | inr (inl same) ↦ (same, omega (arith, ap (λ k. k * w) same, e))
  | inr (inr above) ↦ absurd (omega (arith, e, hx, hy, step b a above))
]
  where
    trichotomy : (m n : ℕ) → (m < n) ⊎ ((m ≡ n) ⊎ (n < m))
    trichotomy m n = ground arith

    step : (m n : ℕ) → m < n → suc m * w ≤ n * w
    step m n h = grind arith

row_bound : (w n a x : ℕ) → a < n → x < w → a * w + x < n * w
row_bound w n a x ha hx = omega (arith, hx, step)
  where
    step : suc a * w ≤ n * w
    step = grind arith

module _ {π : Platform} where
  -- The numbers of the places fit in 32 bits.
  abbrev pub SmallMap : GameMap π → Type 0
  SmallMap m = num_layers * m.max_y * m.max_x ≤ 2 ^ 32

  abbrev pub InMap : GameMap π → (l_x l_y l_layer : ℕ) → Type 0
  InMap m l_x l_y l_layer = (l_x < m.max_x) × (l_y < m.max_y) × (l_layer < num_layers)

  -- Within the map no number wraps around.
  convert_coords-small :
      (m : GameMap π) (x y l : ℕ)
      → SmallMap m
      → InMap m x y l
      → convert_coords m x y l ≡ (l * m.max_y + y) * m.max_x + x
  unfolding convert_coords
  convert_coords-small m x y l small (hx, hy, hl) = omega (
    arith,
    small,
    row_bound m.max_x (num_layers * m.max_y) (l * m.max_y + y) x
        (row_bound m.max_y num_layers l y hl hy) hx,
  )

  -- Two places in a map whose numbers fit in 32 bits have different numbers in the tile map.
  pub convert_coords_injective :
      (m : GameMap π) (x y l i j k : ℕ)
      → SmallMap m
      → InMap m x y l
      → InMap m i j k
      → convert_coords m x y l ≡ convert_coords m i j k
      → (x ≡ i) × (y ≡ j) × (l ≡ k)
  convert_coords_injective m x y l i j k small here there e =
      let flat : (l * m.max_y + y) * m.max_x + x ≡ (k * m.max_y + j) * m.max_x + i = omega (
        arith,
        e,
        convert_coords-small m x y l small here,
        convert_coords-small m i j k small there,
      ) in
      let columns =
        row_unique m.max_x (l * m.max_y + y) (k * m.max_y + j) x i here.0 there.0 flat in
      let rows = row_unique m.max_y l k y j here.1 there.1 columns.0 in (columns.1, rows.1, rows.0)

  get_tile_in :
      (m : GameMap π) (x y l : ℕ)
      → InMap m x y l
      → get_tile m x y l ≡ lookup (ℤ.pos (convert_coords m x y l)) m.tile_map
  unfolding get_tile
  get_tile_in m x y l here = ground arith

  -- A tile that is put where none was.
  pub place_tile_new :
      (m : GameMap π) (x y l : ℕ) (tile : Tile π)
      → lookup (ℤ.pos (convert_coords m x y l)) m.tile_map ≡ none
      → place_tile x y l tile m
        ≡ (record m { tile_map = m.tile_map ++ (ℤ.pos (convert_coords m x y l), tile) ∷ [] }, true)
  unfolding place_tile
  place_tile_new m x y l tile free =
      rw (emplace_new (ℤ.pos (convert_coords m x y l)) tile m.tile_map free) refl

  get_tile_placed :
      (m : GameMap π) (x y l i j k : ℕ) (tile : Tile π)
      → InMap m i j k
      → lookup (ℤ.pos (convert_coords m x y l)) m.tile_map ≡ none
      → get_tile (place_tile x y l tile m).0 i j k
        ≡ (if convert_coords m x y l == convert_coords m i j k then some tile else get_tile m i j k)
  unfolding convert_coords
  get_tile_placed m x y l i j k tile there free =
      let code = ℤ.pos (convert_coords m x y l) in
      let new : GameMap π = record m { tile_map = m.tile_map ++ (code, tile) ∷ [] } in
      rw (place_tile_new m x y l tile free, get_tile_in new i j k there, get_tile_in m i j k there)
        (lookup-append_fresh code (ℤ.pos (convert_coords m i j k)) tile m.tile_map free)

  -- In a map whose places have different numbers, a tile that is put on a free place of the map is the
  -- one found there, and on every other place of the map what was there before is found.
  pub place_tile-get_tile :
      (m : GameMap π) (x y l i j k : ℕ) (tile : Tile π)
      → SmallMap m
      → InMap m x y l
      → InMap m i j k
      → get_tile m x y l ≡ none
      → get_tile (place_tile x y l tile m).0 i j k
        ≡ (if x == i && y == j && l == k then some tile else get_tile m i j k)
  place_tile-get_tile m x y l i j k tile small here there free =
      get_tile_placed m x y l i j k tile there (sym (get_tile_in m x y l here) ∙ free)
      ∙ elim (Bool-cases (x == i && y == j && l == k)) [
        | inl same ↦
            let p : (x ≡ i) × (y ≡ j) × (l ≡ k) = ground arith in
            let q : convert_coords m x y l ≡ convert_coords m i j k = cc in ground (arith, same, q)
        | inr other ↦ elim (Bool-cases (convert_coords m x y l == convert_coords m i j k)) [
          | inl hit ↦ absurd (
              ground (
                arith,
                other,
                convert_coords_injective m x y l i j k small here there (ground arith),
              ))
          | inr miss ↦ rw (other, miss) refl
        ]
      ]

  -- A tile that is put on the column just past the right edge of the map, where loadMap still allows
  -- it, is found by getTile on the first column of the next row.
  pub place_tile-past_edge :
      (m : GameMap π) (y l : ℕ) (tile : Tile π)
      → InMap m 0 (y + 1) l
      → get_tile m 0 (y + 1) l ≡ none
      → (may_place m m.max_x y l ≡ true)
        × (get_tile m m.max_x y l ≡ none)
        × (get_tile (place_tile m.max_x y l tile m).0 0 (y + 1) l ≡ some tile)
  unfolding convert_coords get_tile may_place
  place_tile-past_edge m y l tile next free =
      let wraps : convert_coords m m.max_x y l ≡ convert_coords m 0 (y + 1) l = omega arith in
      let empty : lookup (ℤ.pos (convert_coords m m.max_x y l)) m.tile_map ≡ none =
        ap (λ c. lookup (ℤ.pos c) m.tile_map) wraps ∙ sym (get_tile_in m 0 (y + 1) l next) ∙ free in
      (
        ground (arith, next),
        ground arith,
        get_tile_placed m m.max_x y l 0 (y + 1) l tile next empty ∙ ground (arith, wraps),
      )
