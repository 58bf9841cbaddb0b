-- ===== src/Game/TileLines.antt =====
-- A line `TILE` of the map's file, as Map::loadMap of server/Map.cpp reads it.
use sfrpg.Base.{
  ℕ, ◌^◌, ◌≤◌, ◌<◌, ◌≡◌, refl, ap, ◌∙◌, Bool, true, false, ◌&&◌, ◌==◌, if◌then◌else◌, none, some,
  [], ◌++◌, Text, codes, ℤ, lookup, arith,
}
use sfrpg.Platform.{Platform}
use sfrpg.Ecs.Components.{Junk}
use sfrpg.Ecs.State.{World}
use sfrpg.Game.Stream.{
  Stream, FloatScan, stream_of, read_word, read_unsigned, read_bool, extract, skip_spaces,
  split_word,
}
use sfrpg.Game.Digits.{field, bit, read_unsigned-field, read_bool-field, field-Apart}
use sfrpg.Game.EntityFile.{Files, loaded, is_comment}
use sfrpg.Game.Map.{GameMap, Tile, TileInfo, get_tile, place_tile, may_place}
use sfrpg.Game.MapLaws.{SmallMap, InMap, place_tile-get_tile}
use sfrpg.Game.MapFile.{read_tile, read_map_line}

-- The numbers of the line, each after a space.
abbrev tile_numbers : (id x y layer : ℕ) → (solid : Bool) → Text
tile_numbers id x y layer solid = field id (field x (field y (field layer (field (bit solid) []))))

-- The line for a tile that is no warp.
abbrev pub tile_line : (id x y layer : ℕ) → (solid : Bool) → Text
tile_line id x y layer solid = codes "TILE" ++ tile_numbers id x y layer solid

read_word-tile_line :
    (id x y layer : ℕ) (solid : Bool)
    → read_word [] (stream_of (tile_line id x y layer solid))
      ≡ (codes "TILE", record { rest = tile_numbers id x y layer solid; good = true })
unfolding read_word extract skip_spaces split_word field
read_word-tile_line id x y layer solid = refl

read_word-end :
    read_word [] (record { rest = []; good = true }) ≡ ([], record { rest = []; good = false })
unfolding read_word extract skip_spaces
read_word-end = refl

module _ {π : Platform} where
  -- The line's stream after each of its values.
  read_tile_parts :
      (s s1 s2 s3 s4 s5 s6 : Stream) (m : GameMap π) (info : TileInfo π) (id x y layer : ℕ)
      (solid : Bool)
      → read_unsigned 0 s ≡ (id, s1)
      → read_unsigned 0 s1 ≡ (x, s2)
      → read_unsigned 0 s2 ≡ (y, s3)
      → read_unsigned 0 s3 ≡ (layer, s4)
      → read_bool false s4 ≡ (solid, s5)
      → read_word [] s5 ≡ ([], s6)
      → lookup (ℤ.pos id) m.tile_set ≡ some info
      → may_place m x y layer ≡ true
      → read_tile s m
        ≡ (place_tile x y layer (record { properties = info; solid = solid; warp = false }) m).0
  unfolding read_tile
  read_tile_parts s s1 s2 s3 s4 s5 s6 m info id x y layer solid e1 e2 e3 e4 e5 e6 known may =
      rw (e1, read_tile, known, e1, e2, e3, e4, e5, e6, may) refl

  -- A line whose first word is TILE.
  read_map_line_tile :
      (scan : FloatScan π.Float) (junk : Junk) (files : Files) (line : Text) (s : Stream)
      (m : GameMap π) (w : World π)
      → is_comment line ≡ false
      → read_word [] (stream_of line) ≡ (codes "TILE", s)
      → read_map_line scan junk files line (m, w) ≡ loaded (read_tile s m, w)
  unfolding read_map_line
  read_map_line_tile scan junk files line s m w plain e = rw (e, read_map_line, plain) refl

  read_tile-tile_numbers :
      (m : GameMap π) (info : TileInfo π) (id x y layer : ℕ) (solid : Bool)
      → id < 2 ^ 32
      → x < 2 ^ 32
      → y < 2 ^ 32
      → layer < 2 ^ 32
      → lookup (ℤ.pos id) m.tile_set ≡ some info
      → may_place m x y layer ≡ true
      → read_tile (record { rest = tile_numbers id x y layer solid; good = true }) m
        ≡ (place_tile x y layer (record { properties = info; solid = solid; warp = false }) m).0
  read_tile-tile_numbers m info id x y layer solid id_small x_small y_small l_small known may =
      let after_l = field (bit solid) [] in
      let after_y = field layer after_l in
      let after_x = field y after_y in
      let after_id = field x after_x in
      let start : Stream = record { rest = tile_numbers id x y layer solid; good = true } in
      read_tile_parts start (record { rest = after_id; good = true })
        (record { rest = after_x; good = true }) (record { rest = after_y; good = true })
        (record { rest = after_l; good = true }) (record { rest = []; good = true })
        (record { rest = []; good = false }) m info id x y layer solid
        (read_unsigned-field 0 id after_id id_small (field-Apart x after_x))
        (read_unsigned-field 0 x after_x x_small (field-Apart y after_y))
        (read_unsigned-field 0 y after_y y_small (field-Apart layer after_l))
        (read_unsigned-field 0 layer after_l l_small (field-Apart (bit solid) []))
        (read_bool-field false solid [] tt) read_word-end known may

  -- A line that names a tile of the tile set and a free place of the map, whose places fit in 32 bits,
  -- is read as that tile: getTile then finds it there, solid as the line says and no warp, and finds at
  -- every other place of the map what it found before; the entities stay as they are.
  pub read_map_line-get_tile :
      (scan : FloatScan π.Float) (junk : Junk) (files : Files) (m : GameMap π) (w : World π)
      (info : TileInfo π) (id x y layer i j k : ℕ) (solid : Bool)
      → SmallMap m
      → InMap m x y layer
      → InMap m i j k
      → id < 2 ^ 32
      → lookup (ℤ.pos id) m.tile_set ≡ some info
      → get_tile m x y layer ≡ none
      → (after : GameMap π) × (read_map_line scan junk files (tile_line id x y layer solid) (m, w)
          ≡ loaded (after, w))
        × (get_tile after i j k ≡ (
            if x == i && y == j && layer == k
            then some (record { properties = info; solid = solid; warp = false })
            else get_tile m i j k))
  unfolding may_place
  read_map_line-get_tile scan junk files m w info id x y layer i j k solid small here there id_small
        known free =
      let tile : Tile π = record { properties = info; solid = solid; warp = false } in
      let wide : m.max_x ≤ 2 ^ 32 = grind (arith, small, here) in
      let high : m.max_y ≤ 2 ^ 32 = grind (arith, small, here) in
      let reads =
        read_tile-tile_numbers m info id x y layer solid id_small (omega (arith, here.0, wide))
          (omega (arith, here.1, high)) (omega (arith, here.2)) known (ground (arith, here)) in
      (
        (place_tile x y layer tile m).0,
        read_map_line_tile scan junk files (tile_line id x y layer solid)
              (record { rest = tile_numbers id x y layer solid; good = true }) m w refl
              (read_word-tile_line id x y layer solid)
            ∙ ap (λ a. loaded (a, w)) reads,
        place_tile-get_tile m x y layer i j k tile small here there free,
      )
