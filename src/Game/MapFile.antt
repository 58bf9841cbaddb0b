-- ===== src/Game/MapFile.antt =====
-- Map::loadTiles and Map::loadMap of server/Map.cpp, and the constructor of the map.
use sfrpg.Base.{
  ℕ, false, if◌then◌else◌, none, some, List, [], ◌∷◌, Text, codes, eq_text, ℤ, ltb_ℤ, lookup,
  emplace,
}
use sfrpg.Platform.{Platform}
use sfrpg.Ecs.Components.{Junk, position_id}
use sfrpg.Ecs.State.{World}
use sfrpg.Ecs.Entities.{get_component, purge}
use sfrpg.Ecs.Parts.{set_part}
use sfrpg.Game.Stream.{Stream, stream_of, read_word, read_unsigned, read_bool, FloatScan}
use sfrpg.Game.EntityFile.{
  Files, Loading, loaded, out_of_range, no_enumerator, is_comment, read_vector, read_part,
  add_entity_file,
}
use sfrpg.Game.Map.{may_place, GameMap, new_tile_info, empty_map, place_tile, clear_tiles}

module _ {π : Platform} (scan : FloatScan π.Float) where
  -- The body of the loop in Map::loadTiles. The test `id < 0` is false of an unsigned number.
  unfoldable pub read_tile_info : Text → GameMap π → GameMap π
  unfolding read_unsigned read_word read_vector read_bool
  read_tile_info line m =
      let (id, s1) = read_unsigned 0 (stream_of line) in
      let blank = new_tile_info π id in
      let (name, s2) = read_word blank.tile_name s1 in
      let (friction, s3) = read_vector scan blank.friction s2 in
      let (deadly, s4) = read_bool blank.deadly s3 in
      let info = record blank { tile_name = name; friction = friction; deadly = deadly } in
      if is_comment line then m else record m { tile_set = (emplace (ℤ.pos id) info m.tile_set).0 }

  unfoldable pub read_tile_infos : List Text → GameMap π → GameMap π
  unfolding read_tile_info
  read_tile_infos [] m = m
  read_tile_infos (line ∷ lines) m = read_tile_infos lines (read_tile_info line m)

  -- Map::loadTiles
  unfoldable pub load_tiles : Files → (l_path : Text) → GameMap π → GameMap π
  unfolding read_tile_infos
  load_tiles files l_path m = elim (files l_path) [
    | none ↦ m
    | some lines ↦ read_tile_infos lines m
  ]

  -- Map::Map
  unfoldable pub new_map : Files → (junk : ℕ) → GameMap π
  unfolding load_tiles
  new_map files junk = load_tiles files (codes "tiles.cfg") (empty_map π junk)

module _ {π : Platform} where
  -- A line `TILE`. The test `tileId < 0` is false of an unsigned number.
  unfoldable pub read_tile : Stream → GameMap π → GameMap π
  unfolding read_unsigned read_bool read_word place_tile
  read_tile s m =
      let (tile_id, s1) = read_unsigned 0 s in
      let (x, s2) = read_unsigned 0 s1 in
      let (y, s3) = read_unsigned 0 s2 in
      let (layer, s4) = read_unsigned 0 s3 in
      let (solid, s5) = read_bool false s4 in
      let (warp, s6) = read_word [] s5 in
      elim (lookup (ℤ.pos tile_id) m.tile_set) [
        | none ↦ m
        | some info ↦
            if may_place m x y layer
            then (place_tile x y layer
                (record { properties = info; solid = solid; warp = eq_text warp (codes "WARP") })
                m).0
            else m
      ]

  -- A line `SIZE`
  unfoldable pub read_size : Stream → GameMap π → GameMap π
  unfolding read_unsigned
  read_size s m =
      let (x, s1) = read_unsigned m.max_x s in
      let (y, s2) = read_unsigned m.max_y s1 in record m { max_x = x; max_y = y }

  module _ (scan : FloatScan π.Float) (junk : Junk) (files : Files) where
    -- A line `DEFAULT_FRICTION`
    unfoldable pub read_friction : Stream → GameMap π → GameMap π
    unfolding read_vector
    read_friction s m = record m {
      default_tile = record m.default_tile {
        friction = (read_vector scan m.default_tile.friction s).0;
      };
    }

    -- A line `ENTITY`: the entity of that name from its file, at the position that follows.
    unfoldable pub read_entity : Stream → World π → Loading (World π)
    unfolding read_word add_entity_file get_component read_part set_part
    read_entity s w =
        let (name, rest) = read_word [] s in
        elim (add_entity_file scan junk files name w) [
          | out_of_range ↦ out_of_range
          | no_enumerator ↦ no_enumerator
          | loaded added ↦
              if ltb_ℤ added.1 (ℤ.pos 0)
              then loaded added.0
              else elim (get_component added.0 added.1 position_id) [
                | none ↦ loaded added.0
                | some position ↦ elim (read_part scan position rest) [
                  | none ↦ no_enumerator
                  | some new ↦ loaded (set_part added.1 new added.0)
                ]
              ]
        ]

    -- The body of the loop in Map::loadMap.
    unfoldable pub read_map_line : Text → GameMap π × World π → Loading (GameMap π × World π)
    unfolding read_word read_tile read_size read_friction read_entity
    read_map_line line (m, w) =
        let (type, s) = read_word [] (stream_of line) in
        if is_comment line
        then loaded (m, w)
        else if eq_text type (codes "TILE")
        then loaded (read_tile s m, w)
        else if eq_text type (codes "SIZE")
        then loaded (read_size s m, w)
        else if eq_text type (codes "DEFAULT_FRICTION")
        then loaded (read_friction s m, w)
        else if eq_text type (codes "ENTITY")
        then elim (read_entity s w) [
          | loaded v ↦ loaded (m, v)
          | out_of_range ↦ out_of_range
          | no_enumerator ↦ no_enumerator
        ]
        else loaded (m, w)

    unfoldable pub read_map_lines :
        List Text → Loading (GameMap π × World π) → Loading (GameMap π × World π)
    unfolding read_map_line
    read_map_lines [] state = state
    read_map_lines (line ∷ lines) (loaded state) = read_map_lines lines (read_map_line line state)
    read_map_lines (line ∷ lines) out_of_range = out_of_range
    read_map_lines (line ∷ lines) no_enumerator = no_enumerator

    -- Map::loadMap
    unfoldable pub load_map : (l_path : Text) → GameMap π × World π → Loading (GameMap π × World π)
    unfolding read_map_lines
    load_map l_path state = elim (files l_path) [
      | none ↦ loaded state
      | some lines ↦ read_map_lines lines (loaded state)
    ]

  -- Map::purgeTileMap
  unfoldable pub purge_tile_map : GameMap π × World π → GameMap π × World π
  unfolding clear_tiles purge
  purge_tile_map (m, w) = (clear_tiles m, purge w)
