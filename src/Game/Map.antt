-- ===== src/Game/Map.antt =====
-- server/Map.h and server/Map.cpp, but for the reading of files: the tiles and where they are.
use sfrpg.Base.{
  not, ℕ, ◌+◌, ◌*◌, ◌%◌, ◌^◌, Bool, false, ◌||◌, leb, ltb, if◌then◌else◌, Option, none, some, List,
  [], Text, ℤ, lookup, emplace, zero, suc,
}
use sfrpg.Platform.{Platform}
use sfrpg.Ecs.Components.{Vector, origin_vector}

-- enum class Sheet
abbrev pub tile_size : ℕ
tile_size = 32

abbrev pub num_layers : ℕ
num_layers = 4

pub record TileInfo (π : Platform) : Type 0 where
  pub tile_id : ℕ
  pub friction : Vector π
  pub tile_name : Text
  pub deadly : Bool

-- The properties, which nothing changes once they are in the tile set, stand for the pointer to them.
pub record Tile (π : Platform) : Type 0 where
  pub properties : TileInfo π
  pub solid : Bool
  pub warp : Bool

pub record GameMap (π : Platform) : Type 0 where
  pub tile_map : List (ℤ × Tile π)
  pub tile_set : List (ℤ × TileInfo π)
  pub default_tile : TileInfo π
  pub tile_set_count : ℕ
  pub tile_count : ℕ
  -- m_maxMapSize
  pub max_x : ℕ
  pub max_y : ℕ
  pub player_start : Vector π

module _ (π : Platform) where
  -- TileInfo::TileInfo
  abbrev pub new_tile_info : ℕ → TileInfo π
  new_tile_info l_id = record {
    tile_id = l_id;
    friction = origin_vector π;
    tile_name = [];
    deadly = false;
  }

  -- The initialisers of Map::Map. The two counts have none: `junk` is what they hold.
  abbrev pub empty_map : (junk : ℕ) → GameMap π
  empty_map junk = record {
    tile_map = [];
    tile_set = [];
    default_tile = new_tile_info 0;
    tile_set_count = junk;
    tile_count = junk;
    max_x = 32;
    max_y = 32;
    player_start = origin_vector π;
  }

module _ {π : Platform} where
  -- Map::convertCoords, on unsigned numbers of 32 bits.
  unfoldable pub convert_coords : GameMap π → (l_x l_y l_layer : ℕ) → ℕ
  convert_coords m l_x l_y l_layer = ((l_layer * m.max_y + l_y) * m.max_x + l_x) % 2 ^ 32

  -- Map::getTile. The tests `l_x < 0` and `l_y < 0` are false of unsigned numbers.
  unfoldable pub get_tile : GameMap π → (l_x l_y l_layer : ℕ) → Option (Tile π)
  unfolding convert_coords
  get_tile m l_x l_y l_layer =
      if leb m.max_x l_x || leb m.max_y l_y || leb num_layers l_layer
      then none
      else lookup (ℤ.pos (convert_coords m l_x l_y l_layer)) m.tile_map

  -- The insertion in Map::loadMap, of which the flag says whether the place was free.
  unfoldable pub place_tile : (l_x l_y l_layer : ℕ) → Tile π → GameMap π → GameMap π × Bool
  unfolding convert_coords
  place_tile l_x l_y l_layer tile m =
      let (tiles, is_new) = emplace (ℤ.pos (convert_coords m l_x l_y l_layer)) tile m.tile_map in
      (record m { tile_map = tiles }, is_new)

  -- The layers below one that has no tile, in the loop of S_Movement::getTileFriction.
  unfoldable pub highest_tile : GameMap π → (l_x l_y elevation : ℕ) → Option (Tile π)
  unfolding get_tile
  highest_tile m l_x l_y zero = get_tile m l_x l_y 0
  highest_tile m l_x l_y (suc below) =
      let lower = highest_tile m l_x l_y below in
      elim (get_tile m l_x l_y (suc below)) [ none ↦ lower | some tile ↦ some tile ]

  -- Map::purgeTileSet
  unfoldable pub purge_tile_set : GameMap π → GameMap π
  purge_tile_set m = record m { tile_set = []; tile_set_count = 0 }

  -- The part of Map::purgeTileMap before the entities are purged.
  unfoldable pub clear_tiles : GameMap π → GameMap π
  clear_tiles m = record m { tile_map = []; tile_count = 0 }

  -- The test of Map::loadMap on the place of a tile.
  unfoldable pub may_place : GameMap π → (l_x l_y l_layer : ℕ) → Bool
  may_place m l_x l_y l_layer = not (ltb m.max_x l_x || ltb m.max_y l_y || leb num_layers l_layer)
