-- ===== src/Game/Tests.antt =====
-- A small map and world, for the theorems about tiles, events and collisions.
use sfrpg.Base.{
  ℕ, ◌≡◌, refl, true, false, ◌&&◌, ◌==◌, if◌then◌else◌, some, List, [], ◌∷◌, ◌++◌, ℤ, length, arith,
  lookup,
}
use sfrpg.Sample.{sample}
use sfrpg.Ecs.Components.{
  Position, Collidable, Movable, idle, left, mid_bottom, position_part, state_part, movable_part,
  collidable_part, controller_part, origin_vector,
}
use sfrpg.Ecs.State.{
  EntityData, SystemBase, World, done, movement_system, collision_system, control_system,
  state_system,
}
use sfrpg.Ecs.StateSystem.{in_system}
use sfrpg.Ecs.Systems.{holds}
use sfrpg.Ecs.Bitmask.{get_bit}
use sfrpg.Game.Map.{highest_tile, GameMap, Tile, TileInfo, get_tile, new_tile_info, convert_coords}
use sfrpg.Game.TileLines.{tile_line, read_map_line-get_tile}
use sfrpg.Game.MapFile.{read_map_line}
use sfrpg.Game.EntityFile.{loaded}
use sfrpg.Game.Movement.{event_colliding_x, event_colliding_y}
use sfrpg.Game.Friction.{last_some, layers_up, highest_tile-topmost}
use sfrpg.Game.Events.{handle_events}
use sfrpg.Game.EventLaws.{emptied}
use sfrpg.Game.Bounds.{IntOrder, check_out_of_bounds, reset_flags}
use sfrpg.Game.BoundsLaws.{Inside, check_out_of_bounds-Inside}
use sfrpg.Game.Collision.{Geometry, map_collisions}
use sfrpg.Game.SolidTiles.{met, columns, rows}
use sfrpg.Game.CollisionLaws.{queue_of, contains, map_collisions-flags}
use sfrpg.Base.{codes, Text, inl, inr, none, Bool}
use sfrpg.Sample.{sample-PacketLaws}
use sfrpg.Platform.{Datum, i8}
use sfrpg.Ecs.Components.{Junk}
use sfrpg.Server.Registry.{get_client_id}
use sfrpg.Server.Transport.{find_endpoint}
use sfrpg.Game.Session.{handle_world_packet, runs}
use sfrpg.Game.SessionLaws.{handle_world_packet-unknown}
use sfrpg.Game.Snapshot.{EntitySnapshot, write_snapshot, read_snapshot}
use sfrpg.Game.SnapshotLaws.{read_snapshot-write_snapshot}
use sfrpg.Base.{update, emplace, to_i32}
use sfrpg.Ecs.Bitmask.{turn_on_bit}
use sfrpg.Ecs.Components.{new_part}
use sfrpg.Ecs.Systems.{entity_modified, add_event}
use sfrpg.Ecs.Entities.{add_entity, furnish, add_components, add_component, attach}
use sfrpg.Ecs.ServerSystems.{server_systems}
use sfrpg.Game.LeaveLaws.{bare, handle_world_packet-leaves}
use sfrpg.Base.{eq_ℤ}
use sfrpg.Server.State.{packet_disconnect}
use sfrpg.Ecs.Parts.{set_part, put_part}
use sfrpg.Ecs.Network.{entity_of_client, find_client, client_of}
use sfrpg.Ecs.Membership.{WorldOk}
use sfrpg.Ecs.PartChange.{set_part-WorldOk}
use sfrpg.Ecs.History.{History-WorldOk, fresh-WorldOk}
use sfrpg.Game.JoinLaws.{Joined, handle_world_packet-joins}
use sfrpg.Game.EntityFile.{Files, add_entity_file}
use sfrpg.Platform.{str}
use sfrpg.Ecs.Systems.{reconsider, matches_any, add_member}
use sfrpg.Ecs.Bitmask.{matches}
use sfrpg.Ecs.Components.{get_type}
use sfrpg.Ecs.Components.{client_part, name_part}
use sfrpg.Server.State.{udp, packet_connect, new_client}
use sfrpg.Server.Registry.{add_client}
use sfrpg.Ecs.Entities.{get_component}
use sfrpg.Ecs.History.{begin, then_call, adds_entity}
use sfrpg.Game.Readiness.{handle_events-History}

abbrev blank_junk : Junk
blank_junk = record {
  junk_state = idle;
  junk_health = ℤ.pos 0;
  junk_max_health = ℤ.pos 0;
  junk_attacked = false;
}

abbrev rock : TileInfo sample
rock = record (new_tile_info sample 5) { friction = record { x = ℤ.pos 2; y = ℤ.pos 3 } }

abbrev wall : Tile sample
wall = record { properties = rock; solid = true; warp = false }

-- The wall stands at 3, 1 on the lowest layer.
abbrev field : GameMap sample
field = record {
  tile_map = (ℤ.pos 7, wall) ∷ [];
  tile_set = (ℤ.pos 5, rock) ∷ [];
  default_tile = new_tile_info sample 0;
  tile_set_count = 0;
  tile_count = 0;
  max_x = 4;
  max_y = 3;
  player_start = origin_vector sample;
}

highest_tile-topmost_example : highest_tile field 3 1 2 ≡ last_some (layers_up field 3 1 3 0)
highest_tile-topmost_example = highest_tile-topmost field 3 1 2

abbrev walker : Movable sample
walker = record {
  velocity = record { x = ℤ.pos 4; y = ℤ.pos 0 };
  velocity_max = ℤ.pos 9;
  speed = origin_vector sample;
  acceleration = origin_vector sample;
  direction = left;
}

abbrev body : Collidable sample
body = record {
  aabb = record {
    rect_left = ℤ.pos 3;
    rect_top = ℤ.pos 1;
    rect_width = ℤ.pos 0;
    rect_height = ℤ.pos 0;
  };
  box_offset = origin_vector sample;
  origin = mid_bottom;
  colliding_on_x = false;
  colliding_on_y = true;
}

abbrev place : Position sample
place = record {
  position_old = origin_vector sample;
  position = record { x = ℤ.pos 200; y = ℤ.negsuc 3 };
  elevation = 1;
}

-- The bits of Position, State, Movable, Controller and Collidable.
abbrev player : EntityData sample
player = record {
  bitmask = 61;
  entity_type = [];
  components =
      position_part place
      ∷ state_part idle
      ∷ movable_part walker
      ∷ controller_part
      ∷ collidable_part body
      ∷ [];
}

abbrev holding : ℕ → SystemBase
holding l_id = record { system_id = l_id; members = ℤ.pos 0 ∷ []; required = [] }

abbrev yard : World sample
yard = record {
  entities = (ℤ.pos 0, player) ∷ [];
  id_counter = 1;
  systems =
      holding movement_system
      ∷ holding control_system
      ∷ holding state_system
      ∷ holding collision_system
      ∷ [];
  events = (ℤ.pos 0, event_colliding_x ∷ 4 ∷ 9 ∷ []) ∷ (ℤ.pos 8, 0 ∷ []) ∷ [];
  input = [];
  server = record {
    running = true;
    client_map = [];
    tcp_clients = [];
    last_id = 0;
    server_time = ℤ.pos 0;
    total_sent = 0;
    total_received = 0;
    timeout_handler = false;
    timeouts = [];
    attempts = [];
  };
}

-- The yard before anyone is there, with two events for the entity to come.
abbrev gate : World sample
gate = record yard {
  entities = [];
  id_counter = 0;
  systems = server_systems;
  events = (ℤ.pos 0, 4 ∷ 9 ∷ []) ∷ [];
}

abbrev entered : World sample
entered = (add_entity blank_junk 61 (ℤ.negsuc 0) gate).0

handle_events-History_example :
    (u : World sample) × (handle_events 2 4 entered ≡ done u)
    × (u.events ≡ emptied entered.events)
    × (u.systems ≡ entered.systems)
unfolding add_entity furnish add_components add_component attach entity_modified add_event lookup
    update emplace get_bit turn_on_bit new_part to_i32
handle_events-History_example =
    handle_events-History {w = gate} {v = entered} 0 3
      (then_call begin (adds_entity blank_junk 61 (ℤ.negsuc 0) (omega arith))) (refl, refl) (tt, tt)
      (omega arith, tt)

sample-IntOrder : IntOrder sample
sample-IntOrder a b h = ground arith

check_out_of_bounds-Inside_example :
    Inside sample 4 (check_out_of_bounds field (place, body)).0.position.x
    × Inside sample 3 (check_out_of_bounds field (place, body)).0.position.y
check_out_of_bounds-Inside_example = check_out_of_bounds-Inside field (place, body) sample-IntOrder

-- Two rectangles meet in the first one, one unit wide.
abbrev touching : Geometry sample
touching = record {
  intersects = λ a b. true;
  intersection = λ a b. record a { rect_width = ℤ.pos 1 };
}

map_collisions-flags_example :
    let after = map_collisions touching field (ℤ.pos 0) place (reset_flags body) yard in
    (added : List ℕ) × (queue_of (ℤ.pos 0) after.2 ≡ queue_of (ℤ.pos 0) yard ++ added)
    × (length added
        ≡ met touching field body.aabb
            (columns touching field body.aabb)
            (rows touching field body.aabb))
    × (after.1.colliding_on_x ≡ contains event_colliding_x added)
    × (after.1.colliding_on_y ≡ contains event_colliding_y added)
unfolding in_system holds
map_collisions-flags_example = map_collisions-flags touching field (ℤ.pos 0) place body yard refl

abbrev stranger : Text → (ℤ × Bool) × Text
stranger t = ((ℤ.pos 0, false), t)

-- A packet Connect from nobody, while the server of the yard runs, with no name in it.
handle_world_packet-unknown_example :
    handle_world_packet stranger blank_junk (λ path. none) (ℤ.pos 0) 7 5600 (ℤ.pos 0) [] yard
    ≡ runs yard
unfolding get_client_id find_endpoint
handle_world_packet-unknown_example =
    handle_world_packet-unknown stranger blank_junk (λ path. none) (ℤ.pos 0) 7 5600 (ℤ.pos 0) []
      yard refl (inr (inl refl))

abbrev picture : EntitySnapshot sample
picture = record {
  snapshot_type = codes "Player";
  snapshot_name = codes "Ann";
  snapshot_position = record { x = ℤ.pos 64; y = ℤ.pos 65 };
  snapshot_elevation = ℤ.negsuc 1;
  snapshot_velocity = record { x = ℤ.pos 1; y = ℤ.pos 2 };
  snapshot_acceleration = record { x = ℤ.pos 3; y = ℤ.pos 4 };
  snapshot_direction = 3;
  snapshot_state = 1;
  snapshot_health = 9;
}

read_snapshot-write_snapshot_example :
    (r : List (Datum ℤ)) × (read_snapshot sample
        (write_snapshot sample picture [] ++ i8 (ℤ.pos 5) ∷ [])
      ≡ some (picture, r))
    × (r ≡ i8 (ℤ.pos 5) ∷ [])
read_snapshot-write_snapshot_example =
    read_snapshot-write_snapshot sample-PacketLaws picture []
      (write_snapshot sample picture [] ++ i8 (ℤ.pos 5) ∷ []) (i8 (ℤ.pos 5) ∷ []) refl refl

read_map_line-get_tile_example :
    (after : GameMap sample) × (read_map_line stranger blank_junk
        (λ path. none)
        (tile_line 5 2 1 1 true)
        (field, yard)
      ≡ loaded (after, yard))
    × (get_tile after 2 1 1 ≡ (
        if 2 == 2 && 1 == 1 && 1 == 1
        then some (record { properties = rock; solid = true; warp = false })
        else get_tile field 2 1 1))
unfolding get_tile convert_coords lookup
read_map_line-get_tile_example =
    read_map_line-get_tile stranger blank_junk (λ path. none) field yard rock 5 2 1 1 2 1 1 true
      (omega arith) (omega arith, omega arith, omega arith) (omega arith, omega arith, omega arith)
      (omega arith) refl refl

-- The file of a player with a position, a client and a name.
abbrev player_file : Files
player_file path = some (codes "Attributes 1281" ∷ [])

abbrev greeting : List (Datum ℤ)
greeting = str (codes "Ann") ∷ []

abbrev hosted : World sample
hosted = record gate { server = (add_client gate.server udp 7 5600).0 }

abbrev nowhere : Position sample
nowhere = record {
  position_old = origin_vector sample;
  position = origin_vector sample;
  elevation = 0;
}

abbrev unnamed_player : EntityData sample
unnamed_player = record {
  bitmask = 1281;
  entity_type = codes "Player";
  components = position_part nowhere ∷ client_part (ℤ.negsuc 0) ∷ name_part [] ∷ [];
}

abbrev arrived : World sample
arrived = record (add_entity blank_junk 1281 (ℤ.negsuc 0) hosted).0 {
  entities = (ℤ.pos 0, unnamed_player) ∷ [];
}

handle_world_packet-joins_example :
    (t : World sample) × (handle_world_packet stranger blank_junk player_file
        (ℤ.pos 0)
        7
        5600
        packet_connect
        greeting
        gate
      ≡ runs t)
    × Joined (ℤ.pos 0) (ℤ.pos 0) (codes "Ann") nowhere arrived.server t
unfolding get_client_id find_endpoint add_client new_client add_entity_file add_entity furnish
    add_components add_component attach entity_modified add_event lookup update emplace get_bit
    turn_on_bit new_part to_i32 in_system get_component holds reconsider matches_any matches
    add_member get_type
handle_world_packet-joins_example =
    handle_world_packet-joins stranger blank_junk player_file (ℤ.pos 0) 7 5600 greeting []
      (codes "Ann") [] gate arrived hosted.server (ℤ.pos 0) (ℤ.pos 0) (ℤ.negsuc 0) nowhere refl refl
      refl refl refl refl refl refl refl refl

-- The new player's entity is the client's.
abbrev admitted : World sample
admitted = (add_entity blank_junk 1281 (ℤ.negsuc 0) hosted).0

abbrev playing : World sample
playing = set_part (ℤ.pos 0) (client_part (ℤ.pos 0)) admitted

abbrev playing_entity : EntityData sample
playing_entity = record {
  bitmask = 1281;
  entity_type = [];
  components = position_part nowhere ∷ client_part (ℤ.pos 0) ∷ name_part [] ∷ [];
}

playing-WorldOk : WorldOk playing
playing-WorldOk = set_part-WorldOk (ℤ.pos 0) (client_part (ℤ.pos 0)) admitted (
    History-WorldOk {w = hosted} {v = admitted}
      (then_call begin (adds_entity blank_junk 1281 (ℤ.negsuc 0) (omega arith)))
      (fresh-WorldOk hosted (refl, refl)))

handle_world_packet-leaves_example :
    (t : World sample) × (handle_world_packet stranger blank_junk player_file
        (ℤ.pos 0)
        7
        5600
        packet_disconnect
        []
        playing
      ≡ runs t)
    × ((l_id : ℕ) → in_system l_id (ℤ.pos 0) t ≡ false)
    × ((j : ℤ)
        → lookup j t.entities
          ≡ (if eq_ℤ (ℤ.pos 0) j then some (bare playing_entity) else lookup j playing.entities))
    × (get_client_id t.server 7 5600 ≡ ℤ.pos 0)
unfolding get_client_id find_endpoint add_client new_client add_entity furnish add_components
    add_component attach entity_modified add_event lookup update emplace get_bit turn_on_bit
    new_part to_i32 get_component holds reconsider matches_any matches add_member get_type set_part
    put_part entity_of_client find_client client_of
handle_world_packet-leaves_example =
    handle_world_packet-leaves stranger blank_junk player_file (ℤ.pos 0) 7 5600 [] playing (ℤ.pos 0)
      (ℤ.pos 0) playing_entity playing-WorldOk refl refl refl refl
