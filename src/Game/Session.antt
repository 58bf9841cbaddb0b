-- ===== src/Game/Session.antt =====
-- server/World.h and server/World.cpp: the program that ties the server, the entities and the map
-- together.
use sfrpg.Base.{ℕ, if◌then◌else◌, none, some, Text, codes, ℤ, eq_ℤ, leb_ℤ}
use sfrpg.Platform.{Platform, i32, f32}
use sfrpg.Server.State.{Server, udp, null_id, packet_disconnect, packet_connect, stamp_packet}
use sfrpg.Server.Transport.{send, send_to}
use sfrpg.Server.Registry.{add_client, get_client_id}
use sfrpg.Ecs.Components.{Junk, position_part, name_part}
use sfrpg.Ecs.State.{World, Outcome, done, null_access, out_of_fuel}
use sfrpg.Ecs.Entities.{remove_entity}
use sfrpg.Ecs.Parts.{set_part, position_of}
use sfrpg.Ecs.Network.{register_client_id, entity_of_client}
use sfrpg.Game.Stream.{FloatScan}
use sfrpg.Game.Movable.{set_position}
use sfrpg.Game.EntityFile.{Files, Loading, loaded, out_of_range, no_enumerator, add_entity_file}
use sfrpg.Game.Snapshot.{name_of}
use sfrpg.Game.Player.{update_player}

abbrev pub packet_player_update : ℤ
packet_player_update = ℤ.pos 5

-- What a call comes to: its result, undefined behaviour, the exception std::out_of_range, or more
-- nested messages than there is fuel for.
pub data Run {ℓ} (A : Type ℓ) : Type ℓ where
  runs : A → Run A
  undefined : Run A
  throws : Run A
  stops : Run A

unfoldable pub and_run {ℓ κ} : {A : Type ℓ} {B : Type κ} → Run A → (A → Run B) → Run B
and_run (runs a) f = f a
and_run undefined f = undefined
and_run throws f = throws
and_run stops f = stops

unfoldable pub of_outcome {ℓ} : {A : Type ℓ} → Outcome A → Run A
of_outcome (done a) = runs a
of_outcome null_access = undefined
of_outcome out_of_fuel = stops

unfoldable pub of_loading {ℓ} : {A : Type ℓ} → Loading A → Run A
of_loading (loaded a) = runs a
of_loading out_of_range = throws
of_loading no_enumerator = undefined

module _ {π : Platform} where
  open π use {IpAddress, Packet, Time, new_packet, write, read_str, of_int}

  -- The end of World::handlePacket, for the entity of a new client.
  unfoldable pub welcome : (eid cid : ℤ) → (name : Text) → World π → Run (World π)
  unfolding set_position set_part name_of
  welcome eid cid name w = elim (position_of w eid) [
    | none ↦ runs w
    | some old ↦
        let pos = set_position (record { x = of_int (ℤ.pos 64); y = of_int (ℤ.pos 64) }) old in
        let placed = set_part eid (position_part pos) w in
        elim (name_of placed eid) [
          | none ↦ undefined
          | some unnamed ↦
              let named = set_part eid (name_part name) placed in
              let packet =
                write
                  (write (write (stamp_packet π packet_connect new_packet) (i32 eid))
                    (f32 pos.position.x))
                  (f32 pos.position.y) in
              runs (record named { server = (send named.server cid packet).0 })
        ]
  ]

  -- World::clientLeave
  unfoldable pub client_leave : (l_client : ℤ) → World π → Run (World π)
  unfolding entity_of_client remove_entity of_outcome and_run
  client_leave l_client w =
      and_run (of_outcome (entity_of_client l_client w)) (λ e. runs (remove_entity e w).0)

  module _ (scan : FloatScan π.Float) (junk : Junk) (files : Files) where
    -- A client that the server knows now gets an entity.
    unfoldable pub admit : (cid : ℤ) → (name : Text) → World π → Run (World π)
    unfolding add_entity_file register_client_id welcome and_run of_outcome of_loading
    admit cid name w =
        and_run (of_loading (add_entity_file scan junk files (codes "Player") w)) (λ added.
          if eq_ℤ added.1 null_id
          then runs added.0
          else and_run (of_outcome (register_client_id added.1 cid added.0))
              (λ registered. welcome added.1 cid name registered.0))

    -- What becomes of a client to which Server::addClient gave an id, or no id.
    unfoldable pub answer_client :
        IpAddress → (l_port : ℕ) → (name : Text) → (added : Server π × ℤ) → World π → Run (World π)
    unfolding admit send_to
    answer_client l_ip l_port name (server, cid) w =
        if eq_ℤ cid null_id
        then elim (send_to server l_ip l_port (stamp_packet π packet_disconnect new_packet)) [
          | none ↦ undefined
          | some sent ↦ runs (record w { server = sent.0 })
        ]
        else admit cid name (record w { server = server })

    -- The packet Connect of a new client.
    unfoldable pub connect_player : IpAddress → (l_port : ℕ) → Packet → World π → Run (World π)
    unfolding answer_client add_client
    connect_player l_ip l_port l_packet w = elim (read_str l_packet) [
      | none ↦ runs w
      | some (name, rest) ↦ answer_client l_ip l_port name (add_client w.server udp l_ip l_port) w
    ]

    -- World::handlePacket. `stale` is what an sf::Int8 held that no read sets.
    unfoldable pub handle_world_packet :
        (stale : ℤ) → IpAddress → (l_port : ℕ) → (l_id : ℤ) → Packet → World π → Run (World π)
    unfolding get_client_id client_leave update_player connect_player of_outcome
    handle_world_packet stale l_ip l_port l_id l_packet w =
        let cid = get_client_id w.server l_ip l_port in
        if leb_ℤ (ℤ.pos 0) cid
        then if eq_ℤ l_id packet_disconnect
          then client_leave cid w
          else if eq_ℤ l_id packet_player_update
          then of_outcome (update_player stale l_packet cid w)
          else runs w
        else if eq_ℤ l_id packet_connect
        then connect_player l_ip l_port l_packet w
        else runs w
