-- ===== src/Game/JoinLaws.antt =====
-- World::handlePacket of server/World.cpp for a new player.
use sfrpg.Base.{
  ℕ, ◌≡◌, refl, ap, ◌∙◌, true, false, ◌==◌, if◌then◌else◌, some, ℤ, eq_ℤ, eq_ℤ_refl, Text,
  option_ind, lookup, codes, subst,
}
use sfrpg.Platform.{Platform, i32, f32}
use sfrpg.Server.State.{Server, udp, null_id, packet_connect, stamp_packet}
use sfrpg.Server.Transport.{send}
use sfrpg.Server.Registry.{add_client, get_client_id}
use sfrpg.Ecs.Components.{
  Junk, Part, get_type, Position, Vector, position_part, client_part, name_part, position_id,
  client_id, name_id,
}
use sfrpg.Ecs.State.{World, done, network_system}
use sfrpg.Ecs.Entities.{get_component}
use sfrpg.Ecs.Parts.{set_part, position_of, get_component-set_part, set_part-systems}
use sfrpg.Ecs.StateSystem.{in_system}
use sfrpg.Ecs.Network.{register_client_id, client_of}
use sfrpg.Game.Stream.{FloatScan}
use sfrpg.Game.Movable.{set_position}
use sfrpg.Game.EntityFile.{Files, loaded, add_entity_file}
use sfrpg.Game.Snapshot.{name_of}
use sfrpg.Game.Session.{runs, admit, welcome, answer_client, connect_player, handle_world_packet}

-- The packet that tells a client which entity it plays, and where.
unfoldable pub connect_packet : (π : Platform) → (eid : ℤ) → π.Packet
connect_packet π eid =
    let place = π.of_int (ℤ.pos 64) in
    let named = π.write (stamp_packet π packet_connect π.new_packet) (i32 eid) in
    π.write (π.write named (f32 place)) (f32 place)

module _ {π : Platform} where
  open π use {IpAddress, Packet, new_packet, write, read_str, of_int}

  -- Where a new player starts.
  abbrev pub start_place : Vector π
  start_place = record { x = of_int (ℤ.pos 64); y = of_int (ℤ.pos 64) }

  set_part-server : (e : ℤ) (p : Part π) (w : World π) → (set_part e p w).server ≡ w.server
  unfolding set_part
  set_part-server e p w =
      option_ind (λ (v : World π). v.server ≡ w.server) (lookup e w.entities) (λ missing. refl)
        (λ d known. refl)

  written :
      (w : World π) (e : ℤ) (p q : Part π) (t : ℕ)
      → get_component w e (get_type p) ≡ some q
      → get_component (set_part e p w) e t
        ≡ (if t == get_type p then some p else get_component w e t)
  written w e p q t there = get_component-set_part w e p q e t there ∙ rw (eq_ℤ_refl e) refl

  registered :
      (eid cid old : ℤ) (w : World π)
      → in_system network_system eid w ≡ true
      → get_component w eid client_id ≡ some (client_part old)
      → register_client_id eid cid w ≡ done (set_part eid (client_part cid) w, true)
  unfolding register_client_id client_of
  registered eid cid old w inside was = rw (inside, register_client_id, was) refl

  in_system-set_part :
      (l_id : ℕ) (j e : ℤ) (p : Part π) (w : World π)
      → in_system l_id j (set_part e p w) ≡ in_system l_id j w
  unfolding in_system
  in_system-set_part l_id j e p w = rw (set_part-systems e p w, in_system) refl

  -- The entity of a player who was let in.
  abbrev pub Joined : (eid cid : ℤ) → (name : Text) → Position π → Server π → World π → Type 0
  Joined eid cid name old server t =
      (get_component t eid client_id ≡ some (client_part cid))
      × (get_component t eid position_id ≡ some (position_part (set_position start_place old)))
      × (get_component t eid name_id ≡ some (name_part name))
      × (in_system network_system eid t ≡ true)
      × (t.server ≡ (send server cid (connect_packet π eid)).0)

  welcome-Joined :
      (eid cid : ℤ) (name unnamed : Text) (old : Position π) (w : World π)
      → in_system network_system eid w ≡ true
      → get_component w eid client_id ≡ some (client_part cid)
      → get_component w eid position_id ≡ some (position_part old)
      → get_component w eid name_id ≡ some (name_part unnamed)
      → (t : World π) × (welcome eid cid name w ≡ runs t) × Joined eid cid name old w.server t
  unfolding welcome position_of name_of get_type connect_packet get_component in_system
  welcome-Joined eid cid name unnamed old w inside is_client placed named =
      let pos = set_position start_place old in
      let w1 = set_part eid (position_part pos) w in
      let on1 = λ (t : ℕ). written w eid (position_part pos) (position_part old) t placed in
      let named1 : get_component w1 eid name_id ≡ some (name_part unnamed) = on1 name_id ∙ named in
      let on2 = λ (t : ℕ). written w1 eid (name_part name) (name_part unnamed) t named1 in
      let w3 = set_part eid (name_part name) w1 in
      let t : World π = record w3 { server = (send w3.server cid (connect_packet π eid)).0 } in
      let same_server =
        set_part-server eid (name_part name) w1 ∙ set_part-server eid (position_part pos) w in
      (
        t,
        rw (placed, welcome, named1) refl,
        (
          on2 client_id ∙ on1 client_id ∙ is_client,
          on2 position_id ∙ on1 position_id,
          on2 name_id,
          in_system-set_part network_system eid eid (name_part name) w1
              ∙ in_system-set_part network_system eid eid (position_part pos) w
              ∙ inside,
          ap (λ (s : Server π). (send s cid (connect_packet π eid)).0) same_server,
        ),
      )

  module _ (scan : FloatScan π.Float) (junk : Junk) (files : Files) where
    admits :
        (cid eid : ℤ) (name : Text) (w v u : World π)
        → add_entity_file scan junk files (codes "Player") w ≡ loaded (v, eid)
        → eq_ℤ eid null_id ≡ false
        → register_client_id eid cid v ≡ done (u, true)
        → admit scan junk files cid name w ≡ welcome eid cid name u
    unfolding admit
    admits cid eid name w v u loads is_new registers = rw (loads, is_new, registers, admit) refl

    connects :
        (ip : IpAddress) (port : ℕ) (p rest : Packet) (name : Text) (w : World π)
        (server : Server π) (cid : ℤ)
        → read_str p ≡ some (name, rest)
        → add_client w.server udp ip port ≡ (server, cid)
        → eq_ℤ cid null_id ≡ false
        → connect_player scan junk files ip port p w
          ≡ admit scan junk files cid name (record w { server = server })
    unfolding connect_player answer_client
    connects ip port p rest name w server cid reads adds is_new =
        let answered =
          λ (added : Server π × ℤ). answer_client scan junk files ip port name added w in
        let answers : connect_player scan junk files ip port p w
            ≡ answered (add_client w.server udp ip port) =
          rw (reads, connect_player) refl in
        let admitted : answered (server, cid)
            ≡ admit scan junk files cid name (record w { server = server }) =
          rw (is_new, answer_client) refl in
        answers ∙ ap answered adds ∙ admitted

    asks :
        (stale : ℤ) (ip : IpAddress) (port : ℕ) (p : Packet) (w : World π)
        → get_client_id w.server ip port ≡ null_id
        → handle_world_packet scan junk files stale ip port packet_connect p w
          ≡ connect_player scan junk files ip port p w
    unfolding handle_world_packet
    asks stale ip port p w unknown = rw (unknown, handle_world_packet) refl

    -- The packet Connect with a name, from an address at which the server knows no client, when the
    -- server takes the client and the file of the player gives an entity that the network system holds
    -- and that has a client, a position and a name: afterwards the entity is the client's, stands at
    -- the start and bears the name, and the client was sent the entity's number and place.
    pub handle_world_packet-joins :
        (stale : ℤ) (ip : IpAddress) (port : ℕ) (p rest : Packet) (name unnamed : Text)
        (w v : World π) (server : Server π) (cid eid nobody : ℤ) (old : Position π)
        → get_client_id w.server ip port ≡ null_id
        → read_str p ≡ some (name, rest)
        → add_client w.server udp ip port ≡ (server, cid)
        → eq_ℤ cid null_id ≡ false
        → add_entity_file scan junk files (codes "Player") (record w { server = server })
          ≡ loaded (v, eid)
        → eq_ℤ eid null_id ≡ false
        → in_system network_system eid v ≡ true
        → get_component v eid client_id ≡ some (client_part nobody)
        → get_component v eid position_id ≡ some (position_part old)
        → get_component v eid name_id ≡ some (name_part unnamed)
        → (t : World π) × (handle_world_packet scan junk files stale ip port packet_connect p w
            ≡ runs t)
          × Joined eid cid name old v.server t
    unfolding get_type
    handle_world_packet-joins stale ip port p rest name unnamed w v server cid eid nobody old
          unknown reads adds taken loads made inside no_client placed named =
        let u = set_part eid (client_part cid) v in
        let on = λ (t : ℕ). written v eid (client_part cid) (client_part nobody) t no_client in
        let (t, runs_to, joined) =
          welcome-Joined eid cid name unnamed old u
            (in_system-set_part network_system eid eid (client_part cid) v ∙ inside) (on client_id)
            (on position_id ∙ placed) (on name_id ∙ named) in
        (
          t,
          asks stale ip port p w unknown
              ∙ connects ip port p rest name w server cid reads adds taken
              ∙ admits cid eid name (record w { server = server }) v u loads made
                  (registered eid cid nobody v inside no_client)
              ∙ runs_to,
          subst (λ (s : Server π). Joined eid cid name old s t)
              (set_part-server eid (client_part cid) v) joined,
        )
