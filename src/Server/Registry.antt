-- ===== src/Server/Registry.antt =====
-- server/Server.cpp: the operations that add, find and remove clients.
use sfrpg.Base.{
  ℕ, ◌+◌, ◌%◌, ◌^◌, Bool, true, false, if◌then◌else◌, none, some, ℤ, leb_ℤ, to_i32, lookup, emplace,
  erase, length,
}
use sfrpg.Platform.{Platform}
use sfrpg.Server.State.{
  NetworkProtocol, ClientInfo, Server, null_id, packet_disconnect, stamp_packet, new_client, assign,
}
use sfrpg.Server.Transport.{send, find_endpoint}

module _ {π : Platform} where
  open π use {IpAddress, Time, Packet, new_packet, milliseconds}

  unfoldable pub add_client : Server π → NetworkProtocol → IpAddress → ℕ → Server π × ℤ
  unfolding find_endpoint new_client emplace lookup
  add_client s l_protocol l_ip l_port =
      if s.running
      then elim (find_endpoint l_ip l_port s.client_map) [
        | none ↦
            let cid = to_i32 s.last_id in
            let info = new_client l_protocol l_ip l_port s.server_time (milliseconds (ℤ.pos 0)) in
            (
              record s {
                client_map = (emplace cid info s.client_map).0;
                last_id = (s.last_id + 1) % 2 ^ 32;
              },
              cid,
            )
        | some found ↦ (s, null_id)
      ]
      else (s, null_id)

  unfoldable pub get_client_id : Server π → IpAddress → ℕ → ℤ
  unfolding find_endpoint
  get_client_id s l_ip l_port =
      if s.running
      then elim (find_endpoint l_ip l_port s.client_map) [ none ↦ null_id | some (id, info) ↦ id ]
      else null_id

  -- The out parameter is returned beside the flag.
  unfoldable pub get_client_info : Server π → ℤ → ClientInfo π → Bool × ClientInfo π
  unfolding lookup assign
  get_client_info s l_client l_info =
      if s.running
      then elim (lookup l_client s.client_map) [
        | none ↦ (false, l_info)
        | some info ↦ (true, assign l_info info)
      ]
      else (false, l_info)

  -- hasClient(const ClientID&)
  unfoldable pub has_client : Server π → ℤ → Bool
  unfolding lookup
  has_client s l_client = elim (lookup l_client s.client_map) [ none ↦ false | some info ↦ true ]

  -- hasClient(const sf::IpAddress&, const PortNumber&)
  unfoldable pub has_client_at : Server π → IpAddress → ℕ → Bool
  unfolding get_client_id
  has_client_at s l_ip l_port = leb_ℤ (ℤ.pos 0) (get_client_id s l_ip l_port)

  -- Tell a client that it is disconnected, and forget it.
  unfoldable pub dismiss : Server π → ℤ → Server π
  unfolding send
  dismiss s id =
      let told = (send s id (stamp_packet π packet_disconnect new_packet)).0 in
      record told { client_map = erase id told.client_map }

  -- removeClient(const ClientID&)
  unfoldable pub remove_client : Server π → ℤ → Server π × Bool
  unfolding dismiss lookup
  remove_client s l_client =
      if s.running
      then elim (lookup l_client s.client_map) [
        | none ↦ (s, false)
        | some info ↦ (dismiss s l_client, true)
      ]
      else (s, false)

  -- removeClient(const sf::IpAddress&, const PortNumber&)
  unfoldable pub remove_client_at : Server π → IpAddress → ℕ → Server π × Bool
  unfolding dismiss find_endpoint
  remove_client_at s l_ip l_port =
      if s.running
      then elim (find_endpoint l_ip l_port s.client_map) [
        | none ↦ (s, false)
        | some (id, info) ↦ (dismiss s id, true)
      ]
      else (s, false)

  unfoldable pub get_client_count : Server π → ℕ
  get_client_count s = length s.client_map % 2 ^ 32
