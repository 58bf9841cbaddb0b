-- ===== src/Server/Transport.antt =====
-- server/Server.cpp: send, broadcast and disconnectAll. The lock is held throughout each of them.
use sfrpg.Base.{
  ℕ, Bool, true, false, ◌&&◌, ◌==◌, if◌then◌else◌, Option, none, some, List, [], ◌∷◌, ℤ, eq_ℤ,
  lookup,
}
use sfrpg.Platform.{Platform, tcp_send, udp_send}
use sfrpg.Server.State.{
  NetworkProtocol, tcp, udp, ClientInfo, Server, null_id, packet_disconnect, stamp_packet,
  count_sent, post,
}

module _ {π : Platform} where
  open π use {IpAddress, Packet, new_packet, ip_eq}

  -- The common end of a send: only a delivered packet is counted.
  unfoldable pub complete : Packet → Server π × Bool → Server π × Bool
  unfolding count_sent
  complete p (s, true) = (count_sent s p, true)
  complete p (s, false) = (s, false)

  unfoldable pub send_tcp : Server π → Option ℕ → Packet → Server π × Bool
  unfolding complete post
  send_tcp s none p = (s, false)
  send_tcp s (some socket) p = complete p (post s (tcp_send socket p))

  -- The body of `send` and of the loop in `broadcast`, for one client.
  unfoldable pub send_client :
      Server π → NetworkProtocol → ℤ → ClientInfo π → Packet → Server π × Bool
  unfolding send_tcp
  send_client s tcp id info p = send_tcp s (lookup id s.tcp_clients) p
  send_client s udp id info p = complete p (post s (udp_send info.client_ip info.client_port p))

  -- send(const ClientID&, sf::Packet&)
  unfoldable pub send : Server π → ℤ → Packet → Server π × Bool
  unfolding send_client
  send s l_client p =
      if s.running
      then elim (lookup l_client s.client_map) [
        | none ↦ (s, false)
        | some info ↦ send_client s info.protocol l_client info p
      ]
      else (s, false)

  -- `itr->second.m_clientIP == l_ip && itr->second.m_clientPORT == l_port`
  abbrev pub at_endpoint : IpAddress → ℕ → ClientInfo π → Bool
  at_endpoint ip port info = ip_eq info.client_ip ip && info.client_port == port

  -- The loop over the client map that stops at the client of an address.
  unfoldable pub find_endpoint : IpAddress → ℕ → List (ℤ × ClientInfo π) → Option (ℤ × ClientInfo π)
  find_endpoint ip port [] = none
  find_endpoint ip port ((id, info) ∷ m) =
      if at_endpoint ip port info then some (id, info) else find_endpoint ip port m

  -- Here the socket of a TCP client is used with no test that there is one: `none` is the read
  -- through the end iterator.
  unfoldable pub send_found :
      Server π → NetworkProtocol → ℤ → ClientInfo π → Packet → Option (Server π × Bool)
  unfolding send_client
  send_found s tcp id info p = elim (lookup id s.tcp_clients) [
    | none ↦ none
    | some socket ↦ some (complete p (post s (tcp_send socket p)))
  ]
  send_found s udp id info p =
      some (complete p (post s (udp_send info.client_ip info.client_port p)))

  -- send(sf::IpAddress&, const PortNumber&, sf::Packet&)
  unfoldable pub send_to : Server π → IpAddress → ℕ → Packet → Option (Server π × Bool)
  unfolding find_endpoint send_found
  send_to s l_ip l_port p =
      if s.running
      then elim (find_endpoint l_ip l_port s.client_map) [
        | none ↦ some (s, false)
        | some (id, info) ↦ send_found s info.protocol id info p
      ]
      else some (s, false)

  unfoldable pub broadcast_from : Packet → ℤ → List (ℤ × ClientInfo π) → Server π → Server π
  unfolding send_client
  broadcast_from p l_ignore [] s = s
  broadcast_from p l_ignore ((id, info) ∷ m) s =
      broadcast_from p l_ignore m
        (if eq_ℤ id l_ignore then s else (send_client s info.protocol id info p).0)

  unfoldable pub broadcast : Server π → Packet → ℤ → Server π
  unfolding broadcast_from
  broadcast s p l_ignore = if s.running then broadcast_from p l_ignore s.client_map s else s

  unfoldable pub disconnect_all : Server π → Server π
  unfolding broadcast
  disconnect_all s = record (broadcast s (stamp_packet π packet_disconnect new_packet) null_id) {
    client_map = [];
    tcp_clients = [];
  }
