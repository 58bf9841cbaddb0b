-- ===== src/Server/Listener.antt =====
-- server/Server.cpp: udpListen and tcpListen. What a socket receives is an argument of a round; the
-- packet handler is an argument too, absent if none was given.
use sfrpg.Base.{
  ℕ, ◌+◌, ◌%◌, ◌^◌, Bool, true, false, ◌||◌, if◌then◌else◌, Option, none, some, List, [], ◌∷◌, ℤ,
  eq_ℤ, ltb_ℤ, leb_ℤ, lookup, erase, emplace,
}
use sfrpg.Platform.{Platform}
use sfrpg.Server.State.{
  tcp, ClientInfo, Server, packet_disconnect, packet_heartbeat, packet_out_of_bounds,
}
use sfrpg.Server.Registry.{add_client, remove_client}
use sfrpg.Server.Heartbeat.{heartbeat_from, accept_heartbeat}

-- PacketHandler
abbrev pub PacketHandler : Platform → Type 0
PacketHandler π = π.IpAddress → ℕ → ℤ → π.Packet → Server π → Server π

-- What the poll of one TCP client's socket finds.
pub data Poll (P : Type 0) : Type 0 where
  idle : Poll P
  received : P → Poll P
  disconnected : Poll P
  failed : Poll P

-- `pType < PacketType::Disconnect || pType >= PacketType::OutOfBounds`
abbrev pub is_unknown : ℤ → Bool
is_unknown id = ltb_ℤ id packet_disconnect || leb_ℤ packet_out_of_bounds id

unfoldable pub close_sockets : List ℤ → List (ℤ × ℕ) → List (ℤ × ℕ)
close_sockets [] m = m
close_sockets (id ∷ ids) m = close_sockets ids (erase id m)

module _ {π : Platform} where
  open π use {IpAddress, Packet, data_size, read_i8}

  unfoldable pub count_received : Packet → Server π → Server π
  count_received p s = record s { total_received = (s.total_received + data_size p) % 2 ^ 64 }

  unfoldable pub handle :
      Option (PacketHandler π) → IpAddress → ℕ → ℤ → Packet → Server π → Server π
  handle none ip port id p s = s
  handle (some handler) ip port id p s = handler ip port id p s

  -- A packet with its id taken off: an unknown type is dropped, a heartbeat is the server's own, and
  -- the rest is the handler's.
  unfoldable pub dispatch :
      (Server π → Server π)
      → Option (PacketHandler π)
      → IpAddress
      → ℕ
      → Option (ℤ × Packet)
      → Server π
      → Server π
  unfolding handle
  dispatch heartbeat handler ip port none s = s
  dispatch heartbeat handler ip port (some (id, rest)) s =
      if is_unknown id
      then s
      else if eq_ℤ id packet_heartbeat
      then heartbeat s
      else handle handler ip port id rest s

  -- One round of the loop of udpListen on a received packet.
  unfoldable pub udp_packet :
      Option (PacketHandler π) → IpAddress → ℕ → Packet → Server π → Server π
  unfolding dispatch count_received
  udp_packet handler recv_ip recv_port p s =
      dispatch (heartbeat_from recv_ip recv_port) handler recv_ip recv_port (read_i8 p)
        (count_received p s)

  -- udpListen, over what the socket receives in turn (`none` for a failure), until the server stops.
  unfoldable pub udp_listen :
      Option (PacketHandler π) → List (Option (Packet × IpAddress × ℕ)) → Server π → Server π
  unfolding udp_packet
  udp_listen handler [] s = s
  udp_listen handler (none ∷ rest) s = if s.running then udp_listen handler rest s else s
  udp_listen handler (some (p, recv_ip, recv_port) ∷ rest) s =
      udp_listen handler rest (if s.running then udp_packet handler recv_ip recv_port p s else s)

  -- A new TCP connection is filed under the identifier that addClient gives it.
  unfoldable pub tcp_accept : ℕ → IpAddress → ℕ → Server π → Server π
  unfolding add_client
  tcp_accept socket ip port s =
      let r = add_client s tcp ip port in
      record r.0 { tcp_clients = (emplace r.1 socket r.0.tcp_clients).0 }

  -- The body of the loop over the TCP clients; the flag says that the client is to be removed from
  -- the sockets.
  unfoldable pub tcp_client :
      Option (PacketHandler π) → ℤ → ClientInfo π → Poll Packet → Server π → Server π × Bool
  unfolding dispatch count_received
  tcp_client handler id info idle s = (s, false)
  tcp_client handler id info failed s = (s, false)
  tcp_client handler id info disconnected s = ((remove_client s id).0, true)
  tcp_client handler id info (received p) s = (
    dispatch (accept_heartbeat id info) handler info.client_ip info.client_port (read_i8 p)
        (count_received p s),
    false,
  )

  unfoldable pub tcp_visit :
      Option (PacketHandler π) → (ℤ → Poll Packet) → ℤ → Server π → Server π × Bool
  unfolding tcp_client
  tcp_visit handler poll id s = elim (lookup id s.client_map) [
    | none ↦ (s, false)
    | some info ↦ tcp_client handler id info (poll id) s
  ]

  unfoldable pub tcp_poll :
      Option (PacketHandler π) → (ℤ → Poll Packet) → List (ℤ × ℕ) → Server π → Server π × List ℤ
  unfolding tcp_visit
  tcp_poll handler poll [] s = (s, [])
  tcp_poll handler poll ((id, socket) ∷ m) s =
      let (t, gone) = tcp_visit handler poll id s in
      let (u, rest) = tcp_poll handler poll m t in (u, if gone then id ∷ rest else rest)

  -- A round of tcpListen in which a client's socket, not the listener, is ready.
  unfoldable pub tcp_round : Option (PacketHandler π) → (ℤ → Poll Packet) → Server π → Server π
  unfolding tcp_poll close_sockets
  tcp_round handler poll s =
      let (t, gone) = tcp_poll handler poll s.tcp_clients s in
      record t { tcp_clients = close_sockets gone t.tcp_clients }
