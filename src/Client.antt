-- ===== src/Client.antt =====
-- client/Client.cpp and client/Client.h. What the socket receives, and whether a connection comes
-- about, is an argument; joining the thread has no effect on the state.
pub mod Main
pub mod Clock
pub mod Exchange
mod Tests
use sfrpg.Base.{
  ℕ, Bool, true, false, not, ◌&&◌, ◌||◌, if◌then◌else◌, Option, none, some, List, [], ◌∷◌, ◌++◌, ℤ,
  ◌-ℤ◌, eq_ℤ, ltb_ℤ, leb_ℤ, Text,
}
use sfrpg.Platform.{Platform, Attempt, tcp_send, udp_send}
use sfrpg.Server.State.{
  NetworkProtocol, tcp, udp, client_timeout, highest_timestamp, packet_disconnect, packet_connect,
  packet_heartbeat, packet_out_of_bounds, stamp_packet,
}
use sfrpg.Server.Listener.{is_unknown}

pub record Client (π : Platform) : Type 0 where
  pub protocol : NetworkProtocol
  pub username : Text
  pub server_time : π.Time
  pub last_heartbeat : π.Time
  pub connected : Bool
  pub server_ip : π.IpAddress
  pub server_port : ℕ
  -- What was handed to the sockets, oldest first. A client has one TCP socket, number 0.
  pub attempts : List (Attempt π.IpAddress π.Packet)

-- PacketHandler, on a state of the program that holds the client.
abbrev pub ClientHandler : Platform → Type 0
ClientHandler π = ℤ → π.Packet → Client π → Client π

-- What a receive comes to: a packet with its sender, a lost connection, or another failure.
pub data Reception (I P : Type 0) : Type 0 where
  packet_from : I → P → Reception I P
  lost : Reception I P
  nothing : Reception I P

-- The timestamp of a heartbeat; `junk` is what the uninitialised variable holds.
unfoldable pub timestamp_of : (π : Platform) → ℤ → π.Packet → ℤ
timestamp_of π junk p = elim (π.read_i32 p) [ none ↦ junk | some (n, rest) ↦ n ]

module _ {π : Platform} where
  open π use {
    IpAddress, Time, Packet, ip_eq, new_packet, read_i8, read_i32, time_add, time_sub, milliseconds,
    as_milliseconds, delivers,
  }

  unfoldable pub post_to_server : Packet → Client π → Client π × Bool
  post_to_server p c =
      let attempt = elim c.protocol as (λ _. Attempt IpAddress Packet) [
        | tcp ↦ tcp_send 0 p
        | udp ↦ udp_send c.server_ip c.server_port p
      ] in
      (record c { attempts = c.attempts ++ attempt ∷ [] }, delivers c.attempts attempt)

  -- Client::send
  unfoldable pub send : Packet → Client π → Client π × Bool
  unfolding post_to_server
  send l_packet c = if c.connected then post_to_server l_packet c else (c, false)

  -- A UDP client says goodbye; a TCP client closes its socket.
  unfoldable pub leave : NetworkProtocol → Client π → Client π
  unfolding post_to_server
  leave tcp c = c
  leave udp c = (post_to_server (stamp_packet π packet_disconnect new_packet) c).0

  -- Client::disconnect
  unfoldable pub disconnect : Client π → Client π × Bool
  unfolding leave
  disconnect c =
      if c.connected then (record (leave c.protocol c) { connected = false }, true) else (c, false)

  -- The packet of a reception that `connect` waits for: from the server, with the type Connect.
  unfoldable pub accepts : Client π → Reception IpAddress Packet → Option Packet
  accepts c lost = none
  accepts c nothing = none
  accepts c (packet_from ip p) =
      if ip_eq ip c.server_ip
      then elim (read_i8 p) [
        | none ↦ none
        | some (id, rest) ↦ if eq_ℤ id packet_connect then some rest else none
      ]
      else none

  unfoldable pub await_connect :
      ClientHandler π → List (Reception IpAddress Packet) → Client π → Client π × Bool
  unfolding accepts
  await_connect handler [] c = (c, false)
  await_connect handler (r ∷ rest) c =
      let later = await_connect handler rest c in
      elim (accepts c r) [
        | none ↦ later
        | some p ↦
            let handled = handler packet_connect p c in
            (record handled { connected = true; last_heartbeat = handled.server_time }, true)
      ]

  -- Client::connect over UDP, with what arrives within the timeout, in order.
  unfoldable pub connect_udp :
      ClientHandler π → List (Reception IpAddress Packet) → Client π → Client π × Bool
  unfolding post_to_server await_connect
  connect_udp handler arrivals c =
      let (sent, done) = post_to_server (stamp_packet π packet_connect new_packet) c in
      if done then await_connect handler arrivals sent else (sent, false)

  -- Client::connect; `tcp_connected` is the answer of the TCP socket.
  unfoldable pub connect :
      ClientHandler π → Bool → List (Reception IpAddress Packet) → Client π → Client π × Bool
  unfolding connect_udp
  connect handler tcp_connected arrivals c = if c.connected then (c, false) else elim c.protocol [
    | udp ↦ connect_udp handler arrivals c
    | tcp ↦
        if tcp_connected
        then (record c { connected = true; last_heartbeat = c.server_time }, true)
        else (c, false)
  ]

  -- A heartbeat is sent back, and sets the clock.
  unfoldable pub on_heartbeat : ℤ → Packet → Client π → Client π
  unfolding send timestamp_of
  on_heartbeat junk p c =
      let replied = (send (stamp_packet π packet_heartbeat new_packet) c).0 in
      let now = milliseconds (timestamp_of π junk p) in
      record replied { server_time = now; last_heartbeat = now }

  unfoldable pub on_packet :
      Option (ClientHandler π) → ℤ → Option (ℤ × Packet) → Client π → Client π
  unfolding on_heartbeat
  on_packet handler junk none c = c
  on_packet handler junk (some (id, rest)) c =
      if is_unknown id
      then c
      else if eq_ℤ id packet_heartbeat
      then on_heartbeat junk rest c
      else elim handler [ none ↦ c | some h ↦ h id rest c ]

  -- A round of udpListen. A failure ends the loop only if the client is no longer connected, which
  -- the loop's own test finds too.
  unfoldable pub udp_round :
      Option (ClientHandler π) → ℤ → Reception IpAddress Packet → Client π → Client π
  unfolding on_packet
  udp_round handler junk lost c = c
  udp_round handler junk nothing c = c
  udp_round handler junk (packet_from ip p) c =
      if ip_eq ip c.server_ip then on_packet handler junk (read_i8 p) c else c

  -- A round of tcpListen, where a lost connection disconnects the client.
  unfoldable pub tcp_round :
      Option (ClientHandler π) → ℤ → Reception IpAddress Packet → Client π → Client π
  unfolding on_packet disconnect
  tcp_round handler junk lost c = (disconnect c).0
  tcp_round handler junk nothing c = c
  tcp_round handler junk (packet_from ip p) c = on_packet handler junk (read_i8 p) c

  unfoldable pub round :
      NetworkProtocol
      → Option (ClientHandler π)
      → ℤ
      → Reception IpAddress Packet
      → Client π
      → Client π
  unfolding udp_round tcp_round
  round udp handler junk r c = udp_round handler junk r c
  round tcp handler junk r c = tcp_round handler junk r c

  -- udpListen and tcpListen, while the client is connected.
  unfoldable pub listen :
      Option (ClientHandler π) → ℤ → List (Reception IpAddress Packet) → Client π → Client π
  unfolding round
  listen handler junk [] c = c
  listen handler junk (r ∷ rest) c =
      listen handler junk rest (if c.connected then round c.protocol handler junk r c else c)

  -- Client::update
  unfoldable pub update_client : Time → Client π → Client π
  unfolding disconnect
  update_client l_time c =
      if c.connected
      then (let now = time_add c.server_time l_time in
          let restarted = time_sub now (milliseconds highest_timestamp) in
          if ltb_ℤ (as_milliseconds now) (ℤ.pos 0)
          then record c { server_time = restarted; last_heartbeat = restarted }
          else if ltb_ℤ client_timeout (as_milliseconds now -ℤ as_milliseconds c.last_heartbeat)
          then (disconnect (record c { server_time = now })).0
          else record c { server_time = now })
      else c
