-- ===== src/Server/State.antt =====
-- server/Server.h: a client's record, the server's state, and Server::setUp. The packet and
-- timeout handlers are arguments of the operations that call them.
use sfrpg.Base.{ℕ, ◌+◌, ◌%◌, ◌^◌, Bool, false, List, [], ◌∷◌, ◌++◌, ℤ}
use sfrpg.Platform.{Platform, Attempt, i8}

pub data NetworkProtocol : Type 0 where
  tcp udp : NetworkProtocol

abbrev pub null_id : ℤ
null_id = ℤ.negsuc 0

abbrev pub client_timeout : ℤ
client_timeout = ℤ.pos 10000

abbrev pub highest_timestamp : ℤ
highest_timestamp = ℤ.pos 2147483647

abbrev pub heartbeat_interval : ℕ
heartbeat_interval = 1000

abbrev pub heartbeat_retries : ℕ
heartbeat_retries = 5

-- PacketType, as the number of each enumerator.
abbrev pub packet_disconnect : ℤ
packet_disconnect = ℤ.negsuc 0

abbrev pub packet_connect : ℤ
packet_connect = ℤ.pos 0

abbrev pub packet_heartbeat : ℤ
packet_heartbeat = ℤ.pos 1

abbrev pub packet_out_of_bounds : ℤ
packet_out_of_bounds = ℤ.pos 11

pub record ClientInfo (π : Platform) : Type 0 where
  pub protocol : NetworkProtocol
  pub client_ip : π.IpAddress
  pub client_port : ℕ
  pub last_heartbeat : π.Time
  pub heartbeat_sent : π.Time
  pub heartbeat_waiting : Bool
  pub heartbeat_retry : ℕ
  pub ping : ℕ

-- stampPacket
unfoldable pub stamp_packet : (π : Platform) → ℤ → π.Packet → π.Packet
stamp_packet π l_type p = π.write p (i8 l_type)

pub record Server (π : Platform) : Type 0 where
  pub running : Bool
  pub client_map : List (ℤ × ClientInfo π)
  pub tcp_clients : List (ℤ × ℕ)
  pub last_id : ℕ
  pub server_time : π.Time
  pub total_sent : ℕ
  pub total_received : ℕ
  -- Whether a timeout handler is bound, and the clients for which it was called.
  pub timeout_handler : Bool
  pub timeouts : List ℤ
  -- What was handed to the sockets, oldest first.
  pub attempts : List (Attempt π.IpAddress π.Packet)

module _ {π : Platform} where
  open π use {IpAddress, Time, Packet, new_packet, data_size, write, delivers}

  -- The constructor of ClientInfo, whose m_heartbeatSent is the default sf::Time.
  unfoldable pub new_client : NetworkProtocol → IpAddress → ℕ → Time → Time → ClientInfo π
  new_client l_protocol l_ip l_port l_time zero_time = record {
    protocol = l_protocol;
    client_ip = l_ip;
    client_port = l_port;
    last_heartbeat = l_time;
    heartbeat_sent = zero_time;
    heartbeat_waiting = false;
    heartbeat_retry = 0;
    ping = 0;
  }

  -- ClientInfo::operator=
  unfoldable pub assign : ClientInfo π → ClientInfo π → ClientInfo π
  assign lhs rhs = record {
    protocol = rhs.protocol;
    client_ip = rhs.client_ip;
    client_port = rhs.client_port;
    last_heartbeat = rhs.last_heartbeat;
    heartbeat_sent = rhs.heartbeat_sent;
    heartbeat_waiting = rhs.heartbeat_waiting;
    heartbeat_retry = lhs.heartbeat_retry;
    ping = rhs.ping;
  }

  -- Server::setUp
  unfoldable pub set_up : Server π → Server π
  set_up s = record s { running = false; last_id = 0; total_sent = 0; total_received = 0 }

  -- `m_totalSent += l_packet.getDataSize()`
  unfoldable pub count_sent : Server π → Packet → Server π
  count_sent s p = record s { total_sent = (s.total_sent + data_size p) % 2 ^ 64 }

  -- Hand a packet to a socket, and hear whether the socket is done.
  unfoldable pub post : Server π → Attempt IpAddress Packet → Server π × Bool
  post s a = (record s { attempts = s.attempts ++ a ∷ [] }, delivers s.attempts a)
