-- ===== src/Server/Reach.antt =====
-- The histories of the server: each step is one call of Server, or what a listener does itself, with
-- the arguments chosen by the environment.
use sfrpg.Base.{Bool, some, List, lookup, if_ind, ℕ, ◌+◌, ◌^◌, ◌<◌, ◌≡◌, [], ℤ}
use sfrpg.Platform.{Platform}
use sfrpg.Server.State.{NetworkProtocol, tcp, ClientInfo, Server}
use sfrpg.Server.Lifecycle.{stop}
use sfrpg.Server.Listener.{tcp_accept, count_received, close_sockets}
use sfrpg.Server.Transport.{send, send_to, broadcast, disconnect_all}
use sfrpg.Server.Registry.{add_client, remove_client, remove_client_at}
use sfrpg.Server.Heartbeat.{update_server, heartbeat_from, accept_heartbeat}
use sfrpg.Server.Traffic.{send-SameClients, send_to-SameClients, broadcast-SameClients}
use sfrpg.Server.Invariant.{
  Inv, empty-ClientsOk, SameClients-Inv, add_client-Inv, remove_client-Inv, remove_client_at-Inv,
  update_server-Inv, heard-Inv, heartbeat_from-Inv,
}

module _ {π : Platform} where
  open π use {IpAddress, Time, Packet}

  pub data Step (s : Server π) : Server π → Type 0 where
    adds :
        (l_protocol : NetworkProtocol) (l_ip : IpAddress) (l_port : ℕ)
        → s.last_id + 1 < 2 ^ 31
        → Step s (add_client s l_protocol l_ip l_port).0
    removes : (l_client : ℤ) → Step s (remove_client s l_client).0
    removes_at : (l_ip : IpAddress) (l_port : ℕ) → Step s (remove_client_at s l_ip l_port).0
    updates : (l_time : Time) → Step s (update_server l_time s)
    hears : (recv_ip : IpAddress) (recv_port : ℕ) → Step s (heartbeat_from recv_ip recv_port s)
    sends : (l_client : ℤ) (l_packet : Packet) → Step s (send s l_client l_packet).0
    broadcasts : (l_packet : Packet) (l_ignore : ℤ) → Step s (broadcast s l_packet l_ignore)
    sends_to :
        (t : Server π) (l_ip : IpAddress) (l_port : ℕ) (l_packet : Packet) (done : Bool)
        → send_to s l_ip l_port l_packet ≡ some (t, done)
        → Step s t
    disconnects : Step s (disconnect_all s)
    stops : Step s (stop s).0
    -- What the listeners do besides: a TCP connection, a heartbeat over TCP, a packet that is counted,
    -- and sockets that are closed.
    connects :
        (socket : ℕ) (l_ip : IpAddress) (l_port : ℕ)
        → s.last_id + 1 < 2 ^ 31
        → Step s (tcp_accept socket l_ip l_port s)
    hears_tcp :
        (id : ℤ) (info : ClientInfo π)
        → lookup id s.client_map ≡ some info
        → Step s (accept_heartbeat id info s)
    counts : (l_packet : Packet) → Step s (count_received l_packet s)
    closes : (ids : List ℤ) → Step s (record s { tcp_clients = close_sockets ids s.tcp_clients })

  pub data Reach (s : Server π) : Server π → Type 0 where
    here : Reach s s
    next : {t u : Server π} → Reach s t → Step t u → Reach s u

  Step-Inv : {s t : Server π} → Step s t → Inv s → Inv t
  unfolding disconnect_all stop tcp_accept count_received
  Step-Inv {s} (adds l_protocol l_ip l_port room) h = add_client-Inv s l_protocol l_ip l_port room h
  Step-Inv {s} (removes l_client) h = remove_client-Inv s l_client h
  Step-Inv {s} (removes_at l_ip l_port) h = remove_client_at-Inv s l_ip l_port h
  Step-Inv {s} (updates l_time) h = update_server-Inv l_time s h
  Step-Inv {s} (hears recv_ip recv_port) h = heartbeat_from-Inv recv_ip recv_port s h
  Step-Inv {s} (sends l_client l_packet) h =
      SameClients-Inv (send-SameClients s l_client l_packet) h
  Step-Inv {s} (broadcasts l_packet l_ignore) h =
      SameClients-Inv (broadcast-SameClients s l_packet l_ignore) h
  Step-Inv {s} (sends_to t l_ip l_port l_packet done e) h =
      SameClients-Inv (send_to-SameClients s t l_ip l_port l_packet done e) h
  Step-Inv {s} disconnects h = empty-ClientsOk _
  Step-Inv {s} stops h =
      if_ind (λ (r : Server π × Bool). Inv r.0) s.running (λ on. empty-ClientsOk _) (λ off. h)
  Step-Inv {s} (connects socket l_ip l_port room) h =
      let added = add_client-Inv s tcp l_ip l_port room h in
      record { map_ok = added.map_ok; beats = added.beats }
  Step-Inv {s} (hears_tcp id info known) h = heard-Inv id info s known h
  Step-Inv {s} (counts l_packet) h = record { map_ok = h.map_ok; beats = h.beats }
  Step-Inv {s} (closes ids) h = record { map_ok = h.map_ok; beats = h.beats }

  -- From a server without clients, after any calls of addClient while the counter and its successor
  -- are below 2 ^ 31, and of removeClient, update, send, broadcast, disconnectAll and stop, with the
  -- heartbeats, connections and lost sockets that the listeners handle themselves: the identifiers are
  -- distinct and below the counter, no two clients share an address and a port, and each client's
  -- retry counter is 1 while its heartbeat is waited for and 0 otherwise.
  pub Reach-Inv : {s t : Server π} → Reach s t → s.client_map ≡ [] → Inv t
  Reach-Inv {s} here e = rw e (empty-ClientsOk s.last_id)
  Reach-Inv (next r st) e = Step-Inv st (Reach-Inv r e)
