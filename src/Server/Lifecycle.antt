-- ===== src/Server/Lifecycle.antt =====
-- server/Server.cpp: start, stop and getClientList. What the sockets and the database answer is an
-- argument; joining the threads has no effect on the state.
use sfrpg.Base.{
  ◌/◌, Bool, true, false, if◌then◌else◌, List, [], ◌∷◌, ◌++◌, ℤ, Text, codes, to_string,
  to_string_ℤ, ◌&&◌,
}
use sfrpg.Platform.{Platform}
use sfrpg.Server.State.{ClientInfo, Server, set_up}
use sfrpg.Server.Transport.{disconnect_all}

abbrev delimeter : Text
delimeter = codes "----------------------"

abbrev tab : Text
tab = 9 ∷ []

abbrev newline : Text
newline = 10 ∷ []

module _ {π : Platform} where
  open π use {IpAddress}

  -- `udp_bound`, `tcp_listens` and `db_ready` are the answers of bind, listen and initDatabase.
  unfoldable pub start : Server π → (udp_bound tcp_listens db_ready : Bool) → Server π × Bool
  unfolding set_up
  start s udp_bound tcp_listens db_ready =
      if s.running
      then (s, false)
      else if udp_bound && tcp_listens && db_ready
      then (record (set_up s) { running = true }, true)
      else (s, false)

  unfoldable pub stop : Server π → Server π × Bool
  unfolding disconnect_all
  stop s = if s.running then (record (disconnect_all s) { running = false }, true) else (s, false)

  unfoldable pub client_line : (IpAddress → Text) → ℤ → ClientInfo π → Text
  client_line ip_string id info =
      to_string_ℤ id
      ++ tab
      ++ ip_string info.client_ip
      ++ codes ":"
      ++ to_string info.client_port
      ++ tab
      ++ to_string info.ping
      ++ newline

  unfoldable pub client_lines : (IpAddress → Text) → List (ℤ × ClientInfo π) → Text
  unfolding client_line
  client_lines ip_string [] = []
  client_lines ip_string ((id, info) ∷ m) =
      client_line ip_string id info ++ client_lines ip_string m

  -- `ip_string` is sf::IpAddress::toString.
  unfoldable pub get_client_list : (IpAddress → Text) → Server π → Text
  unfolding client_lines
  get_client_list ip_string s =
      delimeter
      ++ newline
      ++ codes "ID"
      ++ tab
      ++ codes "IP:PORT"
      ++ tab
      ++ tab
      ++ codes "Ping"
      ++ newline
      ++ client_lines ip_string s.client_map
      ++ delimeter
      ++ newline
      ++ codes "Total sent: "
      ++ to_string (s.total_sent / 1000)
      ++ codes " kB. Total received: "
      ++ to_string (s.total_received / 1000)
      ++ codes " kB."
