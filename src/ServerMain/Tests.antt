-- ===== src/ServerMain/Tests.antt =====
-- A server with one client, for the theorems about replies.
use sfrpg.Base.{◌≡◌, refl, true, false, some, [], ◌∷◌, ◌++◌, ℤ, arith, Text, length}
use sfrpg.Platform.{str}
use sfrpg.Sample.{sample, sample-PacketLaws}
use sfrpg.SampleDb.{memory}
use sfrpg.Packets.{write_result}
use sfrpg.Server.State.{Server, ClientInfo, udp, stamp_packet}
use sfrpg.Server.Transport.{send}
use sfrpg.Server.Registry.{get_client_id}
use sfrpg.Server.Accounts.{MessageRow, get_chat_messages}
use sfrpg.ServerMain.{Host, handle_packet, packet_chat}
use sfrpg.ServerMain.Replies.{chat_exchange}
use sfrpg.Client.Main
use sfrpg.Client.Main.{Screen, result_lines, chat_line}

abbrev guest : ClientInfo sample
guest = record {
  protocol = udp;
  client_ip = 7;
  client_port = 5000;
  last_heartbeat = ℤ.pos 0;
  heartbeat_sent = ℤ.pos 0;
  heartbeat_waiting = false;
  heartbeat_retry = 0;
  ping = 0;
}

abbrev hall : Server sample
hall = record {
  running = true;
  client_map = (ℤ.pos 3, guest) ∷ [];
  tcp_clients = [];
  last_id = 4;
  server_time = ℤ.pos 0;
  total_sent = 0;
  total_received = 0;
  timeout_handler = false;
  timeouts = [];
  attempts = [];
}

abbrev said : MessageRow
said = record { sender = 65 ∷ []; receiver = 68 ∷ []; content = 104 ∷ [] }

abbrev host : Host sample memory
host = record { server = hall; db = ([], said ∷ []) }

abbrev screen : Screen sample
screen = record {
  client = record {
    protocol = udp;
    username = 65 ∷ [];
    server_time = ℤ.pos 0;
    last_heartbeat = ℤ.pos 0;
    connected = true;
    server_ip = 1;
    server_port = 5600;
    attempts = [];
  };
  lines = [];
}

abbrev unnamed : sample.IpAddress → Text
unnamed ip = []

guest_known : get_client_id hall 7 5000 ≡ ℤ.pos 3
unfolding get_client_id
guest_known = refl

said_found : get_chat_messages memory host.db (65 ∷ []) (68 ∷ []) ≡ some (said ∷ [])
unfolding get_chat_messages
said_found = refl

chat_exchange_example :
    let reply = write_result sample (said ∷ []) (stamp_packet sample packet_chat []) in
    (handle_packet sample memory length unnamed 7 5000 packet_chat
        (str (65 ∷ []) ∷ str (68 ∷ []) ∷ [])
        host
      ≡ some (record host { server = (send hall (ℤ.pos 3) reply).0 }))
    × ((q : sample.Packet) × (sample.read_i8 reply ≡ some (packet_chat, q))
        × ((Main.handle_packet sample packet_chat q screen).lines
            ≡ [] ++ (65 ∷ 58 ∷ 32 ∷ 104 ∷ []) ∷ []))
chat_exchange_example =
    chat_exchange sample-PacketLaws memory length unnamed host 7 5000 3
      (str (65 ∷ []) ∷ str (68 ∷ []) ∷ []) (65 ∷ []) (68 ∷ []) (said ∷ []) screen guest_known refl
      said_found (omega arith)
