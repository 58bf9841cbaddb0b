-- ===== src/Client/Tests.antt =====
-- Small inputs for the client's theorems.
use sfrpg.Base.{
  ◌≡◌, refl, not, true, false, none, some, [], ◌∷◌, ◌++◌, if◌then◌else◌, eq_ℤ, lookup, to_u32, List,
  ℤ, ◌+ℤ◌, ◌-ℤ◌, ltb_ℤ, arith,
}
use sfrpg.Platform.{i8, udp_send}
use sfrpg.Sample.{sample, sample-PacketLaws}
use sfrpg.Packets.{write_result}
use sfrpg.Server.Invariant.{Inv}
use sfrpg.Server.State.{
  Server, ClientInfo, udp, packet_heartbeat, packet_connect, stamp_packet, client_timeout,
}
use sfrpg.Server.Accounts.{MessageRow}
use sfrpg.Server.Heartbeat.{heartbeat_packet}
use sfrpg.Server.Listener.{udp_packet}
use sfrpg.Client.{
  Client, ClientHandler, Reception, packet_from, lost, nothing, update_client, await_connect,
  udp_round,
}
use sfrpg.Client.Main.{read_result}
use sfrpg.Client.Clock.{update_client-connected, await_connect_first}
use sfrpg.Client.Exchange.{read_result-write_result, heartbeat_exchange}

abbrev idle : Client sample
idle = record {
  protocol = udp;
  username = 97 ∷ [];
  server_time = ℤ.pos 500;
  last_heartbeat = ℤ.pos 400;
  connected = false;
  server_ip = 7;
  server_port = 5600;
  attempts = [];
}

abbrev linked : Client sample
linked = record idle { connected = true }

abbrev passive : ClientHandler sample
passive = λ id p c. c

abbrev offer : Reception sample.IpAddress sample.Packet
offer = packet_from 7 (i8 packet_connect ∷ [])

goes_on : ltb_ℤ (ℤ.pos 500 +ℤ ℤ.pos 9900) (ℤ.pos 0) ≡ false
unfolding ◌+ℤ◌
goes_on = refl

update_client-connected_example :
    ((update_client (ℤ.pos 9900) linked).connected
      ≡ not (ltb_ℤ client_timeout ((ℤ.pos 500 +ℤ ℤ.pos 9900) -ℤ ℤ.pos 400)))
    × ((update_client (ℤ.pos 9900) linked).server_time ≡ ℤ.pos 500 +ℤ ℤ.pos 9900)
update_client-connected_example = update_client-connected linked (ℤ.pos 9900) refl goes_on

await_connect_first_example :
    (await_connect passive (nothing ∷ []) linked ≡ (linked, false))
    × (await_connect passive ((nothing ∷ []) ++ offer ∷ lost ∷ []) linked
        ≡ (record linked { connected = true; last_heartbeat = ℤ.pos 500 }, true))
await_connect_first_example =
    await_connect_first passive linked (nothing ∷ []) (lost ∷ []) offer [] ((λ q b. b), tt)
      (refl, refl)

abbrev greetings : List MessageRow
greetings =
    (record { sender = 97 ∷ []; receiver = 98 ∷ []; content = 104 ∷ 105 ∷ [] })
    ∷ (record { sender = 98 ∷ []; receiver = 97 ∷ []; content = [] })
    ∷ []

read_result-write_result_example :
    (q : sample.Packet) × (sample.read_i8
        (write_result sample greetings (stamp_packet sample (ℤ.pos 5) []))
      ≡ some (ℤ.pos 5, q))
    × (read_result sample q ≡ some greetings)
read_result-write_result_example =
    read_result-write_result sample-PacketLaws (ℤ.pos 5) greetings (omega arith)

abbrev waiting : Server sample
waiting = record {
  running = true;
  client_map = [];
  tcp_clients = [];
  last_id = 0;
  server_time = ℤ.pos 900;
  total_sent = 0;
  total_received = 0;
  timeout_handler = true;
  timeouts = [];
  attempts = [];
}

abbrev awaited : ClientInfo sample
awaited = record {
  protocol = udp;
  client_ip = 9;
  client_port = 5000;
  last_heartbeat = ℤ.pos 800;
  heartbeat_sent = ℤ.pos 1850;
  heartbeat_waiting = true;
  heartbeat_retry = 1;
  ping = 0;
}

-- A server that waits for its client 2.
abbrev awaiting : Server sample
awaiting = record waiting {
  client_map = (ℤ.pos 2, awaited) ∷ [];
  last_id = 3;
  server_time = ℤ.pos 1900;
}

awaiting-Inv : Inv awaiting
awaiting-Inv = record {
  map_ok = record { distinct = (tt, tt); endpoints = (tt, tt); issued = (omega arith, tt) };
  beats = (refl, tt);
}

heartbeat_exchange_example :
    let reply = stamp_packet sample packet_heartbeat [] in
    let after = udp_round none (ℤ.pos 0) (packet_from 7 (heartbeat_packet waiting)) linked in
    (after.attempts ≡ udp_send 7 5600 reply ∷ [])
    × (after.server_time ≡ ℤ.pos 900)
    × (after.last_heartbeat ≡ ℤ.pos 900)
    × ((j : ℤ)
        → lookup j (udp_packet none 9 5000 reply awaiting).client_map ≡ (
            if eq_ℤ (ℤ.pos 2) j
            then some (record awaited {
              ping = 1100;
              heartbeat_waiting = false;
              last_heartbeat = ℤ.pos 1900;
              heartbeat_retry = 0;
            })
            else lookup j awaiting.client_map))
unfolding ◌-ℤ◌ to_u32 lookup
heartbeat_exchange_example =
    heartbeat_exchange sample-PacketLaws waiting linked none (ℤ.pos 0) awaiting none (ℤ.pos 2)
      awaited refl refl awaiting-Inv refl refl
