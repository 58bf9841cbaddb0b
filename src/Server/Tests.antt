-- ===== src/Server/Tests.antt =====
-- Small inputs for the server's theorems, and runs of its operations on them.
use sfrpg.Base.{
  ◌^◌, ◌<◌, ◌&&◌, ◌≤◌, ◌≡◌, ◌≢◌, ◌↔◌, refl, true, false, none, some, [], ◌∷◌, ◌++◌, ℤ, ◌+ℤ◌, ◌-ℤ◌,
  arith, leb_ℤ, eq_ℤ, if◌then◌else◌, lookup, pos_part, to_i32,
}
use sfrpg.Platform.{tcp_send, i8}
use sfrpg.Sample.{sample}
use sfrpg.Server.State.{tcp, udp, ClientInfo, Server, null_id, client_timeout, heartbeat_interval}
use sfrpg.Server.Transport.{broadcast}
use sfrpg.Server.Registry.{add_client, get_client_id, get_client_info, has_client, remove_client}
use sfrpg.Server.Heartbeat.{rebase, update_server, advance, elapsed, is_due, heard, await_reply}
use sfrpg.Server.Traffic.{addressed, broadcast-attempts}
use sfrpg.Server.Invariant.{Inv}
use sfrpg.Server.Reach.{adds, updates, Reach, here, next, Reach-Inv}
use sfrpg.Server.Beats.{beats, update_server-attempts}
use sfrpg.Server.Visit.{judged}
use sfrpg.Server.Sweep.{starts_over, next_time, update_server-lookup}
use sfrpg.Server.Timeouts.{update_server-drops_silent, heard-ping_ge}
use sfrpg.Server.Lookup.{
  newcomer, get_client_id-add_client, has_client-remove_client, get_client_info-heartbeat_retry,
}

abbrev blank : Server sample
blank = record {
  running = true;
  client_map = [];
  tcp_clients = [];
  last_id = 0;
  server_time = ℤ.pos 500;
  total_sent = 0;
  total_received = 0;
  timeout_handler = true;
  timeouts = [];
  attempts = [];
}

abbrev near : ClientInfo sample
near = record {
  protocol = udp;
  client_ip = 7;
  client_port = 5000;
  last_heartbeat = ℤ.pos 500;
  heartbeat_sent = ℤ.pos 0;
  heartbeat_waiting = false;
  heartbeat_retry = 0;
  ping = 0;
}

abbrev far : ClientInfo sample
far = record near { protocol = tcp; client_ip = 8; heartbeat_waiting = true; heartbeat_retry = 1 }

abbrev busy : Server sample
busy = record blank {
  client_map = (ℤ.pos 0, near) ∷ (ℤ.pos 1, far) ∷ [];
  tcp_clients = (ℤ.pos 1, 40) ∷ [];
  last_id = 2;
}

busy-Inv : Inv busy
busy-Inv = record {
  map_ok = record {
    distinct = ((refl, tt), (tt, tt));
    endpoints = ((refl, tt), (tt, tt));
    issued = omega arith;
  };
  beats = (refl, (refl, tt));
}

-- The first client is added, and its first heartbeat is sent after a second.
first_second : Reach blank (update_server (ℤ.pos 1000) (add_client blank udp 7 5000).0)
first_second = next (next here (adds udp 7 5000 (omega arith))) (updates (ℤ.pos 1000))

Reach-Inv_example : Inv (update_server (ℤ.pos 1000) (add_client blank udp 7 5000).0)
Reach-Inv_example = Reach-Inv first_second refl

update_server-lookup_example :
    lookup (ℤ.pos 0) (update_server (ℤ.pos 1000) busy).client_map
    ≡ judged (next_time (ℤ.pos 1000) busy) (lookup (ℤ.pos 0) busy.client_map)
unfolding ◌+ℤ◌
update_server-lookup_example =
    update_server-lookup (ℤ.pos 1000) busy refl busy-Inv.map_ok.distinct (ℤ.pos 0)

update_server-attempts_example :
    (update_server (ℤ.pos 1000) busy).attempts
    ≡ busy.attempts
      ++ beats busy.tcp_clients
          (next_time (ℤ.pos 1000) busy)
          (if starts_over (ℤ.pos 1000) busy then rebase busy.client_map else busy.client_map)
update_server-attempts_example =
    update_server-attempts (ℤ.pos 1000) busy refl busy-Inv.map_ok.distinct

abbrev joined : ClientInfo sample
joined = record near { heartbeat_sent = ℤ.pos 0 }

joined_known :
    lookup (ℤ.pos 0) (advance (ℤ.pos 10000) (add_client blank udp 7 5000).0).client_map
    ≡ some joined
unfolding lookup advance add_client to_i32 ◌+ℤ◌
joined_known = refl

update_server-drops_silent_example :
    (lookup (ℤ.pos 0) (update_server (ℤ.pos 10000) (add_client blank udp 7 5000).0).client_map
      ≡ none)
    ↔ (leb_ℤ client_timeout (elapsed (advance (ℤ.pos 10000) (add_client blank udp 7 5000).0) joined)
        ≡ true)
unfolding add_client
update_server-drops_silent_example =
    update_server-drops_silent {start = blank} (ℤ.pos 10000) (ℤ.pos 0) joined
      (next here (adds udp 7 5000 (omega arith))) refl refl joined_known

abbrev later_busy : Server sample
later_busy = record busy { server_time = ℤ.pos 1500 }

near_due : is_due later_busy near ≡ true
unfolding is_due elapsed ◌-ℤ◌
near_due = refl

near_gap : pos_part (ℤ.pos 1530 -ℤ ℤ.pos 500) < 2 ^ 32
unfolding ◌-ℤ◌
near_gap = omega arith

heard-ping_ge_example :
    heartbeat_interval ≤ (heard {π = sample} (ℤ.pos 1530) (await_reply (ℤ.pos 1500) near)).ping
heard-ping_ge_example = heard-ping_ge later_busy near (ℤ.pos 1530) near_due (omega arith) near_gap

broadcast-attempts_example :
    (broadcast busy (i8 (ℤ.pos 2) ∷ []) (ℤ.pos 0)).attempts
    ≡ addressed busy.tcp_clients (i8 (ℤ.pos 2) ∷ []) (ℤ.pos 0) busy.client_map
broadcast-attempts_example = broadcast-attempts busy (i8 (ℤ.pos 2) ∷ []) (ℤ.pos 0) refl

-- The UDP client is ignored; the packet goes to the socket of the other.
addressed_far :
    addressed {π = sample} busy.tcp_clients (i8 (ℤ.pos 2) ∷ []) (ℤ.pos 0) busy.client_map
    ≡ tcp_send 40 (i8 (ℤ.pos 2) ∷ []) ∷ []
unfolding addressed lookup
addressed_far = refl

nobody_at_nine : get_client_id busy 9 6000 ≡ null_id
unfolding get_client_id
nobody_at_nine = refl

get_client_id-add_client_example :
    let r = add_client busy udp 9 6000 in
    (r.1 ≡ ℤ.pos 2)
    × (get_client_id r.0 9 6000 ≡ r.1)
    × (has_client busy r.1 ≡ false)
    × ((j : ℤ)
        → lookup j r.0.client_map
          ≡ (if eq_ℤ r.1 j then some (newcomer busy udp 9 6000) else lookup j busy.client_map))
get_client_id-add_client_example =
    get_client_id-add_client busy udp 9 6000 refl (omega arith) busy-Inv nobody_at_nine

known_at_seven : get_client_id busy 7 5000 ≢ null_id
unfolding get_client_id
known_at_seven e = cc

has_client-remove_client_example :
    let r = remove_client busy (ℤ.pos 1) in
    (r.1 ≡ has_client busy (ℤ.pos 1))
    × (has_client r.0 (ℤ.pos 1) ≡ false)
    × ((j : ℤ)
        → lookup j r.0.client_map ≡ (if eq_ℤ (ℤ.pos 1) j then none else lookup j busy.client_map))
has_client-remove_client_example = has_client-remove_client busy (ℤ.pos 1) refl busy-Inv

get_client_info-heartbeat_retry_example :
    let r = get_client_info busy (ℤ.pos 1) near in
    (r.0 ≡ (busy.running && has_client busy (ℤ.pos 1))) × (r.1.heartbeat_retry ≡ 0)
get_client_info-heartbeat_retry_example = get_client_info-heartbeat_retry busy (ℤ.pos 1) near
