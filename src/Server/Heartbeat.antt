-- ===== src/Server/Heartbeat.antt =====
-- server/Server.cpp: Server::update, and what the listeners do with a heartbeat packet. Times are
-- read as milliseconds. The differences are of two int32 values at least 0 in every use, so they
-- stay in range.
use sfrpg.Base.{
  ℕ, ◌+◌, ◌*◌, ◌%◌, ◌^◌, Bool, true, false, not, ◌&&◌, ◌||◌, ltb, ◌==◌, if◌then◌else◌, none, some,
  List, [], ◌∷◌, ◌++◌, ℤ, ◌-ℤ◌, ltb_ℤ, leb_ℤ, abs_ℤ, to_u32, lookup, update, erase, keys,
}
use sfrpg.Platform.{Platform, i32}
use sfrpg.Server.State.{
  ClientInfo, Server, client_timeout, highest_timestamp, heartbeat_interval, heartbeat_retries,
  packet_heartbeat, stamp_packet, count_sent,
}
use sfrpg.Server.Transport.{send, find_endpoint}

module _ {π : Platform} where
  open π use {
    IpAddress, Time, Packet, new_packet, write, time_add, time_sub, milliseconds, as_milliseconds,
  }

  -- Milliseconds since the client was last heard.
  unfoldable pub elapsed : Server π → ClientInfo π → ℤ
  elapsed s info = as_milliseconds s.server_time -ℤ as_milliseconds info.last_heartbeat

  unfoldable pub is_expired : Server π → ClientInfo π → Bool
  is_expired s info =
      leb_ℤ client_timeout (elapsed s info) || ltb heartbeat_retries info.heartbeat_retry

  unfoldable pub is_due : Server π → ClientInfo π → Bool
  is_due s info =
      not info.heartbeat_waiting
      && leb_ℤ (ℤ.pos (heartbeat_interval * (info.heartbeat_retry + 1))) (elapsed s info)

  unfoldable pub expel : ℤ → Server π → Server π
  expel id s = record s {
    timeouts = if s.timeout_handler then s.timeouts ++ id ∷ [] else s.timeouts;
    client_map = erase id s.client_map;
  }

  unfoldable pub heartbeat_packet : Server π → Packet
  heartbeat_packet s =
      write (stamp_packet π packet_heartbeat new_packet) (i32 (as_milliseconds s.server_time))

  -- The client's record once a heartbeat is on its way.
  unfoldable pub await_reply : Time → ClientInfo π → ClientInfo π
  await_reply now info = record info {
    heartbeat_sent = if info.heartbeat_retry == 0 then now else info.heartbeat_sent;
    heartbeat_waiting = true;
    heartbeat_retry = (info.heartbeat_retry + 1) % 2 ^ 16;
  }

  unfoldable pub send_heartbeat : ℤ → ClientInfo π → Server π → Server π
  send_heartbeat id info s =
      let sent = (send s id (heartbeat_packet s)).0 in
      count_sent
        (record sent { client_map = update id (await_reply sent.server_time info) sent.client_map })
        (heartbeat_packet s)

  -- The body of the loop in Server::update.
  unfoldable pub visit_client : ℤ → ClientInfo π → Server π → Server π
  visit_client id info s =
      if leb_ℤ (ℤ.pos heartbeat_interval) (elapsed s info)
      then if is_expired s info
        then expel id s
        else if is_due s info
        then send_heartbeat id info s
        else s
      else s

  unfoldable pub visit : ℤ → Server π → Server π
  visit id s = elim (lookup id s.client_map) [ none ↦ s | some info ↦ visit_client id info s ]

  -- The loop, over the keys: an erasure takes out the current entry only.
  unfoldable pub sweep : List ℤ → Server π → Server π
  sweep [] s = s
  sweep (id ∷ ids) s = sweep ids (visit id s)

  unfoldable pub rebase : List (ℤ × ClientInfo π) → List (ℤ × ClientInfo π)
  rebase [] = []
  rebase ((id, info) ∷ m) =
      (
        id,
        record info {
          last_heartbeat =
              milliseconds (abs_ℤ (as_milliseconds info.last_heartbeat -ℤ highest_timestamp));
        },
      )
      ∷ rebase m

  -- The clock goes on, and starts over when its milliseconds no longer fit.
  unfoldable pub advance : Time → Server π → Server π
  advance l_time s =
      let now = time_add s.server_time l_time in
      if ltb_ℤ (as_milliseconds now) (ℤ.pos 0)
      then record s {
        server_time = time_sub now (milliseconds highest_timestamp);
        client_map = rebase s.client_map;
      }
      else record s { server_time = now }

  -- Server::update
  unfoldable pub update_server : Time → Server π → Server π
  update_server l_time s =
      if s.running then (let now = advance l_time s in sweep (keys now.client_map) now) else s

  -- The client's record once its heartbeat has come back.
  unfoldable pub heard : Time → ClientInfo π → ClientInfo π
  heard now info = record info {
    ping = to_u32 (as_milliseconds now -ℤ as_milliseconds info.last_heartbeat);
    heartbeat_waiting = false;
    last_heartbeat = now;
    heartbeat_retry = 0;
  }

  -- A heartbeat that nobody waits for is dropped.
  unfoldable pub accept_heartbeat : ℤ → ClientInfo π → Server π → Server π
  accept_heartbeat id info s =
      if info.heartbeat_waiting
      then record s { client_map = update id (heard s.server_time info) s.client_map }
      else s

  -- The branch of udpListen for a heartbeat.
  unfoldable pub heartbeat_from : IpAddress → ℕ → Server π → Server π
  heartbeat_from recv_ip recv_port s = elim (find_endpoint recv_ip recv_port s.client_map) [
    | none ↦ s
    | some (id, info) ↦ accept_heartbeat id info s
  ]
