-- ===== src/Server/Invariant.antt =====
-- The invariant of the server's clients, and lemmas on it for each operation of Server.cpp.
use sfrpg.Base.{
  ℕ, ◌+◌, ◌%◌, ◌^◌, ◌<◌, ◌≡◌, refl, Bool, true, false, none, some, List, [], ◌∷◌, ℤ, arith,
  if◌then◌else◌, if_ind, option_ind, leb_ℤ, to_i32, to_i32-small, lookup, update, erase, emplace,
  keys, Each, Fresh-lookup, emplace_new, All-map, Each-erase, Each-append, Each-update, Each-lookup,
}
use sfrpg.Platform.{Platform}
use sfrpg.Server.State.{
  NetworkProtocol, ClientInfo, Server, heartbeat_interval, new_client, count_sent, stamp_packet,
  packet_disconnect,
}
use sfrpg.Server.Transport.{find_endpoint}
use sfrpg.Server.Registry.{add_client, dismiss, remove_client, remove_client_at}
use sfrpg.Server.Heartbeat.{
  elapsed, is_expired, is_due, expel, heartbeat_packet, await_reply, send_heartbeat, visit_client,
  visit, sweep, rebase, advance, update_server, heard, accept_heartbeat, heartbeat_from,
}
use sfrpg.Server.Traffic.{SameClients, send-SameClients}
use sfrpg.Server.WellFormed.{
  Issued-next, Elsewhere, UniqueEndpoints, MapOk, MapOk-erase, MapOk-update, MapOk-append,
  find_endpoint-lookup,
}
use sfrpg.Server.Sweep.{Distinct-rebase, keys-rebase}

module _ {π : Platform} where
  open π use {IpAddress, Time, Packet}

  -- A client has been sent one heartbeat more than it answered exactly while it is awaited.
  abbrev pub Beat : ClientInfo π → Type 0
  Beat info = info.heartbeat_retry ≡ (if info.heartbeat_waiting then 1 else 0)

  pub record ClientsOk (n : ℕ) (m : List (ℤ × ClientInfo π)) : Type 0 where
    pub map_ok : MapOk n m
    pub beats : Each Beat m

  abbrev pub Inv : Server π → Type 0
  Inv s = ClientsOk s.last_id s.client_map

  -- No client is known to a server that has just been set up.
  pub empty-ClientsOk : (n : ℕ) → ClientsOk n []
  empty-ClientsOk n = record {
    map_ok = record { distinct = tt; endpoints = tt; issued = tt };
    beats = tt;
  }

  pub SameClients-Inv : {s t : Server π} → SameClients s t → Inv s → Inv t
  SameClients-Inv same h = rw (same.client_map, same.last_id) h

  erase-ClientsOk :
      (n : ℕ) (k : ℤ) (m : List (ℤ × ClientInfo π)) → ClientsOk n m → ClientsOk n (erase k m)
  erase-ClientsOk n k m h = record {
    map_ok = MapOk-erase n k m h.map_ok;
    beats = Each-erase Beat k m h.beats;
  }

  update-ClientsOk :
      (n : ℕ) (k : ℤ) (v w : ClientInfo π) (m : List (ℤ × ClientInfo π))
      → lookup k m ≡ some w
      → v.client_ip ≡ w.client_ip
      → v.client_port ≡ w.client_port
      → Beat v
      → ClientsOk n m
      → ClientsOk n (update k v m)
  update-ClientsOk n k v w m e ip port b h = record {
    map_ok = MapOk-update n k v w m e (record { same_ip = ip; same_port = port }) h.map_ok;
    beats = Each-update Beat k v m h.beats b;
  }

  add_new :
      (s : Server π) (info : ClientInfo π)
      → find_endpoint info.client_ip info.client_port s.client_map ≡ none
      → s.last_id + 1 < 2 ^ 31
      → Beat info
      → Inv s
      → ClientsOk ((s.last_id + 1) % 2 ^ 32) (emplace (to_i32 s.last_id) info s.client_map).0
  add_new s info e room b h =
      let id = to_i32-small s.last_id (omega arith) in
      let fresh = emplace_new (ℤ.pos s.last_id) info s.client_map (
        Fresh-lookup (ℤ.pos s.last_id) s.client_map
          (All-map (Issued-next s.last_id) (keys s.client_map) h.map_ok.issued)) in
      let count : (s.last_id + 1) % 2 ^ 32 ≡ s.last_id + 1 = omega arith in
      rw (id, fresh, count)
        (record {
          map_ok = MapOk-append s.last_id info s.client_map e h.map_ok;
          beats = Each-append Beat (ℤ.pos s.last_id) info s.client_map h.beats b;
        })

  pub add_client-Inv :
      (s : Server π) (l_protocol : NetworkProtocol) (l_ip : IpAddress) (l_port : ℕ)
      → s.last_id + 1 < 2 ^ 31
      → Inv s
      → Inv (add_client s l_protocol l_ip l_port).0
  unfolding add_client
  add_client-Inv s l_protocol l_ip l_port room h =
      if_ind (λ (r : Server π × ℤ). Inv r.0) s.running
        (λ _.
          option_ind (λ (r : Server π × ℤ). Inv r.0) (find_endpoint l_ip l_port s.client_map)
            (λ e. add_new s (new_client l_protocol l_ip l_port s.server_time _) e room refl h)
            (λ found e. h))
        (λ _. h)

  dismiss-Inv : (s : Server π) (id : ℤ) → Inv s → Inv (dismiss s id)
  unfolding dismiss
  dismiss-Inv s id h =
      let same = send-SameClients s id (stamp_packet π packet_disconnect π.new_packet) in
      rw (same.client_map, same.last_id) (erase-ClientsOk s.last_id id s.client_map h)

  pub remove_client-Inv : (s : Server π) (l_client : ℤ) → Inv s → Inv (remove_client s l_client).0
  unfolding remove_client
  remove_client-Inv s l_client h =
      if_ind (λ (r : Server π × Bool). Inv r.0) s.running
        (λ _.
          option_ind (λ (r : Server π × Bool). Inv r.0) (lookup l_client s.client_map) (λ _. h)
            (λ info _. dismiss-Inv s l_client h))
        (λ _. h)

  pub remove_client_at-Inv :
      (s : Server π) (l_ip : IpAddress) (l_port : ℕ)
      → Inv s
      → Inv (remove_client_at s l_ip l_port).0
  unfolding remove_client_at
  remove_client_at-Inv s l_ip l_port h =
      if_ind (λ (r : Server π × Bool). Inv r.0) s.running
        (λ _.
          option_ind (λ (r : Server π × Bool). Inv r.0) (find_endpoint l_ip l_port s.client_map)
            (λ _. h) (λ found _. dismiss-Inv s found.0 h))
        (λ _. h)

  pub heard-Inv :
      (id : ℤ) (info : ClientInfo π) (s : Server π)
      → lookup id s.client_map ≡ some info
      → Inv s
      → Inv (accept_heartbeat id info s)
  unfolding accept_heartbeat heard
  heard-Inv id info s e h =
      if_ind Inv info.heartbeat_waiting
        (λ _. update-ClientsOk s.last_id id _ info s.client_map e refl refl refl h) (λ _. h)

  send_heartbeat-Inv :
      (id : ℤ) (info : ClientInfo π) (s : Server π)
      → lookup id s.client_map ≡ some info
      → info.heartbeat_waiting ≡ false
      → Inv s
      → Inv (send_heartbeat id info s)
  unfolding send_heartbeat await_reply count_sent
  send_heartbeat-Inv id info s e idle h =
      let same = send-SameClients s id (heartbeat_packet s) in
      let silent : info.heartbeat_retry ≡ 0 =
        ground (arith, Each-lookup Beat id info s.client_map h.beats e) in
      rw (same.client_map, same.last_id)
        (update-ClientsOk s.last_id id _ info s.client_map e refl refl (rw silent) h)

  is_due_idle :
      (s : Server π) (info : ClientInfo π) → is_due s info ≡ true → info.heartbeat_waiting ≡ false
  unfolding is_due
  is_due_idle s info e = ground arith

  visit_client-Inv :
      (id : ℤ) (info : ClientInfo π) (s : Server π)
      → lookup id s.client_map ≡ some info
      → Inv s
      → Inv (visit_client id info s)
  unfolding visit_client expel
  visit_client-Inv id info s e h =
      if_ind Inv (leb_ℤ (ℤ.pos heartbeat_interval) (elapsed s info))
        (λ _.
          if_ind Inv (is_expired s info) (λ _. erase-ClientsOk s.last_id id s.client_map h)
            (λ _.
              if_ind Inv (is_due s info)
                (λ due. send_heartbeat-Inv id info s e (is_due_idle s info due) h) (λ _. h)))
        (λ _. h)

  sweep-Inv : (ids : List ℤ) (s : Server π) → Inv s → Inv (sweep ids s)
  unfolding sweep visit
  sweep-Inv [] s h = h
  sweep-Inv (id ∷ ids) s h =
      sweep-Inv ids (visit id s) (
        option_ind Inv (lookup id s.client_map) (λ _. h) (λ info e. visit_client-Inv id info s e h))

  Elsewhere-rebase :
      (ip : IpAddress) (port : ℕ) (m : List (ℤ × ClientInfo π))
      → Elsewhere ip port m
      → Elsewhere ip port (rebase m)
  unfolding rebase
  Elsewhere-rebase ip port [] h = tt
  Elsewhere-rebase ip port ((j, info) ∷ m) h = (h.0, Elsewhere-rebase ip port m h.1)

  UniqueEndpoints-rebase :
      (m : List (ℤ × ClientInfo π)) → UniqueEndpoints m → UniqueEndpoints (rebase m)
  unfolding rebase
  UniqueEndpoints-rebase [] u = tt
  UniqueEndpoints-rebase ((j, info) ∷ m) u =
      (Elsewhere-rebase info.client_ip info.client_port m u.0, UniqueEndpoints-rebase m u.1)

  Beat-rebase : (m : List (ℤ × ClientInfo π)) → Each Beat m → Each Beat (rebase m)
  unfolding rebase
  Beat-rebase [] h = tt
  Beat-rebase ((j, info) ∷ m) h = (h.0, Beat-rebase m h.1)

  rebase-ClientsOk : (n : ℕ) (m : List (ℤ × ClientInfo π)) → ClientsOk n m → ClientsOk n (rebase m)
  rebase-ClientsOk n m h = record {
    map_ok = record {
      distinct = Distinct-rebase m h.map_ok.distinct;
      endpoints = UniqueEndpoints-rebase m h.map_ok.endpoints;
      issued = rw (keys-rebase m) h.map_ok.issued;
    };
    beats = Beat-rebase m h.beats;
  }

  pub advance-Inv : (l_time : Time) (s : Server π) → Inv s → Inv (advance l_time s)
  unfolding advance
  advance-Inv l_time s h = if_ind Inv _ (λ _. rebase-ClientsOk s.last_id s.client_map h) (λ _. h)

  pub update_server-Inv : (l_time : Time) (s : Server π) → Inv s → Inv (update_server l_time s)
  unfolding update_server
  update_server-Inv l_time s h =
      if_ind Inv s.running
        (λ _. sweep-Inv (keys (advance l_time s).client_map) _ (advance-Inv l_time s h)) (λ _. h)

  pub heartbeat_from-Inv :
      (recv_ip : IpAddress) (recv_port : ℕ) (s : Server π)
      → Inv s
      → Inv (heartbeat_from recv_ip recv_port s)
  unfolding heartbeat_from
  heartbeat_from-Inv recv_ip recv_port s h =
      option_ind Inv (find_endpoint recv_ip recv_port s.client_map) (λ _. h)
        (λ found e.
          heard-Inv found.0 found.1 s
            (find_endpoint-lookup recv_ip recv_port s.client_map h.map_ok.distinct e) h)
