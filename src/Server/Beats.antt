-- ===== src/Server/Beats.antt =====
-- The heartbeats that Server::update of server/Server.cpp sends.
use mathlib.Core.List.{append-nil, append_assoc}
use sfrpg.Base.{
  ◌≡◌, refl, sym, ◌∙◌, inl, inr, Bool, true, false, not, ◌&&◌, ◌||◌, ltb, some, List, [], ◌∷◌, ◌++◌,
  ℕ, ◌+◌, ◌*◌, ℤ, ◌-ℤ◌, arith, if◌then◌else◌, Bool-cases, leb_ℤ, eq_ℤ, eq_ℤ_refl, eq_ℤ_iff, lookup,
  keys, Distinct,
}
use sfrpg.Platform.{Platform, Attempt, i32}
use sfrpg.Server.State.{ClientInfo, Server, packet_heartbeat, stamp_packet, count_sent}
use sfrpg.Server.Transport.{send}
use sfrpg.Server.Heartbeat.{
  elapsed, is_expired, is_due, expel, heartbeat_packet, send_heartbeat, visit_client, visit, sweep,
  rebase, advance, update_server,
}
use sfrpg.Server.Traffic.{attempt_for, send_client-attempts, send-SameClients}
use sfrpg.Server.Visit.{listed, Unlisted, Unlisted-keys, visit-Stored}
use sfrpg.Server.Sweep.{Distinct-advance, starts_over, next_time, advance_lem}

-- The packet Heartbeat with a time.
abbrev pub beat : (π : Platform) → π.Time → π.Packet
beat π now = π.write (stamp_packet π packet_heartbeat π.new_packet) (i32 (π.as_milliseconds now))

module _ {π : Platform} where
  open π use {IpAddress, Time, Packet, new_packet, write, as_milliseconds}

  -- Whether a client is to get a heartbeat at the time `now`.
  abbrev pub needs_beat : Time → ClientInfo π → Bool
  needs_beat now info =
      let age = as_milliseconds now -ℤ as_milliseconds info.last_heartbeat in
      leb_ℤ (ℤ.pos 1000) age
      && not (leb_ℤ (ℤ.pos 10000) age || ltb 5 info.heartbeat_retry)
      && not info.heartbeat_waiting
      && leb_ℤ (ℤ.pos (1000 * (info.heartbeat_retry + 1))) age

  abbrev pub beat_for : List (ℤ × ℕ) → Time → ℤ → ClientInfo π → List (Attempt IpAddress Packet)
  beat_for sockets now id info =
      if needs_beat now info then attempt_for sockets (beat π now) info.protocol id info else []

  unfoldable pub beats :
      List (ℤ × ℕ) → Time → List (ℤ × ClientInfo π) → List (Attempt IpAddress Packet)
  beats sockets now [] = []
  beats sockets now ((id, info) ∷ m) = beat_for sockets now id info ++ beats sockets now m

  -- What a visit leaves alone, and what it sends.
  record Visited (s t : Server π) (sent : List (Attempt IpAddress Packet)) : Type 0 where
    still_running : t.running ≡ s.running
    same_sockets : t.tcp_clients ≡ s.tcp_clients
    same_time : t.server_time ≡ s.server_time
    tried : t.attempts ≡ s.attempts ++ sent

  idle-Visited : (s : Server π) → Visited s s []
  idle-Visited s = record {
    still_running = refl;
    same_sockets = refl;
    same_time = refl;
    tried = sym (append-nil s.attempts);
  }

  expel-Visited : (k : ℤ) (s : Server π) → Visited s (expel k s) []
  unfolding expel
  expel-Visited k s = record {
    still_running = refl;
    same_sockets = refl;
    same_time = refl;
    tried = sym (append-nil s.attempts);
  }

  send-attempts :
      (k : ℤ) (info : ClientInfo π) (p : Packet) (s : Server π)
      → s.running ≡ true
      → lookup k s.client_map ≡ some info
      → (send s k p).0.attempts ≡ s.attempts ++ attempt_for s.tcp_clients p info.protocol k info
  unfolding send
  send-attempts k info p s on known = rw (on, known) (send_client-attempts s info.protocol k info p)

  send_heartbeat-Visited :
      (k : ℤ) (info : ClientInfo π) (s : Server π)
      → s.running ≡ true
      → lookup k s.client_map ≡ some info
      → Visited s
          (send_heartbeat k info s)
          (attempt_for s.tcp_clients (beat π s.server_time) info.protocol k info)
  unfolding send_heartbeat count_sent heartbeat_packet
  send_heartbeat-Visited k info s on known =
      let same = send-SameClients s k (beat π s.server_time) in
      record {
        still_running = same.running;
        same_sockets = same.tcp_clients;
        same_time = same.server_time;
        tried = send-attempts k info (beat π s.server_time) s on known;
      }

  visit_client-Visited :
      (k : ℤ) (info : ClientInfo π) (s : Server π)
      → s.running ≡ true
      → lookup k s.client_map ≡ some info
      → Visited s (visit_client k info s) (beat_for s.tcp_clients s.server_time k info)
  unfolding visit_client elapsed is_expired is_due
  visit_client-Visited k info s on known = elim (Bool-cases (leb_ℤ (ℤ.pos 1000) (elapsed s info))) [
    | inr fresh ↦ rw fresh (idle-Visited s)
    | inl old ↦ elim (Bool-cases (is_expired s info)) [
      | inl gone ↦ rw (old, gone) (expel-Visited k s)
      | inr here ↦ elim (Bool-cases (is_due s info)) [
        | inl due ↦ rw (old, here, due) (send_heartbeat-Visited k info s on known)
        | inr later ↦ rw (old, here, later) (idle-Visited s)
      ]
    ]
  ]

  -- Every entry of the first list is found in the second.
  abbrev Found : (m n : List (ℤ × ClientInfo π)) → Type 0
  Found [] n = Unit
  Found ((id, info) ∷ m) n = (lookup id n ≡ some info) × Found m n

  Found-elsewhere :
      (k : ℤ) (m n o : List (ℤ × ClientInfo π))
      → listed k (keys m) ≡ false
      → ((j : ℤ) → eq_ℤ k j ≡ false → lookup j o ≡ lookup j n)
      → Found m n
      → Found m o
  unfolding listed
  Found-elsewhere k [] n o unlisted same h = tt
  Found-elsewhere k ((id, info) ∷ m) n o unlisted same h = (
    same id (ground (arith, eq_ℤ_iff k id, eq_ℤ_iff id k, unlisted)) ∙ h.0,
    Found-elsewhere k m n o (ground (arith, unlisted)) same h.1,
  )

  Found-self : (m : List (ℤ × ClientInfo π)) → Unlisted (keys m) → Found m m
  unfolding lookup
  Found-self [] u = tt
  Found-self ((k, info) ∷ m) u = (
    rw (eq_ℤ_refl k) refl,
    Found-elsewhere k m m ((k, info) ∷ m) u.0 (λ j e. rw e refl) (Found-self m u.1),
  )

  sweep-attempts :
      (m : List (ℤ × ClientInfo π)) (s : Server π)
      → s.running ≡ true
      → Distinct s.client_map
      → Unlisted (keys m)
      → Found m s.client_map
      → (sweep (keys m) s).attempts ≡ s.attempts ++ beats s.tcp_clients s.server_time m
  unfolding sweep beats visit
  sweep-attempts [] s on distinct u h = sym (append-nil s.attempts)
  sweep-attempts ((k, info) ∷ m) s on distinct u h =
      let seen = visit_client-Visited k info s on h.0 in
      let stored = visit-Stored k s distinct in
      let t = visit k s in
      let is_visit : t ≡ visit_client k info s = rw (h.0, visit) refl in
      let visited : Visited s t (beat_for s.tcp_clients s.server_time k info) = rw is_visit seen in
      let others =
        Found-elsewhere k m s.client_map t.client_map u.0 (λ j e. stored.looked_up j ∙ rw e refl)
          h.1 in
      sweep-attempts m t (visited.still_running ∙ on) stored.distinct u.1 others
      ∙ rw (visited.tried, visited.same_sockets, visited.same_time) (append_assoc s.attempts _ _)

  advance-kept :
      (l_time : Time) (s : Server π)
      → let now = advance l_time s in
        (now.running ≡ s.running)
        × (now.tcp_clients ≡ s.tcp_clients)
        × (now.attempts ≡ s.attempts)
        × (now.client_map ≡ (if starts_over l_time s then rebase s.client_map else s.client_map))
  unfolding advance
  advance-kept l_time s = elim (Bool-cases (starts_over l_time s)) [
    | inl e ↦ rw e (refl, refl, refl, refl)
    | inr e ↦ rw e (refl, refl, refl, refl)
  ]

  -- An update of a running server whose identifiers are distinct attempts one heartbeat, with the new
  -- time, to each client that was heard at least one and less than ten seconds ago, has at most five
  -- retries, is not waited for, and was last heard at least as many seconds ago as its next retry
  -- counts; in the order of the client map, through the client's socket or to its address, whatever
  -- the attempts before it came to. A TCP client without a socket gets none.
  pub update_server-attempts :
      (l_time : Time) (s : Server π)
      → s.running ≡ true
      → Distinct s.client_map
      → (update_server l_time s).attempts
        ≡ s.attempts
          ++ beats s.tcp_clients
              (next_time l_time s)
              (if starts_over l_time s then rebase s.client_map else s.client_map)
  unfolding update_server
  update_server-attempts l_time s on distinct =
      let now = advance l_time s in
      let d = Distinct-advance l_time s distinct in
      let u = Unlisted-keys now.client_map d in
      let kept = advance-kept l_time s in
      let sent =
        sweep-attempts now.client_map now (kept.0 ∙ on) d u (Found-self now.client_map u) in
      let same_time = (advance_lem l_time s (ℤ.pos 0)).0 in
      let expected : now.attempts ++ beats now.tcp_clients now.server_time now.client_map
          ≡ s.attempts
            ++ beats s.tcp_clients (next_time l_time s)
                (if starts_over l_time s then rebase s.client_map else s.client_map) =
        rw (kept.1, kept.2, kept.3, same_time) refl in
      simp on (sent ∙ expected)
