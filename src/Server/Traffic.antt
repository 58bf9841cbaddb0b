-- ===== src/Server/Traffic.antt =====
-- What sending leaves alone, and what it puts on the wire.
use sfrpg.Base.{
  ◌≡◌, refl, sym, subst, Option-cases, ◌∙◌, ℕ, Bool, true, false, Option, none, some, inl, inr,
  List, [], ◌∷◌, ◌++◌, ℤ, arith, if◌then◌else◌, Bool-cases, if_ind, option_ind, eq_ℤ, lookup,
}
use mathlib.Core.List.{append-nil, append_assoc}
use sfrpg.Platform.{Platform, Attempt, tcp_send, udp_send}
use sfrpg.Server.State.{NetworkProtocol, tcp, udp, ClientInfo, Server, post}
use sfrpg.Server.Transport.{
  complete, send_tcp, send_client, send, send_found, send_to, find_endpoint, broadcast_from,
  broadcast,
}

module _ {π : Platform} where
  open π use {IpAddress, Packet}

  -- The two states differ in the traffic alone: the log of attempts and the count of bytes sent.
  pub record SameClients (s t : Server π) : Type 0 where
    pub running : t.running ≡ s.running
    pub client_map : t.client_map ≡ s.client_map
    pub tcp_clients : t.tcp_clients ≡ s.tcp_clients
    pub last_id : t.last_id ≡ s.last_id
    pub server_time : t.server_time ≡ s.server_time
    pub total_received : t.total_received ≡ s.total_received
    pub timeout_handler : t.timeout_handler ≡ s.timeout_handler
    pub timeouts : t.timeouts ≡ s.timeouts

  pub SameClients-refl : (s : Server π) → SameClients s s
  SameClients-refl s = ground arith

  pub SameClients-trans : {s t u : Server π} → SameClients s t → SameClients t u → SameClients s u
  SameClients-trans p q = ground arith

  complete-SameClients :
      (p : Packet) (s : Server π) (r : Server π × Bool)
      → SameClients s r.0
      → SameClients s (complete p r).0
  unfolding complete
  complete-SameClients p s (t, true) h = ground arith
  complete-SameClients p s (t, false) h = h

  send_tcp-SameClients :
      (s : Server π) (o : Option ℕ) (p : Packet) → SameClients s (send_tcp s o p).0
  unfolding send_tcp post
  send_tcp-SameClients s none p = SameClients-refl s
  send_tcp-SameClients s (some socket) p =
      complete-SameClients p s (post s (tcp_send socket p)) (ground arith)

  pub send_client-SameClients :
      (s : Server π) (x : NetworkProtocol) (id : ℤ) (info : ClientInfo π) (p : Packet)
      → SameClients s (send_client s x id info p).0
  unfolding send_client post
  send_client-SameClients s tcp id info p = send_tcp-SameClients s (lookup id s.tcp_clients) p
  send_client-SameClients s udp id info p =
      complete-SameClients p s (post s (udp_send info.client_ip info.client_port p)) (ground arith)

  pub send-SameClients : (s : Server π) (id : ℤ) (p : Packet) → SameClients s (send s id p).0
  unfolding send
  send-SameClients s id p =
      if_ind (λ (r : Server π × Bool). SameClients s r.0) s.running
        (λ _.
          option_ind (λ (r : Server π × Bool). SameClients s r.0) (lookup id s.client_map)
            (λ _. SameClients-refl s) (λ info _. send_client-SameClients s info.protocol id info p))
        (λ _. SameClients-refl s)

  send_found-SameClients :
      (s t : Server π) (x : NetworkProtocol) (id : ℤ) (info : ClientInfo π) (p : Packet)
      (done : Bool)
      → send_found s x id info p ≡ some (t, done)
      → SameClients s t
  unfolding send_found post
  send_found-SameClients s t udp id info p done e =
      let sent = complete p (post s (udp_send info.client_ip info.client_port p)) in
      let same =
        complete-SameClients p s (post s (udp_send info.client_ip info.client_port p))
          (ground arith) in
      subst (SameClients s) (let q : sent.0 ≡ t = ground (arith, e) in q) same
  send_found-SameClients s t tcp id info p done e = elim (Option-cases (lookup id s.tcp_clients)) [
    | inl missing ↦ absurd (ground (arith, e, missing))
    | inr (socket, there) ↦
        let sent = complete p (post s (tcp_send socket p)) in
        let same = complete-SameClients p s (post s (tcp_send socket p)) (ground arith) in
        subst (SameClients s) (let q : sent.0 ≡ t = ground (arith, e, there) in q) same
  ]

  pub send_to-SameClients :
      (s t : Server π) (ip : IpAddress) (port : ℕ) (p : Packet) (done : Bool)
      → send_to s ip port p ≡ some (t, done)
      → SameClients s t
  unfolding send_to
  send_to-SameClients s t ip port p done e = elim (Bool-cases s.running) [
    | inl on ↦ elim (Option-cases (find_endpoint ip port s.client_map)) [
      | inl nobody ↦
          subst (SameClients s) (let q : s ≡ t = ground (arith, e, on, nobody) in q)
            (SameClients-refl s)
      | inr (found, there) ↦
          send_found-SameClients s t found.1.protocol found.0 found.1 p done
            (ground (arith, e, on, there))
    ]
    | inr off ↦
        subst (SameClients s) (let q : s ≡ t = ground (arith, e, off) in q) (SameClients-refl s)
  ]

  broadcast_from-SameClients :
      (p : Packet) (l_ignore : ℤ) (m : List (ℤ × ClientInfo π)) (s : Server π)
      → SameClients s (broadcast_from p l_ignore m s)
  unfolding broadcast_from
  broadcast_from-SameClients p l_ignore [] s = SameClients-refl s
  broadcast_from-SameClients p l_ignore ((id, info) ∷ m) s =
      SameClients-trans
        (if_ind (SameClients s) (eq_ℤ id l_ignore) (λ _. SameClients-refl s)
          (λ _. send_client-SameClients s info.protocol id info p))
        (broadcast_from-SameClients p l_ignore m _)

  pub broadcast-SameClients :
      (s : Server π) (p : Packet) (l_ignore : ℤ) → SameClients s (broadcast s p l_ignore)
  unfolding broadcast
  broadcast-SameClients s p l_ignore =
      if_ind (SameClients s) s.running (λ _. broadcast_from-SameClients p l_ignore s.client_map s)
        (λ _. SameClients-refl s)

  -- What one client is sent: nothing, if it is a TCP client without a socket.
  unfoldable pub attempt_for :
      List (ℤ × ℕ) → Packet → NetworkProtocol → ℤ → ClientInfo π → List (Attempt IpAddress Packet)
  attempt_for sockets p tcp id info = elim (lookup id sockets) [
    | none ↦ []
    | some socket ↦ tcp_send socket p ∷ []
  ]
  attempt_for sockets p udp id info = udp_send info.client_ip info.client_port p ∷ []

  unfoldable pub addressed :
      List (ℤ × ℕ) → Packet → ℤ → List (ℤ × ClientInfo π) → List (Attempt IpAddress Packet)
  unfolding attempt_for
  addressed sockets p l_ignore [] = []
  addressed sockets p l_ignore ((id, info) ∷ m) =
      (if eq_ℤ id l_ignore then [] else attempt_for sockets p info.protocol id info)
      ++ addressed sockets p l_ignore m

  complete-attempts : (p : Packet) (r : Server π × Bool) → (complete p r).0.attempts ≡ r.0.attempts
  unfolding complete
  complete-attempts p (s, true) = refl
  complete-attempts p (s, false) = refl

  pub send_client-attempts :
      (s : Server π) (x : NetworkProtocol) (id : ℤ) (info : ClientInfo π) (p : Packet)
      → (send_client s x id info p).0.attempts ≡ s.attempts ++ attempt_for s.tcp_clients p x id info
  unfolding send_client send_tcp attempt_for post
  send_client-attempts s udp id info p =
      complete-attempts p (post s (udp_send info.client_ip info.client_port p))
  send_client-attempts s tcp id info p = go (lookup id s.tcp_clients)
    where
      go :
          (o : Option ℕ)
          → (send_tcp s o p).0.attempts
            ≡ s.attempts ++ elim o as (λ _. List (Attempt IpAddress Packet)) [
              | none ↦ []
              | some socket ↦ tcp_send socket p ∷ []
            ]
      go none = sym (append-nil s.attempts)
      go (some socket) = complete-attempts p (post s (tcp_send socket p))

  broadcast_from-attempts :
      (p : Packet) (l_ignore : ℤ) (m : List (ℤ × ClientInfo π)) (s : Server π)
      → (broadcast_from p l_ignore m s).attempts
        ≡ s.attempts ++ addressed s.tcp_clients p l_ignore m
  unfolding broadcast_from addressed
  broadcast_from-attempts p l_ignore [] s = sym (append-nil s.attempts)
  broadcast_from-attempts p l_ignore ((id, info) ∷ m) s = elim (Bool-cases (eq_ℤ id l_ignore)) [
    | inl skip ↦ simp skip (broadcast_from-attempts p l_ignore m s)
    | inr speak ↦
        let sent = send_client s info.protocol id info p in
        let same = send_client-SameClients s info.protocol id info p in
        simp speak (
          broadcast_from-attempts p l_ignore m sent.0
          ∙ rw (send_client-attempts s info.protocol id info p, same.tcp_clients)
              (append_assoc s.attempts _ _))
  ]

  -- A broadcast of a running server makes one attempt for each known client but the ignored one and
  -- the TCP clients without a socket, through that client's socket or to its address, in the order of
  -- the client map, whatever the attempts before it came to.
  pub broadcast-attempts :
      (s : Server π) (p : Packet) (l_ignore : ℤ)
      → s.running ≡ true
      → (broadcast s p l_ignore).attempts
        ≡ s.attempts ++ addressed s.tcp_clients p l_ignore s.client_map
  unfolding broadcast
  broadcast-attempts s p l_ignore r = simp r (broadcast_from-attempts p l_ignore s.client_map s)
