-- ===== src/Client/Clock.antt =====
-- The client's connection: when it is made, and when it is kept.
use sfrpg.Base.{
  ◌≡◌, refl, true, false, not, none, some, List, [], ◌∷◌, ◌++◌, ℤ, ◌-ℤ◌, ltb_ℤ, arith, All, ◌↔◌,
  Option-cases, eq_ℤ_iff, inl, inr,
}
use sfrpg.Platform.{Platform}
use sfrpg.Server.State.{client_timeout, packet_connect, NetworkProtocol, tcp, udp}
use sfrpg.Client.{
  Client, ClientHandler, Reception, packet_from, lost, nothing, disconnect, accepts, await_connect,
  leave, post_to_server, update_client,
}

module _ {π : Platform} where
  open π use {IpAddress, Time, Packet, time_add, as_milliseconds, read_i8, ip_eq_iff}

  leave-server_time : (x : NetworkProtocol) (c : Client π) → (leave x c).server_time ≡ c.server_time
  unfolding leave post_to_server
  leave-server_time tcp c = refl
  leave-server_time udp c = refl

  disconnect_lem :
      (c : Client π)
      → ((disconnect c).0.connected ≡ false) × ((disconnect c).0.server_time ≡ c.server_time)
  unfolding disconnect
  disconnect_lem c = ground (arith, leave-server_time c.protocol c)

  -- While the clock does not start over, an update keeps a connected client exactly when it heard a
  -- heartbeat within the timeout, the timeout itself included; the clock goes on in both cases.
  pub update_client-connected :
      (c : Client π) (l_time : Time)
      → c.connected ≡ true
      → ltb_ℤ (as_milliseconds (time_add c.server_time l_time)) (ℤ.pos 0) ≡ false
      → ((update_client l_time c).connected
          ≡ not (
              ltb_ℤ client_timeout (
                as_milliseconds (time_add c.server_time l_time)
                -ℤ as_milliseconds c.last_heartbeat)))
        × ((update_client l_time c).server_time ≡ time_add c.server_time l_time)
  unfolding update_client
  update_client-connected c l_time on forward =
      let now = record c { server_time = time_add c.server_time l_time } in
      ground (arith, disconnect_lem now)

  -- A packet from the server with the type Connect, of which `rest` is what follows the type.
  abbrev pub Greets : Client π → Reception IpAddress Packet → Packet → Type 0
  Greets c (packet_from ip p) rest = (ip ≡ c.server_ip) × (read_i8 p ≡ some (packet_connect, rest))
  Greets c lost rest = ⊥
  Greets c nothing rest = ⊥

  accepts-Greets :
      (c : Client π) (r : Reception IpAddress Packet) (rest : Packet)
      → (accepts c r ≡ some rest) ↔ Greets c r rest
  unfolding accepts
  accepts-Greets c lost rest = (λ e. ground (arith, e), λ b. absurd b)
  accepts-Greets c nothing rest = (λ e. ground (arith, e), λ b. absurd b)
  accepts-Greets c (packet_from ip p) rest = (
    λ e. elim (Option-cases (read_i8 p)) [
      | inl empty ↦ absurd (ground (arith, e, empty))
      | inr (typed, reads) ↦
          ground (arith, e, reads, ip_eq_iff ip c.server_ip, eq_ℤ_iff typed.0 packet_connect)
    ],
    λ h. rw ((ip_eq_iff ip c.server_ip).1 h.0, h.1) refl,
  )

  -- Before the server's answer to a UDP connection everything else that arrives is passed over: the
  -- client is connected exactly by the first packet from the server with the type Connect.
  pub await_connect_first :
      (handler : ClientHandler π) (c : Client π) (before after : List (Reception IpAddress Packet))
      (r : Reception IpAddress Packet) (p : Packet)
      → All (λ x. (q : Packet) → ¬ (Greets c x q)) before
      → Greets c r p
      → (await_connect handler before c ≡ (c, false))
        × (await_connect handler (before ++ r ∷ after) c ≡ (
          record (handler packet_connect p c) {
            connected = true;
            last_heartbeat = (handler packet_connect p c).server_time;
          },
          true,
        ))
  unfolding await_connect
  await_connect_first handler c [] after r p passed greets =
      let e = (accepts-Greets c r p).1 greets in (refl, rw (e, await_connect))
  await_connect_first handler c (x ∷ before) after r p passed greets =
      let rest = await_connect_first handler c before after r p passed.1 greets in
      let silent : accepts c x ≡ none = elim (Option-cases (accepts c x)) [
        | inl nothing_said ↦ nothing_said
        | inr (q, said) ↦ absurd (passed.0 q ((accepts-Greets c x q).0 said))
      ] in
      (rw (silent, await_connect) rest.0, rw (silent, await_connect) rest.1)
