-- ===== src/Game/SessionLaws.antt =====
-- World::handlePacket of server/World.cpp for an address at which the server knows no client.
use sfrpg.Base.{ℕ, ◌≡◌, refl, ◌⊎◌, inl, inr, false, none, ℤ, eq_ℤ, Option-cases, if_ind}
use sfrpg.Platform.{Platform}
use sfrpg.Server.State.{Server, udp, null_id, packet_connect}
use sfrpg.Server.Transport.{send_to}
use sfrpg.Server.Registry.{add_client, get_client_id}
use sfrpg.Ecs.Components.{Junk}
use sfrpg.Ecs.State.{World}
use sfrpg.Game.Stream.{FloatScan}
use sfrpg.Game.EntityFile.{Files}
use sfrpg.Game.Session.{runs, connect_player, handle_world_packet}

module _ {π : Platform} where
  stopped_add_client :
      (s : Server π) (ip : π.IpAddress) (port : ℕ)
      → s.running ≡ false
      → add_client s udp ip port ≡ (s, null_id)
  unfolding add_client
  stopped_add_client s ip port off = rw (off, add_client) refl

  module _ (scan : FloatScan π.Float) (junk : Junk) (files : Files) where
    refused :
        (ip : π.IpAddress) (port : ℕ) (p : π.Packet) (w : World π)
        → (π.read_str p ≡ none) ⊎ (w.server.running ≡ false)
        → connect_player scan junk files ip port p w ≡ runs w
    unfolding connect_player send_to
    refused ip port p w (inl nameless) = rw (nameless, connect_player) refl
    refused ip port p w (inr off) = elim (Option-cases (π.read_str p)) [
      | inl nameless ↦ rw (nameless, connect_player) refl
      | inr (named, reads) ↦
          rw (reads, connect_player, stopped_add_client w.server ip port off, off) refl
    ]

    -- A packet from an address at which the server knows no client changes nothing and sends nothing,
    -- if it is not Connect, or carries no name, or the server is stopped: the packet Disconnect for a
    -- refused client goes to nobody.
    pub handle_world_packet-unknown :
        (stale : ℤ) (ip : π.IpAddress) (port : ℕ) (l_id : ℤ) (p : π.Packet) (w : World π)
        → get_client_id w.server ip port ≡ null_id
        → (eq_ℤ l_id packet_connect ≡ false) ⊎ ((π.read_str p ≡ none) ⊎ (w.server.running ≡ false))
        → handle_world_packet scan junk files stale ip port l_id p w ≡ runs w
    unfolding handle_world_packet
    handle_world_packet-unknown stale ip port l_id p w unknown (inl other) =
        rw (unknown, other, handle_world_packet) refl
    handle_world_packet-unknown stale ip port l_id p w unknown (inr why) =
        rw (unknown, handle_world_packet)
          (if_ind (λ o. o ≡ runs w) (eq_ℤ l_id packet_connect) (λ asks. refused ip port p w why)
            (λ other. refl))
