-- ===== src/Game/LeaveLaws.antt =====
-- World::handlePacket of server/World.cpp for a player who leaves.
use sfrpg.Base.{
  ℕ, ◌≡◌, refl, ◌∙◌, Bool, true, false, if◌then◌else◌, none, some, List, [], ◌∷◌, ℤ, eq_ℤ,
  eq_ℤ_refl, leb_ℤ, arith, option_ind, lookup, lookup-update, All, All-map, if_ind,
}
use sfrpg.Platform.{Platform}
use sfrpg.Server.State.{packet_disconnect}
use sfrpg.Server.Registry.{get_client_id}
use sfrpg.Ecs.Components.{Junk}
use sfrpg.Ecs.State.{EntityData, SystemBase, World, done, network_system}
use sfrpg.Ecs.Systems.{has_member, find_system, leave_systems, fits_requirements, matches_any}
use sfrpg.Ecs.Entities.{notify_removed, remove_entity}
use sfrpg.Ecs.Members.{matches_any_empty}
use sfrpg.Ecs.Membership.{WorldOk, fits_entity, told-entities}
use sfrpg.Ecs.History.{remove_entity-WorldOk}
use sfrpg.Ecs.StateSystem.{in_system}
use sfrpg.Ecs.Network.{entity_of_client}
use sfrpg.Game.Stream.{FloatScan}
use sfrpg.Game.EntityFile.{Files}
use sfrpg.Game.Session.{runs, client_leave, handle_world_packet}

in_none :
    (l_id : ℕ) (e : ℤ) (ss : List SystemBase)
    → All (λ s. has_member s e ≡ false) ss
    → (elim (find_system l_id ss) [ none ↦ false | some s ↦ has_member s e ]) ≡ false
unfolding find_system
in_none l_id e [] h = refl
in_none l_id e (s ∷ ss) h = ground (arith, h.0, in_none l_id e ss h.1)

module _ {π : Platform} where
  -- What is left of an entity that was removed.
  abbrev pub bare : EntityData π → EntityData π
  bare d = record d { bitmask = 0; components = [] }

  bare_unheld :
      (l_id : ℕ) (e : ℤ) (d : EntityData π) (t : World π)
      → WorldOk t
      → lookup e t.entities ≡ some (bare d)
      → in_system l_id e t ≡ false
  unfolding in_system fits_entity fits_requirements matches_any
  bare_unheld l_id e d t ok there = in_none l_id e t.systems (
      All-map (λ s h. h.agrees e ∙ rw (there) (matches_any_empty s.required h.demands)) t.systems
        ok.systems_ok)

  removed-server : (e : ℤ) (w : World π) → (remove_entity e w).0.server ≡ w.server
  unfolding remove_entity leave_systems notify_removed
  removed-server e w =
      let P = λ (t : World π). t.server ≡ w.server in
      option_ind (λ (r : World π × Bool). P r.0) (lookup e w.entities) (λ missing. refl)
        (λ d known.
          option_ind P (find_system network_system w.systems) (λ none_there. refl)
            (λ s found. if_ind P (has_member s e) (λ inside. refl) (λ outside. refl)))

  removed-lookup :
      (e j : ℤ) (d : EntityData π) (w : World π)
      → lookup e w.entities ≡ some d
      → lookup j (remove_entity e w).0.entities
        ≡ (if eq_ℤ e j then some (bare d) else lookup j w.entities)
  unfolding remove_entity leave_systems
  removed-lookup e j d w known =
      rw (known, remove_entity, (told-entities e w).0)
        (lookup-update e j (bare d) d w.entities known)

  module _ (scan : FloatScan π.Float) (junk : Junk) (files : Files) where
    leaves :
        (stale : ℤ) (ip : π.IpAddress) (port : ℕ) (p : π.Packet) (w : World π) (cid e : ℤ)
        → get_client_id w.server ip port ≡ cid
        → leb_ℤ (ℤ.pos 0) cid ≡ true
        → entity_of_client cid w ≡ done e
        → handle_world_packet scan junk files stale ip port packet_disconnect p w
          ≡ runs (remove_entity e w).0
    unfolding handle_world_packet client_leave
    leaves stale ip port p w cid e knows is_id plays =
        rw (knows, is_id, handle_world_packet, plays) refl

    -- The packet Disconnect from a client that the server knows and that plays an entity, in a world
    -- whose systems hold what their requirements say: afterwards no system holds the entity, whose
    -- place in the map stays, without components; the other entities are as they were. The server is
    -- as it was, so it still knows the client by its address.
    pub handle_world_packet-leaves :
        (stale : ℤ) (ip : π.IpAddress) (port : ℕ) (p : π.Packet) (w : World π) (cid e : ℤ)
        (d : EntityData π)
        → WorldOk w
        → get_client_id w.server ip port ≡ cid
        → leb_ℤ (ℤ.pos 0) cid ≡ true
        → entity_of_client cid w ≡ done e
        → lookup e w.entities ≡ some d
        → (t : World π) × (handle_world_packet scan junk files stale ip port packet_disconnect p w
            ≡ runs t)
          × ((l_id : ℕ) → in_system l_id e t ≡ false)
          × ((j : ℤ)
              → lookup j t.entities ≡ (if eq_ℤ e j then some (bare d) else lookup j w.entities))
          × (get_client_id t.server ip port ≡ cid)
    handle_world_packet-leaves stale ip port p w cid e d ok knows is_id plays known =
        let t = (remove_entity e w).0 in
        let entities = λ (j : ℤ). removed-lookup e j d w known in
        let gone = entities e ∙ rw (eq_ℤ_refl e) refl in
        (
          t,
          leaves stale ip port p w cid e knows is_id plays,
          λ (l_id : ℕ). bare_unheld l_id e d t (remove_entity-WorldOk e w ok) gone,
          entities,
          rw (removed-server e w) knows,
        )
