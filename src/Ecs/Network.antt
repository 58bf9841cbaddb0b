-- ===== src/Ecs/Network.antt =====
-- server/S_Network.cpp: which client plays which entity, and the input turned into messages.
use sfrpg.Base.{
  ℕ, ◌≡◌, refl, ◌∙◌, Bool, true, false, if◌then◌else◌, Option, none, some, List, [], ◌∷◌, ◌++◌, ℤ,
  eq_ℤ, eq_ℤ_refl, ltb_ℤ, arith, lookup,
}
use sfrpg.Platform.{Platform}
use sfrpg.Server.State.{null_id}
use sfrpg.Ecs.Components.{Part, get_type, client_part, client_id}
use sfrpg.Ecs.State.{PlayerInput, World, Outcome, done, null_access, network_system}
use sfrpg.Ecs.Systems.{find_system}
use sfrpg.Ecs.Entities.{get_component}
use sfrpg.Ecs.Parts.{set_part, set_part-systems, get_component-set_part}
use sfrpg.Ecs.StateSystem.{and_then, in_system, notify_move, notify_attack}

-- PlayerInput::PlayerInput
abbrev pub no_input : PlayerInput
no_input = record { moved_x = ℤ.pos 0; moved_y = ℤ.pos 0; attacks = false }

module _ {π : Platform} where
  abbrev as_client : Option (Part π) → Option ℤ
  as_client (some (client_part c)) = some c
  as_client _ = none

  unfoldable pub client_of : World π → ℤ → Option ℤ
  client_of w e = as_client (get_component w e client_id)

  -- S_Network::registerClientID
  unfoldable pub register_client_id : ℤ → ℤ → World π → Outcome (World π × Bool)
  unfolding set_part
  register_client_id l_entity l_client w =
      if in_system network_system l_entity w
      then elim (client_of w l_entity) [
        | none ↦ null_access
        | some old ↦ done (set_part l_entity (client_part l_client) w, true)
      ]
      else done (w, false)

  -- S_Network::getClientID
  unfoldable pub client_id_of : ℤ → World π → Outcome ℤ
  client_id_of l_entity w =
      if in_system network_system l_entity w
      then elim (client_of w l_entity) [ none ↦ null_access | some c ↦ done c ]
      else done null_id

  -- The search of getEntityId.
  unfoldable pub find_client : ℤ → List ℤ → World π → Outcome ℤ
  find_client l_client [] w = done null_id
  find_client l_client (e ∷ es) w = elim (client_of w e) [
    | none ↦ null_access
    | some c ↦ if eq_ℤ c l_client then done e else find_client l_client es w
  ]

  -- S_Network::getEntityId
  unfoldable pub entity_of_client : ℤ → World π → Outcome ℤ
  unfolding find_client find_system
  entity_of_client l_client w = elim (find_system network_system w.systems) [
    | none ↦ done null_id
    | some s ↦ find_client l_client s.members w
  ]

  -- The messages that an entity's input leads to: the direction along x, the direction along y, and
  -- the attack. `junk` is the event for a direction that no branch sets.
  unfoldable pub play_x : ℕ → ℕ → ℤ → PlayerInput → World π → Outcome (World π)
  unfolding notify_move
  play_x n junk e player w =
      if eq_ℤ player.moved_x (ℤ.pos 0)
      then done w
      else notify_move n junk e (if ltb_ℤ (ℤ.pos 0) player.moved_x then ℤ.pos 3 else ℤ.pos 1) w

  unfoldable pub play_y : ℕ → ℕ → ℤ → PlayerInput → World π → Outcome (World π)
  unfolding notify_move
  play_y n junk e player w =
      if eq_ℤ player.moved_y (ℤ.pos 0)
      then done w
      else notify_move n junk e (if ltb_ℤ (ℤ.pos 0) player.moved_y then ℤ.pos 2 else ℤ.pos 0) w

  unfoldable pub play_attack : ℕ → ℤ → PlayerInput → World π → Outcome (World π)
  unfolding notify_attack
  play_attack n e player w = if player.attacks then notify_attack n e w else done w

  -- The body of the loop in S_Network::update: `operator[]` makes the input where there is none.
  unfoldable pub play : ℕ → ℕ → ℤ → World π → Outcome (World π)
  unfolding play_x play_y play_attack and_then
  play n junk e w =
      let all = λ (player : PlayerInput) (u : World π).
        and_then (play_x n junk e player u)
          (λ v. and_then (play_y n junk e player v) (play_attack n e player)) in
      elim (lookup e w.input) [
        | none ↦ all no_input (record w { input = w.input ++ (e, no_input) ∷ [] })
        | some player ↦ all player w
      ]

  -- S_Network::update, over the entities of the system.
  unfoldable pub update_network : ℕ → ℕ → List ℤ → World π → Outcome (World π)
  unfolding play and_then
  update_network n junk [] w = done w
  update_network n junk (e ∷ es) w = and_then (play n junk e w) (update_network n junk es)

  in_system-set_part :
      (l_id : ℕ) (j e : ℤ) (p : Part π) (w : World π)
      → in_system l_id j (set_part e p w) ≡ in_system l_id j w
  unfolding in_system
  in_system-set_part l_id j e p w = rw (set_part-systems e p w, in_system) refl

  -- A client that is registered with an entity of the network system, which carries a client
  -- component, is the entity's client from then on; every other entity keeps its own.
  pub register_client_id_lem :
      (e j : ℤ) (l_client old : ℤ) (w : World π)
      → in_system network_system e w ≡ true
      → client_of w e ≡ some old
      → (v : World π) × (register_client_id e l_client w ≡ done (v, true))
        × (client_id_of e v ≡ done l_client)
        × (client_of v j ≡ (if eq_ℤ e j then some l_client else client_of w j))
  unfolding register_client_id client_id_of client_of get_type
  register_client_id_lem e j l_client old w inside was =
      let p = client_part l_client in
      let put =
        λ (i : ℤ). get_component-set_part w e p (client_part old) i client_id (ground arith) in
      let stays : in_system network_system e (set_part e p w) ≡ true =
        in_system-set_part network_system e e p w ∙ inside in
      (
        set_part e p w,
        ground (arith, inside, was),
        ground (arith, stays, put e, eq_ℤ_refl e),
        ground (arith, put j),
      )
