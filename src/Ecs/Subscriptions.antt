-- ===== src/Ecs/Subscriptions.antt =====
-- The constructors of the systems, in server/S_*.cpp and common/S_State.cpp, as subscribers, and how
-- server/Server_System_Manager.cpp builds them with addSystem of common/System_Manager.h. The address
-- of a system, of which there is one of each kind, is its number.
use sfrpg.Base.{
  ℕ, ◌≡◌, refl, Bool, true, false, ◌||◌, ◌&&◌, ◌==◌, none, some, List, [], ◌∷◌, ◌++◌, ℤ, eq_ℤ,
  arith, lookup, update, eq_ℤ_iff,
}
use sfrpg.Ecs.State.{SystemBase, movement_system, state_system, network_system, combat_system}
use sfrpg.Ecs.Systems.{find_system}
use sfrpg.Ecs.ServerSystems.{
  s_network, s_movement, s_control, s_state, s_collision, s_combat, s_timers, server_systems,
}
use sfrpg.Ecs.Messages.{Subscriptions, subscribe, notified, has_observer, put_observers}

-- The numbers of EntityMessage.
abbrev on_move : ℤ
on_move = ℤ.pos 0

abbrev on_is_moving : ℤ
on_is_moving = ℤ.pos 1

abbrev on_switch_state : ℤ
on_switch_state = ℤ.pos 5

abbrev on_attack : ℤ
on_attack = ℤ.pos 6

abbrev on_being_attacked : ℤ
on_being_attacked = ℤ.pos 7

abbrev on_hurt : ℤ
on_hurt = ℤ.pos 8

abbrev on_respawn : ℤ
on_respawn = ℤ.pos 10

abbrev on_removed_entity : ℤ
on_removed_entity = ℤ.pos 11

unfoldable subscribe_network : Subscriptions → Subscriptions
unfolding subscribe
subscribe_network m =
    let first = (subscribe on_hurt network_system m).0 in
    let second = (subscribe on_respawn network_system first).0 in
    (subscribe on_removed_entity network_system second).0

unfoldable subscribe_movement : Subscriptions → Subscriptions
unfolding subscribe
subscribe_movement m = (subscribe on_is_moving movement_system m).0

unfoldable subscribe_state : Subscriptions → Subscriptions
unfolding subscribe
subscribe_state m =
    let first = (subscribe on_move state_system m).0 in
    let second = (subscribe on_switch_state state_system first).0 in
    let third = (subscribe on_attack state_system second).0 in
    (subscribe on_hurt state_system third).0

unfoldable subscribe_combat : Subscriptions → Subscriptions
unfolding subscribe
subscribe_combat m = (subscribe on_being_attacked combat_system m).0

-- A system manager as far as its constructor fills it.
record SystemManager : Type 0 where
  kept : List SystemBase
  subscriptions : Subscriptions

-- SystemManager::addSystem: a system and what its constructor subscribes to.
unfoldable add_system :
    SystemBase → (Subscriptions → Subscriptions) → SystemManager → SystemManager × Bool
unfolding find_system
add_system s subscribes m = elim (find_system s.system_id m.kept) [
  | some there ↦ (m, false)
  | none ↦ (record m { kept = m.kept ++ s ∷ []; subscriptions = subscribes m.subscriptions }, true)
]

-- ServerSystemManager::ServerSystemManager
unfoldable server_system_manager : SystemManager
unfolding add_system subscribe_network subscribe_movement subscribe_state subscribe_combat
server_system_manager =
    let m0 : SystemManager = record { kept = []; subscriptions = [] } in
    let m1 = (add_system s_network subscribe_network m0).0 in
    let m2 = (add_system s_movement subscribe_movement m1).0 in
    let m3 = (add_system s_control (λ m. m) m2).0 in
    let m4 = (add_system s_state subscribe_state m3).0 in
    let m5 = (add_system s_collision (λ m. m) m4).0 in
    let m6 = (add_system s_combat subscribe_combat m5).0 in (add_system s_timers (λ m. m) m6).0

-- The constructor keeps all seven systems, in its order.
server_system_manager-kept : server_system_manager.kept ≡ server_systems
unfolding server_system_manager
server_system_manager-kept = refl

-- Which system listens to which message.
abbrev listens : ℤ → ℕ → Bool
listens t o =
    (o == state_system
      && (eq_ℤ on_move t || eq_ℤ on_switch_state t || eq_ℤ on_attack t || eq_ℤ on_hurt t))
    || (o == movement_system && eq_ℤ on_is_moving t)
    || (o == combat_system && eq_ℤ on_being_attacked t)
    || (o == network_system && (eq_ℤ on_hurt t || eq_ℤ on_respawn t || eq_ℤ on_removed_entity t))

subscribed :
    server_system_manager.subscriptions
    ≡ (on_hurt, network_system ∷ state_system ∷ [])
      ∷ (on_respawn, network_system ∷ [])
      ∷ (on_removed_entity, network_system ∷ [])
      ∷ (on_is_moving, movement_system ∷ [])
      ∷ (on_move, state_system ∷ [])
      ∷ (on_switch_state, state_system ∷ [])
      ∷ (on_attack, state_system ∷ [])
      ∷ (on_being_attacked, combat_system ∷ [])
      ∷ []
unfolding server_system_manager has_observer put_observers lookup update
subscribed = refl

-- Every message goes to the systems that listen to it and to no others: Removed_Entity to the network
-- alone, Hurt to the network and the states.
server_system_manager-notified :
    (t : ℤ) (o : ℕ) → has_observer o (notified t server_system_manager.subscriptions) ≡ listens t o
unfolding notified has_observer lookup
server_system_manager-notified t o = rw subscribed (
    ground (
      arith,
      eq_ℤ_iff on_hurt t,
      eq_ℤ_iff on_respawn t,
      eq_ℤ_iff on_removed_entity t,
      eq_ℤ_iff on_is_moving t,
      eq_ℤ_iff on_move t,
      eq_ℤ_iff on_switch_state t,
      eq_ℤ_iff on_attack t,
      eq_ℤ_iff on_being_attacked t,
    ))
