-- ===== src/Game/Events.antt =====
-- common/Event_Queue.h and SystemManager::handleEvents of common/System_Manager.cpp, with the handlers
-- of the server's systems.
use sfrpg.Base.{
  ℕ, zero, suc, ◌==◌, if◌then◌else◌, Option, none, some, List, [], ◌∷◌, ℤ, lookup, update, keys,
}
use sfrpg.Platform.{Platform}
use sfrpg.Ecs.State.{
  World, SystemBase, Outcome, done, out_of_fuel, movement_system, control_system, state_system,
}
use sfrpg.Ecs.StateSystem.{and_then, in_system, handle_state_event}
use sfrpg.Game.Movement.{handle_movement_event, handle_control_event}

-- EventQueue::processEvents: the oldest event, and the queue without it.
unfoldable pub process_events : List ℕ → Option (ℕ × List ℕ)
process_events [] = none
process_events (l_event ∷ queue) = some (l_event, queue)

module _ {π : Platform} where
  -- handleEvent of the system with the identifier. Collision, combat, timers and network do nothing
  -- there. `n` is the fuel for nested messages.
  unfoldable pub handle_event : ℕ → (l_id : ℕ) → ℤ → (l_event : ℕ) → World π → Outcome (World π)
  unfolding handle_movement_event handle_control_event handle_state_event
  handle_event n l_id e l_event w =
      if l_id == movement_system
      then handle_movement_event e l_event w
      else if l_id == control_system
      then handle_control_event e l_event w
      else if l_id == state_system
      then handle_state_event n e l_event w
      else done w

  -- The loop over the systems, for one event.
  unfoldable pub offer_event : ℕ → List SystemBase → ℤ → (l_event : ℕ) → World π → Outcome (World π)
  unfolding handle_event and_then in_system
  offer_event n [] e l_event w = done w
  offer_event n (s ∷ ss) e l_event w =
      if in_system s.system_id e w
      then and_then (handle_event n s.system_id e l_event w) (offer_event n ss e l_event)
      else offer_event n ss e l_event w

  unfoldable pub pop_event : ℤ → World π → Option (ℕ × World π)
  unfolding process_events
  pop_event e w = elim (lookup e w.events) [
    | none ↦ none
    | some queue ↦ elim (process_events queue) [
      | none ↦ none
      | some popped ↦ some (popped.0, record w { events = update e popped.1 w.events })
    ]
  ]

  -- The while loop over one entity's queue, with at most `rounds` tests of its condition.
  unfoldable pub handle_queue : (n rounds : ℕ) → ℤ → World π → Outcome (World π)
  unfolding pop_event offer_event and_then
  handle_queue n zero e w = out_of_fuel
  handle_queue n (suc rounds) e w = elim (pop_event e w) [
    | none ↦ done w
    | some popped ↦
        and_then (offer_event n popped.1.systems e popped.0 popped.1) (handle_queue n rounds e)
  ]

  -- The loop over the queues. The handlers add no queue.
  unfoldable pub handle_queues : (n rounds : ℕ) → List ℤ → World π → Outcome (World π)
  unfolding handle_queue and_then
  handle_queues n rounds [] w = done w
  handle_queues n rounds (e ∷ es) w =
      and_then (handle_queue n rounds e w) (handle_queues n rounds es)

  -- SystemManager::handleEvents
  unfoldable pub handle_events : (n rounds : ℕ) → World π → Outcome (World π)
  unfolding handle_queues
  handle_events n rounds w = handle_queues n rounds (keys w.events) w
