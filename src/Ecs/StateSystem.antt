-- ===== src/Ecs/StateSystem.antt =====
-- common/S_State.cpp: the states of the entities. A change of state is told to the subscribers of
-- Switch_State, of which S_State itself is the only one: the nested call is by fuel.
use sfrpg.Base.{
  ℕ, zero, suc, Bool, false, not, ◌&&◌, ◌||◌, ◌==◌, if◌then◌else◌, none, some, List, [], ◌∷◌, ℤ,
  eq_ℤ,
}
use sfrpg.Platform.{Platform}
use sfrpg.Ecs.Components.{EntityState, idle, walking, hurt, attacking, dying, state_part}
use sfrpg.Ecs.State.{
  World, Outcome, done, null_access, out_of_fuel, state_system, movement_system, event_moving_left,
  event_moving_right, event_moving_up, event_moving_down, event_became_idle, event_began_attacking,
}
use sfrpg.Ecs.Systems.{has_member, find_system, add_event}
use sfrpg.Ecs.Parts.{set_part, state_of, movable_of}

abbrev pub state_number : EntityState → ℕ
state_number idle = 0
state_number walking = 1
state_number hurt = 2
state_number attacking = 3
state_number dying = 4

abbrev pub eq_state : EntityState → EntityState → Bool
eq_state a b = state_number a == state_number b

-- The event for the direction in a Move message; `junk` is what the variable holds that no branch
-- sets.
unfoldable pub moving_event : ℕ → ℤ → ℕ
moving_event junk l_int =
    if eq_ℤ l_int (ℤ.pos 1)
    then event_moving_left
    else if eq_ℤ l_int (ℤ.pos 3)
    then event_moving_right
    else if eq_ℤ l_int (ℤ.pos 0)
    then event_moving_up
    else if eq_ℤ l_int (ℤ.pos 2)
    then event_moving_down
    else junk

unfoldable pub and_then {ℓ κ} : {A : Type ℓ} {B : Type κ} → Outcome A → (A → Outcome B) → Outcome B
and_then (done a) f = f a
and_then null_access f = null_access
and_then out_of_fuel f = out_of_fuel

module _ {π : Platform} where
  open π use {of_int, f_eq}

  -- hasEntity of the system that the manager has under the identifier.
  unfoldable pub in_system : ℕ → ℤ → World π → Bool
  unfolding find_system has_member
  in_system l_id e w = elim (find_system l_id w.systems) [ none ↦ false | some s ↦ has_member s e ]

  -- S_State::changeState, with the message Switch_State that ends it.
  unfoldable pub change_state : ℕ → ℤ → EntityState → (l_force : Bool) → World π → Outcome (World π)
  change_state zero e l_state l_force w = out_of_fuel
  change_state (suc n) e l_state l_force w =
      let moved = set_part e (state_part l_state) w in
      let again = change_state n e l_state false moved in
      elim (state_of w e) [
        | none ↦ null_access
        | some current ↦
            if eq_state l_state current
            then done w
            else if not l_force && eq_state current dying
            then done w
            else if in_system state_system e moved
            then again
            else done moved
      ]

  -- S_State::notify, by the type of the message.
  unfoldable pub notify_move : ℕ → (junk : ℕ) → ℤ → (l_int : ℤ) → World π → Outcome (World π)
  unfolding change_state moving_event add_event
  notify_move n junk e l_int w =
      if in_system state_system e w
      then elim (state_of w e) [
        | none ↦ null_access
        | some current ↦
            if eq_state current attacking || eq_state current dying
            then done w
            else change_state n e walking false (add_event e (moving_event junk l_int) w)
      ]
      else done w

  unfoldable pub notify_attack : ℕ → ℤ → World π → Outcome (World π)
  unfolding change_state add_event
  notify_attack n e w =
      if in_system state_system e w
      then elim (state_of w e) [
        | none ↦ null_access
        | some current ↦
            if not (eq_state current dying) && not (eq_state current attacking)
            then change_state n e attacking false (add_event e event_began_attacking w)
            else done w
      ]
      else done w

  unfoldable pub notify_hurt : ℕ → ℤ → World π → Outcome (World π)
  unfolding change_state
  notify_hurt n e w =
      if in_system state_system e w
      then elim (state_of w e) [
        | none ↦ null_access
        | some current ↦
            if not (eq_state current dying) then change_state n e hurt false w else done w
      ]
      else done w

  unfoldable pub notify_switch : ℕ → ℤ → EntityState → World π → Outcome (World π)
  unfolding change_state
  notify_switch n e l_state w =
      if in_system state_system e w then change_state n e l_state false w else done w

  -- S_State::handleEvent
  unfoldable pub handle_state_event : ℕ → ℤ → (l_event : ℕ) → World π → Outcome (World π)
  unfolding change_state
  handle_state_event n e l_event w =
      if l_event == event_became_idle then change_state n e idle false w else done w

  -- S_Movement::notify, of the message Is_Moving.
  unfoldable pub notify_is_moving : ℤ → World π → Outcome (World π)
  unfolding add_event
  notify_is_moving e w =
      if in_system movement_system e w
      then elim (movable_of w e) [
        | none ↦ null_access
        | some m ↦
            if f_eq m.velocity.x (of_int (ℤ.pos 0)) && f_eq m.velocity.y (of_int (ℤ.pos 0))
            then done (add_event e event_became_idle w)
            else done w
      ]
      else done w

  -- S_State::update, over the entities of the system.
  unfoldable pub update_states : List ℤ → World π → Outcome (World π)
  unfolding notify_is_moving and_then
  update_states [] w = done w
  update_states (e ∷ es) w = elim (state_of w e) [
    | none ↦ null_access
    | some current ↦
        if eq_state current walking
        then and_then (notify_is_moving e w) (update_states es)
        else update_states es w
  ]
