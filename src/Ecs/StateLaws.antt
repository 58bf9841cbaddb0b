-- ===== src/Ecs/StateLaws.antt =====
-- Lemmas on changeState of common/S_State.cpp and the messages that lead to it.
use sfrpg.Base.{ℕ, suc, ◌≡◌, refl, Bool, not, ◌&&◌, ◌||◌, if◌then◌else◌, some, ℤ, eq_ℤ_refl, arith}
use sfrpg.Platform.{Platform}
use sfrpg.Ecs.Components.{EntityState, dying, state_part, state_id, get_type}
use sfrpg.Ecs.State.{World, done, event_became_idle}
use sfrpg.Ecs.Entities.{get_component}
use sfrpg.Ecs.Parts.{set_part, state_of, get_component-set_part}
use sfrpg.Ecs.StateSystem.{
  eq_state, change_state, notify_move, notify_attack, notify_hurt, notify_switch,
  handle_state_event,
}

module _ {π : Platform} where
  state_of_part :
      (w : World π) (e : ℤ) (current : EntityState)
      → state_of w e ≡ some current
      → get_component w e state_id ≡ some (state_part current)
  unfolding state_of
  state_of_part w e current known = ground arith

  pub state_of-set_part :
      (w : World π) (e : ℤ) (current l_state : EntityState)
      → state_of w e ≡ some current
      → state_of (set_part e (state_part l_state) w) e ≡ some l_state
  unfolding state_of get_type
  state_of-set_part w e current l_state known =
      let written =
        get_component-set_part w e (state_part l_state) (state_part current) e state_id
          (state_of_part w e current known) in
      rw (written, eq_ℤ_refl e) refl

  -- With fuel for the nested message, changing the state of an entity that has one always comes to a
  -- result: nothing, if the entity is in the state already, or is dying and the change is not forced;
  -- the new state otherwise.
  pub change_state_lem :
      (n : ℕ) (w : World π) (e : ℤ) (current l_state : EntityState) (l_force : Bool)
      → state_of w e ≡ some current
      → change_state (suc (suc n)) e l_state l_force w
        ≡ done (
            if eq_state l_state current || (not l_force && eq_state current dying)
            then w
            else set_part e (state_part l_state) w)
  unfolding change_state
  change_state_lem n w e current l_state l_force known =
      let after = state_of-set_part w e current l_state known in ground (arith, known, after)

  -- An entity that is dying stays so: the messages Move, Attack, Hurt and Switch_State and the event
  -- Became_Idle change nothing, in any number of nested calls that there is fuel for.
  pub dying_ignores :
      (n junk : ℕ) (w : World π) (e l_int : ℤ) (l_state : EntityState)
      → state_of w e ≡ some dying
      → (notify_move (suc n) junk e l_int w ≡ done w)
        × (notify_attack (suc n) e w ≡ done w)
        × (notify_hurt (suc n) e w ≡ done w)
        × (notify_switch (suc n) e l_state w ≡ done w)
        × (handle_state_event (suc n) e event_became_idle w ≡ done w)
  unfolding notify_move notify_attack notify_hurt notify_switch handle_state_event change_state
  dying_ignores n junk w e l_int l_state known = (
    ground (arith, known),
    ground (arith, known),
    ground (arith, known),
    ground (arith, known),
    ground (arith, known),
  )
