-- ===== src/Ecs/Timers.antt =====
-- server/S_Timers.cpp: how long a blow, a wound and a death last; and the respawn in
-- server/S_Network.cpp. `elapsed` is sf::milliseconds(l_dT).
use sfrpg.Base.{
  ℕ, Bool, true, false, ◌&&◌, ◌||◌, if◌then◌else◌, none, some, List, [], ◌∷◌, ℤ, ltb, to_u32,
}
use sfrpg.Platform.{Platform}
use sfrpg.Ecs.Components.{
  EntityState, idle, hurt, dying, attacking, Position, Health, Attacker, position_part, health_part,
  attacker_part,
}
use sfrpg.Ecs.State.{World, Outcome, done, null_access, state_system, network_system}
use sfrpg.Ecs.Systems.{find_system}
use sfrpg.Ecs.Parts.{set_part, state_of, health_of, attacker_of, position_of}
use sfrpg.Ecs.StateSystem.{eq_state, and_then, in_system, change_state}

module _ {π : Platform} where
  open π use {Time, of_int, time_add, milliseconds, as_milliseconds}

  -- setPosition(64.f, 64.f) and setElevation(1)
  abbrev pub brought_home : Position π → Position π
  brought_home p = record {
    position_old = p.position;
    position = record { x = of_int (ℤ.pos 64); y = of_int (ℤ.pos 64) };
    elevation = 1;
  }

  -- S_Network::notify, of the message Respawn, to which S_Network alone subscribes.
  unfoldable pub respawn : ℤ → World π → World π
  unfolding set_part
  respawn e w =
      if in_system network_system e w
      then elim (position_of w e) [
        | none ↦ w
        | some p ↦ set_part e (position_part (brought_home p)) w
      ]
      else w

  -- The comparison is of a signed with an unsigned number, so the time is read as unsigned.
  unfoldable pub lasts : EntityState → Health π → Bool
  lasts state h =
      (eq_state state hurt && ltb (to_u32 (as_milliseconds h.hurt_timer)) h.hurt_duration)
      || (eq_state state dying && ltb (to_u32 (as_milliseconds h.hurt_timer)) h.death_duration)

  -- The change to Idle at the end of a round.
  unfoldable pub recover : ℕ → ℤ → World π → Outcome (World π)
  unfolding change_state find_system
  recover n e w = elim (find_system state_system w.systems) [
    | none ↦ null_access
    | some s ↦ change_state n e idle true w
  ]

  -- A hurt or dying entity.
  unfoldable pub time_wound : ℕ → Time → ℤ → EntityState → Health π → World π → Outcome (World π)
  unfolding lasts recover respawn
  time_wound n elapsed e state h w =
      let longer = record h { hurt_timer = time_add h.hurt_timer elapsed } in
      let reset = record h { hurt_timer = milliseconds (ℤ.pos 0) } in
      let healed = record reset { health = h.max_health } in
      if lasts state longer
      then done (set_part e (health_part longer) w)
      else if eq_state state dying
      then recover n e (respawn e (set_part e (health_part healed) w))
      else recover n e (set_part e (health_part reset) w)

  -- An attacking entity.
  unfoldable pub time_attack : ℕ → Time → ℤ → Attacker π → World π → Outcome (World π)
  unfolding recover
  time_attack n elapsed e a w =
      let later = time_add a.attack_timer elapsed in
      if ltb (to_u32 (as_milliseconds later)) a.attack_duration
      then done (set_part e (attacker_part (record a { attack_timer = later })) w)
      else recover n e (
          set_part e
            (attacker_part (record a { attack_timer = milliseconds (ℤ.pos 0); attacked = false }))
            w)

  -- The body of the loop in S_Timers::update.
  unfoldable pub time_entity : ℕ → Time → ℤ → World π → Outcome (World π)
  unfolding time_wound time_attack
  time_entity n elapsed e w = elim (state_of w e) [
    | none ↦ null_access
    | some state ↦
        if eq_state state hurt || eq_state state dying
        then elim (health_of w e) [ none ↦ null_access | some h ↦ time_wound n elapsed e state h w ]
        else if eq_state state attacking
        then elim (attacker_of w e) [ none ↦ null_access | some a ↦ time_attack n elapsed e a w ]
        else done w
  ]

  -- S_Timers::update, over the entities of the system.
  unfoldable pub update_timers : ℕ → Time → List ℤ → World π → Outcome (World π)
  unfolding time_entity and_then
  update_timers n elapsed [] w = done w
  update_timers n elapsed (e ∷ es) w =
      and_then (time_entity n elapsed e w) (update_timers n elapsed es)
