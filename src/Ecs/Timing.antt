-- ===== src/Ecs/Timing.antt =====
-- Lemmas on a round of server/S_Timers.cpp for a dying entity.
use sfrpg.Base.{
  ℕ, suc, ◌≡◌, refl, ap, ◌∙◌, inl, inr, true, not, if◌then◌else◌, some, ℤ, eq_ℤ_refl, arith,
  Bool-cases, if_ind, option_ind, ltb, to_u32,
}
use sfrpg.Platform.{Platform}
use sfrpg.Ecs.Components.{
  get_type, idle, dying, Health, state_part, health_part, position_part, state_id, health_id,
}
use sfrpg.Ecs.State.{SystemBase, World, done, state_system, network_system}
use sfrpg.Ecs.Systems.{find_system}
use sfrpg.Ecs.Entities.{get_component}
use sfrpg.Ecs.Parts.{
  set_part-systems, set_part, as_health, as_state, state_of, health_of, position_of,
  get_component-set_part,
}
use sfrpg.Ecs.StateSystem.{in_system}
use sfrpg.Ecs.StateLaws.{change_state_lem}
use sfrpg.Ecs.Timers.{brought_home, respawn, lasts, recover, time_wound, time_entity}

module _ {π : Platform} where
  open π use {Time, time_add, milliseconds, as_milliseconds}

  -- What a respawn leaves alone.
  record Alike (e : ℤ) (w v : World π) : Type 0 where
    state_alike : get_component v e state_id ≡ get_component w e state_id
    health_alike : get_component v e health_id ≡ get_component w e health_id
    systems_alike : v.systems ≡ w.systems

  respawn-Alike : (e : ℤ) (w : World π) → Alike e w (respawn e w)
  unfolding respawn position_of get_type
  respawn-Alike e w =
      let same : Alike e w w = record {
        state_alike = refl;
        health_alike = refl;
        systems_alike = refl;
      } in
      if_ind (Alike e w) (in_system network_system e w)
        (λ inside.
          option_ind (Alike e w) (position_of w e) (λ nowhere. same)
            (λ p placed.
              let put = λ (t : ℕ).
                get_component-set_part w e (position_part (brought_home p)) (position_part p) e t
                  (ground arith) in
              record {
                state_alike = ground (arith, put state_id);
                health_alike = ground (arith, put health_id);
                systems_alike = set_part-systems e (position_part (brought_home p)) w;
              }))
        (λ outside. same)

  -- What a write to the health of a dying entity leaves.
  record Wounded (e : ℤ) (h : Health π) (s : SystemBase) (w : World π) : Type 0 where
    still_dying : get_component w e state_id ≡ some (state_part dying)
    carries : get_component w e health_id ≡ some (health_part h)
    there : find_system state_system w.systems ≡ some s

  write-Wounded :
      (e : ℤ) (h new : Health π) (s : SystemBase) (w : World π)
      → Wounded e h s w
      → Wounded e new s (set_part e (health_part new) w)
  unfolding get_type
  write-Wounded e h new s w f =
      let put =
        λ (t : ℕ). get_component-set_part w e (health_part new) (health_part h) e t f.carries in
      record {
        still_dying = ground (arith, put state_id, f.still_dying);
        carries = ground (arith, put health_id, eq_ℤ_refl e);
        there = ap (find_system state_system) (set_part-systems e (health_part new) w) ∙ f.there;
      }

  respawn-Wounded :
      (e : ℤ) (h : Health π) (s : SystemBase) (w : World π)
      → Wounded e h s w
      → Wounded e h s (respawn e w)
  respawn-Wounded e h s w f =
      let same = respawn-Alike e w in
      record {
        still_dying = same.state_alike ∙ f.still_dying;
        carries = same.health_alike ∙ f.carries;
        there = ap (find_system state_system) same.systems_alike ∙ f.there;
      }

  -- The change to Idle of a dying entity.
  recover-dying :
      (n : ℕ) (e : ℤ) (h : Health π) (s : SystemBase) (w : World π)
      → Wounded e h s w
      → let v = set_part e (state_part idle) w in
        (recover (suc (suc n)) e w ≡ done v) × (state_of v e ≡ some idle) × (health_of v e ≡ some h)
  unfolding recover state_of health_of get_type
  recover-dying n e h s w f =
      let put = λ (t : ℕ).
        get_component-set_part w e (state_part idle) (state_part dying) e t f.still_dying in
      (
        rw (f.there, recover) (change_state_lem n w e dying idle true (ap as_state f.still_dying)),
        ground (arith, put state_id, eq_ℤ_refl e),
        ground (arith, put health_id, f.carries),
      )

  -- A dying entity that carries health, while the state system is there: with the time that has passed
  -- short of its death duration it stays dying and its timer goes on; else it comes back, idle and
  -- with full health, in a result that needs fuel for the nested message only.
  pub time_entity-dying :
      (n : ℕ) (elapsed : Time) (e : ℤ) (w : World π) (h : Health π) (s : SystemBase)
      → state_of w e ≡ some dying
      → health_of w e ≡ some h
      → find_system state_system w.systems ≡ some s
      → let later = time_add h.hurt_timer elapsed in
        let over = not (ltb (to_u32 (as_milliseconds later)) h.death_duration) in
        (v : World π) × (time_entity (suc (suc n)) elapsed e w ≡ done v)
        × (state_of v e ≡ some (if over then idle else dying))
        × (health_of v e
            ≡ some (
                if over
                then record h { health = h.max_health; hurt_timer = milliseconds (ℤ.pos 0) }
                else record h { hurt_timer = later }))
  unfolding time_entity time_wound lasts recover state_of health_of
  time_entity-dying n elapsed e w h s is_dying carries found =
      let later = time_add h.hurt_timer elapsed in
      let longer = record h { hurt_timer = later } in
      let healed = record h { health = h.max_health; hurt_timer = milliseconds (ℤ.pos 0) } in
      let start : Wounded e h s w = record {
        still_dying = ground arith;
        carries = ground arith;
        there = found;
      } in
      elim (Bool-cases (ltb (to_u32 (as_milliseconds later)) h.death_duration)) [
        | inl waits ↦
            let on = write-Wounded e h longer s w start in
            (
              set_part e (health_part longer) w,
              rw (is_dying, carries, time_entity, time_wound, lasts, waits) refl,
              rw waits (ap as_state on.still_dying),
              rw waits (ap as_health on.carries),
            )
        | inr ends ↦
            let u = set_part e (health_part healed) w in
            let off = respawn-Wounded e healed s u (write-Wounded e h healed s w start) in
            let (back, now_idle, whole) = recover-dying n e healed s (respawn e u) off in
            (
              set_part e (state_part idle) (respawn e u),
              rw (is_dying, carries, time_entity, time_wound, lasts, ends) back,
              rw ends now_idle,
              rw ends whole,
            )
      ]
