-- ===== src/Ecs/Fight.antt =====
-- Lemmas on the two fighters' components through the steps of server/S_Combat.cpp.
use sfrpg.Base.{
  ℕ, suc, ◌≡◌, refl, ap, ◌∙◌, inl, inr, Bool, true, false, not, ◌&&◌, ◌||◌, some, ℤ, eq_ℤ,
  eq_ℤ_refl, arith, Bool-cases, if_ind, option_ind,
}
use sfrpg.Platform.{Platform}
use sfrpg.Ecs.Components.{
  get_type, EntityState, idle, walking, attacking, dying, hurt, Movable, Health, Attacker,
  state_part, movable_part, health_part, attacker_part, state_id, movable_id, health_id,
  attacker_id,
}
use sfrpg.Ecs.State.{World, Outcome, done, state_system, network_system}
use sfrpg.Ecs.Entities.{get_component}
use sfrpg.Ecs.Parts.{
  set_part, as_state, state_of, movable_of, health_of, attacker_of, get_component-set_part,
}
use sfrpg.Ecs.StateSystem.{eq_state, in_system, change_state, notify_hurt}
use sfrpg.Ecs.StateLaws.{change_state_lem}
use sfrpg.Ecs.Combat.{
  less_health, knockback_velocity, announce_hurt, dispatch_hurt, knock_back, strike, hurt_or_kill,
}

module _ {π : Platform} (receiver sender : ℤ) where
  -- The two fighters' components that a blow is about.
  pub record Fight (h : Health π) (a : Attacker π) (w : World π) : Type 0 where
    pub healthy : get_component w receiver health_id ≡ some (health_part h)
    pub armed : get_component w sender attacker_id ≡ some (attacker_part a)
    pub state : EntityState
    pub state_known : get_component w receiver state_id ≡ some (state_part state)
    pub movable : Movable π
    pub movable_known : get_component w receiver movable_id ≡ some (movable_part movable)

  pub fight_of :
      (w : World π) (h : Health π) (a : Attacker π) (state : EntityState) (movable : Movable π)
      → health_of w receiver ≡ some h
      → attacker_of w sender ≡ some a
      → state_of w receiver ≡ some state
      → movable_of w receiver ≡ some movable
      → Fight h a w
  unfolding health_of attacker_of state_of movable_of
  fight_of w h a state movable e f g i = record {
    healthy = ground arith;
    armed = ground arith;
    state = state;
    state_known = ground arith;
    movable = movable;
    movable_known = ground arith;
  }

  pub strike-Fight :
      (h : Health π) (a : Attacker π) (w : World π)
      → Fight h a w
      → Fight
          (record h { health = less_health h.health })
          (record a { attacked = true })
          (strike receiver sender h a w)
  unfolding strike get_type
  strike-Fight h a w f =
      let p = health_part (record h { health = less_health h.health }) in
      let q = attacker_part (record a { attacked = true }) in
      let u = set_part receiver p w in
      let first =
        λ (j : ℤ) (t : ℕ). get_component-set_part w receiver p (health_part h) j t f.healthy in
      let armed : get_component u sender attacker_id ≡ some (attacker_part a) =
        ground (arith, first sender attacker_id, f.armed) in
      let second =
        λ (j : ℤ) (t : ℕ). get_component-set_part u sender q (attacker_part a) j t armed in
      record {
        healthy =
            ground (arith, first receiver health_id, second receiver health_id, eq_ℤ_refl receiver);
        armed = ground (arith, second sender attacker_id, eq_ℤ_refl sender);
        state = f.state;
        state_known =
            ground (arith, first receiver state_id, second receiver state_id, f.state_known);
        movable = f.movable;
        movable_known =
            ground (arith, first receiver movable_id, second receiver movable_id, f.movable_known);
      }

  state-Fight :
      (h : Health π) (a : Attacker π) (w : World π) (l_state : EntityState)
      → Fight h a w
      → Fight h a (set_part receiver (state_part l_state) w)
  unfolding get_type
  state-Fight h a w l_state f =
      let put = λ (j : ℤ) (t : ℕ).
        get_component-set_part w receiver (state_part l_state) (state_part f.state) j t
          f.state_known in
      record {
        healthy = ground (arith, put receiver health_id, f.healthy);
        armed = ground (arith, put sender attacker_id, f.armed);
        state = l_state;
        state_known = ground (arith, put receiver state_id, eq_ℤ_refl receiver);
        movable = f.movable;
        movable_known = ground (arith, put receiver movable_id, f.movable_known);
      }

  announce-Fight :
      (h : Health π) (a : Attacker π) (w : World π)
      → Fight h a w
      → Fight h a (announce_hurt receiver w)
  unfolding announce_hurt get_component
  announce-Fight h a w f =
      if_ind (Fight h a) (in_system network_system receiver w)
        (λ inside. record {
          healthy = f.healthy;
          armed = f.armed;
          state = f.state;
          state_known = f.state_known;
          movable = f.movable;
          movable_known = f.movable_known;
        })
        (λ outside. f)

  -- A call that comes to a result in which the components are as said, and the victim is dying if
  -- the blow is lethal.
  pub record Settled (h : Health π) (a : Attacker π) (lethal : Bool) (o : Outcome (World π))
      : Type 0 where
    pub after : World π
    pub result : o ≡ done after
    pub fight : Fight h a after
    pub fate : lethal ≡ true → fight.state ≡ dying

  pub state_of-Fight :
      (h : Health π) (a : Attacker π) (w : World π) (f : Fight h a w)
      → state_of w receiver ≡ some f.state
  unfolding state_of
  state_of-Fight h a w f = ap as_state f.state_known

  kill-Settled :
      (n : ℕ) (h : Health π) (a : Attacker π) (w : World π)
      → Fight h a w
      → Settled h a true (change_state (suc (suc n)) receiver dying true w)
  unfolding state-Fight
  kill-Settled n h a w f =
      let step = change_state_lem n w receiver f.state dying true (state_of-Fight h a w f) in
      elim (Bool-cases (eq_state dying f.state)) [
        | inl same ↦ record {
          after = w;
          result = step ∙ rw same refl;
          fight = f;
          fate = λ lethal. is_dying f.state same;
        }
        | inr other ↦ record {
          after = set_part receiver (state_part dying) w;
          result = step ∙ rw other refl;
          fight = state-Fight h a w dying f;
          fate = λ lethal. refl;
        }
      ]
    where
      is_dying : (s : EntityState) → eq_state dying s ≡ true → s ≡ dying
      is_dying idle e = cc
      is_dying walking e = cc
      is_dying hurt e = cc
      is_dying attacking e = cc
      is_dying dying e = refl

  hurt-Settled :
      (n : ℕ) (h : Health π) (a : Attacker π) (w : World π)
      → Fight h a w
      → Settled h a false (notify_hurt (suc (suc n)) receiver w)
  unfolding notify_hurt
  hurt-Settled n h a w f =
      let known = state_of-Fight h a w f in
      let step = change_state_lem n w receiver f.state hurt false known in
      let P = Settled h a false in
      let stay : P (done w) = record {
        after = w;
        result = refl;
        fight = f;
        fate = λ lethal. absurd cc;
      } in
      if_ind P (in_system state_system receiver w)
        (λ inside. rw known (
          if_ind P (not (eq_state f.state dying))
            (λ alive.
              rw step
                (elim (Bool-cases
                  (eq_state hurt f.state || (not false && eq_state f.state dying))) [
                    | inl same ↦ rw same stay
                    | inr other ↦ rw other (record {
                      after = set_part receiver (state_part hurt) w;
                      result = refl;
                      fight = state-Fight h a w hurt f;
                      fate = λ lethal. absurd cc;
                    })
                  ]))
            (λ gone. stay)))
        (λ outside. stay)

  pub hurt_or_kill-Settled :
      (n : ℕ) (h : Health π) (a : Attacker π) (w : World π) (left_over : ℤ)
      → Fight h a w
      → Settled h a (eq_ℤ left_over (ℤ.pos 0)) (hurt_or_kill (suc (suc n)) receiver left_over w)
  unfolding hurt_or_kill dispatch_hurt
  hurt_or_kill-Settled n h a w left_over f = elim (Bool-cases (eq_ℤ left_over (ℤ.pos 0))) [
    | inl lethal ↦ rw lethal (kill-Settled n h a w f)
    | inr harmless ↦
        rw harmless (hurt-Settled n h a (announce_hurt receiver w) (announce-Fight h a w f))
  ]

  pub knock_back-Settled :
      (h : Health π) (a : Attacker π) (lethal : Bool) (w : World π) (force : π.Float)
      (f : Fight h a w)
      → (lethal ≡ true → f.state ≡ dying)
      → Settled h a lethal (knock_back receiver sender force w)
  unfolding knock_back movable_of get_type
  knock_back-Settled h a lethal w force f fate =
      let P = Settled h a lethal in
      option_ind P (movable_of w sender)
        (λ still. record { after = w; result = refl; fight = f; fate = fate })
        (λ mov moving. rw f.movable_known (
          let pushed = record f.movable { velocity = knockback_velocity mov.direction force } in
          let put = λ (j : ℤ) (t : ℕ).
            get_component-set_part w receiver (movable_part pushed) (movable_part f.movable) j t
              f.movable_known in
          record {
            after = set_part receiver (movable_part pushed) w;
            result = refl;
            fight = record {
              healthy = ground (arith, put receiver health_id, f.healthy);
              armed = ground (arith, put sender attacker_id, f.armed);
              state = f.state;
              state_known = ground (arith, put receiver state_id, f.state_known);
              movable = pushed;
              movable_known = ground (arith, put receiver movable_id, eq_ℤ_refl receiver);
            };
            fate = fate;
          }))
