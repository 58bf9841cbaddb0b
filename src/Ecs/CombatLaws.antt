-- ===== src/Ecs/CombatLaws.antt =====
-- The handler of Being_Attacked in server/S_Combat.cpp as a whole.
use sfrpg.Base.{
  refl, subst, arith, ◌-ℤ◌, ◌+ℤ◌, ℕ, zero, suc, ◌≡◌, ap, ◌∙◌, inl, inr, ◌⊎◌, true, false, some, ℤ,
  eq_ℤ, Bool-cases,
}
use sfrpg.Platform.{Platform}
use sfrpg.Ecs.Components.{EntityState, dying, Movable, Health, Attacker}
use sfrpg.Ecs.State.{SystemBase, World, done, state_system, combat_system}
use sfrpg.Ecs.Systems.{find_system}
use sfrpg.Ecs.Parts.{as_health, as_attacker, state_of, movable_of, health_of, attacker_of}
use sfrpg.Ecs.StateSystem.{and_then, in_system}
use sfrpg.Ecs.Combat.{less_health, strike, being_attacked}
use sfrpg.Ecs.Fight.{
  fight_of, strike-Fight, state_of-Fight, hurt_or_kill-Settled, knock_back-Settled,
}

-- The health that a blow leaves: none of one or less.
abbrev pub after_blow : ℤ → ℤ
after_blow (ℤ.pos zero) = ℤ.pos 0
after_blow (ℤ.pos (suc n)) = ℤ.pos n
after_blow (ℤ.negsuc n) = ℤ.pos 0

less_health_lem : (h : ℤ) → less_health h ≡ after_blow h
unfolding ◌-ℤ◌ ◌+ℤ◌
less_health_lem (ℤ.pos zero) = refl
less_health_lem (ℤ.pos (suc zero)) = refl
less_health_lem (ℤ.pos (suc (suc n))) = ground arith
less_health_lem (ℤ.negsuc n) = ground arith

-- A blow between two entities of the combat system, where the state system is there, the receiver has
-- health, a state and can move, and the sender carries an attacker that has not attacked: it comes to
-- a result, with fuel for the nested messages; the receiver's health is one less, or zero where it was
-- at most one; the attacker has attacked; and a receiver without health left is dying.
pub being_attacked_lem :
    {π : Platform} (n : ℕ) (receiver sender : ℤ) (w : World π) (h : Health π) (a : Attacker π)
    (state : EntityState) (movable : Movable π) (s : SystemBase)
    → in_system combat_system receiver w ≡ true
    → in_system combat_system sender w ≡ true
    → find_system state_system w.systems ≡ some s
    → health_of w receiver ≡ some h
    → attacker_of w sender ≡ some a
    → state_of w receiver ≡ some state
    → movable_of w receiver ≡ some movable
    → a.attacked ≡ false
    → (v : World π) × (being_attacked (suc (suc n)) receiver sender w ≡ done v)
      × (health_of v receiver ≡ some (record h { health = after_blow h.health }))
      × (attacker_of v sender ≡ some (record a { attacked = true }))
      × ((eq_ℤ (after_blow h.health) (ℤ.pos 0) ≡ false) ⊎ (state_of v receiver ≡ some dying))
unfolding being_attacked and_then health_of attacker_of
being_attacked_lem n receiver sender w h a state movable s in_r in_s found eh ea es em fresh =
    let f = fight_of receiver sender w h a state movable eh ea es em in
    let g = strike-Fight receiver sender h a w f in
    let u = strike receiver sender h a w in
    let hit = record h { health = less_health h.health } in
    let spent = record a { attacked = true } in
    let hurt_done = hurt_or_kill-Settled receiver sender n hit spent u (less_health h.health) g in
    let end =
      knock_back-Settled receiver sender hit spent (eq_ℤ (less_health h.health) (ℤ.pos 0))
        hurt_done.after a.knockback hurt_done.fight hurt_done.fate in
    (
      end.after,
      rw (in_r, in_s, eh, ea, found, fresh, being_attacked, hurt_done.result) end.result,
      ap as_health end.fight.healthy
          ∙ ap (λ (k : ℤ). some (record h { health = k })) (less_health_lem h.health),
      ap as_attacker end.fight.armed,
      subst (λ (k : ℤ). (eq_ℤ k (ℤ.pos 0) ≡ false) ⊎ (state_of end.after receiver ≡ some dying))
          (less_health_lem h.health)
          (elim (Bool-cases (eq_ℤ (less_health h.health) (ℤ.pos 0))) [
            | inl lethal ↦ inr (
                state_of-Fight receiver sender hit spent end.after end.fight
                ∙ ap some (end.fate lethal))
            | inr harmless ↦ inl harmless
          ]),
    )
