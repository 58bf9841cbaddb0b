-- ===== src/Ecs/Membership.antt =====
-- The entities that a system holds, against the masks of the entities: lemmas on the operations of
-- common/Entity_Manager.cpp.
use sfrpg.Base.{
  ℕ, ◌^◌, ◌<◌, ◌≡◌, refl, sym, ap, Bool, false, if◌then◌else◌, Option, none, some, List, ℤ, eq_ℤ,
  All, arith, if_ind, option_ind, subst, lookup, update, lookup-update, Each, Each-update,
  Each-lookup,
}
use sfrpg.Platform.{Platform}
use sfrpg.Ecs.Bitmask.{get_bit}
use sfrpg.Ecs.Bitmask.Laws.{turn_on_bit-lt, clear_bit-lt}
use sfrpg.Ecs.Components.{Junk, new_part}
use sfrpg.Ecs.State.{EntityData, SystemBase, World, network_system}
use sfrpg.Ecs.Systems.{
  has_member, find_system, matches_any, fits_requirements, reconsider, entity_modified,
  remove_member,
}
use sfrpg.Ecs.Entities.{attach, add_component, detach, remove_component, notify_removed, find_part}
use sfrpg.Ecs.Members.{
  Unique, has_member-remove_member, reconsider_lem, All-map_systems, Demand, matches_any_empty,
}

module _ {π : Platform} where
  -- Whether the entity's components, if there is the entity, satisfy a requirement of the system.
  unfoldable pub fits_entity : SystemBase → Option (EntityData π) → Bool
  fits_entity s none = false
  fits_entity s (some d) = fits_requirements s d.bitmask

  pub record SystemOk (m : List (ℤ × EntityData π)) (s : SystemBase) : Type 0 where
    pub unique : Unique s.members
    pub demands : All Demand s.required
    pub agrees : (e : ℤ) → has_member s e ≡ fits_entity s (lookup e m)

  pub record WorldOk (w : World π) : Type 0 where
    pub systems_ok : All (SystemOk w.entities) w.systems
    pub masks_small : Each (λ d. d.bitmask < 2 ^ 32) w.entities

  -- The entities after a change of the one entity `e` that leaves it fitting as `bits` do.
  abbrev Changed : ℤ → ℕ → SystemBase → List (ℤ × EntityData π) → List (ℤ × EntityData π) → Type 0
  Changed e bits s m n =
      (j : ℤ)
      → fits_entity s (lookup j n)
        ≡ (if eq_ℤ e j then fits_requirements s bits else fits_entity s (lookup j m))

  fits_refit :
      (s t : SystemBase) (o : Option (EntityData π))
      → t.required ≡ s.required
      → fits_entity t o ≡ fits_entity s o
  unfolding fits_entity fits_requirements
  fits_refit s t none same = refl
  fits_refit s t (some d) same = simp same

  pub reconsider-SystemOk :
      (e : ℤ) (bits : ℕ) (m n : List (ℤ × EntityData π)) (s : SystemBase)
      → Changed e bits s m n
      → SystemOk m s
      → SystemOk n (reconsider e bits s)
  reconsider-SystemOk e bits m n s changed ok =
      let r = λ (j : ℤ). reconsider_lem s e bits j ok.unique in
      let same = (r e).2 in
      record {
        unique = (r e).1;
        demands = subst (All Demand) (sym same) ok.demands;
        agrees = λ j. ground (
          arith,
          (r j).0,
          changed j,
          ok.agrees j,
          fits_refit s (reconsider e bits s) (lookup j n) same,
        );
      }

  -- A new mask for an entity, and the systems told of it.
  pub remask-WorldOk :
      (w : World π) (e : ℤ) (d new : EntityData π)
      → lookup e w.entities ≡ some d
      → new.bitmask < 2 ^ 32
      → WorldOk w
      → WorldOk (entity_modified e new.bitmask (record w { entities = update e new w.entities }))
  unfolding entity_modified fits_entity
  remask-WorldOk w e d new known small ok = record {
    systems_ok =
        All-map_systems (SystemOk w.entities) (SystemOk (update e new w.entities))
          (reconsider e new.bitmask)
          (λ s.
            reconsider-SystemOk e new.bitmask w.entities (update e new w.entities) s
              (λ j. ground (arith, lookup-update e j new d w.entities known)))
          w.systems ok.systems_ok;
    masks_small =
        Each-update (λ (c : EntityData π). c.bitmask < 2 ^ 32) e new w.entities ok.masks_small
          small;
  }

  pub add_component-WorldOk :
      (w : World π) (junk : Junk) (e : ℤ) (c : ℕ)
      → c < 32
      → WorldOk w
      → WorldOk (add_component junk e c w).0
  unfolding add_component attach
  add_component-WorldOk w junk e c lt ok =
      let P = λ (r : World π × Bool). WorldOk r.0 in
      option_ind P (lookup e w.entities) (λ missing. ok)
        (λ d known.
          let small =
            Each-lookup (λ (d : EntityData π). d.bitmask < 2 ^ 32) e d w.entities ok.masks_small
              known in
          if_ind P (get_bit d.bitmask c) (λ present. ok)
            (λ absent.
              option_ind P (new_part π junk c) (λ unknown. ok)
                (λ component made.
                  remask-WorldOk w e d _ known (turn_on_bit-lt d.bitmask c small lt) ok)))

  pub remove_component-WorldOk :
      (w : World π) (e : ℤ) (c : ℕ) → WorldOk w → WorldOk (remove_component e c w).0
  unfolding remove_component detach
  remove_component-WorldOk w e c ok =
      let P = λ (r : World π × Bool). WorldOk r.0 in
      option_ind P (lookup e w.entities) (λ missing. ok)
        (λ d known.
          let small =
            Each-lookup (λ (d : EntityData π). d.bitmask < 2 ^ 32) e d w.entities ok.masks_small
              known in
          if_ind P (get_bit d.bitmask c)
            (λ present.
              option_ind P (find_part c d.components) (λ lost. ok)
                (λ component found.
                  remask-WorldOk w e d _ known (clear_bit-lt d.bitmask c small) ok))
            (λ absent. ok))

  -- An entity leaves every system, and keeps an empty mask.
  pub left-SystemOk :
      (e : ℤ) (d new : EntityData π) (m : List (ℤ × EntityData π)) (s : SystemBase)
      → lookup e m ≡ some d
      → new.bitmask ≡ 0
      → SystemOk m s
      → SystemOk (update e new m) (remove_member s e).0
  unfolding fits_entity fits_requirements
  left-SystemOk e d new m s known empty ok =
      let r = λ (j : ℤ). has_member-remove_member s e j ok.unique in
      let same = (r e).2 in
      let unfit = matches_any_empty s.required ok.demands in
      record {
        unique = (r e).1;
        demands = subst (All Demand) (sym same) ok.demands;
        agrees = λ j. ground (
          arith,
          (r j).0,
          ok.agrees j,
          lookup-update e j new d m known,
          fits_refit s (remove_member s e).0 (lookup j (update e new m)) same,
          ap (matches_any s.required) empty,
          unfit,
        );
      }

  pub told-entities :
      (e : ℤ) (w : World π)
      → ((notify_removed e w).entities ≡ w.entities) × ((notify_removed e w).systems ≡ w.systems)
  unfolding notify_removed
  told-entities e w =
      let P = λ (t : World π). (t.entities ≡ w.entities) × (t.systems ≡ w.systems) in
      option_ind P (find_system network_system w.systems) (λ missing. (refl, refl))
        (λ s found. if_ind P (has_member s e) (λ inside. (refl, refl)) (λ outside. (refl, refl)))
