-- ===== src/Ecs/Profiles.antt =====
-- The identifiers and requirements of the systems of common/System_Manager.cpp, call by call.
use sfrpg.Base.{
  ℕ, zero, suc, ◌≡◌, refl, ap, ◌∙◌, if◌then◌else◌, List, [], ◌∷◌, ℤ, Bool, if_ind, option_ind,
  lookup,
}
use sfrpg.Platform.{Platform}
use sfrpg.Ecs.Bitmask.{get_bit}
use sfrpg.Ecs.Components.{Junk, new_part}
use sfrpg.Ecs.State.{SystemBase, World}
use sfrpg.Ecs.Systems.{
  has_member, add_member, remove_member, purge_members, fits_requirements, reconsider, map_systems,
  entity_modified, leave_systems, purge_entities, add_event, holds,
}
use sfrpg.Ecs.Entities.{
  attach, add_component, detach, remove_component, add_components, furnish, add_entity, chosen_id,
  remove_entity, purge, n_component_types, find_part,
}
use sfrpg.Ecs.Membership.{told-entities}
use sfrpg.Ecs.History.{
  Change, adds_entity, removes_entity, adds_component, removes_component, purges, History, begin,
  then_call,
}

abbrev pub Profile : Type 0
Profile = ℕ × List ℕ

abbrev pub profile : SystemBase → Profile
profile s = (s.system_id, s.required)

abbrev pub profiles : List SystemBase → List Profile
profiles [] = []
profiles (s ∷ ss) = profile s ∷ profiles ss

profiles-map_systems :
    (f : SystemBase → SystemBase) (same : (s : SystemBase) → profile (f s) ≡ profile s)
    (ss : List SystemBase)
    → profiles (map_systems f ss) ≡ profiles ss
profiles-map_systems f same [] = refl
profiles-map_systems f same (s ∷ ss) = λ i. same s i ∷ profiles-map_systems f same ss i

profile-remove_member : (s : SystemBase) (e : ℤ) → profile (remove_member s e).0 ≡ profile s
unfolding remove_member
profile-remove_member s e =
    if_ind (λ (r : SystemBase × Bool). profile r.0 ≡ profile s) (holds e s.members) (λ inside. refl)
      (λ outside. refl)

profile-add_member : (s : SystemBase) (e : ℤ) → profile (add_member s e).0 ≡ profile s
unfolding add_member
profile-add_member s e =
    if_ind (λ (r : SystemBase × Bool). profile r.0 ≡ profile s) (has_member s e) (λ inside. refl)
      (λ outside. refl)

profile-reconsider : (e : ℤ) (bits : ℕ) (s : SystemBase) → profile (reconsider e bits s) ≡ profile s
unfolding reconsider
profile-reconsider e bits s =
    let P = λ (r : SystemBase). profile r ≡ profile s in
    if_ind P (has_member s e)
      (λ inside.
        if_ind P (fits_requirements s bits) (λ fit. refl) (λ unfit. profile-remove_member s e))
      (λ outside.
        if_ind P (fits_requirements s bits) (λ fit. profile-add_member s e) (λ unfit. refl))

module _ {π : Platform} where
  -- The identifiers and requirements are those of another world.
  abbrev SameProfiles : World π → World π → Type 0
  SameProfiles w v = profiles v.systems ≡ profiles w.systems

  modified-SameProfiles :
      (e : ℤ) (bits : ℕ) (w : World π) → SameProfiles w (entity_modified e bits w)
  unfolding entity_modified
  modified-SameProfiles e bits w =
      profiles-map_systems (reconsider e bits) (profile-reconsider e bits) w.systems

  add_component-SameProfiles :
      (junk : Junk) (e : ℤ) (c : ℕ) (w : World π) → SameProfiles w (add_component junk e c w).0
  unfolding add_component attach
  add_component-SameProfiles junk e c w =
      let P = λ (r : World π × Bool). SameProfiles w r.0 in
      option_ind P (lookup e w.entities) (λ missing. refl)
        (λ d known.
          if_ind P (get_bit d.bitmask c) (λ present. refl)
            (λ absent.
              option_ind P (new_part π junk c) (λ unknown. refl)
                (λ p made. modified-SameProfiles e _ _)))

  remove_component-SameProfiles :
      (e : ℤ) (c : ℕ) (w : World π) → SameProfiles w (remove_component e c w).0
  unfolding remove_component detach
  remove_component-SameProfiles e c w =
      let P = λ (r : World π × Bool). SameProfiles w r.0 in
      option_ind P (lookup e w.entities) (λ missing. refl)
        (λ d known.
          if_ind P (get_bit d.bitmask c)
            (λ present.
              option_ind P (find_part c d.components) (λ lost. refl)
                (λ p found. modified-SameProfiles e _ _))
            (λ absent. refl))

  add_components-SameProfiles :
      (junk : Junk) (id : ℤ) (l_bits n i : ℕ) (w : World π)
      → SameProfiles w (add_components junk id l_bits n i w)
  unfolding add_components
  add_components-SameProfiles junk id l_bits zero i w = refl
  add_components-SameProfiles junk id l_bits (suc n) i w =
      let next = if get_bit l_bits i then (add_component junk id i w).0 else w in
      add_components-SameProfiles junk id l_bits n (suc i) next
      ∙ if_ind (SameProfiles w) (get_bit l_bits i) (λ asked. add_component-SameProfiles junk id i w)
          (λ unasked. refl)

  add_event-systems : (e : ℤ) (event : ℕ) (w : World π) → (add_event e event w).systems ≡ w.systems
  unfolding add_event
  add_event-systems e event w =
      option_ind (λ (t : World π). t.systems ≡ w.systems) (lookup e w.events) (λ fresh. refl)
        (λ queue known. refl)

  add_entity-SameProfiles :
      (junk : Junk) (l_bits : ℕ) (l_id : ℤ) (w : World π)
      → SameProfiles w (add_entity junk l_bits l_id w).0
  unfolding add_entity furnish
  add_entity-SameProfiles junk l_bits l_id w =
      let id = chosen_id l_id w in
      option_ind (λ (r : World π × ℤ). SameProfiles w r.0) (lookup id w.entities)
        (λ free.
          ap profiles (add_event-systems id _ _)
          ∙ modified-SameProfiles id l_bits _
          ∙ add_components-SameProfiles junk id l_bits n_component_types 0 _)
        (λ d taken. refl)

  remove_entity-SameProfiles : (e : ℤ) (w : World π) → SameProfiles w (remove_entity e w).0
  unfolding remove_entity leave_systems
  remove_entity-SameProfiles e w =
      option_ind (λ (r : World π × Bool). SameProfiles w r.0) (lookup e w.entities)
        (λ missing. refl)
        (λ d known.
          profiles-map_systems (λ s. (remove_member s e).0) (λ s. profile-remove_member s e) _
          ∙ ap profiles (told-entities e w).1)

  Change-SameProfiles : {w v : World π} → Change w v → SameProfiles w v
  unfolding purge purge_entities purge_members
  Change-SameProfiles {w} (adds_entity junk l_bits l_id lt) =
      add_entity-SameProfiles junk l_bits l_id w
  Change-SameProfiles {w} (removes_entity e) = remove_entity-SameProfiles e w
  Change-SameProfiles {w} (adds_component junk e c lt) = add_component-SameProfiles junk e c w
  Change-SameProfiles {w} (removes_component e c lt) = remove_component-SameProfiles e c w
  Change-SameProfiles {w} purges = profiles-map_systems purge_members (λ s. refl) w.systems

  pub History-SameProfiles : {w v : World π} → History w v → SameProfiles w v
  History-SameProfiles begin = refl
  History-SameProfiles (then_call past call) = Change-SameProfiles call ∙ History-SameProfiles past
