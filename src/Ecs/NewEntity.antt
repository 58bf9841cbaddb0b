-- ===== src/Ecs/NewEntity.antt =====
-- Lemmas on addEntity of common/Entity_Manager.cpp as a whole.
use sfrpg.Base.{
  ℕ, ◌^◌, ◌<◌, ◌≡◌, refl, sym, ap, ◌∙◌, inl, inr, ◌&&◌, none, some, [], ℤ, eq_ℤ, eq_ℤ_iff,
  eq_ℤ_refl, All-map, arith, Bool-cases, option_ind, subst, lookup, emplace, emplace_new,
  lookup-append_fresh, Each-append,
}
use sfrpg.Platform.{Platform}
use sfrpg.Ecs.Bitmask.{get_bit}
use sfrpg.Ecs.Bitmask.Laws.{get_bit_none}
use sfrpg.Ecs.Components.{Junk, is_registered}
use sfrpg.Ecs.State.{EntityData, World, event_spawned}
use sfrpg.Ecs.Systems.{fits_requirements, reconsider, entity_modified, add_event}
use sfrpg.Ecs.Entities.{
  add_components, furnish, add_entity, n_component_types, has_component, chosen_id,
}
use sfrpg.Ecs.Members.{All-map_systems, matches_any_empty, matches_any_agree}
use sfrpg.Ecs.Membership.{fits_entity, SystemOk, WorldOk, reconsider-SystemOk}
use sfrpg.Ecs.Furnish.{Furnished, add_components-Furnished}

module _ {π : Platform} where
  add_event-WorldOk :
      (e : ℤ) (event : ℕ) (w : World π)
      → WorldOk w
      → WorldOk (add_event e event w)
        × ((add_event e event w).entities ≡ w.entities)
        × ((add_event e event w).systems ≡ w.systems)
  unfolding add_event
  add_event-WorldOk e event w ok =
      option_ind (λ (t : World π). WorldOk t × (t.entities ≡ w.entities) × (t.systems ≡ w.systems))
        (lookup e w.events)
        (λ fresh. (record { systems_ok = ok.systems_ok; masks_small = ok.masks_small }, refl, refl))
        (λ queue known.
          (record { systems_ok = ok.systems_ok; masks_small = ok.masks_small }, refl, refl))

  -- The last call of entityModified, with the mask that was asked for.
  asked-WorldOk :
      (id : ℤ) (l_bits : ℕ) (w : World π)
      → l_bits < 2 ^ 32
      → Furnished id l_bits 32 w
      → WorldOk w
      → WorldOk (entity_modified id l_bits w)
  unfolding entity_modified fits_entity fits_requirements
  asked-WorldOk id l_bits w lt f ok = record {
    systems_ok =
        All-map_systems (SystemOk w.entities) (SystemOk w.entities) (reconsider id l_bits)
          (λ s h.
            reconsider-SystemOk id l_bits w.entities w.entities s
              (λ j. elim (Bool-cases (eq_ℤ id j)) [
                | inl same ↦
                    let e : id ≡ j = (eq_ℤ_iff id j).0 same in
                    let found = subst (λ (k : ℤ). lookup k w.entities ≡ some f.made) e f.known in
                    let agree =
                      matches_any_agree s.required l_bits f.made.bitmask h.demands lt f.small
                        (λ i l. ground (arith, f.bits i l)) in
                    rw (found, same) (sym agree)
                | inr other ↦ rw other refl
              ])
              h)
          w.systems ok.systems_ok;
    masks_small = ok.masks_small;
  }

  -- A new entity without components fits no system.
  blank-WorldOk :
      (id : ℤ) (d : EntityData π) (counter : ℕ) (w : World π)
      → lookup id w.entities ≡ none
      → d.bitmask ≡ 0
      → WorldOk w
      → WorldOk (record w { entities = (emplace id d w.entities).0; id_counter = counter })
  unfolding fits_entity fits_requirements
  blank-WorldOk id d counter w free empty ok = rw (emplace_new id d w.entities free) (record {
    systems_ok =
        All-map
          (λ s h. record {
            unique = h.unique;
            demands = h.demands;
            agrees = λ j. elim (Bool-cases (eq_ℤ id j)) [
              | inl same ↦
                  let e : id ≡ j = (eq_ℤ_iff id j).0 same in
                  let gone = subst (λ (k : ℤ). lookup k w.entities ≡ none) e free in
                  let unfit = matches_any_empty s.required h.demands in
                  h.agrees j
                  ∙ rw (gone, lookup-append_fresh id j d w.entities free, same, empty, unfit)
              | inr other ↦ h.agrees j ∙ rw (lookup-append_fresh id j d w.entities free, other)
            ];
          })
          w.systems ok.systems_ok;
    masks_small =
        Each-append (λ (c : EntityData π). c.bitmask < 2 ^ 32) id d w.entities ok.masks_small
          (rw empty (omega arith));
  })

  abbrev blank : EntityData π
  blank = record { bitmask = 0; entity_type = []; components = [] }

  -- What addEntity inserts has no component yet.
  blank-Furnished :
      (id : ℤ) (l_bits counter : ℕ) (w : World π)
      → lookup id w.entities ≡ none
      → Furnished id l_bits 0
          (record w { entities = (emplace id blank w.entities).0; id_counter = counter })
  blank-Furnished id l_bits counter w free = record {
    made = blank;
    known =
        rw (emplace_new id blank w.entities free)
          (lookup-append_fresh id id blank w.entities free ∙ rw (eq_ℤ_refl id));
    small = omega arith;
    bits = λ j l. ground (arith, get_bit_none j);
  }

  has_component_known :
      (w : World π) (id : ℤ) (c : ℕ) (d : EntityData π)
      → lookup id w.entities ≡ some d
      → has_component w id c ≡ get_bit d.bitmask c
  unfolding has_component
  has_component_known w id c d known = rw (known, has_component)

  furnish_lem :
      (junk : Junk) (id : ℤ) (l_bits : ℕ) (w : World π)
      → l_bits < 2 ^ 32
      → Furnished id l_bits 0 w
      → WorldOk w
      → WorldOk (furnish junk id l_bits w)
        × ((c : ℕ)
            → c < 32
            → has_component (furnish junk id l_bits w) id c ≡ (get_bit l_bits c && is_registered c))
  unfolding furnish entity_modified has_component
  furnish_lem junk id l_bits w lt f ok =
      let (done, fine) = add_components-Furnished junk id l_bits 32 0 w (omega arith) f ok in
      let u = add_components junk id l_bits n_component_types 0 w in
      let asked = asked-WorldOk id l_bits u lt done fine in
      let (after, same, systems) =
        add_event-WorldOk id event_spawned (entity_modified id l_bits u) asked in
      (
        after,
        λ c l.
            has_component_known (add_event id event_spawned (entity_modified id l_bits u)) id c
              done.made (ap (lookup id) same ∙ done.known)
            ∙ done.bits c l
            ∙ ground arith,
      )

  -- Adding an entity keeps the systems in step, whether it succeeds or not.
  pub add_entity-WorldOk :
      (junk : Junk) (l_bits : ℕ) (l_id : ℤ) (w : World π)
      → l_bits < 2 ^ 32
      → WorldOk w
      → WorldOk (add_entity junk l_bits l_id w).0
  unfolding add_entity
  add_entity-WorldOk junk l_bits l_id w lt ok =
      let id = chosen_id l_id w in
      option_ind (λ (r : World π × ℤ). WorldOk r.0) (lookup id w.entities)
        (λ free.
          (furnish_lem junk id l_bits _ lt (blank-Furnished id l_bits _ w free)
            (blank-WorldOk id blank _ w free refl ok)).0)
        (λ d taken. ok)

  -- An entity that is added, under the identifier given or else the counter's, gets it if no entity
  -- has it, and has exactly the components that the mask asks for and the factory knows.
  pub add_entity-has_component :
      (junk : Junk) (l_bits : ℕ) (l_id : ℤ) (w : World π) (c : ℕ)
      → l_bits < 2 ^ 32
      → WorldOk w
      → lookup (chosen_id l_id w) w.entities ≡ none
      → c < 32
      → ((add_entity junk l_bits l_id w).1 ≡ chosen_id l_id w)
        × (has_component (add_entity junk l_bits l_id w).0 (chosen_id l_id w) c
            ≡ (get_bit l_bits c && is_registered c))
  unfolding add_entity
  add_entity-has_component junk l_bits l_id w c lt ok free l =
      let id = chosen_id l_id w in
      let first = blank-Furnished id l_bits _ w free in
      let start = blank-WorldOk id blank _ w free refl ok in
      rw (free, add_entity) (refl, (furnish_lem junk id l_bits _ lt first start).1 c l)
