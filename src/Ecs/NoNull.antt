-- ===== src/Ecs/NoNull.antt =====
-- hasComponent against getComponent of common/Entity_Manager.h, call by call.
use sfrpg.Base.{
  ℕ, zero, suc, ◌+◌, ◌<◌, ◌≡◌, refl, sym, inl, inr, Bool, if◌then◌else◌, List, [], ℤ, arith,
  Option-cases, if_ind, option_ind, subst, lookup, update, emplace_new, Each, Each-update,
  Each-append, Each-lookup,
}
use sfrpg.Platform.{Platform}
use sfrpg.Ecs.Bitmask.{get_bit}
use sfrpg.Ecs.Components.{Junk, new_part}
use sfrpg.Ecs.State.{EntityData, World, event_spawned}
use sfrpg.Ecs.Systems.{entity_modified, leave_systems, add_event, purge_entities}
use sfrpg.Ecs.Entities.{
  find_part, get_component, has_component, attach, add_component, detach, remove_component,
  add_components, furnish, add_entity, chosen_id, remove_entity, purge, n_component_types,
}
use sfrpg.Ecs.Membership.{told-entities}
use sfrpg.Ecs.History.{
  Change, adds_entity, removes_entity, adds_component, removes_component, purges, History, begin,
  then_call, IsFresh,
}
use sfrpg.Ecs.Presence.{is_some, PartsOk, grown-PartsOk, shrunk-PartsOk, bare-PartsOk}

module _ {π : Platform} where
  abbrev PartsAllOk : World π → Type 0
  PartsAllOk w = Each PartsOk w.entities

  add_component-PartsAllOk :
      (junk : Junk) (e : ℤ) (c : ℕ) (w : World π)
      → c < 32
      → PartsAllOk w
      → PartsAllOk (add_component junk e c w).0
  unfolding add_component attach entity_modified
  add_component-PartsAllOk junk e c w lt ok =
      let P = λ (r : World π × Bool). PartsAllOk r.0 in
      option_ind P (lookup e w.entities) (λ missing. ok)
        (λ d known.
          if_ind P (get_bit d.bitmask c) (λ present. ok)
            (λ absent.
              option_ind P (new_part π junk c) (λ unknown. ok)
                (λ p made. Each-update PartsOk e _ w.entities ok (
                  grown-PartsOk d junk c p lt absent made
                    (Each-lookup PartsOk e d w.entities ok known)))))

  remove_component-PartsAllOk :
      (e : ℤ) (c : ℕ) (w : World π) → c < 32 → PartsAllOk w → PartsAllOk (remove_component e c w).0
  unfolding remove_component detach entity_modified
  remove_component-PartsAllOk e c w lt ok =
      let P = λ (r : World π × Bool). PartsAllOk r.0 in
      option_ind P (lookup e w.entities) (λ missing. ok)
        (λ d known.
          if_ind P (get_bit d.bitmask c)
            (λ present.
              option_ind P (find_part c d.components) (λ lost. ok)
                (λ p found.
                  Each-update PartsOk e _ w.entities ok
                    (shrunk-PartsOk d c lt (Each-lookup PartsOk e d w.entities ok known))))
            (λ absent. ok))

  remove_entity-PartsAllOk : (e : ℤ) (w : World π) → PartsAllOk w → PartsAllOk (remove_entity e w).0
  unfolding remove_entity leave_systems
  remove_entity-PartsAllOk e w ok =
      option_ind (λ (r : World π × Bool). PartsAllOk r.0) (lookup e w.entities) (λ missing. ok)
        (λ d known.
          let bare : EntityData π = record d { bitmask = 0; components = [] } in
          subst (λ (m : List (ℤ × EntityData π)). Each PartsOk (update e bare m))
            (sym (told-entities e w).0) (Each-update PartsOk e bare w.entities ok (bare-PartsOk d)))

  add_components-PartsAllOk :
      (junk : Junk) (id : ℤ) (l_bits n i : ℕ) (w : World π)
      → n + i ≡ 32
      → PartsAllOk w
      → PartsAllOk (add_components junk id l_bits n i w)
  unfolding add_components
  add_components-PartsAllOk junk id l_bits zero i w e ok = ok
  add_components-PartsAllOk junk id l_bits (suc n) i w e ok =
      add_components-PartsAllOk junk id l_bits n (suc i)
        (if get_bit l_bits i then (add_component junk id i w).0 else w) (omega arith)
        (if_ind PartsAllOk (get_bit l_bits i) {x = (add_component junk id i w).0} {y = w}
          (λ asked. add_component-PartsAllOk junk id i w (omega arith) ok) (λ unasked. ok))

  add_event-entities :
      (e : ℤ) (event : ℕ) (w : World π) → (add_event e event w).entities ≡ w.entities
  unfolding add_event
  add_event-entities e event w =
      option_ind (λ (t : World π). t.entities ≡ w.entities) (lookup e w.events) (λ fresh. refl)
        (λ queue known. refl)

  furnish-PartsAllOk :
      (junk : Junk) (id : ℤ) (l_bits : ℕ) (w : World π)
      → PartsAllOk w
      → PartsAllOk (furnish junk id l_bits w)
  unfolding furnish entity_modified
  furnish-PartsAllOk junk id l_bits w ok =
      let u = add_components junk id l_bits n_component_types 0 w in
      subst (Each PartsOk) (sym (add_event-entities id event_spawned (entity_modified id l_bits u)))
        (add_components-PartsAllOk junk id l_bits 32 0 w (omega arith) ok)

  add_entity-PartsAllOk :
      (junk : Junk) (l_bits : ℕ) (l_id : ℤ) (w : World π)
      → PartsAllOk w
      → PartsAllOk (add_entity junk l_bits l_id w).0
  unfolding add_entity
  add_entity-PartsAllOk junk l_bits l_id w ok =
      let id = chosen_id l_id w in
      let blank : EntityData π = record { bitmask = 0; entity_type = []; components = [] } in
      option_ind (λ (r : World π × ℤ). PartsAllOk r.0) (lookup id w.entities)
        (λ free. furnish-PartsAllOk junk id l_bits _ (
          rw (emplace_new id blank w.entities free)
            (Each-append PartsOk id blank w.entities ok (bare-PartsOk blank))))
        (λ d taken. ok)

  Change-PartsAllOk : {w v : World π} → Change w v → PartsAllOk w → PartsAllOk v
  unfolding purge purge_entities
  Change-PartsAllOk {w} (adds_entity junk l_bits l_id lt) ok =
      add_entity-PartsAllOk junk l_bits l_id w ok
  Change-PartsAllOk {w} (removes_entity e) ok = remove_entity-PartsAllOk e w ok
  Change-PartsAllOk {w} (adds_component junk e c lt) ok = add_component-PartsAllOk junk e c w lt ok
  Change-PartsAllOk {w} (removes_component e c lt) ok = remove_component-PartsAllOk e c w lt ok
  Change-PartsAllOk {w} purges ok = tt

  History-PartsAllOk : {w v : World π} → History w v → PartsAllOk w → PartsAllOk v
  History-PartsAllOk begin ok = ok
  History-PartsAllOk (then_call past call) ok = Change-PartsAllOk call (History-PartsAllOk past ok)

  -- From an empty world with the server's systems, after any calls of addEntity, removeEntity,
  -- addComponent, removeComponent and purge: for each of the 32 component types, getComponent gives a
  -- component exactly when hasComponent says that there is one.
  pub History-get_component :
      {w v : World π} (e : ℤ) (c : ℕ)
      → History w v
      → IsFresh w
      → c < 32
      → is_some (get_component v e c) ≡ has_component v e c
  unfolding get_component has_component
  History-get_component {w} {v} e c past fresh lt =
      let ok = History-PartsAllOk past (simp fresh.0 tt) in
      elim (Option-cases (lookup e v.entities)) [
        | inl missing ↦ ground arith
        | inr (d, known) ↦
            let parts = Each-lookup PartsOk e d v.entities ok known in
            ground (arith, parts.bits c lt)
      ]
