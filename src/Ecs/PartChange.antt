-- ===== src/Ecs/PartChange.antt =====
-- A change of one component's data, as the systems make it through the pointer that
-- EntityManager::getComponent of common/Entity_Manager.h gives.
use sfrpg.Base.{
  ◌^◌, ◌<◌, ◌≡◌, refl, ◌∙◌, some, List, ℤ, eq_ℤ_iff, arith, option_ind, lookup, update,
  lookup-update, All-map, Each-update, Each-lookup,
}
use sfrpg.Platform.{Platform}
use sfrpg.Ecs.Components.{Part}
use sfrpg.Ecs.State.{EntityData, SystemBase, World}
use sfrpg.Ecs.Parts.{set_part, put_part}
use sfrpg.Ecs.Membership.{WorldOk, fits_entity}

module _ {π : Platform} where
  same_mask :
      (e : ℤ) (old new : EntityData π) (m : List (ℤ × EntityData π)) (s : SystemBase) (j : ℤ)
      → lookup e m ≡ some old
      → new.bitmask ≡ old.bitmask
      → fits_entity s (lookup j m) ≡ fits_entity s (lookup j (update e new m))
  unfolding fits_entity
  same_mask e old new m s j known same =
      ground (arith, known, same, eq_ℤ_iff e j, lookup-update e j new old m known)

  -- A change of a component's data keeps what the systems hold in step with the entities.
  pub set_part-WorldOk : (e : ℤ) (p : Part π) (w : World π) → WorldOk w → WorldOk (set_part e p w)
  unfolding set_part
  set_part-WorldOk e p w ok =
      option_ind WorldOk (lookup e w.entities) (λ missing. ok)
        (λ d known.
          let new : EntityData π = record d { components = put_part p d.components } in
          record {
            systems_ok =
                All-map
                  (λ s h. record {
                    unique = h.unique;
                    demands = h.demands;
                    agrees = λ j. h.agrees j ∙ same_mask e d new w.entities s j known refl;
                  })
                  w.systems ok.systems_ok;
            masks_small =
                Each-update (λ (c : EntityData π). c.bitmask < 2 ^ 32) e new w.entities
                  ok.masks_small
                  (Each-lookup (λ (c : EntityData π). c.bitmask < 2 ^ 32) e d w.entities
                    ok.masks_small known);
          })
