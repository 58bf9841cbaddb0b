-- ===== src/Ecs/History.antt =====
-- The entity manager's operations one after the other, from an empty world with the server's systems.
use sfrpg.Base.{
  ℕ, ◌^◌, ◌<◌, ◌≡◌, refl, Bool, some, [], ℤ, lookup, update, All, All-map, arith, option_ind,
  Each-update,
}
use sfrpg.Platform.{Platform}
use sfrpg.Ecs.Components.{Junk}
use sfrpg.Ecs.State.{EntityData, SystemBase, World}
use sfrpg.Ecs.Systems.{
  has_member, holds, purge_members, purge_entities, leave_systems, remove_member,
}
use sfrpg.Ecs.Entities.{
  add_entity, remove_entity, notify_removed, add_component, remove_component, purge,
}
use sfrpg.Ecs.Members.{All-map_systems, Demand}
use sfrpg.Ecs.Membership.{
  fits_entity, SystemOk, WorldOk, add_component-WorldOk, remove_component-WorldOk, left-SystemOk,
  told-entities,
}
use sfrpg.Ecs.NewEntity.{add_entity-WorldOk}
use sfrpg.Ecs.ServerSystems.{server_systems, server_systems-Demand}

module _ {π : Platform} where
  purge-WorldOk : (w : World π) → WorldOk w → WorldOk (purge w)
  unfolding purge purge_entities has_member holds purge_members fits_entity lookup
  purge-WorldOk w ok = record {
    systems_ok =
        All-map_systems (SystemOk w.entities) (SystemOk {π = π} []) purge_members
          (λ s h. record { unique = tt; demands = h.demands; agrees = λ e. refl }) w.systems
          ok.systems_ok;
    masks_small = tt;
  }

  left-WorldOk :
      (e : ℤ) (d : EntityData π) (w t : World π)
      → lookup e w.entities ≡ some d
      → (t.entities ≡ w.entities) × (t.systems ≡ w.systems)
      → WorldOk w
      → WorldOk (
          leave_systems e (record t {
            entities = update e (record d { bitmask = 0; components = [] }) t.entities;
          }))
  unfolding leave_systems
  left-WorldOk e d w t known same ok =
      let bare : EntityData π = record d { bitmask = 0; components = [] } in
      let on_systems =
        All-map_systems (SystemOk w.entities) (SystemOk (update e bare w.entities))
          (λ s. (remove_member s e).0) (λ s. left-SystemOk e d bare w.entities s known refl)
          w.systems ok.systems_ok in
      let on_masks =
        Each-update (λ (c : EntityData π). c.bitmask < 2 ^ 32) e bare w.entities ok.masks_small
          (omega arith) in
      record { systems_ok = simp (same.0, same.1) on_systems; masks_small = simp same.0 on_masks }

  pub remove_entity-WorldOk : (e : ℤ) (w : World π) → WorldOk w → WorldOk (remove_entity e w).0
  unfolding remove_entity
  remove_entity-WorldOk e w ok =
      option_ind (λ (r : World π × Bool). WorldOk r.0) (lookup e w.entities) (λ missing. ok)
        (λ d known. left-WorldOk e d w (notify_removed e w) known (told-entities e w) ok)

  -- One call of the entity manager.
  pub data Change (w : World π) : World π → Type 0 where
    adds_entity :
        (junk : Junk) (l_bits : ℕ) (l_id : ℤ)
        → l_bits < 2 ^ 32
        → Change w (add_entity junk l_bits l_id w).0
    removes_entity : (e : ℤ) → Change w (remove_entity e w).0
    adds_component : (junk : Junk) (e : ℤ) (c : ℕ) → c < 32 → Change w (add_component junk e c w).0
    removes_component : (e : ℤ) (c : ℕ) → c < 32 → Change w (remove_component e c w).0
    purges : Change w (purge w)

  pub data History (w : World π) : World π → Type 0 where
    begin : History w w
    then_call : {u v : World π} → History w u → Change u v → History w v

  Change-WorldOk : {w v : World π} → Change w v → WorldOk w → WorldOk v
  Change-WorldOk {w} (adds_entity junk l_bits l_id lt) ok =
      add_entity-WorldOk junk l_bits l_id w lt ok
  Change-WorldOk {w} (removes_entity e) ok = remove_entity-WorldOk e w ok
  Change-WorldOk {w} (adds_component junk e c lt) ok = add_component-WorldOk w junk e c lt ok
  Change-WorldOk {w} (removes_component e c lt) ok = remove_component-WorldOk w e c ok
  Change-WorldOk {w} purges ok = purge-WorldOk w ok

  pub History-WorldOk : {w v : World π} → History w v → WorldOk w → WorldOk v
  History-WorldOk begin ok = ok
  History-WorldOk (then_call past call) ok = Change-WorldOk call (History-WorldOk past ok)

  -- The empty world with the server's systems.
  abbrev pub IsFresh : World π → Type 0
  IsFresh w = (w.entities ≡ []) × (w.systems ≡ server_systems)

  pub fresh-WorldOk : (w : World π) → IsFresh w → WorldOk w
  unfolding has_member holds fits_entity lookup
  fresh-WorldOk w fresh =
      let start : All (SystemOk {π = π} []) server_systems = fresh_systems in
      record { systems_ok = simp (fresh.0, fresh.1) start; masks_small = simp fresh.0 tt }
    where
      empty_ok : (s : SystemBase) → All Demand s.required → s.members ≡ [] → SystemOk {π = π} [] s
      empty_ok s h e = record { unique = simp e tt; demands = h; agrees = λ j. simp e refl }

      fresh_systems : All (SystemOk {π = π} []) server_systems
      fresh_systems =
          let (h0, (h1, (h2, (h3, (h4, (h5, (h6, h7))))))) = server_systems-Demand in
          (
            empty_ok _ h0 refl,
            (
              empty_ok _ h1 refl,
              (
                empty_ok _ h2 refl,
                (
                  empty_ok _ h3 refl,
                  (empty_ok _ h4 refl, (empty_ok _ h5 refl, (empty_ok _ h6 refl, tt))),
                ),
              ),
            ),
          )

  -- From an empty world with the server's systems, after any calls of addEntity, removeEntity,
  -- addComponent, removeComponent and purge: every system holds an entity exactly when the entity is
  -- there and its components satisfy one of the system's requirements.
  pub History-has_member :
      {w v : World π}
      → History w v
      → IsFresh w
      → All (λ s. (e : ℤ) → has_member s e ≡ fits_entity s (lookup e v.entities)) v.systems
  History-has_member {v = v} past fresh =
      All-map (λ s (h : SystemOk v.entities s). h.agrees) v.systems
        (History-WorldOk past (fresh-WorldOk _ fresh)).systems_ok
