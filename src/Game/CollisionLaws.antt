-- ===== src/Game/CollisionLaws.antt =====
-- Lemmas on mapCollisions of server/S_Collision.cpp.
use mathlib.Core.List.{append-nil, append_assoc}
use sfrpg.Base.{
  ℕ, suc, ◌≡◌, refl, sym, ap, ◌∙◌, inl, inr, Bool, true, false, ◌||◌, ◌==◌, none, some, List, [],
  ◌∷◌, ◌++◌, ℤ, eq_ℤ_refl, arith, Option-cases, if_ind, length, lookup, lookup-append_fresh,
  lookup-update,
}
use sfrpg.Platform.{Platform}
use sfrpg.Ecs.Components.{Position, Collidable, Vector, Origin, top_left, abs_centre, mid_bottom}
use sfrpg.Ecs.State.{World, collision_system}
use sfrpg.Ecs.Systems.{add_event}
use sfrpg.Ecs.StateSystem.{in_system}
use sfrpg.Game.Map.{GameMap}
use sfrpg.Game.Movement.{event_colliding_x, event_colliding_y}
use sfrpg.Game.Bounds.{place_box, reset_flags}
use sfrpg.Game.SolidTiles.{met, columns, rows, length-solid_tiles}
use sfrpg.Game.Collision.{
  Geometry, CollisionElement, resolve, resolve_all, map_collisions, push_out, solid_tiles,
  sort_elements, insert_element,
}

unfoldable pub contains : ℕ → List ℕ → Bool
contains n [] = false
contains n (m ∷ ms) = m == n || contains n ms

module _ {π : Platform} where
  length-insert_element :
      (c : CollisionElement π) (cs : List (CollisionElement π))
      → length (insert_element c cs) ≡ suc (length cs)
  unfolding insert_element
  length-insert_element c [] = refl
  length-insert_element c (d ∷ ds) = ground (arith, length-insert_element c ds)

  length-sort_elements : (cs : List (CollisionElement π)) → length (sort_elements cs) ≡ length cs
  unfolding sort_elements
  length-sort_elements [] = refl
  length-sort_elements (c ∷ cs) =
      length-insert_element c (sort_elements cs) ∙ ap suc (length-sort_elements cs)

  -- The events that wait for an entity, oldest first.
  unfoldable pub queue_of : ℤ → World π → List ℕ
  queue_of e w = elim (lookup e w.events) [ none ↦ [] | some queue ↦ queue ]

  queue_of-add_event :
      (e : ℤ) (l_event : ℕ) (w : World π)
      → queue_of e (add_event e l_event w) ≡ queue_of e w ++ l_event ∷ []
  unfolding queue_of add_event
  queue_of-add_event e l_event w = elim (Option-cases (lookup e w.events)) [
    | inl missing ↦
        let stored : lookup e (add_event e l_event w).events ≡ some (l_event ∷ []) =
          rw (missing, add_event)
            (lookup-append_fresh e e (l_event ∷ []) w.events missing ∙ rw (eq_ℤ_refl e) refl) in
        rw (stored, missing, queue_of) refl
    | inr (queue, known) ↦
        let longer = queue ++ l_event ∷ [] in
        let stored : lookup e (add_event e l_event w).events ≡ some longer =
          rw (known, add_event)
            (lookup-update e e longer queue w.events known ∙ rw (eq_ℤ_refl e) refl) in
        rw (stored, known, queue_of) refl
  ]

  -- The flags that an event of a collision leaves, given those before it.
  abbrev Flagged : ℕ → Collidable π → Collidable π → Type 0
  Flagged l_event col placed =
      (placed.colliding_on_x ≡ (col.colliding_on_x || l_event == event_colliding_x))
      × (placed.colliding_on_y ≡ (col.colliding_on_y || l_event == event_colliding_y))

  origin_ind :
      (P : Collidable π → Type 0) (o : Origin) {a b : Collidable π}
      → P a
      → P b
      → P (elim o [ top_left ↦ a | abs_centre ↦ b | mid_bottom ↦ b ])
  origin_ind P top_left p q = p
  origin_ind P abs_centre p q = q
  origin_ind P mid_bottom p q = q

  place_box-flags :
      (v : Vector π) (col : Collidable π)
      → ((place_box v col).colliding_on_x ≡ col.colliding_on_x)
        × ((place_box v col).colliding_on_y ≡ col.colliding_on_y)
  unfolding place_box
  place_box-flags v col =
      origin_ind
        (λ r. (r.colliding_on_x ≡ col.colliding_on_x) × (r.colliding_on_y ≡ col.colliding_on_y))
        col.origin (refl, refl) (refl, refl)

  resolve-Flagged :
      (e : ℤ) (c : CollisionElement π) (pos : Position π) (col : Collidable π) (w : World π)
      → let (moved, placed, told) = resolve e c pos col w in
        (l_event : ℕ) × (told ≡ add_event e l_event w) × Flagged l_event col placed
  unfolding resolve
  resolve-Flagged e c pos col w =
      if_ind
        (λ (r : Position π × Collidable π × World π).
          (l_event : ℕ) × (r.2 ≡ add_event e l_event w) × Flagged l_event col r.1)
        (push_out col.aabb c.tile_bounds).0
        (λ along_x. (
          event_colliding_x,
          refl,
          (ground arith, (place_box-flags _ col).1 ∙ or_false col.colliding_on_y),
        ))
        (λ along_y. (
          event_colliding_y,
          refl,
          ((place_box-flags _ col).0 ∙ or_false col.colliding_on_x, ground arith),
        ))
    where
      or_false : (b : Bool) → b ≡ (b || false)
      or_false b = ground arith

  -- The events of a run of collisions, and the flags that they leave.
  abbrev Told : ℤ → ℕ → Collidable π → World π → Position π × Collidable π × World π → Type 0
  Told e count col w (moved, placed, told) =
      (added : List ℕ) × (queue_of e told ≡ queue_of e w ++ added)
      × (length added ≡ count)
      × (placed.colliding_on_x ≡ (col.colliding_on_x || contains event_colliding_x added))
      × (placed.colliding_on_y ≡ (col.colliding_on_y || contains event_colliding_y added))

  resolve_all-Told :
      (e : ℤ) (cs : List (CollisionElement π)) (pos : Position π) (col : Collidable π) (w : World π)
      → Told e (length cs) col w (resolve_all e cs pos col w)
  unfolding resolve_all contains
  resolve_all-Told e [] pos col w =
      ([], sym (append-nil (queue_of e w)), refl, ground arith, ground arith)
  resolve_all-Told e (c ∷ cs) pos col w =
      let (moved, placed, told) = resolve e c pos col w in
      let (l_event, now, flags) = resolve-Flagged e c pos col w in
      let (added, queue, count, on_x, on_y) = resolve_all-Told e cs moved placed told in
      (
        l_event ∷ added,
        queue
            ∙ ap (λ v. queue_of e v ++ added) now
            ∙ ap (λ q. q ++ added) (queue_of-add_event e l_event w)
            ∙ append_assoc (queue_of e w) (l_event ∷ []) added,
        ap suc count,
        ground (arith, on_x, flags),
        ground (arith, on_y, flags),
      )

  -- mapCollisions of an entity of the system, on a box whose flags were reset, adds one event to the
  -- entity's queue for each place, in the columns and rows that the box touches, where on one of the
  -- four layers there is a solid tile whose square the box meets in an area; afterwards the box is flagged as colliding on
  -- an axis exactly if one of these events is the collision on that axis.
  pub map_collisions-flags :
      (γ : Geometry π) (m : GameMap π) (e : ℤ) (pos : Position π) (col : Collidable π) (w : World π)
      → in_system collision_system e w ≡ true
      → let (moved, placed, told) = map_collisions γ m e pos (reset_flags col) w in
        (added : List ℕ) × (queue_of e told ≡ queue_of e w ++ added)
        × (length added ≡ met γ m col.aabb (columns γ m col.aabb) (rows γ m col.aabb))
        × (placed.colliding_on_x ≡ contains event_colliding_x added)
        × (placed.colliding_on_y ≡ contains event_colliding_y added)
  unfolding map_collisions reset_flags
  map_collisions-flags γ m e pos col w held =
      let clean = reset_flags col in
      let cs = sort_elements (solid_tiles γ m col.aabb) in
      let (added, queue, count, on_x, on_y) = resolve_all-Told e cs pos clean w in
      rw (held) (
        added,
        queue,
        count ∙ length-sort_elements (solid_tiles γ m col.aabb) ∙ length-solid_tiles γ m col.aabb,
        on_x,
        on_y,
      )
