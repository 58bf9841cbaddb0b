-- ===== src/Game/Handlers.antt =====
-- What the handlers of the systems' events keep: lemmas on server/S_Movement.cpp,
-- common/C_Control.cpp and common/S_State.cpp.
use sfrpg.Base.{
  ℕ, suc, ◌≡◌, refl, ◌∙◌, inl, inr, Bool, true, false, not, ◌&&◌, ◌||◌, ◌==◌, if◌then◌else◌, Option,
  none, some, List, [], ◌∷◌, ℤ, eq_ℤ, eq_ℤ_iff, arith, Bool-cases, option_ind, if_ind, subst,
  lookup,
}
use sfrpg.Platform.{Platform}
use sfrpg.Ecs.Components.{
  EntityState, idle, dying, Direction, up, down, Movable, Part, movable_part, state_part,
  movable_id, state_id, get_type,
}
use sfrpg.Ecs.State.{
  World, SystemBase, Outcome, done, movement_system, control_system, state_system,
  event_became_idle,
}
use sfrpg.Ecs.Entities.{get_component}
use sfrpg.Ecs.Parts.{set_part, movable_of, state_of, get_component-set_part, set_part-systems}
use sfrpg.Ecs.Presence.{is_some}
use sfrpg.Ecs.StateSystem.{in_system, change_state, eq_state, handle_state_event}
use sfrpg.Ecs.StateLaws.{change_state_lem}
use sfrpg.Game.Movement.{
  change_movable, stop_entity, set_direction, turn_upright, move_entity, handle_movement_event,
  handle_control_event,
}
use sfrpg.Game.Movable.{f_zero}
use sfrpg.Game.Events.{handle_event, offer_event}

present : {A : Type 0} (o : Option A) → is_some o ≡ true → (a : A) × (o ≡ some a)
present none h = absurd (ground arith)
present (some a) h = (a, refl)

module _ {π : Platform} where
  -- The two worlds have the same systems and events, and the same entities have a movement or a state.
  pub record Kept (w v : World π) : Type 0 where
    pub same_systems : v.systems ≡ w.systems
    pub same_events : v.events ≡ w.events
    pub same_movables : (j : ℤ) → is_some (movable_of v j) ≡ is_some (movable_of w j)
    pub same_states : (j : ℤ) → is_some (state_of v j) ≡ is_some (state_of w j)

  pub Kept-refl : (w : World π) → Kept w w
  Kept-refl w = record {
    same_systems = refl;
    same_events = refl;
    same_movables = λ j. refl;
    same_states = λ j. refl;
  }

  pub Kept-trans : {u v w : World π} → Kept u v → Kept v w → Kept u w
  Kept-trans p q = record {
    same_systems = q.same_systems ∙ p.same_systems;
    same_events = q.same_events ∙ p.same_events;
    same_movables = λ j. q.same_movables j ∙ p.same_movables j;
    same_states = λ j. q.same_states j ∙ p.same_states j;
  }

  set_part-events : (e : ℤ) (p : Part π) (w : World π) → (set_part e p w).events ≡ w.events
  unfolding set_part
  set_part-events e p w =
      option_ind (λ (v : World π). v.events ≡ w.events) (lookup e w.entities) (λ missing. refl)
        (λ d known. refl)

  movable_part_of :
      (w : World π) (e : ℤ) (m : Movable π)
      → movable_of w e ≡ some m
      → get_component w e movable_id ≡ some (movable_part m)
  unfolding movable_of
  movable_part_of w e m known = ground arith

  state_part_of :
      (w : World π) (e : ℤ) (s : EntityState)
      → state_of w e ≡ some s
      → get_component w e state_id ≡ some (state_part s)
  unfolding state_of
  state_part_of w e s known = ground arith

  set_movable-Kept :
      (w : World π) (e : ℤ) (m new : Movable π)
      → movable_of w e ≡ some m
      → Kept w (set_part e (movable_part new) w)
  unfolding movable_of state_of get_type
  set_movable-Kept w e m new known =
      let written = λ (j : ℤ) (t : ℕ).
        get_component-set_part w e (movable_part new) (movable_part m) j t
          (movable_part_of w e m known) in
      record {
        same_systems = set_part-systems e (movable_part new) w;
        same_events = set_part-events e (movable_part new) w;
        same_movables = λ j. elim (Bool-cases (eq_ℤ e j)) [
          | inl same ↦
              let here : movable_of w j ≡ some m =
                subst (λ (k : ℤ). movable_of w k ≡ some m) ((eq_ℤ_iff e j).0 same) known in
              ground (arith, written j movable_id, same, here)
          | inr other ↦ ground (arith, written j movable_id, other)
        ];
        same_states = λ j. ground (arith, written j state_id);
      }

  set_state-Kept :
      (w : World π) (e : ℤ) (s new : EntityState)
      → state_of w e ≡ some s
      → Kept w (set_part e (state_part new) w)
  unfolding movable_of state_of get_type
  set_state-Kept w e s new known =
      let written = λ (j : ℤ) (t : ℕ).
        get_component-set_part w e (state_part new) (state_part s) j t
          (state_part_of w e s known) in
      record {
        same_systems = set_part-systems e (state_part new) w;
        same_events = set_part-events e (state_part new) w;
        same_movables = λ j. ground (arith, written j movable_id);
        same_states = λ j. elim (Bool-cases (eq_ℤ e j)) [
          | inl same ↦
              let here : state_of w j ≡ some s =
                subst (λ (k : ℤ). state_of w k ≡ some s) ((eq_ℤ_iff e j).0 same) known in
              ground (arith, written j state_id, same, here)
          | inr other ↦ ground (arith, written j state_id, other)
        ];
      }

  -- The call comes to a result that keeps all this.
  abbrev pub Keeps : World π → Outcome (World π) → Type 0
  Keeps w o = (v : World π) × (o ≡ done v) × Kept w v

  done-Keeps : (w : World π) → Keeps w (done w)
  done-Keeps w = (w, refl, Kept-refl w)

  -- A handler tests for its events one after the other.
  choose :
      {w : World π} (b : Bool) {o p : Outcome (World π)}
      → Keeps w o
      → Keeps w p
      → Keeps w (if b then o else p)
  choose {w} b x y = if_ind (Keeps w) b (λ yes. x) (λ no. y)

  changed :
      (change : Movable π → Movable π) (e : ℤ) (w : World π) (m : Movable π)
      → movable_of w e ≡ some m
      → change_movable change e w ≡ done (set_part e (movable_part (change m)) w)
  unfolding change_movable
  changed change e w m known = rw (known, change_movable) refl

  change_movable-Keeps :
      (change : Movable π → Movable π) (e : ℤ) (w : World π)
      → is_some (movable_of w e) ≡ true
      → Keeps w (change_movable change e w)
  change_movable-Keeps change e w h =
      let (m, known) = present (movable_of w e) h in
      (
        set_part e (movable_part (change m)) w,
        changed change e w m known,
        set_movable-Kept w e m (change m) known,
      )

  turn_upright-Keeps :
      (e : ℤ) (l_direction : Direction) (w : World π)
      → is_some (movable_of w e) ≡ true
      → Keeps w (turn_upright e l_direction w)
  unfolding turn_upright set_direction
  turn_upright-Keeps e l_direction w h =
      let (m, known) = present (movable_of w e) h in
      rw (known, turn_upright)
        (if_ind (Keeps w) (π.f_eq m.velocity.x (f_zero π)) (λ still. change_movable-Keeps _ e w h)
          (λ moves. done-Keeps w))

  change_state-Keeps :
      (n : ℕ) (e : ℤ) (l_state : EntityState) (l_force : Bool) (w : World π)
      → is_some (state_of w e) ≡ true
      → Keeps w (change_state (suc (suc n)) e l_state l_force w)
  change_state-Keeps n e l_state l_force w h =
      let (current, known) = present (state_of w e) h in
      rw (change_state_lem n w e current l_state l_force known) (
        let same = eq_state l_state current || (not l_force && eq_state current dying) in
        if_ind (λ v. Keeps w (done v)) same (λ no. done-Keeps w)
          (λ yes.
            (set_part e (state_part l_state) w, refl, set_state-Kept w e current l_state known)))

  -- Where a system holds the entity, it has the component that the system's handler needs.
  unfoldable pub ready : World π → ℤ → Bool
  ready w e =
      (not (in_system movement_system e w) || is_some (movable_of w e))
      && (not (in_system control_system e w) || is_some (movable_of w e))
      && (not (in_system state_system e w) || is_some (state_of w e))

  movement-Keeps :
      (e : ℤ) (l_event : ℕ) (w : World π)
      → ready w e ≡ true
      → Keeps w (handle_movement_event e l_event w)
  unfolding handle_movement_event stop_entity set_direction ready
  movement-Keeps e l_event w r =
      if_ind (Keeps w) (not (in_system movement_system e w)) (λ out. done-Keeps w)
        (λ held.
          let h : is_some (movable_of w e) ≡ true = ground arith in
          let turns = λ (l_direction : Direction). turn_upright-Keeps e l_direction w h in
          choose (l_event == 2) (change_movable-Keeps _ e w h) (
            choose (l_event == 3) (change_movable-Keeps _ e w h) (
              choose (l_event == 4) (change_movable-Keeps _ e w h) (
                choose (l_event == 5) (change_movable-Keeps _ e w h) (
                  choose (l_event == 6) (turns up)
                    (choose (l_event == 7) (turns down) (done-Keeps w)))))))

  control-Keeps :
      (e : ℤ) (l_event : ℕ) (w : World π)
      → is_some (movable_of w e) ≡ true
      → Keeps w (handle_control_event e l_event w)
  unfolding handle_control_event move_entity
  control-Keeps e l_event w h = choose (l_event == 4) (change_movable-Keeps _ e w h) (
      choose (l_event == 5) (change_movable-Keeps _ e w h) (
        choose (l_event == 6) (change_movable-Keeps _ e w h)
          (choose (l_event == 7) (change_movable-Keeps _ e w h) (done-Keeps w))))

  state-Keeps :
      (n : ℕ) (e : ℤ) (l_event : ℕ) (w : World π)
      → is_some (state_of w e) ≡ true
      → Keeps w (handle_state_event (suc (suc n)) e l_event w)
  unfolding handle_state_event
  state-Keeps n e l_event w h =
      if_ind (Keeps w) (l_event == event_became_idle) (λ y. change_state-Keeps n e idle false w h)
        (λ n. done-Keeps w)

  handle_event-Keeps :
      (n l_id : ℕ) (e : ℤ) (l_event : ℕ) (w : World π)
      → in_system l_id e w ≡ true
      → ready w e ≡ true
      → Keeps w (handle_event (suc (suc n)) l_id e l_event w)
  unfolding handle_event ready
  handle_event-Keeps n l_id e l_event w held r =
      if_ind (Keeps w) (l_id == movement_system) (λ y. movement-Keeps e l_event w r)
        (λ no_movement.
          if_ind (Keeps w) (l_id == control_system)
            (λ y.
              control-Keeps e l_event w
                (needed control_system (is_some (movable_of w e)) (ground arith) (ground arith)))
            (λ no_control.
              if_ind (Keeps w) (l_id == state_system)
                (λ y.
                  state-Keeps n e l_event w
                    (needed state_system (is_some (state_of w e)) (ground arith) (ground arith)))
                (λ no_state. done-Keeps w)))
    where
      needed : (id : ℕ) (b : Bool) → l_id ≡ id → (not (in_system id e w) || b) ≡ true → b ≡ true
      needed id b same h = ground (arith, subst (λ (k : ℕ). in_system k e w ≡ true) same held)

  pub Kept-ready : {w v : World π} → Kept w v → (e : ℤ) → ready w e ≡ true → ready v e ≡ true
  unfolding ready in_system
  Kept-ready k e r = rw (k.same_movables e, k.same_states e, k.same_systems) r

  -- One event of a ready entity, offered to every system.
  pub offer_event-Keeps :
      (n : ℕ) (ss : List SystemBase) (e : ℤ) (l_event : ℕ) (w : World π)
      → ready w e ≡ true
      → Keeps w (offer_event (suc (suc n)) ss e l_event w)
  unfolding offer_event
  offer_event-Keeps n [] e l_event w r = done-Keeps w
  offer_event-Keeps n (s ∷ ss) e l_event w r =
      if_ind (Keeps w) (in_system s.system_id e w)
        (λ held.
          let (v, ran, kept) = handle_event-Keeps n s.system_id e l_event w held r in
          let (u, rest, also) = offer_event-Keeps n ss e l_event v (Kept-ready kept e r) in
          (u, rw (ran, rest) refl, Kept-trans kept also))
        (λ other. offer_event-Keeps n ss e l_event w r)
