-- ===== src/Game/EventLaws.antt =====
-- Lemmas on SystemManager::handleEvents of common/System_Manager.cpp as a whole.
use sfrpg.Base.{
  ℕ, zero, suc, ◌<◌, ◌≡◌, refl, sym, ap, ◌∙◌, inl, inr, true, false, if◌then◌else◌, none, some,
  List, [], ◌∷◌, ℤ, eq_ℤ, eq_ℤ_refl, arith, Bool-cases, Option-cases, subst, length, All, All-map,
  lookup, update, keys, Distinct, Each, Each-update, Each-lookup, lookup-update, eq_ℤ_flip,
}
use sfrpg.Platform.{Platform}
use sfrpg.Ecs.State.{World, Outcome, done}
use sfrpg.Ecs.Entities.{get_component}
use sfrpg.Ecs.Parts.{movable_of, state_of}
use sfrpg.Ecs.StateSystem.{in_system}
use sfrpg.Game.Events.{
  pop_event, process_events, handle_queue, handle_queues, handle_events, offer_event,
}
use sfrpg.Game.Handlers.{Kept, ready, Kept-ready, offer_event-Keeps}

-- The same queues with nothing in them.
abbrev pub emptied : List (ℤ × List ℕ) → List (ℤ × List ℕ)
emptied [] = []
emptied ((e, queue) ∷ m) = (e, []) ∷ emptied m

-- The queues of the entities emptied one after the other.
abbrev empty_each : List ℤ → List (ℤ × List ℕ) → List (ℤ × List ℕ)
empty_each [] m = m
empty_each (e ∷ es) m = empty_each es (update e [] m)

update_past :
    (j : ℤ) (q : List ℕ) (es : List ℤ) (m : List (ℤ × List ℕ))
    → All (λ i. eq_ℤ i j ≡ false) es
    → empty_each es ((j, q) ∷ m) ≡ (j, q) ∷ empty_each es m
unfolding update
update_past j q [] m h = refl
update_past j q (e ∷ es) m h = rw (eq_ℤ_flip e j h.0) (update_past j q es (update e [] m) h.1)

empty_each-emptied : (m : List (ℤ × List ℕ)) → Distinct m → empty_each (keys m) m ≡ emptied m
unfolding update
empty_each-emptied [] d = refl
empty_each-emptied ((j, q) ∷ m) d =
    ap (empty_each (keys m)) (here j q m)
    ∙ update_past j [] (keys m) m d.0
    ∙ ap (λ r. (j, []) ∷ r) (empty_each-emptied m d.1)
  where
    here :
        (i : ℤ) (p : List ℕ) (t : List (ℤ × List ℕ))
        → (if eq_ℤ i i then (i, []) ∷ t else (i, p) ∷ update i [] t) ≡ (i, []) ∷ t
    here i p t = rw (eq_ℤ_refl i) refl

update_twice :
    (e : ℤ) (p q : List ℕ) (m : List (ℤ × List ℕ)) → update e p (update e q m) ≡ update e p m
unfolding update
update_twice e p q [] = refl
update_twice e p q ((j, r) ∷ m) = ground (arith, update_twice e p q m)

update_missing : (e : ℤ) (p : List ℕ) (m : List (ℤ × List ℕ)) → lookup e m ≡ none → update e p m ≡ m
unfolding lookup update
update_missing e p [] h = refl
update_missing e p ((j, r) ∷ m) h = elim (Bool-cases (eq_ℤ j e)) [
  | inl same ↦ absurd (ground (arith, same))
  | inr other ↦ rw other (ap (λ t. (j, r) ∷ t) (update_missing e p m (ground (arith, other))))
]

update_same : (e : ℤ) (p : List ℕ) (m : List (ℤ × List ℕ)) → lookup e m ≡ some p → update e p m ≡ m
unfolding lookup update
update_same e p [] h = refl
update_same e p ((j, r) ∷ m) h = elim (Bool-cases (eq_ℤ j e)) [
  | inl same ↦ ground (arith, same)
  | inr other ↦ rw other (ap (λ t. (j, r) ∷ t) (update_same e p m (ground (arith, other))))
]

module _ {π : Platform} where
  pop_missing : (e : ℤ) (w : World π) → lookup e w.events ≡ none → pop_event e w ≡ none
  unfolding pop_event
  pop_missing e w h = rw (h, pop_event) refl

  pop_empty : (e : ℤ) (w : World π) → lookup e w.events ≡ some [] → pop_event e w ≡ none
  unfolding pop_event process_events
  pop_empty e w h = rw (h, pop_event) refl

  pop_next :
      (e : ℤ) (w : World π) (l_event : ℕ) (queue : List ℕ)
      → lookup e w.events ≡ some (l_event ∷ queue)
      → pop_event e w ≡ some (l_event, record w { events = update e queue w.events })
  unfolding pop_event process_events
  pop_next e w l_event queue h = rw (h, pop_event) refl

  -- What the handling of events leaves, but for the queues.
  pub record Served (w v : World π) : Type 0 where
    pub served_systems : v.systems ≡ w.systems
    pub served_ready : (e : ℤ) → ready w e ≡ true → ready v e ≡ true

  Served-refl : (w : World π) → Served w w
  Served-refl w = record { served_systems = refl; served_ready = λ e r. r }

  Served-trans : {u v w : World π} → Served u v → Served v w → Served u w
  Served-trans p q = record {
    served_systems = q.served_systems ∙ p.served_systems;
    served_ready = λ e r. q.served_ready e (p.served_ready e r);
  }

  popped-ready :
      (w : World π) (m : List (ℤ × List ℕ)) (e : ℤ) → ready (record w { events = m }) e ≡ ready w e
  unfolding ready in_system movable_of state_of get_component
  popped-ready w m e = refl

  Kept-Served : {w v : World π} → Kept w v → Served w v
  Kept-Served k = record { served_systems = k.same_systems; served_ready = Kept-ready k }

  popped-Served : (w : World π) (m : List (ℤ × List ℕ)) → Served w (record w { events = m })
  popped-Served w m = record { served_systems = refl; served_ready = λ e r. popped-ready w m e ∙ r }

  -- A loop comes to a result that keeps all this, and in which the events are the ones given.
  abbrev Serves : World π → List (ℤ × List ℕ) → Outcome (World π) → Type 0
  Serves w m o = (v : World π) × (o ≡ done v) × (v.events ≡ m) × Served w v

  queue_step :
      (n rounds : ℕ) (e : ℤ) (l_event : ℕ) (w u v : World π)
      → pop_event e w ≡ some (l_event, u)
      → offer_event n u.systems e l_event u ≡ done v
      → handle_queue n (suc rounds) e w ≡ handle_queue n rounds e v
  unfolding handle_queue
  queue_step n rounds e l_event w u v popped ran = rw (popped, ran, handle_queue) refl

  handle_queue-Serves :
      (n rounds : ℕ) (e : ℤ) (queue : List ℕ) (w : World π)
      → lookup e w.events ≡ some queue
      → length queue < rounds
      → ready w e ≡ true
      → Serves w (update e [] w.events) (handle_queue (suc (suc n)) rounds e w)
  unfolding handle_queue
  handle_queue-Serves n zero e queue w known lt r = absurd (omega (arith, lt))
  handle_queue-Serves n (suc rounds) e [] w known lt r = (
    w,
    rw (pop_empty e w known, handle_queue) refl,
    sym (update_same e [] w.events known),
    Served-refl w,
  )
  handle_queue-Serves n (suc rounds) e (l_event ∷ queue) w known lt r =
      let u : World π = record w { events = update e queue w.events } in
      let (v, ran, kept) =
        offer_event-Keeps n u.systems e l_event u (popped-ready w u.events e ∙ r) in
      let left : lookup e v.events ≡ some queue =
        ap (lookup e) kept.same_events
        ∙ lookup-update e e queue (l_event ∷ queue) w.events known
        ∙ rw (eq_ℤ_refl e) refl in
      let (t, rest, empty, served) =
        handle_queue-Serves n rounds e queue v left (omega (arith, lt))
          (Kept-ready kept e (popped-ready w u.events e ∙ r)) in
      (
        t,
        queue_step (suc (suc n)) rounds e l_event w u v (pop_next e w l_event queue known) ran
            ∙ rest,
        empty ∙ ap (update e []) kept.same_events ∙ update_twice e [] queue w.events,
        Served-trans (popped-Served w u.events) (Served-trans (Kept-Served kept) served),
      )

  any_queue-Serves :
      (n rounds : ℕ) (e : ℤ) (w : World π)
      → Each (λ q. length q < suc rounds) w.events
      → ready w e ≡ true
      → Serves w (update e [] w.events) (handle_queue (suc (suc n)) (suc rounds) e w)
  unfolding handle_queue
  any_queue-Serves n rounds e w bound r = elim (Option-cases (lookup e w.events)) [
    | inl missing ↦ (
      w,
      rw (pop_missing e w missing, handle_queue) refl,
      sym (update_missing e [] w.events missing),
      Served-refl w,
    )
    | inr (queue, known) ↦
        handle_queue-Serves n (suc rounds) e queue w known
          (Each-lookup (λ q. length q < suc rounds) e queue w.events bound known) r
  ]

  queues-Serves :
      (n rounds : ℕ) (es : List ℤ) (w : World π)
      → Each (λ q. length q < suc rounds) w.events
      → All (λ e. ready w e ≡ true) es
      → Serves w (empty_each es w.events) (handle_queues (suc (suc n)) (suc rounds) es w)
  unfolding handle_queues
  queues-Serves n rounds [] w bound r = (w, refl, refl, Served-refl w)
  queues-Serves n rounds (e ∷ es) w bound r =
      let (v, ran, now, served) = any_queue-Serves n rounds e w bound r.0 in
      let still : Each (λ q. length q < suc rounds) v.events =
        subst (Each (λ q. length q < suc rounds)) (sym now)
          (Each-update (λ q. length q < suc rounds) e [] w.events bound (omega arith)) in
      let (t, rest, empty, also) =
        queues-Serves n rounds es v still (All-map served.served_ready es r.1) in
      (t, rw (ran) rest, empty ∙ ap (empty_each es) now, Served-trans served also)

  -- Where every entity that has a queue also has the components that the systems holding it need, and
  -- there are more rounds than events in any queue, handleEvents comes to a result: every queue is
  -- then empty, no queue is gone or new, and the systems hold the same entities.
  pub handle_events-drains :
      (n rounds : ℕ) (w : World π)
      → Distinct w.events
      → Each (λ q. length q < suc rounds) w.events
      → All (λ e. ready w e ≡ true) (keys w.events)
      → (v : World π) × (handle_events (suc (suc n)) (suc rounds) w ≡ done v)
        × (v.events ≡ emptied w.events)
        × (v.systems ≡ w.systems)
  unfolding handle_events
  handle_events-drains n rounds w distinct bound r =
      let (v, ran, empty, served) = queues-Serves n rounds (keys w.events) w bound r in
      (v, ran, empty ∙ empty_each-emptied w.events distinct, served.served_systems)
