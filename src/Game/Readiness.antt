-- ===== src/Game/Readiness.antt =====
-- The components that the handlers of the server's systems read (server/S_Movement.cpp,
-- common/C_Control.cpp, common/S_State.cpp), against the requirements of the systems.
use sfrpg.Base.{
  suc, length, Distinct, keys, ℕ, ◌^◌, ◌<◌, ◌≡◌, refl, sym, ap, ◌∙◌, inl, inr, Bool, true, not,
  ◌&&◌, ◌||◌, ◌==◌, if◌then◌else◌, some, List, [], ◌∷◌, ℤ, All, arith, Bool-cases, Option-cases,
  subst, lookup, Each, Each-lookup,
}
use sfrpg.Platform.{Platform}
use sfrpg.Ecs.Bitmask.{get_bit, turn_on_bit}
use sfrpg.Ecs.Bitmask.Laws.{matches_iff}
use sfrpg.Ecs.Components.{
  Part, get_type, movable_id, state_id, position_part, state_part, movable_part, controller_part,
  collidable_part, client_part, health_part, name_part, attacker_part,
}
use sfrpg.Ecs.State.{
  EntityData, SystemBase, World, done, movement_system, control_system, state_system,
}
use sfrpg.Ecs.Systems.{find_system, matches_any, fits_requirements}
use sfrpg.Ecs.Entities.{get_component, has_component, find_part}
use sfrpg.Ecs.Parts.{movable_of, state_of, as_movable, as_state}
use sfrpg.Ecs.StateSystem.{in_system}
use sfrpg.Ecs.Members.{Demand}
use sfrpg.Ecs.Membership.{SystemOk, WorldOk, fits_entity}
use sfrpg.Ecs.ServerSystems.{server_systems}
use sfrpg.Ecs.History.{History, IsFresh, History-WorldOk, fresh-WorldOk}
use sfrpg.Ecs.Presence.{is_some}
use sfrpg.Ecs.NoNull.{History-get_component}
use sfrpg.Ecs.Profiles.{Profile, profiles, History-SameProfiles}
use sfrpg.Game.Handlers.{ready}
use sfrpg.Game.Events.{handle_events}
use sfrpg.Game.EventLaws.{emptied, handle_events-drains}

-- The requirements of the first system with the identifier.
abbrev required_of : ℕ → List Profile → List ℕ
required_of l_id [] = []
required_of l_id (p ∷ ps) = if p.0 == l_id then p.1 else required_of l_id ps

find_system-required :
    (l_id : ℕ) (ss : List SystemBase) (s : SystemBase)
    → find_system l_id ss ≡ some s
    → s.required ≡ required_of l_id (profiles ss)
unfolding find_system
find_system-required l_id [] s found = cc
find_system-required l_id (t ∷ ss) s found = elim (Bool-cases (t.system_id == l_id)) [
  | inl hit ↦
      let same : t ≡ s = the_same (rw hit at found) in
      rw hit (ap (λ (u : SystemBase). u.required) (sym same))
  | inr miss ↦ rw miss (find_system-required l_id ss s (rw miss at found))
]
  where
    the_same : {a b : SystemBase} → some a ≡ some b → a ≡ b
    the_same e = cc

find_system-All {κ} :
    (P : SystemBase → Type κ) (l_id : ℕ) (ss : List SystemBase) (s : SystemBase)
    → All P ss
    → find_system l_id ss ≡ some s
    → P s
unfolding find_system
find_system-All P l_id [] s h found = cc
find_system-All P l_id (t ∷ ss) s h found = elim (Bool-cases (t.system_id == l_id)) [
  | inl hit ↦ subst P (the_same (rw hit at found)) h.0
  | inr miss ↦ find_system-All P l_id ss s h.1 (rw miss at found)
]
  where
    the_same : {a b : SystemBase} → some a ≡ some b → a ≡ b
    the_same e = cc

-- A mask that fits the one requirement has each of its bits.
only_requirement :
    (b m i : ℕ)
    → Demand b
    → m < 2 ^ 32
    → i < 32
    → matches_any (b ∷ []) m ≡ true
    → get_bit b i ≡ true
    → get_bit m i ≡ true
unfolding matches_any
only_requirement b m i demand small lt fits asked =
    (matches_iff b m demand.0 small demand.1).0 (ground (arith, fits)) i lt asked

every {κ} : {P : ℤ → Type κ} → ((e : ℤ) → P e) → (es : List ℤ) → All P es
every f [] = tt
every f (e ∷ es) = (f e, every f es)

module _ {π : Platform} where
  find_part-get_type :
      (t : ℕ) (p : Part π) (cs : List (Part π)) → find_part t cs ≡ some p → get_type p ≡ t
  unfolding find_part
  find_part-get_type t p [] found = cc
  find_part-get_type t p (c ∷ cs) found = ground (arith, find_part-get_type t p cs)

  -- A system that holds an entity has a requirement that the entity's mask fits.
  held_fits :
      (l_id : ℕ) (e : ℤ) (v : World π)
      → WorldOk v
      → in_system l_id e v ≡ true
      → (d : EntityData π) × (s : SystemBase) × (lookup e v.entities ≡ some d)
        × (find_system l_id v.systems ≡ some s)
        × (matches_any s.required d.bitmask ≡ true)
        × All Demand s.required
        × (d.bitmask < 2 ^ 32)
  unfolding in_system fits_entity fits_requirements
  held_fits l_id e v ok held = elim (Option-cases (find_system l_id v.systems)) [
    | inl missing ↦ absurd (ground (arith, missing))
    | inr (s, found) ↦
        let s_ok = find_system-All (SystemOk v.entities) l_id v.systems s ok.systems_ok found in
        let fits = s_ok.agrees e in
        elim (Option-cases (lookup e v.entities)) [
          | inl nobody ↦ absurd (ground (arith, found, fits, nobody))
          | inr (d, known) ↦ (
            d,
            s,
            known,
            found,
            ground (arith, found, fits, known),
            s_ok.demands,
            Each-lookup (λ (c : EntityData π). c.bitmask < 2 ^ 32) e d v.entities ok.masks_small
                known,
          )
        ]
  ]

  held_component :
      {w v : World π} (l_id b i : ℕ) (e : ℤ)
      → History w v
      → IsFresh w
      → required_of l_id (profiles server_systems) ≡ b ∷ []
      → i < 32
      → get_bit b i ≡ true
      → in_system l_id e v ≡ true
      → is_some (get_component v e i) ≡ true
  unfolding has_component
  held_component {w} {v} l_id b i e past fresh single lt asked held =
      let ok = History-WorldOk past (fresh-WorldOk w fresh) in
      let (d, s, known, found, fits, demands, small) = held_fits l_id e v ok held in
      let only : s.required ≡ b ∷ [] =
        find_system-required l_id v.systems s found
        ∙ ap (required_of l_id) (History-SameProfiles past ∙ ap profiles fresh.1)
        ∙ single in
      let demand : Demand b = (subst (All Demand) only demands).0 in
      let on =
        only_requirement b d.bitmask i demand small lt
          (subst (λ (bs : List ℕ). matches_any bs d.bitmask ≡ true) only fits) asked in
      History-get_component e i past fresh lt ∙ has_bit e i v d known ∙ on
    where
      has_bit :
          (j : ℤ) (c : ℕ) (u : World π) (d : EntityData π)
          → lookup j u.entities ≡ some d
          → has_component u j c ≡ get_bit d.bitmask c
      has_bit j c u d known = rw (known, has_component) refl

  get_component-get_type :
      (w : World π) (e : ℤ) (t : ℕ) (p : Part π) → get_component w e t ≡ some p → get_type p ≡ t
  unfolding get_component
  get_component-get_type w e t p found = elim (Option-cases (lookup e w.entities)) [
    | inl nobody ↦ absurd (ground (arith, nobody))
    | inr (d, known) ↦ ground (arith, known, find_part-get_type t p d.components)
  ]

  movable_cast : (p : Part π) → get_type p ≡ movable_id → is_some (as_movable (some p)) ≡ true
  unfolding get_type
  movable_cast (position_part p) t = absurd (omega (arith, t))
  movable_cast (state_part s) t = absurd (omega (arith, t))
  movable_cast (movable_part m) t = refl
  movable_cast controller_part t = absurd (omega (arith, t))
  movable_cast (collidable_part c) t = absurd (omega (arith, t))
  movable_cast (client_part c) t = absurd (omega (arith, t))
  movable_cast (health_part h) t = absurd (omega (arith, t))
  movable_cast (name_part n) t = absurd (omega (arith, t))
  movable_cast (attacker_part a) t = absurd (omega (arith, t))

  state_cast : (p : Part π) → get_type p ≡ state_id → is_some (as_state (some p)) ≡ true
  unfolding get_type
  state_cast (position_part p) t = absurd (omega (arith, t))
  state_cast (state_part s) t = refl
  state_cast (movable_part m) t = absurd (omega (arith, t))
  state_cast controller_part t = absurd (omega (arith, t))
  state_cast (collidable_part c) t = absurd (omega (arith, t))
  state_cast (client_part c) t = absurd (omega (arith, t))
  state_cast (health_part h) t = absurd (omega (arith, t))
  state_cast (name_part n) t = absurd (omega (arith, t))
  state_cast (attacker_part a) t = absurd (omega (arith, t))

  movable_there :
      (w : World π) (e : ℤ)
      → is_some (get_component w e movable_id) ≡ true
      → is_some (movable_of w e) ≡ true
  unfolding movable_of
  movable_there w e there = elim (Option-cases (get_component w e movable_id)) [
    | inl missing ↦ absurd (ground (arith, missing))
    | inr (p, found) ↦ rw found (movable_cast p (get_component-get_type w e movable_id p found))
  ]

  state_there :
      (w : World π) (e : ℤ)
      → is_some (get_component w e state_id) ≡ true
      → is_some (state_of w e) ≡ true
  unfolding state_of
  state_there w e there = elim (Option-cases (get_component w e state_id)) [
    | inl missing ↦ absurd (ground (arith, missing))
    | inr (p, found) ↦ rw found (state_cast p (get_component-get_type w e state_id p found))
  ]

  -- After any calls of the entity manager on an empty world with the server's systems, every entity
  -- has the components that the handlers of the systems holding it read.
  pub History-ready : {w v : World π} (e : ℤ) → History w v → IsFresh w → ready v e ≡ true
  unfolding ready get_bit turn_on_bit
  History-ready {w} {v} e past fresh =
      let moves = λ (held : in_system movement_system e v ≡ true).
        movable_there v e (
          held_component movement_system 13 movable_id e past fresh refl (omega arith) refl held) in
      let controls = λ (held : in_system control_system e v ≡ true).
        movable_there v e
          (held_component control_system 25 movable_id e past fresh refl (omega arith) refl held) in
      let states = λ (held : in_system state_system e v ≡ true).
        state_there v e
          (held_component state_system 4 state_id e past fresh refl (omega arith) refl held) in
      both (in_system movement_system e v) (in_system control_system e v)
        (in_system state_system e v) (is_some (movable_of v e)) (is_some (state_of v e)) moves
        controls states
    where
      both :
          (m c s a b : Bool)
          → (m ≡ true → a ≡ true)
          → (c ≡ true → a ≡ true)
          → (s ≡ true → b ≡ true)
          → ((not m || a) && (not c || a) && (not s || b)) ≡ true
      both m c s a b p q r = ground (arith, p, q, r)

  -- After any calls of the entity manager on an empty world with the server's systems, handleEvents
  -- uses no null pointer and comes to a result, if each entity has one queue and there are more rounds
  -- than events in any queue: every queue is then empty, no queue is gone or new, and the systems hold
  -- the same entities.
  pub handle_events-History :
      {w v : World π} (n rounds : ℕ)
      → History w v
      → IsFresh w
      → Distinct v.events
      → Each (λ q. length q < suc rounds) v.events
      → (u : World π) × (handle_events (suc (suc n)) (suc rounds) v ≡ done u)
        × (u.events ≡ emptied v.events)
        × (u.systems ≡ v.systems)
  handle_events-History {w} {v} n rounds past fresh distinct bound =
      handle_events-drains n rounds v distinct bound
        (every (λ e. History-ready e past fresh) (keys v.events))
