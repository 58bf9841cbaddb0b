-- ===== src/Ecs/ServerSystems.antt =====
-- server/Server_System_Manager.cpp: the systems of the server, with the requirements that their
-- constructors state.
use sfrpg.Base.{
  ℕ, ◌^◌, ◌<◌, ◌≡◌, refl, ap, ◌∙◌, inl, inr, true, ◌==◌, List, [], ◌∷◌, All, arith, Bool-cases,
}
use sfrpg.Ecs.Bitmask.{get_bit, turn_on_bit, clear_bit}
use sfrpg.Ecs.Bitmask.Laws.{
  turn_on_bit-lt, clear_bit-lt, get_bit-turn_on_bit, get_bit-clear_bit, get_bit_none,
}
use sfrpg.Ecs.Components.{
  position_id, state_id, movable_id, controller_id, collidable_id, client_id, health_id,
  attacker_id, is_registered,
}
use sfrpg.Ecs.State.{
  SystemBase, movement_system, collision_system, control_system, state_system, network_system,
  combat_system, timers_system,
}
use sfrpg.Ecs.Members.{Demand}

-- The mask with the bits of a list, turned on one by one.
abbrev turn_on_all : List ℕ → ℕ
turn_on_all [] = 0
turn_on_all (c ∷ cs) = turn_on_bit (turn_on_all cs) c

abbrev pub s_network : SystemBase
s_network = record {
  system_id = network_system;
  members = [];
  required = turn_on_all (client_id ∷ []) ∷ [];
}

abbrev pub s_movement : SystemBase
s_movement = record {
  system_id = movement_system;
  members = [];
  required = turn_on_all (state_id ∷ position_id ∷ movable_id ∷ []) ∷ [];
}

abbrev pub s_control : SystemBase
s_control = record {
  system_id = control_system;
  members = [];
  required = turn_on_all (controller_id ∷ movable_id ∷ position_id ∷ []) ∷ [];
}

abbrev pub s_state : SystemBase
s_state = record {
  system_id = state_system;
  members = [];
  required = turn_on_all (state_id ∷ []) ∷ [];
}

abbrev pub s_collision : SystemBase
s_collision = record {
  system_id = collision_system;
  members = [];
  required = turn_on_all (collidable_id ∷ position_id ∷ []) ∷ [];
}

-- Whoever can be hurt, and whoever attacks.
abbrev pub s_combat : SystemBase
s_combat =
    let first = turn_on_all (health_id ∷ state_id ∷ movable_id ∷ position_id ∷ []) in
    record {
      system_id = combat_system;
      members = [];
      required = first ∷ turn_on_bit (clear_bit first health_id) attacker_id ∷ [];
    }

-- The second mask that the constructor builds is never made a requirement.
abbrev pub s_timers : SystemBase
s_timers = record {
  system_id = timers_system;
  members = [];
  required = turn_on_all (health_id ∷ state_id ∷ []) ∷ [];
}

abbrev pub server_systems : List SystemBase
server_systems =
    s_network ∷ s_movement ∷ s_control ∷ s_state ∷ s_collision ∷ s_combat ∷ s_timers ∷ []

-- A mask below 2 ^ 32 of components that the factory knows.
record Known (m : ℕ) : Type 0 where
  small : m < 2 ^ 32
  registered : (i : ℕ) → i < 32 → get_bit m i ≡ true → is_registered i ≡ true

turn_on_bit-Known : (m c : ℕ) → c < 32 → is_registered c ≡ true → Known m → Known (turn_on_bit m c)
turn_on_bit-Known m c lt known_type k = record {
  small = turn_on_bit-lt m c k.small lt;
  registered = λ i l on. elim (Bool-cases (i == c)) [
    | inl same ↦ let e : i ≡ c = ground arith in ap is_registered e ∙ known_type
    | inr other ↦ k.registered i l (ground (arith, get_bit-turn_on_bit m c i k.small lt))
  ];
}

clear_bit-Known : (m c : ℕ) → c < 32 → Known m → Known (clear_bit m c)
clear_bit-Known m c lt k = record {
  small = clear_bit-lt m c k.small;
  registered = λ i l on. k.registered i l (ground (arith, get_bit-clear_bit m c i k.small lt l));
}

none-Known : Known 0
none-Known = record { small = omega arith; registered = λ i l on. ground (arith, get_bit_none i) }

-- What asks for a last component is a demand.
turn_on_bit-Demand :
    (m c : ℕ) → c < 32 → is_registered c ≡ true → Known m → Demand (turn_on_bit m c)
turn_on_bit-Demand m c lt known_type k =
    let known = turn_on_bit-Known m c lt known_type k in
    (
      known.small,
      λ empty. ground (
        arith,
        get_bit-turn_on_bit m c c k.small lt,
        ap (λ (n : ℕ). get_bit n c) empty,
        get_bit_none c,
      ),
      known.registered,
    )

turn_on_all-Known :
    (cs : List ℕ) → All (λ c. (c < 32) × (is_registered c ≡ true)) cs → Known (turn_on_all cs)
turn_on_all-Known [] h = none-Known
turn_on_all-Known (c ∷ cs) h =
    turn_on_bit-Known (turn_on_all cs) c h.0.0 h.0.1 (turn_on_all-Known cs h.1)

turn_on_all-Demand :
    (c : ℕ) (cs : List ℕ)
    → All (λ c. (c < 32) × (is_registered c ≡ true)) (c ∷ cs)
    → Demand (turn_on_all (c ∷ cs))
turn_on_all-Demand c cs h =
    turn_on_bit-Demand (turn_on_all cs) c h.0.0 h.0.1 (turn_on_all-Known cs h.1)

pub server_systems-Demand : All (λ (s : SystemBase). All Demand s.required) server_systems
server_systems-Demand =
    let attacker =
      turn_on_bit-Demand
        (clear_bit (turn_on_all (health_id ∷ state_id ∷ movable_id ∷ position_id ∷ [])) health_id)
        attacker_id (omega arith) refl
        (clear_bit-Known (turn_on_all (health_id ∷ state_id ∷ movable_id ∷ position_id ∷ []))
          health_id (omega arith)
          (turn_on_all-Known (health_id ∷ state_id ∷ movable_id ∷ position_id ∷ []) (
            (omega arith, refl),
            ((omega arith, refl), ((omega arith, refl), ((omega arith, refl), tt))),
          ))) in
    (
      (turn_on_all-Demand client_id ([]) ((omega arith, refl), tt), tt),
      (
        (
          turn_on_all-Demand state_id (position_id ∷ movable_id ∷ [])
              ((omega arith, refl), ((omega arith, refl), ((omega arith, refl), tt))),
          tt,
        ),
        (
          (
            turn_on_all-Demand controller_id (movable_id ∷ position_id ∷ [])
                ((omega arith, refl), ((omega arith, refl), ((omega arith, refl), tt))),
            tt,
          ),
          (
            (turn_on_all-Demand state_id ([]) ((omega arith, refl), tt), tt),
            (
              (
                turn_on_all-Demand collidable_id (position_id ∷ [])
                    ((omega arith, refl), ((omega arith, refl), tt)),
                tt,
              ),
              (
                (
                  turn_on_all-Demand health_id (state_id ∷ movable_id ∷ position_id ∷ []) (
                    (omega arith, refl),
                    ((omega arith, refl), ((omega arith, refl), ((omega arith, refl), tt))),
                  ),
                  (attacker, tt),
                ),
                (
                  (
                    turn_on_all-Demand health_id (state_id ∷ [])
                        ((omega arith, refl), ((omega arith, refl), tt)),
                    tt,
                  ),
                  (tt),
                ),
              ),
            ),
          ),
        ),
      ),
    )
