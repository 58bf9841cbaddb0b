-- ===== src/Game/Snapshot.antt =====
-- common/EntitySnapshot.h and .cpp, ServerEntityManager::dumpEntityInfo of
-- server/Server_Entity_Manager.cpp and S_Network::createSnapshot of server/S_Network.cpp.
use sfrpg.Base.{
  ℕ, ◌%◌, ◌^◌, ◌==◌, if◌then◌else◌, Option, none, some, List, [], ◌∷◌, Text, ℤ, to_i32, to_u32,
}
use sfrpg.Platform.{Platform, i32, f32, u8, str}
use sfrpg.Server.State.{stamp_packet}
use sfrpg.Ecs.Bitmask.{get_bit}
use sfrpg.Ecs.Components.{
  Vector, origin_vector, Part, name_part, position_id, state_id, movable_id, health_id, name_id,
}
use sfrpg.Ecs.State.{EntityData, World, Outcome, done, null_access}
use sfrpg.Ecs.Entities.{get_component, get_entity_count}
use sfrpg.Ecs.Parts.{position_of, state_of, movable_of, health_of}
use sfrpg.Ecs.StateSystem.{and_then, state_number}
use sfrpg.Ecs.Combat.{number}

abbrev pub packet_snapshot : ℤ
packet_snapshot = ℤ.pos 3

pub record EntitySnapshot (π : Platform) : Type 0 where
  pub snapshot_type : Text
  pub snapshot_name : Text
  pub snapshot_position : Vector π
  pub snapshot_elevation : ℤ
  pub snapshot_velocity : Vector π
  pub snapshot_acceleration : Vector π
  pub snapshot_direction : ℕ
  pub snapshot_state : ℕ
  pub snapshot_health : ℕ

-- What the four numbers of a new EntitySnapshot hold, which nothing initialises.
pub record Stale : Type 0 where
  pub stale_elevation : ℤ
  pub stale_direction : ℕ
  pub stale_state : ℕ
  pub stale_health : ℕ

-- A chain of reads ends where one fails.
infixl 10 ◌>>=◌
abbrev pub ◌>>=◌ {ℓ κ} : {A : Type ℓ} {B : Type κ} → Option A → (A → Option B) → Option B
none >>= f = none
(some a) >>= f = f a

module _ (π : Platform) where
  open π use {Packet, new_packet, write, read_str, read_f32, read_i32, read_u8}

  abbrev new_snapshot : Stale → EntitySnapshot π
  new_snapshot stale = record {
    snapshot_type = [];
    snapshot_name = [];
    snapshot_position = origin_vector π;
    snapshot_elevation = stale.stale_elevation;
    snapshot_velocity = origin_vector π;
    snapshot_acceleration = origin_vector π;
    snapshot_direction = stale.stale_direction;
    snapshot_state = stale.stale_state;
    snapshot_health = stale.stale_health;
  }

  abbrev pub write_vector : Vector π → Packet → Packet
  write_vector v p = write (write p (f32 v.x)) (f32 v.y)

  -- operator<<
  unfoldable pub write_snapshot : EntitySnapshot π → Packet → Packet
  write_snapshot e p =
      let names = write (write p (str e.snapshot_type)) (str e.snapshot_name) in
      let placed = write (write_vector e.snapshot_position names) (i32 e.snapshot_elevation) in
      let moved = write_vector e.snapshot_acceleration (write_vector e.snapshot_velocity placed) in
      write (write (write moved (u8 e.snapshot_direction)) (u8 e.snapshot_state))
        (u8 e.snapshot_health)

  unfoldable pub take_vector : Packet → Option (Vector π × Packet)
  take_vector p = do (x, q) ← read_f32 p; (y, r) ← read_f32 q; some (record { x = x; y = y }, r)

  -- operator>>, where every value is there.
  unfoldable pub read_snapshot : Packet → Option (EntitySnapshot π × Packet)
  unfolding take_vector
  read_snapshot p = do
    (type, p1) ← read_str p
    (name, p2) ← read_str p1
    (position, p3) ← take_vector p2
    (elevation, p4) ← read_i32 p3
    (velocity, p5) ← take_vector p4
    (acceleration, p6) ← take_vector p5
    (direction, p7) ← read_u8 p6
    (state, p8) ← read_u8 p7
    (health, p9) ← read_u8 p8
    some (
      record {
        snapshot_type = type;
        snapshot_name = name;
        snapshot_position = position;
        snapshot_elevation = elevation;
        snapshot_velocity = velocity;
        snapshot_acceleration = acceleration;
        snapshot_direction = direction;
        snapshot_state = state;
        snapshot_health = health;
      },
      p9,
    )

-- sf::Uint8 of an int.
unfoldable pub to_u8 : ℤ → ℕ
to_u8 n = to_u32 n % 2 ^ 8

module _ {π : Platform} where
  open π use {Packet, write}

  abbrev as_name : Option (Part π) → Option Text
  as_name (some (name_part n)) = some n
  as_name _ = none

  unfoldable pub name_of : World π → ℤ → Option Text
  name_of w e = as_name (get_component w e name_id)

  -- A field of the snapshot, set from a component where the mask has its bit.
  unfoldable pub fill {ℓ} :
      {A : Type ℓ}
      → EntityData π
      → (l_component : ℕ) → Option A
      → (A → EntitySnapshot π → EntitySnapshot π)
      → EntitySnapshot π
      → Outcome (EntitySnapshot π)
  fill d l_component part set snapshot =
      if get_bit d.bitmask l_component
      then elim part [ none ↦ null_access | some a ↦ done (set a snapshot) ]
      else done snapshot

  -- The body of the loop in dumpEntityInfo, but for the writes.
  unfoldable pub take_snapshot : Stale → ℤ → EntityData π → World π → Outcome (EntitySnapshot π)
  unfolding fill and_then position_of movable_of state_of health_of name_of to_u8
  take_snapshot stale e d w =
      let blank = record (new_snapshot π stale) { snapshot_type = d.entity_type } in
      and_then
        (fill d position_id (position_of w e)
          (λ p s. record s {
            snapshot_position = p.position;
            snapshot_elevation = to_i32 (p.elevation % 2 ^ 32);
          })
          blank)
        (λ placed.
          and_then
            (fill d movable_id (movable_of w e)
              (λ m s. record s {
                snapshot_velocity = m.velocity;
                snapshot_acceleration = m.acceleration;
                snapshot_direction = number m.direction;
              })
              placed)
            (λ moved.
              and_then
                (fill d state_id (state_of w e)
                  (λ l_state s. record s { snapshot_state = state_number l_state }) moved)
                (λ stated.
                  and_then
                    (fill d health_id (health_of w e)
                      (λ h s. record s { snapshot_health = to_u8 h.health }) stated)
                    (λ healthy.
                      fill d name_id (name_of w e) (λ name s. record s { snapshot_name = name })
                        healthy))))

  -- The loop of dumpEntityInfo. `stale` may differ from one round to the next.
  unfoldable pub dump_entities :
      (stale : ℤ → Stale) → List (ℤ × EntityData π) → World π → Packet → Outcome Packet
  unfolding take_snapshot write_snapshot and_then
  dump_entities stale [] w p = done p
  dump_entities stale ((e, d) ∷ m) w p =
      and_then (take_snapshot (stale e) e d w)
        (λ snapshot. dump_entities stale m w (write_snapshot π snapshot (write p (i32 e))))

  -- ServerEntityManager::dumpEntityInfo
  unfoldable pub dump_entity_info : (stale : ℤ → Stale) → World π → Packet → Outcome Packet
  unfolding dump_entities
  dump_entity_info stale w p = dump_entities stale w.entities w p

  -- S_Network::createSnapshot
  unfoldable pub create_snapshot : (stale : ℤ → Stale) → World π → Packet → Outcome Packet
  unfolding dump_entity_info get_entity_count stamp_packet
  create_snapshot stale w l_packet =
      let count = get_entity_count w in
      let started = write (stamp_packet π packet_snapshot l_packet) (i32 (to_i32 count)) in
      if count == 0 then done started else dump_entity_info stale w started
