-- ===== src/Ecs/Tests.antt =====
-- Small inputs for the theorems about entities.
use sfrpg.Base.{
  not, ◌||◌, ◌==◌, ℕ, eq_ℤ, ◌≡◌, refl, ◌&&◌, true, false, none, some, [], ◌∷◌, ℤ, to_i32, arith,
  lookup, All,
}
use sfrpg.Sample.{sample}
use sfrpg.Server.State.{Server}
use sfrpg.Ecs.Bitmask.{get_bit}
use sfrpg.Ecs.Components.{Junk, idle, is_registered}
use sfrpg.Ecs.State.{EntityData, World}
use sfrpg.Ecs.Systems.{has_member}
use sfrpg.Ecs.Entities.{add_entity, remove_entity, has_component, get_component, chosen_id}
use sfrpg.Ecs.Membership.{fits_entity}
use sfrpg.Ecs.NewEntity.{add_entity-has_component}
use sfrpg.Ecs.Messages.{
  Subscriptions, UniqueObservers, notified, has_observer, subscribe, unsubscribe, subscribe_lem,
  unsubscribe_lem,
}
use sfrpg.Ecs.Presence.{is_some}
use sfrpg.Ecs.NoNull.{History-get_component}
use sfrpg.Ecs.ServerSystems.{server_systems}
use sfrpg.Ecs.History.{
  History, begin, then_call, adds_entity, removes_entity, History-has_member, fresh-WorldOk,
}

abbrev quiet : Server sample
quiet = record {
  running = true;
  client_map = [];
  tcp_clients = [];
  last_id = 0;
  server_time = ℤ.pos 0;
  total_sent = 0;
  total_received = 0;
  timeout_handler = false;
  timeouts = [];
  attempts = [];
}

abbrev empty_world : World sample
empty_world = record {
  entities = [];
  id_counter = 0;
  systems = server_systems;
  events = [];
  input = [];
  server = quiet;
}

abbrev junk : Junk
junk = record {
  junk_state = idle;
  junk_health = ℤ.pos 7;
  junk_max_health = ℤ.pos 7;
  junk_attacked = false;
}

-- A position, a state, a sprite sheet, which no class stands for, and a client.
abbrev some_bits : ℕ
some_bits = 263

abbrev populated : World sample
populated = (add_entity junk some_bits (ℤ.negsuc 0) empty_world).0

came_and_left : History empty_world (remove_entity (ℤ.pos 0) populated).0
came_and_left =
    then_call (then_call begin (adds_entity junk some_bits (ℤ.negsuc 0) (omega arith)))
      (removes_entity (ℤ.pos 0))

History-has_member_example :
    let v = (remove_entity (ℤ.pos 0) populated).0 in
    All (λ s. (e : ℤ) → has_member s e ≡ fits_entity s (lookup e v.entities)) v.systems
History-has_member_example = History-has_member came_and_left (refl, refl)

nobody_yet : lookup (chosen_id (ℤ.negsuc 0) empty_world) empty_world.entities ≡ none
unfolding lookup
nobody_yet = refl

add_entity-has_component_example :
    ((add_entity junk some_bits (ℤ.negsuc 0) empty_world).1 ≡ chosen_id (ℤ.negsuc 0) empty_world)
    × (has_component populated (chosen_id (ℤ.negsuc 0) empty_world) 8
        ≡ (get_bit some_bits 8 && is_registered 8))
add_entity-has_component_example =
    add_entity-has_component junk some_bits (ℤ.negsuc 0) empty_world 8 (omega arith)
      (fresh-WorldOk empty_world (refl, refl)) nobody_yet (omega arith)

abbrev bare : EntityData sample
bare = record { bitmask = 0; entity_type = []; components = [] }

-- An entity was added under the identifier 0 before the counter came to it.
abbrev occupied : World sample
occupied = record empty_world { entities = (ℤ.pos 0, bare) ∷ [] }

zero_taken : lookup (to_i32 occupied.id_counter) occupied.entities ≡ some bare
unfolding lookup to_i32
zero_taken = refl

History-get_component_example :
    let v = (remove_entity (ℤ.pos 0) populated).0 in
    is_some (get_component v (ℤ.pos 0) 2) ≡ has_component v (ℤ.pos 0) 2
History-get_component_example =
    History-get_component (ℤ.pos 0) 2 came_and_left (refl, refl) (omega arith)

-- Two observers of the message 3.
abbrev subscribers : Subscriptions
subscribers = (ℤ.pos 3, 40 ∷ 41 ∷ []) ∷ []

both_once : UniqueObservers (notified (ℤ.pos 3) subscribers)
unfolding notified has_observer lookup
both_once = (refl, (refl, tt))

subscribe_lem_example :
    ((subscribe (ℤ.pos 3) 42 subscribers).1
      ≡ not (has_observer 42 (notified (ℤ.pos 3) subscribers)))
    × (has_observer 42 (notified (ℤ.pos 3) (subscribe (ℤ.pos 3) 42 subscribers).0) ≡ (
        (eq_ℤ (ℤ.pos 3) (ℤ.pos 3) && 42 == 42) || has_observer 42 (notified (ℤ.pos 3) subscribers)))
    × UniqueObservers (notified (ℤ.pos 3) (subscribe (ℤ.pos 3) 42 subscribers).0)
subscribe_lem_example = subscribe_lem (ℤ.pos 3) (ℤ.pos 3) 42 42 subscribers both_once

unsubscribe_lem_example :
    ((unsubscribe (ℤ.pos 3) 41 subscribers).1 ≡ has_observer 41 (notified (ℤ.pos 3) subscribers))
    × (has_observer 40 (notified (ℤ.pos 3) (unsubscribe (ℤ.pos 3) 41 subscribers).0) ≡ (
        not (eq_ℤ (ℤ.pos 3) (ℤ.pos 3) && 41 == 40)
        && has_observer 40 (notified (ℤ.pos 3) subscribers)))
unsubscribe_lem_example = unsubscribe_lem (ℤ.pos 3) (ℤ.pos 3) 41 40 subscribers both_once
