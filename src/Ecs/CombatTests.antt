-- ===== src/Ecs/CombatTests.antt =====
-- Small worlds, for the theorems about states, combat, timers and clients.
use sfrpg.Base.{
  ◌+ℤ◌, ltb, to_u32, ◌≡◌, refl, ◌||◌, ◌&&◌, not, ◌⊎◌, if◌then◌else◌, true, false, some, [], ◌∷◌, ℤ,
  eq_ℤ, lookup,
}
use sfrpg.Sample.{sample}
use sfrpg.Ecs.Bitmask.{get_bit}
use sfrpg.Ecs.Components.{
  Health, Attacker, Movable, idle, walking, dying, left, state_part, client_part, movable_part,
  health_part, attacker_part, get_type, origin_vector,
}
use sfrpg.Ecs.State.{
  network_system, EntityData, SystemBase, World, done, state_system, combat_system,
  event_became_idle,
}
use sfrpg.Ecs.Systems.{find_system, has_member, holds}
use sfrpg.Ecs.Entities.{get_component, find_part}
use sfrpg.Ecs.Parts.{set_part, state_of, movable_of, health_of, attacker_of}
use sfrpg.Ecs.StateSystem.{
  eq_state, in_system, change_state, notify_move, notify_attack, notify_hurt, notify_switch,
  handle_state_event,
}
use sfrpg.Ecs.StateLaws.{change_state_lem, dying_ignores}
use sfrpg.Ecs.Combat.{being_attacked}
use sfrpg.Ecs.Timers.{time_entity}
use sfrpg.Ecs.Timing.{time_entity-dying}
use sfrpg.Ecs.Network.{client_of, register_client_id, client_id_of, register_client_id_lem}
use sfrpg.Ecs.CombatLaws.{after_blow, being_attacked_lem}

abbrev weak : Health sample
weak = record {
  health = ℤ.pos 1;
  max_health = ℤ.pos 7;
  hurt_duration = 300;
  death_duration = 900;
  hurt_timer = ℤ.pos 0;
}

abbrev armed : Attacker sample
armed = record {
  attack_area = record {
    rect_left = ℤ.pos 0;
    rect_top = ℤ.pos 0;
    rect_width = ℤ.pos 8;
    rect_height = ℤ.pos 8;
  };
  area_offset = origin_vector sample;
  attacked = false;
  knockback = ℤ.pos 3;
  attack_duration = 200;
  attack_timer = ℤ.pos 0;
}

abbrev still : Movable sample
still = record {
  velocity = origin_vector sample;
  velocity_max = ℤ.pos 5;
  speed = origin_vector sample;
  acceleration = origin_vector sample;
  direction = left;
}

-- The bits of State, Movable and Health, and of State, Movable and Attacker.
abbrev victim : EntityData sample
victim = record {
  bitmask = 524;
  entity_type = [];
  components = state_part idle ∷ movable_part still ∷ health_part weak ∷ [];
}

abbrev fighter : EntityData sample
fighter = record {
  bitmask = 4108;
  entity_type = [];
  components = state_part idle ∷ movable_part still ∷ attacker_part armed ∷ [];
}

abbrev ghost : EntityData sample
ghost = record { bitmask = 4; entity_type = []; components = state_part dying ∷ [] }

abbrev states : SystemBase
states = record {
  system_id = state_system;
  members = ℤ.pos 0 ∷ ℤ.pos 1 ∷ ℤ.pos 2 ∷ [];
  required = 4 ∷ [];
}

abbrev combat : SystemBase
combat = record { system_id = combat_system; members = ℤ.pos 0 ∷ ℤ.pos 1 ∷ []; required = 524 ∷ [] }

abbrev arena : World sample
arena = record {
  entities = (ℤ.pos 0, victim) ∷ (ℤ.pos 1, fighter) ∷ (ℤ.pos 2, ghost) ∷ [];
  id_counter = 3;
  systems = states ∷ combat ∷ [];
  events = [];
  input = [];
  server = record {
    running = true;
    client_map = [];
    tcp_clients = [];
    last_id = 0;
    server_time = ℤ.pos 0;
    total_sent = 0;
    total_received = 0;
    timeout_handler = false;
    timeouts = [];
    attempts = [];
  };
}

victim_idle : state_of arena (ℤ.pos 0) ≡ some idle
unfolding state_of get_component lookup find_part get_bit get_type
victim_idle = refl

ghost_dying : state_of arena (ℤ.pos 2) ≡ some dying
unfolding state_of get_component lookup find_part get_bit get_type
ghost_dying = refl

victim_weak : health_of arena (ℤ.pos 0) ≡ some weak
unfolding health_of get_component lookup find_part get_bit get_type
victim_weak = refl

victim_still : movable_of arena (ℤ.pos 0) ≡ some still
unfolding movable_of get_component lookup find_part get_bit get_type
victim_still = refl

fighter_armed : attacker_of arena (ℤ.pos 1) ≡ some armed
unfolding attacker_of get_component lookup find_part get_bit get_type
fighter_armed = refl

victim_fights : in_system combat_system (ℤ.pos 0) arena ≡ true
unfolding in_system find_system has_member holds
victim_fights = refl

fighter_fights : in_system combat_system (ℤ.pos 1) arena ≡ true
unfolding in_system find_system has_member holds
fighter_fights = refl

states_there : find_system state_system arena.systems ≡ some states
unfolding find_system
states_there = refl

change_state_lem_example :
    change_state 2 (ℤ.pos 0) walking false arena
    ≡ done (
        if eq_state walking idle || (not false && eq_state idle dying)
        then arena
        else set_part (ℤ.pos 0) (state_part walking) arena)
change_state_lem_example = change_state_lem 0 arena (ℤ.pos 0) idle walking false victim_idle

dying_ignores_example :
    (notify_move 2 0 (ℤ.pos 2) (ℤ.pos 1) arena ≡ done arena)
    × (notify_attack 2 (ℤ.pos 2) arena ≡ done arena)
    × (notify_hurt 2 (ℤ.pos 2) arena ≡ done arena)
    × (notify_switch 2 (ℤ.pos 2) idle arena ≡ done arena)
    × (handle_state_event 2 (ℤ.pos 2) event_became_idle arena ≡ done arena)
dying_ignores_example = dying_ignores 1 0 arena (ℤ.pos 2) (ℤ.pos 1) idle ghost_dying

being_attacked_lem_example :
    (v : World sample) × (being_attacked 2 (ℤ.pos 0) (ℤ.pos 1) arena ≡ done v)
    × (health_of v (ℤ.pos 0) ≡ some (record weak { health = after_blow (ℤ.pos 1) }))
    × (attacker_of v (ℤ.pos 1) ≡ some (record armed { attacked = true }))
    × ((eq_ℤ (after_blow (ℤ.pos 1)) (ℤ.pos 0) ≡ false) ⊎ (state_of v (ℤ.pos 0) ≡ some dying))
being_attacked_lem_example =
    being_attacked_lem 0 (ℤ.pos 0) (ℤ.pos 1) arena weak armed idle still states victim_fights
      fighter_fights states_there victim_weak fighter_armed victim_idle victim_still refl

abbrev fallen : EntityData sample
fallen = record {
  bitmask = 516;
  entity_type = [];
  components = state_part dying ∷ health_part weak ∷ [];
}

abbrev graveyard : World sample
graveyard = record arena { entities = (ℤ.pos 0, fallen) ∷ [] }

fallen_dying : state_of graveyard (ℤ.pos 0) ≡ some dying
unfolding state_of get_component lookup find_part get_bit get_type
fallen_dying = refl

fallen_weak : health_of graveyard (ℤ.pos 0) ≡ some weak
unfolding health_of get_component lookup find_part get_bit get_type
fallen_weak = refl

-- 950 of the 900 milliseconds have passed.
time_entity-dying_example :
    let later = ℤ.pos 0 +ℤ ℤ.pos 950 in
    let over = not (ltb (to_u32 later) 900) in
    (v : World sample) × (time_entity 2 (ℤ.pos 950) (ℤ.pos 0) graveyard ≡ done v)
    × (state_of v (ℤ.pos 0) ≡ some (if over then idle else dying))
    × (health_of v (ℤ.pos 0)
        ≡ some (
            if over
            then record weak { health = ℤ.pos 7; hurt_timer = ℤ.pos 0 }
            else record weak { hurt_timer = later }))
time_entity-dying_example =
    time_entity-dying 0 (ℤ.pos 950) (ℤ.pos 0) graveyard weak states fallen_dying fallen_weak
      states_there

-- A player's entity in the network system, before its client is known.
abbrev unclaimed : EntityData sample
unclaimed = record {
  bitmask = 260;
  entity_type = [];
  components = state_part idle ∷ client_part (ℤ.negsuc 0) ∷ [];
}

abbrev networked : SystemBase
networked = record { system_id = network_system; members = ℤ.pos 5 ∷ []; required = 256 ∷ [] }

abbrev lobby : World sample
lobby = record arena { entities = (ℤ.pos 5, unclaimed) ∷ []; systems = networked ∷ [] }

unclaimed_networked : in_system network_system (ℤ.pos 5) lobby ≡ true
unfolding in_system find_system has_member holds
unclaimed_networked = refl

no_client_yet : client_of lobby (ℤ.pos 5) ≡ some (ℤ.negsuc 0)
unfolding client_of get_component lookup find_part get_bit get_type
no_client_yet = refl

register_client_id_lem_example :
    (v : World sample) × (register_client_id (ℤ.pos 5) (ℤ.pos 2) lobby ≡ done (v, true))
    × (client_id_of (ℤ.pos 5) v ≡ done (ℤ.pos 2))
    × (client_of v (ℤ.pos 5)
        ≡ (if eq_ℤ (ℤ.pos 5) (ℤ.pos 5) then some (ℤ.pos 2) else client_of lobby (ℤ.pos 5)))
register_client_id_lem_example =
    register_client_id_lem (ℤ.pos 5) (ℤ.pos 5) (ℤ.pos 2) (ℤ.negsuc 0) lobby unclaimed_networked
      no_client_yet
