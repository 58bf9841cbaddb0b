-- ===== src/Ecs/Combat.antt =====
-- server/S_Combat.cpp, with the two systems that subscribe to Hurt, in the order of their
-- subscription: server/S_Network.cpp and common/S_State.cpp.
use sfrpg.Base.{
  ℕ, true, not, ◌||◌, ◌==◌, if◌then◌else◌, none, some, List, [], ◌∷◌, ℤ, ◌-ℤ◌, eq_ℤ, ltb_ℤ,
}
use sfrpg.Platform.{Platform, i32}
use sfrpg.Server.State.{null_id, stamp_packet}
use sfrpg.Server.Transport.{broadcast}
use sfrpg.Ecs.Components.{
  Direction, up, left, down, right, dying, Vector, Movable, Health, Attacker, movable_part,
  health_part, attacker_part, Position,
}
use sfrpg.Ecs.State.{World, Outcome, done, null_access, state_system, network_system, combat_system}
use sfrpg.Ecs.Systems.{find_system}
use sfrpg.Ecs.Parts.{set_part, movable_of, health_of, attacker_of, position_of}
use sfrpg.Ecs.StateSystem.{and_then, in_system, change_state, notify_hurt}

abbrev pub packet_hurt : ℤ
packet_hurt = ℤ.pos 4

abbrev pub number : Direction → ℕ
number up = 0
number left = 1
number down = 2
number right = 3

-- `(h > 1 ? h - 1 : 0)`
abbrev pub less_health : ℤ → ℤ
less_health h = if ltb_ℤ (ℤ.pos 1) h then h -ℤ ℤ.pos 1 else ℤ.pos 0

module _ {π : Platform} where
  open π use {Float, new_packet, write, f_neg, f_add, f_sub, f_div, of_int}

  -- S_Network::notify, of the message Hurt.
  unfoldable pub announce_hurt : ℤ → World π → World π
  announce_hurt e w =
      let packet = write (stamp_packet π packet_hurt new_packet) (i32 e) in
      if in_system network_system e w
      then record w { server = broadcast w.server packet null_id }
      else w

  -- The message Hurt.
  unfoldable pub dispatch_hurt : ℕ → ℤ → World π → Outcome (World π)
  unfolding announce_hurt
  dispatch_hurt n e w = notify_hurt n e (announce_hurt e w)

  -- The velocity that a blow gives.
  unfoldable pub knockback_velocity : Direction → Float → Vector π
  knockback_velocity direction knockback =
      let force =
        if number direction == number left || number direction == number up
        then f_neg knockback
        else knockback in
      if number direction == number left || number direction == number right
      then record { x = force; y = of_int (ℤ.pos 0) }
      else record { x = of_int (ℤ.pos 0); y = force }

  -- The end of the handler, once the victim was hurt.
  unfoldable pub knock_back : ℤ → ℤ → Float → World π → Outcome (World π)
  unfolding knockback_velocity
  knock_back receiver sender knockback w = elim (movable_of w sender) [
    | none ↦ done w
    | some mov ↦ elim (movable_of w receiver) [
      | none ↦ null_access
      | some pushed ↦ done (
          set_part receiver
            (movable_part (record pushed { velocity = knockback_velocity mov.direction knockback }))
            w)
    ]
  ]

  -- Health is taken, and the attacker has attacked.
  unfoldable pub strike : ℤ → ℤ → Health π → Attacker π → World π → World π
  unfolding set_part
  strike receiver sender victim attacker w =
      set_part sender (attacker_part (record attacker { attacked = true }))
        (set_part receiver (health_part (record victim { health = less_health victim.health })) w)

  unfoldable pub hurt_or_kill : ℕ → ℤ → ℤ → World π → Outcome (World π)
  unfolding change_state dispatch_hurt
  hurt_or_kill n receiver left_over w =
      if eq_ℤ left_over (ℤ.pos 0)
      then change_state n receiver dying true w
      else dispatch_hurt n receiver w

  -- S_Combat::notify, of the message Being_Attacked.
  unfoldable pub being_attacked : ℕ → (receiver sender : ℤ) → World π → Outcome (World π)
  unfolding strike hurt_or_kill knock_back and_then find_system
  being_attacked n receiver sender w =
      if not (in_system combat_system receiver w) || not (in_system combat_system sender w)
      then done w
      else elim (health_of w receiver) [
        | none ↦ done w
        | some victim ↦ elim (attacker_of w sender) [
          | none ↦ done w
          | some attacker ↦ elim (find_system state_system w.systems) [
            | none ↦ done w
            | some s ↦
                if attacker.attacked
                then done w
                else and_then
                    (hurt_or_kill n receiver (less_health victim.health)
                      (strike receiver sender victim attacker w))
                    (knock_back receiver sender attacker.knockback)
          ]
        ]
      ]

  -- S_Combat::update, on one entity: the area of attack goes along.
  unfoldable pub place_area : Position π → Movable π → Attacker π → Attacker π
  place_area position mov attacker =
      let aoa = attacker.attack_area in
      let half_width = f_div aoa.rect_width (of_int (ℤ.pos 2)) in
      let half_height = f_div aoa.rect_height (of_int (ℤ.pos 2)) in
      let offset = attacker.area_offset in
      let reach_x =
        if number mov.direction == number left
        then f_sub offset.x half_width
        else if number mov.direction == number right
        then f_add offset.x half_width
        else offset.x in
      let reach_y =
        if number mov.direction == number up
        then f_sub offset.y half_height
        else if number mov.direction == number down
        then f_add offset.y half_height
        else offset.y in
      let corner = position.position in
      record attacker {
        attack_area = record aoa {
          rect_left = f_add (f_sub corner.x half_width) reach_x;
          rect_top = f_add (f_sub corner.y half_height) reach_y;
        };
      }

  unfoldable pub update_combat : List ℤ → World π → Outcome (World π)
  unfolding place_area set_part
  update_combat [] w = done w
  update_combat (e ∷ es) w = elim (attacker_of w e) [
    | none ↦ update_combat es w
    | some attacker ↦ elim (position_of w e) [
      | none ↦ null_access
      | some position ↦ elim (movable_of w e) [
        | none ↦ null_access
        | some mov ↦
            update_combat es (set_part e (attacker_part (place_area position mov attacker)) w)
      ]
    ]
  ]
