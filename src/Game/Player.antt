-- ===== src/Game/Player.antt =====
-- S_Network::updatePlayer of server/S_Network.cpp: the input that a client sends.
use sfrpg.Base.{
  ℕ, zero, suc, true, false, not, ◌||◌, if◌then◌else◌, Option, none, some, List, [], ◌∷◌, ◌++◌, ℤ,
  eq_ℤ, lookup, update, length,
}
use sfrpg.Platform.{Platform}
use sfrpg.Server.State.{null_id}
use sfrpg.Ecs.State.{PlayerInput, World, Outcome, done, out_of_fuel, network_system}
use sfrpg.Ecs.StateSystem.{and_then, in_system}
use sfrpg.Ecs.Network.{no_input, entity_of_client}

-- enum class EntityMessage, as far as the handler reads it.
abbrev pub message_move : ℤ
message_move = ℤ.pos 0

abbrev pub message_attack : ℤ
message_attack = ℤ.pos 6

-- Network::PlayerUpdateDelim
abbrev pub player_update_delim : ℤ
player_update_delim = ℤ.negsuc 0

-- The input of an entity, which `operator[]` makes where there is none.
unfoldable pub input_of : ℤ → List (ℤ × PlayerInput) → PlayerInput
input_of eid m = elim (lookup eid m) [ none ↦ no_input | some player ↦ player ]

unfoldable pub put_input : ℤ → PlayerInput → List (ℤ × PlayerInput) → List (ℤ × PlayerInput)
put_input eid player m = elim (lookup eid m) [
  | none ↦ m ++ (eid, player) ∷ []
  | some old ↦ update eid player m
]

module _ (π : Platform) where
  open π use {Packet, read_i8, read_i32, fields}

  -- `l_packet >> x` into an sf::Int32 that holds 0. A packet that failed stays failed.
  unfoldable pub take_number : Option Packet → ℤ × Option Packet
  take_number none = (ℤ.pos 0, none)
  take_number (some p) = elim (read_i32 p) [ none ↦ (ℤ.pos 0, none) | some (n, q) ↦ (n, some q) ]

  -- The same into an sf::Int8, of which `junk` is what it held.
  unfoldable pub take_byte : (junk : ℤ) → Option Packet → ℤ × Option Packet
  take_byte junk none = (junk, none)
  take_byte junk (some p) = elim (read_i8 p) [ none ↦ (junk, none) | some (n, q) ↦ (n, some q) ]

  -- The switch on one message.
  unfoldable pub take_message :
      (junk l_type : ℤ) → Packet → PlayerInput → PlayerInput × Option Packet
  unfolding take_number take_byte
  take_message junk l_type p player =
      let (x, after_x) = take_number (some p) in
      let (y, after_y) = take_number after_x in
      let (attacking, after_attack) = take_byte junk (some p) in
      if eq_ℤ l_type message_move
      then (record player { moved_x = x; moved_y = y }, after_y)
      else if eq_ℤ l_type message_attack
      then (
        if eq_ℤ attacking (ℤ.pos 0) then player else record player { attacks = true },
        after_attack,
      )
      else (player, some p)

  -- The loop over the messages, each of which a delimiter ends, in at most `rounds` rounds.
  unfoldable pub take_messages :
      (rounds : ℕ) → (junk : ℤ) → Packet → PlayerInput → Outcome PlayerInput
  unfolding take_message take_byte
  take_messages zero junk p player = out_of_fuel
  take_messages (suc rounds) junk p player = elim (read_i8 p) [
    | none ↦ done player
    | some (l_type, q) ↦
        let (new, after) = take_message junk l_type q player in
        elim (take_byte (ℤ.pos 0) after).1 [
          | none ↦ done new
          | some r ↦
              let more = take_messages rounds junk r new in
              if eq_ℤ (take_byte (ℤ.pos 0) after).0 player_update_delim then more else done new
        ]
  ]

module _ {π : Platform} where
  open π use {Packet, fields}

  -- S_Network::updatePlayer. A round takes a value off the packet, so that a round for each value and
  -- one more are enough.
  unfoldable pub update_player : (junk : ℤ) → Packet → (l_client : ℤ) → World π → Outcome (World π)
  unfolding and_then entity_of_client in_system input_of put_input take_messages
  update_player junk l_packet l_client w = and_then (entity_of_client l_client w) (λ eid.
      if eq_ℤ eid null_id || not (in_system network_system eid w)
      then done w
      else (let calm = record (input_of eid w.input) { attacks = false } in
          and_then (take_messages π (suc (length (fields l_packet))) junk l_packet calm)
            (λ player. done (record w { input = put_input eid player w.input }))))
