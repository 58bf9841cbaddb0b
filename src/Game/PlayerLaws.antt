-- ===== src/Game/PlayerLaws.antt =====
-- The loop of S_Network::updatePlayer in server/S_Network.cpp over the messages of a packet.
use sfrpg.Base.{
  ℕ, zero, suc, ◌≤◌, ◌<◌, ◌≡◌, refl, Option, none, some, ℤ, eq_ℤ, length, arith, if_ind, option_ind,
  subst,
}
use sfrpg.Platform.{Platform}
use sfrpg.Ecs.State.{PlayerInput, Outcome, done}
use sfrpg.Game.Player.{
  take_number, take_byte, take_message, take_messages, message_move, message_attack,
  player_update_delim,
}

-- A read that succeeds takes a value off the packet.
pub record ReadLaws (π : Platform) : Type 0 where
  pub read_i8-shorter :
      (p q : π.Packet) (n : ℤ)
      → π.read_i8 p ≡ some (n, q)
      → length (π.fields q) < length (π.fields p)
  pub read_i32-shorter :
      (p q : π.Packet) (n : ℤ)
      → π.read_i32 p ≡ some (n, q)
      → length (π.fields q) < length (π.fields p)

module _ {π : Platform} (laws : ReadLaws π) where
  open laws use {read_i8-shorter, read_i32-shorter}

  -- What is left of a packet, if anything, has at most `n` values.
  abbrev Within : ℕ → Option π.Packet → Type 0
  Within n none = Unit
  Within n (some p) = length (π.fields p) ≤ n

  take_number-Within : (n : ℕ) (o : Option π.Packet) → Within n o → Within n (take_number π o).1
  unfolding take_number
  take_number-Within n none h = tt
  take_number-Within n (some p) h =
      option_ind (λ (r : ℤ × Option π.Packet). Within n r.1) (π.read_i32 p) (λ fails. tt)
        (λ r reads. omega (arith, h, read_i32-shorter p r.1 r.0 reads))

  take_byte-Within :
      (n : ℕ) (junk : ℤ) (o : Option π.Packet) → Within n o → Within n (take_byte π junk o).1
  unfolding take_byte
  take_byte-Within n junk none h = tt
  take_byte-Within n junk (some p) h =
      option_ind (λ (r : ℤ × Option π.Packet). Within n r.1) (π.read_i8 p) (λ fails. tt)
        (λ r reads. omega (arith, h, read_i8-shorter p r.1 r.0 reads))

  take_message-Within :
      (n : ℕ) (junk l_type : ℤ) (p : π.Packet) (player : PlayerInput)
      → length (π.fields p) ≤ n
      → Within n (take_message π junk l_type p player).1
  unfolding take_message
  take_message-Within n junk l_type p player h =
      let P = λ (r : PlayerInput × Option π.Packet). Within n r.1 in
      if_ind P (eq_ℤ l_type message_move)
        (λ moves. take_number-Within n (take_number π (some p)).1 (take_number-Within n (some p) h))
        (λ other.
          if_ind P (eq_ℤ l_type message_attack) (λ attacks. take_byte-Within n junk (some p) h)
            (λ unknown. h))

  -- Where reads take values off a packet, the loop over a packet's messages ends in as many rounds as
  -- the packet has values, and one more, whatever the packet holds.
  pub take_messages-ends :
      (rounds : ℕ) (junk : ℤ) (p : π.Packet) (player : PlayerInput)
      → length (π.fields p) < rounds
      → (new : PlayerInput) × (take_messages π rounds junk p player ≡ done new)
  unfolding take_messages
  take_messages-ends zero junk p player lt = absurd (omega (arith, lt))
  take_messages-ends (suc rounds) junk p player lt =
      let Ends = λ (o : Outcome PlayerInput). (new : PlayerInput) × (o ≡ done new) in
      option_ind Ends (π.read_i8 p) (λ over. (player, refl))
        (λ first reads.
          let shorter = read_i8-shorter p first.1 first.0 reads in
          let left = length (π.fields first.1) in
          let taken = take_message π junk first.0 first.1 player in
          let within = take_message-Within left junk first.0 first.1 player (omega arith) in
          let delim_within = take_byte-Within left (ℤ.pos 0) taken.1 within in
          option_ind Ends (take_byte π (ℤ.pos 0) taken.1).1 (λ faulty. (taken.0, refl))
            (λ r found.
              if_ind Ends (eq_ℤ (take_byte π (ℤ.pos 0) taken.1).0 player_update_delim)
                (λ more.
                  take_messages-ends rounds junk r taken.0
                    (omega (arith, lt, shorter, subst (Within left) found delim_within)))
                (λ faulty. (taken.0, refl))))
