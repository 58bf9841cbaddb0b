-- ===== src/Packets.antt =====
-- Chains of reads and writes on sf::Packet, as the two programs use them. After a read that fails
-- the packet is invalid (`none`) and every later read fails too.
use sfrpg.Base.{◌%◌, ◌^◌, Option, none, some, List, [], ◌∷◌, Text, length, to_i32}
use sfrpg.Platform.{Platform, str, i32}
use sfrpg.Server.Accounts.{MessageRow}

module _ (π : Platform) where
  open π use {Packet, write, read_str, read_i32}

  -- `l_packet >> text`, which leaves an empty text if it fails.
  unfoldable pub take_str : Option Packet → Text × Option Packet
  take_str none = ([], none)
  take_str (some p) = elim (read_str p) [ none ↦ ([], none) | some (s, q) ↦ (s, some q) ]

  -- `packet << sender << receiver << content`, for each row in turn.
  unfoldable pub write_rows : List MessageRow → Packet → Packet
  write_rows [] p = p
  write_rows (row ∷ rows) p =
      write_rows rows
        (write (write (write p (str row.sender)) (str row.receiver)) (str row.content))

  -- The count of the rows, as an sf::Int32, and the rows.
  unfoldable pub write_result : List MessageRow → Packet → Packet
  unfolding write_rows
  write_result rows p = write_rows rows (write p (i32 (to_i32 (length rows % 2 ^ 32))))
