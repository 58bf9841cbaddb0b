-- ===== src/ServerMain/Replies.antt =====
-- A request of the client program, the server program's reply, and what the client makes of it.
use sfrpg.Base.{
  ℕ, ◌^◌, ◌<◌, ◌≡◌, refl, ap, true, some, List, [], ◌∷◌, ◌++◌, ℤ, leb_ℤ, Text, length, arith,
}
use sfrpg.Platform.{Platform, PacketLaws, Datum, str}
use sfrpg.Packets.{take_str, write_result}
use sfrpg.Server.State.{stamp_packet}
use sfrpg.Server.Transport.{send}
use sfrpg.Server.Registry.{get_client_id}
use sfrpg.Server.Accounts.{MessageRow, Sqlite, get_chat_messages}
use sfrpg.ServerMain.{Host, handle_packet, packet_chat}
use sfrpg.Client.Main.{Screen, read_result, result_lines, lines_of, chat_line}
use sfrpg.Client.Main
use sfrpg.Client.Exchange.{read_result-write_result}

module _ {π : Platform} (laws : PacketLaws π) (σ : Sqlite) (hash : Text → ℕ)
    (ip_string : π.IpAddress → Text) where
  open π use {Packet, IpAddress, fields, new_packet, read_i8}
  open laws use {read_str_lem}

  take_str_lem :
      (p : Packet) (text : Text) (rest : List (Datum π.Float))
      → fields p ≡ str text ∷ rest
      → (q : Packet) × (take_str π (some p) ≡ (text, some q)) × (fields q ≡ rest)
  unfolding take_str
  take_str_lem p text rest e =
      let (q, read_q, e_q) = read_str_lem p text rest e in (q, rw (read_q, take_str), e_q)

  -- The lines of a chat: the sender, a colon and the content.
  abbrev pub printed : List MessageRow → List Text
  printed [] = []
  printed (row ∷ rows) = (row.sender ++ (58 ∷ 32 ∷ []) ++ row.content) ∷ printed rows

  result_lines-printed :
      (rows : List MessageRow) → result_lines π (chat_line π) (some rows) ≡ printed rows
  unfolding result_lines lines_of chat_line
  result_lines-printed [] = refl
  result_lines-printed (row ∷ rows) =
      ap (λ (ls : List Text). (row.sender ++ (58 ∷ 32 ∷ []) ++ row.content) ∷ ls)
        (result_lines-printed rows)

  -- A chat that a known client asks for, where the query succeeds with fewer than 2 ^ 31 rows: the
  -- server sends that client one reply and changes nothing else, and the client, having read the
  -- reply's type, prints for each of the rows, in order, the
  -- sender, a colon and the content.
  pub chat_exchange :
      (h : Host π σ) (l_ip : IpAddress) (l_port n : ℕ) (request : Packet)
      (first_user second_user : Text) (rows : List MessageRow) (s : Screen π)
      → get_client_id h.server l_ip l_port ≡ ℤ.pos n
      → fields request ≡ str first_user ∷ str second_user ∷ []
      → get_chat_messages σ h.db first_user second_user ≡ some rows
      → length rows < 2 ^ 31
      → let reply = write_result π rows (stamp_packet π packet_chat new_packet) in
        (handle_packet π σ hash ip_string l_ip l_port packet_chat request h
          ≡ some (record h { server = (send h.server (ℤ.pos n) reply).0 }))
        × ((q : Packet) × (read_i8 reply ≡ some (packet_chat, q))
            × ((Main.handle_packet π packet_chat q s).lines ≡ s.lines ++ printed rows))
  unfolding handle_packet Main.handle_packet
  chat_exchange h l_ip l_port n request first_user second_user rows s known asked found few =
      let (p, read_p, e_p) = take_str_lem request first_user _ asked in
      let (q, read_q, e_q) = take_str_lem p second_user _ e_p in
      let is_client : leb_ℤ (ℤ.pos 0) (ℤ.pos n) ≡ true = ground arith in
      let (r, typed, shown) = read_result-write_result laws packet_chat rows few in
      (
        rw (known, read_p, read_q, found, is_client) refl,
        (r, typed, rw shown (ap (λ (ls : List Text). s.lines ++ ls) (result_lines-printed rows))),
      )
