-- ===== src/Client/Main.antt =====
-- client/main.cpp: the packet handler and the command line of the client program. The state is the
-- client and the lines that it has printed.
use sfrpg.Base.{
  ℕ, zero, suc, ◌-◌, ◌%◌, ◌^◌, if◌then◌else◌, Option, none, some, List, [], ◌∷◌, ◌++◌, ℤ, eq_ℤ,
  Text, codes, eq_text,
}
use sfrpg.Platform.{Platform, str}
use sfrpg.Packets.{take_str}
use sfrpg.Server.State.{null_id, packet_disconnect, stamp_packet}
use sfrpg.Server.Accounts.{MessageRow}
use sfrpg.ServerMain.{
  packet_message, packet_register, packet_login, packet_sql, packet_chat_message, packet_chat,
}
use sfrpg.Client.{Client, send, disconnect}

pub record Screen (π : Platform) : Type 0 where
  pub client : Client π
  pub lines : List Text

abbrev load_failed : Text
load_failed = codes "Failed to load messages, error occured."

-- `(size_t)size`
unfoldable pub to_size : ℤ → ℕ
to_size (ℤ.pos n) = n
to_size (ℤ.negsuc n) = 2 ^ 64 - 1 - n % 2 ^ 64

module _ (π : Platform) where
  open π use {Packet, new_packet, write, read_str, read_i32}

  unfoldable pub read_row : Packet → Option (MessageRow × Packet)
  read_row p = elim (read_str p) [
    | none ↦ none
    | some (sender, q) ↦ elim (read_str q) [
      | none ↦ none
      | some (receiver, r) ↦ elim (read_str r) [
        | none ↦ none
        | some (content, t) ↦
            some (record { sender = sender; receiver = receiver; content = content }, t)
      ]
    ]
  ]

  -- The loop over the rows, which ends early where a read fails.
  unfoldable pub read_rows : ℕ → Packet → List MessageRow
  unfolding read_row
  read_rows zero p = []
  read_rows (suc n) p = elim (read_row p) [ none ↦ [] | some (row, q) ↦ row ∷ read_rows n q ]

  -- The count and the rows of a reply; `none` is a reply that says that the query failed.
  unfoldable pub read_result : Packet → Option (List MessageRow)
  unfolding read_rows to_size
  read_result p = elim (read_i32 p) [
    | none ↦ none
    | some (size, q) ↦ if eq_ℤ size null_id then none else some (read_rows (to_size size) q)
  ]

  sql_line : MessageRow → Text
  sql_line row =
      codes "sender: "
      ++ row.sender
      ++ codes ", receiver: "
      ++ row.receiver
      ++ codes ": "
      ++ row.content

  unfoldable pub chat_line : MessageRow → Text
  chat_line row = row.sender ++ codes ": " ++ row.content

  unfoldable pub lines_of : (MessageRow → Text) → List MessageRow → List Text
  lines_of line [] = []
  lines_of line (row ∷ rows) = line row ∷ lines_of line rows

  unfoldable pub result_lines : (MessageRow → Text) → Option (List MessageRow) → List Text
  unfolding lines_of
  result_lines line none = load_failed ∷ []
  result_lines line (some rows) = lines_of line rows

  abbrev show_lines : List Text → Screen π → Screen π
  show_lines new s = record s { lines = s.lines ++ new }

  on_login : Packet → Screen π → Screen π
  on_login l_packet s = elim (read_str l_packet) [
    | none ↦ show_lines (codes "Failed to login, error occured." ∷ []) s
    | some (username, q) ↦
        show_lines (codes "Logged in successfully." ∷ [])
          (record s { client = record s.client { username = username } })
  ]

  -- handlePacket
  unfoldable pub handle_packet : ℤ → Packet → Screen π → Screen π
  unfolding on_login result_lines read_result sql_line chat_line take_str disconnect
  handle_packet l_id l_packet s =
      if eq_ℤ l_id packet_message
      then show_lines ((take_str π (some l_packet)).0 ∷ []) s
      else if eq_ℤ l_id packet_register
      then show_lines ((take_str π (some l_packet)).0 ∷ []) s
      else if eq_ℤ l_id packet_login
      then on_login l_packet s
      else if eq_ℤ l_id packet_sql
      then show_lines (result_lines sql_line (read_result l_packet)) s
      else if eq_ℤ l_id packet_chat_message
      then show_lines ((take_str π (some l_packet)).0 ∷ []) s
      else if eq_ℤ l_id packet_chat
      then show_lines (result_lines chat_line (read_result l_packet)) s
      else if eq_ℤ l_id packet_disconnect
      then record s { client = (disconnect s.client).0 }
      else s

  -- What the user types after a command: the answers to its prompts. The passwords of `register` are
  -- asked for until the repetition agrees, so they arrive here as one.
  pub record Answers : Type 0 where
    pub email : Text
    pub name : Text
    pub password : Text
    pub content : Text

  unfoldable pub register_packet : Answers → Packet
  register_packet a =
      write
        (write
          (write (write (stamp_packet π packet_register new_packet) (str a.email)) (str a.name))
          (str a.password))
        (str a.password)

  unfoldable pub login_packet : Answers → Packet
  login_packet a =
      write (write (stamp_packet π packet_login new_packet) (str a.email)) (str a.password)

  unfoldable pub message_packet : Text → Answers → Packet
  message_packet username a =
      write
        (write (write (stamp_packet π packet_chat_message new_packet) (str username)) (str a.name))
        (str a.content)

  -- commandProcess, on one line of input and the answers to the prompts that it leads to.
  unfoldable pub command_process : Text → Answers → Client π → Client π
  unfolding send disconnect register_packet login_packet message_packet
  command_process line a c =
      if eq_text line (codes "")
      then c
      else if eq_text line (codes "!quit")
      then (disconnect c).0
      else if eq_text line (codes "register")
      then (send (register_packet a) c).0
      else if eq_text line (codes "login")
      then (send (login_packet a) c).0
      else if eq_text line (codes "chat")
      then (send (write (stamp_packet π packet_sql new_packet) (str c.username)) c).0
      else if eq_text line (codes "message")
      then (send (message_packet c.username a) c).0
      else if eq_text line (codes "chatwith")
      then (send
          (write (write (stamp_packet π packet_chat new_packet) (str c.username)) (str a.name)) c).0
      else (send (write (stamp_packet π packet_message new_packet) (str line)) c).0
