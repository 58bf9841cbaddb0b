-- ===== src/ServerMain.antt =====
-- server/main.cpp: the packet handler and the command line of the server program. The state is the
-- server and its database. `none` is undefined behaviour: a login that runs off the end of
-- authenticateUser.
pub mod Replies
mod Tests
use sfrpg.Base.{
  ℕ, Bool, true, false, if◌then◌else◌, Option, none, some, List, [], ◌++◌, ℤ, eq_ℤ, leb_ℤ, Text,
  codes, eq_text, to_string, to_string_ℤ,
}
use sfrpg.Platform.{Platform, str, i32}
use sfrpg.Packets.{take_str, write_result}
use sfrpg.Server.State.{Server, udp, null_id, packet_disconnect, packet_connect, stamp_packet}
use sfrpg.Server.Transport.{send, broadcast, disconnect_all}
use sfrpg.Server.Registry.{add_client, get_client_id, remove_client}
use sfrpg.Server.Lifecycle.{stop}
use sfrpg.Server.Accounts.{
  MessageRow, Sqlite, Authenticated, answer, falls_off, register_user, authenticate_user,
  add_message, get_messages_for_user, get_chat_messages,
}

abbrev pub packet_message : ℤ
packet_message = ℤ.pos 2

abbrev pub packet_register : ℤ
packet_register = ℤ.pos 6

abbrev pub packet_login : ℤ
packet_login = ℤ.pos 7

abbrev pub packet_sql : ℤ
packet_sql = ℤ.pos 8

abbrev pub packet_chat_message : ℤ
packet_chat_message = ℤ.pos 9

abbrev pub packet_chat : ℤ
packet_chat = ℤ.pos 10

pub record Host (π : Platform) (σ : Sqlite) : Type 0 where
  pub server : Server π
  pub db : σ.Db

register_status : Bool → Text
register_status true = codes "Registered successfully!"
register_status false = codes "Failed to register. Error occured!"

chat_message_status : Bool → Text
chat_message_status true = codes "Message has been successfully sent!"
chat_message_status false = codes "Failed to add message, error occured."

module _ (π : Platform) where
  open π use {Packet, new_packet, write}

  -- Only a login that succeeds puts the name into the reply.
  login_reply : Authenticated → Option Packet
  login_reply (answer true username) =
      some (write (stamp_packet π packet_login new_packet) (str username))
  login_reply (answer false username) = some (stamp_packet π packet_login new_packet)
  login_reply falls_off = none

  chat_reply : Option (List MessageRow) → Packet
  unfolding write_result
  chat_reply none = write (stamp_packet π packet_chat new_packet) (i32 null_id)
  chat_reply (some rows) = write_result π rows (stamp_packet π packet_chat new_packet)

module _ (π : Platform) (σ : Sqlite) (hash : Text → ℕ) (ip_string : π.IpAddress → Text) where
  open π use {IpAddress, Packet, new_packet, write}

  abbrev send_to_client : Host π σ → ℤ → Packet → Host π σ
  send_to_client h cid p = record h { server = (send h.server cid p).0 }

  on_disconnect : ℤ → Host π σ → Host π σ
  on_disconnect cid h =
      let msg = codes "Client " ++ to_string_ℤ cid ++ codes " has left." in
      let packet = write (stamp_packet π packet_message new_packet) (str msg) in
      record h { server = broadcast (remove_client h.server cid).0 packet cid }

  on_message : ℤ → IpAddress → ℕ → Packet → Host π σ → Host π σ
  unfolding take_str
  on_message cid l_ip l_port l_packet h =
      let received = (take_str π (some l_packet)).0 in
      let msg = ip_string l_ip ++ codes ":" ++ to_string l_port ++ codes " " ++ received in
      let packet = write (stamp_packet π packet_message new_packet) (str msg) in
      record h { server = broadcast h.server packet cid }

  on_register : ℤ → Packet → Host π σ → Host π σ
  unfolding take_str register_status
  on_register cid l_packet h =
      let (email, p) = take_str π (some l_packet) in
      let (username, q) = take_str π p in
      let (password, r) = take_str π q in
      let (db, done) = register_user σ hash h.db email username password in
      let packet = write (stamp_packet π packet_register new_packet) (str (register_status done)) in
      send_to_client (record h { db = db }) cid packet

  on_login : ℤ → Packet → Host π σ → Option (Host π σ)
  unfolding take_str login_reply
  on_login cid l_packet h =
      let (email, p) = take_str π (some l_packet) in
      let (password, q) = take_str π p in
      elim (login_reply π (authenticate_user σ hash h.db email password [])) [
        | none ↦ none
        | some packet ↦ some (send_to_client h cid packet)
      ]

  -- If the query throws, the reply is written and not sent.
  on_sql : ℤ → Packet → Host π σ → Host π σ
  unfolding take_str write_result
  on_sql cid l_packet h = elim (get_messages_for_user σ h.db (take_str π (some l_packet)).0) [
    | none ↦ h
    | some rows ↦ send_to_client h cid (write_result π rows (stamp_packet π packet_sql new_packet))
  ]

  on_chat_message : ℤ → Packet → Host π σ → Host π σ
  unfolding take_str chat_message_status
  on_chat_message cid l_packet h =
      let (sender, p) = take_str π (some l_packet) in
      let (receiver, q) = take_str π p in
      let (content, r) = take_str π q in
      let (db, done) = add_message σ h.db sender receiver content in
      let packet =
        write (stamp_packet π packet_chat_message new_packet) (str (chat_message_status done)) in
      send_to_client (record h { db = db }) cid packet

  on_chat : ℤ → Packet → Host π σ → Host π σ
  unfolding take_str chat_reply
  on_chat cid l_packet h =
      let (first_user, p) = take_str π (some l_packet) in
      let (second_user, q) = take_str π p in
      send_to_client h cid (chat_reply π (get_chat_messages σ h.db first_user second_user))

  -- The chain of tests on the packet's type, for a client that the server knows.
  unfoldable pub handle_known : ℤ → IpAddress → ℕ → ℤ → Packet → Host π σ → Option (Host π σ)
  unfolding on_disconnect on_message on_register on_login on_sql on_chat_message on_chat
  handle_known cid l_ip l_port l_id l_packet h =
      if eq_ℤ l_id packet_disconnect
      then some (on_disconnect cid h)
      else if eq_ℤ l_id packet_message
      then some (on_message cid l_ip l_port l_packet h)
      else if eq_ℤ l_id packet_register
      then some (on_register cid l_packet h)
      else if eq_ℤ l_id packet_login
      then on_login cid l_packet h
      else if eq_ℤ l_id packet_sql
      then some (on_sql cid l_packet h)
      else if eq_ℤ l_id packet_chat_message
      then some (on_chat_message cid l_packet h)
      else if eq_ℤ l_id packet_chat
      then some (on_chat cid l_packet h)
      else some h

  unfoldable pub handle_connect : IpAddress → ℕ → Host π σ → Host π σ
  handle_connect l_ip l_port h =
      let (server, id) = add_client h.server udp l_ip l_port in
      send_to_client (record h { server = server }) id (stamp_packet π packet_connect new_packet)

  -- handlePacket
  unfoldable pub handle_packet : IpAddress → ℕ → ℤ → Packet → Host π σ → Option (Host π σ)
  unfolding handle_known handle_connect
  handle_packet l_ip l_port l_id l_packet h =
      let cid = get_client_id h.server l_ip l_port in
      if leb_ℤ (ℤ.pos 0) cid
      then handle_known cid l_ip l_port l_id l_packet h
      else if eq_ℤ l_id packet_connect
      then some (handle_connect l_ip l_port h)
      else some h

-- commandProcess, on one line of input; what it prints is left out.
unfoldable pub command_process : {π : Platform} → Text → Server π → Server π
command_process line s =
    if eq_text line (codes "!quit")
    then (stop s).0
    else if eq_text line (codes "dc")
    then disconnect_all s
    else s
