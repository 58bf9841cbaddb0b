-- ===== src/Client/Exchange.antt =====
-- What the server writes and the client reads, and the other way round, on packets that keep their
-- promises.
use mathlib.Core.List.{append-nil, append_assoc}
use sfrpg.Base.{
  ℕ, ◌%◌, ◌^◌, ◌<◌, ◌≡◌, refl, sym, ap, ◌∙◌, true, false, if◌then◌else◌, eq_ℤ, lookup,
  lookup-update, to_u32, ◌-ℤ◌, Option, some, List, [], ◌∷◌, ◌++◌, ℤ, length, to_i32, to_i32-small,
  arith,
}
use sfrpg.Platform.{Platform, PacketLaws, Datum, i8, i32, str, udp_send}
use sfrpg.Packets.{write_rows, write_result}
use sfrpg.Server.State.{Server, ClientInfo, udp, packet_heartbeat, stamp_packet}
use sfrpg.Server.Accounts.{MessageRow}
use sfrpg.Server.Heartbeat.{heartbeat_packet, heartbeat_from, accept_heartbeat, heard}
use sfrpg.Server.Invariant.{Inv}
use sfrpg.Server.WellFormed.{lookup-find_endpoint}
use sfrpg.Server.Listener.{PacketHandler, udp_packet, count_received}
use sfrpg.Client.{Client, ClientHandler, packet_from, udp_round, on_heartbeat}
use sfrpg.Client.Main.{read_row, read_rows, read_result, to_size}

module _ {π : Platform} (laws : PacketLaws π) where
  open π use {Packet, Float, new_packet, write, fields, read_i8, read_i32}
  open laws use {fields-new, fields-write, read_i8_lem, read_i32_lem, read_str_lem}

  row_fields : List MessageRow → List (Datum Float)
  row_fields [] = []
  row_fields (row ∷ rows) = str row.sender ∷ str row.receiver ∷ str row.content ∷ row_fields rows

  fields-write_rows :
      (rows : List MessageRow) (p : Packet)
      → fields (write_rows π rows p) ≡ fields p ++ row_fields rows
  unfolding write_rows row_fields
  fields-write_rows [] p = sym (append-nil (fields p))
  fields-write_rows (row ∷ rows) p = fields-write_rows rows _ ∙ simp (fields-write, append_assoc)

  read_row_lem :
      (p : Packet) (row : MessageRow) (rest : List (Datum Float))
      → fields p ≡ str row.sender ∷ str row.receiver ∷ str row.content ∷ rest
      → (q : Packet) × (read_row π p ≡ some (row, q)) × (fields q ≡ rest)
  unfolding read_row
  read_row_lem p row rest e =
      let (q, read_q, e_q) = read_str_lem p row.sender _ e in
      let (r, read_r, e_r) = read_str_lem q row.receiver _ e_q in
      let (t, read_t, e_t) = read_str_lem r row.content _ e_r in
      (t, rw (read_q, read_row, read_r, read_t), e_t)

  read_rows_lem :
      (rows : List MessageRow) (p : Packet)
      → fields p ≡ row_fields rows
      → read_rows π (length rows) p ≡ rows
  unfolding read_rows row_fields
  read_rows_lem [] p e = refl
  read_rows_lem (row ∷ rows) p e =
      let (q, read_q, e_q) = read_row_lem p row (row_fields rows) e in
      rw (read_q, read_rows) (ap (◌∷◌ row) (read_rows_lem rows q e_q))

  -- The reply that carries a query's rows, under any type: once the client has read the type off, it
  -- reads exactly those rows, each with its sender, receiver and content, in order. The rows are
  -- fewer than 2 ^ 31.
  pub read_result-write_result :
      (l_type : ℤ) (rows : List MessageRow)
      → length rows < 2 ^ 31
      → (q : Packet) × (read_i8 (write_result π rows (stamp_packet π l_type new_packet))
          ≡ some (l_type, q))
        × (read_result π q ≡ some rows)
  unfolding write_result read_result stamp_packet to_size
  read_result-write_result l_type rows few =
      let p = write (write new_packet (i8 l_type)) (i32 (ℤ.pos (length rows))) in
      let small : to_i32 (length rows % 2 ^ 32) ≡ ℤ.pos (length rows) =
        ap to_i32 (omega arith) ∙ to_i32-small (length rows) few in
      let start : fields (write_rows π rows p)
          ≡ i8 l_type ∷ i32 (ℤ.pos (length rows)) ∷ row_fields rows =
        fields-write_rows rows p ∙ simp (fields-write, fields-new) in
      let (q, read_q, e_q) = read_i8_lem (write_rows π rows p) l_type _ start in
      let (r, read_r, e_r) = read_i32_lem q (ℤ.pos (length rows)) (row_fields rows) e_q in
      (q, rw small read_q, rw (read_r, read_result) (ap some (read_rows_lem rows r e_r)))

  -- The client after a heartbeat with the timestamp `n`.
  beaten : ℤ → Client π → Client π
  beaten n c = record c {
    attempts =
        c.attempts
        ++ udp_send c.server_ip c.server_port (stamp_packet π packet_heartbeat new_packet) ∷ [];
    server_time = π.milliseconds n;
    last_heartbeat = π.milliseconds n;
  }

  on_heartbeat_udp :
      (junk n : ℤ) (p q : Packet) (c : Client π)
      → c.connected ≡ true
      → c.protocol ≡ udp
      → read_i32 p ≡ some (n, q)
      → on_heartbeat junk p c ≡ beaten n c
  unfolding on_heartbeat beaten
  on_heartbeat_udp junk n p q c on over_udp e = ground arith

  client_hears :
      (s : Server π) (c : Client π) (handler : Option (ClientHandler π)) (junk : ℤ)
      → c.connected ≡ true
      → c.protocol ≡ udp
      → udp_round handler junk (packet_from c.server_ip (heartbeat_packet s)) c
        ≡ beaten (π.as_milliseconds s.server_time) c
  unfolding udp_round heartbeat_packet stamp_packet
  client_hears s c handler junk on over_udp =
      let n = π.as_milliseconds s.server_time in
      let (q, read_q, e_q) =
        read_i8_lem (heartbeat_packet s) packet_heartbeat (i32 n ∷ [])
          (simp (fields-write, fields-new)) in
      let (r, read_r, e_r) = read_i32_lem q n [] e_q in
      rw ((π.ip_eq_iff c.server_ip c.server_ip).1 refl, read_q)
        (on_heartbeat_udp junk n q r c on over_udp read_r)

  -- The record of a client whose heartbeat came back at the time `now`.
  abbrev pub credited : π.Time → ClientInfo π → ClientInfo π
  credited now info = record info {
    ping = to_u32 (π.as_milliseconds now -ℤ π.as_milliseconds info.last_heartbeat);
    heartbeat_waiting = false;
    last_heartbeat = now;
    heartbeat_retry = 0;
  }

  credits :
      (t : Server π) (id : ℤ) (info : ClientInfo π) (j : ℤ)
      → Inv t
      → lookup id t.client_map ≡ some info
      → info.heartbeat_waiting ≡ true
      → lookup j (heartbeat_from info.client_ip info.client_port t).client_map
        ≡ (if eq_ℤ id j then some (credited t.server_time info) else lookup j t.client_map)
  unfolding heartbeat_from accept_heartbeat heard
  credits t id info j ok known waits =
      rw
        (lookup-find_endpoint id info t.client_map ok.map_ok.endpoints known, heartbeat_from, waits)
        (lookup-update id j (credited t.server_time info) info t.client_map known)

  server_hears :
      (t : Server π) (handler : Option (PacketHandler π)) (ip : π.IpAddress) (port : ℕ)
      → let reply = stamp_packet π packet_heartbeat new_packet in
        udp_packet handler ip port reply t ≡ heartbeat_from ip port (count_received reply t)
  unfolding udp_packet stamp_packet
  server_hears t handler ip port =
      let (q, read_q, e_q) =
        read_i8_lem (stamp_packet π packet_heartbeat new_packet) packet_heartbeat []
          (simp (fields-write, fields-new)) in
      rw read_q

  -- A heartbeat there and back over UDP. The client, connected to the sender's address, sends one
  -- heartbeat packet to the server, and takes the server's time for its clock and as the time of the
  -- last heartbeat. A server that keeps its invariant and receives that packet from the address and
  -- port of a client that it waits for marks that client as heard now, with a ping and no retries, and
  -- leaves the other clients as they were, whatever the packet handler.
  pub heartbeat_exchange :
      (s : Server π) (c : Client π) (client_handler : Option (ClientHandler π)) (junk : ℤ)
      (t : Server π) (server_handler : Option (PacketHandler π)) (id : ℤ) (info : ClientInfo π)
      → c.connected ≡ true
      → c.protocol ≡ udp
      → Inv t
      → lookup id t.client_map ≡ some info
      → info.heartbeat_waiting ≡ true
      → let now = π.milliseconds (π.as_milliseconds s.server_time) in
        let reply = stamp_packet π packet_heartbeat new_packet in
        let after =
          udp_round client_handler junk (packet_from c.server_ip (heartbeat_packet s)) c in
        (after.attempts ≡ c.attempts ++ udp_send c.server_ip c.server_port reply ∷ [])
        × (after.server_time ≡ now)
        × (after.last_heartbeat ≡ now)
        × ((j : ℤ)
            → lookup j
                (udp_packet server_handler info.client_ip info.client_port reply t).client_map
              ≡ (if eq_ℤ id j then some (credited t.server_time info) else lookup j t.client_map))
  unfolding beaten count_received
  heartbeat_exchange s c client_handler junk t server_handler id info on over_udp ok known waits =
      let heard = client_hears s c client_handler junk on over_udp in
      (
        ap (λ (d : Client π). d.attempts) heard,
        ap (λ (d : Client π). d.server_time) heard,
        ap (λ (d : Client π). d.last_heartbeat) heard,
        λ j. rw (server_hears t server_handler info.client_ip info.client_port) (
            credits (count_received (stamp_packet π packet_heartbeat new_packet) t) id info j ok
              known waits),
      )
