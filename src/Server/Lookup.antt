-- ===== src/Server/Lookup.antt =====
-- Adding, finding and removing clients, seen through the server's own queries.
use sfrpg.Base.{
  ℕ, ◌+◌, ◌^◌, ◌<◌, ◌≡◌, ◌≢◌, refl, ap, inl, inr, true, false, ◌&&◌, none, some, List, [], ◌∷◌,
  ◌++◌, ℤ, arith, Bool-cases, Option-cases, eq_ℤ, eq_ℤ_iff, lookup, erase, keys, All, All-map,
  Fresh-lookup, emplace_new, to_i32-small, lookup-append_fresh, lookup-erase_ne, lookup-erase_self,
  if◌then◌else◌, if_ind, option_ind,
}
use sfrpg.Platform.{Platform}
use sfrpg.Server.State.{
  NetworkProtocol, ClientInfo, Server, null_id, new_client, assign, stamp_packet, packet_disconnect,
}
use sfrpg.Server.Transport.{at_endpoint, find_endpoint}
use sfrpg.Server.Registry.{
  add_client, get_client_id, get_client_info, has_client, dismiss, remove_client,
}
use sfrpg.Server.Traffic.{send-SameClients}
use sfrpg.Server.WellFormed.{Issued, Issued-next, find_endpoint-lookup}
use sfrpg.Server.Invariant.{Inv}

module _ {ℓ κ} {V : Type ℓ} where
  All-keys-lookup :
      (P : ℤ → Type κ) (k : ℤ) (v : V) (m : List (ℤ × V))
      → All P (keys m)
      → lookup k m ≡ some v
      → P k
  unfolding lookup
  All-keys-lookup P k v [] h e = cc
  All-keys-lookup P k v ((j, w) ∷ m) h e = elim (Bool-cases (eq_ℤ j k)) [
    | inl hit ↦ rw ((eq_ℤ_iff j k).0 hit) at h.0
    | inr miss ↦ All-keys-lookup P k v m h.1 (rw miss at e)
  ]

Issued-ne-null_id : (n : ℕ) (id : ℤ) → Issued n id → id ≢ null_id
Issued-ne-null_id n (ℤ.pos k) h = λ e. cc
Issued-ne-null_id n (ℤ.negsuc k) h = absurd h

module _ {π : Platform} where
  open π use {IpAddress, ip_eq, ip_eq_iff}

  at_endpoint_self : (info : ClientInfo π) → at_endpoint info.client_ip info.client_port info ≡ true
  at_endpoint_self info = ground (arith, ip_eq_iff info.client_ip info.client_ip)

  find_endpoint-append :
      (k : ℤ) (v : ClientInfo π) (m : List (ℤ × ClientInfo π))
      → find_endpoint v.client_ip v.client_port m ≡ none
      → find_endpoint v.client_ip v.client_port (m ++ (k, v) ∷ []) ≡ some (k, v)
  unfolding find_endpoint
  find_endpoint-append k v [] e = rw (at_endpoint_self v)
  find_endpoint-append k v ((j, w) ∷ m) e =
      elim (Bool-cases (at_endpoint v.client_ip v.client_port w)) [
        | inl hit ↦ absurd (ground arith)
        | inr miss ↦ rw miss (find_endpoint-append k v m (rw miss at e))
      ]

  unknown_endpoint :
      (s : Server π) (l_ip : IpAddress) (l_port : ℕ)
      → s.running ≡ true
      → Inv s
      → get_client_id s l_ip l_port ≡ null_id
      → find_endpoint l_ip l_port s.client_map ≡ none
  unfolding get_client_id
  unknown_endpoint s l_ip l_port r h e =
      elim (Option-cases (find_endpoint l_ip l_port s.client_map)) [
        | inl nobody ↦ nobody
        | inr ((id, info), found) ↦ absurd (
            Issued-ne-null_id s.last_id id
              (All-keys-lookup (Issued s.last_id) id info s.client_map h.map_ok.issued
                (find_endpoint-lookup l_ip l_port s.client_map h.map_ok.distinct found))
              (ground arith))
      ]

  abbrev pub newcomer : Server π → NetworkProtocol → IpAddress → ℕ → ClientInfo π
  newcomer s l_protocol l_ip l_port =
      new_client l_protocol l_ip l_port s.server_time (π.milliseconds (ℤ.pos 0))

  add_client_new :
      (s : Server π) (l_protocol : NetworkProtocol) (l_ip : IpAddress) (l_port : ℕ)
      → s.running ≡ true
      → s.last_id + 1 < 2 ^ 31
      → lookup (ℤ.pos s.last_id) s.client_map ≡ none
      → find_endpoint l_ip l_port s.client_map ≡ none
      → add_client s l_protocol l_ip l_port ≡ (
        record s {
          client_map = s.client_map ++ (ℤ.pos s.last_id, newcomer s l_protocol l_ip l_port) ∷ [];
          last_id = s.last_id + 1;
        },
        ℤ.pos s.last_id,
      )
  unfolding add_client
  add_client_new s l_protocol l_ip l_port r room unused nobody = ground (
    arith,
    to_i32-small s.last_id,
    emplace_new (ℤ.pos s.last_id) (newcomer s l_protocol l_ip l_port) s.client_map unused,
  )

  -- Adding a client at an address and port that no client has, to a running server with room for one
  -- more identifier: the client gets the identifier of the counter, which no client had, is found
  -- under its address and port with a fresh record, and every other entry stays as it was.
  pub get_client_id-add_client :
      (s : Server π) (l_protocol : NetworkProtocol) (l_ip : IpAddress) (l_port : ℕ)
      → s.running ≡ true
      → s.last_id + 1 < 2 ^ 31
      → Inv s
      → get_client_id s l_ip l_port ≡ null_id
      → let r = add_client s l_protocol l_ip l_port in
        (r.1 ≡ ℤ.pos s.last_id)
        × (get_client_id r.0 l_ip l_port ≡ r.1)
        × (has_client s r.1 ≡ false)
        × ((j : ℤ)
            → lookup j r.0.client_map ≡ (
                if eq_ℤ r.1 j
                then some (newcomer s l_protocol l_ip l_port)
                else lookup j s.client_map))
  unfolding get_client_id has_client new_client
  get_client_id-add_client s l_protocol l_ip l_port r room h e =
      let id = ℤ.pos s.last_id in
      let nobody = unknown_endpoint s l_ip l_port r h e in
      let unused =
        Fresh-lookup id s.client_map
          (All-map (Issued-next s.last_id) (keys s.client_map) h.map_ok.issued) in
      let added = add_client_new s l_protocol l_ip l_port r room unused nobody in
      let info = newcomer s l_protocol l_ip l_port in
      rw added (
        refl,
        ground (arith, find_endpoint-append id info s.client_map nobody),
        ground (arith, unused),
        λ j. lookup-append_fresh id j info s.client_map unused,
      )

  -- An address and port that some client has is refused: the server stays as it is.
  pub add_client_taken :
      (s : Server π) (l_protocol : NetworkProtocol) (l_ip : IpAddress) (l_port : ℕ)
      → get_client_id s l_ip l_port ≢ null_id
      → add_client s l_protocol l_ip l_port ≡ (s, null_id)
  unfolding add_client get_client_id
  add_client_taken s l_protocol l_ip l_port h =
      if_ind (λ (r : Server π × ℤ). r ≡ (s, null_id)) s.running
        (λ r.
          option_ind (λ (x : Server π × ℤ). x ≡ (s, null_id))
            (find_endpoint l_ip l_port s.client_map) (λ nobody. absurd (h (ground arith)))
            (λ found e. refl))
        (λ _. refl)

  dismiss-lookup : (s : Server π) (id : ℤ) → (dismiss s id).client_map ≡ erase id s.client_map
  unfolding dismiss
  dismiss-lookup s id =
      ap (erase id)
        (send-SameClients s id (stamp_packet π packet_disconnect π.new_packet)).client_map

  -- Removing a client from a running server with distinct identifiers answers whether the client was
  -- known, forgets it, and changes no other entry.
  pub has_client-remove_client :
      (s : Server π) (id : ℤ)
      → s.running ≡ true
      → Inv s
      → let r = remove_client s id in
        (r.1 ≡ has_client s id)
        × (has_client r.0 id ≡ false)
        × ((j : ℤ) → lookup j r.0.client_map ≡ (if eq_ℤ id j then none else lookup j s.client_map))
  unfolding remove_client has_client
  has_client-remove_client s id r h = elim (Option-cases (lookup id s.client_map)) [
    | inl unknown ↦ (
      ground arith,
      ground arith,
      λ j. elim (Bool-cases (eq_ℤ id j)) [
        | inl same ↦
            let e : id ≡ j = (eq_ℤ_iff id j).0 same in
            ground (arith, ap (λ (k : ℤ). lookup k s.client_map) e)
        | inr other ↦ ground arith
      ],
    )
    | inr (info, known) ↦
        let gone = lookup-erase_self id s.client_map h.map_ok.distinct in
        let rest = dismiss-lookup s id in
        (
          ground arith,
          ground (arith, rest, gone),
          λ j. elim (Bool-cases (eq_ℤ id j)) [
            | inl same ↦
                let e : id ≡ j = (eq_ℤ_iff id j).0 same in
                ground (arith, rest, gone, ap (λ (k : ℤ). lookup k (erase id s.client_map)) e)
            | inr other ↦ ground (arith, rest, eq_ℤ_iff id j, lookup-erase_ne id j s.client_map)
          ],
        )
  ]

  -- Asking for a client's record answers whether the server runs and knows the client, and whatever
  -- the answer, the caller's count of heartbeats sent again stays: the assignment leaves it out.
  pub get_client_info-heartbeat_retry :
      (s : Server π) (id : ℤ) (l_info : ClientInfo π)
      → ((get_client_info s id l_info).0 ≡ (s.running && has_client s id))
        × ((get_client_info s id l_info).1.heartbeat_retry ≡ l_info.heartbeat_retry)
  unfolding get_client_info assign has_client
  get_client_info-heartbeat_retry s id l_info = (ground arith, ground arith)
