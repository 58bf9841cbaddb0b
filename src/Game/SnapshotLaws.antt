-- ===== src/Game/SnapshotLaws.antt =====
-- What common/EntitySnapshot.cpp writes and reads, on packets that keep their promises.
use mathlib.Core.List.{append_assoc}
use sfrpg.Base.{◌≡◌, refl, ap, ◌∙◌, some, List, [], ◌∷◌, ◌++◌}
use sfrpg.Platform.{Platform, PacketLaws, Datum, i32, f32, u8, str}
use sfrpg.Ecs.Components.{Vector}
use sfrpg.Game.Snapshot.{EntitySnapshot, write_snapshot, take_vector, read_snapshot}

module _ {π : Platform} (laws : PacketLaws π) where
  open π use {Packet, Float, write, fields}
  open laws use {fields-write, read_str_lem, read_f32_lem, read_i32_lem, read_u8_lem}

  -- The values of a snapshot, in front of others.
  abbrev snapshot_fields : EntitySnapshot π → List (Datum Float) → List (Datum Float)
  snapshot_fields e rest =
      str e.snapshot_type
      ∷ str e.snapshot_name
      ∷ f32 e.snapshot_position.x
      ∷ f32 e.snapshot_position.y
      ∷ i32 e.snapshot_elevation
      ∷ f32 e.snapshot_velocity.x
      ∷ f32 e.snapshot_velocity.y
      ∷ f32 e.snapshot_acceleration.x
      ∷ f32 e.snapshot_acceleration.y
      ∷ u8 e.snapshot_direction
      ∷ u8 e.snapshot_state
      ∷ u8 e.snapshot_health
      ∷ rest

  fields-write_snapshot :
      (e : EntitySnapshot π) (p : Packet)
      → fields (write_snapshot π e p) ≡ fields p ++ snapshot_fields e []
  unfolding write_snapshot
  fields-write_snapshot e p = simp (fields-write, append_assoc)

  take_vector_lem :
      (p : Packet) (v : Vector π) (rest : List (Datum Float))
      → fields p ≡ f32 v.x ∷ f32 v.y ∷ rest
      → (q : Packet) × (take_vector π p ≡ some (v, q)) × (fields q ≡ rest)
  unfolding take_vector
  take_vector_lem p v rest e =
      let (q, read_q, e_q) = read_f32_lem p v.x _ e in
      let (r, read_r, e_r) = read_f32_lem q v.y _ e_q in (r, rw (read_q, take_vector, read_r), e_r)

  -- A packet whose next values are those of a snapshot gives the snapshot, and keeps what follows.
  read_snapshot_lem :
      (e : EntitySnapshot π) (p : Packet) (rest : List (Datum Float))
      → fields p ≡ snapshot_fields e rest
      → (q : Packet) × (read_snapshot π p ≡ some (e, q)) × (fields q ≡ rest)
  unfolding read_snapshot
  read_snapshot_lem e p rest start =
      let (p1, r1, e1) = read_str_lem p e.snapshot_type _ start in
      let (p2, r2, e2) = read_str_lem p1 e.snapshot_name _ e1 in
      let (p3, r3, e3) = take_vector_lem p2 e.snapshot_position _ e2 in
      let (p4, r4, e4) = read_i32_lem p3 e.snapshot_elevation _ e3 in
      let (p5, r5, e5) = take_vector_lem p4 e.snapshot_velocity _ e4 in
      let (p6, r6, e6) = take_vector_lem p5 e.snapshot_acceleration _ e5 in
      let (p7, r7, e7) = read_u8_lem p6 e.snapshot_direction _ e6 in
      let (p8, r8, e8) = read_u8_lem p7 e.snapshot_state _ e7 in
      let (p9, r9, e9) = read_u8_lem p8 e.snapshot_health _ e8 in
      (p9, rw (r1, read_snapshot, r2, r3, r4, r5, r6, r7, r8, r9) refl, e9)

  -- A snapshot that is written into an empty packet is read back as it was, each field in its place,
  -- from any packet that starts with these values, and what follows them is left for the next read.
  pub read_snapshot-write_snapshot :
      (e : EntitySnapshot π) (p q : Packet) (rest : List (Datum Float))
      → fields p ≡ []
      → fields q ≡ fields (write_snapshot π e p) ++ rest
      → (r : Packet) × (read_snapshot π q ≡ some (e, r)) × (fields r ≡ rest)
  read_snapshot-write_snapshot e p q rest empty start =
      let values : fields (write_snapshot π e p) ≡ snapshot_fields e [] =
        fields-write_snapshot e p ∙ ap (λ d. d ++ snapshot_fields e []) empty in
      read_snapshot_lem e q rest (start ∙ ap (λ d. d ++ rest) values)
