-- ===== src/Game/EntityFile.antt =====
-- EntityManager::addEntity from a file, of common/Entity_Manager.cpp, and readIn of the components.
use sfrpg.Base.{
  ℕ, Bool, false, not, ◌==◌, if◌then◌else◌, Option, none, some, List, [], ◌∷◌, ◌++◌, Text, codes,
  eq_text, ℤ, eq_ℤ, lookup, update,
}
use sfrpg.Platform.{Platform}
use sfrpg.Server.State.{null_id}
use sfrpg.Ecs.Components.{
  Direction, up, left, down, right, EntityState, idle, walking, hurt, attacking, dying, Origin,
  top_left, abs_centre, mid_bottom, Vector, Position, Movable, Collidable, Health, Attacker, Part,
  position_part, state_part, movable_part, controller_part, collidable_part, client_part,
  health_part, name_part, attacker_part, Junk,
}
use sfrpg.Ecs.State.{World}
use sfrpg.Ecs.Entities.{get_component, add_entity}
use sfrpg.Ecs.Parts.{set_part}
use sfrpg.Game.Stream.{
  Stream, stream_of, read_word, read_unsigned, read_signed, read_float, FloatScan,
}

-- The casts of a number to an enumeration: `none` is a number that none of its constants has.
unfoldable pub direction_of : ℕ → Option Direction
direction_of n =
    if n == 0
    then some up
    else if n == 1
    then some left
    else if n == 2
    then some down
    else if n == 3
    then some right
    else none

unfoldable pub entity_state_of : ℕ → Option EntityState
entity_state_of n =
    if n == 0
    then some idle
    else if n == 1
    then some walking
    else if n == 2
    then some hurt
    else if n == 3
    then some attacking
    else if n == 4
    then some dying
    else none

unfoldable pub origin_of : ℕ → Option Origin
origin_of n =
    if n == 0
    then some top_left
    else if n == 1
    then some abs_centre
    else if n == 2
    then some mid_bottom
    else none

-- The files that the program reads, by their path from the working directory: their lines, or `none`
-- for a file that does not open.
abbrev pub Files : Type 0
Files = Text → Option (List Text)

module _ {π : Platform} (scan : FloatScan π.Float) where
  unfoldable pub read_vector : Vector π → Stream → Vector π × Stream
  unfolding read_float
  read_vector v s =
      let (x, s1) = read_float scan v.x s in
      let (y, s2) = read_float scan v.y s1 in (record { x = x; y = y }, s2)

  unfoldable pub read_position : Position π → Stream → Position π × Stream
  unfolding read_vector read_unsigned
  read_position p s =
      let (v, s1) = read_vector p.position s in
      let (elevation, s2) = read_unsigned p.elevation s1 in
      (record p { position = v; elevation = elevation }, s2)

  unfoldable pub read_movable : Movable π → Stream → Option (Movable π × Stream)
  unfolding read_vector read_float read_unsigned direction_of
  read_movable m s =
      let (velocity_max, s1) = read_float scan m.velocity_max s in
      let (speed, s2) = read_vector m.speed s1 in
      let (dir, s3) = read_unsigned 0 s2 in
      elim (direction_of dir) [
        | none ↦ none
        | some d ↦ some (record m { velocity_max = velocity_max; speed = speed; direction = d }, s3)
      ]

  unfoldable pub read_collidable : Collidable π → Stream → Option (Collidable π × Stream)
  unfolding read_vector read_float read_unsigned origin_of
  read_collidable c s =
      let (width, s1) = read_float scan c.aabb.rect_width s in
      let (height, s2) = read_float scan c.aabb.rect_height s1 in
      let (offset, s3) = read_vector c.box_offset s2 in
      let (number, s4) = read_unsigned 0 s3 in
      elim (origin_of number) [
        | none ↦ none
        | some o ↦ some (
          record c {
            aabb = record c.aabb { rect_width = width; rect_height = height };
            box_offset = offset;
            origin = o;
          },
          s4,
        )
      ]

  unfoldable pub read_health : Health π → Stream → Health π × Stream
  unfolding read_signed read_unsigned
  read_health h s =
      let (most, s1) = read_signed h.max_health s in
      let (hurt_for, s2) = read_unsigned h.hurt_duration s1 in
      let (dying_for, s3) = read_unsigned h.death_duration s2 in
      (
        record h {
          max_health = most;
          health = most;
          hurt_duration = hurt_for;
          death_duration = dying_for;
        },
        s3,
      )

  unfoldable pub read_attacker : Attacker π → Stream → Attacker π × Stream
  unfolding read_vector read_float read_unsigned
  read_attacker a s =
      let (offset, s1) = read_vector a.area_offset s in
      let (width, s2) = read_float scan a.attack_area.rect_width s1 in
      let (height, s3) = read_float scan a.attack_area.rect_height s2 in
      let (knockback, s4) = read_float scan a.knockback s3 in
      let (duration, s5) = read_unsigned a.attack_duration s4 in
      (
        record a {
          area_offset = offset;
          attack_area = record a.attack_area { rect_width = width; rect_height = height };
          knockback = knockback;
          attack_duration = duration;
        },
        s5,
      )

  -- C_Base::readIn, by the class; `none` is a number that is no constant of the enumeration.
  unfoldable pub read_part : Part π → Stream → Option (Part π)
  unfolding read_position read_movable read_collidable read_health read_attacker read_word
      read_unsigned entity_state_of
  read_part (position_part p) s = some (position_part (read_position p s).0)
  read_part (state_part old) s = elim (entity_state_of (read_unsigned 0 s).0) [
    | none ↦ none
    | some new ↦ some (state_part new)
  ]
  read_part (movable_part m) s = elim (read_movable m s) [
    | none ↦ none
    | some new ↦ some (movable_part new.0)
  ]
  read_part controller_part s = some controller_part
  read_part (collidable_part c) s = elim (read_collidable c s) [
    | none ↦ none
    | some new ↦ some (collidable_part new.0)
  ]
  read_part (client_part c) s = some (client_part c)
  read_part (health_part h) s = some (health_part (read_health h s).0)
  read_part (name_part n) s = some (name_part (read_word n s).0)
  read_part (attacker_part a) s = some (attacker_part (read_attacker a s).0)

-- What a reader comes to: its result, the exception std::out_of_range, or a number that no constant of
-- an enumeration has.
pub data Loading {ℓ} (A : Type ℓ) : Type ℓ where
  loaded : A → Loading A
  out_of_range : Loading A
  no_enumerator : Loading A

-- The state of the loop over the lines: the entity, if it is there yet, and the world; `gives_up` is
-- the return from the loop.
pub data Progress (π : Platform) : Type 0 where
  goes_on : ℤ → World π → Progress π
  gives_up : World π → Progress π
  fails : Progress π

-- `line[0] == '|'`
abbrev pub is_comment : Text → Bool
is_comment [] = false
is_comment (c ∷ t) = c == b'|'

module _ {π : Platform} (scan : FloatScan π.Float) (junk : Junk) where
  -- A line `Attributes`
  unfoldable pub read_attributes : ℤ → Stream → World π → Progress π
  unfolding read_unsigned add_entity
  read_attributes entity_id s w =
      if not (eq_ℤ entity_id null_id)
      then goes_on entity_id w
      else (let (mask, rest) = read_unsigned 0 s in
          let (v, added) = add_entity junk mask null_id w in
          if eq_ℤ added null_id then gives_up v else goes_on added v)

  -- A line `Component`
  unfoldable pub read_component : ℤ → Stream → World π → Progress π
  unfolding read_unsigned get_component read_part set_part
  read_component entity_id s w =
      let (cid, rest) = read_unsigned 0 s in
      if eq_ℤ entity_id null_id then goes_on entity_id w else elim (get_component w entity_id cid) [
        | none ↦ goes_on entity_id w
        | some comp ↦ elim (read_part scan comp rest) [
          | none ↦ fails
          | some new ↦ goes_on entity_id (set_part entity_id new w)
        ]
      ]

  unfoldable pub read_entity_line : Text → ℤ → World π → Progress π
  unfolding read_word read_attributes read_component
  read_entity_line line entity_id w =
      let (type, s) = read_word [] (stream_of line) in
      if is_comment line
      then goes_on entity_id w
      else if eq_text type (codes "Attributes")
      then read_attributes entity_id s w
      else if eq_text type (codes "Component")
      then read_component entity_id s w
      else goes_on entity_id w

  unfoldable pub read_entity_lines : List Text → Progress π → Progress π
  unfolding read_entity_line
  read_entity_lines [] progress = progress
  read_entity_lines (line ∷ lines) (goes_on entity_id w) =
      read_entity_lines lines (read_entity_line line entity_id w)
  read_entity_lines (line ∷ lines) (gives_up w) = gives_up w
  read_entity_lines (line ∷ lines) fails = fails

  -- `m_entities.at(entityId).m_type = l_entityFile`
  unfoldable pub name_entity : Text → ℤ → World π → Loading (World π × ℤ)
  name_entity l_entity_file entity_id w = elim (lookup entity_id w.entities) [
    | none ↦ out_of_range
    | some d ↦ loaded (
      record w {
        entities = update entity_id (record d { entity_type = l_entity_file }) w.entities;
      },
      entity_id,
    )
  ]

  -- EntityManager::addEntity(const std::string&, int), which makes no use of its second argument.
  unfoldable pub add_entity_file : Files → Text → World π → Loading (World π × ℤ)
  unfolding read_entity_lines name_entity
  add_entity_file files l_entity_file w =
      elim (files (codes "media/Entities/" ++ l_entity_file ++ codes ".entity")) [
        | none ↦ loaded (w, null_id)
        | some lines ↦ elim (read_entity_lines lines (goes_on null_id w)) [
          | goes_on entity_id v ↦ name_entity l_entity_file entity_id v
          | gives_up v ↦ loaded (v, null_id)
          | fails ↦ no_enumerator
        ]
      ]
