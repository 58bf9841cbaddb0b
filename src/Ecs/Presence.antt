-- ===== src/Ecs/Presence.antt =====
-- The bits of an entity's mask against the types of its components: lemmas on both lists.
use sfrpg.Base.{
  ℕ, ◌^◌, ◌<◌, ◌≡◌, refl, sym, ◌∙◌, inl, inr, Bool, true, false, not, ◌&&◌, ◌||◌, ◌==◌, Option,
  none, some, List, [], ◌∷◌, ◌++◌, arith, Bool-cases, if_ind, subst,
}
use sfrpg.Platform.{Platform}
use sfrpg.Ecs.Bitmask.{get_bit, turn_on_bit, clear_bit}
use sfrpg.Ecs.Bitmask.Laws.{
  turn_on_bit-lt, clear_bit-lt, get_bit-turn_on_bit, get_bit-clear_bit, get_bit_none,
}
use sfrpg.Ecs.Components.{Part, Junk, new_part, get_type}
use sfrpg.Ecs.State.{EntityData}
use sfrpg.Ecs.Entities.{find_part, drop_part}

abbrev pub is_some {ℓ} : {A : Type ℓ} → Option A → Bool
is_some none = false
is_some (some a) = true

module _ {π : Platform} where
  abbrev pub has_part : ℕ → List (Part π) → Bool
  has_part t cs = is_some (find_part t cs)

  -- One component of each type.
  abbrev pub Single : List (Part π) → Type 0
  Single [] = Unit
  Single (c ∷ cs) = (has_part (get_type c) cs ≡ false) × Single cs

  pub record PartsOk (d : EntityData π) : Type 0 where
    pub small : d.bitmask < 2 ^ 32
    pub single : Single d.components
    pub bits : (i : ℕ) → i < 32 → get_bit d.bitmask i ≡ has_part i d.components

  has_part-append :
      (t : ℕ) (c : Part π) (cs : List (Part π))
      → has_part t (cs ++ c ∷ []) ≡ (has_part t cs || get_type c == t)
  unfolding find_part
  has_part-append t c [] = ground arith
  has_part-append t c (b ∷ cs) = ground (arith, has_part-append t c cs)

  Single-append :
      (c : Part π) (cs : List (Part π))
      → has_part (get_type c) cs ≡ false
      → Single cs
      → Single (cs ++ c ∷ [])
  unfolding find_part
  Single-append c [] new s = (refl, tt)
  Single-append c (b ∷ cs) new s =
      (ground (arith, has_part-append (get_type b) c cs), Single-append c cs (ground arith) s.1)

  has_part-drop_part :
      (t u : ℕ) (cs : List (Part π))
      → Single cs
      → has_part t (drop_part u cs) ≡ (not (t == u) && has_part t cs)
  unfolding find_part drop_part
  has_part-drop_part t u [] s = ground arith
  has_part-drop_part t u (c ∷ cs) s = elim (Bool-cases (get_type c == u)) [
    | inl same ↦
        let e : get_type c ≡ u = ground arith in
        let gone : has_part u cs ≡ false = subst (λ (k : ℕ). has_part k cs ≡ false) e s.0 in
        elim (Bool-cases (t == u)) [
          | inl at_u ↦
              let f : u ≡ t = ground arith in
              let none_left = subst (λ (k : ℕ). has_part k cs ≡ false) f gone in
              ground (arith, none_left)
          | inr other ↦ ground arith
        ]
    | inr other ↦ ground (arith, has_part-drop_part t u cs s.1)
  ]

  Single-drop_part : (u : ℕ) (cs : List (Part π)) → Single cs → Single (drop_part u cs)
  unfolding drop_part
  Single-drop_part u [] s = tt
  Single-drop_part u (c ∷ cs) s =
      if_ind Single (get_type c == u) (λ same. s.1)
        (λ other.
          (ground (arith, has_part-drop_part (get_type c) u cs s.1), Single-drop_part u cs s.1))

  new_part-get_type :
      (junk : Junk) (c : ℕ) (p : Part π) → new_part π junk c ≡ some p → get_type p ≡ c
  unfolding new_part get_type
  new_part-get_type junk c p e = ground arith

  pub grown-PartsOk :
      (d : EntityData π) (junk : Junk) (c : ℕ) (p : Part π)
      → c < 32
      → get_bit d.bitmask c ≡ false
      → new_part π junk c ≡ some p
      → PartsOk d
      → PartsOk
          (record d { bitmask = turn_on_bit d.bitmask c; components = d.components ++ p ∷ [] })
  grown-PartsOk d junk c p lt absent made ok =
      let type_p = new_part-get_type junk c p made in
      record {
        small = turn_on_bit-lt d.bitmask c ok.small lt;
        single =
            Single-append p d.components
              (subst (λ (k : ℕ). has_part k d.components ≡ false) (sym type_p)
                (sym (ok.bits c lt) ∙ absent))
              ok.single;
        bits = λ i l. ground (
          arith,
          get_bit-turn_on_bit d.bitmask c i ok.small lt,
          has_part-append i p d.components,
          ok.bits i l,
        );
      }

  pub shrunk-PartsOk :
      (d : EntityData π) (c : ℕ)
      → c < 32
      → PartsOk d
      → PartsOk
          (record d { bitmask = clear_bit d.bitmask c; components = drop_part c d.components })
  shrunk-PartsOk d c lt ok = record {
    small = clear_bit-lt d.bitmask c ok.small;
    single = Single-drop_part c d.components ok.single;
    bits = λ i l. ground (
      arith,
      get_bit-clear_bit d.bitmask c i ok.small lt l,
      has_part-drop_part i c d.components ok.single,
      ok.bits i l,
    );
  }

  pub bare-PartsOk : (d : EntityData π) → PartsOk (record d { bitmask = 0; components = [] })
  unfolding find_part
  bare-PartsOk d = record { small = omega arith; single = tt; bits = λ i l. get_bit_none i }
