-- ===== src/Ecs/Furnish.antt =====
-- Lemmas on the loop over the component types in addEntity.
use sfrpg.Base.{
  ℕ, zero, suc, ◌+◌, ◌^◌, ◌<◌, ◌≡◌, ◌↔◌, sym, ap, ◌∙◌, inl, inr, Bool, true, false, ◌&&◌, ◌||◌,
  ◌==◌, ltb, if◌then◌else◌, none, some, [], ◌∷◌, ◌++◌, ℤ, eq_ℤ_refl, arith, Bool-cases, if_ind,
  option_ind, subst, lookup, lookup-update,
}
use sfrpg.Platform.{Platform}
use sfrpg.Ecs.Bitmask.{get_bit, turn_on_bit}
use sfrpg.Ecs.Bitmask.Laws.{turn_on_bit-lt, get_bit-turn_on_bit}
use sfrpg.Ecs.Components.{Junk, new_part, is_registered}
use sfrpg.Ecs.State.{EntityData, World}
use sfrpg.Ecs.Systems.{entity_modified}
use sfrpg.Ecs.Entities.{attach, add_component, add_components}
use sfrpg.Ecs.Membership.{WorldOk, add_component-WorldOk}

-- The bits below `suc i` are those below `i` with the one at `i`.
one_more :
    (l_bits m n i : ℕ) (b : Bool)
    → ((j : ℕ) → j < 32 → get_bit m j ≡ (ltb j i && (get_bit l_bits j && is_registered j)))
    → ((j : ℕ) → j < 32 → get_bit n j ≡ (((j == i) && b) || get_bit m j))
    → b ≡ (get_bit l_bits i && is_registered i)
    → (j : ℕ) → j < 32
    → get_bit n j ≡ (ltb j (suc i) && (get_bit l_bits j && is_registered j))
one_more l_bits m n i b before after at_i j l = elim (Bool-cases (j == i)) [
  | inl same ↦
      let e : j ≡ i = ground arith in
      ground (arith, before j l, after j l, at_i, ap (get_bit l_bits) e, ap is_registered e)
  | inr other ↦ ground (arith, before j l, after j l)
]

module _ {π : Platform} where
  new_part-is_registered :
      (junk : Junk) (c : ℕ) → ((new_part π junk c ≡ none) ↔ (is_registered c ≡ false))
  unfolding new_part
  new_part-is_registered junk c = ground arith

  -- The entity `id` after the component types below `i`.
  pub record Furnished (id : ℤ) (l_bits i : ℕ) (w : World π) : Type 0 where
    pub made : EntityData π
    pub known : lookup id w.entities ≡ some made
    pub small : made.bitmask < 2 ^ 32
    pub bits :
        (j : ℕ)
        → j < 32
        → get_bit made.bitmask j ≡ (ltb j i && (get_bit l_bits j && is_registered j))

  -- No component for the type `i`: it is not asked for, or not known.
  skip-Furnished :
      (id : ℤ) (l_bits i : ℕ) (w : World π)
      → (get_bit l_bits i && is_registered i) ≡ false
      → Furnished id l_bits i w
      → Furnished id l_bits (suc i) w
  skip-Furnished id l_bits i w none_here f = record {
    made = f.made;
    known = f.known;
    small = f.small;
    bits =
        one_more l_bits f.made.bitmask f.made.bitmask i false f.bits (λ j l. ground arith)
          (sym none_here);
  }

  add_component-Furnished :
      (junk : Junk) (id : ℤ) (l_bits i : ℕ) (w : World π)
      → i < 32
      → get_bit l_bits i ≡ true
      → Furnished id l_bits i w
      → Furnished id l_bits (suc i) (add_component junk id i w).0
  unfolding add_component attach entity_modified
  add_component-Furnished junk id l_bits i w lt asked f =
      let P = λ (r : World π × Bool). Furnished id l_bits (suc i) r.0 in
      let absent : get_bit f.made.bitmask i ≡ false = ground (arith, f.bits i lt) in
      let part = new_part-is_registered junk i in
      rw (f.known, add_component, absent)
        (option_ind P (new_part π junk i)
          (λ unknown. skip-Furnished id l_bits i w (ground (arith, part.0 unknown)) f)
          (λ component new.
            let grown : EntityData π = record f.made {
              bitmask = turn_on_bit f.made.bitmask i;
              components = f.made.components ++ component ∷ [];
            } in
            record {
              made = grown;
              known = lookup-update id id grown f.made w.entities f.known ∙ rw (eq_ℤ_refl id);
              small = turn_on_bit-lt f.made.bitmask i f.small lt;
              bits =
                  one_more l_bits f.made.bitmask grown.bitmask i true f.bits
                    (λ j l. ground (arith, get_bit-turn_on_bit f.made.bitmask i j f.small lt))
                    (ground (arith, part.1));
            }))

  -- The loop, for the last `n` component types.
  pub add_components-Furnished :
      (junk : Junk) (id : ℤ) (l_bits n i : ℕ) (w : World π)
      → n + i ≡ 32
      → Furnished id l_bits i w
      → WorldOk w
      → Furnished id l_bits 32 (add_components junk id l_bits n i w)
        × WorldOk (add_components junk id l_bits n i w)
  unfolding add_components
  add_components-Furnished junk id l_bits zero i w e f ok =
      (subst (λ (k : ℕ). Furnished id l_bits k w) (omega arith) f, ok)
  add_components-Furnished junk id l_bits (suc n) i w e f ok =
      let next = if get_bit l_bits i then (add_component junk id i w).0 else w in
      let both =
        if_ind (λ (t : World π). Furnished id l_bits (suc i) t × WorldOk t) (get_bit l_bits i)
          {x = (add_component junk id i w).0} {y = w}
          (λ asked. (
            add_component-Furnished junk id l_bits i w (omega arith) asked f,
            add_component-WorldOk w junk id i (omega arith) ok,
          ))
          (λ unasked. (skip-Furnished id l_bits i w (ground arith) f, ok)) in
      add_components-Furnished junk id l_bits n (suc i) next (omega arith) both.0 both.1
