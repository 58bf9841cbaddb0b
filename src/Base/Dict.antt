-- ===== src/Base/Dict.antt =====
-- `std::unordered_map<int, V>` as an association list. The list's order is the iteration order, of
-- which no theorem assumes anything.
use mathlib.Core.Path.{◌≡◌, refl}
use mathlib.Core.Logic.{◌≢◌, inl, inr}
use mathlib.Core.Bool.{Bool, true, false}
use mathlib.Core.Option.{Option, none, some}
use mathlib.Core.List.{List, [], ◌∷◌, ◌++◌}
use native.Mathlib.Omega.{arith}
use sfrpg.Base.Tests.{if◌then◌else◌, Bool-cases}
use sfrpg.Base.Int.{ℤ, eq_ℤ, eq_ℤ_iff}
use sfrpg.Base.Lists.{All}

module _ {ℓ} {V : Type ℓ} where
  -- `find`
  unfoldable pub lookup : ℤ → List (ℤ × V) → Option V
  lookup k [] = none
  lookup k ((j, v) ∷ m) = if eq_ℤ j k then some v else lookup k m

  -- A write through an iterator or reference to the entry of `k`.
  unfoldable pub update : ℤ → V → List (ℤ × V) → List (ℤ × V)
  update k v [] = []
  update k v ((j, w) ∷ m) = if eq_ℤ j k then (j, v) ∷ m else (j, w) ∷ update k v m

  -- `erase`
  unfoldable pub erase : ℤ → List (ℤ × V) → List (ℤ × V)
  erase k [] = []
  erase k ((j, w) ∷ m) = if eq_ℤ j k then m else (j, w) ∷ erase k m

  abbrev pub keys : List (ℤ × V) → List ℤ
  keys [] = []
  keys ((j, v) ∷ m) = j ∷ keys m

  -- `emplace`, of which the flag says whether the key was new.
  unfoldable pub emplace : ℤ → V → List (ℤ × V) → List (ℤ × V) × Bool
  emplace k v m = elim (lookup k m) [ none ↦ (m ++ (k, v) ∷ [], true) | some w ↦ (m, false) ]

  -- No key stands twice, which `std::unordered_map` guarantees.
  abbrev pub Fresh : ℤ → List (ℤ × V) → Type 0
  Fresh k m = All (λ j. eq_ℤ j k ≡ false) (keys m)

  abbrev pub Distinct : List (ℤ × V) → Type 0
  Distinct [] = Unit
  Distinct ((j, v) ∷ m) = Fresh j m × Distinct m

  pub lookup-append_fresh :
      (k j : ℤ) (v : V) (m : List (ℤ × V))
      → lookup k m ≡ none
      → lookup j (m ++ (k, v) ∷ []) ≡ (if eq_ℤ k j then some v else lookup j m)
  unfolding lookup
  lookup-append_fresh k j v [] h = refl
  lookup-append_fresh k j v ((i, w) ∷ m) h =
      ground (arith, eq_ℤ_iff i k, eq_ℤ_iff i j, eq_ℤ_iff k j, lookup-append_fresh k j v m)

  pub lookup-update :
      (k j : ℤ) (v w : V) (m : List (ℤ × V))
      → lookup k m ≡ some w
      → lookup j (update k v m) ≡ (if eq_ℤ k j then some v else lookup j m)
  unfolding lookup update
  lookup-update k j v w [] h = ground arith
  lookup-update k j v w ((i, u) ∷ m) h =
      ground (arith, eq_ℤ_iff i k, eq_ℤ_iff i j, eq_ℤ_iff k j, lookup-update k j v w m)

  pub keys-update : (k : ℤ) (v : V) (m : List (ℤ × V)) → keys (update k v m) ≡ keys m
  unfolding update
  keys-update k v [] = refl
  keys-update k v ((j, w) ∷ m) = ground (arith, keys-update k v m)

  pub Fresh-lookup : (k : ℤ) (m : List (ℤ × V)) → Fresh k m → lookup k m ≡ none
  unfolding lookup
  Fresh-lookup k [] h = refl
  Fresh-lookup k ((j, v) ∷ m) h = ground (arith, Fresh-lookup k m h.1)

  pub lookup-Fresh : (k : ℤ) (m : List (ℤ × V)) → lookup k m ≡ none → Fresh k m
  unfolding lookup
  lookup-Fresh k [] h = tt
  lookup-Fresh k ((j, v) ∷ m) h = elim (Bool-cases (eq_ℤ j k)) [
    | inl e ↦ absurd (ground arith)
    | inr e ↦ (e, lookup-Fresh k m (ground arith))
  ]

  pub lookup-erase_ne : (k j : ℤ) (m : List (ℤ × V)) → k ≢ j → lookup j (erase k m) ≡ lookup j m
  unfolding lookup erase
  lookup-erase_ne k j [] h = refl
  lookup-erase_ne k j ((i, w) ∷ m) h =
      ground (arith, eq_ℤ_iff i k, eq_ℤ_iff i j, lookup-erase_ne k j m h)

  pub lookup-erase_self : (k : ℤ) (m : List (ℤ × V)) → Distinct m → lookup k (erase k m) ≡ none
  unfolding lookup erase
  lookup-erase_self k [] d = refl
  lookup-erase_self k ((j, w) ∷ m) d =
      ground
        (arith, eq_ℤ_iff j k, Fresh-lookup k m, Fresh-lookup j m d.0, lookup-erase_self k m d.1)

  pub emplace_new :
      (k : ℤ) (v : V) (m : List (ℤ × V))
      → lookup k m ≡ none
      → emplace k v m ≡ (m ++ (k, v) ∷ [], true)
  unfolding emplace
  emplace_new k v m e = rw (e, emplace)

  -- A predicate on every value.
  abbrev pub Each {κ} : (V → Type κ) → List (ℤ × V) → Type κ
  Each P [] = Unit
  Each P ((j, v) ∷ m) = P v × Each P m
