-- ===== src/Base/DictLaws.antt =====
-- What the changes of an association list keep.
use mathlib.Core.Path.{◌≡◌}
use mathlib.Core.Logic.{inl, inr}
use mathlib.Core.Bool.{false}
use mathlib.Core.Option.{some}
use mathlib.Core.List.{List, [], ◌∷◌, ◌++◌}
use native.Mathlib.Omega.{arith}
use sfrpg.Base.Tests.{Bool-cases}
use sfrpg.Base.Int.{ℤ, eq_ℤ, eq_ℤ_iff}
use sfrpg.Base.Lists.{All}
use sfrpg.Base.Dict.{lookup, update, erase, keys, Fresh, Distinct, Each, keys-update}

pub eq_ℤ_flip : (j k : ℤ) → eq_ℤ j k ≡ false → eq_ℤ k j ≡ false
eq_ℤ_flip j k e = ground (arith, eq_ℤ_iff j k, eq_ℤ_iff k j)

module _ {ℓ} {V : Type ℓ} where
  pub Each-update {κ} :
      (P : V → Type κ) (k : ℤ) (v : V) (m : List (ℤ × V)) → Each P m → P v → Each P (update k v m)
  unfolding update
  Each-update P k v [] h p = tt
  Each-update P k v ((j, w) ∷ m) h p = elim (Bool-cases (eq_ℤ j k)) [
    | inl e ↦ rw e (p, h.1)
    | inr e ↦ rw e (h.0, Each-update P k v m h.1 p)
  ]

  pub Each-erase {κ} : (P : V → Type κ) (k : ℤ) (m : List (ℤ × V)) → Each P m → Each P (erase k m)
  unfolding erase
  Each-erase P k [] h = tt
  Each-erase P k ((j, w) ∷ m) h = elim (Bool-cases (eq_ℤ j k)) [
    | inl e ↦ rw e h.1
    | inr e ↦ rw e (h.0, Each-erase P k m h.1)
  ]

  pub Each-append {κ} :
      (P : V → Type κ) (k : ℤ) (v : V) (m : List (ℤ × V))
      → Each P m
      → P v
      → Each P (m ++ (k, v) ∷ [])
  Each-append P k v [] h p = (p, tt)
  Each-append P k v ((j, w) ∷ m) h p = (h.0, Each-append P k v m h.1 p)

  pub Each-lookup {κ} :
      (P : V → Type κ) (k : ℤ) (v : V) (m : List (ℤ × V)) → Each P m → lookup k m ≡ some v → P v
  unfolding lookup
  Each-lookup P k v [] h e = cc
  Each-lookup P k v ((j, w) ∷ m) h e = elim (Bool-cases (eq_ℤ j k)) [
    | inl hit ↦ rw (some-eq (rw hit at e)) at h.0
    | inr miss ↦ Each-lookup P k v m h.1 (rw miss at e)
  ]
    where
      some-eq : {a b : V} → some a ≡ some b → a ≡ b
      some-eq q = cc

  pub Each-map {κ μ} :
      {P : V → Type κ} {Q : V → Type μ} (f : (v : V) → P v → Q v) (m : List (ℤ × V))
      → Each P m
      → Each Q m
  Each-map f [] h = tt
  Each-map f ((j, v) ∷ m) h = (f v h.0, Each-map f m h.1)

  pub All-keys-erase {κ} :
      (P : ℤ → Type κ) (k : ℤ) (m : List (ℤ × V)) → All P (keys m) → All P (keys (erase k m))
  unfolding erase
  All-keys-erase P k [] h = tt
  All-keys-erase P k ((i, w) ∷ m) h = elim (Bool-cases (eq_ℤ i k)) [
    | inl e ↦ rw e h.1
    | inr e ↦ rw e (h.0, All-keys-erase P k m h.1)
  ]

  pub All-keys-append {κ} :
      (P : ℤ → Type κ) (k : ℤ) (v : V) (m : List (ℤ × V))
      → All P (keys m)
      → P k
      → All P (keys (m ++ (k, v) ∷ []))
  All-keys-append P k v [] h e = (e, tt)
  All-keys-append P k v ((i, w) ∷ m) h e = (h.0, All-keys-append P k v m h.1 e)

  pub Distinct-update : (k : ℤ) (v : V) (m : List (ℤ × V)) → Distinct m → Distinct (update k v m)
  unfolding update
  Distinct-update k v [] d = tt
  Distinct-update k v ((j, w) ∷ m) d = elim (Bool-cases (eq_ℤ j k)) [
    | inl e ↦ rw e d
    | inr e ↦ rw (e, keys-update k v m) (d.0, Distinct-update k v m d.1)
  ]

  pub Distinct-erase : (k : ℤ) (m : List (ℤ × V)) → Distinct m → Distinct (erase k m)
  unfolding erase
  Distinct-erase k [] d = tt
  Distinct-erase k ((j, w) ∷ m) d = elim (Bool-cases (eq_ℤ j k)) [
    | inl e ↦ rw e d.1
    | inr e ↦ rw e (All-keys-erase (λ i. eq_ℤ i j ≡ false) k m d.0, Distinct-erase k m d.1)
  ]

  pub Distinct-append :
      (k : ℤ) (v : V) (m : List (ℤ × V)) → Fresh k m → Distinct m → Distinct (m ++ (k, v) ∷ [])
  Distinct-append k v [] f d = (tt, tt)
  Distinct-append k v ((j, w) ∷ m) f d = (
    All-keys-append (λ i. eq_ℤ i j ≡ false) k v m d.0 (eq_ℤ_flip j k f.0),
    Distinct-append k v m f.1 d.1,
  )
