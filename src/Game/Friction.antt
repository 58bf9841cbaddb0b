-- ===== src/Game/Friction.antt =====
-- The tile on which the loop of S_Movement::getTileFriction in server/S_Movement.cpp ends.
use sfrpg.Base.{
  ℕ, zero, suc, ◌+◌, ◌≡◌, refl, ap, sym, ◌∙◌, Option, none, some, List, [], ◌∷◌, ◌++◌, arith,
}
use sfrpg.Platform.{Platform}
use sfrpg.Game.Map.{GameMap, Tile, get_tile, highest_tile}

-- The last of the options that holds something.
abbrev pub later {ℓ} : {A : Type ℓ} → Option A → Option A → Option A
later none p = p
later (some a) p = some a

unfoldable pub last_some {ℓ} : {A : Type ℓ} → List (Option A) → Option A
last_some [] = none
last_some (o ∷ os) = later (last_some os) o

last_some-append {ℓ} :
    {A : Type ℓ} (os : List (Option A)) (o : Option A)
    → last_some (os ++ o ∷ []) ≡ later o (last_some os)
unfolding last_some
last_some-append [] none = refl
last_some-append [] (some a) = refl
last_some-append (p ∷ os) none = ap (λ q. later q p) (last_some-append os none)
last_some-append (p ∷ os) (some a) = ap (λ q. later q p) (last_some-append os (some a))

module _ {π : Platform} where
  -- The tiles of `count` layers, from `l` upwards.
  unfoldable pub layers_up : GameMap π → (x y count l : ℕ) → List (Option (Tile π))
  layers_up m x y zero l = []
  layers_up m x y (suc count) l = get_tile m x y l ∷ layers_up m x y count (suc l)

  layers_up-top :
      (m : GameMap π) (x y count l : ℕ)
      → layers_up m x y (suc count) l ≡ layers_up m x y count l ++ get_tile m x y (count + l) ∷ []
  unfolding layers_up
  layers_up-top m x y zero l = ap (λ k. get_tile m x y k ∷ []) (omega arith)
  layers_up-top m x y (suc count) l =
      ap (λ ts. get_tile m x y l ∷ ts)
        (layers_up-top m x y count (suc l)
          ∙ ap (λ k. layers_up m x y count (suc l) ++ get_tile m x y k ∷ []) (omega arith))

  -- The loop of getTileFriction, which goes down from the layer asked for, ends on the topmost tile
  -- among those of the layers from the lowest to that one, and on none where none of them has a tile.
  pub highest_tile-topmost :
      (m : GameMap π) (x y layer : ℕ)
      → highest_tile m x y layer ≡ last_some (layers_up m x y (suc layer) 0)
  unfolding highest_tile last_some layers_up
  highest_tile-topmost m x y zero = refl
  highest_tile-topmost m x y (suc layer) =
      or_lower (get_tile m x y (suc layer)) (highest_tile m x y layer)
      ∙ ap (later (get_tile m x y (suc layer))) (highest_tile-topmost m x y layer)
      ∙ sym (last_some-append (layers_up m x y (suc layer) 0) (get_tile m x y (suc layer)))
      ∙ ap (λ k. last_some (layers_up m x y (suc layer) 0 ++ get_tile m x y k ∷ [])) (omega arith)
      ∙ ap last_some (sym (layers_up-top m x y (suc layer) 0))
    where
      or_lower :
          (o lower : Option (Tile π))
          → elim o [ none ↦ lower | some tile ↦ some tile ] ≡ later o lower
      or_lower none lower = refl
      or_lower (some tile) lower = refl
