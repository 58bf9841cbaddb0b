-- ===== src/Game/Ranges.antt =====
-- The numbers over which the loops of S_Collision::mapCollisions in server/S_Collision.cpp run.
use sfrpg.Base.{
  ℕ, zero, suc, ◌+◌, ◌≡◌, ◌∙◌, ◌&&◌, List, ℤ, ◌+ℤ◌, ◌-ℤ◌, eq_ℤ_iff, leb_ℤ, ltb_ℤ, pos_part, arith,
  if_ind,
}
use sfrpg.Ecs.Systems.{holds}
use sfrpg.Game.Collision.{count_up, range}

holds-count_up :
    (j : ℤ) (n : ℕ) (from : ℤ)
    → holds j (count_up n from) ≡ (leb_ℤ from j && ltb_ℤ j (from +ℤ ℤ.pos n))
unfolding count_up holds ◌+ℤ◌
holds-count_up j zero from = ground arith
holds-count_up j (suc n) from =
    ground (arith, eq_ℤ_iff from j, holds-count_up j n (from +ℤ ℤ.pos 1))

-- A loop from `from` to `to` runs over the numbers between the two, themselves included.
pub holds-range : (j from to : ℤ) → holds j (range from to) ≡ (leb_ℤ from j && leb_ℤ j to)
unfolding range holds ◌+ℤ◌ ◌-ℤ◌
holds-range j from to =
    if_ind (λ (ns : List ℤ). holds j ns ≡ (leb_ℤ from j && leb_ℤ j to)) (leb_ℤ from to)
      (λ e. holds-count_up j (pos_part (to -ℤ from) + 1) from ∙ ground (arith, e))
      (λ e. ground (arith, e))
