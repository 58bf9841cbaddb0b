-- ===== src/Ecs/Bitmask/Laws.antt =====
-- What the operations of Bitmask do to each bit, and when a mask meets a requirement.
use Prim.Native.Nat.{bit_and, bit_or}
use native.Mathlib.Nat.{pow-suc}
use sfrpg.Base.{
  ℕ, zero, suc, ◌-◌, ◌/◌, ◌^◌, ◌<◌, ◌≡◌, ◌≢◌, ◌↔◌, ap, inl, inr, true, false, not, ◌&&◌, ◌||◌, ◌==◌,
  if◌then◌else◌, arith, Bool-cases,
}
use sfrpg.Ecs.Bitmask.{matches, get_bit, turn_on_bit, clear_bit}
use sfrpg.Ecs.Bitmask.Bits.{
  bit, bit-lt, bit-zero, bit-bit_and, bit-bit_or, bit-pow, bit-complement, bits_ext, bit_and_halves,
  bit_or_halves, bit_and_none,
}

bit_and-lt : (w a b : ℕ) → a < 2 ^ w → bit_and a b < 2 ^ w
bit_and-lt zero a b h =
    let none_left : bit_and a b ≡ bit_and 0 b = ap (λ (n : ℕ). bit_and n b) (omega arith) in
    omega (arith, none_left, bit_and_none b)
bit_and-lt (suc w) a b h = omega (
  arith,
  pow-suc 2 w,
  bit_and_halves a b,
  bit_and-lt w (a / 2) (b / 2) (omega (arith, pow-suc 2 w)),
)

bit_or-lt : (w a b : ℕ) → a < 2 ^ w → b < 2 ^ w → bit_or a b < 2 ^ w
bit_or-lt zero a b h l =
    let first : a ≡ 0 = omega arith in
    let second : b ≡ 0 = omega arith in
    omega (arith, ap (λ (n : ℕ). bit_or n b) first, ap (bit_or 0) second)
bit_or-lt (suc w) a b h l = omega (
  arith,
  pow-suc 2 w,
  bit_or_halves a b,
  bit_or-lt w (a / 2) (b / 2) (omega (arith, pow-suc 2 w)) (omega (arith, pow-suc 2 w)),
)

pow-lt : (w i : ℕ) → i < w → 2 ^ i < 2 ^ w
pow-lt zero i h = omega arith
pow-lt (suc w) zero h = omega (arith, pow-suc 2 w, pow-positive w)
  where
    pow-positive : (w : ℕ) → 0 < 2 ^ w
    pow-positive zero = omega arith
    pow-positive (suc w) = omega (arith, pow-suc 2 w, pow-positive w)
pow-lt (suc w) (suc i) h = omega (arith, pow-suc 2 w, pow-suc 2 i, pow-lt w i (omega arith))

pub turn_on_bit-lt : (m i : ℕ) → m < 2 ^ 32 → i < 32 → turn_on_bit m i < 2 ^ 32
unfolding turn_on_bit
turn_on_bit-lt m i h l = bit_or-lt 32 m (2 ^ i) h (pow-lt 32 i l)

pub clear_bit-lt : (m i : ℕ) → m < 2 ^ 32 → clear_bit m i < 2 ^ 32
unfolding clear_bit
clear_bit-lt m i h = bit_and-lt 32 m (2 ^ 32 - 1 - 2 ^ i) h

-- A bit is found set exactly when the digit is one.
pub get_bit_lem : (m i : ℕ) → m < 2 ^ 32 → get_bit m i ≡ (bit i m == 1)
unfolding get_bit
get_bit_lem m i h =
    let at_i = bit-bit_and i m (2 ^ i) in
    let pow_i = bit-pow i i in
    let small = bit-lt i m in
    elim (Bool-cases (bit i m == 1)) [
      | inl set ↦ elim (Bool-cases (bit_and m (2 ^ i) == 0)) [
        | inl empty ↦
            let e : bit_and m (2 ^ i) ≡ 0 = ground arith in
            absurd (ground (arith, ap (bit i) e, bit-zero i))
        | inr full ↦ ground arith
      ]
      | inr unset ↦
          let empty : bit_and m (2 ^ i) ≡ 0 =
            bits_ext 32 (bit_and m (2 ^ i)) 0 (bit_and-lt 32 m (2 ^ i) h) (omega arith) (λ j l.
              ground (arith, bit-bit_and j m (2 ^ i), bit-pow j i, bit-zero j, bit-lt j m)) in
          ground arith
    ]

pub bit-turn_on_bit : (m i j : ℕ) → bit j (turn_on_bit m i) ≡ (if j == i then 1 else bit j m)
unfolding turn_on_bit
bit-turn_on_bit m i j = ground (arith, bit-bit_or j m (2 ^ i), bit-pow j i, bit-lt j m)

pub bit-clear_bit :
    (m i j : ℕ) → i < 32 → j < 32 → bit j (clear_bit m i) ≡ (if j == i then 0 else bit j m)
unfolding clear_bit
bit-clear_bit m i j h l = ground (
  arith,
  bit-bit_and j m (2 ^ 32 - 1 - 2 ^ i),
  bit-complement 32 j (2 ^ i) l (pow-lt 32 i h),
  bit-pow j i,
  bit-lt j m,
)

bit_and_self : (m : ℕ) → m < 2 ^ 32 → bit_and m m ≡ m
bit_and_self m h =
    bits_ext 32 (bit_and m m) m (bit_and-lt 32 m m h) h (λ j l. omega (arith, bit-bit_and j m m))

-- The requirement `b` as matches tests it.
matches_self : (b l : ℕ) → b < 2 ^ 32 → b ≢ 0 → matches b l b ≡ (bit_and l b == b)
unfolding matches
matches_self b l h some_bit = ground (arith, bit_and_self b h)

-- A requirement that asks for something is met by a mask exactly when every bit of the requirement is
-- set in the mask.
pub matches_iff :
    (b l : ℕ)
    → b < 2 ^ 32
    → l < 2 ^ 32
    → b ≢ 0
    → (matches b l b ≡ true) ↔ ((i : ℕ) → i < 32 → get_bit b i ≡ true → get_bit l i ≡ true)
matches_iff b l h k some_bit = (
  λ met i small asked.
      let e : bit_and l b ≡ b = ground (arith, matches_self b l h some_bit) in
      ground
        (arith, get_bit_lem b i h, get_bit_lem l i k, bit-bit_and i l b, ap (bit i) e, bit-lt i l),
  λ all_set.
      let e : bit_and l b ≡ b = bits_ext 32 (bit_and l b) b (bit_and-lt 32 l b k) h (λ j small.
        ground (
          arith,
          all_set j small,
          get_bit_lem b j h,
          get_bit_lem l j k,
          bit-bit_and j l b,
          bit-lt j l,
          bit-lt j b,
        )) in
      ground (arith, matches_self b l h some_bit),
)

-- No requirement that asks for something is met by the empty mask.
pub matches_empty : (b : ℕ) → b < 2 ^ 32 → b ≢ 0 → matches b 0 b ≡ false
matches_empty b h some_bit = ground (arith, matches_self b 0 h some_bit, bit_and_none b)

pub get_bit-turn_on_bit :
    (m i j : ℕ) → m < 2 ^ 32 → i < 32 → get_bit (turn_on_bit m i) j ≡ ((j == i) || get_bit m j)
get_bit-turn_on_bit m i j h l = ground (
  arith,
  get_bit_lem (turn_on_bit m i) j (turn_on_bit-lt m i h l),
  bit-turn_on_bit m i j,
  get_bit_lem m j h,
)

pub get_bit-clear_bit :
    (m i j : ℕ)
    → m < 2 ^ 32
    → i < 32
    → j < 32
    → get_bit (clear_bit m i) j ≡ (not (j == i) && get_bit m j)
get_bit-clear_bit m i j h l k = ground (
  arith,
  get_bit_lem (clear_bit m i) j (clear_bit-lt m i h),
  bit-clear_bit m i j l k,
  get_bit_lem m j h,
)

pub get_bit_none : (j : ℕ) → get_bit 0 j ≡ false
get_bit_none j = ground (arith, get_bit_lem 0 j (omega arith), bit-zero j)
