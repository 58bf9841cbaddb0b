-- ===== src/Game/Digits.antt =====
-- Numbers in the text of a line: what `>>` of Game.Stream reads of what std::to_string writes.
use sfrpg.Base.{
  ℕ, zero, suc, ◌+◌, ◌*◌, ◌/◌, ◌%◌, ◌^◌, ◌≤◌, ◌<◌, ◌≡◌, refl, sym, ap, ◌∙◌, Bool, true, false, ◌||◌,
  ◌==◌, ltb, Option, none, some, [], ◌∷◌, Text, arith, digits_before, if_ind, ltb→lt, lt→ltb,
}
use sfrpg.Game.Stream.{
  is_space, is_digit, is_minus, after_sign, skip_spaces, split_digits, extract, to_unsigned,
  read_unsigned, to_bool, read_bool,
}

-- A number after a space, in front of what follows.
unfoldable pub field : ℕ → Text → Text
unfolding digits_before
field n rest = 32 ∷ digits_before (n + 1) n rest

-- What follows starts with no digit.
abbrev pub Apart : Text → Type 0
Apart [] = Unit
Apart (c ∷ t) = is_digit c ≡ false

digit-is_digit : (d : ℕ) → d < 10 → is_digit (b'0' + d) ≡ true
digit-is_digit d small = ground (arith, small)

digit_read :
    (value d : ℕ) (rest : Text)
    → d < 10
    → split_digits (some value) ((b'0' + d) ∷ rest) ≡ split_digits (some (value * 10 + d)) rest
unfolding split_digits
digit_read value d rest small =
    rw (digit-is_digit d small) (ap (λ k. split_digits (some (value * 10 + k)) rest) (omega arith))

first_digit :
    (d : ℕ) (rest : Text)
    → d < 10
    → split_digits none ((b'0' + d) ∷ rest) ≡ split_digits (some d) rest
unfolding split_digits
first_digit d rest small =
    rw (digit-is_digit d small) (ap (λ k. split_digits (some k) rest) (omega arith))

split_digits-digits_before :
    (fuel n : ℕ) (rest : Text)
    → n < fuel
    → split_digits none (digits_before fuel n rest) ≡ split_digits (some n) rest
unfolding digits_before
split_digits-digits_before zero n rest lt = absurd (omega (arith, lt))
split_digits-digits_before (suc fuel) n rest lt =
    if_ind (λ (t : Text). split_digits none t ≡ split_digits (some n) rest) (ltb n 10)
      (λ small. first_digit n rest (ltb→lt n 10 small))
      (λ large.
        let many : 10 ≤ n = ground (arith, large) in
        split_digits-digits_before fuel (n / 10) ((b'0' + n % 10) ∷ rest) (omega (arith, lt, many))
        ∙ digit_read (n / 10) (n % 10) rest (omega arith)
        ∙ ap (λ k. split_digits (some k) rest) (omega arith))

-- The text of a number starts with a digit.
Starts : Text → Type 0
Starts t = (d : ℕ) × (more : Text) × (t ≡ (b'0' + d) ∷ more) × (d < 10)

digits_before-Starts : (fuel n : ℕ) (rest : Text) → n < fuel → Starts (digits_before fuel n rest)
unfolding digits_before Starts
digits_before-Starts zero n rest lt = absurd (omega (arith, lt))
digits_before-Starts (suc fuel) n rest lt =
    if_ind Starts (ltb n 10) (λ small. (n, rest, refl, ltb→lt n 10 small))
      (λ large.
        let many : 10 ≤ n = ground (arith, large) in
        digits_before-Starts fuel (n / 10) ((b'0' + n % 10) ∷ rest) (omega (arith, lt, many)))

split_digits-Apart :
    (n : ℕ) (rest : Text) → Apart rest → split_digits (some n) rest ≡ (some n, rest)
unfolding split_digits
split_digits-Apart n [] apart = refl
split_digits-Apart n (c ∷ rest) apart = rw apart refl

-- An extraction that converts the digits at the front takes the number, and leaves what follows.
extract-field {ℓ} :
    {A : Type ℓ} (make : Bool → Option ℕ → A × Bool) (old : A) (n : ℕ) (rest : Text)
    → Apart rest
    → extract
        (λ t.
          let (number, more) = split_digits none (after_sign t) in (make (is_minus t) number, more))
        old
        (record { rest = field n rest; good = true })
      ≡ ((make false (some n)).0, record { rest = rest; good = (make false (some n)).1 })
unfolding extract skip_spaces field Starts
extract-field make old n rest apart =
    let (d, more, start, small) = digits_before-Starts (n + 1) n rest (omega arith) in
    let reads : split_digits none ((b'0' + d) ∷ more) ≡ (some n, rest) =
      ap (split_digits none) (sym start)
      ∙ split_digits-digits_before (n + 1) n rest (omega arith)
      ∙ split_digits-Apart n rest apart in
    let no_space : is_space (b'0' + d) ≡ false = ground (arith, small) in
    let no_sign : ((b'0' + d) == b'-' || (b'0' + d) == b'+') ≡ false = ground (arith, small) in
    let no_minus : ((b'0' + d) == b'-') ≡ false = ground (arith, small) in
    rw (start, no_space, no_sign, no_minus, reads) refl

pub read_unsigned-field :
    (old n : ℕ) (rest : Text)
    → n < 2 ^ 32
    → Apart rest
    → read_unsigned old (record { rest = field n rest; good = true })
      ≡ (n, record { rest = rest; good = true })
unfolding read_unsigned to_unsigned
read_unsigned-field old n rest small apart =
    extract-field to_unsigned old n rest apart ∙ rw (lt→ltb n (2 ^ 32) small) refl

-- A bool is written as 1 or 0.
abbrev pub bit : Bool → ℕ
bit true = 1
bit false = 0

pub read_bool-field :
    (old b : Bool) (rest : Text)
    → Apart rest
    → read_bool old (record { rest = field (bit b) rest; good = true })
      ≡ (b, record { rest = rest; good = true })
unfolding read_bool to_bool
read_bool-field old true rest apart = extract-field to_bool old 1 rest apart
read_bool-field old false rest apart = extract-field to_bool old 0 rest apart

pub field-Apart : (n : ℕ) (rest : Text) → Apart (field n rest)
unfolding field
field-Apart n rest = refl
