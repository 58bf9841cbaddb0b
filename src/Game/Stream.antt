-- ===== src/Game/Stream.antt =====
-- The extractions of std::stringstream that the program's readers use: a stream is the text that is
-- left and whether it has not failed. An extraction from a failed or an empty stream leaves the
-- variable as it was, which each function takes as `old`.
use sfrpg.Base.{
  ℕ, ◌+◌, ◌-◌, ◌*◌, ◌%◌, ◌^◌, ◌≡◌, refl, Bool, true, false, ◌&&◌, ◌||◌, ◌==◌, ltb, leb,
  if◌then◌else◌, Option, none, some, [], ◌∷◌, Text, codes, ℤ,
}

pub record Stream : Type 0 where
  pub rest : Text
  pub good : Bool

-- std::stringstream(line)
abbrev pub stream_of : Text → Stream
stream_of line = record { rest = line; good = true }

-- std::isspace in the default locale.
abbrev pub is_space : ℕ → Bool
is_space c = c == 32 || (leb 9 c && leb c 13)

abbrev pub is_digit : ℕ → Bool
is_digit c = leb b'0' c && leb c b'9'

unfoldable pub skip_spaces : Text → Text
skip_spaces [] = []
skip_spaces (c ∷ t) = let more = skip_spaces t in if is_space c then more else c ∷ t

-- The characters before the first space, and what follows them.
unfoldable pub split_word : Text → Text × Text
split_word [] = ([], [])
split_word (c ∷ t) =
    let more = split_word t in if is_space c then ([], c ∷ t) else (c ∷ more.0, more.1)

-- The value of the digits at the front, if there are any, and what follows them.
unfoldable pub split_digits : Option ℕ → Text → Option ℕ × Text
split_digits value [] = (value, [])
split_digits value (c ∷ t) =
    let before : ℕ = elim value [ none ↦ 0 | some n ↦ n ] in
    let more = split_digits (some (before * 10 + (c - b'0'))) t in
    if is_digit c then more else (value, c ∷ t)

abbrev pub is_minus : Text → Bool
is_minus [] = false
is_minus (c ∷ t) = c == b'-'

abbrev pub after_sign : Text → Text
after_sign [] = []
after_sign (c ∷ t) = if c == b'-' || c == b'+' then t else c ∷ t

-- What an extraction makes of a stream on which something other than spaces is left.
unfoldable pub extract {ℓ} : {A : Type ℓ} → (Text → (A × Bool) × Text) → A → Stream → A × Stream
unfolding skip_spaces
extract convert old s =
    if s.good
    then elim (skip_spaces s.rest) [
      | [] ↦ (old, record { rest = []; good = false })
      | c ∷ t ↦
          let (value, rest) = convert (c ∷ t) in (value.0, record { rest = rest; good = value.1 })
    ]
    else (old, s)

-- `>>` into a std::string
unfoldable pub read_word : Text → Stream → Text × Stream
unfolding extract split_word
read_word old s = extract (λ t. let (word, rest) = split_word t in ((word, true), rest)) old s

-- The number that is written, negated modulo 2 ^ 32 after a minus sign. No digits give 0, and too
-- large a number the largest; both fail.
unfoldable pub to_unsigned : (minus : Bool) → Option ℕ → ℕ × Bool
to_unsigned minus none = (0, false)
to_unsigned minus (some n) =
    if ltb n (2 ^ 32)
    then (if minus then (2 ^ 32 - n) % 2 ^ 32 else n, true)
    else (2 ^ 32 - 1, false)

-- `>>` into an unsigned int
unfoldable pub read_unsigned : ℕ → Stream → ℕ × Stream
unfolding extract split_digits to_unsigned
read_unsigned old s =
    extract
      (λ t.
        let (number, rest) = split_digits none (after_sign t) in
        (to_unsigned (is_minus t) number, rest))
      old s

-- The long that is written, as a bool: another number than 0 and 1 is true, and fails.
unfoldable pub to_bool : (minus : Bool) → Option ℕ → Bool × Bool
to_bool minus none = (false, false)
to_bool minus (some n) =
    if n == 0 then (false, true) else if minus then (true, false) else (true, n == 1)

-- `>>` into a bool
unfoldable pub read_bool : Bool → Stream → Bool × Stream
unfolding extract split_digits to_bool
read_bool old s =
    extract
      (λ t.
        let (number, rest) = split_digits none (after_sign t) in
        (to_bool (is_minus t) number, rest))
      old s

-- The int that is written, or the nearest one, which fails.
unfoldable pub to_signed : (minus : Bool) → Option ℕ → ℤ × Bool
to_signed minus none = (ℤ.pos 0, false)
to_signed minus (some n) =
    if minus
    then if n == 0
      then (ℤ.pos 0, true)
      else if leb n (2 ^ 31)
      then (ℤ.negsuc (n - 1), true)
      else (ℤ.negsuc (2 ^ 31 - 1), false)
    else if ltb n (2 ^ 31)
    then (ℤ.pos n, true)
    else (ℤ.pos (2 ^ 31 - 1), false)

-- `>>` into an int
unfoldable pub read_signed : ℤ → Stream → ℤ × Stream
unfolding extract split_digits to_signed
read_signed old s =
    extract
      (λ t.
        let (number, rest) = split_digits none (after_sign t) in
        (to_signed (is_minus t) number, rest))
      old s

-- The float at the front of a text that is not empty and starts with no space, whether there is one,
-- and what follows it.
abbrev pub FloatScan : Type 0 → Type 0
FloatScan F = Text → (F × Bool) × Text

-- `>>` into a float
unfoldable pub read_float : {F : Type 0} → FloatScan F → F → Stream → F × Stream
unfolding extract
read_float scan old s = extract scan old s

read_example :
    let words = read_word [] (stream_of (codes " TILE 12 x")) in
    let number = read_unsigned 7 words.1 in
    let bad = read_unsigned 7 number.1 in
    let after = read_unsigned 7 bad.1 in
    (words.0 ≡ codes "TILE") × (number.0 ≡ 12) × (bad.0 ≡ 0) × (after.0 ≡ 7)
unfolding read_word read_unsigned
read_example = (refl, refl, refl, refl)
