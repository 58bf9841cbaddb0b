-- ===== src/Base/Strings.antt =====
-- std::string as the list of its bytes.
use Prim.Native.Nat.{ℕ, zero, suc, ◌+◌, ◌/◌, ◌%◌}
use Prim.Native.String.{String}
use Prim.Native.Char.{code}
use mathlib.Core.Path.{◌≡◌, refl}
use mathlib.Core.Logic.{◌↔◌}
use mathlib.Core.Bool.{Bool, true, false, ◌&&◌}
use mathlib.Core.List.{List, [], ◌∷◌}
use native.Mathlib.Omega.{arith}
use sfrpg.Base.Tests.{◌==◌, ltb, if◌then◌else◌}
use sfrpg.Base.Int.{ℤ}

abbrev pub Text : Type 0
Text = List ℕ

-- The bytes of a literal, which is ASCII in every use.
abbrev pub codes : String → Text
codes String.[] = []
codes (String.◌∷◌ c s) = code c ∷ codes s

abbrev pub eq_text : Text → Text → Bool
eq_text [] [] = true
eq_text (a ∷ s) (b ∷ t) = a == b && eq_text s t
eq_text _ _ = false

pub eq_text_iff : (s t : Text) → (eq_text s t ≡ true) ↔ (s ≡ t)
eq_text_iff [] [] = ground arith
eq_text_iff [] (b ∷ t) = ground arith
eq_text_iff (a ∷ s) [] = ground arith
eq_text_iff (a ∷ s) (b ∷ t) = ground (arith, eq_text_iff s t)

pub eq_text_refl : (s : Text) → eq_text s s ≡ true
eq_text_refl s = (eq_text_iff s s).1 refl

-- The decimal digits of a number in front of `rest`; a number has at most as many as its value and
-- one.
unfoldable pub digits_before : ℕ → ℕ → Text → Text
digits_before zero n rest = rest
digits_before (suc fuel) n rest =
    let more = digits_before fuel (n / 10) ((b'0' + n % 10) ∷ rest) in
    if ltb n 10 then (b'0' + n) ∷ rest else more

-- std::to_string, of an unsigned and of a signed number.
unfoldable pub to_string : ℕ → Text
unfolding digits_before
to_string n = digits_before (n + 1) n []

unfoldable pub to_string_ℤ : ℤ → Text
unfolding to_string
to_string_ℤ (ℤ.pos n) = to_string n
to_string_ℤ (ℤ.negsuc n) = b'-' ∷ to_string (n + 1)

to_string_example : (to_string 5000 ≡ codes "5000") × (to_string_ℤ (ℤ.negsuc 0) ≡ codes "-1")
unfolding to_string_ℤ
to_string_example = (refl, refl)
