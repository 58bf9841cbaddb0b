-- ===== src/Ecs/Bitmask.antt =====
-- common/Bitmask.h, with a Bitset as a number below 2 ^ 32. Positions are below 32 in every use.
pub mod Bits
pub mod Laws
use Prim.Native.Nat.{bit_and, bit_or, bit_xor}
use sfrpg.Base.{ℕ, ◌-◌, ◌^◌, Bool, not, ◌==◌, if◌then◌else◌}

-- matches(const Bitmask& l_bits, const Bitset& l_relevant)
unfoldable pub matches : ℕ → ℕ → ℕ → Bool
matches bits l_bits l_relevant =
    if not (l_relevant == 0)
    then bit_and l_bits l_relevant == bit_and bits l_relevant
    else l_bits == bits

unfoldable pub get_bit : ℕ → ℕ → Bool
get_bit bits l_pos = not (bit_and bits (2 ^ l_pos) == 0)

unfoldable pub turn_on_bit : ℕ → ℕ → ℕ
turn_on_bit bits l_pos = bit_or bits (2 ^ l_pos)

unfoldable pub turn_on_bits : ℕ → ℕ → ℕ
turn_on_bits bits l_bits = bit_or bits l_bits

-- `~(1 << l_pos)` in 32 bits.
unfoldable pub clear_bit : ℕ → ℕ → ℕ
clear_bit bits l_pos = bit_and bits (2 ^ 32 - 1 - 2 ^ l_pos)

unfoldable pub toggle_bit : ℕ → ℕ → ℕ
toggle_bit bits l_pos = bit_xor bits (2 ^ l_pos)
