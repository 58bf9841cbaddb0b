-- ===== src/Sample.antt =====
-- A concrete platform on which the definitions run: addresses are numbers, times are milliseconds,
-- a packet is the list of its values, and every send succeeds.
use sfrpg.Base.{
  ℕ, refl, true, ◌==◌, ==_iff, Option, none, some, List, [], ◌∷◌, ◌++◌, Text, ℤ, ◌+ℤ◌, ◌-ℤ◌, length,
  abs_ℤ, ltb_ℤ, eq_ℤ,
}
use sfrpg.Platform.{Datum, i8, u8, i32, f32, str, Platform, PacketLaws}

abbrev take_i8 : List (Datum ℤ) → Option (ℤ × List (Datum ℤ))
take_i8 (i8 n ∷ rest) = some (n, rest)
take_i8 _ = none

abbrev take_u8 : List (Datum ℤ) → Option (ℕ × List (Datum ℤ))
take_u8 (u8 n ∷ rest) = some (n, rest)
take_u8 _ = none

abbrev take_i32 : List (Datum ℤ) → Option (ℤ × List (Datum ℤ))
take_i32 (i32 n ∷ rest) = some (n, rest)
take_i32 _ = none

abbrev take_f32 : List (Datum ℤ) → Option (ℤ × List (Datum ℤ))
take_f32 (f32 x ∷ rest) = some (x, rest)
take_f32 _ = none

abbrev take_str : List (Datum ℤ) → Option (Text × List (Datum ℤ))
take_str (str s ∷ rest) = some (s, rest)
take_str _ = none

abbrev pub sample : Platform
sample = record {
  Float = ℤ;
  of_int = λ n. n;
  f_add = ◌+ℤ◌;
  f_sub = ◌-ℤ◌;
  f_mul = λ a b. a;
  f_div = λ a b. a;
  f_neg = λ a. ℤ.pos 0 -ℤ a;
  f_abs = abs_ℤ;
  f_sqrt = λ a. a;
  f_floor = λ a. a;
  f_lt = ltb_ℤ;
  f_eq = eq_ℤ;
  IpAddress = ℕ;
  ip_eq = λ a b. a == b;
  ip_eq_iff = ==_iff;
  Time = ℤ;
  time_add = ◌+ℤ◌;
  time_sub = ◌-ℤ◌;
  milliseconds = λ n. n;
  as_milliseconds = λ n. n;
  Packet = List (Datum ℤ);
  new_packet = [];
  data_size = length;
  write = λ p d. p ++ d ∷ [];
  read_i8 = take_i8;
  read_u8 = take_u8;
  read_i32 = take_i32;
  read_f32 = take_f32;
  read_str = take_str;
  fields = λ p. p;
  delivers = λ before attempt. true;
}

pub sample-PacketLaws : PacketLaws sample
sample-PacketLaws = record {
  fields-new = refl;
  fields-write = λ p d. refl;
  read_i8_lem = λ p n rest e. (rest, rw e, refl);
  read_u8_lem = λ p n rest e. (rest, rw e, refl);
  read_i32_lem = λ p n rest e. (rest, rw e, refl);
  read_f32_lem = λ p x rest e. (rest, rw e, refl);
  read_str_lem = λ p s rest e. (rest, rw e, refl);
  read_i8_end = λ p e. rw e;
  read_str_end = λ p e. rw e;
}
