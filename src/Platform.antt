-- ===== src/Platform.antt =====
-- What the program takes from SFML and the operating system: addresses, sf::Time, sf::Packet and
-- the sockets. Each is a parameter of the model; the laws state the documented behaviour that the
-- program relies on.
use sfrpg.Base.{ℕ, ◌≡◌, ◌↔◌, Bool, true, Option, none, some, List, [], ◌∷◌, ◌++◌, Text, ℤ}

-- One value in a packet.
pub data Datum (F : Type 0) : Type 0 where
  i8 : ℤ → Datum F
  u8 : ℕ → Datum F
  i32 : ℤ → Datum F
  f32 : F → Datum F
  str : Text → Datum F

-- One attempt to send a packet, through a TCP socket or to an address.
pub data Attempt (I P : Type 0) : Type 0 where
  tcp_send : (socket : ℕ) → P → Attempt I P
  udp_send : I → (port : ℕ) → P → Attempt I P

pub record Platform : Type 1 where
  -- The arithmetic of float.
  pub Float : Type 0
  pub of_int : ℤ → Float
  pub f_add : Float → Float → Float
  pub f_sub : Float → Float → Float
  pub f_mul : Float → Float → Float
  pub f_div : Float → Float → Float
  pub f_neg : Float → Float
  pub f_abs : Float → Float
  pub f_sqrt : Float → Float
  pub f_floor : Float → ℤ
  pub f_lt : Float → Float → Bool
  pub f_eq : Float → Float → Bool
  -- sf::IpAddress
  pub IpAddress : Type 0
  pub ip_eq : IpAddress → IpAddress → Bool
  pub ip_eq_iff : (a b : IpAddress) → (ip_eq a b ≡ true) ↔ (a ≡ b)
  -- sf::Time
  pub Time : Type 0
  pub time_add : Time → Time → Time
  pub time_sub : Time → Time → Time
  pub milliseconds : ℤ → Time
  pub as_milliseconds : Time → ℤ
  -- sf::Packet, and the values that it still holds, oldest first.
  pub Packet : Type 0
  pub new_packet : Packet
  pub data_size : Packet → ℕ
  pub write : Packet → Datum Float → Packet
  pub read_i8 : Packet → Option (ℤ × Packet)
  pub read_u8 : Packet → Option (ℕ × Packet)
  pub read_i32 : Packet → Option (ℤ × Packet)
  pub read_f32 : Packet → Option (Float × Packet)
  pub read_str : Packet → Option (Text × Packet)
  pub fields : Packet → List (Datum Float)
  -- A socket's answer to an attempt to send, given the attempts made before.
  pub delivers : List (Attempt IpAddress Packet) → Attempt IpAddress Packet → Bool

-- A packet gives its values in the order in which they were written, and nothing past its end.
pub record PacketLaws (π : Platform) : Type 0 where
  pub fields-new : π.fields π.new_packet ≡ []
  pub fields-write :
      (p : π.Packet) (d : Datum π.Float) → π.fields (π.write p d) ≡ π.fields p ++ d ∷ []
  pub read_i8_lem :
      (p : π.Packet) (n : ℤ) (rest : List (Datum π.Float))
      → π.fields p ≡ i8 n ∷ rest
      → (q : π.Packet) × (π.read_i8 p ≡ some (n, q)) × (π.fields q ≡ rest)
  pub read_u8_lem :
      (p : π.Packet) (n : ℕ) (rest : List (Datum π.Float))
      → π.fields p ≡ u8 n ∷ rest
      → (q : π.Packet) × (π.read_u8 p ≡ some (n, q)) × (π.fields q ≡ rest)
  pub read_i32_lem :
      (p : π.Packet) (n : ℤ) (rest : List (Datum π.Float))
      → π.fields p ≡ i32 n ∷ rest
      → (q : π.Packet) × (π.read_i32 p ≡ some (n, q)) × (π.fields q ≡ rest)
  pub read_f32_lem :
      (p : π.Packet) (x : π.Float) (rest : List (Datum π.Float))
      → π.fields p ≡ f32 x ∷ rest
      → (q : π.Packet) × (π.read_f32 p ≡ some (x, q)) × (π.fields q ≡ rest)
  pub read_str_lem :
      (p : π.Packet) (s : Text) (rest : List (Datum π.Float))
      → π.fields p ≡ str s ∷ rest
      → (q : π.Packet) × (π.read_str p ≡ some (s, q)) × (π.fields q ≡ rest)
  pub read_i8_end : (p : π.Packet) → π.fields p ≡ [] → π.read_i8 p ≡ none
  pub read_str_end : (p : π.Packet) → π.fields p ≡ [] → π.read_str p ≡ none
