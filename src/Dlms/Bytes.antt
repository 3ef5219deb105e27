-- ===== src/Dlms/Bytes.antt =====
-- Bytes as numbers below 256, and the big-endian fields of `struct`.
use diep_lab.Base.{ℕ, ◌+◌, ◌*◌, ◌/◌, ◌%◌, ◌≡◌, List, [], ◌∷◌, arith}

-- `struct.pack(">H", n)`
abbrev pub pack_u16 : ℕ → List ℕ
pack_u16 n = n / 256 ∷ n % 256 ∷ []

abbrev pub unpack_u16 : ℕ → ℕ → ℕ
unpack_u16 hi lo = hi * 256 + lo

-- `struct.pack(">I", n)`
abbrev pub pack_u32 : ℕ → List ℕ
pack_u32 n = n / 16777216 ∷ n / 65536 % 256 ∷ n / 256 % 256 ∷ n % 256 ∷ []

abbrev pub unpack_u32 : ℕ → ℕ → ℕ → ℕ → ℕ
unpack_u32 a b c d = a * 16777216 + b * 65536 + c * 256 + d

pub u16_round : (n : ℕ) → unpack_u16 (n / 256) (n % 256) ≡ n
u16_round n = omega arith

pub u32_round : (n : ℕ) → unpack_u32 (n / 16777216) (n / 65536 % 256) (n / 256 % 256) (n % 256) ≡ n
u32_round n = omega arith
