-- ===== src/Prelude/Words.antt =====
-- Go's fixed-width unsigned integers: a value is a number below its modulus, and arithmetic wraps.
use Prim.Native.Nat.{ℕ, ◌+◌, ◌-◌, ◌*◌, ◌/◌, ◌%◌}

abbrev pub u8_mod : ℕ
u8_mod = 256

abbrev pub u16_mod : ℕ
u16_mod = 65536

abbrev pub u32_mod : ℕ
u32_mod = 4294967296

-- `a + b` and `a - b` on uint16; the arguments are below the modulus.
abbrev pub add16 : ℕ → ℕ → ℕ
add16 a b = (a + b) % 65536

abbrev pub sub16 : ℕ → ℕ → ℕ
sub16 a b = (a + 65536 - b) % 65536

abbrev pub add32 : ℕ → ℕ → ℕ
add32 a b = (a + b) % 4294967296

abbrev pub sub32 : ℕ → ℕ → ℕ
sub32 a b = (a + 4294967296 - b) % 4294967296

abbrev pub add8 : ℕ → ℕ → ℕ
add8 a b = (a + b) % 256

abbrev pub sub8 : ℕ → ℕ → ℕ
sub8 a b = (a + 256 - b) % 256

-- The conversion `uint16(x)`.
abbrev pub low16 : ℕ → ℕ
low16 x = x % 65536

-- `binary.BigEndian`: the two bytes of a uint16, and the uint16 of two bytes.
abbrev pub hi_byte : ℕ → ℕ
hi_byte x = x / 256 % 256

abbrev pub lo_byte : ℕ → ℕ
lo_byte x = x % 256

abbrev pub be16 : ℕ → ℕ → ℕ
be16 hi lo = hi * 256 + lo
