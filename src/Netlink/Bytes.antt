-- ===== src/Netlink/Bytes.antt =====
-- The formats of `struct` that the client uses. The machine is little-endian, which "=" follows;
-- "!" is big-endian. A number is packed modulo the width of its format.
use remnanode_xhttp_cleaner.Base.{
  ℕ, ◌+◌, ◌*◌, ◌/◌, ◌%◌, ◌^◌, ◌≡◌, ◌<◌, List, [], ◌∷◌, ◌++◌, arith, All, length,
}

abbrev pub Bytes : Type 0
Bytes = List ℕ

-- `(length + 3) & ~3`
unfoldable pub align4 : ℕ → ℕ
align4 n = (n + 3) / 4 * 4

-- `struct.unpack("=H", …)` and `"=I"` of the first bytes. The callers test the length before.
unfoldable pub u16 : Bytes → ℕ
u16 (a ∷ b ∷ _) = a + b * 2 ^ 8
u16 _ = 0

unfoldable pub u32 : Bytes → ℕ
u32 (a ∷ b ∷ c ∷ d ∷ _) = a + b * 2 ^ 8 + c * 2 ^ 16 + d * 2 ^ 24
u32 _ = 0

-- `"!H"`
unfoldable pub u16_big : Bytes → ℕ
u16_big (a ∷ b ∷ _) = a * 2 ^ 8 + b
u16_big _ = 0

unfoldable pub u8 : Bytes → ℕ
u8 (a ∷ _) = a
u8 _ = 0

unfoldable pub pack16 : ℕ → Bytes
pack16 n = n % 2 ^ 8 ∷ n / 2 ^ 8 % 2 ^ 8 ∷ []

unfoldable pub pack16_big : ℕ → Bytes
pack16_big n = n / 2 ^ 8 % 2 ^ 8 ∷ n % 2 ^ 8 ∷ []

unfoldable pub pack32 : ℕ → Bytes
pack32 n = n % 2 ^ 8 ∷ n / 2 ^ 8 % 2 ^ 8 ∷ n / 2 ^ 16 % 2 ^ 8 ∷ n / 2 ^ 24 % 2 ^ 8 ∷ []

module _ (n : ℕ) (rest : Bytes) where
  pub u16-pack16 : n < 2 ^ 16 → u16 (pack16 n ++ rest) ≡ n
  unfolding u16 pack16
  u16-pack16 h = omega arith

  pub u16_big-pack16_big : n < 2 ^ 16 → u16_big (pack16_big n ++ rest) ≡ n
  unfolding u16_big pack16_big
  u16_big-pack16_big h = omega arith

  pub u32-pack32 : n < 2 ^ 32 → u32 (pack32 n ++ rest) ≡ n
  unfolding u32 pack32
  u32-pack32 h = omega arith

pub u32-lt : (bytes : Bytes) → All (λ b. b < 2 ^ 8) bytes → u32 bytes < 2 ^ 32
unfolding u32
u32-lt (a ∷ b ∷ c ∷ d ∷ rest) h = omega arith
u32-lt (a ∷ b ∷ c ∷ []) h = omega arith
u32-lt (a ∷ b ∷ []) h = omega arith
u32-lt (a ∷ []) h = omega arith
u32-lt [] h = omega arith

pub length-pack32 : (n : ℕ) (rest : Bytes) → length (pack32 n ++ rest) ≡ 4 + length rest
unfolding pack32
length-pack32 n rest = omega arith
