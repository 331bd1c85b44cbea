-- ===== src/Bytes.antt =====
-- Little-endian integers of fixed width (`to_le_bytes`, `from_le_bytes`) and reads from a byte slice.
-- A byte is a number below 256. A slice index out of range panics, as in Rust.
pub mod Laws
use oxideav_avi.Base.{
  ℕ, zero, suc, ◌+◌, ◌-◌, ◌*◌, ◌/◌, ◌%◌, ◌^◌, ◌<◌, ◌≡◌, List, [], ◌∷◌, ◌++◌, arith, length, take,
  drop, Outcome, ok, panic, ◌>>=◌, ltb, if◌then◌else◌, Bool, ◌&&◌, ◌==◌,
}

abbrev pub IsByte : ℕ → Type 0
IsByte b = b < 256

abbrev pub IsU16 : ℕ → Type 0
IsU16 n = n < 2 ^ 16

abbrev pub IsU32 : ℕ → Type 0
IsU32 n = n < 2 ^ 32

abbrev pub IsU64 : ℕ → Type 0
IsU64 n = n < 2 ^ 64

abbrev pub le16 : ℕ → List ℕ
le16 n = n % 256 ∷ n / 256 % 256 ∷ []

abbrev pub le32 : ℕ → List ℕ
le32 n = n % 256 ∷ n / 256 % 256 ∷ n / 2 ^ 16 % 256 ∷ n / 2 ^ 24 % 256 ∷ []

abbrev pub le64 : ℕ → List ℕ
le64 n = le32 (n % 2 ^ 32) ++ le32 (n / 2 ^ 32)

unfoldable pub of_le16 : ℕ → ℕ → ℕ
of_le16 a b = a + b * 256

unfoldable pub of_le32 : ℕ → ℕ → ℕ → ℕ → ℕ
of_le32 a b c d = a + b * 256 + c * 2 ^ 16 + d * 2 ^ 24

-- `[u8; 4]`, a FourCC.
pub record Fourcc : Type 0 where
  pub b0 : ℕ
  pub b1 : ℕ
  pub b2 : ℕ
  pub b3 : ℕ

abbrev pub fourcc : ℕ → ℕ → ℕ → ℕ → Fourcc
fourcc a b c d = record { b0 = a; b1 = b; b2 = c; b3 = d }

abbrev pub fourcc_bytes : Fourcc → List ℕ
fourcc_bytes f = f.b0 ∷ f.b1 ∷ f.b2 ∷ f.b3 ∷ []

abbrev pub same_fourcc : Fourcc → Fourcc → Bool
same_fourcc f g = (f.b0 == g.b0) && ((f.b1 == g.b1) && ((f.b2 == g.b2) && (f.b3 == g.b3)))

pub of_le16-le16 : (n : ℕ) → IsU16 n → of_le16 (n % 256) (n / 256 % 256) ≡ n
unfolding of_le16
of_le16-le16 n h = omega arith

pub of_le32-le32 :
    (n : ℕ) → IsU32 n → of_le32 (n % 256) (n / 256 % 256) (n / 2 ^ 16 % 256) (n / 2 ^ 24 % 256) ≡ n
unfolding of_le32
of_le32-le32 n h = omega arith

-- `buf[i]`
abbrev pub byte_at : List ℕ → ℕ → Outcome ℕ
byte_at [] i = panic
byte_at (b ∷ bs) zero = ok b
byte_at (b ∷ bs) (suc i) = byte_at bs i

-- `u16::from_le_bytes([buf[i], buf[i + 1]])`
unfoldable pub u16_at : List ℕ → ℕ → Outcome ℕ
unfolding of_le16
u16_at buf i = do a ← byte_at buf i; b ← byte_at buf (i + 1); ok (of_le16 a b)

unfoldable pub u32_at : List ℕ → ℕ → Outcome ℕ
u32_at buf i = do
  a ← byte_at buf i
  b ← byte_at buf (i + 1)
  c ← byte_at buf (i + 2)
  d ← byte_at buf (i + 3)
  ok (of_le32 a b c d)

unfoldable pub u64_at : List ℕ → ℕ → Outcome ℕ
u64_at buf i = do lo ← u32_at buf i; hi ← u32_at buf (i + 4); ok (lo + hi * 2 ^ 32)

-- `&buf[i..j]`
unfoldable pub slice : List ℕ → ℕ → ℕ → Outcome (List ℕ)
slice buf i j =
    if ltb j i then panic else if ltb (length buf) j then panic else ok (take (j - i) (drop i buf))

-- `[buf[i], buf[i + 1], buf[i + 2], buf[i + 3]]`
unfoldable pub fourcc_at : List ℕ → ℕ → Outcome Fourcc
fourcc_at buf i = do
  a ← byte_at buf i
  b ← byte_at buf (i + 1)
  c ← byte_at buf (i + 2)
  d ← byte_at buf (i + 3)
  ok (fourcc a b c d)
