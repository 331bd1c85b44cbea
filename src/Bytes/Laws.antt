-- ===== src/Bytes/Laws.antt =====
-- Laws of the little-endian readers: reads inside the buffer return, reads past a prefix skip it,
-- and bytes and numbers convert back and forth.
use oxideav_avi.Base.{
  ℕ, zero, suc, ◌+◌, ◌-◌, ◌*◌, ◌/◌, ◌%◌, ◌^◌, ◌≤◌, ◌<◌, ◌≡◌, refl, List, [], ◌∷◌, ◌++◌, ap, ◌∙◌,
  arith, length, take, drop, Outcome, ok, All,
}
use oxideav_avi.Bytes.{
  IsByte, IsU32, IsU64, le16, le32, le64, of_le16, of_le32, byte_at, u16_at, u32_at, u64_at, slice,
  fourcc, fourcc_at, of_le32-le32,
}

-- The call returns a value.
abbrev pub Returns {ℓ} : {A : Type ℓ} → Outcome A → Type ℓ
Returns {A} r = (a : A) × (r ≡ ok a)

pub byte_at-Returns : (buf : List ℕ) (i : ℕ) → i < length buf → Returns (byte_at buf i)
byte_at-Returns [] i h = absurd (omega arith)
byte_at-Returns (b ∷ bs) zero h = (b, refl)
byte_at-Returns (b ∷ bs) (suc i) h = byte_at-Returns bs i (omega arith)

pub u16_at-Returns : (buf : List ℕ) (i : ℕ) → i + 2 ≤ length buf → Returns (u16_at buf i)
unfolding u16_at
u16_at-Returns buf i h =
    let (a, p) = byte_at-Returns buf i (omega arith) in
    let (b, q) = byte_at-Returns buf (i + 1) (omega arith) in (of_le16 a b, rw (p, q))

pub u32_at-Returns : (buf : List ℕ) (i : ℕ) → i + 4 ≤ length buf → Returns (u32_at buf i)
unfolding u32_at
u32_at-Returns buf i h =
    let (a, p) = byte_at-Returns buf i (omega arith) in
    let (b, q) = byte_at-Returns buf (i + 1) (omega arith) in
    let (c, r) = byte_at-Returns buf (i + 2) (omega arith) in
    let (d, s) = byte_at-Returns buf (i + 3) (omega arith) in (of_le32 a b c d, rw (p, q, r, s))

pub fourcc_at-Returns : (buf : List ℕ) (i : ℕ) → i + 4 ≤ length buf → Returns (fourcc_at buf i)
unfolding fourcc_at
fourcc_at-Returns buf i h =
    let (a, p) = byte_at-Returns buf i (omega arith) in
    let (b, q) = byte_at-Returns buf (i + 1) (omega arith) in
    let (c, r) = byte_at-Returns buf (i + 2) (omega arith) in
    let (d, s) = byte_at-Returns buf (i + 3) (omega arith) in (fourcc a b c d, rw (p, q, r, s))

pub u64_at-Returns : (buf : List ℕ) (i : ℕ) → i + 8 ≤ length buf → Returns (u64_at buf i)
unfolding u64_at
u64_at-Returns buf i h =
    let (lo, p) = u32_at-Returns buf i (omega arith) in
    let (hi, q) = u32_at-Returns buf (i + 4) (omega arith) in (lo + hi * 2 ^ 32, rw (p, q))

pub slice-eq :
    (buf : List ℕ) (i j : ℕ)
    → i ≤ j
    → j ≤ length buf
    → slice buf i j ≡ ok (take (j - i) (drop i buf))
unfolding slice
slice-eq buf i j h k = ground arith

-- A read behind a prefix of length `n`.
pub byte_at-append :
    (xs ys : List ℕ) (n k : ℕ) → length xs ≡ n → byte_at (xs ++ ys) (n + k) ≡ byte_at ys k
byte_at-append [] ys n k h = ap (byte_at ys) (omega arith)
byte_at-append (x ∷ xs) ys zero k h = absurd (omega arith)
byte_at-append (x ∷ xs) ys (suc n) k h =
    ap (byte_at (x ∷ xs ++ ys)) (let e : suc n + k ≡ suc (n + k) = omega arith in e)
    ∙ byte_at-append xs ys n k (omega arith)

pub u32_at-append :
    (xs ys : List ℕ) (n k : ℕ) → length xs ≡ n → u32_at (xs ++ ys) (n + k) ≡ u32_at ys k
unfolding u32_at
u32_at-append xs ys n k h =
    let e = λ (j : ℕ).
      ap (byte_at (xs ++ ys)) (let q : n + k + j ≡ n + (k + j) = omega arith in q)
      ∙ byte_at-append xs ys n (k + j) h in
    rw (byte_at-append xs ys n k h, e 1, e 2, e 3)

pub u64_at-append :
    (xs ys : List ℕ) (n k : ℕ) → length xs ≡ n → u64_at (xs ++ ys) (n + k) ≡ u64_at ys k
unfolding u64_at
u64_at-append xs ys n k h =
    let e : n + k + 4 ≡ n + (k + 4) = omega arith in
    rw (u32_at-append xs ys n k h, e, u32_at-append xs ys n (k + 4) h)

pub u32_at_here : (xs ys : List ℕ) (n : ℕ) → length xs ≡ n → u32_at (xs ++ ys) n ≡ u32_at ys 0
u32_at_here xs ys n h =
    ap (u32_at (xs ++ ys)) (let e : n ≡ n + 0 = omega arith in e) ∙ u32_at-append xs ys n 0 h

pub u64_at_here : (xs ys : List ℕ) (n : ℕ) → length xs ≡ n → u64_at (xs ++ ys) n ≡ u64_at ys 0
u64_at_here xs ys n h =
    ap (u64_at (xs ++ ys)) (let e : n ≡ n + 0 = omega arith in e) ∙ u64_at-append xs ys n 0 h

-- Reading at the head what was written.
pub u32_at-le32 : (n : ℕ) (ys : List ℕ) → IsU32 n → u32_at (le32 n ++ ys) 0 ≡ ok n
unfolding u32_at
u32_at-le32 n ys h = rw (of_le32-le32 n h)

pub u64_at-le64 : (n : ℕ) (ys : List ℕ) → IsU64 n → u64_at (le64 n ++ ys) 0 ≡ ok n
unfolding u64_at u32_at
u64_at-le64 n ys h =
    rw (of_le32-le32 (n % 2 ^ 32) (omega arith), of_le32-le32 (n / 2 ^ 32) (omega arith))
      (ap ok (omega arith))

-- The other way: the bytes of a number that was read are the bytes that were there.
pub le16-of_le16 : (a b : ℕ) → IsByte a → IsByte b → le16 (of_le16 a b) ≡ a ∷ b ∷ []
unfolding of_le16
le16-of_le16 a b ha hb = ground arith

pub le32-of_le32 :
    (a b c d : ℕ)
    → IsByte a
    → IsByte b
    → IsByte c
    → IsByte d
    → le32 (of_le32 a b c d) ≡ a ∷ b ∷ c ∷ d ∷ []
unfolding of_le32
le32-of_le32 a b c d ha hb hc hd = ground arith

pub le32-IsByte : (n : ℕ) → All IsByte (le32 n)
le32-IsByte n = omega arith
