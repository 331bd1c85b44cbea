-- ===== src/Sideband/Cset.antt =====
-- `CsetChunk`: bytes and fields convert back and forth.
use oxideav_avi.Base.{ℕ, ◌≡◌, List, ◌∷◌, ◌++◌, some, ok, arith, All, take}
use oxideav_avi.Bytes.{IsByte, IsU16, u16_at, of_le16-le16}
use oxideav_avi.Bytes.Laws.{le16-of_le16}
use oxideav_avi.Sideband.{CsetChunk, parse_cset, cset_to_bytes}

pub record CsetIsValid (c : CsetChunk) : Type 0 where
  pub code_page : IsU16 c.code_page
  pub country_code : IsU16 c.country_code
  pub language_code : IsU16 c.language_code
  pub dialect : IsU16 c.dialect

-- Parsing what `to_bytes` wrote gives the chunk back, whatever bytes follow; its four codes fit
-- 16 bits.
pub parse_cset-cset_to_bytes :
    (c : CsetChunk) (rest : List ℕ)
    → CsetIsValid c
    → parse_cset c.offset (cset_to_bytes c ++ rest) ≡ ok (some c)
unfolding parse_cset cset_to_bytes u16_at
parse_cset-cset_to_bytes c rest v =
    rw
      (
        of_le16-le16 c.code_page v.code_page,
        of_le16-le16 c.country_code v.country_code,
        of_le16-le16 c.language_code v.language_code,
        of_le16-le16 c.dialect v.dialect,
      )
      (ground arith)

-- A body that parses starts with the bytes of the chunk that it gives.
pub cset_to_bytes-parse_cset :
    (offset : ℕ) (body : List ℕ) (c : CsetChunk)
    → All IsByte body
    → parse_cset offset body ≡ ok (some c)
    → cset_to_bytes c ≡ take 8 body
unfolding parse_cset cset_to_bytes u16_at
cset_to_bytes-parse_cset offset (a0 ∷ a1 ∷ b0 ∷ b1 ∷ c0 ∷ c1 ∷ d0 ∷ d1 ∷ rest) c v e =
    ground (arith, le16-of_le16 a0 a1, le16-of_le16 b0 b1, le16-of_le16 c0 c1, le16-of_le16 d0 d1)
cset_to_bytes-parse_cset offset body c v e = ground arith
