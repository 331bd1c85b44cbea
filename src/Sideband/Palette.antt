-- ===== src/Sideband/Palette.antt =====
-- `PaletteChange`: bytes and fields convert back and forth.
use oxideav_avi.Base.{
  none, false, inl, inr, ltb, le→ltb, Bool-cases, ℕ, ◌%◌, ◌≤◌, ◌≡◌, refl, List, [], ◌∷◌, some, ok,
  length, arith, All, ◌↔◌, ◌==◌, ap, true, ◌*◌,
}
use oxideav_avi.Bytes.{IsByte, IsU16, u16_at, of_le16, of_le16-le16}
use oxideav_avi.Bytes.Laws.{Returns, le16-of_le16}
use oxideav_avi.Sideband.{
  PaletteEntry, PaletteChange, parse_quads, parse_palette, quads_to_bytes, palette_to_bytes,
}

parse_quads-quads_to_bytes : (es : List PaletteEntry) → parse_quads (quads_to_bytes es) ≡ es
unfolding parse_quads quads_to_bytes
parse_quads-quads_to_bytes [] = refl
parse_quads-quads_to_bytes (e ∷ es) = ap (λ t. e ∷ t) (parse_quads-quads_to_bytes es)

quads_to_bytes-parse_quads :
    (bs : List ℕ) → length bs % 4 ≡ 0 → quads_to_bytes (parse_quads bs) ≡ bs
unfolding parse_quads quads_to_bytes
quads_to_bytes-parse_quads (r ∷ g ∷ b ∷ f ∷ rest) h =
    ap (λ t. r ∷ g ∷ b ∷ f ∷ t) (quads_to_bytes-parse_quads rest (omega arith))
quads_to_bytes-parse_quads (r ∷ g ∷ b ∷ []) h = absurd (omega arith)
quads_to_bytes-parse_quads (r ∷ g ∷ []) h = absurd (omega arith)
quads_to_bytes-parse_quads (r ∷ []) h = absurd (omega arith)
quads_to_bytes-parse_quads [] h = refl

pub length-quads_to_bytes : (es : List PaletteEntry) → length (quads_to_bytes es) ≡ 4 * length es
unfolding quads_to_bytes
length-quads_to_bytes [] = omega arith
length-quads_to_bytes (e ∷ es) = omega (arith, length-quads_to_bytes es)

-- Parsing what `to_bytes` wrote gives the palette change back; its flags must be a `u16`.
pub parse_palette-palette_to_bytes :
    (p : PaletteChange) → IsU16 p.flags → parse_palette (palette_to_bytes p) ≡ ok (some p)
unfolding parse_palette palette_to_bytes u16_at
parse_palette-palette_to_bytes p h =
    let whole : (length (quads_to_bytes p.entries) % 4 == 0) ≡ true =
      rw (length-quads_to_bytes p.entries) (ground arith) in
    rw (of_le16-le16 p.flags h, parse_quads-quads_to_bytes p.entries, whole) (ground arith)

-- A body of bytes that parses is what `to_bytes` writes for the palette change that it gives.
pub palette_to_bytes-parse_palette :
    (body : List ℕ) (p : PaletteChange)
    → All IsByte body
    → parse_palette body ≡ ok (some p)
    → palette_to_bytes p ≡ body
unfolding parse_palette palette_to_bytes u16_at
palette_to_bytes-parse_palette (a ∷ b ∷ c ∷ d ∷ rest) p v e =
    ground (arith, le16-of_le16 c d, quads_to_bytes-parse_quads rest)
palette_to_bytes-parse_palette (a ∷ b ∷ c ∷ []) p v e = ground arith
palette_to_bytes-parse_palette (a ∷ b ∷ []) p v e = ground arith
palette_to_bytes-parse_palette (a ∷ []) p v e = ground arith
palette_to_bytes-parse_palette [] p v e = ground arith

pub parse_palette-Returns : (body : List ℕ) → Returns (parse_palette body)
unfolding parse_palette u16_at
parse_palette-Returns (a ∷ b ∷ c ∷ d ∷ rest) =
    let long : ltb (length (a ∷ b ∷ c ∷ d ∷ rest)) 4 ≡ false =
      le→ltb (length (a ∷ b ∷ c ∷ d ∷ rest)) 4 (omega arith) in
    elim (Bool-cases (length rest % 4 == 0)) [
      | inl q ↦ (
        some (record {
          first_entry = a;
          num_entries = b;
          flags = of_le16 c d;
          entries = parse_quads rest;
        }),
        rw (long, q) refl,
      )
      | inr q ↦ (none, rw (long, q) refl)
    ]
parse_palette-Returns (a ∷ b ∷ c ∷ []) = (none, refl)
parse_palette-Returns (a ∷ b ∷ []) = (none, refl)
parse_palette-Returns (a ∷ []) = (none, refl)
parse_palette-Returns [] = (none, refl)

parses_iff :
    (body : List ℕ)
    → ((p : PaletteChange) × (parse_palette body ≡ ok (some p)))
      ↔ ((4 ≤ length body) × (length body % 4 ≡ 0))
unfolding parse_palette u16_at
parses_iff (a ∷ b ∷ c ∷ d ∷ rest) = (
  λ w. ground arith,
  λ h. (
    record { first_entry = a; num_entries = b; flags = of_le16 c d; entries = parse_quads rest },
    ground arith,
  ),
)
parses_iff (a ∷ b ∷ c ∷ []) = (λ w. ground arith, λ h. absurd (omega arith))
parses_iff (a ∷ b ∷ []) = (λ w. ground arith, λ h. absurd (omega arith))
parses_iff (a ∷ []) = (λ w. ground arith, λ h. absurd (omega arith))
parses_iff [] = (λ w. ground arith, λ h. absurd (omega arith))

-- The parser returns on any body, so that no body makes it panic; the bodies that parse are those of
-- four bytes and more whose tail is made of whole entries.
pub parse_palette_iff :
    (body : List ℕ)
    → Returns (parse_palette body)
      × (((p : PaletteChange) × (parse_palette body ≡ ok (some p)))
          ↔ ((4 ≤ length body) × (length body % 4 ≡ 0)))
parse_palette_iff body = (parse_palette-Returns body, parses_iff body)
