-- ===== src/RawDib/Formats.antt =====
-- Headers and formats of uncompressed video agree, and the stride of a DIB row is the least aligned.
use oxideav_avi.Base.{
  ℕ, ◌+◌, ◌*◌, ◌%◌, ◌^◌, ◌≤◌, ◌<◌, ◌≡◌, refl, Option, none, some, Outcome, ok, ◌>>=◌, Bool, arith,
  ltb, Bool-cases, Option-cases, inl, inr,
}
use oxideav_avi.Bytes.{u32_at, of_le32}
use oxideav_avi.Format.{parse_bitfields_masks}
use mathlib.Core.Path.{subst}
use oxideav_avi.RawDib.{
  rgb555_le, rgb565_le, bgr555_le, bgr565_le, bgr24, bgrx, rgbx, xrgb, xbgr, rgba, bgra, another,
  PixelFormat, RowRule, RawHeader, RawLayout, header_for, pixel_format_for, masked_16, masked_32,
  raw_layout, bytes_per_pixel,
}

-- The format and the row rule that a header stands for, with the masks read from its extra data.
abbrev pub format_of : RawHeader → Outcome (Option (PixelFormat × RowRule))
format_of h = do
  masks ← parse_bitfields_masks h.masks
  ok (pixel_format_for h.compression h.bit_count masks)

abbrev ReadsBack : PixelFormat → Option RawHeader → Type 0
ReadsBack f none = Unit
ReadsBack f (some h) = format_of h ≡ ok (some (f, h.rule))

header_for-ReadsBack : (f : PixelFormat) → ReadsBack f (header_for f)
unfolding header_for parse_bitfields_masks pixel_format_for masked_16 masked_32 u32_at of_le32
header_for-ReadsBack rgb555_le = refl
header_for-ReadsBack rgb565_le = refl
header_for-ReadsBack bgr555_le = refl
header_for-ReadsBack bgr565_le = refl
header_for-ReadsBack bgr24 = refl
header_for-ReadsBack bgrx = refl
header_for-ReadsBack rgbx = refl
header_for-ReadsBack xrgb = refl
header_for-ReadsBack xbgr = refl
header_for-ReadsBack rgba = refl
header_for-ReadsBack bgra = tt
header_for-ReadsBack (another n) = tt

-- A format that has a header is the format that is read from it, with the row rule of the header.
pub pixel_format_for-header_for :
    (f : PixelFormat) (h : RawHeader) → header_for f ≡ some h → format_of h ≡ ok (some (f, h.rule))
pixel_format_for-header_for f h e = subst (ReadsBack f) e (header_for-ReadsBack f)

-- A DIB row is at least as long as its pixels, and it is the least such multiple of four.
pub raw_layout-stride :
    (f : PixelFormat) (width height : ℕ) (top_down : Bool) (l : RawLayout)
    → raw_layout f RowRule.dib width height top_down ≡ some l
    → (l.stride % 4 ≡ 0) × (l.row_bytes ≤ l.stride) × (l.stride < l.row_bytes + 4)
unfolding raw_layout
raw_layout-stride f width height top_down l e = elim (Option-cases (bytes_per_pixel f)) [
  | inl p ↦ let g = rw (raw_layout, p) at e in ground arith
  | inr (bpp, p) ↦ elim (Bool-cases (ltb (bpp * width) (2 ^ 64))) [
    | inr q ↦ let g = rw (raw_layout, p, q) at e in ground arith
    | inl q ↦ elim (Bool-cases (ltb (bpp * width + 3) (2 ^ 64))) [
      | inr r ↦ let g = rw (raw_layout, p, q, r) at e in ground arith
      | inl r ↦ let g = rw (raw_layout, p, q, r) at e in ground arith
    ]
  ]
]
