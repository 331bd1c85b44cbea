-- ===== src/RawDib.antt =====
-- Uncompressed video, src/raw_dib.rs: the format of a bitmap header, the header of a format, the
-- layout of the rows. Of `PixelFormat` there are the formats that the file names, and all others.
pub mod Formats
pub mod Frames
pub mod Packing
use oxideav_avi.Base.{
  ℕ, ◌+◌, ◌-◌, ◌*◌, ◌%◌, ◌^◌, List, [], ◌∷◌, ◌++◌, Option, none, some, ltb, leb, ◌==◌,
  if◌then◌else◌, Bool, true, false, ◌&&◌, not,
}
use oxideav_avi.Bytes.{le32, Fourcc, fourcc, same_fourcc}

pub data PixelFormat : Type 0 where
  rgb555_le rgb565_le bgr555_le bgr565_le bgr24 bgrx rgbx xrgb xbgr rgba bgra : PixelFormat
  another : ℕ → PixelFormat

pub data RowRule : Type 0 where
  dib packed_top_down : RowRule

abbrev pub bi_rgb : Fourcc
bi_rgb = fourcc 0 0 0 0

abbrev pub bi_bitfields : Fourcc
bi_bitfields = fourcc 3 0 0 0

abbrev pub rgba_id : Fourcc
rgba_id = fourcc 0x52 0x47 0x42 0x41

-- `eq_ignore_ascii_case(b"RGBA")`
abbrev lower : ℕ → ℕ
lower b = if leb 0x41 b && leb b 0x5A then b + 0x20 else b

abbrev is_rgba : Fourcc → Bool
is_rgba c =
    same_fourcc (fourcc (lower c.b0) (lower c.b1) (lower c.b2) (lower c.b3))
      (fourcc 0x72 0x67 0x62 0x61)

abbrev same_masks : ℕ × ℕ × ℕ → ℕ × ℕ × ℕ → Bool
same_masks (a, b, c) (d, e, f) = (a == d) && ((b == e) && (c == f))

abbrev dib_format : PixelFormat → Option (PixelFormat × RowRule)
dib_format f = some (f, dib)

unfoldable pub masked_16 : Option (ℕ × ℕ × ℕ) → Option (PixelFormat × RowRule)
masked_16 none = none
masked_16 (some m) =
    if same_masks m (0x7C00, 0x03E0, 0x001F)
    then dib_format rgb555_le
    else if same_masks m (0xF800, 0x07E0, 0x001F)
    then dib_format rgb565_le
    else if same_masks m (0x001F, 0x03E0, 0x7C00)
    then dib_format bgr555_le
    else if same_masks m (0x001F, 0x07E0, 0xF800)
    then dib_format bgr565_le
    else none

unfoldable pub masked_32 : Option (ℕ × ℕ × ℕ) → Option (PixelFormat × RowRule)
masked_32 none = none
masked_32 (some m) =
    if same_masks m (0xFF0000, 0xFF00, 0xFF)
    then dib_format bgrx
    else if same_masks m (0xFF, 0xFF00, 0xFF0000)
    then dib_format rgbx
    else if same_masks m (0xFF00, 0xFF0000, 0xFF000000)
    then dib_format xrgb
    else if same_masks m (0xFF000000, 0xFF0000, 0xFF00)
    then dib_format xbgr
    else none

unfoldable pub pixel_format_for : Fourcc → ℕ → Option (ℕ × ℕ × ℕ) → Option (PixelFormat × RowRule)
pixel_format_for compression bit_count masks =
    if same_fourcc compression bi_rgb && (bit_count == 16)
    then dib_format rgb555_le
    else if same_fourcc compression bi_rgb && (bit_count == 24)
    then dib_format bgr24
    else if same_fourcc compression bi_rgb && (bit_count == 32)
    then dib_format bgrx
    else if same_fourcc compression bi_bitfields && (bit_count == 16)
    then masked_16 masks
    else if same_fourcc compression bi_bitfields && (bit_count == 32)
    then masked_32 masks
    else if is_rgba compression && (bit_count == 32)
    then some (rgba, packed_top_down)
    else none

unfoldable pub bytes_per_pixel : PixelFormat → Option ℕ
bytes_per_pixel rgb555_le = some 2
bytes_per_pixel rgb565_le = some 2
bytes_per_pixel bgr555_le = some 2
bytes_per_pixel bgr565_le = some 2
bytes_per_pixel bgr24 = some 3
bytes_per_pixel (another n) = none
bytes_per_pixel _ = some 4

pub record RawLayout : Type 0 where
  pub row_bytes : ℕ
  pub stride : ℕ
  pub rows : ℕ
  pub bottom_up : Bool

-- `checked_mul` and `checked_add` on `usize`.
abbrev checked : ℕ → Option ℕ
checked n = if ltb n (2 ^ 64) then some n else none

abbrev stride_of : RowRule → ℕ → Option ℕ
stride_of dib row_bytes = elim (checked (row_bytes + 3)) [ none ↦ none | some n ↦ some (n - n % 4) ]
stride_of packed_top_down row_bytes = some row_bytes

abbrev is_bottom_up : RowRule → Bool → Bool
is_bottom_up dib top_down = not top_down
is_bottom_up packed_top_down top_down = false

unfoldable pub raw_layout : PixelFormat → RowRule → ℕ → ℕ → Bool → Option RawLayout
raw_layout fmt rule width height top_down = elim (bytes_per_pixel fmt) [
  | none ↦ none
  | some bpp ↦ elim (checked (bpp * width)) [
    | none ↦ none
    | some row_bytes ↦ elim (stride_of rule row_bytes) [
      | none ↦ none
      | some stride ↦ some (record {
        row_bytes = row_bytes;
        stride = stride;
        rows = height;
        bottom_up = is_bottom_up rule top_down;
      })
    ]
  ]
]

unfoldable pub is_identity : RawLayout → Bool
is_identity l = not l.bottom_up && (l.stride == l.row_bytes)

pub record RawHeader : Type 0 where
  pub compression : Fourcc
  pub bit_count : ℕ
  pub masks : List ℕ
  pub rule : RowRule

abbrev mask_bytes : ℕ → ℕ → ℕ → List ℕ
mask_bytes r g b = le32 r ++ le32 g ++ le32 b

abbrev plain : ℕ → Option RawHeader
plain bits = some (record { compression = bi_rgb; bit_count = bits; masks = []; rule = dib })

abbrev masked : ℕ → List ℕ → Option RawHeader
masked bits masks =
    some (record { compression = bi_bitfields; bit_count = bits; masks = masks; rule = dib })

unfoldable pub header_for : PixelFormat → Option RawHeader
header_for rgb555_le = plain 16
header_for bgr24 = plain 24
header_for bgrx = plain 32
header_for rgb565_le = masked 16 (mask_bytes 0xF800 0x07E0 0x001F)
header_for bgr555_le = masked 16 (mask_bytes 0x001F 0x03E0 0x7C00)
header_for bgr565_le = masked 16 (mask_bytes 0x001F 0x07E0 0xF800)
header_for rgbx = masked 32 (mask_bytes 0xFF 0xFF00 0xFF0000)
header_for xrgb = masked 32 (mask_bytes 0xFF00 0xFF0000 0xFF000000)
header_for xbgr = masked 32 (mask_bytes 0xFF000000 0xFF0000 0xFF00)
header_for rgba =
    some (record { compression = rgba_id; bit_count = 32; masks = []; rule = packed_top_down })
header_for bgra = none
header_for (another n) = none
