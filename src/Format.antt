-- ===== src/Format.antt =====
-- The format headers of a `strf` body: src/stream_format.rs. `usize` has 64 bits.
-- An `i32` that is only carried is kept as its 32 bits.
pub mod Bitmap
pub mod Wave
pub mod Extensible
pub mod Channels
use oxideav_avi.Base.{
  ℕ, ◌+◌, ◌-◌, ◌*◌, ◌/◌, ◌%◌, ◌^◌, List, [], ◌∷◌, ◌++◌, Option, none, some, Outcome, ok, panic,
  ◌>>=◌, ◌>>◌, length, min, take, drop, leb, ltb, ◌==◌, if◌then◌else◌, invalid, guard, Bool, ◌||◌,
}
use oxideav_avi.Bytes.{le16, le32, u16_at, u32_at, Fourcc, fourcc_at, fourcc_bytes, slice}

pub record BitmapInfoHeader : Type 0 where
  pub width : ℕ
  pub height : ℕ
  pub planes : ℕ
  pub bit_count : ℕ
  pub compression : Fourcc
  pub size_image : ℕ
  pub x_pels_per_meter : ℕ
  pub y_pels_per_meter : ℕ
  pub clr_used : ℕ
  pub clr_important : ℕ
  pub extradata : List ℕ
  pub top_down : Bool

-- `i32::is_negative` and `i32::unsigned_abs` of 32 bits.
abbrev pub is_negative : ℕ → Bool
is_negative n = leb (2 ^ 31) n

abbrev pub unsigned_abs : ℕ → ℕ
unsigned_abs n = if leb (2 ^ 31) n then 2 ^ 32 - n else n

unfoldable pub parse_bitmap_info_header : List ℕ → Outcome BitmapInfoHeader
parse_bitmap_info_header buf = do
  guard (leb 40 (length buf)) invalid
  bi_size ← u32_at buf 0
  width ← u32_at buf 4
  height_signed ← u32_at buf 8
  planes ← u16_at buf 12
  bit_count ← u16_at buf 14
  compression ← fourcc_at buf 16
  size_image ← u32_at buf 20
  x_pels_per_meter ← u32_at buf 24
  y_pels_per_meter ← u32_at buf 28
  clr_used ← u32_at buf 32
  clr_important ← u32_at buf 36
  ok (record {
    width = width;
    height = unsigned_abs height_signed;
    planes = planes;
    bit_count = bit_count;
    compression = compression;
    size_image = size_image;
    x_pels_per_meter = x_pels_per_meter;
    y_pels_per_meter = y_pels_per_meter;
    clr_used = clr_used;
    clr_important = clr_important;
    extradata = drop 40 buf;
    top_down = is_negative height_signed;
  })

unfoldable pub parse_bitfields_masks : List ℕ → Outcome (Option (ℕ × ℕ × ℕ))
parse_bitfields_masks extradata =
    let masks : Outcome (Option (ℕ × ℕ × ℕ)) = (do
      r ← u32_at extradata 0
      g ← u32_at extradata 4
      b ← u32_at extradata 8
      ok (some (r, g, b))) in
    if ltb (length extradata) 12 then ok none else masks

pub record RgbQuad : Type 0 where
  pub blue : ℕ
  pub green : ℕ
  pub red : ℕ
  pub reserved : ℕ

-- `as_chunks::<4>().0`: the whole chunks, the rest dropped.
unfoldable pub color_quads : List ℕ → List RgbQuad
color_quads (b ∷ g ∷ r ∷ v ∷ rest) =
    record { blue = b; green = g; red = r; reserved = v } ∷ color_quads rest
color_quads _ = []

unfoldable pub parse_color_table : ℕ → ℕ → List ℕ → Option (List RgbQuad)
parse_color_table bit_count clr_used extradata =
    let max_entries = 2 ^ bit_count in
    let declared = if clr_used == 0 then max_entries else clr_used in
    let count = min declared (length extradata / 4 % 2 ^ 32) in
    if (bit_count == 0) || ltb 8 bit_count
    then none
    else if declared == 0
    then none
    else if count == 0
    then none
    else some (take count (color_quads extradata))

-- `-(height as i32)` if `top_down`: the negation of the least `i32` overflows.
unfoldable pub height_field : ℕ → Bool → Outcome ℕ
height_field height top_down =
    if top_down
    then (if height == 2 ^ 31 then panic else ok ((2 ^ 32 - height) % 2 ^ 32))
    else ok height

unfoldable pub bitmap_bytes : ℕ → ℕ → ℕ → ℕ → Fourcc → ℕ → List ℕ
bitmap_bytes bi_size width height bit_count compression clr_used =
    le32 bi_size
    ++ le32 width
    ++ le32 height
    ++ le16 1
    ++ le16 bit_count
    ++ fourcc_bytes compression
    ++ le32 0
    ++ le32 0
    ++ le32 0
    ++ le32 clr_used
    ++ le32 0

unfoldable pub write_bitmap_info_header_oriented :
    ℕ → ℕ → Fourcc → ℕ → List ℕ → Bool → Outcome (List ℕ)
write_bitmap_info_header_oriented width height compression bit_count extradata top_down = do
  let size = 40 + length extradata % 2 ^ 32
  bi_size ← (if ltb size (2 ^ 32) then ok size else panic)
  field ← height_field height top_down
  ok (bitmap_bytes bi_size width field bit_count compression 0 ++ extradata)

abbrev pub no_compression : Fourcc
no_compression = record { b0 = 0; b1 = 0; b2 = 0; b3 = 0 }

unfoldable pub color_bytes : List RgbQuad → List ℕ
color_bytes [] = []
color_bytes (q ∷ qs) = q.blue ∷ q.green ∷ q.red ∷ q.reserved ∷ color_bytes qs

unfoldable pub write_indexed_bitmap_info_header : ℕ → ℕ → ℕ → List RgbQuad → List ℕ
write_indexed_bitmap_info_header width height bit_count palette =
    bitmap_bytes 40 width height bit_count no_compression (length palette % 2 ^ 32)
    ++ color_bytes palette

pub record WaveFormatEx : Type 0 where
  pub format_tag : ℕ
  pub channels : ℕ
  pub samples_per_sec : ℕ
  pub avg_bytes_per_sec : ℕ
  pub block_align : ℕ
  pub bits_per_sample : ℕ
  pub extradata : List ℕ

-- `cbSize` bytes from byte 18 on, or all that there are.
unfoldable pub wave_extradata : List ℕ → Outcome (List ℕ)
wave_extradata buf =
    let rest = (do
      cb_size ← u16_at buf 16
      if leb (18 + cb_size) (length buf)
          then slice buf 18 (18 + cb_size)
          else slice buf 18 (length buf)) in
    if leb 18 (length buf) then rest else ok []

unfoldable pub parse_waveformatex : List ℕ → Outcome WaveFormatEx
parse_waveformatex buf = do
  guard (leb 14 (length buf)) invalid
  format_tag ← u16_at buf 0
  channels ← u16_at buf 2
  samples_per_sec ← u32_at buf 4
  avg_bytes_per_sec ← u32_at buf 8
  block_align ← u16_at buf 12
  bits_per_sample ← (if leb 16 (length buf) then u16_at buf 14 else ok 0)
  extradata ← wave_extradata buf
  ok (record {
    format_tag = format_tag;
    channels = channels;
    samples_per_sec = samples_per_sec;
    avg_bytes_per_sec = avg_bytes_per_sec;
    block_align = block_align;
    bits_per_sample = bits_per_sample;
    extradata = extradata;
  })

unfoldable pub write_waveformatex : ℕ → ℕ → ℕ → ℕ → ℕ → ℕ → List ℕ → List ℕ
write_waveformatex format_tag channels samples_per_sec avg_bytes_per_sec block_align bits_per_sample
      extradata =
    le16 format_tag
    ++ le16 channels
    ++ le32 samples_per_sec
    ++ le32 avg_bytes_per_sec
    ++ le16 block_align
    ++ le16 bits_per_sample
    ++ le16 (length extradata % 2 ^ 16)
    ++ extradata
