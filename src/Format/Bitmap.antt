-- ===== src/Format/Bitmap.antt =====
-- Bitmap headers that are written parse back, with the orientation or with the palette.
use oxideav_avi.Base.{
  ℕ, ◌+◌, ◌-◌, ◌*◌, ◌/◌, ◌%◌, ◌^◌, ◌≤◌, ◌<◌, ◌≡◌, refl, List, [], ◌∷◌, ◌++◌, some, ok, ◌>>=◌,
  length, arith, leb, ltb, ◌==◌, Bool, true, false, ◌&&◌, not, min, ap, take_all, le→leb,
}
use oxideav_avi.Bytes.{IsU16, IsU32, Fourcc, of_le32-le32, of_le16-le16, u16_at, u32_at, fourcc_at}
use oxideav_avi.Format.{
  RgbQuad, is_negative, unsigned_abs, parse_bitmap_info_header, height_field, bitmap_bytes,
  write_bitmap_info_header_oriented, write_indexed_bitmap_info_header, parse_color_table,
  color_quads, color_bytes, no_compression,
}

-- The 32 bits of the height, in the orientation.
abbrev signed : ℕ → Bool → ℕ
signed height true = (2 ^ 32 - height) % 2 ^ 32
signed height false = height

parse-bitmap_bytes :
    (bi_size width height bit_count clr_used : ℕ) (compression : Fourcc) (rest : List ℕ)
    → IsU32 bi_size
    → IsU32 width
    → IsU32 height
    → IsU16 bit_count
    → IsU32 clr_used
    → parse_bitmap_info_header
        (bitmap_bytes bi_size width height bit_count compression clr_used ++ rest)
      ≡ ok (record {
        width = width;
        height = unsigned_abs height;
        planes = 1;
        bit_count = bit_count;
        compression = compression;
        size_image = 0;
        x_pels_per_meter = 0;
        y_pels_per_meter = 0;
        clr_used = clr_used;
        clr_important = 0;
        extradata = rest;
        top_down = is_negative height;
      })
unfolding parse_bitmap_info_header bitmap_bytes u32_at u16_at fourcc_at
parse-bitmap_bytes s w h b c f rest vs vw vh vb vc =
    let long : leb 40 (length (bitmap_bytes s w h b f c ++ rest)) ≡ true =
      le→leb 40 (length (bitmap_bytes s w h b f c ++ rest)) (omega arith) in
    rw
      (
        long,
        of_le32-le32 w vw,
        of_le32-le32 h vh,
        of_le16-le16 b vb,
        of_le32-le32 c vc,
        of_le32-le32 0 (omega arith),
        of_le16-le16 1 (omega arith),
      )
      refl

height_field-signed :
    (height : ℕ) (top_down : Bool)
    → height < 2 ^ 31
    → height_field height top_down ≡ ok (signed height top_down)
unfolding height_field
height_field-signed height true h = ground arith
height_field-signed height false h = refl

unsigned_abs-signed :
    (height : ℕ) (top_down : Bool)
    → height < 2 ^ 31
    → unsigned_abs (signed height top_down) ≡ height
unsigned_abs-signed height true h = ground arith
unsigned_abs-signed height false h = ground arith

is_negative-signed :
    (height : ℕ) (top_down : Bool)
    → height < 2 ^ 31
    → is_negative (signed height top_down) ≡ (top_down && not (height == 0))
is_negative-signed height true h = ground arith
is_negative-signed height false h = ground arith

signed-lt : (height : ℕ) (top_down : Bool) → height < 2 ^ 31 → IsU32 (signed height top_down)
signed-lt height true h = omega arith
signed-lt height false h = omega arith

-- A header written with an orientation parses back: a height below 2^31 comes back as it is, and the
-- orientation too, but that a header of height zero is never top-down. Width and depth fit their
-- fields, and the header with its extra data is shorter than 2^32 bytes.
pub parse-write_bitmap_info_header_oriented :
    (width height bit_count : ℕ) (compression : Fourcc) (extradata : List ℕ) (top_down : Bool)
    → IsU32 width
    → height < 2 ^ 31
    → IsU16 bit_count
    → 40 + length extradata < 2 ^ 32
    → (do
      buf ← write_bitmap_info_header_oriented width height compression bit_count extradata top_down
      parse_bitmap_info_header buf)
      ≡ ok (record {
        width = width;
        height = height;
        planes = 1;
        bit_count = bit_count;
        compression = compression;
        size_image = 0;
        x_pels_per_meter = 0;
        y_pels_per_meter = 0;
        clr_used = 0;
        clr_important = 0;
        extradata = extradata;
        top_down = top_down && not (height == 0);
      })
unfolding write_bitmap_info_header_oriented
parse-write_bitmap_info_header_oriented w h b f extradata t vw vh vb vs =
    let fits : ltb (40 + length extradata % 2 ^ 32) (2 ^ 32) ≡ true = ground arith in
    rw
      (
        ◌>>=◌,
        fits,
        height_field-signed h t vh,
        parse-bitmap_bytes (40 + length extradata % 2 ^ 32) w (signed h t) b 0 f extradata
            (omega arith) vw (signed-lt h t vh) vb (omega arith),
        unsigned_abs-signed h t vh,
        is_negative-signed h t vh,
      )
      refl

length-color_bytes : (qs : List RgbQuad) → length (color_bytes qs) ≡ 4 * length qs
unfolding color_bytes
length-color_bytes [] = omega arith
length-color_bytes (q ∷ qs) = omega (arith, length-color_bytes qs)

color_quads-color_bytes : (qs : List RgbQuad) → color_quads (color_bytes qs) ≡ qs
unfolding color_quads color_bytes
color_quads-color_bytes [] = refl
color_quads-color_bytes (q ∷ qs) = ap (λ t. q ∷ t) (color_quads-color_bytes qs)

-- The palette that an indexed header carries is the one it was written with: it has one entry at
-- least, the depth is one to eight bits, and the number of entries and the sizes fit their fields.
pub parse_color_table-write_indexed :
    (width height bit_count : ℕ) (palette : List RgbQuad)
    → IsU32 width
    → height < 2 ^ 31
    → 1 ≤ bit_count
    → bit_count ≤ 8
    → 1 ≤ length palette
    → IsU32 (length palette)
    → (do
      bmih ←
          parse_bitmap_info_header (write_indexed_bitmap_info_header width height bit_count palette)
      ok (parse_color_table bmih.bit_count bmih.clr_used bmih.extradata))
      ≡ ok (some palette)
unfolding write_indexed_bitmap_info_header parse_color_table
parse_color_table-write_indexed w h b palette vw vh b1 b8 p1 vp =
    let z : (length palette % 2 ^ 32 == 0) ≡ false = ground arith in
    let d : (b == 0) ≡ false = ground arith in
    let e : ltb 8 b ≡ false = ground arith in
    let count : min (length palette % 2 ^ 32) (length (color_bytes palette) / 4 % 2 ^ 32)
        ≡ length palette =
      omega (arith, length-color_bytes palette) in
    let c : (length palette == 0) ≡ false = ground arith in
    rw
      (
        ◌>>=◌,
        parse-bitmap_bytes 40 w h b (length palette % 2 ^ 32) no_compression (color_bytes palette)
            (omega arith) vw (omega arith) (omega arith) (omega arith),
        z,
        d,
        e,
        z,
        count,
        c,
        color_quads-color_bytes palette,
        take_all (length palette) palette (omega arith),
      )
      refl
