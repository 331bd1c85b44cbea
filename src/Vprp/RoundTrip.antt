-- ===== src/Vprp/RoundTrip.antt =====
-- What the demuxer reads from the `vprp` body that the muxer builds, and the parser on any bytes.
use oxideav_avi.Base.{
  false, ◌<◌, if◌then◌else◌, length-take, ℕ, zero, suc, ◌+◌, ◌*◌, ◌^◌, ◌≤◌, ◌≡◌, refl, ap, ◌∙◌,
  List, [], ◌∷◌, ok, length, take, arith, All, none, some, min, max, ltb, leb, ◌&&◌, true, inl, inr,
  Bool-cases, All-take,
}
use oxideav_avi.Bytes.{IsU32, u32_at, of_le32-le32}
use oxideav_avi.Bytes.Laws.{Returns, u32_at-Returns}
use oxideav_avi.Vprp.{
  VprpFieldDesc, VprpConfig, VprpTrack, read_field_desc, read_field_descs, desc_count, parse_vprp,
  stream_refresh_rate, or_default, written_descs, build_vprp_body,
}
use oxideav_avi.Vprp.Fields.{FieldDescIsValid, length-field_descs_bytes, read_field_descs-bytes}

pub record VprpTrackIsValid (t : VprpTrack) : Type 0 where
  pub width : IsU32 t.width
  pub height : IsU32 t.height

pub record ConfigIsValid (c : VprpConfig) : Type 0 where
  pub video_format_token : IsU32 c.video_format_token
  pub video_standard : IsU32 c.video_standard
  pub vertical_refresh_rate : IsU32 c.vertical_refresh_rate
  pub h_total_in_t : IsU32 c.h_total_in_t
  pub v_total_in_lines : IsU32 c.v_total_in_lines
  pub frame_aspect_ratio : IsU32 c.frame_aspect_ratio
  pub frame_width_in_pixels : IsU32 c.frame_width_in_pixels
  pub frame_height_in_lines : IsU32 c.frame_height_in_lines
  pub nb_field_per_frame : IsU32 c.nb_field_per_frame
  pub field_descs : All FieldDescIsValid c.field_descs

or_default-lt : (n d : ℕ) → IsU32 n → IsU32 d → IsU32 (or_default n d)
or_default-lt n d h k = ground arith

refresh-lt : (t : VprpTrack) → IsU32 (stream_refresh_rate t)
unfolding stream_refresh_rate
refresh-lt t = ground arith

written_descs-IsValid :
    (t : VprpTrack) (descs : List VprpFieldDesc) (nb : ℕ)
    → VprpTrackIsValid t
    → All FieldDescIsValid descs
    → All FieldDescIsValid (written_descs t descs nb)
unfolding written_descs
written_descs-IsValid t descs nb v k =
    elim (Bool-cases (ltb 0 (length descs) && leb (max nb 1) (length descs))) [
      | inl e ↦ rw e (All-take FieldDescIsValid (max nb 1) descs k)
      | inr e ↦ elim (Bool-cases (leb 2 nb)) [
        | inl two ↦ rw (e, two) (omega arith)
        | inr one ↦ rw (e, one) (omega arith)
      ]
    ]

-- How many descriptors a body has whose field count is `nb`, of a caller with `given` of them: one for each
-- field if they are enough, or else two at most.
abbrev pub desc_total : ℕ → ℕ → ℕ
desc_total nb given = if leb nb given then nb else min nb 2

length-written_descs :
    (t : VprpTrack) (descs : List VprpFieldDesc) (nb : ℕ)
    → 0 < nb
    → length (written_descs t descs nb) ≡ desc_total nb (length descs)
unfolding written_descs
length-written_descs t descs nb h =
    let at_least : max nb 1 ≡ nb = omega arith in
    elim (Bool-cases (leb nb (length descs))) [
      | inl e ↦
          let some_given : ltb 0 (length descs) ≡ true = ground arith in
          rw (at_least, some_given, e) (ground (arith, length-take nb descs))
      | inr e ↦
          let too_few : (ltb 0 (length descs) && leb nb (length descs)) ≡ false =
            elim (Bool-cases (ltb 0 (length descs))) [
              | inl f ↦ rw (f, e) refl
              | inr f ↦ rw f refl
            ] in
          rw (at_least, too_few, e)
            (elim (Bool-cases (leb 2 nb)) [
              | inl two ↦ rw two (ground arith)
              | inr one ↦ rw one (ground arith)
            ])
    ]

length-build_vprp_body :
    (t : VprpTrack) (c : VprpConfig)
    → let nb = or_default c.nb_field_per_frame 1 in
      length (build_vprp_body t c) ≡ 36 + 32 * desc_total nb (length c.field_descs)
unfolding build_vprp_body
length-build_vprp_body t c =
    let nb = or_default c.nb_field_per_frame 1 in
    let positive : 0 < nb = ground arith in
    omega (
      arith,
      length-field_descs_bytes (written_descs t c.field_descs nb),
      length-written_descs t c.field_descs nb positive,
    )

built_parses :
    (t : VprpTrack) (c : VprpConfig)
    → VprpTrackIsValid t
    → ConfigIsValid c
    → let nb = or_default c.nb_field_per_frame 1 in
      let descs = written_descs t c.field_descs nb in
      parse_vprp (build_vprp_body t c)
      ≡ ok (
          some (record {
            video_format_token = c.video_format_token;
            video_standard = c.video_standard;
            vertical_refresh_rate = or_default c.vertical_refresh_rate (stream_refresh_rate t);
            h_total_in_t = or_default c.h_total_in_t t.width;
            v_total_in_lines = or_default c.v_total_in_lines t.height;
            frame_aspect_ratio = or_default c.frame_aspect_ratio 0x00040003;
            frame_width_in_pixels = or_default c.frame_width_in_pixels t.width;
            frame_height_in_lines = or_default c.frame_height_in_lines t.height;
            nb_field_per_frame = nb;
            field_descs = take (min (min nb (length descs)) 8) descs;
          }))
unfolding parse_vprp build_vprp_body u32_at
built_parses t c vt vc =
    let nb = or_default c.nb_field_per_frame 1 in
    let descs = written_descs t c.field_descs nb in
    let body = build_vprp_body t c in
    let long : leb 36 (length body) ≡ true = ground arith in
    let count : desc_count body nb ≡ min (min nb (length descs)) 8 =
      unfold desc_count in omega (arith, length-field_descs_bytes descs) in
    let descs_read : read_field_descs body (desc_count body nb) 0
        ≡ ok (take (min (min nb (length descs)) 8) descs) =
      ap (λ n. read_field_descs body n 0) count
      ∙ read_field_descs-bytes (min (min nb (length descs)) 8) descs body (take 36 body) 0 refl refl
          (omega arith) (written_descs-IsValid t c.field_descs nb vt vc.field_descs) in
    rw
      (
        long,
        of_le32-le32 nb (or_default-lt c.nb_field_per_frame 1 vc.nb_field_per_frame (omega arith)),
        descs_read,
        of_le32-le32 c.video_format_token vc.video_format_token,
        of_le32-le32 c.video_standard vc.video_standard,
        of_le32-le32 (or_default c.vertical_refresh_rate (stream_refresh_rate t)) (
            or_default-lt c.vertical_refresh_rate (stream_refresh_rate t) vc.vertical_refresh_rate
              (refresh-lt t)),
        of_le32-le32 (or_default c.h_total_in_t t.width)
            (or_default-lt c.h_total_in_t t.width vc.h_total_in_t vt.width),
        of_le32-le32 (or_default c.v_total_in_lines t.height)
            (or_default-lt c.v_total_in_lines t.height vc.v_total_in_lines vt.height),
        of_le32-le32 (or_default c.frame_aspect_ratio (4 * 2 ^ 16 + 3)) (
            or_default-lt c.frame_aspect_ratio (4 * 2 ^ 16 + 3) vc.frame_aspect_ratio
              (omega arith)),
        of_le32-le32 (or_default c.frame_width_in_pixels t.width)
            (or_default-lt c.frame_width_in_pixels t.width vc.frame_width_in_pixels vt.width),
        of_le32-le32 (or_default c.frame_height_in_lines t.height)
            (or_default-lt c.frame_height_in_lines t.height vc.frame_height_in_lines vt.height),
      )
      refl

-- The body that `build_vprp_body` makes is 36 bytes and its descriptors of 32 bytes: as many as there are
-- fields where the caller gave enough of them, and otherwise two at most, however many fields are declared.
-- `parse_vprp` reads from that body each field of the configuration, or its default where it is zero, and
-- the descriptors that were written, up to eight and up to the declared count. Every field of the track
-- and of the configuration fits 32 bits.
pub parse_vprp-build_vprp_body :
    (t : VprpTrack) (c : VprpConfig)
    → VprpTrackIsValid t
    → ConfigIsValid c
    → let nb = or_default c.nb_field_per_frame 1 in
      let descs = written_descs t c.field_descs nb in
      (length (build_vprp_body t c) ≡ 36 + 32 * desc_total nb (length c.field_descs))
      × (parse_vprp (build_vprp_body t c)
          ≡ ok (
              some (record {
                video_format_token = c.video_format_token;
                video_standard = c.video_standard;
                vertical_refresh_rate = or_default c.vertical_refresh_rate (stream_refresh_rate t);
                h_total_in_t = or_default c.h_total_in_t t.width;
                v_total_in_lines = or_default c.v_total_in_lines t.height;
                frame_aspect_ratio = or_default c.frame_aspect_ratio 0x00040003;
                frame_width_in_pixels = or_default c.frame_width_in_pixels t.width;
                frame_height_in_lines = or_default c.frame_height_in_lines t.height;
                nb_field_per_frame = nb;
                field_descs = take (min (min nb (length descs)) 8) descs;
              })))
parse_vprp-build_vprp_body t c vt vc = (length-build_vprp_body t c, built_parses t c vt vc)

read_field_desc-Returns :
    (body : List ℕ) (base : ℕ) → base + 32 ≤ length body → Returns (read_field_desc body base)
unfolding read_field_desc
read_field_desc-Returns body base h =
    let (a, p0) = u32_at-Returns body base (omega arith) in
    let (b, p1) = u32_at-Returns body (base + 4) (omega arith) in
    let (c, p2) = u32_at-Returns body (base + 8) (omega arith) in
    let (d, p3) = u32_at-Returns body (base + 12) (omega arith) in
    let (e, p4) = u32_at-Returns body (base + 16) (omega arith) in
    let (f, p5) = u32_at-Returns body (base + 20) (omega arith) in
    let (g, p6) = u32_at-Returns body (base + 24) (omega arith) in
    let (i, p7) = u32_at-Returns body (base + 28) (omega arith) in
    (
      record {
        compressed_bm_height = a;
        compressed_bm_width = b;
        valid_bm_height = c;
        valid_bm_width = d;
        valid_bm_x_offset = e;
        valid_bm_y_offset = f;
        video_x_offset_in_t = g;
        video_y_valid_start_line = i;
      },
      rw (p0, p1, p2, p3, p4, p5, p6, p7) refl,
    )

read_field_descs-Returns :
    (body : List ℕ) (n i : ℕ)
    → 36 + (i + n) * 32 ≤ length body
    → Returns (read_field_descs body n i)
unfolding read_field_descs
read_field_descs-Returns body zero i h = ([], refl)
read_field_descs-Returns body (suc n) i h =
    let (d, p) = read_field_desc-Returns body (36 + i * 32) (omega arith) in
    let (ds, q) = read_field_descs-Returns body n (i + 1) (omega arith) in (d ∷ ds, rw (p, q) refl)

-- On any body `parse_vprp` returns: it never panics, whatever field count the body declares.
pub parse_vprp_total : (body : List ℕ) → Returns (parse_vprp body)
unfolding parse_vprp
parse_vprp_total body = elim (Bool-cases (leb 36 (length body))) [
  | inr e ↦ (none, rw e refl)
  | inl e ↦
      let h : 36 ≤ length body = ground arith in
      let (nb, p) = u32_at-Returns body 32 (omega arith) in
      let room : 36 + (0 + desc_count body nb) * 32 ≤ length body = omega arith in
      let (ds, q) = read_field_descs-Returns body (desc_count body nb) 0 room in
      let (a, p0) = u32_at-Returns body 0 (omega arith) in
      let (b, p1) = u32_at-Returns body 4 (omega arith) in
      let (c, p2) = u32_at-Returns body 8 (omega arith) in
      let (d, p3) = u32_at-Returns body 12 (omega arith) in
      let (f, p4) = u32_at-Returns body 16 (omega arith) in
      let (g, p5) = u32_at-Returns body 20 (omega arith) in
      let (i, p6) = u32_at-Returns body 24 (omega arith) in
      let (j, p7) = u32_at-Returns body 28 (omega arith) in
      (
        some (record {
          video_format_token = a;
          video_standard = b;
          vertical_refresh_rate = c;
          h_total_in_t = d;
          v_total_in_lines = f;
          frame_aspect_ratio = g;
          frame_width_in_pixels = i;
          frame_height_in_lines = j;
          nb_field_per_frame = nb;
          field_descs = ds;
        }),
        rw (e, p, q, p0, p1, p2, p3, p4, p5, p6, p7) refl,
      )
]
