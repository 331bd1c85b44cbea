-- ===== src/Vprp.antt =====
-- The video properties chunk: src/muxer.rs `VprpConfig` and `build_vprp_body`, src/demuxer.rs `parse_vprp`
-- with its types and the two token enums.
pub mod Tokens
pub mod Fields
pub mod RoundTrip
use oxideav_avi.Base.{
  ℕ, zero, suc, ◌+◌, ◌-◌, ◌*◌, ◌/◌, ◌%◌, ◌^◌, List, [], ◌∷◌, ◌++◌, Option, none, some, Outcome, ok,
  ◌>>=◌, length, min, max, take, leb, ltb, ◌==◌, ◌&&◌, if◌then◌else◌, Bool,
}
use oxideav_avi.Bytes.{le32, u32_at}

-- `VprpFieldDesc`, and `VprpFieldDescOverride`, which has the same fields.
pub record VprpFieldDesc : Type 0 where
  pub compressed_bm_height : ℕ
  pub compressed_bm_width : ℕ
  pub valid_bm_height : ℕ
  pub valid_bm_width : ℕ
  pub valid_bm_x_offset : ℕ
  pub valid_bm_y_offset : ℕ
  pub video_x_offset_in_t : ℕ
  pub video_y_valid_start_line : ℕ

pub record VprpHeader : Type 0 where
  pub video_format_token : ℕ
  pub video_standard : ℕ
  pub vertical_refresh_rate : ℕ
  pub h_total_in_t : ℕ
  pub v_total_in_lines : ℕ
  pub frame_aspect_ratio : ℕ
  pub frame_width_in_pixels : ℕ
  pub frame_height_in_lines : ℕ
  pub nb_field_per_frame : ℕ
  pub field_descs : List VprpFieldDesc

-- `VprpConfig` has the fields of a header, and a zero or an empty list stands for "not set".
abbrev pub VprpConfig : Type 0
VprpConfig = VprpHeader

-- The body of the loop over the descriptors, at `base`.
unfoldable pub read_field_desc : List ℕ → ℕ → Outcome VprpFieldDesc
read_field_desc body base = do
  compressed_bm_height ← u32_at body base
  compressed_bm_width ← u32_at body (base + 4)
  valid_bm_height ← u32_at body (base + 8)
  valid_bm_width ← u32_at body (base + 12)
  valid_bm_x_offset ← u32_at body (base + 16)
  valid_bm_y_offset ← u32_at body (base + 20)
  video_x_offset_in_t ← u32_at body (base + 24)
  video_y_valid_start_line ← u32_at body (base + 28)
  ok (record {
    compressed_bm_height = compressed_bm_height;
    compressed_bm_width = compressed_bm_width;
    valid_bm_height = valid_bm_height;
    valid_bm_width = valid_bm_width;
    valid_bm_x_offset = valid_bm_x_offset;
    valid_bm_y_offset = valid_bm_y_offset;
    video_x_offset_in_t = video_x_offset_in_t;
    video_y_valid_start_line = video_y_valid_start_line;
  })

-- Descriptor `i` and those behind it, `n` in all.
unfoldable pub read_field_descs : List ℕ → ℕ → ℕ → Outcome (List VprpFieldDesc)
read_field_descs body zero i = ok []
read_field_descs body (suc n) i = do
  desc ← read_field_desc body (36 + i * 32)
  rest ← read_field_descs body n (i + 1)
  ok (desc ∷ rest)

-- How many descriptors are read: as many as are declared and fit, and eight at most.
unfoldable pub desc_count : List ℕ → ℕ → ℕ
desc_count body nb_field_per_frame = min (min nb_field_per_frame ((length body - 36) / 32)) 8

unfoldable pub parse_vprp : List ℕ → Outcome (Option VprpHeader)
unfolding desc_count
parse_vprp body =
    let parsed : Outcome (Option VprpHeader) = (do
      nb_field_per_frame ← u32_at body 32
      field_descs ← read_field_descs body (desc_count body nb_field_per_frame) 0
      video_format_token ← u32_at body 0
      video_standard ← u32_at body 4
      vertical_refresh_rate ← u32_at body 8
      h_total_in_t ← u32_at body 12
      v_total_in_lines ← u32_at body 16
      frame_aspect_ratio ← u32_at body 20
      frame_width_in_pixels ← u32_at body 24
      frame_height_in_lines ← u32_at body 28
      ok (
          some (record {
            video_format_token = video_format_token;
            video_standard = video_standard;
            vertical_refresh_rate = vertical_refresh_rate;
            h_total_in_t = h_total_in_t;
            v_total_in_lines = v_total_in_lines;
            frame_aspect_ratio = frame_aspect_ratio;
            frame_width_in_pixels = frame_width_in_pixels;
            frame_height_in_lines = frame_height_in_lines;
            nb_field_per_frame = nb_field_per_frame;
            field_descs = field_descs;
          }))) in
    if leb 36 (length body) then parsed else ok none

-- What `build_vprp_body` reads of a `TrackState`: the frame size and `entry.scale`, `entry.rate`.
pub record VprpTrack : Type 0 where
  pub width : ℕ
  pub height : ℕ
  pub scale : ℕ
  pub rate : ℕ

unfoldable pub stream_refresh_rate : VprpTrack → ℕ
stream_refresh_rate t = if ltb 0 t.scale then (t.rate + t.scale / 2) / t.scale % 2 ^ 32 else 0

abbrev pub or_default : ℕ → ℕ → ℕ
or_default n d = if ltb 0 n then n else d

unfoldable pub field_desc_bytes : VprpFieldDesc → List ℕ
field_desc_bytes d =
    le32 d.compressed_bm_height
    ++ (le32 d.compressed_bm_width
        ++ (le32 d.valid_bm_height
            ++ (le32 d.valid_bm_width
                ++ (le32 d.valid_bm_x_offset
                    ++ (le32 d.valid_bm_y_offset
                        ++ (le32 d.video_x_offset_in_t ++ le32 d.video_y_valid_start_line))))))

unfoldable pub field_descs_bytes : List VprpFieldDesc → List ℕ
field_descs_bytes [] = []
field_descs_bytes (d ∷ ds) = field_desc_bytes d ++ field_descs_bytes ds

-- A descriptor that the muxer makes up.
abbrev pub plain_desc : ℕ → ℕ → ℕ → VprpFieldDesc
plain_desc height width start_line = record {
  compressed_bm_height = height;
  compressed_bm_width = width;
  valid_bm_height = height;
  valid_bm_width = width;
  valid_bm_x_offset = 0;
  valid_bm_y_offset = 0;
  video_x_offset_in_t = 0;
  video_y_valid_start_line = start_line;
}

-- The descriptors that are written: the caller's, if there are enough of them; or two half-height
-- fields; or one for the whole frame.
unfoldable pub written_descs : VprpTrack → List VprpFieldDesc → ℕ → List VprpFieldDesc
written_descs t descs nb =
    if ltb 0 (length descs) && leb (max nb 1) (length descs)
    then take (max nb 1) descs
    else if leb 2 nb
    then plain_desc (t.height / 2) t.width 23
      ∷ plain_desc (t.height / 2) t.width (t.height / 2 + 23)
      ∷ []
    else plain_desc t.height t.width 0 ∷ []

-- `cfg` is the override or the all-zero default.
unfoldable pub build_vprp_body : VprpTrack → VprpConfig → List ℕ
build_vprp_body t cfg =
    let nb = or_default cfg.nb_field_per_frame 1 in
    le32 cfg.video_format_token
    ++ (le32 cfg.video_standard
        ++ (le32 (or_default cfg.vertical_refresh_rate (stream_refresh_rate t))
            ++ (le32 (or_default cfg.h_total_in_t t.width)
                ++ (le32 (or_default cfg.v_total_in_lines t.height)
                    ++ (le32 (or_default cfg.frame_aspect_ratio (4 * 2 ^ 16 + 3))
                        ++ (le32 (or_default cfg.frame_width_in_pixels t.width)
                            ++ (le32 (or_default cfg.frame_height_in_lines t.height)
                                ++ (le32 nb
                                    ++ field_descs_bytes
                                        (written_descs t cfg.field_descs nb)))))))))
