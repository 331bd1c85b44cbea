-- ===== src/Tests/Headers.antt =====
-- The headers at concrete inputs.
use oxideav_avi.Base.{
  take, min, ℕ, ◌<◌, ◌≤◌, ◌≡◌, ◌⊎◌, refl, List, [], ◌∷◌, none, some, ok, err, ◌>>=◌, invalid, arith,
  length, true, false, replicate,
}
use oxideav_avi.Bytes.Laws.{Returns}
use oxideav_avi.Avih.{AvihTrack, vids, parse_avih, build_avih}
use oxideav_avi.Avih.RoundTrip.{parse_avih-build_avih, parse_avih_total}
use oxideav_avi.Vprp.{
  VprpFieldDesc, VprpHeader, VprpConfig, VprpTrack, written_descs, parse_vprp, build_vprp_body,
}
use oxideav_avi.Vprp.RoundTrip.{parse_vprp-build_vprp_body, parse_vprp_total}
use oxideav_avi.Format.{
  no_compression, WaveFormatEx, parse_bitmap_info_header, write_bitmap_info_header_oriented,
  parse_waveformatex, write_waveformatex,
}
use oxideav_avi.Format.Bitmap.{parse-write_bitmap_info_header_oriented}
use oxideav_avi.Format.Wave.{parse_waveformatex-write_waveformatex}
use oxideav_avi.Format.Extensible.{
  wave_format_extensible, ks_tail, WaveFormatExtensible, parse_waveformatextensible,
  write_waveformatextensible, parse-write_waveformatextensible,
}
use oxideav_avi.RawDib.{
  PixelFormat, RowRule, RawHeader, RawLayout, bgr24, rgbx, dib, bi_bitfields, raw_layout,
  header_for,
}
use oxideav_avi.RawDib.Formats.{format_of, pixel_format_for-header_for}

abbrev film : AvihTrack
film = record { strh_type = vids; scale = 1; rate = 25; width = some 720; height = some 576 }

parse_avih-build_avih_example :
    parse_avih (build_avih (film ∷ []) none none (some 4) (some 40000))
    ≡ ok (record {
      micro_sec_per_frame = 40000;
      max_bytes_per_sec = 0;
      padding_granularity = 0;
      flags = 0x810;
      total_frames = 0;
      initial_frames = 4;
      streams = 1;
      suggested_buffer_size = 0;
      width = 720;
      height = 576;
      reserved = (0, 0, 0, 0);
    })
unfolding oxideav_avi.Avih.unwrap_or oxideav_avi.Avih.video_params
parse_avih-build_avih_example =
    parse_avih-build_avih (film ∷ []) none none (some 4) (some 40000)
      (record { width = omega arith; height = omega arith }, tt) (omega arith) tt tt (omega arith)
      (omega arith)

abbrev too_short : List ℕ
too_short = replicate 39 0

parse_avih_total_example :
    ((40 ≤ length (too_short)) × Returns (parse_avih (too_short)))
    ⊎ ((length (too_short) < 40) × (parse_avih (too_short) ≡ err invalid))
parse_avih_total_example = parse_avih_total too_short

abbrev pal_track : VprpTrack
pal_track = record { width = 720; height = 576; scale = 1; rate = 25 }

abbrev plain_config : VprpConfig
plain_config = record {
  video_format_token = 0;
  video_standard = 1;
  vertical_refresh_rate = 0;
  h_total_in_t = 864;
  v_total_in_lines = 625;
  frame_aspect_ratio = 0;
  frame_width_in_pixels = 0;
  frame_height_in_lines = 0;
  nb_field_per_frame = 0;
  field_descs = [];
}

-- Three fields without descriptors: two are written.
abbrev three_fields : VprpConfig
three_fields = record plain_config { nb_field_per_frame = 3 }

parse_vprp-build_vprp_body_example :
    (length (build_vprp_body pal_track three_fields) ≡ 100)
    × (parse_vprp (build_vprp_body pal_track three_fields)
        ≡ ok (
            some (record {
              video_format_token = 0;
              video_standard = 1;
              vertical_refresh_rate = 25;
              h_total_in_t = 864;
              v_total_in_lines = 625;
              frame_aspect_ratio = 0x00040003;
              frame_width_in_pixels = 720;
              frame_height_in_lines = 576;
              nb_field_per_frame = 3;
              field_descs =
                  take
                    (min (min 3 (length (written_descs pal_track [] 3))) 8)
                    (written_descs pal_track [] 3);
            })))
unfolding oxideav_avi.Vprp.stream_refresh_rate
parse_vprp-build_vprp_body_example =
    parse_vprp-build_vprp_body pal_track three_fields
      (record { width = omega arith; height = omega arith })
      (record {
        video_format_token = omega arith;
        video_standard = omega arith;
        vertical_refresh_rate = omega arith;
        h_total_in_t = omega arith;
        v_total_in_lines = omega arith;
        frame_aspect_ratio = omega arith;
        frame_width_in_pixels = omega arith;
        frame_height_in_lines = omega arith;
        nb_field_per_frame = omega arith;
        field_descs = tt;
      })

parse_vprp_total_example : Returns (parse_vprp (replicate 36 255))
parse_vprp_total_example = parse_vprp_total (replicate 36 255)

parse-write_bitmap_info_header_oriented_example :
    (do
      buf ← write_bitmap_info_header_oriented 64 48 no_compression 24 (9 ∷ []) true
      parse_bitmap_info_header buf)
    ≡ ok (record {
      width = 64;
      height = 48;
      planes = 1;
      bit_count = 24;
      compression = no_compression;
      size_image = 0;
      x_pels_per_meter = 0;
      y_pels_per_meter = 0;
      clr_used = 0;
      clr_important = 0;
      extradata = 9 ∷ [];
      top_down = true;
    })
parse-write_bitmap_info_header_oriented_example =
    parse-write_bitmap_info_header_oriented 64 48 24 no_compression (9 ∷ []) true (omega arith)
      (omega arith) (omega arith) (omega arith)

abbrev pcm : WaveFormatEx
pcm = record {
  format_tag = 1;
  channels = 2;
  samples_per_sec = 48000;
  avg_bytes_per_sec = 192000;
  block_align = 4;
  bits_per_sample = 16;
  extradata = 1 ∷ 2 ∷ 3 ∷ [];
}

parse_waveformatex-write_waveformatex_example :
    parse_waveformatex (write_waveformatex 1 2 48000 192000 4 16 (1 ∷ 2 ∷ 3 ∷ [])) ≡ ok pcm
parse_waveformatex-write_waveformatex_example =
    parse_waveformatex-write_waveformatex pcm (omega arith) (omega arith) (omega arith)
      (omega arith) (omega arith) (omega arith) (omega arith)

-- 24 bits in 32 of two channels.
abbrev wide : WaveFormatExtensible
wide = record {
  wfx = record {
    format_tag = wave_format_extensible;
    channels = 2;
    samples_per_sec = 96000;
    avg_bytes_per_sec = 768000;
    block_align = 8;
    bits_per_sample = 32;
    extradata = [];
  };
  valid_bits_per_sample = 24;
  channel_mask = 3;
  subformat = record { bytes = 1 ∷ 0 ∷ 0 ∷ 0 ∷ ks_tail };
}

parse-write_waveformatextensible_example :
    parse_waveformatextensible (write_waveformatextensible 2 96000 768000 8 32 24 3 wide.subformat)
    ≡ ok wide
parse-write_waveformatextensible_example = parse-write_waveformatextensible wide record {
  channels = omega arith;
  samples_per_sec = omega arith;
  avg_bytes_per_sec = omega arith;
  block_align = omega arith;
  bits_per_sample = omega arith;
  valid_bits_per_sample = omega arith;
  channel_mask = omega arith;
  subformat = refl;
}

abbrev rgbx_header : RawHeader
rgbx_header = record {
  compression = bi_bitfields;
  bit_count = 32;
  masks = 255 ∷ 0 ∷ 0 ∷ 0 ∷ 0 ∷ 255 ∷ 0 ∷ 0 ∷ 0 ∷ 0 ∷ 255 ∷ 0 ∷ [];
  rule = dib;
}

rgbx_has_header : header_for rgbx ≡ some rgbx_header
unfolding header_for
rgbx_has_header = refl

pixel_format_for-header_for_example : format_of rgbx_header ≡ ok (some (rgbx, dib))
pixel_format_for-header_for_example = pixel_format_for-header_for rgbx rgbx_header rgbx_has_header

abbrev narrow : RawLayout
narrow = record { row_bytes = 3; stride = 4; rows = 3; bottom_up = true }

narrow_layout : raw_layout bgr24 dib 1 3 false ≡ some narrow
unfolding raw_layout oxideav_avi.RawDib.bytes_per_pixel
narrow_layout = refl
