-- ===== src/Avih.antt =====
-- The main header: src/muxer.rs `build_avih`, src/demuxer.rs `AviMainHeader` and `parse_avih`.
pub mod RoundTrip
use oxideav_avi.Base.{
  ℕ, zero, suc, ◌+◌, ◌*◌, ◌/◌, ◌%◌, ◌^◌, List, [], ◌∷◌, ◌++◌, Option, none, some, Outcome, ok,
  ◌>>=◌, ◌>>◌, length, max, replicate, leb, if◌then◌else◌, invalid, guard,
}
use oxideav_avi.Bytes.{le32, u32_at, Fourcc, fourcc, same_fourcc}

pub record AviMainHeader : Type 0 where
  pub micro_sec_per_frame : ℕ
  pub max_bytes_per_sec : ℕ
  pub padding_granularity : ℕ
  pub flags : ℕ
  pub total_frames : ℕ
  pub initial_frames : ℕ
  pub streams : ℕ
  pub suggested_buffer_size : ℕ
  pub width : ℕ
  pub height : ℕ
  pub reserved : ℕ × ℕ × ℕ × ℕ

-- `buf[40..56]`, if the body is that long.
unfoldable pub parse_reserved : List ℕ → Outcome (ℕ × ℕ × ℕ × ℕ)
parse_reserved buf =
    let words : Outcome (ℕ × ℕ × ℕ × ℕ) = (do
      a ← u32_at buf 40
      b ← u32_at buf 44
      c ← u32_at buf 48
      d ← u32_at buf 52
      ok (a, b, c, d)) in
    if leb 56 (length buf) then words else ok (0, 0, 0, 0)

unfoldable pub parse_avih : List ℕ → Outcome AviMainHeader
parse_avih buf = do
  guard (leb 40 (length buf)) invalid
  micro_sec_per_frame ← u32_at buf 0
  max_bytes_per_sec ← u32_at buf 4
  padding_granularity ← u32_at buf 8
  flags ← u32_at buf 12
  total_frames ← u32_at buf 16
  initial_frames ← u32_at buf 20
  streams ← u32_at buf 24
  suggested_buffer_size ← u32_at buf 28
  width ← u32_at buf 32
  height ← u32_at buf 36
  reserved ← parse_reserved buf
  ok (record {
    micro_sec_per_frame = micro_sec_per_frame;
    max_bytes_per_sec = max_bytes_per_sec;
    padding_granularity = padding_granularity;
    flags = flags;
    total_frames = total_frames;
    initial_frames = initial_frames;
    streams = streams;
    suggested_buffer_size = suggested_buffer_size;
    width = width;
    height = height;
    reserved = reserved;
  })

-- What `build_avih` reads of a `TrackState`: `entry.strh_type`, `entry.scale`, `entry.rate` and
-- `stream.params.width`, `height`.
pub record AvihTrack : Type 0 where
  pub strh_type : Fourcc
  pub scale : ℕ
  pub rate : ℕ
  pub width : Option ℕ
  pub height : Option ℕ

abbrev pub vids : Fourcc
vids = fourcc b'v' b'i' b'd' b's'

abbrev pub default_avih_flags : ℕ
default_avih_flags = 0x0810

unfoldable pub unwrap_or : Option ℕ → ℕ → ℕ
unwrap_or none d = d
unwrap_or (some n) d = n

-- The frame time and the frame size of the first video track.
unfoldable pub video_params : List AvihTrack → ℕ × ℕ × ℕ
video_params [] = (0, 0, 0)
video_params (t ∷ ts) =
    if same_fourcc t.strh_type vids
    then (
      1000000 * max t.scale 1 / max t.rate 1 % 2 ^ 32,
      unwrap_or t.width 0,
      unwrap_or t.height 0,
    )
    else video_params ts

unfoldable pub build_avih : List AvihTrack → Option ℕ → Option ℕ → Option ℕ → Option ℕ → List ℕ
build_avih tracks flags_override padding_granularity initial_frames micro_override =
    let (micro, width, height) = video_params tracks in
    le32 (unwrap_or micro_override micro)
    ++ (le32 0
        ++ (le32 (unwrap_or padding_granularity 0)
            ++ (le32 (unwrap_or flags_override default_avih_flags)
                ++ (le32 0
                    ++ (le32 (unwrap_or initial_frames 0)
                        ++ (le32 (length tracks)
                            ++ (le32 0 ++ (le32 width ++ (le32 height ++ replicate 16 0)))))))))
