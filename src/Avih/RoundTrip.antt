-- ===== src/Avih/RoundTrip.antt =====
-- The main header that the muxer builds is the one that the demuxer reads, and the parser is total.
use oxideav_avi.Base.{
  ℕ, ◌<◌, ◌≤◌, ◌≡◌, refl, List, Option, none, some, ok, err, length, arith, All, leb, invalid, ◌⊎◌,
  inl, inr, Bool-cases,
}
use oxideav_avi.Bytes.{IsU32, of_le32-le32, u32_at, same_fourcc}
use oxideav_avi.Bytes.Laws.{Returns, u32_at-Returns}
use oxideav_avi.Avih.{
  parse_reserved, parse_avih, AvihTrack, vids, default_avih_flags, unwrap_or, video_params,
  build_avih,
}

abbrev pub OptionIsU32 : Option ℕ → Type 0
OptionIsU32 none = Unit
OptionIsU32 (some n) = IsU32 n

pub record TrackIsValid (t : AvihTrack) : Type 0 where
  pub width : OptionIsU32 t.width
  pub height : OptionIsU32 t.height

unwrap_or-lt : (o : Option ℕ) (d : ℕ) → OptionIsU32 o → IsU32 d → IsU32 (unwrap_or o d)
unfolding unwrap_or
unwrap_or-lt none d h k = k
unwrap_or-lt (some n) d h k = h

video_params-lt :
    (ts : List AvihTrack)
    → All TrackIsValid ts
    → IsU32 (video_params ts).0 × IsU32 (video_params ts).1 × IsU32 (video_params ts).2
unfolding video_params
video_params-lt List.[] v = omega arith
video_params-lt (List.◌∷◌ t ts) v = elim (Bool-cases (same_fourcc t.strh_type vids)) [
  | inl e ↦ rw e (
    omega arith,
    unwrap_or-lt t.width 0 v.0.width (omega arith),
    unwrap_or-lt t.height 0 v.0.height (omega arith),
  )
  | inr e ↦ rw e (video_params-lt ts v.1)
]

-- `parse_avih` reads from the body that `build_avih` makes the options or their defaults, the number of
-- tracks, and the first video track's frame time and size; every option and size fits 32 bits.
pub parse_avih-build_avih :
    (tracks : List AvihTrack) (flags padding initial micro : Option ℕ)
    → All TrackIsValid tracks
    → IsU32 (length tracks)
    → OptionIsU32 flags
    → OptionIsU32 padding
    → OptionIsU32 initial
    → OptionIsU32 micro
    → parse_avih (build_avih tracks flags padding initial micro)
      ≡ ok (record {
        micro_sec_per_frame = unwrap_or micro (video_params tracks).0;
        max_bytes_per_sec = 0;
        padding_granularity = unwrap_or padding 0;
        flags = unwrap_or flags default_avih_flags;
        total_frames = 0;
        initial_frames = unwrap_or initial 0;
        streams = length tracks;
        suggested_buffer_size = 0;
        width = (video_params tracks).1;
        height = (video_params tracks).2;
        reserved = (0, 0, 0, 0);
      })
unfolding parse_avih parse_reserved build_avih u32_at
parse_avih-build_avih tracks flags padding initial micro vt vn vf vp vi vm =
    let (vm', vw, vh) = video_params-lt tracks vt in
    rw
      (
        of_le32-le32 (unwrap_or micro (video_params tracks).0) (unwrap_or-lt micro _ vm vm'),
        of_le32-le32 (unwrap_or padding 0) (unwrap_or-lt padding 0 vp (omega arith)),
        of_le32-le32 (unwrap_or flags default_avih_flags) (unwrap_or-lt flags _ vf (omega arith)),
        of_le32-le32 (unwrap_or initial 0) (unwrap_or-lt initial 0 vi (omega arith)),
        of_le32-le32 (length tracks) vn,
        of_le32-le32 (video_params tracks).1 vw,
        of_le32-le32 (video_params tracks).2 vh,
        of_le32-le32 0 (omega arith),
      )
      refl

parse_reserved-Returns : (buf : List ℕ) → Returns (parse_reserved buf)
unfolding parse_reserved
parse_reserved-Returns buf = elim (Bool-cases (leb 56 (length buf))) [
  | inr e ↦ ((0, 0, 0, 0), rw e refl)
  | inl e ↦
      let h : 56 ≤ length buf = ground arith in
      let (a, p) = u32_at-Returns buf 40 (omega arith) in
      let (b, q) = u32_at-Returns buf 44 (omega arith) in
      let (c, r) = u32_at-Returns buf 48 (omega arith) in
      let (d, s) = u32_at-Returns buf 52 (omega arith) in ((a, b, c, d), rw (e, p, q, r, s) refl)
]

-- On any body `parse_avih` returns a header if there are forty bytes, and an error if not; it never
-- panics.
pub parse_avih_total :
    (buf : List ℕ)
    → ((40 ≤ length buf) × Returns (parse_avih buf))
      ⊎ ((length buf < 40) × (parse_avih buf ≡ err invalid))
unfolding parse_avih
parse_avih_total buf = elim (Bool-cases (leb 40 (length buf))) [
  | inr e ↦ inr (ground arith, rw e refl)
  | inl e ↦
      let h : 40 ≤ length buf = ground arith in
      let (a, p0) = u32_at-Returns buf 0 (omega arith) in
      let (b, p1) = u32_at-Returns buf 4 (omega arith) in
      let (c, p2) = u32_at-Returns buf 8 (omega arith) in
      let (d, p3) = u32_at-Returns buf 12 (omega arith) in
      let (f, p4) = u32_at-Returns buf 16 (omega arith) in
      let (g, p5) = u32_at-Returns buf 20 (omega arith) in
      let (i, p6) = u32_at-Returns buf 24 (omega arith) in
      let (j, p7) = u32_at-Returns buf 28 (omega arith) in
      let (k, p8) = u32_at-Returns buf 32 (omega arith) in
      let (l, p9) = u32_at-Returns buf 36 (omega arith) in
      let (r, pr) = parse_reserved-Returns buf in
      inl (
        h,
        (
          record {
            micro_sec_per_frame = a;
            max_bytes_per_sec = b;
            padding_granularity = c;
            flags = d;
            total_frames = f;
            initial_frames = g;
            streams = i;
            suggested_buffer_size = j;
            width = k;
            height = l;
            reserved = r;
          },
          rw (e, p0, p1, p2, p3, p4, p5, p6, p7, p8, p9, pr) refl,
        ),
      )
]
