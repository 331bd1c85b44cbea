-- ===== src/Mux/Plain.antt =====
-- src/muxer.rs: `AviMuxer::write_packet` into an AVI 1.0 file without clusters and padding.
use oxideav_avi.Base.{
  ℕ, zero, suc, ◌+◌, ◌-◌, ◌^◌, ◌≤◌, ◌<◌, ◌≡◌, refl, ap, List, [], ◌∷◌, ◌++◌, Option, none, some, ok,
  panic, other, Error, Outcome, length, max, get_elem?, leb, ◌==◌, if◌then◌else◌, Bool, true, false,
  arith, le→leb, lt→ltb, le→ltb, Bool-cases, inl, inr,
}
use oxideav_avi.Bytes.{Fourcc}
use oxideav_avi.Io.{Cursor, M, ◌>>=◌, ◌>>◌, pure, stream_position, guard}
use oxideav_avi.Riff.{u32_max}
use oxideav_avi.Riff.Write.{at_end, chunk_bytes, write_chunk-eq}
use oxideav_avi.Seek.{update, elem_at}
use oxideav_avi.Mux.{
  OutPacket, AviKind, avi10, open_dml, is_open_dml, emit_padding_junk_for, TrackState, Muxer,
  contains, sample_count_of_packet, relaid,
}
use oxideav_avi.Mux.Packet.{
  chunk_len, roll_open_dml, wants_clusters, add_cluster_bytes, roll_segment, choose_cluster, align,
  position_or, packet_flags, index_std, note_track, note_segment, note_cluster, push_index,
  mid_movi_flush, check_ceiling, put_chunk, place_chunk, write_wire, write_packet_of, write_packet,
}

-- An AVI 1.0 file whose header stands, whose packets go straight into `movi`.
pub record IsPlain (m : Muxer) : Type 0 where
  pub header_written : m.header_written ≡ true
  pub kind : m.kind ≡ avi10
  pub no_packets_cap : m.options.rec_cluster_packets ≡ none
  pub no_bytes_cap : m.options.rec_cluster_bytes ≡ none
  pub no_padding : m.options.padding_granularity ≡ none

-- The track after a chunk of `size` bytes.
abbrev pub noted : ℕ → Option ℕ → TrackState → TrackState
noted size duration t = record t {
  packet_count = t.packet_count + 1;
  max_chunk_size = max t.max_chunk_size size;
  total_bytes = t.total_bytes + size;
  sample_count = t.sample_count + sample_count_of_packet t size duration;
}

abbrev pub bump_first : ℕ → ℕ → ℕ
bump_first i n = if i == 0 then n + 1 else n

-- The muxer after the packet's chunk at `off`.
abbrev pub after_packet : Muxer → OutPacket → TrackState → List ℕ → ℕ → Muxer
after_packet m p t wire off =
    push_index
      (record m {
        pending_field2_offset = none;
        tracks = update p.stream_index (λ _. noted (length wire) p.duration t) m.tracks;
        current_segment_packets = m.current_segment_packets + 1;
        current_segment_indexed_packets =
            bump_first p.stream_index m.current_segment_indexed_packets;
      })
      t.packet_fourcc (packet_flags p.keyframe (contains p.stream_index m.options.field2_streams))
      off (length wire)

-- The packet fits: its chunk, the counters, and the file's limit.
pub record Fits (m : Muxer) (p : OutPacket) (t : TrackState) (wire : List ℕ) (off : ℕ)
    : Type 0 where
  pub known : get_elem? m.tracks p.stream_index ≡ some t
  pub relaid : relaid t p ≡ ok wire
  pub payload : length p.payload ≤ u32_max
  pub wire_fits : length wire ≤ u32_max
  pub packets : t.packet_count + 1 < 2 ^ 32
  pub bytes : t.total_bytes + length wire < 2 ^ 64
  pub samples : t.sample_count + sample_count_of_packet t (length wire) p.duration < 2 ^ 64
  pub in_segment : m.current_segment_packets + 1 < 2 ^ 32
  pub indexed : m.current_segment_indexed_packets + 1 < 2 ^ 32
  pub below_ceiling : off + chunk_len (length wire) ≤ 2 ^ 31 - 1024

abbrev got : {A : Type 0} → Option A → Outcome A
got none = panic
got (some a) = ok a

elem_at-get :
    {A : Type 0} (xs : List A) (i : ℕ) (x : A) → get_elem? xs i ≡ some x → elem_at xs i ≡ ok x
elem_at-get [] i x e = ground arith
elem_at-get (y ∷ ys) zero x e = ap got e
elem_at-get (y ∷ ys) (suc i) x e = elem_at-get ys i x e

pub note_segment-eq :
    (m : Muxer) (i : ℕ) (c : Cursor)
    → m.current_segment_packets + 1 < 2 ^ 32
    → m.current_segment_indexed_packets + 1 < 2 ^ 32
    → note_segment m i c
      ≡ ok (
        record m {
          current_segment_packets = m.current_segment_packets + 1;
          current_segment_indexed_packets = bump_first i m.current_segment_indexed_packets;
        },
        c,
      )
unfolding note_segment
note_segment-eq m i c h k = elim (Bool-cases (i == 0)) [
  | inl e ↦ rw (note_segment, lt→ltb _ _ h, ◌>>=◌, e, lt→ltb _ _ k, ◌>>=◌) refl
  | inr e ↦ rw (note_segment, lt→ltb _ _ h, ◌>>=◌, e, ◌>>=◌) refl
]

guard-true : {b : Bool} (e : Error) (c : Cursor) → b ≡ true → guard b e c ≡ ok (tt, c)
guard-true e c h = rw h refl

-- The steps that an AVI 1.0 file does not take.
index_std-avi10 :
    (m : Muxer) (i : ℕ) (id : Fourcc) (keyframe : Bool) (field2 : Option ℕ) (off size : ℕ)
    (c : Cursor)
    → m.kind ≡ avi10
    → index_std m i id keyframe field2 off size c ≡ ok (m, c)
unfolding index_std
index_std-avi10 m i id keyframe field2 off size c e =
    let no : is_open_dml m.kind ≡ false = rw e refl in rw no refl

mid_movi_flush-avi10 :
    (m : Muxer) (i : ℕ) (c : Cursor) → m.kind ≡ avi10 → mid_movi_flush m i c ≡ ok (m, c)
unfolding mid_movi_flush
mid_movi_flush-avi10 m i c e = let no : is_open_dml m.kind ≡ false = rw e refl in rw no refl

check_ceiling-avi10 :
    (kind : AviKind) (off size : ℕ) (c : Cursor)
    → kind ≡ avi10
    → off + chunk_len size ≤ 2 ^ 31 - 1024
    → check_ceiling kind off size c ≡ ok (tt, c)
unfolding check_ceiling
check_ceiling-avi10 kind off size c e h =
    let below = le→ltb (2 ^ 31 - 1024) (off + chunk_len size) h in rw (e, below) refl

abbrev no_roll : Muxer → ℕ → AviKind → M (Muxer × Option ℕ)
no_roll m n kind = elim kind [ avi10 ↦ pure (m, none) | open_dml limit ↦ roll_open_dml m limit n ]

roll_segment-avi10 :
    (m : Muxer) (n : ℕ) (c : Cursor) → m.kind ≡ avi10 → roll_segment m n c ≡ ok ((m, none), c)
unfolding roll_segment
roll_segment-avi10 m n c e = ap (λ kind. no_roll m n kind c) e

choose_cluster-plain :
    (m : Muxer) (o : Option ℕ) (n : ℕ) (c : Cursor)
    → IsPlain m
    → choose_cluster m o n c ≡ ok ((m, o), c)
unfolding choose_cluster
choose_cluster-plain m o n c h =
    let no : wants_clusters m ≡ false = rw (h.no_packets_cap, h.no_bytes_cap) refl in rw no refl

abbrev no_align : Muxer → Option ℕ → Option ℕ → M (Muxer × Option ℕ)
no_align m o padding = elim padding [
  | none ↦ pure (m, o)
  | some n ↦ do
    before ← stream_position
    emit_padding_junk_for n
    after ← stream_position
    pure (add_cluster_bytes m (after - before), some after)
]

align-plain : (m : Muxer) (o : Option ℕ) (c : Cursor) → IsPlain m → align m o c ≡ ok ((m, o), c)
unfolding align
align-plain m o c h = ap (λ padding. no_align m o padding c) h.no_padding

module _ (m : Muxer) (p : OutPacket) (t : TrackState) (wire : List ℕ) (buf : List ℕ)
    (plain : IsPlain m) (fits : Fits m p t wire (length buf)) where
  abbrev next_buf : List ℕ
  next_buf = buf ++ chunk_bytes t.packet_fourcc (length wire) wire

  track_there : elem_at m.tracks p.stream_index ≡ ok t
  track_there = elem_at-get m.tracks p.stream_index t fits.known

  note_track-eq :
      (c : Cursor)
      → note_track (length wire) p.duration t c ≡ ok (noted (length wire) p.duration t, c)
  unfolding note_track
  note_track-eq c =
      rw
        (
          lt→ltb (t.packet_count + 1) (2 ^ 32) fits.packets,
          ◌>>=◌,
          lt→ltb (t.total_bytes + length wire) (2 ^ 64) fits.bytes,
          ◌>>=◌,
          lt→ltb (t.sample_count + sample_count_of_packet t (length wire) p.duration) (2 ^ 64)
              fits.samples,
          ◌>>=◌,
        )
        refl

  abbrev tracked : Muxer
  tracked = record m {
    pending_field2_offset = none;
    tracks = update p.stream_index (λ _. noted (length wire) p.duration t) m.tracks;
  }

  put_chunk-eq :
      put_chunk
        (record m { pending_field2_offset = none })
        p.stream_index
        t.packet_fourcc
        p.keyframe
        p.duration
        wire
        (length buf)
        (at_end buf)
      ≡ ok (after_packet m p t wire (length buf), at_end next_buf)
  unfolding put_chunk note_cluster
  put_chunk-eq =
      let room : leb (length wire) u32_max ≡ true = le→leb _ _ fits.wire_fits in
      rw
        (
          write_chunk-eq buf t.packet_fourcc wire,
          room,
          ◌>>=◌,
          track_there,
          ◌>>=◌,
          note_track-eq (at_end next_buf),
          ◌>>=◌,
          note_segment-eq tracked p.stream_index (at_end next_buf) fits.in_segment fits.indexed,
          ◌>>=◌,
          plain.no_packets_cap,
          plain.no_bytes_cap,
        )
        refl

  place_chunk-eq :
      place_chunk m p wire (length buf) (at_end buf)
      ≡ ok (after_packet m p t wire (length buf), at_end next_buf)
  unfolding place_chunk
  place_chunk-eq =
      rw
        (
          track_there,
          ◌>>=◌,
          index_std-avi10 (record m { pending_field2_offset = none }) _ _ _ _ _ _ (at_end buf)
              plain.kind,
          ◌>>=◌,
          put_chunk-eq,
          ◌>>=◌,
          mid_movi_flush-avi10 (after_packet m p t wire (length buf)) _ (at_end next_buf)
              plain.kind,
          ◌>>=◌,
          check_ceiling-avi10 m.kind (length buf) (length wire) (at_end next_buf) plain.kind
              fits.below_ceiling,
        )
        refl

  write_wire-eq :
      write_wire m p wire (at_end buf) ≡ ok (after_packet m p t wire (length buf), at_end next_buf)
  unfolding write_wire align position_or stream_position
  write_wire-eq =
      rw
        (
          roll_segment-avi10 m (length wire) (at_end buf) plain.kind,
          ◌>>=◌,
          choose_cluster-plain m none (length wire) (at_end buf) plain,
          ◌>>=◌,
          align-plain m none (at_end buf) plain,
          ◌>>=◌,
        )
        place_chunk-eq

  -- The call appends the packet's chunk, counts it and enters it in the index.
  pub write_packet-eq :
      write_packet m p (at_end buf) ≡ ok (after_packet m p t wire (length buf), at_end next_buf)
  unfolding write_packet write_packet_of
  write_packet-eq =
      let small : leb (length p.payload) u32_max ≡ true = le→leb _ _ fits.payload in
      rw
        (
          guard-true other (at_end buf) plain.header_written,
          ◌>>=◌,
          fits.known,
          small,
          ◌>>=◌,
          fits.relaid,
          ◌>>=◌,
        )
        write_wire-eq
