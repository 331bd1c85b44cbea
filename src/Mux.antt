-- ===== src/Mux.antt =====
-- The state of `AviMuxer` in src/muxer.rs while packets are written, and the small steps on it. The output
-- is a cursor that the calls thread. Sums of `u64` positions and sizes are exact, a `u32` counter that
-- overflows panics. What a call has changed before it returns an error is left out.
pub mod Segments
pub mod Packet
pub mod Ticks
pub mod Plain
pub mod Padding
pub mod Steps
pub mod Invariant
pub mod Closing
pub mod Rolling
pub mod Entries
pub mod Room
pub mod Counting
pub mod Open
pub mod Batch
pub mod Written
use oxideav_avi.Base.{
  ℕ, zero, suc, ◌+◌, ◌-◌, ◌*◌, ◌/◌, ◌%◌, ◌^◌, List, [], ◌∷◌, ◌++◌, Option, none, some, Outcome, ok,
  panic, length, replicate, min, max, leb, ltb, ◌==◌, if◌then◌else◌, Bool, true, false, ◌&&◌, ◌||◌,
  not,
}
use oxideav_avi.Bytes.{Fourcc, fourcc}
use oxideav_avi.Io.{M, ◌>>=◌, ◌>>◌, pure, fail, write_all, stream_position}
use oxideav_avi.Riff.{write_chunk_header}
use oxideav_avi.Index.{IxStdEntry, IxChunkRecord}
use oxideav_avi.Idx1.{IndexEntry}
use oxideav_avi.RawDib.{RawLayout}
use oxideav_avi.RawDib.Frames.{pack}
use oxideav_avi.Seek.{zero_i64}
use oxideav_avi.Packets.{lift}

-- A packet to write; the duration is kept as its value plus 2 ^ 63.
pub record OutPacket : Type 0 where
  pub stream_index : ℕ
  pub keyframe : Bool
  pub header : Bool
  pub duration : Option ℕ
  pub payload : List ℕ

pub data AviKind : Type 0 where
  avi10 : AviKind
  open_dml : ℕ → AviKind

-- `is_auds`, `sample_size` and `raw_layout` are fields of `entry`.
pub record TrackState : Type 0 where
  pub is_auds : Bool
  pub sample_size : ℕ
  pub raw_layout : Option RawLayout
  pub packet_fourcc : Fourcc
  pub packet_count : ℕ
  pub sample_count : ℕ
  pub max_chunk_size : ℕ
  pub total_bytes : ℕ
  pub ix_entries : List IxStdEntry
  pub ix_chunk_records : List IxChunkRecord
  pub ticks_at_last_ix_flush : ℕ

pub record SegmentRecord : Type 0 where
  pub riff_offset : ℕ
  pub total_size : ℕ
  pub packet_count : ℕ
  pub indexed_packet_count : ℕ

-- The options that packets depend on.
pub record MuxOptions : Type 0 where
  pub rec_cluster_packets : Option ℕ
  pub rec_cluster_bytes : Option ℕ
  pub padding_granularity : Option ℕ
  pub field2_streams : List ℕ
  pub mid_movi_index_streams : List (ℕ × ℕ)
  pub synthesise_idx1_from_ix : Bool
  pub strl_std_index_capacity : Option ℕ

pub record Muxer : Type 0 where
  pub tracks : List TrackState
  pub kind : AviKind
  pub options : MuxOptions
  pub riff_size_off : ℕ
  pub movi_size_off : ℕ
  pub movi_start_off : ℕ
  pub index : List IndexEntry
  pub strl_std_active : Bool
  pub segments : List SegmentRecord
  pub current_segment_packets : ℕ
  pub current_segment_indexed_packets : ℕ
  pub rec_open_idx1_slot : Option ℕ
  pub rec_open_size_off : Option ℕ
  pub rec_packets_in_cluster : ℕ
  pub rec_bytes_in_cluster : ℕ
  pub pending_field2_offset : Option ℕ
  pub primary_ix_snapshot : List IndexEntry
  pub header_written : Bool

-- A checked subtraction, and a `u32` counter.
abbrev pub minus : ℕ → ℕ → Outcome ℕ
minus a b = if leb b a then ok (a - b) else panic

abbrev pub count_up : ℕ → Outcome ℕ
count_up n = if ltb (n + 1) (2 ^ 32) then ok (n + 1) else panic

-- `+=` of `u64`
abbrev pub add_u64 : ℕ → ℕ → Outcome ℕ
add_u64 a b = if ltb (a + b) (2 ^ 64) then ok (a + b) else panic

abbrev pub contains : ℕ → List ℕ → Bool
contains i [] = false
contains i (x ∷ xs) = (x == i) || contains i xs

abbrev pub is_some : {A : Type 0} → Option A → Bool
is_some none = false
is_some (some a) = true

abbrev pub is_open_dml : AviKind → Bool
is_open_dml avi10 = false
is_open_dml (open_dml limit) = true

abbrev pub is_primary : Muxer → Bool
is_primary m = length m.segments == 0

-- The zeros behind a `JUNK` header, 256 at a time (`panic` stands for the fuel's end).
unfoldable pub write_zeros : ℕ → ℕ → M (Unit {0})
write_zeros zero remaining = if remaining == 0 then pure tt else λ _. panic
write_zeros (suc fuel) remaining =
    let rest = write_zeros fuel (remaining - min remaining 256) in
    if ltb 0 remaining then (do write_all (replicate (min remaining 256) 0); rest) else pure tt

abbrev pub junk : Fourcc
junk = fourcc b'J' b'U' b'N' b'K'

-- The length of the zeros, for a granularity that is not 0.
unfoldable pub junk_len : ℕ → ℕ → ℕ
junk_len n cur = ((cur + 8 + (n - 1)) / n * n - cur - 8) % 2 ^ 32

unfoldable pub emit_padding_junk_for : ℕ → M (Unit {0})
unfolding junk_len write_zeros
emit_padding_junk_for zero = λ _. panic
emit_padding_junk_for (suc k) = do
  cur ← stream_position
  let body_len = junk_len (suc k) cur
  (if cur % suc k == 0
      then pure tt
      else (do write_chunk_header junk (body_len - body_len % 2); write_zeros body_len body_len))

-- `sample_count_of_packet`
unfoldable pub sample_count_of_packet : TrackState → ℕ → Option ℕ → ℕ
sample_count_of_packet t size duration =
    if t.is_auds
    then (if ltb 0 t.sample_size
        then size / t.sample_size
        else elim duration [ none ↦ 1 | some d ↦ if ltb zero_i64 d then d - zero_i64 else 1 ])
    else 1

-- The rows of a raw frame, padded out; other packets go as they are.
unfoldable pub relaid : TrackState → OutPacket → Outcome (List ℕ)
relaid t p = if p.header then ok p.payload else go t.raw_layout
  where
    kept : Outcome (Option (List ℕ)) → Outcome (List ℕ)
    kept (ok none) = ok p.payload
    kept (ok (some wire)) = ok wire
    kept (Outcome.err e) = Outcome.err e
    kept panic = panic

    go : Option RawLayout → Outcome (List ℕ)
    go none = ok p.payload
    go (some l) = kept (pack l p.payload)
