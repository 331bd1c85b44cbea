-- ===== src/Packets/Loop.antt =====
-- `AviDemuxer::next_packet` of src/demuxer.rs: one round of its loop, by what the next chunk is, and the
-- loop.
use oxideav_avi.Base.{
  ℕ, zero, suc, ◌+◌, ◌-◌, ◌*◌, ◌^◌, List, Option, none, some, ok, err, panic, length, replicate,
  get_elem?, get_or, set, leb, ltb, ◌==◌, if◌then◌else◌, Bool, ◌&&◌, ◌||◌, not, eof, Outcome,
}
use oxideav_avi.Bytes.{Fourcc, fourcc, same_fourcc}
use oxideav_avi.Io.{Cursor, M, ◌>>=◌, ◌>>◌, pure, fail, stream_position, seek_start}
use oxideav_avi.Riff.{
  ChunkHeader, list, read_chunk_header_lenient, read_form_type, skip_chunk, skip_pad,
}
use oxideav_avi.RawDib.{RawLayout}
use oxideav_avi.RawDib.Frames.{unpack}
use oxideav_avi.Seek.{elem_at}
use oxideav_avi.Stream.{parse_stream_index}
use oxideav_avi.Packets.{
  PacketState, Packet, Round, again, deliver, packet_time_delta, read_body_bounded, lift, as_i64,
  keyframe_at, sideband_round,
}

unfoldable pub skip_round : PacketState → ChunkHeader → M Round
skip_round d hdr = do skip_chunk hdr; pure (again d)

unfoldable pub unpack_with : Option RawLayout → List ℕ → Outcome (List ℕ)
unpack_with none wire = ok wire
unpack_with (some l) wire = unpack l wire

-- The counter after a packet; the sum panics past 2 ^ 64 in a checked build.
unfoldable pub advance : ℕ → ℕ → Outcome ℕ
advance counter bump = if ltb (counter + bump) (2 ^ 64) then ok (counter + bump) else panic

unfoldable pub stamp : PacketState → ℕ → ℕ → List ℕ → ℕ → Packet
stamp d chunk_header_off i payload counter = record {
  stream_index = i;
  pts = as_i64 counter;
  dts = as_i64 counter;
  keyframe = keyframe_at d.keyframe_by_offset chunk_header_off;
  payload = payload;
}

-- The packet of a body that was read in full.
unfoldable pub make_packet : PacketState → ℕ → ℕ → List ℕ → M Round
unfolding packet_time_delta
make_packet d chunk_header_off i wire = do
  payload ← lift (unpack_with (get_or d.raw_layouts i none) wire)
  stream ← lift (elem_at d.streams i)
  counter ← lift (elem_at d.per_stream_counter i)
  next ← lift (advance counter (packet_time_delta stream (length payload)))
  pure (
      deliver (stamp d chunk_header_off i payload counter)
        (record d { per_stream_counter = set d.per_stream_counter i next }))

unfoldable pub finish_body : PacketState → ℕ → ChunkHeader → ℕ → Option (List ℕ) → M Round
finish_body d chunk_header_off hdr i none = fail eof
finish_body d chunk_header_off hdr i (some wire) = do
  skip_pad hdr.size
  make_packet d chunk_header_off i wire

unfoldable pub packet_round : PacketState → ℕ → ChunkHeader → ℕ → M Round
packet_round d chunk_header_off hdr i = do
  body ← read_body_bounded hdr.size
  finish_body d chunk_header_off hdr i body

abbrev pub same_suffix : ℕ × ℕ → ℕ × ℕ → Bool
same_suffix p q = (p.0 == q.0) && (p.1 == q.1)

abbrev pub suffix_of : Fourcc → ℕ × ℕ
suffix_of id = (id.b2, id.b3)

abbrev pub pc_suffix : ℕ × ℕ
pc_suffix = (b'p', b'c')

abbrev pub tx_suffix : ℕ × ℕ
tx_suffix = (b't', b'x')

unfoldable pub accepts : ℕ × ℕ → ℕ × ℕ → Bool
accepts expected suffix =
    same_suffix suffix expected
    || (same_suffix suffix (b'd', b'c')
        || (same_suffix suffix (b'd', b'b') || same_suffix suffix (b'w', b'b')))

-- A palette change, and a text chunk of a stream that is no text stream.
unfoldable pub palette_round : PacketState → ChunkHeader → ℕ → M Round
palette_round d hdr i = do
  st ← sideband_round d.sideband_data_loaded hdr i d.palette_change
  pure (again (record d { palette_change = st }))

unfoldable pub text_round : PacketState → ChunkHeader → ℕ → M Round
text_round d hdr i = do
  st ← sideband_round d.sideband_data_loaded hdr i d.text_chunk
  pure (again (record d { text_chunk = st }))

unfoldable pub is_sideband_text : ℕ × ℕ → ℕ × ℕ → Bool
is_sideband_text expected suffix =
    same_suffix suffix tx_suffix && not (same_suffix expected tx_suffix)

-- A chunk of stream `i`, by its suffix.
unfoldable pub suffix_round : PacketState → ℕ → ChunkHeader → ℕ → ℕ × ℕ → M Round
unfolding accepts is_sideband_text palette_round text_round
suffix_round d chunk_header_off hdr i expected =
    if same_suffix (suffix_of hdr.id) pc_suffix
    then palette_round d hdr i
    else if is_sideband_text expected (suffix_of hdr.id)
    then text_round d hdr i
    else if accepts expected (suffix_of hdr.id)
    then packet_round d chunk_header_off hdr i
    else skip_round d hdr

unfoldable pub stream_round : PacketState → ℕ → ChunkHeader → Option ℕ → M Round
stream_round d chunk_header_off hdr none = skip_round d hdr
stream_round d chunk_header_off hdr (some i) =
    if ltb i (length d.streams)
    then (do
      expected ← lift (elem_at d.packet_chunk_suffix i)
      suffix_round d chunk_header_off hdr i expected)
    else skip_round d hdr

unfoldable pub is_junk : Fourcc → Bool
is_junk id =
    same_fourcc id (fourcc b'J' b'U' b'N' b'K') || same_fourcc id (fourcc b'j' b'u' b'n' b'k')

-- A chunk that is no list, whose body begins at `body_start`.
unfoldable pub body_round : PacketState → ℕ → ℕ → ChunkHeader → ℕ → M Round
unfolding is_junk
body_round d chunk_header_off current_end hdr body_start =
    if ltb current_end (body_start + hdr.size)
    then fail eof
    else if is_junk hdr.id
    then skip_round d hdr
    else stream_round d chunk_header_off hdr (parse_stream_index hdr.id)

unfoldable pub header_round : PacketState → ℕ → ℕ → Option ChunkHeader → M Round
header_round d chunk_header_off current_end none = fail eof
header_round d chunk_header_off current_end (some hdr) =
    if same_fourcc hdr.id list
    then (do form ← read_form_type; pure (again d))
    else (do body_start ← stream_position; body_round d chunk_header_off current_end hdr body_start)

unfoldable pub next_segment : PacketState → Option (ℕ × ℕ) → M Round
next_segment d none = fail eof
next_segment d (some segment) = do
  seek_start segment.0
  pure (again (record d { current_segment = suc d.current_segment }))

unfoldable pub segment_round : (ℕ → ℕ) → PacketState → ℕ → Option (ℕ × ℕ) → M Round
segment_round grant d chunk_header_off none = fail eof
segment_round grant d chunk_header_off (some segment) =
    if leb segment.1 chunk_header_off
    then next_segment d (get_elem? d.movi_segments (suc d.current_segment))
    else (do
      found ← read_chunk_header_lenient grant
      header_round d chunk_header_off segment.1 found)

-- One round of the loop.
unfoldable pub round : (ℕ → ℕ) → PacketState → M Round
round grant d = do
  chunk_header_off ← stream_position
  segment_round grant d chunk_header_off (get_elem? d.movi_segments d.current_segment)

-- The loop, on as many rounds as `fuel` (`panic` stands for the fuel's end).
unfoldable pub rounds : (ℕ → ℕ) → ℕ → PacketState → M (Packet × PacketState)
rounds grant zero d c = panic
rounds grant (suc fuel) d c = elim (round grant d c) [
  | ok (again d', c') ↦ rounds grant fuel d' c'
  | ok (deliver p d', c') ↦ ok ((p, d'), c')
  | err e ↦ err e
  | panic ↦ panic
]

unfoldable pub prepare : PacketState → PacketState
prepare d =
    if length d.per_stream_counter == length d.streams
    then d
    else record d { per_stream_counter = replicate (length d.streams) 0 }

-- A bound on the rounds that a call needs: a round that goes on passes over eight bytes, or opens
-- another segment.
unfoldable pub enough : PacketState → Cursor → ℕ
enough d c =
    suc (
      (length d.movi_segments - d.current_segment) * suc (length c.bytes)
      + (length c.bytes - c.pos))

unfoldable pub next_packet : (ℕ → ℕ) → PacketState → M (Packet × PacketState)
unfolding rounds enough prepare
next_packet grant d c = rounds grant (enough d c) (prepare d) c
