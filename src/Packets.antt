-- ===== src/Packets.antt =====
-- `AviDemuxer::next_packet` of src/demuxer.rs with the state that it reads and changes: the walk over the
-- chunks of the `movi` segments up to the next packet. What a call has changed before it returns an
-- error is left out.
pub mod Loop
pub mod Ends
pub mod Keyframes
pub mod Delivery
pub mod Rounds
pub mod Total
pub mod Reading
pub mod Sequence
pub mod Movi
pub mod Playback
use oxideav_avi.Base.{
  ℕ, zero, suc, ◌+◌, ◌-◌, ◌*◌, ◌%◌, ◌^◌, List, [], ◌∷◌, ◌++◌, Option, none, some, ok, err, panic,
  length, take, drop, replicate, get_elem?, get_or, set, min, leb, ltb, ◌==◌, if◌then◌else◌, Bool,
  true, false, ◌&&◌, ◌||◌, not, eof, Outcome,
}
use oxideav_avi.Bytes.{Fourcc, fourcc, same_fourcc}
use oxideav_avi.Io.{Cursor, M, ◌>>=◌, ◌>>◌, pure, fail, stream_position, seek_start, remaining}
use oxideav_avi.Riff.{
  ChunkHeader, list, u32_max, read_chunk_header_lenient, read_form_type, skip_chunk, skip_pad,
}
use oxideav_avi.RawDib.{RawLayout}
use oxideav_avi.RawDib.Frames.{unpack}
use oxideav_avi.Seek.{
  StreamInfo, time_delta_divisor, time_delta_with_divisor, zero_i64, update, elem_at,
}
use oxideav_avi.Stream.{parse_stream_index}

-- The side-band chunks of one kind: how many of each stream, and their bodies.
pub record SidebandStore : Type 0 where
  pub counts : List ℕ
  pub bodies : List (List (List ℕ))

-- `keyframe_by_offset`, a map, is a list of its entries, the one that counts first.
pub record PacketState : Type 0 where
  pub streams : List StreamInfo
  pub packet_chunk_suffix : List (ℕ × ℕ)
  pub movi_segments : List (ℕ × ℕ)
  pub current_segment : ℕ
  pub per_stream_counter : List ℕ
  pub palette_change : SidebandStore
  pub text_chunk : SidebandStore
  pub sideband_data_loaded : Bool
  pub keyframe_by_offset : List (ℕ × Bool)
  pub raw_layouts : List (Option RawLayout)

pub record Packet : Type 0 where
  pub stream_index : ℕ
  pub pts : ℕ
  pub dts : ℕ
  pub keyframe : Bool
  pub payload : List ℕ

-- What one round of the loop comes to: `continue`, or `return Ok(pkt)`.
pub data Round : Type 0 where
  again : PacketState → Round
  deliver : Packet → PacketState → Round

unfoldable pub packet_time_delta : StreamInfo → ℕ → ℕ
unfolding time_delta_divisor time_delta_with_divisor
packet_time_delta stream payload_len =
    time_delta_with_divisor (time_delta_divisor stream) payload_len

-- `Take::read_to_end`, then the check of the length: `none` is the error `UnexpectedEof`, with which the
-- reader stands at the end.
unfoldable pub read_body_bounded : ℕ → M (Option (List ℕ))
read_body_bounded size c =
    let buf = take size (remaining c) in
    let c' = record c { pos = c.pos + length buf } in
    if ltb (length buf) size then ok (none, c') else ok (some buf, c')

-- An outcome that does not touch the input.
abbrev pub lift : {A : Type 0} → Outcome A → M A
lift (ok a) c = ok (a, c)
lift (err e) c = err e
lift panic c = panic

abbrev pub resize : {A : Type 0} → ℕ → A → List A → List A
resize n a xs = xs ++ replicate (n - length xs) a

-- `counter as i64`, as its value plus 2 ^ 63.
abbrev pub as_i64 : ℕ → ℕ
as_i64 n = (n + zero_i64) % 2 ^ 64

unfoldable pub keyframe_at : List (ℕ × Bool) → ℕ → Bool
keyframe_at [] off = true
keyframe_at (e ∷ es) off = let rest = keyframe_at es off in if e.0 == off then e.1 else rest

unfoldable pub count_chunk : ℕ → SidebandStore → SidebandStore
count_chunk s st = record st {
  counts = update s (λ n. min (n + 1) u32_max) (resize (suc s) 0 st.counts);
}

unfoldable pub make_room : ℕ → SidebandStore → SidebandStore
make_room s st = record st { bodies = resize (suc s) [] st.bodies }

unfoldable pub push_body : ℕ → List ℕ → SidebandStore → SidebandStore
push_body s body st = record st {
  bodies = update s (λ of_stream. of_stream ++ body ∷ []) st.bodies;
}

unfoldable pub buffer_body : ChunkHeader → ℕ → SidebandStore → Option (List ℕ) → M SidebandStore
buffer_body hdr s st (some body) = do skip_pad hdr.size; pure (push_body s body st)
buffer_body hdr s st none = do skip_chunk hdr; pure st

-- A side-band chunk: counted, and its body kept unless `open` has loaded it.
unfoldable pub sideband_round : Bool → ChunkHeader → ℕ → SidebandStore → M SidebandStore
unfolding count_chunk make_room push_body buffer_body
sideband_round true hdr s st = do skip_chunk hdr; pure (count_chunk s st)
sideband_round false hdr s st = do
  body ← read_body_bounded hdr.size
  buffer_body hdr s (make_room s (count_chunk s st)) body
