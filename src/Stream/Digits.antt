-- ===== src/Stream/Digits.antt =====
-- The two spellings of a stream number against each other: the muxer writes it in decimal digits and
-- the demuxer reads them as hexadecimal.
use oxideav_avi.Base.{ℕ, ◌+◌, ◌*◌, ◌/◌, ◌%◌, ◌<◌, ◌≡◌, ◌↔◌, some, ok, arith}
use oxideav_avi.Bytes.{Fourcc, fourcc}
use oxideav_avi.Stream.{packet_fourcc_for, parse_stream_index}

-- What the demuxer makes of the FourCC that the muxer gives stream `index`: the decimal digits, read
-- to base 16. The muxer admits at most 99 streams.
pub parse-packet_fourcc_for :
    (index s0 s1 : ℕ)
    → index < 100
    → (name : Fourcc) × (packet_fourcc_for index s0 s1 ≡ ok name)
      × (parse_stream_index name ≡ some (index / 10 * 16 + index % 10))
unfolding packet_fourcc_for parse_stream_index
parse-packet_fourcc_for index s0 s1 h =
    (fourcc (index / 10 % 256 + b'0') (index % 10 % 256 + b'0') s0 s1, ground arith, ground arith)

-- The demuxer gives a chunk of stream `index` back to that stream exactly if `index` is below ten.
pub parse-packet_fourcc_for_iff :
    (index s0 s1 : ℕ) (name : Fourcc)
    → index < 100
    → packet_fourcc_for index s0 s1 ≡ ok name
    → (parse_stream_index name ≡ some index) ↔ (index < 10)
unfolding packet_fourcc_for parse_stream_index
parse-packet_fourcc_for_iff index s0 s1 name h e = (λ same. ground arith, λ small. ground arith)
