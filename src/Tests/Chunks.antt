-- ===== src/Tests/Chunks.antt =====
-- Chunks and FourCCs at concrete inputs.
use oxideav_avi.Base.{ℕ, ◌≡◌, ◌<◌, ◌↔◌, refl, List, [], ◌∷◌, some, ok, arith}
use oxideav_avi.Bytes.{Fourcc, fourcc, fourcc_bytes}
use oxideav_avi.Io.{Cursor, ◌>>=◌, ◌>>◌, write_all, seek_start}
use oxideav_avi.Riff.{
  u32_max, write_chunk, write_list_chunk, begin_chunk, begin_list, finish_chunk, read_chunk_header,
  read_chunk_header_lenient,
}
use oxideav_avi.Riff.Write.{at_end, write_chunk-eq, stream-eq-write_chunk}
use oxideav_avi.Riff.Read.{finish_with, lenient, read_chunk_header-eq, read_chunk_header_lenient-eq}
use oxideav_avi.Riff.RoundTrip.{read_chunk, read_chunk-write_chunk}
use oxideav_avi.Stream.{packet_fourcc_for, parse_stream_index}
use oxideav_avi.Stream.Digits.{parse-packet_fourcc_for_iff}

abbrev movi : Fourcc
movi = fourcc b'm' b'o' b'v' b'i'

abbrev dc_00 : Fourcc
dc_00 = fourcc b'0' b'0' b'd' b'c'

abbrev dc_12 : Fourcc
dc_12 = fourcc b'1' b'2' b'd' b'c'

abbrev odd_body : List ℕ
odd_body = 7 ∷ 8 ∷ 9 ∷ []

abbrev one_by_one : ℕ → ℕ
one_by_one n = 1

abbrev some_bytes : Cursor
some_bytes = record { bytes = 48 ∷ 48 ∷ 100 ∷ 99 ∷ 3 ∷ 0 ∷ 0 ∷ 0 ∷ 7 ∷ []; pos = 0 }

abbrev short_bytes : Cursor
short_bytes = record { bytes = 48 ∷ 48 ∷ 100 ∷ []; pos = 0 }

read_chunk-write_chunk_example :
    (do write_chunk dc_00 odd_body; seek_start 2; read_chunk one_by_one) (at_end (1 ∷ 2 ∷ []))
    ≡ ok (
      (record { id = dc_00; size = 3 }, odd_body),
      at_end (1 ∷ 2 ∷ 48 ∷ 48 ∷ 100 ∷ 99 ∷ 3 ∷ 0 ∷ 0 ∷ 0 ∷ 7 ∷ 8 ∷ 9 ∷ 0 ∷ []),
    )
read_chunk-write_chunk_example =
    read_chunk-write_chunk one_by_one (1 ∷ 2 ∷ []) dc_00 odd_body (omega arith)

stream-eq-write_chunk_example :
    (do off ← begin_chunk dc_00; write_all odd_body; finish_chunk off) (at_end (5 ∷ []))
    ≡ write_chunk dc_00 odd_body (at_end (5 ∷ []))
stream-eq-write_chunk_example = stream-eq-write_chunk (5 ∷ []) dc_00 odd_body

write_chunk-eq_example :
    write_chunk dc_00 odd_body (at_end (5 ∷ []))
    ≡ ok (tt, at_end (5 ∷ 48 ∷ 48 ∷ 100 ∷ 99 ∷ 3 ∷ 0 ∷ 0 ∷ 0 ∷ 7 ∷ 8 ∷ 9 ∷ 0 ∷ []))
write_chunk-eq_example = write_chunk-eq (5 ∷ []) dc_00 odd_body

read_chunk_header-eq_example :
    read_chunk_header one_by_one some_bytes
    ≡ ok (some (record { id = dc_00; size = 3 }), record some_bytes { pos = 8 })
unfolding oxideav_avi.Riff.header_of oxideav_avi.Bytes.of_le32
read_chunk_header-eq_example = read_chunk_header-eq one_by_one some_bytes

read_chunk_header_lenient-eq_example :
    read_chunk_header_lenient one_by_one short_bytes ≡ finish_with lenient [] short_bytes
read_chunk_header_lenient-eq_example = read_chunk_header_lenient-eq one_by_one short_bytes

named_12 : packet_fourcc_for 12 b'd' b'c' ≡ ok dc_12
unfolding packet_fourcc_for
named_12 = refl

parse-packet_fourcc_for_iff_example : (parse_stream_index dc_12 ≡ some 12) ↔ (12 < 10)
parse-packet_fourcc_for_iff_example =
    parse-packet_fourcc_for_iff 12 b'd' b'c' dc_12 (omega arith) named_12
