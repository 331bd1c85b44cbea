-- ===== src/Packets/Reading.antt =====
-- src/demuxer.rs: `AviDemuxer::next_packet` in front of a packet chunk.
use oxideav_avi.Base.{
  ℕ, zero, suc, ◌+◌, ◌%◌, ◌^◌, ◌≤◌, ◌<◌, ◌≡◌, refl, sym, ap, List, [], ◌∷◌, ◌++◌, none, some, ok,
  true, false, length, get_or, set, arith, ltb, ◌==◌, Bool-cases, inl, inr, lt→ltb, le→ltb,
  drop-append, take-append,
}
use oxideav_avi.Bytes.{le32, Fourcc, fourcc_bytes, same_fourcc, IsU32, of_le32-le32}
use oxideav_avi.Io.{Cursor, ◌>>=◌, stream_position, seek_forward}
use oxideav_avi.Riff.{ChunkHeader, list, header_of, read_chunk_header_lenient, skip_pad, u32_max}
use oxideav_avi.Riff.Read.{read_chunk_header_lenient-eq}
use oxideav_avi.Riff.Write.{chunk_bytes}
use oxideav_avi.Seek.{StreamInfo, elem_at}
use oxideav_avi.Stream.{parse_stream_index}
use oxideav_avi.Packets.{PacketState, Round, deliver, packet_time_delta, read_body_bounded}
use oxideav_avi.Packets.Loop.{
  unpack_with, advance, stamp, make_packet, finish_body, packet_round, suffix_round, same_suffix,
  suffix_of, pc_suffix, accepts, is_sideband_text, stream_round, body_round, is_junk, header_round,
}

-- A packet chunk.
pub record Item : Type 0 where
  pub id : Fourcc
  pub stream : ℕ
  pub body : List ℕ

-- The demuxer takes the chunk for a packet of that stream, and keeps its bytes as they are.
pub record IsPacketOf (d : PacketState) (it : Item) : Type 0 where
  pub info : StreamInfo
  pub suffix : ℕ × ℕ
  pub fits : length it.body ≤ u32_max
  pub no_list : same_fourcc it.id list ≡ false
  pub no_junk : is_junk it.id ≡ false
  pub names_stream : parse_stream_index it.id ≡ some it.stream
  pub known : elem_at d.streams it.stream ≡ ok info
  pub expected : elem_at d.packet_chunk_suffix it.stream ≡ ok suffix
  pub no_palette : same_suffix (suffix_of it.id) pc_suffix ≡ false
  pub no_text : is_sideband_text suffix (suffix_of it.id) ≡ false
  pub accepted : accepts suffix (suffix_of it.id) ≡ true
  pub plain : get_or d.raw_layouts it.stream none ≡ none

abbrev pub item_bytes : Item → List ℕ
item_bytes it = chunk_bytes it.id (length it.body) it.body

abbrev pub header : Item → ChunkHeader
header it = record { id = it.id; size = length it.body }

abbrev cursor : List ℕ → ℕ → Cursor
cursor bytes pos = record { bytes = bytes; pos = pos }

pub read_chunk_header_lenient-append :
    (grant : ℕ → ℕ) (pre rest : List ℕ) (id : Fourcc) (n : ℕ)
    → IsU32 n
    → read_chunk_header_lenient grant
        (cursor (pre ++ ((fourcc_bytes id ++ le32 n) ++ rest)) (length pre))
      ≡ ok (
        some (record { id = id; size = n }),
        cursor (pre ++ ((fourcc_bytes id ++ le32 n) ++ rest)) (length pre + 8),
      )
unfolding header_of
read_chunk_header_lenient-append grant pre rest id n h =
    rw
      (
        read_chunk_header_lenient-eq,
        drop-append (length pre) pre ((fourcc_bytes id ++ le32 n) ++ rest) refl,
      )
      (rw (of_le32-le32 n h) (ground arith))

read_body_bounded-append :
    (xs body rest : List ℕ) (p n : ℕ)
    → p ≡ length xs
    → n ≡ length body
    → read_body_bounded n (cursor (xs ++ (body ++ rest)) p)
      ≡ ok (some body, cursor (xs ++ (body ++ rest)) (p + n))
unfolding read_body_bounded
read_body_bounded-append xs body rest p n hp hn =
    let whole : ltb (length body) n ≡ false = le→ltb (length body) n (omega arith) in
    rw (drop-append p xs (body ++ rest) (sym hp), take-append n body rest (sym hn), whole)
      (ap (λ k. ok (some body, cursor (xs ++ (body ++ rest)) (p + k))) (sym hn))

skip_pad-pos : (n : ℕ) (c : Cursor) → skip_pad n c ≡ ok (tt, record c { pos = c.pos + n % 2 })
unfolding skip_pad seek_forward
skip_pad-pos n c = elim (Bool-cases (n % 2 == 1)) [
  | inl e ↦ rw e (ap (λ k. ok (tt, record c { pos = c.pos + k })) (ground arith))
  | inr e ↦ rw e (ap (λ k. ok (tt, record c { pos = k })) (ground arith))
]

-- The demuxer after the packet.
abbrev pub counted : PacketState → ℕ → ℕ → PacketState
counted d i next = record d { per_stream_counter = set d.per_stream_counter i next }

elem_at-lt : {A : Type 0} (xs : List A) (i : ℕ) (x : A) → elem_at xs i ≡ ok x → i < length xs
elem_at-lt [] i x e = ground arith
elem_at-lt (y ∷ ys) zero x e = omega arith
elem_at-lt (y ∷ ys) (suc i) x e = omega (arith, elem_at-lt ys i x e)

module _ (grant : ℕ → ℕ) (d : PacketState) (it : Item) (h : IsPacketOf d it) (counter : ℕ)
    (here : elem_at d.per_stream_counter it.stream ≡ ok counter)
    (small : counter + packet_time_delta h.info (length it.body) < 2 ^ 64) where
  abbrev after : PacketState
  after = counted d it.stream (counter + packet_time_delta h.info (length it.body))

  make_packet-eq :
      (off : ℕ) (c : Cursor)
      → make_packet d off it.stream it.body c
        ≡ ok (deliver (stamp d off it.stream it.body counter) after, c)
  unfolding make_packet unpack_with advance
  make_packet-eq off c =
      rw (h.plain, ◌>>=◌, h.known, ◌>>=◌, here, ◌>>=◌, lt→ltb _ _ small, ◌>>=◌) refl

  module _ (bytes xs rest : List ℕ) (off : ℕ) (there : bytes ≡ xs ++ (it.body ++ rest))
      (place : off + 8 ≡ length xs) where
    abbrev n : ℕ
    n = length it.body

    abbrev behind : Cursor
    behind = cursor bytes (off + 8 + n + n % 2)

    abbrev delivered : Round
    delivered = deliver (stamp d off it.stream it.body counter) after

    packet_round-eq :
        packet_round d off (header it) it.stream (cursor bytes (off + 8)) ≡ ok (delivered, behind)
    unfolding packet_round finish_body
    packet_round-eq =
        rw
          (
            there,
            read_body_bounded-append xs it.body rest (off + 8) n place refl,
            ◌>>=◌,
            skip_pad-pos,
            ◌>>=◌,
          )
          (make_packet-eq off (cursor (xs ++ (it.body ++ rest)) (off + 8 + n + n % 2)))

    suffix_round-eq :
        suffix_round d off (header it) it.stream h.suffix (cursor bytes (off + 8))
        ≡ ok (delivered, behind)
    unfolding suffix_round
    suffix_round-eq = rw (h.no_palette, h.no_text, h.accepted) packet_round-eq

    stream_round-eq :
        stream_round d off (header it) (parse_stream_index it.id) (cursor bytes (off + 8))
        ≡ ok (delivered, behind)
    unfolding stream_round
    stream_round-eq =
        let in_range : ltb it.stream (length d.streams) ≡ true =
          lt→ltb _ _ (elem_at-lt d.streams it.stream h.info h.known) in
        rw (h.names_stream, in_range, h.expected, ◌>>=◌) suffix_round-eq

    pub header_round-eq :
        (current_end : ℕ)
        → off + 8 + n ≤ current_end
        → header_round d off current_end (some (header it)) (cursor bytes (off + 8))
          ≡ ok (delivered, behind)
    unfolding header_round body_round stream_position
    header_round-eq current_end inside =
        let room : ltb current_end (off + 8 + n) ≡ false =
          le→ltb current_end (off + 8 + n) inside in
        rw (h.no_list, ◌>>=◌, room, h.no_junk) stream_round-eq
