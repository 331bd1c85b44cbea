-- ===== src/Packets/Sequence.antt =====
-- src/demuxer.rs: the calls of `AviDemuxer::next_packet` over a `movi` body of packet chunks.
use oxideav_avi.Base.{
  ℕ, suc, ◌+◌, ◌%◌, ◌^◌, ◌≤◌, ◌<◌, ◌≡◌, refl, ◌∙◌, ap, List, ◌++◌, some, ok, false, length,
  get_elem?, arith, leb, append_assoc, length-append, ==_iff,
}
use oxideav_avi.Bytes.{le32, fourcc_bytes}
use oxideav_avi.Io.{Cursor, ◌>>=◌, stream_position}
use oxideav_avi.Riff.Write.{pad, length-pad}
use oxideav_avi.Seek.{elem_at}
use oxideav_avi.Packets.{PacketState, Packet, deliver, packet_time_delta}
use oxideav_avi.Packets.Loop.{stamp, segment_round, round, rounds, prepare, enough, next_packet}
use oxideav_avi.Packets.Reading.{
  Item, IsPacketOf, item_bytes, counted, read_chunk_header_lenient-append, header_round-eq,
}

abbrev pub at : List ℕ → ℕ → Cursor
at bytes pos = record { bytes = bytes; pos = pos }

-- The size of a chunk in the file.
abbrev pub item_size : Item → ℕ
item_size it = 8 + length it.body + length it.body % 2

pub length-item_bytes : (it : Item) → length (item_bytes it) ≡ item_size it
length-item_bytes it = omega (
  arith,
  length-append (fourcc_bytes it.id ++ le32 (length it.body)) (it.body ++ pad (length it.body)),
  length-append it.body (pad (length it.body)),
  length-pad (length it.body),
)

rounds-deliver :
    (grant : ℕ → ℕ) (fuel : ℕ) (d : PacketState) (c : Cursor) (p : Packet) (d' : PacketState)
    (c' : Cursor)
    → round grant d c ≡ ok (deliver p d', c')
    → rounds grant (suc fuel) d c ≡ ok ((p, d'), c')
unfolding rounds
rounds-deliver grant fuel d c p d' c' e = rw (rounds, e) refl

pub prepare-same :
    (d : PacketState) → length d.per_stream_counter ≡ length d.streams → prepare d ≡ d
unfolding prepare
prepare-same d k = rw ((==_iff (length d.per_stream_counter) (length d.streams)).1 k) refl

module _ (grant : ℕ → ℕ) (d : PacketState) (it : Item) (h : IsPacketOf d it) (counter : ℕ)
    (here : elem_at d.per_stream_counter it.stream ≡ ok counter)
    (small : counter + packet_time_delta h.info (length it.body) < 2 ^ 64) (segment : ℕ × ℕ)
    (current : get_elem? d.movi_segments d.current_segment ≡ some segment) (pre rest : List ℕ)
    (inside : length pre + 8 + length it.body ≤ segment.1) where
  abbrev bytes : List ℕ
  bytes = pre ++ (item_bytes it ++ rest)

  abbrev next_state : PacketState
  next_state = counted d it.stream (counter + packet_time_delta h.info (length it.body))

  round-eq :
      round grant d (at bytes (length pre))
      ≡ ok (
        deliver (stamp d (length pre) it.stream it.body counter) next_state,
        at bytes (length pre + item_size it),
      )
  unfolding round segment_round stream_position
  round-eq =
      let n = length it.body in
      let head = fourcc_bytes it.id ++ le32 n in
      let e₁ : bytes ≡ pre ++ (head ++ ((it.body ++ pad n) ++ rest)) = simp append_assoc in
      let e₂ : bytes ≡ (pre ++ head) ++ (it.body ++ (pad n ++ rest)) = simp append_assoc in
      let open_still : leb segment.1 (length pre) ≡ false = ground arith in
      let p : length pre + 8 ≡ length (pre ++ head) = omega (arith, length-append pre head) in
      let q : length pre + 8 + n + n % 2 ≡ length pre + item_size it = omega arith in
      let u32 : n < 2 ^ 32 = let f = h.fits in omega arith in
      rw
        (
          ◌>>=◌,
          current,
          open_still,
          e₁,
          read_chunk_header_lenient-append grant pre ((it.body ++ pad n) ++ rest) it.id n u32,
          ◌>>=◌,
          ← e₁,
        )
        (header_round-eq grant d it h counter here small bytes (pre ++ head) (pad n ++ rest)
            (length pre) e₂ p segment.1 inside
          ∙ ap
              (λ k.
                ok
                  (deliver (stamp d (length pre) it.stream it.body counter) next_state, at bytes k))
              q)

  -- In front of a packet chunk of the current segment, `next_packet` returns that packet and stands behind
  -- the chunk.
  pub next_packet-eq :
      length d.per_stream_counter ≡ length d.streams
      → next_packet grant d (at bytes (length pre))
        ≡ ok (
          (stamp d (length pre) it.stream it.body counter, next_state),
          at bytes (length pre + item_size it),
        )
  unfolding next_packet enough
  next_packet-eq k =
      rw (prepare-same d k) (rounds-deliver grant _ d (at bytes (length pre)) _ _ _ round-eq)
