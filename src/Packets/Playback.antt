-- ===== src/Packets/Playback.antt =====
-- src/demuxer.rs: `AviDemuxer::next_packet` over a whole `movi` body of packet chunks gives their packets in
-- order, then the end of the file.
use oxideav_avi.Base.{
  ℕ, zero, suc, ◌+◌, ◌^◌, ◌≤◌, ◌<◌, ◌≡◌, refl, sym, ◌∙◌, ap, List, [], ◌∷◌, ◌++◌, Option, none,
  some, ok, err, panic, eof, Outcome, Error, true, length, get_elem?, arith, leb, le→leb,
  append_assoc, length-append,
}
use mathlib.Core.Path.{subst}
use oxideav_avi.Io.{Cursor, M, ◌>>=◌, stream_position}
use oxideav_avi.Seek.{StreamInfo, elem_at}
use oxideav_avi.Packets.{PacketState, Packet, packet_time_delta}
use oxideav_avi.Packets.Loop.{
  stamp, next_segment, segment_round, round, rounds, enough, next_packet,
}
use oxideav_avi.Packets.Delivery.{packet_time_delta-le}
use oxideav_avi.Packets.Reading.{Item, IsPacketOf, item_bytes}
use oxideav_avi.Packets.Sequence.{at, item_size, length-item_bytes, next_packet-eq, prepare-same}
use oxideav_avi.Packets.Movi.{
  next_packets, movi_bytes, counter_before, tick, passed, packets_of, all_passed, budget, Follows,
  items-counted, length-set, low-set, elem_at-get_or, get_or-All,
}

abbrev ok_value : Outcome StreamInfo → Option StreamInfo
ok_value (ok s) = some s
ok_value (err e) = none
ok_value panic = none

known_stream :
    (xs : List StreamInfo) (i : ℕ) (s : StreamInfo)
    → elem_at xs i ≡ ok s
    → (get_elem? xs i ≡ some s) × (i < length xs)
known_stream [] i s e = ground arith
known_stream (x ∷ xs) zero s e =
    (subst (λ o. get_elem? (x ∷ xs) 0 ≡ ok_value o) e refl, omega arith)
known_stream (x ∷ xs) (suc i) s e = let r = known_stream xs i s e in (r.0, omega (arith, r.1))

module _ (d : PacketState) (segment : ℕ × ℕ) (it : Item) (its : List Item)
    (f : Follows d segment (it ∷ its)) where
  abbrev first : IsPacketOf d it
  first = f.items.0

  in_range : it.stream < length d.streams
  in_range = (known_stream d.streams it.stream first.info first.known).1

  tick-eq : tick d it ≡ packet_time_delta first.info (length it.body)
  tick-eq = rw (tick, (known_stream d.streams it.stream first.info first.known).0) refl

  tick-le : tick d it ≤ suc (length it.body)
  tick-le = rw tick-eq (packet_time_delta-le first.info (length it.body))

  counter-eq : elem_at d.per_stream_counter it.stream ≡ ok (counter_before d it)
  counter-eq = elem_at-get_or d.per_stream_counter it.stream (length d.streams) f.counters in_range

  counter-low : counter_before d it + tick d it < 2 ^ 64
  unfolding budget
  counter-low =
      let low =
        get_or-All (λ k. k + budget (it ∷ its) < 2 ^ 64) d.per_stream_counter it.stream
          (rw f.counters in_range) f.low in
      omega (arith, tick-le)

  Follows-passed : Follows (passed d it) segment its
  unfolding budget
  Follows-passed = record {
    items = items-counted d it.stream (counter_before d it + tick d it) its f.items.1;
    current = f.current;
    counters = length-set d.per_stream_counter it.stream _ ∙ f.counters;
    low =
        low-set (budget (it ∷ its)) (budget its) (tick d it) (2 ^ 64) d.per_stream_counter it.stream
          (omega (arith, tick-le)) f.low;
  }

  next_packet-first :
      (grant : ℕ → ℕ) (pre rest : List ℕ)
      → length pre + 8 + length it.body ≤ segment.1
      → next_packet grant d (at (pre ++ (item_bytes it ++ rest)) (length pre))
        ≡ ok (
          (stamp d (length pre) it.stream it.body (counter_before d it), passed d it),
          at (pre ++ (item_bytes it ++ rest)) (length pre + item_size it),
        )
  next_packet-first grant pre rest inside = rw tick-eq (
      next_packet-eq grant d it first (counter_before d it) counter-eq (rw (← tick-eq) counter-low)
        segment f.current pre rest inside f.counters)

-- The same run, its file and its places written another way.
resume :
    {A : Type 0} (m : M A) (r : ℕ → A) {b b' : List ℕ} {p p' q q' : ℕ}
    → b ≡ b'
    → p ≡ p'
    → q ≡ q'
    → m (at b p) ≡ ok (r p, at b q)
    → m (at b' p') ≡ ok (r p', at b' q')
resume m r eb ep eq h = rw (← eb, ← ep, ← eq) h

next_packets-step :
    (grant : ℕ → ℕ) (n : ℕ) (d d₁ d₂ : PacketState) (p : Packet) (ps : List Packet)
    (c c₁ c₂ : Cursor)
    → next_packet grant d c ≡ ok ((p, d₁), c₁)
    → next_packets grant n d₁ c₁ ≡ ok ((ps, d₂), c₂)
    → next_packets grant (suc n) d c ≡ ok ((p ∷ ps, d₂), c₂)
unfolding next_packets
next_packets-step grant n d d₁ d₂ p ps c c₁ c₂ e₁ e₂ = rw (e₁, ◌>>=◌, e₂, ◌>>=◌) refl

-- From the start of a run of packet chunks in the current segment, as many calls as there are chunks
-- return the packets of those chunks in order, each with the body, the pts that its stream's counter
-- has reached and the keyframe flag of its offset, and leave the demuxer behind the last. Each chunk
-- fits its size field, has the FourCC of a stream and is no side-band chunk, the stream's frames are
-- kept as they are, and no counter overflows on the way.
pub next_packets-packets_of :
    (grant : ℕ → ℕ) (segment : ℕ × ℕ) (its : List Item) (d : PacketState) (pre post : List ℕ)
    → Follows d segment its
    → length pre + length (movi_bytes its) ≤ segment.1
    → next_packets grant (length its) d (at (pre ++ (movi_bytes its ++ post)) (length pre))
      ≡ ok (
        (packets_of d (length pre) its, all_passed d its),
        at (pre ++ (movi_bytes its ++ post)) (length pre + length (movi_bytes its)),
      )
unfolding next_packets packets_of all_passed movi_bytes
next_packets-packets_of grant segment [] d pre post f inside =
    let e : length pre + 0 ≡ length pre = omega arith in rw e refl
next_packets-packets_of grant segment (it ∷ its) d pre post f inside =
    let rest = movi_bytes its ++ post in
    let k = length-item_bytes it in
    let total = length-append (item_bytes it) (movi_bytes its) in
    let place : length (pre ++ item_bytes it) ≡ length pre + item_size it =
      omega (arith, length-append pre (item_bytes it)) in
    let last : length (pre ++ item_bytes it) + length (movi_bytes its)
        ≡ length pre + length (item_bytes it ++ movi_bytes its) =
      omega arith in
    let ih =
      next_packets-packets_of grant segment its (passed d it) (pre ++ item_bytes it) post
        (Follows-passed d segment it its f) (omega arith) in
    let whole : pre ++ (item_bytes it ++ rest)
        ≡ pre ++ ((item_bytes it ++ movi_bytes its) ++ post) =
      ap (λ t. pre ++ t) (sym (append_assoc (item_bytes it) (movi_bytes its) post)) in
    subst
      (λ b.
        next_packets grant (suc (length its)) d (at b (length pre))
        ≡ ok (
          (packets_of d (length pre) (it ∷ its), all_passed d (it ∷ its)),
          at b (length pre + length (item_bytes it ++ movi_bytes its)),
        ))
      whole
      (next_packets-step grant (length its) d (passed d it) _ _ _ _ _ _
        (next_packet-first d segment it its f grant pre rest (omega arith))
        (resume (next_packets grant (length its) (passed d it))
          (λ k. (packets_of (passed d it) k its, all_passed (passed d it) its))
          (append_assoc pre (item_bytes it) rest) place last ih))

rounds-err :
    (grant : ℕ → ℕ) (fuel : ℕ) (d : PacketState) (c : Cursor) (e : Error)
    → round grant d c ≡ err e
    → rounds grant (suc fuel) d c ≡ err e
unfolding rounds
rounds-err grant fuel d c e h = rw (rounds, h) refl

-- At the end of the last segment a call returns `Eof`.
pub next_packet-eof :
    (grant : ℕ → ℕ) (d : PacketState) (c : Cursor) (segment : ℕ × ℕ)
    → get_elem? d.movi_segments d.current_segment ≡ some segment
    → get_elem? d.movi_segments (suc d.current_segment) ≡ none
    → segment.1 ≤ c.pos
    → length d.per_stream_counter ≡ length d.streams
    → next_packet grant d c ≡ err eof
unfolding next_packet enough round segment_round next_segment stream_position
next_packet-eof grant d c segment current no_more past k =
    let over : leb segment.1 c.pos ≡ true = le→leb segment.1 c.pos past in
    rw (prepare-same d k) (rounds-err grant _ d c eof (rw (◌>>=◌, current, over, no_more) refl))
