-- ===== src/Packets/Total.antt =====
-- src/demuxer.rs: `AviDemuxer::next_packet` comes to an end, and what it returns.
use oxideav_avi.Base.{
  ℕ, zero, suc, ◌+◌, ◌-◌, ◌*◌, ◌≤◌, ◌<◌, ◌≡◌, refl, sym, ap, List, [], ◌∷◌, Option, none, some, ok,
  err, panic, Outcome, length, get_elem?, arith, leb, Bool-cases, inl, inr, ◌==◌,
}
use mathlib.Core.Path.{subst}
use oxideav_avi.Io.{Cursor, stream_position, seek_start}
use oxideav_avi.Riff.{ChunkHeader, read_chunk_header_lenient}
use oxideav_avi.Packets.{PacketState, Packet, Round, again, deliver}
use oxideav_avi.Packets.Ends.{
  Ends, Ends-bind, Ends-map, HeaderRead, at_end, found, read_chunk_header_lenient-Ends,
}
use oxideav_avi.Packets.Loop.{
  header_round, next_segment, segment_round, round, stamp, rounds, prepare, enough, next_packet,
}
use oxideav_avi.Packets.Delivery.{fixed, IsReady, Delivered, AfterHeader}
use oxideav_avi.Packets.Rounds.{found_round-Ends}

-- The segments that are left and the bytes that are left.
left : PacketState → Cursor → ℕ
left d c =
    (length d.movi_segments - d.current_segment) * suc (length c.bytes) + (length c.bytes - c.pos)

-- A round that goes on leaves less to do; one that returns delivers a packet.
abbrev Progress : PacketState → Cursor → Round → Cursor → Type 0
Progress d c (again d') c' = (c'.bytes ≡ c.bytes) × ((fixed d' ≡ fixed d) × (left d' c' < left d c))
Progress d c (deliver p d') c' = (c'.bytes ≡ c.bytes) × Delivered d c.bytes p d'

get_elem?-some :
    {A : Type 0} (xs : List A) (i : ℕ) (x : A) → get_elem? xs i ≡ some x → i < length xs
get_elem?-some [] i x e = ground arith
get_elem?-some (y ∷ ys) zero x e = omega arith
get_elem?-some (y ∷ ys) (suc i) x e = omega (arith, get_elem?-some ys i x e)

left-seek :
    (n k s l p q : ℕ)
    → suc k < n
    → l - q ≤ l
    → (n - suc k) * suc l + (l - q) < (n - k) * suc l + (l - p)
left-seek n k s l p q h r = let e : n - k ≡ suc (n - suc k) = omega arith in rw e (omega arith)

AfterHeader-Progress :
    (d : PacketState) (c : Cursor) (r : Round) (c' : Cursor)
    → c.pos + 8 ≤ length c.bytes
    → AfterHeader d c.bytes c.pos r c'
    → Progress d c r c'
unfolding left
AfterHeader-Progress d c (again d') c' room h =
    let past = h.0.1 in
    let same : length d'.movi_segments ≡ length d.movi_segments =
      ap (λ (x : PacketState). length x.movi_segments) h.1.0 in
    (h.0.0, (h.1.0, rw (same, h.1.1, h.0.0) (omega arith)))
AfterHeader-Progress d c (deliver p d') c' room h = h

next_segment-Ends :
    (d : PacketState) (c : Cursor)
    → Ends (Progress d c) (next_segment d (get_elem? d.movi_segments (suc d.current_segment)) c)
unfolding next_segment seek_start left
next_segment-Ends d c = go (get_elem? d.movi_segments (suc d.current_segment)) refl
  where
    go :
        (o : Option (ℕ × ℕ))
        → get_elem? d.movi_segments (suc d.current_segment) ≡ o
        → Ends (Progress d c) (next_segment d o c)
    go none e = tt
    go (some s) e =
        let more = get_elem?-some d.movi_segments (suc d.current_segment) s e in
        (
          refl,
          (refl, left-seek _ d.current_segment s.0 (length c.bytes) c.pos s.0 more (omega arith)),
        )

module _ (grant : ℕ → ℕ) (d : PacketState) (c : Cursor) (ready : IsReady (length c.bytes) d) where
  header_round-Ends :
      (current_end : ℕ) (o : Option ChunkHeader) (c' : Cursor)
      → HeaderRead c o c'
      → Ends (Progress d c) (header_round d c.pos current_end o c')
  unfolding header_round
  header_round-Ends current_end o c' (at_end c'') = tt
  header_round-Ends current_end o c' (found hdr there room) =
      Ends-map (AfterHeader d c.bytes c.pos) (Progress d c) _
        (λ r c'' h. AfterHeader-Progress d c r c'' room h)
        (found_round-Ends d c.bytes c.pos hdr ready there current_end)

  segment_round-Ends : (o : Option (ℕ × ℕ)) → Ends (Progress d c) (segment_round grant d c.pos o c)
  unfolding segment_round
  segment_round-Ends none = tt
  segment_round-Ends (some s) = elim (Bool-cases (leb s.1 c.pos)) [
    | inl e ↦ rw e (next_segment-Ends d c)
    | inr e ↦ rw e (
        Ends-bind (HeaderRead c) (Progress d c) (read_chunk_header_lenient grant) _ c
          (read_chunk_header_lenient-Ends grant c) (λ o c' h. header_round-Ends s.1 o c' h))
  ]

  round-Ends : Ends (Progress d c) (round grant d c)
  unfolding round stream_position
  round-Ends = segment_round-Ends (get_elem? d.movi_segments d.current_segment)

-- What the call returns: a packet of the file, and the demuxer with its counter advanced.
abbrev pub Result : PacketState → List ℕ → Packet × PacketState → Cursor → Type 0
Result d bytes (p, d') c' = (c'.bytes ≡ bytes) × Delivered d bytes p d'

thaw-IsReady : (n : ℕ) (d : PacketState) → IsReady n (fixed d) → IsReady n d
thaw-IsReady n d h = record {
  suffixes = h.suffixes;
  counters = h.counters;
  low = h.low;
  layouts = h.layouts;
}

freeze-IsReady : (n : ℕ) (d : PacketState) → IsReady n d → IsReady n (fixed d)
freeze-IsReady n d h = record {
  suffixes = h.suffixes;
  counters = h.counters;
  low = h.low;
  layouts = h.layouts;
}

freeze-Delivered :
    (d : PacketState) (bytes : List ℕ) (p : Packet) (d' : PacketState)
    → Delivered d bytes p d'
    → Delivered (fixed d) bytes p d'
unfolding stamp
freeze-Delivered d bytes p d' h = record {
  off = h.off;
  hdr = h.hdr;
  wire = h.wire;
  stream = h.stream;
  counter = h.counter;
  header_there = h.header_there;
  wire_there = h.wire_there;
  wire_whole = h.wire_whole;
  names_stream = h.names_stream;
  known = h.known;
  counted = h.counted;
  unpacked = h.unpacked;
  stamped = h.stamped;
  advanced = h.advanced;
}

thaw-Delivered :
    (d : PacketState) (bytes : List ℕ) (p : Packet) (d' : PacketState)
    → Delivered (fixed d) bytes p d'
    → Delivered d bytes p d'
unfolding stamp
thaw-Delivered d bytes p d' h = record {
  off = h.off;
  hdr = h.hdr;
  wire = h.wire;
  stream = h.stream;
  counter = h.counter;
  header_there = h.header_there;
  wire_there = h.wire_there;
  wire_whole = h.wire_whole;
  names_stream = h.names_stream;
  known = h.known;
  counted = h.counted;
  unpacked = h.unpacked;
  stamped = h.stamped;
  advanced = h.advanced;
}

Result-fixed :
    (d d₁ : PacketState) (bytes bytes₁ : List ℕ) (r : Packet × PacketState) (c' : Cursor)
    → fixed d₁ ≡ fixed d
    → bytes₁ ≡ bytes
    → Result d₁ bytes₁ r c'
    → Result d bytes r c'
Result-fixed d d₁ bytes bytes₁ r c' e f h =
    let h₁ : (c'.bytes ≡ bytes) × Delivered d₁ bytes r.0 r.1 =
      subst (λ b. (c'.bytes ≡ b) × Delivered d₁ b r.0 r.1) f h in
    (
      h₁.0,
      thaw-Delivered d bytes r.0 r.1
          (subst (λ x. Delivered x bytes r.0 r.1) e (freeze-Delivered d₁ bytes r.0 r.1 h₁.1)),
    )

-- The loop behind a round, when it ends wherever less is left.
rounds_after :
    (grant : ℕ → ℕ) (fuel : ℕ) (d : PacketState) (c : Cursor)
    → IsReady (length c.bytes) d
    → left d c < suc fuel
    → ((d' : PacketState) (c' : Cursor)
        → IsReady (length c'.bytes) d'
        → left d' c' < fuel
        → Ends (Result d' c'.bytes) (rounds grant fuel d' c'))
    → (o : Outcome (Round × Cursor)) → Ends (Progress d c) o
    → Ends (Result d c.bytes) (elim o [
      | ok (again d', c') ↦ rounds grant fuel d' c'
      | ok (deliver p d', c') ↦ ok ((p, d'), c')
      | err e ↦ err e
      | panic ↦ panic
    ])
rounds_after grant fuel d c ready h ih (ok (again d', c')) p =
    let less = p.1.1 in
    let ready₁ : IsReady (length c'.bytes) d' = thaw-IsReady (length c'.bytes) d' (
      subst (λ x. IsReady (length c'.bytes) x) (sym p.1.0)
        (subst (λ b. IsReady (length {A = ℕ} b) (fixed d)) (sym p.0)
          (freeze-IsReady (length c.bytes) d ready))) in
    Ends-map (Result d' c'.bytes) (Result d c.bytes) _
      (λ r c'' v. Result-fixed d d' c.bytes c'.bytes r c'' p.1.0 p.0 v)
      (ih d' c' ready₁ (omega arith))
rounds_after grant fuel d c ready h ih (ok (deliver p d', c')) r = r
rounds_after grant fuel d c ready h ih (err e) p = tt
rounds_after grant fuel d c ready h ih panic p = absurd p

rounds-Ends :
    (grant : ℕ → ℕ) (fuel : ℕ) (d : PacketState) (c : Cursor)
    → IsReady (length c.bytes) d
    → left d c < fuel
    → Ends (Result d c.bytes) (rounds grant fuel d c)
unfolding rounds
rounds-Ends grant zero d c ready h = absurd (omega arith)
rounds-Ends grant (suc fuel) d c ready h =
    rounds_after grant fuel d c ready h (rounds-Ends grant fuel) (round grant d c)
      (round-Ends grant d c ready)

left-prepare : (d : PacketState) (c : Cursor) → left (prepare d) c < enough d c
unfolding prepare enough left
left-prepare d c = elim (Bool-cases (length d.per_stream_counter == length d.streams)) [
  | inl e ↦ rw e (omega arith)
  | inr e ↦ rw e (omega arith)
]

-- `next_packet` comes to an end without a panic, on every input: it returns an error or a packet. The
-- packet is the body of a chunk of the file, whole and in its place, of a stream of the demuxer that
-- its FourCC names, with the keyframe flag of the table at the chunk's offset and the stream's counter
-- as its pts, and the counter of that stream alone moves on. Before the call, the demuxer has a suffix
-- for each stream, counters below 2 ^ 63 less the size of the file, and layouts whose sizes fit.
pub next_packet-Ends :
    (grant : ℕ → ℕ) (d : PacketState) (c : Cursor)
    → IsReady (length c.bytes) (prepare d)
    → Ends (Result (prepare d) c.bytes) (next_packet grant d c)
unfolding next_packet
next_packet-Ends grant d c ready =
    rounds-Ends grant (enough d c) (prepare d) c ready (left-prepare d c)
