-- ===== src/Packets/Delivery.antt =====
-- src/demuxer.rs: what one round of `AviDemuxer::next_packet` comes to once it has read a chunk header:
-- a packet of that chunk, or a later place in the same segment.
use oxideav_avi.Base.{
  ℕ, zero, suc, ◌+◌, ◌-◌, ◌*◌, ◌^◌, ◌≤◌, ◌<◌, ◌≡◌, refl, List, [], ◌∷◌, Option, none, some, ok, err,
  panic, Outcome, true, ◌||◌, length, take, drop, get_or, set, arith, ltb, ◌==◌, if◌then◌else◌, inl,
  inr, Bool-cases, All, lt→ltb, length-take, length-append,
}
use oxideav_avi.Io.{Cursor}
use oxideav_avi.Riff.{ChunkHeader}
use oxideav_avi.RawDib.{RawLayout, is_identity}
use oxideav_avi.RawDib.Frames.{unpack, unpack_rows, needed}
use oxideav_avi.Seek.{StreamInfo, time_delta_divisor, time_delta_with_divisor, elem_at}
use oxideav_avi.Stream.{parse_stream_index}
use oxideav_avi.Packets.{
  PacketState, Packet, Round, SidebandStore, again, deliver, packet_time_delta, lift,
}
use oxideav_avi.Packets.Ends.{Ends, header_in}
use oxideav_avi.Packets.Loop.{unpack_with, advance, stamp}

abbrev no_sidebands : SidebandStore
no_sidebands = record { counts = []; bodies = [] }

-- What the loop leaves alone until it returns a packet.
abbrev pub fixed : PacketState → PacketState
fixed d = record d { current_segment = 0; palette_change = no_sidebands; text_chunk = no_sidebands }

-- The sizes of a layout fit, far from the limits of `usize`.
pub record LayoutFits (l : RawLayout) : Type 0 where
  pub needed_fits : needed l < 2 ^ 64
  pub packet_fits : l.rows * l.row_bytes < 2 ^ 62

abbrev pub OptionFits : Option RawLayout → Type 0
OptionFits none = Unit
OptionFits (some l) = LayoutFits l

-- What `open` sets up for a file of `n` bytes: a suffix and a counter for each stream, no counter near
-- its limit.
pub record IsReady (n : ℕ) (d : PacketState) : Type 0 where
  pub suffixes : length d.packet_chunk_suffix ≡ length d.streams
  pub counters : length d.per_stream_counter ≡ length d.streams
  pub low : All (λ k. k + n < 2 ^ 63) d.per_stream_counter
  pub layouts : All OptionFits d.raw_layouts

-- The packet stems from a chunk of the file `bytes`: its header stands at `off`, its body is there in
-- full, its FourCC names the packet's stream, and the packet is that body, unpacked, with the pts and
-- the keyframe flag that the tables give; `d'` has the stream's counter advanced.
pub record Delivered (d : PacketState) (bytes : List ℕ) (p : Packet) (d' : PacketState)
    : Type 0 where
  pub off : ℕ
  pub hdr : ChunkHeader
  pub wire : List ℕ
  pub stream : StreamInfo
  pub counter : ℕ
  pub header_there : header_in (drop off bytes) ≡ some hdr
  pub wire_there : wire ≡ take hdr.size (drop (off + 8) bytes)
  pub wire_whole : length wire ≡ hdr.size
  pub names_stream : parse_stream_index hdr.id ≡ some p.stream_index
  pub known : elem_at d.streams p.stream_index ≡ ok stream
  pub counted : elem_at d.per_stream_counter p.stream_index ≡ ok counter
  pub unpacked : unpack_with (get_or d.raw_layouts p.stream_index none) wire ≡ ok p.payload
  pub stamped : p ≡ stamp d off p.stream_index p.payload counter
  pub advanced :
      d'.per_stream_counter
      ≡ set d.per_stream_counter p.stream_index
          (counter + packet_time_delta stream (length p.payload))

-- The round goes on, behind a header that was read at `off`, or it delivers a packet.
abbrev pub AfterHeader : PacketState → List ℕ → ℕ → Round → Cursor → Type 0
AfterHeader d bytes off (again d') c' =
    ((c'.bytes ≡ bytes) × (off + 8 ≤ c'.pos))
    × ((fixed d' ≡ fixed d) × (d'.current_segment ≡ d.current_segment))
AfterHeader d bytes off (deliver p d') c' = (c'.bytes ≡ bytes) × Delivered d bytes p d'

length-unpack_rows :
    (l : RawLayout) (wire : List ℕ) (k : ℕ) → length (unpack_rows l wire k) ≤ k * l.row_bytes
unfolding unpack_rows
length-unpack_rows l wire zero = omega arith
length-unpack_rows l wire (suc k) =
    let src = if l.bottom_up then l.rows - 1 - (l.rows - suc k) else l.rows - suc k in
    let row = take l.row_bytes (drop (src * l.stride) wire) in
    omega (
      arith,
      length-append row (unpack_rows l wire k),
      length-take l.row_bytes (drop (src * l.stride) wire),
      length-unpack_rows l wire k,
    )

time_delta_with_divisor-le : (o : Option ℕ) (n : ℕ) → time_delta_with_divisor o n ≤ suc n
unfolding time_delta_with_divisor
time_delta_with_divisor-le none n = omega arith
time_delta_with_divisor-le (some b) n = omega arith

-- A value with `P`, or an error, and no panic.
abbrev pub Returns : {A : Type 0} → (A → Type 0) → Outcome A → Type 0
Returns P (ok a) = P a
Returns P (err e) = Unit
Returns P panic = ⊥

-- The bound on what a packet holds.
abbrev pub Short : List ℕ → List ℕ → Type 0
Short wire payload = length payload ≤ length wire + 2 ^ 62

unpack-Short : (l : RawLayout) (wire : List ℕ) → LayoutFits l → Returns (Short wire) (unpack l wire)
unfolding unpack
unpack-Short l wire h = elim (Bool-cases (is_identity l || (l.rows == 0))) [
  | inl e ↦ rw (Returns, e) (omega arith)
  | inr e ↦
      let fits : ltb (needed l) (2 ^ 64) ≡ true = lt→ltb (needed l) (2 ^ 64) h.needed_fits in
      elim (Bool-cases (ltb (length wire) (needed l))) [
        | inl f ↦ rw (Returns, e, fits, f) (omega arith)
        | inr f ↦
            let a = h.packet_fits in
            let b = length-unpack_rows l wire l.rows in rw (Returns, e, fits, f) (omega arith)
      ]
]

pub unpack_with-Short :
    (layouts : List (Option RawLayout)) (i : ℕ) (wire : List ℕ)
    → All OptionFits layouts
    → Returns (Short wire) (unpack_with (get_or layouts i none) wire)
unfolding unpack_with
unpack_with-Short [] i wire h = omega arith
unpack_with-Short (none ∷ ls) zero wire h = omega arith
unpack_with-Short (some l ∷ ls) zero wire h = unpack-Short l wire h.0
unpack_with-Short (o ∷ ls) (suc i) wire h = unpack_with-Short ls i wire h.1

pub packet_time_delta-le : (s : StreamInfo) (n : ℕ) → packet_time_delta s n ≤ suc n
unfolding packet_time_delta
packet_time_delta-le s n = time_delta_with_divisor-le (time_delta_divisor s) n

pub advance-Returns :
    (counter bump : ℕ)
    → counter + bump < 2 ^ 64
    → Returns (λ n. n ≡ counter + bump) (advance counter bump)
unfolding advance
advance-Returns counter bump h = rw (Returns, lt→ltb (counter + bump) (2 ^ 64) h) refl

pub elem_at-Returns :
    {A : Type 0} (P : A → Type 0) (xs : List A) (i : ℕ)
    → i < length xs
    → All P xs
    → Returns P (elem_at xs i)
elem_at-Returns P [] i h v = absurd (omega arith)
elem_at-Returns P (x ∷ xs) zero h v = v.0
elem_at-Returns P (x ∷ xs) (suc i) h v = elem_at-Returns P xs i (omega arith) v.1

pub All-trivial : {A : Type 0} (xs : List A) → All (λ _. Unit {0}) xs
All-trivial [] = tt
All-trivial (x ∷ xs) = (tt, All-trivial xs)

pub lift-Ends :
    {A : Type 0} (P : A → Type 0) (o : Outcome A) (c : Cursor)
    → Returns P o
    → Ends (λ a c'. (c' ≡ c) × ((o ≡ ok a) × P a)) (lift o c)
lift-Ends P (ok a) c h = (refl, (refl, h))
lift-Ends P (err e) c h = tt
lift-Ends P panic c h = absurd h
