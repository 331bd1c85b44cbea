-- ===== src/Packets/Movi.antt =====
-- src/demuxer.rs: all calls of `AviDemuxer::next_packet` over a `movi` body of packet chunks.
use oxideav_avi.Base.{
  ℕ, zero, suc, ◌+◌, ◌^◌, ◌≤◌, ◌<◌, ◌≡◌, refl, ap, List, [], ◌∷◌, ◌++◌, none, some, ok, length,
  get_elem?, get_or, set, arith, All,
}
use oxideav_avi.Io.{M, ◌>>=◌, pure}
use oxideav_avi.Seek.{elem_at}
use oxideav_avi.Packets.{PacketState, Packet, packet_time_delta}
use oxideav_avi.Packets.Loop.{stamp, next_packet}
use oxideav_avi.Packets.Reading.{Item, IsPacketOf, item_bytes, counted}
use oxideav_avi.Packets.Sequence.{item_size}

-- `n` calls in a row.
unfoldable pub next_packets : (ℕ → ℕ) → ℕ → PacketState → M (List Packet × PacketState)
next_packets grant zero d = pure ([], d)
next_packets grant (suc n) d = do
  first ← next_packet grant d
  rest ← next_packets grant n first.1
  pure (first.0 ∷ rest.0, rest.1)

unfoldable pub movi_bytes : List Item → List ℕ
movi_bytes [] = []
movi_bytes (it ∷ its) = item_bytes it ++ movi_bytes its

-- The counter in front of the chunk, and how far the chunk moves it.
abbrev pub counter_before : PacketState → Item → ℕ
counter_before d it = get_or d.per_stream_counter it.stream 0

abbrev pub tick : PacketState → Item → ℕ
tick d it = elim (get_elem? d.streams it.stream) [
  | none ↦ 0
  | some s ↦ packet_time_delta s (length it.body)
]

abbrev pub passed : PacketState → Item → PacketState
passed d it = counted d it.stream (counter_before d it + tick d it)

-- The packets of the chunks from `off` on, in their order.
unfoldable pub packets_of : PacketState → ℕ → List Item → List Packet
packets_of d off [] = []
packets_of d off (it ∷ its) =
    stamp d off it.stream it.body (counter_before d it)
    ∷ packets_of (passed d it) (off + item_size it) its

unfoldable pub all_passed : PacketState → List Item → PacketState
all_passed d [] = d
all_passed d (it ∷ its) = all_passed (passed d it) its

-- How far the counters can move.
unfoldable pub budget : List Item → ℕ
budget [] = 0
budget (it ∷ its) = suc (length it.body) + budget its

pub record Follows (d : PacketState) (segment : ℕ × ℕ) (its : List Item) : Type 0 where
  pub items : All (IsPacketOf d) its
  pub current : get_elem? d.movi_segments d.current_segment ≡ some segment
  pub counters : length d.per_stream_counter ≡ length d.streams
  pub low : All (λ k. k + budget its < 2 ^ 64) d.per_stream_counter

IsPacketOf-counted :
    (d : PacketState) (i n : ℕ) (it : Item) → IsPacketOf d it → IsPacketOf (counted d i n) it
IsPacketOf-counted d i n it h = record {
  info = h.info;
  suffix = h.suffix;
  fits = h.fits;
  no_list = h.no_list;
  no_junk = h.no_junk;
  names_stream = h.names_stream;
  known = h.known;
  expected = h.expected;
  no_palette = h.no_palette;
  no_text = h.no_text;
  accepted = h.accepted;
  plain = h.plain;
}

pub items-counted :
    (d : PacketState) (i n : ℕ) (its : List Item)
    → All (IsPacketOf d) its
    → All (IsPacketOf (counted d i n)) its
items-counted d i n [] h = tt
items-counted d i n (it ∷ its) h = (IsPacketOf-counted d i n it h.0, items-counted d i n its h.1)

pub length-set : (xs : List ℕ) (i n : ℕ) → length (set xs i n) ≡ length xs
length-set [] i n = refl
length-set (x ∷ xs) zero n = refl
length-set (x ∷ xs) (suc i) n = ap suc (length-set xs i n)

low-weaken :
    (b b' m : ℕ) (xs : List ℕ) → b' ≤ b → All (λ k. k + b < m) xs → All (λ k. k + b' < m) xs
low-weaken b b' m [] h v = tt
low-weaken b b' m (x ∷ xs) h v = let v₀ = v.0 in (omega arith, low-weaken b b' m xs h v.1)

-- One counter moves by `t`, the budget shrinks by more than that.
pub low-set :
    (b b' t m : ℕ) (xs : List ℕ) (i : ℕ)
    → t + b' ≤ b
    → All (λ k. k + b < m) xs
    → All (λ k. k + b' < m) (set xs i (get_or xs i 0 + t))
low-set b b' t m [] i h v = tt
low-set b b' t m (x ∷ xs) zero h v =
    let v₀ = v.0 in (omega arith, low-weaken b b' m xs (omega arith) v.1)
low-set b b' t m (x ∷ xs) (suc i) h v = let v₀ = v.0 in (omega arith, low-set b b' t m xs i h v.1)

pub elem_at-get_or :
    (xs : List ℕ) (i n : ℕ) → length xs ≡ n → i < n → elem_at xs i ≡ ok (get_or xs i 0)
elem_at-get_or [] i n e h = absurd (omega arith)
elem_at-get_or (x ∷ xs) zero n e h = refl
elem_at-get_or (x ∷ xs) (suc i) zero e h = absurd (omega arith)
elem_at-get_or (x ∷ xs) (suc i) (suc n) e h = elem_at-get_or xs i n (omega arith) (omega arith)

pub get_or-All :
    (P : ℕ → Type 0) (xs : List ℕ) (i : ℕ) → i < length xs → All P xs → P (get_or xs i 0)
get_or-All P [] i h v = absurd (omega arith)
get_or-All P (x ∷ xs) zero h v = v.0
get_or-All P (x ∷ xs) (suc i) h v = get_or-All P xs i (omega arith) v.1
