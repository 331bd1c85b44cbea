-- ===== src/Mux/Batch.antt =====
-- src/muxer.rs: a run of `AviMuxer::write_packet` calls into an AVI 1.0 file.
use oxideav_avi.Base.{
  ℕ, zero, suc, ◌+◌, ◌-◌, ◌^◌, ◌≤◌, ◌<◌, ◌≡◌, refl, sym, ap, List, [], ◌∷◌, Option, none, some,
  length, get_elem?, arith, All, map,
}
use oxideav_avi.Bytes.{Fourcc, fourcc}
use oxideav_avi.Io.{M, ◌>>=◌, pure}
use oxideav_avi.Riff.{u32_max}
use oxideav_avi.Idx1.{IndexEntry}
use oxideav_avi.Seek.{update}
use oxideav_avi.Packets.Reading.{Item}
use oxideav_avi.Packets.Movi.{movi_bytes}
use oxideav_avi.Mux.{OutPacket, TrackState, Muxer, contains, sample_count_of_packet}
use oxideav_avi.Mux.Ticks.{all_ticks}
use oxideav_avi.Mux.Packet.{chunk_len, packet_flags, write_packet}
use oxideav_avi.Mux.Plain.{IsPlain, noted}

unfoldable pub write_packets : List OutPacket → Muxer → M Muxer
write_packets [] m = pure m
write_packets (p ∷ ps) m = do m₁ ← write_packet m p; write_packets ps m₁

-- The FourCCs of the tracks.
abbrev pub names : List TrackState → List Fourcc
names ts = map (λ t. t.packet_fourcc) ts

abbrev pub name_at : List Fourcc → ℕ → Fourcc
name_at [] i = fourcc 0 0 0 0
name_at (f ∷ fs) zero = f
name_at (f ∷ fs) (suc i) = name_at fs i

-- The chunk of a packet, and its index entry where the chunk stands at `off`.
abbrev pub item_of : List Fourcc → OutPacket → Item
item_of fs p = record { id = name_at fs p.stream_index; stream = p.stream_index; body = p.payload }

abbrev pub items_of : List Fourcc → List OutPacket → List Item
items_of fs ps = map (item_of fs) ps

unfoldable pub entries_of : List Fourcc → List ℕ → ℕ → ℕ → List OutPacket → List IndexEntry
entries_of fs field2 movi_start off [] = []
entries_of fs field2 movi_start off (p ∷ ps) =
    record {
      ckid = name_at fs p.stream_index;
      flags = packet_flags p.keyframe (contains p.stream_index field2);
      offset = off - movi_start;
      size = length p.payload;
    }
    ∷ entries_of fs field2 movi_start (off + chunk_len (length p.payload)) ps

-- Room in a track for `n` packets, and for `s` more bytes and samples.
abbrev pub TrackHasRoom : ℕ → ℕ → TrackState → Type 0
TrackHasRoom n s t =
    (t.raw_layout ≡ none)
    × ((t.packet_count + n < 2 ^ 32)
        × ((t.total_bytes + s < 2 ^ 64) × (t.sample_count + s < 2 ^ 64)))

abbrev pub GoesTo : ℕ → OutPacket → Type 0
GoesTo n p = (p.stream_index < n) × (length p.payload ≤ u32_max)

-- Room for the packets in a file of `size` bytes: they are of the muxer's streams; the counters, the sums
-- of sizes and durations and the file stay below their limits; frames are written as they are.
pub record HasRoom (m : Muxer) (size : ℕ) (ps : List OutPacket) : Type 0 where
  pub plain : IsPlain m
  pub primary : m.segments ≡ []
  pub tracks : All (TrackHasRoom (length ps) (all_ticks ps)) m.tracks
  pub packets : All (GoesTo (length m.tracks)) ps
  pub in_segment : m.current_segment_packets + length ps < 2 ^ 32
  pub indexed : m.current_segment_indexed_packets + length ps < 2 ^ 32
  pub in_movi : m.movi_start_off ≤ size
  pub below_ceiling : size + length (movi_bytes (items_of (names m.tracks) ps)) ≤ 2 ^ 31 - 1024

pub get_track :
    (n s : ℕ) (ts : List TrackState) (i : ℕ)
    → i < length ts
    → All (TrackHasRoom n s) ts
    → (t : TrackState) × (get_elem? ts i ≡ some t)
      × ((t.packet_fourcc ≡ name_at (names ts) i) × TrackHasRoom n s t)
get_track n s [] i h v = absurd (omega arith)
get_track n s (t ∷ ts) zero h v = (t, refl, (refl, v.0))
get_track n s (t ∷ ts) (suc i) h v = get_track n s ts i (omega arith) v.1

abbrev fourcc_or : List Fourcc → Option TrackState → List Fourcc
fourcc_or fs none = fs
fourcc_or fs (some t) = t.packet_fourcc ∷ fs

pub names-update :
    (ts : List TrackState) (i size : ℕ) (duration : Option ℕ) (t : TrackState)
    → get_elem? ts i ≡ some t
    → names (update i (λ _. noted size duration t) ts) ≡ names ts
names-update [] i size duration t e = refl
names-update (x ∷ xs) zero size duration t e = ap (fourcc_or (names xs)) (sym e)
names-update (x ∷ xs) (suc i) size duration t e =
    ap (λ fs. x.packet_fourcc ∷ fs) (names-update xs i size duration t e)

pub length-update :
    {A : Type 0} (xs : List A) (i : ℕ) (f : A → A) → length (update i f xs) ≡ length xs
length-update [] i f = refl
length-update (x ∷ xs) zero f = refl
length-update (x ∷ xs) (suc i) f = ap suc (length-update xs i f)

tracks-weaken :
    (n w s : ℕ) (ts : List TrackState)
    → All (TrackHasRoom (suc n) (w + s)) ts
    → All (TrackHasRoom n s) ts
tracks-weaken n w s [] v = tt
tracks-weaken n w s (x ∷ xs) v = (room_less n w s x v.0, tracks-weaken n w s xs v.1)
  where
    room_less : (n w s : ℕ) (x : TrackState) → TrackHasRoom (suc n) (w + s) x → TrackHasRoom n s x
    room_less n w s x r =
        let a = r.1.0 in
        let b = r.1.1.0 in let c = r.1.1.1 in (r.0, (omega arith, (omega arith, omega arith)))

-- A chunk of at most `w` bytes and `w` samples.
pub tracks-update :
    (n w s : ℕ) (ts : List TrackState) (i size : ℕ) (duration : Option ℕ) (t : TrackState)
    → TrackHasRoom (suc n) (w + s) t
    → size ≤ w
    → sample_count_of_packet t size duration ≤ w
    → All (TrackHasRoom (suc n) (w + s)) ts
    → All (TrackHasRoom n s) (update i (λ _. noted size duration t) ts)
tracks-update n w s [] i size duration t r small few v = tt
tracks-update n w s (x ∷ xs) zero size duration t r small few v =
    let a = r.1.0 in
    let b = r.1.1.0 in
    let c = r.1.1.1 in
    ((r.0, (omega arith, (omega arith, omega arith))), tracks-weaken n w s xs v.1)
tracks-update n w s (x ∷ xs) (suc i) size duration t r small few v =
    let a = v.0.1.0 in
    let b = v.0.1.1.0 in
    let c = v.0.1.1.1 in
    (
      (v.0.0, (omega arith, (omega arith, omega arith))),
      tracks-update n w s xs i size duration t r small few v.1,
    )
