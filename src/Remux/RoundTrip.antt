-- ===== src/Remux/RoundTrip.antt =====
-- Packets written by `AviMuxer::write_packet` (src/muxer.rs) and read back by `AviDemuxer::next_packet`
-- (src/demuxer.rs) with the index that was written for them.
use oxideav_avi.Base.{
  ℕ, ◌+◌, ◌-◌, ◌^◌, ◌≤◌, ◌<◌, ◌≡◌, refl, sym, ◌∙◌, ap, List, [], ◌∷◌, ◌++◌, some, ok, length,
  length-map, length-append, get_elem?, Bool, true, false, arith, All, append_assoc, map,
}
use mathlib.Core.Path.{subst}
use oxideav_avi.Bytes.{Fourcc}
use oxideav_avi.Riff.Write.{at_end}
use oxideav_avi.Index.{StdIndex}
use oxideav_avi.Idx1.{IndexEntry}
use oxideav_avi.Seek.{IdxEntry, is_keyframe}
use oxideav_avi.Packets.{PacketState, Packet, keyframe_at}
use oxideav_avi.Packets.Loop.{stamp}
use oxideav_avi.Packets.Keyframes.{
  keyframe_by_offset, Ascending, offset_of, keyframe_at-keyframe_by_offset,
}
use oxideav_avi.Packets.Sequence.{at}
use oxideav_avi.Packets.Movi.{
  next_packets, movi_bytes, packets_of, all_passed, budget, Follows, passed,
}
use oxideav_avi.Packets.Playback.{next_packets-packets_of}
use oxideav_avi.Mux.{OutPacket, Muxer, contains}
use oxideav_avi.Mux.Packet.{chunk_len, packet_flags}
use oxideav_avi.Mux.Batch.{write_packets, names, item_of, items_of, entries_of, HasRoom}
use oxideav_avi.Mux.Written.{write_packets-Written}
use oxideav_avi.Remux.{Agrees, items-IsPacketOf}

-- What a packet carries from the writer to the reader.
abbrev pub Content : Type 0
Content = ℕ × List ℕ × Bool

abbrev pub received : Packet → Content
received q = (q.stream_index, q.payload, q.keyframe)

abbrev pub sent : OutPacket → Content
sent p = (p.stream_index, p.payload, p.keyframe)

-- Where the entry's chunk stands in the file, and its flags.
abbrev pub place : IdxEntry → ℕ × ℕ
place e = (e.offset, e.flags)

abbrev pub located : ℕ → IndexEntry → ℕ × ℕ
located base e = (base + e.offset, e.flags)

is_keyframe-packet_flags : (k f : Bool) → is_keyframe (packet_flags k f) ≡ k
unfolding is_keyframe packet_flags
is_keyframe-packet_flags true true = refl
is_keyframe-packet_flags true false = refl
is_keyframe-packet_flags false true = refl
is_keyframe-packet_flags false false = refl

-- The flags that the demuxer's map gives at the places of the entries.
abbrev FlagsRight : List (ℕ × Bool) → List (ℕ × ℕ) → Type 0
FlagsRight keys = All (λ x. keyframe_at keys x.0 ≡ is_keyframe x.1)

FlagsRight-table :
    (keys : List (ℕ × Bool)) (table : List IdxEntry)
    → All (λ e. keyframe_at keys e.offset ≡ is_keyframe e.flags) table
    → FlagsRight keys (map place table)
FlagsRight-table keys [] v = tt
FlagsRight-table keys (e ∷ es) v = (v.0, FlagsRight-table keys es v.1)

abbrev firsts : List (ℕ × ℕ) → List ℕ
firsts xs = map (λ x. x.0) xs

firsts-place : (table : List IdxEntry) → firsts (map place table) ≡ map offset_of table
firsts-place [] = refl
firsts-place (e ∷ es) = ap (λ ns. e.offset ∷ ns) (firsts-place es)

later :
    (fs : List Fourcc) (f2 : List ℕ) (n ms off : ℕ) (ps : List OutPacket)
    → ms ≤ off
    → n < off
    → All (λ k. n < k) (firsts (map (located ms) (entries_of fs f2 ms off ps)))
unfolding entries_of
later fs f2 n ms off [] h k = tt
later fs f2 n ms off (p ∷ ps) h k = (
  omega arith,
  later fs f2 n ms (off + chunk_len (length p.payload)) ps (omega arith) (omega arith),
)

Ascending-entries_of :
    (fs : List Fourcc) (f2 : List ℕ) (ms off : ℕ) (ps : List OutPacket)
    → ms ≤ off
    → Ascending (firsts (map (located ms) (entries_of fs f2 ms off ps)))
unfolding entries_of
Ascending-entries_of fs f2 ms off [] h = tt
Ascending-entries_of fs f2 ms off (p ∷ ps) h = (
  later fs f2 (ms + (off - ms)) ms (off + chunk_len (length p.payload)) ps (omega arith)
      (omega arith),
  Ascending-entries_of fs f2 ms (off + chunk_len (length p.payload)) ps (omega arith),
)

map-received :
    (fs : List Fourcc) (f2 : List ℕ) (ms off : ℕ) (ps : List OutPacket) (d : PacketState)
    → ms ≤ off
    → FlagsRight d.keyframe_by_offset (map (located ms) (entries_of fs f2 ms off ps))
    → map received (packets_of d off (items_of fs ps)) ≡ map sent ps
unfolding entries_of packets_of stamp
map-received fs f2 ms off [] d h v = refl
map-received fs f2 ms off (p ∷ ps) d h v =
    let here : ms + (off - ms) ≡ off = omega arith in
    let flag : keyframe_at d.keyframe_by_offset off ≡ p.keyframe =
      ap (keyframe_at d.keyframe_by_offset) (sym here)
      ∙ (v.0 ∙ is_keyframe-packet_flags p.keyframe (contains p.stream_index f2)) in
    rw
      (
        flag,
        map-received fs f2 ms (off + chunk_len (length p.payload)) ps (passed d (item_of fs p))
            (omega arith) v.1,
      )
      refl

-- The demuxer has opened the file of the run: its current segment reaches over the packets, its tables
-- hold the index entries that were written for them, and its counters have room.
pub record Opened (d : PacketState) (m : Muxer) (size : ℕ) (ps : List OutPacket) : Type 0 where
  pub segment : ℕ × ℕ
  pub table : List IdxEntry
  pub std_indexes : List StdIndex
  pub agrees : Agrees d (names m.tracks)
  pub current : get_elem? d.movi_segments d.current_segment ≡ some segment
  pub reaches : size + length (movi_bytes (items_of (names m.tracks) ps)) ≤ segment.1
  pub counters : length d.per_stream_counter ≡ length d.streams
  pub low : All (λ k. k + budget (items_of (names m.tracks) ps) < 2 ^ 64) d.per_stream_counter
  pub keys : d.keyframe_by_offset ≡ keyframe_by_offset table std_indexes
  pub entries :
      map place table
      ≡ map
          (located m.movi_start_off)
          (entries_of (names m.tracks) m.options.field2_streams m.movi_start_off size ps)

Opened-FlagsRight :
    (d : PacketState) (m : Muxer) (size : ℕ) (ps : List OutPacket) (o : Opened d m size ps)
    → m.movi_start_off ≤ size
    → FlagsRight d.keyframe_by_offset (
        map
          (located m.movi_start_off)
          (entries_of (names m.tracks) m.options.field2_streams m.movi_start_off size ps))
Opened-FlagsRight d m size ps o h =
    let rising : Ascending (map offset_of o.table) =
      subst Ascending (ap firsts (sym o.entries) ∙ firsts-place o.table) (
        Ascending-entries_of (names m.tracks) m.options.field2_streams m.movi_start_off size ps
          h) in
    rw o.keys (
      subst (FlagsRight (keyframe_by_offset o.table o.std_indexes)) o.entries
        (FlagsRight-table _ o.table (keyframe_at-keyframe_by_offset o.table o.std_indexes rising)))

-- The same run of calls, its number, its file and its end written another way.
same_run :
    (grant : ℕ → ℕ) (d : PacketState) (v : List Packet × PacketState) (p : ℕ) {n n' q q' : ℕ}
    {b b' : List ℕ}
    → n ≡ n'
    → b ≡ b'
    → q ≡ q'
    → next_packets grant n d (at b p) ≡ ok (v, at b q)
    → next_packets grant n' d (at b' p) ≡ ok (v, at b' q')
same_run grant d v p en eb eq h = rw (← en, ← eb, ← eq) h

-- Packets that are written into an AVI 1.0 file with room for them are read back, one by one and in
-- their order: the same streams, the same bytes, the same keyframe flags, whatever follows in the file
-- and however the reader splits its input. The streams are ten at most, the muxer makes no clusters
-- and no padding, frames are kept as they are, and the demuxer has the index entries that were
-- written for these packets.
pub next_packets-write_packets :
    (grant : ℕ → ℕ) (m : Muxer) (d : PacketState) (buf post : List ℕ) (ps : List OutPacket)
    → HasRoom m (length buf) ps
    → Opened d m (length buf) ps
    → (m' : Muxer) × (out : List ℕ) × (qs : List Packet) × (d' : PacketState) × (write_packets ps m
          (at_end buf)
        ≡ ok (m', at_end out))
      × (next_packets grant (length ps) d (at (out ++ post) (length buf))
          ≡ ok ((qs, d'), at (out ++ post) (length out)))
      × (map received qs ≡ map sent ps)
next_packets-write_packets grant m d buf post ps room o =
    let fs = names m.tracks in
    let its = items_of fs ps in
    let w = write_packets-Written ps m buf room in
    let follows : Follows d o.segment its = record {
      items =
          items-IsPacketOf d fs o.agrees ps
            (rw (length-map (λ t. t.packet_fourcc) m.tracks) room.packets);
      current = o.current;
      counters = o.counters;
      low = o.low;
    } in
    let read = next_packets-packets_of grant o.segment its d buf post follows o.reaches in
    (
      w.0,
      buf ++ movi_bytes its,
      packets_of d (length buf) its,
      all_passed d its,
      w.1,
      same_run grant d (packets_of d (length buf) its, all_passed d its) (length buf)
          (length-map (item_of fs) ps) (sym (append_assoc buf (movi_bytes its) post))
          (sym (length-append buf (movi_bytes its))) read,
      map-received fs m.options.field2_streams m.movi_start_off (length buf) ps d room.in_movi
          (Opened-FlagsRight d m (length buf) ps o room.in_movi),
    )
