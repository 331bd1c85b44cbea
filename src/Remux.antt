-- ===== src/Remux.antt =====
-- The muxer and the demuxer together: `AviMuxer::write_packet` of src/muxer.rs writes what
-- `AviDemuxer::next_packet` of src/demuxer.rs reads.
pub mod RoundTrip
use oxideav_avi.Base.{
  ℕ, zero, suc, ◌+◌, ◌-◌, ◌*◌, ◌/◌, ◌%◌, ◌^◌, ◌≤◌, ◌<◌, ◌≡◌, refl, sym, ◌∙◌, ap, List, [], ◌∷◌,
  ◌++◌, Option, none, some, ok, Outcome, length, get_elem?, get_or, leb, ltb, ◌==◌, Bool, true,
  false, ◌&&◌, ◌||◌, not, arith, All, append_assoc, length-append, map, if◌then◌else◌, Bool-cases,
  inl, inr,
}
use oxideav_avi.Bytes.{Fourcc, fourcc, same_fourcc}
use oxideav_avi.Io.{Cursor, M}
use oxideav_avi.Riff.{list, u32_max}
use oxideav_avi.Riff.Write.{at_end}
use oxideav_avi.Seek.{StreamInfo, elem_at}
use oxideav_avi.Stream.{packet_fourcc_for, parse_stream_index}
use oxideav_avi.Stream.Digits.{parse-packet_fourcc_for_iff}
use oxideav_avi.Packets.{PacketState, Packet}
use oxideav_avi.Packets.Loop.{
  same_suffix, suffix_of, pc_suffix, tx_suffix, accepts, is_sideband_text, is_junk, stamp,
}
use oxideav_avi.Packets.Reading.{Item, IsPacketOf}
use oxideav_avi.Packets.Sequence.{at}
use oxideav_avi.Packets.Movi.{
  next_packets, movi_bytes, packets_of, all_passed, budget, Follows, passed,
}
use oxideav_avi.Packets.Playback.{next_packets-packets_of}
use oxideav_avi.Mux.{OutPacket, TrackState, Muxer}
use oxideav_avi.Mux.Batch.{
  write_packets, names, name_at, item_of, items_of, entries_of, GoesTo, HasRoom,
}
use oxideav_avi.Mux.Written.{write_packets-Written}

-- A demuxer whose streams are the muxer's tracks: at most ten of them, since the digits of later ones
-- are read to another base; each chunk suffix is the track's; frames are kept as they are.
pub record Agrees (d : PacketState) (fs : List Fourcc) : Type 0 where
  pub few : length fs ≤ 10
  pub streams : length d.streams ≡ length fs
  pub suffixes : d.packet_chunk_suffix ≡ map suffix_of fs
  pub named :
      (i : ℕ)
      → i < length fs
      → packet_fourcc_for i (name_at fs i).b2 (name_at fs i).b3 ≡ ok (name_at fs i)
  pub no_palette :
      (i : ℕ) → i < length fs → same_suffix (suffix_of (name_at fs i)) pc_suffix ≡ false
  pub plain : (i : ℕ) → get_or d.raw_layouts i none ≡ none

same_suffix_refl : (s : ℕ × ℕ) → same_suffix s s ≡ true
same_suffix_refl s =
    let a : (s.0 == s.0) ≡ true = ground arith in
    let b : (s.1 == s.1) ≡ true = ground arith in rw (a, b) refl

accepts-own : (s : ℕ × ℕ) → accepts s s ≡ true
unfolding accepts
accepts-own s = rw (same_suffix_refl s) refl

is_sideband_text-own : (s : ℕ × ℕ) → is_sideband_text s s ≡ false
unfolding is_sideband_text
is_sideband_text-own s = elim (Bool-cases (same_suffix s tx_suffix)) [
  | inl e ↦ rw e refl
  | inr e ↦ rw e refl
]

starts_with_digit :
    (i s0 s1 : ℕ) (name : Fourcc) → i < 10 → packet_fourcc_for i s0 s1 ≡ ok name → name.b0 ≡ 48
unfolding packet_fourcc_for
starts_with_digit i s0 s1 name h e = ground arith

no_list-name : (name : Fourcc) → name.b0 ≡ 48 → same_fourcc name list ≡ false
no_list-name name e = rw e refl

no_junk-name : (name : Fourcc) → name.b0 ≡ 48 → is_junk name ≡ false
unfolding is_junk
no_junk-name name e = rw e refl

elem_at-known : {A : Type 0} (xs : List A) (i : ℕ) → i < length xs → (x : A) × (elem_at xs i ≡ ok x)
elem_at-known [] i h = absurd (omega arith)
elem_at-known (x ∷ xs) zero h = (x, refl)
elem_at-known (x ∷ xs) (suc i) h = elem_at-known xs i (omega arith)

suffix_at :
    (fs : List Fourcc) (i : ℕ)
    → i < length fs
    → elem_at (map suffix_of fs) i ≡ ok (suffix_of (name_at fs i))
suffix_at [] i h = absurd (omega arith)
suffix_at (f ∷ fs) zero h = refl
suffix_at (f ∷ fs) (suc i) h = suffix_at fs i (omega arith)

module _ (d : PacketState) (fs : List Fourcc) (g : Agrees d fs) where
  pub item-IsPacketOf : (p : OutPacket) → GoesTo (length fs) p → IsPacketOf d (item_of fs p)
  item-IsPacketOf p h =
      let i = p.stream_index in
      let few = g.few in
      let in_range = h.0 in
      let digit = starts_with_digit i _ _ (name_at fs i) (omega arith) (g.named i h.0) in
      let info = elem_at-known d.streams i (rw g.streams h.0) in
      record {
        info = info.0;
        suffix = suffix_of (name_at fs i);
        fits = h.1;
        no_list = no_list-name (name_at fs i) digit;
        no_junk = no_junk-name (name_at fs i) digit;
        names_stream =
            (parse-packet_fourcc_for_iff i _ _ (name_at fs i) (omega arith) (g.named i h.0)).1
              (omega arith);
        known = info.1;
        expected = rw g.suffixes (suffix_at fs i h.0);
        no_palette = g.no_palette i h.0;
        no_text = is_sideband_text-own (suffix_of (name_at fs i));
        accepted = accepts-own (suffix_of (name_at fs i));
        plain = g.plain i;
      }

  pub items-IsPacketOf :
      (ps : List OutPacket) → All (GoesTo (length fs)) ps → All (IsPacketOf d) (items_of fs ps)
  items-IsPacketOf [] h = tt
  items-IsPacketOf (p ∷ ps) h = (item-IsPacketOf p h.0, items-IsPacketOf ps h.1)
