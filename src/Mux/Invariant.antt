-- ===== src/Mux/Invariant.antt =====
-- What holds of `AviMuxer` (src/muxer.rs) between calls, in every mode, and what clusters, `ix##` flushes and
-- segments keep of it.
use oxideav_avi.Base.{
  ℕ, ◌+◌, ◌-◌, ◌^◌, ◌≤◌, ◌<◌, ◌≡◌, [], ◌∷◌, Option, none, some, length, length-append, arith, leb,
  ◌&&◌, Bool-cases, inl, inr, All,
}
use oxideav_avi.Io.{Cursor, stream_position}
use oxideav_avi.Riff.{list, u32_max, begin_list}
use oxideav_avi.Packets.Ends.{Ends, Ends-bind}
use oxideav_avi.RawDib.{RawLayout}
use oxideav_avi.RawDib.Packing.{Packs}
use oxideav_avi.Mux.{TrackState, Muxer, is_primary}
use oxideav_avi.Mux.Segments.{rec_form, push_rec_entry, open_rec_cluster}
use oxideav_avi.Mux.Steps.{AtEnd, begin_list-Ends}

abbrev pub IfSome : (ℕ → Type 0) → Option ℕ → Type 0
IfSome P none = Unit
IfSome P (some n) = P n

abbrev pub OptionPacks : Option RawLayout → Type 0
OptionPacks none = Unit
OptionPacks (some l) = Packs l

-- What is still to come: packets, and samples or bytes of any one track; and the number of the tracks.
pub record Left : Type 0 where
  pub packets : ℕ
  pub streams : ℕ
  pub samples : ℕ

abbrev pub left : ℕ → ℕ → ℕ → Left
left n t s = record { packets = n; streams = t; samples = s }

-- The track's counters have room for what is to come, and its frames can be padded out.
abbrev pub HasCount : Left → TrackState → Type 0
HasCount k t =
    (t.packet_count + k.packets < 2 ^ 32)
    × (OptionPacks t.raw_layout
        × ((t.total_bytes + k.samples < 2 ^ 64) × (t.sample_count + k.samples < 2 ^ 64)))

-- The writer stands at the end of the file, the size fields that are still open lie inside it, the
-- place of an open cluster's index entry is in the index, the granularity of the padding is not 0, and
-- the counters of the tracks, `k.streams` of them, have room for `k.packets` packets and for
-- `k.samples` samples and as many bytes.
pub record IsOpen (k : Left) (m : Muxer) (c : Cursor) : Type 0 where
  pub last : c.pos ≡ length c.bytes
  pub riff_after : 4 ≤ m.riff_size_off
  pub riff_inside : m.riff_size_off + 4 ≤ c.pos
  pub movi_inside : m.movi_size_off + 4 ≤ c.pos
  pub cluster_inside : IfSome (λ off. off + 4 ≤ c.pos) m.rec_open_size_off
  pub slot_inside : IfSome (λ s. s < length m.index) m.rec_open_idx1_slot
  pub few : (length m.tracks ≡ k.streams) × (k.streams ≤ 99)
  pub granularity : IfSome (λ n. 0 < n) m.options.padding_granularity
  pub tracks : All (HasCount k) m.tracks
  pub in_segment : m.current_segment_packets + k.packets < 2 ^ 32
  pub indexed : m.current_segment_indexed_packets + k.packets < 2 ^ 32
  pub in_cluster : m.rec_packets_in_cluster + k.packets < 2 ^ 32

-- The same at a later end of the file.
IfSome-le :
    (n n' : ℕ) (o : Option ℕ)
    → n ≤ n'
    → IfSome (λ off. off + 4 ≤ n) o
    → IfSome (λ off. off + 4 ≤ n') o
IfSome-le n n' none h v = tt
IfSome-le n n' (some off) h v = omega arith

pub IsOpen-later :
    (k : Left) (m : Muxer) (c c' : Cursor) → IsOpen k m c → AtEnd c.pos c' → IsOpen k m c'
IsOpen-later k m c c' o a =
    let g = a.grown in
    let r = o.riff_inside in
    let v = o.movi_inside in
    record {
      last = a.last;
      riff_after = o.riff_after;
      riff_inside = omega arith;
      movi_inside = omega arith;
      cluster_inside = IfSome-le c.pos c'.pos m.rec_open_size_off g o.cluster_inside;
      slot_inside = o.slot_inside;
      few = o.few;
      granularity = o.granularity;
      tracks = o.tracks;
      in_segment = o.in_segment;
      indexed = o.indexed;
      in_cluster = o.in_cluster;
    }

abbrev pub here : (k : Left) (m : Muxer) (c : Cursor) → IsOpen k m c → AtEnd c.pos c
here k m c o = record { last = o.last; grown = omega arith }

-- Opening a cluster: its own entry, if it has one, is the last of the index.
push_rec_entry-IsOpen :
    (k : Left) (m : Muxer) (off : ℕ) (c : Cursor) → IsOpen k m c → IsOpen k (push_rec_entry m off) c
unfolding push_rec_entry
push_rec_entry-IsOpen k m off c o =
    elim (Bool-cases
      (is_primary m && (leb m.movi_start_off off && leb (off - m.movi_start_off) u32_max))) [
        | inl e ↦ rw e record {
          last = o.last;
          riff_after = o.riff_after;
          riff_inside = o.riff_inside;
          movi_inside = o.movi_inside;
          cluster_inside = o.cluster_inside;
          slot_inside = omega (arith, length-append m.index (_ ∷ []));
          few = o.few;
          granularity = o.granularity;
          tracks = o.tracks;
          in_segment = o.in_segment;
          indexed = o.indexed;
          in_cluster = o.in_cluster;
        }
        | inr e ↦ rw e record {
          last = o.last;
          riff_after = o.riff_after;
          riff_inside = o.riff_inside;
          movi_inside = o.movi_inside;
          cluster_inside = o.cluster_inside;
          slot_inside = tt;
          few = o.few;
          granularity = o.granularity;
          tracks = o.tracks;
          in_segment = o.in_segment;
          indexed = o.indexed;
          in_cluster = o.in_cluster;
        }
      ]

pub open_rec_cluster-IsOpen :
    (k : Left) (m : Muxer) (c : Cursor) → IsOpen k m c → Ends (IsOpen k) (open_rec_cluster m c)
unfolding open_rec_cluster stream_position
open_rec_cluster-IsOpen k m c o =
    Ends-bind (λ off c'. AtEnd (off + 8) c' × (c.pos + 4 ≤ off)) (IsOpen k)
      (begin_list list rec_form) _ c (begin_list-Ends list rec_form c.pos c (here k m c o))
      (λ off c' h.
        let g = h.0.grown in
        let b = h.1 in
        let later = IsOpen-later k m c c' o (record { last = h.0.last; grown = omega arith }) in
        push_rec_entry-IsOpen k
          (record m {
            rec_open_size_off = some off;
            rec_packets_in_cluster = 0;
            rec_bytes_in_cluster = 0;
          })
          c.pos c'
          (record {
            last = later.last;
            riff_after = later.riff_after;
            riff_inside = later.riff_inside;
            movi_inside = later.movi_inside;
            cluster_inside = omega arith;
            slot_inside = later.slot_inside;
            few = later.few;
            granularity = later.granularity;
            tracks = later.tracks;
            in_segment = later.in_segment;
            indexed = later.indexed;
            in_cluster = let s = o.in_segment in omega arith;
          }))
