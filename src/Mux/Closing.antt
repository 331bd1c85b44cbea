-- ===== src/Mux/Closing.antt =====
-- src/muxer.rs: closing clusters, flushing `ix##` chunks, and rolling segments keep the muxer's invariant.
use oxideav_avi.Base.{
  ℕ, zero, suc, ◌+◌, ◌-◌, ◌≤◌, ◌<◌, ◌≡◌, refl, sym, ◌∙◌, List, [], ◌∷◌, Option, none, some, length,
  arith, leb, Bool-cases, inl, inr, All,
}
use mathlib.Core.Path.{subst}
use oxideav_avi.Io.{Cursor, M, ◌>>=◌, pure, stream_position}
use oxideav_avi.Riff.{u32_max, write_chunk, finish_chunk}
use oxideav_avi.Seek.{update, elem_at}
use oxideav_avi.Stream.Digits.{parse-packet_fourcc_for}
use oxideav_avi.Packets.{lift}
use oxideav_avi.Packets.Ends.{Ends, Ends-bind}
use oxideav_avi.Packets.Delivery.{lift-Ends, elem_at-Returns, All-trivial}
use oxideav_avi.Mux.{TrackState, Muxer}
use oxideav_avi.Mux.Segments.{
  set_size, patch_rec_entry, close_open_cluster, close_rec_cluster, ix_id, flushed, flush_entries,
}
use oxideav_avi.Mux.Batch.{length-update}
use oxideav_avi.Mux.Steps.{AtEnd, write_chunk-Ends, finish_chunk-Ends}
use oxideav_avi.Mux.Invariant.{Left, IfSome, HasCount, IsOpen, IsOpen-later, here}

-- The muxer with its cluster closed.
closed :
    (k : Left) (m : Muxer) (c : Cursor)
    → IsOpen k m c
    → IsOpen k
        (record m {
          rec_open_size_off = none;
          rec_open_idx1_slot = none;
          rec_packets_in_cluster = 0;
          rec_bytes_in_cluster = 0;
        })
        c
closed k m c o = record {
  last = o.last;
  riff_after = o.riff_after;
  riff_inside = o.riff_inside;
  movi_inside = o.movi_inside;
  cluster_inside = tt;
  slot_inside = tt;
  few = o.few;
  granularity = o.granularity;
  tracks = o.tracks;
  in_segment = o.in_segment;
  indexed = o.indexed;
  in_cluster = let s = o.in_segment in omega arith;
}

pub IfSome-index :
    (n n' : ℕ) (o : Option ℕ) → n ≤ n' → IfSome (λ s. s < n) o → IfSome (λ s. s < n') o
IfSome-index n n' none h v = tt
IfSome-index n n' (some s) h v = omega arith

patch_rec_entry-IsOpen :
    (k : Left) (m : Muxer) (size : ℕ) (slot : Option ℕ) (c : Cursor)
    → IsOpen k m c
    → IfSome (λ s. s < length m.index) slot
    → Ends (IsOpen k) (patch_rec_entry m size slot c)
unfolding patch_rec_entry
patch_rec_entry-IsOpen k m size none c o v = o
patch_rec_entry-IsOpen k m size (some slot) c o v = elim (Bool-cases (leb size u32_max)) [
  | inl e ↦ rw e (
      Ends-bind _ (IsOpen k) (lift (elem_at m.index slot)) _ c
        (lift-Ends (λ _. Unit) _ c (elem_at-Returns _ m.index slot v (All-trivial m.index)))
        (λ _ c' p. subst (IsOpen k _) (sym p.0) record {
          last = o.last;
          riff_after = o.riff_after;
          riff_inside = o.riff_inside;
          movi_inside = o.movi_inside;
          cluster_inside = o.cluster_inside;
          slot_inside =
              IfSome-index (length m.index) _ m.rec_open_idx1_slot
                (omega (arith, length-update m.index slot (set_size size))) o.slot_inside;
          few = o.few;
          granularity = o.granularity;
          tracks = o.tracks;
          in_segment = o.in_segment;
          indexed = o.indexed;
          in_cluster = o.in_cluster;
        }))
  | inr e ↦ rw e o
]

close_open_cluster-IsOpen :
    (k : Left) (m : Muxer) (off : ℕ) (c : Cursor)
    → IsOpen k m c
    → off + 4 ≤ c.pos
    → Ends (IsOpen k) (close_open_cluster m off c)
unfolding close_open_cluster stream_position
close_open_cluster-IsOpen k m off c o inside =
    Ends-bind (λ _ c'. AtEnd c.pos c') (IsOpen k) (finish_chunk off) _ c
      (finish_chunk-Ends off c.pos c (here k m c o) inside)
      (λ _ c₁ h.
        Ends-bind (IsOpen k) (IsOpen k) (patch_rec_entry m (c.pos - (off + 4)) m.rec_open_idx1_slot)
          _ c₁
          (patch_rec_entry-IsOpen k m _ m.rec_open_idx1_slot c₁ (IsOpen-later k m c c₁ o h)
            o.slot_inside)
          (λ m₁ c₂ o₂. closed k m₁ c₂ o₂))

pub close_rec_cluster-IsOpen :
    (k : Left) (m : Muxer) (c : Cursor) → IsOpen k m c → Ends (IsOpen k) (close_rec_cluster m c)
unfolding close_rec_cluster
close_rec_cluster-IsOpen k m c o = go m.rec_open_size_off o.cluster_inside
  where
    go :
        (x : Option ℕ)
        → IfSome (λ off. off + 4 ≤ c.pos) x
        → Ends
            (IsOpen k)
            (elim x as (λ _. M Muxer) [ none ↦ pure m | some off ↦ close_open_cluster m off ] c)
    go none v = o
    go (some off) v = close_open_cluster-IsOpen k m off c o v

pub counts-update :
    (k : Left) (ts : List TrackState) (i : ℕ) (f : TrackState → TrackState)
    → ((t : TrackState) → HasCount k t → HasCount k (f t))
    → All (HasCount k) ts
    → All (HasCount k) (update i f ts)
counts-update k [] i f g v = tt
counts-update k (t ∷ ts) zero f g v = (g t v.0, v.1)
counts-update k (t ∷ ts) (suc i) f g v = (v.0, counts-update k ts i f g v.1)

ix_id-Ends : (i : ℕ) (c : Cursor) → i < 100 → Ends (λ _ c'. c' ≡ c) (ix_id i c)
unfolding ix_id
ix_id-Ends i c h = let named = parse-packet_fourcc_for i b'x' b'x' h in rw (named.1, ◌>>=◌) refl

pub flush_entries-IsOpen :
    (k : Left) (m : Muxer) (i : ℕ) (t : TrackState) (c : Cursor)
    → IsOpen k m c
    → i < 100
    → Ends (IsOpen k) (flush_entries m i t c)
unfolding flush_entries flushed stream_position
flush_entries-IsOpen k m i t c o small =
    Ends-bind (λ _ c'. c' ≡ c) (IsOpen k) (ix_id i) _ c (ix_id-Ends i c small)
      (λ id c₁ e.
        Ends-bind (λ _ c'. AtEnd c.pos c') (IsOpen k) (write_chunk id _) _ c₁
          (write_chunk-Ends id _ c.pos c₁ (subst (AtEnd c.pos) (sym e) (here k m c o)))
          (λ _ c₂ h.
            let later = IsOpen-later k m c c₂ o h in
            record {
              last = later.last;
              riff_after = later.riff_after;
              riff_inside = later.riff_inside;
              movi_inside = later.movi_inside;
              cluster_inside = later.cluster_inside;
              slot_inside = later.slot_inside;
              few = (length-update m.tracks i _ ∙ later.few.0, later.few.1);
              granularity = later.granularity;
              tracks = counts-update k m.tracks i _ (λ x v. v) later.tracks;
              in_segment = later.in_segment;
              indexed = later.indexed;
              in_cluster = later.in_cluster;
            }))
