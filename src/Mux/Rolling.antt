-- ===== src/Mux/Rolling.antt =====
-- src/muxer.rs: flushing all `ix##` chunks and rolling over to another segment keep the muxer's invariant.
use oxideav_avi.Base.{
  ℕ, zero, suc, ◌+◌, ◌-◌, ◌≤◌, ◌<◌, ◌≡◌, refl, sym, ◌∙◌, length, Bool, true, false, arith, ◌==◌,
  le→leb,
}
use mathlib.Core.Path.{subst}
use oxideav_avi.Io.{Cursor, pure, stream_position}
use oxideav_avi.Riff.{riff, list, begin_list, finish_chunk}
use oxideav_avi.Seek.{elem_at}
use oxideav_avi.Packets.{lift}
use oxideav_avi.Packets.Ends.{Ends, Ends-bind, Ends-if}
use oxideav_avi.Packets.Delivery.{Returns, lift-Ends, elem_at-Returns, All-trivial}
use oxideav_avi.Mux.{Muxer, minus, is_primary}
use oxideav_avi.Mux.Segments.{
  movi_form, avix_form, idx1_id, close_rec_cluster, flush_entries, flush_ix_for_track, flush_tracks,
  flush_ix_chunks, write_idx1, close_riff, close_current_segment, open_avix_segment,
}
use oxideav_avi.Mux.Steps.{AtEnd, write_chunk-Ends, begin_list-Ends, finish_chunk-Ends}
use oxideav_avi.Mux.Invariant.{Left, IsOpen, IsOpen-later, here}
use oxideav_avi.Mux.Closing.{close_rec_cluster-IsOpen, flush_entries-IsOpen}

pub flush_ix_for_track-IsOpen :
    (k : Left) (m : Muxer) (i : ℕ) (c : Cursor)
    → IsOpen k m c
    → i < k.streams
    → Ends (IsOpen k) (flush_ix_for_track m i c)
unfolding flush_ix_for_track
flush_ix_for_track-IsOpen k m i c o h =
    let few = o.few.0 in
    let most = o.few.1 in
    Ends-bind _ (IsOpen k) (lift (elem_at m.tracks i)) _ c
      (lift-Ends (λ _. Unit) _ c
        (elem_at-Returns _ m.tracks i (omega arith) (All-trivial m.tracks)))
      (λ t c₁ p.
        Ends-if (IsOpen k) (length t.ix_entries == 0) (pure m) (flush_entries m i t) c₁
          (λ _. subst (IsOpen k m) (sym p.0) o)
          (λ _. flush_entries-IsOpen k m i t c₁ (subst (IsOpen k m) (sym p.0) o) (omega arith)))

flush_tracks-IsOpen :
    (k : Left) (n i : ℕ) (m : Muxer) (c : Cursor)
    → IsOpen k m c
    → i + n ≤ k.streams
    → Ends (IsOpen k) (flush_tracks n i m c)
unfolding flush_tracks
flush_tracks-IsOpen k zero i m c o h = o
flush_tracks-IsOpen k (suc n) i m c o h =
    Ends-bind (IsOpen k) (IsOpen k) (flush_ix_for_track m i) _ c
      (flush_ix_for_track-IsOpen k m i c o (omega arith))
      (λ m₁ c₁ o₁. flush_tracks-IsOpen k n (suc i) m₁ c₁ o₁ (omega arith))

pub flush_ix_chunks-IsOpen :
    (k : Left) (m : Muxer) (c : Cursor) → IsOpen k m c → Ends (IsOpen k) (flush_ix_chunks m c)
unfolding flush_ix_chunks
flush_ix_chunks-IsOpen k m c o =
    let few = o.few.0 in flush_tracks-IsOpen k (length m.tracks) 0 m c o (omega arith)

write_idx1-Ends :
    (primary : Bool) (m : Muxer) (n : ℕ) (c : Cursor)
    → AtEnd n c
    → Ends (λ _ c'. AtEnd n c') (write_idx1 primary m c)
unfolding write_idx1
write_idx1-Ends true m n c h = write_chunk-Ends idx1_id _ n c h
write_idx1-Ends false m n c h = h

pub minus-Returns : (a b : ℕ) → b ≤ a → Returns (λ n. n ≡ a - b) (minus a b)
minus-Returns a b h = rw (Returns, le→leb b a h) refl

pub close_riff-IsOpen :
    (k : Left) (m : Muxer) (c : Cursor) → IsOpen k m c → Ends (IsOpen k) (close_riff m c)
unfolding close_riff stream_position
close_riff-IsOpen k m c o =
    let r = o.riff_inside in
    Ends-bind (λ _ c'. AtEnd c.pos c') (IsOpen k) (finish_chunk m.riff_size_off) _ c
      (finish_chunk-Ends m.riff_size_off c.pos c (here k m c o) r)
      (λ _ c₁ h.
        let later = IsOpen-later k m c c₁ o h in
        let g = h.grown in
        Ends-bind _ (IsOpen k) (lift (minus m.riff_size_off 4)) _ c₁
          (lift-Ends _ _ c₁ (minus-Returns m.riff_size_off 4 o.riff_after))
          (λ start c₂ p.
            let s = p.1.1 in
            Ends-bind _ (IsOpen k) (lift (minus c₁.pos start)) _ c₂
              (lift-Ends _ _ c₂ (minus-Returns c₁.pos start (omega arith)))
              (λ total c₃ q. subst (IsOpen k _) (sym (q.0 ∙ p.0)) record {
                last = later.last;
                riff_after = later.riff_after;
                riff_inside = later.riff_inside;
                movi_inside = later.movi_inside;
                cluster_inside = later.cluster_inside;
                slot_inside = later.slot_inside;
                few = later.few;
                granularity = later.granularity;
                tracks = later.tracks;
                in_segment = later.in_segment;
                indexed = later.indexed;
                in_cluster = later.in_cluster;
              })))

-- Without the entries of the streams' own lists.
pub inactive :
    (k : Left) (m : Muxer) (c : Cursor)
    → IsOpen k m c
    → IsOpen k (record m { strl_std_active = false }) c
inactive k m c o = record {
  last = o.last;
  riff_after = o.riff_after;
  riff_inside = o.riff_inside;
  movi_inside = o.movi_inside;
  cluster_inside = o.cluster_inside;
  slot_inside = o.slot_inside;
  few = o.few;
  granularity = o.granularity;
  tracks = o.tracks;
  in_segment = o.in_segment;
  indexed = o.indexed;
  in_cluster = o.in_cluster;
}

pub close_current_segment-IsOpen :
    (k : Left) (m : Muxer) (c : Cursor) → IsOpen k m c → Ends (IsOpen k) (close_current_segment m c)
unfolding close_current_segment
close_current_segment-IsOpen k m c o =
    Ends-bind (IsOpen k) (IsOpen k) (close_rec_cluster (record m { strl_std_active = false })) _ c
      (close_rec_cluster-IsOpen k _ c (inactive k m c o))
      (λ m₁ c₁ o₁.
        Ends-bind (IsOpen k) (IsOpen k) (flush_ix_chunks m₁) _ c₁
          (flush_ix_chunks-IsOpen k m₁ c₁ o₁)
          (λ m₂ c₂ o₂.
            Ends-bind (λ _ c'. AtEnd c₂.pos c') (IsOpen k) (finish_chunk m₂.movi_size_off) _ c₂
              (finish_chunk-Ends m₂.movi_size_off c₂.pos c₂ (here k m₂ c₂ o₂) o₂.movi_inside)
              (λ _ c₃ h₃.
                Ends-bind (λ _ c'. AtEnd c₂.pos c') (IsOpen k) (write_idx1 (is_primary m) m₂) _ c₃
                  (write_idx1-Ends (is_primary m) m₂ c₂.pos c₃ h₃)
                  (λ _ c₄ h₄. close_riff-IsOpen k m₂ c₄ (IsOpen-later k m₂ c₂ c₄ o₂ h₄)))))

-- Behind a finished segment: a fresh `RIFF` list and its `movi` list, whose sizes are open.
pub open_avix_segment-IsOpen :
    (k : Left) (m : Muxer) (c : Cursor) → IsOpen k m c → Ends (IsOpen k) (open_avix_segment m c)
unfolding open_avix_segment
open_avix_segment-IsOpen k m c o =
    Ends-bind (λ off c'. AtEnd (off + 8) c' × (c.pos + 4 ≤ off)) (IsOpen k)
      (begin_list riff avix_form) _ c (begin_list-Ends riff avix_form c.pos c (here k m c o))
      (λ riff_off c₁ h₁.
        Ends-bind (λ off c'. AtEnd (off + 8) c' × (riff_off + 8 + 4 ≤ off)) (IsOpen k)
          (begin_list list movi_form) _ c₁ (begin_list-Ends list movi_form (riff_off + 8) c₁ h₁.0)
          (λ movi_off c₂ h₂.
            let a = h₁.1 in
            let b = h₂.1 in
            let g = h₂.0.grown in
            let s = o.in_segment in
            record {
              last = h₂.0.last;
              riff_after = omega arith;
              riff_inside = omega arith;
              movi_inside = omega arith;
              cluster_inside = tt;
              slot_inside = tt;
              few = o.few;
              granularity = o.granularity;
              tracks = o.tracks;
              in_segment = omega arith;
              indexed = omega arith;
              in_cluster = omega arith;
            }))
