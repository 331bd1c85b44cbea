-- ===== src/Mux/Counting.antt =====
-- src/muxer.rs: the chunk that `AviMuxer::write_packet` writes and what it counts keep the muxer's invariant.
use oxideav_avi.Base.{
  ℕ, suc, ◌+◌, ◌-◌, ◌^◌, ◌≤◌, ◌<◌, ◌≡◌, refl, sym, ◌∙◌, List, [], ◌∷◌, Option, length,
  length-append, Bool, arith, leb, ◌==◌, ◌&&◌, Bool-cases, inl, inr, All, lt→ltb,
}
use mathlib.Core.Path.{subst}
use oxideav_avi.Bytes.{Fourcc}
use oxideav_avi.Io.{◌>>=◌, Cursor, pure}
use oxideav_avi.Riff.{u32_max, write_chunk}
use oxideav_avi.Seek.{update, elem_at}
use oxideav_avi.Packets.{lift}
use oxideav_avi.Packets.Ends.{Ends, Ends-bind, Ends-if}
use oxideav_avi.Packets.Delivery.{Returns, lift-Ends, elem_at-Returns}
use oxideav_avi.Mux.{sample_count_of_packet, TrackState, Muxer, count_up, is_primary}
use oxideav_avi.Mux.Packet.{
  wants_clusters, note_track, note_segment, note_cluster, with_entry, push_index, put_chunk,
}
use oxideav_avi.Mux.Batch.{length-update}
use oxideav_avi.Mux.Plain.{note_segment-eq, bump_first}
use oxideav_avi.Mux.Ticks.{most_ticks, u32_max-most_ticks, sample_count_of_packet-most_ticks}
use oxideav_avi.Mux.Steps.{write_chunk-Fits, AtEnd}
use oxideav_avi.Mux.Invariant.{Left, left, HasCount, IsOpen, IsOpen-later, here}
use oxideav_avi.Mux.Closing.{counts-update, IfSome-index}

count_up-Returns : (n : ℕ) → n + 1 < 2 ^ 32 → Returns (λ k. k ≡ n + 1) (count_up n)
count_up-Returns n h = rw (Returns, lt→ltb (n + 1) (2 ^ 32) h) refl

-- A chunk of at most `w` bytes and `w` samples.
note_track-Ends :
    (n t w s size : ℕ) (duration : Option ℕ) (x : TrackState) (c : Cursor)
    → HasCount (left (suc n) t (w + s)) x
    → size ≤ w
    → sample_count_of_packet x size duration ≤ w
    → Ends (λ x' c'. (c' ≡ c) × HasCount (left n t s) x') (note_track size duration x c)
unfolding note_track
note_track-Ends n t w s size duration x c h small few =
    let a = h.0 in
    let b = h.1.1.0 in
    let d = h.1.1.1 in
    rw
      (
        lt→ltb (x.packet_count + 1) (2 ^ 32) (omega arith),
        ◌>>=◌,
        lt→ltb (x.total_bytes + size) (2 ^ 64) (omega arith),
        ◌>>=◌,
        lt→ltb (x.sample_count + sample_count_of_packet x size duration) (2 ^ 64) (omega arith),
        ◌>>=◌,
      )
      (refl, (omega arith, (h.1.0, (omega arith, omega arith))))

counts-fewer :
    (n t w s : ℕ) (ts : List TrackState)
    → All (HasCount (left (suc n) t (w + s))) ts
    → All (HasCount (left n t s)) ts
counts-fewer n t w s [] v = tt
counts-fewer n t w s (x ∷ xs) v =
    let a = v.0.0 in
    let b = v.0.1.1.0 in
    let d = v.0.1.1.1 in
    ((omega arith, (v.0.1.0, (omega arith, omega arith))), counts-fewer n t w s xs v.1)

-- The counters of segment and cluster have room for one more packet than the rest needs.
record HasNext (n : ℕ) (m : Muxer) : Type 0 where
  pub in_segment : m.current_segment_packets + suc n < 2 ^ 32
  pub indexed : m.current_segment_indexed_packets + suc n < 2 ^ 32
  pub in_cluster : m.rec_packets_in_cluster + suc n < 2 ^ 32

bump_first-bound : (i n b : ℕ) → n + 1 + b < 2 ^ 32 → bump_first i n + b < 2 ^ 32
bump_first-bound i n b h = elim (Bool-cases (i == 0)) [
  | inl e ↦ rw e h
  | inr e ↦ rw e (omega arith)
]

note_segment-IsOpen :
    (n t s : ℕ) (m : Muxer) (i : ℕ) (c : Cursor)
    → IsOpen (left n t s) m c
    → HasNext n m
    → Ends
        (λ m' c'. IsOpen (left n t s) m' c' × (m'.rec_packets_in_cluster + suc n < 2 ^ 32))
        (note_segment m i c)
note_segment-IsOpen n t s m i c o h =
    let a = h.in_segment in
    let b = h.indexed in
    rw (note_segment-eq m i c (omega arith) (omega arith)) (
      record {
        last = o.last;
        riff_after = o.riff_after;
        riff_inside = o.riff_inside;
        movi_inside = o.movi_inside;
        cluster_inside = o.cluster_inside;
        slot_inside = o.slot_inside;
        few = o.few;
        granularity = o.granularity;
        tracks = o.tracks;
        in_segment = omega arith;
        indexed = bump_first-bound i m.current_segment_indexed_packets n (omega arith);
        in_cluster = o.in_cluster;
      },
      h.in_cluster,
    )

note_cluster-IsOpen :
    (n t s : ℕ) (m : Muxer) (size : ℕ) (c : Cursor)
    → IsOpen (left n t s) m c
    → m.rec_packets_in_cluster + suc n < 2 ^ 32
    → Ends (IsOpen (left n t s)) (note_cluster m size c)
unfolding note_cluster
note_cluster-IsOpen n t s m size c o h =
    Ends-if (IsOpen (left n t s)) (wants_clusters m) _ (pure m) c
      (λ _.
        Ends-bind _ (IsOpen (left n t s)) (lift (count_up m.rec_packets_in_cluster)) _ c
          (lift-Ends _ _ c (count_up-Returns m.rec_packets_in_cluster (omega arith)))
          (λ k c₁ p.
            let e = p.1.1 in
            let same = subst (IsOpen (left n t s) m) (sym p.0) o in
            record {
              last = same.last;
              riff_after = same.riff_after;
              riff_inside = same.riff_inside;
              movi_inside = same.movi_inside;
              cluster_inside = same.cluster_inside;
              slot_inside = same.slot_inside;
              few = same.few;
              granularity = same.granularity;
              tracks = same.tracks;
              in_segment = same.in_segment;
              indexed = same.indexed;
              in_cluster = omega arith;
            }))
      (λ _. o)

with_entry-grows :
    (m : Muxer) (id : Fourcc) (flags off size : ℕ)
    → length m.index ≤ length (with_entry m id flags off size)
unfolding with_entry
with_entry-grows m id flags off size =
    elim (Bool-cases
      (is_primary m && (leb m.movi_start_off off && leb (off - m.movi_start_off) u32_max))) [
        | inl e ↦ rw e (omega (arith, length-append m.index (_ ∷ [])))
        | inr e ↦ rw e (omega arith)
      ]

push_index-IsOpen :
    (k : Left) (m : Muxer) (id : Fourcc) (flags off size : ℕ) (c : Cursor)
    → IsOpen k m c
    → IsOpen k (push_index m id flags off size) c
push_index-IsOpen k m id flags off size c o = record {
  last = o.last;
  riff_after = o.riff_after;
  riff_inside = o.riff_inside;
  movi_inside = o.movi_inside;
  cluster_inside = o.cluster_inside;
  slot_inside =
      IfSome-index (length m.index) _ m.rec_open_idx1_slot (with_entry-grows m id flags off size)
        o.slot_inside;
  few = o.few;
  granularity = o.granularity;
  tracks = o.tracks;
  in_segment = o.in_segment;
  indexed = o.indexed;
  in_cluster = o.in_cluster;
}

-- The muxer with a track whose counter has gone up.
counted :
    (n t w s : ℕ) (m : Muxer) (i : ℕ) (t₁ : TrackState) (c : Cursor)
    → IsOpen (left (suc n) t (w + s)) m c
    → HasCount (left n t s) t₁
    → IsOpen (left n t s) (record m { tracks = update i (λ _. t₁) m.tracks }) c
counted n t w s m i t₁ c o h =
    let a = o.in_segment in
    let b = o.indexed in
    let d = o.in_cluster in
    record {
      last = o.last;
      riff_after = o.riff_after;
      riff_inside = o.riff_inside;
      movi_inside = o.movi_inside;
      cluster_inside = o.cluster_inside;
      slot_inside = o.slot_inside;
      few = (length-update m.tracks i (λ _. t₁) ∙ o.few.0, o.few.1);
      granularity = o.granularity;
      tracks =
          counts-update (left n t s) m.tracks i (λ _. t₁) (λ x v. h)
            (counts-fewer n t w s m.tracks o.tracks);
      in_segment = omega arith;
      indexed = omega arith;
      in_cluster = omega arith;
    }

pub put_chunk-IsOpen :
    (n t s : ℕ) (m : Muxer) (i : ℕ) (id : Fourcc) (keyframe : Bool) (duration : Option ℕ)
    (wire : List ℕ) (off : ℕ) (c : Cursor)
    → IsOpen (left (suc n) t (most_ticks duration + s)) m c
    → i < t
    → Ends (IsOpen (left n t s)) (put_chunk m i id keyframe duration wire off c)
unfolding put_chunk
put_chunk-IsOpen n t s m i id keyframe duration wire off c o h =
    let few = o.few.0 in
    let k = left (suc n) t (most_ticks duration + s) in
    Ends-bind (λ _ c'. AtEnd c.pos c' × (length wire ≤ u32_max)) (IsOpen (left n t s))
      (write_chunk id wire) _ c
      (write_chunk-Fits id wire c.pos c (here (left (suc n) t (most_ticks duration + s)) m c o))
      (λ _ c₁ a.
        let o₁ = IsOpen-later (left (suc n) t (most_ticks duration + s)) m c c₁ o a.0 in
        Ends-bind _ (IsOpen (left n t s)) (lift (elem_at m.tracks i)) _ c₁
          (lift-Ends (HasCount k) _ c₁ (elem_at-Returns _ m.tracks i (omega arith) o.tracks))
          (λ t₀ c₂ p.
            let big = u32_max-most_ticks duration in
            let fits = a.1 in
            Ends-bind _ (IsOpen (left n t s)) (note_track (length wire) duration t₀) _ c₂
              (note_track-Ends n t (most_ticks duration) s (length wire) duration t₀ c₂ p.1.1
                (omega arith) (sample_count_of_packet-most_ticks t₀ (length wire) duration fits))
              (λ t₁ c₃ q.
                let o₃ =
                  subst (IsOpen (left (suc n) t (most_ticks duration + s)) m) (sym (q.0 ∙ p.0))
                    o₁ in
                Ends-bind _ (IsOpen (left n t s)) (note_segment _ i) _ c₃
                  (note_segment-IsOpen n t s _ i c₃
                    (counted n t (most_ticks duration) s m i t₁ c₃ o₃ q.1)
                    (record {
                      in_segment = o.in_segment;
                      indexed = o.indexed;
                      in_cluster = o.in_cluster;
                    }))
                  (λ m₁ c₄ r.
                    Ends-bind (IsOpen (left n t s)) (IsOpen (left n t s))
                      (note_cluster m₁ (length wire)) _ c₄
                      (note_cluster-IsOpen n t s m₁ (length wire) c₄ r.0 r.1)
                      (λ m₂ c₅ o₅.
                        push_index-IsOpen (left n t s) m₂ id _ off (length wire) c₅ o₅)))))
