-- ===== src/Mux/Entries.antt =====
-- src/muxer.rs: the steps of `AviMuxer::write_packet` around the chunk keep the muxer's invariant: alignment,
-- index entries, and the flush inside `movi`.
use oxideav_avi.Base.{
  ℕ, zero, suc, ◌+◌, ◌-◌, ◌%◌, ◌^◌, ◌≤◌, ◌<◌, ◌≡◌, sym, ◌∙◌, List, [], ◌∷◌, ◌++◌, Option, none,
  some, length, replicate, min, Bool, true, false, arith, leb, ltb, ◌==◌, ◌&&◌, if◌then◌else◌,
  Bool-cases, inl, inr, ltb→lt,
}
use mathlib.Core.Path.{subst}
use oxideav_avi.Bytes.{le32, Fourcc, fourcc_bytes}
use oxideav_avi.Io.{Cursor, M, ◌>>=◌, ◌>>◌, pure, write_all, stream_position}
use oxideav_avi.Riff.{write_chunk_header}
use oxideav_avi.Index.{IxStdEntry}
use oxideav_avi.Idx1.{IndexEntry}
use oxideav_avi.Seek.{update, elem_at}
use oxideav_avi.Packets.{lift}
use oxideav_avi.Packets.Ends.{Ends, Ends-bind, Ends-if}
use oxideav_avi.Packets.Delivery.{lift-Ends, elem_at-Returns, All-trivial}
use oxideav_avi.Mux.{
  is_open_dml, is_primary, TrackState, Muxer, is_some, write_zeros, junk, junk_len,
  emit_padding_junk_for,
}
use oxideav_avi.Mux.Segments.{close_rec_cluster}
use oxideav_avi.Mux.Packet.{
  add_cluster_bytes, align, check_strl_std_overflow, push_std_entry, index_std, flush_at_cadence,
  mid_movi_flush,
}
use oxideav_avi.Mux.Batch.{length-update}
use oxideav_avi.Mux.Steps.{AtEnd, write_all-Ends}
use oxideav_avi.Mux.Invariant.{Left, IfSome, HasCount, IsOpen, IsOpen-later, here}
use oxideav_avi.Mux.Closing.{close_rec_cluster-IsOpen, counts-update}
use oxideav_avi.Mux.Rolling.{flush_ix_for_track-IsOpen, inactive}

write_zeros-Ends :
    (fuel k n : ℕ) (c : Cursor)
    → k ≤ fuel
    → AtEnd n c
    → Ends (λ _ c'. AtEnd n c') (write_zeros fuel k c)
unfolding write_zeros
write_zeros-Ends zero k n c h a = let e : k ≡ 0 = omega arith in rw e a
write_zeros-Ends (suc fuel) k n c h a =
    Ends-if (λ _ c'. AtEnd n c') (ltb 0 k) _ _ c
      (λ e.
        let some_left = ltb→lt 0 k e in
        let zeros = replicate (min k 256) 0 in
        Ends-bind (λ _ c'. AtEnd (n + length zeros) c') (λ _ c'. AtEnd n c') (write_all zeros) _ c
          (write_all-Ends zeros n c a)
          (λ _ c₁ b.
            let g = b.grown in
            write_zeros-Ends fuel (k - min k 256) n c₁ (omega arith)
              (record { last = b.last; grown = omega arith })))
      (λ e. a)

emit_padding_junk_for-Ends :
    (g n : ℕ) (c : Cursor)
    → 0 < g
    → AtEnd n c
    → Ends (λ _ c'. AtEnd n c') (emit_padding_junk_for g c)
unfolding emit_padding_junk_for write_chunk_header stream_position
emit_padding_junk_for-Ends zero n c h a = absurd (omega arith)
emit_padding_junk_for-Ends (suc k) n c h a =
    let len = junk_len (suc k) c.pos in
    let head = fourcc_bytes junk ++ le32 (len - len % 2) in
    Ends-if (λ _ c'. AtEnd n c') (c.pos % suc k == 0) _ _ c (λ _. a)
      (λ _.
        Ends-bind (λ _ c'. AtEnd (n + 8) c') (λ _ c'. AtEnd n c') (write_all head) _ c
          (write_all-Ends head n c a)
          (λ _ c₁ b.
            let g = b.grown in
            write_zeros-Ends len len n c₁ (omega arith)
              (record { last = b.last; grown = omega arith })))

add_cluster_bytes-IsOpen :
    (k : Left) (m : Muxer) (n : ℕ) (c : Cursor) → IsOpen k m c → IsOpen k (add_cluster_bytes m n) c
add_cluster_bytes-IsOpen k m n c o = elim (Bool-cases (is_some m.rec_open_size_off)) [
  | inl e ↦ rw e record {
    last = o.last;
    riff_after = o.riff_after;
    riff_inside = o.riff_inside;
    movi_inside = o.movi_inside;
    cluster_inside = o.cluster_inside;
    slot_inside = o.slot_inside;
    few = o.few;
    granularity = o.granularity;
    tracks = o.tracks;
    in_segment = o.in_segment;
    indexed = o.indexed;
    in_cluster = o.in_cluster;
  }
  | inr e ↦ rw e o
]

-- A muxer, paired with the position where it is known.
abbrev pub FirstIsOpen : Left → Muxer × Option ℕ → Cursor → Type 0
FirstIsOpen k r c = IsOpen k r.0 c

pub align-Ends :
    (k : Left) (m : Muxer) (x : Option ℕ) (c : Cursor)
    → IsOpen k m c
    → Ends (FirstIsOpen k) (align m x c)
unfolding align stream_position
align-Ends k m x c o = go m.options.padding_granularity o.granularity
  where
    go :
        (p : Option ℕ)
        → IfSome (λ n. 0 < n) p
        → Ends (FirstIsOpen k) (
            elim p as (λ _. M (Muxer × Option ℕ)) [
              | none ↦ pure (m, x)
              | some n ↦ do
                before ← stream_position
                emit_padding_junk_for n
                after ← stream_position
                pure (add_cluster_bytes m (after - before), some after)
            ]
              c)
    go none v = o
    go (some n) v =
        Ends-bind (λ _ c'. AtEnd c.pos c') (FirstIsOpen k) (emit_padding_junk_for n) _ c
          (emit_padding_junk_for-Ends n c.pos c v (here k m c o))
          (λ _ c₁ a. add_cluster_bytes-IsOpen k m (c₁.pos - c.pos) c₁ (IsOpen-later k m c c₁ o a))

-- Changing one track in a way that keeps its counters.
retrack :
    (k : Left) (m : Muxer) (i : ℕ) (f : TrackState → TrackState) (c : Cursor)
    → ((t : TrackState) → HasCount k t → HasCount k (f t))
    → IsOpen k m c
    → IsOpen k (record m { tracks = update i f m.tracks }) c
retrack k m i f c keeps o = record {
  last = o.last;
  riff_after = o.riff_after;
  riff_inside = o.riff_inside;
  movi_inside = o.movi_inside;
  cluster_inside = o.cluster_inside;
  slot_inside = o.slot_inside;
  few = (length-update m.tracks i f ∙ o.few.0, o.few.1);
  granularity = o.granularity;
  tracks = counts-update k m.tracks i f keeps o.tracks;
  in_segment = o.in_segment;
  indexed = o.indexed;
  in_cluster = o.in_cluster;
}

inactive_if :
    (k : Left) (b : Bool) (m : Muxer) (c : Cursor)
    → IsOpen k m c
    → IsOpen k (if b then record m { strl_std_active = false } else m) c
inactive_if k true m c o = inactive k m c o
inactive_if k false m c o = o

check_strl_std_overflow-IsOpen :
    (k : Left) (i : ℕ) (m : Muxer) (c : Cursor)
    → IsOpen k m c
    → i < k.streams
    → Ends (IsOpen k) (check_strl_std_overflow i m c)
unfolding check_strl_std_overflow
check_strl_std_overflow-IsOpen k i m c o h =
    let few = o.few.0 in
    Ends-if (IsOpen k) m.strl_std_active _ (pure m) c
      (λ _.
        Ends-bind _ (IsOpen k) (lift (elem_at m.tracks i)) _ c
          (lift-Ends (λ _. Unit) _ c
            (elem_at-Returns _ m.tracks i (omega arith) (All-trivial m.tracks)))
          (λ t c₁ p. inactive_if k _ m c₁ (subst (IsOpen k m) (sym p.0) o)))
      (λ _. o)

snapshot_if :
    (k : Left) (b : Bool) (m : Muxer) (es : List IndexEntry) (c : Cursor)
    → IsOpen k m c
    → IsOpen k (if b then record m { primary_ix_snapshot = es } else m) c
snapshot_if k true m es c o = record {
  last = o.last;
  riff_after = o.riff_after;
  riff_inside = o.riff_inside;
  movi_inside = o.movi_inside;
  cluster_inside = o.cluster_inside;
  slot_inside = o.slot_inside;
  few = o.few;
  granularity = o.granularity;
  tracks = o.tracks;
  in_segment = o.in_segment;
  indexed = o.indexed;
  in_cluster = o.in_cluster;
}
snapshot_if k false m es c o = o

abbrev with_ix_entry : Muxer → ℕ → IxStdEntry → Muxer
with_ix_entry m i e = record m {
  tracks = update i (λ t. record t { ix_entries = t.ix_entries ++ e ∷ [] }) m.tracks;
}

push_std_entry-IsOpen :
    (k : Left) (m : Muxer) (i : ℕ) (id : Fourcc) (e : IxStdEntry) (s : IndexEntry) (c : Cursor)
    → IsOpen k m c
    → i < k.streams
    → Ends (IsOpen k) (push_std_entry m i id e s c)
unfolding push_std_entry
push_std_entry-IsOpen k m i id e s c o h =
    Ends-bind (IsOpen k) (IsOpen k) (check_strl_std_overflow i (with_ix_entry m i e)) _ c
      (check_strl_std_overflow-IsOpen k i (with_ix_entry m i e) c
        (retrack k m i (λ t. record t { ix_entries = t.ix_entries ++ e ∷ [] }) c (λ t v. v) o) h)
      (λ m₁ c₁ o₁.
        snapshot_if k (m₁.options.synthesise_idx1_from_ix && is_primary m₁) m₁
          (m₁.primary_ix_snapshot ++ s ∷ []) c₁ o₁)

pub index_std-IsOpen :
    (k : Left) (m : Muxer) (i : ℕ) (id : Fourcc) (keyframe : Bool) (field2 : Option ℕ)
    (off size : ℕ) (c : Cursor)
    → IsOpen k m c
    → i < k.streams
    → Ends (IsOpen k) (index_std m i id keyframe field2 off size c)
unfolding index_std
index_std-IsOpen k m i id keyframe field2 off size c o h =
    Ends-if (IsOpen k) _ (push_std_entry m i id _ _) (pure m) c
      (λ _. push_std_entry-IsOpen k m i id _ _ c o h) (λ _. o)

flush_at_cadence-IsOpen :
    (k : Left) (m : Muxer) (i : ℕ) (x : Option ℕ) (c : Cursor)
    → IsOpen k m c
    → i < k.streams
    → Ends (IsOpen k) (flush_at_cadence m i x c)
unfolding flush_at_cadence
flush_at_cadence-IsOpen k m i none c o h = o
flush_at_cadence-IsOpen k m i (some n) c o h =
    let few = o.few.0 in
    Ends-bind _ (IsOpen k) (lift (elem_at m.tracks i)) _ c
      (lift-Ends (λ _. Unit) _ c
        (elem_at-Returns _ m.tracks i (omega arith) (All-trivial m.tracks)))
      (λ t c₁ p.
        let same = subst (IsOpen k m) (sym p.0) o in
        Ends-if (IsOpen k) (ltb 0 n && leb n (length t.ix_entries % 2 ^ 32)) _ (pure m) c₁
          (λ _.
            Ends-bind (IsOpen k) (IsOpen k) (close_rec_cluster m) _ c₁
              (close_rec_cluster-IsOpen k m c₁ same)
              (λ m₁ c₂ o₂. flush_ix_for_track-IsOpen k m₁ i c₂ o₂ h))
          (λ _. same))

pub mid_movi_flush-IsOpen :
    (k : Left) (m : Muxer) (i : ℕ) (c : Cursor)
    → IsOpen k m c
    → i < k.streams
    → Ends (IsOpen k) (mid_movi_flush m i c)
unfolding mid_movi_flush
mid_movi_flush-IsOpen k m i c o h =
    Ends-if (IsOpen k) (is_open_dml m.kind) _ (pure m) c
      (λ _. flush_at_cadence-IsOpen k m i _ c o h) (λ _. o)
