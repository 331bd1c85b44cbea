-- ===== src/Mux/Open.antt =====
-- src/muxer.rs: `AviMuxer::write_packet` keeps the muxer's invariant in every mode, and does not panic.
use oxideav_avi.Base.{
  ℕ, zero, suc, ◌+◌, ◌-◌, ◌^◌, ◌<◌, ◌≡◌, refl, sym, ◌∙◌, ap, List, [], ◌∷◌, Option, none, some,
  length, get_elem?, Bool, true, false, arith, leb, ltb, All, Error, unsupported, invalid, other,
}
use mathlib.Core.Path.{subst}
use oxideav_avi.Io.{Cursor, pure, fail, stream_position, guard}
use oxideav_avi.Riff.{u32_max}
use oxideav_avi.Seek.{elem_at}
use oxideav_avi.Packets.{lift}
use oxideav_avi.Packets.Ends.{Ends, Ends-bind, Ends-if}
use oxideav_avi.Packets.Delivery.{lift-Ends, elem_at-Returns, All-trivial}
use oxideav_avi.Mux.{OutPacket, AviKind, avi10, open_dml, TrackState, Muxer, relaid}
use oxideav_avi.Mux.Packet.{
  chunk_len, roll_segment, choose_cluster, align, position_or, index_std, mid_movi_flush,
  check_ceiling, put_chunk, place_chunk, write_wire, write_packet_of, write_packet,
}
use oxideav_avi.Mux.Batch.{write_packets}
use oxideav_avi.Mux.Ticks.{most_ticks, all_ticks}
use oxideav_avi.Mux.Invariant.{Left, left, HasCount, IsOpen}
use oxideav_avi.Mux.Entries.{FirstIsOpen, align-Ends, index_std-IsOpen, mid_movi_flush-IsOpen}
use oxideav_avi.Mux.Room.{roll_segment-Ends, choose_cluster-Ends, relaid-Returns}
use oxideav_avi.Mux.Counting.{put_chunk-IsOpen}

-- The calls that look at the writer only.
guard-Ends :
    (b : Bool) (e : Error) (c : Cursor) → Ends (λ _ c'. (c' ≡ c) × (b ≡ true)) (guard b e c)
guard-Ends true e c = (refl, refl)
guard-Ends false e c = tt

position_or-Ends : (x : Option ℕ) (c : Cursor) → Ends (λ _ c'. c' ≡ c) (position_or x c)
unfolding position_or stream_position
position_or-Ends none c = refl
position_or-Ends (some p) c = refl

check_ceiling-Ends :
    (kind : AviKind) (off size : ℕ) (c : Cursor)
    → Ends (λ _ c'. c' ≡ c) (check_ceiling kind off size c)
unfolding check_ceiling
check_ceiling-Ends avi10 off size c =
    Ends-if (λ _ c'. c' ≡ c) (ltb (2 ^ 31 - 1024) (off + chunk_len size)) (fail unsupported)
      (pure tt) c (λ _. tt) (λ _. refl)
check_ceiling-Ends (open_dml limit) off size c = refl

-- The offset of the second field is taken once.
field2_taken :
    (k : Left) (m : Muxer) (c : Cursor)
    → IsOpen k m c
    → IsOpen k (record m { pending_field2_offset = none }) c
field2_taken k m c o = record {
  last = o.last;
  riff_after = o.riff_after;
  riff_inside = o.riff_inside;
  movi_inside = o.movi_inside;
  cluster_inside = o.cluster_inside;
  slot_inside = o.slot_inside;
  few = o.few;
  granularity = o.granularity;
  tracks = o.tracks;
  in_segment = o.in_segment;
  indexed = o.indexed;
  in_cluster = o.in_cluster;
}

place_chunk-IsOpen :
    (n t s : ℕ) (m : Muxer) (p : OutPacket) (wire : List ℕ) (off : ℕ) (c : Cursor)
    → IsOpen (left (suc n) t (most_ticks p.duration + s)) m c
    → p.stream_index < t
    → Ends (IsOpen (left n t s)) (place_chunk m p wire off c)
unfolding place_chunk
place_chunk-IsOpen n t s m p wire off c o h =
    let few = o.few.0 in
    let k = left (suc n) t (most_ticks p.duration + s) in
    let i = p.stream_index in
    Ends-bind _ (IsOpen (left n t s)) (lift (elem_at m.tracks i)) _ c
      (lift-Ends (λ _. Unit) _ c
        (elem_at-Returns _ m.tracks i (omega arith) (All-trivial m.tracks)))
      (λ t₀ c₁ e.
        Ends-bind (IsOpen k) (IsOpen (left n t s))
          (index_std (record m { pending_field2_offset = none }) i t₀.packet_fourcc p.keyframe
            m.pending_field2_offset off (length wire))
          _ c₁
          (index_std-IsOpen k (record m { pending_field2_offset = none }) i t₀.packet_fourcc
            p.keyframe m.pending_field2_offset off (length wire) c₁
            (field2_taken k m c₁ (subst (IsOpen k m) (sym e.0) o)) h)
          (λ m₁ c₂ o₂.
            Ends-bind (IsOpen (left n t s)) (IsOpen (left n t s))
              (put_chunk m₁ i t₀.packet_fourcc p.keyframe p.duration wire off) _ c₂
              (put_chunk-IsOpen n t s m₁ i t₀.packet_fourcc p.keyframe p.duration wire off c₂ o₂ h)
              (λ m₂ c₃ o₃.
                Ends-bind (IsOpen (left n t s)) (IsOpen (left n t s)) (mid_movi_flush m₂ i) _ c₃
                  (mid_movi_flush-IsOpen (left n t s) m₂ i c₃ o₃ h)
                  (λ m₃ c₄ o₄.
                    Ends-bind (λ _ c'. c' ≡ c₄) (IsOpen (left n t s))
                      (check_ceiling m₃.kind off (length wire)) _ c₄
                      (check_ceiling-Ends m₃.kind off (length wire) c₄)
                      (λ _ c₅ same. subst (IsOpen (left n t s) m₃) (sym same) o₄)))))

write_wire-IsOpen :
    (n t s : ℕ) (m : Muxer) (p : OutPacket) (wire : List ℕ) (c : Cursor)
    → IsOpen (left (suc n) t (most_ticks p.duration + s)) m c
    → p.stream_index < t
    → Ends (IsOpen (left n t s)) (write_wire m p wire c)
unfolding write_wire
write_wire-IsOpen n t s m p wire c o h =
    let k = left (suc n) t (most_ticks p.duration + s) in
    Ends-bind (FirstIsOpen k) (IsOpen (left n t s)) (roll_segment m (length wire)) _ c
      (roll_segment-Ends k m (length wire) c o)
      (λ rolled c₁ o₁.
        Ends-bind (FirstIsOpen k) (IsOpen (left n t s))
          (choose_cluster rolled.0 rolled.1 (length wire)) _ c₁
          (choose_cluster-Ends k rolled.0 rolled.1 (length wire) c₁ o₁)
          (λ entered c₂ o₂.
            Ends-bind (FirstIsOpen k) (IsOpen (left n t s)) (align entered.0 entered.1) _ c₂
              (align-Ends k entered.0 entered.1 c₂ o₂)
              (λ aligned c₃ o₃.
                Ends-bind (λ _ c'. c' ≡ c₃) (IsOpen (left n t s)) (position_or aligned.1) _ c₃
                  (position_or-Ends aligned.1 c₃)
                  (λ off c₄ same.
                    place_chunk-IsOpen n t s aligned.0 p wire off c₄
                      (subst (IsOpen k aligned.0) (sym same) o₃) h))))

abbrev value_or : {A : Type 0} → Option A → A → A
value_or none d = d
value_or (some a) d = a

get_elem?-All :
    {A : Type 0} (P : A → Type 0) (xs : List A) (i : ℕ)
    → All P xs
    → (x : A) → get_elem? xs i ≡ some x
    → P x × (i < length xs)
get_elem?-All P [] i v x e = ground arith
get_elem?-All P (y ∷ ys) zero v x e = (subst P (ap (λ o. value_or o y) e) v.0, omega arith)
get_elem?-All P (y ∷ ys) (suc i) v x e =
    let found = get_elem?-All P ys i v.1 x e in let inside = found.1 in (found.0, omega arith)

write_packet-IsOpen :
    (n t s : ℕ) (m : Muxer) (p : OutPacket) (c : Cursor)
    → IsOpen (left (suc n) t (most_ticks p.duration + s)) m c
    → Ends (IsOpen (left n t s)) (write_packet m p c)
unfolding write_packet
write_packet-IsOpen n t s m p c o =
    Ends-bind (λ _ c'. (c' ≡ c) × (m.header_written ≡ true)) (IsOpen (left n t s))
      (guard m.header_written other) _ c (guard-Ends m.header_written other c)
      (λ _ c₁ e.
        go (get_elem? m.tracks p.stream_index) refl c₁
          (subst (IsOpen (left (suc n) t (most_ticks p.duration + s)) m) (sym e.0) o))
  where
    go :
        (x : Option TrackState)
        → get_elem? m.tracks p.stream_index ≡ x
        → (c₁ : Cursor) → IsOpen (left (suc n) t (most_ticks p.duration + s)) m c₁
        → Ends (IsOpen (left n t s)) (write_packet_of m p x c₁)
    go none e c₁ o₁ = tt
    go (some t₀) e c₁ o₁ =
        let known =
          get_elem?-All (HasCount (left (suc n) t (most_ticks p.duration + s))) m.tracks
            p.stream_index o.tracks t₀ e in
        let few = o.few.0 in
        let inside = known.1 in
        Ends-bind (λ _ c'. (c' ≡ c₁) × (leb (length p.payload) u32_max ≡ true))
          (IsOpen (left n t s)) (guard (leb (length p.payload) u32_max) invalid) _ c₁
          (guard-Ends _ invalid c₁)
          (λ _ c₂ e₂.
            Ends-bind _ (IsOpen (left n t s)) (lift (relaid t₀ p)) _ c₂
              (lift-Ends (λ _. Unit) _ c₂ (relaid-Returns t₀ p known.0.1.0))
              (λ wire c₃ e₃.
                write_wire-IsOpen n t s m p wire c₃
                  (subst (IsOpen (left (suc n) t (most_ticks p.duration + s)) m) (sym (e₃.0 ∙ e₂.0))
                    o₁)
                  (omega arith)))

-- Where the muxer's invariant holds with room in the counters for the packets and `n` more, and in the
-- tracks' sums of bytes and of samples for the packets' sizes and durations and `s` more, writing the
-- packets one after the other does not panic, in any mode: it returns an error, or a muxer and a writer
-- of which the invariant holds with room for `n` packets and `s` samples or bytes.
pub write_packets-IsOpen :
    (ps : List OutPacket) (n t s : ℕ) (m : Muxer) (c : Cursor)
    → IsOpen (left (length ps + n) t (all_ticks ps + s)) m c
    → Ends (IsOpen (left n t s)) (write_packets ps m c)
unfolding write_packets all_ticks
write_packets-IsOpen [] n t s m c o =
    let no_packets : 0 + n ≡ n = omega arith in
    let no_samples : 0 + s ≡ s = omega arith in rw (← no_packets, ← no_samples) o
write_packets-IsOpen (p ∷ ps) n t s m c o =
    let one_more : length (p ∷ ps) + n ≡ suc (length ps + n) = omega arith in
    let its_ticks : most_ticks p.duration + all_ticks ps + s
        ≡ most_ticks p.duration + (all_ticks ps + s) =
      omega arith in
    Ends-bind (IsOpen (left (length ps + n) t (all_ticks ps + s))) (IsOpen (left n t s))
      (write_packet m p) _ c
      (write_packet-IsOpen (length ps + n) t (all_ticks ps + s) m p c (
        subst (λ k. IsOpen (left k t (most_ticks p.duration + (all_ticks ps + s))) m c) one_more
          (subst (λ k. IsOpen (left (length (p ∷ ps) + n) t k) m c) its_ticks o)))
      (λ m₁ c₁ o₁. write_packets-IsOpen ps n t s m₁ c₁ o₁)
