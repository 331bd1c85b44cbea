-- ===== src/Mux/Room.antt =====
-- src/muxer.rs: the segment and the cluster that `AviMuxer::write_packet` makes room in keep the muxer's
-- invariant, and the payload is laid out without a panic.
use oxideav_avi.Base.{
  ℕ, ◌+◌, ◌-◌, ◌≡◌, refl, sym, List, Option, none, some, ok, err, panic, Outcome, false, ltb, ◌&&◌,
  Bool-cases, inl, inr,
}
use mathlib.Core.Path.{subst}
use oxideav_avi.Io.{Cursor, M, pure, stream_position}
use oxideav_avi.RawDib.{RawLayout}
use oxideav_avi.RawDib.Frames.{pack}
use oxideav_avi.RawDib.Packing.{pack-Returns}
use oxideav_avi.Packets.{lift}
use oxideav_avi.Packets.Ends.{Ends, Ends-bind, Ends-if}
use oxideav_avi.Packets.Delivery.{Returns, lift-Ends}
use oxideav_avi.Mux.{OutPacket, AviKind, avi10, open_dml, TrackState, Muxer, minus, relaid}
use oxideav_avi.Mux.Segments.{
  close_rec_cluster, open_rec_cluster, close_current_segment, open_avix_segment,
}
use oxideav_avi.Mux.Packet.{
  chunk_len, roll_open_dml, roll_segment, wants_clusters, cluster_is_full, enter_cluster,
  choose_cluster,
}
use oxideav_avi.Mux.Invariant.{Left, OptionPacks, IsOpen, open_rec_cluster-IsOpen}
use oxideav_avi.Mux.Closing.{close_rec_cluster-IsOpen}
use oxideav_avi.Mux.Rolling.{close_current_segment-IsOpen, open_avix_segment-IsOpen, minus-Returns}
use oxideav_avi.Mux.Entries.{FirstIsOpen}

roll_open_dml-Ends :
    (k : Left) (m : Muxer) (limit n : ℕ) (c : Cursor)
    → IsOpen k m c
    → Ends (FirstIsOpen k) (roll_open_dml m limit n c)
unfolding roll_open_dml stream_position
roll_open_dml-Ends k m limit n c o =
    Ends-bind _ (FirstIsOpen k) (lift (minus m.riff_size_off 4)) _ c
      (lift-Ends _ _ c (minus-Returns m.riff_size_off 4 o.riff_after))
      (λ start c₁ p.
        let same = subst (IsOpen k m) (sym p.0) o in
        Ends-if (FirstIsOpen k)
          (ltb 0 m.current_segment_packets && ltb limit (c.pos + chunk_len n + 16 - start)) _
          (pure (m, some c.pos)) c₁
          (λ _.
            Ends-bind (IsOpen k) (FirstIsOpen k) (close_current_segment m) _ c₁
              (close_current_segment-IsOpen k m c₁ same)
              (λ m₁ c₂ o₂.
                Ends-bind (IsOpen k) (FirstIsOpen k) (open_avix_segment m₁) _ c₂
                  (open_avix_segment-IsOpen k m₁ c₂ o₂) (λ m₂ c₃ o₃. o₃)))
          (λ _. same))

pub roll_segment-Ends :
    (k : Left) (m : Muxer) (n : ℕ) (c : Cursor)
    → IsOpen k m c
    → Ends (FirstIsOpen k) (roll_segment m n c)
unfolding roll_segment
roll_segment-Ends k m n c o = go m.kind
  where
    go :
        (x : AviKind)
        → Ends (FirstIsOpen k) (
            elim x as (λ _. M (Muxer × Option ℕ)) [
              | avi10 ↦ pure (m, none)
              | open_dml limit ↦ roll_open_dml m limit n
            ]
              c)
    go avi10 = o
    go (open_dml limit) = roll_open_dml-Ends k m limit n c o

enter_cluster-Ends :
    (k : Left) (m : Muxer) (x : Option ℕ) (n : ℕ) (off : Option ℕ) (c : Cursor)
    → IsOpen k m c
    → Ends (FirstIsOpen k) (enter_cluster m x n off c)
unfolding enter_cluster
enter_cluster-Ends k m x n none c o =
    Ends-bind (IsOpen k) (FirstIsOpen k) (open_rec_cluster m) _ c (open_rec_cluster-IsOpen k m c o)
      (λ m₁ c₁ o₁. o₁)
enter_cluster-Ends k m x n (some off) c o =
    Ends-if (FirstIsOpen k) (cluster_is_full m n) _ (pure (m, x)) c
      (λ _.
        Ends-bind (IsOpen k) (FirstIsOpen k) (close_rec_cluster m) _ c
          (close_rec_cluster-IsOpen k m c o)
          (λ m₁ c₁ o₁.
            Ends-bind (IsOpen k) (FirstIsOpen k) (open_rec_cluster m₁) _ c₁
              (open_rec_cluster-IsOpen k m₁ c₁ o₁) (λ m₂ c₂ o₂. o₂)))
      (λ _. o)

pub choose_cluster-Ends :
    (k : Left) (m : Muxer) (x : Option ℕ) (n : ℕ) (c : Cursor)
    → IsOpen k m c
    → Ends (FirstIsOpen k) (choose_cluster m x n c)
unfolding choose_cluster
choose_cluster-Ends k m x n c o =
    Ends-if (FirstIsOpen k) (wants_clusters m) _ (pure (m, x)) c
      (λ _. enter_cluster-Ends k m x n m.rec_open_size_off c o) (λ _. o)

pub relaid-Returns :
    (t : TrackState) (p : OutPacket) → OptionPacks t.raw_layout → Returns (λ _. Unit) (relaid t p)
unfolding relaid
relaid-Returns t p packs = elim (Bool-cases p.header) [
  | inl e ↦ rw (relaid, e) tt
  | inr e ↦ go e t.raw_layout packs
]
  where
    got :
        (e : p.header ≡ false) (l : RawLayout) (r : Outcome (Option (List ℕ)))
        → pack l p.payload ≡ r
        → Returns (λ _. Unit) r
        → Returns (λ _. Unit) (relaid (record t { raw_layout = some l }) p)
    got e l (ok none) q h = rw (relaid, e, q) tt
    got e l (ok (some wire)) q h = rw (relaid, e, q) tt
    got e l (err x) q h = rw (relaid, e, q) tt
    got e l panic q h = absurd h

    go :
        (e : p.header ≡ false) (x : Option RawLayout)
        → OptionPacks x
        → Returns (λ _. Unit) (relaid (record t { raw_layout = x }) p)
    go e none v = rw (relaid, e) tt
    go e (some l) v = got e l _ refl (pack-Returns l p.payload v)
