-- ===== src/Mux/Ticks.antt =====
-- src/muxer.rs: how much `AviMuxer::write_packet` can add to the counters of a track.
use oxideav_avi.Base.{
  ℕ, ◌+◌, ◌-◌, ◌≤◌, List, [], ◌∷◌, Option, none, some, max, arith, Bool-cases, inl, inr, ltb,
  if◌then◌else◌,
}
use native.Mathlib.Nat.{div-le_self}
use oxideav_avi.Riff.{u32_max}
use oxideav_avi.Seek.{zero_i64}
use oxideav_avi.Mux.{OutPacket, TrackState, sample_count_of_packet}

-- No chunk has more samples than this, nor more bytes: its duration, if that is given, or the largest
-- size of a chunk.
unfoldable pub most_ticks : Option ℕ → ℕ
most_ticks none = u32_max
most_ticks (some d) = max u32_max (d - zero_i64)

unfoldable pub all_ticks : List OutPacket → ℕ
unfolding most_ticks
all_ticks [] = 0
all_ticks (p ∷ ps) = most_ticks p.duration + all_ticks ps

pub u32_max-most_ticks : (x : Option ℕ) → u32_max ≤ most_ticks x
unfolding most_ticks
u32_max-most_ticks none = omega arith
u32_max-most_ticks (some d) = omega arith

pub sample_count_of_packet-most_ticks :
    (t : TrackState) (size : ℕ) (x : Option ℕ)
    → size ≤ u32_max
    → sample_count_of_packet t size x ≤ most_ticks x
unfolding sample_count_of_packet most_ticks
sample_count_of_packet-most_ticks t size x h = elim (Bool-cases t.is_auds) [
  | inr e ↦ rw e (omega (arith, u32_max-most_ticks x))
  | inl e ↦ elim (Bool-cases (ltb 0 t.sample_size)) [
    | inl f ↦
        rw (e, f)
          (let q = div-le_self size t.sample_size in let b = u32_max-most_ticks x in omega arith)
    | inr f ↦ rw (e, f) (one_chunk x)
  ]
]
  where
    one_chunk :
        (y : Option ℕ)
        → elim y [ none ↦ 1 | some d ↦ if ltb zero_i64 d then d - zero_i64 else 1 ] ≤ most_ticks y
    one_chunk none = omega arith
    one_chunk (some d) = ground arith
