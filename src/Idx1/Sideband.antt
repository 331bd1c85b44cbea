-- ===== src/Idx1/Sideband.antt =====
-- The two walks over `idx1` for side-band chunks agree on the palette changes of every stream.
use oxideav_avi.Base.{
  ℕ, ◌-◌, zero, suc, ◌≡◌, List, [], ◌∷◌, true, false, arith, Bool-cases, Option-cases, inl, inr,
  replicate, length, length-append, length-replicate, map, min, leb, ltb, le→ltb, ◌^◌,
}
use oxideav_avi.Bytes.{Fourcc}
use oxideav_avi.Stream.{parse_stream_index}
use oxideav_avi.Seek.{update}
use oxideav_avi.Idx1.{
  IndexEntry, is_pc, is_tx, count_u32, sideband_counts, scan_idx1_sideband_counts, Positions,
  position_step, position_walk, compute_palette_change_positions, raw_entries,
}

-- Each count is the number of positions, up to the largest `u32`.
pub Counts : List (List ℕ) → List ℕ → Type 0
Counts [] [] = Unit
Counts (p ∷ ps) (c ∷ cs) = (c ≡ min (length p) (2 ^ 32 - 1)) × Counts ps cs
Counts _ _ = ⊥

abbrev CountsOf : List Positions → List ℕ → Type 0
CountsOf ps cs = Counts (map (λ p. p.changes) ps) cs

CountsOf-pc :
    (k : Fourcc) (s : ℕ) (ps : List Positions) (cs : List ℕ)
    → is_pc k ≡ true
    → CountsOf ps cs
    → CountsOf (update s (position_step k) ps) (update s count_u32 cs)
unfolding Counts
CountsOf-pc k s [] [] e h = tt
CountsOf-pc k zero (p ∷ ps) (c ∷ cs) e h =
    (rw e (omega (arith, length-append p.changes (p.data_count ∷ []))), h.1)
CountsOf-pc k (suc s) (p ∷ ps) (c ∷ cs) e h = (h.0, CountsOf-pc k s ps cs e h.1)
CountsOf-pc k s [] (c ∷ cs) e h = absurd h
CountsOf-pc k s (p ∷ ps) [] e h = absurd h

CountsOf-other :
    (k : Fourcc) (s : ℕ) (ps : List Positions) (cs : List ℕ)
    → is_pc k ≡ false
    → CountsOf ps cs
    → CountsOf (update s (position_step k) ps) cs
unfolding Counts
CountsOf-other k s [] [] e h = tt
CountsOf-other k zero (p ∷ ps) (c ∷ cs) e h = elim (Bool-cases (is_tx k)) [
  | inl f ↦ rw (e, f) h
  | inr f ↦ rw (e, f) h
]
CountsOf-other k (suc s) (p ∷ ps) (c ∷ cs) e h = (h.0, CountsOf-other k s ps cs e h.1)
CountsOf-other k s [] (c ∷ cs) e h = absurd h
CountsOf-other k s (p ∷ ps) [] e h = absurd h

walk-CountsOf :
    (n : ℕ) (es : List IndexEntry) (ps : List Positions) (cs ts : List ℕ)
    → CountsOf ps cs
    → CountsOf (position_walk n es ps) (sideband_counts n es (cs, ts)).0
unfolding position_walk sideband_counts
walk-CountsOf n [] ps cs ts h = h
walk-CountsOf n (e ∷ es) ps cs ts h = elim (Option-cases (parse_stream_index e.ckid)) [
  | inl p ↦ rw (position_walk, sideband_counts, p) (walk-CountsOf n es ps cs ts h)
  | inr (s, p) ↦ elim (Bool-cases (leb n s)) [
    | inl q ↦ rw (position_walk, sideband_counts, p, q) (walk-CountsOf n es ps cs ts h)
    | inr q ↦ elim (Bool-cases (is_pc e.ckid)) [
      | inl c ↦
          rw (position_walk, sideband_counts, p, q, c)
            (walk-CountsOf n es (update s (position_step e.ckid) ps) (update s count_u32 cs) ts
              (CountsOf-pc e.ckid s ps cs c h))
      | inr c ↦ elim (Bool-cases (is_tx e.ckid)) [
        | inl x ↦
            rw (position_walk, sideband_counts, p, q, c, x)
              (walk-CountsOf n es (update s (position_step e.ckid) ps) cs (update s count_u32 ts)
                (CountsOf-other e.ckid s ps cs c h))
        | inr x ↦
            rw (position_walk, sideband_counts, p, q, c, x)
              (walk-CountsOf n es (update s (position_step e.ckid) ps) cs ts
                (CountsOf-other e.ckid s ps cs c h))
      ]
    ]
  ]
]

CountsOf-replicate :
    (n : ℕ) → CountsOf (replicate n (record { changes = []; data_count = 0 })) (replicate n 0)
unfolding Counts
CountsOf-replicate zero = tt
CountsOf-replicate (suc n) = (omega arith, CountsOf-replicate n)

-- On any index, and for every stream, the count of palette changes that the one walk ends with, from
-- counts of zero, is the number of positions that the other records, up to the largest `u32`.
pub scan_idx1_sideband_counts-positions :
    (raw : List ℕ) (n : ℕ)
    → Counts
        (compute_palette_change_positions raw n)
        (scan_idx1_sideband_counts raw n (replicate n 0, replicate n 0)).0
unfolding compute_palette_change_positions scan_idx1_sideband_counts
scan_idx1_sideband_counts-positions raw n =
    let z : ltb (length (replicate {A = ℕ} n 0)) n ≡ false =
      rw (length-replicate {A = ℕ} n 0) (le→ltb n n (omega arith)) in
    rw z (walk-CountsOf n (raw_entries raw) _ _ _ (CountsOf-replicate n))
