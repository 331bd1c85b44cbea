-- ===== src/Seek/Landing.antt =====
-- `seek_to` leaves the demuxer inside a segment of `movi`, or where it was.
use oxideav_avi.Base.{
  ℕ, suc, ◌+◌, ◌≤◌, ◌<◌, ◌≡◌, ◌≢◌, refl, List, [], ◌∷◌, some, Outcome, ok, err, panic, ◌>>=◌, ◌&&◌,
  arith, Bool-cases, ◌⊎◌, inl, inr, Option-cases, max, leb, ltb, length,
}
use oxideav_avi.Seek.{SeekCache, elem_at}
use oxideav_avi.Seek.To.{
  Demuxer, Landing, segment_of, choose_idx1, choose_std, place, reset_idx1, reset_std, land_idx1,
  land_std, commit, seek_to, cache_of, ensure_seek_cache, is_empty,
}

-- The byte at an offset stands in the segment of that number.
abbrev pub InSegment : List (ℕ × ℕ) → ℕ → ℕ → Type 0
InSegment segments i off = (s : ℕ × ℕ) × (elem_at segments i ≡ ok s) × (s.0 ≤ off) × (off < s.1)

segment_of-some :
    (off i k : ℕ) (ss : List (ℕ × ℕ))
    → segment_of off i ss ≡ some k
    → (j : ℕ) × (k ≡ i + j) × InSegment ss j off
unfolding segment_of
segment_of-some off i k [] h = ground arith
segment_of-some off i k (s ∷ ss) h = elim (Bool-cases (leb s.0 off && ltb off s.1)) [
  | inl z ↦ (0, ground arith, (s, refl, ground arith, ground arith))
  | inr z ↦
      let (j, e, r) = segment_of-some off (suc i) k ss (ground arith) in (suc j, omega arith, r)
]

abbrev LandsIn : Demuxer → Landing → Type 0
LandsIn d l = InSegment d.movi_segments l.segment l.target_off

abbrev OkLands : Demuxer → Outcome Landing → Type 0
OkLands d (ok l) = LandsIn d l
OkLands d (err e) = Unit
OkLands d panic = Unit

OkLands-bind {ℓ} :
    {A : Type ℓ} (d : Demuxer) (m : Outcome A) (f : A → Outcome Landing)
    → ((a : A) → m ≡ ok a → OkLands d (f a))
    → OkLands d (m >>= f)
OkLands-bind d (ok a) f h = h a refl
OkLands-bind d (err e) f h = tt
OkLands-bind d panic f h = tt

place-OkLands :
    (d : Demuxer) (p off : ℕ) (reset : Outcome (List ℕ)) → OkLands d (place d p off reset)
unfolding place
place-OkLands d p off reset = elim (Option-cases (segment_of off 0 d.movi_segments)) [
  | inl e ↦ rw (◌>>=◌, e) tt
  | inr (k, e) ↦
      let (j, q, r) = segment_of-some off 0 k d.movi_segments e in
      let h : k ≡ j = omega arith in rw e (counted k (rw h r) reset)
]
  where
    counted :
        (k : ℕ)
        → InSegment d.movi_segments k off
        → (o : Outcome (List ℕ))
        → OkLands d (do
          counters ← o
          ok (record { landed_pts = p; target_off = off; segment = k; counters = counters }))
    counted k r (ok cs) = r
    counted k r (err e) = tt
    counted k r panic = tt

land_idx1-OkLands : (d : Demuxer) (c : SeekCache) (s p : ℕ) → OkLands d (land_idx1 d c s p)
unfolding land_idx1
land_idx1-OkLands d c s p =
    OkLands-bind d (choose_idx1 c s p)
      (λ k. place d k.pts (max k.offset d.movi_start) (reset_idx1 d c (max k.offset d.movi_start)))
      (λ k e. place-OkLands d k.pts _ _)

land_std-OkLands : (d : Demuxer) (c : SeekCache) (s p : ℕ) → OkLands d (land_std d c s p)
unfolding land_std
land_std-OkLands d c s p =
    OkLands-bind d (choose_std c s p) (λ k. place d k.pts k.offset (reset_std k.offset c.std))
      (λ k e. place-OkLands d k.pts _ _)

-- A seek that does not return leaves the position, the segment and the counters as they were.
abbrev pub Stays : Demuxer → Demuxer → Type 0
Stays d e =
    (e.position ≡ d.position)
    × (e.current_segment ≡ d.current_segment)
    × (e.per_stream_counter ≡ d.per_stream_counter)

abbrev pub Lands : Demuxer → Outcome ℕ × Demuxer → Type 0
Lands d r =
    ((pts : ℕ) × (r.0 ≡ ok pts) × InSegment d.movi_segments r.1.current_segment r.1.position)
    ⊎ (((pts : ℕ) → r.0 ≢ ok pts) × Stays d r.1)

commit-Lands :
    (d : Demuxer) (o : Outcome Landing) → OkLands d o → Lands d (commit (ensure_seek_cache d) o)
unfolding commit ensure_seek_cache
commit-Lands d (ok l) h = inl (l.landed_pts, refl, h)
commit-Lands d (err e) h = inr ((λ pts q. ground arith), (refl, refl, refl))
commit-Lands d panic h = inr ((λ pts q. ground arith), (refl, refl, refl))

-- After `seek_to` either the call has returned a pts and the input stands inside the segment of
-- `movi` that the demuxer names as the current one, or it has not returned a pts and the position,
-- the segment and the counters are the old ones.
pub seek_to-Lands : (d : Demuxer) (stream_index pts : ℕ) → Lands d (seek_to d stream_index pts)
unfolding seek_to
seek_to-Lands d s pts = elim (Bool-cases (leb (length d.streams) s)) [
  | inl e ↦ rw e (inr ((λ p q. ground arith), (refl, refl, refl)))
  | inr e ↦ elim (Bool-cases (is_empty d.idx_table)) [
    | inr f ↦ rw (e, f) (commit-Lands d _ (land_idx1-OkLands d (cache_of d) s pts))
    | inl f ↦ elim (Bool-cases (is_empty d.std_indexes)) [
      | inr g ↦ rw (e, f, g) (commit-Lands d _ (land_std-OkLands d (cache_of d) s pts))
      | inl g ↦ rw (e, f, g) (inr ((λ p q. ground arith), (refl, refl, refl)))
    ]
  ]
]
