-- ===== src/Seek/Safety.antt =====
-- `seek_to` does not panic: every index that it uses is in range.
use oxideav_avi.Base.{
  ℕ, ◌<◌, ◌≡◌, List, Outcome, ok, err, panic, ◌>>=◌, guard, true, arith, Bool-cases, ◌>>◌, inl, inr,
  length, length-replicate, leb, not, unsupported, invalid,
}
use oxideav_avi.Index.{StdIndex}
use oxideav_avi.Seek.{
  IdxEntry, StreamInfo, Idx1Tables, StdTables, SeekCache, elem_at, build_seek_cache,
  select_keyframe,
}
use oxideav_avi.Seek.Cache.{LikeScan, select_keyframe-build_seek_cache}
use oxideav_avi.Seek.To.{
  Demuxer, Landing, reset_idx1, segment_of, ok_or, choose_idx1, choose_std, place, land_idx1,
  land_std, commit, seek_to, cache_of, ensure_seek_cache, is_empty,
}
use oxideav_avi.Seek.Panics.{
  NoPanic, NoPanic-bind, elem_at-NoPanic, elem_at-All, ok_or-NoPanic, ok_or_invalid-NoPanic,
  guard-NoPanic, length-idx1_walk, length-std_walk, reset_by_tables-NoPanic, reset_std-NoPanic,
  select_keyframe-NoPanic,
}

module _ (idx_table : List IdxEntry) (std_indexes : List StdIndex) (streams : List StreamInfo)
    (s pts : ℕ) (known : s < length streams) where
  abbrev built : SeekCache
  built = build_seek_cache idx_table std_indexes streams

  in_idx1 : s < length built.idx1
  unfolding build_seek_cache
  in_idx1 =
      rw (length-idx1_walk idx_table 0 true _, length-replicate {A = Idx1Tables} (length streams) _)
        known

  in_std : s < length built.std
  unfolding build_seek_cache
  in_std =
      rw (length-std_walk std_indexes _ _, length-replicate {A = StdTables} (length streams) _)
        known

  choose_idx1-NoPanic : NoPanic (choose_idx1 built s pts)
  unfolding choose_idx1
  choose_idx1-NoPanic =
      NoPanic-bind (elem_at built.idx1 s)
        (λ t. do landed ← select_keyframe t.keyframes t.kf_monotonic pts; ok_or landed unsupported)
        (elem_at-NoPanic built.idx1 s in_idx1)
        (λ t e.
          NoPanic-bind (select_keyframe t.keyframes t.kf_monotonic pts)
            (λ landed. ok_or landed unsupported)
            (select_keyframe-NoPanic pts t.keyframes t.kf_monotonic (
              elem_at-All (λ t. LikeScan pts t.keyframes t.kf_monotonic) built.idx1 s t
                (select_keyframe-build_seek_cache idx_table std_indexes streams pts).0 e))
            (λ k p. ok_or-NoPanic k))

  choose_std-NoPanic : NoPanic (choose_std built s pts)
  unfolding choose_std
  choose_std-NoPanic =
      NoPanic-bind (elem_at built.std s)
        (λ t. do
          guard (not (is_empty t.entries)) unsupported
          landed ← select_keyframe t.keyframes t.kf_monotonic pts
          ok_or landed unsupported)
        (elem_at-NoPanic built.std s in_std)
        (λ t e.
          NoPanic-bind (guard (not (is_empty t.entries)) unsupported)
            (λ u. do
              landed ← select_keyframe t.keyframes t.kf_monotonic pts
              ok_or landed unsupported)
            (guard-NoPanic (not (is_empty t.entries)))
            (λ u q.
              NoPanic-bind (select_keyframe t.keyframes t.kf_monotonic pts)
                (λ landed. ok_or landed unsupported)
                (select_keyframe-NoPanic pts t.keyframes t.kf_monotonic (
                  elem_at-All (λ t. LikeScan pts t.keyframes t.kf_monotonic) built.std s t
                    (select_keyframe-build_seek_cache idx_table std_indexes streams pts).1 e))
                (λ k p. ok_or-NoPanic k)))

place-NoPanic :
    (d : Demuxer) (p off : ℕ) (reset : Outcome (List ℕ))
    → NoPanic reset
    → NoPanic (place d p off reset)
unfolding place
place-NoPanic d p off reset n =
    NoPanic-bind (ok_or (segment_of off 0 d.movi_segments) invalid)
      (λ seg. do
        counters ← reset
        ok (record { landed_pts = p; target_off = off; segment = seg; counters = counters }))
      (ok_or_invalid-NoPanic (segment_of off 0 d.movi_segments))
      (λ seg e.
        NoPanic-bind reset
          (λ counters.
            ok (record { landed_pts = p; target_off = off; segment = seg; counters = counters }))
          n (λ counters q. tt))

reset_idx1-NoPanic : (d : Demuxer) (c : SeekCache) (off : ℕ) → NoPanic (reset_idx1 d c off)
unfolding reset_idx1
reset_idx1-NoPanic d c off = elim (Bool-cases c.idx1_off_globally_monotonic) [
  | inl e ↦ rw e (reset_by_tables-NoPanic off c.idx1)
  | inr e ↦ rw e tt
]

-- The cache, if there is one, is that of the demuxer's own indexes.
abbrev pub CacheIsValid : Demuxer → Type 0
CacheIsValid d = cache_of d ≡ build_seek_cache d.idx_table d.std_indexes d.streams

commit-NoPanic :
    (d : Demuxer) (o : Outcome Landing)
    → CacheIsValid d
    → NoPanic o
    → NoPanic (commit (ensure_seek_cache d) o).0 × CacheIsValid (commit (ensure_seek_cache d) o).1
unfolding commit ensure_seek_cache cache_of
commit-NoPanic d (ok l) v n = (tt, v)
commit-NoPanic d (err e) v n = (tt, v)
commit-NoPanic d panic v n = absurd n

land_idx1-NoPanic :
    (d : Demuxer) (s pts : ℕ)
    → CacheIsValid d
    → s < length d.streams
    → NoPanic (land_idx1 d (cache_of d) s pts)
unfolding land_idx1
land_idx1-NoPanic d s pts v h = rw v (
    NoPanic-bind (choose_idx1 (built d.idx_table d.std_indexes d.streams s pts h) s pts) _
      (choose_idx1-NoPanic d.idx_table d.std_indexes d.streams s pts h)
      (λ k e. place-NoPanic d k.pts _ _ (reset_idx1-NoPanic d _ _)))

land_std-NoPanic :
    (d : Demuxer) (s pts : ℕ)
    → CacheIsValid d
    → s < length d.streams
    → NoPanic (land_std d (cache_of d) s pts)
unfolding land_std
land_std-NoPanic d s pts v h = rw v (
    NoPanic-bind (choose_std (built d.idx_table d.std_indexes d.streams s pts h) s pts) _
      (choose_std-NoPanic d.idx_table d.std_indexes d.streams s pts h)
      (λ k e. place-NoPanic d k.pts _ _ (reset_std-NoPanic _ _)))

-- On a demuxer whose cache, if it has one, was built from its own indexes, no `seek_to` panics,
-- and the cache that it leaves is again the one of the indexes.
pub seek_to-NoPanic :
    (d : Demuxer) (stream_index pts : ℕ)
    → CacheIsValid d
    → NoPanic (seek_to d stream_index pts).0 × CacheIsValid (seek_to d stream_index pts).1
unfolding seek_to
seek_to-NoPanic d s pts v = elim (Bool-cases (leb (length d.streams) s)) [
  | inl e ↦ rw e (tt, v)
  | inr e ↦
      let h : s < length d.streams = ground arith in
      elim (Bool-cases (is_empty d.idx_table)) [
        | inr f ↦ rw (e, f) (commit-NoPanic d _ v (land_idx1-NoPanic d s pts v h))
        | inl f ↦ elim (Bool-cases (is_empty d.std_indexes)) [
          | inr g ↦ rw (e, f, g) (commit-NoPanic d _ v (land_std-NoPanic d s pts v h))
          | inl g ↦ rw (e, f, g) (tt, v)
        ]
      ]
]
