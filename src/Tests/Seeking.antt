-- ===== src/Tests/Seeking.antt =====
-- Seeking at concrete inputs.
use oxideav_avi.Base.{
  ◌+◌, ◌≡◌, ◌<◌, ◌≤◌, ◌⊎◌, ◌^◌, refl, List, [], ◌∷◌, none, some, ok, arith, true, false, All,
}
use oxideav_avi.Seek.{Keyframe, IdxEntry, StreamInfo, build_seek_cache, select_keyframe, first}
use oxideav_avi.Seek.Select.{Sorted, LaterThan, IsIn, select_keyframe_lem}
use oxideav_avi.Seek.Cache.{LikeScan, select_keyframe-build_seek_cache}
use oxideav_avi.Seek.To.{Demuxer, cache_of, reset_by_tables, reset_by_walk, seek_to}
use oxideav_avi.Seek.Counters.{reset_by_tables-reset_by_walk}
use oxideav_avi.Seek.Panics.{NoPanic}
use oxideav_avi.Seek.Safety.{CacheIsValid, seek_to-NoPanic}
use oxideav_avi.Seek.Landing.{Lands, seek_to-Lands}

abbrev keys : List Keyframe
keys =
    record { pts = 2 ^ 63; offset = 12 }
    ∷ record { pts = 2 ^ 63 + 5; offset = 40 }
    ∷ record { pts = 2 ^ 63 + 5; offset = 90 }
    ∷ []

keys-Sorted : Sorted keys
unfolding Sorted
keys-Sorted = (omega arith, (omega arith, tt))

select_keyframe_lem_example :
    ((r : Keyframe) × (select_keyframe keys false (2 ^ 63 + 7) ≡ ok (some r))
      × (r.pts ≤ 2 ^ 63 + 7)
      × IsIn r keys
      × LaterThan (2 ^ 63 + 7) r keys)
    ⊎ ((select_keyframe keys false (2 ^ 63 + 7) ≡ ok (first keys))
        × All (λ k. 2 ^ 63 + 7 < k.pts) keys)
select_keyframe_lem_example = select_keyframe_lem keys (2 ^ 63 + 7)

abbrev video : StreamInfo
video = record { is_audio = false; channels = none; sample_bytes = none }

abbrev table : List IdxEntry
table =
    record { stream = 0; flags = 16; offset = 12; size = 30; pts = 2 ^ 63 }
    ∷ record { stream = 1; flags = 16; offset = 50; size = 30; pts = 2 ^ 63 }
    ∷ record { stream = 0; flags = 16; offset = 90; size = 30; pts = 2 ^ 63 + 1 }
    ∷ []

select_keyframe-build_seek_cache_example :
    All
      (λ t. LikeScan (2 ^ 63) t.keyframes t.kf_monotonic)
      (build_seek_cache table [] (video ∷ video ∷ [])).idx1
    × All
        (λ t. LikeScan (2 ^ 63) t.keyframes t.kf_monotonic)
        (build_seek_cache table [] (video ∷ video ∷ [])).std
select_keyframe-build_seek_cache_example =
    select_keyframe-build_seek_cache table [] (video ∷ video ∷ []) (2 ^ 63)

offsets_rise : (build_seek_cache table [] (video ∷ video ∷ [])).idx1_off_globally_monotonic ≡ true
unfolding build_seek_cache oxideav_avi.Seek.idx1_walk
offsets_rise = refl

reset_by_tables-reset_by_walk_example :
    reset_by_tables 90 (build_seek_cache table [] (video ∷ video ∷ [])).idx1
    ≡ ok (reset_by_walk 90 table (0 ∷ 0 ∷ []))
reset_by_tables-reset_by_walk_example =
    reset_by_tables-reset_by_walk table [] (video ∷ video ∷ []) 90 offsets_rise

abbrev demuxer : Demuxer
demuxer = record {
  streams = video ∷ video ∷ [];
  idx_table = table;
  std_indexes = [];
  movi_start = 12;
  movi_segments = (12, 200) ∷ [];
  current_segment = 0;
  position = 12;
  per_stream_counter = [];
  seek_cache = none;
}

seek_to-Lands_example : Lands demuxer (seek_to demuxer 0 (2 ^ 63 + 4))
seek_to-Lands_example = seek_to-Lands demuxer 0 (2 ^ 63 + 4)

fresh : CacheIsValid demuxer
unfolding cache_of
fresh = refl

seek_to-NoPanic_example :
    NoPanic (seek_to demuxer 0 (2 ^ 63 + 4)).0 × CacheIsValid (seek_to demuxer 0 (2 ^ 63 + 4)).1
seek_to-NoPanic_example = seek_to-NoPanic demuxer 0 (2 ^ 63 + 4) fresh
