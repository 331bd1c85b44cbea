-- ===== src/Seek/To.antt =====
-- `AviDemuxer::seek_to` and `seek_via_std_indexes` of src/demuxer.rs, with the state that they change.
-- Seeking the input itself succeeds. `sat_max_0` is `pts.max(0) as u64`.
use oxideav_avi.Base.{
  ℕ, zero, suc, ◌-◌, List, [], ◌∷◌, Option, none, some, Outcome, ok, err, panic, Error, ◌>>=◌, ◌>>◌,
  guard, length, replicate, set, max, invalid, unsupported, leb, ltb, if◌then◌else◌, Bool, true,
  false, ◌&&◌, not,
}
use oxideav_avi.Index.{StdIndex}
use oxideav_avi.Seek.{
  Keyframe, IdxEntry, StreamInfo, Idx1Tables, StdTables, SeekCache, build_seek_cache,
  select_keyframe, elem_at, zero_i64,
}

pub record Demuxer : Type 0 where
  pub streams : List StreamInfo
  pub idx_table : List IdxEntry
  pub std_indexes : List StdIndex
  pub movi_start : ℕ
  pub movi_segments : List (ℕ × ℕ)
  pub current_segment : ℕ
  pub position : ℕ
  pub per_stream_counter : List ℕ
  pub seek_cache : Option SeekCache

unfoldable pub cache_of : Demuxer → SeekCache
cache_of d = elim d.seek_cache [
  | some c ↦ c
  | none ↦ build_seek_cache d.idx_table d.std_indexes d.streams
]

unfoldable pub ensure_seek_cache : Demuxer → Demuxer
ensure_seek_cache d = record d { seek_cache = some (cache_of d) }

abbrev pub sat_max_0 : ℕ → ℕ
sat_max_0 pts = pts - zero_i64

abbrev pub is_empty {ℓ} : {A : Type ℓ} → List A → Bool
is_empty [] = true
is_empty (x ∷ xs) = false

-- `partition_point(|&(off, _)| off <= target_off)`
unfoldable pub entry_point : ℕ → List (ℕ × ℕ) → ℕ
entry_point target_off [] = 0
entry_point target_off (e ∷ es) =
    let rest = entry_point target_off es in if leb e.0 target_off then suc rest else 0

-- `p.checked_sub(1)`, then `entries[i]`.
abbrev pub entry_before : List (ℕ × ℕ) → ℕ → Outcome (Option (ℕ × ℕ))
entry_before entries zero = ok none
entry_before entries (suc i) = do e ← elem_at entries i; ok (some e)

-- The latest entry at or before the offset.
unfoldable pub latest_entry : ℕ → List (ℕ × ℕ) → Outcome (Option (ℕ × ℕ))
latest_entry target_off entries = entry_before entries (entry_point target_off entries)

-- `rfind(|&&(off, _)| off <= target_off)`
unfoldable pub latest_scan : ℕ → List (ℕ × ℕ) → Option (ℕ × ℕ)
latest_scan target_off [] = none
latest_scan target_off (e ∷ es) = elim (latest_scan target_off es) [
  | some r ↦ some r
  | none ↦ if leb e.0 target_off then some e else none
]

abbrev pub counter_idx1 : Option (ℕ × ℕ) → ℕ
counter_idx1 (some e) = sat_max_0 e.1
counter_idx1 none = 0

abbrev pub counter_std : Option (ℕ × ℕ) → ℕ
counter_std (some e) = e.1
counter_std none = 0

-- The counters of `seek_to` where the offsets of `idx1` never decrease, by each stream's table.
unfoldable pub reset_by_tables : ℕ → List Idx1Tables → Outcome (List ℕ)
reset_by_tables target_off [] = ok []
reset_by_tables target_off (t ∷ ts) = do
  e ← latest_entry target_off t.entries
  rest ← reset_by_tables target_off ts
  ok (counter_idx1 e ∷ rest)

-- And where they do: the walk over `idx1` up to the first entry past the offset.
unfoldable pub reset_by_walk : ℕ → List IdxEntry → List ℕ → List ℕ
reset_by_walk target_off [] counters = counters
reset_by_walk target_off (e ∷ es) counters =
    let rest = reset_by_walk target_off es (set counters e.stream (sat_max_0 e.pts)) in
    if ltb target_off e.offset then counters else rest

unfoldable pub reset_std : ℕ → List StdTables → Outcome (List ℕ)
reset_std target_off [] = ok []
reset_std target_off (t ∷ ts) = do
  e ←
      (if t.off_monotonic
        then latest_entry target_off t.entries
        else ok (latest_scan target_off t.entries))
  rest ← reset_std target_off ts
  ok (counter_std e ∷ rest)

-- `movi_segments.iter().position(…)`
unfoldable pub segment_of : ℕ → ℕ → List (ℕ × ℕ) → Option ℕ
segment_of off i [] = none
segment_of off i (s ∷ ss) =
    let rest = segment_of off (suc i) ss in if leb s.0 off && ltb off s.1 then some i else rest

abbrev pub ok_or {ℓ} : {A : Type ℓ} → Option A → Error → Outcome A
ok_or (some a) e = ok a
ok_or none e = err e

-- What a seek that succeeds returns and sets.
pub record Landing : Type 0 where
  pub landed_pts : ℕ
  pub target_off : ℕ
  pub segment : ℕ
  pub counters : List ℕ

-- The keyframe to land on: from `idx1`, and from the `ix##` chunks.
unfoldable pub choose_idx1 : SeekCache → ℕ → ℕ → Outcome Keyframe
choose_idx1 cache stream_index pts = do
  tables ← elem_at cache.idx1 stream_index
  landed ← select_keyframe tables.keyframes tables.kf_monotonic pts
  ok_or landed unsupported

unfoldable pub choose_std : SeekCache → ℕ → ℕ → Outcome Keyframe
choose_std cache stream_index pts = do
  tables ← elem_at cache.std stream_index
  guard (not (is_empty tables.entries)) unsupported
  landed ← select_keyframe tables.keyframes tables.kf_monotonic pts
  ok_or landed unsupported

-- The segment that holds the offset, then the counters.
unfoldable pub place : Demuxer → ℕ → ℕ → Outcome (List ℕ) → Outcome Landing
place d landed_pts target_off reset = do
  seg ← ok_or (segment_of target_off 0 d.movi_segments) invalid
  counters ← reset
  ok (record {
    landed_pts = landed_pts;
    target_off = target_off;
    segment = seg;
    counters = counters;
  })

unfoldable pub reset_idx1 : Demuxer → SeekCache → ℕ → Outcome (List ℕ)
reset_idx1 d cache target_off =
    if cache.idx1_off_globally_monotonic
    then reset_by_tables target_off cache.idx1
    else ok (reset_by_walk target_off d.idx_table (replicate (length d.streams) 0))

unfoldable pub land_idx1 : Demuxer → SeekCache → ℕ → ℕ → Outcome Landing
land_idx1 d cache stream_index pts = do
  k ← choose_idx1 cache stream_index pts
  place d k.pts (max k.offset d.movi_start) (reset_idx1 d cache (max k.offset d.movi_start))

unfoldable pub land_std : Demuxer → SeekCache → ℕ → ℕ → Outcome Landing
land_std d cache stream_index pts = do
  k ← choose_std cache stream_index pts
  place d k.pts k.offset (reset_std k.offset cache.std)

-- The result of the call, and the demuxer after it.
unfoldable pub commit : Demuxer → Outcome Landing → Outcome ℕ × Demuxer
commit d (ok l) = (
  ok l.landed_pts,
  record d {
    current_segment = l.segment;
    position = l.target_off;
    per_stream_counter = l.counters;
  },
)
commit d (err e) = (err e, d)
commit d panic = (panic, d)

unfoldable pub seek_to : Demuxer → ℕ → ℕ → Outcome ℕ × Demuxer
seek_to d stream_index pts =
    let cached = ensure_seek_cache d in
    if leb (length d.streams) stream_index
    then (err invalid, d)
    else if not (is_empty d.idx_table)
    then commit cached (land_idx1 d (cache_of d) stream_index pts)
    else if not (is_empty d.std_indexes)
    then commit cached (land_std d (cache_of d) stream_index pts)
    else (err unsupported, d)
