-- ===== src/Seek.antt =====
-- Seek tables of src/demuxer.rs: `build_seek_cache`, `seek_cache_select_keyframe`, the per-stream
-- counters that `seek_to` resets, and the packet durations behind them.
-- An `i64` is kept as its value plus 2^63, which keeps the order. The parallel vectors that are
-- indexed by stream are one list of records.
pub mod Select
pub mod Cache
pub mod Latest
pub mod Counters
pub mod To
pub mod Landing
pub mod Panics
pub mod Safety
use oxideav_avi.Base.{
  ℕ, zero, suc, ◌+◌, ◌-◌, ◌*◌, ◌/◌, ◌%◌, ◌^◌, List, [], ◌∷◌, ◌++◌, Option, none, some, Outcome, ok,
  panic, ◌>>=◌, length, min, max, replicate, leb, ltb, get_or, ◌==◌, if◌then◌else◌, Bool, true,
  false, ◌&&◌, not, map,
}
use oxideav_avi.Index.{StdIndexEntry, StdIndex}
use oxideav_avi.Stream.{parse_stream_index}

-- `0i64` and `i64::MAX`
abbrev pub zero_i64 : ℕ
zero_i64 = 2 ^ 63

abbrev pub i64_max : ℕ
i64_max = 2 ^ 64 - 1

abbrev pub u64_max : ℕ
u64_max = 2 ^ 64 - 1

-- The fields of `StreamInfo` that time a packet; `sample_bytes` is
-- `sample_format.bytes_per_sample()`.
pub record StreamInfo : Type 0 where
  pub is_audio : Bool
  pub channels : Option ℕ
  pub sample_bytes : Option ℕ

-- `channels.zip(sample_format).map(…).filter(|&v| v > 0)`
abbrev positive_product : Option ℕ → Option ℕ → Option ℕ
positive_product (some c) (some f) = if ltb 0 (c * f) then some (c * f) else none
positive_product _ _ = none

unfoldable pub time_delta_divisor : StreamInfo → Option ℕ
time_delta_divisor s = if s.is_audio then positive_product s.channels s.sample_bytes else none

unfoldable pub time_delta_with_divisor : Option ℕ → ℕ → ℕ
time_delta_with_divisor (some block_align) payload_len = payload_len / block_align
time_delta_with_divisor none payload_len = 1

pub record IdxEntry : Type 0 where
  pub stream : ℕ
  pub flags : ℕ
  pub offset : ℕ
  pub size : ℕ
  pub pts : ℕ

-- A keyframe's `(pts, header offset)`.
pub record Keyframe : Type 0 where
  pub pts : ℕ
  pub offset : ℕ

abbrev pub elem_at {ℓ} : {A : Type ℓ} → List A → ℕ → Outcome A
elem_at [] i = panic
elem_at (x ∷ xs) zero = ok x
elem_at (x ∷ xs) (suc i) = elem_at xs i

abbrev pub last {ℓ} : {A : Type ℓ} → List A → Option A
last [] = none
last (x ∷ []) = some x
last (x ∷ y ∷ ys) = last (y ∷ ys)

abbrev pub first {ℓ} : {A : Type ℓ} → List A → Option A
first [] = none
first (x ∷ xs) = some x

-- `seek_cache_select_keyframe`: `partition_point` of `pts <= target`, on a table it partitions.
unfoldable pub partition_point : ℕ → List Keyframe → ℕ
partition_point target [] = 0
partition_point target (k ∷ ks) =
    let rest = partition_point target ks in if leb k.pts target then suc rest else 0

-- The loop that steps back over a run of equal pts.
unfoldable pub run_start : List Keyframe → ℕ → ℕ → Outcome ℕ
run_start ks best_pts zero = ok 0
run_start ks best_pts (suc i) = do
  let rest = run_start ks best_pts i
  k ← elem_at ks i
  if k.pts == best_pts then rest else ok (suc i)

-- One step of the linear scan: the first entry of the largest pts up to the target stays.
abbrev pub better : Option Keyframe → Keyframe → Option Keyframe
better (some b) k = if leb k.pts b.pts then some b else some k
better none k = some k

unfoldable pub scan_step : ℕ → Option Keyframe → Keyframe → Option Keyframe
scan_step target best k = if leb k.pts target then better best k else best

unfoldable pub linear_scan : ℕ → Option Keyframe → List Keyframe → Option Keyframe
linear_scan target best [] = best
linear_scan target best (k ∷ ks) = linear_scan target (scan_step target best k) ks

abbrev pub or_first : Option Keyframe → List Keyframe → Option Keyframe
or_first (some b) ks = some b
or_first none ks = first ks

unfoldable pub select_last : List Keyframe → ℕ → Outcome (Option Keyframe)
select_last ks zero = ok (first ks)
select_last ks (suc i) = do
  k ← elem_at ks i
  j ← run_start ks k.pts i
  landed ← elem_at ks j
  ok (some landed)

unfoldable pub select_keyframe : List Keyframe → Bool → ℕ → Outcome (Option Keyframe)
select_keyframe keyframes monotonic target =
    if monotonic
    then select_last keyframes (partition_point target keyframes)
    else ok (or_first (linear_scan target none keyframes) keyframes)

-- What `build_seek_cache` keeps of `idx1` for one stream.
pub record Idx1Tables : Type 0 where
  pub keyframes : List Keyframe
  pub kf_monotonic : Bool
  pub entries : List (ℕ × ℕ)

-- And of the `ix##` chunks: the running counters are dropped at the end.
pub record StdTables : Type 0 where
  pub keyframes : List Keyframe
  pub kf_monotonic : Bool
  pub entries : List (ℕ × ℕ)
  pub off_monotonic : Bool
  pub running_signed : ℕ
  pub running_unsigned : ℕ

-- The value at an index, changed; out of range, nothing.
abbrev pub update {ℓ} : {A : Type ℓ} → ℕ → (A → A) → List A → List A
update i f [] = []
update zero f (x ∷ xs) = f x ∷ xs
update (suc i) f (x ∷ xs) = x ∷ update i f xs

-- `flags & AVIIF_KEYFRAME != 0`
unfoldable pub is_keyframe : ℕ → Bool
is_keyframe flags = flags / 16 % 2 == 1

-- A table stays monotonic unless the new key is below the last one.
abbrev pub follows : List Keyframe → ℕ → Bool
follows ks pts = elim (last ks) [ none ↦ true | some k ↦ leb k.pts pts ]

abbrev keyframe : ℕ → ℕ → Keyframe
keyframe p o = record { pts = p; offset = o }

-- One `idx1` entry, in the tables of its stream.
unfoldable pub idx1_push : IdxEntry → Idx1Tables → Idx1Tables
idx1_push e t =
    let entries = t.entries ++ (e.offset, e.pts) ∷ [] in
    if is_keyframe e.flags
    then record {
      keyframes = t.keyframes ++ keyframe e.pts e.offset ∷ [];
      kf_monotonic = t.kf_monotonic && follows t.keyframes e.pts;
      entries = entries;
    }
    else record { keyframes = t.keyframes; kf_monotonic = t.kf_monotonic; entries = entries }

-- The walk over `idx_table`: the previous offset, the flag of the offsets, the streams' tables.
unfoldable pub idx1_walk : List IdxEntry → ℕ → Bool → List Idx1Tables → Bool × List Idx1Tables
idx1_walk [] prev_global_off monotonic ts = (monotonic, ts)
idx1_walk (e ∷ es) prev_global_off monotonic ts =
    idx1_walk es e.offset (if ltb e.offset prev_global_off then false else monotonic)
      (update e.stream (idx1_push e) ts)

-- One `ix##` entry, in the tables of its stream, whose counters then advance.
unfoldable pub std_push : ℕ → Option ℕ → StdIndexEntry → StdTables → StdTables
std_push qw_base_offset divisor e t =
    let header_off = min (qw_base_offset + e.dw_offset) u64_max - 8 in
    let bump = time_delta_with_divisor divisor e.dw_size in
    record {
      keyframes =
          if e.is_keyframe
          then t.keyframes ++ keyframe t.running_signed header_off ∷ []
          else t.keyframes;
      kf_monotonic =
          if e.is_keyframe
          then t.kf_monotonic && follows t.keyframes t.running_signed
          else t.kf_monotonic;
      entries = t.entries ++ (header_off, t.running_unsigned) ∷ [];
      off_monotonic = elim (last t.entries) [
        | none ↦ t.off_monotonic
        | some p ↦ if ltb header_off p.0 then false else t.off_monotonic
      ];
      running_signed = min (t.running_signed + bump) i64_max;
      running_unsigned = min (t.running_unsigned + bump) u64_max;
    }

unfoldable pub std_push_all : ℕ → Option ℕ → List StdIndexEntry → StdTables → StdTables
std_push_all qw_base_offset divisor [] t = t
std_push_all qw_base_offset divisor (e ∷ es) t =
    std_push_all qw_base_offset divisor es (std_push qw_base_offset divisor e t)

-- A chunk whose id names no stream is skipped, and so is one of a stream that is not there.
unfoldable pub std_walk : List StdIndex → List (Option ℕ) → List StdTables → List StdTables
std_walk [] divisors ts = ts
std_walk (ix ∷ ixs) divisors ts = std_walk ixs divisors (elim (parse_stream_index ix.chunk_id) [
  | none ↦ ts
  | some s ↦ update s (std_push_all ix.qw_base_offset (get_or divisors s none) ix.entries) ts
])

pub record SeekCache : Type 0 where
  pub idx1 : List Idx1Tables
  pub idx1_off_globally_monotonic : Bool
  pub std : List StdTables

unfoldable pub build_seek_cache : List IdxEntry → List StdIndex → List StreamInfo → SeekCache
build_seek_cache idx_table std_indexes streams =
    let n = length streams in
    let (monotonic, idx1) =
      idx1_walk idx_table 0 true
        (replicate n (record { keyframes = []; kf_monotonic = true; entries = [] })) in
    record {
      idx1 = idx1;
      idx1_off_globally_monotonic = monotonic;
      std = std_walk std_indexes (map time_delta_divisor streams) (
          replicate n (record {
            keyframes = [];
            kf_monotonic = true;
            entries = [];
            off_monotonic = true;
            running_signed = zero_i64;
            running_unsigned = 0;
          }));
    }
