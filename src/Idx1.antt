-- ===== src/Idx1.antt =====
-- The AVI 1.0 index: src/muxer.rs `IndexEntry` and `serialize_idx1`, src/demuxer.rs `build_idx_table`,
-- `scan_idx1_sideband_counts` and `compute_palette_change_positions`.
-- The 16-byte records are read in order; a rest of fewer bytes is not read. Pts are kept as in Seek.
pub mod Table
pub mod Sideband
use oxideav_avi.Base.{
  ℕ, zero, suc, ◌+◌, ◌-◌, ◌*◌, ◌/◌, ◌^◌, List, [], ◌∷◌, ◌++◌, Option, none, some, Outcome, ok,
  ◌>>=◌, length, min, replicate, take, drop, leb, ltb, ◌==◌, set, if◌then◌else◌, Bool, true, false,
  ◌&&◌, not, map,
}
use oxideav_avi.Bytes.{le32, of_le32, Fourcc, fourcc, fourcc_bytes, same_fourcc}
use oxideav_avi.Stream.{parse_stream_index}
use oxideav_avi.Seek.{
  StreamInfo, IdxEntry, time_delta_divisor, time_delta_with_divisor, elem_at, zero_i64, i64_max,
  u64_max, update,
}

pub record IndexEntry : Type 0 where
  pub ckid : Fourcc
  pub flags : ℕ
  pub offset : ℕ
  pub size : ℕ

unfoldable pub index_bytes : List IndexEntry → List ℕ
index_bytes [] = []
index_bytes (e ∷ es) =
    fourcc_bytes e.ckid ++ le32 e.flags ++ le32 e.offset ++ le32 e.size ++ index_bytes es

-- The `ix##` snapshot in place of the running index, if that is asked for and there is one.
unfoldable pub serialize_idx1 : Bool → Bool → List IndexEntry → List IndexEntry → List ℕ
serialize_idx1 synthesise_idx1_from_ix open_dml primary_ix_snapshot index =
    if synthesise_idx1_from_ix && (open_dml && not (length primary_ix_snapshot == 0))
    then index_bytes primary_ix_snapshot
    else index_bytes index

unfoldable pub raw_entries : List ℕ → List IndexEntry
raw_entries (k0 ∷ k1 ∷ k2 ∷ k3 ∷ f0 ∷ f1 ∷ f2 ∷ f3 ∷ o0 ∷ o1 ∷ o2 ∷ o3 ∷ s0 ∷ s1 ∷ s2 ∷ s3 ∷ rest) =
    record {
      ckid = fourcc k0 k1 k2 k3;
      flags = of_le32 f0 f1 f2 f3;
      offset = of_le32 o0 o1 o2 o3;
      size = of_le32 s0 s1 s2 s3;
    }
    ∷ raw_entries rest
raw_entries _ = []

pub record Idx1RecEntry : Type 0 where
  pub flags : ℕ
  pub offset : ℕ
  pub size : ℕ

abbrev has_stream : Fourcc → Bool
has_stream ckid = elim (parse_stream_index ckid) [ none ↦ false | some s ↦ true ]

-- The first entry of a stream whose offset is not zero.
unfoldable pub probe_entry : List IndexEntry → Option IndexEntry
probe_entry [] = none
probe_entry (e ∷ es) =
    let rest = probe_entry es in if has_stream e.ckid && not (e.offset == 0) then some e else rest

unfoldable pub probe_offset_has_ckid : List ℕ → ℕ → Fourcc → Bool
probe_offset_has_ckid file offset expected = starts_with (drop offset file)
  where
    starts_with : List ℕ → Bool
    starts_with (a ∷ b ∷ c ∷ d ∷ rest) = same_fourcc (fourcc a b c d) expected
    starts_with _ = false

-- What the offsets of the index are counted from.
unfoldable pub base_offset : List ℕ → ℕ → List IndexEntry → ℕ
base_offset file movi_start entries =
    let movi_fourcc_pos = movi_start - 4 in
    elim (probe_entry entries) [
      | none ↦ movi_fourcc_pos
      | some e ↦
          let movi_pos = movi_fourcc_pos + e.offset in
          let movi_ok = ltb movi_pos (2 ^ 64) && probe_offset_has_ckid file movi_pos e.ckid in
          let abs_ok = probe_offset_has_ckid file e.offset e.ckid in
          if not movi_ok && abs_ok then 0 else movi_fourcc_pos
    ]

abbrev rec_id : Fourcc
rec_id = fourcc 0x72 0x65 0x63 0x20

-- The first pass: entries of a known stream, and the `rec ` entries apart.
unfoldable pub locate : ℕ → ℕ → List IndexEntry → List IdxEntry × List Idx1RecEntry
locate base_off n [] = ([], [])
locate base_off n (e ∷ es) =
    let rest = locate base_off n es in
    let at = min (base_off + e.offset) u64_max in
    elim (parse_stream_index e.ckid) [
      | none ↦
          if same_fourcc e.ckid rec_id
          then (rest.0, record { flags = e.flags; offset = at; size = e.size } ∷ rest.1)
          else rest
      | some s ↦ if leb n s then rest else (
        record { stream = s; flags = e.flags; offset = at; size = e.size; pts = zero_i64 } ∷ rest.0,
        rest.1,
      )
    ]

-- The second pass: each entry gets the running pts of its stream, which its duration then advances.
unfoldable pub assign_pts : List (Option ℕ) → List ℕ → List IdxEntry → Outcome (List IdxEntry)
assign_pts divisors per_stream_pts [] = ok []
assign_pts divisors per_stream_pts (e ∷ es) = do
  pts ← elem_at per_stream_pts e.stream
  divisor ← elem_at divisors e.stream
  let bump = time_delta_with_divisor divisor e.size
  rest ← assign_pts divisors (set per_stream_pts e.stream (min (pts + bump) i64_max)) es
  ok (record e { pts = pts } ∷ rest)

unfoldable pub build_idx_table :
    List ℕ → List ℕ → ℕ → List StreamInfo → Outcome (List IdxEntry × List Idx1RecEntry)
build_idx_table file raw movi_start streams = do
  let entries = raw_entries raw
  let located = locate (base_offset file movi_start entries) (length streams) entries
  table ←
      assign_pts (map time_delta_divisor streams) (replicate (length streams) zero_i64) located.0
  ok (table, located.1)

-- `*b"pc"`, `*b"tx"`
abbrev is_pc : Fourcc → Bool
is_pc k = (k.b2 == 0x70) && (k.b3 == 0x63)

abbrev is_tx : Fourcc → Bool
is_tx k = (k.b2 == 0x74) && (k.b3 == 0x78)

abbrev pub count_u32 : ℕ → ℕ
count_u32 c = min (c + 1) (2 ^ 32 - 1)

-- The counts of `xxpc` and of `xxtx` entries; both slices are at least as long as the streams.
unfoldable pub sideband_counts : ℕ → List IndexEntry → List ℕ × List ℕ → List ℕ × List ℕ
sideband_counts n [] counts = counts
sideband_counts n (e ∷ es) counts = sideband_counts n es (elim (parse_stream_index e.ckid) [
  | none ↦ counts
  | some s ↦
      if leb n s
      then counts
      else if is_pc e.ckid
      then (update s count_u32 counts.0, counts.1)
      else if is_tx e.ckid
      then (counts.0, update s count_u32 counts.1)
      else counts
])

unfoldable pub scan_idx1_sideband_counts : List ℕ → ℕ → List ℕ × List ℕ → List ℕ × List ℕ
scan_idx1_sideband_counts raw n counts =
    if ltb (length counts.0) n
    then counts
    else if ltb (length counts.1) n
    then counts
    else sideband_counts n (raw_entries raw) counts

-- One stream's palette changes so far, and its data packets.
pub record Positions : Type 0 where
  pub changes : List ℕ
  pub data_count : ℕ

abbrev position_step : Fourcc → Positions → Positions
position_step k p =
    if is_pc k
    then record { changes = p.changes ++ p.data_count ∷ []; data_count = p.data_count }
    else if is_tx k
    then p
    else record { changes = p.changes; data_count = min (p.data_count + 1) u64_max }

unfoldable pub position_walk : ℕ → List IndexEntry → List Positions → List Positions
position_walk n [] ps = ps
position_walk n (e ∷ es) ps = position_walk n es (elim (parse_stream_index e.ckid) [
  | none ↦ ps
  | some s ↦ if leb n s then ps else update s (position_step e.ckid) ps
])

unfoldable pub compute_palette_change_positions : List ℕ → ℕ → List (List ℕ)
compute_palette_change_positions raw n =
    map (λ p. p.changes)
      (position_walk n (raw_entries raw) (replicate n (record { changes = []; data_count = 0 })))
