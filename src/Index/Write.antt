-- ===== src/Index/Write.antt =====
-- src/muxer.rs: the index bodies that the muxer writes: the `ix##` payload of `flush_ix_for_track`, and the
-- payloads that `patch_super_index` and `patch_strl_std_indexes` put over the reserved `indx` chunk.
use oxideav_avi.Base.{
  ℕ, ◌+◌, ◌-◌, ◌*◌, ◌/◌, List, [], ◌∷◌, ◌++◌, Bool, Outcome, ok, panic, ◌>>=◌, length, min, take,
  drop, replicate, ltb, if◌then◌else◌,
}
use oxideav_avi.Bytes.{le16, le32, le64, Fourcc, fourcc_bytes}
use oxideav_avi.Index.{IxStdEntry, IxChunkRecord}

-- One entry of a standard index.
unfoldable pub std_entry_bytes : Bool → IxStdEntry → List ℕ
std_entry_bytes is_2field e =
    le32 e.dw_offset
    ++ (le32 e.dw_size_with_flag ++ (if is_2field then le32 e.dw_offset_field2 else []))

unfoldable pub std_entries_bytes : Bool → List IxStdEntry → List ℕ
unfolding std_entry_bytes
std_entries_bytes is_2field [] = []
std_entries_bytes is_2field (e ∷ es) = std_entry_bytes is_2field e ++ std_entries_bytes is_2field es

-- The payload that `flush_ix_for_track` builds, from `wLongsPerEntry` to the last entry.
unfoldable pub ix_payload : Bool → Fourcc → ℕ → List IxStdEntry → List ℕ
unfolding std_entries_bytes
ix_payload is_2field packet_fourcc qw_base entries =
    le16 (if is_2field then 3 else 2)
    ++ ((if is_2field then 1 else 0)
        ∷ 1
        ∷ (le32 (length entries)
            ++ (fourcc_bytes packet_fourcc
                ++ (le64 qw_base ++ (le32 0 ++ std_entries_bytes is_2field entries)))))

-- `buf[at..at + bs.len()].copy_from_slice(bs)`.
unfoldable pub put : List ℕ → ℕ → List ℕ → Outcome (List ℕ)
put buf at bs =
    if ltb (length buf) (at + length bs)
    then panic
    else ok (take at buf ++ (bs ++ drop (at + length bs) buf))

-- The entries of a super index, from record `k` on.
unfoldable pub put_super_entries : List IxChunkRecord → ℕ → List ℕ → Outcome (List ℕ)
put_super_entries [] k buf = ok buf
put_super_entries (rec ∷ recs) k buf = do
  let base = 24 + k * 16
  buf₁ ← put buf base (le64 rec.qw_offset)
  buf₂ ← put buf₁ (base + 8) (le32 rec.dw_size)
  buf₃ ← put buf₂ (base + 12) (le32 rec.dw_duration)
  put_super_entries recs (k + 1) buf₃

-- The header of a super index: `wLongsPerEntry`, `bIndexSubType`, `nEntriesInUse` and `dwChunkId`.
unfoldable pub put_super_head : Fourcc → Bool → ℕ → List ℕ → Outcome (List ℕ)
put_super_head chunk_id is_2field n buf = do
  buf₁ ← put buf 0 (le16 4)
  buf₂ ← (if is_2field then put buf₁ 2 (1 ∷ []) else ok buf₁)
  buf₃ ← put buf₂ 4 (le32 n)
  put buf₃ 8 (fourcc_bytes chunk_id)

-- The buffer that `patch_super_index` writes over the reserved payload of one stream: `payload_len`
-- bytes, at least 24, with as many records as fit.
unfoldable pub super_payload : ℕ → Fourcc → Bool → List IxChunkRecord → Outcome (List ℕ)
super_payload payload_len chunk_id is_2field records = do
  let n = min (length records) ((payload_len - 24) / 16)
  buf ← put_super_head chunk_id is_2field n (replicate payload_len 0)
  put_super_entries (take n records) 0 buf
