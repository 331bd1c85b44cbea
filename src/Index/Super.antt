-- ===== src/Index/Super.antt =====
-- The super index (`indx`): the buffer that `patch_super_index` builds, and what the demuxer reads from it.
use oxideav_avi.Base.{
  ℕ, zero, suc, ◌+◌, ◌-◌, ◌*◌, ◌/◌, ◌≤◌, ◌≡◌, refl, sym, ap, ◌∙◌, List, [], ◌∷◌, ◌++◌, Bool, true,
  false, none, ok, ◌>>=◌, length, min, ltb, leb, if◌then◌else◌, arith, map, All, length-append,
  append_assoc, le→ltb, take, drop, replicate, length-drop, length-take, length-replicate, le→leb,
  All-take, take-append, drop-append, drop-drop,
}
use oxideav_avi.Bytes.{
  le16, le32, le64, Fourcc, fourcc_bytes, IsU32, IsU64, u16_at, u32_at, u64_at, fourcc_at, of_le16,
  of_le32-le32,
}
use oxideav_avi.Bytes.Laws.{u32_at-append, u64_at_here, u64_at-le64}
use oxideav_avi.Index.{IxChunkRecord, SuperIndexEntry}
use oxideav_avi.Index.Parse.{parse_super_entries, parse_super_table, parse_indx}
use oxideav_avi.Index.Write.{put, put_super_head, put_super_entries, super_payload}

-- Writing behind a prefix of length `p`.
put-append :
    (xs ys bs : List ℕ) (p : ℕ)
    → length xs ≡ p
    → length bs ≤ length ys
    → put (xs ++ ys) p bs ≡ ok (xs ++ (bs ++ drop (length bs) ys))
unfolding put
put-append xs ys bs p h k =
    let room : ltb (length (xs ++ ys)) (p + length bs) ≡ false =
      le→ltb _ _ (omega (arith, length-append xs ys)) in
    let behind : drop (p + length bs) (xs ++ ys) ≡ drop (length bs) ys =
      sym (drop-drop (length bs) p (xs ++ ys)) ∙ ap (drop (length bs)) (drop-append p xs ys h) in
    rw (room, take-append p xs ys h, behind) refl

abbrev pub record_bytes : IxChunkRecord → List ℕ
record_bytes rec = le64 rec.qw_offset ++ (le32 rec.dw_size ++ le32 rec.dw_duration)

abbrev pub records_bytes : List IxChunkRecord → List ℕ
records_bytes [] = []
records_bytes (rec ∷ recs) = record_bytes rec ++ records_bytes recs

pub length-records_bytes :
    (recs : List IxChunkRecord) → length (records_bytes recs) ≡ 16 * length recs
length-records_bytes [] = omega arith
length-records_bytes (rec ∷ recs) = omega (arith, length-records_bytes recs)

-- The entries go one behind the other, and what stood behind them stays.
put_super_entries-eq :
    (recs : List IxChunkRecord) (k : ℕ) (pre ys : List ℕ)
    → length pre ≡ 24 + k * 16
    → 16 * length recs ≤ length ys
    → put_super_entries recs k (pre ++ ys)
      ≡ ok (pre ++ (records_bytes recs ++ drop (16 * length recs) ys))
unfolding put_super_entries
put_super_entries-eq [] k pre ys h room = refl
put_super_entries-eq (rec ∷ recs) k pre ys h room =
    let qw = le64 rec.qw_offset in
    let size = le32 rec.dw_size in
    let dur = le32 rec.dw_duration in
    let base = 24 + k * 16 in
    let p1 = put-append pre ys qw base h (omega arith) in
    let p2 =
      ap (λ t. put t (base + 8) size) (sym (append_assoc pre qw (drop 8 ys)))
      ∙ put-append (pre ++ qw) (drop 8 ys) size (base + 8) (omega (arith, length-append pre qw))
          (omega (arith, length-drop 8 ys)) in
    let p3 =
      put-append ((pre ++ qw) ++ size) (drop 4 (drop 8 ys)) dur (base + 12)
        (omega (arith, length-append pre qw, length-append (pre ++ qw) size))
        (omega (arith, length-drop 8 ys, length-drop 4 (drop 8 ys))) in
    let front = pre ++ record_bytes rec in
    let left : drop 4 (drop 4 (drop 8 ys)) ≡ drop 16 ys =
      ap (drop 4) (drop-drop 4 8 ys) ∙ drop-drop 4 12 ys in
    let regroup : ((pre ++ qw) ++ size) ++ (dur ++ drop 4 (drop 4 (drop 8 ys)))
        ≡ front ++ drop 16 ys =
      rw left (simp append_assoc) in
    let ih =
      put_super_entries-eq recs (k + 1) front (drop 16 ys)
        (omega (arith, length-append pre (record_bytes rec))) (omega (arith, length-drop 16 ys)) in
    let last : front ++ (records_bytes recs ++ drop (16 * length recs) (drop 16 ys))
        ≡ pre ++ (records_bytes (rec ∷ recs) ++ drop (16 * suc (length recs)) ys) =
      rw (drop-drop (16 * length recs) 16 ys, count) (simp append_assoc) in
    rw (p1, p2, ← append_assoc (pre ++ qw) size (drop 4 (drop 8 ys)), p3)
      (ap (put_super_entries recs (k + 1)) regroup ∙ ih ∙ ap ok last)
  where
    count : 16 + 16 * length recs ≡ 16 * suc (length recs)
    count = omega arith

-- The 24 bytes before the entries: entries of four longs, the sub-type, the count and the chunk id.
abbrev pub super_head : Fourcc → Bool → ℕ → List ℕ
super_head chunk_id is_2field n =
    le16 4
    ++ ((if is_2field then 1 else 0) ∷ 0 ∷ (le32 n ++ (fourcc_bytes chunk_id ++ replicate 12 0)))

abbrev pub entry_count : ℕ → List IxChunkRecord → ℕ
entry_count payload_len records = min (length records) ((payload_len - 24) / 16)

drop-replicate : (k n z : ℕ) → drop k (replicate n z) ≡ replicate (n - k) z
drop-replicate zero n z = ap (λ t. replicate t z) (let e : n ≡ n - 0 = omega arith in e)
drop-replicate (suc k) zero z = ap (λ t. replicate t z) (let e : 0 ≡ 0 - suc k = omega arith in e)
drop-replicate (suc k) (suc n) z =
    drop-replicate k n z
    ∙ ap (λ t. replicate t z) (let e : n - k ≡ suc n - suc k = omega arith in e)

replicate-add : (n m z : ℕ) → replicate (n + m) z ≡ replicate n z ++ replicate m z
replicate-add zero m z = ap (λ t. replicate t z) (let e : 0 + m ≡ m = omega arith in e)
replicate-add (suc n) m z =
    ap (λ t. replicate t z) (let e : suc n + m ≡ suc (n + m) = omega arith in e)
    ∙ ap (λ t. z ∷ t) (replicate-add n m z)

put_super_head-eq :
    (chunk_id : Fourcc) (n : ℕ) (zs : List ℕ) (f : Bool)
    → put_super_head chunk_id f n (replicate 24 0 ++ zs) ≡ ok (super_head chunk_id f n ++ zs)
unfolding put_super_head put
put_super_head-eq chunk_id n zs true = ground arith
put_super_head-eq chunk_id n zs false = ground arith

-- The patched payload is the header, the entries that fit, and zeros up to the reserved length; the
-- copies never leave the buffer, if at least 24 bytes are reserved.
pub super_payload-eq :
    (payload_len : ℕ) (chunk_id : Fourcc) (f : Bool) (records : List IxChunkRecord)
    → 24 ≤ payload_len
    → super_payload payload_len chunk_id f records
      ≡ ok (
          super_head chunk_id f (entry_count payload_len records)
          ++ (records_bytes (take (entry_count payload_len records) records)
              ++ replicate (payload_len - 24 - 16 * entry_count payload_len records) 0))
unfolding super_payload
super_payload-eq payload_len chunk_id f records h =
    let n = entry_count payload_len records in
    let zs : List ℕ = replicate (payload_len - 24) 0 in
    let blank : replicate payload_len 0 ≡ replicate 24 0 ++ zs =
      ap (λ t. replicate t 0) (let e : payload_len ≡ 24 + (payload_len - 24) = omega arith in e)
      ∙ replicate-add 24 (payload_len - 24) 0 in
    let count : length (take n records) ≡ n = omega (arith, length-take n records) in
    let room : 16 * length (take n records) ≤ length zs =
      rw (count, length-replicate {A = ℕ} (payload_len - 24) 0) (omega arith) in
    rw (blank, put_super_head-eq chunk_id n zs f)
      (put_super_entries-eq (take n records) 0 (super_head chunk_id f n) zs refl room
        ∙ rw (count, drop-replicate (16 * n) (payload_len - 24) 0) refl)

abbrev pub entry_of : IxChunkRecord → SuperIndexEntry
entry_of rec = record {
  qw_offset = rec.qw_offset;
  dw_size = rec.dw_size;
  dw_duration = rec.dw_duration;
}

pub record RecordIsValid (rec : IxChunkRecord) : Type 0 where
  pub qw_offset : IsU64 rec.qw_offset
  pub dw_size : IsU32 rec.dw_size
  pub dw_duration : IsU32 rec.dw_duration

module _ (rec : IxChunkRecord) (rest : List ℕ) (v : RecordIsValid rec) where
  read_offset : u64_at (record_bytes rec ++ rest) 0 ≡ ok rec.qw_offset
  read_offset =
      u64_at-le64 rec.qw_offset (le32 rec.dw_size ++ le32 rec.dw_duration ++ rest) v.qw_offset

  read_size : u32_at (record_bytes rec ++ rest) 8 ≡ ok rec.dw_size
  unfolding u32_at
  read_size = rw (of_le32-le32 rec.dw_size v.dw_size)

  read_duration : u32_at (record_bytes rec ++ rest) 12 ≡ ok rec.dw_duration
  unfolding u32_at
  read_duration = rw (of_le32-le32 rec.dw_duration v.dw_duration)

parse_super_entries-bytes :
    (recs : List IxChunkRecord) (body pre rest : List ℕ) (i : ℕ)
    → body ≡ pre ++ (records_bytes recs ++ rest)
    → length pre ≡ 24 + i * 16
    → All RecordIsValid recs
    → parse_super_entries body (length recs) i ≡ ok (map entry_of recs)
unfolding parse_super_entries
parse_super_entries-bytes [] body pre rest i e h v = refl
parse_super_entries-bytes (rec ∷ recs) body pre rest i e h v =
    let base = 24 + i * 16 in
    let more = records_bytes recs ++ rest in
    let split : body ≡ pre ++ (record_bytes rec ++ more) =
      e ∙ ap (λ t. pre ++ t) (append_assoc (record_bytes rec) (records_bytes recs) rest) in
    let here = record_bytes rec ++ more in
    let a : u64_at body base ≡ ok rec.qw_offset =
      ap (λ t. u64_at t base) split ∙ u64_at_here pre here base h ∙ read_offset rec more v.0 in
    let b : u32_at body (base + 8) ≡ ok rec.dw_size =
      ap (λ t. u32_at t (base + 8)) split
      ∙ u32_at-append pre here base 8 h
      ∙ read_size rec more v.0 in
    let c : u32_at body (base + 12) ≡ ok rec.dw_duration =
      ap (λ t. u32_at t (base + 12)) split
      ∙ u32_at-append pre here base 12 h
      ∙ read_duration rec more v.0 in
    let ih =
      parse_super_entries-bytes recs body (pre ++ record_bytes rec) rest (i + 1)
        (split ∙ sym (append_assoc pre (record_bytes rec) more))
        (omega (arith, length-append pre (record_bytes rec))) v.1 in
    rw (a, b, c, ih) refl

-- The payload that `patch_super_index` writes is read by `parse_indx` as the records that fit the reserved
-- capacity, in order, under the stream's chunk id and its sub-type. At least 24 bytes are reserved,
-- and the number of records and each of their fields fit their widths.
pub parse_indx-super_payload :
    (payload_len : ℕ) (chunk_id : Fourcc) (f : Bool) (records : List IxChunkRecord)
    → 24 ≤ payload_len
    → IsU32 (length records)
    → All RecordIsValid records
    → super_payload payload_len chunk_id f records >>= parse_indx
      ≡ ok (record {
        w_longs_per_entry = 4;
        b_index_sub_type = if f then 1 else 0;
        b_index_type = 0;
        present = true;
        dw_reserved = (0, 0, 0);
        chunk_id = chunk_id;
        entries = map entry_of (take (entry_count payload_len records) records);
        strl_std_index = none;
      })
unfolding parse_indx parse_super_table u16_at u32_at fourcc_at of_le16
parse_indx-super_payload payload_len chunk_id f records h hn v =
    let n = entry_count payload_len records in
    let kept = take n records in
    let zs : List ℕ = replicate (payload_len - 24 - 16 * n) 0 in
    let body = super_head chunk_id f n ++ (records_bytes kept ++ zs) in
    let count : length kept ≡ n = omega (arith, length-take n records) in
    let long : leb 24 (length body) ≡ true = ground arith in
    let fits : leb (24 + n * 16) (length body) ≡ true =
      le→leb (24 + n * 16) (length body)
        (omega (arith, length-append (records_bytes kept) zs, length-records_bytes kept)) in
    let es : parse_super_entries body n 0 ≡ ok (map entry_of kept) =
      ap (λ k. parse_super_entries body k 0) (sym count)
      ∙ parse_super_entries-bytes kept body (super_head chunk_id f n) zs 0 refl refl
          (All-take RecordIsValid n records v) in
    rw (super_payload-eq payload_len chunk_id f records h, ◌>>=◌)
      (rw (long, of_le32-le32 n (omega arith), fits, es, of_le32-le32 0 (omega arith)) refl)
