-- ===== src/Index/Standard.antt =====
-- The standard index (`ix##`): what the muxer writes and what the demuxer reads back.
use oxideav_avi.Base.{
  ℕ, ◌+◌, ◌-◌, ◌*◌, ◌/◌, ◌%◌, ◌^◌, ◌≡◌, refl, sym, ap, ◌∙◌, List, [], ◌∷◌, ◌++◌, Bool, true, false,
  some, ok, length, min, ltb, ◌==◌, if◌then◌else◌, arith, map, All, length-append, append_assoc,
  take,
}
use oxideav_avi.Bytes.{
  le32, Fourcc, IsU32, IsU64, u16_at, u32_at, u64_at, fourcc_at, of_le16, of_le32-le32,
}
use oxideav_avi.Bytes.Laws.{u32_at-append, u32_at_here}
use oxideav_avi.Index.{IxStdEntry, StdIndexEntry}
use oxideav_avi.Index.Parse.{
  no_delta_bit, without_delta_bit, entry_size_of, parse_std_entries, parse_ix_chunk,
}
use oxideav_avi.Index.Write.{std_entry_bytes, std_entries_bytes, ix_payload}

abbrev pub entry_size : Bool → ℕ
entry_size is_2field = if is_2field then 12 else 8

-- What an entry of the muxer says to the demuxer.
abbrev pub read_back : Bool → IxStdEntry → StdIndexEntry
read_back is_2field e = record {
  dw_offset = e.dw_offset;
  dw_size = without_delta_bit e.dw_size_with_flag;
  is_keyframe = no_delta_bit e.dw_size_with_flag;
  dw_offset_field2 = if is_2field then e.dw_offset_field2 else 0;
}

pub record IxEntryIsValid (e : IxStdEntry) : Type 0 where
  pub dw_offset : IsU32 e.dw_offset
  pub dw_size_with_flag : IsU32 e.dw_size_with_flag
  pub dw_offset_field2 : IsU32 e.dw_offset_field2

module _ (a b : ℕ) (rest : List ℕ) (ha : IsU32 a) (hb : IsU32 b) where
  first_word : u32_at (le32 a ++ (le32 b ++ rest)) 0 ≡ ok a
  unfolding u32_at
  first_word = rw (of_le32-le32 a ha)

  second_word : u32_at (le32 a ++ (le32 b ++ rest)) 4 ≡ ok b
  unfolding u32_at
  second_word = rw (of_le32-le32 b hb)

third_word :
    (a b c : ℕ) (rest : List ℕ) → IsU32 c → u32_at (le32 a ++ (le32 b ++ (le32 c ++ rest))) 8 ≡ ok c
unfolding u32_at
third_word a b c rest hc = rw (of_le32-le32 c hc)

length-std_entry_bytes : (f : Bool) (e : IxStdEntry) → length (std_entry_bytes f e) ≡ entry_size f
unfolding std_entry_bytes
length-std_entry_bytes true e = omega arith
length-std_entry_bytes false e = omega arith

length-std_entries_bytes :
    (f : Bool) (es : List IxStdEntry) → length (std_entries_bytes f es) ≡ length es * entry_size f
unfolding std_entries_bytes
length-std_entries_bytes f [] = omega arith
length-std_entries_bytes f (e ∷ es) = omega (
  arith,
  length-append (std_entry_bytes f e) (std_entries_bytes f es),
  length-std_entry_bytes f e,
  length-std_entries_bytes f es,
)

-- The words of one entry that stands behind `pre`.
read_entry :
    (f : Bool) (body pre rest : List ℕ) (e : IxStdEntry) (base : ℕ)
    → body ≡ pre ++ (std_entry_bytes f e ++ rest)
    → length pre ≡ base
    → IxEntryIsValid e
    → (u32_at body base ≡ ok e.dw_offset)
      × (u32_at body (base + 4) ≡ ok e.dw_size_with_flag)
      × ((if entry_size f == 12 then u32_at body (base + 8) else ok 0)
          ≡ ok (if f then e.dw_offset_field2 else 0))
unfolding std_entry_bytes
read_entry true body pre rest e base b h v =
    let tail = le32 e.dw_offset_field2 ++ rest in
    let here = le32 e.dw_offset ++ (le32 e.dw_size_with_flag ++ tail) in
    (
      ap (λ t. u32_at t base) b
          ∙ u32_at_here pre here base h
          ∙ first_word e.dw_offset e.dw_size_with_flag tail v.dw_offset v.dw_size_with_flag,
      ap (λ t. u32_at t (base + 4)) b
          ∙ u32_at-append pre here base 4 h
          ∙ second_word e.dw_offset e.dw_size_with_flag tail v.dw_offset v.dw_size_with_flag,
      ap (λ t. u32_at t (base + 8)) b
          ∙ u32_at-append pre here base 8 h
          ∙ third_word e.dw_offset e.dw_size_with_flag e.dw_offset_field2 rest v.dw_offset_field2,
    )
read_entry false body pre rest e base b h v =
    let here = le32 e.dw_offset ++ (le32 e.dw_size_with_flag ++ rest) in
    (
      ap (λ t. u32_at t base) b
          ∙ u32_at_here pre here base h
          ∙ first_word e.dw_offset e.dw_size_with_flag rest v.dw_offset v.dw_size_with_flag,
      ap (λ t. u32_at t (base + 4)) b
          ∙ u32_at-append pre here base 4 h
          ∙ second_word e.dw_offset e.dw_size_with_flag rest v.dw_offset v.dw_size_with_flag,
      refl,
    )

parse_std_entries-bytes :
    (f : Bool) (es : List IxStdEntry) (body pre rest : List ℕ) (i : ℕ)
    → body ≡ pre ++ (std_entries_bytes f es ++ rest)
    → length pre ≡ 24 + i * entry_size f
    → All IxEntryIsValid es
    → parse_std_entries body (entry_size f) (length es) i ≡ ok (map (read_back f) es)
unfolding parse_std_entries std_entries_bytes
parse_std_entries-bytes f [] body pre rest i e h v = refl
parse_std_entries-bytes f (x ∷ es) body pre rest i e h v =
    let more = std_entries_bytes f es ++ rest in
    let split : body ≡ pre ++ (std_entry_bytes f x ++ more) =
      e ∙ ap (λ t. pre ++ t) (append_assoc (std_entry_bytes f x) (std_entries_bytes f es) rest) in
    let words = read_entry f body pre more x (24 + i * entry_size f) split h v.0 in
    let behind : length (pre ++ std_entry_bytes f x) ≡ 24 + (i + 1) * entry_size f =
      omega (arith, length-append pre (std_entry_bytes f x), length-std_entry_bytes f x) in
    let ih =
      parse_std_entries-bytes f es body (pre ++ std_entry_bytes f x) rest (i + 1)
        (split ∙ sym (append_assoc pre (std_entry_bytes f x) more)) behind v.1 in
    rw (words.0, words.1, words.2, ih) refl

-- The demuxer reads from the payload of `flush_ix_for_track` the entries that went in, in order, with the
-- size and the keyframe bit taken apart and the second field's offset only for two-field streams; the
-- entry count and each entry's words fit 32 bits and the base offset 64. `rest` is what follows in the chunk.
pub parse_ix_chunk-ix_payload :
    (own chunk_id : Fourcc) (f : Bool) (qw_base : ℕ) (es : List IxStdEntry) (rest : List ℕ)
    → IsU64 qw_base
    → IsU32 (length es)
    → All IxEntryIsValid es
    → parse_ix_chunk own (ix_payload f chunk_id qw_base es ++ rest)
      ≡ ok (
          some (record {
            own_fourcc = own;
            chunk_offset = 0;
            chunk_id = chunk_id;
            qw_base_offset = qw_base;
            b_index_sub_type = if f then 1 else 0;
            b_index_type = 1;
            dw_reserved3 = 0;
            declared_n_entries = length es;
            entries = map (read_back f) es;
          }))
unfolding parse_ix_chunk entry_size_of ix_payload u16_at u32_at u64_at fourcc_at of_le16
parse_ix_chunk-ix_payload own chunk_id true qw_base es rest hq hn v =
    let body = ix_payload true chunk_id qw_base es ++ rest in
    let long : ltb (length body) 24 ≡ false = ground arith in
    let count : min (length es) ((length body - 24) / 12) ≡ length es =
      omega
        (arith, length-append (std_entries_bytes true es) rest, length-std_entries_bytes true es) in
    let whole : qw_base % 2 ^ 32 + qw_base / 2 ^ 32 * 2 ^ 32 ≡ qw_base = omega arith in
    rw
      (
        long,
        of_le32-le32 (length es) hn,
        of_le32-le32 (qw_base % 2 ^ 32) (omega arith),
        of_le32-le32 (qw_base / 2 ^ 32) (omega arith),
        count,
      )
      (rw
        (
          parse_std_entries-bytes true es body (take 24 body) rest 0 refl (omega arith) v,
          whole,
          of_le32-le32 0 (omega arith),
        )
        refl)
parse_ix_chunk-ix_payload own chunk_id false qw_base es rest hq hn v =
    let body = ix_payload false chunk_id qw_base es ++ rest in
    let long : ltb (length body) 24 ≡ false = ground arith in
    let count : min (length es) ((length body - 24) / 8) ≡ length es =
      omega (
        arith,
        length-append (std_entries_bytes false es) rest,
        length-std_entries_bytes false es,
      ) in
    let whole : qw_base % 2 ^ 32 + qw_base / 2 ^ 32 * 2 ^ 32 ≡ qw_base = omega arith in
    rw
      (
        long,
        of_le32-le32 (length es) hn,
        of_le32-le32 (qw_base % 2 ^ 32) (omega arith),
        of_le32-le32 (qw_base / 2 ^ 32) (omega arith),
        count,
      )
      (rw
        (
          parse_std_entries-bytes false es body (take 24 body) rest 0 refl (omega arith) v,
          whole,
          of_le32-le32 0 (omega arith),
        )
        refl)
