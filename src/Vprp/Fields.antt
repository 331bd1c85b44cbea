-- ===== src/Vprp/Fields.antt =====
-- Field descriptors: what `build_vprp_body` writes is what `parse_vprp` reads.
use oxideav_avi.Base.{
  ℕ, zero, suc, ◌+◌, ◌*◌, ◌≤◌, ◌≡◌, refl, sym, ap, ◌∙◌, List, [], ◌∷◌, ◌++◌, ok, length, take,
  arith, All, length-append, append_assoc,
}
use oxideav_avi.Bytes.{IsU32, u32_at, of_le32-le32}
use oxideav_avi.Bytes.Laws.{u32_at-append, u32_at_here}
use oxideav_avi.Vprp.{
  VprpFieldDesc, read_field_desc, read_field_descs, field_desc_bytes, field_descs_bytes,
}

pub record FieldDescIsValid (d : VprpFieldDesc) : Type 0 where
  pub compressed_bm_height : IsU32 d.compressed_bm_height
  pub compressed_bm_width : IsU32 d.compressed_bm_width
  pub valid_bm_height : IsU32 d.valid_bm_height
  pub valid_bm_width : IsU32 d.valid_bm_width
  pub valid_bm_x_offset : IsU32 d.valid_bm_x_offset
  pub valid_bm_y_offset : IsU32 d.valid_bm_y_offset
  pub video_x_offset_in_t : IsU32 d.video_x_offset_in_t
  pub video_y_valid_start_line : IsU32 d.video_y_valid_start_line

read_field_desc-append :
    (xs ys : List ℕ) (n : ℕ) → length xs ≡ n → read_field_desc (xs ++ ys) n ≡ read_field_desc ys 0
unfolding read_field_desc
read_field_desc-append xs ys n h =
    rw
      (
        u32_at_here xs ys n h,
        u32_at-append xs ys n 4 h,
        u32_at-append xs ys n 8 h,
        u32_at-append xs ys n 12 h,
        u32_at-append xs ys n 16 h,
        u32_at-append xs ys n 20 h,
        u32_at-append xs ys n 24 h,
        u32_at-append xs ys n 28 h,
      )
      refl

read_field_desc-bytes :
    (d : VprpFieldDesc) (rest : List ℕ)
    → FieldDescIsValid d
    → read_field_desc (field_desc_bytes d ++ rest) 0 ≡ ok d
unfolding read_field_desc field_desc_bytes u32_at
read_field_desc-bytes d rest v =
    rw
      (
        of_le32-le32 d.compressed_bm_height v.compressed_bm_height,
        of_le32-le32 d.compressed_bm_width v.compressed_bm_width,
        of_le32-le32 d.valid_bm_height v.valid_bm_height,
        of_le32-le32 d.valid_bm_width v.valid_bm_width,
        of_le32-le32 d.valid_bm_x_offset v.valid_bm_x_offset,
        of_le32-le32 d.valid_bm_y_offset v.valid_bm_y_offset,
        of_le32-le32 d.video_x_offset_in_t v.video_x_offset_in_t,
        of_le32-le32 d.video_y_valid_start_line v.video_y_valid_start_line,
      )
      refl

pub length-field_desc_bytes : (d : VprpFieldDesc) → length (field_desc_bytes d) ≡ 32
unfolding field_desc_bytes
length-field_desc_bytes d = omega arith

pub length-field_descs_bytes :
    (ds : List VprpFieldDesc) → length (field_descs_bytes ds) ≡ 32 * length ds
unfolding field_descs_bytes
length-field_descs_bytes [] = omega arith
length-field_descs_bytes (d ∷ ds) = omega (
  arith,
  length-append (field_desc_bytes d) (field_descs_bytes ds),
  length-field_desc_bytes d,
  length-field_descs_bytes ds,
)

-- Reading the first `n` descriptors of those that stand behind `pre`.
pub read_field_descs-bytes :
    (n : ℕ) (ds : List VprpFieldDesc) (body pre : List ℕ) (i : ℕ)
    → body ≡ pre ++ field_descs_bytes ds
    → length pre ≡ 36 + i * 32
    → n ≤ length ds
    → All FieldDescIsValid ds
    → read_field_descs body n i ≡ ok (take n ds)
unfolding read_field_descs field_descs_bytes
read_field_descs-bytes zero ds body pre i e h k v = refl
read_field_descs-bytes (suc n) [] body pre i e h k v = absurd (omega arith)
read_field_descs-bytes (suc n) (d ∷ ds) body pre i e h k v =
    let here : read_field_desc body (36 + i * 32) ≡ ok d =
      ap (λ t. read_field_desc t (36 + i * 32)) e
      ∙ read_field_desc-append pre (field_desc_bytes d ++ field_descs_bytes ds) (36 + i * 32) h
      ∙ read_field_desc-bytes d (field_descs_bytes ds) v.0 in
    let ih =
      read_field_descs-bytes n ds body (pre ++ field_desc_bytes d) (i + 1)
        (e ∙ sym (append_assoc pre (field_desc_bytes d) (field_descs_bytes ds)))
        (omega (arith, length-append pre (field_desc_bytes d), length-field_desc_bytes d))
        (omega arith) v.1 in
    rw (here, ih) refl
