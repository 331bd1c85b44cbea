-- ===== src/Riff/Write.antt =====
-- src/riff.rs, the writing half: what ends up in the file, and streaming against writing at once.
use oxideav_avi.Base.{
  ℕ, ◌+◌, ◌-◌, ◌%◌, ◌≡◌, refl, sym, ap, List, [], ◌∷◌, ◌++◌, length, arith, leb, ◌==◌,
  if◌then◌else◌, inl, inr, Bool-cases, true, invalid, ok, err, length-append, append_assoc,
  append-nil,
}
use oxideav_avi.Bytes.{le32, Fourcc, fourcc_bytes}
use oxideav_avi.Io.{Cursor, ◌>>=◌, ◌>>◌, write_all, stream_position, seek_start}
use oxideav_avi.Io.Laws.{overwrite_middle, write_all_end}
use oxideav_avi.Riff.{
  u32_max, write_chunk, write_list_chunk, write_pad, begin_chunk, begin_list, finish_chunk,
}

-- A writer that stands at the end of what it has written.
abbrev pub at_end : List ℕ → Cursor
at_end buf = record { bytes = buf; pos = length buf }

abbrev pub pad : ℕ → List ℕ
pad n = if n % 2 == 1 then 0 ∷ [] else []

-- The bytes of a chunk of `size` bytes: header, body, pad byte.
abbrev pub chunk_bytes : Fourcc → ℕ → List ℕ → List ℕ
chunk_bytes id size body = (fourcc_bytes id ++ le32 size) ++ (body ++ pad size)

write_pad_end : (buf : List ℕ) (n : ℕ) → write_pad n (at_end buf) ≡ ok (tt, at_end (buf ++ pad n))
unfolding write_pad
write_pad_end buf n = elim (Bool-cases (n % 2 == 1)) [
  | inl e ↦ rw e (write_all_end buf (0 ∷ []))
  | inr e ↦ rw e (ap (λ t. ok (tt, at_end t)) (sym (append-nil buf)))
]

-- Four more bytes leave the parity as it is.
pad_four : (n : ℕ) → pad (4 + n) ≡ pad n
pad_four n =
    ap (λ (t : ℕ). if t == 1 then 0 ∷ [] else []) (let e : (4 + n) % 2 ≡ n % 2 = omega arith in e)

pub length-pad : (n : ℕ) → length (pad n) ≡ n % 2
length-pad n = ground arith

-- The four blank bytes `z` become the size field.
patch_size :
    (pre z body tail : List ℕ) (n : ℕ)
    → length z ≡ 4
    → write_all (le32 n) (record { bytes = (pre ++ (z ++ body)) ++ tail; pos = length pre })
      ≡ ok (tt, record { bytes = pre ++ (le32 n ++ (body ++ tail)); pos = length pre + 4 })
unfolding write_all
patch_size pre z body tail n h =
    rw (append_assoc pre (z ++ body) tail, append_assoc z body tail)
      (rw (overwrite_middle pre z (le32 n) (body ++ tail) (length pre) refl (sym h)) refl)

-- `write_chunk` at the end of the file appends header, body and pad byte, and fails on a body
-- whose length does not fit 32 bits.
pub write_chunk-eq :
    (buf : List ℕ) (id : Fourcc) (body : List ℕ)
    → write_chunk id body (at_end buf) ≡ (
        if leb (length body) u32_max
        then ok (tt, at_end (buf ++ chunk_bytes id (length body) body))
        else err invalid)
unfolding write_chunk
write_chunk-eq buf id body = elim (Bool-cases (leb (length body) u32_max)) [
  | inl e ↦
      rw e (rw (write_all_end buf, ◌>>=◌, write_all_end, ◌>>=◌, write_pad_end) (simp append_assoc))
  | inr e ↦ rw e refl
]

-- `write_list_chunk` at the end of the file appends a list header, the form type, the body and the pad
-- byte, and fails where form type and body together do not fit 32 bits.
pub write_list_chunk-eq :
    (buf : List ℕ) (list_id form_type : Fourcc) (body : List ℕ)
    → write_list_chunk list_id form_type body (at_end buf) ≡ (
        if leb (4 + length body) u32_max
        then ok (
          tt,
          at_end (buf ++ chunk_bytes list_id (4 + length body) (fourcc_bytes form_type ++ body)),
        )
        else err invalid)
unfolding write_list_chunk
write_list_chunk-eq buf list_id form_type body = elim (Bool-cases (leb (4 + length body) u32_max)) [
  | inl e ↦ rw e (
      rw (write_all_end buf, ◌>>=◌, write_all_end, ◌>>=◌, write_all_end, ◌>>=◌, write_pad_end)
        (simp (append_assoc, pad_four)))
  | inr e ↦ rw e refl
]

-- What `finish_chunk` does to a chunk whose size field `z` was left blank at `length pre`.
finish_chunk-eq :
    (pre z body : List ℕ)
    → length z ≡ 4
    → finish_chunk (length pre) (at_end (pre ++ (z ++ body))) ≡ (
        if leb (length body) u32_max
        then ok (tt, at_end (pre ++ (le32 (length body) ++ (body ++ pad (length body)))))
        else err invalid)
unfolding finish_chunk stream_position seek_start
finish_chunk-eq pre z body h =
    let whole = pre ++ (z ++ body) in
    let n = length body in
    let total : length whole ≡ length pre + 4 + n =
      omega (arith, length-append pre (z ++ body), length-append z body) in
    let room : leb (length pre + 4) (length whole) ≡ true = rw total (ground arith) in
    let size : length whole - (length pre + 4) ≡ n = rw total (omega arith) in
    let last : (if n % 2 == 1 then length whole + 1 else length whole)
        ≡ length (pre ++ (le32 n ++ (body ++ pad n))) =
      rw
        (
          total,
          length-append pre (le32 n ++ (body ++ pad n)),
          length-append body (pad n),
          length-pad n,
        )
        (ground arith) in
    elim (Bool-cases (leb n u32_max)) [
      | inl e ↦
          rw (room, size, e)
            (rw (write_pad_end whole, ◌>>=◌, patch_size pre z body (pad n) n h, last) refl)
      | inr e ↦ rw (room, size, e) refl
    ]

begin_chunk-eq :
    (buf : List ℕ) (id : Fourcc)
    → begin_chunk id (at_end buf)
      ≡ ok (
        length (buf ++ fourcc_bytes id),
        at_end ((buf ++ fourcc_bytes id) ++ (0 ∷ 0 ∷ 0 ∷ 0 ∷ [])),
      )
unfolding begin_chunk stream_position
begin_chunk-eq buf id = rw (write_all_end buf, ◌>>=◌, write_all_end) refl

-- Streaming a body between `begin_chunk` and `finish_chunk` leaves the file that `write_chunk` of the
-- whole body leaves, and fails when it fails.
pub stream-eq-write_chunk :
    (buf : List ℕ) (id : Fourcc) (body : List ℕ)
    → (do off ← begin_chunk id; write_all body; finish_chunk off) (at_end buf)
      ≡ write_chunk id body (at_end buf)
stream-eq-write_chunk buf id body =
    rw (begin_chunk-eq buf id, ◌>>=◌, write_all_end, write_chunk-eq)
      (rw (append_assoc (buf ++ fourcc_bytes id) (0 ∷ 0 ∷ 0 ∷ 0 ∷ []) body) (
        rw (finish_chunk-eq (buf ++ fourcc_bytes id) (0 ∷ 0 ∷ 0 ∷ 0 ∷ []) body refl)
          (simp append_assoc)))

-- The same for a list, whose form type is part of the body.
pub stream-eq-write_list_chunk :
    (buf : List ℕ) (list_id form_type : Fourcc) (body : List ℕ)
    → (do off ← begin_list list_id form_type; write_all body; finish_chunk off) (at_end buf)
      ≡ write_list_chunk list_id form_type body (at_end buf)
unfolding begin_list
stream-eq-write_list_chunk buf list_id form_type body =
    let pre = buf ++ fourcc_bytes list_id in
    let form = fourcc_bytes form_type in
    let z : List ℕ = 0 ∷ 0 ∷ 0 ∷ 0 ∷ [] in
    let n : length (form ++ body) ≡ 4 + length body = omega arith in
    rw (begin_chunk-eq buf list_id, ◌>>=◌, write_all_end, ◌>>=◌, write_all_end, write_list_chunk-eq)
      (rw (append_assoc (pre ++ z) form body, append_assoc pre z (form ++ body))
        (rw (finish_chunk-eq pre z (form ++ body) refl) (rw n (simp append_assoc))))
