-- ===== src/Riff/RoundTrip.antt =====
-- src/riff.rs: reading back a chunk that `write_chunk` wrote.
use oxideav_avi.Base.{
  ℕ, ◌+◌, ◌%◌, ◌≤◌, ◌≡◌, refl, sym, List, [], ◌∷◌, ◌++◌, length, arith, leb, ◌==◌, inl, inr,
  Bool-cases, true, ok, length-append, append_assoc, append-nil, none, some, drop-append, eof,
}
use oxideav_avi.Bytes.{le32, Fourcc, fourcc_bytes, IsU32, of_le32-le32}
use oxideav_avi.Io.{M, ◌>>=◌, ◌>>◌, pure, fail, seek_start, seek_forward}
use oxideav_avi.Io.Laws.{read_exact-append}
use oxideav_avi.Riff.{
  ChunkHeader, header_of, read_chunk_header, read_body, skip_pad, write_chunk, u32_max,
}
use oxideav_avi.Riff.Read.{read_chunk_header-eq}
use oxideav_avi.Riff.Write.{at_end, pad, chunk_bytes, write_chunk-eq}

-- The calls by which the demuxer takes one chunk: header, body, pad byte.
abbrev read_rest : ChunkHeader → M (ChunkHeader × List ℕ)
read_rest h = do body ← read_body h.size; skip_pad h.size; pure (h, body)

unfoldable pub read_chunk : (ℕ → ℕ) → M (ChunkHeader × List ℕ)
read_chunk grant = do
  found ← read_chunk_header grant
  elim found [ none ↦ fail eof | some h ↦ read_rest h ]

read_chunk_header-chunk_bytes :
    (grant : ℕ → ℕ) (pre : List ℕ) (id : Fourcc) (size : ℕ) (body : List ℕ)
    → IsU32 size
    → read_chunk_header grant (record { bytes = pre ++ chunk_bytes id size body; pos = length pre })
      ≡ ok (
        some (record { id = id; size = size }),
        record { bytes = pre ++ chunk_bytes id size body; pos = length pre + 8 },
      )
unfolding header_of
read_chunk_header-chunk_bytes grant pre id size body h =
    rw (read_chunk_header-eq, drop-append (length pre) pre (chunk_bytes id size body) refl)
      (rw (of_le32-le32 size h) (ground arith))

skip_pad-eq :
    (xs : List ℕ) (p n : ℕ)
    → p ≡ length xs
    → skip_pad n (record { bytes = xs ++ pad n; pos = p }) ≡ ok (tt, at_end (xs ++ pad n))
unfolding skip_pad seek_forward
skip_pad-eq xs p n h = elim (Bool-cases (n % 2 == 1)) [
  | inl e ↦ rw (e, h, length-append xs (0 ∷ [])) refl
  | inr e ↦ rw (e, h, append-nil xs) refl
]

read_rest-eq :
    (h : ChunkHeader) (bytes xs body : List ℕ) (p : ℕ)
    → bytes ≡ xs ++ (body ++ pad h.size)
    → p ≡ length xs
    → h.size ≡ length body
    → read_rest h (record { bytes = bytes; pos = p }) ≡ ok ((h, body), at_end bytes)
unfolding read_body
read_rest-eq h bytes xs body p e hp hn =
    let q : p + h.size ≡ length (xs ++ body) = omega (arith, length-append xs body) in
    rw (e, read_exact-append xs body (pad h.size) p h.size hp hn, ◌>>=◌)
      (rw
        (← append_assoc xs body (pad h.size), skip_pad-eq (xs ++ body) (p + h.size) h.size q, ◌>>=◌)
        refl)

-- What `write_chunk` appends is read back as the same id, size and body, and the reader stands at
-- the end of the chunk, behind its pad byte; the body must fit the 32-bit size.
pub read_chunk-write_chunk :
    (grant : ℕ → ℕ) (buf : List ℕ) (id : Fourcc) (body : List ℕ)
    → length body ≤ u32_max
    → (do write_chunk id body; seek_start (length buf); read_chunk grant) (at_end buf)
      ≡ ok (
        (record { id = id; size = length body }, body),
        at_end (buf ++ chunk_bytes id (length body) body),
      )
unfolding read_chunk seek_start
read_chunk-write_chunk grant buf id body h =
    let fits : leb (length body) u32_max ≡ true = ground arith in
    let n = length body in
    let whole : buf ++ chunk_bytes id n body
        ≡ (buf ++ (fourcc_bytes id ++ le32 n)) ++ (body ++ pad n) =
      sym (append_assoc buf (fourcc_bytes id ++ le32 n) (body ++ pad n)) in
    rw
      (
        write_chunk-eq buf id body,
        fits,
        read_chunk_header-chunk_bytes grant buf id n body (omega arith),
        ◌>>=◌,
      )
      (read_rest-eq (record { id = id; size = n }) (buf ++ chunk_bytes id n body) _ body
        (length buf + 8) whole (omega (arith, length-append buf (fourcc_bytes id ++ le32 n))) refl)
