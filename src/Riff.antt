-- ===== src/Riff.antt =====
-- src/riff.rs: chunk headers, chunks and lists, written in one go or streamed and patched.
pub mod Read
pub mod Write
pub mod RoundTrip
use oxideav_avi.Base.{
  ℕ, zero, suc, ◌+◌, ◌-◌, ◌*◌, ◌%◌, ◌^◌, List, [], ◌∷◌, ◌++◌, length, Option, none, some, Bool,
  ◌||◌, invalid, other, ltb, leb, ◌==◌, if◌then◌else◌, ok, panic,
}
use oxideav_avi.Bytes.{le32, of_le32, Fourcc, fourcc, fourcc_bytes, same_fourcc}
use oxideav_avi.Io.{
  Cursor, M, ◌>>=◌, ◌>>◌, pure, fail, guard, write_all, stream_position, seek_start, seek_forward,
  read_exact, read,
}

-- `RIFF`, `LIST` and `AVI `.
abbrev pub riff : Fourcc
riff = fourcc b'R' b'I' b'F' b'F'

abbrev pub list : Fourcc
list = fourcc b'L' b'I' b'S' b'T'

abbrev pub avi_form : Fourcc
avi_form = fourcc b'A' b'V' b'I' b' '

abbrev pub u32_max : ℕ
u32_max = 2 ^ 32 - 1

pub record ChunkHeader : Type 0 where
  pub id : Fourcc
  pub size : ℕ

unfoldable pub is_list : ChunkHeader → Bool
is_list h = same_fourcc h.id riff || same_fourcc h.id list

-- The body and its pad byte; `size & 1` is `size % 2`.
unfoldable pub padded_size : ChunkHeader → ℕ
padded_size h = h.size + h.size % 2

-- The header in the eight bytes that were read.
unfoldable pub header_of : List ℕ → M (Option ChunkHeader)
header_of (a ∷ b ∷ c ∷ d ∷ s0 ∷ s1 ∷ s2 ∷ s3 ∷ _) =
    pure (some (record { id = fourcc a b c d; size = of_le32 s0 s1 s2 s3 }))
header_of _ = λ _. panic

-- `while got < 8`: each round that goes on has read a byte at least, so eight rounds fill the
-- buffer and a ninth is never begun (`panic` stands for the fuel's end).
unfoldable pub read_chunk_header_loop : (ℕ → ℕ) → ℕ → List ℕ → M (Option ChunkHeader)
read_chunk_header_loop grant zero got c = panic
read_chunk_header_loop grant (suc fuel) got c =
    let again = λ (bs : List ℕ) (c' : Cursor). read_chunk_header_loop grant fuel (got ++ bs) c' in
    if ltb (length got) 8
    then (do
      bs ← read grant (8 - length got)
      elim bs [
        | [] ↦ if length got == 0 then pure none else fail invalid
        | b ∷ rest ↦ again (b ∷ rest)
      ])
        c
    else header_of got c

unfoldable pub read_chunk_header : (ℕ → ℕ) → M (Option ChunkHeader)
unfolding read_chunk_header_loop
read_chunk_header grant = read_chunk_header_loop grant 9 []

-- `demuxer::read_chunk_header_lenient`: the end of the input inside a header is `None` too.
unfoldable pub read_chunk_header_lenient_loop : (ℕ → ℕ) → ℕ → List ℕ → M (Option ChunkHeader)
read_chunk_header_lenient_loop grant zero got c = panic
read_chunk_header_lenient_loop grant (suc fuel) got c =
    let again =
      λ (bs : List ℕ) (c' : Cursor). read_chunk_header_lenient_loop grant fuel (got ++ bs) c' in
    if ltb (length got) 8
    then (do
      bs ← read grant (8 - length got)
      elim bs [ [] ↦ pure none | b ∷ rest ↦ again (b ∷ rest) ])
        c
    else header_of got c

unfoldable pub read_chunk_header_lenient : (ℕ → ℕ) → M (Option ChunkHeader)
unfolding read_chunk_header_lenient_loop
read_chunk_header_lenient grant = read_chunk_header_lenient_loop grant 9 []

unfoldable pub read_form_type : M Fourcc
read_form_type = do
  b ← read_exact 4
  elim b [ b0 ∷ b1 ∷ b2 ∷ b3 ∷ _ ↦ pure (fourcc b0 b1 b2 b3) | _ ↦ λ _. panic ]

unfoldable pub read_body : ℕ → M (List ℕ)
read_body size = read_exact size

-- The cast of the padded size to `i64` changes nothing: it is at most 2 ^ 32.
unfoldable pub skip_chunk : ChunkHeader → M (Unit {0})
unfolding padded_size
skip_chunk h = if ltb 0 (padded_size h) then seek_forward (padded_size h) else pure tt

unfoldable pub skip_pad : ℕ → M (Unit {0})
skip_pad size = if size % 2 == 1 then seek_forward 1 else pure tt

unfoldable pub write_chunk_header : Fourcc → ℕ → M (Unit {0})
write_chunk_header id size = write_all (fourcc_bytes id ++ le32 size)

unfoldable pub write_pad : ℕ → M (Unit {0})
write_pad n = if n % 2 == 1 then write_all (0 ∷ []) else pure tt

unfoldable pub write_chunk : Fourcc → List ℕ → M (Unit {0})
unfolding write_chunk_header
write_chunk id body = do
  guard (leb (length body) u32_max) invalid
  write_chunk_header id (length body)
  write_all body
  write_pad (length body)

unfoldable pub write_list_chunk : Fourcc → Fourcc → List ℕ → M (Unit {0})
unfolding write_chunk_header
write_list_chunk list_id form_type body = do
  guard (leb (4 + length body) u32_max) invalid
  write_chunk_header list_id (4 + length body)
  write_all (fourcc_bytes form_type)
  write_all body
  write_pad (length body)

unfoldable pub begin_chunk : Fourcc → M ℕ
begin_chunk id = do
  write_all (fourcc_bytes id)
  size_off ← stream_position
  write_all (0 ∷ 0 ∷ 0 ∷ 0 ∷ [])
  pure size_off

unfoldable pub begin_list : Fourcc → Fourcc → M ℕ
unfolding begin_chunk
begin_list list_id form_type = do
  size_off ← begin_chunk list_id
  write_all (fourcc_bytes form_type)
  pure size_off

unfoldable pub finish_chunk : ℕ → M (Unit {0})
finish_chunk size_off = do
  end_pos ← stream_position
  let body_size = end_pos - (size_off + 4)
  guard (leb (size_off + 4) end_pos) other
  guard (leb body_size u32_max) invalid
  write_pad body_size
  seek_start size_off
  write_all (le32 body_size)
  seek_start (if body_size % 2 == 1 then end_pos + 1 else end_pos)
