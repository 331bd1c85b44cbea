-- ===== src/Riff/Read.antt =====
-- src/riff.rs, the reading half, and `demuxer::read_chunk_header_lenient`: what a header read gives,
-- however the reader splits its input, and reading back what was written.
use oxideav_avi.Base.{
  ℕ, zero, suc, ◌+◌, ◌-◌, ◌≤◌, ◌<◌, ◌≡◌, refl, sym, ◌∙◌, List, [], ◌∷◌, ◌++◌, length, arith, ltb,
  ◌==◌, if◌then◌else◌, inl, inr, Bool-cases, false, invalid, length-append, append_assoc,
  append-nil, Option, none, drop, drop-drop, ltb→lt, lt→ltb, drop-append,
}
use oxideav_avi.Io.{Cursor, M, ◌>>=◌, pure, fail, remaining}
use oxideav_avi.Io.Laws.{at_eof, some_bytes, read-cases}
use oxideav_avi.Riff.{
  ChunkHeader, header_of, read_chunk_header_loop, read_chunk_header, read_chunk_header_lenient_loop,
  read_chunk_header_lenient,
}

header_of_extra :
    (got rest : List ℕ) (c : Cursor) → length got ≡ 8 → header_of (got ++ rest) c ≡ header_of got c
unfolding header_of
header_of_extra (a ∷ b ∷ d ∷ e ∷ f ∷ g ∷ h ∷ i ∷ []) rest c p = refl
header_of_extra (a ∷ b ∷ d ∷ e ∷ f ∷ g ∷ h ∷ i ∷ j ∷ r) rest c p = absurd (omega arith)
header_of_extra (a ∷ b ∷ d ∷ e ∷ f ∷ g ∷ h ∷ []) rest c p = absurd (omega arith)
header_of_extra (a ∷ b ∷ d ∷ e ∷ f ∷ g ∷ []) rest c p = absurd (omega arith)
header_of_extra (a ∷ b ∷ d ∷ e ∷ f ∷ []) rest c p = absurd (omega arith)
header_of_extra (a ∷ b ∷ d ∷ e ∷ []) rest c p = absurd (omega arith)
header_of_extra (a ∷ b ∷ d ∷ []) rest c p = absurd (omega arith)
header_of_extra (a ∷ b ∷ []) rest c p = absurd (omega arith)
header_of_extra (a ∷ []) rest c p = absurd (omega arith)
header_of_extra [] rest c p = absurd (omega arith)

-- What is left to do when `got` is read: the header, if there are eight bytes in all, or else what
-- `short` makes of the bytes that there are, with the cursor at the end.
abbrev pub finish_with : (List ℕ → M (Option ChunkHeader)) → List ℕ → M (Option ChunkHeader)
finish_with short got c =
    if ltb (length (got ++ remaining c)) 8
    then short (got ++ remaining c) (record c { pos = c.pos + length (remaining c) })
    else header_of (got ++ remaining c) (record c { pos = c.pos + (8 - length got) })

-- No byte at all is a clean end, some bytes are a truncated header.
abbrev pub strict : List ℕ → M (Option ChunkHeader)
strict [] = pure none
strict (b ∷ bs) = fail invalid

abbrev pub lenient : List ℕ → M (Option ChunkHeader)
lenient bs = pure none

module _ (short : List ℕ → M (Option ChunkHeader)) (got : List ℕ) (c : Cursor) where
  finish_step :
      (bs more : List ℕ)
      → length got + length bs ≤ 8
      → remaining c ≡ bs ++ more
      → finish_with short (got ++ bs) (record c { pos = c.pos + length bs })
        ≡ finish_with short got c
  finish_step bs more h e =
      let left : drop (c.pos + length bs) c.bytes ≡ more =
        sym (drop-drop (length bs) c.pos c.bytes) ∙ rw e (drop-append (length bs) bs more refl) in
      let p : c.pos + length bs + length more ≡ c.pos + length (bs ++ more) =
        omega (arith, length-append bs more) in
      let q : c.pos + length bs + (8 - length (got ++ bs)) ≡ c.pos + (8 - length got) =
        omega (arith, length-append got bs) in
      rw (left, e, append_assoc got bs more, p, q) refl

  finish_full : length got ≡ 8 → header_of got c ≡ finish_with short got c
  finish_full h =
      let long : ltb (length (got ++ remaining c)) 8 ≡ false =
        rw (length-append got (remaining c), h) (ground arith) in
      let still : c.pos + (8 - length got) ≡ c.pos = omega arith in
      rw (long, still) (sym (header_of_extra got (remaining c) c h))

  finish_empty : length got < 8 → remaining c ≡ [] → short got c ≡ finish_with short got c
  finish_empty h e =
      let still : c.pos + 0 ≡ c.pos = omega arith in
      rw (e, append-nil got, lt→ltb (length got) 8 h, still) refl

strict-eq :
    (got : List ℕ) (c : Cursor)
    → (if length got == 0 then pure none else fail invalid) c ≡ strict got c
strict-eq [] c = refl
strict-eq (b ∷ bs) c = ground arith

-- However the reader cuts its input into pieces, the loop ends with what the bytes show.
read_chunk_header_loop-eq :
    (grant : ℕ → ℕ) (fuel : ℕ) (got : List ℕ) (c : Cursor)
    → length got ≤ 8
    → 9 ≤ fuel + length got
    → read_chunk_header_loop grant fuel got c ≡ finish_with strict got c
unfolding read_chunk_header_loop
read_chunk_header_loop-eq grant zero got c h f = absurd (omega arith)
read_chunk_header_loop-eq grant (suc fuel) got c h f = elim (Bool-cases (ltb (length got) 8)) [
  | inl e ↦ elim (read-cases grant (8 - length got) c (omega (arith, ltb→lt (length got) 8 e))) [
    | at_eof none_left r ↦
        rw (e, r, ◌>>=◌, strict-eq) (finish_empty strict got c (ltb→lt (length got) 8 e) none_left)
    | some_bytes b rest more room split r ↦
        rw (e, r, ◌>>=◌)
          (read_chunk_header_loop-eq grant fuel (got ++ b ∷ rest) _
              (omega (arith, length-append got (b ∷ rest)))
              (omega (arith, length-append got (b ∷ rest)))
            ∙ finish_step strict got c (b ∷ rest) more (omega arith) split)
  ]
  | inr e ↦ rw e (finish_full strict got c (ground arith))
]

read_chunk_header_lenient_loop-eq :
    (grant : ℕ → ℕ) (fuel : ℕ) (got : List ℕ) (c : Cursor)
    → length got ≤ 8
    → 9 ≤ fuel + length got
    → read_chunk_header_lenient_loop grant fuel got c ≡ finish_with lenient got c
unfolding read_chunk_header_lenient_loop
read_chunk_header_lenient_loop-eq grant zero got c h f = absurd (omega arith)
read_chunk_header_lenient_loop-eq grant (suc fuel) got c h f =
    elim (Bool-cases (ltb (length got) 8)) [
      | inl e ↦
          elim (read-cases grant (8 - length got) c (omega (arith, ltb→lt (length got) 8 e))) [
            | at_eof none_left r ↦
                rw (e, r, ◌>>=◌) (finish_empty lenient got c (ltb→lt (length got) 8 e) none_left)
            | some_bytes b rest more room split r ↦
                rw (e, r, ◌>>=◌)
                  (read_chunk_header_lenient_loop-eq grant fuel (got ++ b ∷ rest) _
                      (omega (arith, length-append got (b ∷ rest)))
                      (omega (arith, length-append got (b ∷ rest)))
                    ∙ finish_step lenient got c (b ∷ rest) more (omega arith) split)
          ]
      | inr e ↦ rw e (finish_full lenient got c (ground arith))
    ]

-- However the reader splits its input, `read_chunk_header` returns the header if eight bytes are
-- left, `None` if none is left, and an error otherwise.
pub read_chunk_header-eq :
    (grant : ℕ → ℕ) (c : Cursor) → read_chunk_header grant c ≡ finish_with strict [] c
unfolding read_chunk_header
read_chunk_header-eq grant c = read_chunk_header_loop-eq grant 9 [] c (omega arith) (omega arith)

-- The lenient reader differs in one case: one to seven bytes are a clean end too.
pub read_chunk_header_lenient-eq :
    (grant : ℕ → ℕ) (c : Cursor) → read_chunk_header_lenient grant c ≡ finish_with lenient [] c
unfolding read_chunk_header_lenient
read_chunk_header_lenient-eq grant c =
    read_chunk_header_lenient_loop-eq grant 9 [] c (omega arith) (omega arith)
