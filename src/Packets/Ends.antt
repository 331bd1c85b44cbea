-- ===== src/Packets/Ends.antt =====
-- Calls that read a file and return a value with a property, or an error, and do not panic: the
-- rules for sequences of calls, and what the reading calls of src/riff.rs and src/demuxer.rs promise.
use oxideav_avi.Base.{
  ℕ, ◌+◌, ◌-◌, ◌≤◌, ◌%◌, ◌≡◌, refl, sym, ◌∙◌, ap, List, [], ◌∷◌, Option, none, some, ok, err, panic,
  Outcome, Bool, true, false, length, take, arith, ltb, ◌==◌, le→ltb, if◌then◌else◌, inl, inr,
  Bool-cases, length-take, length-drop,
}
use oxideav_avi.Bytes.{fourcc, of_le32}
use oxideav_avi.Io.{Cursor, M, ◌>>=◌, pure, remaining, seek_forward, read_exact}
use oxideav_avi.Riff.{
  ChunkHeader, header_of, read_chunk_header_lenient, read_form_type, skip_chunk, skip_pad,
  padded_size,
}
use oxideav_avi.Riff.Read.{read_chunk_header_lenient-eq}
use oxideav_avi.Packets.{read_body_bounded}

-- The call returns an error, or a value and a cursor with `P`.
abbrev pub Ends : {A : Type 0} → (A → Cursor → Type 0) → Outcome (A × Cursor) → Type 0
Ends P (ok (a, c)) = P a c
Ends P (err e) = Unit
Ends P panic = ⊥

pub Ends-bind :
    {A B : Type 0} (P : A → Cursor → Type 0) (Q : B → Cursor → Type 0) (m : M A) (f : A → M B)
    (c : Cursor)
    → Ends P (m c)
    → ((a : A) (c' : Cursor) → P a c' → Ends Q (f a c'))
    → Ends Q ((m >>= f) c)
Ends-bind {A = A} P Q m f c h k = go (m c) h
  where
    go :
        (r : Outcome (A × Cursor))
        → Ends P r
        → Ends Q (elim r [ ok (a, c') ↦ f a c' | err e ↦ err e | panic ↦ panic ])
    go (ok (a, c')) h = k a c' h
    go (err e) h = tt
    go panic h = absurd h

pub Ends-map :
    {A : Type 0} (P Q : A → Cursor → Type 0) (r : Outcome (A × Cursor))
    → ((a : A) (c : Cursor) → P a c → Q a c)
    → Ends P r
    → Ends Q r
Ends-map P Q (ok (a, c)) f h = f a c h
Ends-map P Q (err e) f h = tt
Ends-map P Q panic f h = h

pub Ends-if :
    {A : Type 0} (P : A → Cursor → Type 0) (b : Bool) (m n : M A) (c : Cursor)
    → (b ≡ true → Ends P (m c))
    → (b ≡ false → Ends P (n c))
    → Ends P ((if b then m else n) c)
Ends-if P true m n c h k = h refl
Ends-if P false m n c h k = k refl

-- The reader has moved forwards by `n` bytes at least, in the same file.
pub record Moved (n : ℕ) (c c' : Cursor) : Type 0 where
  pub same : c'.bytes ≡ c.bytes
  pub forwards : c.pos + n ≤ c'.pos

abbrev moved : (n k : ℕ) (c : Cursor) → n ≤ k → Moved n c (record c { pos = c.pos + k })
moved n k c h = record { same = refl; forwards = omega arith }

pub Moved-trans : (n : ℕ) (c d e : Cursor) → Moved n c d → Moved 0 d e → Moved n c e
Moved-trans n c d e p q = record {
  same = q.same ∙ p.same;
  forwards = let a = p.forwards in let b = q.forwards in omega arith;
}

seek_if :
    (b : Bool) (n : ℕ) (c : Cursor)
    → Ends (λ _ c'. Moved 0 c c') ((if b then seek_forward n else pure (tt {0})) c)
unfolding seek_forward
seek_if true n c = moved 0 n c (omega arith)
seek_if false n c = record { same = refl; forwards = omega arith }

pub skip_chunk-Ends :
    (hdr : ChunkHeader) (c : Cursor) → Ends (λ _ c'. Moved 0 c c') (skip_chunk hdr c)
unfolding skip_chunk
skip_chunk-Ends hdr c = seek_if (ltb 0 (padded_size hdr)) (padded_size hdr) c

pub skip_pad-Ends : (n : ℕ) (c : Cursor) → Ends (λ _ c'. Moved 0 c c') (skip_pad n c)
unfolding skip_pad
skip_pad-Ends n c = seek_if (n % 2 == 1) 1 c

-- Four bytes are there once they are read.
pub read_form_type-Ends : (c : Cursor) → Ends (λ _ c'. Moved 0 c c') (read_form_type c)
unfolding read_form_type read_exact
read_form_type-Ends c = go (remaining c) refl
  where
    go : (l : List ℕ) → remaining c ≡ l → Ends (λ _ c'. Moved 0 c c') (read_form_type c)
    go [] e = rw (Ends, e) tt
    go (b0 ∷ []) e = rw (Ends, e) tt
    go (b0 ∷ b1 ∷ []) e = rw (Ends, e) tt
    go (b0 ∷ b1 ∷ b2 ∷ []) e = rw (Ends, e) tt
    go (b0 ∷ b1 ∷ b2 ∷ b3 ∷ l) e =
        let enough : ltb (length {A = ℕ} (b0 ∷ b1 ∷ b2 ∷ b3 ∷ l)) 4 ≡ false =
          le→ltb (length {A = ℕ} (b0 ∷ b1 ∷ b2 ∷ b3 ∷ l)) 4 (omega arith) in
        rw (Ends, e, enough) (moved 0 4 c (omega arith))

-- What `read_body_bounded` finds: as many bytes as it was asked for, at the cursor.
abbrev pub BodyRead : ℕ → Cursor → Option (List ℕ) → Cursor → Type 0
BodyRead size c none c' = Moved 0 c c'
BodyRead size c (some body) c' =
    Moved 0 c c' × (body ≡ take size (remaining c)) × (length body ≡ size)

pub read_body_bounded-Ends :
    (size : ℕ) (c : Cursor) → Ends (BodyRead size c) (read_body_bounded size c)
unfolding read_body_bounded
read_body_bounded-Ends size c = elim (Bool-cases (ltb (length (take size (remaining c))) size)) [
  | inl e ↦ rw e (moved 0 (length (take size (remaining c))) c (omega arith))
  | inr e ↦ rw e (
    moved 0 (length (take size (remaining c))) c (omega arith),
    refl,
    ground (arith, length-take size (remaining c)),
  )
]

-- The header that the bytes begin with.
unfoldable pub header_in : List ℕ → Option ChunkHeader
header_in (a ∷ b ∷ c ∷ d ∷ s0 ∷ s1 ∷ s2 ∷ s3 ∷ _) =
    some (record { id = fourcc a b c d; size = of_le32 s0 s1 s2 s3 })
header_in _ = none

pub data HeaderRead (c : Cursor) : Option ChunkHeader → Cursor → Type 0 where
  at_end : (c' : Cursor) → HeaderRead c none c'
  found :
      (hdr : ChunkHeader)
      → header_in (remaining c) ≡ some hdr
      → c.pos + 8 ≤ length c.bytes
      → HeaderRead c (some hdr) (record c { pos = c.pos + 8 })

abbrev header_or_end : List ℕ → M (Option ChunkHeader)
header_or_end l c =
    if ltb (length l) 8
    then ok (none, record c { pos = c.pos + length l })
    else header_of l (record c { pos = c.pos + 8 })

header_or_end-Ends :
    (l : List ℕ) (c : Cursor) → remaining c ≡ l → Ends (HeaderRead c) (header_or_end l c)
unfolding header_of header_in
header_or_end-Ends [] c e = at_end _
header_or_end-Ends (a ∷ []) c e = at_end _
header_or_end-Ends (a ∷ b ∷ []) c e = at_end _
header_or_end-Ends (a ∷ b ∷ d ∷ []) c e = at_end _
header_or_end-Ends (a ∷ b ∷ d ∷ f ∷ []) c e = at_end _
header_or_end-Ends (a ∷ b ∷ d ∷ f ∷ g ∷ []) c e = at_end _
header_or_end-Ends (a ∷ b ∷ d ∷ f ∷ g ∷ h ∷ []) c e = at_end _
header_or_end-Ends (a ∷ b ∷ d ∷ f ∷ g ∷ h ∷ i ∷ []) c e = at_end _
header_or_end-Ends (a ∷ b ∷ d ∷ f ∷ g ∷ h ∷ i ∷ j ∷ l) c e =
    let whole : List ℕ = a ∷ b ∷ d ∷ f ∷ g ∷ h ∷ i ∷ j ∷ l in
    let long : ltb (length whole) 8 ≡ false = le→ltb (length whole) 8 (omega arith) in
    let n : length c.bytes - c.pos ≡ length whole =
      sym (length-drop c.pos c.bytes) ∙ ap (length {A = ℕ}) e in
    rw long (found _ (rw e refl) (omega arith))

pub read_chunk_header_lenient-Ends :
    (grant : ℕ → ℕ) (c : Cursor) → Ends (HeaderRead c) (read_chunk_header_lenient grant c)
read_chunk_header_lenient-Ends grant c =
    rw (read_chunk_header_lenient-eq grant c) (header_or_end-Ends (remaining c) c refl)
