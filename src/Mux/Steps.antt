-- ===== src/Mux/Steps.antt =====
-- The writing calls of src/riff.rs under the muxer: a writer at the end of its file, on an even position,
-- stays there and keeps what it has written in place.
use oxideav_avi.Base.{
  leb→le, ℕ, ◌+◌, ◌-◌, ◌%◌, ◌≤◌, ◌≡◌, refl, ◌∙◌, ap, List, [], ◌∷◌, ◌++◌, length, length-append,
  length-replicate, length-take, length-drop, take, drop, replicate, Bool, true, false, arith, leb,
  ◌==◌, Bool-cases, inl, inr, invalid, other, Error,
}
use oxideav_avi.Bytes.{le32, Fourcc, fourcc_bytes}
use oxideav_avi.Io.{Cursor, pure, guard, overwrite, write_all, stream_position, seek_start}
use oxideav_avi.Riff.{
  u32_max, write_chunk_header, write_pad, write_chunk, begin_chunk, begin_list, finish_chunk,
}
use oxideav_avi.Packets.Ends.{Ends, Ends-bind, Ends-map}

-- At the end of a file that has grown to `n` bytes at least.
pub record AtEnd (n : ℕ) (c : Cursor) : Type 0 where
  pub last : c.pos ≡ length c.bytes
  pub grown : n ≤ c.pos

length-overwrite :
    (buf bs : List ℕ) (p : ℕ)
    → p ≤ length buf
    → (length (overwrite buf p bs) ≡ p + length bs + (length buf - (p + length bs)))
unfolding overwrite
length-overwrite buf bs p h = omega (
  arith,
  length-append (take p buf) (replicate (p - length buf) 0 ++ (bs ++ drop (p + length bs) buf)),
  length-append (replicate {A = ℕ} (p - length buf) 0) (bs ++ drop (p + length bs) buf),
  length-append bs (drop (p + length bs) buf),
  length-take p buf,
  length-replicate {A = ℕ} (p - length buf) 0,
  length-drop (p + length bs) buf,
)

pub write_all-Ends :
    (bs : List ℕ) (n : ℕ) (c : Cursor)
    → AtEnd n c
    → Ends (λ _ c'. AtEnd (n + length bs) c') (write_all bs c)
unfolding write_all
write_all-Ends bs n c h =
    let a = h.last in
    let b = h.grown in
    record {
      last = omega (arith, length-overwrite c.bytes bs c.pos (omega arith));
      grown = omega arith;
    }

guard-Ends :
    (b : Bool) (e : Error) (n : ℕ) (c : Cursor)
    → AtEnd n c
    → Ends (λ _ c'. AtEnd n c' × ((b ≡ true) × (c' ≡ c))) (guard b e c)
guard-Ends true e n c h = (h, (refl, refl))
guard-Ends false e n c h = tt

-- The pad byte, where the size is odd.
write_pad-Ends :
    (k n : ℕ) (c : Cursor)
    → AtEnd n c
    → Ends (λ _ c'. AtEnd n c' × (c'.pos ≡ c.pos + k % 2)) (write_pad k c)
unfolding write_pad write_all
write_pad-Ends k n c h = elim (Bool-cases (k % 2 == 1)) [
  | inl e ↦
      let a = h.last in
      let b = h.grown in
      rw e (
        record {
          last = omega (arith, length-overwrite c.bytes (0 ∷ []) c.pos (omega arith));
          grown = omega arith;
        },
        ground arith,
      )
  | inr e ↦ rw e (h, ground arith)
]

-- A body that is written has at most 2^32 - 1 bytes.
pub write_chunk-Fits :
    (id : Fourcc) (body : List ℕ) (n : ℕ) (c : Cursor)
    → AtEnd n c
    → Ends (λ _ c'. AtEnd n c' × (length body ≤ u32_max)) (write_chunk id body c)
unfolding write_chunk write_chunk_header
write_chunk-Fits id body n c h =
    let P = λ (k : ℕ) (_ : Unit {0}) (c' : Cursor). AtEnd k c' in
    let Q = λ (_ : Unit {0}) (c' : Cursor). AtEnd n c' × (length body ≤ u32_max) in
    let head = fourcc_bytes id ++ le32 (length body) in
    Ends-bind (λ _ c'. AtEnd n c' × ((leb (length body) u32_max ≡ true) × (c' ≡ c))) Q
      (guard (leb (length body) u32_max) invalid) _ c (guard-Ends _ invalid n c h)
      (λ _ c₁ h₁.
        Ends-bind (P (n + length head)) Q (write_all head) _ c₁ (write_all-Ends head n c₁ h₁.0)
          (λ _ c₂ h₂.
            Ends-bind (P (n + length head + length body)) Q (write_all body) _ c₂
              (write_all-Ends body (n + length head) c₂ h₂)
              (λ _ c₃ h₃.
                Ends-map _ Q (write_pad (length body) c₃)
                  (λ _ c₄ h₄.
                    let g = h₄.0.grown in
                    (
                      record { last = h₄.0.last; grown = omega arith },
                      leb→le (length body) u32_max h₁.1.0,
                    ))
                  (write_pad-Ends (length body) _ c₃ h₃))))

pub write_chunk-Ends :
    (id : Fourcc) (body : List ℕ) (n : ℕ) (c : Cursor)
    → AtEnd n c
    → Ends (λ _ c'. AtEnd n c') (write_chunk id body c)
write_chunk-Ends id body n c h =
    Ends-map _ (λ _ c'. AtEnd n c') (write_chunk id body c) (λ _ c' p. p.0)
      (write_chunk-Fits id body n c h)

begin_chunk-Ends :
    (id : Fourcc) (n : ℕ) (c : Cursor)
    → AtEnd n c
    → Ends (λ off c'. AtEnd (off + 4) c' × (n + 4 ≤ off)) (begin_chunk id c)
unfolding begin_chunk stream_position
begin_chunk-Ends id n c h =
    Ends-bind (λ _ c'. AtEnd (n + 4) c') _ (write_all (fourcc_bytes id)) _ c
      (write_all-Ends (fourcc_bytes id) n c h)
      (λ _ c₁ h₁.
        Ends-bind (λ _ c'. AtEnd (c₁.pos + 4) c') (λ off c'. AtEnd (off + 4) c' × (n + 4 ≤ off))
          (write_all (0 ∷ 0 ∷ 0 ∷ 0 ∷ [])) (λ _. pure c₁.pos) c₁
          (write_all-Ends (0 ∷ 0 ∷ 0 ∷ 0 ∷ []) c₁.pos c₁
            (record { last = h₁.last; grown = omega arith }))
          (λ _ c₂ h₂. (h₂, h₁.grown)))

-- The size field of a list that was opened stands inside the file.
pub begin_list-Ends :
    (list_id form : Fourcc) (n : ℕ) (c : Cursor)
    → AtEnd n c
    → Ends (λ off c'. AtEnd (off + 8) c' × (n + 4 ≤ off)) (begin_list list_id form c)
unfolding begin_list
begin_list-Ends list_id form n c h =
    Ends-bind (λ off c'. AtEnd (off + 4) c' × (n + 4 ≤ off)) _ (begin_chunk list_id) _ c
      (begin_chunk-Ends list_id n c h)
      (λ off c₁ h₁.
        Ends-bind (λ _ c'. AtEnd (off + 4 + 4) c') (λ off c'. AtEnd (off + 8) c' × (n + 4 ≤ off))
          (write_all (fourcc_bytes form)) (λ _. pure off) c₁
          (write_all-Ends (fourcc_bytes form) (off + 4) c₁ h₁.0)
          (λ _ c₂ h₂. let g = h₂.grown in (record { last = h₂.last; grown = omega arith }, h₁.1)))

-- Patching the size of a chunk that was opened at `off`, and its pad byte.
pub finish_chunk-Ends :
    (off n : ℕ) (c : Cursor)
    → AtEnd n c
    → off + 4 ≤ c.pos
    → Ends (λ _ c'. AtEnd n c') (finish_chunk off c)
unfolding finish_chunk stream_position seek_start write_all
finish_chunk-Ends off n c h inside =
    let size = c.pos - (off + 4) in
    Ends-bind (λ _ c'. AtEnd n c' × ((leb (off + 4) c.pos ≡ true) × (c' ≡ c))) (λ _ c'. AtEnd n c')
      (guard (leb (off + 4) c.pos) other) _ c (guard-Ends _ other n c h)
      (λ _ c₁ h₁.
        Ends-bind (λ _ c'. AtEnd n c' × ((leb size u32_max ≡ true) × (c' ≡ c₁)))
          (λ _ c'. AtEnd n c') (guard (leb size u32_max) invalid) _ c₁
          (guard-Ends _ invalid n c₁ h₁.0)
          (λ _ c₂ h₂.
            Ends-bind (λ _ c'. AtEnd n c' × (c'.pos ≡ c₂.pos + size % 2)) (λ _ c'. AtEnd n c')
              (write_pad size) _ c₂ (write_pad-Ends size n c₂ h₂.0)
              (λ _ c₃ h₃.
                let same : c₂ ≡ c = h₂.1.1 ∙ h₁.1.1 in
                let p : c₂.pos ≡ c.pos = ap (λ (x : Cursor). x.pos) same in
                let a = h₃.0.last in
                let b = h.grown in
                let patched = length-overwrite c₃.bytes (le32 size) off (omega (arith, h₃.1)) in
                elim (Bool-cases (size % 2 == 1)) [
                  | inl e ↦
                      rw e record { last = ground (arith, h₃.1, patched); grown = omega arith }
                  | inr e ↦
                      rw e record { last = ground (arith, h₃.1, patched); grown = omega arith }
                ])))
