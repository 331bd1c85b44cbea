-- ===== src/Mux/Padding.antt =====
-- src/muxer.rs: `AviMuxer::emit_padding_junk_for` puts the writer on a multiple of the granularity.
use oxideav_avi.Base.{
  ℕ, zero, suc, ◌+◌, ◌-◌, ◌*◌, ◌/◌, ◌%◌, ◌^◌, ◌≤◌, ◌<◌, ◌≡◌, refl, sym, ap, List, [], ◌∷◌, ◌++◌, ok,
  length, length-append, length-replicate, replicate, min, ltb, ◌==◌, if◌then◌else◌, arith,
  append_assoc, append-nil, Bool-cases, inl, inr, ltb→lt, ◌⊎◌, ==_iff,
}
use native.Mathlib.Nat.{mod-add-div', mod-lt, mul_assoc, mul-mod_left}
use oxideav_avi.Bytes.{le32, fourcc_bytes}
use oxideav_avi.Io.{Cursor, ◌>>=◌, ◌>>◌, pure, stream_position}
use oxideav_avi.Io.Laws.{write_all_end}
use oxideav_avi.Riff.{write_chunk_header}
use oxideav_avi.Riff.Write.{at_end, pad, chunk_bytes}
use oxideav_avi.Mux.{write_zeros, junk, junk_len, emit_padding_junk_for}

replicate-split : (k n : ℕ) → k ≤ n → replicate {A = ℕ} k 0 ++ replicate (n - k) 0 ≡ replicate n 0
replicate-split zero n h = let e : n - 0 ≡ n = omega arith in rw e refl
replicate-split (suc k) zero h = absurd (omega arith)
replicate-split (suc k) (suc n) h =
    let e : suc n - suc k ≡ n - k = omega arith in
    rw e (ap (λ t. 0 ∷ t) (replicate-split k n (omega arith)))

-- The loop writes as many zeros as it is asked for.
write_zeros-eq :
    (fuel n : ℕ) (buf : List ℕ)
    → n ≤ fuel
    → write_zeros fuel n (at_end buf) ≡ ok (tt, at_end (buf ++ replicate n 0))
unfolding write_zeros
write_zeros-eq zero n buf h =
    let e : n ≡ 0 = omega arith in rw e (ap (λ b. ok (tt, at_end b)) (sym (append-nil buf)))
write_zeros-eq (suc fuel) n buf h = elim (Bool-cases (ltb 0 n)) [
  | inl e ↦
      let some_left = ltb→lt 0 n e in
      rw
        (
          write_zeros,
          e,
          ◌>>=◌,
          write_all_end buf (replicate (min n 256) 0),
          ◌>>=◌,
          write_zeros-eq fuel (n - min n 256) (buf ++ replicate (min n 256) 0) (omega arith),
          append_assoc buf (replicate (min n 256) 0) (replicate (n - min n 256) 0),
          replicate-split (min n 256) n (omega arith),
        )
        refl
  | inr e ↦
      let none_left : n ≡ 0 = ground arith in
      rw (write_zeros, e, none_left) (ap (λ b. ok (tt, at_end b)) (sym (append-nil buf)))
]

module _ (h cur : ℕ) (positive : 0 < h) (small : h ≤ 2 ^ 15) (even : cur % 2 ≡ 0) where
  abbrev n : ℕ
  n = h * 2

  abbrev quotient : ℕ
  quotient = (cur + 8 + (n - 1)) / n

  target-bounds : (cur + 8 ≤ quotient * n) × (quotient * n < cur + 8 + n)
  target-bounds =
      let a = mod-add-div' (cur + 8 + (n - 1)) n in
      let b = mod-lt (cur + 8 + (n - 1)) {m = n} (omega arith) in (omega arith, omega arith)

  target-even : quotient * n % 2 ≡ 0
  target-even = rw (← mul_assoc quotient h 2) (mul-mod_left (quotient * h) 2)

  junk_len-eq : cur + 8 + junk_len n cur ≡ quotient * n
  unfolding junk_len
  junk_len-eq = let b = target-bounds in omega (arith, b.0, b.1)

  junk_len-even : junk_len n cur % 2 ≡ 0
  junk_len-even = omega (arith, junk_len-eq, target-even)

no_pad : (k : ℕ) → k % 2 ≡ 0 → pad k ≡ []
no_pad k e = rw e refl

length-junk :
    (k : ℕ) (buf : List ℕ)
    → k % 2 ≡ 0
    → length (buf ++ chunk_bytes junk k (replicate k 0)) ≡ length buf + 8 + k
length-junk k buf e =
    let head = fourcc_bytes junk ++ le32 k in
    rw
      (
        no_pad k e,
        append-nil {A = ℕ} (replicate k 0),
        length-append buf (head ++ replicate k 0),
        length-append head (replicate k 0),
        length-replicate {A = ℕ} k 0,
      )
      (omega arith)

junk_written :
    (k : ℕ) (buf : List ℕ)
    → k % 2 ≡ 0
    → (do write_chunk_header junk (k - k % 2); write_zeros k k) (at_end buf)
      ≡ ok (tt, at_end (buf ++ chunk_bytes junk k (replicate k 0)))
unfolding write_chunk_header
junk_written k buf e =
    let head = fourcc_bytes junk ++ le32 k in
    let same : k - k % 2 ≡ k = omega arith in
    rw (same, no_pad k e, append-nil {A = ℕ} (replicate k 0))
      (rw (write_all_end buf head, ◌>>=◌, write_zeros-eq k k (buf ++ head) (omega arith))
        (ap (λ b. ok (tt, at_end b)) (append_assoc buf head (replicate k 0))))

emit_padding_junk_for-eq :
    (n : ℕ) (c : Cursor)
    → 0 < n
    → emit_padding_junk_for n c
      ≡ (if c.pos % n == 0 then pure tt else (do
        write_chunk_header junk (junk_len n c.pos - junk_len n c.pos % 2)
        write_zeros (junk_len n c.pos) (junk_len n c.pos)))
          c
unfolding emit_padding_junk_for stream_position
emit_padding_junk_for-eq zero c h = absurd (omega arith)
emit_padding_junk_for-eq (suc k) c h = refl

-- With an even granularity up to 65536 and an even position, as chunks leave it, the writer ends on a
-- multiple of the granularity: it wrote nothing, or one whole `JUNK` chunk of zeros.
pub emit_padding_junk_for-aligns :
    (h : ℕ) (buf : List ℕ)
    → 0 < h
    → h ≤ 2 ^ 15
    → length buf % 2 ≡ 0
    → (out : List ℕ) × (emit_padding_junk_for (h * 2) (at_end buf) ≡ ok (tt, at_end out))
      × (length out % (h * 2) ≡ 0)
      × ((out ≡ buf) ⊎ ((k : ℕ) × (out ≡ buf ++ chunk_bytes junk k (replicate k 0))))
emit_padding_junk_for-aligns h buf positive small even =
    elim (Bool-cases (length buf % (h * 2) == 0)) [
      | inl e ↦ (
        buf,
        rw (emit_padding_junk_for-eq (h * 2) (at_end buf) (omega arith), e) refl,
        (==_iff (length buf % (h * 2)) 0).0 e,
        inl refl,
      )
      | inr e ↦ (
        buf
            ++ chunk_bytes junk (junk_len (h * 2) (length buf))
                (replicate (junk_len (h * 2) (length buf)) 0),
        rw (emit_padding_junk_for-eq (h * 2) (at_end buf) (omega arith), e)
            (junk_written (junk_len (h * 2) (length buf)) buf
              (junk_len-even h (length buf) positive small even)),
        rw
            (
              length-junk (junk_len (h * 2) (length buf)) buf
                  (junk_len-even h (length buf) positive small even),
              junk_len-eq h (length buf) positive small even,
            )
            (mul-mod_left _ (h * 2)),
        inr (junk_len (h * 2) (length buf), refl),
      )
    ]
