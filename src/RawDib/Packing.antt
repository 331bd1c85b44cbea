-- ===== src/RawDib/Packing.antt =====
-- src/raw_dib.rs: `RawLayout::pack` does not panic where the rows fit their stride.
use oxideav_avi.Base.{
  ℕ, zero, suc, ◌+◌, ◌-◌, ◌*◌, ◌^◌, ◌≤◌, ◌<◌, ◌≡◌, List, ◌++◌, ok, err, panic, Outcome, ◌>>=◌,
  length, take, drop, replicate, length-append, length-take, length-drop, length-replicate, ◌==◌,
  if◌then◌else◌, arith, Bool-cases, inl, inr, lt→ltb, le→ltb,
}
use native.Mathlib.Nat.{mul-le-mul_right, mul_comm}
use oxideav_avi.Index.Write.{put}
use oxideav_avi.RawDib.{RawLayout, is_identity}
use oxideav_avi.RawDib.Frames.{pack_rows, pack_frame, pack}
use oxideav_avi.Packets.Delivery.{Returns}

-- A row in the file has room for the pixels, and the frame's size fits.
pub record Packs (l : RawLayout) : Type 0 where
  pub in_stride : l.row_bytes ≤ l.stride
  pub size_fits : l.stride * l.rows < 2 ^ 64

pub Returns-bind :
    {A B : Type 0} (P : A → Type 0) (Q : B → Type 0) (m : Outcome A) (f : A → Outcome B)
    → Returns P m
    → ((a : A) → P a → Returns Q (f a))
    → Returns Q (m >>= f)
Returns-bind P Q (ok a) f h k = k a h
Returns-bind P Q (err e) f h k = tt
Returns-bind P Q panic f h k = h

put-Returns :
    (buf bs : List ℕ) (at : ℕ)
    → at + length bs ≤ length buf
    → Returns (λ out. length out ≡ length buf) (put buf at bs)
unfolding put
put-Returns buf bs at h =
    let room = le→ltb (length buf) (at + length bs) h in
    rw (Returns, room)
      (omega (
        arith,
        length-append (take at buf) (bs ++ drop (at + length bs) buf),
        length-append bs (drop (at + length bs) buf),
        length-take at buf,
        length-drop (at + length bs) buf,
      ))

row_fits :
    (l : RawLayout) (dst n : ℕ)
    → Packs l
    → dst < l.rows
    → n ≤ l.row_bytes
    → dst * l.stride + n ≤ l.stride * l.rows
row_fits l dst n h inside short =
    let a = mul-le-mul_right {m = suc dst} {n = l.rows} l.stride inside in
    let b = h.in_stride in omega (arith, mul_comm l.stride l.rows)

pack_rows-Returns :
    (l : RawLayout) (packet : List ℕ) (k : ℕ) (out : List ℕ)
    → Packs l
    → k ≤ l.rows
    → length out ≡ l.stride * l.rows
    → Returns (λ _. Unit) (pack_rows l packet k out)
unfolding pack_rows
pack_rows-Returns l packet zero out h inside size = tt
pack_rows-Returns l packet (suc k) out h inside size =
    let r = l.rows - suc k in
    let dst = if l.bottom_up then l.rows - 1 - r else r in
    let row = take l.row_bytes (drop (r * l.row_bytes) packet) in
    let below : dst < l.rows = ground arith in
    let short : length row ≤ l.row_bytes =
      omega (arith, length-take l.row_bytes (drop (r * l.row_bytes) packet)) in
    let room = row_fits l dst (length row) h below short in
    Returns-bind (λ o. length o ≡ length out) (λ _. Unit) (put out (dst * l.stride) row) _
      (put-Returns out row (dst * l.stride) (omega arith))
      (λ o e. pack_rows-Returns l packet k o h (omega arith) (omega arith))

pack_frame-Returns :
    (l : RawLayout) (packet : List ℕ) → Packs l → Returns (λ _. Unit) (pack_frame l packet)
unfolding pack_frame
pack_frame-Returns l packet h =
    let fits = lt→ltb (l.stride * l.rows) (2 ^ 64) h.size_fits in
    rw fits (
      Returns-bind (λ _. Unit) (λ _. Unit)
        (pack_rows l packet l.rows (replicate (l.stride * l.rows) 0)) _
        (pack_rows-Returns l packet l.rows _ h (omega arith)
          (length-replicate {A = ℕ} (l.stride * l.rows) 0))
        (λ o u. tt))

pub pack-Returns : (l : RawLayout) (packet : List ℕ) → Packs l → Returns (λ _. Unit) (pack l packet)
unfolding pack
pack-Returns l packet h =
    let inside = mul-le-mul_right {m = l.row_bytes} {n = l.stride} l.rows h.in_stride in
    let whole = h.size_fits in
    let fits = lt→ltb (l.row_bytes * l.rows) (2 ^ 64) (omega arith) in
    elim (Bool-cases (is_identity l)) [
      | inl e ↦ rw (Returns, e) tt
      | inr e ↦ elim (Bool-cases (length packet == l.row_bytes * l.rows)) [
        | inl f ↦ rw (e, fits, f) (pack_frame-Returns l packet h)
        | inr f ↦ rw (Returns, e, fits, f) tt
      ]
    ]
