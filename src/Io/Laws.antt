-- ===== src/Io/Laws.antt =====
-- Writing at the end of the buffer appends, and writing back inside it replaces.
use oxideav_avi.Base.{
  ℕ, zero, suc, ◌+◌, ◌-◌, ◌<◌, ◌≡◌, refl, sym, ap, List, [], ◌∷◌, ◌++◌, length, take, drop, arith,
  take_all, drop_all, take-append, drop-append, append-nil, append_assoc, length-append,
  length-take, ok, min, take-append-drop, ltb, false,
}
use oxideav_avi.Io.{Cursor, overwrite, write_all, remaining, read, read_exact}

pub overwrite_end : (buf bs : List ℕ) (p : ℕ) → p ≡ length buf → overwrite buf p bs ≡ buf ++ bs
unfolding overwrite
overwrite_end buf bs p h =
    let e : p - length buf ≡ 0 = omega arith in
    rw (take_all p buf (omega arith), e, drop_all (p + length bs) buf (omega arith))
      (ap (λ t. buf ++ t) (append-nil bs))

-- A patch of as many bytes as stood there.
pub overwrite_middle :
    (xs old new ys : List ℕ) (p : ℕ)
    → p ≡ length xs
    → length new ≡ length old
    → overwrite (xs ++ (old ++ ys)) p new ≡ xs ++ (new ++ ys)
unfolding overwrite
overwrite_middle xs old new ys p h k =
    let e : p - length (xs ++ (old ++ ys)) ≡ 0 = omega (arith, length-append xs (old ++ ys)) in
    let d : drop (p + length new) (xs ++ (old ++ ys)) ≡ ys =
      rw (← append_assoc xs old ys)
        (drop-append (p + length new) (xs ++ old) ys (omega (arith, length-append xs old))) in
    rw (take-append p xs (old ++ ys) (sym h), e, d)

pub write_all_end :
    (buf bs : List ℕ)
    → write_all bs (record { bytes = buf; pos = length buf })
      ≡ ok (tt, record { bytes = buf ++ bs; pos = length (buf ++ bs) })
unfolding write_all
write_all_end buf bs = rw (overwrite_end buf bs (length buf) refl, length-append buf bs)

-- One `read` into room for `n` bytes: nothing is left, or it hands over some bytes of what is left.
pub data ReadResult (grant : ℕ → ℕ) (n : ℕ) (c : Cursor) : Type 0 where
  at_eof : remaining c ≡ [] → read grant n c ≡ ok ([], c) → ReadResult grant n c
  some_bytes :
      (b : ℕ) (rest more : List ℕ)
      → length rest < n
      → remaining c ≡ (b ∷ rest) ++ more
      → read grant n c ≡ ok (b ∷ rest, record c { pos = c.pos + length (b ∷ rest) })
      → ReadResult grant n c

pub read-cases : (grant : ℕ → ℕ) (n : ℕ) (c : Cursor) → 0 < n → ReadResult grant n c
unfolding read
read-cases grant zero c h = absurd (omega arith)
read-cases grant (suc n) c h = go (remaining c) refl
  where
    k : ℕ
    k = min n (grant c.pos)

    same : min (suc n) (suc (grant c.pos)) ≡ suc k
    same = omega arith

    still : record c { pos = c.pos + 0 } ≡ c
    still = ap (λ p. record c { pos = p }) (let e : c.pos + 0 ≡ c.pos = omega arith in e)

    go : (l : List ℕ) → remaining c ≡ l → ReadResult grant (suc n) c
    go [] e = at_eof e (rw (e, same) (ap (λ t. ok ([], t)) still))
    go (b ∷ l) e =
        some_bytes b (take k l) (drop k l) (omega (arith, length-take k l))
          (rw e (ap (λ t. b ∷ t) (sym (take-append-drop k l)))) (rw (e, same) refl)

pub read_exact-append :
    (xs bs ys : List ℕ) (p n : ℕ)
    → p ≡ length xs
    → n ≡ length bs
    → read_exact n (record { bytes = xs ++ (bs ++ ys); pos = p })
      ≡ ok (bs, record { bytes = xs ++ (bs ++ ys); pos = p + n })
unfolding read_exact
read_exact-append xs bs ys p n h k =
    let enough : ltb (length (bs ++ ys)) n ≡ false = rw (length-append bs ys, k) (ground arith) in
    rw (drop-append p xs (bs ++ ys) (sym h), enough, take-append n bs ys (sym k)) refl
