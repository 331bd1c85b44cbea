-- ===== src/Io.antt =====
-- `std::io::Cursor<Vec<u8>>`, the in-memory reader and writer, as far as the crate uses it:
-- `write_all`, `read`, `read_exact`, `seek` and `stream_position`.
-- A `read` may hand over fewer bytes than asked for: `grant p` bounds what it hands over at position
-- `p`, beyond the one byte that it must give while some are left. Real `Interrupted` retries and
-- device errors are left out.
pub mod Laws
use oxideav_avi.Base.{
  ℕ, zero, suc, ◌+◌, ◌-◌, ◌≤◌, Bool, true, false, List, [], ◌∷◌, ◌++◌, length, take, drop,
  replicate, min, Outcome, Error, ok, err, panic, unexpected_eof, ltb, if◌then◌else◌,
}

pub record Cursor : Type 0 where
  pub bytes : List ℕ
  pub pos : ℕ

-- A call that reads or changes the cursor.
abbrev pub M : Type 0 → Type 0
M A = Cursor → Outcome (A × Cursor)

infixl 5 ◌>>=◌ ◌>>◌
abbrev pub ◌>>=◌ : {A B : Type 0} → M A → (A → M B) → M B
◌>>=◌ m f c = elim (m c) [ ok (a, c') ↦ f a c' | err e ↦ err e | panic ↦ panic ]

abbrev pub ◌>>◌ : {A B : Type 0} → M A → M B → M B
◌>>◌ m k = m >>= λ _. k

abbrev pub pure : {A : Type 0} → A → M A
pure a c = ok (a, c)

abbrev pub fail : {A : Type 0} → Error → M A
fail e c = err e

-- An early return of an error unless the test holds.
abbrev pub guard : Bool → Error → M (Unit {0})
guard true e = pure tt
guard false e = fail e

-- The buffer after a write at `p`: zeros fill a gap behind its end.
unfoldable pub overwrite : List ℕ → ℕ → List ℕ → List ℕ
overwrite buf p bs =
    take p buf ++ (replicate (p - length buf) 0 ++ (bs ++ drop (p + length bs) buf))

unfoldable pub write_all : List ℕ → M (Unit {0})
write_all bs c = ok (tt, record { bytes = overwrite c.bytes c.pos bs; pos = c.pos + length bs })

unfoldable pub stream_position : M ℕ
stream_position c = ok (c.pos, c)

-- `seek(SeekFrom::Start(p))` and `seek(SeekFrom::Current(n))` forwards.
unfoldable pub seek_start : ℕ → M (Unit {0})
seek_start p c = ok (tt, record c { pos = p })

unfoldable pub seek_forward : ℕ → M (Unit {0})
seek_forward n c = ok (tt, record c { pos = c.pos + n })

-- The bytes from the position on.
abbrev pub remaining : Cursor → List ℕ
remaining c = drop c.pos c.bytes

unfoldable pub read_exact : ℕ → M (List ℕ)
read_exact n c =
    if ltb (length (remaining c)) n
    then err unexpected_eof
    else ok (take n (remaining c), record c { pos = c.pos + n })

-- One `read` into a buffer of `n` bytes.
unfoldable pub read : (ℕ → ℕ) → ℕ → M (List ℕ)
read grant n c =
    let got = take (min n (suc (grant c.pos))) (remaining c) in
    ok (got, record c { pos = c.pos + length got })
