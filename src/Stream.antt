-- ===== src/Stream.antt =====
-- How a packet chunk's FourCC names its stream: src/muxer.rs `packet_fourcc_for`, and
-- src/demuxer.rs `ascii_hex` and `parse_stream_index`.
pub mod Digits
use oxideav_avi.Base.{
  ℕ, ◌+◌, ◌-◌, ◌*◌, ◌/◌, ◌%◌, Option, none, some, Bool, ◌&&◌, leb, ltb, if◌then◌else◌, Outcome, ok,
  panic,
}
use oxideav_avi.Bytes.{Fourcc, fourcc}

-- `(index / 10) as u8 + b'0'`: two decimal digits. The cast keeps the low byte; the sum panics past 255 in a build with overflow checks.
unfoldable pub packet_fourcc_for : ℕ → ℕ → ℕ → Outcome Fourcc
packet_fourcc_for index s0 s1 =
    let tens = index / 10 % 256 + b'0' in
    let ones = index % 10 % 256 + b'0' in
    if ltb tens 256 then ok (fourcc tens ones s0 s1) else panic

-- One hexadecimal digit.
unfoldable pub ascii_hex : ℕ → Option ℕ
ascii_hex b =
    if leb b'0' b && leb b b'9'
    then some (b - b'0')
    else if leb b'a' b && leb b b'f'
    then some (b - b'a' + 10)
    else if leb b'A' b && leb b b'F'
    then some (b - b'A' + 10)
    else none

infixl 5 ◌>>=◌
abbrev ◌>>=◌ : {A B : Type 0} → Option A → (A → Option B) → Option B
none >>= f = none
some a >>= f = f a

unfoldable pub parse_stream_index : Fourcc → Option ℕ
unfolding ascii_hex
parse_stream_index name = do h ← ascii_hex name.b0; l ← ascii_hex name.b1; some (h * 16 + l)
