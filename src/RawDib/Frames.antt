-- ===== src/RawDib/Frames.antt =====
-- `RawLayout::unpack` and `RawLayout::pack` of src/raw_dib.rs: the rows of a frame in the file and in a
-- packet. The sizes are `usize` products, which panic past 2 ^ 64 in a checked build.
use oxideav_avi.Base.{
  ℕ, zero, suc, ◌+◌, ◌-◌, ◌*◌, ◌^◌, List, [], ◌++◌, Option, none, some, Outcome, ok, panic, ◌>>=◌,
  length, take, drop, replicate, ltb, ◌==◌, if◌then◌else◌, ◌||◌,
}
use oxideav_avi.Index.Write.{put}
use oxideav_avi.RawDib.{RawLayout, is_identity}

-- The rows of the packet from row `rows - k` on.
unfoldable pub unpack_rows : RawLayout → List ℕ → ℕ → List ℕ
unpack_rows l wire zero = []
unpack_rows l wire (suc k) =
    let r = l.rows - suc k in
    let src = if l.bottom_up then l.rows - 1 - r else r in
    take l.row_bytes (drop (src * l.stride) wire) ++ unpack_rows l wire k

unfoldable pub needed : RawLayout → ℕ
needed l = l.stride * (l.rows - 1) + l.row_bytes

unfoldable pub unpack : RawLayout → List ℕ → Outcome (List ℕ)
unpack l wire =
    if is_identity l || (l.rows == 0)
    then ok wire
    else if ltb (needed l) (2 ^ 64)
    then (if ltb (length wire) (needed l) then ok wire else ok (unpack_rows l wire l.rows))
    else panic

-- The rows from row `rows - k` on, put in their places.
unfoldable pub pack_rows : RawLayout → List ℕ → ℕ → List ℕ → Outcome (List ℕ)
pack_rows l packet zero out = ok out
pack_rows l packet (suc k) out = do
  let r = l.rows - suc k
  let dst = if l.bottom_up then l.rows - 1 - r else r
  out₁ ← put out (dst * l.stride) (take l.row_bytes (drop (r * l.row_bytes) packet))
  pack_rows l packet k out₁

unfoldable pub pack_frame : RawLayout → List ℕ → Outcome (Option (List ℕ))
unfolding pack_rows
pack_frame l packet =
    if ltb (l.stride * l.rows) (2 ^ 64)
    then (do out ← pack_rows l packet l.rows (replicate (l.stride * l.rows) 0); ok (some out))
    else panic

unfoldable pub pack : RawLayout → List ℕ → Outcome (Option (List ℕ))
unfolding pack_frame
pack l packet =
    if is_identity l
    then ok none
    else if ltb (l.row_bytes * l.rows) (2 ^ 64)
    then (if length packet == l.row_bytes * l.rows then pack_frame l packet else ok none)
    else panic
