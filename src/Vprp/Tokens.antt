-- ===== src/Vprp/Tokens.antt =====
-- src/demuxer.rs: `VprpVideoFormat` and `VprpVideoStandard` against their raw tokens.
use oxideav_avi.Base.{ℕ, ◌==◌, ◌≡◌, if◌then◌else◌, arith}

pub data VprpVideoFormat : Type 0 where
  unknown pal_square pal_ccir601 ntsc_square ntsc_ccir601 : VprpVideoFormat
  other_format : ℕ → VprpVideoFormat

unfoldable pub format_from_raw : ℕ → VprpVideoFormat
format_from_raw raw =
    if raw == 0
    then unknown
    else if raw == 1
    then pal_square
    else if raw == 2
    then pal_ccir601
    else if raw == 3
    then ntsc_square
    else if raw == 4
    then ntsc_ccir601
    else other_format raw

unfoldable pub format_to_raw : VprpVideoFormat → ℕ
format_to_raw unknown = 0
format_to_raw pal_square = 1
format_to_raw pal_ccir601 = 2
format_to_raw ntsc_square = 3
format_to_raw ntsc_ccir601 = 4
format_to_raw (other_format raw) = raw

pub data VprpVideoStandard : Type 0 where
  unknown pal ntsc secam : VprpVideoStandard
  other_standard : ℕ → VprpVideoStandard

unfoldable pub standard_from_raw : ℕ → VprpVideoStandard
standard_from_raw raw =
    if raw == 0
    then VprpVideoStandard.unknown
    else if raw == 1
    then pal
    else if raw == 2
    then ntsc
    else if raw == 3
    then secam
    else other_standard raw

unfoldable pub standard_to_raw : VprpVideoStandard → ℕ
standard_to_raw VprpVideoStandard.unknown = 0
standard_to_raw pal = 1
standard_to_raw ntsc = 2
standard_to_raw secam = 3
standard_to_raw (other_standard raw) = raw

-- Every raw token, known or not, survives the typed view of both enums.
pub to_raw-from_raw :
    (raw : ℕ)
    → (format_to_raw (format_from_raw raw) ≡ raw) × (standard_to_raw (standard_from_raw raw) ≡ raw)
unfolding format_from_raw format_to_raw standard_from_raw standard_to_raw
to_raw-from_raw raw = ground arith
