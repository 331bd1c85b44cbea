-- ===== src/Format/Wave.antt =====
-- `WAVEFORMATEX` bodies: what is written parses back, and the parser is total.
use oxideav_avi.Base.{◌+◌, ◌-◌, ◌%◌, ◌^◌, ◌≡◌, refl, ok, length, arith, take_all, le→leb, le→ltb}
use oxideav_avi.Bytes.{IsU16, IsU32, of_le32-le32, of_le16-le16, u16_at, u32_at, slice}
use oxideav_avi.Format.{WaveFormatEx, wave_extradata, parse_waveformatex, write_waveformatex}

-- Every field that is written comes back; each fits its width, and the extra data are shorter than
-- 2^16 bytes.
pub parse_waveformatex-write_waveformatex :
    (w : WaveFormatEx)
    → IsU16 w.format_tag
    → IsU16 w.channels
    → IsU32 w.samples_per_sec
    → IsU32 w.avg_bytes_per_sec
    → IsU16 w.block_align
    → IsU16 w.bits_per_sample
    → IsU16 (length w.extradata)
    → parse_waveformatex (
        write_waveformatex w.format_tag w.channels w.samples_per_sec w.avg_bytes_per_sec
          w.block_align w.bits_per_sample w.extradata)
      ≡ ok w
unfolding parse_waveformatex write_waveformatex wave_extradata u16_at u32_at slice
parse_waveformatex-write_waveformatex w v0 v1 v2 v3 v4 v5 v6 =
    let buf =
      write_waveformatex w.format_tag w.channels w.samples_per_sec w.avg_bytes_per_sec w.block_align
        w.bits_per_sample w.extradata in
    let size : length buf ≡ 18 + length w.extradata = omega arith in
    let cut : 18 + length w.extradata - 18 ≡ length w.extradata = omega arith in
    let m : length w.extradata % 2 ^ 16 ≡ length w.extradata = omega arith in
    rw
      (
        m,
        le→leb 14 (length buf) (omega arith),
        le→leb 16 (length buf) (omega arith),
        le→leb 18 (length buf) (omega arith),
        of_le16-le16 w.format_tag v0,
        of_le16-le16 w.channels v1,
        of_le32-le32 w.samples_per_sec v2,
        of_le32-le32 w.avg_bytes_per_sec v3,
        of_le16-le16 w.block_align v4,
        of_le16-le16 w.bits_per_sample v5,
        of_le16-le16 (length w.extradata) v6,
        le→leb (18 + length w.extradata) (length buf) (omega arith),
        le→ltb (18 + length w.extradata) 18 (omega arith),
        le→ltb (length buf) (18 + length w.extradata) (omega arith),
        cut,
        take_all (length w.extradata) w.extradata (omega arith),
      )
      refl
