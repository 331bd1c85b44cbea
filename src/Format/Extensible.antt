-- ===== src/Format/Extensible.antt =====
-- src/stream_format.rs: `Guid`, `WaveFormatExtensible`, its parser and its writer.
use oxideav_avi.Base.{
  ℕ, ◌-◌, ◌≡◌, refl, List, [], ◌∷◌, ◌++◌, Option, none, some, Outcome, ok, panic, ◌>>=◌, ◌>>◌,
  length, take, leb, ltb, ◌==◌, ◌&&◌, Bool, true, false, if◌then◌else◌, invalid, guard, arith,
  take_all, drop_all, le→leb, le→ltb,
}
use oxideav_avi.Bytes.{IsU16, IsU32, le16, le32, u16_at, u32_at, of_le16-le16, of_le32-le32, slice}
use oxideav_avi.Format.{WaveFormatEx, parse_waveformatex, write_waveformatex}
use oxideav_avi.Format.Wave.{parse_waveformatex-write_waveformatex}

abbrev pub wave_format_extensible : ℕ
wave_format_extensible = 0xFFFE

-- The 16 bytes of a GUID.
pub record Guid : Type 0 where
  pub bytes : List ℕ

unfoldable pub from_components : ℕ → ℕ → ℕ → List ℕ → Guid
from_components data1 data2 data3 data4 = record {
  bytes = le32 data1 ++ (le16 data2 ++ (le16 data3 ++ data4));
}

unfoldable pub from_bytes : List ℕ → Option Guid
from_bytes buf = if ltb (length buf) 16 then none else some (record { bytes = take 16 buf })

abbrev same_bytes : List ℕ → List ℕ → Bool
same_bytes [] [] = true
same_bytes [] (b ∷ bs) = false
same_bytes (a ∷ xs) [] = false
same_bytes (a ∷ xs) (b ∷ bs) = (a == b) && same_bytes xs bs

-- `Data4` of the data formats.
abbrev pub ks_data4 : List ℕ
ks_data4 = 0x80 ∷ 0x00 ∷ 0x00 ∷ 0xAA ∷ 0x00 ∷ 0x38 ∷ 0x9B ∷ 0x71 ∷ []

abbrev pub ks_tail : List ℕ
ks_tail = 0x00 ∷ 0x00 ∷ 0x10 ∷ 0x00 ∷ ks_data4

unfoldable pub is_ksdataformat_base : Guid → Outcome Bool
is_ksdataformat_base g = do tail ← slice g.bytes 4 16; ok (same_bytes tail ks_tail)

unfoldable pub ksdataformat_tag : Guid → Outcome (Option ℕ)
unfolding is_ksdataformat_base
ksdataformat_tag g = do
  base ← is_ksdataformat_base g
  d1 ← u32_at g.bytes 0
  ok (if base then (if ltb 0xFFFF d1 then none else some d1) else none)

pub record WaveFormatExtensible : Type 0 where
  pub wfx : WaveFormatEx
  pub valid_bits_per_sample : ℕ
  pub channel_mask : ℕ
  pub subformat : Guid

-- `Option::expect`
abbrev expect : {A : Type 0} → Option A → Outcome A
expect none = panic
expect (some a) = ok a

unfoldable pub parse_waveformatextensible : List ℕ → Outcome WaveFormatExtensible
unfolding from_bytes
parse_waveformatextensible buf = do
  wfx ← parse_waveformatex buf
  guard (wfx.format_tag == wave_format_extensible) invalid
  guard (leb 22 (length wfx.extradata)) invalid
  valid_bits_per_sample ← u16_at wfx.extradata 0
  channel_mask ← u32_at wfx.extradata 2
  guid ← slice wfx.extradata 6 22
  subformat ← expect (from_bytes guid)
  rest ← slice wfx.extradata 22 (length wfx.extradata)
  ok (record {
    wfx = record wfx { extradata = rest };
    valid_bits_per_sample = valid_bits_per_sample;
    channel_mask = channel_mask;
    subformat = subformat;
  })

unfoldable pub write_waveformatextensible : ℕ → ℕ → ℕ → ℕ → ℕ → ℕ → ℕ → Guid → List ℕ
write_waveformatextensible channels samples_per_sec avg_bytes_per_sec block_align container_bits
      valid_bps channel_mask subformat =
    let extension = le16 valid_bps ++ (le32 channel_mask ++ subformat.bytes) in
    write_waveformatex wave_format_extensible channels samples_per_sec avg_bytes_per_sec block_align
      container_bits extension

-- The fields fit their widths.
pub record IsExtensible (e : WaveFormatExtensible) : Type 0 where
  pub channels : IsU16 e.wfx.channels
  pub samples_per_sec : IsU32 e.wfx.samples_per_sec
  pub avg_bytes_per_sec : IsU32 e.wfx.avg_bytes_per_sec
  pub block_align : IsU16 e.wfx.block_align
  pub bits_per_sample : IsU16 e.wfx.bits_per_sample
  pub valid_bits_per_sample : IsU16 e.valid_bits_per_sample
  pub channel_mask : IsU32 e.channel_mask
  pub subformat : length e.subformat.bytes ≡ 16

-- The extension of the header.
abbrev extension : WaveFormatExtensible → List ℕ
extension e = le16 e.valid_bits_per_sample ++ (le32 e.channel_mask ++ e.subformat.bytes)

abbrev extended : WaveFormatExtensible → WaveFormatEx
extended e = record e.wfx { format_tag = wave_format_extensible; extradata = extension e }

-- Every field that is written comes back, the tag is 0xFFFE and no extra data are left; each field fits
-- its width, and the GUID has sixteen bytes.
pub parse-write_waveformatextensible :
    (e : WaveFormatExtensible)
    → IsExtensible e
    → parse_waveformatextensible (
        write_waveformatextensible e.wfx.channels e.wfx.samples_per_sec e.wfx.avg_bytes_per_sec
          e.wfx.block_align e.wfx.bits_per_sample e.valid_bits_per_sample e.channel_mask
          e.subformat)
      ≡ ok (record e { wfx = record e.wfx { format_tag = wave_format_extensible; extradata = [] } })
unfolding parse_waveformatextensible write_waveformatextensible from_bytes u16_at u32_at slice
parse-write_waveformatextensible e h =
    let sixteen = h.subformat in
    let ext = extension e in
    let size : length ext ≡ 22 = omega arith in
    rw
      (
        parse_waveformatex-write_waveformatex (extended e) (omega arith) h.channels
            h.samples_per_sec h.avg_bytes_per_sec h.block_align h.bits_per_sample (omega arith),
        ◌>>=◌,
        le→leb 22 (length ext) (omega arith),
        of_le16-le16 e.valid_bits_per_sample h.valid_bits_per_sample,
        of_le32-le32 e.channel_mask h.channel_mask,
        le→ltb (length ext) 22 (omega arith),
        take_all 16 e.subformat.bytes (omega arith),
        le→ltb (length e.subformat.bytes) 16 (omega arith),
        drop_all 16 e.subformat.bytes (omega arith),
        le→ltb (length ext) (length ext) (omega arith),
        take_all {A = ℕ} (length ext - 22) [] (omega arith),
        take_all 16 e.subformat.bytes (omega arith),
      )
      refl

-- The tag of a data format is its first component, unless that has more than 16 bits.
pub ksdataformat_tag-from_components :
    (d : ℕ)
    → IsU32 d
    → ksdataformat_tag (from_components d 0 0x10 ks_data4)
      ≡ ok (if ltb 0xFFFF d then none else some d)
unfolding ksdataformat_tag is_ksdataformat_base from_components u32_at slice
ksdataformat_tag-from_components d h = rw (of_le32-le32 d h) refl
