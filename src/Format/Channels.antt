-- ===== src/Format/Channels.antt =====
-- src/stream_format.rs: the speakers of a channel mask and the named layouts.
-- A mask is a number below 2^32; a bit of it is set where the quotient by the bit's value is odd.
use oxideav_avi.Base.{
  ℕ, ◌+◌, ◌/◌, ◌%◌, ◌≡◌, refl, ap, sym, ◌∙◌, List, [], ◌∷◌, Option, none, some, length, ◌==◌, Bool,
  if◌then◌else◌, arith, Bool-cases, inl, inr,
}

pub data Speaker : Type 0 where
  front_left front_right front_center low_frequency back_left back_right : Speaker
  front_left_of_center front_right_of_center back_center side_left side_right : Speaker
  top_center top_front_left top_front_center top_front_right : Speaker
  top_back_left top_back_center top_back_right speaker_all : Speaker

unfoldable pub mask_bit : Speaker → ℕ
mask_bit front_left = 0x00001
mask_bit front_right = 0x00002
mask_bit front_center = 0x00004
mask_bit low_frequency = 0x00008
mask_bit back_left = 0x00010
mask_bit back_right = 0x00020
mask_bit front_left_of_center = 0x00040
mask_bit front_right_of_center = 0x00080
mask_bit back_center = 0x00100
mask_bit side_left = 0x00200
mask_bit side_right = 0x00400
mask_bit top_center = 0x00800
mask_bit top_front_left = 0x01000
mask_bit top_front_center = 0x02000
mask_bit top_front_right = 0x04000
mask_bit top_back_left = 0x08000
mask_bit top_back_center = 0x10000
mask_bit top_back_right = 0x20000
mask_bit speaker_all = 0x80000000

abbrev pub speaker_bit_order : List Speaker
speaker_bit_order =
    front_left ∷ front_right ∷ front_center ∷ low_frequency ∷ back_left ∷ back_right
    ∷ front_left_of_center ∷ front_right_of_center ∷ back_center ∷ side_left ∷ side_right
    ∷ top_center ∷ top_front_left ∷ top_front_center ∷ top_front_right ∷ top_back_left
    ∷ top_back_center ∷ top_back_right ∷ speaker_all ∷ []

-- `mask & sp.mask_bit() != 0`
unfoldable pub has_speaker : ℕ → Speaker → Bool
unfolding mask_bit
has_speaker mask sp = mask / mask_bit sp % 2 == 1

unfoldable pub speakers_among : ℕ → List Speaker → List Speaker
unfolding has_speaker
speakers_among mask [] = []
speakers_among mask (sp ∷ sps) =
    let rest = speakers_among mask sps in if has_speaker mask sp then sp ∷ rest else rest

unfoldable pub iter_speakers : ℕ → List Speaker
unfolding speakers_among
iter_speakers mask = speakers_among mask speaker_bit_order

unfoldable pub count_among : ℕ → ℕ → List Speaker → ℕ
unfolding has_speaker
count_among mask count [] = count
count_among mask count (sp ∷ sps) =
    count_among mask (if has_speaker mask sp then count + 1 else count) sps

-- `ChannelMask::len`
unfoldable pub channel_count : ℕ → ℕ
unfolding count_among
channel_count mask = count_among mask 0 speaker_bit_order

-- `mask & known`, where `known` has the bits of the speakers.
unfoldable pub known_among : ℕ → List Speaker → ℕ
unfolding has_speaker mask_bit
known_among mask [] = 0
known_among mask (sp ∷ sps) =
    let rest = known_among mask sps in if has_speaker mask sp then mask_bit sp + rest else rest

unfoldable pub known_bits : ℕ → ℕ
unfolding known_among
known_bits mask = known_among mask speaker_bit_order

pub data ChannelLayout : Type 0 where
  mono stereo two_point_one quad five_point_one_back : ChannelLayout
  five_point_one_side seven_point_one : ChannelLayout

unfoldable pub layout_mask : ChannelLayout → ℕ
layout_mask mono = 0x004
layout_mask stereo = 0x001 + 0x002
layout_mask two_point_one = 0x001 + 0x002 + 0x008
layout_mask quad = 0x001 + 0x002 + 0x010 + 0x020
layout_mask five_point_one_back = 0x001 + 0x002 + 0x004 + 0x008 + 0x010 + 0x020
layout_mask five_point_one_side = 0x001 + 0x002 + 0x004 + 0x008 + 0x200 + 0x400
layout_mask seven_point_one = 0x001 + 0x002 + 0x004 + 0x008 + 0x010 + 0x020 + 0x200 + 0x400

unfoldable pub find_layout : ℕ → List ChannelLayout → Option ChannelLayout
unfolding layout_mask
find_layout cleaned [] = none
find_layout cleaned (l ∷ ls) =
    let rest = find_layout cleaned ls in if cleaned == layout_mask l then some l else rest

abbrev pub layouts : List ChannelLayout
layouts =
    mono ∷ stereo ∷ two_point_one ∷ quad ∷ five_point_one_back ∷ five_point_one_side
    ∷ seven_point_one ∷ []

unfoldable pub from_mask : ℕ → Option ChannelLayout
unfolding known_bits find_layout
from_mask mask = find_layout (known_bits mask) layouts

-- A mask whose bits of speakers are those of a layout has that layout, whatever its other bits are.
pub from_mask-layout_mask :
    (mask : ℕ) (l : ChannelLayout) → known_bits mask ≡ layout_mask l → from_mask mask ≡ some l
unfolding from_mask find_layout layout_mask
from_mask-layout_mask mask mono e = rw e refl
from_mask-layout_mask mask stereo e = rw e refl
from_mask-layout_mask mask two_point_one e = rw e refl
from_mask-layout_mask mask quad e = rw e refl
from_mask-layout_mask mask five_point_one_back e = rw e refl
from_mask-layout_mask mask five_point_one_side e = rw e refl
from_mask-layout_mask mask seven_point_one e = rw e refl

abbrev layout_or : Option ChannelLayout → ChannelLayout → ChannelLayout
layout_or none d = d
layout_or (some l) d = l

find_layout_sound :
    (cleaned : ℕ) (ls : List ChannelLayout) (l : ChannelLayout)
    → find_layout cleaned ls ≡ some l
    → cleaned ≡ layout_mask l
unfolding find_layout
find_layout_sound cleaned [] l e = ground arith
find_layout_sound cleaned (x ∷ ls) l e = elim (Bool-cases (cleaned == layout_mask x)) [
  | inl q ↦
      let same : cleaned ≡ layout_mask x = ground arith in
      let found : find_layout cleaned (x ∷ ls) ≡ some x = rw (find_layout, q) refl in
      same ∙ ap layout_mask (ap (λ o. layout_or o x) (sym found ∙ e))
  | inr q ↦
      let later : find_layout cleaned (x ∷ ls) ≡ find_layout cleaned ls =
        rw (find_layout, q) refl in
      find_layout_sound cleaned ls l (sym later ∙ e)
]

-- The layout that is found is the one of the mask's bits of speakers.
pub layout_mask-from_mask :
    (mask : ℕ) (l : ChannelLayout) → from_mask mask ≡ some l → known_bits mask ≡ layout_mask l
unfolding from_mask
layout_mask-from_mask mask l e = find_layout_sound (known_bits mask) layouts l e

count_among-eq :
    (mask count : ℕ) (sps : List Speaker)
    → count_among mask count sps ≡ count + length (speakers_among mask sps)
unfolding count_among speakers_among
count_among-eq mask count [] = omega arith
count_among-eq mask count (sp ∷ sps) = elim (Bool-cases (has_speaker mask sp)) [
  | inl e ↦ rw e (omega (arith, count_among-eq mask (count + 1) sps))
  | inr e ↦ rw e (omega (arith, count_among-eq mask count sps))
]

-- The channels that a mask counts are the speakers that it lists.
pub channel_count-iter_speakers : (mask : ℕ) → channel_count mask ≡ length (iter_speakers mask)
unfolding channel_count iter_speakers
channel_count-iter_speakers mask = omega (arith, count_among-eq mask 0 speaker_bit_order)
