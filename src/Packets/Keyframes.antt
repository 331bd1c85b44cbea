-- ===== src/Packets/Keyframes.antt =====
-- The map from chunk offsets to keyframe flags that `open_avi` of src/demuxer.rs builds from the indexes for
-- `next_packet`.
use oxideav_avi.Base.{
  ℕ, ◌+◌, ◌-◌, ◌<◌, ◌≡◌, refl, sym, ◌∙◌, ap, List, [], ◌∷◌, ◌++◌, Bool, true, false, map, min, ltb,
  ◌==◌, if◌then◌else◌, arith, All, Bool-cases, inl, inr, append_assoc, append-nil,
}
use oxideav_avi.Index.{StdIndexEntry, StdIndex}
use oxideav_avi.Seek.{IdxEntry, is_keyframe, u64_max}
use oxideav_avi.Packets.{keyframe_at}

-- `insert`: an entry of `idx1` takes the place of an earlier one.
unfoldable pub insert_idx1 : List IdxEntry → List (ℕ × Bool) → List (ℕ × Bool)
insert_idx1 [] keys = keys
insert_idx1 (e ∷ es) keys = insert_idx1 es ((e.offset, is_keyframe e.flags) ∷ keys)

-- `entry(..).or_insert(..)`: an entry of an `ix##` chunk stands behind those that are there.
unfoldable pub insert_std : ℕ → List StdIndexEntry → List (ℕ × Bool) → List (ℕ × Bool)
insert_std qw_base_offset [] keys = keys
insert_std qw_base_offset (e ∷ es) keys =
    let data_off = min (qw_base_offset + e.dw_offset) u64_max in
    let with = insert_std qw_base_offset es (keys ++ (data_off - 8, e.is_keyframe) ∷ []) in
    let without = insert_std qw_base_offset es keys in if ltb data_off 8 then without else with

unfoldable pub insert_std_all : List StdIndex → List (ℕ × Bool) → List (ℕ × Bool)
unfolding insert_std
insert_std_all [] keys = keys
insert_std_all (ix ∷ ixs) keys = insert_std_all ixs (insert_std ix.qw_base_offset ix.entries keys)

unfoldable pub keyframe_by_offset : List IdxEntry → List StdIndex → List (ℕ × Bool)
unfolding insert_idx1 insert_std_all
keyframe_by_offset idx_table std_indexes = insert_std_all std_indexes (insert_idx1 idx_table [])

-- Whether the offset is a key, and the flag that comes first.
abbrev pub Holds : ℕ → Bool → List (ℕ × Bool) → Type 0
Holds off flag keys = (extra : List (ℕ × Bool)) → keyframe_at (keys ++ extra) off ≡ flag

Holds-insert_idx1 :
    (es : List IdxEntry) (off : ℕ) (flag : Bool) (keys : List (ℕ × Bool))
    → All (λ e. (e.offset == off) ≡ false) es
    → Holds off flag keys
    → Holds off flag (insert_idx1 es keys)
unfolding insert_idx1 keyframe_at
Holds-insert_idx1 [] off flag keys v h = h
Holds-insert_idx1 (e ∷ es) off flag keys v h =
    Holds-insert_idx1 es off flag ((e.offset, is_keyframe e.flags) ∷ keys) v.1
      (λ extra. rw v.0 (h extra))

Holds-first : (off : ℕ) (flag : Bool) (keys : List (ℕ × Bool)) → Holds off flag ((off, flag) ∷ keys)
unfolding keyframe_at
Holds-first off flag keys extra = let e : (off == off) ≡ true = ground arith in rw e refl

Holds-insert_std :
    (base : ℕ) (es : List StdIndexEntry) (off : ℕ) (flag : Bool) (keys : List (ℕ × Bool))
    → Holds off flag keys
    → Holds off flag (insert_std base es keys)
unfolding insert_std
Holds-insert_std base [] off flag keys h = h
Holds-insert_std base (e ∷ es) off flag keys h =
    let data_off = min (base + e.dw_offset) u64_max in
    let new : ℕ × Bool = (data_off - 8, e.is_keyframe) in
    elim (Bool-cases (ltb data_off 8)) [
      | inl t ↦ rw t (Holds-insert_std base es off flag keys h)
      | inr t ↦ rw t (
          Holds-insert_std base es off flag (keys ++ new ∷ [])
            (λ extra. rw (append_assoc keys (new ∷ []) extra) (h (new ∷ extra))))
    ]

Holds-insert_std_all :
    (ixs : List StdIndex) (off : ℕ) (flag : Bool) (keys : List (ℕ × Bool))
    → Holds off flag keys
    → Holds off flag (insert_std_all ixs keys)
unfolding insert_std_all
Holds-insert_std_all [] off flag keys h = h
Holds-insert_std_all (ix ∷ ixs) off flag keys h =
    Holds-insert_std_all ixs off flag (insert_std ix.qw_base_offset ix.entries keys)
      (Holds-insert_std ix.qw_base_offset ix.entries off flag keys h)

-- Each offset is below the offsets that follow.
abbrev pub Ascending : List ℕ → Type 0
Ascending [] = Unit
Ascending (n ∷ ns) = All (λ k. n < k) ns × Ascending ns

abbrev pub offset_of : IdxEntry → ℕ
offset_of e = e.offset

not_equal :
    (n : ℕ) (es : List IdxEntry)
    → All (λ k. n < k) (map offset_of es)
    → All (λ e. (e.offset == n) ≡ false) es
not_equal n [] v = tt
not_equal n (e ∷ es) v = let h = v.0 in (ground arith, not_equal n es v.1)

Holds-table :
    (es : List IdxEntry) (keys : List (ℕ × Bool))
    → Ascending (map offset_of es)
    → All (λ e. Holds e.offset (is_keyframe e.flags) (insert_idx1 es keys)) es
unfolding insert_idx1
Holds-table [] keys v = tt
Holds-table (e ∷ es) keys v =
    let new : ℕ × Bool = (e.offset, is_keyframe e.flags) in
    (
      Holds-insert_idx1 es e.offset (is_keyframe e.flags) (new ∷ keys) (not_equal e.offset es v.0)
          (Holds-first e.offset (is_keyframe e.flags) keys),
      Holds-table es (new ∷ keys) v.1,
    )

flags-All :
    (ixs : List StdIndex) (keys : List (ℕ × Bool)) (es : List IdxEntry)
    → All (λ e. Holds e.offset (is_keyframe e.flags) keys) es
    → All (λ e. keyframe_at (insert_std_all ixs keys) e.offset ≡ is_keyframe e.flags) es
flags-All ixs keys [] v = tt
flags-All ixs keys (e ∷ es) v =
    let held = Holds-insert_std_all ixs e.offset (is_keyframe e.flags) keys v.0 in
    (
      ap (λ k. keyframe_at k e.offset) (sym (append-nil (insert_std_all ixs keys))) ∙ held [],
      flags-All ixs keys es v.1,
    )

-- The map gives each entry of an `idx1` table whose offsets ascend its own flag, whatever the `ix##`
-- chunks say of that offset.
pub keyframe_at-keyframe_by_offset :
    (idx_table : List IdxEntry) (std_indexes : List StdIndex)
    → Ascending (map offset_of idx_table)
    → All
        (λ e. keyframe_at (keyframe_by_offset idx_table std_indexes) e.offset ≡ is_keyframe e.flags)
        idx_table
unfolding keyframe_by_offset
keyframe_at-keyframe_by_offset idx_table std_indexes v =
    flags-All std_indexes (insert_idx1 idx_table []) idx_table (Holds-table idx_table [] v)
