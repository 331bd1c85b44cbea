-- ===== src/Index/Total.antt =====
-- The index parsers on any bytes whatever: they never panic, and what they return is bounded by
-- the bytes that are there.
use oxideav_avi.Base.{
  ℕ, zero, suc, ◌+◌, ◌-◌, ◌*◌, ◌/◌, ◌≤◌, ◌≡◌, refl, ap, List, [], ◌∷◌, true, Option, none, some,
  Outcome, ok, err, length, min, ltb, leb, ◌==◌, if◌then◌else◌, arith, inl, inr, Bool-cases,
  Option-cases, invalid, ==_iff, leb→le,
}
use native.Mathlib.Nat.{div-mul-le_self, le_trans}
use oxideav_avi.Bytes.{u32_at, Fourcc}
use oxideav_avi.Bytes.Laws.{
  Returns, byte_at-Returns, u16_at-Returns, u32_at-Returns, u64_at-Returns, fourcc_at-Returns,
}
use oxideav_avi.Index.{StdIndex, SuperIndex, default_super_index}
use oxideav_avi.Index.Parse.{
  entry_size_of, parse_std_entries, parse_ix_entries, parse_ix_chunk, parse_super_entries,
  parse_super_table, parse_indx, no_delta_bit, without_delta_bit,
}

-- A call that returns a list of `n` elements.
abbrev ReturnsMany : {A : Type 0} → ℕ → Outcome (List A) → Type 0
ReturnsMany {A} n r = (xs : List A) × (r ≡ ok xs) × (length xs ≡ n)

field2-Returns :
    (body : List ℕ) (size base : ℕ)
    → base + size ≤ length body
    → Returns (if size == 12 then u32_at body (base + 8) else ok 0)
field2-Returns body size base h = elim (Bool-cases (size == 12)) [
  | inl e ↦
      let s : size ≡ 12 = (==_iff size 12).0 e in
      let (v, p) = u32_at-Returns body (base + 8) (omega arith) in (v, rw e p)
  | inr e ↦ (0, rw e refl)
]

parse_std_entries_total :
    (body : List ℕ) (size n i : ℕ)
    → 8 ≤ size
    → 24 + (i + n) * size ≤ length body
    → ReturnsMany n (parse_std_entries body size n i)
unfolding parse_std_entries
parse_std_entries_total body size zero i s h = ([], refl, refl)
parse_std_entries_total body size (suc n) i s h =
    let room : 24 + i * size + size ≤ length body = omega arith in
    let (a, p) = u32_at-Returns body (24 + i * size) (omega arith) in
    let (b, q) = u32_at-Returns body (24 + i * size + 4) (omega arith) in
    let (c, r) = field2-Returns body size (24 + i * size) room in
    let (rest, t, k) = parse_std_entries_total body size n (i + 1) s (omega arith) in
    (
      record {
        dw_offset = a;
        dw_size = without_delta_bit b;
        is_keyframe = no_delta_bit b;
        dw_offset_field2 = c;
      }
          ∷ rest,
      rw (p, q, r, t) refl,
      ap suc k,
    )

-- What a returned standard index says of the body that it was read from.
abbrev pub FitsBody : List ℕ → Option StdIndex → Type 0
FitsBody body none = Unit
FitsBody body (some ix) =
    (length ix.entries ≤ ix.declared_n_entries) × (24 + 8 * length ix.entries ≤ length body)

mul_mono : (a b c : ℕ) → a ≤ b → a * c ≤ b * c
mul_mono a b c h = grind arith

module _ (own : Fourcc) (body : List ℕ) (long : 24 ≤ length body) where
  parse_ix_entries_total :
      (sub_type index_type size : ℕ)
      → 8 ≤ size
      → (r : Option StdIndex) × (parse_ix_entries own body sub_type index_type size ≡ ok r)
        × FitsBody body r
  unfolding parse_ix_entries
  parse_ix_entries_total sub_type index_type size s =
      let (n, p) = u32_at-Returns body 4 (omega arith) in
      let (id, q) = fourcc_at-Returns body 8 (omega arith) in
      let (base, r) = u64_at-Returns body 12 (omega arith) in
      let (res, t) = u32_at-Returns body 20 (omega arith) in
      let m = min n ((length body - 24) / size) in
      let fit : m * size ≤ length body - 24 =
        le_trans (mul_mono m ((length body - 24) / size) size (omega arith))
          (div-mul-le_self (length body - 24) size) in
      let (es, u, k) = parse_std_entries_total body size m 0 s (omega arith) in
      let wide : m * 8 ≤ m * size = grind arith in
      (
        some (record {
          own_fourcc = own;
          chunk_offset = 0;
          chunk_id = id;
          qw_base_offset = base;
          b_index_sub_type = sub_type;
          b_index_type = index_type;
          dw_reserved3 = res;
          declared_n_entries = n;
          entries = es;
        }),
        rw (p, q, r, t, u) refl,
        (omega arith, omega arith),
      )

entry_size_of-ge : (w sub size : ℕ) → entry_size_of w sub ≡ some size → 8 ≤ size
unfolding entry_size_of
entry_size_of-ge w sub size e = ground arith

-- On any chunk body `parse_ix_chunk` returns: it never panics, and an index that it returns holds no
-- more entries than are declared and than fit the body at eight bytes each.
pub parse_ix_chunk_total :
    (own : Fourcc) (body : List ℕ)
    → (r : Option StdIndex) × (parse_ix_chunk own body ≡ ok r) × FitsBody body r
unfolding parse_ix_chunk
parse_ix_chunk_total own body = elim (Bool-cases (ltb (length body) 24)) [
  | inl short ↦ (none, rw short refl, tt)
  | inr e ↦
      let long : 24 ≤ length body = ground arith in
      let (w, p) = u16_at-Returns body 0 (omega arith) in
      let (sub, q) = byte_at-Returns body 2 (omega arith) in
      let (type, r) = byte_at-Returns body 3 (omega arith) in
      elim (Bool-cases (type == 1)) [
        | inr other ↦ (none, rw (e, p, q, r, other) refl, tt)
        | inl chunks ↦ elim (Option-cases (entry_size_of w sub)) [
          | inl unknown ↦ (none, rw (e, p, q, r, chunks, unknown) refl, tt)
          | inr (size, known) ↦
              let (found, run, fits) =
                parse_ix_entries_total own body long sub type size
                  (entry_size_of-ge w sub size known) in
              (found, rw (e, p, q, r, chunks, known) run, fits)
        ]
      ]
]

parse_super_entries_total :
    (body : List ℕ) (n i : ℕ)
    → 24 + (i + n) * 16 ≤ length body
    → ReturnsMany n (parse_super_entries body n i)
unfolding parse_super_entries
parse_super_entries_total body zero i h = ([], refl, refl)
parse_super_entries_total body (suc n) i h =
    let (a, p) = u64_at-Returns body (24 + i * 16) (omega arith) in
    let (b, q) = u32_at-Returns body (24 + i * 16 + 8) (omega arith) in
    let (c, r) = u32_at-Returns body (24 + i * 16 + 12) (omega arith) in
    let (rest, t, k) = parse_super_entries_total body n (i + 1) (omega arith) in
    (record { qw_offset = a; dw_size = b; dw_duration = c } ∷ rest, rw (p, q, r, t) refl, ap suc k)

-- `parse_indx` ends in one of three ways.
pub data SuperResult (body : List ℕ) (r : Outcome SuperIndex) : Type 0 where
  -- The body ends inside the header or inside the declared entries.
  truncated : r ≡ err invalid → SuperResult body r
  -- Not an index of indexes: no entries are taken.
  other_kind : (s : SuperIndex) → r ≡ ok s → s.entries ≡ [] → s.present ≡ true → SuperResult body r
  -- An index of indexes whose entries all lie inside the body.
  indexes :
      (s : SuperIndex)
      → r ≡ ok s
      → s.b_index_type ≡ 0
      → s.present ≡ true
      → 24 + 16 * length s.entries ≤ length body
      → SuperResult body r

-- On any chunk body `parse_indx` returns an index or an error; it never panics, and the entries
-- that it returns lie inside the body.
pub parse_indx_total : (body : List ℕ) → SuperResult body (parse_indx body)
unfolding parse_indx parse_super_table
parse_indx_total body = elim (Bool-cases (leb 24 (length body))) [
  | inr short ↦ truncated (rw short refl)
  | inl e ↦
      let long : 24 ≤ length body = ground arith in
      let (w, p) = u16_at-Returns body 0 (omega arith) in
      let (sub, q) = byte_at-Returns body 2 (omega arith) in
      let (type, r) = byte_at-Returns body 3 (omega arith) in
      let (n, s) = u32_at-Returns body 4 (omega arith) in
      let (id, t) = fourcc_at-Returns body 8 (omega arith) in
      let (r0, u0) = u32_at-Returns body 12 (omega arith) in
      let (r1, u1) = u32_at-Returns body 16 (omega arith) in
      let (r2, u2) = u32_at-Returns body 20 (omega arith) in
      elim (Bool-cases (type == 0)) [
        | inr other ↦
            other_kind
              (record default_super_index {
                b_index_type = type;
                present = true;
                dw_reserved = (r0, r1, r2);
              })
              (rw (e, p, q, r, s, t, u0, u1, u2, other) refl) refl refl
        | inl zero_type ↦ elim (Bool-cases (leb (24 + n * 16) (length body))) [
          | inr short ↦ truncated (rw (e, p, q, r, s, t, u0, u1, u2, zero_type, short) refl)
          | inl fits ↦
              let room : 24 + (0 + n) * 16 ≤ length body =
                omega (arith, leb→le (24 + n * 16) (length body) fits) in
              let (es, v, k) = parse_super_entries_total body n 0 room in
              indexes
                (record {
                  w_longs_per_entry = w;
                  b_index_sub_type = sub;
                  b_index_type = type;
                  present = true;
                  dw_reserved = (r0, r1, r2);
                  chunk_id = id;
                  entries = es;
                  strl_std_index = none;
                })
                (rw (e, p, q, r, s, t, u0, u1, u2, zero_type, fits, v) refl)
                ((==_iff type 0).0 zero_type) refl (omega arith)
        ]
      ]
]
