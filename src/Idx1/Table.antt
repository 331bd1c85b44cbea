-- ===== src/Idx1/Table.antt =====
-- The index that is written reads back, and the seek table built from any index is in order.
use oxideav_avi.Base.{
  Bool, ◌&&◌, not, ◌==◌, if◌then◌else◌, ℕ, zero, suc, ◌+◌, ◌≤◌, ◌<◌, ◌≡◌, refl, List, [], ◌∷◌,
  Option, ok, ◌∙◌, arith, All, Bool-cases, Option-cases, inl, inr, replicate, length, length-map,
  length-replicate, set, map, min, leb, ap,
}
use oxideav_avi.Bytes.{IsU32, of_le32-le32, same_fourcc}
use oxideav_avi.Stream.{parse_stream_index}
use oxideav_avi.Seek.{
  StreamInfo, IdxEntry, elem_at, time_delta_divisor, time_delta_with_divisor, zero_i64, i64_max,
  u64_max,
}
use oxideav_avi.Idx1.{
  IndexEntry, index_bytes, serialize_idx1, raw_entries, base_offset, locate, rec_id, assign_pts,
  build_idx_table,
}

pub record EntryIsValid (e : IndexEntry) : Type 0 where
  pub flags : IsU32 e.flags
  pub offset : IsU32 e.offset
  pub size : IsU32 e.size

raw_entries-index_bytes :
    (es : List IndexEntry) → All EntryIsValid es → raw_entries (index_bytes es) ≡ es
unfolding raw_entries index_bytes
raw_entries-index_bytes [] v = refl
raw_entries-index_bytes (e ∷ es) v =
    rw
      (
        of_le32-le32 e.flags v.0.flags,
        of_le32-le32 e.offset v.0.offset,
        of_le32-le32 e.size v.0.size,
        raw_entries-index_bytes es v.1,
      )
      refl

-- The demuxer reads from the `idx1` body that the muxer writes the entries of the `ix##` snapshot, if
-- these are asked for in an OpenDML file and there are any, and else those of the running index; all
-- fields fit 32 bits.
pub raw_entries-serialize_idx1 :
    (synthesise open_dml : Bool) (snapshot index : List IndexEntry)
    → All EntryIsValid snapshot
    → All EntryIsValid index
    → raw_entries (serialize_idx1 synthesise open_dml snapshot index)
      ≡ (if synthesise && (open_dml && not (length snapshot == 0)) then snapshot else index)
unfolding serialize_idx1
raw_entries-serialize_idx1 synthesise open_dml snapshot index v w =
    elim (Bool-cases (synthesise && (open_dml && not (length snapshot == 0)))) [
      | inl e ↦ rw e (raw_entries-index_bytes snapshot v)
      | inr e ↦ rw e (raw_entries-index_bytes index w)
    ]

-- Within a stream no later entry has a smaller pts.
pub Rising : List IdxEntry → Type 0
Rising [] = Unit
Rising (e ∷ es) = All (λ x. x.stream ≡ e.stream → e.pts ≤ x.pts) es × Rising es

abbrev pub erase : IdxEntry → IdxEntry
erase e = record e { pts = zero_i64 }

abbrev AtLeast : List ℕ → IdxEntry → Type 0
AtLeast pp x = (p : ℕ) → elem_at pp x.stream ≡ ok p → p ≤ x.pts

elem_at-lt {ℓ} :
    {A : Type ℓ} (xs : List A) (i : ℕ) → i < length xs → (a : A) × (elem_at xs i ≡ ok a)
elem_at-lt [] i h = absurd (omega arith)
elem_at-lt (x ∷ xs) zero h = (x, refl)
elem_at-lt (x ∷ xs) (suc i) h = elem_at-lt xs i (omega arith)

elem_at-All : (m : ℕ) (xs : List ℕ) (i p : ℕ) → All (λ x. x ≤ m) xs → elem_at xs i ≡ ok p → p ≤ m
elem_at-All m [] i p v e = ground arith
elem_at-All m (x ∷ xs) zero p v e = ground arith
elem_at-All m (x ∷ xs) (suc i) p v e = elem_at-All m xs i p v.1 e

length-set : (xs : List ℕ) (i v : ℕ) → length (set xs i v) ≡ length xs
length-set [] i v = refl
length-set (x ∷ xs) zero v = refl
length-set (x ∷ xs) (suc i) v = ap suc (length-set xs i v)

All-set :
    (m : ℕ) (xs : List ℕ) (i v : ℕ) → v ≤ m → All (λ x. x ≤ m) xs → All (λ x. x ≤ m) (set xs i v)
All-set m [] i v h a = tt
All-set m (x ∷ xs) zero v h a = (h, a.1)
All-set m (x ∷ xs) (suc i) v h a = (a.0, All-set m xs i v h a.1)

-- Raising one value lowers none, and it is what is found at its place.
elem_at-set :
    (xs : List ℕ) (i v p j q : ℕ)
    → elem_at xs i ≡ ok p
    → p ≤ v
    → elem_at xs j ≡ ok q
    → (r : ℕ) × (elem_at (set xs i v) j ≡ ok r) × (q ≤ r) × (j ≡ i → r ≡ v)
elem_at-set [] i v p j q e h f = ground arith
elem_at-set (x ∷ xs) zero v p zero q e h f = (v, refl, ground arith, λ k. refl)
elem_at-set (x ∷ xs) zero v p (suc j) q e h f = (q, f, omega arith, λ k. absurd (omega arith))
elem_at-set (x ∷ xs) (suc i) v p zero q e h f = (q, f, omega arith, λ k. absurd (omega arith))
elem_at-set (x ∷ xs) (suc i) v p (suc j) q e h f =
    let (r, a, b, c) = elem_at-set xs i v p j q e h f in (r, a, b, λ k. c (omega arith))

AtLeast-set :
    (xs : List ℕ) (i v p : ℕ) (x : IdxEntry)
    → elem_at xs i ≡ ok p
    → p ≤ v
    → AtLeast (set xs i v) x
    → AtLeast xs x
AtLeast-set xs i v p x e h a q f =
    let (r, g, l, k) = elem_at-set xs i v p x.stream q e h f in let u = a r g in omega arith

AtLeast-same :
    (xs : List ℕ) (i v p : ℕ) (x : IdxEntry)
    → elem_at xs i ≡ ok p
    → p ≤ v
    → AtLeast (set xs i v) x
    → x.stream ≡ i
    → p ≤ x.pts
AtLeast-same xs i v p x e h a s = AtLeast-set xs i v p x e h a p (ap (elem_at xs) s ∙ e)

All-imp {ℓ κ} :
    {A : Type ℓ} (P Q : A → Type κ) (xs : List A) → ((x : A) → P x → Q x) → All P xs → All Q xs
All-imp P Q [] h v = tt
All-imp P Q (x ∷ xs) h v = (h x v.0, All-imp P Q xs h v.1)

abbrev KnownStream : ℕ → IdxEntry → Type 0
KnownStream n e = e.stream < n

assign_pts_lem :
    (ds : List (Option ℕ)) (pp : List ℕ) (es : List IdxEntry)
    → length ds ≡ length pp
    → All (λ p. p ≤ i64_max) pp
    → All (KnownStream (length pp)) es
    → (t : List IdxEntry) × (assign_pts ds pp es ≡ ok t)
      × Rising t
      × All (AtLeast pp) t
      × (map erase t ≡ map erase es)
unfolding assign_pts Rising
assign_pts_lem ds pp [] l m k = ([], refl, tt, tt, refl)
assign_pts_lem ds pp (e ∷ es) l m k =
    let (p, f) = elem_at-lt pp e.stream k.0 in
    let (d, g) = elem_at-lt ds e.stream (omega arith) in
    let v : ℕ = min (p + time_delta_with_divisor d e.size) i64_max in
    let bound = elem_at-All i64_max pp e.stream p m f in
    let same = length-set pp e.stream v in
    let (t, q, r, a, z) =
      assign_pts_lem ds (set pp e.stream v) es (omega arith)
        (All-set i64_max pp e.stream v (omega arith) m) (rw same k.1) in
    (
      record e { pts = p } ∷ t,
      rw (f, g, q) refl,
      (All-imp _ _ t (λ x. AtLeast-same pp e.stream v p x f (omega arith)) a, r),
      ((λ u w. ground arith), All-imp _ _ t (λ x. AtLeast-set pp e.stream v p x f (omega arith)) a),
      ap (λ s. erase e ∷ s) z,
    )

locate-KnownStream :
    (b n : ℕ) (es : List IndexEntry)
    → All (KnownStream n) (locate b n es).0 × (map erase (locate b n es).0 ≡ (locate b n es).0)
unfolding locate
locate-KnownStream b n [] = (tt, refl)
locate-KnownStream b n (e ∷ es) =
    let (known, zeros) = locate-KnownStream b n es in
    let located : ℕ → IdxEntry = λ s. record {
      stream = s;
      flags = e.flags;
      offset = min (b + e.offset) u64_max;
      size = e.size;
      pts = zero_i64;
    } in
    elim (Option-cases (parse_stream_index e.ckid)) [
      | inl p ↦ elim (Bool-cases (same_fourcc e.ckid rec_id)) [
        | inl q ↦ rw (locate, p, q) (known, zeros)
        | inr q ↦ rw (locate, p, q) (known, zeros)
      ]
      | inr (s, p) ↦ elim (Bool-cases (leb n s)) [
        | inl q ↦ rw (locate, p, q) (known, zeros)
        | inr q ↦ rw (locate, p, q) ((ground arith, known), ap (λ t. located s ∷ t) zeros)
      ]
    ]

All-zero : (n : ℕ) → All (λ p. p ≤ i64_max) (replicate n zero_i64)
All-zero zero = tt
All-zero (suc n) = (omega arith, All-zero n)

-- `build_idx_table` returns on any index and any file: its table holds the entries of the known
-- streams, with no change but their pts, and within a stream the pts never decrease.
pub build_idx_table_lem :
    (file raw : List ℕ) (movi_start : ℕ) (streams : List StreamInfo)
    → (let entries = raw_entries raw in
        let located = locate (base_offset file movi_start entries) (length streams) entries in
        (t : List IdxEntry) × (build_idx_table file raw movi_start streams ≡ ok (t, located.1))
        × (map erase t ≡ located.0)
        × Rising t)
unfolding build_idx_table
build_idx_table_lem file raw movi_start streams =
    let entries = raw_entries raw in
    let base = base_offset file movi_start entries in
    let (known, zeros) = locate-KnownStream base (length streams) entries in
    let size = length-replicate (length streams) zero_i64 in
    let divisors = length-map time_delta_divisor streams in
    let (t, q, r, a, z) =
      assign_pts_lem (map time_delta_divisor streams) (replicate (length streams) zero_i64)
        (locate base (length streams) entries).0 (omega arith) (All-zero (length streams))
        (rw size known) in
    (t, rw q refl, z ∙ zeros, r)
