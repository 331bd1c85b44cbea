-- ===== src/Seek/Panics.antt =====
-- The parts of a seek do not panic (src/demuxer.rs): indexing, the counters, the choice of a keyframe.
use oxideav_avi.Base.{
  ℕ, zero, suc, ◌≤◌, ◌<◌, ◌≡◌, refl, sym, ◌∙◌, ap, List, [], ◌∷◌, Option, none, some, Outcome, ok,
  err, panic, ◌>>=◌, guard, Bool, true, false, arith, All, Bool-cases, Option-cases, if◌then◌else◌,
  inl, inr, length, unsupported, invalid,
}
use mathlib.Core.Path.{subst}
use oxideav_avi.Index.{StdIndex}
use oxideav_avi.Stream.{parse_stream_index}
use oxideav_avi.Seek.{
  Keyframe, IdxEntry, Idx1Tables, StdTables, update, elem_at, idx1_walk, std_walk, select_keyframe,
}
use oxideav_avi.Seek.Cache.{LikeScan}
use oxideav_avi.Seek.Latest.{entry_point-le}
use oxideav_avi.Seek.To.{
  entry_point, entry_before, latest_entry, latest_scan, counter_idx1, counter_std, reset_by_tables,
  reset_std, ok_or,
}

abbrev pub NoPanic {ℓ} : {A : Type ℓ} → Outcome A → Type 0
NoPanic (ok a) = Unit
NoPanic (err e) = Unit
NoPanic panic = ⊥

pub NoPanic-bind {ℓ κ} :
    {A : Type ℓ} {B : Type κ} (m : Outcome A) (f : A → Outcome B)
    → NoPanic m
    → ((a : A) → m ≡ ok a → NoPanic (f a))
    → NoPanic (m >>= f)
NoPanic-bind (ok a) f n h = h a refl
NoPanic-bind (err e) f n h = tt
NoPanic-bind panic f n h = n

pub elem_at-NoPanic {ℓ} :
    {A : Type ℓ} (xs : List A) (i : ℕ) → i < length xs → NoPanic (elem_at xs i)
elem_at-NoPanic [] i h = absurd (omega arith)
elem_at-NoPanic (x ∷ xs) zero h = tt
elem_at-NoPanic (x ∷ xs) (suc i) h = elem_at-NoPanic xs i (omega arith)

abbrev OkHolds {ℓ κ} : {A : Type ℓ} → (A → Type κ) → Outcome A → Type κ
OkHolds P (ok a) = P a
OkHolds P (err e) = Unit
OkHolds P panic = Unit

pub elem_at-All {ℓ κ} :
    {A : Type ℓ} (P : A → Type κ) (xs : List A) (i : ℕ) (x : A)
    → All P xs
    → elem_at xs i ≡ ok x
    → P x
elem_at-All P (y ∷ ys) zero x v e = subst (OkHolds P) e v.0
elem_at-All P (y ∷ ys) (suc i) x v e = elem_at-All P ys i x v.1 e
elem_at-All P [] i x v e = ground arith

pub ok_or-NoPanic {ℓ} : {A : Type ℓ} (o : Option A) → NoPanic (ok_or o unsupported)
ok_or-NoPanic none = tt
ok_or-NoPanic (some a) = tt

pub ok_or_invalid-NoPanic {ℓ} : {A : Type ℓ} (o : Option A) → NoPanic (ok_or o invalid)
ok_or_invalid-NoPanic none = tt
ok_or_invalid-NoPanic (some a) = tt

pub guard-NoPanic : (b : Bool) → NoPanic (guard b unsupported)
guard-NoPanic true = tt
guard-NoPanic false = tt

entry_before-NoPanic : (es : List (ℕ × ℕ)) (n : ℕ) → n ≤ length es → NoPanic (entry_before es n)
entry_before-NoPanic es zero h = tt
entry_before-NoPanic es (suc i) h =
    NoPanic-bind (elem_at es i) (λ e. ok (some e)) (elem_at-NoPanic es i h) (λ e p. tt)

latest_entry-NoPanic : (t : ℕ) (es : List (ℕ × ℕ)) → NoPanic (latest_entry t es)
unfolding latest_entry
latest_entry-NoPanic t es = entry_before-NoPanic es (entry_point t es) (entry_point-le t es)

length-update {ℓ} :
    {A : Type ℓ} (i : ℕ) (f : A → A) (xs : List A) → length (update i f xs) ≡ length xs
length-update i f [] = refl
length-update zero f (x ∷ xs) = refl
length-update (suc i) f (x ∷ xs) = ap suc (length-update i f xs)

pub length-idx1_walk :
    (es : List IdxEntry) (prev : ℕ) (m : Bool) (ts : List Idx1Tables)
    → length (idx1_walk es prev m ts).1 ≡ length ts
unfolding idx1_walk
length-idx1_walk [] prev m ts = refl
length-idx1_walk (e ∷ es) prev m ts = length-idx1_walk es e.offset _ _ ∙ length-update e.stream _ ts

pub length-std_walk :
    (ixs : List StdIndex) (ds : List (Option ℕ)) (ts : List StdTables)
    → length (std_walk ixs ds ts) ≡ length ts
unfolding std_walk
length-std_walk [] ds ts = refl
length-std_walk (ix ∷ ixs) ds ts = elim (Option-cases (parse_stream_index ix.chunk_id)) [
  | inl e ↦ rw (std_walk, e) (length-std_walk ixs ds ts)
  | inr (s, e) ↦ rw (std_walk, e) (length-std_walk ixs ds _ ∙ length-update s _ ts)
]

pub reset_by_tables-NoPanic : (t : ℕ) (ts : List Idx1Tables) → NoPanic (reset_by_tables t ts)
unfolding reset_by_tables
reset_by_tables-NoPanic t [] = tt
reset_by_tables-NoPanic t (x ∷ xs) =
    NoPanic-bind (latest_entry t x.entries)
      (λ e. do rest ← reset_by_tables t xs; ok (counter_idx1 e ∷ rest))
      (latest_entry-NoPanic t x.entries)
      (λ e p.
        NoPanic-bind (reset_by_tables t xs) (λ rest. ok (counter_idx1 e ∷ rest))
          (reset_by_tables-NoPanic t xs) (λ r q. tt))

latest_by_flag-NoPanic :
    (t : ℕ) (x : StdTables)
    → NoPanic (if x.off_monotonic then latest_entry t x.entries else ok (latest_scan t x.entries))
latest_by_flag-NoPanic t x = elim (Bool-cases x.off_monotonic) [
  | inl e ↦ rw e (latest_entry-NoPanic t x.entries)
  | inr e ↦ rw e tt
]

pub reset_std-NoPanic : (t : ℕ) (ts : List StdTables) → NoPanic (reset_std t ts)
unfolding reset_std
reset_std-NoPanic t [] = tt
reset_std-NoPanic t (x ∷ xs) =
    NoPanic-bind
      (if x.off_monotonic then latest_entry t x.entries else ok (latest_scan t x.entries))
      (λ e. do rest ← reset_std t xs; ok (counter_std e ∷ rest)) (latest_by_flag-NoPanic t x)
      (λ e p.
        NoPanic-bind (reset_std t xs) (λ rest. ok (counter_std e ∷ rest)) (reset_std-NoPanic t xs)
          (λ r q. tt))

linear-NoPanic : (t : ℕ) (ks : List Keyframe) → NoPanic (select_keyframe ks false t)
unfolding select_keyframe
linear-NoPanic t ks = tt

pub select_keyframe-NoPanic :
    (t : ℕ) (ks : List Keyframe) (m : Bool) → LikeScan t ks m → NoPanic (select_keyframe ks m t)
select_keyframe-NoPanic t ks m e = subst NoPanic (sym e) (linear-NoPanic t ks)
