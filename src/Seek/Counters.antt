-- ===== src/Seek/Counters.antt =====
-- The per-stream counters after a seek: the cached tables give what the walk over `idx1` gives.
use oxideav_avi.Base.{
  ℕ, zero, suc, ◌≤◌, ◌<◌, ◌≡◌, refl, List, [], ◌∷◌, ◌++◌, Option, Outcome, ok, err, panic, ◌>>=◌,
  true, false, arith, All, Bool-cases, inl, inr, replicate, length, set, ltb,
}
use oxideav_avi.Index.{StdIndex}
use oxideav_avi.Seek.{
  IdxEntry, StreamInfo, Idx1Tables, update, is_keyframe, idx1_push, idx1_walk, build_seek_cache,
}
use oxideav_avi.Seek.To.{
  entry_point, latest_entry, counter_idx1, sat_max_0, reset_by_tables, reset_by_walk,
}
use oxideav_avi.Seek.Latest.{counter_at, counter_at-reached, counter_at-past}

-- The counters that the tables stand for, and the bound on what the tables hold.
Agrees : ℕ → List Idx1Tables → List ℕ → Type 0
Agrees t [] [] = Unit
Agrees t (x ∷ xs) (c ∷ cs) = (counter_at t x.entries ≡ ok c) × Agrees t xs cs
Agrees t _ _ = ⊥

abbrev UpTo : ℕ → Idx1Tables → Type 0
UpTo n x = All (λ e. e.0 ≤ n) x.entries

idx1_push-entries :
    (e : IdxEntry) (x : Idx1Tables) → (idx1_push e x).entries ≡ x.entries ++ (e.offset, e.pts) ∷ []
unfolding idx1_push
idx1_push-entries e x = elim (Bool-cases (is_keyframe e.flags)) [
  | inl h ↦ rw h refl
  | inr h ↦ rw h refl
]

Agrees-reached :
    (t : ℕ) (e : IdxEntry) (i : ℕ) (xs : List Idx1Tables) (cs : List ℕ)
    → Agrees t xs cs
    → All (UpTo t) xs
    → e.offset ≤ t
    → Agrees t (update i (idx1_push e) xs) (set cs i (sat_max_0 e.pts))
unfolding Agrees
Agrees-reached t e i [] [] a u h = tt
Agrees-reached t e zero (x ∷ xs) (c ∷ cs) a u h =
    (rw (idx1_push-entries e x) (counter_at-reached t x.entries (e.offset, e.pts) u.0 h), a.1)
Agrees-reached t e (suc i) (x ∷ xs) (c ∷ cs) a u h = (a.0, Agrees-reached t e i xs cs a.1 u.1 h)
Agrees-reached t e i [] (c ∷ cs) a u h = absurd a
Agrees-reached t e i (x ∷ xs) [] a u h = absurd a

Agrees-past :
    (t : ℕ) (e : IdxEntry) (i : ℕ) (xs : List Idx1Tables) (cs : List ℕ)
    → Agrees t xs cs
    → t < e.offset
    → Agrees t (update i (idx1_push e) xs) cs
unfolding Agrees
Agrees-past t e i [] [] a h = tt
Agrees-past t e zero (x ∷ xs) (c ∷ cs) a h =
    (rw (idx1_push-entries e x, counter_at-past t x.entries (e.offset, e.pts) h) a.0, a.1)
Agrees-past t e (suc i) (x ∷ xs) (c ∷ cs) a h = (a.0, Agrees-past t e i xs cs a.1 h)
Agrees-past t e i [] (c ∷ cs) a h = absurd a
Agrees-past t e i (x ∷ xs) [] a h = absurd a

All-le : (n m : ℕ) (es : List (ℕ × ℕ)) → n ≤ m → All (λ e. e.0 ≤ n) es → All (λ e. e.0 ≤ m) es
All-le n m [] h v = tt
All-le n m (e ∷ es) h v = (omega arith, All-le n m es h v.1)

UpTo-le : (n m : ℕ) (xs : List Idx1Tables) → n ≤ m → All (UpTo n) xs → All (UpTo m) xs
UpTo-le n m [] h v = tt
UpTo-le n m (x ∷ xs) h v = (All-le n m x.entries h v.0, UpTo-le n m xs h v.1)

All-snoc :
    (n : ℕ) (es : List (ℕ × ℕ)) (x : ℕ × ℕ)
    → All (λ e. e.0 ≤ n) es
    → x.0 ≤ n
    → All (λ e. e.0 ≤ n) (es ++ x ∷ [])
All-snoc n [] x v h = (h, tt)
All-snoc n (e ∷ es) x v h = (v.0, All-snoc n es x v.1 h)

UpTo-update :
    (e : IdxEntry) (i : ℕ) (xs : List Idx1Tables)
    → All (UpTo e.offset) xs
    → All (UpTo e.offset) (update i (idx1_push e) xs)
UpTo-update e i [] v = tt
UpTo-update e zero (x ∷ xs) v = (
  rw (idx1_push-entries e x) (All-snoc e.offset x.entries (e.offset, e.pts) v.0 (omega arith)),
  v.1,
)
UpTo-update e (suc i) (x ∷ xs) v = (v.0, UpTo-update e i xs v.1)

idx1_walk-false :
    (es : List IdxEntry) (prev : ℕ) (ts : List Idx1Tables) → (idx1_walk es prev false ts).0 ≡ false
unfolding idx1_walk
idx1_walk-false [] prev ts = refl
idx1_walk-false (e ∷ es) prev ts = elim (Bool-cases (ltb e.offset prev)) [
  | inl z ↦ rw (idx1_walk, z) (idx1_walk-false es e.offset (update e.stream (idx1_push e) ts))
  | inr z ↦ rw (idx1_walk, z) (idx1_walk-false es e.offset (update e.stream (idx1_push e) ts))
]

-- Once the walk is past the target, no table's counter changes.
idx1_walk-past :
    (t : ℕ) (es : List IdxEntry) (prev : ℕ) (ts : List Idx1Tables) (cs : List ℕ)
    → Agrees t ts cs
    → t < prev
    → (idx1_walk es prev true ts).0 ≡ true
    → Agrees t (idx1_walk es prev true ts).1 cs
unfolding idx1_walk
idx1_walk-past t [] prev ts cs a h m = a
idx1_walk-past t (e ∷ es) prev ts cs a h m = elim (Bool-cases (ltb e.offset prev)) [
  | inl z ↦
      let f = idx1_walk-false es e.offset (update e.stream (idx1_push e) ts) in
      absurd (ground arith)
  | inr z ↦
      rw (idx1_walk, z)
        (idx1_walk-past t es e.offset _ cs (Agrees-past t e e.stream ts cs a (ground arith))
          (ground arith) (rw (idx1_walk, z) at m))
]

idx1_walk-reset_by_walk :
    (t : ℕ) (es : List IdxEntry) (prev : ℕ) (ts : List Idx1Tables) (cs : List ℕ)
    → Agrees t ts cs
    → All (UpTo prev) ts
    → prev ≤ t
    → (idx1_walk es prev true ts).0 ≡ true
    → Agrees t (idx1_walk es prev true ts).1 (reset_by_walk t es cs)
unfolding idx1_walk reset_by_walk
idx1_walk-reset_by_walk t [] prev ts cs a u h m = a
idx1_walk-reset_by_walk t (e ∷ es) prev ts cs a u h m = elim (Bool-cases (ltb e.offset prev)) [
  | inl z ↦
      let f = idx1_walk-false es e.offset (update e.stream (idx1_push e) ts) in
      absurd (ground arith)
  | inr z ↦ elim (Bool-cases (ltb t e.offset)) [
    | inl y ↦
        let past : t < e.offset = ground arith in
        rw (idx1_walk, z, y)
          (idx1_walk-past t es e.offset _ cs (Agrees-past t e e.stream ts cs a past) past
            (rw (idx1_walk, z) at m))
    | inr y ↦
        let reached : e.offset ≤ t = ground arith in
        let up = UpTo-le prev e.offset ts (ground arith) u in
        rw (idx1_walk, z, y)
          (idx1_walk-reset_by_walk t es e.offset _ _
            (Agrees-reached t e e.stream ts cs a (UpTo-le e.offset t ts reached up) reached)
            (UpTo-update e e.stream ts up) reached (rw (idx1_walk, z) at m))
  ]
]

counter_cons :
    (c : ℕ) (cs : List ℕ) (o : Outcome (Option (ℕ × ℕ)))
    → (do e ← o; ok (counter_idx1 e)) ≡ ok c
    → (do e ← o; ok (counter_idx1 e ∷ cs)) ≡ ok (c ∷ cs)
counter_cons c cs (ok e) h = ground arith
counter_cons c cs (err e) h = ground arith
counter_cons c cs panic h = ground arith

Agrees-reset_by_tables :
    (t : ℕ) (xs : List Idx1Tables) (cs : List ℕ) → Agrees t xs cs → reset_by_tables t xs ≡ ok cs
unfolding Agrees reset_by_tables
Agrees-reset_by_tables t [] [] a = refl
Agrees-reset_by_tables t (x ∷ xs) (c ∷ cs) a =
    rw (◌>>=◌, Agrees-reset_by_tables t xs cs a.1)
      (counter_cons c cs (latest_entry t x.entries) a.0)
Agrees-reset_by_tables t [] (c ∷ cs) a = absurd a
Agrees-reset_by_tables t (x ∷ xs) [] a = absurd a

Agrees-replicate :
    (t n : ℕ)
    → Agrees t
        (replicate n (record { keyframes = []; kf_monotonic = true; entries = [] }))
        (replicate n 0)
unfolding Agrees latest_entry entry_point
Agrees-replicate t zero = tt
Agrees-replicate t (suc n) = (refl, Agrees-replicate t n)

UpTo-replicate :
    (m n : ℕ)
    → All (UpTo m) (replicate n (record { keyframes = []; kf_monotonic = true; entries = [] }))
UpTo-replicate m zero = tt
UpTo-replicate m (suc n) = (tt, UpTo-replicate m n)

-- Where the cache says that the offsets of `idx1` never decrease, the counters that the cached
-- tables give for any offset are those of the walk over `idx1`, and no index is out of range.
pub reset_by_tables-reset_by_walk :
    (idx_table : List IdxEntry) (std_indexes : List StdIndex) (streams : List StreamInfo)
    (target_off : ℕ)
    → (build_seek_cache idx_table std_indexes streams).idx1_off_globally_monotonic ≡ true
    → reset_by_tables target_off (build_seek_cache idx_table std_indexes streams).idx1
      ≡ ok (reset_by_walk target_off idx_table (replicate (length streams) 0))
unfolding build_seek_cache
reset_by_tables-reset_by_walk idx_table std_indexes streams target_off m =
    Agrees-reset_by_tables target_off _ _ (
      idx1_walk-reset_by_walk target_off idx_table 0 _ _
        (Agrees-replicate target_off (length streams)) (UpTo-replicate 0 (length streams))
        (omega arith) m)
