-- ===== src/Seek/Select.antt =====
-- `seek_cache_select_keyframe`: the binary search and the linear scan choose the same keyframe.
use oxideav_avi.Base.{
  ℕ, zero, suc, ◌≤◌, ◌<◌, ◌≡◌, refl, sym, ap, ◌∙◌, List, [], ◌∷◌, ◌++◌, Option, none, some, ok,
  length, take, leb, ◌==◌, All, true, false, arith, ◌⊎◌, inl, inr, Bool-cases,
}
use oxideav_avi.Seek.{
  Keyframe, elem_at, partition_point, run_start, scan_step, linear_scan, or_first, first,
  select_last, select_keyframe,
}

-- Nondecreasing pts.
unfoldable pub Sorted : List Keyframe → Type 0
Sorted [] = Unit
Sorted (a ∷ []) = Unit
Sorted (a ∷ b ∷ ks) = (a.pts ≤ b.pts) × Sorted (b ∷ ks)

Sorted-tail : (k : Keyframe) (ks : List Keyframe) → Sorted (k ∷ ks) → Sorted ks
unfolding Sorted
Sorted-tail k [] s = tt
Sorted-tail k (b ∷ ks) s = s.1

Sorted-elem_at :
    (ks : List Keyframe) (i : ℕ) (a b : Keyframe)
    → Sorted ks
    → elem_at ks i ≡ ok a
    → elem_at ks (suc i) ≡ ok b
    → a.pts ≤ b.pts
unfolding Sorted
Sorted-elem_at (x ∷ y ∷ ks) zero a b s p q = ground arith
Sorted-elem_at (x ∷ y ∷ ks) (suc i) a b s p q = Sorted-elem_at (y ∷ ks) i a b s.1 p q
Sorted-elem_at (x ∷ []) (suc i) a b s p q = ground arith
Sorted-elem_at (x ∷ []) zero a b s p q = ground arith
Sorted-elem_at [] i a b s p q = ground arith

elem_at-lt : (ks : List Keyframe) (i : ℕ) → i < length ks → (k : Keyframe) × (elem_at ks i ≡ ok k)
elem_at-lt [] i h = absurd (omega arith)
elem_at-lt (x ∷ xs) zero h = (x, refl)
elem_at-lt (x ∷ xs) (suc i) h = elem_at-lt xs i (omega arith)

partition_point-le : (t : ℕ) (ks : List Keyframe) → partition_point t ks ≤ length ks
unfolding partition_point
partition_point-le t [] = omega arith
partition_point-le t (k ∷ ks) = ground (arith, partition_point-le t ks)

partition_point-elem_at :
    (t : ℕ) (ks : List Keyframe) (i : ℕ) (k : Keyframe)
    → i < partition_point t ks
    → elem_at ks i ≡ ok k
    → k.pts ≤ t
unfolding partition_point
partition_point-elem_at t [] i k h e = ground arith
partition_point-elem_at t (x ∷ xs) zero k h e = ground arith
partition_point-elem_at t (x ∷ xs) (suc i) k h e = partition_point-elem_at t xs i k (ground arith) e

scan_step_above :
    (t : ℕ) (best : Option Keyframe) (k : Keyframe) → t < k.pts → scan_step t best k ≡ best
unfolding scan_step
scan_step_above t best k h = ground arith

linear_scan_above :
    (t : ℕ) (best : Option Keyframe) (k : Keyframe) (ks : List Keyframe)
    → t < k.pts
    → Sorted (k ∷ ks)
    → linear_scan t best (k ∷ ks) ≡ best
unfolding linear_scan Sorted
linear_scan_above t best k [] h s = scan_step_above t best k h
linear_scan_above t best k (b ∷ ks) h s =
    rw (scan_step_above t best k h) (linear_scan_above t best b ks (omega arith) s.1)

-- The scan of a sorted table needs no entry past the partition point.
linear_scan-take :
    (t : ℕ) (best : Option Keyframe) (ks : List Keyframe)
    → Sorted ks
    → linear_scan t best ks ≡ linear_scan t best (take (partition_point t ks) ks)
unfolding linear_scan partition_point
linear_scan-take t best [] s = refl
linear_scan-take t best (k ∷ ks) s = elim (Bool-cases (leb k.pts t)) [
  | inl e ↦ rw e (linear_scan-take t (scan_step t best k) ks (Sorted-tail k ks s))
  | inr e ↦ let h : t < k.pts = ground arith in rw e (linear_scan_above t best k ks h s)
]

linear_scan-append :
    (t : ℕ) (best : Option Keyframe) (ks ls : List Keyframe)
    → linear_scan t best (ks ++ ls) ≡ linear_scan t (linear_scan t best ks) ls
unfolding linear_scan
linear_scan-append t best [] ls = refl
linear_scan-append t best (k ∷ ks) ls = linear_scan-append t (scan_step t best k) ks ls

take-suc :
    (ks : List Keyframe) (i : ℕ) (k : Keyframe)
    → elem_at ks i ≡ ok k
    → take (suc i) ks ≡ take i ks ++ k ∷ []
take-suc [] i k e = ground arith
take-suc (x ∷ xs) zero k e = ground arith
take-suc (x ∷ xs) (suc i) k e = ap (λ t. x ∷ t) (take-suc xs i k e)

-- The run that ends at an entry starts where the scan up to that entry stops.
run_start-linear_scan :
    (t : ℕ) (ks : List Keyframe) (i : ℕ) (k : Keyframe)
    → Sorted ks
    → elem_at ks i ≡ ok k
    → i < partition_point t ks
    → (r : ℕ) × (b : Keyframe) × (run_start ks k.pts i ≡ ok r)
      × (elem_at ks r ≡ ok b)
      × (b.pts ≡ k.pts)
      × (linear_scan t none (take (suc i) ks) ≡ some b)
unfolding run_start linear_scan scan_step
run_start-linear_scan t ks zero k s e h =
    let le : k.pts ≤ t = partition_point-elem_at t ks 0 k h e in
    (0, k, refl, e, refl, rw (take-suc ks 0 k e) (ground arith))
run_start-linear_scan t ks (suc i) k s e h =
    let (c, f) = elem_at-lt ks i (omega (arith, partition_point-le t ks)) in
    let (r, b, p, q, m, n) = run_start-linear_scan t ks i c s f (omega arith) in
    let le : k.pts ≤ t = partition_point-elem_at t ks (suc i) k h e in
    let up = Sorted-elem_at ks i c k s f e in
    elim (Bool-cases (c.pts == k.pts)) [
      | inl z ↦
          let g : c.pts ≡ k.pts = ground arith in
          (
            r,
            b,
            rw (f, z) (ap (λ x. run_start ks x i) (sym g) ∙ p),
            q,
            m ∙ g,
            rw (take-suc ks (suc i) k e, linear_scan-append t none (take (suc i) ks) (k ∷ []), n)
                (ground arith),
          )
      | inr z ↦ (
        suc i,
        k,
        rw (f, z) refl,
        e,
        refl,
        rw (take-suc ks (suc i) k e, linear_scan-append t none (take (suc i) ks) (k ∷ []), n)
            (ground arith),
      )
    ]

select_last-linear_scan :
    (t : ℕ) (ks : List Keyframe) (n : ℕ)
    → Sorted ks
    → n ≡ partition_point t ks
    → select_last ks n ≡ ok (or_first (linear_scan t none (take n ks)) ks)
unfolding select_last linear_scan
select_last-linear_scan t ks zero s e = refl
select_last-linear_scan t ks (suc i) s e =
    let (k, f) = elem_at-lt ks i (omega (arith, partition_point-le t ks)) in
    let (r, b, p, q, m, n) = run_start-linear_scan t ks i k s f (omega arith) in
    rw (f, p, q, n) refl

-- On a table whose pts do not decrease the binary search returns what the linear scan returns.
pub select_keyframe-Sorted :
    (ks : List Keyframe) (target : ℕ)
    → Sorted ks
    → select_keyframe ks true target ≡ select_keyframe ks false target
unfolding select_keyframe
select_keyframe-Sorted ks target s =
    select_last-linear_scan target ks (partition_point target ks) s refl
    ∙ ap (λ r. ok (or_first r ks)) (sym (linear_scan-take target none ks s))

unfoldable pub LaterThan : ℕ → Keyframe → List Keyframe → Type 0
LaterThan target b ks = All (λ k. k.pts ≤ target → k.pts ≤ b.pts) ks

abbrev pub IsIn : Keyframe → List Keyframe → Type 0
IsIn k ks = (i : ℕ) × (elem_at ks i ≡ ok k)

IsIn-skip : (r b k : Keyframe) (ks : List Keyframe) → IsIn r (b ∷ ks) → IsIn r (b ∷ k ∷ ks)
IsIn-skip r b k ks (zero, e) = (zero, e)
IsIn-skip r b k ks (suc i, e) = (suc (suc i), e)

-- A scan with a best entry keeps it or finds a later one.
linear_scan-some :
    (t : ℕ) (b : Keyframe) (ks : List Keyframe)
    → b.pts ≤ t
    → (r : Keyframe) × (linear_scan t (some b) ks ≡ some r)
      × (r.pts ≤ t)
      × (b.pts ≤ r.pts)
      × IsIn r (b ∷ ks)
      × LaterThan t r ks
unfolding linear_scan scan_step LaterThan
linear_scan-some t b [] h = (b, refl, h, omega arith, (0, refl), tt)
linear_scan-some t b (k ∷ ks) h = elim (Bool-cases (leb k.pts t)) [
  | inr e ↦
      let (r, p, u, v, i, l) = linear_scan-some t b ks h in
      (r, rw e p, u, v, IsIn-skip r b k ks i, ((λ m. ground arith), l))
  | inl e ↦ elim (Bool-cases (leb k.pts b.pts)) [
    | inl f ↦
        let (r, p, u, v, i, l) = linear_scan-some t b ks h in
        (r, rw (e, f) p, u, v, IsIn-skip r b k ks i, ((λ m. ground arith), l))
    | inr f ↦
        let (r, p, u, v, i, l) = linear_scan-some t k ks (ground arith) in
        (r, rw (e, f) p, u, ground arith, (suc i.0, i.1), ((λ m. v), l))
  ]
]

linear_scan-none :
    (t : ℕ) (ks : List Keyframe)
    → ((linear_scan t none ks ≡ none) × All (λ k. t < k.pts) ks)
      ⊎ ((r : Keyframe) × (linear_scan t none ks ≡ some r)
          × (r.pts ≤ t)
          × IsIn r ks
          × LaterThan t r ks)
unfolding linear_scan scan_step LaterThan
linear_scan-none t [] = inl (refl, tt)
linear_scan-none t (k ∷ ks) = elim (Bool-cases (leb k.pts t)) [
  | inl e ↦
      let (r, p, u, v, i, l) = linear_scan-some t k ks (ground arith) in
      inr (r, rw e p, u, i, ((λ m. v), l))
  | inr e ↦ elim (linear_scan-none t ks) [
    | inl (p, a) ↦ inl (rw e p, (ground arith, a))
    | inr (r, p, u, i, l) ↦ inr (r, rw e p, u, (suc i.0, i.1), ((λ m. ground arith), l))
  ]
]

-- On any table the scan lands on an entry of the largest pts up to the target, or, where every entry
-- is past it, on the first entry; it lands nowhere only in an empty table.
pub select_keyframe_lem :
    (ks : List Keyframe) (target : ℕ)
    → ((r : Keyframe) × (select_keyframe ks false target ≡ ok (some r))
        × (r.pts ≤ target)
        × IsIn r ks
        × LaterThan target r ks)
      ⊎ ((select_keyframe ks false target ≡ ok (first ks)) × All (λ k. target < k.pts) ks)
unfolding select_keyframe
select_keyframe_lem ks target = elim (linear_scan-none target ks) [
  | inl (p, a) ↦ inr (rw p refl, a)
  | inr (r, p, u, i, l) ↦ inl (r, rw p refl, u, i, l)
]
