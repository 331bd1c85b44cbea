-- ===== src/Seek/Latest.antt =====
-- The latest entry at or before an offset, as entries are added to a table (src/demuxer.rs, `seek_to`).
use oxideav_avi.Base.{
  ℕ, zero, suc, ◌≤◌, ◌<◌, ◌≡◌, refl, List, [], ◌∷◌, ◌++◌, Outcome, ok, ◌>>=◌, true, arith, All,
  length, leb,
}
use oxideav_avi.Seek.{elem_at}
use oxideav_avi.Seek.To.{entry_point, entry_before, latest_entry, counter_idx1, sat_max_0}

abbrev pub counter_at : ℕ → List (ℕ × ℕ) → Outcome ℕ
counter_at t es = do e ← latest_entry t es; ok (counter_idx1 e)

entry_point-All :
    (t : ℕ) (es : List (ℕ × ℕ)) (x : ℕ × ℕ)
    → All (λ e. e.0 ≤ t) es
    → x.0 ≤ t
    → (entry_point t (es ++ x ∷ []) ≡ suc (length es)) × (elem_at (es ++ x ∷ []) (length es) ≡ ok x)
unfolding entry_point
entry_point-All t [] x h k = (ground arith, refl)
entry_point-All t (e ∷ es) x h k =
    let (p, q) = entry_point-All t es x h.1 k in
    let z : leb e.0 t ≡ true = ground arith in (rw (z, p) refl, q)

entry_point-past :
    (t : ℕ) (es : List (ℕ × ℕ)) (x : ℕ × ℕ)
    → t < x.0
    → entry_point t (es ++ x ∷ []) ≡ entry_point t es
unfolding entry_point
entry_point-past t [] x h = ground arith
entry_point-past t (e ∷ es) x h = rw (entry_point-past t es x h) refl

elem_at-append :
    (es : List (ℕ × ℕ)) (x : ℕ × ℕ) (i : ℕ)
    → i < length es
    → elem_at (es ++ x ∷ []) i ≡ elem_at es i
elem_at-append [] x i h = absurd (omega arith)
elem_at-append (e ∷ es) x zero h = refl
elem_at-append (e ∷ es) x (suc i) h = elem_at-append es x i (omega arith)

pub entry_point-le : (t : ℕ) (es : List (ℕ × ℕ)) → entry_point t es ≤ length es
unfolding entry_point
entry_point-le t [] = omega arith
entry_point-le t (e ∷ es) = ground (arith, entry_point-le t es)

-- An entry at or before the target sets the counter; one past it changes nothing.
pub counter_at-reached :
    (t : ℕ) (es : List (ℕ × ℕ)) (x : ℕ × ℕ)
    → All (λ e. e.0 ≤ t) es
    → x.0 ≤ t
    → counter_at t (es ++ x ∷ []) ≡ ok (sat_max_0 x.1)
unfolding latest_entry
counter_at-reached t es x h k = let (p, q) = entry_point-All t es x h k in rw (◌>>=◌, p, q) refl

entry_before-append :
    (es : List (ℕ × ℕ)) (x : ℕ × ℕ) (n : ℕ)
    → n ≤ length es
    → entry_before (es ++ x ∷ []) n ≡ entry_before es n
entry_before-append es x zero h = refl
entry_before-append es x (suc i) h = rw (elem_at-append es x i h) refl

pub counter_at-past :
    (t : ℕ) (es : List (ℕ × ℕ)) (x : ℕ × ℕ)
    → t < x.0
    → counter_at t (es ++ x ∷ []) ≡ counter_at t es
unfolding latest_entry
counter_at-past t es x h =
    rw
      (
        ◌>>=◌,
        entry_point-past t es x h,
        entry_before-append es x (entry_point t es) (entry_point-le t es),
      )
      refl
