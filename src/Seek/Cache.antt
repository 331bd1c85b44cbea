-- ===== src/Seek/Cache.antt =====
-- `build_seek_cache` marks a keyframe table as monotonic only where its pts do not decrease.
use oxideav_avi.Base.{
  ℕ, zero, suc, ◌≡◌, refl, List, [], ◌∷◌, ◌++◌, Option, none, some, Bool, true, false, ◌&&◌, arith,
  All, Bool-cases, inl, inr, replicate, length, map, get_or,
}
use oxideav_avi.Index.{StdIndexEntry, StdIndex}
use oxideav_avi.Stream.{parse_stream_index}
use oxideav_avi.Seek.{
  Keyframe, IdxEntry, StreamInfo, Idx1Tables, StdTables, follows, update, is_keyframe, idx1_push,
  idx1_walk, std_push, std_push_all, std_walk, build_seek_cache, select_keyframe,
  time_delta_divisor,
}
use oxideav_avi.Seek.Select.{Sorted, select_keyframe-Sorted}

Sorted-append :
    (ks : List Keyframe) (k : Keyframe)
    → Sorted ks
    → follows ks k.pts ≡ true
    → Sorted (ks ++ k ∷ [])
unfolding Sorted
Sorted-append [] k s h = tt
Sorted-append (a ∷ []) k s h = (ground arith, tt)
Sorted-append (a ∷ b ∷ ks) k s h = (s.0, Sorted-append (b ∷ ks) k s.1 h)

-- The flag says no more than the table holds.
abbrev IsSound : List Keyframe → Bool → Type 0
IsSound ks monotonic = monotonic ≡ true → Sorted ks

abbrev SoundIdx1 : Idx1Tables → Type 0
SoundIdx1 t = IsSound t.keyframes t.kf_monotonic

abbrev SoundStd : StdTables → Type 0
SoundStd t = IsSound t.keyframes t.kf_monotonic

IsSound-append :
    (ks : List Keyframe) (m : Bool) (k : Keyframe)
    → IsSound ks m
    → IsSound (ks ++ k ∷ []) (m && follows ks k.pts)
IsSound-append ks m k s e = Sorted-append ks k (s (ground arith)) (ground arith)

idx1_push-IsSound : (e : IdxEntry) (t : Idx1Tables) → SoundIdx1 t → SoundIdx1 (idx1_push e t)
unfolding idx1_push
idx1_push-IsSound e t s = elim (Bool-cases (is_keyframe e.flags)) [
  | inl h ↦ rw h (IsSound-append t.keyframes t.kf_monotonic _ s)
  | inr h ↦ rw h s
]

All-update {ℓ κ} :
    {A : Type ℓ} (P : A → Type κ) (f : A → A) (i : ℕ) (xs : List A)
    → ((x : A) → P x → P (f x))
    → All P xs
    → All P (update i f xs)
All-update P f i [] h v = v
All-update P f zero (x ∷ xs) h v = (h x v.0, v.1)
All-update P f (suc i) (x ∷ xs) h v = (v.0, All-update P f i xs h v.1)

All-replicate {ℓ κ} : {A : Type ℓ} (P : A → Type κ) (n : ℕ) (x : A) → P x → All P (replicate n x)
All-replicate P zero x h = tt
All-replicate P (suc n) x h = (h, All-replicate P n x h)

idx1_walk-IsSound :
    (es : List IdxEntry) (prev : ℕ) (m : Bool) (ts : List Idx1Tables)
    → All SoundIdx1 ts
    → All SoundIdx1 (idx1_walk es prev m ts).1
unfolding idx1_walk
idx1_walk-IsSound [] prev m ts v = v
idx1_walk-IsSound (e ∷ es) prev m ts v =
    idx1_walk-IsSound es e.offset _ _
      (All-update SoundIdx1 (idx1_push e) e.stream ts (idx1_push-IsSound e) v)

std_push-IsSound :
    (base : ℕ) (d : Option ℕ) (e : StdIndexEntry) (t : StdTables)
    → SoundStd t
    → SoundStd (std_push base d e t)
unfolding std_push
std_push-IsSound base d e t s = elim (Bool-cases e.is_keyframe) [
  | inl h ↦ rw h (IsSound-append t.keyframes t.kf_monotonic _ s)
  | inr h ↦ rw h s
]

std_push_all-IsSound :
    (base : ℕ) (d : Option ℕ) (es : List StdIndexEntry) (t : StdTables)
    → SoundStd t
    → SoundStd (std_push_all base d es t)
unfolding std_push_all
std_push_all-IsSound base d [] t s = s
std_push_all-IsSound base d (e ∷ es) t s =
    std_push_all-IsSound base d es (std_push base d e t) (std_push-IsSound base d e t s)

std_walk-IsSound :
    (ixs : List StdIndex) (ds : List (Option ℕ)) (ts : List StdTables)
    → All SoundStd ts
    → All SoundStd (std_walk ixs ds ts)
unfolding std_walk
std_walk-IsSound [] ds ts v = v
std_walk-IsSound (ix ∷ ixs) ds ts v =
    std_walk-IsSound ixs ds _ (step (parse_stream_index ix.chunk_id))
  where
    step :
        (o : Option ℕ)
        → All SoundStd (elim o [
          | none ↦ ts
          | some s ↦ update s (std_push_all ix.qw_base_offset (get_or ds s none) ix.entries) ts
        ])
    step none = v
    step (some s) =
        All-update SoundStd (std_push_all ix.qw_base_offset (get_or ds s none) ix.entries) s ts
          (std_push_all-IsSound ix.qw_base_offset (get_or ds s none) ix.entries) v

abbrev pub LikeScan : ℕ → List Keyframe → Bool → Type 0
LikeScan target ks monotonic = select_keyframe ks monotonic target ≡ select_keyframe ks false target

IsSound-LikeScan :
    (target : ℕ) (ks : List Keyframe) (m : Bool) → IsSound ks m → LikeScan target ks m
IsSound-LikeScan target ks true s = select_keyframe-Sorted ks target (s refl)
IsSound-LikeScan target ks false s = refl

All-imp {ℓ κ} :
    {A : Type ℓ} (P Q : A → Type κ) (xs : List A) → ((x : A) → P x → Q x) → All P xs → All Q xs
All-imp P Q [] h v = tt
All-imp P Q (x ∷ xs) h v = (h x v.0, All-imp P Q xs h v.1)

-- In the cache of any index and any target, the search on each stream's keyframes returns what the
-- linear scan returns, whether the cache says that the table is monotonic or not.
pub select_keyframe-build_seek_cache :
    (idx_table : List IdxEntry) (std_indexes : List StdIndex) (streams : List StreamInfo)
    (target : ℕ)
    → (let cache = build_seek_cache idx_table std_indexes streams in
        All (λ t. LikeScan target t.keyframes t.kf_monotonic) cache.idx1
        × All (λ t. LikeScan target t.keyframes t.kf_monotonic) cache.std)
unfolding build_seek_cache Sorted
select_keyframe-build_seek_cache idx_table std_indexes streams target = (
  All-imp SoundIdx1 _ _ (λ t s. IsSound-LikeScan target t.keyframes t.kf_monotonic s)
      (idx1_walk-IsSound idx_table 0 true _ (All-replicate SoundIdx1 (length streams) _ (λ e. tt))),
  All-imp SoundStd _ _ (λ t s. IsSound-LikeScan target t.keyframes t.kf_monotonic s)
      (std_walk-IsSound std_indexes (map time_delta_divisor streams) _
        (All-replicate SoundStd (length streams) _ (λ e. tt))),
)
