-- ===== src/Sideband/Iterate.antt =====
-- `PaletteChangeTypedIter`: the bodies come out decoded, each once and in order, and `size_hint` counts them.
use oxideav_avi.Base.{
  ℕ, zero, suc, ◌+◌, ◌≤◌, ◌<◌, ◌≡◌, refl, ap, List, [], ◌∷◌, Option, none, some, Outcome, ok, err,
  panic, invalid, inl, inr, arith, length, get_elem?, drop, map, Option-cases, ◌>>=◌, length-map,
  length-drop, drop_all, ◌∙◌,
}
use oxideav_avi.Sideband.{
  PaletteChange, PaletteIter, parse_palette, palette_next, palette_size_hint,
}
use oxideav_avi.Sideband.Palette.{parse_palette-Returns}

-- What a body is to its reader: the palette change that it parses to, or the error.
pub decoded : List ℕ → Outcome PaletteChange
decoded body = elim (parse_palette body) [
  | ok found ↦ elim found [ none ↦ err invalid | some p ↦ ok p ]
  | err e ↦ err e
  | panic ↦ panic
]

-- A `for` loop over the iterator, of `fuel` calls at most: the items up to its end, and the iterator there.
pub collect : ℕ → PaletteIter → Outcome (List (Outcome PaletteChange) × PaletteIter)
collect zero it = panic
collect (suc fuel) it = do
  called ← palette_next it
  let rest = collect fuel called.1
  elim called.0 [
    | none ↦ ok ([], called.1)
    | some item ↦ do later ← rest; ok (item ∷ later.0, later.1)
  ]

get_elem?-none : (xs : List (List ℕ)) (i : ℕ) → get_elem? xs i ≡ none → length xs ≤ i
get_elem?-none [] i e = omega arith
get_elem?-none (x ∷ xs) zero e = ground arith
get_elem?-none (x ∷ xs) (suc i) e = let h = get_elem?-none xs i e in omega arith

get_elem?-some : (xs : List (List ℕ)) (i : ℕ) (x : List ℕ) → get_elem? xs i ≡ some x → i < length xs
get_elem?-some [] i x e = ground arith
get_elem?-some (y ∷ ys) zero x e = omega arith
get_elem?-some (y ∷ ys) (suc i) x e = let h = get_elem?-some ys i x e in omega arith

abbrev some_or : Option (List ℕ) → List ℕ → List ℕ
some_or none d = d
some_or (some x) d = x

drop-get_elem? :
    (xs : List (List ℕ)) (i : ℕ) (x : List ℕ)
    → get_elem? xs i ≡ some x
    → drop i xs ≡ x ∷ drop (i + 1) xs
drop-get_elem? [] i x e = ground arith
drop-get_elem? (y ∷ ys) zero x e = ap (λ o. some_or o y ∷ ys) e
drop-get_elem? (y ∷ ys) (suc i) x e =
    let same : suc (i + 1) ≡ suc i + 1 = omega arith in
    drop-get_elem? ys i x e ∙ ap (λ n. x ∷ drop n (y ∷ ys)) same

palette_next-some :
    (it : PaletteIter) (body : List ℕ)
    → get_elem? it.bodies it.next ≡ some body
    → palette_next it ≡ ok (some (decoded body), record it { next = it.next + 1 })
unfolding palette_next decoded
palette_next-some it body e =
    let (found, f) = parse_palette-Returns body in
    elim (Option-cases found) [
      | inl z ↦ rw (palette_next, decoded, e, f, z) refl
      | inr (p, z) ↦ rw (palette_next, decoded, e, f, z) refl
    ]

palette_next-none :
    (it : PaletteIter) → get_elem? it.bodies it.next ≡ none → palette_next it ≡ ok (none, it)
unfolding palette_next
palette_next-none it e = rw (palette_next, e) refl

-- All that the iterator still has.
abbrev pub all_decoded : PaletteIter → List (Outcome PaletteChange)
all_decoded it = map decoded (drop it.next it.bodies)

collect_all :
    (n : ℕ) (it : PaletteIter)
    → palette_size_hint it ≡ n
    → collect (suc n) it ≡ ok (all_decoded it, record it { next = it.next + n })
unfolding collect palette_size_hint
collect_all zero it h = elim (Option-cases (get_elem? it.bodies it.next)) [
  | inl e ↦
      let over = get_elem?-none it.bodies it.next e in
      let stays : it.next + 0 ≡ it.next = omega arith in
      rw (palette_next-none it e, ◌>>=◌, drop_all it.next it.bodies over, stays) refl
  | inr (body, e) ↦ let inside = get_elem?-some it.bodies it.next body e in absurd (omega arith)
]
collect_all (suc n) it h = elim (Option-cases (get_elem? it.bodies it.next)) [
  | inl e ↦ let over = get_elem?-none it.bodies it.next e in absurd (omega arith)
  | inr (body, e) ↦
      let inside = get_elem?-some it.bodies it.next body e in
      let moves : it.next + 1 + n ≡ it.next + suc n = omega arith in
      rw
        (
          palette_next-some it body e,
          ◌>>=◌,
          collect_all n (record it { next = it.next + 1 }) (omega arith),
          ◌>>=◌,
          drop-get_elem? it.bodies it.next body e,
          moves,
        )
        refl
]

-- A `for` loop over the iterator comes to its end without a panic: its items are the bodies that are left,
-- each once and in their order, each as the palette change that it parses to or as an error; there are as
-- many items as `size_hint` says, and at the end `size_hint` is zero.
pub collect-all_decoded :
    (it : PaletteIter)
    → (rest : PaletteIter) × (collect (suc (palette_size_hint it)) it ≡ ok (all_decoded it, rest))
      × ((length (all_decoded it) ≡ palette_size_hint it) × (palette_size_hint rest ≡ 0))
unfolding palette_size_hint
collect-all_decoded it = (
  record it { next = it.next + palette_size_hint it },
  collect_all (palette_size_hint it) it refl,
  (length-map decoded (drop it.next it.bodies) ∙ length-drop it.next it.bodies, omega arith),
)
