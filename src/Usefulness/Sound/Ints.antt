-- ===== src/Usefulness/Sound/Ints.antt =====
-- The segments of a span hold every number of the span.
use thrax.Prelude.{
  ◌≡◌, subst, sym, Bool, true, false, not, ◌&&◌, ◌⊎◌, inl, inr, List, [], ◌∷◌, ◌++◌, Any,
  Any-append_left, Any-append_right, arith, Bool-cases,
}
use thrax.Prelude.Int.{ℤ, pos, ◌+ℤ◌, ◌≤ℤ◌, ◌<ℤ◌, leb_ℤ, eq_ℤ, eq_ℤ→eq, +ℤ_parts, -ℤ_parts}
use thrax.Usefulness.Segments.{Range, insert, sort, dedup_from, dedup, windows, cuts, segments}
use thrax.Usefulness.Search.{pick, sort_by_key}

abbrev pub In : ℤ → Range → Type 0
In z (a, b) = (a ≤ℤ z) × (z ≤ℤ b)

abbrev HeadLe : ℤ → List ℤ → Type 0
HeadLe z [] = ⊥
HeadLe z (x ∷ xs) = x ≤ℤ z

insert-HeadLe : (z x : ℤ) (ys : List ℤ) → (x ≤ℤ z) ⊎ HeadLe z ys → HeadLe z (insert x ys)
unfolding insert
insert-HeadLe z x [] (inl h) = h
insert-HeadLe z x [] (inr h) = absurd h
insert-HeadLe z x (y ∷ ys) h = ground arith

sort-HeadLe : (z : ℤ) (xs : List ℤ) → Any (λ x. x ≤ℤ z) xs → HeadLe z (sort xs)
unfolding sort
sort-HeadLe z [] h = h
sort-HeadLe z (x ∷ xs) (inl h) = insert-HeadLe z x (sort xs) (inl h)
sort-HeadLe z (x ∷ xs) (inr h) = insert-HeadLe z x (sort xs) (inr (sort-HeadLe z xs h))

dedup-HeadLe : (z : ℤ) (xs : List ℤ) → HeadLe z xs → HeadLe z (dedup xs)
unfolding dedup
dedup-HeadLe z [] h = h
dedup-HeadLe z (x ∷ xs) h = from x xs h
  where
    from : (y : ℤ) (ys : List ℤ) → y ≤ℤ z → HeadLe z (dedup_from y ys)
    from y [] k = k
    from y (w ∷ ws) k = elim (Bool-cases (eq_ℤ y w)) [ inl e ↦ rw e (from y ws k) | inr e ↦ rw e k ]

module _ (P : ℤ → Type 0) where
  insert-Any : (x : ℤ) (ys : List ℤ) → P x ⊎ Any P ys → Any P (insert x ys)
  unfolding insert
  insert-Any x [] h = h
  insert-Any x (y ∷ ys) h = elim (Bool-cases (leb_ℤ x y)) [
    | inl e ↦ rw e h
    | inr e ↦ rw e (elim h [
      | inl p ↦ inr (insert-Any x ys (inl p))
      | inr (inl p) ↦ inl p
      | inr (inr p) ↦ inr (insert-Any x ys (inr p))
    ])
  ]

  sort-Any : (xs : List ℤ) → Any P xs → Any P (sort xs)
  unfolding sort
  sort-Any [] h = h
  sort-Any (x ∷ xs) (inl h) = insert-Any x (sort xs) (inl h)
  sort-Any (x ∷ xs) (inr h) = insert-Any x (sort xs) (inr (sort-Any xs h))

  dedup_from-Any : (x : ℤ) (ys : List ℤ) → P x ⊎ Any P ys → Any P (dedup_from x ys)
  unfolding dedup_from
  dedup_from-Any x [] h = h
  dedup_from-Any x (y ∷ ys) h = elim (Bool-cases (eq_ℤ x y)) [
    | inl e ↦ rw e (
        dedup_from-Any x ys (elim h [
          | inl p ↦ inl p
          | inr (inl p) ↦ inl (subst P (sym (eq_ℤ→eq x y e)) p)
          | inr (inr p) ↦ inr p
        ]))
    | inr e ↦ rw e (elim h [ inl p ↦ inl p | inr k ↦ inr (dedup_from-Any y ys k) ])
  ]

  dedup-Any : (xs : List ℤ) → Any P xs → Any P (dedup xs)
  unfolding dedup
  dedup-Any [] h = h
  dedup-Any (x ∷ xs) h = dedup_from-Any x xs h

-- A list that starts at or below `z` and passes it somewhere has a window around `z`.
windows-In : (z : ℤ) (xs : List ℤ) → HeadLe z xs → Any (λ x. z <ℤ x) xs → Any (In z) (windows xs)
unfolding windows
windows-In z [] h a = a
windows-In z (x ∷ []) h (inl a) = absurd (omega arith)
windows-In z (x ∷ []) h (inr a) = absurd a
windows-In z (x ∷ y ∷ ys) h a = elim (Bool-cases (leb_ℤ y z)) [
  | inl e ↦
      inr
        (windows-In z (y ∷ ys) (ground arith) (elim a [ inl p ↦ absurd (omega arith) | inr p ↦ p ]))
  | inr e ↦ inl (h, omega (arith, -ℤ_parts y (pos 1), not_le y e))
]
  where
    not_le : (w : ℤ) → leb_ℤ w z ≡ false → z <ℤ w
    not_le w k = ground arith

-- Every number of the span lies in a segment.
pub segments-In :
    (z : ℤ) (span : Range) (ranges : List Range) → In z span → Any (In z) (segments span ranges)
unfolding segments
segments-In z (lo, hi) ranges h =
    let all = lo ∷ (hi +ℤ pos 1) ∷ cuts (lo, hi) ranges in
    windows-In z (dedup (sort all)) (dedup-HeadLe z (sort all) (sort-HeadLe z all (inl h.0))) (
      dedup-Any (λ x. z <ℤ x) (sort all)
        (sort-Any (λ x. z <ℤ x) all (inr (inl (omega (arith, +ℤ_parts hi (pos 1)))))))

-- Sorting by the key loses none.
pick-Any :
    (P : Range → Type 0) (p : Range → Bool) (segs : List Range)
    → Any (λ s. P s × (p s ≡ true)) segs
    → Any P (pick p segs)
unfolding pick
pick-Any P p [] h = h
pick-Any P p (s ∷ ss) (inl (h, e)) = rw e (inl h)
pick-Any P p (s ∷ ss) (inr h) = elim (Bool-cases (p s)) [
  | inl e ↦ rw e (inr (pick-Any P p ss h))
  | inr e ↦ rw e (pick-Any P p ss h)
]

module _ (P : Range → Type 0) (p q : Range → Bool) where
  abbrev Keyed : (Range → Bool) → List Range → Type 0
  Keyed r = Any (λ s. P s × (r s ≡ true))

  Any-Keyed :
      (segs : List Range)
      → Any P segs
      → Keyed (λ s. not (p s) && not (q s)) segs
        ⊎ (Keyed (λ s. not (p s) && q s) segs ⊎ Keyed p segs)
  Any-Keyed [] h = absurd h
  Any-Keyed (s ∷ ss) (inl h) = elim (Bool-cases (p s)) [
    | inl a ↦ inr (inr (inl (h, a)))
    | inr a ↦ elim (Bool-cases (q s)) [
      | inl b ↦ inr (inl (inl (h, rw (a, b))))
      | inr b ↦ inl (inl (h, rw (a, b)))
    ]
  ]
  Any-Keyed (s ∷ ss) (inr h) = elim (Any-Keyed ss h) [
    | inl k ↦ inl (inr k)
    | inr (inl k) ↦ inr (inl (inr k))
    | inr (inr k) ↦ inr (inr (inr k))
  ]

pub sort_by_key-Any :
    (P : Range → Type 0) (dom : Range) (segs : List Range)
    → Any P segs
    → Any P (sort_by_key dom segs)
unfolding sort_by_key
sort_by_key-Any P dom segs h =
    let bottom : Range → Bool = λ s. eq_ℤ s.0 dom.0 in
    let high : Range → Bool = λ s. eq_ℤ s.1 dom.1 in
    let inner : Range → Bool = λ s. not (bottom s) && not (high s) in
    let top : Range → Bool = λ s. not (bottom s) && high s in
    let rest = pick top segs ++ pick bottom segs in
    elim (Any-Keyed P bottom high segs h) [
      | inl i ↦ Any-append_left P (pick inner segs) rest (pick-Any P inner segs i)
      | inr (inl t) ↦
          Any-append_right P (pick inner segs) rest
            (Any-append_left P (pick top segs) (pick bottom segs) (pick-Any P top segs t))
      | inr (inr b) ↦
          Any-append_right P (pick inner segs) rest
            (Any-append_right P (pick top segs) (pick bottom segs) (pick-Any P bottom segs b))
    ]
