-- ===== src/Gateway/Percentile.antt =====
-- The 95th percentile of the commit latencies (src/inprocess.rs, `latency_snapshot`).
use squeuelite_rs.Common.{
  ℕ, zero, suc, ◌-◌, ◌*◌, ◌≤◌, ◌<◌, ◌≡◌, refl, ap, ◌∙◌, inl, inr, some, List, [], ◌∷◌, length,
  get_elem?, All, leb, leb→le, leb-ge, Bool-cases, arith, if◌then◌else◌,
}
use squeuelite_rs.Gateway.{insert, sort, sum, ceil_95, with_average, latency_snapshot}

-- How many are at most `v`.
abbrev pub count_le : ℕ → List ℕ → ℕ
count_le v [] = 0
count_le v (x ∷ xs) = if leb x v then suc (count_le v xs) else count_le v xs

abbrev Sorted : List ℕ → Type 0
Sorted [] = Unit {0}
Sorted (x ∷ xs) = All (λ y. x ≤ y) xs × Sorted xs

All-weaken : (a b : ℕ) (xs : List ℕ) → a ≤ b → All (λ y. b ≤ y) xs → All (λ y. a ≤ y) xs
All-weaken a b [] h p = tt
All-weaken a b (x ∷ xs) h p = (omega (arith, p.0), All-weaken a b xs h p.1)

All-insert : (a x : ℕ) (xs : List ℕ) → a ≤ x → All (λ y. a ≤ y) xs → All (λ y. a ≤ y) (insert x xs)
unfolding insert
All-insert a x [] h p = (h, tt)
All-insert a x (y ∷ ys) h p = elim (Bool-cases (leb x y)) [
  | inl e ↦ rw e (h, p)
  | inr e ↦ rw e (p.0, All-insert a x ys h p.1)
]

insert-Sorted : (x : ℕ) (xs : List ℕ) → Sorted xs → Sorted (insert x xs)
unfolding insert
insert-Sorted x [] h = (tt, tt)
insert-Sorted x (y ∷ ys) h = elim (Bool-cases (leb x y)) [
  | inl e ↦ let le = leb→le x y e in rw e ((le, All-weaken x y ys le h.0), h)
  | inr e ↦
      let gt = leb-ge x y e in rw e (All-insert y x ys (omega arith) h.0, insert-Sorted x ys h.1)
]

sort-Sorted : (xs : List ℕ) → Sorted (sort xs)
unfolding sort
sort-Sorted [] = tt
sort-Sorted (x ∷ xs) = insert-Sorted x (sort xs) (sort-Sorted xs)

count_le-insert : (v x : ℕ) (xs : List ℕ) → count_le v (insert x xs) ≡ count_le v (x ∷ xs)
unfolding insert
count_le-insert v x [] = refl
count_le-insert v x (y ∷ ys) = let rest = count_le-insert v x ys in ground arith

count_le-sort : (v : ℕ) (xs : List ℕ) → count_le v (sort xs) ≡ count_le v xs
unfolding sort
count_le-sort v [] = refl
count_le-sort v (x ∷ xs) =
    let first = count_le-insert v x (sort xs) in let rest = count_le-sort v xs in ground arith

length-insert : (x : ℕ) (xs : List ℕ) → length (insert x xs) ≡ suc (length xs)
unfolding insert
length-insert x [] = refl
length-insert x (y ∷ ys) = let rest = length-insert x ys in ground arith

length-sort : (xs : List ℕ) → length (sort xs) ≡ length xs
unfolding sort
length-sort [] = refl
length-sort (x ∷ xs) = length-insert x (sort xs) ∙ ap suc (length-sort xs)

All-get_elem? : (a v i : ℕ) (xs : List ℕ) → All (λ y. a ≤ y) xs → get_elem? xs i ≡ some v → a ≤ v
All-get_elem? a v i [] p h = cc
All-get_elem? a v zero (x ∷ xs) p h = let e : x ≡ v = cc in omega (arith, e, p.0)
All-get_elem? a v (suc i) (x ∷ xs) p h = All-get_elem? a v i xs p.1 h

-- In a sorted list, the entry at an index has more than that many entries at most it.
get_elem?-count_le :
    (v i : ℕ) (xs : List ℕ) → Sorted xs → get_elem? xs i ≡ some v → i < count_le v xs
get_elem?-count_le v i [] s h = cc
get_elem?-count_le v zero (x ∷ xs) s h = let e : x ≡ v = cc in ground arith
get_elem?-count_le v (suc i) (x ∷ xs) s h =
    let below = All-get_elem? x v i xs s.0 h in
    let more = get_elem?-count_le v i xs s.1 h in ground arith

get_elem?-in_bounds : (i : ℕ) (xs : List ℕ) → i < length xs → (v : ℕ) × (get_elem? xs i ≡ some v)
get_elem?-in_bounds i [] h = absurd (omega arith)
get_elem?-in_bounds zero (x ∷ xs) h = (x, refl)
get_elem?-in_bounds (suc i) (x ∷ xs) h = get_elem?-in_bounds i xs (omega arith)

percentile-count :
    (xs : List ℕ) (v : ℕ)
    → get_elem? (sort xs) (ceil_95 (length (sort xs)) - 1) ≡ some v
    → 95 * length xs ≤ 100 * count_le v xs
percentile-count xs v e =
    let many = get_elem?-count_le v _ (sort xs) (sort-Sorted xs) e in
    let size = length-sort xs in let same = count_le-sort v xs in omega arith

module _ (quotient : ℕ → ℕ → ℕ) where
  -- The snapshot indexes in range, and at least 95 of 100 latencies in the buffer are at most the
  -- percentile that it gives.
  pub latency_snapshot-percentile :
      (buf : List ℕ)
      → (r : ℕ × ℕ) × (latency_snapshot quotient buf ≡ some r)
        × (95 * length buf ≤ 100 * count_le r.1 buf)
  unfolding latency_snapshot
  latency_snapshot-percentile [] = ((0, 0), refl, omega arith)
  latency_snapshot-percentile (x ∷ xs) =
      let size = length-sort (x ∷ xs) in
      let (v, e) =
        get_elem?-in_bounds (ceil_95 (length (sort (x ∷ xs))) - 1) (sort (x ∷ xs)) (omega arith) in
      let avg = quotient (sum (x ∷ xs)) (length (x ∷ xs)) in
      ((avg, v), ap (with_average quotient avg) e, percentile-count (x ∷ xs) v e)
