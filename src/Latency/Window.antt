-- ===== src/Latency/Window.antt =====
-- The latency buffer as a window over all commits (src/writer.rs, `push_latency`).
use squeuelite_rs.Common.{
  ℕ, zero, suc, ◌-◌, ◌≤◌, ◌<◌, ◌≡◌, refl, sym, ap, ◌∙◌, inl, inr, List, [], ◌∷◌, ◌++◌, length,
  length-append, leb, leb→le, leb-ge, Bool-cases, arith,
}
use mathlib.Core.List.{append_assoc, append-nil}
use squeuelite_rs.Latency.{latency_buf_cap, pop_front, push_latency}

-- Without the first `n`.
abbrev pub drop : ℕ → List ℕ → List ℕ
drop zero xs = xs
drop (suc n) [] = []
drop (suc n) (x ∷ xs) = drop n xs

-- The last `latency_buf_cap`.
abbrev pub window : List ℕ → List ℕ
window xs = drop (length xs - latency_buf_cap) xs

-- The buffer after a list of commits.
unfoldable pub push_all : List ℕ → List ℕ → List ℕ
unfolding push_latency
push_all buf [] = buf
push_all buf (m ∷ ms) = push_all (push_latency buf m) ms

drop-suc : (n : ℕ) (xs : List ℕ) → pop_front (drop n xs) ≡ drop (suc n) xs
drop-suc zero [] = refl
drop-suc zero (x ∷ xs) = refl
drop-suc (suc n) [] = refl
drop-suc (suc n) (x ∷ xs) = drop-suc n xs

length-drop : (n : ℕ) (xs : List ℕ) → length (drop n xs) ≡ length xs - n
length-drop zero xs = omega arith
length-drop (suc n) [] = omega arith
length-drop (suc n) (x ∷ xs) = omega (arith, length-drop n xs)

drop-append : (n : ℕ) (xs ys : List ℕ) → n ≤ length xs → drop n (xs ++ ys) ≡ drop n xs ++ ys
drop-append zero xs ys h = refl
drop-append (suc n) [] ys h = absurd (omega arith)
drop-append (suc n) (x ∷ xs) ys h = drop-append n xs ys (omega arith)

push_latency-window : (xs : List ℕ) (m : ℕ) → push_latency (window xs) m ≡ window (xs ++ m ∷ [])
unfolding push_latency
push_latency-window xs m =
    let long = length-append xs (m ∷ []) in
    let kept = length-drop (length xs - 1024) xs in
    elim (Bool-cases (leb latency_buf_cap (length (window xs)))) [
      | inl full ↦
          let h : latency_buf_cap ≤ length (window xs) = leb→le _ _ full in
          let more : suc (length xs - 1024) ≡ length (xs ++ m ∷ []) - 1024 = omega arith in
          rw full (
            ap (λ t. t ++ m ∷ []) (drop-suc (length xs - 1024) xs)
            ∙ sym (drop-append (suc (length xs - 1024)) xs (m ∷ []) (omega arith))
            ∙ ap (λ n. drop n (xs ++ m ∷ [])) more)
      | inr room ↦
          let h : length (window xs) < latency_buf_cap = leb-ge _ _ room in
          let more : length xs - 1024 ≡ length (xs ++ m ∷ []) - 1024 = omega arith in
          rw room (
            sym (drop-append (length xs - 1024) xs (m ∷ []) (omega arith))
            ∙ ap (λ n. drop n (xs ++ m ∷ [])) more)
    ]

push_all-window : (xs ms : List ℕ) → push_all (window xs) ms ≡ window (xs ++ ms)
unfolding push_all
push_all-window xs [] = ap window (sym (append-nil xs))
push_all-window xs (m ∷ ms) =
    ap (λ b. push_all b ms) (push_latency-window xs m)
    ∙ push_all-window (xs ++ m ∷ []) ms
    ∙ rw append_assoc

-- Starting empty, the buffer holds the latencies of the last 1024 commits, oldest first.
pub push_all_lem : (ms : List ℕ) → push_all [] ms ≡ window ms
push_all_lem ms = push_all-window [] ms

length-pop_front : (buf : List ℕ) → length (pop_front buf) ≡ length buf - 1
length-pop_front [] = omega arith
length-pop_front (x ∷ xs) = omega arith

-- A buffer of at most 1024 entries stays one.
pub push_latency-bound :
    (buf : List ℕ) (m : ℕ)
    → length buf ≤ latency_buf_cap
    → length (push_latency buf m) ≤ latency_buf_cap
unfolding push_latency
push_latency-bound buf m h =
    let long = length-append buf (m ∷ []) in
    let popped = length-append (pop_front buf) (m ∷ []) in
    elim (Bool-cases (leb latency_buf_cap (length buf))) [
      | inl full ↦
          let short = length-pop_front buf in
          let at_cap : latency_buf_cap ≤ length buf = leb→le _ _ full in rw full (omega arith)
      | inr room ↦
          let below : length buf < latency_buf_cap = leb-ge _ _ room in rw room (omega arith)
    ]
