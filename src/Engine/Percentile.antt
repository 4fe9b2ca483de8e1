-- ===== src/Engine/Percentile.antt =====
-- fastapi_alertengine/engine.py: `AlertEngine._percentile`, the nearest rank.
--
-- Latencies are whole numbers of a fixed unit. `ceil(len(s) * pct / 100)` is computed exactly.
use native.Mathlib.Nat.{mul-le-mul, mul-le-mul_left}
use fastapi_alertengine.Prelude.{
  ℕ, zero, suc, ◌+◌, ◌-◌, ◌*◌, ◌/◌, ◌≤◌, ◌<◌, ◌≡◌, refl, ap, List, [], ◌∷◌, arith, ltb, leb, length,
  All, count, sort, IsSorted, sort-IsSorted, count-sort, length-sort, if◌then◌else◌,
}

abbrev pub item_at : List ℕ → ℕ → ℕ
item_at [] i = 0
item_at (x ∷ xs) zero = x
item_at (x ∷ xs) (suc i) = item_at xs i

abbrev pub min : ℕ → ℕ → ℕ
min a b = if leb a b then a else b

-- `math.ceil(n * pct / 100)`
abbrev pub rank_of : ℕ → ℕ → ℕ
rank_of n pct = (n * pct + 99) / 100

-- the index is at least 0, since subtraction stops there
unfoldable pub percentile : List ℕ → ℕ → ℕ
percentile [] pct = 0
percentile (x ∷ xs) pct =
    let s = sort (λ n. n) (x ∷ xs) in item_at s (min (rank_of (length s) pct - 1) (length s - 1))

count_above : (v : ℕ) (xs : List ℕ) → All (λ y. v ≤ y) xs → count (λ y. ltb y v) xs ≡ 0
count_above v [] h = refl
count_above v (x ∷ xs) (h, hs) = ground (arith, count_above v xs hs)

low_item : (v : ℕ) (xs : List ℕ) (i : ℕ) → i < length xs → All (λ y. v ≤ y) xs → v ≤ item_at xs i
low_item v [] i h a = absurd (omega (arith, h))
low_item v (x ∷ xs) zero h (a, rest) = a
low_item v (x ∷ xs) (suc i) h (a, rest) = low_item v xs i (omega (arith, h)) rest

-- In a sorted list, more than `i` items are at most the one at `i`, and at most `i` are below it.
rank_of_item :
    (xs : List ℕ) (i : ℕ)
    → IsSorted (λ n. n) xs
    → i < length xs
    → (i < count (λ y. leb y (item_at xs i)) xs) × (count (λ y. ltb y (item_at xs i)) xs ≤ i)
rank_of_item [] i s h = absurd (omega (arith, h))
rank_of_item (x ∷ xs) zero (low, s) h = (ground arith, ground (arith, count_above x xs low))
rank_of_item (x ∷ xs) (suc i) (low, s) h =
    let (above, below) = rank_of_item xs i s (omega (arith, h)) in
    let least = low_item x xs i (omega (arith, h)) low in
    (ground (arith, above, least), ground (arith, below))

rank_small : (n m : ℕ) → 1 ≤ n → min ((m + 99) / 100 - 1) (n - 1) < n
rank_small n m a = ground arith

rank_bounds :
    (n m upto below : ℕ)
    → 1 ≤ m
    → m ≤ n * 100
    → min ((m + 99) / 100 - 1) (n - 1) < upto
    → below ≤ min ((m + 99) / 100 - 1) (n - 1)
    → (m ≤ 100 * upto) × (100 * below < m)
rank_bounds n m upto below a b c d = ground arith

abbrev nearest : List ℕ → ℕ → ℕ
nearest s pct = item_at s (min (rank_of (length s) pct - 1) (length s - 1))

nearest_lem :
    (s : List ℕ) (pct : ℕ)
    → IsSorted (λ n. n) s
    → 1 ≤ length s
    → 1 ≤ pct
    → pct ≤ 100
    → (length s * pct ≤ 100 * count (λ y. leb y (nearest s pct)) s)
      × (100 * count (λ y. ltb y (nearest s pct)) s < length s * pct)
nearest_lem s pct sorted some_item a b =
    let m = length s * pct in
    let (upto, below) =
      rank_of_item s (min (rank_of (length s) pct - 1) (length s - 1)) sorted
        (rank_small (length s) m some_item) in
    rank_bounds (length s) m _ _ (mul-le-mul some_item a) (mul-le-mul_left (length s) b) upto below

carry_le : (a m u v : ℕ) → a ≤ 100 * u → a ≡ m → u ≡ v → m ≤ 100 * v
carry_le a m u v h p q = omega arith

carry_lt : (a m u v : ℕ) → 100 * u < a → a ≡ m → u ≡ v → 100 * v < m
carry_lt a m u v h p q = omega arith

-- The p-th percentile of some values is the least one that p percent of them do not exceed: at least p percent are at
-- most it, and fewer than p percent are below it, for p from 1 to 100.
pub percentile_lem :
    (x : ℕ) (xs : List ℕ) (pct : ℕ)
    → 1 ≤ pct
    → pct ≤ 100
    → let v = percentile (x ∷ xs) pct in
      (length (x ∷ xs) * pct ≤ 100 * count (λ y. leb y v) (x ∷ xs))
      × (100 * count (λ y. ltb y v) (x ∷ xs) < length (x ∷ xs) * pct)
unfolding percentile
percentile_lem x xs pct a b =
    let s = sort (λ n. n) (x ∷ xs) in
    let n : length s ≡ length (x ∷ xs) = length-sort (λ n. n) (x ∷ xs) in
    let v = nearest s pct in
    let (enough, few) =
      nearest_lem s pct (sort-IsSorted (λ n. n) (x ∷ xs)) (rw n (omega arith)) a b in
    let product : length s * pct ≡ length (x ∷ xs) * pct = ap (λ l. l * pct) n in
    let upto : count (λ y. leb y v) s ≡ count (λ y. leb y v) (x ∷ xs) =
      count-sort (λ n. n) (λ y. leb y v) (x ∷ xs) in
    let below : count (λ y. ltb y v) s ≡ count (λ y. ltb y v) (x ∷ xs) =
      count-sort (λ n. n) (λ y. ltb y v) (x ∷ xs) in
    (carry_le _ _ _ _ enough product upto, carry_lt _ _ _ _ few product below)
