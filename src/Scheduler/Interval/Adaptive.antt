-- ===== src/Scheduler/Interval/Adaptive.antt =====
-- How the search interval adapts.
use huntarr.Base.{
  ℕ, zero, suc, ◌*◌, ◌/◌, ◌^◌, ◌≤◌, ◌<◌, min, max, ◌≡◌, if◌then◌else◌, ltb, ◌==◌, mul64_small,
  lt64_small, div64_small, int64_limit, arith, List, [], ◌∷◌, All, replicate, ap, ◌∙◌,
}
use native.Mathlib.Nat.{pow-suc}
use native.Mathlib.Decide.{dec_le}
use huntarr.Scheduler.Interval.{compute_next_interval, max_search_interval}

-- The inputs that occur: a base that the settings accept, and numbers far from overflow.
pub record InRange (base previous total batch : ℕ) : Type 0 where
  pub base_bound : base ≤ max_search_interval
  pub previous_bound : previous ≤ 4 * max_search_interval
  pub total_bound : total < int64_limit
  pub batch_bound : batch * 2 < int64_limit

-- The same choice on the numbers themselves.
abbrev pub next_interval : ℕ → ℕ → ℕ → ℕ → ℕ
next_interval base previous total batch =
    if total == 0
    then min (4 * base) (2 * previous)
    else if ltb (batch * 2) total
    then max (base / 4) (previous / 2)
    else base

-- For inputs in range nothing overflows: the next interval is the doubled one capped at four times
-- the base after an empty cycle, the halved one but at least a quarter of the base on a backlog,
-- and the base otherwise.
pub compute_next_interval-next_interval :
    (base previous total batch : ℕ)
    → InRange base previous total batch
    → compute_next_interval base previous total batch ≡ next_interval base previous total batch
unfolding compute_next_interval
compute_next_interval-next_interval base previous total batch r =
    rw
      (
        mul64_small base 4 (omega arith),
        mul64_small previous 2 (omega arith),
        mul64_small batch 2 r.batch_bound,
        div64_small base 4 (omega arith),
        div64_small previous 2 (omega arith),
        lt64_small (base * 4) (previous * 2) (omega arith) (omega arith),
        lt64_small (batch * 2) total r.batch_bound r.total_bound,
        lt64_small (previous / 2) (base / 4) (omega arith) (omega arith),
      )
      (ground arith)

-- Between a quarter of the base and four times the base.
pub record InBand (base i : ℕ) : Type 0 where
  pub lower : base / 4 ≤ i
  pub upper : i ≤ 4 * base

-- For inputs in range, an interval in the band of its base stays in it, whatever the cycle finds.
pub compute_next_interval-InBand :
    (base previous total batch : ℕ)
    → InRange base previous total batch
    → InBand base previous
    → InBand base (compute_next_interval base previous total batch)
compute_next_interval-InBand base previous total batch r b =
    rw (compute_next_interval-next_interval base previous total batch r) (ground arith)

InRange-of_InBand :
    {base i : ℕ} (total batch : ℕ)
    → base ≤ max_search_interval
    → batch * 2 < int64_limit
    → total < int64_limit
    → InBand base i
    → InRange base i total batch
InRange-of_InBand total batch hb hk ht b = ground arith

-- A fixed base and batch size, and the number of items that each cycle finds.
pub after_cycles : ℕ → ℕ → ℕ → List ℕ → ℕ
after_cycles base batch i [] = i
after_cycles base batch i (total ∷ totals) =
    after_cycles base batch (compute_next_interval base i total batch) totals

pow-pos : (n : ℕ) → 1 ≤ 2 ^ n
pow-pos zero = omega arith
pow-pos (suc n) = rw pow-suc (omega (arith, pow-pos n))

le-mul : (c p : ℕ) → 1 ≤ p → c ≤ c * p
le-mul c p h = grind arith

scaled_min : (c k p : ℕ) → 1 ≤ p → min c (min c k * p) ≡ min c (k * p)
scaled_min c k p h = elim (dec_le k c) [
  | yes low ↦ let same : min c k ≡ k = omega arith in rw same
  | no high ↦
      let same : min c k ≡ c = omega arith in rw same (omega (arith, le-mul c p h, le-mul k p h))
]

min_doubled :
    (base i n : ℕ)
    → min (4 * base) (min (4 * base) (2 * i) * 2 ^ n) ≡ min (4 * base) (i * 2 ^ suc n)
min_doubled base i n =
    rw pow-suc (rw (scaled_min (4 * base) (2 * i) (2 ^ n) (pow-pos n)) (omega arith))

module _ (base batch : ℕ) (base_bound : base ≤ max_search_interval)
    (batch_bound : batch * 2 < int64_limit) where
  after_cycles-InBand :
      (i : ℕ) (totals : List ℕ)
      → All (λ t. t < int64_limit) totals
      → InBand base i
      → InBand base (after_cycles base batch i totals)
  unfolding after_cycles
  after_cycles-InBand i [] h b = b
  after_cycles-InBand i (t ∷ totals) h b =
      after_cycles-InBand (compute_next_interval base i t batch) totals h.1 (
        compute_next_interval-InBand base i t batch
          (InRange-of_InBand t batch base_bound batch_bound h.0 b) b)

  after_cycles-replicate :
      (n i : ℕ)
      → InBand base i
      → after_cycles base batch i (replicate n 0) ≡ min (4 * base) (i * 2 ^ n)
  unfolding after_cycles
  after_cycles-replicate zero i b = ground arith
  after_cycles-replicate (suc n) i b =
      let r = InRange-of_InBand 0 batch base_bound batch_bound (omega arith) b in
      let next = compute_next_interval-next_interval base i 0 batch r in
      let again =
        after_cycles-replicate n (compute_next_interval base i 0 batch)
          (compute_next_interval-InBand base i 0 batch r b) in
      again ∙ ap (λ k. min (4 * base) (k * 2 ^ n)) next ∙ min_doubled base i n

  -- With a base of at most seven days, the interval stays in the band of the base over any sequence
  -- of cycles that starts in it; and `n` cycles in a row that find nothing double an interval of the
  -- band `n` times, up to four times the base.
  pub after_cycles_lem :
      (i n : ℕ) (totals : List ℕ)
      → All (λ t. t < int64_limit) totals
      → InBand base i
      → InBand base (after_cycles base batch i totals)
        × (after_cycles base batch i (replicate n 0) ≡ min (4 * base) (i * 2 ^ n))
  after_cycles_lem i n totals h b = (after_cycles-InBand i totals h b, after_cycles-replicate n i b)
