-- ===== src/Dragonfly/Health/Batch.antt =====
-- PerformSingleHealthCheck and BatchHealthCheck (pkg/dragonfly/health.go). A round of the batch is a
-- PING, which the go-redis client answers, and a latency, which the clock shows.
use mathlib.Core.Path.{subst₂}
use gochoreo.Common.{
  ℕ, zero, suc, ◌+◌, ◌-◌, ◌/◌, ◌≤◌, ◌<◌, ◌≡◌, refl, ◌⊎◌, inl, inr, true, Bool, not, ◌||◌, Option,
  List, [], ◌∷◌, ◌++◌, arith, if◌then◌else◌, length, is_some, ap, sym, ◌∙◌, subst, ◌==◌,
}
use gochoreo.Common.Int.{ℤ, pos, negsuc, ltb_ℤ}
use gochoreo.Common.Word.{add64, lt64, lt64_small, half64}
use gochoreo.Text.Decimal.{IsInt}
use gochoreo.Metrics.{Floats}
use gochoreo.Dragonfly.Errors.{Err}
use gochoreo.Dragonfly.Metrics.{div64}
use gochoreo.Dragonfly.Metrics.Spread.{
  total, average_between, div64_small, IsSpread, next-IsSpread, Mem-below,
}

pub record HealthCheckResult : Type 0 where
  pub success : Bool
  pub latency : ℕ
  pub error : Option Err
  pub timestamp : ℕ

-- What one PING answers, and the clock around it.
pub record Ping : Type 0 where
  pub start : ℕ
  pub answer : Option Err
  pub took : ℕ

unfoldable pub perform_single_health_check : Ping → HealthCheckResult
perform_single_health_check p = record {
  success = not (is_some p.answer);
  latency = p.took;
  error = p.answer;
  timestamp = p.start;
}

-- The variables of the loop.
pub record Progress : Type 0 where
  pub success_count : ℕ
  pub total_latency : ℕ
  pub min_latency : ℕ
  pub max_latency : ℕ
  pub results : List HealthCheckResult

-- `if count <= 0 { count = 10 }`
unfoldable pub rounds_of : ℤ → ℕ
rounds_of (pos zero) = 10
rounds_of (pos (suc n)) = suc n
rounds_of (negsuc n) = 10

unfoldable pub batch_round : ℕ → HealthCheckResult → Progress → Progress
batch_round i result p = record {
  success_count = if result.success then p.success_count + 1 else p.success_count;
  total_latency = add64 p.total_latency result.latency;
  min_latency =
      if (i == 0) || lt64 result.latency p.min_latency then result.latency else p.min_latency;
  max_latency =
      if (i == 0) || lt64 p.max_latency result.latency then result.latency else p.max_latency;
  results = p.results ++ result ∷ [];
}

-- The rounds that are left; the pings are numbered from 0.
unfoldable pub batch_loop : (ℕ → Ping) → ℕ → ℕ → Progress → Progress
batch_loop pings zero i p = p
batch_loop pings (suc left) i p =
    batch_loop pings left (suc i) (batch_round i (perform_single_health_check (pings i)) p)

-- The specification: the results, the latencies and the successes of the first pings.
abbrev pub results_of : (ℕ → Ping) → ℕ → List HealthCheckResult
results_of pings zero = []
results_of pings (suc k) =
    let p = pings k in
    results_of pings k
    ++ record {
      success = not (is_some p.answer);
      latency = p.took;
      error = p.answer;
      timestamp = p.start;
    }
      ∷ []

abbrev pub latencies_of : (ℕ → Ping) → ℕ → List ℕ
latencies_of pings zero = []
latencies_of pings (suc k) = (pings k).took ∷ latencies_of pings k

abbrev pub successes_of : (ℕ → Ping) → ℕ → ℕ
successes_of pings zero = 0
successes_of pings (suc k) =
    if is_some (pings k).answer then successes_of pings k else successes_of pings k + 1

-- What the variables are before round i.
record At (pings : ℕ → Ping) (i : ℕ) (p : Progress) : Type 0 where
  results_eq : p.results ≡ results_of pings i
  successes_eq : p.success_count ≡ successes_of pings i
  total_eq : p.total_latency ≡ total (latencies_of pings i)
  spread : 1 ≤ i → IsSpread p.min_latency p.max_latency (latencies_of pings i)

total_grows :
    (pings : ℕ → Ping) (k i n : ℕ)
    → k + i ≡ n
    → total (latencies_of pings i) ≤ total (latencies_of pings n)
total_grows pings zero i n e =
    let same : i ≡ n = omega (arith, e) in
    omega (arith, ap (λ j. total (latencies_of pings j)) same)
total_grows pings (suc k) i n e = omega (arith, total_grows pings k (suc i) n (omega (arith, e)))

batch_round-IsSpread :
    (pings : ℕ → Ping) (i : ℕ) (p : Progress)
    → At pings i p
    → total (latencies_of pings (suc i)) < half64
    → (let q = batch_round i (perform_single_health_check (pings i)) p in
        IsSpread q.min_latency q.max_latency (latencies_of pings (suc i)))
unfolding batch_round perform_single_health_check
batch_round-IsSpread pings zero p a h = record {
  low_in = inl refl;
  high_in = inl refl;
  low_below = λ e k. ground (arith, k);
  high_above = λ e k. ground (arith, k);
}
batch_round-IsSpread pings (suc i) p a h =
    let s = a.spread (omega arith) in
    let low_small = Mem-below p.min_latency (latencies_of pings (suc i)) s.low_in in
    let high_small = Mem-below p.max_latency (latencies_of pings (suc i)) s.high_in in
    let d = (pings (suc i)).took in
    subst₂ (λ low high. IsSpread low high (latencies_of pings (suc (suc i))))
      (ground (arith, lt64_small d p.min_latency, low_small, h))
      (ground (arith, lt64_small p.max_latency d, high_small, h))
      (next-IsSpread p.min_latency p.max_latency d (latencies_of pings (suc i)) s)

batch_round-At :
    (pings : ℕ → Ping) (i : ℕ) (p : Progress)
    → At pings i p
    → total (latencies_of pings (suc i)) < half64
    → At pings (suc i) (batch_round i (perform_single_health_check (pings i)) p)
unfolding batch_round perform_single_health_check add64
batch_round-At pings i p a h = record {
  results_eq = ap (λ r. r ++ perform_single_health_check (pings i) ∷ []) a.results_eq;
  successes_eq = ground (arith, a.successes_eq);
  total_eq = omega (arith, a.total_eq, h);
  spread = λ k. batch_round-IsSpread pings i p a h;
}

batch_loop-At :
    (pings : ℕ → Ping) (left i n : ℕ) (p : Progress)
    → left + i ≡ n
    → At pings i p
    → total (latencies_of pings n) < half64
    → At pings n (batch_loop pings left i p)
unfolding batch_loop
batch_loop-At pings zero i n p e a h = subst (λ j. At pings j p) (omega (arith, e)) a
batch_loop-At pings (suc left) i n p e a h =
    let e' : left + suc i ≡ n = omega (arith, e) in
    batch_loop-At pings left (suc i) n (batch_round i (perform_single_health_check (pings i)) p) e'
      (batch_round-At pings i p a (omega (arith, h, total_grows pings left (suc i) n e'))) h

module _ (f : Floats) where
  pub record BatchHealthCheckResult : Type 0 where
    pub count : ℕ
    pub success_count : ℕ
    pub failure_count : ℕ
    pub success_rate : f.F
    pub average_latency : ℕ
    pub min_latency : ℕ
    pub max_latency : ℕ
    pub results : List HealthCheckResult

  unfoldable pub batch_health_check : (ℕ → Ping) → ℤ → BatchHealthCheckResult
  batch_health_check pings count =
      let n = rounds_of count in
      let p = batch_loop pings n 0 (record {
        success_count = 0;
        total_latency = 0;
        min_latency = 0;
        max_latency = 0;
        results = [];
      }) in
      record {
        count = n;
        success_count = p.success_count;
        failure_count = n - p.success_count;
        success_rate = f.div (f.of_int64 p.success_count) (f.of_int64 n);
        average_latency = div64 p.total_latency n;
        min_latency = p.min_latency;
        max_latency = p.max_latency;
        results = p.results;
      }

  length-latencies_of : (pings : ℕ → Ping) (n : ℕ) → length (latencies_of pings n) ≡ n
  length-latencies_of pings zero = refl
  length-latencies_of pings (suc n) = ap suc (length-latencies_of pings n)

  successes_below : (pings : ℕ → Ping) (n : ℕ) → successes_of pings n ≤ n
  successes_below pings zero = omega arith
  successes_below pings (suc n) = ground (arith, successes_below pings n)

  -- How many pings are asked for by a number: ten for those below 1.
  abbrev pub Asks : ℤ → ℕ → Type 0
  Asks count n = ((1 ≤ n) × (count ≡ pos n)) ⊎ ((ltb_ℤ count (pos 1) ≡ true) × (n ≡ 10))

  rounds_of-Asks : (count : ℤ) (n : ℕ) → Asks count n → rounds_of count ≡ n
  unfolding rounds_of
  rounds_of-Asks count zero (inl (some_left, e)) = absurd (omega (arith, some_left))
  rounds_of-Asks count (suc n) (inl (some_left, e)) = rw e refl
  rounds_of-Asks (pos zero) n (inr (low, e)) = sym e
  rounds_of-Asks (pos (suc k)) n (inr (low, e)) = absurd (ground (arith, low))
  rounds_of-Asks (negsuc k) n (inr (low, e)) = sym e

  Asks-some : (count : ℤ) (n : ℕ) → Asks count n → 1 ≤ n
  Asks-some count n (inl (some_left, e)) = some_left
  Asks-some count n (inr (low, e)) = omega (arith, e)

  Asks-small : (count : ℤ) (n : ℕ) → IsInt count → Asks count n → n < half64
  Asks-small count n int (inl (some_left, e)) = omega (arith, subst IsInt e int)
  Asks-small count n int (inr (low, e)) = omega (arith, e)

  -- BatchHealthCheck pings as often as it was asked to, ten times for a count below 1. If the
  -- latencies add up to less than 2 ^ 63, it reports that number and the results in order; the
  -- successes are the pings without an error, the failures the others, and the rate is the quotient
  -- of the successes and the number; the minimum and the maximum are the least and the greatest
  -- latency, and the average is their sum divided by the number, between the two.
  pub batch_health_check_lem :
      (pings : ℕ → Ping) (count : ℤ) (n : ℕ)
      → IsInt count
      → Asks count n
      → total (latencies_of pings n) < half64
      → (let b = batch_health_check pings count in
          (b.count ≡ n)
          × (b.results ≡ results_of pings n)
          × (b.success_count ≡ successes_of pings n)
          × (b.success_count + b.failure_count ≡ n)
          × (b.success_rate ≡ f.div (f.of_int64 (successes_of pings n)) (f.of_int64 n))
          × IsSpread b.min_latency b.max_latency (latencies_of pings n)
          × (b.average_latency ≡ total (latencies_of pings n) / n)
          × (b.min_latency ≤ b.average_latency)
          × (b.average_latency ≤ b.max_latency))
  unfolding batch_health_check
  batch_health_check_lem pings count n int asks h = rw (rounds_of-Asks count n asks) (
      let ls = latencies_of pings n in
      let start : Progress = record {
        success_count = 0;
        total_latency = 0;
        min_latency = 0;
        max_latency = 0;
        results = [];
      } in
      let p = batch_loop pings n 0 start in
      let a : At pings n p =
        batch_loop-At pings n 0 n start (omega arith)
          (record {
            results_eq = refl;
            successes_eq = refl;
            total_eq = refl;
            spread = λ k. absurd (omega (arith, k));
          })
          h in
      let some_left = Asks-some count n asks in
      let s = a.spread some_left in
      let len : length ls ≡ n = length-latencies_of pings n in
      let (above, below) =
        average_between p.min_latency p.max_latency ls s (omega (arith, len, some_left)) in
      let average : div64 p.total_latency n ≡ total ls / n =
        ap (λ t. div64 t n) a.total_eq ∙ div64_small (total ls) n h (Asks-small count n int asks) in
      let same : total ls / length ls ≡ div64 p.total_latency n =
        ap (λ k. total ls / k) len ∙ sym average in
      (
        refl,
        a.results_eq,
        a.successes_eq,
        omega (arith, a.successes_eq, successes_below pings n),
        ap (λ k. f.div (f.of_int64 k) (f.of_int64 n)) a.successes_eq,
        s,
        average,
        subst (λ x. p.min_latency ≤ x) same above,
        subst (λ x. x ≤ p.max_latency) same below,
      ))
