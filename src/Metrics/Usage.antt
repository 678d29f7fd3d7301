-- ===== src/Metrics/Usage.antt =====
-- The loop of GetUsageStats over the request counters.
use gochoreo.Common.{ℕ, ◌+◌, ◌%◌, ◌≤◌, ◌<◌, ◌≡◌, refl, ◌⊎◌, inl, [], ◌∷◌, arith, Mem, All, Map, ◌∙◌}
use gochoreo.Common.Word.{add64, mod64, half64, minus_one, lt64_small}
use gochoreo.Text.{Text}
use gochoreo.Metrics.{Tally, start_tally, tally_loop, tally_round}

-- The sum of all counters.
abbrev pub sum : Map Text ℕ → ℕ
sum [] = 0
sum ((version, count) ∷ m) = count + sum m

-- Counters that have not overflowed.
abbrev pub AreSmall : Map Text ℕ → Type 0
AreSmall = All (λ e. e.1 < half64)

add64_mod : (a n b : ℕ) → a ≡ n % mod64 → add64 a b ≡ (n + b) % mod64
unfolding add64
add64_mod a n b h = omega arith

module _ (last_accessed : Map Text Text) where
  total_requests_loop :
      (m : Map Text ℕ) (t : Tally) (n : ℕ)
      → t.total_requests ≡ n % mod64
      → (tally_loop last_accessed m t).total_requests ≡ (n + sum m) % mod64
  unfolding tally_loop tally_round
  total_requests_loop [] t n h = h ∙ omega arith
  total_requests_loop ((version, count) ∷ m) t n h =
      total_requests_loop m (tally_round last_accessed version count t) (n + count)
        (add64_mod t.total_requests n count h)
      ∙ omega arith

  -- What the loop has found of the greatest counter, from any tally on.
  abbrev MostFrom : Map Text ℕ → Tally → Tally → Type 0
  MostFrom m t r =
      (t.most_used_count ≤ r.most_used_count)
      × ((version : Text) (count : ℕ) → Mem (version, count) m → count ≤ r.most_used_count)
      × (((r.most_used_version ≡ t.most_used_version) × (r.most_used_count ≡ t.most_used_count))
          ⊎ Mem (r.most_used_version, r.most_used_count) m)

  most_round :
      (version : Text) (count : ℕ) (t : Tally)
      → count < half64
      → t.most_used_count < half64
      → let r = tally_round last_accessed version count t in
        (t.most_used_count ≤ r.most_used_count)
        × (count ≤ r.most_used_count)
        × (r.most_used_count < half64)
        × (((r.most_used_version ≡ t.most_used_version) × (r.most_used_count ≡ t.most_used_count))
            ⊎ ((r.most_used_version ≡ version) × (r.most_used_count ≡ count)))
  unfolding tally_round
  most_round version count t h k = ground (arith, lt64_small t.most_used_count count)

  most_loop :
      (m : Map Text ℕ) (t : Tally)
      → AreSmall m
      → t.most_used_count < half64
      → MostFrom m t (tally_loop last_accessed m t)
  unfolding tally_loop
  most_loop [] t h k = (omega arith, λ version count x. absurd x, inl (refl, refl))
  most_loop ((version, count) ∷ m) t h k =
      let (up, over, small, from) = most_round version count t h.0 k in
      let (up', over', from') = most_loop m (tally_round last_accessed version count t) h.1 small in
      (omega arith, (λ v n x. ground (arith, over' v n)), ground arith)

  -- What it has found of the least counter; a tally that has seen none holds -1.
  abbrev LeastFrom : Map Text ℕ → Tally → Tally → Type 0
  LeastFrom m t r =
      (r.least_used_count ≤ t.least_used_count)
      × ((version : Text) (count : ℕ) → Mem (version, count) m → r.least_used_count ≤ count)
      × (((r.least_used_version ≡ t.least_used_version) × (r.least_used_count ≡ t.least_used_count))
          ⊎ Mem (r.least_used_version, r.least_used_count) m)

  abbrev IsLeastSoFar : Tally → Type 0
  IsLeastSoFar t = (t.least_used_count ≡ minus_one) ⊎ (t.least_used_count < half64)

  least_round :
      (version : Text) (count : ℕ) (t : Tally)
      → count < half64
      → IsLeastSoFar t
      → let r = tally_round last_accessed version count t in
        (r.least_used_count ≤ t.least_used_count)
        × (r.least_used_count ≤ count)
        × IsLeastSoFar r
        × (((r.least_used_version ≡ t.least_used_version)
              × (r.least_used_count ≡ t.least_used_count))
            ⊎ ((r.least_used_version ≡ version) × (r.least_used_count ≡ count)))
  unfolding tally_round
  least_round version count t h k = ground (arith, lt64_small count t.least_used_count)

  least_loop :
      (m : Map Text ℕ) (t : Tally)
      → AreSmall m
      → IsLeastSoFar t
      → LeastFrom m t (tally_loop last_accessed m t)
  unfolding tally_loop
  least_loop [] t h k = (omega arith, λ version count x. absurd x, inl (refl, refl))
  least_loop ((version, count) ∷ m) t h k =
      let (down, under, small, from) = least_round version count t h.0 k in
      let (down', under', from') =
        least_loop m (tally_round last_accessed version count t) h.1 small in
      (omega arith, (λ v n x. ground (arith, under' v n)), ground arith)

  least_entry :
      (m : Map Text ℕ) (r : Tally)
      → AreSmall m
      → LeastFrom m start_tally r
      → (m ≡ []) ⊎ Mem (r.least_used_version, r.least_used_count) m
  least_entry [] r h f = inl refl
  least_entry ((version, count) ∷ m) r h f = ground (arith, f.1 version count (inl refl))

  -- The total of a collector's counters is their sum modulo 2 ^ 64. If none has overflowed, no
  -- counter exceeds the count of the most used version, and that version and count are an entry
  -- unless all counters are 0; no counter is below the count of the least used version, and that
  -- version and count are an entry unless there is none.
  pub tally_loop_lem :
      (m : Map Text ℕ)
      → AreSmall m
      → let t = tally_loop last_accessed m start_tally in
        (t.total_requests ≡ sum m % mod64)
        × ((version : Text) (count : ℕ) → Mem (version, count) m → count ≤ t.most_used_count)
        × ((t.most_used_count ≡ 0) ⊎ Mem (t.most_used_version, t.most_used_count) m)
        × ((version : Text) (count : ℕ) → Mem (version, count) m → t.least_used_count ≤ count)
        × ((m ≡ []) ⊎ Mem (t.least_used_version, t.least_used_count) m)
  tally_loop_lem m h =
      let (up, over, from) = most_loop m start_tally h (omega arith) in
      let (down, under, from') = least_loop m start_tally h (inl refl) in
      (
        total_requests_loop m start_tally 0 refl ∙ omega arith,
        over,
        ground arith,
        under,
        least_entry m (tally_loop last_accessed m start_tally) h (down, under, from'),
      )
