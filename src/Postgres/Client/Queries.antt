-- ===== src/Postgres/Client/Queries.antt =====
-- What Execute and Query count (pkg/postgres/client.go).
use gochoreo.Common.{
  inl, inr, ℕ, suc, ◌+◌, ◌*◌, ◌<◌, ◌≡◌, ◌≢◌, Bool, false, List, [], ◌∷◌, if◌then◌else◌,
  is_empty-false, is_some, length, All, arith, Option-cases, ap, ◌∙◌,
}
use gochoreo.Common.Word.{add64, mod64}
use gochoreo.Text.{Text}
use gochoreo.Postgres.Client.{Client, Answer, execute, query, measure, update_query_metrics}

-- A call of Execute, or of Query, with its text and what pgx answers.
pub record Call : Type 0 where
  pub is_execute : Bool
  pub text : Text
  pub answer : Answer

unfoldable pub apply_call : Call → Client → Client
apply_call q c = if q.is_execute then (execute q.text q.answer c).1 else (query q.text q.answer c).1

unfoldable pub run_calls : List Call → Client → Client
run_calls [] c = c
run_calls (q ∷ qs) c = run_calls qs (apply_call q c)

abbrev pub failures_in : List Call → ℕ
failures_in [] = 0
failures_in (q ∷ qs) = let rest = failures_in qs in if is_some q.answer.err then suc rest else rest

abbrev pub HasText : Call → Type 0
HasText q = q.text ≢ []

measured :
    (q : Call) (c : Client) → HasText q → c.closed ≡ false → apply_call q c ≡ measure q.answer c
unfolding apply_call execute query
measured q c t usable = ground (arith, (is_empty-false q.text).1 t, usable)

-- The two counters and the flag after a call.
counted :
    (a : Answer) (c : Client)
    → c.metrics.queries_executed + 2 < mod64
    → c.metrics.query_errors + 1 < mod64
    → ((measure a c).metrics.queries_executed
        ≡ c.metrics.queries_executed + (if is_some a.err then 2 else 1))
      × ((measure a c).metrics.query_errors
          ≡ c.metrics.query_errors + (if is_some a.err then 1 else 0))
unfolding update_query_metrics add64
counted a c h k = elim (Option-cases a.err) [
  | inl fine ↦ rw (fine, measure) (omega (arith, h), omega (arith, k))
  | inr (e, bad) ↦ rw (bad, measure) (omega (arith, h), omega (arith, k))
]

-- On a client that is not closed, the queries with a text count once, and those that fail count
-- twice, as long as the counters stay below 2 ^ 64; the errors count once.
pub run_calls-counts :
    (qs : List Call) (c : Client)
    → All HasText qs
    → c.closed ≡ false
    → c.metrics.queries_executed + (2 * length qs) < mod64
    → c.metrics.query_errors + length qs < mod64
    → ((run_calls qs c).metrics.queries_executed
        ≡ c.metrics.queries_executed + (length qs + failures_in qs))
      × ((run_calls qs c).metrics.query_errors ≡ c.metrics.query_errors + failures_in qs)
unfolding run_calls
run_calls-counts [] c t usable h k = (omega arith, omega arith)
run_calls-counts (q ∷ qs) c t usable h k =
    let (e, r) = counted q.answer c (omega (arith, h)) (omega (arith, k)) in
    let c' = measure q.answer c in
    let (x, y) = run_calls-counts qs c' t.1 usable (ground (arith, e, h)) (ground (arith, r, k)) in
    let step = measured q c t.0 usable in
    (
      ap (λ d. (run_calls qs d).metrics.queries_executed) step ∙ x ∙ ground (arith, e),
      ap (λ d. (run_calls qs d).metrics.query_errors) step ∙ y ∙ ground (arith, r),
    )
