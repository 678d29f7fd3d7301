-- ===== src/Postgres/Client/Closed.antt =====
-- A closed client (pkg/postgres/client.go).
use gochoreo.Common.{
  ◌+◌, ◌≡◌, ◌≢◌, true, Option, some, [], if◌then◌else◌, is_empty, is_empty-false, arith, Bool-cases,
  if-eq-left, if-eq-right, ap, ◌∙◌, inl, inr,
}
use gochoreo.Text.{Text}
use gochoreo.Postgres.Errors.{PgError, connection_pool_closed}
use gochoreo.Postgres.Client.{Client, Answer, HealthAnswers, execute, query, ping, health, close}
use gochoreo.Postgres.Client.Transactions.{
  Steps, TxIsoLevel, returned, begin_tx, run_in_transaction, after_begin,
}

close-closed : (c : Client) → (close c).closed ≡ true
unfolding close
close-closed c = elim (Bool-cases c.closed) [
  | inl shut ↦ ground (arith, shut)
  | inr usable ↦ ground (arith, usable)
]

execute-closed :
    (text : Text) (a : Answer) (c : Client)
    → text ≢ []
    → c.closed ≡ true
    → execute text a c ≡ (some connection_pool_closed, c)
unfolding execute
execute-closed text a c t h =
    if-eq-right (is_empty text) _ _ ((is_empty-false text).1 t) ∙ if-eq-left c.closed _ _ h

query-closed :
    (text : Text) (a : Answer) (c : Client)
    → text ≢ []
    → c.closed ≡ true
    → query text a c ≡ (some connection_pool_closed, c)
unfolding query
query-closed text a c t h =
    if-eq-right (is_empty text) _ _ ((is_empty-false text).1 t) ∙ if-eq-left c.closed _ _ h

run-closed :
    {S : Type 0} (steps : Steps S) (level : TxIsoLevel) (c : Client) (s : S)
    → c.closed ≡ true
    → run_in_transaction steps level c s ≡ (returned (some connection_pool_closed), c, s)
unfolding run_in_transaction begin_tx
run-closed steps level c s h = ap (after_begin steps) (if-eq-left c.closed _ _ h)

-- After Close, a second Close does nothing, and Ping, Health, RunInTransaction, and Execute and
-- Query with a text return ErrConnectionPoolClosed and leave the client and the database as they
-- are. The pool is closed once.
pub close_lem :
    {S : Type 0} (c : Client) (answer : Option PgError) (ha : HealthAnswers) (text : Text)
    (a : Answer) (steps : Steps S) (level : TxIsoLevel) (s : S)
    → text ≢ []
    → (let d = close c in
        (close d ≡ d)
        × (ping answer d ≡ some connection_pool_closed)
        × (health ha d ≡ some connection_pool_closed)
        × (execute text a d ≡ (some connection_pool_closed, d))
        × (query text a d ≡ (some connection_pool_closed, d))
        × (run_in_transaction steps level d s ≡ (returned (some connection_pool_closed), d, s))
        × (d.pool_closes ≡ (if c.closed then c.pool_closes else c.pool_closes + 1)))
unfolding ping health close
close_lem c answer ha text a steps level s t =
    let d = close c in
    let h = close-closed c in
    (
      again d h,
      if-eq-left d.closed _ _ h,
      if-eq-left d.closed _ _ h,
      execute-closed text a d t h,
      query-closed text a d t h,
      run-closed steps level d s h,
      closes,
    )
  where
    again : (d : Client) → d.closed ≡ true → close d ≡ d
    again d h = if-eq-left d.closed _ _ h

    closes : (close c).pool_closes ≡ (if c.closed then c.pool_closes else c.pool_closes + 1)
    closes = ground arith
