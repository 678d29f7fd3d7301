-- ===== src/Postgres/Client/Transactions.antt =====
-- Transactions (pkg/postgres/client.go). The database, and whatever else the function that runs in
-- a transaction touches, is a state `S`; beginning, committing and rolling back are steps of pgx on
-- it. The function is a step on this client and the state: it holds the transaction, whose Commit
-- and Rollback it may call.
use gochoreo.Common.{
  ◌≡◌, refl, ◌≢◌, ◌⊎◌, inl, inr, true, false, Option, none, some, if◌then◌else◌, is_some,
  Option-cases, Bool-cases, if-eq-left, if-eq-right, ap, sym, ◌∙◌, subst,
}
use gochoreo.Common.Word.{add64}
use gochoreo.Text.{Text, codes, text_eq}
use gochoreo.Postgres.Errors.{PgError, wrapping, transaction_error, connection_pool_closed}
use gochoreo.Postgres.Config.{
  isolation_level_read_uncommitted, isolation_level_read_committed, isolation_level_repeatable_read,
  isolation_level_serializable,
}
use gochoreo.Postgres.Client.{Client, with_metrics}

-- The isolation levels of pgx; `default_level` is the zero value of its options.
pub data TxIsoLevel : Type 0 where
  default_level read_uncommitted read_committed repeatable_read serializable : TxIsoLevel

-- The switch of BeginWithIsolation.
unfoldable pub pgx_isolation : Text → TxIsoLevel
pgx_isolation isolation =
    if text_eq isolation isolation_level_read_uncommitted
    then read_uncommitted
    else if text_eq isolation isolation_level_read_committed
    then read_committed
    else if text_eq isolation isolation_level_repeatable_read
    then repeatable_read
    else if text_eq isolation isolation_level_serializable
    then serializable
    else read_committed

-- How a function ends, or a call of RunInTransaction.
pub data Outcome : Type 0 where
  returned : Option PgError → Outcome
  panicked : Outcome

-- What pgx and the function do.
pub record Steps (S : Type 0) : Type 0 where
  pub begin_step : TxIsoLevel → S → Option PgError × S
  pub commit_step : S → Option PgError × S
  pub rollback_step : S → Option PgError × S
  pub fn_step : Client → S → Outcome × Client × S

abbrev pub started : Client → Client
started c =
    with_metrics
      (record c.metrics { transactions_started = add64 c.metrics.transactions_started 1 }) c

abbrev committed : Client → Client
committed c =
    with_metrics
      (record c.metrics { transactions_committed = add64 c.metrics.transactions_committed 1 }) c

abbrev pub rolled_back : Client → Client
rolled_back c =
    with_metrics
      (record c.metrics { transactions_rolled_back = add64 c.metrics.transactions_rolled_back 1 }) c

module _ {S : Type 0} (steps : Steps S) where
  -- BeginTx: an error, or a transaction.
  unfoldable pub begin_tx : TxIsoLevel → Client → S → Option PgError × Client × S
  begin_tx level c s =
      if c.closed
      then (some connection_pool_closed, c, s)
      else let (err, s') = steps.begin_step level s in
        elim err [
          | some e ↦ (some (wrapping (codes "failed to begin transaction: ") e), c, s')
          | none ↦ (none, started c, s')
        ]

  unfoldable pub begin_with_isolation : Text → Client → S → Option PgError × Client × S
  begin_with_isolation isolation c s = begin_tx (pgx_isolation isolation) c s

  -- Transaction.Commit
  unfoldable pub commit : Client → S → Option PgError × Client × S
  commit c s =
      let (err, s') = steps.commit_step s in
      (err, (if is_some err then rolled_back c else committed c), s')

  -- Transaction.Rollback
  unfoldable pub rollback : Client → S → Option PgError × Client × S
  rollback c s = let (err, s') = steps.rollback_step s in (err, rolled_back c, s')

  abbrev pub rollback_error : PgError → Option PgError → PgError
  rollback_error err none = err
  rollback_error err (some rb_err) = transaction_error err rb_err

  -- What follows the function, with the deferred call that catches a panic and panics again.
  unfoldable pub finish : Outcome → Client → S → Outcome × Client × S
  finish panicked c s = let (rb, c', s') = rollback c s in (panicked, c', s')
  finish (returned (some err)) c s =
      let (rb, c', s') = rollback c s in (returned (some (rollback_error err rb)), c', s')
  finish (returned none) c s = let (err, c', s') = commit c s in (returned err, c', s')

  -- RunInTransactionWithOptions after BeginTx.
  abbrev pub after_begin : Option PgError × Client × S → Outcome × Client × S
  after_begin (some e, c, s) = (returned (some e), c, s)
  after_begin (none, c, s) = let (outcome, c', s') = steps.fn_step c s in finish outcome c' s'

  -- RunInTransactionWithOptions; RunInTransaction is the one with the default level.
  unfoldable pub run_in_transaction : TxIsoLevel → Client → S → Outcome × Client × S
  run_in_transaction level c s = after_begin (begin_tx level c s)

  pub begin_closed :
      (level : TxIsoLevel) (c : Client) (s : S)
      → c.closed ≡ true
      → begin_tx level c s ≡ (some connection_pool_closed, c, s)
  unfolding begin_tx
  begin_closed level c s h = if-eq-left c.closed _ _ h

  pub begin_refused :
      (level : TxIsoLevel) (c : Client) (s : S) (err : PgError)
      → c.closed ≡ false
      → (steps.begin_step level s).0 ≡ some err
      → begin_tx level c s ≡ (
        some (wrapping (codes "failed to begin transaction: ") err),
        c,
        (steps.begin_step level s).1,
      )
  unfolding begin_tx
  begin_refused level c s err h bad = if-eq-right c.closed _ _ h ∙ rw bad refl

  pub begin_granted :
      (level : TxIsoLevel) (c : Client) (s : S)
      → c.closed ≡ false
      → (steps.begin_step level s).0 ≡ none
      → begin_tx level c s ≡ (none, started c, (steps.begin_step level s).1)
  unfolding begin_tx
  begin_granted level c s h good = if-eq-right c.closed _ _ h ∙ rw good refl

  -- The end of a transaction that has begun: committed or rolled back, from the state that the
  -- function left.
  abbrev pub Ended : Outcome → S → Outcome × Client × S → Type 0
  Ended outcome s r =
      ((outcome ≡ returned none)
        × (r.2 ≡ (steps.commit_step s).1)
        × (r.0 ≡ returned (steps.commit_step s).0))
      ⊎ ((outcome ≢ returned none) × (r.2 ≡ (steps.rollback_step s).1) × (r.0 ≢ returned none))

  finish-Ended : (outcome : Outcome) (c : Client) (s : S) → Ended outcome s (finish outcome c s)
  unfolding finish commit rollback
  finish-Ended panicked c s = inr ((λ e. cc), refl, λ e. cc)
  finish-Ended (returned (some err)) c s = inr ((λ e. cc), refl, λ e. cc)
  finish-Ended (returned none) c s = inl (refl, refl, refl)

  -- If the client is closed, RunInTransaction returns an error and leaves the client and the state as
  -- they are; if pgx begins no transaction, it returns an error and leaves the client as it is and
  -- the state as pgx left it. The function is not called in either case. Otherwise the function is
  -- called once, on the transaction that was begun, and the call ends in exactly one way: if the
  -- function returns nil it commits and answers what Commit answers; if the function returns an
  -- error or panics it rolls back, and does not return nil.
  pub run_in_transaction_lem :
      (level : TxIsoLevel) (c : Client) (s : S)
      → (let b = steps.begin_step level s in
          let f = steps.fn_step (started c) b.1 in
          let r = run_in_transaction level c s in
          ((c.closed ≡ true)
            × ((err : PgError) × (r.0 ≡ returned (some err)))
            × (r.1 ≡ c)
            × (r.2 ≡ s))
          ⊎ ((c.closed ≡ false)
              × (is_some b.0 ≡ true)
              × ((err : PgError) × (r.0 ≡ returned (some err)))
              × (r.1 ≡ c)
              × (r.2 ≡ b.1))
          ⊎ ((c.closed ≡ false) × (b.0 ≡ none) × Ended f.0 f.2 r))
  unfolding run_in_transaction
  run_in_transaction_lem level c s = elim (Bool-cases c.closed) [
    | inl shut ↦
        let e = ap after_begin (begin_closed level c s shut) in
        inl (shut, (connection_pool_closed, ap (λ r. r.0) e), ap (λ r. r.1) e, ap (λ r. r.2) e)
    | inr usable ↦ elim (Option-cases (steps.begin_step level s).0) [
      | inr (err, bad) ↦
          let e = ap after_begin (begin_refused level c s err usable bad) in
          inr (
            inl (
              usable,
              ap is_some bad,
              (wrapping (codes "failed to begin transaction: ") err, ap (λ r. r.0) e),
              ap (λ r. r.1) e,
              ap (λ r. r.2) e,
            ))
      | inl good ↦
          let e = ap after_begin (begin_granted level c s usable good) in
          let (outcome, c', s') = steps.fn_step (started c) (steps.begin_step level s).1 in
          inr (inr (usable, good, subst (Ended outcome s') (sym e) (finish-Ended outcome c' s')))
    ]
  ]
