-- ===== src/Postgres/Client/Balance.antt =====
-- The counters of transactions (pkg/postgres/client.go).
use gochoreo.Common.{ℕ, ◌+◌, ◌%◌, ◌≡◌, Option, List, [], ◌∷◌, if◌then◌else◌, is_some}
use gochoreo.Common.Word.{mod64}
use gochoreo.Postgres.Errors.{PgError}
use gochoreo.Postgres.Client.{Client}
use gochoreo.Postgres.Client.Transactions.{Steps, TxIsoLevel, begin_tx, run_in_transaction}

-- As many started, not yet ended, as the number says; some ended twice.
abbrev Pending : ℕ → ℕ → Client → Type 0
Pending n twice c =
    (c.metrics.transactions_started + twice) % mod64
    ≡ (c.metrics.transactions_committed + c.metrics.transactions_rolled_back + n) % mod64

-- A transaction to run: how often its function calls Commit or Rollback on it itself.
pub record Job (S : Type 0) : Type 0 where
  pub level : TxIsoLevel
  pub steps : Steps S
  pub own_ends : ℕ

module _ {S : Type 0} where
  -- The function starts no other transaction of this client, and adds its own calls of Commit and
  -- Rollback to the counters.
  abbrev pub CountsOwnEnds : Job S → Type 0
  CountsOwnEnds job =
      (c : Client) (s : S)
      → (let m = (job.steps.fn_step c s).1.metrics in
          (m.transactions_started ≡ c.metrics.transactions_started)
          × ((m.transactions_committed + m.transactions_rolled_back) % mod64
              ≡ (c.metrics.transactions_committed + c.metrics.transactions_rolled_back
                  + job.own_ends)
                % mod64))

  -- The transactions, one behind the other.
  unfoldable pub run_all : List (Job S) → Client → S → Client × S
  run_all [] c s = (c, s)
  run_all (job ∷ jobs) c s =
      let (outcome, c', s') = run_in_transaction job.steps job.level c s in run_all jobs c' s'

  abbrev pub own_ends_if : Job S → Option PgError → ℕ
  own_ends_if job err = if is_some err then 0 else job.own_ends

  -- The calls that the functions make themselves, in the transactions that begin.
  unfoldable pub own_ends_in : List (Job S) → Client → S → ℕ
  own_ends_in [] c s = 0
  own_ends_in (job ∷ jobs) c s =
      let (outcome, c', s') = run_in_transaction job.steps job.level c s in
      own_ends_if job (begin_tx job.steps job.level c s).0 + own_ends_in jobs c' s'
