-- ===== src/User/Postgres/Transactions.antt =====
-- `ExecInTx` of internal/user/repository/user_repository.go.
use beer_avaliation_api.Base.{Bool, true, false}
use beer_avaliation_api.Errors.{plain}
use beer_avaliation_api.Results.{Result, ok, err, Exec}
use beer_avaliation_api.User.Postgres.{Db, faulty}

-- `tx.Rollback`: the tables are as before; the faults that were met stay met.
abbrev pub rolled_back : Db → Db → Db
rolled_back before after = record after {
  users = before.users;
  tokens = before.tokens;
  subscriptions = before.subscriptions;
}

-- `BeginTx` and `Commit`: a statement each, whose error is passed on as it is.
unfoldable pub begin_tx : Exec Db Unit
begin_tx db = faulty db.faults (λ d. (ok tt, d)) db

unfoldable pub commit_tx : Exec Db Unit
commit_tx db = faulty db.faults (λ d. (ok tt, d)) db

abbrev pub committed : Db → Result (Unit {0}) × Db → Result (Unit {0}) × Db
committed before (ok u, db) = (ok tt, db)
committed before (err e, db) = (err e, rolled_back before db)

abbrev pub finished : Db → Result (Unit {0}) × Db → Result (Unit {0}) × Db
finished before (ok u, db) = committed before (commit_tx db)
finished before (err e, db) = (err e, rolled_back before db)

abbrev pub begun : Exec Db Unit → Result (Unit {0}) × Db → Result (Unit {0}) × Db
begun fn (ok u, db) = finished db (fn db)
begun fn (err e, db) = (err e, db)

-- `ExecInTx`; `begins` says that the repository has a `beginner`, which the one within a transaction
-- has not.
unfoldable pub exec_in_tx : Bool → Exec Db Unit → Exec Db Unit
unfolding begin_tx
exec_in_tx false fn db =
    (err (plain "user repository cannot begin transactions: beginner não inicializado"), db)
exec_in_tx true fn db = begun fn (begin_tx db)
