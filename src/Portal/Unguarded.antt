-- ===== src/Portal/Unguarded.antt =====
-- A transaction that is begun beside the statements it should guard: `updateMessages` of
-- portal/message.go and `serveProxyUpdate` of portal/proxy.go call `db.Exec` where they mean
-- `tx.Exec`, and do not look at the error of `db.Begin`. Where it failed `tx` is nil, and using it
-- panics.
use isucon6_final.Db.{Db, Result, ok, err, panic, pure, raise, panics, exec, begin, attempt, ◌>>=◌}
use isucon6_final.Common.{Bool, true, false}
use isucon6_final.Portal.Schema.{Tables, Error, wrapped}

abbrev pub is_open : Result Error Tables → Bool
is_open (ok t) = true
is_open (err e) = false
is_open panic = false

-- Whether there is a transaction.
unfoldable pub begin_unchecked : Db Tables Error Bool
begin_unchecked = do r ← attempt (begin (wrapped "")); pure (is_open r)

-- An error of a statement: `tx.Rollback()`, which undoes nothing, and the error.
unfoldable pub after_statement : Bool → Result Error (Unit {0}) → Db Tables Error (Unit {0})
after_statement begun (ok u) = pure tt
after_statement true (err e) = raise e
after_statement false (err e) = panics
after_statement begun panic = panics

unfoldable pub beside : Bool → (Tables → Tables) → Db Tables Error (Unit {0})
unfolding after_statement
beside begun f = do r ← attempt (exec (wrapped "") (λ t _. (tt, f t))); after_statement begun r

-- `tx.Commit()` of the empty transaction
unfoldable pub commit_unused : Bool → Db Tables Error (Unit {0})
commit_unused true = exec (wrapped "") (λ t _. (tt, t))
commit_unused false = panics
