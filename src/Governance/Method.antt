-- ===== src/Governance/Method.antt =====
-- governance_core.py: a method reads and commits to the database and may raise; what was committed
-- before a raise stays committed.
use sentinel_grc.Governance.Rows.{Db}
use sentinel_grc.Governance.Exec.{Error, Result, ok, err}

abbrev pub Exec : Type 0 → Type 0
Exec A = Db → Result A × Db

module _ {A : Type 0} where
  unfoldable pub pure : A → Exec A
  pure a db = (ok a, db)

  unfoldable pub raise : Error → Exec A
  raise e db = (err e, db)

  unfoldable pub lift : Result A → Exec A
  lift r db = (r, db)

module _ {A B : Type 0} where
  abbrev pub continue : Result A → (A → Exec B) → Exec B
  continue (ok a) f db = f a db
  continue (err e) f db = (err e, db)

  infixl 5 ◌>>=◌ ◌>>◌
  unfoldable pub ◌>>=◌ : Exec A → (A → Exec B) → Exec B
  unfolding lift
  ◌>>=◌ m f db = let (r, db') = m db in continue r f db'

  abbrev pub ◌>>◌ : Exec A → Exec B → Exec B
  m >> k = m >>= λ _. k

-- A write transaction works on its own copy. A raise closes the connection with no commit.
abbrev pub commit_result : Result Db → Db → Result (Unit {0}) × Db
commit_result (ok db') db = (ok tt, db')
commit_result (err e) db = (err e, db)

unfoldable pub transaction : (Db → Result Db) → Exec (Unit {0})
transaction body db = commit_result (body db) db
