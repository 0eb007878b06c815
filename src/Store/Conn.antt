-- ===== src/Store/Conn.antt =====
-- The connection: each SQL statement may fail (a cancelled context, a full disk), by a list of
-- faults that the environment chooses. A failed statement changes nothing. A transaction is rolled
-- back on every error return, as `defer tx.Rollback()` does, and when COMMIT itself fails.
use fcfeeds.Prelude.{Bool, true, false, Option, none, some, List, [], ◌∷◌}
use fcfeeds.Store.Rows.{Db}

pub data Error : Type 0 where
  fault : Error  -- the statement failed
  no_rows : Error  -- sql.ErrNoRows
  constraint : Error  -- a FOREIGN KEY or UNIQUE constraint failed

pub data Result {ℓ} (A : Type ℓ) : Type ℓ where
  ok : A → Result A
  err : Error → Result A

pub record Conn : Type 0 where
  pub db : Db
  pub faults : List Bool  -- whether the next statements fail; past the end none does

abbrev pub Exec {ℓ} : Type ℓ → Type ℓ
Exec A = Conn → Result A × Conn

module _ {ℓ} {A : Type ℓ} where
  unfoldable pub pure : A → Exec A
  pure a c = (ok a, c)

  unfoldable pub raise : Error → Exec A
  raise e c = (err e, c)

module _ {ℓ κ} {A : Type ℓ} {B : Type κ} where
  abbrev pub continue : Result A → (A → Exec B) → Exec B
  continue (ok a) f c = f a c
  continue (err e) f c = (err e, c)

  infixl 5 ◌>>=◌
  unfoldable pub ◌>>=◌ : Exec A → (A → Exec B) → Exec B
  ◌>>=◌ m f c = let (r, c') = m c in continue r f c'

infixl 5 ◌>>◌
abbrev pub ◌>>◌ {ℓ} : {B : Type ℓ} → Exec (Unit {0}) → Exec B → Exec B
m >> k = m >>= λ _. k

abbrev rest : List Bool → List Bool
rest [] = []
rest (b ∷ bs) = bs

abbrev fails : List Bool → Bool
fails [] = false
fails (b ∷ bs) = b

module _ {ℓ} {A : Type ℓ} where
  -- One SQL statement: a function of the tables to its result and the tables after it.
  unfoldable pub statement : (Db → Result A × Db) → Exec A
  statement f c = elim (fails c.faults) [
    | true ↦ (err fault, record c { faults = rest c.faults })
    | false ↦ let (r, db') = f c.db in (r, record { db = db'; faults = rest c.faults })
  ]

  -- SELECT
  unfoldable pub query : (Db → A) → Exec A
  unfolding statement
  query f = statement (λ db. (ok (f db), db))

  -- SELECT of one row
  unfoldable pub query_row : (Db → Option A) → Exec A
  unfolding statement
  query_row f = statement (λ db. elim (f db) [ none ↦ (err no_rows, db) | some a ↦ (ok a, db) ])

-- BEGIN, COMMIT
unfoldable pub tick : Exec (Unit {0})
unfolding statement
tick = statement (λ db. (ok tt, db))

module _ {ℓ} {A : Type ℓ} where
  abbrev pub settle : Db → A → Result (Unit {0}) × Conn → Result A × Conn
  settle before a (ok u, c) = (ok a, c)
  settle before a (err e, c) = (err e, record c { db = before })

  abbrev pub commit_or_rollback : Db → Result A × Conn → Result A × Conn
  commit_or_rollback before (ok a, c) = settle before a (tick c)
  commit_or_rollback before (err e, c) = (err e, record c { db = before })

  abbrev pub begun : Exec A → Result (Unit {0}) × Conn → Result A × Conn
  begun body (ok u, c) = commit_or_rollback c.db (body c)
  begun body (err e, c) = (err e, c)

  -- BeginTx, the body, and Commit
  unfoldable pub transaction : Exec A → Exec A
  unfolding tick
  transaction body c = begun body (tick c)

module _ {ℓ} {A : Type ℓ} where
  -- The caller looks at the error itself.
  unfoldable pub attempt : Exec A → Exec (Result A)
  attempt m c = let (r, c') = m c in (ok r, c')
