-- ===== src/Store/Runs.antt =====
-- Actions on a connection none of whose statements fails: such an action succeeds, if its own
-- conditions let it.
use fcfeeds.Prelude.{◌≡◌, refl, Bool, some, List, [], ◌∷◌, arith, find_row, modify}
use fcfeeds.Store.Rows.{Db}
use fcfeeds.Store.Conn.{Result, ok, Conn, Exec, pure, ◌>>=◌, statement, tick, transaction, attempt}

abbrev pub quiet : Db → Conn
quiet db = record { db = db; faults = [] }

-- Without faults `m` succeeds from these tables, with a result and tables that fulfil `Q`.
pub record Runs {A : Type 0} (m : Exec A) (db : Db) (Q : A → Db → Type 0) : Type 0 where
  pub value : A
  pub db' : Db
  pub runs : m (quiet db) ≡ (ok value, quiet db')
  pub holds : Q value db'

module _ {A : Type 0} (db : Db) {Q : A → Db → Type 0} where
  pub Runs-pure : (a : A) → Q a db → Runs (pure a) db Q
  unfolding pure
  Runs-pure a q = record { value = a; db' = db; runs = refl; holds = q }

  -- the statement's result is computed
  pub Runs-statement :
      (f : Db → Result A × Db) (a : A) → (f db).0 ≡ ok a → Q a (f db).1 → Runs (statement f) db Q
  unfolding statement
  Runs-statement f a e q = record { value = a; db' = (f db).1; runs = ground arith; holds = q }

  pub Runs-transaction : (body : Exec A) → Runs body db Q → Runs (transaction body) db Q
  unfolding transaction tick statement
  Runs-transaction body k =
      let e = k.runs in
      record { value = k.value; db' = k.db'; runs = ground arith; holds = k.holds }

  pub Runs-attempt :
      (m : Exec A) → Runs m db Q → Runs (attempt m) db (λ r db'. (a : A) × (r ≡ ok a) × Q a db')
  unfolding attempt
  Runs-attempt m k =
      let e = k.runs in
      record {
        value = ok k.value;
        db' = k.db';
        runs = ground arith;
        holds = (k.value, refl, k.holds);
      }

  pub Runs-mono :
      {R : A → Db → Type 0} {m : Exec A}
      → ((a : A) (db' : Db) → Q a db' → R a db')
      → Runs m db Q
      → Runs m db R
  Runs-mono f k = record {
    value = k.value;
    db' = k.db';
    runs = k.runs;
    holds = f k.value k.db' k.holds;
  }

module _ {A B : Type 0} (db : Db) {R : A → Db → Type 0} {Q : B → Db → Type 0} where
  pub Runs-bind :
      (m : Exec A) (f : A → Exec B)
      → Runs m db R
      → ((a : A) (db' : Db) → R a db' → Runs (f a) db' Q)
      → Runs (m >>= f) db Q
  unfolding ◌>>=◌
  Runs-bind m f first k =
      let then = k first.value first.db' first.holds in
      let e = first.runs in
      let e' = then.runs in
      record { value = then.value; db' = then.db'; runs = ground arith; holds = then.holds }

module _ {A : Type 0} where
  pub find_row-modify :
      (p : A → Bool) (f : A → A) (xs : List A) (a : A)
      → ((x : A) → p (f x) ≡ p x)
      → find_row p xs ≡ some a
      → find_row p (modify p f xs) ≡ some (f a)
  unfolding find_row modify
  find_row-modify p f [] a h e = cc
  find_row-modify p f (x ∷ xs) a h e = ground (arith, h x, find_row-modify p f xs a h)
