-- ===== src/Store/Keeps.antt =====
-- Rules for actions on the connection: what they keep of the tables whatever statements fail, and
-- that a transaction which returns an error has changed no table.
use fcfeeds.Prelude.{
  ◌≡◌, sym, subst, Bool, true, false, Option, none, some, [], ◌∷◌, arith, if◌then◌else◌,
}
use fcfeeds.Store.Rows.{Db}
use fcfeeds.Store.Conn.{
  Error, Result, ok, err, Conn, Exec, continue, pure, ◌>>=◌, statement, query, query_row, tick,
  transaction, settle, commit_or_rollback, begun, attempt,
}

-- `m` keeps `P` of the tables, whether it returns or fails.
pub record Keeps {ℓ} {A : Type ℓ} (P : Db → Type ℓ) (m : Exec A) : Type ℓ where
  pub at : (c : Conn) → P c.db → P (m c).1.db

module _ {ℓ} {A : Type ℓ} {P : Db → Type ℓ} where
  pub Keeps-pure : (a : A) → Keeps P (pure a)
  unfolding pure
  Keeps-pure a = record { at = λ c h. h }

  pub Keeps-statement :
      (f : Db → Result A × Db) → ((db : Db) → P db → P (f db).1) → Keeps P (statement f)
  unfolding statement
  Keeps-statement f k = record { at = λ c h. go c.db c.faults h }
    where
      go : (db : Db) (fs : _) → P db → P (statement f (record { db = db; faults = fs })).1.db
      go db [] h = k db h
      go db (true ∷ fs) h = h
      go db (false ∷ fs) h = k db h

  Keeps-continue :
      {B : Type ℓ} (r : Result B) (f : B → Exec A)
      → ((b : B) → Keeps P (f b))
      → (c : Conn) → P c.db
      → P (continue r f c).1.db
  Keeps-continue (ok b) f k c h = (k b).at c h
  Keeps-continue (err e) f k c h = h

module _ {ℓ} {A B : Type ℓ} {P : Db → Type ℓ} where
  pub Keeps-bind :
      (m : Exec A) (f : A → Exec B) → Keeps P m → ((a : A) → Keeps P (f a)) → Keeps P (m >>= f)
  unfolding ◌>>=◌
  Keeps-bind m f km kf = record {
    at = λ c h. let (r, c') = m c in Keeps-continue r f kf c' (km.at c h);
  }

module _ {ℓ} {A : Type ℓ} {P : Db → Type ℓ} where
  pub Keeps-query : (f : Db → A) → Keeps P (query f)
  unfolding query
  Keeps-query f = Keeps-statement _ (λ db h. h)

  pub Keeps-query_row : (f : Db → Option A) → Keeps P (query_row f)
  unfolding query_row
  Keeps-query_row f = Keeps-statement _ (λ db h. go (f db) db h)
    where
      go :
          (o : Option A) (db : Db)
          → P db
          → P
              (elim o as (λ x. Result A × Db) [
                | none ↦ (err Error.no_rows, db)
                | some a ↦ (ok a, db)
              ]).1
      go none db h = h
      go (some a) db h = h

  pub Keeps-if : (b : Bool) (m n : Exec A) → Keeps P m → Keeps P n → Keeps P (if b then m else n)
  Keeps-if true m n km kn = km
  Keeps-if false m n km kn = kn

  pub Keeps-elim {κ} :
      {X : Type κ} (o : Option X) (m : Exec A) (f : X → Exec A)
      → Keeps P m
      → ((x : X) → Keeps P (f x))
      → Keeps P (elim o as (λ y. Exec A) [ none ↦ m | some x ↦ f x ])
  Keeps-elim none m f km kf = km
  Keeps-elim (some x) m f km kf = kf x

-- BEGIN and COMMIT change no table.
pub db-tick : (c : Conn) → (tick c).1.db ≡ c.db
unfolding tick
db-tick c = ground arith

module _ {ℓ} {A : Type ℓ} where
  -- A transaction that returns an error leaves every table as it was.
  pub transaction_rollback :
      (body : Exec A) (c : Conn) (e : Error)
      → (transaction body c).0 ≡ err e
      → (transaction body c).1.db ≡ c.db
  unfolding transaction tick
  transaction_rollback body c e h = ground (arith, db-tick c)

module _ {ℓ} {A : Type ℓ} {P : Db → Type ℓ} where
  pub Keeps-transaction : (body : Exec A) → Keeps P body → Keeps P (transaction body)
  unfolding transaction
  Keeps-transaction body k = record { at = λ c h. go c h (tick c) (db-tick c) }
    where
      settled :
          (before : Db) (a : A) (r : Result (Unit {0}) × Conn) (c' : Conn)
          → r.1.db ≡ c'.db
          → P before
          → P c'.db
          → P (settle before a r).1.db
      settled before a (ok u, c1) c' e hb h = subst P (sym e) h
      settled before a (err x, c1) c' e hb h = hb

      ended :
          (before : Db) (r : Result A × Conn)
          → P before
          → P r.1.db
          → P (commit_or_rollback before r).1.db
      ended before (ok a, c1) hb h = settled before a (tick c1) c1 (db-tick c1) hb h
      ended before (err x, c1) hb h = hb

      go :
          (c : Conn)
          → P c.db
          → (r : Result (Unit {0}) × Conn) → r.1.db ≡ c.db
          → P (begun body r).1.db
      go c h (ok u, c1) e = let hb = subst P (sym e) h in ended c1.db (body c1) hb (k.at c1 hb)
      go c h (err x, c1) e = subst P (sym e) h

module _ {ℓ} {A : Type ℓ} {P : Db → Type ℓ} where
  pub Keeps-attempt : (m : Exec A) → Keeps P m → Keeps P (attempt m)
  unfolding attempt
  Keeps-attempt m k = record { at = λ c h. k.at c h }

pub ruleset keeps_rules =
    (Keeps-pure, Keeps-bind, Keeps-query, Keeps-query_row, Keeps-if, Keeps-transaction)
