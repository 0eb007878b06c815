-- ===== src/Store/Success.antt =====
-- What a success of an action says of its result and of the tables before and after it.
use fcfeeds.Prelude.{
  Bool, true, false, ◌⊎◌, inl, inr, if◌then◌else◌, ◌≡◌, refl, sym, subst, Option, some, arith,
}
use fcfeeds.Store.Rows.{Db}
use fcfeeds.Store.Conn.{
  Result, ok, err, Conn, Exec, continue, pure, ◌>>=◌, statement, query, query_row, tick,
  transaction, settle, commit_or_rollback, begun,
}
use fcfeeds.Store.Keeps.{db-tick}

-- Where `m` succeeds, `Q` relates the tables before, the result and the tables after.
pub record Ensures {A : Type 0} (Q : Db → A → Db → Type 0) (m : Exec A) : Type 0 where
  pub at : (c : Conn) (a : A) → (m c).0 ≡ ok a → Q c.db a (m c).1.db

module _ {A : Type 0} where
  pub Ensures-statement :
      (f : Db → Result A × Db)
      → Ensures (λ db a db'. ((f db).0 ≡ ok a) × (db' ≡ (f db).1)) (statement f)
  unfolding statement
  Ensures-statement f = record { at = λ c a h. ground arith }

  pub Ensures-query : (f : Db → A) → Ensures (λ db a db'. (a ≡ f db) × (db' ≡ db)) (query f)
  unfolding query
  Ensures-query f = record { at = λ c a h. ground arith }

  pub Ensures-query_row :
      (f : Db → Option A) → Ensures (λ db a db'. (f db ≡ some a) × (db' ≡ db)) (query_row f)
  unfolding query_row
  Ensures-query_row f = record { at = λ c a h. ground arith }

  pub Ensures-pure : (a : A) → Ensures (λ db b db'. (b ≡ a) × (db' ≡ db)) (pure a)
  unfolding pure
  Ensures-pure a = record { at = λ c b h. ground arith }

  pub Ensures-mono :
      {Q R : Db → A → Db → Type 0} {m : Exec A}
      → ((db : Db) (a : A) (db' : Db) → Q db a db' → R db a db')
      → Ensures Q m
      → Ensures R m
  Ensures-mono f k = record { at = λ c a h. f c.db a _ (k.at c a h) }

  -- A transaction that succeeds does what its body does.
  pub Ensures-transaction :
      {Q : Db → A → Db → Type 0} {body : Exec A} → Ensures Q body → Ensures Q (transaction body)
  unfolding transaction
  Ensures-transaction {Q} {body} k = record { at = λ c a h. go c a (tick c) (db-tick c) h }
    where
      settled :
          (before before' : Db) (a b : A) (r : Result (Unit {0}) × Conn) (c' : Conn)
          → r.1.db ≡ c'.db
          → Q before a c'.db
          → (settle before' a r).0 ≡ ok b
          → Q before b (settle before' a r).1.db
      settled before before' a b (ok u, c1) c' e q h =
          subst (λ x. Q before b x) (sym e) (subst (λ x. Q before x c'.db) (cc) q)
      settled before before' a b (err x, c1) c' e q h = absurd (cc)

      ended :
          (before : Db) (b : A) (r : Result A × Conn)
          → ((a : A) → r.0 ≡ ok a → Q before a r.1.db)
          → (commit_or_rollback before r).0 ≡ ok b
          → Q before b (commit_or_rollback before r).1.db
      ended before b (ok a, c1) q h =
          settled before before a b (tick c1) c1 (db-tick c1) (q a refl) h
      ended before b (err x, c1) q h = absurd (cc)

      go :
          (c : Conn) (b : A) (r : Result (Unit {0}) × Conn)
          → r.1.db ≡ c.db
          → (begun body r).0 ≡ ok b
          → Q c.db b (begun body r).1.db
      go c b (ok u, c1) e h =
          subst (λ x. Q x b (commit_or_rollback c1.db (body c1)).1.db) e
            (ended c1.db b (body c1) (λ a p. k.at c1 a p) h)
      go c b (err x, c1) e h = absurd (cc)

module _ {A B : Type 0} where
  pub Ensures-bind :
      {Q : Db → A → Db → Type 0} {R : A → Db → B → Db → Type 0} {m : Exec A} {f : A → Exec B}
      → Ensures Q m
      → ((a : A) → Ensures (R a) (f a))
      → Ensures (λ db b db''. (a : A) × (db' : Db) × Q db a db' × R a db' b db'') (m >>= f)
  unfolding ◌>>=◌
  Ensures-bind {Q} {R} {m} {f} km kf = record { at = λ c b h. go c b (m c) (λ a p. km.at c a p) h }
    where
      go :
          (c : Conn) (b : B) (r : Result A × Conn)
          → ((a : A) → r.0 ≡ ok a → Q c.db a r.1.db)
          → (continue r.0 f r.1).0 ≡ ok b
          → (a : A) × (db' : Db) × Q c.db a db' × R a db' b (continue r.0 f r.1).1.db
      go c b (ok a, c1) q h = (a, c1.db, q a refl, (kf a).at c1 b h)
      go c b (err x, c1) q h = absurd (cc)

module _ {A : Type 0} where
  pub Ensures-if :
      {Q R : Db → A → Db → Type 0} (b : Bool) {m n : Exec A}
      → Ensures Q m
      → Ensures R n
      → Ensures
          (λ db a db'. ((b ≡ true) × Q db a db') ⊎ ((b ≡ false) × R db a db'))
          (if b then m else n)
  Ensures-if true k l = Ensures-mono (λ db a db' q. inl (refl, q)) k
  Ensures-if false k l = Ensures-mono (λ db a db' q. inr (refl, q)) l
