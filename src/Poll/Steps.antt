-- ===== src/Poll/Steps.antt =====
-- The store's operations that a fetch calls, on a connection without faults.
use fcfeeds.Prelude.{
  ℕ, ◌≡◌, refl, sym, subst, ◌∙◌, true, Option, none, some, List, [], ◌∷◌, arith, find_row,
}
use fcfeeds.Text.{Text}
use fcfeeds.Time.{Time}
use fcfeeds.Store.Rows.{StateRow, ItemRow, Db, FetchOk, Item}
use fcfeeds.Store.Conn.{ok, statement, tick}
use fcfeeds.Store.Feeds.{of_feed, has_feed}
use fcfeeds.Store.Claims.{succeed, record_fetch_ok, fail_state, cut_message, record_fetch_error}
use fcfeeds.Store.Items.{
  with_key, insert_item, insert_each, upsert_items, delete_items, prune_items,
}
use fcfeeds.Store.Runs.{
  Runs, Runs-pure, Runs-statement, Runs-transaction, Runs-bind, find_row-modify, Runs-mono,
}

pub record_fetch_ok-Runs :
    (i : ℕ) (r : FetchOk) (db : Db) (s : StateRow)
    → find_row (of_feed i) db.states ≡ some s
    → Runs (record_fetch_ok i r) db (λ _ db'. find_row (of_feed i) db'.states ≡ some (succeed r s))
unfolding record_fetch_ok
record_fetch_ok-Runs i r db s e = Runs-transaction db _ (
    Runs-bind db {R = λ _ db'. find_row (of_feed i) db'.states ≡ some (succeed r s)} _ _
      (Runs-statement db _ tt refl
        (unfold succeed in find_row-modify (of_feed i) (succeed r) db.states s (λ x. refl) e))
      (λ _ db' h. Runs-statement db' _ tt refl h))

pub record_fetch_error-Runs :
    (i status : ℕ) (msg : Text) (at next : Time) (db : Db) (s : StateRow)
    → find_row (of_feed i) db.states ≡ some s
    → Runs (record_fetch_error i status msg at next) db (λ _ db'.
      find_row (of_feed i) db'.states ≡ some (fail_state status (cut_message msg) at next s))
unfolding record_fetch_error
record_fetch_error-Runs i status msg at next db s e = Runs-statement db _ tt refl (
    unfold fail_state in
    find_row-modify (of_feed i) (fail_state status (cut_message msg) at next) db.states s
      (λ x. refl) e)

pub prune_items-Runs :
    (i limit : ℕ) (older_than : Time) (db : Db)
    → Runs (prune_items i limit older_than) db (λ _ db'. db'.states ≡ db.states)
unfolding prune_items delete_items
prune_items-Runs i limit older_than db = Runs-statement db _ tt refl refl

module _ (hash_string : Text → Text) (i : ℕ) (now : Time) where
  insert_item-Runs :
      (it : Item) (db : Db)
      → has_feed db.feeds i ≡ true
      → Runs
          (statement (insert_item hash_string i it now))
          db
          (λ _ db'. (db'.states ≡ db.states) × (db'.feeds ≡ db.feeds))
  insert_item-Runs it db h =
      let (n, e, same, feeds) = go (find_row (with_key i it.key) db.items) refl in
      Runs-statement db _ n e (same, feeds)
    where
      go :
          (o : Option ItemRow)
          → find_row (with_key i it.key) db.items ≡ o
          → (n : ℕ) × ((insert_item hash_string i it now db).0 ≡ ok n)
            × ((insert_item hash_string i it now db).1.states ≡ db.states)
            × ((insert_item hash_string i it now db).1.feeds ≡ db.feeds)
      go none e = unfold insert_item in (1, ground arith, ground arith, ground arith)
      go (some r) e = unfold insert_item in (0, ground arith, ground arith, ground arith)

  insert_each-Runs :
      (its : List Item) (n : ℕ) (db : Db)
      → has_feed db.feeds i ≡ true
      → Runs (insert_each hash_string i now n its) db (λ _ db'. db'.states ≡ db.states)
  unfolding insert_each
  insert_each-Runs [] n db h = Runs-pure db n refl
  insert_each-Runs (it ∷ its) n db h =
      Runs-bind db {R = λ _ db'. (db'.states ≡ db.states) × (db'.feeds ≡ db.feeds)} _ _
        (insert_item-Runs it db h)
        (λ k db' (s, f).
          Runs-mono db' (λ _ _ e. e ∙ s)
            (insert_each-Runs its _ db' (subst (λ fs. has_feed fs i ≡ true) (sym f) h)))

  pub upsert_items-Runs :
      (its : List Item) (db : Db)
      → has_feed db.feeds i ≡ true
      → Runs (upsert_items hash_string i its now) db (λ _ db'. db'.states ≡ db.states)
  unfolding upsert_items tick
  upsert_items-Runs [] db h = Runs-pure db 0 refl
  upsert_items-Runs (it ∷ its) db h = Runs-transaction db _ (
      Runs-bind db {R = λ _ db'. db' ≡ db} _ _ (Runs-statement db _ tt refl refl) (λ _ db' e.
        subst
          (λ x.
            Runs (insert_each hash_string i now 0 (it ∷ its)) x (λ _ db2. db2.states ≡ db.states))
          (sym e) (insert_each-Runs (it ∷ its) 0 db h)))
