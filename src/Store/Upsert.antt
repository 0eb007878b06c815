-- ===== src/Store/Upsert.antt =====
-- UpsertItems: what is inserted, and that known headlines are left alone.
use fcfeeds.Prelude.{
  ℕ, ◌+◌, ◌≤◌, ◌≡◌, refl, sym, ap, subst, ◌∙◌, inl, inr, Bool, true, false, none, some, List, [],
  ◌∷◌, ◌++◌, arith, ltb, if◌then◌else◌, length, length-append, find_row, All, All-append, All-mono,
  Bool-cases,
}
use mathlib.Core.List.{append_assoc, append-nil}
use fcfeeds.Text.{Text, text_eq_refl}
use fcfeeds.Time.{Time}
use fcfeeds.Store.Rows.{ItemRow, Db, Item}
use fcfeeds.Store.Conn.{ok, Conn, statement, tick}
use fcfeeds.Store.Feeds.{next_id}
use fcfeeds.Store.Items.{item_ids, with_key, new_item, insert_item, insert_each, upsert_items}
use fcfeeds.Store.Success.{
  Ensures, Ensures-mono, Ensures-statement, Ensures-pure, Ensures-bind, Ensures-transaction,
}

abbrev pub has_key : List ItemRow → ℕ → Text → Bool
has_key rows feed k = elim (find_row (with_key feed k) rows) [ none ↦ false | some r ↦ true ]

has_key-append :
    (rows more : List ItemRow) (feed : ℕ) (k : Text)
    → has_key rows feed k ≡ true
    → has_key (rows ++ more) feed k ≡ true
unfolding find_row
has_key-append [] more feed k h = cc
has_key-append (r ∷ rows) more feed k h = ground (arith, has_key-append rows more feed k)

has_key-last :
    (rows : List ItemRow) (r : ItemRow) → has_key (rows ++ r ∷ []) r.feed_id r.item_key ≡ true
unfolding find_row
has_key-last [] r = ground (arith, text_eq_refl r.item_key)
has_key-last (s ∷ rows) r = ground (arith, has_key-last rows r)

-- What an upsert of the feed adds: rows of the feed with new keys, behind the old rows.
pub record Adds (feed : ℕ) (db : Db) (n : ℕ) (db' : Db) : Type 0 where
  pub rows : List ItemRow
  pub items : db'.items ≡ db.items ++ rows
  pub feeds : db'.feeds ≡ db.feeds
  pub states : db'.states ≡ db.states
  pub count : n ≡ length rows
  pub owned : All (λ r. r.feed_id ≡ feed) rows
  pub absent : All (λ r. has_key db.items feed r.item_key ≡ false) rows

module _ (hash_string : Text → Text) (feed : ℕ) (now : Time) where
  insert_item_known :
      (it : Item) (db : Db)
      → has_key db.items feed it.key ≡ true
      → insert_item hash_string feed it now db ≡ (ok 0, db)
  unfolding insert_item
  insert_item_known it db h = ground arith

  abbrev fresh : Item → Db → ItemRow
  fresh it db = new_item hash_string (next_id (item_ids db.items)) feed it now

  insert_item_new :
      (it : Item) (db : Db) (n : ℕ)
      → has_key db.items feed it.key ≡ false
      → (insert_item hash_string feed it now db).0 ≡ ok n
      → (n ≡ 1)
        × ((insert_item hash_string feed it now db).1
            ≡ record db { items = db.items ++ fresh it db ∷ [] })
  unfolding insert_item
  insert_item_new it db n h e = ground arith

  Adds-none : (db : Db) → Adds feed db 0 db
  Adds-none db = record {
    rows = [];
    items = sym (append-nil db.items);
    feeds = refl;
    states = refl;
    count = refl;
    owned = tt;
    absent = tt;
  }

  absent_before :
      (db db1 : Db) (rows : List ItemRow) (k : Text)
      → db1.items ≡ db.items ++ rows
      → has_key db1.items feed k ≡ false
      → has_key db.items feed k ≡ false
  absent_before db db1 rows k e h = elim (Bool-cases (has_key db.items feed k)) [
    | inl p ↦
        absurd (ground (arith, has_key-append db.items rows feed k p, ap (λ x. has_key x feed k) e))
    | inr p ↦ p
  ]

  Adds-trans :
      (db db1 db2 : Db) (n m : ℕ)
      → Adds feed db n db1
      → Adds feed db1 m db2
      → Adds feed db (n + m) db2
  Adds-trans db db1 db2 n m a b = record {
    rows = a.rows ++ b.rows;
    items = b.items ∙ ap (λ x. x ++ b.rows) a.items ∙ append_assoc db.items a.rows b.rows;
    feeds = b.feeds ∙ a.feeds;
    states = b.states ∙ a.states;
    count = omega (arith, length-append a.rows b.rows, a.count, b.count);
    owned = All-append (λ r. r.feed_id ≡ feed) a.rows b.rows a.owned b.owned;
    absent =
        All-append (λ r. has_key db.items feed r.item_key ≡ false) a.rows b.rows a.absent
          (All-mono _ _ b.rows (λ r h. absent_before db db1 a.rows r.item_key a.items h) b.absent);
  }

  insert_item-Ensures :
      (it : Item)
      → Ensures
          (λ db n db'. (n ≤ 1) × Adds feed db n db' × (has_key db'.items feed it.key ≡ true))
          (statement (insert_item hash_string feed it now))
  insert_item-Ensures it =
      Ensures-mono
        (λ db n db' (e, d). elim (Bool-cases (has_key db.items feed it.key)) [
          | inl old ↦
              let p = insert_item_known it db old in
              let d' : db' ≡ db = d ∙ ap (λ x. x.1) p in
              let zero : n ≡ 0 = ground (arith, e, ap (λ x. x.0) p) in
              (
                omega arith,
                subst (λ k. Adds feed db k db') (sym zero)
                    (subst (Adds feed db 0) (sym d') (Adds-none db)),
                ap (λ x. has_key x.items feed it.key) d' ∙ old,
              )
          | inr new ↦
              let (one, p) = insert_item_new it db n new e in
              let d' : db' ≡ record db { items = db.items ++ fresh it db ∷ [] } = d ∙ p in
              (
                omega arith,
                subst (λ k. Adds feed db k db') (sym one)
                    (subst (Adds feed db 1) (sym d') (one_row it db new)),
                ap (λ x. has_key x.items feed it.key) d' ∙ last_key it db,
              )
        ])
        (Ensures-statement _)
    where
      one_row :
          (it : Item) (db : Db)
          → has_key db.items feed it.key ≡ false
          → Adds feed db 1 (record db { items = db.items ++ fresh it db ∷ [] })
      one_row it db new =
          unfold new_item in
          record {
            rows = fresh it db ∷ [];
            items = refl;
            feeds = refl;
            states = refl;
            count = refl;
            owned = (refl, tt);
            absent = (new, tt);
          }

      last_key : (it : Item) (db : Db) → has_key (db.items ++ fresh it db ∷ []) feed it.key ≡ true
      last_key it db = unfold new_item in has_key-last db.items (fresh it db)

  abbrev pub AllKnown : List ItemRow → List Item → Type 0
  AllKnown rows = All (λ it. has_key rows feed it.key ≡ true)

  insert_each-Ensures :
      (n : ℕ) (its : List Item)
      → Ensures
          (λ db m db'. (k : ℕ) × (m ≡ n + k) × Adds feed db k db' × AllKnown db'.items its)
          (insert_each hash_string feed now n its)
  unfolding insert_each
  insert_each-Ensures n [] =
      Ensures-mono
        (λ db m db' (e, d). (0, omega arith, subst (Adds feed db 0) (sym d) (Adds-none db), tt))
        (Ensures-pure n)
  insert_each-Ensures n (it ∷ its) =
      Ensures-mono
        (λ db m db' (k, db1, (le, a, known), (k', e, b, rest)). (
          k + k',
          ground (arith, e),
          Adds-trans db db1 db' k k' a b,
          (
            ap (λ x. has_key x feed it.key) b.items
                ∙ has_key-append db1.items b.rows feed it.key known,
            rest,
          ),
        ))
        (Ensures-bind (insert_item-Ensures it)
          (λ k. insert_each-Ensures (if ltb 0 k then n + 1 else n) its))

  tick-Ensures : Ensures (λ db u db'. db' ≡ db) tick
  unfolding tick
  tick-Ensures = Ensures-mono (λ db u db' (e, d). d) (Ensures-statement _)

  pub upsert_items-Ensures :
      (its : List Item)
      → Ensures
          (λ db n db'. Adds feed db n db' × AllKnown db'.items its)
          (upsert_items hash_string feed its now)
  unfolding upsert_items
  upsert_items-Ensures [] =
      Ensures-mono
        (λ db n db' (e, d). (
          subst (λ k. Adds feed db k db') (sym e) (subst (Adds feed db 0) (sym d) (Adds-none db)),
          tt,
        ))
        (Ensures-pure 0)
  upsert_items-Ensures (it ∷ its) = Ensures-transaction (
      Ensures-mono
        (λ db n db' (u, db1, d, (k, e, a, known)). (
          subst (λ x. Adds feed x n db') d (subst (λ j. Adds feed db1 j db') (omega (arith, e)) a),
          known,
        ))
        (Ensures-bind tick-Ensures (λ u. insert_each-Ensures 0 (it ∷ its))))

  known-Ensures :
      (n : ℕ) (its : List Item)
      → Ensures
          (λ db m db'. AllKnown db.items its → (m ≡ n) × (db' ≡ db))
          (insert_each hash_string feed now n its)
  unfolding insert_each
  known-Ensures n [] = Ensures-mono (λ db m db' e _. e) (Ensures-pure n)
  known-Ensures n (it ∷ its) =
      Ensures-mono
        (λ db m db' (k, db1, (e, d), rest) (old, known).
          let p = insert_item_known it db old in
          let d' : db1 ≡ db = d ∙ ap (λ x. x.1) p in
          let zero : k ≡ 0 = ground (arith, e, ap (λ x. x.0) p) in
          let (r, q) = rest (subst (λ x. AllKnown x.items its) (sym d') known) in
          (ground (arith, r, zero), q ∙ d'))
        (Ensures-bind (Ensures-statement (insert_item hash_string feed it now))
          (λ k. known-Ensures (if ltb 0 k then n + 1 else n) its))

  known_upsert-Ensures :
      (its : List Item)
      → Ensures
          (λ db m db'. AllKnown db.items its → (m ≡ 0) × (db' ≡ db))
          (upsert_items hash_string feed its now)
  unfolding upsert_items
  known_upsert-Ensures [] = Ensures-mono (λ db m db' e _. e) (Ensures-pure 0)
  known_upsert-Ensures (it ∷ its) = Ensures-transaction (
      Ensures-mono
        (λ db m db' (u, db1, d, rest) known.
          let (r, q) = rest (subst (λ x. AllKnown x.items (it ∷ its)) (sym d) known) in (r, q ∙ d))
        (Ensures-bind tick-Ensures (λ u. known-Ensures 0 (it ∷ its))))

-- A successful upsert appends rows of the feed and changes nothing else: the old rows stay as they
-- were, in front; the result is the number of rows added; their keys were not known for the feed;
-- and afterwards every key of the batch is known for the feed.
pub upsert-Adds :
    (hash_string : Text → Text) (feed : ℕ) (now : Time) (its : List Item) (c : Conn) (n : ℕ)
    → (upsert_items hash_string feed its now c).0 ≡ ok n
    → Adds feed c.db n (upsert_items hash_string feed its now c).1.db
      × AllKnown hash_string feed now (upsert_items hash_string feed its now c).1.db.items its
upsert-Adds hash_string feed now its c n h =
    (upsert_items-Ensures hash_string feed now its).at c n h

-- Upserting a batch once more, at any time and under any faults, reports no new headline and changes
-- no table, if both upserts succeed.
pub upsert_again :
    (hash_string : Text → Text) (feed : ℕ) (now now' : Time) (its : List Item) (c c' : Conn)
    (n m : ℕ)
    → (upsert_items hash_string feed its now c).0 ≡ ok n
    → c'.db ≡ (upsert_items hash_string feed its now c).1.db
    → (upsert_items hash_string feed its now' c').0 ≡ ok m
    → (m ≡ 0) × ((upsert_items hash_string feed its now' c').1.db ≡ c'.db)
upsert_again hash_string feed now now' its c c' n m h same h' =
    (known_upsert-Ensures hash_string feed now' its).at c' m h' (
      subst (λ x. AllKnown hash_string feed now' x.items its) (sym same)
        (upsert-Adds hash_string feed now its c n h).1)
