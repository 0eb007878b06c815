-- ===== src/Store/Preserve.antt =====
-- Every statement and operation of the store keeps the constraints of the schema.
use fcfeeds.Prelude.{
  ℕ, ◌≡◌, refl, ap, ◌∙◌, Bool, true, false, Option, none, some, [], ◌∷◌, ◌++◌, keep, modify,
  find_row, All-append, All-keep, All-mono, All-modify, Unique-append, Unique-keep, Unique-modify,
}
use fcfeeds.Text.{Text}
use fcfeeds.Time.{Time}
use fcfeeds.Store.Rows.{FeedRow, StateRow, ItemRow, Db, Item}
use fcfeeds.Store.Feeds.{
  next_id, feed_ids, with_url, of_feed, has_feed, new_feed, new_state, insert_feed, add_state,
  insert_state, delete_unrequested,
}
use fcfeeds.Store.Items.{item_ids, with_key, new_item, add_item, insert_item}
use fcfeeds.Store.Invariant.{
  IsWellFormed, item_key, feed_id-ne-next, item_id-ne-next, url-ne_of_none, state-ne_of_none,
  key-ne_of_none, has_feed-append, has_feed-modify, has_feed_of_some, All-keep_has,
}

module _ (db : Db) (h : IsWellFormed db) where
  add_feed-IsWellFormed :
      (u : Text) (now : ℕ)
      → find_row (with_url u) db.feeds ≡ none
      → IsWellFormed
          (record db { feeds = db.feeds ++ new_feed (next_id (feed_ids db.feeds)) u now ∷ [] })
  unfolding new_feed
  add_feed-IsWellFormed u now absent = record {
    feed_ids = Unique-append (λ r. r.id) db.feeds _ h.feed_ids (feed_id-ne-next db.feeds);
    feed_urls =
        Unique-append (λ r. r.url) db.feeds _ h.feed_urls (url-ne_of_none u db.feeds absent);
    state_ids = h.state_ids;
    state_feeds =
        All-mono _ _ db.states (λ s e. has_feed-append db.feeds _ s.feed_id e) h.state_feeds;
    item_ids = h.item_ids;
    item_keys = h.item_keys;
    item_feeds = All-mono _ _ db.items (λ i e. has_feed-append db.feeds _ i.feed_id e) h.item_feeds;
  }

  add_state_row-IsWellFormed :
      (i : ℕ) (now : ℕ)
      → find_row (of_feed i) db.states ≡ none
      → has_feed db.feeds i ≡ true
      → IsWellFormed (record db { states = db.states ++ new_state i now ∷ [] })
  unfolding new_state
  add_state_row-IsWellFormed i now absent known = record {
    feed_ids = h.feed_ids;
    feed_urls = h.feed_urls;
    state_ids =
        Unique-append (λ s. s.feed_id) db.states _ h.state_ids
          (state-ne_of_none i db.states absent);
    state_feeds =
        All-append (λ s. has_feed db.feeds s.feed_id ≡ true) db.states _ h.state_feeds (known, tt);
    item_ids = h.item_ids;
    item_keys = h.item_keys;
    item_feeds = h.item_feeds;
  }

  add_item_row-IsWellFormed :
      (r : ItemRow)
      → r.id ≡ next_id (item_ids db.items)
      → find_row (with_key r.feed_id r.item_key) db.items ≡ none
      → has_feed db.feeds r.feed_id ≡ true
      → IsWellFormed (record db { items = db.items ++ r ∷ [] })
  add_item_row-IsWellFormed r fresh absent known = record {
    feed_ids = h.feed_ids;
    feed_urls = h.feed_urls;
    state_ids = h.state_ids;
    state_feeds = h.state_feeds;
    item_ids =
        Unique-append (λ i. i.id) db.items r h.item_ids (rw fresh (item_id-ne-next db.items));
    item_keys =
        Unique-append item_key db.items r h.item_keys
          (key-ne_of_none r.feed_id r.item_key db.items absent);
    item_feeds =
        All-append (λ i. has_feed db.feeds i.feed_id ≡ true) db.items _ h.item_feeds (known, tt);
  }

  -- an UPDATE of `feeds` that leaves ids and urls alone
  pub modify_feeds-IsWellFormed :
      (p : FeedRow → Bool) (f : FeedRow → FeedRow)
      → ((r : FeedRow) → (f r).id ≡ r.id)
      → ((r : FeedRow) → (f r).url ≡ r.url)
      → IsWellFormed (record db { feeds = modify p f db.feeds })
  modify_feeds-IsWellFormed p f same_id same_url = record {
    feed_ids = Unique-modify (λ r. r.id) p f db.feeds same_id h.feed_ids;
    feed_urls = Unique-modify (λ r. r.url) p f db.feeds same_url h.feed_urls;
    state_ids = h.state_ids;
    state_feeds =
        All-mono _ _ db.states (λ s e. has_feed-modify p f db.feeds s.feed_id same_id ∙ e)
          h.state_feeds;
    item_ids = h.item_ids;
    item_keys = h.item_keys;
    item_feeds =
        All-mono _ _ db.items (λ i e. has_feed-modify p f db.feeds i.feed_id same_id ∙ e)
          h.item_feeds;
  }

  -- an UPDATE of `fetch_state` that leaves feed ids alone
  pub modify_states-IsWellFormed :
      (p : StateRow → Bool) (f : StateRow → StateRow)
      → ((s : StateRow) → (f s).feed_id ≡ s.feed_id)
      → IsWellFormed (record db { states = modify p f db.states })
  modify_states-IsWellFormed p f same = record {
    feed_ids = h.feed_ids;
    feed_urls = h.feed_urls;
    state_ids = Unique-modify (λ s. s.feed_id) p f db.states same h.state_ids;
    state_feeds =
        All-modify (λ s. has_feed db.feeds s.feed_id ≡ true) p f db.states
          (λ s e. ap (has_feed db.feeds) (same s) ∙ e) h.state_feeds;
    item_ids = h.item_ids;
    item_keys = h.item_keys;
    item_feeds = h.item_feeds;
  }

  pub keep_items-IsWellFormed :
      (p : ItemRow → Bool) → IsWellFormed (record db { items = keep p db.items })
  keep_items-IsWellFormed p = record {
    feed_ids = h.feed_ids;
    feed_urls = h.feed_urls;
    state_ids = h.state_ids;
    state_feeds = h.state_feeds;
    item_ids = Unique-keep (λ i. i.id) p db.items h.item_ids;
    item_keys = Unique-keep item_key p db.items h.item_keys;
    item_feeds = All-keep (λ i. has_feed db.feeds i.feed_id ≡ true) p db.items h.item_feeds;
  }

  pub insert_feed-IsWellFormed : (u : Text) (now : ℕ) → IsWellFormed (insert_feed u now db).1
  unfolding insert_feed
  insert_feed-IsWellFormed u now = go (find_row (with_url u) db.feeds) refl
    where
      go :
          (o : Option FeedRow)
          → find_row (with_url u) db.feeds ≡ o
          → IsWellFormed (insert_feed u now db).1
      go none e = rw (e, insert_feed) (add_feed-IsWellFormed u now e)
      go (some r) e = rw (e, insert_feed) h

  pub insert_state-IsWellFormed : (u : Text) (now : ℕ) → IsWellFormed (insert_state u now db).1
  unfolding insert_state
  insert_state-IsWellFormed u now = go (find_row (with_url u) db.feeds) refl
    where
      inner :
          (r : FeedRow) (o : Option StateRow)
          → find_row (with_url u) db.feeds ≡ some r
          → find_row (of_feed r.id) db.states ≡ o
          → IsWellFormed (add_state r.id now db).1
      inner r none e e' =
          rw (e', add_state)
            (add_state_row-IsWellFormed r.id now e' (has_feed_of_some (with_url u) db.feeds r e))
      inner r (some s) e e' = rw (e', add_state) h

      go :
          (o : Option FeedRow)
          → find_row (with_url u) db.feeds ≡ o
          → IsWellFormed (insert_state u now db).1
      go none e = rw (e, insert_state) h
      go (some r) e = rw (e, insert_state) (inner r (find_row (of_feed r.id) db.states) e refl)

  pub delete_unrequested-IsWellFormed : (cutoff : ℕ) → IsWellFormed (delete_unrequested cutoff db).1
  unfolding delete_unrequested
  delete_unrequested-IsWellFormed cutoff = record {
    feed_ids = Unique-keep (λ r. r.id) _ db.feeds h.feed_ids;
    feed_urls = Unique-keep (λ r. r.url) _ db.feeds h.feed_urls;
    state_ids = Unique-keep (λ s. s.feed_id) _ db.states h.state_ids;
    state_feeds = All-keep_has _ (λ s. s.feed_id) db.states;
    item_ids = Unique-keep (λ i. i.id) _ db.items h.item_ids;
    item_keys = Unique-keep item_key _ db.items h.item_keys;
    item_feeds = All-keep_has _ (λ i. i.feed_id) db.items;
  }

module _ (hash_string : Text → Text) (db : Db) (h : IsWellFormed db) where
  pub insert_item-IsWellFormed :
      (feed : ℕ) (it : Item) (now : Time) → IsWellFormed (insert_item hash_string feed it now db).1
  unfolding insert_item
  insert_item-IsWellFormed feed it now = go (find_row (with_key feed it.key) db.items) refl
    where
      inner :
          find_row (with_key feed it.key) db.items ≡ none
          → (b : Bool) → has_feed db.feeds feed ≡ b
          → IsWellFormed (add_item hash_string feed it now db).1
      inner e true e' = rw e' (
          add_item_row-IsWellFormed db h
            (new_item hash_string (next_id (item_ids db.items)) feed it now) refl e e')
      inner e false e' = rw (e', add_item) h

      go :
          (o : Option ItemRow)
          → find_row (with_key feed it.key) db.items ≡ o
          → IsWellFormed (insert_item hash_string feed it now db).1
      go none e = rw (e, insert_item) (inner e (has_feed db.feeds feed) refl)
      go (some r) e = rw (e, insert_item) h
