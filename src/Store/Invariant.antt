-- ===== src/Store/Invariant.antt =====
-- The constraints of the schema (PRIMARY KEY, UNIQUE, REFERENCES) as an invariant of the tables.
use fcfeeds.Prelude.{
  ℕ, suc, ◌<◌, max, ◌≡◌, refl, ap, ◌≢◌, inl, inr, Bool, true, none, some, List, [], ◌∷◌, ◌++◌,
  arith, keep, modify, find_row, All, All-mono, Unique, Bool-cases,
}
use fcfeeds.Text.{Text, text_eq_iff}
use fcfeeds.Store.Rows.{FeedRow, StateRow, ItemRow, Db}
use fcfeeds.Store.Feeds.{next_id, feed_ids, with_url, of_feed, has_feed}
use fcfeeds.Store.Items.{item_ids, with_key}

abbrev pub item_key : ItemRow → ℕ × Text
item_key i = (i.feed_id, i.item_key)

pub record IsWellFormed (db : Db) : Type 0 where
  pub feed_ids : Unique (λ r. r.id) db.feeds
  pub feed_urls : Unique (λ r. r.url) db.feeds
  pub state_ids : Unique (λ s. s.feed_id) db.states
  pub state_feeds : All (λ s. has_feed db.feeds s.feed_id ≡ true) db.states
  pub item_ids : Unique (λ i. i.id) db.items
  pub item_keys : Unique item_key db.items
  pub item_feeds : All (λ i. has_feed db.feeds i.feed_id ≡ true) db.items

-- the rowid of a new row is in no old row
feed_id-lt-next : (rs : List FeedRow) → All (λ r. r.id < next_id (feed_ids rs)) rs
unfolding next_id feed_ids
feed_id-lt-next [] = tt
feed_id-lt-next (r ∷ rs) = (
  omega arith,
  All-mono (λ s. s.id < next_id (feed_ids rs)) (λ s. s.id < max (suc r.id) (next_id (feed_ids rs)))
      rs (λ s h. omega arith) (feed_id-lt-next rs),
)

item_id-lt-next : (rs : List ItemRow) → All (λ r. r.id < next_id (item_ids rs)) rs
unfolding next_id item_ids
item_id-lt-next [] = tt
item_id-lt-next (r ∷ rs) = (
  omega arith,
  All-mono (λ s. s.id < next_id (item_ids rs)) (λ s. s.id < max (suc r.id) (next_id (item_ids rs)))
      rs (λ s h. omega arith) (item_id-lt-next rs),
)

pub feed_id-ne-next : (rs : List FeedRow) → All (λ r. r.id ≢ next_id (feed_ids rs)) rs
feed_id-ne-next rs =
    All-mono (λ r. r.id < next_id (feed_ids rs)) (λ r. r.id ≢ next_id (feed_ids rs)) rs
      (λ r h e. omega arith) (feed_id-lt-next rs)

pub item_id-ne-next : (rs : List ItemRow) → All (λ r. r.id ≢ next_id (item_ids rs)) rs
item_id-ne-next rs =
    All-mono (λ r. r.id < next_id (item_ids rs)) (λ r. r.id ≢ next_id (item_ids rs)) rs
      (λ r h e. omega arith) (item_id-lt-next rs)

-- a row that a search does not find is not there
pub url-ne_of_none :
    (u : Text) (rs : List FeedRow) → find_row (with_url u) rs ≡ none → All (λ r. r.url ≢ u) rs
unfolding find_row
url-ne_of_none u [] h = tt
url-ne_of_none u (r ∷ rs) h =
    (λ e. ground (arith, text_eq_iff r.url u), url-ne_of_none u rs (ground arith))

pub state-ne_of_none :
    (i : ℕ) (ss : List StateRow) → find_row (of_feed i) ss ≡ none → All (λ s. s.feed_id ≢ i) ss
unfolding find_row
state-ne_of_none i [] h = tt
state-ne_of_none i (s ∷ ss) h = (λ e. ground arith, state-ne_of_none i ss (ground arith))

pub key-ne_of_none :
    (feed : ℕ) (k : Text) (rs : List ItemRow)
    → find_row (with_key feed k) rs ≡ none
    → All (λ r. item_key r ≢ (feed, k)) rs
unfolding find_row
key-ne_of_none feed k [] h = tt
key-ne_of_none feed k (r ∷ rs) h = (
  λ e. ground (arith, text_eq_iff r.item_key k, ap (λ p. p.0) e, ap (λ p. p.1) e),
  key-ne_of_none feed k rs (ground arith),
)

pub has_feed-append :
    (rs : List FeedRow) (r : FeedRow) (i : ℕ)
    → has_feed rs i ≡ true
    → has_feed (rs ++ r ∷ []) i ≡ true
unfolding find_row
has_feed-append [] r i h = cc
has_feed-append (s ∷ rs) r i h = ground (arith, has_feed-append rs r i)

pub has_feed-modify :
    (p : FeedRow → Bool) (f : FeedRow → FeedRow) (rs : List FeedRow) (i : ℕ)
    → ((r : FeedRow) → (f r).id ≡ r.id)
    → has_feed (modify p f rs) i ≡ has_feed rs i
unfolding find_row modify
has_feed-modify p f [] i same = refl
has_feed-modify p f (r ∷ rs) i same = ground (arith, same r, has_feed-modify p f rs i same)

pub has_feed_of_some :
    (p : FeedRow → Bool) (rs : List FeedRow) (r : FeedRow)
    → find_row p rs ≡ some r
    → has_feed rs r.id ≡ true
unfolding find_row
has_feed_of_some p [] r h = cc
has_feed_of_some p (s ∷ rs) r h = ground (arith, has_feed_of_some p rs r)

-- what a filter on `has_feed` keeps refers to a feed
pub All-keep_has :
    {R : Type 0} (feeds : List FeedRow) (f : R → ℕ) (rows : List R)
    → All (λ r. has_feed feeds (f r) ≡ true) (keep (λ r. has_feed feeds (f r)) rows)
unfolding keep
All-keep_has feeds f [] = tt
All-keep_has feeds f (r ∷ rs) = elim (Bool-cases (has_feed feeds (f r))) [
  | inl e ↦ rw e (e, All-keep_has feeds f rs)
  | inr e ↦ rw e (All-keep_has feeds f rs)
]
