-- ===== src/Api/Lookups.antt =====
-- What the lookups of a feed and of its state answer.
use fcfeeds.Prelude.{
  ℕ, ◌≡◌, refl, sym, ap, ◌∙◌, Bool, Option, none, some, arith, find_row, find_row-some,
}
use fcfeeds.Text.{Text, text_eq_iff}
use fcfeeds.Time.{Time, unix}
use fcfeeds.Store.Rows.{Db, Feed, FeedRow, FetchState, StateRow, scan_feed, scan_state}
use fcfeeds.Store.Conn.{Exec}
use fcfeeds.Store.Feeds.{with_url, of_feed, feed_by_url, ensure_feed}
use fcfeeds.Store.Claims.{fetch_state}
use fcfeeds.Store.Success.{Ensures, Ensures-mono, Ensures-query_row}
use fcfeeds.Store.Ensure.{ensure_feed-Ensures}
use fcfeeds.Api.Reading.{ensured_url}

pub feed_by_url-Ensures :
    (u : Text) → Ensures (λ db f db'. (f.url ≡ u) × (db' ≡ db)) (feed_by_url u)
unfolding feed_by_url scan_feed
feed_by_url-Ensures u =
    Ensures-mono (λ db f db' (e, d). (read db (find_row (with_url u) db.feeds) refl f e, d))
      (Ensures-query_row
        (λ db. elim (find_row (with_url u) db.feeds) [ none ↦ none | some r ↦ some (scan_feed r) ]))
  where
    read :
        (db : Db) (o : Option FeedRow)
        → find_row (with_url u) db.feeds ≡ o
        → (f : Feed)
        → elim o as (λ _. Option Feed) [ none ↦ none | some r ↦ some (scan_feed r) ] ≡ some f
        → f.url ≡ u
    read db none p f e = ground (arith, e)
    read db (some r) p f e =
        let same : (scan_feed r).url ≡ f.url = ground (arith, e) in
        sym same ∙ (text_eq_iff r.url u).0 (find_row-some (with_url u) db.feeds r p).1

pub fetch_state-Ensures :
    (i : ℕ) → Ensures (λ db st db'. (st.feed_id ≡ i) × (db' ≡ db)) (fetch_state i)
unfolding fetch_state scan_state
fetch_state-Ensures i =
    Ensures-mono (λ db st db' (e, d). (read db (find_row (of_feed i) db.states) refl st e, d))
      (Ensures-query_row (λ db. elim (find_row (of_feed i) db.states) [
        | none ↦ none
        | some s ↦ some (scan_state s)
      ]))
  where
    read :
        (db : Db) (o : Option StateRow)
        → find_row (of_feed i) db.states ≡ o
        → (st : FetchState)
        → elim o as (λ _. Option FetchState) [ none ↦ none | some s ↦ some (scan_state s) ]
          ≡ some st
        → st.feed_id ≡ i
    read db none p st e = ground (arith, e)
    read db (some s) p st e =
        let same : s.feed_id ≡ st.feed_id = ground (arith, e) in
        ground (arith, same, find_row-some (of_feed i) db.states s p)

pub ensure_feed_url :
    (u : Text) (now : Time) → Ensures (λ db p db'. p.0.url ≡ u) (ensure_feed u now)
ensure_feed_url u now =
    Ensures-mono
      (λ db p db' (before, (was, _, same, _)).
        ap (λ (q : Feed × Bool). q.0.url) same ∙ ensured_url u (unix now) db.feeds before was)
      (ensure_feed-Ensures u now)

-- nothing is said of `m`
pub anything : {A : Type 0} (m : Exec A) → Ensures (λ db a db'. Unit) m
anything m = record { at = λ c a h. tt }
