-- ===== src/Api/Served.antt =====
-- What getFeed answers.
use fcfeeds.Prelude.{◌≡◌, ◌⊎◌, true, false, Option, none, some, List, [], ◌∷◌}
use fcfeeds.Prelude.Int.{ℤ}
use fcfeeds.Text.{Text, is_empty}
use fcfeeds.Time.{Time}
use fcfeeds.Store.Rows.{Db, Feed, FetchState, Item}
use fcfeeds.Store.Conn.{Conn, Exec}
use fcfeeds.Store.Timeline.{Shows}
use fcfeeds.Fetch.Types.{Validators, Got}
use fcfeeds.Parse.Types.{ParsedFeed}
use fcfeeds.Poll.Schedule.{Config}
use fcfeeds.Api.Handlers.{
  Options, Answer, Client, Writer, Page, could_not, page, page_reply, feed_checked, get_feed,
}

module _ (w : Writer) (o : Options) (hash_string : Text → Text) (get : Text → Validators → Got)
    (parse : Text → Text → Time → Text ⊎ ParsedFeed) (jitter : ℤ → ℤ) (cfg : Config) where
  -- A page shows the feed with this URL, its state, and items as the tables have them.
  abbrev pub PageShows : Text → Db → Page → Type 0
  PageShows raw db (could_not t) = Unit
  PageShows raw db (page f st its) =
      (f.url ≡ raw) × (st.feed_id ≡ f.id) × Shows (f.id ∷ []) none o.max_limit db its

  -- getFeed itself, as a computation on the store.
  abbrev pub handler :
      (Text → Option Text) → Client → Text → Time → Time → Time → Time → Time → Exec Answer
  handler = get_feed w o hash_string get parse jitter cfg

  module _ (check : Text → Option Text) (client : Client) (raw : Text)
      (now at start fetch_at finish : Time) (conn : Conn) (a : Answer) where
    -- The page that is answered, and what it shows of the tables.
    abbrev pub Paged : Db → Type 0
    Paged db =
        (f : Feed) × (st : FetchState) × (its : List Item) × (a
          ≡ page_reply w o client now f st its)
        × PageShows raw db (page f st its)

    -- A URL that is missing, or that the guard refuses.
    abbrev pub Refused : Type 0
    Refused = (is_empty raw ≡ true) ⊎ ((msg : Text) × (check raw ≡ some msg))

    -- What an answer says: a refusal changes nothing, and otherwise there is an error or a page.
    abbrev pub Answers : Exec Answer → Type 0
    Answers m =
        (Refused × (a.0.status ≡ 400) × ((m conn).1 ≡ conn))
        ⊎ ((is_empty raw ≡ false)
            × (check raw ≡ none)
            × (((a.0.status ≡ 500) ⊎ (a.0.status ≡ 502)) ⊎ Paged (m conn).1.db))

    answered : Exec Answer
    answered =
        feed_checked w o hash_string get parse jitter cfg check client raw now at start fetch_at
          finish none
