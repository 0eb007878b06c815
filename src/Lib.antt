-- ===== src/Lib.antt =====
-- FCFeeds: the core of the feed aggregator, as executable definitions with theorems.
--
-- The program polls RSS, Atom and JSON feeds that clients ask for, keeps their headlines in SQLite
-- and serves merged timelines. Its parts: the store (internal/store) keeps feeds, one fetch state
-- for each and headlines; the poller (internal/poll) claims the feeds that are due, fetches them
-- through the guarded client (internal/fetch), parses them (internal/parse), records the outcome
-- in the store and sets the next poll; the API (internal/api) registers feeds, lists headlines,
-- removes duplicates and answers with JSON Feeds. Beside these, discovery (internal/discover)
-- finds the feeds of a site, metrics (internal/metrics) count what happens, and the configuration
-- (internal/config) is read from the environment.
--
-- Prelude, with Tests, Lists, Rows, Sort, Count and Int, holds the shared names: Boolean tests,
-- lists, tables of rows, stable sorting, and int64 with its wrap-around. Text is Go's string as
-- its bytes. Time is an instant or a duration in nanoseconds, and its Unix seconds.
--
-- Store models internal/store. Store.Rows: the tables of schema.go as lists of rows, and the
-- structs that they are scanned into. Store.Conn: a connection is the tables and a list of faults
-- that the environment chooses; each SQL statement may fail and then changes nothing, BEGIN and
-- COMMIT are statements too, and a transaction that returns an error is rolled back. Store.Feeds:
-- EnsureFeed, EnsureFeeds, FeedByURL, EvictFeeds, Stats. Store.Claims: ClaimDue, ClaimFeed,
-- RecordFetchOK, RecordFetchError, FetchState, FetchStates. Store.Items: UpsertItems, ListItems,
-- PruneItems. The other modules below Store are its theorems: Keeps, Success and Runs are rules
-- for what an action keeps, for what its success says, and for its success without faults;
-- Invariant, Preserve, Lift and Calls are the constraints of the schema; Claimed, Lease and Batch
-- are claims; Upsert, Timeline and Retention are headlines; Atomic, Outcomes, Ensure and Orphan
-- are outcomes and registration.
--
-- Poll models internal/poll. Poll.Schedule: config.go; its loops are structural in the number of
-- doublings. Poll.Fetch: fetchOne, recordError, FetchOne and FetchNow of poller.go as actions on
-- the store's connection; their time is that of the statements, since the clock's readings are
-- arguments. Poll.Run: Run and evict as the sequence of what the tickers set off. Poll.HostLimit:
-- hostlimit.go, with its concurrent callers as a step relation; Poll.HostSlots,
-- Poll.HostInvariant, Poll.HostSteps and Poll.HostSpacing are its theorems. Poll.Bounds,
-- Poll.Steps, Poll.Reschedules, Poll.Spares and Poll.Ticks are theorems on the rest.
--
-- Fetch models internal/fetch. Fetch.Address: IsPublicIP of ssrf.go. Fetch.Guard: CheckURL,
-- vetHost and DialContext. Fetch.Types: the data of client.go. Fetch.Client: Get, with the
-- redirects that http.Client follows under CheckRedirect, on fuel MaxRedirects + 1,
-- parseRetryAfter, and the defaults of NewClient for options that are 0. Fetch.Public,
-- Fetch.Vetted and Fetch.Requests are theorems. Parse models internal/parse. Parse.Types:
-- types.go. Parse.Runes: a string's runes, as UTF-8. Parse.Library: a record of what the package
-- calls in other packages (the XML and JSON decoders with the documents they fill, regexp, html,
-- net/url, time.Parse, SHA-256). Parse.Normalize: normalize.go. Parse.Fields and Parse.Documents:
-- rss.go, atom.go, jsonfeed.go and dates.go, from a decoded document to a feed. Parse.Detect:
-- detect.go and Parse. Parse.Normalized, Parse.Headlines, Parse.QueryValues and Parse.Canonical
-- are theorems.
--
-- Api models internal/api. Api.Dedupe: dedupe. Api.Query: splitFeeds, clamp, isStale and the data
-- of getItems. Api.Response: jsonfeed.go, weakETag, writeJSON and writeFeed. Api.Handlers: New,
-- instrument, getFeed with its cold fetch through the poller. Api.Requests: the reading of the
-- parameters of getItems and the handler around it, postDiscover and healthz. Api.Stories,
-- Api.Deduped, Api.Reading, Api.Answers, Api.Lookups, Api.Served, Api.Items and Api.Revalidate are
-- theorems.
--
-- Config.Load models internal/config/config.go, Config.Wiring the poller's configuration in
-- cmd/feeds/main.go; Config.Loads is the configuration that an environment asks for.
-- Discover.Links models declaredFeeds of internal/discover/discover.go, as a walk of a tree of
-- nodes, Discover.Search Discover and its probes; Discover.Found, Discover.Sites and
-- Discover.Results are theorems. Metrics.Registry models the counters of
-- internal/metrics/metrics.go, Metrics.Exposition what ServeHTTP writes; Metrics.Counts,
-- Metrics.Histogram and Metrics.Keys are theorems on any sequence of updates. The modules named
-- Tests, and Api.Samples, apply theorems to concrete data.
--
-- Bounds and fuel: two definitions run on fuel: the decimal digits of a number, whose fuel is the
-- number itself, one more; and the redirects of a Get, whose fuel is shown to be enough. Durations
-- that a publisher sends are int64 and wrap around; configured durations are not negative, and the
-- closed forms ask the caps to be below 2 ^ 62 nanoseconds, which is 146 years. Counters of the
-- metrics are taken modulo 2 ^ 64. Rowids are one more than the largest in the table; the LIMIT of
-- a query is not negative.
--
-- Parameters: the SHA-256 of a text, strings.ToLower and TrimSpace, url.Parse, net.ParseIP, the
-- resolver, the network, the client's answer, the decoders of documents, JSON encoding, gzip, the
-- environment, the parsers of numbers and durations, and the poller's jitter, which is floating
-- point and is relied on to stay within a tenth of the wait.
--
-- Not modelled: SQLite itself and the store's opening and migration; the poller's concurrency
-- beyond the host limiter; the client's headers and timeouts; the deadline of a cold fetch and the
-- cancellation of contexts; logging and the observers; the rounding of the histogram's sum, which
-- is exact here; the rest of cmd/feeds/main.go, which wires the parts together and runs the
-- server.
pub mod Prelude
pub mod Text
pub mod Time
pub mod Store
pub mod Fetch
pub mod Parse
pub mod Poll
pub mod Api
pub mod Config
pub mod Discover
pub mod Metrics
