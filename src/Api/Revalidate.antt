-- ===== src/Api/Revalidate.antt =====
-- The ETag of a feed and the requests that carry it.
use fcfeeds.Prelude.{
  ◌≡◌, refl, sym, subst, ap, ◌∙◌, ◌⊎◌, inl, inr, true, false, ◌&&◌, List, [], ◌∷◌, ◌++◌, arith, ltb,
  length, Bool-cases, if◌then◌else◌, In, In-append_left, In-append_right,
}
use fcfeeds.Text.{Text, codes, has_prefix, contains}
use fcfeeds.Time.{Time}
use fcfeeds.Store.Rows.{Feed, FetchState, Item}
use fcfeeds.Store.Conn.{ok}
use fcfeeds.Api.Query.{Timeline, is_stale}
use fcfeeds.Api.Response.{
  JsonFeed, without_time, Reply, Headers, no_body, cached, feed_type, zipped_headers, weak_etag,
  marshalled, write_bytes, write_feed,
}
use fcfeeds.Api.Handlers.{
  Options, Client, Writer, feed_json, page_reply, items_json, items_reply, stale_header,
  fetched_header, is_any,
}

has_prefix_self : (s t : Text) → has_prefix (s ++ t) s ≡ true
unfolding has_prefix
has_prefix_self [] [] = refl
has_prefix_self [] (c ∷ t) = refl
has_prefix_self (c ∷ s) t = ground (arith, has_prefix_self s t)

append_nil : (s : Text) → s ++ [] ≡ s
append_nil [] = refl
append_nil (c ∷ s) = ap (λ r. c ∷ r) (append_nil s)

contains_self : (s : Text) → contains s s ≡ true
unfolding contains has_prefix
contains_self [] = refl
contains_self (c ∷ s) =
    let e : has_prefix (c ∷ s) (c ∷ s) ≡ true =
      subst (λ x. has_prefix x (c ∷ s) ≡ true) (append_nil (c ∷ s)) (has_prefix_self (c ∷ s) []) in
    ground (arith, e)

-- One feed up to the time at which it was generated.
abbrev pub SameFeed : JsonFeed → JsonFeed → Type 0
SameFeed f g = record f { ext = without_time f.ext } ≡ record g { ext = without_time g.ext }

module _ (marshal : JsonFeed → Text ⊎ Text) (digest gzip : Text → Text) where
  weak_etag_same :
      (f g : JsonFeed)
      → SameFeed f g
      → weak_etag marshal digest gzip f ≡ weak_etag marshal digest gzip g
  unfolding weak_etag
  weak_etag_same f g h = ap (λ x. codes "W/\"" ++ digest (marshalled (marshal x)) ++ codes "\"") h

  etag_sent :
      (headers : Headers) (inm ae etag body : Text)
      → In (codes "ETag", etag) (write_bytes marshal digest gzip headers inm ae etag body).headers
  etag_sent headers inm ae etag body =
      let tagged =
        In-append_right (codes "ETag", etag) headers
          ((codes "ETag", etag) ∷ (codes "Cache-Control", codes "public, max-age=60") ∷ [])
          (inl refl) in
      let h = cached marshal digest gzip headers etag in
      let typed = feed_type marshal digest gzip in
      let more = In-append_left (codes "ETag", etag) h typed tagged in
      unfold write_bytes in
      elim (Bool-cases (contains inm etag)) [
        | inl e ↦ rw e tagged
        | inr e ↦ elim (Bool-cases (ltb 256 (length body) && contains ae (codes "gzip"))) [
          | inl q ↦
              rw (e, q)
                (In-append_left (codes "ETag", etag) (h ++ typed)
                  (zipped_headers marshal digest gzip) more)
          | inr q ↦ rw (e, q) more
        ]
      ]

  not_modified :
      (headers : Headers) (inm ae etag body : Text)
      → contains inm etag ≡ true
      → ((write_bytes marshal digest gzip headers inm ae etag body).status ≡ 304)
        × ((write_bytes marshal digest gzip headers inm ae etag body).body ≡ no_body)
  not_modified headers inm ae etag body h = unfold write_bytes in rw h (refl, refl)

  modified :
      (headers : Headers) (inm ae etag body : Text)
      → contains inm etag ≡ false
      → (write_bytes marshal digest gzip headers inm ae etag body).status ≡ 200
  modified headers inm ae etag body h =
      unfold write_bytes in
      elim (Bool-cases (ltb 256 (length body) && contains ae (codes "gzip"))) [
        | inl q ↦ rw (h, q) refl
        | inr q ↦ rw (h, q) refl
      ]

  write_feed_bytes :
      (headers : Headers) (inm ae : Text) (f : JsonFeed) (body : Text)
      → marshal f ≡ inr body
      → write_feed marshal digest gzip headers inm ae f
        ≡ write_bytes marshal digest gzip headers inm ae (weak_etag marshal digest gzip f) body
  write_feed_bytes headers inm ae f body h = unfold write_feed in rw h refl

  -- The answer to `f`, and a later request for `g`.
  abbrev pub Revalidates : Reply → JsonFeed → Type 0
  Revalidates first g =
      (etag : Text) × In (codes "ETag", etag) first.headers
      × ((headers : Headers) (inm ae : Text)
          → ((contains inm etag ≡ true)
              → ((write_feed marshal digest gzip headers inm ae g).status ≡ 304)
                × ((write_feed marshal digest gzip headers inm ae g).body ≡ no_body))
            × ((contains inm etag ≡ false)
                → (write_feed marshal digest gzip headers inm ae g).status ≡ 200))
      × (contains etag etag ≡ true)

  write_feed-Revalidates :
      (f g : JsonFeed) (body later : Text)
      → marshal f ≡ inr body
      → marshal g ≡ inr later
      → SameFeed f g
      → (headers : Headers) (inm ae : Text)
      → Revalidates (write_feed marshal digest gzip headers inm ae f) g
  write_feed-Revalidates f g body later mf mg same headers inm ae =
      let etag = weak_etag marshal digest gzip f in
      let tags = weak_etag_same f g same in
      (
        etag,
        subst (λ r. In (codes "ETag", etag) r.headers)
            (sym (write_feed_bytes headers inm ae f body mf)) (etag_sent headers inm ae etag body),
        λ h i a.
            let whole : write_feed marshal digest gzip h i a g
                ≡ write_bytes marshal digest gzip h i a etag later =
              write_feed_bytes h i a g later mg
              ∙ ap (λ e. write_bytes marshal digest gzip h i a e later) (sym tags) in
            (
              λ k.
                  let (s, b) = not_modified h i a etag later k in
                  (ap (λ (r : Reply). r.status) whole ∙ s, ap (λ (r : Reply). r.body) whole ∙ b),
              λ k. ap (λ (r : Reply). r.status) whole ∙ modified h i a etag later k,
            ),
        contains_self etag,
      )

module _ (w : Writer) (o : Options) where
  -- The answer of getFeed or of getItems carries an ETag, and a later request finds the same feed,
  -- state and headlines, or the same timeline, at whatever time: where its If-None-Match contains
  -- this ETag, as the ETag itself does, it gets 304 and no body, and otherwise 200; where both
  -- responses can be written as JSON.
  pub answers_revalidate :
      (c : Client) (now later : Time) (feed : Feed) (st : FetchState) (its : List Item)
      (t : Timeline) (b1 b2 b3 b4 : Text)
      → w.marshal (feed_json w o now feed st its) ≡ inr b1
      → w.marshal (feed_json w o later feed st its) ≡ inr b2
      → w.marshal (items_json w o now t) ≡ inr b3
      → w.marshal (items_json w o later t) ≡ inr b4
      → Revalidates w.marshal w.digest w.gzip
          (page_reply w o c now feed st its).0
          (feed_json w o later feed st its)
        × Revalidates w.marshal w.digest w.gzip
            (items_reply w o c now (ok t)).0
            (items_json w o later t)
  answers_revalidate c now later feed st its t b1 b2 b3 b4 m1 m2 m3 m4 = (
    unfold page_reply feed_json in
        write_feed-Revalidates w.marshal w.digest w.gzip (feed_json w o now feed st its)
          (feed_json w o later feed st its) b1 b2 m1 m2 refl
          ((if is_stale st then stale_header w o else []) ++ fetched_header w o st.last_ok_at)
          c.if_none_match c.accept_encoding,
    unfold items_reply items_json in
        write_feed-Revalidates w.marshal w.digest w.gzip (items_json w o now t)
          (items_json w o later t) b3 b4 m3 m4 refl
          (if is_any w o t.stale then stale_header w o else []) c.if_none_match c.accept_encoding,
  )
