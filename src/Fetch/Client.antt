-- ===== src/Fetch/Client.antt =====
-- Get of internal/fetch/client.go, with the redirects that http.Client follows under CheckRedirect.
-- The network answers a request with a response, a redirect or an error; that, the URL's parser and
-- printer and the readers of numbers and dates are parameters.
use fcfeeds.Prelude.{
  ℕ, zero, suc, ◌+◌, ◌-◌, ◌*◌, ◌%◌, ◌^◌, Bool, true, false, not, ◌&&◌, Option, none, some, List, [],
  ◌∷◌, ◌++◌, ◌⊎◌, inl, inr, min, ltb, leb, ◌==◌, if◌then◌else◌, length, take,
}
use fcfeeds.Prelude.Int.{ℤ, pos, negsuc, to_int64}
use fcfeeds.Text.{Text, text_eq, is_empty}
use fcfeeds.Time.{Time, second}
use fcfeeds.Fetch.Types.{FetchResult}
use fcfeeds.Fetch.Address.{Ip}
use fcfeeds.Fetch.Guard.{Url, Refusal, Guard, https, check_url}

pub record Options : Type 0 where
  pub max_body : ℕ
  pub max_redirects : ℕ

abbrev or_default : ℕ → ℕ → ℕ
or_default n other = if n == 0 then other else n

-- NewClient: the options that are 0 get their defaults
abbrev pub client_options : Options → Options
client_options o = record {
  max_body = or_default o.max_body (5 * 2 ^ 20);
  max_redirects = or_default o.max_redirects 5;
}

-- resp, as far as Get reads it; the body is what the server sends
pub record Response : Type 0 where
  pub status : ℕ
  pub body : Text
  pub etag : Text
  pub last_modified : Text
  pub content_type : Text
  pub retry_after : Text

pub data Reply : Type 0 where
  answered : Response → Reply
  redirect : Url → Reply
  lost : Text → Reply

-- The errors of Get.
pub data GetError : Type 0 where
  guarded : Refusal → GetError
  stopped : GetError  -- after MaxRedirects redirects
  downgraded : GetError
  no_response : Text → GetError
  body_too_large : GetError

abbrev pub scheme_of : List Url → Text → Text
scheme_of [] other = other
scheme_of (u ∷ us) other = u.scheme

-- time.Duration(secs) * time.Second, in int64
abbrev pub seconds_of : ℕ → ℤ
seconds_of secs = to_int64 ((secs * second) % 2 ^ 64)

-- d := t.Sub(now), which stops at the largest duration; d > 0
abbrev pub until_date : Time → Option Time → ℤ
until_date now none = pos 0
until_date now (some t) = pos (min (t - now) (2 ^ 63 - 1))

abbrev pub delay : Text → Time → Option ℤ → Option Time → ℤ
delay v now (some (pos secs)) date = seconds_of secs
delay v now (some (negsuc n)) date = until_date now date
delay v now none date = until_date now date

-- `v` is trimmed already; `atoi` is strconv.Atoi, `http_time` is http.ParseTime.
unfoldable pub parse_retry_after : (Text → Option ℤ) → (Text → Option Time) → Text → Time → ℤ
parse_retry_after atoi http_time v now =
    if is_empty v then pos 0 else delay v now (atoi v) (http_time v)

module _ (parse_ip : Text → Option Ip) (to_lower : Text → Text) (g : Guard)
    (parse_url : Text → Option Url) (print_url : Url → Text) (send : Url → Reply)
    (o : Options) where
  -- `o` is what NewClient is given.
  abbrev pub refused_by : Refusal ⊎ Url → Option GetError
  refused_by (inl r) = some (guarded r)
  refused_by (inr u) = none

  -- CheckRedirect, with the requests so far, oldest first
  unfoldable pub check_redirect : List Url → Url → Option GetError
  unfolding check_url text_eq
  check_redirect via u =
      if leb (client_options o).max_redirects (length via)
      then some stopped
      else if text_eq (scheme_of via []) https && not (text_eq u.scheme https)
      then some downgraded
      else refused_by (check_url parse_ip to_lower g parse_url (print_url u))

  -- http.Client's loop: the outcome and the requests that were sent, oldest first.
  unfoldable pub follow : ℕ → List Url → Url → Option (GetError ⊎ (Response × Url)) × List Url
  unfolding check_redirect
  follow zero via u = (none, via)
  follow (suc fuel) via u =
      let sent = via ++ u ∷ [] in
      elim (send u) [
        | answered r ↦ (some (inr (r, u)), sent)
        | lost msg ↦ (some (inl (no_response msg)), sent)
        | redirect v ↦ elim (check_redirect sent v) [
          | some e ↦ (some (inl e), sent)
          | none ↦ follow fuel sent v
        ]
      ]

  module _ (retry_after : Text → ℤ) where
    abbrev pub result_of : Response → Url → Text → Bool → FetchResult
    result_of r u body not_modified = record {
      status = r.status;
      body = body;
      etag = r.etag;
      last_modified = r.last_modified;
      content_type = r.content_type;
      retry_after = retry_after r.retry_after;
      not_modified = not_modified;
      final_url = print_url u;
    }

    -- after http.Do; the body is read up to MaxBody + 1 bytes
    unfoldable pub read_response : Response → Url → GetError ⊎ FetchResult
    read_response r u =
        if r.status == 304
        then inr (result_of r u [] true)
        else let body = take ((client_options o).max_body + 1) r.body in
          if ltb (client_options o).max_body (length body)
          then inl body_too_large
          else inr (result_of r u body false)

    abbrev pub finish : Option (GetError ⊎ (Response × Url)) → Option (GetError ⊎ FetchResult)
    finish none = none
    finish (some (inl e)) = some (inl e)
    finish (some (inr (r, u))) = some (read_response r u)

    abbrev pub get_checked : Refusal ⊎ Url → Option (GetError ⊎ FetchResult) × List Url
    get_checked (inl r) = (some (inl (guarded r)), [])
    get_checked (inr u) =
        let (r, sent) = follow ((client_options o).max_redirects + 1) [] u in (finish r, sent)

    -- Get: its outcome, and the requests that were sent.
    unfoldable pub get : Text → Option (GetError ⊎ FetchResult) × List Url
    unfolding check_url follow read_response
    get raw = get_checked (check_url parse_ip to_lower g parse_url raw)
