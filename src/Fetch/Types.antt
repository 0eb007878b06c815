-- ===== src/Fetch/Types.antt =====
-- The data of internal/fetch/client.go.
use fcfeeds.Prelude.{ℕ, Bool}
use fcfeeds.Prelude.Int.{ℤ}
use fcfeeds.Text.{Text}

pub record Validators : Type 0 where
  pub etag : Text
  pub last_modified : Text

pub record FetchResult : Type 0 where
  pub status : ℕ
  pub body : Text
  pub etag : Text
  pub last_modified : Text
  pub content_type : Text
  pub retry_after : ℤ
  pub not_modified : Bool
  pub final_url : Text

-- An error of the client with its message; errors.Is tells the first two from the others.
pub data FetchError : Type 0 where
  blocked : Text → FetchError  -- ErrBlocked
  too_large : Text → FetchError  -- ErrTooLarge
  failed : Text → FetchError

pub data Got : Type 0 where
  got : FetchResult → Got
  refused : FetchError → Got
