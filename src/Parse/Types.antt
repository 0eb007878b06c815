-- ===== src/Parse/Types.antt =====
-- internal/parse/types.go
use fcfeeds.Prelude.{Bool, List}
use fcfeeds.Prelude.Int.{ℤ}
use fcfeeds.Text.{Text}
use fcfeeds.Time.{Time}

pub data Kind : Type 0 where
  kind_rss : Kind
  kind_atom : Kind
  kind_json : Kind

pub record ParsedItem : Type 0 where
  pub key : Text
  pub url : Text
  pub canonical_url : Text
  pub title : Text
  pub published : Time
  pub date_estimated : Bool
  pub source : Text
  pub source_url : Text
  pub image : Text
  pub authors : List Text

pub record ParsedFeed : Type 0 where
  pub kind : Kind
  pub title : Text
  pub site_url : Text
  pub ttl : ℤ
  pub items : List ParsedItem
