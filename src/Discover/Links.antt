-- ===== src/Discover/Links.antt =====
-- declaredFeeds in internal/discover/discover.go. golang.org/x/net/html gives the document's tree,
-- or its error; net/url resolves a link against the page.
use fcfeeds.Prelude.{Bool, not, ◌&&◌, Option, none, some, List, [], ◌∷◌, ◌++◌, ◌==◌, if◌then◌else◌}
use fcfeeds.Text.{Text, codes, text_eq, is_empty, contains, has_text}
use fcfeeds.Parse.Library.{Library, UrlParts}

pub record Attr : Type 0 where
  pub key : Text
  pub val : Text

-- html.Node: an element with its name and attributes, or any other node, and the children in order
mutual
  pub data Node : Type 0 where
    element : Text → List Attr → Nodes → Node
    other : Nodes → Node

  pub data Nodes : Type 0 where
    nil : Nodes
    cons : Node → Nodes → Nodes

-- rel, typ and href
pub record Link : Type 0 where
  pub rel : Text
  pub typ : Text
  pub href : Text

abbrev pub feed_types : List Text
feed_types =
    codes "application/rss+xml"
    ∷ codes "application/atom+xml"
    ∷ codes "application/feed+json"
    ∷ codes "application/json"
    ∷ codes "application/xml"
    ∷ codes "text/xml"
    ∷ []

-- strings.Split(s, ";")[0]
abbrev before_semicolon : Text → Text
before_semicolon [] = []
before_semicolon (c ∷ s) = let rest = before_semicolon s in if c == b';' then [] else c ∷ rest

abbrev pub no_link : Link
no_link = record { rel = []; typ = []; href = [] }

module _ (lib : Library) where
  -- the switch over an attribute's key
  abbrev with_attr : Attr → Link → Link
  with_attr a l =
      if text_eq (lib.to_lower a.key) (codes "rel")
      then record l { rel = lib.to_lower a.val }
      else if text_eq (lib.to_lower a.key) (codes "type")
      then record l { typ = lib.to_lower (lib.trim (before_semicolon a.val)) }
      else if text_eq (lib.to_lower a.key) (codes "href")
      then record l { href = lib.trim a.val }
      else l

  -- for _, a := range n.Attr { ... }
  unfoldable pub read_attrs : List Attr → Link → Link
  read_attrs [] l = l
  read_attrs (a ∷ as_) l = read_attrs as_ (with_attr a l)

  abbrev pub is_declared : Link → Bool
  is_declared l =
      (contains l.rel (codes "alternate") && has_text feed_types l.typ) && not (is_empty l.href)

  abbrev pub resolved_href : UrlParts → Option UrlParts → List Text
  resolved_href base none = []
  resolved_href base (some ref) = lib.print_url (lib.resolve base ref) ∷ []

  -- the URL that a node declares, if it declares one
  unfoldable pub declared_by : UrlParts → Text → List Attr → List Text
  unfolding read_attrs
  declared_by base tag attrs =
      let l = read_attrs attrs no_link in
      if text_eq tag (codes "link") && is_declared l
      then resolved_href base (lib.parse_url l.href)
      else []

  -- walk, with `out` passed along
  unfoldable mutual
    unfolding declared_by

    pub walk : UrlParts → Node → List Text → List Text
    walk base (element tag attrs children) out =
        walk_children base children (out ++ declared_by base tag attrs)
    walk base (other children) out = walk_children base children out

    pub walk_children : UrlParts → Nodes → List Text → List Text
    walk_children base nil out = out
    walk_children base (cons n ns) out = walk_children base ns (walk base n out)

  abbrev pub walked : UrlParts → Option Node → List Text
  walked base none = []
  walked base (some doc) = walk base doc []

  unfoldable pub declared_feeds : (Text → Option Node) → Text → UrlParts → List Text
  unfolding walk
  declared_feeds parse_html body base = walked base (parse_html body)
