-- ===== src/Safety/Introspect.antt =====
-- `first_sql_keyword`, `is_read_shaped`, `sqlglot_dialect_for_url`, `_catalog_names`,
-- `_cte_reference_ids` and `is_introspection_query` of src/sqllens/safety/readonly.py. The log lines
-- are left out.
pub mod Catalogs
pub mod Reads
use sqllens.Safety.Rls.{has_id}
use sqllens.Safety.Sqlglot.{l_paren, var, identifier, other_type}
use sqllens.Prelude.{
  ℕ, String, Bool, true, false, not, ◌&&◌, ◌||◌, Option, none, some, List, [], ◌∷◌, ◌++◌, str_eq,
  any, ◌==◌, if◌then◌else◌,
}
use sqllens.Prelude.Result.{Result, ok, err, ◌>>=◌, ◌>>◌}
use sqllens.Prelude.Dict.{Dict, lookup}
use sqllens.Safety.Sqlglot.{
  Token, Unicode, Sqlglot, TokenType, ParseFailure, l_paren, sql_error, other_error, var,
}
use sqllens.Safety.MysqlText.{Text}
use sqllens.Safety.Denylist.{contains}

-- _READ_SHAPED_KEYWORDS
abbrev pub read_shaped_keywords : List String
read_shaped_keywords = "SELECT" ∷ "WITH" ∷ "UNION" ∷ "INTERSECT" ∷ "EXCEPT" ∷ "SHOW" ∷ []

-- _SHARED_CATALOG_SCHEMAS
abbrev pub shared_catalog_schemas : List String
shared_catalog_schemas = "information_schema" ∷ []

-- the schemas and the name prefixes of a catalog
pub record Catalog : Type 0 where
  pub schemas : List String
  pub prefixes : List String

-- _CATALOGS_BY_DIALECT
abbrev pub catalogs_by_dialect : Dict Catalog
catalogs_by_dialect =
    ("postgres", record { schemas = "pg_catalog" ∷ []; prefixes = "pg_" ∷ [] })
    ∷ ("mysql", record { schemas = "mysql" ∷ "sys" ∷ "performance_schema" ∷ []; prefixes = [] })
    ∷ ("sqlite", record { schemas = []; prefixes = "sqlite_" ∷ "pragma_" ∷ [] })
    ∷ []

-- _ALL_CATALOG_SCHEMAS and _ALL_CATALOG_NAME_PREFIXES
unfoldable pub all_catalog_schemas : Dict Catalog → List String
all_catalog_schemas [] = shared_catalog_schemas
all_catalog_schemas ((dialect, c) ∷ rest) = c.schemas ++ all_catalog_schemas rest

unfoldable pub all_catalog_name_prefixes : Dict Catalog → List String
all_catalog_name_prefixes [] = []
all_catalog_name_prefixes ((dialect, c) ∷ rest) = c.prefixes ++ all_catalog_name_prefixes rest

unfoldable pub catalog_or_all : Option Catalog → Catalog
unfolding all_catalog_schemas all_catalog_name_prefixes
catalog_or_all none = record {
  schemas = all_catalog_schemas catalogs_by_dialect;
  prefixes = all_catalog_name_prefixes catalogs_by_dialect;
}
catalog_or_all (some c) = record c { schemas = shared_catalog_schemas ++ c.schemas }

-- `_catalog_names`
unfoldable pub catalog_names : Option String → Catalog
unfolding catalog_or_all lookup
catalog_names none = catalog_or_all none
catalog_names (some dialect) = catalog_or_all (lookup dialect catalogs_by_dialect)

-- A table node: `db` is "" where there is none, and `function_name` is the name of `table.this` if
-- that is an anonymous function.
pub record TableNode : Type 0 where
  pub id : ℕ
  pub has_db : Bool
  pub has_catalog : Bool
  pub db : String
  pub name : String
  pub function_name : Option String

pub record CteScope : Type 0 where
  pub tables : List TableNode
  pub cte_sources : List String

-- What the classifier uses of a parsed statement beyond `Sqlglot`. `normalize` gives the tree that
-- it leaves and whether it ended without an exception; `none` for `scopes` is an exception.
pub record TableSyntax (S : Sqlglot) : Type 0 where
  pub normalize : Option String → S.Node → S.Node × Bool
  pub scopes : S.Node → Option (List CteScope)
  pub find_tables : S.Node → List TableNode

unfoldable pub same_type : TokenType → TokenType → Bool
same_type l_paren l_paren = true
same_type var var = true
same_type identifier identifier = true
same_type (other_type a) (other_type b) = a == b
same_type _ _ = false

-- the ids of one scope's tables that are CTE references
unfoldable pub scope_references : List String → List TableNode → List ℕ
scope_references ctes [] = []
scope_references ctes (t ∷ ts) =
    let rest = scope_references ctes ts in
    if not t.has_db && not t.has_catalog && contains ctes t.name then t.id ∷ rest else rest

unfoldable pub all_references : List CteScope → List ℕ
unfolding scope_references
all_references [] = []
all_references (s ∷ ss) = scope_references s.cte_sources s.tables ++ all_references ss

module _ (S : Sqlglot) (U : Unicode) where
  open S use {Dialect, Node, get_dialect, no_dialect, tokenize, keyword, parse_one}
  open U use {lower, upper, starts_alpha, starts_with, before}

  unfoldable pub is_keyword : Dialect → String → TokenType → Option TokenType → Bool
  unfolding same_type
  is_keyword d t type none = false
  is_keyword d t type (some k) = (starts_alpha t || starts_with t "_") && same_type k type

  unfoldable pub first_word : Dialect → List Token → String
  unfolding is_keyword
  first_word d [] = ""
  first_word d (token ∷ tokens) =
      let skipped = first_word d tokens in
      let t = upper token.text in
      if same_type token.token_type l_paren
      then skipped
      else if same_type token.token_type var
      then t
      else if is_keyword d t token.token_type (keyword d t)
      then t
      else ""

  -- an unknown dialect is none
  unfoldable pub dialect_or_none : Option String → Dialect
  dialect_or_none none = no_dialect
  dialect_or_none (some name) = elim (get_dialect name) [ none ↦ no_dialect | some d ↦ d ]

  -- A tokenizer raises a TokenError, or an exception that propagates.
  unfoldable pub word_of : Dialect → Result ParseFailure (List Token) → Result ParseFailure String
  word_of d (ok tokens) = ok (first_word d tokens)
  word_of d (err sql_error) = ok ""
  word_of d (err other_error) = err other_error

  unfoldable pub first_sql_keyword : Text → Option String → Result ParseFailure String
  unfolding word_of dialect_or_none
  first_sql_keyword sql dialect = let d = dialect_or_none dialect in word_of d (tokenize d sql)

  unfoldable pub is_read_shaped : Text → Option String → Result ParseFailure Bool
  is_read_shaped sql dialect = do
    word ← first_sql_keyword sql dialect
    ok (contains read_shaped_keywords word)

  unfoldable pub starting_dialect : String → Dict Catalog → Option String
  starting_dialect scheme [] = none
  starting_dialect scheme ((dialect, c) ∷ rest) =
      let later = starting_dialect scheme rest in
      if starts_with scheme dialect then some dialect else later

  unfoldable pub sqlglot_dialect_for_url : String → Option String
  unfolding starting_dialect
  sqlglot_dialect_for_url url = starting_dialect (lower (before url "://")) catalogs_by_dialect

  -- the tests on a table that is no CTE reference
  unfoldable pub source_name : TableNode → Option String → String
  source_name t none = t.name
  source_name t (some f) = f

  unfoldable pub is_catalog_table : Catalog → TableNode → Bool
  unfolding source_name
  is_catalog_table c t =
      contains c.schemas (lower t.db)
      || any (starts_with (lower (source_name t t.function_name))) c.prefixes

  unfoldable pub any_catalog_table : Catalog → List ℕ → List TableNode → Bool
  any_catalog_table c ctes [] = false
  any_catalog_table c ctes (t ∷ ts) =
      let rest = any_catalog_table c ctes ts in
      if has_id ctes t.id then rest else if is_catalog_table c t then true else rest

  -- the dialect that the classifier goes on with
  unfoldable pub known_dialect : Option String → Option String
  known_dialect none = none
  known_dialect (some name) = elim (get_dialect name) [ none ↦ none | some d ↦ some name ]

  module _ (T : TableSyntax S) where
    open T use {normalize, scopes, find_tables}

    unfoldable pub references_of : Option (List CteScope) → List ℕ
    unfolding all_references
    references_of none = []
    references_of (some ss) = all_references ss

    -- The tree that normalization leaves, with the CTE references in it.
    unfoldable pub cte_reference_ids : Node → Option String → Node × List ℕ
    unfolding references_of
    cte_reference_ids tree dialect =
        let (normalized, ended) = normalize dialect tree in
        (normalized, if ended then references_of (scopes normalized) else [])

    unfoldable pub reads_catalog : Node → Option String → Bool
    unfolding cte_reference_ids
    reads_catalog tree dialect =
        let (normalized, ctes) = cte_reference_ids tree dialect in
        any_catalog_table (catalog_names dialect) ctes (find_tables normalized)

    unfoldable pub classify_parsed :
        Option String → Result ParseFailure (Option Node) → Result ParseFailure Bool
    unfolding reads_catalog
    classify_parsed dialect (ok none) = ok false
    classify_parsed dialect (ok (some tree)) = ok (reads_catalog tree dialect)
    classify_parsed dialect (err sql_error) = ok false
    classify_parsed dialect (err other_error) = err other_error

    unfoldable pub parse_known : Option String → Text → Result ParseFailure (Option Node)
    unfolding dialect_or_none
    parse_known dialect sql = parse_one (dialect_or_none dialect) sql

    unfoldable pub is_introspection_query : Text → Option String → Result ParseFailure Bool
    unfolding known_dialect classify_parsed parse_known
    is_introspection_query sql requested = do
      let dialect = known_dialect requested
      word ← first_sql_keyword sql dialect
      if str_eq word "SHOW" then ok true else classify_parsed dialect (parse_known dialect sql)
