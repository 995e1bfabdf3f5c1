-- ===== src/Safety/Relations/Queries.antt =====
-- The relations and called names of a statement, and the catalog's tables, of
-- src/sqllens/safety/relations.py.
use Prim.Native.Nat.{Ordering}
use Prim.Native.String.{compare}
use sqllens.Prelude.{
  ℕ, String, Bool, true, false, not, ◌&&◌, ◌||◌, Option, none, some, List, [], ◌∷◌, ◌++◌, str_eq,
  if◌then◌else◌, any,
}
use sqllens.Prelude.Result.{Result, ok, err, ◌>>=◌, ◌>>◌, raise_if}
use sqllens.Prelude.Dict.{Dict, insert}
use sqllens.Safety.MysqlText.{Text}
use sqllens.Safety.Rls.{RlsSyntax, normalize_rls_identifiers, has_id}
use sqllens.Safety.Rls.Terms.{RlsRefusal}
use sqllens.Safety.Sqlglot.{Token, TokenType, l_paren, var, identifier}

-- A table as `_relations` copies it, with its text in the dialect; a missing part is "".
pub record Relation : Type 0 where
  pub name : String
  pub db : String
  pub catalog : String
  pub sql : String

-- A value of `scope.sources`: a table with the relation that its identifiers name, or with
-- something other than an identifier in its place, or a query.
pub data Source : Type 0 where
  table_source : Relation → Source
  shaped_source query_source : Source

-- A scope: its sources, and the ids of `scope.tables`.
pub record SourceScope : Type 0 where
  pub sources : List Source
  pub tables : List ℕ

-- An RlsError, by its message.
pub data RelationRefusal : Type 0 where
  relation_shape identifier_matching catalog_qualified child_table unknown_dialect : RelationRefusal
  database_view not_base_table database_function could_not_verify : RelationRefusal
  rewritten : RlsRefusal → RelationRefusal

-- What is raised inside the check: an RlsError, or any other Exception.
pub data CheckError : Type 0 where
  rls_error : RelationRefusal → CheckError
  exception : CheckError

-- What the check uses of sqlglot, over the syntax of the rewrite, and of str; `none` is an exception.
pub record RelationSyntax {N : Type 0} (S : RlsSyntax N) : Type 0 where
  pub parse_one : String → Text → Option S.Tree
  pub scopes : S.Tree → Option (List SourceScope)
  -- the ids of tree.find_all(exp.Table)
  pub table_ids : S.Tree → List ℕ
  pub tokenize : String → Text → Option (List Token)
  -- text.upper() in keywords
  pub is_keyword : String → String → Bool
  pub lower : String → String
  -- lower on the ASCII characters alone
  pub ascii_lower : String → String

-- _METADATA_VIEWS
abbrev pub metadata_views : Dict (List (String × String))
metadata_views =
    (
      "postgres",
      ("information_schema", "schemata")
          ∷ ("information_schema", "tables")
          ∷ ("information_schema", "columns")
          ∷ ("information_schema", "views")
          ∷ ("information_schema", "table_constraints")
          ∷ ("information_schema", "key_column_usage")
          ∷ ("information_schema", "referential_constraints")
          ∷ ("information_schema", "constraint_column_usage")
          ∷ ("information_schema", "check_constraints")
          ∷ ("pg_catalog", "pg_tables")
          ∷ ("pg_catalog", "pg_views")
          ∷ ("pg_catalog", "pg_indexes")
          ∷ [],
    )
    ∷ (
      "mysql",
      ("information_schema", "schemata")
          ∷ ("information_schema", "tables")
          ∷ ("information_schema", "columns")
          ∷ ("information_schema", "views")
          ∷ ("information_schema", "statistics")
          ∷ ("information_schema", "table_constraints")
          ∷ ("information_schema", "key_column_usage")
          ∷ ("information_schema", "referential_constraints")
          ∷ ("information_schema", "check_constraints")
          ∷ [],
    )
    ∷ []

-- _VIEW_KINDS
abbrev pub view_kinds : Dict (List String)
view_kinds =
    ("sqlite", "view" ∷ [])
    ∷ ("postgres", "v" ∷ "m" ∷ [])
    ∷ ("mysql", "VIEW" ∷ "SYSTEM VIEW" ∷ [])
    ∷ []

-- _BASE_TABLE_KINDS
abbrev pub base_table_kinds : Dict (List String)
base_table_kinds =
    ("sqlite", "table" ∷ []) ∷ ("postgres", "r" ∷ "p" ∷ []) ∷ ("mysql", "BASE TABLE" ∷ []) ∷ []

-- _SQLITE_SCHEMA_TABLES
abbrev pub sqlite_schema_tables : List String
sqlite_schema_tables =
    "sqlite_master" ∷ "sqlite_schema" ∷ "sqlite_temp_master" ∷ "sqlite_temp_schema" ∷ []

unfoldable pub contains_pair : List (String × String) → String → String → Bool
contains_pair [] a b = false
contains_pair ((x, y) ∷ rest) a b = (str_eq x a && str_eq y b) || contains_pair rest a b

-- the inner loop of `_relations`; the dict keeps one relation for each text
unfoldable pub add_sources : List Source → Dict Relation → Result CheckError (Dict Relation)
add_sources [] found = ok found
add_sources (table_source r ∷ ss) found = add_sources ss (insert r.sql r found)
add_sources (shaped_source ∷ ss) found = err (rls_error relation_shape)
add_sources (query_source ∷ ss) found = add_sources ss found

unfoldable pub add_scopes : List SourceScope → Dict Relation → Result CheckError (Dict Relation)
unfolding add_sources
add_scopes [] found = ok found
add_scopes (s ∷ ss) found = do more ← add_sources s.sources found; add_scopes ss more

unfoldable pub accounted : List SourceScope → List ℕ
accounted [] = []
accounted (s ∷ ss) = s.tables ++ accounted ss

unfoldable pub values : Dict Relation → List Relation
values [] = []
values ((key, r) ∷ rest) = r ∷ values rest

-- names.add(name), with the set kept as `sorted` gives it
unfoldable pub add_name : String → List String → List String
add_name n [] = n ∷ []
add_name n (m ∷ ms) =
    let later = add_name n ms in
    elim (compare n m) [ Ordering.lt ↦ n ∷ m ∷ ms | Ordering.eq ↦ m ∷ ms | Ordering.gt ↦ m ∷ later ]

unfoldable pub is_l_paren : TokenType → Bool
is_l_paren l_paren = true
is_l_paren _ = false

unfoldable pub is_name_token : TokenType → Bool
is_name_token var = true
is_name_token identifier = true
is_name_token _ = false

-- what is None raises an exception
unfoldable pub or_exception : {A : Type 0} → Option A → Result CheckError A
or_exception none = err exception
or_exception (some a) = ok a

unfoldable pub from_rls : {A : Type 0} → Result RlsRefusal A → Result CheckError A
from_rls (ok a) = ok a
from_rls (err e) = err (rls_error (rewritten e))

module _ {N : Type 0} {S : RlsSyntax N} (T : RelationSyntax S) where
  open T use {parse_one, scopes, table_ids, tokenize, is_keyword, lower, ascii_lower}

  -- `_relations`
  unfoldable pub relations : Text → String → Result CheckError (List Relation)
  unfolding or_exception from_rls add_scopes accounted values
  relations sql dialect = do
    parsed ← or_exception (parse_one dialect sql)
    tree ← from_rls (normalize_rls_identifiers S parsed (some dialect))
    ss ← or_exception (scopes tree)
    found ← add_scopes ss []
    raise_if (any (λ (i : ℕ). not (has_id (accounted ss) i)) (table_ids tree))
        (rls_error relation_shape)
    ok (values found)

  -- whether a token before a parenthesis is a call's name
  unfoldable pub is_called : String → Token → Token → Bool
  unfolding is_l_paren is_name_token
  is_called dialect token following =
      is_l_paren following.token_type
      && not (str_eq token.text "")
      && (is_name_token token.token_type || is_keyword dialect token.text)

  unfoldable pub names_of : String → List Token → List String
  unfolding is_called add_name
  names_of dialect [] = []
  names_of dialect (token ∷ []) = []
  names_of dialect (token ∷ following ∷ rest) =
      let later = names_of dialect (following ∷ rest) in
      if is_called dialect token following
      then add_name token.text
          (add_name (lower token.text) (add_name (ascii_lower token.text) later))
      else later

  -- `_called_names`
  unfoldable pub called_names : Text → String → Result CheckError (List String)
  unfolding or_exception names_of
  called_names sql dialect = do
    tokens ← or_exception (tokenize dialect sql)
    ok (names_of dialect tokens)
