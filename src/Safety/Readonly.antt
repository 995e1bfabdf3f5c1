-- ===== src/Safety/Readonly.antt =====
-- `_parse_statements`, `assert_no_denied_functions` and `assert_select_only` of
-- src/sqllens/safety/readonly.py.
pub mod Accepts
use sqllens.Prelude.{
  ℕ, String, Bool, true, false, not, ◌&&◌, ◌||◌, Option, none, some, List, [], ◌∷◌, map, str_eq,
  length, all, if◌then◌else◌, drop,
}
use sqllens.Prelude.Result.{Result, ok, err, ◌>>◌, raise_if, ◌>>=◌}
use sqllens.Safety.Denylist.{contains, denied_funcs}
use sqllens.Safety.Sqlglot.{
  Class, DialectType, ParseFailure, select, union, intersect, except, with_chain, show, func,
  anonymous, mysql_dialect, base_dialect, other_dialect, sql_error, other_error, Sqlglot, Unicode,
  update, delete, merge, create, alter,
}
use sqllens.Safety.MysqlText.{Text, Refusal, mysql_parse_sql}
use sqllens.Prelude.Dict.{insert}
use mathlib.Core.Option

-- The message of an `UnsafeSqlError`.
pub data Unsafe : Type 0 where
  empty_sql unknown_dialect unparsable empty_tree : Unsafe
  refused_text : Refusal → Unsafe
  statement_count : ℕ → Unsafe
  show_kind : String → Unsafe
  root_kind nested_write select_into : Unsafe
  denied_function : List String → Unsafe

-- What a guard function raises: `UnsafeSqlError`, or an exception that it does not expect.
pub data Raised : Type 0 where
  unsafe : Unsafe → Raised
  unexpected : Raised

abbrev pub Checked : Type 0 → Type 0
Checked = Result Raised

-- _SAFE_SHOW_SUBKINDS
abbrev pub safe_show_subkinds : List String
safe_show_subkinds =
    "TABLES" ∷ "COLUMNS" ∷ "DATABASES" ∷ "INDEX" ∷ "CREATE TABLE" ∷ "CREATE VIEW" ∷ []

-- _ALLOWED_ROOT_TYPES
abbrev pub allowed_root_types : List Class
allowed_root_types = select ∷ union ∷ intersect ∷ except ∷ with_chain ∷ []

-- _DML_DDL_TYPES
abbrev pub dml_ddl_types : List Class
dml_ddl_types =
    Class.insert ∷ Class.update ∷ Class.delete ∷ Class.merge ∷ Class.drop ∷ Class.create
    ∷ Class.alter ∷ []

unfoldable pub from_refusal : Result Refusal Text → Checked Text
from_refusal (ok t) = ok t
from_refusal (err e) = err (unsafe (refused_text e))

-- candidates & denied
unfoldable pub meet : List String → List String → List String
meet [] denied = []
meet (n ∷ ns) denied = if contains denied n then n ∷ meet ns denied else meet ns denied

refuse_names : List String → Checked Unit
refuse_names [] = ok tt
refuse_names (n ∷ ns) = err (unsafe (denied_function (n ∷ ns)))

module _ (S : Sqlglot) (U : Unicode) where
  open S use {
    Dialect, Node, get_dialect, no_dialect, dialect_type, parse, walk, isinstance, name, sql_names,
    has_into, this_text,
  }
  open U use {lower, upper, strip, is_space}

  -- Dialect.get_or_raise(dialect); none stands for its ValueError
  unfoldable pub resolve_dialect : Option String → Option Dialect
  resolve_dialect none = some no_dialect
  resolve_dialect (some d) = get_dialect d

  unfoldable pub is_instance : Node → List Class → Bool
  is_instance n [] = false
  is_instance n (c ∷ cs) = isinstance n c || is_instance n cs

  -- the text that is parsed: rewritten for the two types that read MySQL comments
  unfoldable pub parser_text : DialectType → Text → Checked Text
  unfolding from_refusal
  parser_text mysql_dialect sql = from_refusal (mysql_parse_sql true sql)
  parser_text base_dialect sql = from_refusal (mysql_parse_sql false sql)
  parser_text other_dialect sql = ok sql

  unfoldable pub from_parse :
      Result ParseFailure (List (Option Node)) → Checked (List (Option Node))
  from_parse (ok t) = ok t
  from_parse (err sql_error) = err (unsafe unparsable)
  from_parse (err other_error) = err unexpected

  unfoldable pub parse_with : Option Dialect → Text → Checked (List (Option Node))
  unfolding from_parse
  parse_with none sql = err (unsafe unknown_dialect)
  parse_with (some d) sql = do text ← parser_text (dialect_type d) sql; from_parse (parse d text)

  -- not sql or not sql.strip()
  unfoldable pub is_blank : Text → Bool
  is_blank sql = all is_space sql

  unfoldable pub parse_statements : Text → Option String → Checked (List (Option Node))
  unfolding parse_with
  parse_statements sql dialect = do
    raise_if (is_blank sql) (unsafe empty_sql)
    parse_with (resolve_dialect dialect) sql

  candidates_of : Option (List String) → List String
  candidates_of none = []
  candidates_of (some names) = map lower names

  -- `_func_name_candidates`
  unfoldable pub func_name_candidates : Node → List String
  unfolding candidates_of
  func_name_candidates n =
      if isinstance n anonymous
      then (if str_eq (name n) "" then [] else lower (name n) ∷ [])
      else candidates_of (sql_names n)

  unfoldable pub refuse_denied_function : List String → Node → Checked Unit
  unfolding refuse_names
  refuse_denied_function denied n =
      if isinstance n func then refuse_names (meet (func_name_candidates n) denied) else ok tt

  -- for sub in nodes: check(sub)
  unfoldable pub for_each : (Node → Checked Unit) → List Node → Checked Unit
  for_each check [] = ok tt
  for_each check (n ∷ ns) = check n >> for_each check ns

  pub no_denied_statements : List String → List (Option Node) → Checked Unit
  no_denied_statements denied [] = ok tt
  no_denied_statements denied (none ∷ rest) = err (unsafe empty_tree)
  no_denied_statements denied (some stmt ∷ rest) =
      for_each (refuse_denied_function denied) (walk stmt) >> no_denied_statements denied rest

  pub assert_no_denied_functions : Text → Option String → Checked Unit
  assert_no_denied_functions sql dialect = do
    statements ← parse_statements sql dialect
    no_denied_statements (denied_funcs dialect) statements

  -- the test of the statement's type
  unfoldable pub check_root : Node → Checked Unit
  check_root stmt =
      if isinstance stmt show
      then (let subkind = strip (upper (this_text stmt)) in
          raise_if (not (contains safe_show_subkinds subkind)) (unsafe (show_kind subkind)))
      else raise_if (not (is_instance stmt allowed_root_types)) (unsafe root_kind)

  -- the body of the walk
  unfoldable pub check_node : List String → Node → Checked Unit
  check_node denied sub = do
    raise_if (is_instance sub dml_ddl_types) (unsafe nested_write)
    raise_if (isinstance sub select && has_into sub) (unsafe select_into)
    refuse_denied_function denied sub

  unfoldable pub check_statements : List String → List (Option Node) → Checked Unit
  check_statements denied (some stmt ∷ []) = do
    check_root stmt
    for_each (check_node denied) (walk stmt)
  check_statements denied (none ∷ []) = err (unsafe empty_tree)
  check_statements denied statements = err (unsafe (statement_count (length statements)))

  unfoldable pub assert_select_only : Text → Option String → Checked Unit
  assert_select_only sql dialect = do
    statements ← parse_statements sql dialect
    check_statements (denied_funcs dialect) statements
