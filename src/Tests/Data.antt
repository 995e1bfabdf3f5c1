-- ===== src/Tests/Data.antt =====
-- Small instances of the parameters: a parser of one-letter statements, a rewriter that counts its
-- predicates, a database of three rows.
use sqllens.Prelude.{ℕ, Bool, true, false, none, some, List, str_eq, [], ◌∷◌, ◌==◌, ◌+◌}
use sqllens.Prelude.Result.{ok}
use sqllens.Prelude.Dict.{Dict}
use sqllens.Safety.MysqlText.{Text}
use sqllens.Safety.Sqlglot.{Sqlglot, Unicode, Class, select, base_dialect}
use sqllens.Safety.Rls.{RlsSyntax, Scope, Table}
use sqllens.Safety.Rls.Terms.{Rule, Value, Predicate, scalar, text, other_item}
use sqllens.Safety.Limits.{Frame}
use sqllens.Safety.Guards.{Executor}

-- "S"
abbrev pub select_text : Text
select_text = 83 ∷ []

abbrev pub starts_select : Text → Bool
starts_select [] = false
starts_select (c ∷ r) = c == 83

-- the node of "S..." is a SELECT, any other a DELETE
abbrev pub node_class : Bool → Class → Bool
node_class true select = true
node_class false Class.delete = true
node_class _ _ = false

abbrev pub toy_parser : Sqlglot
toy_parser = record {
  Dialect = Unit;
  Node = Bool;
  get_dialect = λ d. some tt;
  no_dialect = tt;
  dialect_type = λ d. base_dialect;
  tokenize = λ d t. ok [];
  keyword = λ d s. none;
  parse = λ d t. ok (some (starts_select t) ∷ []);
  parse_one = λ d t. ok (some (starts_select t));
  walk = λ n. n ∷ [];
  isinstance = node_class;
  name = λ n. "";
  sql_names = λ n. none;
  has_into = λ n. false;
  this_text = λ n. "";
}

abbrev pub toy_unicode : Unicode
toy_unicode = record {
  lower = λ s. s;
  upper = λ s. s;
  strip = λ s. s;
  is_space = λ c. c == 32;
  starts_alpha = λ s. true;
  starts_with = λ s p. str_eq s p;
  before = λ s sep. s;
}

abbrev pub orders : Table
orders = record { id = 7; name = "orders"; alias = "o"; alias_or_name = "o" }

abbrev pub orders_scope : Scope
orders_scope = record { select_node = some 0; base_tables = orders ∷ []; tables = orders ∷ [] }

-- a statement is "S" and one "W" for each predicate
abbrev pub render_where : List (Predicate ℕ) → Text
render_where [] = select_text
render_where (p ∷ ps) = 83 ∷ 87 ∷ []

abbrev pub toy_syntax : RlsSyntax ℕ
toy_syntax = record {
  Tree = List (Predicate ℕ);
  parse = λ d t. ok (some [] ∷ []);
  identifiers = λ t. [];
  with_identifiers = λ t is. t;
  is_query = λ t. true;
  scopes = λ t. some (orders_scope ∷ []);
  all_tables = λ t. orders ∷ [];
  where_and = λ t n p. p ∷ t;
  render = λ d t. render_where t;
  lower = λ s. s;
  is_ascii = λ s. true;
}

abbrev pub tenant_rule : Rule ℕ
tenant_rule = record {
  table = "orders";
  column = "tenant";
  operator = "=";
  value = scalar other_item;
  value_from_metadata = some "tenant_id";
}

abbrev pub tenant_rules : List (Rule ℕ)
tenant_rules = tenant_rule ∷ []

abbrev pub tenant_metadata : Dict (Value ℕ)
tenant_metadata = ("tenant_id", scalar (text (97 ∷ []))) ∷ []

abbrev pub three_rows : Frame ℕ
three_rows = record { rows = 1 ∷ 2 ∷ 3 ∷ []; truncated = none; max_rows = none }

-- The world counts the statements that ran.
abbrev pub database : Executor ℕ Unit ℕ
database = record { declares = true; run = λ sql require w. (ok three_rows, w + 1) }
