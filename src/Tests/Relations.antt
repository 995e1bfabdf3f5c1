-- ===== src/Tests/Relations.antt =====
-- The relation check at a statement that reads one table and calls one function.
use sqllens.Prelude.{ℕ, String, ◌≡◌, refl, false, Option, none, some, List, [], ◌∷◌}
use sqllens.Prelude.Act.{◌>>=◌, ◌>>◌, give}
use sqllens.Prelude.Result.{ok, err}
use sqllens.Prelude.Dict.{lookup, insert}
use sqllens.Safety.Denylist.{contains}
use sqllens.Safety.Rls.{normalize_rls_identifiers, fold_identifiers, has_id}
use sqllens.Safety.Sqlglot.{l_paren, var}
use sqllens.Safety.Relations.Queries.{
  called_names, Relation, RelationSyntax, table_source, relations, database_view,
}
use sqllens.Safety.Relations.Rows.{Cell, text, flag, Query, Connection, pg_class}
use sqllens.Safety.Relations.Check.{called_in, asked, verify_base_tables}
use sqllens.Tests.Data.{toy_syntax}

abbrev orders : Relation
orders = record { name = "orders"; db = ""; catalog = ""; sql = "orders" }

abbrev count_orders : RelationSyntax toy_syntax
count_orders = record {
  parse_one = λ d t. some [];
  scopes = λ t. some (record { sources = table_source orders ∷ []; tables = 7 ∷ [] } ∷ []);
  table_ids = λ t. 7 ∷ [];
  tokenize = λ d t. some (
      record { token_type = var; text = "count" }
      ∷ record { token_type = l_paren; text = "(" }
      ∷ []);
  is_keyword = λ d t. false;
  lower = λ s. s;
  ascii_lower = λ s. s;
}

-- a database in which `orders` is of the given kind, and no routine is found; a call counts up
abbrev answer : String → Query → Option (List Cell)
answer kind (pg_class name) = some (text kind ∷ text "public" ∷ text "orders" ∷ flag false ∷ [])
answer kind other = none

abbrev database : String → Connection ℕ
database kind = record {
  open_cursor = give tt;
  fetch_one = λ q n. (n, ok (answer kind q));
  fetch_all = λ q. give [];
  close = give tt;
}

-- a materialized view is refused
view-refused :
    (verify_base_tables (database "m") count_orders [] "postgres" 0).1 ≡ err database_view
unfolding verify_base_tables relations normalize_rls_identifiers fold_identifiers lookup insert
    contains called_in called_names has_id asked ◌>>=◌ ◌>>◌
view-refused = refl
