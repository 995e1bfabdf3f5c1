-- ===== src/Tests/Introspect.antt =====
-- The introspection classifier at a statement that reads a catalog table beside a CTE.
use sqllens.Safety.Introspect.{
  TableNode, TableSyntax, is_introspection_query, known_dialect, first_sql_keyword, parse_known,
  cte_reference_ids, CteScope, catalog_names, is_catalog_table, sqlglot_dialect_for_url,
  starting_dialect, word_of, first_word,
}
use sqllens.Safety.Introspect.Reads.{
  IsCteReference, cte_reference_ids_lem, is_introspection_query_iff, ReadsCatalog,
}
use sqllens.Safety.Introspect.Catalogs.{
  IsCovered, sqlglot_dialect_for_url-IsCovered, is_catalog_table_mono,
}
use sqllens.Safety.Rls.{has_id}
use sqllens.Prelude.{String, ◌≡◌, refl, ◌↔◌, ◌⊎◌, Bool, true, false, none, some, [], ◌∷◌, str_eq}
use sqllens.Prelude.Result.{ok}
use sqllens.Prelude.Dict.{lookup}
use sqllens.Safety.Denylist.{contains}
use sqllens.Tests.Data.{toy_parser, toy_unicode, select_text}

abbrev columns : TableNode
columns = record {
  id = 1;
  has_db = true;
  has_catalog = false;
  db = "information_schema";
  name = "columns";
  function_name = none;
}

abbrev recent : TableNode
recent = record {
  id = 2;
  has_db = false;
  has_catalog = false;
  db = "";
  name = "recent";
  function_name = none;
}

abbrev recent_scope : CteScope
recent_scope = record { tables = columns ∷ recent ∷ []; cte_sources = "recent" ∷ [] }

abbrev toy_tables : TableSyntax toy_parser
toy_tables = record {
  normalize = λ d n. (n, true);
  scopes = λ n. some (recent_scope ∷ []);
  find_tables = λ n. columns ∷ recent ∷ [];
}

is_introspection_query_iff_example :
    (is_introspection_query toy_parser toy_unicode toy_tables select_text (some "mysql") ≡ ok true)
    ↔ ((◌≡◌ {A = String} "" "SHOW")
        ⊎ ((tree : Bool) × (parse_known toy_parser toy_unicode toy_tables (some "mysql") select_text
              ≡ ok (some tree))
            × ReadsCatalog toy_parser toy_unicode toy_tables (some "mysql") tree))
unfolding known_dialect first_sql_keyword word_of first_word
is_introspection_query_iff_example =
    is_introspection_query_iff toy_parser toy_unicode toy_tables select_text (some "mysql") "" refl

cte_reference_ids_lem_example :
    (has_id (cte_reference_ids toy_parser toy_unicode toy_tables true none).1 2 ≡ true)
    ↔ IsCteReference (recent_scope ∷ []) 2
cte_reference_ids_lem_example =
    cte_reference_ids_lem toy_parser toy_unicode toy_tables true none (recent_scope ∷ []) 2 refl
      refl

sqlglot_dialect_for_url-IsCovered_example : (str_eq "mysql" "mysql" ≡ true) × IsCovered "mysql"
unfolding sqlglot_dialect_for_url starting_dialect
sqlglot_dialect_for_url-IsCovered_example =
    sqlglot_dialect_for_url-IsCovered toy_parser toy_unicode "mysql" "mysql" refl

is_catalog_table_mono_example :
    is_catalog_table toy_parser toy_unicode (catalog_names none) columns ≡ true
unfolding is_catalog_table catalog_names lookup contains
is_catalog_table_mono_example =
    is_catalog_table_mono toy_parser toy_unicode (some "mysql") columns refl
