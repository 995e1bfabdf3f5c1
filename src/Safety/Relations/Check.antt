-- ===== src/Safety/Relations/Check.antt =====
-- `verify_base_tables` of src/sqllens/safety/relations.py and what it calls on the connection.
use sqllens.Prelude.{
  String, Bool, true, false, not, Option, none, some, List, [], ◌∷◌, str_eq, if◌then◌else◌,
}
use sqllens.Prelude.Act.{Act, ◌>>=◌, ◌>>◌, give, raise}
use sqllens.Prelude.Result.{Result, ok, err}
use sqllens.Prelude.Dict.{lookup}
use sqllens.Safety.Denylist.{contains}
use sqllens.Safety.MysqlText.{Text}
use sqllens.Safety.Rls.{RlsSyntax}
use sqllens.Safety.Relations.Queries.{
  Relation, RelationSyntax, RelationRefusal, CheckError, rls_error, exception, relations,
  called_names, view_kinds, base_table_kinds, sqlite_schema_tables, contains_pair,
  identifier_matching, catalog_qualified, child_table, unknown_dialect, database_view,
  not_base_table, database_function, could_not_verify,
}
use sqllens.Safety.Relations.Rows.{
  Cell, text, flag, null, Query, lower_case_table_names, database_list, pg_class, mysql_tables,
  pragma_table_list, pg_proc, mysql_routines, Connection, cell, first_cell, is_kind, fold_mode,
  views_of, is_metadata_row, cells_of, is_called_dialect, attached,
}

unfoldable pub routines_query : String → List String → Query
routines_query dialect names =
    if str_eq dialect "postgres" then pg_proc names else mysql_routines names

module _ {N : Type 0} {S : RlsSyntax N} (T : RelationSyntax S) where
  unfoldable pub called_in : Text → String → Result CheckError (List String)
  unfolding is_called_dialect
  called_in sql dialect = if is_called_dialect dialect then called_names T sql dialect else ok []

module _ {W : Type 0} where
  abbrev pub raised_as : {A : Type 0} → W × Result (Unit {0}) A → W × Result CheckError A
  raised_as (w, ok a) = (w, ok a)
  raised_as (w, err u) = (w, err exception)

  -- a call on the connection
  unfoldable pub asked : {A : Type 0} → Act W (Unit {0}) A → Act W CheckError A
  asked run w = raised_as (run w)

  unfoldable pub returned : {A : Type 0} → Result CheckError A → Act W CheckError A
  returned r w = (w, r)

  unfoldable pub refuse : {A : Type 0} → RelationRefusal → Act W CheckError A
  refuse e w = (w, err (rls_error e))

  -- the two tests behind the branches of `_verify_relations`
  unfoldable pub check_kind : String → Cell → Act W CheckError (Unit {0})
  unfolding is_kind lookup refuse
  check_kind dialect kind =
      if is_kind (lookup dialect view_kinds) kind
      then refuse database_view
      else if is_kind (lookup dialect base_table_kinds) kind
      then give tt
      else refuse not_base_table

  unfoldable pub check_child : Cell → Act W CheckError (Unit {0})
  unfolding refuse
  check_child (flag true) = refuse child_table
  check_child (flag false) = give tt
  check_child _ = raise exception

  -- what the postgres branch does with its row
  unfoldable pub check_pg_row : Option (List Cell) → Act W CheckError (Unit {0})
  unfolding is_metadata_row is_kind first_cell cell check_child check_kind returned lookup
  check_pg_row row =
      if is_metadata_row (cells_of row)
      then give tt
      else if is_kind (lookup "postgres" base_table_kinds) (first_cell row)
      then (do
        child ← returned (cell (cells_of row) 3)
        check_child child
        check_kind "postgres" (first_cell row))
      else check_kind "postgres" (first_cell row)

  -- if row: return row[0]
  unfoldable pub kind_or : Option (List Cell) → Act W CheckError Cell → Act W CheckError Cell
  kind_or none later = later
  kind_or (some []) later = later
  kind_or (some (k ∷ ks)) later = give k

  unfoldable pub refuse_row : Option (List Cell) → Act W CheckError (Unit {0})
  unfolding refuse
  refuse_row none = give tt
  refuse_row (some []) = raise exception
  refuse_row (some (name ∷ cs)) = refuse database_function

  abbrev pub mode_of : Option Bool → Act W CheckError Bool
  mode_of none = refuse identifier_matching
  mode_of (some fold) = give fold

  unfoldable pub read_mode : Option (List Cell) → Act W CheckError Bool
  unfolding fold_mode refuse
  read_mode none = refuse identifier_matching
  read_mode (some []) = raise exception
  read_mode (some (mode ∷ cs)) = mode_of (fold_mode mode)

  -- an exception of `close` takes the place of the one before
  abbrev pub closed :
      Result CheckError (Unit {0})
      → W × Result CheckError (Unit {0})
      → W × Result CheckError (Unit {0})
  closed r (w, ok u) = (w, r)
  closed r (w, err e) = (w, err e)

  -- every other exception becomes an RlsError
  abbrev pub sealed : W × Result CheckError (Unit {0}) → W × Result RelationRefusal (Unit {0})
  sealed (w, ok u) = (w, ok u)
  sealed (w, err (rls_error e)) = (w, err e)
  sealed (w, err exception) = (w, err could_not_verify)

  module _ (c : Connection W) where
    -- the loop of `_sqlite_kind`
    unfoldable pub kind_in : String → List Cell → Act W CheckError Cell
    unfolding asked kind_or
    kind_in name [] = give null
    kind_in name (schema ∷ schemas) =
        let later = kind_in name schemas in
        (do row ← asked (c.fetch_one (pragma_table_list name schema)); kind_or row later)

    -- `_refuse_database_routines`
    unfoldable pub refuse_database_routines : List String → String → Act W CheckError (Unit {0})
    unfolding asked routines_query refuse_row
    refuse_database_routines names dialect =
        asked (c.fetch_one (routines_query dialect names)) >>= refuse_row

    -- mysql_fold
    unfoldable pub folds : String → Act W CheckError Bool
    unfolding asked read_mode
    folds dialect =
        if str_eq dialect "mysql"
        then asked (c.fetch_one lower_case_table_names) >>= read_mode
        else give false

    module _ {N : Type 0} {S : RlsSyntax N} (T : RelationSyntax S) where
      -- `_sqlite_kind`
      unfoldable pub sqlite_kind : Relation → Act W CheckError Cell
      unfolding kind_in attached asked returned
      sqlite_kind r =
          if contains sqlite_schema_tables (T.lower r.name)
          then give (text "table")
          else if not (str_eq r.db "")
          then kind_in r.name (text r.db ∷ [])
          else (do
            rows ← asked (c.fetch_all database_list)
            names ← returned (attached rows)
            kind_in r.name (text "temp" ∷ text "main" ∷ names))

      -- the body of the loop of `_verify_relations`
      unfoldable pub verify_relation : String → Bool → Relation → Act W CheckError (Unit {0})
      unfolding sqlite_kind check_kind check_pg_row asked refuse lookup contains_pair first_cell
      verify_relation dialect fold r =
          if not (str_eq r.catalog "")
          then refuse catalog_qualified
          else if str_eq dialect "sqlite"
          then sqlite_kind r >>= check_kind dialect
          else if str_eq dialect "postgres"
          then asked (c.fetch_one (pg_class r.sql)) >>= check_pg_row
          else if str_eq dialect "mysql"
          then if contains_pair (views_of "mysql") (T.lower r.db) (T.lower r.name)
            then give tt
            else (do
              row ← asked (c.fetch_one (mysql_tables fold r.db r.name))
              check_kind dialect (first_cell row))
          else refuse unknown_dialect

      unfoldable pub verify_each : String → Bool → List Relation → Act W CheckError (Unit {0})
      unfolding verify_relation
      verify_each dialect fold [] = give tt
      verify_each dialect fold (r ∷ rs) =
          verify_relation dialect fold r >> verify_each dialect fold rs

      -- `_verify_relations`
      unfoldable pub verify_relations : List Relation → String → Act W CheckError (Unit {0})
      unfolding folds verify_each
      verify_relations rs dialect = do fold ← folds dialect; verify_each dialect fold rs

      -- if relations: ... ; if called: ...
      unfoldable pub verify_parts :
          List Relation → List String → String → Act W CheckError (Unit {0})
      unfolding verify_relations refuse_database_routines
      verify_parts [] [] dialect = give tt
      verify_parts (r ∷ rs) [] dialect = verify_relations (r ∷ rs) dialect
      verify_parts [] (n ∷ ns) dialect = refuse_database_routines (n ∷ ns) dialect
      verify_parts (r ∷ rs) (n ∷ ns) dialect =
          verify_relations (r ∷ rs) dialect >> refuse_database_routines (n ∷ ns) dialect

      -- finally: cursor.close()
      unfoldable pub closing : Act W CheckError (Unit {0}) → Act W CheckError (Unit {0})
      unfolding asked
      closing run w = closed (run w).1 (asked c.close (run w).0)

      -- the `try` block, with the parts that it reads from the statement
      unfoldable pub check_statement :
          List Relation → List String → String → Act W CheckError (Unit {0})
      unfolding asked closing verify_parts
      check_statement [] [] dialect = give tt
      check_statement (r ∷ rs) called dialect =
          asked c.open_cursor >> closing (verify_parts (r ∷ rs) called dialect)
      check_statement [] (n ∷ ns) dialect =
          asked c.open_cursor >> closing (verify_parts [] (n ∷ ns) dialect)

      -- `verify_base_tables`
      unfoldable pub verify_base_tables : Text → String → Act W RelationRefusal (Unit {0})
      unfolding returned called_in check_statement
      verify_base_tables sql dialect w = sealed (
          (do
            rs ← returned (relations T sql dialect)
            called ← returned (called_in T sql dialect)
            check_statement rs called dialect)
            w)
