-- ===== src/Safety/Relations/Rows.antt =====
-- What the check of src/sqllens/safety/relations.py asks the connection, and how it reads the rows.
use sqllens.Prelude.{
  ℕ, zero, suc, String, Bool, false, not, ◌&&◌, ◌||◌, Option, none, some, List, [], ◌∷◌, str_eq,
  if◌then◌else◌, leb, ◌==◌,
}
use sqllens.Prelude.Act.{Act}
use sqllens.Prelude.Result.{Result, ok, err}
use sqllens.Prelude.Dict.{lookup}
use sqllens.Safety.Denylist.{contains}
use sqllens.Safety.Relations.Queries.{CheckError, exception, metadata_views, contains_pair}

-- A value of a row.
pub data Cell : Type 0 where
  text : String → Cell
  number : ℕ → Cell
  flag : Bool → Cell
  null other_cell : Cell

-- The statements that the check executes, with their parameters.
pub data Query : Type 0 where
  lower_case_table_names database_list : Query
  pg_class : String → Query
  mysql_tables : Bool → String → String → Query
  pragma_table_list : String → Cell → Query
  pg_proc mysql_routines : List String → Query

-- A DB-API connection with its one cursor: `execute` followed by `fetchone` or `fetchall`. It
-- raises no RlsError.
pub record Connection (W : Type 0) : Type 0 where
  pub open_cursor : Act W (Unit {0}) (Unit {0})
  pub fetch_one : Query → Act W (Unit {0}) (Option (List Cell))
  pub fetch_all : Query → Act W (Unit {0}) (List (List Cell))
  pub close : Act W (Unit {0}) (Unit {0})

-- row[i]
unfoldable pub cell : List Cell → ℕ → Result CheckError Cell
cell [] i = err exception
cell (c ∷ cs) zero = ok c
cell (c ∷ cs) (suc i) = cell cs i

-- row[0] if row else None
unfoldable pub first_cell : Option (List Cell) → Cell
first_cell none = null
first_cell (some []) = null
first_cell (some (c ∷ cs)) = c

-- kind in kinds
unfoldable pub is_kind : Option (List String) → Cell → Bool
is_kind (some kinds) (text kind) = contains kinds kind
is_kind _ _ = false

-- mode in (0, 1, 2), with what `mode != 0` is; True and False equal 1 and 0
unfoldable pub fold_mode : Cell → Option Bool
fold_mode (number n) = if leb n 2 then some (not (n == 0)) else none
fold_mode (flag b) = some b
fold_mode _ = none

abbrev pub views_of : String → List (String × String)
views_of dialect = elim (lookup dialect metadata_views) [ none ↦ [] | some views ↦ views ]

-- kind == "v" and tuple(row[1:3]) in _METADATA_VIEWS["postgres"]
unfoldable pub is_metadata_row : List Cell → Bool
unfolding contains_pair lookup
is_metadata_row (text kind ∷ text schema ∷ text name ∷ rest) =
    str_eq kind "v" && contains_pair (views_of "postgres") schema name
is_metadata_row _ = false

abbrev pub cells_of : Option (List Cell) → List Cell
cells_of none = []
cells_of (some cells) = cells

unfoldable pub is_called_dialect : String → Bool
is_called_dialect dialect = str_eq dialect "postgres" || str_eq dialect "mysql"

-- row[1] for row in rows if row[1] != "main"
unfoldable pub attached : List (List Cell) → Result CheckError (List Cell)
attached [] = ok []
attached ((a ∷ text name ∷ cs) ∷ rows) =
    let more = attached rows in
    elim more [
      | err e ↦ err e
      | ok names ↦ ok (if str_eq name "main" then names else text name ∷ names)
    ]
attached ((a ∷ b ∷ cs) ∷ rows) =
    let more = attached rows in elim more [ err e ↦ err e | ok names ↦ ok (b ∷ names) ]
attached (short ∷ rows) = err exception
