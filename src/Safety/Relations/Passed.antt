-- ===== src/Safety/Relations/Passed.antt =====
-- A statement that passes the check of src/sqllens/safety/relations.py.
use sqllens.Prelude.{String, ◌≡◌, ◌⊎◌, none, List, []}
use sqllens.Prelude.Act.{Act}
use sqllens.Prelude.Keeps.{Keeps}
use sqllens.Prelude.Result.{Result, ok}
use sqllens.Prelude.Members.{In}
use sqllens.Safety.MysqlText.{Text}
use sqllens.Safety.Rls.{RlsSyntax}
use sqllens.Safety.Relations.Queries.{Relation, RelationSyntax, relations}
use sqllens.Safety.Relations.Rows.{Connection}
use sqllens.Safety.Relations.Check.{routines_query, called_in}
use sqllens.Safety.Relations.Verified.{Gave, IsAccepted}

module _ {W : Type 0} (c : Connection W) {N : Type 0} {S : RlsSyntax N} (T : RelationSyntax S) where
  -- Each relation is accepted.
  abbrev pub AllAccepted : String → List Relation → Type 0
  AllAccepted dialect rs = (r : Relation) → In r rs → IsAccepted c T dialect r

  -- No routine of the database was found under the names.
  abbrev pub IsUnmatched : String → List String → Type 0
  IsUnmatched dialect names = (names ≡ []) ⊎ Gave (c.fetch_one (routines_query dialect names)) none

  -- What passes: the relations and the called names of the statement.
  pub record IsVerified (sql : Text) (dialect : String) : Type 0 where
    pub read : List Relation
    pub called : List String
    pub relations_read : relations T sql dialect ≡ ok read
    pub names_called : called_in T sql dialect ≡ ok called
    pub accepted : AllAccepted dialect read
    pub unmatched : IsUnmatched dialect called

  abbrev Parts : String → List Relation → List String → Type 0
  Parts dialect rs names = AllAccepted dialect rs × IsUnmatched dialect names
