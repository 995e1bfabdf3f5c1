-- ===== src/Safety/Relations/Verified.antt =====
-- What a statement that passes the check reads and calls.
use sqllens.Prelude.{
  ap, Option-cases, String, ◌≡◌, refl, sym, ◌∙◌, ◌⊎◌, inl, inr, Bool, true, false, not, Option,
  none, some, List, [], ◌∷◌, str_eq, eq_iff,
}
use sqllens.Prelude.Act.{Act, ◌>>=◌, ◌>>◌}
use sqllens.Prelude.Keeps.{
  Keeps, Post, Whatever, any_run, weaken-Keeps, give-Keeps, bind-Keeps, if-Keeps, raise-Keeps,
}
use sqllens.Prelude.Result.{Result, ok, err}
use sqllens.Prelude.Dict.{lookup}
use sqllens.Safety.Denylist.{contains}
use sqllens.Safety.Rls.{RlsSyntax}
use sqllens.Safety.Relations.Queries.{
  Relation, RelationSyntax, RelationRefusal, CheckError, rls_error, exception, base_table_kinds,
  view_kinds, sqlite_schema_tables, contains_pair,
}
use sqllens.Safety.Relations.Rows.{
  Cell, text, number, flag, null, other_cell, pg_class, mysql_tables, pragma_table_list, Connection,
  cell, first_cell, is_kind, views_of, is_metadata_row, cells_of,
}
use sqllens.Safety.Relations.Check.{
  raised_as, asked, returned, refuse, check_kind, check_child, check_pg_row, kind_in, kind_or,
  sqlite_kind, verify_relation,
}

abbrev pub IsBase : String → Cell → Type 0
IsBase dialect kind = is_kind (lookup dialect base_table_kinds) kind ≡ true

-- A row of pg_class that the check passes: of a metadata view, or of a table that is no child.
abbrev pub IsPgRow : Option (List Cell) → Type 0
IsPgRow row =
    (is_metadata_row (cells_of row) ≡ true)
    ⊎ (IsBase "postgres" (first_cell row) × (cell (cells_of row) 3 ≡ ok (flag false)))

null_base : (dialect : String) → is_kind (lookup dialect base_table_kinds) null ≡ false
unfolding is_kind
null_base dialect = elim (Option-cases (lookup dialect base_table_kinds)) [
  | inl e ↦ rw e refl
  | inr (kinds, e) ↦ rw e refl
]

module _ {W : Type 0} where
  -- The run can give this.
  abbrev pub Gave : {E A : Type 0} → Act W E A → A → Type 0
  Gave run a = (w : W) × ((run w).1 ≡ ok a)

  pub refuse-Keeps :
      {A : Type 0} {Q : A → Type 0} (e : RelationRefusal) → Keeps Whatever Q (refuse {W = W} e)
  unfolding refuse
  refuse-Keeps e = raise-Keeps (rls_error e)

  pub asked-Keeps : {A : Type 0} (run : Act W (Unit {0}) A) → Keeps Whatever (Gave run) (asked run)
  unfolding asked
  asked-Keeps {A} run = record { state = λ w i. tt; result = λ w i. go w (run w).1 refl }
    where
      go :
          (w : W) (r : Result (Unit {0}) A)
          → (run w).1 ≡ r
          → Post (Gave run) (raised_as ((run w).0, r)).1
      go w (ok a) e = (w, e)
      go w (err u) e = tt

  pub returned-Keeps :
      {A : Type 0} (r : Result CheckError A) → Keeps {S = W} Whatever (λ a. r ≡ ok a) (returned r)
  unfolding returned
  returned-Keeps {A} r = record { state = λ w i. tt; result = λ w i. go r }
    where
      go : (r : Result CheckError A) → Post (λ (a : A). r ≡ ok a) r
      go (ok a) = refl
      go (err e) = tt

  check_kind-Keeps :
      (dialect : String) (kind : Cell)
      → Keeps {S = W} Whatever (λ (u : Unit {0}). IsBase dialect kind) (check_kind dialect kind)
  unfolding check_kind
  check_kind-Keeps dialect kind =
      if-Keeps (is_kind (lookup dialect view_kinds) kind) _ _ (λ _. refuse-Keeps _)
        (λ _.
          if-Keeps (is_kind (lookup dialect base_table_kinds) kind) _ _ (λ b. give-Keeps b)
            (λ _. refuse-Keeps _))

  check_child-Keeps :
      (child : Cell)
      → Keeps {S = W} Whatever (λ (u : Unit {0}). child ≡ flag false) (check_child child)
  unfolding check_child
  check_child-Keeps (flag true) = refuse-Keeps _
  check_child-Keeps (flag false) = give-Keeps refl
  check_child-Keeps (text s) = raise-Keeps exception
  check_child-Keeps (number n) = raise-Keeps exception
  check_child-Keeps null = raise-Keeps exception
  check_child-Keeps other_cell = raise-Keeps exception

  check_pg_row-Keeps :
      (row : Option (List Cell))
      → Keeps {S = W} Whatever (λ (u : Unit {0}). IsPgRow row) (check_pg_row row)
  unfolding check_pg_row ◌>>◌ ◌>>=◌
  check_pg_row-Keeps row =
      if-Keeps (is_metadata_row (cells_of row)) _ _ (λ m. give-Keeps (inl m))
        (λ _.
          if-Keeps (is_kind (lookup "postgres" base_table_kinds) (first_cell row)) _ _
            (λ b. bind-Keeps _ (returned-Keeps (cell (cells_of row) 3)) (λ child e.
              bind-Keeps _ (check_child-Keeps child) (λ u f.
                weaken-Keeps (λ (v : Unit {0}). IsBase "postgres" (first_cell row))
                  (λ v _. inr (b, e ∙ ap ok f)) (check_kind-Keeps "postgres" (first_cell row)))))
            (λ b.
              weaken-Keeps (λ (v : Unit {0}). IsBase "postgres" (first_cell row))
                (λ v base. absurd (cc (sym b ∙ base)))
                (check_kind-Keeps "postgres" (first_cell row))))

  module _ (c : Connection W) where
    -- Some schema's list has the table, as a base table.
    abbrev pub IsListed : String → Cell → Type 0
    IsListed name kind =
        (schema : Cell) × (row : Option (List Cell)) × Gave
          (c.fetch_one (pragma_table_list name schema)) row
        × (first_cell row ≡ kind)

    kind_in-Keeps :
        (name : String) (schemas : List Cell)
        → Keeps Whatever (λ (k : Cell). (k ≡ null) ⊎ IsListed name k) (kind_in c name schemas)
    unfolding kind_in kind_or first_cell
    kind_in-Keeps name [] = give-Keeps (inl refl)
    kind_in-Keeps name (schema ∷ schemas) =
        bind-Keeps _ (asked-Keeps (c.fetch_one (pragma_table_list name schema)))
          (λ row g. found row g (kind_in-Keeps name schemas))
      where
        found :
            (row : Option (List Cell))
            → Gave (c.fetch_one (pragma_table_list name schema)) row
            → {run : Act W CheckError Cell}
            → Keeps Whatever (λ (k : Cell). (k ≡ null) ⊎ IsListed name k) run
            → Keeps Whatever (λ (k : Cell). (k ≡ null) ⊎ IsListed name k) (kind_or row run)
        found none g k = k
        found (some []) g k = k
        found (some (x ∷ xs)) g k = give-Keeps (inr (schema, some (x ∷ xs), g, refl))

    module _ {N : Type 0} {S : RlsSyntax N} (T : RelationSyntax S) where
      -- Why a relation may be read: what the connection answered about it is a base table, or it is one
      -- of the views and tables of metadata that are allowed.
      pub data IsAccepted (dialect : String) (r : Relation) : Type 0 where
        schema_table :
            dialect ≡ "sqlite"
            → contains sqlite_schema_tables (T.lower r.name) ≡ true
            → IsAccepted dialect r
        sqlite_table :
            (kind : Cell)
            → dialect ≡ "sqlite"
            → IsListed r.name kind
            → IsBase dialect kind
            → IsAccepted dialect r
        pg_relation :
            (row : Option (List Cell))
            → dialect ≡ "postgres"
            → Gave (c.fetch_one (pg_class r.sql)) row
            → IsPgRow row
            → IsAccepted dialect r
        mysql_metadata :
            dialect ≡ "mysql"
            → contains_pair (views_of "mysql") (T.lower r.db) (T.lower r.name) ≡ true
            → IsAccepted dialect r
        mysql_table :
            (fold : Bool) (row : Option (List Cell))
            → dialect ≡ "mysql"
            → Gave (c.fetch_one (mysql_tables fold r.db r.name)) row
            → IsBase dialect (first_cell row)
            → IsAccepted dialect r

      abbrev IsSqliteKind : Relation → Cell → Type 0
      IsSqliteKind r kind =
          ((kind ≡ text "table") × (contains sqlite_schema_tables (T.lower r.name) ≡ true))
          ⊎ ((kind ≡ null) ⊎ IsListed r.name kind)

      sqlite_kind-Keeps : (r : Relation) → Keeps Whatever (IsSqliteKind r) (sqlite_kind c T r)
      unfolding sqlite_kind
      sqlite_kind-Keeps r =
          if-Keeps (contains sqlite_schema_tables (T.lower r.name)) _ _
            (λ e. give-Keeps (inl (refl, e)))
            (λ _.
              if-Keeps (not (str_eq r.db "")) _ _
                (λ _. listed (kind_in-Keeps r.name (text r.db ∷ [])))
                (λ _. bind-Keeps Whatever (any_run _) (λ rows _.
                  bind-Keeps Whatever (any_run _) (λ names _.
                    listed (kind_in-Keeps r.name (text "temp" ∷ text "main" ∷ names))))))
        where
          listed :
              {run : Act W CheckError Cell}
              → Keeps Whatever (λ (k : Cell). (k ≡ null) ⊎ IsListed r.name k) run
              → Keeps Whatever (IsSqliteKind r) run
          listed k = weaken-Keeps (λ (k : Cell). (k ≡ null) ⊎ IsListed r.name k) (λ a q. inr q) k

      pub verify_relation-Keeps :
          (dialect : String) (fold : Bool) (r : Relation)
          → Keeps Whatever
              (λ (u : Unit {0}). IsAccepted dialect r)
              (verify_relation c T dialect fold r)
      unfolding verify_relation
      verify_relation-Keeps dialect fold r =
          if-Keeps (not (str_eq r.catalog "")) _ _ (λ _. refuse-Keeps _)
            (λ _.
              if-Keeps (str_eq dialect "sqlite") _ _
                (λ e. bind-Keeps _ (sqlite_kind-Keeps r) (λ kind k.
                  weaken-Keeps (λ (u : Unit {0}). IsBase dialect kind)
                    (λ u base. sqlite kind ((eq_iff dialect "sqlite").0 e) k base)
                    (check_kind-Keeps dialect kind)))
                (λ _.
                  if-Keeps (str_eq dialect "postgres") _ _
                    (λ e. bind-Keeps _ (asked-Keeps (c.fetch_one (pg_class r.sql))) (λ row g.
                      weaken-Keeps (λ (u : Unit {0}). IsPgRow row)
                        (λ u ok_row. pg_relation row ((eq_iff dialect "postgres").0 e) g ok_row)
                        (check_pg_row-Keeps row)))
                    (λ _.
                      if-Keeps (str_eq dialect "mysql") _ _
                        (λ e.
                          if-Keeps
                            (contains_pair (views_of "mysql") (T.lower r.db) (T.lower r.name)) _ _
                            (λ m. give-Keeps (mysql_metadata ((eq_iff dialect "mysql").0 e) m))
                            (λ _.
                              bind-Keeps _
                                (asked-Keeps (c.fetch_one (mysql_tables fold r.db r.name)))
                                (λ row g.
                                  weaken-Keeps (λ (u : Unit {0}). IsBase dialect (first_cell row))
                                    (λ u base.
                                      mysql_table fold row ((eq_iff dialect "mysql").0 e) g base)
                                    (check_kind-Keeps dialect (first_cell row)))))
                        (λ _. refuse-Keeps _))))
        where
          sqlite :
              (kind : Cell)
              → dialect ≡ "sqlite"
              → IsSqliteKind r kind
              → IsBase dialect kind
              → IsAccepted dialect r
          sqlite kind e (inl (k, m)) base = schema_table e m
          sqlite kind e (inr (inl k)) base = absurd (
              cc (
                sym (null_base dialect)
                ∙ ap (is_kind (lookup dialect base_table_kinds)) (sym k)
                ∙ base))
          sqlite kind e (inr (inr l)) base = sqlite_table kind e l base
