-- ===== src/Safety/Rls.antt =====
-- src/sqllens/safety/rls.py: values and predicates (Rls/Terms) and the rewrite of a statement.
pub mod Terms
pub mod Values
pub mod Injects
pub mod Origins
pub mod Scoped
use sqllens.Prelude.{
  ℕ, String, Bool, false, not, ◌&&◌, ◌||◌, Option, none, some, List, [], ◌∷◌, map, str_eq, ◌==◌,
  if◌then◌else◌,
}
use sqllens.Prelude.Result.{Result, ok, err, ◌>>=◌, ◌>>◌, raise_if}
use sqllens.Prelude.Dict.{Dict}
use sqllens.Safety.Sqlglot.{ParseFailure, sql_error, other_error}
use sqllens.Safety.MysqlText.{Text}
use sqllens.Safety.Rls.Terms.{
  Value, Predicate, RlsRefusal, resolve_value, predicate, not_one_statement, non_ascii_identifier,
  not_a_query, unscoped, unproven_reference, Rule, unparsable, unexpected,
}

-- An identifier, and a table node with its identity.
pub record Identifier : Type 0 where
  pub spelling : String
  pub quoted : Bool

pub record Table : Type 0 where
  pub id : ℕ
  pub name : String
  pub alias : String
  pub alias_or_name : String

-- A scope of `traverse_scope`: its SELECT node, if it is one, the values of `scope.sources` that
-- are tables, and `scope.tables`.
pub record Scope : Type 0 where
  pub select_node : Option ℕ
  pub base_tables : List Table
  pub tables : List Table

-- What the rewrite uses of sqlglot. `none` for `scopes` is any exception; `scopes` are read before
-- the first predicate is added.
pub record RlsSyntax (N : Type 0) : Type 1 where
  pub Tree : Type 0
  pub parse : Option String → Text → Result ParseFailure (List (Option Tree))
  pub identifiers : Tree → List Identifier
  pub with_identifiers : Tree → List Identifier → Tree
  pub is_query : Tree → Bool
  pub scopes : Tree → Option (List Scope)
  pub all_tables : Tree → List Table
  -- select.where(predicate, append=True, copy=False)
  pub where_and : Tree → ℕ → Predicate N → Tree
  pub render : Option String → Tree → Text
  pub lower : String → String
  pub is_ascii : String → Bool

-- What the scope walk keeps: the tree, `injected_ids` and `reference_ids`.
pub record Walk (T : Type 0) : Type 0 where
  pub tree : T
  pub injected : List ℕ
  pub references : List ℕ

unfoldable pub has_id : List ℕ → ℕ → Bool
has_id [] i = false
has_id (j ∷ js) i = j == i || has_id js i

module _ {N : Type 0} (S : RlsSyntax N) where
  open S use {
    Tree, parse, identifiers, with_identifiers, is_query, scopes, all_tables, where_and, render,
    lower, is_ascii,
  }

  unfoldable pub fold_identifiers : List Identifier → Result RlsRefusal (List Identifier)
  fold_identifiers [] = ok []
  fold_identifiers (i ∷ is) =
      let rest = λ (j : Identifier). (do js ← fold_identifiers is; ok (j ∷ js)) in
      if i.quoted
      then rest i
      else if is_ascii i.spelling
      then rest (record i { spelling = lower i.spelling })
      else err non_ascii_identifier

  unfoldable pub normalize_rls_identifiers : Tree → Option String → Result RlsRefusal Tree
  normalize_rls_identifiers tree none = ok tree
  normalize_rls_identifiers tree (some dialect) =
      if str_eq dialect "postgres"
      then (do is ← fold_identifiers (identifiers tree); ok (with_identifiers tree is))
      else ok tree

  -- rules_by_table.get(name, []): the rules of one table, in order
  unfoldable pub rules_for : List (Rule N) → String → List (Rule N)
  rules_for [] name = []
  rules_for (r ∷ rs) name =
      if str_eq (lower r.table) name then r ∷ rules_for rs name else rules_for rs name

  -- name in rules_by_table
  unfoldable pub is_protected : List (Rule N) → String → Bool
  is_protected [] name = false
  is_protected (r ∷ rs) name = str_eq (lower r.table) name || is_protected rs name

  -- for rule in rules_by_table[name]: select.where(...)
  unfoldable pub inject_rules :
      List (Rule N) → Dict (Value N) → String → ℕ → Tree → Result RlsRefusal Tree
  inject_rules [] metadata qualifier select tree = ok tree
  inject_rules (r ∷ rs) metadata qualifier select tree = do
    value ← resolve_value r metadata
    p ← predicate r qualifier value
    inject_rules rs metadata qualifier select (where_and tree select p)

  -- for table in base_table_sources
  unfoldable pub inject_tables :
      List (Rule N) → Dict (Value N) → ℕ → List Table → Walk Tree → Result RlsRefusal (Walk Tree)
  inject_tables rules metadata select [] w = ok w
  inject_tables rules metadata select (t ∷ ts) w =
      let name = lower t.name in
      let injected = (do
        tree ← inject_rules (rules_for rules name) metadata t.alias_or_name select w.tree
        inject_tables rules metadata select ts
            (record w { tree = tree; injected = t.id ∷ w.injected })) in
      let skipped = inject_tables rules metadata select ts w in
      if is_protected rules name then injected else skipped

  -- for table in scope.tables
  unfoldable pub note_references : List (Rule N) → List ℕ → List Table → List ℕ → List ℕ
  note_references rules base [] refs = refs
  note_references rules base (t ∷ ts) refs = note_references rules base ts (
      if has_id base t.id
      then refs
      else if is_protected rules (lower t.name)
      then t.id ∷ refs
      else refs)

  -- for scope in scopes
  unfoldable pub walk_scope :
      List (Rule N) → Dict (Value N) → Option ℕ → Scope → Walk Tree → Result RlsRefusal (Walk Tree)
  walk_scope rules metadata none s w = ok w
  walk_scope rules metadata (some select) s w = do
    w' ← inject_tables rules metadata select s.base_tables w
    let ids = map (λ t. t.id) s.base_tables
    ok (record w' { references = note_references rules ids s.tables w'.references })

  unfoldable pub walk_scopes :
      List (Rule N) → Dict (Value N) → List Scope → Walk Tree → Result RlsRefusal (Walk Tree)
  walk_scopes rules metadata [] w = ok w
  walk_scopes rules metadata (s ∷ ss) w = do
    w' ← walk_scope rules metadata s.select_node s w
    walk_scopes rules metadata ss w'

  -- name in rules_by_table, or alias in rules_by_table
  unfoldable pub mentions_protected : List (Rule N) → Table → Bool
  mentions_protected rules t =
      is_protected rules (lower t.name) || is_protected rules (lower t.alias)

  -- the last loop: every mention of a protected table is accounted for
  unfoldable pub account : List (Rule N) → Walk Tree → List Table → Result RlsRefusal Unit
  account rules w [] = ok tt
  account rules w (t ∷ ts) = do
    raise_if
        (mentions_protected rules t && not (has_id w.injected t.id || has_id w.references t.id))
        unproven_reference
    account rules w ts

  -- the statements of a parse, when there is exactly one
  unfoldable pub single : List (Option Tree) → Result RlsRefusal Tree
  single (some tree ∷ []) = ok tree
  single _ = err not_one_statement

  unfoldable pub parsed :
      Result ParseFailure (List (Option Tree)) → Result RlsRefusal (List (Option Tree))
  parsed (ok ts) = ok ts
  parsed (err sql_error) = err unparsable
  parsed (err other_error) = err unexpected

  unfoldable pub scoped : Option (List Scope) → Result RlsRefusal (List Scope)
  scoped (some ss) = ok ss
  scoped none = err unscoped

  -- the rewrite of a parsed statement, up to its rendering
  unfoldable pub rewrite :
      List (Rule N) → Dict (Value N) → Tree → List Scope → Result RlsRefusal (Walk Tree)
  rewrite rules metadata tree ss = do
    w ← walk_scopes rules metadata ss (record { tree = tree; injected = []; references = [] })
    account rules w (all_tables w.tree)
    ok w

  -- the statement behind the checks of its shape
  unfoldable pub prepare : Text → Option String → Result RlsRefusal Tree
  unfolding single parsed
  prepare sql dialect = do
    statements ← parsed (parse dialect sql)
    tree ← single statements
    folded ← normalize_rls_identifiers tree dialect
    raise_if (not (is_query folded)) not_a_query
    ok folded

  unfoldable pub apply_rls :
      Text → List (Rule N) → Option String → Dict (Value N) → Result RlsRefusal Text
  unfolding scoped
  apply_rls sql [] dialect metadata = ok sql
  apply_rls sql (r ∷ rs) dialect metadata = do
    tree ← prepare sql dialect
    ss ← scoped (scopes tree)
    w ← rewrite (r ∷ rs) metadata tree ss
    ok (render dialect w.tree)
