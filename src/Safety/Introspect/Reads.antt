-- ===== src/Safety/Introspect/Reads.antt =====
-- Which statements are classified as introspection.
use sqllens.Prelude.Members.{In, head, tail}
use sqllens.Safety.Introspect.{
  CteScope, TableNode, scope_references, all_references, Catalog, TableSyntax, any_catalog_table,
  contains, cte_reference_ids, is_introspection_query, first_sql_keyword, is_catalog_table,
  catalog_names, known_dialect, parse_known, classify_parsed,
}
use sqllens.Safety.Rls.{has_id}
use sqllens.Prelude.{
  ℕ, String, ◌≡◌, refl, ap, ◌↔◌, ◌⊎◌, inl, inr, true, false, not, ◌&&◌, ◌||◌, Option, none, some,
  List, [], ◌∷◌, ◌++◌, arith, str_eq, eq_iff, ◌==◌, ==_iff, Bool-cases,
}
use sqllens.Prelude.Result.{Result, ok, err, ok-injective}
use sqllens.Safety.Sqlglot.{Unicode, Sqlglot, ParseFailure, sql_error, other_error}
use sqllens.Safety.MysqlText.{Text}

-- `i` is a table without a qualifier whose own name is a CTE of its scope.
pub record IsCteReference (ss : List CteScope) (i : ℕ) : Type 0 where
  pub scope : CteScope
  pub table : TableNode
  pub in_scopes : In scope ss
  pub in_tables : In table scope.tables
  pub same : table.id ≡ i
  pub unqualified : (table.has_db || table.has_catalog) ≡ false
  pub visible : contains scope.cte_sources table.name ≡ true

has_id-append : (is js : List ℕ) (i : ℕ) → has_id (is ++ js) i ≡ (has_id is i || has_id js i)
unfolding has_id
has_id-append [] js i = refl
has_id-append (x ∷ is) js i = ground (arith, has_id-append is js i)

-- the tables of one scope
scope_references-found :
    (ctes : List String) (ts : List TableNode) (i : ℕ)
    → has_id (scope_references ctes ts) i ≡ true
    → (t : TableNode) × In t ts
      × (t.id ≡ i)
      × ((t.has_db || t.has_catalog) ≡ false)
      × (contains ctes t.name ≡ true)
unfolding scope_references has_id
scope_references-found ctes [] i h = cc
scope_references-found ctes (t ∷ ts) i h =
    elim (Bool-cases (not t.has_db && not t.has_catalog && contains ctes t.name)) [
      | inl e ↦ elim (Bool-cases (t.id == i)) [
        | inl s ↦ (t, head, (==_iff t.id i).0 s, ground arith, ground arith)
        | inr s ↦
            let (u, m, same, q, v) = scope_references-found ctes ts i (rw (e, s) at h) in
            (u, tail m, same, q, v)
      ]
      | inr e ↦
          let (u, m, same, q, v) = scope_references-found ctes ts i (rw e at h) in
          (u, tail m, same, q, v)
    ]

scope_references-holds :
    (ctes : List String) (ts : List TableNode) (t : TableNode)
    → In t ts
    → (t.has_db || t.has_catalog) ≡ false
    → contains ctes t.name ≡ true
    → has_id (scope_references ctes ts) t.id ≡ true
unfolding scope_references has_id
scope_references-holds ctes [] t m q v = elim m [ ]
scope_references-holds ctes (x ∷ ts) t head q v = ground (arith, ==_iff t.id t.id)
scope_references-holds ctes (x ∷ ts) t (tail m) q v =
    ground (arith, scope_references-holds ctes ts t m q v)

all_references-found :
    (ss : List CteScope) (i : ℕ) → has_id (all_references ss) i ≡ true → IsCteReference ss i
unfolding all_references has_id
all_references-found [] i h = cc
all_references-found (s ∷ ss) i h =
    elim (Bool-cases (has_id (scope_references s.cte_sources s.tables) i)) [
      | inl e ↦
          let (t, m, same, q, v) = scope_references-found s.cte_sources s.tables i e in
          record {
            scope = s;
            table = t;
            in_scopes = head;
            in_tables = m;
            same = same;
            unqualified = q;
            visible = v;
          }
      | inr e ↦
          let both =
            has_id-append (scope_references s.cte_sources s.tables) (all_references ss) i in
          let k = all_references-found ss i (ground (arith, both)) in
          record {
            scope = k.scope;
            table = k.table;
            in_scopes = tail k.in_scopes;
            in_tables = k.in_tables;
            same = k.same;
            unqualified = k.unqualified;
            visible = k.visible;
          }
    ]

all_references-holds :
    (ss : List CteScope) (s : CteScope) (t : TableNode)
    → In s ss
    → In t s.tables
    → (t.has_db || t.has_catalog) ≡ false
    → contains s.cte_sources t.name ≡ true
    → has_id (all_references ss) t.id ≡ true
unfolding all_references
all_references-holds [] s t m n q v = elim m [ ]
all_references-holds (x ∷ ss) s t head n q v = ground (
  arith,
  has_id-append (scope_references s.cte_sources s.tables) (all_references ss) t.id,
  scope_references-holds s.cte_sources s.tables t n q v,
)
all_references-holds (x ∷ ss) s t (tail m) n q v = ground (
  arith,
  has_id-append (scope_references x.cte_sources x.tables) (all_references ss) t.id,
  all_references-holds ss s t m n q v,
)

module _ (S : Sqlglot) (U : Unicode) (T : TableSyntax S) where
  open T use {normalize, scopes, find_tables}

  -- The tables excluded are exactly the references to CTEs, if normalization and scope analysis end
  -- without an exception.
  pub cte_reference_ids_lem :
      (tree : S.Node) (dialect : Option String) (ss : List CteScope) (i : ℕ)
      → (normalize dialect tree).1 ≡ true
      → scopes (normalize dialect tree).0 ≡ some ss
      → (has_id (cte_reference_ids S U T tree dialect).1 i ≡ true) ↔ IsCteReference ss i
  unfolding cte_reference_ids
  cte_reference_ids_lem tree dialect ss i e a = rw e (
      rw a (
        (λ h. all_references-found ss i h),
        (λ k.
            let m =
              all_references-holds ss k.scope k.table k.in_scopes k.in_tables k.unqualified
                k.visible in
            rw k.same at m),
      ))

  -- A table that is no CTE reference and stands in a catalog of the dialect.
  pub record ReadsCatalog (dialect : Option String) (tree : S.Node) : Type 0 where
    pub table : TableNode
    pub at : In table (find_tables (normalize dialect tree).0)
    pub counted : has_id (cte_reference_ids S U T tree dialect).1 table.id ≡ false
    pub catalog : is_catalog_table S U (catalog_names dialect) table ≡ true

  any_catalog_table-found :
      (c : Catalog) (ctes : List ℕ) (ts : List TableNode)
      → any_catalog_table S U c ctes ts ≡ true
      → (t : TableNode) × In t ts × (has_id ctes t.id ≡ false) × (is_catalog_table S U c t ≡ true)
  unfolding any_catalog_table
  any_catalog_table-found c ctes [] h = cc
  any_catalog_table-found c ctes (t ∷ ts) h = elim (Bool-cases (has_id ctes t.id)) [
    | inl e ↦ let (u, m, x, y) = any_catalog_table-found c ctes ts (rw e at h) in (u, tail m, x, y)
    | inr e ↦ elim (Bool-cases (is_catalog_table S U c t)) [
      | inl k ↦ (t, head, e, k)
      | inr k ↦
          let (u, m, x, y) = any_catalog_table-found c ctes ts (rw (e, k) at h) in (u, tail m, x, y)
    ]
  ]

  any_catalog_table-holds :
      (c : Catalog) (ctes : List ℕ) (ts : List TableNode) (t : TableNode)
      → In t ts
      → has_id ctes t.id ≡ false
      → is_catalog_table S U c t ≡ true
      → any_catalog_table S U c ctes ts ≡ true
  unfolding any_catalog_table
  any_catalog_table-holds c ctes [] t m e k = elim m [ ]
  any_catalog_table-holds c ctes (x ∷ ts) t head e k = rw e (rw k)
  any_catalog_table-holds c ctes (x ∷ ts) t (tail m) e k =
      ground (arith, any_catalog_table-holds c ctes ts t m e k)

  -- A statement counts as introspection exactly if its first word is SHOW, or it parses and some
  -- table in it, other than a CTE reference, is in a catalog. The dialect is the requested one, or
  -- none if sqlglot does not know it.
  pub is_introspection_query_iff :
      (sql : Text) (requested : Option String) (word : String)
      → first_sql_keyword S U sql (known_dialect S U requested) ≡ ok word
      → (is_introspection_query S U T sql requested ≡ ok true) ↔ (
          (word ≡ "SHOW")
          ⊎ ((tree : S.Node) × (parse_known S U T (known_dialect S U requested) sql
                ≡ ok (some tree))
              × ReadsCatalog (known_dialect S U requested) tree))
  unfolding is_introspection_query
  is_introspection_query_iff sql requested word e = rw e (elim (Bool-cases (str_eq word "SHOW")) [
    | inl s ↦ rw s ((λ h. inl ((eq_iff word "SHOW").0 s)), (λ h. refl))
    | inr s ↦ rw s (
      (λ h. inr (classified (parse_known S U T (known_dialect S U requested) sql) refl h)),
      (λ k. elim k [
        | inl same ↦ absurd (ground (arith, eq_iff word "SHOW"))
        | inr (tree, p, r) ↦
            rw p (ap ok (any_catalog_table-holds _ _ _ r.table r.at r.counted r.catalog))
      ]),
    )
  ])
    where
      classified :
          (o : Result ParseFailure (Option S.Node))
          → parse_known S U T (known_dialect S U requested) sql ≡ o
          → classify_parsed S U T (known_dialect S U requested) o ≡ ok true
          → (tree : S.Node) × (o ≡ ok (some tree)) × ReadsCatalog (known_dialect S U requested) tree
      classified (ok none) p h = cc
      classified (ok (some tree)) p h =
          let (t, m, c, k) = any_catalog_table-found _ _ _ (ok-injective h) in
          (tree, refl, record { table = t; at = m; counted = c; catalog = k })
      classified (err sql_error) p h = cc
      classified (err other_error) p h = cc
