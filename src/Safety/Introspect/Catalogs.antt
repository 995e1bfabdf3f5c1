-- ===== src/Safety/Introspect/Catalogs.antt =====
-- The dialects and their catalogs.
use sqllens.Safety.Denylist.{
  denied_funcs, always_denied_funcs, side_effect_funcs, contains, postgres_funcs, mysql_funcs,
  sqlite_funcs,
}
use sqllens.Safety.Introspect.{
  catalog_names, Catalog, TableNode, catalogs_by_dialect, is_catalog_table, sqlglot_dialect_for_url,
  starting_dialect,
}
use sqllens.Safety.Sqlglot.{Unicode, Sqlglot}
use sqllens.Prelude.{
  String, ◌≡◌, ◌⊎◌, inl, inr, true, Option, none, some, List, ◌++◌, arith, str_eq, Bool-cases, refl,
  [], ◌∷◌,
}
use sqllens.Prelude.Dict.{lookup}

-- A dialect with its own catalog and its own denylist.
pub record IsCovered (dialect : String) : Type 0 where
  pub catalog : Catalog
  pub names : List String
  pub has_catalog : lookup dialect catalogs_by_dialect ≡ some catalog
  pub has_names : lookup dialect side_effect_funcs ≡ some names
  pub denied : denied_funcs (some dialect) ≡ names ++ always_denied_funcs

starting_dialect-some :
    (S : Sqlglot) (U : Unicode) (scheme : String) {d : String}
    → starting_dialect S U scheme catalogs_by_dialect ≡ some d
    → (U.starts_with scheme d ≡ true) × ((d ≡ "postgres") ⊎ (d ≡ "mysql") ⊎ (d ≡ "sqlite"))
unfolding starting_dialect
starting_dialect-some S U scheme h = ground arith

IsCovered-of : {d : String} → (d ≡ "postgres") ⊎ (d ≡ "mysql") ⊎ (d ≡ "sqlite") → IsCovered d
unfolding denied_funcs lookup
IsCovered-of (inl e) = rw e (record {
  catalog = record { schemas = "pg_catalog" ∷ []; prefixes = "pg_" ∷ [] };
  names = postgres_funcs;
  has_catalog = refl;
  has_names = refl;
  denied = refl;
})
IsCovered-of (inr (inl e)) = rw e (record {
  catalog = record { schemas = "mysql" ∷ "sys" ∷ "performance_schema" ∷ []; prefixes = [] };
  names = mysql_funcs;
  has_catalog = refl;
  has_names = refl;
  denied = refl;
})
IsCovered-of (inr (inr e)) = rw e (record {
  catalog = record { schemas = []; prefixes = "sqlite_" ∷ "pragma_" ∷ [] };
  names = sqlite_funcs;
  has_catalog = refl;
  has_names = refl;
  denied = refl;
})

module _ (S : Sqlglot) (U : Unicode) where
  -- The dialect that a URL gives begins the URL's scheme, and it has a catalog and a denylist of its
  -- own: the guards never fall back to the unions for it.
  pub sqlglot_dialect_for_url-IsCovered :
      (url d : String)
      → sqlglot_dialect_for_url S U url ≡ some d
      → (U.starts_with (U.lower (U.before url "://")) d ≡ true) × IsCovered d
  unfolding sqlglot_dialect_for_url
  sqlglot_dialect_for_url-IsCovered url d h =
      let (s, m) = starting_dialect-some S U (U.lower (U.before url "://")) h in (s, IsCovered-of m)

  -- Whatever a dialect's catalogs claim, the union that stands for no dialect claims too.
  pub is_catalog_table_mono :
      (dialect : Option String) (t : TableNode)
      → is_catalog_table S U (catalog_names dialect) t ≡ true
      → is_catalog_table S U (catalog_names none) t ≡ true
  unfolding is_catalog_table catalog_names contains
  is_catalog_table_mono none t h = h
  is_catalog_table_mono (some d) t h = elim (Bool-cases (str_eq "postgres" d)) [
    | inl p ↦ let k = rw p at h in ground arith
    | inr p ↦ elim (Bool-cases (str_eq "mysql" d)) [
      | inl m ↦ let k = rw (p, m) at h in ground arith
      | inr m ↦ elim (Bool-cases (str_eq "sqlite" d)) [
        | inl l ↦ let k = rw (p, m, l) at h in ground arith
        | inr l ↦ rw (p, m, l) at h
      ]
    ]
  ]
