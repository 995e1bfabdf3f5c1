-- ===== src/Safety/Rls/Origins.antt =====
-- Where the identities come from that the scope walk notes as injected or as references.
use sqllens.Prelude.{
  ℕ, ◌≡◌, sym, ap, ◌⊎◌, inl, inr, true, false, some, List, [], ◌∷◌, map, ◌==◌, ==_iff, Bool-cases,
  refl, Option, none, ◌∙◌,
}
use sqllens.Prelude.Result.{ok, >>=-eq-ok, ok-injective}
use sqllens.Prelude.Dict.{Dict}
use sqllens.Prelude.Members.{head, tail, In}
use sqllens.Safety.Rls.{
  Table, Scope, RlsSyntax, Walk, has_id, inject_tables, is_protected, note_references, inject_rules,
  rules_for, walk_scope, walk_scopes,
}
use sqllens.Safety.Rls.Terms.{Rule, Value}

module _ {N : Type 0} (S : RlsSyntax N) (rules : List (Rule N)) where
  open S use {Tree, lower}

  -- A protected base table of some SELECT scope, by identity.
  pub record IsInjected (ss : List Scope) (i : ℕ) : Type 0 where
    pub scope : Scope
    pub scope_in : In scope ss
    pub select : ℕ
    pub is_select : scope.select_node ≡ some select
    pub table : Table
    pub table_in : In table scope.base_tables
    pub same_id : table.id ≡ i
    pub protected : is_protected S rules (lower table.name) ≡ true

  -- A table of some SELECT scope that is not one of its base tables: a CTE or derived table there.
  pub record IsReference (ss : List Scope) (i : ℕ) : Type 0 where
    pub scope : Scope
    pub scope_in : In scope ss
    pub table : Table
    pub table_in : In table scope.tables
    pub same_id : table.id ≡ i
    pub not_base : has_id (map (λ t. t.id) scope.base_tables) i ≡ false

  inject_tables-ids :
      (metadata : Dict (Value N)) (n : ℕ) (ts : List Table) (w : Walk Tree) {w' : Walk Tree} (i : ℕ)
      → inject_tables S rules metadata n ts w ≡ ok w'
      → has_id w'.injected i ≡ true
      → (has_id w.injected i ≡ true)
        ⊎ ((t : Table) × In t ts × (t.id ≡ i) × (is_protected S rules (lower t.name) ≡ true))
  unfolding inject_tables has_id
  inject_tables-ids metadata n [] w i h k = inl (rw (ok-injective h) k)
  inject_tables-ids metadata n (t ∷ ts) w {w'} i h k =
      elim (Bool-cases (is_protected S rules (lower t.name))) [
        | inl p ↦
            let (tree, e, h') =
              >>=-eq-ok
                (inject_rules S (rules_for S rules (lower t.name)) metadata t.alias_or_name n
                  w.tree)
                _ (rw p at h) in
            elim (inject_tables-ids metadata n ts _ i h' k) [
              | inl q ↦ elim (Bool-cases (t.id == i)) [
                | inl s ↦ inr (t, head, (==_iff t.id i).0 s, p)
                | inr s ↦ inl (rw s at q)
              ]
              | inr (x, m, s, q) ↦ inr (x, tail m, s, q)
            ]
        | inr p ↦ elim (inject_tables-ids metadata n ts w i (rw p at h) k) [
          | inl q ↦ inl q
          | inr (x, m, s, q) ↦ inr (x, tail m, s, q)
        ]
      ]

  inject_tables-references :
      (metadata : Dict (Value N)) (n : ℕ) (ts : List Table) (w : Walk Tree) {w' : Walk Tree}
      → inject_tables S rules metadata n ts w ≡ ok w'
      → w'.references ≡ w.references
  unfolding inject_tables
  inject_tables-references metadata n [] w h =
      ap {A = Walk Tree} (λ x. x.references) (sym (ok-injective h))
  inject_tables-references metadata n (t ∷ ts) w h =
      elim (Bool-cases (is_protected S rules (lower t.name))) [
        | inl p ↦
            let (tree, e, h') =
              >>=-eq-ok
                (inject_rules S (rules_for S rules (lower t.name)) metadata t.alias_or_name n
                  w.tree)
                _ (rw p at h) in
            inject_tables-references metadata n ts _ h'
        | inr p ↦ inject_tables-references metadata n ts w (rw p at h)
      ]

  note_references-ids :
      (base : List ℕ) (ts : List Table) (refs : List ℕ) (i : ℕ)
      → has_id (note_references S rules base ts refs) i ≡ true
      → (has_id refs i ≡ true) ⊎ ((t : Table) × In t ts × (t.id ≡ i) × (has_id base i ≡ false))
  unfolding note_references has_id
  note_references-ids base [] refs i h = inl h
  note_references-ids base (t ∷ ts) refs i h = elim (note_references-ids base ts _ i h) [
    | inl q ↦ elim (Bool-cases (has_id base t.id)) [
      | inl b ↦ inl (rw b at q)
      | inr b ↦ elim (Bool-cases (is_protected S rules (lower t.name))) [
        | inl p ↦ elim (Bool-cases (t.id == i)) [
          | inl s ↦ inr (t, head, (==_iff t.id i).0 s, rw ((==_iff t.id i).0 s) at b)
          | inr s ↦ inl (rw (b, p, s) at q)
        ]
        | inr p ↦ inl (rw (b, p) at q)
      ]
    ]
    | inr (x, m, s, q) ↦ inr (x, tail m, s, q)
  ]

  IsInjected-tail : {s : Scope} {ss : List Scope} {i : ℕ} → IsInjected ss i → IsInjected (s ∷ ss) i
  IsInjected-tail k = record {
    scope = k.scope;
    scope_in = tail k.scope_in;
    select = k.select;
    is_select = k.is_select;
    table = k.table;
    table_in = k.table_in;
    same_id = k.same_id;
    protected = k.protected;
  }

  IsReference-tail :
      {s : Scope} {ss : List Scope} {i : ℕ} → IsReference ss i → IsReference (s ∷ ss) i
  IsReference-tail k = record {
    scope = k.scope;
    scope_in = tail k.scope_in;
    table = k.table;
    table_in = k.table_in;
    same_id = k.same_id;
    not_base = k.not_base;
  }

  -- One scope: what it notes, it found among its own tables.
  walk_scope-ids :
      (metadata : Dict (Value N)) (o : Option ℕ) (s : Scope) (ss : List Scope) (w : Walk Tree)
      {w' : Walk Tree} (i : ℕ)
      → s.select_node ≡ o
      → walk_scope S rules metadata o s w ≡ ok w'
      → (has_id w'.injected i ≡ true → (has_id w.injected i ≡ true) ⊎ IsInjected (s ∷ ss) i)
        × (has_id w'.references i ≡ true → (has_id w.references i ≡ true) ⊎ IsReference (s ∷ ss) i)
  unfolding walk_scope
  walk_scope-ids metadata none s ss w i e h =
      (λ k. inl (rw (ok-injective h) k), λ k. inl (rw (ok-injective h) k))
  walk_scope-ids metadata (some n) s ss w i e h =
      let (v, ev, h') = >>=-eq-ok (inject_tables S rules metadata n s.base_tables w) _ h in
      (injects v ev (ok-injective h'), refers v ev (ok-injective h'))
    where
      injects :
          (v : Walk Tree) {w' : Walk Tree} {refs : List ℕ}
          → inject_tables S rules metadata n s.base_tables w ≡ ok v
          → record v { references = refs } ≡ w'
          → has_id w'.injected i ≡ true
          → (has_id w.injected i ≡ true) ⊎ IsInjected (s ∷ ss) i
      injects v ev same k =
          elim (inject_tables-ids metadata n s.base_tables w i ev
            (ap {A = Walk Tree} (λ x. has_id x.injected i) same ∙ k)) [
              | inl q ↦ inl q
              | inr (t, m, q, p) ↦ inr (record {
                scope = s;
                scope_in = head;
                select = n;
                is_select = e;
                table = t;
                table_in = m;
                same_id = q;
                protected = p;
              })
            ]

      refers :
          (v : Walk Tree) {w' : Walk Tree}
          → inject_tables S rules metadata n s.base_tables w ≡ ok v
          → record v {
            references =
                note_references S rules (map (λ t. t.id) s.base_tables) s.tables v.references;
          }
            ≡ w'
          → has_id w'.references i ≡ true
          → (has_id w.references i ≡ true) ⊎ IsReference (s ∷ ss) i
      refers v ev same k =
          elim (note_references-ids (map (λ t. t.id) s.base_tables) s.tables v.references i
            (ap {A = Walk Tree} (λ x. has_id x.references i) same ∙ k)) [
              | inl q ↦ inl (rw (inject_tables-references metadata n s.base_tables w ev) at q)
              | inr (t, m, q, b) ↦ inr (record {
                scope = s;
                scope_in = head;
                table = t;
                table_in = m;
                same_id = q;
                not_base = b;
              })
            ]

  pub walk_scopes-ids :
      (metadata : Dict (Value N)) (ss : List Scope) (w : Walk Tree) {w' : Walk Tree} (i : ℕ)
      → walk_scopes S rules metadata ss w ≡ ok w'
      → (has_id w'.injected i ≡ true → (has_id w.injected i ≡ true) ⊎ IsInjected ss i)
        × (has_id w'.references i ≡ true → (has_id w.references i ≡ true) ⊎ IsReference ss i)
  unfolding walk_scopes
  walk_scopes-ids metadata [] w i h =
      (λ k. inl (rw (ok-injective h) k), λ k. inl (rw (ok-injective h) k))
  walk_scopes-ids metadata (s ∷ ss) w i h =
      let (v, e, h') = >>=-eq-ok (walk_scope S rules metadata s.select_node s w) _ h in
      let here = walk_scope-ids metadata s.select_node s ss w i refl e in
      let later = walk_scopes-ids metadata ss v i h' in
      (
        λ k. elim (later.0 k) [ inl q ↦ here.0 q | inr q ↦ inr (IsInjected-tail q) ],
        λ k. elim (later.1 k) [ inl q ↦ here.1 q | inr q ↦ inr (IsReference-tail q) ],
      )
