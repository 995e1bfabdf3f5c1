-- ===== src/Safety/Rls/Injects.antt =====
-- The predicates that the scope walk adds: every rule of every protected base table has its own.
use sqllens.Prelude.{
  ℕ, String, ◌≡◌, refl, sym, inl, inr, true, some, List, [], ◌∷◌, ◌++◌, arith, str_eq, Bool-cases,
  ap, ◌∙◌, false, Option, none,
}
use sqllens.Prelude.Result.{ok, >>=-eq-ok, ok-injective}
use sqllens.Prelude.Dict.{Dict}
use sqllens.Safety.Rls.Terms.{Value, Predicate, Rule}
use sqllens.Safety.Rls.{
  Table, Scope, RlsSyntax, inject_rules, is_protected, resolve_value, rules_for, predicate, Walk,
  inject_tables, walk_scope, walk_scopes,
}
use mathlib.Core.Path.{subst}
use sqllens.Prelude.Members.{In, In-append_left, In-append_right, head, tail}

some_inj : {a b : ℕ} → some a ≡ some b → a ≡ b
some_inj h = cc

module _ {N : Type 0} (S : RlsSyntax N) where
  open S use {Tree, where_and, lower}

  abbrev pub Injection : Type 0
  Injection = ℕ × Predicate N

  -- The predicates added to a tree, in order.
  pub add_all : Tree → List Injection → Tree
  add_all tree [] = tree
  add_all tree ((n, p) ∷ rest) = add_all (where_and tree n p) rest

  pub add_all-append :
      (tree : Tree) (a b : List Injection) → add_all tree (a ++ b) ≡ add_all (add_all tree a) b
  unfolding add_all
  add_all-append tree [] b = refl
  add_all-append tree ((n, p) ∷ a) b = add_all-append (where_and tree n p) a b

  -- The predicate of rule `r` under `qualifier` is among those added at the SELECT `select`.
  pub record IsAdded (metadata : Dict (Value N)) (inj : List Injection) (select : ℕ)
      (qualifier : String) (r : Rule N) : Type 0 where
    pub value : Value N
    pub pred : Predicate N
    pub resolved : resolve_value r metadata ≡ ok value
    pub built : predicate r qualifier value ≡ ok pred
    pub place : In (select, pred) inj

  module _ (rules : List (Rule N)) (metadata : Dict (Value N)) where
    -- every rule that protects the table `t`
    abbrev pub AddsTable : List Injection → ℕ → Table → Type 0
    AddsTable inj select t =
        (r : Rule N)
        → In r rules
        → str_eq (lower r.table) (lower t.name) ≡ true
        → IsAdded metadata inj select t.alias_or_name r

    abbrev pub AddsScope : List Injection → Scope → Type 0
    AddsScope inj s =
        (select : ℕ)
        → s.select_node ≡ some select
        → (t : Table) → In t s.base_tables
        → AddsTable inj select t

  IsAdded-append_left :
      {metadata : Dict (Value N)} {a : List Injection} (b : List Injection) {select : ℕ}
      {qualifier : String} {r : Rule N}
      → IsAdded metadata a select qualifier r
      → IsAdded metadata (a ++ b) select qualifier r
  IsAdded-append_left b k = record {
    value = k.value;
    pred = k.pred;
    resolved = k.resolved;
    built = k.built;
    place = In-append_left b k.place;
  }

  IsAdded-append_right :
      {metadata : Dict (Value N)} (a : List Injection) {b : List Injection} {select : ℕ}
      {qualifier : String} {r : Rule N}
      → IsAdded metadata b select qualifier r
      → IsAdded metadata (a ++ b) select qualifier r
  IsAdded-append_right a k = record {
    value = k.value;
    pred = k.pred;
    resolved = k.resolved;
    built = k.built;
    place = In-append_right a k.place;
  }

  inject_rules-adds :
      (metadata : Dict (Value N)) (rs : List (Rule N)) (q : String) (n : ℕ) (tree : Tree)
      {tree' : Tree}
      → inject_rules S rs metadata q n tree ≡ ok tree'
      → (inj : List Injection) × (tree' ≡ add_all tree inj)
        × ((r : Rule N) → In r rs → IsAdded metadata inj n q r)
  unfolding inject_rules add_all
  inject_rules-adds metadata [] q n tree h = ([], sym (ok-injective h), λ r m. elim m [ ])
  inject_rules-adds metadata (r ∷ rs) q n tree h =
      let (v, ev, h') = >>=-eq-ok (resolve_value r metadata) _ h in
      let (p, ep, h'') = >>=-eq-ok (predicate r q v) _ h' in
      let (inj, e, adds) = inject_rules-adds metadata rs q n (where_and tree n p) h'' in
      ((n, p) ∷ inj, e, both v p ev ep adds)
    where
      both :
          (v : Value N) (p : Predicate N) {inj : List Injection}
          → resolve_value r metadata ≡ ok v
          → predicate r q v ≡ ok p
          → ((x : Rule N) → In x rs → IsAdded metadata inj n q x)
          → (x : Rule N) → In x (r ∷ rs)
          → IsAdded metadata ((n, p) ∷ inj) n q x
      both v p ev ep adds x head = record {
        value = v;
        pred = p;
        resolved = ev;
        built = ep;
        place = head;
      }
      both v p ev ep adds x (tail m) = IsAdded-append_right ((n, p) ∷ []) (adds x m)

  In-rules_for :
      (rules : List (Rule N)) (name : String) (r : Rule N)
      → In r rules
      → str_eq (lower r.table) name ≡ true
      → In r (rules_for S rules name)
  unfolding rules_for
  In-rules_for [] name r m e = elim m [ ]
  In-rules_for (x ∷ rs) name r head e = rw e head
  In-rules_for (x ∷ rs) name r (tail m) e = elim (Bool-cases (str_eq (lower x.table) name)) [
    | inl t ↦ rw t (tail (In-rules_for rs name r m e))
    | inr t ↦ rw t (In-rules_for rs name r m e)
  ]

  pub In-is_protected :
      (rules : List (Rule N)) (name : String) (r : Rule N)
      → In r rules
      → str_eq (lower r.table) name ≡ true
      → is_protected S rules name ≡ true
  unfolding is_protected
  In-is_protected [] name r m e = elim m [ ]
  In-is_protected (x ∷ rs) name r head e = rw e
  In-is_protected (x ∷ rs) name r (tail m) e = ground (arith, In-is_protected rs name r m e)

  module _ (rules : List (Rule N)) (metadata : Dict (Value N)) where
    AddsTables : List Injection → ℕ → List Table → Type 0
    AddsTables inj n ts = (t : Table) → In t ts → AddsTable rules metadata inj n t

    AddsTables-cons :
        (n : ℕ) (t : Table) (ts : List Table) (a b : List Injection)
        → AddsTable rules metadata a n t
        → AddsTables b n ts
        → AddsTables (a ++ b) n (t ∷ ts)
    unfolding AddsTables
    AddsTables-cons n t ts a b here there x head r m e = IsAdded-append_left b (here r m e)
    AddsTables-cons n t ts a b here there x (tail k) r m e =
        IsAdded-append_right a (there x k r m e)

    -- A table that no rule protects asks for nothing.
    AddsTable-nil :
        (n : ℕ) (t : Table)
        → is_protected S rules (lower t.name) ≡ false
        → AddsTable rules metadata [] n t
    AddsTable-nil n t h r m e = cc (In-is_protected rules (lower t.name) r m e)

    inject_tables-adds :
        (n : ℕ) (ts : List Table) (w : Walk Tree) {w' : Walk Tree}
        → inject_tables S rules metadata n ts w ≡ ok w'
        → (inj : List Injection) × (w'.tree ≡ add_all w.tree inj) × AddsTables inj n ts
    unfolding inject_tables add_all AddsTables
    inject_tables-adds n [] w h = ([], rw (← ok-injective h), λ t m. elim m [ ])
    inject_tables-adds n (t ∷ ts) w {w'} h =
        elim (Bool-cases (is_protected S rules (lower t.name))) [
          | inl p ↦
              let (tree, e, h') =
                >>=-eq-ok
                  (inject_rules S (rules_for S rules (lower t.name)) metadata t.alias_or_name n
                    w.tree)
                  _ (rw p at h) in
              let (a, ea, adds) = inject_rules-adds metadata _ t.alias_or_name n w.tree e in
              let (b, eb, more) = inject_tables-adds n ts _ h' in
              (
                a ++ b,
                eb ∙ ap (λ u. add_all u b) ea ∙ sym (add_all-append w.tree a b),
                AddsTables-cons n t ts a b
                    (λ r m k. adds r (In-rules_for rules (lower t.name) r m k)) more,
              )
          | inr p ↦
              let (b, eb, more) = inject_tables-adds n ts w (rw p at h) in
              (b, eb, AddsTables-cons n t ts [] b (AddsTable-nil n t p) more)
        ]

    walk_scope-adds :
        (o : Option ℕ) (s : Scope) (w : Walk Tree) {w' : Walk Tree}
        → walk_scope S rules metadata o s w ≡ ok w'
        → (inj : List Injection) × (w'.tree ≡ add_all w.tree inj)
          × ((n : ℕ) → o ≡ some n → AddsTables inj n s.base_tables)
    unfolding walk_scope add_all
    walk_scope-adds none s w h = ([], rw (← ok-injective h), λ n e. cc)
    walk_scope-adds (some n) s w h =
        let (v, e, h') = >>=-eq-ok (inject_tables S rules metadata n s.base_tables w) _ h in
        let (inj, et, adds) = inject_tables-adds n s.base_tables w e in
        (
          inj,
          ap {A = Walk Tree} (λ x. x.tree) (sym (ok-injective h')) ∙ et,
          λ k ek. subst (λ i. AddsTables inj i s.base_tables) (some_inj ek) adds,
        )

    pub walk_scopes-adds :
        (ss : List Scope) (w : Walk Tree) {w' : Walk Tree}
        → walk_scopes S rules metadata ss w ≡ ok w'
        → (inj : List Injection) × (w'.tree ≡ add_all w.tree inj)
          × ((s : Scope) → In s ss → AddsScope rules metadata inj s)
    unfolding walk_scopes add_all AddsTables
    walk_scopes-adds [] w h = ([], rw (← ok-injective h), λ s m. elim m [ ])
    walk_scopes-adds (s ∷ ss) w h =
        let (v, e, h') = >>=-eq-ok (walk_scope S rules metadata s.select_node s w) _ h in
        let (a, ea, adds) = walk_scope-adds s.select_node s w e in
        let (b, eb, more) = walk_scopes-adds ss v h' in
        (
          a ++ b,
          eb ∙ ap (λ u. add_all u b) ea ∙ sym (add_all-append w.tree a b),
          join a b adds more,
        )
      where
        join :
            (a b : List Injection)
            → ((n : ℕ) → s.select_node ≡ some n → AddsTables a n s.base_tables)
            → ((x : Scope) → In x ss → AddsScope rules metadata b x)
            → (x : Scope) → In x (s ∷ ss)
            → AddsScope rules metadata (a ++ b) x
        join a b here there x head n e t m r k q = IsAdded-append_left b (here n e t m r k q)
        join a b here there x (tail l) n e t m r k q =
            IsAdded-append_right a (there x l n e t m r k q)
