-- ===== src/Safety/Rls/Scoped.antt =====
-- Whatever SQL the rewrite returns is proved to be scoped.
use sqllens.Prelude.{
  String, ◌≡◌, ◌⊎◌, true, ◌||◌, Option, some, List, [], ◌∷◌, arith, ℕ, refl, sym, ap, ◌∙◌, ◌≢◌, inl,
  inr, Bool-cases, Option-cases, not, ◌&&◌,
}
use sqllens.Prelude.Result.{ok, raise_if, >>=-eq-ok, ok-injective}
use sqllens.Prelude.Dict.{Dict}
use sqllens.Prelude.Members.{head, tail, In}
use sqllens.Safety.MysqlText.{Text}
use sqllens.Safety.Rls.{
  Table, Scope, RlsSyntax, Walk, account, mentions_protected, prepare, rewrite, has_id, walk_scopes,
  apply_rls, unproven_reference,
}
use sqllens.Safety.Rls.Injects.{Injection, AddsScope, walk_scopes-adds, add_all}
use sqllens.Safety.Rls.Terms.{Rule, Value}
use sqllens.Safety.Rls.Origins.{IsInjected, IsReference, walk_scopes-ids}

has_id-nil : (i : ℕ) → has_id [] i ≢ true
unfolding has_id
has_id-nil i h = cc

module _ {N : Type 0} (S : RlsSyntax N) where
  open S use {Tree, scopes, all_tables, render, lower}

  -- Every mention of a protected table, by name or by alias, is filtered or is a reference.
  abbrev pub IsAccounted : List (Rule N) → List Scope → Tree → Type 0
  IsAccounted rules ss tree =
      (t : Table)
      → In t (all_tables tree)
      → mentions_protected S rules t ≡ true
      → IsInjected S rules ss t.id ⊎ IsReference S rules ss t.id

  -- `out` is the statement with predicates added, at least one for every rule of every protected
  -- base table of every SELECT scope, and nothing protected is unaccounted for.
  pub record IsScoped (sql : Text) (rules : List (Rule N)) (dialect : Option String)
      (metadata : Dict (Value N)) (out : Text) : Type 0 where
    pub tree : Tree
    pub scope_list : List Scope
    pub injections : List (Injection S)
    pub prepared : prepare S sql dialect ≡ ok tree
    pub analysed : scopes tree ≡ some scope_list
    pub rendered : out ≡ render dialect (add_all S tree injections)
    pub filtered : (s : Scope) → In s scope_list → AddsScope S rules metadata injections s
    pub accounted : IsAccounted rules scope_list (add_all S tree injections)

  account-ok :
      (rules : List (Rule N)) (w : Walk Tree) (ts : List Table)
      → account S rules w ts ≡ ok tt
      → (t : Table) → In t ts
      → mentions_protected S rules t ≡ true
      → (has_id w.injected t.id || has_id w.references t.id) ≡ true
  unfolding account
  account-ok rules w [] h t m k = elim m [ ]
  account-ok rules w (x ∷ ts) h t head k = ground arith
  account-ok rules w (x ∷ ts) h t (tail m) k =
      let (u, e, h') =
        >>=-eq-ok
          (raise_if
            (mentions_protected S rules x
              && not (has_id w.injected x.id || has_id w.references x.id))
            unproven_reference)
          (λ _. account S rules w ts) h in
      account-ok rules w ts h' t m k

  rewrite-IsScoped :
      (r : Rule N) (rs : List (Rule N)) (metadata : Dict (Value N)) (tree : Tree) (ss : List Scope)
      {w : Walk Tree}
      → rewrite S (r ∷ rs) metadata tree ss ≡ ok w
      → (inj : List (Injection S)) × (w.tree ≡ add_all S tree inj)
        × ((s : Scope) → In s ss → AddsScope S (r ∷ rs) metadata inj s)
        × IsAccounted (r ∷ rs) ss w.tree
  unfolding rewrite
  rewrite-IsScoped r rs metadata tree ss {w} h =
      let (v, e, h') = >>=-eq-ok (walk_scopes S (r ∷ rs) metadata ss _) _ h in
      let (u, a, h'') = >>=-eq-ok (account S (r ∷ rs) v (all_tables v.tree)) _ h' in
      let (inj, et, adds) = walk_scopes-adds S (r ∷ rs) metadata ss _ e in
      let same : v ≡ w = ok-injective h'' in
      rw (← same) (inj, et, adds, λ t m k. origins v e t.id (account-ok (r ∷ rs) v _ a t m k))
    where
      origins :
          (v : Walk Tree)
          → walk_scopes S
              (r ∷ rs)
              metadata
              ss
              (record { tree = tree; injected = []; references = [] })
            ≡ ok v
          → (i : ℕ) → (has_id v.injected i || has_id v.references i) ≡ true
          → IsInjected S (r ∷ rs) ss i ⊎ IsReference S (r ∷ rs) ss i
      origins v e i k =
          let ids = walk_scopes-ids S (r ∷ rs) metadata ss _ i e in
          elim (Bool-cases (has_id v.injected i)) [
            | inl q ↦ elim (ids.0 q) [ inl x ↦ absurd (has_id-nil i x) | inr x ↦ inl x ]
            | inr q ↦ elim (ids.1 (rw q at k)) [ inl x ↦ absurd (has_id-nil i x) | inr x ↦ inr x ]
          ]

  -- With any rules, SQL that the rewrite returns is one query with predicates added. Every rule on
  -- a base table of a SELECT scope contributes its predicate there, under the table's alias and
  -- with a value that passed the checks, and every mention of a protected table in the result is
  -- either such a base table or a table that its scope does not read as a base table.
  pub apply_rls-IsScoped :
      (sql : Text) (rules : List (Rule N)) (dialect : Option String) (metadata : Dict (Value N))
      {out : Text}
      → rules ≢ []
      → apply_rls S sql rules dialect metadata ≡ ok out
      → IsScoped sql rules dialect metadata out
  unfolding apply_rls
  apply_rls-IsScoped sql [] dialect metadata ne h = absurd (ne refl)
  apply_rls-IsScoped sql (r ∷ rs) dialect metadata ne h =
      let (tree, p, h') = >>=-eq-ok (prepare S sql dialect) _ h in
      elim (Option-cases (scopes tree)) [
        | inl e ↦ cc
        | inr (ss, e) ↦
            let (w, ew, last) = >>=-eq-ok (rewrite S (r ∷ rs) metadata tree ss) _ (rw e at h') in
            let (inj, et, adds, acc) = rewrite-IsScoped r rs metadata tree ss ew in
            record {
              tree = tree;
              scope_list = ss;
              injections = inj;
              prepared = p;
              analysed = e;
              rendered = sym (ok-injective last) ∙ ap (render dialect) et;
              filtered = adds;
              accounted = rw (← et) acc;
            }
      ]
