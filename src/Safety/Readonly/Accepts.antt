-- ===== src/Safety/Readonly/Accepts.antt =====
-- Exactly which SQL the read-only guard lets through.
use sqllens.Prelude.{
  String, ◌≡◌, refl, inl, inr, Bool, true, false, List, [], ◌∷◌, str_eq, eq_iff, Bool-cases, arith,
  ◌↔◌, ◌⊎◌, ◌&&◌, Option, none, some,
}
use sqllens.Prelude.Result.{ok, err, ◌>>◌, raise_if, >>=-eq-ok}
use sqllens.Safety.Denylist.{contains, denied_funcs}
use sqllens.Safety.Readonly.{
  Raised, Checked, meet, safe_show_subkinds, allowed_root_types, dml_ddl_types, is_instance,
  parse_statements, func_name_candidates, refuse_denied_function, for_each, no_denied_statements,
  assert_no_denied_functions, check_root, check_node, check_statements, assert_select_only, Sqlglot,
  Unicode, refuse_names,
}
use sqllens.Safety.Sqlglot.{select, show, func}
use sqllens.Safety.MysqlText.{Text}

abbrev pub All {ℓ} : {A : Type ℓ} → (A → Type 0) → List A → Type 0
All P [] = Unit
All P (x ∷ xs) = P x × All P xs

All-map {ℓ} :
    {A : Type ℓ} {P Q : A → Type 0} (f : (x : A) → P x → Q x) (xs : List A) → All P xs → All Q xs
All-map f [] h = tt
All-map f (x ∷ xs) h = (f x h.0, All-map f xs h.1)

>>-eq-ok : (m k : Checked Unit) → (m >> k) ≡ ok tt → (m ≡ ok tt) × (k ≡ ok tt)
>>-eq-ok (ok tt) k h = (refl, h)
>>-eq-ok (err e) k h = cc

raise_if-eq-ok : (b : Bool) (e : Raised) → raise_if b e ≡ ok tt → b ≡ false
raise_if-eq-ok true e h = cc
raise_if-eq-ok false e h = refl

meet-eq-nil :
    (ns denied : List String) (x : String)
    → meet ns denied ≡ []
    → contains ns x ≡ true
    → contains denied x ≡ false
unfolding meet contains
meet-eq-nil [] denied x h c = cc
meet-eq-nil (n ∷ ns) denied x h c = elim (Bool-cases (contains denied n)) [
  | inl e ↦ absurd (nonempty (rw e at h))
  | inr e ↦ elim (Bool-cases (str_eq n x)) [
    | inl same ↦ rw (← (eq_iff n x).0 same) e
    | inr other ↦ meet-eq-nil ns denied x (rw e at h) (rw other at c)
  ]
]
  where
    nonempty : {l : List String} → n ∷ l ≡ [] → ⊥
    nonempty h = cc

meet-nil :
    (ns denied : List String)
    → ((x : String) → contains ns x ≡ true → contains denied x ≡ false)
    → meet ns denied ≡ []
unfolding meet contains
meet-nil [] denied h = refl
meet-nil (n ∷ ns) denied h =
    rw (h n (ground (arith, eq_iff n n))) (meet-nil ns denied (λ x c. h x (ground arith)))

module _ (S : Sqlglot) (U : Unicode) where
  open S use {Node, walk, isinstance, has_into, this_text}
  open U use {upper, strip}

  -- No name under which `n` could be denied is in the denylist, if `n` is a function at all.
  pub record CallsNothingDenied (denied : List String) (n : Node) : Type 0 where
    pub allowed :
        isinstance n func ≡ true
        → (name : String) → contains (func_name_candidates S U n) name ≡ true
        → contains denied name ≡ false

  pub record IsSafeNode (denied : List String) (n : Node) : Type 0 where
    pub no_write : is_instance S U n dml_ddl_types ≡ false
    pub no_into : (isinstance n select && has_into n) ≡ false
    pub calls : CallsNothingDenied denied n

  abbrev pub IsAllowedRoot : Node → Type 0
  IsAllowedRoot n =
      (isinstance n show ≡ true)
        × (contains safe_show_subkinds (strip (upper (this_text n))) ≡ true)
      ⊎ (isinstance n show ≡ false) × (is_instance S U n allowed_root_types ≡ true)

  -- One statement, of an allowed type, with safe nodes only.
  pub record IsReadOnly (sql : Text) (dialect : Option String) : Type 0 where
    pub stmt : Node
    pub parsed : parse_statements S U sql dialect ≡ ok (some stmt ∷ [])
    pub root : IsAllowedRoot stmt
    pub nodes : All (IsSafeNode (denied_funcs dialect)) (walk stmt)

  for_each-ok :
      (check : Node → Checked Unit) (ns : List Node)
      → for_each S U check ns ≡ ok tt
      → All (λ n. check n ≡ ok tt) ns
  unfolding for_each
  for_each-ok check [] h = tt
  for_each-ok check (n ∷ ns) h =
      let (e, more) = >>-eq-ok (check n) (for_each S U check ns) h in (e, for_each-ok check ns more)

  ok-for_each :
      (check : Node → Checked Unit) (ns : List Node)
      → All (λ n. check n ≡ ok tt) ns
      → for_each S U check ns ≡ ok tt
  unfolding for_each
  ok-for_each check [] h = refl
  ok-for_each check (n ∷ ns) h = rw (h.0, ok-for_each check ns h.1)

  refuse_denied_function-ok :
      (denied : List String) (n : Node)
      → refuse_denied_function S U denied n ≡ ok tt
      → CallsNothingDenied denied n
  unfolding refuse_denied_function
  refuse_denied_function-ok denied n h = record {
    allowed = λ f x c. meet-eq-nil (func_name_candidates S U n) denied x (none_met (rw f at h)) c;
  }
    where
      none_met : {l : List String} → refuse_names l ≡ ok tt → l ≡ []
      none_met {l = []} h = refl
      none_met {l = x ∷ xs} h = cc

  ok-refuse_denied_function :
      (denied : List String) (n : Node)
      → CallsNothingDenied denied n
      → refuse_denied_function S U denied n ≡ ok tt
  unfolding refuse_denied_function
  ok-refuse_denied_function denied n k = elim (Bool-cases (isinstance n func)) [
    | inl f ↦ rw f (rw (meet-nil (func_name_candidates S U n) denied (k.allowed f)))
    | inr f ↦ rw f
  ]

  check_node-ok :
      (denied : List String) (n : Node) → check_node S U denied n ≡ ok tt → IsSafeNode denied n
  unfolding check_node
  check_node-ok denied n h =
      let (a, h') = >>-eq-ok (raise_if (is_instance S U n dml_ddl_types) _) _ h in
      let (b, h'') = >>-eq-ok (raise_if (isinstance n select && has_into n) _) _ h' in
      record {
        no_write = raise_if-eq-ok _ _ a;
        no_into = raise_if-eq-ok _ _ b;
        calls = refuse_denied_function-ok denied n h'';
      }

  ok-check_node :
      (denied : List String) (n : Node) → IsSafeNode denied n → check_node S U denied n ≡ ok tt
  unfolding check_node
  ok-check_node denied n k = rw (k.no_write, k.no_into) (ok-refuse_denied_function denied n k.calls)

  check_root-ok : (n : Node) → check_root S U n ≡ ok tt → IsAllowedRoot n
  unfolding check_root
  check_root-ok n h = elim (Bool-cases (isinstance n show)) [
    | inl e ↦ inl (e, ground arith)
    | inr e ↦ inr (e, ground arith)
  ]

  ok-check_root : (n : Node) → IsAllowedRoot n → check_root S U n ≡ ok tt
  unfolding check_root
  ok-check_root n (inl (e, k)) = rw e (rw k)
  ok-check_root n (inr (e, k)) = rw e (rw k)

  check_statements-IsReadOnly :
      (sql : Text) (dialect : Option String) (stmts : List (Option Node))
      → parse_statements S U sql dialect ≡ ok stmts
      → check_statements S U (denied_funcs dialect) stmts ≡ ok tt
      → IsReadOnly sql dialect
  unfolding check_statements
  check_statements-IsReadOnly sql dialect (some stmt ∷ []) p h =
      let (r, ns) = >>-eq-ok (check_root S U stmt) _ h in
      record {
        stmt = stmt;
        parsed = p;
        root = check_root-ok stmt r;
        nodes = All-map (check_node-ok (denied_funcs dialect)) _ (for_each-ok _ _ ns);
      }
  check_statements-IsReadOnly sql dialect (none ∷ []) p h = cc
  check_statements-IsReadOnly sql dialect [] p h = cc
  check_statements-IsReadOnly sql dialect (some s ∷ t ∷ r) p h = cc
  check_statements-IsReadOnly sql dialect (none ∷ t ∷ r) p h = cc

  -- The guard passes exactly the SQL that parses to one statement of an allowed type, in which no
  -- node is a write or a SELECT ... INTO, and no function node could be called by a denied name.
  pub assert_select_only_iff :
      (sql : Text) (dialect : Option String)
      → (assert_select_only S U sql dialect ≡ ok tt) ↔ IsReadOnly sql dialect
  unfolding assert_select_only check_statements
  assert_select_only_iff sql dialect = (
    (λ h.
        let (stmts, p, c) = >>=-eq-ok (parse_statements S U sql dialect) _ h in
        check_statements-IsReadOnly sql dialect stmts p c),
    (λ k. rw k.parsed (
        rw (ok-check_root k.stmt k.root)
          (ok-for_each _ _ (All-map (ok-check_node (denied_funcs dialect)) _ k.nodes)))),
  )

  -- Whatever passes the whole guard passes its function-denylist part, which the row-level-security
  -- guard runs by itself.
  pub assert_select_only-assert_no_denied_functions :
      (sql : Text) (dialect : Option String)
      → assert_select_only S U sql dialect ≡ ok tt
      → assert_no_denied_functions S U sql dialect ≡ ok tt
  unfolding assert_no_denied_functions no_denied_statements
  assert_select_only-assert_no_denied_functions sql dialect h =
      let k = (assert_select_only_iff sql dialect).0 h in
      rw k.parsed (
        rw (
          ok-for_each (refuse_denied_function S U (denied_funcs dialect)) (walk k.stmt)
            (All-map (λ n s. ok-refuse_denied_function _ n s.calls) _ k.nodes)))
