-- ===== src/Safety/Guards/Wall.antt =====
-- What a statement has passed when it reaches the database through the factory's stack.
use sqllens.Prelude.{
  ℕ, String, ◌≡◌, refl, ◌≢◌, ◌⊎◌, inl, inr, Bool, true, Option, List, [], ◌∷◌, arith,
}
use sqllens.Prelude.Result.{Result, ok, err, Result-cases}
use sqllens.Prelude.Dict.{Dict}
use sqllens.Safety.Limits.{Frame}
use sqllens.Safety.Sqlglot.{Unicode, Sqlglot}
use sqllens.Safety.MysqlText.{Text}
use sqllens.Safety.Guards.{
  Executor, RunError, Runner, assert_no_denied_functions, build_runner, run_sql, cap_result,
  effective_row_cap, new_row_cap, apply_rls, from_executor, new_rls, relation_check_executor,
  rls_error, has_rules, rls, read_only, row_cap, executor, denylist_check, guard_error,
  assert_select_only,
}
use sqllens.Safety.Rls.{RlsSyntax}
use sqllens.Safety.Readonly.Accepts.{IsReadOnly, assert_select_only_iff}
use sqllens.Safety.Rls.Scoped.{IsScoped, apply_rls-IsScoped}
use sqllens.Safety.Rls.Terms.{Rule, Value}

module _ {W E Row N : Type 0} where
  -- The stack that the factory builds with the read-only guard and rules.
  build_runner-guarded :
      (x : Executor W E Row) (n : ℕ) (rules : List (Rule N)) (dialect : Option String)
      {runner : Runner W E Row N}
      → rules ≢ []
      → build_runner x n true rules dialect ≡ ok runner
      → (runner ≡ rls (read_only (row_cap (executor x) n) dialect) rules dialect)
        × (x.declares ≡ true)
  unfolding build_runner new_row_cap new_rls relation_check_executor has_rules
  build_runner-guarded x n [] dialect ne h = absurd (ne refl)
  build_runner-guarded x n (r ∷ rs) dialect ne h = ground arith

module _ (S : Sqlglot) (U : Unicode) {W E Row N : Type 0} (T : RlsSyntax N) where
  -- The executor ran `sent`, which the rewrite made of `sql` and both guards passed, told to verify
  -- relations, and the caller has its result behind the row cap.
  pub record IsWalled (x : Executor W E Row) (rules : List (Rule N)) (dialect : Option String)
      (metadata : Dict (Value N)) (rows : ℕ) (sql : Text) (w : W)
      (result : Result (RunError E) (Frame Row) × W) : Type 0 where
    pub sent : Text
    pub scoped : IsScoped T sql rules dialect metadata sent
    pub read_only : IsReadOnly S U sent dialect
    pub undenied : assert_no_denied_functions S U sent dialect ≡ ok tt
    pub verified : x.declares ≡ true
    pub outcome :
        result ≡ (cap_result rows (from_executor (x.run sent true w).0), (x.run sent true w).1)

  -- With rules and the read-only guard on, a run either raises and leaves the world as it was, or
  -- hands the executor a scoped, read-only statement free of denied functions, and asks for the
  -- relation check, which the executor declares.
  pub run_sql-IsWalled :
      (x : Executor W E Row) (n : ℕ) (rules : List (Rule N)) (dialect : Option String)
      (runner : Runner W E Row N) (metadata : Dict (Value N)) (request_cap : Option ℕ)
      (require : Bool) (sql : Text) (w : W)
      → rules ≢ []
      → build_runner x n true rules dialect ≡ ok runner
      → ((e : RunError E) × (run_sql S U T runner metadata request_cap require sql w ≡ (err e, w)))
        ⊎ IsWalled x rules dialect metadata
            (effective_row_cap request_cap n)
            sql
            w
            (run_sql S U T runner metadata request_cap require sql w)
  unfolding run_sql has_rules denylist_check
  run_sql-IsWalled x n [] dialect runner metadata request_cap require sql w ne h = absurd (ne refl)
  run_sql-IsWalled x n (r ∷ rs) dialect runner metadata request_cap require sql w ne h =
      let (e, d) = build_runner-guarded x n (r ∷ rs) dialect ne h in
      rw e (elim (Result-cases (apply_rls T sql (r ∷ rs) dialect metadata)) [
        | inr (why, p) ↦ inl (rls_error why, rw p)
        | inl (sent, p) ↦ rw p (elim (Result-cases (assert_no_denied_functions S U sent dialect)) [
          | inr (why, q) ↦ inl (guard_error why, rw q)
          | inl (u, q) ↦ rw q (elim (Result-cases (assert_select_only S U sent dialect)) [
            | inr (why, s) ↦ inl (guard_error why, rw s)
            | inl (v, s) ↦ rw s (
                inr (record {
                  sent = sent;
                  scoped = apply_rls-IsScoped T sql (r ∷ rs) dialect metadata ne p;
                  read_only = (assert_select_only_iff S U sent dialect).0 s;
                  undenied = q;
                  verified = d;
                  outcome = refl;
                }))
          ])
        ])
      ])
