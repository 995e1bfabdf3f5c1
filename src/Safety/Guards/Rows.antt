-- ===== src/Safety/Guards/Rows.antt =====
-- The row cap holds through the factory's stack.
use sqllens.Prelude.{
  ℕ, ◌≤◌, String, ◌≡◌, refl, Bool, true, false, ◌||◌, Option, List, [], ◌∷◌, arith, length,
}
use sqllens.Prelude.Result.{Result, ok, err, ok-injective}
use sqllens.Prelude.Dict.{Dict}
use sqllens.Safety.Limits.{Frame, cap_frame_lem}
use sqllens.Safety.Readonly.{Checked}
use sqllens.Safety.Sqlglot.{Unicode, Sqlglot}
use sqllens.Safety.MysqlText.{Text}
use sqllens.Safety.Guards.{
  Executor, RunError, Runner, Run, after_check, after_rewrite, build_runner, cap_result, executor,
  run_sql, effective_row_cap, new_row_cap, row_cap, new_rls, read_only, assert_select_only,
  has_rules, rls, denylist_check, apply_rls,
}
use sqllens.Safety.Rls.{RlsSyntax}
use sqllens.Safety.Rls.Terms.{Rule, Value, RlsRefusal}

module _ {E Row : Type 0} where
  cap_result-length :
      (n : ℕ) (r : Result (RunError E) (Frame Row)) {df : Frame Row}
      → cap_result n r ≡ ok df
      → length df.rows ≤ n
  unfolding cap_result
  cap_result-length n (ok f) h = rw (← ok-injective h) (cap_frame_lem n f).0
  cap_result-length n (err e) h = cc

module _ {W E Row : Type 0} where
  after_check-ok :
      (c : Checked Unit) (run : Run W E Row) (w : W) {df : Frame Row}
      → (after_check c run w).0 ≡ ok df
      → (run w).0 ≡ ok df
  unfolding after_check
  after_check-ok (ok u) run w h = h
  after_check-ok (err e) run w h = cc

  after_rewrite-ok :
      (c : Result RlsRefusal Text) (run : Text → Run W E Row) (w : W) {df : Frame Row}
      → (after_rewrite c run w).0 ≡ ok df
      → (sent : Text) × ((run sent w).0 ≡ ok df)
  unfolding after_rewrite
  after_rewrite-ok (ok sent) run w h = (sent, h)
  after_rewrite-ok (err e) run w h = cc

module _ {W E Row N : Type 0} where
  -- A runner whose innermost guard is the row cap.
  abbrev CapsAt : ℕ → Runner W E Row N → Type 0
  CapsAt n (executor x) = ⊥
  CapsAt n (row_cap inner m) = n ≡ m
  CapsAt n (read_only inner d) = CapsAt n inner
  CapsAt n (rls inner rules d) = CapsAt n inner

  build_runner-CapsAt :
      (x : Executor W E Row) (n : ℕ) (ro : Bool) (rules : List (Rule N)) (dialect : Option String)
      {runner : Runner W E Row N}
      → build_runner x n ro rules dialect ≡ ok runner
      → CapsAt n runner
  unfolding build_runner new_row_cap new_rls has_rules
  build_runner-CapsAt x n true [] dialect {runner} h =
      let e : runner ≡ read_only (row_cap (executor x) n) dialect = ground arith in rw e refl
  build_runner-CapsAt x n false [] dialect {runner} h =
      let e : runner ≡ row_cap (executor x) n = ground arith in rw e refl
  build_runner-CapsAt x n true (r ∷ rs) dialect {runner} h =
      let e : runner ≡ rls (read_only (row_cap (executor x) n) dialect) (r ∷ rs) dialect =
        ground arith in
      rw e refl
  build_runner-CapsAt x n false (r ∷ rs) dialect {runner} h =
      let e : runner ≡ rls (row_cap (executor x) n) (r ∷ rs) dialect = ground arith in rw e refl

module _ (S : Sqlglot) (U : Unicode) {W E Row N : Type 0} (T : RlsSyntax N) where
  run_sql-length :
      (n : ℕ) (runner : Runner W E Row N) (metadata : Dict (Value N)) (request_cap : Option ℕ)
      (require : Bool) (sql : Text) (w : W) {df : Frame Row}
      → CapsAt n runner
      → (run_sql S U T runner metadata request_cap require sql w).0 ≡ ok df
      → length df.rows ≤ effective_row_cap request_cap n
  unfolding run_sql
  run_sql-length n (executor x) metadata request_cap require sql w c h = absurd c
  run_sql-length n (row_cap inner m) metadata request_cap require sql w c h =
      rw c (cap_result-length _ _ h)
  run_sql-length n (read_only inner d) metadata request_cap require sql w c h =
      run_sql-length n inner metadata request_cap require sql w c (
        after_check-ok (assert_select_only S U sql d)
          (run_sql S U T inner metadata request_cap require sql) w h)
  run_sql-length n (rls inner rules d) metadata request_cap require sql w c h =
      let run : Text → Run W E Row = λ s.
        after_check (denylist_check S U (has_rules rules) s d)
          (run_sql S U T inner metadata request_cap (has_rules rules || require) s) in
      let (sent, k) = after_rewrite-ok (apply_rls T sql rules d metadata) run w h in
      run_sql-length n inner metadata request_cap (has_rules rules || require) sent w c (
        after_check-ok (denylist_check S U (has_rules rules) sent d)
          (run_sql S U T inner metadata request_cap (has_rules rules || require) sent) w k)

  -- Whatever the database returns, a frame that comes out of the factory's stack, with or without
  -- the read-only guard and rules, has no more rows than the configured cap, nor than the request's.
  pub build_runner-length :
      (x : Executor W E Row) (n : ℕ) (ro : Bool) (rules : List (Rule N)) (dialect : Option String)
      (runner : Runner W E Row N) (metadata : Dict (Value N)) (request_cap : Option ℕ)
      (require : Bool) (sql : Text) (w : W) (df : Frame Row)
      → build_runner x n ro rules dialect ≡ ok runner
      → (run_sql S U T runner metadata request_cap require sql w).0 ≡ ok df
      → length df.rows ≤ effective_row_cap request_cap n
  build_runner-length x n ro rules dialect runner metadata request_cap require sql w df b h =
      run_sql-length n runner metadata request_cap require sql w
        (build_runner-CapsAt x n ro rules dialect b) h
