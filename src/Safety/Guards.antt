-- ===== src/Safety/Guards.antt =====
-- The runners of src/sqllens/safety/__init__.py and `RowCapRunner` of safety/limits.py: a stack of
-- guards over an executor, as a data type, and the run of a statement through it.
pub mod Wall
pub mod Rows
use sqllens.Prelude.{
  ℕ, String, Bool, true, false, not, ◌&&◌, ◌||◌, Option, List, [], ◌∷◌, ltb, if◌then◌else◌,
}
use sqllens.Prelude.Result.{Result, ok, err, ◌>>=◌, ◌>>◌}
use sqllens.Prelude.Dict.{Dict}
use sqllens.Safety.Limits.{Frame, cap_frame, effective_row_cap}
use sqllens.Safety.Readonly.{
  Unsafe, Raised, Checked, assert_no_denied_functions, assert_select_only, unsafe,
}
use sqllens.Safety.Sqlglot.{Unicode, Sqlglot}
use sqllens.Safety.MysqlText.{Text}
use sqllens.Safety.Rls.{RlsSyntax, apply_rls}
use sqllens.Safety.Rls.Terms.{Rule, Value, RlsRefusal}

-- What a run raises, and at which layer.
pub data RunError (E : Type 0) : Type 0 where
  unsafe_sql : Unsafe → RunError E
  guard_errored : RunError E
  rls_refused : RlsRefusal → RunError E
  rls_errored : RunError E
  executor_error : E → RunError E

-- The engine's runner. The flag is `require_base_tables`, `declares` is whether its `run_sql` names
-- that parameter, and `W` is all that a run may change.
pub record Executor (W E Row : Type 0) : Type 0 where
  pub declares : Bool
  pub run : Text → Bool → W → Result E (Frame Row) × W

pub data Runner (W E Row N : Type 0) : Type 0 where
  executor : Executor W E Row → Runner W E Row N
  row_cap : Runner W E Row N → ℕ → Runner W E Row N
  read_only : Runner W E Row N → Option String → Runner W E Row N
  rls : Runner W E Row N → List (Rule N) → Option String → Runner W E Row N

-- ValueError of RowCapRunner, TypeError of RlsGuardRunner
pub data WiringError : Type 0 where
  cap_below_one undeclared_relation_check : WiringError

-- any(rules)
unfoldable pub has_rules {ℓ} : {A : Type ℓ} → List A → Bool
has_rules [] = false
has_rules (r ∷ rs) = true

module _ {W E Row N : Type 0} where
  -- `_relation_check_executor`
  unfoldable pub relation_check_executor : Runner W E Row N → Executor W E Row
  relation_check_executor (executor x) = x
  relation_check_executor (row_cap inner n) = relation_check_executor inner
  relation_check_executor (read_only inner d) = relation_check_executor inner
  relation_check_executor (rls inner rules d) = relation_check_executor inner

  -- the constructors of the source
  unfoldable pub new_row_cap : Runner W E Row N → ℕ → Result WiringError (Runner W E Row N)
  new_row_cap inner n = if ltb n 1 then err cap_below_one else ok (row_cap inner n)

  unfoldable pub new_rls :
      Runner W E Row N → List (Rule N) → Option String → Result WiringError (Runner W E Row N)
  new_rls inner rules dialect =
      if has_rules rules && not (relation_check_executor inner).declares
      then err undeclared_relation_check
      else ok (rls inner rules dialect)

  -- the composition in src/sqllens/agent/factory.py, over the runner of the database
  unfoldable pub build_runner :
      Executor W E Row
      → ℕ
      → Bool
      → List (Rule N)
      → Option String
      → Result WiringError (Runner W E Row N)
  build_runner x max_rows is_read_only rules dialect = do
    capped ← new_row_cap (executor x) max_rows
    let guarded = if is_read_only then read_only capped dialect else capped
    if has_rules rules then new_rls guarded rules dialect else ok guarded

abbrev pub Run : Type 0 → Type 0 → Type 0 → Type 0
Run W E Row = W → Result (RunError E) (Frame Row) × W

module _ {E : Type 0} where
  -- what `ReadOnlyGuardRunner.run_sql` raises for an exception of the guard function
  pub guard_error : Raised → RunError E
  guard_error (unsafe e) = unsafe_sql e
  guard_error Raised.unexpected = guard_errored

  pub rls_error : RlsRefusal → RunError E
  rls_error RlsRefusal.unexpected = rls_errored
  rls_error e = rls_refused e

module _ {W E Row : Type 0} where
  unfoldable pub after_check : Checked Unit → Run W E Row → Run W E Row
  unfolding guard_error
  after_check (ok _) run w = run w
  after_check (err e) run w = (err (guard_error e), w)

  pub after_rewrite : Result RlsRefusal Text → (Text → Run W E Row) → Run W E Row
  unfolding rls_error
  after_rewrite (ok sql) run w = run sql w
  after_rewrite (err e) run w = (err (rls_error e), w)

module _ {E Row : Type 0} where
  unfoldable pub from_executor : Result E (Frame Row) → Result (RunError E) (Frame Row)
  from_executor (ok df) = ok df
  from_executor (err e) = err (executor_error e)

  unfoldable pub cap_result : ℕ → Result (RunError E) (Frame Row) → Result (RunError E) (Frame Row)
  cap_result n (ok df) = ok (cap_frame n df)
  cap_result n (err e) = err e

module _ (S : Sqlglot) (U : Unicode) where
  -- `_refuse_denied_functions`, under active rules only
  pub denylist_check : Bool → Text → Option String → Checked Unit
  denylist_check false sql dialect = ok tt
  denylist_check true sql dialect = assert_no_denied_functions S U sql dialect

  module _ {W E Row N : Type 0} (T : RlsSyntax N) where
    -- run_sql: `request_cap` is the row cap of the request's effective settings, if bound
    unfoldable pub run_sql :
        Runner W E Row N → Dict (Value N) → Option ℕ → Bool → Text → Run W E Row
    unfolding after_check from_executor cap_result denylist_check after_rewrite
    run_sql (executor x) metadata request_cap require sql w =
        let (r, w') = x.run sql require w in (from_executor r, w')
    run_sql (row_cap inner n) metadata request_cap require sql w =
        let (r, w') = run_sql inner metadata request_cap require sql w in
        (cap_result (effective_row_cap request_cap n) r, w')
    run_sql (read_only inner dialect) metadata request_cap require sql w =
        after_check (assert_select_only S U sql dialect)
          (run_sql inner metadata request_cap require sql) w
    run_sql (rls inner rules dialect) metadata request_cap require sql w =
        after_rewrite (apply_rls T sql rules dialect metadata)
          (λ rewritten.
            after_check (denylist_check (has_rules rules) rewritten dialect)
              (run_sql inner metadata request_cap (has_rules rules || require) rewritten))
          w
