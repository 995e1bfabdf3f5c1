-- ===== src/Agent/Registry/Runs.antt =====
-- When a call reaches its tool.
use sqllens.Prelude.Act.{act_if, Act, bind_cases, give, ◌>>◌, ◌>>=◌}
use sqllens.Agent.Access.{User, admits}
use sqllens.Agent.Registry.{
  Registry, Tool, ToolCall, ToolResult, execute, AuditEvent, audit, execute_found,
  execute_transformed, execute_validated, execute_with, audit_with, caught, deny, tool_access_check,
  run_tool, tool_invocation, validate_tool_permissions, failure, insufficient_group,
}
use sqllens.Prelude.{
  if_cases, String, ◌≡◌, refl, ◌⊎◌, inl, inr, Bool, true, false, Option, none, some, Option-cases,
}
use sqllens.Prelude.Result.{Result, ok, err}
use sqllens.Prelude.Dict.{lookup}

module _ {World Raw Args Ui : Type 0} (r : Registry World Raw Args Ui) (call : ToolCall Raw)
    (user : User) (w : World) where
  -- What the registry itself does to the world: audit log entries, and the transform of arguments.
  pub data Prepared : World → Type 0 where
    untouched : Prepared w
    logged :
        {u : World} (log : AuditEvent Raw Ui → Act World String (Unit {0}))
        (event : AuditEvent Raw Ui)
        → r.audit_logger ≡ some log
        → Prepared u
        → Prepared ((log event u).0)
    transformed :
        (tool : Tool World Raw Args Ui) (args : Args)
        → Prepared ((r.transform_args tool args user w).0)

  abbrev pub Failed : Result String (ToolResult Ui) → Type 0
  Failed (ok result) = result.success ≡ false
  Failed (err message) = Unit

  -- No tool ran.
  pub record Refused (out : World × Result String (ToolResult Ui)) : Type 0 where
    pub prepared : Prepared out.0
    pub failed : Failed out.1

  -- The tool ran, on arguments that passed its schema and the transform, for a user it admits.
  pub record Ran (out : World × Result String (ToolResult Ui)) : Type 0 where
    pub tool : Tool World Raw Args Ui
    pub args : Args
    pub final : Args
    pub before : World
    pub found : lookup call.name r.tools ≡ some tool
    pub permitted : admits tool.access_groups user ≡ true
    pub whole : call.truncated ≡ false
    pub validated : tool.validate call.arguments ≡ ok args
    pub accepted : (r.transform_args tool args user w).1 ≡ ok (ok final)
    pub prepared : Prepared before
    pub outcome : out ≡ caught (run_tool r call tool final before)

  audit-Prepared :
      (on : Bool) (event : AuditEvent Raw Ui) (u : World)
      → Prepared u
      → Prepared (audit r on event u).0
  unfolding audit act_if
  audit-Prepared on event u p = entry r.audit_logger refl on
    where
      entry :
          (o : Option (AuditEvent Raw Ui → Act World String (Unit {0})))
          → r.audit_logger ≡ o
          → (b : Bool) → Prepared (audit_with o b event u).0
      entry none e b = p
      entry (some log) e true = logged log event e p
      entry (some log) e false = p

  abbrev Outcome : World × Result String (ToolResult Ui) → Type 0
  Outcome out = Refused out ⊎ Ran out

  raised : (u : World) → Prepared u → (message : String) → Outcome (u, err message)
  raised u p message = inl (record { prepared = p; failed = tt })

  execute_with-Outcome :
      (tool : Tool World Raw Args Ui) (args final : Args) (u : World)
      → lookup call.name r.tools ≡ some tool
      → admits tool.access_groups user ≡ true
      → call.truncated ≡ false
      → tool.validate call.arguments ≡ ok args
      → (r.transform_args tool args user w).1 ≡ ok (ok final)
      → Prepared u
      → Outcome (execute_with r call tool final u)
  unfolding execute_with ◌>>◌
  execute_with-Outcome tool args final u f a t v k p =
      let check =
        audit r r.audit_config.log_tool_access_checks (tool_access_check call.name true) in
      let invoke = audit r r.audit_config.log_tool_invocations (tool_invocation call) in
      let run : Act World String (ToolResult Ui) = λ v. caught (run_tool r call tool final v) in
      let p' =
        audit-Prepared r.audit_config.log_tool_access_checks (tool_access_check call.name true) u
          p in
      bind_cases Outcome check u (λ _. invoke >> run) (raised _ p')
        (λ _ e.
          let p'' =
            audit-Prepared r.audit_config.log_tool_invocations (tool_invocation call) _ p' in
          bind_cases Outcome invoke (check u).0 (λ _. run) (raised _ p'')
            (λ _ e'. inr (record {
              tool = tool;
              args = args;
              final = final;
              before = _;
              found = f;
              permitted = a;
              whole = t;
              validated = v;
              accepted = k;
              prepared = p'';
              outcome = refl;
            })))

  execute_transformed-Outcome :
      (tool : Tool World Raw Args Ui) (args : Args) (x : Result String Args) (u : World)
      → lookup call.name r.tools ≡ some tool
      → admits tool.access_groups user ≡ true
      → call.truncated ≡ false
      → tool.validate call.arguments ≡ ok args
      → (r.transform_args tool args user w).1 ≡ ok x
      → Prepared u
      → Outcome (execute_transformed r call tool x u)
  unfolding execute_transformed
  execute_transformed-Outcome tool args (ok final) u f a t v k p =
      execute_with-Outcome tool args final u f a t v k p
  execute_transformed-Outcome tool args (err reason) u f a t v k p =
      inl (record { prepared = p; failed = refl })

  execute_validated-Outcome :
      (tool : Tool World Raw Args Ui) (x : Result String Args)
      → lookup call.name r.tools ≡ some tool
      → admits tool.access_groups user ≡ true
      → call.truncated ≡ false
      → tool.validate call.arguments ≡ x
      → Outcome (execute_validated r call user tool x w)
  unfolding execute_validated ◌>>=◌
  execute_validated-Outcome tool (err message) f a t v =
      inl (record { prepared = untouched; failed = refl })
  execute_validated-Outcome tool (ok args) f a t v =
      let p = transformed tool args in
      bind_cases Outcome (r.transform_args tool args user) w (execute_transformed r call tool)
        (raised _ p) (λ x e. execute_transformed-Outcome tool args x _ f a t v e p)

  -- A call either runs its tool, which then is registered under the call's name, admits the user,
  -- got the whole call and takes its arguments, or fails with no tool run: then all that changed
  -- is the audit log and what the transform of the arguments did.
  pub execute-Ran : Refused (execute r call user w) ⊎ Ran (execute r call user w)
  unfolding execute execute_found deny validate_tool_permissions ◌>>◌
  execute-Ran = elim (Option-cases (lookup call.name r.tools)) [
    | inl n ↦ rw n (inl (record { prepared = untouched; failed = refl }))
    | inr (tool, n) ↦
        let denied =
          audit r r.audit_config.log_tool_access_checks (tool_access_check call.name false) in
        let p =
          audit-Prepared r.audit_config.log_tool_access_checks (tool_access_check call.name false) w
            untouched in
        rw n (
          if_cases (λ (run : Act World String (ToolResult Ui)). Outcome (run w))
            (admits tool.access_groups user) _ _
            (λ a.
              if_cases (λ (run : Act World String (ToolResult Ui)). Outcome (run w)) call.truncated
                _ _ (λ t. inl (record { prepared = untouched; failed = refl }))
                (λ t. execute_validated-Outcome tool _ n a t refl))
            (λ a.
              bind_cases Outcome denied w (λ _. give (failure (insufficient_group call.name)))
                (raised _ p) (λ _ e. inl (record { prepared = p; failed = refl }))))
  ]
