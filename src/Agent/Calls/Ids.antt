-- ===== src/Agent/Calls/Ids.antt =====
-- The results of a round's calls are in the order of the calls.
use sqllens.Prelude.Keeps.{Whatever, any_run, Keeps, give-Keeps, bind-Keeps, then-Keeps}
use sqllens.Agent.Access.{User}
use sqllens.Agent.Registry.{ToolCall, ToolResult}
use sqllens.Agent.Calls.{Agent, CallDone, run_calls, run_call, finish_call}
use sqllens.Prelude.{String, ◌≡◌, refl, Bool, Option, List, [], ◌∷◌, map}

module _ {World Raw Args Ui : Type 0} where
  finish_call-id :
      (agent : Agent World Raw Args Ui) (user : User) (call : ToolCall Raw) (failed : Bool)
      (result : ToolResult Ui)
      → Keeps Whatever
          (λ (d : CallDone). d.tool_call_id ≡ call.id)
          (finish_call agent user call failed result)
  unfolding finish_call
  finish_call-id agent user call failed result = bind-Keeps Whatever (any_run _) (λ a _.
      then-Keeps Whatever (any_run _) (
        bind-Keeps Whatever (any_run _) (λ n _.
          then-Keeps Whatever (any_run _)
            (bind-Keeps Whatever (any_run _) (λ m _. give-Keeps refl)))))

  run_call-id :
      (agent : Agent World Raw Args Ui) (user : User) (content : Option String)
      (call : ToolCall Raw)
      → Keeps Whatever
          (λ (d : CallDone). d.tool_call_id ≡ call.id)
          (run_call agent user content call)
  unfolding run_call
  run_call-id agent user content call = bind-Keeps Whatever (any_run _) (λ n _.
      then-Keeps Whatever (any_run _) (
        bind-Keeps Whatever (any_run _) (λ a _. then-Keeps Whatever (any_run _) (
          then-Keeps Whatever (any_run _) (
            bind-Keeps Whatever (any_run _) (λ first _.
              bind-Keeps Whatever (any_run _)
                (λ result _. finish_call-id agent user call _ result)))))))

  pub run_calls-ids :
      (agent : Agent World Raw Args Ui) (user : User) (content : Option String)
      (calls : List (ToolCall Raw))
      → Keeps Whatever
          (λ (ds : List CallDone).
            map (λ (d : CallDone). d.tool_call_id) ds ≡ map (λ (c : ToolCall Raw). c.id) calls)
          (run_calls agent user content calls)
  unfolding run_calls
  run_calls-ids agent user content [] = give-Keeps refl
  run_calls-ids agent user content (c ∷ cs) =
      bind-Keeps (λ (d : CallDone). d.tool_call_id ≡ c.id) (run_call-id agent user content c)
        (λ d e. bind-Keeps _ (run_calls-ids agent user content cs) (λ ds es. give-Keeps (cc)))
