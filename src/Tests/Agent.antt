-- ===== src/Tests/Agent.antt =====
-- The agent's registry and loop at concrete inputs.
use sqllens.Prelude.Act.{Act, give, ◌>>=◌, ◌>>◌, act_if}
use sqllens.Prelude.Result.{ok}
use sqllens.Agent.Access.{User, default_ui_features, feature_name}
use sqllens.Agent.Registry.{
  Registry, Tool, ToolCall, AuditConfig, AuditEvent, plain, new_registry, register_local_tool,
  execute, get_schemas, get_tool, validate_tool_permissions, execute_with,
}
use sqllens.Agent.Registry.Runs.{Refused, Ran, execute-Ran}
use sqllens.Agent.Registry.Schemas.{Registered, constructed, registered, get_schemas-execute}
use sqllens.Agent.Requests.{LlmSide, ask, is_tool_call, build_llm_request, LlmRequest}
use sqllens.Agent.Calls.{Agent, Screen, run_calls, emit, on_world}
use sqllens.Agent.Calls.Allowed.{Shown, run_calls-Shown}
use sqllens.Agent.Loop.{Talk, respond, all_failed, Ended, loop, max_iterations}
use sqllens.Agent.Loop.Answered.{Settled, respond-Settled}
use sqllens.Agent.Loop.Stops.{AsksFail, Builds, loop_stops}
use sqllens.Agent.Loop.History.{IsProvided}
use sqllens.Conversation.ToolUse.{block_ids, subset, user}
use sqllens.Prelude.Dict.{lookup, insert}
use sqllens.Prelude.Keeps.{Post}
use sqllens.Safety.Denylist.{contains}
use sqllens.Prelude.{
  ℕ, suc, ◌+◌, String, ◌≡◌, refl, ◌↔◌, ◌⊎◌, true, false, none, some, List, [], ◌∷◌, ◌≤◌, arith,
}
use sqllens.Prelude.Triple.{Leaves}
use sqllens.Agent.Loop.Rounds.{respond_bounds}
use sqllens.Agent.Loop.Count.{rounds}

-- A tool that counts its runs in the world.
abbrev counting : Tool ℕ String String String
counting = record {
  name = "count";
  access_groups = [];
  validate = λ raw. ok raw;
  execute = λ args n. (
    suc n,
    ok (record {
      success = true;
      result_for_llm = plain args;
      ui_component = some args;
      error = none;
    }),
  );
}

abbrev quiet : AuditConfig
quiet = record {
  enabled = true;
  log_tool_access_checks = true;
  log_tool_invocations = true;
  log_tool_results = true;
  log_ui_feature_checks = true;
}

abbrev logging : AuditEvent String String → Act ℕ String (Unit {0})
logging event n = (n + 10, ok tt)

abbrev empty_registry : Registry ℕ String String String
empty_registry = new_registry (some logging) quiet

abbrev one_tool : Registry ℕ String String String
one_tool = record empty_registry {
  tools = ("count", record counting { access_groups = "user" ∷ [] }) ∷ [];
}

abbrev member : User
member = record { id = "u"; group_memberships = "user" ∷ [] }

abbrev a_call : ToolCall String
a_call = record { id = "t1"; name = "count"; arguments = "{}"; truncated = false }

abbrev cut_call : ToolCall String
cut_call = record a_call { truncated = true }

-- two audits before the run and one behind it
execute_counts : (execute one_tool a_call member 0).0 ≡ 31
unfolding execute execute_with lookup ◌>>=◌ ◌>>◌ act_if
execute_counts = refl

execute-Ran_example :
    Refused one_tool a_call member 0 (execute one_tool a_call member 0)
    ⊎ Ran one_tool a_call member 0 (execute one_tool a_call member 0)
execute-Ran_example = execute-Ran one_tool a_call member 0

one_tool-Registered : Registered one_tool
unfolding register_local_tool lookup insert
one_tool-Registered =
    registered {r = empty_registry} one_tool counting ("user" ∷ []) refl
      (constructed (some logging) quiet)

get_schemas-execute_example :
    ((contains (get_schemas one_tool (some member)) a_call.name ≡ true) ↔ (
      (tool : Tool ℕ String String String) × (get_tool one_tool a_call.name ≡ some tool)
      × (validate_tool_permissions tool member ≡ true)))
    × (contains (get_schemas one_tool (some member)) a_call.name ≡ false
        → Refused one_tool a_call member 0 (execute one_tool a_call member 0))
get_schemas-execute_example = get_schemas-execute one_tool-Registered member a_call 0

-- A model that answers every request with the same calls.
abbrev answering : List (ToolCall String) → LlmSide ℕ String
answering calls = record {
  stream_responses = false;
  conversation_filters = [];
  llm_context_enhancer = none;
  llm_middlewares = [];
  send_request = λ request n. (
    n + 100,
    ok (record {
      content = some "thinking";
      tool_calls = some calls;
      finish_reason = none;
      provider_content = none;
    }),
  );
  stream_request = λ request n. (n, ok []);
}

abbrev agent_for : List (ToolCall String) → Agent ℕ String String String
agent_for calls = record {
  llm = answering calls;
  tool_registry = one_tool;
  audit_logger = some logging;
  audit_config = quiet;
  feature_group_access = default_ui_features;
  max_tool_iterations = 4;
  auto_save_conversations = true;
  lifecycle_hooks = [];
  update_conversation = λ messages. give tt;
  is_answer_marked = λ ui. false;
}

abbrev blank : Screen ℕ String String
blank = record { world = 0; emitted = [] }

abbrev asked : Talk ℕ String String
asked = record {
  screen = blank;
  messages =
      record {
        role = user;
        content = plain "how many";
        tool_calls = none;
        tool_call_id = none;
        provider_content = none;
      }
      ∷ [];
}

run_calls-Shown_example :
    Shown
      (agent_for (a_call ∷ []))
      member
      []
      (run_calls (agent_for (a_call ∷ [])) member none (a_call ∷ cut_call ∷ []) blank).0.emitted
run_calls-Shown_example =
    run_calls-Shown (agent_for (a_call ∷ [])) member none (a_call ∷ cut_call ∷ []) blank

answering-IsProvided :
    (calls : List (ToolCall String)) (request : LlmRequest String) (w : ℕ)
    → Post IsProvided (ask (agent_for calls).llm request w).1
unfolding ask ◌>>=◌ block_ids subset
answering-IsProvided calls request w = refl

respond-Settled_example :
    Settled asked.messages
      (respond (agent_for (a_call ∷ [])) ("count" ∷ []) member none (some 2) asked)
respond-Settled_example =
    respond-Settled (agent_for (a_call ∷ [])) ("count" ∷ []) member none (some 2) asked
      (answering-IsProvided (a_call ∷ []))

respond_bounds_example :
    Leaves
      (λ (ended : Ended) (u : Talk ℕ String String).
        (rounds u.messages ≡ rounds asked.messages + ended.tool_iterations)
        × (ended.tool_iterations ≤ max_iterations 4 (some 2)))
      (λ (u : Talk ℕ String String).
        rounds u.messages ≤ rounds asked.messages + max_iterations 4 (some 2))
      (respond (agent_for (a_call ∷ [])) ("count" ∷ []) member none (some 2) asked)
respond_bounds_example =
    respond_bounds (agent_for (a_call ∷ [])) ("count" ∷ []) member none (some 2) asked

abbrev a_request : LlmRequest String
a_request = record {
  messages = asked.messages;
  tools = none;
  user = member;
  stream = false;
  system_prompt = none;
}

cut-AsksFail : AsksFail (agent_for (cut_call ∷ [])) [] member none
unfolding ask is_tool_call run_calls execute lookup feature_name act_if all_failed ◌>>=◌ ◌>>◌ emit
    on_world
cut-AsksFail request w = (refl, λ s. refl)

answering-Builds : (calls : List (ToolCall String)) → Builds (agent_for calls) [] member none
unfolding build_llm_request ◌>>=◌
answering-Builds calls messages w = tt

loop_stops_example :
    (loop (agent_for (cut_call ∷ [])) [] member none 4 0 0 false a_request asked).1
    ≡ ok (record { tool_iterations = 3; stopped_on_argument_failures = true })
loop_stops_example =
    loop_stops (agent_for (cut_call ∷ [])) [] member none 4 a_request asked cut-AsksFail
      (answering-Builds (cut_call ∷ [])) (omega arith)
