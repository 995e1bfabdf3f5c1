-- ===== src/Agent/Calls.antt =====
-- What one round's tool calls do, in `Agent._send_message` of src/sqllens/agent/core/agent/agent.py:
-- the loop over `response.tool_calls`, with no observability provider.
pub mod Ids
pub mod Allowed
use sqllens.Prelude.Act.{Act, ◌>>=◌, ◌>>◌, give, act_if}
use sqllens.Agent.Access.{
  User, UiFeature, feature_name, can_user_access_feature, show_tool_names, show_tool_arguments,
  show_tool_error,
}
use sqllens.Agent.Registry.{
  Said, plain, invalid_arguments, ToolCall, ToolResult, Tool, Registry, AuditConfig, AuditEvent,
  ui_feature_access, audit_with, get_tool, execute,
}
use sqllens.Agent.Requests.{LlmSide, Message, or_empty}
use sqllens.Prelude.Result.{ok}
use text.Mathlib.Text.{starts_with}
use sqllens.Prelude.{
  ℕ, String, Bool, true, false, not, ◌&&◌, ◌||◌, Option, none, some, List, [], ◌∷◌, ◌++◌,
  if◌then◌else◌, str_eq,
}
use sqllens.Prelude.Dict.{Dict}

-- `LifecycleHook`: a hook after a tool may give another result.
pub record LifecycleHook (World Raw Args Ui : Type 0) : Type 0 where
  pub before_tool : Tool World Raw Args Ui → Act World String (Unit {0})
  pub after_tool : ToolResult Ui → Act World String (Option (ToolResult Ui))
  pub after_message : List (Message Raw) → Act World String (Unit {0})

-- The fields of an `Agent` and of its configuration. `is_answer_marked` reads a component's marker.
pub record Agent (World Raw Args Ui : Type 0) : Type 0 where
  pub llm : LlmSide World Raw
  pub tool_registry : Registry World Raw Args Ui
  pub audit_logger : Option (AuditEvent Raw Ui → Act World String (Unit {0}))
  pub audit_config : AuditConfig
  pub feature_group_access : Dict (List String)
  pub max_tool_iterations : ℕ
  pub auto_save_conversations : Bool
  pub lifecycle_hooks : List (LifecycleHook World Raw Args Ui)
  pub update_conversation : List (Message Raw) → Act World String (Unit {0})
  pub is_answer_marked : Ui → Bool

-- What is yielded, by what the component shows.
pub data Event (Raw Ui : Type 0) : Type 0 where
  -- before the tools of a round
  reasoning working : String → Event Raw Ui
  executing_tools : ℕ → Event Raw Ui
  -- of a tool
  task_added : String → Event Raw Ui
  card_running : ToolCall Raw → String → Event Raw Ui
  card_finished : String → Bool → Said → Event Raw Ui
  task_completed : String → Bool → Event Raw Ui
  tool_ui : ToolResult Ui → Ui → Event Raw Ui
  -- at the end
  argument_stop : ℕ → Event Raw Ui
  chat_input : String → Event Raw Ui
  response_complete : Event Raw Ui
  answer : String → Event Raw Ui
  tool_limit : ℕ → Event Raw Ui
  tool_limit_answer : ℕ → Event Raw Ui

-- The world, and what has been yielded so far.
pub record Screen (World Raw Ui : Type 0) : Type 0 where
  pub world : World
  pub emitted : List (Event Raw Ui)

-- What the loop keeps of a call: an entry of `tool_results`, one of `argument_failures`, and whether
-- its component set `answer_prose_emitted`.
pub record CallDone : Type 0 where
  pub tool_call_id : String
  pub content : Said
  pub argument_failure : Bool
  pub marked : Bool

-- error or other
unfoldable pub or_said : Option Said → String → Said
or_said none other = plain other
or_said (some (plain s)) other = if str_eq s "" then plain other else plain s
or_said (some said) other = said

-- (error or "").startswith(_INVALID_ARGUMENTS_PREFIX)
unfoldable pub is_invalid_arguments : Option Said → Bool
is_invalid_arguments none = false
is_invalid_arguments (some (plain s)) = starts_with s "Invalid arguments"
is_invalid_arguments (some (invalid_arguments m)) = true
is_invalid_arguments (some other) = false

module _ {World Raw Ui : Type 0} where
  unfoldable pub on_world : {A : Type 0} → Act World String A → Act (Screen World Raw Ui) String A
  on_world run s = (record s { world = (run s.world).0 }, (run s.world).1)

  unfoldable pub emit : Event Raw Ui → Act (Screen World Raw Ui) String (Unit {0})
  emit e s = (record s { emitted = s.emitted ++ e ∷ [] }, ok tt)

module _ {Ui : Type 0} where
  abbrev pub or_result : Option (ToolResult Ui) → ToolResult Ui → ToolResult Ui
  or_result none result = result
  or_result (some modified) result = modified

  module _ {Raw : Type 0} where
    -- not result.success and (tool_call.truncated or ...)
    unfoldable pub is_argument_failure : ToolCall Raw → ToolResult Ui → Bool
    unfolding is_invalid_arguments
    is_argument_failure call result =
        not result.success && (call.truncated || is_invalid_arguments result.error)

module _ {World Raw Args Ui : Type 0} where
  -- A test of a feature, with its audit.
  unfoldable pub check_feature :
      Agent World Raw Args Ui → User → UiFeature → Act (Screen World Raw Ui) String Bool
  unfolding audit_with can_user_access_feature
  check_feature agent user feature =
      let access = can_user_access_feature agent.feature_group_access (feature_name feature) user in
      let on = agent.audit_config.enabled && agent.audit_config.log_ui_feature_checks in
      on_world (audit_with agent.audit_logger on (ui_feature_access (feature_name feature) access))
      >> give access

  unfoldable pub before_tools :
      List (LifecycleHook World Raw Args Ui)
      → Option (Tool World Raw Args Ui)
      → Act World String (Unit {0})
  before_tools hooks none = give tt
  before_tools [] (some tool) = give tt
  before_tools (h ∷ hs) (some tool) = h.before_tool tool >> before_tools hs (some tool)

  unfoldable pub after_tools :
      List (LifecycleHook World Raw Args Ui) → ToolResult Ui → Act World String (ToolResult Ui)
  after_tools [] result = give result
  after_tools (h ∷ hs) result = do
    modified ← h.after_tool result
    after_tools hs (or_result modified result)

  -- Yield tool result; whether it sets `answer_prose_emitted`
  unfoldable pub show_component :
      Agent World Raw Args Ui
      → User
      → ToolResult Ui
      → Option Ui
      → Act (Screen World Raw Ui) String Bool
  unfolding check_feature
  show_component agent user result none = give false
  show_component agent user result (some ui) =
      if result.success then emit (tool_ui result ui) >> give (agent.is_answer_marked ui) else (do
        access ← check_feature agent user show_tool_error
        act_if access (emit (tool_ui result ui))
        give false)

  unfoldable pub finish_call :
      Agent World Raw Args Ui
      → User
      → ToolCall Raw
      → Bool
      → ToolResult Ui
      → Act (Screen World Raw Ui) String CallDone
  unfolding check_feature show_component or_said
  finish_call agent user call failed result = do
    arguments ← check_feature agent user show_tool_arguments
    act_if arguments (
        emit (
          card_finished call.name result.success (
            if result.success
            then plain "Tool completed successfully"
            else or_said result.error "Unknown error")))
    names ← check_feature agent user show_tool_names
    act_if names (emit (task_completed call.name result.success))
    marked ← show_component agent user result result.ui_component
    give (record {
      tool_call_id = call.id;
      content =
          if result.success
          then result.result_for_llm
          else or_said result.error "Tool execution failed";
      argument_failure = failed;
      marked = marked;
    })

  -- the body of the loop over the calls
  unfoldable pub run_call :
      Agent World Raw Args Ui
      → User
      → Option String
      → ToolCall Raw
      → Act (Screen World Raw Ui) String CallDone
  unfolding check_feature before_tools execute after_tools is_argument_failure finish_call
  run_call agent user content call = do
    names ← check_feature agent user show_tool_names
    act_if names (emit (task_added call.name))
    arguments ← check_feature agent user show_tool_arguments
    act_if arguments (emit (card_running call (or_empty content)))
    on_world (before_tools agent.lifecycle_hooks (get_tool agent.tool_registry call.name))
    first ← on_world (execute agent.tool_registry call user)
    result ← on_world (after_tools agent.lifecycle_hooks first)
    finish_call agent user call (is_argument_failure call first) result

  unfoldable pub run_calls :
      Agent World Raw Args Ui
      → User
      → Option String
      → List (ToolCall Raw)
      → Act (Screen World Raw Ui) String (List CallDone)
  unfolding run_call
  run_calls agent user content [] = give []
  run_calls agent user content (c ∷ cs) = do
    done ← run_call agent user content c
    later ← run_calls agent user content cs
    give (done ∷ later)
