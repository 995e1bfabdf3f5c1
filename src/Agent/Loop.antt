-- ===== src/Agent/Loop.antt =====
-- The tool loop of `Agent._send_message` in src/sqllens/agent/core/agent/agent.py, from the first
-- request to the hooks after the message, with no observability provider.
pub mod History
pub mod Held
pub mod Answered
pub mod Count
pub mod Rounds
pub mod Stops
use sqllens.Prelude.Act.{Act, ◌>>=◌, ◌>>◌, give, act_if}
use sqllens.Agent.Access.{
  User, feature_name, can_user_access_feature, show_tool_invocation_message_in_chat,
}
use sqllens.Agent.Registry.{Said, plain, ToolCall}
use sqllens.Agent.Requests.{
  LlmRequest, LlmResponse, Message, is_tool_call, is_text, or_empty, or_none, holds_some,
  build_llm_request, ask,
}
use sqllens.Agent.Calls.{
  Agent, LifecycleHook, Event, Screen, CallDone, on_world, emit, run_calls, reasoning, working,
  executing_tools, argument_stop, chat_input, response_complete, answer, tool_limit,
  tool_limit_answer,
}
use sqllens.Conversation.ToolUse.{Role, assistant, tool}
use sqllens.Prelude.Result.{Result, ok, err}
use sqllens.Prelude.{
  ℕ, zero, suc, ◌+◌, min, String, Bool, true, false, not, ◌&&◌, ◌||◌, Option, none, some, List, [],
  ◌∷◌, ◌++◌, if◌then◌else◌, leb, length, any, all,
}

-- The screen, and the messages of the conversation, which no hook, filter or middleware changes.
pub record Talk (World Raw Ui : Type 0) : Type 0 where
  pub screen : Screen World Raw Ui
  pub messages : List (Message Raw)

-- `tool_iterations` and `stopped_on_argument_failures` behind the loop.
pub record Ended : Type 0 where
  pub tool_iterations : ℕ
  pub stopped_on_argument_failures : Bool

abbrev pub max_consecutive_argument_failures : ℕ
max_consecutive_argument_failures = 3

-- argument_failures and all(argument_failures)
unfoldable pub all_failed : List CallDone → Bool
all_failed [] = false
all_failed (d ∷ ds) = all (λ (c : CallDone). c.argument_failure) (d ∷ ds)

unfoldable pub next_failures : List CallDone → ℕ → ℕ
unfolding all_failed
next_failures done failures = if all_failed done then failures + 1 else 0

-- _max_iterations, from the configuration and the effective settings
unfoldable pub max_iterations : ℕ → Option ℕ → ℕ
max_iterations config none = config
max_iterations config (some effective) = min config effective

module _ {Raw : Type 0} where
  unfoldable pub assistant_message : LlmResponse Raw → Message Raw
  unfolding or_empty
  assistant_message r = record {
    role = assistant;
    content = plain (or_empty r.content);
    tool_calls = r.tool_calls;
    tool_call_id = none;
    provider_content = r.provider_content;
  }

  unfoldable pub final_message : LlmResponse Raw → Message Raw
  unfolding or_empty
  final_message r = record {
    role = assistant;
    content = plain (or_empty r.content);
    tool_calls = none;
    tool_call_id = none;
    provider_content = r.provider_content;
  }

  unfoldable pub tool_messages : List CallDone → List (Message Raw)
  tool_messages [] = []
  tool_messages (d ∷ ds) =
      record {
        role = tool;
        content = d.content;
        tool_calls = none;
        tool_call_id = some d.tool_call_id;
        provider_content = none;
      }
      ∷ tool_messages ds

module _ {World Raw Ui : Type 0} where
  unfoldable pub on_screen :
      {A : Type 0} → Act (Screen World Raw Ui) String A → Act (Talk World Raw Ui) String A
  on_screen run t = (record t { screen = (run t.screen).0 }, (run t.screen).1)

  unfoldable pub say : Event Raw Ui → Act (Talk World Raw Ui) String (Unit {0})
  unfolding on_screen emit
  say e = on_screen (emit e)

  unfoldable pub add_messages : List (Message Raw) → Act (Talk World Raw Ui) String (Unit {0})
  add_messages ms t = (record t { messages = t.messages ++ ms }, ok tt)

  -- the branch of a response with no tool call
  unfoldable pub final_reply : LlmResponse Raw → ℕ → Bool → Act (Talk World Raw Ui) String Ended
  unfolding final_message is_text or_empty holds_some
  final_reply response iterations prose = do
    say response_complete
    say (chat_input "Ask a follow-up question...")
    act_if (is_text response.content || holds_some response.provider_content)
        (add_messages (final_message response ∷ []))
    act_if (is_text response.content && not prose) (say (answer (or_empty response.content)))
    give (record { tool_iterations = iterations; stopped_on_argument_failures = false })

  -- Check if we hit the tool iteration limit
  unfoldable pub warn : ℕ → Ended → Act (Talk World Raw Ui) String (Unit {0})
  warn limit ended =
      act_if (leb limit ended.tool_iterations && not ended.stopped_on_argument_failures) (
        say (tool_limit ended.tool_iterations)
        >> say (tool_limit_answer ended.tool_iterations)
        >> say (chat_input "Continue the task or ask me something else..."))

module _ {World Raw Args Ui : Type 0} where
  -- any partial content from the assistant before tool execution
  unfoldable pub announce :
      Agent World Raw Args Ui
      → User
      → LlmResponse Raw
      → Option String
      → Act (Screen World Raw Ui) String (Unit {0})
  unfolding can_user_access_feature
  announce agent user response none = give tt
  announce agent user response (some content) =
      if can_user_access_feature agent.feature_group_access
        (feature_name show_tool_invocation_message_in_chat) user
      then emit (reasoning content) >> emit (executing_tools (length (or_none response.tool_calls)))
      else emit (working content)

  -- Rebuild request with tool responses
  unfoldable pub rebuild :
      Agent World Raw Args Ui
      → List String
      → User
      → Option String
      → Act (Talk World Raw Ui) String (LlmRequest Raw)
  unfolding build_llm_request
  rebuild agent schemas user system_prompt t =
      on_screen (on_world (build_llm_request agent.llm t.messages schemas user system_prompt)) t

  -- behind a round's tool messages: stop, or go on with `next`
  unfoldable pub settle :
      Agent World Raw Args Ui
      → List String
      → User
      → Option String
      → ℕ
      → ℕ
      → Bool
      → (ℕ → Bool → LlmRequest Raw → Act (Talk World Raw Ui) String Ended)
      → Act (Talk World Raw Ui) String Ended
  unfolding rebuild
  settle agent schemas user system_prompt iterations failures prose next =
      if leb max_consecutive_argument_failures failures
      then (do
        say (argument_stop failures)
        say (chat_input "Try rephrasing or narrowing the question...")
        give (record { tool_iterations = iterations; stopped_on_argument_failures = true }))
      else (do request ← rebuild agent schemas user system_prompt; next failures prose request)

  unfoldable pub run_round :
      Agent World Raw Args Ui
      → List String
      → User
      → Option String
      → LlmResponse Raw
      → ℕ
      → ℕ
      → Bool
      → (ℕ → Bool → LlmRequest Raw → Act (Talk World Raw Ui) String Ended)
      → Act (Talk World Raw Ui) String Ended
  unfolding assistant_message tool_messages announce run_calls next_failures settle
  run_round agent schemas user system_prompt response iterations failures prose next = do
    add_messages (assistant_message response ∷ [])
    on_screen (announce agent user response response.content)
    done ← on_screen (run_calls agent user response.content (or_none response.tool_calls))
    add_messages (tool_messages done)
    settle agent schemas user system_prompt iterations (next_failures done failures)
        (prose || any (λ (c : CallDone). c.marked) done) next

  unfoldable pub take_response :
      Agent World Raw Args Ui
      → List String
      → User
      → Option String
      → ℕ
      → ℕ
      → Bool
      → (ℕ → Bool → LlmRequest Raw → Act (Talk World Raw Ui) String Ended)
      → LlmResponse Raw
      → Act (Talk World Raw Ui) String Ended
  unfolding is_tool_call run_round final_reply
  take_response agent schemas user system_prompt iterations failures prose next response =
      if is_tool_call response
      then run_round agent schemas user system_prompt response (iterations + 1) failures prose next
      else final_reply response iterations prose

  -- `while tool_iterations < _max_iterations`, with the iterations that are left
  unfoldable pub loop :
      Agent World Raw Args Ui
      → List String
      → User
      → Option String
      → ℕ
      → ℕ
      → ℕ
      → Bool
      → LlmRequest Raw
      → Act (Talk World Raw Ui) String Ended
  unfolding ask take_response
  loop agent schemas user system_prompt zero iterations failures prose request =
      give (record { tool_iterations = iterations; stopped_on_argument_failures = false })
  loop agent schemas user system_prompt (suc left) iterations failures prose request = do
    response ← on_screen (on_world (ask agent.llm request))
    take_response agent schemas user system_prompt iterations failures prose
        (loop agent schemas user system_prompt left (iterations + 1)) response

  unfoldable pub after_messages :
      List (LifecycleHook World Raw Args Ui) → List (Message Raw) → Act World String (Unit {0})
  after_messages [] messages = give tt
  after_messages (h ∷ hs) messages = h.after_message messages >> after_messages hs messages

  -- from `Build LLM request` on; `effective` is the cap of the effective settings
  unfoldable pub respond :
      Agent World Raw Args Ui
      → List String
      → User
      → Option String
      → Option ℕ
      → Act (Talk World Raw Ui) String Ended
  unfolding rebuild loop warn after_messages max_iterations
  respond agent schemas user system_prompt effective = do
    let limit = max_iterations agent.max_tool_iterations effective
    request ← rebuild agent schemas user system_prompt
    ended ← loop agent schemas user system_prompt limit 0 0 false request
    warn limit ended
    act_if agent.auto_save_conversations
        (λ t. on_screen (on_world (agent.update_conversation t.messages)) t)
    λ t. on_screen (on_world (after_messages agent.lifecycle_hooks t.messages)) t
    give ended
