-- ===== src/Agent/Requests.antt =====
-- Messages, requests and responses of src/sqllens/agent/core/llm/models.py and
-- src/sqllens/agent/core/storage/models.py, and how `Agent` of src/sqllens/agent/core/agent/agent.py
-- builds a request, sends it and reads a streamed response, with no observability provider.
use sqllens.Prelude.Act.{Act, ◌>>=◌, give}
use sqllens.Agent.Access.{User}
use sqllens.Agent.Registry.{Said, ToolCall}
use sqllens.Conversation.ToolUse.{Role, Block}
use Prim.Native.String.{◌++◌ as str_append}
use sqllens.Prelude.{
  String, Bool, true, false, not, Option, none, some, List, [], ◌∷◌, ◌++◌, if◌then◌else◌, str_eq,
}

-- The fields that a stored `Message` and an `LlmMessage` share.
pub record Message (Raw : Type 0) : Type 0 where
  pub role : Role
  pub content : Said
  pub tool_calls : Option (List (ToolCall Raw))
  pub tool_call_id : Option String
  pub provider_content : Option (List Block)

-- `LlmRequest`; a tool by its name. What it copies unread from the configuration is left out.
pub record LlmRequest (Raw : Type 0) : Type 0 where
  pub messages : List (Message Raw)
  pub tools : Option (List String)
  pub user : User
  pub stream : Bool
  pub system_prompt : Option String

pub record LlmResponse (Raw : Type 0) : Type 0 where
  pub content : Option String
  pub tool_calls : Option (List (ToolCall Raw))
  pub finish_reason : Option String
  pub provider_content : Option (List Block)

pub record LlmStreamChunk (Raw : Type 0) : Type 0 where
  pub content : Option String
  pub tool_calls : Option (List (ToolCall Raw))
  pub finish_reason : Option String
  pub provider_content : Option (List Block)

-- `LlmMiddleware`
pub record LlmMiddleware (World Raw : Type 0) : Type 0 where
  pub before_llm_request : LlmRequest Raw → Act World String (LlmRequest Raw)
  pub after_llm_response : LlmRequest Raw → LlmResponse Raw → Act World String (LlmResponse Raw)

-- What the agent asks the model with. A stream is the chunks it gave, or the error it ended with.
pub record LlmSide (World Raw : Type 0) : Type 0 where
  pub stream_responses : Bool
  pub conversation_filters : List (List (Message Raw) → Act World String (List (Message Raw)))
  pub llm_context_enhancer :
      Option (List (Message Raw) → User → Act World String (List (Message Raw)))
  pub llm_middlewares : List (LlmMiddleware World Raw)
  pub send_request : LlmRequest Raw → Act World String (LlmResponse Raw)
  pub stream_request : LlmRequest Raw → Act World String (List (LlmStreamChunk Raw))

-- x or []
module _ {A : Type 0} where
  abbrev pub or_none : Option (List A) → List A
  or_none none = []
  or_none (some xs) = xs

  -- xs if xs else None
  unfoldable pub as_option : List A → Option (List A)
  as_option [] = none
  as_option (x ∷ xs) = some (x ∷ xs)

  -- bool(x)
  unfoldable pub holds_some : Option (List A) → Bool
  holds_some none = false
  holds_some (some []) = false
  holds_some (some (x ∷ xs)) = true

-- bool(text)
unfoldable pub is_text : Option String → Bool
is_text none = false
is_text (some s) = not (str_eq s "")

-- text or ""
unfoldable pub or_empty : Option String → String
or_empty none = ""
or_empty (some s) = s

module _ {Raw : Type 0} where
  unfoldable pub is_tool_call : LlmResponse Raw → Bool
  unfolding holds_some
  is_tool_call r = holds_some r.tool_calls

  -- the chunks on what has been read so far
  unfoldable pub accumulate :
      List (LlmStreamChunk Raw)
      → String
      → List (ToolCall Raw)
      → Option String
      → Option (List Block)
      → LlmResponse Raw
  unfolding as_option is_text or_empty
  accumulate [] text calls reason blocks = record {
    content = if is_text (some text) then some text else none;
    tool_calls = as_option calls;
    finish_reason = reason;
    provider_content = blocks;
  }
  accumulate (c ∷ cs) text calls reason blocks =
      accumulate cs (str_append text (or_empty c.content)) (calls ++ or_none c.tool_calls)
        (if is_text c.finish_reason then c.finish_reason else reason)
        (last_set c.provider_content blocks)
    where
      last_set : Option (List Block) → Option (List Block) → Option (List Block)
      last_set none old = old
      last_set (some new) old = some new

  module _ {World : Type 0} where
    unfoldable pub filter_messages :
        List (List (Message Raw) → Act World String (List (Message Raw)))
        → List (Message Raw)
        → Act World String (List (Message Raw))
    filter_messages [] messages = give messages
    filter_messages (f ∷ fs) messages = f messages >>= filter_messages fs

    unfoldable pub enhance :
        Option (List (Message Raw) → User → Act World String (List (Message Raw)))
        → List (Message Raw)
        → User
        → Act World String (List (Message Raw))
    enhance none messages user = give messages
    enhance (some enhancer) messages user = enhancer messages user

    -- `_build_llm_request`
    unfoldable pub build_llm_request :
        LlmSide World Raw
        → List (Message Raw)
        → List String
        → User
        → Option String
        → Act World String (LlmRequest Raw)
    unfolding filter_messages enhance as_option
    build_llm_request side messages schemas user system_prompt = do
      filtered ← filter_messages side.conversation_filters messages
      enhanced ← enhance side.llm_context_enhancer filtered user
      give (record {
        messages = enhanced;
        tools = as_option schemas;
        user = user;
        stream = side.stream_responses;
        system_prompt = system_prompt;
      })

    unfoldable pub before_llm :
        List (LlmMiddleware World Raw) → LlmRequest Raw → Act World String (LlmRequest Raw)
    before_llm [] request = give request
    before_llm (m ∷ ms) request = m.before_llm_request request >>= before_llm ms

    unfoldable pub after_llm :
        List (LlmMiddleware World Raw)
        → LlmRequest Raw
        → LlmResponse Raw
        → Act World String (LlmResponse Raw)
    after_llm [] request response = give response
    after_llm (m ∷ ms) request response =
        m.after_llm_response request response >>= after_llm ms request

    -- `_send_llm_request`
    unfoldable pub send_llm_request :
        LlmSide World Raw → LlmRequest Raw → Act World String (LlmResponse Raw)
    unfolding before_llm after_llm
    send_llm_request side request = do
      sent ← before_llm side.llm_middlewares request
      response ← side.send_request sent
      after_llm side.llm_middlewares sent response

    -- `_handle_streaming_response`
    unfoldable pub handle_streaming_response :
        LlmSide World Raw → LlmRequest Raw → Act World String (LlmResponse Raw)
    unfolding before_llm after_llm accumulate
    handle_streaming_response side request = do
      sent ← before_llm side.llm_middlewares request
      chunks ← side.stream_request sent
      after_llm side.llm_middlewares sent (accumulate chunks "" [] none none)

    -- Get LLM response
    unfoldable pub ask : LlmSide World Raw → LlmRequest Raw → Act World String (LlmResponse Raw)
    unfolding send_llm_request handle_streaming_response
    ask side request =
        if side.stream_responses
        then handle_streaming_response side request
        else send_llm_request side request
