-- ===== src/Agent/Loop/History.antt =====
-- The messages that a round adds answer its tool uses.
use sqllens.Conversation.ToolUse.{
  is_nil, has_id, assistant, is_unanswered, answered, tool_use_ids, block_ids, subset, is_tool,
  is_assistant, first_unanswered_tool_use, search_from, Block,
}
use sqllens.Agent.Requests.{holds_some, is_tool_call, LlmResponse, Message, or_none}
use sqllens.Agent.Loop.{final_message, assistant_message, tool_messages}
use sqllens.Prelude.{
  none, ◌≤◌, String, ◌≡◌, refl, ap, sym, ◌∙◌, true, false, some, List, [], ◌∷◌, ◌++◌, map, arith,
  length, Option,
}
use sqllens.Agent.Registry.{ToolCall}
use sqllens.Agent.Calls.{CallDone}
use sqllens.Conversation.ToolUse.Clear.{
  Clear, nothing, before, Clear-append, subset_refl, subset-join,
}
use mathlib.Core.Path.{subst}
use mathlib.Core.List.{append-nil, append_assoc, map-append}
use sqllens.Conversation.ToolUse as ToolUse

module _ {Raw : Type 0} where
  abbrev pub ids : List (ToolCall Raw) → List String
  ids calls = map (λ (c : ToolCall Raw). c.id) calls

  -- What the search for unanswered tool uses reads of a message.
  abbrev pub view : Message Raw → ToolUse.Message
  view m = record {
    role = m.role;
    tool_calls = ids (or_none m.tool_calls);
    provider_content = or_none m.provider_content;
    tool_call_id = m.tool_call_id;
  }

  -- Every tool use among a response's provider blocks is one of its tool calls.
  abbrev pub IsProvided : LlmResponse Raw → Type 0
  IsProvided r =
      subset (block_ids (or_none r.provider_content)) (map some (ids (or_none r.tool_calls))) ≡ true

tool_messages-Clear :
    (Raw : Type 0) (ds : List CallDone) → Clear (map view (tool_messages {Raw = Raw} ds))
unfolding tool_messages is_unanswered is_assistant
tool_messages-Clear Raw [] = nothing
tool_messages-Clear Raw (d ∷ ds) = before refl (tool_messages-Clear Raw ds)

tool_messages-answered :
    (Raw : Type 0) (ds : List CallDone)
    → answered (map view (tool_messages {Raw = Raw} ds))
      ≡ map some (map (λ (d : CallDone). d.tool_call_id) ds)
unfolding tool_messages answered is_tool
tool_messages-answered Raw [] = refl
tool_messages-answered Raw (d ∷ ds) = ap (◌∷◌ (some d.tool_call_id)) (tool_messages-answered Raw ds)

module _ {Raw : Type 0} where
  pub round-Clear :
      (r : LlmResponse Raw) (ds : List CallDone)
      → IsProvided r
      → map (λ (d : CallDone). d.tool_call_id) ds ≡ ids (or_none r.tool_calls)
      → Clear (map view (assistant_message r ∷ tool_messages ds))
  unfolding assistant_message
  round-Clear r ds p e = before answers (tool_messages-Clear Raw ds)
    where
      all_answered :
          subset
            (map some (ids (or_none r.tool_calls)) ++ block_ids (or_none r.provider_content))
            (answered (map view (tool_messages {Raw = Raw} ds)))
          ≡ true
      all_answered =
          rw (tool_messages-answered Raw ds, e)
            (subset-join _ (block_ids (or_none r.provider_content)) _ (subset_refl _) p)

      answers :
          is_unanswered (view (assistant_message r)) (map view (tool_messages {Raw = Raw} ds))
          ≡ false
      answers = unfold is_unanswered tool_use_ids is_assistant in ground (arith, all_answered)

  -- The messages added to `prior`: no tool use among them is unanswered.
  pub record Grown (prior messages : List (Message Raw)) : Type 0 where
    pub new : List (Message Raw)
    pub extends : messages ≡ prior ++ new
    pub clear : Clear (map view new)

  -- The same of all but the last message at most.
  pub record Torn (prior messages : List (Message Raw)) : Type 0 where
    pub new : List (Message Raw)
    pub last : List (Message Raw)
    pub extends : messages ≡ prior ++ (new ++ last)
    pub short : length last ≤ 1
    pub clear : Clear (map view new)

  pub Grown-Torn :
      {prior messages : List (Message Raw)} → Grown prior messages → Torn prior messages
  Grown-Torn g = record {
    new = g.new;
    last = [];
    extends = g.extends ∙ ap (◌++◌ _) (sym (append-nil g.new));
    short = omega arith;
    clear = g.clear;
  }

  pub Grown-append :
      {prior messages : List (Message Raw)} (more : List (Message Raw))
      → Grown prior messages
      → Clear (map view more)
      → Grown prior (messages ++ more)
  Grown-append {prior} more g c = record {
    new = g.new ++ more;
    extends = rw g.extends (append_assoc prior g.new more);
    clear = subst Clear (sym (map-append view g.new more)) (Clear-append g.clear c);
  }

  pub Grown-Torn_append :
      {prior messages : List (Message Raw)} (m : Message Raw)
      → Grown prior messages
      → Torn prior (messages ++ m ∷ [])
  Grown-Torn_append {prior} m g = record {
    new = g.new;
    last = m ∷ [];
    extends = rw g.extends (append_assoc prior g.new (m ∷ []));
    short = omega arith;
    clear = g.clear;
  }

no_ids : (is : List (Option String)) → subset is [] ≡ true → is_nil is ≡ true
unfolding subset has_id is_nil
no_ids [] h = refl
no_ids (i ∷ is) h = cc

module _ {Raw : Type 0} where
  pub final_message-Clear :
      (response : LlmResponse Raw)
      → is_tool_call response ≡ false
      → IsProvided response
      → Clear (map view (final_message response ∷ []))
  unfolding final_message is_tool_call holds_some is_unanswered tool_use_ids
  final_message-Clear response n p =
      before (no_uses response.tool_calls (or_none response.provider_content) n p) nothing
    where
      no_uses :
          (calls : Option (List (ToolCall Raw))) (blocks : List ToolUse.Block)
          → holds_some calls ≡ false
          → subset (block_ids blocks) (map some (ids (or_none calls))) ≡ true
          → is_unanswered
              (record {
                role = assistant;
                tool_calls = [];
                provider_content = blocks;
                tool_call_id = none;
              })
              []
            ≡ false
      no_uses none blocks n p = ground (arith, no_ids (block_ids blocks) p)
      no_uses (some []) blocks n p = ground (arith, no_ids (block_ids blocks) p)
      no_uses (some (c ∷ cs)) blocks n p = cc
