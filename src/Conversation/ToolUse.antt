-- ===== src/Conversation/ToolUse.antt =====
-- `_tool_use_ids` and `_first_unanswered_tool_use` of src/sqllens/tools/query_database.py.
pub mod Cut
pub mod Clear
pub mod Scan
pub mod Uses
pub mod Stops
use sqllens.Prelude.{
  ℕ, ◌+◌, String, Bool, true, false, not, ◌&&◌, ◌||◌, Option, none, some, List, [], ◌∷◌, ◌++◌, map,
  str_eq, drop, if◌then◌else◌,
}

pub data Role : Type 0 where
  user assistant tool system : Role

-- A block of `provider_content`: a dict with its "type" and "id", or anything else.
pub data Block : Type 0 where
  dict_block : Option String → Option String → Block
  other_block : Block

-- The fields of a stored message that the search reads; a list that is None is empty.
pub record Message : Type 0 where
  pub role : Role
  pub tool_calls : List String
  pub provider_content : List Block
  pub tool_call_id : Option String

-- block.get("type") == "tool_use"
unfoldable pub is_tool_use : Option String → Bool
is_tool_use none = false
is_tool_use (some t) = str_eq t "tool_use"

unfoldable pub block_ids : List Block → List (Option String)
unfolding is_tool_use
block_ids [] = []
block_ids (dict_block type id ∷ bs) = if is_tool_use type then id ∷ block_ids bs else block_ids bs
block_ids (other_block ∷ bs) = block_ids bs

-- `_tool_use_ids`, with repetitions
unfoldable pub tool_use_ids : Message → List (Option String)
unfolding block_ids
tool_use_ids m = map some m.tool_calls ++ block_ids m.provider_content

unfoldable pub same_id : Option String → Option String → Bool
same_id none none = true
same_id (some a) (some b) = str_eq a b
same_id _ _ = false

unfoldable pub has_id : List (Option String) → Option String → Bool
unfolding same_id
has_id [] i = false
has_id (j ∷ js) i = same_id j i || has_id js i

-- ids <= answered
unfoldable pub subset : List (Option String) → List (Option String) → Bool
unfolding has_id
subset [] answered = true
subset (i ∷ is) answered = has_id answered i && subset is answered

unfoldable pub is_tool : Role → Bool
is_tool tool = true
is_tool _ = false

unfoldable pub is_assistant : Role → Bool
is_assistant assistant = true
is_assistant _ = false

-- the ids answered by the run of tool messages in front
unfoldable pub answered : List Message → List (Option String)
answered [] = []
answered (m ∷ ms) = if is_tool m.role then m.tool_call_id ∷ answered ms else []

unfoldable pub is_nil : List (Option String) → Bool
is_nil [] = true
is_nil (i ∷ is) = false

-- the message `m`, with what follows it, is one that the search stops at
unfoldable pub is_unanswered : Message → List Message → Bool
is_unanswered m following =
    is_assistant m.role
    && not (is_nil (tool_use_ids m))
    && not (subset (tool_use_ids m) (answered following))

unfoldable pub search_from : List Message → ℕ → Option ℕ
search_from [] index = none
search_from (m ∷ ms) index =
    let later = search_from ms (index + 1) in if is_unanswered m ms then some index else later

unfoldable pub first_unanswered_tool_use : List Message → ℕ → Option ℕ
first_unanswered_tool_use messages start = search_from (drop start messages) start
