-- ===== src/Conversation/ToolUse/Scan.antt =====
-- `_first_unanswered_tool_use` of src/sqllens/tools/query_database.py on what a store returns, which
-- may hold objects that the search cannot read.
use sqllens.Prelude.{
  ℕ, ◌+◌, String, ◌≡◌, refl, Bool, not, ◌&&◌, Option, none, some, List, [], ◌∷◌, drop, drop-map,
  map, if◌then◌else◌, arith,
}
use sqllens.Prelude.Result.{Result, ok, err, ◌>>=◌}
use sqllens.Conversation.ToolUse.{
  Message, tool_use_ids, subset, answered, is_tool, is_assistant, is_nil, is_unanswered,
  search_from, first_unanswered_tool_use,
}

-- An entry of the list of messages: a message; an object without a message's fields; or an
-- assistant message with a tool-use id that cannot be in a set.
pub data Stored : Type 0 where
  message : Message → Stored
  no_message unhashable : Stored

-- what the search raises
pub data ScanError : Type 0 where
  unscannable : ScanError

-- the ids answered by the run of tool messages in front
unfoldable pub scan_answered : List Stored → Result ScanError (List (Option String))
unfolding is_tool
scan_answered [] = ok []
scan_answered (no_message ∷ ms) = err unscannable
scan_answered (unhashable ∷ ms) = ok []
scan_answered (message m ∷ ms) =
    let rest = scan_answered ms in
    if is_tool m.role then (do ids ← rest; ok (m.tool_call_id ∷ ids)) else ok []

-- an assistant message that uses tools
unfoldable pub uses_tools : Message → Bool
unfolding is_assistant is_nil tool_use_ids
uses_tools m = is_assistant m.role && not (is_nil (tool_use_ids m))

unfoldable pub scan_from : List Stored → ℕ → Result ScanError (Option ℕ)
unfolding scan_answered uses_tools subset
scan_from [] index = ok none
scan_from (no_message ∷ ms) index = err unscannable
scan_from (unhashable ∷ ms) index = err unscannable
scan_from (message m ∷ ms) index =
    let later = scan_from ms (index + 1) in
    if uses_tools m
    then (do ids ← scan_answered ms; if subset (tool_use_ids m) ids then later else ok (some index))
    else later

-- `_first_unanswered_tool_use`
unfoldable pub scan : List Stored → ℕ → Result ScanError (Option ℕ)
unfolding scan_from
scan messages start = scan_from (drop start messages) start

-- On messages that can all be read it is the search that does not raise.
scan_answered-message : (ms : List Message) → scan_answered (map message ms) ≡ ok (answered ms)
unfolding scan_answered answered
scan_answered-message [] = refl
scan_answered-message (m ∷ ms) = rw (scan_answered-message ms) (ground arith)

scan_from-message :
    (ms : List Message) (k : ℕ) → scan_from (map message ms) k ≡ ok (search_from ms k)
unfolding scan_from search_from uses_tools is_unanswered
scan_from-message [] k = refl
scan_from-message (m ∷ ms) k =
    rw (scan_answered-message ms) (rw (scan_from-message ms (k + 1)) (ground arith))

pub scan-message :
    (ms : List Message) (start : ℕ)
    → scan (map message ms) start ≡ ok (first_unanswered_tool_use ms start)
unfolding scan first_unanswered_tool_use
scan-message ms start = rw (drop-map message start ms) (scan_from-message (drop start ms) start)
