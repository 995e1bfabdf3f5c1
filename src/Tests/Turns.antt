-- ===== src/Tests/Turns.antt =====
-- The conversation store, the end of a turn, the memory listing and the JSON copy.
use sqllens.Conversation.ToolUse.{
  Message, Role, first_unanswered_tool_use, assistant, search_from, is_unanswered, tool_use_ids,
  answered, is_nil, subset, is_assistant, block_ids, has_id, same_id, tool, dict_block,
}
use sqllens.Conversation.ToolUse.Scan.{Stored, message, no_message, unscannable, scan}
use sqllens.Conversation.ToolUse.Uses.{IsOpen, AllAnswered}
use sqllens.Conversation.ToolUse.Cut.{first_unanswered_tool_use-take}
use sqllens.Conversation.Turn.Shipped.{bounded_api}
use sqllens.Conversation.Turn.Bounded.{
  Trimmed, trim_unanswered_tool_use-clears, rollback_conversation-restores,
}
use sqllens.Conversation.Turn.{trim_unanswered_tool_use, rollback_conversation}
use sqllens.Conversation.Store.{
  Conversation, Store, create_conversation, get_conversation, remember, truncate_messages,
  new_store, owner_mismatch,
}
use sqllens.Conversation.Store.Valid.{IsValid, new_store-IsValid, create, calls, get, after}
use sqllens.Conversation.Store.Recency.{
  get_conversation-create_conversation, remember_full, truncate_messages_lem, rolled_back, keys,
}
use sqllens.Memory.Consistency.{
  check, check-snapshot, initial, begin_writing, snapshot, more, none_yet, begin,
}
use sqllens.Json.{
  Encoder, Json, copy_bounded_json, Items, mark, visit, visit_items, enter, open_container, charge,
  visit_int, visit_text, cut_text, charge_encoded, length_items,
}
use sqllens.Json.Faithful.{copy_bounded_json-same}
use sqllens.Json.Measure.{size, nodes, height}
use sqllens.Json.Bounds.{copy_bounded_json-bounds}
use sqllens.Prelude.{
  ℕ, ◌+◌, ◌≤◌, ◌<◌, String, ◌≡◌, refl, ◌↔◌, Bool, true, false, none, some, List, [], ◌∷◌, arith,
  str_eq, length, take, drop, map, if◌then◌else◌,
}
use sqllens.Prelude.Result.{ok, err}
use sqllens.Prelude.Dict.{lookup}

abbrev asked : Message
asked = record { role = Role.user; tool_calls = []; provider_content = []; tool_call_id = none }

abbrev calling : Message
calling = record {
  role = assistant;
  tool_calls = "t1" ∷ [];
  provider_content = [];
  tool_call_id = none;
}

abbrev answering : Message
answering = record { role = tool; tool_calls = []; provider_content = []; tool_call_id = some "t1" }

-- a tool use in the provider's content only
abbrev replayed : Message
replayed = record {
  role = assistant;
  tool_calls = [];
  provider_content = dict_block (some "tool_use") (some "t2") ∷ [];
  tool_call_id = none;
}

abbrev history : List Stored
history = message asked ∷ message calling ∷ message answering ∷ message replayed ∷ []

abbrev turn : Conversation Stored
turn = record { id = "c"; user_id = "u"; messages = history; updated_at = 1 }

abbrev one_turn : Store Stored
one_turn = record { max_conversations = 2; conversations = ("c", turn) ∷ [] }

trim_unanswered_tool_use-clears_example :
    (c' : Conversation Stored) × (lookup "c"
        (trim_unanswered_tool_use (bounded_api 5) one_turn "c" "u" 1).0.conversations
      ≡ some c')
    × Trimmed 1 history c'.messages (trim_unanswered_tool_use (bounded_api 5) one_turn "c" "u" 1).1
    × (take 1 c'.messages ≡ take 1 history)
    × ((j : String)
        → str_eq "c" j ≡ false
        → lookup j (trim_unanswered_tool_use (bounded_api 5) one_turn "c" "u" 1).0.conversations
          ≡ lookup j one_turn.conversations)
unfolding lookup
trim_unanswered_tool_use-clears_example =
    trim_unanswered_tool_use-clears one_turn "c" "u" 1 5 turn refl refl

-- the search stops at the replayed message, and raises where an object is no message
scan-history : scan history 1 ≡ ok (some 3)
unfolding scan is_assistant block_ids has_id same_id
scan-history = refl

scan-no_message : scan (message calling ∷ message answering ∷ no_message ∷ []) 0 ≡ err unscannable
unfolding scan is_assistant block_ids has_id same_id
scan-no_message = refl

rollback_conversation-restores_example :
    (c' : Conversation Stored) × (lookup "c"
        (rollback_conversation (bounded_api 5) one_turn "c" "u" 1).0.conversations
      ≡ some c')
    × (c'.messages ≡ message asked ∷ [])
    × ((j : String)
        → str_eq "c" j ≡ false
        → lookup j (rollback_conversation (bounded_api 5) one_turn "c" "u" 1).0.conversations
          ≡ lookup j one_turn.conversations)
unfolding lookup
rollback_conversation-restores_example =
    rollback_conversation-restores one_turn "c" "u" 5 turn (message asked ∷ [])
      (message calling ∷ message answering ∷ message replayed ∷ []) refl refl refl

first_unanswered_tool_use-take_example :
    (1 ≤ 1)
    × (1 < length (asked ∷ calling ∷ []))
    × (first_unanswered_tool_use (take 1 (asked ∷ calling ∷ [])) 1 ≡ none)
    × IsOpen (drop 1 (map message (asked ∷ calling ∷ [])))
    × AllAnswered (drop 1 (take 1 (map message (asked ∷ calling ∷ []))))
unfolding first_unanswered_tool_use search_from is_unanswered tool_use_ids answered is_nil subset
    is_assistant block_ids
first_unanswered_tool_use-take_example =
    first_unanswered_tool_use-take (asked ∷ calling ∷ []) 1 1 refl

abbrev full_store : Store ℕ
full_store = record {
  max_conversations = 1;
  conversations =
      ("a", record { id = "a"; user_id = "u"; messages = 1 ∷ 2 ∷ []; updated_at = 3 }) ∷ [];
}

full_store-IsValid : IsValid full_store
unfolding lookup
full_store-IsValid = record {
  positive = omega arith;
  bounded = omega arith;
  distinct = (refl, tt);
  own_keys = (refl, tt);
}

new_store-IsValid_example : IsValid (
    calls {M = ℕ}
      (record { max_conversations = 1; conversations = [] })
      (create "a" "u" 1 0 ∷ create "b" "u" 2 1 ∷ get "b" "u" ∷ []))
unfolding new_store
new_store-IsValid_example =
    new_store-IsValid 1 (record { max_conversations = 1; conversations = [] })
      (create "a" "u" 1 0 ∷ create "b" "u" 2 1 ∷ get "b" "u" ∷ []) refl

get_conversation-create_conversation_example :
    (get_conversation (create_conversation full_store "b" "u" 9 4).0 "b" "v").1
    ≡ (if str_eq "u" "v" then some (create_conversation full_store "b" "u" 9 4).1 else none)
get_conversation-create_conversation_example =
    get_conversation-create_conversation full_store "b" "u" "v" 9 4 full_store-IsValid

abbrev newer : Conversation ℕ
newer = record { id = "b"; user_id = "u"; messages = []; updated_at = 4 }

abbrev older : Conversation ℕ
older = record { id = "a"; user_id = "u"; messages = 1 ∷ 2 ∷ []; updated_at = 3 }

remember_full_example : (remember full_store newer).conversations ≡ ("b", newer) ∷ []
unfolding lookup
remember_full_example =
    remember_full full_store newer ("a", older) [] full_store-IsValid refl refl refl

truncate_messages_lem_example :
    ((truncate_messages full_store "a" "u" 1 9 ≡ err owner_mismatch) ↔ (str_eq "u" "u" ≡ false))
    × ((j : String)
        → lookup j (after full_store (truncate_messages full_store "a" "u" 1 9)).conversations ≡ (
            if str_eq "a" j
            then some (rolled_back "u" 1 9 older)
            else lookup j full_store.conversations))
    × (keys (after full_store (truncate_messages full_store "a" "u" 1 9)).conversations
        ≡ keys full_store.conversations)
unfolding lookup
truncate_messages_lem_example = truncate_messages_lem full_store "a" "u" 1 9 older refl

check-snapshot_example : (check (begin_writing initial) 0 ≡ ok tt) ↔ (◌≡◌ {A = ℕ} 1 0)
unfolding snapshot
check-snapshot_example =
    check-snapshot initial (begin_writing initial) 1 0 refl (more none_yet (begin initial))

abbrev toy_encoder : Encoder
toy_encoder = record {
  Int = ℕ;
  Plain = Bool;
  bit_length = λ n. n;
  text_length = λ t. length t + 2;
  int_length = λ n. some 1;
  plain_length = λ p. some 4;
}

abbrev nested : Json toy_encoder
nested = Json.list (Items.cons (Json.int 5) (Items.cons (Json.str (65 ∷ 66 ∷ [])) Items.nil))

abbrev nested_copy : Json toy_encoder
nested_copy = Json.list (Items.cons (Json.int 5) (Items.cons (Json.str (65 ∷ mark)) Items.nil))

copy_bounded_json-bounds_example :
    (size nested_copy ≤ 40) × (nodes nested_copy ≤ 3) × (height nested_copy ≤ 1)
unfolding copy_bounded_json visit visit_items enter open_container charge visit_int visit_text
    cut_text charge_encoded length_items
copy_bounded_json-bounds_example =
    copy_bounded_json-bounds nested nested_copy 40 3
      (record { max_depth = 1; max_string_chars = some 1 }) true refl

copy_bounded_json-same_example : (nested ≡ nested) × (◌≡◌ {A = Bool} false false)
unfolding copy_bounded_json visit visit_items enter open_container charge visit_int visit_text
    cut_text charge_encoded length_items
copy_bounded_json-same_example =
    copy_bounded_json-same nested 40 3 (record { max_depth = 1; max_string_chars = none }) nested
      false refl refl
