-- ===== src/Conversation/Turn.antt =====
-- `_conversation_baseline`, `_trim_unanswered_tool_use` and `_rollback_conversation` of
-- src/sqllens/tools/query_database.py, over whatever conversation store the agent was built with.
pub mod Shipped
pub mod Bounded
use mathlib.Core.Option
use sqllens.Prelude.{ℕ, ◌-◌, String, Bool, true, false, Option, none, some, List, map, length}
use sqllens.Prelude.Result.{Result, ok, err}
use sqllens.Conversation.ToolUse.Scan.{Stored, ScanError, scan}
use sqllens.Conversation.Store.{Conversation}

-- What a store's `truncate_messages` raises.
pub data TruncateError : Type 0 where
  owner_mismatch other_exception : TruncateError

-- The agent's store, with its own state `W`: `get_conversation`, and `truncate_messages` if its class
-- has that method. `none` for the first result of `get` is an exception.
pub record StoreApi (W : Type 0) : Type 0 where
  pub get : W → String → String → W × Option (Option (Conversation Stored))
  pub truncate : Option (W → String → String → ℕ → W × Result TruncateError Bool)

-- How a cleanup ended: the log line that it writes, if any.
pub data Outcome : Type 0 where
  read_failed no_conversation scan_failed nothing_unanswered : Outcome
  no_truncate_method not_owner truncate_raised removed_nothing : Outcome
  removed : ℕ → Outcome

conversation_length : Option (Conversation Stored) → ℕ
conversation_length none = 0
conversation_length (some c) = length c.messages

module _ {W : Type 0} (api : StoreApi W) where
  open api use {get, truncate}

  -- `_conversation_baseline` behind the resolution of the user; none is an exception
  pub conversation_baseline : W → String → String → W × Option ℕ
  unfolding conversation_length
  conversation_baseline w id user =
      let (w', found) = get w id user in (w', Option.map conversation_length found)

  pub cut_result : W × Result TruncateError Bool → ℕ → W × Outcome
  cut_result (w, ok true) n = (w, removed n)
  cut_result (w, ok false) n = (w, removed_nothing)
  cut_result (w, err owner_mismatch) n = (w, not_owner)
  cut_result (w, err other_exception) n = (w, truncate_raised)

  cut_with :
      Option (W → String → String → ℕ → W × Result TruncateError Bool)
      → W
      → String
      → String
      → ℕ
      → ℕ
      → W × Outcome
  unfolding cut_result
  cut_with none w id user cut n = (w, no_truncate_method)
  cut_with (some f) w id user cut n = cut_result (f w id user cut) n

  trim_at : W → String → String → List Stored → Result ScanError (Option ℕ) → W × Outcome
  unfolding cut_with
  trim_at w id user messages (err e) = (w, scan_failed)
  trim_at w id user messages (ok none) = (w, nothing_unanswered)
  trim_at w id user messages (ok (some cut)) =
      cut_with truncate w id user cut (length messages - cut)

  trim_found : W → String → String → ℕ → Option (Option (Conversation Stored)) → W × Outcome
  unfolding trim_at
  trim_found w id user start none = (w, read_failed)
  trim_found w id user start (some none) = (w, no_conversation)
  trim_found w id user start (some (some c)) = trim_at w id user c.messages (scan c.messages start)

  -- `_trim_unanswered_tool_use`
  pub trim_unanswered_tool_use : W → String → String → ℕ → W × Outcome
  unfolding trim_found
  trim_unanswered_tool_use w id user start =
      let (w', found) = get w id user in trim_found w' id user start found

  roll_back_with :
      Option (W → String → String → ℕ → W × Result TruncateError Bool)
      → W
      → String
      → String
      → ℕ
      → W × Outcome
  unfolding cut_result
  roll_back_with none w id user length = (w, no_truncate_method)
  roll_back_with (some f) w id user length = cut_result (f w id user length) length

  -- `_rollback_conversation`; the number in `removed` is the length rolled back to
  pub rollback_conversation : W → String → String → ℕ → W × Outcome
  unfolding roll_back_with
  rollback_conversation w id user length = roll_back_with truncate w id user length
