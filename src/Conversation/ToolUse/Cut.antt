-- ===== src/Conversation/ToolUse/Cut.antt =====
-- Cutting a history before its first unanswered tool use leaves none.
use sqllens.Prelude.{
  ℕ, suc, ◌+◌, ◌≤◌, ◌<◌, ◌≡◌, refl, ap, ◌∙◌, map, inl, inr, true, false, none, some, List, [], ◌∷◌,
  arith, length, take, drop, Bool-cases, drop-take, length-drop_lt,
}
use sqllens.Prelude.Result.{ok}
use sqllens.Conversation.ToolUse.Scan.{message, scan-message}
use sqllens.Conversation.ToolUse.Uses.{IsOpen, AllAnswered}
use sqllens.Conversation.ToolUse.Stops.{scan-IsOpen}
use sqllens.Conversation.ToolUse.{
  Message, first_unanswered_tool_use, is_unanswered, search_from, answered, is_tool, is_assistant,
}

-- Where the search stops, at place `k`: the prefix has nothing to stop at, and answers what the whole does.
record Stops (ms : List Message) (index cut : ℕ) : Type 0 where
  place : ℕ
  at : cut ≡ index + place
  inside : place < length ms
  clear : search_from (take place ms) index ≡ none
  same_answers : answered (take place ms) ≡ answered ms

is_unanswered-role :
    (m : Message) (ms : List Message) → is_unanswered m ms ≡ true → is_tool m.role ≡ false
unfolding is_unanswered is_tool is_assistant
is_unanswered-role m ms h = ground arith

is_unanswered-cong :
    (m : Message) (a b : List Message)
    → answered a ≡ answered b
    → is_unanswered m b ≡ false
    → is_unanswered m a ≡ false
unfolding is_unanswered
is_unanswered-cong m a b e h = rw e h

search_from-Stops :
    (ms : List Message) (index : ℕ) {cut : ℕ} → search_from ms index ≡ some cut → Stops ms index cut
unfolding search_from answered
search_from-Stops [] index h = cc
search_from-Stops (m ∷ ms) index {cut} h = elim (Bool-cases (is_unanswered m ms)) [
  | inl e ↦
      let here : index ≡ cut = ground arith in
      record {
        place = 0;
        at = omega arith;
        inside = omega arith;
        clear = refl;
        same_answers = rw (is_unanswered-role m ms e);
      }
  | inr e ↦
      let later = search_from-Stops ms (index + 1) (rw e at h) in
      let passed : is_unanswered m (take later.place ms) ≡ false =
        is_unanswered-cong m _ ms later.same_answers e in
      record {
        place = suc later.place;
        at = omega (arith, later.at);
        inside = omega (arith, later.inside);
        clear = rw passed later.clear;
        same_answers = rw later.same_answers;
      }
]

first_unanswered_tool_use-none :
    (ms : List Message) (start cut : ℕ)
    → first_unanswered_tool_use ms start ≡ some cut
    → (start ≤ cut) × (cut < length ms) × (first_unanswered_tool_use (take cut ms) start ≡ none)
unfolding first_unanswered_tool_use
first_unanswered_tool_use-none ms start cut h =
    let s = search_from-Stops (drop start ms) start h in
    (
      omega (arith, s.at),
      omega (arith, s.at, length-drop_lt start s.place ms s.inside),
      rw s.at (rw drop-take s.clear),
    )

-- The index found lies in the history and not before `start`; cutting the history there leaves the
-- search nothing to find from `start` on; the message there uses a tool, in its tool calls or its
-- provider blocks, that the tool messages behind it do not answer; and in the history cut there all
-- that is used from `start` on is answered.
pub first_unanswered_tool_use-take :
    (ms : List Message) (start cut : ℕ)
    → first_unanswered_tool_use ms start ≡ some cut
    → (start ≤ cut)
      × (cut < length ms)
      × (first_unanswered_tool_use (take cut ms) start ≡ none)
      × IsOpen (drop cut (map message ms))
      × AllAnswered (drop start (take cut (map message ms)))
first_unanswered_tool_use-take ms start cut h =
    let (from, inside, clear) = first_unanswered_tool_use-none ms start cut h in
    let (_, _, open_use, answered_before) =
      scan-IsOpen (map message ms) start cut (scan-message ms start ∙ ap ok h) in
    (from, inside, clear, open_use, answered_before)
