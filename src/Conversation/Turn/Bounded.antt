-- ===== src/Conversation/Turn/Bounded.antt =====
-- The turn's cleanups over the store that the program ships.
use sqllens.Prelude.{
  ℕ, ◌-◌, ◌≤◌, ◌<◌, String, ◌≡◌, refl, ap, ◌∙◌, inl, inr, true, false, none, some, List, [], ◌∷◌,
  ◌++◌, arith, str_eq, length, take, drop, take-take,
}
use sqllens.Prelude.Result.{ok, err, Result-cases}
use sqllens.Prelude.Dict.{lookup}
use sqllens.Conversation.ToolUse.Scan.{Stored, ScanError, scan}
use sqllens.Conversation.ToolUse.Uses.{AllAnswered, IsOpen, HasUnscannable}
use sqllens.Conversation.ToolUse.Stops.{
  scan_from-HasUnscannable, scan_from-AllAnswered, scan-IsOpen,
}
use sqllens.Conversation.Store.{Conversation, Store, get_conversation, put_last}
use sqllens.Conversation.Turn.{
  Outcome, scan_failed, nothing_unanswered, removed, rollback_conversation,
  trim_unanswered_tool_use,
}
use sqllens.Conversation.Turn.Shipped.{
  bounded_api, bounded_get, cut_lem, cut_result-removed, lookup-put_last, str_eq_refl,
}

take-append {ℓ} : {A : Type ℓ} (xs ys : List A) → take (length xs) (xs ++ ys) ≡ xs
take-append [] ys = refl
take-append (x ∷ xs) ys = ap (◌∷◌ x) (take-append xs ys)

-- Rolling a conversation back to the length that it had when the turn began restores its messages,
-- whatever the turn appended, and touches no other conversation.
pub rollback_conversation-restores :
    (s : Store Stored) (id user : String) (now : ℕ) (c : Conversation Stored)
    (old new : List Stored)
    → lookup id s.conversations ≡ some c
    → str_eq c.user_id user ≡ true
    → c.messages ≡ old ++ new
    → (c' : Conversation Stored) × (lookup id
          (rollback_conversation (bounded_api now) s id user (length old)).0.conversations
        ≡ some c')
      × (c'.messages ≡ old)
      × ((j : String)
          → str_eq id j ≡ false
          → lookup j
              (rollback_conversation (bounded_api now) s id user (length old)).0.conversations
            ≡ lookup j s.conversations)
unfolding rollback_conversation bounded_api
rollback_conversation-restores s id user now c old new h t e =
    let (c', found, cut, others) = cut_lem s id user (length old) now (length old) c h t in
    (c', found, cut ∙ ap (take (length old)) e ∙ take-append old new, others)

-- The ways in which a trim from `start` on ends, with what it logs: some entry there cannot be read
-- and the messages stay; or all tool uses there are answered and the messages stay; or they are cut
-- at a message with an open use, and all that is left there is answered.
pub data Trimmed (start : ℕ) (old new : List Stored) : Outcome → Type 0 where
  kept_unscannable : HasUnscannable (drop start old) → new ≡ old → Trimmed start old new scan_failed
  kept_answered :
      AllAnswered (drop start old) → new ≡ old → Trimmed start old new nothing_unanswered
  was_cut :
      (cut : ℕ)
      → start ≤ cut
      → cut < length old
      → IsOpen (drop cut old)
      → new ≡ take cut old
      → AllAnswered (drop start new)
      → Trimmed start old new (removed (length old - cut))

scan-was_cut :
    (ms new : List Stored) (start cut : ℕ)
    → scan ms start ≡ ok (some cut)
    → new ≡ take cut ms
    → Trimmed start ms new (removed (length ms - cut))
      × (cut < length ms)
      × (take start new ≡ take start ms)
scan-was_cut ms new start cut h same =
    let (from, inside, open_use, clear) = scan-IsOpen ms start cut h in
    (
      was_cut cut from inside open_use same (rw same clear),
      inside,
      ap (take start) same ∙ take-take start cut ms ∙ ap (λ k. take k ms) (omega arith),
    )

-- The trim of a turn that ended, in the store that the program ships, of a conversation that the
-- user owns, ends in one of three ways, and its log line says which: a message from the baseline on
-- cannot be read, and the messages stay; or all tool uses there, of tool calls and of provider
-- blocks, are answered, and the messages stay; or they are cut at a message with an unanswered use,
-- and all that is left from the baseline on is answered. In each, what stood before the baseline is
-- still there and no other conversation changed.
pub trim_unanswered_tool_use-clears :
    (s : Store Stored) (id user : String) (start now : ℕ) (c : Conversation Stored)
    → lookup id s.conversations ≡ some c
    → str_eq c.user_id user ≡ true
    → (c' : Conversation Stored) × (lookup id
          (trim_unanswered_tool_use (bounded_api now) s id user start).0.conversations
        ≡ some c')
      × Trimmed start c.messages c'.messages
          (trim_unanswered_tool_use (bounded_api now) s id user start).1
      × (take start c'.messages ≡ take start c.messages)
      × ((j : String)
          → str_eq id j ≡ false
          → lookup j (trim_unanswered_tool_use (bounded_api now) s id user start).0.conversations
            ≡ lookup j s.conversations)
unfolding trim_unanswered_tool_use bounded_api bounded_get get_conversation
trim_unanswered_tool_use-clears s id user start now c h t = rw h (
    rw t (elim (Result-cases (scan c.messages start)) [
      | inr (e, f) ↦ rw f (c, kept, kept_unscannable (unscannable_lem e f) refl, refl, others)
      | inl (none, f) ↦ rw f (c, kept, kept_answered (answered_lem f) refl, refl, others)
      | inl (some cut, f) ↦
          let (c', found, same, rest) =
            cut_lem moved id user cut now (length c.messages - cut) c kept t in
          let (trimmed, inside, before) = scan-was_cut c.messages c'.messages start cut f same in
          rw f (
            c',
            found,
            rw (cut_result-removed moved id user cut now (length c.messages - cut) c kept t inside)
                trimmed,
            before,
            λ j ne. rest j ne ∙ others j ne,
          )
    ]))
  where
    moved : Store Stored
    moved = record s { conversations = put_last id c s.conversations }

    kept : lookup id moved.conversations ≡ some c
    kept = rw lookup-put_last (rw (str_eq_refl id))

    others :
        (j : String) → str_eq id j ≡ false → lookup j moved.conversations ≡ lookup j s.conversations
    others j ne = rw lookup-put_last (rw ne)

    unscannable_lem :
        (e : ScanError) → scan c.messages start ≡ err e → HasUnscannable (drop start c.messages)
    unscannable_lem e f = unfold scan in scan_from-HasUnscannable (drop start c.messages) start f

    answered_lem : scan c.messages start ≡ ok none → AllAnswered (drop start c.messages)
    answered_lem f = unfold scan in scan_from-AllAnswered (drop start c.messages) start f
