-- ===== src/Conversation/ToolUse/Stops.antt =====
-- What the search for an unanswered tool use finds, in the words of Uses.
use mathlib.Core.Path.{subst}
use sqllens.Prelude.{
  ℕ, zero, suc, ◌+◌, ◌<◌, String, ◌≡◌, refl, sym, ◌∙◌, inl, inr, true, Option, none, some, List, [],
  ◌∷◌, arith, Bool-cases, ◌≤◌, length, take, drop, drop-drop, drop-take, length-drop_lt,
  some-injective, not, &&-eq-true,
}
use sqllens.Prelude.Members.{In, head, tail, In-cons}
use sqllens.Prelude.Result.{ok, err, Result-cases, ok-injective, >>=-eq-ok}
use sqllens.Conversation.ToolUse.{
  Message, Role, user, assistant, tool, system, tool_use_ids, subset, is_tool, is_assistant, is_nil,
}
use sqllens.Conversation.ToolUse.Scan.{
  Stored, message, no_message, unhashable, ScanError, scan, scan_answered, scan_from, uses_tools,
}
use sqllens.Conversation.ToolUse.Uses.{
  Uses, Answers, AllAnswered, IsOpen, HasUnscannable, In-has_id, subset-In, not-subset,
  tool_use_ids-Uses, Uses-tool_use_ids,
}

is_tool-eq : (r : Role) → is_tool r ≡ true → r ≡ tool
unfolding is_tool
is_tool-eq tool h = refl
is_tool-eq user h = cc
is_tool-eq assistant h = cc
is_tool-eq system h = cc

is_assistant-eq : (r : Role) → is_assistant r ≡ true → r ≡ assistant
unfolding is_assistant
is_assistant-eq assistant h = refl
is_assistant-eq user h = cc
is_assistant-eq tool h = cc
is_assistant-eq system h = cc

-- The ids that the search reads off the run in front are those that it answers.
scan_answered-In :
    (ms : List Stored) {ids : List (Option String)} {i : Option String}
    → scan_answered ms ≡ ok ids
    → In i ids
    → Answers ms i
unfolding scan_answered is_tool
scan_answered-In [] h m = elim (subst (In _) (sym (ok-injective h)) m) [ ]
scan_answered-In (no_message ∷ ms) h m = cc
scan_answered-In (unhashable ∷ ms) h m = elim (subst (In _) (sym (ok-injective h)) m) [ ]
scan_answered-In (message x ∷ ms) {ids} {i} h m = elim (Bool-cases (is_tool x.role)) [
  | inr e ↦ elim (subst (In _) (sym (ok-injective (rw e at h))) m) [ ]
  | inl e ↦
      let (rest, r, last) = >>=-eq-ok (scan_answered ms) _ (rw e at h) in
      (
        is_tool-eq x.role e,
        elim (In-cons (subst (In i) (sym (ok-injective last)) m)) [
          | inl same ↦ inl same
          | inr n ↦ inr (scan_answered-In ms r n)
        ],
      )
]

scan_answered-Answers :
    (ms : List Stored) {ids : List (Option String)} {i : Option String}
    → scan_answered ms ≡ ok ids
    → Answers ms i
    → In i ids
unfolding scan_answered is_tool
scan_answered-Answers [] h a = elim a [ ]
scan_answered-Answers (no_message ∷ ms) h a = elim a [ ]
scan_answered-Answers (unhashable ∷ ms) h a = elim a [ ]
scan_answered-Answers (message x ∷ ms) {ids} {i} h (t, inl same) =
    let (rest, r, last) = >>=-eq-ok (scan_answered ms) _ (rw t at h) in
    subst (In i) (ok-injective last) (subst (λ j. In i (j ∷ rest)) (sym same) head)
scan_answered-Answers (message x ∷ ms) {ids} {i} h (t, inr later) =
    let (rest, r, last) = >>=-eq-ok (scan_answered ms) _ (rw t at h) in
    subst (In i) (ok-injective last) (tail (scan_answered-Answers ms r later))

scan_answered-HasUnscannable :
    (ms : List Stored) {e : ScanError} → scan_answered ms ≡ err e → HasUnscannable ms
unfolding scan_answered
scan_answered-HasUnscannable [] h = cc
scan_answered-HasUnscannable (no_message ∷ ms) h = tt
scan_answered-HasUnscannable (unhashable ∷ ms) h = tt
scan_answered-HasUnscannable (message x ∷ ms) h = elim (Result-cases (scan_answered ms)) [
  | inr (e, r) ↦ scan_answered-HasUnscannable ms r
  | inl (ids, r) ↦ absurd (ground arith)
]

-- What the search does at a message: it passes over one whose uses are all answered, it stops at
-- one with an open use, and it raises only if what follows cannot be read.
data Verdict (m : Message) (ms : List Stored) (k : ℕ) : Type 0 where
  passes :
      scan_from (message m ∷ ms) k ≡ scan_from ms (k + 1)
      → ((i : Option String) → Uses m i → Answers ms i)
      → Verdict m ms k
  stops : scan_from (message m ∷ ms) k ≡ ok (some k) → IsOpen (message m ∷ ms) → Verdict m ms k
  raises :
      {e : ScanError} → scan_from (message m ∷ ms) k ≡ err e → HasUnscannable ms → Verdict m ms k

uses_tools-Uses : (m : Message) {i : Option String} → Uses m i → uses_tools m ≡ true
unfolding uses_tools is_assistant is_nil
uses_tools-Uses m u = rw u.0 (not_nil (tool_use_ids m) (Uses-tool_use_ids m u))
  where
    not_nil : {i : Option String} (is : List (Option String)) → In i is → not (is_nil is) ≡ true
    not_nil [] n = elim n [ ]
    not_nil (j ∷ js) n = refl

verdict : (m : Message) (ms : List Stored) (k : ℕ) → Verdict m ms k
unfolding scan_from
verdict m ms k = elim (Bool-cases (uses_tools m)) [
  | inr e ↦ passes (rw e refl) (λ i u. absurd (cc (sym e ∙ uses_tools-Uses m u)))
  | inl e ↦ elim (Result-cases (scan_answered ms)) [
    | inr (why, r) ↦ raises {e = why} (rw e (rw r refl)) (scan_answered-HasUnscannable ms r)
    | inl (ids, r) ↦ elim (Bool-cases (subset (tool_use_ids m) ids)) [
      | inl s ↦
          passes (rw e (rw r (rw s refl)))
            (λ i u. scan_answered-In ms r (subset-In _ ids s (Uses-tool_use_ids m u)))
      | inr s ↦
          let (i, n, missing) = not-subset (tool_use_ids m) ids s in
          stops (rw e (rw r (rw s refl))) (
            i,
            tool_use_ids-Uses m (assistant_of m e) n,
            λ a. cc (sym missing ∙ In-has_id (scan_answered-Answers ms r a)),
          )
    ]
  ]
]
  where
    assistant_of : (m : Message) → uses_tools m ≡ true → m.role ≡ assistant
    assistant_of m e = unfold uses_tools in is_assistant-eq m.role ((&&-eq-true _ _ e).0)

pub scan_from-HasUnscannable :
    (ms : List Stored) (k : ℕ) {e : ScanError} → scan_from ms k ≡ err e → HasUnscannable ms
unfolding scan_from
scan_from-HasUnscannable [] k h = cc
scan_from-HasUnscannable (no_message ∷ ms) k h = tt
scan_from-HasUnscannable (unhashable ∷ ms) k h = tt
scan_from-HasUnscannable (message m ∷ ms) k h = elim (verdict m ms k) [
  | passes s all ↦ scan_from-HasUnscannable ms (k + 1) (sym s ∙ h)
  | stops s o ↦ let no = sym s ∙ h in cc
  | raises r u ↦ u
]

-- The search raises or stops early only where it has a reason to: else all is answered.
pub scan_from-AllAnswered : (ms : List Stored) (k : ℕ) → scan_from ms k ≡ ok none → AllAnswered ms
unfolding scan_from
scan_from-AllAnswered [] k h = tt
scan_from-AllAnswered (no_message ∷ ms) k h = cc
scan_from-AllAnswered (unhashable ∷ ms) k h = cc
scan_from-AllAnswered (message m ∷ ms) k h = elim (verdict m ms k) [
  | passes s all ↦ (all, scan_from-AllAnswered ms (k + 1) (sym s ∙ h))
  | stops s o ↦ let no = sym s ∙ h in cc
  | raises r u ↦ let no = sym r ∙ h in cc
]

-- Where the search stops: all in front of the place is answered, also within the part in front,
-- and the message at the place has an open use.
record StopsAt (ms : List Stored) (index cut : ℕ) : Type 0 where
  place : ℕ
  at : cut ≡ index + place
  inside : place < length ms
  clear : AllAnswered (take place ms)
  open_use : IsOpen (drop place ms)

-- An open use at the place is of an assistant message, which ends the run of answers.
Answers-take :
    (ms : List Stored) (place : ℕ) (i : Option String)
    → IsOpen (drop place ms)
    → Answers ms i
    → Answers (take place ms) i
Answers-take [] place i o a = elim a [ ]
Answers-take (no_message ∷ ms) place i o a = elim a [ ]
Answers-take (unhashable ∷ ms) place i o a = elim a [ ]
Answers-take (message m ∷ ms) zero i (j, u, missing) a = let clash = sym u.0 ∙ a.0 in cc
Answers-take (message m ∷ ms) (suc place) i o (t, inl e) = (t, inl e)
Answers-take (message m ∷ ms) (suc place) i o (t, inr a) = (t, inr (Answers-take ms place i o a))

scan_from-StopsAt :
    (ms : List Stored) (k : ℕ) {cut : ℕ} → scan_from ms k ≡ ok (some cut) → StopsAt ms k cut
unfolding scan_from
scan_from-StopsAt [] k h = cc
scan_from-StopsAt (no_message ∷ ms) k h = cc
scan_from-StopsAt (unhashable ∷ ms) k h = cc
scan_from-StopsAt (message m ∷ ms) k {cut} h = elim (verdict m ms k) [
  | raises r u ↦ let no = sym r ∙ h in cc
  | stops s o ↦
      let here : k ≡ cut = some-injective (ok-injective (sym s ∙ h)) in
      record { place = 0; at = omega arith; inside = omega arith; clear = tt; open_use = o }
  | passes s all ↦
      let later = scan_from-StopsAt ms (k + 1) (sym s ∙ h) in
      record {
        place = suc later.place;
        at = omega (arith, later.at);
        inside = omega (arith, later.inside);
        clear = (λ i u. Answers-take ms later.place i later.open_use (all i u), later.clear);
        open_use = later.open_use;
      }
]

-- An index that the search returns lies in range, from the start on; the message there has an open
-- use, and before it, from the start on, all is answered.
pub scan-IsOpen :
    (ms : List Stored) (start cut : ℕ)
    → scan ms start ≡ ok (some cut)
    → (start ≤ cut)
      × (cut < length ms)
      × IsOpen (drop cut ms)
      × AllAnswered (drop start (take cut ms))
unfolding scan
scan-IsOpen ms start cut h =
    let s = scan_from-StopsAt (drop start ms) start h in
    (
      omega (arith, s.at),
      omega (arith, s.at, length-drop_lt start s.place ms s.inside),
      rw s.at (rw (← drop-drop start s.place ms) s.open_use),
      rw s.at (rw (drop-take start s.place ms) s.clear),
    )
