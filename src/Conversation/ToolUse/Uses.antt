-- ===== src/Conversation/ToolUse/Uses.antt =====
-- What it is to use a tool and to be answered, apart from the search of src/sqllens/tools/query_database.py.
use mathlib.Core.Path.{subst}
use sqllens.Prelude.{
  String, ◌≡◌, refl, sym, ap, ◌⊎◌, inl, inr, true, false, Option, none, some, List, [], ◌∷◌, ◌++◌,
  map, arith, eq_iff, Bool-cases, &&-eq-true, str_eq,
}
use sqllens.Prelude.Members.{In, head, tail, In-append, In-append_left, In-append_right}
use sqllens.Conversation.ToolUse.{
  Message, Block, dict_block, other_block, assistant, tool, tool_use_ids, block_ids, is_tool_use,
  subset, has_id, same_id,
}
use sqllens.Conversation.ToolUse.Scan.{Stored, message, no_message, unhashable}

-- An assistant message uses the tool call with this id, in its list of tool calls or in a
-- "tool_use" block of the provider's content.
abbrev pub Uses : Message → Option String → Type 0
Uses m i =
    (m.role ≡ assistant)
    × (((t : String) × In t m.tool_calls × (i ≡ some t))
        ⊎ In (dict_block (some "tool_use") i) m.provider_content)

-- A tool message with this id stands in the run of tool messages in front.
abbrev pub Answers : List Stored → Option String → Type 0
Answers [] i = ⊥
Answers (no_message ∷ ms) i = ⊥
Answers (unhashable ∷ ms) i = ⊥
Answers (message m ∷ ms) i = (m.role ≡ tool) × ((m.tool_call_id ≡ i) ⊎ Answers ms i)

-- All are messages, and each id that one uses is answered behind it.
abbrev pub AllAnswered : List Stored → Type 0
AllAnswered [] = Unit
AllAnswered (no_message ∷ ms) = ⊥
AllAnswered (unhashable ∷ ms) = ⊥
AllAnswered (message m ∷ ms) = ((i : Option String) → Uses m i → Answers ms i) × AllAnswered ms

-- The first is a message that uses an id which is not answered behind it.
abbrev pub IsOpen : List Stored → Type 0
IsOpen [] = ⊥
IsOpen (no_message ∷ ms) = ⊥
IsOpen (unhashable ∷ ms) = ⊥
IsOpen (message m ∷ ms) = (i : Option String) × Uses m i × ¬ (Answers ms i)

-- Some entry cannot be read.
abbrev pub HasUnscannable : List Stored → Type 0
HasUnscannable [] = ⊥
HasUnscannable (no_message ∷ ms) = Unit
HasUnscannable (unhashable ∷ ms) = Unit
HasUnscannable (message m ∷ ms) = HasUnscannable ms

same_id-eq : (i j : Option String) → same_id i j ≡ true → i ≡ j
unfolding same_id
same_id-eq none none h = refl
same_id-eq none (some t) h = cc
same_id-eq (some s) none h = cc
same_id-eq (some s) (some t) h = ap some ((eq_iff s t).0 h)

same_id_self : (i : Option String) → same_id i i ≡ true
unfolding same_id
same_id_self none = refl
same_id_self (some s) = (eq_iff s s).1 refl

has_id-In : (js : List (Option String)) (i : Option String) → has_id js i ≡ true → In i js
unfolding has_id
has_id-In [] i h = cc
has_id-In (j ∷ js) i h = elim (Bool-cases (same_id j i)) [
  | inl e ↦ subst (λ k. In i (k ∷ js)) (sym (same_id-eq j i e)) head
  | inr e ↦ tail (has_id-In js i (rw e at h))
]

pub In-has_id : {i : Option String} {js : List (Option String)} → In i js → has_id js i ≡ true
unfolding has_id
In-has_id {i} head = rw (same_id_self i) refl
In-has_id (tail {x} {xs} m) = let e = In-has_id m in ground arith

pub subset-In :
    (is js : List (Option String)) {i : Option String} → subset is js ≡ true → In i is → In i js
unfolding subset
subset-In [] js h m = elim m [ ]
subset-In (k ∷ is) js h head = has_id-In js k ((&&-eq-true _ _ h).0)
subset-In (k ∷ is) js h (tail m) = subset-In is js ((&&-eq-true (has_id js k) _ h).1) m

pub not-subset :
    (is js : List (Option String))
    → subset is js ≡ false
    → (i : Option String) × In i is × (has_id js i ≡ false)
unfolding subset
not-subset [] js h = cc
not-subset (k ∷ is) js h = elim (Bool-cases (has_id js k)) [
  | inr e ↦ (k, head, e)
  | inl e ↦ let (i, m, n) = not-subset is js (rw e at h) in (i, tail m, n)
]

In-block_ids :
    (bs : List Block) {i : Option String}
    → In (dict_block (some "tool_use") i) bs
    → In i (block_ids bs)
unfolding block_ids is_tool_use
In-block_ids [] m = elim m [ ]
In-block_ids (dict_block t j ∷ bs) head = head
In-block_ids (dict_block t j ∷ bs) (tail m) = elim (Bool-cases (is_tool_use t)) [
  | inl e ↦ rw e (tail (In-block_ids bs m))
  | inr e ↦ rw e (In-block_ids bs m)
]
In-block_ids (other_block ∷ bs) (tail m) = In-block_ids bs m

block_of_id :
    {i j : Option String} {t : String} (bs : List Block)
    → t ≡ "tool_use"
    → (In i (block_ids bs) → In (dict_block (some "tool_use") i) bs)
    → In i (j ∷ block_ids bs)
    → In (dict_block (some "tool_use") i) (dict_block (some t) j ∷ bs)
block_of_id {i} bs e later head =
    subst (λ x. In (dict_block (some "tool_use") i) (dict_block (some x) i ∷ bs)) (sym e) head
block_of_id bs e later (tail n) = tail (later n)

block_ids-In :
    (bs : List Block) {i : Option String}
    → In i (block_ids bs)
    → In (dict_block (some "tool_use") i) bs
unfolding block_ids is_tool_use
block_ids-In [] m = elim m [ ]
block_ids-In (dict_block none j ∷ bs) m = tail (block_ids-In bs m)
block_ids-In (dict_block (some t) j ∷ bs) {i} m = elim (Bool-cases (str_eq t "tool_use")) [
  | inl e ↦ block_of_id bs ((eq_iff t "tool_use").0 e) (λ n. block_ids-In bs n) (rw e at m)
  | inr e ↦ tail (block_ids-In bs (rw e at m))
]
block_ids-In (other_block ∷ bs) m = tail (block_ids-In bs m)

In-map_some : {t : String} {ts : List String} → In t ts → In (some t) (map some ts)
In-map_some head = head
In-map_some (tail m) = tail (In-map_some m)

some_of_In :
    (ts : List String) {i : Option String}
    → In i (map some ts)
    → (t : String) × In t ts × (i ≡ some t)
some_of_In [] m = elim m [ ]
some_of_In (t ∷ ts) head = (t, head, refl)
some_of_In (t ∷ ts) (tail m) = let (u, n, e) = some_of_In ts m in (u, tail n, e)

pub tool_use_ids-Uses :
    (m : Message) {i : Option String} → m.role ≡ assistant → In i (tool_use_ids m) → Uses m i
unfolding tool_use_ids
tool_use_ids-Uses m a n = elim (In-append (map some m.tool_calls) n) [
  | inl l ↦ (a, inl (some_of_In m.tool_calls l))
  | inr r ↦ (a, inr (block_ids-In m.provider_content r))
]

pub Uses-tool_use_ids : (m : Message) {i : Option String} → Uses m i → In i (tool_use_ids m)
unfolding tool_use_ids
Uses-tool_use_ids m (a, inl (t, n, e)) =
    subst (λ j. In j (map some m.tool_calls ++ block_ids m.provider_content)) (sym e)
      (In-append_left _ (In-map_some n))
Uses-tool_use_ids m (a, inr n) =
    In-append_right (map some m.tool_calls) (In-block_ids m.provider_content n)
