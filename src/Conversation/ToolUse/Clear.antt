-- ===== src/Conversation/ToolUse/Clear.antt =====
-- Histories in which the search for an unanswered tool use finds nothing, and how they grow.
use sqllens.Conversation.ToolUse.{
  Message, search_from, is_unanswered, answered, tool_use_ids, subset, has_id, same_id,
}
use sqllens.Prelude.{
  ℕ, ◌+◌, String, ◌≡◌, refl, true, false, Option, none, some, List, [], ◌∷◌, ◌++◌, arith, eq_iff,
}

pub data Clear : List Message → Type 0 where
  nothing : Clear []
  before :
      {m : Message} {ms : List Message} → is_unanswered m ms ≡ false → Clear ms → Clear (m ∷ ms)

pub Clear-search_from : {ms : List Message} → Clear ms → (k : ℕ) → search_from ms k ≡ none
unfolding search_from
Clear-search_from nothing k = refl
Clear-search_from (before u c) k = rw u (Clear-search_from c (k + 1))

has_id-append :
    (xs ys : List Message) (i : Option String)
    → has_id (answered xs) i ≡ true
    → has_id (answered (xs ++ ys)) i ≡ true
unfolding has_id answered
has_id-append [] ys i h = cc
has_id-append (x ∷ xs) ys i h = ground (arith, has_id-append xs ys i)

subset-append :
    (is : List (Option String)) (xs ys : List Message)
    → subset is (answered xs) ≡ true
    → subset is (answered (xs ++ ys)) ≡ true
unfolding subset
subset-append [] xs ys h = refl
subset-append (i ∷ is) xs ys h = ground (arith, has_id-append xs ys i, subset-append is xs ys)

is_unanswered-append :
    (m : Message) (xs ys : List Message)
    → is_unanswered m xs ≡ false
    → is_unanswered m (xs ++ ys) ≡ false
unfolding is_unanswered
is_unanswered-append m xs ys h = ground (arith, subset-append (tool_use_ids m) xs ys)

pub Clear-append : {xs ys : List Message} → Clear xs → Clear ys → Clear (xs ++ ys)
Clear-append nothing d = d
Clear-append (before {m} {ms} u c) d = before (is_unanswered-append m ms _ u) (Clear-append c d)

same_id_refl : (i : Option String) → same_id i i ≡ true
unfolding same_id
same_id_refl none = refl
same_id_refl (some s) = (eq_iff s s).1 refl

subset-tail :
    (is : List (Option String)) (j : Option String) (js : List (Option String))
    → subset is js ≡ true
    → subset is (j ∷ js) ≡ true
unfolding subset has_id
subset-tail [] j js h = refl
subset-tail (i ∷ is) j js h = ground (arith, subset-tail is j js)

pub subset_refl : (is : List (Option String)) → subset is is ≡ true
unfolding subset has_id
subset_refl [] = refl
subset_refl (i ∷ is) = ground (arith, same_id_refl i, subset-tail is i is (subset_refl is))

pub subset-join :
    (is js ks : List (Option String))
    → subset is ks ≡ true
    → subset js ks ≡ true
    → subset (is ++ js) ks ≡ true
unfolding subset
subset-join [] js ks a b = b
subset-join (i ∷ is) js ks a b = ground (arith, subset-join is js ks)
