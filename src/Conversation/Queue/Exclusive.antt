-- ===== src/Conversation/Queue/Exclusive.antt =====
-- At most one call of a conversation holds its turn.
use sqllens.Prelude.Dict.{lookup}
use sqllens.Prelude.Members.{In}
use sqllens.Conversation.Queue.{
  Call, Queue, Step, Reachable, joined, then_step, acquired, start, cancelled, finished,
}
use sqllens.Conversation.Queue.Counts.{count, one, count_le, count_none}
use sqllens.Prelude.{
  ℕ, ◌≤◌, String, ◌≡◌, refl, inl, inr, Bool, true, false, ◌&&◌, none, some, arith, str_eq, eq_iff,
  ==_iff, &&-eq-true, Option-cases,
}
use sqllens.Conversation.Queue.Kept.{IsKept, holds, cancel-IsKept, finish-IsKept, acquire-IsKept}
use sqllens.Conversation.Queue.Join.{join-IsKept}

Step-IsKept : {q q' : Queue} → Step q q' → IsKept q → IsKept q'
Step-IsKept {q} (joined id) k = join-IsKept q id k
Step-IsKept {q} (acquired before c behind e w u) k = acquire-IsKept q before c behind k e w u
Step-IsKept {q} (cancelled before c behind e w) k = cancel-IsKept q before c behind k e w
Step-IsKept {q} (finished before c behind e w) k = finish-IsKept q before c behind k e w

pub Reachable-IsKept : {q : Queue} → Reachable q → IsKept q
unfolding lookup count
Reachable-IsKept start = record {
  homes = λ c m. elim m [ ];
  counted = λ e. refl;
  held = λ e. refl;
  fresh = λ e l. (refl, refl);
  bound = λ id e h. cc;
}
Reachable-IsKept (then_step r s) = Step-IsKept s (Reachable-IsKept r)

-- Of the calls that share a conversation at most one holds its turn, whatever the order in which
-- calls come, get the lock, are cancelled and end; and every such call stands in the registry.
pub one_turn_at_a_time :
    (q : Queue) (id : String)
    → Reachable q
    → (count (λ c. c.holding && str_eq c.id id) q.calls ≤ 1)
      × (lookup id q.registry ≡ none → count (λ c. str_eq c.id id) q.calls ≡ 0)
one_turn_at_a_time q id r =
    let k = Reachable-IsKept r in
    (
      elim (Option-cases (lookup id q.registry)) [
        | inl n ↦
            let less =
              count_le (λ c. c.holding && str_eq c.id id) (λ c. false) q.calls
                (λ c m h. absurd (away k c m n (&&-eq-true _ _ h).1)) in
            omega (arith, count_none q.calls)
        | inr (e, n) ↦
            let less =
              count_le (λ c. c.holding && str_eq c.id id) (holds e) q.calls
                (λ c m h. at_home k c m e n h) in
            let taken = k.held e in let small = one_le (q.locked e) in omega arith
      ],
      λ n.
          let less =
            count_le (λ c. str_eq c.id id) (λ c. false) q.calls
              (λ c m h. absurd (away k c m n h)) in
          omega (arith, count_none q.calls),
    )
  where
    one_le : (b : Bool) → one b ≤ 1
    one_le true = omega arith
    one_le false = omega arith

    away :
        IsKept q
        → (c : Call) → In c q.calls
        → lookup id q.registry ≡ none
        → str_eq c.id id ≡ true
        → ⊥
    away k c m n s =
        let h : lookup id q.registry ≡ some c.entry = rw (← (eq_iff c.id id).0 s) (k.homes c m) in
        cc

    at_home :
        IsKept q
        → (c : Call) → In c q.calls
        → (e : ℕ) → lookup id q.registry ≡ some e
        → (c.holding && str_eq c.id id) ≡ true
        → holds e c ≡ true
    at_home k c m e n h =
        let (w, s) = &&-eq-true c.holding (str_eq c.id id) h in
        let found : lookup id q.registry ≡ some c.entry =
          rw (← (eq_iff c.id id).0 s) (k.homes c m) in
        let same : c.entry ≡ e = cc (found, n) in rw w ((==_iff c.entry e).1 same)
