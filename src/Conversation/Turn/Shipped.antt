-- ===== src/Conversation/Turn/Shipped.antt =====
-- The store that the program ships as the agent's store, and a cut of a conversation in it.
use sqllens.Prelude.{
  ℕ, ◌<◌, leb, String, Bool, Option, some, ◌≡◌, refl, ◌∙◌, inl, inr, arith, str_eq, if◌then◌else◌,
  Bool-cases, Option-cases, true, false, length, take, sym, eq_iff, take-eq_self, ltb,
}
use sqllens.Prelude.Result.{Result, ok, err}
use sqllens.Conversation.Turn.{StoreApi, TruncateError, other_exception, cut_result, removed}
use sqllens.Conversation.ToolUse.Scan.{Stored}
use sqllens.Conversation.Store.{
  Conversation, Store, StoreError, get_conversation, truncate_messages, put_last,
}
use sqllens.Prelude.Dict.{Dict, lookup, without, lookup-without}
use sqllens.Conversation.Store.Shape.{lookup-append_none, lookup-append_some}
use sqllens.Conversation.Store.Recency.{rolled_back, truncate_messages_lem}
use sqllens.Conversation.Store.Valid.{after}

-- `BoundedConversationStore` as the agent's store; its clock reads `now` at each call.
from_error : StoreError → TruncateError
from_error StoreError.owner_mismatch = TruncateError.owner_mismatch
from_error StoreError.bad_max = other_exception

from_truncate :
    Store Stored
    → Result StoreError (Store Stored × Bool)
    → Store Stored × Result TruncateError Bool
from_truncate s (ok (s', b)) = (s', ok b)
from_truncate s (err e) = (s, err (from_error e))

unfoldable pub bounded_get :
    Store Stored → String → String → Store Stored × Option (Option (Conversation Stored))
bounded_get s id user = let (s', c) = get_conversation s id user in (s', some c)

unfoldable pub bounded_truncate :
    ℕ → Store Stored → String → String → ℕ → Store Stored × Result TruncateError Bool
unfolding from_truncate from_error
bounded_truncate now s id user n = from_truncate s (truncate_messages s id user n now)

unfoldable pub bounded_api : ℕ → StoreApi (Store Stored)
unfolding bounded_get bounded_truncate
bounded_api now = record { get = bounded_get; truncate = some (bounded_truncate now) }

pub lookup-put_last :
    (k j : String) (c : Conversation Stored) (d : Dict (Conversation Stored))
    → lookup j (put_last k c d) ≡ (if str_eq k j then some c else lookup j d)
unfolding put_last lookup
lookup-put_last k j c d = elim (Bool-cases (str_eq k j)) [
  | inl e ↦ lookup-append_none j (without k d) _ (rw lookup-without (rw e)) ∙ ground arith
  | inr e ↦ elim (Option-cases (lookup j (without k d))) [
    | inl n ↦ lookup-append_none j (without k d) _ n ∙ ground (arith, kept e)
    | inr (v, n) ↦ lookup-append_some j (without k d) _ n ∙ ground (arith, kept e)
  ]
]
  where
    kept : str_eq k j ≡ false → lookup j (without k d) ≡ lookup j d
    kept e = rw e at (lookup-without k j d)

rolled_back-messages :
    (user : String) (n now : ℕ) (c : Conversation Stored)
    → str_eq c.user_id user ≡ true
    → (rolled_back user n now c).messages ≡ take n c.messages
rolled_back-messages user n now c t = elim (Bool-cases (ltb n (length c.messages))) [
  | inl long ↦ rw t (rw long)
  | inr short ↦ rw t (rw short (sym (take-eq_self n c.messages (ground arith))))
]

pub str_eq_refl : (k : String) → str_eq k k ≡ true
str_eq_refl k = (eq_iff k k).1 refl

after-from_truncate :
    (s : Store Stored) (r : Result StoreError (Store Stored × Bool)) (n : ℕ) (now : ℕ)
    → (cut_result (bounded_api now) (from_truncate s r) n).0 ≡ after s r
unfolding cut_result from_truncate from_error
after-from_truncate s (ok (t, true)) n now = refl
after-from_truncate s (ok (t, false)) n now = refl
after-from_truncate s (err StoreError.owner_mismatch) n now = refl
after-from_truncate s (err StoreError.bad_max) n now = refl

-- A cut of an owned conversation at `n`: what is stored then, and that the others are kept.
pub cut_lem :
    (s : Store Stored) (id user : String) (n now m : ℕ) (c : Conversation Stored)
    → lookup id s.conversations ≡ some c
    → str_eq c.user_id user ≡ true
    → (c' : Conversation Stored) × (lookup id
          (cut_result (bounded_api now) (bounded_truncate now s id user n) m).0.conversations
        ≡ some c')
      × (c'.messages ≡ take n c.messages)
      × ((j : String)
          → str_eq id j ≡ false
          → lookup j
              (cut_result (bounded_api now) (bounded_truncate now s id user n) m).0.conversations
            ≡ lookup j s.conversations)
unfolding bounded_truncate
cut_lem s id user n now m c h t =
    let (refused, found, order) = truncate_messages_lem s id user n now c h in
    rw (after-from_truncate s (truncate_messages s id user n now) m now) (
      rolled_back user n now c,
      rw (str_eq_refl id) at (found id),
      rolled_back-messages user n now c t,
      λ j ne. rw ne at (found j),
    )

-- A cut that makes the conversation shorter is reported as such.
pub cut_result-removed :
    (s : Store Stored) (id user : String) (n now m : ℕ) (c : Conversation Stored)
    → lookup id s.conversations ≡ some c
    → str_eq c.user_id user ≡ true
    → n < length c.messages
    → (cut_result (bounded_api now) (bounded_truncate now s id user n) m).1 ≡ removed m
unfolding bounded_truncate from_truncate truncate_messages cut_result
cut_result-removed s id user n now m c h t lt =
    let longer : leb (length c.messages) n ≡ false = ground arith in rw h (rw t (rw longer refl))
