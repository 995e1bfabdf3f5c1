-- ===== src/Conversation/Store/Valid.antt =====
-- The store's invariant, kept by every operation: bounded, one entry for each id, each under its id.
use sqllens.Prelude.{
  ℕ, ◌≤◌, ◌<◌, String, ◌≡◌, refl, inl, inr, some, [], ◌∷◌, arith, str_eq, length, ltb, Bool-cases,
  Bool, true, false, Option, none, List, take, leb, if◌then◌else◌,
}
use sqllens.Prelude.Dict.{lookup}
use sqllens.Conversation.Store.{
  Conversation, Store, put_last, StoreError, create_conversation, delete_conversation,
  get_conversation, new_store, remember, truncate_messages, bad_max, delete_owned, get_owned,
  truncate_found, update_conversation,
}
use sqllens.Conversation.Store.Shape.{Distinct, Distinct-without}
use sqllens.Conversation.Store.Keys.{
  OwnKeys, OwnKeys-without, OwnKeys-lookup, put_last-IsOrdered, evict-IsOrdered, length-evict,
  length-put_last_known, without-le, insert_known,
}
use sqllens.Prelude.Result.{Result, ok, err, ok-injective}

-- A call of the store.
pub data Call (M : Type 0) : Type 0 where
  create : String → String → M → ℕ → Call M
  get : String → String → Call M
  update : Conversation M → Call M
  delete : String → String → Call M
  truncate : String → String → ℕ → ℕ → Call M

module _ {M : Type 0} where
  pub record IsValid (s : Store M) : Type 0 where
    pub positive : 0 < s.max_conversations
    pub bounded : length s.conversations ≤ s.max_conversations
    pub distinct : Distinct s.conversations
    pub own_keys : OwnKeys s.conversations

  remember-IsValid : (s : Store M) (c : Conversation M) → IsValid s → IsValid (remember s c)
  unfolding remember
  remember-IsValid s c v =
      let ordered =
        evict-IsOrdered s.max_conversations (put_last c.id c s.conversations)
          (put_last-IsOrdered c.id c s.conversations (v.distinct, v.own_keys) refl) in
      record {
        positive = v.positive;
        bounded = length-evict s.max_conversations _;
        distinct = ordered.0;
        own_keys = ordered.1;
      }

  get_conversation-IsValid :
      (s : Store M) (id user : String) → IsValid s → IsValid (get_conversation s id user).0
  unfolding get_conversation
  get_conversation-IsValid s id user v = found (lookup id s.conversations) refl
    where
      found :
          (o : Option (Conversation M))
          → lookup id s.conversations ≡ o
          → IsValid (get_owned s id o user).0
      found none e = v
      found (some c) e = elim (Bool-cases (str_eq c.user_id user)) [
        | inl t ↦
            let ordered =
              put_last-IsOrdered id c s.conversations (v.distinct, v.own_keys)
                (OwnKeys-lookup id s.conversations v.own_keys e) in
            rw t (record {
              positive = v.positive;
              bounded =
                  omega
                    (arith, length-put_last_known id c c s.conversations v.distinct e, v.bounded);
              distinct = ordered.0;
              own_keys = ordered.1;
            })
        | inr t ↦ rw t v
      ]

  delete_conversation-IsValid :
      (s : Store M) (id user : String) → IsValid s → IsValid (delete_conversation s id user).0
  unfolding delete_conversation
  delete_conversation-IsValid s id user v = found (lookup id s.conversations)
    where
      found : (o : Option (Conversation M)) → IsValid (delete_owned s id o user).0
      found none = v
      found (some c) = elim (Bool-cases (str_eq c.user_id user)) [
        | inl t ↦ rw t (record {
          positive = v.positive;
          bounded = omega (arith, without-le id s.conversations, v.bounded);
          distinct = Distinct-without id s.conversations v.distinct;
          own_keys = OwnKeys-without id s.conversations v.own_keys;
        })
        | inr t ↦ rw t v
      ]

  -- The store that a call leaves; a call that raises leaves it as it was.
  abbrev pub after : Store M → Result StoreError (Store M × Bool) → Store M
  after s (ok r) = r.0
  after s (err e) = s

  truncate_messages-IsValid :
      (s : Store M) (id user : String) (n now : ℕ)
      → IsValid s
      → IsValid (after s (truncate_messages s id user n now))
  unfolding truncate_messages
  truncate_messages-IsValid s id user n now v = found (lookup id s.conversations) refl
    where
      found :
          (o : Option (Conversation M))
          → lookup id s.conversations ≡ o
          → IsValid (after s (truncate_found s id o user n now))
      found none e = v
      found (some c) e = elim (Bool-cases (str_eq c.user_id user)) [
        | inl t ↦ elim (Bool-cases (leb (length c.messages) n)) [
          | inl short ↦ rw t (rw short v)
          | inr long ↦
              let cut = record c { messages = take n c.messages; updated_at = now } in
              let (l, ordered) =
                insert_known id cut c s.conversations (v.distinct, v.own_keys) e
                  (OwnKeys-lookup id s.conversations v.own_keys e) in
              rw t (
                rw long (record {
                  positive = v.positive;
                  bounded = omega (arith, l, v.bounded);
                  distinct = ordered.0;
                  own_keys = ordered.1;
                }))
        ]
        | inr t ↦ rw t v
      ]

  pub call : Store M → Call M → Store M
  call s (create id user first now) = (create_conversation s id user first now).0
  call s (get id user) = (get_conversation s id user).0
  call s (update c) = update_conversation s c
  call s (delete id user) = (delete_conversation s id user).0
  call s (truncate id user n now) = after s (truncate_messages s id user n now)

  pub calls : Store M → List (Call M) → Store M
  calls s [] = s
  calls s (c ∷ cs) = calls (call s c) cs

  call-IsValid : (s : Store M) (c : Call M) → IsValid s → IsValid (call s c)
  unfolding call create_conversation
  call-IsValid s (create id user first now) v = remember-IsValid s _ v
  call-IsValid s (get id user) v = get_conversation-IsValid s id user v
  call-IsValid s (update c) v = remember-IsValid s c v
  call-IsValid s (delete id user) v = delete_conversation-IsValid s id user v
  call-IsValid s (truncate id user n now) v = truncate_messages-IsValid s id user n now v

  calls-IsValid : (s : Store M) (cs : List (Call M)) → IsValid s → IsValid (calls s cs)
  unfolding calls
  calls-IsValid s [] v = v
  calls-IsValid s (c ∷ cs) v = calls-IsValid (call s c) cs (call-IsValid s c v)

  -- After any calls on a new store it holds at most the configured number of conversations, one for
  -- each id, and each under its own id.
  pub new_store-IsValid :
      (n : ℕ) (s : Store M) (cs : List (Call M)) → new_store n ≡ ok s → IsValid (calls s cs)
  unfolding new_store
  new_store-IsValid n s cs h = calls-IsValid s cs (start (ltb n 1) refl h)
    where
      start :
          (b : Bool)
          → ltb n 1 ≡ b
          → (if b then err bad_max else ok (record { max_conversations = n; conversations = [] }))
            ≡ ok s
          → IsValid s
      start true e h = cc
      start false e h =
          rw (← ok-injective h) (record {
            positive = ground arith;
            bounded = omega arith;
            distinct = tt;
            own_keys = tt;
          })
