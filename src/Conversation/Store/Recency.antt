-- ===== src/Conversation/Store/Recency.antt =====
-- Which conversation the store finds, which it drops, and what a rollback changes.
use sqllens.Prelude.{
  ℕ, ◌≤◌, ◌<◌, String, ◌≡◌, refl, ◌∙◌, inl, inr, ◌&&◌, none, some, [], ◌∷◌, ◌++◌, arith, str_eq,
  eq_iff, length, take, ltb, if◌then◌else◌, Bool-cases, suc, ◌↔◌, true, false, List, length-append,
  leb,
}
use sqllens.Prelude.Dict.{Dict, lookup, insert, without, lookup-insert}
use sqllens.Conversation.Store.{
  Conversation, Store, evict, get_conversation, remember, create_conversation, put_last,
  truncate_messages, owner_mismatch,
}
use sqllens.Conversation.Store.Shape.{lookup-append_none, lookup-without_self, length-without}
use sqllens.Conversation.Store.Valid.{IsValid, after}
use sqllens.Prelude.Result.{err}

module _ {M : Type 0} where
  evict_last :
      (n : ℕ) (k : String) (c : Conversation M) (d : Dict (Conversation M))
      → 0 < n
      → lookup k d ≡ none
      → lookup k (evict n (d ++ (k, c) ∷ [])) ≡ some c
  unfolding evict lookup
  evict_last n k c [] h e = ground (arith, eq_iff k k)
  evict_last n k c ((j, x) ∷ d) h e = elim (Bool-cases (str_eq j k)) [
    | inl s ↦ cc
    | inr s ↦ elim (Bool-cases (ltb n (length ((j, x) ∷ (d ++ (k, c) ∷ []))))) [
      | inl t ↦ rw t (evict_last n k c d h (rw s at e))
      | inr t ↦ rw t (rw s (lookup-append_none k d _ (rw s at e) ∙ ground (arith, eq_iff k k)))
    ]
  ]

  evict_fits : (n : ℕ) (d : Dict (Conversation M)) → length d ≤ n → evict n d ≡ d
  unfolding evict
  evict_fits n [] h = refl
  evict_fits n (kc ∷ d) h = ground arith

  -- A conversation just created is there for its owner, whatever was evicted for it, and for no one
  -- else.
  pub get_conversation-create_conversation :
      (s : Store M) (id user other : String) (first : M) (now : ℕ)
      → IsValid s
      → (get_conversation (create_conversation s id user first now).0 id other).1
        ≡ (if str_eq user other then some (create_conversation s id user first now).1 else none)
  unfolding get_conversation create_conversation remember put_last
  get_conversation-create_conversation s id user other first now v =
      rw
        (evict_last s.max_conversations id _ (without id s.conversations) v.positive
          (lookup-without_self id s.conversations))
        (ground arith)

  -- In a full store a new conversation displaces the least recently used one and no other, and
  -- stands last.
  pub remember_full :
      (s : Store M) (c : Conversation M) (oldest : String × Conversation M)
      (rest : Dict (Conversation M))
      → IsValid s
      → s.conversations ≡ oldest ∷ rest
      → length s.conversations ≡ s.max_conversations
      → lookup c.id s.conversations ≡ none
      → (remember s c).conversations ≡ rest ++ (c.id, c) ∷ []
  unfolding remember put_last
  remember_full s c oldest rest v e full fresh =
      rw ((length-without c.id s.conversations v.distinct).0 fresh)
        (rw e (dropped s.max_conversations (rw e at full)))
    where
      dropped :
          (n : ℕ)
          → length (oldest ∷ rest) ≡ n
          → evict n ((oldest ∷ rest) ++ (c.id, c) ∷ []) ≡ rest ++ (c.id, c) ∷ []
      dropped n f =
          let longer = length-append rest ((c.id, c) ∷ []) in
          let over : ltb n (suc (length (rest ++ (c.id, c) ∷ []))) ≡ true =
            ground (arith, longer) in
          rw over (evict_fits n (rest ++ (c.id, c) ∷ []) (omega (arith, longer)))

  -- What a rollback makes of a stored conversation.
  abbrev pub rolled_back : String → ℕ → ℕ → Conversation M → Conversation M
  rolled_back user n now c =
      if str_eq c.user_id user && ltb n (length c.messages)
      then record c { messages = take n c.messages; updated_at = now }
      else c

  pub keys : Dict (Conversation M) → List String
  keys [] = []
  keys ((k, c) ∷ d) = k ∷ keys d

  keys-insert :
      (k : String) (c x : Conversation M) (d : Dict (Conversation M))
      → lookup k d ≡ some x
      → keys (insert k c d) ≡ keys d
  unfolding keys insert lookup
  keys-insert k c x [] h = cc
  keys-insert k c x ((j, y) ∷ d) h = elim (Bool-cases (str_eq j k)) [
    | inl e ↦ rw e (rw ((eq_iff j k).0 e))
    | inr e ↦ rw e (rw (keys-insert k c x d (rw e at h)))
  ]

  lookup_same :
      (k : String) (c : Conversation M) (d : Dict (Conversation M))
      → lookup k d ≡ some c
      → (j : String) → lookup j d ≡ (if str_eq k j then some c else lookup j d)
  lookup_same k c d h j = elim (Bool-cases (str_eq k j)) [
    | inl e ↦ rw e (rw (← (eq_iff k j).0 e) h)
    | inr e ↦ rw e
  ]

  -- A rollback cuts the named conversation, if the user owns it and it is longer, and changes
  -- nothing else: not another conversation, and not the order of recency. A rollback of another
  -- user's conversation is refused.
  pub truncate_messages_lem :
      (s : Store M) (id user : String) (n now : ℕ) (c : Conversation M)
      → lookup id s.conversations ≡ some c
      → ((truncate_messages s id user n now ≡ err owner_mismatch) ↔ (str_eq c.user_id user ≡ false))
        × ((j : String)
            → lookup j (after s (truncate_messages s id user n now)).conversations
              ≡ (if str_eq id j then some (rolled_back user n now c) else lookup j s.conversations))
        × (keys (after s (truncate_messages s id user n now)).conversations ≡ keys s.conversations)
  unfolding truncate_messages
  truncate_messages_lem s id user n now c h =
      let same = lookup_same id c s.conversations h in
      rw h (elim (Bool-cases (str_eq c.user_id user)) [
        | inl t ↦ elim (Bool-cases (leb (length c.messages) n)) [
          | inl short ↦
              let kept : ltb n (length c.messages) ≡ false = ground arith in
              rw t (rw short (rw kept (((λ e. cc), (λ e. cc)), same, refl)))
          | inr long ↦
              let cut : ltb n (length c.messages) ≡ true = ground arith in
              rw t (
                rw long (
                  rw cut (
                    ((λ e. cc), (λ e. cc)),
                    (λ j. lookup-insert id j _ s.conversations),
                    keys-insert id _ c s.conversations h,
                  )))
        ]
        | inr t ↦ rw t (((λ e. refl), (λ e. refl)), same, refl)
      ])
