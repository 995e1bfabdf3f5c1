-- ===== src/Conversation/Store.antt =====
-- `BoundedConversationStore` of src/sqllens/conversation_store.py. The OrderedDict is a list in its
-- order, the least recently used first. Times are the clock's readings, passed in.
pub mod Shape
pub mod Keys
pub mod Valid
pub mod Recency
use sqllens.Prelude.{
  ℕ, String, Bool, true, false, not, Option, none, some, List, [], ◌∷◌, ◌++◌, str_eq, length, take,
  drop, ltb, leb, if◌then◌else◌,
}
use sqllens.Prelude.Result.{Result, ok, err}
use sqllens.Prelude.Dict.{Dict, lookup, insert, without}

-- The fields of a conversation that the store reads; `user_id` is `user.id`.
pub record Conversation (M : Type 0) : Type 0 where
  pub id : String
  pub user_id : String
  pub messages : List M
  pub updated_at : ℕ

pub record Store (M : Type 0) : Type 0 where
  pub max_conversations : ℕ
  pub conversations : Dict (Conversation M)

pub data StoreError : Type 0 where
  bad_max owner_mismatch : StoreError

module _ {M : Type 0} where
  -- `BoundedConversationStore(max_conversations)`
  unfoldable pub new_store : ℕ → Result StoreError (Store M)
  new_store n =
      if ltb n 1 then err bad_max else ok (record { max_conversations = n; conversations = [] })

  -- while len(d) > max: d.popitem(last=False)
  unfoldable pub evict : ℕ → Dict (Conversation M) → Dict (Conversation M)
  evict n [] = []
  evict n (kc ∷ d) = let fewer = evict n d in if ltb n (length (kc ∷ d)) then fewer else kc ∷ d

  -- d[k] = c; d.move_to_end(k)
  unfoldable pub put_last : String → Conversation M → Dict (Conversation M) → Dict (Conversation M)
  put_last k c d = without k d ++ (k, c) ∷ []

  -- `_remember`
  unfoldable pub remember : Store M → Conversation M → Store M
  unfolding evict put_last
  remember s c = record s {
    conversations = evict s.max_conversations (put_last c.id c s.conversations);
  }

  -- `create_conversation`; `first` is the user's message
  unfoldable pub create_conversation : Store M → String → String → M → ℕ → Store M × Conversation M
  create_conversation s id user first now =
      let c : Conversation M = record {
        id = id;
        user_id = user;
        messages = first ∷ [];
        updated_at = now;
      } in
      (remember s c, c)

  unfoldable pub get_owned :
      Store M → String → Option (Conversation M) → String → Store M × Option (Conversation M)
  get_owned s id none user = (s, none)
  get_owned s id (some c) user =
      if str_eq c.user_id user
      then (record s { conversations = put_last id c s.conversations }, some c)
      else (s, none)

  -- `get_conversation`
  unfoldable pub get_conversation : Store M → String → String → Store M × Option (Conversation M)
  unfolding get_owned
  get_conversation s id user = get_owned s id (lookup id s.conversations) user

  abbrev pub update_conversation : Store M → Conversation M → Store M
  update_conversation = remember

  unfoldable pub delete_owned : Store M → String → Option (Conversation M) → String → Store M × Bool
  delete_owned s id none user = (s, false)
  delete_owned s id (some c) user =
      if str_eq c.user_id user
      then (record s { conversations = without id s.conversations }, true)
      else (s, false)

  -- `delete_conversation`
  unfoldable pub delete_conversation : Store M → String → String → Store M × Bool
  unfolding delete_owned
  delete_conversation s id user = delete_owned s id (lookup id s.conversations) user

  -- sort(key=updated_at, reverse=True), which keeps the order of equals
  unfoldable pub insert_by_time : Conversation M → List (Conversation M) → List (Conversation M)
  insert_by_time c [] = c ∷ []
  insert_by_time c (d ∷ ds) =
      let later = insert_by_time c ds in
      if ltb c.updated_at d.updated_at then d ∷ later else c ∷ d ∷ ds

  unfoldable pub sort_by_time : List (Conversation M) → List (Conversation M)
  unfolding insert_by_time
  sort_by_time [] = []
  sort_by_time (c ∷ cs) = insert_by_time c (sort_by_time cs)

  unfoldable pub owned_by : String → Dict (Conversation M) → List (Conversation M)
  owned_by user [] = []
  owned_by user ((k, c) ∷ d) =
      if str_eq c.user_id user then c ∷ owned_by user d else owned_by user d

  -- `list_conversations`
  pub list_conversations : Store M → String → ℕ → ℕ → List (Conversation M)
  list_conversations s user limit offset =
      take limit (drop offset (sort_by_time (owned_by user s.conversations)))

  -- the stored object changes in place, and its place in the order stays
  unfoldable pub truncate_found :
      Store M
      → String
      → Option (Conversation M)
      → String
      → ℕ
      → ℕ
      → Result StoreError (Store M × Bool)
  truncate_found s id none user n now = ok (s, false)
  truncate_found s id (some c) user n now =
      if not (str_eq c.user_id user)
      then err owner_mismatch
      else if leb (length c.messages) n
      then ok (s, false)
      else ok (
        record s {
          conversations =
              insert id (record c { messages = take n c.messages; updated_at = now })
                s.conversations;
        },
        true,
      )

  -- `truncate_messages`; a negative length is not in ℕ
  unfoldable pub truncate_messages :
      Store M → String → String → ℕ → ℕ → Result StoreError (Store M × Bool)
  unfolding truncate_found
  truncate_messages s id user n now = truncate_found s id (lookup id s.conversations) user n now
