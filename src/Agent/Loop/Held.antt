-- ===== src/Agent/Loop/Held.antt =====
-- What a run does to the messages, step by step.
use sqllens.Prelude.Act.{Act, resume, ◌>>=◌, ◌>>◌, give, act_if}
use sqllens.Prelude.Keeps.{Post}
use sqllens.Prelude.Result.{Result, ok, err}
use sqllens.Agent.Requests.{Message}
use sqllens.Agent.Calls.{Screen}
use sqllens.Prelude.Keeps.{Whatever}
use sqllens.Agent.Loop.{Talk, on_screen, add_messages}
use sqllens.Conversation.ToolUse.Clear.{Clear}
use sqllens.Prelude.{String, ◌≡◌, refl, Bool, true, false, List, map}
use sqllens.Agent.Loop.History.{Grown, Torn, Grown-Torn, Grown-append, view}

module _ {World Raw Ui : Type 0} (prior : List (Message Raw)) where
  -- How the messages stand where a run ends.
  abbrev pub After : {A : Type 0} → (A → Type 0) → Talk World Raw Ui × Result String A → Type 0
  After Q (t, ok a) = Grown prior t.messages × Q a
  After Q (t, err e) = Torn prior t.messages

  pub record Held {A : Type 0} (Q : A → Type 0) (run : Act (Talk World Raw Ui) String A)
      : Type 0 where
    pub apply : (t : Talk World Raw Ui) → Grown prior t.messages → After Q (run t)

  pub give-Held : {A : Type 0} {Q : A → Type 0} {a : A} → Q a → Held Q (give a)
  give-Held q = record { apply = λ t g. (g, q) }

  pub bind-Held :
      {A B : Type 0} (Q : A → Type 0) {R : B → Type 0} {run : Act (Talk World Raw Ui) String A}
      {next : A → Act (Talk World Raw Ui) String B}
      → Held Q run
      → ((a : A) → Q a → Held R (next a))
      → Held R (run >>= next)
  unfolding ◌>>=◌
  bind-Held {A} {B} Q {R} {run} {next} h n = record {
    apply = λ t g. go (run t).1 (run t).0 (h.apply t g);
  }
    where
      go :
          (r : Result String A) (t : Talk World Raw Ui) → After Q (t, r) → After R (resume r t next)
      go (ok a) t (g, q) = (n a q).apply t g
      go (err e) t torn = torn

  pub then-Held :
      {A B : Type 0} (Q : A → Type 0) {R : B → Type 0} {run : Act (Talk World Raw Ui) String A}
      {next : Act (Talk World Raw Ui) String B}
      → Held Q run
      → Held R next
      → Held R (run >> next)
  unfolding ◌>>◌ ◌>>=◌
  then-Held {A} {B} Q {R} {run} {next} h n =
      bind-Held {A = A} {B = B} Q {R = R} {run = run} {next = λ _. next} h (λ _ _. n)

  -- What leaves the messages alone.
  pub on_screen-Held :
      {A : Type 0} (Q : A → Type 0) (run : Act (Screen World Raw Ui) String A)
      → ((s : Screen World Raw Ui) → Post Q (run s).1)
      → Held Q (on_screen run)
  unfolding on_screen
  on_screen-Held {A} Q run p = record {
    apply = λ t g. go (run t.screen).1 (run t.screen).0 t g (p t.screen);
  }
    where
      go :
          (r : Result String A) (s : Screen World Raw Ui) (t : Talk World Raw Ui)
          → Grown prior t.messages
          → Post Q r
          → After Q (record t { screen = s }, r)
      go (ok a) s t g q = (g, q)
      go (err e) s t g q = Grown-Torn g

pub any_result : {A : Type 0} (r : Result String A) → Post Whatever r
any_result (ok a) = tt
any_result (err e) = tt

module _ {World Raw Ui : Type 0} (prior : List (Message Raw)) where
  pub act_if-Held :
      (b : Bool) {run : Act (Talk World Raw Ui) String (Unit {0})}
      → (b ≡ true → Held prior Whatever run)
      → Held prior Whatever (act_if b run)
  unfolding act_if
  act_if-Held true h = h refl
  act_if-Held false h = give-Held prior tt

  pub add_messages-Held :
      (more : List (Message Raw))
      → Clear (map view more)
      → Held {World = World} {Raw = Raw} {Ui = Ui} prior Whatever (add_messages more)
  unfolding add_messages
  add_messages-Held more c = record { apply = λ t g. (Grown-append more g c, tt) }
