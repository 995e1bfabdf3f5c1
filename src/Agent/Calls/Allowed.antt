-- ===== src/Agent/Calls/Allowed.antt =====
-- What a round's tool calls show, by the features that the user may use.
use sqllens.Prelude.Act.{Act, act_if}
use sqllens.Prelude.Keeps.{Keeps, Post, give-Keeps, bind-Keeps, then-Keeps, act_if-Keeps, if-Keeps}
use sqllens.Prelude.Result.{Result, ok, err}
use sqllens.Agent.Access.{
  User, UiFeature, feature_name, can_user_access_feature, show_tool_names, show_tool_arguments,
  show_tool_error,
}
use sqllens.Agent.Registry.{ToolCall, ToolResult}
use sqllens.Agent.Calls.{
  Agent, Event, Screen, on_world, emit, check_feature, show_component, finish_call, run_call,
  run_calls, task_added, card_running, card_finished, task_completed, tool_ui,
}
use sqllens.Prelude.Keeps.{Whatever}
use sqllens.Prelude.{
  String, ◌≡◌, refl, sym, ◌∙◌, ◌⊎◌, inl, inr, Bool, true, Option, none, some, List, [], ◌∷◌, ◌++◌,
}

module _ {World Raw Args Ui : Type 0} (agent : Agent World Raw Args Ui) (user : User) where
  abbrev pub Can : UiFeature → Type 0
  Can feature =
      can_user_access_feature agent.feature_group_access (feature_name feature) user ≡ true

  -- Whether a tool call may have yielded it for this user.
  abbrev pub IsAllowed : Event Raw Ui → Type 0
  IsAllowed (task_added name) = Can show_tool_names
  IsAllowed (task_completed name success) = Can show_tool_names
  IsAllowed (card_running call text) = Can show_tool_arguments
  IsAllowed (card_finished name success said) = Can show_tool_arguments
  IsAllowed (tool_ui result ui) =
      (result.ui_component ≡ some ui) × ((result.success ≡ true) ⊎ Can show_tool_error)
  IsAllowed _ = ⊥

  -- The events added to `earlier`, each of them allowed.
  pub data Shown (earlier : List (Event Raw Ui)) : List (Event Raw Ui) → Type 0 where
    so_far : Shown earlier earlier
    also :
        {events : List (Event Raw Ui)} (e : Event Raw Ui)
        → IsAllowed e
        → Shown earlier events
        → Shown earlier (events ++ e ∷ [])

  module _ (earlier : List (Event Raw Ui)) where
    abbrev Kept : Screen World Raw Ui → Type 0
    Kept s = Shown earlier s.emitted

    emit-Kept : (e : Event Raw Ui) → IsAllowed e → Keeps Kept Whatever (emit e)
    unfolding emit
    emit-Kept e a = record { state = λ s k. also e a k; result = λ s k. tt }

    on_world-Kept :
        {A : Type 0} (run : Act World String A)
        → Keeps {S = Screen World Raw Ui} Kept Whatever (on_world run)
    unfolding on_world
    on_world-Kept {A} run = record { state = λ s k. k; result = λ s k. any_result (run s.world).1 }
      where
        any_result : (r : Result String A) → Post Whatever r
        any_result (ok a) = tt
        any_result (err e) = tt

    abbrev Says : UiFeature → Bool → Type 0
    Says feature access =
        access ≡ can_user_access_feature agent.feature_group_access (feature_name feature) user

    check_feature-Kept :
        (feature : UiFeature) → Keeps Kept (Says feature) (check_feature agent user feature)
    unfolding check_feature
    check_feature-Kept feature = then-Keeps Whatever (on_world-Kept _) (give-Keeps refl)

    show_if :
        (feature : UiFeature) (access : Bool) (e : Event Raw Ui)
        → (Can feature → IsAllowed e)
        → Says feature access
        → Keeps Kept Whatever (act_if access (emit e))
    show_if feature access e a s = act_if-Keeps access tt (λ t. emit-Kept e (a (sym s ∙ t)))

    show_component-Kept :
        (result : ToolResult Ui) (ui : Option Ui)
        → result.ui_component ≡ ui
        → Keeps Kept Whatever (show_component agent user result ui)
    unfolding show_component
    show_component-Kept result none h = give-Keeps tt
    show_component-Kept result (some ui) h =
        if-Keeps result.success _ _
          (λ e. then-Keeps Whatever (emit-Kept _ (h, inl e)) (give-Keeps tt))
          (λ e. bind-Keeps _ (check_feature-Kept show_tool_error) (λ access s.
            then-Keeps Whatever (show_if show_tool_error access _ (λ c. (h, inr c)) s)
              (give-Keeps tt)))

    finish_call-Kept :
        (call : ToolCall Raw) (failed : Bool) (result : ToolResult Ui)
        → Keeps Kept Whatever (finish_call agent user call failed result)
    unfolding finish_call
    finish_call-Kept call failed result =
        bind-Keeps _ (check_feature-Kept show_tool_arguments) (λ arguments s.
          then-Keeps Whatever (show_if show_tool_arguments arguments _ (λ c. c) s) (
            bind-Keeps _ (check_feature-Kept show_tool_names) (λ names s'.
              then-Keeps Whatever (show_if show_tool_names names _ (λ c. c) s')
                (bind-Keeps Whatever (show_component-Kept result _ refl) (λ m _. give-Keeps tt)))))

    run_call-Kept :
        (content : Option String) (call : ToolCall Raw)
        → Keeps Kept Whatever (run_call agent user content call)
    unfolding run_call
    run_call-Kept content call = bind-Keeps _ (check_feature-Kept show_tool_names) (λ names s.
        then-Keeps Whatever (show_if show_tool_names names _ (λ c. c) s) (
          bind-Keeps _ (check_feature-Kept show_tool_arguments) (λ arguments s'.
            then-Keeps Whatever (show_if show_tool_arguments arguments _ (λ c. c) s') (
              then-Keeps Whatever (on_world-Kept _) (
                bind-Keeps Whatever (on_world-Kept _) (λ first _.
                  bind-Keeps Whatever (on_world-Kept _)
                    (λ result _. finish_call-Kept call _ result)))))))

    run_calls-Kept :
        (content : Option String) (calls : List (ToolCall Raw))
        → Keeps Kept Whatever (run_calls agent user content calls)
    unfolding run_calls
    run_calls-Kept content [] = give-Keeps tt
    run_calls-Kept content (c ∷ cs) =
        bind-Keeps Whatever (run_call-Kept content c)
          (λ d _. bind-Keeps Whatever (run_calls-Kept content cs) (λ ds _. give-Keeps tt))

  -- However a round's tool calls end, each event that they add is one that the user may see: task
  -- entries only with access to tool names, status cards only with access to tool arguments, and
  -- else the component of a result, of a failed one only with access to tool errors.
  pub run_calls-Shown :
      (content : Option String) (calls : List (ToolCall Raw)) (s : Screen World Raw Ui)
      → Shown s.emitted (run_calls agent user content calls s).0.emitted
  run_calls-Shown content calls s = (run_calls-Kept s.emitted content calls).state s so_far
