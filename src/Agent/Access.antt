-- ===== src/Agent/Access.antt =====
-- Group-based access: `UiFeatures` of src/sqllens/agent/core/agent/config.py, and the test that
-- `_validate_tool_permissions` of src/sqllens/agent/core/registry.py shares with it.
use sqllens.Prelude.{String, Bool, true, false, ◌||◌, Option, none, some, List, [], ◌∷◌}
use sqllens.Prelude.Dict.{Dict, lookup, insert}
use sqllens.Safety.Denylist.{contains}

-- The fields of a `User` that are read.
pub record User : Type 0 where
  pub id : String
  pub group_memberships : List String

-- bool(set(user_groups) & set(groups))
unfoldable pub intersects : List String → List String → Bool
unfolding contains
intersects [] groups = false
intersects (g ∷ gs) groups = contains groups g || intersects gs groups

-- an empty list admits everyone
unfoldable pub admits : List String → User → Bool
unfolding intersects
admits [] user = true
admits (g ∷ gs) user = intersects user.group_memberships (g ∷ gs)

pub data UiFeature : Type 0 where
  show_tool_names show_tool_arguments show_tool_error : UiFeature
  show_tool_invocation_message_in_chat show_memory_detailed_results : UiFeature

unfoldable pub feature_name : UiFeature → String
feature_name show_tool_names = "tool_names"
feature_name show_tool_arguments = "tool_arguments"
feature_name show_tool_error = "tool_error"
feature_name show_tool_invocation_message_in_chat = "tool_invocation_message_in_chat"
feature_name show_memory_detailed_results = "memory_detailed_results"

-- DEFAULT_UI_FEATURES
abbrev pub default_ui_features : Dict (List String)
default_ui_features =
    ("tool_names", "admin" ∷ "user" ∷ [])
    ∷ ("tool_arguments", "admin" ∷ [])
    ∷ ("tool_error", "admin" ∷ [])
    ∷ ("tool_invocation_message_in_chat", "admin" ∷ [])
    ∷ ("memory_detailed_results", "admin" ∷ [])
    ∷ []

unfoldable pub admits_found : Option (List String) → User → Bool
unfolding admits
admits_found none user = false
admits_found (some groups) user = admits groups user

-- `UiFeatures.can_user_access_feature`, on `feature_group_access`
unfoldable pub can_user_access_feature : Dict (List String) → String → User → Bool
unfolding admits_found
can_user_access_feature features name user = admits_found (lookup name features) user

-- `UiFeatures.register_feature`
abbrev pub register_feature : Dict (List String) → String → List String → Dict (List String)
register_feature features name groups = insert name groups features
