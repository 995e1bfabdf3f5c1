-- ===== src/Agent/Registry.antt =====
-- `ToolRegistry` of src/sqllens/agent/core/registry.py.
pub mod Runs
pub mod Schemas
use sqllens.Prelude.Act.{Act, ◌>>=◌, ◌>>◌, give, act_if}
use sqllens.Agent.Access.{User, admits}
use sqllens.Prelude.Result.{Result, ok, err}
use sqllens.Prelude.{String, Bool, true, false, Option, none, some, List, [], ◌∷◌, if◌then◌else◌}
use sqllens.Prelude.Dict.{Dict, lookup, insert}

-- A text for the model or of an error: one that the registry writes, with what it names, or another.
pub data Said : Type 0 where
  plain not_found insufficient_group truncated_call : String → Said
  invalid_arguments execution_failed : String → Said

pub record ToolCall (Raw : Type 0) : Type 0 where
  pub id : String
  pub name : String
  pub arguments : Raw
  pub truncated : Bool

pub record ToolResult (Ui : Type 0) : Type 0 where
  pub success : Bool
  pub result_for_llm : Said
  pub ui_component : Option Ui
  pub error : Option Said

-- A tool. `validate` is its pydantic schema, which gives arguments or raises with a message;
-- `execute` gives a result or raises with a message. `World` is all that the program may change.
pub record Tool (World Raw Args Ui : Type 0) : Type 0 where
  pub name : String
  pub access_groups : List String
  pub validate : Raw → Result String Args
  pub execute : Args → Act World String (ToolResult Ui)

-- `AuditConfig`
pub record AuditConfig : Type 0 where
  pub enabled : Bool
  pub log_tool_access_checks : Bool
  pub log_tool_invocations : Bool
  pub log_tool_results : Bool
  pub log_ui_feature_checks : Bool

pub data AuditEvent (Raw Ui : Type 0) : Type 0 where
  tool_access_check : String → Bool → AuditEvent Raw Ui
  tool_invocation : ToolCall Raw → AuditEvent Raw Ui
  tool_result : ToolCall Raw → ToolResult Ui → AuditEvent Raw Ui
  ui_feature_access : String → Bool → AuditEvent Raw Ui

-- `transform_args` of a subclass may give other arguments, or a reason to reject them. The audit
-- logger may raise, with a message.
pub record Registry (World Raw Args Ui : Type 0) : Type 0 where
  pub tools : Dict (Tool World Raw Args Ui)
  pub audit_logger : Option (AuditEvent Raw Ui → Act World String (Unit {0}))
  pub audit_config : AuditConfig
  pub transform_args : Tool World Raw Args Ui → Args → User → Act World String (Result String Args)

module _ {Ui : Type 0} where
  abbrev pub failure : Said → ToolResult Ui
  failure msg = record {
    success = false;
    result_for_llm = msg;
    ui_component = none;
    error = some msg;
  }

module _ {World Ui : Type 0} where
  -- the `try` around the tool, behind which nothing of it is raised
  unfoldable pub caught :
      World × Result String (ToolResult Ui) → World × Result String (ToolResult Ui)
  caught (w, ok result) = (w, ok result)
  caught (w, err message) = (w, ok (failure (execution_failed message)))

module _ {World Raw Ui : Type 0} where
  unfoldable pub audit_with :
      Option (AuditEvent Raw Ui → Act World String (Unit {0}))
      → Bool
      → AuditEvent Raw Ui
      → Act World String (Unit {0})
  audit_with none on event = give tt
  audit_with (some log) on event = act_if on (log event)

module _ {World Raw Args Ui : Type 0} where
  -- The registry as constructed, with the base class's `transform_args`.
  abbrev pub new_registry :
      Option (AuditEvent Raw Ui → Act World String (Unit {0}))
      → AuditConfig
      → Registry World Raw Args Ui
  new_registry logger config = record {
    tools = [];
    audit_logger = logger;
    audit_config = config;
    transform_args = λ tool args user. give (ok args);
  }

  -- `_LocalToolWrapper`
  unfoldable pub with_groups : Tool World Raw Args Ui → List String → Tool World Raw Args Ui
  with_groups tool [] = tool
  with_groups tool (g ∷ gs) = record tool { access_groups = g ∷ gs }

  unfoldable pub register_named :
      Option (Tool World Raw Args Ui)
      → Registry World Raw Args Ui
      → Tool World Raw Args Ui
      → List String
      → Option (Registry World Raw Args Ui)
  unfolding with_groups
  register_named (some other) r tool groups = none
  register_named none r tool groups =
      some (record r { tools = insert tool.name (with_groups tool groups) r.tools })

  -- `register_local_tool`; none is its ValueError
  unfoldable pub register_local_tool :
      Registry World Raw Args Ui
      → Tool World Raw Args Ui
      → List String
      → Option (Registry World Raw Args Ui)
  unfolding register_named
  register_local_tool r tool groups = register_named (lookup tool.name r.tools) r tool groups

  abbrev pub get_tool : Registry World Raw Args Ui → String → Option (Tool World Raw Args Ui)
  get_tool r name = lookup name r.tools

  -- `_validate_tool_permissions`
  unfoldable pub validate_tool_permissions : Tool World Raw Args Ui → User → Bool
  unfolding admits
  validate_tool_permissions tool user = admits tool.access_groups user

  unfoldable pub list_tools : Dict (Tool World Raw Args Ui) → List String
  list_tools [] = []
  list_tools ((name, tool) ∷ tools) = name ∷ list_tools tools

  unfoldable pub is_shown : Option User → Tool World Raw Args Ui → Bool
  unfolding validate_tool_permissions
  is_shown none tool = true
  is_shown (some user) tool = validate_tool_permissions tool user

  -- `get_schemas`: a schema has its tool's name
  unfoldable pub schemas_of : Dict (Tool World Raw Args Ui) → Option User → List String
  schemas_of [] user = []
  schemas_of ((name, tool) ∷ tools) user =
      if is_shown user tool then tool.name ∷ schemas_of tools user else schemas_of tools user

  abbrev pub get_schemas : Registry World Raw Args Ui → Option User → List String
  get_schemas r user = schemas_of r.tools user

  -- if self.audit_logger and self.audit_config and ...
  unfoldable pub audit :
      Registry World Raw Args Ui → Bool → AuditEvent Raw Ui → Act World String (Unit {0})
  unfolding audit_with
  audit r on event = audit_with r.audit_logger on event

  unfoldable pub run_tool :
      Registry World Raw Args Ui
      → ToolCall Raw
      → Tool World Raw Args Ui
      → Args
      → Act World String (ToolResult Ui)
  unfolding audit
  run_tool r call tool args = do
    result ← tool.execute args
    audit r r.audit_config.log_tool_results (tool_result call result)
    give result

  -- from the audit of the access check on
  unfoldable pub execute_with :
      Registry World Raw Args Ui
      → ToolCall Raw
      → Tool World Raw Args Ui
      → Args
      → Act World String (ToolResult Ui)
  unfolding audit caught run_tool
  execute_with r call tool args = do
    audit r r.audit_config.log_tool_access_checks (tool_access_check call.name true)
    audit r r.audit_config.log_tool_invocations (tool_invocation call)
    λ w. caught (run_tool r call tool args w)

  unfoldable pub execute_transformed :
      Registry World Raw Args Ui
      → ToolCall Raw
      → Tool World Raw Args Ui
      → Result String Args
      → Act World String (ToolResult Ui)
  execute_transformed r call tool (ok args) = execute_with r call tool args
  execute_transformed r call tool (err reason) = give (failure (plain reason))

  unfoldable pub execute_validated :
      Registry World Raw Args Ui
      → ToolCall Raw
      → User
      → Tool World Raw Args Ui
      → Result String Args
      → Act World String (ToolResult Ui)
  unfolding execute_transformed
  execute_validated r call user tool (err message) = give (failure (invalid_arguments message))
  execute_validated r call user tool (ok args) = do
    transformed ← r.transform_args tool args user
    execute_transformed r call tool transformed

  unfoldable pub deny : Registry World Raw Args Ui → ToolCall Raw → Act World String (ToolResult Ui)
  unfolding audit
  deny r call = do
    audit r r.audit_config.log_tool_access_checks (tool_access_check call.name false)
    give (failure (insufficient_group call.name))

  unfoldable pub execute_found :
      Registry World Raw Args Ui
      → ToolCall Raw
      → User
      → Option (Tool World Raw Args Ui)
      → Act World String (ToolResult Ui)
  unfolding execute_validated deny validate_tool_permissions
  execute_found r call user none = give (failure (not_found call.name))
  execute_found r call user (some tool) =
      if validate_tool_permissions tool user
      then if call.truncated
        then give (failure (truncated_call call.name))
        else execute_validated r call user tool (tool.validate call.arguments)
      else deny r call

  -- `execute`
  unfoldable pub execute :
      Registry World Raw Args Ui → ToolCall Raw → User → Act World String (ToolResult Ui)
  unfolding execute_found
  execute r call user = execute_found r call user (get_tool r call.name)
