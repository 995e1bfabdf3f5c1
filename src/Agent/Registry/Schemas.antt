-- ===== src/Agent/Registry/Schemas.antt =====
-- The tools that a user is shown, and those that run for this user.
use sqllens.Prelude.Act.{Act}
use sqllens.Agent.Access.{User, admits}
use sqllens.Agent.Registry.{
  Registry, Tool, ToolCall, AuditEvent, AuditConfig, new_registry, register_local_tool,
  register_named, with_groups, get_tool, get_schemas, schemas_of, is_shown,
  validate_tool_permissions, execute,
}
use sqllens.Agent.Registry.Runs.{Refused, execute-Ran}
use sqllens.Safety.Denylist.{contains}
use sqllens.Prelude.{
  String, ◌≡◌, refl, ◌↔◌, inl, inr, Bool, true, false, Option, none, some, List, [], ◌∷◌,
  if◌then◌else◌, str_eq, eq_iff, arith, Option-cases, Bool-cases, some-injective, ◌∙◌, sym,
}
use mathlib.Core.Path.{subst}
use sqllens.Prelude.Dict.{Dict, lookup, insert, lookup-insert}

module _ {World Raw Args Ui : Type 0} where
  -- A registry that only registrations have made.
  pub data Registered : Registry World Raw Args Ui → Type 0 where
    constructed :
        (logger : Option (AuditEvent Raw Ui → Act World String (Unit {0}))) (config : AuditConfig)
        → Registered (new_registry logger config)
    registered :
        {r : Registry World Raw Args Ui} (r' : Registry World Raw Args Ui)
        (tool : Tool World Raw Args Ui) (groups : List String)
        → register_local_tool r tool groups ≡ some r'
        → Registered r
        → Registered r'

  -- Each tool stands under its own name, and there once.
  data Keyed : Dict (Tool World Raw Args Ui) → Type 0 where
    none_kept : Keyed []
    kept :
        (tool : Tool World Raw Args Ui) {rest : Dict (Tool World Raw Args Ui)}
        → lookup tool.name rest ≡ none
        → Keyed rest
        → Keyed ((tool.name, tool) ∷ rest)

  insert-Keyed :
      (tool : Tool World Raw Args Ui) (d : Dict (Tool World Raw Args Ui))
      → lookup tool.name d ≡ none
      → Keyed d
      → Keyed (insert tool.name tool d)
  unfolding insert lookup
  insert-Keyed tool [] e k = kept tool refl none_kept
  insert-Keyed tool ((_, other) ∷ rest) e (kept _ fresh k) =
      elim (Bool-cases (str_eq other.name tool.name)) [
        | inl same ↦ let e' = rw same at e in cc
        | inr differs ↦
            let e' : lookup tool.name rest ≡ none = ground (arith, e, differs) in
            rw differs (
              kept other
                (lookup-insert tool.name other.name tool rest ∙ apart other rest differs fresh)
                (insert-Keyed tool rest e' k))
      ]
    where
      apart :
          (other : Tool World Raw Args Ui) (rest : Dict (Tool World Raw Args Ui))
          → str_eq other.name tool.name ≡ false
          → lookup other.name rest ≡ none
          → (if str_eq tool.name other.name then some tool else lookup other.name rest) ≡ none
      apart other rest d f =
          ground (arith, eq_iff other.name tool.name, eq_iff tool.name other.name)

  with_groups-name :
      (tool : Tool World Raw Args Ui) (groups : List String)
      → (with_groups tool groups).name ≡ tool.name
  unfolding with_groups
  with_groups-name tool [] = refl
  with_groups-name tool (g ∷ gs) = refl

  Registered-Keyed : {r : Registry World Raw Args Ui} → Registered r → Keyed r.tools
  unfolding register_local_tool register_named
  Registered-Keyed (constructed logger config) = none_kept
  Registered-Keyed (registered {r} r' tool groups e m) =
      elim (Option-cases (lookup tool.name r.tools)) [
        | inr (other, found) ↦ let no_registry = rw found at e in cc
        | inl fresh ↦
            let named = with_groups-name tool groups in
            let entry : Keyed (insert tool.name (with_groups tool groups) r.tools) =
              subst (λ n. Keyed (insert n (with_groups tool groups) r.tools)) named
                (insert-Keyed (with_groups tool groups) r.tools (rw named fresh)
                  (Registered-Keyed m)) in
            let made = rw fresh at e in
            subst (λ (q : Registry World Raw Args Ui). Keyed q.tools) (some-injective made) entry
      ]

  shown_at : Option (Tool World Raw Args Ui) → User → Bool
  shown_at none user = false
  shown_at (some tool) user = admits tool.access_groups user

  schemas_of-contains :
      (d : Dict (Tool World Raw Args Ui)) (user : User) (name : String)
      → Keyed d
      → contains (schemas_of d (some user)) name ≡ shown_at (lookup name d) user
  unfolding schemas_of contains lookup shown_at is_shown validate_tool_permissions
  schemas_of-contains [] user name k = refl
  schemas_of-contains ((_, tool) ∷ rest) user name (kept _ fresh k) =
      ground (arith, schemas_of-contains rest user name k, eq_iff tool.name name, fresh)

  -- For a registry that only registrations have made: a name is among the schemas that a user is
  -- shown exactly when a tool that admits this user is found under it, and a call of a name that is
  -- not among them runs no tool.
  pub get_schemas-execute :
      {r : Registry World Raw Args Ui} (m : Registered r) (user : User) (call : ToolCall Raw)
      (w : World)
      → ((contains (get_schemas r (some user)) call.name ≡ true) ↔ (
          (tool : Tool World Raw Args Ui) × (get_tool r call.name ≡ some tool)
          × (validate_tool_permissions tool user ≡ true)))
        × (contains (get_schemas r (some user)) call.name ≡ false
            → Refused r call user w (execute r call user w))
  unfolding shown_at validate_tool_permissions
  get_schemas-execute {r} m user call w =
      let e = schemas_of-contains r.tools user call.name (Registered-Keyed m) in
      (
        (λ h. found _ refl (sym e ∙ h), λ (tool, f, a). rw (e, f) a),
        λ h. elim (execute-Ran r call user w) [
          | inl refused ↦ refused
          | inr ran ↦ absurd (shown ran.tool ran.found ran.permitted (sym e ∙ h))
        ],
      )
    where
      found :
          (o : Option (Tool World Raw Args Ui))
          → lookup call.name r.tools ≡ o
          → shown_at o user ≡ true
          → (tool : Tool World Raw Args Ui) × (lookup call.name r.tools ≡ some tool)
            × (admits tool.access_groups user ≡ true)
      found none f a = cc
      found (some tool) f a = (tool, f, a)

      shown :
          (tool : Tool World Raw Args Ui)
          → lookup call.name r.tools ≡ some tool
          → admits tool.access_groups user ≡ true
          → shown_at (lookup call.name r.tools) user ≡ false
          → ⊥
      shown tool f a h = cc (sym a ∙ (rw f at h))
