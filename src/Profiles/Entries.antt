-- ===== src/Profiles/Entries.antt =====
-- The entries of the profile file of src/sqllens/profiles.py, and what is read of them.
use mathlib.Core.List.{List, [], ◌∷◌}
use Prim.Native.String.{count}
use sqllens.Prelude.Text.{all_chars}
use Prim.Native.Char.{Char, code}
use sqllens.Prelude.{
  ℕ, ◌+◌, String, Bool, true, ◌&&◌, ◌||◌, Option, none, some, if◌then◌else◌, leb, ◌==◌,
}
use sqllens.Prelude.Dict.{Dict, insert}

-- `Profile`; F stands for the floats.
pub record Profile (F : Type 0) : Type 0 where
  pub show_details : Option Bool
  pub max_tool_iterations : Option ℕ
  pub max_rows : Option ℕ
  pub similarity_threshold : Option F

-- [A-Za-z0-9_.-]
unfoldable pub is_name_char : Char → Bool
is_name_char c =
    let n = code c in
    (leb b'A' n && leb n b'Z')
    || (leb b'a' n && leb n b'z')
    || (leb b'0' n && leb n b'9')
    || n == b'_'
    || n == b'.'
    || n == b'-'

-- `validate_profile_name`, as a test: {1,64} characters of the class
unfoldable pub is_profile_name : String → Bool
unfolding is_name_char all_chars
is_profile_name name = leb 1 (count name) && leb (count name) 64 && all_chars is_name_char name

-- ge=low, le=high
unfoldable pub is_within : ℕ → ℕ → Option ℕ → Bool
is_within low high none = true
is_within low high (some n) = leb low n && leb n high

-- A body of the file: a dict, with what its fields are if pydantic finds no unknown one and can read
-- each, or something else.
pub data Body (F : Type 0) : Type 0 where
  dict_body : Option (Profile F) → Body F
  other_body : Body F

pub data LoadError : Type 0 where
  corrupt : LoadError
  invalid_names : ℕ → LoadError
  malformed : List String → LoadError

pub record Loaded (F : Type 0) : Type 0 where
  pub good : Dict (Profile F)
  pub skipped : List String
  pub invalid : ℕ

module _ {F : Type 0} where
  abbrev pub inherit_all : Profile F
  inherit_all = record {
    show_details = none;
    max_tool_iterations = none;
    max_rows = none;
    similarity_threshold = none;
  }

  -- `similarity_threshold` within 0.0 and 1.0 is the test of a float, `unit`
  unfoldable pub is_threshold : (F → Bool) → Option F → Bool
  is_threshold unit none = true
  is_threshold unit (some x) = unit x

  -- the bounds of the fields of `Profile`
  unfoldable pub is_bounded : (F → Bool) → Profile F → Bool
  unfolding is_within is_threshold
  is_bounded unit p =
      is_within 1 100 p.max_tool_iterations
      && is_within 1 1000000 p.max_rows
      && is_threshold unit p.similarity_threshold

  -- `Profile.model_validate` of an entry's body
  unfoldable pub model_validate : (F → Bool) → Body F → Option (Profile F)
  unfolding is_bounded
  model_validate unit other_body = none
  model_validate unit (dict_body none) = none
  model_validate unit (dict_body (some p)) = if is_bounded unit p then some p else none

  unfoldable pub take_entry : String → Option (Profile F) → Loaded F → Loaded F
  take_entry name none l = record l { skipped = name ∷ l.skipped }
  take_entry name (some p) l = record l { good = insert name p l.good }

  -- the loop of `_read_from_disk`; a dict's keys are distinct
  unfoldable pub read_entries : (F → Bool) → Dict (Body F) → Loaded F
  unfolding is_profile_name model_validate take_entry
  read_entries unit [] = record { good = []; skipped = []; invalid = 0 }
  read_entries unit ((name, body) ∷ rest) =
      let l = read_entries unit rest in
      if is_profile_name name
      then take_entry name (model_validate unit body) l
      else record l { invalid = l.invalid + 1 }

  unfoldable pub entries_error : Loaded F → Option LoadError
  entries_error l =
      if leb 1 l.invalid then some (invalid_names l.invalid) else skipped_error l.skipped
    where
      skipped_error : List String → Option LoadError
      skipped_error [] = none
      skipped_error (n ∷ ns) = some (malformed (n ∷ ns))

  -- the payload that `_save` writes
  unfoldable pub dump : Dict (Profile F) → Dict (Body F)
  dump [] = []
  dump ((name, p) ∷ rest) = (name, dict_body (some p)) ∷ dump rest
