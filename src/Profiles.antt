-- ===== src/Profiles.antt =====
-- src/sqllens/profiles.py: named overlays over the settings of a request, and their file.
pub mod Entries
pub mod Good
pub mod PutBack
pub mod Restart
pub mod Served
pub mod Resolve
use mathlib.Core.List.{List, [], ◌∷◌, map}
use Prim.Native.String.{count}
use sqllens.Prelude.Text.{all_chars}
use Prim.Native.Char.{Char, code}
use sqllens.Prelude.Result.{Result, ok, err}
use sqllens.Prelude.{
  ℕ, ◌+◌, String, Bool, true, false, not, ◌&&◌, ◌||◌, Option, none, some, if◌then◌else◌, leb, ◌==◌,
  length, all, str_eq,
}
use sqllens.Prelude.Dict.{Dict, lookup, insert, without}
use sqllens.Profiles.Entries.{
  corrupt, other_body, dict_body, Profile, is_name_char, is_profile_name, is_within, Body, Loaded,
  LoadError, inherit_all, is_threshold, is_bounded, model_validate, take_entry, read_entries,
  entries_error, dump,
}

abbrev pub default_profile_name : String
default_profile_name = "default"

-- The file at `path`. Its keys' order is left out: the program writes them sorted.
pub data File (F : Type 0) : Type 0 where
  missing unreadable not_json not_object : File F
  entries : Dict (Body F) → File F

pub record ProfileStore (F : Type 0) : Type 0 where
  pub profiles : Dict (Profile F)
  pub load_error : Option LoadError
  pub invalid_profile_names : Bool
  pub file : File F

-- How the write of the file ends: the content replaced, an error with the old file in place, or
-- the waiting task cancelled, where the worker thread goes on and replaces the content.
pub data WriteEnd : Type 0 where
  written failed cancelled : WriteEnd

pub data ProfileError : Type 0 where
  profile_name rename_first write_failed write_cancelled unknown_key : ProfileError

-- `EffectiveSettings`, and the fields of `Config` that it comes from
pub record EffectiveSettings (F : Type 0) : Type 0 where
  pub show_details : Bool
  pub max_tool_iterations : ℕ
  pub max_rows : ℕ
  pub similarity_threshold : F

-- if x is not None else y
unfoldable pub or_else {ℓ} : {A : Type ℓ} → Option A → A → A
or_else none y = y
or_else (some x) y = x

-- profile_name or DEFAULT_PROFILE_NAME
unfoldable pub name_or_default : Option String → String
name_or_default none = default_profile_name
name_or_default (some name) = if str_eq name "" then default_profile_name else name

module _ {F : Type 0} where
  abbrev pub no_profiles : Option LoadError → File F → ProfileStore F
  no_profiles error file = record {
    profiles = [];
    load_error = error;
    invalid_profile_names = false;
    file = file;
  }

  -- `_read_from_disk` of a new store, on a file that can be decoded
  unfoldable pub new_profile_store : (F → Bool) → File F → ProfileStore F
  unfolding read_entries entries_error
  new_profile_store unit missing = no_profiles none missing
  new_profile_store unit unreadable = no_profiles (some corrupt) unreadable
  new_profile_store unit not_json = no_profiles (some corrupt) not_json
  new_profile_store unit not_object = no_profiles (some corrupt) not_object
  new_profile_store unit (entries d) =
      let l = read_entries unit d in
      record {
        profiles = l.good;
        load_error = entries_error l;
        invalid_profile_names = leb 1 l.invalid;
        file = entries d;
      }

  -- `ProfileStore(cfg)` on the file as `read_text` decodes it; `none` is a file that is not UTF-8, on
  -- which the constructor raises
  unfoldable pub open_profile_store : (F → Bool) → Option (File F) → Option (ProfileStore F)
  unfolding new_profile_store
  open_profile_store unit none = none
  open_profile_store unit (some file) = some (new_profile_store unit file)

  abbrev pub replaced : ProfileStore F → ProfileStore F
  replaced s = record s { file = entries (dump s.profiles) }

  unfoldable pub write : WriteEnd → ProfileStore F → ProfileStore F × Result ProfileError (Unit {0})
  unfolding dump
  write written s = (replaced s, ok tt)
  write failed s = (s, err write_failed)
  write cancelled s = (replaced s, err write_cancelled)

  -- `_save`
  unfoldable pub save : WriteEnd → ProfileStore F → ProfileStore F × Result ProfileError (Unit {0})
  unfolding write
  save end s = if s.invalid_profile_names then (s, err rename_first) else write end s

  -- `get`
  unfoldable pub get : ProfileStore F → String → Result ProfileError (Option (Profile F))
  unfolding is_profile_name
  get s name = if is_profile_name name then ok (lookup name s.profiles) else err profile_name

  -- what `upsert` puts back
  unfoldable pub put_back : String → Option (Profile F) → ProfileStore F → ProfileStore F
  put_back name none s = record s { profiles = without name s.profiles }
  put_back name (some prior) s = record s { profiles = insert name prior s.profiles }

  -- the `except` around a save
  unfoldable pub rolled_back :
      (ProfileStore F → ProfileStore F)
      → ProfileStore F × Result ProfileError (Unit {0})
      → ProfileStore F × Result ProfileError (Unit {0})
  rolled_back undo (s, ok u) = (s, ok u)
  rolled_back undo (s, err e) = (undo s, err e)

  -- `upsert`
  unfoldable pub upsert :
      WriteEnd
      → ProfileStore F
      → String
      → Profile F
      → ProfileStore F × Result ProfileError (Unit {0})
  unfolding is_profile_name save rolled_back put_back
  upsert end s name profile =
      if is_profile_name name
      then rolled_back (put_back name (lookup name s.profiles))
          (save end (record s { profiles = insert name profile s.profiles }))
      else (s, err profile_name)

  unfoldable pub delete_found :
      WriteEnd
      → ProfileStore F
      → String
      → Option (Profile F)
      → ProfileStore F × Result ProfileError (Unit {0})
  unfolding save rolled_back put_back
  delete_found end s name none = (s, err unknown_key)
  delete_found end s name (some prior) =
      rolled_back (put_back name (some prior))
        (save end (record s { profiles = without name s.profiles }))

  -- `delete`
  unfoldable pub delete :
      WriteEnd → ProfileStore F → String → ProfileStore F × Result ProfileError (Unit {0})
  unfolding is_profile_name delete_found
  delete end s name =
      if is_profile_name name
      then delete_found end s name (lookup name s.profiles)
      else (s, err profile_name)

  -- `store` as the optional store; the named profile, else the one called default
  unfoldable pub profile_for : Option (ProfileStore F) → String → Profile F
  unfolding or_else
  profile_for none name = inherit_all
  profile_for (some s) name =
      or_else (lookup name s.profiles)
        (or_else (lookup default_profile_name s.profiles) inherit_all)

  abbrev pub overlay : EffectiveSettings F → Profile F → EffectiveSettings F
  overlay config p = record {
    show_details = or_else p.show_details config.show_details;
    max_tool_iterations = or_else p.max_tool_iterations config.max_tool_iterations;
    max_rows = or_else p.max_rows config.max_rows;
    similarity_threshold = or_else p.similarity_threshold config.similarity_threshold;
  }

  -- `resolve_effective_settings`
  unfoldable pub resolve_effective_settings :
      EffectiveSettings F
      → Option String
      → Option (ProfileStore F)
      → Result ProfileError (EffectiveSettings F)
  unfolding name_or_default profile_for is_profile_name or_else
  resolve_effective_settings config requested store =
      let name = name_or_default requested in
      if is_profile_name name
      then ok (overlay config (profile_for store name))
      else err profile_name
