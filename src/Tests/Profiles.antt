-- ===== src/Tests/Profiles.antt =====
-- The profile store at a small file, with numbers in place of floats.
use sqllens.Prelude.Dict.{insert}
use sqllens.Prelude.Result.{ok}
use sqllens.Prelude.{ℕ, String, ◌≡◌, refl, Bool, true, none, some, [], ◌∷◌, leb, arith}
use sqllens.Prelude.Dict.{lookup, without}
use sqllens.Profiles.Entries.{Profile, dict_body, is_bounded, is_profile_name, inherit_all}
use sqllens.Profiles.{
  ProfileStore, File, entries, written, failed, cancelled, delete, EffectiveSettings,
  new_profile_store, open_profile_store, upsert, resolve_effective_settings, get,
}
use sqllens.Profiles.Restart.{
  Reached, loaded, upserted, was_written, new_profile_store-Reached, upsert-cancelled,
}
use sqllens.Profiles.Served.{opened, after_upsert, after_delete}
use sqllens.Profiles.Resolve.{
  InBounds, Offered, a_store, resolve_effective_settings-InBounds, resolve_effective_settings-get,
}

abbrev unit : ℕ → Bool
unit x = leb x 1

abbrev fast : Profile ℕ
fast = record inherit_all { max_rows = some 10 }

abbrev wide : Profile ℕ
wide = record inherit_all { max_rows = some 2000000 }

abbrev two_entries : File ℕ
two_entries = entries (("fast", dict_body (some fast)) ∷ ("wide", dict_body (some wide)) ∷ [])

abbrev reading : ProfileStore ℕ
reading = new_profile_store unit two_entries

-- the entry out of bounds is skipped
reading-wide : lookup "wide" reading.profiles ≡ none
unfolding new_profile_store lookup insert
reading-wide = refl

-- a file that is not UTF-8 makes no store
open_profile_store-none : open_profile_store unit none ≡ none
unfolding open_profile_store
open_profile_store-none = refl

abbrev upserted_store : ProfileStore ℕ
upserted_store = (upsert written reading "slow.1" inherit_all).0

upserted_store-Reached : Reached unit two_entries upserted_store
unfolding is_bounded
upserted_store-Reached = upserted written "slow.1" inherit_all was_written refl loaded

new_profile_store-Reached_example :
    ((name : String)
      → lookup name (new_profile_store unit upserted_store.file).profiles
        ≡ lookup name upserted_store.profiles)
    × ((name : String) (p : Profile ℕ)
        → lookup name upserted_store.profiles ≡ some p
        → is_bounded unit p ≡ true)
    × ((new_profile_store unit two_entries).invalid_profile_names ≡ true
        → upserted_store.file ≡ two_entries)
new_profile_store-Reached_example = new_profile_store-Reached unit upserted_store-Reached

reading-Reached : Reached unit two_entries reading
reading-Reached = loaded

upsert-cancelled_example :
    (lookup "fast" (upsert cancelled reading "fast" inherit_all).0.profiles
      ≡ lookup "fast" reading.profiles)
    × (lookup "fast"
          (new_profile_store unit (upsert cancelled reading "fast" inherit_all).0.file).profiles
        ≡ some inherit_all)
unfolding is_profile_name is_bounded new_profile_store
upsert-cancelled_example = upsert-cancelled unit "fast" inherit_all reading-Reached refl refl refl

abbrev settings : EffectiveSettings ℕ
settings = record {
  show_details = true;
  max_tool_iterations = 20;
  max_rows = 1000;
  similarity_threshold = 0;
}

settings-InBounds : InBounds unit settings
settings-InBounds = record {
  some_iterations = omega arith;
  few_iterations = omega arith;
  some_rows = omega arith;
  few_rows = omega arith;
  unit_threshold = refl;
}

abbrev near : Profile ℕ
near = record fast { similarity_threshold = some 1 }

-- a store whose save was cancelled and whose next one failed
abbrev interrupted : ProfileStore ℕ
interrupted =
    (delete failed (upsert cancelled (upsert written reading "near" near).0 "fast" near).0 "fast").0

interrupted-Offered : Offered unit (some interrupted)
unfolding is_bounded
interrupted-Offered = a_store (
    after_delete failed "fast"
      (after_upsert cancelled "fast" near refl (after_upsert written "near" near refl opened)))

near_settings :
    resolve_effective_settings settings (some "near") (some interrupted)
    ≡ ok (record settings { max_rows = 10; similarity_threshold = 1 })
unfolding resolve_effective_settings upsert delete new_profile_store lookup insert without
near_settings = refl

resolve_effective_settings-InBounds_example :
    InBounds unit (record settings { max_rows = 10; similarity_threshold = 1 })
resolve_effective_settings-InBounds_example =
    resolve_effective_settings-InBounds unit settings (some "near") interrupted-Offered
      settings-InBounds near_settings

reading-other : get reading "other" ≡ ok none
unfolding get new_profile_store lookup insert
reading-other = refl

resolve_effective_settings-get_example :
    resolve_effective_settings settings (some "other") (some reading)
    ≡ resolve_effective_settings settings none (some reading)
resolve_effective_settings-get_example =
    resolve_effective_settings-get reading settings "other" reading-other
