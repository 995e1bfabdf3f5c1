-- ===== src/Profiles/Served.antt =====
-- The stores that a request may meet, cancelled writes included.
use sqllens.Prelude.{String, ◌≡◌, refl, Bool, true, Option, none, some, if_cases}
use sqllens.Prelude.Result.{Result}
use sqllens.Prelude.Dict.{lookup, insert, without}
use sqllens.Profiles.Entries.{Profile, is_profile_name, is_bounded}
use sqllens.Profiles.{
  ProfileStore, File, entries, missing, unreadable, not_json, not_object, WriteEnd, written, failed,
  cancelled, ProfileError, new_profile_store, write, save, put_back, rolled_back, upsert,
  delete_found, delete,
}
use sqllens.Profiles.Good.{AllGood, no_more, insert-AllGood, without-AllGood, read_entries-AllGood}
use sqllens.Profiles.PutBack.{put_back-AllGood}

module _ {F : Type 0} (unit : F → Bool) where
  -- The stores that a file gives, and that calls of `upsert` and `delete` make of them, however
  -- their writes end; a profile that is upserted was validated.
  pub data Served (file : File F) : ProfileStore F → Type 0 where
    opened : Served file (new_profile_store unit file)
    after_upsert :
        {s : ProfileStore F} (end : WriteEnd) (name : String) (profile : Profile F)
        → is_bounded unit profile ≡ true
        → Served file s
        → Served file (upsert end s name profile).0
    after_delete :
        {s : ProfileStore F} (end : WriteEnd) (name : String)
        → Served file s
        → Served file (delete end s name).0

  new_profile_store-AllGood : (file : File F) → AllGood unit (new_profile_store unit file).profiles
  unfolding new_profile_store
  new_profile_store-AllGood missing = no_more
  new_profile_store-AllGood unreadable = no_more
  new_profile_store-AllGood not_json = no_more
  new_profile_store-AllGood not_object = no_more
  new_profile_store-AllGood (entries d) = read_entries-AllGood unit d

  -- A save with its rollback: the profiles are the changed ones or the ones put back.
  saved-AllGood :
      (end : WriteEnd) (s : ProfileStore F) (undo : ProfileStore F → ProfileStore F)
      → AllGood unit s.profiles
      → ((t : ProfileStore F) → t.profiles ≡ s.profiles → AllGood unit (undo t).profiles)
      → AllGood unit (rolled_back undo (save end s)).0.profiles
  unfolding save rolled_back
  saved-AllGood end s undo g back =
      let P = λ (out : ProfileStore F × Result ProfileError (Unit {0})).
        AllGood unit (rolled_back undo out).0.profiles in
      if_cases P s.invalid_profile_names _ _ (λ e. back s refl) (λ e. ended end)
    where
      ended : (end : WriteEnd) → AllGood unit (rolled_back undo (write end s)).0.profiles
      ended written = unfold write in g
      ended failed = unfold write in back s refl
      ended cancelled = unfold write in back _ refl

  delete_found-AllGood :
      (end : WriteEnd) (s : ProfileStore F) (name : String) (o : Option (Profile F))
      → lookup name s.profiles ≡ o
      → AllGood unit s.profiles
      → AllGood unit (delete_found end s name o).0.profiles
  unfolding delete_found
  delete_found-AllGood end s name none e g = g
  delete_found-AllGood end s name (some prior) e g =
      let less = without-AllGood unit s.profiles name g in
      saved-AllGood end (record s { profiles = without name s.profiles })
        (put_back name (some prior)) less
        (λ t same. put_back-AllGood unit name (some prior) t s.profiles e g (rw same less))

  pub Served-AllGood :
      {file : File F} {s : ProfileStore F} → Served file s → AllGood unit s.profiles
  unfolding upsert delete
  Served-AllGood {file} opened = new_profile_store-AllGood file
  Served-AllGood (after_upsert {s} end name profile b m) =
      let g = Served-AllGood m in
      let P =
        λ (out : ProfileStore F × Result ProfileError (Unit {0})). AllGood unit out.0.profiles in
      if_cases P (is_profile_name name) _ _
        (λ v.
          let new = insert-AllGood unit s.profiles name profile v b g in
          saved-AllGood end (record s { profiles = insert name profile s.profiles })
            (put_back name (lookup name s.profiles)) new
            (λ t e.
              put_back-AllGood unit name (lookup name s.profiles) t s.profiles refl g (rw e new)))
        (λ _. g)
  Served-AllGood (after_delete {s} end name m) =
      let P =
        λ (out : ProfileStore F × Result ProfileError (Unit {0})). AllGood unit out.0.profiles in
      let g = Served-AllGood m in
      if_cases P (is_profile_name name) _ _
        (λ _. delete_found-AllGood end s name (lookup name s.profiles) refl g) (λ _. g)
