-- ===== src/Profiles/Restart.antt =====
-- What the file holds is what the store serves.
use mathlib.Core.Path.{subst}
use sqllens.Prelude.{if_cases}
use sqllens.Prelude.Result.{Result}
use sqllens.Prelude.{String, ◌≡◌, refl, sym, ap, ◌∙◌, Bool, true, false, Option, none, some, eq_iff}
use sqllens.Prelude.Dict.{Dict, lookup, insert, without, lookup-insert, lookup-without}
use sqllens.Profiles.Entries.{Profile, is_profile_name, is_bounded}
use sqllens.Profiles.{
  ProfileStore, File, entries, missing, WriteEnd, written, failed, cancelled, ProfileError,
  new_profile_store, replaced, write, save, put_back, rolled_back, upsert, delete_found, delete,
  unreadable, not_json, not_object,
}
use sqllens.Profiles.PutBack.{Apart, put_back-same, put_back-AllGood, put_back-file}
use sqllens.Profiles.Good.{
  AllGood, no_more, read_entries-dump, insert-AllGood, without-AllGood, lookup-AllGood,
  read_entries-AllGood,
}

module _ {F : Type 0} (unit : F → Bool) where
  -- A write that ends while its caller waits.
  pub data IsAwaited : WriteEnd → Type 0 where
    was_written : IsAwaited written
    has_failed : IsAwaited failed

  -- The stores that a file gives, and that calls of `upsert` and `delete` make of them, when no
  -- caller is cancelled while it waits for the write.
  pub data Reached (file : File F) : ProfileStore F → Type 0 where
    loaded : Reached file (new_profile_store unit file)
    upserted :
        {s : ProfileStore F} (end : WriteEnd) (name : String) (profile : Profile F)
        → IsAwaited end
        → is_bounded unit profile ≡ true
        → Reached file s
        → Reached file (upsert end s name profile).0
    deleted :
        {s : ProfileStore F} (end : WriteEnd) (name : String)
        → IsAwaited end
        → Reached file s
        → Reached file (delete end s name).0

  abbrev reloaded : File F → Dict (Profile F)
  reloaded file = (new_profile_store unit file).profiles

  record Kept (file : File F) (s : ProfileStore F) : Type 0 where
    good : AllGood unit s.profiles
    same : (name : String) → lookup name (reloaded s.file) ≡ lookup name s.profiles
    untouched : s.invalid_profile_names ≡ true → s.file ≡ file
    flagged : s.invalid_profile_names ≡ (new_profile_store unit file).invalid_profile_names

  new_profile_store-Kept : (file : File F) → Kept file (new_profile_store unit file)
  unfolding new_profile_store
  new_profile_store-Kept missing = record {
    good = no_more;
    same = λ name. refl;
    untouched = λ h. refl;
    flagged = refl;
  }
  new_profile_store-Kept unreadable = record {
    good = no_more;
    same = λ name. refl;
    untouched = λ h. refl;
    flagged = refl;
  }
  new_profile_store-Kept not_json = record {
    good = no_more;
    same = λ name. refl;
    untouched = λ h. refl;
    flagged = refl;
  }
  new_profile_store-Kept not_object = record {
    good = no_more;
    same = λ name. refl;
    untouched = λ h. refl;
    flagged = refl;
  }
  new_profile_store-Kept (entries d) = record {
    good = read_entries-AllGood unit d;
    same = λ name. refl;
    untouched = λ h. refl;
    flagged = refl;
  }

  undone-Kept :
      (file : File F) (s : ProfileStore F) (name : String) (d : Dict (Profile F))
      → Kept file s
      → AllGood unit d
      → Apart name d s.profiles
      → Kept file (put_back name (lookup name s.profiles) (record s { profiles = d }))
  undone-Kept file s name d k g apart =
      let s' = record s { profiles = d } in
      let (f, i) = put_back-file name (lookup name s.profiles) s' in
      record {
        good = put_back-AllGood unit name (lookup name s.profiles) s' s.profiles refl k.good g;
        same = λ j.
            ap (λ (e : File F). lookup j (reloaded e)) f
            ∙ k.same j
            ∙ sym (put_back-same name (lookup name s.profiles) s' s.profiles refl apart j);
        untouched = λ h. f ∙ k.untouched (sym i ∙ h);
        flagged = i ∙ k.flagged;
      }

  replaced-Kept :
      (file : File F) (s : ProfileStore F) (d : Dict (Profile F))
      → Kept file s
      → AllGood unit d
      → s.invalid_profile_names ≡ false
      → Kept file (replaced (record s { profiles = d }))
  unfolding new_profile_store
  replaced-Kept file s d k g e = record {
    good = g;
    same = λ j. (read_entries-dump unit d g).0 j;
    untouched = λ h. cc (e, h);
    flagged = k.flagged;
  }

  attempt-Kept :
      (file : File F) (s : ProfileStore F) (end : WriteEnd) (name : String) (d : Dict (Profile F))
      → IsAwaited end
      → Kept file s
      → AllGood unit d
      → Apart name d s.profiles
      → Kept file
          (rolled_back
            (put_back name (lookup name s.profiles))
            (save end (record s { profiles = d }))).0
  unfolding save write rolled_back
  attempt-Kept file s end name d a k g apart =
      let P = λ (out : ProfileStore F × Result ProfileError (Unit {0})).
        Kept file (rolled_back (put_back name (lookup name s.profiles)) out).0 in
      if_cases P s.invalid_profile_names _ _ (λ e. undone-Kept file s name d k g apart)
        (λ e. ended end a e)
    where
      ended :
          (end : WriteEnd)
          → IsAwaited end
          → s.invalid_profile_names ≡ false
          → Kept file
              (rolled_back
                (put_back name (lookup name s.profiles))
                (write end (record s { profiles = d }))).0
      ended written was_written e = replaced-Kept file s d k g e
      ended failed has_failed e = undone-Kept file s name d k g apart
      ended cancelled a e = elim a [ ]

  Reached-Kept : {file : File F} {s : ProfileStore F} → Reached file s → Kept file s
  unfolding upsert delete
  Reached-Kept {file} loaded = new_profile_store-Kept file
  Reached-Kept {file} (upserted {s} end name profile a b m) =
      let k = Reached-Kept m in
      if_cases (λ (out : ProfileStore F × Result ProfileError (Unit {0})). Kept file out.0)
        (is_profile_name name) _ _
        (λ v.
          attempt-Kept file s end name (insert name profile s.profiles) a k
            (insert-AllGood unit s.profiles name profile v b k.good)
            (λ j e. lookup-insert name j profile s.profiles ∙ rw e refl))
        (λ _. k)
  Reached-Kept {file} (deleted {s} end name a m) =
      let k = Reached-Kept m in
      if_cases (λ (out : ProfileStore F × Result ProfileError (Unit {0})). Kept file out.0)
        (is_profile_name name) _ _ (λ v. found s k end a name (lookup name s.profiles) refl)
        (λ _. k)
    where
      found :
          (s : ProfileStore F)
          → Kept file s
          → (end : WriteEnd) → IsAwaited end
          → (name : String) (o : Option (Profile F)) → lookup name s.profiles ≡ o
          → Kept file (delete_found end s name o).0
      found s k end a name none e = k
      found s k end a name (some prior) e =
          subst
            (λ (o : Option (Profile F)).
              Kept file
                (rolled_back (put_back name o)
                  (save end (record s { profiles = without name s.profiles }))).0)
            e
            (attempt-Kept file s end name (without name s.profiles) a k
              (without-AllGood unit s.profiles name k.good)
              (λ j e. lookup-without name j s.profiles ∙ rw e refl))

  -- However the writes of `upsert` and `delete` ended, if no caller was cancelled while it waited for
  -- one: a store read anew from the file serves the same profile under every name as the running one,
  -- each of its profiles keeps to the bounds, and a file with a name that the reader refuses is as the
  -- operator left it.
  pub new_profile_store-Reached :
      {file : File F} {s : ProfileStore F}
      → Reached file s
      → ((name : String)
          → lookup name (new_profile_store unit s.file).profiles ≡ lookup name s.profiles)
        × ((name : String) (p : Profile F)
            → lookup name s.profiles ≡ some p
            → is_bounded unit p ≡ true)
        × ((new_profile_store unit file).invalid_profile_names ≡ true → s.file ≡ file)
  new_profile_store-Reached m =
      let k = Reached-Kept m in
      (
        k.same,
        λ name p e. (lookup-AllGood unit _ name p k.good e).1,
        λ h. k.untouched (k.flagged ∙ h),
      )

  -- Where the caller of `upsert` is cancelled while the file is written, a store that reads the file
  -- anew serves the new profile, and the running one the profile that it had.
  pub upsert-cancelled :
      {file : File F} {s : ProfileStore F} (name : String) (profile : Profile F)
      → Reached file s
      → is_profile_name name ≡ true
      → is_bounded unit profile ≡ true
      → s.invalid_profile_names ≡ false
      → (lookup name (upsert cancelled s name profile).0.profiles ≡ lookup name s.profiles)
        × (lookup name (new_profile_store unit (upsert cancelled s name profile).0.file).profiles
            ≡ some profile)
  unfolding upsert save write rolled_back new_profile_store
  upsert-cancelled {file} {s} name profile m v b e =
      let k = Reached-Kept m in
      let s' : ProfileStore F = replaced (record s { profiles = insert name profile s.profiles }) in
      let back =
        put_back-same name (lookup name s.profiles) s' s.profiles refl
          (λ j e. lookup-insert name j profile s.profiles ∙ rw e refl) name in
      let new =
        (read_entries-dump unit _ (insert-AllGood unit s.profiles name profile v b k.good)).0
          name in
      let stays = (put_back-file name (lookup name s.profiles) s').0 in
      let P = λ (out : ProfileStore F × Result ProfileError (Unit {0})).
        (lookup name out.0.profiles ≡ lookup name s.profiles)
        × (lookup name (new_profile_store unit out.0.file).profiles ≡ some profile) in
      let reads : lookup name (new_profile_store unit s'.file).profiles ≡ some profile =
        new ∙ lookup-insert name name profile s.profiles ∙ rw ((eq_iff name name).1 refl) refl in
      if_cases P (is_profile_name name) _ _
        (λ _.
          if_cases
            (λ (out : ProfileStore F × Result ProfileError (Unit {0})).
              P (rolled_back (put_back name (lookup name s.profiles)) out))
            s.invalid_profile_names _ _ (λ t. absurd (cc (sym t ∙ e)))
            (λ _. (
              back,
              ap (λ (f : File F). lookup name (new_profile_store unit f).profiles) stays ∙ reads,
            )))
        (λ n. absurd (cc (sym v ∙ n)))
