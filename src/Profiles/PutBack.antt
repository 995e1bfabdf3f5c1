-- ===== src/Profiles/PutBack.antt =====
-- `put_back` of Profiles: what the rollback of a failed write restores.
use sqllens.Prelude.{String, ◌≡◌, refl, ◌∙◌, Bool, false, Option, none, some, arith, str_eq, eq_iff}
use sqllens.Prelude.Dict.{Dict, lookup, lookup-insert, lookup-without}
use sqllens.Profiles.Entries.{Profile}
use sqllens.Profiles.{ProfileStore, put_back}
use sqllens.Profiles.Good.{AllGood, insert-AllGood, without-AllGood, lookup-AllGood}

module _ {F : Type 0} where
  -- The dictionaries differ at the name at most.
  abbrev pub Apart : String → Dict (Profile F) → Dict (Profile F) → Type 0
  Apart name d e = (j : String) → str_eq name j ≡ false → lookup j d ≡ lookup j e

  pub put_back-same :
      (name : String) (o : Option (Profile F)) (s : ProfileStore F) (d : Dict (Profile F))
      → lookup name d ≡ o
      → Apart name s.profiles d
      → (j : String) → lookup j (put_back name o s).profiles ≡ lookup j d
  unfolding put_back
  put_back-same name none s d e apart j =
      lookup-without name j s.profiles ∙ ground (arith, apart j, eq_iff name j, e)
  put_back-same name (some prior) s d e apart j =
      lookup-insert name j prior s.profiles ∙ ground (arith, apart j, eq_iff name j, e)

  pub put_back-file :
      (name : String) (o : Option (Profile F)) (s : ProfileStore F)
      → ((put_back name o s).file ≡ s.file)
        × ((put_back name o s).invalid_profile_names ≡ s.invalid_profile_names)
  unfolding put_back
  put_back-file name none s = (refl, refl)
  put_back-file name (some prior) s = (refl, refl)

module _ {F : Type 0} (unit : F → Bool) where
  pub put_back-AllGood :
      (name : String) (o : Option (Profile F)) (s : ProfileStore F) (d : Dict (Profile F))
      → lookup name d ≡ o
      → AllGood unit d
      → AllGood unit s.profiles
      → AllGood unit (put_back name o s).profiles
  unfolding put_back
  put_back-AllGood name none s d e g h = without-AllGood unit s.profiles name h
  put_back-AllGood name (some prior) s d e g h =
      let (v, b) = lookup-AllGood unit d name prior g e in
      insert-AllGood unit s.profiles name prior v b h
