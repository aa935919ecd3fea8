-- ===== src/IdentityProvider/Htpasswd/Entries.antt =====
-- The requests that an update of an htpasswd identity provider may send, and the entries of the
-- maps that it works on.
use terraform_provider_ocm.Prelude.{
  String, true, false, ◌≡◌, ◌⊎◌, refl, sym, ap, ◌∙◌, inl, inr, none, some, List, is_some, Dict,
  contains_key, arith, All, Option-cases,
}
use terraform_provider_ocm.IdentityProvider.Users.{
  HtPasswdUser, ListedUser, HtPasswdUserWithId, get, no_user, user_list_to_string_maps,
}
use terraform_provider_ocm.IdentityProvider.Users.Laws.{
  password_of, listed_as, with_password, lookup-user_list_to_string_maps, contains_key-lookup,
  get-lookup,
}
use terraform_provider_ocm.IdentityProvider.Htpasswd.{
  HtpasswdRequest, list_users, delete_user, update_user, add_user, HtpasswdApi,
}

contains_key-maps :
    (k : String) (listed : List ListedUser) (users : List HtPasswdUser)
    → contains_key k (user_list_to_string_maps listed users) ≡ is_some (password_of k users)
contains_key-maps k listed users =
    contains_key-lookup k (user_list_to_string_maps listed users)
    ∙ rw (lookup-user_list_to_string_maps k listed users)
        (elim (Option-cases (password_of k users)) [
          | inl unset ↦ rw unset refl
          | inr (p, given) ↦ rw given refl
        ])

get-maps :
    (k : String) (listed : List ListedUser) (users : List HtPasswdUser) (p : String)
    → password_of k users ≡ some p
    → get k (user_list_to_string_maps listed users) ≡ with_password (listed_as k listed no_user) p
get-maps k listed users p given =
    get-lookup k (user_list_to_string_maps listed users)
      (with_password (listed_as k listed no_user) p)
      (lookup-user_list_to_string_maps k listed users ∙ rw given refl)

module _ (api : HtpasswdApi) where
  -- A range goes over keys of the map.
  abbrev pub Ranges : Type 0
  Ranges =
      (h : List HtpasswdRequest) (m : Dict HtPasswdUserWithId)
      → All (λ k. contains_key k m ≡ true) (api.ordered h m)

  -- The API has answered with these users.
  abbrev pub Lists : List ListedUser → Type 0
  Lists listed = (h : List HtpasswdRequest) × (api.on_list h ≡ some listed)

  module _ (state plan : List HtPasswdUser) where
    abbrev pub IsProper : HtpasswdRequest → Type 0
    IsProper list_users = Unit
    IsProper (delete_user id) =
        (name : String) × (listed : List ListedUser) × Lists listed
        × (is_some (password_of name state) ≡ true)
        × (id ≡ (listed_as name listed no_user).id)
        × ((password_of name plan ≡ none)
            ⊎ ((later : List ListedUser) × Lists later
                × ((listed_as name later no_user).username ≡ "")))
    IsProper (update_user id password) =
        (name : String) × (listed : List ListedUser) × Lists listed
        × (is_some (password_of name state) ≡ true)
        × (id ≡ (listed_as name listed no_user).id)
        × (password_of name plan ≡ some password)
    IsProper (add_user name password) =
        (password_of name state ≡ none) × (password_of name plan ≡ some password)

    abbrev pub AllProper : List HtpasswdRequest → Type 0
    AllProper = All IsProper

  abbrev pub Fetched : List HtPasswdUser → Dict HtPasswdUserWithId → Type 0
  Fetched users m =
      (listed : List ListedUser) × Lists listed × (m ≡ user_list_to_string_maps listed users)

  -- The entry of a name with this password, and that a key has one.
  pub Fetched-entry :
      (users : List HtPasswdUser) (m : Dict HtPasswdUserWithId) (name p : String)
      → Fetched users m
      → password_of name users ≡ some p
      → (listed : List ListedUser) × Lists listed
        × (get name m ≡ with_password (listed_as name listed no_user) p)
  Fetched-entry users m name p (listed, answered, same) given =
      (listed, answered, rw same (get-maps name listed users p given))

  pub Fetched-given :
      (users : List HtPasswdUser) (m : Dict HtPasswdUserWithId) (name : String)
      → Fetched users m
      → contains_key name m ≡ true
      → (p : String) × (password_of name users ≡ some p)
  Fetched-given users m name (listed, answered, same) here =
      elim (Option-cases (password_of name users)) [
        | inl unset ↦
            ground
              (arith, sym here ∙ ap (contains_key name) same ∙ contains_key-maps name listed users)
        | inr given ↦ given
      ]

  pub Fetched-absent :
      (users : List HtPasswdUser) (m : Dict HtPasswdUserWithId) (name : String)
      → Fetched users m
      → contains_key name m ≡ false
      → password_of name users ≡ none
  Fetched-absent users m name (listed, answered, same) absent =
      elim (Option-cases (password_of name users)) [
        | inl unset ↦ unset
        | inr (p, given) ↦
            ground (
              arith,
              sym absent ∙ ap (contains_key name) same ∙ contains_key-maps name listed users,
            )
      ]
