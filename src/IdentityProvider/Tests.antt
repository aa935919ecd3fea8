-- ===== src/IdentityProvider/Tests.antt =====
-- Users of an htpasswd identity provider, and the theorems at them.
use terraform_provider_ocm.Prelude.{
  String, ◌≡◌, ◌↔◌, refl, true, none, some, List, [], ◌∷◌, Dict, lookup, contains_key, All, eq_refl,
  map, ok, arith,
}
use terraform_provider_ocm.Common.Attribute.{known}
use terraform_provider_ocm.IdentityProvider.Users.{
  HtPasswdUser, ListedUser, HtPasswdUserWithId, no_user, unique_username_validator,
  user_list_to_string_maps,
}
use terraform_provider_ocm.IdentityProvider.Users.Laws.{
  IsUnique, unique_username_validator_iff, password_of, listed_as, with_password,
  lookup-user_list_to_string_maps,
}
use terraform_provider_ocm.IdentityProvider.Htpasswd.{
  HtpasswdApi, list_users, delete_user, update_user, add_user, update_htpasswd,
}
use terraform_provider_ocm.IdentityProvider.Htpasswd.Entries.{AllProper}
use terraform_provider_ocm.IdentityProvider.Htpasswd.Laws.{update_htpasswd-AllProper}

abbrev user : String → String → HtPasswdUser
user name password = record { username = known name; password = known password }

abbrev state_users : List HtPasswdUser
state_users = user "ann" "a1" ∷ user "bob" "b1" ∷ []

abbrev plan_users : List HtPasswdUser
plan_users = user "bob" "b2" ∷ user "eve" "e1" ∷ []

abbrev listed_users : List ListedUser
listed_users = record { id = "1"; username = "ann" } ∷ record { id = "2"; username = "bob" } ∷ []

abbrev keys : Dict HtPasswdUserWithId → List String
keys = map (λ e. e.0)

abbrev api : HtpasswdApi
api = record {
  on_list = λ h. some listed_users;
  on_delete = λ h id. true;
  on_update = λ h id password. true;
  on_add = λ h name password. true;
  builds_password = λ password. true;
  builds_user = λ name password. true;
  ordered = λ h m. keys m;
}

-- One user is deleted, one is changed and one is added.
updates : update_htpasswd api state_users plan_users [] ≡ (
  ok tt,
  add_user "eve" "e1" ∷ update_user "2" "b2" ∷ delete_user "1" ∷ list_users ∷ list_users ∷ [],
)
unfolding update_htpasswd
updates = refl

All-weaken_key :
    (k : String) (v : HtPasswdUserWithId) (m : Dict HtPasswdUserWithId) (ks : List String)
    → All (λ j. contains_key j m ≡ true) ks
    → All (λ j. contains_key j ((k, v) ∷ m) ≡ true) ks
unfolding contains_key
All-weaken_key k v m [] keyed = tt
All-weaken_key k v m (j ∷ ks) (here, keyed) = (ground (arith, here), All-weaken_key k v m ks keyed)

keys-Ranges : (m : Dict HtPasswdUserWithId) → All (λ k. contains_key k m ≡ true) (keys m)
unfolding contains_key
keys-Ranges [] = tt
keys-Ranges ((k, v) ∷ m) = (rw (eq_refl k) refl, All-weaken_key k v m (keys m) (keys-Ranges m))

update_htpasswd-AllProper_example :
    AllProper api state_users plan_users (update_htpasswd api state_users plan_users []).1
update_htpasswd-AllProper_example =
    update_htpasswd-AllProper api (λ h m. keys-Ranges m) state_users plan_users

unique_username_validator_iff_example :
    (unique_username_validator state_users ≡ none) ↔ IsUnique state_users
unique_username_validator_iff_example = unique_username_validator_iff state_users

lookup-user_list_to_string_maps_example :
    lookup "bob" (user_list_to_string_maps listed_users plan_users)
    ≡ elim (password_of "bob" plan_users) [
      | none ↦ none
      | some password ↦ some (with_password (listed_as "bob" listed_users no_user) password)
    ]
lookup-user_list_to_string_maps_example =
    lookup-user_list_to_string_maps "bob" listed_users plan_users
