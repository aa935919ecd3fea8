-- ===== src/IdentityProvider/Htpasswd.antt =====
-- UpdateHTPasswd of provider/identityprovider/htpasswd.go with its two loops, which are those of
-- provider/identityprovider/htpasswd. Go ranges over a map in any order, which is a parameter.
pub mod Entries
pub mod Laws
use terraform_provider_ocm.Prelude.{
  String, Bool, not, ◌&&◌, ◌==◌, Option, List, [], ◌∷◌, ◌++◌, any, list_eq, if◌then◌else◌, Dict,
  contains_key, ok,
}
use terraform_provider_ocm.Common.Attribute.{value_eq}
use terraform_provider_ocm.Client.{Act, pure, send, some_or_fail, fail_unless, ◌>>=◌, ◌>>◌}
use terraform_provider_ocm.IdentityProvider.Users.{
  HtPasswdUser, ListedUser, HtPasswdUserWithId, get, user_list_to_string_maps,
}

pub data HtpasswdRequest : Type 0 where
  list_users : HtpasswdRequest
  delete_user : String → HtpasswdRequest  -- the identifier
  update_user : String → String → HtpasswdRequest  -- the identifier and the password
  add_user : String → String → HtpasswdRequest  -- the name and the password

-- The diagnostics of UpdateHTPasswd.
pub data HtpasswdError : Type 0 where
  no_user_id no_deletion no_patch : HtpasswdError

pub record HtpasswdApi : Type 0 where
  pub on_list : List HtpasswdRequest → Option (List ListedUser)
  pub on_delete : List HtpasswdRequest → String → Bool
  pub on_update : List HtpasswdRequest → String → String → Bool
  pub on_add : List HtpasswdRequest → String → String → Bool
  pub builds_password : String → Bool  -- `Build` with a password only
  pub builds_user : String → String → Bool  -- `Build` with a name and a password
  pub ordered : List HtpasswdRequest → Dict HtPasswdUserWithId → List String  -- the keys of a map

abbrev pub Action : Type 0 → Type 0
Action A = Act HtpasswdRequest HtpasswdError A

abbrev config_eq : HtPasswdUser → HtPasswdUser → Bool
config_eq a b = value_eq ◌==◌ a.username b.username && value_eq ◌==◌ a.password b.password

abbrev user_eq : HtPasswdUserWithId → HtPasswdUserWithId → Bool
user_eq a b = a.id == b.id && a.username == b.username && a.password == b.password

-- `slices.Contains`
abbrev is_removed : String → List String → Bool
is_removed name removed = any (λ other. other == name) removed

module _ (api : HtpasswdApi) where
  unfoldable pub fetch_map : List HtPasswdUser → Action (Dict HtPasswdUserWithId)
  unfolding send user_list_to_string_maps
  fetch_map users = do
    answer ← send list_users api.on_list
    listed ← some_or_fail answer no_user_id
    pure (user_list_to_string_maps listed users)

  unfoldable pub range : Dict HtPasswdUserWithId → Action (List String)
  range m h = (ok (api.ordered h m), h)

  unfoldable pub remove_user : String → Action (Unit {0})
  unfolding send
  remove_user id = do
    deleted ← send (delete_user id) (λ h. api.on_delete h id)
    fail_unless deleted no_deletion

  unfoldable pub change_user : String → String → Action (Unit {0})
  unfolding send
  change_user id password = do
    fail_unless (api.builds_password password) no_patch
    updated ← send (update_user id password) (λ h. api.on_update h id password)
    fail_unless updated no_patch

  unfoldable pub create_user : String → String → Action (Unit {0})
  unfolding send
  create_user name password = do
    fail_unless (api.builds_user name password) no_patch
    added ← send (add_user name password) (λ h. api.on_add h name password)
    fail_unless added no_patch

  -- The loop over the keys of the state's map, with the names removed so far.
  unfoldable pub delete_user_from_state :
      Dict HtPasswdUserWithId
      → Dict HtPasswdUserWithId
      → List String
      → List String
      → Action (List String)
  unfolding get remove_user
  delete_user_from_state state plan [] removed = pure removed
  delete_user_from_state state plan (name ∷ names) removed =
      if (get name plan).username == ""
      then (do
        remove_user (get name state).id
        delete_user_from_state state plan names (removed ++ name ∷ []))
      else delete_user_from_state state plan names removed

  unfoldable pub patch_or_add :
      Dict HtPasswdUserWithId → Dict HtPasswdUserWithId → List String → String → Action (Unit {0})
  unfolding get contains_key change_user create_user
  patch_or_add state plan removed name =
      if contains_key name state
      then (if not (user_eq (get name plan) (get name state)) && not (is_removed name removed)
          then change_user (get name plan).id (get name plan).password
          else pure tt)
      else (if not (is_removed name removed)
          then create_user name (get name plan).password
          else pure tt)

  unfoldable pub patch_or_add_user_in_state :
      Dict HtPasswdUserWithId
      → Dict HtPasswdUserWithId
      → List String
      → List String
      → Action (Unit {0})
  unfolding patch_or_add
  patch_or_add_user_in_state state plan removed [] = pure tt
  patch_or_add_user_in_state state plan removed (name ∷ names) = do
    patch_or_add state plan removed name
    patch_or_add_user_in_state state plan removed names

  unfoldable pub update_htpasswd : List HtPasswdUser → List HtPasswdUser → Action (Unit {0})
  unfolding fetch_map range delete_user_from_state patch_or_add_user_in_state
  update_htpasswd state plan = if list_eq config_eq state plan then pure tt else do
    state_map ← fetch_map state
    plan_map ← fetch_map plan
    state_names ← range state_map
    removed ← delete_user_from_state state_map plan_map state_names []
    plan_names ← range plan_map
    patch_or_add_user_in_state state_map plan_map removed plan_names
