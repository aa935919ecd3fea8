-- ===== src/IdentityProvider/Users.antt =====
-- The users of an htpasswd identity provider (provider/identityprovider/htpasswd.go): the test for
-- unique names, and htPasswdUserListToStringMaps, which joins the users of a state or a plan with
-- those that the API lists.
pub mod Laws
use terraform_provider_ocm.Prelude.{
  String, Bool, Option, none, some, List, [], ◌∷◌, ◌==◌, any, if◌then◌else◌, Dict, lookup,
  contains_key,
}
use terraform_provider_ocm.Common.Attribute.{Value, value_string}

pub record HtPasswdUser : Type 0 where
  pub username : Value String
  pub password : Value String

abbrev pub name_of : HtPasswdUser → String
name_of user = value_string user.username

abbrev pub password_in : HtPasswdUser → String
password_in user = value_string user.password

-- The loop of uniqueUsernameValidator: the first name that comes again, which is its error.
unfoldable pub find_duplicate : List String → List HtPasswdUser → Option String
find_duplicate seen [] = none
find_duplicate seen (user ∷ users) =
    let later = find_duplicate (name_of user ∷ seen) users in
    if any (λ name. name == name_of user) seen then some (name_of user) else later

unfoldable pub unique_username_validator : List HtPasswdUser → Option String
unfolding find_duplicate
unique_username_validator users = find_duplicate [] users

-- A user as the API lists it.
pub record ListedUser : Type 0 where
  pub id : String
  pub username : String

pub record HtPasswdUserWithId : Type 0 where
  pub id : String
  pub username : String
  pub password : String

-- `m[k] = v`
unfoldable pub put : String → HtPasswdUserWithId → Dict HtPasswdUserWithId → Dict HtPasswdUserWithId
put k v [] = (k, v) ∷ []
put k v ((j, w) ∷ m) = if j == k then (k, v) ∷ m else (j, w) ∷ put k v m

abbrev pub no_user : HtPasswdUserWithId
no_user = record { id = ""; username = ""; password = "" }

-- `m[k]`, the zero value where the key is missing.
unfoldable pub get : String → Dict HtPasswdUserWithId → HtPasswdUserWithId
unfolding lookup
get k m = elim (lookup k m) [ none ↦ no_user | some user ↦ user ]

unfoldable pub add_listed : List ListedUser → Dict HtPasswdUserWithId → Dict HtPasswdUserWithId
unfolding put
add_listed [] m = m
add_listed (user ∷ users) m =
    add_listed users
      (put user.username (record { id = user.id; username = user.username; password = "" }) m)

unfoldable pub set_passwords : List HtPasswdUser → Dict HtPasswdUserWithId → Dict HtPasswdUserWithId
unfolding put get
set_passwords [] m = m
set_passwords (user ∷ users) m =
    let name = name_of user in
    set_passwords users (
      put name
        (record {
          id = (get name m).id;
          username = (get name m).username;
          password = password_in user;
        })
        m)

-- The users of the API that the list does not name are dropped.
unfoldable pub keep_named :
    Dict HtPasswdUserWithId → List HtPasswdUser → Dict HtPasswdUserWithId → Dict HtPasswdUserWithId
unfolding put get contains_key
keep_named found [] final = final
keep_named found (user ∷ users) final =
    let name = name_of user in
    keep_named found users
      (if contains_key name found then put name (get name found) final else final)

unfoldable pub user_list_to_string_maps :
    List ListedUser → List HtPasswdUser → Dict HtPasswdUserWithId
unfolding add_listed set_passwords keep_named
user_list_to_string_maps listed users =
    keep_named (set_passwords users (add_listed listed [])) users []
