-- ===== src/IdentityProvider/Users/Laws.antt =====
-- Theorems on the users of an htpasswd identity provider.
use terraform_provider_ocm.Prelude.{
  String, false, ◌&&◌, ◌≡◌, ◌≢◌, ◌↔◌, refl, ap, ◌∙◌, inl, inr, Option, none, some, List, [], ◌∷◌,
  ◌==◌, any, is_some, if◌then◌else◌, Dict, lookup, contains_key, eq_iff, arith, All, Option-cases,
  Bool-cases,
}
use terraform_provider_ocm.IdentityProvider.Users.{
  HtPasswdUser, name_of, password_in, find_duplicate, unique_username_validator, ListedUser,
  HtPasswdUserWithId, put, no_user, get, add_listed, set_passwords, keep_named,
  user_list_to_string_maps,
}

lookup-put :
    (k j : String) (v : HtPasswdUserWithId) (m : Dict HtPasswdUserWithId)
    → lookup j (put k v m) ≡ (if k == j then some v else lookup j m)
unfolding put lookup
lookup-put k j v [] = refl
lookup-put k j v ((i, w) ∷ m) =
    ground (arith, eq_iff k j, eq_iff i k, eq_iff i j, lookup-put k j v m)

get-put :
    (k j : String) (v : HtPasswdUserWithId) (m : Dict HtPasswdUserWithId)
    → get j (put k v m) ≡ (if k == j then v else get j m)
unfolding get
get-put k j v m = ground (arith, lookup-put k j v m)

-- The last user of that name that the API lists, or what there was before.
abbrev pub listed_as : String → List ListedUser → HtPasswdUserWithId → HtPasswdUserWithId
listed_as k [] before = before
listed_as k (user ∷ users) before = listed_as k users (
    if user.username == k
    then record { id = user.id; username = user.username; password = "" }
    else before)

get-add_listed :
    (k : String) (listed : List ListedUser) (m : Dict HtPasswdUserWithId)
    → get k (add_listed listed m) ≡ listed_as k listed (get k m)
unfolding add_listed
get-add_listed k [] m = refl
get-add_listed k (user ∷ users) m =
    get-add_listed k users _ ∙ ap (λ before. listed_as k users before) (get-put user.username k _ m)

-- The last password that the list gives this name.
abbrev pub password_of : String → List HtPasswdUser → Option String
password_of k [] = none
password_of k (user ∷ users) = elim (password_of k users) [
  | none ↦ if name_of user == k then some (password_in user) else none
  | some password ↦ some password
]

abbrev pub with_password : HtPasswdUserWithId → String → HtPasswdUserWithId
with_password user password = record { id = user.id; username = user.username; password = password }

lookup-set_passwords :
    (k : String) (users : List HtPasswdUser) (m : Dict HtPasswdUserWithId)
    → lookup k (set_passwords users m) ≡ elim (password_of k users) [
      | none ↦ lookup k m
      | some password ↦ some (with_password (get k m) password)
    ]
unfolding set_passwords
lookup-set_passwords k [] m = refl
lookup-set_passwords k (user ∷ users) m =
    let new = with_password (get (name_of user) m) (password_in user) in
    elim (Option-cases (password_of k users)) [
      | inl unset ↦
          rw
            (
              lookup-set_passwords k users (put (name_of user) new m),
              unset,
              lookup-put (name_of user) k new m,
            )
            (ground (arith, eq_iff (name_of user) k))
      | inr (p, later) ↦
          rw
            (
              lookup-set_passwords k users (put (name_of user) new m),
              later,
              get-put (name_of user) k new m,
            )
            (ground (arith, eq_iff (name_of user) k))
    ]

lookup-keep_named :
    (k : String) (found : Dict HtPasswdUserWithId) (users : List HtPasswdUser)
    (final : Dict HtPasswdUserWithId)
    → lookup k (keep_named found users final) ≡ (
        if any (λ user. name_of user == k) users && contains_key k found
        then some (get k found)
        else lookup k final)
unfolding keep_named
lookup-keep_named k found [] final = refl
lookup-keep_named k found (user ∷ users) final =
    rw (lookup-keep_named k found users _) (elim (Bool-cases (contains_key (name_of user) found)) [
      | inl here ↦
          rw (here, lookup-put (name_of user) k (get (name_of user) found) final)
            (ground (arith, eq_iff (name_of user) k))
      | inr absent ↦ rw absent (ground (arith, eq_iff (name_of user) k))
    ])

names-password_of :
    (k : String) (users : List HtPasswdUser)
    → any (λ user. name_of user == k) users ≡ is_some (password_of k users)
names-password_of k [] = refl
names-password_of k (user ∷ users) = ground (arith, names-password_of k users)

pub contains_key-lookup :
    (k : String) (m : Dict HtPasswdUserWithId) → contains_key k m ≡ is_some (lookup k m)
unfolding contains_key lookup
contains_key-lookup k [] = refl
contains_key-lookup k ((j, v) ∷ m) = ground (arith, contains_key-lookup k m)

pub get-lookup :
    (k : String) (m : Dict HtPasswdUserWithId) (user : HtPasswdUserWithId)
    → lookup k m ≡ some user
    → get k m ≡ user
unfolding get
get-lookup k m user e = rw (get, e) refl

-- user_list_to_string_maps maps exactly the names of the list. A name goes to the identifier and
-- the name of the last user of that name that the API lists, both empty where it lists none, and
-- to the last password that the list gives the name.
pub lookup-user_list_to_string_maps :
    (k : String) (listed : List ListedUser) (users : List HtPasswdUser)
    → lookup k (user_list_to_string_maps listed users) ≡ elim (password_of k users) [
      | none ↦ none
      | some password ↦ some (with_password (listed_as k listed no_user) password)
    ]
unfolding user_list_to_string_maps lookup get
lookup-user_list_to_string_maps k listed users =
    let found = set_passwords users (add_listed listed []) in
    elim (Option-cases (password_of k users)) [
      | inl unset ↦ rw (lookup-keep_named k found users [], names-password_of k users, unset) refl
      | inr (p, later) ↦
          rw
            (
              lookup-keep_named k found users [],
              names-password_of k users,
              contains_key-lookup k found,
              later,
            )
            (let at = lookup-set_passwords k users (add_listed listed []) ∙ rw later refl in
              rw
                (
                  at,
                  get-lookup k found (with_password (get k (add_listed listed [])) p) at,
                  get-add_listed k listed [],
                )
                refl)
    ]

-- No name of the list is among these, or twice in it.
abbrev pub Unused : String → List HtPasswdUser → Type 0
Unused name users = All (λ user. name_of user ≢ name) users

abbrev pub IsUnique : List HtPasswdUser → Type 0
IsUnique [] = Unit
IsUnique (user ∷ users) = Unused (name_of user) users × IsUnique users

abbrev Fresh : List String → List HtPasswdUser → Type 0
Fresh seen users = All (λ user. any (λ name. name == name_of user) seen ≡ false) users

Fresh-split :
    (name : String) (seen : List String) (users : List HtPasswdUser)
    → Fresh (name ∷ seen) users
    → Unused name users × Fresh seen users
Fresh-split name seen [] fresh = (tt, tt)
Fresh-split name seen (user ∷ users) (first, rest) =
    let (unused, fresh) = Fresh-split name seen users rest in
    ((ground (arith, eq_iff name (name_of user)), unused), (ground arith, fresh))

Fresh-join :
    (name : String) (seen : List String) (users : List HtPasswdUser)
    → Unused name users
    → Fresh seen users
    → Fresh (name ∷ seen) users
Fresh-join name seen [] unused fresh = tt
Fresh-join name seen (user ∷ users) (differs, unused) (first, fresh) =
    (ground (arith, eq_iff name (name_of user)), Fresh-join name seen users unused fresh)

find_duplicate-none :
    (seen : List String) (users : List HtPasswdUser)
    → find_duplicate seen users ≡ none
    → Fresh seen users × IsUnique users
unfolding find_duplicate
find_duplicate-none seen [] none_found = (tt, tt)
find_duplicate-none seen (user ∷ users) none_found =
    elim (Bool-cases (any (λ name. name == name_of user) seen)) [
      | inl again ↦ cc
      | inr first ↦
          let (fresh, unique) = find_duplicate-none (name_of user ∷ seen) users (ground arith) in
          let (unused, others) = Fresh-split (name_of user) seen users fresh in
          ((first, others), (unused, unique))
    ]

find_duplicate_unique :
    (seen : List String) (users : List HtPasswdUser)
    → Fresh seen users
    → IsUnique users
    → find_duplicate seen users ≡ none
unfolding find_duplicate
find_duplicate_unique seen [] fresh unique = refl
find_duplicate_unique seen (user ∷ users) (first, others) (unused, unique) =
    rw
      (
        first,
        find_duplicate_unique (name_of user ∷ seen) users
            (Fresh-join (name_of user) seen users unused others) unique,
      )
      refl

Fresh-nil : (users : List HtPasswdUser) → Fresh [] users
Fresh-nil [] = tt
Fresh-nil (user ∷ users) = (refl, Fresh-nil users)

-- The validator of the list accepts it exactly where no two of its users have one name.
pub unique_username_validator_iff :
    (users : List HtPasswdUser) → (unique_username_validator users ≡ none) ↔ IsUnique users
unfolding unique_username_validator
unique_username_validator_iff users =
    ((λ e. (find_duplicate-none [] users e).1), find_duplicate_unique [] users (Fresh-nil users))
