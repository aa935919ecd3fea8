-- ===== src/IdentityProvider/Htpasswd/Laws.antt =====
-- Theorems on the update of an htpasswd identity provider.
use terraform_provider_ocm.Prelude.{
  String, true, false, ◌≡◌, refl, sym, ap, ◌∙◌, inl, inr, some, List, [], ◌∷◌, ◌++◌, ◌==◌, Dict,
  contains_key, eq_iff, All, Option-cases, Bool-cases,
}
use terraform_provider_ocm.Client.{pure, send}
use terraform_provider_ocm.Client.Logic.{Ensures, Any, >>=-Ensures, if-Ensures}
use terraform_provider_ocm.IdentityProvider.Users.{HtPasswdUser, HtPasswdUserWithId, get}
use terraform_provider_ocm.IdentityProvider.Users.Laws.{password_of}
use terraform_provider_ocm.IdentityProvider.Htpasswd.{
  delete_user, update_user, add_user, HtpasswdApi, fetch_map, range, remove_user, change_user,
  create_user, delete_user_from_state, patch_or_add, patch_or_add_user_in_state, update_htpasswd,
}
use terraform_provider_ocm.IdentityProvider.Htpasswd.Entries.{
  Ranges, IsProper, AllProper, Fetched, Fetched-entry, Fetched-given, Fetched-absent,
}

module _ (api : HtpasswdApi) where
  module _ (state plan : List HtPasswdUser) where
    fetch_map-Ensures :
        (users : List HtPasswdUser)
        → Ensures (AllProper api state plan) (fetch_map api users) (Fetched api users)
    unfolding fetch_map send
    fetch_map-Ensures users h p = elim (Option-cases (api.on_list h)) [
      | inl unanswered ↦ rw unanswered ((tt, p), tt)
      | inr (listed, e) ↦ rw e ((tt, p), (listed, (h, e), refl))
    ]

    remove_user-Ensures :
        (id : String)
        → IsProper api state plan (delete_user id)
        → Ensures (AllProper api state plan) (remove_user api id) Any
    unfolding remove_user send
    remove_user-Ensures id proper h p = elim (Bool-cases (api.on_delete h id)) [
      | inl good ↦ rw good ((proper, p), tt)
      | inr bad ↦ rw bad ((proper, p), tt)
    ]

    change_user-Ensures :
        (id password : String)
        → IsProper api state plan (update_user id password)
        → Ensures (AllProper api state plan) (change_user api id password) Any
    unfolding change_user send
    change_user-Ensures id password proper h p = elim (Bool-cases (api.builds_password password)) [
      | inr unbuilt ↦ rw unbuilt (p, tt)
      | inl built ↦ rw built (elim (Bool-cases (api.on_update h id password)) [
        | inl good ↦ rw good ((proper, p), tt)
        | inr bad ↦ rw bad ((proper, p), tt)
      ])
    ]

    create_user-Ensures :
        (name password : String)
        → IsProper api state plan (add_user name password)
        → Ensures (AllProper api state plan) (create_user api name password) Any
    unfolding create_user send
    create_user-Ensures name password proper h p =
        elim (Bool-cases (api.builds_user name password)) [
          | inr unbuilt ↦ rw unbuilt (p, tt)
          | inl built ↦ rw built (elim (Bool-cases (api.on_add h name password)) [
            | inl good ↦ rw good ((proper, p), tt)
            | inr bad ↦ rw bad ((proper, p), tt)
          ])
        ]

    range-Ensures :
        (m : Dict HtPasswdUserWithId)
        → Ranges api
        → Ensures (AllProper api state plan) (range api m) (All (λ k. contains_key k m ≡ true))
    unfolding range
    range-Ensures m ranges h p = (p, ranges h m)

    module _ (state_map plan_map : Dict HtPasswdUserWithId)
        (from_state : Fetched api state state_map) (from_plan : Fetched api plan plan_map) where
      delete-IsProper :
          (name : String)
          → contains_key name state_map ≡ true
          → ((get name plan_map).username == "") ≡ true
          → IsProper api state plan (delete_user (get name state_map).id)
      delete-IsProper name here empty =
          let (p, given) = Fetched-given api state state_map name from_state here in
          let (listed, answered, e) = Fetched-entry api state state_map name p from_state given in
          (
            name,
            listed,
            answered,
            rw given refl,
            ap (λ u. u.id) e,
            elim (Option-cases (password_of name plan)) [
              | inl dropped ↦ inl dropped
              | inr (q, planned) ↦
                  let (later, answers, f) =
                    Fetched-entry api plan plan_map name q from_plan planned in
                  inr (
                    later,
                    answers,
                    sym (ap (λ u. u.username) f) ∙ (eq_iff (get name plan_map).username "").0 empty,
                  )
            ],
          )

      change-IsProper :
          (name : String)
          → contains_key name state_map ≡ true
          → contains_key name plan_map ≡ true
          → IsProper api state plan
              (update_user (get name plan_map).id (get name plan_map).password)
      change-IsProper name here planned =
          let (p, given) = Fetched-given api state state_map name from_state here in
          let (q, wanted) = Fetched-given api plan plan_map name from_plan planned in
          let (listed, answered, e) = Fetched-entry api plan plan_map name q from_plan wanted in
          (
            name,
            listed,
            answered,
            rw given refl,
            ap (λ u. u.id) e,
            wanted ∙ ap (λ u. some u.password) (sym e),
          )

      create-IsProper :
          (name : String)
          → contains_key name state_map ≡ false
          → contains_key name plan_map ≡ true
          → IsProper api state plan (add_user name (get name plan_map).password)
      create-IsProper name absent planned =
          let (q, wanted) = Fetched-given api plan plan_map name from_plan planned in
          let (listed, answered, e) = Fetched-entry api plan plan_map name q from_plan wanted in
          (
            Fetched-absent api state state_map name from_state absent,
            wanted ∙ ap (λ u. some u.password) (sym e),
          )

      delete_user_from_state-Ensures :
          (names removed : List String)
          → All (λ k. contains_key k state_map ≡ true) names
          → Ensures
              (AllProper api state plan)
              (delete_user_from_state api state_map plan_map names removed)
              Any
      unfolding delete_user_from_state
      delete_user_from_state-Ensures [] removed known h p = (p, tt)
      delete_user_from_state-Ensures (name ∷ names) removed (here, known) h p =
          elim (Bool-cases ((get name plan_map).username == "")) [
            | inl empty ↦ rw empty (
                >>=-Ensures (AllProper api state plan) Any Any
                  (remove_user api (get name state_map).id) _
                  (remove_user-Ensures _ (delete-IsProper name here empty))
                  (λ u _. delete_user_from_state-Ensures names (removed ++ name ∷ []) known) h p)
            | inr kept ↦ rw kept (delete_user_from_state-Ensures names removed known h p)
          ]

      patch_or_add-Ensures :
          (removed : List String) (name : String)
          → contains_key name plan_map ≡ true
          → Ensures
              (AllProper api state plan)
              (patch_or_add api state_map plan_map removed name)
              Any
      unfolding patch_or_add
      patch_or_add-Ensures removed name planned = elim (Bool-cases (contains_key name state_map)) [
        | inl here ↦ rw here (
            if-Ensures (AllProper api state plan) Any _ _ (pure tt)
              (change_user-Ensures _ _ (change-IsProper name here planned)) (λ h p. (p, tt)))
        | inr absent ↦ rw absent (
            if-Ensures (AllProper api state plan) Any _ _ (pure tt)
              (create_user-Ensures name _ (create-IsProper name absent planned)) (λ h p. (p, tt)))
      ]

      patch_or_add_user_in_state-Ensures :
          (removed names : List String)
          → All (λ k. contains_key k plan_map ≡ true) names
          → Ensures
              (AllProper api state plan)
              (patch_or_add_user_in_state api state_map plan_map removed names)
              Any
      unfolding patch_or_add_user_in_state
      patch_or_add_user_in_state-Ensures removed [] planned h p = (p, tt)
      patch_or_add_user_in_state-Ensures removed (name ∷ names) (first, planned) h p =
          >>=-Ensures (AllProper api state plan) Any Any
            (patch_or_add api state_map plan_map removed name) _
            (patch_or_add-Ensures removed name first)
            (λ u _. patch_or_add_user_in_state-Ensures removed names planned) h p

    update_htpasswd-Ensures :
        Ranges api → Ensures (AllProper api state plan) (update_htpasswd api state plan) Any
    unfolding update_htpasswd
    update_htpasswd-Ensures ranges =
        if-Ensures (AllProper api state plan) Any _ (pure tt) _ (λ h p. (p, tt))
          (>>=-Ensures (AllProper api state plan) (Fetched api state) Any (fetch_map api state) _
            (fetch_map-Ensures state)
            (λ state_map from_state.
              >>=-Ensures (AllProper api state plan) (Fetched api plan) Any (fetch_map api plan) _
                (fetch_map-Ensures plan)
                (λ plan_map from_plan.
                  >>=-Ensures (AllProper api state plan)
                    (All (λ k. contains_key k state_map ≡ true)) Any (range api state_map) _
                    (range-Ensures state_map ranges)
                    (λ names known.
                      >>=-Ensures (AllProper api state plan) Any Any
                        (delete_user_from_state api state_map plan_map names []) _
                        (delete_user_from_state-Ensures state_map plan_map from_state from_plan
                          names [] known)
                        (λ removed _.
                          >>=-Ensures (AllProper api state plan)
                            (All (λ k. contains_key k plan_map ≡ true)) Any (range api plan_map) _
                            (range-Ensures plan_map ranges)
                            (λ wanted planned.
                              patch_or_add_user_in_state-Ensures state_map plan_map from_state
                                from_plan removed wanted planned))))))

-- With ranges that go over keys of their maps: every request that update_htpasswd sends, whatever
-- the API answers and in whatever order the maps are gone through, is a listing of the users or
-- proper. A deletion is of a user that the state names, and the plan does not name it or a listing
-- has no user of its name, or a last one with the empty name. A change is of a user that the state
-- names, to the password of the plan. Either is sent under the identifier of the last user of that
-- name in a listing that the API answered, or under the empty identifier where that listing has no
-- user of the name. An added user is named by the plan and not by the state, and has the plan's
-- password.
pub update_htpasswd-AllProper :
    (api : HtpasswdApi)
    → Ranges api
    → (state plan : List HtPasswdUser)
    → AllProper api state plan (update_htpasswd api state plan []).1
update_htpasswd-AllProper api ranges state plan =
    (update_htpasswd-Ensures api state plan ranges [] tt).0
