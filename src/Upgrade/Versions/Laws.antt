-- ===== src/Upgrade/Versions/Laws.antt =====
-- What a validated upgrade rests on.
use terraform_provider_ocm.Prelude.{
  ◌≡◌, ◌∙◌, refl, String, Bool, true, false, Option, some, List, [], ◌∷◌, All, OnOk, Option-cases,
  Bool-cases, inl, inr, if◌then◌else◌, any, ◌==◌, eq_iff, arith, OnOk-weaken,
}
use terraform_provider_ocm.Common.Attribute.{value_string}
use terraform_provider_ocm.Client.Logic.{
  Ensures, pure-Ensures, lift-Ensures, >>=-Ensures, weaken-Ensures, some_or_fail-Ensures,
  send-Answers, fail_unless-Ensures,
}
use terraform_provider_ocm.Upgrade.{
  VersionInfo, get_version, History, Env, UpgradeError, Action, version_information_failed,
  desired_version_not_parsed, not_available,
}
use terraform_provider_ocm.Upgrade.Versions.{
  ClusterRosaClassicState, get_info, versions_with, validate_in, enabled_versions,
  get_available_upgrade_versions, is_among, desired_version, channel_of, validate_upgrade,
}

-- The text is one of these.
abbrev pub is_in : List String → String → Bool
is_in vs v = any (λ w. w == v) vs

module _ {V : Type 0} (env : Env V) (P : History → Type 0)
    (keep : (id : String) (h : History) → P h → P (get_version id ∷ h)) where
  pub get_info-Answers :
      (id : String)
      → Ensures P
          (get_info env id)
          (λ info. (h : History) × (env.api.on_get_version h id ≡ some info))
  unfolding get_info
  get_info-Answers id =
      >>=-Ensures P (λ reply. (h : History) × (env.api.on_get_version h id ≡ reply)) _ _ _
        (send-Answers UpgradeError P (get_version id) (λ h. env.api.on_get_version h id) (keep id))
        (λ reply (h, e).
          weaken-Ensures P (λ info. reply ≡ some info) _ _ (λ info found. (h, e ∙ found))
            (some_or_fail-Ensures P reply version_information_failed))

module _ {V : Type 0} (env : Env V) (enabled : VersionInfo → Bool) (channel_group : String)
    (available : List String) where
  -- The API answers for one of the available upgrades in the channel group with a version that passes
  -- the test.
  abbrev pub IsServed : VersionInfo → Type 0
  IsServed info =
      (h : History) × (upgrade : String) × (is_in available upgrade ≡ true)
      × (env.api.on_get_version h (env.create_version_id upgrade channel_group) ≡ some info)
      × (enabled info ≡ true)

  -- Such a version has a text that is parsed as this version.
  abbrev pub IsOffered : V → Type 0
  IsOffered desired =
      (info : VersionInfo) × (v : V) × IsServed info
      × (env.semver.parse info.raw_id ≡ some v)
      × (env.semver.equal desired v ≡ true)

  All-if :
      (b : Bool) (info : VersionInfo) (infos : List VersionInfo)
      → (b ≡ true → IsServed info)
      → All IsServed infos
      → All IsServed (if b then info ∷ infos else infos)
  All-if true info infos now later = (now refl, later)
  All-if false info infos now later = later

  pub is_among-IsOffered :
      (desired : V) (infos : List VersionInfo)
      → All IsServed infos
      → OnOk (λ found. found ≡ true → IsOffered desired) (is_among env desired infos)
  unfolding is_among
  is_among-IsOffered desired [] served = λ e. cc
  is_among-IsOffered desired (info ∷ infos) (answer, served) =
      elim (Option-cases (env.semver.parse info.raw_id)) [
        | inl unparsed ↦ rw (unparsed, OnOk) tt
        | inr (v, parsed) ↦
            rw (parsed, OnOk)
              (elim (Bool-cases (env.semver.equal desired v)) [
                | inl same ↦ rw (same, OnOk) (λ e. (info, v, answer, parsed, same))
                | inr differs ↦ rw (differs, OnOk) (is_among-IsOffered desired infos served)
              ])
      ]

  module _ (P : History → Type 0)
      (keep : (id : String) (h : History) → P h → P (get_version id ∷ h)) where
    pub versions_with-IsServed :
        (vs : List String)
        → All (λ v. is_in available v ≡ true) vs
        → Ensures P (versions_with env enabled channel_group vs) (All IsServed)
    unfolding versions_with
    versions_with-IsServed [] given = pure-Ensures UpgradeError P (All IsServed) [] tt
    versions_with-IsServed (v ∷ vs) (first, later) =
        let id = env.create_version_id v channel_group in
        >>=-Ensures P (λ info. (h : History) × (env.api.on_get_version h id ≡ some info)) _ _ _
          (get_info-Answers env P keep id)
          (λ info (h, e).
            >>=-Ensures P (All IsServed) (All IsServed) _ _ (versions_with-IsServed vs later)
              (λ rest served.
                pure-Ensures UpgradeError P (All IsServed) _
                  (All-if (enabled info) info rest (λ passes. (h, v, first, e, passes)) served)))

-- A version is accepted only if it is among versions that offer it.
module _ {V : Type 0} (env : Env V) (P : History → Type 0) (Serves : List VersionInfo → Type 0)
    (Offers : V → Type 0)
    (serves_offers : (desired : V) (infos : List VersionInfo)
      → Serves infos
      → OnOk (λ found. found ≡ true → Offers desired) (is_among env desired infos)) where
  pub validate_in-Offers :
      (versions : Action (List VersionInfo)) (desired_text : Option V)
      → Ensures P versions Serves
      → Ensures P
          (validate_in env versions desired_text)
          (λ u. (desired : V) × (desired_text ≡ some desired) × Offers desired)
  unfolding validate_in
  validate_in-Offers versions desired_text all_served =
      let Valid : Unit {0} → Type 0 =
        λ u. (desired : V) × (desired_text ≡ some desired) × Offers desired in
      >>=-Ensures P Serves Valid versions _ all_served (λ available served.
        >>=-Ensures P (λ desired. desired_text ≡ some desired) Valid _ _
          (some_or_fail-Ensures P desired_text desired_version_not_parsed)
          (λ desired parsed.
            >>=-Ensures P (λ found. found ≡ true → Offers desired) Valid _ _
              (lift-Ensures P (λ found. found ≡ true → Offers desired)
                (is_among env desired available) (serves_offers desired available served))
              (λ found offered.
                weaken-Ensures P (λ u. found ≡ true) Valid _
                  (λ u is_found. (desired, parsed, offered is_found))
                  (fail_unless-Ensures P found not_available))))

-- The test of a classic cluster.
abbrev pub for_rosa : VersionInfo → Bool
for_rosa info = info.rosa_enabled

-- Every text is one of its list.
is_in-cons :
    (w : String) (vs us : List String)
    → All (λ v. is_in vs v ≡ true) us
    → All (λ v. is_in (w ∷ vs) v ≡ true) us
is_in-cons w vs [] given = tt
is_in-cons w vs (u ∷ us) (first, later) = (ground (arith, first), is_in-cons w vs us later)

pub is_in_self : (vs : List String) → All (λ v. is_in vs v ≡ true) vs
is_in_self [] = tt
is_in_self (v ∷ vs) = (ground (arith, eq_iff v v), is_in-cons v vs vs (is_in_self vs))

module _ {V : Type 0} (env : Env V) (from_version_id : String) where
  -- The API says of the version with this identifier that it may be upgraded to this one, which is
  -- enabled for ROSA in the same channel group.
  abbrev pub IsReachable : V → Type 0
  IsReachable desired =
      (h : History) × (from : VersionInfo) × (env.api.on_get_version h from_version_id ≡ some from)
      × IsOffered env for_rosa from.channel_group from.available_upgrades desired

  -- These are enabled upgrades of the version with this identifier, as the API answers for it.
  abbrev pub AllReachable : List VersionInfo → Type 0
  AllReachable infos =
      (h : History) × (from : VersionInfo) × (env.api.on_get_version h from_version_id ≡ some from)
      × All (IsServed env for_rosa from.channel_group from.available_upgrades) infos

  IsReachable-offers :
      (desired : V) (infos : List VersionInfo)
      → AllReachable infos
      → OnOk (λ found. found ≡ true → IsReachable desired) (is_among env desired infos)
  IsReachable-offers desired infos (h, from, answer, served) =
      OnOk-weaken _ (λ found. found ≡ true → IsReachable desired) (is_among env desired infos)
        (λ found offered e. (h, from, answer, offered e))
        (is_among-IsOffered env for_rosa from.channel_group from.available_upgrades desired infos
          served)

  module _ (P : History → Type 0)
      (keep : (id : String) (h : History) → P h → P (get_version id ∷ h)) where
    available-AllReachable :
        Ensures P (get_available_upgrade_versions env from_version_id) AllReachable
    unfolding get_available_upgrade_versions enabled_versions
    available-AllReachable =
        >>=-Ensures P
          (λ from. (h : History) × (env.api.on_get_version h from_version_id ≡ some from))
          AllReachable _ _ (get_info-Answers env P keep from_version_id)
          (λ from (h, e).
            weaken-Ensures P
              (All (IsServed env for_rosa from.channel_group from.available_upgrades)) AllReachable
              _ (λ infos served. (h, from, e, served))
              (versions_with-IsServed env for_rosa from.channel_group from.available_upgrades P keep
                from.available_upgrades (is_in_self from.available_upgrades)))

-- The identifier of the state's current version.
module _ {V : Type 0} (env : Env V) (state : ClusterRosaClassicState) where
  abbrev pub current_id : String
  current_id = env.create_version_id (value_string state.current_version) (channel_of env state)

  -- An upgrade is validated only to a version that the API offers for the current one.
  pub validate_upgrade-IsReachable :
      (P : History → Type 0) (keep : (id : String) (h : History) → P h → P (get_version id ∷ h))
      (plan : ClusterRosaClassicState)
      → Ensures P (validate_upgrade env state plan) (λ u.
        (desired : V) × (desired_version env plan ≡ some desired)
        × IsReachable env current_id desired)
  unfolding validate_upgrade
  validate_upgrade-IsReachable P keep plan =
      validate_in-Offers env P (AllReachable env current_id) (IsReachable env current_id)
        (IsReachable-offers env current_id) _ (desired_version env plan)
        (available-AllReachable env current_id P keep)
