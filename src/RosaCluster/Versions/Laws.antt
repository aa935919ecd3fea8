-- ===== src/RosaCluster/Versions/Laws.antt =====
-- Which version a cluster is created or moved with.
use terraform_provider_ocm.Prelude.{
  ℕ, ◌*◌, ◌<◌, String, true, false, ◌≡◌, ◌≢◌, ◌⊎◌, ◌↔◌, inl, inr, List, [], ◌∷◌, map, length, ok,
  eq_iff, arith, Bool-cases, some, ap, sym, ◌∙◌, ◌+◌,
}
use terraform_provider_ocm.Client.{Act, ◌>>=◌}
use terraform_provider_ocm.Client.Paging.{page_size, pages}
use terraform_provider_ocm.Client.Paging.Laws.{page_of, pages-all}
use terraform_provider_ocm.OcmCluster.{ClusterTopology}
use terraform_provider_ocm.RosaCluster.Versions.{
  Version, VersionError, Request, list_versions, History, Env, failed_to_retrieve, out_of_fuel,
  filter_of, wanted_version, is_listed, get_versions, list_or_fail, get_version_list,
  validate_version, get_and_validate_version_in_channel_group,
}

-- The versions by their raw identifiers.
abbrev pub raw_ids : List Version → List String
raw_ids = map (λ v. v.raw_id)

-- A text is among these, or is the first of them.
abbrev pub Among : String → List String → Type 0
Among version [] = ⊥
Among version (v ∷ vs) = (v ≡ version) ⊎ Among version vs

abbrev pub IsFirst : String → List String → Type 0
IsFirst version [] = ⊥
IsFirst version (v ∷ vs) = v ≡ version

-- The version that is asked for, or the first one where none is.
abbrev pub IsWanted : String → List String → String → Type 0
IsWanted state_version versions version =
    ((state_version ≢ "") × (version ≡ state_version))
    ⊎ ((state_version ≡ "") × IsFirst version versions)

Among-eq : (a b : String) (vs : List String) → a ≡ b → Among a vs → Among b vs
Among-eq a b [] same among = absurd among
Among-eq a b (v ∷ vs) same (inl first) = inl (first ∙ same)
Among-eq a b (v ∷ vs) same (inr later) = inr (Among-eq a b vs same later)

is_listed_iff :
    (version : String) (vs : List String) → (is_listed version vs ≡ true) ↔ Among version vs
unfolding is_listed
is_listed_iff version [] = ((λ e. cc), (λ a. absurd a))
is_listed_iff version (v ∷ vs) = ground (arith, eq_iff v version, is_listed_iff version vs)

wanted_version_iff :
    (first state_version version : String) (rest : List String)
    → (wanted_version first state_version ≡ version) ↔ IsWanted state_version (first ∷ rest) version
unfolding wanted_version
wanted_version_iff first state_version version rest = ground (arith, eq_iff state_version "")

validate_version_iff :
    (env : Env) (state_version version : String) (versions : List String) (h : History)
    → ((validate_version env state_version versions h).0 ≡ ok version)
      ↔ (Among version versions × IsWanted state_version versions version)
unfolding validate_version
validate_version_iff env state_version version [] h = ((λ e. cc), (λ (a, w). absurd a))
validate_version_iff env state_version version (first ∷ rest) h =
    let wanted = wanted_version_iff first state_version version rest in
    let chosen = wanted_version first state_version in
    let listed = is_listed_iff chosen (first ∷ rest) in
    elim (Bool-cases (is_listed chosen (first ∷ rest))) [
      | inl is_in ↦ rw is_in (
        λ e.
            let same : chosen ≡ version = cc in
            (Among-eq _ version (first ∷ rest) same (listed.0 is_in), wanted.0 same),
        λ (among, is_wanted). ap ok (wanted.1 is_wanted),
      )
      | inr other ↦ rw other (
        λ e. cc,
        λ (among, is_wanted).
            let found =
              listed.1 (Among-eq version _ (first ∷ rest) (sym (wanted.1 is_wanted)) among) in
            absurd (false_is_not (sym other ∙ found)),
      )
    ]
  where
    false_is_not : ¬ (false ≡ true)
    false_is_not e = cc

list_or_fail-first :
    (env : Env) (state_version version : String) (versions : List Version) (h : History)
    → (((list_or_fail env versions >>= validate_version env state_version) h).0 ≡ ok version)
      ↔ (Among version (raw_ids versions) × IsWanted state_version (raw_ids versions) version)
unfolding list_or_fail
list_or_fail-first env state_version version [] h = ((λ e. cc), (λ (a, w). absurd a))
list_or_fail-first env state_version version (v ∷ vs) h =
    validate_version_iff env state_version version (raw_ids (v ∷ vs)) h

module _ (env : Env) (topology : ClusterTopology) (channel_group : String)
    (all : List Version) where
  -- The API pages the versions that the search finds, from page 1 on.
  abbrev pub Serves : Type 0
  Serves =
      (h : History) (k : ℕ)
      → env.on_list_versions h (filter_of topology channel_group) (k + 1) ≡ some (page_of all k)

  -- What is documented of `sort.Slice`: it loses nothing and adds nothing.
  abbrev pub Permutes : Type 0
  Permutes =
      (version : String)
      → Among version (raw_ids (env.sort_versions all)) ↔ Among version (raw_ids all)

  -- The pages of the search, and the history after them.
  abbrev listing : ℕ → Act Request VersionError (List Version)
  listing fuel =
      pages (list_versions (filter_of topology channel_group))
        (λ h page. env.on_list_versions h (filter_of topology channel_group) page)
        failed_to_retrieve out_of_fuel fuel 1

  listed :
      Serves
      → (fuel : ℕ) (h : History) → length all < fuel * page_size
      → (listing fuel h).0 ≡ ok all
  listed serves fuel h enough =
      pages-all _ _ failed_to_retrieve out_of_fuel all serves fuel h enough

  -- With fuel for more versions than the search for the channel group finds, a version is the answer
  -- exactly when the API lists it, and it is the one that is asked for or, where none is asked for,
  -- the first of the sorted list. So there is an answer whenever no version is asked for and the list
  -- is not empty.
  pub validated_version_iff :
      (state_version version : String) (fuel : ℕ) (h : History)
      → Serves
      → Permutes
      → length all < fuel * page_size
      → ((get_and_validate_version_in_channel_group env fuel topology channel_group state_version
            h).0
          ≡ ok version)
        ↔ (Among version (raw_ids all)
            × IsWanted state_version (raw_ids (env.sort_versions all)) version)
  unfolding get_and_validate_version_in_channel_group get_version_list get_versions
  validated_version_iff state_version version fuel h serves permutes enough =
      let sorted = list_or_fail-first env state_version version (env.sort_versions all) in
      let iff = sorted (listing fuel h).1 in
      let perm = permutes version in
      rw (listed serves fuel h enough) (
        λ e. let (among, is_wanted) = iff.0 e in (perm.0 among, is_wanted),
        λ (among, is_wanted). iff.1 (perm.1 among, is_wanted),
      )
