-- ===== src/RosaCluster/Channel.antt =====
-- validateChannelGroupAndVersionChanges of provider/clusterrosa/classic and provider/clusterrosa/hcp.
use terraform_provider_ocm.Prelude.{
  String, Bool, true, false, not, ◌&&◌, ◌==◌, ◌≡◌, ◌≢◌, ◌↔◌, List, [], ◌∷◌, is_some, Option, none,
  some, if◌then◌else◌, eq_iff, arith, Bool-cases, Option-cases, inl, inr, refl, sym, ◌∙◌,
}
use terraform_provider_ocm.Common.Attribute.{
  Value, known, value_string, is_string_attribute_unknown_or_empty,
}
use terraform_provider_ocm.Common.Patch.{should_patch_string, should_patch_string_iff}
use terraform_provider_ocm.Common.Response.{Diagnostic, error, has_error}

-- The attributes of a cluster that the check reads.
pub record ChannelState : Type 0 where
  pub channel_group : Value String
  pub version : Value String

unfoldable pub channel_group_changed : ChannelState → ChannelState → Bool
channel_group_changed state plan =
    is_some (should_patch_string state.channel_group plan.channel_group)

unfoldable pub plan_version_changed : ChannelState → ChannelState → Bool
plan_version_changed state plan =
    let given = not (is_string_attribute_unknown_or_empty plan.version) in
    let had = not (is_string_attribute_unknown_or_empty state.version) in
    if given && had
    then not (value_string plan.version == value_string state.version)
    else given && not had

unfoldable pub validate_channel_group_and_version_changes :
    ChannelState → ChannelState → List Diagnostic
validate_channel_group_and_version_changes state plan =
    if channel_group_changed state plan && plan_version_changed state plan
    then error "Cannot change channel group and version simultaneously" "" ∷ []
    else []

-- The plan knows another channel group than the state holds.
abbrev pub AsksForChannel : ChannelState → ChannelState → Type 0
AsksForChannel state plan =
    (group : String) × (plan.channel_group ≡ known group) × (state.channel_group ≢ known group)

-- The plan gives a version, and another than the state does.
abbrev pub AsksForVersion : ChannelState → ChannelState → Type 0
AsksForVersion state plan =
    (value_string plan.version ≢ "") × (value_string plan.version ≢ value_string state.version)

channel_group_changed_iff :
    (state plan : ChannelState)
    → (channel_group_changed state plan ≡ true) ↔ AsksForChannel state plan
unfolding channel_group_changed
channel_group_changed_iff state plan =
    let patch = should_patch_string_iff state.channel_group plan.channel_group in
    elim (Option-cases (should_patch_string state.channel_group plan.channel_group)) [
      | inl kept ↦ rw kept (
        (λ e. cc),
        λ (group, asks, other). absurd (none_is_not (sym kept ∙ (patch group).1 (asks, other))),
      )
      | inr (group, e) ↦
          rw e ((λ t. (group, ((patch group).0 e).0, ((patch group).0 e).1)), (λ asks. refl))
    ]
  where
    none_is_not : {g : String} → ¬ (◌≡◌ {A = Option String} none (some g))
    none_is_not e = cc

plan_version_changed_iff :
    (state plan : ChannelState)
    → (plan_version_changed state plan ≡ true) ↔ AsksForVersion state plan
unfolding plan_version_changed is_string_attribute_unknown_or_empty
plan_version_changed_iff state plan = ground (
  arith,
  eq_iff (value_string plan.version) (value_string state.version),
  eq_iff (value_string plan.version) "",
  eq_iff (value_string state.version) "",
)

-- The check reports an error exactly when the plan asks for another channel group, which the state
-- does not hold, and gives a version that differs from the state's too.
pub channel-refuses_iff :
    (state plan : ChannelState)
    → (has_error (validate_channel_group_and_version_changes state plan) ≡ true)
      ↔ (AsksForChannel state plan × AsksForVersion state plan)
unfolding validate_channel_group_and_version_changes
channel-refuses_iff state plan =
    let channel = channel_group_changed_iff state plan in
    let version = plan_version_changed_iff state plan in
    elim (Bool-cases (channel_group_changed state plan)) [
      | inr same ↦
          rw same ((λ e. cc), λ (asks, v). absurd (true_is_not (sym same ∙ channel.1 asks)))
      | inl changed ↦ rw changed (elim (Bool-cases (plan_version_changed state plan)) [
        | inr same ↦ rw same ((λ e. cc), λ (asks, v). absurd (true_is_not (sym same ∙ version.1 v)))
        | inl other ↦ rw other ((λ e. (channel.0 changed, version.0 other)), (λ e. refl))
      ])
    ]
  where
    true_is_not : ¬ (false ≡ true)
    true_is_not e = cc
