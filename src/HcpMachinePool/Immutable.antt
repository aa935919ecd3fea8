-- ===== src/HcpMachinePool/Immutable.antt =====
-- validateStateAndPlanEquals and validateNoImmutableAttChange of
-- provider/machinepool/hcp/machine_pool_resource.go.
use terraform_provider_ocm.Prelude.{
  String, Bool, not, ◌||◌, ◌==◌, Option, none, some, List, [], ◌∷◌, ◌++◌, if◌then◌else◌, int_eq,
  list_eq,
}
use terraform_provider_ocm.Common.Attribute.{Value, has_value, value_eq}
use terraform_provider_ocm.Common.Patch.{string_value_eq, map_eq}
use terraform_provider_ocm.Common.Response.{Diagnostic, error}
use terraform_provider_ocm.HcpMachinePool.State.{AwsNodePool, HcpMachinePoolState}

-- `validateStateAndPlanEquals`: a plan without a value changes nothing.
unfoldable pub attribute_changed {ℓ} :
    {A : Type ℓ} → (A → A → Bool) → Value A → Value A → String → List Diagnostic
attribute_changed eq state_attr plan_attr attr_name =
    if not (has_value plan_attr) || value_eq eq state_attr plan_attr
    then []
    else error "Attribute value cannot be changed" attr_name ∷ []

unfoldable pub aws_changes : Option AwsNodePool → Option AwsNodePool → List Diagnostic
aws_changes none plan = []
aws_changes (some state) none = []
aws_changes (some state) (some plan) =
    attribute_changed ◌==◌ state.instance_profile plan.instance_profile
      "aws_node_pool.instance_profile"
    ++ (attribute_changed map_eq state.tags plan.tags "aws_node_pool.tags"
        ++ (attribute_changed ◌==◌ state.instance_type plan.instance_type
              "aws_node_pool.instance_type"
            ++ (attribute_changed (list_eq string_value_eq) state.additional_security_group_ids
                  plan.additional_security_group_ids "aws_node_pool.additional_security_group_ids"
                ++ (attribute_changed ◌==◌ state.ec2_metadata_http_tokens
                      plan.ec2_metadata_http_tokens "aws_node_pool.ec2_metadata_http_tokens"
                    ++ attribute_changed int_eq state.disk_size plan.disk_size
                        "aws_node_pool.disk_size"))))

unfoldable pub validate_no_immutable_att_change :
    HcpMachinePoolState → HcpMachinePoolState → List Diagnostic
validate_no_immutable_att_change state plan =
    attribute_changed ◌==◌ state.cluster plan.cluster "cluster"
    ++ (attribute_changed ◌==◌ state.name plan.name "name"
        ++ (attribute_changed ◌==◌ state.subnet_id plan.subnet_id "aws_node_pool.subnet_id"
            ++ aws_changes state.aws_node_pool plan.aws_node_pool))
