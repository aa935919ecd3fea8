-- ===== src/MachinePool/Update/Immutable.antt =====
-- The attributes of a pool that an update may not change, and an update without its cluster.
use mathlib.Core.Bool.{beq}
use terraform_provider_ocm.Prelude.{
  String, Bool, true, ◌==◌, ◌≡◌, ◌⊎◌, ◌↔◌, List, [], ◌∷◌, ◌++◌, int_eq, list_eq, any-append, arith,
  refl,
}
use terraform_provider_ocm.Common.Attribute.{Value, unknown, value_eq, value_string}
use terraform_provider_ocm.Common.Patch.{string_value_eq, map_eq}
use terraform_provider_ocm.Common.Response.{Diagnostic, is_error, has_error, unchanged, save}
use terraform_provider_ocm.Sdk.{failure, not_found}
use terraform_provider_ocm.MachinePool.State.{float_eq, MachinePoolState}
use terraform_provider_ocm.MachinePool.Read.{cluster_or_nil, fetch_cluster}
use terraform_provider_ocm.MachinePool.Update.{
  changed, attribute_changed, validate_no_immutable_att_change, no_change_allowed, with_cluster,
  do_update, update,
}
use terraform_provider_ocm.MachinePool.Server.{get_cluster, History, Env, send}

-- The plan leaves the attribute open, or keeps it.
abbrev pub Kept {ℓ} : {A : Type ℓ} → (A → A → Bool) → Value A → Value A → Type ℓ
Kept eq state_attr plan_attr = (plan_attr ≡ unknown) ⊎ (value_eq eq state_attr plan_attr ≡ true)

pub record IsKept (state plan : MachinePoolState) : Type 0 where
  pub cluster : Kept ◌==◌ state.cluster plan.cluster
  pub name : Kept ◌==◌ state.name plan.name
  pub machine_type : Kept ◌==◌ state.machine_type plan.machine_type
  pub use_spot_instances : Kept beq state.use_spot_instances plan.use_spot_instances
  pub max_spot_price : Kept float_eq state.max_spot_price plan.max_spot_price
  pub multi_availability_zone : Kept beq state.multi_availability_zone plan.multi_availability_zone
  pub availability_zone : Kept ◌==◌ state.availability_zone plan.availability_zone
  pub subnet_id : Kept ◌==◌ state.subnet_id plan.subnet_id
  pub disk_size : Kept int_eq state.disk_size plan.disk_size
  pub security_groups :
      Kept
        (list_eq string_value_eq)
        state.additional_security_group_ids
        plan.additional_security_group_ids
  pub aws_tags : Kept map_eq state.aws_tags plan.aws_tags

attribute_changed-eq-nil_iff :
    {A : Type 0} (eq : A → A → Bool) (v w : Value A) (name : String)
    → (attribute_changed eq v w name ≡ []) ↔ Kept eq v w
unfolding attribute_changed changed
attribute_changed-eq-nil_iff eq v w name = ground arith

append-eq-nil :
    {A : Type 0} {P Q : Type 0} (xs ys : List A)
    → (xs ≡ []) ↔ P
    → (ys ≡ []) ↔ Q
    → (xs ++ ys ≡ []) ↔ (P × Q)
append-eq-nil [] ys p q = (λ e. (p.0 refl, q.0 e), λ h. q.1 h.1)
append-eq-nil (x ∷ xs) ys p q = (λ e. cc, λ h. cc (p.1 h.0))

validate-eq-nil_iff :
    (state plan : MachinePoolState)
    → (validate_no_immutable_att_change state plan ≡ []) ↔ IsKept state plan
unfolding validate_no_immutable_att_change
validate-eq-nil_iff state plan =
    let each =
      (append-eq-nil _ _ (attribute_changed-eq-nil_iff ◌==◌ state.cluster plan.cluster "cluster") (
        append-eq-nil _ _ (attribute_changed-eq-nil_iff ◌==◌ state.name plan.name "name") (
          append-eq-nil _ _
            (attribute_changed-eq-nil_iff ◌==◌ state.machine_type plan.machine_type "machine_type")
            (append-eq-nil _ _
              (attribute_changed-eq-nil_iff beq state.use_spot_instances plan.use_spot_instances
                "use_spot_instances")
              (append-eq-nil _ _
                (attribute_changed-eq-nil_iff float_eq state.max_spot_price plan.max_spot_price
                  "max_spot_price")
                (append-eq-nil _ _
                  (attribute_changed-eq-nil_iff beq state.multi_availability_zone
                    plan.multi_availability_zone "multi_availability_zone")
                  (append-eq-nil _ _
                    (attribute_changed-eq-nil_iff ◌==◌ state.availability_zone
                      plan.availability_zone "availability_zone")
                    (append-eq-nil _ _
                      (attribute_changed-eq-nil_iff ◌==◌ state.subnet_id plan.subnet_id "subnet_id")
                      (append-eq-nil _ _
                        (attribute_changed-eq-nil_iff int_eq state.disk_size plan.disk_size
                          "disk_size")
                        (append-eq-nil _ _
                          (attribute_changed-eq-nil_iff (list_eq string_value_eq)
                            state.additional_security_group_ids plan.additional_security_group_ids
                            "aws_additional_security_group_ids")
                          (attribute_changed-eq-nil_iff map_eq state.aws_tags plan.aws_tags
                            "aws_tags"))))))))))) in
    (
      λ e.
          let p = each.0 e in
          record {
            cluster = p.0;
            name = p.1.0;
            machine_type = p.1.1.0;
            use_spot_instances = p.1.1.1.0;
            max_spot_price = p.1.1.1.1.0;
            multi_availability_zone = p.1.1.1.1.1.0;
            availability_zone = p.1.1.1.1.1.1.0;
            subnet_id = p.1.1.1.1.1.1.1.0;
            disk_size = p.1.1.1.1.1.1.1.1.0;
            security_groups = p.1.1.1.1.1.1.1.1.1.0;
            aws_tags = p.1.1.1.1.1.1.1.1.1.1;
          },
      λ k. each.1 (
        k.cluster,
        (
          k.name,
          (
            k.machine_type,
            (
              k.use_spot_instances,
              (
                k.max_spot_price,
                (
                  k.multi_availability_zone,
                  (
                    k.availability_zone,
                    (k.subnet_id, (k.disk_size, (k.security_groups, k.aws_tags))),
                  ),
                ),
              ),
            ),
          ),
        ),
      ),
    )

-- No diagnostics, or an error among them.
abbrev Errs : List Diagnostic → Type 0
Errs ds = (ds ≡ []) ⊎ (has_error ds ≡ true)

attribute_changed-Errs :
    {A : Type 0} (eq : A → A → Bool) (v w : Value A) (name : String)
    → Errs (attribute_changed eq v w name)
unfolding attribute_changed changed
attribute_changed-Errs eq v w name = ground arith

append-Errs : (xs ys : List Diagnostic) → Errs xs → Errs ys → Errs (xs ++ ys)
append-Errs [] ys p q = q
append-Errs (x ∷ xs) ys p q = ground (arith, any-append is_error xs ys)

validate-Errs : (state plan : MachinePoolState) → Errs (validate_no_immutable_att_change state plan)
unfolding validate_no_immutable_att_change
validate-Errs state plan =
    (append-Errs _ _ (attribute_changed-Errs ◌==◌ state.cluster plan.cluster "cluster") (
      append-Errs _ _ (attribute_changed-Errs ◌==◌ state.name plan.name "name") (
        append-Errs _ _
          (attribute_changed-Errs ◌==◌ state.machine_type plan.machine_type "machine_type")
          (append-Errs _ _
            (attribute_changed-Errs beq state.use_spot_instances plan.use_spot_instances
              "use_spot_instances")
            (append-Errs _ _
              (attribute_changed-Errs float_eq state.max_spot_price plan.max_spot_price
                "max_spot_price")
              (append-Errs _ _
                (attribute_changed-Errs beq state.multi_availability_zone
                  plan.multi_availability_zone "multi_availability_zone")
                (append-Errs _ _
                  (attribute_changed-Errs ◌==◌ state.availability_zone plan.availability_zone
                    "availability_zone")
                  (append-Errs _ _
                    (attribute_changed-Errs ◌==◌ state.subnet_id plan.subnet_id "subnet_id")
                    (append-Errs _ _
                      (attribute_changed-Errs int_eq state.disk_size plan.disk_size "disk_size")
                      (append-Errs _ _
                        (attribute_changed-Errs (list_eq string_value_eq)
                          state.additional_security_group_ids plan.additional_security_group_ids
                          "aws_additional_security_group_ids")
                        (attribute_changed-Errs map_eq state.aws_tags plan.aws_tags
                          "aws_tags")))))))))))

module _ (env : Env) (state plan : MachinePoolState) (h : History) where
  -- An update that would change an attribute which cannot change, and which the plan does not leave
  -- open, reports an error, sends no request and leaves the saved state as it was.
  pub update-refuses :
      ¬ IsKept state plan
      → let (r, h') = update env state plan h in
        (has_error r.diagnostics ≡ true) × (r.state ≡ unchanged) × (h' ≡ h)
  unfolding update do_update no_change_allowed
  update-refuses changes =
      stop (validate_no_immutable_att_change state plan) refl (validate-Errs state plan)
    where
      stop :
          (ds : List Diagnostic)
          → validate_no_immutable_att_change state plan ≡ ds
          → Errs ds
          → let (r, h') = update env state plan h in
            (has_error r.diagnostics ≡ true) × (r.state ≡ unchanged) × (h' ≡ h)
      stop [] e errs = absurd (changes ((validate-eq-nil_iff state plan).0 e))
      stop (d ∷ ds) e errs = rw e (ground arith, refl, refl)

  -- If the API does not find the cluster, an update that changes no such attribute asks for nothing
  -- but the cluster, reports no error and saves the state as it was, whatever the plan asks for.
  pub update-lost_cluster :
      IsKept state plan
      → env.server.on_get_cluster h (value_string plan.cluster) ≡ failure not_found
      → update env state plan h ≡ (save state, get_cluster (value_string plan.cluster) ∷ h)
  unfolding update do_update no_change_allowed fetch_cluster cluster_or_nil with_cluster send
  update-lost_cluster kept lost = rw ((validate-eq-nil_iff state plan).1 kept, lost) refl
