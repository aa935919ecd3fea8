-- ===== src/HcpMachinePool/Create/Added.antt =====
-- The pool that a create adds.
use terraform_provider_ocm.Prelude.{◌≡◌, String, some, List, ◌∷◌, OnOk-anything}
use terraform_provider_ocm.Common.Response.{Diagnostic}
use terraform_provider_ocm.Sdk.{Cluster, Reply, success}
use terraform_provider_ocm.Handler.Logic.{
  Ensures, Any, lift-Ensures, send-Ensures, >>=-Ensures, body_or_fail-Ensures,
  built_or_fail-Ensures,
}
use terraform_provider_ocm.HcpMachinePool.State.{HcpMachinePoolState, NodePool}
use terraform_provider_ocm.HcpMachinePool.Builder.{set_plain, set_version}
use terraform_provider_ocm.HcpMachinePool.Builder.Laws.{
  HasScale, Keeps, set_plain-Keeps, set_tuning_configs-Keeps, set_version-Keeps,
}
use terraform_provider_ocm.HcpMachinePool.Requests.{IsNamed, Builds}
use terraform_provider_ocm.HcpMachinePool.Server.{add_pool, History, Env, Action}
use terraform_provider_ocm.HcpMachinePool.Create.{after_earlier, add_built}

pub after_earlier-Ensures :
    {A : Type 0} (P : History → Type 0) (earlier : List Diagnostic) (m : Action A)
    → Ensures P m Any
    → Ensures P (after_earlier earlier m) Any
unfolding after_earlier
after_earlier-Ensures P earlier m now h p = ((now h p).0, OnOk-anything _)

-- The name and the scaling of a builder that can be added.
pub record Addable (b : NodePool) : Type 0 where
  pub named : IsNamed b
  pub scaled : HasScale b

Keeps-Addable : (b b' : NodePool) → Keeps b b' → Addable b → Addable b'
Keeps-Addable b b' (i, a, r) addable = record {
  named = record {
    proper = rw i addable.named.proper;
    not_standard = rw i addable.named.not_standard;
  };
  scaled = rw (a, r) addable.scaled;
}

module _ {V : Type 0} (env : Env V) (builds : Builds env) where
  added-Addable :
      (cluster : Cluster) (plan : HcpMachinePoolState) (b tuned body : NodePool)
      → Addable b
      → Keeps (set_plain plan b) tuned
      → env.build (set_version env cluster plan tuned) ≡ some body
      → Addable body
  added-Addable cluster plan b tuned body addable keeps built =
      let plain = set_plain plan b in
      let versioned = set_version env cluster plan tuned in
      let kept = Keeps-Addable tuned versioned (set_version-Keeps env cluster plan tuned) (
        Keeps-Addable plain tuned keeps (Keeps-Addable b plain (set_plain-Keeps plan b) addable)) in
      rw (builds _ body built) kept

  pub add_built-Ensures :
      (P : History → Type 0)
      → ((cid : String) (b : NodePool) → Addable b → (h : History) → P h → P (add_pool cid b ∷ h))
      → (cluster : Cluster) (plan : HcpMachinePoolState) (b : NodePool) → Addable b
      → Ensures P (add_built env cluster plan b) Any
  unfolding add_built
  add_built-Ensures P keep cluster plan b addable =
      >>=-Ensures P (Keeps (set_plain plan b)) Any _ _
        (lift-Ensures P (Keeps (set_plain plan b)) _
          (set_tuning_configs-Keeps env plan (set_plain plan b)))
        (λ tuned keeps.
          >>=-Ensures P (λ p. env.build (set_version env cluster plan tuned) ≡ some p) Any _ _
            (built_or_fail-Ensures P (env.build (set_version env cluster plan tuned)) _ _)
            (λ body built.
              >>=-Ensures P (λ (r : Reply NodePool). Unit {0}) Any _ _
                (send-Ensures P (add_pool cluster.id body)
                  (λ h. env.server.on_add_pool h cluster.id body)
                  (keep cluster.id body
                    (added-Addable cluster plan b tuned body addable keeps built)))
                (λ reply v.
                  >>=-Ensures P (λ (a : NodePool). reply ≡ success a) Any _ _
                    (body_or_fail-Ensures P reply _ _)
                    (λ object e. lift-Ensures P Any _ (OnOk-anything _)))))
