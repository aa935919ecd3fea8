-- ===== src/MachinePool/Populate/Laws.antt =====
-- Which tags of a pool a read leaves, and what a successful read has put into the state.
use terraform_provider_ocm.Prelude.{
  String, not, ◌&&◌, ◌≡◌, refl, eq_iff, Option, none, [], ◌∷◌, if◌then◌else◌, Dict, lookup,
  contains_key, erase, lookup-erase, arith,
}
use terraform_provider_ocm.MachinePool.Populate.{has_key, erase_foreign}

-- A tag stays with its value exactly if the cluster does not have its key or the pool's own tags do;
-- every other tag is gone.
pub lookup-erase_foreign :
    (k : String) (own : Option (Dict String)) (cluster_tags tags : Dict String)
    → lookup k (erase_foreign own cluster_tags tags)
      ≡ (if contains_key k cluster_tags && not (has_key k own) then none else lookup k tags)
unfolding erase_foreign
lookup-erase_foreign k own [] tags = refl
lookup-erase_foreign k own ((k', v) ∷ cluster_tags) tags =
    rw (lookup-erase_foreign k own cluster_tags (if has_key k' own then tags else erase k' tags))
      (ground (arith, eq_iff k' k, lookup-erase k' k tags))
