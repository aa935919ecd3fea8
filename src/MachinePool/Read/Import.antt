-- ===== src/MachinePool/Read/Import.antt =====
-- The identifiers that an import takes apart.
use Prim.Native.String
use terraform_provider_ocm.Prelude.{String, ◌≡◌, ◌≢◌, eq_iff, some, arith}
use terraform_provider_ocm.Prelude.Text.Split.{Lacks, split_at-joined}
use terraform_provider_ocm.MachinePool.Read.{import_fields, import_state}

-- `<cluster_id>,<machine_pool_id>` is taken apart into the two identifiers, if neither is empty or
-- holds a comma.
pub import_state-joined :
    (cluster_id pool_id : String)
    → Lacks b',' cluster_id
    → Lacks b',' pool_id
    → cluster_id ≢ ""
    → pool_id ≢ ""
    → import_state (String.◌++◌ cluster_id (String.◌++◌ "," pool_id)) ≡ some (cluster_id, pool_id)
unfolding import_state import_fields
import_state-joined cluster_id pool_id c p nc np =
    rw (split_at-joined "," cluster_id pool_id c p)
      (ground (arith, eq_iff cluster_id "", eq_iff pool_id ""))
