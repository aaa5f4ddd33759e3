-- ===== src/Pipeline/Names.antt =====
-- pipeline.cpp: `parsePipelineTopology` and `pipelineTopologyName`.
use Prim.Native.String.{String}
use text.Mathlib.Text.{◌==◌}
use laboratory.Base.{◌||◌, ◌≡◌, refl, if◌then◌else◌, Result, ok, err, Error}
use laboratory.Pipeline.{PipelineTopology, shared_queue, dispatch_local_spsc, direct_local_spsc}

unfoldable pub parse_pipeline_topology : String → Result PipelineTopology
parse_pipeline_topology name =
    if name == "shared" || name == "shared_queue" || name == "shared-queue"
    then ok shared_queue
    else (if name == "dispatch_local_spsc"
          || name == "dispatch-local-spsc"
          || name == "dispatch_spsc"
          || name == "dispatch-spsc"
        then ok dispatch_local_spsc
        else (if name == "direct_local_spsc"
              || name == "direct-local-spsc"
              || name == "direct_spsc"
              || name == "direct-spsc"
            then ok direct_local_spsc
            else err Error.bad_topology))

unfoldable pub pipeline_topology_name : PipelineTopology → String
pipeline_topology_name shared_queue = "shared_queue"
pipeline_topology_name dispatch_local_spsc = "dispatch_local_spsc"
pipeline_topology_name direct_local_spsc = "direct_local_spsc"

-- The name that is printed for a topology parses back to that topology.
pub parse_pipeline_topology-pipeline_topology_name :
    (t : PipelineTopology) → parse_pipeline_topology (pipeline_topology_name t) ≡ ok t
unfolding parse_pipeline_topology pipeline_topology_name
parse_pipeline_topology-pipeline_topology_name shared_queue = refl
parse_pipeline_topology-pipeline_topology_name dispatch_local_spsc = refl
parse_pipeline_topology-pipeline_topology_name direct_local_spsc = refl
