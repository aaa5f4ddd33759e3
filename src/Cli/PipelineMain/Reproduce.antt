-- ===== src/Cli/PipelineMain/Reproduce.antt =====
-- What `printResult` prints of a configuration's enumerations sets them again.
use Prim.Native.String.{String}
use laboratory.Base.{◌≡◌, refl, ◌∙◌, List, [], ◌∷◌, ok}
use laboratory.Base.Double.{Double}
use laboratory.Queue.{WaitStrategy, QueueKind}
use laboratory.Queue.Names.{
  queue_kind_name, wait_strategy_name, parse_queue_kind-queue_kind_name,
  parse_wait_strategy-wait_strategy_name,
}
use laboratory.Pipeline.{PipelineConfig, PipelineTopology}
use laboratory.Pipeline.Names.{
  pipeline_topology_name, parse_pipeline_topology-pipeline_topology_name,
}
use laboratory.Cli.{parse_args, configured, parse_args_option, parse_args_nil}
use laboratory.Cli.PipelineMain.{Field, options, field_of, set_field}

module _ (d : Double) where
  -- The options for the four enumerations, with the names that `printResult` prints for them.
  abbrev pub printed_options : PipelineTopology → QueueKind → QueueKind → WaitStrategy → List String
  printed_options t shared dispatch w =
      "--topology"
      ∷ pipeline_topology_name t
      ∷ "--shared-queue"
      ∷ queue_kind_name shared
      ∷ "--dispatch-queue"
      ∷ queue_kind_name dispatch
      ∷ "--wait-strategy"
      ∷ wait_strategy_name w
      ∷ []

  -- Given to the program as options, the names that a run prints for its topology, queue kinds and
  -- wait strategy set exactly these four, to the values that were printed.
  pub parse_args-printed_options :
      (config : PipelineConfig d) (t : PipelineTopology) (shared dispatch : QueueKind)
      (w : WaitStrategy)
      → parse_args (options d) config (printed_options t shared dispatch w)
        ≡ ok (
            configured (record config {
              topology = t;
              shared_queue_kind = shared;
              dispatch_queue_kind = dispatch;
              wait_strategy = w;
            }))
  unfolding field_of set_field
  parse_args-printed_options config t shared dispatch w =
      let c1 = record config { topology = t } in
      let c2 = record c1 { shared_queue_kind = shared } in
      let c3 = record c2 { dispatch_queue_kind = dispatch } in
      parse_args_option (options d) config "--topology" _ _ Field.topology c1 refl refl
        (rw (parse_pipeline_topology-pipeline_topology_name t))
      ∙ parse_args_option (options d) c1 "--shared-queue" _ _ Field.shared_queue_kind c2 refl refl
          (rw (parse_queue_kind-queue_kind_name shared))
      ∙ parse_args_option (options d) c2 "--dispatch-queue" _ _ Field.dispatch_queue c3 refl refl
          (rw (parse_queue_kind-queue_kind_name dispatch))
      ∙ parse_args_option (options d) c3 "--wait-strategy" _ [] Field.wait_strategy _ refl refl
          (rw (parse_wait_strategy-wait_strategy_name w))
      ∙ parse_args_nil (options d) _
