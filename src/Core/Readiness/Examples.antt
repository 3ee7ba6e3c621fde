-- ===== src/Core/Readiness/Examples.antt =====
-- The sample deployment is ready.
use map_data_aggregation_enh.Core.Readiness.Ready.{IsReady, assert_apply_ready-IsReady}
use map_data_aggregation_enh.Core.Readiness.Samples.{runtime, ready_input, ready_input_passes}

assert_apply_ready-IsReady_example : IsReady runtime ready_input
assert_apply_ready-IsReady_example =
    assert_apply_ready-IsReady runtime ready_input ready_input_passes
