-- ===== src/Engine/Coordinator/Quota.antt =====
-- engine/coordinator.py: a round keeps to the quota of each step.
use runspool.Prelude.{string_eq}
use runspool.Prelude.Exec.{◌>>◌}
use runspool.Engine.Coordinator.{Coordinator}
use runspool.Store.World.{World}
use runspool.Engine.Coordinator.Calls.{Calls}
