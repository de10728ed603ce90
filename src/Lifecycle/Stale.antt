-- ===== src/Lifecycle/Stale.antt =====
-- A newer intent supersedes a start, in `startExpected` of internal/arcade/manager.go.
use teploy_arcade.Prelude.{nat_key, string_key}
