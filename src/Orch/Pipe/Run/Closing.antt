-- ===== src/Orch/Pipe/Run/Closing.antt =====
-- pkg/orch/pipe/pipe.go: what `shutdown` has done when it returns to `Close`.
use concx.Codex.{Codex}
use concx.Nest
use concx.Orch.Pipe.Lifetime.{Lifetime}
