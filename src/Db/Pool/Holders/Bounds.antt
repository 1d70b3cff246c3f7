-- ===== src/Db/Pool/Holders/Bounds.antt =====
-- The bounds of the pool over every sequence of steps.
use dashboard_template_api.Db.Pool.{Pool}
