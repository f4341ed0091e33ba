-- ===== src/Risk/Lots/Cap.antt =====
-- The honest risk cap of `calculateLotSize`.
use shamarx_app.Double.{Double}
