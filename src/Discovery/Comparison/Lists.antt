-- ===== src/Discovery/Comparison/Lists.antt =====
-- What the three lists of a comparison hold.
use management_app.Text.{Text}
