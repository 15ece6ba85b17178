-- ===== src/Tests/Healthy.antt =====
-- A text that is sent while the database works.
use net_chat.Server.State.{Server}
