-- ===== src/Sync/Task/Steady.antt =====
-- Every run of the task is paced, and shows how it ended.
use zbag_app_tauri.Sync.Task.{Task}
