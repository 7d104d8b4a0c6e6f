-- ===== src/Store/VncSessions.antt =====
-- `VNCSessionStore`: gateway/internal/store/vnc_sessions.go, as far as the gateway calls it. Rows
-- are only read and closed, since nothing calls `Create`.
use one_click_agent.Prelude.{ℕ, Bool, ◌&&◌, Option, ltb, ◌==◌, select, some}
use one_click_agent.Model.{VncSession, VncSessionStatus, is_open}
use one_click_agent.World.{M, ok, db}
use one_click_agent.Store.Rows.{update_where, first_by}

abbrev pub has_id : ℕ → VncSession → Bool
has_id id s = s.id == id

abbrev pub ended : ℕ → VncSession → VncSession
ended now s = record s { status = VncSessionStatus.closed; ended_at = some now }

unfoldable pub close : ℕ → M (Unit {0})
close id = db (λ w.
    (ok tt, record w { vnc_sessions = update_where (has_id id) (ended w.now) w.vnc_sessions }))

abbrev pub newer : VncSession → VncSession → Bool
newer a b = ltb b.created_at a.created_at

unfoldable pub get_by_job_id : ℕ → M (Option VncSession)
get_by_job_id job = db (λ w.
    (ok (first_by newer (select (λ s. (s.job_id == job) && is_open s.status) w.vnc_sessions)), w))
