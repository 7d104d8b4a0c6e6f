-- ===== src/Store/Devices.antt =====
-- `DeviceStore`: gateway/internal/store/devices.go.
use Prim.Native.String.{String}
use one_click_agent.Prelude.{
  ltb, List, ℕ, Bool, Option, none, some, [], ◌∷◌, ◌++◌, ◌==◌, if◌then◌else◌, find_first,
}
use one_click_agent.Model.{Device, DeviceStatus, is_online}
use one_click_agent.World.{M, ok, db, new_uuid, ◌>>=◌}
use one_click_agent.Store.Rows.{update_where, sort_by}

abbrev pub update_devices : (Device → Bool) → (ℕ → Device → Device) → M (Unit {0})
update_devices p f = db (λ w. (ok tt, record w { devices = update_where p (f w.now) w.devices }))

abbrev pub has_id : ℕ → Device → Bool
has_id id d = d.id == id

-- `last_seen_at` is no column of the INSERT.
abbrev pub stamped : ℕ → ℕ → Device → Device
stamped id now d = record d { id = id; created_at = now; updated_at = now; last_seen_at = none }

unfoldable pub create : Device → M Device
create d = do
  id ← new_uuid
  db (λ w. let row = stamped id w.now d in (ok row, record w { devices = w.devices ++ row ∷ [] }))

unfoldable pub get_by_id : ℕ → M (Option Device)
get_by_id id = db (λ w. (ok (find_first (has_id id) w.devices), w))

unfoldable pub update_token : ℕ → String → M (Unit {0})
update_token id token_hash =
    update_devices (has_id id)
      λ now d. record d { token_hash = token_hash; token_rotated_at = some now }

unfoldable pub update : Device → M (Unit {0})
update new =
    update_devices (has_id new.id)
      λ now d. record d { name = new.name; description = new.description; updated_at = now }

abbrev pub with_status : DeviceStatus → ℕ → Device → Device
with_status status now d = record d {
  status = status;
  last_seen_at = if is_online status then some now else d.last_seen_at;
}

unfoldable pub update_status : ℕ → DeviceStatus → M (Unit {0})
update_status id status = update_devices (has_id id) (with_status status)

unfoldable pub update_platform : ℕ → String → M (Unit {0})
update_platform id platform = update_devices (has_id id) λ now d. record d { platform = platform }

unfoldable pub list_all : M (List Device)
list_all = db (λ w. (ok (sort_by (λ a b. ltb a.created_at b.created_at) w.devices), w))
