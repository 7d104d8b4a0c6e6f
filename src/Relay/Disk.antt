-- ===== src/Relay/Disk.antt =====
-- The calls of the operating system that gateway/internal/relay/relay.go makes. The directories are
-- not modelled: whether one is missing is the environment's choice to make the call fail.
use one_click_agent.Prelude.{Option, none, some, List, [], ◌∷◌, ◌++◌, if◌then◌else◌}
use one_click_agent.Model.{Bytes, Location, location_eq}
use one_click_agent.World.{M, ok, os_error, os, return, fail}

abbrev pub Disk : Type 0
Disk = List (Location × Bytes)

unfoldable pub read_at : Location → Disk → Option Bytes
read_at at [] = none
read_at at ((here, content) ∷ d) =
    let rest = read_at at d in if location_eq here at then some content else rest

unfoldable pub remove_at : Location → Disk → Disk
remove_at at [] = []
remove_at at ((here, content) ∷ d) =
    let rest = remove_at at d in if location_eq here at then rest else (here, content) ∷ rest

abbrev pub write_at : Location → Bytes → Disk → Disk
write_at at content d = (at, content) ∷ remove_at at d

-- What a write adds to, which is nothing where the file is gone.
abbrev pub content_or_empty : Option Bytes → Bytes
content_or_empty none = []
content_or_empty (some content) = content

abbrev pub change : (Disk → Disk) → M (Unit {0})
change f = os (λ w. (ok tt, record w { disk = f w.disk }))

unfoldable pub make_dir : M (Unit {0})
make_dir = change (λ d. d)

-- `os.Create`, which empties a file that is there.
unfoldable pub create_file : Location → M (Unit {0})
create_file at = change (write_at at [])

unfoldable pub write : Location → Bytes → M (Unit {0})
write at more = change (λ d. write_at at (content_or_empty (read_at at d) ++ more) d)

abbrev pub found : Option Bytes → M Bytes
found none = fail os_error
found (some content) = return content

unfoldable pub read_file : Location → M Bytes
read_file at = os (λ w. found (read_at at w.disk) w)

-- `os.Remove` of a file that is not there is an error of its own, which the callers do not heed.
unfoldable pub remove : Location → M (Unit {0})
remove at = change (remove_at at)
