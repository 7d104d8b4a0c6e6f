-- ===== src/Relay/Examples.antt =====
-- Runs of the file relay: gateway/internal/relay/relay.go.
use mathlib.Core.List.{Memᴰ}
use one_click_agent.Prelude.{
  ℕ, zero, suc, ◌<◌, ◌≡◌, ◌≢◌, refl, false, some, List, [], ◌∷◌, length, arith, All,
}
use one_click_agent.Model.{
  Bytes, FilePullBeginPayload, Location, FileRole, Job, JobStatus, UserTier,
}
use one_click_agent.World.{World, PullTransfer, ok, err, db_error}
use one_click_agent.Samples.{job_of, world_of, empty_hub, plain_relay}
use one_click_agent.Store.Files
use one_click_agent.Relay.Names.{
  join_parts, walk, split, is_safe_output_name, clean_parts, clean, is_dot_dot,
}
use one_click_agent.Relay.Disk.{read_at}
use one_click_agent.Relay.Outputs.{joined, register_output}
use one_click_agent.Relay.Pull.{on_file_pull_begin, on_file_pull_end}
use one_click_agent.Relay.Reassembly.{Brings}
use one_click_agent.Relay.Transfer.{receive}
use one_click_agent.Relay.RoundTrip.{on_file_pull_end-roundtrip}
use one_click_agent.Relay.Containment.{is_safe_output_name-stays_below}
use one_click_agent.Relay.Unlinked.{pulled_row, register_output-unlinked}

abbrev content : Bytes
content = 7 ∷ 8 ∷ []

-- The file `a` of job 1 in two chunks.
abbrev begin : FilePullBeginPayload
begin = record { file_id = 9; job_id = 1; name = 97 ∷ []; size = 3; sha256 = 3; chunks = 2 }

abbrev halves : List Bytes
halves = (1 ∷ 2 ∷ []) ∷ (3 ∷ []) ∷ []

-- The second chunk comes first, and again at the end.
abbrev arrivals : List (ℕ × Bytes)
arrivals = (1, 3 ∷ []) ∷ (0, 1 ∷ 2 ∷ []) ∷ (1, 3 ∷ []) ∷ []

abbrev empty_world : World
empty_world = world_of [] [] empty_hub

arrivals_complete : (j : ℕ) → j < length halves → Brings j arrivals
arrivals_complete zero less = (1 ∷ 2 ∷ [], Memᴰ.tail (Memᴰ.head refl))
arrivals_complete (suc zero) less = (3 ∷ [], Memᴰ.head refl)
arrivals_complete (suc (suc j)) less = absurd (omega arith)

on_file_pull_end-roundtrip_example :
    let begun = (on_file_pull_begin plain_relay 1 begin empty_world).1 in
    let r = on_file_pull_end plain_relay 1 9 (receive plain_relay 1 9 arrivals begun) in
    (r.0 ≡ ok tt)
    × (read_at (Location.output_of 1 (clean (97 ∷ []))) r.1.disk ≡ some (joined halves))
unfolding is_safe_output_name clean join_parts clean_parts walk split
on_file_pull_end-roundtrip_example =
    on_file_pull_end-roundtrip plain_relay 1 begin halves arrivals empty_world (λ c. refl) refl
      (omega arith) refl refl refl refl refl (refl, (refl, (refl, tt))) arrivals_complete

-- The name `x/../a`.
is_safe_output_name-stays_below_example :
    All (λ p. is_dot_dot p ≡ false) (clean_parts (120 ∷ 47 ∷ 46 ∷ 46 ∷ 47 ∷ 97 ∷ []))
    × (clean_parts (120 ∷ 47 ∷ 46 ∷ 46 ∷ 47 ∷ 97 ∷ []) ≢ [])
unfolding is_safe_output_name clean join_parts clean_parts walk split
is_safe_output_name-stays_below_example =
    is_safe_output_name-stays_below (120 ∷ 47 ∷ 46 ∷ 46 ∷ 47 ∷ 97 ∷ []) refl

abbrev whole : PullTransfer
whole = record {
  file_id = 9;
  job_id = 1;
  name = 97 ∷ [];
  sha256 = 1;
  chunks = 1;
  buf = some (5 ∷ []) ∷ [];
}

abbrev pulling_job : Job
pulling_job = job_of 1 5 UserTier.pro JobStatus.running

abbrev with_job : World
with_job = world_of (pulling_job ∷ []) [] empty_hub

register_output-unlinked_example :
    let at = Location.output_of 1 (97 ∷ []) in
    let w' = (register_output plain_relay whole (5 ∷ []) at with_job).1 in
    (w'.files ≡ pulled_row plain_relay whole (5 ∷ []) at 7 with_job ∷ [])
    × (w'.job_files ≡ [])
    × ((Files.link_to_job 9 1 FileRole.output w').0 ≡ err db_error)
register_output-unlinked_example =
    register_output-unlinked plain_relay whole (5 ∷ []) (Location.output_of 1 (97 ∷ [])) with_job
      pulling_job refl refl refl refl refl
