-- ===== src/Relay/RoundTrip.antt =====
-- A file that a device sends ends up on the gateway's disk: `OnFilePullBegin`, `OnFilePullChunk` and
-- `OnFilePullEnd` of gateway/internal/relay/relay.go together.
use one_click_agent.Prelude.{
  ℕ, zero, get_elem?, All-imp, ◌==◌, ◌&&◌, suc, ◌<◌, ◌≤◌, ◌≡◌, refl, sym, ap, ◌∙◌, Bool, true,
  false, none, some, List, [], ◌∷◌, lookup, insert, erase, ltb, ==_self, arith, All, length, subst,
  lookup-insert, replicate,
}
use one_click_agent.Model.{
  Bytes, FilePullBeginPayload, PullStatus, Location, FileRole, same_role, File,
}
use one_click_agent.World.{World, PullTransfer, Result, ok, err, next, os, db}
use one_click_agent.Store.Files
use one_click_agent.Relay.Names.{clean, is_safe_output_name, is_zip}
use one_click_agent.Relay.Disk.{read_at, write_at, make_dir, create_file}
use one_click_agent.Relay.Staging.{RelayConfig}
use one_click_agent.Relay.Acks.{send_pull_ack}
use one_click_agent.Relay.Outputs.{assembled, joined, save_output, register_output}
use one_click_agent.Relay.Reassembly.{AreChunksOf, Brings, store_all, assembled-store_all}
use one_click_agent.Relay.Pull.{on_file_pull_begin, on_file_pull_end, new_transfer, has_name}
use one_click_agent.Relay.Transfer.{send_pull_ack-quiet, receive, receive-IsAfterChunks}
use one_click_agent.Relay.Saved.{
  with_disk, write_each-adds, read_at-write_at, register_output-ok, register_output-KeepsDisk,
}

-- The outputs that the job has already.
abbrev pub outputs_of : ℕ → World → List File
outputs_of job = Files.joined (λ l. (l.job_id == job) && same_role l.role FileRole.output)

-- It ended without an error, and the disk is this one.
abbrev Ended : Result (Unit {0}) × World → List (Location × Bytes) → Type 0
Ended r d = (r.0 ≡ ok tt) × (r.1.disk ≡ d)

acknowledged :
    (device file : ℕ) (r : Result (Unit {0}) × World)
    → r.0 ≡ ok tt
    → Ended (next r (λ _. send_pull_ack device file PullStatus.received "" none)) r.1.disk
acknowledged device file (ok u, w) e =
    let (hub, q) = send_pull_ack-quiet device file PullStatus.received "" none w in
    (ap (λ r. r.0) q, ap (λ r. r.1.disk) q)
acknowledged device file (err x, w) e = absurd (cc)

save_output-calm :
    (config : RelayConfig) (device : ℕ) (pt : PullTransfer) (cs : List Bytes)
    → (d : List (Location × Bytes)) (w : World) → is_zip pt.name ≡ false
    → let r = save_output config device pt cs (with_disk d w) in
      (r.0 ≡ ok tt)
      × (read_at (Location.output_of pt.job_id (clean pt.name)) r.1.disk ≡ some (joined cs))
unfolding save_output make_dir create_file os
save_output-calm config device pt cs d w no_zip =
    let at = Location.output_of pt.job_id (clean pt.name) in
    let (d', e, there) = write_each-adds at cs [] (write_at at [] d) w (read_at-write_at at [] d) in
    let r = register_output config pt (joined cs) at (with_disk d' w) in
    let (good, same) =
      acknowledged device pt.file_id r
        (register_output-ok config pt (joined cs) at (with_disk d' w) no_zip) in
    let kept = (register_output-KeepsDisk config pt (joined cs) at no_zip).kept (with_disk d' w) in
    rw e (good, ap (read_at at) (same ∙ kept) ∙ there)

-- The end of a transfer whose buffer is full and right.
on_file_pull_end-saves :
    (config : RelayConfig) (device file : ℕ) (pt : PullTransfer) (cs : List Bytes) (w : World)
    → lookup file w.pulls ≡ some pt
    → assembled pt.buf ≡ some cs
    → config.sha256 (joined cs) ≡ pt.sha256
    → is_safe_output_name pt.name ≡ true
    → is_zip pt.name ≡ false
    → w.faults ≡ []
    → let r = on_file_pull_end config device file w in
      (r.0 ≡ ok tt)
      × (read_at (Location.output_of pt.job_id (clean pt.name)) r.1.disk ≡ some (joined cs))
unfolding on_file_pull_end
on_file_pull_end-saves config device file pt cs w there full hash safe no_zip calm =
    let v = record w { pulls = erase file w.pulls } in
    let saved : (fs : List Bool)
        → fs ≡ []
        → let r = save_output config device pt cs (record v { faults = fs }) in
          (r.0 ≡ ok tt)
          × (read_at (Location.output_of pt.job_id (clean pt.name)) r.1.disk ≡ some (joined cs)) =
      λ fs e.
        subst
          (λ gs.
            let r = save_output config device pt cs (record v { faults = gs }) in
            (r.0 ≡ ok tt)
            × (read_at (Location.output_of pt.job_id (clean pt.name)) r.1.disk ≡ some (joined cs)))
          (sym e) (save_output-calm config device pt cs w.disk v no_zip) in
    rw (there, full, hash, ==_self pt.sha256, safe) (saved w.faults calm)

on_file_pull_begin-opens :
    (config : RelayConfig) (device : ℕ) (p : FilePullBeginPayload) (w : World)
    → w.faults ≡ []
    → p.size ≤ config.max_size
    → is_safe_output_name p.name ≡ true
    → has_name p.name (outputs_of p.job_id w) ≡ false
    → on_file_pull_begin config device p w
      ≡ (ok tt, record w { pulls = insert p.file_id (new_transfer p) w.pulls })
unfolding on_file_pull_begin Files.list_by_job_and_role db
on_file_pull_begin-opens config device p w calm fits safe new =
    let small : ltb config.max_size p.size ≡ false = ground (arith, fits) in
    rw (small, safe, calm, new) refl

index_in_range : (cs : List Bytes) (i : ℕ) (c : Bytes) → get_elem? cs i ≡ some c → i < length cs
index_in_range [] i c e = absurd (cc)
index_in_range (d ∷ cs) zero c e = omega arith
index_in_range (d ∷ cs) (suc i) c e = omega (arith, index_in_range cs i c e)

chunks_in_range :
    (cs : List Bytes) (ws : List (ℕ × Bytes)) → AreChunksOf cs ws → All (λ c. c.0 < length cs) ws
chunks_in_range cs ws h =
    All-imp (λ c. get_elem? cs c.0 ≡ some c.1) (λ c. c.0 < length cs) ws
      (λ c e. index_in_range cs c.0 c.1 e) h

-- Where no call of the environment fails, base64 decodes what it encodes, the announced size is
-- within the limit, the name is safe, no archive's and not yet among the job's outputs, and the
-- announced number of chunks and hash are the file's: after FILE_PULL_BEGIN, any sequence of frames
-- with chunks of the file in which each index occurs at least once, in any order, and FILE_PULL_END,
-- the last handler returns no error and the file stands under its cleaned name in the job's output
-- directory.
pub on_file_pull_end-roundtrip :
    (config : RelayConfig) (device : ℕ) (p : FilePullBeginPayload)
    → (cs : List Bytes) (ws : List (ℕ × Bytes)) (w : World)
    → ((c : Bytes) → config.decode (config.encode c) ≡ some c)
    → w.faults ≡ []
    → p.size ≤ config.max_size
    → is_safe_output_name p.name ≡ true
    → is_zip p.name ≡ false
    → has_name p.name (outputs_of p.job_id w) ≡ false
    → p.chunks ≡ length cs
    → p.sha256 ≡ config.sha256 (joined cs)
    → AreChunksOf cs ws
    → ((j : ℕ) → j < length cs → Brings j ws)
    → let begun = (on_file_pull_begin config device p w).1 in
      let r = on_file_pull_end config device p.file_id (receive config device p.file_id ws begun) in
      (r.0 ≡ ok tt)
      × (read_at (Location.output_of p.job_id (clean p.name)) r.1.disk ≡ some (joined cs))
on_file_pull_end-roundtrip config device p cs ws w decodes calm fits safe no_zip new count hash
      parts all =
    let opens = on_file_pull_begin-opens config device p w calm fits safe new in
    let w₁ = record w { pulls = insert p.file_id (new_transfer p) w.pulls } in
    let there : lookup p.file_id w₁.pulls ≡ some (new_transfer p) =
      lookup-insert p.file_id p.file_id (new_transfer p) w.pulls ∙ rw (==_self p.file_id) refl in
    let in_range = subst (λ n. All (λ c. c.0 < n) ws) (sym count) (chunks_in_range cs ws parts) in
    let got =
      receive-IsAfterChunks config device p.file_id ws (new_transfer p) w₁ decodes in_range there in
    let full =
      subst (λ n. assembled (store_all ws (replicate n none)) ≡ some cs) (sym count)
        (assembled-store_all cs ws parts all) in
    rw opens (
      on_file_pull_end-saves config device p.file_id
        (record (new_transfer p) { buf = store_all ws (replicate p.chunks none) }) cs
        (receive config device p.file_id ws w₁) got.transfer full (sym hash) safe no_zip
        (got.same_faults ∙ calm))
