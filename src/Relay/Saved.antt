-- ===== src/Relay/Saved.antt =====
-- How `OnFilePullEnd` of gateway/internal/relay/relay.go saves a file: what it writes to the disk,
-- and that what it does after that neither fails nor changes the file.
use one_click_agent.Prelude.{
  ◌≡◌, refl, sym, ap, ◌∙◌, Bool, true, false, some, List, [], ◌∷◌, ◌++◌, ==_self, ℕ, Bool-cases,
  inl, is_some, inr, Option, length,
}
use one_click_agent.Model.{Bytes, bytes_eq, Location, location_eq, File, JobFile, FileRole}
use one_click_agent.World.{
  World, M, Result, ok, err, next, settled, return, attempt, ignore, db, db_call, os, ◌>>=◌,
  PullTransfer, new_uuid, ◌>>◌,
}
use one_click_agent.Relay.Disk.{read_at, write_at, write}
use one_click_agent.Relay.Outputs.{
  write_each, joined, register_output, register_for, output_file, user_of,
}
use one_click_agent.Relay.Names.{is_zip}
use one_click_agent.Store.Files.{insert_file, link, can_link, stamped}
use one_click_agent.Store.Jobs
use one_click_agent.Store.Files
use one_click_agent.Relay.Staging.{RelayConfig}

bytes_eq_refl : (x : Bytes) → bytes_eq x x ≡ true
bytes_eq_refl [] = refl
bytes_eq_refl (x ∷ xs) = rw (==_self x, bytes_eq_refl xs) refl

location_eq_refl : (at : Location) → location_eq at at ≡ true
location_eq_refl (Location.staged i) = ==_self i
location_eq_refl (Location.output_of i x) = rw (==_self i, bytes_eq_refl x) refl

pub read_at-write_at :
    (at : Location) (content : Bytes) (d : List (Location × Bytes))
    → read_at at (write_at at content d) ≡ some content
unfolding read_at
read_at-write_at at content d = rw (location_eq_refl at) refl

-- The state with another disk, in which no call will fail.
abbrev pub with_disk : List (Location × Bytes) → World → World
with_disk d w = record w { disk = d; faults = [] }

append_empty : (xs : Bytes) → xs ++ [] ≡ xs
append_empty [] = refl
append_empty (x ∷ xs) = ap (λ ys. x ∷ ys) (append_empty xs)

append_twice : (xs ys zs : Bytes) → (xs ++ ys) ++ zs ≡ xs ++ (ys ++ zs)
append_twice [] ys zs = refl
append_twice (x ∷ xs) ys zs = ap (λ us. x ∷ us) (append_twice xs ys zs)

-- The chunks are added to what the file has.
pub write_each-adds :
    (at : Location) (cs : List Bytes) (old : Bytes) (d : List (Location × Bytes)) (w : World)
    → read_at at d ≡ some old
    → (d' : List (Location × Bytes)) × (write_each at cs (with_disk d w) ≡ (ok tt, with_disk d' w))
      × (read_at at d' ≡ some (old ++ joined cs))
unfolding write_each write os
write_each-adds at [] old d w there = (d, refl, there ∙ ap some (sym (append_empty old)))
write_each-adds at (c ∷ cs) old d w there =
    let d₁ = write_at at (old ++ c) d in
    let (d', e, there') =
      write_each-adds at cs (old ++ c) d₁ w (read_at-write_at at (old ++ c) d) in
    (d', rw there e, there' ∙ ap some (append_twice old c (joined cs)))

pub record KeepsDisk {A : Type 0} (m : M A) : Type 0 where
  pub kept : (w : World) → (m w).1.disk ≡ w.disk

module _ {A B : Type 0} where
  next-KeepsDisk :
      (r : Result A × World) (k : A → M B)
      → ((a : A) → KeepsDisk (k a))
      → (next r k).1.disk ≡ r.1.disk
  next-KeepsDisk (ok a, w) k h = (h a).kept w
  next-KeepsDisk (err e, w) k h = refl

  pub bind-KeepsDisk :
      {m : M A} {k : A → M B} → KeepsDisk m → ((a : A) → KeepsDisk (k a)) → KeepsDisk (m >>= k)
  bind-KeepsDisk {m} {k} h j = record { kept = λ w. next-KeepsDisk (m w) k j ∙ h.kept w }

module _ {A : Type 0} where
  settled_disk : (r : Result A × World) → (settled r).1.disk ≡ r.1.disk
  settled_disk (r, w) = refl

  pub attempt-KeepsDisk : {m : M A} → KeepsDisk m → KeepsDisk (attempt m)
  attempt-KeepsDisk {m} h = record { kept = λ w. settled_disk (m w) ∙ h.kept w }

  pub return-KeepsDisk : (a : A) → KeepsDisk (return a)
  return-KeepsDisk a = record { kept = λ w. refl }

  db_call-KeepsDisk :
      (fs : List Bool) (m : M A) (w : World) → KeepsDisk m → (db_call fs m w).1.disk ≡ w.disk
  db_call-KeepsDisk [] m w h = h.kept w
  db_call-KeepsDisk (true ∷ fs) m w h = refl
  db_call-KeepsDisk (false ∷ fs) m w h = h.kept (record w { faults = fs })

  pub db-KeepsDisk : {m : M A} → KeepsDisk m → KeepsDisk (db m)
  unfolding db
  db-KeepsDisk {m} h = record { kept = λ w. db_call-KeepsDisk w.faults m w h }

  pub step-KeepsDisk :
      (g : World → A) (f : World → World)
      → ((w : World) → (f w).disk ≡ w.disk)
      → KeepsDisk (db (λ w. (ok (g w), f w)))
  step-KeepsDisk g f h = db-KeepsDisk (record { kept = h })

  -- What is ignored is done.
  settled_ok : (r : Result A × World) → (next (settled r) (λ _. return tt)).0 ≡ ok tt
  settled_ok (r, w) = refl

  pub ignore-ok : (m : M A) (w : World) → (ignore m w).0 ≡ ok tt
  ignore-ok m w = settled_ok (m w)

module _ {A : Type 0} where
  pub ignore-KeepsDisk : {m : M A} → KeepsDisk m → KeepsDisk (ignore m)
  ignore-KeepsDisk {m} h = bind-KeepsDisk (attempt-KeepsDisk h) (λ _. return-KeepsDisk tt)

insert_file-disk : (f : File) (w : World) → (insert_file f w).1.disk ≡ w.disk
insert_file-disk f w = elim (Bool-cases (is_some f.user_id)) [
  | inl e ↦ rw e refl
  | inr e ↦ rw e refl
]

link-disk : (l : JobFile) (w : World) → (link l w).1.disk ≡ w.disk
link-disk l w = elim (Bool-cases (can_link l.file_id l.job_id w)) [
  | inl e ↦ rw e refl
  | inr e ↦ rw e refl
]

create-KeepsDisk : (f : File) → KeepsDisk (Files.create f)
unfolding Files.create
create-KeepsDisk f =
    bind-KeepsDisk {m = new_uuid} (record { kept = λ w. refl })
      λ id. db-KeepsDisk (record { kept = λ w. insert_file-disk (stamped id w.now f) w })

link-KeepsDisk : (file job : ℕ) (role : FileRole) → KeepsDisk (Files.link_to_job file job role)
unfolding Files.link_to_job
link-KeepsDisk file job role =
    db-KeepsDisk
      (record { kept = link-disk (record { job_id = job; file_id = file; role = role }) })

get_job-KeepsDisk : (id : ℕ) → KeepsDisk (Jobs.get_by_id id)
unfolding Jobs.get_by_id
get_job-KeepsDisk id = step-KeepsDisk _ _ (λ w. refl)

register_for-KeepsDisk :
    (config : RelayConfig) (pt : PullTransfer) (content : Bytes) (at : Location) (user : Option ℕ)
    → is_zip pt.name ≡ false
    → KeepsDisk (register_for config pt content at user)
unfolding register_for
register_for-KeepsDisk config pt content at user e = rw e (
    bind-KeepsDisk
      (ignore-KeepsDisk
        (create-KeepsDisk (output_file pt.file_id user pt.name (length content) pt.sha256 at)))
      λ _.
        bind-KeepsDisk (ignore-KeepsDisk (link-KeepsDisk pt.file_id pt.job_id FileRole.output))
          λ _. return-KeepsDisk tt)

-- A file that is no archive is registered without a change of the disk.
pub register_output-KeepsDisk :
    (config : RelayConfig) (pt : PullTransfer) (content : Bytes) (at : Location)
    → is_zip pt.name ≡ false
    → KeepsDisk (register_output config pt content at)
unfolding register_output
register_output-KeepsDisk config pt content at e =
    bind-KeepsDisk (attempt-KeepsDisk (get_job-KeepsDisk pt.job_id))
      λ job. register_for-KeepsDisk config pt content at (user_of job) e

module _ {A : Type 0} where
  next-ok :
      (r : Result A × World) (k : A → M (Unit {0})) (a : A)
      → r.0 ≡ ok a
      → ((b : A) (w : World) → (k b w).0 ≡ ok tt)
      → (next r k).0 ≡ ok tt
  next-ok (ok b, w) k a e h = h b w
  next-ok (err x, w) k a e h = absurd (cc)

  attempted : (r : Result A × World) → (settled r).0 ≡ ok r.0
  attempted (r, w) = refl

  ignored-ok :
      (m : M A) (k : M (Unit {0}))
      → ((w : World) → (k w).0 ≡ ok tt)
      → (w : World) → ((ignore m >> k) w).0 ≡ ok tt
  ignored-ok m k h w = next_ok (ignore m w) (ignore-ok m w)
    where
      next_ok : (r : Result (Unit {0}) × World) → r.0 ≡ ok tt → (next r (λ _. k)).0 ≡ ok tt
      next_ok (ok b, v) e = h v
      next_ok (err x, v) e = absurd (cc)

register_for-ok :
    (config : RelayConfig) (pt : PullTransfer) (content : Bytes) (at : Location) (user : Option ℕ)
    → is_zip pt.name ≡ false
    → (w : World) → (register_for config pt content at user w).0 ≡ ok tt
unfolding register_for
register_for-ok config pt content at user e =
    let link = ignore (Files.link_to_job pt.file_id pt.job_id FileRole.output) in
    rw e (
      ignored-ok (Files.create (output_file pt.file_id user pt.name (length content) pt.sha256 at))
        (link >> return tt)
        (ignored-ok (Files.link_to_job pt.file_id pt.job_id FileRole.output) (return tt)
          (λ w. refl)))

-- A file that is no archive is registered without a failure.
pub register_output-ok :
    (config : RelayConfig) (pt : PullTransfer) (content : Bytes) (at : Location) (w : World)
    → is_zip pt.name ≡ false
    → (register_output config pt content at w).0 ≡ ok tt
unfolding register_output
register_output-ok config pt content at w e =
    let found = attempt (Jobs.get_by_id pt.job_id) w in
    next-ok found (λ job. register_for config pt content at (user_of job)) _
      (attempted (Jobs.get_by_id pt.job_id w))
      (λ job. register_for-ok config pt content at (user_of job) e)
