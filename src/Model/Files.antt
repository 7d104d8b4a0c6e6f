-- ===== src/Model/Files.antt =====
-- Files: model/types.go. A text of bytes is a list of numbers; the text of a hash is a number. A
-- storage location is made of the parts that the relay joins.
use one_click_agent.Prelude.{ℕ, Bool, true, false, ◌&&◌, Option, List, [], ◌∷◌, ◌==◌}

abbrev pub Bytes : Type 0
Bytes = List ℕ

abbrev pub bytes_eq : Bytes → Bytes → Bool
bytes_eq [] [] = true
bytes_eq [] (y ∷ ys) = false
bytes_eq (x ∷ xs) [] = false
bytes_eq (x ∷ xs) (y ∷ ys) = let rest = bytes_eq xs ys in (x == y) && rest

pub data FileStatus : Type 0 where
  staged_cloud staged_device purged error : FileStatus

abbrev pub is_staged_cloud : FileStatus → Bool
is_staged_cloud FileStatus.staged_cloud = true
is_staged_cloud _ = false

abbrev pub is_staged_device : FileStatus → Bool
is_staged_device FileStatus.staged_device = true
is_staged_device _ = false

abbrev pub is_purged : FileStatus → Bool
is_purged FileStatus.purged = true
is_purged _ = false

-- `{base}/{file id}` and `{base}/jobs/{job id}/output/{name}`.
pub data Location : Type 0 where
  staged : ℕ → Location
  output_of : ℕ → Bytes → Location

abbrev pub location_eq : Location → Location → Bool
location_eq (staged i) (staged j) = i == j
location_eq (output_of i x) (output_of j y) = (i == j) && bytes_eq x y
location_eq _ _ = false

pub record File : Type 0 where
  pub id : ℕ
  pub user_id : Option ℕ
  pub name : Bytes
  pub size : ℕ
  pub mime : Bytes
  pub sha256 : ℕ
  pub storage_uri : Location
  pub status : FileStatus
  pub created_at : ℕ
  pub purged_at : Option ℕ

pub data FileRole : Type 0 where
  input output : FileRole

abbrev pub same_role : FileRole → FileRole → Bool
same_role FileRole.input FileRole.input = true
same_role FileRole.output FileRole.output = true
same_role _ _ = false

-- A row of `job_files`.
pub record JobFile : Type 0 where
  pub job_id : ℕ
  pub file_id : ℕ
  pub role : FileRole
