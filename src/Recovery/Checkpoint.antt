-- ===== src/Recovery/Checkpoint.antt =====
-- drigs/recovery/checkpoint.py: the checkpoint manifests of a job. The file system is a dictionary
-- from paths; which paths the pattern of a job's manifests matches, and which files can be deleted,
-- are arguments. A file that is no manifest is not parsed.
pub mod Selection
use Prim.Native.String.{◌++◌ as join}
use drigs.Prelude.{
  ℕ, zero, suc, ◌+◌, ◌-◌, String, Bool, true, false, Option, none, some, List, [], ◌∷◌, length,
  take, leb, if◌then◌else◌,
}
use drigs.Prelude.Sort.{sort}
use drigs.Dict.{Dict, lookup, put, remove, has}
use drigs.Execution.Text.{Text}
use drigs.Execution.Isolation.{given}

-- The manifest of one step. The data is the job's own.
pub record Manifest : Type 0 where
  pub job_id : String
  pub step : ℕ
  pub filepath : String
  pub checkpoint_data : String

pub data File : Type 0 where
  manifest : Manifest → File
  other : File

abbrev pub Files : Type 0
Files = Dict File

-- job_dir / f"checkpoint_step_{step}.json"
abbrev pub manifest_path : Text → String → String → ℕ → String
manifest_path t storage_dir job_id step =
    join storage_dir
      (join "/" (join job_id (join "/checkpoint_step_" (join (t.show step) ".json"))))

-- filepath or str(manifest_path)
abbrev pub path_or : Option String → String → String
path_or filepath path = elim (given filepath) [ none ↦ path | some p ↦ p ]

unfoldable pub save_checkpoint :
    Text → String → String → ℕ → String → Option String → Files → Files × String
save_checkpoint t storage_dir job_id step checkpoint_data filepath files =
    let path = manifest_path t storage_dir job_id step in
    (
      put path
          (manifest (record {
            job_id = job_id;
            step = step;
            filepath = path_or filepath path;
            checkpoint_data = checkpoint_data;
          }))
          files,
      path,
    )

-- The manifests among the files that match, in the order of the directory.
unfoldable pub manifests_in : (String → Bool) → Files → List Manifest
manifests_in matches [] = []
manifests_in matches ((path, manifest m) ∷ files) =
    let rest = manifests_in matches files in if matches path then m ∷ rest else rest
manifests_in matches ((path, other) ∷ files) = manifests_in matches files

abbrev pub le_step : Manifest → Manifest → Bool
le_step m n = leb m.step n.step

unfoldable pub list_checkpoints : (String → Bool) → Files → List Manifest
unfolding manifests_in
list_checkpoints matches files = sort le_step (manifests_in matches files)

-- manifests[-1] if manifests else None
unfoldable pub last : List Manifest → Option Manifest
last [] = none
last (m ∷ ms) = let rest = last ms in elim rest [ none ↦ some m | some n ↦ some n ]

unfoldable pub get_latest_checkpoint : (String → Bool) → Files → Option Manifest
unfolding last
get_latest_checkpoint matches files = last (list_checkpoints matches files)

-- The files of the manifests are deleted, and counted.
unfoldable pub delete_files : (String → Bool) → List Manifest → Files → Files × ℕ
delete_files can_delete [] files = (files, 0)
delete_files can_delete (m ∷ ms) files =
    let gone = if has m.filepath files then can_delete m.filepath else false in
    let (files', count) =
      delete_files can_delete ms (if gone then remove m.filepath files else files) in
    (files', if gone then suc count else count)

-- manifests[:-n], which is empty for n = 0
unfoldable pub all_but_last : ℕ → List Manifest → List Manifest
all_but_last zero ms = []
all_but_last (suc n) ms = take (length ms - suc n) ms

unfoldable pub cleanup_checkpoints : (String → Bool) → (String → Bool) → ℕ → Files → Files × ℕ
unfolding delete_files all_but_last
cleanup_checkpoints matches can_delete keep_last_n files =
    let manifests = list_checkpoints matches files in
    if leb (length manifests) keep_last_n
    then (files, 0)
    else delete_files can_delete (all_but_last keep_last_n manifests) files
