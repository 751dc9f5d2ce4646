-- ===== src/Examples/Checkpointing.antt =====
-- Three checkpoints of a job, of which two are kept.
use drigs.Prelude.{Among, ◌-◌, ◌≤◌, String, true, none, some, [], ◌∷◌, ◌≡◌, length}
use drigs.Dict.{lookup}
use drigs.Recovery.Checkpoint.{
  Files, Manifest, save_checkpoint, manifests_in, get_latest_checkpoint, cleanup_checkpoints, other,
}
use drigs.Recovery.Checkpoint.Selection.{
  IsLatest, get_latest_checkpoint-IsLatest, count_from, cleanup_checkpoints_keeps,
}
use drigs.Examples.Simulating.{counted}

abbrev saved : Files
saved =
    (save_checkpoint counted "/ck" "j1" 0 "weights 0" none
      (save_checkpoint counted "/ck" "j1" 5 "weights 5" (some "/data/5.pt")
        (save_checkpoint counted "/ck" "j1" 1 "weights 1" none (("/data/5.pt", other) ∷ [])).0).0).0

get_latest_checkpoint-IsLatest_example :
    IsLatest (manifests_in (λ p. true) saved) (get_latest_checkpoint (λ p. true) saved)
get_latest_checkpoint-IsLatest_example = get_latest_checkpoint-IsLatest (λ p. true) saved

cleanup_checkpoints_keeps_example :
    let ms = manifests_in (λ p. true) saved in
    let (files', count) = cleanup_checkpoints (λ p. true) (λ p. true) 2 saved in
    ((path : String)
      → ((m : Manifest) → Among m ms → m.filepath ≡ path → count_from m.step ms ≤ 2)
      → lookup path files' ≡ lookup path saved)
    × (count ≤ length ms - 2)
cleanup_checkpoints_keeps_example = cleanup_checkpoints_keeps (λ p. true) (λ p. true) 1 saved
