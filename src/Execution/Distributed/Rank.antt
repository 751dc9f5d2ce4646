-- ===== src/Execution/Distributed/Rank.antt =====
-- The environment of one rank in drigs/execution/distributed.py.
use drigs.Prelude.{
  ℕ, String, ◌≡◌, ◌≢◌, refl, false, none, some, List, [], ◌∷◌, arith, dec_text, Distinct, contains,
  get_elem?,
}
use drigs.Dict.{Dict, lookup, keys}
use drigs.Models.{Job, ResourceAllocation}
use drigs.Execution.Text.{Text}
use drigs.Execution.Isolation.{update, clean_gpu_id, format_cuda_visible_devices}
use drigs.Execution.Isolation.Environment.{inherited, lookup-update}
use drigs.Execution.Distributed.{
  Launching, world_size, master_addr, master_port, rank_devices, rank_env,
}

abbrev pub rank_names : List String
rank_names =
    "DRIGS_JOB_ID" ∷ "DRIGS_ALLOCATION_ID" ∷ "DRIGS_WORKER_ID" ∷ "WORLD_SIZE" ∷ "RANK"
    ∷ "LOCAL_RANK" ∷ "MASTER_ADDR" ∷ "MASTER_PORT" ∷ "CUDA_VISIBLE_DEVICES" ∷ []

-- What rank `rank` of the job sees.
pub record IsRank (t : Text) (os : Launching) (job : Job) (a : ResourceAllocation) (rank : ℕ)
    (env : Dict String) : Type 0 where
  pub job_id : lookup "DRIGS_JOB_ID" env ≡ some job.job_id
  pub allocation_id : lookup "DRIGS_ALLOCATION_ID" env ≡ some a.allocation_id
  pub worker_id : lookup "DRIGS_WORKER_ID" env ≡ some a.worker_id
  pub rank_is : lookup "RANK" env ≡ some (t.show rank)
  pub local_rank : lookup "LOCAL_RANK" env ≡ some (t.show rank)
  pub world :
      lookup "WORLD_SIZE" env
      ≡ some (t.show (world_size job.spec.distribution a.assigned_device_ids))
  pub addr : lookup "MASTER_ADDR" env ≡ some (master_addr job.spec.distribution)
  pub port :
      lookup "MASTER_PORT" env ≡ some (t.show (master_port job.spec.distribution os.free_port))
  pub own_gpu :
      (id : String)
      → get_elem? a.assigned_device_ids rank ≡ some id
      → lookup "CUDA_VISIBLE_DEVICES" env ≡ some (clean_gpu_id t id)
  pub all_gpus :
      a.assigned_device_ids ≢ []
      → get_elem? a.assigned_device_ids rank ≡ none
      → lookup "CUDA_VISIBLE_DEVICES" env
        ≡ some (format_cuda_visible_devices t a.assigned_device_ids false [])
  pub no_gpus :
      a.assigned_device_ids ≡ []
      → lookup "CUDA_VISIBLE_DEVICES" env
        ≡ inherited "CUDA_VISIBLE_DEVICES" job.spec.execution.env os.environ
  pub others :
      (k : String)
      → contains rank_names k ≡ false
      → lookup k env ≡ inherited k job.spec.execution.env os.environ

module _ (t : Text) (os : Launching) (job : Job) (a : ResourceAllocation) (rank : ℕ) where
  device_vars : List String → Dict String
  device_vars [] = []
  device_vars (g ∷ gpus) =
      (
        "CUDA_VISIBLE_DEVICES",
        elim (get_elem? (g ∷ gpus) rank) [
          | some id ↦ clean_gpu_id t id
          | none ↦ format_cuda_visible_devices t (g ∷ gpus) false []
        ],
      )
      ∷ []

  rank_vars : List String → Dict String
  unfolding device_vars
  rank_vars gpus =
      let dist = job.spec.distribution in
      ("DRIGS_JOB_ID", job.job_id)
      ∷ ("DRIGS_ALLOCATION_ID", a.allocation_id)
      ∷ ("DRIGS_WORKER_ID", a.worker_id)
      ∷ ("WORLD_SIZE", t.show (world_size dist a.assigned_device_ids))
      ∷ ("RANK", t.show rank)
      ∷ ("LOCAL_RANK", t.show rank)
      ∷ ("MASTER_ADDR", master_addr dist)
      ∷ ("MASTER_PORT", t.show (master_port dist os.free_port))
      ∷ device_vars gpus

  rank_devices-update :
      (gpus : List String) (env : Dict String)
      → rank_devices t gpus rank env ≡ update (device_vars gpus) env
  unfolding rank_devices device_vars update
  rank_devices-update [] env = refl
  rank_devices-update (g ∷ gpus) env = refl

  rank_env-update :
      rank_env t os job a rank
      ≡ update (rank_vars a.assigned_device_ids) (update job.spec.execution.env os.environ)
  unfolding rank_env rank_vars update
  rank_env-update = rank_devices-update a.assigned_device_ids _

  rank_vars-Distinct : (gpus : List String) → Distinct (keys (rank_vars gpus))
  unfolding rank_vars device_vars contains dec_text
  rank_vars-Distinct [] = (refl, (refl, (refl, (refl, (refl, (refl, (refl, (refl, tt))))))))
  rank_vars-Distinct (g ∷ gpus) =
      (refl, (refl, (refl, (refl, (refl, (refl, (refl, (refl, (refl, tt)))))))))

  rank_vars-others :
      (k : String) (gpus : List String)
      → contains rank_names k ≡ false
      → lookup k (rank_vars gpus) ≡ none
  unfolding rank_vars device_vars lookup contains
  rank_vars-others k [] h = ground (arith, h)
  rank_vars-others k (g ∷ gpus) h = ground (arith, h)

  device_own :
      (gpus : List String) (id : String)
      → get_elem? gpus rank ≡ some id
      → lookup "CUDA_VISIBLE_DEVICES" (device_vars gpus) ≡ some (clean_gpu_id t id)
  unfolding device_vars lookup dec_text
  device_own [] id e = cc
  device_own (g ∷ gpus) id e = rw e refl

  device_all :
      (gpus : List String)
      → gpus ≢ []
      → get_elem? gpus rank ≡ none
      → lookup "CUDA_VISIBLE_DEVICES" (device_vars gpus)
        ≡ some (format_cuda_visible_devices t gpus false [])
  unfolding device_vars lookup dec_text
  device_all [] n e = absurd (n refl)
  device_all (g ∷ gpus) n e = rw e refl

  device_none :
      (gpus : List String) → gpus ≡ [] → lookup "CUDA_VISIBLE_DEVICES" (device_vars gpus) ≡ none
  unfolding device_vars lookup
  device_none [] e = refl
  device_none (g ∷ gpus) e = cc

  -- If the user's environment has distinct variables:
  -- whatever it and the system's say, a rank sees the ids of the job, of its
  -- allocation and of its worker, its rank, the size and the meeting point of the job, the same in
  -- every rank; its own GPU if there is one for it, and else all GPUs of the allocation; every
  -- other variable is the user's, else the system's.
  -- With no GPU allocated, the variable of the visible GPUs is one of the others.
  pub rank_env-IsRank :
      Distinct (keys job.spec.execution.env) → IsRank t os job a rank (rank_env t os job a rank)
  unfolding rank_vars lookup dec_text
  rank_env-IsRank d =
      let vars = rank_vars a.assigned_device_ids in
      let base = update job.spec.execution.env os.environ in
      let found : (k : String) → lookup k (rank_env t os job a rank) ≡ inherited k vars base = λ k.
        rw rank_env-update (lookup-update k vars base (rank_vars-Distinct a.assigned_device_ids)) in
      let cuda = found "CUDA_VISIBLE_DEVICES" in
      let user = λ (k : String). lookup-update k job.spec.execution.env os.environ d in
      record {
        job_id = found "DRIGS_JOB_ID";
        allocation_id = found "DRIGS_ALLOCATION_ID";
        worker_id = found "DRIGS_WORKER_ID";
        rank_is = found "RANK";
        local_rank = found "LOCAL_RANK";
        world = found "WORLD_SIZE";
        addr = found "MASTER_ADDR";
        port = found "MASTER_PORT";
        own_gpu = λ id e. ground (arith, cuda, device_own a.assigned_device_ids id e);
        all_gpus = λ n e. ground (arith, cuda, device_all a.assigned_device_ids n e);
        no_gpus = λ e.
            ground (arith, cuda, device_none a.assigned_device_ids e, user "CUDA_VISIBLE_DEVICES");
        others = λ k h. ground (arith, found k, rank_vars-others k a.assigned_device_ids h, user k);
      }
