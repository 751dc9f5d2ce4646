-- ===== src/Execution/Isolation/Environment.antt =====
-- build_isolated_environment in drigs/execution/isolation.py: which variables the workload sees.
use drigs.Prelude.{
  ℕ, String, ◌≡◌, ◌≢◌, refl, Bool, false, Option, none, some, List, [], ◌∷◌, map, length, arith,
  dec_text, Distinct, contains,
}
use drigs.Dict.{Dict, lookup, put, keys, lookup-put, contains-keys}
use drigs.Models.{ComputeDevice, ResourceAllocation}
use drigs.Execution.Text.{Text, comma_join}
use drigs.Execution.Isolation.{
  update, with_cores, build_isolated_environment, format_cuda_visible_devices,
}

abbrev pub core_names : List String
core_names = "DRIGS_CPU_CORES" ∷ "OMP_NUM_THREADS" ∷ "MKL_NUM_THREADS" ∷ []

-- The variables that are the allocation's own.
abbrev pub own_names_with : List String → List String
own_names_with rest =
    "DRIGS_JOB_ID" ∷ "DRIGS_ALLOCATION_ID" ∷ "DRIGS_WORKER_ID" ∷ "CUDA_VISIBLE_DEVICES" ∷ rest

abbrev pub own_names : List String
own_names = own_names_with core_names

-- The user's variable, else the system's.
abbrev pub inherited : String → Dict String → Dict String → Option String
inherited k base environ = elim (lookup k base) [ none ↦ lookup k environ | some v ↦ some v ]

pub record IsIsolated (t : Text) (environ : Dict String) (a : ResourceAllocation)
    (base : Dict String) (devices : Dict ComputeDevice) (by_bus : Bool) (env : Dict String)
    : Type 0 where
  pub job : lookup "DRIGS_JOB_ID" env ≡ some a.job_id
  pub allocation : lookup "DRIGS_ALLOCATION_ID" env ≡ some a.allocation_id
  pub worker : lookup "DRIGS_WORKER_ID" env ≡ some a.worker_id
  pub visible :
      lookup "CUDA_VISIBLE_DEVICES" env
      ≡ some (format_cuda_visible_devices t a.assigned_device_ids by_bus devices)
  pub threads :
      a.assigned_cpu_cores ≢ []
      → lookup "OMP_NUM_THREADS" env ≡ some (t.show (length a.assigned_cpu_cores))
  pub mkl :
      a.assigned_cpu_cores ≢ []
      → lookup "MKL_NUM_THREADS" env ≡ some (t.show (length a.assigned_cpu_cores))
  pub cores :
      a.assigned_cpu_cores ≢ []
      → lookup "DRIGS_CPU_CORES" env ≡ some (comma_join (map t.show a.assigned_cpu_cores))
  pub no_cores :
      a.assigned_cpu_cores ≡ []
      → (k : String) → contains (own_names_with []) k ≡ false
      → lookup k env ≡ inherited k base environ
  pub others : (k : String) → contains own_names k ≡ false → lookup k env ≡ inherited k base environ

pub lookup-update :
    (k : String) (base env : Dict String)
    → Distinct (keys base)
    → lookup k (update base env) ≡ inherited k base env
unfolding update lookup
lookup-update k [] env d = refl
lookup-update k ((j, v) ∷ base) env d =
    ground (
      arith,
      d.0,
      lookup-update k base (put j v env) d.1,
      lookup-put j k v env,
      contains-keys k base,
    )

module _ (t : Text) where
  core_vars : List ℕ → Dict String
  core_vars [] = []
  core_vars (c ∷ cores) =
      ("DRIGS_CPU_CORES", comma_join (map t.show (c ∷ cores)))
      ∷ ("OMP_NUM_THREADS", t.show (length (c ∷ cores)))
      ∷ ("MKL_NUM_THREADS", t.show (length (c ∷ cores)))
      ∷ []

  own_vars : ResourceAllocation → Dict ComputeDevice → Bool → Dict String
  unfolding core_vars
  own_vars a devices by_bus =
      ("DRIGS_JOB_ID", a.job_id)
      ∷ ("DRIGS_ALLOCATION_ID", a.allocation_id)
      ∷ ("DRIGS_WORKER_ID", a.worker_id)
      ∷ ("CUDA_VISIBLE_DEVICES", format_cuda_visible_devices t a.assigned_device_ids by_bus devices)
      ∷ core_vars a.assigned_cpu_cores

  with_cores-update :
      (cores : List ℕ) (env : Dict String) → with_cores t cores env ≡ update (core_vars cores) env
  unfolding with_cores core_vars update
  with_cores-update [] env = refl
  with_cores-update (c ∷ cores) env = refl

  build-update :
      (environ : Dict String) (a : ResourceAllocation) (base : Dict String)
      (devices : Dict ComputeDevice) (by_bus : Bool)
      → build_isolated_environment t environ a base devices by_bus
        ≡ update (own_vars a devices by_bus) (update base environ)
  unfolding build_isolated_environment own_vars update
  build-update environ a base devices by_bus = with_cores-update a.assigned_cpu_cores _

  core_vars-Distinct : (cores : List ℕ) → Distinct (own_names_with (keys (core_vars cores)))
  unfolding core_vars contains dec_text
  core_vars-Distinct [] = (refl, (refl, (refl, (refl, tt))))
  core_vars-Distinct (c ∷ cores) = (refl, (refl, (refl, (refl, (refl, (refl, (refl, tt)))))))

  core_vars-others :
      (k : String) (cores : List ℕ)
      → contains core_names k ≡ false
      → lookup k (core_vars cores) ≡ none
  unfolding core_vars lookup contains
  core_vars-others k [] h = refl
  core_vars-others k (c ∷ cores) h = ground (arith, h)

  own_vars-Distinct :
      (a : ResourceAllocation) (devices : Dict ComputeDevice) (by_bus : Bool)
      → Distinct (keys (own_vars a devices by_bus))
  unfolding own_vars contains dec_text
  own_vars-Distinct a devices by_bus = core_vars-Distinct a.assigned_cpu_cores

  unowned :
      (k : String) (a : ResourceAllocation) (devices : Dict ComputeDevice) (by_bus : Bool)
      → contains own_names k ≡ false
      → lookup k (own_vars a devices by_bus) ≡ none
  unfolding own_vars lookup contains
  unowned k a devices by_bus h =
      ground (arith, h, core_vars-others k a.assigned_cpu_cores (ground (arith, h)))

  coreless :
      (k : String) (a : ResourceAllocation) (devices : Dict ComputeDevice) (by_bus : Bool)
      → core_vars a.assigned_cpu_cores ≡ []
      → contains (own_names_with []) k ≡ false
      → lookup k (own_vars a devices by_bus) ≡ none
  unfolding own_vars lookup contains
  coreless k a devices by_bus e h = rw e (ground (arith, h))

  core_vars-found :
      (cores : List ℕ)
      → cores ≢ []
      → (lookup "OMP_NUM_THREADS" (core_vars cores) ≡ some (t.show (length cores)))
        × (lookup "MKL_NUM_THREADS" (core_vars cores) ≡ some (t.show (length cores)))
        × (lookup "DRIGS_CPU_CORES" (core_vars cores) ≡ some (comma_join (map t.show cores)))
  unfolding core_vars lookup dec_text
  core_vars-found [] n = absurd (n refl)
  core_vars-found (c ∷ cores) n = (refl, refl, refl)

  core_vars-empty : (cores : List ℕ) → cores ≡ [] → core_vars cores ≡ []
  unfolding core_vars
  core_vars-empty cores e = rw e refl

  -- If the base environment has distinct variables:
  -- whatever it and the system's environment say of them, the variables of the allocation
  -- are its own: its id, its job and worker, its devices, and, if it has cores, their list and
  -- their number as the number of OpenMP and of MKL threads; every other variable, with no cores
  -- also these three, is the base environment's, else the system's.
  pub build-IsIsolated :
      (environ : Dict String) (a : ResourceAllocation) (base : Dict String)
      (devices : Dict ComputeDevice) (by_bus : Bool)
      → Distinct (keys base)
      → IsIsolated t environ a base devices by_bus
          (build_isolated_environment t environ a base devices by_bus)
  unfolding own_vars lookup dec_text
  build-IsIsolated environ a base devices by_bus d =
      let found : (k : String)
          → lookup k (build_isolated_environment t environ a base devices by_bus)
            ≡ inherited k (own_vars a devices by_bus) (update base environ) =
        λ k. rw (build-update environ a base devices by_bus) (
          lookup-update k (own_vars a devices by_bus) (update base environ)
            (own_vars-Distinct a devices by_bus)) in
      record {
        job = found "DRIGS_JOB_ID";
        allocation = found "DRIGS_ALLOCATION_ID";
        worker = found "DRIGS_WORKER_ID";
        visible = found "CUDA_VISIBLE_DEVICES";
        threads = λ n.
            ground (arith, found "OMP_NUM_THREADS", (core_vars-found a.assigned_cpu_cores n).0);
        mkl = λ n.
            ground (arith, found "MKL_NUM_THREADS", (core_vars-found a.assigned_cpu_cores n).1);
        cores = λ n.
            ground (arith, found "DRIGS_CPU_CORES", (core_vars-found a.assigned_cpu_cores n).2);
        no_cores = λ e k h. ground (
          arith,
          found k,
          coreless k a devices by_bus (core_vars-empty a.assigned_cpu_cores e) h,
          lookup-update k base environ d,
        );
        others = λ k h.
            ground (arith, found k, unowned k a devices by_bus h, lookup-update k base environ d);
      }
