-- ===== src/Result.antt =====
-- The exceptions that the modelled methods raise, as values: AdmissionError, StateTransitionError
-- (drigs/core/queue.py), ResourceError (drigs/core/resource_manager.py) and IsolationError
-- (drigs/execution/isolation.py), ExecutionError (drigs/execution/native.py), and the ValueError and
-- RuntimeError of distributed.py and of drigs/workers/dispatcher.py. A message is a constructor.
use drigs.Prelude.{String, ◌≡◌, refl, ◌⊎◌, inl, inr}
use drigs.Models.{DeviceState, JobStatus}

-- Why AdmissionController.validate_job or JobQueue.enqueue turns a job down.
pub data Rejection : Type 0 where
  empty_name empty_spec_name empty_entrypoint no_cpus : Rejection
  gpu_limit cpu_limit : Rejection
  capacity_exceeded already_present : Rejection

-- Why ResourceManager.allocate_resources turns a request down.
pub data Refusal : Type 0 where
  already_allocated unknown_worker : Refusal
  unknown_device device_not_available insufficient_vram : String → Refusal

-- Why GPUIsolationManager.reserve_gpus turns a reservation down.
pub data Conflict : Type 0 where
  already_reserved gpu_taken : String → Conflict

-- Why RemoteDispatcher.dispatch turns a job down.
pub data Misroute : Type 0 where
  worker_not_registered no_agent : String → Misroute
  worker_down : DeviceState → Misroute

pub data Error : Type 0 where
  admission_error : Rejection → Error
  invalid_transition : JobStatus → JobStatus → Error
  job_not_found : String → Error
  resource_error : Refusal → Error
  isolation_error : Conflict → Error
  dispatch_error : Misroute → Error
  -- ExecutionError of native.py, and the ValueError and RuntimeError of distributed.py
  empty_entry docker_unavailable : Error
  launch_failed : Error → Error
  -- A value outside the bounds of a field.
  validation_error : Error
  -- An exception of code that is not modelled, such as an execution backend.
  external_error : String → Error
  -- `KeyError` of a subscript
  key_error : String → Error

pub data Result {ℓ} (A : Type ℓ) : Type ℓ where
  ok : A → Result A
  raise : Error → Result A

infixl 5 ◌>>=◌ ◌>>◌
abbrev pub ◌>>=◌ {ℓ κ} : {A : Type ℓ} {B : Type κ} → Result A → (A → Result B) → Result B
ok a >>= f = f a
raise e >>= f = raise e

abbrev pub ◌>>◌ {ℓ} : {B : Type ℓ} → Result (Unit {0}) → Result B → Result B
m >> k = m >>= λ _. k

-- The state after a call: a call that raises leaves it as it was.
abbrev pub after {ℓ} : {S : Type ℓ} → S → Result S → S
after s (ok t) = t
after s (raise e) = s

pub Result-cases {ℓ} :
    {A : Type ℓ} (r : Result A) → ((a : A) × (r ≡ ok a)) ⊎ ((e : Error) × (r ≡ raise e))
Result-cases (ok a) = inl (a, refl)
Result-cases (raise e) = inr (e, refl)

-- A property of the answer, if there is one.
abbrev pub Gives {ℓ κ} : {A : Type ℓ} → (A → Type κ) → Result A → Type κ
Gives P (ok a) = P a
Gives P (raise e) = Unit

pub Gives-bind {ℓ κ κ'} :
    {A : Type ℓ} {B : Type κ} (P : B → Type κ') (m : Result A) (f : A → Result B)
    → ((a : A) → Gives P (f a))
    → Gives P (m >>= f)
Gives-bind P (ok a) f h = h a
Gives-bind P (raise e) f h = tt

pub Gives-map {ℓ κ κ'} :
    {A : Type ℓ} (P : A → Type κ) (Q : A → Type κ') (r : Result A)
    → ((a : A) → P a → Q a)
    → Gives P r
    → Gives Q r
Gives-map P Q (ok a) f h = f a h
Gives-map P Q (raise e) f h = tt
