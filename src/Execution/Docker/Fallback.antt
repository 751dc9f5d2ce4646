-- ===== src/Execution/Docker/Fallback.antt =====
-- DockerBackend in drigs/execution/docker.py without a docker daemon.
use drigs.Prelude.{String, ◌≡◌, refl, false, none, some, List, [], ◌∷◌, subst, if_pos, dec_text}
use drigs.Models.{Job, ResourceAllocation}
use drigs.Result.{ok, Gives, Gives-bind}
use drigs.Execution.Text.{Text}
use drigs.Execution.Process.{ExecutionHandle, Poll, command}
use drigs.Execution.Native.{NativeBackend, start_process, as_launch_failure}
use drigs.Execution.Native
use drigs.Execution.Docker.{DockerBackend, Launching, launch, get_status, stop, native_of}

start_process-native :
    (t : Text) (os : Native.Launching) (job : Job) (a : ResourceAllocation) (n : NativeBackend)
    (cmd : List String)
    → Gives (λ p. p.1.backend_type ≡ "native") (start_process t os job a n cmd)
unfolding start_process
start_process-native t os job a n [] = tt
start_process-native t os job a n (word ∷ more) = Gives-bind _ (os.make_dir _) _ λ _.
    Gives-bind _ (os.open_log _) _
      λ _. Gives-bind _ (as_launch_failure (os.spawn _ _ _)) _ λ pid. refl

native_handle :
    (t : Text) (os : Native.Launching) (job : Job) (a : ResourceAllocation) (n : NativeBackend)
    → Gives (λ p. p.1.backend_type ≡ "native") (Native.launch t os job a n)
unfolding Native.launch
native_handle t os job a n =
    Gives-bind _ (command t job.spec.execution) _ λ cmd. start_process-native t os job a n cmd

-- If the docker daemon does not answer and there is a native backend, then a launch is a launch of
-- the native backend, with its handle; and whatever the processes answer, get_status and stop of
-- that handle answer what the native backend does.
pub launch-IsNative :
    (t : Text) (os : Launching) (job : Job) (a : ResourceAllocation) (b : DockerBackend)
    (n n' : NativeBackend) (h : ExecutionHandle)
    → os.available ≡ false
    → b.native_backend ≡ some n
    → Native.launch t os.natively job a n ≡ ok (n', h)
    → let b' = record b { native_backend = some n' } in
      (launch t os job a b ≡ ok (b', h))
      × ((poll : Poll)
          → ((get_status poll h b').1 ≡ (Native.get_status poll h n').1)
            × ((stop poll h b').1 ≡ (Native.stop poll h n').1))
unfolding launch get_status stop
launch-IsNative t os job a b n n' h off inner e =
    let kind : h.backend_type ≡ "native" =
      subst (Gives (λ (p : NativeBackend × ExecutionHandle). p.1.backend_type ≡ "native")) e
        (native_handle t os.natively job a n) in
    let inside : native_of h (record b { native_backend = some n' }) ≡ some n' =
      if_pos (dec_text h.backend_type "native") kind (some n') none in
    (
      rw (launch, off, inner, e) refl,
      λ poll. (rw (get_status, inside) refl, rw (stop, inside) refl),
    )
