-- ===== src/Examples/Watching.antt =====
-- A registry with a late worker.
use drigs.Prelude.{refl, contains, dec_text, none, [], ◌∷◌, ◌≡◌}
use drigs.Workers.Registry.{WorkerRegistry, check_timeouts, scan}
use drigs.Workers.Registry.Timeouts.{IsSettled, check_timeouts-IsSettled}
use drigs.Examples.Data.{whole, big, small}

-- The timeout is 15; the second worker was heard from at 20.
abbrev pub registry : WorkerRegistry whole.F
registry = record {
  timeout_seconds = 16;
  storage = none;
  workers = ("w1", big) ∷ ("w0", record small { last_heartbeat = 20 }) ∷ [];
}

late_ids : (check_timeouts whole 30 registry).1 ≡ "w1" ∷ []
unfolding check_timeouts scan
late_ids = refl

check_timeouts-IsSettled_example :
    IsSettled whole 30 registry
      (check_timeouts whole 30 registry).0
      (check_timeouts whole 30 registry).1
check_timeouts-IsSettled_example =
    check_timeouts-IsSettled whole 30 registry (unfold contains dec_text in (refl, (refl, tt)))
