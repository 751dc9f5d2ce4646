-- ===== src/Examples/Streaming.antt =====
-- A log of two lines, which is created at time 2 and written in parts, of a process that is settled
-- from time 5 on.
use drigs.Prelude.{
  ℕ, refl, some, List, [], ◌∷◌, ◌≡◌, leb, arith, true, if◌then◌else◌, Bool-cases, inl, inr,
}
use drigs.Execution.Logs.{
  Watched, stream_logs, text_of, line_at, drop, IsQuiet, stream_logs_complete,
}

abbrev epochs : List ℕ
epochs = 101 ∷ 49 ∷ 10 ∷ 101 ∷ 50 ∷ 10 ∷ []

abbrev written : ℕ → List ℕ
written n = if leb 4 n then epochs else 101 ∷ 49 ∷ 10 ∷ 101 ∷ []

abbrev watched : Watched
watched = record { exists = λ n. leb 2 n; log = written; settled = λ n. leb 5 n }

watched-IsQuiet : IsQuiet watched 5 epochs
unfolding line_at drop
watched-IsQuiet = record {
  appears = λ n h. ground arith;
  settles = λ n h. ground arith;
  grows = λ n. elim (Bool-cases (leb 4 n)) [
    | inl e ↦ ([], rw e refl)
    | inr e ↦ (50 ∷ 10 ∷ [], rw e refl)
  ];
  finished = λ n s. ground (arith, s);
  quiet = λ n s. let e : leb 4 n ≡ true = ground (arith, s) in rw e refl;
}

stream_logs_complete_example :
    (lines : List (List ℕ)) × ((stream_logs watched 13 0 ≡ some lines) × (text_of lines ≡ epochs))
stream_logs_complete_example =
    stream_logs_complete watched 5 epochs watched-IsQuiet 13 (omega arith)
