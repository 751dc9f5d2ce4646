-- ===== src/Execution/Logs.antt =====
-- stream_logs of drigs/execution/native.py, which docker.py repeats: the reading of a log file while
-- its process runs. The file is the text that it is decoded to, as the codes of its characters.
use drigs.Prelude.{
  ℕ, zero, suc, ◌+◌, ◌-◌, ◌≤◌, ◌<◌, ◌≡◌, ◌⊎◌, refl, sym, ◌∙◌, subst, Bool, true, false, Option,
  none, some, List, [], ◌∷◌, ◌++◌, length, arith, ◌==◌, if◌then◌else◌, Bool-cases, inl, inr, ap,
  leb, leb→le,
}
use mathlib.Core.Bool.{false≢true}

-- The file and the process as they are seen over time: whether the file is there, its text, and
-- whether get_status answers another status than RUNNING and PENDING.
pub record Watched : Type 0 where
  pub exists : ℕ → Bool
  pub log : ℕ → List ℕ
  pub settled : ℕ → Bool

-- f.readline(): the text up to its first line feed, or all of it.
unfoldable pub line_at : List ℕ → List ℕ
line_at [] = []
line_at (c ∷ cs) = let rest = line_at cs in if c == 10 then c ∷ [] else c ∷ rest

-- text[pos:]
unfoldable pub drop : ℕ → List ℕ → List ℕ
drop zero cs = cs
drop (suc n) [] = []
drop (suc n) (c ∷ cs) = drop n cs

-- What is yielded for a line that may be empty.
abbrev pub chunk : List ℕ → List (List ℕ)
chunk [] = []
chunk (c ∷ cs) = (c ∷ cs) ∷ []

abbrev pub and_then : List ℕ → Option (List (List ℕ)) → Option (List (List ℕ))
and_then line none = none
and_then line (some lines) = some (line ∷ lines)

-- The loop, from a time on and from a position in the file on: a line, or the part of it that is
-- there, is read at each round; at the end of the file the status is looked at a moment later, and
-- if it is settled one more line is read. `none` is a loop that has not ended within the fuel.
unfoldable pub read_lines : Watched → (fuel time pos : ℕ) → Option (List (List ℕ))
unfolding line_at drop
read_lines w zero time pos = none
read_lines w (suc fuel) time pos =
    let line = line_at (drop pos (w.log time)) in
    let following = read_lines w fuel (suc time) (pos + length line) in
    let later = read_lines w fuel (suc (suc (suc time))) pos in
    elim line [
      | c ∷ cs ↦ and_then (c ∷ cs) following
      | [] ↦
          if w.settled (suc time)
          then some (chunk (line_at (drop pos (w.log (suc (suc time))))))
          else later
    ]

-- The wait for the file, and the loop.
unfoldable pub stream_logs : Watched → (fuel time : ℕ) → Option (List (List ℕ))
unfolding read_lines
stream_logs w zero time = none
stream_logs w (suc fuel) time =
    let later = stream_logs w fuel (suc time) in
    if w.exists time then read_lines w fuel time 0 else later

-- The text of some lines.
unfoldable pub text_of : List (List ℕ) → List ℕ
text_of [] = []
text_of (line ∷ lines) = line ++ text_of lines

-- At most one line, with or without its line feed.
abbrev pub OneLine : List ℕ → Type 0
OneLine cs = line_at cs ≡ cs

-- What a stream of a log needs to show all of it, `final`.
pub record IsQuiet (w : Watched) (deadline : ℕ) (final : List ℕ) : Type 0 where
  -- from the deadline on the file is there and the status is settled
  pub appears : (n : ℕ) → deadline ≤ n → w.exists n ≡ true
  pub settles : (n : ℕ) → deadline ≤ n → w.settled n ≡ true
  -- the file is at any time a beginning of `final`
  pub grows : (n : ℕ) → (rest : List ℕ) × (w.log n ++ rest ≡ final)
  -- once the status is settled the file is final, and one line at most is new since the last read
  pub finished : (n : ℕ) → w.settled (suc n) ≡ true → w.log (suc (suc n)) ≡ final
  pub quiet : (n : ℕ) → w.settled (suc n) ≡ true → OneLine (drop (length (w.log n)) final)

line_at-split : (s r : List ℕ) → line_at s ++ drop (length (line_at s)) (s ++ r) ≡ s ++ r
unfolding line_at drop
line_at-split [] r = refl
line_at-split (c ∷ s) r = elim (Bool-cases (c == 10)) [
  | inl e ↦ rw e refl
  | inr e ↦ rw e (ap (λ t. c ∷ t) (line_at-split s r))
]

line_at-empty : (s : List ℕ) → line_at s ≡ [] → s ≡ []
unfolding line_at
line_at-empty [] e = refl
line_at-empty (c ∷ s) e = ground (arith, e)

drop-empty : (n : ℕ) (s : List ℕ) → drop n s ≡ [] → length s ≤ n
unfolding drop
drop-empty zero s e = rw e (omega arith)
drop-empty (suc n) [] e = omega arith
drop-empty (suc n) (c ∷ s) e = omega (arith, drop-empty n s e)

drop_nil : (n : ℕ) → drop n [] ≡ []
unfolding drop
drop_nil zero = refl
drop_nil (suc n) = refl

drop-drop : (n k : ℕ) (s : List ℕ) → drop k (drop n s) ≡ drop (n + k) s
unfolding drop
drop-drop zero k s = ap (λ i. drop i s) (omega arith)
drop-drop (suc n) k [] = drop_nil k ∙ sym (drop_nil (suc n + k))
drop-drop (suc n) k (c ∷ s) =
    drop-drop n k s ∙ ap (λ i. drop i (c ∷ s)) {x = suc (n + k)} {y = suc n + k} (omega arith)

-- What is left of one line is one line.
OneLine-drop : (k : ℕ) (s : List ℕ) → OneLine s → OneLine (drop k s)
unfolding line_at drop
OneLine-drop zero s h = h
OneLine-drop (suc k) [] h = refl
OneLine-drop (suc k) (c ∷ s) h = elim (Bool-cases (c == 10)) [
  | inl e ↦ let nil : s ≡ [] = ground (arith, e, h) in rw nil (rw (drop_nil k) refl)
  | inr e ↦ OneLine-drop k s (ground (arith, e, h))
]

-- What is read from a beginning of the text, and what is left of the text.
read_line :
    (c : ℕ) (cs : List ℕ) (pos : ℕ) (l rest : List ℕ)
    → line_at (drop pos l) ≡ c ∷ cs
    → ((c ∷ cs) ++ drop (pos + length (c ∷ cs)) (l ++ rest) ≡ drop pos (l ++ rest))
      × (pos < length (l ++ rest))
unfolding drop line_at
read_line c cs zero [] rest e = cc
read_line c cs zero (x ∷ l) rest e = (
  ap (λ i. (c ∷ cs) ++ drop i (x ∷ l ++ rest)) {x = 0 + length (c ∷ cs)} {y = length (c ∷ cs)}
        (omega arith)
      ∙ subst (λ t. t ++ drop (length t) (x ∷ l ++ rest) ≡ x ∷ l ++ rest) e
          (line_at-split (x ∷ l) rest),
  omega arith,
)
read_line c cs (suc pos) [] rest e = cc
read_line c cs (suc pos) (x ∷ l) rest e =
    let (left, below) = read_line c cs pos l rest e in
    (
      ap (λ i. (c ∷ cs) ++ drop i (x ∷ l ++ rest)) {x = suc pos + length (c ∷ cs)}
            {y = suc (pos + length (c ∷ cs))} (omega arith)
          ∙ left,
      omega (arith, below),
    )

text_of-chunk : (s : List ℕ) → text_of (chunk s) ≡ s
unfolding text_of
text_of-chunk [] = refl
text_of-chunk (c ∷ s) = ap (λ t. c ∷ t) (append_nil s)
  where
    append_nil : (t : List ℕ) → t ++ [] ≡ t
    append_nil [] = refl
    append_nil (x ∷ t) = ap (λ u. x ∷ u) (append_nil t)

-- The loop has ended, and has yielded this text.
Yields : List ℕ → Option (List (List ℕ)) → Type 0
Yields text o = (lines : List (List ℕ)) × ((o ≡ some lines) × (text_of lines ≡ text))

list_cases : (s : List ℕ) → (s ≡ []) ⊎ ((c : ℕ) × (cs : List ℕ) × (s ≡ c ∷ cs))
list_cases [] = inl refl
list_cases (c ∷ cs) = inr (c, cs, refl)

module _ (w : Watched) (deadline : ℕ) (final : List ℕ) (q : IsQuiet w deadline final) where
  last_read :
      (time pos : ℕ)
      → drop pos (w.log time) ≡ []
      → w.settled (suc time) ≡ true
      → OneLine (drop pos final)
  last_read time pos e s =
      let short = drop-empty pos (w.log time) e in
      let n = length (w.log time) in
      subst OneLine (drop-drop n (pos - n) final ∙ ap (λ i. drop i final) (omega (arith, short)))
        (OneLine-drop (pos - n) (drop n final) (q.quiet time s))

  reads_line :
      (fuel time pos c : ℕ) (cs : List ℕ)
      → line_at (drop pos (w.log time)) ≡ c ∷ cs
      → read_lines w (suc fuel) time pos
        ≡ and_then (c ∷ cs) (read_lines w fuel (suc time) (pos + length (c ∷ cs)))
  unfolding read_lines
  reads_line fuel time pos c cs e =
      rw (read_lines, e)
        (ap (λ line. and_then (c ∷ cs) (read_lines w fuel (suc time) (pos + length line))) e)

  reads_last :
      (fuel time pos : ℕ)
      → line_at (drop pos (w.log time)) ≡ []
      → w.settled (suc time) ≡ true
      → read_lines w (suc fuel) time pos
        ≡ some (chunk (line_at (drop pos (w.log (suc (suc time))))))
  unfolding read_lines
  reads_last fuel time pos e s = rw (read_lines, e, s) refl

  reads_later :
      (fuel time pos : ℕ)
      → line_at (drop pos (w.log time)) ≡ []
      → w.settled (suc time) ≡ false
      → read_lines w (suc fuel) time pos ≡ read_lines w fuel (suc (suc (suc time))) pos
  unfolding read_lines
  reads_later fuel time pos e s = rw (read_lines, e, s) refl

  -- Each round reads a part of the text or comes nearer to the deadline.
  rounds :
      (fuel time pos : ℕ)
      → (deadline - time) + (length final - pos) < fuel
      → Yields (drop pos final) (read_lines w fuel time pos)
  unfolding Yields text_of
  rounds zero time pos h = absurd (omega arith)
  rounds (suc fuel) time pos h = elim (list_cases (line_at (drop pos (w.log time)))) [
    | inr (c, cs, e) ↦
        let (rest, whole) = q.grows time in
        let (left, below) =
          subst (λ t. ((c ∷ cs) ++ drop (pos + length (c ∷ cs)) t ≡ drop pos t) × (pos < length t))
            whole (read_line c cs pos (w.log time) rest e) in
        let (lines, (got, is)) =
          rounds fuel (suc time) (pos + length (c ∷ cs)) (omega (arith, h, below)) in
        (
          (c ∷ cs) ∷ lines,
          (
            reads_line fuel time pos c cs e ∙ ap (and_then (c ∷ cs)) got,
            ap (λ t. (c ∷ cs) ++ t) is ∙ left,
          ),
        )
    | inl e ↦ elim (Bool-cases (w.settled (suc time))) [
      | inl s ↦
          let one = last_read time pos (line_at-empty _ e) s in
          (
            chunk (drop pos final),
            (
              reads_last fuel time pos e s
                  ∙ ap (λ l. some (chunk (line_at (drop pos l)))) (q.finished time s)
                  ∙ ap (λ l. some (chunk l)) one,
              text_of-chunk (drop pos final),
            ),
          )
      | inr s ↦
          let before : suc time < deadline = elim (Bool-cases (leb deadline (suc time))) [
            | inl l ↦
                absurd (false≢true (sym s ∙ q.settles (suc time) (leb→le deadline (suc time) l)))
            | inr l ↦ ground arith
          ] in
          let (lines, (got, is)) = rounds fuel (suc (suc (suc time))) pos (omega arith) in
          (lines, (reads_later fuel time pos e s ∙ got, is))
    ]
  ]

  waits :
      (fuel time : ℕ)
      → suc (deadline - time + length final) < fuel
      → Yields final (stream_logs w fuel time)
  unfolding stream_logs Yields drop
  waits zero time h = absurd (omega arith)
  waits (suc fuel) time h = elim (Bool-cases (w.exists time)) [
    | inl e ↦
        let (lines, (got, is)) = rounds fuel time 0 (omega arith) in
        (lines, (rw (stream_logs, e, got), is))
    | inr e ↦
        let before : time < deadline = elim (Bool-cases (leb deadline time)) [
          | inl l ↦ absurd (false≢true (sym e ∙ q.appears time (leb→le deadline time l)))
          | inr l ↦ ground arith
        ] in
        let (lines, (got, is)) = waits fuel (suc time) (omega arith) in
        (lines, (rw (stream_logs, e, got), is))
  ]

  -- A stream of a log ends, within as many rounds as the deadline and the length of the file allow,
  -- and the text of what it yields is that of the file, if from the deadline on the file is there
  -- and the status of the process is settled, the file is at any time a beginning of what it is in
  -- the end, which it is once the status is settled, and has then grown by one line at most, in
  -- whole or in part, since the round's read.
  pub stream_logs_complete :
      (fuel : ℕ)
      → suc (deadline + length final) < fuel
      → (lines : List (List ℕ)) × ((stream_logs w fuel 0 ≡ some lines) × (text_of lines ≡ final))
  unfolding Yields
  stream_logs_complete fuel h = waits fuel 0 (omega arith)
