-- ===== src/LogStream/Session.antt =====
-- Code: frontend/src/hooks/useLogStream.ts.
-- The hook's state over all its streams: what `start`, `stop` and the reading loops do to it, in
-- any order. Streams are numbered as they are started; `current` is the one in `abortRef`.
use vps_dashboard.Common.{
  ℕ, suc, ◌≤◌, ◌≡◌, ◌≢◌, refl, arith, Bool, true, false, Option, none, some, List, [], Text, ◌==◌,
  if◌then◌else◌, Bool-cases, inl, inr,
}
use mathlib.Core.Bool.{false≢true}
use vps_dashboard.LogStream.{append_line}

-- A stream that was not started, is read, was aborted while it was read, or has left its loop.
pub data Phase : Type 0 where
  unborn reading aborted settled : Phase

pub record LogState : Type 0 where
  pub lines : List Text
  pub streaming : Bool
  pub error : Option Text
  pub current : Option ℕ
  pub started : ℕ
  pub phase : ℕ → Phase

-- Aborting a stream that has left its loop has no effect.
abbrev abort : Phase → Phase
abort reading = aborted
abort unborn = unborn
abort aborted = aborted
abort settled = settled

abbrev set_phase : (ℕ → Phase) → ℕ → Phase → ℕ → Phase
set_phase phase i p = λ j. if j == i then p else phase j

abbrev abort_current : Option ℕ → (ℕ → Phase) → ℕ → Phase
abort_current none phase = phase
abort_current (some i) phase = set_phase phase i (abort (phase i))

unfoldable pub stop : LogState → LogState
stop s = record s { phase = abort_current s.current s.phase; current = none; streaming = false }

unfoldable pub start : LogState → LogState
unfolding stop
start s =
    let stopped = stop s in
    record {
      lines = [];
      error = none;
      streaming = true;
      current = some s.started;
      started = suc s.started;
      phase = set_phase stopped.phase s.started reading;
    }

-- A line for which `setLines` is called.
unfoldable pub receive : LogState → Text → LogState
receive s line = record s { lines = append_line s.lines line }

-- How a loop is left: at the end of the response, by another error, or by the abortion.
pub data Outcome : Type 0 where
  done abort_error : Outcome
  failed : Text → Outcome

-- The `catch` clause.
abbrev caught : Outcome → Option Text → Option Text
caught done error = error
caught abort_error error = error
caught (failed message) error = some message

-- The `catch` and `finally` clauses of stream `i`.
unfoldable pub settle : LogState → ℕ → Outcome → LogState
settle s i outcome = record s {
  phase = set_phase s.phase i settled;
  error = caught outcome s.error;
  streaming = false;
}

pub data Step (s : LogState) : LogState → Type 0 where
  started : Step s (start s)
  stopped : Step s (stop s)
  line : (i : ℕ) (text : Text) → s.phase i ≡ reading → Step s (receive s text)
  left : (i : ℕ) (outcome : Outcome) → s.phase i ≡ reading → Step s (settle s i outcome)
  left_aborted : (i : ℕ) → s.phase i ≡ aborted → Step s (settle s i abort_error)

abbrev pub initial : LogState
initial = record {
  lines = [];
  streaming = false;
  error = none;
  current = none;
  started = 0;
  phase = λ i. unborn;
}

pub data Reach : LogState → Type 0 where
  here : Reach initial
  next : {s t : LogState} → Reach s → Step s t → Reach t

pub record IsValid (s : LogState) : Type 0 where
  pub unborn_after : (i : ℕ) → s.started ≤ i → s.phase i ≡ unborn
  pub one_reader : (i : ℕ) → s.phase i ≡ reading → s.current ≡ some i
  pub streams : s.streaming ≡ true → (i : ℕ) × (s.current ≡ some i) × (s.phase i ≡ reading)

abort_current-unborn :
    (c : Option ℕ) (phase : ℕ → Phase) (i : ℕ) → phase i ≡ unborn → abort_current c phase i ≡ unborn
abort_current-unborn none phase i h = h
abort_current-unborn (some c) phase i h = ground arith

abort_current-reading :
    (c : Option ℕ) (phase : ℕ → Phase) (i : ℕ)
    → abort_current c phase i ≡ reading
    → (phase i ≡ reading) × (c ≢ some i)
abort_current-reading none phase i h = (h, λ e. cc)
abort_current-reading (some c) phase i h = elim (Bool-cases (i == c)) [
  | inl same ↦ absurd (not_reading (phase c) (rw same at h))
  | inr other ↦ (rw other at h, λ e. ground arith)
]
  where
    not_reading : (p : Phase) → abort p ≡ reading → ⊥
    not_reading unborn e = cc
    not_reading reading e = cc
    not_reading aborted e = cc
    not_reading settled e = cc

-- After `stop`, which also runs when the component is unmounted, no stream is read any more.
stop-not_reading : (s : LogState) → IsValid s → (i : ℕ) → (stop s).phase i ≢ reading
unfolding stop
stop-not_reading s v i h =
    let (was, other) = abort_current-reading s.current s.phase i h in other (v.one_reader i was)

stop-unborn : (s : LogState) → IsValid s → (i : ℕ) → s.started ≤ i → (stop s).phase i ≡ unborn
unfolding stop
stop-unborn s v i h = abort_current-unborn s.current s.phase i (v.unborn_after i h)

stop-IsValid : (s : LogState) → IsValid s → IsValid (stop s)
stop-IsValid s v = record {
  unborn_after = λ i h. stop-unborn s v i (unfold stop in h);
  one_reader = λ i h. absurd (stop-not_reading s v i h);
  streams = λ e. absurd (false≢true (unfold stop in e));
}

start-IsValid : (s : LogState) → IsValid s → IsValid (start s)
unfolding start
start-IsValid s v = record {
  unborn_after = λ i h. ground (arith, abort_current-unborn s.current s.phase i, v.unborn_after i);
  one_reader = λ i h. ground (arith, stop-not_reading s v i);
  streams = λ e. (s.started, refl, ground arith);
}

settle-IsValid :
    (s : LogState) (i : ℕ) (outcome : Outcome)
    → s.phase i ≢ unborn
    → IsValid s
    → IsValid (settle s i outcome)
unfolding settle
settle-IsValid s i outcome born v = record {
  unborn_after = λ j h. ground (arith, v.unborn_after j, v.unborn_after i);
  one_reader = λ j h. ground (arith, v.one_reader j);
  streams = λ e. cc;
}

Step-IsValid : {s t : LogState} → Step s t → IsValid s → IsValid t
Step-IsValid {s} started v = start-IsValid s v
Step-IsValid {s} stopped v = stop-IsValid s v
Step-IsValid {s} (line i text h) v =
    unfold receive in
    record { unborn_after = v.unborn_after; one_reader = v.one_reader; streams = v.streams }
Step-IsValid {s} (left i outcome h) v = settle-IsValid s i outcome (λ e. cc) v
Step-IsValid {s} (left_aborted i h) v = settle-IsValid s i abort_error (λ e. cc) v

initial-IsValid : IsValid initial
initial-IsValid = record { unborn_after = λ i h. refl; one_reader = λ i h. cc; streams = λ e. cc }

Reach-IsValid : {s : LogState} → Reach s → IsValid s
Reach-IsValid here = initial-IsValid
Reach-IsValid (next r st) = Step-IsValid st (Reach-IsValid r)

-- In every state that the log hook reaches, at most one stream is read, the one that stop would
-- abort; streaming is true only while such a stream is read; and after stop none is read.
pub Reach_lem :
    (s : LogState)
    → Reach s
    → ((i : ℕ) → s.phase i ≡ reading → s.current ≡ some i)
      × (s.streaming ≡ true → (i : ℕ) × (s.current ≡ some i) × (s.phase i ≡ reading))
      × ((i : ℕ) → (stop s).phase i ≢ reading)
Reach_lem s r = let v = Reach-IsValid r in (v.one_reader, v.streams, stop-not_reading s v)

abort_current-eq :
    (c : Option ℕ) (phase : ℕ → Phase) (i n : ℕ)
    → c ≡ some i
    → phase i ≡ reading
    → i ≢ n
    → set_phase (abort_current c phase) n reading i ≡ aborted
abort_current-eq none phase i n e h ne = cc
abort_current-eq (some c) phase i n e h ne = ground arith

-- If a stream is started while another is read, then once the abortion of the first arrives its
-- finally clause clears the badge, although the new stream is current and read.
pub overtaken :
    (s : LogState) (i : ℕ)
    → Reach s
    → s.phase i ≡ reading
    → Step (start s) (settle (start s) i abort_error)
      × ((settle (start s) i abort_error).streaming ≡ false)
      × ((settle (start s) i abort_error).current ≡ some s.started)
      × ((settle (start s) i abort_error).phase s.started ≡ reading)
unfolding start settle
overtaken s i r h =
    let v = Reach-IsValid r in
    let current = v.one_reader i h in
    let other : i ≢ s.started = λ e. cc (v.unborn_after s.started (omega arith)) in
    (
      left_aborted i (abort_current-eq s.current s.phase i s.started current h other),
      refl,
      refl,
      ground arith,
    )
