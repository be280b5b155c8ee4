-- ===== src/Gateway/Loop.antt =====
-- The loop of `Serve` in s3ftpgateway.go over the errors of its listeners and the signals.
use s3ftpgateway.Base.{
  ℕ, ◌≡◌, ◌+◌, ◌≤◌, Bool, true, false, Option, none, some, List, [], ◌∷◌, ◌++◌, if◌then◌else◌,
  arith,
}
use s3ftpgateway.LifeCycle.{ServeError, server_closed, accept_failed}

-- What the channels give: `serve` returned, a signal came, or `chshutdown` was closed.
pub data Event : Type 0 where
  serve_returned : ServeError → Event
  signal : Event
  shutdown_done : Event

-- What the loop does: it logs an error, starts `Shutdown` with ten seconds or without a limit,
-- closes the server, or exits.
pub data Action : Type 0 where
  log_error : Action
  shutdown_in_time : Action
  shutdown_unlimited : Action
  force_close : Action
  exit : ℕ → Action

-- `exitCode`, and whether `chshutdown` is not nil.
pub record State : Type 0 where
  pub exit_code : ℕ
  pub started : Bool

-- One round of the loop. A nil channel never gives anything.
unfoldable pub handle : Event → State → List Action × State
handle (serve_returned server_closed) s = ([], s)
handle (serve_returned (accept_failed e)) s = (
  log_error ∷ (if s.started then [] else shutdown_in_time ∷ []),
  record { exit_code = 1; started = true },
)
handle signal s =
    if s.started
    then (force_close ∷ [], s)
    else (shutdown_unlimited ∷ [], record s { started = true })
handle shutdown_done s = (if s.started then exit s.exit_code ∷ [] else [], s)

-- The status with which the program exits.
abbrev pub exit_status : List Action → Option ℕ
exit_status [] = none
exit_status (exit n ∷ as') = some n
exit_status (_ ∷ as') = exit_status as'

-- The loop up to the exit.
unfoldable pub run : List Event → State → List Action
run [] s = []
run (e ∷ es) s =
    let (actions, s') = handle e s in
    let rest = run es s' in elim (exit_status actions) [ some n ↦ actions | none ↦ actions ++ rest ]

abbrev pub initial : State
initial = record { exit_code = 0; started = false }

abbrev pub shutdowns : List Action → ℕ
shutdowns [] = 0
shutdowns (shutdown_in_time ∷ as') = 1 + shutdowns as'
shutdowns (shutdown_unlimited ∷ as') = 1 + shutdowns as'
shutdowns (_ ∷ as') = shutdowns as'

abbrev pub has_error : List Action → Bool
has_error [] = false
has_error (log_error ∷ as') = true
has_error (_ ∷ as') = has_error as'

-- What was started before counts.
abbrev IsProper : State → List Action → Type 0
IsProper s actions =
    ((if s.started then 1 else 0) + shutdowns actions ≤ 1)
    × ((n : ℕ)
        → exit_status actions ≡ some n
        → ((if s.started then 1 else 0) + shutdowns actions ≡ 1)
          × (n ≡ (if has_error actions then 1 else s.exit_code)))

run-IsProper : (es : List Event) (s : State) → IsProper s (run es s)
unfolding run handle
run-IsProper [] s = (ground arith, λ n e. absurd (ground arith))
run-IsProper (serve_returned server_closed ∷ es) s = run-IsProper es s
run-IsProper (serve_returned (accept_failed e) ∷ es) s =
    let (few, exits) = run-IsProper es (record { exit_code = 1; started = true }) in
    (ground arith, λ n x. ground (arith, exits n))
run-IsProper (signal ∷ es) s =
    let (few, exits) = run-IsProper es (record s { started = true }) in
    let (few', exits') = run-IsProper es s in
    (ground arith, λ n x. ground (arith, exits n, exits' n))
run-IsProper (shutdown_done ∷ es) s =
    let (few, exits) = run-IsProper es s in (ground arith, λ n x. ground (arith, exits n))

-- Whatever errors and signals the loop of Serve gets: it starts at most one shutdown; and if it
-- exits, it started exactly one before, and the status is 1 if it logged an error and 0 if not.
pub run-shutdowns :
    (es : List Event)
    → (shutdowns (run es initial) ≤ 1)
      × ((n : ℕ)
          → exit_status (run es initial) ≡ some n
          → (shutdowns (run es initial) ≡ 1) × (n ≡ (if has_error (run es initial) then 1 else 0)))
run-shutdowns es =
    let (few, exits) = run-IsProper es initial in
    (omega arith, λ n e. let (once, code) = exits n e in (omega arith, code))
