-- ===== src/Passive.antt =====
-- ftp/transfer.go: how a passive data transfer gets its port, `newPassiveDataTransfer`, and the loop
-- of its listener, `listen`, which gives the port back.
pub mod Channel
pub mod Opens
mod Tests
pub mod Leak
use s3ftpgateway.Base.{
  ℕ, zero, suc, ◌+◌, Bool, true, false, ◌||◌, Option, none, some, List, [], ◌∷◌, if◌then◌else◌,
  Bytes,
}
use s3ftpgateway.Ports.{PortConfig, Pool, Choice, chosen, choose_passive_port, release_passive_port}

-- What `newPassiveDataTransfer` returns: a listener's port, the error of `choosePassivePort`, or the
-- error of `net.Listen`.
pub data Opened : Type 0 where
  listening : ℕ → Opened
  no_port : Choice → Opened
  not_listening : Opened

-- One round: a port is chosen, and if no listener comes up on it, it stays chosen.
abbrev pub try_listen :
    (Option Pool → Opened × Option Pool) → (ℕ → Bool) → Choice × Option Pool → Opened × Option Pool
try_listen retry listens (chosen p, state) = if listens p then (listening p, state) else retry state
try_listen retry listens (c, state) = (no_port c, state)

-- Each round has its random number, and its answer of `net.Listen` on a port.
module _ (intn : ℕ → ℕ → ℕ) (listens : ℕ → ℕ → Bool) (cfg : PortConfig) where
  -- The rounds from `i` on, with `left` rounds behind the next.
  pub attempt : ℕ → ℕ → Option Pool → Opened × Option Pool
  attempt i zero state =
      try_listen (λ s. (not_listening, s)) (listens i) (choose_passive_port (intn i) cfg state)
  attempt i (suc left) state =
      try_listen (attempt (i + 1) left) (listens i) (choose_passive_port (intn i) cfg state)

  -- `newPassiveDataTransfer`: round 5 is the last.
  unfoldable pub new_passive_data_transfer : Option Pool → Opened × Option Pool
  new_passive_data_transfer = attempt 0 5

-- What `Accept` returns, with the peer's address if it is a TCP address, and whether the transfer is
-- closed by the time the result is handed over.
pub data Accept : Type 0 where
  temporary : Accept
  failed : Bool → Accept
  accepted : Option Bytes → Bool → Accept

-- How the loop ends: a connection is handed over, an error is, nobody wants either, or it goes on.
pub data Outcome : Type 0 where
  handed : Option Bytes → Outcome
  handed_error abandoned waiting : Outcome

-- `IP.Equal` and the client's address of the control connection are parameters.
module _ (ip_equal : Bytes → Bytes → Bool) (remote_ip : Option Bytes)
    (disable_address_check : Bool) where
  -- `validRemote`
  unfoldable pub valid_remote : Option Bytes → Bool
  valid_remote peer = disable_address_check || (elim remote_ip [
    | none ↦ false
    | some ctrl ↦ elim peer [ none ↦ false | some ip ↦ ip_equal ip ctrl ]
  ])

  -- The loop of `listen`. A connection of another peer is skipped.
  unfoldable pub accept_loop : List Accept → Outcome
  accept_loop [] = waiting
  accept_loop (temporary ∷ es) = accept_loop es
  accept_loop (failed closed ∷ es) = if closed then abandoned else handed_error
  accept_loop (accepted peer closed ∷ es) =
      let rest = accept_loop es in
      if valid_remote peer then (if closed then abandoned else handed peer) else rest

  abbrev pub at_end : PortConfig → ℕ → Option Pool → Outcome → Option (Outcome × Option Pool)
  at_end cfg port state waiting = some (waiting, state)
  at_end cfg port state o = elim (release_passive_port cfg port state) [
    | none ↦ none
    | some state' ↦ some (o, state')
  ]

  -- `listen`: whichever way it ends, the port is given back.
  unfoldable pub listen :
      PortConfig → ℕ → List Accept → Option Pool → Option (Outcome × Option Pool)
  listen cfg port es state = at_end cfg port state (accept_loop es)
