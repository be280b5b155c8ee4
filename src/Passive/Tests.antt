-- ===== src/Passive/Tests.antt =====
-- ftp/transfer.go: passive transfers on a range of ten ports.
use s3ftpgateway.Base.{
  ℕ, ◌+◌, ◌<◌, ◌≡◌, ◌≢◌, ◌⊎◌, refl, Bool, false, none, some, List, [], ◌∷◌, ◌==◌, Bytes, beq, arith,
}
use s3ftpgateway.Base.Int.{pos}
use s3ftpgateway.Passive.{
  not_listening, new_passive_data_transfer, Accept, temporary, accepted, handed, waiting,
  valid_remote, accept_loop,
}
use s3ftpgateway.Passive.Channel.{
  Socket, Transfer, offering, finished, finish, accept_conn, IsValid, IsKept, accepts,
  conn_receives, Reach, start, next, Reach-finished,
}
use s3ftpgateway.Passive.Channel
use s3ftpgateway.Passive.Leak.{new_passive_data_transfer-leaks}
use s3ftpgateway.Passive.Opens.{Opens, new_passive_data_transfer-Opens}
use s3ftpgateway.Ports.Lease.{lease, no_leases, Holds, HasRange, fresh_pool-Holds, taken-Holds}
use s3ftpgateway.Ports.Shape.{taken}
use s3ftpgateway.Ports.{PortConfig, Pool, fresh_pool, count_from}

abbrev ten : PortConfig
ten = record { min_passive_port = pos 50000; max_passive_port = pos 50009 }

abbrev ten-HasRange : HasRange ten 50000 10
ten-HasRange = record {
  min_eq = refl;
  max_eq = refl;
  min_pos = omega arith;
  size_pos = omega arith;
  max_le = omega arith;
}

abbrev first : ℕ → ℕ → ℕ
first j n = 0

first_lt : (j n : ℕ) → 0 < n → first j n < n
first_lt j n h = h

-- A listener comes up in the third round, or in none.
abbrev third : ℕ → ℕ → Bool
third j p = j == 2

abbrev never : ℕ → ℕ → Bool
never j p = false

new_passive_data_transfer-Opens_example :
    Opens 50000 10 no_leases (new_passive_data_transfer first third ten none)
new_passive_data_transfer-Opens_example =
    new_passive_data_transfer-Opens ten-HasRange first third none no_leases first_lt (λ k h. refl)

fresh-Holds : Holds 50000 10 (fresh_pool 50000 10) no_leases
fresh-Holds = fresh_pool-Holds (λ k h. refl)

new_passive_data_transfer-leaks_example :
    (s' : Pool) × (new_passive_data_transfer first never ten (some (fresh_pool 50000 10))
      ≡ (not_listening, some s'))
    × (s'.num_empty_ports + 6 ≡ 10)
unfolding fresh_pool
new_passive_data_transfer-leaks_example =
    new_passive_data_transfer-leaks ten-HasRange first never (fresh_pool 50000 10) no_leases
      first_lt (λ j p. refl) fresh-Holds (omega arith)

-- A temporary error, a foreign peer, and the client.
abbrev client : Bytes
client = 10 ∷ 0 ∷ 0 ∷ 1 ∷ []

abbrev peers : List Accept
peers = temporary ∷ accepted none false ∷ accepted (some client) false ∷ []

client_handed : accept_loop beq (some client) false peers ≡ handed (some client)
unfolding accept_loop valid_remote beq
client_handed = refl

abbrev socket : Socket
socket = record { number = 1; peer = some client }

abbrev offered : Transfer
offered = record Channel.fresh { phase = offering socket; taken = some socket }

abbrev received : Transfer
received = record (finish offered) { received = some socket }

-- The client connects, and the connection is received.
received-Reach : Reach beq (some client) false received
unfolding accept_conn valid_remote beq
received-Reach =
    next (next start (accepts socket Channel.fresh refl)) (conn_receives socket offered refl)

received-finished : received.phase ≡ finished
unfolding finish
received-finished = refl

Reach-finished_example :
    (received.released ≡ 1)
    × (((received.taken ≡ none) × (received.received ≡ none) × (received.conn ≡ none))
        ⊎ ((k : Socket) × (received.taken ≡ some k)
            × IsValid beq (some client) false k
            × IsKept beq (some client) false received k))
Reach-finished_example =
    Reach-finished beq (some client) false received received-Reach received-finished

-- One port is out.
abbrev used : Pool
used = taken 50000 0 (fresh_pool 50000 10)

used-Holds : Holds 50000 10 used (lease 50000 no_leases)
unfolding fresh_pool count_from
used-Holds = taken-Holds {idx = 0} fresh-Holds (omega arith)

not_waiting : accept_loop beq (some client) false peers ≢ waiting
not_waiting e = cc (client_handed, e)
