-- ===== src/Ports/Tests.antt =====
-- ftp/server.go: the pool of passive ports, run on a range of three ports.
use s3ftpgateway.Base.{ℕ, ◌<◌, ◌≡◌, refl, subst, none, some, [], ◌∷◌, arith}
use s3ftpgateway.Base.Int.{pos}
use s3ftpgateway.Ports.{
  PortConfig, Pool, chosen, choose_passive_port, release_passive_port, acquire, fresh_pool,
  count_from,
}
use s3ftpgateway.Ports.Lease.{
  lease, unlease, no_leases, Holds, Chooses, HasRange, choose_passive_port-Chooses,
  release_passive_port-unlease,
}
use s3ftpgateway.Ports.Runs.{choose, Run, start, next, Run-Chooses}

abbrev cfg : PortConfig
cfg = record { min_passive_port = pos 50000; max_passive_port = pos 50002 }

abbrev cfg-HasRange : HasRange cfg 50000 3
cfg-HasRange = record {
  min_eq = refl;
  max_eq = refl;
  min_pos = omega arith;
  size_pos = omega arith;
  max_le = omega arith;
}

-- Always the first free port.
abbrev first : ℕ → ℕ
first n = 0

first_lt : (n : ℕ) → 0 < n → first n < n
first_lt n h = h

-- The pool behind the first choice.
abbrev one_taken : Pool
one_taken = record {
  ports = 50002 ∷ 50001 ∷ 50000 ∷ [];
  idx_ports = 2 ∷ 1 ∷ 0 ∷ [];
  num_empty_ports = 2;
}

first_choice : choose_passive_port first cfg none ≡ (chosen 50000, some one_taken)
unfolding choose_passive_port acquire fresh_pool count_from
first_choice = ground arith

one_taken-Holds : Holds 50000 3 one_taken (lease 50000 no_leases)
one_taken-Holds =
    let first_taken : Chooses 50000 3 no_leases (choose_passive_port first cfg none) =
      choose_passive_port-Chooses cfg-HasRange first none no_leases first_lt (λ k h. refl) in
    let done : Chooses 50000 3 no_leases (chosen 50000, some one_taken) =
      subst (Chooses 50000 3 no_leases) first_choice first_taken in
    done.3

one_taken-Run : Run cfg (some one_taken) (lease 50000 no_leases)
one_taken-Run = next start (choose first first_lt first_choice)

release_passive_port-unlease_example :
    (s' : Pool) × (release_passive_port cfg 50000 (some one_taken) ≡ some (some s'))
    × Holds 50000 3 s' (unlease 50000 (lease 50000 no_leases))
release_passive_port-unlease_example =
    release_passive_port-unlease cfg-HasRange 50000 one_taken (lease 50000 no_leases)
      one_taken-Holds (omega arith) (omega arith) refl

Run-Chooses_example :
    Chooses 50000 3 (lease 50000 no_leases) (choose_passive_port first cfg (some one_taken))
Run-Chooses_example = Run-Chooses cfg-HasRange first one_taken-Run first_lt
