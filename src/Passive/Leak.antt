-- ===== src/Passive/Leak.antt =====
-- `newPassiveDataTransfer` of ftp/transfer.go on ports where no listener comes up.
use s3ftpgateway.Base.{ℕ, zero, suc, ◌+◌, ◌<◌, ◌≡◌, refl, Bool, false, some, arith}
use s3ftpgateway.Passive.{not_listening, attempt, new_passive_data_transfer}
use s3ftpgateway.Ports.{PortConfig, Pool}
use s3ftpgateway.Ports.Lease.{Leases, lease, Holds, HasRange, choose-taken, taken-Holds}
use s3ftpgateway.Ports.Shape.{taken, port_at}

module _ {cfg : PortConfig} {min size : ℕ} (range : HasRange cfg min size) where
  attempt-leaks :
      (intn : ℕ → ℕ → ℕ) (listens : ℕ → ℕ → Bool) (i left : ℕ) (s : Pool) (held : Leases)
      → ((j n : ℕ) → 0 < n → intn j n < n)
      → ((j p : ℕ) → listens j p ≡ false)
      → Holds min size s held
      → left < s.num_empty_ports
      → (s' : Pool) × (attempt intn listens cfg i left (some s) ≡ (not_listening, some s'))
        × (s'.num_empty_ports + suc left ≡ s.num_empty_ports)
  unfolding attempt
  attempt-leaks intn listens i zero s held random down h some_left =
      let idx : ℕ = intn i s.num_empty_ports in
      let lt : idx < s.num_empty_ports = random i s.num_empty_ports (omega arith) in
      (
        taken min idx s,
        rw (choose-taken range (intn i) s held lt h, down i (port_at s idx)) refl,
        omega arith,
      )
  attempt-leaks intn listens i (suc left) s held random down h some_left =
      let idx : ℕ = intn i s.num_empty_ports in
      let lt : idx < s.num_empty_ports = random i s.num_empty_ports (omega arith) in
      let (s', end, count) =
        attempt-leaks intn listens (i + 1) left (taken min idx s) (lease (port_at s idx) held)
          random down (taken-Holds h lt) (omega arith) in
      (
        s',
        rw (choose-taken range (intn i) s held lt h, down i (port_at s idx)) end,
        omega (arith, count),
      )

  -- For a configured range without port 0, random numbers in bounds and a pool with at least six
  -- free ports: if a listener comes up in no round, newPassiveDataTransfer fails and six ports
  -- fewer are free.
  pub new_passive_data_transfer-leaks :
      (intn : ℕ → ℕ → ℕ) (listens : ℕ → ℕ → Bool) (s : Pool) (held : Leases)
      → ((j n : ℕ) → 0 < n → intn j n < n)
      → ((j p : ℕ) → listens j p ≡ false)
      → Holds min size s held
      → 5 < s.num_empty_ports
      → (s' : Pool) × (new_passive_data_transfer intn listens cfg (some s)
          ≡ (not_listening, some s'))
        × (s'.num_empty_ports + 6 ≡ s.num_empty_ports)
  unfolding new_passive_data_transfer
  new_passive_data_transfer-leaks intn listens s = attempt-leaks intn listens 0 5 s
