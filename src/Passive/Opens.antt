-- ===== src/Passive/Opens.antt =====
-- The ports that `newPassiveDataTransfer` and `listen` of ftp/transfer.go take and give back.
use s3ftpgateway.Base.{
  ℕ, zero, suc, ◌+◌, ◌≤◌, ◌<◌, ◌≡◌, ◌≢◌, refl, Bool, true, false, Option, some, List, [], ◌∷◌,
  Bytes, arith, Bool-cases, inl, inr,
}
use s3ftpgateway.Passive.{
  Opened, listening, no_port, not_listening, try_listen, attempt, new_passive_data_transfer, Accept,
  temporary, failed, accepted, Outcome, handed, handed_error, abandoned, waiting, valid_remote,
  accept_loop, listen, at_end,
}
use s3ftpgateway.Ports.{
  PortConfig, Pool, Choice, chosen, empty_port_not_found, passive_mode_is_disabled, panicked,
  choose_passive_port, release_passive_port,
}
use s3ftpgateway.Ports.Lease.{
  Leases, lease, unlease, Holds, HoldsState, Chooses, HasRange, choose_passive_port-Chooses,
  release_passive_port-unlease,
}

-- The state holds a set of leases that has all of an earlier one.
pub record Extends (min size : ℕ) (held : Leases) (state : Option Pool) : Type 0 where
  pub now : Leases
  pub holds : HoldsState min size state now
  pub keeps : (q : ℕ) → held q ≡ true → now q ≡ true

abbrev pub Opens : ℕ → ℕ → Leases → Opened × Option Pool → Type 0
Opens min size held (listening p, state) =
    (min ≤ p)
    × (p < min + size)
    × (held p ≡ false)
    × ((e : Extends min size held state) × (e.now p ≡ true))
Opens min size held (no_port empty_port_not_found, state) =
    (e : Extends min size held state) × ((k : ℕ) → k < size → e.now (min + k) ≡ true)
Opens min size held (no_port c, state) = ⊥
Opens min size held (not_listening, state) = Extends min size held state

lease_mono : (p q : ℕ) (held : Leases) → held q ≡ true → lease p held q ≡ true
lease_mono p q held h = ground arith

-- What a later round keeps is kept from an earlier set on.
Opens-mono :
    (min size p : ℕ) (held : Leases) (r : Opened × Option Pool)
    → Opens min size (lease p held) r
    → Opens min size held r
Opens-mono min size p held (listening q, state) (ge, lt, free, (e, on)) = (
  ge,
  lt,
  ground (arith, free),
  (record { now = e.now; holds = e.holds; keeps = λ x h. e.keeps x (lease_mono p x held h) }, on),
)
Opens-mono min size p held (no_port empty_port_not_found, state) (e, all) =
    (record { now = e.now; holds = e.holds; keeps = λ x h. e.keeps x (lease_mono p x held h) }, all)
Opens-mono min size p held (no_port (chosen q), state) o = o
Opens-mono min size p held (no_port passive_mode_is_disabled, state) o = o
Opens-mono min size p held (no_port panicked, state) o = o
Opens-mono min size p held (not_listening, state) e = record {
  now = e.now;
  holds = e.holds;
  keeps = λ x h. e.keeps x (lease_mono p x held h);
}

try_listen-Opens :
    (min size : ℕ) (held : Leases) (retry : Option Pool → Opened × Option Pool) (listens : ℕ → Bool)
    (c : Choice × Option Pool)
    → Chooses min size held c
    → ((p : ℕ) (s : Option Pool)
        → HoldsState min size s (lease p held)
        → Opens min size (lease p held) (retry s))
    → Opens min size held (try_listen retry listens c)
try_listen-Opens min size held retry listens (chosen p, state) (ge, lt, free, h) again =
    elim (Bool-cases (listens p)) [
      | inl up ↦ rw up (
        ge,
        lt,
        free,
        (record { now = lease p held; holds = h; keeps = λ q. lease_mono p q held }, ground arith),
      )
      | inr down ↦ rw down (Opens-mono min size p held (retry state) (again p state h))
    ]
try_listen-Opens min size held retry listens (empty_port_not_found, state) (all, h) again =
    (record { now = held; holds = h; keeps = λ q on. on }, all)
try_listen-Opens min size held retry listens (passive_mode_is_disabled, state) c again = c
try_listen-Opens min size held retry listens (panicked, state) c again = c

module _ {cfg : PortConfig} {min size : ℕ} (range : HasRange cfg min size) where
  attempt-Opens :
      (intn : ℕ → ℕ → ℕ) (listens : ℕ → ℕ → Bool) (i left : ℕ) (state : Option Pool) (held : Leases)
      → ((j n : ℕ) → 0 < n → intn j n < n)
      → HoldsState min size state held
      → Opens min size held (attempt intn listens cfg i left state)
  unfolding attempt
  attempt-Opens intn listens i zero state held random h =
      try_listen-Opens min size held (λ s. (not_listening, s)) (listens i)
        (choose_passive_port (intn i) cfg state)
        (choose_passive_port-Chooses range (intn i) state held (random i) h)
        (λ p s h'. record { now = lease p held; holds = h'; keeps = λ q on. on })
  attempt-Opens intn listens i (suc left) state held random h =
      try_listen-Opens min size held (attempt intn listens cfg (i + 1) left) (listens i)
        (choose_passive_port (intn i) cfg state)
        (choose_passive_port-Chooses range (intn i) state held (random i) h)
        (λ p s. attempt-Opens intn listens (i + 1) left s (lease p held) random)

  -- For a configured range without port 0, random numbers in bounds and a pool whose leased ports
  -- are a given set, whatever rounds a listener comes up in: newPassiveDataTransfer listens on a
  -- port of the range that was free and is now leased; or it finds no port, and then the whole
  -- range is leased; or no listener comes up. All that was leased stays leased, and the pool stays
  -- well formed.
  pub new_passive_data_transfer-Opens :
      (intn : ℕ → ℕ → ℕ) (listens : ℕ → ℕ → Bool) (state : Option Pool) (held : Leases)
      → ((j n : ℕ) → 0 < n → intn j n < n)
      → HoldsState min size state held
      → Opens min size held (new_passive_data_transfer intn listens cfg state)
  unfolding new_passive_data_transfer
  new_passive_data_transfer-Opens intn listens = attempt-Opens intn listens 0 5

  -- For a configured range without port 0 and a leased port of it: when the loop of listen ends,
  -- whichever way, the port is given back, and exactly that port.
  pub listen-unlease :
      (ip_equal : Bytes → Bytes → Bool) (remote_ip : Option Bytes) (disable : Bool) (p : ℕ)
      (es : List Accept) (s : Pool) (held : Leases)
      → Holds min size s held
      → min ≤ p
      → p < min + size
      → held p ≡ true
      → accept_loop ip_equal remote_ip disable es ≢ waiting
      → (s' : Pool) × (listen ip_equal remote_ip disable cfg p es (some s)
          ≡ some (accept_loop ip_equal remote_ip disable es, some s'))
        × Holds min size s' (unlease p held)
  unfolding listen
  listen-unlease ip_equal remote_ip disable p es s held h ge lt on ended =
      let (s', back, holds) = release_passive_port-unlease range p s held h ge lt on in
      (s', at_end-release (accept_loop ip_equal remote_ip disable es) s' back ended, holds)
    where
      at_end-release :
          (o : Outcome) (s' : Pool)
          → release_passive_port cfg p (some s) ≡ some (some s')
          → o ≢ waiting
          → at_end ip_equal remote_ip disable cfg p (some s) o ≡ some (o, some s')
      at_end-release waiting s' back e = absurd (e refl)
      at_end-release (handed c) s' back e = rw (at_end, back) refl
      at_end-release handed_error s' back e = rw (at_end, back) refl
      at_end-release abandoned s' back e = rw (at_end, back) refl

-- A connection that listen hands over comes from an address that the check of the client's address
-- accepts.
pub accept_loop-valid :
    (ip_equal : Bytes → Bytes → Bool) (remote_ip : Option Bytes) (disable : Bool) (es : List Accept)
    (peer : Option Bytes)
    → accept_loop ip_equal remote_ip disable es ≡ handed peer
    → valid_remote ip_equal remote_ip disable peer ≡ true
unfolding accept_loop
accept_loop-valid ip_equal remote_ip disable [] peer e = ground arith
accept_loop-valid ip_equal remote_ip disable (temporary ∷ es) peer e =
    accept_loop-valid ip_equal remote_ip disable es peer e
accept_loop-valid ip_equal remote_ip disable (failed closed ∷ es) peer e = ground arith
accept_loop-valid ip_equal remote_ip disable (accepted p closed ∷ es) peer e =
    ground (arith, accept_loop-valid ip_equal remote_ip disable es peer)
