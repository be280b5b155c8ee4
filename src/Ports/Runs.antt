-- ===== src/Ports/Runs.antt =====
-- Calls of `choosePassivePort` and `releasePassivePort` of ftp/server.go in any order.
use s3ftpgateway.Base.{ℕ, ◌+◌, ◌≤◌, ◌<◌, ◌≡◌, refl, true, ◌-◌, subst, Option, none, some, arith}
use s3ftpgateway.Ports.{
  PortConfig, Pool, chosen, empty_port_not_found, choose_passive_port, release_passive_port,
}
use s3ftpgateway.Ports.Lease.{
  Leases, lease, unlease, no_leases, HoldsState, Chooses, HasRange, choose_passive_port-Chooses,
  release_passive_port-unlease,
}

-- Connections take ports and give back what they hold; a choice may also find no port.
pub data Step (cfg : PortConfig) : Option Pool → Leases → Option Pool → Leases → Type 0 where
  choose :
      {state state' : Option Pool} {held : Leases} {p : ℕ} (intn : ℕ → ℕ)
      → ((n : ℕ) → 0 < n → intn n < n)
      → choose_passive_port intn cfg state ≡ (chosen p, state')
      → Step cfg state held state' (lease p held)
  find_none :
      {state state' : Option Pool} {held : Leases} (intn : ℕ → ℕ)
      → ((n : ℕ) → 0 < n → intn n < n)
      → choose_passive_port intn cfg state ≡ (empty_port_not_found, state')
      → Step cfg state held state' held
  release :
      {state state' : Option Pool} {held : Leases} (p : ℕ)
      → held p ≡ true
      → release_passive_port cfg p state ≡ some state'
      → Step cfg state held state' (unlease p held)

pub data Run (cfg : PortConfig) : Option Pool → Leases → Type 0 where
  start : Run cfg none no_leases
  next :
      {state state' : Option Pool} {held held' : Leases}
      → Run cfg state held
      → Step cfg state held state' held'
      → Run cfg state' held'

-- Nothing outside the configured range is ever leased.
abbrev pub InRange : ℕ → ℕ → Leases → Type 0
InRange min size held = (p : ℕ) → held p ≡ true → (min ≤ p) × (p < min + size)

module _ {cfg : PortConfig} {min size : ℕ} (range : HasRange cfg min size) where
  Step-HoldsState :
      {state state' : Option Pool} {held held' : Leases}
      → Step cfg state held state' held'
      → HoldsState min size state held × InRange min size held
      → HoldsState min size state' held' × InRange min size held'
  Step-HoldsState (choose {state} {held} {p} intn random e) (h, inside) =
      let c = rw e at (choose_passive_port-Chooses range intn state held random h) in
      (c.3, λ q on. ground (arith, inside q, c.0, c.1))
  Step-HoldsState (find_none {state} {held} intn random e) (h, inside) =
      let c = rw e at (choose_passive_port-Chooses range intn state held random h) in (c.1, inside)
  Step-HoldsState (release {state = none} {held} p on e) (h, inside) =
      let lo = (inside p on).0 in
      let k : ℕ = p - min in
      let same : min + k ≡ p = omega arith in
      absurd (ground (arith, h k (omega (arith, (inside p on).1)), same))
  Step-HoldsState (release {state = some s} {state'} {held} p on e) (h, inside) =
      let (s', back, holds) =
        release_passive_port-unlease range p s held h (inside p on).0 (inside p on).1 on in
      let same : some s' ≡ state' = cc (back, e) in
      (
        subst (λ x. HoldsState min size x (unlease p held)) same holds,
        λ q on'. ground (arith, inside q),
      )

  Run-HoldsState :
      {state : Option Pool} {held : Leases}
      → Run cfg state held
      → HoldsState min size state held × InRange min size held
  Run-HoldsState start = (λ k h. refl, λ p on. absurd (cc on))
  Run-HoldsState (next r st) = Step-HoldsState st (Run-HoldsState r)

  -- For a configured range of ports without port 0: after any run of choices and releases, with
  -- any random numbers in bounds, a choice hands out a port of the range that is not leased and
  -- records it as leased, or it says that the pool is empty, and then the whole range is leased.
  pub Run-Chooses :
      {state : Option Pool} {held : Leases} (intn : ℕ → ℕ)
      → Run cfg state held
      → ((n : ℕ) → 0 < n → intn n < n)
      → Chooses min size held (choose_passive_port intn cfg state)
  Run-Chooses {state} {held} intn r random =
      choose_passive_port-Chooses range intn state held random (Run-HoldsState r).0
