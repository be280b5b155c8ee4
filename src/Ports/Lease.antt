-- ===== src/Ports/Lease.antt =====
-- The pool as a set of leased ports: what `choosePassivePort` and `releasePassivePort` do to it.
use s3ftpgateway.Base.{
  ℕ, ◌+◌, ◌-◌, ◌≤◌, ◌<◌, ◌≡◌, Bool, true, false, Option, none, some, leb, ◌==◌, if◌then◌else◌,
  arith, Bool-cases, inl, inr,
}
use s3ftpgateway.Base.Int.{pos}
use s3ftpgateway.Ports.{
  PortConfig, Pool, Choice, chosen, empty_port_not_found, fresh_pool, acquire, choose_passive_port,
  release_passive_port,
}
use s3ftpgateway.Ports.Shape.{
  IsPool, port_at, index_of, taken, index_of-taken, taken-IsPool, take_port-taken,
}
use s3ftpgateway.Ports.Release.{
  given, give_back-given, index_of-given, given-IsPool, fresh_pool-IsPool, fresh_pool-free,
}

-- Which port numbers are leased.
abbrev pub Leases : Type 0
Leases = ℕ → Bool

abbrev pub lease : ℕ → Leases → Leases
lease p held q = if q == p then true else held q

abbrev pub unlease : ℕ → Leases → Leases
unlease p held q = if q == p then false else held q

abbrev pub no_leases : Leases
no_leases q = false

-- The pool of `size` ports from `min` on has leased those of the set, among its own.
pub record Holds (min size : ℕ) (s : Pool) (held : Leases) : Type 0 where
  pub valid : IsPool min size s
  pub held_iff : (k : ℕ) → k < size → held (min + k) ≡ leb s.num_empty_ports (index_of s k)

-- The same for the state of the server, whose pool may not be made yet.
abbrev pub HoldsState : ℕ → ℕ → Option Pool → Leases → Type 0
HoldsState min size none held = (k : ℕ) → k < size → held (min + k) ≡ false
HoldsState min size (some s) held = Holds min size s held

pub taken-Holds :
    {min size idx : ℕ} {s : Pool} {held : Leases}
    → Holds min size s held
    → idx < s.num_empty_ports
    → Holds min size (taken min idx s) (lease (port_at s idx) held)
taken-Holds {min} {size} {idx} {s} h lt = record {
  valid = taken-IsPool h.valid lt;
  held_iff = λ k hk. ground (
    arith,
    h.held_iff k hk,
    h.valid.free_le,
    index_of-taken h.valid lt k,
    h.valid.index_port idx,
    h.valid.index_port (s.num_empty_ports - 1),
    h.valid.port_index k,
    h.valid.port_ge idx,
    h.valid.port_ge (s.num_empty_ports - 1),
  );
}

given-Holds :
    {min size k : ℕ} {s : Pool} {held : Leases}
    → Holds min size s held
    → k < size
    → held (min + k) ≡ true
    → Holds min size (given min k s) (unlease (min + k) held)
given-Holds {min} {size} {k} {s} h hk on =
    let back : s.num_empty_ports ≤ index_of s k = ground (arith, h.held_iff k hk) in
    record {
      valid = given-IsPool h.valid hk back;
      held_iff = λ j hj. ground (
        arith,
        back,
        h.held_iff j hj,
        h.valid.index_lt k hk,
        index_of-given h.valid hk back j,
        h.valid.index_port s.num_empty_ports,
        h.valid.port_index j hj,
        h.valid.port_index k hk,
        h.valid.port_ge s.num_empty_ports,
      );
    }

pub fresh_pool-Holds :
    {min size : ℕ} {held : Leases}
    → ((k : ℕ) → k < size → held (min + k) ≡ false)
    → Holds min size (fresh_pool min size) held
fresh_pool-Holds {min} {size} h = record {
  valid = fresh_pool-IsPool min size;
  held_iff = λ k hk. ground (arith, h k hk, fresh_pool-free min size k hk);
}

-- What one choice does to the leases.
abbrev pub Chooses : ℕ → ℕ → Leases → Choice × Option Pool → Type 0
Chooses min size held (chosen p, state) =
    (min ≤ p) × (p < min + size) × (held p ≡ false) × HoldsState min size state (lease p held)
Chooses min size held (empty_port_not_found, state) =
    ((k : ℕ) → k < size → held (min + k) ≡ true) × HoldsState min size state held
Chooses min size held _ = ⊥

acquire-Chooses :
    (intn : ℕ → ℕ) (min size : ℕ) (s : Pool) (held : Leases)
    → ((n : ℕ) → 0 < n → intn n < n)
    → Holds min size s held
    → Chooses min size held (acquire intn (pos min) s)
unfolding acquire
acquire-Chooses intn min size s held random h = elim (Bool-cases (s.num_empty_ports == 0)) [
  | inl empty ↦ rw empty ((λ k hk. ground (arith, h.held_iff k hk)), h)
  | inr some_left ↦
      let idx : ℕ = intn s.num_empty_ports in
      let lt : idx < s.num_empty_ports = ground (arith, random s.num_empty_ports) in
      let k : ℕ = port_at s idx - min in
      rw (some_left, take_port-taken min size idx s h.valid lt)
        (
          ground (arith, h.valid.port_ge idx, h.valid.free_le),
          ground (arith, h.valid.port_lt idx, h.valid.free_le),
          ground (
            arith,
            h.held_iff k,
            h.valid.free_le,
            h.valid.port_ge idx,
            h.valid.port_lt idx,
            h.valid.index_port idx,
          ),
          taken-Holds h lt,
        )
]

-- A configuration whose pool is `size` ports from `min` on, none of them port 0.
pub record HasRange (cfg : PortConfig) (min size : ℕ) : Type 0 where
  pub min_eq : cfg.min_passive_port ≡ pos min
  pub max_eq : cfg.max_passive_port ≡ pos (min + size - 1)
  pub min_pos : 0 < min
  pub size_pos : 0 < size
  pub max_le : min + size ≤ 65536

module _ {cfg : PortConfig} {min size : ℕ} (range : HasRange cfg min size) where
  choose-acquire :
      (intn : ℕ → ℕ) (s : Pool) → choose_passive_port intn cfg (some s) ≡ acquire intn (pos min) s
  unfolding choose_passive_port
  choose-acquire intn s =
      ground (arith, range.min_eq, range.max_eq, range.min_pos, range.size_pos, range.max_le)

  -- A choice from a pool with a free port takes one.
  pub choose-taken :
      (intn : ℕ → ℕ) (s : Pool) (held : Leases)
      → intn s.num_empty_ports < s.num_empty_ports
      → Holds min size s held
      → choose_passive_port intn cfg (some s)
        ≡ (chosen (port_at s (intn s.num_empty_ports)), some (taken min (intn s.num_empty_ports) s))
  unfolding acquire
  choose-taken intn s held lt h =
      rw (choose-acquire intn s)
        (ground (arith, take_port-taken min size (intn s.num_empty_ports) s h.valid lt))

  choose-fresh :
      (intn : ℕ → ℕ)
      → choose_passive_port intn cfg none ≡ acquire intn (pos min) (fresh_pool min size)
  unfolding choose_passive_port
  choose-fresh intn =
      ground (arith, range.min_eq, range.max_eq, range.min_pos, range.size_pos, range.max_le)

  -- For a configured range without port 0, random numbers in bounds and a pool whose leased ports
  -- are a given set: a choice hands out a port of the range that is not in the set and adds it, or
  -- says that the pool is empty, and then the whole range is in the set. It never panics.
  pub choose_passive_port-Chooses :
      (intn : ℕ → ℕ) (state : Option Pool) (held : Leases)
      → ((n : ℕ) → 0 < n → intn n < n)
      → HoldsState min size state held
      → Chooses min size held (choose_passive_port intn cfg state)
  unfolding choose_passive_port
  choose_passive_port-Chooses intn none held random h =
      rw (choose-fresh intn) (acquire-Chooses intn min size _ held random (fresh_pool-Holds h))
  choose_passive_port-Chooses intn (some s) held random h =
      rw (choose-acquire intn s) (acquire-Chooses intn min size s held random h)

  -- For a configured range without port 0: releasing a leased port of the range does not panic and
  -- gives back exactly that port.
  pub release_passive_port-unlease :
      (p : ℕ) (s : Pool) (held : Leases)
      → Holds min size s held
      → min ≤ p
      → p < min + size
      → held p ≡ true
      → (s' : Pool) × (release_passive_port cfg p (some s) ≡ some (some s'))
        × Holds min size s' (unlease p held)
  unfolding release_passive_port
  release_passive_port-unlease p s held h ge lt on =
      (let k : ℕ = p - min in
        let e : min + k ≡ p = omega arith in
        let hk : k < size = omega arith in
        let on' : held (min + k) ≡ true = rw e on in
        let back : s.num_empty_ports ≤ index_of s k = ground (arith, h.held_iff k hk) in
        (
          given min k s,
          ground
              (arith, range.min_eq, range.max_eq, range.min_pos, give_back-given h.valid hk back),
          rw e at (given-Holds h hk on'),
        ))
