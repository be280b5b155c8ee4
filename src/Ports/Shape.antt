-- ===== src/Ports/Shape.antt =====
-- The shape of a pool: `ports` and `idx_ports` are inverse to one another, so `ports` lists each
-- number of the range once; the ports before `num_empty_ports` are free, the others are leased.
use s3ftpgateway.Base.{
  ℕ, ◌+◌, ◌-◌, ◌≤◌, ◌<◌, ◌≡◌, some, ◌==◌, if◌then◌else◌, length, get_or, set, length-set,
  get_or-set, get_elem?-eq-get_or, arith, ◌∙◌,
}
use s3ftpgateway.Base.Int.{pos}
use s3ftpgateway.Ports.{Pool, take_port}

-- The port at an index of `ports`, and the index of the port `min + k`.
abbrev pub port_at : Pool → ℕ → ℕ
port_at s i = get_or s.ports i 0

abbrev pub index_of : Pool → ℕ → ℕ
index_of s k = get_or s.idx_ports k 0

-- `size` ports from `min` on.
pub record IsPool (min size : ℕ) (s : Pool) : Type 0 where
  pub ports_length : length s.ports ≡ size
  pub idx_length : length s.idx_ports ≡ size
  pub free_le : s.num_empty_ports ≤ size
  pub port_ge : (i : ℕ) → i < size → min ≤ port_at s i
  pub port_lt : (i : ℕ) → i < size → port_at s i < min + size
  pub index_lt : (k : ℕ) → k < size → index_of s k < size
  pub index_port : (i : ℕ) → i < size → index_of s (port_at s i - min) ≡ i
  pub port_index : (k : ℕ) → k < size → port_at s (index_of s k) ≡ min + k

-- The port `min + k` can be handed out.
abbrev pub IsFree : Pool → ℕ → Type 0
IsFree s k = index_of s k < s.num_empty_ports

-- What `take_port` returns, with both slices written out.
abbrev pub taken : ℕ → ℕ → Pool → Pool
taken min idx s =
    let n = s.num_empty_ports - 1 in
    let port1 = port_at s idx in
    let port2 = port_at s n in
    record {
      ports = set (set s.ports idx port2) n port1;
      idx_ports = set (set s.idx_ports (port1 - min) n) (port2 - min) idx;
      num_empty_ports = n;
    }

pub take_port-taken :
    (min size idx : ℕ) (s : Pool)
    → IsPool min size s
    → idx < s.num_empty_ports
    → take_port (pos min) idx s ≡ some (port_at s idx, taken min idx s)
unfolding take_port
take_port-taken min size idx s v h =
    let n : ℕ = s.num_empty_ports - 1 in
    ground (
      arith,
      v.port_ge idx,
      v.port_lt idx,
      v.port_ge n,
      v.port_lt n,
      get_elem?-eq-get_or s.ports idx 0,
      get_elem?-eq-get_or s.ports n 0,
      length-set s.ports idx (port_at s n),
      length-set s.idx_ports (port_at s idx - min) n,
    )

module _ {min size idx : ℕ} {s : Pool} (v : IsPool min size s) (h : idx < s.num_empty_ports) where
  -- The slices behind a choice, read at every index.
  pub port_at-taken :
      (j : ℕ)
      → port_at (taken min idx s) j ≡ (
          if s.num_empty_ports - 1 == j
          then port_at s idx
          else if idx == j
          then port_at s (s.num_empty_ports - 1)
          else port_at s j)
  port_at-taken j = ground (
    arith,
    v.ports_length,
    v.free_le,
    get_or-set s.ports idx j (port_at s (s.num_empty_ports - 1)) 0,
    length-set s.ports idx (port_at s (s.num_empty_ports - 1)),
    get_or-set (set s.ports idx (port_at s (s.num_empty_ports - 1))) (s.num_empty_ports - 1) j
        (port_at s idx) 0,
  )

  pub index_of-taken :
      (k : ℕ)
      → index_of (taken min idx s) k ≡ (
          if port_at s (s.num_empty_ports - 1) - min == k
          then idx
          else if port_at s idx - min == k
          then s.num_empty_ports - 1
          else index_of s k)
  index_of-taken k =
      let n : ℕ = s.num_empty_ports - 1 in
      ground (
        arith,
        v.idx_length,
        v.free_le,
        v.port_ge idx,
        v.port_lt idx,
        v.port_ge n,
        v.port_lt n,
        get_or-set s.idx_ports (port_at s idx - min) k n 0,
        length-set s.idx_ports (port_at s idx - min) n,
        get_or-set (set s.idx_ports (port_at s idx - min) n) (port_at s n - min) k idx 0,
      )

  index_port-taken :
      (i : ℕ) → i < size → index_of (taken min idx s) (port_at (taken min idx s) i - min) ≡ i
  index_port-taken i hi = ground (
    arith,
    v.free_le,
    port_at-taken i,
    index_of-taken (port_at (taken min idx s) i - min),
    v.index_port i,
    v.index_port idx,
    v.index_port (s.num_empty_ports - 1),
  )

  port_index-taken :
      (k : ℕ) → k < size → port_at (taken min idx s) (index_of (taken min idx s) k) ≡ min + k
  port_index-taken k hk = ground (
    arith,
    v.free_le,
    index_of-taken k,
    port_at-taken (index_of (taken min idx s) k),
    v.port_index k,
    v.index_port idx,
    v.index_port (s.num_empty_ports - 1),
    v.port_ge idx,
    v.port_ge (s.num_empty_ports - 1),
  )

  pub taken-IsPool : IsPool min size (taken min idx s)
  taken-IsPool = record {
    ports_length =
        length-set (set s.ports idx (port_at s (s.num_empty_ports - 1))) _ _
        ∙ length-set s.ports _ _
        ∙ v.ports_length;
    idx_length =
        length-set (set s.idx_ports (port_at s idx - min) _) _ _
        ∙ length-set s.idx_ports _ _
        ∙ v.idx_length;
    free_le = omega (arith, v.free_le);
    port_ge = λ i hi. ground (
      arith,
      port_at-taken i,
      v.port_ge i,
      v.port_ge idx,
      v.free_le,
      v.port_ge (s.num_empty_ports - 1),
    );
    port_lt = λ i hi. ground (
      arith,
      port_at-taken i,
      v.port_lt i,
      v.port_lt idx,
      v.free_le,
      v.port_lt (s.num_empty_ports - 1),
    );
    index_lt = λ k hk. ground (arith, index_of-taken k, v.index_lt k, v.free_le);
    index_port = index_port-taken;
    port_index = port_index-taken;
  }
