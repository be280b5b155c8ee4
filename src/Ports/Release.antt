-- ===== src/Ports/Release.antt =====
-- The pool after `releasePassivePort`, and the pool made at the first choice.
use s3ftpgateway.Base.{
  ℕ, zero, suc, ◌+◌, ◌-◌, ◌≤◌, ◌<◌, ◌≡◌, refl, ◌∙◌, ap, some, ◌==◌, if◌then◌else◌, length, get_or,
  set, length-set, get_or-set, get_elem?-eq-get_or, arith,
}
use s3ftpgateway.Base.Int.{pos}
use s3ftpgateway.Ports.{Pool, give_back, fresh_pool, count_from}
use s3ftpgateway.Ports.Shape.{IsPool, port_at, index_of}

-- What `give_back` returns for the port `min + k`, with both slices written out.
abbrev pub given : ℕ → ℕ → Pool → Pool
given min k s =
    let n = s.num_empty_ports in
    let port2 = port_at s n in
    record {
      ports = set (set s.ports (index_of s k) port2) n (port_at s (index_of s k));
      idx_ports = set (set s.idx_ports k (index_of s (port2 - min))) (port2 - min) (index_of s k);
      num_empty_ports = n + 1;
    }

module _ {min size k : ℕ} {s : Pool} (v : IsPool min size s) (hk : k < size)
    (h : s.num_empty_ports ≤ index_of s k) where
  pub give_back-given : give_back (pos min) (min + k) s ≡ some (given min k s)
  unfolding give_back
  give_back-given = ground (
    arith,
    v.index_lt k,
    v.ports_length,
    v.idx_length,
    v.port_ge s.num_empty_ports,
    v.port_lt s.num_empty_ports,
    get_elem?-eq-get_or s.idx_ports k 0,
    get_elem?-eq-get_or s.ports s.num_empty_ports 0,
    get_elem?-eq-get_or s.idx_ports (port_at s s.num_empty_ports - min) 0,
    get_elem?-eq-get_or s.ports (index_of s k) 0,
    length-set s.idx_ports k (index_of s (port_at s s.num_empty_ports - min)),
    length-set s.ports (index_of s k) (port_at s s.num_empty_ports),
  )

  port_at-given :
      (j : ℕ)
      → port_at (given min k s) j ≡ (
          if s.num_empty_ports == j
          then min + k
          else if index_of s k == j
          then port_at s s.num_empty_ports
          else port_at s j)
  port_at-given j = ground (
    arith,
    v.ports_length,
    v.index_lt k,
    v.port_index k,
    get_or-set s.ports (index_of s k) j (port_at s s.num_empty_ports) 0,
    length-set s.ports (index_of s k) (port_at s s.num_empty_ports),
    get_or-set (set s.ports (index_of s k) (port_at s s.num_empty_ports)) s.num_empty_ports j
        (port_at s (index_of s k)) 0,
  )

  pub index_of-given :
      (j : ℕ)
      → index_of (given min k s) j ≡ (
          if port_at s s.num_empty_ports - min == j
          then index_of s k
          else if k == j
          then s.num_empty_ports
          else index_of s j)
  index_of-given j =
      let n : ℕ = s.num_empty_ports in
      let p : ℕ = port_at s n - min in
      ground (
        arith,
        v.idx_length,
        v.index_lt k,
        v.index_port n,
        v.port_ge n,
        v.port_lt n,
        get_or-set s.idx_ports k j (index_of s p) 0,
        length-set s.idx_ports k (index_of s p),
        get_or-set (set s.idx_ports k (index_of s p)) p j (index_of s k) 0,
      )

  index_port-given :
      (i : ℕ) → i < size → index_of (given min k s) (port_at (given min k s) i - min) ≡ i
  index_port-given i hi = ground (
    arith,
    v.index_lt k,
    v.port_index k,
    port_at-given i,
    index_of-given (port_at (given min k s) i - min),
    v.index_port i,
    v.index_port s.num_empty_ports,
    v.port_ge s.num_empty_ports,
    v.port_ge i,
  )

  port_index-given :
      (j : ℕ) → j < size → port_at (given min k s) (index_of (given min k s) j) ≡ min + j
  port_index-given j hj = ground (
    arith,
    v.index_lt k,
    v.port_index k,
    index_of-given j,
    port_at-given (index_of (given min k s) j),
    v.port_index j,
    v.index_port s.num_empty_ports,
    v.port_ge s.num_empty_ports,
  )

  pub given-IsPool : IsPool min size (given min k s)
  given-IsPool = record {
    ports_length =
        length-set (set s.ports (index_of s k) _) _ _ ∙ length-set s.ports _ _ ∙ v.ports_length;
    idx_length = length-set (set s.idx_ports k _) _ _ ∙ length-set s.idx_ports _ _ ∙ v.idx_length;
    free_le = omega (arith, v.index_lt k);
    port_ge = λ i hi.
        ground (arith, v.index_lt k, port_at-given i, v.port_ge i, v.port_ge s.num_empty_ports);
    port_lt = λ i hi.
        ground (arith, v.index_lt k, port_at-given i, v.port_lt i, v.port_lt s.num_empty_ports);
    index_lt = λ j hj. ground (arith, v.index_lt k, index_of-given j, v.index_lt j);
    index_port = index_port-given;
    port_index = port_index-given;
  }

length-count_from : (a n : ℕ) → length (count_from a n) ≡ n
unfolding count_from
length-count_from a zero = refl
length-count_from a (suc n) = ap suc (length-count_from (a + 1) n)

get_or-count_from : (a n i : ℕ) → i < n → get_or (count_from a n) i 0 ≡ a + i
unfolding count_from
get_or-count_from a zero i h = elim h [ ]
get_or-count_from a (suc n) zero h = omega arith
get_or-count_from a (suc n) (suc i) h = omega (arith, get_or-count_from (a + 1) n i)

pub fresh_pool-IsPool : (min size : ℕ) → IsPool min size (fresh_pool min size)
unfolding fresh_pool
fresh_pool-IsPool min size = record {
  ports_length = length-count_from min size;
  idx_length = length-count_from 0 size;
  free_le = omega arith;
  port_ge = λ i h. omega (arith, get_or-count_from min size i h);
  port_lt = λ i h. omega (arith, get_or-count_from min size i h);
  index_lt = λ k h. omega (arith, get_or-count_from 0 size k h);
  index_port = λ i h. ground (
    arith,
    get_or-count_from min size i,
    get_or-count_from 0 size (get_or (count_from min size) i 0 - min),
  );
  port_index = λ i h. ground (
    arith,
    get_or-count_from 0 size i,
    get_or-count_from min size (get_or (count_from 0 size) i 0),
  );
}

-- Every port of a fresh pool is free.
pub fresh_pool-free :
    (min size k : ℕ)
    → k < size
    → index_of (fresh_pool min size) k < (fresh_pool min size).num_empty_ports
unfolding fresh_pool
fresh_pool-free min size k h = omega (arith, get_or-count_from 0 size k h)
