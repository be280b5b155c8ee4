-- ===== src/Ports.antt =====
-- ftp/server.go: the pool of ports for passive data connections, `choosePassivePort` and
-- `releasePassivePort`. A run-time panic (index out of range, negative length, explicit `panic`)
-- is the constructor `panicked`, or `none` where a step has no other failure.
pub mod Shape
pub mod Release
pub mod Lease
pub mod Runs
mod Tests
use s3ftpgateway.Base.{
  ℕ, zero, suc, ◌+◌, ◌-◌, Bool, false, ◌||◌, Option, none, some, List, [], ◌∷◌, ltb, ◌==◌,
  if◌then◌else◌, length, get_elem?, set,
}
use s3ftpgateway.Base.Int.{ℤ, pos, negsuc, ltb_ℤ, ◌+ℤ◌, ◌-ℤ◌}

-- The two fields of `Server` that configure the pool. They are Go `int`s and may be negative.
pub record PortConfig : Type 0 where
  pub min_passive_port : ℤ
  pub max_passive_port : ℤ

-- `ports`, `idxPorts` and `numEmptyPorts` of `Server`, once `ports` is not nil.
pub record Pool : Type 0 where
  pub ports : List ℕ
  pub idx_ports : List ℕ
  pub num_empty_ports : ℕ

-- What `choosePassivePort` returns.
pub data Choice : Type 0 where
  chosen : ℕ → Choice
  passive_mode_is_disabled empty_port_not_found panicked : Choice

abbrev is_zero : ℤ → Bool
is_zero (pos n) = n == 0
is_zero (negsuc _) = false

abbrev bind_option {ℓ κ} : {A : Type ℓ} {B : Type κ} → Option A → (A → Option B) → Option B
bind_option none f = none
bind_option (some a) f = f a

infixl 5 ◌>>=◌
abbrev ◌>>=◌ {ℓ κ} : {A : Type ℓ} {B : Type κ} → Option A → (A → Option B) → Option B
m >>= f = bind_option m f

-- An assignment `xs[i] = v`, which panics out of range.
store_at : List ℕ → ℕ → ℕ → Option (List ℕ)
store_at xs i v = if ltb i (length xs) then some (set xs i v) else none

-- The index `port - min` into a slice, which panics if it is negative.
index : ℤ → Option ℕ
index (pos n) = some n
index (negsuc _) = none

slot : ℤ → ℕ → Option ℕ
unfolding index
slot min port = index (pos port -ℤ min)

-- `n` consecutive numbers from `a` on.
unfoldable pub count_from : ℕ → ℕ → List ℕ
count_from a zero = []
count_from a (suc n) = a ∷ count_from (a + 1) n

-- The slices made at the first call: port `min + i` stands at index `i`.
unfoldable pub fresh_pool : ℕ → ℕ → Pool
unfolding count_from
fresh_pool min size = record {
  ports = count_from min size;
  idx_ports = count_from 0 size;
  num_empty_ports = size;
}

-- The body of `choosePassivePort` behind the test on `numEmptyPorts`. `idx` is what
-- `cryptorand.Intn` returned.
pub take_port : ℤ → ℕ → Pool → Option (ℕ × Pool)
unfolding store_at slot
take_port min idx s = do
  let n = s.num_empty_ports - 1
  port1 ← get_elem? s.ports idx
  port2 ← get_elem? s.ports n
  ports1 ← store_at s.ports idx port2
  ports2 ← store_at ports1 n port1
  slot1 ← slot min port1
  slot2 ← slot min port2
  idx_ports1 ← store_at s.idx_ports slot1 n
  idx_ports2 ← store_at idx_ports1 slot2 idx
  some (port1, record { ports = ports2; idx_ports = idx_ports2; num_empty_ports = n })

abbrev as_choice : Option Pool → Option (ℕ × Pool) → Choice × Option Pool
as_choice before none = (panicked, before)
as_choice before (some (port, s)) = (chosen port, some s)

-- With the pool made and the lock held.
pub acquire : (ℕ → ℕ) → ℤ → Pool → Choice × Option Pool
unfolding take_port
acquire intn min s =
    if s.num_empty_ports == 0
    then (empty_port_not_found, some s)
    else as_choice (some s) (take_port min (intn s.num_empty_ports) s)

-- `min < 0` becomes 0.
clamp_min : ℤ → ℕ
clamp_min (pos n) = n
clamp_min (negsuc _) = 0

-- `max > 65535` becomes 65535.
clamp_max : ℤ → ℤ
clamp_max max = if ltb_ℤ (pos 65535) max then pos 65535 else max

-- `make([]int, size)` panics at a negative size.
open_pool : ℕ → ℤ → Option Pool
open_pool min (pos size) = some (fresh_pool min size)
open_pool min (negsuc _) = none

-- `s.ports == nil` is the state `none`.
ensure_pool : ℕ → ℤ → Option Pool → Option Pool
unfolding open_pool
ensure_pool min max (some s) = some s
ensure_pool min max none = open_pool min (max -ℤ pos min +ℤ pos 1)

abbrev acquire_from : (ℕ → ℕ) → ℤ → Option Pool → Choice × Option Pool
acquire_from intn min none = (panicked, none)
acquire_from intn min (some s) = acquire intn min s

-- `intn` stands for `cryptorand.Intn`.
unfoldable pub choose_passive_port : (ℕ → ℕ) → PortConfig → Option Pool → Choice × Option Pool
unfolding clamp_min clamp_max ensure_pool
choose_passive_port intn cfg state =
    let min = cfg.min_passive_port in
    let max = cfg.max_passive_port in
    let lo = clamp_min min in
    if ltb_ℤ max min
    then (passive_mode_is_disabled, state)
    else if is_zero max
    then (chosen 0, state)
    else acquire_from intn (pos lo) (ensure_pool lo (clamp_max max) state)

-- The body of `releasePassivePort` behind the tests on `port`.
pub give_back : ℤ → ℕ → Pool → Option Pool
unfolding store_at slot
give_back min port s = do
  slot1 ← slot min port
  idx1 ← get_elem? s.idx_ports slot1
  let idx2 = s.num_empty_ports
  port2 ← get_elem? s.ports idx2
  slot2 ← slot min port2
  old2 ← get_elem? s.idx_ports slot2
  idx_ports1 ← store_at s.idx_ports slot1 old2
  idx_ports2 ← store_at idx_ports1 slot2 idx1
  old_port ← get_elem? s.ports idx1
  ports1 ← store_at s.ports idx1 port2
  ports2 ← store_at ports1 idx2 old_port
  some (record { ports = ports2; idx_ports = idx_ports2; num_empty_ports = s.num_empty_ports + 1 })

-- Before the first choice the slices are nil, and every index into them panics.
unfoldable pub release_passive_port : PortConfig → ℕ → Option Pool → Option (Option Pool)
release_passive_port cfg port state =
    if port == 0
    then some state
    else if ltb_ℤ (pos port) cfg.min_passive_port || ltb_ℤ cfg.max_passive_port (pos port)
    then none
    else state >>= λ s. give_back cfg.min_passive_port port s >>= λ s'. some (some s')
