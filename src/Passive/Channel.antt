-- ===== src/Passive/Channel.antt =====
-- ftp/transfer.go: the goroutine `listen` of a passive data transfer, `Conn` and `Close`, which meet at
-- the channels `ch` and `closed`, in any order of their steps.
use s3ftpgateway.Base.{
  ℕ, ◌≡◌, ◌+◌, refl, subst, ◌⊎◌, inl, inr, Bool, true, false, Option, none, some, List, [], ◌∷◌,
  if◌then◌else◌, Bytes, arith, Bool-cases,
}
use s3ftpgateway.Passive.{valid_remote}

-- A data connection, with the address of its peer if it is a TCP address.
pub record Socket : Type 0 where
  pub number : ℕ
  pub peer : Option Bytes

-- Where `listen` stands: in `Accept`, at the channel with a connection or with an error, or at its end.
pub data Phase : Type 0 where
  accepting : Phase
  offering : Socket → Phase
  offering_error : Phase
  finished : Phase

-- `passiveDataTransfer`. `received` is what `Conn` has taken from the channel and not yet stored;
-- `released` counts the calls of `releasePassivePort`; the last fields hold the connection that
-- `listen` took for valid, and those that were closed.
pub record Transfer : Type 0 where
  pub phase : Phase
  pub received : Option Socket
  pub conn : Option Socket
  pub closed : Bool
  pub listener_closed : Bool
  pub released : ℕ
  pub taken : Option Socket
  pub closed_conns : List Socket

abbrev pub fresh : Transfer
fresh = record {
  phase = accepting;
  received = none;
  conn = none;
  closed = false;
  listener_closed = false;
  released = 0;
  taken = none;
  closed_conns = [];
}

-- The deferred calls of `listen`.
unfoldable pub finish : Transfer → Transfer
finish t = record t { phase = finished; listener_closed = true; released = t.released + 1 }

abbrev close_some : Option Socket → List Socket → List Socket
close_some none ks = ks
close_some (some k) ks = k ∷ ks

-- `Close`
unfoldable pub close_transfer : Transfer → Transfer
close_transfer t = record t {
  closed = true;
  listener_closed = true;
  closed_conns = close_some t.conn t.closed_conns;
}

module _ (ip_equal : Bytes → Bytes → Bool) (remote_ip : Option Bytes)
    (disable_address_check : Bool) where
  abbrev pub IsValid : Socket → Type 0
  IsValid k = valid_remote ip_equal remote_ip disable_address_check k.peer ≡ true

  -- What a result of `Accept` without an error does; another peer's connection is skipped. A
  -- temporary error changes nothing.
  unfoldable pub accept_conn : Socket → Transfer → Transfer
  accept_conn k t =
      if valid_remote ip_equal remote_ip disable_address_check k.peer
      then record t { phase = offering k; taken = some k }
      else t

  pub data Step : Transfer → Transfer → Type 0 where
    accepts : (k : Socket) (t : Transfer) → t.phase ≡ accepting → Step t (accept_conn k t)
    accept_fails :
        (t : Transfer) → t.phase ≡ accepting → Step t (record t { phase = offering_error })
    -- the two ends of the channel meet
    conn_receives :
        (k : Socket) (t : Transfer)
        → t.phase ≡ offering k
        → Step t (record (finish t) { received = some k })
    conn_receives_error : (t : Transfer) → t.phase ≡ offering_error → Step t (finish t)
    conn_stores :
        (k : Socket) (t : Transfer)
        → t.received ≡ some k
        → Step t (record t { received = none; conn = some k })
    -- `listen` sees that the transfer is closed
    gives_up :
        (k : Socket) (t : Transfer)
        → t.phase ≡ offering k
        → t.closed ≡ true
        → Step t (record (finish t) { closed_conns = k ∷ t.closed_conns })
    gives_up_error : (t : Transfer) → t.phase ≡ offering_error → t.closed ≡ true → Step t (finish t)
    closes : (t : Transfer) → t.closed ≡ false → Step t (close_transfer t)

  pub data Reach : Transfer → Type 0 where
    start : Reach fresh
    next : {t t' : Transfer} → Reach t → Step t t' → Reach t'

  abbrev pub Has : Socket → List Socket → Type 0
  Has k [] = ⊥
  Has k (x ∷ xs) = (k ≡ x) ⊎ Has k xs

  abbrev is_finished : Phase → Bool
  is_finished finished = true
  is_finished _ = false

  -- Where the connection of a `listen` that has ended is: in the hands of `Conn`, stored, or closed.
  abbrev pub IsKept : Transfer → Socket → Type 0
  IsKept t k =
      ((t.received ≡ some k) × (t.conn ≡ none))
      ⊎ ((t.received ≡ none) × (t.conn ≡ some k))
      ⊎ ((t.received ≡ none) × (t.conn ≡ none) × Has k t.closed_conns)

  abbrev IsUntaken : Transfer → Type 0
  IsUntaken t = (t.taken ≡ none) × (t.received ≡ none) × (t.conn ≡ none)

  abbrev pub IsPlaced : Phase → Transfer → Type 0
  IsPlaced accepting t = IsUntaken t
  IsPlaced (offering k) t = (t.taken ≡ some k) × IsValid k × (t.received ≡ none) × (t.conn ≡ none)
  IsPlaced offering_error t = IsUntaken t
  IsPlaced finished t = IsUntaken t ⊎ ((k : Socket) × (t.taken ≡ some k) × IsValid k × IsKept t k)

  -- The port is given back once, at the end, and the connection that was taken is in its place.
  pub record IsOrderly (t : Transfer) : Type 0 where
    pub once : t.released ≡ (if is_finished t.phase then 1 else 0)
    pub placed : IsPlaced t.phase t

  IsPlaced-phase : (t : Transfer) (p : Phase) → t.phase ≡ p → IsOrderly t → IsPlaced p t
  IsPlaced-phase t p e o = subst (λ q. IsPlaced q t) e o.placed

  stored-IsPlaced :
      (p : Phase) (t : Transfer) (k : Socket)
      → t.received ≡ some k
      → IsPlaced p t
      → IsPlaced p (record t { received = none; conn = some k })
  stored-IsPlaced accepting t k e (tk, r, c) = absurd cc
  stored-IsPlaced (offering x) t k e (tk, v, r, c) = absurd cc
  stored-IsPlaced offering_error t k e (tk, r, c) = absurd cc
  stored-IsPlaced finished t k e (inl (tk, r, c)) = absurd cc
  stored-IsPlaced finished t k e (inr (x, tk, v, inl (r, c))) = inr (x, tk, v, inr (inl (refl, cc)))
  stored-IsPlaced finished t k e (inr (x, tk, v, inr (inl (r, c)))) = absurd cc
  stored-IsPlaced finished t k e (inr (x, tk, v, inr (inr (r, c, h)))) = absurd cc

  close_transfer-IsPlaced :
      (p : Phase) (t : Transfer) → IsPlaced p t → IsPlaced p (close_transfer t)
  unfolding close_transfer
  close_transfer-IsPlaced accepting t h = h
  close_transfer-IsPlaced (offering k) t h = h
  close_transfer-IsPlaced offering_error t h = h
  close_transfer-IsPlaced finished t (inl h) = inl h
  close_transfer-IsPlaced finished t (inr (k, tk, v, inl h)) = inr (k, tk, v, inl h)
  close_transfer-IsPlaced finished t (inr (k, tk, v, inr (inl h))) = inr (k, tk, v, inr (inl h))
  close_transfer-IsPlaced finished t (inr (k, tk, v, inr (inr (r, c, h)))) =
      inr (k, tk, v, inr (inr (r, c, rw c h)))

  Step-IsOrderly : {t t' : Transfer} → Step t t' → IsOrderly t → IsOrderly t'
  unfolding finish close_transfer accept_conn
  Step-IsOrderly (accepts k t e) o =
      elim (Bool-cases (valid_remote ip_equal remote_ip disable_address_check k.peer)) [
        | inl valid ↦
            let (tk, r, c) = IsPlaced-phase t accepting e o in
            rw valid (record { once = ground arith; placed = (refl, valid, r, c) })
        | inr skipped ↦ rw skipped o
      ]
  Step-IsOrderly (accept_fails t e) o = record {
    once = ground arith;
    placed = IsPlaced-phase t accepting e o;
  }
  Step-IsOrderly (conn_receives k t e) o =
      let (tk, v, r, c) = IsPlaced-phase t (offering k) e o in
      record { once = ground arith; placed = inr (k, tk, v, inl (refl, c)) }
  Step-IsOrderly (conn_receives_error t e) o = record {
    once = ground arith;
    placed = inl (IsPlaced-phase t offering_error e o);
  }
  Step-IsOrderly (conn_stores k t e) o = record {
    once = o.once;
    placed = stored-IsPlaced t.phase t k e o.placed;
  }
  Step-IsOrderly (gives_up k t e c) o =
      let (tk, v, r, n) = IsPlaced-phase t (offering k) e o in
      record { once = ground arith; placed = inr (k, tk, v, inr (inr (r, n, inl refl))) }
  Step-IsOrderly (gives_up_error t e c) o = record {
    once = ground arith;
    placed = inl (IsPlaced-phase t offering_error e o);
  }
  Step-IsOrderly (closes t c) o = record {
    once = o.once;
    placed = close_transfer-IsPlaced t.phase t o.placed;
  }

  Reach-IsOrderly : {t : Transfer} → Reach t → IsOrderly t
  Reach-IsOrderly start = record { once = refl; placed = (refl, refl, refl) }
  Reach-IsOrderly (next r s) = Step-IsOrderly s (Reach-IsOrderly r)

  -- In any order of the steps of listen, Conn and Close: once listen has ended, the port was given
  -- back exactly once; and either no connection was taken, and Conn gives none, or the one that
  -- was taken passed the check of the address, and it is in the hands of Conn, stored in the
  -- transfer, or closed.
  pub Reach-finished :
      (t : Transfer)
      → Reach t
      → t.phase ≡ finished
      → (t.released ≡ 1)
        × (((t.taken ≡ none) × (t.received ≡ none) × (t.conn ≡ none))
            ⊎ ((k : Socket) × (t.taken ≡ some k) × IsValid k × IsKept t k))
  Reach-finished t r e = let o = Reach-IsOrderly r in (ground arith, IsPlaced-phase t finished e o)
