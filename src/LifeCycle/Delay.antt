-- ===== src/LifeCycle/Delay.antt =====
-- The delays of `serve` in ftp/server.go behind failures of `Accept`.
use s3ftpgateway.Base.{ℕ, zero, suc, ◌≡◌, ◌*◌, ◌^◌, false, ltb, if◌then◌else◌, refl, ap, arith}
use s3ftpgateway.LifeCycle.{
  next_delay, Life, continues, temporary_error, serve_round, is_closed, get_done_chan,
}

-- The delay after so many temporary errors in a row.
abbrev pub delay_after : ℕ → ℕ
delay_after zero = 0
delay_after (suc k) = next_delay (delay_after k)

pow_suc : (k : ℕ) → 2 ^ suc k ≡ 2 ^ k * 2
pow_suc k = omega arith

delay_after-pow : (k : ℕ) → delay_after (suc k) ≡ (if ltb 1000 (5 * 2 ^ k) then 1000 else 5 * 2 ^ k)
unfolding next_delay
delay_after-pow zero = refl
delay_after-pow (suc k) = ground (arith, delay_after-pow k, pow_suc k)

module _ {S : Type 0} where
  get_done_chan-is_closed :
      (s : Life S) → is_closed s.done ≡ false → is_closed (get_done_chan s).done ≡ false
  get_done_chan-is_closed s e = ground arith

  -- While the server is not closed: after k temporary errors of Accept in a row, serve waits
  -- behind the next one for 5 times 2 to the k milliseconds, and never for more than 1000.
  pub serve_round-delay :
      (store : S) (k : ℕ) (s : Life S)
      → is_closed s.done ≡ false
      → (serve_round store (delay_after k) temporary_error s).0
        ≡ continues (if ltb 1000 (5 * 2 ^ k) then 1000 else 5 * 2 ^ k)
  unfolding serve_round
  serve_round-delay store k s unclosed =
      rw (get_done_chan-is_closed s unclosed) (ap continues (delay_after-pow k))
