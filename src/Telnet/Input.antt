-- ===== src/Telnet/Input.antt =====
-- `Write` and `Flush` of ftp/telnet.go leave what is to be read.
use s3ftpgateway.Base.{
  ℕ, ◌≡◌, refl, [], ◌∷◌, ◌++◌, Bytes, Result, ok, err, arith, Result-cases, inl, inr,
}
use s3ftpgateway.Telnet.{
  IoError, TelnetConn, write, flush, write_option, write_data, refuse, telnet_cmd_wont,
  telnet_cmd_dont,
}

-- The connection of a result, if there is one, has the input of `c`.
abbrev pub SameInput : TelnetConn → Result IoError TelnetConn → Type 0
SameInput c (err e) = Unit
SameInput c (ok c') = c'.input ≡ c.input

abbrev pub SameInputCounted : TelnetConn → Result IoError (ℕ × TelnetConn) → Type 0
SameInputCounted c (err e) = Unit
SameInputCounted c (ok (n, c')) = c'.input ≡ c.input

refuse-SameInput : (verb : ℕ) (bs : Bytes) (c : TelnetConn) → SameInput c (refuse verb bs c)
unfolding refuse
refuse-SameInput verb [] c = refl
refuse-SameInput verb (b ∷ bs) c =
    ground
      (arith, refuse-SameInput verb bs (record c { buffered = c.buffered ++ 255 ∷ verb ∷ b ∷ [] }))

write_option-SameInput : (c : TelnetConn) → SameInput c (write_option c)
unfolding write_option
write_option-SameInput c = elim (Result-cases (refuse telnet_cmd_wont c.willopt c)) [
  | inl (c1, e) ↦ ground (
    arith,
    refuse-SameInput telnet_cmd_wont c.willopt c,
    refuse-SameInput telnet_cmd_dont c1.doopt (record c1 { willopt = [] }),
  )
  | inr (e', e) ↦ ground (arith, e)
]

write_data-SameInput : (bs : Bytes) (c : TelnetConn) → SameInputCounted c (write_data bs c)
unfolding write_data
write_data-SameInput bs c = ground arith

pub write-SameInput : (bs : Bytes) (c : TelnetConn) → SameInputCounted c (write bs c)
unfolding write
write-SameInput bs c = elim (Result-cases (write_option c)) [
  | inl (c1, e) ↦ ground (arith, write_option-SameInput c, write_data-SameInput bs c1)
  | inr (e', e) ↦ ground (arith, e)
]

pub flush-SameInput : (c : TelnetConn) → SameInput c (flush c)
unfolding flush
flush-SameInput c = ground (arith, write_option-SameInput c)
