-- ===== src/Session/Connect.antt =====
-- ftp/command.go: the handlers that set up data connections, EPRT, EPSV, PASV and PORT; and from
-- ftp/transfer.go and ftp/conn.go `newActiveDataTransfer` and `publicIPv4`.
use s3ftpgateway.Base.{
  ℕ, ◌+◌, ◌-◌, ◌*◌, ◌/◌, ◌%◌, ◌^◌, Bool, true, false, ◌&&◌, ◌||◌, not, Option, none, some, List, [],
  ◌∷◌, ◌++◌, ltb, leb, if◌then◌else◌, length, Bytes, codes, beq, ok, err, get_or,
}
use s3ftpgateway.Base.Int.{ℤ, pos, negsuc, ltb_ℤ, ◌+ℤ◌}
use s3ftpgateway.Session.{
  DataConn, dt_active, dt_passive, PassiveError, passive_disabled, passive_failed, passive_panics,
  Env, Server, Session, reply, panic, set_data_transfer,
}
use s3ftpgateway.Session.File.{is_blank}
use s3ftpgateway.Status.{
  status_ready, status_command_ok, status_passive_mode, status_extended_passive_mode,
  status_can_not_open_data_connection, status_bad_arguments, status_not_implemented,
  status_network_proto_not_supported,
}
use s3ftpgateway.Text.{split, trim_space, atoi, decimal, decimal_ℤ, equal_fold}

-- A 64-bit `int` after an operation.
abbrev wrap_int : ℤ → ℤ
wrap_int (pos n) = let r = n % 2 ^ 64 in if ltb r (2 ^ 63) then pos r else negsuc (2 ^ 64 - 1 - r)
wrap_int (negsuc n) =
    let r = n % 2 ^ 64 in if ltb r (2 ^ 63) then negsuc r else pos (2 ^ 64 - 1 - r)

-- `x << 8`
abbrev shift_byte : ℤ → ℤ
shift_byte (pos n) = wrap_int (pos (n * 256))
shift_byte (negsuc n) = wrap_int (negsuc (n * 256 + 255))

-- Protection against the bounce attack: no well-known port.
abbrev pub is_open_port : ℤ → Bool
is_open_port port = not (ltb_ℤ port (pos 1024) || ltb_ℤ (pos 65535) port)

-- The loop over the six numbers of PORT.
all_atoi : List Bytes → Option (List ℤ)
all_atoi [] = some []
all_atoi (s ∷ ss) = elim (atoi (trim_space s)) [
  | none ↦ none
  | some n ↦ elim (all_atoi ss) [ none ↦ none | some ns ↦ some (n ∷ ns) ]
]

abbrev pub num_at : List ℤ → ℕ → ℤ
num_at ns i = get_or ns i (pos 0)

-- The address and the port of PORT's numbers.
abbrev pub port_of : List ℤ → ℤ
port_of ns = wrap_int (shift_byte (num_at ns 4) +ℤ num_at ns 5)

abbrev pub address_of : List ℤ → Bytes
address_of ns =
    decimal_ℤ (num_at ns 0)
    ++ (codes "."
        ++ (decimal_ℤ (num_at ns 1)
            ++ (codes "."
                ++ (decimal_ℤ (num_at ns 2)
                    ++ (codes "."
                        ++ (decimal_ℤ (num_at ns 3) ++ (codes ":" ++ decimal_ℤ (port_of ns))))))))

-- The six numbers of PORT's argument, if it has six parts and all are numbers.
unfoldable pub port_numbers : Bytes → Option (List ℤ)
unfolding all_atoi
port_numbers arg =
    let parts = split b',' arg in
    if not (leb 6 (length parts) && leb (length parts) 6) then none else all_atoi parts

-- The address of EPRT: the protocol's number says which form the address takes. `none` is a
-- protocol that is not known, `some none` an invalid address.
abbrev pub eprt_ip : Env → Bytes → Bytes → Option (Option Bytes)
eprt_ip env proto addr =
    let ip = env.parse_ip addr in
    if beq proto (codes "1")
    then some (elim ip [ none ↦ none | some a ↦ env.to4 a ])
    else if beq proto (codes "2")
    then some (elim ip [ none ↦ none | some a ↦ env.to16 a ])
    else none

-- The first address of a list that is an IPv4 address.
first_ipv4 : Env → List Bytes → Option Bytes
first_ipv4 env [] = elim env.local_ip [ none ↦ none | some a ↦ env.to4 a ]
first_ipv4 env (s ∷ ss) =
    let rest = first_ipv4 env ss in
    elim (env.parse_ip s) [
      | none ↦ rest
      | some a ↦ elim (env.to4 a) [ none ↦ rest | some ip ↦ some ip ]
    ]

module _ {S : Type 0} (env : Env) (srv : Server S) where
  -- `publicIPv4`
  unfoldable pub public_ipv4 : Option Bytes
  unfolding first_ipv4
  public_ipv4 = first_ipv4 env srv.public_ips

  -- The address check of `newActiveDataTransfer`: only the client's own address.
  abbrev pub is_valid_remote : Bytes → Bool
  is_valid_remote ip =
      srv.disable_address_check
      || (elim env.remote_ip [ none ↦ false | some ctrl ↦ env.ip_equal ip ctrl ])

  -- `newActiveDataTransfer`: the connection that it dials, if the address is valid.
  unfoldable pub new_active : Bytes → Option DataConn
  new_active addr = elim (env.split_host addr) [
    | none ↦ none
    | some host ↦ elim (env.parse_ip host) [
      | none ↦ none
      | some ip ↦ if is_valid_remote ip then env.dial addr else none
    ]
  ]

  abbrev connection_failed : Session S → Session S
  connection_failed = reply status_can_not_open_data_connection (codes "Data connection failed.")

  -- The end of PORT and EPRT.
  abbrev pub enter_active : Bytes → Session S → Session S
  enter_active addr c = elim (new_active addr) [
    | none ↦ connection_failed c
    | some conn ↦ reply status_command_ok (codes "Okay.") (set_data_transfer (dt_active conn) c)
  ]

  unfoldable pub exec_port : Bytes → Session S → Session S
  exec_port arg c =
      if c.epsv_all || not srv.enable_active_mode
      then reply status_bad_arguments (codes "PORT command is disabled.") c
      else elim (port_numbers arg) [
        | none ↦ reply status_bad_arguments (codes "Syntax error.") c
        | some ns ↦
            if is_open_port (port_of ns)
            then enter_active (address_of ns) c
            else reply status_not_implemented (codes "Command not implemented for that parameter.")
                c
      ]

  -- EPRT behind the split of its argument.
  abbrev pub exec_eprt_params : Bytes → Bytes → Bytes → Session S → Session S
  exec_eprt_params proto addr port c = elim (eprt_ip env proto addr) [
    | none ↦
        reply status_network_proto_not_supported (codes "Network protocol not supported, use (1,2)")
          c
    | some none ↦ reply status_bad_arguments (codes "Invalid address.") c
    | some (some ip) ↦ elim (atoi port) [
      | none ↦ reply status_bad_arguments (codes "Invalid port number.") c
      | some n ↦
          if is_open_port n
          then enter_active (env.ip_string ip ++ (codes ":" ++ decimal_ℤ n)) c
          else reply status_not_implemented (codes "Command not implemented for that parameter.") c
    ]
  ]

  -- `cmd.Arg[:1]` panics on an empty argument.
  unfoldable pub exec_eprt : Bytes → Session S → Session S
  exec_eprt arg c =
      if c.epsv_all || not srv.enable_active_mode
      then reply status_bad_arguments (codes "EPRT command is disabled.") c
      else elim arg [
        | [] ↦ panic c
        | delem ∷ rest ↦
            let params = split delem (delem ∷ rest) in
            if ltb (length params) 5
            then reply status_bad_arguments (codes "Syntax error.") c
            else exec_eprt_params (get_or params 1 []) (get_or params 2 []) (get_or params 3 []) c
      ]

  -- How PASV and EPSV end without a listener: a panic goes on through the handler.
  abbrev passive_error : PassiveError → Session S → Session S
  passive_error passive_disabled = reply status_not_implemented (codes "Passive mode is disabled.")
  passive_error passive_failed = connection_failed
  passive_error passive_panics = panic

  unfoldable pub exec_epsv : Bytes → Session S → Session S
  exec_epsv arg c =
      if equal_fold arg (codes "all")
      then reply status_ready
          (codes "all data connection setup commands other than EPSV is disabled.")
          (record c { epsv_all = true })
      else if not (is_blank arg || (beq arg (codes "1") || beq arg (codes "2")))
      then reply status_bad_arguments (codes "Invalid arguments.") c
      else elim env.new_passive [
        | err e ↦ passive_error e c
        | ok port ↦
            reply status_extended_passive_mode
              (codes "Entering extended passive mode (|||" ++ (decimal port ++ codes "|)"))
              (set_data_transfer (dt_passive port false) c)
      ]

  -- The four bytes of the address and the two of the port.
  abbrev passive_message : Bytes → ℕ → Bytes
  passive_message ip port =
      codes "Entering Passive Mode ("
      ++ (decimal (get_or ip 0 0)
          ++ (codes ","
              ++ (decimal (get_or ip 1 0)
                  ++ (codes ","
                      ++ (decimal (get_or ip 2 0)
                          ++ (codes ","
                              ++ (decimal (get_or ip 3 0)
                                  ++ (codes ","
                                      ++ (decimal (port / 256)
                                          ++ (codes ","
                                              ++ (decimal (port % 256) ++ codes ")")))))))))))

  -- With no IPv4 address the handler replies, goes on, and then indexes a nil address.
  unfoldable pub exec_pasv : Session S → Session S
  exec_pasv c =
      let c1 : Session S = elim public_ipv4 [
        | none ↦ reply status_not_implemented (codes "PASV command is disabled.") c
        | some ip ↦ c
      ] in
      if c.epsv_all
      then reply status_bad_arguments (codes "PASV command is disabled.") c
      else elim env.new_passive [
        | err e ↦ passive_error e c1
        | ok port ↦
            let c2 = set_data_transfer (dt_passive port false) c1 in
            elim public_ipv4 [
              | none ↦ panic c2
              | some ip ↦ reply status_passive_mode (passive_message ip port) c2
            ]
      ]
