-- ===== src/Session/Bounce.antt =====
-- PORT and EPRT of ftp/command.go, and the addresses that they connect to.
use s3ftpgateway.Base.{
  ltb, length, get_or, ◌≡◌, refl, ◌⊎◌, inl, inr, true, false, ◌||◌, not, none, some, [], ◌∷◌, ◌++◌,
  List, sym, subst, Bytes, codes, arith, Bool-cases, Option-cases, append_assoc,
}
use s3ftpgateway.Base.Int.{ℤ}
use s3ftpgateway.Session.Connect.{
  eprt_ip, is_open_port, port_numbers, address_of, num_at, port_of, is_valid_remote, new_active,
  enter_active, exec_port, exec_eprt, exec_eprt_params,
}
use s3ftpgateway.Session.{Env, Server, Session, DataConn, dt_active}
use s3ftpgateway.Text.{split, atoi, decimal_ℤ}

abbrev host_of : List ℤ → Bytes
host_of ns =
    decimal_ℤ (num_at ns 0)
    ++ (codes "."
        ++ (decimal_ℤ (num_at ns 1)
            ++ (codes "." ++ (decimal_ℤ (num_at ns 2) ++ (codes "." ++ decimal_ℤ (num_at ns 3))))))

address_of-host :
    (ns : List ℤ) → address_of ns ≡ host_of ns ++ (codes ":" ++ decimal_ℤ (port_of ns))
address_of-host ns = simp append_assoc

module _ {S : Type 0} (env : Env) (srv : Server S) where
  -- The address that was dialed, with its parts.
  pub record IsDialed (c : Session S) (conn : DataConn) : Type 0 where
    pub front : Bytes
    pub port : ℤ
    pub host : Bytes
    pub ip : Bytes
    pub split : env.split_host (front ++ (codes ":" ++ decimal_ℤ port)) ≡ some host
    pub parsed : env.parse_ip host ≡ some ip
    pub dialed : env.dial (front ++ (codes ":" ++ decimal_ℤ port)) ≡ some conn
    pub valid : is_valid_remote env srv ip ≡ true
    pub open_port : is_open_port port ≡ true
    pub enabled : srv.enable_active_mode ≡ true
    pub allowed : c.epsv_all ≡ false

  abbrev pub Connects : Session S → Session S → Type 0
  Connects c c' = (c'.dt ≡ c.dt) ⊎ ((conn : DataConn) × (c'.dt ≡ dt_active conn) × IsDialed c conn)

  enter_active-Connects :
      (front : Bytes) (port : ℤ) (c : Session S)
      → is_open_port port ≡ true
      → srv.enable_active_mode ≡ true
      → c.epsv_all ≡ false
      → Connects c (enter_active env srv (front ++ (codes ":" ++ decimal_ℤ port)) c)
  unfolding new_active
  enter_active-Connects front port c o e a =
      let addr : Bytes = front ++ (codes ":" ++ decimal_ℤ port) in
      elim (Option-cases (env.split_host addr)) [
        | inl no_host ↦ inl (rw (enter_active, no_host) refl)
        | inr (host, at_host) ↦ elim (Option-cases (env.parse_ip host)) [
          | inl no_ip ↦ inl (rw (enter_active, at_host, no_ip) refl)
          | inr (ip, at_ip) ↦ elim (Bool-cases (is_valid_remote env srv ip)) [
            | inr foreign ↦ inl (rw (enter_active, at_host, at_ip, foreign) refl)
            | inl own ↦ elim (Option-cases (env.dial addr)) [
              | inl failed ↦ inl (rw (enter_active, at_host, at_ip, own, failed) refl)
              | inr (conn, answered) ↦ inr (
                conn,
                rw (enter_active, at_host, at_ip, own, answered) refl,
                record {
                  front = front;
                  port = port;
                  host = host;
                  ip = ip;
                  split = at_host;
                  parsed = at_ip;
                  dialed = answered;
                  valid = own;
                  open_port = o;
                  enabled = e;
                  allowed = a;
                },
              )
            ]
          ]
        ]
      ]

  -- PORT leaves the data transfer alone, or it makes an active one with a connection that was
  -- dialed: only if active mode is enabled and EPSV ALL was not sent, to a port that is not well
  -- known, and to an address that the address check accepts.
  pub exec_port-Connects : (arg : Bytes) (c : Session S) → Connects c (exec_port env srv arg c)
  unfolding exec_port
  exec_port-Connects arg c = elim (Bool-cases (c.epsv_all || not srv.enable_active_mode)) [
    | inl disabled ↦ inl (rw disabled refl)
    | inr enabled ↦ elim (Option-cases (port_numbers arg)) [
      | inl bad ↦ inl (rw (enabled, bad) refl)
      | inr (ns, parsed) ↦ elim (Bool-cases (is_open_port (port_of ns))) [
        | inr closed ↦ inl (rw (enabled, parsed, closed) refl)
        | inl free ↦
            rw (enabled, parsed, free)
              (subst (λ addr. Connects c (enter_active env srv addr c)) (sym (address_of-host ns))
                (enter_active-Connects (host_of ns) (port_of ns) c free (ground (arith, enabled))
                  (ground (arith, enabled))))
      ]
    ]
  ]

  exec_eprt_params-Connects :
      (proto addr port : Bytes) (c : Session S)
      → (c.epsv_all || not srv.enable_active_mode) ≡ false
      → Connects c (exec_eprt_params env srv proto addr port c)
  exec_eprt_params-Connects proto addr port c enabled =
      elim (Option-cases (eprt_ip env proto addr)) [
        | inl unknown ↦ inl (rw (exec_eprt_params, unknown) refl)
        | inr (none, at_ip) ↦ inl (rw (exec_eprt_params, at_ip) refl)
        | inr (some ip, at_ip) ↦ elim (Option-cases (atoi port)) [
          | inl bad ↦ inl (rw (exec_eprt_params, at_ip, bad) refl)
          | inr (n, parsed) ↦ elim (Bool-cases (is_open_port n)) [
            | inr closed ↦ inl (rw (exec_eprt_params, at_ip, parsed, closed) refl)
            | inl free ↦
                rw (exec_eprt_params, at_ip, parsed, free)
                  (enter_active-Connects (env.ip_string ip) n c free (ground (arith, enabled))
                    (ground (arith, enabled)))
          ]
        ]
      ]

  -- EPRT leaves the data transfer alone, or it makes an active one with a connection that was
  -- dialed: only if active mode is enabled and EPSV ALL was not sent, to a port that is not well
  -- known, and to an address that the address check accepts.
  pub exec_eprt-Connects : (arg : Bytes) (c : Session S) → Connects c (exec_eprt env srv arg c)
  unfolding exec_eprt
  exec_eprt-Connects [] c = elim (Bool-cases (c.epsv_all || not srv.enable_active_mode)) [
    | inl disabled ↦ inl (rw disabled refl)
    | inr enabled ↦ inl (rw enabled refl)
  ]
  exec_eprt-Connects (b ∷ bs) c =
      let params : List Bytes = split b (b ∷ bs) in
      elim (Bool-cases (c.epsv_all || not srv.enable_active_mode)) [
        | inl disabled ↦ inl (rw disabled refl)
        | inr enabled ↦ elim (Bool-cases (ltb (length params) 5)) [
          | inl few ↦ inl (rw (enabled, few) refl)
          | inr enough ↦
              rw (enabled, enough)
                (exec_eprt_params-Connects (get_or params 1 []) (get_or params 2 [])
                  (get_or params 3 []) c enabled)
        ]
      ]
