-- ===== src/Tls.antt =====
-- The TLS configurations with which ftp/server.go serves, `ServeTLS` and `ServeExplicitTLS`, and the
-- addresses that it listens on. Reading a certificate, `tls.LoadX509KeyPair`, is a parameter.
mod Tests
use s3ftpgateway.Base.{
  ℕ, Bool, true, false, not, ◌||◌, Option, none, some, List, [], ◌∷◌, ◌++◌, if◌then◌else◌, Bytes,
  beq, codes, Result, ok, err,
}

-- A certificate stands for its number.
abbrev pub Certificate : Type 0
Certificate = ℕ

-- The fields of `tls.Config` that the server reads or sets.
pub record TlsConfig : Type 0 where
  pub certificates : List Certificate
  pub has_get_certificate : Bool
  pub next_protos : List Bytes

abbrev pub or_new : Option TlsConfig → TlsConfig
or_new (some c) = c
or_new none = record { certificates = []; has_get_certificate = false; next_protos = [] }

-- `strSliceContains`
unfoldable pub str_slice_contains : List Bytes → Bytes → Bool
str_slice_contains [] s = false
str_slice_contains (v ∷ vs) s = beq v s || str_slice_contains vs s

abbrev has_any : List Certificate → Bool
has_any [] = false
has_any (c ∷ cs) = true

module _ {E : Type 0} (load : Bytes → Bytes → Result E Certificate) where
  -- The certificate is read where none is configured or a file is named.
  unfoldable pub with_certificate : TlsConfig → Bytes → Bytes → Result E TlsConfig
  with_certificate config cert_file key_file =
      if not (has_any config.certificates || config.has_get_certificate)
        || not (beq cert_file [])
        || not (beq key_file [])
      then (elim (load cert_file key_file) [
        | err e ↦ err e
        | ok c ↦ ok (record config { certificates = c ∷ [] })
      ])
      else ok config

  -- `ServeExplicitTLS`, up to `serve`
  unfoldable pub serve_explicit_tls_config : Option TlsConfig → Bytes → Bytes → Result E TlsConfig
  serve_explicit_tls_config config cert_file key_file =
      with_certificate (or_new config) cert_file key_file

  -- `ServeTLS`, up to `serve`
  unfoldable pub serve_tls_config : Option TlsConfig → Bytes → Bytes → Result E TlsConfig
  serve_tls_config config cert_file key_file =
      let c = or_new config in
      let c' =
        if str_slice_contains c.next_protos (codes "ftp")
        then c
        else record c { next_protos = c.next_protos ++ codes "ftp" ∷ [] } in
      with_certificate c' cert_file key_file

-- `tlsCfg` of ftp/conn.go, from the configuration of the connection and that of the server.
unfoldable pub tls_cfg : Option TlsConfig → Option TlsConfig → TlsConfig
tls_cfg (some own) server = own
tls_cfg none server = or_new server

-- The configuration that `upgradeToTLS` of ftp/conn.go hands to `tls.Server`: that of the server, nil
-- if it is not set. The one of the connection is not asked.
unfoldable pub upgrade_config : Option TlsConfig → Option TlsConfig → Option TlsConfig
upgrade_config own server = server

-- The certificates of a configuration that is set.
abbrev pub certificates_of : Option TlsConfig → Option (List Certificate)
certificates_of none = none
certificates_of (some c) = some c.certificates

-- The ways to serve a listener: `Serve`, `ServeExplicitTLS` and `ServeTLS`.
pub data ServeWay : Type 0 where
  serve_plain : ServeWay
  serve_explicit_tls serve_tls : Bytes → Bytes → ServeWay

-- The address that `ListenAndServe`, `ListenAndServeExplicitTLS` and `ListenAndServeTLS` listen on.
unfoldable pub listen_addr : ServeWay → Bytes → Bytes
listen_addr (serve_tls cert_file key_file) addr = if beq addr [] then codes ":ftps" else addr
listen_addr way addr = if beq addr [] then codes ":ftp" else addr

module _ {E L : Type 0} (listen : Bytes → Result E L) (keep_alive : L → L) where
  -- The three functions, up to the call that serves the listener.
  unfoldable pub listen_and_serve : ServeWay → Bytes → Result E (L × ServeWay)
  listen_and_serve way addr = elim (listen (listen_addr way addr)) [
    | err e ↦ err e
    | ok ln ↦ ok (keep_alive ln, way)
  ]
