-- ===== src/Ftptest.antt =====
-- ftp/ftptest/server.go: the server for tests, which accepts all users. A panic is none.
mod Tests
use s3ftpgateway.Base.{
  Bool, true, false, not, Option, none, some, List, [], ◌∷◌, ◌++◌, if◌then◌else◌, Bytes, beq, codes,
  Result, ok, err, ◌≡◌, arith,
}
use s3ftpgateway.Session.{Authorizer, Server}
use s3ftpgateway.Tls.{TlsConfig, Certificate, or_new}
use s3ftpgateway.Vfs.{FileSystem}

-- `testAuthorizer`, on a server with this file system.
unfoldable pub test_authorizer : {S : Type 0} → Option (FileSystem S) → Authorizer S
test_authorizer fs user password = ok (record { user = user; file_system = fs })

module _ {E L : Type 0} (listen : Bytes → Bytes → Result E L) where
  abbrev or_panic : Result E L → Option L
  or_panic (err e) = none
  or_panic (ok l) = some l

  -- `newLocalListener`, by the flag -ftptest.serve.
  unfoldable pub new_local_listener : Bytes → Option L
  new_local_listener address =
      if not (beq address [])
      then or_panic (listen (codes "tcp") address)
      else elim (listen (codes "tcp") (codes "127.0.0.1:0")) [
        | ok l ↦ some l
        | err e ↦ or_panic (listen (codes "tcp6") (codes "[::1]:0"))
      ]

-- `Server` of the package: a listener `L`, and the certificate as parsed, `X`.
pub record TestServer (S L X : Type 0) : Type 0 where
  pub url : Bytes
  pub listener : L
  pub config : Server S
  pub tls_config : Option TlsConfig
  pub certificate : Option X
  pub serving : Bool

abbrev protos_or_ftp : List Bytes → List Bytes
protos_or_ftp [] = codes "ftp" ∷ []
protos_or_ftp (p ∷ ps) = p ∷ ps

abbrev certificates_or : Certificate → List Certificate → List Certificate
certificates_or cert [] = cert ∷ []
certificates_or cert (c ∷ cs) = c ∷ cs

abbrev first_or : Certificate → List Certificate → Certificate
first_or cert [] = cert
first_or cert (c ∷ cs) = c

module _ {S L X : Type 0} where
  -- `NewUnstartedServer`, on a new listener.
  unfoldable pub new_unstarted_server : L → FileSystem S → TestServer S L X
  new_unstarted_server l vfs = record {
    url = [];
    listener = l;
    config = record {
      file_system = some vfs;
      authorizer = some (test_authorizer (some vfs));
      public_ips = [];
      enable_active_mode = true;
      disable_address_check = false;
    };
    tls_config = none;
    certificate = none;
    serving = false;
  }

  -- `goServe`
  abbrev pub go_serve : TestServer S L X → TestServer S L X
  go_serve s = record s { serving = true }

  module _ {E : Type 0} (key_pair : Result E Certificate) (parse : Certificate → Result E X)
      (address : L → Bytes) (tls_listener : L → TlsConfig → L) where
    -- `setupTLS`
    unfoldable pub setup_tls : TestServer S L X → Option (TlsConfig × TestServer S L X)
    setup_tls s = elim key_pair [
      | err e ↦ none
      | ok cert ↦
          let old = or_new s.tls_config in
          let config = record old {
            next_protos = protos_or_ftp old.next_protos;
            certificates = certificates_or cert old.certificates;
          } in
          elim (parse (first_or cert old.certificates)) [
            | err e ↦ none
            | ok x ↦ some (config, record s { tls_config = some config; certificate = some x })
          ]
    ]

    -- `Start`
    unfoldable pub start : TestServer S L X → Option (TestServer S L X)
    unfolding setup_tls
    start s =
        if not (beq s.url [])
        then none
        else elim (setup_tls (record s { url = codes "ftp://" ++ address s.listener })) [
          | none ↦ none
          | some (config, s') ↦ some (go_serve s')
        ]

    -- `StartTLS`
    unfoldable pub start_tls : TestServer S L X → Option (TestServer S L X)
    unfolding setup_tls
    start_tls s = if not (beq s.url []) then none else elim (setup_tls s) [
      | none ↦ none
      | some (config, s') ↦
          let l = tls_listener s.listener config in
          some (go_serve (record s' { listener = l; url = codes "ftps://" ++ address l }))
    ]

    -- A server that was started is not started again.
    start_once :
        (s s' : TestServer S L X) → start s ≡ some s' → (start s' ≡ none) × (start_tls s' ≡ none)
    unfolding start start_tls setup_tls codes beq
    start_once s s' e = ground (arith)

    -- `NewServer` and `NewTLSServer`, on a new listener.
    unfoldable pub new_server : L → FileSystem S → Option (TestServer S L X)
    unfolding start new_unstarted_server
    new_server l vfs = start (new_unstarted_server l vfs)

    unfoldable pub new_tls_server : L → FileSystem S → Option (TestServer S L X)
    unfolding start_tls new_unstarted_server
    new_tls_server l vfs = start_tls (new_unstarted_server l vfs)

-- What `Close` calls on the server, before it waits for its goroutine.
pub data CloseCall : Type 0 where
  call_shutdown call_close : CloseCall

unfoldable pub close_calls : {E : Type 0} → Option E → List CloseCall
close_calls none = call_shutdown ∷ []
close_calls (some e) = call_shutdown ∷ call_close ∷ []
