-- ===== src/Gateway/Start.antt =====
-- `Serve` of s3ftpgateway.go up to its loop: the server that a configuration gives.
use s3ftpgateway.Base.{
  ℕ, ◌≡◌, refl, sym, subst, ◌↔◌, ap, Bool, false, not, ◌||◌, Option, none, some, List, [], ◌∷◌,
  if◌then◌else◌, Bytes, beq, beq_iff, codes, Result, ok, err, arith, Result-cases, inl, inr,
}
use s3ftpgateway.Gateway.{Config, Response, Listener, choose_public_ips}
use s3ftpgateway.Gateway.Listeners.{listeners}
use s3ftpgateway.Ports.{PortConfig}
use s3ftpgateway.S3.{S3Client}
use s3ftpgateway.S3.Operations.{s3_fs}
use s3ftpgateway.Session.{Authorizer, Server}
use s3ftpgateway.Tls.{
  Certificate, TlsConfig, serve_tls_config, with_certificate, str_slice_contains,
}
use s3ftpgateway.UserList.{Value, array, Items, AuthUser, ConfigError, read_users, new_authorizer}
use s3ftpgateway.UserList.Users.{Sorts, HasDistinctNames, granted, Knows, new_authorizer-Knows}
use s3ftpgateway.Vfs.{FileSystem}

-- Why `Serve` ends the program.
pub data Fatal (E : Type 0) : Type 0 where
  unknown_format : Fatal E
  fail_to_listen : E → Fatal E
  fail_to_get_aws_config : E → Fatal E
  fail_to_parse_config : ConfigError → Fatal E
  fail_to_load_certificate : E → Fatal E

-- The listeners, and the `ftp.Server` that serves them.
pub record Started (S : Type 0) : Type 0 where
  pub listeners : List Listener
  pub server : Server S
  pub ports : PortConfig
  pub tls_config : TlsConfig

-- What the system and the libraries answer to `Serve`.
pub record World (S E : Type 0) : Type 0 where
  pub meta : Option Response
  pub check : Option Response
  pub ports_fallback : Option E
  pub listen : List ℕ → Bytes → Result E ℕ
  -- the client for a bucket, with the AWS configuration
  pub client : Result E (Bytes → S3Client S)
  pub mime_type : Bytes → Bytes
  pub sort : List AuthUser → List AuthUser
  pub compare_hash : Bytes → Bytes → Bool
  pub load_key_pair : Bytes → Bytes → Result E Certificate

abbrev is_known_format : Bytes → Bool
is_known_format f = beq f [] || beq f (codes "text") || beq f (codes "json")

module _ {S E : Type 0} (w : World S E) where
  -- The server without its authorizer.
  abbrev pub new_server : Config → FileSystem S → Server S
  new_server config fs = record {
    file_system = some fs;
    authorizer = none;
    public_ips = choose_public_ips config w.meta w.check;
    enable_active_mode = config.enable_active_mode;
    disable_address_check = not config.enable_address_check;
  }

  abbrev new_started :
      Config → List Listener → FileSystem S → Authorizer S → Certificate → Started S
  new_started config ls fs auth cert = record {
    listeners = ls;
    server = record (new_server config fs) { authorizer = some auth };
    ports = record {
      min_passive_port = config.min_passive_port;
      max_passive_port = config.max_passive_port;
    };
    tls_config = record { certificates = cert ∷ []; has_get_certificate = false; next_protos = [] };
  }

  -- `Serve` up to the first `go`. The authorizer reads no more of its server than the file system.
  unfoldable pub serve_setup : Config → Result (Fatal E) (Started S)
  serve_setup config =
      if not (is_known_format config.log_format)
      then err unknown_format
      else (elim (listeners w.listen w.ports_fallback config).0 [
        | err e ↦ err (fail_to_listen e)
        | ok ls ↦ elim w.client [
          | err e ↦ err (fail_to_get_aws_config e)
          | ok client ↦
              let fs = s3_fs (client config.bucket) w.mime_type config.prefix in
              elim (new_authorizer w.compare_hash (new_server config fs) w.sort
                config.authorizer.method config.authorizer.users) [
                  | err e ↦ err (fail_to_parse_config e)
                  | ok auth ↦ elim (w.load_key_pair config.certificate config.certificate_key) [
                    | err e ↦ err (fail_to_load_certificate e)
                    | ok cert ↦ ok (new_started config ls fs auth cert)
                  ]
                ]
        ]
      ])

  -- What `serve` hands to `ServeTLS` for a listener: no files, so that the certificate stays.
  unfoldable pub implicit_tls : Started S → Result E TlsConfig
  implicit_tls started = serve_tls_config w.load_key_pair (some started.tls_config) [] []

  -- What a start that succeeds has met.
  record IsStarted (config : Config) (started : Started S) : Type 0 where
    client : Bytes → S3Client S
    auth : Authorizer S
    cert : Certificate
    ls : List Listener
    client_eq : w.client ≡ ok client
    auth_eq :
        new_authorizer w.compare_hash
          (new_server config (s3_fs (client config.bucket) w.mime_type config.prefix))
          w.sort
          config.authorizer.method
          config.authorizer.users
        ≡ ok auth
    started_eq :
        started
        ≡ new_started config ls (s3_fs (client config.bucket) w.mime_type config.prefix) auth cert

  serve_setup-IsStarted :
      (config : Config) (started : Started S)
      → serve_setup config ≡ ok started
      → IsStarted config started
  unfolding serve_setup
  serve_setup-IsStarted config started e =
      elim (Result-cases (listeners w.listen w.ports_fallback config).0) [
        | inr (x, fails) ↦ absurd (ground arith)
        | inl (ls, listening) ↦ elim (Result-cases w.client) [
          | inr (x, fails) ↦ absurd (ground arith)
          | inl (client, client_eq) ↦
              let fs = s3_fs (client config.bucket) w.mime_type config.prefix in
              elim (Result-cases (
                new_authorizer w.compare_hash (new_server config fs) w.sort config.authorizer.method
                  config.authorizer.users)) [
                    | inr (x, fails) ↦ absurd (ground arith)
                    | inl (auth, auth_eq) ↦
                        elim (Result-cases
                          (w.load_key_pair config.certificate config.certificate_key)) [
                            | inr (x, fails) ↦ absurd (ground arith)
                            | inl (cert, loaded) ↦ record {
                              client = client;
                              auth = auth;
                              cert = cert;
                              ls = ls;
                              client_eq = client_eq;
                              auth_eq = auth_eq;
                              started_eq = ground arith;
                            }
                          ]
                  ]
        ]
      ]

  new_authorizer-method :
      (srv : Server S) (method : Bytes) (users : Option Value) (auth : Authorizer S)
      → new_authorizer w.compare_hash srv w.sort method users ≡ ok auth
      → method ≡ codes "userlist"
  unfolding new_authorizer
  new_authorizer-method srv method users auth e = ground (arith, beq_iff method (codes "userlist"))

  -- If the set-up of Serve succeeds on a configuration whose users read as a list without equal
  -- names, and sort.Sort orders the users by name and keeps them: the server's file system is the
  -- S3 file system for the configured bucket, under the client that the AWS configuration gave,
  -- with the configured prefix, it has an authorizer, and that authorizer lets a user in with this
  -- file system exactly if some configured user has the name and the password fits its hash.
  pub serve_setup-Knows :
      (config : Config) (started : Started S) (users : Items) (us : List AuthUser)
      → Sorts w.sort
      → serve_setup config ≡ ok started
      → config.authorizer.users ≡ some (array users)
      → read_users users ≡ ok us
      → HasDistinctNames us
      → (client : Bytes → S3Client S) × (auth : Authorizer S) × (w.client ≡ ok client)
        × (started.server.authorizer ≡ some auth)
        × (started.server.file_system
            ≡ some (s3_fs (client config.bucket) w.mime_type config.prefix))
        × ((user password : Bytes)
            → (auth user password ≡ ok (granted w.compare_hash started.server user))
              ↔ Knows w.compare_hash started.server us user password)
  serve_setup-Knows config started users us sorts e configured read distinct =
      let i = serve_setup-IsStarted config started e in
      let fs = s3_fs (i.client config.bucket) w.mime_type config.prefix in
      let srv = new_server config fs in
      let method =
        new_authorizer-method srv config.authorizer.method config.authorizer.users i.auth
          i.auth_eq in
      let (auth, auth_eq, knows) =
        new_authorizer-Knows w.compare_hash srv w.sort sorts users us read distinct in
      let same : i.auth ≡ auth = cc in
      let fs_eq : started.server.file_system ≡ some fs =
        ap (λ (s : Started S). s.server.file_system) i.started_eq in
      (
        i.client,
        i.auth,
        i.client_eq,
        ap (λ (s : Started S). s.server.authorizer) i.started_eq,
        fs_eq,
        λ user password. rw (same, fs_eq) (knows user password).0,
      )

  implicit_tls-new_started :
      (config : Config) (ls : List Listener) (fs : FileSystem S) (auth : Authorizer S)
      (cert : Certificate)
      → implicit_tls (new_started config ls fs auth cert)
        ≡ ok (record {
          certificates = cert ∷ [];
          has_get_certificate = false;
          next_protos = codes "ftp" ∷ [];
        })
  unfolding implicit_tls serve_tls_config with_certificate str_slice_contains beq
  implicit_tls-new_started config ls fs auth cert = refl

  -- A server that has been set up serves implicit TLS with the certificate of the configuration, and
  -- reads no other.
  pub implicit_tls-keeps :
      (config : Config) (started : Started S)
      → serve_setup config ≡ ok started
      → implicit_tls started ≡ ok (record started.tls_config { next_protos = codes "ftp" ∷ [] })
  implicit_tls-keeps config started e =
      let i = serve_setup-IsStarted config started e in
      let fs = s3_fs (i.client config.bucket) w.mime_type config.prefix in
      subst (λ s. implicit_tls s ≡ ok (record s.tls_config { next_protos = codes "ftp" ∷ [] }))
        (sym i.started_eq) (implicit_tls-new_started config i.ls fs i.auth i.cert)
