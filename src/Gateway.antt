-- ===== src/Gateway.antt =====
-- s3ftpgateway.go and config.go: the configuration, how `Serve` sets a server up, and its loop over
-- errors and signals. The network, the files, the YAML decoder and the AWS configuration are
-- parameters. `Fatal` of the logger ends the program: it is an error here.
pub mod Loop
pub mod Listeners
pub mod Start
pub mod Main
mod Tests
use s3ftpgateway.Base.{
  ℕ, Bool, true, false, not, ◌==◌, ◌||◌, Option, none, some, List, [], ◌∷◌, ◌++◌, map,
  if◌then◌else◌, Bytes, beq, codes, Result, ok, err,
}
use s3ftpgateway.Base.Int.{ℤ, pos}
use s3ftpgateway.Ports.{PortConfig}
use s3ftpgateway.Session.{Server, Authorizer}
use s3ftpgateway.Text.{trim_space}
use s3ftpgateway.Tls.{TlsConfig, Certificate, serve_tls_config}
use s3ftpgateway.UserList.{Value, AuthUser, ConfigError, new_authorizer}
use s3ftpgateway.Vfs.{FileSystem, Reader}

-- `ListenerConfig`
pub record ListenerConfig : Type 0 where
  pub address : Bytes
  pub tls : Bool

-- `AuthorizerConfig`; `users` is what its map holds under that key.
pub record AuthorizerConfig : Type 0 where
  pub method : Bytes
  pub users : Option Value

-- `Config`, with the format of `LogConfig`.
pub record Config : Type 0 where
  pub bucket : Bytes
  pub prefix : Bytes
  pub listeners : List ListenerConfig
  pub log_format : Bytes
  pub authorizer : AuthorizerConfig
  pub min_passive_port : ℤ
  pub max_passive_port : ℤ
  pub public_ips : List Bytes
  pub guess_public_ip : Bool
  pub enable_active_mode : Bool
  pub enable_address_check : Bool
  pub certificate : Bytes
  pub certificate_key : Bytes

-- What the decoder starts from: zero values, and the address check on.
abbrev pub default_config : Config
default_config = record {
  bucket = [];
  prefix = [];
  listeners = [];
  log_format = [];
  authorizer = record { method = []; users = none };
  min_passive_port = pos 0;
  max_passive_port = pos 0;
  public_ips = [];
  guess_public_ip = false;
  enable_active_mode = false;
  enable_address_check = true;
  certificate = [];
  certificate_key = [];
}

-- `LoadConfig`, from what `os.Open` gives and the decoder, which fills in a `Config`.
unfoldable pub load_config :
    {E : Type 0} → Result E Bytes → (Bytes → Config → Result E Config) → Result E Config
load_config (err e) decode = err e
load_config (ok text) decode = decode text default_config

-- A response of HTTP.
pub record Response : Type 0 where
  pub status : ℕ
  pub body : Reader

-- `guessPublicIPFromMetaData` and `guessPublicIPFromCheckIP`; none is a request that fails.
unfoldable pub guess_public_ip : Option Response → Bytes
guess_public_ip none = []
guess_public_ip (some r) =
    if not (r.status == 200) then [] else if r.body.fails then [] else trim_space r.body.content

-- The public addresses that `Serve` takes, by both guesses.
unfoldable pub choose_public_ips : Config → Option Response → Option Response → List Bytes
choose_public_ips config meta check =
    let ip1 = guess_public_ip meta in
    let ip2 = guess_public_ip check in
    if not config.guess_public_ip
    then config.public_ips
    else if not (beq ip1 [])
    then ip1 ∷ []
    else if not (beq ip2 [])
    then ip2 ∷ []
    else config.public_ips

-- `listenerConfig`
pub record Listener : Type 0 where
  pub listener : ℕ
  pub tls : Bool

-- The address that is listened on.
abbrev pub listen_address : ListenerConfig → Bytes
listen_address l =
    if beq l.address [] then (if l.tls then codes ":ftps" else codes ":ftp") else l.address
