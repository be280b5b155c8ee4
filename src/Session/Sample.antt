-- ===== src/Session/Sample.antt =====
-- ftp/conn.go and ftp/server.go: a server whose files are a map, for tests.
use s3ftpgateway.Base.{false, true, none, some, err, []}
use s3ftpgateway.MapFs.{Store, map_fs}
use s3ftpgateway.Session.Account.{anonymous_authorizer}
use s3ftpgateway.Session.{Env, Server, passive_disabled, handshake_failed}

-- A network on which nothing answers.
abbrev pub quiet : Env
quiet = record {
  parse_ip = λ s. none;
  to4 = λ s. none;
  to16 = λ s. none;
  ip_equal = λ s t. false;
  ip_string = λ s. s;
  split_host = λ s. none;
  local_ip = none;
  remote_ip = none;
  dial = λ s. none;
  new_passive = err passive_disabled;
  accepted = none;
  handshake = handshake_failed;
  unique_name = none;
  slept = true;
  format_time = λ n. [];
  format_list_time = λ n. [];
  mode_string = λ i. [];
  printed = λ ls. 0;
}

abbrev pub closed_server : Server Store
closed_server = record {
  file_system = some map_fs;
  authorizer = none;
  public_ips = [];
  enable_active_mode = true;
  disable_address_check = false;
}

abbrev pub server : Server Store
server = record closed_server { authorizer = some (anonymous_authorizer closed_server) }
