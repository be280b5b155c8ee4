-- ===== src/Gateway/Tests.antt =====
-- s3ftpgateway.go on a configuration with two listeners and the users of the sample.
use s3ftpgateway.Base.{
  ℕ, ◌≡◌, ◌≤◌, ◌⊎◌, ◌↔◌, refl, true, false, none, some, List, [], ◌∷◌, length, if◌then◌else◌, Bytes,
  beq, codes, Result, ok, err,
}
use s3ftpgateway.Base.Int.{pos}
use s3ftpgateway.Gateway.{Config, default_config, choose_public_ips}
use s3ftpgateway.Gateway.Listeners.{
  answers, opened_by, with_modes, AllOk, HasError, listeners, listen_loop, listeners-all_or_none,
}
use s3ftpgateway.Gateway.Loop.{
  serve_returned, signal, shutdown_done, run, initial, shutdowns, exit_status, has_error,
  run-shutdowns,
}
use s3ftpgateway.Gateway.Start.{World, Started, serve_setup, new_server, serve_setup-Knows}
use s3ftpgateway.LifeCycle.{accept_failed}
use s3ftpgateway.MapFs.{Store}
use s3ftpgateway.S3.{S3Client, other_error}
use s3ftpgateway.S3.Operations.{s3_fs}
use s3ftpgateway.Session.{Authorizer}
use s3ftpgateway.UserList.{
  array, authorize_user, new_authorizer, new_user_list, read_users, read_user, value_at,
}
use s3ftpgateway.UserList.Sample.{
  sort_users, sort_users-Sorts, users, bob, alice, users_read, distinct,
}
use s3ftpgateway.UserList.Users.{granted, Knows}

abbrev config : Config
config = record default_config {
  listeners = record { address = []; tls = false } ∷ record { address = []; tls = true } ∷ [];
  authorizer = record { method = codes "userlist"; users = some (array users) };
}

-- The network gives consecutive numbers.
abbrev net_listen : List ℕ → Bytes → Result Bytes ℕ
net_listen opened address = ok (length opened)

abbrev client : S3Client Store
client = record {
  get_object = λ s k. err other_error;
  list_objects = λ s inp. err other_error;
  pages = λ s inp. [];
  upload = λ s k t r. (ok tt, s);
  put_object = λ s k b. (ok tt, s);
  delete_object = λ s k. (ok tt, s);
}

abbrev world : World Store Bytes
world = record {
  meta = none;
  check = none;
  ports_fallback = none;
  listen = net_listen;
  client = ok (λ b. client);
  mime_type = λ e. [];
  sort = sort_users;
  compare_hash = beq;
  load_key_pair = λ c k. ok 7;
}

abbrev auth : Authorizer Store
auth =
    authorize_user beq (new_server world config (s3_fs client (λ e. []) []))
      (sort_users (bob ∷ alice ∷ []))

abbrev started : Started Store
started = record {
  listeners = record { listener = 0; tls = false } ∷ record { listener = 1; tls = true } ∷ [];
  server = record (new_server world config (s3_fs client (λ e. []) [])) { authorizer = some auth };
  ports = record { min_passive_port = pos 0; max_passive_port = pos 0 };
  tls_config = record { certificates = 7 ∷ []; has_get_certificate = false; next_protos = [] };
}

config_starts : serve_setup world config ≡ ok started
unfolding serve_setup listeners listen_loop new_authorizer new_user_list read_users read_user
    value_at codes beq choose_public_ips
config_starts = refl

run-shutdowns_example :
    (shutdowns (run (signal ∷ serve_returned (accept_failed []) ∷ shutdown_done ∷ []) initial) ≤ 1)
    × ((n : ℕ)
        → exit_status
            (run (signal ∷ serve_returned (accept_failed []) ∷ shutdown_done ∷ []) initial)
          ≡ some n
        → (shutdowns (run (signal ∷ serve_returned (accept_failed []) ∷ shutdown_done ∷ []) initial)
            ≡ 1)
          × (n ≡ (
              if has_error
                (run (signal ∷ serve_returned (accept_failed []) ∷ shutdown_done ∷ []) initial)
              then 1
              else 0)))
run-shutdowns_example =
    run-shutdowns (signal ∷ serve_returned (accept_failed []) ∷ shutdown_done ∷ [])

listeners-all_or_none_example :
    (AllOk (answers net_listen [] config.listeners)
      × (listeners net_listen none config ≡ (
        ok (with_modes config.listeners (opened_by (answers net_listen [] config.listeners))),
        [],
      )))
    ⊎ ((e : Bytes) × HasError e (answers net_listen [] config.listeners)
        × (listeners net_listen none config
            ≡ (err e, opened_by (answers net_listen [] config.listeners))))
listeners-all_or_none_example = listeners-all_or_none net_listen config

serve_setup-Knows_example :
    (client : Bytes → S3Client Store) × (auth : Authorizer Store) × (world.client ≡ ok client)
    × (started.server.authorizer ≡ some auth)
    × (started.server.file_system
        ≡ some (s3_fs (client config.bucket) world.mime_type config.prefix))
    × ((user password : Bytes)
        → (auth user password ≡ ok (granted beq started.server user))
          ↔ Knows beq started.server (bob ∷ alice ∷ []) user password)
serve_setup-Knows_example =
    serve_setup-Knows world config started users (bob ∷ alice ∷ []) sort_users-Sorts config_starts
      refl users_read distinct
