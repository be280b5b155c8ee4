-- ===== src/Session/Tests.antt =====
-- ftp/conn.go and ftp/command.go: a connection to an anonymous server whose files are a map.
use s3ftpgateway.Base.{
  ok, arith, ◌∷◌, ◌≢◌, beq, ◌≡◌, refl, true, false, none, some, [], Bytes, codes, err,
}
use s3ftpgateway.Command.{
  command_pasv, command_abor, command_prot, parse_command, find_handler, require_param,
  require_auth,
}
use s3ftpgateway.GoMap.{insert, lookup}
use s3ftpgateway.Text.{trim_prefix, has_prefix, split, trim_space, to_upper}
use s3ftpgateway.GoPath.Clean.{IsCanonical}
use s3ftpgateway.Session.Answers.{IsAnswered, exec_command-IsAnswered}
use s3ftpgateway.Session.Bounce.{Connects, exec_port-Connects}
use s3ftpgateway.Session.Connect.{exec_port}
use s3ftpgateway.Session.Guests.{Step-store}
use s3ftpgateway.Session.Panics.{exec_command-panicked}
use s3ftpgateway.Session.Transfer.{exec_retr, exec_stor, run_task}
use s3ftpgateway.Vfs.ReadOnly.{read_only}
use s3ftpgateway.GoPath.{clean, join_reversed, push_elements, push_element}
use s3ftpgateway.Session.Rename.{run_task-same_name}
use s3ftpgateway.Vfs.{path_error, op_open, not_exist}
use s3ftpgateway.MapFs.{any_below, create, open_file, filename, Store, map_fs}
use s3ftpgateway.Session.Account.{anonymous_authorizer, exec_user}
use s3ftpgateway.Session.Guard.{SameFiles, exec_command-SameFiles}
use s3ftpgateway.Session.Invariant.{IsSound, slash-IsCanonical, build_path-IsCanonical}
use s3ftpgateway.Session.Reached.{Reach-IsSound}
use s3ftpgateway.Session.Run.{
  exec_handler, execute, exec_command, new_conn, shutdown, line, start, next,
}
use s3ftpgateway.MapFs.Files.{map_fs-Keeps}
use s3ftpgateway.Session.Shutdown.{
  Tick, use_of_closed, conn_shutdown, conn_shutdown-idle, conn_shutdown-ne-nil,
}
use s3ftpgateway.Session.Stored.{settle, settle-stor_retr}
use s3ftpgateway.Session.Sample.{quiet, server}
use s3ftpgateway.Session.{
  handshake_panics, passive_panics, DataConn, dt_active, file_system, set_data_transfer,
  task_rename, Session, build_path,
}

abbrev after : Bytes → Session Store → Session Store
after text c = exec_command quiet server (parse_command text) c

abbrev named : Session Store
named = after (codes "USER ftp") (new_conn [])

named-open : named.shutting_down ≡ false
unfolding exec_command find_handler lookup beq codes parse_command trim_space to_upper exec_handler
    require_param require_auth execute exec_user
named-open = refl

-- Login, and an attempt to climb.
Reach-IsSound_example : IsSound (after (codes "PASS me") named)
Reach-IsSound_example = Reach-IsSound server (
    next (next (start []) (line quiet (codes "USER ftp") (new_conn []) refl))
      (line quiet (codes "PASS me") named named-open))

exec_command-SameFiles_example : SameFiles (new_conn []) (after (codes "STOR a") (new_conn []))
exec_command-SameFiles_example =
    exec_command-SameFiles quiet server (parse_command (codes "STOR a")) (new_conn []) refl

build_path-IsCanonical_example : IsCanonical (build_path (codes "/") (codes "../../etc"))
build_path-IsCanonical_example =
    build_path-IsCanonical (codes "/") (codes "../../etc") slash-IsCanonical

-- A login, as the authorizer grants it.
abbrev guest : Session Store
guest = record (new_conn []) {
  auth = some (record { user = codes "ftp"; file_system = some (read_only (some map_fs)) });
  pwd = codes "/";
}

-- PWD is none of the handlers that the theorems leave out.
not_pasv : find_handler (codes "PWD") ≢ some command_pasv
unfolding find_handler lookup beq codes
not_pasv e = ground arith

pool : quiet.new_passive ≢ err passive_panics
pool e = cc e

shakes : quiet.handshake ≢ handshake_panics
shakes e = cc e

exec_command-panicked_example :
    (exec_command quiet server (record { name = codes "PWD"; arg = [] }) guest).panicked ≡ false
exec_command-panicked_example =
    exec_command-panicked quiet server pool shakes (record { name = codes "PWD"; arg = [] }) guest
      refl (λ e. absurd (not_pasv e))

not_abor : find_handler (codes "PWD") ≢ some command_abor
unfolding find_handler lookup beq codes
not_abor e = ground arith

not_prot : find_handler (codes "PWD") ≢ some command_prot
unfolding find_handler lookup beq codes
not_prot e = ground arith

exec_command-IsAnswered_example :
    IsAnswered guest (exec_command quiet server (record { name = codes "PWD"; arg = [] }) guest)
exec_command-IsAnswered_example =
    exec_command-IsAnswered quiet server pool (record { name = codes "PWD"; arg = [] }) guest
      not_abor (λ e. absurd (not_prot e))

server_anonymous : server.authorizer ≡ some (anonymous_authorizer server)
unfolding anonymous_authorizer
server_anonymous = refl

Step-store_example : (after (codes "PASS me") named).store ≡ named.store
Step-store_example =
    Step-store server server_anonymous
      (next (start []) (line quiet (codes "USER ftp") (new_conn []) refl))
      (line quiet (codes "PASS me") named named-open)

exec_port-Connects_example :
    Connects quiet server guest (exec_port quiet server (codes "10,0,0,1,200,10") guest)
exec_port-Connects_example = exec_port-Connects quiet server (codes "10,0,0,1,200,10") guest

-- The anonymous server's connection, with one file.
abbrev one_file : Session Store
one_file = record guest { store = (97 ∷ [], 1 ∷ []) ∷ [] }

one_file-stored :
    create one_file.store (97 ∷ []) (record { content = 1 ∷ []; fails = false })
    ≡ (ok tt, one_file.store)
unfolding create filename lookup beq trim_prefix has_prefix clean join_reversed push_elements split
    push_element insert any_below
one_file-stored = refl

run_task-same_name_example :
    open_file
      (run_task quiet server (task_rename map_fs (97 ∷ []) (97 ∷ []) (1 ∷ [])) one_file).store
      (97 ∷ [])
    ≡ err (path_error op_open (filename (97 ∷ [])) not_exist)
run_task-same_name_example =
    run_task-same_name quiet server (97 ∷ []) (1 ∷ []) one_file one_file.store one_file-stored

-- A user of the files themselves, with a data connection on which "hi" comes.
abbrev hi : DataConn
hi = record { incoming = record { content = 104 ∷ 105 ∷ []; fails = false }; writable = true }

abbrev writer : Session Store
writer = record (new_conn []) {
  auth = some (record { user = 97 ∷ []; file_system = none });
  dt = dt_active hi;
}

hi-stored : map_fs.create [] (97 ∷ []) hi.incoming ≡ (ok tt, (97 ∷ [], 104 ∷ 105 ∷ []) ∷ [])
unfolding map_fs create filename lookup beq trim_prefix has_prefix clean join_reversed push_elements
    split push_element insert any_below
hi-stored = refl

writer-files : file_system server writer ≡ some map_fs
unfolding file_system
writer-files = refl

settle-stor_retr_example :
    let stored = settle quiet server (exec_stor quiet server (97 ∷ []) writer) in
    let c' =
      settle quiet server
        (exec_retr quiet server (97 ∷ []) (set_data_transfer (dt_active hi) stored)) in
    (c'.outgoing ≡ (104 ∷ 105 ∷ []) ∷ []) × (c'.store ≡ (97 ∷ [], 104 ∷ 105 ∷ []) ∷ [])
settle-stor_retr_example =
    settle-stor_retr server map_fs map_fs-Keeps quiet quiet (97 ∷ []) writer hi hi (dt_active hi)
      ((97 ∷ [], 104 ∷ 105 ∷ []) ∷ []) writer-files refl refl hi-stored refl

-- A round in which nothing else happens.
abbrev idle : Tick Store
idle = record { executing = false; close_fails = false; done = false; meanwhile = λ c. c }

abbrev shut : Session Store
shut = shutdown false (shutdown false (new_conn []))

idle-shut : conn_shutdown idle (idle ∷ []) (new_conn []) ≡ some (some use_of_closed, shut)
idle-shut = conn_shutdown-idle idle idle [] (new_conn []) refl refl refl refl refl (λ c. refl)

conn_shutdown-ne-nil_example : (some use_of_closed ≢ none) × (shut.shutting_down ≡ true)
conn_shutdown-ne-nil_example =
    conn_shutdown-ne-nil idle (idle ∷ []) (new_conn []) shut (some use_of_closed) idle-shut
