-- ===== src/Session/Transfer.antt =====
-- ftp/command.go: the handlers that move data, up to the start of their goroutine, and the tasks
-- that the goroutines then carry out: APPE, LIST, MLSD, NLST, RETR, STOR, STOU.
use s3ftpgateway.Base.{
  ℕ, Bool, false, ◌||◌, none, some, List, [], ◌∷◌, ◌++◌, map, ◌==◌, if◌then◌else◌, length, Bytes,
  codes, ok, err,
}
use s3ftpgateway.Session.{
  DataConn, Env, Server, Session, Task, task_retr, task_store, task_list, task_rename, build_path,
  is_not_exist, is_permission, reply, with_fs, close_data_transfer, handle_file_error, data_conn,
  add_task,
}
use s3ftpgateway.Session.File.{is_blank, format_file_info, format_machine_listings, user_name}
use s3ftpgateway.Status.{
  status_about_to_send, status_closing_data_connection, status_requested_file_action_ok,
  status_transfert_aborted, status_action_aborted, status_need_some_unavailable_resource,
  status_bad_command, status_file_unavailable, status_bad_file_name,
}
use s3ftpgateway.Text.{decimal}
use s3ftpgateway.Vfs.{VfsError, FileInfo}

-- Every line with its end.
abbrev lines : List Bytes → Bytes
lines [] = []
lines (l ∷ ls) = l ++ (codes "\r\n" ++ lines ls)

abbrev names : List FileInfo → List Bytes
names [] = []
names (i ∷ is) = i.name ∷ names is

-- A LIST argument that is an option.
abbrev is_option : Bytes → Bool
is_option [] = false
is_option (b ∷ bs) = b == b'-'

module _ {S : Type 0} (env : Env) (srv : Server S) where
  abbrev aborted : Session S → Session S
  aborted = reply status_transfert_aborted (codes "Requested file action aborted.")

  -- `c.dt.Conn`, and a task on the connection; with no connection the transfer stays as it is.
  abbrev start : (DataConn → Task S) → (Session S → Session S) → Session S → Session S
  start task fail c = elim (data_conn env c.dt) [
    | none ↦ fail c
    | some (conn, dt') ↦ add_task (task conn) (record c { dt = dt' })
  ]

  abbrev about_to_list : Session S → Session S
  about_to_list =
      reply status_about_to_send (codes "File status okay; about to open data connection.")

  -- LIST and NLST, after `ReadDir`.
  abbrev listing_error : VfsError → Session S → Session S
  listing_error e c =
      if is_not_exist e
      then reply status_need_some_unavailable_resource (codes "No such directory.") c
      else reply status_bad_command (codes "Internal error.") c

  unfoldable pub exec_list : Bytes → Session S → Session S
  exec_list arg c =
      let path = if is_blank arg || is_option arg then c.pwd else build_path c.pwd arg in
      with_fs srv c λ fs. elim (fs.read_dir c.store path) [
        | err e ↦ listing_error e c
        | ok info ↦
            let payload = lines (map (format_file_info env (user_name env srv c)) info) in
            start (task_list payload (length payload)) aborted (about_to_list c)
      ]

  unfoldable pub exec_nlst : Bytes → Session S → Session S
  exec_nlst arg c =
      let path = if is_blank arg then c.pwd else build_path c.pwd arg in
      with_fs srv c λ fs. elim (fs.read_dir c.store path) [
        | err e ↦ listing_error e c
        | ok info ↦
            let payload = lines (names info) in
            start (task_list payload (length payload)) aborted (about_to_list c)
      ]

  -- `fmt.Print(w, …)` prints on the standard output, so nothing goes over the connection.
  unfoldable pub exec_mlsd : Bytes → Session S → Session S
  exec_mlsd arg c =
      let path = if is_blank arg then c.pwd else build_path c.pwd arg in
      with_fs srv c λ fs. elim (fs.read_dir c.store path) [
        | err e ↦ handle_file_error e c
        | ok info ↦
            start (task_list [] (env.printed (map (format_machine_listings env) info))) aborted
              (about_to_list c)
      ]

  -- The name is the argument as it was sent.
  unfoldable pub exec_retr : Bytes → Session S → Session S
  exec_retr arg c =
      let refused = reply status_bad_file_name (codes "Requested action not taken.") in
      with_fs srv c λ fs. elim (fs.open_file c.store arg) [
        | err e ↦ refused c
        | ok content ↦ start (task_retr content) refused (about_to_list c)
      ]

  -- The name is the argument as it was sent. The file system is asked for by the goroutine.
  unfoldable pub exec_stor : Bytes → Session S → Session S
  exec_stor arg c =
      start (λ conn. task_store arg [] conn (codes ".")) aborted
        (reply status_about_to_send (codes "Data transfer starting") c)

  unfoldable pub exec_stou : Session S → Session S
  exec_stou c = elim env.unique_name [
    | none ↦ reply status_bad_command (codes "Internal error.") c
    | some unique ↦
        let name = build_path c.pwd unique in
        start (λ conn. task_store name [] conn (codes ". unique file name: " ++ name)) aborted
          (reply status_about_to_send (codes "Data transfer starting: " ++ name) c)
  ]

  abbrev append_to : Bytes → Bytes → Session S → Session S
  append_to name old c =
      start (λ conn. task_store name old conn (codes ".")) aborted
        (reply status_about_to_send (codes "Data transfer starting") c)

  unfoldable pub exec_appe : Bytes → Session S → Session S
  exec_appe arg c =
      let name = build_path c.pwd arg in
      with_fs srv c λ fs. elim (fs.open_file c.store name) [
        | ok old ↦ append_to name old c
        | err e ↦
            if is_not_exist e
            then append_to name [] c
            else if is_permission e
            then reply status_file_unavailable (codes "Permission is denied.") c
            else reply status_bad_command (codes "Internal error.") c
      ]

  abbrev transferred : ℕ → Session S → Session S
  transferred n =
      reply status_closing_data_connection
        (codes "Data transfer starting " ++ (decimal n ++ codes " bytes"))

  abbrev action_aborted : Session S → Session S
  action_aborted = reply status_action_aborted (codes "Requested file action aborted.")

  -- What goes out over the connection, if the client takes it.
  abbrev send : Bytes → ℕ → DataConn → Session S → Session S
  send payload n conn c = close_data_transfer (
      if conn.writable
      then transferred n (record c { outgoing = c.outgoing ++ payload ∷ [] })
      else action_aborted c)

  -- The goroutine of a transfer, or of RNTO, from where its handler returned.
  unfoldable pub run_task : Task S → Session S → Session S
  run_task (task_retr content conn) c = send content (length content) conn c
  run_task (task_list payload n conn) c = send payload n conn c
  run_task (task_store name old conn message) c = close_data_transfer (
      with_fs srv c λ fs.
        let received = conn.incoming.content in
        let (res, store') =
          fs.create c.store name
            (record { content = old ++ received; fails = conn.incoming.fails }) in
        let c' = record c { store = store' } in
        elim res [
          | err e ↦ action_aborted c'
          | ok u ↦
              reply status_closing_data_connection
                (codes "OK, received "
                  ++ (decimal (length received) ++ (codes " bytes" ++ message)))
                c'
        ])
  run_task (task_rename fs from to content) c =
      let (res, created) = fs.create c.store to (record { content = content; fails = false }) in
      elim res [
        | err e ↦ reply status_bad_command (codes "Internal error.") (record c { store = created })
        | ok u ↦
            reply status_requested_file_action_ok (codes "Requested file action okay, completed.")
              (record c { store = (fs.remove created from).1 })
      ]
