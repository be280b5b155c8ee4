-- ===== src/Session/Guests.antt =====
-- Servers for anonymous users: ftp/authorizer.go behind the handlers of ftp/command.go.
use s3ftpgateway.Base.{◌≡◌, false, ◌&&◌, not, Option, none, some, List, [], ◌∷◌, ◌++◌, Bytes, arith}
use s3ftpgateway.Command.{
  parse_command, Command, Handler, find_handler, require_auth, command_appe, command_dele,
  command_list, command_mkd, command_nlst, command_retr, command_rmd, command_rnto, command_stor,
  command_stou, command_mlsd,
}
use s3ftpgateway.Session.Account.{
  authorizer, anonymous_authorizer, exec_abor, exec_acct, exec_allo, exec_help, exec_noop,
  exec_mode, exec_pass, exec_quit, exec_stru, exec_syst, exec_type, exec_user, exec_auth, exec_pbsz,
  exec_prot, exec_feat, exec_opts, exec_lang, exec_reject,
}
use s3ftpgateway.Session.Connect.{exec_port, exec_eprt, exec_epsv, exec_pasv}
use s3ftpgateway.Session.File.{
  exec_cdup, exec_cwd, exec_dele, exec_rmd, exec_mkd, exec_pwd, exec_rnfr, exec_rnto, exec_stat,
  exec_mdtm, exec_size, exec_mlst,
}
use s3ftpgateway.Session.Transfer.{
  run_task, exec_list, exec_nlst, exec_mlsd, exec_retr, exec_stor, exec_stou, exec_appe,
}
use s3ftpgateway.Session.Run.{
  Step, line, late_line, shut, closing, finish, Reach, start, next, is_some, execute, exec_handler,
  dispatch, exec_command,
}
use s3ftpgateway.Session.{
  task_store, task_list, task_retr, task_rename, file_system, Env, Server, Session, Authorization,
  Task,
}
use s3ftpgateway.Vfs.{FileSystem}
use s3ftpgateway.Vfs.ReadOnly.{read_only, read_only-create, read_only-mkdir, read_only-remove}

module _ {S : Type 0} (srv : Server S) where
  abbrev files : FileSystem S
  files = read_only srv.file_system

  -- Whoever is logged in has the read-only files.
  abbrev pub IsGuest : Option (Authorization S) → Type 0
  IsGuest none = Unit
  IsGuest (some a) = a.file_system ≡ some files

  abbrev pub IsIdle : Task S → Type 0
  IsIdle (task_rename fs from to content) = fs ≡ files
  IsIdle _ = Unit

  abbrev pub AllAreIdle : List (Task S) → Type 0
  AllAreIdle [] = Unit
  AllAreIdle (t ∷ ts) = IsIdle t × AllAreIdle ts

  AllAreIdle-append :
      (ts us : List (Task S)) → AllAreIdle ts → AllAreIdle us → AllAreIdle (ts ++ us)
  AllAreIdle-append [] us h k = k
  AllAreIdle-append (t ∷ ts) us h k = (h.0, AllAreIdle-append ts us h.1 k)

  AllAreIdle-split :
      (before later : List (Task S)) (t : Task S)
      → AllAreIdle (before ++ t ∷ later)
      → AllAreIdle (before ++ later) × IsIdle t
  AllAreIdle-split [] later t h = (h.1, h.0)
  AllAreIdle-split (u ∷ before) later t h =
      let rest = AllAreIdle-split before later t h.1 in ((h.0, rest.0), rest.1)

  pub record IsReadOnly (c : Session S) : Type 0 where
    pub guest : IsGuest c.auth
    pub idle : AllAreIdle c.tasks

  record KeepsFiles (c c' : Session S) : Type 0 where
    same : c'.store ≡ c.store
    guest : IsGuest c'.auth
    idle : AllAreIdle c'.tasks

module _ {S : Type 0} (env : Env) (srv : Server S)
    (anonymous : srv.authorizer ≡ some (anonymous_authorizer srv)) where
  execute-KeepsFiles :
      (h : Handler) (arg : Bytes) (c : Session S)
      → (require_auth h && not (is_some c.auth)) ≡ false
      → IsReadOnly srv c
      → KeepsFiles srv c (execute env srv h arg c)
  unfolding execute authorizer anonymous_authorizer file_system require_auth exec_abor exec_acct
      exec_allo exec_appe exec_cdup exec_cwd exec_dele exec_help exec_list exec_mkd exec_nlst
      exec_noop exec_mode exec_pass exec_pasv exec_port exec_pwd exec_quit exec_retr exec_rmd
      exec_rnfr exec_rnto exec_stat exec_stor exec_stou exec_stru exec_syst exec_type exec_user
      exec_auth exec_pbsz exec_prot exec_feat exec_opts exec_eprt exec_epsv exec_lang exec_mdtm
      exec_mlsd exec_mlst exec_size exec_reject
  execute-KeepsFiles command_appe arg c a v = grind (arith, AllAreIdle-append)
  execute-KeepsFiles command_list arg c a v = grind (arith, AllAreIdle-append)
  execute-KeepsFiles command_nlst arg c a v = grind (arith, AllAreIdle-append)
  execute-KeepsFiles command_mlsd arg c a v = grind (arith, AllAreIdle-append)
  execute-KeepsFiles command_retr arg c a v = grind (arith, AllAreIdle-append)
  execute-KeepsFiles command_stor arg c a v = grind (arith, AllAreIdle-append)
  execute-KeepsFiles command_stou arg c a v = grind (arith, AllAreIdle-append)
  execute-KeepsFiles command_rnto arg c a v = grind (arith, AllAreIdle-append)
  execute-KeepsFiles command_mkd arg c a v = grind (arith, read_only-mkdir)
  execute-KeepsFiles command_dele arg c a v = grind (arith, read_only-remove)
  execute-KeepsFiles command_rmd arg c a v = grind (arith, read_only-remove)
  execute-KeepsFiles _ arg c a v = ground arith

  exec_handler-KeepsFiles :
      (h : Handler) (arg : Bytes) (c : Session S)
      → IsReadOnly srv c
      → KeepsFiles srv c (exec_handler env srv h arg c)
  unfolding exec_handler
  exec_handler-KeepsFiles h arg c v = ground (arith, execute-KeepsFiles h arg c)

  dispatch-KeepsFiles :
      (h : Option Handler) (arg : Bytes) (c : Session S)
      → IsReadOnly srv c
      → KeepsFiles srv c (dispatch env srv h arg c)
  dispatch-KeepsFiles none arg c v = ground arith
  dispatch-KeepsFiles (some h) arg c v = exec_handler-KeepsFiles h arg c v

  exec_command-KeepsFiles :
      (cmd : Command) (c : Session S)
      → IsReadOnly srv c
      → KeepsFiles srv c (exec_command env srv cmd c)
  unfolding exec_command
  exec_command-KeepsFiles cmd c v = dispatch-KeepsFiles (find_handler cmd.name) cmd.arg c v

  run_task-KeepsFiles :
      (t : Task S) (c : Session S)
      → IsIdle srv t
      → IsReadOnly srv c
      → KeepsFiles srv c (run_task env srv t c)
  unfolding run_task file_system
  run_task-KeepsFiles (task_retr content conn) c i v = grind arith
  run_task-KeepsFiles (task_list payload n conn) c i v = grind arith
  run_task-KeepsFiles (task_store name old conn message) c i v = grind (arith, read_only-create)
  run_task-KeepsFiles (task_rename fs from to content) c i v = grind (arith, read_only-create)

module _ {S : Type 0} (srv : Server S)
    (anonymous : srv.authorizer ≡ some (anonymous_authorizer srv)) where
  Step-KeepsFiles : {c c' : Session S} → Step srv c c' → IsReadOnly srv c → KeepsFiles srv c c'
  Step-KeepsFiles (line env text c e) v =
      exec_command-KeepsFiles env srv anonymous (parse_command text) c v
  Step-KeepsFiles (late_line c e) v = ground arith
  Step-KeepsFiles (shut executing c) v = ground arith
  Step-KeepsFiles (closing c) v = ground arith
  Step-KeepsFiles (finish env c before later t e) v =
      let all : AllAreIdle srv (before ++ t ∷ later) = ground (arith, v.idle, e) in
      let split = AllAreIdle-split srv before later t all in
      let rest : IsReadOnly srv (record c { tasks = before ++ later }) = record {
        guest = v.guest;
        idle = split.0;
      } in
      let kept =
        run_task-KeepsFiles env srv anonymous t (record c { tasks = before ++ later }) split.1
          rest in
      record { same = kept.same; guest = kept.guest; idle = kept.idle }

  Reach-IsReadOnly : {c : Session S} → Reach srv c → IsReadOnly srv c
  Reach-IsReadOnly (start store) = ground arith
  Reach-IsReadOnly (next r s) =
      let kept = Step-KeepsFiles s (Reach-IsReadOnly r) in
      record { guest = kept.guest; idle = kept.idle }

  -- On a server with the anonymous authorizer, no step of a connection in a reachable state
  -- changes a file: no command, and no goroutine that ends.
  pub Step-store : {c c' : Session S} → Reach srv c → Step srv c c' → c'.store ≡ c.store
  Step-store r s = (Step-KeepsFiles s (Reach-IsReadOnly r)).same
