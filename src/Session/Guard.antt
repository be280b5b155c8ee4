-- ===== src/Session/Guard.antt =====
-- Clients that are not logged in: the guard of `execCommand` in ftp/conn.go.
use s3ftpgateway.Base.{◌≡◌, false, Option, none, some, Bytes, arith}
use s3ftpgateway.Command.{Command, Handler, find_handler, require_auth}
use s3ftpgateway.Session.{Env, Server, Session}
use s3ftpgateway.Session.Account.{
  exec_noop, exec_pass, exec_quit, exec_user, exec_auth, exec_pbsz, exec_prot, exec_feat, exec_opts,
  exec_lang, exec_reject,
}
use s3ftpgateway.Session.Run.{execute, exec_handler, dispatch, exec_command}

-- What only a logged-in client may change.
pub record SameFiles {S : Type 0} (c c' : Session S) : Type 0 where
  pub same_store : c'.store ≡ c.store
  pub same_tasks : c'.tasks ≡ c.tasks
  pub same_outgoing : c'.outgoing ≡ c.outgoing
  pub same_dt : c'.dt ≡ c.dt
  pub same_rename : c'.rmfr_reader ≡ c.rmfr_reader
  pub same_rename_name : c'.rmfr ≡ c.rmfr

module _ {S : Type 0} (env : Env) (srv : Server S) where
  -- Only handlers that require a login touch files or transfers.
  execute-SameFiles :
      (h : Handler) (arg : Bytes) (c : Session S)
      → require_auth h ≡ false
      → SameFiles c (execute env srv h arg c)
  unfolding execute require_auth exec_noop exec_pass exec_quit exec_user exec_auth exec_pbsz
      exec_prot exec_feat exec_opts exec_lang exec_reject
  execute-SameFiles _ arg c e = ground arith

  exec_handler-SameFiles :
      (h : Handler) (arg : Bytes) (c : Session S)
      → c.auth ≡ none
      → SameFiles c (exec_handler env srv h arg c)
  unfolding exec_handler
  exec_handler-SameFiles h arg c e = ground (arith, execute-SameFiles h arg c)

  dispatch-SameFiles :
      (h : Option Handler) (arg : Bytes) (c : Session S)
      → c.auth ≡ none
      → SameFiles c (dispatch env srv h arg c)
  dispatch-SameFiles none arg c e = ground arith
  dispatch-SameFiles (some h) arg c e = exec_handler-SameFiles h arg c e

  -- Whatever command a client sends that is not logged in: the files, the goroutines, the data
  -- sent, the data transfer and the pending rename stay as they are.
  pub exec_command-SameFiles :
      (cmd : Command) (c : Session S) → c.auth ≡ none → SameFiles c (exec_command env srv cmd c)
  unfolding exec_command
  exec_command-SameFiles cmd c e = dispatch-SameFiles (find_handler cmd.name) cmd.arg c e
