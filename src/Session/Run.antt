-- ===== src/Session/Run.antt =====
-- ftp/conn.go: `execCommand` and the loop of `serve`.
use s3ftpgateway.Base.{
  Bool, true, false, ◌&&◌, not, Option, none, some, List, [], ◌∷◌, ◌++◌, ◌≡◌, if◌then◌else◌, Bytes,
  codes,
}
use s3ftpgateway.Command.{
  Command, parse_command, Handler, require_param, require_auth, find_handler, command_abor,
  command_acct, command_allo, command_appe, command_cdup, command_cwd, command_dele, command_help,
  command_list, command_mkd, command_nlst, command_noop, command_mode, command_pass, command_pasv,
  command_port, command_pwd, command_quit, command_retr, command_rmd, command_rnfr, command_rnto,
  command_stat, command_stor, command_stou, command_stru, command_syst, command_type, command_user,
  command_auth, command_pbsz, command_prot, command_feat, command_opts, command_eprt, command_epsv,
  command_lang, command_mdtm, command_mlsd, command_mlst, command_size, command_reject,
}
use s3ftpgateway.Session.{
  Env, Server, Session, Task, DataTransfer, dt_empty, level_unset, reply, close_data_transfer,
}
use s3ftpgateway.Session.Account.{
  exec_abor, exec_acct, exec_allo, exec_help, exec_noop, exec_mode, exec_pass, exec_quit, exec_stru,
  exec_syst, exec_type, exec_user, exec_auth, exec_pbsz, exec_prot, exec_feat, exec_opts, exec_lang,
  exec_reject,
}
use s3ftpgateway.Session.Connect.{exec_port, exec_eprt, exec_epsv, exec_pasv}
use s3ftpgateway.Session.File.{
  is_blank, exec_cdup, exec_cwd, exec_dele, exec_rmd, exec_mkd, exec_pwd, exec_rnfr, exec_rnto,
  exec_stat, exec_mdtm, exec_size, exec_mlst,
}
use s3ftpgateway.Session.Transfer.{
  exec_list, exec_nlst, exec_mlsd, exec_retr, exec_stor, exec_stou, exec_appe, run_task,
}
use s3ftpgateway.Status.{
  status_ready, status_not_available, status_bad_command, status_bad_arguments,
  status_not_logged_in,
}

abbrev pub is_some {ℓ} : {A : Type ℓ} → Option A → Bool
is_some none = false
is_some (some a) = true

abbrev pub is_empty_transfer : DataTransfer → Bool
is_empty_transfer dt_empty = true
is_empty_transfer _ = false

module _ {S : Type 0} (env : Env) (srv : Server S) where
  -- `command.Execute`
  unfoldable pub execute : Handler → Bytes → Session S → Session S
  execute command_abor arg = exec_abor env srv
  execute command_acct arg = exec_acct env srv
  execute command_allo arg = exec_allo env srv
  execute command_appe arg = exec_appe env srv arg
  execute command_cdup arg = exec_cdup env srv
  execute command_cwd arg = exec_cwd env srv arg
  execute command_dele arg = exec_dele env srv arg
  execute command_help arg = exec_help env srv arg
  execute command_list arg = exec_list env srv arg
  execute command_mkd arg = exec_mkd env srv arg
  execute command_nlst arg = exec_nlst env srv arg
  execute command_noop arg = exec_noop env srv
  execute command_mode arg = exec_mode env srv arg
  execute command_pass arg = exec_pass env srv arg
  execute command_pasv arg = exec_pasv env srv
  execute command_port arg = exec_port env srv arg
  execute command_pwd arg = exec_pwd env srv
  execute command_quit arg = exec_quit env srv
  execute command_retr arg = exec_retr env srv arg
  execute command_rmd arg = exec_rmd env srv arg
  execute command_rnfr arg = exec_rnfr env srv arg
  execute command_rnto arg = exec_rnto env srv arg
  execute command_stat arg = exec_stat env srv arg
  execute command_stor arg = exec_stor env srv arg
  execute command_stou arg = exec_stou env srv
  execute command_stru arg = exec_stru env srv arg
  execute command_syst arg = exec_syst env srv
  execute command_type arg = exec_type env srv arg
  execute command_user arg = exec_user env srv arg
  execute command_auth arg = exec_auth env srv arg
  execute command_pbsz arg = exec_pbsz env srv arg
  execute command_prot arg = exec_prot env srv arg
  execute command_feat arg = exec_feat env srv
  execute command_opts arg = exec_opts env srv arg
  execute command_eprt arg = exec_eprt env srv arg
  execute command_epsv arg = exec_epsv env srv arg
  execute command_lang arg = exec_lang env srv arg
  execute command_mdtm arg = exec_mdtm env srv arg
  execute command_mlsd arg = exec_mlsd env srv arg
  execute command_mlst arg = exec_mlst env srv arg
  execute command_size arg = exec_size env srv arg
  execute command_reject arg = exec_reject env srv

  -- A handler whose requirements are checked.
  unfoldable pub exec_handler : Handler → Bytes → Session S → Session S
  exec_handler h arg c =
      if require_param h && is_blank arg
      then reply status_bad_arguments (codes "Action aborted, required param missing.") c
      else if require_auth h && not (is_some c.auth)
      then reply status_not_logged_in (codes "Not logged in") c
      else execute h arg c

  abbrev pub dispatch : Option Handler → Bytes → Session S → Session S
  dispatch none arg c = reply status_bad_command (codes "Command not found.") c
  dispatch (some h) arg c = exec_handler h arg c

  -- `execCommand`
  unfoldable pub exec_command : Command → Session S → Session S
  exec_command cmd c = dispatch (find_handler cmd.name) cmd.arg c

module _ {S : Type 0} where
  -- `newConn`, and the greeting of `serve`.
  abbrev pub new_conn : S → Session S
  new_conn store = record {
    user = [];
    auth = none;
    fail_cnt = 0;
    pwd = [];
    tls = false;
    prot = level_unset;
    rmfr = [];
    rmfr_reader = none;
    dt = dt_empty;
    epsv_all = false;
    shutting_down = false;
    closed = false;
    panicked = false;
    store = store;
    tasks = [];
    replies = (status_ready, codes "Service ready" ∷ []) ∷ [];
    outgoing = [];
  }

  -- `ServerConn.shutdown`, which the server calls at any time; the flag is `executing`.
  abbrev pub shutdown : Bool → Session S → Session S
  shutdown executing c = record c {
    shutting_down = true;
    closed = if is_empty_transfer c.dt && not executing then true else c.closed;
  }

  -- `ServerConn.close`
  abbrev pub close : Session S → Session S
  close c = record (close_data_transfer (record c { shutting_down = true })) { closed = true }

-- What can happen to a connection: the loop of `serve` takes a line, the server shuts down or closes,
-- and a goroutine finishes. A line that arrives during a shutdown is not executed.
pub data Step {S : Type 0} (srv : Server S) : Session S → Session S → Type 0 where
  line :
      (env : Env) (text : Bytes) (c : Session S)
      → c.shutting_down ≡ false
      → Step srv c (exec_command env srv (parse_command text) c)
  late_line :
      (c : Session S)
      → c.shutting_down ≡ true
      → Step srv c (
          reply status_not_available (codes "Service not available, closing control connection.") c)
  shut : (executing : Bool) (c : Session S) → Step srv c (shutdown executing c)
  closing : (c : Session S) → Step srv c (close c)
  finish :
      (env : Env) (c : Session S) (before later : List (Task S)) (t : Task S)
      → c.tasks ≡ before ++ t ∷ later
      → Step srv c (run_task env srv t (record c { tasks = before ++ later }))

-- The states that a connection can reach.
pub data Reach {S : Type 0} (srv : Server S) : Session S → Type 0 where
  start : (store : S) → Reach srv (new_conn store)
  next : {c c' : Session S} → Reach srv c → Step srv c c' → Reach srv c'
