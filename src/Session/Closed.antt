-- ===== src/Session/Closed.antt =====
-- A connection that is closed stays closed: the handlers of ftp/command.go.
use s3ftpgateway.Base.{true, ◌≡◌, ◌&&◌, not, Option, none, some, Bytes, arith, Bool-cases, inl, inr}
use s3ftpgateway.Command.{Command, Handler, find_handler, require_auth, require_param}
use s3ftpgateway.Session.Account.{
  exec_abor, exec_acct, exec_allo, exec_help, exec_noop, exec_mode, exec_pass, exec_quit, exec_stru,
  exec_syst, exec_type, exec_user, exec_auth, exec_pbsz, exec_prot, exec_feat, exec_opts, exec_lang,
  exec_reject,
}
use s3ftpgateway.Session.Connect.{exec_port, exec_eprt, exec_epsv, exec_pasv}
use s3ftpgateway.Session.File.{
  is_blank, exec_cdup, exec_cwd, exec_dele, exec_rmd, exec_mkd, exec_pwd, exec_rnfr, exec_rnto,
  exec_stat, exec_mdtm, exec_size, exec_mlst,
}
use s3ftpgateway.Session.Transfer.{
  exec_list, exec_nlst, exec_mlsd, exec_retr, exec_stor, exec_stou, exec_appe,
}
use s3ftpgateway.Session.Run.{is_some, execute, exec_handler, dispatch, exec_command}
use s3ftpgateway.Session.{file_system, Env, Server, Session}

module _ {S : Type 0} (env : Env) (srv : Server S) where
  execute-closed :
      (h : Handler) (arg : Bytes) (c : Session S)
      → c.closed ≡ true
      → (execute env srv h arg c).closed ≡ true
  unfolding execute file_system require_auth require_param exec_abor exec_acct exec_allo exec_appe
      exec_cdup exec_cwd exec_dele exec_help exec_list exec_mkd exec_nlst exec_noop exec_mode
      exec_pass exec_pasv exec_port exec_pwd exec_quit exec_retr exec_rmd exec_rnfr exec_rnto
      exec_stat exec_stor exec_stou exec_stru exec_syst exec_type exec_user exec_auth exec_pbsz
      exec_prot exec_feat exec_opts exec_eprt exec_epsv exec_lang exec_mdtm exec_mlsd exec_mlst
      exec_size exec_reject
  execute-closed _ arg c k = ground arith

  exec_handler-closed :
      (h : Handler) (arg : Bytes) (c : Session S)
      → c.closed ≡ true
      → (exec_handler env srv h arg c).closed ≡ true
  unfolding exec_handler
  exec_handler-closed h arg c k = elim (Bool-cases (require_param h && is_blank arg)) [
    | inl blank ↦ rw blank k
    | inr given ↦ elim (Bool-cases (require_auth h && not (is_some c.auth))) [
      | inl refused ↦ rw (given, refused) k
      | inr allowed ↦ rw (given, allowed) (execute-closed h arg c k)
    ]
  ]

  -- No command opens the connection again.
  pub exec_command-closed :
      (cmd : Command) (c : Session S) → c.closed ≡ true → (exec_command env srv cmd c).closed ≡ true
  unfolding exec_command
  exec_command-closed cmd c k = go (find_handler cmd.name)
    where
      go : (h : Option Handler) → (dispatch env srv h cmd.arg c).closed ≡ true
      go none = k
      go (some h) = exec_handler-closed h cmd.arg c k
