-- ===== src/Session/Extends.antt =====
-- Replies are only ever added: the handlers of ftp/command.go and the goroutines that they start.
use s3ftpgateway.Base.{
  take, take-length, take-length-append, take-length-append_twice, length, ◌≡◌, ◌&&◌, not, Option,
  none, some, Bytes, arith, Bool-cases, inl, inr,
}
use s3ftpgateway.Command.{Command, Handler, find_handler, require_auth, require_param}
use s3ftpgateway.Session.Account.{
  exec_abor, exec_acct, exec_allo, exec_help, exec_noop, exec_mode, exec_pass, exec_quit, exec_stru,
  exec_syst, exec_type, exec_user, exec_auth, exec_pbsz, exec_prot, exec_feat, exec_opts, exec_lang,
  exec_reject,
}
use s3ftpgateway.Session.Connect.{exec_port, exec_eprt, exec_epsv, exec_pasv}
use s3ftpgateway.Session.File.{
  is_blank, exec_cdup, exec_cwd, exec_dele, exec_rmd, exec_mkd, exec_pwd, exec_rnfr, exec_rnto,
  exec_stat, exec_mdtm, exec_size, exec_mlst,
}
use s3ftpgateway.Session.Transfer.{
  exec_list, exec_nlst, exec_mlsd, exec_retr, exec_stor, exec_stou, exec_appe,
}
use s3ftpgateway.Session.Run.{is_some, execute, exec_handler, dispatch, exec_command}
use s3ftpgateway.Session.{file_system, Env, Server, Session}

-- The replies of the one are the first replies of the other.
abbrev pub Extends : {S : Type 0} → Session S → Session S → Type 0
Extends c c' = take (length c.replies) c'.replies ≡ c.replies

module _ {S : Type 0} (env : Env) (srv : Server S) where
  execute-Extends :
      (h : Handler) (arg : Bytes) (c : Session S) → Extends c (execute env srv h arg c)
  unfolding execute file_system require_auth require_param exec_abor exec_acct exec_allo exec_appe
      exec_cdup exec_cwd exec_dele exec_help exec_list exec_mkd exec_nlst exec_noop exec_mode
      exec_pass exec_pasv exec_port exec_pwd exec_quit exec_retr exec_rmd exec_rnfr exec_rnto
      exec_stat exec_stor exec_stou exec_stru exec_syst exec_type exec_user exec_auth exec_pbsz
      exec_prot exec_feat exec_opts exec_eprt exec_epsv exec_lang exec_mdtm exec_mlsd exec_mlst
      exec_size exec_reject
  execute-Extends _ arg c = grind (arith, take-length, take-length-append, take-length-append_twice)

  exec_handler-Extends :
      (h : Handler) (arg : Bytes) (c : Session S) → Extends c (exec_handler env srv h arg c)
  unfolding exec_handler
  exec_handler-Extends h arg c = elim (Bool-cases (require_param h && is_blank arg)) [
    | inl blank ↦ rw blank (grind (arith, take-length-append))
    | inr given ↦ elim (Bool-cases (require_auth h && not (is_some c.auth))) [
      | inl refused ↦ rw (given, refused) (grind (arith, take-length-append))
      | inr allowed ↦ rw (given, allowed) (execute-Extends h arg c)
    ]
  ]

  -- No command takes a reply back.
  pub exec_command-Extends :
      (cmd : Command) (c : Session S) → Extends c (exec_command env srv cmd c)
  unfolding exec_command
  exec_command-Extends cmd c = go (find_handler cmd.name)
    where
      go : (h : Option Handler) → Extends c (dispatch env srv h cmd.arg c)
      go none = grind (arith, take-length-append)
      go (some h) = exec_handler-Extends h cmd.arg c
