-- ===== src/Session/Panics.antt =====
-- Nil dereferences and indices in the handlers of ftp/command.go.
use s3ftpgateway.Base.{
  ap, ◌≡◌, ◌≢◌, refl, false, ◌&&◌, not, Option, none, some, [], ◌∷◌, Bytes, arith, Bool-cases, inl,
  inr, err,
}
use s3ftpgateway.Command.{
  Command, Handler, find_handler, require_auth, require_param, command_auth, command_pasv,
  command_eprt, command_epsv,
}
use s3ftpgateway.Session.Account.{
  exec_abor, exec_acct, exec_allo, exec_help, exec_noop, exec_mode, exec_pass, exec_quit, exec_stru,
  exec_syst, exec_type, exec_user, exec_auth, exec_pbsz, exec_prot, exec_feat, exec_opts, exec_lang,
  exec_reject,
}
use s3ftpgateway.Session.Connect.{public_ipv4, exec_port, exec_eprt, exec_epsv, exec_pasv}
use s3ftpgateway.Session.File.{
  is_blank, exec_cdup, exec_cwd, exec_dele, exec_rmd, exec_mkd, exec_pwd, exec_rnfr, exec_rnto,
  exec_stat, exec_mdtm, exec_size, exec_mlst,
}
use s3ftpgateway.Session.Transfer.{
  exec_list, exec_nlst, exec_mlsd, exec_retr, exec_stor, exec_stou, exec_appe,
}
use s3ftpgateway.Session.Run.{is_some, execute, exec_handler, dispatch, exec_command}
use s3ftpgateway.Session.{file_system, Env, Server, Session, passive_panics, handshake_panics}

module _ {S : Type 0} (env : Env) (srv : Server S) (pool : env.new_passive ≢ err passive_panics)
    (shakes : env.handshake ≢ handshake_panics) where
  execute-panicked :
      (h : Handler) (arg : Bytes) (c : Session S)
      → c.panicked ≡ false
      → (require_auth h && not (is_some c.auth)) ≡ false
      → (require_param h && is_blank arg) ≡ false
      → (h ≡ command_pasv → public_ipv4 env srv ≢ none)
      → (execute env srv h arg c).panicked ≡ false
  unfolding execute file_system require_auth require_param exec_abor exec_acct exec_allo exec_appe
      exec_cdup exec_cwd exec_dele exec_help exec_list exec_mkd exec_nlst exec_noop exec_mode
      exec_pass exec_pasv exec_port exec_pwd exec_quit exec_retr exec_rmd exec_rnfr exec_rnto
      exec_stat exec_stor exec_stou exec_stru exec_syst exec_type exec_user exec_auth exec_pbsz
      exec_prot exec_feat exec_opts exec_eprt exec_epsv exec_lang exec_mdtm exec_mlsd exec_mlst
      exec_size exec_reject
  execute-panicked command_pasv arg c e a p v = ground (arith, pool, v refl)
  execute-panicked command_eprt [] c e a p v = absurd (cc p)
  execute-panicked command_eprt (b ∷ bs) c e a p v = ground arith
  execute-panicked command_epsv arg c e a p v = ground (arith, pool)
  execute-panicked command_auth arg c e a p v = ground (arith, shakes)
  execute-panicked _ arg c e a p v = ground arith

  exec_handler-panicked :
      (h : Handler) (arg : Bytes) (c : Session S)
      → c.panicked ≡ false
      → (h ≡ command_pasv → public_ipv4 env srv ≢ none)
      → (exec_handler env srv h arg c).panicked ≡ false
  unfolding exec_handler
  exec_handler-panicked h arg c e v = elim (Bool-cases (require_param h && is_blank arg)) [
    | inl blank ↦ rw blank e
    | inr given ↦ elim (Bool-cases (require_auth h && not (is_some c.auth))) [
      | inl refused ↦ rw (given, refused) e
      | inr allowed ↦ rw (given, allowed) (execute-panicked h arg c e allowed given v)
    ]
  ]

  dispatch-panicked :
      (h : Option Handler) (arg : Bytes) (c : Session S)
      → c.panicked ≡ false
      → (h ≡ some command_pasv → public_ipv4 env srv ≢ none)
      → (dispatch env srv h arg c).panicked ≡ false
  dispatch-panicked none arg c e v = e
  dispatch-panicked (some h) arg c e v = exec_handler-panicked h arg c e (λ same. v (ap some same))

  -- Where newPassiveDataTransfer and the TLS handshake do not panic, over a file system and an
  -- authorizer whose calls return: no command panics, whatever its argument, except PASV where the
  -- server has no public IPv4 address.
  pub exec_command-panicked :
      (cmd : Command) (c : Session S)
      → c.panicked ≡ false
      → (find_handler cmd.name ≡ some command_pasv → public_ipv4 env srv ≢ none)
      → (exec_command env srv cmd c).panicked ≡ false
  unfolding exec_command
  exec_command-panicked cmd c e v = dispatch-panicked (find_handler cmd.name) cmd.arg c e v
