-- ===== src/Session/Answers.antt =====
-- Replies: the handlers of ftp/command.go and the goroutines that they start.
use s3ftpgateway.Base.{
  beq, ◌+◌, length, length-append, ltb, ap, ◌≡◌, ◌≢◌, refl, true, false, ◌&&◌, ◌||◌, not, Option,
  none, some, Bytes, codes, arith, Bool-cases, inl, inr, err,
}
use s3ftpgateway.Command.{
  Command, Handler, find_handler, require_auth, require_param, command_abor, command_prot,
  command_epsv, command_pasv,
}
use s3ftpgateway.Session.Account.{
  exec_abor, exec_acct, exec_allo, exec_help, exec_noop, exec_mode, exec_pass, exec_quit, exec_stru,
  exec_syst, exec_type, exec_user, exec_auth, exec_pbsz, exec_prot, exec_feat, exec_opts, exec_lang,
  exec_reject,
}
use s3ftpgateway.Session.Connect.{exec_port, exec_eprt, exec_epsv, exec_pasv}
use s3ftpgateway.Session.File.{
  is_blank, exec_cdup, exec_cwd, exec_dele, exec_rmd, exec_mkd, exec_pwd, exec_rnfr, exec_rnto,
  exec_stat, exec_mdtm, exec_size, exec_mlst,
}
use s3ftpgateway.Session.Transfer.{
  exec_list, exec_nlst, exec_mlsd, exec_retr, exec_stor, exec_stou, exec_appe,
}
use s3ftpgateway.Session.Run.{is_some, execute, exec_handler, dispatch, exec_command}
use s3ftpgateway.Session.Transfer.{run_task}
use s3ftpgateway.Session.{
  passive_panics, task_retr, task_list, task_store, task_rename, file_system, Env, Server, Session,
  Task,
}

-- The protection levels that PROT knows.
abbrev pub IsLevel : Bytes → Type 0
IsLevel arg =
    (beq arg (codes "C") || (beq arg (codes "S") || (beq arg (codes "E") || beq arg (codes "P"))))
    ≡ true

-- A reply is sent, a goroutine that will send one is started, or the session ends.
module _ {S : Type 0} where
  abbrev pub IsAnswered : Session S → Session S → Type 0
  IsAnswered c c' =
      (ltb (length c.replies) (length c'.replies)
        || (ltb (length c.tasks) (length c'.tasks) || c'.shutting_down))
      ≡ true

module _ {S : Type 0} (env : Env) (srv : Server S)
    (pool : env.new_passive ≢ err passive_panics) where
  execute-IsAnswered :
      (h : Handler) (arg : Bytes) (c : Session S)
      → (require_auth h && not (is_some c.auth)) ≡ false
      → (require_param h && is_blank arg) ≡ false
      → h ≢ command_abor
      → (h ≡ command_prot → IsLevel arg)
      → IsAnswered c (execute env srv h arg c)
  unfolding execute file_system require_auth require_param exec_abor exec_acct exec_allo exec_appe
      exec_cdup exec_cwd exec_dele exec_help exec_list exec_mkd exec_nlst exec_noop exec_mode
      exec_pass exec_pasv exec_port exec_pwd exec_quit exec_retr exec_rmd exec_rnfr exec_rnto
      exec_stat exec_stor exec_stou exec_stru exec_syst exec_type exec_user exec_auth exec_pbsz
      exec_prot exec_feat exec_opts exec_eprt exec_epsv exec_lang exec_mdtm exec_mlsd exec_mlst
      exec_size exec_reject
  execute-IsAnswered command_abor arg c a p v l = absurd (v refl)
  execute-IsAnswered command_prot arg c a p v l = grind (arith, length-append, l refl)
  execute-IsAnswered command_epsv arg c a p v l = grind (arith, length-append, pool)
  execute-IsAnswered command_pasv arg c a p v l = grind (arith, length-append, pool)
  execute-IsAnswered _ arg c a p v l = grind (arith, length-append)

  exec_handler-IsAnswered :
      (h : Handler) (arg : Bytes) (c : Session S)
      → h ≢ command_abor
      → (h ≡ command_prot → IsLevel arg)
      → IsAnswered c (exec_handler env srv h arg c)
  unfolding exec_handler
  exec_handler-IsAnswered h arg c v l = elim (Bool-cases (require_param h && is_blank arg)) [
    | inl blank ↦ rw blank (grind (arith, length-append))
    | inr given ↦ elim (Bool-cases (require_auth h && not (is_some c.auth))) [
      | inl refused ↦ rw (given, refused) (grind (arith, length-append))
      | inr allowed ↦ rw (given, allowed) (execute-IsAnswered h arg c allowed given v l)
    ]
  ]

  dispatch-IsAnswered :
      (h : Option Handler) (arg : Bytes) (c : Session S)
      → h ≢ some command_abor
      → (h ≡ some command_prot → IsLevel arg)
      → IsAnswered c (dispatch env srv h arg c)
  dispatch-IsAnswered none arg c v l = grind (arith, length-append)
  dispatch-IsAnswered (some h) arg c v l =
      exec_handler-IsAnswered h arg c (λ same. v (ap some same)) (λ same. l (ap some same))

  -- Where newPassiveDataTransfer does not panic: every command is answered, except ABOR, and PROT
  -- with a level that it does not know: a reply is sent, or a goroutine is started, or the session
  -- is shutting down.
  pub exec_command-IsAnswered :
      (cmd : Command) (c : Session S)
      → find_handler cmd.name ≢ some command_abor
      → (find_handler cmd.name ≡ some command_prot → IsLevel cmd.arg)
      → IsAnswered c (exec_command env srv cmd c)
  unfolding exec_command
  exec_command-IsAnswered cmd c v l = dispatch-IsAnswered (find_handler cmd.name) cmd.arg c v l

module _ {S : Type 0} (env : Env) (srv : Server S) where
  -- A goroutine of a logged-in client sends exactly one reply when it ends, on every branch.
  pub run_task-replies :
      (t : Task S) (c : Session S)
      → c.auth ≢ none
      → length (run_task env srv t c).replies ≡ length c.replies + 1
  unfolding run_task file_system
  run_task-replies (task_retr content conn) c a = grind (arith, length-append)
  run_task-replies (task_list payload n conn) c a = grind (arith, length-append)
  run_task-replies (task_store name old conn message) c a = grind (arith, length-append)
  run_task-replies (task_rename fs from to content) c a = grind (arith, length-append)
