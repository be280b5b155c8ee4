-- ===== src/Session/Invariant.antt =====
-- The well-formed states of a connection, and what a handler of ftp/command.go makes of them.
use s3ftpgateway.Base.{
  ◌≤◌, ◌≡◌, ◌≢◌, refl, true, false, ◌&&◌, ◌||◌, not, Option, none, some, List, [], leb, Bytes,
  codes, arith, Bool-cases, inl, inr,
}
use s3ftpgateway.Command.{
  Command, Handler, find_handler, require_auth, command_cdup, command_cwd, command_pass,
  command_rnfr,
}
use s3ftpgateway.GoPath.{is_abs, join, dir, join_reversed}
use s3ftpgateway.GoPath.Clean.{
  IsCanonical, IsCanonical-is_abs, clean-IsCanonical, join-IsCanonical, dir-IsCanonical,
}
use s3ftpgateway.Session.Account.{
  exec_abor, exec_acct, exec_allo, exec_help, exec_noop, exec_mode, exec_pass, exec_quit, exec_stru,
  exec_syst, exec_type, exec_user, exec_auth, exec_pbsz, exec_prot, exec_feat, exec_opts, exec_lang,
  exec_reject,
}
use s3ftpgateway.Session.Connect.{exec_port, exec_eprt, exec_epsv, exec_pasv}
use s3ftpgateway.Session.File.{
  exec_cdup, exec_cwd, exec_dele, exec_rmd, exec_mkd, exec_pwd, exec_rnfr, exec_rnto, exec_stat,
  exec_mdtm, exec_size, exec_mlst,
}
use s3ftpgateway.Session.Transfer.{
  exec_list, exec_nlst, exec_mlsd, exec_retr, exec_stor, exec_stou, exec_appe,
}
use s3ftpgateway.Session.Run.{is_some, execute, exec_handler, dispatch, exec_command}
use s3ftpgateway.Session.{Env, Server, Session, Authorization, Task, build_path}

-- A path built in a canonical directory is canonical, whatever the client sends: absolute, with no
-- empty, dot or dot-dot element, so that it cannot leave the root.
pub build_path-IsCanonical :
    (pwd path : Bytes) → IsCanonical pwd → IsCanonical (build_path pwd path)
build_path-IsCanonical pwd path h = elim (Bool-cases (is_abs path)) [
  | inl absolute ↦ unfold build_path in rw absolute (clean-IsCanonical path absolute)
  | inr relative ↦
      let joined = join-IsCanonical pwd path (IsCanonical-is_abs h) in
      unfold build_path in
      rw relative (clean-IsCanonical (join pwd path) (IsCanonical-is_abs joined))
]

path_dir-IsCanonical : (p : Bytes) → IsCanonical p → IsCanonical (dir p)
path_dir-IsCanonical p h = dir-IsCanonical p (IsCanonical-is_abs h)

pub slash-IsCanonical : IsCanonical (codes "/")
unfolding codes join_reversed
slash-IsCanonical = record { parts = []; plain = tt; path_eq = refl }

IsCanonical-ne-nil : (p : Bytes) → IsCanonical p → p ≢ []
IsCanonical-ne-nil p h e = cc (h.path_eq)

-- A logged-in client stands in a directory below the root.
abbrev pub InRoot : {S : Type 0} → Option (Authorization S) → Bytes → Type 0
InRoot none pwd = Unit
InRoot (some a) pwd = IsCanonical pwd

-- The name and the contents of a pending rename are set together.
abbrev pub IsPaired : Bytes → Option Bytes → Type 0
IsPaired rmfr none = rmfr ≡ []
IsPaired rmfr (some r) = rmfr ≢ []

-- Only a logged-in client has goroutines.
abbrev pub MayHaveTasks : {S : Type 0} → Option (Authorization S) → List (Task S) → Type 0
MayHaveTasks none tasks = tasks ≡ []
MayHaveTasks (some a) tasks = Unit

pub record IsSound {S : Type 0} (c : Session S) : Type 0 where
  pub in_root : InRoot c.auth c.pwd
  pub paired : IsPaired c.rmfr c.rmfr_reader
  -- more than five failed logins end the session
  pub failures : (leb c.fail_cnt 5 || c.shutting_down) ≡ true
  pub few_failures : c.fail_cnt ≤ 6
  pub may_have_tasks : MayHaveTasks c.auth c.tasks

module _ {S : Type 0} (env : Env) (srv : Server S) where
  execute-IsSound :
      (h : Handler) (arg : Bytes) (c : Session S)
      → c.shutting_down ≡ false
      → (require_auth h && not (is_some c.auth)) ≡ false
      → IsSound c
      → IsSound (execute env srv h arg c)
  unfolding execute require_auth exec_abor exec_acct exec_allo exec_appe exec_cdup exec_cwd
      exec_dele exec_help exec_list exec_mkd exec_nlst exec_noop exec_mode exec_pass exec_pasv
      exec_port exec_pwd exec_quit exec_retr exec_rmd exec_rnfr exec_rnto exec_stat exec_stor
      exec_stou exec_stru exec_syst exec_type exec_user exec_auth exec_pbsz exec_prot exec_feat
      exec_opts exec_eprt exec_epsv exec_lang exec_mdtm exec_mlsd exec_mlst exec_size exec_reject
  execute-IsSound command_cdup arg c e a v = ground (arith, path_dir-IsCanonical c.pwd)
  execute-IsSound command_cwd arg c e a v = ground (arith, build_path-IsCanonical c.pwd arg)
  execute-IsSound command_pass arg c e a v = ground (arith, slash-IsCanonical)
  execute-IsSound command_rnfr arg c e a v =
      ground (arith, build_path-IsCanonical c.pwd arg, IsCanonical-ne-nil (build_path c.pwd arg))
  execute-IsSound _ arg c e a v = ground arith

  exec_handler-IsSound :
      (h : Handler) (arg : Bytes) (c : Session S)
      → c.shutting_down ≡ false
      → IsSound c
      → IsSound (exec_handler env srv h arg c)
  unfolding exec_handler
  exec_handler-IsSound h arg c e v = ground (arith, execute-IsSound h arg c e)

  dispatch-IsSound :
      (h : Option Handler) (arg : Bytes) (c : Session S)
      → c.shutting_down ≡ false
      → IsSound c
      → IsSound (dispatch env srv h arg c)
  dispatch-IsSound none arg c e v = ground arith
  dispatch-IsSound (some h) arg c e v = exec_handler-IsSound h arg c e v

  pub exec_command-IsSound :
      (cmd : Command) (c : Session S)
      → c.shutting_down ≡ false
      → IsSound c
      → IsSound (exec_command env srv cmd c)
  unfolding exec_command
  exec_command-IsSound cmd c e v = dispatch-IsSound (find_handler cmd.name) cmd.arg c e v
