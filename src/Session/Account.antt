-- ===== src/Session/Account.antt =====
-- ftp/command.go: the handlers of the account and of the session itself, from ABOR to USER; and
-- ftp/authorizer.go: the authorizers for anonymous users and for nobody.
use s3ftpgateway.Base.{
  ◌+◌, Bool, true, ◌&&◌, ◌||◌, not, Option, none, some, List, [], ◌∷◌, ◌++◌, ltb, if◌then◌else◌,
  Bytes, codes, beq, ok, err,
}
use s3ftpgateway.Command.{Handler, commands, is_extend, feature_param, find_handler}
use s3ftpgateway.GoMap.{Map}
use s3ftpgateway.Session.{
  Env, AuthError, authorize_failed, auth_failure, Authorizer, Server, Session, level_clear,
  Handshake, handshake_done, handshake_failed, handshake_panics, panic, reply, reply_lines,
  close_data_transfer,
}
use s3ftpgateway.Session.File.{is_blank}
use s3ftpgateway.Status.{
  status_command_ok, status_command_not_implemented, status_system, status_help, status_name,
  status_closing, status_logged_in, status_security_data_exchange_complete, status_user_ok,
  status_bad_command, status_bad_arguments, status_not_implemented,
  status_not_implemented_parameter, status_prot_level_not_supported, status_not_logged_in,
  status_file_unavailable,
}
use s3ftpgateway.Text.{split, to_upper, equal_fold, fields, sort_strings}
use s3ftpgateway.Vfs.ReadOnly.{read_only}

-- `isAnonymous`; `anonymousAuthorizer.Authorize` makes the same test.
abbrev pub is_anonymous : Bytes → Bool
is_anonymous user = beq user (codes "anonymous") || beq user (codes "ftp")

module _ {S : Type 0} (srv : Server S) where
  -- `AnonymousAuthorizer`
  unfoldable pub anonymous_authorizer : Authorizer S
  anonymous_authorizer user password =
      if is_anonymous user
      then ok (record { user = user; file_system = some (read_only srv.file_system) })
      else err authorize_failed

module _ {S : Type 0} where
  -- `NullAuthorizer`
  unfoldable pub null_authorizer : Authorizer S
  null_authorizer user password = err authorize_failed

  -- `Server.authorizer`
  unfoldable pub authorizer : Server S → Authorizer S
  authorizer srv = elim srv.authorizer [ none ↦ null_authorizer | some a ↦ a ]

-- The extensions that FEAT lists.
features : Map (Option Handler) → List Bytes
features [] = []
features ((k, none) ∷ m) = features m
features ((k, some h) ∷ m) =
    let rest = features m in
    let param : Bytes = elim (feature_param h) [ none ↦ [] | some p ↦ b' ' ∷ p ] in
    if is_extend h then (b' ' ∷ (k ++ param)) ∷ rest else rest

module _ {S : Type 0} (env : Env) (srv : Server S) where
  unfoldable pub exec_abor : Session S → Session S
  exec_abor = close_data_transfer

  unfoldable pub exec_acct : Session S → Session S
  exec_acct = reply status_command_not_implemented (codes "Permission was already granted.")

  unfoldable pub exec_allo : Session S → Session S
  exec_allo = reply status_command_not_implemented (codes "Obsolete.")

  unfoldable pub exec_help : Bytes → Session S → Session S
  exec_help arg c =
      let name = to_upper arg in
      let about : Session S = elim (find_handler name) [
        | none ↦ reply status_not_implemented (codes "Unknown command " ++ (name ++ codes ".")) c
        | some h ↦ reply status_help (name ++ codes ".") c
      ] in
      if is_blank arg
      then reply status_help (codes "s3ftpgateway - https://github.com/shogo82148/s3ftpgateway") c
      else about

  unfoldable pub exec_noop : Session S → Session S
  exec_noop = reply status_command_ok (codes "Okay.")

  unfoldable pub exec_mode : Bytes → Session S → Session S
  exec_mode arg =
      if beq arg (codes "S") || beq arg (codes "s")
      then reply status_command_ok (codes "Change transfer mode to stream.")
      else reply status_not_implemented_parameter (codes "Unknown transfer mode.")

  unfoldable pub exec_stru : Bytes → Session S → Session S
  exec_stru arg =
      if beq arg (codes "F") || beq arg (codes "f")
      then reply status_command_ok (codes "Set file structure to file.")
      else reply status_not_implemented_parameter (codes "Unknown file structure.")

  unfoldable pub exec_type : Bytes → Session S → Session S
  exec_type arg =
      if beq arg (codes "A") || beq arg (codes "a")
      then reply status_command_ok (codes "Type set to ASCII.")
      else if beq arg (codes "I") || beq arg (codes "i")
      then reply status_command_ok (codes "Type set to binary.")
      else reply status_bad_arguments (codes "Unknown type.")

  unfoldable pub exec_syst : Session S → Session S
  exec_syst = reply status_name (codes "UNIX Type: L8")

  unfoldable pub exec_user : Bytes → Session S → Session S
  exec_user arg c =
      reply status_user_ok (codes "User name ok, password required.") (record c { user = arg })

  -- More than five failures end the session.
  abbrev after_failure : Session S → Session S
  after_failure c = record c { shutting_down = ltb 5 c.fail_cnt || c.shutting_down }

  abbrev refuse_login : AuthError → Session S → Session S
  refuse_login authorize_failed c =
      after_failure (reply status_not_logged_in (codes "Not logged in.") c)
  refuse_login auth_failure c = after_failure (reply status_bad_command (codes "Internal error.") c)

  unfoldable pub exec_pass : Bytes → Session S → Session S
  exec_pass arg c = elim (authorizer srv c.user arg) [
    | err e ↦
        let c' = record c { fail_cnt = c.fail_cnt + 1 } in
        if (ltb 1 c'.fail_cnt || not (is_anonymous c.user)) && not env.slept
        then record c' { shutting_down = true }
        else refuse_login e c'
    | ok a ↦
        reply status_logged_in (codes "User logged in, proceed.")
          (record c { fail_cnt = 0; auth = some a; pwd = codes "/" })
  ]

  unfoldable pub exec_quit : Session S → Session S
  exec_quit c = record (reply status_closing (codes "Good bye.") c) { shutting_down = true }

  unfoldable pub exec_reject : Session S → Session S
  exec_reject c = record c { shutting_down = true }

  abbrev upgraded : Handshake → Session S → Session S
  upgraded handshake_done c = record c { tls = true }
  upgraded handshake_failed c = c
  upgraded handshake_panics c = panic c

  -- The reply goes out before `upgradeToTLS`, whose handshake is that of `env`.
  unfoldable pub exec_auth : Bytes → Session S → Session S
  exec_auth arg c =
      let c' = reply status_security_data_exchange_complete (codes "AUTH command OK.") c in
      if equal_fold arg (codes "TLS")
      then upgraded env.handshake c'
      else reply status_not_implemented_parameter (codes "Action not taken.") c

  unfoldable pub exec_pbsz : Bytes → Session S → Session S
  exec_pbsz arg c =
      if c.tls && beq arg (codes "0")
      then reply status_command_ok (codes "OK.") c
      else reply status_file_unavailable (codes "Action not taken.") c

  -- Any other argument gets no reply.
  unfoldable pub exec_prot : Bytes → Session S → Session S
  exec_prot arg c =
      if beq arg (codes "C")
      then reply status_command_ok (codes "OK.") (record c { prot = level_clear })
      else if beq arg (codes "S")
      then reply status_prot_level_not_supported (codes "Safe level is not supported.") c
      else if beq arg (codes "E")
      then reply status_prot_level_not_supported (codes "Confidential level is not supported.") c
      else if beq arg (codes "P")
      then (if c.tls
          then reply status_command_ok (codes "OK.") c
          else reply status_prot_level_not_supported
              (codes "Private level is only supported in TLS.") c)
      else c

  unfoldable pub exec_feat : Session S → Session S
  unfolding features
  exec_feat = reply_lines status_system (
      codes "Extensions supported:"
      ∷ codes " UTF8"
      ∷ (sort_strings (features commands) ++ codes "End." ∷ []))

  abbrev invalid_option : Session S → Session S
  invalid_option = reply status_bad_arguments (codes "Invalid option.")

  abbrev set_option : List Bytes → Session S → Session S
  set_option (name ∷ value ∷ []) =
      if not (equal_fold name (codes "utf8"))
      then invalid_option
      else if equal_fold value (codes "on")
      then reply status_command_ok (codes "UTF8 mode enabled.")
      else reply status_bad_arguments (codes "Unsupported non-utf8 mode.")
  set_option _ = invalid_option

  unfoldable pub exec_opts : Bytes → Session S → Session S
  exec_opts arg = set_option (fields arg)

  -- `strings.Split` always gives a first part.
  abbrev set_language : Bytes → List Bytes → Session S → Session S
  set_language arg [] = reply status_bad_arguments (codes "Syntax error in parameter.")
  set_language arg (lang ∷ _) =
      if not (equal_fold lang (codes "en"))
      then reply status_not_implemented (codes "Language " ++ (arg ++ codes " is not supported."))
      else reply status_command_ok (codes "Language change to " ++ arg)

  unfoldable pub exec_lang : Bytes → Session S → Session S
  exec_lang arg = set_language arg (split b'-' arg)
