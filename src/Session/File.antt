-- ===== src/Session/File.antt =====
-- ftp/command.go: the handlers that work on names: CDUP, CWD, DELE, MKD, PWD, RMD, RNFR, RNTO, STAT,
-- MDTM, SIZE and MLST.
use s3ftpgateway.Base.{
  ℕ, zero, suc, ◌-◌, length, Bool, true, false, ◌&&◌, ◌||◌, not, Option, none, some, [], ◌∷◌, ◌++◌,
  if◌then◌else◌, Bytes, codes, beq, ok, err,
}
use s3ftpgateway.GoPath.{dir}
use s3ftpgateway.Session.{
  Env, Server, Session, task_rename, build_path, is_not_exist, is_exist, reply, reply_lines,
  with_fs, handle_file_error, add_task,
}
use s3ftpgateway.Status.{
  status_command_ok, status_action_aborted, status_need_some_unavailable_resource,
  status_bad_command, status_directory_already_exists, status_path_created, status_bad_sequence,
  status_request_file_pending, status_system, status_file, status_directory,
}
use s3ftpgateway.Text.{escape_quote, decimal}
use s3ftpgateway.Vfs.Mode.{mode_bit}
use s3ftpgateway.Vfs.{FileInfo}

abbrev quoted : Bytes → Bytes
quoted path = b'"' ∷ (escape_quote path ++ b'"' ∷ [])

abbrev pub is_blank : Bytes → Bool
is_blank [] = true
is_blank (b ∷ bs) = false

spaces : ℕ → Bytes
spaces zero = []
spaces (suc n) = b' ' ∷ spaces n

-- `%13d`
abbrev pad_left : ℕ → Bytes → Bytes
pad_left width s = spaces (width - length s) ++ s

abbrev when : Bool → Bytes → Bytes
when true s = s
when false s = []

abbrev is_open : Option Bytes → Bool
is_open none = false
is_open (some r) = true

-- `formatMachineListings`
unfoldable pub format_machine_listings : Env → FileInfo → Bytes
format_machine_listings env info =
    (if info.is_dir then codes "Type=dir;" else codes "Type=file;")
    ++ (codes "Modify="
        ++ (env.format_time info.mod_time
            ++ (codes ";"
                ++ (codes "Size="
                    ++ (decimal info.size
                        ++ (codes ";"
                            ++ (codes "Perm="
                                ++ (when
                                      (not info.is_dir
                                        && (mode_bit 8 info.mode && mode_bit 7 info.mode))
                                      (codes "a")
                                    ++ (when (info.is_dir && mode_bit 7 info.mode) (codes "cmp")
                                        ++ (when (mode_bit 7 info.mode) (codes "df")
                                            ++ (when (info.is_dir && mode_bit 6 info.mode)
                                                  (codes "e")
                                                ++ (when (info.is_dir && mode_bit 8 info.mode)
                                                      (codes "l")
                                                    ++ (when
                                                          (not info.is_dir && mode_bit 8 info.mode)
                                                          (codes "r")
                                                        ++ (when
                                                            (not info.is_dir
                                                            && mode_bit 7 info.mode)
                                                            (codes "w")
                                                            ++ (codes ";"
                                                            ++ (codes " "
                                                            ++ info.name))))))))))))))))

-- `formatFileInfo`, for the user's name.
unfoldable pub format_file_info : Env → Bytes → FileInfo → Bytes
unfolding spaces
format_file_info env user info =
    env.mode_string info
    ++ (codes " 1 "
        ++ (user
            ++ (codes " "
                ++ (user
                    ++ (codes " "
                        ++ (pad_left 13 (decimal info.size)
                            ++ (codes " "
                                ++ (env.format_list_time info.mod_time
                                    ++ (codes " " ++ info.name)))))))))

module _ {S : Type 0} (env : Env) (srv : Server S) where
  unfoldable pub exec_cdup : Session S → Session S
  exec_cdup c =
      if is_blank c.pwd || beq c.pwd (codes "/")
      then reply status_need_some_unavailable_resource (codes "No such directory.") c
      else reply status_command_ok (codes "Directory changed to " ++ (dir c.pwd ++ codes "."))
          (record c { pwd = dir c.pwd })

  unfoldable pub exec_cwd : Bytes → Session S → Session S
  exec_cwd arg c =
      let path = build_path c.pwd arg in
      with_fs srv c λ fs. elim (fs.stat c.store path) [
        | err e ↦ reply status_need_some_unavailable_resource (codes "No such directory.") c
        | ok stat ↦
            if stat.is_dir
            then reply status_command_ok (codes "Directory changed to " ++ (path ++ codes "."))
                (record c { pwd = path })
            else reply status_action_aborted (codes "Not a directory.") c
      ]

  -- DELE and RMD, which differ in the message for a missing name.
  abbrev exec_remove : Bytes → Bytes → Session S → Session S
  exec_remove missing arg c =
      let path = build_path c.pwd arg in
      with_fs srv c λ fs.
        let (res, store') = fs.remove c.store path in
        let c' = record c { store = store' } in
        elim res [
          | err e ↦
              if is_not_exist e
              then reply status_need_some_unavailable_resource missing c'
              else reply status_bad_command (codes "Internal error.") c'
          | ok u ↦ reply status_command_ok (codes "Removed directory " ++ path) c'
        ]

  unfoldable pub exec_dele : Bytes → Session S → Session S
  exec_dele = exec_remove (codes "No such file.")

  unfoldable pub exec_rmd : Bytes → Session S → Session S
  exec_rmd = exec_remove (codes "No such directory.")

  unfoldable pub exec_mkd : Bytes → Session S → Session S
  exec_mkd arg c =
      let path = build_path c.pwd arg in
      with_fs srv c λ fs.
        let (res, store') = fs.mkdir c.store path in
        let c' = record c { store = store' } in
        elim res [
          | err e ↦
              if is_exist e
              then reply status_directory_already_exists
                  (quoted path ++ codes " directory already exists; taking no action.") c'
              else reply status_bad_command (codes "Internal error.") c'
          | ok u ↦ reply status_path_created (quoted path ++ codes " directory created.") c'
        ]

  unfoldable pub exec_pwd : Session S → Session S
  exec_pwd c = reply status_path_created (quoted c.pwd) c

  unfoldable pub exec_rnfr : Bytes → Session S → Session S
  exec_rnfr arg c =
      let path = build_path c.pwd arg in
      let lookup = with_fs srv c λ fs. elim (fs.open_file c.store path) [
        | err e ↦
            if is_not_exist e
            then reply status_need_some_unavailable_resource (codes "No such directory.") c
            else reply status_bad_command (codes "Internal error.") c
        | ok r ↦
            reply status_request_file_pending
              (codes "Requested file action pending further information.")
              (record c { rmfr = path; rmfr_reader = some r })
      ] in
      if not (is_blank c.rmfr) || is_open c.rmfr_reader
      then reply status_bad_sequence (codes "RNTO must be call after RNFR.") c
      else lookup

  -- The file system is asked for first.
  unfoldable pub exec_rnto : Bytes → Session S → Session S
  exec_rnto arg c = with_fs srv c λ fs. elim c.rmfr_reader [
    | none ↦ reply status_bad_sequence (codes "RNTO must be call after RNFR.") c
    | some r ↦
        if is_blank c.rmfr
        then reply status_bad_sequence (codes "RNTO must be call after RNFR.") c
        else add_task (task_rename fs c.rmfr (build_path c.pwd arg) r)
            (record c { rmfr = []; rmfr_reader = none })
  ]

  -- `Stat` on the path, for the handlers that only report.
  abbrev stat_then : Bytes → Session S → (FileInfo → Session S) → Session S
  stat_then path c k =
      with_fs srv c
        λ fs. elim (fs.stat c.store path) [ err e ↦ handle_file_error e c | ok info ↦ k info ]

  -- The user's name, through `c.auth`.
  abbrev pub user_name : Session S → Bytes
  user_name c = elim c.auth [ none ↦ [] | some a ↦ a.user ]

  unfoldable pub exec_stat : Bytes → Session S → Session S
  exec_stat arg c =
      if is_blank arg
      then reply status_system (codes "https://github.com/shogo82148/s3ftpgateway") c
      else stat_then (build_path c.pwd arg) c λ info.
        reply_lines (if info.is_dir then status_directory else status_file)
          (codes "STAT" ∷ format_file_info env (user_name c) info ∷ codes "End." ∷ []) c

  unfoldable pub exec_mdtm : Bytes → Session S → Session S
  exec_mdtm arg c =
      stat_then (build_path c.pwd arg) c λ info. reply status_file (env.format_time info.mod_time) c

  unfoldable pub exec_size : Bytes → Session S → Session S
  exec_size arg c =
      stat_then (build_path c.pwd arg) c λ info. reply status_file (decimal info.size) c

  unfoldable pub exec_mlst : Bytes → Session S → Session S
  exec_mlst arg c =
      let path = if is_blank arg then c.pwd else build_path c.pwd arg in
      stat_then path c λ info.
        reply_lines status_file
          ((codes "Listing " ++ path) ∷ format_machine_listings env info ∷ codes "End." ∷ []) c
