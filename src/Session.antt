-- ===== src/Session.antt =====
-- ftp/conn.go: the state of a control connection, `ServerConn`, and what the handlers share. The
-- replies are those handed to `WriteReply`, in order. A transfer that goes on in a goroutine is a
-- task of the connection, which runs at any later time.
pub mod File
pub mod Transfer
pub mod Connect
pub mod Account
pub mod Run
pub mod Guard
pub mod Invariant
pub mod Reached
pub mod Rename
pub mod Panics
pub mod Bounce
pub mod Guests
pub mod Answers
pub mod Sample
pub mod Stored
pub mod Shutdown
pub mod Extends
pub mod Closed
mod Tests
use s3ftpgateway.Base.{
  ℕ, Bool, true, false, Option, none, some, List, [], ◌∷◌, ◌++◌, if◌then◌else◌, Bytes, codes,
  Result, ok, err,
}
use s3ftpgateway.GoPath.{is_abs, clean, join}
use s3ftpgateway.Status.{status_file_unavailable, status_bad_command}
use s3ftpgateway.Vfs.{
  FsError, not_exist, exist, permission, VfsError, cause, FileInfo, Reader, FileSystem,
}
use s3ftpgateway.Vfs.Null.{null}

-- An established data connection: what the client sends over it, and whether it takes data.
pub record DataConn : Type 0 where
  pub incoming : Reader
  pub writable : Bool

-- `emptyDataTransfer`, `activeDataTransfer`, `passiveDataTransfer`. A passive one hands its
-- connection out once.
pub data DataTransfer : Type 0 where
  dt_empty : DataTransfer
  dt_active : DataConn → DataTransfer
  dt_passive : ℕ → Bool → DataTransfer

-- How `newPassiveDataTransfer` fails: `errPassiveModeIsDisabled`, any other error, or a panic of
-- `choosePassivePort`, as that of `make` on a range of ports that ends before it begins.
pub data PassiveError : Type 0 where
  passive_disabled passive_failed passive_panics : PassiveError

-- How `tls.Conn.Handshake` ends. It can panic where the configuration is nil.
pub data Handshake : Type 0 where
  handshake_done handshake_failed handshake_panics : Handshake

-- What the network, the clock and the libraries answer while one command runs.
pub record Env : Type 0 where
  -- `net.ParseIP`, `IP.To4`, `IP.To16`, `IP.Equal`, `IP.String`
  pub parse_ip : Bytes → Option Bytes
  pub to4 : Bytes → Option Bytes
  pub to16 : Bytes → Option Bytes
  pub ip_equal : Bytes → Bytes → Bool
  pub ip_string : Bytes → Bytes
  -- the host of `net.SplitHostPort`
  pub split_host : Bytes → Option Bytes
  -- the TCP addresses of the control connection
  pub local_ip : Option Bytes
  pub remote_ip : Option Bytes
  -- `dialer.DialContext` after its retries
  pub dial : Bytes → Option DataConn
  -- the port that `newPassiveDataTransfer` listens on
  pub new_passive : Result PassiveError ℕ
  -- the connection that a passive listener accepts in time
  pub accepted : Option DataConn
  pub handshake : Handshake
  -- 16 random bytes in hexadecimal
  pub unique_name : Option Bytes
  -- `sleepWithContext` was not cut short
  pub slept : Bool
  -- `ModTime().UTC().Format("20060102150405.999")` and `ModTime().Format(" Jan _2 15:04")`
  pub format_time : ℕ → Bytes
  pub format_list_time : ℕ → Bytes
  -- `FileMode.String`
  pub mode_string : FileInfo → Bytes
  -- what `fmt.Print` counts on the standard output for a listing
  pub printed : List Bytes → ℕ

pub data AuthError : Type 0 where
  authorize_failed auth_failure : AuthError

pub record Authorization (S : Type 0) : Type 0 where
  pub user : Bytes
  pub file_system : Option (FileSystem S)

-- `Authorizer`, on a user and a password.
abbrev pub Authorizer : Type 0 → Type 0
Authorizer S = Bytes → Bytes → Result AuthError (Authorization S)

-- The parameters of `Server` that the handlers read; a nil field is `none`.
pub record Server (S : Type 0) : Type 0 where
  pub file_system : Option (FileSystem S)
  pub authorizer : Option (Authorizer S)
  pub public_ips : List Bytes
  pub enable_active_mode : Bool
  pub disable_address_check : Bool

-- The protection levels of the data channel.
pub data ProtectionLevel : Type 0 where
  level_unset level_clear level_safe level_confidential level_private : ProtectionLevel

-- What a goroutine still has to do.
pub data Task (S : Type 0) : Type 0 where
  task_retr : Bytes → DataConn → Task S
  -- name, what is stored in front, connection, end of the message
  task_store : Bytes → Bytes → DataConn → Bytes → Task S
  -- payload, byte count of the message, connection
  task_list : Bytes → ℕ → DataConn → Task S
  -- file system, from, to, contents
  task_rename : FileSystem S → Bytes → Bytes → Bytes → Task S

-- `ServerConn`, with the store behind its file system. `panicked` is a nil dereference or an index
-- out of range; `closed` says that the control connection is closed.
pub record Session (S : Type 0) : Type 0 where
  pub user : Bytes
  pub auth : Option (Authorization S)
  pub fail_cnt : ℕ
  pub pwd : Bytes
  pub tls : Bool
  pub prot : ProtectionLevel
  pub rmfr : Bytes
  pub rmfr_reader : Option Bytes
  pub dt : DataTransfer
  pub epsv_all : Bool
  pub shutting_down : Bool
  pub closed : Bool
  pub panicked : Bool
  pub store : S
  pub tasks : List (Task S)
  pub replies : List (ℕ × List Bytes)
  -- the data sent over data connections
  pub outgoing : List Bytes

-- `buildPath`
unfoldable pub build_path : Bytes → Bytes → Bytes
build_path pwd path = if is_abs path then clean path else clean (join pwd path)

-- `os.IsNotExist`, `os.IsExist`, `os.IsPermission`
abbrev pub is_not_exist : VfsError → Bool
is_not_exist e = elim (cause e) [ not_exist ↦ true | _ ↦ false ]

abbrev pub is_exist : VfsError → Bool
is_exist e = elim (cause e) [ exist ↦ true | _ ↦ false ]

abbrev pub is_permission : VfsError → Bool
is_permission e = elim (cause e) [ permission ↦ true | _ ↦ false ]

-- `c.dt.Conn`: the connection, and the transfer behind the call.
abbrev pub data_conn : Env → DataTransfer → Option (DataConn × DataTransfer)
data_conn env dt_empty = none
data_conn env (dt_active conn) = some (conn, dt_active conn)
data_conn env (dt_passive port true) = none
data_conn env (dt_passive port false) = elim env.accepted [
  | none ↦ none
  | some conn ↦ some (conn, dt_passive port true)
]

module _ {S : Type 0} where
  -- `WriteReply`
  abbrev pub reply_lines : ℕ → List Bytes → Session S → Session S
  reply_lines code msgs c = record c { replies = c.replies ++ (code, msgs) ∷ [] }

  abbrev pub reply : ℕ → Bytes → Session S → Session S
  reply code msg = reply_lines code (msg ∷ [])

  abbrev pub panic : Session S → Session S
  panic c = record c { panicked = true }

  abbrev or_else : Option (FileSystem S) → Option (FileSystem S) → FileSystem S
  or_else (some fs) next = fs
  or_else none (some fs) = fs
  or_else none none = null

  -- `fileSystem`, which dereferences `c.auth`.
  unfoldable pub file_system : Server S → Session S → Option (FileSystem S)
  file_system srv c = elim c.auth [
    | none ↦ none
    | some a ↦ some (or_else a.file_system srv.file_system)
  ]

  abbrev pub with_fs : Server S → Session S → (FileSystem S → Session S) → Session S
  with_fs srv c k = elim (file_system srv c) [ none ↦ panic c | some fs ↦ k fs ]

  -- `closeDataTransfer`: the transfer is closed, and a connection that is shutting down with it.
  abbrev pub close_data_transfer : Session S → Session S
  close_data_transfer c = record c {
    dt = dt_empty;
    closed = if c.shutting_down then true else c.closed;
  }

  -- `setDataTransfer`
  abbrev pub set_data_transfer : DataTransfer → Session S → Session S
  set_data_transfer dt c = record c { dt = dt }

  -- `handleFileError`
  abbrev pub handle_file_error : VfsError → Session S → Session S
  handle_file_error e c =
      if is_not_exist e
      then reply status_file_unavailable (codes "No such file.") c
      else if is_permission e
      then reply status_file_unavailable (codes "Permission is denied.") c
      else reply status_bad_command (codes "Internal error.") c

  abbrev pub add_task : Task S → Session S → Session S
  add_task t c = record c { tasks = c.tasks ++ t ∷ [] }
