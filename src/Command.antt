-- ===== src/Command.antt =====
-- ftp/command.go: commands, how a line is parsed into one, and the table of the handlers with
-- what each requires.
pub mod Parse
pub mod Name
use s3ftpgateway.Base.{
  ℕ, Bool, true, false, Option, none, some, List, [], ◌∷◌, ◌++◌, ◌==◌, if◌then◌else◌, Bytes, codes,
}
use s3ftpgateway.GoMap.{Map, lookup}
use s3ftpgateway.Text.{trim_space, to_upper}

-- `Command`
pub record Command : Type 0 where
  pub name : Bytes
  pub arg : Bytes

-- `Command.String`
unfoldable pub command_string : Command → Bytes
command_string c = elim c.arg [ [] ↦ c.name | b ∷ bs ↦ c.name ++ (b' ' ∷ b ∷ bs) ]

-- The text up to the first space, and from it on.
abbrev pub cut_space : Bytes → Option (Bytes × Bytes)
cut_space [] = none
cut_space (b ∷ bs) =
    let rest = cut_space bs in
    if b == b' '
    then some ([], b ∷ bs)
    else elim rest [ none ↦ none | some (pre, post) ↦ some (b ∷ pre, post) ]

abbrev pub as_command : Bytes → Option (Bytes × Bytes) → Command
as_command s none = record { name = to_upper s; arg = [] }
as_command s (some (pre, post)) = record { name = to_upper pre; arg = trim_space post }

-- `ParseCommand`; it never fails.
unfoldable pub parse_command : Bytes → Command
parse_command line = let s = trim_space line in as_command s (cut_space s)

-- The types `commandAbor`, …, `commandReject` that implement the interface `command`.
pub data Handler : Type 0 where
  command_abor command_acct command_allo command_appe command_cdup : Handler
  command_cwd command_dele command_help command_list command_mkd : Handler
  command_nlst command_noop command_mode command_pass command_pasv : Handler
  command_port command_pwd command_quit command_retr command_rmd : Handler
  command_rnfr command_rnto command_stat command_stor command_stou : Handler
  command_stru command_syst command_type command_user command_auth : Handler
  command_pbsz command_prot command_feat command_opts command_eprt : Handler
  command_epsv command_lang command_mdtm command_mlsd command_mlst : Handler
  command_size command_reject : Handler

-- `IsExtend`
unfoldable pub is_extend : Handler → Bool
is_extend command_abor = false
is_extend command_acct = false
is_extend command_allo = false
is_extend command_appe = false
is_extend command_cdup = false
is_extend command_cwd = false
is_extend command_dele = false
is_extend command_help = false
is_extend command_list = false
is_extend command_mkd = false
is_extend command_nlst = false
is_extend command_noop = false
is_extend command_mode = false
is_extend command_pass = false
is_extend command_pasv = false
is_extend command_port = false
is_extend command_pwd = false
is_extend command_quit = false
is_extend command_retr = false
is_extend command_rmd = false
is_extend command_rnfr = false
is_extend command_rnto = false
is_extend command_stat = false
is_extend command_stor = false
is_extend command_stou = false
is_extend command_stru = false
is_extend command_syst = false
is_extend command_type = false
is_extend command_user = false
is_extend command_auth = true
is_extend command_pbsz = true
is_extend command_prot = true
is_extend command_feat = false
is_extend command_opts = false
is_extend command_eprt = true
is_extend command_epsv = true
is_extend command_lang = true
is_extend command_mdtm = true
is_extend command_mlsd = true
is_extend command_mlst = true
is_extend command_size = true
is_extend command_reject = false

-- `RequireParam`
unfoldable pub require_param : Handler → Bool
require_param command_abor = true
require_param command_acct = true
require_param command_allo = true
require_param command_appe = true
require_param command_cdup = false
require_param command_cwd = true
require_param command_dele = true
require_param command_help = false
require_param command_list = false
require_param command_mkd = true
require_param command_nlst = false
require_param command_noop = false
require_param command_mode = true
require_param command_pass = true
require_param command_pasv = false
require_param command_port = true
require_param command_pwd = false
require_param command_quit = false
require_param command_retr = true
require_param command_rmd = true
require_param command_rnfr = true
require_param command_rnto = true
require_param command_stat = false
require_param command_stor = true
require_param command_stou = false
require_param command_stru = true
require_param command_syst = false
require_param command_type = false
require_param command_user = true
require_param command_auth = true
require_param command_pbsz = true
require_param command_prot = true
require_param command_feat = false
require_param command_opts = false
require_param command_eprt = true
require_param command_epsv = false
require_param command_lang = true
require_param command_mdtm = true
require_param command_mlsd = false
require_param command_mlst = true
require_param command_size = true
require_param command_reject = false

-- `RequireAuth`
unfoldable pub require_auth : Handler → Bool
require_auth command_abor = true
require_auth command_acct = true
require_auth command_allo = true
require_auth command_appe = true
require_auth command_cdup = true
require_auth command_cwd = true
require_auth command_dele = true
require_auth command_help = true
require_auth command_list = true
require_auth command_mkd = true
require_auth command_nlst = true
require_auth command_noop = false
require_auth command_mode = true
require_auth command_pass = false
require_auth command_pasv = true
require_auth command_port = true
require_auth command_pwd = true
require_auth command_quit = false
require_auth command_retr = true
require_auth command_rmd = true
require_auth command_rnfr = true
require_auth command_rnto = true
require_auth command_stat = true
require_auth command_stor = true
require_auth command_stou = true
require_auth command_stru = true
require_auth command_syst = true
require_auth command_type = true
require_auth command_user = false
require_auth command_auth = false
require_auth command_pbsz = false
require_auth command_prot = false
require_auth command_feat = false
require_auth command_opts = false
require_auth command_eprt = true
require_auth command_epsv = true
require_auth command_lang = false
require_auth command_mdtm = true
require_auth command_mlsd = true
require_auth command_mlst = true
require_auth command_size = true
require_auth command_reject = false

-- `FeatureParam`, where a handler has it.
unfoldable pub feature_param : Handler → Option Bytes
feature_param command_auth = some (codes "TLS")
feature_param command_lang = some (codes "EN*")
feature_param command_mlst = some (codes "Type*,Modify*,Size*,Perm*")
feature_param _ = none

-- The map `commands`; a nil entry is `none`.
unfoldable pub commands : Map (Option Handler)
commands =
    (codes "ABOR", some command_abor)
    ∷ (codes "ACCT", some command_acct)
    ∷ (codes "ALLO", some command_allo)
    ∷ (codes "APPE", some command_appe)
    ∷ (codes "CDUP", some command_cdup)
    ∷ (codes "CWD", some command_cwd)
    ∷ (codes "DELE", some command_dele)
    ∷ (codes "HELP", some command_help)
    ∷ (codes "LIST", some command_list)
    ∷ (codes "MKD", some command_mkd)
    ∷ (codes "NLST", some command_nlst)
    ∷ (codes "NOOP", some command_noop)
    ∷ (codes "MODE", some command_mode)
    ∷ (codes "PASS", some command_pass)
    ∷ (codes "PASV", some command_pasv)
    ∷ (codes "PORT", some command_port)
    ∷ (codes "PWD", some command_pwd)
    ∷ (codes "QUIT", some command_quit)
    ∷ (codes "RETR", some command_retr)
    ∷ (codes "RMD", some command_rmd)
    ∷ (codes "RNFR", some command_rnfr)
    ∷ (codes "RNTO", some command_rnto)
    ∷ (codes "SITE", none)
    ∷ (codes "STAT", some command_stat)
    ∷ (codes "STOR", some command_stor)
    ∷ (codes "STOU", some command_stou)
    ∷ (codes "STRU", some command_stru)
    ∷ (codes "SYST", some command_syst)
    ∷ (codes "TYPE", some command_type)
    ∷ (codes "USER", some command_user)
    ∷ (codes "ADAT", none)
    ∷ (codes "AUTH", some command_auth)
    ∷ (codes "CCC", none)
    ∷ (codes "CONF", none)
    ∷ (codes "ENC", none)
    ∷ (codes "MIC", none)
    ∷ (codes "PBSZ", some command_pbsz)
    ∷ (codes "PROT", some command_prot)
    ∷ (codes "FEAT", some command_feat)
    ∷ (codes "OPTS", some command_opts)
    ∷ (codes "EPRT", some command_eprt)
    ∷ (codes "EPSV", some command_epsv)
    ∷ (codes "LANG", some command_lang)
    ∷ (codes "MDTM", some command_mdtm)
    ∷ (codes "MLSD", some command_mlsd)
    ∷ (codes "MLST", some command_mlst)
    ∷ (codes "SIZE", some command_size)
    ∷ (codes "GET", some command_reject)
    ∷ (codes "HEAD", some command_reject)
    ∷ (codes "POST", some command_reject)
    ∷ (codes "PUT", some command_reject)
    ∷ (codes "DELETE", some command_reject)
    ∷ (codes "CONNECT", some command_reject)
    ∷ (codes "OPTIONS", some command_reject)
    ∷ (codes "TRACE", some command_reject)
    ∷ (codes "PATCH", some command_reject)
    ∷ []

-- `commands[name]`, with a missing key and a nil entry taken together.
unfoldable pub find_handler : Bytes → Option Handler
unfolding commands
find_handler name = elim (lookup name commands) [ none ↦ none | some h ↦ h ]
