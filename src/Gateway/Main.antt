-- ===== src/Gateway/Main.antt =====
-- main.go and version.go: the flags, and what the program goes on to do.
use s3ftpgateway.Base.{
  Bool, Option, none, some, [], ◌∷◌, ◌++◌, if◌then◌else◌, Bytes, beq, codes, Result, ok, err, not,
}
use s3ftpgateway.Gateway.{Config}

-- `getVersion`, from the version of the build and from `debug.ReadBuildInfo`.
unfoldable pub get_version : Bytes → Option Bytes → Bytes
get_version version info =
    if not (beq version []) then version else elim info [ none ↦ codes "unknown" | some v ↦ v ]

-- The text behind the version: `runtime.Version()`, the system and the architecture.
pub record Build : Type 0 where
  pub go_version : Bytes
  pub os : Bytes
  pub arch : Bytes

unfoldable pub version_line : Bytes → Build → Bytes
version_line version b =
    codes "s3ftpgateway version "
    ++ (version
        ++ (codes " built with "
            ++ (b.go_version ++ (b' ' ∷ (b.os ++ (b' ' ∷ (b.arch ++ b'\n' ∷ [])))))))

-- What `main` does behind the flags: it prints and returns, it ends with a fatal error, or it serves.
pub data Course (E : Type 0) : Type 0 where
  prints : Bytes → Course E
  config_missing : Course E
  fail_to_load_config : E → Course E
  serves : Config → Course E

-- `main`, from the flags -version and -config.
unfoldable pub main :
    {E : Type 0} → Bool → Bytes → Bytes → Build → (Bytes → Result E Config) → Course E
main show_version config version build load =
    if show_version
    then prints (version_line version build)
    else if beq config []
    then config_missing
    else elim (load config) [ err e ↦ fail_to_load_config e | ok c ↦ serves c ]
