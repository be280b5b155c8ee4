-- ===== src/Tls/Tests.antt =====
-- ftp/server.go and ftp/conn.go: a certificate for explicit TLS on a server with a certificate of its own.
use s3ftpgateway.Base.{ℕ, false, [], ◌∷◌, Bytes, Result, ok}
use s3ftpgateway.Tls.{TlsConfig, Certificate}

abbrev load : Bytes → Bytes → Result ℕ Certificate
load cert_file key_file = ok 7

-- A server with a certificate of its own.
abbrev server : TlsConfig
server = record { certificates = 3 ∷ []; has_get_certificate = false; next_protos = [] }
