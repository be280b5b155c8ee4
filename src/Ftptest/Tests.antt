-- ===== src/Ftptest/Tests.antt =====
-- ftp/ftptest/server.go: a server on a listener that is a number.
use s3ftpgateway.Base.{ℕ, Option, ◌≡◌, refl, none, some, [], ◌∷◌, Bytes, Result, ok, beq, codes}
use s3ftpgateway.Ftptest.{TestServer, new_server}
use s3ftpgateway.MapFs.{Store, map_fs}

abbrev key_pair : Result Bytes ℕ
key_pair = ok 5

abbrev parse : ℕ → Result Bytes ℕ
parse n = ok n

abbrev url_of : Option (TestServer Store ℕ ℕ) → Bytes
url_of none = []
url_of (some s) = s.url

new_server_runs :
    url_of (new_server key_pair parse (λ n. n ∷ []) (λ n config. n) 65 map_fs) ≡ codes "ftp://A"
unfolding new_server codes beq
new_server_runs = refl
