-- ===== src/Net/Tests.antt =====
-- ftp/server.go: a session id.
use s3ftpgateway.Base.{◌≡◌, refl, some, [], ◌∷◌, codes}
use s3ftpgateway.Net.{session_id}

session_id_runs : session_id (some (1 ∷ 171 ∷ 0 ∷ 255 ∷ [])) ≡ codes "01ab00ff"
unfolding session_id codes
session_id_runs = refl
