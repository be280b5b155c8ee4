-- ===== src/Serve/Tests.antt =====
-- ftp/conn.go: `serve` for a client of an anonymous server whose files are a map.
use s3ftpgateway.Base.{ℕ, ◌≡◌, refl, false, some, [], ◌∷◌, Bytes, codes, beq, arith}
use s3ftpgateway.Command.{command_string, find_handler, require_param, require_auth}
use s3ftpgateway.GoMap.{lookup}
use s3ftpgateway.Text.{to_upper}
use s3ftpgateway.MapFs.{Store}
use s3ftpgateway.Serve.Reached.{Follows, rest, serve-Reach}
use s3ftpgateway.Serve.Script.{Request, IsRequest, encode_requests, script, serve-script, EndsWith}
use s3ftpgateway.Serve.Sent.{Adds, serve-sent}
use s3ftpgateway.Serve.Texts.{Sent, AreClean, texts}
use s3ftpgateway.Serve.Total.{Returned, serve-Returned}
use s3ftpgateway.Serve.{Serving, Round, after_events, begins_tls, serve}
use s3ftpgateway.Session.Run.{new_conn, Reach, exec_command, exec_handler, execute}
use s3ftpgateway.Session.Account.{exec_noop}
use s3ftpgateway.Session.Sample.{quiet, server}
use s3ftpgateway.Telnet.Wire.{byte, will}
use s3ftpgateway.Telnet.{TelnetConn, eof}

-- Nothing goes on beside the loop, and a handshake fails at once.
abbrev alone : ℕ → Round Store
alone n = record { env = quiet; arriving = []; leaving = []; handshake_leaves = λ bs. bs }

abbrev conn : Bytes → TelnetConn
conn bs = record {
  input = bs;
  end_of_input = eof;
  willopt = [];
  doopt = [];
  buffered = [];
  sent = [];
  broken = false;
}

-- A command that breaks off.
serve-Returned_example : Returned (serve server alone (conn (codes "QUI")) [])
serve-Returned_example = serve-Returned server alone (λ n bs. omega arith) (conn (codes "QUI")) []

alone-Follows : Follows server alone
unfolding after_events
alone-Follows = record { arrives = λ n c. rest; leaves = λ n c. rest }

serve-Reach_example :
    (s : Serving Store) × (serve server alone (conn (codes "NOOP\r\n")) [] ≡ some s)
    × Reach server s.session
serve-Reach_example =
    serve-Reach server alone alone-Follows (conn (codes "NOOP\r\n")) [] (λ n bs. omega arith)

-- An offer of option 1 in front of NOOP, and QUIT.
abbrev noop : Request
noop = record {
  items = will 1 ∷ byte 78 ∷ byte 79 ∷ byte 79 ∷ byte 80 ∷ byte 13 ∷ [];
  command = record { name = codes "NOOP"; arg = [] };
}

abbrev quit : Request
quit = record {
  items = byte 81 ∷ byte 85 ∷ byte 73 ∷ byte 84 ∷ byte 13 ∷ [];
  command = record { name = codes "QUIT"; arg = [] };
}

noop-IsRequest : IsRequest noop
unfolding codes command_string begins_tls find_handler beq lookup to_upper
noop-IsRequest = record {
  line = ground arith;
  text = refl;
  short = omega arith;
  named = λ e. ground arith;
  word = ground arith;
  trimmed = ground arith;
  plain = refl;
}

quit-IsRequest : IsRequest quit
unfolding codes command_string begins_tls find_handler beq lookup to_upper
quit-IsRequest = record {
  line = ground arith;
  text = refl;
  short = omega arith;
  named = λ e. ground arith;
  word = ground arith;
  trimmed = ground arith;
  plain = refl;
}

serve-script_example :
    EndsWith
      (script server alone 0 (noop ∷ quit ∷ []) (new_conn []))
      (serve server alone (conn (encode_requests (noop ∷ quit ∷ []))) [])
serve-script_example =
    serve-script server alone (noop ∷ quit ∷ []) (conn (encode_requests (noop ∷ quit ∷ []))) []
      (noop-IsRequest, (quit-IsRequest, tt)) refl

-- The same without the option.
abbrev plain_noop : Request
plain_noop = record {
  items = byte 78 ∷ byte 79 ∷ byte 79 ∷ byte 80 ∷ byte 13 ∷ [];
  command = record { name = codes "NOOP"; arg = [] };
}

plain_noop-IsRequest : IsRequest plain_noop
unfolding codes command_string begins_tls find_handler beq lookup to_upper
plain_noop-IsRequest = record {
  line = ground arith;
  text = refl;
  short = omega arith;
  named = λ e. ground arith;
  word = ground arith;
  trimmed = ground arith;
  plain = refl;
}

alone-Adds : Adds alone
alone-Adds = record { arrives = λ n. tt; leaves = λ n. tt }

unsent : Sent [] (conn (encode_requests (plain_noop ∷ [])))
unsent = record {
  ready = record { works = refl; no_will = refl; no_do = refl };
  flushed = refl;
  bytes = refl;
}

noop-AreClean : AreClean (script server alone 0 (plain_noop ∷ []) (new_conn [])).replies
unfolding script after_events exec_command find_handler lookup beq codes exec_handler require_param
    require_auth execute exec_noop
noop-AreClean = ground arith

noop-open : (script server alone 0 (plain_noop ∷ []) (new_conn [])).closed ≡ false
unfolding script after_events exec_command find_handler lookup beq codes exec_handler require_param
    require_auth execute exec_noop
noop-open = ground arith

serve-sent_example :
    (s : Serving Store) × (serve server alone (conn (encode_requests (plain_noop ∷ []))) []
      ≡ some s)
    × (s.conn.sent ≡ texts (script server alone 0 (plain_noop ∷ []) (new_conn [])).replies)
serve-sent_example =
    serve-sent server alone alone-Adds (plain_noop ∷ []) (conn (encode_requests (plain_noop ∷ [])))
      [] (plain_noop-IsRequest, tt) (refl, refl, tt) refl unsent noop-AreClean noop-open
