-- ===== src/Logging.antt =====
-- ftp/logger.go, the loggers of ftp/server.go and ftp/conn.go, and logger.go: what is logged of a
-- command and of a reply. A log is the list of its lines, without their times.
mod Masked
mod Tests
use s3ftpgateway.Base.{ℕ, Option, none, some, List, [], ◌∷◌, ◌++◌, if◌then◌else◌, Bytes, beq, codes}
use s3ftpgateway.Command.{Command}
use s3ftpgateway.Text.{decimal}

-- `Logger`: what each call adds to the log; a message is its text.
pub record Logger : Type 0 where
  pub print : Bytes → Bytes → List Bytes
  pub print_command : Bytes → Bytes → Bytes → List Bytes
  pub print_response : Bytes → ℕ → Bytes → List Bytes

-- `stdLogger`
abbrev pub std_logger : Logger
std_logger = record {
  print = λ session_id message. (session_id ++ (codes "  " ++ message)) ∷ [];
  print_command = λ session_id command params.
      (session_id ++ (codes " > " ++ (command ++ (b' ' ∷ params)))) ∷ [];
  print_response = λ session_id code message.
      (session_id ++ (codes " < " ++ (decimal code ++ (b' ' ∷ message)))) ∷ [];
}

-- `discardLogger`
abbrev pub discard_logger : Logger
discard_logger = record {
  print = λ session_id message. [];
  print_command = λ session_id command params. [];
  print_response = λ session_id code message. [];
}

-- A line of logrus: the level info, a message, and fields by name.
pub record Entry : Type 0 where
  pub message : Bytes
  pub fields : List (Bytes × Bytes)

-- `logger` of the gateway; `format` is the formatter of logrus.
pub gateway_logger : (Entry → Bytes) → Logger
gateway_logger format = record {
  print = λ session_id message.
      format (record { message = message; fields = (codes "session_id", session_id) ∷ [] }) ∷ [];
  print_command = λ session_id command params.
      format (record {
        message = codes "command";
        fields =
            (codes "session_id", session_id)
            ∷ (codes "command", command)
            ∷ (codes "params", params)
            ∷ [];
      })
      ∷ [];
  print_response = λ session_id code message.
      format (record {
        message = codes "response";
        fields =
            (codes "session_id", session_id)
            ∷ (codes "code", decimal code)
            ∷ (codes "message", message)
            ∷ [];
      })
      ∷ [];
}

-- `logger` of `Server`
pub server_logger : Option Logger → Logger
server_logger none = std_logger
server_logger (some l) = l

-- The line of `execCommand`: the argument of PASS is not shown.
unfoldable pub log_command : Logger → Bytes → Command → List Bytes
log_command l session_id cmd =
    if beq cmd.name (codes "PASS")
    then l.print_command session_id cmd.name (codes "****")
    else l.print_command session_id cmd.name cmd.arg

-- The line of `WriteReply`: the first message.
unfoldable pub log_reply : Logger → Bytes → ℕ → List Bytes → List Bytes
log_reply l session_id code [] = l.print_response session_id code []
log_reply l session_id code (m ∷ ms) = l.print_response session_id code m
