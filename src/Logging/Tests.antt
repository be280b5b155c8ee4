-- ===== src/Logging/Tests.antt =====
-- ftp/logger.go: lines of the log.
use s3ftpgateway.Base.{◌≡◌, refl, [], ◌∷◌, arith, beq, codes}
use s3ftpgateway.Command.{parse_command}
use s3ftpgateway.Logging.Masked.{log_command-pass}
use s3ftpgateway.Logging.{std_logger, log_command}
use s3ftpgateway.Text.{to_upper, trim_space}

pass_upper : to_upper (112 ∷ 97 ∷ 115 ∷ 115 ∷ []) ≡ codes "PASS"
unfolding to_upper codes
pass_upper = refl

-- The word in small letters.
log_command-pass_example :
    log_command std_logger (codes "1") (parse_command (112 ∷ 97 ∷ 115 ∷ 115 ∷ b' ' ∷ codes "x"))
    ≡ log_command std_logger (codes "1") (parse_command (112 ∷ 97 ∷ 115 ∷ 115 ∷ b' ' ∷ codes "yz"))
log_command-pass_example =
    log_command-pass std_logger (codes "1") (112 ∷ 97 ∷ 115 ∷ 115 ∷ []) (codes "x") (codes "yz")
      (ground arith) pass_upper

log_command-pass_line :
    log_command std_logger (codes "1") (parse_command (codes "pass x")) ≡ codes "1 > PASS ****" ∷ []
unfolding log_command parse_command trim_space to_upper beq codes
log_command-pass_line = refl
