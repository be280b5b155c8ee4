-- ===== src/Logging/Masked.antt =====
-- What is logged of a line with a password: ftp/conn.go and ftp/logger.go.
use s3ftpgateway.Base.{◌≡◌, refl, ◌≢◌, sym, ◌∙◌, [], ◌∷◌, ◌++◌, Bytes, beq_refl, codes}
use s3ftpgateway.Command.Name.{IsSolid, parse_command-name}
use s3ftpgateway.Command.{Command, parse_command}
use s3ftpgateway.Logging.{Logger, log_command}
use s3ftpgateway.Text.{to_upper}

log_command-masked :
    (l : Logger) (session_id : Bytes) (cmd : Command)
    → cmd.name ≡ codes "PASS"
    → log_command l session_id cmd ≡ l.print_command session_id (codes "PASS") (codes "****")
unfolding log_command
log_command-masked l session_id cmd e = rw (e, beq_refl (codes "PASS")) refl

ne-nil : (w : Bytes) → to_upper w ≡ codes "PASS" → w ≢ []
unfolding to_upper codes
ne-nil [] e f = cc e
ne-nil (b ∷ bs) e f = cc f

-- Whatever logger is used: two lines that begin with the word PASS, in capital or small letters,
-- and a space are logged alike, whatever stands behind the space.
pub log_command-pass :
    (l : Logger) (session_id w p p' : Bytes)
    → IsSolid w
    → to_upper w ≡ codes "PASS"
    → log_command l session_id (parse_command (w ++ b' ' ∷ p))
      ≡ log_command l session_id (parse_command (w ++ b' ' ∷ p'))
log_command-pass l session_id w p p' solid pass =
    log_command-masked l session_id (parse_command (w ++ b' ' ∷ p))
      (parse_command-name w p (ne-nil w pass) solid ∙ pass)
    ∙ sym (
        log_command-masked l session_id (parse_command (w ++ b' ' ∷ p'))
          (parse_command-name w p' (ne-nil w pass) solid ∙ pass))
