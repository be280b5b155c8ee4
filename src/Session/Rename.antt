-- ===== src/Session/Rename.antt =====
-- The goroutine of RNTO in ftp/command.go, on the files of vfs/mapfs/mapfs.go.
use s3ftpgateway.Base.{◌≡◌, ap, false, Bytes, beq_refl, ok, err, arith}
use s3ftpgateway.GoMap.Laws.{lookup-insert}
use s3ftpgateway.MapFs.{Store, filename, map_fs, open_file, create, remove}
use s3ftpgateway.MapFs.Files.{open_file-remove}
use s3ftpgateway.Session.Transfer.{run_task}
use s3ftpgateway.Session.{Env, Server, Session, task_rename}
use s3ftpgateway.Vfs.{Reader, op_open, not_exist, path_error}

remove-create :
    (m m' : Store) (n : Bytes) (body : Reader)
    → create m n body ≡ (ok tt, m')
    → remove m' n ≡ (ok tt, (remove m' n).1)
unfolding create remove
remove-create m m' n body e =
    ground (arith, lookup-insert (filename n) (filename n) body.content m, beq_refl (filename n))

module _ (env : Env) (srv : Server Store) where
  -- On the map file system, when the goroutine of a rename of a name onto itself has stored the
  -- contents, it removes them: no file opens under the name afterwards.
  pub run_task-same_name :
      (n content : Bytes) (c : Session Store) (m' : Store)
      → create c.store n (record { content = content; fails = false }) ≡ (ok tt, m')
      → open_file (run_task env srv (task_rename map_fs n n content) c).store n
        ≡ err (path_error op_open (filename n) not_exist)
  unfolding run_task map_fs
  run_task-same_name n content c m' e =
      let gone =
        open_file-remove m' (remove m' n).1 n n
          (remove-create c.store m' n (record { content = content; fails = false }) e) in
      let stored : (create c.store n (record { content = content; fails = false })).1 ≡ m' =
        ap (λ r. r.1) e in
      rw (run_task, e, stored) (rw (beq_refl (filename n)) at gone)
