-- ===== src/Session/Stored.antt =====
-- ftp/command.go: STOR and RETR, with their goroutines, over a file system that keeps what it is given.
use s3ftpgateway.Base.{◌≡◌, refl, ap, ◌∙◌, true, some, List, [], ◌∷◌, ◌++◌, Bytes, ok, arith}
use s3ftpgateway.Session.Transfer.{exec_stor, exec_retr, run_task}
use s3ftpgateway.Session.{
  DataConn, DataTransfer, dt_active, Env, Server, Session, Task, file_system, set_data_transfer,
  data_conn,
}
use s3ftpgateway.Vfs.{FileSystem, Keeps}

module _ {S : Type 0} (env : Env) (srv : Server S) where
  -- The goroutines end one after the other.
  abbrev run_tasks : List (Task S) → Session S → Session S
  run_tasks [] c = c
  run_tasks (t ∷ ts) c = run_tasks ts (run_task env srv t c)

  abbrev pub settle : Session S → Session S
  settle c = run_tasks c.tasks (record c { tasks = [] })

module _ {S : Type 0} (srv : Server S) (fs : FileSystem S) where
  file_system-auth : (c c' : Session S) → c.auth ≡ c'.auth → file_system srv c ≡ file_system srv c'
  unfolding file_system
  file_system-auth c c' e = rw e refl

  -- What a client has done once its upload has ended.
  pub settle-stor :
      (env : Env) (name : Bytes) (c : Session S) (conn : DataConn) (dt : DataTransfer) (s' : S)
      → file_system srv c ≡ some fs
      → c.tasks ≡ []
      → data_conn env c.dt ≡ some (conn, dt)
      → fs.create c.store name conn.incoming ≡ (ok tt, s')
      → ((settle env srv (exec_stor env srv name c)).store ≡ s')
        × ((settle env srv (exec_stor env srv name c)).tasks ≡ [])
        × ((settle env srv (exec_stor env srv name c)).outgoing ≡ c.outgoing)
        × ((settle env srv (exec_stor env srv name c)).auth ≡ c.auth)
  unfolding exec_stor run_task file_system
  settle-stor env name c conn dt s' files idle opened created =
      ground (arith, files, idle, opened, created)

  -- What a client gets over a new data connection.
  pub settle-retr :
      (env : Env) (name content : Bytes) (c : Session S) (conn : DataConn)
      → file_system srv c ≡ some fs
      → c.tasks ≡ []
      → fs.open_file c.store name ≡ ok content
      → conn.writable ≡ true
      → ((settle env srv (exec_retr env srv name (set_data_transfer (dt_active conn) c))).outgoing
          ≡ c.outgoing ++ content ∷ [])
        × ((settle env srv (exec_retr env srv name (set_data_transfer (dt_active conn) c))).store
            ≡ c.store)
  unfolding exec_retr run_task file_system
  settle-retr env name content c conn files idle opened takes =
      ground (arith, files, idle, opened, takes)

  -- On a server whose file system gives behind a successful Create what was stored: when STOR of a
  -- name and its goroutine have ended with the store created from what came over the data
  -- connection, then RETR of the name over a new connection that takes data sends exactly these
  -- bytes and leaves the store as it is.
  pub settle-stor_retr :
      (keeps : Keeps fs) (env env' : Env) (name : Bytes) (c : Session S) (conn conn' : DataConn)
      (dt : DataTransfer) (s' : S)
      → file_system srv c ≡ some fs
      → c.tasks ≡ []
      → data_conn env c.dt ≡ some (conn, dt)
      → fs.create c.store name conn.incoming ≡ (ok tt, s')
      → conn'.writable ≡ true
      → let stored = settle env srv (exec_stor env srv name c) in
        let c' =
          settle env' srv (exec_retr env' srv name (set_data_transfer (dt_active conn') stored)) in
        (c'.outgoing ≡ c.outgoing ++ conn.incoming.content ∷ []) × (c'.store ≡ s')
  settle-stor_retr keeps env env' name c conn conn' dt s' files idle opened created takes =
      let stored : Session S = settle env srv (exec_stor env srv name c) in
      let up = settle-stor env name c conn dt s' files idle opened created in
      let down =
        settle-retr env' name conn.incoming.content stored conn'
          (file_system-auth stored c up.3 ∙ files) up.1
          (ap (λ s. fs.open_file s name) up.0 ∙ keeps.gives c.store s' name conn.incoming created)
          takes in
      (down.0 ∙ ap (λ o. o ++ conn.incoming.content ∷ []) up.2, down.1 ∙ up.0)
