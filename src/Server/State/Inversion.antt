-- ===== src/Server/State/Inversion.antt =====
-- What a run of another component's operation, lifted to the server, went through.
use net_chat.Prelude.{◌≡◌, ap, Str}
use net_chat.Exec.{Exec, Result, ok}
use net_chat.Exec.Inversion.{within-inv}
use net_chat.Crypto.{sha256}
use net_chat.Server.State.{Env, Server, on_db, on_disk, on_van, digest}
use net_chat.Van.{Van}

module _ (env : Env) where
  open env use {sqlite, files}

  pub on_db-inv :
      {A : Type 0} (m : Exec sqlite.Db A) (s s' : Server env) (a : A)
      → on_db env m s ≡ (ok a, s')
      → (d : sqlite.Db) × (m s.db ≡ (ok a, d)) × (record s { db = d } ≡ s')
  on_db-inv m s s' a e = within-inv (λ s. s.db) (λ d s. record s { db = d }) m s s' a e

  pub on_db-run :
      {A : Type 0} (m : Exec sqlite.Db A) (s : Server env) (r : Result A) (d : sqlite.Db)
      → m s.db ≡ (r, d)
      → on_db env m s ≡ (r, record s { db = d })
  on_db-run m s r d e = ap (λ p. (p.0, record s { db = p.1 })) e

  pub on_disk-inv :
      {A : Type 0} (m : Exec files.Disk A) (s s' : Server env) (a : A)
      → on_disk env m s ≡ (ok a, s')
      → (d : files.Disk) × (m s.disk ≡ (ok a, d)) × (record s { disk = d } ≡ s')
  on_disk-inv m s s' a e = within-inv (λ s. s.disk) (λ d s. record s { disk = d }) m s s' a e

  pub on_van-inv :
      {A : Type 0} (m : Exec Van A) (s s' : Server env) (a : A)
      → on_van env m s ≡ (ok a, s')
      → (v : Van) × (m s.van ≡ (ok a, v)) × (record s { van = v } ≡ s')
  on_van-inv m s s' a e = within-inv (λ s. s.van) (λ v s. record s { van = v }) m s s' a e

  pub digest-inv :
      (text hashed : Str) (s s' : Server env)
      → digest env text s ≡ (ok hashed, s')
      → (sha256 env.sodium text ≡ ok hashed) × (s ≡ s')
  digest-inv text hashed s s' e = (ap (λ p. p.0) e, ap (λ p. p.1) e)
