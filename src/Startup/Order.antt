-- ===== src/Startup/Order.antt =====
-- The calls of the startup, in their order (src/writer.rs, src/inprocess.rs).
use squeuelite_rs.Common.{
  ◌≡◌, refl, sym, subst, Bool, true, false, List, [], ◌∷◌, ◌++◌, Text, codes, Result, ok, err,
  map_err,
}
use squeuelite_rs.Config.{GatewayConfig}
use squeuelite_rs.Config.Pragma.{journal_value, sync_value}
use squeuelite_rs.Error.{SqlError, Error, sqlite, migration}
use squeuelite_rs.Writer.{Writer}
use squeuelite_rs.Startup.{
  Setup, pragma_update_and_check, busy_timeout, pragma_update, pragma_update_integer, execute_batch,
  commits_ddl, requests_ddl, flag, apply_pragmas, run_migrations, open_with_config, migrate,
  proceeding, started, started_writer, set_foreign_keys, set_synchronous, set_busy_timeout,
}

-- The calls that a configuration asks for.
abbrev pub table_if : Bool → Text → List Setup
table_if true ddl = execute_batch ddl ∷ []
table_if false ddl = []

abbrev pub pragma_calls : GatewayConfig → List Setup
pragma_calls config =
    pragma_update_and_check (codes "journal_mode") (journal_value config.journal_mode)
    ∷ busy_timeout config.busy_timeout_ms
    ∷ pragma_update (codes "synchronous") (sync_value config.synchronous)
    ∷ pragma_update_integer (codes "foreign_keys") (flag config.foreign_keys)
    ∷ []

abbrev pub calls : GatewayConfig → List Setup
calls config =
    pragma_calls config
    ++ (table_if config.track_commits commits_ddl ++ table_if config.idempotency requests_ddl)

module _ {C : Type 0} (perform : Setup → C → Result (Unit {0}) SqlError × C) where
  -- All the calls, each on what the one before left, if none is refused.
  abbrev pub Performed : List Setup → C → C → Type 0
  Performed [] c d = c ≡ d
  Performed (call ∷ rest) c d = ((perform call c).0 ≡ ok tt) × Performed rest (perform call c).1 d

  Performed-append :
      (xs ys : List Setup) (c d e : C)
      → Performed xs c d
      → Performed ys d e
      → Performed (xs ++ ys) c e
  Performed-append [] ys c d e h k = subst (λ t. Performed ys t e) (sym h) k
  Performed-append (call ∷ xs) ys c d e (done, h) k =
      (done, Performed-append xs ys (perform call c).1 d e h k)

  first_then :
      (wrap : SqlError → Error) (next : C → Result (Unit {0}) Error × C) (rest : List Setup)
      (r : Result (Unit {0}) SqlError × C)
      → ((d : C) → (next d).0 ≡ ok tt → Performed rest d (next d).1)
      → (proceeding perform next (map_err wrap r.0, r.1)).0 ≡ ok tt
      → (r.0 ≡ ok tt) × Performed rest r.1 (proceeding perform next (map_err wrap r.0, r.1)).1
  first_then wrap next rest (ok _, c) later h = (refl, later c h)
  first_then wrap next rest (err e, c) later h = cc

  only :
      (wrap : SqlError → Error) (r : Result (Unit {0}) SqlError)
      → map_err wrap r ≡ ok tt
      → r ≡ ok tt
  only wrap (ok _) h = refl
  only wrap (err e) h = cc

  apply_pragmas-Performed :
      (config : GatewayConfig) (c : C)
      → (apply_pragmas perform config c).0 ≡ ok tt
      → Performed (pragma_calls config) c (apply_pragmas perform config c).1
  unfolding apply_pragmas
  apply_pragmas-Performed config c =
      let last = pragma_update_integer (codes "foreign_keys") (flag config.foreign_keys) in
      let third = pragma_update (codes "synchronous") (sync_value config.synchronous) in
      let second = busy_timeout config.busy_timeout_ms in
      let first =
        pragma_update_and_check (codes "journal_mode") (journal_value config.journal_mode) in
      first_then sqlite (set_busy_timeout perform config) (second ∷ third ∷ last ∷ [])
        (perform first c)
        λ c1.
          first_then sqlite (set_synchronous perform config) (third ∷ last ∷ []) (perform second c1)
            λ c2.
              first_then sqlite (set_foreign_keys perform config) (last ∷ []) (perform third c2)
                λ c3 h. (only sqlite (perform last c3).0 h, refl)

  migrate-Performed :
      (b : Bool) (ddl : Text) (c : C)
      → (migrate perform b ddl c).0 ≡ ok tt
      → Performed (table_if b ddl) c (migrate perform b ddl c).1
  migrate-Performed true ddl c h = (only (λ e. migration e.message) _ h, refl)
  migrate-Performed false ddl c h = refl

  -- Two steps in a row.
  both :
      (next : C → Result (Unit {0}) Error × C) (r : Result (Unit {0}) Error × C)
      → (proceeding perform next r).0 ≡ ok tt
      → (r.0 ≡ ok tt) × ((next r.1).0 ≡ ok tt) × ((next r.1).1 ≡ (proceeding perform next r).1)
  both next (ok _, c) h = (refl, h, refl)
  both next (err e, c) h = cc

  run_migrations-Performed :
      (track idempotency : Bool) (c : C)
      → (run_migrations perform track idempotency c).0 ≡ ok tt
      → Performed
          (table_if track commits_ddl ++ table_if idempotency requests_ddl)
          c
          (run_migrations perform track idempotency c).1
  unfolding run_migrations
  run_migrations-Performed track idempotency c h =
      let r = migrate perform track commits_ddl c in
      let (first, second, left) = both (migrate perform idempotency requests_ddl) r h in
      Performed-append (table_if track commits_ddl) (table_if idempotency requests_ddl) c r.1 _
        (migrate-Performed track commits_ddl c first)
        (subst (Performed (table_if idempotency requests_ddl) r.1) left
          (migrate-Performed idempotency requests_ddl r.1 second))

  -- The writer of a connection and a configuration.
  abbrev pub Fresh : GatewayConfig → C → Writer C → Type 0
  Fresh config d w =
      (w.conn ≡ d)
      × (w.config ≡ config)
      × (w.track_commits ≡ config.track_commits)
      × (w.idempotency ≡ config.idempotency)
      × (w.latency_buf ≡ [])

  started-Fresh :
      (config : GatewayConfig) (r : Result (Unit {0}) Error × C) (w : Writer C)
      → started perform config r ≡ ok w
      → (r.0 ≡ ok tt) × Fresh config r.1 w
  started-Fresh config (ok _, d) w h =
      let e : started_writer config d ≡ w = cc in
      (refl, subst (Fresh config d) e (refl, refl, refl, refl, refl))
  started-Fresh config (err m, d) w h = cc

  -- A gateway that opens has set its pragmas, in the documented order, and then made the tables of
  -- its configuration, with none of these calls refused; its writer has the connection that they
  -- leave, the settings of the configuration, and no latencies.
  pub open_with_config-Performed :
      (config : GatewayConfig) (c : C) (w : Writer C)
      → open_with_config perform config (ok c) ≡ ok w
      → (d : C) × Performed (calls config) c d × Fresh config d w
  unfolding open_with_config
  open_with_config-Performed config c w h =
      let p = apply_pragmas perform config c in
      let migrations = run_migrations perform config.track_commits config.idempotency in
      let (done, fresh) = started-Fresh config (proceeding perform migrations p) w h in
      let (pragmas, tables, left) = both migrations p done in
      (
        _,
        Performed-append (pragma_calls config) _ c p.1 _ (apply_pragmas-Performed config c pragmas)
            (subst (Performed _ p.1) left
              (run_migrations-Performed config.track_commits config.idempotency p.1 tables)),
        fresh,
      )
