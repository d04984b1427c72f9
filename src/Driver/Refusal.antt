-- ===== src/Driver/Refusal.antt =====
-- A call of transaction control that the driver refuses where the call is in place.
use squeuelite_rs.Common.{◌≡◌, Text, ok, err}
use squeuelite_rs.Error.{SqlError}
use squeuelite_rs.Statements.{savepoint, release}
use squeuelite_rs.Driver.{Driver}
use squeuelite_rs.Driver.Snapshots.{idle, in_tx, in_savepoint}
use squeuelite_rs.Driver.Laws.{Semantics, Laws}

module _ {C D : Type 0} {driver : Driver C} {meaning : Semantics D} {IsPlain : Text → Type 0} where
  -- BEGIN with no transaction open, COMMIT and SAVEPOINT in a transaction, RELEASE of the savepoint
  -- that is open: each may still fail, with SQLITE_BUSY for one.
  pub data Refusal (laws : Laws driver meaning IsPlain) : Type 0 where
    begin :
        (c : C) (x : D) (e : SqlError)
        → laws.state c ≡ idle x
        → (driver.begin_immediate c).0 ≡ err e
        → Refusal laws
    commit :
        (c : C) (x o : D) (e : SqlError)
        → laws.state c ≡ in_tx x o
        → (driver.commit c).0 ≡ err e
        → Refusal laws
    save :
        (c : C) (name : Text) (x o : D) (e : SqlError)
        → laws.state c ≡ in_tx x o
        → (driver.execute_batch (savepoint name) c).0 ≡ err e
        → Refusal laws
    let_go :
        (c : C) (name : Text) (x o p : D) (e : SqlError)
        → laws.state c ≡ in_savepoint name x o p
        → (driver.execute_batch (release name) c).0 ≡ err e
        → Refusal laws

  -- A driver that takes each of these calls where it is in place. Of a call out of place, such as
  -- a BEGIN in a transaction, nothing is asked.
  pub record Willing (laws : Laws driver meaning IsPlain) : Type 0 where
    pub begins : (c : C) (x : D) → laws.state c ≡ idle x → (driver.begin_immediate c).0 ≡ ok tt
    pub commits : (c : C) (x o : D) → laws.state c ≡ in_tx x o → (driver.commit c).0 ≡ ok tt
    pub saves :
        (c : C) (name : Text) (x o : D)
        → laws.state c ≡ in_tx x o
        → (driver.execute_batch (savepoint name) c).0 ≡ ok tt
    pub lets_go :
        (c : C) (name : Text) (x o p : D)
        → laws.state c ≡ in_savepoint name x o p
        → (driver.execute_batch (release name) c).0 ≡ ok tt

  pub not-Refusal : {laws : Laws driver meaning IsPlain} → Willing laws → Refusal laws → ⊥
  not-Refusal h (begin c x e s p) = cc (h.begins c x s)
  not-Refusal h (commit c x o e s p) = cc (h.commits c x o s)
  not-Refusal h (save c name x o e s p) = cc (h.saves c name x o s)
  not-Refusal h (let_go c name x o p e s q) = cc (h.lets_go c name x o p s)
