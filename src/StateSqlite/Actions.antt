-- ===== src/StateSqlite/Actions.antt =====
-- Actions on the tables that may throw, and transactions
-- (packages/state-sqlite/src/index.ts).
use map_data_aggregation_enh.Base.{String, Bool, true, false, Result, ok, err, ◌≡◌, refl, arith}
use map_data_aggregation_enh.StateSqlite.Tables.{Db}

pub data StoreError : Type 0 where
  constraint_failed : StoreError
  run_not_running stage_has_running_attempt : String → StoreError
  attempt_not_running bad_expected_stages unfinished_stages no_running_run : StoreError
  unserializable_value checkpoint_bound : StoreError

-- What was written before a throw stays written, unless a transaction is rolled back.
abbrev pub Action : Type 0 → Type 0
Action A = Db → Result StoreError A × Db

abbrev pub continue :
    {A B : Type 0} → Result StoreError A × Db → (A → Action B) → Result StoreError B × Db
continue (ok a, db) f = f a db
continue (err e, db) f = (err e, db)

infixl 5 ◌>>=◌ ◌>>◌
abbrev pub ◌>>=◌ : {A B : Type 0} → Action A → (A → Action B) → Action B
◌>>=◌ m f db = continue (m db) f

abbrev pub ◌>>◌ : {A B : Type 0} → Action A → Action B → Action B
m >> k = m >>= λ _. k

abbrev pub pure : {A : Type 0} → A → Action A
pure a db = (ok a, db)

abbrev pub throw : {A : Type 0} → StoreError → Action A
throw e db = (err e, db)

-- `if (test) throw error`
abbrev pub throw_if : Bool → StoreError → Action (Unit {0})
throw_if true e db = (err e, db)
throw_if false e db = (ok tt, db)

abbrev pub settle : {A : Type 0} → Db → Result StoreError A × Db → Result StoreError A × Db
settle before (ok a, db) = (ok a, db)
settle before (err e, db) = (err e, before)

-- BEGIN IMMEDIATE … COMMIT, with ROLLBACK in the handler.
unfoldable pub transaction : {A : Type 0} → Action A → Action A
transaction m db = settle db (m db)

-- An action that throws leaves the tables as they were.
abbrev pub IsAtomic : {A : Type 0} → Action A → Type 0
IsAtomic m = (db : Db) (e : StoreError) → (m db).0 ≡ err e → (m db).1 ≡ db

settle-err :
    {A : Type 0} (before : Db) (r : Result StoreError A × Db) {e : StoreError}
    → (settle before r).0 ≡ err e
    → (settle before r).1 ≡ before
settle-err before (ok a, db) h = cc
settle-err before (err e, db) h = refl

pub transaction-IsAtomic : {A : Type 0} (m : Action A) → IsAtomic (transaction m)
unfolding transaction
transaction-IsAtomic m db e h = settle-err db (m db) h

pub guard-IsAtomic :
    {A : Type 0} (b : Bool) (e : StoreError) (m : Action A)
    → IsAtomic m
    → IsAtomic (throw_if b e >> m)
guard-IsAtomic true e m a db x h = refl
guard-IsAtomic false e m a db x h = a db x h

continue-pure :
    {A B : Type 0} (r : Result StoreError A × Db) (b : B) (db : Db) {e : StoreError}
    → (r.0 ≡ err e → r.1 ≡ db)
    → (continue r (λ _. pure b)).0 ≡ err e
    → (continue r (λ _. pure b)).1 ≡ db
continue-pure (ok a, db') b db a_ok h = cc
continue-pure (err x, db') b db a_err h = a_err (ground arith)

-- The value that an action returns is dropped.
pub pure-IsAtomic : {A B : Type 0} (m : Action A) (b : B) → IsAtomic m → IsAtomic (m >> pure b)
pure-IsAtomic m b a db e h = continue-pure (m db) b db (a db e) h
