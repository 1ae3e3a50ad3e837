-- ===== src/Persistence/UnitOfWork.antt =====
-- app/infrastructure/persistence/sql_unit_of_work.py: one transaction that nested `async with` blocks
-- share. A session reads and writes its own copy of the tables, which a commit makes the
-- database's and a rollback gives up. `D` is the type of the tables, `V` that of the variables that
-- the caller keeps beside them.
pub mod Nested
use clean_data_platform_airf.Prelude.{
  ℕ, ◌+◌, ◌-◌, String, Bool, true, false, ◌≡◌, refl, Option, none, some, if◌then◌else◌, eqb,
}
use clean_data_platform_airf.Errors.{PlatformError, Result, ok, err, runtime_error, is_err}

-- The database and the unit of work's fields; the session is what its transaction sees.
pub record Uow {ℓ} (D : Type ℓ) : Type ℓ where
  pub committed : D
  pub session : Option D
  pub depth : ℕ

-- `SqlUnitOfWork(session_factory)` over a database.
abbrev pub new_uow {ℓ} : {D : Type ℓ} → D → Uow D
new_uow d = record { committed = d; session = none; depth = 0 }

module _ {ℓ} {D : Type ℓ} where
  -- `_require_session`
  unfoldable pub require_session : Uow D → Result D
  require_session u = elim u.session [
    | none ↦ err (runtime_error "SqlUnitOfWork must be used as an async context manager")
    | some d ↦ ok d
  ]

  -- `__aenter__`
  unfoldable pub enter : Uow D → Uow D
  enter u =
      if eqb u.depth 0
      then record u { session = some u.committed; depth = u.depth + 1 }
      else record u { depth = u.depth + 1 }

  -- `commit`
  unfoldable pub commit_session : Uow D → Uow D × Result (Unit {0})
  unfolding require_session
  commit_session u = elim (require_session u) [
    | err e ↦ (u, err e)
    | ok d ↦ (record u { committed = d }, ok tt)
  ]

  -- `rollback`
  unfoldable pub rollback_session : Uow D → Uow D × Result (Unit {0})
  unfolding require_session
  rollback_session u = elim (require_session u) [
    | err e ↦ (u, err e)
    | ok d ↦ (record u { session = some u.committed }, ok tt)
  ]

  -- `if self._depth == 0 and self._session is not None: close`
  abbrev pub close_outermost : Uow D → Uow D
  close_outermost u = if eqb u.depth 0 then record u { session = none } else u

  -- `__aexit__`: the flag says that the block raised. A block that was entered has depth 1 at
  -- least, so the subtraction does not stop at 0.
  unfoldable pub exit : Bool → Uow D → Uow D × Result (Unit {0})
  unfolding rollback_session
  exit raised u =
      let u' = record u { depth = u.depth - 1 } in
      if raised
      then (close_outermost (rollback_session u').0, (rollback_session u').1)
      else (close_outermost u', ok tt)

-- A computation on the unit of work and the caller's variables, which may raise.
abbrev pub Action {ℓ} : Type ℓ → Type ℓ → Type ℓ → Type ℓ
Action D V A = Uow D × V → (Uow D × V) × Result A

module _ {ℓ} {D V : Type ℓ} where
  abbrev pub return_ : {A : Type ℓ} → A → Action D V A
  return_ a s = (s, ok a)

  abbrev pub raise_ : {A : Type ℓ} → PlatformError → Action D V A
  raise_ e s = (s, err e)

  abbrev pub then_with :
      {A B : Type ℓ} → (A → Action D V B) → (Uow D × V) × Result A → (Uow D × V) × Result B
  then_with next (s, err e) = (s, err e)
  then_with next (s, ok a) = next a s

  abbrev pub and_then : {A B : Type ℓ} → Action D V A → (A → Action D V B) → Action D V B
  and_then first next s = then_with next (first s)

  -- What a computation without state returns or raises.
  abbrev pub lift : {A : Type ℓ} → Result A → Action D V A
  lift r s = (s, r)

  -- A query on the session.
  unfoldable pub query : {A : Type ℓ} → (D → Result A) → Action D V A
  unfolding require_session
  query f (u, v) = elim (require_session u) [ err e ↦ ((u, v), err e) | ok d ↦ ((u, v), f d) ]

  -- A statement that writes, and its answer; one that raises writes nothing.
  abbrev pub executed : {A : Type ℓ} → Uow D → V → Result (D × A) → (Uow D × V) × Result A
  executed u v (err e) = ((u, v), err e)
  executed u v (ok (d, a)) = ((record u { session = some d }, v), ok a)

  unfoldable pub execute : {A : Type ℓ} → (D → Result (D × A)) → Action D V A
  unfolding require_session
  execute f (u, v) = elim (require_session u) [
    | err e ↦ ((u, v), err e)
    | ok d ↦ executed u v (f d)
  ]

  abbrev pub assign : (V → V) → Action D V V
  assign f (u, v) = ((u, f v), ok (f v))

  -- What is left when the session's own call may raise.
  abbrev pub keeping :
      {A : Type ℓ} → V → Result A → Uow D × Result (Unit {0}) → (Uow D × V) × Result A
  keeping v r (u, err e) = ((u, v), err e)
  keeping v r (u, ok done) = ((u, v), r)

  -- `await uow.commit()`, and an answer.
  unfoldable pub commit : {A : Type ℓ} → A → Action D V A
  unfolding commit_session
  commit a (u, v) = keeping v (ok a) (commit_session u)

  -- The end of a block: an exception of `__aexit__` replaces what the block returned or raised.
  unfoldable pub leave : {A : Type ℓ} → (Uow D × V) × Result A → (Uow D × V) × Result A
  unfolding exit
  leave ((u, v), r) = keeping v r (exit (is_err r) u)

  -- `async with self._uow as uow: body`
  unfoldable pub within : {A : Type ℓ} → Action D V A → Action D V A
  unfolding enter leave
  within body (u, v) = leave (body (enter u, v))
