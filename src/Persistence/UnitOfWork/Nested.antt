-- ===== src/Persistence/UnitOfWork/Nested.antt =====
-- Code that uses one unit of work in nested blocks, and what it does to the database.
use clean_data_platform_airf.Prelude.{ℕ, suc, ◌≡◌, refl, some, arith, ◌∙◌, ap}
use clean_data_platform_airf.Errors.{PlatformError, Result, ok, err, ◌>>=◌}
use clean_data_platform_airf.Persistence.UnitOfWork.{
  Uow, new_uow, require_session, enter, exit, rollback_session, commit_session, Action, executed,
  then_with, raise_, return_, raise_, and_then, execute, commit, within, leave,
}

-- A use case as the sequence of what it does with the unit of work: writes that may raise, commits,
-- blocks, and blocks under a `try` that swallows what they raise.
pub data Program (D : Type 0) : Type 0 where
  done : Program D
  raises : PlatformError → Program D
  writes : (D → Result D) → Program D → Program D
  commits : Program D → Program D
  block tried : Program D → Program D → Program D

module _ {D : Type 0} where
  abbrev pub swallow :
      {V : Type 0} → (Uow D × V) × Result (Unit {0}) → (Uow D × V) × Result (Unit {0})
  swallow (s, err e) = (s, ok tt)
  swallow (s, ok a) = (s, ok a)

  unfoldable pub run : Program D → Action D (Unit {0}) (Unit {0})
  unfolding within execute commit
  run done s = return_ tt s
  run (raises e) s = raise_ e s
  run (writes f next) s = and_then (execute λ d. f d >>= λ d'. ok (d', tt)) (λ x. run next) s
  run (commits next) s = and_then (commit tt) (λ x. run next) s
  run (block inner next) s = and_then (within (run inner)) (λ x. run next) s
  run (tried inner next) s = and_then (λ t. swallow (within (run inner) t)) (λ x. run next) s

  -- One transaction without sessions or depths: the committed tables, the tables with what was
  -- written since, and how it ended. A block that raises gives up every write since the last commit.
  abbrev pub undo : (D × D) × Result (Unit {0}) → (D × D) × Result (Unit {0})
  undo ((c, w), err e) = ((c, c), err e)
  undo ((c, w), ok a) = ((c, w), ok a)

  abbrev onward :
      (D → D → (D × D) × Result (Unit {0}))
      → (D × D) × Result (Unit {0})
      → (D × D) × Result (Unit {0})
  onward next ((c, w), err e) = ((c, w), err e)
  onward next ((c, w), ok a) = next c w

  abbrev written :
      (D → D → (D × D) × Result (Unit {0})) → D → D → Result D → (D × D) × Result (Unit {0})
  written next c w (err e) = ((c, w), err e)
  written next c w (ok w') = next c w'

  abbrev regardless : (D × D) × Result (Unit {0}) → (D × D) × Result (Unit {0})
  regardless (s, r) = (s, ok tt)

  unfoldable pub meaning : Program D → D → D → (D × D) × Result (Unit {0})
  meaning done c w = ((c, w), ok tt)
  meaning (raises e) c w = ((c, w), err e)
  meaning (writes f next) c w = elim (f w) [ err e ↦ ((c, w), err e) | ok w' ↦ meaning next c w' ]
  meaning (commits next) c w = meaning next w w
  meaning (block inner next) c w = onward (meaning next) (undo (meaning inner c w))
  meaning (tried inner next) c w = onward (meaning next) (regardless (undo (meaning inner c w)))

  abbrev opened : D → D → ℕ → Uow D
  opened c w n = record { committed = c; session = some w; depth = suc n }

  abbrev in_block : ℕ → (D × D) × Result (Unit {0}) → (Uow D × Unit {0}) × Result (Unit {0})
  in_block n ((c, w), r) = ((opened c w n, tt), r)

  leave-in_block :
      (n : ℕ) (x : (D × D) × Result (Unit {0})) → leave (in_block (suc n) x) ≡ in_block n (undo x)
  unfolding leave exit rollback_session require_session
  leave-in_block n ((c, w), err e) = ground arith
  leave-in_block n ((c, w), ok a) = ground arith

  enter-opened : (c w : D) (n : ℕ) → enter (opened c w n) ≡ opened c w (suc n)
  unfolding enter
  enter-opened c w n = ground arith

  within-in_block :
      (body : Action D (Unit {0}) (Unit {0})) (n : ℕ) (c w : D) (x : (D × D) × Result (Unit {0}))
      → body (opened c w (suc n), tt) ≡ in_block (suc n) x
      → within body (opened c w n, tt) ≡ in_block n (undo x)
  unfolding within
  within-in_block body n c w x h = rw (enter-opened c w n) (rw h (leave-in_block n x))

  module _ (next : Program D) (n : ℕ)
      (h : (c w : D) → run next (opened c w n, tt) ≡ in_block n (meaning next c w)) where
    then_with-in_block :
        (x : (D × D) × Result (Unit {0}))
        → then_with (λ a. run next) (in_block n x) ≡ in_block n (onward (meaning next) x)
    then_with-in_block ((c, w), err e) = refl
    then_with-in_block ((c, w), ok a) = h c w

    then_with-swallow :
        (x : (D × D) × Result (Unit {0}))
        → then_with (λ a. run next) (swallow (in_block n x))
          ≡ in_block n (onward (meaning next) (regardless x))
    then_with-swallow ((c, w), err e) = h c w
    then_with-swallow ((c, w), ok a) = h c w

    executed-written :
        (c w : D) (r : Result D)
        → then_with (λ a. run next) (executed (opened c w n) tt (r >>= λ d. ok (d, tt)))
          ≡ in_block n (written (meaning next) c w r)
    executed-written c w (err e) = refl
    executed-written c w (ok w') = h c w'

    run-writes :
        (f : D → Result D) (c w : D)
        → run (writes f next) (opened c w n, tt) ≡ in_block n (meaning (writes f next) c w)
    unfolding run meaning execute require_session
    run-writes f c w = executed-written c w (f w)

    run-commits :
        (c w : D) → run (commits next) (opened c w n, tt) ≡ in_block n (meaning (commits next) c w)
    unfolding run meaning commit commit_session require_session
    run-commits c w = h w w

  run-in_block :
      (p : Program D) (n : ℕ) (c w : D) → run p (opened c w n, tt) ≡ in_block n (meaning p c w)
  unfolding run meaning
  run-in_block done n c w = refl
  run-in_block (raises e) n c w = refl
  run-in_block (writes f next) n c w = run-writes next n (run-in_block next n) f c w
  run-in_block (commits next) n c w = run-commits next n (run-in_block next n) c w
  run-in_block (block inner next) n c w =
      rw (within-in_block (run inner) n c w _ (run-in_block inner (suc n) c w))
        (then_with-in_block next n (run-in_block next n) (undo (meaning inner c w)))
  run-in_block (tried inner next) n c w =
      rw (within-in_block (run inner) n c w _ (run-in_block inner (suc n) c w))
        (then_with-swallow next n (run-in_block next n) (undo (meaning inner c w)))

  -- What a block at the top leaves: a closed unit of work over the committed tables.
  abbrev pub closed : (D × D) × Result (Unit {0}) → (Uow D × Unit {0}) × Result (Unit {0})
  closed ((c, w), r) = ((new_uow c, tt), r)

  leave-closed : (x : (D × D) × Result (Unit {0})) → leave (in_block 0 x) ≡ closed x
  unfolding leave exit rollback_session require_session
  leave-closed ((c, w), err e) = ground arith
  leave-closed ((c, w), ok a) = ground arith

  -- A block on a closed unit of work, with whatever blocks, commits and exceptions inside, ends with
  -- the unit of work closed again, no session and depth 0, and with the database and the outcome of
  -- the one transaction that the nested blocks share, in which a block that raises gives up every
  -- write since the last commit.
  pub within-run : (p : Program D) (d : D) → within (run p) (new_uow d, tt) ≡ closed (meaning p d d)
  unfolding within enter
  within-run p d = rw (run-in_block p 0 d d) (leave-closed (meaning p d d))

  -- Nothing in the program commits.
  abbrev pub HasNoCommit : Program D → Type 0
  HasNoCommit done = Unit
  HasNoCommit (raises e) = Unit
  HasNoCommit (writes f next) = HasNoCommit next
  HasNoCommit (commits next) = ⊥
  HasNoCommit (block inner next) = HasNoCommit inner × HasNoCommit next
  HasNoCommit (tried inner next) = HasNoCommit inner × HasNoCommit next

  onward-kept :
      (next : Program D) (c : D) (x : (D × D) × Result (Unit {0}))
      → ((w : D) → (meaning next c w).0.0 ≡ c)
      → x.0.0 ≡ c
      → (onward (meaning next) x).0.0 ≡ c
  onward-kept next c ((c', w), err e) h kept = kept
  onward-kept next c ((c', w), ok a) h kept = rw kept (h w)

  written-kept :
      (next : Program D) (c w : D) (r : Result D)
      → ((v : D) → (meaning next c v).0.0 ≡ c)
      → (written (meaning next) c w r).0.0 ≡ c
  written-kept next c w (err e) h = refl
  written-kept next c w (ok w') h = h w'

  undo-kept : (x : (D × D) × Result (Unit {0})) → (undo x).0.0 ≡ x.0.0
  undo-kept ((c, w), err e) = refl
  undo-kept ((c, w), ok a) = refl

  meaning-kept : (p : Program D) (c w : D) → HasNoCommit p → (meaning p c w).0.0 ≡ c
  unfolding meaning
  meaning-kept done c w h = refl
  meaning-kept (raises e) c w h = refl
  meaning-kept (writes f next) c w h =
      written-kept next c w (f w) (λ (v : D). meaning-kept next c v h)
  meaning-kept (commits next) c w h = absurd h
  meaning-kept (block inner next) c w h =
      onward-kept next c (undo (meaning inner c w)) (λ (v : D). meaning-kept next c v h.1)
        (undo-kept (meaning inner c w) ∙ meaning-kept inner c w h.0)
  meaning-kept (tried inner next) c w h =
      onward-kept next c (regardless (undo (meaning inner c w)))
        (λ (v : D). meaning-kept next c v h.1)
        (undo-kept (meaning inner c w) ∙ meaning-kept inner c w h.0)

  -- A block that never commits leaves the database as it was, also if it returns.
  pub uncommitted_block :
      (p : Program D) (d : D) → HasNoCommit p → (within (run p) (new_uow d, tt)).0.0 ≡ new_uow d
  uncommitted_block p d h = rw (within-run p d, meaning-kept p d d h) refl

  undone-write :
      (inner : D → Result D) (e : PlatformError) (d d' : D) (r : Result D)
      → closed (
          onward (meaning (commits done)) (regardless (undo (written (meaning (raises e)) d d' r))))
        ≡ ((new_uow d, tt), ok tt)
  unfolding meaning
  undone-write inner e d d' (err e') = refl
  undone-write inner e d d' (ok w) = refl

  -- A nested block that raises takes the writes before it along: when the exception is caught and
  -- the outer block commits, nothing of them is stored.
  pub caught_block :
      (before inner : D → Result D) (e : PlatformError) (d d' : D)
      → before d ≡ ok d'
      → within
          (run (writes before (tried (writes inner (raises e)) (commits done))))
          (new_uow d, tt)
        ≡ ((new_uow d, tt), ok tt)
  unfolding meaning
  caught_block before inner e d d' h =
      within-run _ d
      ∙ (ap (λ r. closed (written (meaning (tried (writes inner (raises e)) (commits done))) d d r))
            h
          ∙ undone-write inner e d d' (inner d'))
