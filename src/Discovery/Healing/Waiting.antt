-- ===== src/Discovery/Healing/Waiting.antt =====
-- metadata_self_healing_service.py: what waits for a decision.
use mathlib.Core.List.{append_assoc, append-nil}
use clean_data_platform_airf.Prelude.{
  ℕ, ◌+◌, ◌≤◌, ◌≡◌, refl, ◌∙◌, ap, sym, String, true, false, not, none, List, [], ◌∷◌, ◌++◌, ◌==◌,
  filter, map, non_empty, length, length-append, All, arith, eq_iff, Bool-cases, inl, inr,
}
use clean_data_platform_airf.Prelude.Dict.{Dict}
use clean_data_platform_airf.Errors.{ok}
use clean_data_platform_airf.Discovery.Schema.{SchemaSnapshot}
use clean_data_platform_airf.Discovery.Drift.{DriftEvent, is_critical}
use clean_data_platform_airf.Discovery.Approval.{DriftApproval, pending}
use clean_data_platform_airf.Discovery.Healing.{
  Store, save_approval, approval_of, new_approvals, events_of, apply_self_healing_and_approvals,
}

abbrev pub IsOnlyCritical : List SchemaSnapshot → List DriftEvent → Type 0
IsOnlyCritical [] events = Unit
IsOnlyCritical (snap ∷ rest) events =
    (non_empty (filter (λ e. not (is_critical e)) (events_of snap events)) ≡ false)
    × IsOnlyCritical rest events

abbrev concerning : String → List DriftEvent → List (String × DriftEvent)
concerning object_id es = map {A = DriftEvent} (λ e. (object_id, e)) es

-- The critical events of an object, with its id.
abbrev due_of : SchemaSnapshot → List DriftEvent → List (String × DriftEvent)
due_of snap events = concerning snap.object_id (filter is_critical (events_of snap events))

-- The critical events of all objects.
abbrev pub dues : List SchemaSnapshot → List DriftEvent → List (String × DriftEvent)
dues [] events = []
dues (snap ∷ rest) events = due_of snap events ++ dues rest events

save_approval-append :
    (a : DriftApproval) (rows : List DriftApproval)
    → All (λ (row : DriftApproval). (row.id == a.id) ≡ false) rows
    → save_approval a rows ≡ rows ++ a ∷ []
unfolding save_approval
save_approval-append a [] h = refl
save_approval-append a (row ∷ rows) h =
    rw (h.0) (ap (λ rest. row ∷ rest) (save_approval-append a rows h.1))

module _ (new_approval_id : ℕ → String) (now : ℕ) (asset_id run_id : String) where
  -- A pending approval for an event.
  abbrev pub request_of : ℕ → String × DriftEvent → DriftApproval
  request_of n (object_id, e) = record {
    id = new_approval_id n;
    discovery_run_id = run_id;
    asset_id = asset_id;
    object_id = object_id;
    change_type = e.change_type;
    severity_description = e.description;
    field_name = e.field_name;
    decision = pending;
    decided_by = none;
    decided_at = none;
    owner_notes = none;
    updated_at = now;
  }

  -- One for each event, with the uuids from the n-th on.
  abbrev pub requested : ℕ → List (String × DriftEvent) → List DriftApproval
  requested n [] = []
  requested n (x ∷ rest) = request_of n x ∷ requested (n + 1) rest

  requested-append :
      (n : ℕ) (xs ys : List (String × DriftEvent))
      → requested n (xs ++ ys) ≡ requested n xs ++ requested (n + length xs) ys
  requested-append n [] ys = let e : n + 0 ≡ n = omega arith in rw e refl
  requested-append n (x ∷ xs) ys =
      let e : n + length (x ∷ xs) ≡ n + 1 + length xs = omega arith in
      rw e (ap (λ rest. request_of n x ∷ rest) (requested-append (n + 1) xs ys))

  length-requested : (n : ℕ) (xs : List (String × DriftEvent)) → length (requested n xs) ≡ length xs
  length-requested n [] = refl
  length-requested n (x ∷ xs) = omega (arith, length-requested (n + 1) xs)

  requested-length :
      (old rows : List DriftApproval) (k : ℕ) (due : List (String × DriftEvent))
      → rows ≡ old ++ requested k due
      → length rows ≡ length old + length due
  requested-length old rows k due same =
      ap length same ∙ omega (arith, length-append old (requested k due), length-requested k due)

  requested-concat :
      (old rows : List DriftApproval) (k : ℕ) (due rest : List (String × DriftEvent))
      → rows ≡ old ++ requested k due
      → length rows ≡ k + length due
      → rows ++ requested (length rows) rest ≡ old ++ requested k (due ++ rest)
  requested-concat old rows k due rest same long =
      ap (λ n. rows ++ requested n rest) long
      ∙ ap (λ r. r ++ requested (k + length due) rest) same
      ∙ append_assoc old (requested k due) (requested (k + length due) rest)
      ∙ ap (λ r. old ++ r) (sym (requested-append k due rest))

  -- The uuids from the k-th on are those of no row.
  abbrev pub IsFresh : ℕ → List DriftApproval → Type 0
  IsFresh k rows =
      All (λ (row : DriftApproval). (n : ℕ) → k ≤ n → (row.id == new_approval_id n) ≡ false) rows

  fresh_now :
      (k : ℕ) (rows : List DriftApproval)
      → IsFresh k rows
      → All (λ (row : DriftApproval). (row.id == new_approval_id k) ≡ false) rows
  fresh_now k [] h = tt
  fresh_now k (row ∷ rows) h = (h.0 k (omega arith), fresh_now k rows h.1)

  module _ (distinct : (m n : ℕ) → new_approval_id m ≡ new_approval_id n → m ≡ n) where
    differs : (k n : ℕ) → k + 1 ≤ n → (new_approval_id k == new_approval_id n) ≡ false
    differs k n h = elim (Bool-cases (new_approval_id k == new_approval_id n)) [
      | inl same ↦
          let e : k ≡ n = distinct k n ((eq_iff (new_approval_id k) (new_approval_id n)).0 same) in
          absurd (omega arith)
      | inr other ↦ other
    ]

    IsFresh-append :
        (k : ℕ) (a : DriftApproval) (rows : List DriftApproval)
        → IsFresh k rows
        → a.id ≡ new_approval_id k
        → IsFresh (k + 1) (rows ++ a ∷ [])
    IsFresh-append k a [] h e = (λ n le. rw e (differs k n le), tt)
    IsFresh-append k a (row ∷ rows) h e =
        (λ n le. h.0 n (omega arith), IsFresh-append k a rows h.1 e)

    new_approvals-requested :
        (object_id : String) (es : List DriftEvent) (k : ℕ) (rows : List DriftApproval)
        → length rows ≡ k
        → IsFresh k rows
        → (new_approvals new_approval_id asset_id run_id object_id now es rows
            ≡ rows ++ requested k (concerning object_id es))
          × IsFresh
              (k + length (concerning object_id es))
              (new_approvals new_approval_id asset_id run_id object_id now es rows)
    new_approvals-requested object_id [] k rows long fresh =
        let e : k + 0 ≡ k = omega arith in (sym (append-nil rows), rw e fresh)
    new_approvals-requested object_id (e ∷ es) k rows long fresh =
        let a = approval_of (new_approval_id k) asset_id run_id object_id now e in
        let saved : save_approval a rows ≡ rows ++ a ∷ [] =
          save_approval-append a rows (fresh_now k rows fresh) in
        let longer : length (rows ++ a ∷ []) ≡ k + 1 = omega (arith, length-append rows (a ∷ [])) in
        let (same, fresher) =
          new_approvals-requested object_id es (k + 1) (rows ++ a ∷ []) longer
            (IsFresh-append k a rows fresh refl) in
        let more : k + length (concerning object_id (e ∷ es))
            ≡ k + 1 + length (concerning object_id es) =
          omega arith in
        rw (long, saved, more) (same ∙ append_assoc rows (a ∷ []) _, fresher)

    -- If there were snapshots before and no object has an informative event, self-healing returns,
    -- changes no object, and adds for every critical event of every object one PENDING approval with
    -- what changed, and no other: the critical changes wait for their approval. The uuids of the
    -- approvals are distinct and new.
    pub critical_changes_wait :
        (new_id : ℕ → String) (snaps : List SchemaSnapshot) (events : List DriftEvent)
        (prev : Dict SchemaSnapshot) (s : Store)
        → IsFresh (length s.approvals) s.approvals
        → non_empty prev ≡ true
        → IsOnlyCritical snaps events
        → (s' : Store) × (apply_self_healing_and_approvals new_id new_approval_id now asset_id
              run_id snaps events prev s
            ≡ ok s')
          × (s'.objects ≡ s.objects)
          × (s'.approvals ≡ s.approvals ++ requested (length s.approvals) (dues snaps events))
    unfolding apply_self_healing_and_approvals
    critical_changes_wait new_id [] events prev s fresh known only =
        (s, refl, refl, sym (append-nil s.approvals))
    critical_changes_wait new_id (snap ∷ snaps) events prev s fresh known only =
        let es = filter is_critical (events_of snap events) in
        let rows =
          new_approvals new_approval_id asset_id run_id snap.object_id now es s.approvals in
        let (same, fresher) =
          new_approvals-requested snap.object_id es (length s.approvals) s.approvals refl fresh in
        let due = due_of snap events in
        let long : length rows ≡ length s.approvals + length due =
          requested-length s.approvals rows (length s.approvals) due same in
        let (s', done, kept, added) =
          critical_changes_wait new_id snaps events prev (record s { approvals = rows })
            (rw long fresher) known only.1 in
        (
          s',
          rw (only.0, known) done,
          kept,
          added
              ∙ requested-concat s.approvals rows (length s.approvals) due (dues snaps events) same
                  long,
        )
