-- ===== src/Discovery/Run/Events.antt =====
-- discovery_run.py: the properties that sort a run's drift events.
use clean_data_platform_airf.Prelude.{
  ◌+◌, ◌≡◌, refl, Bool, not, List, [], ◌∷◌, length, filter, any, non_empty, arith,
}
use clean_data_platform_airf.Discovery.Drift.{is_critical}
use clean_data_platform_airf.Discovery.Run.{
  DiscoveryRun, has_critical_drift, critical_events, informative_events,
}

module _ {A : Type 0} (p : A → Bool) where
  split_length :
      (xs : List A) → length (filter p xs) + length (filter (λ x. not (p x)) xs) ≡ length xs
  split_length [] = refl
  split_length (x ∷ xs) = ground (arith, split_length xs)

  any-eq-non_empty : (xs : List A) → any p xs ≡ non_empty (filter p xs)
  any-eq-non_empty [] = refl
  any-eq-non_empty (x ∷ xs) = ground (arith, any-eq-non_empty xs)

-- Every drift event of a run is listed either as critical or as informative, and the run reports
-- critical drift exactly if the critical list is not empty.
pub events_split :
    (r : DiscoveryRun)
    → (length (critical_events r) + length (informative_events r) ≡ length r.drift_events)
      × (has_critical_drift r ≡ non_empty (critical_events r))
unfolding has_critical_drift critical_events informative_events
events_split r =
    (split_length is_critical r.drift_events, any-eq-non_empty is_critical r.drift_events)
