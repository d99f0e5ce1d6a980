-- ===== src/Reload/Commit.antt =====
-- llmsvc/reload.py: what each stage of a commit leaves.
use llm_service_manager.Prelude.{
  String, ◌≡◌, refl, inr, Bool, true, not, ◌||◌, Option, none, some, List, arith,
}
use llm_service_manager.Prelude.Tests.{is_some, if_ind}
use llm_service_manager.Prelude.Lists.{is_empty}
use llm_service_manager.Prelude.Float.{Float}
use llm_service_manager.Prelude.Result.{Result, ok, err}
use llm_service_manager.Reload.World.{Source, World}
use llm_service_manager.Reload.Transaction.{
  Tx, Run, same_record, is_late, before_deadline, write_marker, withdraw, last_check, prepare,
  replace_config, confirm, unlinked, retire,
}
use llm_service_manager.Reload.Steps.{
  Untouched, Marked, Committed, Adopted, Applied, Failed, OnRun, attempt-OnRun, require-OnRun,
  Untouched-Safe, Marked-Safe, Committed-Safe, Adopted-Safe, tried, required, timed_out, Safe,
}

module _ {N : Type 0} ⦃F : Float N⦄ (w : World N) (before : String) where
  abbrev On : {A : Type 0} → (Tx → Type 0) → Run A → Type 0
  On Q r = OnRun before Q r

  pub write_marker-On :
      (bytes : String) (t : Tx) → Untouched before t → On (Marked before) (write_marker w bytes t)
  write_marker-On bytes t h =
      tried before (Untouched before) (Marked before) w.marker_opened _ t (Untouched-Safe before) h
        (λ _ t u.
          tried before (Marked before) (Marked before) w.marker_written _ _ (Marked-Safe before)
            (u, refl)
            (λ _ t m.
              attempt-OnRun before (Marked before) w.marker_synced t (Marked-Safe before) m))

  withdraw-On :
      (expired : Bool) (t : Tx) → Untouched before t → On (Marked before) (withdraw w expired t)
  withdraw-On expired t h =
      tried before (Untouched before) (Marked before) w.marker_withdrawn _ t (Untouched-Safe before)
        h
        (λ _ t u.
          tried before (Untouched before) (Marked before) w.withdrawal_synced _ _
            (Untouched-Safe before) u
            (λ _ t u. if_ind (Untouched before) expired (λ _. timed_out before t u) (λ _. u)))

  pub last_check-On :
      (blockers : List String) (t : Tx)
      → Marked before t
      → On (Marked before) (last_check w blockers t)
  last_check-On blockers t h =
      if_ind
        (λ (f : Tx → Run (Unit {0})). On (Marked before) (f (record t { blocked_by = blockers })))
        (not (is_empty blockers) || is_late w w.third_clock)
        (λ _. withdraw-On (is_late w w.third_clock) _ h.0) (λ _. h)

  pub prepare-On :
      (original : Source) (bytes : String) (maintenance : Option String) (t : Tx)
      → Marked before t
      → On (Marked before) (prepare w original bytes maintenance t)
  prepare-On original bytes none t h = h
  prepare-On original bytes (some base) t h =
      let M = Marked before in
      let safe = Marked-Safe before in
      required before M M (before_deadline w w.prepare_clock) _ _ t safe h (λ _ t h.
        required before M M w.adapter_available _ _ t safe h (λ _ t h.
          tried before M M w.before_replace _ _ safe h (λ _ t h.
            required before M M (before_deadline w w.prepared_clock) _ _ t safe h (λ _ t h.
              required before M M w.still_bound _ _ t safe h (λ _ t h.
                tried before M M w.latest _ t safe h (λ latest t h.
                  required before M M (same_record latest original) _ _ t safe h
                    (λ _ t h. attempt-OnRun before M w.marker_intact t safe h)))))))

  pub replace_config-On :
      (candidate : String) (t : Tx)
      → Marked before t
      → On (Committed before) (replace_config w candidate t)
  replace_config-On candidate t h =
      tried before (Marked before) (Committed before) w.replaced _ t (Marked-Safe before) h
        (λ _ t m. (refl, m.1))

  pub confirm-On : (t : Tx) → Committed before t → On (Adopted before) (confirm w t)
  confirm-On t h =
      let C = Committed before in
      let D = Adopted before in
      let safe = Committed-Safe before in
      let adopted = Adopted-Safe before in
      tried before C D w.directory_synced _ t safe h (λ _ t h.
        required before C D (before_deadline w w.replaced_clock) _ _ t safe h (λ _ t h.
          tried before C D w.notified _ t safe h (λ _ t h.
            required before D D (before_deadline w w.adopted_clock) _ _ _ adopted (h, refl)
              (λ _ t h. tried before D D w.after_apply _ t adopted h (λ _ t h.
                require-OnRun before D (before_deadline w w.applied_clock) _ t adopted h)))))

  -- The receipt is latched while the marker is retired.
  abbrev Latched : Tx → Type 0
  Latched t =
      (t.config_committed ≡ true) × (t.adopted ≡ true) × (is_some t.completion_marker ≡ true)

  Latched-Safe : Safe before Latched
  Latched-Safe t (committed, adopted, latched) = inr (committed, ground (arith, latched))

  unlinked-On :
      (bytes : String) (synced : Result (Unit {0})) (t : Tx)
      → Latched t
      → On (Applied before) (unlinked w bytes synced t)
  unlinked-On bytes (ok _) t (committed, adopted, latched) = (committed, adopted, refl, refl)
  unlinked-On bytes (err reason) t h =
      if_ind (Failed before) w.marker_restored
        (λ _. Latched-Safe (record t { marker = some bytes }) h)
        (λ _. Latched-Safe (record t { marker = none }) h)

  pub retire-On :
      (bytes : String) (t : Tx) → Adopted before t → On (Applied before) (retire w bytes t)
  retire-On bytes t h =
      tried before Latched (Applied before) w.marker_matches _ _ Latched-Safe (h.0.0, h.1, refl)
        (λ _ t h.
          tried before Latched (Applied before) w.marker_removed _ t Latched-Safe h
            (λ _ t h. unlinked-On bytes w.removal_synced t h))
