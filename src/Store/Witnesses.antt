-- ===== src/Store/Witnesses.antt =====
-- Runs of the store: a lease from its creation to the release of its faulty model.
use llm_service_manager.Prelude.{ℕ, ◌≡◌, refl, false, none, some, [], ◌∷◌}
use llm_service_manager.Prelude.Float.{whole}
use llm_service_manager.Prelude.Result.{err}
use llm_service_manager.Store.Rows.{IntentStore, FaultStage, lease_row}
use llm_service_manager.Store.Leases.{transition_lease}
use llm_service_manager.Store.Life.{Step, Later, IsStore}
use llm_service_manager.Store.Reachable.{IsEmpty, Later-IsStore, Later-final}
use llm_service_manager.Store.Created.{create_lease-lease_row}
use llm_service_manager.Store.Samples.{program, lease, row, store, claim}

abbrev empty : IntentStore ℕ
empty = store [] []

empty-IsEmpty : IsEmpty empty
empty-IsEmpty = record { leases = refl; faults = refl; recoveries = refl }

confirmed_later : Later ⦃F = whole⦄ empty (store (row "confirmed" ∷ []) [])
unfolding program
confirmed_later =
    Later.after (store (row "pending" ∷ []) []) (store (row "confirmed" ∷ []) [])
      (Later.after empty (store (row "pending" ∷ []) []) Later.now
        (Step.create (lease "pending") "vllm-a.service" false none _ refl))
      (Step.transition "l1" "confirmed" false _ refl)

released_later :
    Later ⦃F = whole⦄ empty (store (row "released" ∷ []) (claim FaultStage.released ∷ []))
unfolding program
released_later =
    Later.after (store (row "confirmed" ∷ []) (claim FaultStage.claimed ∷ [])) _
      (Later.after (store (row "confirmed" ∷ []) []) _ confirmed_later
        (Step.fault (claim FaultStage.claimed) false _ refl))
      (Step.next_fault (claim FaultStage.claimed) FaultStage.released none false none none _ refl)

-- A pending fault keeps its lease from being released.
fenced :
    transition_lease
      (store (row "confirmed" ∷ []) (claim FaultStage.claimed ∷ []))
      "l1"
      "released"
      false
    ≡ err "fault recovery pending"
unfolding program
fenced = refl

Later-IsStore_example : IsStore (store (row "released" ∷ []) (claim FaultStage.released ∷ []))
Later-IsStore_example =
    Later-IsStore ⦃F = whole⦄ empty (store (row "released" ∷ []) (claim FaultStage.released ∷ []))
      empty-IsEmpty released_later

Later-final_example :
    lease_row (store (row "released" ∷ []) (claim FaultStage.released ∷ [])) "l1"
    ≡ some (row "released")
unfolding program
Later-final_example =
    Later-final ⦃F = whole⦄ empty (store (row "released" ∷ []) (claim FaultStage.released ∷ []))
      (store (row "released" ∷ []) (claim FaultStage.released ∷ [])) "l1" (row "released")
      empty-IsEmpty released_later Later.now refl refl

create_lease-lease_row_example :
    lease_row (store (row "pending" ∷ []) []) "l1" ≡ some (row "pending")
unfolding program
create_lease-lease_row_example =
    create_lease-lease_row ⦃F = whole⦄ empty (lease "pending") "vllm-a.service" none
      (store (row "pending" ∷ []) []) refl
