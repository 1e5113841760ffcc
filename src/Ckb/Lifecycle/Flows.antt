-- ===== src/Ckb/Lifecycle/Flows.antt =====
-- packages/cemp-ckb/src/lifecycle.ts: a history of calls of the service.
use cemp_mobile.Prelude.{ℕ, List, [], ◌∷◌, String}
use cemp_mobile.Ckb.Lifecycle.{World, Setting, reserve_committed_capacity}
use cemp_mobile.Ckb.Lifecycle.Acknowledgements.{Receipt, process_acknowledgements}
use cemp_mobile.Ckb.Lifecycle.Reclaim.{CellStatus, Chain, execute_reclaim_batch}
use cemp_mobile.Ckb.Lifecycle.Watches.{finalize_response_sent, poll_watches_once}
use cemp_mobile.Ckb.Lifecycle.Keeping.{
  StoreKeeps, acknowledgements-keep, reserve-keeps, finalize-keeps, watches-keep,
}
use cemp_mobile.Ckb.Lifecycle.Keeping.Batches.{reclaim-keeps}

-- A call of the service.
pub data Flow : Type 0 where
  acknowledgements : List Receipt → Flow
  reserve : ℕ → Flow
  batch : Chain → Flow
  response_sent : ℕ → String → ℕ → Flow
  poll : (String → ℕ → CellStatus) → Flow

-- The world after a call, whether it returned or threw.
unfoldable pub run_flow : Setting → Flow → World → World
unfolding process_acknowledgements reserve_committed_capacity execute_reclaim_batch
    finalize_response_sent poll_watches_once
run_flow setting (acknowledgements receipts) w = (process_acknowledgements setting receipts w).1
run_flow setting (reserve id) w = (reserve_committed_capacity setting id w).1
run_flow setting (batch c) w = (execute_reclaim_batch setting c w).1
run_flow setting (response_sent id hash index) w =
    (finalize_response_sent setting id hash index w).1
run_flow setting (poll get_live_cell) w = (poll_watches_once setting get_live_cell w).1

unfoldable pub run_flows : List (Setting × Flow) → World → World
unfolding run_flow
run_flows [] w = w
run_flows ((setting, flow) ∷ flows) w = run_flows flows (run_flow setting flow w)

flow-keeps :
    (setting : Setting) (P : World → Type 0)
    → StoreKeeps setting P
    → (flow : Flow) (w : World) → P w
    → P (run_flow setting flow w)
unfolding run_flow
flow-keeps setting P s (acknowledgements receipts) = acknowledgements-keep setting P s receipts
flow-keeps setting P s (reserve id) = reserve-keeps setting P s id
flow-keeps setting P s (batch c) = reclaim-keeps setting P s c
flow-keeps setting P s (response_sent id hash index) = finalize-keeps setting P s id hash index
flow-keeps setting P s (poll get_live_cell) = watches-keep setting P s get_live_cell

-- What each store keeps, a history of flows keeps.
pub run_flows-keeps :
    (P : World → Type 0)
    → ((setting : Setting) → StoreKeeps setting P)
    → (flows : List (Setting × Flow)) (w : World) → P w
    → P (run_flows flows w)
unfolding run_flows
run_flows-keeps P s [] w p = p
run_flows-keeps P s ((setting, flow) ∷ flows) w p =
    run_flows-keeps P s flows (run_flow setting flow w) (flow-keeps setting P (s setting) flow w p)
