-- ===== src/Goroutines.antt =====
-- Goroutines that each write their own element of a slice, as the program starts them and waits for
-- them with a sync.WaitGroup: goroutine `idx` does `results[idx] = work(idx, items[idx])`. A schedule
-- lists the goroutines in the order in which they write.
pub mod Order
use billingrse_backend.Prelude.{ℕ, zero, suc, List, [], ◌∷◌, ◌++◌, map}

-- The indices of a slice: a goroutine is started for each.
unfoldable pub indices : {A : Type 0} → List A → List ℕ
indices [] = []
indices (x ∷ xs) = 0 ∷ map suc (indices xs)

-- A schedule on which all running goroutines finish, each once; then `wg.Wait` returns.
pub data Completes : List ℕ → List ℕ → Type 0 where
  waited : Completes [] []
  finished :
      (before : List ℕ) (idx : ℕ) (after schedule : List ℕ)
      → Completes (before ++ after) schedule
      → Completes (before ++ idx ∷ after) (idx ∷ schedule)

module _ {A R : Type 0} where
  -- `results[idx] = work(idx, items[idx])`.
  unfoldable pub finish : (ℕ → A → R) → ℕ → List A → List R → List R
  finish work zero (item ∷ items) (r ∷ results) = work 0 item ∷ results
  finish work (suc idx) (item ∷ items) (r ∷ results) =
      r ∷ finish (λ i. work (suc i)) idx items results
  finish work _ _ results = results

  unfoldable pub finish_all : (ℕ → A → R) → List ℕ → List A → List R → List R
  finish_all work [] items results = results
  finish_all work (idx ∷ schedule) items results =
      finish_all work schedule items (finish work idx items results)

  -- `make([]R, len(items))` and the goroutines' writes to it.
  unfoldable pub run_goroutines : R → (ℕ → A → R) → List ℕ → List A → List R
  run_goroutines zero_value work schedule items =
      finish_all work schedule items (map (λ item. zero_value) items)

  -- The work on the items one after the other.
  unfoldable pub run_in_order : (ℕ → A → R) → List A → List R
  run_in_order work [] = []
  run_in_order work (item ∷ items) = work 0 item ∷ run_in_order (λ i. work (suc i)) items
