-- ===== src/Goroutines/Order.antt =====
-- The order in which goroutines finish.
use billingrse_backend.Prelude.{ℕ, zero, suc, ◌≡◌, refl, ap, sym, ◌∙◌, List, [], ◌∷◌, ◌++◌, map}
use billingrse_backend.Goroutines.{
  indices, Completes, waited, finished, finish, finish_all, run_goroutines, run_in_order,
}

-- The goroutines may finish in the order in which they were started, so that `wg.Wait` can return.
pub Completes-refl : (running : List ℕ) → Completes running running
Completes-refl [] = waited
Completes-refl (idx ∷ running) = finished [] idx running running (Completes-refl running)

module _ {A R : Type 0} where
  finish-no_items :
      (work : ℕ → A → R) (i : ℕ) (results : List R) → finish work i [] results ≡ results
  unfolding finish
  finish-no_items work zero results = refl
  finish-no_items work (suc i) results = refl

  finish-no_results : (work : ℕ → A → R) (i : ℕ) (items : List A) → finish work i items [] ≡ []
  unfolding finish
  finish-no_results work i [] = finish-no_items work i []
  finish-no_results work zero (e ∷ es) = refl
  finish-no_results work (suc i) (e ∷ es) = refl

  finish_comm :
      (work : ℕ → A → R) (i j : ℕ) (items : List A) (results : List R)
      → finish work i items (finish work j items results)
        ≡ finish work j items (finish work i items results)
  unfolding finish
  finish_comm work i j [] results =
      cc (finish-no_items work i results, finish-no_items work j results)
  finish_comm work i j (e ∷ es) [] =
      cc (finish-no_results work i (e ∷ es), finish-no_results work j (e ∷ es))
  finish_comm work zero zero (e ∷ es) (r ∷ rs) = refl
  finish_comm work zero (suc j) (e ∷ es) (r ∷ rs) = refl
  finish_comm work (suc i) zero (e ∷ es) (r ∷ rs) = refl
  finish_comm work (suc i) (suc j) (e ∷ es) (r ∷ rs) =
      ap (λ rest. r ∷ rest) (finish_comm (λ k. work (suc k)) i j es rs)

  -- A goroutine may finish first.
  finish_all-first :
      (work : ℕ → A → R) (before : List ℕ) (idx : ℕ) (after : List ℕ) (items : List A)
      (results : List R)
      → finish_all work (before ++ idx ∷ after) items results
        ≡ finish_all work (before ++ after) items (finish work idx items results)
  unfolding finish_all
  finish_all-first work [] idx after items results = refl
  finish_all-first work (i ∷ before) idx after items results =
      finish_all-first work before idx after items (finish work i items results)
      ∙ ap (finish_all work (before ++ after) items) (finish_comm work idx i items results)

  finish_all-Completes :
      (work : ℕ → A → R) {running schedule : List ℕ} (items : List A) (results : List R)
      → Completes running schedule
      → finish_all work schedule items results ≡ finish_all work running items results
  unfolding finish_all
  finish_all-Completes work items results waited = refl
  finish_all-Completes work items results (finished before idx after schedule c) =
      finish_all-Completes work items (finish work idx items results) c
      ∙ sym (finish_all-first work before idx after items results)

  finish_all-tail :
      (work : ℕ → A → R) (schedule : List ℕ) (item : A) (items : List A) (r : R) (results : List R)
      → finish_all work (map suc schedule) (item ∷ items) (r ∷ results)
        ≡ r ∷ finish_all (λ i. work (suc i)) schedule items results
  unfolding finish_all finish
  finish_all-tail work [] item items r results = refl
  finish_all-tail work (idx ∷ schedule) item items r results =
      finish_all-tail work schedule item items r (finish (λ i. work (suc i)) idx items results)

  finish_all-indices :
      (zero_value : R) (work : ℕ → A → R) (items : List A)
      → finish_all work (indices items) items (map (λ item. zero_value) items)
        ≡ run_in_order work items
  unfolding finish_all finish indices run_in_order
  finish_all-indices zero_value work [] = refl
  finish_all-indices zero_value work (e ∷ es) =
      finish_all-tail work (indices es) e es (work 0 e) (map (λ item. zero_value) es)
      ∙ ap (λ rest. work 0 e ∷ rest) (finish_all-indices zero_value (λ i. work (suc i)) es)

  -- In whatever order the goroutines finish, when each has finished once the results are those of
  -- the work on the items one after the other.
  pub run_goroutines-run_in_order :
      (zero_value : R) (work : ℕ → A → R) (items : List A) (schedule : List ℕ)
      → Completes (indices items) schedule
      → run_goroutines zero_value work schedule items ≡ run_in_order work items
  unfolding run_goroutines
  run_goroutines-run_in_order zero_value work items schedule c =
      finish_all-Completes work items (map (λ item. zero_value) items) c
      ∙ finish_all-indices zero_value work items
