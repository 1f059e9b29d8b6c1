-- ===== src/Examples/Listing.antt =====
-- The theorem of Workflow.Listing at a concrete query.
use billingrse_backend.Prelude.{
  ℤ, pos, ◌≡◌, refl, true, false, some, List, [], ◌∷◌, All, Outcome, ok,
}
use billingrse_backend.GoText.{Text, txt, trim_space, trim_left, trim_right, is_space, eq_text}
use billingrse_backend.GoContext.{live}
use billingrse_backend.Workflow.Listing.{
  ListQuery, ListResult, normalize_query, is_workflow_status_filter, validate_status,
  validate_query, list_histories,
}
use billingrse_backend.Workflow.Listing.Pages.{IsLimit, list_histories-keeps}

-- A repository that writes down the limits it is asked for.
abbrev load : ListQuery → List ℤ → Outcome Text ListResult × List ℤ
load q limits = (ok (record { items = []; total_count = pos 0 }), q.limit ∷ limits)

abbrev query : ListQuery
query = record {
  user_id = 7;
  limit = pos 0;
  offset = pos 40;
  status = some (txt " failed ");
  has_limit = false;
  has_offset = true;
}

list_opened : Unit {0}
unfolding trim_space trim_left trim_right is_space eq_text normalize_query is_workflow_status_filter
    validate_status validate_query list_histories
list_opened = tt

list_histories-asks : (list_histories live (some load) query []).1 ≡ pos 20 ∷ []
unfolding list_opened
list_histories-asks = refl

list_histories-keeps_example : All IsLimit (list_histories live (some load) query []).1
list_histories-keeps_example =
    list_histories-keeps load (All IsLimit) live query [] (λ q s page h. (page.1.0, h)) tt
