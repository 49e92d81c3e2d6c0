-- ===== src/Trigger/Filter/Tree/Laws.antt =====
-- What the filters of a subscription mean together.
use vanus.Base.{Option, ap, none, refl, some, sym, ◌∙◌, ◌≡◌}
use vanus.Trigger.Filter.{Event}
use vanus.Trigger.Filter.Tree.{
  Filter, Filters, Libraries, Outcome, SubscriptionFilters, add, add_valid, all_filter, all_round,
  also, any_filter, any_round, empty, end, extract_filter, extract_filters, fail, filter_of_list,
  get_filter, new_all_filter, not_filter, not_outcome, panic, pass, run, run_all, run_any,
  run_filter,
}

module _ (libs : Libraries) where
  -- All of a list that is given, each that is valid.
  abbrev pub all_valid : SubscriptionFilters → Event → Outcome
  all_valid end event = pass
  all_valid (also f fs) event =
      all_round (run libs (extract_filter libs f) event) (all_valid fs event)

  abbrev pub negated : Filters libs → Filters libs
  negated empty = empty
  negated (add f fs) = add (not_filter f) (negated fs)

  all_round-pass : (o : Outcome) → all_round o pass ≡ o
  unfolding all_round
  all_round-pass pass = refl
  all_round-pass fail = refl
  all_round-pass panic = refl

  run-filter_of_list :
      (fs : Filters libs) (event : Event)
      → run libs (filter_of_list libs fs) event ≡ run_all libs fs event
  unfolding run filter_of_list run_all run_filter new_all_filter
  run-filter_of_list empty event = refl
  run-filter_of_list (add f empty) event = sym (all_round-pass (run_filter libs f event))
  run-filter_of_list (add f (add g fs)) event = refl

  run_all-add_valid :
      (o : Option (Filter libs)) (fs : Filters libs) (event : Event)
      → run_all libs (add_valid libs o fs) event
        ≡ all_round (run libs o event) (run_all libs fs event)
  unfolding add_valid run_all run all_round
  run_all-add_valid none fs event = refl
  run_all-add_valid (some f) fs event = refl

  run_all-extract_filters :
      (filters : SubscriptionFilters) (event : Event)
      → run_all libs (extract_filters libs filters) event ≡ all_valid filters event
  unfolding extract_filters run_all
  run_all-extract_filters end event = refl
  run_all-extract_filters (also f fs) event =
      run_all-add_valid (extract_filter libs f) (extract_filters libs fs) event
      ∙ ap (all_round (run libs (extract_filter libs f) event)) (run_all-extract_filters fs event)

  -- Running what GetFilter makes of a subscription's filters is the same as running the filter of
  -- each in turn, up to the first that fails or panics, where one that is not valid passes; no
  -- filter at all passes.
  pub run-get_filter :
      (filters : SubscriptionFilters) (event : Event)
      → run libs (get_filter libs filters) event ≡ all_valid filters event
  unfolding get_filter
  run-get_filter filters event =
      run-filter_of_list (extract_filters libs filters) event
      ∙ run_all-extract_filters filters event

  not_round :
      (o next : Outcome)
      → not_outcome (any_round o next) ≡ all_round (not_outcome o) (not_outcome next)
  unfolding not_outcome any_round all_round
  not_round pass next = refl
  not_round fail next = refl
  not_round panic next = refl

  not_any_round :
      (fs : Filters libs) (event : Event)
      → not_outcome (run_any libs fs event) ≡ run_all libs (negated fs) event
  unfolding run_any run_all run_filter not_outcome
  not_any_round empty event = refl
  not_any_round (add f fs) event =
      not_round (run_filter libs f event) (run_any libs fs event)
      ∙ ap (all_round (not_outcome (run_filter libs f event))) (not_any_round fs event)

  -- The negation of an any filter returns what the all filter of the negations returns, panics
  -- included.
  pub run-not_any :
      (fs : Filters libs) (event : Event)
      → run_filter libs (not_filter (any_filter fs)) event
        ≡ run_filter libs (all_filter (negated fs)) event
  unfolding run_filter
  run-not_any fs event = not_any_round fs event
