-- ===== src/Trigger/Tests.antt =====
-- The trigger worker's theorems at concrete inputs.
use vanus.Base.{
  Bool, [], arith, false, if◌then◌else◌, ltb, none, refl, some, true, ℕ, ◌&&◌, ◌==◌, ◌↔◌, ◌∷◌, ◌≡◌,
  ◌≤◌,
}
use vanus.Base.Int.{pos}
use vanus.Trigger.Keys.{contains, key_list}
use vanus.Trigger.Offset.{
  OffsetInfo, OffsetTracker, SubscriptionOffset, commit_offset, event_receive, new_tracker,
  offset_to_commit, put_offset,
}
use vanus.Trigger.Offset.Tracker.{
  IsTracking, first_offset_again, offset_to_commit_safe, to_commit_monotone,
}
use vanus.Trigger.Filter.{
  Event, Texts, data_name, data_prefix, has_prefix, is_empty, new_common_filter, place, put, put_at,
  same_text, split_pairs,
}
use vanus.Trigger.Filter.Pairs.{common_outcome}
use vanus.Trigger.Filter.Values.{EachHolds, common_filter_lem}
use vanus.Trigger.Filter.Tree.{
  Libraries, SubscriptionFilter, SubscriptionFilters, also, end, get_filter, no_not, run, sql_error,
  subscription_filter,
}
use vanus.Trigger.Filter.Tree.Laws.{all_valid, run-get_filter}
use vanus.Trigger.Offset.Window.{ReceiveResult, event_receive_lem}

-- Events 4, 5 and 7 are out, and 5 is acknowledged.
abbrev tracker : OffsetTracker key_list
tracker = record { max_offset = 7; init_offset = 4; list = 7 ∷ 4 ∷ [] }

tracker-IsTracking : IsTracking key_list tracker
unfolding contains
tracker-IsTracking = record {
  ordered = omega arith;
  small = omega arith;
  pending_low = λ k p. ground arith;
  pending_high = λ k p. ground arith;
}

offset_to_commit_safe_example :
    ((contains (7 ∷ 4 ∷ []) 7 && ltb 7 (offset_to_commit key_list tracker)) ≡ false)
    × (4 ≤ offset_to_commit key_list tracker)
offset_to_commit_safe_example = offset_to_commit_safe key_list tracker 7 tracker-IsTracking

to_commit_monotone_example :
    (offset_to_commit key_list tracker ≤ offset_to_commit key_list (put_offset key_list tracker 9))
    × (offset_to_commit key_list tracker
        ≤ offset_to_commit key_list (commit_offset key_list tracker 4))
to_commit_monotone_example =
    to_commit_monotone key_list tracker 9 4 tracker-IsTracking (omega arith)

first_offset_again_example :
    offset_to_commit key_list
      (commit_offset key_list (put_offset key_list (new_tracker key_list 12) 12) 12)
    ≡ 12
first_offset_again_example = first_offset_again key_list 12

abbrev subscription : SubscriptionOffset key_list
subscription = record {
  max_uack_number = pos 2;
  uack_number = pos 1;
  el_offsets = λ id. if id == 3 then some tracker else none;
  closed = false;
}

abbrev event : OffsetInfo
event = record { eventlog_id = 3; offset = 9 }

event_receive_lem_example :
    ReceiveResult key_list subscription event (event_receive key_list subscription event)
event_receive_lem_example = event_receive_lem key_list subscription event

-- Filters: an event of type "a" with the data "bc"; the languages know no expression.
abbrev plain_event : Event
plain_event = record {
  attribute = λ name. if same_text name (116 ∷ []) then some (97 ∷ []) else none;
  content = 98 ∷ 99 ∷ [];
}

abbrev no_libraries : Libraries
no_libraries = record {
  gjson = λ content path. none;
  Sql = ℕ;
  parse_sql = λ text. none;
  evaluate = λ e event. sql_error;
  Cel = ℕ;
  parse_cel = λ text. none;
  eval_cel = λ e event. none;
}

-- t: "a", data: "b".
abbrev pairs : Texts
pairs = ((116 ∷ []), (97 ∷ [])) ∷ (data_name, (98 ∷ [])) ∷ []

common_filter_lem_example :
    (passes : Bool) × ((common_outcome
          (λ content path. none)
          plain_event
          (new_common_filter pairs has_prefix)
        ≡ some passes)
      × ((passes ≡ true) ↔ EachHolds (λ content path. none) plain_event has_prefix pairs))
unfolding place is_empty same_text put_at put
common_filter_lem_example =
    common_filter_lem (λ content path. none) plain_event pairs has_prefix
      (refl, (refl, (refl, (refl, tt))))

abbrev prefix_of : Texts → SubscriptionFilter
prefix_of texts = subscription_filter [] texts [] [] no_not end end []

-- A filter that is not valid in front of one that is.
abbrev subscription_filters : SubscriptionFilters
subscription_filters = also (prefix_of (([], []) ∷ [])) (also (prefix_of pairs) end)

run-get_filter_example :
    run no_libraries (get_filter no_libraries subscription_filters) plain_event
    ≡ all_valid no_libraries subscription_filters plain_event
run-get_filter_example = run-get_filter no_libraries subscription_filters plain_event

-- "data" and "data." are one place: which value is kept depends on the order of the map.
data_twice :
    (split_pairs ((data_name, (1 ∷ [])) ∷ (data_prefix, (2 ∷ [])) ∷ []) ([], [])
      ≡ some ([], ([], (2 ∷ [])) ∷ []))
    × (split_pairs ((data_prefix, (2 ∷ [])) ∷ (data_name, (1 ∷ [])) ∷ []) ([], [])
        ≡ some ([], ([], (1 ∷ [])) ∷ []))
unfolding split_pairs put_at place put is_empty same_text
data_twice = (refl, refl)
