-- ===== src/Trigger/Filter/Tree.antt =====
-- internal/trigger/filter: trigger_filter.go, the filters that it makes of the filters of a
-- subscription (internal/primitive/subscription.go), and what they return.
pub mod Laws
use vanus.Base.{Bool, Option, [], false, if◌then◌else◌, none, not, some, true, ◌∷◌}
use vanus.Trigger.Filter.{
  CommonFilter, Event, Text, Texts, common_filter, has_prefix, has_suffix, is_empty,
  new_common_filter, same_text,
}

-- A filter of a subscription: the maps, the expressions, and `Not`, `All` and `Any`.
mutual
  pub data SubscriptionFilter : Type 0 where
    subscription_filter :
        Texts
        → Texts
        → Texts
        → Text
        → NotFilter
        → SubscriptionFilters
        → SubscriptionFilters
        → Text
        → SubscriptionFilter

  pub data NotFilter : Type 0 where
    no_not : NotFilter
    not_of : SubscriptionFilter → NotFilter

  pub data SubscriptionFilters : Type 0 where
    end : SubscriptionFilters
    also : SubscriptionFilter → SubscriptionFilters → SubscriptionFilters

-- What an expression of CloudEvents SQL evaluates to.
pub data SqlValue : Type 0 where
  boolean : Bool → SqlValue
  other_value sql_error : SqlValue

-- The third-party libraries.
pub record Libraries : Type 1 where
  pub gjson : Text → Text → Option Text
  pub Sql : Type 0
  pub parse_sql : Text → Option Sql
  pub evaluate : Sql → Event → SqlValue
  pub Cel : Type 0
  pub parse_cel : Text → Option Cel
  pub eval_cel : Cel → Event → Option Bool

-- The result of a filter; an expression that is not a Boolean panics.
pub data Outcome : Type 0 where
  pass fail panic : Outcome

unfoldable pub outcome_of : Bool → Outcome
outcome_of true = pass
outcome_of false = fail

unfoldable pub sql_outcome : SqlValue → Outcome
sql_outcome (boolean b) = outcome_of b
sql_outcome other_value = panic
sql_outcome sql_error = fail

unfoldable pub cel_outcome : Option Bool → Outcome
cel_outcome none = fail
cel_outcome (some b) = outcome_of b

unfoldable pub not_outcome : Outcome → Outcome
not_outcome pass = fail
not_outcome fail = pass
not_outcome panic = panic

-- A round of the loops of the `all` and the `any` filter; `next` is the rest of the loop.
unfoldable pub all_round : Outcome → Outcome → Outcome
all_round pass next = next
all_round fail next = fail
all_round panic next = panic

unfoldable pub any_round : Outcome → Outcome → Outcome
any_round pass next = pass
any_round fail next = next
any_round panic next = panic

module _ (libs : Libraries) where
  open libs use {Sql, Cel, gjson, parse_sql, evaluate, parse_cel, eval_cel}

  mutual
    pub data Filter : Type 0 where
      no_filter : Filter
      common : CommonFilter → Filter
      ce_sql : Sql → Filter
      cel : Cel → Filter
      not_filter : Filter → Filter
      all_filter : Filters → Filter
      any_filter : Filters → Filter

    pub data Filters : Type 0 where
      empty : Filters
      add : Filter → Filters → Filters

  unfoldable mutual
    pub run_filter : Filter → Event → Outcome
    run_filter no_filter event = pass
    run_filter (common f) event = outcome_of (common_filter gjson f event)
    run_filter (ce_sql e) event = sql_outcome (evaluate e event)
    run_filter (cel e) event = cel_outcome (eval_cel e event)
    run_filter (not_filter f) event = not_outcome (run_filter f event)
    run_filter (all_filter fs) event = run_all fs event
    run_filter (any_filter fs) event = run_any fs event

    pub run_all : Filters → Event → Outcome
    run_all empty event = pass
    run_all (add f fs) event = all_round (run_filter f event) (run_all fs event)

    pub run_any : Filters → Event → Outcome
    run_any empty event = fail
    run_any (add f fs) event = any_round (run_filter f event) (run_any fs event)

  unfoldable pub common_or_nil : Option CommonFilter → Option Filter
  common_or_nil none = none
  common_or_nil (some f) = some (common f)

  unfoldable pub new_exact_filter : Texts → Option Filter
  new_exact_filter exact = common_or_nil (new_common_filter exact same_text)

  unfoldable pub new_prefix_filter : Texts → Option Filter
  new_prefix_filter prefix = common_or_nil (new_common_filter prefix has_prefix)

  unfoldable pub new_suffix_filter : Texts → Option Filter
  new_suffix_filter suffix = common_or_nil (new_common_filter suffix has_suffix)

  unfoldable pub sql_or_nil : Option Sql → Option Filter
  sql_or_nil none = none
  sql_or_nil (some e) = some (ce_sql e)

  unfoldable pub new_cesql_filter : Text → Option Filter
  new_cesql_filter expression =
      if is_empty expression then none else sql_or_nil (parse_sql expression)

  unfoldable pub cel_or_nil : Option Cel → Option Filter
  cel_or_nil none = none
  cel_or_nil (some e) = some (cel e)

  unfoldable pub new_cel_filter : Text → Option Filter
  new_cel_filter expression =
      if is_empty expression then none else cel_or_nil (parse_cel expression)

  unfoldable pub new_not_filter : Option Filter → Option Filter
  new_not_filter none = none
  new_not_filter (some f) = some (not_filter f)

  unfoldable pub new_all_filter : Filters → Option Filter
  new_all_filter empty = none
  new_all_filter (add f fs) = some (all_filter (add f fs))

  unfoldable pub new_any_filter : Filters → Option Filter
  new_any_filter empty = none
  new_any_filter (add f fs) = some (any_filter (add f fs))

  -- A filter that is nil is left out.
  unfoldable pub add_valid : Option Filter → Filters → Filters
  add_valid none fs = fs
  add_valid (some f) fs = add f fs

  unfoldable pub given : Texts → Bool
  given [] = false
  given (p ∷ ps) = true

  unfoldable pub given_list : SubscriptionFilters → Bool
  given_list end = false
  given_list (also f fs) = true

  -- The tests on the expressions and the lists, with the filters made of the lists.
  unfoldable pub extract_rest : Text → Text → Bool → Filters → Bool → Filters → Option Filter
  extract_rest sql expr with_all all with_any any =
      if not (is_empty sql)
      then new_cesql_filter sql
      else if not (is_empty expr)
      then new_cel_filter expr
      else if with_all
      then new_all_filter all
      else if with_any
      then new_any_filter any
      else none

  -- The tests on the maps; `rest` is what the later tests give.
  unfoldable pub extract_maps : Texts → Texts → Texts → Option Filter → Option Filter
  extract_maps exact prefix suffix rest =
      if given exact
      then new_exact_filter exact
      else if given prefix
      then new_prefix_filter prefix
      else if given suffix
      then new_suffix_filter suffix
      else rest

  unfoldable mutual
    pub extract_filter : SubscriptionFilter → Option Filter
    extract_filter (subscription_filter exact prefix suffix sql negative all any expr) =
        extract_maps exact prefix suffix (
          extract_not negative (
            extract_rest sql expr (given_list all) (extract_filters all) (given_list any)
              (extract_filters any)))

    -- The filter of `Not`, if it is given.
    pub extract_not : NotFilter → Option Filter → Option Filter
    extract_not no_not rest = rest
    extract_not (not_of f) rest = new_not_filter (extract_filter f)

    pub extract_filters : SubscriptionFilters → Filters
    extract_filters end = empty
    extract_filters (also f fs) = add_valid (extract_filter f) (extract_filters fs)

  unfoldable pub filter_of_list : Filters → Option Filter
  filter_of_list empty = none
  filter_of_list (add f empty) = some f
  filter_of_list (add f (add g fs)) = new_all_filter (add f (add g fs))

  unfoldable pub get_filter : SubscriptionFilters → Option Filter
  get_filter filters = filter_of_list (extract_filters filters)

  unfoldable pub run : Option Filter → Event → Outcome
  run none event = pass
  run (some f) event = run_filter f event
