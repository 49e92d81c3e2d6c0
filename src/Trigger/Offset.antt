-- ===== src/Trigger/Offset.antt =====
-- internal/trigger/offset/offset.go: which offsets of the eventlogs of a subscription may be
-- committed. Methods run under the lock of `cond`; one that waits returns `none` here.
pub mod Tracker
pub mod Window
use vanus.Base.{
  Bool, List, Option, [], false, if◌then◌else◌, none, some, true, ℕ, ◌%◌, ◌+◌, ◌==◌, ◌^◌, ◌∷◌,
}
use vanus.Base.Int.{ltb_ℤ, pos, ℤ, ◌+ℤ◌, ◌-ℤ◌}
use vanus.Base.SkipList.{SkipList}

-- `info.OffsetInfo`.
pub record OffsetInfo : Type 0 where
  pub eventlog_id : ℕ
  pub offset : ℕ

module _ (sl : SkipList) where
  open sl use {Keys, new, set as set_key, remove, len, front, back}

  pub record OffsetTracker : Type 0 where
    pub max_offset : ℕ
    pub init_offset : ℕ
    pub list : Keys

  unfoldable pub new_tracker : ℕ → OffsetTracker
  new_tracker init = record { max_offset = init; init_offset = init; list = new }

  unfoldable pub put_offset : OffsetTracker → ℕ → OffsetTracker
  put_offset o offset =
      let list = set_key offset o.list in record o { list = list; max_offset = back list }

  unfoldable pub commit_offset : OffsetTracker → ℕ → OffsetTracker
  commit_offset o offset = record o { list = remove offset o.list }

  -- `maxOffset + 1` wraps as a uint64.
  unfoldable pub offset_to_commit : OffsetTracker → ℕ
  offset_to_commit o =
      if len o.list == 0
      then if o.max_offset == o.init_offset then o.init_offset else (o.max_offset + 1) % 2 ^ 64
      else front o.list

  -- The trackers are a map by eventlog.
  pub record SubscriptionOffset : Type 0 where
    pub max_uack_number : ℤ
    pub uack_number : ℤ
    pub el_offsets : ℕ → Option OffsetTracker
    pub closed : Bool

  unfoldable pub update_tracker :
      (ℕ → Option OffsetTracker) → ℕ → OffsetTracker → ℕ → Option OffsetTracker
  update_tracker m id t j = if id == j then some t else m j

  init_trackers : List OffsetInfo → (ℕ → Option OffsetTracker) → ℕ → Option OffsetTracker
  unfolding update_tracker
  init_trackers [] m = m
  init_trackers (i ∷ is) m =
      init_trackers is (update_tracker m i.eventlog_id (new_tracker i.offset))

  unfoldable pub new_subscription_offset : ℤ → List OffsetInfo → SubscriptionOffset
  unfolding init_trackers
  new_subscription_offset max infos = record {
    max_uack_number = max;
    uack_number = pos 0;
    el_offsets = init_trackers infos (λ _. none);
    closed = false;
  }

  unfoldable pub close : SubscriptionOffset → SubscriptionOffset
  close s = record s { closed = true }

  tracker_or : Option OffsetTracker → ℕ → OffsetTracker
  tracker_or (some t) offset = t
  tracker_or none offset = new_tracker offset

  -- `none`: the call waits until a commit or the close wakes it.
  unfoldable pub event_receive : SubscriptionOffset → OffsetInfo → Option SubscriptionOffset
  unfolding tracker_or
  event_receive s i =
      if s.closed
      then some s
      else if ltb_ℤ s.uack_number s.max_uack_number
      then some (record s {
        uack_number = s.uack_number +ℤ pos 1;
        el_offsets =
            update_tracker s.el_offsets i.eventlog_id
              (put_offset (tracker_or (s.el_offsets i.eventlog_id) i.offset) i.offset);
      })
      else none

  unfoldable pub event_commit : SubscriptionOffset → OffsetInfo → SubscriptionOffset
  event_commit s i = if s.closed then s else elim (s.el_offsets i.eventlog_id) [
    | none ↦ s
    | some tracker ↦ record s {
      uack_number = s.uack_number -ℤ pos 1;
      el_offsets = update_tracker s.el_offsets i.eventlog_id (commit_offset tracker i.offset);
    }
  ]

  -- `GetCommit` at one eventlog.
  unfoldable pub get_commit : SubscriptionOffset → ℕ → Option ℕ
  get_commit s id = elim (s.el_offsets id) [ none ↦ none | some t ↦ some (offset_to_commit t) ]
