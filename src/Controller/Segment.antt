-- ===== src/Controller/Segment.antt =====
-- internal/controller/eventbus/eventlog/segment.go: a segment of an eventlog as the controller sees
-- it. Times are numbers, sizes and counts are not negative, and the replicas are a map from blocks.
pub mod Update
use vanus.Base.{
  Bool, List, Option, [], false, if◌then◌else◌, ltb, none, not, some, true, ℕ, ◌&&◌, ◌==◌, ◌∷◌,
}

pub data SegmentState : Type 0 where
  unset state_created state_working state_frozen state_archived state_expired : SegmentState

pub record ReplicaGroup : Type 0 where
  pub leader : ℕ
  pub peers : List (ℕ × ℕ)

pub record LogSegment : Type 0 where
  pub id : ℕ
  pub capacity : ℕ
  pub eventlog_id : ℕ
  pub previous_segment_id : ℕ
  pub next_segment_id : ℕ
  pub start_offset_in_log : ℕ
  pub replicas : Option ReplicaGroup
  pub state : SegmentState
  pub size : ℕ
  pub number : ℕ
  pub first_event_born_time : ℕ
  pub last_event_born_time : ℕ

abbrev pub state_code : SegmentState → ℕ
state_code unset = 0
state_code state_created = 1
state_code state_working = 2
state_code state_frozen = 3
state_code state_archived = 4
state_code state_expired = 5

unfoldable pub same_state : SegmentState → SegmentState → Bool
same_state a b = state_code a == state_code b

unfoldable pub has_leader : Option ReplicaGroup → Bool
has_leader none = false
has_leader (some g) = ltb 0 g.leader

unfoldable pub is_ready : LogSegment → Bool
is_ready seg = has_leader seg.replicas

unfoldable pub is_appendable : LogSegment → Bool
is_appendable seg = is_ready seg && same_state seg.state state_working

unfoldable pub is_full : LogSegment → Bool
is_full seg = same_state seg.state state_frozen

unfoldable pub peer : ℕ → List (ℕ × ℕ) → Option ℕ
peer k [] = none
peer k (p ∷ ps) = if p.0 == k then some p.1 else peer k ps

unfoldable pub leader_of : Option ReplicaGroup → Option ℕ
leader_of none = none
leader_of (some g) = peer g.leader g.peers

unfoldable pub get_leader_block : LogSegment → Option ℕ
get_leader_block seg = if not (is_ready seg) then none else leader_of seg.replicas

-- `needed` goes with the segment from test to test.
unfoldable pub update_size : ℕ → LogSegment × Bool → LogSegment × Bool
update_size size (seg, needed) =
    if ltb seg.size size then (record seg { size = size }, true) else (seg, needed)

unfoldable pub update_number : ℕ → LogSegment × Bool → LogSegment × Bool
update_number number (seg, needed) =
    if ltb seg.number number then (record seg { number = number }, true) else (seg, needed)

unfoldable pub update_state : SegmentState → LogSegment × Bool → LogSegment × Bool
update_state state (seg, needed) =
    if not (same_state state unset) && not (same_state seg.state state)
    then (record seg { state = state }, true)
    else (seg, needed)

unfoldable pub update_first : ℕ → LogSegment × Bool → LogSegment × Bool
update_first time (seg, needed) =
    if ltb seg.first_event_born_time time
    then (record seg { first_event_born_time = time }, true)
    else (seg, needed)

unfoldable pub update_last : ℕ → LogSegment × Bool → LogSegment × Bool
update_last time (seg, needed) =
    if ltb seg.last_event_born_time time
    then (record seg { last_event_born_time = time }, true)
    else (seg, needed)

unfoldable pub is_need_update : LogSegment → LogSegment → LogSegment × Bool
is_need_update seg new =
    if is_full seg
    then (seg, false)
    else if not (seg.id == new.id)
    then (seg, false)
    else update_last new.last_event_born_time (
        update_first new.first_event_born_time
          (update_state new.state (update_number new.number (update_size new.size (seg, false)))))
