-- ===== src/Controller/Tests.antt =====
-- The controller's theorems at concrete inputs, with a storage as the key-value store's.
use mathlib.Core.Bool.{false≢true}
use mathlib.Core.Option.{some-injective}
use vanus.Base.{
  List, Option, [], ap, false, if◌then◌else◌, none, refl, same_number, some, suc, sym, true, zero,
  ℕ, ◌==◌, ◌∙◌, ◌∷◌, ◌≡◌,
}
use vanus.Trigger.Offset.{OffsetInfo}
use vanus.Controller.Offset.{OffsetStorage, SubOffset, commit_subscription}
use vanus.Controller.Offset.Commit.Flush.{Flushed, commit_subscription-Flushed}
use vanus.Controller.Segment.{
  LogSegment, get_leader_block, has_leader, is_appendable, is_full, is_need_update, is_ready,
  leader_of, peer, same_state, state_frozen, state_working,
}
use vanus.Controller.Segment.Update.{is_need_update_lem, need_update_once}
use vanus.Controller.Offset.Commit.{IsSynced, Reliable}

abbrev Table : Type 0
Table = ℕ → ℕ → Option ℕ

abbrev written_to : Table → ℕ → OffsetInfo → Table
written_to t id i =
    λ a k. if a == id then if k == i.eventlog_id then some i.offset else t a k else t a k

-- The offsets of the first eventlogs.
abbrev listed : Table → ℕ → ℕ → List OffsetInfo
listed t id zero = []
listed t id (suc n) = elim (t id n) [
  | none ↦ listed t id n
  | some o ↦ record { eventlog_id = n; offset = o } ∷ listed t id n
]

-- As the key-value store does: a key that is there is not created, one that is not is not updated.
abbrev create_in : Table → Option ℕ → ℕ → OffsetInfo → Option Table
create_in t none id i = some (written_to t id i)
create_in t (some old) id i = none

abbrev update_in : Table → Option ℕ → ℕ → OffsetInfo → Option Table
update_in t none id i = none
update_in t (some old) id i = some (written_to t id i)

written-stored :
    (t t' : Table) (id k : ℕ) (i : OffsetInfo)
    → some (written_to t id i) ≡ some t'
    → t' id k ≡ (if k == i.eventlog_id then some i.offset else t id k)
written-stored t t' id k i e =
    ap (λ f. f id k) (sym (some-injective (written_to t id i) t' e)) ∙ rw (same_number id)

create-stored :
    (t t' : Table) (found : Option ℕ) (id k : ℕ) (i : OffsetInfo)
    → create_in t found id i ≡ some t'
    → t' id k ≡ (if k == i.eventlog_id then some i.offset else t id k)
create-stored t t' none id k i e = written-stored t t' id k i e
create-stored t t' (some old) id k i e = absurd (cc)

update-stored :
    (t t' : Table) (found : Option ℕ) (id k : ℕ) (i : OffsetInfo)
    → update_in t found id i ≡ some t'
    → t' id k ≡ (if k == i.eventlog_id then some i.offset else t id k)
update-stored t t' none id k i e = absurd (cc)
update-stored t t' (some old) id k i e = written-stored t t' id k i e

abbrev table_storage : OffsetStorage
table_storage = record {
  State = Table;
  get_offsets = λ t id. some (listed t id 8);
  create_offset = λ t id i. create_in t (t id i.eventlog_id) id i;
  update_offset = λ t id i. update_in t (t id i.eventlog_id) id i;
  delete_offset = λ t id. some (λ a k. if a == id then none else t a k);
  stored = λ t id k. t id k;
  stored-create = λ t t' id k i e. create-stored t t' (t id i.eventlog_id) id k i e;
  stored-update = λ t t' id k i e. update-stored t t' (t id i.eventlog_id) id k i e;
}

table-Reliable : Reliable table_storage
table-Reliable = record {
  creates = λ s id i h. (written_to s id i, ap (λ f. create_in s f id i) h);
  updates = λ s id i old h. (written_to s id i, ap (λ f. update_in s f id i) h);
}

-- Eventlog 3 was committed at 10 and is at 12 now, eventlog 5 is new.
abbrev table : Table
table = λ id k. if id == 1 then if k == 3 then some 10 else none else none

abbrev subscription : SubOffset
subscription = record {
  subscription_id = 1;
  offsets =
      record { subscription_id = 1; eventlog_id = 3; offset = 12; commit = 10; check_exist = true }
      ∷ record { subscription_id = 1; eventlog_id = 5; offset = 7; commit = 0; check_exist = false }
      ∷ [];
  stopped = false;
}

subscription-IsSynced : IsSynced table_storage 1 subscription.offsets table
subscription-IsSynced = (
  refl,
  (
    ((λ e. refl), (λ e. absurd (false≢true (sym e)))),
    ((refl, tt), (refl, (((λ e. absurd (false≢true e)), (λ e. refl)), (tt, tt)))),
  ),
)

commit_subscription-Flushed_example :
    Flushed table_storage subscription (commit_subscription table_storage subscription table)
commit_subscription-Flushed_example =
    commit_subscription-Flushed table_storage subscription table table-Reliable refl
      subscription-IsSynced

abbrev segment : LogSegment
segment = record {
  id = 7;
  capacity = 1000;
  eventlog_id = 2;
  previous_segment_id = 0;
  next_segment_id = 0;
  start_offset_in_log = 0;
  replicas = some (record { leader = 11; peers = (11, 1) ∷ (12, 2) ∷ [] });
  state = state_working;
  size = 100;
  number = 4;
  first_event_born_time = 50;
  last_event_born_time = 60;
}

-- More events, and full.
abbrev report : LogSegment
report = record segment { size = 990; number = 30; state = state_frozen; last_event_born_time = 80 }

is_need_update_lem_example :
    (is_need_update segment report).0
    ≡ record segment { size = 990; number = 30; state = state_frozen; last_event_born_time = 80 }
unfolding is_full same_state
is_need_update_lem_example = is_need_update_lem segment report

need_update_once_example :
    is_need_update (is_need_update segment report).0 report
    ≡ ((is_need_update segment report).0, false)
need_update_once_example = need_update_once segment report

leader_block : (get_leader_block segment ≡ some 1) × (is_appendable segment ≡ true)
unfolding get_leader_block is_ready has_leader leader_of peer is_appendable same_state
leader_block = (refl, refl)
