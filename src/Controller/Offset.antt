-- ===== src/Controller/Offset.antt =====
-- internal/controller/trigger/subscription/offset/offset.go: the offsets of the subscriptions, kept in
-- memory and committed to a storage from time to time. A sync.Map is an association list; the
-- goroutines of a commit are run in turn.
pub mod Commit
use vanus.Base.{
  Bool, List, Option, [], false, if◌then◌else◌, map, none, not, some, true, ℕ, ◌==◌, ◌∷◌, ◌≡◌,
}
use vanus.Trigger.Offset.{OffsetInfo}

-- The offset storage, over etcd. An operation that fails returns `none` and writes nothing.
pub record OffsetStorage : Type 1 where
  pub State : Type 0
  pub get_offsets : State → ℕ → Option (List OffsetInfo)
  pub create_offset : State → ℕ → OffsetInfo → Option State
  pub update_offset : State → ℕ → OffsetInfo → Option State
  pub delete_offset : State → ℕ → Option State
  -- What is stored for a subscription and an eventlog, and that a write writes there only.
  pub stored : State → ℕ → ℕ → Option ℕ
  pub stored-create :
      (s s' : State) (id k : ℕ) (i : OffsetInfo)
      → create_offset s id i ≡ some s'
      → stored s' id k ≡ (if k == i.eventlog_id then some i.offset else stored s id k)
  pub stored-update :
      (s s' : State) (id k : ℕ) (i : OffsetInfo)
      → update_offset s id i ≡ some s'
      → stored s' id k ≡ (if k == i.eventlog_id then some i.offset else stored s id k)

pub record EventlogOffset : Type 0 where
  pub subscription_id : ℕ
  pub eventlog_id : ℕ
  pub offset : ℕ
  pub commit : ℕ
  pub check_exist : Bool

pub record SubOffset : Type 0 where
  pub subscription_id : ℕ
  pub offsets : List EventlogOffset
  pub stopped : Bool

unfoldable pub loaded_offset : ℕ → OffsetInfo → EventlogOffset
loaded_offset id o = record {
  subscription_id = id;
  eventlog_id = o.eventlog_id;
  offset = o.offset;
  commit = o.offset;
  check_exist = true;
}

unfoldable pub created_offset : ℕ → OffsetInfo → EventlogOffset
created_offset id i = record {
  subscription_id = id;
  eventlog_id = i.eventlog_id;
  offset = i.offset;
  commit = 0;
  check_exist = false;
}

unfoldable pub set_eventlog : EventlogOffset → ℕ → EventlogOffset
set_eventlog o offset = record o { offset = offset }

-- The offset of an eventlog is set, where it is missing it is created first.
unfoldable pub put_eventlog : ℕ → OffsetInfo → List EventlogOffset → List EventlogOffset
put_eventlog id i [] = set_eventlog (created_offset id i) i.offset ∷ []
put_eventlog id i (o ∷ os) =
    if o.eventlog_id == i.eventlog_id
    then set_eventlog o i.offset ∷ os
    else o ∷ put_eventlog id i os

unfoldable pub put_offsets : SubOffset → List OffsetInfo → SubOffset
put_offsets o [] = o
put_offsets o (i ∷ infos) =
    put_offsets (record o { offsets = put_eventlog o.subscription_id i o.offsets }) infos

unfoldable pub offsets_of : SubOffset → List OffsetInfo
offsets_of o = map (λ e. record { eventlog_id = e.eventlog_id; offset = e.offset }) o.offsets

unfoldable pub stop : SubOffset → SubOffset
stop o = record o { stopped = true }

-- `sync.Map.Store`, where a list has an eventlog twice the last one stays.
unfoldable pub store_offset : EventlogOffset → List EventlogOffset → List EventlogOffset
store_offset e [] = e ∷ []
store_offset e (o ∷ os) = if o.eventlog_id == e.eventlog_id then e ∷ os else o ∷ store_offset e os

unfoldable pub store_all : ℕ → List OffsetInfo → List EventlogOffset → List EventlogOffset
store_all id [] os = os
store_all id (i ∷ infos) os = store_all id infos (store_offset (loaded_offset id i) os)

unfoldable pub loaded_subscription : ℕ → Option (List OffsetInfo) → Option SubOffset
loaded_subscription id none = none
loaded_subscription id (some list) =
    some (record { subscription_id = id; offsets = store_all id list []; stopped = false })

module _ (db : OffsetStorage) where
  open db use {State, get_offsets, create_offset, update_offset, delete_offset}

  unfoldable pub init_subscription_offset : State → ℕ → Option SubOffset
  init_subscription_offset s id = loaded_subscription id (get_offsets s id)

  -- The eventlog's offset and the storage after a write; a failed one changes neither.
  unfoldable pub created : EventlogOffset → State → Option State → EventlogOffset × State
  created o s none = (o, s)
  created o s (some s') = (record o { check_exist = true; commit = o.offset }, s')

  unfoldable pub updated : EventlogOffset → State → Option State → EventlogOffset × State
  updated o s none = (o, s)
  updated o s (some s') = (record o { commit = o.offset }, s')

  unfoldable pub commit_eventlog : EventlogOffset → State → EventlogOffset × State
  commit_eventlog o s =
      let i : OffsetInfo = record { eventlog_id = o.eventlog_id; offset = o.offset } in
      if not o.check_exist
      then created o s (create_offset s o.subscription_id i)
      else if o.commit == o.offset
      then (o, s)
      else updated o s (update_offset s o.subscription_id i)

  unfoldable pub commit_list : List EventlogOffset → State → List EventlogOffset × State
  commit_list [] s = ([], s)
  commit_list (o ∷ os) s =
      let one = commit_eventlog o s in let rest = commit_list os one.1 in (one.0 ∷ rest.0, rest.1)

  unfoldable pub commit_subscription : SubOffset → State → SubOffset × State
  commit_subscription o s =
      let done = commit_list o.offsets s in
      if o.stopped then (o, s) else (record o { offsets = done.0 }, done.1)

  pub record Manager : Type 0 where
    pub subscription_offset : List SubOffset
    pub storage : State

  unfoldable pub load : ℕ → List SubOffset → Option SubOffset
  load id [] = none
  load id (o ∷ os) = if o.subscription_id == id then some o else load id os

  unfoldable pub store : SubOffset → List SubOffset → List SubOffset
  store o [] = o ∷ []
  store o (p ∷ ps) = if p.subscription_id == o.subscription_id then o ∷ ps else p ∷ store o ps

  unfoldable pub delete : ℕ → List SubOffset → List SubOffset
  delete id [] = []
  delete id (o ∷ os) = if o.subscription_id == id then os else o ∷ delete id os

  unfoldable pub load_or_init : Manager → ℕ → Option SubOffset → Option SubOffset
  load_or_init m id none = init_subscription_offset m.storage id
  load_or_init m id (some o) = some o

  unfoldable pub get_subscription_offset : Manager → ℕ → Option SubOffset
  get_subscription_offset m id = load_or_init m id (load id m.subscription_offset)

  -- The offsets, and the manager that keeps them; none for an error of the storage.
  unfoldable pub got_offset : Manager → Option SubOffset → Option (List OffsetInfo × Manager)
  got_offset m none = none
  got_offset m (some o) =
      some (offsets_of o, record m { subscription_offset = store o m.subscription_offset })

  unfoldable pub get_offset : Manager → ℕ → Option (List OffsetInfo × Manager)
  get_offset m id = got_offset m (get_subscription_offset m id)

  unfoldable pub committed : Manager → SubOffset × State → Manager
  committed m (o, s) = record m { subscription_offset = store o m.subscription_offset; storage = s }

  unfoldable pub offset_with : Manager → List OffsetInfo → Bool → Option SubOffset → Option Manager
  offset_with m infos commit none = none
  offset_with m infos commit (some o) =
      let o' = put_offsets o infos in
      some (committed m (if commit then commit_subscription o' m.storage else (o', m.storage)))

  unfoldable pub offset : Manager → ℕ → List OffsetInfo → Bool → Option Manager
  offset m id infos commit = offset_with m infos commit (get_subscription_offset m id)

  -- The manager, and whether the storage reported an error.
  unfoldable pub deleted : Manager → Option State → Manager × Bool
  deleted m none = (m, true)
  deleted m (some s) = (record m { storage = s }, false)

  unfoldable pub remove_register_subscription : Manager → ℕ → Manager × Bool
  remove_register_subscription m id =
      deleted (record m { subscription_offset = delete id m.subscription_offset })
        (delete_offset m.storage id)

  unfoldable pub commit_all : List SubOffset → State → List SubOffset × State
  commit_all [] s = ([], s)
  commit_all (o ∷ os) s =
      let one = commit_subscription o s in
      let rest = commit_all os one.1 in (one.0 ∷ rest.0, rest.1)

  unfoldable pub commit : Manager → Manager
  commit m =
      let done = commit_all m.subscription_offset m.storage in
      record { subscription_offset = done.0; storage = done.1 }
