-- ===== src/Controller/Offset/Commit/Flush.antt =====
-- What a commit leaves in the storage.
use mathlib.Core.Bool.{true≢false}
use mathlib.Core.Path.{subst}
use vanus.Base.{List, [], ap, false, map, refl, some, sym, ℕ, ◌==◌, ◌∙◌, ◌∷◌, ◌≡◌}
use vanus.Controller.Offset.{
  EventlogOffset, OffsetStorage, SubOffset, commit_eventlog, commit_list, commit_subscription,
  offsets_of,
}
use vanus.Controller.Offset.Commit.{
  IsFlushed, IsFresh, IsSynced, Reliable, Written-IsSynced, commit_eventlog-Written, info_of,
}

module _ (db : OffsetStorage) where
  open db use {State, stored}

  -- The list committed: only its eventlogs are written.
  commit_list-others :
      (id : ℕ) (os : List EventlogOffset) (s : State)
      → Reliable db
      → IsSynced db id os s
      → (k : ℕ) → IsFresh k os
      → stored (commit_list db os s).1 id k ≡ stored s id k
  unfolding commit_list
  commit_list-others id [] s ok v k f = refl
  commit_list-others id (o ∷ os) s ok v k f =
      let w = commit_eventlog-Written db id o s ok v.0 v.1.0 in
      commit_list-others id os (commit_eventlog db o s).1 ok
        (Written-IsSynced db id o os s (commit_eventlog db o s) w v.1.1.0 v.1.1.1) k f.1
      ∙ w.others k f.0

  commit_list-IsFresh :
      (k : ℕ) (os : List EventlogOffset) (s : State)
      → Reliable db
      → (id : ℕ) → IsSynced db id os s
      → IsFresh k os
      → IsFresh k (commit_list db os s).0
  unfolding commit_list
  commit_list-IsFresh k [] s ok id v f = tt
  commit_list-IsFresh k (o ∷ os) s ok id v f =
      let w = commit_eventlog-Written db id o s ok v.0 v.1.0 in
      let v' = Written-IsSynced db id o os s (commit_eventlog db o s) w v.1.1.0 v.1.1.1 in
      (
        ap (λ n. k == n) w.same_log ∙ f.0,
        commit_list-IsFresh k os (commit_eventlog db o s).1 ok id v' f.1,
      )

  commit_list-IsFlushed :
      (id : ℕ) (os : List EventlogOffset) (s : State)
      → Reliable db
      → IsSynced db id os s
      → IsFlushed db id (commit_list db os s).0 (commit_list db os s).1
        × IsSynced db id (commit_list db os s).0 (commit_list db os s).1
  unfolding commit_list
  commit_list-IsFlushed id [] s ok v = (tt, tt)
  commit_list-IsFlushed id (o ∷ os) s ok v =
      let r = commit_eventlog db o s in
      let w = commit_eventlog-Written db id o s ok v.0 v.1.0 in
      let v' = Written-IsSynced db id o os s r w v.1.1.0 v.1.1.1 in
      let rest = commit_list-IsFlushed id os r.1 ok v' in
      let kept : stored (commit_list db os r.1).1 id r.0.eventlog_id ≡ some o.offset =
        ap (λ k. stored (commit_list db os r.1).1 id k) w.same_log
        ∙ (commit_list-others id os r.1 ok v' o.eventlog_id v.1.1.0 ∙ w.written_offset) in
      (
        (kept ∙ ap some (sym w.same_offset), rest.0),
        (
          w.same_owner ∙ v.0,
          (
            (
              (λ e. kept ∙ ap some (sym w.now_committed)),
              (λ e. absurd (true≢false (sym w.now_there ∙ e))),
            ),
            (
              subst (λ k. IsFresh k (commit_list db os r.1).0) (sym w.same_log)
                  (commit_list-IsFresh o.eventlog_id os r.1 ok id v' v.1.1.0),
              rest.1,
            ),
          ),
        ),
      )

  commit_list-infos :
      (id : ℕ) (os : List EventlogOffset) (s : State)
      → Reliable db
      → IsSynced db id os s
      → map info_of (commit_list db os s).0 ≡ map info_of os
  unfolding commit_list
  commit_list-infos id [] s ok v = refl
  commit_list-infos id (o ∷ os) s ok v =
      let w = commit_eventlog-Written db id o s ok v.0 v.1.0 in
      let v' = Written-IsSynced db id o os s (commit_eventlog db o s) w v.1.1.0 v.1.1.1 in
      let head : info_of (commit_eventlog db o s).0 ≡ info_of o = rw (w.same_log, w.same_offset) in
      ap (λ t. t ∷ map info_of (commit_list db os (commit_eventlog db o s).1).0) head
      ∙ ap (λ t. info_of o ∷ t) (commit_list-infos id os (commit_eventlog db o s).1 ok v')

  commit_open :
      (o : SubOffset) (s : State)
      → o.stopped ≡ false
      → commit_subscription db o s
        ≡ (record o { offsets = (commit_list db o.offsets s).0 }, (commit_list db o.offsets s).1)
  unfolding commit_subscription
  commit_open o s h = simp h

  -- The storage has every offset that the subscription has.
  pub record Flushed (o : SubOffset) (r : SubOffset × State) : Type 0 where
    pub flushed : IsFlushed db o.subscription_id r.0.offsets r.1
    pub synced : IsSynced db o.subscription_id r.0.offsets r.1
    pub same_offsets : offsets_of r.0 ≡ offsets_of o

  -- Committing a subscription that is not stopped, to a storage that creates an offset that it
  -- does not have and updates one that it has, leaves the offset of each of its eventlogs in the
  -- storage and the subscription's offsets as they were. Before, what is marked as there is stored
  -- as it was committed, what is not marked is not stored, and no eventlog is there twice; this
  -- holds afterwards too.
  pub commit_subscription-Flushed :
      (o : SubOffset) (s : State)
      → Reliable db
      → o.stopped ≡ false
      → IsSynced db o.subscription_id o.offsets s
      → Flushed o (commit_subscription db o s)
  unfolding offsets_of
  commit_subscription-Flushed o s ok h v =
      let done = commit_list-IsFlushed o.subscription_id o.offsets s ok v in
      subst (Flushed o) (sym (commit_open o s h)) (record {
        flushed = done.0;
        synced = done.1;
        same_offsets = commit_list-infos o.subscription_id o.offsets s ok v;
      })
