-- ===== src/Controller/Offset/Commit.antt =====
-- What the commit of one eventlog leaves in the storage.
pub mod Flush
use mathlib.Core.Path.{subst}
use vanus.Base.{
  ==_iff, Bool-cases, List, [], ap, arith, false, if◌then◌else◌, inl, inr, none, refl, same_number,
  some, sym, true, ℕ, ◌==◌, ◌∙◌, ◌∷◌, ◌≡◌,
}
use vanus.Trigger.Offset.{OffsetInfo}
use vanus.Controller.Offset.{EventlogOffset, OffsetStorage, commit_eventlog, created, updated}

==_comm : (a b : ℕ) → (a == b) ≡ false → (b == a) ≡ false
==_comm a b e = ground arith

-- No eventlog of the list is `k`.
abbrev pub IsFresh : ℕ → List EventlogOffset → Type 0
IsFresh k [] = Unit
IsFresh k (o ∷ os) = ((k == o.eventlog_id) ≡ false) × IsFresh k os

abbrev pub info_of : EventlogOffset → OffsetInfo
info_of o = record { eventlog_id = o.eventlog_id; offset = o.offset }

module _ (db : OffsetStorage) where
  open db use {State, stored, create_offset, update_offset, stored-create, stored-update}

  -- What is marked as there is stored as it was committed, and what is not marked is not stored.
  abbrev IsMarked : ℕ → EventlogOffset → State → Type 0
  IsMarked id o s =
      (o.check_exist ≡ true → stored s id o.eventlog_id ≡ some o.commit)
      × (o.check_exist ≡ false → stored s id o.eventlog_id ≡ none)

  -- The marks are right, and no eventlog is there twice.
  abbrev pub IsSynced : ℕ → List EventlogOffset → State → Type 0
  IsSynced id [] s = Unit
  IsSynced id (o ∷ os) s =
      (o.subscription_id ≡ id) × (IsMarked id o s × (IsFresh o.eventlog_id os × IsSynced id os s))

  abbrev pub IsFlushed : ℕ → List EventlogOffset → State → Type 0
  IsFlushed id [] s = Unit
  IsFlushed id (o ∷ os) s = (stored s id o.eventlog_id ≡ some o.offset) × IsFlushed id os s

  -- The storage creates what it does not have, and updates what it has.
  pub record Reliable : Type 0 where
    pub creates :
        (s : State) (id : ℕ) (i : OffsetInfo)
        → stored s id i.eventlog_id ≡ none
        → (s' : State) × (create_offset s id i ≡ some s')
    pub updates :
        (s : State) (id : ℕ) (i : OffsetInfo) (old : ℕ)
        → stored s id i.eventlog_id ≡ some old
        → (s' : State) × (update_offset s id i ≡ some s')

  -- One eventlog committed: what is stored and what else is unchanged.
  record Written (id : ℕ) (o : EventlogOffset) (s : State) (r : EventlogOffset × State)
      : Type 0 where
    written_offset : stored r.1 id o.eventlog_id ≡ some o.offset
    same_log : r.0.eventlog_id ≡ o.eventlog_id
    same_offset : r.0.offset ≡ o.offset
    same_owner : r.0.subscription_id ≡ o.subscription_id
    now_committed : r.0.commit ≡ o.offset
    now_there : r.0.check_exist ≡ true
    others : (k : ℕ) → (k == o.eventlog_id) ≡ false → stored r.1 id k ≡ stored s id k

  commit_first :
      (o : EventlogOffset) (s s' : State)
      → o.check_exist ≡ false
      → create_offset s o.subscription_id (info_of o) ≡ some s'
      → commit_eventlog db o s ≡ (record o { check_exist = true; commit = o.offset }, s')
  unfolding commit_eventlog created
  commit_first o s s' e w = simp (e, w)

  commit_same :
      (o : EventlogOffset) (s : State)
      → o.check_exist ≡ true
      → (o.commit == o.offset) ≡ true
      → commit_eventlog db o s ≡ (o, s)
  unfolding commit_eventlog
  commit_same o s e q = simp (e, q)

  commit_next :
      (o : EventlogOffset) (s s' : State)
      → o.check_exist ≡ true
      → (o.commit == o.offset) ≡ false
      → update_offset s o.subscription_id (info_of o) ≡ some s'
      → commit_eventlog db o s ≡ (record o { commit = o.offset }, s')
  unfolding commit_eventlog updated
  commit_next o s s' e q w = simp (e, q, w)

  -- A write to the storage for the eventlog.
  write-Written :
      (id : ℕ) (o r : EventlogOffset) (s s' : State)
      → ((k : ℕ) → stored s' id k ≡ (if k == o.eventlog_id then some o.offset else stored s id k))
      → r.eventlog_id ≡ o.eventlog_id
      → r.offset ≡ o.offset
      → r.subscription_id ≡ o.subscription_id
      → r.commit ≡ o.offset
      → r.check_exist ≡ true
      → Written id o s (r, s')
  write-Written id o r s s' w l f u c t = record {
    written_offset = w o.eventlog_id ∙ rw (same_number o.eventlog_id);
    same_log = l;
    same_offset = f;
    same_owner = u;
    now_committed = c;
    now_there = t;
    others = λ k e. w k ∙ rw e;
  }

  commit_eventlog-Written :
      (id : ℕ) (o : EventlogOffset) (s : State)
      → Reliable
      → o.subscription_id ≡ id
      → IsMarked id o s
      → Written id o s (commit_eventlog db o s)
  commit_eventlog-Written id o s ok owner synced = elim (Bool-cases o.check_exist) [
    | inr e ↦
        let w =
          ok.creates s o.subscription_id (info_of o)
            (ap (λ n. stored s n o.eventlog_id) owner ∙ synced.1 e) in
        subst (Written id o s) (sym (commit_first o s w.0 e w.1)) (
          write-Written id o (record o { check_exist = true; commit = o.offset }) s w.0
            (λ k.
              stored-create s w.0 id k (info_of o)
                (ap (λ n. create_offset s n (info_of o)) (sym owner) ∙ w.1))
            refl refl refl refl refl)
    | inl e ↦ elim (Bool-cases (o.commit == o.offset)) [
      | inl q ↦
          let same = (==_iff o.commit o.offset).0 q in
          subst (Written id o s) (sym (commit_same o s e q)) (record {
            written_offset = synced.0 e ∙ ap some same;
            same_log = refl;
            same_offset = refl;
            same_owner = refl;
            now_committed = same;
            now_there = e;
            others = λ k h. refl;
          })
      | inr q ↦
          let w =
            ok.updates s o.subscription_id (info_of o) o.commit
              (ap (λ n. stored s n o.eventlog_id) owner ∙ synced.0 e) in
          subst (Written id o s) (sym (commit_next o s w.0 e q w.1)) (
            write-Written id o (record o { commit = o.offset }) s w.0
              (λ k.
                stored-update s w.0 id k (info_of o)
                  (ap (λ n. update_offset s n (info_of o)) (sym owner) ∙ w.1))
              refl refl refl refl e)
    ]
  ]

  Written-IsSynced :
      (id : ℕ) (o : EventlogOffset) (os : List EventlogOffset) (s : State)
      (r : EventlogOffset × State)
      → Written id o s r
      → IsFresh o.eventlog_id os
      → IsSynced id os s
      → IsSynced id os r.1
  Written-IsSynced id o [] s r w f v = tt
  Written-IsSynced id o (p ∷ os) s r w f v = (
    v.0,
    (
      (
        (λ e. w.others p.eventlog_id (==_comm o.eventlog_id p.eventlog_id f.0) ∙ v.1.0.0 e),
        (λ e. w.others p.eventlog_id (==_comm o.eventlog_id p.eventlog_id f.0) ∙ v.1.0.1 e),
      ),
      (v.1.1.0, Written-IsSynced id o os s r w f.1 v.1.1.1),
    ),
  )
