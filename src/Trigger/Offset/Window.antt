-- ===== src/Trigger/Offset/Window.antt =====
-- The flow control of a subscription, and how the methods act on the trackers.
use mathlib.Core.Path.{subst}
use vanus.Base.{
  Bool, Bool-cases, Option, ap, arith, false, if◌then◌else◌, inl, inr, ltb→lt, none, refl,
  same_number, some, sym, true, ℕ, ◌+◌, ◌==◌, ◌∙◌, ◌≡◌, ◌≢◌, ◌≤◌, ◌⊎◌,
}
use vanus.Base.Int.{int_laws, ltb_ℤ, neg_part, pos, pos_part, ◌+ℤ◌, ◌≤ℤ◌}
use vanus.Base.SkipList.{SkipList}
use vanus.Trigger.Offset.{
  OffsetInfo, OffsetTracker, SubscriptionOffset, event_receive, get_commit, new_tracker,
  offset_to_commit, put_offset, tracker_or, update_tracker,
}
use vanus.Trigger.Offset.Tracker.{has-set_self, nonempty, to_commit_front}

module _ (sl : SkipList) where
  open sl use {Keys, has, front}

  -- An offset of an eventlog is out and not acknowledged.
  abbrev is_pending : Option (OffsetTracker sl) → ℕ → Bool
  is_pending none k = false
  is_pending (some t) k = has t.list k

  put-is_pending :
      (found : Option (OffsetTracker sl)) (offset k : ℕ)
      → has (put_offset sl (tracker_or sl found offset) offset).list k
        ≡ (if offset == k then true else is_pending found k)
  unfolding put_offset tracker_or new_tracker
  put-is_pending none offset k =
      sl.has-set offset k sl.new ∙ ap (λ b. if offset == k then true else b) (sl.has-new k)
  put-is_pending (some t) offset k = sl.has-set offset k t.list

  -- What may be committed is not above an offset that was put.
  put-commit_le :
      (t : OffsetTracker sl) (offset : ℕ) → offset_to_commit sl (put_offset sl t offset) ≤ offset
  unfolding put_offset
  put-commit_le t offset =
      let t' = put_offset sl t offset in
      let h = nonempty sl offset t'.list (has-set_self sl offset t.list) in
      rw (to_commit_front sl t' h) (sl.front-le t'.list offset (has-set_self sl offset t.list))

  there :
      (m : ℕ → Option (OffsetTracker sl)) (id : ℕ) (t : OffsetTracker sl)
      → update_tracker sl m id t id ≡ some t
  unfolding update_tracker
  there m id t = rw (same_number id)

  module _ (s : SubscriptionOffset sl) (i : OffsetInfo) where
    -- The state after an event is received.
    abbrev received : SubscriptionOffset sl
    received = record s {
      uack_number = s.uack_number +ℤ pos 1;
      el_offsets =
          update_tracker sl s.el_offsets i.eventlog_id
            (put_offset sl (tracker_or sl (s.el_offsets i.eventlog_id) i.offset) i.offset);
    }

    receive_open :
        s.closed ≡ false
        → event_receive sl s i
          ≡ (if ltb_ℤ s.uack_number s.max_uack_number then some received else none)
    unfolding event_receive
    receive_open c = simp c

    receive_closed : s.closed ≡ true → event_receive sl s i ≡ some s
    unfolding event_receive
    receive_closed c = rw (c, event_receive) refl

    -- What an open subscription is after an event was received.
    pub record Received (s' : SubscriptionOffset sl) : Type 0 where
      pub counted : s'.uack_number ≡ s.uack_number +ℤ pos 1
      pub bounded : s'.uack_number ≤ℤ s'.max_uack_number
      pub others : (id : ℕ) → id ≢ i.eventlog_id → s'.el_offsets id ≡ s.el_offsets id
      pub still_open : s'.closed ≡ false
      pub now_pending :
          (k : ℕ)
          → is_pending (s'.el_offsets i.eventlog_id) k
            ≡ (if i.offset == k then true else is_pending (s.el_offsets i.eventlog_id) k)
      pub held : (c : ℕ) × ((get_commit sl s' i.eventlog_id ≡ some c) × (c ≤ i.offset))

    received-Received :
        s.closed ≡ false → s.uack_number +ℤ pos 1 ≤ℤ s.max_uack_number → Received received
    unfolding update_tracker get_commit
    received-Received c h =
        let new = put_offset sl (tracker_or sl (s.el_offsets i.eventlog_id) i.offset) i.offset in
        record {
          counted = refl;
          bounded = h;
          others = λ id n. ground arith;
          still_open = c;
          now_pending = λ k.
              ap (λ o. is_pending o k) (there s.el_offsets i.eventlog_id new)
              ∙ put-is_pending (s.el_offsets i.eventlog_id) i.offset k;
          held = (
            offset_to_commit sl new,
            (
              rw (there s.el_offsets i.eventlog_id new, get_commit) refl,
              put-commit_le (tracker_or sl (s.el_offsets i.eventlog_id) i.offset) i.offset,
            ),
          );
        }

    next-le :
        ltb_ℤ s.uack_number s.max_uack_number ≡ true → s.uack_number +ℤ pos 1 ≤ℤ s.max_uack_number
    next-le h = omega (
      int_laws,
      ltb→lt (pos_part s.uack_number + neg_part s.max_uack_number)
          (pos_part s.max_uack_number + neg_part s.uack_number) h,
    )

    -- What `EventReceive` gives: it waits, or returns with the subscription.
    abbrev pub ReceiveResult : Option (SubscriptionOffset sl) → Type 0
    ReceiveResult none = (s.closed ≡ false) × (s.max_uack_number ≤ℤ s.uack_number)
    ReceiveResult (some s') =
        ((s.closed ≡ true) × (s' ≡ s))
        ⊎ ((s.uack_number +ℤ pos 1 ≤ℤ s.max_uack_number) × Received s')

    -- EventReceive waits only while the subscription is open and has its maximum of unacknowledged
    -- events. It returns a closed subscription as it is. An open one it returns only while one
    -- more event is within the maximum; then one more event is counted, the count is within the
    -- maximum, the subscription is still open, the trackers of the other eventlogs are as before,
    -- in the eventlog of the event its offset is pending besides those that were, and what
    -- GetCommit then gives for that eventlog is not above the offset.
    pub event_receive_lem : ReceiveResult (event_receive sl s i)
    event_receive_lem = elim (Bool-cases s.closed) [
      | inl c ↦ subst ReceiveResult (sym (receive_closed c)) (inl (c, refl))
      | inr c ↦
          subst ReceiveResult (sym (receive_open c))
            (elim (Bool-cases (ltb_ℤ s.uack_number s.max_uack_number)) [
              | inl t ↦ rw t (inr (next-le t, received-Received c (next-le t)))
              | inr t ↦ rw t (c, ground arith)
            ])
    ]
