-- ===== src/Trigger/Offset/Tracker.antt =====
-- The offset that is committed for one eventlog never passes an event that is not acknowledged.
use native.Mathlib.Decide.{ℕ_discrete}
use vanus.Base.{
  Bool, Bool-cases, arith, false, if◌then◌else◌, inl, inr, ltb, ltb-false, sym, true, ℕ, ◌%◌, ◌&&◌,
  ◌+◌, ◌<◌, ◌==◌, ◌^◌, ◌≡◌, ◌≢◌, ◌≤◌, ◌⊎◌,
}
use vanus.Base.SkipList.{SkipList}
use vanus.Trigger.Offset.{OffsetTracker, commit_offset, new_tracker, offset_to_commit, put_offset}

module _ (sl : SkipList) where
  open sl use {
    has, set as set_key, remove, front, back, new, len, has-new, has-set, has-remove, has-front,
    has-back, front-le, le-back, empty_has,
  }

  -- Every pending offset lies between the initial and the greatest one.
  pub record IsTracking (o : OffsetTracker sl) : Type 0 where
    pub ordered : o.init_offset ≤ o.max_offset
    pub small : o.max_offset + 1 < 2 ^ 64
    pub pending_low : (k : ℕ) → has o.list k ≡ true → o.init_offset ≤ k
    pub pending_high : (k : ℕ) → has o.list k ≡ true → k ≤ o.max_offset

  clash : {b : Bool} → b ≡ true → b ≡ false → ⊥
  clash p q = cc

  pub new_tracker-IsTracking : (init : ℕ) → init + 1 < 2 ^ 64 → IsTracking (new_tracker sl init)
  unfolding new_tracker
  new_tracker-IsTracking init h = record {
    ordered = omega arith;
    small = h;
    pending_low = λ k p. absurd (clash p (has-new k));
    pending_high = λ k p. absurd (clash p (has-new k));
  }

  pub nonempty : (k : ℕ) (l : sl.Keys) → has l k ≡ true → len l ≢ 0
  nonempty k l p e = clash p (empty_has l k e)

  set_cases : (k j : ℕ) (l : sl.Keys) → has (set_key k l) j ≡ true → (k ≡ j) ⊎ (has l j ≡ true)
  set_cases k j l p = ground (arith, has-set k j l)

  pub has-set_self : (k : ℕ) (l : sl.Keys) → has (set_key k l) k ≡ true
  has-set_self k l = ground (arith, has-set k k l)

  has-set_keeps : (k j : ℕ) (l : sl.Keys) → has l j ≡ true → has (set_key k l) j ≡ true
  has-set_keeps k j l p = ground (arith, has-set k j l)

  remove_cases : (k j : ℕ) (l : sl.Keys) → has (remove k l) j ≡ true → (has l j ≡ true) × (k ≢ j)
  remove_cases k j l p = ground (arith, has-remove k j l)

  -- The greatest key after an offset that is not below the others was put.
  back-set :
      (o : OffsetTracker sl) (offset : ℕ)
      → IsTracking o
      → o.max_offset ≤ offset
      → back (set_key offset o.list) ≡ offset
  back-set o offset v h =
      let l = set_key offset o.list in
      let here : has l offset ≡ true = has-set_self offset o.list in
      let le : offset ≤ back l = le-back l offset here in
      let top : has l (back l) ≡ true = has-back l (nonempty offset l here) in
      elim (set_cases offset (back l) o.list top) [
        | inl e ↦ sym e
        | inr p ↦ omega (arith, v.pending_high (back l) p)
      ]

  -- The methods keep the invariant, where offsets arrive in ascending order.
  pub put_offset-IsTracking :
      (o : OffsetTracker sl) (offset : ℕ)
      → IsTracking o
      → o.max_offset ≤ offset
      → offset + 1 < 2 ^ 64
      → IsTracking (put_offset sl o offset)
  unfolding put_offset
  put_offset-IsTracking o offset v h k =
      let b = back-set o offset v h in
      record {
        ordered = rw b (omega arith);
        small = rw b k;
        pending_low = λ j p. elim (set_cases offset j o.list p) [
          | inl e ↦ omega arith
          | inr q ↦ v.pending_low j q
        ];
        pending_high = λ j p. rw b (elim (set_cases offset j o.list p) [
          | inl e ↦ omega arith
          | inr q ↦ omega (arith, v.pending_high j q)
        ]);
      }

  pub commit_offset-IsTracking :
      (o : OffsetTracker sl) (offset : ℕ) → IsTracking o → IsTracking (commit_offset sl o offset)
  unfolding commit_offset
  commit_offset-IsTracking o offset v = record {
    ordered = v.ordered;
    small = v.small;
    pending_low = λ j p. v.pending_low j (remove_cases offset j o.list p).0;
    pending_high = λ j p. v.pending_high j (remove_cases offset j o.list p).0;
  }

  to_commit_empty :
      (o : OffsetTracker sl)
      → IsTracking o
      → len o.list ≡ 0
      → offset_to_commit sl o
        ≡ (if o.max_offset == o.init_offset then o.init_offset else o.max_offset + 1)
  unfolding offset_to_commit
  to_commit_empty o v e =
      let small : o.max_offset + 1 < 2 ^ 64 = v.small in
      let m : (o.max_offset + 1) % 2 ^ 64 ≡ o.max_offset + 1 = omega arith in rw (e, m)

  pub to_commit_front :
      (o : OffsetTracker sl) → len o.list ≢ 0 → offset_to_commit sl o ≡ front o.list
  unfolding offset_to_commit
  to_commit_front o h = ground arith

  to_commit_below :
      (o : OffsetTracker sl)
      → IsTracking o
      → ((k : ℕ) → has o.list k ≡ true → offset_to_commit sl o ≤ k)
        × (o.init_offset ≤ offset_to_commit sl o)
  to_commit_below o v = elim (ℕ_discrete (len o.list) 0) [
    | yes e ↦ (
      λ k p. absurd (nonempty k o.list p e),
      rw (to_commit_empty o v e) (ground (arith, v.ordered)),
    )
    | no h ↦ (
      λ k p. rw (to_commit_front o h) (front-le o.list k p),
      rw (to_commit_front o h) (v.pending_low (front o.list) (has-front o.list h)),
    )
  ]

  -- In a tracker whose pending offsets lie between its initial and its greatest one, and whose
  -- greatest offset is below 2^64 - 1, no pending offset is less than the offset to commit, which
  -- is not below the initial one.
  pub offset_to_commit_safe :
      (o : OffsetTracker sl) (k : ℕ)
      → IsTracking o
      → ((has o.list k && ltb k (offset_to_commit sl o)) ≡ false)
        × (o.init_offset ≤ offset_to_commit sl o)
  offset_to_commit_safe o k v = (
    elim (Bool-cases (has o.list k)) [
      | inl p ↦ rw (p, ltb-false k (offset_to_commit sl o) ((to_commit_below o v).0 k p))
      | inr p ↦ rw p
    ],
    (to_commit_below o v).1,
  )

  to_commit_le : (o : OffsetTracker sl) → IsTracking o → offset_to_commit sl o ≤ o.max_offset + 1
  to_commit_le o v = elim (ℕ_discrete (len o.list) 0) [
    | yes e ↦ rw (to_commit_empty o v e) (ground (arith, v.ordered))
    | no h ↦
        rw (to_commit_front o h) (omega (arith, v.pending_high (front o.list) (has-front o.list h)))
  ]

  -- In a tracker whose pending offsets lie between its initial and its greatest one, and whose
  -- greatest offset is below 2^64 - 1, neither putting an offset above the greatest one nor
  -- committing any offset makes the offset to commit smaller.
  pub to_commit_monotone :
      (o : OffsetTracker sl) (next offset : ℕ)
      → IsTracking o
      → o.max_offset < next
      → (offset_to_commit sl o ≤ offset_to_commit sl (put_offset sl o next))
        × (offset_to_commit sl o ≤ offset_to_commit sl (commit_offset sl o offset))
  unfolding put_offset commit_offset
  to_commit_monotone o next offset v h = (put_monotone, commit_monotone)
    where
      put_monotone : offset_to_commit sl o ≤ offset_to_commit sl (put_offset sl o next)
      put_monotone =
          let l = set_key next o.list in
          let some_key : len l ≢ 0 = nonempty next l (has-set_self next o.list) in
          rw (to_commit_front (put_offset sl o next) some_key)
            (elim (set_cases next (front l) o.list (has-front l some_key)) [
              | inl e ↦ omega (arith, to_commit_le o v)
              | inr p ↦ (to_commit_below o v).0 (front l) p
            ])

      commit_monotone : offset_to_commit sl o ≤ offset_to_commit sl (commit_offset sl o offset)
      commit_monotone =
          let o' = commit_offset sl o offset in
          elim (ℕ_discrete (len o'.list) 0) [
            | yes e ↦
                rw (to_commit_empty o' (commit_offset-IsTracking o offset v) e)
                  (elim (ℕ_discrete o.max_offset o.init_offset) [
                    | yes q ↦ ground (arith, low q)
                    | no q ↦ ground (arith, to_commit_le o v)
                  ])
            | no h ↦ rw (to_commit_front o' h) (
                (to_commit_below o v).0 (front o'.list)
                  (remove_cases offset (front o'.list) o.list (has-front o'.list h)).0)
          ]
        where
          low : o.max_offset ≡ o.init_offset → offset_to_commit sl o ≤ o.init_offset
          low q = elim (ℕ_discrete (len o.list) 0) [
            | yes e ↦ rw (to_commit_empty o v e) (ground arith)
            | no h ↦
                rw (to_commit_front o h)
                  (omega (arith, v.pending_high (front o.list) (has-front o.list h)))
          ]

  -- A tracker that begins with the offset it first receives, and has that offset committed,
  -- reports the same offset again and not the next one.
  pub first_offset_again :
      (offset : ℕ)
      → offset_to_commit sl (commit_offset sl (put_offset sl (new_tracker sl offset) offset) offset)
        ≡ offset
  unfolding put_offset commit_offset new_tracker offset_to_commit
  first_offset_again offset =
      let l = set_key offset new in
      let only : (k : ℕ) → has l k ≡ true → k ≡ offset = λ k p. elim (set_cases offset k new p) [
        | inl e ↦ sym e
        | inr q ↦ absurd (clash q (has-new k))
      ] in
      let top : back l ≡ offset =
        only (back l) (has-back l (nonempty offset l (has-set_self offset new))) in
      elim (ℕ_discrete (len (remove offset l)) 0) [
        | yes e ↦ rw (e, top) (ground arith)
        | no h ↦
            (let p =
                remove_cases offset (front (remove offset l)) l (has-front (remove offset l) h) in
              absurd (p.1 (sym (only (front (remove offset l)) p.0))))
      ]
