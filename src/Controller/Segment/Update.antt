-- ===== src/Controller/Segment/Update.antt =====
-- Reports of a segment's state.
use mathlib.Core.Bool.{false≢true}
use vanus.Base.{
  Bool, Bool-cases, ap, arith, false, if◌then◌else◌, inl, inr, ltb, ltb-false, not, same_number,
  sym, true, ℕ, ◌&&◌, ◌==◌, ◌||◌, ◌∙◌, ◌≡◌, ◌≤◌,
}
use vanus.Controller.Segment.{
  LogSegment, SegmentState, is_full, is_need_update, same_state, state_code, unset, update_first,
  update_last, update_number, update_size, update_state,
}

-- What is at least the report's.
pub record Covers (seg new : LogSegment) : Type 0 where
  pub size_covered : new.size ≤ seg.size
  pub number_covered : new.number ≤ seg.number
  pub state_covered :
      (not (same_state new.state unset) && not (same_state seg.state new.state)) ≡ false
  pub first_covered : new.first_event_born_time ≤ seg.first_event_born_time
  pub last_covered : new.last_event_born_time ≤ seg.last_event_born_time

-- A segment that covers a report is not changed by it.
covered-same : (seg new : LogSegment) → Covers seg new → is_need_update seg new ≡ (seg, false)
unfolding is_need_update update_last update_first update_state update_number update_size
covered-same seg new c = elim (Bool-cases (is_full seg)) [
  | inl e ↦ rw e
  | inr e ↦ elim (Bool-cases (seg.id == new.id)) [
    | inr q ↦ rw (e, q)
    | inl q ↦ simp (
      e,
      q,
      ltb-false seg.size new.size c.size_covered,
      ltb-false seg.number new.number c.number_covered,
      c.state_covered,
      ltb-false seg.first_event_born_time new.first_event_born_time c.first_covered,
      ltb-false seg.last_event_born_time new.last_event_born_time c.last_covered,
    )
  ]
]

abbrev larger : ℕ → ℕ → ℕ
larger a b = if ltb a b then b else a

larger_bounds : (a b : ℕ) → (a ≤ larger a b) × (b ≤ larger a b)
larger_bounds a b = ground arith

abbrev state_after : SegmentState → SegmentState → SegmentState
state_after old new = if same_state new unset then old else new

-- The segment with the greater of each value, and the state of the report if it has one.
abbrev pub merged : LogSegment → LogSegment → LogSegment
merged seg new = record seg {
  size = larger seg.size new.size;
  number = larger seg.number new.number;
  state = state_after seg.state new.state;
  first_event_born_time = larger seg.first_event_born_time new.first_event_born_time;
  last_event_born_time = larger seg.last_event_born_time new.last_event_born_time;
}

same_state-eq : (a b : SegmentState) → same_state a b ≡ true → a ≡ b
unfolding same_state
same_state-eq a b e = ground arith

same_state_self : (a : SegmentState) → same_state a a ≡ true
unfolding same_state
same_state_self a = same_number (state_code a)

size_step :
    (n : ℕ) (p : LogSegment × Bool) → (update_size n p).0 ≡ record p.0 { size = larger p.0.size n }
unfolding update_size
size_step n (seg, needed) = elim (Bool-cases (ltb seg.size n)) [ inl e ↦ simp e | inr e ↦ simp e ]

number_step :
    (n : ℕ) (p : LogSegment × Bool)
    → (update_number n p).0 ≡ record p.0 { number = larger p.0.number n }
unfolding update_number
number_step n (seg, needed) = elim (Bool-cases (ltb seg.number n)) [
  | inl e ↦ simp e
  | inr e ↦ simp e
]

first_step :
    (n : ℕ) (p : LogSegment × Bool)
    → (update_first n p).0
      ≡ record p.0 { first_event_born_time = larger p.0.first_event_born_time n }
unfolding update_first
first_step n (seg, needed) = elim (Bool-cases (ltb seg.first_event_born_time n)) [
  | inl e ↦ simp e
  | inr e ↦ simp e
]

last_step :
    (n : ℕ) (p : LogSegment × Bool)
    → (update_last n p).0 ≡ record p.0 { last_event_born_time = larger p.0.last_event_born_time n }
unfolding update_last
last_step n (seg, needed) = elim (Bool-cases (ltb seg.last_event_born_time n)) [
  | inl e ↦ simp e
  | inr e ↦ simp e
]

state_step :
    (s : SegmentState) (p : LogSegment × Bool)
    → (update_state s p).0 ≡ record p.0 { state = state_after p.0.state s }
unfolding update_state
state_step s (seg, needed) = elim (Bool-cases (same_state s unset)) [
  | inl e ↦ simp e
  | inr e ↦ elim (Bool-cases (same_state seg.state s)) [
    | inl q ↦ simp (e, q) (ap (λ t. record seg { state = t }) (same_state-eq seg.state s q))
    | inr q ↦ simp (e, q)
  ]
]

is_need_update-merged :
    (seg new : LogSegment)
    → is_full seg ≡ false
    → (seg.id == new.id) ≡ true
    → (is_need_update seg new).0 ≡ merged seg new
unfolding is_need_update
is_need_update-merged seg new f q =
    let p0 : LogSegment × Bool = (seg, false) in
    let p1 = update_size new.size p0 in
    let p2 = update_number new.number p1 in
    let p3 = update_state new.state p2 in
    let p4 = update_first new.first_event_born_time p3 in
    let s2 =
      number_step new.number p1
      ∙ ap {A = LogSegment} {B = LogSegment} (λ t. record t { number = larger t.number new.number })
          (size_step new.size p0) in
    let s3 =
      state_step new.state p2
      ∙ ap {A = LogSegment} {B = LogSegment}
          (λ t. record t { state = state_after t.state new.state }) s2 in
    let s4 =
      first_step new.first_event_born_time p3
      ∙ ap {A = LogSegment} {B = LogSegment}
          (λ t. record t {
            first_event_born_time = larger t.first_event_born_time new.first_event_born_time;
          })
          s3 in
    simp (f, q)
      (last_step new.last_event_born_time p4
        ∙ ap {A = LogSegment} {B = LogSegment}
            (λ t. record t {
              last_event_born_time = larger t.last_event_born_time new.last_event_born_time;
            })
            s4)

merged-Covers : (seg new : LogSegment) → Covers (merged seg new) new
merged-Covers seg new = record {
  size_covered = (larger_bounds seg.size new.size).1;
  number_covered = (larger_bounds seg.number new.number).1;
  state_covered = elim (Bool-cases (same_state new.state unset)) [
    | inl e ↦ rw e
    | inr e ↦ rw (e, same_state_self new.state)
  ];
  first_covered = (larger_bounds seg.first_event_born_time new.first_event_born_time).1;
  last_covered = (larger_bounds seg.last_event_born_time new.last_event_born_time).1;
}

refused :
    (seg new : LogSegment)
    → (is_full seg || not (seg.id == new.id)) ≡ true
    → is_need_update seg new ≡ (seg, false)
unfolding is_need_update
refused seg new h = elim (Bool-cases (is_full seg)) [
  | inl e ↦ rw e
  | inr e ↦ elim (Bool-cases (seg.id == new.id)) [
    | inl q ↦
        let passes : (is_full seg || not (seg.id == new.id)) ≡ false = rw (e, q) in
        absurd (false≢true (sym passes ∙ h))
    | inr q ↦ rw (e, q)
  ]
]

-- isNeedUpdate leaves a frozen segment, and one with another id, as it is; otherwise the segment
-- has the greater size, number and times of itself and the report, and the report's state where it
-- has one.
pub is_need_update_lem :
    (seg new : LogSegment)
    → (is_need_update seg new).0
      ≡ (if is_full seg || not (seg.id == new.id) then seg else merged seg new)
is_need_update_lem seg new = elim (Bool-cases (is_full seg)) [
  | inl e ↦
      let r : (is_full seg || not (seg.id == new.id)) ≡ true = rw e in
      rw r (ap (λ p. p.0) (refused seg new r))
  | inr e ↦ elim (Bool-cases (seg.id == new.id)) [
    | inl q ↦
        let r : (is_full seg || not (seg.id == new.id)) ≡ false = rw (e, q) in
        rw r (is_need_update-merged seg new e q)
    | inr q ↦
        let r : (is_full seg || not (seg.id == new.id)) ≡ true = rw (e, q) in
        rw r (ap (λ p. p.0) (refused seg new r))
  ]
]

-- A report that was taken by isNeedUpdate is not taken again: the second time nothing changes and
-- no update is needed.
pub need_update_once :
    (seg new : LogSegment)
    → is_need_update (is_need_update seg new).0 new ≡ ((is_need_update seg new).0, false)
need_update_once seg new = elim (Bool-cases (is_full seg || not (seg.id == new.id))) [
  | inl r ↦
      let same = refused seg new r in
      ap (λ p. is_need_update p.0 new) same ∙ (same ∙ ap (λ p. (p.0, false)) (sym same))
  | inr r ↦
      let m : (is_need_update seg new).0 ≡ merged seg new = is_need_update_lem seg new ∙ rw r in
      ap (λ t. is_need_update t new) m
      ∙ (covered-same (merged seg new) new (merged-Covers seg new) ∙ ap (λ t. (t, false)) (sym m))
]
