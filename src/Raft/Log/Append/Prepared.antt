-- ===== src/Raft/Log/Append/Prepared.antt =====
-- What prepareAppend lets through: rows of entries, with nothing changed but the previous terms.
use mathlib.Core.Path.{subst}
use vanus.Base.{
  Bool-cases, List, Option, Option-cases, [], ap, arith, cons_some, drop, drop_all, false, inl, inr,
  length, map, none, refl, some, suc, sym, true, zero, ℕ, ◌+◌, ◌<◌, ◌==◌, ◌∙◌, ◌∷◌, ◌≡◌, ◌≤◌,
}
use vanus.Raft.Log.{RaftEntry}
use vanus.Raft.Log.Chain.{Follow}
use vanus.Raft.Log.Append.{follows, prepare_entries, prepare_from, with_prev}

-- An entry but for its previous term, which the storage fills in.
abbrev pub cleared : RaftEntry → RaftEntry
cleared e = record e { prev_term = 0 }

pub cons_some-invert {ℓ} :
    {A : Type ℓ} (x : A) (o : Option (List A)) (l : List A)
    → cons_some x o ≡ some l
    → (t : List A) × ((o ≡ some t) × (l ≡ x ∷ t))
cons_some-invert x none l h = absurd (cc)
cons_some-invert x (some t) l h = (t, (refl, cc))

pub Follow-same :
    (a b : RaftEntry) (es : List RaftEntry)
    → a.index ≡ b.index
    → a.term ≡ b.term
    → Follow a es
    → Follow b es
unfolding Follow
Follow-same a b [] i t f = tt
Follow-same a b (e ∷ es) i t f = (omega (arith, f.0), (omega (arith, f.1.0), f.1.1))

pub with_prev-index : (p e : RaftEntry) → (with_prev p e).index ≡ e.index
unfolding with_prev
with_prev-index p e = elim (Bool-cases (e.term == p.term)) [ inl q ↦ rw q | inr q ↦ rw q ]

pub with_prev-term : (p e : RaftEntry) → (with_prev p e).term ≡ e.term
unfolding with_prev
with_prev-term p e = elim (Bool-cases (e.term == p.term)) [ inl q ↦ rw q | inr q ↦ rw q ]

pub cleared-with_prev : (p e : RaftEntry) → cleared (with_prev p e) ≡ cleared e
unfolding with_prev
cleared-with_prev p e = elim (Bool-cases (e.term == p.term)) [ inl q ↦ rw q | inr q ↦ rw q ]

-- Where the term changes, the previous term is that of the entry before.
abbrev pub Linked : RaftEntry → List RaftEntry → Type 0
Linked p [] = Unit
Linked p (e ∷ es) = ((e.term == p.term) ≡ false → e.prev_term ≡ p.term) × Linked e es

pub Linked-same :
    (a b : RaftEntry) (es : List RaftEntry) → a.term ≡ b.term → Linked a es → Linked b es
Linked-same a b [] t l = tt
Linked-same a b (e ∷ es) t l = ((λ n. l.0 (ap (λ k. e.term == k) t ∙ n) ∙ t), l.1)

pub with_prev-links :
    (p e : RaftEntry)
    → ((with_prev p e).term == p.term) ≡ false
    → (with_prev p e).prev_term ≡ p.term
unfolding with_prev
with_prev-links p e n =
    let d : (e.term == p.term) ≡ false = sym (ap (λ t. t == p.term) (with_prev-term p e)) ∙ n in
    rw d

prepare_from-Linked :
    (p : RaftEntry) (es kept : List RaftEntry) → prepare_from p es ≡ some kept → Linked p kept
unfolding prepare_from
prepare_from-Linked p [] kept h = let e : [] ≡ kept = cc in subst (Linked p) e tt
prepare_from-Linked p (e ∷ es) kept h = elim (Bool-cases (follows p e)) [
  | inl q ↦
      (let g : cons_some (with_prev p e) (prepare_from e es) ≡ some kept = sym (rw q) ∙ h in
        let cut = cons_some-invert (with_prev p e) (prepare_from e es) kept g in
        subst (Linked p) (sym cut.1.1) (
          with_prev-links p e,
          Linked-same e (with_prev p e) cut.0 (sym (with_prev-term p e))
              (prepare_from-Linked e es cut.0 cut.1.0),
        ))
  | inr q ↦ absurd (let g : none ≡ some kept = sym (rw q) ∙ h in cc)
]

pub drop-Linked :
    (n : ℕ) (e k : RaftEntry) (es ks : List RaftEntry)
    → Linked e es
    → drop n (e ∷ es) ≡ k ∷ ks
    → Linked k ks
drop-Linked zero e k es ks l h =
    let a : e ≡ k = cc in let b : es ≡ ks = cc in subst (λ x. Linked x ks) a (subst (Linked e) b l)
drop-Linked (suc n) e k [] ks l h =
    absurd (let z : [] ≡ k ∷ ks = sym (drop_all n [] (omega arith)) ∙ h in cc)
drop-Linked (suc n) e k (x ∷ xs) ks l h = drop-Linked n x k xs ks l.1 h

follows-index :
    (p e : RaftEntry)
    → follows p e ≡ true
    → p.index + 1 < 18446744073709551616
    → (e.index ≡ suc p.index) × (p.term ≤ e.term)
unfolding follows
follows-index p e h b = ground arith

prepare_from-Follow :
    (p : RaftEntry) (es kept : List RaftEntry)
    → prepare_from p es ≡ some kept
    → p.index + length es < 18446744073709551616
    → Follow p kept × (map cleared kept ≡ map cleared es)
unfolding Follow prepare_from
prepare_from-Follow p [] kept h b =
    let e : [] ≡ kept = cc in subst (λ k. Follow p k × (map cleared k ≡ [])) e (tt, refl)
prepare_from-Follow p (e ∷ es) kept h b = elim (Bool-cases (follows p e)) [
  | inl q ↦
      (let g : cons_some (with_prev p e) (prepare_from e es) ≡ some kept = sym (rw q) ∙ h in
        let cut = cons_some-invert (with_prev p e) (prepare_from e es) kept g in
        let step = follows-index p e q (omega arith) in
        let rest = prepare_from-Follow e es cut.0 cut.1.0 (omega (arith, step.0)) in
        subst (λ k. Follow p k × (map cleared k ≡ cleared e ∷ map cleared es)) (sym cut.1.1)
          (
            (
              with_prev-index p e ∙ step.0,
              (
                omega (arith, step.1, with_prev-term p e),
                Follow-same e (with_prev p e) cut.0 (sym (with_prev-index p e))
                    (sym (with_prev-term p e)) rest.0,
              ),
            ),
            ap (λ x. x ∷ map cleared cut.0) (cleared-with_prev p e)
                ∙ ap (λ t. cleared e ∷ t) rest.1,
          ))
  | inr q ↦ absurd (let g : none ≡ some kept = sym (rw q) ∙ h in cc)
]

-- All entries of a prepared row are those given, and they are a row.
pub prepare_entries-Chain :
    (e : RaftEntry) (es kept : List RaftEntry)
    → prepare_entries (e ∷ es) ≡ some kept
    → e.index + length es < 18446744073709551616
    → (t : List RaftEntry) × ((kept ≡ e ∷ t)
        × (Follow e t × ((map cleared t ≡ map cleared es) × Linked e t)))
unfolding prepare_entries
prepare_entries-Chain e es kept h b =
    let cut = cons_some-invert e (prepare_from e es) kept h in
    let f = prepare_from-Follow e es cut.0 cut.1.0 b in
    (cut.0, (cut.1.1, (f.0, (f.1, prepare_from-Linked e es cut.0 cut.1.0))))

pub row-cleared :
    (p : RaftEntry) (es : List RaftEntry) → Follow (cleared p) (map cleared es) → Follow p es
unfolding Follow
row-cleared p [] f = tt
row-cleared p (e ∷ es) f = (f.0, (f.1.0, row-cleared e es f.1.1))

follows-true :
    (p e : RaftEntry)
    → p.index + 1 < 18446744073709551616
    → e.index ≡ suc p.index
    → p.term ≤ e.term
    → follows p e ≡ true
unfolding follows
follows-true p e b i t = ground arith

-- prepareAppend refuses no row.
not_prepared :
    (p : RaftEntry) (es : List RaftEntry)
    → prepare_from p es ≡ none
    → p.index + length es < 18446744073709551616
    → Follow p es
    → ⊥
unfolding Follow prepare_from
not_prepared p [] h b f = cc
not_prepared p (e ∷ es) h b f = elim (Bool-cases (follows p e)) [
  | inl q ↦ elim (Option-cases (prepare_from e es)) [
    | inl r ↦ not_prepared e es r (omega (arith, f.0)) f.1.1
    | inr found ↦
        (let g : cons_some (with_prev p e) (prepare_from e es) ≡ none = sym (rw q refl) ∙ h in
          let n : some (with_prev p e ∷ found.0) ≡ none =
            ap (cons_some (with_prev p e)) (sym found.1) ∙ g in
          cc)
  ]
  | inr q ↦ (let t = follows-true p e (omega arith) f.0 f.1.0 in cc)
]

cons_some-none {ℓ} : {A : Type ℓ} (x : A) (o : Option (List A)) → cons_some x o ≡ none → o ≡ none
cons_some-none x none h = refl
cons_some-none x (some t) h = absurd (cc)

pub not_prepared_entries :
    (e : RaftEntry) (es : List RaftEntry)
    → prepare_entries (e ∷ es) ≡ none
    → e.index + length es < 18446744073709551616
    → Follow e es
    → ⊥
unfolding prepare_entries
not_prepared_entries e es h b f = not_prepared e es (cons_some-none e (prepare_from e es) h) b f
