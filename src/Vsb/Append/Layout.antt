-- ===== src/Vsb/Append/Layout.antt =====
-- Where the entries of a fragment lie, and that `buildIndexes` finds them.
use mathlib.Core.Path.{subst}
use vanus.Base.{
  List, [], ap, append-nil, append_assoc, arith, drop, drop-append_self, false, length,
  length-append, lt→ltb, refl, same_number, suc, sym, take, zero, ℕ, ◌++◌, ◌+◌, ◌<◌, ◌∙◌, ◌∷◌, ◌≡◌,
}
use vanus.Vsb.{Index, int32}
use vanus.Vsb.Codec.{Codec, Entry, cloud_event}
use vanus.Vsb.Append.{
  build_entry, build_rounds, built, entries_size, is_end, marshal_entries, wrap_entries,
}

-- The format of the codec has room for each entry.
abbrev pub AllEncodable : Codec → List Entry → Type 0
AllEncodable codec [] = Unit
AllEncodable codec (e ∷ es) = codec.encodable e × AllEncodable codec es

-- Entries of events that the format has room for, numbered from `s` on.
abbrev pub IsNumbered : Codec → ℕ → List Entry → Type 0
IsNumbered codec s [] = Unit
IsNumbered codec s (e ∷ es) =
    (e.seq ≡ s) × ((e.kind ≡ cloud_event) × (codec.encodable e × IsNumbered codec (s + 1) es))

pub wrap_entries-IsNumbered :
    (codec : Codec) (bodies : List (List ℕ)) (s now : ℕ)
    → AllEncodable codec (wrap_entries bodies s now)
    → IsNumbered codec s (wrap_entries bodies s now)
unfolding wrap_entries
wrap_entries-IsNumbered codec [] s now v = tt
wrap_entries-IsNumbered codec (body ∷ bodies) s now v =
    (refl, (refl, (v.0, wrap_entries-IsNumbered codec bodies (s + 1) now v.1)))

pub length-wrap_entries :
    (bodies : List (List ℕ)) (s now : ℕ) → length (wrap_entries bodies s now) ≡ length bodies
unfolding wrap_entries
length-wrap_entries [] s now = refl
length-wrap_entries (body ∷ bodies) s now = ap suc (length-wrap_entries bodies (s + 1) now)

pub AllEncodable-of :
    (codec : Codec) (s : ℕ) (es : List Entry) → IsNumbered codec s es → AllEncodable codec es
AllEncodable-of codec s [] n = tt
AllEncodable-of codec s (e ∷ es) n = (n.1.1.0, AllEncodable-of codec (s + 1) es n.1.1.1)

pub AllEncodable-drop :
    (codec : Codec) (k : ℕ) (es : List Entry)
    → AllEncodable codec es
    → AllEncodable codec (drop k es)
AllEncodable-drop codec zero es v = v
AllEncodable-drop codec (suc k) [] v = tt
AllEncodable-drop codec (suc k) (e ∷ es) v = AllEncodable-drop codec k es v.1

pub AllEncodable-take :
    (codec : Codec) (k : ℕ) (es : List Entry)
    → AllEncodable codec es
    → AllEncodable codec (take k es)
AllEncodable-take codec zero es v = tt
AllEncodable-take codec (suc k) [] v = tt
AllEncodable-take codec (suc k) (e ∷ es) v = (v.0, AllEncodable-take codec k es v.1)

pub IsNumbered-append :
    (codec : Codec) (s : ℕ) (es fs : List Entry)
    → IsNumbered codec s es
    → IsNumbered codec (s + length es) fs
    → IsNumbered codec s (es ++ fs)
IsNumbered-append codec s [] fs h k = subst (λ n. IsNumbered codec n fs) (omega arith) k
IsNumbered-append codec s (e ∷ es) fs h k = (
  h.0,
  (
    h.1.0,
    (
      h.1.1.0,
      IsNumbered-append codec (s + 1) es fs h.1.1.1
          (subst (λ n. IsNumbered codec n fs) (omega arith) k),
    ),
  ),
)

module _ (codec : Codec) where
  open codec use {size, marshal, unmarshal, length-marshal, size-positive, unmarshal-marshal}

  -- The length of an entry that the format has room for is an int32.
  pub int32-size : (e : Entry) → codec.encodable e → int32 (size e) ≡ size e
  int32-size e v = omega (arith, codec.size-fits e v)

  -- The indexes of entries that lie from `off` on.
  unfoldable pub layout : ℕ → List Entry → List Index
  layout off [] = []
  layout off (e ∷ es) =
      record { offset = off; length = size e; stime = e.stime } ∷ layout (off + size e) es

  pub length-layout : (off : ℕ) (es : List Entry) → length (layout off es) ≡ length es
  unfolding layout
  length-layout off [] = refl
  length-layout off (e ∷ es) = ap suc (length-layout (off + size e) es)

  pub length-marshal_entries :
      (es : List Entry) → length (marshal_entries codec es) ≡ entries_size codec es
  unfolding marshal_entries entries_size
  length-marshal_entries [] = refl
  length-marshal_entries (e ∷ es) = omega (
    arith,
    length-append (marshal e) (marshal_entries codec es),
    length-marshal e,
    length-marshal_entries es,
  )

  pub marshal_entries-append :
      (es fs : List Entry)
      → marshal_entries codec (es ++ fs) ≡ marshal_entries codec es ++ marshal_entries codec fs
  unfolding marshal_entries
  marshal_entries-append [] fs = refl
  marshal_entries-append (e ∷ es) fs =
      ap (λ t. marshal e ++ t) (marshal_entries-append es fs)
      ∙ sym (append_assoc (marshal e) (marshal_entries codec es) (marshal_entries codec fs))

  pub layout-append :
      (off : ℕ) (es fs : List Entry)
      → layout off (es ++ fs) ≡ layout off es ++ layout (off + entries_size codec es) fs
  unfolding layout entries_size
  layout-append off [] fs = ap (λ n. layout n fs) (omega arith)
  layout-append off (e ∷ es) fs =
      ap (λ t. record { offset = off; length = size e; stime = e.stime } ∷ t)
        (layout-append (off + size e) es fs
          ∙ ap (λ n. layout (off + size e) es ++ layout n fs) (omega arith))

  build_one :
      (fuel off s : ℕ) (e : Entry) (rest : List ℕ) (indexes : List Index)
      → e.seq ≡ s
      → e.kind ≡ cloud_event
      → codec.encodable e
      → build_rounds codec (suc fuel) off s (marshal e ++ rest) indexes
        ≡ build_rounds codec fuel
            (off + size e)
            (s + 1)
            rest
            (indexes ++ (record { offset = off; length = size e; stime = e.stime } ∷ []))
  unfolding build_rounds build_entry is_end
  build_one fuel off s e rest indexes q k v =
      let some_left =
        lt→ltb 0 (length (marshal e ++ rest))
          (omega (arith, size-positive e, length-append (marshal e) rest, length-marshal e)) in
      let tail : drop (size e) (marshal e ++ rest) ≡ rest =
        ap (λ n. drop n (marshal e ++ rest)) (sym (length-marshal e))
        ∙ drop-append_self (marshal e) rest in
      rw (some_left, build_rounds)
        (rw (unmarshal-marshal e rest v, build_rounds)
          (rw (int32-size e v, tail, q, k, same_number s)))

  pub build_rounds-layout :
      (fuel off s : ℕ) (es : List Entry) (indexes : List Index)
      → length es < fuel
      → IsNumbered codec s es
      → build_rounds codec fuel off s (marshal_entries codec es) indexes
        ≡ built (indexes ++ layout off es) (s + length es) false
  unfolding marshal_entries layout build_rounds
  build_rounds-layout zero off s es indexes h n = absurd (omega arith)
  build_rounds-layout (suc fuel) off s [] indexes h n =
      rw (append-nil indexes) (ap (λ m. built indexes m false) (omega arith))
  build_rounds-layout (suc fuel) off s (e ∷ es) indexes h n =
      build_one fuel off s e (marshal_entries codec es) indexes n.0 n.1.0 n.1.1.0
      ∙ (build_rounds-layout fuel (off + size e) (s + 1) es
            (indexes ++ (record { offset = off; length = size e; stime = e.stime } ∷ []))
            (omega arith) n.1.1.1
          ∙ rw (append_assoc indexes)
              (ap (λ m. built (indexes ++ layout off (e ∷ es)) m false) (omega arith)))
