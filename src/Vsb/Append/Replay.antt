-- ===== src/Vsb/Append/Replay.antt =====
-- A fragment that is committed a second time, as after a restart, changes nothing.
use mathlib.Core.Path.{subst}
use mathlib.Core.Option.{some-injective, none-ne-some}
use native.Mathlib.Decide.{dec_lt}
use vanus.Base.{
  ==_iff, Bool-cases, List, ap, arith, false, inl, inr, leb-false, length, length-append,
  length-write_at, le→leb, some, sym, true, ℕ, ◌++◌, ◌+◌, ◌<◌, ◌==◌, ◌∙◌, ◌≡◌, ◌≤◌,
}
use vanus.Vsb.{VsBlock}
use vanus.Vsb.Codec.{Codec}
use vanus.Vsb.Header.{persist_header}
use vanus.Vsb.Append.{
  Built, Fragment, build_indexes, built, commit_append, commit_append_at, commit_built,
  corrupted_fragment, finish_archive, fragment_end, panicked, stuck,
}

module _ (codec : Codec) where
  -- The file ends behind the fragment, so that it is taken for written.
  written :
      (b : VsBlock) (file : List ℕ) (frag : Fragment)
      → fragment_end frag ≤ length file
      → commit_append codec b file (some frag) ≡ some (b, file)
  unfolding commit_append_at
  written b file frag h = rw (le→leb (fragment_end frag) (length file) h)

  skips :
      (b : VsBlock) (file : List ℕ) (frag : Fragment)
      → length file < fragment_end frag
      → (frag.start == length file) ≡ false
      → commit_append codec b file (some frag) ≡ some (b, file)
  unfolding commit_append_at
  skips b file frag h q = rw (leb-false (fragment_end frag) (length file) h, q)

  commits :
      (b : VsBlock) (file : List ℕ) (frag : Fragment)
      → length file < fragment_end frag
      → (frag.start == length file) ≡ true
      → commit_append codec b file (some frag)
        ≡ commit_built codec b file frag (build_indexes codec b.actx.seq frag)
  unfolding commit_append_at
  commits b file frag h q = rw (leb-false (fragment_end frag) (length file) h, q)

  length-finish_archive :
      (b : VsBlock) (file : List ℕ)
      → length (finish_archive codec b file).1
        ≡ length file + length (codec.marshal_index b.indexes)
  unfolding finish_archive persist_header
  length-finish_archive b file =
      length-write_at (file ++ codec.marshal_index b.indexes) 0 _
      ∙ length-append file (codec.marshal_index b.indexes)

  commit_built-length :
      (b b' : VsBlock) (file file' : List ℕ) (frag : Fragment) (r : Built)
      → commit_built codec b file frag r ≡ some (b', file')
      → length file + length frag.payload ≤ length file'
  unfolding commit_built
  commit_built-length b b' file file' frag (built indexes seq false) e =
      let q = ap (λ p. length p.1) (some-injective _ _ e) in
      omega (arith, q, length-append file frag.payload)
  commit_built-length b b' file file' frag (built indexes seq true) e =
      let q = ap (λ p. length p.1) (some-injective _ _ e) in
      omega (
        arith,
        q,
        length-append file frag.payload,
        length-finish_archive
            (record b {
              actx = record { seq = seq; offset = fragment_end frag; archived = true };
              indexes = b.indexes ++ indexes;
            })
            (file ++ frag.payload),
      )
  commit_built-length b b' file file' frag corrupted_fragment e =
      let q = ap (λ p. length p.1) (some-injective _ _ e) in
      omega (arith, q, length-append file frag.payload)
  commit_built-length b b' file file' frag panicked e = absurd (none-ne-some (b', file') e)
  commit_built-length b b' file file' frag stuck e = absurd (none-ne-some (b', file') e)

  -- A commit that changed nothing does so again.
  unchanged :
      (b b' : VsBlock) (file file' : List ℕ) (frag : Fragment)
      → commit_append codec b file (some frag) ≡ some (b, file)
      → commit_append codec b file (some frag) ≡ some (b', file')
      → commit_append codec b' file' (some frag) ≡ some (b', file')
  unchanged b b' file file' frag w e =
      subst (λ p. commit_append codec p.0 p.1 (some frag) ≡ some p)
        (some-injective (b, file) (b', file') (sym w ∙ e)) w

  -- A fragment that CommitAppend has taken, skipped or refused is skipped when it is committed
  -- again: block and file stay as they are after the first time.
  pub commit_again :
      (b b' : VsBlock) (file file' : List ℕ) (frag : Fragment)
      → commit_append codec b file (some frag) ≡ some (b', file')
      → commit_append codec b' file' (some frag) ≡ some (b', file')
  commit_again b b' file file' frag e = elim (dec_lt (length file) (fragment_end frag)) [
    | no h ↦ unchanged b b' file file' frag (written b file frag (omega arith)) e
    | yes h ↦ elim (Bool-cases (frag.start == length file)) [
      | inl q ↦
          let r : commit_built codec b file frag (build_indexes codec b.actx.seq frag)
              ≡ some (b', file') =
            sym (commits b file frag h q) ∙ e in
          let start : frag.start ≡ length file = (==_iff frag.start (length file)).0 q in
          written b' file' frag (
            omega (
              arith,
              start,
              commit_built-length b b' file file' frag (build_indexes codec b.actx.seq frag) r,
            ))
      | inr q ↦ unchanged b b' file file' frag (skips b file frag h q) e
    ]
  ]
