-- ===== src/Raft/Tests/Snapshots.antt =====
-- The theorems on the states and snapshots of a Raft node at concrete inputs.
use vanus.Base.{List, Option, [], ap, arith, none, refl, some, sym, true, ℕ, ◌∷◌, ◌≡◌}
use vanus.Raft.Log.{LogStorage, last_index, log_term, new_log}
use vanus.Raft.Log.Chain.{IsLog}
use vanus.Raft.Log.Append.{CompactTask}
use vanus.Raft.State.{
  HardState, StateCodec, StateStorage, loaded, new_states, no_meta, recover_state, set_applied,
  set_commit, set_hard_state,
}
use vanus.Raft.State.Recovered.{IsBack, States, applied_set, commit_set, hard_set, recover-States}
use vanus.Raft.Snapshot.{RaftSnapshot, apply_raft_snapshot, snapshot_applied, take_snapshot}
use vanus.Raft.Snapshot.Applied.{apply-take}
use vanus.Raft.Tests.{three}

-- An encoding of the states; a configuration is its nodes.
abbrev encode_hard : HardState → Option (List ℕ)
encode_hard h = some (h.term ∷ h.vote ∷ h.commit ∷ [])

abbrev decode_hard : List ℕ → Option HardState
decode_hard (t ∷ v ∷ c ∷ []) = some (record { term = t; vote = v; commit = c })
decode_hard _ = none

decode-encode_hard :
    (h : HardState) (bytes : List ℕ) → encode_hard h ≡ some bytes → decode_hard bytes ≡ some h
decode-encode_hard h bytes e =
    let q : h.term ∷ h.vote ∷ h.commit ∷ [] ≡ bytes = cc in ap decode_hard (sym q)

encode_conf-back :
    (c bytes : List ℕ) → ◌≡◌ {A = Option (List ℕ)} (some c) (some bytes) → some bytes ≡ some c
encode_conf-back c bytes e = sym e

abbrev state_codec : StateCodec (List ℕ)
state_codec = record {
  empty_conf = [];
  marshal_hard = encode_hard;
  unmarshal_hard = decode_hard;
  marshal_conf = λ c. some c;
  unmarshal_conf = λ b. some b;
  unmarshal-marshal_hard = decode-encode_hard;
  unmarshal-marshal_conf = encode_conf-back;
}

abbrev voted : HardState
voted = record { term = 3; vote = 2; commit = 4 }

abbrev some_states : StateStorage (List ℕ)
some_states = set_commit (List ℕ) state_codec 9 (
    set_applied (List ℕ) state_codec 8
      (set_hard_state (List ℕ) state_codec voted (new_states (List ℕ) state_codec)))

recover-States_example :
    (back : StateStorage (List ℕ)) × ((recover_state (List ℕ) state_codec 5 some_states.store
        ≡ loaded back)
      × IsBack (List ℕ) state_codec 5 some_states back)
recover-States_example = recover-States (List ℕ) state_codec 5 some_states (
    commit_set 9
      (set_applied (List ℕ) state_codec 8
        (set_hard_state (List ℕ) state_codec voted (new_states (List ℕ) state_codec)))
      (applied_set 8 (set_hard_state (List ℕ) state_codec voted (new_states (List ℕ) state_codec))
        (hard_set voted (new_states (List ℕ) state_codec) States.began)))

abbrev applied_states : StateStorage (List ℕ)
applied_states = record { hard = voted; conf = []; apply = 12; store = no_meta }

abbrev a_snapshot : RaftSnapshot (List ℕ)
a_snapshot = record { conf = []; index = 12; term = 2; contents = 6 ∷ [] }

apply-take_example :
    (after : LogStorage) × ((states : StateStorage (List ℕ)) × ((task : CompactTask)
        × ((apply_raft_snapshot (List ℕ) state_codec (λ b. true) 7 new_log applied_states a_snapshot
              ≡ snapshot_applied after states task)
            × (IsLog after
                × ((last_index after ≡ 12)
                    × ((log_term after 12 ≡ log_term three 12)
                        × ((◌≡◌ {A = Option (List ℕ)} (some (6 ∷ [])) (some (6 ∷ [])))
                            × (states.apply ≡ 12))))))))
unfolding take_snapshot log_term
apply-take_example =
    apply-take (List ℕ) state_codec (λ i. some (6 ∷ [])) (λ b. true) 7 three new_log applied_states
      applied_states a_snapshot refl (omega arith) (omega arith) refl
