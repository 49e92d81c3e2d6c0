-- ===== src/Raft/State.antt =====
-- internal/store/raft/storage/state_storage.go, and from recovery.go how the states are recovered:
-- what a node votes, has committed and has applied, in the metadata stores.
pub mod Recovered
use vanus.Base.{List, Option, if◌then◌else◌, ltb, none, some, ℕ, ◌≡◌}

pub record HardState : Type 0 where
  pub term : ℕ
  pub vote : ℕ
  pub commit : ℕ

-- The values of the metadata stores.
pub data Value : Type 0 where
  bytes_value : List ℕ → Value
  number_value : ℕ → Value

-- What the stores hold under the keys of a node: the first two in the synchronous store, the others,
-- hints, in the asynchronous one.
pub record NodeMeta : Type 0 where
  pub hard_state : Option Value
  pub conf_state : Option Value
  pub commit : Option Value
  pub applied : Option Value

abbrev pub no_meta : NodeMeta
no_meta = record { hard_state = none; conf_state = none; commit = none; applied = none }

-- The generated encodings.
pub record StateCodec (Conf : Type 0) : Type 0 where
  pub empty_conf : Conf
  pub marshal_hard : HardState → Option (List ℕ)
  pub unmarshal_hard : List ℕ → Option HardState
  pub marshal_conf : Conf → Option (List ℕ)
  pub unmarshal_conf : List ℕ → Option Conf
  pub unmarshal-marshal_hard :
      (h : HardState) (bytes : List ℕ) → marshal_hard h ≡ some bytes → unmarshal_hard bytes ≡ some h
  pub unmarshal-marshal_conf :
      (c : Conf) (bytes : List ℕ) → marshal_conf c ≡ some bytes → unmarshal_conf bytes ≡ some c

-- What is loaded from a store, an error of the decoder, or a panic on a value of the wrong type.
pub data Loaded {ℓ} (A : Type ℓ) : Type ℓ where
  loaded : A → Loaded A
  load_error : Loaded A
  load_panic : Loaded A

abbrev pub decoded {ℓ} : {A : Type ℓ} → Option A → Loaded A
decoded none = load_error
decoded (some a) = loaded a

abbrev pub zero_state : HardState
zero_state = record { term = 0; vote = 0; commit = 0 }

module _ (Conf : Type 0) where
  pub record StateStorage : Type 0 where
    pub hard : HardState
    pub conf : Conf
    pub apply : ℕ
    pub store : NodeMeta

  module _ (codec : StateCodec Conf) where
    abbrev pub new_states : StateStorage
    new_states = record { hard = zero_state; conf = codec.empty_conf; apply = 0; store = no_meta }

    -- A state that cannot be encoded is an error of the callback.
    unfoldable pub set_hard_state : HardState → StateStorage → StateStorage
    set_hard_state hs s = elim (codec.marshal_hard hs) [
      | none ↦ s
      | some bytes ↦ record s {
        hard = record s.hard { term = hs.term; vote = hs.vote };
        store = record s.store { hard_state = some (bytes_value bytes) };
      }
    ]

    unfoldable pub set_commit : ℕ → StateStorage → StateStorage
    set_commit c s = record s {
      hard = record s.hard { commit = c };
      store = record s.store { commit = some (number_value c) };
    }

    unfoldable pub set_conf_state : Conf → StateStorage → StateStorage
    set_conf_state c s = elim (codec.marshal_conf c) [
      | none ↦ s
      | some bytes ↦ record s {
        conf = c;
        store = record s.store { conf_state = some (bytes_value bytes) };
      }
    ]

    unfoldable pub set_applied : ℕ → StateStorage → StateStorage
    set_applied a s = record s {
      apply = a;
      store = record s.store { applied = some (number_value a) };
    }

    abbrev pub load_hard : Option Value → Loaded HardState
    load_hard none = loaded zero_state
    load_hard (some (bytes_value bytes)) = decoded (codec.unmarshal_hard bytes)
    load_hard (some (number_value n)) = load_panic

    -- The commit index is the greater of the hint and what is stored with the state.
    abbrev pub with_commit : Option Value → HardState → Loaded HardState
    with_commit none hs = loaded hs
    with_commit (some (number_value c)) hs =
        loaded (if ltb hs.commit c then record hs { commit = c } else hs)
    with_commit (some (bytes_value bytes)) hs = load_panic

    unfoldable pub recover_hard_state : NodeMeta → Loaded HardState
    recover_hard_state m = elim (load_hard m.hard_state) [
      | loaded hs ↦ with_commit m.commit hs
      | load_error ↦ load_error
      | load_panic ↦ load_panic
    ]

    unfoldable pub recover_conf_state : NodeMeta → Loaded Conf
    recover_conf_state m = elim m.conf_state [
      | none ↦ loaded codec.empty_conf
      | some v ↦ elim v [
        | bytes_value bytes ↦ decoded (codec.unmarshal_conf bytes)
        | number_value n ↦ load_panic
      ]
    ]

    unfoldable pub recover_applied : NodeMeta → Loaded ℕ
    recover_applied m = elim m.applied [
      | none ↦ loaded 0
      | some v ↦ elim v [ number_value n ↦ loaded n | bytes_value bytes ↦ load_panic ]
    ]

    abbrev pub not_below : ℕ → ℕ → ℕ
    not_below low n = if ltb n low then low else n

    -- `low` is the compacted index of the log.
    unfoldable pub recover_state : ℕ → NodeMeta → Loaded StateStorage
    recover_state low m = elim (recover_hard_state m) [
      | load_error ↦ load_error
      | load_panic ↦ load_panic
      | loaded hs ↦ elim (recover_conf_state m) [
        | load_error ↦ load_error
        | load_panic ↦ load_panic
        | loaded conf ↦ elim (recover_applied m) [
          | load_error ↦ load_error
          | load_panic ↦ load_panic
          | loaded app ↦ loaded (record {
            hard = record hs { commit = not_below low hs.commit };
            conf = conf;
            apply = not_below low app;
            store = m;
          })
        ]
      ]
    ]
