-- ===== src/Vsb/Codec.antt =====
-- The entries of a block, and what the block asks of internal/store/vsb/codec: an interface, since
-- the format of a packet does not matter to the block.
use vanus.Base.{Bool, List, Option, [], length, none, some, true, ℕ, ◌++◌, ◌<◌, ◌≡◌}
use vanus.Vsb.{Index}

-- The types of internal/store/schema/ce.
pub data EntryType : Type 0 where
  cloud_event end_type index_type : EntryType

-- An entry as the block sees it; `body` is what the caller gave.
pub record Entry : Type 0 where
  pub kind : EntryType
  pub seq : ℕ
  pub stime : ℕ
  pub body : List ℕ

abbrev pub wrap_entry : List ℕ → EntryType → ℕ → ℕ → Entry
wrap_entry body kind seq stime = record { kind = kind; seq = seq; stime = stime; body = body }

-- The encoder and the decoder of a block. `unmarshal` returns the number of bytes it read, and
-- `none` for an error.
pub record Codec : Type 1 where
  pub size : Entry → ℕ
  pub marshal : Entry → List ℕ
  pub unmarshal : List ℕ → Option (ℕ × Entry)
  pub marshal_index : List Index → List ℕ
  pub index_entry : List Index → Entry  -- `index.NewEntry`
  pub indexes_in : Entry → List Index  -- the attribute of an index entry
  pub is_incomplete : List ℕ → Bool  -- the error of `unmarshal` is ErrIncompletePacket
  pub encodable : Entry → Type 0  -- what the format has room for
  pub encodable_index : List Index → Type 0
  pub length-marshal : (e : Entry) → length (marshal e) ≡ size e
  pub size-positive : (e : Entry) → 0 < size e
  pub unmarshal-marshal :
      (e : Entry) (rest : List ℕ) → encodable e → unmarshal (marshal e ++ rest) ≡ some (size e, e)
  pub size-fits : (e : Entry) → encodable e → size e < 2147483648  -- an int32
  pub unmarshal-marshal_index :
      (is : List Index) (rest : List ℕ)
      → encodable_index is
      → unmarshal (marshal_index is ++ rest) ≡ some (length (marshal_index is), index_entry is)
  pub index_entry-kind : (is : List Index) → (index_entry is).kind ≡ index_type
  pub indexes_in-index_entry :
      (is : List Index) → encodable_index is → indexes_in (index_entry is) ≡ is
  pub unmarshal-empty : unmarshal [] ≡ none
  pub is_incomplete-empty : is_incomplete [] ≡ true
