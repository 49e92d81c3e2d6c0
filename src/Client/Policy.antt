-- ===== src/Client/Policy.antt =====
-- client/pkg/policy/policy.go: which eventlog a client uses next. A log is its id; the answers of the
-- eventbus to successive listings are a list, and a policy that must ask again waits for the next.
pub mod Fair
use vanus.Base.{
  List, Option, [], get_or, if◌then◌else◌, length, ltb, none, some, ℕ, ◌%◌, ◌+◌, ◌==◌, ◌^◌, ◌∷◌,
}
use vanus.Base.Int.{pos, ℤ, ◌+ℤ◌}

pub data Listing : Type 0 where
  listed : List ℕ → Listing
  list_error : Listing

-- The write and the read policy by round robin; a read policy has an offset.
pub record RoundRobin : Type 0 where
  pub idx : ℕ
  pub offset : ℤ
  pub cached : List ℕ

pub data NextLog : Type 0 where
  next_is : ℕ → RoundRobin → List Listing → NextLog
  next_error : List Listing → NextLog
  waiting : NextLog

-- `sort.Slice` by descending ids.
unfoldable pub insert_log : ℕ → List ℕ → List ℕ
insert_log x [] = x ∷ []
insert_log x (y ∷ ys) = if ltb y x then x ∷ (y ∷ ys) else y ∷ insert_log x ys

unfoldable pub sort_logs : List ℕ → List ℕ
sort_logs [] = []
sort_logs (x ∷ xs) = insert_log x (sort_logs xs)

-- The logs to choose from: those cached, if there are as many.
unfoldable pub refresh : RoundRobin → List ℕ → RoundRobin
refresh w logs = if length logs == length w.cached then w else record w { cached = sort_logs logs }

-- The counter is a uint64.
unfoldable pub choose : RoundRobin → List Listing → NextLog
choose w rest =
    let idx = (w.idx + 1) % 2 ^ 64 in
    next_is (get_or w.cached (idx % length w.cached) 0) (record w { idx = idx }) rest

unfoldable pub next_log : RoundRobin → List Listing → NextLog
next_log w [] = waiting
next_log w (list_error ∷ answers) = next_error answers
next_log w (listed [] ∷ answers) = next_log w answers
next_log w (listed (x ∷ xs) ∷ answers) = choose (refresh w (x ∷ xs)) answers

unfoldable pub new_round_robin : RoundRobin
new_round_robin = record { idx = 0; offset = pos 0; cached = [] }

unfoldable pub forward : RoundRobin → ℤ → RoundRobin
forward w diff = record w { offset = w.offset +ℤ diff }

pub record ManuallyReadPolicy : Type 0 where
  pub log : ℕ
  pub offset : ℤ

unfoldable pub forward_manually : ManuallyReadPolicy → ℤ → ManuallyReadPolicy
forward_manually r diff = record r { offset = r.offset +ℤ diff }

pub data ConsumeFromWhere : Type 0 where
  earliest latest elsewhere : ConsumeFromWhere

-- The offset of the chosen log, 0 where it cannot be had.
unfoldable pub or_zero : Option ℤ → ℤ
or_zero none = pos 0
or_zero (some o) = o

unfoldable pub start_at :
    ConsumeFromWhere → (ℕ → Option ℤ) → (ℕ → Option ℤ) → NextLog → Option RoundRobin
start_at earliest first last (next_is log w rest) = some (record w { offset = or_zero (first log) })
start_at latest first last (next_is log w rest) = some (record w { offset = or_zero (last log) })
start_at elsewhere first last (next_is log w rest) = some w
start_at where_from first last (next_error rest) = some new_round_robin
start_at where_from first last waiting = none

-- `first` and `last` are `EarliestOffset` and `LatestOffset` of a log.
unfoldable pub new_round_robin_read_policy :
    ConsumeFromWhere → (ℕ → Option ℤ) → (ℕ → Option ℤ) → List Listing → Option RoundRobin
new_round_robin_read_policy where_from first last answers =
    start_at where_from first last (next_log new_round_robin answers)
