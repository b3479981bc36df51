-- ===== src/Clients.antt =====
-- src/holder.c and include/holder.h: many clients of few strategies; the clients of a strategy are
-- numbered in one run.
use tiltyard.Base.{
  ℕ, zero, suc, ◌+◌, ◌-◌, ◌≤◌, ◌<◌, ◌≡◌, refl, sym, false, ◌∙◌, List, [], ◌∷◌, length, get_elem?,
  Option, none, some, ltb, if◌then◌else◌, arith, Bool-cases, inl, inr,
}

-- The counting loop of `holder_init`.
unfoldable pub num_clients : List ℕ → ℕ
num_clients [] = 0
num_clients (allocation ∷ rest) = allocation + num_clients rest

-- The strategies of the clients in the order in which `holder_init` makes them.
unfoldable pub types_from : ℕ → List ℕ → List ℕ
types_from type_index [] = []
types_from type_index (zero ∷ rest) = types_from (suc type_index) rest
types_from type_index (suc n ∷ rest) = type_index ∷ types_from type_index (n ∷ rest)

-- The search loop of `holder_client_on_snapshot`: the index it stops at, and the clients up to there.
unfoldable pub find_type : ℕ → ℕ → List ℕ → ℕ → ℕ × ℕ
find_type type_index running_max [] client_id = (type_index, running_max)
find_type type_index running_max (bucket_count ∷ rest) client_id =
    if ltb client_id (running_max + bucket_count)
    then (type_index, running_max + bucket_count)
    else find_type (suc type_index) (running_max + bucket_count) rest client_id

-- The strategy whose `on_snapshot` is called; `none` is the `exit(1)`.
unfoldable pub client_type : List ℕ → ℕ → Option ℕ
unfolding find_type
client_type client_allocations client_id =
    let found = find_type 0 0 client_allocations client_id in
    if ltb found.1 client_id then none else some found.0

get_elem-run :
    (type_index n : ℕ) (rest : List ℕ) (i : ℕ)
    → get_elem? (types_from type_index (n ∷ rest)) i
      ≡ (if ltb i n then some type_index else get_elem? (types_from (suc type_index) rest) (i - n))
unfolding types_from
get_elem-run type_index zero rest i = let z : i - 0 ≡ i = omega arith in rw z (ground arith)
get_elem-run type_index (suc n) rest zero = ground arith
get_elem-run type_index (suc n) rest (suc i) = ground (arith, get_elem-run type_index n rest i)

find_type_lem :
    (type_index running_max : ℕ) (allocations : List ℕ) (client_id : ℕ)
    → running_max ≤ client_id
    → client_id < running_max + num_clients allocations
    → let found = find_type type_index running_max allocations client_id in
      (some found.0 ≡ get_elem? (types_from type_index allocations) (client_id - running_max))
      × (client_id < found.1)
unfolding find_type num_clients
find_type_lem type_index running_max [] client_id l h = absurd (omega arith)
find_type_lem type_index running_max (n ∷ rest) client_id l h =
    elim (Bool-cases (ltb client_id (running_max + n))) [
      | inl y ↦
          rw y
            (ground (arith, get_elem-run type_index n rest (client_id - running_max)), ground arith)
      | inr m ↦
          let (e, k) =
            find_type_lem (suc type_index) (running_max + n) rest client_id (ground arith)
              (omega arith) in
          let outside : ltb (client_id - running_max) n ≡ false = ground arith in
          let rest_at : client_id - running_max - n ≡ client_id - (running_max + n) = omega arith in
          rw m (
            e
                ∙ sym (
                    get_elem-run type_index n rest (client_id - running_max)
                    ∙ rw (outside, rest_at) refl),
            k,
          )
    ]

-- Every client of the `holder_init` loop gets the snapshots of the strategy that made it.
pub client_type_lem :
    (client_allocations : List ℕ) (client_id : ℕ)
    → client_id < num_clients client_allocations
    → client_type client_allocations client_id
      ≡ get_elem? (types_from 0 client_allocations) client_id
unfolding client_type
client_type_lem client_allocations client_id h =
    let (e, k) = find_type_lem 0 0 client_allocations client_id (omega arith) (omega arith) in
    let inside : ltb (find_type 0 0 client_allocations client_id).1 client_id ≡ false =
      ground arith in
    let z : client_id - 0 ≡ client_id = omega arith in rw inside (rw z at e)

find_type-past :
    (type_index running_max : ℕ) (allocations : List ℕ) (client_id : ℕ)
    → client_id ≡ running_max + num_clients allocations
    → find_type type_index running_max allocations client_id
      ≡ (type_index + length allocations, client_id)
unfolding find_type num_clients
find_type-past type_index running_max [] client_id h = ground arith
find_type-past type_index running_max (n ∷ rest) client_id h =
    ground (arith, find_type-past (suc type_index) (running_max + n) rest client_id)

-- The id one past the last client is not refused: its strategy would be the one past the last.
pub client_type-past :
    (client_allocations : List ℕ)
    → client_type client_allocations (num_clients client_allocations)
      ≡ some (length client_allocations)
unfolding client_type
client_type-past client_allocations =
    ground (arith, find_type-past 0 0 client_allocations (num_clients client_allocations))
