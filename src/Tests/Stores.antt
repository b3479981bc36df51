-- ===== src/Tests/Stores.antt =====
-- A full max-heap, a free list at its last cell, a candle, a book's views, three clients.
use tiltyard.Base.{ℕ, zero, suc, ◌/◌, ◌≤◌, ◌<◌, ◌≡◌, refl, List, [], ◌∷◌, some, none, get_or, arith}
use tiltyard.Memory.{cell}
use tiltyard.MaxQueue.{MaxQueue, push, pop}
use tiltyard.MaxQueue.Order.{IsQueue}
use tiltyard.MaxQueue.Push.{Pushed, max_push_lem}
use tiltyard.MaxQueue.Greatest.{Popped, max_pop_lem}
use tiltyard.FreeList.{FreeList}
use tiltyard.FreeList.Ids.{IsList, lookup}
use tiltyard.FreeList.Insert.{Inserted, Released, insert_lem, release_lem}
use tiltyard.Ring.{CircularBuffer}
use tiltyard.Ring.Queue.{Holds}
use tiltyard.Ring.Front.{init-Holds}
use tiltyard.Ring.{init as empty_ring}
use tiltyard.Candles.{Candle, update_candle, update_or_add_candle}
use tiltyard.Candles.Roll.{Updated, update_candle_lem, rolled, update_or_add_candle_lem}
use tiltyard.Clients.{types_from, client_type, num_clients}
use tiltyard.Clients.{client_type_lem, client_type-past}
use tiltyard.Tests.Queues.{junk}

-- A full block of four cells: the capacity, then 5, 3 and 5.
abbrev full_max : MaxQueue
full_max = record { current = 4; heap = 4 ∷ 5 ∷ 3 ∷ 5 ∷ [] }

full_max_ordered : (c : ℕ) → 1 < c → c < 4 → cell full_max.heap c ≤ cell full_max.heap (c / 2)
full_max_ordered zero p k = absurd (omega arith)
full_max_ordered (suc zero) p k = absurd (omega arith)
full_max_ordered (suc (suc zero)) p k = omega arith
full_max_ordered (suc (suc (suc zero))) p k = omega arith
full_max_ordered (suc (suc (suc (suc c)))) p k = absurd (omega arith)

full_max-IsQueue : IsQueue full_max
full_max-IsQueue = record {
  size = refl;
  positive = omega arith;
  fits = omega arith;
  bound = omega arith;
  heap = full_max_ordered;
}

max_push_example : (q' : MaxQueue) × (push junk full_max 9 ≡ some q') × Pushed full_max 9 q'
max_push_example = max_push_lem junk full_max 9 full_max-IsQueue (omega arith)

max_pop_example : Popped full_max (pop full_max).0 (pop full_max).1
max_pop_example = max_pop_lem full_max full_max-IsQueue (omega arith)

-- Two cells, the one id that is left to hand out taken, so that the next insertion doubles.
abbrev full_list : FreeList ℕ
full_list = record {
  sp = 1;
  stack = 0 ∷ 1 ∷ [];
  payloads = none ∷ some 6 ∷ [];
  capacity = 2;
  type_size = 4;
  id_limit = 100;
}

abbrev holders : List (ℕ × ℕ)
holders = (1, 6) ∷ []

full_list_stored :
    (id v : ℕ) → lookup id holders ≡ some v → get_or full_list.payloads id none ≡ some v
full_list_stored zero v e = cc
full_list_stored (suc zero) v e = e
full_list_stored (suc (suc id)) v e = ground arith

full_list-IsList : IsList full_list holders
full_list-IsList = record {
  stack_size = refl;
  payload_size = refl;
  inside = omega arith;
  more = omega arith;
  word = omega arith;
  entry = omega arith;
  bytes = omega arith;
  free_below = λ i p k. absurd (omega arith);
  is_free = λ i p k. absurd (omega arith);
  distinct = λ i j p q k. absurd (omega arith);
  counted = omega arith;
  below = λ id v e. ground arith;
  stored = λ id v e. full_list_stored id v e;
}

insert_example : (id : ℕ) × (fl' : FreeList ℕ) × Inserted junk full_list holders 5 id fl'
insert_example =
    insert_lem junk full_list holders 5 full_list-IsList (omega arith) (omega arith) (omega arith)

release_example : Released junk full_list holders 1 6
release_example = release_lem junk full_list holders 1 6 full_list-IsList refl

abbrev first_candle : Candle
first_candle = record {
  duration = 60;
  time = 120;
  open_price = 10;
  hi = 12;
  lo = 9;
  close = 11;
  volume = 4;
}

update_candle_example : Updated first_candle 8 5 (update_candle first_candle 8 5)
update_candle_example = update_candle_lem first_candle 8 5 (record {
  open_above = omega arith;
  open_below = omega arith;
  close_above = omega arith;
  close_below = omega arith;
})

update_or_add_candle_example :
    (r : CircularBuffer Candle) × (update_or_add_candle (empty_ring 32) first_candle 130 60
      ≡ some r)
    × Holds r (rolled [] first_candle 130 60)
update_or_add_candle_example =
    update_or_add_candle_lem (empty_ring 32) [] first_candle 130 60
      (init-Holds 32 (omega arith) (omega arith)) (unfold empty_ring in omega arith)
      (unfold empty_ring in omega arith)

abbrev allocations : List ℕ
allocations = 2 ∷ 0 ∷ 1 ∷ []

client_type_example : client_type allocations 2 ≡ some 2
unfolding num_clients types_from
client_type_example = client_type_lem allocations 2 (omega arith)

client_type-past_example : client_type allocations 3 ≡ some 3
unfolding num_clients
client_type-past_example = client_type-past allocations
