-- ===== src/Server/Pipeline.antt =====
-- src/server.c, `server_arrival` to `server_exec_to_sw`: the way of an order from the wire through the
-- hardware queue and the software queue to its execution, one event for each step.
use tiltyard.Base.{ℕ, zero, suc, true, false, ◌||◌, Option, some, ◌==◌, if◌then◌else◌, ◌>>=◌}
use tiltyard.Ring.{queue, deque, is_empty, count}
use tiltyard.Event.{build_event}
use tiltyard.Server.State.{Server, word, post}
use tiltyard.Server.Auction.Cross.{server_type, convert_sentinel_value, cap_batch}
use tiltyard.Server.Work.{server_order}

-- `HW_TO_SW_ID`, `EXEC_START_ID` and `EXEC_END_ID`
abbrev pub hw_to_sw_id : ℕ
hw_to_sw_id = 1073741823

abbrev pub exec_start_id : ℕ
exec_start_id = 1073741822

abbrev pub exec_end_id : ℕ
exec_end_id = 1073741821

-- `server_exec_end`
unfoldable pub server_exec_end : Server → Option Server
unfolding server_order cap_batch post
server_exec_end sc =
    let taken = deque sc.sw_queue in
    if is_empty sc.sw_queue then some (record sc { executing = false }) else (do
      done ← server_order (word sc taken.0) (record sc { sw_queue = taken.1 })
      capped ← (if is_empty done.convert_holder then some done else cap_batch done)
      let idle = is_empty capped.sw_queue
      if idle
          then some (record capped { executing = false })
          else post (build_event server_type exec_end_id) 10 capped)

-- `server_arrival`
unfoldable pub server_arrival : ℕ → Server → Option Server
unfolding post
server_arrival order_id sc = queue sc.hw_queue order_id >>= λ cb.
    post (build_event server_type hw_to_sw_id) 10000 (record sc { hw_queue = cb })

-- `server_exec_start`
unfoldable pub server_exec_start : Server → Option Server
unfolding post
server_exec_start sc =
    if sc.executing || is_empty sc.sw_queue
    then some sc
    else post (build_event server_type exec_end_id) 10 (record sc { executing = true })

-- The event that wakes an idle executor; if the queue holds something it is on its way.
unfoldable pub wake_executor : Server → Option Server
unfolding post
wake_executor sc =
    if is_empty sc.sw_queue then post (build_event server_type exec_start_id) 100 sc else some sc

-- `server_hw_to_sw`
unfoldable pub server_hw_to_sw : Server → Option Server
unfolding wake_executor
server_hw_to_sw sc =
    let taken = deque sc.hw_queue in
    if is_empty sc.hw_queue
    then some sc
    else (wake_executor (record sc { hw_queue = taken.1 }) >>= λ sc'.
        queue sc'.sw_queue (word sc taken.0) >>= λ cb. some (record sc' { sw_queue = cb }))

-- The loop of `server_exec_to_sw`: up to the end of the batch. The fuel is the number of orders held.
unfoldable pub move_batch : ℕ → ℕ → Server → Option Server
move_batch zero synth_order_id sc = some sc
move_batch (suc fuel) synth_order_id sc =
    let taken = deque sc.convert_holder in
    elim (is_empty sc.convert_holder || synth_order_id == convert_sentinel_value) [
      | true ↦ some sc
      | false ↦ queue sc.sw_queue synth_order_id >>= λ cb.
          move_batch fuel (word sc taken.0) (record sc { sw_queue = cb; convert_holder = taken.1 })
    ]

-- `server_exec_to_sw`
unfoldable pub server_exec_to_sw : Server → Option Server
unfolding wake_executor move_batch
server_exec_to_sw sc =
    let taken = deque sc.convert_holder in
    let id = word sc taken.0 in
    let sc' = record sc { convert_holder = taken.1 } in
    if is_empty sc.convert_holder
    then some sc
    else if is_empty taken.1 || id == convert_sentinel_value
    then some sc'
    else (wake_executor sc' >>= move_batch (count sc'.convert_holder) id)
