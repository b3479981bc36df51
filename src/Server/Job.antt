-- ===== src/Server/Job.antt =====
-- src/server.c, `server_order`: what its local variables hold while it works on an order.
use tiltyard.Base.{ℕ, Bool, ◌&&◌, not, max_u32, bit, ◌==◌, if◌then◌else◌}
use tiltyard.Order.{Order, iceberg_bit, can_rep_bit, cancel_bit, has_stop_bit}
use tiltyard.Book.Range.{is_buy, is_gtc}
use tiltyard.Server.State.{Server, order_at}

pub record Job : Type 0 where
  pub exec_order_id : ℕ
  pub ask_order_id : ℕ
  pub stop_order_id : ℕ
  pub status : ℕ
  pub rej_reason : ℕ
  pub now_ns : ℕ
  pub fillable : ℕ
  pub before_quantity : ℕ
  pub before_ask_quantity : ℕ
  pub is_pair : Bool
  pub is_can_rep : Bool
  pub is_cancel : Bool
  pub ask_is_can_rep : Bool
  pub is_iceberg : Bool
  pub is_iceberg_replenish : Bool
  pub is_stop : Bool
  pub is_gtc : Bool
  pub is_buy : Bool
  pub canrep_stop_leg : Bool

-- `in` and `ask_in`
abbrev pub incoming : Job → Server → Order
incoming j sc = order_at sc j.exec_order_id

abbrev pub ask_incoming : Job → Server → Order
ask_incoming j sc = order_at sc j.ask_order_id

-- The flags that are read off the orders, before anything is changed.
unfoldable pub read_flags : Job → Server → Job
unfolding order_at
read_flags j sc =
    let in_ = order_at sc j.exec_order_id in
    let ask_in = order_at sc j.ask_order_id in
    let iceberg = bit in_.status iceberg_bit in
    record j {
      is_can_rep = bit in_.status can_rep_bit;
      is_cancel = bit in_.status cancel_bit;
      ask_is_can_rep = j.is_pair && bit ask_in.status can_rep_bit;
      is_iceberg = iceberg;
      is_iceberg_replenish = iceberg && not (in_.second_id == max_u32);
      is_stop = bit in_.status has_stop_bit;
      is_gtc = is_gtc in_;
      is_buy = is_buy in_;
      before_quantity = in_.quantity;
      before_ask_quantity = if j.is_pair then ask_in.quantity else 0;
    }
