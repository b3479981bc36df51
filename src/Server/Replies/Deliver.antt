-- ===== src/Server/Replies/Deliver.antt =====
-- src/server.c, `schedule_response` to `schedule_stream_response`: one reply to one client.
use tiltyard.Base.{ℕ, ◌^◌, true, Option, some, max_u32, leb, ◌==◌, if◌then◌else◌, ◌>>=◌}
use tiltyard.Ring.{queue}
use tiltyard.Order.{broadcast_bit}
use tiltyard.FreeList.{insert}
use tiltyard.Blobs.{BlobStore, bump_refs}
use tiltyard.Blobs.{get as bs_get}
use tiltyard.Event.{build_event, calculate_jitter}
use tiltyard.Server.State.{Response, Server, client, set_client, post}
use tiltyard.Server.Replies.Views.{
  tier_mbo, tier_mbp, tier_mbp10, tier_mbp1, client_in_type, client_blob_tier, tier_blob_id,
}

-- A change of the store that `tier_source` names for a blob tier.
abbrev pub at_tier : ℕ → (BlobStore → BlobStore) → Server → Server
at_tier tier f sc =
    if tier == tier_mbo
    then record sc { mbo_bs = f sc.mbo_bs }
    else if tier == tier_mbp
    then record sc { mbp_bs = f sc.mbp_bs }
    else if tier == tier_mbp10
    then record sc { mbp10_bs = f sc.mbp10_bs }
    else record sc { mbp1_bs = f sc.mbp1_bs }

-- `bs_bump_refs` and `bs_get` on the store of a tier.
unfoldable pub pin : ℕ → ℕ → Server → Server
pin tier blob sc = at_tier tier (λ bs. bump_refs bs blob) sc

unfoldable pub unpin : ℕ → ℕ → Server → Server
unpin tier blob sc = at_tier tier (λ bs. (bs_get bs blob).1) sc

-- A latency of the client with its jitter; the generator moves on.
unfoldable pub draw_jitter : ℕ → Server → ℕ × Server
draw_jitter client_id sc =
    let sch = sc.sch in
    let drawn = calculate_jitter (client sc client_id).net_latency sch.rand in
    (drawn.0, record sc { sch = record sch { rand = drawn.1 } })

-- The response into the free list, and its event into the schedule.
unfoldable pub submit : Response → Server → Option Server
unfolding draw_jitter
submit r sc = do
  kept ← insert sc.memory.junk sc.responses r
  let drawn = draw_jitter r.client_id (record sc { responses = kept.1 })
  post (build_event client_in_type kept.0) drawn.0 drawn.1

-- `will_notify` and the queue of the clients that have it set.
unfoldable pub notify : ℕ → Server → Option Server
notify client_id sc =
    let cs = client sc client_id in
    if cs.will_notify
    then some sc
    else (queue sc.notified client_id >>= λ cb.
        some
          (record (set_client client_id (record cs { will_notify = true }) sc) { notified = cb }))

-- A response to an order, with the blob that the client pays for.
unfoldable pub respond : Response → Server → Option Server
unfolding client_blob_tier tier_blob_id pin submit notify
respond r sc = do
  let blob_tier = client_blob_tier sc r.client_id
  blob ← tier_blob_id blob_tier sc
  sent ← submit (record r { tier = blob_tier; snapshot_id = blob.0 }) (pin blob_tier blob.0 blob.1)
  notify r.client_id sent

-- `schedule_pair_response`
unfoldable pub schedule_pair_response : ℕ → ℕ → ℕ → ℕ → ℕ → ℕ → ℕ → ℕ → ℕ → Server → Option Server
unfolding respond
schedule_pair_response client_id status order_id price quantity_filled second_order_id second_price
      second_quantity_filled rej_reason sc =
    respond
      (record {
        client_id = client_id;
        snapshot_id = 0;
        order_id = order_id;
        status = status;
        quantity_filled = quantity_filled;
        second_order_id = second_order_id;
        second_quantity_filled = second_quantity_filled;
        price = price;
        second_price = second_price;
        tier = 0;
        rej_reason = rej_reason;
      })
      sc

-- `schedule_response`
unfoldable pub schedule_response : ℕ → ℕ → ℕ → ℕ → ℕ → ℕ → Server → Option Server
unfolding respond
schedule_response client_id status quantity_filled order_id price rej_reason sc =
    respond
      (record {
        client_id = client_id;
        snapshot_id = 0;
        order_id = order_id;
        status = status;
        quantity_filled = quantity_filled;
        second_order_id = 0;
        second_quantity_filled = 0;
        price = price;
        second_price = 0;
        tier = 0;
        rej_reason = rej_reason;
      })
      sc

-- `schedule_stream_response`
unfoldable pub schedule_stream_response : ℕ → ℕ → ℕ → Server → Option Server
unfolding pin submit
schedule_stream_response client_id tier index sc =
    submit
      (record {
        client_id = client_id;
        snapshot_id = index;
        order_id = max_u32;
        status = 2 ^ broadcast_bit;
        quantity_filled = 0;
        second_order_id = 0;
        second_quantity_filled = 0;
        price = 0;
        second_price = 0;
        tier = tier;
        rej_reason = 0;
      })
      (if leb tier tier_mbp1 then pin tier index sc else sc)
