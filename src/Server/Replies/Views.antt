-- ===== src/Server/Replies/Views.antt =====
-- src/server.c, `stream_roster_rebuild` to `tier_blob_id`: who listens, and the views of the book, which
-- are derived when a reply first needs them (src/mbp.c with its blobs).
use tiltyard.Base.{
  ℕ, zero, suc, ◌+◌, ◌-◌, true, false, ◌||◌, List, [], ◌∷◌, ◌++◌, Option, some, get_or, leb, ◌==◌,
  if◌then◌else◌, ◌>>=◌,
}
use tiltyard.Ring.{queue, count, clear}
use tiltyard.Blobs.{BlobStore, reserve}
use tiltyard.Blobs.{get as bs_get}
use tiltyard.Feed.{no_slot, derive_size, squash, window, slot_differs, mbp1_derive, needs_mbp10}
use tiltyard.Server.State.{Server, client}

-- `TIER_MBP1`, the last tier whose data are blobs, and the tiers that the code names.
abbrev pub tier_mbo : ℕ
tier_mbo = 0

abbrev pub tier_mbp : ℕ
tier_mbp = 1

abbrev pub tier_mbp10 : ℕ
tier_mbp10 = 2

abbrev pub tier_mbp1 : ℕ
tier_mbp1 = 3

abbrev pub tier_trade : ℕ
tier_trade = 4

abbrev pub tier_count : ℕ
tier_count = 10

abbrev pub tier_free : ℕ
tier_free = 10

-- `CLIENT_IN_TYPE`
abbrev pub client_in_type : ℕ
client_in_type = 1

-- A blob of the size, with the one reference that its maker holds: 32 doublings are enough for any word.
abbrev pub new_blob : Server → BlobStore → ℕ → Option (ℕ × BlobStore)
new_blob sc bs size = reserve 34 sc.memory.junk bs size 1

-- The roster of a tier from position `i` on, the clients that listen.
unfoldable pub live_tier : ℕ → ℕ → Server → Option Server
live_tier zero i sc = some sc
live_tier (suc n) i sc =
    let cid = get_or sc.stream_roster i 0 in
    elim (client sc cid).ws [
      | true ↦
          queue sc.live_roster cid >>= λ cb. live_tier n (i + 1) (record sc { live_roster = cb })
      | false ↦ live_tier n (i + 1) sc
    ]

-- The tiers from `t` on; the offsets are written one by one.
unfoldable pub live_tiers : ℕ → ℕ → List ℕ → Server → Option Server
unfolding live_tier
live_tiers zero t offsets sc =
    some (record sc { live_offset = offsets ++ count sc.live_roster ∷ [] })
live_tiers (suc n) t offsets sc =
    let i = get_or sc.tier_offset t 0 in
    live_tier (get_or sc.tier_offset (t + 1) 0 - i) i sc >>= λ sc'.
    live_tiers n (t + 1) (offsets ++ count sc.live_roster ∷ []) sc'

-- `stream_roster_rebuild`
unfoldable pub stream_roster_rebuild : Server → Option Server
unfolding live_tiers
stream_roster_rebuild sc =
    live_tiers tier_count 0 [] (record sc { live_roster = clear sc.live_roster })

-- `client_blob_tier`
unfoldable pub client_blob_tier : Server → ℕ → ℕ
client_blob_tier sc client_id =
    let tier = (client sc client_id).sub_tier in if leb tier tier_mbp1 then tier else tier_mbo

-- The blob of `mbp1_derive`.
unfoldable pub mbp1_blob : Server → Option Server
mbp1_blob sc = do
  made ← new_blob sc sc.mbp1_bs 16
  some (record sc {
    mbp1_bs = (bs_get made.1 sc.last_mbp1).1;
    last_mbp1 = made.0;
    feed = mbp1_derive sc.feed;
  })

-- The blob of `mbp10_derive`, and of `mbp1_derive` where the touch changed.
unfoldable pub mbp10_blob : Server → Option Server
unfolding mbp1_blob
mbp10_blob sc = do
  made ← new_blob sc sc.mbp10_bs 160
  let old = sc.feed.mbp10
  let new = window sc.feed.mbp
  let feed = sc.feed
  let sc' = record sc {
    mbp10_bs = (bs_get made.1 sc.last_mbp10).1;
    last_mbp10 = made.0;
    feed = record feed { mbp10 = new };
  }
  let hi_bid_changed = slot_differs (get_or old 9 no_slot) (get_or new 9 no_slot)
  let lo_ask_changed = slot_differs (get_or old 10 no_slot) (get_or new 10 no_slot)
  let touch_changed = hi_bid_changed || lo_ask_changed
  if touch_changed then mbp1_blob sc' else some sc'

-- `mbp_derive` with the blobs that it makes and gives back.
unfoldable pub derive_blobs : Server → Option Server
unfolding mbp10_blob
derive_blobs sc = do
  made ← new_blob sc sc.mbp_bs (derive_size sc.mbo)
  let feed = sc.feed
  let mbp = squash sc.mbo
  let sc' = record sc {
    mbp_bs = (bs_get made.1 sc.last_mbp).1;
    last_mbp = made.0;
    feed = record feed { mbp = mbp };
  }
  if needs_mbp10 feed.mbp mbp feed.mbp10 then mbp10_blob sc' else some sc'

-- `mbp_ensure`
unfoldable pub mbp_ensure : Server → Option Server
unfolding derive_blobs
mbp_ensure sc =
    if sc.mbp_derived_version == sc.book_version
    then some sc
    else derive_blobs (record sc { mbp_derived_version = sc.book_version })

-- `tier_blob_id`
unfoldable pub tier_blob_id : ℕ → Server → Option (ℕ × Server)
unfolding mbp_ensure
tier_blob_id blob_tier sc =
    if blob_tier == tier_mbp || blob_tier == tier_mbp10 || blob_tier == tier_mbp1
    then (mbp_ensure sc >>= λ sc'. some (
      (if blob_tier == tier_mbp
          then sc'.last_mbp
          else if blob_tier == tier_mbp10
          then sc'.last_mbp10
          else sc'.last_mbp1),
      sc',
    ))
    else some (sc.last_mbo, sc)
