-- ===== src/Tests/Blobs.antt =====
-- Two live blobs in a store of eight bytes that has run over the top.
use tiltyard.Base.{zero, suc, refl, [], ◌∷◌, inr, arith}
use tiltyard.Blobs.{Meta, BlobStore, no_meta, reserve, get}
use tiltyard.Blobs.Moving.{Slots}
use tiltyard.Blobs.Holding.{IsHolding}
use tiltyard.Blobs.Reserve.{IsReserved, reserve_lem}
use tiltyard.Blobs.Get.{IsGot, get_lem}
use tiltyard.Tests.Queues.{junk}

abbrev upper_blob : Meta
upper_blob = record { refs = 1; offset = 4; size = 4 }

abbrev lower_blob : Meta
lower_blob = record { refs = 2; offset = 0; size = 3 }

abbrev two_blobs : BlobStore
two_blobs = record {
  md_start = 3;
  md_end = 1;
  md_capacity = 4;
  metadata = lower_blob ∷ no_meta ∷ no_meta ∷ upper_blob ∷ [];
  store_capacity = 8;
  store = λ a. a;
}

two_blobs-Slots : Slots two_blobs.metadata 4 3 (upper_blob ∷ lower_blob ∷ [])
two_blobs-Slots zero h = refl
two_blobs-Slots (suc zero) h = refl
two_blobs-Slots (suc (suc k)) h = absurd (omega arith)

two_blobs-IsHolding : IsHolding two_blobs (upper_blob ∷ lower_blob ∷ [])
two_blobs-IsHolding = record {
  given = refl;
  positive = omega arith;
  few = omega arith;
  fits = omega arith;
  vacant = λ e. absurd (omega arith);
  started = λ h. omega arith;
  ended = λ h. refl;
  slots = two_blobs-Slots;
  laid = inr (record {
    oldest = upper_blob;
    older = [];
    after_wrap = lower_blob;
    newer = [];
    parts = refl;
    upper = omega arith;
    lower = omega arith;
  });
  word = omega arith;
}

-- Two bytes more do not fit between the blobs: the store doubles.
reserve_example :
    IsReserved two_blobs (upper_blob ∷ lower_blob ∷ []) 2 7 (reserve 3 junk two_blobs 2 7)
reserve_example =
    reserve_lem 1 junk two_blobs (upper_blob ∷ lower_blob ∷ []) 2 7 two_blobs-IsHolding
      (omega arith) (omega arith) (omega arith) (omega arith) (omega arith)

get_example : IsGot two_blobs (upper_blob ∷ lower_blob ∷ []) 0 (get two_blobs 3)
get_example =
    get_lem two_blobs (upper_blob ∷ lower_blob ∷ []) 0 two_blobs-IsHolding (omega arith)
      (omega arith) (omega arith)
