-- ===== src/Stats/Bucket.antt =====
-- src/stats/bucket.rs: the minute buckets, a ring indexed by the minute modulo its length.
-- `usize` is 64 bits wide, so `minute_epoch as usize` changes nothing.
pub mod Sums
pub mod Conservation
pub mod Minutes
pub mod Ring
pub mod Sorting
pub mod Snapshot
pub mod Shown
use range_porter.Prelude.{
  ℕ, ◌-◌, ◌/◌, ◌%◌, max, Bool, not, List, [], ◌∷◌, length, get_or, set, replicate, leb, ◌==◌,
  if◌then◌else◌,
}
use range_porter.Word.{add_u64}

pub record AggregateTotals : Type 0 where
  pub tcp_accepted : ℕ
  pub tcp_active : ℕ
  pub tcp_closed : ℕ
  pub udp_active_flows : ℕ
  pub tcp_in_bytes : ℕ
  pub tcp_out_bytes : ℕ
  pub udp_in_bytes : ℕ
  pub udp_out_bytes : ℕ
  pub udp_dropped : ℕ

pub record MinuteBucket : Type 0 where
  pub minute_epoch : ℕ
  pub tcp_new_conn : ℕ
  pub tcp_active_peak : ℕ
  pub udp_active_flows_peak : ℕ
  pub tcp_in_bytes : ℕ
  pub tcp_out_bytes : ℕ
  pub udp_in_bytes : ℕ
  pub udp_out_bytes : ℕ

pub record BucketRing : Type 0 where
  pub buckets : List MinuteBucket

-- The derived `Default`.
abbrev pub no_totals : AggregateTotals
no_totals = record {
  tcp_accepted = 0;
  tcp_active = 0;
  tcp_closed = 0;
  udp_active_flows = 0;
  tcp_in_bytes = 0;
  tcp_out_bytes = 0;
  udp_in_bytes = 0;
  udp_out_bytes = 0;
  udp_dropped = 0;
}

-- `MinuteBucket { minute_epoch, ..MinuteBucket::default() }`.
abbrev pub empty_bucket : ℕ → MinuteBucket
empty_bucket minute_epoch = record {
  minute_epoch = minute_epoch;
  tcp_new_conn = 0;
  tcp_active_peak = 0;
  udp_active_flows_peak = 0;
  tcp_in_bytes = 0;
  tcp_out_bytes = 0;
  udp_in_bytes = 0;
  udp_out_bytes = 0;
}

-- A vector of more than isize::MAX bytes panics; that is left out.
unfoldable pub new : ℕ → BucketRing
new window_minutes = record { buckets = replicate (max window_minutes 1) (empty_bucket 0) }

-- The reset of a bucket that holds another minute.
unfoldable pub fresh_bucket : ℕ → MinuteBucket → MinuteBucket
fresh_bucket minute_epoch bucket =
    if not (bucket.minute_epoch == minute_epoch) then empty_bucket minute_epoch else bucket

-- The updates of the fields. `saturating_sub` is `-` on ℕ.
unfoldable pub add_sample : MinuteBucket → AggregateTotals → AggregateTotals → MinuteBucket
unfolding add_u64
add_sample bucket totals previous = record bucket {
  tcp_new_conn = add_u64 bucket.tcp_new_conn (totals.tcp_accepted - previous.tcp_accepted);
  tcp_active_peak = max bucket.tcp_active_peak totals.tcp_active;
  udp_active_flows_peak = max bucket.udp_active_flows_peak totals.udp_active_flows;
  tcp_in_bytes = add_u64 bucket.tcp_in_bytes (totals.tcp_in_bytes - previous.tcp_in_bytes);
  tcp_out_bytes = add_u64 bucket.tcp_out_bytes (totals.tcp_out_bytes - previous.tcp_out_bytes);
  udp_in_bytes = add_u64 bucket.udp_in_bytes (totals.udp_in_bytes - previous.udp_in_bytes);
  udp_out_bytes = add_u64 bucket.udp_out_bytes (totals.udp_out_bytes - previous.udp_out_bytes);
}

-- `rollup` returns the ring and the new `previous_totals`.
unfoldable pub rollup :
    BucketRing → ℕ → AggregateTotals → AggregateTotals → BucketRing × AggregateTotals
rollup ring now_epoch_seconds totals previous_totals =
    let minute_epoch = now_epoch_seconds / 60 in
    let index = minute_epoch % length ring.buckets in
    let bucket = fresh_bucket minute_epoch (get_or ring.buckets index (empty_bucket 0)) in
    (record { buckets = set ring.buckets index (add_sample bucket totals previous_totals) }, totals)

-- `filter(|bucket| bucket.minute_epoch != 0)`.
unfoldable pub used : List MinuteBucket → List MinuteBucket
used [] = []
used (b ∷ bs) = if not (b.minute_epoch == 0) then b ∷ used bs else used bs

-- `sort_by_key` is stable: an earlier bucket stays before a later one of the same minute.
unfoldable pub insert_by_epoch : MinuteBucket → List MinuteBucket → List MinuteBucket
insert_by_epoch b [] = b ∷ []
insert_by_epoch b (c ∷ bs) =
    let later = c ∷ insert_by_epoch b bs in
    if leb b.minute_epoch c.minute_epoch then b ∷ c ∷ bs else later

unfoldable pub sort_by_epoch : List MinuteBucket → List MinuteBucket
unfolding insert_by_epoch
sort_by_epoch [] = []
sort_by_epoch (b ∷ bs) = insert_by_epoch b (sort_by_epoch bs)

unfoldable pub snapshot : BucketRing → List MinuteBucket
unfolding used sort_by_epoch
snapshot ring = sort_by_epoch (used ring.buckets)
