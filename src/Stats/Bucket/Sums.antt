-- ===== src/Stats/Bucket/Sums.antt =====
-- What the bucket of a minute counts: the growth of the totals in that minute, and the peaks.
use range_porter.Prelude.{
  ℕ, ◌+◌, ◌-◌, ◌%◌, ◌<◌, max, ◌≡◌, refl, ap, ◌∙◌, inl, inr, true, false, List, [], ◌∷◌, arith, ◌==◌,
  if◌then◌else◌, Bool-cases, ==→eq,
}
use range_porter.Word.{u64_mod}
use range_porter.Stats.Bucket.{AggregateTotals, MinuteBucket, empty_bucket, no_totals, add_sample}
use range_porter.Stats.Bucket.Minutes.{
  Sample, minute, Minutes, bucket_at, put_minute, record_minute, record_minutes, nothing,
}

-- The counters of a bucket that add up what the totals gained.
pub data Column : Type 0 where
  new_conn tcp_in tcp_out udp_in udp_out : Column

abbrev pub in_bucket : Column → MinuteBucket → ℕ
in_bucket new_conn b = b.tcp_new_conn
in_bucket tcp_in b = b.tcp_in_bytes
in_bucket tcp_out b = b.tcp_out_bytes
in_bucket udp_in b = b.udp_in_bytes
in_bucket udp_out b = b.udp_out_bytes

abbrev pub in_totals : Column → AggregateTotals → ℕ
in_totals new_conn t = t.tcp_accepted
in_totals tcp_in t = t.tcp_in_bytes
in_totals tcp_out t = t.tcp_out_bytes
in_totals udp_in t = t.udp_in_bytes
in_totals udp_out t = t.udp_out_bytes

-- The gauges of a bucket that keep the highest total seen.
pub data Gauge : Type 0 where
  tcp_active udp_active : Gauge

abbrev pub peak_in_bucket : Gauge → MinuteBucket → ℕ
peak_in_bucket tcp_active b = b.tcp_active_peak
peak_in_bucket udp_active b = b.udp_active_flows_peak

abbrev pub gauge_in_totals : Gauge → AggregateTotals → ℕ
gauge_in_totals tcp_active t = t.tcp_active
gauge_in_totals udp_active t = t.udp_active_flows

-- How much the totals grew at the rollups of minute `m`.
unfoldable pub gained : Column → ℕ → AggregateTotals → List Sample → ℕ
gained c m previous [] = 0
gained c m previous (s ∷ ss) =
    (if minute s == m then in_totals c s.totals - in_totals c previous else 0)
    + gained c m s.totals ss

-- The highest total at the rollups of minute `m`.
unfoldable pub highest : Gauge → ℕ → List Sample → ℕ
highest g m [] = 0
highest g m (s ∷ ss) =
    max (if minute s == m then gauge_in_totals g s.totals else 0) (highest g m ss)

in_bucket-add_sample :
    (c : Column) (b : MinuteBucket) (t p : AggregateTotals)
    → in_bucket c (add_sample b t p) ≡ (in_bucket c b + (in_totals c t - in_totals c p)) % u64_mod
unfolding add_sample
in_bucket-add_sample new_conn b t p = refl
in_bucket-add_sample tcp_in b t p = refl
in_bucket-add_sample tcp_out b t p = refl
in_bucket-add_sample udp_in b t p = refl
in_bucket-add_sample udp_out b t p = refl

peak_in_bucket-add_sample :
    (g : Gauge) (b : MinuteBucket) (t p : AggregateTotals)
    → peak_in_bucket g (add_sample b t p) ≡ max (peak_in_bucket g b) (gauge_in_totals g t)
unfolding add_sample
peak_in_bucket-add_sample tcp_active b t p = refl
peak_in_bucket-add_sample udp_active b t p = refl

pub in_bucket-empty : (c : Column) (m : ℕ) → in_bucket c (empty_bucket m) ≡ 0
in_bucket-empty new_conn m = refl
in_bucket-empty _ m = refl

peak_in_bucket-empty : (g : Gauge) (m : ℕ) → peak_in_bucket g (empty_bucket m) ≡ 0
peak_in_bucket-empty tcp_active m = refl
peak_in_bucket-empty _ m = refl

-- The bucket of minute `m` in the store, empty where there is none.
abbrev pub held : Minutes → ℕ → MinuteBucket
held store m = bucket_at (store m) m

held-record_minute_self :
    (store : Minutes) (t m : ℕ) (totals previous : AggregateTotals)
    → (t == m) ≡ true
    → held (record_minute store t totals previous) m ≡ add_sample (held store m) totals previous
unfolding record_minute put_minute
held-record_minute_self store t m totals previous e = rw e (rw (==→eq t m e))

held-record_minute_other :
    (store : Minutes) (t m : ℕ) (totals previous : AggregateTotals)
    → (t == m) ≡ false
    → held (record_minute store t totals previous) m ≡ held store m
unfolding record_minute put_minute
held-record_minute_other store t m totals previous e = rw e

record_minutes-gained :
    (c : Column) (m : ℕ) (ss : List Sample) (store : Minutes) (previous : AggregateTotals)
    → in_bucket c (held store m) < u64_mod
    → in_bucket c (held (record_minutes store previous ss) m)
      ≡ (in_bucket c (held store m) + gained c m previous ss) % u64_mod
unfolding record_minutes gained
record_minutes-gained c m [] store previous h = omega arith
record_minutes-gained c m (s ∷ ss) store previous h = elim (Bool-cases (minute s == m)) [
  | inl e ↦
      let store' = record_minute store (minute s) s.totals previous in
      let now : in_bucket c (held store' m)
          ≡ (in_bucket c (held store m) + (in_totals c s.totals - in_totals c previous)) % u64_mod =
        ap (in_bucket c) (held-record_minute_self store (minute s) m s.totals previous e)
        ∙ in_bucket-add_sample c (held store m) s.totals previous in
      rw e (omega (arith, now, record_minutes-gained c m ss store' s.totals (omega (arith, now))))
  | inr e ↦
      let store' = record_minute store (minute s) s.totals previous in
      let now : in_bucket c (held store' m) ≡ in_bucket c (held store m) =
        ap (in_bucket c) (held-record_minute_other store (minute s) m s.totals previous e) in
      rw e (omega (arith, now, record_minutes-gained c m ss store' s.totals (omega (arith, now))))
]

record_minutes-highest :
    (g : Gauge) (m : ℕ) (ss : List Sample) (store : Minutes) (previous : AggregateTotals)
    → peak_in_bucket g (held (record_minutes store previous ss) m)
      ≡ max (peak_in_bucket g (held store m)) (highest g m ss)
unfolding record_minutes highest
record_minutes-highest g m [] store previous = omega arith
record_minutes-highest g m (s ∷ ss) store previous = elim (Bool-cases (minute s == m)) [
  | inl e ↦
      let store' = record_minute store (minute s) s.totals previous in
      rw e (
        omega (
          arith,
          ap (peak_in_bucket g) (held-record_minute_self store (minute s) m s.totals previous e),
          peak_in_bucket-add_sample g (held store m) s.totals previous,
          record_minutes-highest g m ss store' s.totals,
        ))
  | inr e ↦
      let store' = record_minute store (minute s) s.totals previous in
      rw e (
        omega (
          arith,
          ap (peak_in_bucket g) (held-record_minute_other store (minute s) m s.totals previous e),
          record_minutes-highest g m ss store' s.totals,
        ))
]

-- The bucket of each minute counts, modulo 2 ^ 64, what the totals gained at the rollups of that
-- minute, and its peaks are the highest gauges of those rollups.
pub held-sums :
    (m : ℕ) (ss : List Sample)
    → let b = held (record_minutes nothing no_totals ss) m in
      ((c : Column) → in_bucket c b ≡ gained c m no_totals ss % u64_mod)
      × ((g : Gauge) → peak_in_bucket g b ≡ highest g m ss)
held-sums m ss = (
  λ c. omega (
    arith,
    in_bucket-empty c m,
    record_minutes-gained c m ss nothing no_totals (omega (arith, in_bucket-empty c m)),
  ),
  λ g. omega (arith, peak_in_bucket-empty g m, record_minutes-highest g m ss nothing no_totals),
)
