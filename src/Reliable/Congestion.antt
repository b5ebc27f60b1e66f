-- ===== src/Reliable/Congestion.antt =====
-- Congestion control of pkg/tunnel/reliable.go: slow start, AIMD, and one reduction per loss episode.
-- An int32 is the number below 2^32 that has its bits, with the wrap-around written out. The
-- comparisons are those of numbers, which is what the code's are as long as no value reaches 2^31.
use shadow_gre.Prelude.{
  ℕ, ◌+◌, ◌-◌, ◌*◌, ◌/◌, ◌≤◌, ◌<◌, min, ◌≡◌, ap, arith, ltb, leb, if◌then◌else◌,
}
use Prim.Native.Nat.{max}
use native.Mathlib.Nat.{div-le_self, div-eq_of_lt}
use shadow_gre.Reliable.Seq.{add32, sub32}

abbrev pub initial_cwnd : ℕ
initial_cwnd = 32

abbrev pub min_cwnd : ℕ
min_cwnd = 8

abbrev pub max_cwnd : ℕ
max_cwnd = 16384

abbrev pub default_ssthresh : ℕ
default_ssthresh = 1024

pub record Congestion : Type 0 where
  pub cwnd : ℕ
  pub ssthresh : ℕ
  pub ca_accum : ℕ
  pub last_loss_reduce_ns : ℕ

abbrev pub new_congestion : Congestion
new_congestion = record {
  cwnd = initial_cwnd;
  ssthresh = default_ssthresh;
  ca_accum = 0;
  last_loss_reduce_ns = 0;
}

-- `if cwnd > MaxCwnd { cwnd = MaxCwnd }`
abbrev cap_cwnd : ℕ → ℕ
cap_cwnd cwnd = if ltb max_cwnd cwnd then max_cwnd else cwnd

unfoldable pub on_ack_advance : Congestion → ℕ → Congestion
on_ack_advance c pkts_acked =
    let accum = add32 c.ca_accum pkts_acked in
    let inc = accum / c.cwnd in
    if leb pkts_acked 0
    then c
    else (if ltb c.cwnd c.ssthresh
        then record c { cwnd = cap_cwnd (add32 c.cwnd pkts_acked) }
        else (if leb c.cwnd accum
            then record c {
              ca_accum = sub32 accum (inc * c.cwnd);
              cwnd = cap_cwnd (add32 c.cwnd inc);
            }
            else record c { ca_accum = accum }))

-- `interval_ns` is the smoothed round-trip time, or the RTO before the first sample. The tests on
-- `now - last` are signed, and hold on a clock that went back.
unfoldable pub on_loss_fast : Congestion → ℕ → ℕ → Congestion
on_loss_fast c interval_ns now =
    let half = c.cwnd / 2 in
    let new_cwnd = if ltb half min_cwnd then min_cwnd else half in
    if ltb now (c.last_loss_reduce_ns + interval_ns)
    then c
    else record { cwnd = new_cwnd; ssthresh = new_cwnd; ca_accum = 0; last_loss_reduce_ns = now }

unfoldable pub on_loss_rto : Congestion → ℕ → ℕ → Congestion
on_loss_rto c interval_ns now =
    let half = c.cwnd / 2 in
    let new_ssthresh = if ltb half min_cwnd then min_cwnd else half in
    if ltb now (c.last_loss_reduce_ns + interval_ns) then c else record {
      cwnd = new_ssthresh;
      ssthresh = new_ssthresh;
      ca_accum = 0;
      last_loss_reduce_ns = now;
    }

-- The window lies between `MinCwnd` and `MaxCwnd`, and less than a window is accumulated.
pub record IsValid (c : Congestion) : Type 0 where
  pub cwnd_low : min_cwnd ≤ c.cwnd
  pub cwnd_high : c.cwnd ≤ max_cwnd
  pub ssthresh_low : min_cwnd ≤ c.ssthresh
  pub ssthresh_high : c.ssthresh ≤ max_cwnd
  pub accum_low : c.ca_accum < c.cwnd

pub new_congestion-IsValid : IsValid new_congestion
new_congestion-IsValid = omega arith

-- For at most `2 * MaxCwnd` packets, which is what one acknowledgement can free.
pub on_ack_advance-IsValid :
    (c : Congestion) (pkts : ℕ) → IsValid c → pkts ≤ 2 * max_cwnd → IsValid (on_ack_advance c pkts)
unfolding on_ack_advance
on_ack_advance-IsValid c pkts v few = ground arith

pub on_loss_fast-IsValid :
    (c : Congestion) (interval now : ℕ) → IsValid c → IsValid (on_loss_fast c interval now)
unfolding on_loss_fast
on_loss_fast-IsValid c interval now v = ground arith

pub on_loss_rto-IsValid :
    (c : Congestion) (interval now : ℕ) → IsValid c → IsValid (on_loss_rto c interval now)
unfolding on_loss_rto
on_loss_rto-IsValid c interval now v = ground arith

-- What an acknowledgement of `pkts` packets does to a valid window. In slow start the window grows
-- by `pkts`, to the cap at most. In congestion avoidance it grows by one for every full window of
-- acknowledged packets, with those that were kept from before, to the cap at most; less than a window
-- is kept, and below the cap the windows it grew by and what is kept are all that was acknowledged.
pub on_ack_advance_growth :
    (c : Congestion) (pkts : ℕ)
    → IsValid c
    → 0 < pkts
    → pkts ≤ 2 * max_cwnd
    → let c' = on_ack_advance c pkts in
      (c.cwnd < c.ssthresh → (c'.cwnd ≡ min (c.cwnd + pkts) max_cwnd) × (c'.ca_accum ≡ c.ca_accum))
      × (c.ssthresh ≤ c.cwnd
          → (c'.cwnd ≡ min (c.cwnd + (c.ca_accum + pkts) / c.cwnd) max_cwnd)
            × (c'.ca_accum < c.cwnd)
            × (c'.cwnd < max_cwnd → (c'.cwnd - c.cwnd) * c.cwnd + c'.ca_accum ≡ c.ca_accum + pkts))
      × (c.cwnd ≤ c'.cwnd)
unfolding on_ack_advance
on_ack_advance_growth c pkts v pos few = (
  (λ h. ground arith),
  (λ h. (
    ground (arith, ap (λ n. n / c.cwnd) whole, div-le_self (c.ca_accum + pkts) c.cwnd, none_full),
    ground (arith, v.accum_low),
    λ k. ground arith,
  )),
  ground arith,
)
  where
    whole : add32 c.ca_accum pkts ≡ c.ca_accum + pkts
    whole = omega arith

    none_full : c.ca_accum + pkts < c.cwnd → (c.ca_accum + pkts) / c.cwnd ≡ 0
    none_full h = div-eq_of_lt h

-- Within one round-trip time of a reduction, neither kind of loss reduces the window again.
pub on_loss_once :
    (c : Congestion) (interval now later : ℕ)
    → c.last_loss_reduce_ns + interval ≤ now
    → later < now + interval
    → let c' = on_loss_fast c interval now in
      (c'.cwnd ≡ max min_cwnd (c.cwnd / 2))
      × (c'.ssthresh ≡ c'.cwnd)
      × (on_loss_fast c' interval later ≡ c')
      × (on_loss_rto c' interval later ≡ c')
      × (on_loss_rto c interval now ≡ c')
unfolding on_loss_fast on_loss_rto
on_loss_once c interval now later first again =
    (ground arith, ground arith, ground arith, ground arith, ground arith)
