-- ===== src/Reliable/Rtt.antt =====
-- `RTTEstimator` of pkg/tunnel/reliable.go (RFC 6298), over an interface for Go's float64.
use shadow_gre.Prelude.{
  ℕ, ◌^◌, ◌≤◌, ◌≡◌, inl, inr, Bool, true, false, not, List, [], ◌∷◌, arith, ltb, if◌then◌else◌,
  Bool-cases,
}

-- The float64 values, with the operations that the estimator uses, and what it needs of their rounding
-- and order. A comparison with NaN is false.
pub record Float64 : Type 1 where
  pub F : Type 0
  pub of_ℕ : ℕ → F
  -- The constant `n / d`.
  pub ratio : ℕ → ℕ → F
  pub add : F → F → F
  pub sub : F → F → F
  pub mul : F → F → F
  pub div : F → F → F
  pub neg : F → F
  pub lt : F → F → Bool
  pub is_nan : F → Bool
  -- `int(x)` and `int64(x)`. Go does not say what they are of NaN and of values out of range.
  pub trunc : F → ℕ
  -- Integers up to 2^53 are exact.
  pub lt-of_ℕ : (a b : ℕ) → a ≤ 2 ^ 53 → b ≤ 2 ^ 53 → lt (of_ℕ a) (of_ℕ b) ≡ ltb a b
  -- Doubling is exact or overflows to +Inf, and makes no value from `n` on smaller than `n`; twice NaN
  -- is NaN.
  pub double_ge :
      (x : F) (n : ℕ) → n ≤ 2 ^ 53 → lt x (of_ℕ n) ≡ false → lt (mul x (of_ℕ 2)) (of_ℕ n) ≡ false
  -- Truncation stays between the integers that bound a number.
  pub trunc_between :
      (x : F) (a b : ℕ)
      → a ≤ b
      → b ≤ 2 ^ 53
      → is_nan x ≡ false
      → lt x (of_ℕ a) ≡ false
      → lt (of_ℕ b) x ≡ false
      → (a ≤ trunc x) × (trunc x ≤ b)

abbrev pub default_rto_ms : ℕ
default_rto_ms = 1000

abbrev pub min_rto_ms : ℕ
min_rto_ms = 100

abbrev pub max_rto_ms : ℕ
max_rto_ms = 4000

pub record RttEstimator (fl : Float64) : Type 0 where
  pub srtt : fl.F
  pub rttvar : fl.F
  pub rto : fl.F
  pub has_rtt : Bool

module _ (fl : Float64) where
  open fl use {F, of_ℕ, ratio, add, sub, mul, div, neg, lt, is_nan, trunc}

  unfoldable pub new_rtt_estimator : RttEstimator fl
  new_rtt_estimator = record {
    srtt = of_ℕ 0;
    rttvar = of_ℕ 0;
    rto = of_ℕ default_rto_ms;
    has_rtt = false;
  }

  unfoldable pub abs : F → F
  abs x = if lt x (of_ℕ 0) then neg x else x

  -- The two tests at the end of `Update`.
  unfoldable pub clamp : F → F
  clamp rto =
      let low = if lt rto (of_ℕ min_rto_ms) then of_ℕ min_rto_ms else rto in
      if lt (of_ℕ max_rto_ms) low then of_ℕ max_rto_ms else low

  unfoldable pub set_rto : RttEstimator fl → RttEstimator fl
  set_rto r = record r { rto = clamp (add r.srtt (mul (of_ℕ 4) r.rttvar)) }

  -- `RTTBeta` is 1/4 and `RTTAlpha` 1/8.
  unfoldable pub update : RttEstimator fl → F → RttEstimator fl
  unfolding set_rto
  update r rtt_ms =
      if not r.has_rtt
      then set_rto (record r { srtt = rtt_ms; rttvar = div rtt_ms (of_ℕ 2); has_rtt = true })
      else set_rto (record r {
        rttvar = add (mul (ratio 3 4) r.rttvar) (mul (ratio 1 4) (abs (sub r.srtt rtt_ms)));
        srtt = add (mul (ratio 7 8) r.srtt) (mul (ratio 1 8) rtt_ms);
      })

  -- `RTO()`
  unfoldable pub get_rto : RttEstimator fl → ℕ
  get_rto r = trunc r.rto

  -- `SRTT()`
  unfoldable pub get_srtt : RttEstimator fl → F
  get_srtt r = if not r.has_rtt then of_ℕ 0 else r.srtt

  unfoldable pub backoff : RttEstimator fl → RttEstimator fl
  backoff r =
      let twice = mul r.rto (of_ℕ 2) in
      record r { rto = if lt (of_ℕ max_rto_ms) twice then of_ℕ max_rto_ms else twice }

  -- What moves an estimator: a sample in milliseconds, or a timeout.
  pub data Event : Type 0 where
    sample : F → Event
    timeout : Event

  pub after : RttEstimator fl → List Event → RttEstimator fl
  after r [] = r
  after r (sample x ∷ es) = after (update r x) es
  after r (timeout ∷ es) = after (backoff r) es

  record IsBounded (r : RttEstimator fl) : Type 0 where
    low : lt r.rto (of_ℕ min_rto_ms) ≡ false
    high : lt (of_ℕ max_rto_ms) r.rto ≡ false

  clamp_bounds :
      (x : F) → (lt (clamp x) (of_ℕ min_rto_ms) ≡ false) × (lt (of_ℕ max_rto_ms) (clamp x) ≡ false)
  unfolding clamp
  clamp_bounds x = ground (
    arith,
    fl.lt-of_ℕ 100 100 (omega arith) (omega arith),
    fl.lt-of_ℕ 4000 100 (omega arith) (omega arith),
    fl.lt-of_ℕ 4000 4000 (omega arith) (omega arith),
  )

  update-IsBounded : (r : RttEstimator fl) (x : F) → IsBounded (update r x)
  unfolding update
  update-IsBounded r x = elim (Bool-cases r.has_rtt) [
    | inl e ↦ rw e (record { low = (clamp_bounds _).0; high = (clamp_bounds _).1 })
    | inr e ↦ rw e (record { low = (clamp_bounds _).0; high = (clamp_bounds _).1 })
  ]

  backoff-IsBounded : (r : RttEstimator fl) → IsBounded r → IsBounded (backoff r)
  unfolding backoff
  backoff-IsBounded r b = record {
    low = ground (
      arith,
      fl.double_ge r.rto 100 (omega arith) b.low,
      fl.lt-of_ℕ 4000 100 (omega arith) (omega arith),
    );
    high = ground (arith, fl.lt-of_ℕ 4000 4000 (omega arith) (omega arith));
  }

  after-IsBounded : (r : RttEstimator fl) (es : List Event) → IsBounded r → IsBounded (after r es)
  unfolding after
  after-IsBounded r [] b = b
  after-IsBounded r (sample x ∷ es) b = after-IsBounded (update r x) es (update-IsBounded r x)
  after-IsBounded r (timeout ∷ es) b = after-IsBounded (backoff r) es (backoff-IsBounded r b)

  new_rtt_estimator-IsBounded : IsBounded new_rtt_estimator
  unfolding new_rtt_estimator
  new_rtt_estimator-IsBounded = record {
    low = fl.lt-of_ℕ 1000 100 (omega arith) (omega arith);
    high = fl.lt-of_ℕ 4000 1000 (omega arith) (omega arith);
  }

  -- After any sequence of samples and timeouts, the retransmission timeout of a new estimator is from
  -- 100 to 4000 milliseconds, unless the samples have made it NaN.
  pub get_rto_bounds :
      (es : List Event)
      → is_nan (after new_rtt_estimator es).rto ≡ false
      → (min_rto_ms ≤ get_rto (after new_rtt_estimator es))
        × (get_rto (after new_rtt_estimator es) ≤ max_rto_ms)
  unfolding get_rto
  get_rto_bounds es number =
      fl.trunc_between _ min_rto_ms max_rto_ms (omega arith) (omega arith) number b.low b.high
    where
      b : IsBounded (after new_rtt_estimator es)
      b = after-IsBounded new_rtt_estimator es new_rtt_estimator-IsBounded
