-- ===== src/Storage/Policy.antt =====
-- Which storage policies are accepted.
use duckdb_lance_conversion.Base.{
  ℕ, ◌<◌, ◌≤◌, ◌≡◌, ◌↔◌, refl, Bool, true, false, ◌||◌, List, [], ◌∷◌, String, All, ltb, ◌==◌,
  if◌then◌else◌, arith, u64_max,
}
use duckdb_lance_conversion.Error.{Result, ok, err, ◌>>◌, bail_if, IsOk, Message}
use duckdb_lance_conversion.Storage.{OpendalConfig, check_durations, validate, storage_message}

module _ {Factor : Type 0} (can_wait : ℕ → Bool)
    (is_finite below_one above_f32 : Factor → Bool) where
  -- A duration that is positive and that the clock can add to now.
  abbrev pub IsDuration : ℕ → Type 0
  IsDuration n = (0 < n) × (can_wait n ≡ true)

  -- An accepted policy.
  pub record IsPolicy (c : OpendalConfig Factor) : Type 0 where
    pub timeout : IsDuration c.timeout_ms
    pub io_timeout : IsDuration c.io_timeout_ms
    pub min_delay : IsDuration c.retry_min_delay_ms
    pub max_delay : IsDuration c.retry_max_delay_ms
    pub delays : c.retry_min_delay_ms ≤ c.retry_max_delay_ms
    pub finite : is_finite c.retry_factor ≡ true
    pub at_least_one : below_one c.retry_factor ≡ false
    pub fits_f32 : above_f32 c.retry_factor ≡ false
    pub times : c.retry_max_times ≤ u64_max

  bail-IsOk :
      {A : Type 0} (b : Bool) (m : Message) (rest : Result A)
      → IsOk (bail_if b m >> rest) ↔ ((b ≡ false) × IsOk rest)
  bail-IsOk true m rest = (λ o. absurd o, λ h. cc (h.0))
  bail-IsOk false m rest = (λ o. (refl, o), λ h. h.1)

  chain-IsOk :
      {A : Type 0} (r : Result (Unit {0})) (rest : Result A)
      → IsOk (r >> rest) ↔ (IsOk r × IsOk rest)
  chain-IsOk (ok a) rest = (λ o. (tt, o), λ h. h.1)
  chain-IsOk (err e) rest = (λ o. absurd o, λ h. absurd h.0)

  check_durations_iff :
      (values : List (String × ℕ))
      → IsOk (check_durations can_wait is_finite below_one above_f32 values)
        ↔ All (λ v. IsDuration v.1) values
  unfolding check_durations
  check_durations_iff [] = (λ o. tt, λ h. tt)
  check_durations_iff ((name, value) ∷ rest) =
      let ih = check_durations_iff rest in
      let later = check_durations can_wait is_finite below_one above_f32 rest in
      let waits =
        bail-IsOk (if can_wait value then false else true) (storage_message name " is too large")
          later in
      let positive = bail-IsOk (value == 0) (storage_message name " must be positive") (
        bail_if (if can_wait value then false else true) (storage_message name " is too large")
        >> later) in
      (
        λ o.
            let (p, o1) = positive.0 o in
            let (w, o2) = waits.0 o1 in ((ground arith, ground arith), ih.0 o2),
        λ h. positive.1 (ground arith, waits.1 (ground arith, ih.1 h.1)),
      )

  -- The last three checks.
  checks :
      (c : OpendalConfig Factor) (low odd many : Bool) (l o m : Message)
      → IsOk (bail_if low l >> (bail_if odd o >> (bail_if many m >> ok c)))
        ↔ ((low ≡ false) × (odd ≡ false) × (many ≡ false))
  checks c true odd many l o m = (λ x. absurd x, λ h. cc (h.0))
  checks c false true many l o m = (λ x. absurd x, λ h. cc (h.1))
  checks c false false true l o m = (λ x. absurd x, λ h. cc (h.2))
  checks c false false false l o m = (λ x. (refl, refl, refl), λ h. tt)

  -- A storage policy is accepted exactly when its four durations are positive and the clock can add them,
  -- its delays are in order, its factor is finite and between 1 and the largest `f32`, and its retries
  -- fit in a machine word.
  pub validate_iff :
      (c : OpendalConfig Factor)
      → IsOk (validate can_wait is_finite below_one above_f32 c) ↔ IsPolicy c
  unfolding validate
  validate_iff c =
      let durations =
        ("timeout_ms", c.timeout_ms)
        ∷ ("io_timeout_ms", c.io_timeout_ms)
        ∷ ("retry_min_delay_ms", c.retry_min_delay_ms)
        ∷ ("retry_max_delay_ms", c.retry_max_delay_ms)
        ∷ [] in
      let timed = check_durations_iff durations in
      let low = ltb c.retry_max_delay_ms c.retry_min_delay_ms in
      let odd =
        (if is_finite c.retry_factor then false else true)
        || (below_one c.retry_factor || above_f32 c.retry_factor) in
      let many = ltb u64_max c.retry_max_times in
      let l = storage_message "retry_max_delay_ms" " must be at least retry_min_delay_ms" in
      let o = storage_message "retry_factor" " must be finite and between 1 and f32::MAX" in
      let m = storage_message "retry_max_times" " is too large" in
      let tail = checks c low odd many l o m in
      let both =
        chain-IsOk (check_durations can_wait is_finite below_one above_f32 durations)
          (bail_if low l >> (bail_if odd o >> (bail_if many m >> ok c))) in
      (
        λ x.
            let (a, b) = both.0 x in
            let d = timed.0 a in
            let t = tail.0 b in
            record {
              timeout = d.0;
              io_timeout = d.1.0;
              min_delay = d.1.1.0;
              max_delay = d.1.1.1.0;
              delays = ground (arith, t.0);
              finite = ground (arith, t.1);
              at_least_one = ground (arith, t.1);
              fits_f32 = ground (arith, t.1);
              times = ground (arith, t.2);
            },
        λ h. both.1 (
          timed.1 (h.timeout, (h.io_timeout, (h.min_delay, (h.max_delay, tt)))),
          tail.1 (
            ground (arith, h.delays),
            ground (arith, h.finite, h.at_least_one, h.fits_f32),
            ground (arith, h.times),
          ),
        ),
      )
