-- ===== src/Mmio/Timers.antt =====
-- The system timer: `gettime` and `usleep` of src/timers.c. Its low half counts the microseconds in
-- 32 bits and is read again and again.
use ras_pi_k.Base.{
  ℕ, zero, suc, ◌+◌, ◌-◌, ◌*◌, ◌^◌, ◌<◌, ◌≤◌, ◌≡◌, refl, some, arith, ltb, if◌then◌else◌,
  Bool-cases, inl, inr,
}
use ras_pi_k.Vffs.{u32}
use ras_pi_k.Mmio.{Bus, W, give, ◌>>=◌, spent, get}

-- `timersys->low`
abbrev pub timersys_low : ℕ
timersys_low = 0x20003004

module _ {Hw : Type 0} (bus : Bus Hw) where
  pub gettime : W Hw ℕ
  gettime = get bus timersys_low

  -- `while (timersys->low - t < musec);` with `n` rounds left
  pub wait_until : ℕ → ℕ → ℕ → W Hw (Unit {0})
  wait_until zero t musec = spent
  wait_until (suc n) t musec = do
    low ← get bus timersys_low
    if ltb (u32 (low + 2 ^ 32 - t)) musec then wait_until n t musec else give tt

  unfoldable pub usleep : ℕ → ℕ → W Hw (Unit {0})
  unfolding wait_until
  usleep n musec = do t ← get bus timersys_low; wait_until n t musec

-- The readings to come are those of the time `time` at the readings from `i` on, in 32 bits.
pub record IsClock {Hw : Type 0} (bus : Bus Hw) (time : ℕ → ℕ) (At : Hw → ℕ → Type 0) : Type 0 where
  pub ticks :
      (hw : Hw) (i : ℕ)
      → At hw i
      → (hw' : Hw) × (bus.read_mmio timersys_low hw ≡ (u32 (time i), hw')) × At hw' (i + 1)
  pub forward : (i : ℕ) → time i ≤ time (i + 1)

module _ {Hw : Type 0} (bus : Bus Hw) (time : ℕ → ℕ) {At : Hw → ℕ → Type 0}
    (clock : IsClock bus time At) (musec : ℕ) where
  forward-by : (d i : ℕ) → time i ≤ time (i + d)
  forward-by zero i = let e : i + 0 ≡ i = omega arith in rw e (omega arith)
  forward-by (suc d) i =
      let e : i + suc d ≡ i + d + 1 = omega arith in
      rw e (omega (arith, forward-by d i, clock.forward (i + d)))

  forward-le : (i last : ℕ) → i ≤ last → time i ≤ time last
  forward-le i last le =
      let e : i + (last - i) ≡ last = omega arith in rw e at (forward-by (last - i) i)

  wait_until-passed :
      (n i start : ℕ) (hw : Hw)
      → At hw i
      → start ≤ time i
      → (last : ℕ) → i ≤ last
      → last < i + n
      → musec ≤ time last - start
      → time last - start < 2 ^ 32
      → (hw' : Hw) × (j : ℕ) × (wait_until bus n (u32 start) musec hw ≡ some (tt, hw'))
        × At hw' (j + 1)
        × (j ≤ last)
        × (start + musec ≤ time j)
  unfolding wait_until
  wait_until-passed zero i start hw at begun last lo hi late fits = absurd (omega arith)
  wait_until-passed (suc n) i start hw at begun last lo hi late fits =
      let (hw₁, e, at₁) = clock.ticks hw i at in
      let up_to = forward-le i last lo in
      let low : u32 (u32 (time i) + 2 ^ 32 - u32 start) ≡ time i - start = omega arith in
      elim (Bool-cases (ltb (u32 (u32 (time i) + 2 ^ 32 - u32 start)) musec)) [
        | inl early ↦
            let passed : time i - start < musec = ground arith in
            let later : i + 1 ≤ last = not_last i last lo start passed late in
            let next = clock.forward i in
            let (hw', j, e', at', le, done) =
              wait_until-passed n (i + 1) start hw₁ at₁ (omega arith) last later (omega arith) late
                fits in
            (hw', j, rw (e, early) e', at', le, done)
        | inr done ↦ (hw₁, i, rw (e, done) refl, at₁, lo, ground arith)
      ]
    where
      not_last :
          (i last : ℕ)
          → i ≤ last
          → (start : ℕ) → time i - start < musec
          → musec ≤ time last - start
          → i + 1 ≤ last
      not_last i last lo start early late = ground arith

  -- a reading that shows that the time has passed, before the rounds are over and before the 32
  -- bits of the clock have gone round
  usleep-passed :
      (n i last : ℕ) (hw : Hw)
      → At hw i
      → i < last
      → last < i + 1 + n
      → time i + musec ≤ time last
      → time last - time i < 2 ^ 32
      → (hw' : Hw) × (j : ℕ) × (usleep bus n musec hw ≡ some (tt, hw'))
        × At hw' (j + 1)
        × (j ≤ last)
        × (time i + musec ≤ time j)
  unfolding usleep
  usleep-passed n i last hw at lo hi late fits =
      let (hw₁, e, at₁) = clock.ticks hw i at in
      let (hw', j, e', at', le, done) =
        wait_until-passed n (i + 1) (time i) hw₁ at₁ (clock.forward i) last (omega arith)
          (omega arith) (omega arith) fits in
      (hw', j, rw e e', at', le, done)

  module _ (rate step : ℕ) (moves : (i : ℕ) → time i < time (i + rate))
      (bounded : (i : ℕ) → time (i + 1) ≤ time i + step) where
    time-rounds : (d i : ℕ) → time i + d ≤ time (i + d * rate)
    time-rounds zero i = let e : i + 0 * rate ≡ i = omega arith in rw e (omega arith)
    time-rounds (suc d) i =
        let e : i + suc d * rate ≡ i + rate + d * rate = omega arith in
        rw e (omega (arith, time-rounds d (i + rate), moves i))

    -- the first reading that shows a time
    first_reading :
        (d i target : ℕ)
        → time i < target
        → target ≤ time (i + d)
        → (last : ℕ) × (i < last)
          × (last ≤ i + d)
          × (target ≤ time last)
          × (time last < target + step)
    first_reading zero i target early late =
        let e : i + 0 ≡ i = omega arith in absurd (let late' = rw e at late in omega arith)
    first_reading (suc d) i target early late = elim (Bool-cases (ltb (time (i + 1)) target)) [
      | inl still ↦
          let e : i + suc d ≡ i + 1 + d = omega arith in
          let (last, lo, hi, reached, near) =
            first_reading d (i + 1) target (ground arith) (rw e at late) in
          (last, omega arith, omega arith, reached, near)
      | inr now ↦
          let near = bounded i in (i + 1, omega arith, omega arith, ground arith, omega arith)
    ]

    -- the reading at which the loop of `usleep` ends at the latest
    last_reading :
        (m i : ℕ)
        → (last : ℕ) × (i < last)
          × (last ≤ i + 1 + m * rate)
          × (time i + m ≤ time last)
          × (time last ≤ time i + m + step)
    last_reading zero i =
        let up = clock.forward i in
        let near = bounded i in (i + 1, omega arith, omega arith, omega arith, omega arith)
    last_reading (suc m) i =
        let (last, lo, hi, reached, near) =
          first_reading (suc m * rate) i (time i + suc m) (omega arith) (time-rounds (suc m) i) in
        (last, lo, omega arith, reached, omega arith)

    -- `usleep`, on a clock whose readings never go back, go forward within every `rate` readings
    -- and go forward by at most `step` from one to the next, where `musec + step` is below `2 ^
    -- 32`, comes to an end within `musec * rate + 1` rounds. At its last reading at least `musec`
    -- microseconds have passed since the first, and at most `step` more, though the 32 bits of the
    -- clock may have started again at 0 in between.
    pub usleep-in_time :
        (n i : ℕ) (hw : Hw)
        → At hw i
        → musec * rate < n
        → musec + step < 2 ^ 32
        → (hw' : Hw) × (j : ℕ) × (usleep bus n musec hw ≡ some (tt, hw'))
          × At hw' (j + 1)
          × (time i + musec ≤ time j)
          × (time j ≤ time i + musec + step)
    usleep-in_time n i hw at enough fits =
        let (last, lo, hi, reached, near) = last_reading musec i in
        let (hw', j, e, at', le, done) =
          usleep-passed n i last hw at lo (omega arith) reached (omega arith) in
        (hw', j, e, at', done, omega (arith, forward-le j last le))
