-- ===== src/Mmio/Mailbox.antt =====
-- The mailbox to the graphics processor: `write_mailbox` and `read_mailbox` of src/mailbox.c.
use ras_pi_k.Base.{
  ℕ, zero, suc, ◌+◌, ◌-◌, ◌^◌, ◌<◌, ◌≤◌, ◌≡◌, ◌≢◌, refl, true, false, not, Option, none, some, List,
  [], ◌∷◌, arith, ◌==◌, ltb, if◌then◌else◌, bit_and, bit_or, length, Bool-cases, inl, inr,
}
use ras_pi_k.Mmio.{Bus, W, give, ◌>>=◌, ◌>>◌, spent, get, put, sync, wait_clear}

abbrev pub mailbox_base : ℕ
mailbox_base = 0x2000b880

abbrev pub mailbox_write : ℕ
mailbox_write = 0x20

abbrev pub mailbox_state : ℕ
mailbox_state = 0x18

abbrev pub mailbox_full : ℕ
mailbox_full = 0x80000000

abbrev pub mailbox_empty : ℕ
mailbox_empty = 0x40000000

abbrev pub mailbox_timeout : ℕ
mailbox_timeout = 2 ^ 20

abbrev pub error32 : ℕ
error32 = 0xffffffff

abbrev pub datamask32 : ℕ
datamask32 = 0xfffffff0

module _ {Hw : Type 0} (bus : Bus Hw) where
  -- `n` is the number of rounds that the wait is given
  pub write_mailbox : ℕ → ℕ → ℕ → W Hw (Unit {0})
  unfolding wait_clear
  write_mailbox n chan message = do
    wait_clear bus n (mailbox_base + mailbox_state) mailbox_full
    sync bus
    put bus (mailbox_base + mailbox_write) (bit_or chan (bit_and message datamask32))
    sync bus

  -- The inner loop, where `left` is `MAILBOX_TIMEOUT - timeout`: what is left of it when there is a
  -- word, or none where the time is up.
  pub poll : ℕ → W Hw (Option ℕ)
  poll zero = do
    state ← get bus (mailbox_base + mailbox_state)
    give (if not (bit_and state mailbox_empty == 0) then none else some 0)
  poll (suc left) = do
    state ← get bus (mailbox_base + mailbox_state)
    if not (bit_and state mailbox_empty == 0) then poll left else give (some (suc left))

  -- the outer loop, with `n` rounds left
  pub read_words : ℕ → ℕ → ℕ → W Hw ℕ
  unfolding poll
  read_words zero chan left = spent
  read_words (suc n) chan left = do
    polled ← poll left
    elim polled [
      | none ↦ give error32
      | some rest ↦ do
        sync bus
        word ← get bus mailbox_base
        sync bus
        if bit_and word 0xf == chan then give (bit_and word datamask32) else read_words n chan rest
    ]

  pub read_mailbox : ℕ → ℕ → W Hw ℕ
  unfolding read_words
  read_mailbox n chan = read_words n chan mailbox_timeout

-- The words that come, each after a number of reads that find the mailbox empty; behind the last
-- one it stays empty.
pub record IsMailbox {Hw : Type 0} (bus : Bus Hw) (Mail : Hw → List (ℕ × ℕ) → Type 0) : Type 0 where
  pub stays :
      (hw : Hw)
      → Mail hw []
      → (state : ℕ) × (hw' : Hw) × (bus.read_mmio (mailbox_base + mailbox_state) hw ≡ (state, hw'))
        × (bit_and state mailbox_empty ≢ 0)
        × Mail hw' []
  pub waits :
      (hw : Hw) (k word : ℕ) (ms : List (ℕ × ℕ))
      → Mail hw ((suc k, word) ∷ ms)
      → (state : ℕ) × (hw' : Hw) × (bus.read_mmio (mailbox_base + mailbox_state) hw ≡ (state, hw'))
        × (bit_and state mailbox_empty ≢ 0)
        × Mail hw' ((k, word) ∷ ms)
  pub ready :
      (hw : Hw) (word : ℕ) (ms : List (ℕ × ℕ))
      → Mail hw ((0, word) ∷ ms)
      → (state : ℕ) × (hw' : Hw) × (bus.read_mmio (mailbox_base + mailbox_state) hw ≡ (state, hw'))
        × (bit_and state mailbox_empty ≡ 0)
        × Mail hw' ((0, word) ∷ ms)
  pub takes :
      (hw : Hw) (word : ℕ) (ms : List (ℕ × ℕ))
      → Mail hw ((0, word) ∷ ms)
      → (hw' : Hw) × (bus.read_mmio mailbox_base (bus.sync_mem hw) ≡ (word, hw'))
        × Mail (bus.sync_mem hw') ms

-- the answer that a channel gets from the words to come, with `left` reads of the empty mailbox
unfoldable pub answer : ℕ → ℕ → List (ℕ × ℕ) → ℕ
answer chan left [] = error32
answer chan left ((k, word) ∷ ms) =
    let rest = answer chan (left - k) ms in
    if ltb left k
    then error32
    else if bit_and word 0xf == chan
    then bit_and word datamask32
    else rest

module _ {Hw : Type 0} (bus : Bus Hw) {Mail : Hw → List (ℕ × ℕ) → Type 0}
    (mailbox : IsMailbox bus Mail) where
  poll-stays :
      (left : ℕ) (hw : Hw) → Mail hw [] → (hw' : Hw) × (poll bus left hw ≡ some (none, hw'))
  unfolding poll
  poll-stays zero hw mail =
      let (state, hw', e, on, _) = mailbox.stays hw mail in
      let empty : not (bit_and state mailbox_empty == 0) ≡ true = ground arith in
      (hw', rw (e, empty) refl)
  poll-stays (suc left) hw mail =
      let (state, hw₁, e, on, mail₁) = mailbox.stays hw mail in
      let empty : not (bit_and state mailbox_empty == 0) ≡ true = ground arith in
      let (hw', e') = poll-stays left hw₁ mail₁ in (hw', rw (e, empty) e')

  poll-late :
      (left k : ℕ) (hw : Hw) (word : ℕ) (ms : List (ℕ × ℕ))
      → Mail hw ((k, word) ∷ ms)
      → left < k
      → (hw' : Hw) × (poll bus left hw ≡ some (none, hw'))
  unfolding poll
  poll-late left zero hw word ms mail late = absurd (omega arith)
  poll-late zero (suc k) hw word ms mail late =
      let (state, hw', e, on, _) = mailbox.waits hw k word ms mail in
      let empty : not (bit_and state mailbox_empty == 0) ≡ true = ground arith in
      (hw', rw (e, empty) refl)
  poll-late (suc left) (suc k) hw word ms mail late =
      let (state, hw₁, e, on, mail₁) = mailbox.waits hw k word ms mail in
      let empty : not (bit_and state mailbox_empty == 0) ≡ true = ground arith in
      let (hw', e') = poll-late left k hw₁ word ms mail₁ (omega arith) in (hw', rw (e, empty) e')

  poll-in_time :
      (left k : ℕ) (hw : Hw) (word : ℕ) (ms : List (ℕ × ℕ))
      → Mail hw ((k, word) ∷ ms)
      → k ≤ left
      → (hw' : Hw) × (poll bus left hw ≡ some (some (left - k), hw')) × Mail hw' ((0, word) ∷ ms)
  unfolding poll
  poll-in_time zero zero hw word ms mail le =
      let (state, hw', e, off, mail') = mailbox.ready hw word ms mail in
      let full : not (bit_and state mailbox_empty == 0) ≡ false = ground arith in
      (hw', rw (e, full) refl, mail')
  poll-in_time (suc left) zero hw word ms mail le =
      let (state, hw', e, off, mail') = mailbox.ready hw word ms mail in
      let full : not (bit_and state mailbox_empty == 0) ≡ false = ground arith in
      let same : suc left - 0 ≡ suc left = omega arith in (hw', rw (e, full, same) refl, mail')
  poll-in_time zero (suc k) hw word ms mail le = absurd (omega arith)
  poll-in_time (suc left) (suc k) hw word ms mail le =
      let (state, hw₁, e, on, mail₁) = mailbox.waits hw k word ms mail in
      let empty : not (bit_and state mailbox_empty == 0) ≡ true = ground arith in
      let (hw', e', mail') = poll-in_time left k hw₁ word ms mail₁ (omega arith) in
      let same : suc left - suc k ≡ left - k = omega arith in (hw', rw (e, empty, same) e', mail')

  read_words-answer :
      (n left chan : ℕ) (hw : Hw) (ms : List (ℕ × ℕ))
      → Mail hw ms
      → length ms < n
      → (hw' : Hw) × (read_words bus n chan left hw ≡ some (answer chan left ms, hw'))
  unfolding read_words answer
  read_words-answer zero left chan hw ms mail h = absurd (omega arith)
  read_words-answer (suc n) left chan hw [] mail h =
      let (hw', e) = poll-stays left hw mail in (hw', rw e refl)
  read_words-answer (suc n) left chan hw ((k, word) ∷ ms) mail h = elim (Bool-cases (ltb left k)) [
    | inl late ↦
        let (hw', e) = poll-late left k hw word ms mail (ground arith) in (hw', rw (late, e) refl)
    | inr early ↦
        let (hw₁, e₁, mail₁) = poll-in_time left k hw word ms mail (ground arith) in
        let (hw₂, e₂, mail₂) = mailbox.takes hw₁ word ms mail₁ in
        elim (Bool-cases (bit_and word 0xf == chan)) [
          | inl ours ↦ (bus.sync_mem hw₂, rw (early, ours, e₁, e₂, ours) refl)
          | inr other ↦
              let (hw', e) =
                read_words-answer n (left - k) chan (bus.sync_mem hw₂) ms mail₂ (omega arith) in
              (hw', rw (early, other, e₁, e₂, other) e)
        ]
  ]

  -- Where the words to come are finitely many, `read_mailbox` comes to an end, in a round for each
  -- of them and one more: it returns the first word to come for the channel, without the channel's
  -- bits, and passes the words for other channels; it returns `ERROR32` if the mailbox is found
  -- empty more than `MAILBOX_TIMEOUT` times before.
  pub read_mailbox-answer :
      (n chan : ℕ) (hw : Hw) (ms : List (ℕ × ℕ))
      → Mail hw ms
      → length ms < n
      → (hw' : Hw) × (read_mailbox bus n chan hw ≡ some (answer chan mailbox_timeout ms, hw'))
  unfolding read_mailbox
  read_mailbox-answer n chan hw ms mail h = read_words-answer n mailbox_timeout chan hw ms mail h
