-- ===== src/Devfs/Stale.antt =====
-- `remove_devfs` of src/fs/devfs.c after a device was removed.
use ras_pi_k.Base.{
  ℕ, zero, suc, ◌+◌, ◌-◌, ◌<◌, ◌≤◌, ◌≡◌, ◌≢◌, ◌⊎◌, refl, sym, ap, ◌∙◌, Option, false, none, some,
  arith, ◌==◌, inl, inr, pos,
}
use native.Mathlib.Decide.{ℕ_discrete}
use ras_pi_k.Strings.{CString}
use ras_pi_k.Store.{Ptr, null, Devfs, Driver, Store, Run, ok, fault, update}
use ras_pi_k.Devfs.{nbmax_device, free_slot, free_devices, remove_device, remove_devfs}
use ras_pi_k.Devfs.Slots.{IsFirst, remove_device-shift}

Run-cases : {Hw : Type 0} (r : Run Hw (Unit {0})) → (r ≡ fault) ⊎ ((s' : Store Hw) × (r ≡ ok tt s'))
Run-cases (ok a s') = inr (s', refl)
Run-cases fault = inl refl

update_self {ℓ} : {A : Type ℓ} (f : ℕ → Option A) (p : Ptr) (a : A) → update f p (some a) p ≡ some a
update_self f p a = ground arith

update-none {ℓ} : {A : Type ℓ} (f : ℕ → Option A) (p : Ptr) → update f p none p ≡ none
update-none f p = ground arith

module _ {Hw : Type 0} where
  -- Freeing a slot brings back no device, and its own is gone.
  free_slot-gone :
      (s s' : Store Hw) (p q : Ptr)
      → free_slot p s ≡ ok tt s'
      → (s.device q ≡ none) ⊎ ((q ≡ p) × (p ≢ null))
      → s'.device q ≡ none
  unfolding free_slot
  free_slot-gone s s' p q e gone = ground arith

  free_slot-fault : (s : Store Hw) (p : Ptr) → p ≢ null → s.device p ≡ none → free_slot p s ≡ fault
  unfolding free_slot
  free_slot-fault s p ne gone = let there : (p == null) ≡ false = ground arith in rw (there, gone)

  -- A pointer to no device among the slots is a fault.
  dangling-fault :
      (n i j : ℕ) (list : ℕ → Ptr) (s : Store Hw)
      → i ≤ j
      → j < i + n
      → list j ≢ null
      → s.device (list j) ≡ none
      → free_devices n i list s ≡ fault
  unfolding free_devices
  dangling-fault zero i j list s lo hi ne gone = absurd (omega arith)
  dangling-fault (suc n) i j list s lo hi ne gone = elim (ℕ_discrete i j) [
    | yes e ↦
        let here : free_slot (list i) s ≡ fault = rw e (free_slot-fault s (list j) ne gone) in
        rw here
    | no later ↦ elim (Run-cases (free_slot (list i) s)) [
      | inl stop ↦ rw stop
      | inr (s', e) ↦ rw e (
          dangling-fault n (i + 1) j list s' (omega arith) (omega arith) ne
            (free_slot-gone s s' (list i) (list j) e (inl gone)))
    ]
  ]

  -- So are two slots with one device.
  double-fault :
      (n i j k : ℕ) (list : ℕ → Ptr) (s : Store Hw)
      → i ≤ j
      → j < k
      → k < i + n
      → list j ≢ null
      → list j ≡ list k
      → free_devices n i list s ≡ fault
  unfolding free_devices
  double-fault zero i j k list s lo lt hi ne same = absurd (omega arith)
  double-fault (suc n) i j k list s lo lt hi ne same = elim (Run-cases (free_slot (list i) s)) [
    | inl stop ↦ rw stop
    | inr (s', e) ↦ rw e (elim (ℕ_discrete i j) [
      | yes at ↦
          let here : list k ≡ list i = sym same ∙ ap list (sym at) in
          let there : list i ≢ null = rw at ne in
          dangling-fault n (i + 1) k list s' (omega arith) (omega arith) (rw here there)
            (free_slot-gone s s' (list i) (list k) e (inr (here, there)))
      | no later ↦ double-fault n (i + 1) j k list s' (omega arith) lt (omega arith) ne same
    ])
  ]

  -- The array that `remove_device` leaves, with the device of index `k` gone.
  stale-fault :
      (fs fs' : Devfs) (s : Store Hw) (k : ℕ)
      → k < fs.nbdevices
      → fs'.nbdevices + 1 ≡ fs.nbdevices
      → ((j : ℕ) → k ≤ j → j < fs'.nbdevices → fs'.list j ≡ fs.list (j + 1))
      → fs'.list fs'.nbdevices ≡ fs.list fs'.nbdevices
      → ((i : ℕ) → i < fs.nbdevices → fs.list i ≢ null)
      → fs.nbdevices ≤ nbmax_device
      → s.device (fs.list k) ≡ none
      → free_devices nbmax_device 0 fs'.list s ≡ fault
  stale-fault fs fs' s k inside count after stale live small gone =
      let m = fs'.nbdevices in
      elim (ℕ_discrete k m) [
        | yes last ↦
            let held : fs'.list m ≡ fs.list k = stale ∙ ap fs.list (sym last) in
            dangling-fault nbmax_device 0 m fs'.list s (omega arith) (omega arith)
              (rw held (live k inside)) (rw held gone)
        | no other ↦
            let next : m - 1 + 1 ≡ m = omega arith in
            let moved : fs'.list (m - 1) ≡ fs.list m =
              after (m - 1) (omega arith) (omega arith) ∙ ap fs.list next in
            double-fault nbmax_device 0 (m - 1) m fs'.list s (omega arith) (omega arith)
              (omega arith) (rw moved (live m (omega arith))) (moved ∙ sym stale)
      ]

  remove_devfs-fault :
      (v : Ptr) (s : Store Hw) (fs : Devfs)
      → s.devfs v ≡ some fs
      → free_devices nbmax_device 0 fs.list s ≡ fault
      → remove_devfs v s ≡ fault
  unfolding remove_devfs
  remove_devfs-fault v s fs stored e = rw (stored, e)

  -- Once a device was removed, `remove_devfs` of the file system does not end well: the slot behind
  -- the last device still has its address, so that it is freed twice, or after `remove_device` has
  -- freed it.
  pub remove_device-remove_devfs :
      (v : Ptr) (s : Store Hw) (fs : Devfs) (name : CString) (k : ℕ) (driver : Driver Hw)
      → s.devfs v ≡ some fs
      → fs.nbdevices ≤ nbmax_device
      → ((i : ℕ) → i < fs.nbdevices → fs.list i ≢ null)
      → (f : IsFirst s fs.list fs.nbdevices name k) → s.driver f.device.driver ≡ some driver
      → (s' : Store Hw) × (remove_device v name s ≡ ok (pos 0) s') × (remove_devfs v s' ≡ fault)
  remove_device-remove_devfs v s fs name k driver stored small live f alive =
      let (fs', e, count, before, after, stale) = remove_device-shift v stored name f alive in
      (
        _,
        e,
        remove_devfs-fault v _ fs' (update_self s.devfs v fs') (
            stale-fault fs fs' _ k f.inside count after stale live small
              (update-none s.device (fs.list k))),
      )
