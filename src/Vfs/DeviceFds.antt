-- ===== src/Vfs/DeviceFds.antt =====
-- `open`, `seek`, `read` and `close` of src/fs/vfs.c on a device.
use ras_pi_k.Base.{
  ◌/◌, ℕ, ◌+◌, ◌^◌, ◌<◌, ◌≡◌, ◌≢◌, refl, ap, true, false, some, ◌∷◌, ◌++◌, arith, ◌==◌, ltb, pos,
}
use ras_pi_k.Strings.{CString}
use ras_pi_k.Store.{Ptr, null, Device, Driver, Store, ok, update}
use ras_pi_k.Store.Blocks.{tabulate}
use ras_pi_k.Kernel.{devices, Fd, Kernel, Fat32, finished}
use ras_pi_k.Paths.{slash}
use ras_pi_k.Paths.Split.{IsName}
use ras_pi_k.Vfs.{
  nbmax_fd, o_rdonly, fd_of, open_file, lookup_fd, read, seek, close, call_driver, driver_read,
  fd_size, seek_offset,
}
use ras_pi_k.Vfs.Fds.{IsLowest, open_file-lowest}
use ras_pi_k.Mbr.{Buffer}
use ras_pi_k.Vfs.Devices.{
  Inside, IsSectors, HasDevice, HasDevice-moved, moved, parsed, node_of, getnode-device,
}

-- There is memory, the hardware is fit, and a file descriptor is free.
pub record IsReady {Hw Fat : Type 0} (image : ℕ → Buffer) (blocks : ℕ) (Fit : Hw → Type 0)
    (dir file : CString) (k : Kernel Hw Fat) : Type 0 where
  pub has : HasDevice image blocks Fit dir file k
  pub memory : (i : ℕ) → (k.store.pool i).address ≢ null
  pub fit : Fit k.store.hw
  pub fd : ℕ
  pub lowest : IsLowest k.fd_table fd

-- The file descriptor is open on the device, and those below it are open.
pub record IsOpen {Hw Fat : Type 0} (image : ℕ → Buffer) (blocks : ℕ) (Fit : Hw → Type 0)
    (dir file : CString) (k : Kernel Hw Fat) (fd : ℕ) : Type 0 where
  pub has : HasDevice image blocks Fit dir file k
  pub memory : (i : ℕ) → (k.store.pool i).address ≢ null
  pub fit : Fit k.store.hw
  pub inside : fd < nbmax_fd
  pub below : (j : ℕ) → j < fd → (k.fd_table j).addr ≢ null
  pub type : (k.fd_table fd).type ≡ devices
  pub addr : (k.fd_table fd).addr ≡ has.fs.list has.slot

-- the call of the driver of a device that is there
call_driver-held :
    {Hw A : Type 0} (p : Ptr) (use_it : Device → Driver Hw → Hw → A × Hw) (s : Store Hw)
    (d : Device) (v : Driver Hw)
    → s.device p ≡ some d
    → s.driver d.driver ≡ some v
    → call_driver p use_it s ≡ ok (use_it d v s.hw).0 (record s { hw = (use_it d v s.hw).1 })
unfolding call_driver
call_driver-held p use_it s d v held driven = rw (call_driver, held, driven) refl

module _ {Hw Fat : Type 0} (f : Fat32 Hw Fat) {image : ℕ → Buffer} {blocks : ℕ} {Fit : Hw → Type 0}
    {dir file : CString} (k : Kernel Hw Fat) where
  pub open_file-device :
      IsReady image blocks Fit dir file k
      → IsName dir
      → (fd : ℕ) × (k' : Kernel Hw Fat) × (open_file f (slash ∷ dir ++ slash ∷ file) o_rdonly k
          ≡ finished (pos fd) k')
        × IsOpen image blocks Fit dir file k' fd
        × (k'.fat ≡ k.fat)
  open_file-device r name =
      let found = getnode-device f dir file o_rdonly k r.has name r.memory refl in
      let k₁ = parsed f dir file o_rdonly k in
      let node = node_of f dir file o_rdonly (r.has.fs.list r.has.slot) in
      let table = update k.fd_table r.fd (fd_of node o_rdonly) in
      (
        r.fd,
        record k₁ { fd_table = table },
        open_file-lowest f k (slash ∷ dir ++ slash ∷ file) o_rdonly found r.fd r.lowest,
        record {
          has = HasDevice-moved k₁.store.pool k.store.hw table r.has;
          memory = λ i. r.memory (i + 1 + 1 + 1);
          fit = r.fit;
          inside = r.lowest.inside;
          below = λ j h. let taken = r.lowest.below j h in ground arith;
          type = ground arith;
          addr = ground arith;
        },
        refl,
      )

  module _ (fd : ℕ) (o : IsOpen image blocks Fit dir file k fd) where
    -- what the file descriptor is
    abbrev opened : Fd
    opened = record {
      type = devices;
      mode = (k.fd_table fd).mode;
      addr = o.has.fs.list o.has.slot;
      offset = (k.fd_table fd).offset;
    }

    opened_lem : k.fd_table fd ≡ opened
    opened_lem = rw⁻¹ (o.type, o.addr) refl

    fd_found : lookup_fd (pos fd) k ≡ finished (some (fd, opened)) k
    unfolding lookup_fd
    fd_found =
        let lt = o.inside in
        let inside : ltb fd nbmax_fd ≡ true = ground arith in
        let live = o.has.ne_null in
        let at = o.addr in
        let here : ((k.fd_table fd).addr == null) ≡ false = ground arith in
        rw (inside, here) (ap (λ d. finished (some (fd, d)) k) opened_lem)

    -- the file descriptor at another offset, in another state of the hardware
    abbrev at : ℕ → Hw → Kernel Hw Fat
    at offset hw =
        moved k k.store.pool hw (update k.fd_table fd (record opened { offset = offset }))

    at-IsOpen : (offset : ℕ) (hw : Hw) → Fit hw → IsOpen image blocks Fit dir file (at offset hw) fd
    at-IsOpen offset hw fit = record {
      has = HasDevice-moved k.store.pool hw (at offset hw).fd_table o.has;
      memory = o.memory;
      fit = fit;
      inside = o.inside;
      below = λ j h. let taken = o.below j h in ground arith;
      type = ground arith;
      addr = ground arith;
    }

    pub seek-device :
        (sector : ℕ)
        → sector < 2 ^ 31
        → (k' : Kernel Hw Fat) × (seek f (pos fd) sector 0 k ≡ finished (pos sector) k')
          × IsOpen image blocks Fit dir file k' fd
          × ((k'.fd_table fd).offset ≡ sector)
          × (k'.fat ≡ k.fat)
    unfolding seek fd_size seek_offset
    seek-device sector small =
        let low : ltb sector (2 ^ 31) ≡ true = ground arith in
        (
          at sector k.store.hw,
          rw (fd_found, low) refl,
          at-IsOpen sector k.store.hw o.fit,
          ground arith,
          refl,
        )

    pub read-device :
        (len : ℕ)
        → Inside blocks (k.fd_table fd).offset (len / 512)
        → IsSectors len
        → (k' : Kernel Hw Fat) × (read f (pos fd) len k
            ≡ finished (pos len, tabulate len (image (k.fd_table fd).offset)) k')
          × IsOpen image blocks Fit dir file k' fd
          × (k'.fat ≡ k.fat)
    unfolding read
    read-device len small whole =
        let (to, hw, e, fit) =
          o.has.serves (k.fd_table fd).offset len k.store.hw o.fit small whole in
        let call =
          call_driver-held (o.has.fs.list o.has.slot) (driver_read (k.fd_table fd).offset len)
            k.store o.has.first.device o.has.driver o.has.first.held o.has.driven in
        (at to hw, rw (fd_found, call, e) refl, at-IsOpen to hw fit, refl)

    pub close-device :
        (k' : Kernel Hw Fat) × (close (pos fd) k ≡ finished (pos fd) k')
        × IsReady image blocks Fit dir file k'
        × (k'.fat ≡ k.fat)
    unfolding close
    close-device =
        let table = update k.fd_table fd (record opened { addr = null }) in
        (
          record k { fd_table = table },
          rw fd_found refl,
          record {
            has = HasDevice-moved k.store.pool k.store.hw table o.has;
            memory = o.memory;
            fit = o.fit;
            fd = fd;
            lowest = record {
              inside = o.inside;
              free = ground arith;
              below = λ j h. let taken = o.below j h in ground arith;
            };
          },
          refl,
        )
