-- ===== src/Drivers/Sdcard.antt =====
-- What `init_sdcard_driver` of src/driver/sdcard.c leaves for the FAT32 volume of the card.
use ras_pi_k.Base.{
  ℕ, ◌+◌, ◌/◌, ◌≡◌, ◌≢◌, refl, ◌∷◌, ◌++◌, none, some, Option, false, arith, ◌==◌, pos, is_neg,
}
use ras_pi_k.Strings.{CString, text}
use ras_pi_k.Store.{Ptr, null, Answer, Driver, update}
use ras_pi_k.Devfs.{new_device}
use ras_pi_k.Store.Blocks.{tabulate}
use ras_pi_k.Kernel.{Kernel, finished}
use ras_pi_k.Mbr.{Buffer}
use ras_pi_k.Paths.{slash}
use ras_pi_k.Paths.Split.{IsName}
use ras_pi_k.Vfs.Fds.{IsLowest}
use ras_pi_k.Vfs.Devices.{Inside, IsSectors, Serving, HasDevice-moved}
use ras_pi_k.Vfs.DeviceFds.{IsReady}
use ras_pi_k.Mounts.Insmod.{HasRoom, made, with_device, insmod-with_device, with_device-HasDevice}
use ras_pi_k.Drivers.{
  Emmc, Log, sdcard_driver, dev, sdcard, emmc_base, sdcard_ok, start_driver, init_sdcard_driver,
}

-- room stays room while memory and drivers come
abbrev HasRoom-kept :
    {Hw Fat : Type 0} {dir file : CString} {k : Kernel Hw Fat} (pool : ℕ → Answer)
    (driver : Ptr → Option (Driver Hw))
    → HasRoom dir file k
    → HasRoom dir file (record k { store = record k.store { pool = pool; driver = driver } })
HasRoom-kept pool driver room = record {
  point = room.point;
  mounted = room.mounted;
  fs = room.fs;
  stored = room.stored;
  room = room.room;
  others = room.others;
}

module _ {Hw Fat : Type 0} (log : Log Hw) (driver : Driver Hw) (dir file : CString) (addr : ℕ)
    (k : Kernel Hw Fat) (name : IsName dir) (room : HasRoom dir file k)
    (memory : (i : ℕ) → (k.store.pool i).address ≢ null) where
  -- the kernel with the driver
  abbrev with_driver : Kernel Hw Fat
  with_driver = record k {
    store = record k.store {
      pool = λ i. k.store.pool (i + 1);
      driver = update k.store.driver (k.store.pool 0).address (some driver);
    };
  }

  abbrev room_left : HasRoom dir file with_driver
  room_left = HasRoom-kept with_driver.store.pool with_driver.store.driver room

  alive : with_driver.store.driver (k.store.pool 0).address ≡ some driver
  alive = ground arith

  -- the kernel with the driver, its device and a line in the log
  abbrev started_up : CString → Kernel Hw Fat
  started_up ok =
      let w =
        with_device dir file addr (k.store.pool 0).address driver with_driver name room_left
          (λ i. memory (i + 1)) alive in
      record w { store = record w.store { hw = log.klog_ok ok w.store.hw } }

  start_driver-started_up :
      (ko ok : CString)
      → is_neg (driver.init (new_device (text file) addr (k.store.pool 0).address) k.store.hw).0
        ≡ false
      → start_driver log driver (slash ∷ dir ++ slash ∷ file) addr ko ok k
        ≡ finished
            (driver.init (new_device (text file) addr (k.store.pool 0).address) k.store.hw).0
            (started_up ok)
  unfolding start_driver
  start_driver-started_up ko ok started =
      let live = memory 0 in
      let got : ((k.store.pool 0).address == null) ≡ false = ground arith in
      let placed =
        insmod-with_device dir file addr (k.store.pool 0).address driver with_driver name room_left
          (λ i. memory (i + 1)) alive started in
      rw (got, placed, started) refl

-- A card that is started holds an image: reads of whole sectors of 512 bytes among its blocks
-- return its bytes, as `emmc_read` does for no other length. The log does not disturb the card.
pub record IsCard {Hw : Type 0} (emmc : Emmc Hw) (log : Log Hw) (image : ℕ → Buffer) (blocks : ℕ)
    (Fit : Hw → Type 0) : Type 0 where
  pub reads :
      (len block : ℕ) (hw : Hw)
      → Fit hw
      → Inside blocks block (len / 512)
      → IsSectors len
      → (hw' : Hw) × (emmc.emmc_read len block hw ≡ (pos len, tabulate len (image block), hw'))
        × Fit hw'
  pub logs : (msg : CString) (hw : Hw) → Fit hw → Fit (log.klog_ok msg hw)

module _ {Hw Fat : Type 0} (emmc : Emmc Hw) (log : Log Hw) (image : ℕ → Buffer) (blocks : ℕ)
    (Fit : Hw → Type 0) (card : IsCard emmc log image blocks Fit) (k : Kernel Hw Fat) where
  sdcard_driver-Serving : (driven : _) → Serving image blocks Fit (sdcard_driver emmc) driven
  unfolding sdcard_driver
  sdcard_driver-Serving driven offset len hw fit small whole =
      let (hw', e, fit') = card.reads len offset hw fit small whole in
      (offset, hw', rw e refl, fit')

  dev-IsName : IsName dev
  unfolding IsName
  dev-IsName =
      (omega arith, omega arith, (omega arith, omega arith, (omega arith, omega arith, tt)))

  -- Where `/dev` has room and no `sdcard` yet, there is memory, no device stands at the address of
  -- the new one, the card starts and then serves reads of whole sectors of 512 bytes among its
  -- blocks, which the log does not disturb, and a file descriptor is free, `init_sdcard_driver`
  -- returns what the start of the card does, and `/dev/sdcard` is then ready to be opened and
  -- serves the bytes of the card by sectors.
  pub init_sdcard_driver-IsReady :
      {fd : ℕ}
      → HasRoom dev sdcard k
      → ((i : ℕ) → (k.store.pool i).address ≢ null)
      → k.store.device (k.store.pool 4).address ≡ none
      → is_neg (emmc.emmc_card_init k.store.hw).0 ≡ false
      → Fit (emmc.emmc_card_init k.store.hw).1
      → IsLowest k.fd_table fd
      → (k' : Kernel Hw Fat) × (init_sdcard_driver log emmc k
          ≡ finished (emmc.emmc_card_init k.store.hw).0 k')
        × IsReady image blocks Fit dev sdcard k'
        × (k'.fat ≡ k.fat)
  unfolding init_sdcard_driver sdcard_driver
  init_sdcard_driver-IsReady {fd = fd} room memory fresh started fit lowest =
      let driver = sdcard_driver emmc in
      let a = (k.store.pool 0).address in
      let w = with_driver log driver dev sdcard emmc_base k dev-IsName room memory in
      let left = room_left log driver dev sdcard emmc_base k dev-IsName room memory in
      let there = alive log driver dev sdcard emmc_base k dev-IsName room memory in
      let has =
        with_device-HasDevice dev sdcard emmc_base a driver w dev-IsName left (λ i. memory (i + 1))
          there fresh
          (sdcard_driver-Serving
            (made dev sdcard emmc_base a driver w dev-IsName left (λ i. memory (i + 1)) there)) in
      let end = started_up log driver dev sdcard emmc_base k dev-IsName room memory sdcard_ok in
      (
        end,
        start_driver-started_up log driver dev sdcard emmc_base k dev-IsName room memory _ sdcard_ok
            started,
        record {
          has = HasDevice-moved end.store.pool end.store.hw end.fd_table has;
          memory = λ i. memory (i + 1 + 1 + 1 + 1 + 1);
          fit = card.logs sdcard_ok (emmc.emmc_card_init k.store.hw).1 fit;
          fd = fd;
          lowest = lowest;
        },
        refl,
      )
