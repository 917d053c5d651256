-- ===== src/Drivers.antt =====
-- The drivers of the SD card and of the console: src/driver/sdcard.c, src/driver/console.c, and the
-- start of a driver, which src/driver/uart.c has too. The functions of import/src/emmc.c, which
-- talk to the card, stand in the record `Emmc`, and those of src/klog.c in the record `Log`, over
-- the state of the hardware.
pub mod Sdcard
mod Tests
use ras_pi_k.Base.{ℕ, ◌/◌, List, [], ◌∷◌, ◌++◌, ℤ, pos, failed, is_neg, ◌==◌, if◌then◌else◌}
use ras_pi_k.Strings.{CString}
use ras_pi_k.Store.{Ptr, null, Device, Driver, kmalloc, store_driver}
use ras_pi_k.Devfs.{init_noop, read_noop, ioctl_noop}
use ras_pi_k.Kernel.{Kernel, K, finished, return, ◌>>=◌, ◌>>◌, lift}
use ras_pi_k.Klog.{white}
use ras_pi_k.Paths.{slash}
use ras_pi_k.Mounts.{insmod}

abbrev pub usec_per_sec : ℕ
usec_per_sec = 1000000

abbrev pub emmc_base : ℕ
emmc_base = 0x20300000

abbrev pub base_uart : ℕ
base_uart = 0x20201000

-- The functions of import/include/emmc.h that the driver calls, for the card at `bd`. A read of a
-- number of bytes at a block returns its result and the bytes.
pub record Emmc (Hw : Type 0) : Type 0 where
  pub emmc_card_init : Hw → ℤ × Hw
  pub emmc_read : ℕ → ℕ → Hw → ℤ × List ℕ × Hw
  pub emmc_write : List ℕ → ℕ → Hw → ℤ × Hw
  pub emmc_issue_command : ℤ → ℤ → ℕ → Hw → ℤ × Hw

pub record Log (Hw : Type 0) : Type 0 where
  pub klog_write : List ℕ → ℕ → Hw → ℤ × Hw
  pub klog_ok : CString → Hw → Hw
  pub klog_ko : CString → Hw → Hw

-- the driver of `init_sdcard_driver`: the offset is the number of a block, and stays as it is
unfoldable pub sdcard_driver : {Hw : Type 0} → Emmc Hw → Driver Hw
sdcard_driver emmc = record {
  init = λ dev hw. emmc.emmc_card_init hw;
  read = λ dev offset len hw.
      (let (ret, buff, after) = emmc.emmc_read len offset hw in (ret, offset, buff, after));
  write = λ dev offset buff hw.
      (let (ret, after) = emmc.emmc_write buff offset hw in (ret, offset, after));
  ioctl = λ dev cmd args hw. emmc.emmc_issue_command cmd args (usec_per_sec / 2) hw;
}

-- the driver of `init_console_driver`
unfoldable pub console_driver : {Hw : Type 0} → Log Hw → Driver Hw
console_driver log = record {
  init = init_noop;
  read = read_noop;
  write =
      λ dev offset buf hw. (let (ret, after) = log.klog_write buf white hw in (ret, offset, after));
  ioctl = ioctl_noop;
}

module _ {Hw Fat : Type 0} (log : Log Hw) where
  abbrev pub on_hw : (Hw → Hw) → K Hw Fat (Unit {0})
  on_hw f k = finished tt (record k { store = record k.store { hw = f k.store.hw } })

  -- what the start of the three drivers has in common
  pub start_driver : Driver Hw → CString → ℕ → CString → CString → K Hw Fat ℤ
  start_driver driver path addr ko ok = do
    a ← lift kmalloc
    if a.address == null then return (pos 0) else do
      lift (store_driver a.address driver)
      ret ← insmod path addr a.address
      on_hw (if is_neg ret then log.klog_ko ko else log.klog_ok ok)
      return ret

-- `/dev/sdcard`, `/dev/console` and `/dev/uart`
abbrev pub dev : CString
dev = b'd' ∷ b'e' ∷ b'v' ∷ []

abbrev pub sdcard : CString
sdcard = b's' ∷ b'd' ∷ b'c' ∷ b'a' ∷ b'r' ∷ b'd' ∷ []

abbrev pub console : CString
console = b'c' ∷ b'o' ∷ b'n' ∷ b's' ∷ b'o' ∷ b'l' ∷ b'e' ∷ []

abbrev pub uart : CString
uart = b'u' ∷ b'a' ∷ b'r' ∷ b't' ∷ []

abbrev pub dev_path : CString → CString
dev_path name = slash ∷ dev ++ slash ∷ name

-- `SD card driver initialized`
abbrev pub sdcard_ok : CString
sdcard_ok =
    b'S' ∷ b'D' ∷ b' ' ∷ b'c' ∷ b'a' ∷ b'r' ∷ b'd' ∷ b' ' ∷ b'd' ∷ b'r' ∷ b'i' ∷ b'v' ∷ b'e' ∷ b'r'
    ∷ b' ' ∷ b'i' ∷ b'n' ∷ b'i' ∷ b't' ∷ b'i' ∷ b'a' ∷ b'l' ∷ b'i' ∷ b'z' ∷ b'e' ∷ b'd' ∷ []

module _ {Hw Fat : Type 0} (log : Log Hw) where
  pub init_sdcard_driver : Emmc Hw → K Hw Fat ℤ
  unfolding start_driver sdcard_driver
  init_sdcard_driver emmc =
      start_driver log (sdcard_driver emmc) (dev_path sdcard) emmc_base
        (b'S' ∷ b'D' ∷ b' ' ∷ b'c' ∷ b'a' ∷ b'r' ∷ b'd' ∷ b' ' ∷ b'd' ∷ b'r' ∷ b'i' ∷ b'v' ∷ b'e'
          ∷ b'r' ∷ b' ' ∷ b'i' ∷ b'n' ∷ b'i' ∷ b't' ∷ b'i' ∷ b'a' ∷ b'l' ∷ b'i' ∷ b'z' ∷ b'a' ∷ b't'
          ∷ b'i' ∷ b'o' ∷ b'n' ∷ b' ' ∷ b'f' ∷ b'a' ∷ b'i' ∷ b'l' ∷ b'e' ∷ b'd' ∷ [])
        sdcard_ok

  pub init_console_driver : K Hw Fat ℤ
  unfolding start_driver console_driver
  init_console_driver =
      start_driver log (console_driver log) (dev_path console) null
        (b'C' ∷ b'o' ∷ b'n' ∷ b's' ∷ b'o' ∷ b'l' ∷ b'e' ∷ b' ' ∷ b'd' ∷ b'r' ∷ b'i' ∷ b'v' ∷ b'e'
          ∷ b'r' ∷ b' ' ∷ b'i' ∷ b'n' ∷ b'i' ∷ b't' ∷ b'i' ∷ b'a' ∷ b'l' ∷ b'i' ∷ b'z' ∷ b'a' ∷ b't'
          ∷ b'i' ∷ b'o' ∷ b'n' ∷ b' ' ∷ b'f' ∷ b'a' ∷ b'i' ∷ b'l' ∷ b'e' ∷ b'd' ∷ [])
        (b'C' ∷ b'o' ∷ b'n' ∷ b's' ∷ b'o' ∷ b'l' ∷ b'e' ∷ b' ' ∷ b'd' ∷ b'r' ∷ b'i' ∷ b'v' ∷ b'e'
          ∷ b'r' ∷ b' ' ∷ b'i' ∷ b'n' ∷ b'i' ∷ b't' ∷ b'i' ∷ b'a' ∷ b'l' ∷ b'i' ∷ b'z' ∷ b'e' ∷ b'd'
          ∷ [])

  -- The functions of the serial port are those of `Uart`: here they are a driver of any kind.
  pub init_uart_driver : Driver Hw → K Hw Fat ℤ
  unfolding start_driver
  init_uart_driver driver =
      start_driver log driver (dev_path uart) base_uart
        (b'U' ∷ b'A' ∷ b'R' ∷ b'T' ∷ b' ' ∷ b'd' ∷ b'r' ∷ b'i' ∷ b'v' ∷ b'e' ∷ b'r' ∷ b' ' ∷ b'i'
          ∷ b'n' ∷ b'i' ∷ b't' ∷ b'i' ∷ b'a' ∷ b'l' ∷ b'i' ∷ b'z' ∷ b'a' ∷ b't' ∷ b'i' ∷ b'o' ∷ b'n'
          ∷ b' ' ∷ b'f' ∷ b'a' ∷ b'i' ∷ b'l' ∷ b'e' ∷ b'd' ∷ [])
        (b'U' ∷ b'A' ∷ b'R' ∷ b'T' ∷ b' ' ∷ b'd' ∷ b'r' ∷ b'i' ∷ b'v' ∷ b'e' ∷ b'r' ∷ b' ' ∷ b'i'
          ∷ b'n' ∷ b'i' ∷ b't' ∷ b'i' ∷ b'a' ∷ b'l' ∷ b'i' ∷ b'z' ∷ b'e' ∷ b'd' ∷ [])
