-- ===== src/Drivers/Tests.antt =====
-- A card with a small FAT32 volume, and the start of its driver.
use ras_pi_k.Base.{
  ◌+◌, ◌/◌, ℕ, ◌≡◌, ◌%◌, ◌||◌, not, ltb, true, false, [], failed, refl, none, some, arith, ◌==◌,
  if◌then◌else◌, pos,
}
use ras_pi_k.Strings.{text}
use ras_pi_k.Store.{null, Devfs}
use ras_pi_k.Store.Blocks.{tabulate}
use ras_pi_k.Kernel.{devices, Kernel, finished}
use ras_pi_k.Vfs.Fds.{IsLowest}
use ras_pi_k.Vfs.Devices.{Inside, IsSectors}
use ras_pi_k.Vfs.DeviceFds.{IsReady}
use ras_pi_k.Mounts.Insmod.{HasRoom}
use ras_pi_k.FatVolume.{FatObjects}
use ras_pi_k.FatVolume.Sample.{image}
use ras_pi_k.FatVolume.Sample
use ras_pi_k.Drivers.{Emmc, Log, dev, sdcard, init_sdcard_driver}
use ras_pi_k.Drivers.Sdcard.{IsCard, init_sdcard_driver-IsReady}

-- the state of the hardware is the number of lines in the log
abbrev emmc : Emmc ℕ
emmc = record {
  emmc_card_init = λ hw. (pos 0, hw);
  emmc_read = λ len block hw.
      if ltb len 512 || not (len % 512 == 0) || ltb 4096 (block + len / 512)
      then (failed, [], hw)
      else (pos len, tabulate len (image block), hw);
  emmc_write = λ buff block hw. (pos 0, hw);
  emmc_issue_command = λ cmd args timeout hw. (pos 0, hw);
}

abbrev log : Log ℕ
log = record {
  klog_write = λ buf color hw. (pos 0, hw);
  klog_ok = λ msg hw. ℕ.suc hw;
  klog_ko = λ msg hw. ℕ.suc hw;
}

abbrev AnyState : ℕ → Type 0
AnyState hw = Unit {0}

sectors_read :
    (len block : ℕ) (hw : ℕ)
    → Inside 4096 block (len / 512)
    → IsSectors len
    → emmc.emmc_read len block hw ≡ (pos len, tabulate len (image block), hw)
sectors_read len block hw (small, held) (some_bytes, whole, word) =
    let long : ltb len 512 ≡ false = ground arith in
    let even : (len % 512 == 0) ≡ true = ground arith in
    let there : ltb 4096 (block + len / 512) ≡ false = ground arith in rw (long, even, there) refl

card : IsCard emmc log image 4096 AnyState
card = record {
  reads = λ len block hw fit small whole. (hw, sectors_read len block hw small whole, tt);
  logs = λ msg hw fit. tt;
}

-- `/dev` is mounted and empty
abbrev empty : Devfs
empty = record { list = λ _. null; nbdevices = 0 }

abbrev kernel : Kernel ℕ FatObjects
kernel = record Sample.kernel {
  store = record Sample.kernel.store { devfs = λ p. if p == 8 then some empty else none };
  list = λ _. record { name = dev; type = devices; fs = 8 };
  nbmountpoints = 1;
}

room : HasRoom dev sdcard kernel
unfolding text
room = record {
  point = 0;
  mounted = record {
    inside = omega arith;
    named = refl;
    type = refl;
    others = λ j h. absurd (omega arith);
  };
  fs = empty;
  stored = refl;
  room = omega arith;
  others = λ j h. absurd (omega arith);
}

lowest : IsLowest kernel.fd_table 0
lowest = record { inside = omega arith; free = refl; below = λ j h. absurd (omega arith) }

init_sdcard_driver-IsReady_example :
    (k' : Kernel ℕ FatObjects) × (init_sdcard_driver log emmc kernel ≡ finished (pos 0) k')
    × IsReady image 4096 AnyState dev sdcard k'
    × (k'.fat ≡ kernel.fat)
init_sdcard_driver-IsReady_example =
    init_sdcard_driver-IsReady emmc log image 4096 AnyState card kernel room (λ i. omega arith) refl
      refl tt lowest
