-- ===== src/FatRead/Tests.antt =====
-- The theorem about reads of a FAT32 file at a small disk.
use ras_pi_k.Base.{
  ltb, ◌%◌, ℕ, ◌≡◌, refl, none, some, [], ◌∷◌, ◌++◌, pos, arith, ◌==◌, if◌then◌else◌,
}
use ras_pi_k.Store.Blocks.{tabulate}
use ras_pi_k.Kernel.{Kernel, finished}
use ras_pi_k.FatVolume.{Volume, FatFile, FatObjects, cluster_sector}
use ras_pi_k.FatVolume.Sample.{image, volume, disk, foo, kernel, serves, Ready}
use ras_pi_k.Mbr.{Buffer}
use ras_pi_k.FatVolume.Device.{next_of}
use ras_pi_k.FatRead.{read_fat32file, sectors_for}
use ras_pi_k.FatRead.Chain.{Lies, read_fat32file-chain}
use ras_pi_k.FatRead.Offset.{file_sector, read_fat32file-first_sector}
use ras_pi_k.FatRead.Whole.{content, read_fat32file-whole}

-- 4 bytes at the offset 600 of a file of 1000 bytes: none of them is of the file
read_fat32file-first_sector_example :
    (k' : Kernel ℕ FatObjects) × (read_fat32file disk 32 600 4 kernel
      ≡ finished (pos 4, 604, 7 ∷ 7 ∷ 7 ∷ 7 ∷ 0 ∷ []) k')
    × Ready k'
unfolding cluster_sector tabulate
read_fat32file-first_sector_example =
    read_fat32file-first_sector volume (record { info = 16; dir = foo }) serves 32 600 4 kernel refl
      refl (λ i. omega arith) (omega arith) (omega arith) (omega arith) (omega arith) (omega arith)
      (omega arith)

-- the volume with clusters of 4 sectors
abbrev wide : Volume
wide = record volume { cluslen = 4 }

abbrev wide_kernel : Kernel ℕ FatObjects
wide_kernel = record kernel {
  fat = record kernel.fat { volume = λ p. if p == 16 then some wide else none };
}

abbrev wide_foo : FatFile
wide_foo = record { info = 16; dir = foo }

read_fat32file-whole_example :
    (k' : Kernel ℕ FatObjects) × (read_fat32file disk 32 0 2000 wide_kernel
      ≡ finished
          (
            pos 1000,
            1000,
            tabulate 1000 (content image (file_sector wide wide_foo serves)) ++ (0 ∷ []),
          )
          k')
    × Ready k'
unfolding cluster_sector
read_fat32file-whole_example =
    read_fat32file-whole wide wide_foo serves 32 2000 wide_kernel refl refl (λ i. omega arith) refl
      (omega arith) (omega arith) (omega arith) (omega arith) (omega arith) (omega arith)

-- a file of 1000 bytes in the clusters 4 and 6
abbrev far_foo : FatFile
far_foo = record { info = 16; dir = record foo { cllow = 4 } }

abbrev far_kernel : Kernel ℕ FatObjects
far_kernel = record kernel {
  fat = record kernel.fat { file = λ p. if p == 32 then some far_foo else none };
}

abbrev far_bytes : Buffer
far_bytes i = image (if ltb i 512 then 4 else 6) (i % 512)

far_bytes-Lies : Lies volume image 4096 far_bytes 1000 4 (6 ∷ []) 0
unfolding Lies cluster_sector next_of
far_bytes-Lies = (
  record {
    some_sectors = omega arith;
    from = omega arith;
    to = omega arith;
    held = omega arith;
    word = omega arith;
    entry = omega arith;
  },
  λ j lt inside. ground arith,
  omega arith,
  refl,
  (
    record {
      some_sectors = omega arith;
      from = omega arith;
      to = omega arith;
      held = omega arith;
      word = omega arith;
      entry = omega arith;
    },
    λ j lt inside. ground arith,
    omega arith,
  ),
)

read_fat32file-chain_example :
    (k' : Kernel ℕ FatObjects) × (read_fat32file disk 32 0 2000 far_kernel
      ≡ finished (pos 1000, 1000, tabulate 1000 far_bytes ++ (0 ∷ [])) k')
    × Ready k'
unfolding sectors_for
read_fat32file-chain_example =
    read_fat32file-chain volume far_foo serves far_bytes (6 ∷ []) 32 2000 far_kernel refl refl
      (λ i. omega arith) far_bytes-Lies refl (omega arith) (omega arith) (omega arith) (omega arith)
      (omega arith)
