-- ===== src/Klog/Tests.antt =====
-- The theorem about src/klog.c at a console that is full.
use ras_pi_k.Base.{[], ◌∷◌, arith, refl}
use ras_pi_k.Klog.{Console, klog_write, white}
use ras_pi_k.Klog.Screen.{Keeps, klog_write-Keeps}

abbrev full : Console
full = record { x = 97; y = 35; margin = 10 }

klog_write-Keeps_example : Keeps (klog_write (b'a' ∷ 10 ∷ 8 ∷ 9 ∷ []) white full)
klog_write-Keeps_example =
    klog_write-Keeps (b'a' ∷ 10 ∷ 8 ∷ 9 ∷ []) white full (omega arith, omega arith, refl)
