-- ===== src/Mmio/Tests.antt =====
-- Small machines, and the theorems about the serial port, the timer and the mailbox at them.
use ras_pi_k.Base.{
  ℕ, zero, suc, ◌+◌, ◌*◌, ◌-◌, ◌^◌, ◌≤◌, ◌≡◌, refl, some, List, [], ◌∷◌, ◌++◌, arith, ◌==◌,
  if◌then◌else◌, pos,
}
use ras_pi_k.Store.{Device}
use ras_pi_k.Vffs.{u32}
use ras_pi_k.Devfs.{new_device}
use ras_pi_k.Mmio.{Bus}
use ras_pi_k.Mmio.Timers.{IsClock, usleep, usleep-in_time}
use ras_pi_k.Mmio.Mailbox.{
  mailbox_base, mailbox_empty, mailbox_timeout, IsMailbox, answer, read_mailbox,
  read_mailbox-answer,
}
use ras_pi_k.Mmio.Uart.{write_ok, IsPort, write_uart, write_uart-sends}

-- a port: the bytes that were sent, and the reads for which it is busy
abbrev flags : ℕ → List ℕ → ℕ × (List ℕ × ℕ)
flags zero sent = (0, (sent, 0))
flags (suc k) sent = (write_ok, (sent, k))

abbrev port_bus : Bus (List ℕ × ℕ)
port_bus = record {
  read_mmio = λ reg hw. flags hw.1 hw.0;
  write_mmio = λ reg value hw. (hw.0 ++ (value ∷ []), 2);
  sync_mem = λ hw. hw;
}

abbrev Line : List ℕ × ℕ → List ℕ → ℕ → Type 0
Line hw sent k = hw ≡ (sent, k)

port : IsPort port_bus 2 Line
port = record {
  clears = λ sent. record {
    busy = λ hw k line. (write_ok, (sent, k), rw line refl, omega arith, refl);
    idle = λ hw line. (0, (sent, 0), rw line refl, refl, refl);
  };
  sends = λ hw sent byte line. (2, omega arith, rw line refl);
}

abbrev uart : Device
uart = new_device (b'u' ∷ []) 0x20201000 8

write_uart-sends_example :
    (hw' : List ℕ × ℕ) × (k' : ℕ) × (write_uart port_bus 3 uart (104 ∷ 105 ∷ []) (7 ∷ [], 1)
      ≡ some ((pos 2, uart), hw'))
    × Line hw' (7 ∷ 104 ∷ 105 ∷ []) k'
write_uart-sends_example =
    write_uart-sends port_bus 3 2 port (omega arith) uart (104 ∷ 105 ∷ []) (7 ∷ [], 1) (7 ∷ []) 1
      refl refl refl (omega arith)

-- a clock that is read every 100 microseconds and goes round between its readings
abbrev time : ℕ → ℕ
time i = 2 ^ 32 + 100 * i - 150

abbrev clock_bus : Bus ℕ
clock_bus = record {
  read_mmio = λ reg hw. (u32 (time hw), hw + 1);
  write_mmio = λ reg value hw. hw;
  sync_mem = λ hw. hw;
}

abbrev At : ℕ → ℕ → Type 0
At hw i = hw ≡ i

clock : IsClock clock_bus time At
clock = record { ticks = λ hw i at. (i + 1, rw at refl, refl); forward = λ i. omega arith }

usleep-in_time_example :
    (hw' j : ℕ) × (usleep clock_bus 301 300 0 ≡ some (tt, hw'))
    × At hw' (j + 1)
    × (time 0 + 300 ≤ time j)
    × (time j ≤ time 0 + 300 + 100)
usleep-in_time_example =
    usleep-in_time clock_bus time clock 300 1 100 (λ i. omega arith) (λ i. omega arith) 301 0 0 refl
      (omega arith) (omega arith)

-- a mailbox
abbrev state_of : List (ℕ × ℕ) → ℕ × List (ℕ × ℕ)
state_of [] = (mailbox_empty, [])
state_of ((zero, word) ∷ ms) = (0, (0, word) ∷ ms)
state_of ((suc k, word) ∷ ms) = (mailbox_empty, (k, word) ∷ ms)

abbrev word_of : List (ℕ × ℕ) → ℕ × List (ℕ × ℕ)
word_of [] = (0, [])
word_of ((k, word) ∷ ms) = (word, ms)

abbrev mail_bus : Bus (List (ℕ × ℕ))
mail_bus = record {
  read_mmio = λ reg hw. if reg == mailbox_base then word_of hw else state_of hw;
  write_mmio = λ reg value hw. hw;
  sync_mem = λ hw. hw;
}

abbrev Mail : List (ℕ × ℕ) → List (ℕ × ℕ) → Type 0
Mail hw ms = hw ≡ ms

mailbox : IsMailbox mail_bus Mail
mailbox = record {
  stays = λ hw mail. (mailbox_empty, [], rw mail refl, ground arith, refl);
  waits = λ hw k word ms mail. (mailbox_empty, (k, word) ∷ ms, rw mail refl, ground arith, refl);
  ready = λ hw word ms mail. (0, (0, word) ∷ ms, rw mail refl, refl, refl);
  takes = λ hw word ms mail. (ms, rw mail refl, refl);
}

-- a word for the channel 8, and one for the channel 1
abbrev words : List (ℕ × ℕ)
words = (2, 0x1238) ∷ (0, 0x5671) ∷ []

read_mailbox-answer_example :
    (hw' : List (ℕ × ℕ)) × (read_mailbox mail_bus 3 1 words
      ≡ some (answer 1 mailbox_timeout words, hw'))
read_mailbox-answer_example =
    read_mailbox-answer mail_bus mailbox 3 1 words words refl (omega arith)
