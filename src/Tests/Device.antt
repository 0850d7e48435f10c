-- ===== src/Tests/Device.antt =====
-- The theorems on src/entry.c at concrete inputs.
use dspc8681_linux_driver.Base.{
  none, ◌↔◌, inr, Option, true, ◌≡◌, refl, arith, ℤ, pos, negsuc, List, [], ◌∷◌, some, done,
}
use dspc8681_linux_driver.Common.Poll.{Reports, BeforeLast}
use dspc8681_linux_driver.LinkLayer.{LinkLayerHandler, handler_at, io_write_reset, io_write_qfin}
use dspc8681_linux_driver.LinkLayer.Handshake.{IsReady}
use dspc8681_linux_driver.Entry.{
  Chip, init_chip, changebufferstatus, waitbufferready, waitdpm, waitdpmstart, write_timeout,
  read_timeout, returned, blocked, change_status, dpu_ioctl, isr_handler, calls, interrupts,
  Reachable, starts, continues,
}
use dspc8681_linux_driver.Entry.Blocking.{Reachable-blocked}
use dspc8681_linux_driver.Entry.Answers.{dpu_ioctl-Reports}
use dspc8681_linux_driver.Entry.Outcomes.{ReadsNull, TakesNone, Ended, dpu_ioctl-Ended}
use dspc8681_linux_driver.Entry.Alone.{Alone, Answered, Alone-Answered}
use dspc8681_linux_driver.Registers.{IoWrite}
use dspc8681_linux_driver.Entry.Files.{
  ProcessorUnitDev, dpu_open, dpu_mmap, dpu_close, dpu_close-dpu_open, dpu_mmap-0,
}
use dspc8681_linux_driver.Tests.Data.{tables, table_with, table_in_round}

-- The chip after a change of the write status and an interrupt.
abbrev pub chip_from : List IoWrite → Chip
chip_from ws = isr_handler (change_status io_write_reset (init_chip (table_with 0) ws))

pub chip_from-Reachable : (ws : List IoWrite) → Reachable ws (chip_from ws)
unfolding dpu_ioctl
chip_from-Reachable ws =
    continues
      (continues (starts (table_with 0))
        (calls table_in_round (changebufferstatus (some io_write_reset)) refl))
      (interrupts _)

abbrev chip : Chip
chip = chip_from []

Reachable-blocked_example :
    (dpu_ioctl table_in_round waitdpm chip ≡ done blocked)
    × (dpu_ioctl table_in_round write_timeout chip ≡ done blocked)
    × (dpu_ioctl table_in_round read_timeout chip ≡ done blocked)
Reachable-blocked_example = Reachable-blocked [] table_in_round chip (chip_from-Reachable [])

dpu_ioctl-Reports_example :
    (dpu_ioctl table_in_round (waitdpmstart (some (io_write_qfin, 9))) chip
      ≡ done (returned chip none (pos 0)))
    × ((r : ℤ) × (dpu_ioctl table_in_round (waitbufferready (some (io_write_qfin, 9))) chip
          ≡ done (returned chip (some r) (pos 0)))
        × Reports r (
            BeforeLast 9 (λ k.
              IsReady io_write_qfin
                (table_in_round k).write_status
                (table_in_round k).read_status)))
dpu_ioctl-Reports_example = dpu_ioctl-Reports table_in_round io_write_qfin 9 chip tt

abbrev units : List (Option ProcessorUnitDev)
units = some (record { dev_minor = 0; reg_virt = 0xF0000000 }) ∷ none ∷ none ∷ none ∷ []

abbrev handler : LinkLayerHandler
handler = handler_at 0xC8000000 0xF0000000

-- A kernel that refuses: the error is -22.
dpu_mmap-0_example : dpu_mmap (λ a. a) (λ start frame n. negsuc 21) handler 0x1000 0x3000 ≡ pos 0
dpu_mmap-0_example =
    dpu_mmap-0 (λ a. a) (λ start frame n. negsuc 21) handler 0x1000 0x3000
      (λ start frame n. inr (21, refl))

dpu_close-dpu_open_example :
    (h : LinkLayerHandler) × (dpu_open true units tables 0 ≡ done (some h, pos 0))
    × (dpu_close h ≡ done (0xC8000000 ∷ 0xC8002000 ∷ 0xC8004000 ∷ 0x2000 ∷ []))
dpu_close-dpu_open_example =
    dpu_close-dpu_open units tables 0 0xC8000000 (record { dev_minor = 0; reg_virt = 0xF0000000 })
      refl refl (omega arith) (ground arith)

dpu_ioctl-Ended_example :
    Ended
      (dpu_ioctl table_in_round (waitbufferready (some (io_write_reset, 5))) chip)
      (ReadsNull (waitbufferready (some (io_write_reset, 5))))
      (TakesNone (waitbufferready (some (io_write_reset, 5))) chip)
dpu_ioctl-Ended_example =
    dpu_ioctl-Ended table_in_round (waitbufferready (some (io_write_reset, 5))) chip

chip-Alone : Alone (init_chip (table_with 0) []) chip
unfolding dpu_ioctl
chip-Alone = Alone.interrupts (
    Alone.calls table_in_round (changebufferstatus (some io_write_reset))
      (Alone.begins (init_chip (table_with 0) [])) refl)

Alone-Answered_example :
    Answered io_write_qfin chip ↔ Answered io_write_qfin (init_chip (table_with 0) [])
Alone-Answered_example = Alone-Answered io_write_qfin chip-Alone
