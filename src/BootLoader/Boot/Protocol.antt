-- ===== src/BootLoader/Boot/Protocol.antt =====
-- The handshake of `bootLoader` with a DSP that follows it.
use dspc8681_linux_driver.Base.{
  ℕ, ◌%◌, ◌<◌, ◌≡◌, ◌≢◌, refl, arith, leb, ltb, true, bit_and, pos, IsWord, List, [], ◌∷◌, length,
  take-length, set, All, done,
}
use dspc8681_linux_driver.Common.Poll.{BeforeLast, poll_value-Reports, poll_compare_value-Reports}
use dspc8681_linux_driver.BootLoader.Memory.{in_ll2}
use dspc8681_linux_driver.BootLoader.Memory.Overlay.{overlay_memory}
use dspc8681_linux_driver.BootLoader.Memory.Placement.{magic_index}
use dspc8681_linux_driver.BootLoader.Upload.Table.{Section, IsSection, table_bytes}
use dspc8681_linux_driver.BootLoader.Upload.Correct.{load, IsMapped, Fits, upload_program-load}
use dspc8681_linux_driver.BootLoader.Outbound.{dsp_memory_map}
use dspc8681_linux_driver.BootLoader.Boot.{
  Images, Event, mapped, pushed, copied, polled, Dsp, Host, emit, memcpy, wait_push_code,
  finish_push, write_out_buffer, push_core0, push_cores, wait_which_core_run, wait_cores,
  boot_cores, align_phy_addr, addr_map, put_dsp_img_zone, boot_loader, max_poll_count,
  pc_pushcode_reset, pc_pushcode_finish, dsp_getcode_reset, dsp_getcode_finish,
}

-- A DSP that follows the protocol: it answers each request before the host's last poll, and reports
-- the cores 0 to 2 as running.
pub record Cooperates (dsp : Dsp) : Type 0 where
  pub gets_reset :
      (es : List Event)
      → BeforeLast max_poll_count (λ k.
        bit_and (dsp.push_code_status (pushed pc_pushcode_reset ∷ es) k) dsp_getcode_reset ≢ 0)
  pub gets_code :
      (es : List Event)
      → BeforeLast max_poll_count (λ k.
        bit_and (dsp.push_code_status (pushed pc_pushcode_finish ∷ es) k) dsp_getcode_finish ≢ 0)
  pub runs :
      (es : List Event) → BeforeLast max_poll_count (λ k. dsp.multi_core_boot_status es k ≡ 0x07)

-- What the DSP sees of one push, the latest first.
unfoldable pub push_events : ℕ → List ℕ → List Event → List Event
push_events zone code es =
    pushed pc_pushcode_reset
    ∷ polled
    ∷ pushed pc_pushcode_finish
    ∷ copied zone code
    ∷ polled
    ∷ pushed pc_pushcode_reset
    ∷ es

unfoldable pub cores_events : ℕ → List (List ℕ) → List Event → List Event
cores_events zone [] es = es
cores_events zone (code ∷ codes) es = cores_events zone codes (push_events zone code es)

pub memcpy_all : (src : List ℕ) (n : ℕ) → n ≡ length src → memcpy src n ≡ done src
memcpy_all src n e =
    let fits : leb n (length src) ≡ true = ground arith in rw (fits, e, take-length src)

module _ {dsp : Dsp} (c : Cooperates dsp) where
  reset_answered :
      (h : Host) → wait_push_code dsp dsp_getcode_reset (emit (pushed pc_pushcode_reset) h) ≡ pos 0
  unfolding wait_push_code
  reset_answered h = (poll_value-Reports _ _ max_poll_count).0.1 (c.gets_reset h.events)

  finish_answered :
      (h : Host)
      → wait_push_code dsp dsp_getcode_finish (emit (pushed pc_pushcode_finish) h) ≡ pos 0
  unfolding wait_push_code
  finish_answered h = (poll_value-Reports _ _ max_poll_count).0.1 (c.gets_code h.events)

  cores_run : (h : Host) → wait_which_core_run dsp h ≡ pos 0
  unfolding wait_which_core_run
  cores_run h = (poll_compare_value-Reports _ _ max_poll_count).0.1 (c.runs h.events)

  finish_push_lem :
      (h : Host)
      → finish_push dsp h ≡ (
        emit (pushed pc_pushcode_reset) (emit polled (emit (pushed pc_pushcode_finish) h)),
        pos 0,
      )
  unfolding finish_push
  finish_push_lem h = rw (finish_push, finish_answered h)

  write_out_buffer_lem :
      (zone : ℕ) (code : List ℕ) (n : ℕ) (h : Host)
      → n ≡ length code
      → write_out_buffer dsp zone code n (emit polled (emit (pushed pc_pushcode_reset) h))
        ≡ done (record h { events = push_events zone code h.events }, pos 0)
  unfolding write_out_buffer push_events
  write_out_buffer_lem zone code n h e = rw (
    memcpy_all code n e,
    finish_push_lem (emit (copied zone code) (emit polled (emit (pushed pc_pushcode_reset) h))),
  )

  push_core0_lem :
      (zone : ℕ) (code : List ℕ) (h : Host)
      → length code % 4 ≡ 0
      → push_core0 dsp zone code h
        ≡ done (record h { events = push_events zone code h.events }, pos 0)
  unfolding push_core0
  push_core0_lem zone code h whole =
      rw (push_core0, reset_answered h) (write_out_buffer_lem zone code _ h (omega arith))

  push_cores_lem :
      (zone : ℕ) (codes : List (List ℕ)) (h : Host)
      → push_cores dsp zone codes h
        ≡ done (record h { events = cores_events zone codes h.events }, pos 0)
  unfolding push_cores cores_events
  push_cores_lem zone [] h = refl
  push_cores_lem zone (code ∷ codes) h =
      rw (write_out_buffer_lem zone code (length code) h refl)
        (push_cores_lem zone codes (record h { events = push_events zone code h.events }))

  wait_cores_lem : (h : Host) → wait_cores dsp h ≡ done (emit polled h, pos 0)
  unfolding wait_cores
  wait_cores_lem h = rw (wait_cores, cores_run h)

  boot_cores_lem :
      (zone : ℕ) (images : Images) (h : Host)
      → length images.core0 % 4 ≡ 0
      → boot_cores dsp zone images h
        ≡ done (
          record h {
            events =
                polled
                ∷ cores_events zone
                    (images.core1 ∷ images.core2 ∷ [])
                    (push_events zone images.core0 h.events);
          },
          pos 0,
        )
  unfolding boot_cores
  boot_cores_lem zone images h whole = rw (
    push_core0_lem zone images.core0 h whole,
    push_cores_lem zone (images.core1 ∷ images.core2 ∷ []) _,
    wait_cores_lem _,
  )

-- Success: with a DSP that answers each request in time, a well-formed boot table in mapped
-- windows, an image of core 0 of whole words and an index inside `gpRegisterTable`, `bootLoader`
-- returns 0. Its events are the outbound window, the pushes of all images in order and the polls
-- between them; the memory is the loaded boot table, and `gpRegisterTable` has the address of the
-- register table at the processor's index.
pub boot_loader-boots :
    (fuel : ℕ) (dsp : Dsp) (images : Images) (dma_vir_addr dma_phy_addr processor_index : ℕ)
    (h : Host) (entry : ℕ) (ss : List Section) (rest : List ℕ)
    → images.dsp_init ≡ table_bytes entry ss rest
    → length ss < fuel
    → IsWord entry
    → IsMapped h.memory
    → magic_index < h.memory.ll2.size
    → All IsSection ss
    → All (Fits h.memory) ss
    → length images.core0 % 4 ≡ 0
    → processor_index < length h.register_table
    → Cooperates dsp
    → boot_loader fuel dsp images dma_vir_addr dma_phy_addr processor_index h
      ≡ done (
        record {
          memory = overlay_memory (load h.memory ss) in_ll2 magic_index (entry ∷ []);
          register_table =
              set h.register_table processor_index (addr_map dma_vir_addr dma_phy_addr);
          events =
              polled
              ∷ cores_events
                  (put_dsp_img_zone (addr_map dma_vir_addr dma_phy_addr))
                  (images.core1 ∷ images.core2 ∷ [])
                  (push_events
                    (put_dsp_img_zone (addr_map dma_vir_addr dma_phy_addr))
                    images.core0
                    (polled
                      ∷ mapped (dsp_memory_map (align_phy_addr dma_phy_addr) 0x400000).0
                      ∷ h.events));
        },
        pos 0,
      )
unfolding boot_loader
boot_loader-boots fuel dsp images dma_vir_addr dma_phy_addr processor_index h entry ss rest table
      enough he hm hmagic vs fs whole inside c =
    let index_inside : ltb processor_index (length h.register_table) ≡ true = ground arith in
    rw
      (
        index_inside,
        table,
        upload_program-load fuel 0 entry h.memory ss rest enough he hm hmagic vs fs,
      )
      (boot_cores_lem c _ images _ whole)
