-- ===== src/BootLoader/Boot/Zone.antt =====
-- Where `bootLoader` copies the images in the DMA zone of `DMA_TRANSFER_SIZE`, four megabytes.
use dspc8681_linux_driver.Base.{
  ℕ, ◌+◌, ◌*◌, ◌%◌, ◌^◌, ◌≤◌, ◌<◌, ◌≡◌, ◌↔◌, arith, ℤ, pos, IsWord, List, [], ◌∷◌, length, All,
  done, Ends, Ends-done,
}
use dspc8681_linux_driver.BootLoader.Memory.Placement.{magic_index}
use dspc8681_linux_driver.BootLoader.Upload.Table.{Section, IsSection, table_bytes}
use dspc8681_linux_driver.BootLoader.Upload.Correct.{IsMapped, Fits}
use dspc8681_linux_driver.BootLoader.Outbound.{dsp_memory_map}
use dspc8681_linux_driver.BootLoader.Boot.{
  Images, Event, mapped, pushed, copied, polled, Dsp, Host, align_phy_addr, addr_map,
  put_dsp_img_zone, boot_loader,
}
use dspc8681_linux_driver.BootLoader.Boot.Address.{addr_map-start_iff}
use dspc8681_linux_driver.BootLoader.Boot.Events.{IsKept, Copies, boot_loader-After}
use dspc8681_linux_driver.BootLoader.Boot.Verdict.{boot_loader-Verdict}
use dspc8681_linux_driver.BootLoader.Boot.Protocol.{
  Cooperates, push_events, cores_events, boot_loader-boots,
}

-- What a copy writes lies in the four megabytes from `base` on.
abbrev pub IsInside : ℕ → Event → Type 0
IsInside base (mapped ws) = Unit
IsInside base (pushed v) = Unit
IsInside base (copied address bytes) = (base ≤ address) × (address + length bytes ≤ base + 0x400000)
IsInside base polled = Unit

-- The room behind the registers.
abbrev pub image_room : ℕ
image_room = 0x3FE000

-- In a zone that starts at a megabyte, the images go right behind the registers.
pub put_dsp_img_zone_aligned :
    (dma_vir_addr dma_phy_addr : ℕ)
    → dma_vir_addr + 0x400000 ≤ 2 ^ 32
    → IsWord dma_phy_addr
    → dma_phy_addr % 2 ^ 20 ≡ 0
    → put_dsp_img_zone (addr_map dma_vir_addr dma_phy_addr) ≡ dma_vir_addr + 0x2000
put_dsp_img_zone_aligned dma_vir_addr dma_phy_addr fits word aligned =
    rw ((addr_map-start_iff dma_vir_addr dma_phy_addr (omega arith) word).1 aligned) (omega arith)

module _ (base zone : ℕ) (behind : zone ≡ base + 0x2000) where
  IsInside-IsKept : IsKept (All (IsInside base)) (λ bytes. length bytes ≤ image_room) zone
  IsInside-IsKept = record {
    pushes = λ v es inside. (tt, inside);
    polls = λ es inside. (tt, inside);
    copies = λ bytes es small inside. ((omega arith, omega arith), inside);
  }

  -- A push stays inside exactly when its image fits.
  push_events-Inside :
      (code : List ℕ) (es : List Event)
      → All (IsInside base) (push_events zone code es)
        ↔ ((length code ≤ image_room) × All (IsInside base) es)
  unfolding push_events
  push_events-Inside code es = (
    λ p. (omega (arith, p.1.1.1.0), p.1.1.1.1.1.1),
    λ q. (tt, (tt, (tt, ((omega arith, omega (arith, q.0)), (tt, (tt, q.1)))))),
  )

  cores_events-Inside :
      (codes : List (List ℕ)) (es : List Event)
      → All (IsInside base) (cores_events zone codes es)
        ↔ (All (λ code. length code ≤ image_room) codes × All (IsInside base) es)
  unfolding cores_events
  cores_events-Inside [] es = (λ p. (tt, p), λ q. q.1)
  cores_events-Inside (code ∷ codes) es =
      let rest = cores_events-Inside codes (push_events zone code es) in
      let first = push_events-Inside code es in
      (
        λ p. let q = rest.0 p in let r = first.0 q.1 in ((r.0, q.0), r.1),
        λ q. rest.1 (q.0.1, first.1 (q.0.0, q.1)),
      )

-- The images that fit behind the registers.
abbrev pub FitZone : Images → Type 0
FitZone images =
    All (λ code. length code ≤ image_room) (images.core0 ∷ images.core1 ∷ images.core2 ∷ [])

FitZone-Copies :
    (images : Images)
    → FitZone images
    → All
        (Copies (λ bytes. length bytes ≤ image_room))
        (images.core0 ∷ images.core1 ∷ images.core2 ∷ [])
FitZone-Copies images (p0, (p1, (p2, _))) =
    (λ bytes short. omega arith, (λ bytes short. omega arith, (λ bytes short. omega arith, tt)))

-- On every boot table: if `bootLoader` returns, what it copied lies in the zone.
pub boot_loader-IsInside :
    (fuel : ℕ) (dsp : Dsp) (images : Images) (dma_vir_addr dma_phy_addr processor_index : ℕ)
    (h : Host)
    → length images.dsp_init < fuel * 8
    → dma_vir_addr + 0x400000 ≤ 2 ^ 32
    → IsWord dma_phy_addr
    → dma_phy_addr % 2 ^ 20 ≡ 0
    → FitZone images
    → All (IsInside dma_vir_addr) h.events
    → Ends
        (λ r. All (IsInside dma_vir_addr) r.0.events)
        (boot_loader fuel dsp images dma_vir_addr dma_phy_addr processor_index h)
boot_loader-IsInside fuel dsp images dma_vir_addr dma_phy_addr processor_index h enough fits word
      aligned small inside =
    boot_loader-After (All (IsInside dma_vir_addr)) (λ bytes. length bytes ≤ image_room) fuel dsp
      images dma_vir_addr dma_phy_addr processor_index h enough
      (IsInside-IsKept dma_vir_addr _
        (put_dsp_img_zone_aligned dma_vir_addr dma_phy_addr fits word aligned))
      (FitZone-Copies images small) (tt, inside)

-- Safety: with a well-formed boot table in mapped windows and fuel for every eight bytes of it, an image
-- of core 0 of whole words, an index inside `gpRegisterTable`, a DMA zone that starts at a megabyte and
-- ends within 32-bit addresses, images that fit behind the registers, and nothing copied outside the
-- zone before, `bootLoader` returns, whatever the DSP does, and all that was copied lies in the four
-- megabytes of the zone.
pub boot_loader-AllInside :
    (fuel : ℕ) (dsp : Dsp) (images : Images) (dma_vir_addr dma_phy_addr processor_index : ℕ)
    (h : Host) (entry : ℕ) (ss : List Section) (rest : List ℕ)
    → images.dsp_init ≡ table_bytes entry ss rest
    → length ss < fuel
    → length images.dsp_init < fuel * 8
    → IsWord entry
    → IsMapped h.memory
    → magic_index < h.memory.ll2.size
    → All IsSection ss
    → All (Fits h.memory) ss
    → length images.core0 % 4 ≡ 0
    → processor_index < length h.register_table
    → dma_vir_addr + 0x400000 ≤ 2 ^ 32
    → IsWord dma_phy_addr
    → dma_phy_addr % 2 ^ 20 ≡ 0
    → FitZone images
    → All (IsInside dma_vir_addr) h.events
    → (h' : Host) × (r : ℤ) × (boot_loader fuel dsp images dma_vir_addr dma_phy_addr processor_index
          h
        ≡ done (h', r))
      × All (IsInside dma_vir_addr) h'.events
boot_loader-AllInside fuel dsp images dma_vir_addr dma_phy_addr processor_index h entry ss rest
      table rounds enough he hm hmagic vs fs whole index_inside fits word aligned small inside =
    let verdict =
      boot_loader-Verdict fuel dsp images dma_vir_addr dma_phy_addr processor_index h entry ss rest
        table rounds he hm hmagic vs fs whole index_inside in
    (
      verdict.state,
      verdict.code,
      verdict.returned,
      Ends-done
          (boot_loader-IsInside fuel dsp images dma_vir_addr dma_phy_addr processor_index h enough
            fits word aligned small inside)
          verdict.returned,
    )

-- With a DSP that follows the protocol, a well-formed boot table in mapped windows, an image of core 0
-- of whole words, an index inside `gpRegisterTable` and a DMA zone that starts at a megabyte,
-- `bootLoader` returns 0 whatever the sizes of the images, and what it copied lies in the zone exactly
-- when each image fits behind the registers: no size is tested.
pub boot_loader-IsInside_iff :
    (fuel : ℕ) (dsp : Dsp) (images : Images) (dma_vir_addr dma_phy_addr processor_index : ℕ)
    (h : Host) (entry : ℕ) (ss : List Section) (rest : List ℕ)
    → images.dsp_init ≡ table_bytes entry ss rest
    → length ss < fuel
    → IsWord entry
    → IsMapped h.memory
    → magic_index < h.memory.ll2.size
    → All IsSection ss
    → All (Fits h.memory) ss
    → length images.core0 % 4 ≡ 0
    → processor_index < length h.register_table
    → Cooperates dsp
    → dma_vir_addr + 0x400000 ≤ 2 ^ 32
    → IsWord dma_phy_addr
    → dma_phy_addr % 2 ^ 20 ≡ 0
    → All (IsInside dma_vir_addr) h.events
    → (h' : Host) × (boot_loader fuel dsp images dma_vir_addr dma_phy_addr processor_index h
        ≡ done (h', pos 0))
      × (All (IsInside dma_vir_addr) h'.events
          ↔ All
              (λ code. length code ≤ image_room)
              (images.core0 ∷ images.core1 ∷ images.core2 ∷ []))
unfolding cores_events
boot_loader-IsInside_iff fuel dsp images dma_vir_addr dma_phy_addr processor_index h entry ss rest
      table enough he hm hmagic vs fs whole index_inside c fits word aligned inside =
    let behind : put_dsp_img_zone (addr_map dma_vir_addr dma_phy_addr) ≡ dma_vir_addr + 0x2000 =
      put_dsp_img_zone_aligned dma_vir_addr dma_phy_addr fits word aligned in
    let all_pushes =
      cores_events-Inside dma_vir_addr _ behind (images.core0 ∷ images.core1 ∷ images.core2 ∷ [])
        (polled ∷ mapped (dsp_memory_map (align_phy_addr dma_phy_addr) 0x400000).0 ∷ h.events) in
    (
      _,
      boot_loader-boots fuel dsp images dma_vir_addr dma_phy_addr processor_index h entry ss rest
          table enough he hm hmagic vs fs whole index_inside c,
      (λ p. (all_pushes.0 p.1).0, λ small. (tt, all_pushes.1 (small, (tt, (tt, inside))))),
    )
