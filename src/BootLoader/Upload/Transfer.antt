-- ===== src/BootLoader/Upload/Transfer.antt =====
-- A section's words reach its memory: in blocks of 64 words and a remainder, as if at once.
use dspc8681_linux_driver.Base.{
  ℕ, zero, suc, ◌+◌, ◌-◌, ◌*◌, ◌/◌, ◌≤◌, ◌<◌, ◌≡◌, sym, ap, ap₂, ◌∙◌, arith, u32, IsWord, List, [],
  ◌∷◌, ◌++◌, length, take, drop, take-append-drop, length-take, length-drop, All, All-append_iff,
  some, done,
}
use mathlib.Core.List.{append_assoc}
use dspc8681_linux_driver.BootLoader.Memory.{DspMemory, Region, window, locate, write_dsp_memory}
use dspc8681_linux_driver.BootLoader.Memory.Overlay.{
  overlay_memory, overlay_none, overlay_memory-append, size-overlay_memory, write_dsp_memory_words,
}
use dspc8681_linux_driver.BootLoader.Memory.Placement.{limit, locate-add}
use dspc8681_linux_driver.Common.Bytes.{word_bytes}
use dspc8681_linux_driver.BootLoader.Upload.{
  transfer_section, new_core_num, read_words, transfer_blocks,
}
use dspc8681_linux_driver.BootLoader.Upload.Table.{
  words_bytes, words_bytes-append, read_words_lem, read_word_lem,
}

-- What is left to transfer, `ws`, has its place: from word `index` of the region on, inside both
-- the mapped window and the region's addresses. Where nothing is left, the address may be the end.
pub record HasRoom (core_num : ℕ) (m : DspMemory) (a : ℕ) (region : Region) (index : ℕ)
    (ws : List ℕ) : Type 0 where
  pub address_word : IsWord a
  pub words_IsWord : All IsWord ws
  pub located : 0 < length ws → locate core_num a ≡ some (region, index)
  pub mapped : index + length ws ≤ (window m region).size
  pub addressed : (window m region).size ≤ limit region

read_words_n :
    (n : ℕ) (ws rest : List ℕ)
    → n ≡ length ws
    → All IsWord ws
    → read_words n (words_bytes ws ++ rest) ≡ done (ws, rest)
read_words_n n ws rest e h = rw e (read_words_lem ws rest h)

module _ {core_num : ℕ} {m : DspMemory} {a : ℕ} {region : Region} {index : ℕ} {ws : List ℕ}
    (room : HasRoom core_num m a region index ws) (n : ℕ) (enough : n ≤ length ws) where
  abbrev front : List ℕ
  front = take n ws

  abbrev back : List ℕ
  back = drop n ws

  length-front : length front ≡ n
  length-front = omega (arith, length-take n ws)

  split_words : All IsWord front × All IsWord back
  split_words = (All-append_iff IsWord front back).0 (rw (take-append-drop n ws) room.words_IsWord)

  -- The bytes of the front stand first.
  split_bytes :
      (rest : List ℕ) → words_bytes ws ++ rest ≡ words_bytes front ++ (words_bytes back ++ rest)
  split_bytes rest =
      ap (λ l. words_bytes l ++ rest) (sym (take-append-drop n ws))
      ∙ rw (words_bytes-append front back)
          (append_assoc (words_bytes front) (words_bytes back) rest)

  read_front :
      (rest : List ℕ)
      → read_words n (words_bytes ws ++ rest) ≡ done (front, words_bytes back ++ rest)
  read_front rest = rw (split_bytes rest) (read_words_n n front _ (sym length-front) split_words.0)

  write_front :
      (k : ℕ) × (write_dsp_memory m core_num a front (4 * n)
        ≡ done (overlay_memory m region index front, k))
  write_front =
      write_dsp_memory_words m core_num a index region front (4 * n)
        (λ h. room.located (omega (arith, length-front))) (omega (arith, length-front))
        (omega (arith, length-front, room.mapped))

  front-HasRoom : HasRoom core_num m a region index front
  front-HasRoom = record {
    address_word = room.address_word;
    words_IsWord = split_words.0;
    located = λ h. room.located (omega (arith, length-front));
    mapped = omega (arith, length-front, room.mapped);
    addressed = room.addressed;
  }

  -- After the front is stored, the back has its place behind it.
  back-HasRoom :
      HasRoom core_num
        (overlay_memory m region index front)
        (u32 (a + 4 * n))
        region
        (index + n)
        back
  back-HasRoom = record {
    address_word = omega arith;
    words_IsWord = split_words.1;
    located = λ h.
        locate-add core_num a index n region room.address_word
          (room.located (omega (arith, length-drop n ws)))
          (omega (arith, length-drop n ws, room.mapped, room.addressed));
    mapped =
        rw (size-overlay_memory m region index front region)
          (omega (arith, length-drop n ws, room.mapped));
    addressed = rw (size-overlay_memory m region index front region) room.addressed;
  }

  overlay_back :
      overlay_memory (overlay_memory m region index front) region (index + n) back
      ≡ overlay_memory m region index ws
  overlay_back =
      overlay_memory-append m region index (index + n) front back (omega (arith, length-front))
      ∙ ap (overlay_memory m region index) (take-append-drop n ws)

address_after : (a count : ℕ) → u32 (u32 (a + 4 * 64) + 256 * count) ≡ u32 (a + 256 * suc count)
address_after a count = omega arith

-- `count` blocks store the first `64 * count` words.
pub transfer_blocks_lem :
    (count : ℕ) {core_num : ℕ} {m : DspMemory} {a : ℕ} {region : Region} {index : ℕ} {ws : List ℕ}
    → HasRoom core_num m a region index ws
    → length ws ≡ 64 * count
    → (rest : List ℕ)
    → transfer_blocks core_num count
        (record { memory = m; sec_start_addr = a; image = words_bytes ws ++ rest })
      ≡ done (record {
        memory = overlay_memory m region index ws;
        sec_start_addr = u32 (a + 256 * count);
        image = rest;
      })
unfolding transfer_blocks
transfer_blocks_lem zero {m} {a} {region} {index} {ws = []} room e rest =
    ap₂ (λ m' a'. done (record { memory = m'; sec_start_addr = a'; image = rest }))
      (sym (overlay_none m region index)) (omega (arith, room.address_word))
transfer_blocks_lem zero {ws = w ∷ ws} room e rest = absurd (omega arith)
transfer_blocks_lem (suc count) {a} {ws} room e rest =
    rw
      (
        transfer_blocks,
        read_front room 64 (omega arith) rest,
        (write_front room 64 (omega arith)).1,
      )
      (transfer_blocks_lem count (back-HasRoom room 64 (omega arith))
          (omega (arith, length-drop 64 ws)) rest
        ∙ rw (overlay_back room 64 (omega arith)) (rw (address_after a count)))

-- One section with all its words in place is stored, and the pointer stands behind the next size.
pub transfer_section_lem :
    (core_num : ℕ) {m : DspMemory} {a : ℕ} {region : Region} {index : ℕ} {ws : List ℕ}
    → HasRoom (new_core_num core_num a) m a region index ws
    → (next : ℕ) (rest : List ℕ) → IsWord next
    → transfer_section core_num
        (length ws * 4)
        m
        (word_bytes a ++ (words_bytes ws ++ (word_bytes next ++ rest)))
      ≡ done (overlay_memory m region index ws, next, rest)
unfolding transfer_section
transfer_section_lem core_num {m} {a} {region} {index} {ws} room next rest hn = rw (
  read_word_lem a (words_bytes ws ++ (word_bytes next ++ rest)) room.address_word,
  split_bytes room done_words fits (word_bytes next ++ rest),
  blocks,
  read_words_n (remainder / 4) (drop done_words ws) (word_bytes next ++ rest)
      (omega (arith, length-drop done_words ws)) last_room.words_IsWord,
  last_write.1,
  read_word_lem next rest hn,
  overlay_back room done_words fits,
)
  where
    count : ℕ
    count = length ws * 4 / 256

    remainder : ℕ
    remainder = length ws * 4 - count * 256

    done_words : ℕ
    done_words = 64 * count

    fits : done_words ≤ length ws
    fits = omega arith

    core : ℕ
    core = new_core_num core_num a

    stored : DspMemory
    stored = overlay_memory m region index (take done_words ws)

    blocks :
        transfer_blocks core count (record {
          memory = m;
          sec_start_addr = a;
          image =
              words_bytes (take done_words ws)
              ++ (words_bytes (drop done_words ws) ++ (word_bytes next ++ rest));
        })
        ≡ done (record {
          memory = stored;
          sec_start_addr = u32 (a + 256 * count);
          image = words_bytes (drop done_words ws) ++ (word_bytes next ++ rest);
        })
    blocks =
        transfer_blocks_lem count (front-HasRoom room done_words fits)
          (omega (arith, length-take done_words ws)) _

    last_room :
        HasRoom core stored (u32 (a + 256 * count)) region (index + done_words) (drop done_words ws)
    last_room =
        let same : u32 (a + 4 * done_words) ≡ u32 (a + 256 * count) = omega arith in
        rw same at (back-HasRoom room done_words fits)

    last_write :
        (k : ℕ) × (write_dsp_memory stored core
            (u32 (a + 256 * count))
            (drop done_words ws)
            remainder
          ≡ done (overlay_memory stored region (index + done_words) (drop done_words ws), k))
    last_write =
        write_dsp_memory_words stored core _ (index + done_words) region (drop done_words ws)
          remainder last_room.located (omega (arith, length-drop done_words ws)) last_room.mapped
