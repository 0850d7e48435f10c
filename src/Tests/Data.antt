-- ===== src/Tests/Data.antt =====
-- Inputs that the tests share.
use dspc8681_linux_driver.Base.{ℕ, refl, arith, leb, if◌then◌else◌, List, [], ◌∷◌, All, IsByte}
use dspc8681_linux_driver.BootLoader.Memory.{DspMemory, in_ll2, in_msmc, in_ddr}
use dspc8681_linux_driver.BootLoader.Memory.Placement.{placement}
use dspc8681_linux_driver.BootLoader.Upload.Table.{Section, IsSection}
use dspc8681_linux_driver.BootLoader.Upload.Correct.{IsMapped, Fits}
use dspc8681_linux_driver.LinkLayer.{LinkLayerRegisterTable}

-- `123456789` in ASCII, and its CRC.
abbrev pub digits : List ℕ
digits = 0x31 ∷ 0x32 ∷ 0x33 ∷ 0x34 ∷ 0x35 ∷ 0x36 ∷ 0x37 ∷ 0x38 ∷ 0x39 ∷ []

pub digits-IsByte : All IsByte digits
digits-IsByte = (
  omega arith,
  (
    omega arith,
    (
      omega arith,
      (omega arith, (omega arith, (omega arith, (omega arith, (omega arith, (omega arith, tt)))))),
    ),
  ),
)

-- Half a megabyte of L2 memory, no shared memory, a page of DDR.
abbrev pub memory : DspMemory
memory = record {
  ll2 = record { size = 0x20000; word = λ _. 0 };
  msmc = record { size = 0; word = λ _. 0 };
  ddr = record { size = 0x400; word = λ _. 0 };
}

pub memory-IsMapped : IsMapped memory
memory-IsMapped in_ll2 = omega arith
memory-IsMapped in_msmc = omega arith
memory-IsMapped in_ddr = omega arith

-- Six bytes of code in the L2 memory of core 1 and a word in DDR.
abbrev pub code : Section
code = record { size = 6; address = 0x11800008; words = 0xCAFE0001 ∷ 0xBEEF0000 ∷ [] }

abbrev pub constants : Section
constants = record { size = 4; address = 0x80000010; words = 7 ∷ [] }

pub code-IsSection : IsSection code
code-IsSection = record {
  some_bytes = ground arith;
  rounded = refl;
  small = omega arith;
  address_word = omega arith;
  words_IsWord = (omega arith, (omega arith, tt));
}

pub constants-IsSection : IsSection constants
constants-IsSection = record {
  some_bytes = ground arith;
  rounded = refl;
  small = omega arith;
  address_word = omega arith;
  words_IsWord = (omega arith, tt);
}

pub code-Fits : Fits memory code
unfolding placement
code-Fits = record { region = in_ll2; index = 2; placed = refl; mapped = omega arith }

pub constants-Fits : Fits memory constants
unfolding placement
constants-Fits = record { region = in_ddr; index = 4; placed = refl; mapped = omega arith }

abbrev pub tables : List ℕ
tables = 0xC8000000 ∷ 0xC8400000 ∷ 0 ∷ 0 ∷ []

abbrev pub table_with : ℕ → LinkLayerRegisterTable
table_with status = record {
  dpu_boot_status = 1;
  set_multi_core_boot_status = 0;
  multi_core_boot_status = 7;
  write_status = status;
  read_status = 0;
  get_pic_numers = 0;
  fail_pic_numers = 0;
  dpm_over_status = 0;
  dpm_start_status = 0;
  dpm_all_over_status = 0;
  push_code_status = 0;
  dpu_boot_control = 0;
  write_control = 0;
  read_control = 0;
  pc_url_nums_reg = 0;
  model_type = 0;
  dpm_over_control = 0;
  dpm_start_control = 0;
  push_code_control = 0;
}

abbrev pub table_in_round : ℕ → LinkLayerRegisterTable
table_in_round k = table_with (if leb 2 k then 0x550000aa else 0)
