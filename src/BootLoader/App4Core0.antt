-- ===== src/BootLoader/App4Core0.antt =====
-- inc/app4Core0_6678.h: `_app4Core0`, the image of core 0 that src/bootLoader.c is built with. The
-- children Lines2 and on have most of its lines, as a number for six of them.
pub mod Lines2
pub mod Lines203
pub mod Lines803
pub mod Lines1403
pub mod Lines2003
pub mod Lines2603
pub mod Lines3203
pub mod Lines3388
pub mod Size
use dspc8681_linux_driver.Base.{ℕ, List, [], ◌∷◌, ◌++◌}
use dspc8681_linux_driver.BootLoader.ThirdBl.{line_bytes}
use dspc8681_linux_driver.BootLoader.App4Core0.Lines2.{
  core0_lines_2, core0_lines_152, core0_lines_181,
}
use dspc8681_linux_driver.BootLoader.App4Core0.Lines203.{
  core0_lines_203, core0_lines_353, core0_lines_503, core0_lines_653,
}
use dspc8681_linux_driver.BootLoader.App4Core0.Lines803.{
  core0_lines_803, core0_lines_953, core0_lines_1103, core0_lines_1253,
}
use dspc8681_linux_driver.BootLoader.App4Core0.Lines1403.{
  core0_lines_1403, core0_lines_1553, core0_lines_1703, core0_lines_1853,
}
use dspc8681_linux_driver.BootLoader.App4Core0.Lines2003.{
  core0_lines_2003, core0_lines_2153, core0_lines_2303, core0_lines_2453,
}
use dspc8681_linux_driver.BootLoader.App4Core0.Lines2603.{
  core0_lines_2603, core0_lines_2753, core0_lines_2903, core0_lines_3053,
}
use dspc8681_linux_driver.BootLoader.App4Core0.Lines3203.{core0_lines_3203, core0_lines_3353}
use dspc8681_linux_driver.BootLoader.App4Core0.Lines3388.{
  core0_lines_3388, core0_lines_3538, core0_lines_3688, core0_lines_3838,
}

-- Six lines of 24 bytes to a number.
unfoldable pub rows_bytes : List ℕ → List ℕ
rows_bytes [] = []
rows_bytes (n ∷ ns) = line_bytes 144 n ++ rows_bytes ns

-- The lines 203 to 1702, 1703 to 3382 and 3388 to 3867.
unfoldable pub core0_lines_203_on : List ℕ
core0_lines_203_on =
    core0_lines_203
    ++ (core0_lines_353
        ++ (core0_lines_503
            ++ (core0_lines_653
                ++ (core0_lines_803
                    ++ (core0_lines_953
                        ++ (core0_lines_1103
                            ++ (core0_lines_1253 ++ (core0_lines_1403 ++ (core0_lines_1553)))))))))

unfoldable pub core0_lines_1703_on : List ℕ
core0_lines_1703_on =
    core0_lines_1703
    ++ (core0_lines_1853
        ++ (core0_lines_2003
            ++ (core0_lines_2153
                ++ (core0_lines_2303
                    ++ (core0_lines_2453
                        ++ (core0_lines_2603
                            ++ (core0_lines_2753
                                ++ (core0_lines_2903
                                    ++ (core0_lines_3053
                                        ++ (core0_lines_3203 ++ (core0_lines_3353)))))))))))

unfoldable pub core0_lines_3388_on : List ℕ
core0_lines_3388_on =
    core0_lines_3388 ++ (core0_lines_3538 ++ (core0_lines_3688 ++ (core0_lines_3838)))

-- The numbers here are the lines 176 to 180, 199 to 202, 3383 to 3387 and 3868 to 3871, of which the
-- last are short.
unfoldable pub app4_core0 : List ℕ
app4_core0 =
    rows_bytes (core0_lines_2 ++ core0_lines_152)
    ++ (line_bytes 104
          0x0000000081010920810109008100BEE00000000200E00000000000020C40000000000002000039600000000200FFF0008101AB20810181288101BB008101A7408101BB448101A77C8101BB7482E000008101BB7C83C000008101BB8481011A808101BB8C80000000
        ++ (rows_bytes core0_lines_181
            ++ (line_bytes 88
                  0x003C22F60054D02A004080EA00000362003C52E600006000003C54F60038A35A003C22F6003B002A0040806A00000362003C52E600006000003C54F6003CA35A003C22F60054F02A004080EA00000362003C52E600006000
                ++ (rows_bytes (core0_lines_203_on ++ core0_lines_1703_on)
                    ++ (line_bytes 104
                          0x000000000000000001BC94F6DC45EC65023C22F41FF1C41201BC92E6A1EF6C6E00000000E440000001BC94F6DC45EC65023C22F41FEE001201BC92E6A1EF6C6E00000000E440000001BC54F6023C42D41FFD9413023C428401BC52E600006000008CA36200000000
                        ++ (rows_bytes core0_lines_3388_on
                            ++ (line_bytes 80
                                0x810031A000000008810153E0810178B0810178C88101789881017720810107400000801D00008021000080220000802300010000000180380000800380090010800B00000001167540007FFF00000000)))))))
