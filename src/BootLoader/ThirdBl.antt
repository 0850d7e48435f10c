-- ===== src/BootLoader/ThirdBl.antt =====
-- inc/DSP_TBL_6678.h: `_thirdBLCode_U0`, the boot table that src/bootLoader.c is built with, as a
-- number for each line of the file. The children Lines9 and on have the lines 9 to 1827.
pub mod Lines9
pub mod Lines159
pub mod Lines309
pub mod Lines459
pub mod Lines609
pub mod Lines759
pub mod Lines909
pub mod Lines1059
pub mod Lines1209
pub mod Lines1359
pub mod Lines1509
pub mod Lines1659
pub mod Lines1809
pub mod Words
pub mod Table
pub mod Sections
pub mod Load
use dspc8681_linux_driver.Base.{
  ◌≡◌, refl, ap, length, ℕ, zero, suc, ◌*◌, ◌/◌, ◌%◌, ◌^◌, List, [], ◌∷◌, ◌++◌,
}
use dspc8681_linux_driver.BootLoader.ThirdBl.Lines9.{lines_9}
use dspc8681_linux_driver.BootLoader.ThirdBl.Lines159.{lines_159}
use dspc8681_linux_driver.BootLoader.ThirdBl.Lines309.{lines_309}
use dspc8681_linux_driver.BootLoader.ThirdBl.Lines459.{lines_459}
use dspc8681_linux_driver.BootLoader.ThirdBl.Lines609.{lines_609}
use dspc8681_linux_driver.BootLoader.ThirdBl.Lines759.{lines_759}
use dspc8681_linux_driver.BootLoader.ThirdBl.Lines909.{lines_909}
use dspc8681_linux_driver.BootLoader.ThirdBl.Lines1059.{lines_1059}
use dspc8681_linux_driver.BootLoader.ThirdBl.Lines1209.{lines_1209}
use dspc8681_linux_driver.BootLoader.ThirdBl.Lines1359.{lines_1359}
use dspc8681_linux_driver.BootLoader.ThirdBl.Lines1509.{lines_1509}
use dspc8681_linux_driver.BootLoader.ThirdBl.Lines1659.{lines_1659}
use dspc8681_linux_driver.BootLoader.ThirdBl.Lines1809.{lines_1809}

-- The bytes of a line, the first of them at the top of the number.
unfoldable pub line_bytes : ℕ → ℕ → List ℕ
line_bytes zero n = []
line_bytes (suc k) n = n / 2 ^ (8 * k) % 256 ∷ line_bytes k n

pub length-line_bytes : (k n : ℕ) → length (line_bytes k n) ≡ k
unfolding line_bytes
length-line_bytes zero n = refl
length-line_bytes (suc k) n = ap suc (length-line_bytes k n)

-- Lines of 24 bytes.
unfoldable pub lines_bytes : List ℕ → List ℕ
lines_bytes [] = []
lines_bytes (n ∷ ns) = line_bytes 24 n ++ lines_bytes ns

-- The lines 2 to 6, 8, 1829 to 1839 and 1840 to 1864.
unfoldable pub lines_2 : List ℕ
lines_2 =
    0x00860000000000800086000007F64E2A0780436A07BF09F2
    ∷ 0x0701B02A070043EA0200A35A091003A20A1003A201CD3028
    ∷ 0x0180436800000000000C13620185816201D5A02801804368
    ∷ 0x00000000000C1362018281620251302A0200436A00100362
    ∷ 0x018761620204A358001800E2000080000000000000000000 ∷ []

abbrev pub line_8 : ℕ
line_8 = 0x0000AAA00086020007BF005A0A13AC450210806A6C6E104D

unfoldable pub lines_9_on : List ℕ
lines_9_on =
    lines_9
    ++ (lines_159
        ++ (lines_309
            ++ (lines_459
                ++ (lines_609
                    ++ (lines_759
                        ++ (lines_909
                            ++ (lines_1059
                                ++ (lines_1209
                                    ++ (lines_1359
                                        ++ (lines_1509 ++ (lines_1659 ++ lines_1809)))))))))))

unfoldable pub lines_1829 : List ℕ
lines_1829 =
    0x000001000087036C00030300320010122E30302E312E3030
    ∷ 0x001203340000002000070336000403082000001002000403
    ∷ 0x001000002036000003050000030200040001001603080000
    ∷ 0x000100040001000003010000BB1800060100160350000000
    ∷ 0x020000000800000001000000010000000100050350000503
    ∷ 0x010017035100000002000000080000000100000001000000
    ∷ 0x010005035100050301001B03020000000300000000000000
    ∷ 0x080202000000010000000200000000000086AC800086AC60
    ∷ 0x00869F000801010000000100000000000000000200000004
    ∷ 0x00000002000001440087036C0086ECA00087040C00870354
    ∷ 0x008704280087036000870434008703680087043C00870210 ∷ []

unfoldable pub lines_1840 : List ℕ
lines_1840 =
    0x000002520086FFB820202000202020202828202020282828
    ∷ 0x202020202020202020202020202020201010882010101010
    ∷ 0x101010101010101044444410444444441044444410101010
    ∷ 0x414110104141414101010101010101010101010101010101
    ∷ 0x010101011010101042421010424242420202020202020202
    ∷ 0x020202020202020202020202101010100000002000000000
    ∷ 0x000000000000000000000000000000000000000000000000
    ∷ 0x000000000000000000000000000000000000000000000000
    ∷ 0x000000000000000000000000000000000000000000000000
    ∷ 0x000000000000000000000000000000000000000000000000
    ∷ 0x000000000000000000000000000000000000000000000000
    ∷ 0x000000004350534431383638616C5020726F66746E69206D
    ∷ 0x6F6974697573206E736563636C75667363000D0A4965726F
    ∷ 0x78253D646961772C57635074657469726C6961460D0A6465
    ∷ 0x726F63003D6449652A2C78256F6F4270746E457464417972
    ∷ 0x3D2072642C7825206C2030752064616F65646F6369616620
    ∷ 0x0A64656C6F63000D6E4965723D7865644D2C782563696761
    ∷ 0x726464412C78253D746F6F62696146200A64656C6F63000D
    ∷ 0x6E4965723D7865644D2C782563696761726464412C78253D
    ∷ 0x746F6F6263757320737365630A6C75667570000D74614474
    ∷ 0x656220610A6E69670000000D000000000000000000000000
    ∷ 0x000000000000000000000000000000000000000000000000
    ∷ 0x333231303736353462613938666564633332313037363534
    ∷ 0x42413938464544430000250033534D543643303200383736
    ∷ 0x43505344313836380000000000000000030201000D070604 ∷ []

unfoldable pub third_bl_code_u0 : List ℕ
third_bl_code_u0 =
    lines_bytes lines_2
    ++ (line_bytes 20 0x0000000000000000000000000000000000000000
        ++ (lines_bytes (line_8 ∷ lines_9_on)
            ++ (line_bytes 8 0x0000000000000000
                ++ (lines_bytes lines_1829
                    ++ (lines_bytes lines_1840 ++ line_bytes 8 0x00000F0E00000000)))))
