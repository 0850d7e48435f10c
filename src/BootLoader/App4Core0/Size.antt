-- ===== src/BootLoader/App4Core0/Size.antt =====
-- The size of `_app4Core0`.
use dspc8681_linux_driver.Base.{ℕ, ◌*◌, ◌≡◌, refl, ◌∙◌, arith, List, [], ◌∷◌, length, length-append}
use dspc8681_linux_driver.BootLoader.ThirdBl.{line_bytes, length-line_bytes}
use dspc8681_linux_driver.BootLoader.App4Core0.{
  rows_bytes, core0_lines_203_on, core0_lines_1703_on, core0_lines_3388_on, app4_core0,
}
use dspc8681_linux_driver.BootLoader.App4Core0.Lines2.{
  length-core0_lines_2, length-core0_lines_152, length-core0_lines_181,
}
use dspc8681_linux_driver.BootLoader.App4Core0.Lines203.{
  length-core0_lines_203, length-core0_lines_353, length-core0_lines_503, length-core0_lines_653,
}
use dspc8681_linux_driver.BootLoader.App4Core0.Lines803.{
  length-core0_lines_803, length-core0_lines_953, length-core0_lines_1103, length-core0_lines_1253,
}
use dspc8681_linux_driver.BootLoader.App4Core0.Lines1403.{
  length-core0_lines_1403, length-core0_lines_1553, length-core0_lines_1703,
  length-core0_lines_1853,
}
use dspc8681_linux_driver.BootLoader.App4Core0.Lines2003.{
  length-core0_lines_2003, length-core0_lines_2153, length-core0_lines_2303,
  length-core0_lines_2453,
}
use dspc8681_linux_driver.BootLoader.App4Core0.Lines2603.{
  length-core0_lines_2603, length-core0_lines_2753, length-core0_lines_2903,
  length-core0_lines_3053,
}
use dspc8681_linux_driver.BootLoader.App4Core0.Lines3203.{
  length-core0_lines_3203, length-core0_lines_3353,
}
use dspc8681_linux_driver.BootLoader.App4Core0.Lines3388.{
  length-core0_lines_3388, length-core0_lines_3538, length-core0_lines_3688,
  length-core0_lines_3838,
}

length-rows_bytes : (ns : List ℕ) → length (rows_bytes ns) ≡ 144 * length ns
unfolding rows_bytes
length-rows_bytes [] = refl
length-rows_bytes (n ∷ ns) =
    length-append (line_bytes 144 n) (rows_bytes ns)
    ∙ omega (arith, length-line_bytes 144 n, length-rows_bytes ns)

length-core0_lines_203_on : length core0_lines_203_on ≡ 250
unfolding core0_lines_203_on
length-core0_lines_203_on = simp (
  length-append, length-core0_lines_203, length-core0_lines_353, length-core0_lines_503,
  length-core0_lines_653, length-core0_lines_803, length-core0_lines_953, length-core0_lines_1103,
  length-core0_lines_1253, length-core0_lines_1403, length-core0_lines_1553,
)

length-core0_lines_1703_on : length core0_lines_1703_on ≡ 280
unfolding core0_lines_1703_on
length-core0_lines_1703_on = simp (
  length-append, length-core0_lines_1703, length-core0_lines_1853, length-core0_lines_2003,
  length-core0_lines_2153, length-core0_lines_2303, length-core0_lines_2453,
  length-core0_lines_2603, length-core0_lines_2753, length-core0_lines_2903,
  length-core0_lines_3053, length-core0_lines_3203, length-core0_lines_3353,
)

length-core0_lines_3388_on : length core0_lines_3388_on ≡ 80
unfolding core0_lines_3388_on
length-core0_lines_3388_on = simp (
  length-append, length-core0_lines_3388, length-core0_lines_3538, length-core0_lines_3688,
  length-core0_lines_3838,
)

-- 92824 bytes, which are whole words.
pub length-app4_core0 : length app4_core0 ≡ 92824
unfolding app4_core0
length-app4_core0 = simp (
  length-append, length-line_bytes, length-rows_bytes, length-core0_lines_2, length-core0_lines_152,
  length-core0_lines_181, length-core0_lines_203_on, length-core0_lines_1703_on,
  length-core0_lines_3388_on,
)
