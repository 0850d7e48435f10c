-- ===== src/BootLoader/App4Core0/Lines3203.antt =====
-- inc/app4Core0_6678.h: lines of `_app4Core0` from line 3203 to line 3382, six to a number.
use dspc8681_linux_driver.Base.{ℕ, ◌≡◌, refl, List, [], ◌∷◌, length}

unfoldable pub core0_lines_3203 : List ℕ
core0_lines_3203 =
    0x00000000000000000FEC0410000080000000000000000000000000000000000000000000000000000FFFFC1001C6282801C080E800002000020C1FDA00000000000000000000000001BC54F6023C22F41FEFA81201BC52E600006000008CA362000000000000000001BC94F6023C42F6023C22F41FFEA41201BC92E600006000008CA36200000000008CA36200000000
    ∷ 0x00000000000000000000000000000000000000000000000002C0942802C080E9000C036201900FD90214A2640194A274000040000000000001C0A22801C080E8018C026400006000000C13620000800000000000000000000204A358008CA362000000000000000000000000000000000000000000000000008C636301900224027FDF2802106A780000000000000000
    ∷ 0x000000000000000001BC54F6023C22F41FFD0C1201BC52E600006000008CA362000000000000000001BC54F6023C22F41FF51C1201BC52E600006000008CA362000000000000000001BC54F6023C22F41FFD101201BC52E600006000008CA362000000000000000001BC54F6023C22F41FF2981201BC52E600006000008CA362000000000000000001BC54F61FFE2C12
    ∷ 0x01BC52E600006000008CA36200000000000000000000000001BC54F6023C22F41FF2B81201BC52E600006000008CA36200000000000000000184A358018C8CE000000000018C13A2008CA362000000000000000000000000020403E202102FDA009003A2008CA36200000000000000000000000000000000008C43620242CC28024080E90180A3580190027400000000
    ∷ 0x00000000000000000000A1200000000000000000000000000000000000000000000000000000000001BC54F6023C22F41000041201BC52E600006000008CA36200000000000000000200A35A051003A2008C8362027CA35800000000000000000000000000000000028403E210004000022803E2022C03E310443044009403A2008CA362E2000200008CA36200000000
    ∷ 0x00000000000000000000000000000000000000000000000001BC54F6023C22F41FF2BC1201BC52E600006000008CA362000000000000000003181FD90320082A0300C26A008C1FD91FF060120084B362000000000000000001BC54F6023C22F41FE6E41201BC52E600006000008CA362000000000000000001BC94F6023C42F6023C22F41000041201BC92E600006000
    ∷ 0x008CA3620000000001C2F42801C080E8018C026400006000008C8363018C8A64020D22760000000001BC94F6023C42F6023C22F41000041201BC92E600006000008CA3620000000001C2F42801C080E8018C026400006000008C8363018C8A64020DC2760000000001BC54F6023C22F41FEF001201BC52E600006000008CA362000000000000000001BC94F6023C42F6
    ∷ 0x023C22F41000041201BC92E600006000008CA3620000000001C2F42801C080E8018C026400006000008C8363018C8A64020DA2760000000001BC54F6023C22F41FFAEC1201BC52E600006000008CA362000000000000000001BC94F6DC45EC65023C22F41FF9AC1201BC92E6A1EF6C6E00000000E440000001BC54F6023C22F41FFCBC1201BC52E600006000008CA362
    ∷ 0x0000000000000000008CA36200000000000000000000000000000000000000000000000000000000020403E20000000002101FD910004000008CA362000000000000000000000000009003A2008CA36200000000000000000000000000000000000000000000000001BC54F6023C22F41000041201BC52E600006000008CA3620000000000000000008C83620200A358
    ∷ 0x00000000000000000000000000000000000000000000000001BF7C2801C080E8018C02650FFE44100000600002106078000000000000000001BC54F6023C22F41000041201BC52E600006000008CA3620000000000000000008C83620204A35800000000000000000000000000000000000000000000000001BC54F61FFF841201BC52E600006000008CA36200000000
    ∷ 0x000000000000000001BC54F6023C22F41FFDB41201BC52E600006000008CA362000000000000000001BC54F6023C22F41FFF841201BC52E600006000008CA362000000000000000001BC54F6023C22F41FFDB41201BC52E600006000008CA362000000000000000001BC54F6023C22F41FFDB81201BC52E600006000008CA362000000000000000001BC94F6023C82D6
    ∷ 0x023C22F41FF95C13023C828601BC92E6A1EF6C6EE800000001BC54F61FFF781201BC52E600006000008CA36200000000000000000000000001BC54F61FFF781201BC52E600006000008CA36200000000000000000000000000101FD9021081A0C0000310DFFFE410C08C636200000000000020000000000001BC54F6023C22F41000041201BC52E600006000008CA362
    ∷ 0x000000000000000001BC94F71FFFD81201BC92E6FE2602460C6E4A66008CA36200000000E300000001BC54F61FFDEC1201BC52E600006000008CA36200000000000000000000000001BC54F6023C22F41000041201BC52E600006000008CA362000000000000000001BC94F71000041201BC92E6FE2602460C6E4A66008CA36200000000E300000001BC54F610006412
    ∷ 0x01BC52E600006000008CA36200000000000000000000000001BC54F6023C22F41FFB441201BC52E600006000008CA362000000000000000001BC54F6023C22F41FFB501201BC52E600006000008CA362000000000000000001BC94F6DC45EC65023C22F41000641201BC92E6A1EF6C6E00000000E440000001BC54F61FF7D81201BC52E600006000008CA36200000000
    ∷ 0x000000000000000001BC54F6023C22F41FEFF81201BC52E600006000008CA362000000000000000001BC54F6023C22F41FEEB01201BC52E600006000008CA362000000000000000001BC94F6023C42F6023C22F41FFDAC1201BC92E600006000008CA3620000000001BC54F6023C22F41FFFA01201BC52E600006000008CA36200000000000000000FFFFC100204A358
    ∷ 0x00006000000000000000000000000000000000000000000001BFAC2801C080E8018C026402431A2A024080EA72402C6E008CA362E400000001BC54F6023C22F41FFABC1201BC52E600006000008CA362000000000000000001BC94F61FF944120001A1200000000000000000000000000000000000000000008C63620210227402100274000000000000000000000000
    ∷ 0x000000000000000001900264008C636200106A7902000028C204A35800000000000000000000000001BFCE2801C080E8018C02650FFDBC100000600002106078000000000000000001BC54F6023C22F41FFC741201BC52E600006000008CA362000000000000000001C33A2801C080E9000C0362020C02040284A358028C0254000020000000000001BC54F6023C22F4
    ∷ 0x1FF2601201BC52E600006000008CA362000000000000000001BC54F61FFEE81201BC52E600006000008CA36200000000000000000000000001BC94F6023C42F6023C22F41FFEE81201BC92E600006000008CA3620000000001BCD4F6EC659CE5AC45DC451FFBE81201BCD2E6A1EF6C6E00000000E4C0000001BC94F6023C42F6023C22F41FF9E01201BC92E600006000
    ∷ 0x008CA3620000000001C34C2801C080E9000C0362020C02040284A358028C025400002000000000000FEB88100200A35800006000000000000000000000000000000000000000000001BC54F61FFDB41201BC52E600006000008CA36200000000000000000000000001BC54F6023C22F41FE15C1201BC52E600006000008CA362000000000000000001BC94F6023C42F6
    ∷ 0x023C22F41FFF041201BC92E600006000008CA36200000000008CA3620000000000000000000000000000000000000000000000000000000007BF005A023C22F4023C22E40000600007BD005A008CA362000000000000000001BC54F6023C22F41FFDA81201BC52E600006000008CA362000000000000000001BC54F6023C22F41FFDAC1201BC52E600006000008CA362
    ∷ 0x000000000000000001BC54F6023C22F41FF6101201BC52E600006000008CA362000000000000000001BC54F61000041201BC52E600006000008CA36200000000000000000000000001BC94F601C06A2801C080E810006C13020C026401BC92E6A1EF6C6EE800000001BC54F6023C22F41FFDAC1201BC52E600006000008CA362000000000000000001BC54F6023C22F4
    ∷ 0x1FFF1C1201BC52E600006000008CA362000000000000000001BC94F6023C42F6023C22F41FFF1C1201BC92E600006000008CA3620000000001BC54F6023C22F41FF9541201BC52E600006000008CA362000000000000000001BC54F6023C22F41FFED01201BC52E600006000008CA362000000000000000001BC54F6023C22F41000041201BC52E600006000008CA362
    ∷ 0x000000000000000001900FD80280A359020E0204028E0254008CA36200000000000000000000000001BC54F6023C22F41000041201BC52E600006000008CA362000000000000000001900FD80284A359020E0204028E0254008CA36200000000000000000000000001BC94F6023C42F6023C22F41FF44C1201BC92E600006000008CA3620000000001BC94F6033CC2D4
    ∷ 0xAC45DC451FFDBC13033CC28401BC92E6A1EF6C6EE880000001BCD4F6EC659CE5AC45DC451FFD881201BCD2E6A1EF6C6E00000000E4C0000001BC94F6DC45EC65023C22F41FFD8C1201BC92E6A1EF6C6E00000000E440000001BCD4F6EC659CE5AC45DC451FF5EC1201BCD2E6A1EF6C6E00000000E4C0000001BCD4F6EC659CE5AC45DC451FFC381201BCD2E6A1EF6C6E
    ∷ 0x00000000E4C0000001BC94F6DC45EC65023C22F41FFDD81201BC92E6A1EF6C6E00000000E440000001BC54F6023C42D41FFDDC13023C428401BC52E600006000008CA3620000000001BC54F61FF44C1201BC52E600006000008CA362000000000000000000000000008CA3620000000000000000000000000000000000000000000000000000000001BC54F6023C22F4
    ∷ []

pub length-core0_lines_3203 : length core0_lines_3203 ≡ 25
unfolding core0_lines_3203
length-core0_lines_3203 = refl

unfoldable pub core0_lines_3353 : List ℕ
core0_lines_3353 =
    0x1FFC301201BC52E600006000008CA362000000000000000001BC54F6023C22F41000041201BC52E600006000008CA362000000000000000001BC94F6024628281FF50813024080E801BC92E600006000008CA3620000000001BC54F6023C82B410000413023C82A401BC52E600006000008CA3620000000001BC94F61FFE341201BC92E600006000008CA36200000000
    ∷ 0x000000000000000001BC54F61000041201BC52E600006000008CA3620000000000000000000000000204A358008CA36200000000000000000000000000000000000000000000000001BC54F6023C22F41FFEB81201BC52E600006000008CA362000000000000000001BC94F6023C42F6023C22F41FFEB81201BC92E600006000008CA3620000000001BC54F6023C22F4
    ∷ 0x1000041201BC52E600006000008CA3620000000000000000027CA358008CA36200000000000000000000000000000000000000000000000001BC54F6023C22F41FFFD41201BC52E600006000008CA362000000000000000001BC54F6023C22F41FFFD41201BC52E600006000008CA362000000000000000001BC54F6023C82B41FFFD813023C82A401BC52E600006000
    ∷ 0x008CA3620000000001BC54F61FFFDC1201BC52E600006000008CA36200000000000000000000000001BC54F6023C22F41FFDA41201BC52E600006000008CA362000000000000000001BC54F6023C22F41FFA901201BC52E600006000008CA362000000000000000001BC54F6023C22F41000041201BC52E600006000008CA362000000000000000001BC94F601C39428
    ∷ 0x01C080E81FF65013020C027401BC92E6A1EF6C6EE800000001BC94F6027760281FFDE8130240806801BC92E600006000008CA3620000000001BCD4F6EC659CE5AC45DC451000041201BCD2E6A1EF6C6E00000000E4C0000001BC94F61FDBD8130400A359033C805B033C22F601BC92E6A1EF6C6EE800000001BC54F6023C22F41FFBFC1201BC52E600006000008CA362
    ∷ []

pub length-core0_lines_3353 : length core0_lines_3353 ≡ 5
unfolding core0_lines_3353
length-core0_lines_3353 = refl
