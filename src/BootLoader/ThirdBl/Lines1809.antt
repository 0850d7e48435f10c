-- ===== src/BootLoader/ThirdBl/Lines1809.antt =====
-- inc/DSP_TBL_6678.h: the lines 1809 to 1827 of `_thirdBLCode_U0`, inside its second section.
use dspc8681_linux_driver.Base.{ℕ, ◌≡◌, refl, List, [], ◌∷◌, length}

unfoldable pub lines_1809 : List ℕ
lines_1809 =
    0x021301EF028C9FFB02820029E2000200A66982C602999CA3
    ∷ 0x019035082010AA7B01FE00D001946A7802007F78E0200002
    ∷ 0x07BE09C2023C23C4023C23E6033C23E60780085221EF0C6E
    ∷ 0x0210CA22E40000000000200002103DD80000000000000000
    ∷ 0x0000000000000000000000000000000002FFFFA802FFFFE9
    ∷ 0x02A6862A0280436B96E9FE2702EF62C6320C0265E6000600
    ∷ 0x0200A3580180A3583194805800000000020C1FDA00000000
    ∷ 0x00000000000000008577357775C646471FFF5C13474E9247
    ∷ 0x022802E4022802E685067587E96000CA0000200001915078
    ∷ 0x01A802F4053C33E5000C0362053C52E60000600000000000
    ∷ 0x0004A358C283E0002C670C6E0213E058C19032242CE62C6E
    ∷ 0x0C6EFE27EC800820000C0FD8000020000000000000034001
    ∷ 0x0210205A008C836202101FD800000000008C236203100459
    ∷ 0x01800028021865F802971849019C60F8028CA07800000000
    ∷ 0x029002E600000000008C43620314205A031002F6021402B4
    ∷ 0x0000000000000000000000000001A1200000000000000000
    ∷ 0x00000000000000000000000000000000029060590FFF4010
    ∷ 0x031402640190E05802101FD8020C1FDA0000000000000000
    ∷ 0x010C1FD91FFD4013030000A80088B3620000000000000000 ∷ []

pub length-lines_1809 : length lines_1809 ≡ 19
unfolding lines_1809
length-lines_1809 = refl
