-- ===== src/BootLoader/ThirdBl/Lines9.antt =====
-- inc/DSP_TBL_6678.h: the lines 9 to 158 of `_thirdBLCode_U0`, inside its second section.
use dspc8681_linux_driver.Base.{ℕ, ◌≡◌, refl, List, [], ◌∷◌, length}

unfoldable pub lines_9 : List ℕ
lines_9 =
    0xB247DC450193B9A0CC3D02B5EB4002004C6EBC4D018C7E08
    ∷ 0xCC3D22354C6EBC4D018CBD08CC3D42354C6EBC4DEDA00000
    ∷ 0x018D1F08CC3D62354C6EBC4D018D3E08CC3D82354C6EBC4D
    ∷ 0x018D7F08E6C00000CC3DA2354C6EBC4D018D9E08CC3DC235
    ∷ 0x4C6EBC4D018DDE08CC3DE235EB6000004C6EBC4D018E1E08
    ∷ 0xCC3D0A354C6EBC4D018E5C08CC3D2A354C6EBC4DEDA00000
    ∷ 0x018EDD08CC3D4A354C6EBC4D018F3D08CC3D6A354C6EBC4D
    ∷ 0x018F9F08E6C00000DC4D8A354C6EBC5D0190FF588992AAB5
    ∷ 0x01908068018C0264CC356C6EE960000091C7BC5D02103F0A
    ∷ 0xDAC52C6EBC5DDC4D0000400002109F0ACC3DFAC5E9A00000
    ∷ 0x4C6EBC4D018F5E08019202B4BC5DDC4D000040000210EF5A
    ∷ 0x021622B6E120000007BD005A008CA36207BF005A0627AC45
    ∷ 0x6246DC45018C02140210630AE3000000BD824C6E018C1CC8
    ∷ 0x00000000020C9FFA6246DC45018C22140200A358E2200000
    ∷ 0x02137C8802137CCA7D820C6E018C8F7800000000020C9FFA
    ∷ 0xAC3DDC45E88000000200A35802131A8802131ACA00000000
    ∷ 0x018C42141D826C6E018C8F78E400000000000000020C9FFA
    ∷ 0xAC3DDC45F22206260C6EF243018C6214F5826C6EEB800000
    ∷ 0x018C8F7800000000020C9FFAAC3DDC450200A3580212B688
    ∷ 0x0212B6CAE100000000000000018C8214B5826C6E018C8F78
    ∷ 0x00000000020C9FFAAC3DDC45E8800000922206260C6E9243
    ∷ 0x018CA21495826C6E018C8F7800000000020C9FFAE1600000
    ∷ 0xAC3DDC450627A2470212538A00000000018CC21455826C6E
    ∷ 0x01907F78E4600000021653CA020C9FFAAC3DDC450200A358
    ∷ 0x02121188021211CA00000000E0800000018CE21415826C6E
    ∷ 0x018C8F7800000000020C9FFAAC3DDC450627A247EC400000
    ∷ 0x0211CF8A00000000018D0214CD826C6E01907F780215CFCA
    ∷ 0x020C9FFAE1000000AC3DDC45021E002802114DCA00002000
    ∷ 0x018D22144D826C6E018C8F78E420000000000000020C9FFA
    ∷ 0xAC3DDC450201C0280210E9CA00002000018D4214E0800000
    ∷ 0xE5826C6E018C8F7800000000020C9FFABC4DDC454C6EDC6D
    ∷ 0x12737A5DEE20000086834C6E02948F7A021886CA0210AFFA
    ∷ 0x7246DC45023C22E4018EEF58E22000008A4C4C6E66026C6E
    ∷ 0x02110F58018C8FF8AC3DCC354C6EDC4D018DA214E6600000
    ∷ 0x02130F5A00004000018CEF5800000000020C9FFA7246DC45
    ∷ 0x0200042AE40008000210806A06270035AC3DDC450627A247
    ∷ 0x0C6EDA23018DC214DD826C6EEBC0000001907F780217DECA
    ∷ 0x020C9FFAAC3DDC457A2206260C6E7A43018DE214E7000000
    ∷ 0x7D826C6E018C8F7800000000020C9FFABC4DDC454C6EDC6D
    ∷ 0x02920296E62000004C6E123302948CA202948F7A021885CA
    ∷ 0x0210AFFAAC3DDC4502130F5AE420000000004000018E2214
    ∷ 0x018CEF5800000000020C9FFA8A12DC4502108069E4100000
    ∷ 0x0034724607BD005A008CA3620180082801908068018C0264
    ∷ 0x0200082AE02000000210806A00002000018C2108A1EF0035
    ∷ 0x07BF005A023C42D401800828E100000001908068018C0265
    ∷ 0x02BC42860200082A0210806A0000200001947398019002F4
    ∷ 0x07BD005A008CA36207BF005A0627AC456246DC45018C0214
    ∷ 0x0627A247EB00000002133C8A3D820C6E01907F7802173CCA
    ∷ 0x020C9FFA6246DC45018C2214E44000000200A3580212B888
    ∷ 0x0212B8CAB5820C6E018C8F7800000000020C9FFAE1000000
    ∷ 0xAC3DDC450627A2470212348A00000000018C421435826C6E
    ∷ 0x01907F78E4600000021634CA020C9FFAAC3DDC450200A358
    ∷ 0x02119088021190CA00000000E0800000018C62148D826C6E
    ∷ 0x018C8F7800000000020C9FFAAC3DDC450207E028E4400000
    ∷ 0x0210CBCA00002000018C8214C5826C6E018C8F7800000000
    ∷ 0x020C9FFAE1000000BC4DDC454C6EDC6D1A33B25D66834C6E
    ∷ 0x02948F7A021865CA0210AFFAE1E00000AC3DDC4502130F5A
    ∷ 0x00004000018CC21400006000018CEF5800000000E0200000
    ∷ 0x020C9FFA1A12DC45021080690034724607BD005A008CA362
    ∷ 0x07BF005AE14000000627AC456246DC45018C02140627A247
    ∷ 0x02139E8A9D820C6E01907F78E560000002179ECA020C9FFA
    ∷ 0x6246DC45018C22140200A35802133B8802133BCAE0800000
    ∷ 0x3D820C6E018C8F7800000000020C9FFAAC3DDC450627A247
    ∷ 0x0212188AE620000000000000018C220415826C6E01907F78
    ∷ 0x021618CA020C9FFAAC3DDC45E88000000200A3580210CF88
    ∷ 0x0210CFCA00000000018C4204C5826C6E018C8F78E4000000
    ∷ 0x00000000020C9FFABC4DDC454C6EDC6D1A33D25D66834C6E
    ∷ 0x02948F7AE7800000021865CA0210AFFAAC3DDC4502130F5A
    ∷ 0x00004000018CE21400006000E0800000018CEF5801907FF8
    ∷ 0x0232CC35021080680190027407BD005A008CA362E0800000
    ∷ 0x07BF005A0627AC456246DC45018C02140210840A9D824C6E
    ∷ 0x018C1BC8E4C0000000000000020C9FFA6246DC45018C2214
    ∷ 0x0200A35802131B8802131BCAE08000001D820C6E018C8F78
    ∷ 0x00000000020C9FFAAC3DDC450627A2470212B78AE6200000
    ∷ 0x00000000018C4214B5826C6E01907F780216B7CA020C9FFA
    ∷ 0xAC3DDC45E88000000200A3580211F4880211F4CA00000000
    ∷ 0x018C6214ED826C6E018C8F78E400000000000000020C9FFA
    ∷ 0xAC3DDC45023000280211AECA00002000018C8214E0800000
    ∷ 0xAD826C6E018C8F7800000000020C9FFABC4DDC454C6EDC6D
    ∷ 0x02906286E6200000020FF82A86834C6E02948F7A02188CCA
    ∷ 0x0210AFFAAC3DDC4502120F5AE440000000004000018D0214
    ∷ 0x018DEF5800000000020C9FFA0A32DC4502108069E4100000
    ∷ 0x0034724607BD005A008CA36207BF005A0627AC456246DC45
    ∷ 0x018C0214E62000000627A24702118F8A8D820C6E01907F78
    ∷ 0x02158FCA020C9FFA6246DC45E8A00000018C221402040028
    ∷ 0x2C6E6A43018D6CA0018C8F7800000000020C9FFAE0800000
    ∷ 0xAC3DDC450203802802110ACA00002000018C42140D826C6E
    ∷ 0x018C8F78E420000000000000020C9FFABC4DDC454C6EDC6D
    ∷ 0x1673725D86834C6E02948F7AE7800000021887CA0210AFFA
    ∷ 0xAC3DDC4502120F5A00004000018C821400006000E0800000
    ∷ 0x018DEF5800000000020C9FFA1A32DC450210806900347246
    ∷ 0x07BD005AE5000000008CA36207BF005A0627AC456246DC45
    ∷ 0x018C02140210210AFD824C6EE9800000018C1EC800000000
    ∷ 0x020C9FFA6246DC45018C2214DA2206260C6EDA43ED000000
    ∷ 0x018FCCA0018C8F7800000000020C9FFAAC3DDC450627A247
    ∷ 0x0C6EBA23EE000000018C4214BD826C6E01907F780217BDCA
    ∷ 0x020C9FFAAC3DDC459A220626EC4000000C6E9A43018C6214
    ∷ 0x9D826C6E018C8F7800000000020C9FFAAC3DDC45E8A00000
    ∷ 0x0200A35802125388021253CA00000000018C821455826C6E
    ∷ 0x018C8F78E400000000000000020C9FFABC4DDC454C6EDC6D
    ∷ 0x0627B25D0212118A16832C6EEB80000002948F7A021A11CA
    ∷ 0x0210AFFAAC3DDC45018C6204020C939A0E52DC45E9100000
    ∷ 0x021080690034724607BD005A008CA36207BF005A043D22B4
    ∷ 0x033D02B6E0400000033CE2B4023CC2B6023C42D4023C4286
    ∷ 0x043CE29604BCC297072707A7E8002000039E178B02BD0296
    ∷ 0x03190F8A0726FE0302BD229504220CA3031B1E88E1000040
    ∷ 0x02101ECB01A71CA0018CCF7903A0EF7B02950CA201907FF9
    ∷ 0x0214CF7A019C7FF9BAE21E5201907FF8018CAFF902108068
    ∷ 0x0190027407BD005A008CA362E020000207BF005A043D02B4
    ∷ 0x033CE2B6033CC2B4023CA2B6023C82B4023C8296043CC296
    ∷ 0x04BCA297072707A7039E178B02BCE29603190F8A0726FE03
    ∷ 0x02BD0295E440040804220CA3031B1E8802101ECB01A71CA0
    ∷ 0x018CCF7903A0EF7B02950CA201907FF90214CF7A019C7FF9
    ∷ 0xBAE29E5201907FF8018CAFF90210806801900274E0800020
    ∷ 0x07BD005A008CA362DC458CF785F2AC4501908068018C0264
    ∷ 0x91C7EC35E990000002901FDA0190B9A0FC4D00B54C6EDC5D
    ∷ 0x02137B0A021402B607800852E1800000008CA36272468CF7
    ∷ 0x023C22F401BD02B4FC4506279247EC3D0210ACA2E6400008
    ∷ 0x021004CA00000000018F7B0800000000020C9FFA023C62F6
    ∷ 0x023D029401901FD8018C04C80000200002137B08018C8FF8
    ∷ 0x86F3EC350290806B10C591C7EA00000007800852008CA362
    ∷ 0x07BF005AAC45DC45023C22E60285002A02811AEAE1000000
    ∷ 0xC2C7DC7DBC5D94CD00002000039F7B0A021004CA0210EFFA
    ∷ 0x0218AAF6E060000007BD005A008CA36207BF005ABC4DAC45
    ∷ 0x0281802A02811AEA0301802AE100000003011AEABC5D94CD
    ∷ 0x000040000213CF5A02102FDA0218AAF607BD005AE0400000
    ∷ 0x008CA36207BF005ABC4DAC450300902A0284A35A03011AEA
    ∷ 0x00000000E080000002148CE2021802F607BD005A008CA362
    ∷ 0x07BF005A023C22F40180942801811AE8018C02656C6EBC4D
    ∷ 0x020C99E202102F5A0247DC453010A1200626848AEA408000
    ∷ 0x0204A35807BD005A008CA36202001C2B018589A80201316B
    ∷ 0x01C1F3E8019002F4019090590278F02A024AD26A020C0276
    ∷ 0x008CA36207BF005A023C42F6023C82B4023C82960302022A
    ∷ 0x0301316A0C6EDC5D6C6E954D021402F607BD005AE3000000
    ∷ 0x008CA36207BF005A023C42F6023C82B402BC82960302022A
    ∷ 0x0301316A000020000218AAF607BD005A008CA36207BF005A
    ∷ 0xAC45DC45104D7246018C8214E600040006A6AC4D8E037AA2
    ∷ 0x02100BCA018F7B0801907FF902149E4001902274E0600000
    ∷ 0x07BD005A008CA36272468CF7CC35AC45FC450627018CC264
    ∷ 0x0213CF5AE380002000004000018C2F5800000000020C9FFA
    ∷ 0xCC3DFC450213AF5A00004000E2000000018CA26461B06C6E
    ∷ 0x018C4F5800000000020C9FFACC3DFC4502136F5AE4400000
    ∷ 0x00004000018C826445826C6E018C8F5800000000020C9FFA
    ∷ 0xCC3DFC45E88000000212EF5A00004000018C626465826C6E
    ∷ 0x018D0F5800000000020C9FFAE1000000CC3DFC451213A247
    ∷ 0x00002000018C426485826C6E01907F78021484CAE2600000
    ∷ 0x020C9FFACC3DFC454C6EA243020C22644C6E01B20210ACA0
    ∷ 0x01906F78E2C0000000002000020C9FFADC4DFC454C6EFC5D
    ∷ 0xBAE3104D0E034C6E021007CAE780000002148FFAAC3DFC45
    ∷ 0x7A2206260000200001907E40020C027607800852E0C00000 ∷ []

pub length-lines_9 : length lines_9 ≡ 150
unfolding lines_9
length-lines_9 = refl
