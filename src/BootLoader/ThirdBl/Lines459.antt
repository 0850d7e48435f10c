-- ===== src/BootLoader/ThirdBl/Lines459.antt =====
-- inc/DSP_TBL_6678.h: the lines 459 to 608 of `_thirdBLCode_U0`, inside its second section.
use dspc8681_linux_driver.Base.{ℕ, ◌≡◌, refl, List, [], ◌∷◌, length}

unfoldable pub lines_459 : List ℕ
lines_459 =
    0x10C52C6E100F781201FFBA2801804368BC4DEC354C6EB1C7
    ∷ 0x858A18C5EE2080008E27EC4D0200007E0200A35801BCD2E6
    ∷ 0xA1EF6C6E07BF005A023C22F4E220000002901B2A0010BA7A
    ∷ 0x3012812002101FDA027F762802004369003405A6E8000000
    ∷ 0x81C68C8A02DD8C2A0280006A00148A7A3014A120027F9228
    ∷ 0x02004369E0208000003405A681C6888A86E912D33012A120
    ∷ 0x027FAE2802004369003405A6E8E0800081C6848A86E932D3
    ∷ 0x3010A120027FCA2802004369003405A681C6848AEC608000
    ∷ 0x0278A35807BD005A008CA36201BCD4F6EC659CE5AC45DC45
    ∷ 0x00180FDAE60000002005A1200208A35A0200007E00218120
    ∷ 0x0274A35802901B2A0010BA7A3020A12001FF6E2801804368
    ∷ 0x018C0265023C42E602FF702A0280436A9DC92C6EE8000000
    ∷ 0x3008812010DD93478EC96C6E2010A1200208A35A0200007E
    ∷ 0xBE26888AE8C08000027F662810033593020043690246DC4D
    ∷ 0x848AA2FA848AFE260200A358E70080000278A35801BCD2E6
    ∷ 0xA1EF6C6E9CE58CF7DC45EC650347AC452017A120E7800000
    ∷ 0x0208A35A0200007E00088120DE26BE2607800852008CA362
    ∷ 0x01BD54F6E1000000EC659CE5AC45DC4500981FDA500C8120
    ∷ 0x00180FDA2016A1200208A35AE06000000200007E00988120
    ∷ 0x0274A35802901B2A0010BA7A3058812005A69247E8000000
    ∷ 0x91C78D35DDE9BCC530448120028C1FDA023C42E6033C7EC2
    ∷ 0x2C6EAC4DE8600000E6B7A241D2C60C6E02460F9BD00BA120
    ∷ 0x00788120FC4DDE2602BD02E6E4E08009027F662802004368
    ∷ 0xA2512C6ED2C6A63710033712A4BA024600688120E5808080
    ∷ 0x027CA35801FF722801804368018C02656C6E9D4D9D4591C1
    ∷ 0x9D5D9CCDEE000000AE496C6E2FC8A120004881200200A358
    ∷ 0x02DD8C2A0280006A00148A7AE02000003014A120027F8228
    ∷ 0x100CE493D346DC4D020043690246C0C78E0AA47AED0080C0
    ∷ 0x8A0AFE260200A35886E912D33015A120135383471000D593
    ∷ 0x0246CC4DEAA08100860AA0FA860AFE2632D3062600148A7A
    ∷ 0x3017A120335383471000D193E4E084000246CC4D820AA17A
    ∷ 0x820AFE26DE26062601BD52E6A1EF6C6E01BD54F6E5E08000
    ∷ 0xDC45EC65AC45734601BC82F402901B2A0010BA7A30288120
    ∷ 0x02101FDAE060000401FF6E2801804368018C026401BCE2F4
    ∷ 0x027F722A0200436A9D45104DE810000001FF702801804368
    ∷ 0x018C0264AC4AAD3502DD8C2A0280006A00148A7AE1108000
    ∷ 0x301CA12001FF8A2801804368018C0264ECB56C6E027F8E2A
    ∷ 0x0200436AE20000009D45104D01FF8C2801804368018C0264
    ∷ 0x01BD22F40011A12000508120E03000009D5DDE264C6E91C7
    ∷ 0x0210A802DCC54C6E100E3813FC4DCC4D00456C6EED600000
    ∷ 0xCC4DDCCD100E7C129D4DACC5100E34126C6E9CCD9D4D0045
    ∷ 0x100E7C13E6A000220246ACCD880AA17AFC5DDE264C6EFCCD
    ∷ 0x6C6E10DD0010A9FA3012A120E3E08000BE26840ABD4D9CDD
    ∷ 0x10DD4C6EAE696C6E300CA120BE26840A0200A358E5E08000
    ∷ 0x01BD52E6A1EF6C6E07FFF052DC45EC65AC45734601BC82F4
    ∷ 0x02901B2AE34001000010BA7A3020812002101FDA01FF6E28
    ∷ 0x01804368018C0264ACB56C6EE8000000027F722A0200436A
    ∷ 0xDCC5104D01FF702801804368018C0264AD0AECB5E8908000
    ∷ 0x02DD8C2A0280006A00148A7A3022A12001FF8A2801804368
    ∷ 0x018C0264E010000001BCA2F4027F8E2A0200436ADCC5104D
    ∷ 0x01FF8C2801804368018C0264E1100000A10AECB5DE268A8A
    ∷ 0x9CDDBCED2C6EF3470098DBFA40128120000CB9FAE1E08000
    ∷ 0x3004A120BE26868ADCDD06C7F1CF83C70210E8020FBC42E6
    ∷ 0xC2C70C6EE9C080500210C80202A0A802A2414C6E027C02F6
    ∷ 0x0200A35807801052008CA362E080000001BCD4F6EC659CE5
    ∷ 0xAC45DC4500981FDA5010812000180FDA2016A120E0C00000
    ∷ 0x0208A35A0200007EBE268D8AB66912D3301C812012539247
    ∷ 0x1000E613E58080000400A3590246CC4D8627A2BA0200007E
    ∷ 0xFE26898A0626898A86E932D3EEC080003014A120CC4D3253
    ∷ 0x1000DE130400A358A4BA02460210A35A0200007EE2408008
    ∷ 0xFE26818A0626818A0278A35801BCD2E6A1EF6C6E07BF005A
    ∷ 0xAC45DC45EA6080000278A35807BD005A008CA36201BCD4F6
    ∷ 0x9192AC4501BC62F4027FEE2AE20000000200006A32529CC5
    ∷ 0x06278D1B1247CC452010A12026268A8A0C6E0C6EEDC09818
    ∷ 0x100DD0130627AC4DDC4D8726AC6DFC6D084D2C6E9CCDB99B
    ∷ 0xA4FA0246EFC0840C000A8120DC4DFE26084D6C6E1FFF4292
    ∷ 0x0200A35801BCD2E6A1EF6C6EE8C0002001BC94F60627AC45
    ∷ 0xDC5DDC45BE496C6E301CA1200261A8281FFEF713E1C00000
    ∷ 0x020000686C6EDC4DDC452641DC5DBC4DAE496C6E2FFAA120
    ∷ 0x01BC92E6E3C00000A1EF6C6E01BD94F6EC659CE5023C42F6
    ∷ 0x023C82B4BCC5062701800428E4A00000018129E8018C0264
    ∷ 0x018E7F0811C7CCB5302DA1203A12FA1B2641BCCDED108400
    ∷ 0x023CA2F60010A9DA2021A1200200122A020129EB01A05028
    ∷ 0x99920035E8000000018C92F90F88012A0F8C02760200102A
    ∷ 0x0200007E0132812006276626E80000000247BCC52FCCA120
    ∷ 0x01801228018129E90223502A020C027601BC8294E0200000
    ∷ 0x02000E2A020129EA00352C6E4626F21B104DDC4D0212180A
    ∷ 0x0232FCC5EB908040020129E900347246DD4506270233502B
    ∷ 0x01908058020C0276AD3525A6E8C000009DE9FC4D309CA120
    ∷ 0xBCC5062701800428018129E8018C026491C78D35E8B00000
    ∷ 0x0013DF0A301BA1200200122A020129EB01A0502899920035
    ∷ 0x018C92F9E40000000F88012A0F8C0276020010AA0200007E
    ∷ 0x00D281207A034626304BA120E4000000BCC506276227DD4D
    ∷ 0x300DA120104DDC4DFCC51E43DD4546274227AD0AEF708000
    ∷ 0x300AA120104DDC4D0211180A2627FCC5A90ADD4500102A5A
    ∷ 0x3018A120E3508000104DDC4D0212180A0627FCC5A50ADD45
    ∷ 0x104DDC4DFCC59A63DD456627EFB080006C6EDC4DDC458641
    ∷ 0x02B3FCCD028129EA10C52C6EE21BAC4ABCCD4626EEE08800
    ∷ 0x26416C6E023CA2F6001309DA2021A1200200122A020129EB
    ∷ 0x01A05028E020000099920035018C92F90F88012A0F8C0276
    ∷ 0x0200102A0200007E00728120E0200000BC8D66262F76A120
    ∷ 0x2641BD4DFC5DBD4500148BFA2F74A120003C82E6E1B00000
    ∷ 0x2050A120BCC5062701800428018129E8018C02648D356C6E
    ∷ 0xBA0391C7EC4000003017A1200200122A020129EB01A65028
    ∷ 0x99920035018C92F90208002AE2000000020C02764626D61B
    ∷ 0xBCC50627BCCDAA8ABCC526418EC902B32028A120E7D08004
    ∷ 0x0200122A020129EB01A00028D41B003581B24626018129E9
    ∷ 0x0220502AE3008080020C02760200102A0200007E6626848A
    ∷ 0x4626D21B6C6EBC8D2FC4A120E70081000200A35801BD92E6
    ∷ 0xA1EF6C6E01BD54F6033E02B67246EC65CC35AC45EC800800
    ∷ 0x47262727023E0295023C805B1FFFA492023E02D4003E0286
    ∷ 0x00006000E02000023006A12000E48120023E02841FFF9813
    ∷ 0x81B24626018129E90232502AE2000000020C0276ECB505A6
    ∷ 0x9DE9DC4D3084A120DCC5062701800428018129E8E2D00000
    ∷ 0x018C0264ACB56C6EDA0391C73021A1200200122A020129EB
    ∷ 0x01A05028E0C0000099920035018C92F90F88012A0F8C0276
    ∷ 0x020010AA0200007E00B48120E02000009A0346263020A120
    ∷ 0x01800C28018129E8018C026479E26C6E01BE22D4E4200000
    ∷ 0xDCC50627023C62E60280229E12556C6E6C6EFC4DFC452641
    ∷ 0x0C6EACCAEF2090004626C01B6C6EDCCDDCC52641001309DA
    ∷ 0x2023A1200200122A020129EBE0E0800101A0502899920035
    ∷ 0x018C92F90F88012A0F8C02760200102A0200007EE0400000
    ∷ 0x00648120DC8D6626000060002F9AA1206C6EFCCDFCC52641
    ∷ 0xFCDDDC4DEE400000AE496C6E2F88A12001801228018129E9
    ∷ 0x0226502A020C0276DCC50627E820000001800428018129E8
    ∷ 0x018C0264ACB56C6E9A0391C7301BA12001800C28E3000000
    ∷ 0x018129E8018C0264018F180801BE22D4DCC50627B61BAB4A
    ∷ 0xDCCD4626EE108800DCC52641001309DA201DA1200200122A
    ∷ 0x020129EB01A0502899920035E8200000018C92F90F88012A
    ∷ 0x0F8C02760200102A0200007E0014812002476626E8000000
    ∷ 0x2FC0A1200200A35801BD52E6A1EF6C6E01BD94F6EC659CE5
    ∷ 0x023C42D5E5000000CC357246BD459347104D91C7DD456C6E
    ∷ 0xFCC52627BCC50627BD5DBCCDEFE00000AA416C6E02D3DCC5
    ∷ 0x001489FA300AA120DCC582C700100FDA3072A120E2600000
    ∷ 0x9D45062764419D5D2C6E46430010ABFA302CA120DC7DFCCD
    ∷ 0x0F01882AE4E000000F90A35A0F0043EAFCE52661039C8AE6
    ∷ 0x027CBC420213C07A10752C6EE88000006C6E9D4D9D452641
    ∷ 0x9D5DDCCD66414C6EAE4946432FEAA120023D42E6E3E00000
    ∷ 0x01818828018043E800002000020C02769CEDDCDD023C8294
    ∷ 0x0C6E91C7EA00000056E0A65B023EC2D4003EC28600006000
    ∷ 0x3010A12000248120023EC284E02080014626A01BDCDDBCCD
    ∷ 0xA2416C6EDCCDBCC56C6EDD5DDD4582C16C6EDC8DEFE08001
    ∷ 0x2F8CA1200200A35801BD92E6A1EF6C6E01BDD4F6043CA2F4
    ∷ 0xEC659CE5E90000007246AC4501BC82D4DD458347FD459247
    ∷ 0x9D450627DCCDDCC56C6EDD5DEFA00001FCC5AA418EE902D3
    ∷ 0x3008A120FCC582C700100FDA308CA120BD450627E9600000
    ∷ 0x6441BD5D2C6E46430010ABFA304AA120033D02E6043C62E6
    ∷ 0x023D02E6E06000000FBD22E4030188285750E34702208A97
    ∷ 0x04A006A30318205A02992A96E080000086FC940677C07406
    ∷ 0x1E03663C02960CA20210AFFA0F10A359039D0CA0E0E00012
    ∷ 0x0290FFF9027BFC41030043E801946FF90034C24A86419D4D
    ∷ 0xBD4D9D45EE100000BD452641BD5DFCCD66414C6EAE494643
    ∷ 0x2FC8A120023D62E601818828E1E00000018043E800002000
    ∷ 0x020C0276BCEDFCDD023D02940C6E91C756E0925BED009000
    ∷ 0x023F02D4003F0286000060003006A12000108120023F0284
    ∷ 0x1FFF181302008028FCDDDCCDA2416C6EFD4DDCC5A2416C6E
    ∷ 0x02C7FD452F7BA1200200A358E3E0000001BDD2E6008CA362
    ∷ 0x01BCD4F60627AC450992BCC5018129E8018C0264E3100000
    ∷ 0x018E7F0811C78CB53029A1203A12861B6C6EBCCDBCC52641
    ∷ 0x0010A9DAE7408040201BA1200200122A020129EB01A05028 ∷ []

pub length-lines_459 : length lines_459 ≡ 150
unfolding lines_459
length-lines_459 = refl
