-- ===== src/BootLoader/ThirdBl/Lines609.antt =====
-- inc/DSP_TBL_6678.h: the lines 609 to 758 of `_thirdBLCode_U0`, inside its second section.
use dspc8681_linux_driver.Base.{ℕ, ◌≡◌, refl, List, [], ◌∷◌, length}

unfoldable pub lines_609 : List ℕ
lines_609 =
    0x99920035018C92F90F88012AE20000000F8C02760200102A
    ∷ 0x0200007E011A8120062766260247BCC52FD9A120E6000000
    ∷ 0xCE279293028129EA021402F602145EC301A3502831D20035
    ∷ 0x02143EC2E4200802019002F402145EC301B3502846260035
    ∷ 0x1FFEFC1202B39673028129EAE5000080462610C51FFEF812
    ∷ 0x01800428018129E8018C0264EC356C6EDA0391C7EC200002
    ∷ 0x301AA1200200122A020129EB01A0502899920035018C92F9
    ∷ 0x0F88012AE20000000F8C0276020010AA0200007E00CA8120
    ∷ 0x0208A3581FFEF013FC4D4626E810000002137F0A00100A5A
    ∷ 0x3010A1206C6EFC4D02137F0A00100A5A2006A120E1000000
    ∷ 0x062702B3028129EA462610C51FFEE81201800428018129E8
    ∷ 0x018C0264E0B0002291C7EC350013DF0A3020A1200200122A
    ∷ 0x020129EB01A0502899920035E8200000018C92F90F88012A
    ∷ 0x0F8C0276020010AA0200007E004581200208A35900000000
    ∷ 0x1FFEDC13FC4D462602137F0A00100A5A3014A120023C62E6
    ∷ 0x02137F0AE050000000100A5A2FFAA120DC450627001189DA
    ∷ 0x3056A120BC4DDC5DB64D6C6EEC8000000280102A028129EA
    ∷ 0x10C52C6E1FFED41309924626018129E8018C0264E2900000
    ∷ 0x91C7EC350013DF0A301CA1200200122A020129EB01A05028
    ∷ 0x99920035E8200000018C92F90F88012A0F8C0276020010AA
    ∷ 0x0200007E46268E8A02137F0AE400800000100A5A300CA120
    ∷ 0x020C1FDA02137F0A00100A5A2004A1202641DC4DE8100000
    ∷ 0x023C42F6001189DA2FBAA1200200122A020129EB01A65028
    ∷ 0x99920035E8000000018C92F90208002A020C02761FFEC013
    ∷ 0x0626462601BCD2E6A1EF6C6EEA00000001BD14F60627AC45
    ∷ 0x09929CC5018129E8018C0264018E7F0811C7ACB5E8D00000
    ∷ 0x3025A1201FFEB8139CCD3A129CC526410010A9DA2027A120
    ∷ 0x0200122AE1900000020129EB01A0502899920035018C92F9
    ∷ 0x0F88012A0F8C02760200102AE08000000200007E01788120
    ∷ 0x0627662602479CC52FD5A12046279293028129EAE5800800
    ∷ 0x021402F602145EC301A3502831D2003502143EC2019002F4
    ∷ 0x02145EC3E100008001B35028462600351FFEA81202B39673
    ∷ 0x028129EA462610C51FFEA812E540080801800428018129E8
    ∷ 0x018C0264EC356C6EDA0391C73026A1200200122AE3000000
    ∷ 0x020129EB01A0502899920035018C92F90F88012A0F8C0276
    ∷ 0x020010AAE08000000200007E012881200208A3581FFE9C13
    ∷ 0xFC4D462602137F0A00100A5AE2100000300AA1206C6EFC4D
    ∷ 0x02137F0A00100A5A2002A120062702B3028129EAE4400800
    ∷ 0x462610C51FFE941201800428018129E8018C0264EC356C6E
    ∷ 0xDA0391C7EC200002301AA1200200122A020129EB01A05028
    ∷ 0x99920035018C92F90F88012AE20000000F8C0276020010AA
    ∷ 0x0200007E00E881200208A3581FFE8C13FC4D4626E8100000
    ∷ 0x02137F0A00100A5A3010A1206C6EFC4D02137F0A00100A5A
    ∷ 0x2006A120E10000001FFE841392934626028129EB10C58E27
    ∷ 0x72B011920232502A020C0276E34002001FFE801305A64626
    ∷ 0x01BC42F4000D99DA3054A120CC3D1A13020129EBE4400400
    ∷ 0x104DAC4D76446C6E1FFE7C1309924626018129E8018C0264
    ∷ 0xEC356C6EE9600000DA0391C7301CA1200200122A020129EB
    ∷ 0x01A0502899920035018C92F9E42000000F88012A0F8C0276
    ∷ 0x020010AA0200007E004481200208A35802139F0A00100A5A
    ∷ 0x300AA120020C1FDA02139F0A00100A5A2002A1206C6EDC4D
    ∷ 0xDC452641EC000000001189DA2FBAA1200280122A0226502A
    ∷ 0x028129EA462610C51FFE6C12E40008009CC5062701800C28
    ∷ 0x018129E8018C026401BF02B401800428018129E8E0300000
    ∷ 0x018C0264EC356C6E9A0391C73020A1201FFE641319924626
    ∷ 0x018129E8E4C00000018C026401BF02B4003F0296300BA120
    ∷ 0x1FFE601306274626ACCA9CC5EC1080001FFE5C139CCD4626
    ∷ 0x9CC52641001309DA2023A1200200122A020129EBE0D00000
    ∷ 0x01A0502899920035018C92F90F88012A0F8C02760200102A
    ∷ 0x0200007EE040000000088120024766262FBAA1200200A358
    ∷ 0x01BD12E6A1EF6C6E00000000E440000007BF005AAC45DC45
    ∷ 0x023C22E60285002A02811AEAC2C7DC7DBC5D94CDEC400000
    ∷ 0x00002000039F7B0A021004CA0210EFFA0218AAF607BD005A
    ∷ 0x008CA36207BF005ABC4DAC450284002A02811AEA84BD2C6E
    ∷ 0x00006000020F5A0807BD005AE1200000008CA36207BF005A
    ∷ 0xBC4DAC450281802A02811AEA0301802A03011AEAE0800000
    ∷ 0xBC5D94CD000040000213CF5A02102FDA0218AAF607BD005A
    ∷ 0x008CA362E020000007BF005ABC4DAC450300902A0284A35A
    ∷ 0x03011AEA0000000002148CE2E0400000021802F607BD005A
    ∷ 0x008CA36207BF005A023C22F40180942801811AE8018C0265
    ∷ 0x6C6EBC4D020C99E202102F5A0247DC45300DA12000108120
    ∷ 0x26260626E920000007BD005A008CA36207BF005A023C22F4
    ∷ 0x0220002A0238006ADC5DDC45E8000000023C829612C56C6E
    ∷ 0x07BD005A008CA36207BF005A023C22F40210002AE0400000
    ∷ 0x0238006ADC5DDC45023C829612C56C6E07BD005A008CA362
    ∷ 0x01BC94F6E14000000627AC45023C42F61FFD0F1381F22626
    ∷ 0x01906068018C0264018C2F58E1300000A32A21A66C6EDC4D
    ∷ 0xDC452641DC5DBC4DAE496C6E2FF4A120DC5DBC4DEBE08000
    ∷ 0xAE496C6E2007A120000881200626262601BC92E6A1EF6C6E
    ∷ 0x07BF005AE5200000023C22F40201FFAA0201FFEA05D2DC45
    ∷ 0x01906068018C02644C6EB247E900000001907F7885D200B5
    ∷ 0x01906068018C0265BC5DDC4D0000400001907F78E2400000
    ∷ 0x0E5320B50210606B104DCC3D4C6EBC5D01907F788DD240B5
    ∷ 0x01906068E5A00000018C0265BC5DDC4D00004000020C9F7A
    ∷ 0x021462F607BD005A008CA362E040000001BD54F6AC45DC45
    ∷ 0x00101FDA3012A1200180602801906068018C0264E0500000
    ∷ 0xE10AEC358636F59B023E09430F80A35A0FBC62F6023D02F6
    ∷ 0x007C49DAE06080043074A1208D3DDC4D26514C6E02BC42F6
    ∷ 0x028C026612556C6EDC5D8D4DECC000000F807E2862462C6E
    ∷ 0x02100264020C0266DC6526E1CE420C6E0193EF78E6400008
    ∷ 0x0212DE0A020C9FFA8D3D12C51672DC4DB1C72C6E018C2264
    ∷ 0x029402E6E38002000F90205A0FBC42F685820C6E018C8F78
    ∷ 0x0314DC0A028CDFFA9D4D1255E88000000F3C42E62C6E0753
    ∷ 0x7246305D018C22640EF8205A0EBC42F6029549A2E0C00000
    ∷ 0x0294CF7A018EDA0801947FF801F802B48D4DCC3D25D04C6E
    ∷ 0x204CCC55EE000000000060000210D808020C02349D4DFC5D
    ∷ 0x26D14C6EFC550641023D02F6E7000400001449DA2F92A120
    ∷ 0x01BD52E6A1EF6C6E01BE54F6AC45DC45FC450627ED000000
    ∷ 0x001148DA301AA12002BC42E60F807FAA96CD4C6E00006000
    ∷ 0x007C8A7AE2000000300DA1202641FC4D023C62F6001148DA
    ∷ 0x2FF4A12001888120DC4D0626E8500000124D9D4500006000
    ∷ 0x0212D60A023D02D6023D02E40201E02A62464C6EE8222000
    ∷ 0x02102204018C0204C6024C6E018E1A0802109F7A020C9FFA
    ∷ 0x023D22D6E08000006C6E9D4D6C6E324D0212560A023D42D6
    ∷ 0x023D02E40281FE2862464C6EE862200002104204018C2204
    ∷ 0x46024C6E018E1E090210AF78018C8FF801BD62D4E0800000
    ∷ 0x023D02E40281802862464C6E02106204018C42040E024C6E
    ∷ 0x0210AF79E4800020018D09A0018C8FF801BD82D46C6E9D4D
    ∷ 0x6C6E724D0212960A023DA2D6E3020000023D02E60F81F82A
    ∷ 0x72464C6E018C62050290828686836C6E018E1C08E4800800
    ∷ 0x0217EF7A020C9FFA023DC2D601BD02E4018C8204018E1608
    ∷ 0x01BDE2D4E0100000FC45E627001008DA201AA120023C9A42
    ∷ 0x029102860F805E2A0F90606AE02000000000200002FC02F6
    ∷ 0xEE41FC4D5227FC453FF6A1200180322801906068E1900000
    ∷ 0x018C0264EC356C6E1FFF9713DD4D4E369DEDFD5D2C6EBDFD
    ∷ 0x0210AFFAE74000000210CFFA0010EFFA2009A12000C88120
    ∷ 0x165306260210606AFC45104DEA1000000180302801906068
    ∷ 0x018C02640200302A0210606AA9C22C6E0035A9A2EC000000
    ∷ 0x0180322801906068018C0264AB0A8E3501806C2801906068
    ∷ 0x018C0264E110800001BC62F4009881201DD2062601906068
    ∷ 0x018C0264EC356C6E00988120E480000091C7FE260211DE0A
    ∷ 0xDDC52641001DA1201FFC8713B80AA626020C1FDAE4A08000
    ∷ 0x00129C0A3FD8A12000802A5A4FE5A120B227CC413FF1A120
    ∷ 0x0627BE0AEA008000FDC5FC45DDCDFC5DAE496C6E3066A120
    ∷ 0x6C6EFC4D00102ADA3020A120E2E0000002006A2A0210606A
    ∷ 0x9E45104D01806E2801906068018C0264A74AAE35E8908000
    ∷ 0x0200682A0210606A9E45104D01806C2801906068018C0264
    ∷ 0xFC4DAE35E890000000102F5A300AA12016239E4D91C79E45
    ∷ 0xBE451623023E02E60212D60AE3900000023E02F6028103AA
    ∷ 0x9E45AA417E283EB0BC6DA67ABE4DA247B77D2C6EEF808000
    ∷ 0x00006000021C8DFAFDCDB74526416C6EFC4DFDC526416C6E
    ∷ 0xDDCDFC45EF8000006C6EFC5D0010ABFA2FA8A120023DE2E4
    ∷ 0x01BE52E6A1EF6C6E07BF005AE42000000627AC4502139E8A
    ∷ 0x124DDC454C6EB247021402B607BD005A008CA362E1A00000
    ∷ 0x01BC94F6AC45DC45FC4506276C6EFC5D0010BBFA3020A120
    ∷ 0xCC4DFD9BE9C090006C6EDC4DDC4526416C6EFC4DFC452641
    ∷ 0xFC5DBC4DAE496C6E2FFCA120E7E000000200A35801BC92E6
    ∷ 0xA1EF6C6E01BD54F6EC659CE5DC45B2470627BC55EE800400
    ∷ 0x82C7DCC56C6E584D1252FCC51FFF39121FFC5313FCCD4E26
    ∷ 0xDC6DFC5DECE000209A632C6E0297720A0210AFFB029A860A
    ∷ 0x0210AFFA7246BCC599E29D1BEC2090009B1BACBD020DF808
    ∷ 0x9B1BACBD020CF8089B1BACBD020CDF090C6E0C6EEAB09222
    ∷ 0x1FFC47130228A358024350281FFF3713020000E81247CCC5
    ∷ 0x3016A120E40000000200112A0200007E26268A0A6C6EBC4D
    ∷ 0xF21BE04D949B9CCD02003828E7808A001FFC3F13ED9B4E26
    ∷ 0x120008FC0200209E02102F5A00102A5A3017A120E0508008
    ∷ 0x020011AA0200007E000881200626262601BD52E6A1EF6C6E
    ∷ 0x01BF54F6E50000007246B347D247DCD5BC65CC35107D525D
    ∷ 0x023D805A52552C6E06271075EDE4000AFD45FCC501810028
    ∷ 0x018043E8030C8244020C03642C6ECDB6030C8254E4200000 ∷ []

pub length-lines_609 : length lines_609 ≡ 150
unfolding lines_609
length-lines_609 = refl
