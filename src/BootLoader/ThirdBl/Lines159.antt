-- ===== src/BootLoader/ThirdBl/Lines159.antt =====
-- inc/DSP_TBL_6678.h: the lines 159 to 308 of `_thirdBLCode_U0`, inside its second section.
use dspc8681_linux_driver.Base.{ℕ, ◌≡◌, refl, List, [], ◌∷◌, length}

unfoldable pub lines_159 : List ℕ
lines_159 =
    0x008CA36207BF005A1247AC4530000590FE414C6E023C22F6
    ∷ 0x02470C6EEA8000002FFFFF10EE414C6E023C22F607BD005A
    ∷ 0x008CA36207BF005A9247AC45E8400000021022E60287FFAA
    ∷ 0x8EE94C6E300BA12000A881209247FE26FAB3B04DEC800000
    ∷ 0x8EE94C6E3007A120009881206246FE26018C22640200882A
    ∷ 0x020118EAE120000000002000018F5A08AC3D0035018C2264
    ∷ 0x018E790801BC42F402019428E0900000020131686C6E003C
    ∷ 0x018D92C8DC4D003401900FD8020C02640280A35AE1400000
    ∷ 0x0295928A02919CA0000000000214BF7A02109FFA020C0276
    ∷ 0x304DBC4DE810000026432641DC45EE41020C026600006000
    ∷ 0x0211080A020C0276B1C7DC4DE86000002C6E10ED01931CA0
    ∷ 0x018C17C800000000020CDFFA86D110C56C6E10CDEC200000
    ∷ 0x02120F5ACC3D10C5105D82C700002000018E9C0800000000
    ∷ 0x028CBFFAE0C000008E5110556C6E10CD021005CAAC3D10C5
    ∷ 0x02941FD80F94026400002000E1600000020CA26402135A08
    ∷ 0x01FC8FF8019402740280842A028118EA021402E6E0100000
    ∷ 0x021276CA10CD10C572236C6E062610C507BD005A008CA362
    ∷ 0x01BCD4F6E1C000002627AC45023C82D61FFF919202118C28
    ∷ 0x1FFFCC930200016801808428E0200000018118E8018C0264
    ∷ 0xF223062700002000020C9F7A02479CC53040A120E4800000
    ∷ 0x0201962A0201316A6C6E105D1055C2A302008028020118E8
    ∷ 0x6C6E003CE9800000018FCF58B2470034A24310CD267210C5
    ∷ 0x0A12E05B003C92C00034F1A2EFD08080021402E602104FDA
    ∷ 0xDE5B10C5021B5AA8003C92C6018FAF58A84A0034EA908020
    ∷ 0x0280802A028118EA021402E60213CF5A92C610C5A1C2003C
    ∷ 0x26720034EE102000DD5BDA5B0627AC4DFC4DFC454C6E82F3
    ∷ 0x0C6E8EC93028A1210C6E0C6EEBE092021FFFB09302009628
    ∷ 0x01809E28018118E8018C0264000C2F58FC4DA63AE8108000
    ∷ 0xFC4526416C6EFC4D00148BFA2FF0A1206C6EFC4D00148A7A
    ∷ 0x3013A120E260000000968120AC3DFE2602008E28020118E8
    ∷ 0x00002000018C4264E9A26C6EE8400000AC3D00340200B228
    ∷ 0x020118E800002000018C6264E9A26C6EBC4D0034EC200000
    ∷ 0x0F80062A905D4C6E0213F07AEAA34C6E029002F601913DC0
    ∷ 0x020C0264E14000004C6E561302109FFA020C0276020C5DC0
    ∷ 0x6C6E003C018C2FD806270034EA200000FC4DFC454C6E82F3
    ∷ 0x00148BFA3020A1201FFF98930200962801809E28E0600000
    ∷ 0x018118E8018C0264000C2F58FC4DA43AFC4526418EC9FC4D
    ∷ 0x2FF8A120E710800086E9FC4D3006A120FE268D8A0280802A
    ∷ 0x028118EA021402E602110FDAE0B08000C65B10C5021B5B28
    ∷ 0x003C92C6018EEF58019002740208C628020000E9E0B08002
    ∷ 0x1FFF88920280842A028118EAF24310CD0A1210C50210B2F8
    ∷ 0x01900264E3100000018C2FD801900274023C82C401BCD2E6
    ∷ 0xA1EF6C6E01BC94F625A6AC45EA00000001BC82D4AC3DA2DB
    ∷ 0x4C6E0626020C027401808828018118E8018C0264E0C08000
    ∷ 0x4C6EBC4D018F5A08019022F401808A28018118E8018C0265
    ∷ 0x6C6EBC4DE82000000190A2F401808E28018118E8018C0265
    ∷ 0x4035BC4D0180B228018118E8E2100000018C02656C6EBC4D
    ∷ 0x019062F40200B82A020118EB104DBC5D90C56C6EEC400000
    ∷ 0xFC45924782F3FC4D8EC94C6E3020A1201FFF709302009628
    ∷ 0x01809E28E0E00000018118E8018C0264000C2F58FC4DA43A
    ∷ 0xFC4526418EC9FC4D2FF8A120E71080006C6EFC4D00148A7A
    ∷ 0x3008A120FE26828A023C82C401BC92E6A1EF6C6EE9208000
    ∷ 0x01BD54F60180102801813168018C02643223062700002000
    ∷ 0x020C9F7AE2000000023C22F602019C2A0201316ADC45104D
    ∷ 0x0201D62A0201316AFC45104DE91000009CC59213BCC50627
    ∷ 0x1FFF2192004403E220D5A12002019E2802013168E0600000
    ∷ 0x6C6E003C0034C1A2003C8E40F1A26C6E003C003400006000
    ∷ 0x018C05C8E3E00000BCCD00344C6E003C02135A0A00000000
    ∷ 0x01907FF8003C003400006000E4600000018CD2C89CCD0034
    ∷ 0x01900FD8020C02640280A35A0294D28A0210CCA2E0400000
    ∷ 0x0210AF7A0000000002109FF8020C027426419CCDEE412643
    ∷ 0x81C6DCC5EE1000006C6E003C018D0808DCCD00344C6E003C
    ∷ 0x02130CA2021017CA020C9FFAE1A00000864010446C6E003C
    ∷ 0x018E0F58A246003400BCCCCD0000400002129C08E3600080
    ∷ 0x018C8FF8B2C700B4CA2310CDA05B10C5020DAC2801940FD8
    ∷ 0x020C0266E1D080800211AD8A020C02766C6E10CD10C5CA43
    ∷ 0x0208B828020000E98DC09E5BE9808000F1C2003C62460034
    ∷ 0x018C026491C7CC350211B30A9CC52641020C1FDAE5700000
    ∷ 0x02135A0ABCC526416C6E9CED0299ACA201999CA010116413
    ∷ 0xECC572C0E8C000000200322A1010B812FCED8D458273B247
    ∷ 0x02148572CA414C6EB6400C6EED8020601010B413AD454E27
    ∷ 0x00113ADA3012812002101FDA0212C05A9D4DBD45E8500000
    ∷ 0x9D45264100068120FE26262601BD52E6A1EF6C6E062631F7
    ∷ 0x1FFED912E6A008001FFECD13662746260C6E66261FFECD13
    ∷ 0x02101FDA1FFEDC930200A358E0C000041FFEDE12A2AA0246
    ∷ 0x1FFEDE1302460626D004A1201FFED1130208A358E1408000
    ∷ 0x1FFEC513021CA359020CA35A1FFEC5130220A359020CA35B
    ∷ 0x00000001000000001FFEC11366272E261FFED0930208A358
    ∷ 0x1FFED612A56A02460C6E0C6EEC4098041FFED21302464626
    ∷ 0x71F7A03AA1EF6C6E01BCD4F60201982A0201316AE1C08000
    ∷ 0xBC45104D0181D62801813168018C0264E627CC350627FC45
    ∷ 0x023C82F6E63000001FFED192004403E22099A12002019A28
    ∷ 0x02013168C1A2003C8E400034EC1000006C6E003C0034F1A2
    ∷ 0x6C6E003C018C05C8A246003400BC8CCD00004000E6E00200
    ∷ 0x02135A08018C8FF882C600B46C6E003C018CD2C8FC4D0034
    ∷ 0x01900FD8E5800000020C02640280A35A0294D28A0210CCA2
    ∷ 0x0210AF7A0000000002109FF8020C02746C6EFC4D26432641
    ∷ 0xBCC5EE41003C81C600006000018D0808BCDD0034E9E00000
    ∷ 0x114DD2C71E832C6E029417CA0210AFFA864011456C6E003C
    ∷ 0x018E0F58E6600000BCDD0034114DD2470000400002969C0A
    ∷ 0x0210AFFA003C1145A9A26C6EEC600002019002741FFEF093
    ∷ 0x020DAC2810CDA34710C5AA430208B8281FFEF093E3100000
    ∷ 0x020000E8003C82C60034F1C2104D92C77246BC45018DB308
    ∷ 0x35C10C6EEBD00000AC3DFC45018F5A088CB525B0000A8120
    ∷ 0xFE26262601BCD2E6008CA362E2B0000001BD54F601880028
    ∷ 0x018001686DA68D35018024BC922306272627BC45ED000000
    ∷ 0xFC45DC458CB57246DCC5ACB50E37FCC51FFEB5930C6E4626
    ∷ 0x00000000E5E00C801FFEB913023C805B0208A35801BD52E6
    ∷ 0xA1EF6C6E01BF54F6DC45B247EA00100002BC82B60204A35A
    ∷ 0x023CC2D6BF45DC4D1FFE9D920261A82810021B13E1100000
    ∷ 0x020000681FFE9E93062686376C6E9CCD0211B6CA023C82F6
    ∷ 0x1FFEA492E18000101FFE9A939CCD86379CC5B2231FFEA092
    ∷ 0x1FFE9A938E2686377A239CCDECD00400023C82F61FFE9C92
    ∷ 0x1FFE9693062686376C6E9CCD0211EFDA023C82F6E3000040
    ∷ 0x1FFE98921FFE9293F21286376C6E9CCD9CC52A231FFE9892
    ∷ 0x9CC5DA53EB8000101FFE94937246462666268CB51FFE9492
    ∷ 0x86269CC51FFE94928CB531D2EAC002201FFE9093A62691C7
    ∷ 0x8CB519B21FFE9093C62691C79CC55A331FFE9093E6C00104
    ∷ 0x8233E6260E269CC51FFE8C929CC502331FFE8C9382532E26
    ∷ 0x4E269CC5ED6020081FFE88929CC5BE531FFE88937246CE26
    ∷ 0xEE268CB51FFE88929CC5DE33EB4002001FFE84934E531212
    ∷ 0x32129CC51FFE84929CC52E331FFE8493E6335212EAC00020
    ∷ 0x72129CC51FFE80929CC5DE131FFE809326339212B2129CC5
    ∷ 0x1FFE8092E6A008029CC55E331FFE7C9302000B281FFE4113
    ∷ 0xA636C6376C6EBCCDBCC5EA43EE200100023F02961FFE4493
    ∷ 0x023CA2E41FFE3D13C637A6366C6EACBDACB5E9A2EE000100
    ∷ 0x1FFE4093023F0297020C0FD81FFE3913C637A6366C6EBCCD
    ∷ 0xBCC5EA43EE000100023F02961FFE3C93023CA2E41FFD5D92
    ∷ 0x1FFD62130228B128023C82960000600000104A5A3027A120
    ∷ 0x1A12AF3D0210806800002000018C226400346C6EE8800000
    ∷ 0x0232AF3D0210806800002000018C426400346C6E023F22E6
    ∷ 0x0F80042AE2200000705D4C6E0213F07A10554C6E8627E84A
    ∷ 0x020026BE019CA358018025BCE1A080000200102A020024BE
    ∷ 0x01800BA8018023BC01A4A358018022BC0220A35A020021BE
    ∷ 0x020020BE1FFD5513120008FC003C82962046A120018CA358
    ∷ 0x01802FBCE01000000190A35801802EBC0200FFAA023EC2D6
    ∷ 0x018038A801BEA2D4020CA35A020028BE0200A35A020029BE
    ∷ 0x1FFD7313EDA64E36018038BC0200352A023F62D6E1000000
    ∷ 0x0200A35A020034BE01801FA8018033BC0190A358018032BC
    ∷ 0x0214A35A020031BE020030BE1FFD8C13D04A8E36018CA358
    ∷ 0x01802FBC0190A35801802EBCE08080000200FFAA023EC2D6
    ∷ 0x01803D2801BEA2D4020CA35A020028BE0200A35A020029BE
    ∷ 0x1FFD6313EDA64E36018038BC020039AA023F62D60200A35A
    ∷ 0x020034BEE040000001801FA8018033BC0190A358018032BC
    ∷ 0x0214A35A020031BE020030BE1FFD8013EDA68E3601BF02B4
    ∷ 0x023FFFAA0211205AACCDBCC51FFE0893023F0296E2200000
    ∷ 0x01990A28018023DC020CA35A020045BE0204A35A020044BE
    ∷ 0x01901FD8018043BC018042BC020041BE0200A35A020040BE
    ∷ 0x1FFDB49305A6163601804CBCE4000000020C1FDA02004BBE
    ∷ 0x01804ABC018049BC020048BE1FFD9593120012FC023C8296
    ∷ 0x42276C6E3010A1200A93BF4D0290806A104D2C6E10C56C6E
    ∷ 0x0056A120E6A000001FFC941345A6963601805DBC0200A35A
    ∷ 0x02005CBE020CA35A02005BBEE0400000003C82962008A120
    ∷ 0x8627630A02005ABE0214A35A02005ABE0228A35AE0908000
    ∷ 0x020059BE0180A358018058BC0188A358018057BC0204A35A
    ∷ 0x020056BE0200A35A020055BE01901FD8018054BC018053BC
    ∷ 0x018CA358018052BC020051BE020C1FDA020050BE1FFCA913
    ∷ 0x120014FC026948281FFE4893020006681FFD0A13020A2828
    ∷ 0x1FFDB6131A7707270312262604000040C40694071FFDC813
    ∷ 0x2212D407EAC0123C020E68281FFE409302002068023CC2C4 ∷ []

pub length-lines_159 : length lines_159 ≡ 150
unfolding lines_159
length-lines_159 = refl
