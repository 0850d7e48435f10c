-- ===== src/BootLoader/ThirdBl/Lines759.antt =====
-- inc/DSP_TBL_6678.h: the lines 759 to 908 of `_thirdBLCode_U0`, inside its second section.
use dspc8681_linux_driver.Base.{ℕ, ◌≡◌, refl, List, [], ◌∷◌, length}

unfoldable pub lines_759 : List ℕ
lines_759 =
    0x020C03446C6EDC8D200AA12000DC81200208A358027E502A
    ∷ 0x0200436AE0400000023D22F6027F502A0200436AACBD9D45
    ∷ 0x4C6E9CCD018E86080213720AE3000000020C9FFA869BDD45
    ∷ 0x0200A3581FFC2713CD3D4E2699E2891B891BCD3DEE50A408
    ∷ 0x020DF808871BCD3D020CF808871BCD3D020CDF081FFC2313
    ∷ 0x0228A358E1508088024350281FFF0F13020000E81247ED45
    ∷ 0x3013A1200200102A0200007EE1000000008C812001F22626
    ∷ 0x01906068018C02640200302A0210606A89C22C6EE8400000
    ∷ 0x018D8C88019002F4027F722A0200436A021002E41FFFB813
    ∷ 0x023D22E7000000001FFC1313901B4E262626D6379D4DDA1B
    ∷ 0x020008281FFC131306274E26E9C080D8023CE2F6001148DA
    ∷ 0x3024A12002BC807B9D4D1B330314CA960FBCE2E6E2000100
    ∷ 0x0F00242AD64D2C6E02BFE07A000040000217CAB66C6EFCCD
    ∷ 0xFCC52641EC400000001148DA2FE6A120027E502856379D1B
    ∷ 0x02004368A43A522626268F0AED0080C01FFEE91302003828
    ∷ 0x1FFC0313CF9B4E2612000CFC0200309E02102F5AE1108080
    ∷ 0x00102A5A300AA120020011AA0200007E2626870A01FF7229
    ∷ 0x027E502AE200800001804369023CC2E50200436A100B8C13
    ∷ 0x030C02640200A35801BF52E600006000008CA36201BCD4F6
    ∷ 0xBC450627CC3565A67246EC3581C6ACB51FFEC892E7800800
    ∷ 0x1FFEB8136627CC4D1FFECC13023C22E41FFED1930246AC4D
    ∷ 0xBCCD693AEC4090040281F42A00148BFA3014A120BCC52641
    ∷ 0x1FFECD930246AC4DBCCDA53AED0080008EC96C6E2FF6A120
    ∷ 0x1FFEB7938CC5EC4D00107A5A2014A1200200122AE1200000
    ∷ 0x0200007E26268E0A05A612130210606B018C5D8811D20035
    ∷ 0x01907078E4C08010018C02640F80302A0F90606A00002000
    ∷ 0x018FCF58018C2FD801FC02F4027C02E60180302801906068
    ∷ 0x00002000021085CA020C027602002E2A021072FB0F804028
    ∷ 0x0F9002F40291FD4310C5A6270200A35801BCD2E6A1EF6C6E
    ∷ 0xF25B31F7EC808000A13A024626268ECA1FFEBD1302007FA8
    ∷ 0x1FFBD7130228A35802435028E06080001FFEC313020000E8
    ∷ 0xA43A02460200102A0200007E26268ACA0C6E0C6EEC809800
    ∷ 0x1FFEB513020038281FFBCF13B59B4E26023C9058023C8296
    ∷ 0x02102F5AE110808000102A5A300AA120020011AA0200007E
    ∷ 0x262682CA71F70626A1EF6C6EEE00800001BD14F69247AC45
    ∷ 0x105502936C6EBC4D161230551FFEAD130C6E0C6EEBC01208
    ∷ 0x1FFBC3130228A3581FFEAE130200A3581FFBC313AF9B4E26
    ∷ 0xBC4DAC4DEC00880096406C6E1FFF5B12ACB505A6CC358CB5
    ∷ 0x0288002A000CB9FA305A8120E1A00002DCC591C7027E5028
    ∷ 0x0627131202004369100A9812033CA2E5037E502AE0A00020
    ∷ 0x0300436BDCCDAC4D1FFF61921247EC45300DA120003C8120
    ∷ 0xBC4D7212E940000802FE502A0280436A0C6EFDF26C6E384D
    ∷ 0x6C6EB64DA5BA7668DC4DBC5DEF8080002C6ED1C76C6EB8DD
    ∷ 0xA34A96E5DC4DBC5D2C6E07276C6EB8DDDC4D96E5EFE08000
    ∷ 0x26416C6E023C42F60288002A00148BFA2FC1A1200200A358
    ∷ 0x01BD12E6E0300000008CA36201BC54F61FFFCF1201BC52E6
    ∷ 0x00006000008CA362000000000000000001BC94F6023C22F4
    ∷ 0x100BE0120627EC45DC5DDC45BE496C6E3022A120E7000000
    ∷ 0xDC4DBC5D86CD6C6E1FFB88126C6EDC4DDC452641DC5DFC4D
    ∷ 0xAE496C6EEF6000082FF0A12001BC92E6A1EF6C6E01BF14F6
    ∷ 0xACB505A6FCC591C79D45E637EE800000BD4591C725A6CD35
    ∷ 0x018030BC020031BE018032BC018033BC020C1FDAE0600000
    ∷ 0x020034BEDDC5062701FFF028018040E8018C02640209FF2A
    ∷ 0x027D676AE040000095E92C6E3010A12001FFF228018040E8
    ∷ 0x018C0264CDB56C6E0C6E0C6EEC2018001FFADF13CE378E36
    ∷ 0x100A68138E36A72626270627020031BE1FFADF13E34000C4
    ∷ 0xCE378E361FFB7A12026100281FFB7313020000E80200A35A
    ∷ 0x0213BE8AE02000017246FE45020C426402102FD8020C4274
    ∷ 0x105DFE4D02942FDA029002F6E230000002005E281FFFDC13
    ∷ 0x020043E8027FEFAA020843EA03329EC5100A5C13E4000800
    ∷ 0x06279246AEB505A6DEC566276C6EDECD000C98FA30E0A120
    ∷ 0x26A7FE4DE9E0000158554C6E023E62E602880E2A0300A358
    ∷ 0x03181E88A2510C6E92C61213EC202000100057121247CD45
    ∷ 0x3025A120BCC5FE27030071AB023EA2E60281082AE1400000
    ∷ 0x030043EA028043EADC45BC65100B801302141FD802010828
    ∷ 0x1FFFCC13E0800020020043E8013881209D4DACCD4C6E06A7
    ∷ 0x029002F60210002A0230006AE1800000AD4DBD4510006313
    ∷ 0xBECD9D4D02276C6E301BA1206C6E9D4D6C6E100DEDA00000
    ∷ 0x3006A120DCC5104D0051A120BCC5DE27011881209D4D9246
    ∷ 0x001002E6E5500000301CA120104DBEDD037FFE2A030843EA
    ∷ 0x1E830C6E10C5C2D11FFB5F13E64000000201F42801BEA2E4
    ∷ 0x02812028028131680C6E2626AC4A64C4BCC5DE27EE008000
    ∷ 0x9D5DBECD030080AA030043EADC45BC65021402E60281082A
    ∷ 0x028043EAE1200000FC452C6E100B641302141FD802010828
    ∷ 0x1FFFB013020043E800D88120E0200002FE4DACCD4C6E1293
    ∷ 0xFE4D585502880E2A0300A35803181E88A2510C6EE8E00000
    ∷ 0x92C6262710002F121247CD45300DA120BCC5FE2700B88120
    ∷ 0xFE4D9246EAA000024C6E26A7BECD585526416C6EDECDBEC5
    ∷ 0x6C6EBEDD0010AAFA2F3CA120E3E00000FEF3FE4D30554C6E
    ∷ 0x024B40281FFB431302004C6801FFEFA8018843E8E0600000
    ∷ 0xFE4D8EB54C6E26A772C65055DECDAEB5AE096C6E3082A120
    ∷ 0x023EA2E6E3E0000002FFFE2A028843EA0FBD02E61E030C6E
    ∷ 0x104DA24100006000027C02F6E30000006C6E9D4D6C6E100D
    ∷ 0x301AA1208ECDAEBD643C6C6EEEB56C6EBEEDFE4DEF600000
    ∷ 0x2C6EB1C7C6E3507D00004000029CAFFAAACA5055BCC5BE27
    ∷ 0x9D5DBECDEE60800003009B2A030043EADC45BC65029402E6
    ∷ 0x0201082A020043EAFC552C6EE8802000100B3C1302101FD8
    ∷ 0x02010828020043E98E0AC41BBEEDACCD02BD02E6E6008000
    ∷ 0x0200AF2A020043EADC65BC45021402E60281082A028043EA
    ∷ 0xFC452C6EE8802000100B341302141FD802010828020043E9
    ∷ 0xBECDC01BBEC526418E89DEDDEE1080002F8CA120026FDCCD
    ∷ 0x018381620200A35801BF12E6008CA36207FFF052E0500000
    ∷ 0xDC45EC6505A6AC45ACB58CB591C7CCB5B1C7FCC50098BBFA
    ∷ 0x50306120E3E00000934711C72020A120104D9247DC5DFCC5
    ∷ 0x0010AF7A3010A120DCC52627E9B000006C6EBCCDBCC52641
    ∷ 0x9347BCDDBF494C6E3010A1206C6EDC8D3FF4A120E5E00000
    ∷ 0x0010ABFA3006A120A20A91C79CC5FE2702101FD807801052
    ∷ 0x008CA362E180800001BD14F6DC45EC650627AC45DC4D9CC5
    ∷ 0x9247BCC51347DCC53014A120E7D00000100A9813A18ABCCD
    ∷ 0x9CC5FE276C6E8CCD01BD12E6A1EF6C6E07FF6452E5C08000
    ∷ 0x01804EFEAC4572460627CC359247FC4506279CC57246BCC5
    ∷ 0x01BCC2F4E7C00004018048FC020049FE02004AFE01804BFC
    ∷ 0x01804CFC02004DFE0200C5281FFF5C13020043E88CCD1B9B
    ∷ 0xB247DC4D10554C6E6C6E9CCD9CC5864192461B9BEFC09004
    ∷ 0x9CCDCCC586416C6E06279CC5020048FE00101FDA30C4A120
    ∷ 0x46436441E8E00000DCC54603020049EE6C6EDCDD0210A07A
    ∷ 0x020049FE8CCD179B9CCDACC5ECA0840086416C6EDCCD9CC5
    ∷ 0x0E436C6E02004CFEF63ADCDDB9C14C6E02004DFEE6E00000
    ∷ 0x0200A35A02004AFE02004CEE02804AEEAE496C6E304CA120
    ∷ 0x0200A35AE200000002004BFE8EC902D33020A1208CCD119B
    ∷ 0x02004BEE00006000023C9C42E14080409CCD08459CC58641
    ∷ 0x02004BEE0210205A02004BFE8EC902D32FF6A120E4700000
    ∷ 0xACCD0E371FFFD413030080286C6EBCCD02008052023CA2F6
    ∷ 0x02004AEEE120000226416C6E02004AFE02004CEE02804AEE
    ∷ 0xAE496C6E2FCCA1200200A35AE220000002004BFE02004DEE
    ∷ 0x02804BEE46434C6E0010ABFA302AA1208CCD099BE9009000
    ∷ 0x02004BEE023C9C429CCD08459CC5864102004BEE0210205A
    ∷ 0x02004BFEE190000002004DEE02804BEE46434C6E0010ABFA
    ∷ 0x2FECA12003004DECACCD0E37E8802000039BE01BCCC58CCD
    ∷ 0x6C6E9CCD9CC58641020048EE26416C6E020048FEE5E08002
    ∷ 0x00101FDA2F4CA120023C62E401804EEE07809C52008CA362
    ∷ 0xAC458CF7E81000001E5D92474C6EBC450627FC55023C42F6
    ∷ 0x001069DA3026A1206C6EFC4DE8E00000FC450E03FC5DBC4D
    ∷ 0x1E6D4C6E4C6EBC450214CFFADC4DFC4526416C6EEDE00000
    ∷ 0x023C42F6001069DA2FECA1206C6EEC4D07800852008CA362
    ∷ 0xA1EF0626E90000000200A358008CA3620000000000000000
    ∷ 0x000000000000000000000000000000000381FFA90414350B
    ∷ 0xC2C627779677C2C7081C2059047E00A937C707A7E98020B0
    ∷ 0x0194350903C0006B6BF09577082500FB042016A36F0219F6
    ∷ 0x85778677EC802C20018C8FF908C21A7B0597E9A2041D1A7B
    ∷ 0x04411A79020EA9A101BD54F70482002A04988FF907270312
    ∷ 0x04196CA3022118B1040D6CA101C0EA7803106FF9E0400008
    ∷ 0x0210D6E10217F9A302980FDA14191FF8043C63C5009A3FFB
    ∷ 0xECDD17C6E800000007101FD802116DFA031C1FD8043C62F4
    ∷ 0x0292A9A16E02F6E950003013E400080002A0BFF9243CC2E4
    ∷ 0x12189FF98347FA63047E00AA023C43C4023C42F6E1000040
    ∷ 0x2020DA7A02002DDB9589ACCD02BC82E42054212331FE00A9
    ∷ 0x3FC21A7AE0800020318CEA7800188A79324006A0C014BA79
    ∷ 0x32FE00AA33160A7A0F002DD8021877E10190EA78007A3F7B
    ∷ 0x01FC7F790F9022A020000D11028C2DD90213F8B131BCE2E4
    ∷ 0x0213CFF802149FFB02100A5802789FFA02100A5A323CA2E5
    ∷ 0x93479639E8002000CCDD676801A4FA78C33C42E49669DC5D
    ∷ 0x50306121223C82E502220A7AE1200001C018AA782010BA7A
    ∷ 0x01BD52E6C677C577D677D577677701EF021FECA2E7000800
    ∷ 0x02101E8B0180A358021013CB018C1388018D8C0802907FF9
    ∷ 0x027FFFA900000000021009B3029FECA30FA60A7B018C07E1
    ∷ 0x020424F8089D1A7B0F7C09B302941E8B02158C0801107FF9
    ∷ 0x0E823F7B031413CAA00075910077CFFBB21FECA2A000A35B
    ∷ 0x02989FF90200002820007191B20004F8B200A358B1958C08
    ∷ 0xB2907FF800002000001D1A7B01FE01A9020004F820006D93 ∷ []

pub length-lines_759 : length lines_759 ≡ 150
unfolding lines_759
length-lines_759 = refl
