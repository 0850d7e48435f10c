-- ===== src/BootLoader/ThirdBl/Lines1359.antt =====
-- inc/DSP_TBL_6678.h: the lines 1359 to 1508 of `_thirdBLCode_U0`, inside its second section.
use dspc8681_linux_driver.Base.{ℕ, ◌≡◌, refl, List, [], ◌∷◌, length}

unfoldable pub lines_1359 : List ℕ
lines_1359 =
    0x20C10AFB308000AA4000A35900250AFACFF26121294402E6
    ∷ 0x487783C7E800200022C821A210006000003D02A6023D1058
    ∷ 0x2C6E05A63000141131A84275E200000037800C5331B41FDA
    ∷ 0x2003A811353C52E4363C33E4300C0363353C33E635BC52E4
    ∷ 0x000000000182016207800C530228427476876577D577C677
    ∷ 0x65F701EFEE000A0000006000018F8F58018C805801AC0274
    ∷ 0x018C206401A84274022802E6E01000000210205A022802F6
    ∷ 0x07800C5276876577D577C67765F701EF00000000E7000280
    ∷ 0x000040000000000000000000000000000000000000000000
    ∷ 0x000000000000000007A725F7257711B205101459020004FB
    ∷ 0x9677FBA30618305B0680002AE260020B6747957700289A62
    ∷ 0xE6468777071021A00510305B020004F906FFFFA9E0A00033
    ∷ 0x0600004131F7867702114AA0259D7DF901BC023406A0EFE8
    ∷ 0x067FE068E040000800314A6002200274D013A1200FFA4C10
    ∷ 0x0200A35A022804580280A35A02A0126A0181016205100458
    ∷ 0x00314A6006B4205A002A0A67CFFA4810C2280458E2008100
    ∷ 0xC280A35AC2A0126A00000000021306A7020004F802969D8B
    ∷ 0x01914A20E10000C002289A620C6EF9E628E77608D03CA120
    ∷ 0x4183E000A5862C6704800040E4C00C2085062C6704000041
    ∷ 0x04A01268021103F02C670726E8061AC6C68F2E66EE203203
    ∷ 0x020004FB03988AA0031BE05B04909A2244180FDB41900FD9
    ∷ 0x089C22A00210145A439406A3004538B22C6E88F71C660C6E
    ∷ 0x77CE45C606A00FDA062D4038E38003002C6E97071003A413
    ∷ 0x02300FD80631A07B0211BAB3073880790400182AE0200000
    ∷ 0x00300ADB022C02F63036A121D5071606100040010084A358
    ∷ 0x08301FDAE100008003AC1FDA04B81FDA06A64C6E0210CB3A
    ∷ 0x02A012690C6E0626931093F2E480002000004000C07F5021
    ∷ 0x981CC03A00004000024101E30240073A8087E059922436B6
    ∷ 0x1000600007241FD8000000000238302491B25A338DA82C6E
    ∷ 0x023BE1A0E6000800C190022525D08B3A02546AE259B29DA9
    ∷ 0x2024A12133102024275012B3E9C0B04002101FDA10004000
    ∷ 0xAAE24E54000CAAF8D0048123D3102024029034B7E0800010
    ∷ 0x029820581000600000BC8A79062701928020A121003DC9F8
    ∷ 0x0180A358E100004001B80234C67771F79506C777D677D577
    ∷ 0x01EF65776C6E65F70C6E0C6EEFC01920D22802B7C1B80234
    ∷ 0x022C02E64C6E87860210205A022C02F6C67771F7E9000000
    ∷ 0x073C33E4053C33E6063C33E6053C52E5000C036205BC52E4
    ∷ 0x000060000000000011B225F7080004F8020004FB05101459
    ∷ 0x9677257703C14AA10610305BE22002030680002A47479577
    ∷ 0x877703137647FB23079821A10710205800289A63E1C000EC
    ∷ 0x06FFFFA90600A35931F7867706A0EFE825997DF9067FE069
    ∷ 0x01900234E080002000314A6003A00274D013A1200FF9F810
    ∷ 0x0200A35A022804580280A35A02A0126A0181016205100458
    ∷ 0x00314A6006B4205A002A0A67CFF9F410C2280458E2008100
    ∷ 0xC280A35AC2A0126A00000000021306A7020004F802969D8B
    ∷ 0x01914A20E10000C002289A620C6EF9E628E77608D040A120
    ∷ 0x4183E000A5862C6704800040E4C00C2085062C6704000041
    ∷ 0x04A01268021103F02C670726E8061AC6C68F2E66EE203203
    ∷ 0x020004FB03988AA0031BE05B04909A2244180FDB41900FD9
    ∷ 0x089C22A00210145A439406A3004538B22C6E88F700000000
    ∷ 0x0003400077CE45C606A00FDAE4800C00062D40382C6E9707
    ∷ 0x10035013B58E8606003C8AF90400182B0211B07BE1400080
    ∷ 0x48F662560195E1E1C78DE0F9022802F6C0BC0AD9073881E0
    ∷ 0x9040A121E0200002D70C205808301FDB1000400120920786
    ∷ 0xD507F58704B81FDA06A64C6EEB0020400210CB3A02A01269
    ∷ 0x0C6E0626931093F200004000C07FD021981CC03AE0800000
    ∷ 0x00004000024101E30240073A8087E059922436B610006000
    ∷ 0x07241FD80000000001B8302492325A336E282C6E023BE1A0
    ∷ 0xC190022525D08F3A02546AE2ECC0802059B29DA9201CA121
    ∷ 0x33102024275012B302101FDA10004000AAE24E54E92010C1
    ∷ 0x000CAAF8DFFE8123D3102024029034B70298205810006000
    ∷ 0x002C9A7902000028C2383035022C1FD8C22802E6C0126120
    ∷ 0xC210205AC22802F6960605A6E800200001B80234C67771F7
    ∷ 0xD577C7776577D67765F701EF0000600000000000E3C00080
    ∷ 0x023325F70810045B039207260400002B03C02D5B96772577
    ∷ 0x03442D5AE4A00813C67995770500102A8677877706100459
    ∷ 0x020000280011AA79039C9EC2E0A00023C0118A7900123A7B
    ∷ 0x539806A301BD14F600C5BA7920220A7A82B219FB01B02D58
    ∷ 0x92B639FB07342D580080BFFB0129DA784000A35B40003613
    ∷ 0x020D5AB35303E0415530086156A9DA7820C84121B2381FDB
    ∷ 0x539808F152401458BC45EA41E80000003003F81001828162
    ∷ 0x01B02D5800340FD8020D507AD2381FDA05100A5A05ABEDA2
    ∷ 0x023C22E606100459022818611003F41205A6062700116A7B
    ∷ 0x08301862E2000100200D5A7A334155F8333C43C431BCA2E4
    ∷ 0x00C57A7890AE39FB223C22E680AA19FA2084A35A378F1849
    ∷ 0x51BC82E5334029A2324572FB333C42F62210205B323C62F6
    ∷ 0x223C22F6012E3A7B523C42E660415BF9550C08F151BC62E5
    ∷ 0x0610086036C7ECA202B7FCA23747FCA0364029A25811AFFB
    ∷ 0x70457BF955BC61E158C429A32080004248399FFA48C429A2
    ∷ 0x424155F9424572FB0FB029A041971849C617FFF845907079
    ∷ 0x451008F1C6B429A010A7BC1D3020A120000430100240045A
    ∷ 0x00004000E090000001820163022804580087E05A40000010
    ∷ 0x40042C104240045A051004580000200002BC22E602280458
    ∷ 0x0200202A0330045812C60C6E051480FB0D3A8AAFEA00A200
    ∷ 0xD1BD12E6C003D011D63C33E4D73C33E4D53C33E6D63C33E6
    ∷ 0xD00C0363D53C52E4018101621004141302280FDA13118FF8
    ∷ 0x01BD12E6C777C677D677D577EC000000000C0363053C52E4
    ∷ 0x05BC52E40218045800004000000000000000000000000000
    ∷ 0xC72736F703FFFFA90480A35902FFFFAA03FFF7E902BFF7EB
    ∷ 0x86779577E8202003FE27B64604A69D898577875600109A63
    ∷ 0x0500A35805B44265042806A1E0A0002303101FD800988A60
    ∷ 0x32180FD9329418F1020004FA3084A35892180FD9929C06A0
    ∷ 0x002C08D8C3344277C598A35900109A2300208AA0A866A5C7
    ∷ 0x20001C10E4000800D0000D902FFF041007FFC45224262C6E
    ∷ 0xC183E0002D662C6E06A6E2CEED001800C2566C6602A01269
    ∷ 0x0200A358031883F02CE60C6E04281FDAF48F2E66EA203203
    ∷ 0x0423E05AC19C0FD9C41806A1C3200FDBA3D7021300189A62
    ∷ 0xC8760C6EEA0001000C6E2C6E57461C668416A1CE0580A35B
    ∷ 0x0500002A05A0126A00000000E0E0001800289AA0A72A0C6E
    ∷ 0x0FF94C10A5878507000020000186016200289AA0E1408000
    ∷ 0x05282058DFFFFE90DFF94810D2280FDAD2AC0FDA00002000
    ∷ 0x0FFEF01000004000043C90580210145B4737863601850163
    ∷ 0x032C0FD86646DC4D26A7EE40EC80003042270C6E027FFFAA
    ∷ 0x30000A9030034810323582262C6EA866C283E000E4200002
    ∷ 0xAC660C6E02BC42F6C19032242C6E01C61C660C6E06262641
    ∷ 0x01917078E7300202020C2035000340100235822605282058
    ∷ 0x00002000C60E850601880162E4000C00100350138586DC4D
    ∷ 0x033442652426D607C283E0002C670C6E022FE058E540080C
    ∷ 0xC19032242CE62C6E0C6EFE272C6E01C61C660C6EDC5D2641
    ∷ 0x85860726EFC002080C6ED6070010AA7A21B4026482C7E866
    ∷ 0x00002000200D0F581000D413E1200000C304A35807803C52
    ∷ 0xC677C577D577668776F701EF0000600000000000E38000A0
    ∷ 0xEAF325F706471AD22577957705100FD80228426401A98224
    ∷ 0x574765C7E8E0002702180FDA001018DA66E8B5F932280265
    ∷ 0x28E72292D3803829D5A0A359E280023022A84274C5800829
    ∷ 0x400006924FF9D410D09C6A78321084C83228027452003C28
    ∷ 0x0FF9D01095A8A35800106A788004A358C580082802280FD9
    ∷ 0x0187016200A842640180A35804100458000D2A78C00D0A78
    ∷ 0x8013A120C1A80264686E6C6EE8002000C00D0F5806A7F13A
    ∷ 0x01A9822583722A730024BA7A22151BF832153AF8E1408008
    ∷ 0x028F18480318AA7802149A7A02189FFA00109F7A30000810
    ∷ 0x200404103001AC100204A35A0220045800000000022002F7
    ∷ 0x0185016201A982250001A81000004000C507958701830163
    ∷ 0x030F184802A84264123326300C6E9506486F6EA8EE202002
    ∷ 0xD2900265D30C305BB2C78A2AF507EEB0321402B731900274
    ∷ 0x003C51DDE98090A01000400000004000B1CFAF09018FE058
    ∷ 0x3000011131900275321402B6E0800030003C51DD27614C6E
    ∷ 0x564757C6100060000229822402A802661AF21A53E8E00031
    ∷ 0x6A620C6E02946A790F979F0A020C9A7A03149FFB0200182A
    ∷ 0x007CCF7AE02000003016212122A802E732179F0A318037A8
    ∷ 0x318C8A7830107F782317E05A032802F601A9822402B56C6E
    ∷ 0x032802E64C6EE9F2029BE05A02A802F6021802B6E1400000
    ∷ 0x02A80266022982240000400002179F0A018C8A7800107F78
    ∷ 0xC22802E60380182A73C6686700000000C29022A6C3100FDA
    ∷ 0xC413E05A00002000C01CAA7AE0200000342802F6319802B4
    ∷ 0x6587657701EFD5776C6E65F70000000000000000E3800050
    ∷ 0x9677277786779577013C8577068C0FDA05A01FDA9646A646
    ∷ 0x018C6058E4E00000018F8F58013485B0000C20644C6E0626
    ∷ 0xD0ED6121C2B4426505000FD8E1400000C22BE058204652A6
    ∷ 0xC01C8121FE2768768004A358C283E00000002000E1400048
    ∷ 0xC190322401C66C6E0C6E2C6E26411C66BE4856C76866A8AA
    ∷ 0xC283E000E7C084402C670C6E022BE058C19032242CE62C6E
    ∷ 0x0C6EFE272C6E01C61C660C6EEF2020824647264101B42264
    ∷ 0x4C6E114D002878F9060C1FDAD6280FDA00314AFBE0A00000
    ∷ 0x021181E2404711453000111021B4026530280ADB75A81FD8
    ∷ 0x6004A35AE040000C30524120022980FB000C2F58D7001029
    ∷ 0xC0000C1328671227D5901FD8E4000800301C612100280ADA
    ∷ 0x05EF2C6E023B18482C6E960701860162002FE058E2800000
    ∷ 0xCFFFFE90C02C0362C2301FDAC23B184805AFE05800000000
    ∷ 0x00280ADB000000003022412105A81FD805EF4C6E01A80FD8 ∷ []

pub length-lines_1359 : length lines_1359 ≡ 150
unfolding lines_1359
length-lines_1359 = refl
