-- ===== src/BootLoader/ThirdBl/Lines909.antt =====
-- inc/DSP_TBL_6678.h: the lines 909 to 1058 of `_thirdBLCode_U0`, inside its second section.
use dspc8681_linux_driver.Base.{ℕ, ◌≡◌, refl, List, [], ◌∷◌, length}

unfoldable pub lines_909 : List ℕ
lines_909 =
    0x02381FDB02158C0802916DFB021E1D720317ECA302A48AFA
    ∷ 0x069E1D73019078F90212FAE702989FF9323CE2E4E2000200
    ∷ 0x01147FF931BCA2E402B81FDA02956DFA0C6EBAE3008C8A78
    ∷ 0x91BCA2E4E200000081BC82E4923CE2E4B01A6121823CC2E4
    ∷ 0x900C8BF8800C8BF8C237E05B0317ECA3020004F9037E0128
    ∷ 0x00A48AFB03181E8B01958C099F090626031813CBE4000800
    ∷ 0x500059905000A35B4217ECA202987FF920005990420004F8
    ∷ 0x41958C094200A35842907FF80000200001BCA2E40FBC82E4
    ∷ 0x0F3CA2E40680A35806B41388020EBCA2027D69A002109FF9
    ∷ 0x02F969A10603E04013118F790FAFECA2019D8C09027C1D8A
    ∷ 0x029013CB02101FDA028CBFFA03148B620880A35A0910C3F2
    ∷ 0x0427D8A3E80800000E80A358094A0B3A000020000348C3F2
    ∷ 0x000040000210C3F20000400002120B3A000020000310C3F2
    ∷ 0x00006000029D7CA0019BBFF8020EA9A003948FF9023C23E4
    ∷ 0x021C0FDA0210350A030D6CA00211007A100A301312188FF9
    ∷ 0x021000DA05100458023C43E40228145B100A201226A7263A
    ∷ 0x36CBFE42018FEDD802109FFBE3000280021475780293EDDA
    ∷ 0x9247B2D1100A1C13022804580213F9A2260226BAE8802020
    ∷ 0x02907FF803100458023C63E40218145B100A18120FBC62E7
    ∷ 0x0213F9A301942CA10E84A35B0F00A3590D8000400DB81FDB
    ∷ 0x05102CA1053406A20E84A35805907FF802010028002FFA7A
    ∷ 0x21BC42E40275A5FA0FAC2CA00F2BF9A2307D7BF8200D4BF8
    ∷ 0xC5FBFFF9C5100FDB023C62E6C5282CA00228857805956078
    ∷ 0x0E00A35A00AC9A7A423C42E605ED6DFA0E02002805100FD8
    ∷ 0x502C99FA401099FA223C23E402B01FDA0073DA78032BB578
    ∷ 0x027E002A2510045815115F7801AB8F78C06C6A78C0001A90
    ∷ 0xD00A0010023C43E425181FDA06280FDA0228145A01860162
    ∷ 0x023C62E60F942CA00F93F9A20F02002896E90C6E21BC42E4
    ∷ 0x3010BBF8ECBD4C6E200C8BF8E4800800C2FFFFF8D630205A
    ∷ 0xC2102CA00231AA7A00946A7881BCC2E40F31A8FA919469F8
    ∷ 0x00002000819069F8022BC578028C9F7B01BC62E40078AFFA
    ∷ 0x3015412125956078000D6A78D1BC62E4C1BC42E426274646
    ∷ 0x0228857A00000000C08C8BF8E1000000D08D6BF8823C23E4
    ∷ 0x85100FDA0000400085100458022A8CA30FAEACA0022969A1
    ∷ 0x0FAFECA202AD69A00213EFF80180A358018E9D8813118F78
    ∷ 0x028C907A0294210A027CAFFA019D8C0802907FF801BD52E6
    ∷ 0xC677C577D677D577677701EFEE0000000000600000000000
    ∷ 0x000000000000000000000000000000000000000000000000
    ∷ 0x8A3C07270380A35A0280802A028038280303B028A1CE66E8
    ∷ 0xC2C68121E4210401D2100265C29002E60210CF79C294605A
    ∷ 0x0F81002800FC8A7940D7BE19E800200040001213530037A9
    ∷ 0x50CEB6696000A35B5280102B701868F820006093E0800020
    ∷ 0xB080A359A30037A95090BA7A80832121A282002BA01868F8
    ∷ 0xA010BA7A00002000400088916F2802D3501868F9521806A1
    ∷ 0x0010BA7A4000A35A21C14120E040000420470DFB22003AA9
    ∷ 0x229818F250000029200CBA7B40906A78C0007610E0208003
    ∷ 0xB1F2AF28A5F8B247C05021210014BA7A8000A35B921806A1
    ∷ 0x901868F8E060000B2039212000800FDB229816A322003AA8
    ∷ 0x50000029200CBA7B40906A78C04D2120B1F2AF28C0000C13
    ∷ 0xB6E9B2474046A5F8D1802C28A000A35BD00CAA78E1A000A2
    ∷ 0x20212120318032292000A358C0214121308CAA78D18034A9
    ∷ 0x01000FD8A0800029D00CAA78800008108000A358C0116120
    ∷ 0xD1162121C29002E6000060010000000001803C2980000892
    ∷ 0x000CAA788000A358C0124120D10E4121C29002E600004000
    ∷ 0x0C6E105D66D14C6E02978F5A105586D1031420E6008C6362
    ∷ 0x029BFDA0E160000002181FD82C6E105D0C6EB3460294605A
    ∷ 0x02978F5A105586D1000C0362E4C00800021420E401000FD9
    ∷ 0xD2002C28A000A35BD0106A782048212032003229E0100000
    ∷ 0x2000A358C01C412130906A7801000FD9D20034A8A0800029
    ∷ 0xD0106A7880000A908000A358C00E6120D0E62121C29002E6
    ∷ 0x0000600002003C2980000A1200106A788000A358C01A4120
    ∷ 0xD1BC4121C29002E6000040000C6E105DE6D14C6EEC000000
    ∷ 0x02970F5A105506D1021421E5AAE281EF2C6E105DE6D12C6E
    ∷ 0x02970F5AE7400000105506D1021421E5BAE281EFC0000F93
    ∷ 0xB272B347B5E94046D2002C29E6A00B0030476678D0106A79
    ∷ 0xB0800041A2003C284000A35BA0106A7820001310E0200002
    ∷ 0x80000F10320032294F2A886630906A78D20034A901000FD8
    ∷ 0xA0800029E0808020D0106A78800006908000A358C00E6120
    ∷ 0xD0B62121C29002E6000060008000A358C0206120D1622121
    ∷ 0xC29002E602181459008C63620C6E105D66D14C6EEC000000
    ∷ 0x02978F5A105586D1031420E6008C6362029BFDA002181FD8
    ∷ 0x0C6E105DE84000002C6EB3C60294605A02978F5A105586D1
    ∷ 0x000C0362021480940C6E6C6EE920308000000000C0000E13
    ∷ 0xB272B347B5E94046D2002C29304F6678A000A35BE58008B0
    ∷ 0xD0106A78200010935080A35942003C288021212140106A78
    ∷ 0x2000A3593200322830906A7940462CAAD20034A8A0800029
    ∷ 0xD0106A78802121208000A358E0408008C00A4120D07E4121
    ∷ 0xC29002E6000040008000A358C0124120D07E4121C29002E6
    ∷ 0x105D4C6E00002000E6D12C6E02970F5A105506D1000C0362
    ∷ 0x021421E4E2A00200000060002C6E105DE6D12C6E02970F5A
    ∷ 0x105506D1000C0362021421E4E2C0020040466C6ED2002C28
    ∷ 0xA000A35BD0106A78204A4120320032292000A358E0200002
    ∷ 0xC01D212130906A78D20034A901000FD8A0800029D0106A78
    ∷ 0x801421208000A358C00D4120D0564121C29002E600004000
    ∷ 0x02003C2980000A9200106A788000A358C01C4120D09C4121
    ∷ 0xC29002E6000040002C6E105D66D12C6E02978F5AE6000000
    ∷ 0x105586D1031420E6008C6362029BFDA002181FD82C6E105D
    ∷ 0x0C6EB3C6EC2000000294605A02978F5A105586D1000C0362
    ∷ 0x021420E40C6E6C6E0C6E0C6EEC803C2000000000C0000E13
    ∷ 0xB272B347B5E94046D2002C29304F6678A000A35BE58008B0
    ∷ 0xD0106A78200011135080A35942003C288022212140106A78
    ∷ 0x320032292000A35830906A7940462D2AD20034A8A0800029
    ∷ 0xD0106A78802121208000A358E0408008C0134120D03C4121
    ∷ 0xC29002E6000040008000A3584F3A49AAC29002E6E4008800
    ∷ 0x105D4C6E2C6E2C6E0294605A02978F5A105586D1031420E6
    ∷ 0x008C6362E2600000029BFDA002181FD82C6E105D0C6EB3C6
    ∷ 0x0294605A02978F5A105586D1E9802000000C036202144084
    ∷ 0x0000600002978F5A105586D1031420E641EF0C6EEA000000
    ∷ 0x021814580000200000000000000000000000000000000000
    ∷ 0x000000000000000007BF005A0627AC45DC5DDC450010BBFA
    ∷ 0x3014A1202641DC4DDC5DDC45ECD000000010BBFA2FFAA120
    ∷ 0x07BD005A008CA36201BC94F6DC45B2470626BC55EC000400
    ∷ 0x02105FE9003405A61FFFF8130203E828262706A702905FEA
    ∷ 0x65A610C5EA402200021491A0BC0D0034200DA12001905EC1
    ∷ 0x020700AA020C02762027A60AE85080003004A1200207012B
    ∷ 0x01905EC0020C02760261002810082C13023C42E70205F5E8
    ∷ 0x79E2EE30BC0DEC352015A12091C70A93028000EA11D20E03
    ∷ 0x0210AFFBE570048001905FE8020C02762027A48A3012A120
    ∷ 0x91C712D302110CA202905FEAE280810010C582230200A35A
    ∷ 0x0208016A0200027E6C6EBC0D2014A12001801E28E2200000
    ∷ 0x01905FE8020C02766C6EBC0D2015A12006270AD302905FEA
    ∷ 0x0204046AE280020096C010C5003421922027A48A3012A120
    ∷ 0x09D20627020301EB01905FE8E2E08102020C027605A60A12
    ∷ 0x02105FE89651003410C591C7003C8E40003419A2EF500008
    ∷ 0x2227BC4D3033A120062792B3EA23B251EA1B10C502138828
    ∷ 0x01800828E3B0825001905FE8018C0264A5BAF18201802028
    ∷ 0x01905FE8018C0264EC3579E2E8908000062702D302905FEA
    ∷ 0xA4CA10C50180202801905FE8018C0264EC3579E2E8B08002
    ∷ 0x000481200626FE2601BC92E6A1EF6C6E05A6821202105FE8
    ∷ 0xA1EF0034EB40020007FFF052033D02D6DC45EC65FCC5AC45
    ∷ 0x9D4593470180202801905FE8E3800000018C0264BCC50627
    ∷ 0xBE49BCDD3084A1200180202801905FE8018C0264E0D00000
    ∷ 0xA2BA41820180202801905FE8018C0264A0AA41820200026E
    ∷ 0x02100FCAE23080000200027E6C6EFC8D3014A120125D8047
    ∷ 0x0F80026EBAE34C6E027CAFFAE54000000200027EFCC52441
    ∷ 0xBCDDBC4DEE414C6E0010AA7A3020A120003D0286E1C00000
    ∷ 0x000060003010A1200200026E02801E2A02905FEA9A432C6E
    ∷ 0xA60A10C5EC0080000200026E02801E2A02905FEA10C52C6E
    ∷ 0x01949058018C026400006000E1000000000FE9A096B0A27A
    ∷ 0x018C0264000FE9A096B0A0EA018C02649D0DCCB5EA508000
    ∷ 0x3009A12091CFA0479D4D12C526416C6EBCCD9D4526416C6E
    ∷ 0xBC4DBCC5EFC00004AE49BCDD2F88A1200200A35807801052
    ∷ 0x008CA36201BCD4F6DC45EC65E8300000023C82B40200A35A
    ∷ 0x023D02D600181FDA2008A1200204A35A023D02D700000000
    ∷ 0x1FFFD413033D028703122626023C805A1247ACC52018A120
    ∷ 0x6C6EFC0DEA8000303008A120E81B06272727CC6DACC59046
    ∷ 0x01BCD2E6A1EF6C6E01BD14F6E5C08038EC659CE5AC45DC45
    ∷ 0x0200A35A023D42D600180FDA2012A1200204A35AE0600000
    ∷ 0x023D42D6033D42869247E41B0726CC4D1247CCC52018A120
    ∷ 0x6C6E9C8DEB8080703008A120E21B06272727EC6DCCC59046
    ∷ 0x01BD12E6A1EF6C6E01BD14F6E5C08038EC659CE5AC45DC45
    ∷ 0x0200A35A023D42D600180FDA2012A1200204A35AE0600000
    ∷ 0x023D42D6033D42869247DE1B0726CC4D1247CCC52018A120
    ∷ 0x6C6E9C8DEB8080703008A1201FFFB8132727FC4DCCC59046
    ∷ 0x01BD12E6A1EF6C6E01BD14F6E5800030EC659CE5AC45DC45
    ∷ 0xDCC59247FCC593471A230627023CA2F60213EDDAE3E00000
    ∷ 0x8313BCC503105FEA114DA2470210AF7A9232114501929340
    ∷ 0x06270034EEB00410BCC51A2301981FD8018C02644C6E9346
    ∷ 0x01907FF8DCCD00340299BD42E5200000124D4C6EB61B10C5
    ∷ 0x0213882873308992018C0264A6FAF182733099B2ED728008 ∷ []

pub length-lines_909 : length lines_909 ≡ 150
unfolding lines_909
length-lines_909 = refl
