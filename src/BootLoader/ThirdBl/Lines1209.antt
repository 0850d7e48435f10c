-- ===== src/BootLoader/ThirdBl/Lines1209.antt =====
-- inc/DSP_TBL_6678.h: the lines 1209 to 1358 of `_thirdBLCode_U0`, inside its second section.
use dspc8681_linux_driver.Base.{ℕ, ◌≡◌, refl, List, [], ◌∷◌, length}

unfoldable pub lines_1209 : List ℕ
lines_1209 =
    0xC7E9DC4D0381002B7F08BC5DEA00220001FFFE2808670B2A
    ∷ 0x200018114867C7E920544120C7E903B3404F03D3ED40A804
    ∷ 0x20001991C7E920576294605B4000002A2000171061947F78
    ∷ 0x620C0264E0400004618C8058302821212294605A0C6E66D1
    ∷ 0x01947F78020C80583382002AE10000000C6EC7E920202121
    ∷ 0x2294605B329461A222147F792293EDA2204A2123E0200000
    ∷ 0x2190026531947F79221081A0320C8058001D612101902064
    ∷ 0x023C22F4020C02760C6EAC45020C03460C6E66D102147F78
    ∷ 0xAC358630003C8A8A020C0236E6A084000C6E66D101947F79
    ∷ 0x0293EDA285B0668A020C02641044AC3501947F78E52480C0
    ∷ 0x85B0628A020C02641044AC352C6EAC350210025601AC0264
    ∷ 0x00006000E1A0800300306BF8CFFF9210C1AC02650AF70A67
    ∷ 0xCFFFFFAAC23C82F6C23C62F6E10000C0CFBCA2F6C2BF02B6
    ∷ 0x05BC42E607811052C677657795866687D677D577EE002800
    ∷ 0x000C036205BC52E400006000000000000000000000000000
    ∷ 0x0000000000000000257725F7957796778677877701BCD4F7
    ∷ 0x0300FEABBC5506A70590D07AE4E0080005BC62F707001029
    ∷ 0x05A64647062822E6100594139707CC3566564746EC803C20
    ∷ 0x0300FF28D507E2F30200FE290500A35905A6FC4D06B17078
    ∷ 0x0600FF2AE240000C0780A358019002B4022982A60680A35A
    ∷ 0x022C8078EC45A1F27E288EA9EC00300040572AF320001691
    ∷ 0x32802C2B304686F9600000A9301488FAD0002A11E1200082
    ∷ 0x9080A35B828037AA40802121829480FA80142BDAD0007810
    ∷ 0x72C60C6EE800200020000A11766862F3328012AB886686F9
    ∷ 0x30948A7AC070412069E608E7E9403088D280F0A9D28022AA
    ∷ 0x40001293D21480FBD28043E8D0104BDA421422254004A35A
    ∷ 0x3064412142940224209041202C6EBC0D40001D1186E982F3
    ∷ 0x421802E6E50008004000A35B02BC62E62040412030804120
    ∷ 0x2C6EBC0D01040FDB52803AAAE2000000600000AB50948A7A
    ∷ 0x30000C1001000FDB22803C2A7080002B20148A7A40194120
    ∷ 0x4000A35A200008104002B810306061200C6EBC0D00000000
    ∷ 0x022C2234E200000002AC023401BCD2E6C777C677D677D577
    ∷ 0x01EF657781C665F700004000E78001000002B010033D9058
    ∷ 0x01854162023D005B02281FD800446121EC4DBC0DE8000000
    ∷ 0x00802A5B300014100000541000000000033D905801882162
    ∷ 0x02281FD9023C805A00206120EC4DBC0D0210605A02138F5A
    ∷ 0x11458641021080A64C6EBC0DEA40000002100236032802E6
    ∷ 0x06900A5AEC45FEC000000000029BAF5A02A802F6E1000000
    ∷ 0x28274C6E30000810AA6FE8E7322982A6507A412132A802E6
    ∷ 0x303C42E6E0A00032522822E6423C42F602A802E6022982A6
    ∷ 0x2C6EDC0D0C6E0C6E0C6E0C6EEE001E00B37327A70504A359
    ∷ 0x26C3E9F201907A7902802C280314E83302988A7BE0A00023
    ∷ 0x0F803C2B028C22A10190BA780318A6E302FC8A7BFB67F9E6
    ∷ 0x202A2121E4000800021422A20298BF780290BF78A9B26688
    ∷ 0x21900235D53C0FD805066A33E9001040C2100236C23C62E6
    ∷ 0xDC4D644AC213F058C23C62F46C6EFC4DDC4DFE40EC809020
    ∷ 0x4C6EEC4500115FF8D22802E6C03C1FDA00004000D0108F5A
    ∷ 0x27100234E0200000223C62E6000060002213F059022822E6
    ∷ 0x223C62F4031170FB02A802E601AC90F8018DA07800065C10
    ∷ 0x060C20580290C8FB021427A3A629C617021031A2E4000800
    ∷ 0x262C0FD8C78E860601830162168E62469707EC45C2102059
    ∷ 0xC78C0234E34001CCC23C62F5003489F8C0000691C2A802E6
    ∷ 0xD0052C100191A0F825E0EE40E8000000C0177F0A01820162
    ∷ 0x07B4023402A802E67A836C6E032D80F90F3B858EEA009000
    ∷ 0x20052410300524100680182801AD80F802341FDA01860162
    ∷ 0xB787DC4DE80000000000400000115FF8D22802E64C6E2867
    ∷ 0xD0108F5B002D8A79AA67978FE900200024266AEF00148F7A
    ∷ 0x21B002240014612021AC023426B0023401890162E0200001
    ∷ 0x9707C1C60004A358C283E0002C670C6E022FE058C1903224
    ∷ 0x2CE62C6EE92020810C6EFE272C6E01C61C660C6E0210205A
    ∷ 0x01BCD2E6C777C6779686D577ECE02020063C33E6053C52E5
    ∷ 0x000C036205BC52E402109078000040000000000000000000
    ∷ 0x9577367785778677114D864706100FD803B182240C6EB5C6
    ∷ 0x0210E05AE4E0001002130F5A11450641051021E610065013
    ∷ 0x0228145883CE024667562273EC501C00C0004C1301931848
    ∷ 0xD0064410021072FA00132BDA320D1DC00510EA7902281861
    ∷ 0xC22C026401820162009006A1020004F9020004FA80506121
    ∷ 0x00114AA200289A60C2722627C23002F601B182240F80A35A
    ∷ 0x028032AA027FFF8AC5916DFAE0200002B5E97EB880000D13
    ∷ 0x8000A35B920022A900106A782070812190106A78E0200001
    ∷ 0xC2520C6EC000181366784046D20023A8A0800029D0106A78
    ∷ 0x80504120E0A000228000A358C0152120D53C33E4D1B41FDB
    ∷ 0xD63C33E4D53C33E7D00C0362D63C52E7C002C41000006000
    ∷ 0x020033A9C0000C1228E6667890FD4120953C33E5E2000000
    ∷ 0x91B41FDA963C33E4953C33E7900C03620002C01001896162
    ∷ 0x0228145902301FDB032C06A07687C577D577C677767701EF
    ∷ 0x0C6E6C6E0C6E0C6E00000000E7C00F281005801302281459
    ∷ 0xC58E96077687C577D577C677767701EF00006000E7800290
    ∷ 0x1001E01302281459C58E96077687C577D577C677767701EF
    ∷ 0x00006000E780029031AC0265200011913200232B30280FD8
    ∷ 0x21AC0264D200332A20280FD82200232A320FE058022C0274
    ∷ 0x020C023601AC026402002728D2003728020024AAD20034AA
    ∷ 0x028FE05802AC0274020C023401AC02644C6E7687020FE058
    ∷ 0x022C0274E2000000020C023601AC02644C6E66276A32EDC0
    ∷ 0x022C0274020C0235023002F6E1800080C677C57701EFD577
    ∷ 0x6C6E7677D200332B020FE058022C0274020C0236E0E00004
    ∷ 0x01AC026402002728D2003728020024AAD20034AA028FE058
    ∷ 0x02AC0274020C023401AC02644C6E7687020FE058022C0274
    ∷ 0x020C0236022C02644C6E8627E8400000A9B2EE3001AC0274
    ∷ 0x023002F7C5770234D577C677767701EF00006000E7200202
    ∷ 0x0506C9D2030C0FD8D1803728D30C0FD80293E05802AC0274
    ∷ 0x03100234E0200001022C0264020020AAD20030AA01B41FDA
    ∷ 0x0F88A35A0293E05802AC027402100236022C0264EE506C6E
    ∷ 0x02AC02740FB002F7C5770234D577C677767701EFEE400800
    ∷ 0x000060000000000000000000000000000000000000000000
    ∷ 0x00000000000000000200062A02012A6A8992104D01812A68
    ∷ 0xE2432C6E0210E78A020C0276E2800000018C02640200062A
    ∷ 0x02012A6AC1C22C6E72460035018C0264A1C26C6EEB000000
    ∷ 0x003D003581C26C6E104D00350200062802012A6800002000
    ∷ 0x0192FF58E0E000009213003411B292418651003510C50213
    ∷ 0x01900FD8020C0264E2426C6EE9E00024020C0274104D91C7
    ∷ 0x82238243020C0276104D91C70212EF5A02110FDAE2D00000
    ∷ 0x020C027602151DC2021002E6020C5DC0000040000193DF58
    ∷ 0x92470034E80000006C6E104D0193BF58924700346C6E104D
    ∷ 0x01937F58924700346C6E104DEDA000000192FF588A930034
    ∷ 0x0213B2518AB310C5023000AB10C5B251104D9641EDC00010
    ∷ 0x4C6E86300213CF5A02102FDA020C0276104D91C702136F5A
    ∷ 0x02108FDAE2300000020C0276018C02644C6E9641018FAF58
    ∷ 0x018C4FD8104D00354C6E8640EC8000000192FF5862460034
    ∷ 0x018C02644C6E9247018CC7C8A1EF003507BF005AE5400000
    ∷ 0x023C42D40180A35801BCC2B4020C1FDA023CE2B602000628
    ∷ 0x02012A680180402801900274023C428600006000023CC2B6
    ∷ 0x023C4286000060000212180A023CE2B6023CC2960190BD40
    ∷ 0x00004000020C0276023CE2964C6E95D1624610C5EC002000
    ∷ 0x020001A8020C027407BD005A008CA36207BF005A0200A35A
    ∷ 0x023C42D6023C62D60280062A02812A6A10C506130214BD42
    ∷ 0x6C6E104D023C42D672B01992EA800000018C026400006000
    ∷ 0x01BC62D401BC6284023C428600004000018F10080213180A
    ∷ 0x020C9FFA023C42D6619292C601900274023C428407BD005A
    ∷ 0x008CA362E090001007BF005A0200A35A023C82B60180A358
    ∷ 0x01812A68018C026401BC82B4E0100000023C829407BD005A
    ∷ 0x008CA36201BC54F6023C82B40014A1210C6E0C6EE8101000
    ∷ 0x1FF587130213882801800A2801812A68018C026459826C6E
    ∷ 0x05A6A03AEC00800001812A68018C0264023C82960280A35A
    ∷ 0x02812A6A00000000018C07C80213180A020C9FFA71F710C5
    ∷ 0xA1EF6C6E07BF005A0200A35A023C42D601800A28E0C00000
    ∷ 0x01812A68018C0264018C2F58A33A21A60204A35A023C42D6
    ∷ 0x023C4284E110800007BD005A008CA3620000000000000000
    ∷ 0x00000000000000000000000000000000957725F786774647
    ∷ 0x053C54F4022802E64F2667460280152A0580182AE2600002
    ∷ 0xB5C6124D060015284646CCF700148A7A21AC026520001E10
    ∷ 0x30044010E0A10000023D10580C6E0627218C605801840162
    ∷ 0x022802E6033D005A0800182AE04000000C6E5A326C6E023D
    ∷ 0x002C7AF9AF2A15C7D8A806A300111AFA294402E6E1618080
    ∷ 0x0004A35810004000E247364702C8205A22C402F6221002A6
    ∷ 0x23C402E6E080000000004000221836B6241C02A6E8EF6C6E
    ∷ 0x20C10AFA4000A35900250AFAE1000080294402E783C77A2A
    ∷ 0x22C821A37406487705440FDB10006000003D02A6E1408080
    ∷ 0x023D1058A8664C6E30001093320017282003D41130106A78
    ∷ 0xD0E46120E04000080181016202282274022802E7023D8ACA
    ∷ 0x018F8F58018C805801AC0274E1018000018C206451A66C6E
    ∷ 0xC2280264028C00D8C2A82274D1A8227400000000E0400000
    ∷ 0xC2103FDAC2280276022802E626416C6E022802F6CA32023D
    ∷ 0x66684C6EED010000D0526120C22802E600000000023D1058
    ∷ 0x0328A3580580182A0210205A022802F66C6E124D00119A78
    ∷ 0xC1AC0265C0002090D00414102C6E0627C18C6058E4210000
    ∷ 0x01810162022802E60800182A033D005A01801D2808A80FDA
    ∷ 0x041002A600006000002D0AFA2034A121000D1AFA294402E6
    ∷ 0x10004000242635C703900FDAE400000002C8205A22C402F6
    ∷ 0x221002A623C402E600004000221836B6241C02A600006000 ∷ []

pub length-lines_1209 : length lines_1209 ≡ 150
unfolding lines_1209
length-lines_1209 = refl
