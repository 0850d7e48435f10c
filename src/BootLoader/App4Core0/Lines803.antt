-- ===== src/BootLoader/App4Core0/Lines803.antt =====
-- inc/app4Core0_6678.h: lines of `_app4Core0` from line 803 to line 1402, six to a number.
use dspc8681_linux_driver.Base.{ℕ, ◌≡◌, refl, List, [], ◌∷◌, length}

unfoldable pub core0_lines_803 : List ℕ
core0_lines_803 =
    0x6687D577EC00100001EFD6776C6E6777021462F60016181102000E6E0200006C01886162E060000102000E6F932207260200016D10161412023C34A81006C893024080E8E04000080630027605AC0276072802F406A802741FFBD8130200106DEC4DFE27E800200007807452C677C5776687D57701EFD6776C6E6777000AA120000CA120E3C00050008C63620200A35B
    ∷ 0x07BF01A2023C22F707BD005B0200A3580000000000000000967725F7867795776646257702AC02640C6E2426C283E00000230001E2E0001007FEF052BC45AC6702140FD8C19036242EE60C6E062016A3AEE7FC27EA40220C474FA5C78057474601C60C6E0C6E2C6E26411C66024F06A705800043E7E00D07068012A80610B079DC558A67300079912FFFFFAA21AC0265
    ∷ 0x223C82F6E08000302280A35A223C62F62FBCA2F622BF02B6000C022400B40A788032A120E0100000D0118121C22C0264C210205800280363022C0274020C02240188416202281FDA023C42E601AC026426414C6E023C42F6000C02240000600000B40A78E08000009FF0A120D0006991C1AC0264C00E6810D5BC42E600002000C18C2058023D9059022C1FDB01830163
    ∷ 0x01AC0274023D905810022813022C1FDB033C9058022C02668BD32AD3126D2C6EC6E96C6E404FCAF320001A11C7E92057631022A7E5E104A04000A35B63801A2A207461203380342A2047C7E920000E913380362BE2000200C7E9405741AC02646004A35A307341202190305931AC026421AC0274E0200002220C02264C6EEC4D001C8A7A21AC02650290C689320C1FDA
    ∷ 0x00604123E04000000F91088932BC62F42FBC62F4220C305A222C0276FC6D25B001AC0274E4000400020C0224000020000219298A97E8A323C1AC0265C23C62F7D20C1FDAE100000000306121D33C62F6C20C305AC22C02762047C7E9231042A730000D10E200020051AC02642380182AC7E92C6E222C0264480AEC3D2210705A222C0277E2808000018D4A8821BC62F4
    ∷ 0x01BC62E4022C0264E1A24C6EEC353641022C0276E600040001AC02642C6E2C6E018C205801AC02746C6E124D72F386E9023F02B6E6410C002057404F20001091FC4D86E94000A35B6283B02A2030612030004010E0A0002320077C10033C905801852162120008FD023D805A003003620189616202281FDB0E36C246023C42E701AC026400B4612000306BF9DC459241
    ∷ 0xCFFFBE10E4200801033C9058023D905801862162033D005B04281FD9022816A20051812101AC026400306BF80310AF7B018080290380802BC7E9DC4D0381002B7F08BC5DEA00220001FFFE2808670B2A200018114867C7E920544120C7E903B3404F03D3ED40A80420001991C7E920576294605B4000002A2000171061947F78620C0264E0400004618C805830282121
    ∷ 0x2294605A0C6E66D101947F78020C80583382002AE10000000C6EC7E9202021212294605B329461A222147F792293EDA2204A2123E02000002190026531947F79221081A0320C8058001D612101902064023C22F4020C02760C6EAC45020C03460C6E66D102147F78AC358630003C8A8A020C0236E6A084000C6E66D101947F790293EDA285B0668A020C02641044AC35
    ∷ 0x01947F78E52480C085B0628A020C02641044AC352C6EAC350210025601AC026400006000E1A0800300306BF8CFFF9210C1AC02650AF70A67CFFFFFAAC23C82F6C23C62F6E10000C0CFBCA2F6C2BF02B605BC42E607811052C677657795866687D677D577EE002800000C036205BC52E4000060000000000000000000000000000000000000000000257725F795779677
    ∷ 0x8677877701BCD4F70300FEABBC5506A70590D07AE4E0080005BC62F70700102905A64647062822E6101284139707CC3566564746EC803C200300FF28D507E2F30200FE290500A35905A6FC4D06B170780600FF2AE240000C0780A358019002B4022982A60680A35A022C8078EC45A1F27E288EA9EC00300040572AF32000169132802C2B304686F9600000A9301488FA
    ∷ 0xD0002A11E12000829080A35B828037AA40802121829480FA80142BDAD000E41072C60C6EE800200020000A11766862F3328012AB886686F930948A7AC070412069E608E7E9403088D2BDBEA9D28022AA40001293D21480FBD2C080E8D0104BDA421422254004A35A3064412142940224209041202C6EBC0D40001D1186E982F3421802E6E50008004000A35B02BC62E6
    ∷ 0x20404120308041202C6EBC0D01040FDB52803AAAE2000000600000AB50948A7A30000C1001000FDB22803C2A7080002B20148A7A401941204000A35A200008104005AC10306061200C6EBC0D00000000022C2234E200000002AC023401BCD2E6C777C677D677D57701EF657781C665F700004000E78001000005A410033D905801854162023D005B02281FD800446121
    ∷ 0xEC4DBC0DE800000000802A5B300014100000C01000000000033D90580188216202281FD9023C805A00206120EC4DBC0D0210605A02138F5A11458641021080A64C6EBC0DEA40000002100236032802E606900A5AEC45FEC000000000029BAF5A02A802F6E100000028274C6E30000810AA6FE8E7322982A6507A412132A802E6303C42E6E0A00032522822E6423C42F6
    ∷ 0x02A802E6022982A62C6EDC0D0C6E0C6E0C6E0C6EEE001E00B37327A70504A35926C3E9F201907A7902802C280314E83302988A7BE0A000230F803C2B028C22A10190BA780318A6E302FC8A7BFB67F9E6202A2121E4000800021422A20298BF780290BF78A9B2668821900235D53C0FD805066A33E9001040C2100236C23C62E6DC4D644AC213F058C23C62F46C6EFC4D
    ∷ 0xDC4DFE40EC8090204C6EEC4500115FF8D22802E6C03C1FDA00004000D0108F5A27100234E0200000223C62E6000060002213F059022822E6223C62F4031170FB02A802E601AC90F8018DA07800181010060C20580290C8FB021427A3A629C617021031A2E4000800262C0FD8C78E860601830162168E62469707EC45C2102059C78C0234E34001CCC23C62F5003489F8
    ∷ 0xC0000691C2A802E6D0121C100191A0F825E0EE40E8000000C0177F0A0182016207B4023402A802E67A836C6E032D80F90F3B858EEA00900020121410301214100680182801AD80F802341FDA01860162B787DC4DE80000000000400000115FF8D22802E64C6E2867D0108F5B002D8A79AA67978FE900200024266AEF00148F7A21B002240014612021AC023426B00234
    ∷ 0x01890162E02000019707C1C60004A358C283E0002C670C6E022FE058C19032242CE62C6EE92020810C6EFE272C6E01C61C660C6E0210205A01BCD2E6C777C6779686D577ECE02020063C33E6053C52E5000C036205BC52E40210907800004000000000000000000001BD94F6EC657246CC35B247BC559346023C82F4018C02640627ACB5E9D00054023DE2D601980FD8
    ∷ 0x018C02648D356C6EACBDDCC500006000020C3624E30000004C6EACB5023F82B4DC5DDC4D104D4C6E26416C6E021402F6023F82A6E3A000004C6E82B300148A7A3132A1206C6EACBD020C36244C6EACB5023F82B4E5200000DC5DDC4D104D4C6E26416C6E021402F6023F82A64C6E8AD300148A7AE4E000003044A1209D6D9CCD9A0D4C6E6741675102978F5A02138F5A
    ∷ 0x301BA120E1C2000086419D45023D02F6101C3813021020E40013812086C192479D459D55EC200801021020E6BD456C6EAD4D9CCD406D4C6E101CF413CCC5BC4D06268CBDEDC0000000004000020C6274DCCD8CBD00004000020C02649A406C6E020C0274E48000000204A35A023DE2D6023F82A64C6EC2D300148A7A306CA1209D6D9CCDE90000009A0D4C6E67416751
    ∷ 0x02978F5A02138F5A3017A12086419D45023D02F6E4620400101C2413021020E4000D812086C192479D459D55021020E6DD456C6EEB0000809D4D9CED9B0D4C6E6641665102978F5A02138F5A3014A12086C19D55E8E21000028A9D45021020E686419D45023D02F6021020E60627FD45023E42D6E4B08011406D8347101CDC132E36BC4D8CBDCCC54C6E0626020C6274
    ∷ 0xDCCD8CBDEBA0001000004000020C02649A406C6E020C02740204A35A023DE2D6023F82A6E08000004C6E72D300148A7A3062A1209D6D9CCD9A0D4C6E6741675102978F5AE722000002138F5A3010A12086419D45023D02F6101C0C13021020E49247858AE880801086C19D55023D02F6021020E66C6E8CBD020CE276EC3D9D4D00006000E5200001020C02769CCDAC4D
    ∷ 0x4C6EFC6D004C7246030CE26550CCB24604118285E5C008401FF89012AC3DCCC5000C026491C7A2FAB251105DEC3D1055018C0264E75080008CBD8D354C6E0626020C6274DCED9CCD105D4C6EAB516C6E26271055EF600000023DE2D6023F82A64C6EC2F300148A7A3024A1206C6E9CCD6C6E9A0DEC820000300AA12066419D4D02138F5A86419D45A50A9D45E6419D4D
    ∷ 0x02130F5AE750804006419D45023D02F6003DE28600006000201AA120023C82E602BF82A6E0200001F04D4C6E12556C6E26268CBD00004000020C6274FC5D9D4D10C56C6EECE00000023CC2E40000600001BD92E600006000008CA3620000000000000000000000009577367785778677114D864706100FD803B182240C6EB5C60210E05AE4E0001002130F5A11450641
    ∷ 0x051021E61018AC130228145883CE024667562273EC501C00C0004C1301931848D018A010021072FA00132BDA320D1DC00510EA7902281861C22C026401820162009006A1020004F9020004FA8050612100114AA200289A60C2722627C23002F601B182240F80A35A028032AA027FFF8AC5916DFAE0200002B5E97EB880000D138000A35B920022A900106A7820708121
    ∷ 0x90106A78E0200001C2520C6EC000181366784046D20023A8A0800029D0106A7880504120E0A000228000A358C0152120D53C33E4D1B41FDBD63C33E4D53C33E7D00C0362D63C52E7C007C01000006000020033A9C0000C1228E6667890FD4120953C33E5E200000091B41FDA963C33E4953C33E7900C03620007BC10018961620228145902301FDB032C06A07687C577
    ∷ []

pub length-core0_lines_803 : length core0_lines_803 ≡ 25
unfolding core0_lines_803
length-core0_lines_803 = refl

unfoldable pub core0_lines_953 : List ℕ
core0_lines_953 =
    0xD577C677767701EF0C6E6C6E0C6E0C6E00000000E7C00F281014041302281459C58E96077687C577D577C677767701EF00006000E78002901004681302281459C58E96077687C577D577C677767701EF00006000E780029031AC0265200011913200232B30280FD821AC0264D200332A20280FD82200232A320FE058022C0274020C023601AC026402002728D2003728
    ∷ 0x020024AAD20034AA028FE05802AC0274020C023401AC02644C6E7687020FE058022C0274E2000000020C023601AC02644C6E66276A32EDC0022C0274020C0235023002F6E1800080C677C57701EFD5776C6E7677D200332B020FE058022C0274020C0236E0E0000401AC026402002728D2003728020024AAD20034AA028FE05802AC0274020C023401AC02644C6E7687
    ∷ 0x020FE058022C0274020C0236022C02644C6E8627E8400000A9B2EE3001AC0274023002F7C5770234D577C677767701EF00006000E72002020506C9D2030C0FD8D1803728D30C0FD80293E05802AC027403100234E0200001022C0264020020AAD20030AA01B41FDA0F88A35A0293E05802AC027402100236022C0264EE506C6E02AC02740FB002F7C5770234D577C677
    ∷ 0x767701EFEE4008000000600000000000000000000000000000000000000000000000000000000000257725F7957796778677877702434C2A01BD54F7024080EA02100286E0E0002005C2C02805C080E802901FDA0504A35A023CA2F702434C2A02ACA277024080EA10186413051002D6052CA2644C6ECCC501AD5C40058D426400006000E100000005AC6266072C4264
    ∷ 0x00004000031803E202BEBD2902BF5C2B0200A359032C827602C080E902C080EB06AC620610CD028C01C0942801C080E902AC4206E10200C0068CA264020CA27501BF602801C080E8D0001711C18C026402BD02F702C33A2A02C080EB003CE2F407940284051402D6000C9F7A02BF5E2B21BF622802C080EB21C080E8301E8121229402E600148F7A318C0264043F662A
    ∷ 0x044080EA00002000318C0204A86F6C6E300C9F7A30000B112280A35A22BC22F622A002E6E040000823BF682A223EAD2823C080EA024080E9042C62640310020501CD02EFE8002000052C826604341FDA018621620600A35B0600A359032C16A2051003E2029003E26C6E9D4D0210AF9A021003A2020403E202102FDA009003A2002C0362E02000000182616202380FD8
    ∷ 0x1000400002B54F7B021003E20210AFFA021003A2003CE2E501BF5A28023F602801C080E8018C0264024080E801000FD9D0001491C2100264B00F7010C2BF5E28C2C080E866080C6ED03C6123C2140265C2BF6228E1000000C2C080E800106F78D214026402BF642A02C080EA00002000D210020400006000D0106F79C00000A8C29402E7C23EAD29C23F682AC24080E9
    ∷ 0xC24080EAD00E4121C3100204C0140362C21002E491C70C6E032C1FDA01860162000F6410E100000000006000023C0FD90183016201C0942801C080E8020CBD40069002741019C813AC8DCCCD02C34C2A02C080EA02143EC200000000C0382123D0100287E0200000D1C33A28D1C080E8C004A35AD20C1FDA30000810201002860AAB6C6EE800A00021C34C2830065C13
    ∷ 0x21C080E82200A35A228C1FDA221402D621BD52E60188016201C34C2801C080E8B1C70627021402D601BD52E6C777C677D677D577EC800000000C0363053C52E405BC52E40000600000000000000000000000000000000000957725F786774647053C54F4022802E64F2667460280152A0580182AE2600002B5C6124D060015284646CCF700148A7A21AC026520001E10
    ∷ 0x3010C810E0A10000023D10580C6E0627218C605801840162022802E6033D005A0800182AE04000000C6E5A326C6E023D002C7AF9AF2A15C7D8A806A300111AFA294402E6E16180800004A35810004000E247364702C8205A22C402F6221002A623C402E6E080000000004000221836B6241C02A6E8EF6C6E20C10AFA4000A35900250AFAE1000080294402E783C77A2A
    ∷ 0x22C821A37406487705440FDB10006000003D02A6E1408080023D1058A8664C6E30001093320017282010241130106A78D0E46120E04000080181016202282274022802E7023D8ACA018F8F58018C805801AC0274E1018000018C206451A66C6EC2280264028C00D8C2A82274D1A8227400000000E0400000C2103FDAC2280276022802E626416C6E022802F6CA32023D
    ∷ 0x66684C6EED010000D0526120C22802E600000000023D10580328A3580580182A0210205A022802F66C6E124D00119A78C1AC0265C0002090D0109C102C6E0627C18C6058E421000001810162022802E60800182A033D005A01801D2808A80FDA041002A600006000002D0AFA2034A121000D1AFA294402E610004000242635C703900FDAE400000002C8205A22C402F6
    ∷ 0x221002A623C402E600004000221836B6241C02A60000600020C10AFB308000AA4000A35900250AFACFF26121294402E6487783C7E800200022C821A210006000003D02A6023D10582C6E05A63000141131A84275E200000037800C5331B41FDA200FF811353C52E4363C33E4300C0363353C33E635BC52E4000000000182016207800C530228427476876577D577C677
    ∷ 0x65F701EFEE000A0000006000018F8F58018C805801AC0274018C206401A84274022802E6E01000000210205A022802F607800C5276876577D577C67765F701EF00000000E70002800000400000000000000000000000000000000000000000000000000000000000D5C6277702BF982B01BF9A2802C080EB01C080E995779677053C35C4E4200003050C0265061402E6
    ∷ 0x5647A64705BF9C2805C080E8002B7F0900337F0AE0800000D07AA121C1AC0264320C02044C6EA86630137F08D0002113023F8E29E100000040562046024080E995B482E7A27FF7AA91BFA429C010026491C080E8E0200001918C0264A200006A0000000002009F7AD200042B6867024700915F79E4000000204F404730000991201189B2723482E75084A358904A6120
    ∷ 0x00002000E0200003318C0204A86F6C6E300C9F7A30442123223482E731BFA42835B482E6E040000831C080E8318C0264000000003B52EE51030016A2021487E302900A5AE10000C002100A5A00148FFB02BF292A2000091102C080EB25B482E621BFA429301408123214028421C080E8218C02640200A35A0185016201BFA42801C080E8018C026505B482E600000000
    ∷ 0x00B37F0A027CA35A012B7F08002C7BF8D1A8A2F4C5A8A2F602B4A2E6A2AC0264D58C1FDA022C807A86890C6E02A842F601B4C2E5E2000200020160FA2294807AB040412122A842F6020C0FD8221070F8219070F8522882F4521402044004A358422882F40000200050137F08D0001C13023F902900800FD8024080E8C0100264827FF7AA8200006A0C6E0C6E02009F7B
    ∷ 0xC33F292AE2000000C34080EBD20100436867024700915F79404F2047300010105084A359E280030020118F7B72180285010016A09000101100AC7BF8A084A358902221200000200001000FDB3214020520000611033F292A600D6121034080EA00109F7B6218028430000811221802842005812000AC7BF800AC7BF89012212100000001000000001B7206278013DC12
    ∷ 0x901144109262D0470185216201A882E402A842E6E12000030011401000002000022C0FDA01850162020C0FD8021178022C6E7707E8000000022882F710C50627022882E630C56C6E02A862F6D577C57701EFD677ED401000073C52E40000600000000000000000000000000000000000000000000000000007A725F7257711B205101459020004FB9677FBA30618305B
    ∷ 0x0680002AE260020B6747957700289A62E6468777071021A00510305B020004F906FFFFA9E0A000330600004131F7867702114AA0259D7DF901BC023406A0EFE8067FE068E040000800314A6002200274D013A1200FFA3C100200A35A022804580280A35A02A0126A018101620510045800314A6006B4205A002A0A67CFFA3810C2280458E2008100C280A35AC2A0126A
    ∷ 0x00000000021306A7020004F802969D8B01914A20E10000C002289A620C6EF9E628E77608D03CA1204183E000A5862C6704800040E4C00C2085062C670400004104A01268021103F02C670726E8061AC6C68F2E66EE203203020004FB03988AA0031BE05B04909A2244180FDB41900FD9089C22A00210145A439406A3004538B22C6E88F71C660C6E77CE45C606A00FDA
    ∷ 0x062D4038E38003002C6E9707100FD01302300FD80631A07B0211BAB3073880790400182AE020000000300ADB022C02F63036A121D5071606100040010084A35808301FDAE100008003AC1FDA04B81FDA06A64C6E0210CB3A02A012690C6E0626931093F2E480002000004000C07F5021981CC03A00004000024101E30240073A8087E059922436B61000600007241FD8
    ∷ 0x000000000238302491B25A338DA82C6E023BE1A0E6000800C190022525D08B3A02546AE259B29DA92024A12133102024275012B3E9C0B04002101FDA10004000AAE24E54000CAAF8D0048123D3102024029034B7E0800010029820581000600000BC8A79062701928020A121003DC9F80180A358E100004001B80234C67771F79506C777D677D57701EF65776C6E65F7
    ∷ 0x0C6E0C6EEFC01920D22802B7C1B80234022C02E64C6E87860210205A022C02F6C67771F7E9000000073C33E4053C33E6063C33E6053C52E5000C036205BC52E40000600000000000024403E20080A35B0880A35901BF742801C080E8000C026400106BDA0C42F62A2084A35A0C4080EAD0002C13C3E002E50AE62967C344ACA1080008F0E2000300CA84A35AC9E3805A
    ∷ 0xC2001028C0080FDAC2840FDB0C6E0C6E0C6E0C6EEC001C0056C1C2B00414C1E10B1C02660BD48CE30214705A02548CE204D4BCE0E02000030000000000A6DF7A494C02E6000040007080A35A4A48AAE6000040000498A07844D122F444D142F44B1C0266000000000494205804D53CE00000000000A6DF7A484C02E6000040007080A35A48C0AAE6000020000494C078
    ∷ []

pub length-core0_lines_953 : length core0_lines_953 ≡ 25
unfolding core0_lines_953
length-core0_lines_953 = refl

unfoldable pub core0_lines_1103 : List ℕ
core0_lines_1103 =
    0x04A4205844C522F444C542F44B1C02660000600000DECF7A444C02E6C8E74C6E44A0AAE6E40000000000400004204058442522F4442542F44B1C02660092CF7BAE4886D0E8102000434C02E68147496702470C6E3080002A4398AAE66FA04120018C6058E0C00020419D22F4419D42F408C4205902922527004029C1014722CF039C8941E50008C00843E059028406A3
    ∷ 0xCFFFE0100344ACA00000600100000001000000010000000001BF76290263805B02BF782B0400A35801C080E9021002E702C080EA000C026404200F880180A35804845CA05047245DC21402E7D07881200393D058E1000080021C320400208A78C060A121C10BE05A50000D9303020029C6C4A1D0E810200052C2F829500000AB40042A5A30000F1352C080E852940264
    ∷ 0x0C6EB1C7E800000000002000024403E200106BDA30000D1322C2F82822C080E83242F42922940264324080E832100264000000000223F05A0000000002949A406C6E02CCE8020000A86E966930208A78D2101FD8D21402552000A358C29402560242F428E0200002024080E80C6E004C031C02040C6EED21021120786C6E005C0315A274E54000006FA48121621C3205
    ∷ 0x018C205860208A7825A661EFFE2680B400000000E6000400D5C62777028403E29577967710004001053C35C401C31A2801C080E8E0A00003020C2266050C02660200A358020C227456460C6E009403A202407D29E200020000102BDA30001913024080E820100204058C0FD8023FAA2A30280FD8024080EA02BFB02BD0001491021002E602C080EAC29402E60C6E4C6E
    ∷ 0x02BFAE2BE40000002047868902C080EB21BFB229010008F230001213229402E74004A359E020000221C080E870280FD8D078412000148F7B02BFAC2A318C026402BFB42A02C080EA00002000318C0204A86F6C6E300C9F7A229402E721C07C2923BFB82AE080002021C080E923C080EA300A4121221C02E420140362230C020430280FD803281FDA0181216200280FD8
    ∷ 0xD060612102BFAC2A06A950FB02C080EAC21402E606B4205A00004000052C907A062802E60000600000298A7B05B006A220002891363002E6322D42860000600000102A5A30428121222C62E600348A7A01BFB029223FA62B40572047224080EB01C080E802C07D2B30001D91621002E7618C0264E0200001202C82E750298A7B02C080EA6294028600004000232C62E7
    ∷ 0x01907F7803940A5B018C0A590280002A32AD42D6001C7FF8C00012902298007A22AC62F7D2BFAE2AD2C080EAD29402E6D1BFB22801C080E886892C6E318C026402BFB62AE200000002C080EA00002000318C0204A86F6C6E300C9F7A229402E723BFB82BE100008021C07C28322CC2E723C080EB21C080E830000890221C02E4242CC2E420140363230C020430100362
    ∷ 0x322CE2E4032C0FDA01852162022CC2E6022CE2E4000040000C6E026F0182616200298A7A3FFFE11135B00FDB363002E6322D4286E020000000006000002BE059052BE1A0CFB68121C62802E7C6B4205AC5B006A300298A7A053C33E4053C33E701B81FDA063C33E7000C0362073C52E4000060000000000005BC54F502C0282A02C080EB87779577257786778646108D
    ∷ 0x65C77646EF0000000000000021B0426431B0426400004000220C2DA0E86F0C6E201018FBE40008000243762820000613024080E8329002643F8C4348000040000217FE400210620400004000024403E2062696693113A12005437228054080E802A86264E0800010020C6CA001907C4095878606018CA078100DA413068C4264050403E2E08000001000400002304266
    ∷ 0x02A84266000040000210434A02149E426C6E104DE80000000013A05A203062643004A3582735026431B0826420460C6ED2B08264E40008003080A3588230826427B80FC831B50274D73CAFF8000000008738801827350274003162644C6E8606C0001211D2314267D004A35AD007D810305A6120E04000000181016200100FD8C0001711C2304264C1A83EC0C28C0264
    ∷ 0x463A2C6EE800000000A803A202401C290240862A024080E9024080EA00170011041002650210028604314266022C0FD8030082AA018601620500A35903000028C6776577E80000006587C77701EFD577662665F7000040002030626431B1826400004000E0E00005C1B14264000A6121D1B14264C1B4E274D1B4C2740000600001B4E27401B142640000600001B4C274
    ∷ 0x0230426401A83EC0028C0264463A2C6E018F0F58E4000000018CA078028C02644C6EEE27404662A6C0000F11D00C4204B193E9A1E1800080A004A359BF802040B18C8078B18FCF58B18C80F8D0001013B1FC6CE0C230A26400006000023422740230C26400006000023442740230E264000060000234627402352264280A2C6E0212EF58018C8FF8018C8FD801B52274
    ∷ 0x01B0A264E04080000000600001B4227401B0C26401B4427401B0E26401B4627402352276E010000000A803A265770626C777C677D577658765F701EF0000600000000000E3C000A011B225F7080004F8020004FB051014599677257703C14AA10610305BE22002030680002A47479577877703137647FB23079821A10710205800289A63E1C000EC06FFFFA90600A359
    ∷ 0x31F7867706A0EFE825997DF9067FE06901900234E080002000314A6003A00274D013A1200FF8EC100200A35A022804580280A35A02A0126A018101620510045800314A6006B4205A002A0A67CFF8E810C2280458E2008100C280A35AC2A0126A00000000021306A7020004F802969D8B01914A20E10000C002289A620C6EF9E628E77608D040A1204183E000A5862C67
    ∷ 0x04800040E4C00C2085062C670400004104A01268021103F02C670726E8061AC6C68F2E66EE203203020004FB03988AA0031BE05B04909A2244180FDB41900FD9089C22A00210145A439406A3004538B22C6E88F7000000000003400077CE45C606A00FDAE4800C00062D40382C6E9707100E8013B58E8606003C8AF90400182B0211B07BE140008048F662560195E1E1
    ∷ 0xC78DE0F9022802F6C0BC0AD9073881E09040A121E0200002D70C205808301FDB1000400120920786D507F58704B81FDA06A64C6EEB0020400210CB3A02A012690C6E0626931093F200004000C07FD021981CC03AE080000000004000024101E30240073A8087E059922436B61000600007241FD80000000001B8302492325A336E282C6E023BE1A0C190022525D08F3A
    ∷ 0x02546AE2ECC0802059B29DA9201CA12133102024275012B302101FDA10004000AAE24E54E92010C1000CAAF8DFFE8123D3102024029034B70298205810006000002C9A7902000028C2383035022C1FD8C22802E6C0126120C210205AC22802F6960605A6E800200001B80234C67771F7D577C7776577D67765F701EF0000600000000000E3C000809677267785779577
    ∷ 0x01BE54F6664E0246062008F1A74F974720466657ED602CC0C0000693C02C06A105281FDB052018F09004A359822C08F1830018298200A35AD0186120158005FC463A05860627858603001828C00E6C13D1C08F28E18080C0D1C080E80182616201C08F2801C080E8000C020503281FDB02BC702B023209A002C080EB30659587051042F6061062F4D0000D93D1C08929
    ∷ 0xD22C1FDAE0400000C0197C13D1C080E9D690E2F6D340502AD3C03A2AD34080EAD3C080EBD00C0204018101620340502A03C03A2B01C08928034080EB01C080E9B2479587E80020000690E2F703C080EB000C0204029082F6059142D60610C2F6021802E6D02B8121C29C02E64047868902C0382A02C080EA229402E7300012907018B810E040000821C03C2821C080E8
    ∷ 0x86890C6E318C026402C03E2A02C080EA00002000E0800000318C0204A86F6C6E300C9F7A229402E78BE709BB21C0402823BC22F7E240830823AC1FDA21C080E8241C82E6220C026420140362C607D5860600A35AE40000000600A35804341FD9018301620018A810000060000186016206437C28064080E80530020401A820581018AC1301B0025402408A2B01C04428
    ∷ 0x024080EBE010000001C080E8000C02658586125D2C6E062702A8B9FBA6092A6F323E8943E58200003000079331C042282000136331C080E8320C026400800FDA302C9A7A5180A3580181016201C0422801C080E8020C0264023E8942002C9A7A0180A3582184A35802100A5805BA6628C0192410D0189410023C70A8024080E800000000E04080000181016200189010
    ∷ 0x000040000184216202BCA60602B4EDB010189812E612080001BE52E6053C33E4053C33E6063C33E6063C52E4008CA3620000000000000000857735778CF775C6057C03E2023E8D2A024080EA0010028401C2A428E060000A01C080E8050C62760235CE28D0004213D1BF1229C18C6264D1C080E8C016C811D00C026402282F5A024080E8CC355646018801630C6EAC45
    ∷ 0x00000000E5000C0000280FD901B5DDA8D0000813D0284F5BC000204301C080E8C016C011D235EC2A300D6121D24080EA01BC22F50184016200284F5B0235EC2A300D6121024080EA2016B81030288F5A01844162023C22F600288F5A30000A9100800FDB0235F82A2016B41130290F5B024080EA4004A35B5236052A301A4121524080EA023C22F70181016200290F5B
    ∷ 0x0236052A30124121024080EA2016B01100800FDB302B7F0A4004A35B52360E2A30000C11524080EA01862162023C22F602360E2A002B7F0A30000811024080EA2016A81100800FDB302B5F0A4004A35B52361CAA301D4121524080EA023C22F701830162002B5F0A30000A9002361CAA024080EB000000002016A01100800FDB302B3F0A4004A35B52362A2A30000D11
    ∷ 0x524080EA01892162023C22F602362A2A002B3F0A30000911024080EA20169C1100800FDB302B1F0A4004A35B523634AA30184121524080EA023C22F701860162002B1F0A30000C10023634AA024080EA2016941100800FDB302AFF0A4004A35B5236402A30000D91524080EA01832162023C22F60236402A002AFF0A30000991024080EB0000000020168C1331BF1228
    ∷ []

pub length-core0_lines_1103 : length core0_lines_1103 ≡ 25
unfolding core0_lines_1103
length-core0_lines_1103 = refl

unfoldable pub core0_lines_1253 : List ℕ
core0_lines_1253 =
    0x31C080E8300C0264BC452C6E0186016201BF1228E200020001C080E8000C0264000020000000000004BA0C6EC000136200006000E2008000018101620200A35A0F9003A207800853C5777587757701EF00006000E600020075C625F7023FD22B01C07F2805BFD62B01C080E925779577000C0204E420000305100FD8024080EA021002E605C080EAC2AC02E7D0228120
    ∷ 0x00148F7A02BFD42B21BFD82802C080EB21C080E8301A8121229402E600148F7A318C026400006000318C0204A86F6C6E300C9F7A22BFDA2B3000091022C080EA229402E6E040000821C07E2823BFDE2A23C080EA01C080E90428C204030C020501CD02EFE80000000182416203281FDA050403E21000400001BFCE2801C080E8018C0264022C0FDA03434C2A0284A35A
    ∷ 0x034080EA01A86078020C026485E86C6E404692CEEC002800C0001111C2A84265D5980286A21002E6D21802D4D28C0264C23FD428000000000C6E85076C6E00CC020C0274608C20344C6E90D4C1802264C2000264E360000000006000C20C0274C1800264C200226400006000C20C22750008CC10021442640180A358C19462740183216200A803A21012C81365779586
    ∷ 0xD5777587EC00280065F701EF0000600000142F59024080E908677A03D2A8C205D2BFD82AE2200200D2C080EB30001691D1900264229402E60204A358C228C254D2142058D228C255D08F7F08931402868004A35A023FCA28024080E800000000901B7F0A3025612120100265237FF7AA2300006A0300DF7AD300042B68670347204F4047EC0030003000069120987F79
    ∷ 0x201889B270A8C2055004A35A3015612000002000921402868004A35A000040009010CF7A300DA12120A8C20402C07E2B800006909011501102C080EA92140284D047062703009FA80185016200A803A275876577E8801000000C0363053C33E605BC52E40000600000000000000000000000000000000000957736778677877731F78577664F1227624E864602000040
    ∷ 0x3018A121E3E003C0269003A200038000020C3674080340000500A35905800029002C0ADB0240642A30002190024080EA221002E607438C28074080E80638027402A81FDB06AC1FD8001199F90610BA4305100FDAC0298123C0303687C1C0662907AC1FD8C1C080E80028368601C0662801C080E8886E2C6E218C02653037E059302A2122E10000803528205836B7E058
    ∷ 0xCFFFFC10218D4A644C6E8586000C136201888162E20000000037E058CFFFF8100528205906B7E1A102314A74D0286121000000010000000001C062290204A3590FB8C94001C080E906AC0FD80030368601C0662801C080E80000200030244121218C02653528205837BC29C1303FE1A11EAA8866E8008000218D4A644C6E8586000C136201848162003FE058CFFFFA90
    ∷ 0x07BFE059E0400000052821A102314A74000060000FB8C05901C0622801C080E906AC0FD902002040078C0264027C025400004000003C0AD8D0302121C02C0ADBC584A359C53089C0252C0FDA2600A35A21C0662821C080E8301C8121222832640013EA5900000000C0148121D18C0264020D907B0193EA586C6E104D0010036201888162E20000000193EA5902280274
    ∷ 0x002BF05901AC67E10630805B052BE1A2CFF84123C2283265058E1008C1C06628C1C080E80013EA58002C0FD9002C0ADB053381A0D6B4205921C06629252C0FDB2600002AD035E8F921C080E9B22A0876C584A358E4008800002C0FD9023D1228C0000610D0183C10024080E8C180A358C1B80274C1BC52E6018101620180A35801B8027401BC52E6C677C577D577C777
    ∷ 0xA1EF7677EE000000023325F70810045B039207260400002B03C02D5B9677257703442D5AE4A00813C67995770500102A8677877706100459020000280011AA79039C9EC2E0A00023C0118A7900123A7B539806A301BD14F600C5BA7920220A7A82B219FB01B02D5892B639FB07342D580080BFFB0129DA784000A35B40003613020D5AB35303E0415530086156A9DA78
    ∷ 0x20C84121B2381FDB539808F152401458BC45EA41E8000000301134100182816201B02D5800340FD8020D507AD2381FDA05100A5A05ABEDA2023C22E606100459022818611011301205A6062700116A7B08301862E2000100200D5A7A334155F8333C43C431BCA2E400C57A7890AE39FB223C22E680AA19FA2084A35A378F184951BC82E5334029A2324572FB333C42F6
    ∷ 0x2210205B323C62F6223C22F6012E3A7B523C42E660415BF9550C08F151BC62E50610086036C7ECA202B7FCA23747FCA0364029A25811AFFB70457BF955BC61E158C429A32080004248399FFA48C429A2424155F9424572FB0FB029A041971849C617FFF845907079451008F1C6B429A010A7BC1D3020A1200012F0100240045A00004000E09000000182016302280458
    ∷ 0x0087E05A400000104012EC104240045A051004580000200002BC22E6022804580200202A0330045812C60C6E051480FB0D3A8AAFEA00A200D1BD12E6C0110C11D63C33E4D73C33E4D53C33E6D63C33E6D00C0363D53C52E4018101621012D41302280FDA13118FF801BD12E6C777C677D677D577EC000000000C0363053C52E405BC52E4021804580000400000000000
    ∷ 0x0000000000000000C72736F703FFFFA90480A35902FFFFAA03FFF7E902BFF7EB86779577E8202003FE27B64604A69D898577875600109A630500A35805B44265042806A1E0A0002303101FD800988A6032180FD9329418F1020004FA3084A35892180FD9929C06A0002C08D8C3344277C598A35900109A2300208AA0A866A5C720001C10E4000800D0000D902FFCD410
    ∷ 0x07FFC45224262C6EC183E0002D662C6E06A6E2CEED001800C2566C6602A012690200A358031883F02CE60C6E04281FDAF48F2E66EA2032030423E05AC19C0FD9C41806A1C3200FDBA3D7021300189A62C8760C6EEA0001000C6E2C6E57461C668416A1CE0580A35B0500002A05A0126A00000000E0E0001800289AA0A72A0C6E0FF70C10A58785070000200001860162
    ∷ 0x00289AA0E140800005282058DFFFFE90DFF70810D2280FDAD2AC0FDA000020000FFCC01000004000043C90580210145B4737863601850163032C0FD86646DC4D26A7EE40EC80003042270C6E027FFFAA30000A90300F4410323582262C6EA866C283E000E4200002AC660C6E02BC42F6C19032242C6E01C61C660C6E0626264101917078E7300202020C2035000F3C10
    ∷ 0x023582260528205800002000C60E850601880162E4000C00100F4C138586DC4D033442652426D607C283E0002C670C6E022FE058E540080CC19032242CE62C6E0C6EFE272C6E01C61C660C6EDC5D264185860726EFC002080C6ED6070010AA7A21B4026482C7E86600002000200D0F581004B813E1200000C304A35807803C52C677C577D577668776F701EF00006000
    ∷ 0x00000000E38000A0EAF325F706471AD22577957705100FD80228426401A98224574765C7E8E0002702180FDA001018DA66E8B5F93228026528E72292D3803829D5A0A359E280023022A84274C5800829400006924FF79410D09C6A78321084C83228027452003C280FF7901095A8A35800106A788004A358C580082802280FD90187016200A842640180A35804100458
    ∷ 0x000D2A78C00D0A788013A120C1A80264686E6C6EE8002000C00D0F5806A7F13A01A9822583722A730024BA7A22151BF832153AF8E1408008028F18480318AA7802149A7A02189FFA00109F7A30000810201558103009BC100204A35A0220045800000000022002F70185016201A982250009B81000004000C507958701830163030F184802A84264123326300C6E9506
    ∷ 0x486F6EA8EE202002D2900265D30C305BB2C78A2AF507EEB0321402B731900274003C51DDE98090A01000400000004000B1CFAF09018FE0583000011131900275321402B6E0800030003C51DD27614C6E564757C6100060000229822402A802661AF21A53E8E000316A620C6E02946A790F979F0A020C9A7A03149FFB0200182A007CCF7AE02000003016212122A802E7
    ∷ 0x32179F0A318037A8318C8A7830107F782317E05A032802F601A9822402B56C6E032802E64C6EE9F2029BE05A02A802F6021802B6E140000002A80266022982240000400002179F0A018C8A7800107F78C22802E60380182A73C6686700000000C29022A6C3100FDAC413E05A00002000C01CAA7AE0200000342802F6319802B46587657701EFD5776C6E65F700000000
    ∷ 0x00000000E3800050124731F730000511023C22F42014201131BC52E68B320F270C6E0627EC200001018101626C6E71F7008CA36201BD14F6B247DC4582C7BC559CE5DC5DEE400900DCC5EC65FC6D0747100CB413C736FCD5062606270400162801BD12E6E36003C4A1EF6C6E008C636207BF005A07BD005B31F7AC451015C4130626AC45EA203000020CA35A0200C228
    ∷ 0x0210C06952B30627003425A6523310C51015B813E70006C0062606261015C81371F76627A1EF6C6E02801C28028589AB01F8F028E1A0000201BDD4F702C1F3EB0281316910D4062701CAD2690213BE8B003486C0E90020805233BDC51015CC136312062601AF592801C08068EF26523291D72727ECA038111013C0121015BC13662706261015C413F01B6626023D1059
    ∷ 0xBC5DAC45EA80821025A667270206802B033CE2F601BE02D5024080EABD55F0DB82120727EC20BC00033D1058100003121015501201BDD2E64C6E0626008CA36201BDD4F6E2000000EA1B79D2023D1059BC5DAC35ECB501B2022FF42ABD5525A60240806AE5A088021FFFD59301BE02D50727A626033D11A0020403E202102FDA009003A2E080003001BDD2E6A1EF6C6E
    ∷ 0x01BC94F6AC45062701814029FC45DC4501813168E5400840018C02640200106C91C74C6ECC3586431FFE5813023C62F601BC92E6E1800040A1EF6C6E8CF71B32028589AB01F8F02802C1F3EB030131698750DC45E86020081154AC4501CAD268DC4D00B402BC22E60301202A824121EF02102FDAE4A00003023C62F70301316A0218AAF7078008520000000000000000
    ∷ []

pub length-core0_lines_1253 : length core0_lines_1253 ≡ 25
unfolding core0_lines_1253
length-core0_lines_1253 = refl
