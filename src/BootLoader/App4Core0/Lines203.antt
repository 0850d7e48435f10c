-- ===== src/BootLoader/App4Core0/Lines203.antt =====
-- inc/app4Core0_6678.h: lines of `_app4Core0` from line 203 to line 802, six to a number.
use dspc8681_linux_driver.Base.{ℕ, ◌≡◌, refl, List, [], ◌∷◌, length}

unfoldable pub core0_lines_203 : List ℕ
core0_lines_203 =
    0x00012A8080FFF000257725F7957796778677877701BED4F6057403E3023CA2F401C2A428E0E0000001C080E8050C0277021C03E2020C2277027003E2058CA265043E8D2B03008628020C4277044080EB04007A299F610F4003808C2B0800722808007E2BE100008004C09E299FD007D10240805B08806E2B04C080E801AFBEC104B70EABE040000803ACF07B032CC1E1
    ∷ 0xCCB597F001AFDEC106AC907B0200922B03ACE079E080002006AE01E004C080EB01AFFEC1064570798D35ECB5052F5EC001A00285E2000200042CD07B072F7EC1BD758F7303ACB07B07AF9EC0CDE59ED1032C8078E4800C20062CD07B03ACA07902C171E196D3ED750215707902AD01E1CD35EDD5E9002080621311E205ACB07B01917078D1C2A429EE05CE45D5B862AB
    ∷ 0xD1C080E8E2200203D2385929D50C0FD9D5C080EB043D82F6D1694123D24080E9D03D42E402BE22F4ADF58E65018C0265029C02E60022B01004BC22F60224027601890162E0200000DC55EC35BD4DED3D02371728024080E8023C22F4018C02644C6E104DE8600000DC45EC351022A81201BDA2E40FBE42E402B71FAA02C080EA02BC22F6E0200002020C026601FC0264
    ∷ 0xFC454C6E1022A413CDBDCC35023D82E602372828E2800000024080E8023C22F4018C02644C6E104DDC45EC351022A01201BE02E4E3000200023402E6033730AA034080EA033C22F6028C02664C6EDC4510229C13E4000000EDBDFC550FBD02E400004000028C0266027C026601B7392801C080E8E0200000FC55AC35023C42F61022941201BE22E4033742AA034080EA
    ∷ 0x0C6EBC65E8200000028C02676C6EECBD020C02664C6EFC5510229013CCBDDC45023002E6E540000002374C28024080E8023C22F4018C02644C6EFC4510228C1301BC42F4E200000001B40264023C0264023755AA024080EAEC35BC4510228813023C42F4E200000001B802640230026402375F2A024080EACC35BC4510228413023C62F4E200000001A80264022C02E6
    ∷ 0x023768A8024080E8CC35AC45102280138E53FC45EA00200001AF3EC0022C907B018C0264029002E60237722A024080EACC35BC45E800000002BC62F610227812022F1EC0104C85D201AC6078018C026402377BA8E1000040024080E8AC45DC45102274139E33EC3501AEFEC0022C907B030C0266E1400080029002E60237852A024080EADC65BC4502BC62F610227012
    ∷ 0x0FAEDEC0E1000000027C026701805A28022C60780210026401B78EA801C080E8AC35DC45E8000000102268138E33EC4501AEBEC0022C907B018C0264021002E602B7982AE040000802C080EACC35BC551022641385B2FC450FAE9EC0022C607901FC0264E1400080029002640237A1A8024080E8CC35AC4502BC62F41022601201AE7EC1E100000002004E2A022C907B
    ∷ 0x018C0264029002E60237AA2A024080EACC35BC45E800000002BC62F61022581201804A2801AC6079022E5EC0018C0264021002640237B2AA024080EAEC35BC45102254138E13CC4501AE3EC0022C907B018C0264E1400080021002E60237BB28024080E8CC35AC45102250138592FC45022E1EC0E500080001AC607902100264018C026402B7C3A802C080E8CC45AC55
    ∷ 0x10224C13E400000001BC62F4022FC26602AFE2660337CC2A034080EADC45BC6502BC62F6E40000001022441201AF8264022FA26602B7D5AA02C080EACC35BC5510224413E4000000023C62F6022F626602AF42660337DF2A034080EAFC45BC6510224013E400000002BC42F6022F226602AF02660337E8AA034080EAFC45BC6510223C13E400000002BC42F601AEE264
    ∷ 0x022EC2640237F22A024080EAEC35BC4510223813E4000000023C42F401AEA264022E82640237FBAA024080EAEC35BC4510223413E4000000023C42F4022E626601AE426402B8052A02C080EAFC45BC5501BC42F4E400000010222C1202AE0266022E226603380EAA034080EADC55BC65023C62F6E400000010222812022DE26602ADC2660338182A034080EAFC45BC65
    ∷ 0x10222813E400000002BC42F601ADA264022D8264023821AA024080EAEC35BC4510222413E4000000023C42F401AD6264022D426402382B2A024080EAEC35BC4510222013E4000000023C42F401ACE264023834AA024080EA0C6EBC4510221C1301BC42F4E2000000022CC26602B83A2A02C080EA0C6EBC5510221813023C42F601AC8264E100000002383FAA024080EA
    ∷ 0x0C6EBC451022141301BC42F401AC6264023844AAE0800000024080EA0C6EBC451022101301BC42F401AC4264023849AA024080EAE04000000C6EBC4510220C1301BC42F401AC226402384EAA024080EA0C6EBC45E82000001022081301BC42F401AC02640238542A024080EA0C6EBC4510220813E4000000CD0DCC3501C2A42801C080E805B862AB02385928024080E9
    ∷ 0x05C080EBE0200000050C0FD8D1BECE29D0000A93C1A82264D1C080E8C0220011D00C026400004000AC45CC350182016201A822640228026405BC22F6EC352C6E1021FC13E4200002023C42F401BECE2801C080E8000C026400004000053A0C6EC0001362E400800000006000018201620EA803A200284F5A30000A1100800FDA200B281130283F0B553E62E55580A35A
    ∷ 0x4004A35B55AFDE8A301541200186016205284DDA00283F0A30000690053E62E50580A35A05AFDE8A2010541100800FDB302BE9A24004A35A30000C100182416205296DFA002BE9A230000C103004A359202806A12235C32AD0096121303CA2E5224080EA01BF2A2801C080E81021E413023C22F601BF2A2801C080E8000C0264033A6C6EC00013620000600001860162
    ∷ 0x4C6EAC8DE880800001BE6D29023EBE2AC3BEAE29024080EB0B760A66C41002E5C3C080E9E200010000800FD9C300812AD0000D9301C080E8C18C020500280FD89000A358C0144120D52F626591C7B1E2D41C0265D0213C10D42CA2660186616201BED2E6E0400004C777C677D677D57701EF65776C6E65F700213811042CA266052F6264E1E0001003007FAA01832162
    ∷ 0x02141FDA01BED2E6C777C677D677D57701EF6577EE00100005BC52E400006000000000000000000000000000000000000000000000000000277735778577867701BE54F602461347049821A1043F82D506000040E16000C0208002A530010B137756E8E6270012A8268016A90200A35824BC62F4E0800030DC45AC059001061080382A7881000FD880001FDA0C6E2C6E
    ∷ 0x00000000E4200C00D1F32121C3243624301EA810A1A40FD8000000000034CA790000000100000000C3243625FE2713B34BB206260F800042C1A40FD92627DD450A8034ABE4C00C3C02801D28C23E62D70B7CA35B04001728D23E62D50627924608803628E4000C000FBD02F7807289520018FA7A23243625CA67AA67323D82F621A40FD8E2480008223D82F4404EC7E8
    ∷ 0xC0001813D21CDAF9DB900FDB008008F0D21022A1E04000080294CAF9A1AC02640010AF788004A358D06C21204C6E2866C403E000E40000002CE74C6E02A42059AEE67B470928A35BD497AB8F03140FD8C1980FD9E2A0032204164573C99836A62F662C6E027FE82B02001D2802A2607A041E6AFBE0800020034C98F8042022A326D082D1C8940FDB001919B3C86E06CF
    ∷ 0xC8200FDAE48008200C6E2C6E0C8A1C66083D02F70BC40FDBD98637460020CA78D0D04120E2608008018C6058018F8F58018C805801AC02740B8C206602101FDA0324362401A40FD853A70C6E0FDC05A30BBD02F62BFC0FDB223E62D62BBD02F60020CA78E0280002D0504120C3243625D244CA79C200A35AD2C8CA79C1A406A1C23D42F6D010AFF80C6E5AB2204EC7E8
    ∷ 0xC0001B13021CDAF9DB100FDA81AC02651047FA6EE86030080294CAF8A866A608D07821204C6E2866C403E0002CE74C6E25D07B47ED401800AB0FAEE60928A35BC2C6D497C1980FD904164573C99836A62F662C6EE8A02013027FE82B02001D2802A2607A041E6AFB034C98F8042022A326D082D1E8002000C8940FDB001919B3C86E06CFC8200FDA0C6E2C6E0C6E1C66
    ∷ 0x0C6E0C6EEE801C200A0737460F80004100001411083D42F7D98603130F8000AB2A5C0FDBE220020386B70E370B440FDB0244CA7802C8CA78BDC5A628C3243624018C6058E2200202018F8F58018C805801AC0274018C20640324362400004000020C08D802102DD8020C85704C6E64860B101FDA0B3D42F60244CA7802C8CA780010AFF8E040000086B70E370F84A35B
    ∷ 0xBDC50A0F2A5C0FDBC32436250F80A3590300002AE0A000222A3D82F7C1A40FD8CFBE42D6DFBE42D4FD65FDD50240CA78021ABA7AE2000200B2729629204F404720006111303F82870010CA784000A359622C0264E060000DC1376120D2003C28EA72C668C0004C93405620468300082B827FFE29E280012081BC62F50010CA78A000A358C000461081302120D2003828
    ∷ 0x0C6EC668E8000000D20031A9C0003313C66820468000A358C0B44120D23C42E6D20039A8E08000000010CA78C0228120D0102BDA01A7E05930001013008008F32292CBFB22406C284047EC3521DBFA59224080E9229422A27000581041900265000CBFFAE020000370180FDA0F370C6E0FD8205A000C1362223D42F6018B41623FBD42F7E0400000023D805B023C9059
    ∷ 0x032C06A000A0412100BE6286003D62E60BBD02E60611807800BE628600000000322C026422AC02640000400032906059027FFE2801BC62F521946059321487E0218C8F79319081A0218C805931AC027421AC0274218C2064318C2064000040000FBF3A280FC080E9000C0FD8250C0FD9350C06A1DFBDE2F4D1FC0FD9C53DE2F5000000A8C283E0002C670C6E020FE058
    ∷ 0xC1903224E20002002CE62C6E0C6EFE272C6E01C61C660C6E0C6E26410C6E0C6E00000000E7E00F82000038910292CAFB024FFD4502142DDB00BE6286025BFA5800109FF8E0800010D0580FDAD03D62F6022C02642627242700BE62866640EC3502138F58E500000002108058022C02740061812102108025023D62F6023E02B40220A35B322C0264222C02649DC59EA6
    ∷ []

pub length-core0_lines_203 : length core0_lines_203 ≡ 25
unfolding core0_lines_203
length-core0_lines_203 = refl

unfoldable pub core0_lines_353 : List ℕ
core0_lines_353 =
    0x01BC62F432106058221060593210A7E02190AF79E0400000319081A0218C805931AC027421AC0274218C2064318C2065001A7C10120008FC0300082A0183216291C70F2601D2EE400234EDC5BDDDFDCD00002491E780005000BE62860BBD02E6AA012C6E003D62F6EC35280A31AC026421AC0264E28081000F279E2621AC026431AC0264EC352C6E21AC026431AC0264
    ∷ 0x9E264F27E920000000D2C8FA4A580FDA318C6059218C61A0318C8F79218C87E0318C8059218C81A021AC027431AC0274318C2064218C2065001A68104A3D82F6DA060E36E800000001820162020C1FDA00BE6286023DA2E6002321210BBD02E6023DE2F440001D10FD059A010B82E0FA0210605802138F5802108058022C0275001A6010E0200002021020660052C8FB
    ∷ 0x120008FC2A580FDA2A3D82F6D727DA0601890163E4000C0001BC62F4EDC5BDCD0BBD02E69A012C6E003D62F600BE628600000000E140000000004000401A41210B82E0FA0BBD02F7525FE05A523D02F600DC28DA401AA120001DD810033D10580500102A023C9058022B184A01860162023D02E60630205872274C6E0293E1A23FFFFE91333D1059322B184A301DD411
    ∷ 0x323C9059E0200002203D62E64C6E9D55303461212283E05B023DE2E622BD62F60290205AE0400000001DCC11124DFDD5033D1058023C905801852162FDCDFD0D06302058E4410000000020002283E05B2FFFFE1022BD62F70290205A201DC81122BDE2F6221002A6233D1058223C905800BE6287FD45EC412C6E9D4D504E212154BC62E4E30000004293E1A3001028DA
    ∷ 0x5000A35B42BD02F620000E9050001710202B612124BC62E4001DBC10033D10580500102A023C9058022B184A0186016202BD02E60630205872A74C6E0217E1A23FFFFE91333D1059322B184B023D02F6301DB811E020000224BC62E5323C90582014612004A4205800A420240000000004A4205804A4205800A4202404BC62F400002000023C9058033D105901870163
    ∷ 0x02041FDA04BC62E4063020580000400004A4205800A4202404BC62F400002000000000008E08612100382A79903C22E481000FD880001FDA860605A6C180023401BE52E6E2000200053C33E4063C33E4073C52E4053C52E6008CA362000000000000000000000000664625F702BF982B01BF9A2802C080EB01C080E99677257706BF9C2BE42008039577864786778777
    ∷ 0x01BD54F6050C0266059402E606C080EABC65C746E8600000002B7F0A30908121223402E7062C1FD800337F08D29002864C6E2867E8000000D0177F0A02BF8E2A3000201102C080EA231402E621FFF7A813464C6EE800200001800069023829C001806F790211C7E002100A59D181004168E621CEE8002000021022A0000D5F7B900011919184A359800D89B09004A35B
    ∷ 0x90106F78301961200DAAC866D2100287C23BE059C18000A8C211CF78C2100A58C2102DD8E0208000C0106F7829F67608C23BE059C0262120C211CF78C2100A58C2102DD8E0400008C0106F78023BE059080A19F602BF292BF732062702C080EB0211CF78E280823002100A586608FA66D0000A1003005BA902BF292A06270A3A02C080EAE4408C00C01B9811D52CA265
    ∷ 0x00800FD88004A35BC2140284902B7F0A3059212001880162052CA264002B7F0A000000003051212006B01FD901ABE1A0000DAF78018140F8C68DA07900337F0801BF2929C0000B1310DDA687027FF7AA01C080E8E20000000200006AC20C0204031402867B036C6E30002313220C020501BF9E28E10000002000039301C080E83021C811320C026400004000033F942A
    ∷ 0x033F942A034080EA031802E602B40A5803474C6E02008F7A3200042BE8E7224700CF40C7EC80300040119F7850001011E9F630C640914F7A7084A35B90146F7850306120E08000305000A358C0000990D294028686996C6E418000A942B40A5940000D93E1000000500020414200A35A40146F79430060A8D0366123421210090C6E0C6EE80010000010812102B40A59
    ∷ 0x668819F6018000A902B40A580C6E668800000000E4800C00D016412392620627030060A8C01B7013D1BF9E28D1C080E801886162E0400004052CA26401BF9E2801C080E80021AC11020C02640000400001880162023C42F4FDA6B647022C62650FFFFFA801A86079062D81A0000DCF78C7280FD8E020000301BBE0788CB50246D0A42123C1800FD9C50006A18CCDEC45
    ∷ 0xC200082AE4400004C78C2264C0288F7A0000000000288F79020C87E030366121023CA2F5C181C0F8C1BCA2F421BF9C2801C080E8018C0264002F7F0A2C6EA866320C0204E40000000000600030137F0900290F5AD1BCA2E5D004A35BD000151030266120D1B46078202D0F5A200E8121318C0204000D0F5901BF2928D0001013C1BF2928C0000913C1C080E8C20C0204
    ∷ 0x01BCA2E4C2ACA264000000000FBCA2E402ACA26501C080E8020C02040FBCA2E4FDA62C6E029460780017EF78D0242121D1BCA2E4E0800000C01B481000002000D1B46078E77292621B770627018601622C6EACBDEB0003800000200001B46078000DEBF8D0001411C6280FD8C03002648CCD6C6EE8002000CFFFE291C50008F1C1800FD9EC05121300288F7A00800FD8
    ∷ 0xC78C2264E100000000288F79820C87E0102180138687CC4D023F292A01BF9629024080EAE100004001C080E9030099AB0312AC4D040C02650210028705301FD9101F9013E0800020042C1FDA01BD52E6C777C677D677D57701EF6577062665F700004000E780010001BF9C2900AB7F0B0FBCA2E50235E0F801C080E950001992002F7F0A020C1FDA421002E6052BE078
    ∷ 0x077C80F8003CA2E400A90F5A32900286A8676C6EE800200030177F0A30001291304640477084A35B202D07A2500012118000A358E0800020C02E412042BF292B5000A35B503CA2E42000091142C080EA21ACA265321002862214028422FCA3580000200000110F5A30000A102000051021ACA26422140284303CA2E4FEA60C6EA1B0D772000DCF78D0000610C01B1C10
    ∷ 0x06270727E8C00010D03CA2E402121008018301620C6EAC8D4B2A4C6E00380FD8D1BC62E4E3008000C1BC62E40229A07800004000C18C0264D18C0264C71022740E8A2C6EE800A000C190027400215411C2300274023C42E4D1B002740000200000380FD8C1BC62E4023C62E40FA9A07800002000C28C02646C6EACBD01902274C1BC62E4E200000000214C10023C42E4
    ∷ 0xC77C2274C2FC0274CF8C027402340FDB0187016201BD52E6C777C677D677D577850601EF65F76577000060000000000000000000E1E00030664625F702BFD02B01C07F2802C080EB01C080E995779677053FD62AE420080386779646053C54F4000C0204054080EA10DDB5C607FFE052D06A8121E2200001C22802E64047A609023FD42B21BFD828024080EB7283E041
    ∷ 0x72300A59E040000821C080E8302A6121221002E771958A7870106FF80010AF7B728001AA318C026403BFDC2A03C080EA00002000318C0204A86F6C6E300CBF7A239C02E7E20002003283E04132300A5921C07E29223FDE2B328CA35A31958A7921C080E9224080EB2000004030000C1130106FF9221002E5323FAC2A230C0204242CC204201C0362C066212004301FDA
    ∷ 0xD58782C70500A3590185016202300A5902FFFFA8E080002001958A7866A76628C0001590023FAC2B0C6E0C6E0C6E0C6E0C6E0C6EEE401F04C2BCA2F7DFBC9059024080EBD26E60290280A35AC2BC82F7C1BFCE28021002E7C1C080E9D1941FD8D2408069D1BEC2D4028403E3063D02F40FBDA2F4023D82F41000400101BD42F403C31A2A03C080EA83CB83E1306DDCE5
    ∷ 0x0FBF0942E60001000F3F0942FCE52C6E041022E60FA002F60F1022F6009403A2C63746A7E85010009CC5BCD501BFCE2801C080E8018C0264058403E200004000052C6079E020000010004000002CC2044C6E9C8DC1EC2121D52802E7D200082B01000FD8E0800000D1BFD428D1C080E8D0300FD8B0288F7AD0AC03A3C60C0267C63FD828D004A35BD0007B93D200A359
    ∷ 0xC64080E8303B6120C0B37F0A3000449130B37F0B21B002644004A35800004000520C020450137F08D0001893023FC62900800FD8E0100000024080E8C0100264827FF7AA8200006A0C6E0C6E02009F7AD200042BE200000068E72247011147E250000B1030C650C6B104A35B409187E270001093E120008291C09E2891C080E99680082A918C026400004000518C0204
    ∷ 0x00006000508C9F7B408000AA5011412341C09E284680082A41C080E8418C026402C07E2A02C080EAD047EF52008C4A5880000490901AA810921402842C6E062701880162E42000000029AF7A00B37F0B3000289021B0026400006000520C02044004A3580000400050137F08D0002813023FCC2920564046024080E9827FF7ABB284A358E1000040B1C34C29C0100265
    ∷ 0xB23C805AB1C080E98200006AB0139411B20C8264B60C02040000000002009F7BC2C07E2AC2C080EBD201004368670247009147E2E400080030001191304640477084A35A5000191120118F7B9194028501001FD8E0400008B2434C2BB2433A28B24080EBB24080E8B010028642C07E2B5000A35B51C34C2842C080EB2000069020106121318C020421940284000C9F7A
    ∷ 0x3000119331C34C29219402842008812331C080E802434C2B02433A2802434C2B02433A2900000000024080EB024080E800100286D047D7520C6E0627309002042427A8E6EB0000000C6E91E28000A35A20000590301A801021C34C2821C080E800002000E02000000181016201C34C2801C080E8020C8265001374110284A359023C805A060C0204028C025401832162
    ∷ 0xEC45D04401AC4264023C62E6033C805A02BC805AE080001000000000000C4F58D0368121C1A8026501000FD9C21042E600286A79B1A82264C0001111048C0FD8D3244264D104A35AD0080FDA16462C6E23984265E4000800082806A1A1478147009740F200002000001D09F85004A358D28C0265E04000000C6E28E6001340F200002000D49406A1D0C0AA7822240FD9
    ∷ []

pub length-core0_lines_353 : length core0_lines_353 ≡ 25
unfolding core0_lines_353
length-core0_lines_353 = refl

unfoldable pub core0_lines_503 : List ℕ
core0_lines_503 =
    0x8100A35BE02000000147648E63244264000000006FE6212200800FDA2398426480C70C6EE8202002008740F201900FD8020C2264023C805A01BC22F40FBC805ACC450C6EE8002000BCCD1044023C82E40F8C227642272C6E0000071030228120023CA2E6E1200080053C22F40C6E8CCD030C02774227CC3502A822763012812020143010E14000800181816200AC03A2
    ∷ 0x001BB4100185616202300FD806A7FC4D023D4284E400000007802052D0557687C6776577D677D57765F701EF0000600001ACC204E3C000800F80A35A2FBC82F6EDB02C6E01ACC254228022E6220002E600006000E0800000221402F6228002E6220022E600006000221422F600AC03A20204A3580780205276876577D577C67701EFD6776C6E65F70000000000000000
    ∷ 0x00000000E1E0001205BC54F502BF9A2B01BF98285646257701C080E9023F9C2A95779677E90020C002C080EA8677877701BCD4F6060C0265051402E6024080EAA7467647E84000000280082A0028AF7B00337F08303A8121229002E6003C22F6D2140286C004A35A01BF922801C080E800000000D0137F0A227FF7AB200C026501BF9E2801C080E8378C026530001910
    ∷ 0x3020701036ACA2E62200006A02009F7A02478786E8002000D200042A4047686730000A11201149B320919F79008006A25004A35BE0400008722CA2E6301A612000002000929402868004A35A01BF9E2801C080E80000000090148F7A3017A121378C0265222CA2E60213E05B02BF292A02C080EA00915F7891BF9E299000071382140284801A201391C080E8978C0264
    ∷ 0x03001FDA0300A1280200A35A0182016201BF9E2801C080E8078C0264000040000000000000205C1006ACA2E62C6E878601830162964FAC0D05AD90590237E05B01FFFFA8E14000C000349F7B022C0265072D90580201A0FB06BF9C2B02B018F206C080EA2691B07900177F0AD03A8121C33402E6023C42F432180286023F9228024080E80000200030137F0B2004A35A
    ∷ 0x2010026530001A1031BC42E4227FF7AA2200006A0000000002009F7AD200042B68670247009147E230000A91504640477084A35BE48008202010A7E250466121B22C42E651BC42E40000000032980286A86F6C6EE800200030148F7A301B6121222C42E631BC42E4000000000229A078002899FA32AC82E6A8E66240000020003210A07A0000000031907078308C89F9
    ∷ 0x01BF2928E02000009000059301C080E88019F810820C020491BC42E4D0472C6E0300ACA9E400080001820163020000420C6ECC3D000040001AF6021200286BF92A6611C7EA8023008688AAEED000311100800FD885BC42E4C0337F08802B7F0A0C6EC866E820000021B41FD93000269131AC0264C0148121220C0264D1900205C2BF922805BC42E479824C6ED0002293
    ∷ 0x20564046C2BF9228A020212391AC0265C2C080E8E0A00030C1FFF7A8C1800068C01402640000000001FFF7A802C080E800140265018000680000600001806F78D180042968E621C6000D5F7B9000111391BF2928E10000009004A35B91C080E830001511920C020491BC42E4C8EE2C6E208D8F79E400080035BC42E480000810801141239210020581BF292881C080E8
    ∷ 0x820C020400906F7895BC42E590000E1381BF29288009412381C080E8820C020491AC026401BC42E401BC42E40000200000002000028C2264A1B06C6E008D4BF890282121E200000095BC42E48019CC100000200091AC026406279262018901630300B0A9E2000200030018F205BC42E40000600001AC02640000000006A7062711C70C6EEC00200000286BF9AAE7CC35
    ∷ 0x86892A6F2FFFD81100800FDA45BC42E420337F08E0C00008202B7F0A0C6EC866000C0FD906A8227506A9A1E0D000301100280275E0400000002B7F0B404620469004A35B052C0275C0337F0830926121B0396A78E040000831BC42E5227FF7AB21BF29290AAAC86623BF922A0200006B02B402E6E100808003C080EAC09C02E601C080E8C20C0204031402867B036C6E
    ∷ 0x30001C91E4000000209C02E7220C02042008812131BC42E402048F7A0000200002048F7B00000000CC5D02475200042A5004A35A20119F79304640473000101191802041E220000320114F7B01001FD87004A35B0295A9F830206121B0146F7809AAC866E8008000D2940286CC5D6C6EA9E68689202061200295A9F820146F790C6E0C6EE8C01028000C812105A6CC5D
    ∷ 0x0295A9F825A6CC5D000040000295A9F800146F78E140000405BAC0C7D1BC42E4C0199C10062792620300B928D00DAA7801880162E12080030C6ECC3D00004000000DAA78C18C0264C228226400004000C1A80274E0200000C1BC42E400006000C18C226400006000C1906078C1A8227500396A7900000000D1AC2265C0000810C01FD4100000400001AC607800286A78
    ∷ 0xC2280264C1AC226400004000C22C0274C228226400000000001FD01000002000C18C8078C1AC2274878686070182016201BCD2E6C777C677D677D57701EF65776C6E65F7EF2004030381FFA90414350BC2C627779677C2C7081C2059047E00A937C707A7E98020B00194350903C0006B6BF09577082500FB042016A36F0219F685778677EC802C20018C8FF908C21A7B
    ∷ 0x0597E9A2041D1A7B04411A79020EA9A101BD54F70482002A04988FF90727031204196CA3022118B1040D6CA101C0EA7803106FF9E04000080210D6E10217F9A302980FDA14191FF8043C63C5009A3FFBECDD17C6E800000007101FD802116DFA031C1FD8043C62F40292A9A16E02F6E950003013E400080002A0BFF9243CC2E412189FF98347FA63047E00AA023C43C4
    ∷ 0x023C42F6E10000402020DA7A02002DDB9589ACCD02BC82E42054212331FE00A93FC21A7AE0800020318CEA7800188A79324006A0C014BA7932FE00AA33160A7A0F002DD8021877E10190EA78007A3F7B01FC7F790F9022A020000D11028C2DD90213F8B131BCE2E40213CFF802149FFB02100A5802789FFA02100A5A323CA2E593479639E8002000CCDD676801A4FA78
    ∷ 0xC33C42E49669DC5D50306121223C82E502220A7AE1200001C018AA782010BA7A01BD52E6C677C577D677D577677701EF021FECA2E700080002101E8B0180A358021013CB018C1388018D8C0802907FF9027FFFA900000000021009B3029FECA30FA60A7B018C07E1020424F8089D1A7B0F7C09B302941E8B02158C0801107FF90E823F7B031413CAA00075910077CFFB
    ∷ 0xB21FECA2A000A35B02989FF90200002820007191B20004F8B200A358B1958C08B2907FF800002000001D1A7B01FE01A9020004F820006D9302381FDB02158C0802916DFB021E1D720317ECA302A48AFA069E1D73019078F90212FAE702989FF9323CE2E4E200020001147FF931BCA2E402B81FDA02956DFA0C6EBAE3008C8A7891BCA2E4E200000081BC82E4923CE2E4
    ∷ 0xB01A6121823CC2E4900C8BF8800C8BF8C237E05B0317ECA3020004F9037E012800A48AFB03181E8B01958C099F090626031813CBE4000800500059905000A35B4217ECA202987FF920005990420004F841958C094200A35842907FF80000200001BCA2E40FBC82E40F3CA2E40680A35806B41388020EBCA2027D69A002109FF902F969A10603E04013118F790FAFECA2
    ∷ 0x019D8C09027C1D8A029013CB02101FDA028CBFFA03148B620880A35A0910C3F20427D8A3E80800000E80A358094A0B3A000020000348C3F2000040000210C3F20000400002120B3A000020000310C3F200006000029D7CA0019BBFF8020EA9A003948FF9023C23E4021C0FDA0210350A030D6CA00211007A101B301312188FF9021000DA05100458023C43E40228145B
    ∷ 0x101B201226A7263A36CBFE42018FEDD802109FFBE3000280021475780293EDDA9247B2D1101B1C13022804580213F9A2260226BAE880202002907FF803100458023C63E40218145B101B18120FBC62E70213F9A301942CA10E84A35B0F00A3590D8000400DB81FDB05102CA1053406A20E84A35805907FF802010028002FFA7A21BC42E40275A5FA0FAC2CA00F2BF9A2
    ∷ 0x307D7BF8200D4BF8C5FBFFF9C5100FDB023C62E6C5282CA002288578059560780E00A35A00AC9A7A423C42E605ED6DFA0E02002805100FD8502C99FA401099FA223C23E402B01FDA0073DA78032BB578027E002A2510045815115F7801AB8F78C06C6A78C0001A90D01B0010023C43E425181FDA06280FDA0228145A01860162023C62E60F942CA00F93F9A20F020028
    ∷ 0x96E90C6E21BC42E43010BBF8ECBD4C6E200C8BF8E4800800C2FFFFF8D630205AC2102CA00231AA7A00946A7881BCC2E40F31A8FA919469F800002000819069F8022BC578028C9F7B01BC62E40078AFFA3015412125956078000D6A78D1BC62E4C1BC42E4262746460228857A00000000C08C8BF8E1000000D08D6BF8823C23E485100FDA0000400085100458022A8CA3
    ∷ 0x0FAEACA0022969A10FAFECA202AD69A00213EFF80180A358018E9D8813118F78028C907A0294210A027CAFFA019D8C0802907FF801BD52E6C677C577D677D577677701EFEE00000000006000000000000000000000000000000000000000000000000000000000008A3C07270380A35A0280802A028038280303B028A1CE66E8C2C68121E4210401D2100265C29002E6
    ∷ 0x0210CF79C294605A0F81002800FC8A7940D7BE19E800200040001213530037A950CEB6696000A35B5280102B701868F820006093E0800020B080A359A30037A95090BA7A80832121A282002BA01868F8A010BA7A00002000400088916F2802D3501868F9521806A10010BA7A4000A35A21C14120E040000420470DFB22003AA9229818F250000029200CBA7B40906A78
    ∷ 0xC0007610E0208003B1F2AF28A5F8B247C05021210014BA7A8000A35B921806A1901868F8E060000B2039212000800FDB229816A322003AA850000029200CBA7B40906A78C04D2120B1F2AF28C0000C13B6E9B2474046A5F8D1802C28A000A35BD00CAA78E1A000A220212120318032292000A358C0214121308CAA78D18034A901000FD8A0800029D00CAA7880000810
    ∷ []

pub length-core0_lines_503 : length core0_lines_503 ≡ 25
unfolding core0_lines_503
length-core0_lines_503 = refl

unfoldable pub core0_lines_653 : List ℕ
core0_lines_653 =
    0x8000A358C0116120D1162121C29002E6000060010000000001803C2980000892000CAA788000A358C0124120D10E4121C29002E6000040000C6E105D66D14C6E02978F5A105586D1031420E6008C6362029BFDA0E160000002181FD82C6E105D0C6EB3460294605A02978F5A105586D1000C0362E4C00800021420E401000FD9D2002C28A000A35BD0106A7820482120
    ∷ 0x32003229E01000002000A358C01C412130906A7801000FD9D20034A8A0800029D0106A7880000A908000A358C00E6120D0E62121C29002E60000600002003C2980000A1200106A788000A358C01A4120D1BC4121C29002E6000040000C6E105DE6D14C6EEC00000002970F5A105506D1021421E5AAE281EF2C6E105DE6D12C6E02970F5AE7400000105506D1021421E5
    ∷ 0xBAE281EFC0000F93B272B347B5E94046D2002C29E6A00B0030476678D0106A79B0800041A2003C284000A35BA0106A7820001310E020000280000F10320032294F2A886630906A78D20034A901000FD8A0800029E0808020D0106A78800006908000A358C00E6120D0B62121C29002E6000060008000A358C0206120D1622121C29002E602181459008C63620C6E105D
    ∷ 0x66D14C6EEC00000002978F5A105586D1031420E6008C6362029BFDA002181FD80C6E105DE84000002C6EB3C60294605A02978F5A105586D1000C0362021480940C6E6C6EE920308000000000C0000E13B272B347B5E94046D2002C29304F6678A000A35BE58008B0D0106A78200010935080A35942003C288021212140106A782000A3593200322830906A7940462CAA
    ∷ 0xD20034A8A0800029D0106A78802121208000A358E0408008C00A4120D07E4121C29002E6000040008000A358C0124120D07E4121C29002E6105D4C6E00002000E6D12C6E02970F5A105506D1000C0362021421E4E2A00200000060002C6E105DE6D12C6E02970F5A105506D1000C0362021421E4E2C0020040466C6ED2002C28A000A35BD0106A78204A412032003229
    ∷ 0x2000A358E0200002C01D212130906A78D20034A901000FD8A0800029D0106A78801421208000A358C00D4120D0564121C29002E60000400002003C2980000A9200106A788000A358C01C4120D09C4121C29002E6000040002C6E105D66D12C6E02978F5AE6000000105586D1031420E6008C6362029BFDA002181FD82C6E105D0C6EB3C6EC2000000294605A02978F5A
    ∷ 0x105586D1000C0362021420E40C6E6C6E0C6E0C6EEC803C2000000000C0000E13B272B347B5E94046D2002C29304F6678A000A35BE58008B0D0106A78200011135080A35942003C288022212140106A78320032292000A35830906A7940462D2AD20034A8A0800029D0106A78802121208000A358E0408008C0134120D03C4121C29002E6000040008000A3584F3A49AA
    ∷ 0xC29002E6E4008800105D4C6E2C6E2C6E0294605A02978F5A105586D1031420E6008C6362E2600000029BFDA002181FD82C6E105D0C6EB3C60294605A02978F5A105586D1E9802000000C0362021440840000600002978F5A105586D1031420E641EF0C6EEA000000021814580000200000000000000000000000000000000000000000000000000005BC54F501C02A28
    ∷ 0x01C080E99577967786778777053C54F4058C0264E3000000A5C7072707C0282807C080E8002C0AD98CBA1587C3BC0266021C0A5AE220820002902DDA02182DA2041C8AFA00A0AF7A444403E201C3722940A08A7B508000AB2627787701C080E8520C02655210CCE30318205A2FF2612052109F98E0200002520C0274002C0AD907437A28D13E2123074080E8C1B80264
    ∷ 0x0680A3580580A35A0000000000000000028D707A001402E6050DAA64E8E74C6E20804287E40008003250612136B42058303568F850009290420042E6002C0AD90340202BE01000000013EA5B01C0872900BC02643004A359034080EB20002C112383E04123A81FDB26000042D0004593041802E701C080E9261C0FD8050C020621C01E2821C080E8230C02649004A35B
    ∷ 0x9000839180237F0A3000831381C01E2881C080E8828C026490281FD80C6E0C6E01C0222800177F08C0000C9301C080E8020C0265E0400000C3401A28C34080E8C1FFF7A8C1800069C0180264023C0C6E79826C6EEC020000D0007713C3401A2800801FDBC34080E840092123C1FFF7A8C1800068C0180264000020000000400001806F78D1800429696641C6000D1F7B
    ∷ 0xB1A84265E2000000B0000710B004A35A31BC4120B18C2DA0210CAF7800000000B2100204E0100000B1106F79A10000A8B0D78121A1A84265B0281FD8018C2DA000846AF890D6A120024403E276780C6E01C086288000679301C080E89017D410920C0204E040000880281FD8D0472C6E03011BA90185016302000042018EA12100281FD8E0400008C240242A024080EB
    ∷ 0x002C1FDA049002E603300FDA01B89DC0C6632627E800000000912F7A420C02644C6EEC0140909F7B5080002A4000A35B40000891E080000042182DA342040A59531829422FEC4120429038F840148FF8D60A0C6EE800A00000237F0AD0238121C80C4267C498434AC4C13E4204A402E60000600000246A5A20000C11204F4047320C0265301829F2620C02654004A35B
    ∷ 0x520000ABE040000C638060425FB00FDB30000A105210CCE2621C8CE252109F9820000C112204A35B3F9C62F736181FD9020C0274221C62F700237F0A00237F0B06181FD83063412002109F98020C027506181FD800237F0A305B4121000000010000000100000000201B7F0936284275361402F73000A35821C0222932389DC1C000121221C080E931A84264028C0265
    ∷ 0xC2401A2BC2408628C24080EBC24080E8C1FFF7A9C09002E4C2100205C180006802BC0C6E79826C6ED0002193C2408629D6284275E1820000D61402F6C0000611C2401A2BD1A84264C24080EBC24080E9D2389DC0C1FFF7A9C2100204C1800068C09002E4000000000000400001846F7891800429000C0FD89004A358D29D8A79405669EEC00D1F7BD0000D9200146F78
    ∷ 0xA004A358E0800030D0464120C866073B200CC7E131B018F0C000089030246120C29D8A79E040800CD2940205668829EE29F6852AC29D8A78C0146F787606650A029D8A78E4D0843000146F7800146F78D0134120C0178C11D6284275D61402F6D1A84264D2389DC00212100801840162030113A9D0CF860701B80264028D707A06284274E110004002389DC1061402F6
    ∷ 0x01A84264604C805C121315060000000005146A74E300000001A8426465DA6C6E01947C4000BC81D04C6E20EC020C88D9020C98FAE34000009629FA6720001011320C89C1320C3DA33004A358321369A3338C6CA1E020000032138F58D000101332130F5B328082283280C068321C907A321004CA030403E30F90A0790290F2FA10004000027C02640F04A358A663FA73
    ∷ 0x0F98BCE2E400000002909F9902786CE001FCBFF801FC0274019013A2009803A200281FD8D0106120C0049C11D6B42058D03568F8018541620627850606B42058003568F8E200010007437A29CFFF6892074080E8C1B8026405AC805A00002000C6776577E8000000D577C777D677668765F701EF4C6EFE26000000000000000000000000E1E0000A1BF7072707FFF053
    ∷ 0xDF5905A60013FCF550000D115000A35BCCB58CB5E9A0206320000910DC45ACB5EC65AC45323CA2E6B2476C6EDC7D10DDBCE52661EEC000000F84A35AFCD5C2C7E709BCDD2FBCC2F6BF492C6E203CC2E44C6EE866EAC00004DFE9A121D23CA2E6FE27BCDDBF494C6E323C82F78CCD01EF07801052E5800000000040001BF7072707FFF053DF5905A60013FCF550000D91
    ∷ 0x5000A35BE340018CCCB58CB520000990DC45ACB5EC65AC45323CA2E6B2476C6E10DDDC6DEDA00802BCF526710F84A35AFCD50C6EBCDDA7692FBCC2F6BF494C6E203CC2E4E5A000204C6EE866DFEBA121D23CA2E6FE27BCDDBF494C6E323C82F78CCD01EFEB20000007801052000040001AF707A707FFB853FF5905A60013BD555000A35BE68006308D35CCB550001490
    ∷ 0x200014919CC5ECB5ACE5EC45018024FE323C62E6E32000020FBC82E6105D4C6E00006000027CA0FB0F0000AB0257A42902BD22F6E04000000210077A03BD22E6043C82E602EBF928024D5E68029F3D6800109A60029D00FB020C31A2D214077BECBDFCC503101FDAD39416A2C00000AAD0188AA2E080000000986BF82F3D02F6803D02E4023C62E69004A35815BA2C6E
    ∷ 0xDFBC82E6E4008800D29002E603BC062BB34791C703C080EBBDE9DC45BC7505A621BCC2F5E69006204E36FE27323CC2F7101964121007109312000AFC018024EE023CC2E4E020000207804852A1EF2C6E9677277786779577857706270213BE8A07FF8C52E3C0028002003AFFFC5506A7028039FF0180A358018038FC01AAD52960358CB5E840000002003AEE0288022A
    ∷ 0xA5C7072603181A88B253A2510255006A92C6E45BEA8091000013FA5B02003AEE3000091102800E6E20070091023C62F4030038EE023C0DA8024080E80208065201830162023C62E507807452C677C5776687D577EC00100001EFD6776C6E6777028039FE6C6E104D9CC5CE49305E6123020039EFE360010122000C28243C1E2A0310805B229002E60F8038EF044080EB
    ∷ 0x023C9078030039FE043C22F666F12C6E2FDBFC55A3D1DEC30019441146A3FC7D0218BC43E5C0008802FC205A020039FE028038FE0185016303BC42F6023C7EC292460C6EE80020001006E892028038EE6C6E9CCD020039EF0010ABFA2FFFF811243C1E2BE08000002F8038EE244080EA22000C28223C90782310805B229002E6230039FE02003AEE0180552801AA8068
    ∷ 0x0288022A6035072602003AEE03181A88A2514C6EE900200002552AAA0200006A1FFFA0931B7692C60501242902803AEF05F8F02BE10000800684A3590013FA5AEC450D3B0501316907340FD805801E29060589AAE08080302006D49305813169052B905A023C25A905CAD26B062F8058024080E90641F3EA022AD52B031A948801832162023C62E507807452C677C577
    ∷ []

pub length-core0_lines_653 : length core0_lines_653 ≡ 25
unfolding core0_lines_653
length-core0_lines_653 = refl
