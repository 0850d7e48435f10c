-- ===== src/BootLoader/App4Core0/Lines2003.antt =====
-- inc/app4Core0_6678.h: lines of `_app4Core0` from line 2003 to line 2602, six to a number.
use dspc8681_linux_driver.Base.{ℕ, ◌≡◌, refl, List, [], ◌∷◌, length}

unfoldable pub core0_lines_2003 : List ℕ
core0_lines_2003 =
    0x0000000000000000967725F7877795772577867705433A28054080E802288264068C0FDAE0E00020058403E207BE09C21000400007280FD901A8226405807C280604A35A02007C2A06807C28028C2D5901A8A26402C34C2A02946CA002C080EA91C19AC1E8000000860F9E693180A35831A8025530AC03A230002010200C4C1026140284E020000112C54C6E01820162
    ∷ 0x01B8226407900FD80238A26405381FDA063C42D6E0220002018C2D58018C6CA0018D60F805B88265070C807802380264003C6C6EE80000000000600001B80274070C227401B802640000600000386A78C190C265C22822E60FFA3C1001844162C20C9F9AC22822F601A81FD8000C226400006000C20CA264C1802D58C18C6CA0C18DA0F800000000C70C8078C02DC9F9
    ∷ 0x982A486EE800A000C2380265D03C4286C190026430000610200DD810C9E6878631A80254E400000000000000018201620180A35801A8025400AC03A2000A08100188616202300FD807800852C6776577D577C777D677668765F701EF0000600000000000E3C000A006BC54F702C34C2A8577867705100FD801AA026402C080EA031422E6E080002002A86264068C0FDA
    ∷ 0x020C226401A80274000000000314DFFA000000000228227405100274050C227530E525A601A8A27492E5D1C7009003A206BF4628E282021006C080E801B402640600A3580580A3580234805811A60C6ED0348121E4000000C2100264021160786C6E400CD0000590C000136285066C6E01880162E480080001B40FD8018C026400004000063020590234894105800C50
    ∷ 0x003068F8CFFA8121C21002640211607801C08329023FFE2A01C080E8000C0204024080EA021002E602C0082A02C080EAC29402E7D023812000148F7A02C0062B21C00A2802C080EB21C080E8301B8121229402E600148F7A318C026402C00E2A02C080EA00002000318C0204A86F6C6E300C9F7A229402E723C0102B2240822924294264E040000823C080EB224080E9
    ∷ 0x24284266300B41212310020420140362221C02E40000000003281FDA0500A35801830162100040006687C577C67701EF6C6E76F7EE0005009577267731F7857702DDB42B035DBA2802C080EB034080E801DDCA29E0600000025DE62A024080EB01C080E9B2D6DEE8C60F0059D000141092469DE9E9003080C59406A0018000A9C20C80F90DBB6867C210E05901800068
    ∷ 0xC5106DA0E1008080000C2A58223052640000200002302266023C0C6E0210205800006000E200020001AC6A6400006000000C136201848162002BE058CFFE6121C2305264C2302266C1900215C2102059052BE1A0018000A801800068000C2A590000000100000000D500002BD180002900800FD8D500006BD1800068D0000990C00F5011D0287A79958C1FDA8000A358
    ∷ 0xC0144120018401620500002B018000280500006B0180006875C70C6E00287A78C0184120D22836E62C6E2C6E0010036201888162E2200002002D4A7A3FFC8121322836E6301003620C6E71F7D577C577A1EF6677EE00000092477246020C02656B320013025C4C6EAF286C6EC0000D934056204EEBA13002D018AA788000A359A768AB32C0001590B000A358C0442120
    ∷ 0xA7680332E880002040466332C0001893A7682056A29002E68000A358C0544120D0264121E0A00023C29002E6005C41210004A35AD3001829A76820468000A358C0000610E2000000C29002E624276C6E004C412000004000105582A3020C0264004C6120E240000802102058020C02746C6E105D02942FDA029002F6020C026400001010E08000003FA8412002102058
    ∷ 0x020C02746C6E105D02944FDA029002F6020C0264E10000002640670A020C02740000200002950FDA029002F6020C02642640670AE8208000020C027402948FDA029002F6020C026426406C6E020C02743F888120E2000000330015A932900225200C0362000080000000000000000000000000000000000004100FD801A0026435C65A320C6E5AB2000C02244C6ECCF7
    ∷ 0x00900A78E5800000801A8120020C0FD8D0118121C00C322506F8404690000110801B8120E2000000050AE1C6EA2007A600090AD9001C1FDA30704120EA20E1C600090AD9E4608002001C1FDA30304120C120A35922BD005B2213E1A03104A359218806A0B0001190A0903224A2941FD8A2081FDAA30C0FD800C60C6E820BF05B10004001E2000200830FE1A100943634
    ∷ 0x019B40F1486702472090322500CE812B20943635E5008800831BE0598213E05A79EEB1A610006000D0162120C68C13A20627B2C7E8800030C2141FD872460C661C670E340300A35B0289F1E210071413023D1059E0C0000402461AE5019C21A0C0000691C2000FD9C7800C53C1A00274C0A49362E020000200A43362004A6828004080E802000FD907800C5200000000
    ∷ 0x000000000000000001BC94F7100D6C1289D202460B671A7602BE7D29C3D6042B2AF70B66E98030B0C4000040C3D00429C31B188AC2520429C380C26A0180C069D0001F12C48E1EC102C080E9C200402AC31B9C88C4235A88C380C268C200C269C0140204028C0FD9080C907A040C907A048C907A0A3A91C1C2900276C29C02F6C29C0276E1008080C30C0276C40C0274
    ∷ 0xC31402746C6E105D10551AC301A002E459C26C6EEB00000001A40274022402E69A436C6E024002F6026803E202118FDA0D1003A2E0800000026803E202114ACA0D1003A2023E9D2B0242A428024080EB024080E80F80142B00100286034B80280213F07A01880028034080E82291626401800068018CC078018F0F58319002F422809C5021970F5821914275027CA358
    ∷ 0x01BC92E6E0100000008CA3620000000000000000000000000000000000000000000000000000000004C2C02804C080E801A40FD8020D0264029013A202CB802A0208002AE010000002C080EA0200006AFE26A24102130F5B020CC274020CE277020C6058E0800010029032240190A3580470A358080D00790380822808410F790380C0680017EA59081E084103003FA8
    ∷ 0xC8C00265080FDB09C18C2058091A0CE0C0204123C2800828C8C64F78C84609E0C8100235C0146AF8020403E210004000080F805808438F58089E0078094402640F04A3580F8FDB08099BECE00297ECE0094E4F980848AFF902F86CE008440274019413A2009003A2129225B00C6E6E880C6E0C6EEE001D00CFE24121C2903225C80D0078C8410F78C840E0780017EA58
    ∷ 0x0200A35A02100F8A019003A201A45EC0018C0204028403E20000200010004000021003E2021003E2020C9FFA021003A2009403A2008C836202206058000000000000000000000000028403E210004000023F3828024080E80727003C0300C26A0C6E9E41EA000000107D013502191EC20E30116D10750C6E020C026401801028018C92F8E1A0000000002000020C0274
    ∷ 0x021002E6018C026400004000009403A203388A280280082804280228034080E99A6392C7039832650400C2690484A358028403E2E08000201000400001A002280180C268000C0264A57A6C6E009403A2028403E2E200800010004000000C02648406BEAA04900274009403A2A6FA000CC004A358E4908800C283E00000002000C190026401C66C6E0C6E2C6E8E691C66
    ∷ 0x26C10293EF00280031901FD920152120369003A2324000283200C2680C660C6E01907C41E4000800021C0FD8020C367426D01C6701808028000CABF8CFBC8121C2141FDBE0800020C3983264C213180A008CA363027CA35800000000000000000000000000000000A5C736F701BFD42902BFD62A4646857701C080E902C080EA0418C265E12000C3033FCE2B03BFD829
    ∷ 0x724610DD028C026503C080E8034080EA01A8C254E08000207A83116D04284274305C8123219C026500177F0805989078D20C0204E020000228666C6ED0137F08D0001313023FC82900800FD8024080E8C0100264E0200002827FF7AA8200006A0C6E0C6E02009F7AD200042B68670247204F4047EC803000300006912090BF792010A9B2709882655004A35A30166120
    ∷ 0x00002000918C02048004A35A00004000900C9F7A300EA1212098826402C07E2B900008908007681102C080EA9008941182140284D0470627030026280186016200089410E10000000000400085868E2704000C290400A35B1B761B770186016205A625A6EA40230801A8227401A8027501B40FDA053C33E5000C036206BC52E60000600000000000A5C736F7023FE42B
    ∷ 0x01C081288577664601C080E8000C0204024080EAE12000C3021002E602BFE82A02C080EAC29402E7D023812000148F7A02BFE62B21BFEA2802C080EB21C080E8301B8121229402E600148F7A318C026400006000318C0204A86F6C6E300C9F7A22BFEE2B3000099022C080EA229402E621C08028E020000223BFF02A23C080EA01C080E9042C4264030C020501CD02EF
    ∷ 0x042CA266E4000800018341620500A359032C1FDA030403E210004000002DC20400006000D1AD4264C09803A2D2433A2A0284A35AD2ADC256D20C2264D24080EAD0100286D29002D6D1AC0274D22C2274D5900274D58C2274D1ACC265D29022E64C6E2867E8000000D28CBFFAD29022F7D09803A22000071121B40FDB253C33E43FFE681126BC52E6208C636201820162
    ∷ 0x01B40FDB053C33E4008C636306BC52E60000200000000000867735778577B5C6100DA412063F462900100FD8D0002493064080E8E060000CC1B002640200A358C5900FD8C5100FD811A60C6E023081A0D0328121E2000200C2100264021160786C6E000CD0000510C000136285066C6E01880162E480080001B0026400004000052820590230894105800C50002868F8
    ∷ 0xCFFA8121C21002640211607801C0122801C080E8050C02640500A35A0000400000280AD8D012A120000A101001836162850706261FFAEC130200A35A002BE0590528205BE0800010052BE1A0CFF8A12001C0182801C080E8000C02640580A35801C3642801C080E8A83A0C6EC18C026544460A670FFAE410020D6A64018861630C6E0C6EE8A09012002BE05901C36428
    ∷ []

pub length-core0_lines_2003 : length core0_lines_2003 ≡ 25
unfolding core0_lines_2003
length-core0_lines_2003 = refl

unfoldable pub core0_lines_2153 : List ℕ
core0_lines_2153 =
    0xCFFB212301C080E8C18C0264052BE05805AC2058C200A35A027CA358053C33E501B41FDA063C33E5000C0362053C52E6000060000000000005BC54F501C08329023FFA2AA5C79677024080EB01C080E805C34E29E10000C002C0082B2577957702C080EB05C080E905100FD8000C0204021002E6E040000805AC0266052A026606286266C29402E7D025812000148F7A
    ∷ 0x02C0062B21C00A2802C080EB21C080E8301D8121229402E600148F7A318C026402C00C2A02C080EA00002000318C0204A86F6C6E300C9F7A32282265229402E723C0102BE080002021C0822831A8026523C080EB21C080E830000911230C0204221C02E42429426420140362319002743328026403281FDA018521620228226401A80264000060000190027403280264
    ∷ 0x02A8226501AF8059022C905B66972393020C8264E4000400B587127502316F9A02982274032802E700288A780200A358C20CA274E02200000188A35801A8A2740028CA7A221402F6D577657701EFD6776C6E65F7EE00040086773577053C35C401BCD4F657476646022C420510010013A74E9646E9201080021150FB01B408D902BCB629051008F0021148DB02C080E8
    ∷ 0x95A9FA67E8002000019152F8302CC2053000099186062047021155E221AC026420071410E10000C04004A358302808DAD0001690AC55CC3501850162002CC20405288078E1000080002808DA00002000D0001290D000A35BC32952F9C27FFFAA201C612032AC42653004A35822AC426400000000C283E0002C670C6E0217E058C1903224E200020001C66C6E0C6E2C6E
    ∷ 0x00034001A6412641DE080C6E0B6A087AD0070410E7608000D23CB7AAD24080EA85060C6E01BCD2E600070010023CB7AA024080EAE0800020CC550C6E8606BC4501840163022950FA0528807801BCD2E7C5778506E860000C063C33E4053C52E600000000008CA36200000000000000000000000000000000867736F766468577062C0264068C0FDA01ACA26402080028
    ∷ 0x00000000E06000040033EA58C0000590D0043410018C8F78A5C685860000000001880162E2000000843A0246D1ACA264000D0F586687C57701EFC677FE2676F70C6E4C6EEF209142D0000791C1AC2264C00A3C10D22C026400000000D0028410EDC00C6EE80020000181016201ACA264022C026400004000018EEF590002801001ACA2740200A35A022C2276022C4276
    ∷ 0x022C62770184016202309CA301A94C2946560686E8001000D0000A1301C080E9D1B40FDB7240FE26022C0275C0083010D2280FD9E1000080D53C33E4D00C0363D63C33E4D6BC52E60C6E0C6E0188016300000000E200020085066687C677C57776F701EF00000000000040000000000000000000E0E0000B06A736F79577A5CF05802C2B867757478577974605100459
    ∷ 0x2777B64EEB60228B00157A78002CBA7BC0155A782028BA7A21B0026407101FD8C0264120220FE0582230027502001828220C023400022C1002381FDA0228045800002000018801620200002B002D4A7B01B002650334863004800828083DAE28084080E8031945F905100860040FE058043002750419257823200FD9002C9A7A20289A7B031A0A243FFFF79030022010
    ∷ 0x32381FDA32280458030C02340000000001B002640004A35800000000C283E0002C670C6E020FE058C1903224FEA62C672CE60C6EEC8024200C6E92C72C6E01C6000000000003400167772641C677C577D5776687EE602800000C036206BC52E60210B0780000400000000000000000000000000000000000957725F746478677024B8A2A024080EB104D2577B5C64746
    ∷ 0x0C6E6646EE60000C001003620182816201AC0264067CA35800282A5805CB8C2A05C080EA008FEA58822C02E7900005918004A358D0306120801003620186816286066577E8002000C677768701EFD5776C6E65F7C1ACA26400006000008F7F08802C4264E0E000059000A35800004000C1AC8264C18060F80C6E0C6EC50D50FB00000000E21002001003DC13022C0FD8
    ∷ 0x01ACA264027AFFA8C506850700000000018C8F79E2000000022C026410057C1301ACA2740013EA59083A8587C21002E6D22C02E6E200820000004000C01003620183816286066577C677768701EFD5776C6E65F7EF000580001003620182816276876577D577C67765F701EF4C6E062600000000E78000A0023E6E2B01BC94F701BCDA28024080EB01C080E8018C0265
    ∷ 0x029002E6023E7E2A024080EA7A832C6E000F7F08305AA121221002E6D31002864C6E2867E8400008D01B7F0A30001491204F4047200D0F59201509F27004A35B01C09428E080003030000E9301C080E8520C42642C6E2C6ED2100286C004A35A01C09828E100000001C080E800000000D0110F5A200C0265C8660CBB31C094298B778A67EA00930031C080E922BB8D2A
    ∷ 0x320C4264230026A822C080EAC0000890D0063813C1C09429D2140284C1C080E8C20C4264000020000185016201C0942801C080E8020C426400002000EE002C6EC0000611000C4274D20C8264D00B7C11D20C6266E0400000D1BC92E6C1BC92E6000000000000200000004000008CA362000000000000000005BC54F501BFBA2801C080E925779577018C026405431A2A
    ∷ 0x054080EAE100000075C64646000C2A58D1A84265D22802E7D0001990C00744100584A35AE02000000C6EA587D19070780183016201A8426500100FD8D05A4121C029C286E020000005A94256020C80780228627432A8A2E701A81FD8322802E7228CC2643000A358000040003210A07B20148BF8C20CC2752000A35830109BF8D01D6121C22842E6C00C4010C21022E4
    ∷ 0x0183616202A882E682C76C6E10037C1202A84264E200020001A842E42C6ED2C60510A078020C22640228B803100C44120528A2F4E04000007587657701EFD5776C6E65F702A9425601A862747587657701EFD577ECE0140505BC52E400006000000000000000000000000000000000000000000000000000257725F7053C35C601BDD4F601C3822900180FD801C080E8
    ∷ 0x028C0FD8E020000004144204674622FC0C6E02EC02A09F7AD00019110490FF7804151F99E0C2000003A4EDB1B46902B30410DF79041442540320CF9922F4486720001313E442040803140255C2802028D20C0204220C22053300302900940A782025212130180A788004A358828C420595408B299540522B95BC805B923C9058C0000E90D00C9810954080EA954080E8
    ∷ 0x82149FFA820C4256018501620228020795861733E8002000042802E5100A441305000029042C1FDBA74A1B7601BDD2E600000000E200820002109FF8020C22540000600002109FF8020C025401BDD2E6D5770C6EE8000000053C52E405BC52E4008CA36200000000000000000000000000000000000000002577357701BD54F601C0912902C0902B05100FDA01C080E9
    ∷ 0x02C080EAE02000000314028703BC9DA9028C0205B347624603C08F2A03C080E803C080EAE1000000DE098EE84867924EC0000711C09C028620000D10D006141002181FDAE060000BC20C0FD8C5141FD8CC35AC75018401620059A12101BD52E6300CC810E0800020018181620190226402281FD802281FDA0000200010060C1301BC22F5000000000039A12101BD52E6
    ∷ 0x50000C9152A79506033CA3AA42407A2850060810E10000C0424080E842900264034080EA0277A02A0240806A033FFFAA0014136233140FDA0280A35A053CA2F601850163FCD5DCE5A73681C6ECCD464A01BD52E6E700858000002000CC35BC650183016201BD52E665772C6EA1EF757700000000E6400008957736F701CB8A298577867701C080E8018C0264A6466746
    ∷ 0xA5C79646ECA00020000C1362018281620529EC28054080E99607668601A8023402284237E2000200031209A2032882370DA2B58702A8C236019119A101A8223401A86235E0800020EECB1E430228A2361008BC131B7795070228E2379672072610063013E52004C206278506024B8C2A024080EA4C6E105D0328305B01A84058950702EFE920300101A86059050C0215
    ∷ 0x05980296058C021505100296000040000187016201AF0CA0C577668701AA0CA1020D507A02AD0CA3D577C67776F701EF72C07230EE2002020000200000000000000000000000000000000000000000000000000000000000464625F7053C22F401A80264062675C600002000000FEA58C0768121E1200002D1A8A26501000FD8B28D4A884A677982008F1F09C2A8A275
    ∷ 0xD308A359E1000080C0001592C084A359D22806A0900F61208FFF2411920CB9A301040FD990A82264B20F3F080182616201A8A26400A8226400004000020CB9A3020F3F080000000000109F98C18CA588020C49A1062626A60290ADB0820000A902940A58E1000080C1A8A2758506A628C2286265C0000A10DFF8A01005A62C6E030CE7A0E4400808C20C0A59C2288275
    ∷ 0xC1AC1FDB020000430300802A0186016201900FD9022862640000600002288275020C0A5801AC1FDA000C0363053C22E46C6E65F7E800000006B227770280C06995779677D5C684BC565B0273AC358CF7003C22E6E7A0000105111CA20210B2FA0614B07A0590A07A302C4121223C22E72F40A42B2684A35A2F4080EA2F800FAA222C02F6BC7DBC4D0000400002902D5A
    ∷ 0x0317E0FAE100000002A8DE420297C07A20CD10CD0334CCE20318EF9A026FBC6501888162E48000006C6EBC0D2FEC2121223C22E72F40A42A23BC22E62F4080EA2F800FAAE020000002902D5B323002E6BC456C6E6C6EBC0D2FD64121223C22E72F40A42BE18000002684A35A2F4080EA2F800FAA222C02F6078008527707D57701EFD677EC001400073C52E400006000
    ∷ 0x00000000000000000000000000000000000000000000000001C2D22905BC94F4053C62F501C080E91AF675C60000082A030C3264E20003004C6EEC010867C668C0000411D29420582FFC8120318C80590C6E0C6EE8601008033EAD29023F582B0626164705000040034080E9024080EA1392036CE8823030030083AA0E2AA7E8C009A810041002E40726F362021C1FDA
    ∷ []

pub length-core0_lines_2153 : length core0_lines_2153 ≡ 25
unfolding core0_lines_2153
length-core0_lines_2153 = refl

unfoldable pub core0_lines_2303 : List ℕ
core0_lines_2303 =
    0x028403E2E240800010004000021003E2A662262602121008021003E202109F9A021003A2E0800000009403A20205C02B0004441002180FD8020C0274024080EA02140FD80188016201EF7587053C62E405BC92E4000060000185016201EF7587053C62E4E420080205BC92E400006000000000000000000000000000000000000000000000000000024625F765C79577
    ∷ 0xC0001B102577867705433A28054080E801A80FD8E160008DD00C226455C71EF200002000C6007C29D0001613C228A2E6C5A882E4E040000002002D58AA30660206907078002DA9F8D0488121C2340265C2280FDAE0400000C19002640000600001B40274068C227401B402640000600000346A78C190C265C29022E60FF6B41001854162C28CBF9AC29022F601A81FD8
    ∷ 0x000C226402280FDA00004000C210A2E6C1802D58C18C6CA0C18D80F800000000C6907078C02DA9F994AA486EC2340265C2280FDAC19002640200A35802280254C6776577E820A00201AC0FDA053C33E7000C036205BC52E4000060000000000000000000000000008577357705100FD802A842664C6E75C6100BB01302143DA0050403E2E1200002100040000243722B
    ∷ 0x01A84264024080EB02A86264704D404D0300A35AE4000000030C4348038C6CA104140A580310DE4004980265030C6CA003187C40039C7C4093C1935104A46A5800250FF8C29442E6021042E6018C434801907E40E020000000000000C31602D6C310C2F6C31082F6018C026402943A5A00004000018C6A58B5A90C6E029806A2229222D62290E2F62290A2F6002A4264
    ∷ 0x073A6C6EE8208002C00AFC10C229A2640000400001840162100B00130229A26400A803A201AC1FDB053C33E4008CA363053C52E600000000000000000000000000000000000000009577367785778677124E31F706A00FD986564747C600A35BD0001C93E2E00120068E2046564E67569000A358C030412005AB105AD00BA411C02BEA5AE060000BC02C0FD801826162
    ∷ 0x02281FDA029040E6031020E611556C6E029020E6E4000000031040E600006000029822F6061020F6100BA413061040F6002BEA5B002C0FD820464867D0000991C22808F1D22C06A3C22808F220000711D0340FD8E02000038000A358C0224120302C1362018481620014A12106868587002C1362E40004000181816206868587C0124120D00BD411D2306264D330A264
    ∷ 0x00000000E04000040181416201BC52E6053C33E4063C33E4053C33E6063C52E6008CA36200000000053E14F401B2FDB5564602470243822B30000E11C8667668024080EAE4C00818C0000A912280202B321002843033412120940A7B229041A2D300302BC080A35BD294494240000811D0180A7A4000A35B4214028420000890402B412030000D112310228622900286
    ∷ 0x000B7410000040002C6EFDBD0046812102CDFDBDEA0200002C6EFDBDFDBD524D0D8A2C6E0294CFFA02148FFA000000000193FDD8E0E28020018C66C8020E100801840162023C905802408B2A01C0522903006B2A01C080E9024080EB023C905810091C13040C02650312124D0500A35904281FDAE202030001BDE2E602280FD800000000053E12E400000000008CA362
    ∷ 0x0000000000000000257725F701BC54F601C38C2801C080E8000C42040204A35A05BF5028E020000005C080E800000000C0686121D22C0264D20C42560C3A122601AC8058E4008800C18C02640500A35800004000018D4A6400006000000C136201878162022C1FDA021002E60528205801AC805800002000002898FA2FFC8121218C0264218D4A6402405E2A024080EA
    ∷ 0x6C6E104D001003620185816205BF542805C080E8E080000001AC02640500A35811A64C6E01AC81A0D0288121C18C0264C18D4A64E080002000006000000C136201838162104D95870528205801AC805800002000E1000000002898FA2FF08121218C0264218D4A642C6E71F765F76577008CA362E6000000257725F731F7957702C0002902C0782B6746474705000041
    ∷ 0xA6086657EA60230001C0702902C080EAD00010134056204601C080E9086610ED018C0265E50008C0A2123109900481220C6E92620D2A924702189C42D2902286B68807A7E9909080D38CB07A03A836F60210028405282058A6084C6E08762046CFFFFE90E6000C0082123108821210089000A35802101FDAC000051102189C420FF2812100000000000C807902123108
    ∷ 0x002C0363002836F4022820E6052820580C6E8586E80000000181016200100FD8D52BE059D52B805A08E6250680000010802C0362E2000000822820E691BC52E6822C0FD8D5770C6E65F76577008CA36200000000E3000000867736F701CB8A2801C080E9053C35C4018C026476464746A5C7A646EC200002000C1362018281620229EC2A024080EA01A90DA024269646
    ∷ 0x01B02234E4000800C283E001053002356E66B587021509A302B04236004700010237E059E080002002306236C19032242CE72C6EFE27C68601C60C6E0C6E2C6E00034001E78000601672264110077813961726611004EC1306278606024B8C2A024080EAE2A00112021002E605B0221406300214026F2C6E0185816201AD0CA001B06078E1000000522681E2D2280FD9
    ∷ 0x6687C57701EFC6776C6E76F70000000000000000E3A0005031F7131300111A5903100860019869A1C000171308678769029FBCA3E4200803029C69A020001313D29C89A002147FF9D29F9CA2D19889A0D2147FF831807FA8300CEA781AF606A701FFFFA9D08CE9F8834EB7E9C08CC9F8309CBBFAE240030C028C1FDA2098BBFA44101FD94293EDA35080004140000610
    ∷ 0x800008905001BC1051BC52E6429F18084493FDA0000020009FFA1C1001868162BAE271F7E8000000A1EF4C6E0FF3541001BC52E60220145A02180458000020006C6E71F7E8200000008CA362000000000000000000000000000000000000000000000000000000000290022401BB0C2801C080E862D02C6EB1C722DC0000400000150F58E3000000C1903225B1C1A53A
    ∷ 0x100040006C6E324D00110F5A2006812121903224E140800872C6B1C110006000AA33025C04A76B32A7680C6E886696E922903224E7A10A02C2903224A8E7072662F02C6E6C6E23FC001C8F5903FFE8282426ADFAE9C0A000100040010201404303181FDA02188573C2903224F3C72C6E62E092C1EC002000C310E07A6C6E236C00188F590228A35AC002612302188573
    ∷ 0xC2903224E040000062E092C1C310E07A1000600061EFD346431800D802180FD800000000E1200002929325F701C8442905FCA358BE299577024B8A2B01C080E8E86E2577E92030C3201008D9024080EB050C9E41058C0FDAC0258121D21002E6D01003620188816200280264054B8C2A054080EA682A2C6EC1808265D22802E6C2282264E1008080C00C136200100362
    ∷ 0x018381626587657701EFD57765F7858600006000E7000540018181620013EA5885076646D228026405A6104DD1A8027400000000E2800030D290A2040010036201854162D197CF58D190A2546587657701EFD577EC001400022C0FD905BC52E400006000000000000000000000000000000000000000000002126630029000DB05A616560294EF5B000C026403106D18
    ∷ 0x00942F5AE0A000238346A346C8E7BC49201410F9211447A38B67C97744103059048089A0E2600208431002B763203655211487A303A48CA14BE7F0470001EBD9310C16A2E2000200D0174121C6A413A363203674C2101FDA01A10058C2941FDAD4070C66E8001000FBF12CE6020C57451C673D4501EF1746001D0F5A001C8F5B24210059E1A4008322A00374001C4F5B
    ∷ 0x24208059232003550180002821A00234001C2F5B2420405921A0223421A00234000000000000000000000000000000000000000000000000867736F7024B8A2A024080EB104D8577A5C74646026F2C6E01888162E720000205CB062900281FDA05C080E801AC02652000119020016C1002280FD80680A35811A60C6ED03A81230546102906340FD8054080E80228D264
    ∷ 0x0013EA58E03000002046076AC6302940D0016411C03068F89000A35885065EAA01880162E420880301AC0FD8018C0264063020580691AFF800002000003068F8483A5AAAE800800001CB8C2801C080E8018C02640184016206900FD801CB8C2801C080E8018C026400006000000C1362018381626687C577868601EF76F7C67700006000E70003400004A35A2383E000
    ∷ 0x00130001043333A862462D6704333368C2566C67EA003300020D0671080FEDA10C6E52260083000105BD54F60093000104801829E0800000053D22F60727ACE612801BBFAEE74EBA4FA6E24712E565CF024065E0E7400F8C0210E571924762460C6E0247C1CECA400890035802A6284102180FD8E1C00080000340014ED5C246020016AAC21430B60515E0FA0229005A
    ∷ 0x03128942E0400004D34693C61002F813658782C7053D22E701A91059000C036205BD52E6E0A00002020E6940000040000000000000000000000000000000000000000000000000003A4E4A460A56235602C62FF101C800D8018CE7A10414AD18E40ECDE8E860100B497691C7C10C47A1C08CC0F9C40648EFC08C97A3048489A100102F5AE1200083F0CF48670005EBD9
    ∷ 0x09A48CA0D0000C132810205928C8023502180861E02000039380A35BC29C18F2C6A413A2A44036544440367401C10058C3401FDA000380012CE6934703CCF0FB020C5745021857C6F2C61C661B46D2460C6E0C6EEE201802000C0363001D0F5A001C8F5B2841005923C00374001C4F5B284080592440035424400234001C2F5B284040592440223428C0023502480FD8
    ∷ 0x0000000000000000664625F703BB002902C2D42B064784167246957703C0806902C080EBE3200343877765C702BEAD2903BF4A2BD756E7460500A35A0604A35925778677E92000C202949C42001402E606A00FD803C080EA02C080E8021C1FDA30000A11241C02E5221402062007E81030028C1007269F330500A3580186016286066577E9002000C777C677D5776587
    ∷ []

pub length-core0_lines_2303 : length core0_lines_2303 ≡ 25
unfolding core0_lines_2303
length-core0_lines_2303 = refl

unfoldable pub core0_lines_2453 : List ℕ
core0_lines_2453 =
    0x65F701EF00006000059402F401880163020C0FD8E0E0000A1FF3B013978785868686C70E052C8277100A281241920246D1A80FD9E4C0042CC67765776587C77701EFD57781C665F7000040000000000000000000E1E0001401BF14F6053EE2F4043CC2F6043CA2F4EC659CE5AC45DC45BEC59347EE000000E7371746CC6DBC4D023DC0281FF5D01305201FD9043CA2E7
    ∷ 0x024080E8E06000091247EE452007A12000388120BECD0626043CC2E42C6EE737206D7246ED2020001FFFD813020C0266CCCD8EC5100A1412A9FA0246003C22E60400A358E2808020000040003006A1200404A35802BDC02A02C080EA035A30299EEDFE4DE80020001FFE701303408069820A92C6EE4D0626053EE2E40000600001BF12E6E180800000006000008CA362
    ∷ 0x00000000000000000000000000000000000000000000000001BED4F6053EA2F4043CC2F6043CA2F4EC659CE5AC45DC459EC59347EE000000E7371746CC6DBC4D023E00281FF5B41305201FD9043CA2E7024080E8E06000091247CE452007A120003881209ECD0626043CC2E42C6EE737206D7246ED2020001005F813020C0266CCCDEE451009F812A9FA0246003C22E6
    ∷ 0x0400A358E2808020000040003006A1200404A35802BE002A02C080EA0307E029FE6DDE4DE80020001FFE5413034080E9820A92C6CE4D0626053EA2E40000600001BED2E6E180800000006000008CA362000000000000000000000000000000000000000000000000257725F701BCD4F6024E4646D000171101A80FD8C00C8264D0001711E0B00010020E8940C00AA410
    ∷ 0xFF26062705C08F2805C080E801860162002C0204E0800000023C88AA024080EA0AAA2C6ED1A84264D2A86264C1A84264C2A88264E0808020D0082411D2282264C0082411C2282264CC558CB5EC45BC4501880162E60008000000069000082810023C9A2A024080EA0C6EBC4501892162AC55EC35EA000000023C42F400082410023C9A2A024080EA0C6EBC4501860162
    ∷ 0x01BCD2E6E200000000002000053C52E405BC52E4008CA362000000000000000000000000000000008677277731F785775646B7461009CC13664E87460C6E935600000000E6E00F0001C3862902405C2A01C080E9024080EB06061587D00C0265329002E7E2000100C646B5879507D687062C0FD8100A0413C04E92C6664E0246D03808F1E6600500C0000A93D23406A1
    ∷ 0x00800FD88000A358C00B6120D009C0100000000001886162A72A0246C1BC52E7C22C0FD802408D2A01C03629024080EA01C080E9E0208002124D9333040C0265100770130312868604301FDA858671F7C677C577ED2200C2073C52E4008CA362000000000000000000000000000000000000000000000000957725F701CB8A292577867701C080E8018C026496464746
    ∷ 0x664665C7ECA00020000C1362018281620280802B06A9EC2806C080E8001559F9658E9507E800300005B408F0C200802B01AC0234018D0DA1022C4236029109A301AC22341006141302AC6237567295871B7707261003841396078586024B8C2A024080EAE2C0011C9687105D01B4205805100296050C021400140362018681620200802AE020000002289D83C6776577
    ∷ 0xD57765870228807B65F701EF2C6E826302101FD8E6C00028957725F701CB8A2801C080E9053C54F4018C026465C7464600002000E4200002000C1362018281620004A358C283E0002C670C6E022BE058C1903224E20002002CE62C6E0C6EFE272C6E01C600000000000340010210205A05A9EC28E0E0000205C080E895872661C506B6721005F81210036C1306278586
    ∷ 0x024B8C2AE4C00438024080EA9587105D05100296052C221402EF0C6E0186816201A90CA0E240000065776587020D507B01EFD577826365F792462C6E0000000000000000E3A00011957725F701CB8A292577867701C080E8018C0264A646474665C79646ECA00020000C1362018281620200802B05A9EC2805C080E9D5076686001159F9E400080001AC0235018D0DA0
    ∷ 0xC300802B01AC2234021909A3032C42361005E413022C6237767295878586C606100354130200A35A024B8C2A024080EA9587105DE860000B01AC205805100296050C021400140362018581620200802A02289D83053C52E46587C6770228807B01EFD577826365F792462C6E0000000000000000E3A00011867736F7024B8A2B85779646024080EA6646104DA5C7A746
    ∷ 0x026F0C6EEEA00022018181621003341302461212024B8C29051008F0024080E802100264E0800020024B522A024080EA104D064700101363D6076586C1A842740383E02BE280020002CB862902B41FDBC328227603C080EB02C080E9C2A86276C1A80FD9C394027601830163C20C0277C52002F4C5770506C677668776F701EF2A670627EF0002C00000000002101A58
    ∷ 0x000000000000000000000000000000000000000000000000957736F785778677054B5228054080E8002802646646A5C706A80FD8E460000805281FDAD038612110472046C02C08F085800FDAD004A35AC2AC62E6E0900030C02CBA7A30108121222C02E7352C0FDA222802F6022C42E606280264022C22E4026F2C6E018281621006341395079586640A104D00119A78
    ∷ 0xD5341FDAE3208000002802E64C6E05862FDCA121686F6447C677C577D577668776F701EFEF400A40000060000000000000000000000000000000000000000000000000000000000000903D5B00903D591976003200909BF900043D735100204002100CE3E080001040002943030018F0011099FBC562183600000C124100A35B608808F3E10000C0610829A100000812
    ∷ 0x621029A352109B3100000810521029A362109B310100E8DB0080E9C3000004106080A35B22109979200029C300000413000000010000000022109979200029C34087E05B40000012000C036292100CE18200A358921009E09210484000002000000000000000000000000000000000000000000000000000857736F705100FD802280264A5C7062705FCA35800000000
    ∷ 0x0013EA58E1200002C0001191D2A8A266D1A84264D02822640000400003175F0A6A6F6860E800300003180A5A01980A5802188FFA000C9FFA200008103002641090470727E8000000201808DA000000000183016202A8A2665327D2470C6E2C6E00000000E6000C00322822653580002900973F0B88E772C6028D4A88018C85C822A8A274E100008041A8A27432284274
    ∷ 0x3228827401EF6687C57785866C6E76F700000000E700018001CB882905BC54F401C080E8018C026402FCA35A027FFFAA027FFFEA02948A7A018C0A58B5A975C621CB8629200008123010036321C080E8200C0264E0400000053C22F40C6E46460183016201CB862801C080E8000C026400004000E0400000023A8506C0001362000060000184016201CB842801C080E8
    ∷ 0x000C0264E0308000D0000210C000136200006000018401621007881201EF7587053C22E4E400080005BC52E40000600000000000000000000000000000000000000000000000000005BC54F501C02C2801C080E92577957705100FD8018C026402286264E1000080058C0FDA05409C2A054080EA85E80C6ED0324123C02802E7C204E029E1000000D004A35AC24080E8
    ∷ 0xC5900FD830000A90328CA35B2007681331BE8E2831C080E8318C02643228805A329002F60184016210076813629385860228805AE4000800029002F601BE8E2801C080E8018C0264000020000C6E8506000C1362E400000001818162053C52E501AC0FDA053C33E7000C036205BC52E40000600000000000957725F701BF9E287647257701C080E802AC82E7050C0264
    ∷ 0x07274647E8A00032032822F6032842F6850E75C602A802F710087412002C62E64C6E9247E880003022A822E530000D1100801FD821842264232842E42C6EA96762DA9506EC00300034462147074E01474290227443A42264001D0BF8C31C0FD930000028E0700006C310427420840264000060009100A35A6FFFFD136184226407462147E800000000C70C6EA1B624CE
    ∷ 0x1008681365778506D577758765F701EF00006000E760028401C07D29023FA82A01C080E8000C0204024080EA021002E602BFB02A02C080EAC29402E7D020812000148F7A02BFAE2B21BFB22802C080EB21C080E830208121229402E600148F7A318C026402BFB42A02C080EA00002000318C020400006000300C9F7B200000AA229402E723407C2B22431A2821BFB829
    ∷ 0x234080EA30000893224080E92318028421C080E923100266220C026420140362308C236200004000008C23620000600000000000000000000000000000000000000000000000000001C0162901BC94F601C080E8000C0264026E102A0240806A94692C6EE800000020000D918B2A8866C0001362020403E202102FDA009003A2BC450627E8408000003C22E62016A121
    ∷ 0x30101FD8D603E00000010000D2BC22E6BC4526C1E810000001C6AC3D0C6E2C6E000340001000400001BC92E6008CA36201888162E07000001000400001BC92E6A1EF6C6E020403E202102FDA009003A200019410E0800000018181621000400001BC92E600006000008CA36200000000000000000000000001C02A290240872B857736F701C080E9024080EA058C0265
    ∷ 0xA5C7120DE882002000004000002C0AD930001191250000403004A358D0236120C1C37A28C1C080E8018C02640000400000000000000D4A6468E66C6EC0804205D02A6123E2000200D52821A0D02968F89000059080812264800006909FF84C1085282058E0100000802968F880462C6E0183016205282058002968F8CFFFF913C1C37A28E0400008C1C080E8C18C0264
    ∷ 0x0000400001EF668776F7C5770000600000000000E3000080257725F731F7957705100FDA022882E605100FD80228E2E40726D347E86000000210ACA21008BC120FBA024600284274C2A982860584A35A0200A35AE080802005AC1FD80000000002AA225602A8E2E602A82276032902C60329C256E010000002A882E62C6EB76A0FFE14100294ACA20189016201941078
    ∷ []

pub length-core0_lines_2453 : length core0_lines_2453 ≡ 25
unfolding core0_lines_2453
length-core0_lines_2453 = refl
