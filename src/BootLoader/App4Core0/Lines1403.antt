-- ===== src/BootLoader/App4Core0/Lines1403.antt =====
-- inc/app4Core0_6678.h: lines of `_app4Core0` from line 1403 to line 2002, six to a number.
use dspc8681_linux_driver.Base.{ℕ, ◌≡◌, refl, List, [], ◌∷◌, length}

unfoldable pub core0_lines_1403 : List ℕ
core0_lines_1403 =
    0x00000000000000000004A35A2483E0002D664C6E02C2C0282746AD6705BC94F502C080E8E28003206246ED6702153D41053C62F5031006A0219032646FE72C6E1293E247EC2038032ACE75C60C6E1AF600186A78D2942059D297E05A0A6782C72C6E0247EC6000031C660C6E023EAD2917470AC6023F582B05000040024080E9024080EBE0A000301B766346030113AB
    ∷ 0x025C1392001E0A78C0003190C0142010041002E4E0A200110626B2E202141FDA020403E210004000029003E20204A35802120CE0E020000004121008029003E202A0BF9A021403A2009003A2038C62760224A26402281FDA00004000020C4274002482644C6E0626D0000D912826405630471047ED002C00B20C6256B20C425651A4E26400006A588004A35802100F89
    ∷ 0xD40C4254D40C625580180FD8820C4254820C6254C226420400006000C20C425400098121C2266204C20C625401A4E264000020000C6E8806000FEA59020C1FDAC1C38059E1000000C2008229C24099DBC0000812D00EF810C2C1EBD8C18C4DA0C200C068C0149FFA0181016202C1EBD9024099DB01C089C10200822896A945A20200C068E400080031906A640F803FAA
    ∷ 0x0FC3DB08027FFCE000000000318C8F79027FFFA8320FE9E002422A34002582040C3A6C6ED1AC1FDBD53C62E4D08C8363D5BC92E4E0808020020403E210004000029003E2029003E202A0BFFA021403A2009003A201AC1FDB053C62E405BC92E5008CA3620184016201AC1FDB053C62E405BC92E5008C8362000000000000000000000000000000000000000000000000
    ∷ 0x00000000000000009577367705C3542AB5C6867705C080EB063F4628064080E9053C35C4E0A0003201B002640580A3580500A358052C02E6023080588C3A11A6C2100264E4008800021140786C6E800CD0000490C000136295066C6E0186016201B00264E24002000000400005AC20590230894105000C50002C68F8CFF98121C21002640211407801C08329023FFC2A
    ∷ 0x01C080E8000C0204024080EA021002E602C0082A02C080EAD04A8121C29402E64047868902C0062B21C00A2802C080EB75AC9DC3E080002021C080E830206121229402E6752C028400148F7B720000AA318C026402C00C2A02C080EA00002000318C0204A86F6C6E300C9F7A229402E721C08229E10000802440102B3204A35A21C080E9244080EB35AC9DC230102121
    ∷ 0x222002E4230C020420140362242942E4352C028403280FDA0185216205AC9DC2052C02850204A35A060403E3022C02D610004000000860100186616202281FD895066627E80020000228A2F7100F281200B003A201C0842801C080E8018C0204052822F6052802F621A62C6ED0001290C0139010000060000185016200101FDA304A6121E020000020814A7A41C00428
    ∷ 0x41C080E84000081050139410420C0264000040000188016200101FDA2FFB612100814A7A41C0042841C080E800000C100010B81000006000020403E201AC907801AA02F5100040000311707B01A802F46C6E315DE800000002A822F66C6E315D051402F6051822F6009003A20010B0100C6E6C6EE840100002280FD9018201627687C577D577C677767701EF00006000
    ∷ 0x00000000E38000A00FBC0FDB07BC1FD907BE94F406FC20F605FC40F6073C607406BC807405BCA07401FCC0F66647664602C08C2B06BC2265043D02F6002E0204033CC2F6E040000C02C080EA043CE2F46867ACE5C0140287C1AC1FD9D0E66120C20E1008E0800020300006902010FC1331C05A2831C080E8320C0264000020000187016200100FD8C0632123D1C05A28
    ∷ 0xD1C080E8D20C0264000020000180A35902ACEDA20200A35A00AC8A792A67024E8184A35802148F7A02100A5A01C05429000C9FFAE040000801C080E931900265300027122015E811220C02648587ACED00000000E4000000318D026401830163023D22F401AFC224072CC2642C6ECD45000FEA59E400000001BD62F4C0001C91D6AC6266D1AC8265003D62E602384058
    ∷ 0x022CC2740000200000001FD9008DBA7B02349EC25004A359522C6276D1AC42650015E81002341FD8027CA35A5000A35A222FC236D1AC627501850162ECBDDCCD0FBD02E6E40000000FBCA2E4073442F40534E2F4023482F601B4A2F4027D739B0FB4C2F6023462F6022C826401AC62644C6EFE2700906A789204A358923D62F4003D62E4E0800000028C9EC092AC6274
    ∷ 0x00002000D22C426400001FDA9000A358C22FC23600000000322C6274068CE274060CC276060CA274050C82770FB820580F8C427502101FD8020C6274DD4DAD4D1015C812001A81210FBC1FDA06FC20E606BC22F4E040000800004000000C1362018381620FBC1FDA06FC20E605FC40E6073C606406BC806405BCA06401FCC0E607BC1FDB07BC026400004000008CA362
    ∷ 0x00000000000000009677277786779577013C8577068C0FDA05A01FDA9646A646018C6058E4E00000018F8F58013485B0000C20644C6E0626D0ED6121C2B4426505000FD8E1400000C22BE058204652A6C01C8121FE2768768004A358C283E00000002000E1400048C190322401C66C6E0C6E2C6E26411C66BE4856C76866A8AAC283E000E7C084402C670C6E022BE058
    ∷ 0xC19032242CE62C6E0C6EFE272C6E01C61C660C6EEF2020824647264101B422644C6E114D002878F9060C1FDAD6280FDA00314AFBE0A00000021181E2404711453000111021B4026530280ADB75A81FD86004A35AE040000C30524120022980FB000C2F58D7001029C0000C1328671227D5901FD8E4000800301C612100280ADA05EF2C6E023B18482C6E960701860162
    ∷ 0x002FE058E2800000CFFFFE90C02C0362C2301FDAC23B184805AFE0580000000000280ADB000000003022412105A81FD805EF4C6E01A80FD8020C362445C6960700000000E480002001810162002FE058C0000011C1A80FD8C02C0362C20C3624C2301FDAC50C0FD805AFE05800314AFA3021812121B4026500800FDA400C2F58022980FBD0001093C580102868671227
    ∷ 0xC5101FD83032412005EF4C6E022F18482C6E9607EA40000801810162002BE059052BE1A0C0000013D53C33E5D1B40FDBC22F1848C02C0363D63C33E4D53C33E6D00C0363D63C33E6D73C52E4C2301FDA05EF4C6EE800000001818162C677C5776687D57701EFD6776C6E67770000000000000000E3C00050957736F701CB8A2801C080E9053C35C4018C0264068C0FDA
    ∷ 0x07BF005AE020000246474646000C13620183816210091C130246950605CB8C2B05FFFFA8E2200200C0198121C228A2E705C080EA0210EF5BD22C02E6026F6C6E01888162E400000007BD005AC5778586D577668776F701EF82276C6E023C81A220002811E3C0022C32A862E6200E9811322842E6222802E42C6E272600148BFA2290205BE200000020000E10300C2811
    ∷ 0x22A842F6251002B42228A2E60C6E950601880162E4000000883A0246D22842E6C2AC02E70290205A0228A2E602EF4C6E02114A8AE42080020228A2F60182416207BD005AC5778586D577668776F701EF00006000E70002C002A842F6051002B40228A2E60000200001A94A5802281FD80213DF0A052B180809BA7608C00C181000006000018401620A7A0246C2AC02E6
    ∷ 0xD22C02E6E2208200C228A2E600002000C01403620186416202114A8A0228A2F607BD005A022C0FD96687C57701EFD5776C6E76F7022C02E6026F6C6E0186816207BD005AE2E0000502280FD9053C33E501B40FDA053C33E7000C036206BC52E60000600100000000053C82B5018201620013EA598587758ED0256121C18C0265D21002E6E1000040C228A2E6C00C1362
    ∷ 0x0185416202114A8A0228A2F607BD005AC5778586E8003000D577668776F701EF026F6C6E0184816207BD005A022B18096687C577E8E01002053C33E7000C036206BC52E6000060000000000000000000000000000000000006A7277702433A2B967725A6024080EA564795778577867705C09428E6A0092301BC54F705C080E803A942E7062CA264042902E701ACA274
    ∷ 0x032922E6059042E6069082E6061062E6029002D602A9C2D7028403E202942FDB90755065E8000000042922F6051062F7009403A201C0812801C080E8000C020501BFE228073FE82801C080E8018C0264074080E8D0001791C23802654046A446B32842E6E4000000C2BFE628C2C080E820466608C2140265D04E2120932842E6C2BFEA28E0800020C2C080E800106F78
    ∷ 0xD214026402BFEE2A02C080EA00002000D210020400006000D0106F79C00000A8C29402E7C2408029C23FF02AC24080E9C24080EBD22882E6D32842E7D0000911C3100204D22862E4C42842E4C0140362C21002E4D0180362020C1FDA0185016204301FDB032806A30500A358032842E600004000022862E400180363022882E60183816200340FD901BFE028D0001411
    ∷ 0xC238026401C080E8018C0264C2BFE628C2C080E80C6E0C6E00106F78D0406123C2140265E1000000C2BFEA28C2C080E800106F78D214026402BFEC2A02C080EA00002000D2100204286E6C6ED0106F78C29402E7C23FF02BC2408028C24080EBC24080E8E0200002D0104121C3100204C0140362C21002E491C70C6E03280FDA01880162E20000001000400001C33A28
    ∷ 0x01C080E8B1C7262701ACBD40060C0275059442F6E1000080061462F6069482F6021402D6C57771F7D577C677A1EFD677073C52E4E7000800967725F7877795772577867705434C28054080E806A80FD800342264E0E000200180A35801B4825406007C28A46AA5C7100C281201A88058000C0264E11080006506BE3A020C2264030CC264028CA2640000200002102D58
    ∷ 0x02106CA0E0208000021180F88EE8C240D0B48121C2900264C58C8264020403E3028C8275E040000005141FDA02102FDB020CA274009003A2053F46290240832A054080E902C0002A02C080EB01A8026402288058059402E6024080EA06100286000C0AD8D0208123C2100265C700A359C78000280211C0786C6E600CD0000810C0001362E200000085076C6E01830163
    ∷ []

pub length-core0_lines_1403 : length core0_lines_1403 ≡ 25
unfolding core0_lines_1403
length-core0_lines_1403 = refl

unfoldable pub core0_lines_1553 : List ℕ
core0_lines_1553 =
    0x022C0FD801A802640C6E4C6E0C6E0C6E00000000E6200F0207BC20590228894107000C50003C68F8CFF48121C21002640211C0790000000001C0082900301FD801C080E9D0001292C18C02644C6E858702C0062BE4000000000C9F7A02C080EB21C00A2821C080E9229402E786898EBB318C0264E400800000006000318C0204A86F6C6E300C9F7A30000A9122C00E2A
    ∷ 0x21C08228E080002022C080EA229402E624C0102A24C080EA01C080E9042D4264030C020400140363052942E4022402E401854162032C1FDB042806A21000400000148010018A6162022E0941022A094201B43EC0000C020405434C28054080E806A80FD800000000CF276121C034226500800FD88180A35881B4825466876577C777C677EC000400053C33E6063C33E7
    ∷ 0x000C036205BC52E400006000000000000000000000000000A5C736F786779577053C35C4073ED4F51000400006C34E2806C080E8E0600001003402640240162A024080EAA62A2C6ED51002E7D5B41FDA00280362E100808001818162002C02E6000060003FFEA12003409E2B0F80A3590288A35B05B781A001AC226402807C28034080EA022CC264029802F6018C2D58
    ∷ 0xA9B06582E8000000018C8078020C02640FAC825401ACA274020403E202102FDA022C8275009003A2073F4628074080E801B80264067C0FD8057C0FD80238805811A60C6EE8000000D0308121C2100264021140786C6E600CD0000811C1B47D40C0001363E1000000C18C026406266C6E01840163020C1FDA01B802640C6E4C6E00000000E4400C080630205902388941
    ∷ 0x05000C50003068F8CFF38121C2100264021140790000000001C083290240002A01C080E8000C0204024080EA021002E602C0082A02C080EAC29402E7D022812000148F7A02C0062B21C00A2802C080EB21C080E830228121229402E600148F7A318C026403400E2A034080EA00002000318C020400006000300C9F7B200000AA22C0822B3000091121B47D40220C0264
    ∷ 0x239802E622C080EA21C0102821C080E805114264164703EF03140284020C0264018A4162E10000C00400A3590300A35A100040000013C4100185816201AC5EC0018C0264120005FC00004000018E094091C70C6E10143412073ED2E4C677C577D5776687EC802820000C036206BC52E60000600000000000000000000000000000000000000000008777357785778677
    ∷ 0x664631F7D746F64E032CE264100CE413022CC267E1E000A0934E474706A00FD80240322B05382277063C06A100340FD8024080EAE0200003D03B6121021002E702C0302A02C080EA00937F0A0340342B029402E750001990034080EA431802E67A832C6E01C02E283398028601C080E8A8674C6EE8802000301F7F0A200C026530001410300F4C10332CE26423FFF7AA
    ∷ 0x2380006A0380FF7AD380042B686703C7009C87E230000891504640477084A35B201CA7E2E240020850266121B1B422640000200032180286A86F6C6E3010EF7A3026A121E200020021B4226403001FDA00B46A7901C088288000059301C080E8900D9010920C02040627F3520000000001830162000F3C10032CE2640C6E4C6E00000000E4200C0096970F2701830163
    ∷ 0x02281FD8860E078606B862650200A35AC0001591E12000C3D32C4264D0147011D22CA266D22C6264C009CC11C1ACA2640C6ED507E80000000181016200100FD8D0001490C0142C10061100580626464600000000E40000000181016201AC226401A80274022C2266021022E60228227601AC2264E0100000018C2264050C027401AC226410142C13050C22750C6E0C6E
    ∷ 0x0C6E0C6EEC101C00FE26848A01AC0264860E666801852162030F005801AC02644C6EFE26E8A08013860E6668D1B00274002C826400006000C2B422640181807800004000E0200001C28C027401BC52E6053C33E4063C33E4073C33E4053C52E6008CA36200000000867725F796462577003042640204A35A07FFC452B5C66746D2304277E46000045826686603100860
    ∷ 0x8018A3598636C6271FFAE813823042770218145BE12000424737C046043C91A008BC42E606264646000020000047A8DA31B04264E1200003A86F6C6E300E38FA3034412122B182254057204F204448DA4184A358E2200302400C18107004A35802C7E05B388000AB31BC42F569E2CEB0024420DAE40008003214907900440ADB91C72293321090F932BC42F701880163
    ∷ 0x032C06A0E08000200004A35908BC42E6C283E0002C670C6E022BE058C19032242CE60C6EE90020802CE6FEA70C6E82C72C6E01C61C660C6E123326410410A07A00450AFBE3E002820180A3582060A121302018D933A81FDAD820EAA6B587D60724A635C7EC003000100040000B8C1A5B60CE80C6C813184A09120A7A004AEF7A291802E6E0900030214917A13104A358
    ∷ 0xAB1402E6001340F049664C6EAADBE05AA484A35BE2000200AA9402F6C9A406A3A85802B70BA40A5AA8BC42E6000F40F0000020000423E05ACA4406A3002228FA20800029002018D88FFFF6119004A35801840FD9C813184BD820EAA681C62C6E76C6624657C679861000600108D00FDB06181FD8E1C00000023002648887D5870000200002110F5801906FF8018C0A58
    ∷ 0x10017813E0400000030C2DD9022806A007803C527687657701EFC6776C6E65F700000000E7000140AC1D3577053C06A307BF0F5A07FF7C52003CE3C5003C18F000028347E0200002008403E3100020FE04016345043F03C7043803E304C2D22801010345013EA3C701841FD9008003E304C080E80180427500BC62F7009803E30100A35A02012345023EC3C7018416A1
    ∷ 0x000803A20724026601808275073CC2F704B403E203014345033EE3C703D803E208018345083F23C7019C10280901A345093F43C701C08069026803E20A01C3450A3F63C7020406A1035C03E20B01E3450B3F83C70B6C03E30A2016A0000C13630C0203450C3FA3C60D0223450D3FC3C70BD403E30AA416A00E0243450E3FE3C701BB882B00D917A00F0263450F0203C7
    ∷ 0x01C0806A0A00A345033CC3C7020496E20B3C83C70D1003A2003C16A1108020FD0E3C83E60F00A3650D3CC3E7FC1D10CF00804264073CC2E70100826402012365023EC3E6E040000803014365033EE3E604016365043F03E70B6C03A30FFC1FDA08018365083F23E7000403A300841FDA0901A365093F43E7008403A301048F5A0A01C3650A3F63E70B90A35B008816A2
    ∷ 0x0B01E3650B3F83E76B58081B030403A20C0203650C3FA3E70BE803A30F781FDA0D0223650D3FC3E70AF403A20E0243650E3FE3E70DF003A201010365013EA3E706FC03A20F0263650F0203E7077803A2001800E30000E365003E83E707A80FDA053C52E60000600000000000000000000000000000000000957736F7B6468677024B8A2A024080EB104D857787464646
    ∷ 0xA5C74747EE60000C001003620182816205FCA35901A8026405CB8C2A00308A5805C080EAD2280A5A018FEA5895A90A67301C812130282265222C02E72004A358D0001810E04000000010036201828162C57785866687C67701EFD5776C6E76F7C1A8A264E7800150D1A8A264C203E058D0283A5800000000000D0F584A660C3AD18EE9F0E4008C00C0106411D2282274
    ∷ 0xD0202121D2284274D2286274D22882740187016201A8A2640C0A0626022842740228627402288274018EEF59022822750C6E0C6EE820900200283A590200802B020F07A1E9EE1607C680A359011149FB022C06A2E100008000301FDB0200802AE9E6858F011149FBC6800029020F09F10C6E0C6EE88010306500802B360C0FD800341FDA20001091221002E6300D3410
    ∷ 0x0034205802118FF80228A27420282274022830590528205B01850162022C02E70AAA0246E800A000D1A8A264C1A8A26400800FD880000890D0100362D18D4A8801A8A2740028227401812162C57785866687C67701EFD5776C6E76F761A2240000282274E7C0045401A8A2740010036301CB84290301507A02EA502B01C080E9031BE05A02C0806B03286276028C0276
    ∷ 0x002842740185016300288274C677C577D5776687EC002800000C036206BC52E60200A3580000400000000000000000000000000000000000053C54F701BE7D29023E8D2A8677B5C601C080E8053C35C4000C0204E10000C0024080EA0552022807BE09C20500C268D0C62123C0100287204E4046E8003000C02802649004A358B1BEDE28B1C080E8D0001193B00C0265
    ∷ 0x86001FD9820006A005D602280580C268EA764C6E01AB805935D6022930000E9231A88059E0800020218C02653580C2690236D72A320C027420118811302C026425900FD8024080EA01BC42F405BC62F401840163023C22F6100114133A76858605D60229E400080001A88058020C02750580C268002C0264000020000236E9AB0504A35A024080EA80461047D0000C93
    ∷ 0xC1AF8AF10606204E35D002283580C2699004A358E1200083302C02654C6E45BA018C026400117810BC4546460189016201BC42F4E2408000053C62F41001041302280FD801AC805905D00228050C02770580C268002C0264000020000236FC2A024080EAD0000D93204E1047C1AF805906064456EA00230031BEDE289004A35931C080E8300C02654C6E46BA018C0264
    ∷ 0x023C22F6E2008000053C62F4CC352C6E101168121000F81302280FD801AC805801BEDE29E0400008050C027601C080E8000C0264043A6C6EC00013620000600001880162E100800007800852053C33E501B41FDA063C33E5000C0362053C52E6000060000000000025F702469577664ED000361165CF464725778677C52C0FD8C012E411E360024BC2290264C228E266
    ∷ 0x0C6E8CF7018841630C6E0C6E0C6E0C6E00000000E6800F201A76024606BFF82904281FDB0300B42A06408229C22902E4C0000B13E0200003C228E2E706C080E8C012D813064080E9D4340264D010B810D23002060500A3580300A358018221620012D411022902E40228E2E60000400001880163000000000300B62B024EC50604280FDAC1AD0265C0000890D010B011
    ∷ []

pub length-core0_lines_1553 : length core0_lines_1553 ≡ 25
unfolding core0_lines_1553
length-core0_lines_1553 = refl

unfoldable pub core0_lines_1703 : List ℕ
core0_lines_1703 =
    0xD2300206E040000CD434026402280FD8C23C805AC00C9BFA0185016201AD0264023C805A00004000000C9BFA322CE2640FBC805A0000400031906079023FF628024080E8300FF9FB200000AA30000A11322882E721B00FD9252C82643328E2E62010A41132A902E724100264220C02060000200001880162042C1FDB0300B92B02120726E80010000328E2E6022882E6
    ∷ 0x02A902E600004000021205A604280FDB8ED95656EA0023000726A3370300BBAA4204A359A9E68EE91A76662801BFF62801C080E9E3200303C2300207D1AC0FDBD0000912C40C0265D7800853C0109410D53C52E4D63C33E4D53C33E7D00C0362D5BC52E40184016207800852C677657701EF6587EC002800053C33E605BC52E400006000000000000000000000000000
    ∷ 0x0000000000000000967725F776469577027BA02B8677C247033160290240806A2577B5C6E960308C1012A8130340806985865647022882F51012CC12063F462900100FD8E0800020C0003013064080E8D2B00266062725A60580A35A12A70C6E01A8A2F5E500080001B08059A647864F0228C2F730001090218C02652229C2E6052C1FD8E040000800004000018D4079
    ∷ 0x06918AF6000C2264083A6C6EC000136295876C6EEA00A0000182016302281FD81012BC1302468586C090A121D2B00267C5B00FDAE10000000630205B01B0805905000C500030A8FA2FF381212229C2E7218C026426918AF7018D4078022842E601C0022801C080E852272C6E218C0265332842E7E200000035434C2922434C2B22B40FDA354080E9224080EB22A862F6
    ∷ 0x301D21213228C264300EDC10322842E7EAE791D13294CCE202AA02F7030403E210004000E080000002A802F66C6E30CD022822F66C6E30CD051002F6051422F6009803A2E140000076876577C6779686D677D57765F701EF000060000188016202A862F6E1E0002305A802040184A358058403E2022A02F401A8025510004000060403E21000400010035C1386079506
    ∷ 0x00B003A200AC03A2100D5C13022C0FD805B40FDAE0400004768765779586C677D677D57765F701EF000060000000000000000000E1E0002A764625F701C0202902C0262A65C7957701C080E902C080EA02C09429E12000C346468677053C54F4051402E7018C026402C080E802140FD802C01E2AE020000202C080EA008F7F0968E61506D0002991C21402E7C2C0222B
    ∷ 0xC6100264E0800020902D6121C2C080EBC6902264C0137F0BD02A2264829402E6000D0F580000400033140286A8676C6E301B7F0A204F4047300014105004A358D0000C90E14000C87009481020110F5A2C6E0C6E3214028602300A582C6EFA6630110F5BE4800000A9E6A86F2000089122C0862B8B778A672301332922C080EBE8666608E9200042D01A412002300A58
    ∷ 0x0192FA6606BA660802C0862A02C080EB03013329E18080101B770627C00BD410C2140284000000000185416200093C1000002000E0200001850786860182016200AA22640246A64602437428024080E880000C11E120000091A842648016212192100264862A0274802A2274018C434801907E40060C027401A84264258A2C6E018C434801907E40068C2274002A2265
    ∷ 0x0C6E0C6EE840900002437429D1A8426501AC0FDA024374282C6E6587D1A84264024080E8E2000000D210026402A91EC0C2940324D18C434800000000D1907E40D28C0324C2AC037400004000D2AC0374C677657701EFD5776C6E65F70000000000000000E3800040134F1A27E24ED246021029C0502881234004A359040000290483E040E060000F02981FD8C283E000
    ∷ 0x00002000C19032242CE62C6E0C6E94872C6E01C6EE0002001C660C6EC3C026410010D8F8D413E058221402644C6E2426C283E001E46000022893E058005300010F80172928940274EFC06C672F900234C1903224E20003000007000104FCA3582CE60C6E0C6E94872C6E01C61C660C6E0210205AE7800820080018282866DE28C1940265D030A120C283E001088FE058
    ∷ 0x00430001E040000808940274EFC06C67080C023464862C67C19032242CE62C6E0C6E9487ED4008CC2C6E01C61C660C6EEF6026412866DE28C1940265CFE8A1210C6E0C6EE9E0108800181ADB001D0BF9C86612333000141321A0A5E12FA0A8C0C05A2121E0800020220C0AD822102DD8227C98DA20109F7A0000000030000C11019D00F90220E8C123941FDA33201FDA
    ∷ 0x25B02640320FE0582193E0580603A001068C13A2E08000006C6E11DD2CE6EEC111C5D407021834A612C56C6EA1EF1C66D407EDC0EEE0101882C60F67069013A2029834A76C6E003CEDB091C712550034A1EF1C66EF20050302140264000060000193E0580194027402100236008CA362000000000000000005BD14F701B64C29564765C7053CE2F701C080E8002B1F0A
    ∷ 0x022A180BE080002031B65DA900800FDA31C080E9322A180A3011212020106C1130282F5A4004A35A302A2120DC45AC350183016200282F5B01B65DA9022A180A302A2123E040000801C080E82010641331B67128322A180A31C080E830284F5AAC35DC45E80020000181016201B6712801C080E9022A180B00284F5A31B683A900800FDB322A180A301C212331C080E8
    ∷ 0x20105C1130288F5A4004A35A30342120DC45AC35E80020000181016200288F5B01B683A9022A180A3012212301C080E82010581331B695A8322A180A31C080E830290F5AAC35DC450185016201B695A801C080E9E1000080022A180B00290F5A3000099100800FDA51B6ACA9522A180A20105011302B7F0A4004A35B51C080E830362120DC45AC3501850162002B7F0B
    ∷ 0x01B6ACA8E10000803000099301C080E8022A180A2010481100800FDB302B5F0A4004A35B51B6C229522A180A302C212351C080E8AC35DC4501850162002B5F0A30000B13E100008001B6C22801C080E9022A180A2010401131AC0FDB353CE2E6308C436335BD12E6AC35DC450182016201EF6587053CE2E605BD12E60000000000004000E0A00022A5C736F786779577
    ∷ 0x85778646024403E3073C54F40580002B00106BDBE0E0000906C2F42806C080E801B4426402B402660300A35A2584A35A03180F8A018D8A0402956AE4021BE05A02BF742A02C080EA02187A79020C9A7A0615C27400109FFA303E8121221402E600100ADA304B21210593F058052C5CA20000000001A8B07801814050000C0264052CACA000000000C4462C6ED050A120
    ∷ 0xFB126706EA001200020C2D59038200280210C0F803114078E76CA3600F84A35803FC8CE0E2000000019C6F98070C0FD80030CA78C3288079D0000B13C1B46265070E204EE8002000C2114079C31522748000A358CFDC2120020C9E40204C003C00004000E4000000000C136201828162023402660C6E0706CFCC212002916AE400004000E1000000002C28D9052B805A
    ∷ 0xDFFFEE1100800FD8D1A8B078D1814050D00C026405AFE058952CACA00615A2750C8A6687C5776777D577C67776F701EF02346264E78082104C6E28B402107E40204C003C00004000000C13620186816202340266E0A000000000600002916AE4000060000615A274C57767776687C677D57701EFEE00140006BC52E60000600000000000000000000000000000000000
    ∷ 0x000000000000000005BC54F5023F802B01BF7E2801C080E9024080EB25778677018C0265E40000006646106D068C1FD8023F822A024080EA79827B033088A121229002E6E2200100C004A35BD2140286023F7A2805434C28054080E8024080E8D0137F0A2010026530001C9031A88264322C2264227FF7AA2200006A02009F7A00100FDBD200042A2047686730000D11
    ∷ 0x20907F792010C9B3010006A25004A35B01C09E28E02000023000121301C080E8718C02642C6E2C6E9294028605434C288004A35AE1000000054080E80000000090148F7A3000109321C09E29322C226431A8826421C080E8218C02640000200005434C28054080E8000C5A5B88E669A620000C91E400080021A8826532BEDD2B33001FDB32000042800D6121222C2265
    ∷ 0x32C080EA330030A8900AEC1385434C28021402840184616205434C28054080E9022C226401A882640000400002BF7C2B0600A35802C080EB0EAA85E8D29402E7C604A359E2008200C1B41FDADFEFE411C53C52E5C2300FD8C00C0363C63C33E4C5BC52E4027CA35A00000000021570790183016201A88264860676870000200001AC2274E2000000053C52E4063C33E5
    ∷ 0x000C036205BC52E400006000000020000000000000000000867736F7A5C78577100AB01366468CF78586964E1FFEE413023C805AE36002C806C37629052C4265DC5DD6070226E9AA06C080E8063402640208316AE0800030041886320214863201A8434801B07E40018C02640024C9A22C6EC6C3E8000000686761A6D000091030000690DFF9D410D314C632C2000FDA
    ∷ 0xC27CA358E0200002200830113000A358018381622426BE693000A358C068A1200FF9D010E10000400314C632000020000201F42A01880163021814590C6E06A700000000E4000C00924705A60F83E04103284349A5E822930F30DE40D08CA9F902AD6276E1200083C0FC89F90000002880140FD9827CA35A002D8274022D427601F8026403287CA20FA81FDA029BFC42
    ∷ 0x0EA86CA0000C7A5B01B48058220C026402F55C40000040002290B07A229442E622148078000040002214C2F620208121221042642010E27520462626D0148121D02C6264928C1FDA078008526687C57701EFC677EC201402062676F700004000D30C0265C29402E602A86CA00FA86CA002955C40E020000001FD5C40C294B07BD18CC078C29442E6D18C426400004000
    ∷ 0xC214E2F6D20CC27607800852053C33E501B40FDA063C33E5000C036206BC52E60000600000000000257725F7063C35C401BCD4F663565326033FFFA8D30C0FD9A656024EE92010C0D000301101B40FD8C00C02040500A3589646674620460C6ED0000993E6000800D1A965E1020008F0C004B811D00C0AD88004A358D05841200187016205100FD801A960F8000C0AD8
    ∷ []

pub length-core0_lines_1703 : length core0_lines_1703 ≡ 25
unfolding core0_lines_1703
length-core0_lines_1703 = refl

unfoldable pub core0_lines_1853 : List ℕ
core0_lines_1853 =
    0xD0A04120C03402040000200001A960F891C78606E8002000D1B40FD9D0000810C00ACC11D00C426402BCAC2A02C080EABC552C6EE80020000181016201B40FD8000C42640528807800004001000000010000000100000000D0388123C0B42265D084A35902A965E1C27CA35A90001411C207E0588004A35800006000C283E00000002000C190322401C66C6E0C6E2C6E
    ∷ 0x00034001E6000000A641264102BCADAB032960F9023006A002C080EA9347BE08C0000F13E4200402C180092901000FD8AFA960F9A2BCB12BA23006A0D00AB811C00CAAF9A2C080EAB000A359A27C1FDAC0342120CC15BC55018501620528807802A960F8E1000080AD8851920FA965E0C000091102BCB12A86069F8702C080EAD1B40FD8E2200302D00AAC11D18C4264
    ∷ 0xC1BCD2E6C2280FD802BC22F60187016201BC42F40528807801BCD2E602280FD8063C33E4053C52E405BC52E4008CA3620000000000000000957725F7024B8A2B25777646024080EA021002E607FFC85265C74646E8A00022026F0C6E01828162020C850602BD205A01A820580C6EA58628E6AA7AECA1B000003D02B48283E0002CE60C6E020C1FDA801036A62C672C6E
    ∷ 0x0C6E00C6EC800820C01436B70C6EC8E60C6E60C6000340010C6E01C60004A358C283E000E2C000002C670C6E0213E058C19032242CE60C6E2CE6FFA70C6E83C72C6E01C6EF2002820000000000034001028C2641266126C0023CC07AA9FA06510E8528E6ED8198008283E0002CE60C6E02101FDA801036A62C672C6E0C6E00C6C01436B7E64002080C6EC8E60C6E60C6
    ∷ 0x000340010C6E01C60004A358C283E0002C670C6EE96020000217E058C19032242CE62C6E0C6E83C72C6E01C60000000000034001E38000200210205A0529EC28054080E82661C241100D5013F6729517033D1058E5000C80100AC01306278506024B8C2A024080EA9507105D0510029605282214E240000402EF0C6E018281620780385301A90CA065876577020D507B
    ∷ 0x01EFD577EA20110005BC52E40212104A0000200002101FD800000000000000000000000000000000DAE2DAE304101A1A7AE2FAE304902D5A0800102B04801029039C2D5BE0A000330018DA78D318DBF90040EA7AC3109BF90325307A331C06A300100A1B040C2D5801191FFB01902D586000A35B60002A1100A50A79018C9EC17410186220002A1191A008F1030004F8
    ∷ 0x737CA35973807FA870250A78008CD0FA72102C62000000000817180A03A7180A08A7180B01902D58011E0A7B018D20790917180A03464A7BD1A00FD902000C2802106A79602089FA0293EDA1701E09FB00181FD800900A19C32089FA800000ABD34649FA341105FB0F9525E28000A35B34FD284332102922221029231346D0C6231525E3241105FB0910CC6024A4C07B
    ∷ 0xC9482921E0400008808421A208102C2300040ADA3038A1212307E05ADB6F0E6708441FD8E4000C00C2472CE704A41FD92C679AE304201FD901A718082C67766808C01FD9E4A0082302202C21C020D9FA01C0A5E1034485F9D00C99FA00034001349C61E1341828F1241004580C6E0C6E04201FDA04A41FDA88C10A3303208C6202188962E24000000000000003967FF8
    ∷ 0x03125FF853480458008C836202180458000000000000000002938F58039480F802BF6A2A67F193F102C080EB10DDA24603979F5BE5000080029C59A000140AD8D000109002C705A6018D0F8821941FD897703646E9002080040C5CA3041806A0020403E210004000032002280300C268A63A010CE8108000009003A2020403E210004000A02A010C301841211175ADA8
    ∷ 0xD3140FD8E5108400C30C0FD8031C02741000800010008000009003A2039D007B12A6A9D0E8000000CFD4A1200220082B072609920FA488400200C26B02FFE0580110CA7BE080003072301EC20200A35A6204A35A019309A1AB66D5E997296EE830001691E620000232140A5B2240002B31A00A5930000040C00010912200C26B318C2DD9219468C02212C9A1230C2058
    ∷ 0x22138F58221090782293805968E795894403E000E400000000008000421432642CE62C6E0C6E00C703939F087BEEEF60219C0FD9E58004200018E7E000C748E70C6E0C6E01C61C6602018028020400690184A358E1C00000D190027401A00A58018C2DD802140A5A000C9F7A30000510308C83621000800010008000008C836200000000000000000000000000000000
    ∷ 0x000000000000000005BC54F501BF882905FCA35801C080E986779577053C54F4018C0264E2000000053F862A068C1FD8054080EA0500A35885CE11A6D050A121C5A802E6E2000100000C70100183616295070626403C600C0290A2640211707A0DBA0C6EE9808010008C48D8018D61E10314607803196078928CCF99A05409EE030403E2E400000010004000305D10C4
    ∷ 0x30D46C6E6C6E305D205500D5009803A2207C606CEBC000002C6E25B0E2D0CDE8CFECA1200033E0590633E1A105282940CFD0A120E060000801BF8C2801C080E8040C0264082C0FD80480A35801C3102801C080E800200AD8D0488121C18C0265C3A802E6C28D2A64608C6C6E40BCA0CC0C6EF2C1EE000000D028212001C06841008C48D9031061E0031A0078920CCF99
    ∷ 0xA0C40B6EE8000000030403E210004000305D104430546C6E6C6E305D204500C5009803A2E780000020FC60BC2C6E2760E2406F68CFF0A12001C3102904A4205801C080E9E0E00020002508F8CFC88121C18C0264C28D2A6476876577D577C67765F701EFEE000A0002400FD80000400000000000000000000000000000000000000000000000000075C625F756479577
    ∷ 0x058403E210004001053C54F403437229022842E6E060000D034080E801980FD8020C426402A862E601901FD8038C434803106CA20390FE40039C026404141A5803189C42018C434805180FD8039C6A58001D0FF8C398626404107E402C6E05A6C398F078C39C426403142A5AB3518A9300000000E4400000C19C827401A0026400006000018C6A5800187FF8C39402E6
    ∷ 0x03106CA203189C420C6E7246C318E07AC31842E64C6E07A7C398A2F6002A42E60CBB6C6EE920A000330C4349329402E4200F78113210DE412229A2E4321002640000400001880162100F7C130229A2E401A842E40228426402A8626400002000030C43480210DE404C6E004C0F8C6CA1002902E76226061303FC7C410F0C6CA00EAAA3C0E920B080C2A882E701F87C40
    ∷ 0x018CA079D1904264C18C42642200202BD02862E600000000C2148FFA020D02640000000022A882E432A882E6278A0C6E2310BFF9E400800002900FC83214BFF92210CFF032109FF8020D027400000000020D027600AC03A2053C52E501AC1FDA053C33E7000C036205BC52E4000060000000000000000000967725F787779577063C35C401BCD4F6C746A747062006A3
    ∷ 0x059006A0E2600300002E020405900FDA01C08C2806A00FD801C080E8D056212100800FD9C00C02049004A35881AC1FD8820E1008D0000890C00B1C13D1C05A28D1C080E8D20C02640C6E4A670182016200100FD8C08C2123D1C05A28D1C080E8D20C0264E02000000C6E4A6702ACEDA2024E05A600AC8A788184A359C204A35A02148F7AE0A0002002100A5A01C05429
    ∷ 0x000C9FFA300019933190026501C080E820100811278C02648587C70600000000318CE26401850163023C0FD8002FC224062CC264E02000002C6EAC450083EA5880001011952C626701B0405880100411823C22E7E020000001ACC27491AC82640000400002289EC2000D5A7A3004A358D1AC426400100810322C6276027CA35A01860162D1AC62759506C866C22FC236
    ∷ 0x062842F4E200020006A882F70239739A000FF811022862F6023C22E606A8A2F40628C2F60528E2F4023C0FD9018201620006A12000006000000C13620186816201BCD2E6063C33E4073C33E4053C33E6063C33E605BC52E4008CA362000000000000000000000000F246364703A436960224369600006000204787E92024369730AA6120E22002025000A35A20000E10
    ∷ 0x32A4369632240296208089DA3300802A934E0C6EE800200001980A590298AE828281F9E63000249122810CA324A4205A308C6363E0800000020099F8000C8F78C3243697019C00D8C2243697020CEF580012412104243694C294CFFAC2950CA2C0148FFB0FA1001854243694019C00D8441C1FD8020CEF58000000000FA1001804FFED18A48E9C48C01010FBC09027A1
    ∷ 0x48E648E6E9002040841C36350081EBDBC09047A13400002B240008F250000C13849C3655C0908F5942941FDBD0800028849C3675430089A2469803A207B0848642101FDAE4000000D3C70C6608188CA23D452CE6044100FB020C5744F3461C670C6E0C6EECA4183300210F5B00209F59012047A300A029F30FFFDD10229C0375239D0058C49C0355C39C8058641C2234
    ∷ 0x641C0235639C4058441C3634021C36370FFFDA10022436960000600000000000000000000000000000000000000000000000000000000000008740F300F403E200842A5A401C00E200008000021340F30242B02A024080EA3065100503900FDB007003E200FC03E20000A62200040DFA301C03E2E0240002009403E200002DFA0000A9CA00F403E2300449C2301C00E3
    ∷ 0x118D31EDE80400003E8403A200004000008740F100C2B82800C080E8078402660000400000BF50F081778077837782778577847787778677083C35C4093C35C40A3C35C4E1E000000B3C35C40C3C35C40D3C35C40E3C35C40F3C35C49177907793779277EC0000009577947717169677003C35C4083C35C6093C35C60A3C35C60B3C35C6E06000040C3C35C60D3C35C6
    ∷ 0x0E3C35C60F3C35C6007403E200FC03E2003C35C6006C03E200F003E2003C35C6001803E2009C03E2003C35C6000003E200D403E2003C35C6003403E200B803E204279077000003A200C2AE2A00C080EA003C3EC2E0800000000402F600C2AC2A00C080EA000402E600F8002A00C07FEA00040362018C2162078418F22200A35932002040050008F21000400000A8A362
    ∷ []

pub length-core0_lines_1853 : length core0_lines_1853 ≡ 25
unfolding core0_lines_1853
length-core0_lines_1853 = refl
