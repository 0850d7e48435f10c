-- ===== src/BootLoader/App4Core0/Lines2603.antt =====
-- inc/app4Core0_6678.h: lines of `_app4Core0` from line 2603 to line 3202, six to a number.
use dspc8681_linux_driver.Base.{ℕ, ◌≡◌, refl, List, [], ◌∷◌, length}

unfoldable pub core0_lines_2603 : List ℕ
core0_lines_2603 =
    0x01FFF050E040000001A8827401A8426405A8C27405AA02560000200001A8627401A8A27401BC52E60200A358053C33E6053C52E405BC52E4008CA36200000000000000000000000001BE94F6053E62F4043CC2F6043CA2F4EC659CE5AC45DC45E7371746EE001000CC6DBC4D023E40281FF4101305201FD9043CA2E7024080E81247AE45E82000022004A12006268B0A
    ∷ 0xCCEDE6371FFFE012CCCDCE4510085812AAFA0246EAC08220003C22E60400A358000040003005A1200404A35802BE402A02C080EA023E22E70301A0281FFCB41392C6DE6D034080E8000C8120AE4D0626053E62E4E48000300000600001BE92E600006000008CA3620000000000000000000000000000000001BC94F600002C1301BF20292646522701C080E95B271256
    ∷ 0x5000A35BE50004800B4E29C604000040200000D9220016A9431800DB804619F6241006A1E4200803281829C102180FDA0183016202122A244C6E83471FFF081302243035E2000000024680461D2A25AEC0002010C2180FDAD200182AC2000FD8D0406AF8E0608002D00D2121018E00F8C68C13A20C664C6E724E84861C664E3404062646EF000180C424303401BC92E6
    ∷ 0x02240FD800004000008CA36200000000000000000000000001CB8A298577357701C080E8018C0264564775C600002000000C1362E2400008018181620529EC28054080E802290DA305280236100498130228223702281FDB0726367285061B77100208130200A35A024B8C2A024080EA021002E6E060000B01A8205802A81FDA05140296050C02140010036201868162
    ∷ 0x01AC1FDB01A90CA0000C0363053C33E4020D507B053C52E60212104A0000200002101FD80000000000903D5B00903D5800909BF900043D730663A25640002942011099FBE2000200000008924100A35B608808F3088BF056621029A352109B3100000890E1008040521029A362109B310100E8DB0080E9C3000004906080A35B22109979200029C30000009222109979
    ∷ 0x200029C34087E05B400000929210E9E1821408F1000C036200008000000000000000000000000000000000000000000000000000000000000000A35A020003A2008003A207D39E2A07C080EA07BE09F20753A02A074080EA0200A35A091003A20A1003A2018000A801800068000C2A58D1CDE029D0000992C0085C13D1C0806800000000D00C13620000200001860162
    ∷ 0x01CDE02801C0806800000000000C1362000020000184416201FD602801C0806800000000000C1362018181620266002A0240806A00100362018661620204A358001800E200008000053C54F705461C2A054080EAB5C686771FFA9C1385779506064B0628E5000440064080E801B002640584A35805281FD800002000000C48D8C018A1200228D26452266C6E2046076A
    ∷ 0xC5AC2940DFFA9411C02C68F89000A35885065FAAE860A00C0181016201B00FD8018C026405AC205800004000002C68F84C6E5BAAE8008000053C33E501B41FDA063C33E5000C0362053C52E6000060000000000000000000664625F700101ADA322C00D8964686770293EDA1B5C6D3471FFAAC13E52008C34756257783724E27022D58DA02AEDADA0010AF7A21A80264
    ∷ 0xAAB21233E8600007002C08D8D28015A8220FE05822280274220C023601A8026476879607E8000000EDC02C6E02280274028C023401A80264EDC06C6E02280274020C0236E2200000053C52E4063C33E5000C036205BC52E4000060000000000000000000000000000004A358C283E0006D670C6ED23AA2462C677A76C19032252C6EEDF0EB8002E017462CE70C6EFE27
    ∷ 0x2C6E01C61C660C6E7326264163461232C0388121E7E00A83D29C1FDAD18FE058C2470F67068C13A2364F2E67AF09640692C72CE6EE803730201418D9020C0265300000A8C3A7184BD3948AA6EED14C6EEE40164FEC00180000034001020C027503A002B600000000008CA362000000000000000000000000957736774647857703A842E607FEF852774775C603100458
    ∷ 0xC5A653A7EA6020042398A35B043C91A021A842F50218145BD3C68636062C02E7033D005BE20002001FED4412C587DC4D032842E51FFFE41304900FD8022C02E6C5878486E84000080000200000118A7A222802E62500A358E86F4C6E20110F5A2504A358E20002001FF55013C506DC4D07810852C577758701EFD5776C6E767700000000E7400144252631F7041003E2
    ∷ 0x01088CE0028BF2A3043C22F6029509B2021403A2E0200000029403E2007E002A007FFFEA029409B2A3B7B67B011418F000921FCAE20000004833E4830000006A000408B20008627600900FCA48732CC30000006AE4200000000408B200088276023392D6072747261006981210019812043C22E6E180000001BC52E6001003E200002000042008B2022003A2000C0362
    ∷ 0x0000800000000000139DF247034A7C2A034080EA0C6E44275040A121429C0FDB43181FD9E12100004000004002983624D2143696100040009AE22C6E02100A597A307AE2EA00000000106FF8DFFA2123D2983624D21436969AE22C6EEC0101C610006000E6000C00486704BAD41808F3C30014522FE2812023181FD9229C0FDB20000028E02080030400A35A008C8362
    ∷ 0x02201FD80000000000000000000000000000000000000000931336F701C844298677A5C7B646DE2902CB8A2B01C080E985778756E9A020E3201008D9058C9E4102C080EB8C2AE86ED21402E7057CA358D0100362E100808001818162002C0264C6069687653A2C6EC180E264C22C2264C00C1362E18080800181816205100FD801CB8C2801C080E8018C0264000C1362
    ∷ 0x01888162E010000002280FD9053C33E501B40FDA063C33E5000C036206BC52E60000600000000000001829F1009847A10404A358C19036A5C400012904901FD8829056A784A50A25001879A3011887A0A81037B5144EA2560084A35A239037A52003E1A3E10000C0010068DA600C0363289037A72003E05AC1943635C0804043D86F52C7E80010008294563784882AB4
    ∷ 0xA814375500200FD8C3943775C003E1A000838001C8943776039037A400004000000000000003400103943774008CA362000000000000000001800828018C8AF8018C2DD8029098DA000CBFFA20001010208C8362038403E210004000766B2E3A0F9380590F0020400F803FAB018F69A0030F0F59E040000C0380822802FC4DA00380C069A5BCD351029404CA0294C0FA
    ∷ 0x037CACE2E10000000EF88CE001987F980210ACE2020C9FFA021CAA7601F413A2009C03A2008C83620000000000000000000000000000000000000000000000000000000000000000034BA02902100A5B02FFDF2B03900FD8034080E903FFDF2A04180FD801A002240308002A0300006A041C4274031C2276020CBA7B029022A3019C7A7802102DDA0192768802FFDF2A
    ∷ 0x2866A93AD19C0274C303E00000004000C2183624E0A080332C672C6E0C6EB2C601948A782C6E01C61C660C6E019BE05801A060F8E3600002018CD2F8019C0274008C836202101FD80000000000000000000000000000000000100FD900103A5B0242F428024080E8019002640302002A2C6E6867E8000000018C0A64D0000510302C4120C6E591D10000000002C403E2
    ∷ 0x00146BDAE100000030000810308C836201903EC0018C02640300A35A03182F8AE3472751E8000000018CDA40020C02049768B66908672867338C0256220C0256008C8362E19000900000000000000000000000000000000000000000000000000000000000000000957725F701BFA02801C080E9053C54F4050C02640500A35A058C0FDAE020000205FCA35800000000
    ∷ 0x00280AD8D030A12000032C100188616285070626E8001000405C203C0528205A002BE0580F80A358052BE058018D61E102946078E020000002956078018CAF98405C4034000060000F9402747A2A803C605420B4EC808000053C52E501AC0FDA053C33E7000C036205BC52E4000060000000000000000000857736F705BF422805C080E801AC02640500A3582C6EA5C7
    ∷ 0xAF7A11A6EC208002023F4028024080E86C6E004C00114A6420566C6EC0000B13D1AC81A1E2800200C5282058C02868F9D18C02649000A358CFF84120018D4A6400006000000C13620181816201AC02640528205800004000002868F8CFE0412066874C6EE8000000000C0363053C33E406BC52E6000060000000000000000000000000000000000005BC94F7624665C7
    ∷ 0x053C62F7050403E210004000020C826406A707A7E84000040C6E85078ABA4226C20C6264C29002646C6E206C205C01546C6E004CEE60800802902274020C0264030C2266038C627601454C6E030C2266038C0266E200000031E56C6E0FF7A410020C4264028C82760185416200A803A2053C62E7E020000201AC0FDA008CA36305BC92E6000000000000000000000000
    ∷ 0x0000000000000000957725F7053C54F40193C2044C6E75C6D23A21A6050403E210004000E320800002434C28024080E8ED80603C6004ADAA00A803A205C09C2A05C080EAE1908040002C02E60204E028024080E80C6E4646300008902005541030077810E100000032AC805A320CA35A00000000018401621005541302280FD80007741002AC805A0C6E6627062610C5
    ∷ 0x0183016200A803A27587657701EFD5776C6E65F7EE60050801C372290290426401C080E8040C42648A13606C03944348020C907AE200000003A0FE40039C026403180A5800004000039C6A58001CCFF8D38C6265C21002E666BA66EA018CBC400298BC40D194E079C20C907AD18C4265C29042E6E0300000C21502E7D28D0264D296D7C9C210C7CAC21502F7D28D0274
    ∷ 0x00124264E0100000D0000291C211A264C0061410D08C636200000000000020000000000000000000931336F701C844298677A5C7B646DE2902CB8A2B01C080E985778756E9A020E3201008D9058C9E4102C080EB8C2AE86ED21402E7057CA358D0100362E100808001818162002C0264C6069687653A2C6EC180C264C22C2264C00C1362E18080800181816205100FD8
    ∷ []

pub length-core0_lines_2603 : length core0_lines_2603 ≡ 25
unfolding core0_lines_2603
length-core0_lines_2603 = refl

unfoldable pub core0_lines_2753 : List ℕ
core0_lines_2753 =
    0x01CB8C2801C080E8018C0264000C136201888162E010000002280FD9053C33E501B40FDA063C33E5000C036206BC52E600006000000000008677357731F7857701C08F2902980A5B053B8EABA656134601C080E8E4600400018C020496466746054080EA053B8E28018C0A58054080E80AABB5A9E840A00021C02C2830075C1321C080E820045010240C0264020209A0
    ∷ 0xD5281FDA0188016201C02C2801C080E900044C12040C02640C6E4646D5879687018A0163E6000800042808F30212C6060C6E71F7C677C577A1EF75770000000000000000E3C000048577357701BC54F601C0562801C080E8050C02640500A35A00004000E020000000280AD8D036A120000300104C6E06260186016302280FDA05900FD8E100000001ADC244022C4264
    ∷ 0x2C6E06271FFC2C13030CACA002AC4264022C4264E0800000002BE058CFFFFA10C002F81002AC62750A6625A6022CA27401ACC274E200020001AE02550528205B052BE058FE2671F7C5770C6EA1EF757700000000E70000000FBC0FDB07BC1FD907BE54F4067C20F6057C40F601FC60F6063C8074053CA074063D82F6053D42F6043D02F69CC5DCE5063D62F4053D22F4
    ∷ 0x043CE2F4E1000000033D42D4023C62F401BC2264033D4284AC354C6E1FF088120FBC1FDAE2000200067C20E6057C40E601FC60E6063C8064053CA06407BC1FDB07BC0264E0100000008CA3620000000000000000000000000000000000000000000000000000000007BC1FD907BD14F4063C207401BCC2F6053C414448E70246C2801FDAE4000000C09402E605901FD8
    ∷ 0x033C2264033D105A05100FD8C0040FDA5000A35A000000009046944610070C1200301FDA22281FDA221002E6002C89F8C22FE058E0200002063C2064000000002290907A22281FDA229002F62C6EDCBD053C4164E400000007BC1FDB07BC0264008CA36200000000000000000000000000000000000000000180A35902900A5B03100860000CAA78C00C8A78B43901B2
    ∷ 0x40000D93E4000000000C9BFB530020284000A35B528C9D7351901FD820000A915290B9E35010D9F852946CE053106CE05394BFF832111DC3200C03632218045832909CE20200A35BD280002A0000000003101458000C03620218045800006000000000000000000001BD94F6178E079707900276079002E70580627405004275050082F6E040000C0600C275060102F6
    ∷ 0x0680E275068122F6078162750580A2F607014275018022F61796BC4D05004265053C82E60580626505BCA2E60600C265063D02E6E02000010680E26506BD22E600100363073D42E40781626501BD92E6000060000000000001BE14F6023C22F410063413023D90586C6EBC0D2010A12006268B0AEA0080001006741303120626033D805B020109421247CC452010A120
    ∷ 0x0626870AEA40800C804FA047BC4D10C54C6EDC5D30C506416C6EDC4D0211105801BE12E6E3E0000100006000008CA3620000000000000000000000000000000000000000000000000255002B00101FD8024080EA8293C247B2470C67015DDAEF02107058E7000F400190321491C76C6E1EC51C6603140A59FB66021293462A6E0090C7E0E6C00A10901821224C6E92C7
    ∷ 0x4C6EDA6F0003800102116058019032242CE64C6EE8C0200002801FDA020C1FDA06034001021436B6008CA36200000000000000000000000002409C2B05BC94F7058C0FDB02790028024080EA001002E602408068053C62F60556702A0540806A3000081131AC0FDB353C62E620048C1135BC92E6308C63620181016210048C1365879506053C62E7000C036205BC92E6
    ∷ 0x00002000E08000000000200000000000000000000000000000000000000000000000000000000000020403E21000400001A002280180C268000C0264A63A6C6E009003A2E4008000020403E210004000000C0264BF2A6C6E022814290184A3580200C268E100800001900274009003A22866000CD018A120C283E00000002000C1900264E0900020000C0FD800002000
    ∷ 0x0000000000034000008CA36200000000000000000000000001BF722801C080E8000C0264033F6E2A034080EA01BF702801C080E8D01B2121C41802E6C30C0266F247FE2702801FDA04C403E204992AE64C6EEED1E880000004A4807A04A422964C6E264104A4EA7A0027E05A00940F7A4FF8A120E08000003000029132110A94308C8362008C8362027CA35800000000
    ∷ 0x000000000000000001BE14F6053DE2F4043CC2F6043CA2F4EC659CE5AC45DC45E7371746EE001000CC6DBC4D023DE0281FF1901305201FD9043CA2E7024080E81247ADC5E82000022004A1200626820A10050813ADCDE637053DE2E40000600001BE12E6E140800000006000008CA36200000000000000000000000000000000000000000000000001BE14F6053DE2F4
    ∷ 0x043CC2F6043CA2F4EC659CE5AC45DC45E7371746EE001000CC6DBC4D023DF0281FF1801305201FD9043CA2E7024080E81247ADC5E82000022004A1200626820A1001BC13ADCDE637053DE2E40000600001BE12E6E140800000006000008CA36200000000000000000000000000000000000000000000000005BD14F4062775C6023C9059053CE2F5100524121A760246
    ∷ 0x01BF8429E4400C08023EED2B0400A35AD0000A13D1AC1FDB01C080E90500A359D53CE2E4C0037411024080EBC40C0264D00C0363C2100286D5BD12E4AB73072601880162E400000001AC1FDB053CE2E4008C636305BD12E40000200000000000000000000000000001BD14F60200A35A10051413023D105802BC82E602BC905802005F28023C805AAE490C6EBC5572C6
    ∷ 0x301CA1212004A358C403E0002CE66C6E02101FDAE4600806C20C023625B0AC3D02146BF90246AC350C6E2C6E0003400001BD12E6E3500000008CA3620000000000000000000000000000000000000000000000000000000001BE54F6053E22F4043CC2F6043CA2F4EC659CE5AC45DC45E7371746EE001000CC6DBC4D023E10281FF1501305201FD9043CA2E7024080E8
    ∷ 0x12478E45E82000022004A1200626820A1FEAD0138E4DE637053E22E40000600001BE52E6E140800000006000008CA36200000000000000000000000000000000000000000000000005BC94F4053C62F510050C13024675C601BFBC28D0000D1301C080E8E1000080C00C02644C6E062605431A29C0000B13C1AC1FDA054080E9C53C62E4E0400000C00C0363D1A84264
    ∷ 0xC5BC92E4C27CA3580000000000051810020C226401886162027CA3590228827401EF7587053C62E405BC92E40000200000002000E080002006BC54F701BFBA28053C35C701C080E8018C0264068C0FDA02431A2A024080EA21A60C6ED026A121D21002E4058403E2100040004647B00D00004000E4200000300A4121222842E6321002E420050410221022E401866162
    ∷ 0x1FFC4013022882E6022802E692406C6E00AC03A201EF668776F7D5770000600000000000E340008001BE14F6053DE2F4043CC2F6043CA2F4EC659CE5AC45DC45E7371746EE001000CC6DBC4D023E20281FF1201305201FD9043CA2E7024080E81247ADC5E82000022004A1200626820A10052413ADCDE637053DE2E40000600001BE12E6E140800000006000008CA362
    ∷ 0x00000000000000000000000000000000000000000000000001BE94F6053E62F4043CC2F6043CA2F4EC659CE5AC45DC45BE459347EE000000E7371746CC6DBC4D023E30281FF1101305201FD9043CA2E7024080E8E060000912478E452007A12000108120BE4D06264C6EE7361FF738138E4D104DEB200000053E62E40000600001BE92E600006000008CA36200000000
    ∷ 0x0000000000000000020403E301BC94F61000400001C33A2801C080E8000C22644A666C6EE8000000D20C0255D09003A2D0000B13D1C34C29D284A358D1C080E8D20C0204D0000C11D28C0254D1BC92E600000000009003A20FF5D8100186816201C34C290284A35801C080E8020C0204028C02550000041001BC92E600000000000040000000000075CE024605BC94F4
    ∷ 0xC032A121053C62F41000400005435028054080E8E02000030028020402433A2A024080EA48672C6EC0100287D016812020000590E10000803FF064100000600001830162020403E301A85DC10200A35802102FDB020C0254009003A201AC1FDA000C0363053C62E405BC92E400006000000000000000000001C3722801C080E902904264038C42648A13606C020C907A
    ∷ 0x02144348E2000000021C9E400210026403180A580000400002106A580010CFF8C20C6264D21002E666BA66BA030CBC40018CBC40C1988078D20C907BC18C4264D21042E6E020000200004000C20C8266008C8363D210A2E602101FD800000000000000000000000001C3722801C080E902904264038C42648A13606C020C907A02144348E2000000021C9E4002100264
    ∷ 0x03180A580000400002106A580010CFF8C20C6264D21002E666BA66BA030CBC40018CBC40C1988078D20C907BC18C4264D21042E6E020000200004000C20CC266008C8363D210E2E602101FD800000000000000000000000001CB8A2801C080E905BC94F4018C0264053C62F475C6AC4500000000E4000000000C1362018281621FF64C13023C9058AC4D083C00004000
    ∷ 0x000C1362E200000001818162024B8C2A024080EA4646104D026F4C6E0186816201EF7587EB00200002280FD9053C62E405BC92E40000600000000000000000000000000000000000053C94F40247FC3501C076290240722B6867034601C080E9D0000C12E240020830000891018C0265024080EAC19002E405100FD80028C254C2001FD82005B41131BC62E601828162
    ∷ 0x6256024602407428024080E8D190026400004000E080003001BC62E601A84274053C92E400002000008CA362000000000000000000000000967726778577957701BC54F6069062E6029002E60618D2FA86466746E860000005B402E6464647470000200002ACA0FA0030ABFA03141FD81FFD8413E040000033301FD802315078032C1FD90630227400296BFB05315079
    ∷ []

pub length-core0_lines_2753 : length core0_lines_2753 ≡ 25
unfolding core0_lines_2753
length-core0_lines_2753 = refl

unfoldable pub core0_lines_2903 : List ℕ
core0_lines_2903 =
    0x05B002741FFD801333281FD9053062757506868701A80274C57771F7D677D577A1EF6677EE80000002C3822901900FD802C080E8027302CC020C9F7A02100A5A66080C6EE9022000021032A0C0248121D2142204025366080F803029D314420502B328E6E90020800F003029020FEF78028FCF78D2109AFA0294BAFAD0986F789200A35AD2900FDA0000000002141FD8
    ∷ 0x008CA3620000000000000000000000000000000000000000257725F7664631F71004DC1202406E2B01C39228024080EB01C080E8E0600008038C02658DE0104D00004000021C98FA12460C6EC2980264C1982264E24000004C6E5646C18C2059C594EA741004DC13C1982274062671F72A66050EEC200800053C52E405BC52E4008CA362000000000000000000000000
    ∷ 0x0000000000000000053C94F6013CFC354C6E4647000C49D90C2A79EED1980274D0100264E2C0820006EA6C6EC1900264D005541000004000C18C205801860162093A0246E8208002C0054C10D1BC62E62C6E9506018401620014A1210034FC3D05000236E480000001BC62E600004000053C92E6008CA36200000000000000000000000000000000257725F701BC54F6
    ∷ 0x1004BC1205C3922805C080E8052C026401AF8058E02000000000400000280AD8D0108121C20C026402115C4002902064020C426400004000001413620182816200282AD901AF81A1052829C0CFFD8121C20C026402115C4001AC805810053413020C02642C6E71F765F76577008CA36200000000E3000000053D14F44646FCB50028226402900FDA033C9C2A0204A358
    ∷ 0x034080EAE0400000D0202121D1BCE2E6CFFE3810C22802640C6E9047DC55BC6501880162E600080002A8426401A822642C6EFCBD11A682D002A8427506266A3AC1A82274E5800880053D12E4008CA36200000000000000000000000000000000000000000000000003109632041496300810B63000002000031D1578021D2079019806A10314B6320212257902401FDA
    ∷ 0x020C957A0410B57B000C03620220C57AA3CBC247E800300002953AB20394807A0000000002181458000000000000000000000000000000007E6801B2031099E2D38C1FDB7A3002D3D210E8C3039499E301EF8EC9E920208201946CE0D21499E34AF72867CAF7CA67030CD6E2D310045A00000000E18000D0021814580000000000000000000000000000000000000000
    ∷ 0x000000000000000001942CA10393F9A2366B36EA038CFFFB0193F9A001986FF904102CA3E080001001EFB6E90420C5FA3014BBF902A7184B048CF0FA0295207B20109BF9E0200002022026A2C218045A000000000210145800000000000000000000000000000000FE701327C256A34E3028A121219C32250F34934604946A7910004000E26002070213E0590427E1A0
    ∷ 0x00110F78C0008123C19C3224C198363504946A7800200FD910006001021806A0D0000310D08C8362008C63620200A358000000000000000007BC1FD907BC94F401BC226406BC62F602101FDA0304102ADC45A5C7E8003000033D1059047D8029034080EA1FE6F01301BC22F5023C9059023D105B0440806801EF6687023C42E606BC62E707BC1FDB07BC02642C6E06A7
    ∷ 0x029002B6E4200002AC4531F7100420121004381210030813020CA35801C09C2801C080E8E0200000000C0264A53A6C6E0204002A024080EA92460C6E1002D01202040028E24082001002D013024080E801BC52E600006000008CA36200000000000000000000000005BC94F4053C62F505409428054080E8022882651002F013B50775C6E800200000284264758750CD
    ∷ 0x00002000D2286274053C62E550C52641000C0362E440080005BC92E40000600000000000000000000000000000000000000000000000000001C0852801C080E8000C02044C6EA2462046273AC014E26482150264E300830081FFDF289004A358D0000310C68013A20C666C6E1C670E34E0FC08CCEE00000004156264000114110415826658CCC247E2402C6E02130058
    ∷ 0x00000000E300004001BF2C2801C080E8030C03660400202A0400C06A02211EC3020C2365037CA358032002F401A0905901EF1065030C027501909058038C027702A1005AE080002000E5065102A1805B00E500C50211805A834600550000000000000000E2A00121023E5F2A01BE9E2905BC94F575C69F53024080EB01C080E9053C62F5E1000080124D1B76040C0265
    ∷ 0x1001D8130500A3590212164701EF7587053C62E4E622090205BC92E400006000000000000000000000000000000000000000000000000000023ECD2A01BF6C2905BC94F50300AB2A01C080E9024080EB1B7675C6E8003000053C62F41001CC13040C0265021002870500A3590212164701EF7587EC002400053C62E405BC92E400006000000000000000000000000000
    ∷ 0x000000000000000001BF7C2801C080E905BC94F4018C026475C626270233BC4504001229E6000800464E0727033C9059053C62F51FFEA8130400A35B05A681B601A82275E420000201AC1FDA000C0363053C62E405BC92E400006000000000000000000000000000857736F7B3478CF77246A5C7464EDC5505A008F1042016A210015813E1E000F4033C90591A76AC35
    ∷ 0x0400162985860627022822751003FC1207800853E140008C01B40FDA053C33E5000C036206BC52E601900A58020C2DD8000020000000000007BF005AAC45DC4500101FDA3012A120002A21200290ACA202149E42E040000092400C6E01BF882801C080E8000C0264A32A6C6E0626868A01BF8A28E620800001C080E8018C02640290ACA202149E4272402C6E07BD005A
    ∷ 0x008CA362E200000007BF005AAC45DC4500101FDA3012A120002A212002908CA202149E42E040000092400C6E01BFA02801C080E8000C0264A32A6C6E0626868A01BFA228E620800001C080E8018C026402908CA202149E4272402C6E07BD005A008CA362E2000000AC4531F701C31A2801C080E8020C026426406C6E020C02741FFB1C12E22000001003881210039812
    ∷ 0xA5EA024601C31C2801C080E8020C026426406C6EE8808000020C027491C10A131FF5DC1371F7004DA1EF6C6E0000000000000000E340000007BF005AAC45DC4500101FDA300CA1207246690A02107E4001BFBE28E240800001C080E8000C0264A22A6C6E0626850A023FC228024080E87246004CE98080000000400002107E4007BD005A008CA3620000000000000000
    ∷ 0x000000000000000001BFF2298577357701C080E8050C0264058C1FD80500A35A00002000E040000800280AD8D018A1200000081001886162850706260C6E0C6E0C6E0C6EEE001F00002BE0590528205B052BE1A0CFF4A12001EF75877577C5774C6EFE26EE00020007BF005AAC45DC4500101FDA3010A12000282120963AA65B704072B0EC40000001BFF22801C080E8
    ∷ 0x000C0264A2AA6C6E0626860A01BFF42801C080E8E3008000018C0264964AA65B0C6E92C0020C807807BD005A008CA36200000000E0C0000007BF005AAC45DC4500101FDA3010A12000282120963AC65B704072B0EC40000001C0122801C080E8000C0264A2AA6C6E0626860A01C0142801C080E8E3008000018C0264964AC65B0C6E92C0020C807807BD005A008CA362
    ∷ 0x00000000E0C0000005BC94F4053C62F505435028054080E8002802044C6E75C6D0000590E4000000CFEEC8100000600001830162020403E301A85DC10200A35802102FDB020C0254009003A201AC1FDB053C62E4008CA36305BC92E400000000000000000000000002D5002A02C080EA83C5E2C71346872701850C67DB6F92462E660E3CEF90276091C786AF08034001
    ∷ 0x021432B6D01A8122029C0FDA068013A20C664C6EE82020010E3C83462E666C6E91C78EAF06034001021432B600000000A1EF0C6EE8E0001807BF005AAC45DC4500101FDA3012A120002A21200290ACA202149C42E040000092400C6E01C0562801C080E8000C0264A32A6C6E0626868A01C05828E620800001C080E8018C02640290ACA202149C4272402C6E07BD005A
    ∷ 0x008CA362E2000000257725F7564631F71FF9B01202460627D0000710CFF9241003280FD8E1600048D1BC52E605900FD8D22C0FD801840162858671F70000000065F76577EA000000008CA36200000000000000000000000000000000000000000000000000000000053C94F44646FC3568BA024EC028362500800FD89004A3588C6E08BAE8C08028000210104C6E8046
    ∷ 0x0183016200283624012A6C6EC0021010C2000FD8E240800000004000024628281FF8D813024080E84C6EFC3D053C92E4008CA362E2000000053C94F44646FC351003FC130246BC4501FFFFA9033C805B09BA1A76E940A088D1BC62E6CFDFEC1003280FD80404A358D20C0FD8020C1FDA0187016201BC62E601900FD8020C0FD800000000053C92E4008CA36200000000
    ∷ 0x0000000000000000053C94F44646FC351003F0130246BC4501FFFFA9033C805B09BA1A76E940A088D1BC62E6CFDFE01003280FD80400A358D20C0FD8020C1FDA0187016201BC62E601900FD8020C0FD800000000053C92E4008CA3620000000000000000000000000240702A024080EA021002E602C08E2802C080E80C6E6246001099FAE40000003214024502C08F28
    ∷ 0x02C080E8029402040C6E88663210907830106BF9E2000000320000A802940A59D200002800148F7902000028D20C0FD8008CA362000000000180A358030C8FF801958CA0021A99A2021301EF028C9FFB02820029E2000200A66982C602999CA3019035082010AA7B01FE00D001946A7802007F78E020000207BE09C2023C23C4023C23E6033C23E60780085221EF0C6E
    ∷ 0x0210CA22E40000000000200002103DD800000000000000000000000000000000000000000000000002FFFFA802FFFFE902AF782A02C0806B96E9FE2702EF62C6320C0265E60006000200A3580180A3583194805800000000020C1FDA0000000000000000000000008577357775C646471FFBC013474E9247022802E4022802E685067587E96000CA0000200001915078
    ∷ []

pub length-core0_lines_2903 : length core0_lines_2903 ≡ 25
unfolding core0_lines_2903
length-core0_lines_2903 = refl

unfoldable pub core0_lines_3053 : List ℕ
core0_lines_3053 =
    0x01A802F4053C33E5000C0362053C52E6000060000000000003103474021034760184402801C080E804103476041034742D2604A6E800000001903474A0000092009034744C6E797603103476825601EF00006000E50000000042C028004080E80000C2660080E2674C6E01EF020018F03780C277E2000000378408F20000000000000000000000000000000000000000
    ∷ 0x000000000000000001BC94F61247AC453018A120DC450C41A2477246104D92464C6E204CEF4006000C6EAA4110035C1302129260020C026601BC92E6A1EF6C6E00000000E4A0003001BC54F60278D0281003A813024080681FFCF812100270121002A0121FFDB8121002EC1201BC52E600006000008CA3620000000000000000000000000000000001C38C2801C080E8
    ∷ 0x000C0264262691C7A5BA2C6E6C6E104D6C6E904DEF008000001008DA2003A1200200A358008CA36200000000000000000000000000000000AC4531F702BDC02A02C080EA035A3029104D92471FF75C13072792C6EA20320003408069040000400626AC3D00004000020C02746C6E71F7008CA362E4800000028403E210004000031003E285E225A6018E1008021003E2
    ∷ 0x020C9F9AE1000000021003A2009403A2008C836202181FD800000000000000000000000000000000028403E210004000031003E285E225A6018E1008021003E2020C9FFAE1000000021003A2009403A2008C836202181FD80000000000000000000000000000000001BCD4F6033D02D6DC45EC65023C22F410000813033D028601BCD2E6E080000000006000008CA362
    ∷ 0x000000000000000000000000000000000000000000000000B2471346034403E201C2F42801C080E8C20C026400186BDA030C6266E0200003A9E605A6C1906A65008C43620318BE4221651145C28D427600000000E220020001BC94F6AC4572469247CC3510C5B1C7023C42E602C018AA0280006AE1C0000452552C6E1FFDCC130627CC4DCC4D07260000600001BC92E6
    ∷ 0xA1EF6C6EE9A20030AC4531F7023DE029104D92471FF72C13024080E9FF27072604000040E4A00C2001BC22E40200A35A00004000020C027601BC52E600006000008CA3620000000001BC94F6AC4572469247CC3510C5B1C7023C42E602C0192A0280006AE1C0000452552C6E1FFDBC130627CC4DCC4D07260000600001BC92E6A1EF6C6EE9A20030AC4531F702BDF02A
    ∷ 0x02C080EA03073029104D92471FF71C13FF2792C6EA203200034080E9040000400626AC3D00004000020C02746C6E71F7008CA362E480000001921246023F7C2AC0000511024080EBD1902274DFEA8011D21002E6E0200003C08C63620210907800002000000000000000000000000000000000000000000001BD14F6043CC2F6043CA2F4EC659CE5AC45DC451FF88813
    ∷ 0x04001228E300000001BD12E600006000008CA362000000000000000000000000000000000000000001BCD4F6EC659CE5AC45DC4500100FDA2012612002BD282A02C080EAE0C0000002140FDA1FFDAC1201BCD2E600006000008CA36200000000000000000000000001C38C2801C080E8000C0264262691C7A5BA2C6E6C6E104D6C6EF04DEF008000001008DA2003A120
    ∷ 0x0200A358008CA3620000000000000000000000000000000001BC94F6AC4572469247CC3510C5B1C7023C42E602C0132A0280006AE1C0000452552C6E1FFD8C130627CC4DCC4D07260000600001BC92E6A1EF6C6EE9A20030AC4531F7023E1029104D92471FF6EC13024080E9FF27072604000040E4A00C2001BC22E40200A35A00004000020C027601BC52E600006000
    ∷ 0x008CA36200000000AC4531F70404A358023E20281FF6E4130726BC4D024080E90323D05AE220030001BC52E600006000008CA3620000000000000000000000000000000000000000AC4531F702BE302A02C080EA030930281FF6DC13034080E992C69247E82030000303E0430400204001BC52E600006000008CA36200000000000000000000000007BF005A01C34828
    ∷ 0x01C080E8018C0264AC356C6E02C3482A02C080EAE2000000000CBA7A20098120020C1FDA000A81200626164007BD005A008CA362E200000007BF005A1E41AC45104DDC4502C3482A02C080EA86E92C6E2016A120E4C000006C6EDC4D000881211640104D0200A35807BD005A008CA36200000000E0A0000001C38C2801C080E8000C0264262691C7A5BA2C6E6C6E104D
    ∷ 0x6C6ED84DEF008000001008DA2003A1200200A358008CA3620000000000000000000000000000000001C0422801C080E8028C0264124705A60C6EA9E602942A5800146F78E3000000C00062E6C204A358D000A35A000020003200A358008CA362000000000000000001BC94F6053A0246D1BC92E6CFF7F810062713320000200001880162E240800801BC92E600006000
    ∷ 0x008CA362000000000000000000000000000000000000000001BD54F6053D22F4053CE2F4043CC2F6043CA2F4EC659CE5023C82D6E4000000023C22F41FE97813023C8286053D22E40000600001BD52E6A1EF6C6EE800000001BC94F601C06A2801C080E81002C01302101FDB020C026401BC92E600006000008CA3620000000000000000000000000000000000000000
    ∷ 0x000000000000000001BCD4F6EC659CE5AC45DC45104D9247505D6C6E4C6EDC4D00140362E7C000000181816201BCD2E600006000008CA3620000000000000000000000000000000001BC94F6DC45EC659247AC456C6E104DDC4D705D02EF4C6E01888162E7C0000001BC92E600006000008CA362000000000000000000000000000000000000000001BC94F6AC457246
    ∷ 0x9247CC3510C5B1C7023C42E602BFFFAA0295405AE1C0000452552C6E1FFD24130627CC4DCC4D07260000600001BC92E6A1EF6C6EE9A2003001BC94F66C6E400CD0000711C191C244C0027011C2102265D1BC92E6E040000002001FDA00004000030CACA10184016201BC92E600006000008CA36200000000AC4531F702BE402A02C080EA0301A029104D92471FF67C13
    ∷ 0x072792C6EA203200034080E9040000400626AC3D00004000020C02746C6E71F7008CA362E480000001BC94F6033C62F4023C82D6023C22F41FF56C13023C828601BC92E600006000008CA36200000000000000000000000000000000000000000000000000000000053C94F40727FC350500A3591FF2041304000029040000424C6EFC3DE8400008053C92E4008CA362
    ∷ 0x00000000000000000000000000000000000000000000000001BCD4F6033C82F6033CC2D4AC45DC4510000813033CC28401BCD2E6E100000000006000008CA362000000000000000000000000000000000000000000000000053C94F401BC62F61FF1F4130500A359040000290400A35A4C6EFC3DE8000000053C92E4008CA36200000000000000000000000000000000
    ∷ 0x000000000000000001BCD4F6043CA2F4033C82F6033CC2D4AC45DC4510000813033CC284E200000001BCD2E600006000008CA3620000000000000000000000000000000000000000053C94F401BC62F61FF1E4130500A3590400A35A4C6EFC3D053C92E4E4000000008CA3620000000000000000000000000000000000000000000000000000000001BD54F6053D22F4
    ∷ 0x053CE2F4043CC2F6043CA2F4033C82F6033CC2D4023C42F6023C22F41FF1D813033CC284053D22E40000600001BD52E6A1EF6C6EE800000001BC94F601C05C2801C080E900100FD810021C13D20C026401BC92E600006000008CA3620000000000000000000000000000000000000000000000000000000001900FD902438828024080E8A6BA000C02808204008CAA78
    ∷ 0x801C8123E11080009000026582000FD980000028CFFFFE10000080000200A358008CA3620000000001BE54F601C0682801C080E8018C0264023D10582C6EEE27000C1362E40000000181816201BE52E600006000008CA36200000000000000000000000000000000053C94F44646FC351001CC1210024C1302280FD8100050124C6EFC3DE8400008053C92E4008CA362
    ∷ 0x00000000000000000000000000000000000000000000000007BC1FD907BC94F401BC62F601BD005891C7CC35023C22651FFE5412E2000200023C22F401BC62E60000600007BC1FDB07BC026400006000008CA3620000000007BC1FD907BC94F401BC62F601BD005891C7CC35023C22651FFE5812E2000200023C22F401BC62E60000600007BC1FDB07BC026400006000
    ∷ 0x008CA3620000000001900FD802407028000DF9A3024080E8329002644C6E062632146078E4000000008CA3620000000000000000000000000000000000000000000000000000000001BD54F6DC45EC65023C42D4130004FE1FF66413023C428401BD52E6E040000000006000008CA362000000000000000000000000000000000000000000000000008C236203100459
    ∷ 0x01800028021865F802971849019C60F8028CA078000000000FF82C10000080000000000000000000000000000000000000000000000000000FF840100200A358000060000000000000000000000000000000000000000000027CA358008CA362000000000000000000000000000000000000000000000000008CA3620000000000000000000000000000000000000000
    ∷ 0x0000000000000000029002E600000000008C43620314205A031002F6021402B40000000000000000008C436201CB8A2801C080E8020C027400000000000000000000000000000000008C436201CB8C2801C080E8020C027400000000000000000000000000000000013C62E6023C22E4023C42E601BC92E600000000000803620000800000000000001018F30042CC28
    ∷ 0x004080E9000C036237800266300002760000400000000000000000000001A120000000000000000000000000000000000000000000000000062731F71FFFD81371F707264C6E0626008CA3620000000000000000E1A00003029060590FFA0010031402640190E05802101FD8020C1FDA0000000000000000010C1FD91FF19413030000A80088B3620000000000000000
    ∷ []

pub length-core0_lines_3053 : length core0_lines_3053 ≡ 25
unfolding core0_lines_3053
length-core0_lines_3053 = refl
