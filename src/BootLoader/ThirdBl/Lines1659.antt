-- ===== src/BootLoader/ThirdBl/Lines1659.antt =====
-- inc/DSP_TBL_6678.h: the lines 1659 to 1808 of `_thirdBLCode_U0`, inside its second section.
use dspc8681_linux_driver.Base.{ℕ, ◌≡◌, refl, List, [], ◌∷◌, length}

unfoldable pub lines_1659 : List ℕ
lines_1659 =
    0xF8125901000005933500004002100CE30100C8DB0080C9C3
    ∷ 0x058A1800E820900360800043021099790000019222109979
    ∷ 0x2003E05B408429C340000190000C036305BC22E50100A35A
    ∷ 0x92100CE1820000410114DDF9053C52E50140006A921009E1
    ∷ 0x002C5A7AA21005A13500A35801280FD8A208807800000000
    ∷ 0x000000000000000031F7131300111A5903100860019869A1
    ∷ 0xC000171308678769029FBCA3E4200803029C69A020001313
    ∷ 0xD29C89A002147FF9D29F9CA2D19889A0D2147FF831807FA8
    ∷ 0x300CEA781AF606A701FFFFA9D08CE9F8834EB7E9C08CC9F8
    ∷ 0x309CBBFAE240030C028C1FDA2098BBFA44101FD94293EDA3
    ∷ 0x5080004140000610800008905000801051BC52E6429F1808
    ∷ 0x4493FDA0000020009FFEB01001868162BAE271F7E8000000
    ∷ 0xA1EF4C6E0FFD181001BC52E60220145A0218045800002000
    ∷ 0x6C6E71F7E8200000008CA362000000000000000000000000
    ∷ 0x000000000000000000000000000000000290022401FFDC28
    ∷ 0x0180436862D02C6EB1C722DC0000400000150F58E3000000
    ∷ 0xC1903225B1C1A53A100040006C6E324D00110F5A20068121
    ∷ 0x21903224E140800872C6B1C110006000AA33025C04A76B32
    ∷ 0xA7680C6E886696E922903224E7A10A02C2903224A8E70726
    ∷ 0x62F02C6E6C6E23FC001C8F5903FFE8282426ADFAE9C0A000
    ∷ 0x100040010201404303181FDA02188573C2903224F3C72C6E
    ∷ 0x62E092C1EC002000C310E07A6C6E236C00188F590228A35A
    ∷ 0xC002612302188573C2903224E040000062E092C1C310E07A
    ∷ 0x1000600061EFD346431800D802180FD800000000E1200002
    ∷ 0x02126630029000DB05A616560294EF5B000C026403106D18
    ∷ 0x00942F5AE0A000238346A346C8E7BC49201410F9211447A3
    ∷ 0x8B67C97744103059048089A0E2600208431002B763203655
    ∷ 0x211487A303A48CA14BE7F0470001EBD9310C16A2E2000200
    ∷ 0xD0174121C6A413A363203674C2101FDA01A10058C2941FDA
    ∷ 0xD4070C66E8001000FBF12CE6020C57451C673D4501EF1746
    ∷ 0x001D0F5A001C8F5B24210059E1A4008322A00374001C4F5B
    ∷ 0x24208059232003550180002821A00234001C2F5B24204059
    ∷ 0x21A0223421A0023400000000000000000000000000000000
    ∷ 0x00000000000000000004A35A2383E00000130001043333A8
    ∷ 0x62462D6704333368C2566C67EA003300020D0671080FEDA1
    ∷ 0x0C6E52260083000105BD54F60093000104801829E0800000
    ∷ 0x053D22F60727ACE612801BBFAEE74EBA4FA6E24712E565CF
    ∷ 0x024065E0E7400F8C0210E571924762460C6E0247C1CECA40
    ∷ 0x0890035802A6284102180FD8E1C00080000340014ED5C246
    ∷ 0x020016AAC21430B60515E0FA0229005A03128942E0400004
    ∷ 0xD34693C61000BC13658782C7053D22E701A91059000C0362
    ∷ 0x05BD52E6E0A00002020E6940000040000000000000000000
    ∷ 0x000000000000000000000000000000003A4E4A460A562356
    ∷ 0x02C62FF101C800D8018CE7A10414AD18E40ECDE8E860100B
    ∷ 0x497691C7C10C47A1C08CC0F9C40648EFC08C97A3048489A1
    ∷ 0x00102F5AE1200083F0CF48670005EBD909A48CA0D0000C13
    ∷ 0x2810205928C8023502180861E02000039380A35BC29C18F2
    ∷ 0xC6A413A2A44036544440367401C10058C3401FDA00038001
    ∷ 0x2CE6934703CCF0FB020C5745021857C6F2C61C661B46D246
    ∷ 0x0C6E0C6EEE201802000C0363001D0F5A001C8F5B28410059
    ∷ 0x23C00374001C4F5B284080592440035424400234001C2F5B
    ∷ 0x284040592440223428C0023502480FD80000000000000000
    ∷ 0x00903D5B00903D591976003200909BF900043D7351002040
    ∷ 0x02100CE3E080001040002943030018F0011099FBC5621836
    ∷ 0x00000C124100A35B608808F3E10000C0610829A100000812
    ∷ 0x621029A352109B3100000810521029A362109B310100E8DB
    ∷ 0x0080E9C3000004106080A35B22109979200029C300000413
    ∷ 0x000000010000000022109979200029C34087E05B40000012
    ∷ 0x000C036292100CE18200A358921009E09210484000002000
    ∷ 0x000000000000000000000000000000000000000000000000
    ∷ 0x0181AE2905BC54F4018043E8018C026402FCA35A027FFFAA
    ∷ 0x027FFFEA02948A7A018C0A58B5A975C62181AC2920000812
    ∷ 0x30100363218043E8200C0264E0400000053C22F40C6E4646
    ∷ 0x018301620181AC28018043E8000C026400004000E0400000
    ∷ 0x023A8506C000136200006000018401620181AA28018043E8
    ∷ 0x000C0264E0308000D0000210C00013620000600001840162
    ∷ 0x10012C1201EF7587053C22E4E400080005BC52E400006000
    ∷ 0x000000000000000000000000000000000000000000000000
    ∷ 0xA5C736F702820E2A028043EB85778677058000290200002A
    ∷ 0xC6462777E9203083020214290200006B069418F0020043E8
    ∷ 0x0580006972469EE8D0001190E4000800002C99FBC1AC60F8
    ∷ 0xC1AC06A1C20CE0594DBB6867C5106DA022AC0324E2008200
    ∷ 0x20380FD8260C22640E3C2C6E0000600003346A64C3B0A0F8
    ∷ 0xC29DC078E080000000002000001813620184616202141FDA
    ∷ 0x05AD0059002BE1A1052829C0CFFB8121C2AC0324C1903615
    ∷ 0xC0380FD8C5776777C677668776F701EF00006000E7000280
    ∷ 0x00903D5B00903D5800909BF900043D730663A25640002942
    ∷ 0x011099FBE2000200000008924100A35B608808F3088BF056
    ∷ 0x621029A352109B3100000890E1008040521029A362109B31
    ∷ 0x0100E8DB0080E9C3000004906080A35B22109979200029C3
    ∷ 0x0000009222109979200029C34087E05B400000929210E9E1
    ∷ 0x821408F1000C036200008000000000000000000000000000
    ∷ 0x00000000000000000000000000000000664625F700101ADA
    ∷ 0x322C00D8964686770293EDA1B5C6D3471FFE9813E52008C3
    ∷ 0x4756257783724E27022D58DA02AEDADA0010AF7A21A80264
    ∷ 0xAAB21233E8600007002C08D8D28015A8220FE05822280274
    ∷ 0x220C023601A8026476879607E8000000EDC02C6E02280274
    ∷ 0x028C023401A80264EDC06C6E02280274020C0236E2200000
    ∷ 0x053C52E4063C33E5000C036205BC52E40000600000000000
    ∷ 0x00000000000000000004A358C283E0006D670C6ED23AA246
    ∷ 0x2C677A76C19032252C6EEDF0EB8002E017462CE70C6EFE27
    ∷ 0x2C6E01C61C660C6E7326264163461232C0388121E7E00A83
    ∷ 0xD29C1FDAD18FE058C2470F67068C13A2364F2E67AF096406
    ∷ 0x92C72CE6EE803730201418D9020C0265300000A8C3A7184B
    ∷ 0xD3948AA6EED14C6EEE40164FEC00180000034001020C0275
    ∷ 0x03A002B600000000008CA362000000000000000000000000
    ∷ 0x957736774647857703A842E607FEF852774775C603100458
    ∷ 0xC5A653A7EA6020042398A35B043C91A021A842F50218145B
    ∷ 0xD3C68636062C02E7033D005BE20002001FFB7012C587DC4D
    ∷ 0x032842E51FFFE41304900FD8022C02E6C5878486E8400008
    ∷ 0x0000200000118A7A222802E62500A358E86F4C6E20110F5A
    ∷ 0x2504A358E20002001FFD6813C506DC4D07810852C5777587
    ∷ 0x01EFD5776C6E767700000000E7400144001829F1009847A1
    ∷ 0x0404A358C19036A5C400012904901FD8829056A784A50A25
    ∷ 0x001879A3011887A0A81037B5144EA2560084A35A239037A5
    ∷ 0x2003E1A3E10000C0010068DA600C0363289037A72003E05A
    ∷ 0xC1943635C0804043D86F52C7E80010008294563784882AB4
    ∷ 0xA814375500200FD8C3943775C003E1A000838001C8943776
    ∷ 0x039037A400004000000000000003400103943774008CA362
    ∷ 0x00000000000000000180A35902900A5B03100860000CAA78
    ∷ 0xC00C8A78B43901B240000D93E4000000000C9BFB53002028
    ∷ 0x4000A35B528C9D7351901FD820000A915290B9E35010D9F8
    ∷ 0x52946CE053106CE05394BFF832111DC3200C036322180458
    ∷ 0x32909CE20200A35BD280002A0000000003101458000C0362
    ∷ 0x02180458000060000000000000000000334FEE5150000F11
    ∷ 0x42181FDA43141FD840983224A246E24642041FD8E4200001
    ∷ 0x100040008213E05B8207F0590E9400CE019340F148670247
    ∷ 0x20088123E5000040209832248213E05920943635000406A1
    ∷ 0x8213E05A000C3BDB10006000300E2121020FF05A269003A2
    ∷ 0x2C6E06A772C60C660E3482CE0803400083C681EFEB8000C0
    ∷ 0x82B331F7028129EAA24310CD827210C51FF0471211920626
    ∷ 0x020129E8E5B0048012B30034B25191C7823310C501907D40
    ∷ 0x020C027681B295C1019002F4E4E0042201913D410223002A
    ∷ 0x020C0276020C0264A2226C6E020C02741FF03F13E2000000
    ∷ 0x0200322801BC52E600006000008CA3620000000000000000
    ∷ 0x0000000000000000A5C736F701800028018000690500002B
    ∷ 0x053C35C60500006A058C1FDAE020000300287A78D22836E7
    ∷ 0x026FA4AA01848162002D4A7A30068121322836E6E0808000
    ∷ 0x3010036201B40FDA000C0363053C33E606BC52E600006000
    ∷ 0x000000000000000003109632041496300810B63000002000
    ∷ 0x031D1578021D2079019806A10314B6320212257902401FDA
    ∷ 0x020C957A0410B57B000C03620220C57AA3CBC247E8003000
    ∷ 0x02953AB20394807A00000000021814580000000000000000
    ∷ 0x00000000000000007E6801B2031099E2D38C1FDB7A3002D3
    ∷ 0xD210E8C3039499E301EF8EC9E920208201946CE0D21499E3
    ∷ 0x4AF72867CAF7CA67030CD6E2D310045A00000000E18000D0
    ∷ 0x021814580000000000000000000000000000000000000000
    ∷ 0x000000000000000001942CA10393F9A2366B36EA038CFFFB
    ∷ 0x0193F9A001986FF904102CA3E080001001EFB6E90420C5FA
    ∷ 0x3014BBF902A7184B048CF0FA0295207B20109BF9E0200002
    ∷ 0x022026A2C218045A00000000021014580000000000000000
    ∷ 0x0000000000000000FE701327C256A34E3028A121219C3225
    ∷ 0x0F34934604946A7910004000E26002070213E0590427E1A0
    ∷ 0x00110F78C0008123C19C3224C198363504946A7800200FD9
    ∷ 0x10006001021806A0D0000310D08C8362008C63620200A358
    ∷ 0x000000000000000007BC1FD907BC94F401BC226406BC62F6
    ∷ 0x02101FDA0356102ADC45A5C7E8003000033D10590455C029
    ∷ 0x0300436A1FF8A41301BC22F5023C9059023D105B04004368
    ∷ 0x01EF6687023C42E606BC62E707BC1FDB07BC02642C6E06A7
    ∷ 0x029002B6E42000020180A358030C8FF801958CA0021A99A2 ∷ []

pub length-lines_1659 : length lines_1659 ≡ 150
unfolding lines_1659
length-lines_1659 = refl
