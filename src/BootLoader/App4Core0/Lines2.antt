-- ===== src/BootLoader/App4Core0/Lines2.antt =====
-- inc/app4Core0_6678.h: lines of `_app4Core0` from line 2 to line 198, six to a number.
use dspc8681_linux_driver.Base.{ℕ, ◌≡◌, refl, List, [], ◌∷◌, length}

unfoldable pub core0_lines_2 : List ℕ
core0_lines_2 =
    0x8100D400000010AC8101AB2005A1A1003B9ACA00300008A103810196FC0008A10AA0810004A18101010AA00000000181010AA00000000281010AA00000000381010AA00000000481010AA00000000581010AA00000000681010AA00000000781010AA00000000881010AA00000000981010AA00000000A81010AA00000000B81010AA00000000C81010AA00000000D81
    ∷ 0x010AA00000000E81010AA00000000F81010AA00000001081010AA00000001181010AA00000001281010AA00000001381010AA00000001481010AA00000001581010AA00000001681010AA00000001781010AA00000001881010AA00000001981010AA00000001A81010AA00000001B81010AA00000001C81010AA00000001D81010AA00000001E81010AA00000001F81
    ∷ 0x010AA00000002081010AA00000002181010AA00000002281010AA00000002381010AA00000002481010AA00000002581010AA00000002681010AA00000002781010AA00000002881010AA00000002981010AA00000002A81010AA00000002B81010AA00000002C81010AA00000002D81010AA00000002E81010AA00000002F81010AA00000003081010AA00000003181
    ∷ 0x010AA00000003281010AA00000003381010AA00000003481010AA00000003581010AA00000003681010AA00000003781010AA00000003881010AA00000003981010AA00000003A81010AA00000003B81010AA00000003C81010AA00000003D81010AA00000003E81010AA00000003F81010AA00000004081010AA00000004181010AA00000004281010AA00000004381
    ∷ 0x010AA00000004481010AA00000004581010AA00000004681010AA00000004781010AA00000004881010AA00000004981010AA00000004A81010AA00000004B81010AA00000004C81010AA00000004D81010AA00000004E81010AA00000004F81010AA00000005081010AA00000005181010AA00000005281010AA00000005381010AA00000005481010AA00000005581
    ∷ 0x010AA00000005681010AA00000005781010AA00000005881010AA00000005981010AA00000005A81010AA00000005B81010AA00000005C81010AA00000005D81010AA00000005E81010AA00000005F81010AA00000006081010AA00000006181010AA00000006281010AA00000006381010AA00000006481010AA00000006581010AA00000006681010AA00000006781
    ∷ 0x010AA00000006881010AA00000006981010AA00000006A81010AA00000006B81010AA00000006C81010AA00000006D81010AA00000006E81010AA00000006F81010AA00000007081010AA00000007181010AA00000007281010AA00000007381010AA00000007481010AA00000007581010AA00000007681010AA00000007781010AA00000007881010AA00000007981
    ∷ 0x010AA00000007A81010AA00000007B81010AA00000007C81010AA00000007D81010AA00000007E81010AA00033A17F810185780001857881FF07A1810302010040FFFFFFA14783FF01A8000F01A74081001CA18181019548810195608101957881019590A8000CA1A181019596F8000496E08101912881018738810185F8810185F88101860081018600810186088101
    ∷ 0x860881018610810186108101861881018618810104A18101018624000186248101862C8101862C810008A1818101972881019650540010A1548101865C8101865C81018664810186648101866C8101866C81018601810186500013A1A18101928690000486908101A1018101A103000B92D0000B10A18101019738000004A181810186CC810186CC810186D4810186D4
    ∷ 0x810186DC810186DC50FF04A15081019418810193D081018EA181019386FC000486FC810108A1810107A10800A17FFF0096A8000A04A1810100CAFE000153E000017720810107E081010DA0810004A18181010DA00000000181010DA00000000281010DA00000000381010DA00000000481010DA00000000581010DA00000000681010DA00000000781010DA000000008
    ∷ 0x81010DA00000000981010DA00000000A81010DA00000000B81010DA00000000C81010DA00000000D81010DA00000000E81010DA00000000F81010DA00000001081010DA00000001181010DA00000001281010DA00000001381010DA00000001481010DA00000001581010DA00000001681010DA00000001781010DA00000001881010DA00000001981010DA00000001A
    ∷ 0x81010DA00000001B81010DA00000001C81010DA00000001D81010DA00000001E81010DA00000001F81010DA00000002081010DA00000002181010DA00000002281010DA00000002381010DA00000002481010DA00000002581010DA00000002681010DA00000002781010DA00000002881010DA00000002981010DA00000002A81010DA00000002B81010DA00000002C
    ∷ 0x81010DA00000002D81010DA00000002E81010DA00000002F81010DA00000003081010DA00000003181010DA00000003281010DA00000003381010DA00000003481010DA00000003581010DA00000003681010DA00000003781010DA00000003881010DA00000003981010DA00000003A81010DA00000003B81010DA00000003C81010DA00000003D81010DA00000003E
    ∷ 0x81010DA00000003F81010DA00000004081010DA00000004181010DA00000004281010DA00000004381010DA00000004481010DA00000004581010DA00000004681010DA00000004781010DA00000004881010DA00000004981010DA00000004A81010DA00000004B81010DA00000004C81010DA00000004D81010DA00000004E81010DA00000004F81010DA000000050
    ∷ 0x81010DA00000005181010DA00000005281010DA00000005381010DA00000005481010DA00000005581010DA00000005681010DA00000005781010DA00000005881010DA00000005981010DA00000005A81010DA00000005B81010DA00000005C81010DA00000005D81010DA00000005E81010DA00000005F81010DA00000006081010DA00000006181010DA000000062
    ∷ 0x81010DA00000006381010DA00000006481010DA00000006581010DA00000006681010DA00000006781010DA00000006881010DA00000006981010DA00000006A81010DA00000006B81010DA00000006C81010DA00000006D81010DA00000006E81010DA00000006F81010DA00000007081010DA00000007181010DA00000007281010DA00000007381010DA000000074
    ∷ 0x81010DA00000007581010DA00000007681010DA00000007781010DA00000007881010DA00000007981010DA00000007A81010DA00000007B81010DA00000007C81010DA00000007D81010DA00000007E81010DA00000007F81010DA00000008081010DA00000008181010DA00000008281010DA00000008381010DA00000008481010DA00000008581010DA000000086
    ∷ 0x81010DA00000008781010DA00000008881010DA00000008981010DA00000008A81010DA00000008B81010DA00000008C81010DA00000008D81010DA00000008E81010DA00000008F81010DA00000009081010DA00000009181010DA00000009281010DA00000009381010DA00000009481010DA00000009581010DA00000009681010DA00000009781010DA000000098
    ∷ 0x81010DA00000009981010DA00000009A81010DA00000009B81010DA00000009C81010DA00000009D81010DA00000009E81010DA00017A19F000000120013A101000000220013A1020100A124000E009BA140000002200005000000040005A141000E0220A140000002210005000000040005A141000E0221A140000002220005000000040005A141000E0222A1400000
    ∷ 0x02230005000000040005A141000E0223A140000002240005000000040005A141000E0224A140000002250005000000040005A141000E0225A140000002260005000000040005A141000E0226A140000002270005000000040005A141000F0227A142000002280005000000050005A143000F0228A144000002290005000000050005A145000F0229A1460000022A0005
    ∷ 0x000000050005A147000F022AA1480000022B0005000000050005A149000F022BA14A0000022C0005000000050005A14B000F022CA14C0000022D0005000000050005A14D000F022DA14E0000022E0005000000050005A14F000F022EA1500000022F0005000000050005A1518F98022F8F98810100058101A1200000A104000700140008011A80000004A18181002648
    ∷ 0x80000CA10181014AE80013A1E881018F0581018F20000000040007A1140008A12E80000004A181010028C000000CA18181014A880013A1018101903881019038010004A1040007A1080008A14280000005A181018101120090000CA10181014A38000FA1D081016AA181019494D000040001810194D00000A102810198A1008B0004A1FF000BA101810191D0810191D0
    ∷ 0x010004A1E8000BA1E8810191A181019100010004A101000001920008019200810004A181000000010007A1018101921881019218010004A130000BA130810192A1810192A10100049248000B9248810192508101925081019258810192588101926081019260810192688101926881019270810192708101927881019278810192808101928081019288810192888101
    ∷ 0x9290810192908101929881019298810192A0810192A0810192A8810192A8810192B0810192B0810192B8810192B8810192C0810192C0810192C8810192C8810192D0810192D0810192D8810192D8810192E0810192E0810192E8810192E8810192F0810192F0810192F8810192F881019300810193008101930881019308810193108101931081019318810193188101
    ∷ 0x932081019320810193288101932881019330810193308101933881019338810193408101934081019348810193488101000181010001000000010000000100000001000000010000000100000001000000010000000100000001000000010000000100000001000000010000000100000001000000010000000100000001000000010000000100000001000000010000
    ∷ []

pub length-core0_lines_2 : length core0_lines_2 ≡ 25
unfolding core0_lines_2
length-core0_lines_2 = refl

unfoldable pub core0_lines_152 : List ℕ
core0_lines_152 =
    0x000100000001000000010000000100000001000000010000000100000001000095C0000080A18101EF21AA000004A10909EF21AAAA0004A1A109EF2121AA000404A109EFEF21AA000004A10909EF21AAAA0004A1A109EF2121AA000404A109EFEF21AA000004A10909EF21AAAA0004A1A109EF2121AA000404A109EFEF21AA000004A10909EF21AAAA0004A1A109EF21
    ∷ 0x21AA00040AA109EF60000200C08100BBC08100D2408100C6608100C8808100B1008100C7A181008C008000540005A18081010A8001000DA1000101000A8000000DA18101020002000000000281010A8004000DA1000304000A8000000DA1810140004000600004A1A18100F50001000C04A100000004A1FF0017A1100AA103E807A10E0000F560000008A18181019720
    ∷ 0x0000000381017AF0010008A1010007A12800000028810196F0810196A181017AA101000800010007964800009648810196508101965081014620810108A1810004A10F000EA180000192C8000004A18181017978980004A19881014A7881014A988101520181014A400000007C002BA10881017A800006A1F00005A1A10800FF0260001D02604000026080000260C000
    ∷ 0x010008A1080004A10800810108A181010195A8000004A181810195C081017ACC380004A1A18101900000000000000100000082E00000830000008320000083400000836000008380000083A0000083C000008580000087400000890000008AC000008C8020008E40000160000000000096C8000091C0810191D8810191F0810192088101922081019238810100008101
    ∷ []

pub length-core0_lines_152 : length core0_lines_152 ≡ 4
unfolding core0_lines_152
length-core0_lines_152 = refl

unfoldable pub core0_lines_181 : List ℕ
core0_lines_181 =
    0x000002008101A800000000000000000000000000006A002A0040806A000003620000000000006000003C54F60004A35A003C22F6004BA02A0040806A00000362003C52E600006000003C54F60008A35A003C22F60054202A004080EA00000362003C52E600006000003C54F6000CA35A003C22F60054302A004080EA00000362003C52E600006000003C54F60010A35A
    ∷ 0x003C22F60054402A004080EA00000362003C52E600006000003C54F60014A35A003C22F60054502A004080EA00000362003C52E600006000003C54F60018A35A003C22F60054602A004080EA00000362003C52E600006000003C54F6001CA35A003C22F6003B002A0040806A00000362003C52E600006000003C54F60020A35A003C22F6003B002A0040806A00000362
    ∷ 0x003C52E600006000003C54F60024A35A003C22F6003B002A0040806A00000362003C52E600006000003C54F60028A35A003C22F6003B002A0040806A00000362003C52E600006000003C54F6002CA35A003C22F60054B02A004080EA00000362003C52E600006000003C54F60030A35A003C22F60054C02A004080EA00000362003C52E600006000003C54F60034A35A
    ∷ []

pub length-core0_lines_181 : length core0_lines_181 ≡ 3
unfolding core0_lines_181
length-core0_lines_181 = refl
