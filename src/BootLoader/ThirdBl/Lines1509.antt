-- ===== src/BootLoader/ThirdBl/Lines1509.antt =====
-- inc/DSP_TBL_6678.h: the lines 1509 to 1658 of `_thirdBLCode_U0`, inside its second section.
use dspc8681_linux_driver.Base.{ℕ, ◌≡◌, refl, List, [], ◌∷◌, length}

unfoldable pub lines_1509 : List ℕ
lines_1509 =
    0x020C362445C6960700000000E480002001810162002FE058
    ∷ 0xC0000011C1A80FD8C02C0362C20C3624C2301FDAC50C0FD8
    ∷ 0x05AFE05800314AFA3021812121B4026500800FDA400C2F58
    ∷ 0x022980FBD0001093C580102868671227C5101FD830324120
    ∷ 0x05EF4C6E022F18482C6E9607EA40000801810162002BE059
    ∷ 0x052BE1A0C0000013D53C33E5D1B40FDBC22F1848C02C0363
    ∷ 0xD63C33E4D53C33E6D00C0363D63C33E6D73C52E4C2301FDA
    ∷ 0x05EF4C6EE800000001818162C677C5776687D57701EFD677
    ∷ 0x6C6E67770000000000000000E3C00050867725F796462577
    ∷ 0x003042640204A35A07FFC452B5C66746D2304277E4600004
    ∷ 0x58266866031008608018A3598636C6271FFE901382304277
    ∷ 0x0218145BE12000424737C046043C91A008BC42E606264646
    ∷ 0x000020000047A8DA31B04264E1200003A86F6C6E300E38FA
    ∷ 0x3034412122B182254057204F204448DA4184A358E2200302
    ∷ 0x400290107004A35802C7E05B388000AB31BC42F569E2CEB0
    ∷ 0x024420DAE40008003214907900440ADB91C72293321090F9
    ∷ 0x32BC42F701880163032C06A0E08000200004A35908BC42E6
    ∷ 0xC283E0002C670C6E022BE058C19032242CE60C6EE9002080
    ∷ 0x2CE6FEA70C6E82C72C6E01C61C660C6E123326410410A07A
    ∷ 0x00450AFBE3E002820180A3582060A121302018D933A81FDA
    ∷ 0xD820EAA6B587D60724A635C7EC003000100040000B8C1A5B
    ∷ 0x60CE80C6C813184A09120A7A004AEF7A291802E6E0900030
    ∷ 0x214917A13104A358AB1402E6001340F049664C6EAADBE05A
    ∷ 0xA484A35BE2000200AA9402F6C9A406A3A85802B70BA40A5A
    ∷ 0xA8BC42E6000F40F0000020000423E05ACA4406A3002228FA
    ∷ 0x20800029002018D88FFFF6119004A35801840FD9C813184B
    ∷ 0xD820EAA681C62C6E76C6624657C679861000600108D00FDB
    ∷ 0x06181FD8E1C00000023002648887D5870000200002110F58
    ∷ 0x01906FF8018C0A5810000813E0400000030C2DD9022806A0
    ∷ 0x07803C527687657701EFC6776C6E65F700000000E7000140
    ∷ 0x134F1A27E24ED246021029C0502881234004A35904000029
    ∷ 0x0483E040E060000F02981FD8C283E00000002000C1903224
    ∷ 0x2CE62C6E0C6E94872C6E01C6EE0002001C660C6EC3C02641
    ∷ 0x0010D8F8D413E058221402644C6E2426C283E001E4600002
    ∷ 0x2893E058005300010F80172928940274EFC06C672F900234
    ∷ 0xC1903224E20003000007000104FCA3582CE60C6E0C6E9487
    ∷ 0x2C6E01C61C660C6E0210205AE7800820080018282866DE28
    ∷ 0xC1940265D030A120C283E001088FE05800430001E0400008
    ∷ 0x08940274EFC06C67080C023464862C67C19032242CE62C6E
    ∷ 0x0C6E9487ED4008CC2C6E01C61C660C6EEF6026412866DE28
    ∷ 0xC1940265CFE8A1210C6E0C6EE9E0108800181ADB001D0BF9
    ∷ 0xC86612333000141321A0A5E12FA0A8C0C05A2121E0800020
    ∷ 0x220C0AD822102DD8227C98DA20109F7A0000000030000C11
    ∷ 0x019D00F90220E8C123941FDA33201FDA25B02640320FE058
    ∷ 0x2193E0580603A001068C13A2E08000006C6E11DD2CE6EEC1
    ∷ 0x11C5D407021834A612C56C6EA1EF1C66D407EDC0EEE01018
    ∷ 0x82C60F67069013A2029834A76C6E003CEDB091C712550034
    ∷ 0xA1EF1C66EF20050302140264000060000193E05801940274
    ∷ 0x02100236008CA3620000000000000000DAE2DAE304101A1A
    ∷ 0x7AE2FAE304902D5A0800102B04801029039C2D5BE0A00033
    ∷ 0x0018DA78D318DBF90040EA7AC3109BF90325307A331C06A3
    ∷ 0x00100A1B040C2D5801191FFB01902D586000A35B60002A11
    ∷ 0x00A50A79018C9EC17410186220002A1191A008F1030004F8
    ∷ 0x737CA35973807FA870250A78008CD0FA72102C6200000000
    ∷ 0x0817180A03A7180A08A7180B01902D58011E0A7B018D2079
    ∷ 0x0917180A03464A7BD1A00FD902000C2802106A79602089FA
    ∷ 0x0293EDA1701E09FB00181FD800900A19C32089FA800000AB
    ∷ 0xD34649FA341105FB0F9525E28000A35B34FD284332102922
    ∷ 0x221029231346D0C6231525E3241105FB0910CC6024A4C07B
    ∷ 0xC9482921E0400008808421A208102C2300040ADA3038A121
    ∷ 0x2307E05ADB6F0E6708441FD8E4000C00C2472CE704A41FD9
    ∷ 0x2C679AE304201FD901A718082C67766808C01FD9E4A00823
    ∷ 0x02202C21C020D9FA01C0A5E1034485F9D00C99FA00034001
    ∷ 0x349C61E1341828F1241004580C6E0C6E04201FDA04A41FDA
    ∷ 0x88C10A3303208C6202188962E24000000000000003967FF8
    ∷ 0x03125FF853480458008C8362021804580000000000000000
    ∷ 0x01BCD4F60627AC45023C42F6023C202A0200BEEA1FF96213
    ∷ 0x0200A358E04000001FF9BA9367268637EC45FE1200101FDA
    ∷ 0x3014A1201FF99212022CA35AE0C0000C0200007E2626888A
    ∷ 0x023E02966C6EBC5D021402F6023E229602BE4296E1408000
    ∷ 0x2C6EBC6D02110CA20210AFFABC4D31454C6E06A70291A2F6
    ∷ 0x1FF98A12E3200000023C42E401BCD2E6A1EF6C6E01BC94F6
    ∷ 0x023C202A0200BEEA1FF95213E08000000200A3581FF9AA93
    ∷ 0x023D005BFE1267261247AC453016A1201FF98212E3000040
    ∷ 0x022CA35A0200007EFE26870A023D02964C6E02B300148A7A
    ∷ 0x2018A120E28080001FF97A12020008AA0200007EFE26830A
    ∷ 0x1FF97A120200A35801BC92E6E1108000008CA36201BD54F6
    ∷ 0xEC659CE5AC45DC45023C202A0200BEEA1FF94213E1800000
    ∷ 0xFC5D06260727DC4D2C6E1B238F69A2413015A1200200092A
    ∷ 0x0200007EE1E000001FF96E12002681206627FE26023F02B6
    ∷ 0x1643DC4D023F22B60E43DC4DEA900000023F42B6023D0296
    ∷ 0x00006000023F62B68CEDC2C71FF99F13C6368627EA001200
    ∷ 0x023D02F41FF96612023D02E401BD52E600006000008CA362
    ∷ 0x0000000000000000F246364703A436960224369600006000
    ∷ 0x204787E92024369730AA6120E22002025000A35A20000E10
    ∷ 0x32A4369632240296208089DA3300802A934E0C6EE8002000
    ∷ 0x01980A590298AE828281F9E63000249122810CA324A4205A
    ∷ 0x308C6363E0800000020099F8000C8F78C3243697019C00D8
    ∷ 0xC2243697020CEF580012412104243694C294CFFAC2950CA2
    ∷ 0xC0148FFB0FA1001854243694019C00D8441C1FD8020CEF58
    ∷ 0x000000000FA1001804FFED18A48E9C48C01010FBC09027A1
    ∷ 0x48E648E6E9002040841C36350081EBDBC09047A13400002B
    ∷ 0x240008F250000C13849C3655C0908F5942941FDBD0800028
    ∷ 0x849C3675430089A2469803A207B0848642101FDAE4000000
    ∷ 0xD3C70C6608188CA23D452CE6044100FB020C5744F3461C67
    ∷ 0x0C6E0C6EECA4183300210F5B00209F59012047A300A029F3
    ∷ 0x0FFFDD10229C0375239D0058C49C0355C39C8058641C2234
    ∷ 0x641C0235639C4058441C3634021C36370FFFDA1002243696
    ∷ 0x000060000000000000000000000000000000000000000000
    ∷ 0x000000000000000092477246020C02656B320013025C4C6E
    ∷ 0xAF286C6EC0000D934056204EEBA13002D018AA788000A359
    ∷ 0xA768AB32C0001590B000A358C0442120A7680332E8800020
    ∷ 0x40466332C0001893A7682056A29002E68000A358C0544120
    ∷ 0xD0264121E0A00023C29002E6005C41210004A35AD3001829
    ∷ 0xA76820468000A358C0000610E2000000C29002E624276C6E
    ∷ 0x004C412000004000105582A3020C0264004C6120E2400008
    ∷ 0x02102058020C02746C6E105D02942FDA029002F6020C0264
    ∷ 0x00001010E08000003FA8412002102058020C02746C6E105D
    ∷ 0x02944FDA029002F6020C0264E10000002640670A020C0274
    ∷ 0x0000200002950FDA029002F6020C02642640670AE8208000
    ∷ 0x020C027402948FDA029002F6020C026426406C6E020C0274
    ∷ 0x3F888120E2000000330015A932900225200C036200008000
    ∷ 0x0000000000000000000000000000000006A736F79577A5CF
    ∷ 0x05802C2B8677574785779746051004592777B64EEB60228B
    ∷ 0x00157A78002CBA7BC0155A782028BA7A21B0026407101FD8
    ∷ 0xC0264120220FE0582230027502001828220C023400007810
    ∷ 0x02381FDA0228045800002000018801620200002B002D4A7B
    ∷ 0x01B0026503348630048008280800E028080043E8031945F9
    ∷ 0x05100860040FE058043002750419257823200FD9002C9A7A
    ∷ 0x20289A7B031A0A243FFFF79030006C1032381FDA32280458
    ∷ 0x030C02340000000001B002640004A35800000000C283E000
    ∷ 0x2C670C6E020FE058C1903224FEA62C672CE60C6EEC802420
    ∷ 0x0C6E92C72C6E01C6000000000003400167772641C677C577
    ∷ 0xD5776687EE602800000C036206BC52E60210B07800004000
    ∷ 0x00000000000000000000000000000000027FFFA9867725F7
    ∷ 0x027FFFE92577B5C60013EA58C0000C93C3021428E1400088
    ∷ 0xD0001C11C202362AC2820E2BC1822228C20043EBC30043E8
    ∷ 0xC28043EAC18043E8018101620302142902820E2A01822229
    ∷ 0x0202362A030043E9028043EA018043E9020043EA9DE9DEE8
    ∷ 0x92460EBAC60D09C0B2CE6867C20C80F8303A4121E2C08338
    ∷ 0xC210E059C59408F0C5106DA0223052640000000002302266
    ∷ 0x023C2C6EE80020006C6E264001AC6A6400006000000C1362
    ∷ 0x01858162002BE058C0016121E0200000C2305264C2302266
    ∷ 0xC1900215C2102059052BE1A0100100130200A3581001AC12
    ∷ 0x053C52E501B41FDA063C33E5000C036205BC52E400006000
    ∷ 0x0000000000000000857736F70580002905100FD800282204
    ∷ 0x01AD8F00068C0FDA02286078E0200002018D4078D0306121
    ∷ 0xC08C6264C3108324000000000000200092820E2980001012
    ∷ 0x80015813928043E890940264634683C60C6E0C6E90404123
    ∷ 0x82980215E300000091AC205983020E28830043E8958E1008
    ∷ 0x8298AA6500AC09F825C09247E80000000000200000141362
    ∷ 0x01838162001061210028220501AC2058058E100800AC09F8
    ∷ 0x91C7C0C6018201620028220401AC2058058E100800002000
    ∷ 0x00AC09F8E02000038FDD212101AD8F0101040FD802286079
    ∷ 0x018D41E0808C6264A31083240000000001B40FDA000C0363
    ∷ 0x053C33E406BC52E600006000000000000000000000000000
    ∷ 0x029005A3053C54F50500A35900902D5A01148F7B05BC22F5
    ∷ 0x05900FD950902CA2A0D7A5690093E9A10093E9A225282941
    ∷ 0x001408F301088A7B821000D9E0200003421005A300000990
    ∷ 0x657FFFA901100C7901100C7BA0D7C0D69E58098BEC00AC00 ∷ []

pub length-lines_1509 : length lines_1509 ≡ 150
unfolding lines_1509
length-lines_1509 = refl
