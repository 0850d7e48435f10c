-- ===== src/BootLoader/ThirdBl/Lines1059.antt =====
-- inc/DSP_TBL_6678.h: the lines 1059 to 1208 of `_thirdBLCode_U0`, inside its second section.
use dspc8681_linux_driver.Base.{ℕ, ◌≡◌, refl, List, [], ◌∷◌, length}

unfoldable pub lines_1059 : List ℕ
lines_1059 =
    0x018C02644C6EFCCD023579E20299FD4310C50627840AA34A
    ∷ 0x9246FE26EEC2800001BD12E6A1EF6C6E01BD14F6EC659CE5
    ∷ 0xAC45DC45DCC592471A230627EF400000023CA2F60213EDDA
    ∷ 0x8313BCC503105FEA6C6E115D02148F7A92321145EA800000
    ∷ 0x0192934006270034BCC51A2301981FD8018C02644C6E9346
    ∷ 0x01907FF8E4E00001DCCD00340299BD42124D4C6E10C56C6E
    ∷ 0x1FFF58130213882873308992E9A20000018C0264A2BAD182
    ∷ 0x93409A320034019281C6830A027CA35801BD12E6E3D08020
    ∷ 0x008CA3620000000000000000000000000000000000000000
    ∷ 0x000000000000000007BF005ABC4DAC450280802A028104EA
    ∷ 0x01808028018104E8A2410E03E8400000BC5D304D0E836C6E
    ∷ 0x0213CF5A02102FDB30C5B1DB07BD005A008CA362E2600008
    ∷ 0x07BF005ABC4DAC450280802A028104EA0E032C6E304DA241
    ∷ 0x00006000E640000002103F5807BD005A008CA36207BF005A
    ∷ 0xBC4DAC450280802A028104EAE200000001808028018104E8
    ∷ 0xA2410E03BC5D304D0E836C6E0213AF5A02104FDBE3800200
    ∷ 0x30C5B1DB07BD005A008CA36207BF005ABC4DAC450280802A
    ∷ 0x028104EAE220000001808028018104E8A2410E03304DBC5D
    ∷ 0x0E834C6E0213AF5B30C5B1DBEB80002007BD005A008CA362
    ∷ 0x07BF005ABC4DAC450280802A028104EA01808028E1000000
    ∷ 0x018104E8A2410E03BC5D904DA2434C6EA2230E8390C5B1D1
    ∷ 0x07BD005AE7C00200008CA36207BF005ABC4DAC450280802A
    ∷ 0x028104EA01808028018104E8E0800000A2410E03904DBC5D
    ∷ 0x0E834C6EB1D1A243021482F607BD005A008CA362E1E00042
    ∷ 0x07BF005ABC4DAC450280802A028104EA01808028018104E8
    ∷ 0xA2410E03E8400000BC5D904D0E836C6E0213CF5A02102FDB
    ∷ 0x90C5B1DB07BD005A008CA362E260000807BF005AB2477246
    ∷ 0xBC55CC35023C22E601808028018104E80E032C6EE8C00008
    ∷ 0x72300C6E018CA2644C6EDC4D018C2F58BC4D003501808028
    ∷ 0x018104E8E2A000000E032C6E72300C6E018CA2644C6EDC4D
    ∷ 0x018FDF08BC4D203501808028E5600000018104E80E032C6E
    ∷ 0x72300C6E018CA2644C6EDC4D018FBF08BC4D4035EAC00000
    ∷ 0x0280802A028104EA0E032C6EB04DA2414C6EDC5D02137F0A
    ∷ 0x021462F6E380000007BD005A008CA36207BF005ADC45B247
    ∷ 0xBC4DBC5501808028018104E8E300004002008028020104E8
    ∷ 0x0C6E0E03BC4D7230018CC264018FCF5992410E03E9900080
    ∷ 0x028C3FDABC4DD05501BC42E402808028028104E80E030C6E
    ∷ 0x018C4264E44000009240BC4D4C6EC04C018C6F5992D10E03
    ∷ 0x02114BC8020D5CA202109FFAE1600081BC4DD0C54C6EDC5D
    ∷ 0x30ED0E03BC4DB230018CC26489C26C6E03182F5BE5E00880
    ∷ 0x8F030E030214907A028CDFFABC4DD055F2C7DC5D0C6EBC6D
    ∷ 0x10CD0E03EF202002D0DDE2512C6EE77B03102F5A0215EFCB
    ∷ 0x021CB0780199FCA001907FF8E06000000190C27407BD005A
    ∷ 0x008CA36202001C2B018589A80201316B01C1F3E8019002F4
    ∷ 0x019090590278F02A024AD26A020C0276008CA36207BF005A
    ∷ 0x023C42D40181A02801813168018C026502BC42860201A02A
    ∷ 0x0201316A0000200001947398019002F407BD005A008CA362
    ∷ 0x07BF005A023C42F6023C82B4003C8296201CA120E0100000
    ∷ 0x000006900181A22801813168B1C78247018C0265021402F6
    ∷ 0x0181A628E100000001813168018C02640281A62A0281316B
    ∷ 0x10C5824707BD005A008CA362E200000007BF005A023C42F6
    ∷ 0x023C82B4003C82962018A120000009900181A428E0100000
    ∷ 0x01813168B1C78247018C0265021402F60181A82801813168
    ∷ 0x018C0264E04000000281A82A0281316B10C5824707BD005A
    ∷ 0x008CA36201BCD4F60C6EF0DBE88090003252F15B1FF81313
    ∷ 0x02003228020310AA0200386A0626F49B020310AAE4208401
    ∷ 0x0200386A2626F29B020450AA020000EA0626F81B020450AA
    ∷ 0x020000EAE24081042626F61BD21B0626023C805A22279CCD
    ∷ 0x3003A1202626D21B023C805AE5708C096C6E9CCD00102A5A
    ∷ 0x3FFAA12001BCD2E6A1EF6C6E01BD54F6B61BAC45EA208000
    ∷ 0xAC4DB81BA23A0246AC4DB81BA12A02466C6EBC0D2038A120
    ∷ 0x9046BADBEBE09011AC4DC45BAC4DC81BAC4DBCDB8CB545A6
    ∷ 0xEC3525A6DC4591C7AC4DD69BEFE0B015023D005ACA1BA637
    ∷ 0xBCCDAC4D22276C6E3002A120AC4DA637DC8DCA1BEDC08808
    ∷ 0x000060002022A1202227FCCD3FFAA1202227BC4D3022A120
    ∷ 0x9246B4DBEA909000AC4DBA9BAC4DC21BAC4DB6DB8CB545A6
    ∷ 0xEC3525A6DC4591C7AC4DD09BEFE0B015023D005A01BD52E6
    ∷ 0x00006000008CA36200000000000000000000000000000000
    ∷ 0x01BC94F60200A35A023C82B601901FD801BCA2B44626431B
    ∷ 0x023C805AE4008C00411BCC45023CA05BCC456626023CA296
    ∷ 0x01BC82940E034C6E00000000E4A0800202107FF801BC92E6
    ∷ 0xA1EF6C6E01BC94F60200A35A023C82B601901FD8E0800000
    ∷ 0x01BCA2B481C63D1B023C805A3D1BCC45023CA05BCC452626
    ∷ 0x023CA296E540808C01BC82940E034C6E0000000002107FF8
    ∷ 0x01BC92E6A1EF6C6E01BCD4F6E4400000AC45DC450200A35A
    ∷ 0x023D82B6009018DA4058812000107ADA3011A120E0200000
    ∷ 0x371BD20A023D805B8CC50E2600101FDA3037A120BC4DADCA
    ∷ 0x4C6E26A7ECA0800202148CE2023DA2B6023D829602BDA296
    ∷ 0x000060000210AFFA023D82B60018A12026A7BC4D00004000
    ∷ 0x02148CE20213EDDA023DA2B6023D829602BDA296E0200000
    ∷ 0x000060000210AF7A023D82B6DC0DA40A3FDB812000802A5A
    ∷ 0x4FF0A120E11080000E26245B023D829612478CC52008A120
    ∷ 0x01BCD2E6A1EF6C6E01BC94F6E4A0800302000A2A023C82B6
    ∷ 0x10005A13023C805BCC458E26023C829602136F5AE2100000
    ∷ 0x023C82B68E26205B023C82961247CC45200AA12001BC92E6
    ∷ 0xA1EF6C6EE940800C01BC94F602000A2A023C82B610005213
    ∷ 0x023C805BCC458E26023C8296E410000002108FDA023C82B6
    ∷ 0x8E261C5B023C82966C6EDC0D200CA12001BC92E6E2808030
    ∷ 0xA1EF6C6E01BC94F602000A2A023C82B610004A13023C805B
    ∷ 0xCC458E26E8200000023C829682236C6E023C82B68E26185B
    ∷ 0x023C82961247CC452010A120E54080C001BC92E6A1EF6C6E
    ∷ 0x01BC94F602000A2A023C82B68E26211B023C805AE4408C00
    ∷ 0x023C42F4023C829682236C6E023C82B68E26145B023C8296
    ∷ 0x1247CC45EA8083002002A12001BC92E6A1EF6C6E01BC94F6
    ∷ 0x02000A2A023C82B68E261D1BE880B000023C805A023C42F4
    ∷ 0x023C8296A2236C6E023C82B68E26105B023C8296E5008C00
    ∷ 0x1247CC452004A12001BC92E6A1EF6C6E01BC94F602000A2A
    ∷ 0x023C82B6E12000008E26171B023C805A023C42F4023C8296
    ∷ 0xA2436C6E023C82B68E260C5BEA20B003023C82961247CC45
    ∷ 0x2006A12001BC92E6A1EF6C6E01BC94F605A6AC45EA400000
    ∷ 0x01BD02B410002613023D005BEC456E26023D02964C6E0693
    ∷ 0x0210AF7AE5000000023D02B6003D02962009A120000A8120
    ∷ 0x0626262601BC92E6008CA362E210000001BC94F60200A35A
    ∷ 0x023C82B610001E13023C805BCC452E26023C8296E4100000
    ∷ 0x02102F5A023C82B6003C8296200BA120000C812006262626
    ∷ 0x01BC92E6E4100000008CA36201BC94F6023CA2B6023C82B4
    ∷ 0x023CA296023CC2D6023CC286E01000000213180A023CC2D6
    ∷ 0x023C82964C6EFAB3001489FA3012A12000448120E1000000
    ∷ 0x0218A358023C202A0200BEEA1FFE2A130204A358023C8296
    ∷ 0x0E036C6EE8000000023C62D602BCA296023C628600006000
    ∷ 0x0210AFFA023C62D6033D90590204A35A023CD0591FFEB913
    ∷ 0xCC45C24700101FDA3010A1201FFE56122626850AE8808000
    ∷ 0x1FFE52120200A35801BC92E6A1EF6C6E01BCD4F6023C42F6
    ∷ 0x023C82B4E1000000023C82964C6EFAB3001489FA300AA120
    ∷ 0xC6268E8A023C202A0200BEEAE24080001FFE16130204A358
    ∷ 0x023C82960E03E223023CC2D6A73626271FFE9713E5100400
    ∷ 0x023D90598CC5C24702BC42E6023D428612C56C6E6C6E9C8D
    ∷ 0x3016A120E64000001FFE4212000A81200204A3581FFE4212
    ∷ 0x0200A35801BCD2E6A1EF6C6EE8000000967725F786779577
    ∷ 0x6646257702AC02640C6E2426C283E00000230001E2E00010
    ∷ 0x07FEF052BC45AC6702140FD8C19036242EE60C6E062016A3
    ∷ 0xAEE7FC27EA40220C474FA5C78057474601C60C6E0C6E2C6E
    ∷ 0x26411C66024F06A705800043E7E00D07068012A80610B079
    ∷ 0xDC558A67300079912FFFFFAA21AC0265223C82F6E0800030
    ∷ 0x2280A35A223C62F62FBCA2F622BF02B6000C022400B40A78
    ∷ 0x8032A120E0100000D0118121C22C0264C210205800280363
    ∷ 0x022C0274020C02240188416202281FDA023C42E601AC0264
    ∷ 0x26414C6E023C42F6000C02240000600000B40A78E0800000
    ∷ 0x9FF0A120D0006991C1AC0264C004F010D5BC42E600002000
    ∷ 0xC18C2058023D9059022C1FDB0183016301AC0274023D9058
    ∷ 0x1001C013022C1FDB033C9058022C02668BD32AD3126D2C6E
    ∷ 0xC6E96C6E404FCAF320001A11C7E92057631022A7E5E104A0
    ∷ 0x4000A35B63801A2A207461203380342A2047C7E920000E91
    ∷ 0x3380362BE2000200C7E9405741AC02646004A35A30734120
    ∷ 0x2190305931AC026421AC0274E0200002220C02264C6EEC4D
    ∷ 0x001C8A7A21AC02650290C689320C1FDA00604123E0400000
    ∷ 0x0F91088932BC62F42FBC62F4220C305A222C0276FC6D25B0
    ∷ 0x01AC0274E4000400020C0224000020000219298A97E8A323
    ∷ 0xC1AC0265C23C62F7D20C1FDAE100000000306121D33C62F6
    ∷ 0xC20C305AC22C02762047C7E9231042A730000D10E2000200
    ∷ 0x51AC02642380182AC7E92C6E222C0264480AEC3D2210705A
    ∷ 0x222C0277E2808000018D4A8821BC62F401BC62E4022C0264
    ∷ 0xE1A24C6EEC353641022C0276E600040001AC02642C6E2C6E
    ∷ 0x018C205801AC02746C6E124D72F386E9023F02B6E6410C00
    ∷ 0x2057404F20001091FC4D86E94000A35B6283B02A20306120
    ∷ 0x30004010E0A0002320036810033C905801852162120008FD
    ∷ 0x023D805A003003620189616202281FDB0E36C246023C42E7
    ∷ 0x01AC026400B4612000306BF9DC459241CFFFBE10E4200801
    ∷ 0x033C9058023D905801862162033D005B04281FD9022816A2
    ∷ 0x0051812101AC026400306BF80310AF7B018080290380802B ∷ []

pub length-lines_1059 : length lines_1059 ≡ 150
unfolding lines_1059
length-lines_1059 = refl
