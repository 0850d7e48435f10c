-- ===== src/BootLoader/ThirdBl/Lines309.antt =====
-- inc/DSP_TBL_6678.h: the lines 309 to 458 of `_thirdBLCode_U0`, inside its second section.
use dspc8681_linux_driver.Base.{ℕ, ◌≡◌, refl, List, [], ◌∷◌, length}

unfoldable pub lines_309 : List ℕ
lines_309 =
    0x0000600001BF52E6A1EF6C6EE8000000020403E292460C6E
    ∷ 0x008CA362022803E292460C6E008CA362024403E2E2400000
    ∷ 0x92460C6E008CA3620180102801813168018C0264018C2F58
    ∷ 0xA4BA21A6E8308000262680CAA1EF062607BF005AAC45DC45
    ∷ 0x0200882A0201316A6246104DE960800000004000020C0276
    ∷ 0x01808A2801813168018C02650035DC4D07BD005AE4100000
    ∷ 0x008CA36201BD94F6000000001FFEAA93023D1058023C42D4
    ∷ 0x023C42C6E010000000102A5A200AA1200204A35A0200007E
    ∷ 0xFE26868A2641FC4DDD452643EE1080008373A2470294C803
    ∷ 0x92C6FCCD10105413CD45264101BD92E6008CA362E2B00021
    ∷ 0xDC458CF79247AC45DC4DFC454C6EB247001099FA301AA120
    ∷ 0x10C582C7E9E000006C6EFC4DFC458641FC5DDC4DAE496C6E
    ∷ 0x2FFCA1206C6EBC4DFC5DFC45EDE00000AE49DC4D301CA120
    ∷ 0x104D82C782C79CC5A6699CDD2013A1200200007EE3B00080
    ∷ 0x005881208641FE26DC4DFC456C6EFC5D0010ABFA2FF4A120
    ∷ 0x6C6EBC4DE9C00000FC5DFC456C6EDC4D0010ABFA301AA120
    ∷ 0x0C6E82C70193FDD8FC4D00B5EA60000086416C6EDC4DFC45
    ∷ 0x6C6EFC5D0010ABFA2FF8A1206C6EBC4DFC5DFC45ECE00000
    ∷ 0x6C6EDC4D0010ABFA3026A120104D82C79CC56C6E9CDD82C7
    ∷ 0x0213EDDAE7200400A6694C6E200AA1206C6EFC4D0200007E
    ∷ 0xFE26860A6C6EFC4DFC458641EEA08000FC5DDC4DAE496C6E
    ∷ 0x2FE6A1200200A35807800852008CA36207BF005AE0600000
    ∷ 0x023C22F4022803E2BC4DDC45051003A2CC4D0C6E07BD005A
    ∷ 0x008CA362E290000007BF005A023C82B402BC82A601801828
    ∷ 0x023C82A60C6E3B33852A7EA8EC008000001888FA3024A120
    ∷ 0x02BC82A6018030A8023C82A60C6E5B73852A7EA8EC008000
    ∷ 0x001888FA3014A12002BC82A6018020A8023C82A60C6E5B53
    ∷ 0x85EA7EA8EC008000001888FA2007A1200008812006262626
    ∷ 0x07BD005A008CA36201BC94F6E10000009247AC4512550293
    ∷ 0x1001421382C712521247CC453041A12001FFAA28E3600042
    ∷ 0x01804368018C02640F80402AAC6D8047084D131310019B13
    ∷ 0x027C72FAE3000200A86A0246FC450627001149DA301AA120
    ∷ 0xFC4DBC5DF41B6C6E024686CDEE618800D00AA1206C6EFC4D
    ∷ 0xFC452641001149DA2FF8A120BC5DFC4D4C6E0727ECC00000
    ∷ 0xDC4D96E5084D6C6E1001629201BC92E6A1EF6C6E01BCD4F6
    ∷ 0xCE1BAC45EA608008023C42F40210002A0200C0EABC0DFC45
    ∷ 0x2012A1200208A35A0200007EE110000000F0A120100FE413
    ∷ 0x9712062702001FD801FF58280180436891C7AC4DE8802030
    ∷ 0x1010B813AC3D13124C6E0E26020C8274BC5DDC4D1E434C6E
    ∷ 0x021742D6E6C00000BC5DDC4D000040000211180A021762D6
    ∷ 0x01BC22E40200F22A020043EAE02000000C6E03321010B013
    ∷ 0x020E8940023C62E60FBC22E6105D4C6E16C36C6EEC200000
    ∷ 0x02FF82D6BC4DEC3D00004000018C0264000060000193A2D4
    ∷ 0x01BC22E4E04000000200F82A020043EA0C6E03321010A813
    ∷ 0x020E3D402226C29BBC4DA5BAEC80800026A70353D6552C6E
    ∷ 0x000BA1200353BC4D2C6E06A7AC3DD6554C6E4627EF600000
    ∷ 0x020FE2761FFF88926C6EAC3D020FC274023C22E601FF6028
    ∷ 0x01804368E0800000000020000213C2E6020C027610090812
    ∷ 0x01BC22E401803A50020C0254E01000006C6EBC4D02003A52
    ∷ 0x02900286027F622A0200436A10552C6E6C6EAC3DEC200000
    ∷ 0x020F3D41BC4DDF9B4C6E062602121EC3BC4D545B2626C693
    ∷ 0x545B2C6EEEC0A0000627A241023C82F6001049DA3040A120
    ∷ 0x002DA120BC5D9CCD0F90A35AE42000000000400002949C42
    ∷ 0x028046520F9402F60027A120BC5D9CCD0F80A35AE4000000
    ∷ 0x0000400002149C42020046520F9002F6C627A5CA0200007E
    ∷ 0x0247A5CAEA0080003FDAA12000002A5A2FEAA1209CCDBE4A
    ∷ 0x9CC52641001049DA2FFDA120E310800001BCD2E6A1EF6C6E
    ∷ 0x07BF005ABC4506270280082A0285E06A6C6E10CDE9400000
    ∷ 0x0210210A92C610C5D9A2003C62460034018C026491C7AC35
    ∷ 0x2227DE43EDD000003005A120000681200626262607BD005A
    ∷ 0x008CA36207BF005AAC3505A6E880000002B2042A0280C26B
    ∷ 0x10C5262701979058018C026406A7AC359AA391C7EC901000
    ∷ 0x86E99E033007A120000881200626262607BD005A008CA362
    ∷ 0x07BF005AE1200000AC3505A602B0042A0280C26B10C52627
    ∷ 0x01979058018C026406A7AC35E93000009AA391C786E99E03
    ∷ 0x3009A120000A81200626262607BD005A008CA362E2600001
    ∷ 0x023018280200C2686C6E003C018C048826260034008CA362
    ∷ 0x07FFC052E2800000018020FEAC45DC450200CE2A020043EA
    ∷ 0x105D187D2C6EB5B6038C2376E6440000028C03760180D628
    ∷ 0x018043E8040C8264038C0324028C23240C6E3E37E8000000
    ∷ 0x041082F408550075DC0DBC1D00004000500CA1202015A120
    ∷ 0x0208A35AE0C400000200007E014A8120B59BFE2606270626
    ∷ 0x023FC2F6001148DA310AA120E18080200200A35A0200007E
    ∷ 0x120DBC4D3083A12002BC5EC203320627100F7813E4900800
    ∷ 0x25A692C6DC4D8CB5001002E6300AA120003D02CAEDB09192
    ∷ 0x0627ACB5EE70800045A6BD4585A6CCB5F9B2ECB526278D35
    ∷ 0x023D42F6023C5EC292460C6EE9E020001FFD8B12023CC2D4
    ∷ 0x023CC2C622276C6E2014A120020CA35A0200007EE1000000
    ∷ 0x00FA8120027CA358023CDEC292460C6E1FFDD292023CC2D4
    ∷ 0x023CC2C6E110008000102A5A2006A120020CA35A0200007E
    ∷ 0x00758120027CA3581FFDEC12023CC2D4023CC2C622276C6E
    ∷ 0x2010A120020CA35A0200007E00DA8120027CA358E0400000
    ∷ 0x1FFE3612023CC2D4023CC2C622276C6E2013A120020CA35A
    ∷ 0x0200007EE100000000BA8120BC4DFE26001022963063A120
    ∷ 0x0200322810018193023C9078E05000001FFE5C1202BF22E6
    ∷ 0x0209FF2A027D676AA6692C6E302AA1206C6EDF4DEA000000
    ∷ 0xFF4DDEC5FEC56C6E6C6E9FCDBFCD9F45BEC56C6E0208A35A
    ∷ 0x020050BEE3E000000200509C1FFE5E93120015FE023CC2D4
    ∷ 0x0024A1206C6EDFCD001048DAE40000003006A1200627628A
    ∷ 0x020050BE0204A35A020050BE120015FE1FFE5A93E0408000
    ∷ 0x0200509C023CC2D4023CC2C622276C6E2013A1200204A35A
    ∷ 0x0200007EE1000000005A8120BC4DFE2600102296301AA120
    ∷ 0x062606270240016A02400069E25002000246841BDFCDA2BA
    ∷ 0xDFC52641001148DA2F10A120023FC2E60200017EE0F08000
    ∷ 0x6C6EDFCD00114A5A300CA1200204A35A0200007EFE268E8A
    ∷ 0x01FF6028E420800001804368000C0264A42A6C6E1FFEF492
    ∷ 0x01FF602801804368020C0274E08080001FFDF692920DBC4D
    ∷ 0x300AA120D21BC95BC49BCD9B720DBC4D3019A120E7508000
    ∷ 0x10084692100856930200A3581008569306262626018020EE
    ∷ 0x07804052E2100000008CA36201BC54F61FFEDB12A1EF71F7
    ∷ 0x01BCD4F6AC45DC45924E6246ED101000BC4D0034037FD82A
    ∷ 0x0300436A0C6EDC5D6C6E954D863630C51FFEDD13E7200800
    ∷ 0x023D805ADC4DEC3D00004000018E1808CC3D0A356C6EFC4D
    ∷ 0x020D2236E6400000DC5D9CCD00004000019319A09CCD4AB5
    ∷ 0x4C6EDC5D0211180A9CCD7AC5EB2000004C6EDC5D0212180A
    ∷ 0x9CCD9AC56C6ECC3D020DA2360200A35801BCD2E6E1A00000
    ∷ 0xA1EF6C6E01BCD4F6AC45DC450041A1201FFECD13023D805B
    ∷ 0xEC3D8636E8A000004C6EDC4D018E1808CC3D02356C6EFC4D
    ∷ 0x020C2236DC5D9CCD00004000E5A00000019319A08CBD42B5
    ∷ 0x4C6EDC4D018D18089CCD62354C6EDC5D0212180AE6C00000
    ∷ 0x9CCD92C56C6ECC3D020CA2360626858A100F08130627CC4D
    ∷ 0x858AC726ED608C001247DE263FC8A1200FF8A12001BCD2E6
    ∷ 0xA1EF6C6E01BC94F6AC45DC45EA2000001247FC452006A120
    ∷ 0xBE268A8A100AB192A92A22266C6EFC0D30156120E6A08000
    ∷ 0xFC45EC4126260F9B0253A40A0200007E100A9C120245BC4D
    ∷ 0xFE26868AECF08004100AA992BABA2226100A98126C6EBC4D
    ∷ 0x0626024501BC92E6A1EF6C6EEB40800001BC54F6023C82B4
    ∷ 0x100A9993023C829471F70626A1EF6C6E01BC94F6E6000000
    ∷ 0x9247AC450210D52902108CA2100F0C130204F7E8023C82D4
    ∷ 0x100A7313E0200000023C82840200A35801BC92E6A1EF6C6E
    ∷ 0x01BC54F6100A441202610028E1000000020000E90626FB9B
    ∷ 0xA1EF71F701BC94F6DC45EC65A70AAC450C6E0C6EEED09800
    ∷ 0x10083B13A5CAAC4DDE26860A0208A35A0200007EDE26860A
    ∷ 0x00181FDAE4C080003FF0812000983A5A4FF4A1200626BD8A
    ∷ 0x01BC92E6A1EF6C6E01BC94F6E5008000023C22F401FF6028
    ∷ 0x01804368018C02644C6E9247020C9802DC454C6EEA000000
    ∷ 0x1FFE8992023C62F41FFE8992DC4DFC5D9AB04C6EA5BA7E08
    ∷ 0x1FFE8992E7008000DC4DFC5D9AB04C6EBF2A7E080200A358
    ∷ 0x01BC92E6A1EF6C6E01BC94F6E4E08000023C22F41FFE8192
    ∷ 0x023C42F41FFE8192BC4DDC5D9AB04C6EA63A7E48EE008000
    ∷ 0x1FFE7D92BC4DDC5D9AB04C6EA02A7E4801BC92E6A1EF6C6E
    ∷ 0x01BC94F6E5C08000AC45DC4500901FDA4013812000100FDA
    ∷ 0x2013A1200200A35A0240006AE0200000DE27BC45BC5DDC45
    ∷ 0x0300A35A0340006A0FFCA35A00FC89FA0018ABFAE0600000
    ∷ 0x2008A12040088121AE49BC5D2010A1200208A35A0200007E
    ∷ 0xBE26850AE88080001FFE881302141FD801BC92E6A1EF6C6E
    ∷ 0x01BCD4F6AC45DC4502901B2AE50000000010BA7A303C8120
    ∷ 0x02101FDA10043492A37A024600B68120DC4D0626EA008000
    ∷ 0x02FF7C2A0280436A10C52C6E0276502B72B009920200436A
    ∷ 0x020C0276E280020001801628018CB2F881C6EC3510040C12
    ∷ 0xA4FA0246020008AA0200007EE280802000868120BC4D0626
    ∷ 0x6C6EFC5D021502F600868120023C62E402DD8C2AE0C00000
    ∷ 0x0280006A00148A7A3036A120100D3D9212478CC53011A120
    ∷ 0x00768120E2000000DC4D062602FF982A0280436A10C52C6E
    ∷ 0x01801628018CB2F881C6EC35E9202000100D2412A2FA0246
    ∷ 0x020008AA0200007E00568120BC4D06266C6EFC5DEC408000
    ∷ 0x021502F600468120023C62E486E912D33023A120023C42E6
    ∷ 0x02FFB42AE10000000280436A10C52C6E100F801201FF9E28
    ∷ 0x01804368BC5DEC354C6E91C7EC400000898A185532D3EC4D
    ∷ 0x00148A7A3021A120023C42E602FFD02A0280436AE0608000 ∷ []

pub length-lines_309 : length lines_309 ≡ 150
unfolding lines_309
length-lines_309 = refl
