-- ===== src/BootLoader/App4Core0/Lines3388.antt =====
-- inc/app4Core0_6678.h: lines of `_app4Core0` from line 3388 to line 3867, six to a number.
use dspc8681_linux_driver.Base.{ℕ, ◌≡◌, refl, List, [], ◌∷◌, length}

unfoldable pub core0_lines_3388 : List ℕ
core0_lines_3388 =
    0x00002D44810153E0695F41006974696E7A696C6161506465736D61726E75203A74696E69696C61692064657A617261507320736D6375727465480074694D706172635F6E657461656E61632020746F6E657661687A206120206F7265657A69736C6176204800657553706165635F64747461657261632065746F6E6E76616820206120656F72657A7A69732061762065
    ∷ 0x0065756C706165485F6474536F6C6C616C6120636D6E676920746E657473756D206562206F702061207265773220666F6165480064745370736E6920636E61746F742065466C61745365657220657A69672073697461657274207265206E616872617473676E69747A69732065480065745370616C615F6420636F6C6572202D736575712064657467696C616E656D6E
    ∷ 0x736920746572672072657461616874206C61206E65776F6C5F41006461766E694C64696C6567676F54203A726C2065686567676F6469207220642520692073696C61766E002E646961635F41746F6E6E49746946416F746E203A6772657A69734628666F74616F6C203E2029657A69734128666F002967726C635F41446B636F626173693A64656C6E61432020746F6E
    ∷ 0x61657263612065746F6C632069206B636174736E2065636E6E6568774F4942206C632E53456B636F6C62616E69206465616620732E65736C625F41006854646164616572657079546143203A746F6E6E657263202F657461656C6564612065746F6C432066206B63206D6F72206977485320726F742069776165726841002E646C756E5F6576456C614D746E3A736B73
    ∷ 0x4D726F20206B736120646E614D646E61206B7361206572616C6C756E5F41002E6C6C756E6E6576453A644974736F7020206465746E657665206449746E2073692E6C6C75655F4100746E657673556E4945203A65746E65766A626F202074636565726C612079646175206E69002E657361625F416E6F4364747865746162203A616320646E696C6C6F6320677865746E
    ∷ 0x4D202E742074737563206562656C6C617266206461206D6F7361542041002E6B6E65705F736154647369446B656C626143203A646F6E6E616163207445206C6C746E65766E65705F202928646C69687768742065615420656F206B737753207263732069756465682072656C64207369626173692E64656C69614D00786F626C6572635F27657461756220737A695366
    ∷ 0x61702065656D617220726574692073696C61766E28206469206F6F746C616D734100296C456F6E5F746E657654203A7345206568746E65767075732E74726F70657645732073746E67616C66207369206173696464656C625F41002E54766E696F656D69203A7475276E61437375207449422065455F534F544E45565143415F45524955697720447420687420736968
    ∷ 0x616D6553726F687041002E6565766F5F6F6C667243203A77746E756F736168206378652065646565353620642035333520646E616C6C6F726F2064652E726576705F410054646E65446B7361626173693A64656C6E61432020746F6E6C6C61636D6553206F687061705F657228646E656877202920656C69206568746B73615420726F202069775365686373656C7564
    ∷ 0x7369207273696420656C626141002E646977735F6173694464656C626143203A746F6E6E6572632020657461775320616877206953206E6569206977696420736C626173002E646561625F41697250647469726F41203A796E69206E696C6176775320647270206969726F6977207974752073612E646573625F41006854646164616572657079546143203A746F6E6E
    ∷ 0x657263202F657461656C656461206574736174207266206B48206D6F6F2069777753207268742069646165725F41002E54646162536B7361657461746143203A2074276E656C656461206574736174206E69206B4E555220474E494E61747320002E65746F6E5F41646E65506D656C456F4E203A6E6520746867756F666E69206F74206F6C65642020657465434F4C42
    ∷ 0x2044454B6B7361745F41002E6B7361746173694464656C626143203A746F6E6E65726320206574616174206177206B73206E65686B73617420676E6964207369626173692E64656C625F41007250646169726F69203A797469206E416C61766E74206469206B73616F69727079746972736177206573752041002E646461625F656D69543A74756F6E61432073207427
    ∷ 0x7065656C524F4620524556455F41002E416461626E6966663A797469766E492064696C616666612074696E6941002E79656C735F6154706569446B736C626173203A64656E6E61436320746F206C6C616B736154656C735F29287065696877207420656C54206568206B736165686373656C75647369207273696420656C626162002E64702066756D61726172657465
    ∷ 0x6E61632020746F6E6E206562006C6C752066756220746F6E706F7270796C7265696C612064656E67696C610070206E676D6172617265746573756D20656220746F2030202061207265776F70666F20723E2032206874203D617620652065756C4D20666F726F6D6565675F7978614D746166654454746C75416570796E67696C610029286E67696C7261702074656D61
    ∷ 0x31207265756D202962207473203020656120726F776F70206F2072652032206620646E616E2029326720746F7461657274207265206E616820656874706165686C6120736D6E676900746E65636F6C627A69536B61632065746F6E6E206562206F72657A6D756E00636F6C426320736B6F6E6E616562207472657A207562006F7A69536661632065746F6E6E20656220
    ∷ 0x6F72657A61654800667542706572635F27657461756220737A69536661702065656D617220726574692073696C61766E28206469206F6F746C616D734300296C6F6E6E616163207448206C6C42706165665F6675206565726E656877206F6E20636F6C626820736B206576616E6565626C6C61207461636F41006465766E695F64696C61656572466E49203A696C6176
    ∷ 0x726620644100656572657A5F6F6C426F203A6B636E6E61436120746F636F6C6C20657461657A6973410030206165685F7A69537052203A65657571656465747361656820697320706920657A6F7420736D73206F006C6C616C615F413A6E67697165522074736575612064656E67696C2073692020746F6E6F702061207265773220666F766E490064696C616F6C6220
    ∷ 0x61206B63657264646F2073736874206E72662065202E65656C696146742064657266206F622065656B636F6C636162206F74206B6165682041002E70756F645F46656C623A656572667542202072656665726C612079646165657266625F4100764F66756C667265203A776F666675426F2072656672657600776F6C6F6E5F41706D4574203A797470616548746F6E20
    ∷ 0x706D6520410079746C756E5F6A624F6C3A7463656165482061725470705F6B63746E6972706165486C6163202064656C687469776C756E20626F206C5F41006A6F72657A656D69543A74756F6D69542074756F656C61762061206575746F6E6E206562206F72657A695F41006C61766E654B646974203A796B2065686D2079652074737573206562742074652061206F
    ∷ 0x2D6E6F6E6166656420746C75756C61765F4100654364616265746E6F203A7478206461626C6C616320676E69746E6F632E74786579614D20746F6E202065622065746E65206465726D6F726668206120776472612065726165746E697075727268742074646165725F41002E4364616265746E6F203A7478206461626C6C616320676E69746E6F632E74786579614D20
    ∷ 0x746F6E202065622065746E65206465726D6F7266732061207774666F206572616820726F776472612065726165746E697075727268742074646165725F41002E4364616265746E6F203A7478206461626C6C616320676E69746E6F632E747865656553207461472074754D6572507865504120696F6420496F662063656420726C69617441002E73746E655F61547265
    ∷ 0x69446B736C626173203A64656E6E61436320746F206C6C61657461476574754D69725078746E655F29287265696877207420656C54206568206B73615320726F732069776465686372656C75207369206173696464656C625F41002E4364616265746E6F203A7478206461626C6C616320676E69746E6F632E747865656553207461472074754D654120786564204950
    ∷ 0x6620636F6420726F69617465002E736C6F6E5F416176417462616C69203A656C7461747363206369746165727420646572656D69746F6E206176612062616C696100656C726573736E6F6974696166206572756C732573255324250074756F0020666F206F6D656D203A7972706165682578303D73202C783D657A692500752578302073450078256461625F6576654C
    ∷ 0x42203A6C6620646165746C69656C2072206C6576756C617625203A657266006429286565766E692064696C61206E6920776F72676F2D687420796C6E70616548006E694D20656854205354527061656820736920646573752E70752061784520656E696D6F7250206D6172676165682E45002E706461625F6D6D6F433A646E6163655220657669656E692064696C6176
    ∷ 0x6F6320646E616D6D69202C6425203A6445002E64706E755F6767756C764564653A746E65657645202023746E692064256E75207367756C700064656778655F45747065634D6E6F69203A6E693D206370257830202C783830207073207830203D783830256F540A2E65657320726F6D207865206574706563206E6F6961746564202C6C692065737520564F527320726F
    ∷ 0x27207465732E697469627379662E736F6C696D6136632E79452E7034706563786E6F6974616E652E50656C62746E697274203D203B6575725F450027656378656F69747078614D6E6370203A30203D203830257873202C78203D207030257830002E78386C615F45646165726665447964656E697748203A6C6120696461657265642079656E696669203A642372746E
    ∷ []

pub length-core0_lines_3388 : length core0_lines_3388 ≡ 25
unfolding core0_lines_3388
length-core0_lines_3388 = refl

unfoldable pub core0_lines_3538 : List ℕ
core0_lines_3538 =
    0x0064252061685F45656C646E46746F4E646E756F7748203A61682069656C646E746F6E20756F6620203A646E78257830735F45006B6361747265764F776F6C665349203A74732052206B63617265766F776F6C665F45002E6361747365764F6B6F6C667254203A77206B736178257830617473206F206B63667265762E776F6C735F450074754F706F42664F73646E75
    ∷ 0x6154203A30206B7320782578636174737265206B2C726F72205053207830203D002E782565645F456574656C41746F4E776F6C6C203A64656B7361542578302072002E7865757165646574737A697320736920656F6F7420676962206168203A656C646E2578303D73202C783D657A696F0075256F207475656D206679726F6D6168203A656C646E2578303D73202C78
    ∷ 0x3D657A6945007525706E755F6767756C79536465746E49737953203A6D657473746E49207572726520237470692064256E75207367756C700064656772705F4569726F69203A79746572685470206461726F697220797469692073696C61766E252064695F45006461766E695464696C72656D696E49203A696C6176695420642072656D252064495F45006441746F6E
    ∷ 0x6C696176656C62616954203A2072656D20746F6E696176616C62616C64252065635F45006F6E6E617075537474726F706954203A2072656D6E6E61637320746F6F7070757220747265757165646574737265702020646F693C00642563202D2D74736E6F746375727025203A732527283C00292763202D2D7461657225203A652527287000292773203E2D2D74736564
    ∷ 0x746375722528203A2D00297064203E2D74656C6528203A65002970254F52524525203A5224254624415700534E494E5225203A4724254624242500535324254661745300203A747200532425706F74532425203A74530053497472616174736E3A65636E532425206F745300736E4970636E617425203A654C00532465625F4D3A6E6967697768207830203A202C7825
    ∷ 0x636E75667830203A202C7825546572706165726825203A6469202C64754E746E25203A6D69202C64203A7072782578305F444C003A646E65697768207830203A4C00782565645F576579616C64203A6479616C656425203A5F4D4C006B6369746974203A203A6B634C00642565625F4D3A6E69676B6C63207830203A202C7825636E75667830203A4C0078256F705F4D
    ∷ 0x203A74733A6D65732578302063202C78746E756F6425203A5F4D4C00646E65706573203A30203A6D2C782578756F6320203A746E202C6425656D69743A74756F00642520625F4D4C6E6967657773203A30203A692C7825786E75662030203A632C7825786572702065726854203A64614C0064256E655F4473203A64203A6977782578305F4D4C0074736F707773203A
    ∷ 0x30203A692C7825786E75662030203A632C782578697270206425203A5F4D4C0074697773203A686374646C6F203A6B73782578306C6F202C6E75666430203A632C78257877656E203A6B7374257830206E202C7875667765203A636E782578305F4D4C0065656C7374203A70203A6B73782578307566202C203A636E782578306974202C756F656D25203A74444C0064
    ∷ 0x6165725F203A79643A6B73742578302066202C783A636E752578302070202C78203A69724C0064256C625F443A6B636F6B7374207830203A202C7825636E75667830203A4C00782569795F4D3A646C656B7374207830203A202C7825636E75667830203A202C78257272756365726854203A64614C00642565735F4D697250747374203A30203A6B2C7825786E756620
    ∷ 0x30203A632C782578646C6F203A6972502C64252077656E20206972504C00642578655F44203A74693A6B73742578302066202C783A636E75257830204D4C00787465735F696666417974696E7374203A30203A6B2C7825786E75662030203A632C782578646C6F2065726F436425203A6C6F202C6666416474696E6964252079656E202C6666417774696E6964252079
    ∷ 0x5F444C0065686373656C75646F63203A644965726425203A6F77202C6C466B72203A6761202C6425537275636F4C74653A6C61632C64252072756320587465536425203A7563202C73614D72636F4C6B203A6C614C0064256F6E5F446B726F576F63203A644965726425203A7563202C7465537261636F4C25203A6C63202C6465537275203A5874202C64254D727563
    ∷ 0x4C6B73616C61636F6425203A636478007572002E6D69746E41002E65726573736F43007444006572756166650073746C676169447245007300726F7265746147676F4C00676F4C00427265674D006675006E69616F6D654D52007972736967650079727472617453007075747473795353006D6574537379655400647400747873002E6969627379002E736F696D6166
    ∷ 0x002E796C703436637645002E43746E6569626D6F0072656E656378456F6974707748006E695400697473656D50706D6169766F7200726564534F49426C6168006954002E0072656D2E6C6E6B6F6C430049006B6300656C6472746E4969736E6951007363657565756D6553006F6870615300657254006977006B73617061656848002E7342706165480066754D706165
    ∷ 0x63006D65002E6C737474655373676E69767264006170002E3663002E74002E3636366963002E78786E497043430063746568636174616700002E73656574614700697748657461476574754D3663007854002E32536B73616F707075490074726972746E6369736E7075537374726F706D6974002E7372656D697400343672656374002E3834366954002E3872656D69
    ∷ 0x707075530074726F65725F67655364616870616D0065726F72775F675365746970616D6565726F6865526700655376636870616D0065726F6E6553676D6553646F68706168006572747074746D70646F616D6553726F687063700065696E694665526873655364616870616D0065726F732E6974696273796B2E736F542E6C6E2E6B7361656C64496B73615465727000
    ∷ 0x203D20760A646C25756F63003D20746E646C25206F74000A206C61746C25203D6D000A643D207861646C25206564000A65636976626174206620656C2C6C6C757A697320203D20656D0064256E69426476654464696166200064656C706165486361725448203A6B547061656B6361726A624F5F7830203A202C78257264646130203D202C782578736174206E61486B
    ∷ 0x3A656C642578302073202C7820657A696425203D6548000A725470613A6B636161654820617254704F5F6B63203A6A62782578306461202C3D2072642578302074202C78486B73616C646E6130203A652C782578736174206D614E6B25203A6573202C7320657A696425203D654D000A79726F6D207461207825783073616820632061207572726F6465747072637320
    ∷ 0x6C6262693028206529782578654C000A79636167494D4E206378452069747065000A6E6F65746E496C616E726378652069747065203A6E6F525245492578303D49000A787274736E6974637566206E6F686374656378652069747065000A6E6F637465466170206874656B636378652069747065000A6E6F63657845206574756B63617065207465706563786E6F6974
    ∷ 0x704F000A65646F636378652069747065000A6E6F6F736552656372756E6F632063696C6678652074747065630A6E6F69736552006372756F63612065737365636378652069747065000A6E6F7669725067656C6978652065747065630A6E6F696F6F4C0075622070726566666378652069747065000A6E6F7373694D732064656C6C61746378652069747065000A6E6F
    ∷ 0x75636553797469726F6976206974616C202C6E6F6C756146444920742578303D55000A782072657363657845206574756C6F69766F69746146202C6E746C75613D444920782578307355000A57207265657469726F6976206974616C202C6E6F6C756146444920742578303D55000A7820726573646165526F6976206974616C202C6E6F6C756146444920742578303D
    ∷ 0x53000A78726570756F736976784520727563656376206574616C6F696E6F69746146202C20746C75303D44490A782578707553006976726520726F73746972576976206574616C6F2C6E6F69756146204920746C78303D44000A782565707553736976725220726F206461656C6F69766F69746146202C6E746C75613D444920782578304D50000A7845204374706563
    ∷ 0x206E6F694146504D78303D524D207825525346502578303D44000A784520434D706563786E6F697446504D20303D5241207825785346504D78303D52000A782520434D55656378456F697470504D206E3D5241467825783046504D20303D52530A7825783D304100782578303D314120782578303241000A2578303D334120782578303D41000A7878303D3441207825
    ∷ 0x78303D35000A7825303D364120782578303D37410A7825783D384100782578303D394120782578303141000A78303D3041207825303D31310A782578323141002578303D3141207878303D33000A78253D34314178257830353141202578303D41000A78303D3631207825783D373141782578303141000A78303D3841207825303D39310A782578303241002578303D
    ∷ 0x3241207878303D31000A78253D32324178257830333241202578303D41000A78303D3432207825783D353241782578303241000A78303D3641207825303D37320A782578383241002578303D3241207878303D39000A78253D30334178257830313341202578303D42000A7878303D304220782578303D31000A7825303D324220782578303D33420A7825783D344200
    ∷ 0x782578303D354220782578303642000A2578303D374220782578303D42000A7878303D384220782578303D39000A78253D30314278257830313142202578303D42000A78303D3231207825783D333142782578303142000A78303D3442207825303D35310A782578363142002578303D3142207878303D37000A78253D38314278257830393142202578303D42000A78
    ∷ []

pub length-core0_lines_3538 : length core0_lines_3538 ≡ 25
unfolding core0_lines_3538
length-core0_lines_3538 = refl

unfoldable pub core0_lines_3688 : List ℕ
core0_lines_3688 =
    0x303D3032207825783D313242782578303242000A78303D3242207825303D33320A782578343242002578303D3242207878303D35000A78253D36324278257830373242202578303D42000A78303D3832207825783D393242782578303342000A78303D3042207825303D31330A78257853544E0078303D52000A7825525354492578303D49000A78303D50520A782578
    ∷ 0x525353002578303D41000A78303D524D0A7825784C49520078303D43000A78253D434C49782578307845000A74706563206E6F69302074610A782578524645002578303D524E207878303D50000A78250000000100000000000000000000000000000000000000000000000000000000000000000000000000000000000000000000000D0000000D0000000D0000000D
    ∷ 0x0000000D0000000D0000000D0000000D0000000D0000000D0000000D0000000D0000000D0000000D0000000D0000000D0000000D0000000D0000000D0000000C0000000C0000000C0000000C0000000C0000000C0000000C0000000C0000000C0000000C0000000C0000000C0000000C0000000C0000000C0000000C0000000C0000000C0000000C0000000C0000000C
    ∷ 0x0000000C0000000C0000000C0000000C0000000C0000000C0000000C0000000C0000000C0000000C0000000C0000000C0000000C0000000C0000000C0000000C0000000C0000000C0000000C0000000C0000000C0000000C0000000C0000000C0000000C0000000C0000000C0000000C0000000C0000000C0000000C0000000C0000000C0000000C0000000C0000000C
    ∷ 0x0000000C0000000C0000000C0000000C0000000C0000000C0000000C0000000C0000000C0000000C0000000C0000000C0000000C0000000C0000000C0000000C0000000C0000000C0000000C0000000C0000000C0000000C0000000C0000000C0000000C0000000C0000000C0000000C0000000C0000000C0000000C0000000C0000000C0000000C0000000C0000000C
    ∷ 0x0000000C0000000C0000000C0000000C0000000D0000000D0000000D0000000D0000000D0000000D0000000D0000000D0000000D0000000D0000000D0000000D0000000D0000000D0000000D0000000D0000000D0000000D0000000D0000000D0000000D0000000D0000000D0000000D0000000D0000000D0000000D0000000D0000000D0000000D0000000D0000000D
    ∷ 0x0000000D0000000D0000000D0000000D0000000D0000000D0000000D0000000D0000000D0000000D0000000D0000000D0000000D0000000D0000000D0000000D0000000D0000000D0000000D0000000D0000000D0000000D0000000D0000000D0000000D0000000D0000000D0000000D0000000D0000000D0000000D0000000D0000000D0000000D0000000D0000000D
    ∷ 0x0000000D0000000D0000000D0000000D0000000D0000000D0000000D0000000D0000000D0000000D0000000D0000000D0000000D0000000D0000000D0000000D0000000D0000000D0000000D0000000D0000000D0000000D0000000D0000000D0000000D0000000D0000000D0000000D0000000D0000000D0000000D0000000D0000000D0000000D0000000D0000000D
    ∷ 0x0000000D0000000D0000000D0000000D0000000D0000000D0000000D0000000D0000000C0000000C0000000C0000000C0000000C0000000C0000000C0000000C0000000C0000000C0000000C0000000C0000000C0000000C0000000C0000000CFFFFFFFFFFFFFFFFFFFFFFFFFFFFFFFFFFFFFFFFFFFFFFFFFFFFFFFFFFFFFFFFFFFFFFFFFFFFFFFFFFFFFFFFFFFFFFFF
    ∷ 0xFFFFFFFFFFFFFFFFFFFFFFFFFFFFFFFFFFFFFFFFFFFFFFFFFFFFFFFFFFFFFFFFFFFFFFFFFFFFFFFFFFFFFFFFFFFFFFFFFFFFFFFFFFFFFFFFFFFFFFFFFFFFFFFFFFFFFFFFFFFFFFFFFFFFFFFFFFFFFFFFFFFFFFFFFFFFFFFFFFFFFFFFFFFFFFFFFFFFFFFFFFFFFFFFFFFFFFFFFFFFFFFFFFFFFFFFFFFFFFFFFFFFFFFFFFFFFFFFFFFFFFFFFFFFFFFFFFFFFFFFFFFFFFFF
    ∷ 0xFFFFFFFFFFFFFFFFFFFFFFFFFFFFFFFFFFFFFFFFFFFFFFFFFFFFFFFFFFFFFFFFFFFFFFFFFFFFFFFFFFFFFFFFFFFFFFFFFFFFFFFFFFFFFFFFFFFFFFFFFFFFFFFFFFFFFFFFFFFFFFFFFFFFFFFFFFFFFFFFFFFFFFFFFFFFFFFFFFFFFFFFFFFFFFFFFFFFFFFFFFFFFFFFFFFFFFFFFFFFFFFFFFFFFFFFFFFFFFFFFFFFFFFFFFFFFFFF20202000202020202828202020282828
    ∷ 0x202020202020202020202020202020201010882010101010101010101010101044444410444444441044444410101010414110104141414101010101010101010101010101010101010101011010101042421010424242420202020202020202020202020202020202020202101010100000002000000000000000000000000000000000000000000000000000000000
    ∷ 0x0000000000000000000000000000000000000000000000000000000000000000000000000000000000000000000000000000000000000000000000000000000000000000000000000000000000000000000000000000000000000000000000008018000000203A0000000000144A144514538001145A8001145F800114688001146E80011474800114798001147D8001
    ∷ 0x14878001148C800114938001149C800114A4800114AB800114B2800114BB14B714C4801114CC801214D2801314E0801314EA801314EE8013150080111505801114EA8019150A8019151080111515801C151B801C1520801C152B801C1531801C153B801C153F801C15448011154B802415538024155B14B715608027156914B7156E80291560802A157280121577802C
    ∷ 0x1580802D1587802C158D801115948030159C803015A6801215AB803315B7803315C9801115D18036150A803715DA801315E38039706F6F6C6E756F4364253D7477000A0D2074696177206370657469726E6966206568736969742064756F656D000A0D744C63697074676E6564253D6877000D0A20746961772063706574697273657220742074656F656D690D0A7475
    ∷ 0x69727400656C6767544E4920206F742065726F63000D0A31302E313031302E300034302E302E313033302E320033302E6B6E757B6E776F6E736E692D636E6174616E2D65007D656D706D657B692D79746174736E2D65636E656D616E0000007D6174737B2D63697474736E6965636E616D616E2D00007D65636478006E75722E656D69747272452E722E726F65736961
    ∷ 0x6574203A6E696D726E69746178652067747563650A6E6F69727265007B20726F303A64692C78257867726120305B3A732C78257825783020007D5D780000000A7B00732575646F6D2523656C7B007D6475646F6D722D656C3A65706F007D78252200203A2C227325696C00202520656E00203A642800702527732527000000298101808C810179A4810115C081011580
    ∷ 0x8101162081010440810104C0810105408100E080810103C0810116008100D14081010380810103000000800900000090810115408101186081010A6081010AC081010B0081010BA081010FE081011040810111E081011280810112C08101112081010C6081010C20810113C000000030000000000000000081017A1C000000020000000000000001FFFFFFFF00000000
    ∷ 0x0000000000000008000000002E636478746E75722E656D69726174533A707574616D272073615078277365736378652065646565000000640000002C000000000000000081017A74000000020000000000000001FFFFFFFFFFFFFFFF00000008000000008101809481017A948100014081000D40810111A08100CD808100E740810100008100FFC00000802600000028
    ∷ 0x000000000000000081017AC40000004000000000000000000000000000000008000000008101809081017AE081010E2081010DE081010E008100E5408100FE008100FDC0000080318101809081017B0481010E80810086C08100FEC08100E5C08100FE808100FE400000803200000024000000000000000081017B300000000000000000000000000000000800000000
    ∷ 0x00000024000000000000000081017B540000000000000001000000000000000800000000333231303736353462613938666564633332313037363534424139384645444300002500000000008101857800000004000000000000000000000020810179F40000003081017CE081017D0081017D2081017D4081017D6081017D8081017DA081017DC081017ACC810185F8
    ∷ 0x0000000400000000000000000000000C81017DDC0000001881017AF0810186000000000400000000000000000000002881017DF40000001800000000810186080000000400000000000000000000001081017A500000002C81017A7C810186240000000400000000000000000000002081017B1400000024FFFFFFFF8101865C00000004000000000000000000000010
    ∷ 0x81017E0C00000018FFFFFFFF810186640000000400000000000000000000002081017B380000002481017978810186FC0000000400000000000000000000002C81017AA4000000280001000100000000000100000000000000000000000100000000000080140000181716151C1B1A193E1F1E1D5E5D5C3F6867665F6C6B6A698015006D000000902322212027262524
    ∷ 0x022A292806050403080100071811100900000019000000002E2D2C2B3231302F0A3534330E0D0C0B0801000F181110090001001981011480393837363D3C3B3A12403F3E161514130801001718111009000000190CFB000044434241484746451A4B4A491E1D1C1B0801001F18111009801600190DB200002322212027262524022A2928060504030801000718111009
    ∷ 0x000000190D2400002E2D2C2B3231302F0A3534330E0D0C0B0801000F18111009802E001900000000393837363D3C3B3A12403F3E161514130801001718111009803200190000000044434241484746451A4B4A491E1D1C1B0801001F18111009801A001900000018000000000000000081017DEC000000080000000000000018000000000000000081017E0400000008
    ∷ []

pub length-core0_lines_3688 : length core0_lines_3688 ≡ 25
unfolding core0_lines_3688
length-core0_lines_3688 = refl

unfoldable pub core0_lines_3838 : List ℕ
core0_lines_3838 =
    0x0000000000000018000000000000000081017E1C00000008000000000000000000000000000000000000000081007BE00000000000000000333231303736353462613938666564638026000000000000FFFFFFFFFFFFFFFFFFFFFFFFFFFFFFFF0000000400000004000000006C756E280000296C0000000181017F800000000181017F880000000181017E280DDC0000
    ∷ 0x8100DB808100E6C00000000281017E9800000001810180C00E0C00001109020010C30300000000900000009000000000000000000000000000000000000004000F2F000081017CC081017BA00000001900000005000000A0810174D80B920010000000080000009000000090000000000E3900000000002000000000000000000000000008C000100893001008530010
    ∷ 0x086F00100F0B00000000009000000090000000008101961000000001810196C8000000081143030011310300111B04000000002000000090000000900000000000000000000000000000000000000000000000000000000000000000000000008100E64002A80010037B001003F300100429001000000010118103001163030000000090000000900000000000000000
    ∷ 0x000000000000000011DB020011AC030011ED030000000090000000900000000000000000000000000000000000000001810196500E8900000E5E000012AF0200133702001286020012150300000000340000003C0000009000000090000000000000000000000000000000000000000381018F9800000000000000000BD800100FD90000000000900000009000000000
    ∷ 0xFFFFFFFF0000000600000008000000200C0B0000000100100000001000000010000000000C2500000000009000000090000000000000000000000000000000018100CCC0810180988101809C8101809C8101809C00000000106400C00C4F000081019730000000018101968000000000810196C881010600810119A00000002081017CA0810179B88100552081019730
    ∷ []

pub length-core0_lines_3838 : length core0_lines_3838 ≡ 5
unfolding core0_lines_3838
length-core0_lines_3838 = refl
