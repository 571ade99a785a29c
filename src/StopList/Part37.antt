-- ===== src/StopList/Part37.antt =====
-- Lines 5571 to 5720 of bkk_uds/bkk_stop_list.h.
use mathlib.Core.List.{List, [], ◌∷◌}
use bkk_api.StopList.Row.{BkkStop, row}

unfoldable pub stops_37 : List BkkStop
stops_37 =
    row "F04436" "Vágóhíd utca" 47414386 19038518
    ∷ row "F04437" "Brassói utca" 47424460 19002705
    ∷ row "F04438" "Brassói utca" 47424406 19002626
    ∷ row "F04439" "Aradi utca" 47419056 19006712
    ∷ row "F04440" "Aradi utca" 47419101 19006580
    ∷ row "F04441" "Nyél utca" 47414504 19004145
    ∷ row "F04442" "Nyél utca" 47414855 19004238
    ∷ row "F04443" "Park utca" 47412320 19006757
    ∷ row "F04444" "Park utca" 47412284 19006492
    ∷ row "F04445" "Aszály utca" 47413499 19009817
    ∷ row "F04446" "Aszály utca" 47413724 19010718
    ∷ row "F04447" "Őszibarack utca" 47415326 19012466
    ∷ row "F04448" "Őszibarack utca" 47415452 19012731
    ∷ row "F04449" "Rizling utca (Sportpálya)" 47414679 19015687
    ∷ row "F04450" "Rizling utca (Sportpálya)" 47414850 19015673
    ∷ row "F04451" "Tűztorony" 47413142 19017993
    ∷ row "F04452" "Tűztorony" 47413330 19017595
    ∷ row "F04453" "Jókai Mór utca" 47410129 19020207
    ∷ row "F04454" "Jókai Mór utca" 47410030 19020671
    ∷ row "F04455" "Lépcsős utca" 47408293 19016499
    ∷ row "F04456" "Lépcsős utca" 47408167 19015956
    ∷ row "F04457" "Budatétény vasútállomás (Növény utca)" 47404901 19012155
    ∷ row "F04458" "Budatétény vasútállomás (Növény utca)" 47405135 19012791
    ∷ row "F04459" "Tűzliliom utca" 47404333 19006644
    ∷ row "F04460" "Tűzliliom utca" 47404135 19006618
    ∷ row "F04461" "Rákóczi út" 47405897 19005292
    ∷ row "F04462" "Rákóczi út" 47405384 19005584
    ∷ row "F04463" "Terv utca" 47408037 19002216
    ∷ row "F04464" "Terv utca" 47407749 19002468
    ∷ row "F04466" "Dózsa György út" 47399862 19004979
    ∷ row "F04467" "Dózsa György út" 47399546 19003827
    ∷ row "F04468" "I. utca" 47401354 19003838
    ∷ row "F04469" "I. utca" 47401327 19003626
    ∷ row "F04470" "Szent László utca" 47407054 18998189
    ∷ row "F04471" "Szent László utca" 47406833 18998278
    ∷ row "F04472" "Bem tábornok utca" 47408888 18996253
    ∷ row "F04473" "Bem tábornok utca" 47409212 18996081
    ∷ row "F04474" "XIII. utca / Dózsa György út" 47411873 18993004
    ∷ row "F04475" "XIII. utca / Dózsa György út" 47411927 18993295
    ∷ row "F04476" "Baross Gábor-telep, Ispiláng utca" 47416581 19001480
    ∷ row "F04477" "Damjanich utca" 47402329 18990815
    ∷ row "F04478" "Barosstelep vasútállomás" 47399523 18990858
    ∷ row "F04479" "Bartók Béla út" 47394676 18992863
    ∷ row "F04480" "Bartók Béla út" 47395225 18993723
    ∷ row "F04481" "Szerafin-villa" 47407717 18962681
    ∷ row "F04482" "Szerafin-villa" 47407672 18962853
    ∷ row "F04483" "Németh-villa" 47404797 18966409
    ∷ row "F04484" "Németh-villa" 47404734 18966700
    ∷ row "F04485" "Barackos út / Angeli utca" 47401715 18971964
    ∷ row "F04486" "Barackos út / Angeli utca" 47400763 18973979
    ∷ row "F04487" "Szakiskola utca" 47405265 18975901
    ∷ row "F04488" "Szilvafa utca" 47405149 18983101
    ∷ row "F04489" "Mátyás király utca" 47404272 18990680
    ∷ row "F04490" "Nagytétény-Diósd vasútáll. (Angeli utca)" 47397626 18976646
    ∷ row "F04491" "Nagytétény-Diósd vasútáll. (Angeli utca)" 47397680 18976752
    ∷ row "F04492" "Nagytétényi temető" 47394560 18978544
    ∷ row "F04493" "Nagytétényi temető" 47394173 18978903
    ∷ row "F04494" "Petőfi Sándor utca (Kastélymúzeum)" 47393237 18989336
    ∷ row "F04495" "Petőfi Sándor utca (Kastélymúzeum)" 47393460 18989619
    ∷ row "F04496" "Szabadság utca" 47392468 18984123
    ∷ row "F04497" "Szabadság utca" 47392540 18984733
    ∷ row "F04498" "Angeli utca / Nagytétényi út" 47390955 18981715
    ∷ row "F04499" "Angeli utca / Nagytétényi út" 47390919 18981251
    ∷ row "F04501" "Akó utca" 47389559 18977889
    ∷ row "F04502" "Akó utca" 47389793 18978206
    ∷ row "F04503" "Nagytétény, Erdélyi utca" 47388224 18973056
    ∷ row "F04504" "Nagytétény, Erdélyi utca" 47388296 18972672
    ∷ row "F04505" "Bányalég utca" 47390250 18963093
    ∷ row "F04506" "Bányalég utca" 47390378 18963761
    ∷ row "F04507" "Nagytétény, ipartelep" 47388880 18958553
    ∷ row "F04508" "Nagytétény, ipartelep" 47388915 18958155
    ∷ row "F04509" "Tenkes utca" 47397413 18998776
    ∷ row "F04510" "Tenkes utca" 47396882 18997974
    ∷ row "F04511" "Tátra utca" 47403881 19001160
    ∷ row "F04512" "Tátra utca" 47403647 19001531
    ∷ row "F04513" "XVI. utca" 47413907 18996341
    ∷ row "F04514" "XVI. utca" 47413853 18996447
    ∷ row "F04515" "Diósdi utca" 47403332 18968955
    ∷ row "F04516" "Diósdi utca" 47403332 18969127
    ∷ row "F04517" "DEXTER" 47405129 19022303
    ∷ row "F04521" "Mátra utca" 47400228 18999441
    ∷ row "F04523" "Soroksár, központi raktárak" 47378254 19130436
    ∷ row "F04524" "Dinnyehegyi út" 47415974 19134363
    ∷ row "F04525" "Dinnyehegyi út" 47417142 19135863
    ∷ row "F04526" "Soroksár, Molnár-sziget" 47398244 19108689
    ∷ row "F04528" "Festékgyár" 47417015 19109916
    ∷ row "F04529" "Festékgyár" 47416817 19110340
    ∷ row "F04530" "Soroksár felső H" 47410313 19111353
    ∷ row "F04531" "Soroksár felső H" 47410277 19111710
    ∷ row "F04532" "Tárcsás utca" 47406597 19114382
    ∷ row "F04533" "Tárcsás utca" 47406210 19114633
    ∷ row "F04536" "Tárcsás utca" 47405087 19112539
    ∷ row "F04537" "Tárcsás utca" 47405698 19112672
    ∷ row "F04538" "Soroksár, Hősök tere H" 47399752 19114519
    ∷ row "F04539" "Soroksár, Hősök tere H" 47398889 19114518
    ∷ row "F04542" "Soroksár, Hősök tere H" 47400147 19116507
    ∷ row "F04543" "Soroksár, Hősök tere H" 47399967 19116666
    ∷ row "F04544" "Soroksár vasútállomás" 47400947 19121294
    ∷ row "F04545" "Soroksár vasútállomás" 47400818 19121886
    ∷ row "F04550" "Zsellér dűlő" 47389450 19120281
    ∷ row "F04551" "Zsellér dűlő" 47389252 19120215
    ∷ row "F04552" "Polimer" 47381772 19127492
    ∷ row "F04553" "Polimer" 47382655 19126761
    ∷ row "F04554" "Vecsés út, sorompó" 47398702 19125195
    ∷ row "F04555" "Vecsés út, sorompó" 47398910 19126538
    ∷ row "F04556" "Szamaránszki dűlő" 47399802 19133979
    ∷ row "F04557" "Szamaránszki dűlő" 47399921 19134143
    ∷ row "F04558" "Telefondűlő út" 47401021 19140102
    ∷ row "F04559" "Telefondűlő út" 47401326 19140778
    ∷ row "F04560" "Kertészeti Egyetem" 47398675 19149013
    ∷ row "F04561" "Kertészeti Egyetem" 47398594 19149278
    ∷ row "F04562" "Víztorony tér" 47389444 19161379
    ∷ row "F04563" "Víztorony tér" 47388877 19162014
    ∷ row "F04564" "Erzsébeti temető" 47418618 19122136
    ∷ row "F04565" "Erzsébeti temető" 47418680 19122574
    ∷ row "F04566" "Tangazdaság (Óvoda)" 47390642 19159792
    ∷ row "F04567" "Tangazdaság (Óvoda)" 47390876 19159303
    ∷ row "F04568" "Erzsébet utca" 47403232 19115517
    ∷ row "F04569" "Erzsébet utca" 47402675 19115795
    ∷ row "F04570" "Ócsai úti felüljáró" 47383348 19125729
    ∷ row "F04571" "Ócsai úti felüljáró" 47383681 19125690
    ∷ row "F04572" "Szent László utca" 47420747 19126128
    ∷ row "F04573" "Szent László utca" 47420783 19126353
    ∷ row "F04574" "Szent László utca / Újtelep út" 47415606 19132918
    ∷ row "F04575" "Szent László utca / Újtelep út" 47415651 19133276
    ∷ row "F04576" "Szentlőrinci úti lakótelep" 47416876 19130588
    ∷ row "F04577" "Szentlőrinci úti lakótelep" 47416615 19131038
    ∷ row "F04578" "Pécel, Pesti út 110." 47491617 19315690
    ∷ row "F04579" "Pécel, Pesti út 110." 47491464 19315636
    ∷ row "F04580" "Orvosi rendelő" 47490149 19331739
    ∷ row "F04581" "Orvosi rendelő" 47490054 19333429
    ∷ row "F04582" "Szent Imre körút" 47482664 19342598
    ∷ row "F04583" "Szent Imre körút" 47484600 19342337
    ∷ row "F04584" "Kistarcsa, kórház H" 47539805 19252603
    ∷ row "F04585" "Határ utca" 47491491 19323112
    ∷ row "F04586" "Határ utca" 47491466 19322483
    ∷ row "F04587" "Faiskola utcai átjáró" 47490818 19326660
    ∷ row "F04588" "Faiskola utcai átjáró" 47490791 19326354
    ∷ row "F04589" "Ráday Gedeon tér" 47491840 19342311
    ∷ row "F04590" "Ráday Gedeon tér" 47491885 19342457
    ∷ row "F04591" "Kossuth tér" 47488003 19340949
    ∷ row "F04592" "Kossuth tér" 47487930 19341201
    ∷ row "F04593" "Pécel, Kun József utca" 47477672 19343121
    ∷ row "F04594" "Köztársaság tér" 47490362 19336244
    ∷ row "F04595" "Köztársaság tér" 47490821 19336234
    ∷ row "F04596" "Vecsés-nyugat" 47418016 19254520
    ∷ row "F04597" "Vecsés-nyugat" 47418154 19253473
    ∷ row "F04599" "Liszt Ferenc Airport 2" 47432838 19261337
    ∷ row "F04600" "Gyál felső vasútállomás" 47388861 19206012
    ∷ row "F04601" "Gyál felső vasútállomás" 47388167 19207427
    ∷ []
