-- ===== src/StopList/Part01.antt =====
-- Lines 171 to 320 of bkk_uds/bkk_stop_list.h.
use mathlib.Core.List.{List, [], ◌∷◌}
use bkk_api.StopList.Row.{BkkStop, row}

unfoldable pub stops_01 : List BkkStop
stops_01 =
    row "008186" "Újpest-központ" 47560429 19089916
    ∷ row "008206" "Mexikói út M" 47519287 19091049
    ∷ row "008209" "Nagy Lajos király útja / Czobor utca" 47522197 19102817
    ∷ row "008218" "Széchenyi István tér" 47498915 19047062
    ∷ row "008222" "Örs vezér tere M+H" 47503737 19136447
    ∷ row "008238" "Széchenyi István tér" 47500543 19046690
    ∷ row "008239" "Müpa - Nemzeti Színház H" 47471165 19073129
    ∷ row "008240" "Müpa - Nemzeti Színház H" 47471354 19073301
    ∷ row "008241" "Szőnyi út" 47526625 19096220
    ∷ row "008242" "Teleki Blanka utca" 47523865 19093761
    ∷ row "008245" "Kolozsvár utcai piac" 47536842 19114916
    ∷ row "008246" "Rákospalotai köztemető" 47551236 19136137
    ∷ row "008260" "Nagybányai út" 47528503 18996288
    ∷ row "008261" "Nagybányai út" 47528368 18996467
    ∷ row "008262" "Hidegkuti Nándor Stadion" 47490703 19108915
    ∷ row "008265" "Közvágóhíd H" 47468760 19073512
    ∷ row "008267" "Szentlőrinci út" 47424625 19157703
    ∷ row "008269" "Delej utca" 47484694 19096209
    ∷ row "008270" "Delej utca" 47484460 19096407
    ∷ row "008271" "Szentendre" 47661045 19075578
    ∷ row "008273" "Beöthy utca" 47460670 19081820
    ∷ row "008275" "Timót utca" 47447949 19090447
    ∷ row "008280" "Infopark (Pázmány Péter sétány)" 47469242 19064333
    ∷ row "008283" "Óceán-árok utca" 47589986 19100345
    ∷ row "008284" "Óceán-árok utca" 47590345 19101781
    ∷ row "008286" "Népliget M" 47476325 19099294
    ∷ row "008287" "Népliget M" 47476140 19098735
    ∷ row "008289" "Szilágyi utca" 47570877 19111330
    ∷ row "008317" "Bartók Béla utca" 47433275 18919546
    ∷ row "008318" "Raktárváros" 47441443 18938007
    ∷ row "008319" "Raktárváros" 47441434 18938378
    ∷ row "008322" "Harangláb" 47431919 18914048
    ∷ row "008323" "Károlyi utca" 47437730 18899544
    ∷ row "008324" "Tükörhegy" 47436368 18927095
    ∷ row "008325" "Tükörhegy" 47436170 18926976
    ∷ row "008326" "Ady Endre utca" 47435045 18906261
    ∷ row "008328" "Törökbálint Sportközpont" 47440072 18895693
    ∷ row "008329" "Törökbálint Sportközpont" 47440269 18895215
    ∷ row "008330" "Határ utca" 47445251 18894299
    ∷ row "008331" "Határ utca" 47444924 18894036
    ∷ row "008332" "Hosszúrét utca" 47446051 18881264
    ∷ row "008333" "Törökbálint, bevásárlóközpont" 47443242 18887398
    ∷ row "008336" "Növény utca" 47402042 19015774
    ∷ row "008337" "Növény utca" 47402114 19015257
    ∷ row "008339" "Budaörsi lakótelep" 47455746 18940232
    ∷ row "008341" "Templom tér" 47542265 19130118
    ∷ row "008344" "Királyhágó tér" 47495421 19018715
    ∷ row "008345" "Katona József utca" 47438530 18906237
    ∷ row "008353" "Észak-Pesti Kórház" 47539357 19122373
    ∷ row "008359" "Óbudai autóbuszgarázs" 47567996 19026289
    ∷ row "008365" "Bécsi út / Vörösvári út" 47548489 19028994
    ∷ row "008368" "Szigetmajor" 47293738 18964665
    ∷ row "008370" "Egyetemi Tangazdaság" 47258643 18949516
    ∷ row "008377" "Nagykőrösi út / Határ út" 47456438 19114897
    ∷ row "008379" "Kőbánya alsó vasútállomás" 47483886 19127216
    ∷ row "008381" "Kőbánya alsó vasútállomás" 47484011 19127574
    ∷ row "008382" "Örs vezér tere M+H" 47502477 19136883
    ∷ row "008383" "Örs vezér tere M+H" 47502639 19136658
    ∷ row "008385" "Rákospalota, MÁV-telep" 47541308 19121443
    ∷ row "008399" "Pestszentimre vasútállomás" 47404222 19186489
    ∷ row "008400" "Dunakeszi, Auchan áruház" 47608963 19117347
    ∷ row "008402" "Kert sor" 47591122 19045358
    ∷ row "008403" "Kert sor" 47591374 19045384
    ∷ row "008404" "Csillaghegy H" 47584848 19042059
    ∷ row "008405" "Csillaghegy H" 47584781 19041862
    ∷ row "008406" "Forrásliget lakópark" 47581093 19037502
    ∷ row "008407" "Forrásliget lakópark" 47581363 19037795
    ∷ row "008408" "Ürömhegyi lejtő" 47577513 19032133
    ∷ row "008409" "Ürömhegyi lejtő" 47577621 19032040
    ∷ row "008410" "Aranyhegyi lejtő" 47572737 19030301
    ∷ row "008411" "Aranyhegyi lejtő" 47572602 19030088
    ∷ row "008412" "Bécsi út / Vörösvári út" 47548471 19029180
    ∷ row "008426" "Káposztásmegyer, Szilas-patak" 47577405 19114927
    ∷ row "008428" "Budakalász, Budai út" 47617063 19051534
    ∷ row "008429" "Budakalász, Budai út" 47616729 19051767
    ∷ row "008430" "Budakalász, Lenfonó H" 47620304 19046374
    ∷ row "008431" "Budakalász, Lenfonó H" 47621800 19045662
    ∷ row "008432" "Szentistvántelep H" 47628444 19043367
    ∷ row "008433" "Szentistvántelep H" 47627055 19043879
    ∷ row "008434" "Pomáz H" 47643897 19030357
    ∷ row "008435" "Pomáz H" 47642594 19031459
    ∷ row "008436" "Szentendre, Papírgyár" 47649031 19069532
    ∷ row "008437" "Papírgyár" 47647762 19069061
    ∷ row "008438" "Egyetem" 47651504 19071135
    ∷ row "008439" "Egyetem" 47652067 19071331
    ∷ row "008447" "Dióskert" 47425630 18911984
    ∷ row "008455" "Jászai Mari tér" 47512837 19047936
    ∷ row "008458" "Tisza István tér" 47517230 19107350
    ∷ row "008459" "Uzsoki Utcai Kórház" 47519858 19103689
    ∷ row "008460" "Uzsoki Utcai Kórház" 47519615 19103476
    ∷ row "008461" "Erzsébet királyné útja / Róna utca" 47521586 19101301
    ∷ row "008462" "Bretzfeld utca" 47460536 18945898
    ∷ row "008469" "Gubacsi út / Határ út" 47444418 19096583
    ∷ row "008471" "Dél-pesti autóbuszgarázs" 47426556 19160782
    ∷ row "008472" "Dél-pesti autóbuszgarázs" 47426744 19161140
    ∷ row "008479" "Homokbánya utca" 47399559 18941035
    ∷ row "008480" "Petőfi Sándor utca" 47402470 18937784
    ∷ row "008481" "Soroksár felső H" 47409980 19111405
    ∷ row "008486" "Csonka János tér" 47470070 19044795
    ∷ row "008490" "Határ út M" 47464567 19126152
    ∷ row "008491" "Jászberényi út" 47485496 19192619
    ∷ row "008498" "Aszódi utca" 47463484 19100991
    ∷ row "008499" "Közterületfenntartó Zrt." 47467861 19106659
    ∷ row "008500" "Ecseri út M" 47470788 19108999
    ∷ row "008501" "Ferencvárosi rendelőintézet" 47476984 19075559
    ∷ row "008519" "Tímár utca H" 47533299 19043582
    ∷ row "008520" "Szentlélek tér H" 47539361 19047061
    ∷ row "008521" "Serfőző utca" 47538309 19046968
    ∷ row "008535" "Cinkotai autóbuszgarázs" 47498194 19237472
    ∷ row "008544" "Szépvölgyi út H" 47527615 19040037
    ∷ row "008545" "Puskás Ferenc Stadion M" 47500105 19107013
    ∷ row "008546" "Boráros tér H" 47479738 19067812
    ∷ row "008548" "Gyál, Bem József utca" 47372917 19216769
    ∷ row "008549" "Kisfaludy Sándor utca" 47375008 19213611
    ∷ row "008550" "Toldi Miklós utca" 47377334 19210016
    ∷ row "008551" "Bacsó Béla utca" 47379533 19206672
    ∷ row "008552" "Erdősor utca" 47383056 19201876
    ∷ row "008553" "Bajcsy-Zsilinszky utca" 47385634 19204439
    ∷ row "008559" "Korompai utca" 47484860 19012485
    ∷ row "008560" "Korompai utca" 47484789 19012843
    ∷ row "008567" "Gazdagréti tér" 47473277 18992780
    ∷ row "008569" "Cinkotai autóbuszgarázs" 47498051 19236675
    ∷ row "008575" "Távíró utca" 47461082 19119025
    ∷ row "008577" "Rákoshegy vasútállomás" 47467934 19244806
    ∷ row "008587" "Gyáli út" 47456472 19111009
    ∷ row "008588" "Gyáli út" 47456293 19110359
    ∷ row "008589" "Gyáli út" 47466010 19103474
    ∷ row "008590" "Szent Gellért tér - Műegyetem M" 47483337 19053086
    ∷ row "008591" "Szent Gellért tér - Műegyetem M" 47483616 19053537
    ∷ row "008593" "Móricz Zsigmond körtér M" 47476836 19047188
    ∷ row "008595" "Hungaroring" 47579181 19275357
    ∷ row "008597" "Sport utca" 47455951 18948135
    ∷ row "008598" "Baross utca" 47460313 18958511
    ∷ row "008605" "Kolosy tér" 47527543 19036916
    ∷ row "008615" "Puskás Ferenc Stadion M" 47500100 19109522
    ∷ row "008617" "Pillangó utca" 47501297 19119883
    ∷ row "008618" "Puskás Ferenc Stadion" 47500389 19107113
    ∷ row "008619" "Keleti pályaudvar" 47499798 19082670
    ∷ row "008620" "Blaha Lujza tér" 47496986 19070333
    ∷ row "008621" "Astoria" 47494331 19060097
    ∷ row "008622" "Deák Ferenc tér" 47497716 19054300
    ∷ row "008623" "Kossuth Lajos tér" 47505520 19046619
    ∷ row "008624" "Batthyány tér" 47506462 19038890
    ∷ row "008625" "Széll Kálmán tér" 47506943 19024803
    ∷ row "008626" "Déli pályaudvar" 47500191 19024951
    ∷ row "008642" "Székesdűlő" 47611694 19105926
    ∷ row "008643" "Székesdűlő" 47610958 19103571
    ∷ row "008644" "Vízművek" 47599469 19092788
    ∷ row "008645" "Vízművek" 47600323 19093374
    ∷ row "008646" "Áruházi bekötőút" 47386510 19022630
    ∷ []
