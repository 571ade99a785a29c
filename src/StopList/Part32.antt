-- ===== src/StopList/Part32.antt =====
-- Lines 4821 to 4970 of bkk_uds/bkk_stop_list.h.
use mathlib.Core.List.{List, [], ◌∷◌}
use bkk_api.StopList.Row.{BkkStop, row}

unfoldable pub stops_32 : List BkkStop
stops_32 =
    row "F03592" "Vörösmarty utca" 47461371 19237460
    ∷ row "F03593" "Szent kereszt tér" 47480668 19250836
    ∷ row "F03594" "Szent kereszt tér" 47481165 19249511
    ∷ row "F03595" "Újlak utca, lakótelep" 47482101 19233395
    ∷ row "F03596" "Rákóczi Ferenc utca" 47458884 19235011
    ∷ row "F03597" "Rákóczi Ferenc utca" 47459261 19235516
    ∷ row "F03598" "Kis Károshíd utca" 47497275 19286892
    ∷ row "F03599" "Kis Károshíd utca" 47497077 19286785
    ∷ row "F03600" "Homokiszőlők" 47456108 19215070
    ∷ row "F03601" "Homokiszőlők" 47455603 19215824
    ∷ row "F03602" "Császárfa utca" 47474451 19293807
    ∷ row "F03603" "Császárfa utca" 47474171 19294045
    ∷ row "F03604" "Rákosliget vasútállomás" 47486313 19258103
    ∷ row "F03605" "Rákoskeresztúr, városközpont" 47480073 19256804
    ∷ row "F03610" "Rákoskeresztúr, városközpont" 47479911 19256936
    ∷ row "F03620" "Szent Lőrinc-telep" 47433440 19174370
    ∷ row "F03621" "Szent Lőrinc-telep" 47433089 19174369
    ∷ row "F03622" "Ipacsfa utca" 47429454 19167601
    ∷ row "F03623" "Ipacsfa utca" 47430145 19169047
    ∷ row "F03624" "Ipacsfa utca" 47429920 19168981
    ∷ row "F03625" "Besence utca" 47428143 19164921
    ∷ row "F03626" "Besence utca" 47428089 19165106
    ∷ row "F03627" "Ipacsfa utca (Közdűlő út)" 47425661 19173543
    ∷ row "F03628" "Közdűlő út" 47423551 19169907
    ∷ row "F03629" "Szentlőrinci út (gyorsétterem)" 47424552 19158777
    ∷ row "F03630" "Nagykőrösi út" 47425895 19159846
    ∷ row "F03631" "Szentlőrinci út" 47425254 19158248
    ∷ row "F03632" "Szentlőrinci út" 47425416 19157758
    ∷ row "F03633" "Varjú utca" 47433628 19182868
    ∷ row "F03634" "Varjú utca" 47434069 19182882
    ∷ row "F03635" "Obszervatórium" 47430193 19182700
    ∷ row "F03636" "Obszervatórium" 47429851 19182871
    ∷ row "F03637" "Gilice tér" 47432034 19184812
    ∷ row "F03638" "Gilice tér" 47432078 19185634
    ∷ row "F03639" "Dalmady Győző utca" 47433482 19194288
    ∷ row "F03640" "Dalmady Győző utca" 47433381 19194267
    ∷ row "F03641" "Péterhalmi út" 47423124 19189428
    ∷ row "F03642" "Péterhalmi út" 47423331 19189455
    ∷ row "F03643" "Kettős-Körös utca" 47418716 19182817
    ∷ row "F03644" "Kettős-Körös utca" 47419454 19182606
    ∷ row "F03645" "Szálfa utca" 47415393 19186545
    ∷ row "F03646" "Szálfa utca" 47415140 19186889
    ∷ row "F03647" "Vezér utca" 47410936 19190204
    ∷ row "F03648" "Vezér utca" 47410621 19190600
    ∷ row "F03649" "Kisfaludy utca (Nemes utca)" 47408846 19192980
    ∷ row "F03650" "Kisfaludy utca" 47408980 19193869
    ∷ row "F03651" "Kisfaludy utca" 47408970 19194107
    ∷ row "F03652" "Kisfaludy utca" 47408189 19193689
    ∷ row "F03653" "Damjanich utca" 47411502 19197983
    ∷ row "F03654" "Damjanich utca" 47411125 19197160
    ∷ row "F03655" "Szigeti Kálmán utca" 47405035 19198004
    ∷ row "F03656" "Szigeti Kálmán utca" 47404215 19198943
    ∷ row "F03657" "Ár utca" 47396871 19195292
    ∷ row "F03658" "Paula utca" 47396601 19195822
    ∷ row "F03659" "Pestszentimre, Ültetvény utca" 47396787 19175078
    ∷ row "F03661" "Vásáros tér" 47410296 19184014
    ∷ row "F03662" "Törvény utca" 47408878 19180924
    ∷ row "F03663" "Ady Endre utca" 47405855 19189024
    ∷ row "F03664" "Ady Endre utca" 47406313 19189953
    ∷ row "F03665" "Pestszentimre vasútállomás (Vasút utca)" 47404483 19185841
    ∷ row "F03668" "Pestszentimre vasútállomás (Bocskai u.)" 47403182 19185687
    ∷ row "F03672" "Pestszentimre vasútállomás (Dózsa Gy.u.)" 47403503 19185428
    ∷ row "F03674" "Pestszentimre felső vasútállomás" 47413951 19172628
    ∷ row "F03675" "Pestszentimre felső vasútállomás" 47413069 19173792
    ∷ row "F03676" "Lajos utca" 47399113 19178607
    ∷ row "F03677" "Lajos utca" 47398951 19178541
    ∷ row "F03678" "Besence utca 9." 47424929 19168134
    ∷ row "F03679" "Közdűlő út" 47420175 19164532
    ∷ row "F03680" "Közdűlő út" 47419841 19165194
    ∷ row "F03681" "Kamiontelep" 47421742 19162402
    ∷ row "F03682" "Kamiontelep" 47422291 19162006
    ∷ row "F03683" "Wlassics Gyula utca" 47437387 19183898
    ∷ row "F03684" "Wlassics Gyula utca" 47438079 19183992
    ∷ row "F03685" "Dobozi utca" 47435589 19183403
    ∷ row "F03686" "Dobozi utca" 47435939 19183404
    ∷ row "F03687" "Törvény utca" 47413169 19188368
    ∷ row "F03688" "Törvény utca" 47413745 19188051
    ∷ row "F03689" "Iparvasút" 47436309 19197045
    ∷ row "F03690" "Iparvasút" 47436417 19196966
    ∷ row "F03691" "Iparvasút" 47436481 19196224
    ∷ row "F03692" "Iparvasút" 47436689 19195933
    ∷ row "F03693" "Csévéző utca" 47452922 19196787
    ∷ row "F03694" "Csévéző utca" 47453471 19196470
    ∷ row "F03695" "Csévéző utca" 47453570 19196908
    ∷ row "F03696" "Csévéző utca" 47452779 19196216
    ∷ row "F03697" "Fedezék utca" 47452025 19194795
    ∷ row "F03698" "Fedezék utca" 47452160 19195140
    ∷ row "F03699" "Pestszentlőrinc, Fedezék utca" 47452177 19195339
    ∷ row "F03700" "Lőrinci temető" 47447406 19191614
    ∷ row "F03701" "Lőrinci temető" 47447200 19190950
    ∷ row "F03702" "Lőrinci temető" 47446552 19191346
    ∷ row "F03703" "Gárdonyi Géza utca" 47443488 19189071
    ∷ row "F03704" "Gárdonyi Géza utca" 47443137 19188977
    ∷ row "F03705" "Regény utca" 47443455 19186446
    ∷ row "F03706" "Regény utca" 47444119 19187428
    ∷ row "F03707" "Thököly út" 47443050 19178755
    ∷ row "F03708" "Thököly út" 47442726 19179510
    ∷ row "F03709" "Thököly út" 47442771 19179139
    ∷ row "F03710" "Thököly út" 47442590 19180066
    ∷ row "F03711" "Pestszentlőrinc, Szarvas csárda tér" 47441567 19186136
    ∷ row "F03713" "Szarvas csárda tér" 47440218 19185416
    ∷ row "F03714" "Szarvas csárda tér" 47439433 19187456
    ∷ row "F03715" "Szarvas csárda tér" 47440450 19186849
    ∷ row "F03716" "Szarvas csárda tér" 47440325 19186557
    ∷ row "F03718" "Szarvas csárda tér" 47440489 19184980
    ∷ row "F03719" "Szarvas csárda tér" 47439975 19186105
    ∷ row "F03720" "Szarvas csárda tér" 47441002 19184795
    ∷ row "F03721" "Szarvas csárda tér" 47441136 19185048
    ∷ row "F03722" "Iker utca" 47435883 19169193
    ∷ row "F03723" "Iker utca" 47435497 19168953
    ∷ row "F03724" "Kapocs utca" 47402134 19201692
    ∷ row "F03725" "Kapocs utca" 47401647 19202512
    ∷ row "F03726" "Kolozsvár utca (temető)" 47438126 19157108
    ∷ row "F03727" "Kolozsvár utca (temető)" 47438548 19157692
    ∷ row "F03728" "Csapó utca" 47441253 19160442
    ∷ row "F03729" "Csapó utca" 47440907 19160673
    ∷ row "F03730" "Bozsik Stadion" 47444567 19155185
    ∷ row "F03731" "Bozsik Stadion" 47444145 19155344
    ∷ row "F03732" "Kispest vasútállomás" 47447568 19158533
    ∷ row "F03733" "Kispest vasútállomás" 47447182 19158240
    ∷ row "F03734" "Lajosmizsei sorompó" 47450561 19161323
    ∷ row "F03735" "Lajosmizsei sorompó" 47451499 19158673
    ∷ row "F03737" "Lajosmizsei sorompó" 47450994 19160104
    ∷ row "F03738" "Tinódi utca" 47449263 19163906
    ∷ row "F03739" "Tinódi utca" 47449542 19163509
    ∷ row "F03740" "Tinódi utca" 47449696 19163151
    ∷ row "F03741" "Tinódi utca" 47449840 19163032
    ∷ row "F03742" "Hőerőmű" 47456395 19164359
    ∷ row "F03743" "Hőerőmű" 47455918 19165128
    ∷ row "F03744" "Csillag utca" 47457252 19162200
    ∷ row "F03745" "Csillag utca" 47457684 19161378
    ∷ row "F03746" "Felsőcsatári köz" 47456346 19176600
    ∷ row "F03747" "Felsőcsatári köz" 47456211 19176745
    ∷ row "F03748" "Lakatos úti lakótelep" 47452049 19174282
    ∷ row "F03749" "Lakatos úti lakótelep" 47452247 19174176
    ∷ row "F03750" "Üllői út" 47447251 19170240
    ∷ row "F03751" "Lakatos út" 47448087 19170958
    ∷ row "F03752" "Margó Tivadar utca" 47448127 19166821
    ∷ row "F03753" "Margó Tivadar utca" 47446632 19168090
    ∷ row "F03754" "Margó Tivadar utca" 47447226 19168649
    ∷ row "F03755" "Margó Tivadar utca" 47447910 19167324
    ∷ row "F03756" "Margó Tivadar utca" 47447883 19167603
    ∷ row "F03757" "Dembinszky utca" 47443516 19163403
    ∷ row "F03758" "Havanna utca" 47444320 19169358
    ∷ row "F03759" "Vörösmarty Mihály utca" 47439666 19164151
    ∷ row "F03760" "Kondor Béla sétány" 47439151 19166642
    ∷ row "F03761" "Barta Lajos utca" 47437898 19169516
    ∷ row "F03762" "Margó Tivadar utca" 47439397 19172343
    ∷ row "F03763" "Baross utca" 47439865 19171761
    ∷ row "F03764" "Margó Tivadar utca" 47437752 19171080
    ∷ []
