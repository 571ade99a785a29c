-- ===== src/StopList/Part14.antt =====
-- Lines 2121 to 2270 of bkk_uds/bkk_stop_list.h.
use mathlib.Core.List.{List, [], ◌∷◌}
use bkk_api.StopList.Row.{BkkStop, row}

unfoldable pub stops_14 : List BkkStop
stops_14 =
    row "F00542" "Jablonka út 58." 47559044 19012806
    ∷ row "F00543" "Jablonka út 73." 47560509 19010945
    ∷ row "F00544" "Jablonka út 74." 47560266 19011145
    ∷ row "F00545" "Jablonka út" 47562091 19008167
    ∷ row "F00546" "Erdőalja út" 47559437 19006721
    ∷ row "F00547" "Áldomás utca" 47561909 19035606
    ∷ row "F00548" "Áldomás utca" 47562026 19035513
    ∷ row "F00549" "Kubik utca" 47562554 19023634
    ∷ row "F00550" "Kubik utca" 47561331 19023820
    ∷ row "F00551" "Hedvig utca" 47556066 19011267
    ∷ row "F00552" "Hedvig utca" 47556066 19011148
    ∷ row "F00553" "Erdőalja út 43." 47553495 19013993
    ∷ row "F00554" "Viharhegyi út" 47552623 19014458
    ∷ row "F00555" "Viharhegyi út" 47553099 19014312
    ∷ row "F00556" "Körtvélyes köz" 47553289 19017407
    ∷ row "F00557" "Körtvélyes utca" 47553226 19017288
    ∷ row "F00558" "Óbudai temető" 47564380 19022503
    ∷ row "F00559" "Iskola" 47550410 19015987
    ∷ row "F00560" "Iskola" 47550195 19016267
    ∷ row "F00561" "Királylaki út" 47549016 19014833
    ∷ row "F00562" "Királylaki út" 47548800 19015098
    ∷ row "F00563" "Máramaros út" 47546552 19017185
    ∷ row "F00564" "Táborhegyi út" 47550188 19025805
    ∷ row "F00565" "Táborhegyi út" 47549711 19026376
    ∷ row "F00566" "Bécsi út / Vörösvári út" 47548659 19027812
    ∷ row "F00567" "Bécsi út / Vörösvári út" 47547895 19029645
    ∷ row "F00568" "Bécsi út / Vörösvári út" 47548489 19028994
    ∷ row "F00569" "Bécsi út / Vörösvári út" 47548796 19029376
    ∷ row "F00570" "Bécsi út / Vörösvári út" 47548372 19029565
    ∷ row "F00573" "Óbuda, Bogdáni út" 47550712 19041826
    ∷ row "F00574" "Óbuda, Bogdáni út" 47550541 19042066
    ∷ row "F00575" "Óbuda, Bogdáni út" 47550127 19041973
    ∷ row "F00576" "Bogdáni út" 47550183 19043976
    ∷ row "F00577" "Bogdáni út" 47548409 19043102
    ∷ row "F00580" "Raktár utca" 47545288 19042837
    ∷ row "F00581" "Raktár utca" 47544947 19042757
    ∷ row "F00583" "Raktár utca" 47544713 19042212
    ∷ row "F00584" "Óbudai rendelőintézet" 47546735 19032621
    ∷ row "F00585" "Óbudai rendelőintézet" 47545467 19033618
    ∷ row "F00586" "Óbudai rendelőintézet" 47545936 19033455
    ∷ row "F00587" "Óbudai rendelőintézet" 47544884 19034770
    ∷ row "F00588" "Vihar utca" 47544002 19036381
    ∷ row "F00589" "Szőlő utca" 47543480 19036434
    ∷ row "F00590" "Váradi utca" 47543524 19029926
    ∷ row "F00591" "Váradi utca" 47543830 19029979
    ∷ row "F00592" "Váradi utca" 47543506 19031466
    ∷ row "F00594" "Szent Margit Kórház" 47540637 19030923
    ∷ row "F00595" "Szent Margit Kórház" 47540313 19030910
    ∷ row "F00596" "Szent Margit Kórház" 47539891 19031348
    ∷ row "F00597" "Szent Margit Kórház" 47540358 19030790
    ∷ row "F00598" "Katinyi mártírok parkja" 47532615 19036517
    ∷ row "F00599" "Katinyi mártírok parkja" 47532318 19036703
    ∷ row "F00600" "Katinyi mártírok parkja" 47532544 19036726
    ∷ row "F00601" "Katinyi mártírok parkja" 47532570 19036264
    ∷ row "F00602" "Nagyszombat utca" 47530133 19039386
    ∷ row "F00603" "Nagyszombat utca" 47531833 19040023
    ∷ row "F00604" "Tímár utca" 47535152 19039969
    ∷ row "F00605" "Tímár utca" 47534333 19039730
    ∷ row "F00606" "Kiscelli utca" 47538723 19040500
    ∷ row "F00607" "Kiscelli utca" 47538517 19040218
    ∷ row "F00608" "Remetehegyi út" 47535348 19027232
    ∷ row "F00609" "Mikoviny utca" 47532129 19029066
    ∷ row "F00610" "Kőzet utca" 47532740 19028522
    ∷ row "F00611" "Flórián tér" 47542896 19042252
    ∷ row "F00612" "Flórián tér" 47541987 19041190
    ∷ row "F00613" "Flórián tér" 47541664 19040088
    ∷ row "F00614" "Flórián tér" 47541539 19039979
    ∷ row "F00615" "Flórián tér" 47541116 19040536
    ∷ row "F00616" "Flórián tér" 47541672 19039184
    ∷ row "F00617" "ATI" 47570567 19018314
    ∷ row "F00618" "ATI" 47569550 19018939
    ∷ row "F00619" "Szentlélek tér H" 47539830 19046328
    ∷ row "F00620" "Szentlélek tér H" 47539911 19045890
    ∷ row "F00621" "Szentlélek tér H" 47540207 19045998
    ∷ row "F00622" "Szentlélek tér H" 47540153 19046251
    ∷ row "F00626" "Szentlélek tér H" 47539596 19045199
    ∷ row "F00627" "Szentlélek tér H" 47539694 19045773
    ∷ row "F00628" "Szentlélek tér H" 47539190 19045680
    ∷ row "F00629" "Szentlélek tér H" 47539362 19045916
    ∷ row "F00630" "Bóbita utca" 47572851 19016359
    ∷ row "F00631" "Bóbita utca" 47571951 19016865
    ∷ row "F00634" "Szélvész utca" 47531479 19020342
    ∷ row "F00635" "Szélvész utca" 47531371 19020382
    ∷ row "F00636" "Madzsar József utca / Hadrianus utca" 47603002 19059267
    ∷ row "F00637" "Madzsar József utca / Hadrianus utca" 47604018 19060836
    ∷ row "F00638" "Hadrianus utca" 47604009 19063350
    ∷ row "F00639" "Hadrianus utca" 47603937 19062951
    ∷ row "F00641" "Békásmegyer, Újmegyeri tér" 47603028 19066315
    ∷ row "F00642" "Békásmegyer, Újmegyeri tér" 47602606 19065995
    ∷ row "F00644" "Békásmegyer, Újmegyeri tér" 47602812 19066434
    ∷ row "F00645" "Bálint György utca" 47599242 19064944
    ∷ row "F00646" "Bálint György utca" 47599989 19065117
    ∷ row "F00649" "Hatvany Lajos utca / Juhász Gyula utca" 47597156 19063308
    ∷ row "F00650" "Hatvany Lajos utca / Juhász Gyula utca" 47596787 19062590
    ∷ row "F00653" "Boglár utca" 47594809 19060568
    ∷ row "F00654" "Pünkösdfürdő" 47594439 19065793
    ∷ row "F00655" "Pünkösdfürdő" 47594322 19066352
    ∷ row "F00656" "Sinkovits Imre utca" 47589636 19065606
    ∷ row "F00657" "Sinkovits Imre utca" 47589969 19065513
    ∷ row "F00658" "Mátyás király út" 47584780 19065032
    ∷ row "F00659" "Mátyás király út" 47585068 19064953
    ∷ row "F00660" "Szent János utca" 47579923 19064100
    ∷ row "F00661" "Szent János utca" 47578790 19063728
    ∷ row "F00662" "Nimród utca" 47575822 19062690
    ∷ row "F00663" "Nimród utca" 47575696 19062837
    ∷ row "F00664" "Nánási út" 47570219 19061599
    ∷ row "F00665" "Silvanus sétány" 47567170 19061532
    ∷ row "F00666" "Aquincum H" 47567333 19049399
    ∷ row "F00667" "Aquincum H" 47567585 19048854
    ∷ row "F00668" "Aquincum H" 47566424 19049798
    ∷ row "F00669" "Laborc utca" 47552221 19027823
    ∷ row "F00670" "Csillaghegyi út / Bojtár utca" 47560489 19031019
    ∷ row "F00671" "Csillaghegyi út / Bojtár utca" 47560838 19029840
    ∷ row "F00672" "Zúzmara utca" 47552211 19023785
    ∷ row "F00673" "Zúzmara utca" 47551842 19023958
    ∷ row "F00674" "Verhovina utca" 47554504 19020369
    ∷ row "F00676" "Szamos utca" 47582828 19064793
    ∷ row "F00677" "Szamos utca" 47582001 19064487
    ∷ row "F00678" "Óbudai autóbuszgarázs" 47567996 19026289
    ∷ row "F00679" "Óbudai autóbuszgarázs" 47568005 19026037
    ∷ row "F00680" "Bécsi út / Vörösvári út" 47550117 19028768
    ∷ row "F00681" "Kisbojtár utca" 47559830 19026718
    ∷ row "F00682" "Bercsényi utca" 47585509 19051447
    ∷ row "F00683" "Bercsényi utca" 47585384 19051925
    ∷ row "F00684" "Selmeci utca" 47535754 19033700
    ∷ row "F00685" "Selmeci utca" 47536042 19033342
    ∷ row "F00686" "Selmeci utca" 47536303 19033378
    ∷ row "F00687" "Selmeci utca" 47535485 19033644
    ∷ row "F00688" "Kolostor út" 47533261 19025786
    ∷ row "F00690" "Magnólia utca" 47564732 19030742
    ∷ row "F00691" "Madridi utca" 47546546 19097473
    ∷ row "F00692" "Madridi utca" 47546537 19097593
    ∷ row "F00693" "Angyalföld vasútállomás" 47550146 19091379
    ∷ row "F00697" "Fóti út" 47582375 19081555
    ∷ row "F00698" "Fóti út" 47583544 19081928
    ∷ row "F00699" "Fóti út" 47582663 19082353
    ∷ row "F00700" "Tímár utca" 47572266 19080764
    ∷ row "F00701" "Tímár utca" 47572356 19080964
    ∷ row "F00702" "Zsilip utca" 47567904 19079991
    ∷ row "F00703" "Zsilip utca" 47568812 19080470
    ∷ row "F00704" "Károlyi István utca" 47565566 19079192
    ∷ row "F00705" "Károlyi István utca" 47564936 19079205
    ∷ row "F00706" "Újpest, Árpád út hajóállomás" 47562097 19078486
    ∷ row "F00707" "Megyer, Julianus barát utca" 47584901 19086143
    ∷ row "F00708" "Gárdonyi Géza utca" 47584234 19090436
    ∷ row "F00709" "Megyeri temető" 47582507 19090754
    ∷ row "F00710" "Megyeri temető" 47581410 19089955
    ∷ row "F00711" "Fiumei út" 47582526 19086021
    ∷ row "F00712" "Megyeri út / Fóti út" 47579636 19088653
    ∷ row "F00713" "Megyeri út / Fóti út" 47579396 19087494
    ∷ []
