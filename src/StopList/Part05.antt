-- ===== src/StopList/Part05.antt =====
-- Lines 771 to 920 of bkk_uds/bkk_stop_list.h.
use mathlib.Core.List.{List, [], ◌∷◌}
use bkk_api.StopList.Row.{BkkStop, row}

unfoldable pub stops_05 : List BkkStop
stops_05 =
    row "038717" "Deák Ferenc tér M" 47499032 19054030
    ∷ row "040525" "Hentes utca" 47462276 19084570
    ∷ row "040526" "Hentes utca" 47462600 19084411
    ∷ row "040591" "FESTO" 47564606 19030822
    ∷ row "040608" "Zsivora park" 47509134 19148798
    ∷ row "040609" "Szent Imre tér H" 47431780 19067901
    ∷ row "040612" "Bányató utca" 47466279 19165031
    ∷ row "040760" "Kálvin tér" 47489830 19061280
    ∷ row "040789" "Kerékgyártó utca" 47520990 19106438
    ∷ row "041071" "Nagyvárad tér M" 47479202 19088416
    ∷ row "041092" "Csepeli Kórház" 47424595 19058701
    ∷ row "041093" "Duna-lejáró" 47428013 19058927
    ∷ row "041094" "Színesfém utca" 47430513 19064640
    ∷ row "041095" "Szent Imre tér H" 47432014 19067358
    ∷ row "041139" "Mázsa utca" 47483115 19122863
    ∷ row "041140" "Mázsa utca" 47482980 19122823
    ∷ row "041209" "Boráros tér H" 47479297 19066963
    ∷ row "042790" "Stefánia út" 47510421 19091707
    ∷ row "042797" "Bányató utca" 47465391 19162933
    ∷ row "042933" "Népliget M" 47475851 19100552
    ∷ row "042934" "Soroksár, BILK" 47378287 19121299
    ∷ row "043154" "Dél-pesti autóbuszgarázs (kapu)" 47426902 19160697
    ∷ row "043176" "Kőbánya-Kispest M" 47461995 19149491
    ∷ row "043191" "Bosnyák tér" 47519332 19112783
    ∷ row "043192" "Kisvárda utca" 47471587 19282412
    ∷ row "043193" "Kisvárda utca" 47471324 19283632
    ∷ row "043331" "Szentlőrinci úti lakótelep" 47417200 19130774
    ∷ row "043333" "Szent Orbán tér" 47498503 19008136
    ∷ row "043341" "György utca" 47530940 19171561
    ∷ row "043342" "Illyés Gyula utca" 47559188 19122464
    ∷ row "043343" "Csörsz utca" 47490620 19024650
    ∷ row "043481" "Káposztásmegyer, Aquaworld" 47599639 19112654
    ∷ row "043548" "Csaba vezér tér" 47487256 19286582
    ∷ row "043554" "Enying utca" 47475377 19297911
    ∷ row "043555" "Sport tér" 47477046 19295809
    ∷ row "043556" "Rés utca" 47480202 19291870
    ∷ row "043571" "Dukát utca" 47408202 18991007
    ∷ row "043746" "Kőbányai garázs (Pongrácz kapu)" 47492390 19119545
    ∷ row "043955" "Óbudai autóbuszgarázs (Törökkő kapu)" 47566890 19031889
    ∷ row "044029" "Fenyőgyöngye" 47540451 19006603
    ∷ row "044032" "Szigetszentmiklós, városháza" 47348053 19044870
    ∷ row "044033" "József Attila utca" 47338022 19039575
    ∷ row "044034" "József Attila utca" 47338114 19038215
    ∷ row "044076" "Déli utca" 47423183 19061152
    ∷ row "044115" "Pöttyös utca M" 47468707 19116067
    ∷ row "044125" "Cinkota H" 47520013 19220542
    ∷ row "044126" "Száva kocsiszín" 47466764 19123039
    ∷ row "044127" "Száva kocsiszín" 47466395 19123091
    ∷ row "044128" "Valéria tér" 47466143 19115666
    ∷ row "044129" "Napfény utca" 47458570 19114343
    ∷ row "044130" "Madzsar József utca / Pünkösdfürdő utca" 47595615 19054238
    ∷ row "044131" "Madzsar József utca / Pünkösdfürdő utca" 47595552 19054065
    ∷ row "044135" "Íves út" 47593086 19107022
    ∷ row "044178" "Szent Gellért-templom" 47469313 19025800
    ∷ row "044192" "Békásmegyer H" 47597795 19053787
    ∷ row "044301" "Orczy tér (Baross kocsiszín)" 47489477 19090708
    ∷ row "044368" "Örs vezér tere" 47502847 19135600
    ∷ row "044371" "Budakeszi, Tesco áruház" 47500234 18916821
    ∷ row "044372" "Solymár, Kerekhegy" 47581416 18926389
    ∷ row "044375" "Budaliget, Géza fejedelem útja" 47567575 18936282
    ∷ row "044380" "Dózsa György tér" 47507193 18922432
    ∷ row "044381" "Dózsa György tér" 47507040 18922366
    ∷ row "044382" "Budakeszi, Tiefenweg utca" 47503935 18921006
    ∷ row "044383" "Budakeszi, Tiefenweg utca" 47503557 18921167
    ∷ row "044385" "Csepel, Szent Imre tér tároló" 47430945 19071439
    ∷ row "044388" "Soroksár, Auchan áruház" 47419788 19155599
    ∷ row "044511" "Solymár, PEMÜ" 47597409 18928240
    ∷ row "044557" "Újpest, Árpád út hajóállomás" 47562796 19078314
    ∷ row "044601" "Solymár, Auchan áruház" 47598851 18962078
    ∷ row "044602" "Solymár, temető" 47594948 18940930
    ∷ row "044603" "Solymár, temető" 47595001 18940212
    ∷ row "044637" "Görögkatolikus templom" 47423117 19078036
    ∷ row "044638" "Görögkatolikus templom" 47424034 19077997
    ∷ row "045755" "Maros utca" 47418292 19138131
    ∷ row "045776" "Szenes Iván tér" 47479730 19095859
    ∷ row "047670" "Budakeszi temető" 47514029 18923053
    ∷ row "047806" "Savoya Park" 47436081 19041549
    ∷ row "047875" "Orczy tér (Baross kocsiszín)" 47489544 19090388
    ∷ row "047985" "Szőlőskert utca" 47502140 18916538
    ∷ row "048277" "Kőbánya alsó vasútállomás" 47483130 19127785
    ∷ row "048278" "Művész út" 47495845 18982385
    ∷ row "048279" "Széchenyi-hegy, Gyermekvasút" 47495231 18979453
    ∷ row "048288" "Kálvin tér M" 47489425 19061208
    ∷ row "048302" "Diósdi út" 47433749 18925165
    ∷ row "048303" "Diósdi út" 47433937 18924939
    ∷ row "048304" "Liliom utca" 47431485 18927729
    ∷ row "048305" "Liliom utca" 47430955 18928340
    ∷ row "048471" "Pasaréti tér" 47523609 18994082
    ∷ row "048505" "Szent István Bazilika" 47500141 19054665
    ∷ row "048506" "Szent István Bazilika" 47500273 19055025
    ∷ row "048519" "Rákospalota, Kossuth utca" 47568485 19125534
    ∷ row "048536" "Lehel tér M" 47517759 19060445
    ∷ row "048621" "Széna tér, tároló" 47508681 19027708
    ∷ row "049170" "Szent István utca H" 47391189 19114442
    ∷ row "049171" "Zsellér dűlő" 47391331 19118615
    ∷ row "049172" "Gyáli-patak" 47394741 19116818
    ∷ row "049174" "Soroksár, Kertvárosi körút" 47413022 19136121
    ∷ row "049180" "Dagály fürdő" 47539082 19061698
    ∷ row "049181" "Úszódaru utca" 47546205 19069749
    ∷ row "049186" "Kalotaszeg utca" 47459241 19040896
    ∷ row "049597" "BudaPart" 47468442 19057157
    ∷ row "049784" "Clark Ádám tér" 47498870 19040187
    ∷ row "049785" "Clark Ádám tér" 47499328 19040161
    ∷ row "049903" "Mansfeld Péter park" 47517064 19033228
    ∷ row "049914" "Sörgyár" 47491859 19144405
    ∷ row "050003" "Cinkota H" 47519950 19220289
    ∷ row "050129" "Csapó utca" 47440861 19161363
    ∷ row "050173" "Lincoln út" 47415985 19243460
    ∷ row "050174" "Lőrinci utca" 47416591 19241515
    ∷ row "050175" "Pestszentlőrinc, sorompó" 47421948 19238393
    ∷ row "050176" "Pestszentlőrinc, sorompó" 47422092 19238301
    ∷ row "050177" "Ganztelep, Mednyánszky utca" 47423195 19234780
    ∷ row "050181" "Ferihegy vasútállomás" 47436741 19222565
    ∷ row "050184" "Lőrinci piac" 47443206 19184417
    ∷ row "050187" "Vecsés, Fő út" 47418376 19249486
    ∷ row "050274" "Kossuth Lajos tér M (Szemere utca)" 47506380 19051004
    ∷ row "050279" "Lomnici utca" 47436482 19019517
    ∷ row "056123" "Borsmenta utca" 47572507 19010551
    ∷ row "056124" "Citronella utca" 47571696 19006817
    ∷ row "056161" "Csillaghegy H [1]" 47584340 19044241
    ∷ row "056162" "Mészkő utca [2]" 47579492 19034353
    ∷ row "056163" "Mészkő utca [2]" 47579402 19034313
    ∷ row "056165" "Öregbükk utca [3]" 47581020 19030165
    ∷ row "056166" "Öregbükk utca [3]" 47580966 19030085
    ∷ row "056168" "Cserszömörce utca [4]" 47582575 19026017
    ∷ row "056169" "Cserszömörce utca [4]" 47582485 19025937
    ∷ row "056173" "Mácsonya utca [5]" 47583753 19023757
    ∷ row "056175" "Saroglya utca [6]" 47584391 19022254
    ∷ row "056178" "Csillaghegy H [1]" 47584637 19043138
    ∷ row "056187" "Muzsla utca [11]" 47580911 19024130
    ∷ row "056188" "Óarany utca [10]" 47579094 19023387
    ∷ row "056189" "Ipacsfa utca" 47429408 19168648
    ∷ row "056202" "Kelenföld vasútállomás" 47464403 19020674
    ∷ row "056204" "Szent Gellért tér - Műegyetem" 47483441 19053806
    ∷ row "056206" "Keleti pályaudvar" 47500301 19081213
    ∷ row "056207" "Bikás park" 47464773 19033395
    ∷ row "056209" "Újbuda-központ" 47473991 19046348
    ∷ row "056210" "Móricz Zsigmond körtér" 47477416 19047473
    ∷ row "056211" "Fővám tér" 47486713 19057096
    ∷ row "056212" "Kálvin tér" 47489074 19061480
    ∷ row "056213" "Rákóczi tér" 47492722 19071817
    ∷ row "056214" "II. János Pál pápa tér" 47495300 19077244
    ∷ row "056215" "Kelenföld vasútállomás" 47464515 19019618
    ∷ row "056216" "Kelenföld vasútállomás" 47464255 19020587
    ∷ row "056217" "Bikás park" 47464881 19032345
    ∷ row "056218" "Bikás park" 47465022 19033386
    ∷ row "056219" "Újbuda-központ" 47472860 19045954
    ∷ row "056220" "Újbuda-központ" 47473559 19046266
    ∷ row "056221" "Móricz Zsigmond körtér" 47476629 19047227
    ∷ row "056222" "Móricz Zsigmond körtér" 47477310 19047645
    ∷ []
