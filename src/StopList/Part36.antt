-- ===== src/StopList/Part36.antt =====
-- Lines 5421 to 5570 of bkk_uds/bkk_stop_list.h.
use mathlib.Core.List.{List, [], ◌∷◌}
use bkk_api.StopList.Row.{BkkStop, row}

unfoldable pub stops_36 : List BkkStop
stops_36 =
    row "F04260" "Árnyas utca" 47398285 19098476
    ∷ row "F04261" "Denevér utca" 47397161 19099071
    ∷ row "F04262" "Sólyom utca" 47395280 19100433
    ∷ row "F04263" "Sólyom utca" 47395613 19100089
    ∷ row "F04264" "Sáska utca" 47394398 19101691
    ∷ row "F04265" "Hárosi Csárda" 47388580 19028179
    ∷ row "F04266" "Hárosi Csárda" 47387833 19026630
    ∷ row "F04267" "Karácsony Sándor utca H" 47426186 19067104
    ∷ row "F04268" "Karácsony Sándor utca H" 47426933 19066375
    ∷ row "F04269" "Mansfeld Péter utca" 47425629 19062982
    ∷ row "F04273" "Vas Gereben utca" 47413280 19058619
    ∷ row "F04274" "Vas Gereben utca" 47412228 19057334
    ∷ row "F04276" "Csepel, Csillagtelep" 47410168 19060487
    ∷ row "F04277" "Csepel, Csillagtelep" 47410438 19060646
    ∷ row "F04278" "Karácsony Sándor utca" 47425916 19069927
    ∷ row "F04279" "Karácsony Sándor utca" 47427418 19070219
    ∷ row "F04280" "Kölcsey utca" 47409952 19062169
    ∷ row "F04281" "Szabadság utca" 47410069 19062898
    ∷ row "F04282" "Jupiter utca" 47408369 19062129
    ∷ row "F04283" "Tejút utca" 47410636 19056207
    ∷ row "F04284" "Tejút utca" 47409997 19055491
    ∷ row "F04285" "Csepeli temető" 47405716 19053252
    ∷ row "F04286" "Csepeli temető" 47405950 19053583
    ∷ row "F04287" "Fácánhegyi utca" 47399762 19050907
    ∷ row "F04288" "Fácánhegyi utca" 47399762 19051158
    ∷ row "F04289" "Almafa utca" 47393780 19040270
    ∷ row "F04290" "Almafa utca" 47393762 19039899
    ∷ row "F04291" "Kossuth Lajos utca (Völgy utca)" 47419153 19066333
    ∷ row "F04292" "Völgy utca" 47419045 19065471
    ∷ row "F04293" "Völgy utca" 47419009 19065710
    ∷ row "F04294" "Csepel H" 47421824 19065751
    ∷ row "F04295" "Deák tér" 47426239 19072273
    ∷ row "F04296" "Deák tér" 47427013 19072180
    ∷ row "F04297" "Csepeli híd" 47460561 19071904
    ∷ row "F04298" "Csepeli híd" 47460651 19072262
    ∷ row "F04299" "Szállító utca 6." 47441958 19083788
    ∷ row "F04300" "Közterületfenntartó Zrt." 47441942 19076642
    ∷ row "F04301" "Közterületfenntartó Zrt." 47441942 19076854
    ∷ row "F04302" "Szállító utca" 47441753 19077835
    ∷ row "F04306" "Papírgyár" 47434682 19081542
    ∷ row "F04307" "Papírgyár" 47435006 19083173
    ∷ row "F04311" "Corvin-csomópont" 47438831 19071563
    ∷ row "F04312" "Corvin-csomópont" 47438013 19071708
    ∷ row "F04314" "Kossuth Lajos utca / Ady Endre út" 47434658 19070606
    ∷ row "F04315" "Kossuth Lajos utca / Ady Endre út" 47434217 19070779
    ∷ row "F04316" "Védgát utca" 47435008 19076399
    ∷ row "F04317" "Védgát utca" 47434882 19076704
    ∷ row "F04318" "Szent Imre tér H" 47429802 19067397
    ∷ row "F04320" "Szent Imre tér H" 47431250 19067848
    ∷ row "F04321" "Kiss János altábornagy utca" 47431861 19071467
    ∷ row "F04323" "Szent Imre tér" 47431222 19070327
    ∷ row "F04324" "Szent Imre tér" 47431231 19070512
    ∷ row "F04325" "Kossuth Lajos utca" 47430359 19071241
    ∷ row "F04327" "Csepel, Szent Imre tér" 47430766 19070511
    ∷ row "F04328" "Csepel, Szent Imre tér" 47430775 19070617
    ∷ row "F04329" "Csepel, Szent Imre tér" 47430775 19070737
    ∷ row "F04330" "Csepel, Szent Imre tér" 47430766 19070856
    ∷ row "F04332" "Csepel, Szent Imre tér" 47430757 19070975
    ∷ row "F04334" "Iskola tér" 47411480 19065522
    ∷ row "F04335" "Iskola tér" 47411328 19065403
    ∷ row "F04336" "Csepel H" 47421572 19065750
    ∷ row "F04337" "Rákóczi tér" 47422639 19080461
    ∷ row "F04338" "Rákóczi tér" 47422589 19080105
    ∷ row "F04339" "Csepeli Mátyás utca" 47417846 19076377
    ∷ row "F04340" "Cseh Mihály utca" 47417630 19076907
    ∷ row "F04341" "Hollandi csárda" 47411831 19097892
    ∷ row "F04342" "Hollandi csárda" 47412308 19097469
    ∷ row "F04343" "Uzsoki utca" 47395859 19092036
    ∷ row "F04344" "Uzsoki utca" 47395517 19092433
    ∷ row "F04345" "Csorbatói utca" 47393259 19094126
    ∷ row "F04346" "Csorbatói utca" 47393124 19094365
    ∷ row "F04347" "Olt utca" 47398504 19089879
    ∷ row "F04348" "Orsova utca" 47398144 19090302
    ∷ row "F04349" "Erdősor utca" 47416707 19061336
    ∷ row "F04350" "Erdősor utca" 47416869 19061787
    ∷ row "F04351" "Szilvafa utca" 47395526 19043542
    ∷ row "F04352" "Szilvafa utca" 47395139 19043052
    ∷ row "F04353" "Vízművek lakótelep" 47391522 19035701
    ∷ row "F04354" "Vízművek lakótelep" 47391217 19035343
    ∷ row "F04355" "Vámhivatal" 47441959 19080341
    ∷ row "F04356" "Vámhivatal" 47441959 19080553
    ∷ row "F04357" "Szállító utca 6." 47441958 19083562
    ∷ row "F04358" "Szabadkikötő H" 47444767 19071804
    ∷ row "F04359" "Szabadkikötő H" 47444596 19072016
    ∷ row "F04360" "Technikus utca" 47414458 19064092
    ∷ row "F04361" "Technikus utca" 47415339 19063032
    ∷ row "F04362" "Határ utca" 47416330 19093232
    ∷ row "F04363" "Határ utca" 47416663 19092861
    ∷ row "F04364" "Csepel, Határ utca" 47416060 19093126
    ∷ row "F04365" "Csepel, Határ utca" 47416199 19093207
    ∷ row "F04366" "Erdősor utca" 47416536 19062251
    ∷ row "F04367" "Kossuth Lajos utca" 47416922 19063032
    ∷ row "F04370" "Tordai út" 47440582 19012568
    ∷ row "F04371" "Tordai út" 47439655 19012794
    ∷ row "F04373" "Szabina út" 47436814 19014122
    ∷ row "F04374" "Lomnici utca" 47436428 19020101
    ∷ row "F04375" "Pék utca" 47442283 19018507
    ∷ row "F04376" "Pék utca" 47442382 19018056
    ∷ row "F04377" "Rózsavölgy felső" 47441043 19023094
    ∷ row "F04378" "Rózsavölgy felső" 47441025 19022882
    ∷ row "F04379" "Rózsavölgy alsó" 47438409 19030360
    ∷ row "F04380" "Rózsavölgy alsó" 47438193 19030705
    ∷ row "F04381" "Leányka utcai lakótelep" 47432195 19037229
    ∷ row "F04382" "Leányka utcai lakótelep" 47432501 19037282
    ∷ row "F04383" "Leányka utcai lakótelep" 47433121 19036857
    ∷ row "F04384" "Leányka utcai lakótelep" 47432411 19037454
    ∷ row "F04389" "Balatoni út / Dózsa György út" 47419207 18983495
    ∷ row "F04390" "Balatoni út / Dózsa György út" 47419396 18983428
    ∷ row "F04391" "Dózsa György út / Kamaraerdei út" 47422225 18975950
    ∷ row "F04392" "Dózsa György út / Kamaraerdei út" 47422405 18975725
    ∷ row "F04393" "Mechanikai Művek" 47425962 18969053
    ∷ row "F04394" "Memento Park" 47425926 19001432
    ∷ row "F04395" "Jégmadár utca" 47430605 19005537
    ∷ row "F04396" "Savoyai Jenő tér" 47429875 19037786
    ∷ row "F04397" "Savoyai Jenő tér" 47429614 19037879
    ∷ row "F04398" "Savoyai Jenő tér" 47429587 19037773
    ∷ row "F04400" "Savoyai Jenő tér" 47428903 19037229
    ∷ row "F04402" "Savoyai Jenő tér" 47429065 19037574
    ∷ row "F04403" "Városház tér" 47426493 19038303
    ∷ row "F04404" "Városház tér" 47426349 19039510
    ∷ row "F04405" "Városház tér" 47427087 19039165
    ∷ row "F04406" "Városház tér" 47426700 19039244
    ∷ row "F04407" "Tóth József utca" 47421744 19041551
    ∷ row "F04408" "Tóth József utca" 47421807 19041101
    ∷ row "F04410" "Komló utca" 47421663 19035773
    ∷ row "F04411" "Kereszt utca" 47422436 19035879
    ∷ row "F04412" "Budafoki temető" 47423021 19034050
    ∷ row "F04413" "Mező utca" 47421788 19032129
    ∷ row "F04414" "Víg utca (Sporttelep)" 47422858 19029716
    ∷ row "F04415" "Víg utca (Sporttelep)" 47422912 19030299
    ∷ row "F04416" "Lőcsei utca" 47423811 19025064
    ∷ row "F04417" "Lőcsei utca" 47423810 19024388
    ∷ row "F04418" "Árpád utca" 47426032 19023234
    ∷ row "F04419" "Árpád utca" 47426643 19022836
    ∷ row "F04420" "Arany János utca" 47428352 19023829
    ∷ row "F04421" "Regényes utca" 47429800 19021430
    ∷ row "F04422" "Kiránduló utca" 47427713 19020291
    ∷ row "F04423" "Arató utca" 47424412 19020014
    ∷ row "F04424" "Arató utca" 47424394 19020558
    ∷ row "F04425" "Kazinczy utca" 47425032 19016131
    ∷ row "F04426" "Kazinczy utca" 47424996 19017058
    ∷ row "F04427" "Karácsony utca" 47425642 19012737
    ∷ row "F04428" "Karácsony utca" 47425651 19012247
    ∷ row "F04429" "Liszt Ferenc út" 47428123 19008508
    ∷ row "F04430" "Liszt Ferenc út" 47428510 19007951
    ∷ row "F04431" "Háros utca" 47411327 19026236
    ∷ row "F04432" "Háros utca" 47411470 19025944
    ∷ row "F04433" "Háros vasútállomás" 47412380 19032622
    ∷ row "F04434" "Háros vasútállomás" 47412479 19033735
    ∷ row "F04435" "Vágóhíd utca" 47414225 19038478
    ∷ []
