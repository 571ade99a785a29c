-- ===== src/StopList/Part28.antt =====
-- Lines 4221 to 4370 of bkk_uds/bkk_stop_list.h.
use mathlib.Core.List.{List, [], ◌∷◌}
use bkk_api.StopList.Row.{BkkStop, row}

unfoldable pub stops_28 : List BkkStop
stops_28 =
    row "F02938" "Gödöllői utca" 47515352 19133728
    ∷ row "F02939" "Gödöllői utca" 47515633 19133070
    ∷ row "F02940" "Cinkotai út / Mogyoródi út" 47522633 19138347
    ∷ row "F02941" "Miskolci utca / Szugló utca" 47524595 19124514
    ∷ row "F02942" "Miskolci utca / Szugló utca" 47524739 19124833
    ∷ row "F02943" "Fűrész utca / Szugló utca" 47520074 19119223
    ∷ row "F02944" "Fűrész utca / Szugló utca" 47519688 19118944
    ∷ row "F02945" "Kerékgyártó utca" 47532533 19116770
    ∷ row "F02946" "Kerékgyártó utca" 47532298 19117487
    ∷ row "F02947" "Fűrész utca" 47526272 19104973
    ∷ row "F02948" "Fűrész utca" 47525785 19104691
    ∷ row "F02951" "Fűrész utca" 47527397 19098651
    ∷ row "F02952" "Nezsider park" 47527477 19101107
    ∷ row "F02953" "Nezsider park" 47526722 19100628
    ∷ row "F02954" "Sárrét park" 47533744 19106029
    ∷ row "F02955" "Sárrét park" 47533231 19105788
    ∷ row "F02956" "Posta Járműtelep" 47510213 19112523
    ∷ row "F02957" "Posta Járműtelep" 47510203 19112214
    ∷ row "F02960" "Amerikai út" 47514264 19103391
    ∷ row "F02961" "Amerikai út" 47513581 19102501
    ∷ row "F02962" "Laky Adolf utca" 47519645 19097436
    ∷ row "F02963" "Laky Adolf utca" 47519977 19097729
    ∷ row "F02966" "Kerékgyártó utca" 47521323 19105830
    ∷ row "F02967" "Kerékgyártó utca" 47521296 19106268
    ∷ row "F02968" "Tihamér utca" 47507085 19133055
    ∷ row "F02969" "Tihamér utca" 47506977 19133466
    ∷ row "F02970" "Tihamér utca" 47506826 19133475
    ∷ row "F02971" "Jeszenák János utca" 47511750 19125216
    ∷ row "F02972" "Jeszenák János utca" 47511588 19125680
    ∷ row "F02973" "Jeszenák János utca" 47511436 19125730
    ∷ row "F02974" "Amerikai út (Mexikói út M)" 47522264 19092857
    ∷ row "F02977" "Ajtósi Dürer sor" 47514627 19094934
    ∷ row "F02978" "Ajtósi Dürer sor" 47513566 19095743
    ∷ row "F02979" "Ajtósi Dürer sor" 47513448 19096262
    ∷ row "F02980" "Ajtósi Dürer sor" 47513835 19095758
    ∷ row "F02981" "Besztercebányai utca" 47541418 19171851
    ∷ row "F02982" "Besztercebányai utca" 47541472 19171639
    ∷ row "F02983" "György utca" 47537838 19164139
    ∷ row "F02984" "Rákospalotai határút" 47537837 19164790
    ∷ row "F02985" "Szentmihályi út" 47537200 19162956
    ∷ row "F02986" "Rákospalotai határút" 47536661 19162251
    ∷ row "F02987" "János utca" 47534423 19161051
    ∷ row "F02988" "Rákospalotai határút" 47528872 19152527
    ∷ row "F02989" "Rákospalotai határút" 47528458 19153097
    ∷ row "F02990" "Rákóczi út" 47529718 19152688
    ∷ row "F02991" "Rigó utca" 47528586 19150547
    ∷ row "F02992" "Rákospalotai határút" 47527159 19148088
    ∷ row "F02993" "Pálya utca" 47525494 19148775
    ∷ row "F02994" "József utca" 47532493 19156637
    ∷ row "F02995" "Rákospalota, Csömöri-patak" 47590073 19122428
    ∷ row "F02996" "Rákospalota, Csömöri-patak" 47590316 19122667
    ∷ row "F02997" "Visonta utca" 47586026 19120973
    ∷ row "F02998" "Visonta utca" 47587042 19121865
    ∷ row "F02999" "Kanizsai Dorottya utca" 47582689 19121766
    ∷ row "F03000" "Kanizsai Dorottya utca" 47585530 19124575
    ∷ row "F03001" "Bútorraktár" 47582302 19123308
    ∷ row "F03003" "Rákospalota, MEDIMPEX" 47586774 19133245
    ∷ row "F03004" "Károlyi Sándor út" 47585758 19132552
    ∷ row "F03005" "Hulladékhasznosító Mű" 47583709 19130488
    ∷ row "F03008" "Szántóföld utca" 47576135 19132124
    ∷ row "F03009" "Régi Fóti út" 47572775 19138485
    ∷ row "F03010" "Vághó Ferenc utca" 47574373 19130035
    ∷ row "F03011" "Kosd utca" 47572034 19130842
    ∷ row "F03012" "Rákospalota, Bogáncs utca" 47570341 19134255
    ∷ row "F03013" "Esthajnal utca" 47571884 19126948
    ∷ row "F03014" "Esthajnal utca" 47571821 19127001
    ∷ row "F03015" "Közvágóhíd tér" 47572273 19124436
    ∷ row "F03016" "Közvágóhíd tér" 47572182 19124901
    ∷ row "F03017" "Kovácsi Kálmán tér" 47573938 19121674
    ∷ row "F03018" "Kovácsi Kálmán tér" 47574361 19122180
    ∷ row "F03019" "Géza fejedelem tér" 47568385 19118055
    ∷ row "F03020" "Géza fejedelem tér" 47568592 19117962
    ∷ row "F03021" "Géza fejedelem tér" 47568176 19116776
    ∷ row "F03022" "Géza fejedelem tér" 47568581 19117162
    ∷ row "F03023" "Dal utca" 47567295 19121017
    ∷ row "F03024" "Fő út" 47566467 19122491
    ∷ row "F03025" "Csobogós utca" 47569492 19126878
    ∷ row "F03026" "Rákospalota, Kossuth utca" 47568755 19126305
    ∷ row "F03027" "Rákospalota, Kossuth utca" 47568044 19125892
    ∷ row "F03028" "Rákospalota, Kossuth utca" 47567400 19125071
    ∷ row "F03029" "Rákospalota, Kossuth utca" 47567472 19124845
    ∷ row "F03030" "Rákospalota, Kossuth utca" 47567236 19124575
    ∷ row "F03032" "Sportcentrum" 47574621 19135099
    ∷ row "F03033" "Rákospalota, Kossuth utca" 47567612 19127194
    ∷ row "F03034" "Kossuth utca, lakótelep" 47565568 19129862
    ∷ row "F03035" "Kossuth utca, lakótelep" 47566693 19128827
    ∷ row "F03036" "Juhos utca" 47564491 19127455
    ∷ row "F03037" "Juhos utca" 47564939 19128917
    ∷ row "F03038" "Epres sor" 47562182 19123625
    ∷ row "F03039" "Epres sor" 47561651 19123225
    ∷ row "F03040" "Epres sor" 47562074 19123199
    ∷ row "F03041" "Cserba Elemér út" 47559445 19127620
    ∷ row "F03042" "Telek utca" 47559271 19131393
    ∷ row "F03043" "Rákosmező utca 39." 47560810 19130147
    ∷ row "F03045" "Széchenyi tér" 47564783 19121077
    ∷ row "F03046" "Széchenyi tér" 47564491 19120815
    ∷ row "F03047" "Rákospalota, Széchenyi tér" 47563308 19120636
    ∷ row "F03048" "Hubay Jenő tér" 47562905 19117925
    ∷ row "F03049" "Deák utca" 47563941 19115667
    ∷ row "F03050" "Hubay Jenő tér" 47563496 19115618
    ∷ row "F03051" "Fő út" 47563645 19112916
    ∷ row "F03052" "Sződliget utca" 47563825 19113289
    ∷ row "F03053" "Hubay Jenő tér" 47562673 19114669
    ∷ row "F03054" "Hubay Jenő tér" 47562430 19114696
    ∷ row "F03055" "Hubay Jenő tér" 47561800 19115399
    ∷ row "F03056" "Beller Imre utca" 47561556 19117498
    ∷ row "F03057" "Beller Imre utca" 47561159 19118853
    ∷ row "F03058" "Illyés Gyula utca" 47558640 19120697
    ∷ row "F03059" "Illyés Gyula utca" 47559090 19121069
    ∷ row "F03060" "Illyés Gyula utca" 47559170 19122185
    ∷ row "F03061" "Fazekas sor" 47557202 19125894
    ∷ row "F03062" "Bezerédj Pál utca" 47556712 19126394
    ∷ row "F03063" "Bezerédj Pál utca" 47557333 19125651
    ∷ row "F03064" "Aulich Lajos utca" 47553893 19131677
    ∷ row "F03065" "Aulich Lajos utca" 47553335 19132155
    ∷ row "F03066" "Szerencs utca" 47553321 19111801
    ∷ row "F03067" "Szerencs utca" 47552826 19111708
    ∷ row "F03068" "Eötvös utca 74." 47555811 19112973
    ∷ row "F03069" "Arany János utca" 47555614 19112747
    ∷ row "F03070" "Rákos úti szakrendelő" 47554621 19118951
    ∷ row "F03071" "Rákos úti szakrendelő" 47553355 19118394
    ∷ row "F03072" "Rákos úti szakrendelő" 47553838 19118777
    ∷ row "F03073" "Rákos úti szakrendelő" 47553973 19119415
    ∷ row "F03074" "Pázmány Péter utca" 47550850 19107401
    ∷ row "F03075" "Pázmány Péter utca" 47550985 19107614
    ∷ row "F03076" "Dugonics utca" 47550814 19110724
    ∷ row "F03077" "Dugonics utca" 47550551 19110376
    ∷ row "F03078" "Istvántelek vasútállomás (Wysocki utca)" 47548826 19107013
    ∷ row "F03079" "Istvántelek vasútállomás (Wysocki utca)" 47548493 19107332
    ∷ row "F03080" "Patyolat utca" 47547116 19109615
    ∷ row "F03081" "Patyolat utca" 47547044 19109562
    ∷ row "F03082" "Széchenyi út" 47546089 19113148
    ∷ row "F03083" "Széchenyi út" 47545109 19112482
    ∷ row "F03084" "Wysocki utca / Rákos út" 47546216 19111009
    ∷ row "F03085" "Wysocki utca / Rákos út" 47545640 19111712
    ∷ row "F03086" "Széchenyi út" 47544217 19114899
    ∷ row "F03087" "Széchenyi út" 47543740 19114925
    ∷ row "F03088" "Rákos út" 47542226 19107460
    ∷ row "F03089" "Rekettye utca" 47541568 19107856
    ∷ row "F03090" "Perczel Mór utca" 47538750 19112700
    ∷ row "F03091" "Perczel Mór utca" 47539245 19111731
    ∷ row "F03092" "Kolozsvár utcai piac" 47537274 19115025
    ∷ row "F03094" "Pestújhelyi tér" 47534039 19124368
    ∷ row "F03095" "Pestújhelyi tér" 47534264 19124741
    ∷ row "F03096" "Sztárai Mihály tér" 47540080 19128760
    ∷ row "F03097" "Sztárai Mihály tér" 47539630 19128600
    ∷ row "F03098" "Sztárai Mihály tér" 47539927 19128335
    ∷ row "F03099" "Sztárai Mihály tér" 47539810 19128999
    ∷ row "F03100" "Vág utca" 47540104 19119755
    ∷ row "F03101" "Vág utca" 47539969 19119303
    ∷ []
