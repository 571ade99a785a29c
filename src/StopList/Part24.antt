-- ===== src/StopList/Part24.antt =====
-- Lines 3621 to 3770 of bkk_uds/bkk_stop_list.h.
use mathlib.Core.List.{List, [], ◌∷◌}
use bkk_api.StopList.Row.{BkkStop, row}

unfoldable pub stops_24 : List BkkStop
stops_24 =
    row "F02265" "Állvány utca" 47445586 19028223
    ∷ row "F02266" "Madárhegy" 47462178 18993097
    ∷ row "F02267" "Madárhegy" 47461891 18993986
    ∷ row "F02268" "Csillebérc, KFKI" 47486708 18954844
    ∷ row "F02269" "Csillebérc, KFKI" 47486860 18954419
    ∷ row "F02270" "KFKI étterem" 47489157 18958834
    ∷ row "F02271" "KFKI étterem" 47489365 18959324
    ∷ row "F02272" "Magas út" 47490373 18961127
    ∷ row "F02273" "Magas út" 47490409 18960981
    ∷ row "F02274" "Mindszenty József bíboros tér" 47487243 18989793
    ∷ row "F02275" "Hó utca" 47486417 18992156
    ∷ row "F02276" "Hó utca" 47486489 18992236
    ∷ row "F02277" "Hajnalka utca" 47485024 18994161
    ∷ row "F02278" "Hajnalka utca" 47485258 18994028
    ∷ row "F02279" "Tamási Áron utca" 47493480 19002547
    ∷ row "F02280" "Tamási Áron utca" 47493752 19002473
    ∷ row "F02281" "Mártonhegyi út" 47490631 19002303
    ∷ row "F02282" "Mártonhegyi út" 47490181 19002158
    ∷ row "F02283" "Kempelen Farkas utca" 47487967 19003999
    ∷ row "F02284" "Kempelen Farkas utca" 47487942 19004163
    ∷ row "F02285" "Boldog Teréz anya tér" 47488651 19006811
    ∷ row "F02286" "Boldog Teréz anya tér" 47489182 19007037
    ∷ row "F02287" "Bürök utca" 47491252 19009410
    ∷ row "F02288" "Bürök utca" 47491425 19009959
    ∷ row "F02289" "Szendi árok" 47491441 19011786
    ∷ row "F02290" "Németvölgyi út" 47492487 19012188
    ∷ row "F02291" "Németvölgyi út" 47493513 19011935
    ∷ row "F02292" "Apor Vilmos tér" 47491022 19014087
    ∷ row "F02293" "Apor Vilmos tér" 47491121 19013622
    ∷ row "F02294" "Apor Vilmos tér" 47490932 19013848
    ∷ row "F02295" "Apor Vilmos tér" 47490833 19014339
    ∷ row "F02296" "Vas Gereben utca" 47489078 19009536
    ∷ row "F02297" "Vas Gereben utca" 47489321 19009762
    ∷ row "F02298" "Zólyomi lépcső" 47490383 19011818
    ∷ row "F02299" "Zólyomi lépcső" 47490257 19012216
    ∷ row "F02300" "Apor Vilmos tér" 47490500 19014857
    ∷ row "F02301" "Apor Vilmos tér" 47490402 19015268
    ∷ row "F02302" "Sirály utca" 47489788 19017984
    ∷ row "F02303" "Sirály utca" 47489464 19018197
    ∷ row "F02305" "Kiss János altábornagy utca" 47492055 19016828
    ∷ row "F02306" "Kiss János altábornagy utca" 47492273 19016461
    ∷ row "F02307" "Kiss János altábornagy utca" 47492498 19016647
    ∷ row "F02309" "Nagy Jenő utca" 47492193 19019367
    ∷ row "F02310" "Tartsay Vilmos utca" 47492329 19023906
    ∷ row "F02311" "Tartsay Vilmos utca" 47492401 19024264
    ∷ row "F02313" "Széchenyi-hegy, Gyermekvasút" 47495117 18979500
    ∷ row "F02314" "Művész út" 47496198 18983838
    ∷ row "F02315" "Művész út" 47496244 18984223
    ∷ row "F02316" "Svábhegy" 47497398 18989331
    ∷ row "F02317" "Svábhegy" 47497875 18989768
    ∷ row "F02318" "Városkút" 47500096 18989408
    ∷ row "F02319" "Városkút" 47500357 18989195
    ∷ row "F02320" "Adonis utca" 47503118 18989736
    ∷ row "F02321" "Adonis utca" 47503316 18990107
    ∷ row "F02322" "Erdei iskola" 47507204 18994364
    ∷ row "F02323" "Erdei iskola" 47507393 18994656
    ∷ row "F02324" "Esze Tamás iskola" 47507304 18997935
    ∷ row "F02325" "Esze Tamás iskola" 47507098 18998267
    ∷ row "F02326" "Orgonás" 47506713 19002501
    ∷ row "F02327" "Orgonás" 47506605 19003165
    ∷ row "F02328" "Szent János Kórház" 47508145 19008248
    ∷ row "F02329" "Szent János Kórház" 47508361 19008566
    ∷ row "F02330" "Városmajor" 47509458 19012344
    ∷ row "F02332" "Széll Kálmán tér M (Csaba utca)" 47506728 19022811
    ∷ row "F02333" "Széll Kálmán tér M (Csaba utca)" 47505973 19023169
    ∷ row "F02335" "Maros utca" 47505738 19021762
    ∷ row "F02337" "Barabás Villa" 47504865 19018790
    ∷ row "F02338" "Barabás Villa" 47505099 19018630
    ∷ row "F02339" "Temes utca" 47506789 19015112
    ∷ row "F02340" "Temes utca" 47506663 19015138
    ∷ row "F02341" "Szent János Kórház" 47508712 19009721
    ∷ row "F02342" "Szent János Kórház" 47509116 19009030
    ∷ row "F02343" "Szent János Kórház" 47508325 19008474
    ∷ row "F02344" "Rőzse köz" 47508269 19003509
    ∷ row "F02345" "Rőzse köz" 47508098 19004120
    ∷ row "F02346" "Józsa Béla köz" 47509131 18999858
    ∷ row "F02347" "Józsa Béla köz" 47509212 18999592
    ∷ row "F02348" "Pető Intézet" 47511930 19003984
    ∷ row "F02349" "Pető Intézet" 47512038 19003506
    ∷ row "F02350" "Virányos út" 47512540 19000120
    ∷ row "F02351" "Virányos út" 47512567 19001169
    ∷ row "F02352" "Moholy-Nagy Művészeti Egyetem" 47516628 18990053
    ∷ row "F02353" "Moholy-Nagy Művészeti Egyetem" 47516475 18990199
    ∷ row "F02355" "Fészek utca" 47511783 18997240
    ∷ row "F02356" "Fészek utca" 47511684 18997214
    ∷ row "F02357" "Kútvölgyi lejtő, Traumatológia" 47511380 19000652
    ∷ row "F02358" "Kútvölgyi lejtő, Traumatológia" 47511281 19000785
    ∷ row "F02359" "Zirzen Janka utca" 47511360 18992669
    ∷ row "F02360" "György Aladár utca" 47511411 18989860
    ∷ row "F02361" "György Aladár utca" 47511474 18989435
    ∷ row "F02362" "Kiss Áron utca" 47512850 18989685
    ∷ row "F02364" "Orvosi rendelő" 47483316 18996220
    ∷ row "F02365" "Orvosi rendelő" 47483703 18995861
    ∷ row "F02366" "Hadik András utca" 47509838 18994568
    ∷ row "F02367" "Hadik András utca" 47509929 18993990
    ∷ row "F02368" "Lelesz utca" 47509551 18992915
    ∷ row "F02369" "Lelesz utca" 47509542 18993101
    ∷ row "F02370" "Felső Svábhegyi út" 47508425 18990447
    ∷ row "F02371" "Felső Svábhegyi út" 47508047 18989983
    ∷ row "F02372" "Regőczi István tér" 47507174 18988152
    ∷ row "F02373" "Regőczi István tér" 47507183 18988324
    ∷ row "F02374" "Galgóczy utca" 47511805 18986952
    ∷ row "F02375" "Galgóczy utca" 47511391 18985997
    ∷ row "F02376" "Zalai út" 47511471 18984895
    ∷ row "F02377" "Zalai út" 47511524 18983700
    ∷ row "F02378" "Béla király út" 47510404 18975869
    ∷ row "F02379" "Csillagvölgyi út" 47510395 18975086
    ∷ row "F02380" "Fácános tér" 47511095 18972085
    ∷ row "F02381" "Zugliget, Libegő" 47516476 18976750
    ∷ row "F02382" "Zugliget, Libegő" 47516539 18976219
    ∷ row "F02383" "Lóvasút" 47517099 18980692
    ∷ row "F02384" "Lóvasút" 47516784 18979777
    ∷ row "F02385" "Szarvas Gábor út" 47518072 18983878
    ∷ row "F02386" "Szarvas Gábor út" 47517937 18983652
    ∷ row "F02387" "Adonis utca" 47503046 18989882
    ∷ row "F02388" "Adonis utca" 47503604 18990585
    ∷ row "F02389" "Istenhegyi lejtő" 47505566 18992680
    ∷ row "F02390" "Istenhegyi lejtő" 47505485 18992534
    ∷ row "F02391" "Óra út" 47504642 18997964
    ∷ row "F02392" "Óra út" 47504525 18998004
    ∷ row "F02393" "Nógrádi utca" 47503178 19002916
    ∷ row "F02394" "Nógrádi utca" 47502917 19002186
    ∷ row "F02395" "Pethényi út" 47502828 19005850
    ∷ row "F02396" "Pethényi út" 47502280 19005903
    ∷ row "F02397" "Szent Orbán tér" 47499646 19009608
    ∷ row "F02398" "Szent Orbán tér" 47499430 19010206
    ∷ row "F02399" "Szent Orbán tér" 47499223 19009011
    ∷ row "F02400" "Szent Orbán tér" 47499340 19008640
    ∷ row "F02401" "Szent Orbán tér" 47499340 19008295
    ∷ row "F02402" "Istenhegyi út" 47498515 19016948
    ∷ row "F02403" "Tóth Lőrinc utca" 47499657 19017611
    ∷ row "F02404" "Goldmark Károly utca" 47501797 19015553
    ∷ row "F02405" "Határőr út" 47503497 19016043
    ∷ row "F02406" "Ráth György utca" 47500027 19020717
    ∷ row "F02407" "Kék Golyó utca" 47497814 19021129
    ∷ row "F02408" "Kék Golyó utca" 47497571 19020891
    ∷ row "F02409" "Kék Golyó utca" 47497293 19020652
    ∷ row "F02411" "Kék Golyó utca" 47497994 19020837
    ∷ row "F02412" "Királyhágó tér" 47494819 19019167
    ∷ row "F02413" "Királyhágó tér" 47495743 19018990
    ∷ row "F02414" "Királyhágó tér" 47495521 19019711
    ∷ row "F02415" "Márvány utca" 47494540 19020547
    ∷ row "F02416" "Csörsz utca" 47490206 19024437
    ∷ row "F02417" "Csörsz utca" 47490782 19024447
    ∷ row "F02420" "Királyhágó tér" 47494783 19018848
    ∷ row "F02421" "Királyhágó tér" 47494972 19019260
    ∷ row "F02422" "Agárdi út" 47495169 19015235
    ∷ row "F02423" "Galántai utca" 47497219 19013990
    ∷ row "F02424" "Galántai utca" 47497282 19013233
    ∷ row "F02425" "Nárcisz utca" 47495806 19011071
    ∷ []
