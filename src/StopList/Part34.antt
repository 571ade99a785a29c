-- ===== src/StopList/Part34.antt =====
-- Lines 5121 to 5270 of bkk_uds/bkk_stop_list.h.
use mathlib.Core.List.{List, [], ◌∷◌}
use bkk_api.StopList.Row.{BkkStop, row}

unfoldable pub stops_34 : List BkkStop
stops_34 =
    row "F03924" "Győri Ottmár tér" 47459674 19126397
    ∷ row "F03925" "Győri Ottmár tér" 47459179 19126516
    ∷ row "F03926" "Corvin körút" 47460399 19131663
    ∷ row "F03927" "Corvin körút" 47460192 19132127
    ∷ row "F03928" "Határ út M" 47464665 19127771
    ∷ row "F03929" "Határ út M" 47465093 19127310
    ∷ row "F03930" "Határ út M" 47465151 19127254
    ∷ row "F03931" "Lehel utca" 47459475 19140256
    ∷ row "F03932" "Lehel utca" 47459312 19140826
    ∷ row "F03933" "Lehel utca" 47459466 19139990
    ∷ row "F03934" "Lehel utca" 47459781 19139527
    ∷ row "F03940" "Kőbánya-Kispest M" 47461958 19149597
    ∷ row "F03941" "Kőbánya-Kispest M" 47462138 19150062
    ∷ row "F03942" "Sós utca" 47459126 19149287
    ∷ row "F03943" "Wesselényi utca" 47461470 19152978
    ∷ row "F03944" "Wesselényi utca" 47460551 19154422
    ∷ row "F03945" "Kispest, Kossuth tér" 47458247 19145757
    ∷ row "F03946" "Kossuth tér" 47457745 19144483
    ∷ row "F03947" "Kossuth tér" 47457501 19144841
    ∷ row "F03948" "Kispest, Kossuth tér" 47458087 19143144
    ∷ row "F03949" "Kossuth tér" 47457727 19144284
    ∷ row "F03950" "Simonyi Zsigmond utca" 47457455 19146870
    ∷ row "F03951" "Fő utca" 47456105 19147875
    ∷ row "F03952" "Fő utca" 47456546 19147094
    ∷ row "F03953" "Fő utca" 47456321 19147610
    ∷ row "F03954" "Fő utca" 47456627 19147120
    ∷ row "F03955" "Kisfaludy utca" 47454149 19142050
    ∷ row "F03956" "Ady Endre út (Báthory utca)" 47454662 19140910
    ∷ row "F03957" "Ady Endre út (Hunyadi utca)" 47454475 19139120
    ∷ row "F03958" "Hungária út (Rendőrség)" 47456096 19136643
    ∷ row "F03959" "Hungária út (Rendőrség)" 47456032 19137253
    ∷ row "F03960" "Hungária út (Rendőrség)" 47456311 19137412
    ∷ row "F03961" "Hungária út (Rendőrség)" 47455987 19138035
    ∷ row "F03963" "Bárczy István tér" 47455910 19132505
    ∷ row "F03964" "Bárczy István tér" 47455776 19131219
    ∷ row "F03965" "Zoltán utca" 47451524 19127671
    ∷ row "F03966" "Zoltán utca" 47451731 19127234
    ∷ row "F03967" "Thököly utca" 47453237 19121150
    ∷ row "F03968" "Thököly utca" 47452950 19121348
    ∷ row "F03969" "Pannónia út / Zalaegerszeg utca" 47450824 19125602
    ∷ row "F03970" "Pannónia út / Zalaegerszeg utca" 47450852 19124501
    ∷ row "F03971" "Hunyadi tér" 47449291 19131222
    ∷ row "F03972" "Hunyadi tér" 47449265 19130705
    ∷ row "F03973" "Hunyadi tér" 47448788 19130677
    ∷ row "F03974" "Hunyadi tér" 47448706 19131632
    ∷ row "F03975" "Áchim András utca" 47452274 19135655
    ∷ row "F03976" "Áchim András utca" 47451753 19135071
    ∷ row "F03977" "Kossuth Lajos utca / Ady Endre út" 47449765 19145781
    ∷ row "F03978" "Kossuth Lajos utca / Ady Endre út" 47449900 19146153
    ∷ row "F03979" "Kossuth Lajos utca / Ady Endre út" 47450059 19146464
    ∷ row "F03980" "Kossuth Lajos utca / Ady Endre út" 47450152 19146167
    ∷ row "F03981" "Kossuth Lajos utca / Nádasdy utca" 47444645 19137472
    ∷ row "F03982" "Kossuth Lajos utca / Nádasdy utca" 47444555 19138082
    ∷ row "F03983" "Kossuth Lajos utca / Nádasdy utca" 47444114 19138095
    ∷ row "F03984" "Kossuth Lajos utca / Nádasdy utca" 47444771 19138573
    ∷ row "F03985" "Zalaegerszeg utca" 47442524 19135944
    ∷ row "F03986" "Vas Gereben utca / Zalaegerszeg utca" 47440723 19138566
    ∷ row "F03989" "Kispest, Vas Gereben utca" 47442439 19140637
    ∷ row "F03990" "Kispest, Vas Gereben utca" 47441720 19140928
    ∷ row "F03991" "Kispest, Vas Gereben utca" 47441404 19141935
    ∷ row "F03992" "Hofherr Albert utca" 47438477 19146105
    ∷ row "F03993" "Hofherr Albert utca" 47438539 19147431
    ∷ row "F03994" "Áchim András utca / Hofherr Albert utca" 47441226 19149902
    ∷ row "F03995" "Ipolyság utca" 47436396 19150887
    ∷ row "F03996" "Ipolyság utca" 47436098 19151748
    ∷ row "F03997" "Kassa utca" 47436814 19155992
    ∷ row "F03998" "Kassa utca" 47436337 19155726
    ∷ row "F03999" "Kassa utca" 47436490 19156243
    ∷ row "F04000" "Bozsik Stadion (Ady Endre út)" 47444551 19153528
    ∷ row "F04002" "Vas Gereben utca / Ady Endre út" 47447523 19149291
    ∷ row "F04003" "Vas Gereben utca / Ady Endre út" 47447793 19149543
    ∷ row "F04004" "Vas Gereben utca / Ady Endre út" 47447684 19149835
    ∷ row "F04005" "Bocskai utca" 47459149 19157966
    ∷ row "F04006" "Bocskai utca" 47458739 19158688
    ∷ row "F04014" "Határ út M" 47464575 19127293
    ∷ row "F04015" "Határ út M" 47464809 19127094
    ∷ row "F04017" "Határ út M" 47464459 19126709
    ∷ row "F04018" "Határ út M" 47464180 19126961
    ∷ row "F04019" "Határ út M" 47464197 19127743
    ∷ row "F04020" "Templom tér" 47452322 19143280
    ∷ row "F04021" "Templom tér" 47452826 19142459
    ∷ row "F04022" "Templom tér" 47452574 19142697
    ∷ row "F04023" "Templom tér" 47452175 19143179
    ∷ row "F04024" "Batthyány utca" 47446572 19134691
    ∷ row "F04025" "Batthyány utca" 47446798 19134228
    ∷ row "F04026" "Áchim András utca / Kossuth Lajos utca" 47447079 19141971
    ∷ row "F04027" "Áchim András utca / Kossuth Lajos utca" 47447385 19142250
    ∷ row "F04028" "Villanytelep" 47452517 19156289
    ∷ row "F04029" "Villanytelep" 47452661 19156209
    ∷ row "F04030" "Villanytelep" 47452454 19156673
    ∷ row "F04031" "Villanytelep" 47452622 19156547
    ∷ row "F04033" "Madarassy László utca" 47440035 19143881
    ∷ row "F04034" "Madarassy László utca" 47440440 19143497
    ∷ row "F04035" "Mészáros Lőrinc utca / Vas Gereben utca" 47444029 19143888
    ∷ row "F04036" "Szegfű utca" 47445960 19146915
    ∷ row "F04037" "Pannónia út" 47447662 19124938
    ∷ row "F04038" "Irányi utca" 47447119 19125225
    ∷ row "F04039" "Kispest, Tulipán utca" 47445694 19152669
    ∷ row "F04041" "Baross utca" 47432893 19104221
    ∷ row "F04042" "Nagykőrösi út" 47445086 19124931
    ∷ row "F04043" "Nagykőrösi út" 47444861 19124798
    ∷ row "F04044" "Pöltenberg utca" 47433042 19111711
    ∷ row "F04045" "Ady Endre tér" 47432600 19127352
    ∷ row "F04046" "Ady Endre tér" 47432340 19127073
    ∷ row "F04048" "Ady Endre tér" 47432906 19128426
    ∷ row "F04049" "Szilágyság utca" 47432881 19136949
    ∷ row "F04050" "Torontál utca H" 47423511 19104901
    ∷ row "F04051" "Torontál utca H" 47422549 19105231
    ∷ row "F04054" "Nagysándor József utca" 47432570 19103028
    ∷ row "F04055" "Nagysándor József utca" 47432588 19102856
    ∷ row "F04056" "Tinódi utca" 47429087 19106099
    ∷ row "F04057" "Tinódi utca" 47428576 19106552
    ∷ row "F04058" "Klapka utca" 47427323 19108006
    ∷ row "F04059" "Torontál utca" 47426604 19108668
    ∷ row "F04060" "Pöltenberg utca" 47430714 19108964
    ∷ row "F04061" "Székelyhíd utca" 47430710 19115486
    ∷ row "F04062" "Klapka utca" 47431267 19116162
    ∷ row "F04063" "Wesselényi utca" 47427982 19119710
    ∷ row "F04064" "Wesselényi utca" 47428207 19120015
    ∷ row "F04065" "Jósika utca" 47429149 19123542
    ∷ row "F04066" "Jósika utca" 47428681 19124045
    ∷ row "F04067" "Szalárdi Mór utca" 47429544 19125544
    ∷ row "F04068" "Wesselényi utca / Eperjes utca" 47431154 19125666
    ∷ row "F04069" "Wesselényi utca / Eperjes utca" 47431181 19124937
    ∷ row "F04070" "Eperjes utca" 47429442 19129932
    ∷ row "F04071" "Pacsirta utca" 47428418 19127120
    ∷ row "F04072" "Királyhágó utca" 47427277 19126045
    ∷ row "F04073" "Előd utca" 47425827 19128084
    ∷ row "F04074" "Királyhágó utca" 47427196 19126310
    ∷ row "F04075" "Előd utca" 47425323 19128958
    ∷ row "F04077" "Vágóhíd utca" 47419341 19116677
    ∷ row "F04078" "Előd utca" 47420490 19119448
    ∷ row "F04080" "Ábrahám Géza utca" 47421219 19119105
    ∷ row "F04081" "Pesterzsébet, Pacsirtatelep" 47422179 19122499
    ∷ row "F04082" "Jahn Ferenc Kórház" 47423999 19131089
    ∷ row "F04083" "Jahn Ferenc Kórház" 47423522 19131831
    ∷ row "F04084" "Jahn Ferenc Kórház" 47423756 19131116
    ∷ row "F04085" "Írisz utca" 47417219 19140408
    ∷ row "F04086" "Írisz utca" 47417534 19140130
    ∷ row "F04087" "Hunyadi János tér" 47435587 19139141
    ∷ row "F04088" "Udvarhely utca" 47437965 19134359
    ∷ row "F04089" "Temesvár utca / Mártírok útja" 47435889 19131930
    ∷ row "F04090" "Temesvár utca / Mártírok útja" 47436447 19131308
    ∷ row "F04092" "Ady Endre tér" 47433293 19127021
    ∷ row "F04094" "Magyar utca / Lázár utca" 47435211 19124598
    ∷ row "F04095" "Magyar utca / Lázár utca" 47435274 19124333
    ∷ row "F04096" "Magyar utca" 47438500 19128209
    ∷ row "F04097" "Magyar utca" 47438068 19128990
    ∷ row "F04098" "Mártírok útja / Nagysándor József utca" 47442687 19121215
    ∷ row "F04099" "Mártírok útja / Nagysándor József utca" 47442515 19122527
    ∷ []
