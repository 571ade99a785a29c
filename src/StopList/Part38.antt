-- ===== src/StopList/Part38.antt =====
-- Lines 5721 to 5870 of bkk_uds/bkk_stop_list.h.
use mathlib.Core.List.{List, [], ◌∷◌}
use bkk_api.StopList.Row.{BkkStop, row}

unfoldable pub stops_38 : List BkkStop
stops_38 =
    row "F04602" "Széchenyi utca / Ady Endre utca" 47389265 19218989
    ∷ row "F04603" "Gyál, Vecsési út" 47380893 19230220
    ∷ row "F04604" "Kőrösi út" 47376028 19223359
    ∷ row "F04605" "Ady Endre utca" 47385329 19210332
    ∷ row "F04606" "Ady Endre utca" 47384419 19211561
    ∷ row "F04639" "Háros" 47385565 19020115
    ∷ row "F04641" "Gát utca" 47383036 19013296
    ∷ row "F04642" "Gát utca" 47382631 19012687
    ∷ row "F04643" "Árpád utca" 47480101 19343121
    ∷ row "F04644" "Árpád utca" 47479983 19343200
    ∷ row "F04645" "Pécel vasútállomás" 47493467 19339122
    ∷ row "F04646" "Pécel vasútállomás" 47493308 19338019
    ∷ row "F04647" "Szent István utca" 47378622 19226983
    ∷ row "F04648" "Rákóczi Ferenc utca" 47387660 19215408
    ∷ row "F04649" "Bocskai István utca / Széchenyi utca" 47383449 19228016
    ∷ row "F04650" "Somogyi Béla utca / Széchenyi utca" 47387165 19222164
    ∷ row "F04651" "Bocskai István utca / Kőrösi út" 47377886 19219989
    ∷ row "F04652" "Somogyi Béla utca / Kőrösi út" 47381717 19214241
    ∷ row "F04653" "Lakihegy, Cseresznyés utca" 47376927 19006997
    ∷ row "F04680" "Lacházi fogadó" 47379465 19009070
    ∷ row "F04681" "Lacházi fogadó" 47380058 19009762
    ∷ row "F04682" "Erkel Ferenc utca" 47517136 18936282
    ∷ row "F04683" "Erkel Ferenc utca" 47516454 18935704
    ∷ row "F04684" "Gyógyszertár" 47513490 18932440
    ∷ row "F04685" "Gyógyszertár" 47513697 18932931
    ∷ row "F04687" "Szentendre" 47661056 19075675
    ∷ row "F04696" "Anna kápolna" 47582136 18939193
    ∷ row "F04697" "Anna kápolna" 47582310 18939042
    ∷ row "F04698" "Munkás utca" 47587064 18937162
    ∷ row "F04699" "Munkás utca" 47588091 18937089
    ∷ row "F04700" "Solymár, községháza" 47592154 18937099
    ∷ row "F04701" "Solymár, községháza" 47591669 18937233
    ∷ row "F04702" "Solymár, községháza" 47592490 18938223
    ∷ row "F04703" "Solymár, PEMÜ" 47597218 18927753
    ∷ row "F04704" "Dózsa György utca" 47592825 18931495
    ∷ row "F04705" "Dózsa György utca" 47592708 18932577
    ∷ row "F04706" "Templom tér" 47591394 18929729
    ∷ row "F04707" "Templom tér" 47591441 18929451
    ∷ row "F04708" "Budakeszi, városháza" 47510655 18929291
    ∷ row "F04709" "Budakeszi, városháza" 47510682 18929570
    ∷ row "F04710" "Ibolya utca" 47460391 18926483
    ∷ row "F04711" "Ibolya utca" 47460274 18926549
    ∷ row "F04712" "Patkó utca" 47458524 18939284
    ∷ row "F04713" "Patkó utca" 47459019 18939350
    ∷ row "F04714" "Gimnázium" 47460719 18939970
    ∷ row "F04715" "Gimnázium" 47460521 18939784
    ∷ row "F04716" "Budaörs, városháza" 47461238 18946931
    ∷ row "F04717" "Budaörs, városháza" 47461391 18946308
    ∷ row "F04719" "Kisfaludy utca" 47460281 18952808
    ∷ row "F04720" "Kisfaludy utca" 47460255 18954320
    ∷ row "F04721" "Károly király utca" 47460653 18956866
    ∷ row "F04722" "Károly király utca" 47460881 18959796
    ∷ row "F04724" "Budaörsi lakótelep" 47456043 18940404
    ∷ row "F04725" "Ifjúság utca" 47456696 18947179
    ∷ row "F04726" "Ifjúság utca" 47456723 18946595
    ∷ row "F04727" "Csata utca" 47455266 18960727
    ∷ row "F04728" "Csata utca" 47455673 18960720
    ∷ row "F04729" "Agip utca" 47449133 18962739
    ∷ row "F04730" "Agip utca" 47450194 18962419
    ∷ row "F04731" "Kinizsi utca" 47449725 18969601
    ∷ row "F04732" "Kinizsi utca" 47449633 18969846
    ∷ row "F04733" "Erdő utca" 47509131 18926755
    ∷ row "F04734" "Erdő utca" 47508816 18926543
    ∷ row "F04735" "Aradi utca" 47461760 18969304
    ∷ row "F04736" "Aradi utca" 47461579 18968721
    ∷ row "F04737" "Budaörs, benzinkút" 47451399 18958486
    ∷ row "F04738" "Budaörs, benzinkút" 47453180 18958444
    ∷ row "F04739" "Gyár utca" 47458333 18906106
    ∷ row "F04740" "Gyár utca" 47458332 18905576
    ∷ row "F04741" "Légimentők" 47455351 18907478
    ∷ row "F04742" "Légimentők" 47454911 18908275
    ∷ row "F04743" "Törökbálint vasútállomás" 47450688 18904838
    ∷ row "F04744" "Törökbálint vasútállomás" 47450796 18905037
    ∷ row "F04745" "Kerekdomb utca" 47448152 18905216
    ∷ row "F04746" "Kerekdomb utca" 47448467 18905322
    ∷ row "F04747" "Vasút utca" 47447333 18908919
    ∷ row "F04748" "Vasút utca" 47447033 18909290
    ∷ row "F04749" "Deák Ferenc utca" 47441254 18913322
    ∷ row "F04750" "Deák Ferenc utca" 47440752 18913933
    ∷ row "F04752" "Baross Gábor utca" 47436110 18915515
    ∷ row "F04754" "Bartók Béla utca" 47432698 18918673
    ∷ row "F04755" "Munkácsy Mihály utca (hősi emlékmű)" 47431532 18916887
    ∷ row "F04757" "Harangláb" 47432729 18913967
    ∷ row "F04759" "Őszibarack utca" 47436967 18901177
    ∷ row "F04761" "Széchenyi tér" 47439341 18900839
    ∷ row "F04762" "Idősek otthona" 47442436 18901307
    ∷ row "F04763" "Idősek otthona" 47442284 18901666
    ∷ row "F04764" "Köztársaság tér" 47445094 18905225
    ∷ row "F04765" "Köztársaság tér" 47445734 18905926
    ∷ row "F04767" "Diósd, törökbálinti elágazás" 47410608 18956343
    ∷ row "F04768" "Diósd, törökbálinti elágazás" 47410627 18957310
    ∷ row "F04769" "Diósd, Sashegyi út" 47407385 18951910
    ∷ row "F04770" "Diósd, Sashegyi út" 47407402 18951592
    ∷ row "F04771" "Gyár utca" 47402476 18943997
    ∷ row "F04772" "Diósd, városháza" 47408767 18948754
    ∷ row "F04773" "Csapágygyár" 47405310 18942207
    ∷ row "F04777" "Rácski telep" 47554785 18927102
    ∷ row "F04778" "Rácski telep" 47554669 18927381
    ∷ row "F04779" "Erdészház" 47560689 18917883
    ∷ row "F04780" "Erdészház" 47560478 18918399
    ∷ row "F04781" "13-as kilométerkő" 47567101 18909322
    ∷ row "F04782" "13-as kilométerkő" 47567007 18909824
    ∷ row "F04783" "Sebestyéndomb" 47571669 18898343
    ∷ row "F04784" "Sebestyéndomb" 47571604 18898850
    ∷ row "F04785" "Teleki-Tisza-kastély" 47575887 18891140
    ∷ row "F04786" "Teleki-Tisza-kastély" 47575359 18893082
    ∷ row "F04788" "Budakeszi, Dózsa György tér" 47507011 18921411
    ∷ row "F04790" "Budakeszi, Dózsa György tér" 47507327 18921675
    ∷ row "F04791" "Tulipán utca" 47462356 18973945
    ∷ row "F04792" "Tulipán utca" 47462194 18973442
    ∷ row "F04795" "Felsőhatár utca" 47463161 18980881
    ∷ row "F04796" "Felsőhatár utca" 47463062 18981053
    ∷ row "F04797" "Bajcsy-Zsilinszky utca" 47589925 18936022
    ∷ row "F04798" "Bajcsy-Zsilinszky utca" 47590213 18936353
    ∷ row "F04799" "Pilisvörösvári utca" 47594977 18935763
    ∷ row "F04800" "Pilisvörösvári utca" 47595103 18935311
    ∷ row "F04801" "Csiki csárda" 47459918 18921895
    ∷ row "F04802" "Csiki csárda" 47459486 18921113
    ∷ row "F04803" "Csiki tanya" 47458758 18914100
    ∷ row "F04804" "Csiki tanya" 47458598 18915227
    ∷ row "F04805" "Lévai utca" 47459493 18946683
    ∷ row "F04806" "Lévai utca" 47458648 18946923
    ∷ row "F04807" "Kötő utca" 47460910 18949511
    ∷ row "F04808" "Kötő utca" 47460631 18950223
    ∷ row "F04809" "Templom tér" 47461709 18964364
    ∷ row "F04810" "Templom tér" 47461576 18964530
    ∷ row "F04811" "Baross utca" 47459036 18958686
    ∷ row "F04812" "Jókai Mór utca" 47443959 18910849
    ∷ row "F04813" "Jókai Mór utca" 47444220 18910915
    ∷ row "F04814" "Ady Endre utca" 47434951 18906830
    ∷ row "F04815" "Zrínyi utca" 47435036 18910674
    ∷ row "F04816" "Kölcsey Ferenc utca" 47407793 18946173
    ∷ row "F04821" "BM iskola" 47550038 18933759
    ∷ row "F04822" "BM iskola" 47549594 18934181
    ∷ row "F04823" "Mészégető" 47558727 18921366
    ∷ row "F04824" "Mészégető" 47558915 18920635
    ∷ row "F04825" "Diófa utca (Posta)" 47576253 18889358
    ∷ row "F04826" "Diófa utca (Posta)" 47575818 18886794
    ∷ row "F04827" "Nagykovácsi, községháza" 47576066 18884042
    ∷ row "F04828" "Nagykovácsi, községháza" 47575922 18884401
    ∷ row "F04829" "Alcsiki dűlő" 47460064 18934007
    ∷ row "F04830" "Alcsiki dűlő" 47460145 18934511
    ∷ row "F04831" "Váci Mihály utca" 47595658 18932397
    ∷ row "F04832" "Váci Mihály utca" 47596171 18931261
    ∷ row "F04833" "Tetra Pak" 47457451 18903852
    ∷ row "F04834" "Tetra Pak" 47457828 18903519
    ∷ row "F04835" "Budaörsi lakótelep" 47455692 18940895
    ∷ row "F04836" "Budaörsi lakótelep" 47455638 18940630
    ∷ row "F04837" "Lejtő utca" 47459635 18930598
    ∷ row "F04838" "Lejtő utca" 47459416 18931577
    ∷ []
