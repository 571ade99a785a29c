-- ===== src/StopList/Part17.antt =====
-- Lines 2571 to 2720 of bkk_uds/bkk_stop_list.h.
use mathlib.Core.List.{List, [], ◌∷◌}
use bkk_api.StopList.Row.{BkkStop, row}

unfoldable pub stops_17 : List BkkStop
stops_17 =
    row "F01056" "Honvédkórház (Hősök tere M)" 47516046 19074517
    ∷ row "F01057" "Vágány utca / Dózsa György út" 47518807 19072898
    ∷ row "F01058" "Vágány utca / Dózsa György út" 47518834 19073283
    ∷ row "F01059" "Vágány utca / Dózsa György út" 47518978 19072009
    ∷ row "F01060" "Vágány utca / Dózsa György út" 47519140 19071491
    ∷ row "F01061" "Dévai utca" 47518494 19064667
    ∷ row "F01062" "Dévai utca" 47518710 19065238
    ∷ row "F01063" "Dévai utca" 47518692 19064866
    ∷ row "F01064" "Dévai utca" 47518584 19065184
    ∷ row "F01065" "Lehel tér M" 47516812 19061865
    ∷ row "F01066" "Csanády utca (Lehel tér M)" 47515338 19060178
    ∷ row "F01067" "Csanády utca (Lehel tér M)" 47515987 19058625
    ∷ row "F01068" "Ferdinánd híd (Izabella utca)" 47510112 19062341
    ∷ row "F01069" "Ferdinánd híd (Izabella utca)" 47511695 19062594
    ∷ row "F01070" "Ferdinánd híd (Izabella utca)" 47511542 19062713
    ∷ row "F01071" "Ferdinánd híd (Izabella utca)" 47511101 19062753
    ∷ row "F01072" "Ferdinánd híd (Izabella utca)" 47511037 19062659
    ∷ row "F01073" "Munkácsy Mihály utca" 47515138 19069963
    ∷ row "F01074" "Rippl-Rónai utca" 47514904 19072299
    ∷ row "F01075" "Opera M" 47503158 19060918
    ∷ row "F01076" "Opera M" 47503402 19060269
    ∷ row "F01077" "Opera M" 47503194 19060095
    ∷ row "F01078" "Opera M" 47502600 19059604
    ∷ row "F01079" "Opera" 47502197 19058761
    ∷ row "F01080" "Opera" 47502305 19059161
    ∷ row "F01081" "Oktogon M" 47505586 19062870
    ∷ row "F01082" "Oktogon M" 47505964 19062405
    ∷ row "F01083" "Oktogon M" 47505947 19062619
    ∷ row "F01084" "Aradi utca (Oktogon M)" 47506334 19061597
    ∷ row "F01085" "Oktogon" 47504923 19062823
    ∷ row "F01086" "Oktogon" 47505023 19063233
    ∷ row "F01087" "Oktogon M" 47504634 19063946
    ∷ row "F01088" "Oktogon M" 47504796 19062525
    ∷ row "F01089" "Oktogon M" 47504111 19061860
    ∷ row "F01090" "Andrássy út (Vörösmarty utca M)" 47508294 19066363
    ∷ row "F01091" "Andrássy út (Vörösmarty utca M)" 47507449 19067716
    ∷ row "F01092" "Vörösmarty utca" 47507149 19066118
    ∷ row "F01093" "Vörösmarty utca" 47507238 19066529
    ∷ row "F01094" "Kodály körönd M" 47509543 19069588
    ∷ row "F01095" "Kodály körönd" 47509175 19069116
    ∷ row "F01096" "Kodály körönd" 47509261 19069544
    ∷ row "F01097" "Kodály körönd M" 47509849 19070451
    ∷ row "F01098" "Bajza utca M" 47511540 19072961
    ∷ row "F01099" "Bajza utca M" 47510875 19071674
    ∷ row "F01100" "Bajza utca" 47511237 19072271
    ∷ row "F01101" "Bajza utca" 47511342 19072662
    ∷ row "F01102" "Hősök tere" 47514055 19076439
    ∷ row "F01103" "Hősök tere" 47514110 19076883
    ∷ row "F01104" "Bajza utca" 47514410 19068290
    ∷ row "F01105" "Bajza utca" 47514851 19068290
    ∷ row "F01106" "Szinyei Merse utca" 47513169 19065037
    ∷ row "F01107" "Szinyei Merse utca" 47513035 19065196
    ∷ row "F01108" "Károly körút (Astoria M)" 47495515 19060134
    ∷ row "F01109" "Nyár utca" 47498554 19065510
    ∷ row "F01110" "Nagy Diófa utca" 47496278 19065642
    ∷ row "F01111" "Wesselényi utca / Erzsébet körút" 47500350 19068934
    ∷ row "F01112" "Wesselényi utca / Erzsébet körút" 47499856 19069160
    ∷ row "F01113" "Wesselényi utca / Erzsébet körút" 47500224 19069146
    ∷ row "F01114" "Wesselényi utca / Erzsébet körút" 47500072 19068894
    ∷ row "F01115" "Wesselényi utca / Erzsébet körút" 47500928 19069307
    ∷ row "F01116" "Blaha Lujza tér M (Dohány utca)" 47498319 19069664
    ∷ row "F01117" "Wesselényi utca / Izabella utca" 47502825 19073555
    ∷ row "F01118" "Almássy tér" 47502546 19072161
    ∷ row "F01119" "Dob utca" 47503877 19072507
    ∷ row "F01120" "Rózsa utca" 47503733 19074444
    ∷ row "F01121" "Rottenbiller utca / István utca" 47502824 19077404
    ∷ row "F01122" "Rottenbiller utca / István utca" 47503040 19076581
    ∷ row "F01123" "Bethlen Gábor utca" 47506422 19076609
    ∷ row "F01124" "Nefelejcs utca / Damjanich utca" 47507177 19077751
    ∷ row "F01125" "Nefelejcs utca / Damjanich utca" 47507429 19078030
    ∷ row "F01126" "Nefelejcs utca / Damjanich utca" 47507680 19078176
    ∷ row "F01127" "Bethlen Gábor tér" 47504514 19078414
    ∷ row "F01128" "Nefelejcs utca" 47505925 19079211
    ∷ row "F01129" "Nefelejcs utca / István utca" 47504532 19080365
    ∷ row "F01130" "Nefelejcs utca / István utca" 47504532 19081201
    ∷ row "F01131" "Keleti pályaudvar M (Garay utca)" 47501824 19082036
    ∷ row "F01134" "Damjanich utca / Dózsa György út" 47509712 19082200
    ∷ row "F01135" "Damjanich utca / Dózsa György út" 47509433 19082014
    ∷ row "F01136" "Damjanich utca / Dózsa György út" 47509110 19081655
    ∷ row "F01137" "Damjanich utca / Dózsa György út" 47509397 19083009
    ∷ row "F01138" "Dembinszky utca" 47508344 19083752
    ∷ row "F01139" "Dembinszky utca" 47507922 19083646
    ∷ row "F01140" "Ötvenhatosok tere" 47506410 19086220
    ∷ row "F01141" "Ötvenhatosok tere" 47506239 19086166
    ∷ row "F01142" "Ötvenhatosok tere (István utca)" 47506257 19084998
    ∷ row "F01143" "Cserhát utca" 47503703 19085939
    ∷ row "F01144" "Reiner Frigyes park" 47504260 19088368
    ∷ row "F01145" "Reiner Frigyes park" 47504241 19089298
    ∷ row "F01146" "Reiner Frigyes park" 47503468 19088169
    ∷ row "F01149" "Reiner Frigyes park" 47503495 19089549
    ∷ row "F01150" "Verseny utca" 47501758 19090822
    ∷ row "F01151" "Verseny utca" 47501901 19090544
    ∷ row "F01154" "Keleti pályaudvar M" 47501571 19084836
    ∷ row "F01159" "Keleti pályaudvar M" 47500466 19081955
    ∷ row "F01160" "Keleti pályaudvar M" 47500853 19082181
    ∷ row "F01161" "Huszár utca" 47499199 19077720
    ∷ row "F01162" "Huszár utca" 47499136 19078384
    ∷ row "F01163" "Kiss József utca" 47497516 19074043
    ∷ row "F01164" "Blaha Lujza tér M" 47496689 19069530
    ∷ row "F01165" "Blaha Lujza tér M" 47496779 19069862
    ∷ row "F01166" "Blaha Lujza tér M" 47497519 19071495
    ∷ row "F01167" "Blaha Lujza tér M" 47497618 19070619
    ∷ row "F01168" "Blaha Lujza tér M" 47496770 19070725
    ∷ row "F01169" "Blaha Lujza tér M" 47496248 19070671
    ∷ row "F01170" "Uránia" 47495586 19065257
    ∷ row "F01171" "Uránia" 47495640 19064965
    ∷ row "F01172" "Munkás utca" 47500188 19079221
    ∷ row "F01173" "Szövetség utca" 47500288 19072996
    ∷ row "F01174" "Szentkirályi utca" 47488975 19065852
    ∷ row "F01175" "Szentkirályi utca" 47489191 19066807
    ∷ row "F01176" "Muzsikus cigányok parkja" 47489278 19079639
    ∷ row "F01177" "Muzsikus cigányok parkja" 47488963 19081125
    ∷ row "F01178" "Kőbányai út 21." 47488850 19096000
    ∷ row "F01180" "Kőbányai út 21." 47488985 19095841
    ∷ row "F01181" "Kőbányai út 21." 47488949 19095496
    ∷ row "F01182" "Gumigyár" 47499688 19095784
    ∷ row "F01183" "Gumigyár" 47499481 19096089
    ∷ row "F01184" "Magdolna utca" 47491919 19089102
    ∷ row "F01185" "Corvin-negyed M (Mária utca)" 47487176 19068213
    ∷ row "F01186" "Orczy tér" 47489434 19089937
    ∷ row "F01187" "Orczy tér" 47489470 19090495
    ∷ row "F01188" "Corvin-negyed" 47485424 19070866
    ∷ row "F01189" "Corvin-negyed" 47484862 19072242
    ∷ row "F01190" "Corvin-negyed M" 47486591 19070416
    ∷ row "F01191" "Corvin-negyed M" 47485500 19069924
    ∷ row "F01192" "Corvin-negyed M" 47485368 19070946
    ∷ row "F01194" "Corvin-negyed M" 47486210 19070057
    ∷ row "F01195" "Corvin-negyed M" 47485284 19069552
    ∷ row "F01196" "Harminckettesek tere" 47489955 19070881
    ∷ row "F01197" "Harminckettesek tere" 47489592 19070589
    ∷ row "F01198" "Harminckettesek tere" 47489991 19070563
    ∷ row "F01199" "Harminckettesek tere" 47490357 19070841
    ∷ row "F01200" "Rákóczi tér M" 47492866 19071187
    ∷ row "F01201" "Rákóczi tér M" 47492390 19071001
    ∷ row "F01202" "Rákóczi tér M" 47492731 19071280
    ∷ row "F01203" "Rákóczi tér M" 47492686 19070935
    ∷ row "F01204" "Harminckettesek tere" 47489514 19071306
    ∷ row "F01205" "Harminckettesek tere" 47489388 19071638
    ∷ row "F01207" "Horváth Mihály tér" 47489594 19076707
    ∷ row "F01208" "Horváth Mihály tér" 47489377 19077397
    ∷ row "F01209" "Mátyás tér" 47492381 19078579
    ∷ row "F01210" "Mátyás tér" 47492039 19079017
    ∷ row "F01211" "Teleki László tér (Szerdahelyi utca)" 47492441 19082614
    ∷ row "F01212" "Teleki László tér (Szerdahelyi utca)" 47492263 19083476
    ∷ row "F01213" "Magdolna utca" 47492234 19087870
    ∷ row "F01214" "Magdolna utca" 47491866 19088027
    ∷ row "F01215" "Magdolna utca" 47492873 19087298
    ∷ row "F01216" "Orczy tér" 47490102 19090640
    ∷ row "F01217" "Orczy tér" 47490336 19090123
    ∷ row "F01218" "Orczy tér" 47489130 19092218
    ∷ []
