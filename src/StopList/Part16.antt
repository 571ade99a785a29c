-- ===== src/StopList/Part16.antt =====
-- Lines 2421 to 2570 of bkk_uds/bkk_stop_list.h.
use mathlib.Core.List.{List, [], ◌∷◌}
use bkk_api.StopList.Row.{BkkStop, row}

unfoldable pub stops_16 : List BkkStop
stops_16 =
    row "F00876" "Deák Ferenc utca / Rózsa utca" 47564173 19100120
    ∷ row "F00877" "Deák Ferenc utca / Rózsa utca" 47563247 19099588
    ∷ row "F00878" "Nap utca" 47555379 19094811
    ∷ row "F00879" "Nap utca" 47555190 19095169
    ∷ row "F00880" "Szülőotthon" 47565262 19106010
    ∷ row "F00881" "Szülőotthon" 47565369 19106436
    ∷ row "F00884" "Izzó utca" 47579888 19095736
    ∷ row "F00885" "Árpád Kórház" 47561402 19103785
    ∷ row "F00886" "Árpád Kórház" 47561033 19102961
    ∷ row "F00887" "Ősz utca" 47557929 19105881
    ∷ row "F00888" "Ősz utca" 47557286 19105737
    ∷ row "F00889" "Elem utca" 47554297 19101506
    ∷ row "F00890" "Berlini utca" 47554585 19101546
    ∷ row "F00891" "Ősz utca" 47557275 19100685
    ∷ row "F00892" "Ősz utca" 47557527 19100273
    ∷ row "F00893" "Langlet Waldemár utca" 47567178 19082662
    ∷ row "F00894" "Langlet Waldemár utca" 47566842 19082515
    ∷ row "F00895" "Perényi Zsigmond utca" 47570052 19085747
    ∷ row "F00896" "Tinódi utca" 47569935 19085494
    ∷ row "F00897" "Újpest-városkapu" 47559495 19081099
    ∷ row "F00898" "Újpest-városkapu" 47559146 19079567
    ∷ row "F00899" "Káposztásmegyer, Mogyoródi-patak" 47598635 19121695
    ∷ row "F00900" "Kordován tér" 47587758 19112600
    ∷ row "F00901" "Kordován tér" 47587327 19111629
    ∷ row "F00902" "Bőrfestő utca" 47586928 19117531
    ∷ row "F00903" "Bőrfestő utca" 47587791 19118170
    ∷ row "F00904" "Bőrfestő utca" 47587840 19118373
    ∷ row "F00905" "Bőrfestő utca" 47587454 19118066
    ∷ row "F00906" "Székpatak utca" 47596181 19121067
    ∷ row "F00907" "Székpatak utca" 47595848 19121292
    ∷ row "F00908" "Sárpatak utca" 47593332 19117141
    ∷ row "F00909" "Sárpatak utca" 47592854 19118576
    ∷ row "F00910" "Újpest-központ M" 47561488 19089913
    ∷ row "F00912" "Újpest-központ" 47560144 19091319
    ∷ row "F00913" "Újpest-központ" 47560437 19089760
    ∷ row "F00916" "Vízművek lakótelep" 47597652 19091430
    ∷ row "F00918" "Fővám tér M" 47486770 19056774
    ∷ row "F00919" "Fővám tér M" 47486941 19056482
    ∷ row "F00920" "Fővám tér M" 47487051 19057200
    ∷ row "F00921" "Fővám tér M" 47486916 19057240
    ∷ row "F00922" "Fővám tér M" 47487186 19057810
    ∷ row "F00923" "Fővám tér M" 47486952 19057611
    ∷ row "F00924" "Petőfi tér" 47493105 19050566
    ∷ row "F00925" "Jászai Mari tér" 47513116 19048175
    ∷ row "F00926" "Jászai Mari tér" 47512864 19048785
    ∷ row "F00929" "Jászai Mari tér" 47512558 19050126
    ∷ row "F00930" "Jászai Mari tér" 47512504 19049555
    ∷ row "F00931" "Vígszínház" 47511902 19050513
    ∷ row "F00932" "Vígszínház" 47512046 19052319
    ∷ row "F00933" "Nyugati pályaudvar M" 47510300 19056167
    ∷ row "F00934" "Nyugati pályaudvar M" 47509896 19056394
    ∷ row "F00935" "Nyugati pályaudvar M" 47509922 19056658
    ∷ row "F00936" "Nyugati pályaudvar" 47511720 19056873
    ∷ row "F00937" "Nyugati pályaudvar" 47510828 19055952
    ∷ row "F00938" "Báthory utca / Bajcsy-Zsilinszky út" 47507063 19054270
    ∷ row "F00939" "Báthory utca / Bajcsy-Zsilinszky út" 47506506 19055716
    ∷ row "F00940" "Báthory utca / Bajcsy-Zsilinszky út" 47507189 19055730
    ∷ row "F00941" "Báthory utca / Bajcsy-Zsilinszky út" 47506101 19054854
    ∷ row "F00942" "Arany János utca M" 47503304 19055105
    ∷ row "F00943" "Arany János utca M" 47502881 19054734
    ∷ row "F00944" "Bajcsy-Zsilinszky út M" 47499965 19055674
    ∷ row "F00945" "Bajcsy-Zsilinszky út M" 47500363 19055901
    ∷ row "F00946" "Deák Ferenc tér M" 47497089 19055410
    ∷ row "F00950" "Deák Ferenc tér M" 47496945 19055715
    ∷ row "F00951" "Ferenciek tere M" 47492925 19055343
    ∷ row "F00952" "Ferenciek tere" 47492808 19056091
    ∷ row "F00953" "Ferenciek tere" 47491820 19056789
    ∷ row "F00954" "Deák Ferenc tér" 47498660 19054545
    ∷ row "F00955" "Deák Ferenc tér" 47497591 19054525
    ∷ row "F00956" "Arany János utca" 47504733 19054679
    ∷ row "F00957" "Arany János utca" 47503670 19054513
    ∷ row "F00958" "Kossuth Lajos tér" 47505808 19044242
    ∷ row "F00959" "Kossuth Lajos tér" 47505511 19045769
    ∷ row "F00960" "Deák Ferenc tér" 47498843 19053605
    ∷ row "F00961" "Deák Ferenc tér" 47497593 19053857
    ∷ row "F00962" "Deák Ferenc tér" 47497720 19053670
    ∷ row "F00963" "Deák Ferenc tér" 47497728 19054142
    ∷ row "F00964" "Vörösmarty tér" 47496671 19050193
    ∷ row "F00965" "Vörösmarty tér" 47496737 19050593
    ∷ row "F00966" "Vigadó tér" 47495549 19048374
    ∷ row "F00967" "Vigadó tér" 47495837 19048215
    ∷ row "F00968" "Országház, látogatóközpont" 47509176 19046768
    ∷ row "F00969" "Országház, látogatóközpont" 47508879 19046582
    ∷ row "F00970" "Kossuth Lajos tér M" 47505966 19050925
    ∷ row "F00971" "Kossuth Lajos tér M" 47505749 19046834
    ∷ row "F00972" "Kossuth Lajos tér M" 47505713 19047299
    ∷ row "F00973" "Széchenyi István tér" 47500685 19046064
    ∷ row "F00974" "Széchenyi István tér" 47500892 19046051
    ∷ row "F00975" "Eötvös tér" 47497852 19047166
    ∷ row "F00976" "Eötvös tér" 47497969 19047020
    ∷ row "F00979" "József nádor tér" 47498726 19050168
    ∷ row "F00980" "Hild tér (Deák Ferenc tér M)" 47498645 19051535
    ∷ row "F00981" "Hild tér" 47498978 19050884
    ∷ row "F00982" "Szervita tér" 47495371 19052782
    ∷ row "F00983" "Ferenciek tere M" 47492934 19056007
    ∷ row "F00985" "Deák Ferenc tér M" 47497701 19053353
    ∷ row "F00986" "Zrínyi utca" 47499679 19049464
    ∷ row "F00990" "Markó utca" 47509123 19051164
    ∷ row "F00991" "Markó utca" 47508817 19049518
    ∷ row "F00996" "Bajcsy-Zsilinszky út" 47499841 19055259
    ∷ row "F00997" "Bajcsy-Zsilinszky út" 47499937 19055655
    ∷ row "F00999" "Március 15. tér" 47490908 19051612
    ∷ row "F01000" "Március 15. tér" 47490719 19051652
    ∷ row "F01001" "Március 15. tér" 47490856 19051667
    ∷ row "F01004" "Ferenciek tere M" 47492907 19054534
    ∷ row "F01005" "Kálvin tér M" 47489219 19061248
    ∷ row "F01006" "Kálvin tér M" 47489461 19061486
    ∷ row "F01007" "Kálvin tér M" 47489083 19062694
    ∷ row "F01010" "Kálvin tér M" 47490010 19061978
    ∷ row "F01011" "Kálvin tér M" 47490109 19060783
    ∷ row "F01012" "Astoria M" 47494561 19059696
    ∷ row "F01013" "Astoria M" 47494145 19060146
    ∷ row "F01014" "Astoria M" 47493635 19060134
    ∷ row "F01015" "Astoria M" 47493932 19060399
    ∷ row "F01016" "Astoria M" 47494478 19061168
    ∷ row "F01017" "Astoria M" 47494606 19060718
    ∷ row "F01018" "Astoria" 47494594 19060933
    ∷ row "F01019" "Astoria" 47494825 19062457
    ∷ row "F01020" "Széchenyi utca" 47503142 19048522
    ∷ row "F01021" "Hercegprímás utca" 47502261 19051986
    ∷ row "F01022" "Hold utca" 47505148 19052398
    ∷ row "F01023" "Nyugati pályaudvar M" 47511524 19056686
    ∷ row "F01024" "Nyugati pályaudvar M" 47511228 19056474
    ∷ row "F01025" "Nyugati pályaudvar M" 47510994 19056288
    ∷ row "F01027" "Nyugati pályaudvar M" 47511012 19056487
    ∷ row "F01028" "Nyugati pályaudvar M" 47510769 19056301
    ∷ row "F01029" "Nyugati pályaudvar M" 47509806 19057151
    ∷ row "F01030" "Nyugati pályaudvar M (Podmaniczky utca)" 47509123 19058664
    ∷ row "F01031" "Nyugati pályaudvar M (Podmaniczky utca)" 47509276 19058597
    ∷ row "F01032" "Akácfa utca" 47502054 19062989
    ∷ row "F01033" "Akácfa utca" 47502152 19062963
    ∷ row "F01034" "Király utca / Erzsébet körút" 47503573 19065950
    ∷ row "F01035" "Király utca / Erzsébet körút" 47503256 19065856
    ∷ row "F01036" "Király utca / Erzsébet körút" 47503148 19065418
    ∷ row "F01037" "Király utca / Erzsébet körút" 47502806 19066187
    ∷ row "F01038" "Király utca / Erzsébet körút" 47503033 19066188
    ∷ row "F01039" "Király utca / Erzsébet körút" 47502808 19066042
    ∷ row "F01040" "Izabella utca / Király utca" 47505497 19070171
    ∷ row "F01041" "Izabella utca / Király utca" 47505425 19069083
    ∷ row "F01042" "Izabella utca / Király utca" 47506099 19069534
    ∷ row "F01043" "Izabella utca / Király utca" 47505236 19069030
    ∷ row "F01044" "Lövölde tér" 47506899 19071765
    ∷ row "F01045" "Lövölde tér" 47507304 19072123
    ∷ row "F01046" "Reformáció park" 47508185 19075442
    ∷ row "F01047" "Reformáció park" 47507843 19076026
    ∷ row "F01048" "Benczúr utca" 47513212 19078233
    ∷ row "F01050" "Hősök tere M" 47514102 19076467
    ∷ row "F01051" "Hősök tere M" 47515569 19075897
    ∷ row "F01054" "Honvédkórház (Hősök tere M)" 47515929 19074543
    ∷ row "F01055" "Hősök tere M" 47515668 19075446
    ∷ []
