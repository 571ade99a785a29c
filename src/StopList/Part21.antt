-- ===== src/StopList/Part21.antt =====
-- Lines 3171 to 3320 of bkk_uds/bkk_stop_list.h.
use mathlib.Core.List.{List, [], ◌∷◌}
use bkk_api.StopList.Row.{BkkStop, row}

unfoldable pub stops_21 : List BkkStop
stops_21 =
    row "F01739" "Kerepesi út" 47500442 19115547
    ∷ row "F01740" "Pillangó utca M" 47501491 19119586
    ∷ row "F01741" "Pillangó utca M" 47501223 19119530
    ∷ row "F01742" "Pillangó utca" 47501051 19118839
    ∷ row "F01743" "Pillangó utca" 47501204 19120417
    ∷ row "F01744" "Hős utca" 47497564 19116008
    ∷ row "F01745" "Hős utca" 47496862 19116366
    ∷ row "F01746" "Expó tér" 47495295 19119695
    ∷ row "F01749" "Örs vezér tere" 47502922 19135963
    ∷ row "F01751" "Örs vezér tere M+H" 47503002 19135420
    ∷ row "F01752" "Örs vezér tere M+H" 47502506 19136269
    ∷ row "F01754" "Budapest, Örs vezér tere" 47503450 19137173
    ∷ row "F01755" "Örs vezér tere M+H" 47504017 19136271
    ∷ row "F01756" "Örs vezér tere M+H" 47504287 19136192
    ∷ row "F01757" "Örs vezér tere M+H" 47504115 19136435
    ∷ row "F01769" "Gyakorló köz" 47501621 19141576
    ∷ row "F01770" "Gyakorló köz" 47501656 19142691
    ∷ row "F01771" "Gyakorló köz" 47503832 19143306
    ∷ row "F01772" "Sarkantyú utca" 47503968 19142178
    ∷ row "F01773" "Halas utca" 47502519 19153245
    ∷ row "F01774" "Halas utca" 47502501 19153019
    ∷ row "F01775" "Egyenes utcai lakótelep" 47505716 19159025
    ∷ row "F01776" "Egyenes utcai lakótelep" 47505572 19158799
    ∷ row "F01777" "Nagyicce H" 47506581 19166593
    ∷ row "F01778" "Nagyicce H" 47506832 19167151
    ∷ row "F01779" "Albertirsai köz" 47493870 19138590
    ∷ row "F01780" "Terebesi utca" 47493400 19141283
    ∷ row "F01781" "Terebesi utca" 47494246 19140449
    ∷ row "F01782" "Terebesi utca" 47494163 19141024
    ∷ row "F01783" "Terebesi utca" 47494703 19140334
    ∷ row "F01784" "EGIS Gyógyszergyár" 47500495 19153719
    ∷ row "F01785" "EGIS Gyógyszergyár" 47499236 19153835
    ∷ row "F01786" "MÁV-telep" 47493596 19163631
    ∷ row "F01787" "MÁV-telep" 47493758 19163101
    ∷ row "F01788" "Dömsödi utca" 47502892 19167700
    ∷ row "F01789" "Heves utca" 47503152 19167966
    ∷ row "F01790" "Rákosfalva H" 47504985 19151458
    ∷ row "F01791" "Rákosfalva H" 47504662 19150966
    ∷ row "F01794" "Kelemen utca" 47476948 19132353
    ∷ row "F01795" "Kelemen utca" 47477236 19131862
    ∷ row "F01796" "Gyógyszergyár" 47472428 19138434
    ∷ row "F01797" "Gyógyszergyár" 47472329 19139137
    ∷ row "F01798" "Kőbányai garázs" 47490712 19114248
    ∷ row "F01799" "Kőbányai garázs" 47490586 19113995
    ∷ row "F01800" "Kőbánya alsó vasútállomás" 47484174 19127349
    ∷ row "F01801" "Kőbánya alsó vasútállomás" 47483337 19127984
    ∷ row "F01803" "Kőbánya alsó vasútállomás" 47483931 19127534
    ∷ row "F01804" "Vasgyár utca" 47468993 19148005
    ∷ row "F01805" "Vasgyár utca" 47469084 19147382
    ∷ row "F01806" "Sibrik Miklós út" 47467136 19153109
    ∷ row "F01807" "Sibrik Miklós út" 47467200 19152392
    ∷ row "F01808" "Izraelita temető" 47479379 19177889
    ∷ row "F01810" "Izraelita temető" 47478911 19177808
    ∷ row "F01811" "Izraelita temető" 47479496 19177664
    ∷ row "F01812" "Meténg utca" 47484712 19178751
    ∷ row "F01813" "Meténg utca" 47484442 19178459
    ∷ row "F01814" "Fővárosi Kertészet" 47489354 19177754
    ∷ row "F01815" "Fővárosi Kertészet" 47489382 19176958
    ∷ row "F01816" "Díszítő üzem" 47488331 19183630
    ∷ row "F01817" "Díszítő üzem" 47488214 19183709
    ∷ row "F01818" "Tárna utca" 47489351 19163755
    ∷ row "F01819" "Tárna utca" 47489395 19164724
    ∷ row "F01822" "Téglavető utca" 47489579 19160385
    ∷ row "F01823" "Téglavető utca" 47489823 19159045
    ∷ row "F01824" "Orion" 47489834 19156564
    ∷ row "F01825" "Orion" 47490115 19154839
    ∷ row "F01826" "Szent László Gimnázium" 47489255 19136145
    ∷ row "F01827" "Szent László Gimnázium" 47488626 19135241
    ∷ row "F01828" "Szent László Gimnázium" 47488126 19134546
    ∷ row "F01829" "Kocka utca" 47484879 19155970
    ∷ row "F01830" "Kocka utca" 47484933 19155718
    ∷ row "F01831" "Kocka utca" 47484915 19155466
    ∷ row "F01832" "Kocka utca" 47484708 19155969
    ∷ row "F01833" "Bajcsy-Zsilinszky Kórház" 47480034 19162010
    ∷ row "F01834" "Bajcsy-Zsilinszky Kórház" 47479656 19162725
    ∷ row "F01835" "Bajcsy-Zsilinszky Kórház" 47480034 19162209
    ∷ row "F01836" "Bajcsy-Zsilinszky Kórház" 47479773 19162739
    ∷ row "F01837" "Vörösdinka utca" 47481834 19151492
    ∷ row "F01838" "Vörösdinka utca" 47480649 19148929
    ∷ row "F01839" "Szlávy utca" 47475709 19141319
    ∷ row "F01840" "Szlávy utca" 47475357 19142127
    ∷ row "F01841" "Újhegyi sétány" 47471669 19163159
    ∷ row "F01842" "Újhegyi sétány" 47470813 19164510
    ∷ row "F01843" "Bányató utca" 47468748 19160964
    ∷ row "F01844" "Bányató utca" 47469234 19160501
    ∷ row "F01845" "Zsombék utca" 47471458 19166608
    ∷ row "F01846" "Rézvirág utca" 47486265 19202373
    ∷ row "F01847" "Rézvirág utca" 47486075 19203793
    ∷ row "F01848" "Dombhát utca" 47486012 19209442
    ∷ row "F01849" "Dombhát utca" 47485832 19209909
    ∷ row "F01850" "Gépmadár utca" 47502308 19147484
    ∷ row "F01851" "Gépmadár utca" 47502174 19147311
    ∷ row "F01852" "Pilisi utca" 47502170 19160584
    ∷ row "F01853" "Pilisi utca" 47502223 19161752
    ∷ row "F01854" "Gépmadár park" 47504414 19146214
    ∷ row "F01855" "Gépmadár park" 47504233 19146983
    ∷ row "F01856" "Pongrácz úti lakótelep" 47491221 19120286
    ∷ row "F01857" "Pongrácz úti lakótelep" 47491293 19119782
    ∷ row "F01858" "Hungaropharma" 47481847 19204470
    ∷ row "F01859" "Hungaropharma" 47482352 19203344
    ∷ row "F01860" "Fehér úti ipari park" 47499537 19137432
    ∷ row "F01861" "Fehér úti ipari park" 47499448 19137140
    ∷ row "F01862" "Fehér úti ipari park" 47499904 19137357
    ∷ row "F01863" "Fehér úti ipari park" 47499544 19137569
    ∷ row "F01864" "Aluljáró (Rézvirág utca)" 47486714 19203211
    ∷ row "F01865" "Aluljáró (Rézvirág utca)" 47486625 19202759
    ∷ row "F01866" "Új köztemető (Kozma utca)" 47475097 19178223
    ∷ row "F01867" "Új köztemető (Kozma utca)" 47474630 19178129
    ∷ row "F01868" "Tűzoltóság" 47478965 19200150
    ∷ row "F01869" "Tűzoltóság" 47479037 19200230
    ∷ row "F01870" "Felsőcsatári út" 47458041 19176425
    ∷ row "F01872" "Kollégium" 47483985 19192495
    ∷ row "F01873" "Kollégium" 47483804 19192787
    ∷ row "F01874" "Ezüstfa utca" 47479762 19195933
    ∷ row "F01875" "Csillagvirág utca" 47479906 19196119
    ∷ row "F01878" "Pöttyös utca" 47468557 19117532
    ∷ row "F01879" "Pöttyös utca" 47467939 19118838
    ∷ row "F01880" "Kamaraerdő" 47435952 18978596
    ∷ row "F01881" "Kamaraerdő" 47435844 18978689
    ∷ row "F01883" "Idősek Otthona" 47437580 18979164
    ∷ row "F01884" "Idősek Otthona" 47437886 18979177
    ∷ row "F01885" "Kamaraerdei Ifjúsági Park" 47441160 18979490
    ∷ row "F01886" "Kamaraerdei Ifjúsági Park" 47440603 18979345
    ∷ row "F01887" "Kamaraerdei Ifjúsági Park" 47440728 18979173
    ∷ row "F01888" "Repülőtér" 47444609 18986738
    ∷ row "F01889" "Repülőtér" 47444777 18986905
    ∷ row "F01890" "Fülőke utca" 47445430 18991497
    ∷ row "F01891" "Fülőke utca" 47445340 18991471
    ∷ row "F01892" "Balatoni út" 47444573 19005406
    ∷ row "F01893" "Balatoni út" 47444402 19005671
    ∷ row "F01894" "Kelenvölgy-Péterhegy" 47443568 19012407
    ∷ row "F01895" "Kelenvölgy-Péterhegy" 47443505 19012062
    ∷ row "F01896" "Kelenvölgy-Péterhegy" 47443721 19012407
    ∷ row "F01897" "Kelenvölgy-Péterhegy" 47444422 19012579
    ∷ row "F01898" "Kápolna út" 47446617 19013771
    ∷ row "F01899" "Kápolna út" 47447121 19014181
    ∷ row "F01900" "Olajfa utca" 47449577 19015532
    ∷ row "F01901" "Olajfa utca" 47449307 19015214
    ∷ row "F01902" "Budafoki elágazás" 47435406 19035717
    ∷ row "F01903" "Budafoki elágazás" 47435415 19036207
    ∷ row "F01904" "Budafoki elágazás" 47434785 19036420
    ∷ row "F01905" "Budafoki elágazás" 47435460 19036433
    ∷ row "F01906" "Vasút utca" 47446249 18975877
    ∷ row "F01907" "Vasút utca" 47445871 18976422
    ∷ row "F01908" "Repülőgépes Szolgálat" 47447338 18978064
    ∷ row "F01909" "Repülőgépes Szolgálat" 47447733 18976817
    ∷ row "F01910" "Repülőgépes Szolgálat" 47448461 18975158
    ∷ row "F01911" "Repülőgépes Szolgálat" 47448254 18975278
    ∷ row "F01913" "Budaörsi repülőtér" 47447127 18985794
    ∷ row "F01914" "Bolygó utca" 47450899 19016420
    ∷ []
